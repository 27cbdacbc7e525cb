-- ===== src/BootImage/Write/Kept.antt =====
-- What `write_idempotent` leaves in the file system.
use oukitel_rt7_linux.Prelude.{
  ◌≡◌, Bool, [], ◌∷◌, err, ◌&&◌, not, Option-cases, refl, ap, ◌∙◌, ◌↔◌, ◌⊎◌, true, false, Option,
  none, some, list_eq, nat_eq, list_beq, list_beq_iff, eq_refl, if◌then◌else◌, Result, ok, arith,
  Bool-cases, inl, inr,
}
use oukitel_rt7_linux.Python.Bytes.{Bytes}
use oukitel_rt7_linux.Python.Text.{Text}
use oukitel_rt7_linux.Python.Path.{FilePath, parent}
use oukitel_rt7_linux.Python.Dict.{lookup, lookup-insert}
use oukitel_rt7_linux.Python.Files.{
  Files, file, read_bytes, exists, is_some, is_directory, lookup-erase, write_bytes, replace,
}
use oukitel_rt7_linux.BootImage.Defs.{BootError, os_error}
use oukitel_rt7_linux.BootImage.Write.{with_name, temporary_path, keep_existing, write_idempotent}

-- Nothing stands at the path, its parent is a directory, and no directory has the temporary name.
pub record IsWritable (path : FilePath) (files : Files) : Type 0 where
  pub free : exists files path ≡ false
  pub placed : is_directory files (parent path) ≡ true
  pub beside : is_directory files (temporary_path path) ≡ false

parent-with_name : (path : FilePath) (name : Text) → parent (with_name path name) ≡ parent path
unfolding parent with_name
parent-with_name [] name = refl
parent-with_name (p ∷ []) name = refl
parent-with_name (p ∷ q ∷ []) name = refl
parent-with_name (p ∷ q ∷ r ∷ path) name =
    ap (λ rest. p ∷ rest) (parent-with_name (q ∷ r ∷ path) name)

read_bytes-free :
    (path : FilePath) (files : Files) → exists files path ≡ false → read_bytes files path ≡ none
unfolding exists read_bytes is_some
read_bytes-free [] files h = cc
read_bytes-free (name ∷ path) files h = elim (Option-cases (lookup (name ∷ path) files)) [
  | inl e ↦ rw e refl
  | inr (node, e) ↦ cc (rw e at h)
]

module _ (path : FilePath) (bytes : Bytes) (files : Files) where
  abbrev is_writable : Bool
  is_writable = is_directory files (parent path) && not (is_directory files (temporary_path path))

  abbrev after : Files
  after = (write_idempotent path bytes files).1

  parent-temporary_path : parent (temporary_path path) ≡ parent path
  unfolding temporary_path
  parent-temporary_path = parent-with_name path _

  fresh_path :
      exists files path ≡ false
      → is_writable ≡ true
      → write_idempotent path bytes files ≡ (
        ok tt,
        replace (temporary_path path) path bytes (write_bytes (temporary_path path) bytes files),
      )
  unfolding write_idempotent
  fresh_path h writable = rw h (rw parent-temporary_path (rw writable refl))

  failed_path :
      exists files path ≡ false
      → is_writable ≡ false
      → write_idempotent path bytes files ≡ (err (os_error (temporary_path path)), files)
  unfolding write_idempotent
  failed_path h failed = rw h (rw parent-temporary_path (rw failed refl))

  old_path :
      exists files path ≡ true
      → write_idempotent path bytes files ≡ keep_existing path bytes (read_bytes files path) files
  unfolding write_idempotent
  old_path h = rw h refl

  kept : (o : Option Bytes) → (keep_existing path bytes o files).1 ≡ files
  kept none = refl
  kept (some old) = ground arith

  kept_ok : (o : Option Bytes) → ((keep_existing path bytes o files).0 ≡ ok tt) ↔ (o ≡ some bytes)
  kept_ok none = (λ h. cc, λ h. cc)
  kept_ok (some old) = ground (arith, list_beq_iff old bytes)

  lookup-replaced :
      (q : FilePath)
      → lookup q
          (replace (temporary_path path) path bytes (write_bytes (temporary_path path) bytes files))
        ≡ (if list_beq q path
            then some (file bytes)
            else if list_beq q (temporary_path path)
            then none
            else lookup q files)
  unfolding write_bytes replace
  lookup-replaced q = rw (lookup-insert q path (file bytes)) (
      rw (lookup-erase q (temporary_path path))
        (rw (lookup-insert q (temporary_path path) (file bytes)) (ground arith)))

  old-untouched : exists files path ≡ true → after ≡ files
  old-untouched h =
      ap (λ (r : Result BootError (Unit {0}) × Files). r.1) (old_path h)
      ∙ kept (read_bytes files path)

  fresh-lookup :
      exists files path ≡ false
      → is_writable ≡ true
      → (q : FilePath)
      → lookup q after ≡ (
          if list_beq q path
          then some (file bytes)
          else if list_beq q (temporary_path path)
          then none
          else lookup q files)
  fresh-lookup h writable q =
      ap (λ (r : Result BootError (Unit {0}) × Files). lookup q r.1) (fresh_path h writable)
      ∙ lookup-replaced q

  fresh-read : exists files path ≡ false → is_writable ≡ true → read_bytes after path ≡ some bytes
  fresh-read h writable =
      unfold read_bytes in rw (fresh-lookup h writable path) (rw (eq_refl path) refl)

  old-ok :
      exists files path ≡ true
      → ((write_idempotent path bytes files).0 ≡ ok tt) ↔ (read_bytes files path ≡ some bytes)
  old-ok h = rw (old_path h) (kept_ok (read_bytes files path))

  is_writable-IsWritable : exists files path ≡ false → (is_writable ≡ true) ↔ IsWritable path files
  is_writable-IsWritable h = (
    λ writable. record { free = h; placed = ground arith; beside = ground arith },
    λ w. rw (w.placed, w.beside) refl,
  )

  -- Writing succeeds exactly if a file with the same bytes stands at the path, or if nothing does,
  -- the parent is a directory and no directory has the temporary name.
  pub write_idempotent_iff :
      ((write_idempotent path bytes files).0 ≡ ok tt)
      ↔ (IsWritable path files ⊎ (read_bytes files path ≡ some bytes))
  write_idempotent_iff = elim (Bool-cases (exists files path)) [
    | inl old ↦ (
      λ s. inr ((old-ok old).0 s),
      λ s. elim s [ inl w ↦ absurd (let free = w.free in cc) | inr e ↦ (old-ok old).1 e ],
    )
    | inr new ↦
        let unread = read_bytes-free path files new in
        elim (Bool-cases is_writable) [
          | inl writable ↦ (
            λ s. inl ((is_writable-IsWritable new).0 writable),
            λ s. ap (λ (r : Result BootError (Unit {0}) × Files). r.0) (fresh_path new writable),
          )
          | inr failed ↦ (
            λ s. absurd (let e = failed_path new failed in let s' = rw e at s in cc),
            λ s. elim s [
              | inl w ↦ absurd (let yes = (is_writable-IsWritable new).1 w in cc)
              | inr e ↦ absurd cc
            ],
          )
        ]
  ]

  -- What stands at any path afterwards. If something stood at the target nothing changes at all, nor
  -- if the parent is not a directory or a directory has the temporary name. Else the target is a file
  -- with the bytes, the temporary name beside it is free, and all else is as it was.
  pub lookup-write_idempotent :
      (q : FilePath)
      → lookup q (write_idempotent path bytes files).1 ≡ (
          if exists files path
          then lookup q files
          else if not
              (is_directory files (parent path) && not (is_directory files (temporary_path path)))
          then lookup q files
          else if list_beq q path
          then some (file bytes)
          else if list_beq q (temporary_path path)
          then none
          else lookup q files)
  lookup-write_idempotent q = elim (Bool-cases (exists files path)) [
    | inl old ↦ ap (lookup q) (old-untouched old) ∙ rw old refl
    | inr new ↦ elim (Bool-cases is_writable) [
      | inl writable ↦ fresh-lookup new writable q ∙ rw (new, writable) refl
      | inr failed ↦
          ap (λ (r : Result BootError (Unit {0}) × Files). lookup q r.1) (failed_path new failed)
          ∙ rw (new, failed) refl
    ]
  ]

  -- After a success the file at the path holds the bytes.
  pub read_bytes-write_idempotent :
      (write_idempotent path bytes files).0 ≡ ok tt
      → read_bytes (write_idempotent path bytes files).1 path ≡ some bytes
  read_bytes-write_idempotent s = elim (Bool-cases (exists files path)) [
    | inl old ↦ rw (old-untouched old) ((old-ok old).0 s)
    | inr new ↦ elim (Bool-cases is_writable) [
      | inl writable ↦ fresh-read new writable
      | inr failed ↦ absurd (let e = failed_path new failed in let s' = rw e at s in cc)
    ]
  ]
