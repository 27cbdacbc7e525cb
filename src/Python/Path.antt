-- ===== src/Python/Path.antt =====
-- `pathlib`: an absolute path that is resolved, as the names below the root.
use oukitel_rt7_linux.Prelude.{
  ℕ, ◌≡◌, false, ◌||◌, List, [], ◌∷◌, ◌++◌, map, arith, contains, list_eq, nat_eq,
}
use oukitel_rt7_linux.Python.Text.{Text, text}
use oukitel_rt7_linux.Python.Text.Split.{contains-append}

abbrev pub FilePath : Type 0
FilePath = List Text

-- `path / name`, for a name without a slash.
infixl 60 ◌/◌
unfoldable pub ◌/◌ : FilePath → Text → FilePath
path / name = path ++ name ∷ []

unfoldable pub slashed : FilePath → Text
slashed [] = []
slashed (name ∷ path) = b'/' ∷ (name ++ slashed path)

-- `str(path)`
unfoldable pub path_str : FilePath → Text
unfolding slashed
path_str [] = text "/"
path_str (name ∷ path) = slashed (name ∷ path)

-- `path.name`
unfoldable pub file_name : FilePath → Text
file_name [] = []
file_name (name ∷ []) = name
file_name (_ ∷ name ∷ path) = file_name (name ∷ path)

-- `path.parent`, which is the root for the root.
unfoldable pub parent : FilePath → FilePath
parent [] = []
parent (name ∷ []) = []
parent (name ∷ next ∷ path) = name ∷ parent (next ∷ path)

-- `path.parents`, the shortest first.
unfoldable pub parents : FilePath → List FilePath
parents [] = []
parents (name ∷ path) = [] ∷ map (λ p. name ∷ p) (parents path)

-- Which characters other than slashes stand in the name of a child.
contains-slashed :
    (p : FilePath) (n : Text) (c : ℕ)
    → contains (b'/' ∷ []) c ≡ false
    → contains (slashed (p ++ n ∷ [])) c ≡ (contains (slashed p) c || contains n c)
unfolding slashed contains
contains-slashed [] n c h = ground (arith, contains-append n [] c)
contains-slashed (m ∷ p) n c h = ground (
  arith,
  contains-slashed p n c h,
  contains-append m (slashed (p ++ n ∷ [])) c,
  contains-append m (slashed p) c,
)

pub contains-path_str :
    (p : FilePath) (n : Text) (c : ℕ)
    → contains (b'/' ∷ []) c ≡ false
    → contains (path_str (p / n)) c ≡ (contains (path_str p) c || contains n c)
unfolding path_str ◌/◌
contains-path_str [] n c h = rw (contains-slashed [] n c h) (unfold contains in ground arith)
contains-path_str (m ∷ p) n c h = contains-slashed (m ∷ p) n c h
