-- ===== src/Python/Files.antt =====
-- The file system, as far as the scripts see it: what stands at each resolved path.
use oukitel_rt7_linux.Prelude.{
  ◌≡◌, Bool, true, false, ◌&&◌, Option, none, some, List, [], ◌∷◌, list_eq, nat_eq, list_beq,
  length, take, if◌then◌else◌, leb, ◌==◌, arith, ◌-◌, drop, list_beq_iff,
}
use oukitel_rt7_linux.Python.Text.{Text, text}
use oukitel_rt7_linux.Python.Bytes.{Bytes}
use oukitel_rt7_linux.Python.Path.{FilePath}
use oukitel_rt7_linux.Python.Dict
use oukitel_rt7_linux.Python.Dict.{Dict}

pub data Node : Type 0 where
  file : Bytes → Node
  directory : Node

abbrev pub Files : Type 0
Files = Dict FilePath Node

-- The file's content, if a file stands there.
abbrev content : Option Node → Option Bytes
content (some (file bytes)) = some bytes
content (some directory) = none
content none = none

unfoldable pub read_bytes : Files → FilePath → Option Bytes
read_bytes files path = content (Dict.lookup path files)

unfoldable pub is_some {ℓ} : {A : Type ℓ} → Option A → Bool
is_some none = false
is_some (some a) = true

-- `path.is_file()`
unfoldable pub is_file : Files → FilePath → Bool
unfolding is_some
is_file files path = is_some (read_bytes files path)

-- `path.exists()`. The root is always there.
unfoldable pub exists : Files → FilePath → Bool
unfolding is_some
exists files [] = true
exists files (name ∷ path) = is_some (Dict.lookup (name ∷ path) files)

abbrev holds_directory : Option Node → Bool
holds_directory (some directory) = true
holds_directory (some (file _)) = false
holds_directory none = false

-- `path.is_dir()`
unfoldable pub is_directory : Files → FilePath → Bool
is_directory files [] = true
is_directory files (name ∷ path) = holds_directory (Dict.lookup (name ∷ path) files)

-- `path.write_bytes(bytes)`, where the parent is a directory and the path is not one.
unfoldable pub write_bytes : FilePath → Bytes → Files → Files
write_bytes path bytes files = Dict.insert path (file bytes) files

unfoldable pub erase : FilePath → Files → Files
erase path [] = []
erase path ((p, node) ∷ files) =
    let rest = erase path files in if path == p then rest else (p, node) ∷ rest

-- `os.replace(source, target)` of a file.
unfoldable pub replace : FilePath → FilePath → Bytes → Files → Files
unfolding erase
replace source target bytes files = Dict.insert target (file bytes) (erase source files)

-- `path.mkdir()`
unfoldable pub make_directory : FilePath → Files → Files
make_directory path files = Dict.insert path directory files

-- The path is the directory or stands below it.
unfoldable pub is_below : FilePath → FilePath → Bool
is_below root path = leb (length root) (length path) && list_beq (take (length root) path) root

-- `shutil.rmtree(root)`
unfoldable pub remove_tree : FilePath → Files → Files
unfolding is_below
remove_tree root [] = []
remove_tree root ((path, node) ∷ files) =
    let rest = remove_tree root files in if is_below root path then rest else (path, node) ∷ rest

-- The name of a direct child of the directory.
unfoldable pub child_name : FilePath → FilePath → Option Text
child_name [] (name ∷ []) = some name
child_name (d ∷ ds) (p ∷ ps) = let rest = child_name ds ps in if d == p then rest else none
child_name _ _ = none

unfoldable pub ends_with : Text → Text → Bool
ends_with suffix name =
    leb (length suffix) (length name) && list_beq (drop (length name - length suffix) name) suffix

abbrev keep_bin : Option Text → List Text → List Text
keep_bin none names = names
keep_bin (some name) names = if ends_with (text ".bin") name then name ∷ names else names

-- `[path.name for path in directory.glob("*.bin")]`
unfoldable pub glob_bin : Files → FilePath → List Text
unfolding child_name ends_with
glob_bin [] parent = []
glob_bin ((p, _) ∷ files) parent = keep_bin (child_name parent p) (glob_bin files parent)

pub lookup-erase :
    (j k : FilePath) (files : Files)
    → Dict.lookup j (erase k files) ≡ (if list_beq j k then none else Dict.lookup j files)
unfolding Dict.lookup erase
lookup-erase j k [] = ground arith
lookup-erase j k ((i, node) ∷ files) =
    ground (arith, lookup-erase j k files, list_beq_iff j i, list_beq_iff k i, list_beq_iff j k)
