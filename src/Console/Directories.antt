-- ===== src/Console/Directories.antt =====
-- cmd/console/run.go: buildDir, which lays out the data directory of the service, over a disk of paths.
use cess_scheduler.Prelude.{
  ℕ, Bytes, Bool, true, false, Option, none, some, List, [], ◌∷◌, ◌++◌, ◌&&◌, str, bytes_eq,
  is_some, if◌then◌else◌, not,
}
use cess_scheduler.Console.Startup.{Startup, ready, exits, mkdir, ◌>>=◌}
pub mod Disk
pub mod Made
pub mod Layout

-- The components of a cleaned path.
abbrev pub DirPath : Type 0
DirPath = List Bytes

pub record Entry : Type 0 where
  pub path : DirPath
  pub directory : Bool

abbrev pub Files : Type 0
Files = List Entry

-- What the system refuses: to make a directory, and to remove an entry.
pub record FileSystem : Type 0 where
  pub can_make : DirPath → Bool
  pub stuck : DirPath → Bool

unfoldable pub under : DirPath → DirPath → Bool
under [] q = true
under (c ∷ p) [] = false
under (c ∷ p) (d ∷ q) = bytes_eq c d && under p q

unfoldable pub path_eq : DirPath → DirPath → Bool
path_eq [] [] = true
path_eq [] (d ∷ q) = false
path_eq (c ∷ p) [] = false
path_eq (c ∷ p) (d ∷ q) = bytes_eq c d && path_eq p q

-- Whether a directory or a file stands at a path.
unfoldable pub find : Files → DirPath → Option Bool
unfolding path_eq
find [] q = none
find (e ∷ es) q = if path_eq e.path q then some e.directory else find es q

-- os.RemoveAll, which removes what it can.
unfoldable pub remove_all : FileSystem → DirPath → Files → Files
unfolding under
remove_all fs p [] = []
remove_all fs p (e ∷ es) =
    let rest = remove_all fs p es in
    if under p e.path && not (fs.stuck e.path) then rest else e ∷ rest

-- A directory is there, cannot be made, or is made.
unfoldable pub mkdir_at : FileSystem → DirPath → Files → Option Bool → Startup Files
mkdir_at fs q files (some true) = ready files
mkdir_at fs q files (some false) = exits mkdir
mkdir_at fs q files none =
    if fs.can_make q then ready (record { path = q; directory = true } ∷ files) else exits mkdir

-- os.MkdirAll of the rest of a path below a directory that is there.
unfoldable pub mkdir_from : FileSystem → DirPath → DirPath → Files → Startup Files
unfolding mkdir_at find
mkdir_from fs at [] files = ready files
mkdir_from fs at (c ∷ cs) files =
    mkdir_at fs (at ++ c ∷ []) files (find files (at ++ c ∷ [])) >>= λ made.
    mkdir_from fs (at ++ c ∷ []) cs made

unfoldable pub mkdir_all : FileSystem → DirPath → Files → Startup Files
unfolding mkdir_from
mkdir_all fs p files = mkdir_from fs [] p files

-- filepath.Join drops an empty element.
unfoldable pub join : DirPath → Bytes → DirPath
join p [] = p
join p (c ∷ s) = p ++ (c ∷ s) ∷ []

abbrev pub base_dir : Bytes
base_dir = str "scheduler"

abbrev pub log_dir : Bytes
log_dir = str "log"

abbrev pub cache_dir : Bytes
cache_dir = str "cache"

abbrev pub file_dir : Bytes
file_dir = str "file"

abbrev pub tag_dir : Bytes
tag_dir = str "tag"

abbrev pub filler_dir : Bytes
filler_dir = str "filler"

-- The base directory is made where os.Stat has an error.
unfoldable pub build_base : FileSystem → DirPath → Files → Startup Files
unfolding find mkdir_all
build_base fs base files =
    if is_some (find files base) then ready files else mkdir_all fs base files

-- The directories below `base`, in the source's order.
unfoldable pub build_dir : FileSystem → DirPath → Files → Startup Files
unfolding build_base mkdir_all remove_all join
build_dir fs base files = do
  d1 ← build_base fs base files
  d2 ← mkdir_all fs (join base log_dir) d1
  d3 ← mkdir_all fs (join base cache_dir) d2
  d4 ← mkdir_all fs (join base filler_dir) (remove_all fs (join base filler_dir) d3)
  d5 ← mkdir_all fs (join base file_dir) d4
  mkdir_all fs (join base tag_dir) (remove_all fs (join base tag_dir) d5)
