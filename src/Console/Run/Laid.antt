-- ===== src/Console/Run/Laid.antt =====
-- The directories on the disk of the service, which NewLogs leaves as they are (cmd/console/run.go,
-- pkg/logger/logger.go).
use cess_scheduler.Prelude.{
  map, str, ◌++◌, ◌≡◌, refl, sym, ap, ◌∙◌, Bytes, some, List, [], ◌∷◌, All, true,
}
use cess_scheduler.Config.{System, Confile}
use cess_scheduler.Console.Startup.{ready, ready-inj, exits-ne-ready}
use cess_scheduler.Console.Directories.{
  DirPath, Files, FileSystem, find, build_dir, join, base_dir, log_dir, cache_dir, filler_dir,
  file_dir, tag_dir,
}
use cess_scheduler.Console.Directories.Layout.{build_dir_layout}
use cess_scheduler.Utils.Address.{Result, ok, err, encode_public_key_as_cess_account}
use cess_scheduler.Logger.{new_logs, log_directory, get_file_path}
use cess_scheduler.Console.Run.{Boot, own_base, base_of}

get_file_path-append : (p : DirPath) (x : Bytes) → get_file_path (p ++ x ∷ []) ≡ p
unfolding get_file_path
get_file_path-append [] x = refl
get_file_path-append (c ∷ []) x = refl
get_file_path-append (c ∷ d ∷ p) x = ap (λ t. c ∷ t) (get_file_path-append (d ∷ p) x)

-- Where the directory stands, NewLogs changes nothing of the tree.
pub new_logs_lem :
    (fs : FileSystem) (dir : DirPath) (names : List Bytes) (files : Files)
    → find files dir ≡ some true
    → new_logs fs (map (λ v. (v, dir ++ (v ++ str ".log") ∷ [])) names) files
      ≡ ready (record { names = names }, files)
unfolding new_logs log_directory
new_logs_lem fs dir [] files h = refl
new_logs_lem fs dir (n ∷ ns) files h =
    rw (get_file_path-append dir (n ++ str ".log"), h, new_logs)
      (rw (new_logs_lem fs dir ns files h) refl)

-- The base directory has a component, since its last is "scheduler".
join_base : (p : DirPath) → (c : Bytes) × (cs : DirPath) × (join p base_dir ≡ c ∷ cs)
unfolding join
join_base [] = (_, _, refl)
join_base (c ∷ cs) = (_, _, refl)

own_base_lem :
    (sys : System) (boot : Boot) (cfg : Confile) (pk : Bytes) (base : DirPath)
    → own_base sys boot cfg pk ≡ ready base
    → (c : Bytes) × (cs : DirPath) × (base ≡ c ∷ cs)
unfolding own_base base_of
own_base_lem sys boot cfg pk base h = go (encode_public_key_as_cess_account sys.crypto pk) refl
  where
    go :
        (o : Result)
        → encode_public_key_as_cess_account sys.crypto pk ≡ o
        → (c : Bytes) × (cs : DirPath) × (base ≡ c ∷ cs)
    go (err e) q = absurd (exits-ne-ready (rw (q, own_base) at h))
    go (ok a) q =
        let (c, cs, shape) = join_base (join (boot.components cfg.data_dir) a) in
        let same = ready-inj (rw (q, own_base) at h) in (c, cs, sym same ∙ shape)

-- The directories below the base directory.
unfoldable pub HasDirectories : Files → DirPath → Type 0
HasDirectories files base =
    All (λ d. find files (base ++ d ∷ []) ≡ some true)
      (log_dir ∷ cache_dir ∷ filler_dir ∷ file_dir ∷ tag_dir ∷ [])

pub build_dir-HasDirectories :
    (sys : System) (fs : FileSystem) (boot : Boot) (cfg : Confile) (pk : Bytes) (base : DirPath)
    (before after : Files)
    → own_base sys boot cfg pk ≡ ready base
    → build_dir fs base before ≡ ready after
    → HasDirectories after base
unfolding HasDirectories
build_dir-HasDirectories sys fs boot cfg pk base before after own made =
    let (c, cs, shape) = own_base_lem sys boot cfg pk base own in
    let at' : build_dir fs (c ∷ cs) before ≡ ready after = rw shape at made in
    rw shape (build_dir_layout fs c cs before after at').0
