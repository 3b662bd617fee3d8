-- ===== src/Console/Directories/Layout.antt =====
-- The data directory after buildDir (cmd/console/run.go).
use cess_scheduler.Prelude.{
  ◌<◌, ◌≡◌, refl, sym, ap, ◌∙◌, inl, inr, Bytes, Bool, true, false, none, some, [], ◌∷◌, ◌++◌,
  length, Bool-cases, arith, length-append, bytes_eq, bytes_eq_self, is_some, All,
}
use mathlib.Core.List.{append_assoc}
use cess_scheduler.Console.Startup.{ready, bind-ready, ready-inj}
use cess_scheduler.Console.Directories.{
  DirPath, Files, FileSystem, under, find, remove_all, mkdir_all, build_base, build_dir, join,
  log_dir, cache_dir, filler_dir, file_dir, tag_dir,
}
use cess_scheduler.Console.Directories.Disk.{goes, remove_all_keeps, remove_all_gone}
use cess_scheduler.Console.Directories.Made.{Made, mkdir_all-Made}

under_self : (p r : DirPath) → under p (p ++ r) ≡ true
unfolding under
under_self [] r = refl
under_self (c ∷ p) r = rw (bytes_eq_self c) (under_self p r)

under_sibling :
    (b r : DirPath) (x y : Bytes) → bytes_eq x y ≡ false → under (b ++ x ∷ []) (b ++ y ∷ r) ≡ false
unfolding under
under_sibling [] r x y h = rw h refl
under_sibling (c ∷ b) r x y h = rw (bytes_eq_self c) (under_sibling b r x y h)

-- Nothing stands strictly below `p` but what the system does not remove.
pub Cleared : FileSystem → Files → DirPath → Type 0
Cleared fs files p =
    (x : Bytes) (rest : DirPath)
    → fs.stuck (p ++ x ∷ rest) ≡ false
    → find files (p ++ x ∷ rest) ≡ none

outside : (fs : FileSystem) (p q : DirPath) → under p q ≡ false → goes fs p q ≡ false
unfolding goes
outside fs p q h = rw h refl

inside :
    (fs : FileSystem) (p : DirPath) (x : Bytes) (rest : DirPath)
    → fs.stuck (p ++ x ∷ rest) ≡ false
    → goes fs p (p ++ x ∷ rest) ≡ true
unfolding goes
inside fs p x rest h = rw (under_self p (x ∷ rest), h) refl

deeper : (p : DirPath) (x : Bytes) (rest : DirPath) → length p < length (p ++ x ∷ rest)
deeper p x rest = omega (arith, length-append p (x ∷ rest))

-- What was there stays, where it is not below `p`, which is emptied and made anew.
Renewed : FileSystem → DirPath → Files → Files → Type 0
Renewed fs p files files' =
    (find files' p ≡ some true)
    × ((q : DirPath) (x : Bool)
        → under p q ≡ false
        → find files q ≡ some x
        → find files' q ≡ some x)
    × ((q : DirPath) → length p < length q → under p q ≡ false → find files' q ≡ find files q)
    × Cleared fs files' p

renew-Renewed :
    (fs : FileSystem) (c : Bytes) (cs : DirPath) (files files' : Files)
    → mkdir_all fs (c ∷ cs) (remove_all fs (c ∷ cs) files) ≡ ready files'
    → Renewed fs (c ∷ cs) files files'
unfolding Renewed Cleared Made
renew-Renewed fs c cs files files' h =
    let p : DirPath = c ∷ cs in
    let (here, grow, deep) = mkdir_all-Made fs c cs (remove_all fs p files) files' h in
    (
      here,
      λ q x out g. grow q x (remove_all_keeps fs p q (outside fs p q out) files ∙ g),
      λ q far out. deep q far ∙ remove_all_keeps fs p q (outside fs p q out) files,
      λ x rest loose.
          deep (p ++ x ∷ rest) (deeper p x rest)
          ∙ remove_all_gone fs p (p ++ x ∷ rest) (inside fs p x rest loose) files,
    )

base_there :
    (fs : FileSystem) (c : Bytes) (cs : DirPath) (files : Files)
    → is_some (find files (c ∷ cs)) ≡ true
    → build_base fs (c ∷ cs) files ≡ ready files
unfolding build_base
base_there fs c cs files h = rw (h, build_base) refl

base_missing :
    (fs : FileSystem) (c : Bytes) (cs : DirPath) (files : Files)
    → is_some (find files (c ∷ cs)) ≡ false
    → build_base fs (c ∷ cs) files ≡ mkdir_all fs (c ∷ cs) files
unfolding build_base
base_missing fs c cs files h = rw (h, build_base) refl

base_grows :
    (fs : FileSystem) (c : Bytes) (cs : DirPath) (files files' : Files)
    → build_base fs (c ∷ cs) files ≡ ready files'
    → (q : DirPath) (x : Bool) → find files q ≡ some x
    → find files' q ≡ some x
unfolding build_base Made
base_grows fs c cs files files' h q x g = elim (Bool-cases (is_some (find files (c ∷ cs)))) [
  | inl there ↦ ap (λ t. find t q) (ready-inj (sym h ∙ base_there fs c cs files there)) ∙ g
  | inr missing ↦
      (mkdir_all-Made fs c cs files files' (sym (base_missing fs c cs files missing) ∙ h)).1 q x g
]

-- The steps of buildDir.
Steps : FileSystem → Bytes → DirPath → Files → Files → Type 0
Steps fs c cs files d6 =
    (d1 : Files) × (d2 : Files) × (d3 : Files) × (d4 : Files) × (d5 : Files) × ((q : DirPath)
        (x : Bool)
      → find files q ≡ some x
      → find d1 q ≡ some x)
    × Made (c ∷ cs ++ log_dir ∷ []) d1 d2
    × Made (c ∷ cs ++ cache_dir ∷ []) d2 d3
    × Renewed fs (c ∷ cs ++ filler_dir ∷ []) d3 d4
    × Made (c ∷ cs ++ file_dir ∷ []) d4 d5
    × Renewed fs (c ∷ cs ++ tag_dir ∷ []) d5 d6

build_dir-Steps :
    (fs : FileSystem) (c : Bytes) (cs : DirPath) (files d6 : Files)
    → build_dir fs (c ∷ cs) files ≡ ready d6
    → Steps fs c cs files d6
unfolding build_dir Steps join
build_dir-Steps fs c cs files d6 h =
    let (d1, e1, h1) = bind-ready (build_base fs (c ∷ cs) files) (λ d. _) d6 h in
    let (d2, e2, h2) = bind-ready (mkdir_all fs (c ∷ cs ++ log_dir ∷ []) d1) (λ d. _) d6 h1 in
    let (d3, e3, h3) = bind-ready (mkdir_all fs (c ∷ cs ++ cache_dir ∷ []) d2) (λ d. _) d6 h2 in
    let (d4, e4, h4) =
      bind-ready
        (mkdir_all fs (c ∷ cs ++ filler_dir ∷ []) (remove_all fs (c ∷ cs ++ filler_dir ∷ []) d3))
        (λ d. _) d6 h3 in
    let (d5, e5, h5) = bind-ready (mkdir_all fs (c ∷ cs ++ file_dir ∷ []) d4) (λ d. _) d6 h4 in
    (
      d1,
      d2,
      d3,
      d4,
      d5,
      base_grows fs c cs files d1 e1,
      mkdir_all-Made fs c (cs ++ log_dir ∷ []) d1 d2 e2,
      mkdir_all-Made fs c (cs ++ cache_dir ∷ []) d2 d3 e3,
      renew-Renewed fs c (cs ++ filler_dir ∷ []) d3 d4 e4,
      mkdir_all-Made fs c (cs ++ file_dir ∷ []) d4 d5 e5,
      renew-Renewed fs c (cs ++ tag_dir ∷ []) d5 d6 h5,
    )

-- A path below one directory is not below another, and is deeper.
beside :
    (b : DirPath) (x y z : Bytes) (rest : DirPath)
    → bytes_eq x y ≡ false
    → under (b ++ x ∷ []) ((b ++ y ∷ []) ++ z ∷ rest) ≡ false
beside b x y z rest h =
    ap (under (b ++ x ∷ [])) (append_assoc b (y ∷ []) (z ∷ rest)) ∙ under_sibling b (z ∷ rest) x y h

far :
    (b : DirPath) (x y z : Bytes) (rest : DirPath)
    → length (b ++ x ∷ []) < length ((b ++ y ∷ []) ++ z ∷ rest)
far b x y z rest = omega (
  arith,
  length-append b (x ∷ []),
  length-append b (y ∷ []),
  length-append (b ++ y ∷ []) (z ∷ rest),
)

-- Where buildDir has no error, whatever the disk held: a directory stands at each of log, cache, filler, file
-- and tag below the base directory; below filler and tag nothing is left but what the system does not
-- remove; and all that stood outside these two still stands.
pub build_dir_layout :
    (fs : FileSystem) (c : Bytes) (cs : DirPath) (files files' : Files)
    → build_dir fs (c ∷ cs) files ≡ ready files'
    → All
        (λ d. find files' (c ∷ cs ++ d ∷ []) ≡ some true)
        (log_dir ∷ cache_dir ∷ filler_dir ∷ file_dir ∷ tag_dir ∷ [])
      × Cleared fs files' (c ∷ cs ++ filler_dir ∷ [])
      × Cleared fs files' (c ∷ cs ++ tag_dir ∷ [])
      × ((q : DirPath) (x : Bool)
          → under (c ∷ cs ++ filler_dir ∷ []) q ≡ false
          → under (c ∷ cs ++ tag_dir ∷ []) q ≡ false
          → find files q ≡ some x
          → find files' q ≡ some x)
unfolding Steps Made Renewed Cleared
build_dir_layout fs c cs files files' h =
    let b : DirPath = c ∷ cs in
    let (
      d1,
      d2,
      d3,
      d4,
      d5,
      grow1,
      (log, grow2, _),
      (cache, grow3, _),
      (filler, grow4, deep4, clear4),
      (file, grow5, deep5),
      (tag, grow6, deep6, clear6),
    ) =
      build_dir-Steps fs c cs files files' h in
    let from3 : (q : DirPath) (x : Bool)
        → under (b ++ filler_dir ∷ []) q ≡ false
        → under (b ++ tag_dir ∷ []) q ≡ false
        → find d3 q ≡ some x
        → find files' q ≡ some x =
      λ q x f t g. grow6 q x t (grow5 q x (grow4 q x f g)) in
    let log3 : find d3 (b ++ log_dir ∷ []) ≡ some true = grow3 (b ++ log_dir ∷ []) true log in
    (
      (
        from3 (b ++ log_dir ∷ []) true (under_sibling b [] filler_dir log_dir refl)
            (under_sibling b [] tag_dir log_dir refl) log3,
        (
          from3 (b ++ cache_dir ∷ []) true (under_sibling b [] filler_dir cache_dir refl)
              (under_sibling b [] tag_dir cache_dir refl) cache,
          (
            grow6 (b ++ filler_dir ∷ []) true (under_sibling b [] tag_dir filler_dir refl)
                (grow5 (b ++ filler_dir ∷ []) true filler),
            (
              grow6 (b ++ file_dir ∷ []) true (under_sibling b [] tag_dir file_dir refl) file,
              (tag, tt),
            ),
          ),
        ),
      ),
      λ x rest loose.
          deep6 ((b ++ filler_dir ∷ []) ++ x ∷ rest) (far b tag_dir filler_dir x rest)
            (beside b tag_dir filler_dir x rest refl)
          ∙ deep5 ((b ++ filler_dir ∷ []) ++ x ∷ rest) (far b file_dir filler_dir x rest)
          ∙ clear4 x rest loose,
      clear6,
      λ q x f t g. from3 q x f t (grow3 q x (grow2 q x (grow1 q x g))),
    )
