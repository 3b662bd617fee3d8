-- ===== src/Console/Directories/Made.antt =====
-- os.MkdirAll, as buildDir (cmd/console/run.go) uses it, where it has no error.
use cess_scheduler.Prelude.{
  ◌<◌, ◌≤◌, ◌≡◌, refl, sym, ap, ◌∙◌, inl, inr, Bytes, Bool, true, false, Option, none, some, [],
  ◌∷◌, ◌++◌, length, Bool-cases, arith, length-append,
}
use mathlib.Core.Path.{subst}
use mathlib.Core.List.{append_assoc}
use mathlib.Core.Option.{none-ne-some}
use cess_scheduler.Console.Startup.{ready, exits, mkdir, bind-ready, exits-ne-ready, ready-inj}
use cess_scheduler.Console.Directories.{
  DirPath, Entry, Files, FileSystem, path_eq, find, mkdir_at, mkdir_from, mkdir_all,
}
use cess_scheduler.Console.Directories.Disk.{
  path_eq_self, path_eq_shorter, path_eq_sound, find_here, find_other,
}

-- From one disk to another, a directory stands at `p`, what was there stays, and nothing deeper than `p` is new.
unfoldable pub Made : DirPath → Files → Files → Type 0
Made p files files' =
    (find files' p ≡ some true)
    × ((q : DirPath) (x : Bool) → find files q ≡ some x → find files' q ≡ some x)
    × ((q : DirPath) → length p < length q → find files' q ≡ find files q)

new-Made :
    (p : DirPath) (files : Files)
    → find files p ≡ none
    → Made p files (record { path = p; directory = true } ∷ files)
unfolding Made
new-Made p files missing =
    let e : Entry = record { path = p; directory = true } in
    (
      find_here e files p (path_eq_self p),
      λ q x h. elim (Bool-cases (path_eq p q)) [
        | inl same ↦
            absurd (none-ne-some x (sym missing ∙ ap (find files) (path_eq_sound p q same) ∙ h))
        | inr other ↦ find_other e files q other ∙ h
      ],
      λ q h. find_other e files q (path_eq_shorter p q h),
    )

mkdir_at_can :
    (fs : FileSystem) (p : DirPath) (files : Files)
    → fs.can_make p ≡ true
    → mkdir_at fs p files none ≡ ready (record { path = p; directory = true } ∷ files)
unfolding mkdir_at
mkdir_at_can fs p files h = rw (h, mkdir_at) refl

mkdir_at_cannot :
    (fs : FileSystem) (p : DirPath) (files : Files)
    → fs.can_make p ≡ false
    → mkdir_at fs p files none ≡ exits mkdir
unfolding mkdir_at
mkdir_at_cannot fs p files h = rw (h, mkdir_at) refl

mkdir_at-Made :
    (fs : FileSystem) (p : DirPath) (files files' : Files) (o : Option Bool)
    → find files p ≡ o
    → mkdir_at fs p files o ≡ ready files'
    → Made p files files'
unfolding mkdir_at Made
mkdir_at-Made fs p files files' (some true) at_p h =
    let e : files ≡ files' = ready-inj h in subst (Made p files) e (at_p, λ q x g. g, λ q g. refl)
mkdir_at-Made fs p files files' (some false) at_p h = cc
mkdir_at-Made fs p files files' none at_p h = elim (Bool-cases (fs.can_make p)) [
  | inl can ↦
      let e : record { path = p; directory = true } ∷ files ≡ files' =
        ready-inj (sym (mkdir_at_can fs p files can) ∙ h) in
      subst (Made p files) e (new-Made p files at_p)
  | inr cannot ↦ absurd (exits-ne-ready (sym (mkdir_at_cannot fs p files cannot) ∙ h))
]

both-Made :
    (p q : DirPath) (a b c : Files) → length p ≤ length q → Made p a b → Made q b c → Made q a c
unfolding Made
both-Made p q a b c h (at_p, grow, deep) (at_q, grow', deep') =
    (at_q, λ r x g. grow' r x (grow r x g), λ r g. deep' r g ∙ deep r (omega (arith, h, g)))

mkdir_from-Made :
    (fs : FileSystem) (at : DirPath) (c : Bytes) (cs : DirPath) (files files' : Files)
    → mkdir_from fs at (c ∷ cs) files ≡ ready files'
    → Made (at ++ c ∷ cs) files files'
unfolding mkdir_from
mkdir_from-Made fs at c [] files files' h =
    let (m, first, rest) =
      bind-ready (mkdir_at fs (at ++ c ∷ []) files (find files (at ++ c ∷ []))) (λ made. ready made)
        files' h in
    subst (Made (at ++ c ∷ []) files) (ready-inj rest)
      (mkdir_at-Made fs (at ++ c ∷ []) files m (find files (at ++ c ∷ [])) refl first)
mkdir_from-Made fs at c (d ∷ ds) files files' h =
    let q : DirPath = at ++ c ∷ [] in
    let (m, first, rest) =
      bind-ready (mkdir_at fs q files (find files q)) (λ made. mkdir_from fs q (d ∷ ds) made) files'
        h in
    let deep : Made (q ++ d ∷ ds) files files' =
      both-Made q (q ++ d ∷ ds) files m files' (omega (arith, length-append q (d ∷ ds)))
        (mkdir_at-Made fs q files m (find files q) refl first)
        (mkdir_from-Made fs q d ds m files' rest) in
    subst (λ p. Made p files files') (append_assoc at (c ∷ []) (d ∷ ds)) deep

pub mkdir_all-Made :
    (fs : FileSystem) (c : Bytes) (cs : DirPath) (files files' : Files)
    → mkdir_all fs (c ∷ cs) files ≡ ready files'
    → Made (c ∷ cs) files files'
unfolding mkdir_all
mkdir_all-Made fs c cs files files' h = mkdir_from-Made fs [] c cs files files' h
