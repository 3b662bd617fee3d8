-- ===== src/Console/Directories/Disk.antt =====
-- The operations of the system that buildDir (cmd/console/run.go) uses: MkdirAll and RemoveAll.
use cess_scheduler.Prelude.{
  ◌<◌, ◌≡◌, ◌≢◌, refl, sym, ap, ◌∙◌, inl, inr, Bool, true, false, none, some, [], ◌∷◌, ◌&&◌, length,
  bytes_eq, bytes_eq_sound, bytes_eq_self, Bool-cases, not, arith,
}
use cess_scheduler.Console.Directories.{
  DirPath, Entry, Files, FileSystem, under, path_eq, find, remove_all,
}

pub path_eq_sound : (p q : DirPath) → path_eq p q ≡ true → p ≡ q
unfolding path_eq
path_eq_sound [] [] h = refl
path_eq_sound [] (d ∷ q) h = cc
path_eq_sound (c ∷ p) [] h = cc
path_eq_sound (c ∷ p) (d ∷ q) h = ground (arith, bytes_eq_sound c d, path_eq_sound p q)

pub path_eq_self : (p : DirPath) → path_eq p p ≡ true
unfolding path_eq
path_eq_self [] = refl
path_eq_self (c ∷ p) = rw (bytes_eq_self c, path_eq_self p)

-- Paths of different lengths differ.
pub path_eq_shorter : (p q : DirPath) → length p < length q → path_eq p q ≡ false
unfolding path_eq
path_eq_shorter [] [] h = absurd (omega arith)
path_eq_shorter [] (d ∷ q) h = refl
path_eq_shorter (c ∷ p) [] h = refl
path_eq_shorter (c ∷ p) (d ∷ q) h = elim (Bool-cases (bytes_eq c d)) [
  | inl e ↦ rw (e, path_eq_shorter p q (omega arith))
  | inr e ↦ rw e
]

-- An entry in front that is not the one looked for.
pub find_other :
    (e : Entry) (es : Files) (q : DirPath) → path_eq e.path q ≡ false → find (e ∷ es) q ≡ find es q
unfolding find
find_other e es q h = rw (h, find) refl

pub find_here :
    (e : Entry) (es : Files) (q : DirPath)
    → path_eq e.path q ≡ true
    → find (e ∷ es) q ≡ some e.directory
unfolding find
find_here e es q h = rw (h, find) refl

module _ (fs : FileSystem) (p : DirPath) where
  unfoldable pub goes : DirPath → Bool
  goes q = under p q && not (fs.stuck q)

  goes_same : (e : Entry) (q : DirPath) → path_eq e.path q ≡ true → goes e.path ≡ goes q
  goes_same e q h = ap goes (path_eq_sound e.path q h)

  remove_first :
      (e : Entry) (es : Files) → goes e.path ≡ true → remove_all fs p (e ∷ es) ≡ remove_all fs p es
  unfolding remove_all goes
  remove_first e es h = rw (h, remove_all) refl

  remove_not_first :
      (e : Entry) (es : Files)
      → goes e.path ≡ false
      → remove_all fs p (e ∷ es) ≡ e ∷ remove_all fs p es
  unfolding remove_all goes
  remove_not_first e es h = rw (h, remove_all) refl

  true-ne-false : true ≢ false
  true-ne-false e = cc

  -- What is looked for stays, if it is not one of those that go.
  pub remove_all_keeps :
      (q : DirPath) → goes q ≡ false → (es : Files) → find (remove_all fs p es) q ≡ find es q
  unfolding remove_all
  remove_all_keeps q out [] = refl
  remove_all_keeps q out (e ∷ es) = elim (Bool-cases (goes e.path)) [
    | inl g ↦ elim (Bool-cases (path_eq e.path q)) [
      | inl same ↦ absurd (true-ne-false (sym g ∙ goes_same e q same ∙ out))
      | inr other ↦
          ap (λ t. find t q) (remove_first e es g)
          ∙ remove_all_keeps q out es
          ∙ sym (find_other e es q other)
    ]
    | inr g ↦ elim (Bool-cases (path_eq e.path q)) [
      | inl same ↦
          ap (λ t. find t q) (remove_not_first e es g)
          ∙ find_here e (remove_all fs p es) q same
          ∙ sym (find_here e es q same)
      | inr other ↦
          ap (λ t. find t q) (remove_not_first e es g)
          ∙ find_other e (remove_all fs p es) q other
          ∙ remove_all_keeps q out es
          ∙ sym (find_other e es q other)
    ]
  ]

  pub remove_all_gone :
      (q : DirPath) → goes q ≡ true → (es : Files) → find (remove_all fs p es) q ≡ none
  unfolding remove_all find
  remove_all_gone q out [] = refl
  remove_all_gone q out (e ∷ es) = elim (Bool-cases (goes e.path)) [
    | inl g ↦ ap (λ t. find t q) (remove_first e es g) ∙ remove_all_gone q out es
    | inr g ↦ elim (Bool-cases (path_eq e.path q)) [
      | inl same ↦ absurd (true-ne-false (sym out ∙ sym (goes_same e q same) ∙ g))
      | inr other ↦
          ap (λ t. find t q) (remove_not_first e es g)
          ∙ find_other e (remove_all fs p es) q other
          ∙ remove_all_gone q out es
    ]
  ]
