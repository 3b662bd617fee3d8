-- ===== src/Node/Tags/Content.antt =====
-- generateFiller of node/sub_filler.go: the text of a filler, line by line.
use cess_scheduler.Prelude.{
  ℕ, zero, suc, ◌-◌, ◌*◌, ◌/◌, ◌≡◌, ◌==◌, true, ap, refl, Bytes, Bool, Option, none, some, [], ◌∷◌,
  ◌++◌, length, length-append, arith, if◌then◌else◌,
}
use cess_scheduler.Utils.Random.{rand_str}
use cess_scheduler.Utils.Random.Text.{rand_str_lem}
use cess_scheduler.Node.Filler.{filler_size}
use cess_scheduler.Node.Tags.{TagEnv, generate_filler}

abbrev pub filler_line_length : ℕ
filler_line_length = 4096

abbrev joined : Option Bytes → Option Bytes → Option Bytes
joined none rest = none
joined (some s) none = none
joined (some s) (some rest) = some ((s ++ 10 ∷ []) ++ rest)

-- The loop over the rows; row i draws from `draws i`. The errors of WriteString are ignored by the source;
-- here a write has none.
unfoldable pub filler_rows : (ℕ → ℕ → ℕ) → ℕ → Option Bytes
unfolding rand_str
filler_rows draws zero = some []
filler_rows draws (suc i) =
    let rest = filler_rows draws i in joined (rand_str (draws i) (filler_line_length - 1)) rest

-- What is written to the file; `opens` and `syncs` say that OpenFile and Sync have no error, else nothing is
-- left.
unfoldable pub filler_file : Bool → Bool → (ℕ → ℕ → ℕ) → ℕ → Option Bytes
unfolding filler_rows
filler_file opens syncs draws fsize =
    if opens then (if syncs then filler_rows draws (fsize / filler_line_length) else none) else none

filler_rows_lem :
    (draws : ℕ → ℕ → ℕ) (rows : ℕ)
    → (s : Bytes) × (filler_rows draws rows ≡ some s) × (length s ≡ rows * filler_line_length)
unfolding filler_rows
filler_rows_lem draws zero = ([], refl, refl)
filler_rows_lem draws (suc i) =
    let (rest, e, long) = filler_rows_lem draws i in
    let (s, e', long', _) = rand_str_lem (draws i) (filler_line_length - 1) in
    (
      (s ++ 10 ∷ []) ++ rest,
      rw (e, e') refl,
      omega (arith, long, long', length-append (s ++ 10 ∷ []) rest, length-append s (10 ∷ [])),
    )

generate_filler_of :
    (env : TagEnv) (text h : Bytes)
    → length text ≡ filler_size
    → env.file_hash text ≡ some h
    → env.can_rename (env.join h) ≡ true
    → generate_filler env text ≡ some (env.join h)
unfolding generate_filler
generate_filler_of env text h long hashed renamed =
    let e : (length text == filler_size) ≡ true = ap (λ t. t == filler_size) long in
    rw (e, hashed, renamed, generate_filler) refl

-- Where the file can be opened, written and synced, hashed and moved, whatever is drawn: the rows that
-- generateFiller writes for a filler are as long as FillerSize, and GenerateFiller, which tests the size, has no
-- error.
pub filler_file_lem :
    (env : TagEnv) (draws : ℕ → ℕ → ℕ)
    → ((t : Bytes) → (h : Bytes) × (env.file_hash t ≡ some h))
    → ((p : Bytes) → env.can_rename p ≡ true)
    → (text : Bytes) × (filler_file true true draws filler_size ≡ some text)
      × (length text ≡ filler_size)
      × ((path : Bytes) × (generate_filler env text ≡ some path))
unfolding filler_file
filler_file_lem env draws hashes renames =
    let (text, e, long) = filler_rows_lem draws (filler_size / filler_line_length) in
    let (h, hashed) = hashes text in
    (text, e, long, (env.join h, generate_filler_of env text h long hashed (renames (env.join h))))
