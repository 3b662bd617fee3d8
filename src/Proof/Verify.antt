-- ===== src/Proof/Verify.antt =====
-- pkg/proof/verifyProof.go: RSAKeyPair.VerifyProof. The goroutines each multiply one power into a
-- product under a lock: `order` is the order in which they do.
use cess_scheduler.Prelude.{
  ℕ, ◌*◌, ◌%◌, Bytes, Bool, Option, none, some, List, [], ◌∷◌, ◌==◌, if◌then◌else◌,
}
use mathlib.Core.Option
use cess_scheduler.Proof.Modular.{set_bytes, exp, product}
use cess_scheduler.Proof.Challenge.{QElement}
pub mod Complete

-- The public key, once it is set. N is the number of a decimal text and E an int: both are taken not to be
-- negative, so a key file with a minus sign is left out.
pub record RsaKey : Type 0 where
  pub n : ℕ
  pub e : ℕ

-- `panics` unwinds the caller; `crashes` is a panic in a goroutine of its own, which no recover of
-- the program sees, and which ends the process.
pub data Verdict : Type 0 where
  answer : Bool → Verdict
  panics : Verdict
  crashes : Verdict

-- H(mi)^νi, for one goroutine.
unfoldable pub pow_of : RsaKey → QElement → Bytes → ℕ
unfolding set_bytes exp
pow_of key q h = exp (set_bytes h) (set_bytes q.v) key.n

-- The powers of all goroutines; `none` if one of them reads past the end of HashMi.
unfoldable pub pows : RsaKey → List QElement → List Bytes → Option (List ℕ)
unfolding pow_of
pows key [] hs = some []
pows key (q ∷ qs) [] = none
pows key (q ∷ qs) (h ∷ hs) = elim (pows key qs hs) [
  | none ↦ none
  | some ps ↦ some (pow_of key q h ∷ ps)
]

-- The comparison of the last line.
unfoldable pub check_equation : RsaKey → ℕ → Bytes → Bytes → Bytes → Bool
unfolding set_bytes exp
check_equation key multiply u mu sigma =
    (multiply * exp (set_bytes u) (set_bytes mu) key.n) % key.n == exp (set_bytes sigma) key.e key.n

-- After wg.Wait: QSlice[0] is read for a message, and Mod by N = 0 panics.
unfoldable pub conclude : RsaKey → List QElement → ℕ → Bytes → Bytes → Bytes → Verdict
unfolding check_equation
conclude key [] multiply u mu sigma = panics
conclude key (q ∷ qs) multiply u mu sigma =
    if key.n == 0 then panics else answer (check_equation key multiply u mu sigma)

-- `u` is t.U.
unfoldable pub verify_proof :
    (List ℕ → List ℕ) → RsaKey → Bytes → List QElement → Bytes → Bytes → List Bytes → Verdict
unfolding pows conclude product
verify_proof order key u qs mu sigma hash_mi = elim (pows key qs hash_mi) [
  | none ↦ crashes
  | some ps ↦ conclude key qs (product (order ps)) u mu sigma
]
