-- ===== src/Proof/Key.antt =====
-- pkg/proof/keyGen.go: the public key of the verifier, which SetKey and GetKey read from the cache, and the
-- lines of RequestAndSaveTag (node/sub_filler.go) and of runCmd (cmd/console/run.go) that set it.
use cess_scheduler.Prelude.{
  ℕ, ◌+◌, ◌-◌, ◌%◌, ◌^◌, Bytes, Bool, true, false, Option, none, some, List, [], ◌∷◌, str, ltb,
  ◌==◌, ◌||◌, if◌then◌else◌, ℤ, pos, negsuc, is_some, not,
}
use cess_scheduler.Utils.Text.{magnitude}
use cess_scheduler.Cache.{Cache, get, put}
pub mod First

-- `key.Spk`; N is a pointer.
pub record PublicKey : Type 0 where
  pub n : Option ℤ
  pub e : ℤ

abbrev pub unset : PublicKey
unset = record { n = none; e = pos 0 }

pub data KeyError : Type 0 where
  no_cache not_cached bad_e bad_n : KeyError

abbrev pub sig_key_e : Bytes
sig_key_e = str "SigKey_E"

abbrev pub sig_key_n : Bytes
sig_key_n = str "SigKey_N"

-- -n
unfoldable pub negated : ℕ → ℤ
negated n = if n == 0 then pos 0 else negsuc (n - 1)

abbrev signed : Option ℕ → (ℕ → ℤ) → Option ℤ
signed none f = none
signed (some n) f = some (f n)

-- big.Int.SetString(s, 10)
unfoldable pub set_string : Bytes → Option ℤ
unfolding magnitude negated
set_string [] = none
set_string (c ∷ s) =
    if c == b'-'
    then signed (magnitude s) negated
    else (if c == b'+' then signed (magnitude s) pos else signed (magnitude (c ∷ s)) pos)

-- A 64-bit pattern as a signed number.
unfoldable pub from_bits : ℕ → ℤ
unfolding negated
from_bits b = if ltb b (2 ^ 63) then pos b else negated (2 ^ 64 - b)

-- big.Int.Int64: the low 64 bits.
unfoldable pub int64 : ℤ → ℤ
unfolding from_bits
int64 (pos n) = from_bits (n % 2 ^ 64)
int64 (negsuc n) = from_bits ((2 ^ 64 - (n + 1) % 2 ^ 64) % 2 ^ 64)

abbrev is_zero : ℤ → Bool
is_zero (pos n) = n == 0
is_zero (negsuc n) = false

-- key.Spk.N == nil || key.Spk.E == 0
unfoldable pub is_unset : PublicKey → Bool
is_unset k = not (is_some k.n) || is_zero k.e

-- From the second Get on. Where N is no number, N is set to nil.
unfoldable pub set_n : Cache → PublicKey → ℤ → PublicKey × Option KeyError
unfolding set_string int64
set_n c k e = elim (get c sig_key_n) [
  | none ↦ (k, some not_cached)
  | some tn ↦ elim (set_string tn) [
    | none ↦ (record k { n = none }, some bad_n)
    | some n ↦ (record { n = some n; e = int64 e }, none)
  ]
]

-- The reading of the cache.
unfoldable pub read_key : Cache → PublicKey → PublicKey × Option KeyError
unfolding set_n
read_key c k = elim (get c sig_key_e) [
  | none ↦ (k, some not_cached)
  | some te ↦ elim (set_string te) [ none ↦ (k, some bad_e) | some e ↦ set_n c k e ]
]

-- The key after it, and the error; `none` as a cache is a nil interface.
unfoldable pub set_key : Option Cache → PublicKey → PublicKey × Option KeyError
unfolding is_unset read_key
set_key none k = (k, some no_cache)
set_key (some c) k = if is_unset k then read_key c k else (k, none)

unfoldable pub get_key : Option Cache → PublicKey → PublicKey × Option KeyError
unfolding is_unset set_key
get_key c k = if is_unset k then set_key c k else (k, none)

pub record KeyState : Type 0 where
  pub key : PublicKey
  pub cache : Cache

-- The texts E and N of a tag are stored where GetKey gave an error. `stored_e` and `stored_n` say that the
-- cache wrote; their errors and SetKey's are ignored.
unfoldable pub store_key :
    Bool → Bool → Bytes → Bytes → KeyState → PublicKey × Option KeyError → KeyState
unfolding set_key
store_key stored_e stored_n te tn s (k, none) = record s { key = k }
store_key stored_e stored_n te tn s (k, some err) =
    let c : Cache = put stored_n sig_key_n tn (put stored_e sig_key_e te s.cache) in
    record { key = (set_key (some c) k).0; cache = c }

-- The tail of RequestAndSaveTag.
unfoldable pub key_from_tag : Bool → Bool → Bytes → Bytes → KeyState → KeyState
unfolding get_key store_key
key_from_tag stored_e stored_n te tn s =
    store_key stored_e stored_n te tn s (get_key (some s.cache) s.key)

-- What touches the key: a tag, GetKey of the proof task, and the end and a new start of the process.
pub data KeyOp : Type 0 where
  tag : Bool → Bool → Bytes → Bytes → KeyOp
  lookup : KeyOp
  restart : KeyOp

unfoldable pub key_step : KeyOp → KeyState → KeyState
unfolding key_from_tag
key_step (tag stored_e stored_n te tn) s = key_from_tag stored_e stored_n te tn s
key_step lookup s = record s { key = (get_key (some s.cache) s.key).0 }
key_step restart s = record s { key = (set_key (some s.cache) unset).0 }

unfoldable pub key_run : List KeyOp → KeyState → KeyState
unfolding key_step
key_run [] s = s
key_run (op ∷ ops) s = key_run ops (key_step op s)
