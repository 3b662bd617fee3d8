-- ===== src/Examples/KeyTests.antt =====
-- The verifier's public key (pkg/proof/keyGen.go) and the cache (pkg/db).
use cess_scheduler.Prelude.{◌≡◌, refl, true, false, some, List, [], ◌∷◌, str, pos, negsuc}
use cess_scheduler.Utils.Text.{digits, magnitude}
use cess_scheduler.Cache.{empty, get, put, configure_options}
use cess_scheduler.Proof.Key.{
  PublicKey, KeyState, KeyOp, tag, lookup, restart, unset, negated, set_string, from_bits, int64,
  is_unset, set_n, read_key, set_key, get_key, store_key, key_step, key_run,
}
use cess_scheduler.Proof.Key.First.{first_tag_decides}

abbrev fresh : KeyState
fresh = record { key = unset; cache = empty }

abbrev later : List KeyOp
later =
    tag true false (str "3") (str "15") ∷ restart ∷ lookup ∷ tag true true (str "5") (str "21") ∷ []

first_tag_decides_example :
    ((key_step (tag true true (str "65537") (str "3233")) fresh).key
      ≡ record { n = some (pos 3233); e = int64 (pos 65537) })
    × (key_run (tag true true (str "65537") (str "3233") ∷ later) fresh
        ≡ key_step (tag true true (str "65537") (str "3233")) fresh)
unfolding set_string magnitude digits is_unset get
first_tag_decides_example =
    first_tag_decides (str "65537") (str "3233") (pos 65537) (pos 3233) fresh later refl refl refl
      refl

-- The key after a run from a fresh start.
abbrev key_after : List KeyOp → PublicKey
key_after ops = (key_run ops fresh).key

-- Texts that are no numbers are replaced by the next tag.
bad_text_replaced :
    key_after (tag true true (str "x") (str "15") ∷ tag true true (str "3") (str "21") ∷ [])
    ≡ record { n = some (pos 21); e = pos 3 }
unfolding key_run set_string magnitude digits int64 from_bits negated get put is_unset set_n
    read_key set_key get_key store_key
bad_text_replaced = refl

-- An exponent 0 stays, though the key counts as unset with it.
zero_stays :
    is_unset
      (key_after (tag true true (str "0") (str "15") ∷ tag true true (str "3") (str "21") ∷ []))
    ≡ true
unfolding key_run set_string magnitude digits int64 from_bits negated get put is_unset set_n
    read_key set_key get_key store_key
zero_stays = refl

wraps : int64 (negsuc 0) ≡ negsuc 0
unfolding int64 from_bits negated
wraps = refl

default_options : configure_options 0 0 ≡ record {
  open_files_cache_capacity = 32;
  block_cache_capacity = 8388608;
  write_buffer = 4194304;
}
unfolding configure_options
default_options = refl
