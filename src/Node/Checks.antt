-- ===== src/Node/Checks.antt =====
-- node/utils.go: the state of a file on the chain, and the signature of a request.
use cess_scheduler.Prelude.{
  ℕ, zero, suc, ◌+◌, ◌≡◌, Bytes, Bool, Option, none, some, length, take, ◌==◌, ◌||◌, ltb, leb,
  if◌then◌else◌, arith,
}
use cess_scheduler.Chain.Types.{Error, failed, FileMetaInfo}
use cess_scheduler.Utils.Address.{Crypto, ok, err, encode_public_key_as_substrate_account}

-- GetFileState's two results: a state or an error.
pub data FileState : Type 0 where
  state : Bytes → FileState
  unknown : Error → FileState

-- What the k-th call of GetFileMetaInfo returns.
abbrev pub Metas : Type 0
Metas = ℕ → FileMetaInfo × Option Error

-- The loop `for try_count <= 3`; every round that continues raises try_count, so four rounds are all.
unfoldable pub get_file_state_from : ℕ → ℕ → Metas → FileState
get_file_state_from zero try_count metas = unknown failed
get_file_state_from (suc rounds) try_count metas =
    let (fmeta, e) = metas try_count in
    let rest = get_file_state_from rounds (try_count + 1) metas in
    elim e [ none ↦ state fmeta.state | some x ↦ if leb 3 (try_count + 1) then unknown x else rest ]

unfoldable pub get_file_state : Metas → FileState
unfolding get_file_state_from
get_file_state metas = get_file_state_from 4 0 metas

-- The first of three calls that succeeds decides; after three errors the third is returned.
pub get_file_state_lem :
    (metas : Metas)
    → get_file_state metas ≡ elim ((metas 0).1) [
      | none ↦ state (metas 0).0.state
      | some x ↦ elim ((metas 1).1) [
        | none ↦ state (metas 1).0.state
        | some y ↦ elim ((metas 2).1) [ none ↦ state (metas 2).0.state | some z ↦ unknown z ]
      ]
    ]
unfolding get_file_state
get_file_state_lem metas = ground arith

-- VerifySign; `none` is its error. The keyring is a library: it verifies a text and a signature of 64
-- bytes under an address.
unfoldable pub verify_sign :
    Crypto → (Bytes → Bytes → Bytes → Bool) → Bytes → Bytes → Bytes → Option Bool
verify_sign c keyring pkey signmsg sign =
    if (length signmsg == 0) || ltb (length sign) 64
    then none
    else elim (encode_public_key_as_substrate_account c pkey) [
      | err e ↦ none
      | ok ss58 ↦ some (keyring ss58 signmsg (take 64 sign))
    ]
