-- ===== src/Utils/Address.antt =====
-- pkg/utils/ss58_transform.go: account addresses. base58 and blake2b are libraries: a `Crypto`.
use cess_scheduler.Prelude.{
  ℕ, ◌+◌, ◌-◌, Bytes, Bool, true, false, Option, none, some, List, [], ◌∷◌, ◌++◌, ◌&&◌, length,
  take, drop, get_or, ◌==◌, if◌then◌else◌, not,
}
pub mod RoundTrip

pub record Crypto : Type 0 where
  pub base58_encode : Bytes → Bytes
  pub base58_decode : Bytes → Bytes
  pub sum512 : Bytes → Bytes

abbrev pub ss_prefix : Bytes
ss_prefix = 0x53 ∷ 0x53 ∷ 0x35 ∷ 0x38 ∷ 0x50 ∷ 0x52 ∷ 0x45 ∷ []

abbrev pub substrate_prefix : Bytes
substrate_prefix = 0x2a ∷ []

abbrev pub cess_prefix : Bytes
cess_prefix = 0x50 ∷ 0xac ∷ []

pub data AddressError : Type 0 where
  key_length base58_encode_error invalid_address base58_decode_error : AddressError
  prefix_error checksum_error : AddressError

pub data Result : Type 0 where
  ok : Bytes → Result
  err : AddressError → Result

abbrev pub append_bytes : Bytes → Bytes → Bytes
append_bytes data1 data2 = data1 ++ data2

-- data[i:j]
abbrev pub slice : Bytes → ℕ → ℕ → Bytes
slice d i j = take (j - i) (drop i d)

-- ck[:2] of the hash of a payload behind "SS58PRE".
unfoldable pub checksum : Crypto → Bytes → Bytes
checksum c payload = take 2 (c.sum512 (append_bytes ss_prefix payload))

-- The body that EncodePublicKeyAsSubstrateAccount and EncodePublicKeyAsCessAccount share.
unfoldable pub encode_public_key : Crypto → Bytes → Bytes → Result
encode_public_key c prefix public_key =
    if length public_key == 32
    then (let payload = append_bytes prefix public_key in
        let address = c.base58_encode (append_bytes payload (checksum c payload)) in
        if length address == 0 then err base58_encode_error else ok address)
    else err key_length

unfoldable pub encode_public_key_as_substrate_account : Crypto → Bytes → Result
unfolding encode_public_key checksum
encode_public_key_as_substrate_account c public_key =
    encode_public_key c substrate_prefix public_key

unfoldable pub encode_public_key_as_cess_account : Crypto → Bytes → Result
unfolding encode_public_key checksum
encode_public_key_as_cess_account c public_key = encode_public_key c cess_prefix public_key

-- The tests of VerityAddress on the bytes of the address; `none` is a nil error. The last test of
-- the source, on the length of `pub`, stands behind the one that implies it.
unfoldable pub verity_bytes : Crypto → Bytes → Bytes → Option AddressError
verity_bytes c d prefix =
    if length d == 34 + length prefix
    then (if get_or d 0 0 == get_or prefix 0 0
        then (let key = slice d (length prefix) (length d - 2) in
            let ck = checksum c (append_bytes prefix key) in
            if (get_or ck 0 0 == get_or d (32 + length prefix) 0)
              && (get_or ck 1 0 == get_or d (33 + length prefix) 0)
            then (if length key == 32 then none else some key_length)
            else some checksum_error)
        else some prefix_error)
    else some base58_decode_error

unfoldable pub verity_address : Crypto → Bytes → Bytes → Option AddressError
unfolding verity_bytes checksum
verity_address c address prefix = verity_bytes c (c.base58_decode address) prefix

-- The body that DecodePublicKeyOfCessAccount and DecodePublicKeyOfSubstrateAccount share.
unfoldable pub decode_public_key : Crypto → Bytes → Bytes → Result
unfolding verity_address
decode_public_key c prefix address = elim (verity_address c address prefix) [
  | some e ↦ err invalid_address
  | none ↦
      let d = c.base58_decode address in
      if length d == 34 + length prefix
      then ok (slice d (length prefix) (length d - 2))
      else err base58_decode_error
]

unfoldable pub decode_public_key_of_cess_account : Crypto → Bytes → Result
unfolding decode_public_key
decode_public_key_of_cess_account c address = decode_public_key c cess_prefix address

unfoldable pub decode_public_key_of_substrate_account : Crypto → Bytes → Result
unfolding decode_public_key
decode_public_key_of_substrate_account c address = decode_public_key c substrate_prefix address
