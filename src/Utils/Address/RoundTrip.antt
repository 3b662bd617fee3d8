-- ===== src/Utils/Address/RoundTrip.antt =====
-- Encoding a key as an address, and decoding it.
use cess_scheduler.Prelude.{
  ℕ, zero, suc, ◌+◌, ◌-◌, ◌<◌, ◌≡◌, ◌≢◌, refl, sym, ap, ◌∙◌, Bytes, false, none, [], ◌∷◌, ◌++◌,
  length, take, get_or, ◌==◌, arith, All, length-append, take-append, drop-append, length-take,
  ==_self,
}
use mathlib.Core.List.{append_assoc}
use cess_scheduler.Utils.Address.{
  Crypto, ss_prefix, ok, err, key_length, append_bytes, slice, checksum, encode_public_key,
  verity_bytes, verity_address, decode_public_key, encode_public_key_as_cess_account,
  decode_public_key_of_cess_account, encode_public_key_as_substrate_account,
  decode_public_key_of_substrate_account,
}

-- What the two libraries promise: base58 decodes what it encodes, the empty text decodes to
-- nothing, and a sum is 64 bytes long.
pub record IsLawful (c : Crypto) : Type 0 where
  pub decode-encode : (b : Bytes) → All (λ x. x < 256) b → c.base58_decode (c.base58_encode b) ≡ b
  pub decode-nil : c.base58_decode [] ≡ []
  pub length-sum : (b : Bytes) → length (c.sum512 b) ≡ 64
  pub sum_bytes : (b : Bytes) → All (λ x. x < 256) (c.sum512 b)

All-append :
    (xs ys : Bytes) → All (λ x. x < 256) xs → All (λ x. x < 256) ys → All (λ x. x < 256) (xs ++ ys)
All-append [] ys hx hy = hy
All-append (x ∷ xs) ys hx hy = (hx.0, All-append xs ys hx.1 hy)

All-take : (n : ℕ) (xs : Bytes) → All (λ x. x < 256) xs → All (λ x. x < 256) (take n xs)
All-take zero xs h = tt
All-take (suc n) [] h = tt
All-take (suc n) (x ∷ xs) h = (h.0, All-take n xs h.1)

two : (ck : Bytes) → length ck ≡ 2 → ck ≡ get_or ck 0 0 ∷ get_or ck 1 0 ∷ []
two [] h = absurd (omega arith)
two (a ∷ []) h = absurd (omega arith)
two (a ∷ b ∷ []) h = refl
two (a ∷ b ∷ c ∷ r) h = absurd (omega arith)

get_or-append : (xs ys : Bytes) (i : ℕ) → get_or (xs ++ ys) (length xs + i) 0 ≡ get_or ys i 0
get_or-append [] ys i = let e : 0 + i ≡ i = omega arith in rw e
get_or-append (x ∷ xs) ys i =
    let e : suc (length xs) + i ≡ suc (length xs + i) = omega arith in rw e (get_or-append xs ys i)

-- The key stands between the prefix and the checksum.
slice-key :
    (prefix key ck : Bytes)
    → length ck ≡ 2
    → slice ((prefix ++ key) ++ ck) (length prefix) (length ((prefix ++ key) ++ ck) - 2) ≡ key
slice-key prefix key ck h =
    let e : length ((prefix ++ key) ++ ck) - 2 - length prefix ≡ length key =
      rw (length-append (prefix ++ key) ck, length-append prefix key) (omega arith) in
    rw (e, append_assoc prefix key ck, drop-append prefix (key ++ ck)) (take-append key ck)

module _ (c : Crypto) (laws : IsLawful c) where
  length-checksum : (payload : Bytes) → length (checksum c payload) ≡ 2
  unfolding checksum
  length-checksum payload =
      rw
        (
          length-take 2 (c.sum512 (append_bytes ss_prefix payload)),
          laws.length-sum (append_bytes ss_prefix payload),
        )
        refl

  verity_bytes-none :
      (d prefix key : Bytes)
      → length d ≡ 34 + length prefix
      → get_or d 0 0 ≡ get_or prefix 0 0
      → slice d (length prefix) (length d - 2) ≡ key
      → length key ≡ 32
      → get_or d (32 + length prefix) 0 ≡ get_or (checksum c (append_bytes prefix key)) 0 0
      → get_or d (33 + length prefix) 0 ≡ get_or (checksum c (append_bytes prefix key)) 1 0
      → verity_bytes c d prefix ≡ none
  unfolding verity_bytes
  verity_bytes-none d prefix key e₁ e₂ e₃ e₄ e₅ e₆ =
      rw (e₂, e₃, e₅, e₆, e₄, verity_bytes)
        (rw
          (
            ==_self (get_or prefix 0 0),
            ==_self (get_or (checksum c (append_bytes prefix key)) 0 0),
            ==_self (get_or (checksum c (append_bytes prefix key)) 1 0),
          )
          (ground arith))

  -- The bytes of an address pass the tests.
  verity_bytes_ok :
      (p : ℕ) (ps key : Bytes)
      → length key ≡ 32
      → verity_bytes c (((p ∷ ps) ++ key) ++ checksum c ((p ∷ ps) ++ key)) (p ∷ ps) ≡ none
  verity_bytes_ok p ps key h =
      let prefix : Bytes = p ∷ ps in
      let ck = checksum c (prefix ++ key) in
      let two_long = length-checksum (prefix ++ key) in
      let at : (i : ℕ) → get_or ((prefix ++ key) ++ ck) (32 + i + length prefix) 0 ≡ get_or ck i 0 =
        λ i.
          let e : 32 + i + length prefix ≡ length (prefix ++ key) + i =
            rw (length-append prefix key) (omega arith) in
          rw e (get_or-append (prefix ++ key) ck i) in
      verity_bytes-none ((prefix ++ key) ++ ck) prefix key
        (rw (length-append (prefix ++ key) ck, length-append prefix key) (omega arith)) refl
        (slice-key prefix key ck two_long) h (at 0) (at 1)

  nonempty : (b : Bytes) → All (λ x. x < 256) b → b ≢ [] → (length (c.base58_encode b) == 0) ≡ false
  nonempty b h ne = go (c.base58_encode b) refl
    where
      go : (a : Bytes) → c.base58_encode b ≡ a → (length a == 0) ≡ false
      go [] e =
          absurd (ne (sym (laws.decode-encode b h) ∙ ap (c.base58_decode) e ∙ laws.decode-nil))
      go (x ∷ a) e = ground arith

  round_trip :
      (p : ℕ) (ps key : Bytes)
      → All (λ x. x < 256) (p ∷ ps)
      → All (λ x. x < 256) key
      → length key ≡ 32
      → (address : Bytes) × (encode_public_key c (p ∷ ps) key ≡ ok address)
        × (decode_public_key c (p ∷ ps) address ≡ ok key)
  unfolding encode_public_key decode_public_key
  round_trip p ps key hp hk h =
      let prefix : Bytes = p ∷ ps in
      let ck = checksum c (prefix ++ key) in
      let d = (prefix ++ key) ++ ck in
      let bytes : All (λ x. x < 256) d =
        All-append (prefix ++ key) ck (All-append prefix key hp hk)
          (unfold checksum in (All-take 2 _ (laws.sum_bytes _))) in
      let back : c.base58_decode (c.base58_encode d) ≡ d = laws.decode-encode d bytes in
      let valid : verity_address c (c.base58_encode d) prefix ≡ none =
        unfold verity_address in (rw back (verity_bytes_ok p ps key h)) in
      let long : length d ≡ 34 + length prefix =
        rw
          (
            length-append (prefix ++ key) ck,
            length-append prefix key,
            length-checksum (prefix ++ key),
          )
          (omega arith) in
      (
        c.base58_encode d,
        rw (h, nonempty d bytes (λ e. cc), encode_public_key) refl,
        rw (valid, decode_public_key)
            (rw back (
              rw (long, ==_self (34 + length prefix))
                (ap ok (rw long at (slice-key prefix key ck (length-checksum (prefix ++ key))))))),
      )

  -- Both kinds of account: encoding a key of 32 bytes succeeds, and decoding the address gives the
  -- key back.
  pub account_round_trip :
      (key : Bytes)
      → All (λ x. x < 256) key
      → length key ≡ 32
      → ((address : Bytes) × (encode_public_key_as_cess_account c key ≡ ok address)
          × (decode_public_key_of_cess_account c address ≡ ok key))
        × ((address : Bytes) × (encode_public_key_as_substrate_account c key ≡ ok address)
            × (decode_public_key_of_substrate_account c address ≡ ok key))
  unfolding encode_public_key_as_cess_account decode_public_key_of_cess_account
      encode_public_key_as_substrate_account decode_public_key_of_substrate_account
  account_round_trip key hk h = (
    round_trip 0x50 (0xac ∷ []) key (omega arith) hk h,
    round_trip 0x2a [] key (omega arith) hk h,
  )

  -- A key that is not 32 bytes long is refused.
  pub encode_refuses :
      (prefix key : Bytes) → length key ≢ 32 → encode_public_key c prefix key ≡ err key_length
  unfolding encode_public_key
  encode_refuses prefix key h = ground arith
