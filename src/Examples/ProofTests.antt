-- ===== src/Examples/ProofTests.antt =====
-- Storage proofs, challenges, pieces of files and addresses (pkg/proof, pkg/utils).
use cess_scheduler.Prelude.{
  ℕ, ◌+◌, ◌-◌, ◌*◌, ◌<◌, ◌≡◌, ◌≢◌, refl, ◌⊎◌, Bytes, true, false, none, some, List, [], ◌∷◌, ◌++◌,
  map, length, replicate, get_elem?, arith, All, pos, negsuc, sub_ℕ, length-replicate, str,
}
use mathlib.Core.List.{reverse, flatten}
use mathlib.Core.List.Permᴰ
use cess_scheduler.Proof.Modular.{set_bytes}
use cess_scheduler.Proof.Challenge.{QElement, podr2_challenge_generate_from_chain, challenge_pairs}
use cess_scheduler.Proof.Verify.{RsaKey, answer, verify_proof}
use cess_scheduler.Proof.Verify.Complete.{Block, mu_of, sigma_of, honest_proof_accepted}
use cess_scheduler.Proof.Split.{split_v2}
use cess_scheduler.Proof.Split.Whole.{split_v2_whole}
use cess_scheduler.Utils.Text.{split, atoi, hex_encode}
use cess_scheduler.Utils.Address.{
  Crypto, ok, encode_public_key_as_cess_account, decode_public_key_of_cess_account,
  encode_public_key_as_substrate_account, decode_public_key_of_substrate_account,
}
use cess_scheduler.Utils.Address.RoundTrip.{IsLawful, account_round_trip}

-- n = 3 * 11, with the private exponent 7.
abbrev key : RsaKey
key = record { n = 33; e = 3 }

abbrev block_a : Block
block_a = record { q = record { i = pos 0; v = 2 ∷ [] }; hash = 5 ∷ []; m = 3; tag = 28 }

abbrev block_b : Block
block_b = record { q = record { i = pos 4; v = 3 ∷ [] }; hash = 4 ∷ []; m = 1; tag = 2 }

honest_proof_accepted_example :
    verify_proof reverse key
      (2 ∷ [])
      (map (λ c. c.q) (block_a ∷ block_b ∷ []))
      (9 ∷ [])
      (2 ∷ [])
      (map (λ c. c.hash) (block_a ∷ block_b ∷ []))
    ≡ answer true
unfolding set_bytes mu_of sigma_of
honest_proof_accepted_example =
    honest_proof_accepted reverse key (2 ∷ []) (9 ∷ []) (2 ∷ []) block_a (block_b ∷ [])
      (λ xs. Permᴰ.reverse xs) (omega arith) (refl, (refl, tt)) refl refl

wrong_sigma_rejected :
    verify_proof (λ xs. xs) key (2 ∷ []) (block_a.q ∷ []) (6 ∷ []) (24 ∷ []) (block_a.hash ∷ [])
    ≡ answer false
unfolding verify_proof
wrong_sigma_rejected = refl

abbrev numbers : List ℕ
numbers = 3 ∷ 0 ∷ []

abbrev randoms : List Bytes
randoms = (7 ∷ []) ∷ (8 ∷ []) ∷ []

paired :
    ((length numbers ≢ length randoms)
      × (podr2_challenge_generate_from_chain numbers randoms ≡ none))
    ⊎ ((qs : List QElement) × (podr2_challenge_generate_from_chain numbers randoms ≡ some qs)
        × (length qs ≡ length numbers)
        × ((j b : ℕ) (v : Bytes)
            → get_elem? numbers j ≡ some b
            → get_elem? randoms j ≡ some v
            → get_elem? qs j ≡ some (record { i = sub_ℕ b 1; v = v })))
paired = challenge_pairs numbers randoms

block_zero :
    podr2_challenge_generate_from_chain (0 ∷ []) ((7 ∷ []) ∷ [])
    ≡ some (record { i = negsuc 0; v = 7 ∷ [] } ∷ [])
unfolding podr2_challenge_generate_from_chain
block_zero = refl

abbrev file_bytes : Bytes
file_bytes = 1 ∷ 2 ∷ 3 ∷ 4 ∷ 5 ∷ []

split_runs : split_v2 file_bytes 2 ≡ ((1 ∷ 2 ∷ []) ∷ (3 ∷ 4 ∷ []) ∷ (5 ∷ 0 ∷ []) ∷ [], 3)
unfolding split_v2
split_runs = refl

-- A file that is shorter than one piece is not padded.
short_file : split_v2 file_bytes 8 ≡ (file_bytes ∷ [], 1)
unfolding split_v2
short_file = refl

split_v2_whole_example :
    (length (split_v2 file_bytes 2).0 ≡ (split_v2 file_bytes 2).1)
    × All (λ p. length p ≡ 2) (split_v2 file_bytes 2).0
    × (flatten (split_v2 file_bytes 2).0
        ≡ file_bytes ++ replicate ((split_v2 file_bytes 2).1 * 2 - length file_bytes) 0)
    × ((split_v2 file_bytes 2).1 * 2 < length file_bytes + 2)
split_v2_whole_example = split_v2_whole file_bytes 2 (omega arith) (omega arith)

ipv4_parts : map atoi (split b'.' (str "10.0.255.7")) ≡ 10 ∷ 0 ∷ 255 ∷ 7 ∷ []
unfolding split atoi
ipv4_parts = refl

hex_runs : hex_encode (0 ∷ 171 ∷ []) ≡ str "00ab"
unfolding hex_encode
hex_runs = refl

-- Stand-ins for the libraries: base58 keeps the bytes, every sum is zero.
abbrev plain : Crypto
plain = record { base58_encode = λ b. b; base58_decode = λ b. b; sum512 = λ b. replicate 64 0 }

plain-IsLawful : IsLawful plain
plain-IsLawful = record {
  decode-encode = λ b h. refl;
  decode-nil = refl;
  length-sum = λ b. length-replicate {A = ℕ} 64 0;
  sum_bytes = λ b. omega arith;
}

account_round_trip_example :
    ((address : Bytes) × (encode_public_key_as_cess_account plain (replicate 32 7) ≡ ok address)
      × (decode_public_key_of_cess_account plain address ≡ ok (replicate 32 7)))
    × ((address : Bytes) × (encode_public_key_as_substrate_account plain (replicate 32 7)
          ≡ ok address)
        × (decode_public_key_of_substrate_account plain address ≡ ok (replicate 32 7)))
account_round_trip_example =
    account_round_trip plain plain-IsLawful (replicate 32 7) (omega arith)
      (length-replicate {A = ℕ} 32 7)
