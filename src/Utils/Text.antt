-- ===== src/Utils/Text.antt =====
-- strings.Split on one byte, strconv.Atoi and hex.EncodeToString, as the source uses them, and
-- IsIPv4 of pkg/utils/common.go.
use cess_scheduler.Prelude.{
  ℕ, ◌+◌, ◌-◌, ◌*◌, ◌/◌, ◌%◌, ◌^◌, min, Bytes, Bool, Option, none, some, List, [], ◌∷◌, ◌&&◌, ◌==◌,
  leb, ltb, str, contains, if◌then◌else◌,
}
pub mod Decimal

abbrev push : ℕ → List Bytes → List Bytes
push c [] = (c ∷ []) ∷ []
push c (w ∷ ws) = (c ∷ w) ∷ ws

-- strings.Split(s, sep) for a separator of one byte; never the empty list.
unfoldable pub split : ℕ → Bytes → List Bytes
split sep [] = [] ∷ []
split sep (c ∷ s) = let rest = split sep s in if c == sep then [] ∷ rest else push c rest

-- The number that a run of decimal digits writes.
unfoldable pub digits : ℕ → Bytes → Option ℕ
digits acc [] = some acc
digits acc (c ∷ s) = if leb b'0' c && leb c b'9' then digits (acc * 10 + (c - b'0')) s else none

unfoldable pub magnitude : Bytes → Option ℕ
unfolding digits
magnitude [] = none
magnitude (c ∷ s) = digits 0 (c ∷ s)

abbrev max_int : ℕ
max_int = 2 ^ 63 - 1

abbrev positive : Option ℕ → ℕ
positive none = 0
positive (some n) = min n max_int

abbrev negative : Option ℕ → ℕ
negative none = 0
negative (some n) = (2 ^ 64 - min n (2 ^ 63)) % 2 ^ 64

-- The int that strconv.Atoi returns, its error ignored, as a 64-bit pattern: 0 for what is no
-- number, the nearest int for a number out of range.
unfoldable pub atoi : Bytes → ℕ
unfolding magnitude
atoi [] = 0
atoi (c ∷ s) =
    if c == b'-'
    then negative (magnitude s)
    else (if c == b'+' then positive (magnitude s) else positive (magnitude (c ∷ s)))

-- One hexadecimal digit.
abbrev hex_digit : ℕ → ℕ
hex_digit n = if ltb n 10 then b'0' + n else b'a' + (n - 10)

-- hex.EncodeToString
unfoldable pub hex_encode : Bytes → Bytes
hex_encode [] = []
hex_encode (b ∷ bs) = hex_digit (b / 16) ∷ hex_digit (b % 16) ∷ hex_encode bs

-- IsIPv4: `parsed` says that net.ParseIP gave an address.
unfoldable pub is_ipv4 : (Bytes → Bool) → Bytes → Bool
is_ipv4 parsed ip = parsed ip && contains ip (str ".")
