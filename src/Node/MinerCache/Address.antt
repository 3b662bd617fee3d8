-- ===== src/Node/MinerCache/Address.antt =====
-- The address that task_MinerCache writes into the cache, and backupFile reads out of it.
use cess_scheduler.Prelude.{
  ℕ, ◌%◌, ◌^◌, ◌<◌, ◌≡◌, ◌≢◌, refl, ap, ◌∙◌, Bytes, Bool, true, some, List, [], ◌∷◌, ◌++◌, arith,
  All, inl, inr, contains, str,
}
use cess_scheduler.Chain.Types.{Ipv4Type}
use cess_scheduler.Chain.Submit.{ipv4_value}
use cess_scheduler.Utils.Text.{split, atoi, is_ipv4}
use cess_scheduler.Utils.Text.Decimal.{
  decimal, atoi-decimal, split-none, split-append, decimal_without,
}
use cess_scheduler.Node.Backup.{ip_type}
use cess_scheduler.Node.MinerCache.{ipv4_text, address_text}

abbrev after_second : ℕ → ℕ → Bytes
after_second c d = decimal c ++ b'.' ∷ decimal d

abbrev after_first : ℕ → ℕ → ℕ → Bytes
after_first b c d = decimal b ++ b'.' ∷ after_second c d

split-dots :
    (a b c d : ℕ)
    → split b'.' (ipv4_text (a ∷ b ∷ c ∷ d ∷ []))
      ≡ decimal a ∷ decimal b ∷ decimal c ∷ decimal d ∷ []
unfolding ipv4_text
split-dots a b c d =
    split-append b'.' (decimal a) (after_first b c d) (dotless a)
    ∙ ap (λ (l : List Bytes). decimal a ∷ l)
        (split-append b'.' (decimal b) (after_second c d) (dotless b)
          ∙ ap (λ (l : List Bytes). decimal b ∷ l)
              (split-append b'.' (decimal c) (decimal d) (dotless c)
                ∙ ap (λ (l : List Bytes). decimal c ∷ l) (split-none b'.' (decimal d) (dotless d))))
  where
    dotless : (n : ℕ) → All (λ c. c ≢ b'.') (decimal n)
    dotless n = decimal_without n b'.' (inl (omega arith))

All-append : (P : ℕ → Type 0) (s t : Bytes) → All P s → All P t → All P (s ++ t)
All-append P [] t h k = k
All-append P (c ∷ s) t (p, h) k = (p, All-append P s t h k)

contains-dot : (s t : Bytes) → contains (s ++ b'.' ∷ t) (str ".") ≡ true
contains-dot [] t = ground arith
contains-dot (c ∷ s) t = let h = contains-dot s t in ground arith

-- The text of an IPv4 address has no colon and a dot.
ipv4_text-parts :
    (a b c d : ℕ)
    → All (λ x. x ≢ b':') (ipv4_text (a ∷ b ∷ c ∷ d ∷ []))
      × (contains (ipv4_text (a ∷ b ∷ c ∷ d ∷ [])) (str ".") ≡ true)
unfolding ipv4_text
ipv4_text-parts a b c d = (
  All-append (λ x. x ≢ b':') (decimal a) (b'.' ∷ after_first b c d) (plain a)
      (
        omega arith,
        All-append (λ x. x ≢ b':') (decimal b) (b'.' ∷ after_second c d) (plain b)
            (
              omega arith,
              All-append (λ x. x ≢ b':') (decimal c) (b'.' ∷ decimal d) (plain c)
                  (omega arith, plain d),
            ),
      ),
  contains-dot (decimal a) (after_first b c d),
)
  where
    plain : (n : ℕ) → All (λ x. x ≢ b':') (decimal n)
    plain n = decimal_without n b':' (inr (omega arith))

ipv4_value-bytes :
    (a b c d : ℕ)
    → a < 256
    → b < 256
    → c < 256
    → d < 256
    → ipv4_value (decimal a ∷ decimal b ∷ decimal c ∷ decimal d ∷ []) ≡ some (a ∷ b ∷ c ∷ d ∷ [])
unfolding ipv4_value
ipv4_value-bytes a b c d ha hb hc hd =
    rw
      (
        atoi-decimal a (omega arith),
        atoi-decimal b (omega arith),
        atoi-decimal c (omega arith),
        atoi-decimal d (omega arith),
      )
      (grind arith)

-- The address of a miner that is written to the cache is the address that backupFile reads: four bytes
-- and a port of 16 bits come back, if net.ParseIP accepts the text.
pub address_round_trip :
    (parsed : Bytes → Bool) (a b c d port : ℕ)
    → a < 256
    → b < 256
    → c < 256
    → d < 256
    → port < 2 ^ 16
    → parsed (ipv4_text (a ∷ b ∷ c ∷ d ∷ [])) ≡ true
    → let ip : Ipv4Type = record { index = 0; value = a ∷ b ∷ c ∷ d ∷ []; port = port } in
      ip_type parsed (split b':' (address_text ip)) ≡ some ip
unfolding address_text ip_type
address_round_trip parsed a b c d port ha hb hc hd hp h =
    let text = ipv4_text (a ∷ b ∷ c ∷ d ∷ []) in
    let (plain, dotted) = ipv4_text-parts a b c d in
    let parts : split b':' (text ++ b':' ∷ decimal port) ≡ text ∷ decimal port ∷ [] =
      split-append b':' text (decimal port) plain
      ∙ ap (λ (l : List Bytes). text ∷ l)
          (split-none b':' (decimal port) (decimal_without port b':' (inr (omega arith)))) in
    let is : is_ipv4 parsed text ≡ true = unfold is_ipv4 in rw (h, dotted) refl in
    let value : ipv4_value (split b'.' text) ≡ some (a ∷ b ∷ c ∷ d ∷ []) =
      ap ipv4_value (split-dots a b c d) ∙ ipv4_value-bytes a b c d ha hb hc hd in
    let small : port < 2 ^ 63 = omega arith in
    let p : atoi (decimal port) % 2 ^ 16 ≡ port = rw (atoi-decimal port small) (grind arith) in
    rw (parts, ip_type) (rw (is, value, p) refl)
