-- ===== src/Proof/Key/First.antt =====
-- The life of the verifier's public key (pkg/proof/keyGen.go).
use cess_scheduler.Prelude.{
  ◌≡◌, refl, sym, ap, ◌∙◌, Bytes, true, none, some, List, [], ◌∷◌, ℤ, Bool-cases, inl, inr,
}
use mathlib.Core.Path.{subst}
use cess_scheduler.Cache.{Cache, get, put, get-put, get-put_other}
use cess_scheduler.Proof.Key.{
  PublicKey, KeyState, KeyOp, tag, lookup, restart, unset, sig_key_e, sig_key_n, set_string, int64,
  is_unset, set_n, read_key, set_key, get_key, key_from_tag, key_step, key_run, store_key,
  not_cached,
}

-- The cache holds both numbers, and the key is theirs.
Kept : ℤ → ℤ → KeyState → Type 0
Kept e n s =
    (te : Bytes) × (tn : Bytes) × (get s.cache sig_key_e ≡ some te)
    × (get s.cache sig_key_n ≡ some tn)
    × (set_string te ≡ some e)
    × (set_string tn ≡ some n)
    × (s.key ≡ record { n = some n; e = int64 e })

key_of_held : (e n : ℤ) (s : KeyState) → Kept e n s → s.key ≡ record { n = some n; e = int64 e }
unfolding Kept
key_of_held e n s (te, tn, at_e, at_n, pe, pn, k) = k

read_key_lem :
    (c : Cache) (k : PublicKey) (te tn : Bytes) (e n : ℤ)
    → get c sig_key_e ≡ some te
    → get c sig_key_n ≡ some tn
    → set_string te ≡ some e
    → set_string tn ≡ some n
    → read_key c k ≡ (record { n = some n; e = int64 e }, none)
unfolding read_key set_n
read_key_lem c k te tn e n at_e at_n pe pn = rw (at_e, pe, at_n, pn, read_key, set_n) refl

-- Set or not, a key that the cache holds stays.
set_key_kept :
    (c : Cache) (te tn : Bytes) (e n : ℤ)
    → get c sig_key_e ≡ some te
    → get c sig_key_n ≡ some tn
    → set_string te ≡ some e
    → set_string tn ≡ some n
    → set_key (some c) (record { n = some n; e = int64 e })
      ≡ (record { n = some n; e = int64 e }, none)
unfolding set_key
set_key_kept c te tn e n at_e at_n pe pn =
    elim (Bool-cases (is_unset (record { n = some n; e = int64 e }))) [
      | inl u ↦
          rw (u, set_key)
            (read_key_lem c (record { n = some n; e = int64 e }) te tn e n at_e at_n pe pn)
      | inr u ↦ rw (u, set_key) refl
    ]

-- The test of GetKey is SetKey's own.
get_key-set_key : (c : Cache) (k : PublicKey) → get_key (some c) k ≡ set_key (some c) k
unfolding get_key set_key
get_key-set_key c k = elim (Bool-cases (is_unset k)) [
  | inl u ↦ rw (u, get_key, set_key) refl
  | inr u ↦ rw (u, get_key, set_key) refl
]

read_key_of_unset :
    (c : Cache) (k : PublicKey) (te tn : Bytes) (e n : ℤ)
    → is_unset k ≡ true
    → get c sig_key_e ≡ some te
    → get c sig_key_n ≡ some tn
    → set_string te ≡ some e
    → set_string tn ≡ some n
    → set_key (some c) k ≡ (record { n = some n; e = int64 e }, none)
unfolding set_key
read_key_of_unset c k te tn e n u at_e at_n pe pn =
    rw (u, set_key) (read_key_lem c k te tn e n at_e at_n pe pn)

unset_lem : is_unset unset ≡ true
unfolding is_unset
unset_lem = refl

get_key_of_held :
    (e n : ℤ) (s : KeyState) → Kept e n s → get_key (some s.cache) s.key ≡ (s.key, none)
unfolding Kept
get_key_of_held e n s (te, tn, at_e, at_n, pe, pn, k) =
    ap (get_key (some s.cache)) k
    ∙ get_key-set_key s.cache (record { n = some n; e = int64 e })
    ∙ set_key_kept s.cache te tn e n at_e at_n pe pn
    ∙ ap (λ t. (t, none)) (sym k)

restart_of_held :
    (e n : ℤ) (s : KeyState) → Kept e n s → set_key (some s.cache) unset ≡ (s.key, none)
unfolding Kept
restart_of_held e n s (te, tn, at_e, at_n, pe, pn, k) =
    read_key_of_unset s.cache unset te tn e n unset_lem at_e at_n pe pn
    ∙ ap (λ t. (t, none)) (sym k)

key_step-same : (e n : ℤ) (op : KeyOp) (s : KeyState) → Kept e n s → key_step op s ≡ s
unfolding key_step key_from_tag store_key
key_step-same e n (tag a b te tn) s h = ap (store_key a b te tn s) (get_key_of_held e n s h)
key_step-same e n lookup s h = ap (λ r. record s { key = r.0 }) (get_key_of_held e n s h)
key_step-same e n restart s h = ap (λ r. record s { key = r.0 }) (restart_of_held e n s h)

key_run-same : (e n : ℤ) (ops : List KeyOp) (s : KeyState) → Kept e n s → key_run ops s ≡ s
unfolding key_run
key_run-same e n [] s h = refl
key_run-same e n (op ∷ ops) s h =
    ap (key_run ops) (key_step-same e n op s h) ∙ key_run-same e n ops s h

nothing_cached :
    (c : Cache) (k : PublicKey)
    → is_unset k ≡ true
    → get c sig_key_e ≡ none
    → get_key (some c) k ≡ (k, some not_cached)
unfolding get_key set_key read_key
nothing_cached c k u missing = rw (u, get_key, missing, set_key, read_key) refl

first_tag_lem :
    (te tn : Bytes) (s : KeyState)
    → is_unset s.key ≡ true
    → get s.cache sig_key_e ≡ none
    → key_step (tag true true te tn) s ≡ store_key true true te tn s (s.key, some not_cached)
unfolding key_step key_from_tag
first_tag_lem te tn s u missing =
    ap (store_key true true te tn s) (nothing_cached s.cache s.key u missing)

-- The first tag with readable numbers, on an unset key and a cache without one.
first_tag-Kept :
    (te tn : Bytes) (e n : ℤ) (s : KeyState)
    → is_unset s.key ≡ true
    → set_string te ≡ some e
    → set_string tn ≡ some n
    → Kept e n (store_key true true te tn s (s.key, some not_cached))
unfolding Kept store_key
first_tag-Kept te tn e n s u pe pn =
    let c : Cache = put true sig_key_n tn (put true sig_key_e te s.cache) in
    let at_e : get c sig_key_e ≡ some te =
      get-put_other true (put true sig_key_e te s.cache) sig_key_n sig_key_e tn refl
      ∙ get-put s.cache sig_key_e te in
    let at_n : get c sig_key_n ≡ some tn = get-put (put true sig_key_e te s.cache) sig_key_n tn in
    (
      te,
      tn,
      at_e,
      at_n,
      pe,
      pn,
      ap (λ r. r.0) (read_key_of_unset c s.key te tn e n u at_e at_n pe pn),
    )

-- Where the key is unset, the cache holds no E, the texts E and N of a tag are decimal numbers and the cache
-- writes them: the key becomes N and E modulo 2^64 as a signed number, and neither it nor the cache changes
-- in whatever later tags, whose writes may fail, lookups and restarts do.
pub first_tag_decides :
    (te tn : Bytes) (e n : ℤ) (s : KeyState) (ops : List KeyOp)
    → is_unset s.key ≡ true
    → get s.cache sig_key_e ≡ none
    → set_string te ≡ some e
    → set_string tn ≡ some n
    → ((key_step (tag true true te tn) s).key ≡ record { n = some n; e = int64 e })
      × (key_run (tag true true te tn ∷ ops) s ≡ key_step (tag true true te tn) s)
unfolding key_run
first_tag_decides te tn e n s ops u missing pe pn =
    let kept : Kept e n (key_step (tag true true te tn) s) =
      subst (Kept e n) (sym (first_tag_lem te tn s u missing))
        (first_tag-Kept te tn e n s u pe pn) in
    (
      key_of_held e n (key_step (tag true true te tn) s) kept,
      key_run-same e n ops (key_step (tag true true te tn) s) kept,
    )
