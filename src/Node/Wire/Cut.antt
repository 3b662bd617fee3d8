-- ===== src/Node/Wire/Cut.antt =====
-- A connection that is cut: what readMsg hands over of a part of the bytes.
use cess_scheduler.Prelude.{
  ℕ, zero, suc, ◌+◌, ◌≤◌, ◌≡◌, ◌≢◌, refl, sym, ap, ◌∙◌, Bytes, Bool, true, false, Option, none,
  some, List, [], ◌∷◌, ◌++◌, ◌||◌, arith, length, take, drop, ltb, leb, ◌==◌, bytes_eq,
  take-append_of_le, drop-append_of_le, length-append, le→ltb_false, Bool-cases, inl, inr,
}
use cess_scheduler.Proof.Modular.{set_bytes}
use cess_scheduler.Node.Message.{Message}
use cess_scheduler.Node.Wire.{
  Codec, head_filler, head_file, tcp_read_buffer, Piece, onward, wait, got, ends, parsed,
  after_magic, read_magic, read_data, read_size, read_round, read_msgs,
}

-- The first list is an initial part of the second.
abbrev pub IsPrefix : List Message → List Message → Type 0
IsPrefix ms ns = (more : List Message) × (ns ≡ ms ++ more)

read_magic-onward :
    (s t s' : Bytes) → read_magic s ≡ onward s' → read_magic (s ++ t) ≡ onward (s' ++ t)
unfolding read_magic
read_magic-onward s t s' e =
    let long : 4 ≤ length s = ground arith in
    let l = length-append s t in
    let first = take-append_of_le 4 s t long in
    let rest = drop-append_of_le 4 s t long in
    let here : drop 4 s ≡ s' = ground arith in
    let magic : (bytes_eq (take 4 s) head_filler || bytes_eq (take 4 s) head_file) ≡ true =
      ground arith in
    let some_bytes : (length (s ++ t) == 0) ≡ false = ground arith in
    let enough : ltb (length (s ++ t)) 4 ≡ false = le→ltb_false _ _ (omega arith) in
    rw (some_bytes, enough, first) (rw (magic, rest, here) refl)

read_data-got :
    (codec : Codec) (size : ℕ) (s t rest : Bytes) (m : Message)
    → read_data codec size s ≡ got m rest
    → read_data codec size (s ++ t) ≡ got m (rest ++ t)
unfolding read_data
read_data-got codec size s t rest m e =
    let long : size ≤ length s = ground arith in
    let small : ltb tcp_read_buffer size ≡ false = ground arith in
    let l = length-append s t in
    let first = take-append_of_le size s t long in
    let last = drop-append_of_le size s t long in
    let enough : ltb (length (s ++ t)) size ≡ false = le→ltb_false _ _ (omega arith) in
    let was : parsed (codec.unmarshal (take size s)) (drop size s) ≡ got m rest = ground arith in
    rw (small, enough) (rw (first, last) (go (codec.unmarshal (take size s)) (drop size s) was))
  where
    go :
        (o : Option Message) (r : Bytes)
        → parsed o r ≡ got m rest
        → parsed o (r ++ t) ≡ got m (rest ++ t)
    go none r e = ground arith
    go (some x) r e =
        let a : x ≡ m = ground arith in let b : r ≡ rest = ground arith in λ i. got (a i) (b i ++ t)

read_size-got :
    (codec : Codec) (s t rest : Bytes) (m : Message)
    → read_size codec s ≡ got m rest
    → read_size codec (s ++ t) ≡ got m (rest ++ t)
unfolding read_size
read_size-got codec s t rest m e =
    let long : 4 ≤ length s = ground arith in
    let l = length-append s t in
    let enough : ltb (length (s ++ t)) 4 ≡ false = le→ltb_false _ _ (omega arith) in
    let was : read_data codec (set_bytes (take 4 s)) (drop 4 s) ≡ got m rest = ground arith in
    rw enough (
      rw (take-append_of_le 4 s t long, drop-append_of_le 4 s t long)
        (read_data-got codec (set_bytes (take 4 s)) (drop 4 s) t rest m was))

read_magic-ne-got : (s : Bytes) (m : Message) (rest : Bytes) → read_magic s ≢ got m rest
unfolding read_magic
read_magic-ne-got s m rest e = ground arith

read_magic-wait : (s : Bytes) → read_magic s ≡ wait → s ≡ []
unfolding read_magic
read_magic-wait [] e = refl
read_magic-wait (b ∷ s) e = ground arith

parsed-ne-wait : (o : Option Message) (rest : Bytes) → parsed o rest ≢ wait
parsed-ne-wait none rest e = ground arith
parsed-ne-wait (some m) rest e = ground arith

pub read_size-ne-wait : (codec : Codec) (s : Bytes) → read_size codec s ≢ wait
unfolding read_size read_data
read_size-ne-wait codec s e =
    let size = set_bytes (take 4 s) in
    let never = parsed-ne-wait (codec.unmarshal (take size (drop 4 s))) (drop size (drop 4 s)) in
    ground (arith, never)

-- A message that a round reads is read alike where more bytes follow.
read_round-got :
    (codec : Codec) (flag : Bool) (s t rest : Bytes) (m : Message)
    → read_round codec flag s ≡ got m rest
    → read_round codec flag (s ++ t) ≡ got m (rest ++ t)
unfolding read_round
read_round-got codec true s t rest m e = read_size-got codec s t rest m e
read_round-got codec false s t rest m e = go (read_magic s) refl
  where
    go :
        (p : Piece) → read_magic s ≡ p → after_magic codec (read_magic (s ++ t)) ≡ got m (rest ++ t)
    go (onward s') q =
        ap (after_magic codec) (read_magic-onward s t s' q)
        ∙ read_size-got codec s' t rest m (sym (ap (after_magic codec) q) ∙ e)
    go wait q = absurd (let x = sym (ap (after_magic codec) q) ∙ e in ground arith)
    go (got n r) q = absurd (read_magic-ne-got s n r q)
    go (ends x) q = absurd (let x = sym (ap (after_magic codec) q) ∙ e in ground arith)

read_round-wait :
    (codec : Codec) (flag : Bool) (s : Bytes) → read_round codec flag s ≡ wait → s ≡ []
unfolding read_round
read_round-wait codec true s e = absurd (read_size-ne-wait codec s e)
read_round-wait codec false s e = go (read_magic s) refl e
  where
    go : (p : Piece) → read_magic s ≡ p → after_magic codec p ≡ wait → s ≡ []
    go (onward s') q e = absurd (read_size-ne-wait codec s' e)
    go wait q e = read_magic-wait s q
    go (got n r) q e = absurd (read_magic-ne-got s n r q)
    go (ends x) q e = ground arith

module _ (codec : Codec) (is_close : ℕ → Bool) where
  -- No bytes, no messages.
  pub read_msgs-nil :
      (fuel k : ℕ) (flag : Bool) (w : ℕ) → (read_msgs codec is_close fuel k flag w []).0 ≡ []
  unfolding read_msgs
  read_msgs-nil zero k flag w = refl
  read_msgs-nil (suc fuel) k true w = elim (Bool-cases (is_close k)) [
    | inl c ↦ rw (c, read_msgs) refl
    | inr c ↦ rw (c, read_msgs) (unfold read_round read_size in refl)
  ]
  read_msgs-nil (suc fuel) k false w = elim (Bool-cases (is_close k)) [
    | inl c ↦ rw (c, read_msgs) refl
    | inr c ↦ elim (Bool-cases (leb 10 (w + 1))) [
      | inl late ↦ rw (c, read_msgs) (unfold read_round read_magic in rw late refl)
      | inr early ↦
          rw (c, read_msgs)
            (unfold read_round read_magic in rw early (read_msgs-nil fuel (suc k) false (w + 1)))
    ]
  ]

  nil-IsPrefix : (ms ns : List Message) → ms ≡ [] → IsPrefix ms ns
  nil-IsPrefix ms ns e = (ns, ap (λ (l : List Message). l ++ ns) (sym e))

  -- Whatever bytes come: what is read of an initial part of them is an initial part of what is read of
  -- all, in as many rounds.
  pub cut_stream_prefix :
      (fuel k : ℕ) (flag : Bool) (w : ℕ) (s t : Bytes)
      → IsPrefix
          (read_msgs codec is_close fuel k flag w s).0
          (read_msgs codec is_close fuel k flag w (s ++ t)).0
  unfolding read_msgs
  cut_stream_prefix zero k flag w s t = ([], refl)
  cut_stream_prefix (suc fuel) k flag w s t = elim (Bool-cases (is_close k)) [
    | inl c ↦ ([], rw (c, read_msgs) refl)
    | inr c ↦ open_round c (read_round codec flag s) refl (cut_stream_prefix fuel (suc k) false)
  ]
    where
      open_round :
          is_close k ≡ false
          → (p : Piece) → read_round codec flag s ≡ p
          → ((w : ℕ) (s t : Bytes)
              → IsPrefix
                  (read_msgs codec is_close fuel (suc k) false w s).0
                  (read_msgs codec is_close fuel (suc k) false w (s ++ t)).0)
          → IsPrefix
              (read_msgs codec is_close (suc fuel) k flag w s).0
              (read_msgs codec is_close (suc fuel) k flag w (s ++ t)).0
      open_round c (ends e) q ih = nil-IsPrefix _ _ (rw (c, q, read_msgs) refl)
      open_round c (onward r) q ih = nil-IsPrefix _ _ (rw (c, q, read_msgs) refl)
      open_round c wait q ih = nil-IsPrefix _ _ (
          ap (λ (b : Bytes). (read_msgs codec is_close (suc fuel) k flag w b).0)
            (read_round-wait codec flag s q)
          ∙ read_msgs-nil (suc fuel) k flag w)
      open_round c (got m rest) q ih =
          let next = read_round-got codec flag s t rest m q in
          let (more, e) = ih w rest t in
          (more, rw (c, q, next, read_msgs) (ap (λ (l : List Message). m ∷ l) e))
