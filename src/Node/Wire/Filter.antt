-- ===== src/Node/Wire/Filter.antt =====
-- A connection that the server accepts (node/node.go): ConnectionFiltering takes the first magic off, and
-- readMsg is told so.
use cess_scheduler.Prelude.{
  ℕ, zero, suc, ◌≡◌, refl, sym, ap, ◌∙◌, Bytes, Bool, true, false, ◌||◌, arith, length, take, drop,
  ltb, ◌==◌, bytes_eq, Bool-cases, inl, inr,
}
use cess_scheduler.Node.Wire.{
  Piece, wait, got, ends, Codec, head_file, head_filler, onward, after_magic, read_magic,
  read_round, read_msgs, connection_filtering,
}
use cess_scheduler.Node.Wire.Cut.{read_size-ne-wait}

filtering-magic :
    (s rest : Bytes) → connection_filtering s ≡ (true, rest) → read_magic s ≡ onward rest
unfolding connection_filtering read_magic
filtering-magic s rest e = elim (Bool-cases (ltb (length s) 4)) [
  | inl short ↦ absurd (let x = rw (short, connection_filtering) at e in ground arith)
  | inr long ↦
      let x : (bytes_eq (take 4 s) head_file, drop 4 s) ≡ (true, rest) =
        rw (long, connection_filtering) at e in
      let file : bytes_eq (take 4 s) head_file ≡ true = ap (λ (r : Bool × Bytes). r.0) x in
      let left : drop 4 s ≡ rest = ap (λ (r : Bool × Bytes). r.1) x in
      let some_bytes : (length s == 0) ≡ false = ground arith in
      let known : (bytes_eq (take 4 s) head_filler || bytes_eq (take 4 s) head_file) ≡ true =
        ground arith in
      rw (some_bytes, long) (rw (known, left) refl)
]

module _ (codec : Codec) (is_close : ℕ → Bool) where
  read_round-filtering :
      (s rest : Bytes)
      → connection_filtering s ≡ (true, rest)
      → read_round codec true rest ≡ read_round codec false s
  unfolding read_round
  read_round-filtering s rest e = sym (ap (after_magic codec) (filtering-magic s rest e))

  -- On a connection that ConnectionFiltering accepts, readMsg with its flag set, on what the filter leaves,
  -- hands over the same messages and ends for the same reason as a readMsg that reads the first magic
  -- itself, on all the bytes, in as many rounds.
  pub filtered_stream_same :
      (fuel : ℕ) (s rest : Bytes)
      → connection_filtering s ≡ (true, rest)
      → read_msgs codec is_close fuel 0 true 0 rest ≡ read_msgs codec is_close fuel 0 false 0 s
  unfolding read_msgs
  filtered_stream_same zero s rest e = refl
  filtered_stream_same (suc fuel) s rest e = elim (Bool-cases (is_close 0)) [
    | inl c ↦ rw (c, read_msgs) refl
    | inr c ↦ same_round c (read_round codec true rest) refl (sym (read_round-filtering s rest e))
  ]
    where
      same_round :
          is_close 0 ≡ false
          → (p : Piece) → read_round codec true rest ≡ p
          → read_round codec false s ≡ read_round codec true rest
          → read_msgs codec is_close (suc fuel) 0 true 0 rest
            ≡ read_msgs codec is_close (suc fuel) 0 false 0 s
      same_round c wait p q = absurd (read_size-ne-wait codec rest p)
      same_round c (onward r) p q = let x = q ∙ p in rw (c, p, x, read_msgs) refl
      same_round c (ends x) p q = let y = q ∙ p in rw (c, p, y, read_msgs) refl
      same_round c (got m r) p q = let y = q ∙ p in rw (c, p, y, read_msgs) refl
