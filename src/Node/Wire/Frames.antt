-- ===== src/Node/Wire/Frames.antt =====
-- The frames of sendMsg, as readMsg takes them apart.
use cess_scheduler.Prelude.{
  ℕ, suc, ◌+◌, ◌%◌, ◌^◌, ◌≤◌, ◌<◌, ◌≡◌, refl, ap, ◌∙◌, Bytes, Bool, true, false, some, List, [],
  ◌∷◌, ◌++◌, map, arith, length, ltb, leb, ◌==◌, All, take-append, drop-append, length-append,
  le→ltb_false,
}
use mathlib.Core.List.{append_assoc}
use cess_scheduler.Proof.Modular.{set_bytes}
use cess_scheduler.Node.Message.{Message}
use cess_scheduler.Node.Send.Transfer.{deliver}
use cess_scheduler.Node.Wire.{
  Codec, head_filler, put_uint32, tcp_read_buffer, frame, Line, open_line, send_msgs, got, onward,
  after_magic, read_magic, read_data, read_size, read_round, read_msgs, also_read, ReadEnd,
}

-- The message has a JSON text that fits a buffer with its header, and the other side reads it back.
pub record Carries (codec : Codec) (spare : Message → Bytes) (m : Message) : Type 0 where
  pub text : Bytes
  pub marshalled : codec.marshal m ≡ some text
  pub fits : 8 + length text ≤ tcp_read_buffer
  pub unmarshalled : codec.unmarshal text ≡ some (deliver spare m)

uint32-put : (n : ℕ) → n < 2 ^ 32 → set_bytes (put_uint32 n) ≡ n
unfolding set_bytes
uint32-put n h = omega arith

-- The bytes of one frame.
abbrev pub frame_of : Bytes → Bytes
frame_of d = head_filler ++ (put_uint32 (length d % 2 ^ 32) ++ d)

frame-Carries :
    {codec : Codec} {spare : Message → Bytes} {m : Message} (c : Carries codec spare m)
    → frame codec m ≡ some (frame_of c.text)
unfolding frame
frame-Carries {m = m} c =
    let fits : leb (8 + length c.text) tcp_read_buffer ≡ true = let h = c.fits in ground arith in
    rw (c.marshalled, frame) (rw fits refl)

read_data-text :
    (codec : Codec) (d rest : Bytes) (m : Message)
    → 8 + length d ≤ tcp_read_buffer
    → codec.unmarshal d ≡ some m
    → read_data codec (length d) (d ++ rest) ≡ got m rest
unfolding read_data
read_data-text codec d rest m h u =
    let small : ltb tcp_read_buffer (length d) ≡ false = ground arith in
    let long : ltb (length (d ++ rest)) (length d) ≡ false =
      le→ltb_false _ _ (rw (length-append d rest) (omega arith)) in
    rw (small, long) (rw (take-append d rest, drop-append d rest, u) refl)

read_size-text :
    (codec : Codec) (d rest : Bytes) (m : Message)
    → 8 + length d ≤ tcp_read_buffer
    → codec.unmarshal d ≡ some m
    → read_size codec (put_uint32 (length d % 2 ^ 32) ++ (d ++ rest)) ≡ got m rest
unfolding read_size
read_size-text codec d rest m h u =
    let small : length d < 2 ^ 32 = omega arith in
    let size : set_bytes (put_uint32 (length d % 2 ^ 32)) ≡ length d =
      uint32-put (length d % 2 ^ 32) (omega arith) ∙ omega arith in
    let long : ltb (length (put_uint32 (length d % 2 ^ 32) ++ (d ++ rest))) 4 ≡ false =
      le→ltb_false _ _ (omega arith) in
    rw long (rw size (read_data-text codec d rest m h u))

read_magic-filler : (s : Bytes) → read_magic (head_filler ++ s) ≡ onward s
unfolding read_magic
read_magic-filler s =
    let some_bytes : (length (head_filler ++ s) == 0) ≡ false = ground arith in
    let long : ltb (length (head_filler ++ s)) 4 ≡ false = le→ltb_false _ _ (omega arith) in
    rw (some_bytes, long) refl

-- One frame, whatever follows it.
read_round-frame :
    (codec : Codec) (spare : Message → Bytes) (m : Message) (c : Carries codec spare m)
    (rest : Bytes)
    → read_round codec false (frame_of c.text ++ rest) ≡ got (deliver spare m) rest
unfolding read_round
read_round-frame codec spare m c rest =
    ap (after_magic codec)
      (read_magic-filler (put_uint32 (length c.text % 2 ^ 32) ++ (c.text ++ rest)))
    ∙ read_size-text codec c.text rest (deliver spare m) c.fits c.unmarshalled

module _ (codec : Codec) (spare : Message → Bytes) (line : ℕ → Line) (is_close : ℕ → Bool)
    (opened : (k : ℕ) → line k ≡ open_line) (stays : (k : ℕ) → is_close k ≡ false) where
  -- The first frame of what sendMsg writes.
  send_msgs-cons :
      (k : ℕ) (m : Message) (ms : List Message) (c : Carries codec spare m)
      → send_msgs codec line k (m ∷ ms) ≡ frame_of c.text ++ send_msgs codec line (suc k) ms
  unfolding send_msgs
  send_msgs-cons k m ms c = rw (opened k, send_msgs) (rw (frame-Carries c) refl)

  read_msgs-got :
      (fuel k w : ℕ) (s rest : Bytes) (m : Message)
      → read_round codec false s ≡ got m rest
      → read_msgs codec is_close (suc fuel) k false w s
        ≡ also_read m (read_msgs codec is_close fuel (suc k) false w rest)
  unfolding read_msgs
  read_msgs-got fuel k w s rest m e = rw (stays k, read_msgs) (rw (e, read_msgs) refl)

  -- The messages come first, and then what the rest of the bytes gives.
  abbrev pub and_then : List Message → List Message × ReadEnd → List Message × ReadEnd
  and_then ms (more, e) = (map (deliver spare) ms ++ more, e)

  pub read_msgs-send :
      (ms : List Message) (fuel j k w : ℕ) (rest : Bytes)
      → All (Carries codec spare) ms
      → read_msgs codec is_close (length ms + fuel) k false w (send_msgs codec line j ms ++ rest)
        ≡ and_then ms (read_msgs codec is_close fuel (k + length ms) false w rest)
  unfolding send_msgs
  read_msgs-send [] fuel j k w rest h =
      let a : 0 + fuel ≡ fuel = omega arith in let b : k + 0 ≡ k = omega arith in rw (a, b) refl
  read_msgs-send (m ∷ ms) fuel j k w rest (c, h) =
      let f : suc (length ms) + fuel ≡ suc (length ms + fuel) = omega arith in
      let n : k + suc (length ms) ≡ suc k + length ms = omega arith in
      let later = send_msgs codec line (suc j) ms ++ rest in
      let bytes : send_msgs codec line j (m ∷ ms) ++ rest ≡ frame_of c.text ++ later =
        ap (λ (b : Bytes). b ++ rest) (send_msgs-cons j m ms c)
        ∙ append_assoc (frame_of c.text) (send_msgs codec line (suc j) ms) rest in
      let first =
        read_msgs-got (length ms + fuel) k w (frame_of c.text ++ later) later (deliver spare m)
          (read_round-frame codec spare m c later) in
      rw (f, n)
        (ap (read_msgs codec is_close (suc (length ms + fuel)) k false w) bytes
          ∙ first
          ∙ ap (also_read (deliver spare m)) (read_msgs-send ms fuel (suc j) (suc k) w rest h))
