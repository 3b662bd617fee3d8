-- ===== src/Erasure/Encode/Written.antt =====
-- What a successful ReedSolomon leaves on the disk.
use cess_scheduler.Prelude.{
  ℕ, zero, suc, ◌+◌, ◌≤◌, ◌≡◌, refl, sym, ap, ◌∙◌, Bytes, Bool, true, false, Option, none, some,
  List, [], ◌∷◌, ◌++◌, arith, length, take, drop, leb, length-append, take-append, drop-append,
  Bool-cases, inl, inr,
}
use mathlib.Core.List.{append-nil, append_assoc}
use cess_scheduler.Erasure.{Coder, Env, Disk, put, put_all, small_name, shard_name}
use cess_scheduler.Erasure.Encode.{
  Float64, reed_solomon_rule, write_shards, encode_small, create_shards, open_all, fill_shards,
  fill_created, encode_stream, reed_solomon,
}
use cess_scheduler.Erasure.Stored.{
  names, length-names, names-append, shard_name_small, put_all-append, open_all-put_all,
}

-- filepath.Join puts the directory that filepath.Split cut off before a shard's name again.
abbrev pub IsClean : Env → Bytes → Type 0
IsClean env f =
    (i : ℕ)
    → env.join_path (env.split_path f).0 (shard_name (env.split_path f).1 i) ≡ shard_name f i

-- All shards of a file, written under their names.
pub record Written (coder : Coder) (f : Bytes) (d r : ℕ) (b : Bytes) (disk : Disk) : Type 0 where
  pub shards : List Bytes
  pub parities : List Bytes
  pub before : Disk
  pub made : coder.make d r ≡ true
  pub split : coder.split d r b ≡ some shards
  pub encoded : coder.parity d r shards ≡ some parities
  pub stored : disk ≡ put_all (names f 0 (d + r)) (shards ++ parities) before

-- What Split and Encode say of the numbers of shards.
pub record IsCounted (coder : Coder) (d r : ℕ) : Type 0 where
  pub split_count : (b : Bytes) (ss : List Bytes) → coder.split d r b ≡ some ss → length ss ≡ d
  pub parity_count : (ss ps : List Bytes) → coder.parity d r ss ≡ some ps → length ps ≡ r

write_shards-ok :
    (env : Env) (f : Bytes) (i : ℕ) (paths : List Bytes) (disk : Disk) (ss : List Bytes)
    → (write_shards env f i paths disk ss).1.1 ≡ false
    → (write_shards env f i paths disk ss).0 ≡ put_all (names f i (length ss)) ss disk
unfolding write_shards put_all
write_shards-ok env f i paths disk [] h = refl
write_shards-ok env f i paths disk (s ∷ ss) h = elim (Bool-cases (env.can_write (small_name f i))) [
  | inr e ↦ absurd (let x = rw (e, write_shards) at h in ground arith)
  | inl e ↦
      rw (e, write_shards)
        (write_shards-ok env f (suc i) (paths ++ small_name f i ∷ []) (put (small_name f i) s disk)
          ss (rw (e, write_shards) at h))
]

create_shards-ok :
    (env : Env) (f dir file : Bytes) (n i : ℕ) (paths : List Bytes) (disk : Disk)
    → ((i : ℕ) → env.join_path dir (shard_name file i) ≡ shard_name f i)
    → i + n ≤ 10
    → (create_shards env dir file n i paths disk).1.1 ≡ false
    → (create_shards env dir file n i paths disk).1.0 ≡ paths ++ names f i n
unfolding create_shards
create_shards-ok env f dir file zero i paths disk clean h k = sym (append-nil paths)
create_shards-ok env f dir file (suc n) i paths disk clean h k =
    let p = env.join_path dir (shard_name file i) in
    let here : p ≡ small_name f i = clean i ∙ shard_name_small f i (omega arith) in
    elim (Bool-cases (env.can_write p)) [
      | inr e ↦ absurd (let x = rw (e, create_shards) at k in ground arith)
      | inl e ↦
          rw (e, create_shards)
            (create_shards-ok env f dir file n (suc i) (paths ++ p ∷ []) (put p [] disk) clean
                (omega arith) (rw (e, create_shards) at k)
              ∙ append_assoc paths (p ∷ []) (names f (suc i) n)
              ∙ ap (λ (q : Bytes). paths ++ q ∷ names f (suc i) n) here)
    ]

module _ (env : Env) (coder : Coder) (f : Bytes) (d r : ℕ) (b : Bytes)
    (counted : IsCounted coder d r) where
  count :
      (ss ps : List Bytes)
      → coder.split d r b ≡ some ss
      → coder.parity d r ss ≡ some ps
      → length (ss ++ ps) ≡ d + r
  count ss ps e p =
      let n = counted.split_count b ss e in
      let m = counted.parity_count ss ps p in length-append ss ps ∙ omega arith

  encode_small-Written :
      (disk : Disk)
      → (encode_small env coder f d r b disk).1.1 ≡ false
      → Written coder f d r b (encode_small env coder f d r b disk).0
  unfolding encode_small
  encode_small-Written disk h = made (coder.make d r) (env.can_read f) refl refl
    where
      encoded :
          (ss : List Bytes) (o : Option (List Bytes))
          → coder.make d r ≡ true
          → env.can_read f ≡ true
          → coder.split d r b ≡ some ss
          → coder.parity d r ss ≡ o
          → Written coder f d r b (encode_small env coder f d r b disk).0
      encoded ss none m c s e = absurd (let x = rw (encode_small, m, c, s, e) at h in ground arith)
      encoded ss (some ps) m c s e =
          let ok =
            write_shards-ok env f 0 [] disk (ss ++ ps) (rw (encode_small, m, c, s, e) at h) in
          record {
            shards = ss;
            parities = ps;
            before = disk;
            made = m;
            split = s;
            encoded = e;
            stored =
                rw (encode_small, m, c, s, e) ok
                ∙ ap (λ (n : ℕ). put_all (names f 0 n) (ss ++ ps) disk) (count ss ps s e);
          }

      divided :
          (o : Option (List Bytes))
          → coder.make d r ≡ true
          → env.can_read f ≡ true
          → coder.split d r b ≡ o
          → Written coder f d r b (encode_small env coder f d r b disk).0
      divided none m c e = absurd (let x = rw (encode_small, m, c, e) at h in ground arith)
      divided (some ss) m c e = encoded ss (coder.parity d r ss) m c e refl

      made :
          (p q : Bool)
          → coder.make d r ≡ p
          → env.can_read f ≡ q
          → Written coder f d r b (encode_small env coder f d r b disk).0
      made false q m c = absurd (let x = rw (encode_small, m) at h in ground arith)
      made true false m c = absurd (let x = rw (encode_small, m, c) at h in ground arith)
      made true true m c = divided (coder.split d r b) m c refl

  fill_shards-Written :
      (disk : Disk)
      → ((p : Bytes) → env.can_read p ≡ true)
      → coder.make d r ≡ true
      → (fill_shards env coder d r b (names f 0 (d + r)) disk).1.1 ≡ false
      → Written coder f d r b (fill_shards env coder d r b (names f 0 (d + r)) disk).0
  unfolding fill_shards
  fill_shards-Written disk readable made h = divided (coder.split d r b) refl
    where
      first : take d (names f 0 (d + r)) ≡ names f 0 d
      first =
          ap (take d) (names-append f 0 d r)
          ∙ ap (λ (k : ℕ). take k (names f 0 d ++ names f (0 + d) r)) (sym (length-names f 0 d))
          ∙ take-append (names f 0 d) (names f (0 + d) r)

      last : drop d (names f 0 (d + r)) ≡ names f (0 + d) r
      last =
          ap (drop d) (names-append f 0 d r)
          ∙ ap (λ (k : ℕ). drop k (names f 0 d ++ names f (0 + d) r)) (sym (length-names f 0 d))
          ∙ drop-append (names f 0 d) (names f (0 + d) r)

      opened :
          (ss : List Bytes)
          → coder.split d r b ≡ some ss
          → open_all env (put_all (take d (names f 0 (d + r))) ss disk) (take d (names f 0 (d + r)))
            ≡ some ss
      opened ss s =
          ap (λ (ps : List Bytes). open_all env (put_all ps ss disk) ps) first
          ∙ open_all-put_all env f readable ss 0 d disk (counted.split_count b ss s)

      encoded :
          (ss : List Bytes) (o : Option (List Bytes))
          → coder.split d r b ≡ some ss
          → coder.parity d r ss ≡ o
          → Written coder f d r b (fill_shards env coder d r b (names f 0 (d + r)) disk).0
      encoded ss none s e =
          absurd (let x = rw (fill_shards, s, opened ss s, e) at h in ground arith)
      encoded ss (some ps) s e =
          let n = length-names f 0 d ∙ sym (counted.split_count b ss s) in
          record {
            shards = ss;
            parities = ps;
            before = disk;
            made = made;
            split = s;
            encoded = e;
            stored =
                rw (fill_shards, s, opened ss s, e) refl
                ∙ ap
                    (λ (l : List Bytes).
                      put_all (drop d (names f 0 (d + r))) ps (put_all l ss disk))
                    first
                ∙ ap (λ (l : List Bytes). put_all l ps (put_all (names f 0 d) ss disk)) last
                ∙ sym (put_all-append (names f 0 d) (names f (0 + d) r) ss ps disk n)
                ∙ ap (λ (l : List Bytes). put_all l (ss ++ ps) disk) (sym (names-append f 0 d r));
          }

      divided :
          (o : Option (List Bytes))
          → coder.split d r b ≡ o
          → Written coder f d r b (fill_shards env coder d r b (names f 0 (d + r)) disk).0
      divided none e = absurd (let x = rw (fill_shards, e) at h in ground arith)
      divided (some ss) e = encoded ss (coder.parity d r ss) e refl

  encode_stream-Written :
      (disk : Disk)
      → ((p : Bytes) → env.can_read p ≡ true)
      → IsClean env f
      → d + r ≤ 10
      → (encode_stream env coder f d r b disk).1.1 ≡ false
      → Written coder f d r b (encode_stream env coder f d r b disk).0
  unfolding encode_stream
  encode_stream-Written disk readable clean few h = elim (Bool-cases (coder.make d r)) [
    | inr m ↦ absurd (let x = rw (encode_stream, m) at h in ground arith)
    | inl m ↦
        let c = readable f in
        let (dir, file) = env.split_path f in
        rw (encode_stream, m, c)
          (filled m (create_shards env dir file (d + r) 0 [] disk)
            (create_shards-ok env f dir file (d + r) 0 [] disk clean (omega arith))
            (rw (encode_stream, m, c) at h))
  ]
    where
      filled :
          coder.make d r ≡ true
          → (created : Disk × (List Bytes × Bool))
          → (created.1.1 ≡ false → created.1.0 ≡ names f 0 (d + r))
          → (fill_created env coder d r b created).1.1 ≡ false
          → Written coder f d r b (fill_created env coder d r b created).0
      filled m (disk', (paths, true)) ok h = absurd (ground arith)
      filled m (disk', (paths, false)) ok h =
          rw (ok refl) (fill_shards-Written disk' readable m (rw (ok refl) at h))

-- The disk after a ReedSolomon that did not fail.
pub reed_solomon-Written :
    (fl : Float64) (env : Env) (coder : Coder) (f : Bytes) (disk : Disk) (b : Bytes)
    → disk f ≡ some b
    → let (disk', out) = reed_solomon fl env coder f disk in
      let (d, r) = reed_solomon_rule fl (length b) in
      IsCounted coder d r
      → ((p : Bytes) → env.can_read p ≡ true)
      → IsClean env f
      → d + r ≤ 10
      → out.failed ≡ false
      → Written coder f d r b disk'
unfolding reed_solomon
reed_solomon-Written fl env coder f disk b e counted readable clean few h =
    let (d, r) = reed_solomon_rule fl (length b) in
    elim (Bool-cases (leb (d + r) 3)) [
      | inl small ↦
          rw (reed_solomon, e, small)
            (encode_small-Written env coder f d r b counted disk (rw (reed_solomon, e, small) at h))
      | inr large ↦
          rw (reed_solomon, e, large)
            (encode_stream-Written env coder f d r b counted disk readable clean few
              (rw (reed_solomon, e, large) at h))
    ]
