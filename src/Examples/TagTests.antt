-- ===== src/Examples/TagTests.antt =====
-- The making of fillers (node/sub_filler.go, node/route.go).
use cess_scheduler.Prelude.{
  ℕ, ◌≤◌, ◌≡◌, refl, Bytes, true, false, Option, none, some, [], ◌∷◌, ◌++◌, arith, length, str, All,
  replicate, length-replicate, ◌==◌,
}
use cess_scheduler.Node.Filler.{filler_size}
use cess_scheduler.Node.Tags.{
  PubTag, StorageTag, TagEnv, Filler, get_tag, generate_filler, decode_phi, saved, save_tag,
  tag_path, panics,
}
use cess_scheduler.Node.Tags.System.{
  World, initial, waiting, sending, finish, start, expire, answer, look, send, take_tag, queue,
  starts, answers, looks, sends, takes, queues, Run, stop, more,
}
use cess_scheduler.Node.Tags.Saved.{IsReady, IsLocked}
use cess_scheduler.Node.Tags.Own.{run_keeps_own_tags}
use cess_scheduler.Node.Tags.Late.{late_tag_misplaced}

-- Numbers are read from a single byte, and a file is named by its first byte.
abbrev first_byte : Bytes → Option ℕ
first_byte [] = none
first_byte (b ∷ bs) = some b

abbrev first_name : Bytes → Option Bytes
first_name [] = none
first_name (b ∷ bs) = some (b ∷ [])

abbrev pub env : TagEnv
env = record {
  base64 = λ b. some b;
  hex = λ b. some b;
  big_int = first_byte;
  big_bytes = λ n. n ∷ [];
  file_hash = first_name;
  join = λ name. str "fillers/" ++ name;
  can_rename = λ p. true;
  can_save = λ p. true;
}

-- The service posts a tag that names the filler.
abbrev result : Bytes → PubTag
result p = record {
  u = 1 ∷ [];
  name = p;
  n = 1;
  sig_above = 2 ∷ [];
  phi = (7 ∷ []) ∷ [];
  sig_root_hash = 3 ∷ [];
  spk_e = 3 ∷ [];
  spk_n = 33 ∷ [];
}

abbrev tee : Bytes → Option (ℕ × PubTag)
tee p = some (100000, result p)

abbrev tag_of : Bytes → StorageTag
tag_of p = record {
  u = 1 ∷ [];
  name = p;
  n = 1;
  sig_above = 2 ∷ [];
  phi = (7 ∷ []) ∷ [];
  sig_root_hash = 3 ∷ [];
  spk_e = 3 ∷ [];
  spk_n = 33 ∷ [];
}

-- A filler of 8 MiB.
rest : (bs : Bytes) × (length bs ≡ 8388607)
rest = (replicate 8388607 0, length-replicate {A = ℕ} 8388607 0)

abbrev text : ℕ → Bytes
text b = b ∷ rest.0

abbrev path : ℕ → Bytes
path b = str "fillers/" ++ (b ∷ [])

generated : (b : ℕ) → generate_filler env (text b) ≡ some (path b)
unfolding generate_filler
generated b = go rest.0 rest.1
  where
    go : (bs : Bytes) → length bs ≡ 8388607 → generate_filler env (b ∷ bs) ≡ some (path b)
    go bs n =
        let full : (length (b ∷ bs) == filler_size) ≡ true = ground arith in
        rw (generate_filler, full) refl

tagged : (p q : Bytes) → save_tag env (tag_path q) (result p) ≡ saved (tag_of p)
unfolding save_tag decode_phi
tagged p q = refl

posted_tag : (p : Bytes) → get_tag (tee p) ≡ some (result p)
unfolding get_tag
posted_tag p = refl

-- A phi that is no number.
bad_phi : save_tag env [] (record (result []) { phi = [] ∷ [] }) ≡ panics
unfolding save_tag decode_phi
bad_phi = refl

-- One filler, from the request to the channel.
abbrev asked : World
asked = record initial { generator = waiting (path 1); lock_free = false; asked = path 1 ∷ [] }

abbrev answered : World
answered = record asked { asked = []; posts = sending (result (path 1)) ∷ [] }

abbrev tag_there : World
tag_there = record answered { posts = []; ch_tag = result (path 1) ∷ [] }

abbrev filler : Filler
filler = record { filler_path = path 1; tag_file = tag_path (path 1) }

one_filler :
    (w : World) × Run env tee (start ∷ answer ∷ look ∷ send ∷ take_tag ∷ queue ∷ []) initial w
    × (w.c_filler ≡ filler ∷ [])
unfolding get_tag finish save_tag decode_phi
one_filler = (
  _,
  more (starts (text 1) (path 1) refl (omega arith) (generated 1) refl) (
      more (answers [] [] (path 1) refl) (
        more (looks [] [] (result (path 1)) refl) (
          more (sends [] [] (result (path 1)) refl refl) (
            more (takes (path 1) (result (path 1)) [] refl refl)
              (more (queues filler refl (omega arith)) stop))))),
  refl,
)

run_keeps_own_tags_example :
    let w = one_filler.0 in
    All (IsReady env tee w.tags) w.c_filler
    × (length w.c_filler ≤ 5)
    × IsLocked w.generator w.lock_free
run_keeps_own_tags_example =
    run_keeps_own_tags env tee (start ∷ answer ∷ look ∷ send ∷ take_tag ∷ queue ∷ []) (one_filler.0)
      (
        (λ e. ground arith),
        (
          (λ e. ground arith),
          (
            (λ e. ground arith),
            ((λ e. ground arith), ((λ e. ground arith), ((λ e. ground arith), tt))),
          ),
        ),
      )
      one_filler.1

late_tag_misplaced_example :
    (w : World) × Run env tee
      (start ∷ expire ∷ start ∷ answer ∷ look ∷ send ∷ take_tag ∷ queue ∷ [])
      initial
      w
    × (w.c_filler ≡ record { filler_path = path 2; tag_file = tag_path (path 2) } ∷ [])
    × (w.tags (tag_path (path 2)) ≡ some (tag_of (path 1)))
    × (w.asked ≡ path 2 ∷ [])
late_tag_misplaced_example =
    late_tag_misplaced env tee (text 1) (text 2) (path 1) (path 2) (result (path 1))
      (tag_of (path 1)) (generated 1) (generated 2) (posted_tag (path 1)) (tagged (path 1) (path 2))
