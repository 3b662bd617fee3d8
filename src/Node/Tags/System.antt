-- ===== src/Node/Tags/System.antt =====
-- The filler task, the service that computes tags, the goroutines of GetTag and the consumer of fillers
-- (node/sub_filler.go, node/route.go, node/param.go) as steps on a shared state. Left out are what leaves it
-- as it was, where a filler or its request fails, the deletion of a filler without a tag, a request that has
-- an error for the task although the service has received it, and backupFile, which takes the same channel
-- and workLock.
use cess_scheduler.Prelude.{
  ℕ, ◌<◌, ◌≡◌, Bytes, Bool, true, false, Option, none, some, List, [], ◌∷◌, ◌++◌, length, bytes_eq,
  ◌==◌, if◌then◌else◌,
}
use cess_scheduler.Node.Tags.{
  PubTag, StorageTag, TagEnv, num_filler_reserved, get_tag, generate_filler, Saving, refused,
  panics, unsaved, saved, saved_panics, save_tag, tag_path, Filler,
}

-- The filler task: in its loop, in the select on Ch_Tag for the filler at a path, or at the send on C_Filler.
pub data Generator : Type 0 where
  idle : Generator
  waiting : Bytes → Generator
  queueing : Filler → Generator

-- A goroutine of GetTag: before the look at the channel's length, at the receive, or at the send.
pub data Post : Type 0 where
  arrived draining sending : PubTag → Post

-- `asked` are the fillers whose tags the service still computes; `tags` are the tag files on the disk.
pub record World : Type 0 where
  pub generator : Generator
  pub lock_free : Bool
  pub asked : List Bytes
  pub posts : List Post
  pub ch_tag : List PubTag
  pub c_filler : List Filler
  pub tags : Bytes → Option StorageTag

abbrev pub initial : World
initial = record {
  generator = idle;
  lock_free = true;
  asked = [];
  posts = [];
  ch_tag = [];
  c_filler = [];
  tags = λ p. none;
}

abbrev pub posted : Option PubTag → List Post → List Post
posted none ps = ps
posted (some t) ps = arrived t ∷ ps

abbrev pub looked : List PubTag → PubTag → Post
looked ch t = if length ch == 1 then draining t else sending t

abbrev pub put_tag :
    Bytes → Option StorageTag → (Bytes → Option StorageTag) → Bytes → Option StorageTag
put_tag p t tags q = if bytes_eq p q then t else tags q

-- The filler task after a tag was taken for the filler at a path; workLock is released.
unfoldable pub finish : Bytes → Saving → World → World
finish p refused w = record w { generator = idle; lock_free = true }
finish p panics w = record w { generator = idle; lock_free = true }
finish p unsaved w = record w {
  generator = idle;
  lock_free = true;
  tags = put_tag (tag_path p) none w.tags;
}
finish p (saved t) w = record w {
  generator = queueing (record { filler_path = p; tag_file = tag_path p });
  lock_free = true;
  tags = put_tag (tag_path p) (some t) w.tags;
}
finish p (saved_panics t) w = record w {
  generator = idle;
  lock_free = true;
  tags = put_tag (tag_path p) (some t) w.tags;
}

-- What happens next; `expire` is the end of TimeOut_WaitTag.
pub data Event : Type 0 where
  start expire answer look drain send take_tag queue consume : Event

-- A step. `tee` is what the service posts for a filler.
pub data Step (env : TagEnv) (tee : Bytes → Option (ℕ × PubTag))
    : Event → World → World → Type 0 where
  starts :
      {w : World} (text p : Bytes)
      → w.generator ≡ idle
      → length w.c_filler < num_filler_reserved
      → generate_filler env text ≡ some p
      → w.lock_free ≡ true
      → Step env tee start w
          (record w { generator = waiting p; lock_free = false; asked = p ∷ w.asked })
  expires :
      {w : World} (p : Bytes)
      → w.generator ≡ waiting p
      → Step env tee expire w (record w { generator = idle; lock_free = true })
  answers :
      {w : World} (before after : List Bytes) (p : Bytes)
      → w.asked ≡ before ++ p ∷ after
      → Step env tee answer w
          (record w { asked = before ++ after; posts = posted (get_tag (tee p)) w.posts })
  looks :
      {w : World} (before after : List Post) (t : PubTag)
      → w.posts ≡ before ++ arrived t ∷ after
      → Step env tee look w (record w { posts = before ++ looked w.ch_tag t ∷ after })
  drains :
      {w : World} (before after : List Post) (t x : PubTag) (xs : List PubTag)
      → w.posts ≡ before ++ draining t ∷ after
      → w.ch_tag ≡ x ∷ xs
      → Step env tee drain w (record w { posts = before ++ sending t ∷ after; ch_tag = xs })
  sends :
      {w : World} (before after : List Post) (t : PubTag)
      → w.posts ≡ before ++ sending t ∷ after
      → w.ch_tag ≡ []
      → Step env tee send w (record w { posts = before ++ after; ch_tag = t ∷ [] })
  takes :
      {w : World} (p : Bytes) (t : PubTag) (ts : List PubTag)
      → w.generator ≡ waiting p
      → w.ch_tag ≡ t ∷ ts
      → Step env tee take_tag w (finish p (save_tag env (tag_path p) t) (record w { ch_tag = ts }))
  queues :
      {w : World} (f : Filler)
      → w.generator ≡ queueing f
      → length w.c_filler < num_filler_reserved
      → Step env tee queue w (record w { generator = idle; c_filler = w.c_filler ++ f ∷ [] })
  consumes :
      {w : World} (f : Filler) (fs : List Filler)
      → w.c_filler ≡ f ∷ fs
      → Step env tee consume w (record w { c_filler = fs })

-- Runs from a state.
pub data Run (env : TagEnv) (tee : Bytes → Option (ℕ × PubTag))
    : List Event → World → World → Type 0 where
  stop : {w : World} → Run env tee [] w w
  more :
      {e : Event} {es : List Event} {w v u : World}
      → Step env tee e w v
      → Run env tee es v u
      → Run env tee (e ∷ es) w u
