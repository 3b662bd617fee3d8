-- ===== src/Node/Tags/Late.antt =====
-- A tag that comes after TimeOut_WaitTag.
use cess_scheduler.Prelude.{
  ℕ, ◌≡◌, refl, ap, Bytes, true, false, Option, some, [], ◌∷◌, ◌++◌, arith, bytes_eq_self,
}
use cess_scheduler.Node.Tags.{
  PubTag, StorageTag, TagEnv, Filler, get_tag, generate_filler, saved, save_tag, tag_path,
}
use cess_scheduler.Node.Tags.System.{
  World, initial, idle, waiting, sending, posted, finish, start, expire, answer, look, send,
  take_tag, queue, Step, starts, expires, answers, looks, sends, takes, queues, Run, stop, more,
}

-- For any two fillers: if the request for the first is given up, the second is requested, and only then the
-- service posts the tag of the first, then the second is put into the channel with a tag file that holds the
-- first one's tag, while its own tag is still computed.
pub late_tag_misplaced :
    (env : TagEnv) (tee : Bytes → Option (ℕ × PubTag)) (x y p q : Bytes) (t : PubTag)
    (tag : StorageTag)
    → generate_filler env x ≡ some p
    → generate_filler env y ≡ some q
    → get_tag (tee p) ≡ some t
    → save_tag env (tag_path q) t ≡ saved tag
    → (w : World) × Run env tee
        (start ∷ expire ∷ start ∷ answer ∷ look ∷ send ∷ take_tag ∷ queue ∷ [])
        initial
        w
      × (w.c_filler ≡ record { filler_path = q; tag_file = tag_path q } ∷ [])
      × (w.tags (tag_path q) ≡ some tag)
      × (w.asked ≡ q ∷ [])
unfolding finish
late_tag_misplaced env tee x y p q t tag made_p made_q e d =
    let w1 : World = record initial { generator = waiting p; lock_free = false; asked = p ∷ [] } in
    let w2 : World = record w1 { generator = idle; lock_free = true } in
    let w3 : World = record w2 { generator = waiting q; lock_free = false; asked = q ∷ p ∷ [] } in
    let w4 : World = record w3 { asked = q ∷ []; posts = posted (get_tag (tee p)) [] } in
    let w5 : World = record w4 { posts = sending t ∷ [] } in
    let w6 : World = record w5 { posts = []; ch_tag = t ∷ [] } in
    let w7 : World = finish q (save_tag env (tag_path q) t) (record w6 { ch_tag = [] }) in
    let f : Filler = record { filler_path = q; tag_file = tag_path q } in
    let w8 : World = record w7 { generator = idle; c_filler = w7.c_filler ++ f ∷ [] } in
    let s1 : Step env tee start initial w1 = starts x p refl (omega arith) made_p refl in
    let s2 : Step env tee expire w1 w2 = expires p refl in
    let s3 : Step env tee start w2 w3 = starts y q refl (omega arith) made_q refl in
    let s4 : Step env tee answer w3 w4 = answers (q ∷ []) [] p refl in
    let s5 : Step env tee look w4 w5 = looks [] [] t (ap (λ (o : Option PubTag). posted o []) e) in
    let s6 : Step env tee send w5 w6 = sends [] [] t refl refl in
    let s7 : Step env tee take_tag w6 w7 = takes q t [] refl refl in
    let s8 : Step env tee queue w7 w8 = queues f (rw d refl) (rw d (omega arith)) in
    (
      w8,
      more s1 (more s2 (more s3 (more s4 (more s5 (more s6 (more s7 (more s8 stop))))))),
      rw d refl,
      rw d (rw (bytes_eq_self (tag_path q)) refl),
      rw d refl,
    )
