-- ===== src/Node/Tags/Own.antt =====
-- The tag of a filler and the filler, in runs in which no request is given up.
use cess_scheduler.Prelude.{
  ℕ, ◌≤◌, ◌≢◌, refl, ap, Bytes, Option, List, [], ◌∷◌, ◌++◌, arith, length, All, length-append,
}
use cess_scheduler.Node.Tags.{PubTag, TagEnv, num_filler_reserved, Filler}
use cess_scheduler.Node.Tags.System.{
  World, initial, Event, expire, Step, starts, expires, answers, looks, drains, sends, takes,
  queues, consumes, Run, stop, more,
}
use cess_scheduler.Node.Tags.Calm.{Calm, Step-Calm, empty, taken}
use cess_scheduler.Node.Tags.Saved.{IsLocked, IsReady, OfGenerator, finish-IsReady, finish-next}

module _ (env : TagEnv) (tee : Bytes → Option (ℕ × PubTag)) where
  -- What holds in every state of a run in which no request is given up.
  record Kept (w : World) : Type 0 where
    calm : Calm env tee w
    locked : IsLocked w.generator w.lock_free
    ready_fillers : All (IsReady env tee w.tags) w.c_filler
    next_filler : OfGenerator (IsReady env tee w.tags) w.generator
    bounded : length w.c_filler ≤ num_filler_reserved

  All-snoc :
      (P : Filler → Type 0) (fs : List Filler) (f : Filler) → All P fs → P f → All P (fs ++ f ∷ [])
  All-snoc P [] f h p = (p, tt)
  All-snoc P (x ∷ fs) f (q, h) p = (q, All-snoc P fs f h p)

  Kept-step :
      (e : Event) (w v : World) → e ≢ expire → Kept w → Step env tee e w v → Calm env tee v → Kept v
  Kept-step e w v ok kept (starts text p g room made free) calm = record {
    calm = calm;
    locked = refl;
    ready_fillers = kept.ready_fillers;
    next_filler = tt;
    bounded = kept.bounded;
  }
  Kept-step e w v ok kept (expires p g) calm = absurd (ok refl)
  Kept-step e w v ok kept (answers before after p x) calm = record {
    calm = calm;
    locked = kept.locked;
    ready_fillers = kept.ready_fillers;
    next_filler = kept.next_filler;
    bounded = kept.bounded;
  }
  Kept-step e w v ok kept (looks before after t x) calm = record {
    calm = calm;
    locked = kept.locked;
    ready_fillers = kept.ready_fillers;
    next_filler = kept.next_filler;
    bounded = kept.bounded;
  }
  Kept-step e w v ok kept (drains before after t y ys x z) calm = record {
    calm = calm;
    locked = kept.locked;
    ready_fillers = kept.ready_fillers;
    next_filler = kept.next_filler;
    bounded = kept.bounded;
  }
  Kept-step e w v ok kept (sends before after t x z) calm = record {
    calm = calm;
    locked = kept.locked;
    ready_fillers = kept.ready_fillers;
    next_filler = kept.next_filler;
    bounded = kept.bounded;
  }
  Kept-step e w v ok kept (takes p t ts g z) calm =
      let f = taken env tee w p t ts kept.calm g z in
      let w' : World = record w { ch_tag = ts } in
      let (next, lock, same) = finish-next env tee p t w' f in
      let all = finish-IsReady env tee p t w' w.c_filler f kept.ready_fillers in
      record {
        calm = calm;
        locked = lock;
        ready_fillers = rw same all;
        next_filler = next;
        bounded = rw same kept.bounded;
      }
  Kept-step e w v ok kept (queues f g room) calm = record {
    calm = calm;
    locked = rw g at kept.locked;
    ready_fillers =
        All-snoc (IsReady env tee w.tags) w.c_filler f kept.ready_fillers
          (rw g at kept.next_filler);
    next_filler = tt;
    bounded = let n = length-append w.c_filler (f ∷ []) in omega arith;
  }
  Kept-step e w v ok kept (consumes f fs x) calm =
      let all = rw x at kept.ready_fillers in
      let n = ap (λ (l : List Filler). length l) x in
      let b = kept.bounded in
      record {
        calm = calm;
        locked = kept.locked;
        ready_fillers = all.1;
        next_filler = kept.next_filler;
        bounded = omega arith;
      }

  Step-Kept : (e : Event) (w v : World) → e ≢ expire → Step env tee e w v → Kept w → Kept v
  Step-Kept e w v ok step kept =
      Kept-step e w v ok kept step (Step-Calm env tee e w v ok step kept.calm)

  Run-Kept :
      (es : List Event) (w v : World)
      → All (λ e. e ≢ expire) es
      → Run env tee es w v
      → Kept w
      → Kept v
  Run-Kept [] w v ok stop kept = kept
  Run-Kept (e ∷ es) w v (ok, oks) (more {v = u} step run) kept =
      Run-Kept es u v oks run (Step-Kept e w u ok step kept)

  -- From the start, however the steps of the task, the service, the goroutines of GetTag and the consumer
  -- follow each other, and whatever the service posts, at most once for each request, as long as no request
  -- is given up: every filler in the channel has a tag file that holds what the service posted for that
  -- filler, decoded; there are at most five, and workLock is held exactly while the task waits.
  pub run_keeps_own_tags :
      (es : List Event) (w : World)
      → All (λ e. e ≢ expire) es
      → Run env tee es initial w
      → All (IsReady env tee w.tags) w.c_filler
        × (length w.c_filler ≤ 5)
        × IsLocked w.generator w.lock_free
  run_keeps_own_tags es w ok run =
      let kept = Run-Kept es initial w ok run (record {
        calm = empty refl refl refl;
        locked = refl;
        ready_fillers = tt;
        next_filler = tt;
        bounded = omega arith;
      }) in
      (kept.ready_fillers, kept.bounded, kept.locked)
