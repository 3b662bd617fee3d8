-- ===== src/Node/Space/Handed.antt =====
-- What task_Space (node/sub_space.go) does with the fillers in one pass over the miners.
use cess_scheduler.Prelude.{
  ℕ, ◌≡◌, refl, sym, ap, ◌∙◌, ◌⊎◌, inl, inr, Bytes, true, false, Option, none, some, List, [], ◌∷◌,
  Option-cases, All,
}
use mathlib.Core.Path.{subst}
use cess_scheduler.Node.Filler.{Visit, Ending, answered, silent, submitting, storage_filler}
use cess_scheduler.Node.Tags.{Filler}
use cess_scheduler.Node.Space.{
  Pass, PassEnd, waits_forever, in_submission, take_filler, space_pass, took, stopped,
}

Ending-cases :
    (e : Ending) → (e ≡ answered true) ⊎ ((e ≡ answered false) ⊎ ((e ≡ silent) ⊎ (e ≡ submitting)))
Ending-cases (answered true) = inl refl
Ending-cases (answered false) = inr (inl refl)
Ending-cases silent = inr (inr (inl refl))
Ending-cases submitting = inr (inr (inr refl))

-- The fillers of a pass in the order in which they came: stored, held, and waiting.
unfoldable pub all_fillers : List (Filler × Bytes) → Option Filler → List Filler → List Filler
all_fillers [] none queue = queue
all_fillers [] (some f) queue = f ∷ queue
all_fillers ((f, pk) ∷ stored) held queue = f ∷ all_fillers stored held queue

module _ (fuel : ℕ) (visits : Filler → Bytes → Visit) where
  -- The visit of the miner with the filler ended with true on `chal`.
  unfoldable pub Taken : Filler × Bytes → Type 0
  Taken (f, pk) = (storage_filler fuel (visits f pk) pk).ending ≡ answered true

  Kept : Option Filler → List Filler → Pass → Type 0
  Kept held queue p =
      (all_fillers p.stored p.held p.queue ≡ all_fillers [] held queue) × All Taken p.stored

  take_none :
      (held : Option Filler) (queue : List Filler)
      → take_filler held queue ≡ none
      → (held ≡ none) × (queue ≡ [])
  take_none none [] h = (refl, refl)
  take_none none (f ∷ queue) h = cc
  take_none (some f) queue h = cc

  list_of : Option (Filler × List Filler) → List Filler
  list_of none = []
  list_of (some (f, rest)) = f ∷ rest

  take_some :
      (held : Option Filler) (queue rest : List Filler) (f : Filler)
      → take_filler held queue ≡ some (f, rest)
      → all_fillers [] (some f) rest ≡ all_fillers [] held queue
  unfolding all_fillers list_of
  take_some none [] rest f h = cc
  take_some none (g ∷ queue) rest f h = ap list_of (sym h)
  take_some (some g) queue rest f h = ap list_of (sym h)

  -- The pass on each way that the visit ends.
  module _ (pk : Bytes) (pks : List Bytes) (held : Option Filler) (queue rest : List Filler)
      (f : Filler) (takes : take_filler held queue ≡ some (f, rest)) where
    pass_true :
        (storage_filler fuel (visits f pk) pk).ending ≡ answered true
        → space_pass fuel visits (pk ∷ pks) held queue
          ≡ took f pk (space_pass fuel visits pks none rest)
    unfolding space_pass
    pass_true e = rw (takes, e, space_pass) refl

    pass_false :
        (storage_filler fuel (visits f pk) pk).ending ≡ answered false
        → space_pass fuel visits (pk ∷ pks) held queue ≡ space_pass fuel visits pks (some f) rest
    unfolding space_pass
    pass_false e = rw (takes, e, space_pass) refl

    pub pass_silent :
        (storage_filler fuel (visits f pk) pk).ending ≡ silent
        → space_pass fuel visits (pk ∷ pks) held queue ≡ stopped (some f) rest waits_forever
    unfolding space_pass
    pass_silent e = rw (takes, e, space_pass) refl

    pass_submitting :
        (storage_filler fuel (visits f pk) pk).ending ≡ submitting
        → space_pass fuel visits (pk ∷ pks) held queue ≡ stopped (some f) rest in_submission
    unfolding space_pass
    pass_submitting e = rw (takes, e, space_pass) refl

  stopped-Kept :
      (held : Option Filler) (queue rest : List Filler) (f : Filler) (e : PassEnd)
      → take_filler held queue ≡ some (f, rest)
      → Kept held queue (stopped (some f) rest e)
  unfolding Kept
  stopped-Kept held queue rest f e takes = (take_some held queue rest f takes, tt)

  took-Kept :
      (pk : Bytes) (held : Option Filler) (queue rest : List Filler) (f : Filler) (p : Pass)
      → take_filler held queue ≡ some (f, rest)
      → (storage_filler fuel (visits f pk) pk).ending ≡ answered true
      → Kept none rest p
      → Kept held queue (took f pk p)
  unfolding Kept all_fillers Taken
  took-Kept pk held queue rest f p takes taken (same, all) =
      (ap (λ t. f ∷ t) same ∙ take_some held queue rest f takes, (taken, all))

  moved-Kept :
      (held : Option Filler) (queue rest : List Filler) (f : Filler) (p : Pass)
      → take_filler held queue ≡ some (f, rest)
      → Kept (some f) rest p
      → Kept held queue p
  unfolding Kept
  moved-Kept held queue rest f p takes (same, all) = (same ∙ take_some held queue rest f takes, all)

  none_taken-Kept :
      (pk : Bytes) (pks : List Bytes) (held : Option Filler) (queue : List Filler)
      → take_filler held queue ≡ none
      → Kept held queue (space_pass fuel visits (pk ∷ pks) held queue)
  unfolding Kept space_pass all_fillers
  none_taken-Kept pk pks none [] h = (refl, tt)
  none_taken-Kept pk pks none (f ∷ queue) h = cc
  none_taken-Kept pk pks (some f) queue h = cc

  space_pass-Kept :
      (pks : List Bytes) (held : Option Filler) (queue : List Filler)
      → Kept held queue (space_pass fuel visits pks held queue)
  unfolding space_pass Kept all_fillers
  space_pass-Kept [] held queue = (refl, tt)
  space_pass-Kept (pk ∷ pks) held queue = elim (Option-cases (take_filler held queue)) [
    | inl nothing ↦ none_taken-Kept pk pks held queue nothing
    | inr ((f, rest), takes) ↦ elim (Ending-cases (storage_filler fuel (visits f pk) pk).ending) [
      | inl e ↦ subst (Kept held queue) (sym (pass_true pk pks held queue rest f takes e)) (
          took-Kept pk held queue rest f (space_pass fuel visits pks none rest) takes e
            (space_pass-Kept pks none rest))
      | inr (inl e) ↦ subst (Kept held queue) (sym (pass_false pk pks held queue rest f takes e)) (
          moved-Kept held queue rest f (space_pass fuel visits pks (some f) rest) takes
            (space_pass-Kept pks (some f) rest))
      | inr (inr (inl e)) ↦
          subst (Kept held queue) (sym (pass_silent pk pks held queue rest f takes e))
            (stopped-Kept held queue rest f waits_forever takes)
      | inr (inr (inr e)) ↦
          subst (Kept held queue) (sym (pass_submitting pk pks held queue rest f takes e))
            (stopped-Kept held queue rest f in_submission takes)
    ]
  ]

  -- Whatever the visits meet, and however a pass over any list of miners stops: the fillers that were stored, in
  -- order, the one that is held and those left in C_Filler are together the one that was held before and those that were in
  -- C_Filler, in order, so that none is lost or given to two miners; and each stored one is with a miner whose visit with it
  -- answered true.
  pub fillers_kept :
      (pks : List Bytes) (held : Option Filler) (queue : List Filler)
      → let p = space_pass fuel visits pks held queue in
        (all_fillers p.stored p.held p.queue ≡ all_fillers [] held queue) × All Taken p.stored
  unfolding Kept
  fillers_kept pks held queue = space_pass-Kept pks held queue

  -- Where storagefiller ends without an answer on `chal`, for the miner that is next and the filler that is taken, the
  -- task waits for the answer for ever, with the filler, and visits no other miner.
  pub silent_visit_stops :
      (pk : Bytes) (pks : List Bytes) (f : Filler) (queue : List Filler)
      → (storage_filler fuel (visits f pk) pk).ending ≡ silent
      → space_pass fuel visits (pk ∷ pks) none (f ∷ queue) ≡ stopped (some f) queue waits_forever
  silent_visit_stops pk pks f queue e = pass_silent pk pks none (f ∷ queue) queue f refl e
