-- ===== src/Node/Tasks/Supervised.antt =====
-- The goroutines and the channels of the manager of tasks (node/sub_main.go) in every state it comes to.
use cess_scheduler.Prelude.{
  ℕ, zero, suc, ◌+◌, ◌≤◌, ◌≡◌, refl, sym, ap, ◌∙◌, inl, inr, ◌⊎◌, arith, ◌==◌, Bool-cases, ==_self,
}
use cess_scheduler.Node.Tasks.{
  Task, number, Slot, Slots, started, set_slot, Step, ends, sends, starts, Run, stop, more,
  miner_cache, validate_proof, generate_filler, common, space,
}

-- One goroutine or one value for each task.
IsSupervised : Slots → Type 0
IsSupervised w = (t : Task) → (w t).running + (w t).ending + (w t).channel ≡ 1

total : Slot → ℕ
total s = s.running + s.ending + s.channel

of_number : ℕ → Task
of_number (suc zero) = miner_cache
of_number (suc (suc zero)) = validate_proof
of_number (suc (suc (suc zero))) = generate_filler
of_number (suc (suc (suc (suc zero)))) = common
of_number _ = space

of_number-number : (t : Task) → of_number (number t) ≡ t
unfolding of_number
of_number-number miner_cache = refl
of_number-number validate_proof = refl
of_number-number generate_filler = refl
of_number-number common = refl
of_number-number space = refl

number_inj : (t u : Task) → number t ≡ number u → t ≡ u
number_inj t u e = sym (of_number-number t) ∙ ap of_number e ∙ of_number-number u

set_keeps :
    (t : Task) (s : Slot) (w : Slots)
    → total s ≡ total (w t)
    → (u : Task) → total (set_slot t s w u) ≡ total (w u)
unfolding total
set_keeps t s w e u = elim (Bool-cases (number t == number u)) [
  | inl same ↦ rw same (e ∙ ap (λ x. total (w x)) (number_inj t u (ground arith)))
  | inr other ↦ rw other refl
]

step-IsSupervised : {w v : Slots} → Step w v → IsSupervised w → IsSupervised v
unfolding IsSupervised total
step-IsSupervised {w} (ends t n r) h u =
    set_keeps t (record { running = n; ending = suc (w t).ending; channel = (w t).channel }) w
      (omega (arith, r)) u
    ∙ h u
step-IsSupervised {w} (sends t n e c) h u =
    set_keeps t (record { running = (w t).running; ending = n; channel = 1 }) w
      (omega (arith, e, c)) u
    ∙ h u
step-IsSupervised {w} (starts t n c) h u =
    set_keeps t (record { running = suc (w t).running; ending = (w t).ending; channel = n }) w
      (omega (arith, c)) u
    ∙ h u

run-IsSupervised : {w v : Slots} → Run w v → IsSupervised w → IsSupervised v
run-IsSupervised stop h = h
run-IsSupervised (more s r) h = run-IsSupervised r (step-IsSupervised s h)

started-IsSupervised : IsSupervised started
unfolding IsSupervised
started-IsSupervised t = refl

set_slot_same : (t : Task) (s : Slot) (w : Slots) → set_slot t s w t ≡ s
set_slot_same t s w = rw (==_self (number t)) refl

-- A value in the channel: the manager starts the task.
from_channel :
    (w : Slots) (t : Task)
    → (w t).running ≡ 0
    → (w t).channel ≡ 1
    → (v : Slots) × Run w v × ((v t).running ≡ 1)
from_channel w t r c =
    let s : Slot = record { running = suc (w t).running; ending = (w t).ending; channel = 0 } in
    (set_slot t s w, more (starts t 0 c) stop, ap (λ x. x.running) (set_slot_same t s w) ∙ ap suc r)

-- A task at its send: the channel is empty.
from_ending :
    (w : Slots) (t : Task)
    → (w t).running ≡ 0
    → (w t).ending ≡ 1
    → (w t).channel ≡ 0
    → (v : Slots) × Run w v × ((v t).running ≡ 1)
from_ending w t r e c =
    let s : Slot = record { running = (w t).running; ending = 0; channel = 1 } in
    let (v, run, again) =
      from_channel (set_slot t s w) t (ap (λ x. x.running) (set_slot_same t s w) ∙ r)
        (ap (λ x. x.channel) (set_slot_same t s w)) in
    (v, more (sends t 0 e c) run, again)

split_one :
    (a b c : ℕ) → a + b + c ≡ 1 → (a ≡ 1) ⊎ (((a ≡ 0) × (c ≡ 1)) ⊎ ((a ≡ 0) × (b ≡ 1) × (c ≡ 0)))
split_one (suc a) b c h = inl (omega arith)
split_one zero b (suc c) h = inr (inl (refl, omega arith))
split_one zero b zero h = inr (inr (refl, omega arith, refl))

-- In every state that the manager comes to: no task runs twice; where a task is at its send, the channel is
-- empty, so that the send does not block; and the state can go on to one in which the task runs.
pub tasks_supervised :
    (w : Slots) (t : Task)
    → Run started w
    → ((w t).running ≤ 1)
      × (((w t).ending ≡ 0) ⊎ ((w t).channel ≡ 0))
      × ((v : Slots) × Run w v × ((v t).running ≡ 1))
unfolding IsSupervised
tasks_supervised w t r =
    let one : (w t).running + (w t).ending + (w t).channel ≡ 1 =
      run-IsSupervised r started-IsSupervised t in
    elim (split_one (w t).running (w t).ending (w t).channel one) [
      | inl runs ↦ (omega (arith, runs), inl (omega (arith, runs, one)), (w, stop, runs))
      | inr (inl (r0, c1)) ↦
          (omega (arith, r0), inl (omega (arith, c1, one)), from_channel w t r0 c1)
      | inr (inr (r0, e1, c0)) ↦ (omega (arith, r0), inr c0, from_ending w t r0 e1 c0)
    ]
