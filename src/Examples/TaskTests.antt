-- ===== src/Examples/TaskTests.antt =====
-- The manager of the tasks, and the task that hands out fillers (node).
use cess_scheduler.Prelude.{
  ◌≤◌, ◌≡◌, ◌⊎◌, refl, Bytes, Bool, true, none, some, List, [], ◌∷◌, str, All, ltb,
}
use cess_scheduler.Chain.Types.{returned}
use cess_scheduler.Node.Filler.{Visit, storage_filler}
use cess_scheduler.Node.Tags.{Filler}
use cess_scheduler.Node.Tasks.{
  Slots, Run, stop, more, ends, started, set_slot, space, common_tick, process_exits,
}
use cess_scheduler.Node.Tasks.Supervised.{tasks_supervised}
use cess_scheduler.Node.Space.{space_pass, stopped, waits_forever}
use cess_scheduler.Node.Space.Handed.{all_fillers, Taken, fillers_kept, silent_visit_stops}
use cess_scheduler.Examples.ChainTests.{up}
use cess_scheduler.Examples.FillerTests.{visit, third, name}

-- The space task has ended, and stands at its send.
abbrev at_send : Slots
at_send = set_slot space (record { running = 0; ending = 1; channel = 0 }) started

ended : Run started at_send
ended = more (ends space 0 refl) stop

tasks_supervised_example :
    ((at_send space).running ≤ 1)
    × (((at_send space).ending ≡ 0) ⊎ ((at_send space).channel ≡ 0))
    × ((v : Slots) × Run at_send v × ((v space).running ≡ 1))
tasks_supervised_example = tasks_supervised at_send space ended

poor : common_tick (up, returned (5, none)) ≡ (up, process_exits)
unfolding common_tick
poor = refl

abbrev filler : Bytes → Filler
filler n = record { filler_path = n; tag_file = n }

abbrev reached : Bytes → Bool
reached [] = true
reached (b ∷ bs) = ltb 1 b

-- The miner 1 is not reached.
abbrev visits : Filler → Bytes → Visit
visits f pk = visit (reached pk) third name

abbrev miners : List Bytes
miners = (1 ∷ []) ∷ (2 ∷ []) ∷ (3 ∷ []) ∷ []

abbrev waiting : List Filler
waiting = filler (str "a") ∷ filler (str "b") ∷ []

fillers_kept_example :
    (all_fillers
        (space_pass 5 visits miners none waiting).stored
        (space_pass 5 visits miners none waiting).held
        (space_pass 5 visits miners none waiting).queue
      ≡ all_fillers [] none waiting)
    × All (Taken 5 visits) (space_pass 5 visits miners none waiting).stored
fillers_kept_example = fillers_kept 5 visits miners none waiting

-- Two fillers for three miners.
handed :
    (space_pass 5 visits miners none waiting).stored
    ≡ (filler (str "a"), 2 ∷ []) ∷ (filler (str "b"), 3 ∷ []) ∷ []
unfolding space_pass storage_filler
handed = refl

silent_visit :
    space_pass 5 (λ f pk. visit true third (str "short")) miners none waiting
    ≡ stopped (some (filler (str "a"))) (filler (str "b") ∷ []) waits_forever
unfolding storage_filler
silent_visit =
    silent_visit_stops 5 (λ f pk. visit true third (str "short")) (1 ∷ [])
      ((2 ∷ []) ∷ (3 ∷ []) ∷ []) (filler (str "a")) (filler (str "b") ∷ []) refl
