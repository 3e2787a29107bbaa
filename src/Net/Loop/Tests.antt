-- ===== src/Net/Loop/Tests.antt =====
-- CEventLoop: tests, and the theorems at states that are reached.
use neconet.Prelude.{◌≡◌, ◌⊎◌, refl, false, [], ◌∷◌, ◌++◌}
use neconet.Net.Loop.{
  Loop, polling, init, start_loop, go, queue_in_loop, queue_from_outside, quit_from_outside, starts,
  goes_on, other_queues, Reachable, at_first, after,
}
use neconet.Net.Loop.{handling, begin_functors, swap_functors, run_functor, runs, functor_queues}
use neconet.Net.Loop.Pass.{Pass, taken, goes, pass_lem}
use neconet.Net.Loop.Inv.{batch, IsComplete, IsWoken, poll-IsWoken, Reachable-IsComplete}

-- The loop is in `Poll`, and another thread has just pushed functor 7.
abbrev asleep : Loop
asleep = queue_from_outside (go (start_loop init) polling) 7

asleep-Reachable : Reachable asleep
asleep-Reachable =
    after (after (after at_first (starts refl refl)) (goes_on refl refl)) (other_queues 7)

poll-IsWoken_example :
    ((asleep.pending ≡ asleep.early) ⊎ IsWoken asleep) × ((asleep.quit ≡ false) ⊎ IsWoken asleep)
poll-IsWoken_example = poll-IsWoken asleep asleep-Reachable refl

Reachable-IsComplete_example : IsComplete asleep
Reachable-IsComplete_example = Reachable-IsComplete asleep asleep-Reachable

-- A request to quit that comes before `StartLoop` is lost.
quit_lost : (start_loop (quit_from_outside init)).quit ≡ false
quit_lost = refl

-- A functor that the loop's own thread queues before `StartLoop` waits, with no wakeup.
queued_early : (start_loop (queue_in_loop init 7)).pending ≡ 7 ∷ []
queued_early = refl

queued_early_wake : (start_loop (queue_in_loop init 7)).wake ≡ 0
queued_early_wake = refl

queued_early_mark : (start_loop (queue_in_loop init 7)).early ≡ 7 ∷ []
queued_early_mark = refl

-- Another thread pushed functors 7 and 8; the loop's thread has taken them and run 7, which queued 9.
abbrev before : Loop
before =
    begin_functors
      (go (queue_from_outside (queue_from_outside (go (start_loop init) polling) 7) 8) handling)

abbrev amid : Loop
amid = queue_in_loop (run_functor (swap_functors before) 7 (8 ∷ [])) 9

amid-Pass : Pass before amid
amid-Pass =
    goes (goes (taken refl) (7 ∷ 8 ∷ []) refl (runs 7 (8 ∷ []) refl)) (8 ∷ []) refl
      (functor_queues 9 (8 ∷ []) refl)

pass_lem_example :
    (amid.done ++ batch amid.phase ≡ before.done ++ before.pending)
    × (amid.queued ≡ before.queued ++ amid.pending)
pass_lem_example = pass_lem before amid amid-Pass
