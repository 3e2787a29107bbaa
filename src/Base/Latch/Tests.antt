-- ===== src/Base/Latch/Tests.antt =====
-- CCountDownLatch made for one call, with threads 1, in Wait, and 2, in CountDown.
use neconet.Prelude.{arith, ℕ, ◌≤◌, ◌≡◌, refl, true, false, ok, some, ◌==◌, if◌then◌else◌}
use neconet.Prelude.Int.{◌-ℤ◌}
use neconet.Base.Mutex.{init, taken, lock, unlock, is_locked_by}
use neconet.Base.Latch.{
  Pc, Latch, Reachable, wants_wait, testing, asleep, passed, wants_count, counting, counted,
  elsewhere, decrement, is_start, move, count_down, waits, sleeps, retakes, goes_on, passes, counts,
  counts_down, leaves, at_first, after,
}
use neconet.Base.Latch.Inv.{is_asleep}
use neconet.Base.Latch.Exit.{Steps, passed_lem, exclusive_lem, wait_returns}

abbrev places : ℕ → Pc
places i = if i == 1 then wants_wait else if i == 2 then wants_count else elsewhere

places-is_start : (i : ℕ) → is_start (places i) ≡ true
places-is_start i = ground arith

abbrev fresh : Latch
fresh = record { mutex = init; count = neconet.Prelude.Int.pos 1; pc = places; downs = 0 }

fresh-Reachable : Reachable 1 fresh
fresh-Reachable = at_first places places-is_start

-- Thread 1 sleeps, and thread 2 has just decremented the count: the notification has woken thread 1.
abbrev waiting : Latch
waiting = move (move fresh 1 testing (taken 1)) 1 asleep init

abbrev open_now : Latch
open_now = count_down (move waiting 2 counting (taken 2)) 2

open_now-Reachable : Reachable 1 open_now
unfolding lock unlock
open_now-Reachable =
    after
      (after (after (after fresh-Reachable (waits 1 refl refl)) (sleeps 1 refl refl refl))
        (counts 2 refl refl))
      (counts_down 2 refl)

wait_returns_example :
    (is_asleep (open_now.pc 1) ≡ false) × ((t : Latch) × Steps open_now t × (t.pc 1 ≡ passed))
unfolding decrement ◌-ℤ◌
wait_returns_example = wait_returns 1 open_now 1 open_now-Reachable refl refl

exclusive_lem_example : (◌≡◌ {A = ℕ} 2 2) × (is_locked_by open_now.mutex 2 ≡ true)
unfolding decrement ◌-ℤ◌
exclusive_lem_example = exclusive_lem 1 open_now 2 2 open_now-Reachable refl refl

-- Thread 2 has left, and thread 1 has returned.
abbrev all_done : Latch
all_done =
    move (move (move (move open_now 2 counted init) 1 testing (taken 1)) 1 Pc.passing (taken 1)) 1
      passed init

all_done-Reachable : Reachable 1 all_done
unfolding lock unlock decrement ◌-ℤ◌
all_done-Reachable =
    after
      (after (after (after open_now-Reachable (leaves 2 refl refl)) (retakes 1 refl refl))
        (goes_on 1 refl refl))
      (passes 1 refl refl)

passed_lem_example : 1 ≤ all_done.downs
unfolding decrement ◌-ℤ◌
passed_lem_example = passed_lem 1 all_done 1 all_done-Reachable refl
