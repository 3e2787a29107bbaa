-- ===== src/Base/Thread/Tests.antt =====
-- CThread: tests, and the theorem on Start at a whole run of two threads.
use neconet.Prelude.{ℕ, ◌≡◌, refl, true, false, [], ◌∷◌, ok, err, assertion, arith, ◌>>=◌}
use neconet.Prelude.Int.{pos, ◌-ℤ◌, ◌+ℤ◌}
use neconet.Base.Text.{signed}
use neconet.Base.Mutex.{init, taken, lock, unlock}
use neconet.Base.Latch.{
  Latch, Step, passed, move, count_down, decrement, testing, asleep, passing, counting, counted,
  waits, sleeps, retakes, goes_on, passes, counts, counts_down, leaves,
}
use neconet.Base.Thread.{
  Thread, Starting, Started, writes, on_latch, at_first, after, start_state, construct, begin_start,
  end_start, join, destroy,
}
use neconet.Base.Thread.Start.{end_start_lem}

abbrev fresh : Thread
fresh = record { started = false; joined = false; detached = false; tid = 0; name = [] }

-- Threads 1, the starter, and 2: the id is written, 1 sleeps, 2 counts down and leaves, 1 returns.
abbrev written : Starting
written = record (start_state 1 2) { tid = 2 }

abbrev sleeping : Latch
sleeping = move (move written.latch 1 testing (taken 1)) 1 asleep init

abbrev released : Latch
released = move (count_down (move sleeping 2 counting (taken 2)) 2) 2 counted init

abbrev returned : Latch
returned = move (move (move released 1 testing (taken 1)) 1 passing (taken 1)) 1 passed init

with_latch :
    (l l' : Latch)
    → Started 1 2 (record { latch = l; tid = 2 })
    → Step l l'
    → Started 1 2 (record { latch = l'; tid = 2 })
with_latch l l' r step = after r (on_latch step (λ z. cc))

sleeping-Started : Started 1 2 (record { latch = sleeping; tid = 2 })
unfolding lock unlock
sleeping-Started =
    with_latch _ _ (with_latch _ _ (after at_first (writes refl)) (waits 1 refl refl))
      (sleeps 1 refl refl refl)

released-Started : Started 1 2 (record { latch = released; tid = 2 })
unfolding lock unlock decrement ◌-ℤ◌
released-Started =
    with_latch _ _
      (with_latch _ _ (with_latch _ _ sleeping-Started (counts 2 refl refl)) (counts_down 2 refl))
      (leaves 2 refl refl)

returned-Started : Started 1 2 (record { latch = returned; tid = 2 })
unfolding lock unlock decrement ◌-ℤ◌
returned-Started =
    with_latch _ _
      (with_latch _ _ (with_latch _ _ released-Started (retakes 1 refl refl)) (goes_on 1 refl refl))
      (passes 1 refl refl)

abbrev started_thread : Thread
started_thread = record fresh { started = true; tid = 2 }

end_start_lem_example : (◌≡◌ {A = ℕ} 2 2) × (end_start started_thread ≡ ok started_thread)
unfolding decrement ◌-ℤ◌
end_start_lem_example =
    end_start_lem 1 2 (record { latch = returned; tid = 2 }) started_thread returned-Started refl
      (omega arith) refl

start_twice : (begin_start fresh >>= begin_start) ≡ err assertion
unfolding begin_start
start_twice = refl

join_twice : (join started_thread >>= join) ≡ err assertion
unfolding join
join_twice = refl

detached : (destroy started_thread).detached ≡ true
unfolding destroy
detached = refl

first_thread :
    construct (pos 0) []
    ≡ ok (record fresh { name = b'T' ∷ b'h' ∷ b'r' ∷ b'e' ∷ b'a' ∷ b'd' ∷ b'1' ∷ [] }, pos 1)
unfolding construct signed ◌+ℤ◌
first_thread = refl
