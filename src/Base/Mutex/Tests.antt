-- ===== src/Base/Mutex/Tests.antt =====
-- CMutexLock: two threads, 3 and 4.
use neconet.Prelude.{◌≡◌, refl, none, ok, err, not_owner, assertion, overflow}
use neconet.Prelude.Int.{pos, negsuc, ◌+ℤ◌}
use neconet.Base.Mutex.{deadline, init, taken, lock, unlock, begin_wait, destroy, assert_locked}

lock_twice : lock (taken 3) 4 ≡ none
unfolding lock
lock_twice = refl

unlock_other : unlock (taken 3) 4 ≡ err not_owner
unfolding unlock
unlock_other = refl

wait_gives_back : begin_wait (taken 3) 3 ≡ ok init
unfolding unlock
wait_gives_back = refl

destroy_held : destroy (taken 3) ≡ err assertion
unfolding destroy
destroy_held = refl

assert_other : assert_locked (taken 3) 4 ≡ err assertion
unfolding assert_locked
assert_other = refl

-- Half a second after the second 1600000000: the deadline is a second too late.
late : deadline (pos 1600000000) (pos 0) (pos 500000000) ≡ ok (pos 1600000002, pos 500000000)
unfolding deadline ◌+ℤ◌
late = refl

-- A delay of minus half a second gives nanoseconds that the kernel refuses.
negative_delay :
    deadline (pos 1600000000) (pos 0) (negsuc 499999999) ≡ ok (pos 1600000001, negsuc 499999999)
unfolding deadline ◌+ℤ◌
negative_delay = refl

-- The largest delay overflows the sum with the seconds.
delay_overflows : deadline (pos 1600000000) (pos 0) (pos 9223372036854775807) ≡ err overflow
unfolding deadline ◌+ℤ◌
delay_overflows = refl
