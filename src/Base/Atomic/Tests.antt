-- ===== src/Base/Atomic/Tests.antt =====
-- CAtomicInt32: tests at the ends of the range.
use neconet.Prelude.{◌≡◌, refl, err, overflow}
use neconet.Prelude.Int.{pos, negsuc, ◌+ℤ◌}
use neconet.Base.Atomic.{add_and_get, get_and_add, increment_and_get, get_and_set}

largest : increment_and_get 31 (pos 2147483647) ≡ err overflow
unfolding increment_and_get add_and_get get_and_add ◌+ℤ◌
largest = refl

swapped : get_and_set (pos 3) (negsuc 4) ≡ (pos 3, negsuc 4)
unfolding get_and_set
swapped = refl
