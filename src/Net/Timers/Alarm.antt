-- ===== src/Net/Timers/Alarm.antt =====
-- HowMuchTimeFromNow: the relative time that the timer descriptor gets.
use neconet.Prelude.{ℕ, ◌+◌, ◌*◌, ◌/◌, ◌%◌, ◌≤◌, ◌<◌, ◌≡◌, refl, ap, ok, arith, max}
use neconet.Prelude.Int.{ℤ, pos, pos_part}
use neconet.Base.Timestamp.{Timestamp, difference}
use neconet.Net.Timers.{
  Timespec, how_much_time_from_now, minimal_delay, at_least_minimal, timespec_of,
}

-- A time span of `s` seconds and `n` nanoseconds that `timerfd_settime` accepts.
pub record IsTimespec (t : Timespec) (s n : ℕ) : Type 0 where
  pub seconds : t.tv_sec ≡ pos s
  pub nanoseconds : t.tv_nsec ≡ pos n
  pub small : n < 1000000000
  pub positive : 0 < s + n

timespec_lem :
    (m : ℕ)
    → minimal_delay ≤ m
    → (s : ℕ) × (n : ℕ) × IsTimespec (timespec_of (pos m)) s n × (s * 1000000000 + n ≡ m * 1000)
timespec_lem m h = (
  m / 1000000,
  m % 1000000 * 1000,
  record { seconds = refl; nanoseconds = refl; small = omega arith; positive = omega arith },
  omega arith,
)

minimal_cases : (d : ℤ) → at_least_minimal d ≡ pos (max minimal_delay (pos_part d))
minimal_cases d = ground arith

-- Whenever the time left until `when` is in `int64_t`, `HowMuchTimeFromNow` gives a time span with less
-- than a second's worth of nanoseconds, never 0, which would disarm the timer: exactly the time left, or
-- 100 microseconds if less is left.
pub how_much_time_from_now_lem :
    (when now : Timestamp) (d : ℤ)
    → difference when now ≡ ok d
    → (t : Timespec) × (s : ℕ) × (n : ℕ) × (how_much_time_from_now when now ≡ ok t)
      × IsTimespec t s n
      × (s * 1000000000 + n ≡ max minimal_delay (pos_part d) * 1000)
unfolding how_much_time_from_now
how_much_time_from_now_lem when now d h =
    let (s, n, i, e) = timespec_lem (max minimal_delay (pos_part d)) (omega arith) in
    (
      timespec_of (pos (max minimal_delay (pos_part d))),
      s,
      n,
      rw h (ap (λ z. ok (timespec_of z)) (minimal_cases d)),
      i,
      e,
    )
