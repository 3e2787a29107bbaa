-- ===== src/Base/Timestamp/Laws.antt =====
-- What the conversions and sums of timestamps keep.
use neconet.Prelude.{ℕ, ◌+◌, ◌*◌, ◌<◌, ◌^◌, ◌≡◌, refl, ap, ◌∙◌, true, ok, arith, lt→ltb}
use neconet.Prelude.Int.{pos, ◌+ℤ◌, ◌-ℤ◌, ◌*ℤ◌, +ℤ_comm, +ℤ_cancel, +ℤ_parts}
use neconet.Base.Timestamp.{
  Timestamp, micro_seconds_per_second, remainder, seconds_since_epoch, from_unix_time, add_time,
  difference, earlier, in_int64, to_int64,
}

-- `FromUnixTime(t, us)` with `t` at least 0, `us` less than a second and a sum in `int64_t` gives a time
-- whose seconds are `t` and whose microseconds are `us`.
pub from_unix_time_lem :
    (t us : ℕ)
    → us < micro_seconds_per_second
    → t * micro_seconds_per_second + us < 2 ^ 63
    → (w : Timestamp) × (from_unix_time (pos t) (pos us) ≡ ok w)
      × (seconds_since_epoch w ≡ pos t)
      × (remainder w micro_seconds_per_second ≡ pos us)
unfolding from_unix_time ◌+ℤ◌ ◌*ℤ◌
from_unix_time_lem t us h k =
    (pos (t * micro_seconds_per_second + us), ground arith, ground arith, ground arith)

-- `AddTime` of a delay of at least 0 with a sum in `int64_t` succeeds, the difference to the old time is
-- the delay, and a positive delay gives a later time.
pub difference-add_time :
    (t : Timestamp) (d : ℕ)
    → d < 2 ^ 63
    → in_int64 (t +ℤ pos d) ≡ true
    → (w : Timestamp) × (add_time t (pos d) ≡ ok w)
      × (difference w t ≡ ok (pos d))
      × (0 < d → earlier t w ≡ true)
unfolding add_time difference
difference-add_time t d small h = (
  t +ℤ pos d,
  rw h refl,
  ap to_int64 cancel ∙ ground arith,
  λ p. lt→ltb _ _ (omega (arith, +ℤ_parts t (pos d))),
)
  where
    cancel : (t +ℤ pos d) -ℤ t ≡ pos d
    cancel = ap (λ z. z -ℤ t) (+ℤ_comm t (pos d)) ∙ +ℤ_cancel (pos d) t
