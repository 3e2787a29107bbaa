-- ===== src/Net/Timers/Tests.antt =====
-- CTimerQueue with two timers: tests, and the theorems at inputs that meet their hypotheses.
use neconet.Prelude.{
  ℕ, ◌+◌, ◌*◌, ◌==◌, ◌≡◌, refl, true, false, List, [], ◌∷◌, Option, none, some, ok, arith,
  if◌then◌else◌, ◌>>=◌, Bool-cases, inl, inr, subst, sym, ap, ◌∙◌,
}
use neconet.Prelude.Int.{pos, ◌-ℤ◌, ◌+ℤ◌}
use neconet.Base.Timestamp.{difference, add_time, in_int64}
use neconet.Net.Timers.Alarm.{IsTimespec, how_much_time_from_now_lem}
use neconet.Net.Timers.{
  Timespec, how_much_time_from_now, Entry, Timer, TimerQueue, get_expired, reset_all, handle_read,
}
use neconet.Net.Timers.Inv.{IsValid}
use neconet.Net.Timers.Expired.{IsSplit, get_expired_lem}
use neconet.Net.Timers.Restart.{InSet}
use neconet.Net.Timers.Pass.{Fits, armed, handle_read_lem}
use neconet.Net.Timers.Reset.{AreReady, AreDone, reset_all_lem}

abbrev repeating : Timer
repeating = record { expiration = pos 5; interval = pos 10; repeat = true }

abbrev single : Timer
single = record { expiration = pos 9; interval = pos 0; repeat = false }

abbrev early : Entry
early = record { time = pos 5; timer = 3 }

abbrev late : Entry
late = record { time = pos 9; timer = 4 }

abbrev both : ℕ → Option Timer
both p = if p == 3 then some repeating else if p == 4 then some single else none

-- Timer 3 repeats; timer 4 does not.
abbrev queue : TimerQueue
queue = record { timers = early ∷ late ∷ []; heap = both; alarm = none }

queue-IsValid : IsValid queue
queue-IsValid = record {
  ordered = ((refl, tt), (tt, tt));
  live = (
    record { timer = repeating; allocated = refl; same_time = refl; address = omega arith },
    (record { timer = single; allocated = refl; same_time = refl; address = omega arith }, tt),
  );
}

get_expired_lem_example :
    (expired : List Entry) × (r : TimerQueue) × (get_expired queue (pos 7) ≡ ok (expired, r))
    × IsSplit (pos 7) queue.timers (expired, r.timers)
    × IsValid r
    × (r.heap ≡ queue.heap)
get_expired_lem_example = get_expired_lem queue (pos 7) queue-IsValid

abbrev later_only : TimerQueue
later_only = record queue { timers = late ∷ [] }

later_only-IsValid : IsValid later_only
later_only-IsValid = record {
  ordered = (tt, tt);
  live = (record { timer = single; allocated = refl; same_time = refl; address = omega arith }, tt);
}

abbrev nothing_left : TimerQueue
nothing_left = record queue { timers = [] }

in_range : in_int64 (pos 12 +ℤ pos 10) ≡ true
unfolding ◌+ℤ◌
in_range = refl

both_ready : AreReady nothing_left (pos 12) (early ∷ late ∷ [])
both_ready = (
  record {
    timer = repeating;
    allocated = refl;
    address = omega arith;
    absent = tt;
    fits = λ _. in_range;
  },
  (omega arith, tt),
  (
    record { timer = single; allocated = refl; address = omega arith; absent = tt; fits = λ h. cc },
    tt,
    tt,
  ),
)

reset_all_lem_example :
    (r : TimerQueue) × (reset_all nothing_left (early ∷ late ∷ []) (pos 12) ≡ ok r)
    × IsValid r
    × AreDone nothing_left (pos 12) (early ∷ late ∷ []) r
    × ((e : Entry) → InSet e [] → InSet e r.timers)
reset_all_lem_example =
    reset_all_lem (early ∷ late ∷ []) nothing_left (pos 12) (record { ordered = tt; live = tt })
      both_ready

time_left : difference (pos 2000005) (pos 5) ≡ ok (pos 2000000)
unfolding difference ◌-ℤ◌
time_left = refl

-- At time 12 both timers are due: the first one is in the set again, the second one is gone, and the
-- descriptor is set to the 10 microseconds left, or rather to 100.
handle_read_both :
    (handle_read (λ p q. ok q) queue (pos 12) (pos 12) >>= λ r. ok (r.timers))
    ≡ ok (record { time = pos 22; timer = 3 } ∷ [])
unfolding handle_read ◌+ℤ◌ ◌-ℤ◌ add_time difference
handle_read_both = refl

handle_read_alarm :
    (handle_read (λ p q. ok q) queue (pos 12) (pos 12) >>= λ r. ok (r.alarm))
    ≡ ok (some (record { tv_sec = pos 0; tv_nsec = pos 100000 }))
unfolding handle_read ◌+ℤ◌ ◌-ℤ◌ add_time difference
handle_read_alarm = refl

how_much_time_from_now_lem_example :
    (t : Timespec) × (s : ℕ) × (n : ℕ) × (how_much_time_from_now (pos 2000005) (pos 5) ≡ ok t)
    × IsTimespec t s n
    × (s * 1000000000 + n ≡ 2000000000)
how_much_time_from_now_lem_example =
    how_much_time_from_now_lem (pos 2000005) (pos 5) (pos 2000000) time_left

queue-Fits : Fits queue (pos 12)
queue-Fits p t h k = elim (Bool-cases (p == 3)) [
  | inl x ↦
      let y : some repeating ≡ some t = sym (rw x refl) ∙ h in
      let z : repeating ≡ t = cc in
      subst (λ (u : Timer). in_int64 (pos 12 +ℤ u.interval) ≡ true) z in_range
  | inr x ↦ elim (Bool-cases (p == 4)) [
    | inl w ↦
        let y : some single ≡ some t = sym (rw (x, w) refl) ∙ h in
        let z : single ≡ t = cc in
        let n : false ≡ true = ap (λ (u : Timer). u.repeat) z ∙ k in
        absurd (let m : false ≡ true = n in cc)
    | inr w ↦ absurd (let y : none ≡ some t = sym (rw (x, w) refl) ∙ h in cc)
  ]
]

handle_read_lem_example :
    (es : List Entry) × (r : TimerQueue) × (s : TimerQueue) × (handle_read
        (λ p q. ok q)
        queue
        (pos 12)
        (pos 12)
      ≡ armed s (pos 12))
    × (get_expired queue (pos 12) ≡ ok (es, r))
    × IsSplit (pos 12) queue.timers (es, r.timers)
    × IsValid s
    × AreDone r (pos 12) es s
    × ((e : Entry) → InSet e r.timers → InSet e s.timers)
handle_read_lem_example =
    handle_read_lem (λ p q. ok q) queue (pos 12) (pos 12) (λ p q. refl) queue-IsValid queue-Fits
