-- ===== src/Net/Timers/Reset.antt =====
-- __ResetTimers: repeating timers go back into the set, the others are deleted.
use neconet.Prelude.{ℕ, ◌<◌, ◌≡◌, refl, sym, ◌∙◌, true, List, [], ◌∷◌, some, ok}
use neconet.Prelude.Int.{◌+ℤ◌}
use neconet.Base.Timestamp.{Timestamp, in_int64}
use neconet.Net.Timers.{Entry, Timer, TimerQueue, uintptr_max, reset_all}
use neconet.Net.Timers.Inv.{IsValid}
use neconet.Net.Timers.Insert.{IsAbsent}
use neconet.Net.Timers.Restart.{InSet, next_entry, IsDone, IsStep, reset_timer-IsStep}

-- A timer that can be reset: it is live, without an entry, and its next expiration is in `int64_t`.
pub record IsReady (q : TimerQueue) (now : Timestamp) (e : Entry) : Type 0 where
  pub timer : Timer
  pub allocated : q.heap e.timer ≡ some timer
  pub address : e.timer < uintptr_max
  pub absent : IsAbsent e.timer q.timers
  pub fits : timer.repeat ≡ true → in_int64 (now +ℤ timer.interval) ≡ true

-- All expired timers can be reset, and no timer is among them twice.
abbrev pub AreReady : TimerQueue → Timestamp → List Entry → Type 0
AreReady q now [] = Unit {0}
AreReady q now (e ∷ r) = IsReady q now e × IsAbsent e.timer r × AreReady q now r

-- Each timer as it was before, and what became of it.
abbrev pub AreDone : TimerQueue → Timestamp → List Entry → TimerQueue → Type 0
AreDone q now [] r = Unit {0}
AreDone q now (e ∷ es) r =
    ((t : Timer) × (q.heap e.timer ≡ some t) × IsDone now e.timer t r) × AreDone q now es r

AreReady-step :
    (q r : TimerQueue) (now : Timestamp) (p : ℕ) (t : Timer) (es : List Entry)
    → IsStep q now p t r
    → IsAbsent p es
    → AreReady q now es
    → AreReady r now es
AreReady-step q r now p t [] s a h = tt
AreReady-step q r now p t (e ∷ es) s a (g, d, h) = (
  record {
    timer = g.timer;
    allocated = s.others e.timer a.0 ∙ g.allocated;
    address = g.address;
    absent = s.absent e.timer a.0 g.absent;
    fits = g.fits;
  },
  d,
  AreReady-step q r now p t es s a.1 h,
)

-- What the rest of the pass leaves alone.
record IsKept (q r : TimerQueue) (es : List Entry) : Type 0 where
  others : (j : ℕ) → IsAbsent j es → r.heap j ≡ q.heap j
  kept : (e : Entry) → InSet e q.timers → InSet e r.timers

AreDone-step :
    (q q' r : TimerQueue) (now : Timestamp) (p : ℕ) (t : Timer) (es : List Entry)
    → IsStep q now p t q'
    → IsAbsent p es
    → AreDone q' now es r
    → AreDone q now es r
AreDone-step q q' r now p t [] s a h = tt
AreDone-step q q' r now p t (e ∷ es) s a ((u, g, d), h) =
    ((u, sym (s.others e.timer a.0) ∙ g, d), AreDone-step q q' r now p t es s a.1 h)

reset_all-IsKept :
    (es : List Entry) (q : TimerQueue) (now : Timestamp)
    → IsValid q
    → AreReady q now es
    → (r : TimerQueue) × (reset_all q es now ≡ ok r)
      × IsValid r
      × AreDone q now es r
      × IsKept q r es
unfolding reset_all
reset_all-IsKept [] q now v h = (q, refl, v, tt, record { others = λ j a. refl; kept = λ e k. k })
reset_all-IsKept (e ∷ es) q now v (g, d, h) =
    let (q', x, s) =
      reset_timer-IsStep q now e.timer g.timer v g.allocated g.address g.absent g.fits in
    let (r, y, w, done, k) =
      reset_all-IsKept es q' now s.valid (AreReady-step q q' now e.timer g.timer es s d h) in
    (
      r,
      rw x y,
      w,
      (
        (
          g.timer,
          g.allocated,
          record {
            again = λ u. k.kept (next_entry now e.timer g.timer) (s.done.again u);
            deleted = λ u. k.others e.timer d ∙ s.done.deleted u;
          },
        ),
        AreDone-step q q' r now e.timer g.timer es s d done,
      ),
      record {
        others = λ j a. k.others j a.1 ∙ s.others j (λ u. a.0 (sym u));
        kept = λ f u. k.kept f (s.kept f u);
      },
    )

-- In a valid queue, the pass of `__ResetTimers` over expired timers that can all be reset fails no
-- assertion and keeps the queue valid. Each repeating timer has an entry again, a whole interval
-- after `now`; each other one is deleted; no entry that was in the set is lost.
pub reset_all_lem :
    (es : List Entry) (q : TimerQueue) (now : Timestamp)
    → IsValid q
    → AreReady q now es
    → (r : TimerQueue) × (reset_all q es now ≡ ok r)
      × IsValid r
      × AreDone q now es r
      × ((e : Entry) → InSet e q.timers → InSet e r.timers)
reset_all_lem es q now v h =
    let (r, x, w, d, k) = reset_all-IsKept es q now v h in (r, x, w, d, k.kept)
