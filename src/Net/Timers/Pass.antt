-- ===== src/Net/Timers/Pass.antt =====
-- __HandleRead as a whole, when the callbacks leave the timers alone.
use neconet.Prelude.{
  ℕ, ◌≡◌, ◌≢◌, refl, sym, ap, ◌∙◌, subst, true, List, [], ◌∷◌, ◌++◌, some, Outcome, ok, arith,
  if◌then◌else◌, ◌>>=◌,
}
use neconet.Prelude.Int.{◌+ℤ◌}
use neconet.Base.Timestamp.{Timestamp, in_int64, is_valid}
use neconet.Net.Timers.{
  Entry, Timer, TimerQueue, entry_ltb, get_expired, run_timers, reset_all, reset_timers,
  reset_timer_fd, handle_read,
}
use neconet.Net.Timers.Inv.{IsBefore, IsOrdered, IsLive, AllEntries, IsValid}
use neconet.Net.Timers.Expired.{IsSplit, get_expired_lem}
use neconet.Net.Timers.Insert.{IsAbsent}
use neconet.Net.Timers.Restart.{InSet}
use neconet.Net.Timers.Reset.{AreReady, AreDone, reset_all_lem}

-- Two entries of a queue that are in strict order have different timers: each carries its timer's time.
differ :
    (q : TimerQueue) (x y : Entry)
    → IsLive q x
    → IsLive q y
    → entry_ltb x y ≡ true
    → y.timer ≢ x.timer
differ q x y l k o e =
    let a : some k.timer ≡ some l.timer = sym k.allocated ∙ ap q.heap e ∙ l.allocated in
    let b : k.timer ≡ l.timer = cc in
    let c : y.time ≡ x.time = sym k.same_time ∙ ap (λ (t : Timer). t.expiration) b ∙ l.same_time in
    let z : entry_ltb x x ≡ true =
      ap (λ t. entry_ltb x (record { time = t; timer = x.timer })) (sym c)
      ∙ ap (λ n. entry_ltb x (record { time = y.time; timer = n })) (sym e)
      ∙ o in
    ground (arith, z)

later-IsAbsent :
    (q : TimerQueue) (x : Entry) (r : List Entry)
    → IsLive q x
    → AllEntries (IsLive q) r
    → IsBefore x r
    → IsAbsent x.timer r
later-IsAbsent q x [] l h b = tt
later-IsAbsent q x (y ∷ r) l h b = (differ q x y l h.0 b.0, later-IsAbsent q x r l h.1 b.1)

split-IsAbsent :
    (p : ℕ) (xs ys : List Entry) → IsAbsent p (xs ++ ys) → IsAbsent p xs × IsAbsent p ys
split-IsAbsent p [] ys h = (tt, h)
split-IsAbsent p (x ∷ xs) ys h = let (a, b) = split-IsAbsent p xs ys h.1 in ((h.0, a), b)

-- Every repeating timer's next expiration is in `int64_t`.
abbrev pub Fits : TimerQueue → Timestamp → Type 0
Fits q now =
    (p : ℕ) (t : Timer) → q.heap p ≡ some t → t.repeat ≡ true → in_int64 (now +ℤ t.interval) ≡ true

-- The entries taken from the front of an ordered set can all be reset.
taken-AreReady :
    (q r : TimerQueue) (now : Timestamp) (es : List Entry)
    → IsOrdered (es ++ r.timers)
    → AllEntries (IsLive q) (es ++ r.timers)
    → r.heap ≡ q.heap
    → Fits q now
    → AreReady r now es
taken-AreReady q r now [] o l h f = tt
taken-AreReady q r now (e ∷ es) o l h f =
    let (a, b) =
      split-IsAbsent e.timer es r.timers (later-IsAbsent q e (es ++ r.timers) l.0 l.1 o.0) in
    (
      record {
        timer = l.0.timer;
        allocated = ap (λ g. g e.timer) h ∙ l.0.allocated;
        address = l.0.address;
        absent = b;
        fits = f e.timer l.0.timer l.0.allocated;
      },
      a,
      taken-AreReady q r now es o.1 l.1 h f,
    )

module _ (callback : ℕ → TimerQueue → Outcome TimerQueue)
    (alone : (p : ℕ) (q : TimerQueue) → callback p q ≡ ok q) where
  run_timers-ok : (q : TimerQueue) (es : List Entry) → run_timers callback q es ≡ ok q
  run_timers-ok q [] = refl
  run_timers-ok q (e ∷ es) = rw (alone e.timer q) (run_timers-ok q es)

-- The descriptor is set to the first time of the set, if there is one.
unfoldable pub armed : TimerQueue → Timestamp → Outcome TimerQueue
armed s now' = elim s.timers [
  | [] ↦ ok s
  | x ∷ _ ↦ if is_valid x.time then reset_timer_fd s x.time now' else ok s
]

reset_timers-armed :
    (r s : TimerQueue) (es : List Entry) (now now' : Timestamp)
    → reset_all r es now ≡ ok s
    → IsValid s
    → reset_timers r es now now' ≡ armed s now'
unfolding reset_timers armed
reset_timers-armed r s es now now' e v = rw e (by_first s.timers v.live)
  where
    by_first :
        (l : List Entry)
        → AllEntries (IsLive s) l
        → ((elim l [
          | [] ↦ ok neconet.Base.Timestamp.invalid
          | x ∷ _ ↦ neconet.Net.Poller.deref (s.heap x.timer) >>= λ timer. ok timer.expiration
        ])
            >>= λ next. if is_valid next then reset_timer_fd s next now' else ok s)
          ≡ elim l [
            | [] ↦ ok s
            | x ∷ _ ↦ if is_valid x.time then reset_timer_fd s x.time now' else ok s
          ]
    by_first [] h = refl
    by_first (x ∷ l) h = rw (h.0.allocated, h.0.same_time) refl

-- When the timer descriptor of a valid queue is read, the callbacks leave the queue as it is, and the
-- repeating timers' next expirations are in `int64_t`: `__HandleRead` fails no assertion up to the setting
-- of the descriptor to the first time of the new set, if that is not empty. The entries due at `now` are
-- taken out of the set, and no others. Each of their timers that repeats has an entry again, a whole
-- interval after `now`, and each other one is deleted; the entries left stay, and the new queue is valid.
pub handle_read_lem :
    (callback : ℕ → TimerQueue → Outcome TimerQueue) (q : TimerQueue) (now now' : Timestamp)
    → ((p : ℕ) (r : TimerQueue) → callback p r ≡ ok r)
    → IsValid q
    → Fits q now
    → (es : List Entry) × (r : TimerQueue) × (s : TimerQueue) × (handle_read callback q now now'
        ≡ armed s now')
      × (get_expired q now ≡ ok (es, r))
      × IsSplit now q.timers (es, r.timers)
      × IsValid s
      × AreDone r now es s
      × ((e : Entry) → InSet e r.timers → InSet e s.timers)
unfolding handle_read
handle_read_lem callback q now now' alone v f =
    let (es, r, x, split, w, same) = get_expired_lem q now v in
    let ready =
      taken-AreReady q r now es (subst IsOrdered (sym split.all) v.ordered)
        (subst (AllEntries (IsLive q)) (sym split.all) v.live) same f in
    let (s, y, valid, done, kept) = reset_all_lem es r now w ready in
    (
      es,
      r,
      s,
      rw x (rw (run_timers-ok callback alone r es) (reset_timers-armed r s es now now' y valid)),
      x,
      split,
      valid,
      done,
      kept,
    )
