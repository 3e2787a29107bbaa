-- ===== src/Net/Timers/Restart.antt =====
-- One timer of __ResetTimers: it goes back into the set, or is deleted.
use neconet.Prelude.{
  update, update_ne, update_self, ℕ, ◌<◌, ◌≡◌, ◌≢◌, refl, sym, ap, ◌∙◌, subst, Bool, true, false,
  inl, inr, ◌⊎◌, List, [], ◌∷◌, ◌++◌, Option, none, some, ok, Bool-cases, if◌then◌else◌,
}
use neconet.Prelude.Int.{◌+ℤ◌}
use neconet.Base.Timestamp.{Timestamp, in_int64, add_time}
use neconet.Net.Timers.{
  Entry, Timer, TimerQueue, uintptr_max, restart, insert_timer, start_again, reset_timer,
}
use neconet.Net.Timers.Inv.{IsLive, AllEntries, IsValid}
use neconet.Net.Timers.Insert.{IsAbsent, insert_timer_lem}

if_true {ℓ} : {A : Type ℓ} (b : Bool) (x y : A) → b ≡ true → (if b then x else y) ≡ x
if_true true x y h = refl
if_true false x y h = cc

abbrev pub InSet : Entry → List Entry → Type 0
InSet e [] = ⊥
InSet e (x ∷ r) = (e ≡ x) ⊎ InSet e r

InSet-here : (e : Entry) (xs ys : List Entry) → InSet e (xs ++ (e ∷ ys))
InSet-here e [] ys = inl refl
InSet-here e (x ∷ xs) ys = inr (InSet-here e xs ys)

InSet-around : (f e : Entry) (xs ys : List Entry) → InSet f (xs ++ ys) → InSet f (xs ++ (e ∷ ys))
InSet-around f e [] ys h = inr h
InSet-around f e (x ∷ xs) ys (inl h) = inl h
InSet-around f e (x ∷ xs) ys (inr h) = inr (InSet-around f e xs ys h)

AllEntries-around :
    (P : Entry → Type 0) (e : Entry) (xs ys : List Entry)
    → P e
    → AllEntries P (xs ++ ys)
    → AllEntries P (xs ++ (e ∷ ys))
AllEntries-around P e [] ys p h = (p, h)
AllEntries-around P e (x ∷ xs) ys p h = (h.0, AllEntries-around P e xs ys p h.1)

-- The entry with which a timer starts again.
abbrev pub next_entry : Timestamp → ℕ → Timer → Entry
next_entry now p t = record { time = now +ℤ t.interval; timer = p }

-- A repeating timer is in the set again, a whole interval after `now`; another one is deleted.
pub record IsDone (now : Timestamp) (p : ℕ) (t : Timer) (r : TimerQueue) : Type 0 where
  pub again : t.repeat ≡ true → InSet (next_entry now p t) r.timers
  pub deleted : t.repeat ≡ false → r.heap p ≡ none

-- What one step does to the queue.
pub record IsStep (q : TimerQueue) (now : Timestamp) (p : ℕ) (t : Timer) (r : TimerQueue)
    : Type 0 where
  pub valid : IsValid r
  pub done : IsDone now p t r
  pub others : (j : ℕ) → j ≢ p → r.heap j ≡ q.heap j
  pub absent : (j : ℕ) → j ≢ p → IsAbsent j q.timers → IsAbsent j r.timers
  pub kept : (e : Entry) → InSet e q.timers → InSet e r.timers

-- A write to the heap at a pointer without an entry.
IsValid-update :
    (q : TimerQueue) (p : ℕ) (x : Option Timer)
    → IsValid q
    → IsAbsent p q.timers
    → IsValid (record q { heap = update q.heap p x })
IsValid-update q p x v a = record { ordered = v.ordered; live = keep q.timers a v.live }
  where
    keep :
        (es : List Entry)
        → IsAbsent p es
        → AllEntries (IsLive q) es
        → AllEntries (IsLive (record q { heap = update q.heap p x })) es
    keep [] a h = tt
    keep (e ∷ es) a h = (
      record {
        timer = h.0.timer;
        allocated = update_ne q.heap p x e.timer a.0 ∙ h.0.allocated;
        same_time = h.0.same_time;
        address = h.0.address;
      },
      keep es a.1 h.1,
    )

module _ (q : TimerQueue) (now : Timestamp) (p : ℕ) (t : Timer) (v : IsValid q)
    (h : q.heap p ≡ some t) (s : p < uintptr_max) (a : IsAbsent p q.timers) where
  deleted-IsStep :
      t.repeat ≡ false → (r : TimerQueue) × (reset_timer q p now ≡ ok r) × IsStep q now p t r
  unfolding reset_timer
  deleted-IsStep f = (
    record q { heap = update q.heap p none },
    rw h (rw f refl),
    record {
      valid = IsValid-update q p none v a;
      done = record { again = λ u. cc; deleted = λ _. update_self q.heap p none };
      others = λ j d. update_ne q.heap p none j d;
      absent = λ j d k. k;
      kept = λ e k. k;
    },
  )

  again : Timer
  again = record t { expiration = now +ℤ t.interval }

  written : TimerQueue
  written = record q { heap = update q.heap p (some again) }

  restarted : t.repeat ≡ true → in_int64 (now +ℤ t.interval) ≡ true → restart t now ≡ ok again
  unfolding restart add_time again
  restarted y fits = rw (y, fits) refl

  started :
      (r : TimerQueue) (b : Bool)
      → t.repeat ≡ true
      → in_int64 (now +ℤ t.interval) ≡ true
      → insert_timer written p ≡ ok (r, b)
      → start_again q p t now ≡ ok r
  unfolding start_again written
  started r b y fits e = rw (restarted y fits) (rw e refl)

  reset_timer_again : t.repeat ≡ true → reset_timer q p now ≡ start_again q p t now
  unfolding reset_timer
  reset_timer_again y = rw h (if_true t.repeat _ _ y)

  again-IsStep :
      t.repeat ≡ true
      → in_int64 (now +ℤ t.interval) ≡ true
      → (r : TimerQueue) × (reset_timer q p now ≡ ok r) × IsStep q now p t r
  unfolding written again
  again-IsStep y fits =
      let (r, e, w, i, g) =
        insert_timer_lem written p again (IsValid-update q p (some again) v a)
          (update_self q.heap p (some again)) s a in
      (
        r,
        reset_timer_again y ∙ started r _ y fits e,
        record {
          valid = w;
          done = record {
            again = λ _.
                subst (InSet (next_entry now p t)) i.now
                  (InSet-here (next_entry now p t) i.front i.back);
            deleted = λ f. cc;
          };
          others = λ j d. ap (λ m. m j) g ∙ update_ne q.heap p (some again) j d;
          absent = λ j d k. subst (IsAbsent j) i.now (
              AllEntries-around (λ x. x.timer ≢ j) (next_entry now p t) i.front i.back
                (λ u. d (sym u)) (subst (IsAbsent j) (sym i.was) k));
          kept = λ f k.
              subst (InSet f) i.now (
                InSet-around f (next_entry now p t) i.front i.back (subst (InSet f) (sym i.was) k));
        },
      )

  pub reset_timer-IsStep :
      (t.repeat ≡ true → in_int64 (now +ℤ t.interval) ≡ true)
      → (r : TimerQueue) × (reset_timer q p now ≡ ok r) × IsStep q now p t r
  reset_timer-IsStep fits = elim (Bool-cases t.repeat) [
    | inl y ↦ again-IsStep y (fits y)
    | inr f ↦ deleted-IsStep f
  ]
