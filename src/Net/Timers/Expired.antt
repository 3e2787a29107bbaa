-- ===== src/Net/Timers/Expired.antt =====
-- __GetExpired: the expired timers leave the set, and the others stay.
use neconet.Prelude.{
  ◌<◌, ◌≡◌, refl, sym, ap, subst, true, false, inl, inr, List, [], ◌∷◌, ◌++◌, ok, arith, Bool-cases,
}
use neconet.Base.Timestamp.{Timestamp, earlier, at_most}
use neconet.Net.Timers.{Entry, TimerQueue, entry_ltb, uintptr_max, lower_bound, get_expired}
use neconet.Net.Timers.Inv.{IsBefore, IsOrdered, IsLive, AllEntries, IsValid}

abbrev pub sentry_at : Timestamp → Entry
sentry_at now = record { time = now; timer = uintptr_max }

abbrev pub HasAddress : Entry → Type 0
HasAddress e = e.timer < uintptr_max

pub AllEntries-map :
    (P Q : Entry → Type 0) (r : List Entry)
    → ((e : Entry) → P e → Q e)
    → AllEntries P r
    → AllEntries Q r
AllEntries-map P Q [] f h = tt
AllEntries-map P Q (x ∷ r) f h = (f x h.0, AllEntries-map P Q r f h.1)

-- The second part of a list keeps what holds of all.
AllEntries-tail :
    (P : Entry → Type 0) (xs ys : List Entry) → AllEntries P (xs ++ ys) → AllEntries P ys
AllEntries-tail P [] ys h = h
AllEntries-tail P (x ∷ xs) ys h = AllEntries-tail P xs ys h.1

IsOrdered-tail : (xs ys : List Entry) → IsOrdered (xs ++ ys) → IsOrdered ys
IsOrdered-tail [] ys h = h
IsOrdered-tail (x ∷ xs) ys h = IsOrdered-tail xs ys h.1

-- What stands behind an entry that is not due is not due either.
earlier-IsBefore :
    (now : Timestamp) (x : Entry) (r : List Entry)
    → earlier now x.time ≡ true
    → IsBefore x r
    → AllEntries (λ e. earlier now e.time ≡ true) r
earlier-IsBefore now x [] h k = tt
earlier-IsBefore now x (y ∷ r) h k = (ground arith, earlier-IsBefore now x r h k.1)

not_due :
    (now : Timestamp) (x : Entry)
    → HasAddress x
    → entry_ltb x (sentry_at now) ≡ false
    → earlier now x.time ≡ true
not_due now x a h = ground arith

due : (now : Timestamp) (x : Entry) → entry_ltb x (sentry_at now) ≡ true → at_most x.time now ≡ true
due now x h = ground arith

-- The two parts at the bound of the entries due.
pub record IsSplit (now : Timestamp) (entries : List Entry) (r : List Entry × List Entry)
    : Type 0 where
  pub all : r.0 ++ r.1 ≡ entries
  pub expired : AllEntries (λ e. at_most e.time now ≡ true) r.0
  pub rest : AllEntries (λ e. earlier now e.time ≡ true) r.1

pub lower_bound-IsSplit :
    (now : Timestamp) (entries : List Entry)
    → IsOrdered entries
    → AllEntries HasAddress entries
    → IsSplit now entries (lower_bound (sentry_at now) entries)
unfolding lower_bound
lower_bound-IsSplit now [] o a = record { all = refl; expired = tt; rest = tt }
lower_bound-IsSplit now (x ∷ r) o a = elim (Bool-cases (entry_ltb x (sentry_at now))) [
  | inl h ↦
      let s = lower_bound-IsSplit now r o.1 a.1 in
      rw h
        (record { all = ap (λ l. x ∷ l) s.all; expired = (due now x h, s.expired); rest = s.rest })
  | inr h ↦
      let e : earlier now x.time ≡ true = not_due now x a.0 h in
      rw h (record { all = refl; expired = tt; rest = (e, earlier-IsBefore now x r e o.0) })
]

pub head_test :
    (now : Timestamp) (r : List Entry)
    → AllEntries (λ e. earlier now e.time ≡ true) r
    → (elim r [ [] ↦ true | x ∷ _ ↦ earlier now x.time ]) ≡ true
head_test now [] h = refl
head_test now (x ∷ r) h = h.0

-- `__GetExpired` of a valid queue fails no assertion. It gives the timers due at `now` and takes exactly
-- these out of the set: the timers given, followed by those left, are the set before, the given ones are
-- due at `now` or earlier, those left are later, and the queue stays valid.
pub get_expired_lem :
    (q : TimerQueue) (now : Timestamp)
    → IsValid q
    → (expired : List Entry) × (r : TimerQueue) × (get_expired q now ≡ ok (expired, r))
      × IsSplit now q.timers (expired, r.timers)
      × IsValid r
      × (r.heap ≡ q.heap)
unfolding get_expired
get_expired_lem q now v = (
  parts.0,
  record q { timers = parts.1 },
  rw (head_test now parts.1 split.rest) refl,
  split,
  left,
  refl,
)
  where
    parts : List Entry × List Entry
    parts = lower_bound (sentry_at now) q.timers

    split : IsSplit now q.timers parts
    split =
        lower_bound-IsSplit now q.timers v.ordered
          (AllEntries-map (IsLive q) HasAddress q.timers (λ e l. l.address) v.live)

    left : IsValid (record q { timers = parts.1 })
    left = record {
      ordered = IsOrdered-tail parts.0 parts.1 (subst IsOrdered (sym split.all) v.ordered);
      live =
          AllEntries-map (IsLive q) (IsLive (record q { timers = parts.1 })) parts.1
            (λ e l. record {
              timer = l.timer;
              allocated = l.allocated;
              same_time = l.same_time;
              address = l.address;
            })
            (AllEntries-tail (IsLive q) parts.0 parts.1
              (subst (AllEntries (IsLive q)) (sym split.all) v.live));
    }
