-- ===== src/Net/Timers/Insert.antt =====
-- __InsertTimer: the new entry goes to its place in the set.
use neconet.Prelude.{
  ℕ, ◌<◌, ◌≡◌, ◌≢◌, refl, ap, true, false, inl, inr, List, [], ◌∷◌, ◌++◌, some, ok, arith,
  Bool-cases,
}
use neconet.Net.Timers.{
  Entry, Timer, TimerQueue, entry_ltb, uintptr_max, is_member, insert, is_earliest, insert_timer,
}
use neconet.Net.Timers.Inv.{IsBefore, IsOrdered, IsLive, AllEntries, IsValid, IsBefore-trans}
use neconet.Net.Timers.Expired.{AllEntries-map}

-- The pointer has no entry.
abbrev pub IsAbsent : ℕ → List Entry → Type 0
IsAbsent p r = AllEntries (λ e. e.timer ≢ p) r

-- Entries of two timers are in order one way or the other.
entry_ltb_total : (x y : Entry) → y.timer ≢ x.timer → entry_ltb x y ≡ false → entry_ltb y x ≡ true
entry_ltb_total x y d h = ground arith

AllEntries-insert :
    (P : Entry → Type 0) (e : Entry) (r : List Entry)
    → P e
    → AllEntries P r
    → AllEntries P (insert e r)
unfolding insert
AllEntries-insert P e [] p h = (p, tt)
AllEntries-insert P e (x ∷ r) p h = elim (Bool-cases (entry_ltb e x)) [
  | inl t ↦ rw t (p, h)
  | inr f ↦ rw f (h.0, AllEntries-insert P e r p h.1)
]

IsBefore-insert :
    (x e : Entry) (r : List Entry) → entry_ltb x e ≡ true → IsBefore x r → IsBefore x (insert e r)
unfolding insert
IsBefore-insert x e [] p h = (p, tt)
IsBefore-insert x e (y ∷ r) p h = elim (Bool-cases (entry_ltb e y)) [
  | inl t ↦ rw t (p, h)
  | inr f ↦ rw f (h.0, IsBefore-insert x e r p h.1)
]

insert-IsOrdered :
    (e : Entry) (r : List Entry) → IsAbsent e.timer r → IsOrdered r → IsOrdered (insert e r)
unfolding insert
insert-IsOrdered e [] a o = (tt, tt)
insert-IsOrdered e (x ∷ r) a o = elim (Bool-cases (entry_ltb e x)) [
  | inl t ↦ rw t ((t, IsBefore-trans e x r t o.0), o)
  | inr f ↦
      rw f (IsBefore-insert x e r (entry_ltb_total e x a.0 f) o.0, insert-IsOrdered e r a.1 o.1)
]

not_member : (e : Entry) (r : List Entry) → IsAbsent e.timer r → is_member e r ≡ false
not_member e [] a = refl
not_member e (x ∷ r) a = elim (Bool-cases (entry_ltb e x)) [
  | inl t ↦ rw (t, not_member e r a.1) refl
  | inr f ↦ rw (f, entry_ltb_total e x a.0 f, not_member e r a.1) refl
]

-- The entries afterwards are those before, with `e` between two parts of them.
pub record IsInserted (e : Entry) (before after : List Entry) : Type 0 where
  pub front : List Entry
  pub back : List Entry
  pub was : front ++ back ≡ before
  pub now : front ++ (e ∷ back) ≡ after

insert-IsInserted : (e : Entry) (r : List Entry) → IsInserted e r (insert e r)
unfolding insert
insert-IsInserted e [] = record { front = []; back = []; was = refl; now = refl }
insert-IsInserted e (x ∷ r) = elim (Bool-cases (entry_ltb e x)) [
  | inl t ↦ rw t (record { front = []; back = x ∷ r; was = refl; now = refl })
  | inr f ↦
      let i = insert-IsInserted e r in
      rw f (record {
        front = x ∷ i.front;
        back = i.back;
        was = ap (λ l. x ∷ l) i.was;
        now = ap (λ l. x ∷ l) i.now;
      })
]

-- `__InsertTimer` of an existing timer without an entry in a valid queue, not at the largest
-- address, fails no assertion. It puts one entry into the set, with the timer's expiration, keeps
-- the queue valid, and says whether the timer expires before the first one of the set.
pub insert_timer_lem :
    (q : TimerQueue) (p : ℕ) (t : Timer)
    → IsValid q
    → q.heap p ≡ some t
    → p < uintptr_max
    → IsAbsent p q.timers
    → (r : TimerQueue) × (insert_timer q p ≡ ok (r, is_earliest t.expiration q.timers))
      × IsValid r
      × IsInserted (record { time = t.expiration; timer = p }) q.timers r.timers
      × (r.heap ≡ q.heap)
unfolding insert_timer
insert_timer_lem q p t v h s a = (
  after,
  rw h (rw (not_member entry q.timers a) refl),
  valid,
  insert-IsInserted entry q.timers,
  refl,
)
  where
    entry : Entry
    entry = record { time = t.expiration; timer = p }

    after : TimerQueue
    after = record q { timers = insert entry q.timers }

    keep : (e : Entry) → IsLive q e → IsLive after e
    keep e l = record {
      timer = l.timer;
      allocated = l.allocated;
      same_time = l.same_time;
      address = l.address;
    }

    valid : IsValid after
    valid = record {
      ordered = insert-IsOrdered entry q.timers a v.ordered;
      live =
          AllEntries-insert (IsLive after) entry q.timers
            (record { timer = t; allocated = h; same_time = refl; address = s })
            (AllEntries-map (IsLive q) (IsLive after) q.timers keep v.live);
    }
