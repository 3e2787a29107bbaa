-- ===== src/Net/Timers/Inv.antt =====
-- The invariant of CTimerQueue: the set is ordered, and its timers exist.
use neconet.Prelude.{◌<◌, ◌≡◌, true, List, [], ◌∷◌, some, arith}
use neconet.Net.Timers.{Entry, Timer, TimerQueue, entry_ltb, uintptr_max}

-- `e` stands before all entries, and the entries are in strict order.
abbrev pub IsBefore : Entry → List Entry → Type 0
IsBefore e [] = Unit {0}
IsBefore e (x ∷ r) = (entry_ltb e x ≡ true) × IsBefore e r

abbrev pub IsOrdered : List Entry → Type 0
IsOrdered [] = Unit {0}
IsOrdered (x ∷ r) = IsBefore x r × IsOrdered r

-- An entry carries the expiration of its timer, whose address is not the largest one.
pub record IsLive (q : TimerQueue) (e : Entry) : Type 0 where
  pub timer : Timer
  pub allocated : q.heap e.timer ≡ some timer
  pub same_time : timer.expiration ≡ e.time
  pub address : e.timer < uintptr_max

abbrev pub AllEntries : (Entry → Type 0) → List Entry → Type 0
AllEntries P [] = Unit {0}
AllEntries P (x ∷ r) = P x × AllEntries P r

pub record IsValid (q : TimerQueue) : Type 0 where
  pub ordered : IsOrdered q.timers
  pub live : AllEntries (IsLive q) q.timers

pub entry_ltb_trans :
    (x y z : Entry) → entry_ltb x y ≡ true → entry_ltb y z ≡ true → entry_ltb x z ≡ true
entry_ltb_trans x y z h k = ground arith

pub IsBefore-trans :
    (x y : Entry) (r : List Entry) → entry_ltb x y ≡ true → IsBefore y r → IsBefore x r
IsBefore-trans x y [] h k = tt
IsBefore-trans x y (z ∷ r) h k = (entry_ltb_trans x y z h k.0, IsBefore-trans x y r h k.1)
