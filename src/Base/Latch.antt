-- ===== src/Base/Latch.antt =====
-- base/CCountDownLatch.h and base/CCountDownLatch.cpp: any number of threads that call Wait and CountDown,
-- in any interleaving. A thread is a number above 0, which is its id, too.
pub mod Inv
pub mod Steps
pub mod Exit
mod Tests
use neconet.Prelude.{
  ℕ, suc, ◌≡◌, ◌<◌, Bool, true, false, not, List, Outcome, ok, some, update, ◌==◌, if◌then◌else◌,
}
use neconet.Prelude.Int.{ℤ, pos, ◌-ℤ◌, ltb_ℤ}
use neconet.Base.Mutex.{Mutex, init, lock, unlock, begin_wait, end_wait}

-- Where a thread is. In Wait: before the lock; at the test of the loop; asleep in the condition; awake,
-- before it has the mutex again; behind the loop; returned. In CountDown: before the lock; before the
-- decrement; behind the test; returned. Or elsewhere.
pub data Pc : Type 0 where
  wants_wait testing asleep woken passing passed : Pc
  wants_count counting leaving counted : Pc
  elsewhere : Pc

-- `downs` counts the decrements.
pub record Latch : Type 0 where
  pub mutex : Mutex
  pub count : ℤ
  pub pc : ℕ → Pc
  pub downs : ℕ

-- `m_nCount > 0`, and what `--m_nCount` leaves. The count is an `int`; only 2^31 calls more than the
-- latch was made for would take it below the range of that.
abbrev pub is_open : ℤ → Bool
is_open count = not (ltb_ℤ (pos 0) count)

unfoldable pub decrement : ℤ → ℤ
decrement count = count -ℤ pos 1

abbrev pub is_zero : ℤ → Bool
is_zero (pos n) = n == 0
is_zero _ = false

-- `NotifyAll`.
abbrev pub notified : Pc → Pc
notified asleep = woken
notified p = p

abbrev pub notify_all : (ℕ → Pc) → ℕ → Pc
notify_all pc j = notified (pc j)

-- Thread `i` is at `p` now, and the mutex is `m`.
abbrev pub move : Latch → ℕ → Pc → Mutex → Latch
move s i p m = record s { pc = update s.pc i p; mutex = m }

-- The decrement, and the notification if the count is 0 then.
abbrev pub count_down : Latch → ℕ → Latch
count_down s i =
    let c : ℤ = decrement s.count in
    let pc : ℕ → Pc = update s.pc i leaving in
    record s { count = c; pc = if is_zero c then notify_all pc else pc; downs = suc s.downs }

-- One step of one thread. A sleeping thread may wake up without a notification.
pub data Step (s : Latch) : Latch → Type 0 where
  waits :
      (i : ℕ) {m : Mutex}
      → s.pc i ≡ wants_wait
      → lock s.mutex i ≡ some m
      → Step s (move s i testing m)
  sleeps :
      (i : ℕ) {m : Mutex}
      → s.pc i ≡ testing
      → is_open s.count ≡ false
      → begin_wait s.mutex i ≡ ok m
      → Step s (move s i asleep m)
  wakes : (i : ℕ) → s.pc i ≡ asleep → Step s (move s i woken s.mutex)
  retakes :
      (i : ℕ) {m : Mutex}
      → s.pc i ≡ woken
      → end_wait s.mutex i ≡ some m
      → Step s (move s i testing m)
  goes_on : (i : ℕ) → s.pc i ≡ testing → is_open s.count ≡ true → Step s (move s i passing s.mutex)
  passes :
      (i : ℕ) {m : Mutex} → s.pc i ≡ passing → unlock s.mutex i ≡ ok m → Step s (move s i passed m)
  counts :
      (i : ℕ) {m : Mutex}
      → s.pc i ≡ wants_count
      → lock s.mutex i ≡ some m
      → Step s (move s i counting m)
  counts_down : (i : ℕ) → s.pc i ≡ counting → Step s (count_down s i)
  leaves :
      (i : ℕ) {m : Mutex} → s.pc i ≡ leaving → unlock s.mutex i ≡ ok m → Step s (move s i counted m)

-- Any of the threads may be about to call Wait or CountDown at the start.
abbrev pub is_start : Pc → Bool
is_start wants_wait = true
is_start wants_count = true
is_start elsewhere = true
is_start _ = false

-- The states of a latch that was made for `n`.
pub data Reachable (n : ℕ) : Latch → Type 0 where
  at_first :
      (pc : ℕ → Pc)
      → ((i : ℕ) → is_start (pc i) ≡ true)
      → Reachable n (record { mutex = init; count = pos n; pc = pc; downs = 0 })
  after : {s t : Latch} → Reachable n s → Step s t → Reachable n t
