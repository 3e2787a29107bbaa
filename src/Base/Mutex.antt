-- ===== src/Base/Mutex.antt =====
-- base/CMutex.h, base/CMutex.cpp, base/CCondition.h and base/CCondition.cpp: a mutex that knows its holder.
-- `owner` is the kernel's owner of `m_Mutex`. The holder is written only by the owner, so a call of
-- `pthread_mutex_lock` or `pthread_mutex_unlock` and the write next to it are one step.
mod Tests
use neconet.Prelude.{
  ℕ, ◌≡◌, refl, Bool, true, false, Option, none, some, ◌==◌, ==_iff, if◌then◌else◌, Outcome, ok,
  err, not_owner, assertion, assert, ◌>>=◌, ◌>>◌,
}
use neconet.Prelude.Int.{ℤ, ◌+ℤ◌}
use neconet.Base.Timestamp.{to_int64, quotient, remainder}

-- The holder is 0 while there is none: no thread has the id 0.
pub record Mutex : Type 0 where
  pub owner : Option ℕ
  pub holder : ℕ

abbrev pub init : Mutex
init = record { owner = none; holder = 0 }

abbrev pub assign_holder : Mutex → ℕ → Mutex
assign_holder m tid = record m { holder = tid }

abbrev pub unassign_holder : Mutex → Mutex
unassign_holder m = record m { holder = 0 }

abbrev pub is_locked_by : Mutex → ℕ → Bool
is_locked_by m tid = m.holder == tid

unfoldable pub assert_locked : Mutex → ℕ → Outcome (Unit {0})
assert_locked m tid = assert (is_locked_by m tid)

-- The call does not return while another thread, or the thread itself, owns the mutex.
lock_when : Option ℕ → Mutex → ℕ → Option Mutex
lock_when none m tid = some (assign_holder (record m { owner = some tid }) tid)
lock_when (some t) m tid = none

unfoldable pub lock : Mutex → ℕ → Option Mutex
unfolding lock_when
lock m tid = lock_when m.owner m tid

-- An unlock by a thread that is not the owner is undefined.
unlock_when : Option ℕ → Mutex → ℕ → Outcome Mutex
unlock_when none m tid = err not_owner
unlock_when (some t) m tid =
    if t == tid then ok (record (unassign_holder m) { owner = none }) else err not_owner

unfoldable pub unlock : Mutex → ℕ → Outcome Mutex
unfolding unlock_when
unlock m tid = unlock_when m.owner m tid

-- The destructor.
unfoldable pub destroy : Mutex → Outcome (Unit {0})
destroy m = assert (m.holder == 0)

-- `CCondition::Wait` gives the mutex back while the thread sleeps, without a holder, and takes it again
-- before it returns. The guard's two ends are `unassign_holder` and `assign_holder`.
abbrev pub begin_wait : Mutex → ℕ → Outcome Mutex
begin_wait m tid = unlock (unassign_holder m) tid

abbrev pub end_wait : Mutex → ℕ → Option Mutex
end_wait m tid = lock m tid

-- `WaitForSeconds` sleeps the same way, until a deadline, in seconds and nanoseconds, which it computes
-- from the clock and from the delay in nanoseconds: `dSeconds * kNanoSecondsPerSecond`, a floating-point
-- product that is cut to an integer. The sums are of 64 bits, and the delay may be negative.
abbrev pub nano_seconds_per_second : ℕ
nano_seconds_per_second = 1000000000

unfoldable pub deadline : ℤ → ℤ → ℤ → Outcome (ℤ × ℤ)
deadline sec nsec nano_seconds = do
  sum ← to_int64 (sec +ℤ nano_seconds)
  tv_sec ← to_int64 (sec +ℤ quotient sum nano_seconds_per_second)
  rest ← to_int64 (nsec +ℤ nano_seconds)
  ok (tv_sec, remainder rest nano_seconds_per_second)

-- Its result, from what `pthread_cond_timedwait` answers: is that ETIMEDOUT?
abbrev pub timed_out : ℕ → Bool
timed_out answer = answer == 110

-- A mutex that a thread holds.
abbrev pub taken : ℕ → Mutex
taken tid = record { owner = some tid; holder = tid }

lock_when_lem :
    (o : Option ℕ) (m m' : Mutex) (tid : ℕ)
    → lock_when o m tid ≡ some m'
    → (o ≡ none) × (m' ≡ taken tid)
unfolding lock_when
lock_when_lem none m m' tid e = (refl, cc)
lock_when_lem (some t) m m' tid e = cc

-- A lock that returns found the mutex free, and the thread is its owner and holder then.
pub lock_lem : (m m' : Mutex) (tid : ℕ) → lock m tid ≡ some m' → (m.owner ≡ none) × (m' ≡ taken tid)
unfolding lock
lock_lem m m' tid e = lock_when_lem m.owner m m' tid e

pub lock_free : (m : Mutex) (tid : ℕ) → m.owner ≡ none → lock m tid ≡ some (taken tid)
unfolding lock lock_when
lock_free m tid e = rw e refl

pub unlock-taken : (tid : ℕ) → unlock (taken tid) tid ≡ ok init
unfolding unlock unlock_when
unlock-taken tid = rw ((==_iff tid tid).1 refl) refl

pub begin_wait-taken : (tid : ℕ) → begin_wait (taken tid) tid ≡ ok init
unfolding unlock unlock_when
begin_wait-taken tid = rw ((==_iff tid tid).1 refl) refl
