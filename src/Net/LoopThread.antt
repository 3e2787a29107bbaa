-- ===== src/Net/LoopThread.antt =====
-- net/CEventLoopThread.h and net/CEventLoopThread.cpp: the caller's thread `a` and the loop's thread `b`, in any
-- interleaving, with calls of QuitLoop by anybody else in between. How CThread starts a thread is modelled
-- in Base/Thread.antt.
pub mod Inv
pub mod Quit
mod Tests
use neconet.Prelude.{ℕ, ◌≡◌, ◌⊎◌, Bool, true, false, some, ok}
use neconet.Base.Mutex.{Mutex, init, lock, unlock, begin_wait, end_wait}

-- The caller: before StartLoop; before the lock; at the test of the loop; asleep; awake, before it has the
-- mutex again; behind the loop; returned; in the destructor, before and after the thread has ended.
pub data Caller : Type 0 where
  outside wants testing asleep woken leaving returned joining joined : Caller

-- The loop's thread: not there; in the loop's constructor; before the lock; before it writes
-- `m_iEventLoop`; behind that; before and in `StartLoop` of the loop; at the end.
pub data Child : Type 0 where
  absent constructing locking setting releasing entering looping ended : Child

-- `event_loop` says whether `m_iEventLoop` is set; `quit` is `m_bQuit` of the loop. `asked` says whether
-- anybody but the destructor called `QuitLoop`, and `dangling` whether the destructor called it when the
-- loop, a local variable of its thread, was gone.
pub record LoopThread : Type 0 where
  pub mutex : Mutex
  pub event_loop : Bool
  pub exiting : Bool
  pub quit : Bool
  pub asked : Bool
  pub dangling : Bool
  pub caller : Caller
  pub child : Child

abbrev pub start : LoopThread
start = record {
  mutex = init;
  event_loop = false;
  exiting = false;
  quit = false;
  asked = false;
  dangling = false;
  caller = outside;
  child = absent;
}

-- `Notify`: the caller is the only one that may sleep.
abbrev pub notified : Caller → Caller
notified asleep = woken
notified c = c

abbrev pub caller_to : LoopThread → Caller → Mutex → LoopThread
caller_to s c m = record s { caller = c; mutex = m }

abbrev pub child_to : LoopThread → Child → Mutex → LoopThread
child_to s k m = record s { child = k; mutex = m }

-- The thread writes the pointer and notifies.
abbrev pub set_loop : LoopThread → LoopThread
set_loop s = record s { event_loop = true; caller = notified s.caller; child = releasing }

-- `StartLoop` of the loop begins with `m_bQuit = false`.
abbrev pub enter_loop : LoopThread → LoopThread
enter_loop s = record s { quit = false; child = looping }

-- Is the loop's thread at its end, and the loop destroyed?
abbrev pub is_ended : Child → Bool
is_ended ended = true
is_ended _ = false

-- The destructor, up to the join. It calls `QuitLoop` of the loop.
abbrev pub quit_loop : LoopThread → LoopThread
quit_loop s = record s {
  exiting = true;
  quit = true;
  dangling = is_ended s.child;
  caller = joining;
}

-- `StartLoop` has returned the loop: whoever has the pointer may call `QuitLoop`, and so may the functors and
-- handlers that the running loop calls.
abbrev pub is_known : Caller → Bool
is_known returned = true
is_known joining = true
is_known _ = false

abbrev pub ask_quit : LoopThread → LoopThread
ask_quit s = record s { quit = true; asked = true }

pub data Step (a b : ℕ) (s : LoopThread) : LoopThread → Type 0 where
  -- StartLoop asserts that the thread is not started.
  starts :
      s.caller ≡ outside
      → s.child ≡ absent
      → Step a b s (record s { caller = wants; child = constructing })
  locks :
      {m : Mutex} → s.caller ≡ wants → lock s.mutex a ≡ some m → Step a b s (caller_to s testing m)
  sleeps :
      {m : Mutex}
      → s.caller ≡ testing
      → s.event_loop ≡ false
      → begin_wait s.mutex a ≡ ok m
      → Step a b s (caller_to s asleep m)
  wakes : s.caller ≡ asleep → Step a b s (caller_to s woken s.mutex)
  retakes :
      {m : Mutex}
      → s.caller ≡ woken
      → end_wait s.mutex a ≡ some m
      → Step a b s (caller_to s testing m)
  goes_on : s.caller ≡ testing → s.event_loop ≡ true → Step a b s (caller_to s leaving s.mutex)
  returns :
      {m : Mutex}
      → s.caller ≡ leaving
      → unlock s.mutex a ≡ ok m
      → Step a b s (caller_to s returned m)
  quits : s.caller ≡ returned → Step a b s (quit_loop s)
  -- Not after the loop is destroyed: that call is undefined.
  others_quit :
      (is_known s.caller ≡ true) ⊎ (s.child ≡ looping)
      → is_ended s.child ≡ false
      → Step a b s (ask_quit s)
  joins : s.caller ≡ joining → s.child ≡ ended → Step a b s (caller_to s joined s.mutex)
  constructs : s.child ≡ constructing → Step a b s (child_to s locking s.mutex)
  child_locks :
      {m : Mutex} → s.child ≡ locking → lock s.mutex b ≡ some m → Step a b s (child_to s setting m)
  sets : s.child ≡ setting → Step a b s (set_loop s)
  child_unlocks :
      {m : Mutex}
      → s.child ≡ releasing
      → unlock s.mutex b ≡ ok m
      → Step a b s (child_to s entering m)
  enters : s.child ≡ entering → Step a b s (enter_loop s)
  ends : s.child ≡ looping → s.quit ≡ true → Step a b s (child_to s ended s.mutex)

pub data Reachable (a b : ℕ) : LoopThread → Type 0 where
  at_first : Reachable a b start
  after : {s t : LoopThread} → Reachable a b s → Step a b s t → Reachable a b t
