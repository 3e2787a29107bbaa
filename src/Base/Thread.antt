-- ===== src/Base/Thread.antt =====
-- base/CThread.h, base/CThread.cpp, base/CThreadData.h and base/CThreadData.cpp: a thread object, and what the
-- new thread does. What `pthread_create` answers is an argument.
pub mod Start
mod Tests
use neconet.Prelude.{
  ℕ, zero, suc, ◌≡◌, ◌≢◌, ◌<◌, Bool, true, false, not, ◌&&◌, List, [], ◌∷◌, ◌++◌, ltb,
  if◌then◌else◌, update, Outcome, ok, err, ◌>>=◌, ◌>>◌, assert,
}
use neconet.Prelude.Int.{ℤ}
use neconet.Base.Text.{Text, signed, snprintf}
use neconet.Base.Atomic.{increment_and_get}
use neconet.Base.Latch.{Pc, Latch, Step, wants_wait, wants_count, elsewhere}

-- `detached` says whether the destructor gave the thread away.
pub record Thread : Type 0 where
  pub started : Bool
  pub joined : Bool
  pub detached : Bool
  pub tid : ℕ
  pub name : Text

-- `Thread%d`, in a buffer of 32 bytes.
abbrev pub default_name : ℤ → Text
default_name num = snprintf 32 (b'T' ∷ b'h' ∷ b'r' ∷ b'e' ∷ b'a' ∷ b'd' ∷ signed num)

-- The constructor counts all thread objects in one atomic integer. The result is the thread, and the
-- counter afterwards.
unfoldable pub construct : ℤ → Text → Outcome (Thread × ℤ)
unfolding increment_and_get
construct num_created name = do
  (num, next) ← increment_and_get 31 num_created
  ok (
    record {
      started = false;
      joined = false;
      detached = false;
      tid = 0;
      name = elim name [ [] ↦ default_name num | c ∷ rest ↦ c ∷ rest ];
    },
    next,
  )

-- Start, up to `pthread_create`; when that fails; and when the wait for the latch is over.
unfoldable pub begin_start : Thread → Outcome Thread
begin_start t = do assert (not t.started); ok (record t { started = true })

abbrev pub create_failed : Thread → Thread
create_failed t = record t { started = false }

unfoldable pub end_start : Thread → Outcome Thread
end_start t = do assert (ltb 0 t.tid); ok t

unfoldable pub join : Thread → Outcome Thread
join t = do assert t.started; assert (not t.joined); ok (record t { joined = true })

unfoldable pub destroy : Thread → Thread
destroy t = if t.started && not t.joined then record t { detached = true } else t

-- How the thread's function ends.
pub data Ending : Type 0 where
  returns throws_exception throws_std_exception throws_other : Ending

-- What becomes of the thread after `RunInThread`: it goes on, the process aborts, or the exception goes on.
pub data Fate : Type 0 where
  goes_on aborts rethrows : Fate

abbrev pub crashed : Text
crashed = b'c' ∷ b'r' ∷ b'a' ∷ b's' ∷ b'h' ∷ b'e' ∷ b'd' ∷ []

abbrev pub finished : Text
finished = b'f' ∷ b'i' ∷ b'n' ∷ b'i' ∷ b's' ∷ b'h' ∷ b'e' ∷ b'd' ∷ []

-- The thread's name while its function runs, and its name and fate afterwards.
abbrev pub running_name : Text → Text
running_name [] = b'n' ∷ b'e' ∷ b'c' ∷ b'o' ∷ b'T' ∷ b'h' ∷ b'r' ∷ b'e' ∷ b'a' ∷ b'd' ∷ []
running_name (c ∷ name) = c ∷ name

unfoldable pub after_function : Ending → Text × Fate
after_function returns = (finished, goes_on)
after_function throws_exception = (crashed, aborts)
after_function throws_std_exception = (crashed, aborts)
after_function throws_other = (crashed, rethrows)

-- The start of a thread, by the starter and the new thread, `child`, over a latch made for one call.
-- `tid` is `m_tid`, 0 until the child writes it.
pub record Starting : Type 0 where
  pub latch : Latch
  pub tid : ℕ

-- The child writes its id before it calls CountDown: until then it makes no step on the latch.
pub data StartStep (child : ℕ) (s : Starting) : Starting → Type 0 where
  writes : s.tid ≡ 0 → StartStep child s (record s { tid = child })
  on_latch :
      {l : Latch}
      → Step s.latch l
      → (s.tid ≡ 0 → l.pc child ≡ s.latch.pc child)
      → StartStep child s (record s { latch = l })

-- At first the starter is before its Wait, and the child before its CountDown.
abbrev pub first_place : ℕ → ℕ → ℕ → Pc
first_place starter child = update (update (λ j. elsewhere) starter wants_wait) child wants_count

abbrev pub start_state : ℕ → ℕ → Starting
start_state starter child = record {
  latch = record {
    mutex = neconet.Base.Mutex.init;
    count = neconet.Prelude.Int.pos 1;
    pc = first_place starter child;
    downs = 0;
  };
  tid = 0;
}

pub data Started (starter child : ℕ) : Starting → Type 0 where
  at_first : Started starter child (start_state starter child)
  after : {s t : Starting} → Started starter child s → StartStep child s t → Started starter child t
