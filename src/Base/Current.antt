-- ===== src/Base/Current.antt =====
-- base/CurrentThread.h and base/CurrentThread.cpp: the thread-local variables, the sleep and the text of a
-- stack trace. What the kernel, `backtrace_symbols` and the demangler answer are arguments.
pub mod Trace
mod Tests
use neconet.Prelude.{
  ℕ, zero, suc, ◌+◌, ◌-◌, Bool, true, false, List, [], ◌∷◌, ◌++◌, Option, none, some, length, take,
  drop, ltb, ◌==◌, if◌then◌else◌,
}
use neconet.Prelude.Int.{ℤ}
use neconet.Base.Text.{Text, decimal, padded, snprintf}
use neconet.Base.Timestamp.{quotient, remainder, micro_seconds_per_second}

pub record Locals : Type 0 where
  pub cached_tid : ℕ
  pub tid_string : Text
  pub tid_string_length : ℕ
  pub thread_name : Text

abbrev pub main_name : Text
main_name = b'm' ∷ b'a' ∷ b'i' ∷ b'n' ∷ []

abbrev pub init : Locals
init = record {
  cached_tid = 0;
  tid_string = [];
  tid_string_length = 6;
  thread_name = b'u' ∷ b'n' ∷ b'k' ∷ b'n' ∷ b'o' ∷ b'w' ∷ b'n' ∷ [];
}

-- `kernel_tid` is what `gettid` answers. `snprintf` gives the length of the whole text.
unfoldable pub cache_tid : Locals → ℕ → Locals
cache_tid l kernel_tid =
    let text : Text = padded b' ' 5 (decimal kernel_tid) in
    if l.cached_tid == 0
    then record l {
      cached_tid = kernel_tid;
      tid_string = snprintf 32 text;
      tid_string_length = length text;
    }
    else l

-- `Tid`: the id, and the variables afterwards.
unfoldable pub tid : Locals → ℕ → ℕ × Locals
unfolding cache_tid
tid l kernel_tid =
    let m : Locals = if l.cached_tid == 0 then cache_tid l kernel_tid else l in (m.cached_tid, m)

-- In the child of a fork, and in the initializer of the main thread.
unfoldable pub after_fork : Locals → ℕ → Locals
unfolding tid
after_fork l kernel_tid = (tid (record l { cached_tid = 0; thread_name = main_name }) kernel_tid).1

pub initialize_name : Locals → ℕ → Locals
unfolding tid
initialize_name l kernel_tid = (tid (record l { thread_name = main_name }) kernel_tid).1

pub is_main_thread : Locals → ℕ → ℕ → Bool
unfolding tid
is_main_thread l kernel_tid pid = (tid l kernel_tid).0 == pid

-- What `SleepUsec` gives to `nanosleep`: seconds and nanoseconds.
unfoldable pub sleep_time : ℤ → ℤ × ℤ
sleep_time usec = (quotient usec micro_seconds_per_second, remainder usec micro_seconds_per_second)

-- The loop that looks for a character keeps the last place where it stands.
unfoldable pub last_index : ℕ → Text → Option ℕ
last_index c [] = none
last_index c (d ∷ t) = elim (last_index c t) [
  | some i ↦ some (suc i)
  | none ↦ if d == c then some 0 else none
]

-- The name between the places: the end mark stands at `plus` while the demangler reads from behind
-- `left`. If `plus` is not behind `left`, it reads to the end of the line.
abbrev pub mangled : Text → ℕ → ℕ → Text
mangled t left plus =
    if ltb left plus then take (plus - suc left) (drop (suc left) t) else drop (suc left) t

-- A line with its name demangled.
abbrev pub replaced : Text → ℕ → ℕ → Text → Text
replaced t left plus name = take (suc left) t ++ (name ++ drop plus t)

unfoldable pub line_at : (Text → Option Text) → Text → Option ℕ → Option ℕ → Text
line_at demangle t (some left) (some plus) = elim (demangle (mangled t left plus)) [
  | some name ↦ replaced t left plus name
  | none ↦ t
]
line_at demangle t _ _ = t

unfoldable pub line : (Text → Option Text) → Bool → Text → Text
unfolding last_index line_at
line demangle true t = line_at demangle t (last_index b'(' t) (last_index b'+' t)
line demangle false t = t

unfoldable pub lines : (Text → Option Text) → Bool → List Text → Text
unfolding line
lines demangle wanted [] = []
lines demangle wanted (t ∷ ts) = line demangle wanted t ++ (b'\n' ∷ lines demangle wanted ts)

-- The first frame is this function's own. `backtrace_symbols` may fail.
unfoldable pub stack_trace : (Text → Option Text) → Bool → Option (List Text) → Text
unfolding lines
stack_trace demangle wanted none = []
stack_trace demangle wanted (some []) = []
stack_trace demangle wanted (some (own ∷ frames)) = lines demangle wanted frames
