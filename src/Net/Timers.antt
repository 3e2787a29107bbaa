-- ===== src/Net/Timers.antt =====
-- net/CTimer.h, net/CTimer.cpp, net/CTimerQueue.h and net/CTimerQueue.cpp: timers and the ordered set of
-- them. Timers are objects on a heap: a pointer is a number.
pub mod Inv
pub mod Expired
pub mod Insert
pub mod Restart
pub mod Reset
pub mod Alarm
mod Pass
mod Tests
use neconet.Prelude.{
  update, ℕ, ◌-◌, ◌*◌, ◌/◌, ◌%◌, ◌^◌, Bool, true, false, not, ◌&&◌, ◌||◌, List, [], ◌∷◌, Option,
  none, some, ltb, ◌==◌, if◌then◌else◌, Outcome, ok, err, ◌>>=◌, ◌>>◌, assert,
}
use neconet.Prelude.Int.{ℤ, pos, negsuc, ltb_ℤ}
use neconet.Base.Timestamp.{
  Timestamp, earlier, is_valid, invalid, add_time, difference, quotient, remainder,
  micro_seconds_per_second,
}
use neconet.Net.Poller.{deref}

-- `m_dfInterval` is a number of seconds: `interval` is the delay that `AddTime` computes from it.
pub record Timer : Type 0 where
  pub expiration : Timestamp
  pub interval : ℤ
  pub repeat : Bool

-- The constructor. `repeat` is `dfInterval > 0.0`.
abbrev pub new_timer : Timestamp → ℤ → Timer
new_timer when interval = record {
  expiration = when;
  interval = interval;
  repeat = ltb_ℤ (pos 0) interval;
}

pub restart : Timer → Timestamp → Outcome Timer
restart t now =
    if t.repeat
    then (add_time now t.interval >>= λ e. ok (record t { expiration = e }))
    else ok (record t { expiration = invalid })

pub record Entry : Type 0 where
  pub time : Timestamp
  pub timer : ℕ

-- The order of `std::pair`, which the set uses.
abbrev pub entry_ltb : Entry → Entry → Bool
entry_ltb x y = earlier x.time y.time || (not (earlier y.time x.time) && ltb x.timer y.timer)

-- The time, in whole seconds and nanoseconds, that `timerfd_settime` gets.
pub record Timespec : Type 0 where
  pub tv_sec : ℤ
  pub tv_nsec : ℤ

-- `timers` is the set, in order; `alarm`, what the timer descriptor was last set to.
pub record TimerQueue : Type 0 where
  pub timers : List Entry
  pub heap : ℕ → Option Timer
  pub alarm : Option Timespec

-- A queue after its constructor.
abbrev pub init : TimerQueue
init = record { timers = []; heap = λ p. none; alarm = none }

-- The destructor deletes the timers of the set.
unfoldable pub destroy : List Entry → (ℕ → Option Timer) → ℕ → Option Timer
destroy [] heap = heap
destroy (e ∷ r) heap = destroy r (update heap e.timer none)

abbrev pub minimal_delay : ℕ
minimal_delay = 100

abbrev pub at_least_minimal : ℤ → ℤ
at_least_minimal d = if ltb_ℤ d (pos minimal_delay) then pos minimal_delay else d

abbrev pub times_thousand : ℤ → ℤ
times_thousand (pos n) = pos (n * 1000)
times_thousand (negsuc n) = negsuc (n * 1000 - 1)

abbrev pub timespec_of : ℤ → Timespec
timespec_of d = record {
  tv_sec = quotient d micro_seconds_per_second;
  tv_nsec = times_thousand (remainder d micro_seconds_per_second);
}

-- `now` is the time that `GetNowTimestamp` reads.
pub how_much_time_from_now : Timestamp → Timestamp → Outcome Timespec
how_much_time_from_now when now = do d ← difference when now; ok (timespec_of (at_least_minimal d))

pub reset_timer_fd : TimerQueue → Timestamp → Timestamp → Outcome TimerQueue
unfolding how_much_time_from_now
reset_timer_fd q expiration now = do
  delay ← how_much_time_from_now expiration now
  ok (record q { alarm = some delay })

-- `std::set::insert`, which puts an entry where the order wants it, unless it is there.
abbrev pub is_member : Entry → List Entry → Bool
is_member e [] = false
is_member e (x ∷ r) = (not (entry_ltb e x) && not (entry_ltb x e)) || is_member e r

unfoldable pub insert : Entry → List Entry → List Entry
insert e [] = e ∷ []
insert e (x ∷ r) = let rest = insert e r in if entry_ltb e x then e ∷ (x ∷ r) else x ∷ rest

-- Is a timer at `when` earlier than all in the set?
abbrev pub is_earliest : Timestamp → List Entry → Bool
is_earliest when [] = true
is_earliest when (x ∷ r) = earlier when x.time

unfoldable pub insert_timer : TimerQueue → ℕ → Outcome (TimerQueue × Bool)
unfolding insert
insert_timer q p = do
  timer ← deref (q.heap p)
  let entry : Entry = record { time = timer.expiration; timer = p }
  assert (not (is_member entry q.timers))
  ok (record q { timers = insert entry q.timers }, is_earliest timer.expiration q.timers)

pub add_timer_in_loop : TimerQueue → ℕ → Timestamp → Outcome TimerQueue
unfolding insert_timer reset_timer_fd
add_timer_in_loop q p now = do
  (inserted, earliest_changed) ← insert_timer q p
  timer ← deref (q.heap p)
  if earliest_changed then reset_timer_fd inserted timer.expiration now else ok inserted

-- `AddTimer` makes the timer at a new pointer `p`, and has it added by the loop.
pub add_timer : TimerQueue → ℕ → Timer → Timestamp → Outcome TimerQueue
unfolding add_timer_in_loop
add_timer q p timer now = add_timer_in_loop (record q { heap = update q.heap p (some timer) }) p now

-- The largest pointer value, `UINTPTR_MAX`.
abbrev pub uintptr_max : ℕ
uintptr_max = 2 ^ 64 - 1

-- `lower_bound`: the entries before the first one that is not less than `sentry`, and the rest.
unfoldable pub lower_bound : Entry → List Entry → List Entry × List Entry
lower_bound sentry [] = ([], [])
lower_bound sentry (x ∷ r) =
    let rest = lower_bound sentry r in
    if entry_ltb x sentry then (x ∷ rest.0, rest.1) else ([], x ∷ r)

unfoldable pub get_expired : TimerQueue → Timestamp → Outcome (List Entry × TimerQueue)
unfolding lower_bound
get_expired q now = do
  let (expired, rest) = lower_bound (record { time = now; timer = uintptr_max }) q.timers
  assert (elim rest [ [] ↦ true | x ∷ _ ↦ earlier now x.time ])
  ok (expired, record q { timers = rest })

unfoldable pub start_again : TimerQueue → ℕ → Timer → Timestamp → Outcome TimerQueue
unfolding restart insert_timer
start_again q p timer now = do
  again ← restart timer now
  r ← insert_timer (record q { heap = update q.heap p (some again) }) p
  ok r.0

-- One expired timer starts again, or is deleted.
unfoldable pub reset_timer : TimerQueue → ℕ → Timestamp → Outcome TimerQueue
unfolding start_again
reset_timer q p now = do
  timer ← deref (q.heap p)
  if timer.repeat then start_again q p timer now else ok (record q { heap = update q.heap p none })

unfoldable pub reset_all : TimerQueue → List Entry → Timestamp → Outcome TimerQueue
unfolding reset_timer
reset_all q [] now = ok q
reset_all q (e ∷ r) now = reset_timer q e.timer now >>= λ q'. reset_all q' r now

-- `now'` is the time at which `HowMuchTimeFromNow` asks again.
pub reset_timers : TimerQueue → List Entry → Timestamp → Timestamp → Outcome TimerQueue
unfolding reset_all reset_timer_fd
reset_timers q expired now now' = do
  r ← reset_all q expired now
  next ← elim r.timers [
    | [] ↦ ok invalid
    | x ∷ _ ↦ deref (r.heap x.timer) >>= λ timer. ok timer.expiration
  ]
  if is_valid next then reset_timer_fd r next now' else ok r

-- The callbacks of the expired timers: what each does to the queue is a parameter.
abbrev pub run_timers :
    (ℕ → TimerQueue → Outcome TimerQueue) → TimerQueue → List Entry → Outcome TimerQueue
run_timers callback q [] = ok q
run_timers callback q (e ∷ r) = callback e.timer q >>= λ q'. run_timers callback q' r

pub handle_read :
    (ℕ → TimerQueue → Outcome TimerQueue) → TimerQueue → Timestamp → Timestamp → Outcome TimerQueue
unfolding get_expired reset_timers
handle_read callback q now now' = do
  (expired, r) ← get_expired q now
  s ← run_timers callback r expired
  reset_timers s expired now now'
