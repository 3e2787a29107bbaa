-- ===== src/Net/EventLoop.antt =====
-- net/CEventLoop.h and net/CEventLoop.cpp: the constructor and destructor, and the calls that look at the
-- calling thread. What the loop does with its functors stands in Net/Loop.antt; here `functors` is that
-- state, next to the poller and the timers.
pub mod Make
mod Tests
use neconet.Prelude.{
  ℕ, Bool, true, false, not, Option, none, some, [], Outcome, ok, err, assert, aborted, ◌==◌,
  if◌then◌else◌, ◌>>=◌, ◌>>◌, update,
}
use neconet.Prelude.Int.{ℤ, pos}
use neconet.Base.Timestamp.{Timestamp, add_time}
use neconet.Net.Channel.{Channel}
use neconet.Net.Poller.{Poller, watch, update_channel, remove_channel}
use neconet.Net.Sockets.{Answer, done, failed}
use neconet.Net.Timers.{Timer, TimerQueue, new_timer, add_timer_in_loop}
use neconet.Net.Loop.{Loop, queue_in_loop, queue_from_outside, quit_loop, quit_from_outside}

pub record EventLoop : Type 0 where
  pub thread_id : ℕ
  pub poller : Poller
  pub timers : TimerQueue
  pub functors : Loop

-- Without an event descriptor the program stops.
unfoldable pub create_event_fd : Answer ℕ → Outcome ℕ
create_event_fd (done fd) = ok fd
create_event_fd (failed errno) = err aborted

-- The thread's own pointer to its loop. A second loop of a thread is only reported.
abbrev pub registered : Option ℕ → ℕ → Option ℕ
registered none this = some this
registered (some other) this = some other

abbrev pub empty_poller : (ℕ → Channel) → Poller
empty_poller heap = record { poll_fds = []; channels_map = λ fd. none; heap = heap }

-- The constructor, in the thread `tid`: the timer queue at the timer descriptor, with its channel at `q`,
-- and the wakeup descriptor, with its channel at `r`.
unfoldable pub construct :
    (ℕ → Channel) → ℕ → ℕ → Option ℕ → ℕ → Answer ℕ → ℕ → ℕ → Outcome (EventLoop × Option ℕ)
unfolding create_event_fd
construct heap tid this of_thread timer_fd event q r = do
  with_timers ← watch (empty_poller heap) q timer_fd
  wakeup_fd ← create_event_fd event
  with_wakeup ← watch with_timers r wakeup_fd
  ok (
    record {
      thread_id = tid;
      poller = with_wakeup;
      timers = neconet.Net.Timers.init;
      functors = neconet.Net.Loop.init;
    },
    registered of_thread this,
  )

-- The destructor clears the pointer of the calling thread, whichever loop it leads to.
unfoldable pub destroy : EventLoop → Outcome (Option ℕ)
destroy l = do assert (not l.functors.in_looping); ok none

abbrev pub is_in_loop_thread : EventLoop → ℕ → Bool
is_in_loop_thread l tid = l.thread_id == tid

-- `owner` is the loop of the channel, and `this` the loop that is called.
pub update_own_channel : EventLoop → ℕ → ℕ → ℕ → Outcome EventLoop
update_own_channel l this owner p = do
  assert (owner == this)
  t ← update_channel l.poller p
  ok (record l { poller = t })

pub remove_own_channel : EventLoop → ℕ → ℕ → ℕ → Outcome EventLoop
remove_own_channel l this owner p = do
  assert (owner == this)
  t ← remove_channel l.poller p
  ok (record l { poller = t })

-- `QueueInLoop` and `QuitLoop`, up to the wakeup that another thread owes then.
unfoldable pub queue : EventLoop → ℕ → ℕ → EventLoop
queue l tid f =
    if is_in_loop_thread l tid
    then record l { functors = queue_in_loop l.functors f }
    else record l { functors = queue_from_outside l.functors f }

unfoldable pub quit : EventLoop → ℕ → EventLoop
quit l tid =
    if is_in_loop_thread l tid
    then record l { functors = quit_loop l.functors }
    else record l { functors = quit_from_outside l.functors }

-- `RunInLoop` of the functor `f`, which does `call`.
unfoldable pub run_in_loop : EventLoop → ℕ → ℕ → (EventLoop → Outcome EventLoop) → Outcome EventLoop
unfolding queue
run_in_loop l tid f call = if is_in_loop_thread l tid then call l else ok (queue l tid f)

-- The functor that `AddTimer` gives to `RunInLoop`.
unfoldable pub add_in_loop : ℕ → Timestamp → EventLoop → Outcome EventLoop
add_in_loop p now l = do t ← add_timer_in_loop l.timers p now; ok (record l { timers = t })

-- `AddTimer`, with a new timer at the pointer `p`.
unfoldable pub add_timer : EventLoop → ℕ → ℕ → ℕ → Timestamp → ℤ → Timestamp → Outcome EventLoop
unfolding run_in_loop add_in_loop
add_timer l tid p f when interval now =
    let timers : TimerQueue = record l.timers {
      heap = update l.timers.heap p (some (new_timer when interval));
    } in
    run_in_loop (record l { timers = timers }) tid f (add_in_loop p now)

-- `now` is the clock at the call, and `now'` the one that `__AddTimerInLoop` reads.
unfoldable pub run_at : EventLoop → ℕ → ℕ → ℕ → Timestamp → Timestamp → Outcome EventLoop
unfolding add_timer
run_at l tid p f time now' = add_timer l tid p f time (pos 0) now'

unfoldable pub run_after : EventLoop → ℕ → ℕ → ℕ → ℤ → Timestamp → Timestamp → Outcome EventLoop
unfolding run_at
run_after l tid p f delay now now' = do time ← add_time now delay; run_at l tid p f time now'

unfoldable pub run_every : EventLoop → ℕ → ℕ → ℕ → ℤ → Timestamp → Timestamp → Outcome EventLoop
unfolding add_timer
run_every l tid p f interval now now' = do
  time ← add_time now interval
  add_timer l tid p f time interval now'
