-- ===== src/Net/EventLoop/Tests.antt =====
-- A loop of thread 1, made with the timer descriptor 4 and the wakeup descriptor 5.
use neconet.Prelude.{◌≡◌, refl, none, some, ok, err, aborted}
use neconet.Net.Poller.Fixtures.{empty}
use neconet.Net.Sockets.{failed}
use neconet.Net.EventLoop.{EventLoop, destroy, create_event_fd, registered, quit}

no_event_fd : create_event_fd (failed 24) ≡ err aborted
unfolding create_event_fd
no_event_fd = refl

abbrev fresh : EventLoop
fresh = record {
  thread_id = 1;
  poller = empty;
  timers = neconet.Net.Timers.init;
  functors = neconet.Net.Loop.init;
}

-- A second loop of the same thread does not take the place of the first, but its destructor clears it.
second_registered : registered (some 8) 9 ≡ some 8
second_registered = refl

cleared : destroy fresh ≡ ok none
unfolding destroy
cleared = refl

quit_flag : (quit fresh 2).functors.owing ≡ 1
unfolding quit
quit_flag = refl
