-- ===== src/Net/Channel.antt =====
-- net/CChannel.h and net/CChannel.cpp: one descriptor, the events that it waits for and its callbacks.
use neconet.Prelude.{ℕ, Bool, true, false, not, ◌&&◌, ◌||◌, List, [], ◌∷◌, ◌++◌, if◌then◌else◌}
use neconet.Prelude.Int.{ℤ, negsuc}

-- An `int` of poll events by its bits: POLLIN, POLLPRI, POLLOUT, POLLERR, POLLHUP, POLLNVAL and
-- POLLRDHUP.
pub record Events : Type 0 where
  pub pollin : Bool
  pub pollpri : Bool
  pub pollout : Bool
  pub pollerr : Bool
  pub pollhup : Bool
  pub pollnval : Bool
  pub pollrdhup : Bool

abbrev pub none_event : Events
none_event = record {
  pollin = false;
  pollpri = false;
  pollout = false;
  pollerr = false;
  pollhup = false;
  pollnval = false;
  pollrdhup = false;
}

abbrev pub read_event : Events
read_event = record none_event { pollin = true; pollpri = true }

abbrev pub write_event : Events
write_event = record none_event { pollout = true }

-- `a | b`, `a & ~b`, and `(a & b) != 0`.
abbrev pub union : Events → Events → Events
union a b = record {
  pollin = a.pollin || b.pollin;
  pollpri = a.pollpri || b.pollpri;
  pollout = a.pollout || b.pollout;
  pollerr = a.pollerr || b.pollerr;
  pollhup = a.pollhup || b.pollhup;
  pollnval = a.pollnval || b.pollnval;
  pollrdhup = a.pollrdhup || b.pollrdhup;
}

abbrev pub without : Events → Events → Events
without a b = record {
  pollin = a.pollin && not b.pollin;
  pollpri = a.pollpri && not b.pollpri;
  pollout = a.pollout && not b.pollout;
  pollerr = a.pollerr && not b.pollerr;
  pollhup = a.pollhup && not b.pollhup;
  pollnval = a.pollnval && not b.pollnval;
  pollrdhup = a.pollrdhup && not b.pollrdhup;
}

unfoldable pub any_event : Events → Bool
any_event a =
    a.pollin || a.pollpri || a.pollout || a.pollerr || a.pollhup || a.pollnval || a.pollrdhup

-- `m_nFd` is an open descriptor, so it is not negative. The last four fields say which of the callbacks
-- are set.
pub record Channel : Type 0 where
  pub fd : ℕ
  pub events : Events
  pub revents : Events
  pub index : ℤ
  pub event_handling : Bool
  pub has_read : Bool
  pub has_write : Bool
  pub has_error : Bool
  pub has_close : Bool

unfoldable pub init : ℕ → Channel
init fd = record {
  fd = fd;
  events = none_event;
  revents = none_event;
  index = negsuc 0;
  event_handling = false;
  has_read = false;
  has_write = false;
  has_error = false;
  has_close = false;
}

abbrev pub is_none_event : Channel → Bool
is_none_event c = not (any_event c.events)

abbrev pub is_writing : Channel → Bool
is_writing c = c.events.pollout

-- What the four operations on the interest do before `__UpdateChannel`.
unfoldable pub interest_reading : Channel → Channel
interest_reading c = record c { events = union c.events read_event }

unfoldable pub interest_writing : Channel → Channel
interest_writing c = record c { events = union c.events write_event }

unfoldable pub uninterest_writing : Channel → Channel
uninterest_writing c = record c { events = without c.events write_event }

unfoldable pub uninterest_all : Channel → Channel
uninterest_all c = record c { events = none_event }

-- A callback that `HandleEvent` makes.
pub data Callback : Type 0 where
  close error read write : Callback

abbrev call_if : Bool → Bool → Callback → List Callback
call_if test set callback = if test && set then callback ∷ [] else []

-- The callbacks that `HandleEvent` makes, in order. No callback writes `m_nREvents`: that is done by
-- `CPoller::Poll` alone.
unfoldable pub handle_event : Channel → List Callback
handle_event c =
    call_if (r.pollhup && not r.pollin) c.has_close close
    ++ (call_if (r.pollerr || r.pollnval) c.has_error error
        ++ (call_if (r.pollin || r.pollpri || r.pollrdhup) c.has_read read
            ++ call_if r.pollout c.has_write write))
  where
    r : Events
    r = c.revents
