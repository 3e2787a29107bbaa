-- ===== src/Net/Poller.antt =====
-- net/CPoller.h and net/CPoller.cpp. Channels are objects on a heap: a pointer is a number, and the
-- poller's map leads from a descriptor to a pointer. `-fd - 1` is `negsuc fd`.
pub mod Inv
pub mod Register
pub mod Update
pub mod Ignored
pub mod Fresh
pub mod Drop
pub mod Remove
pub mod Active
pub mod Poll
pub mod Effects
pub mod Gone
mod Asked
pub mod Fixtures
mod Tests
use neconet.Prelude.{
  update, ℕ, zero, suc, ◌+◌, ◌-◌, Bool, true, false, not, ◌&&◌, List, [], ◌∷◌, ◌++◌, Option, none,
  some, length, get_elem?, set, ltb, ◌==◌, if◌then◌else◌, Outcome, ok, err, no_element,
  out_of_bounds, ◌>>=◌, ◌>>◌, assert,
}
use neconet.Prelude.Int.{ℤ, pos, negsuc}
use neconet.Net.Channel.{
  Channel, Events, none_event, any_event, is_none_event, interest_reading, interest_writing,
  uninterest_writing, uninterest_all,
}

-- `struct pollfd`. `revents` is written by `poll`.
pub record PollFd : Type 0 where
  pub fd : ℤ
  pub events : Events
  pub revents : Events

pub record Poller : Type 0 where
  pub poll_fds : List PollFd
  pub channels_map : ℕ → Option ℕ
  pub heap : ℕ → Channel

-- The dereferenced entry of a map, and an element of a vector.
abbrev pub deref {ℓ} : {A : Type ℓ} → Option A → Outcome A
deref none = err no_element
deref (some a) = ok a

abbrev pub at {ℓ} : {A : Type ℓ} → List A → ℕ → Outcome A
at xs i = elim (get_elem? xs i) [ none ↦ err out_of_bounds | some a ↦ ok a ]

-- `map.find(fd) != map.end()`, and `map[fd] == pointer`.
abbrev pub is_some {ℓ} : {A : Type ℓ} → Option A → Bool
is_some none = false
is_some (some a) = true

abbrev pub points_to : Option ℕ → ℕ → Bool
points_to none p = false
points_to (some q) p = q == p

abbrev pub watched : ℤ → ℕ → Bool
watched (pos n) fd = n == fd
watched (negsuc n) fd = n == fd

-- The channel gets an entry at the end.
pub add_entry : Poller → ℕ → Outcome Poller
add_entry s p = do
  let c : Channel = s.heap p
  assert (not (is_some (s.channels_map c.fd)))
  ok (record s {
    poll_fds =
        s.poll_fds ++ (record { fd = pos c.fd; events = c.events; revents = none_event } ∷ []);
    heap = update s.heap p (record c { index = pos (length s.poll_fds) });
    channels_map = update s.channels_map c.fd (some p);
  })

-- The entry of the channel is written again; its descriptor changes only if there is no interest left.
pub change_entry : Poller → ℕ → ℕ → Outcome Poller
change_entry s p i = do
  let c : Channel = s.heap p
  assert (is_some (s.channels_map c.fd))
  assert (points_to (s.channels_map c.fd) p)
  assert (ltb i (length s.poll_fds))
  entry ← at s.poll_fds i
  assert (watched entry.fd c.fd)
  ok (record s {
    poll_fds = set s.poll_fds i (record {
      fd = if is_none_event c then negsuc c.fd else entry.fd;
      events = c.events;
      revents = none_event;
    });
  })

pub update_channel : Poller → ℕ → Outcome Poller
unfolding add_entry change_entry
update_channel s p = elim (s.heap p).index [ negsuc _ ↦ add_entry s p | pos i ↦ change_entry s p i ]

-- The descriptor behind an entry, also of one that `poll` shall ignore.
abbrev pub fd_of : ℤ → ℕ
fd_of (pos n) = n
fd_of (negsuc n) = n

abbrev pub is_ignored : ℤ → ℕ → Bool
is_ignored (pos n) fd = false
is_ignored (negsuc n) fd = n == fd

abbrev pub pop_back {ℓ} : {A : Type ℓ} → List A → List A
pop_back [] = []
pop_back (x ∷ []) = []
pop_back (x ∷ y ∷ r) = x ∷ pop_back (y ∷ r)

-- The entry at `i` goes: the last one takes its place, and the channel of that one learns its new index.
unfoldable pub drop_entry : Poller → ℕ → Outcome Poller
drop_entry s i =
    if i == length s.poll_fds - 1 then ok (record s { poll_fds = pop_back s.poll_fds }) else do
      last ← at s.poll_fds (length s.poll_fds - 1)
      q ← deref (s.channels_map (fd_of last.fd))
      ok (record s {
        poll_fds = pop_back (set s.poll_fds i last);
        heap = update s.heap q (record (s.heap q) { index = pos i });
      })

unfoldable pub remove_channel : Poller → ℕ → Outcome Poller
remove_channel s p = do
  let c : Channel = s.heap p
  assert (is_some (s.channels_map c.fd))
  assert (points_to (s.channels_map c.fd) p)
  assert (is_none_event c)
  i ← elim c.index [ pos i ↦ ok i | negsuc _ ↦ assert false >> ok 0 ]
  assert (ltb i (length s.poll_fds))
  entry ← at s.poll_fds i
  assert (is_ignored entry.fd c.fd && not (any_event entry.events))
  drop_entry (record s { channels_map = update s.channels_map c.fd none }) i

-- An entry with events: its channel is looked up and gets the `revents`.
mark_active : PollFd → (ℕ → Option ℕ) → (ℕ → Channel) → Outcome (ℕ × (ℕ → Channel))
mark_active e m heap = do
  fd ← elim e.fd [ pos fd ↦ ok fd | negsuc _ ↦ assert false >> ok 0 ]
  p ← deref (m fd)
  assert ((heap p).fd == fd)
  ok (p, update heap p (record (heap p) { revents = e.revents }))

-- One pass over the entries, while events are left to be found. The result is the heap, with the
-- `revents` of the active channels, and these channels in order.
pub fill_active :
    ℕ → List PollFd → (ℕ → Option ℕ) → (ℕ → Channel) → Outcome ((ℕ → Channel) × List ℕ)
unfolding mark_active
fill_active zero entries m heap = ok (heap, [])
fill_active (suc k) [] m heap = ok (heap, [])
fill_active (suc k) (e ∷ r) m heap = elim (any_event e.revents) [
  | false ↦ fill_active (suc k) r m heap
  | true ↦ mark_active e m heap >>= λ (p, heap').
      fill_active k r m heap' >>= λ (heap'', found). ok (heap'', p ∷ found)
]

-- What `poll` gives: its result, negative on an error, and the entries with their `revents`.
pub record PollResult : Type 0 where
  pub num_events : ℤ
  pub entries : List PollFd

-- `CPoller::Poll`: the poller and the active channels.
unfoldable pub poll : Poller → PollResult → Outcome (Poller × List ℕ)
unfolding fill_active
poll s r = elim r.num_events [
  | negsuc _ ↦ ok (record s { poll_fds = r.entries }, [])
  | pos n ↦ do
    (heap', found) ← fill_active n r.entries s.channels_map s.heap
    ok (record s { poll_fds = r.entries; heap = heap' }, found)
]

-- The operations of a channel: `CEventLoop::UpdateChannel` hands it to the poller. The loop's check of
-- the calling thread only prints.
-- The operation is the function that changes the interest.
pub data Interest : Type 0 where
  enable_reading enable_writing disable_writing disable_all : Interest

unfoldable pub interest : Interest → Channel → Channel
unfolding interest_reading interest_writing uninterest_writing uninterest_all
interest enable_reading c = interest_reading c
interest enable_writing c = interest_writing c
interest disable_writing c = uninterest_writing c
interest disable_all c = uninterest_all c

unfoldable pub set_interest : Interest → Poller → ℕ → Outcome Poller
unfolding interest update_channel
set_interest op s p =
    update_channel (record s { heap = update s.heap p (interest op (s.heap p)) }) p

-- A sequence of such operations on one channel.
pub set_interests : List Interest → Poller → ℕ → Outcome Poller
unfolding set_interest
set_interests [] s p = ok s
set_interests (op ∷ ops) s p = set_interest op s p >>= λ t. set_interests ops t p

-- A new channel at the pointer `q` that has a callback for reading, and then waits for data.
abbrev pub with_reader : Poller → ℕ → ℕ → Poller
with_reader s q fd = record s {
  heap = update s.heap q (record (neconet.Net.Channel.init fd) { has_read = true });
}

unfoldable pub watch : Poller → ℕ → ℕ → Outcome Poller
unfolding set_interest
watch s q fd = set_interest enable_reading (with_reader s q fd) q
