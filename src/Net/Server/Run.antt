-- ===== src/Net/Server/Run.antt =====
-- net/CTcpServer.cpp with net/CTcpConnection.cpp: a server with any number of connections at work. What
-- happens to a connection goes through the server, whose `__RemoveConnection` is its close callback.
pub mod Sound
mod Same
mod Closing
pub mod Inv
pub mod Drain
mod Peer
mod Tests
mod Accepting
mod Leaving
use neconet.Prelude.{
  ℕ, suc, ◌<◌, ◌≡◌, Bool, true, false, List, [], ◌∷◌, none, some, if◌then◌else◌, Outcome, ok, ◌>>=◌,
}
use neconet.Base.Text.{Text}
use neconet.Net.Buffer.{Readv, got}
use neconet.Net.Channel.{Callback, close, error, read, write, handle_event}
use neconet.Net.Poller.{Poller, PollResult, deref, poll}
use neconet.Net.Poller.Inv.{IsValid}
use neconet.Net.Poller.Poll.{PollContract}
use neconet.Net.Poller.Fresh.{IsFresh}
use neconet.Net.Connection.{Event, closes, errors, readable, writable, Written, step}
use neconet.Net.Connection.Lifecycle.{IsOpen}
use neconet.Net.Connection.Attached.{IsInner}
use neconet.Net.Server.{
  Server, Member, int_bound, with_member, new_connection, remove_connection, destroy_next,
}

-- `__HandleClose` runs for POLLHUP and for a read of no bytes.
abbrev pub is_closing : Event → Bool
is_closing closes = true
is_closing (readable (got [])) = true
is_closing _ = false

-- An event of the connection at `p`, with the close callback as the last thing of `__HandleClose`.
unfoldable pub on_event : Server → ℕ → Event → Outcome Server
unfolding with_member
on_event s p e =
    with_member s p (λ c. step c e) >>= λ t. if is_closing e then remove_connection t p else ok t

-- The handler that the constructor of the connection binds to a callback of its channel.
abbrev pub handler : Readv → Written → Callback → Event
handler r w close = closes
handler r w error = errors
handler r w read = readable r
handler r w write = writable w

unfoldable pub call_all : Server → ℕ → Readv → Written → List Callback → Outcome Server
unfolding on_event
call_all s p r w [] = ok s
call_all s p r w (k ∷ ks) = on_event s p (handler r w k) >>= λ t. call_all t p r w ks

-- `HandleEvent` of the connection's channel, with what `readv` and `write` give if they are called.
pub dispatch : Server → ℕ → Readv → Written → Outcome Server
unfolding call_all
dispatch s p r w = do
  m ← deref (s.heap p)
  call_all s p r w (handle_event (s.poller.heap m.body.channel))

-- The `ConnectDestroyed` functors that wait, oldest first. None of them leaves another one.
unfoldable pub destroy_each : Server → List ℕ → Outcome Server
destroy_each s [] = ok s
destroy_each s (p ∷ rest) = destroy_next s >>= λ t. destroy_each t rest

pub destroy_all : Server → Outcome Server
unfolding destroy_each
destroy_all s = destroy_each s s.destroying

-- A connection that is not destroyed.
pub record IsLive (s : Server) (p : ℕ) (m : Member) : Type 0 where
  pub present : s.heap p ≡ some m
  pub state : IsOpen m.body.state

-- A server after its constructor.
pub record IsNew (s : Server) : Type 0 where
  pub valid : IsValid s.poller
  pub no_name : (k : Text) → s.connection_map k ≡ none
  pub no_member : (p : ℕ) → s.heap p ≡ none
  pub none_waits : s.destroying ≡ []

-- A new connection, for a descriptor that is not registered; a `Poll`, where `poll` answers as
-- documented; what the loop, the user or another thread does to a connection that is not destroyed; and a
-- functor that the loop runs.
pub data Step : Server → Server → Type 0 where
  accepts :
      {s t : Server} (p q fd : ℕ)
      → s.heap p ≡ none
      → IsFresh s.poller q
      → s.poller.channels_map fd ≡ none
      → suc s.next_conn_id < int_bound
      → new_connection s p q fd ≡ ok t
      → Step s t
  polls :
      {s : Server} {poller : Poller} (r : PollResult) (found : List ℕ)
      → PollContract s.poller.poll_fds r
      → poll s.poller r ≡ ok (poller, found)
      → Step s (record s { poller = poller })
  acts :
      {s t : Server} (p : ℕ) (m : Member) (e : Event)
      → IsLive s p m
      → IsInner e
      → on_event s p e ≡ ok t
      → Step s t
  destroys : {s t : Server} → destroy_next s ≡ ok t → Step s t

pub data Reachable (s : Server) : Server → Type 0 where
  at_first : Reachable s s
  after : {t u : Server} → Reachable s t → Step t u → Reachable s u
