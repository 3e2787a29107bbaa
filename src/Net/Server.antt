-- ===== src/Net/Server.antt =====
-- net/CTcpServer.h and net/CTcpServer.cpp: the server's map of connections, and `__HandleRead` of
-- net/CAcceptor.cpp with the server's callback. Connections are objects on a heap and share the loop's poller.
pub mod Names
pub mod Members
pub mod Life
pub mod Run
mod Tests
use neconet.Prelude.{
  update, ℕ, suc, ◌+◌, ◌^◌, Bool, true, false, List, [], ◌∷◌, ◌++◌, Option, none, some, ltb,
  if◌then◌else◌, Outcome, ok, err, overflow, no_return, ◌>>=◌, ◌>>◌, guard, assert,
}
use neconet.Prelude.Int.{ℤ, pos, negsuc}
use neconet.Base.Text.{Text, decimal, snprintf, update_text}
use neconet.Net.Buffer.{Buffer}
use neconet.Net.Channel.{Channel}
use neconet.Net.Poller.{Poller, deref, is_some, set_interest, enable_reading}
use neconet.Net.Address.{SockAddr, any_address, to_host_port}
use neconet.Net.Sockets.{Answer, accept_from}
use neconet.Net.Acceptor.{Acceptor, Created, construct_acceptor, start_listen}
use neconet.Net.Connection.{
  Connection, connecting, connect_established, handle_close, connect_destroyed,
}

-- A connection with its name. While it is at work its `poller` is the server's.
pub record Member : Type 0 where
  pub name : Text
  pub body : Connection

-- `connection_map` leads from a name to a pointer. `destroying` are the `ConnectDestroyed` functors
-- left with the loop, oldest first.
pub record Server : Type 0 where
  pub name : Text
  pub poller : Poller
  pub next_conn_id : ℕ
  pub connection_map : Text → Option ℕ
  pub heap : ℕ → Option Member
  pub destroying : List ℕ

-- An `int` is less than this.
abbrev pub int_bound : ℕ
int_bound = 2 ^ 31

-- The name of the next connection: `#` and the number are written into a buffer of 32 bytes.
abbrev pub conn_name : Server → ℕ → Text
conn_name s id = s.name ++ snprintf 32 (b'#' ∷ decimal id)

-- The channel of a connection has all four callbacks.
abbrev pub new_channel : ℕ → Channel
new_channel fd = record (neconet.Net.Channel.init fd) {
  has_read = true;
  has_write = true;
  has_error = true;
  has_close = true;
}

abbrev pub new_body : Poller → ℕ → Buffer → Buffer → Connection
new_body poller q input output = record {
  poller = poller;
  channel = q;
  state = connecting;
  input = input;
  output = output;
  shut_write = false;
  sent = [];
  tasks = [];
  notices = [];
}

-- An operation of the connection at `p`.
unfoldable pub with_member : Server → ℕ → (Connection → Outcome Connection) → Outcome Server
with_member s p f = do
  m ← deref (s.heap p)
  d ← f (record m.body { poller = s.poller })
  ok (record s { poller = d.poller; heap = update s.heap p (some (record m { body = d })) })

-- The server with a new connection at pointer `p`, whose channel is at pointer `q`.
unfoldable pub registered : Server → ℕ → ℕ → ℕ → Buffer → Buffer → Server
registered s p q fd input output =
    let poller : Poller = record s.poller { heap = update s.poller.heap q (new_channel fd) } in
    record s {
      poller = poller;
      next_conn_id = suc s.next_conn_id;
      connection_map = update_text s.connection_map (conn_name s s.next_conn_id) (some p);
      heap = update s.heap p (
          some
            (record { name = conn_name s s.next_conn_id; body = new_body poller q input output }));
    }

unfoldable pub new_connection : Server → ℕ → ℕ → ℕ → Outcome Server
unfolding registered with_member
new_connection s p q fd = do
  guard (ltb (suc s.next_conn_id) int_bound) overflow
  input ← neconet.Net.Buffer.init
  output ← neconet.Net.Buffer.init
  with_member (registered s p q fd input output) p connect_established

unfoldable pub remove_connection : Server → ℕ → Outcome Server
remove_connection s p = do
  m ← deref (s.heap p)
  assert (is_some (s.connection_map m.name))
  ok (record s {
    connection_map = update_text s.connection_map m.name none;
    destroying = s.destroying ++ (p ∷ []);
  })

-- The connection is closed: the last thing that `__HandleClose` does is to call `__RemoveConnection`.
pub close_connection : Server → ℕ → Outcome Server
unfolding with_member remove_connection
close_connection s p = with_member s p handle_close >>= λ t. remove_connection t p

-- The loop runs the oldest `ConnectDestroyed` functor.
unfoldable pub run_oldest : Server → List ℕ → Outcome Server
unfolding with_member
run_oldest s [] = ok s
run_oldest s (p ∷ rest) = with_member (record s { destroying = rest }) p connect_destroyed

pub destroy_next : Server → Outcome Server
unfolding run_oldest
destroy_next s = run_oldest s s.destroying

-- `CTcpServer::Start`, by the loop's thread. `m_bStarted`, which it also sets, is read nowhere else.
pub start : Acceptor → Answer (Unit {0}) → Poller → Outcome (Acceptor × Poller)
start a listened s = if a.listenning then ok (a, s) else start_listen a listened s

-- The constructor: the name is the text of the listen address.
pub construct :
    (inet_ntop : ℕ → Text) → SockAddr → Created → ℕ → Poller → Outcome (Server × Acceptor)
construct inet_ntop listen answers q s = do
  (a, t) ← construct_acceptor listen answers q s
  ok (
    record {
      name = to_host_port inet_ntop listen;
      poller = t;
      next_conn_id = 1;
      connection_map = λ k. none;
      heap = λ k. none;
      destroying = [];
    },
    a,
  )

-- `CAcceptor::__HandleRead` with the server's callback.
pub handle_accept : Server → ℕ → ℕ → Answer (ℕ × SockAddr) → ℕ → Outcome Server
unfolding accept_from new_connection
handle_accept s p q answer printed = do
  (n, peer) ← accept_from answer printed (any_address 0)
  elim n [ negsuc _ ↦ ok s | pos fd ↦ new_connection s p q fd ]
