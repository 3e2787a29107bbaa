-- ===== src/Net/Acceptor.antt =====
-- net/CAcceptor.h and net/CAcceptor.cpp: the listening socket and its channel. `__HandleRead` stands in
-- Net/Server.antt, whose operation it calls.
mod Tests
use neconet.Prelude.{ℕ, Bool, true, false, update, Outcome, ok, ◌>>=◌}
use neconet.Net.Poller.{with_reader, Poller, set_interest, enable_reading}
use neconet.Net.Address.{SockAddr}
use neconet.Net.Sockets.{
  Socket, Answer, fresh, create_nonblocking_or_die, set_reuse_addr, bind_or_die, listen_or_die,
}

pub record Acceptor : Type 0 where
  pub socket : Socket
  pub channel : ℕ
  pub listenning : Bool

-- What the kernel answers to the calls of the constructor.
pub record Created : Type 0 where
  pub created : Answer ℕ
  pub reused : Answer (Unit {0})
  pub bound : Answer (Unit {0})

-- The acceptor with the socket `fd`, whose channel is at the pointer `q` and has a callback for reading.
abbrev pub with_socket : SockAddr → Created → ℕ → ℕ → Acceptor
with_socket listen answers q fd = record {
  socket = bind_or_die (set_reuse_addr (fresh fd) true answers.reused) listen answers.bound;
  channel = q;
  listenning = false;
}

unfoldable pub construct_acceptor : SockAddr → Created → ℕ → Poller → Outcome (Acceptor × Poller)
construct_acceptor listen answers q s = do
  fd ← create_nonblocking_or_die answers.created
  ok (with_socket listen answers q fd, with_reader s q fd)

pub start_listen : Acceptor → Answer (Unit {0}) → Poller → Outcome (Acceptor × Poller)
start_listen a listened s = do
  t ← set_interest enable_reading s a.channel
  ok (record a { listenning = true; socket = listen_or_die a.socket listened }, t)
