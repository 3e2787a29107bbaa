-- ===== src/Net/Sockets.antt =====
-- net/CSocket.h, net/CSocket.cpp and the calls of net/SocketsOps.cpp on a socket. What the kernel answers
-- is an argument.
mod Tests
use neconet.Prelude.{
  ℕ, ◌+◌, ◌==◌, ◌≡◌, refl, Bool, true, false, List, [], ◌∷◌, ◌||◌, if◌then◌else◌, Option, none,
  some, Outcome, ok, err, no_return, ◌>>=◌,
}
use neconet.Prelude.Int.{ℤ, pos, negsuc}
use neconet.Net.Address.{SockAddr, zeroed}

-- A socket the way the kernel keeps it.
pub record Socket : Type 0 where
  pub fd : ℕ
  pub bound : Option SockAddr
  pub listening : Bool
  pub reuse_addr : Bool
  pub write_shut : Bool
  pub closed : Bool

abbrev pub fresh : ℕ → Socket
fresh fd = record {
  fd = fd;
  bound = none;
  listening = false;
  reuse_addr = false;
  write_shut = false;
  closed = false;
}

-- The kernel does what it was asked for, or gives an error number.
pub data Answer {ℓ} (A : Type ℓ) : Type ℓ where
  done : A → Answer A
  failed : ℕ → Answer A

-- `sockets::CreateNonblockingOrDie` has no return statement: whatever the kernel answers, its result is
-- undefined.
unfoldable pub create_nonblocking_or_die : Answer ℕ → Outcome ℕ
create_nonblocking_or_die answer = err no_return

-- Errors of the next calls are only printed.
unfoldable pub bind_or_die : Socket → SockAddr → Answer (Unit {0}) → Socket
bind_or_die s a (done _) = record s { bound = some a }
bind_or_die s a (failed errno) = s

pub listen_or_die : Socket → Answer (Unit {0}) → Socket
listen_or_die s (done _) = record s { listening = true }
listen_or_die s (failed errno) = s

pub close : Socket → Answer (Unit {0}) → Socket
close s (done _) = record s { closed = true }
close s (failed errno) = s

pub shutdown_write : Socket → Answer (Unit {0}) → Socket
shutdown_write s (done _) = record s { write_shut = true }
shutdown_write s (failed errno) = s

-- `CSocket::SetReuseAddr` does not look at the answer.
unfoldable pub set_reuse_addr : Socket → Bool → Answer (Unit {0}) → Socket
set_reuse_addr s on (done _) = record s { reuse_addr = on }
set_reuse_addr s on (failed errno) = s

-- EAGAIN, ECONNABORTED, EINTR, EPROTO, EPERM and EMFILE.
abbrev pub is_expected : ℕ → Bool
is_expected errno =
    (errno == 11)
    || (errno == 103)
    || (errno == 4)
    || (errno == 71)
    || (errno == 1)
    || (errno == 24)

-- `errno` behind a failed `sockets::Accept`: an expected one is restored, and otherwise it is what the
-- last print left.
abbrev pub accept_errno : ℕ → ℕ → ℕ
accept_errno errno printed = if is_expected errno then errno else printed

-- `sockets::Accept` returns on an error only: behind that it flows off its end. The result is the
-- descriptor and `errno`.
unfoldable pub accept : Answer (ℕ × SockAddr) → ℕ → Outcome (ℤ × ℕ)
accept (failed errno) printed = ok (negsuc 0, accept_errno errno printed)
accept (done _) printed = err no_return

abbrev pub peer_address : ℤ → SockAddr → SockAddr → SockAddr
peer_address (negsuc _) got peer = peer
peer_address (pos _) got peer = got

-- The address that `accept4` wrote into the zeroed structure.
abbrev pub written : Answer (ℕ × SockAddr) → SockAddr
written (failed errno) = zeroed
written (done (fd, a)) = a

-- `CSocket::Accept`: the descriptor and the peer's address.
unfoldable pub accept_from : Answer (ℕ × SockAddr) → ℕ → SockAddr → Outcome (ℤ × SockAddr)
unfolding accept
accept_from answer printed peer = do
  (fd, _) ← accept answer printed
  ok (fd, peer_address fd (written answer) peer)

-- `getsockname` fills the zeroed address; an error is only printed.
pub get_local_addr : Answer SockAddr → SockAddr
get_local_addr (done a) = a
get_local_addr (failed errno) = zeroed

pub get_socket_error : Answer ℕ → ℕ
get_socket_error (done optval) = optval
get_socket_error (failed errno) = errno
