-- ===== src/Main.antt =====
-- main.cpp: a server on port 9981 that prints what its connections receive.
mod Echo
mod Tests
use neconet.Prelude.{ℕ, List, [], ◌∷◌, ◌++◌, Option, if◌then◌else◌, Outcome, ok, ◌>>=◌, ◌==◌}
use neconet.Base.Text.{Text}
use neconet.Net.Buffer.{Readv, failed, got, readable_bytes, retrieve_as_string}
use neconet.Net.Channel.{Channel}
use neconet.Net.Address.{SockAddr, any_address, to_host_port}
use neconet.Net.Sockets.{Answer}
use neconet.Net.Acceptor.{Acceptor, Created}
use neconet.Net.EventLoop.{EventLoop}
use neconet.Net.Connection.{Connection, is_connected, handle_read}
use neconet.Net.Server.{Server, start}

-- What the callbacks print, with the arguments of each `printf` but the time.
pub data Line : Type 0 where
  is_new : Text → Text → Line
  is_down : Text → Line
  received : ℕ → Text → Line
  content : Text → Line

-- `%s` prints a string up to its first zero byte.
abbrev pub c_str : Text → Text
c_str [] = []
c_str (b ∷ rest) = let tail = c_str rest in if b == 0 then [] else b ∷ tail

pub on_connection : (inet_ntop : ℕ → Text) → Text → SockAddr → Connection → Line
on_connection inet_ntop name peer c =
    if is_connected c.state then is_new name (to_host_port inet_ntop peer) else is_down name

pub on_message : Text → Connection → Outcome (List Line × Connection)
on_message name c = do
  (str, input) ← retrieve_as_string c.input
  ok (received (readable_bytes c.input) name ∷ content (c_str str) ∷ [], record c { input = input })

-- `__HandleRead` of a connection with this message callback, which is its last call then.
pub receive : Text → Connection → Readv → Outcome (List Line × Connection)
unfolding on_message
receive name c (failed errno) = handle_read c (failed errno) >>= λ d. ok ([], d)
receive name c (got []) = handle_read c (got []) >>= λ d. ok ([], d)
receive name c (got (b ∷ rest)) = handle_read c (got (b ∷ rest)) >>= on_message name

-- One read after the other.
pub receive_all : Text → Connection → List Readv → Outcome (List Line × Connection)
unfolding receive
receive_all name c [] = ok ([], c)
receive_all name c (r ∷ rs) = do
  (lines, d) ← receive name c r
  (more, e) ← receive_all name d rs
  ok (lines ++ more, e)

-- `main` up to `StartLoop`, with the answers of the kernel: the loop, with the channels of its timers and
-- its wakeup at `q` and `r`, and the server, with its acceptor's channel at `a`.
pub main :
    (inet_ntop : ℕ → Text)
    → (ℕ → Channel)
    → ℕ
    → ℕ
    → Option ℕ
    → ℕ
    → Answer ℕ
    → ℕ
    → ℕ
    → ℕ
    → Created
    → Answer (Unit {0})
    → Outcome (EventLoop × Server × Acceptor)
main inet_ntop heap tid this of_thread timer_fd event q r a answers listened = do
  (loop, _) ← neconet.Net.EventLoop.construct heap tid this of_thread timer_fd event q r
  (server, acceptor) ←
      neconet.Net.Server.construct inet_ntop (any_address 9981) answers a loop.poller
  (started, poller) ← start acceptor listened server.poller
  ok (record loop { poller = poller }, record server { poller = poller }, started)
