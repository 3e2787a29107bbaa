-- ===== src/Net/Connection.antt =====
-- net/CTcpConnection.h and net/CTcpConnection.cpp: one connection, its channel in the poller and its two
-- buffers. What the kernel answers to `readv` and `write` is an argument.
mod Interest
mod Total
mod Writing
pub mod Handlers
mod Flow
pub mod Lifecycle
pub mod Attached
pub mod Reading
mod Late
mod Alike
mod Protocol
mod Lost
mod Tests
use neconet.Prelude.{
  ℕ, zero, suc, Bool, true, false, not, ◌&&◌, ◌||◌, List, [], ◌∷◌, ◌++◌, length, take, drop, ltb,
  ◌==◌, if◌then◌else◌, Outcome, ok, err, ◌>>=◌, ◌>>◌, assert,
}
use neconet.Net.Buffer.{Buffer, Readv, failed, got, readable_bytes, retrieve, append, read_fd}
use neconet.Net.Channel.{is_writing}
use neconet.Net.Poller.{
  Poller, set_interest, remove_channel, enable_reading, disable_writing, disable_all,
}
use neconet.Net.Buffer.Inv.{contents}

-- `ESTATE`.
pub data State : Type 0 where
  connecting connected disconnected disconnecting : State

abbrev pub is_connecting : State → Bool
is_connecting connecting = true
is_connecting _ = false

abbrev pub is_connected : State → Bool
is_connected connected = true
is_connected _ = false

abbrev pub is_disconnecting : State → Bool
is_disconnecting disconnecting = true
is_disconnecting _ = false

-- A functor that another thread left with the loop.
pub data Task : Type 0 where
  send_task : List ℕ → Task
  shutdown_task : Task

-- A call of one of the three callbacks. It is the last thing that its handler does, but for
-- `ConnectDestroyed`; what the callback does to the connection is a later event.
pub data Notice : Type 0 where
  connection_notice message_notice close_notice : Notice

-- `shut_write` says whether the socket's write half is shut down; `sent` are the bytes that `write`
-- took; `tasks` are those that the loop has to run, oldest first; `notices`, the callbacks made, newest
-- first.
pub record Connection : Type 0 where
  pub poller : Poller
  pub channel : ℕ
  pub state : State
  pub input : Buffer
  pub output : Buffer
  pub shut_write : Bool
  pub sent : List ℕ
  pub tasks : List Task
  pub notices : List Notice

-- What `write` gives: the number of bytes taken, or an error.
pub data Written : Type 0 where
  wrote : ℕ → Written
  write_failed : ℕ → Written

abbrev pub writing : Connection → Bool
writing c = is_writing (c.poller.heap c.channel)

abbrev pub notify : Connection → Notice → Connection
notify c n = record c { notices = n ∷ c.notices }

unfoldable pub connect_established : Connection → Outcome Connection
connect_established c = do
  assert (is_connecting c.state)
  poller ← set_interest enable_reading c.poller c.channel
  ok (notify (record c { state = connected; poller = poller }) connection_notice)

pub connect_destroyed : Connection → Outcome Connection
connect_destroyed c = do
  assert (is_connected c.state || is_disconnecting c.state)
  silent ← set_interest disable_all c.poller c.channel
  poller ← remove_channel silent c.channel
  ok (notify (record c { state = disconnected; poller = poller }) connection_notice)

unfoldable pub shutdown_in_loop : Connection → Connection
shutdown_in_loop c = if writing c then c else record c { shut_write = true }

-- The output buffer is empty: no more writing, and a shutdown that waited for this.
output_done : Connection → Outcome Connection
unfolding shutdown_in_loop
output_done c = do
  poller ← set_interest disable_writing c.poller c.channel
  let d : Connection = record c { poller = poller }
  ok (if is_disconnecting d.state then shutdown_in_loop d else d)

-- `write` took `n` bytes of the output buffer.
wrote_output : Connection → ℕ → Outcome Connection
unfolding output_done
wrote_output c n = do
  output ← retrieve c.output n
  let d : Connection = record c { output = output; sent = c.sent ++ take n (contents c.output) }
  if readable_bytes output == 0 then output_done d else ok d

pub handle_write : Connection → Written → Outcome Connection
unfolding wrote_output
handle_write c (write_failed errno) = ok c
handle_write c (wrote zero) = ok c
handle_write c (wrote (suc n)) = if writing c then wrote_output c (suc n) else ok c

pub handle_close : Connection → Outcome Connection
handle_close c = do
  assert (is_connected c.state || is_disconnecting c.state)
  poller ← set_interest disable_all c.poller c.channel
  ok (notify (record c { poller = poller }) close_notice)

-- `__HandleError` only prints.
unfoldable pub handle_error : Connection → Connection
handle_error c = c

pub handle_read : Connection → Readv → Outcome Connection
unfolding handle_close handle_error
handle_read c r = do
  (input, n) ← read_fd c.input r
  let d : Connection = record c { input = input }
  elim n [
    | failed errno ↦ ok (handle_error d)
    | got [] ↦ handle_close d
    | got (b ∷ rest) ↦ ok (notify d message_notice)
  ]

-- The bytes that `write` did not take go to the output buffer. The interest that is enabled then is the
-- one in reading.
keep_rest : Connection → List ℕ → Outcome Connection
keep_rest c [] = ok c
keep_rest c (b ∷ rest) = do
  output ← append c.output (b ∷ rest)
  let d : Connection = record c { output = output }
  poller ← if writing d then ok d.poller else set_interest enable_reading d.poller d.channel
  ok (record d { poller = poller })

-- `write` is called only if nothing is waiting; a failure counts as no byte written.
abbrev pub taken : Connection → Written → ℕ
taken c (write_failed errno) = 0
taken c (wrote n) = if not (writing c) && readable_bytes c.output == 0 then n else 0

pub send_in_loop : Connection → List ℕ → Written → Outcome Connection
unfolding keep_rest
send_in_loop c message w =
    keep_rest (record c { sent = c.sent ++ take (taken c w) message }) (drop (taken c w) message)

-- `Send`, by the loop's thread or by another one.
pub send : Connection → Bool → List ℕ → Written → Outcome Connection
unfolding send_in_loop
send c in_loop message w =
    if not (is_connected c.state)
    then ok c
    else if in_loop
    then send_in_loop c message w
    else ok (record c { tasks = c.tasks ++ (send_task message ∷ []) })

pub shut_down : Connection → Bool → Connection
unfolding shutdown_in_loop
shut_down c in_loop =
    if not (is_connected c.state)
    then c
    else if in_loop
    then shutdown_in_loop (record c { state = disconnecting })
    else record c { state = disconnecting; tasks = c.tasks ++ (shutdown_task ∷ []) }

-- The loop runs a task.
pub run_task : Connection → Task → Written → Outcome Connection
unfolding send_in_loop shutdown_in_loop
run_task c (send_task message) w = send_in_loop c message w
run_task c shutdown_task w = ok (shutdown_in_loop c)

-- The oldest task of the loop's.
pub run_next : Connection → List Task → Written → Outcome Connection
unfolding run_task
run_next c [] w = ok c
run_next c (task ∷ rest) w = run_task (record c { tasks = rest }) task w

-- What can happen to a connection, with the kernel's answers.
pub data Event : Type 0 where
  established destroyed closes errors : Event
  readable : Readv → Event
  writable : Written → Event
  sends : Bool → List ℕ → Written → Event
  shuts_down : Bool → Event
  runs_task : Written → Event
  consumes : ℕ → Event

unfoldable pub step : Connection → Event → Outcome Connection
unfolding connect_established connect_destroyed handle_write handle_close handle_error handle_read
    send shut_down run_next
step c established = connect_established c
step c destroyed = connect_destroyed c
step c closes = handle_close c
step c errors = ok (handle_error c)
step c (readable r) = handle_read c r
step c (writable w) = handle_write c w
step c (sends in_loop message w) = send c in_loop message w
step c (shuts_down in_loop) = ok (shut_down c in_loop)
step c (runs_task w) = run_next c c.tasks w
step c (consumes n) = retrieve c.input n >>= λ input. ok (record c { input = input })

pub run : Connection → List Event → Outcome Connection
unfolding step
run c [] = ok c
run c (e ∷ es) = step c e >>= λ d. run d es
