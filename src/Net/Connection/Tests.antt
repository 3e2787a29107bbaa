-- ===== src/Net/Connection/Tests.antt =====
-- CTcpConnection: tests, and the theorems at inputs that meet their hypotheses.
use neconet.Prelude.{
  ℕ, ◌≢◌, none, err, assertion, ◌≡◌, refl, inl, List, [], ◌∷◌, ◌++◌, ok, ◌>>=◌, true, false, arith,
  OnOk,
}
use neconet.Net.Buffer.{Buffer, append}
use neconet.Net.Buffer.Inv.{contents}
use neconet.Net.Channel.{init, any_event}
use neconet.Net.Poller.{drop_entry, set_interest, remove_channel}
use neconet.Net.Poller.Fixtures.{two, two-IsValid, entry_five, five-IsListed}
use neconet.Net.Connection.{
  Connection, connecting, established, destroyed, shuts_down, connected, disconnected,
  connection_notice, connect_destroyed, run_task, send_task, wrote, write_failed, Event, sends,
  writable, writing, run, send_in_loop, shut_down, closes,
}
use neconet.Net.Connection.Writing.{IsStuck, run-IsStuck}
use neconet.Net.Connection.Flow.{handed, run-Carries}
use neconet.Net.Connection.Handlers.{Carries, stream}
use neconet.Net.Connection.Protocol.{Follows, next_all, run-Follows}
use neconet.Net.Connection.Lost.{send-shut_down_loses}
use neconet.Net.Connection.Late.{late_send_lem}
use neconet.Net.Connection.Lifecycle.{connect_destroyed_lem}
use neconet.Net.Connection.Total.{send_in_loop_lem}

abbrev blank : Buffer
blank = record {
  bytes = 0 ∷ 0 ∷ 0 ∷ 0 ∷ 0 ∷ 0 ∷ 0 ∷ 0 ∷ 0 ∷ 0 ∷ 0 ∷ 0 ∷ 0 ∷ 0 ∷ 0 ∷ 0 ∷ [];
  reader_index = 8;
  writer_index = 8;
}

-- One byte waits.
abbrev waiting : Buffer
waiting = record {
  bytes = 0 ∷ 0 ∷ 0 ∷ 0 ∷ 0 ∷ 0 ∷ 0 ∷ 0 ∷ 9 ∷ 0 ∷ 0 ∷ 0 ∷ 0 ∷ 0 ∷ 0 ∷ 0 ∷ [];
  reader_index = 8;
  writer_index = 9;
}

abbrev fresh : Connection
fresh = record {
  poller = two;
  channel = 1;
  state = connected;
  input = blank;
  output = blank;
  shut_write = false;
  sent = [];
  tasks = [];
  notices = [];
}

abbrev blocked : Connection
blocked = record fresh { output = waiting }

-- `write` takes one byte of three; nothing takes the other two, whatever the channel reports.
abbrev script : List Event
script = sends true (1 ∷ 2 ∷ 3 ∷ []) (wrote 1) ∷ writable (wrote 2) ∷ []

run_sent : (run fresh script >>= λ d. ok d.sent) ≡ ok (1 ∷ [])
unfolding run init append set_interest any_event
run_sent = refl

run_waiting : (run fresh script >>= λ d. ok (contents d.output)) ≡ ok (2 ∷ 3 ∷ [])
unfolding run init append set_interest any_event
run_waiting = refl

not_writing : writing fresh ≡ false
unfolding init
not_writing = refl

run-IsStuck_example :
    OnOk
      (λ d. IsStuck (9 ∷ []) [] d.output d.sent)
      (run blocked (writable (wrote 1) ∷ sends true (1 ∷ []) (wrote 1) ∷ []))
run-IsStuck_example =
    run-IsStuck (writable (wrote 1) ∷ sends true (1 ∷ []) (wrote 1) ∷ []) blocked 9 [] not_writing
      (omega arith) refl

run-Carries_example : OnOk (Carries (stream fresh ++ handed fresh script)) (run fresh script)
run-Carries_example = run-Carries script fresh (omega arith)

send_in_loop_lem_example :
    (d : Connection) × (send_in_loop fresh (1 ∷ 2 ∷ 3 ∷ []) (wrote 1) ≡ ok d)
    × Carries (stream fresh ++ (1 ∷ 2 ∷ 3 ∷ [])) d
unfolding init
send_in_loop_lem_example =
    send_in_loop_lem fresh 5 0 entry_five two-IsValid refl five-IsListed (omega arith)
      (1 ∷ 2 ∷ 3 ∷ []) (wrote 1) (inl (omega arith))

send-shut_down_loses_example :
    (d : Connection) × (send_in_loop fresh (1 ∷ 2 ∷ 3 ∷ []) (wrote 1) ≡ ok d)
    × ((shut_down d true).shut_write ≡ true)
    × OnOk
        (λ g. IsStuck (2 ∷ 3 ∷ []) (1 ∷ []) g.output g.sent)
        (run (shut_down d true) (writable (wrote 2) ∷ closes ∷ []))
unfolding init
send-shut_down_loses_example =
    send-shut_down_loses fresh 5 0 entry_five two-IsValid refl five-IsListed (omega arith)
      not_writing refl refl (1 ∷ 2 ∷ 3 ∷ []) 1 (writable (wrote 2) ∷ closes ∷ []) (omega arith)
      (inl (omega arith))

-- The connection is destroyed.
gone :
    (d : Connection) × (connect_destroyed fresh ≡ ok d)
    × (d.state ≡ disconnected)
    × neconet.Net.Poller.Inv.IsValid d.poller
    × (d.poller.channels_map 5 ≡ none)
    × ((g : ℕ) → g ≢ 5 → d.poller.channels_map g ≡ fresh.poller.channels_map g)
    × (d.notices ≡ connection_notice ∷ fresh.notices)
unfolding init
gone = connect_destroyed_lem fresh 5 0 entry_five (inl refl) two-IsValid refl five-IsListed

late_send_lem_example : run_task gone.0 (send_task (7 ∷ 8 ∷ [])) (write_failed 32) ≡ err assertion
late_send_lem_example =
    late_send_lem fresh gone.0 (7 ∷ 8 ∷ []) (write_failed 32) 7 (8 ∷ []) gone.1 refl (omega arith)
      (inl (omega arith))

-- A connection from its constructor to ConnectDestroyed.
abbrev opening : Connection
opening = record fresh { state = connecting }

abbrev life : List Event
life = established ∷ sends true (1 ∷ 2 ∷ []) (wrote 2) ∷ shuts_down true ∷ destroyed ∷ []

run-Follows_example : OnOk (Follows (next_all connecting life)) (run opening life)
run-Follows_example = run-Follows life opening refl

life_states : next_all connecting life ≡ ok disconnected
unfolding next_all
life_states = refl

life_runs :
    (run opening life >>= λ d. ok d.notices) ≡ ok (connection_notice ∷ connection_notice ∷ [])
unfolding run init append set_interest any_event remove_channel drop_entry
life_runs = refl
