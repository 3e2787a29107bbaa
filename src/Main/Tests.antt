-- ===== src/Main/Tests.antt =====
-- main.cpp: tests, and the theorem at an input that meets its hypotheses.
use neconet.Prelude.{◌≡◌, refl, [], ◌∷◌, ok, arith, false}
use neconet.Net.Buffer.{Buffer, got, failed}
use neconet.Net.Poller.Fixtures.{two}
use neconet.Net.Connection.{Connection, connected}
use neconet.Main.{received, content, receive_all}
use neconet.Main.Echo.{IsReady, lines, receive_all_lem}

-- Room for four bytes.
abbrev blank : Buffer
blank = record {
  bytes = 0 ∷ 0 ∷ 0 ∷ 0 ∷ 0 ∷ 0 ∷ 0 ∷ 0 ∷ 0 ∷ 0 ∷ 0 ∷ 0 ∷ [];
  reader_index = 8;
  writer_index = 8;
}

abbrev fresh : Connection
fresh = record {
  poller = two;
  channel = 1;
  state = connected;
  input = blank;
  output = blank;
  shut_write = false;
  sent = [];
  tasks = [];
  notices = [];
}

blank-IsReady : IsReady 4 blank
blank-IsReady = omega arith

-- Two bytes, an error, and three bytes with a zero among them.
receive_all_lem_example :
    (d : Connection) × (receive_all
        (b'h' ∷ [])
        fresh
        (got (1 ∷ 2 ∷ []) ∷ failed 11 ∷ got (3 ∷ 0 ∷ 4 ∷ []) ∷ [])
      ≡ ok (lines (b'h' ∷ []) (got (1 ∷ 2 ∷ []) ∷ failed 11 ∷ got (3 ∷ 0 ∷ 4 ∷ []) ∷ []), d))
    × IsReady 4 d.input
receive_all_lem_example =
    receive_all_lem 4 (b'h' ∷ []) (got (1 ∷ 2 ∷ []) ∷ failed 11 ∷ got (3 ∷ 0 ∷ 4 ∷ []) ∷ []) fresh
      blank-IsReady (omega arith)

printed :
    lines (b'h' ∷ []) (got (3 ∷ 0 ∷ 4 ∷ []) ∷ []) ≡ received 3 (b'h' ∷ []) ∷ content (3 ∷ []) ∷ []
printed = refl
