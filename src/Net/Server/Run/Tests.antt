-- ===== src/Net/Server/Run/Tests.antt =====
-- A server at work: tests, and the theorems at inputs that meet their hypotheses.
use neconet.Prelude.{
  Option, Outcome, List, ℕ, ◌≡◌, ap, ◌∙◌, ◌↔◌, ◌⊎◌, refl, inl, [], ◌∷◌, ◌++◌, none, some, ok, err,
  assertion, arith,
}
use neconet.Base.Text.{Text, decimal}
use neconet.Base.Text.Laws.{update_text_self}
use neconet.Net.Buffer.{got}
use neconet.Net.Poller.{Poller, PollResult, poll, set_interest}
use neconet.Net.Channel.{read_event, interest_reading, any_event}
use neconet.Prelude.Int.{pos}
use neconet.Net.Poller.Fixtures.{empty, empty-IsValid}
use neconet.Net.Connection.{wrote, closes, connected, connect_established}
use neconet.Net.Server.{Server, Member, conn_name, new_connection, close_connection}
use neconet.Net.Server.Members.{IsAccepted, IsMember, IsKept}
use neconet.Net.Server.Life.{new_connection_lem, close_connection_lem}
use neconet.Net.Server.Run.{
  IsLive, IsNew, Reachable, at_first, after, accepts, acts, polls, dispatch, destroy_all,
}
use neconet.Net.Server.Run.Sound.{IsSound, Waits}
use neconet.Net.Server.Run.Accepting.{new_connection-IsSound}
use neconet.Net.Server.Run.Inv.{
  new-IsSound, on_event-closes, Reachable-IsSound, close_connection-IsSound,
}
use neconet.Net.Server.Run.Peer.{IsLeft, peer_close_lem}
use neconet.Net.Server.Run.Drain.{destroy_all_lem}

-- A server after its constructor.
abbrev idle : Server
idle = record {
  name = b'h' ∷ [];
  poller = empty;
  next_conn_id = 1;
  connection_map = λ id. none;
  heap = λ p. none;
  destroying = [];
}

idle-IsNew : IsNew idle
idle-IsNew = record {
  valid = empty-IsValid;
  no_name = λ k. refl;
  no_member = λ p. refl;
  none_waits = refl;
}

-- It has accepted a connection.
accepted : (t : Server) × (new_connection idle 8 3 7 ≡ ok t) × IsAccepted idle t 8 3 7
accepted = new_connection_lem idle 8 3 7 empty-IsValid (λ fd h. cc) refl (omega arith)

busy : Server
busy = accepted.0

busy-Reachable : Reachable idle busy
unfolding busy
busy-Reachable = after at_first (accepts 8 3 7 refl (λ fd h. cc) refl (omega arith) accepted.1)

Reachable-IsSound_example : IsSound busy
Reachable-IsSound_example = Reachable-IsSound idle busy idle-IsNew busy-Reachable

member : Member
member = record { name = conn_name idle 1; body = accepted.2.member.body }

busy-IsLive : IsLive busy 8 member
unfolding busy member
busy-IsLive = record {
  present = accepted.2.member.present;
  state = inl accepted.2.member.own_state;
}

close_connection-IsSound_example :
    ((t : Server) × (close_connection busy 8 ≡ ok t)
      × IsSound t
      × (busy.connection_map member.name ≡ some 8)
      × (t.connection_map member.name ≡ none)
      × (t.destroying ≡ busy.destroying ++ (8 ∷ [])))
    ⊎ (((i : ℕ) × Waits busy i 8) × (close_connection busy 8 ≡ err assertion))
close_connection-IsSound_example =
    close_connection-IsSound busy 8 member Reachable-IsSound_example busy-IsLive

-- The connection is closed, so its ConnectDestroyed waits.
closed :
    (t : Server) × (close_connection busy 8 ≡ ok t)
    × IsMember t 8 (conn_name idle 1) 7 3 connected
    × (t.connection_map (conn_name idle 1) ≡ none)
    × (t.destroying ≡ busy.destroying ++ (8 ∷ []))
    × IsKept busy t 8 (conn_name idle 1)
unfolding busy
closed = close_connection_lem busy 8 (conn_name idle 1) 7 3 accepted.2.member (
    ap (λ f. f (conn_name idle 1)) accepted.2.names
    ∙ update_text_self idle.connection_map (conn_name idle 1) (some 8))

leaving : Server
leaving = closed.0

leaving-Reachable : Reachable idle leaving
unfolding leaving
leaving-Reachable =
    after busy-Reachable (acts 8 member closes busy-IsLive tt (on_event-closes busy 8 ∙ closed.1))

destroy_all_lem_example :
    (t : Server) × (destroy_all leaving ≡ ok t)
    × IsSound t
    × (t.destroying ≡ [])
    × (t.connection_map ≡ leaving.connection_map)
    × ((p : ℕ) (k : Text)
        → (t.connection_map k ≡ some p) ↔ ((m : Member) × IsLive t p m × (m.name ≡ k)))
destroy_all_lem_example =
    destroy_all_lem leaving (Reachable-IsSound idle leaving idle-IsNew leaving-Reachable)

abbrev value_of : Outcome Server → Server
value_of (ok t) = t
value_of (err f) = idle

-- The same server, computed.
abbrev one_connection : Server
one_connection = value_of (new_connection idle 8 3 7)

one_connection-ok : new_connection idle 8 3 7 ≡ ok one_connection
unfolding new_connection neconet.Net.Channel.init neconet.Net.Buffer.init connect_established
    set_interest interest_reading decimal any_event
one_connection-ok = refl

-- `poll` says that there is something to read.
abbrev result : PollResult
result = record {
  num_events = pos 1;
  entries = record { fd = pos 7; events = read_event; revents = read_event } ∷ [];
}

abbrev polled : Outcome (Poller × List ℕ)
polled = poll one_connection.poller result

abbrev poller_of : Outcome (Poller × List ℕ) → Poller
poller_of (ok (t, found)) = t
poller_of (err f) = empty

abbrev readable_server : Server
readable_server = record one_connection { poller = poller_of polled }

readable-Reachable : Reachable idle readable_server
unfolding new_connection neconet.Net.Channel.init neconet.Net.Buffer.init connect_established
    set_interest interest_reading decimal any_event poll
readable-Reachable =
    after (after at_first (accepts 8 3 7 refl (λ fd h. cc) refl (omega arith) one_connection-ok)) (
      polls result (3 ∷ []) (record { answer = (refl, refl, (λ e. (7, refl)), tt); count = refl })
        refl)

abbrev member_of : Option Member → Member
member_of none = member
member_of (some m) = m

abbrev reader : Member
reader = member_of (readable_server.heap 8)

peer_close_lem_example :
    (t : Server) × (dispatch readable_server 8 (got []) (wrote 0) ≡ ok t)
    × IsLeft readable_server t 8 reader.name
unfolding new_connection neconet.Net.Channel.init neconet.Net.Buffer.init connect_established
    set_interest interest_reading decimal any_event poll
peer_close_lem_example =
    peer_close_lem readable_server 8 reader (wrote 0)
      (Reachable-IsSound idle readable_server idle-IsNew readable-Reachable)
      (record { present = refl; state = inl refl }) refl (omega arith) refl refl

new_connection-IsSound_example : (t : Server) × (new_connection idle 8 3 7 ≡ ok t) × IsSound t
new_connection-IsSound_example =
    new_connection-IsSound idle 8 3 7 (new-IsSound idle idle-IsNew) refl (λ fd h. cc) refl
      (omega arith)
