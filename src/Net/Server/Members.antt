-- ===== src/Net/Server/Members.antt =====
-- The connections of a server on its heap.
use neconet.Prelude.{ℕ, suc, ◌≡◌, ◌≢◌, refl, ◌∙◌, some, ok, update, Outcome}
use neconet.Base.Text.{Text, update_text}
use neconet.Net.Poller.Inv.{IsValid}
use neconet.Net.Connection.{Connection, State, connected}
use neconet.Net.Server.{Member, Server, conn_name, with_member}

-- A connection of the server, with its number and state and its channel in a valid poller.
pub record IsMember (s : Server) (p : ℕ) (name : Text) (fd q : ℕ) (state : State) : Type 0 where
  pub valid : IsValid s.poller
  pub body : Connection
  pub present : s.heap p ≡ some (record { name = name; body = body })
  pub own_channel : body.channel ≡ q
  pub own_state : body.state ≡ state
  pub listed : s.poller.channels_map fd ≡ some q

-- The names and the connections other than this one stay.
pub record IsKept (s t : Server) (p : ℕ) (name : Text) : Type 0 where
  pub names : (k : Text) → k ≢ name → t.connection_map k ≡ s.connection_map k
  pub members : (r : ℕ) → r ≢ p → t.heap r ≡ s.heap r

pub IsKept-trans :
    (s t u : Server) (p : ℕ) (name : Text)
    → IsKept s t p name
    → IsKept t u p name
    → IsKept s u p name
IsKept-trans s t u p name h k = record {
  names = λ j d. k.names j d ∙ h.names j d;
  members = λ r d. k.members r d ∙ h.members r d;
}

abbrev pub stored : Server → ℕ → Member → Connection → Server
stored s p m d = record s {
  poller = d.poller;
  heap = update s.heap p (some (record m { body = d }));
}

pub with_member-ok :
    (s : Server) (p : ℕ) (f : Connection → Outcome Connection) (m : Member) (d : Connection)
    → s.heap p ≡ some m
    → f (record m.body { poller = s.poller }) ≡ ok d
    → with_member s p f ≡ ok (stored s p m d)
unfolding with_member
with_member-ok s p f m d h e = rw h (rw e refl)

-- The server `t` is `s` with a new connection at `p`.
pub record IsAccepted (s t : Server) (p q fd : ℕ) : Type 0 where
  pub member : IsMember t p (conn_name s s.next_conn_id) fd q connected
  pub channels : t.poller.channels_map ≡ update s.poller.channels_map fd (some q)
  pub names : t.connection_map ≡ update_text s.connection_map (conn_name s s.next_conn_id) (some p)
  pub next : t.next_conn_id ≡ suc s.next_conn_id
  pub functors : t.destroying ≡ s.destroying
  pub name : t.name ≡ s.name
  pub kept : IsKept s t p (conn_name s s.next_conn_id)
