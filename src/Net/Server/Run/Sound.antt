-- ===== src/Net/Server/Run/Sound.antt =====
-- The invariant of a server with any number of connections.
use neconet.Prelude.{ℕ, ◌<◌, ◌≡◌, ◌⊎◌, some, none, get_elem?}
use neconet.Base.Text.{Text}
use neconet.Net.Poller.Inv.{IsValid}
use neconet.Net.Server.{Server, Member, conn_name}
use neconet.Net.Server.Run.{IsLive}

-- A connection's channel is registered, and its name has a number that the server gave.
pub record IsGood (s : Server) (m : Member) : Type 0 where
  pub fd : ℕ
  pub registered : s.poller.channels_map fd ≡ some m.body.channel
  pub id : ℕ
  pub numbered : m.name ≡ conn_name s id
  pub older : id < s.next_conn_id

-- The `i`th functor that waits is the one of the connection at `p`.
abbrev pub Waits : Server → ℕ → ℕ → Type 0
Waits s i p = get_elem? s.destroying i ≡ some p

-- The poller is valid. A connection that is not destroyed is good, is in the map or waits for
-- ConnectDestroyed, and shares neither its channel nor its name with another one. A name in the map leads
-- to such a connection of this name. A functor that waits is that of such a connection, which is not in
-- the map, and no other waits for it.
pub record IsSound (s : Server) : Type 0 where
  pub valid : IsValid s.poller
  pub good : (p : ℕ) (m : Member) → IsLive s p m → IsGood s m
  pub kept :
      (p : ℕ) (m : Member)
      → IsLive s p m
      → (s.connection_map m.name ≡ some p) ⊎ ((i : ℕ) × Waits s i p)
  pub apart :
      (p r : ℕ) (m n : Member)
      → IsLive s p m
      → IsLive s r n
      → m.body.channel ≡ n.body.channel
      → p ≡ r
  pub named : (p r : ℕ) (m n : Member) → IsLive s p m → IsLive s r n → m.name ≡ n.name → p ≡ r
  pub mapped :
      (k : Text) (p : ℕ) → s.connection_map k ≡ some p → (m : Member) × IsLive s p m × (m.name ≡ k)
  pub queued :
      (i p : ℕ) → Waits s i p → (m : Member) × IsLive s p m × (s.connection_map m.name ≡ none)
  pub once : (i j p : ℕ) → Waits s i p → Waits s j p → i ≡ j

-- The server is sound, and the connection at `p` is not destroyed.
abbrev pub IsAt : ℕ → Server → Type 0
IsAt p s = IsSound s × (m : Member) × IsLive s p m
