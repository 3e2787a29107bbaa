-- ===== src/Net/Server/Run/Peer.antt =====
-- The peer closes its end: a read of no bytes.
use neconet.Prelude.{
  ℕ, ◌≡◌, refl, ap, ◌∙◌, ◌⊎◌, inl, inr, List, [], ◌∷◌, ◌++◌, some, none, ok, true, false, ◌&&◌,
  Bool-cases, ◌>>=◌, arith,
}
use neconet.Base.Text.{Text}
use neconet.Base.Text.Laws.{update_text_self}
use neconet.Net.Buffer.{got}
use neconet.Net.Buffer.Read.{read_fd-ReadsAll}
use neconet.Net.Channel.{Callback, error, read, write, handle_event, Channel}
use neconet.Net.Connection.{
  Connection, Event, errors, readable, writable, Written, writing, step, handle_error, handle_read,
}
use neconet.Net.Connection.Attached.{IsAttached-same, handle_close-IsAttached}
use neconet.Net.Connection.Reading.{handle_read-end, handle_write-quiet}
use neconet.Net.Server.{Server, Member, remove_connection}
use neconet.Net.Server.Members.{stored, with_member-ok}
use neconet.Net.Server.Run.{IsLive, is_closing, on_event, call_all, dispatch}
use neconet.Net.Server.Run.Sound.{IsSound}
use neconet.Net.Server.Run.Closing.{remove_connection-ok, removed, removed-IsSound}
use neconet.Net.Server.Run.Inv.{body, own_fd, attached, stored-IsSound, stored-IsLive}

write_quiet : (c : Connection) (w : Written) → writing c ≡ false → step c (writable w) ≡ ok c
unfolding step
write_quiet c w e = handle_write-quiet c w e

error_quiet : (c : Connection) → step c errors ≡ ok c
unfolding step handle_error
error_quiet c = refl

-- The callbacks that `HandleEvent` makes when there is something to read.
callbacks_lem :
    (c : Channel)
    → c.revents.pollin ≡ true
    → c.has_read ≡ true
    → (ks : List Callback) × ((ks ≡ []) ⊎ (ks ≡ write ∷ []))
      × ((handle_event c ≡ read ∷ ks) ⊎ (handle_event c ≡ error ∷ read ∷ ks))
unfolding handle_event
callbacks_lem c i r = elim (Bool-cases (c.revents.pollout && c.has_write)) [
  | inl e ↦ (write ∷ [], inr refl, ground (arith, i, r, e))
  | inr e ↦ ([], inl refl, ground (arith, i, r, e))
]

module _ (s : Server) (p : ℕ) (m : Member) (h : IsSound s) (l : IsLive s p m) where
  -- An event that changes nothing in the connection.
  idle_event :
      (e : Event)
      → is_closing e ≡ false
      → step (body s p m h l) e ≡ ok (body s p m h l)
      → on_event s p e ≡ ok (stored s p m (body s p m h l))
  unfolding on_event
  idle_event e c x =
      rw (with_member-ok s p (λ d. step d e) m (body s p m h l) l.present x) (rw c refl)

  -- The read of no bytes.
  read_end :
      neconet.Net.Buffer.Inv.IsValid m.body.input
      → s.connection_map m.name ≡ some p
      → (t : Server) × (n : Member) × (on_event s p (readable (got [])) ≡ ok t)
        × IsSound t
        × IsLive t p n
        × (t.connection_map m.name ≡ none)
        × (t.destroying ≡ s.destroying ++ (p ∷ []))
        × ((t.poller.heap n.body.channel).events.pollout ≡ false)
  unfolding on_event step
  read_end v x =
      let (input, e, _, _) =
        read_fd-ReadsAll m.body.input [] v (omega arith) (inl (let w = v.within in omega arith)) in
      let c : Connection = record (body s p m h l) { input = input } in
      let (d, y, a, quiet) =
        handle_close-IsAttached s.poller.channels_map m.body.channel (own_fd s p m h l) c (
          IsAttached-same s.poller.channels_map m.body.channel (own_fd s p m h l) (body s p m h l) c
            refl refl refl (attached s p m h l)) in
      let r : Server = stored s p m d in
      let n : Member = record m { body = d } in
      let k = stored-IsSound s p m h l d a in
      let j = stored-IsLive s p m h l d a in
      (
        removed r p n k j x,
        n,
        ap (λ o. o >>= λ t. remove_connection t p)
              (with_member-ok s p (λ b. handle_read b (got [])) m d l.present
                (handle_read-end (body s p m h l) input e ∙ y))
            ∙ remove_connection-ok r p n k j x,
        removed-IsSound r p n k j x,
        record { present = j.present; state = j.state },
        update_text_self s.connection_map m.name none,
        refl,
        quiet,
      )

-- The server after the peer of the connection at `p` closed its end.
pub record IsLeft (s t : Server) (p : ℕ) (name : Text) : Type 0 where
  pub sound : IsSound t
  pub unnamed : t.connection_map name ≡ none
  pub functors : t.destroying ≡ s.destroying ++ (p ∷ [])

module _ (s : Server) (p : ℕ) (m : Member) (h : IsSound s) (l : IsLive s p m) (w : Written)
    (v : neconet.Net.Buffer.Inv.IsValid m.body.input) (x : s.connection_map m.name ≡ some p) where
  -- The read, and a write callback behind it.
  read_last :
      (ks : List Callback)
      → ((ks ≡ []) ⊎ (ks ≡ write ∷ []))
      → (t : Server) × (call_all s p (got []) w (read ∷ ks) ≡ ok t) × IsLeft s t p m.name
  unfolding call_all
  read_last ks (inl e) =
      let (t, n, y, k, _, u, f, _) = read_end s p m h l v x in
      (t, rw e (rw y refl), record { sound = k; unnamed = u; functors = f })
  read_last ks (inr e) =
      let (t, n, y, k, j, u, f, quiet) = read_end s p m h l v x in
      let b = body t p n k j in
      let z = idle_event t p n k j (writable w) refl (write_quiet b w quiet) in
      (
        stored t p n b,
        rw e (rw y (rw z refl)),
        record {
          sound = stored-IsSound t p n k j b (attached t p n k j);
          unnamed = u;
          functors = f;
        },
      )

-- `HandleEvent` for a connection that is in the map of a sound server, when its channel has something to
-- read and a read callback, and `readv` gives no byte, since the peer has closed its end: whatever else
-- is reported with it and whatever `write` would give, no assertion fails if the input buffer is valid.
-- The server is sound, the connection is out of the map, and its ConnectDestroyed waits behind the others.
pub peer_close_lem :
    (s : Server) (p : ℕ) (m : Member) (w : Written)
    → IsSound s
    → IsLive s p m
    → s.connection_map m.name ≡ some p
    → neconet.Net.Buffer.Inv.IsValid m.body.input
    → (s.poller.heap m.body.channel).revents.pollin ≡ true
    → (s.poller.heap m.body.channel).has_read ≡ true
    → (t : Server) × (dispatch s p (got []) w ≡ ok t) × IsLeft s t p m.name
unfolding dispatch call_all
peer_close_lem s p m w h l x v i r =
    let (ks, few, all) = callbacks_lem (s.poller.heap m.body.channel) i r in
    elim all [
      | inl e ↦
          let (t, y, k) = read_last s p m h l w v x ks few in
          (t, rw l.present (ap (call_all s p (got []) w) e ∙ y), k)
      | inr e ↦
          let b = body s p m h l in
          let a = attached s p m h l in
          let first = idle_event s p m h l errors refl (error_quiet b) in
          let (t, y, k) =
            read_last (stored s p m b) p (record m { body = b }) (stored-IsSound s p m h l b a)
              (stored-IsLive s p m h l b a) w v x ks few in
          (
            t,
            rw l.present (
                ap (call_all s p (got []) w) e
                ∙ ap (λ o. o >>= λ u. call_all u p (got []) w (read ∷ ks)) first
                ∙ y),
            record { sound = k.sound; unnamed = k.unnamed; functors = k.functors },
          )
    ]
