-- ===== src/Net/Server/Life.antt =====
-- The life of a connection: accepted, closed and destroyed.
use neconet.Prelude.{
  update, update_self, update_ne, ℕ, suc, ◌<◌, ◌≡◌, ◌≢◌, refl, sym, ap, ◌∙◌, inl, List, [], ◌∷◌,
  ◌++◌, none, some, ok, lt→ltb, ◌>>=◌, replicate,
}
use neconet.Base.Text.{Text, update_text}
use neconet.Base.Text.Laws.{update_text_self, update_text_ne}
use neconet.Net.Buffer.{Buffer}
use neconet.Net.Channel.{Channel}
use neconet.Net.Poller.{Poller, PollFd, set_interest, enable_reading}
use neconet.Net.Poller.Inv.{IsListed, IsValid}
use neconet.Net.Poller.Fresh.{IsFresh, fresh-IsValid, set_interest_adds}
use neconet.Net.Connection.{
  Connection, connecting, connected, connect_established, connection_notice, notify, handle_close,
  connect_destroyed,
}
use neconet.Net.Connection.Lifecycle.{handle_close_lem, connect_destroyed_lem}
use neconet.Net.Server.Members.{IsMember, IsKept, IsAccepted, IsKept-trans, stored, with_member-ok}
use neconet.Net.Server.{
  close_connection, remove_connection, destroy_next, run_oldest, Member, Server, new_channel,
  new_body, conn_name, int_bound, with_member, registered, new_connection,
}

abbrev established_body : Connection → Poller → Connection
established_body c t = notify (record c { state = connected; poller = t }) connection_notice

connect_established-ok :
    (c : Connection) (t : Poller)
    → c.state ≡ connecting
    → set_interest enable_reading c.poller c.channel ≡ ok t
    → connect_established c ≡ ok (established_body c t)
unfolding connect_established
connect_established-ok c t h e = rw h (rw e refl)

abbrev placed : Poller → ℕ → ℕ → Poller
placed s q fd = record s { heap = update s.heap q (new_channel fd) }

-- A new connection.
established :
    (s : Server) (p q fd : ℕ) (input output : Buffer)
    → IsValid s.poller
    → IsFresh s.poller q
    → s.poller.channels_map fd ≡ none
    → (t : Server) × (with_member (registered s p q fd input output) p connect_established ≡ ok t)
      × IsAccepted s t p q fd
unfolding registered neconet.Net.Channel.init
established s p q fd input output v f m =
    let b : Poller = placed s.poller q fd in
    let c : b.heap q ≡ new_channel fd = update_self s.poller.heap q (new_channel fd) in
    let c_fd : (b.heap q).fd ≡ fd = ap (λ (d : Channel). d.fd) c in
    let (t, e, w, n, u) =
      set_interest_adds enable_reading b q 0 (fresh-IsValid s.poller q (new_channel fd) v f)
        (ap (λ (d : Channel). d.index) c) (ap s.poller.channels_map c_fd ∙ m) in
    let body : Connection = new_body b q input output in
    let member : Member = record { name = conn_name s s.next_conn_id; body = body } in
    let r : Server = registered s p q fd input output in
    (
      stored r p member (established_body body t),
      with_member-ok r p connect_established member (established_body body t)
          (update_self s.heap p (some member)) (connect_established-ok body t refl e),
      record {
        member = record {
          valid = w;
          body = established_body body t;
          present = update_self r.heap p (some (record member { body = established_body body t }));
          own_channel = refl;
          own_state = refl;
          listed = ap t.channels_map (sym c_fd) ∙ n;
        };
        channels = u ∙ ap (λ k. update s.poller.channels_map k (some q)) c_fd;
        names = refl;
        next = refl;
        functors = refl;
        name = refl;
        kept = record {
          names = λ k d. update_text_ne s.connection_map (conn_name s s.next_conn_id) (some p) k d;
          members = λ i d. update_ne r.heap p _ i d ∙ update_ne s.heap p _ i d;
        };
      },
    )

abbrev fresh_buffer : Buffer
fresh_buffer = record { bytes = replicate 1032 0; reader_index = 8; writer_index = 8 }

-- `__NewConnection` in a server with a valid poller, for a descriptor that is not registered and
-- with a channel at a new address, fails no assertion, as long as the next number fits into an
-- `int`: the connection gets the next number, its name leads to it, it is connected, its channel is
-- registered in a valid poller, and no `ConnectDestroyed` is left with the loop.
pub new_connection_lem :
    (s : Server) (p q fd : ℕ)
    → IsValid s.poller
    → IsFresh s.poller q
    → s.poller.channels_map fd ≡ none
    → suc s.next_conn_id < int_bound
    → (t : Server) × (new_connection s p q fd ≡ ok t) × IsAccepted s t p q fd
unfolding new_connection neconet.Net.Buffer.init
new_connection_lem s p q fd v f m small =
    let (t, e, a) = established s p q fd fresh_buffer fresh_buffer v f m in
    (t, rw (lt→ltb (suc s.next_conn_id) int_bound small) e, a)

module _ (s : Server) (p : ℕ) (name : Text) (fd q : ℕ) (h : IsMember s p name fd q connected) where
  body : Connection
  body = record h.body { poller = s.poller }

  registered_own : s.poller.channels_map fd ≡ some body.channel
  unfolding body
  registered_own = h.listed ∙ ap some (sym h.own_channel)

  -- `__HandleClose` of a connected connection of the server fails no assertion: its name leaves the map,
  -- its `ConnectDestroyed` is left with the loop, and the connection stays connected and registered.
  pub close_connection_lem :
      s.connection_map name ≡ some p
      → (t : Server) × (close_connection s p ≡ ok t)
        × IsMember t p name fd q connected
        × (t.connection_map name ≡ none)
        × (t.destroying ≡ s.destroying ++ (p ∷ []))
        × IsKept s t p name
  unfolding close_connection remove_connection body
  close_connection_lem m =
      let (i, e, l) = s_listed in
      let (d, x, g, st, _, ch) =
        handle_close_lem body fd i e (inl h.own_state) h.valid registered_own l in
      let member : Member = record { name = name; body = h.body } in
      let r : Server = stored s p member d in
      let here : r.heap p ≡ some (record { name = name; body = d }) =
        update_self s.heap p (some (record { name = name; body = d })) in
      (
        record r {
          connection_map = update_text s.connection_map name none;
          destroying = s.destroying ++ (p ∷ []);
        },
        rw (with_member-ok s p handle_close member d h.present x) (rw here (rw m refl)),
        record {
          valid = g.valid;
          body = d;
          present = here;
          own_channel = ch ∙ h.own_channel;
          own_state = st ∙ h.own_state;
          listed = g.registered ∙ ap some h.own_channel;
        },
        update_text_self s.connection_map name none,
        refl,
        record {
          names = λ k d. update_text_ne s.connection_map name none k d;
          members = λ i d. update_ne s.heap p _ i d;
        },
      )
    where
      s_listed : (i : ℕ) × (e : PollFd) × IsListed s.poller fd body.channel i e
      s_listed = h.valid.listed fd body.channel registered_own

  -- The loop then runs `ConnectDestroyed`: it fails no assertion, the connection is disconnected, its
  -- descriptor is no longer registered, the others are, and the poller is valid.
  pub destroy_next_lem :
      (rest : List ℕ)
      → s.destroying ≡ p ∷ rest
      → (t : Server) × (destroy_next s ≡ ok t)
        × IsValid t.poller
        × (t.poller.channels_map fd ≡ none)
        × ((g : ℕ) → g ≢ fd → t.poller.channels_map g ≡ s.poller.channels_map g)
        × (t.destroying ≡ rest)
        × (t.connection_map ≡ s.connection_map)
        × IsKept s t p name
  unfolding destroy_next run_oldest body
  destroy_next_lem rest u =
      let (i, e, l) = h.valid.listed fd body.channel registered_own in
      let (d, x, _, w, gone, others, _) =
        connect_destroyed_lem body fd i e (inl h.own_state) h.valid registered_own l in
      let r : Server = record s { destroying = rest } in
      let member : Member = record { name = name; body = h.body } in
      (
        stored r p member d,
        rw u (with_member-ok r p connect_destroyed member d h.present x),
        w,
        gone,
        others,
        refl,
        refl,
        record { names = λ k d. refl; members = λ i d. update_ne s.heap p _ i d },
      )

-- In a server with a valid poller, in which no `ConnectDestroyed` waits and the next number fits
-- into an `int`, a connection that `__NewConnection` makes for a descriptor that is not registered,
-- with a channel at a new address, and that is then closed and destroyed, leaves nothing behind:
-- none of the three steps fails an assertion, its name is not in the map, its descriptor is not
-- registered, no `ConnectDestroyed` waits, the poller is valid, and all other names and connections are as
-- they were.
pub life_lem :
    (s : Server) (p q fd : ℕ)
    → IsValid s.poller
    → IsFresh s.poller q
    → s.poller.channels_map fd ≡ none
    → suc s.next_conn_id < int_bound
    → s.destroying ≡ []
    → (u : Server) × ((new_connection s p q fd >>= λ t. close_connection t p >>= destroy_next)
        ≡ ok u)
      × IsValid u.poller
      × (u.poller.channels_map fd ≡ none)
      × (u.connection_map (conn_name s s.next_conn_id) ≡ none)
      × (u.destroying ≡ [])
      × IsKept s u p (conn_name s s.next_conn_id)
life_lem s p q fd v f m small none_left =
    let (t, e, a) = new_connection_lem s p q fd v f m small in
    let c : t.connection_map (conn_name s s.next_conn_id) ≡ some p =
      ap (λ g. g (conn_name s s.next_conn_id)) a.names
      ∙ update_text_self s.connection_map (conn_name s s.next_conn_id) (some p) in
    let (r, e', i', c', d', k') =
      close_connection_lem t p (conn_name s s.next_conn_id) fd q a.member c in
    let (u, e'', w, gone, _, last, same, k'') =
      destroy_next_lem r p (conn_name s s.next_conn_id) fd q i' []
        (d' ∙ ap (λ l. l ++ (p ∷ [])) (a.functors ∙ none_left)) in
    (
      u,
      rw e (rw e' e''),
      w,
      gone,
      ap (λ g. g (conn_name s s.next_conn_id)) same ∙ c',
      last,
      IsKept-trans s t u p (conn_name s s.next_conn_id) a.kept
          (IsKept-trans t r u p (conn_name s s.next_conn_id) k' k''),
    )
