-- ===== src/Net/Connection/Lifecycle.antt =====
-- The states of a connection: from the constructor to ConnectDestroyed.
use neconet.Prelude.{
  ℕ, ◌≡◌, refl, ap, ◌∙◌, ◌⊎◌, inl, inr, true, ◌∷◌, some, none, ◌≢◌, assertion, ok, err, ◌||◌,
  if◌then◌else◌,
}
use neconet.Prelude.Int.{negsuc}
use neconet.Net.Channel.{is_none_event}
use neconet.Net.Poller.{PollFd, disable_all}
use neconet.Net.Poller.Inv.{IsListed, IsValid}
use neconet.Net.Poller.Ignored.{
  IsIgnored, entry_after, set_interest_lem, none-disable_all, any-disable_all,
}
use neconet.Net.Poller.Remove.{remove_channel-IsRemoved}
use neconet.Net.Connection.{
  Connection, State, connected, disconnected, disconnecting, connection_notice, close_notice,
  connect_destroyed, handle_close, is_connected, is_disconnecting,
}

-- A connection that `ConnectDestroyed` and `__HandleClose` accept.
abbrev pub IsOpen : State → Type 0
IsOpen s = (s ≡ connected) ⊎ (s ≡ disconnecting)

pub open_test : (s : State) → IsOpen s → (is_connected s || is_disconnecting s) ≡ true
open_test s (inl e) = rw e
open_test s (inr e) = rw e

module _ (c : Connection) (fd i : ℕ) (e : PollFd) (o : IsOpen c.state) (v : IsValid c.poller)
    (m : c.poller.channels_map fd ≡ some c.channel) (l : IsListed c.poller fd c.channel i e) where
  -- `__HandleClose` of an open connection, whose channel is registered in a valid poller, fails no
  -- assertion, makes `poll` ignore its entry and calls the close callback; the connection keeps its
  -- channel, its registration and its state.
  pub handle_close_lem :
      (d : Connection) × (handle_close c ≡ ok d)
      × IsIgnored d.poller fd c.channel i
      × (d.state ≡ c.state)
      × (d.notices ≡ close_notice ∷ c.notices)
      × (d.channel ≡ c.channel)
  unfolding handle_close
  handle_close_lem =
      let (t, r, w, n, k, _, _) = set_interest_lem disable_all c.poller fd c.channel i e v m l in
      (
        record c { poller = t; notices = close_notice ∷ c.notices },
        rw (open_test c.state o) (rw r),
        record {
          valid = w;
          registered = ap (λ f. f fd) n ∙ m;
          entry = entry_after disable_all c.poller fd c.channel e;
          listed = k;
          ignored =
              ap (λ b. if b then negsuc fd else e.fd) (none-disable_all (c.poller.heap c.channel));
        },
        refl,
        refl,
        refl,
      )

  -- `ConnectDestroyed` of an open connection, whose channel is registered in a valid poller, fails
  -- no assertion: the connection is disconnected, the poller is valid, the descriptor is no longer
  -- registered, the others are as before, and the connection callback was called.
  pub connect_destroyed_lem :
      (d : Connection) × (connect_destroyed c ≡ ok d)
      × (d.state ≡ disconnected)
      × IsValid d.poller
      × (d.poller.channels_map fd ≡ none)
      × ((g : ℕ) → g ≢ fd → d.poller.channels_map g ≡ c.poller.channels_map g)
      × (d.notices ≡ connection_notice ∷ c.notices)
  unfolding connect_destroyed
  connect_destroyed_lem =
      let (t, r, w, n, k, now, _) = set_interest_lem disable_all c.poller fd c.channel i e v m l in
      let (u, q, gone) =
        remove_channel-IsRemoved t w fd c.channel i
          (entry_after disable_all c.poller fd c.channel e) (ap (λ f. f fd) n ∙ m) k
          (ap is_none_event now ∙ none-disable_all (c.poller.heap c.channel))
          (ap (λ b. if b then negsuc fd else e.fd) (none-disable_all (c.poller.heap c.channel)))
          (any-disable_all (c.poller.heap c.channel)) in
      (
        record c { poller = u; state = disconnected; notices = connection_notice ∷ c.notices },
        rw (open_test c.state o) (rw r (rw q)),
        refl,
        gone.valid,
        gone.gone,
        (λ g h. gone.others g h ∙ ap (λ f. f g) n),
        refl,
      )

-- A second `ConnectDestroyed` or `__HandleClose` aborts: both want an open connection.
pub destroyed_twice :
    (c : Connection)
    → c.state ≡ disconnected
    → (connect_destroyed c ≡ err assertion) × (handle_close c ≡ err assertion)
unfolding connect_destroyed handle_close
destroyed_twice c e = (rw e refl, rw e refl)
