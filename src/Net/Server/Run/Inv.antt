-- ===== src/Net/Server/Run/Inv.antt =====
-- Whatever happens in a server with any number of connections, it stays sound.
use neconet.Prelude.{
  ℕ, ◌≡◌, refl, sym, ap, ◌∙◌, ◌⊎◌, inl, inr, List, [], ◌∷◌, ◌++◌, some, none, ok, err, assertion,
  Outcome, OnOk, OnOk-bind, OnOk-if, ◌>>=◌, get_elem?, subst, update_self,
}
use neconet.Base.Text.Laws.{update_text_self}
use neconet.Net.Buffer.{Readv}
use neconet.Net.Channel.{Callback, close, error, read, write, handle_event}
use neconet.Net.Poller.{Poller}
use neconet.Net.Poller.Inv.{IsValid}
use neconet.Net.Poller.Poll.{poll_lem}
use neconet.Net.Connection.{Connection, Event, Written, step, closes, handle_close}
use neconet.Net.Connection.Attached.{IsAttached, IsInner, handle_close-IsAttached}
use neconet.Net.Connection.Attached.Steps.{step-IsAttached}
use neconet.Net.Server.{
  Server, Member, with_member, close_connection, remove_connection, destroy_next, run_oldest,
}
use neconet.Net.Server.Members.{stored, with_member-ok}
use neconet.Net.Server.Run.{
  IsLive, IsNew, is_closing, on_event, handler, call_all, dispatch, Step, accepts, polls, acts,
  destroys, Reachable, at_first, after,
}
use neconet.Net.Server.Run.Sound.{IsSound, IsAt, Waits}
use neconet.Net.Server.Run.Same.{stored-IsRenewed, polled-IsRenewed, IsRenewed-IsSound}
use neconet.Net.Server.Run.Closing.{
  remove_connection-IsAt, remove_connection-ok, remove_connection-err, removed, removed-IsSound,
  Waits-none,
}
use neconet.Net.Server.Run.Accepting.{new_connection-IsSound}
use neconet.Net.Server.Run.Leaving.{destroy_next-IsSound}

-- The close event is `__HandleClose` with its callback.
pub on_event-closes : (s : Server) (p : ℕ) → on_event s p closes ≡ close_connection s p
unfolding on_event close_connection step
on_event-closes s p = refl

module _ (s : Server) (p : ℕ) (m : Member) (h : IsSound s) (l : IsLive s p m) where
  abbrev pub body : Connection
  body = record m.body { poller = s.poller }

  pub own_fd : ℕ
  own_fd = (h.good p m l).fd

  pub attached : IsAttached s.poller.channels_map m.body.channel own_fd body
  unfolding own_fd
  attached = record {
    valid = h.valid;
    map = refl;
    listed = (h.good p m l).registered;
    channel = refl;
    state = l.state;
  }

  pub stored-IsSound :
      (d : Connection)
      → IsAttached s.poller.channels_map m.body.channel own_fd d
      → IsSound (stored s p m d)
  stored-IsSound d a = IsRenewed-IsSound s (stored s p m d) h (stored-IsRenewed s p own_fd m d l a)

  pub stored-IsLive :
      (d : Connection)
      → IsAttached s.poller.channels_map m.body.channel own_fd d
      → IsLive (stored s p m d) p (record m { body = d })
  stored-IsLive d a = record { present = update_self s.heap p _; state = a.state }

  with_member-IsAt :
      (f : Connection → Outcome Connection)
      → OnOk (IsAttached s.poller.channels_map m.body.channel own_fd) (f body)
      → OnOk (IsAt p) (with_member s p f)
  unfolding with_member
  with_member-IsAt f a = rw l.present (
      OnOk-bind _ _ (f body) _ a
        λ d k. (stored-IsSound d k, record m { body = d }, stored-IsLive d k))

  -- An event of a connection that is not destroyed, if its handler returns, leaves the server sound and
  -- the connection where it is.
  pub on_event-IsAt : (e : Event) → IsInner e → OnOk (IsAt p) (on_event s p e)
  unfolding on_event
  on_event-IsAt e i =
      OnOk-bind (IsAt p) _ (with_member s p (λ c. step c e)) _
        (with_member-IsAt (λ c. step c e)
          (step-IsAttached s.poller.channels_map m.body.channel own_fd body e i attached))
        λ t (k, n, j).
          OnOk-if _ (is_closing e) _ _ (λ _. remove_connection-IsAt t p n k j) (λ _. (k, n, j))

  -- `__HandleClose` of a connection that is not destroyed aborts exactly if the connection was closed
  -- before, so that its ConnectDestroyed waits. Else it leaves the server sound, with its name out of
  -- the map and its ConnectDestroyed behind those that waited.
  pub close_connection-IsSound :
      ((t : Server) × (close_connection s p ≡ ok t)
        × IsSound t
        × (s.connection_map m.name ≡ some p)
        × (t.connection_map m.name ≡ none)
        × (t.destroying ≡ s.destroying ++ (p ∷ [])))
      ⊎ (((i : ℕ) × Waits s i p) × (close_connection s p ≡ err assertion))
  unfolding close_connection
  close_connection-IsSound =
      let (d, e, a, _) =
        handle_close-IsAttached s.poller.channels_map m.body.channel own_fd body attached in
      let step = with_member-ok s p handle_close m d l.present e in
      let k = stored-IsSound d a in
      let j = stored-IsLive d a in
      elim (h.kept p m l) [
        | inl x ↦ inl (
          removed (stored s p m d) p (record m { body = d }) k j x,
          ap (λ o. o >>= λ t. remove_connection t p) step
              ∙ remove_connection-ok (stored s p m d) p (record m { body = d }) k j x,
          removed-IsSound (stored s p m d) p (record m { body = d }) k j x,
          x,
          update_text_self s.connection_map m.name none,
          refl,
        )
        | inr (i, x) ↦ inr (
          (i, x),
          ap (λ o. o >>= λ t. remove_connection t p) step
              ∙ remove_connection-err (stored s p m d) p (record m { body = d }) j.present
                  (Waits-none s p i m h l x),
        )
      ]

-- The callbacks of one `HandleEvent`, one after the other.
call_all-IsAt :
    (s : Server) (p : ℕ) (r : Readv) (w : Written) (ks : List Callback)
    → IsAt p s
    → OnOk (IsAt p) (call_all s p r w ks)
unfolding call_all
call_all-IsAt s p r w [] h = h
call_all-IsAt s p r w (k ∷ ks) (h, m, l) =
    OnOk-bind (IsAt p) (IsAt p) (on_event s p (handler r w k)) _
      (on_event-IsAt s p m h l (handler r w k) (inner k)) λ t j. call_all-IsAt t p r w ks j
  where
    inner : (c : Callback) → IsInner (handler r w c)
    inner close = tt
    inner error = tt
    inner read = tt
    inner write = tt

-- `HandleEvent` for a connection of a sound server that is not destroyed, whatever the events and whatever
-- `readv` and `write` give, leaves the server sound if it returns.
pub dispatch-IsAt :
    (s : Server) (p : ℕ) (m : Member) (r : Readv) (w : Written)
    → IsSound s
    → IsLive s p m
    → OnOk (IsAt p) (dispatch s p r w)
unfolding dispatch
dispatch-IsAt s p m r w h l =
    rw l.present (call_all-IsAt s p r w (handle_event (s.poller.heap m.body.channel)) (h, m, l))

pub new-IsSound : (s : Server) → IsNew s → IsSound s
new-IsSound s n = record {
  valid = n.valid;
  good = λ p m l. absurd (nobody p m l);
  kept = λ p m l. absurd (nobody p m l);
  apart = λ p r m o l k e. absurd (nobody p m l);
  named = λ p r m o l k e. absurd (nobody p m l);
  mapped = λ k p e. absurd (let x = n.no_name k in cc);
  queued = λ i p e. absurd (nothing i p e);
  once = λ i j p e f. absurd (nothing i p e);
}
  where
    nobody : (p : ℕ) (m : Member) → IsLive s p m → ⊥
    nobody p m l = let x = n.no_member p in let y = l.present in cc

    nothing : (i p : ℕ) → Waits s i p → ⊥
    nothing i p e = let x : none ≡ some p = sym (ap (λ y. get_elem? y i) n.none_waits) ∙ e in cc

at_ok {ℓ κ} : {A : Type ℓ} (P : A → Type κ) (m : Outcome A) (a : A) → m ≡ ok a → OnOk P m → P a
at_ok P m a e h = subst (OnOk P) e h

destroy_next-keeps : (s t : Server) → IsSound s → destroy_next s ≡ ok t → IsSound t
unfolding destroy_next run_oldest
destroy_next-keeps s t h e = go s.destroying refl
  where
    go : (l : List ℕ) → s.destroying ≡ l → IsSound t
    go [] x =
        let y : ok s ≡ ok t = sym (ap (run_oldest s) x) ∙ e in
        let z : s ≡ t = cc in subst IsSound z h
    go (p ∷ rest) x =
        let (u, y, k, _, _) = destroy_next-IsSound s p rest h x in
        let z : ok u ≡ ok t = sym y ∙ e in let w : u ≡ t = cc in subst IsSound w k

Step-IsSound : (s t : Server) → Step s t → IsSound s → IsSound t
Step-IsSound s t (accepts p q d new fresh unused small e) h =
    let (u, x, k) = new_connection-IsSound s p q d h new fresh unused small in
    let y : ok u ≡ ok t = sym x ∙ e in let z : u ≡ t = cc in subst IsSound z k
Step-IsSound s t (polls {poller = a} r found c e) h =
    let (u, _, x, v, same, _) = poll_lem s.poller h.valid r c in
    let y : u ≡ a = let z = sym x ∙ e in cc in
    IsRenewed-IsSound s _ h (
      polled-IsRenewed s a (subst IsValid y v) (ap (λ (b : Poller). b.channels_map) (sym y) ∙ same))
Step-IsSound s t (acts p m a l i e) h =
    (at_ok (IsAt p) (on_event s p a) t e (on_event-IsAt s p m h l a i)).0
Step-IsSound s t (destroys e) h = destroy_next-keeps s t h e

-- Every server that is reached from one after its constructor, with a valid poller, is sound: whichever
-- connections are accepted, and in whatever order the loop polls, things happen to them and they are
-- destroyed. The poller is valid; each connection that is not destroyed has a registered channel and a
-- numbered name, both its own, and is in the map or waits for ConnectDestroyed; the map leads to such
-- connections by their names, and each waits at most once, and not while it is in the map.
pub Reachable-IsSound : (s t : Server) → IsNew s → Reachable s t → IsSound t
Reachable-IsSound s t n at_first = new-IsSound s n
Reachable-IsSound s t n (after {t = b} r e) = Step-IsSound b t e (Reachable-IsSound s b n r)
