-- ===== src/Net/Server/Run/Accepting.antt =====
-- `__NewConnection` in a sound server.
use native.Mathlib.Decide.{ℕ_discrete}
use neconet.Prelude.{
  ℕ, suc, ◌<◌, ◌≡◌, ◌≢◌, sym, ap, ◌∙◌, ◌⊎◌, inl, inr, some, none, get_elem?, update_ne, subst,
  arith, ok, Bool-cases,
}
use neconet.Base.Text.{Text, text_eq}
use neconet.Base.Text.Laws.{update_text_self, update_text_ne, text_eq_sound}
use neconet.Net.Poller.Fresh.{IsFresh}
use neconet.Net.Server.{Server, Member, conn_name, int_bound, new_connection}
use neconet.Net.Server.Names.{conn_name_injective}
use neconet.Net.Server.Members.{IsAccepted}
use neconet.Net.Server.Life.{new_connection_lem}
use neconet.Net.Server.Run.{IsLive}
use neconet.Net.Server.Run.Sound.{IsGood, IsSound, Waits}
use neconet.Net.Server.Run.Same.{some_injective}

module _ (s t : Server) (p q fd : ℕ) (h : IsSound s) (a : IsAccepted s t p q fd)
    (new : s.heap p ≡ none) (fresh : IsFresh s.poller q) (unused : s.poller.channels_map fd ≡ none)
    (small : suc s.next_conn_id < int_bound) where
  abbrev own_name : Text
  own_name = conn_name s s.next_conn_id

  abbrev own : Member
  own = record { name = own_name; body = a.member.body }

  own-IsLive : IsLive t p own
  own-IsLive = record { present = a.member.present; state = inl a.member.own_state }

  other : (r : ℕ) (n : Member) → IsLive s r n → r ≢ p
  other r n k x = let y : none ≡ some n = sym new ∙ ap s.heap (sym x) ∙ k.present in cc

  forth : (r : ℕ) (n : Member) → IsLive s r n → IsLive t r n
  forth r n k = record { present = a.kept.members r (other r n k) ∙ k.present; state = k.state }

  -- A connection of the new server is the new one or an older one.
  back : (r : ℕ) (n : Member) → IsLive t r n → ((r ≡ p) × (own ≡ n)) ⊎ IsLive s r n
  back r n k = elim (ℕ_discrete r p) [
    | yes x ↦ inl (x, some_injective _ _ (sym a.member.present ∙ ap t.heap (sym x) ∙ k.present))
    | no x ↦ inr (record { present = sym (a.kept.members r x) ∙ k.present; state = k.state })
  ]

  new_name : (n : Member) → IsGood s n → n.name ≢ own_name
  new_name n g x =
      let older = g.older in
      let e : g.id ≡ s.next_conn_id =
        conn_name_injective s g.id s.next_conn_id (omega arith) (omega arith)
          (sym g.numbered ∙ x) in
      omega arith

  old_name : (r : ℕ) (n : Member) → IsLive s r n → t.connection_map n.name ≡ s.connection_map n.name
  old_name r n k =
      ap (λ f. f n.name) a.names
      ∙ update_text_ne s.connection_map own_name (some p) n.name (new_name n (h.good r n k))

  own-IsGood : IsGood t own
  own-IsGood = record {
    fd = fd;
    registered = a.member.listed ∙ ap some (sym a.member.own_channel);
    id = s.next_conn_id;
    numbered = ap (λ x. conn_name (record s { name = x }) s.next_conn_id) (sym a.name);
    older = let e = a.next in omega arith;
  }

  old-IsGood : (n : Member) → IsGood s n → IsGood t n
  old-IsGood n g = record {
    fd = g.fd;
    registered =
        ap (λ f. f g.fd) a.channels
        ∙ update_ne s.poller.channels_map fd (some q) g.fd (λ x.
          let y : none ≡ some n.body.channel =
            sym unused ∙ ap s.poller.channels_map (sym x) ∙ g.registered in
          cc)
        ∙ g.registered;
    id = g.id;
    numbered = g.numbered ∙ ap (λ x. conn_name (record s { name = x }) g.id) (sym a.name);
    older = let e = a.next in let o = g.older in omega arith;
  }

  own_mapped : t.connection_map own_name ≡ some p
  own_mapped = ap (λ f. f own_name) a.names ∙ update_text_self s.connection_map own_name (some p)

  kept :
      (r : ℕ) (n : Member)
      → IsLive s r n
      → (t.connection_map n.name ≡ some r) ⊎ ((i : ℕ) × Waits t i r)
  kept r n k = elim (h.kept r n k) [
    | inl e ↦ inl (old_name r n k ∙ e)
    | inr (i, e) ↦ inr (i, ap (λ y. get_elem? y i) a.functors ∙ e)
  ]

  -- The new connection's channel is not that of an older one.
  new_channel : (r : ℕ) (n : Member) → IsLive s r n → own.body.channel ≢ n.body.channel
  new_channel r n k x =
      let g = h.good r n k in fresh g.fd (g.registered ∙ ap some (sym x ∙ a.member.own_channel))

  apart :
      (r u : ℕ) (m n : Member)
      → IsLive t r m
      → IsLive t u n
      → m.body.channel ≡ n.body.channel
      → r ≡ u
  apart r u m n j k x = elim (back r m j) [
    | inl (e, e') ↦ elim (back u n k) [
      | inl (f, _) ↦ e ∙ sym f
      | inr k' ↦ absurd (new_channel u n k' (ap (λ (y : Member). y.body.channel) e' ∙ x))
    ]
    | inr j' ↦ elim (back u n k) [
      | inl (_, f') ↦ absurd (new_channel r m j' (ap (λ (y : Member). y.body.channel) f' ∙ sym x))
      | inr k' ↦ h.apart r u m n j' k' x
    ]
  ]

  named : (r u : ℕ) (m n : Member) → IsLive t r m → IsLive t u n → m.name ≡ n.name → r ≡ u
  named r u m n j k x = elim (back r m j) [
    | inl (e, e') ↦ elim (back u n k) [
      | inl (f, _) ↦ e ∙ sym f
      | inr k' ↦ absurd (new_name n (h.good u n k') (sym (ap (λ (y : Member). y.name) e' ∙ x)))
    ]
    | inr j' ↦ elim (back u n k) [
      | inl (_, f') ↦ absurd (new_name m (h.good r m j') (x ∙ sym (ap (λ (y : Member). y.name) f')))
      | inr k' ↦ h.named r u m n j' k' x
    ]
  ]

  mapped :
      (k : Text) (r : ℕ) → t.connection_map k ≡ some r → (m : Member) × IsLive t r m × (m.name ≡ k)
  mapped k r e = elim (Bool-cases (text_eq k own_name)) [
    | inl x ↦
        let y = text_eq_sound k own_name x in
        let z : p ≡ r = some_injective _ _ (sym own_mapped ∙ ap t.connection_map (sym y) ∙ e) in
        (own, subst (λ w. IsLive t w own) z own-IsLive, sym y)
    | inr x ↦
        let before : s.connection_map k ≡ some r = rw x at (sym (ap (λ f. f k) a.names) ∙ e) in
        let (m, l, y) = h.mapped k r before in (m, forth r m l, y)
  ]

  accepted-IsSound : IsSound t
  accepted-IsSound = record {
    valid = a.member.valid;
    good = λ r n k. elim (back r n k) [
      | inl (_, e) ↦ subst (λ y. IsGood t y) e own-IsGood
      | inr l ↦ old-IsGood n (h.good r n l)
    ];
    kept = λ r n k. elim (back r n k) [
      | inl (e, e') ↦
          inl (ap (λ (y : Member). t.connection_map y.name) (sym e') ∙ own_mapped ∙ ap some (sym e))
      | inr l ↦ kept r n l
    ];
    apart = apart;
    named = named;
    mapped = mapped;
    queued = λ i r e.
        let (m, l, x) = h.queued i r (ap (λ y. get_elem? y i) (sym a.functors) ∙ e) in
        (m, forth r m l, old_name r m l ∙ x);
    once = λ i j r x y.
        h.once i j r (ap (λ z. get_elem? z i) (sym a.functors) ∙ x)
          (ap (λ z. get_elem? z j) (sym a.functors) ∙ y);
  }

-- A new connection in a sound server, at a new address, with a channel at a new address and for a
-- descriptor that is not registered, fails no assertion if the next number fits into an `int`, and leaves
-- the server sound.
pub new_connection-IsSound :
    (s : Server) (p q fd : ℕ)
    → IsSound s
    → s.heap p ≡ none
    → IsFresh s.poller q
    → s.poller.channels_map fd ≡ none
    → suc s.next_conn_id < int_bound
    → (t : Server) × (new_connection s p q fd ≡ ok t) × IsSound t
new_connection-IsSound s p q fd h new fresh unused small =
    let (t, e, a) = new_connection_lem s p q fd h.valid fresh unused small in
    (t, e, accepted-IsSound s t p q fd h a new fresh unused small)
