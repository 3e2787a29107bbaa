-- ===== src/Net/Server/Run/Same.antt =====
-- An event of a connection that does not close it: the server stays sound.
use native.Mathlib.Decide.{ℕ_discrete}
use neconet.Prelude.{
  update_self, update_ne, ℕ, ◌≡◌, refl, sym, ap, ◌∙◌, inl, inr, some, subst, get_elem?,
}
use neconet.Net.Poller.{Poller}
use neconet.Net.Poller.Inv.{IsValid}
use neconet.Net.Connection.{Connection}
use neconet.Net.Connection.Attached.{IsAttached}
use neconet.Net.Server.{Server, Member, conn_name}
use neconet.Net.Server.Members.{stored}
use neconet.Net.Server.Run.{IsLive}
use neconet.Net.Server.Run.Sound.{IsSound}

pub some_injective {ℓ} : {A : Type ℓ} (a b : A) → some a ≡ some b → a ≡ b
some_injective a b e = cc

-- The connections of `t` are those of `s`, with the same names and channels.
pub record IsRenewed (s t : Server) : Type 0 where
  pub valid : IsValid t.poller
  pub channels : t.poller.channels_map ≡ s.poller.channels_map
  pub names : t.connection_map ≡ s.connection_map
  pub functors : t.destroying ≡ s.destroying
  pub next : t.next_conn_id ≡ s.next_conn_id
  pub name : t.name ≡ s.name
  pub back :
      (r : ℕ) (n : Member)
      → IsLive t r n
      → (o : Member) × IsLive s r o × (n.name ≡ o.name) × (n.body.channel ≡ o.body.channel)
  pub forth : (r : ℕ) (o : Member) → IsLive s r o → (n : Member) × IsLive t r n × (n.name ≡ o.name)

module _ (s t : Server) (h : IsSound s) (w : IsRenewed s t) where
  pub IsRenewed-IsSound : IsSound t
  IsRenewed-IsSound = record {
    valid = w.valid;
    good = λ r n l.
        let (o, k, a, c) = w.back r n l in
        let g = h.good r o k in
        record {
          fd = g.fd;
          registered = ap (λ f. f g.fd) w.channels ∙ g.registered ∙ ap some (sym c);
          id = g.id;
          numbered = a ∙ g.numbered ∙ ap (λ x. conn_name (record s { name = x }) g.id) (sym w.name);
          older = rw w.next g.older;
        };
    kept = λ r n l.
        let (o, k, a, _) = w.back r n l in
        elim (h.kept r o k) [
          | inl e ↦ inl (ap t.connection_map a ∙ ap (λ f. f o.name) w.names ∙ e)
          | inr (i, e) ↦ inr (i, ap (λ x. get_elem? x i) w.functors ∙ e)
        ];
    apart = λ p r m n a b e.
        let (m', a', _, x) = w.back p m a in
        let (n', b', _, y) = w.back r n b in h.apart p r m' n' a' b' (sym x ∙ e ∙ y);
    named = λ p r m n a b e.
        let (m', a', x, _) = w.back p m a in
        let (n', b', y, _) = w.back r n b in h.named p r m' n' a' b' (sym x ∙ e ∙ y);
    mapped = λ k p e.
        let (o, l, x) = h.mapped k p (ap (λ f. f k) (sym w.names) ∙ e) in
        let (n, l', y) = w.forth p o l in (n, l', y ∙ x);
    queued = λ i p e.
        let (o, l, x) = h.queued i p (ap (λ y. get_elem? y i) (sym w.functors) ∙ e) in
        let (n, l', y) = w.forth p o l in
        (n, l', ap t.connection_map y ∙ ap (λ f. f o.name) w.names ∙ x);
    once = λ i j p a b.
        h.once i j p (ap (λ y. get_elem? y i) (sym w.functors) ∙ a)
          (ap (λ y. get_elem? y j) (sym w.functors) ∙ b);
  }

module _ (s : Server) (p fd : ℕ) (m : Member) (d : Connection) (l : IsLive s p m)
    (a : IsAttached s.poller.channels_map m.body.channel fd d) where
  t : Server
  t = stored s p m d

  stored_back :
      (r : ℕ) (n : Member)
      → IsLive t r n
      → (o : Member) × IsLive s r o × (n.name ≡ o.name) × (n.body.channel ≡ o.body.channel)
  unfolding t
  stored_back r n k = elim (ℕ_discrete r p) [
    | no x ↦ (
      n,
      record { present = sym (update_ne s.heap p _ r x) ∙ k.present; state = k.state },
      refl,
      refl,
    )
    | yes x ↦
        let e : record m { body = d } ≡ n =
          some_injective _ _ (sym (update_self s.heap p _) ∙ ap t.heap (sym x) ∙ k.present) in
        (
          m,
          subst (λ y. IsLive s y m) (sym x) l,
          ap (λ (y : Member). y.name) (sym e),
          ap (λ (y : Member). y.body.channel) (sym e) ∙ a.channel,
        )
  ]

  stored_forth :
      (r : ℕ) (o : Member) → IsLive s r o → (n : Member) × IsLive t r n × (n.name ≡ o.name)
  unfolding t
  stored_forth r o k = elim (ℕ_discrete r p) [
    | no x ↦ (o, record { present = update_ne s.heap p _ r x ∙ k.present; state = k.state }, refl)
    | yes x ↦
        let e : m ≡ o = some_injective _ _ (sym l.present ∙ ap s.heap (sym x) ∙ k.present) in
        (
          record m { body = d },
          record { present = ap t.heap x ∙ update_self s.heap p _; state = a.state },
          ap (λ (y : Member). y.name) e,
        )
  ]

  pub stored-IsRenewed : IsRenewed s (stored s p m d)
  unfolding t
  stored-IsRenewed = record {
    valid = a.valid;
    channels = a.map;
    names = refl;
    functors = refl;
    next = refl;
    name = refl;
    back = stored_back;
    forth = stored_forth;
  }

-- After a `Poll`.
pub polled-IsRenewed :
    (s : Server) (t : Poller)
    → IsValid t
    → t.channels_map ≡ s.poller.channels_map
    → IsRenewed s (record s { poller = t })
polled-IsRenewed s t v e = record {
  valid = v;
  channels = e;
  names = refl;
  functors = refl;
  next = refl;
  name = refl;
  back = λ r n l. (n, record { present = l.present; state = l.state }, refl, refl);
  forth = λ r n l. (n, record { present = l.present; state = l.state }, refl);
}
