-- ===== src/Net/Server/Run/Leaving.antt =====
-- `ConnectDestroyed` in a sound server.
use native.Mathlib.Decide.{ℕ_discrete}
use neconet.Prelude.{
  ℕ, zero, suc, ◌≡◌, ◌≢◌, refl, sym, ap, ◌∙◌, ◌⊎◌, inl, inr, List, ◌∷◌, some, none, get_elem?,
  update_self, update_ne, ok, subst, arith,
}
use neconet.Base.Text.{Text}
use neconet.Net.Poller.Inv.{IsValid}
use neconet.Net.Connection.{Connection, disconnected, connect_destroyed}
use neconet.Net.Connection.Lifecycle.{IsOpen, connect_destroyed_lem}
use neconet.Net.Server.{Server, Member, destroy_next, run_oldest}
use neconet.Net.Server.Members.{stored, with_member-ok}
use neconet.Net.Server.Run.{IsLive}
use neconet.Net.Server.Run.Sound.{IsGood, IsSound, Waits}
use neconet.Net.Server.Run.Same.{some_injective}

disconnected-closed : IsOpen disconnected → ⊥
disconnected-closed (inl e) = cc
disconnected-closed (inr e) = cc

-- The connection at `p` is the next to be destroyed, and `d` is what ConnectDestroyed makes of it.
module _ (s : Server) (p : ℕ) (rest : List ℕ) (m : Member) (d : Connection) (h : IsSound s)
    (front : s.destroying ≡ p ∷ rest) (l : IsLive s p m) (gone : s.connection_map m.name ≡ none)
    (dead : d.state ≡ disconnected) (v : IsValid d.poller)
    (others : (g : ℕ)
      → g ≢ (h.good p m l).fd
      → d.poller.channels_map g ≡ s.poller.channels_map g) where
  abbrev pub left : Server
  left = stored (record s { destroying = rest }) p m d

  not_p : (n : Member) → IsLive left p n → ⊥
  not_p n k =
      let e : record m { body = d } ≡ n =
        some_injective _ _ (sym (update_self s.heap p _) ∙ k.present) in
      disconnected-closed (subst IsOpen (sym (ap (λ (y : Member). y.body.state) e) ∙ dead) k.state)

  back : (r : ℕ) (n : Member) → IsLive left r n → (r ≢ p) × IsLive s r n
  back r n k = elim (ℕ_discrete r p) [
    | yes x ↦ absurd (not_p n (subst (λ y. IsLive left y n) x k))
    | no x ↦ (x, record { present = sym (update_ne s.heap p _ r x) ∙ k.present; state = k.state })
  ]

  forth : (r : ℕ) (n : Member) → r ≢ p → IsLive s r n → IsLive left r n
  forth r n x k = record { present = update_ne s.heap p _ r x ∙ k.present; state = k.state }

  later : (i r : ℕ) → Waits left i r → Waits s (suc i) r
  later i r x = ap (λ y. get_elem? y (suc i)) front ∙ x

  first : Waits s 0 p
  first = ap (λ y. get_elem? y 0) front

  good : (r : ℕ) (n : Member) → r ≢ p → IsLive s r n → IsGood left n
  good r n x k =
      let g = h.good r n k in
      let b = h.good p m l in
      let other : g.fd ≢ b.fd = λ e. x (
        h.apart r p n m k l
          (some_injective _ _ (sym g.registered ∙ ap s.poller.channels_map e ∙ b.registered))) in
      record {
        fd = g.fd;
        registered = others g.fd other ∙ g.registered;
        id = g.id;
        numbered = g.numbered;
        older = g.older;
      }

  kept :
      (r : ℕ) (n : Member)
      → r ≢ p
      → IsLive s r n
      → (s.connection_map n.name ≡ some r) ⊎ ((i : ℕ) × Waits left i r)
  kept r n x k = elim (h.kept r n k) [
    | inl e ↦ inl e
    | inr (zero, e) ↦ absurd (x (some_injective _ _ (sym e ∙ first)))
    | inr (suc i, e) ↦ inr (i, ap (λ y. get_elem? y (suc i)) (sym front) ∙ e)
  ]

  not_mapped :
      (k : Text) (r : ℕ) (n : Member)
      → s.connection_map k ≡ some r
      → IsLive s r n
      → n.name ≡ k
      → r ≢ p
  not_mapped k r n e j x y =
      let same : n ≡ m = some_injective _ _ (sym j.present ∙ ap s.heap y ∙ l.present) in
      let a : s.connection_map m.name ≡ some r =
        ap (λ (z : Member). s.connection_map z.name) (sym same) ∙ ap s.connection_map x ∙ e in
      cc

  suc_injective : (i j : ℕ) → suc i ≡ suc j → i ≡ j
  suc_injective i j e = omega arith

  pub left-IsSound : IsSound left
  left-IsSound = record {
    valid = v;
    good = λ r n k. let (x, j) = back r n k in good r n x j;
    kept = λ r n k. let (x, j) = back r n k in kept r n x j;
    apart = λ q r n o a b. h.apart q r n o (back q n a).1 (back r o b).1;
    named = λ q r n o a b. h.named q r n o (back q n a).1 (back r o b).1;
    mapped =
        λ k r e. let (n, j, x) = h.mapped k r e in (n, forth r n (not_mapped k r n e j x) j, x);
    queued = λ i r x.
        let (n, j, y) = h.queued (suc i) r (later i r x) in
        let other : r ≢ p = λ z.
          let e : suc i ≡ 0 = h.once (suc i) 0 p (later i r x ∙ ap some z) first in omega arith in
        (n, forth r n other j, y);
    once = λ i j r a b. suc_injective i j (h.once (suc i) (suc j) r (later i r a) (later j r b));
  }

-- The loop runs the oldest ConnectDestroyed functor of a sound server: it fails no assertion, and the
-- server is sound.
pub destroy_next-IsSound :
    (s : Server) (p : ℕ) (rest : List ℕ)
    → IsSound s
    → s.destroying ≡ p ∷ rest
    → (t : Server) × (destroy_next s ≡ ok t)
      × IsSound t
      × (t.destroying ≡ rest)
      × (t.connection_map ≡ s.connection_map)
unfolding destroy_next run_oldest
destroy_next-IsSound s p rest h front =
    let (m, l, gone) = h.queued 0 p (ap (λ y. get_elem? y 0) front) in
    let g = h.good p m l in
    let body : Connection = record m.body { poller = s.poller } in
    let (i, e, listed) = h.valid.listed g.fd m.body.channel g.registered in
    let (d, x, dead, v, _, others, _) =
      connect_destroyed_lem body g.fd i e l.state h.valid g.registered listed in
    (
      left s p rest m d h front l gone dead v others,
      ap (run_oldest s) front
          ∙ with_member-ok (record s { destroying = rest }) p connect_destroyed m d l.present x,
      left-IsSound s p rest m d h front l gone dead v others,
      refl,
      refl,
    )
