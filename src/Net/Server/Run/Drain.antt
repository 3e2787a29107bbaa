-- ===== src/Net/Server/Run/Drain.antt =====
-- The ConnectDestroyed functors that wait are run.
use neconet.Prelude.{
  ℕ, ◌≡◌, ◌↔◌, refl, sym, ap, ◌∙◌, inl, inr, List, [], ◌∷◌, some, none, ok, ◌>>=◌, get_elem?,
}
use neconet.Base.Text.{Text}
use neconet.Net.Server.{Server, Member}
use neconet.Net.Server.Run.{IsLive, destroy_each, destroy_all}
use neconet.Net.Server.Run.Sound.{IsSound}
use neconet.Net.Server.Run.Leaving.{destroy_next-IsSound}

destroy_each_lem :
    (s : Server) (l : List ℕ)
    → IsSound s
    → s.destroying ≡ l
    → (t : Server) × (destroy_each s l ≡ ok t)
      × IsSound t
      × (t.destroying ≡ [])
      × (t.connection_map ≡ s.connection_map)
unfolding destroy_each
destroy_each_lem s [] h e = (s, refl, h, e, refl)
destroy_each_lem s (p ∷ rest) h e =
    let (t, x, k, y, z) = destroy_next-IsSound s p rest h e in
    let (u, x', k', y', z') = destroy_each_lem t rest k y in
    (u, ap (λ o. o >>= λ v. destroy_each v rest) x ∙ x', k', y', z' ∙ z)

-- The loop runs all the ConnectDestroyed functors of a sound server: none fails an assertion, the map is
-- as it was, and afterwards the server is sound, no functor waits, and the connections in the map are
-- exactly those that are not destroyed.
pub destroy_all_lem :
    (s : Server)
    → IsSound s
    → (t : Server) × (destroy_all s ≡ ok t)
      × IsSound t
      × (t.destroying ≡ [])
      × (t.connection_map ≡ s.connection_map)
      × ((p : ℕ) (k : Text)
          → (t.connection_map k ≡ some p) ↔ ((m : Member) × IsLive t p m × (m.name ≡ k)))
unfolding destroy_all
destroy_all_lem s h =
    let (t, x, k, y, z) = destroy_each_lem s s.destroying h refl in
    (t, x, k, y, z, λ p n. (k.mapped n p, λ (m, l, e). there t k y p n m l e))
  where
    there :
        (t : Server)
        → IsSound t
        → t.destroying ≡ []
        → (p : ℕ) (n : Text) (m : Member) → IsLive t p m
        → m.name ≡ n
        → t.connection_map n ≡ some p
    there t k y p n m l e = elim (k.kept p m l) [
      | inl x ↦ ap t.connection_map (sym e) ∙ x
      | inr (i, x) ↦ absurd (let a : none ≡ some p = sym (ap (λ b. get_elem? b i) y) ∙ x in cc)
    ]
