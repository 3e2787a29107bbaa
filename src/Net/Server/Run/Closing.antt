-- ===== src/Net/Server/Run/Closing.antt =====
-- `__RemoveConnection` in a sound server.
use native.Mathlib.Decide.{ℕ_discrete}
use neconet.Prelude.{
  ℕ, ◌≡◌, refl, sym, ap, ◌∙◌, ◌⊎◌, inl, inr, [], ◌∷◌, ◌++◌, Option, some, none, length,
  get_elem?-append_left, get_elem?-append_last, get_elem?-append_split, lt_of_get_elem?, Bool-cases,
  ok, err, assertion, OnOk, subst,
}
use neconet.Base.Text.{Text, text_eq, update_text}
use neconet.Base.Text.Laws.{update_text_self, update_text_ne}
use neconet.Net.Server.{Server, Member, remove_connection}
use neconet.Net.Server.Run.{IsLive}
use neconet.Net.Server.Run.Sound.{IsAt, IsSound, Waits}
use neconet.Net.Server.Run.Same.{some_injective}

-- What is found after a name is erased was there, under another name.
erased_some :
    (f : Text → Option ℕ) (k j : Text) (v : ℕ) → update_text f k none j ≡ some v → f j ≡ some v
erased_some f k j v e = elim (Bool-cases (text_eq j k)) [
  | inl x ↦ absurd (let y : none ≡ some v = rw x at e in cc)
  | inr x ↦ rw x at e
]

erased_none : (f : Text → Option ℕ) (k j : Text) → f j ≡ none → update_text f k none j ≡ none
erased_none f k j e = elim (Bool-cases (text_eq j k)) [ inl x ↦ rw x refl | inr x ↦ rw x e ]

-- A connection in the map does not wait for ConnectDestroyed.
pub Waits-none :
    (s : Server) (p i : ℕ) (m : Member)
    → IsSound s
    → IsLive s p m
    → Waits s i p
    → s.connection_map m.name ≡ none
Waits-none s p i m h l e =
    let (n, k, x) = h.queued i p e in
    let same : n ≡ m = some_injective n m (sym k.present ∙ l.present) in
    ap (λ (y : Member). s.connection_map y.name) (sym same) ∙ x

module _ (s : Server) (p : ℕ) (m : Member) (h : IsSound s) (l : IsLive s p m)
    (e : s.connection_map m.name ≡ some p) where
  abbrev pub removed : Server
  removed = record s {
    connection_map = update_text s.connection_map m.name none;
    destroying = s.destroying ++ (p ∷ []);
  }

  still : (r : ℕ) (n : Member) → IsLive removed r n → IsLive s r n
  still r n k = record { present = k.present; state = k.state }

  now : (r : ℕ) (n : Member) → IsLive s r n → IsLive removed r n
  now r n k = record { present = k.present; state = k.state }

  kept :
      (r : ℕ) (n : Member)
      → IsLive s r n
      → (removed.connection_map n.name ≡ some r) ⊎ ((i : ℕ) × Waits removed i r)
  kept r n k = elim (h.kept r n k) [
    | inr (i, x) ↦
        inr (
          i,
          get_elem?-append_left s.destroying (p ∷ []) i (lt_of_get_elem? s.destroying i r x) ∙ x,
        )
    | inl x ↦ elim (ℕ_discrete r p) [
      | yes y ↦ inr (length s.destroying, get_elem?-append_last s.destroying p ∙ ap some (sym y))
      | no y ↦
          inl (
            update_text_ne s.connection_map m.name none n.name (λ z. y (h.named r p n m k l z)) ∙ x)
    ]
  ]

  queued :
      (i r : ℕ)
      → Waits removed i r
      → (n : Member) × IsLive removed r n × (removed.connection_map n.name ≡ none)
  queued i r x = elim (get_elem?-append_split s.destroying i p r x) [
    | inl y ↦
        let (n, k, z) = h.queued i r y in
        (n, now r n k, erased_none s.connection_map m.name n.name z)
    | inr (_, y) ↦ (
      m,
      subst (λ z. IsLive removed z m) y (now p m l),
      update_text_self s.connection_map m.name none,
    )
  ]

  -- The connection does not wait twice.
  not_before : (i : ℕ) → Waits s i p → ⊥
  not_before i x = let y = Waits-none s p i m h l x in cc

  once : (i j r : ℕ) → Waits removed i r → Waits removed j r → i ≡ j
  once i j r x y = elim (get_elem?-append_split s.destroying i p r x) [
    | inl a ↦ elim (get_elem?-append_split s.destroying j p r y) [
      | inl b ↦ h.once i j r a b
      | inr (_, b) ↦ absurd (not_before i (a ∙ ap some (sym b)))
    ]
    | inr (a, a') ↦ elim (get_elem?-append_split s.destroying j p r y) [
      | inl b ↦ absurd (not_before j (b ∙ ap some (sym a')))
      | inr (b, _) ↦ a ∙ sym b
    ]
  ]

  pub removed-IsSound : IsSound removed
  removed-IsSound = record {
    valid = h.valid;
    good = λ r n k.
        let g = h.good r n (still r n k) in
        record {
          fd = g.fd;
          registered = g.registered;
          id = g.id;
          numbered = g.numbered;
          older = g.older;
        };
    kept = λ r n k. kept r n (still r n k);
    apart = λ q r n o a b. h.apart q r n o (still q n a) (still r o b);
    named = λ q r n o a b. h.named q r n o (still q n a) (still r o b);
    mapped = λ k r x.
        let (n, j, y) = h.mapped k r (erased_some s.connection_map m.name k r x) in
        (n, now r n j, y);
    queued = queued;
    once = once;
  }

  pub remove_connection-ok : remove_connection s p ≡ ok removed
  unfolding remove_connection
  remove_connection-ok = rw l.present (rw e refl)

-- It aborts if the connection is not in the map.
pub remove_connection-err :
    (s : Server) (p : ℕ) (m : Member)
    → s.heap p ≡ some m
    → s.connection_map m.name ≡ none
    → remove_connection s p ≡ err assertion
unfolding remove_connection
remove_connection-err s p m x e = rw x (rw e refl)

-- If it returns, the server is still sound, and the connection where it was.
pub remove_connection-IsAt :
    (s : Server) (p : ℕ) (m : Member)
    → IsSound s
    → IsLive s p m
    → OnOk (IsAt p) (remove_connection s p)
remove_connection-IsAt s p m h l = elim (h.kept p m l) [
  | inl e ↦
      rw (remove_connection-ok s p m h l e) (removed-IsSound s p m h l e, m, now s p m h l e p m l)
  | inr (i, x) ↦ rw (remove_connection-err s p m l.present (Waits-none s p i m h l x)) tt
]
