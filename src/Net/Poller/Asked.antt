-- ===== src/Net/Poller/Asked.antt =====
-- The poller as a map: what `poll` is asked about each descriptor, whatever the order of the entries.
use native.Mathlib.Decide.{ℕ_discrete}
use neconet.Prelude.{
  ℕ, zero, suc, ◌≡◌, ◌≢◌, refl, sym, ap, ◌∙◌, inl, inr, List, [], ◌∷◌, Option, some, none,
  get_elem?, set, update, update_self, update_ne, if◌then◌else◌, ◌==◌, Bool-cases, ==_iff, ok,
  arith, get_elem?-set_ne,
}
use neconet.Prelude.Int.{ℤ, pos}
use neconet.Net.Channel.{Events}
use neconet.Net.Poller.{Poller, PollFd, fd_of, Interest, set_interest}
use neconet.Net.Poller.Inv.{IsListed, IsValid}
use neconet.Net.Poller.Drop.{index_unique}
use neconet.Net.Poller.Ignored.{entry_after, set_interest_lem}

-- What `poll` reads of an entry.
pub record Request : Type 0 where
  pub fd : ℤ
  pub events : Events

abbrev pub request : PollFd → Request
request e = record { fd = e.fd; events = e.events }

-- The request for a descriptor.
unfoldable pub asked : List PollFd → ℕ → Option Request
asked [] fd = none
asked (e ∷ r) fd = let rest = asked r fd in if fd_of e.fd == fd then some (request e) else rest

asked_nothing :
    (xs : List PollFd) (fd : ℕ)
    → ((j : ℕ) (f : PollFd) → get_elem? xs j ≡ some f → fd_of f.fd ≢ fd)
    → asked xs fd ≡ none
unfolding asked
asked_nothing [] fd h = refl
asked_nothing (e ∷ r) fd h = elim (Bool-cases (fd_of e.fd == fd)) [
  | inl x ↦ absurd (h 0 e refl ((==_iff (fd_of e.fd) fd).0 x))
  | inr x ↦ rw x (asked_nothing r fd (λ j f g. h (suc j) f g))
]

asked_one :
    (xs : List PollFd) (fd i : ℕ) (e : PollFd)
    → get_elem? xs i ≡ some e
    → fd_of e.fd ≡ fd
    → ((j : ℕ) (f : PollFd) → get_elem? xs j ≡ some f → fd_of f.fd ≡ fd → j ≡ i)
    → asked xs fd ≡ some (request e)
unfolding asked
asked_one [] fd i e g x h = absurd (let y : none ≡ some e = g in cc)
asked_one (b ∷ r) fd zero e g x h =
    let y : b ≡ e = cc in rw y (rw ((==_iff (fd_of e.fd) fd).1 x) refl)
asked_one (b ∷ r) fd (suc i) e g x h = elim (Bool-cases (fd_of b.fd == fd)) [
  | inl y ↦ absurd (let z : 0 ≡ suc i = h 0 b refl ((==_iff (fd_of b.fd) fd).0 y) in omega arith)
  | inr y ↦
      rw y
        (asked_one r fd i e g x (λ j f k u. let z : suc j ≡ suc i = h (suc j) f k u in omega arith))
]

module _ (s : Poller) (v : IsValid s) where
  -- A descriptor that is not registered is not asked about, and a registered one by its own entry.
  asked-unlisted : (fd : ℕ) → s.channels_map fd ≡ none → asked s.poll_fds fd ≡ none
  asked-unlisted fd h = asked_nothing s.poll_fds fd λ j f g x.
      let (p, m, _) = v.owned j f g in
      let y : none ≡ some p = sym h ∙ ap s.channels_map (sym x) ∙ m in cc

  asked-listed :
      (fd p i : ℕ) (e : PollFd)
      → s.channels_map fd ≡ some p
      → IsListed s fd p i e
      → asked s.poll_fds fd ≡ some (request e)
  asked-listed fd p i e m l =
      asked_one s.poll_fds fd i e l.entry l.entry_fd (index_unique s v fd p i e m l)

  asked-entry :
      (i : ℕ) (e : PollFd)
      → get_elem? s.poll_fds i ≡ some e
      → asked s.poll_fds (fd_of e.fd) ≡ some (request e)
  asked-entry i e g =
      let (p, m, x) = v.owned i e g in
      let (j, f, l) = v.listed (fd_of e.fd) p m in
      let y : pos j ≡ pos i = sym l.own_index ∙ x in
      let z : j ≡ i = cc in
      let w : some f ≡ some e = sym l.entry ∙ ap (get_elem? s.poll_fds) z ∙ g in
      let u : f ≡ e = cc in
      asked-listed (fd_of e.fd) p j f m l ∙ ap (λ (k : PollFd). some (request k)) u

-- What is asked about the other descriptors, when their entries stay.
asked_others :
    (s t : Poller) (fd : ℕ)
    → IsValid s
    → IsValid t
    → ((g : ℕ) → g ≢ fd → t.channels_map g ≡ s.channels_map g)
    → ((j : ℕ) (f : PollFd)
        → get_elem? s.poll_fds j ≡ some f
        → fd_of f.fd ≢ fd
        → (k : ℕ) × (get_elem? t.poll_fds k ≡ some f))
    → (g : ℕ) → g ≢ fd
    → asked t.poll_fds g ≡ asked s.poll_fds g
asked_others s t fd v w same stay g ne = by_owner (s.channels_map g) refl
  where
    by_owner : (o : Option ℕ) → s.channels_map g ≡ o → asked t.poll_fds g ≡ asked s.poll_fds g
    by_owner none e = asked-unlisted t w g (same g ne ∙ e) ∙ sym (asked-unlisted s v g e)
    by_owner (some p) e =
        let (i, f, l) = v.listed g p e in
        let (k, x) = stay i f l.entry (λ y. ne (sym l.entry_fd ∙ y)) in
        ap (asked t.poll_fds) (sym l.entry_fd)
        ∙ asked-entry t w k f x
        ∙ sym (asked-listed s v g p i f e l)

-- Each of the four operations on a channel registered in a valid poller returns, and writes one request,
-- that for its descriptor: with the new interest, and ignored if there is none or if it was ignored
-- before. All others stay as they are.
pub set_interest-Refines :
    (op : Interest) (s : Poller) (fd p i : ℕ) (e : PollFd)
    → IsValid s
    → s.channels_map fd ≡ some p
    → IsListed s fd p i e
    → (t : Poller) × (set_interest op s p ≡ ok t)
      × IsValid t
      × (asked s.poll_fds fd ≡ some (request e))
      × ((g : ℕ)
          → asked t.poll_fds g
            ≡ update (asked s.poll_fds) fd (some (request (entry_after op s fd p e))) g)
set_interest-Refines op s fd p i e v m l =
    let (t, x, w, same, k, _, r) = set_interest_lem op s fd p i e v m l in
    (t, x, w, asked-listed s v fd p i e m l, λ g. after t w same k r g)
  where
    after :
        (t : Poller)
        → IsValid t
        → t.channels_map ≡ s.channels_map
        → IsListed t fd p i (entry_after op s fd p e)
        → t.poll_fds ≡ set s.poll_fds i (entry_after op s fd p e)
        → (g : ℕ)
        → asked t.poll_fds g
          ≡ update (asked s.poll_fds) fd (some (request (entry_after op s fd p e))) g
    after t w same k r g = elim (ℕ_discrete g fd) [
      | yes h ↦
          ap (asked t.poll_fds) h
          ∙ asked-listed t w fd p i (entry_after op s fd p e) (ap (λ f. f fd) same ∙ m) k
          ∙ sym (ap (update (asked s.poll_fds) fd _) h ∙ update_self (asked s.poll_fds) fd _)
      | no h ↦
          asked_others s t fd v w (λ a _. ap (λ f. f a) same)
            (λ j f x ne. (
              j,
              ap (λ b. get_elem? b j) r
                  ∙ get_elem?-set_ne s.poll_fds _ (λ y. ne (
                      let z : some f ≡ some e =
                        sym x ∙ ap (get_elem? s.poll_fds) (sym y) ∙ l.entry in
                      let u : f ≡ e = cc in ap (λ (c : PollFd). fd_of c.fd) u ∙ l.entry_fd))
                  ∙ x,
            ))
            g h
          ∙ sym (update_ne (asked s.poll_fds) fd _ g h)
    ]
