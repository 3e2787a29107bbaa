-- ===== src/Net/Poller/Poll.antt =====
-- Poll as a whole, under the documented behaviour of `poll(2)`.
use neconet.Prelude.{
  ℕ, zero, suc, ◌+◌, ◌≡◌, refl, sym, ap, ◌∙◌, true, List, [], ◌∷◌, Option, subst, some, get_elem?,
  ok, arith,
}
use neconet.Prelude.Int.{pos}
use neconet.Net.Channel.{Channel, any_event}
use neconet.Net.Poller.{Poller, PollFd, PollResult, fd_of, fill_active, poll}
use neconet.Net.Poller.Inv.{IsValid}
use neconet.Net.Poller.Active.{
  active, IsReported, AllReported, count_active, report, fill_active-Filled, Filled,
}

-- What `poll` leaves in the array: it writes `revents` alone, and reports no event for a negative
-- descriptor.
abbrev pub IsAnswer : List PollFd → List PollFd → Type 0
IsAnswer [] [] = Unit {0}
IsAnswer [] (e ∷ r) = ⊥
IsAnswer (b ∷ s) [] = ⊥
IsAnswer (b ∷ s) (e ∷ r) =
    (e.fd ≡ b.fd)
    × (e.events ≡ b.events)
    × (any_event e.revents ≡ true → (n : ℕ) × (e.fd ≡ pos n))
    × IsAnswer s r

-- It returns the number of entries with events.
pub record PollContract (before : List PollFd) (r : PollResult) : Type 0 where
  pub answer : IsAnswer before r.entries
  pub count : r.num_events ≡ pos (count_active r.entries)

answered_at :
    (before entries : List PollFd) (j : ℕ) (e : PollFd)
    → IsAnswer before entries
    → get_elem? entries j ≡ some e
    → (b : PollFd) × (get_elem? before j ≡ some b)
      × (e.fd ≡ b.fd)
      × (any_event e.revents ≡ true → (n : ℕ) × (e.fd ≡ pos n))
answered_at [] [] j e h g = cc
answered_at [] (x ∷ r) j e h g = absurd h
answered_at (b ∷ s) [] j e h g = absurd h
answered_at (b ∷ s) (x ∷ r) zero e h g =
    let q : x ≡ e = cc in
    (
      b,
      refl,
      ap (λ (f : PollFd). f.fd) (sym q) ∙ h.0,
      subst (λ (f : PollFd). any_event f.revents ≡ true → (n : ℕ) × (f.fd ≡ pos n)) q h.2,
    )
answered_at (b ∷ s) (x ∷ r) (suc j) e h g = answered_at s r j e h.3 g

answered_back :
    (before entries : List PollFd) (j : ℕ) (b : PollFd)
    → IsAnswer before entries
    → get_elem? before j ≡ some b
    → (e : PollFd) × (get_elem? entries j ≡ some e) × (e.fd ≡ b.fd)
answered_back [] [] j b h g = cc
answered_back [] (x ∷ r) j b h g = absurd h
answered_back (c ∷ s) [] j b h g = absurd h
answered_back (c ∷ s) (x ∷ r) zero b h g =
    let q : c ≡ b = cc in (x, refl, h.0 ∙ ap (λ (f : PollFd). f.fd) q)
answered_back (c ∷ s) (x ∷ r) (suc j) b h g = answered_back s r j b h.3 g

all_reported :
    (m : ℕ → Option ℕ) (heap : ℕ → Channel) (i : ℕ) (entries : List PollFd)
    → ((j : ℕ) (e : PollFd) → get_elem? entries j ≡ some e → IsReported m heap (i + j) e)
    → AllReported m heap i entries
all_reported m heap i [] h = tt
all_reported m heap i (e ∷ r) h = (
  let q : i + 0 ≡ i = omega arith in subst (λ k. IsReported m heap k e) q (h 0 e refl),
  all_reported m heap (suc i) r λ j f g.
      let q : i + suc j ≡ suc i + j = omega arith in
      subst (λ k. IsReported m heap k f) q (h (suc j) f g),
)

module _ (s : Poller) (v : IsValid s) (r : PollResult) (c : PollContract s.poll_fds r) where
  reported :
      (j : ℕ) (e : PollFd)
      → get_elem? r.entries j ≡ some e
      → IsReported s.channels_map s.heap (0 + j) e
  reported j e g a =
      let (b, h, x, y) = answered_at s.poll_fds r.entries j e c.answer g in
      let (n, z) = y a in
      let (q, m, k) = v.owned j b h in
      let (_, _, l) = v.listed (fd_of b.fd) q m in
      let n_fd : fd_of b.fd ≡ n = ap fd_of (sym x ∙ z) in
      let j_eq : j ≡ 0 + j = omega arith in
      (n, q, z, ap s.channels_map (sym n_fd) ∙ m, l.own_fd ∙ n_fd, k ∙ ap pos j_eq)

  filled :
      Filled s.channels_map s.heap 0 r.entries
        (fill_active (count_active r.entries) r.entries s.channels_map s.heap)
  filled =
      fill_active-Filled s.channels_map s.heap 0 r.entries
        (all_reported s.channels_map s.heap 0 r.entries reported)

  abbrev polled : Poller
  polled = record s { poll_fds = r.entries; heap = filled.after }

  polled-IsValid : IsValid polled
  polled-IsValid = record {
    listed = λ fd p m.
        let (i, b, l) = v.listed fd p m in
        let (e, g, x) = answered_back s.poll_fds r.entries i b c.answer l.entry in
        (
          i,
          e,
          record {
            own_fd = filled.same.fds p ∙ l.own_fd;
            own_index = filled.same.indices p ∙ l.own_index;
            entry = g;
            entry_fd = ap fd_of x ∙ l.entry_fd;
          },
        );
    owned = λ i e g.
        let (b, h, x, _) = answered_at s.poll_fds r.entries i e c.answer g in
        let (q, m, k) = v.owned i b h in
        (q, ap (λ z. s.channels_map (fd_of z)) x ∙ m, filled.same.indices q ∙ k);
  }

  -- `Poll` of a valid poller, if `poll` answers as documented, fails no assertion and keeps it
  -- valid, with the same channels registered. The channels that it returns are those registered for the
  -- entries with events, in order, and each has the `revents` of its entry.
  pub poll_lem :
      (t : Poller) × (found : List ℕ) × (poll s r ≡ ok (t, found))
      × IsValid t
      × (t.channels_map ≡ s.channels_map)
      × (report t.heap found ≡ active s.channels_map r.entries)
  unfolding poll
  poll_lem = (
    polled,
    filled.found,
    rw (c.count, poll) (rw filled.result),
    polled-IsValid,
    refl,
    filled.reported,
  )
