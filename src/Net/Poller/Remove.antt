-- ===== src/Net/Poller/Remove.antt =====
-- RemoveChannel: what it leaves.
use neconet.Prelude.{
  update, update_ne, update_self, ℕ, suc, ◌-◌, ◌<◌, ◌≡◌, refl, sym, ap, ◌∙◌, ◌≢◌, true, false, some,
  none, length, get_elem?, set, ok, arith, ◌==◌, length-set, ==_iff, lt_of_get_elem?,
  get_elem?_of_lt,
}
use native.Mathlib.Decide.{ℕ_discrete}
use neconet.Prelude.Int.{pos, negsuc}
use neconet.Net.Channel.{Channel, any_event, is_none_event}
use neconet.Net.Poller.{Poller, PollFd, fd_of, pop_back, at, deref, drop_entry, remove_channel}
use neconet.Net.Poller.Inv.{IsListed, IsValid}
use neconet.Net.Poller.Drop.{
  length-pop_back, still_owned, unmapped, popped, popped-IsValid, moved, moved-IsValid, moved_at,
  moved_self, get_elem?-pop_back,
}

module _ (s : Poller) (v : IsValid s) (fd p i : ℕ) (e : PollFd) (m : s.channels_map fd ≡ some p)
    (l : IsListed s fd p i e) where
  -- What `RemoveChannel` leaves: a valid poller where the descriptor is not registered, all others are
  -- as before, with the same entries in some order, and no channel's descriptor or interest has changed.
  pub record IsRemoved (t : Poller) : Type 0 where
    pub valid : IsValid t
    pub gone : t.channels_map fd ≡ none
    pub others : (g : ℕ) → g ≢ fd → t.channels_map g ≡ s.channels_map g
    pub fewer : suc (length t.poll_fds) ≡ length s.poll_fds
    pub entries :
        (j : ℕ) (f : PollFd)
        → get_elem? s.poll_fds j ≡ some f
        → fd_of f.fd ≢ fd
        → (k : ℕ) × (get_elem? t.poll_fds k ≡ some f)
    pub interests :
        (r : ℕ) → ((t.heap r).fd ≡ (s.heap r).fd) × ((t.heap r).events ≡ (s.heap r).events)

  other_index : (j : ℕ) (f : PollFd) → get_elem? s.poll_fds j ≡ some f → fd_of f.fd ≢ fd → j ≢ i
  other_index j f g ne same =
      let x : some f ≡ some e = sym g ∙ ap (get_elem? s.poll_fds) same ∙ l.entry in
      let y : f ≡ e = cc in ne (ap (λ (h : PollFd). fd_of h.fd) y ∙ l.entry_fd)

  drop_entry-popped :
      suc i ≡ length s.poll_fds
      → drop_entry (record s { channels_map = unmapped s v fd p i e m l }) i
        ≡ ok (record s { channels_map = unmapped s v fd p i e m l; poll_fds = pop_back s.poll_fds })
  unfolding drop_entry
  drop_entry-popped h = rw ((==_iff i (length s.poll_fds - 1)).1 (omega arith))

  drop_entry-moved :
      (k : ℕ) (z : PollFd) (q : ℕ)
      → suc k ≡ length s.poll_fds
      → get_elem? s.poll_fds k ≡ some z
      → i < k
      → unmapped s v fd p i e m l (fd_of z.fd) ≡ some q
      → drop_entry (record s { channels_map = unmapped s v fd p i e m l }) i
        ≡ ok (record s {
          channels_map = unmapped s v fd p i e m l;
          poll_fds = pop_back (set s.poll_fds i z);
          heap = update s.heap q (record (s.heap q) { index = pos i });
        })
  unfolding drop_entry
  drop_entry-moved k z q last at_k before n =
      let k_eq : length s.poll_fds - 1 ≡ k = omega arith in
      let ne : (i == k) ≡ false = ground arith in rw (k_eq, ne) (rw (at_k, at) (rw (n, deref)))

  update_fields :
      (q : ℕ) (r : ℕ)
      → let heap' = update s.heap q (record (s.heap q) { index = pos i }) in
        ((heap' r).fd ≡ (s.heap r).fd) × ((heap' r).events ≡ (s.heap r).events)
  update_fields q r = elim (ℕ_discrete r q) [
    | yes h ↦ (
      ap (λ a. (update s.heap q (record (s.heap q) { index = pos i }) a).fd) h
          ∙ ap (λ (c : Channel). c.fd) (update_self s.heap q _)
          ∙ ap (λ a. (s.heap a).fd) (sym h),
      ap (λ a. (update s.heap q (record (s.heap q) { index = pos i }) a).events) h
          ∙ ap (λ (c : Channel). c.events) (update_self s.heap q _)
          ∙ ap (λ a. (s.heap a).events) (sym h),
    )
    | no h ↦ (
      ap (λ (c : Channel). c.fd) (update_ne s.heap q _ r h),
      ap (λ (c : Channel). c.events) (update_ne s.heap q _ r h),
    )
  ]

  dropped :
      (t : Poller) × (drop_entry (record s { channels_map = unmapped s v fd p i e m l }) i ≡ ok t)
      × IsRemoved t
  dropped = elim (ℕ_discrete (suc i) (length s.poll_fds)) [
    | yes at_end ↦ (
      popped s v fd p i e m l at_end,
      drop_entry-popped at_end,
      record {
        valid = popped-IsValid s v fd p i e m l at_end;
        gone = update_self s.channels_map fd none;
        others = λ g h. update_ne s.channels_map fd none g h;
        fewer = omega (arith, length-pop_back s.poll_fds);
        entries = λ j f g ne. (
          j,
          get_elem?-pop_back s.poll_fds j
                (omega (arith, other_index j f g ne, lt_of_get_elem? s.poll_fds j f g))
              ∙ g,
        );
        interests = λ r. (refl, refl);
      },
    )
    | no inside ↦ move inside
  ]
    where
      in_range : i < length s.poll_fds
      in_range = lt_of_get_elem? s.poll_fds i e l.entry

      move :
          suc i ≢ length s.poll_fds
          → (t : Poller) × (drop_entry (record s { channels_map = unmapped s v fd p i e m l }) i
              ≡ ok t)
            × IsRemoved t
      move inside =
          let k : ℕ = length s.poll_fds - 1 in
          let last : suc k ≡ length s.poll_fds = omega (arith, in_range) in
          let before : i < k = omega (arith, in_range) in
          let (z, at_k) = get_elem?_of_lt s.poll_fds k (omega (arith, in_range)) in
          let (q, n, x) = still_owned s v fd p i e m l k z at_k (omega arith) in
          (
            moved s v fd p i e m l k z q last at_k before n x,
            drop_entry-moved k z q last at_k before n,
            record {
              valid = moved-IsValid s v fd p i e m l k z q last at_k before n x;
              gone = update_self s.channels_map fd none;
              others = λ g h. update_ne s.channels_map fd none g h;
              fewer =
                  omega (arith, length-pop_back (set s.poll_fds i z), length-set s.poll_fds i z);
              entries = λ j f g ne. elim (ℕ_discrete j k) [
                | yes here ↦ (
                  i,
                  moved_self s v fd p i e m l k z q last at_k before n x
                      ∙ sym at_k
                      ∙ ap (get_elem? s.poll_fds) (sym here)
                      ∙ g,
                )
                | no there ↦ (
                  j,
                  moved_at s v fd p i e m l k z q last at_k before n x j
                        (omega (arith, lt_of_get_elem? s.poll_fds j f g)) (other_index j f g ne)
                      ∙ g,
                )
              ];
              interests = update_fields q;
            },
          )

  -- In a valid poller, `RemoveChannel` of a registered channel with no interest, whose entry `poll`
  -- ignores and carries no interest, fails no assertion. It unregisters that channel alone, removes
  -- its entry and no other, changes no channel's descriptor or interest, and keeps the poller valid.
  pub remove_channel-IsRemoved :
      is_none_event (s.heap p) ≡ true
      → e.fd ≡ negsuc fd
      → any_event e.events ≡ false
      → (t : Poller) × (remove_channel s p ≡ ok t) × IsRemoved t
  unfolding remove_channel
  remove_channel-IsRemoved none_left ignored no_events =
      let (t, r, w) = dropped in
      (
        t,
        ground (arith, l.own_fd, l.own_index, l.entry, lt_of_get_elem? s.poll_fds i e l.entry, r),
        w,
      )
