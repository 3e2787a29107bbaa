-- ===== src/Net/Poller/Drop.antt =====
-- An entry goes, and the last one takes its place: the poller stays valid.
use neconet.Prelude.{
  update, update_ne, update_self, ℕ, zero, suc, ◌-◌, ◌<◌, ◌≡◌, refl, sym, ap, ◌∙◌, ◌≢◌, List, [],
  ◌∷◌, some, none, Option, length, get_elem?, set, arith, length-set, get_elem?-set_self,
  get_elem?-set_ne, lt_of_get_elem?,
}
use native.Mathlib.Decide.{ℕ_discrete}
use neconet.Prelude.Int.{pos}
use neconet.Net.Channel.{Channel}
use neconet.Net.Poller.{Poller, PollFd, fd_of, pop_back}
use neconet.Net.Poller.Inv.{IsListed, IsListed-keep, IsValid}

pub length-pop_back {ℓ} : {A : Type ℓ} (xs : List A) → length (pop_back xs) ≡ length xs - 1
length-pop_back [] = omega arith
length-pop_back (x ∷ []) = omega arith
length-pop_back (x ∷ y ∷ r) = omega (arith, length-pop_back (y ∷ r))

pub get_elem?-pop_back {ℓ} :
    {A : Type ℓ} (xs : List A) (j : ℕ)
    → suc j < length xs
    → get_elem? (pop_back xs) j ≡ get_elem? xs j
get_elem?-pop_back [] j h = absurd (omega arith)
get_elem?-pop_back (x ∷ []) j h = absurd (omega arith)
get_elem?-pop_back (x ∷ y ∷ r) zero h = refl
get_elem?-pop_back (x ∷ y ∷ r) (suc j) h = get_elem?-pop_back (y ∷ r) j (omega arith)

-- An element that is left stood before the last one.
pub lt_of_get_elem?-pop_back {ℓ} :
    {A : Type ℓ} (xs : List A) (j : ℕ) (v : A)
    → get_elem? (pop_back xs) j ≡ some v
    → suc j < length xs
lt_of_get_elem?-pop_back xs j v h =
    omega (arith, lt_of_get_elem? (pop_back xs) j v h, length-pop_back xs)

module _ (s : Poller) (v : IsValid s) (fd p i : ℕ) (e : PollFd) (m : s.channels_map fd ≡ some p)
    (l : IsListed s fd p i e) where
  abbrev pub unmapped : ℕ → Option ℕ
  unmapped = update s.channels_map fd none

  -- An entry for the descriptor is entry `i`.
  pub index_unique :
      (j : ℕ) (f : PollFd) → get_elem? s.poll_fds j ≡ some f → fd_of f.fd ≡ fd → j ≡ i
  index_unique j f h g =
      let (q, n, x) = v.owned j f h in
      let same : some q ≡ some p = sym n ∙ ap s.channels_map g ∙ m in
      let q_p : q ≡ p = cc in
      let y : pos j ≡ pos i = sym x ∙ ap (λ r. (s.heap r).index) q_p ∙ l.own_index in cc

  -- A descriptor that is still registered is another one, and its entry too.
  other_fd : (g q : ℕ) → unmapped g ≡ some q → g ≢ fd
  other_fd g q h same =
      let y : none ≡ some q =
        sym (update_self s.channels_map fd none) ∙ ap unmapped (sym same) ∙ h in
      cc

  still_mapped : (g q : ℕ) → unmapped g ≡ some q → s.channels_map g ≡ some q
  still_mapped g q h = sym (update_ne s.channels_map fd none g (other_fd g q h)) ∙ h

  other_index : (g q j : ℕ) (f : PollFd) → g ≢ fd → IsListed s g q j f → j ≢ i
  other_index g q j f ne n same =
      let y : some f ≡ some e = sym n.entry ∙ ap (get_elem? s.poll_fds) same ∙ l.entry in
      let f_e : f ≡ e = cc in ne (sym n.entry_fd ∙ ap (λ (x : PollFd). fd_of x.fd) f_e ∙ l.entry_fd)

  -- An entry other than `i` belongs to a channel that is still registered.
  pub still_owned :
      (j : ℕ) (f : PollFd)
      → get_elem? s.poll_fds j ≡ some f
      → j ≢ i
      → (q : ℕ) × (unmapped (fd_of f.fd) ≡ some q) × ((s.heap q).index ≡ pos j)
  still_owned j f h ne =
      let (q, n, x) = v.owned j f h in
      (q, update_ne s.channels_map fd none (fd_of f.fd) (λ g. ne (index_unique j f h g)) ∙ n, x)

  -- The entry was the last one.
  module _ (at_end : suc i ≡ length s.poll_fds) where
    abbrev pub popped : Poller
    popped = record s { channels_map = unmapped; poll_fds = pop_back s.poll_fds }

    pub popped-IsValid : IsValid popped
    popped-IsValid = record {
      listed = λ g q h.
          let (j, f, n) = v.listed g q (still_mapped g q h) in
          let ne : j ≢ i = other_index g q j f (other_fd g q h) n in
          let lt : j < length s.poll_fds = lt_of_get_elem? s.poll_fds j f n.entry in
          (
            j,
            f,
            IsListed-keep s popped g q j f refl refl (get_elem?-pop_back s.poll_fds j (omega arith))
                n,
          );
      owned = λ j f h.
          let lt : suc j < length s.poll_fds = lt_of_get_elem?-pop_back s.poll_fds j f h in
          still_owned j f (sym (get_elem?-pop_back s.poll_fds j lt) ∙ h) (omega arith);
    }

  -- The last entry `z`, of the channel `q`, takes the place of entry `i`.
  module _ (k : ℕ) (z : PollFd) (q : ℕ) (last : suc k ≡ length s.poll_fds)
      (at_k : get_elem? s.poll_fds k ≡ some z) (before : i < k) (n : unmapped (fd_of z.fd) ≡ some q)
      (x : (s.heap q).index ≡ pos k) where
    abbrev pub moved : Poller
    moved = record s {
      channels_map = unmapped;
      poll_fds = pop_back (set s.poll_fds i z);
      heap = update s.heap q (record (s.heap q) { index = pos i });
    }

    pub moved_at : (j : ℕ) → j < k → j ≢ i → get_elem? moved.poll_fds j ≡ get_elem? s.poll_fds j
    moved_at j h ne =
        get_elem?-pop_back (set s.poll_fds i z) j (omega (arith, length-set s.poll_fds i z))
        ∙ get_elem?-set_ne s.poll_fds z (λ y. ne (sym y))

    pub moved_self : get_elem? moved.poll_fds i ≡ some z
    moved_self =
        get_elem?-pop_back (set s.poll_fds i z) i (omega (arith, length-set s.poll_fds i z))
        ∙ get_elem?-set_self s.poll_fds i z (omega arith)

    moved_heap : (r : ℕ) → r ≢ q → moved.heap r ≡ s.heap r
    moved_heap r h = update_ne s.heap q _ r h

    moved_index : (moved.heap q).index ≡ pos i
    moved_index = ap (λ (c : Channel). c.index) (update_self s.heap q _)

    -- The channel of the last entry.
    listed_mover : (g r j : ℕ) (f : PollFd) → IsListed s g r j f → r ≡ q → IsListed moved g r i z
    listed_mover g r j f w r_q =
        let y : pos j ≡ pos k = sym w.own_index ∙ ap (λ a. (s.heap a).index) r_q ∙ x in
        let j_k : j ≡ k = cc in
        let u : some f ≡ some z = sym w.entry ∙ ap (get_elem? s.poll_fds) j_k ∙ at_k in
        let f_z : f ≡ z = cc in
        record {
          own_fd =
              ap (λ a. (moved.heap a).fd) r_q
              ∙ ap (λ (c : Channel). c.fd) (update_self s.heap q _)
              ∙ ap (λ a. (s.heap a).fd) (sym r_q)
              ∙ w.own_fd;
          own_index = ap (λ a. (moved.heap a).index) r_q ∙ moved_index;
          entry = moved_self;
          entry_fd = ap (λ (t : PollFd). fd_of t.fd) (sym f_z) ∙ w.entry_fd;
        }

    -- Any other channel keeps its entry.
    listed_other :
        (g r j : ℕ) (f : PollFd)
        → unmapped g ≡ some r
        → IsListed s g r j f
        → r ≢ q
        → IsListed moved g r j f
    listed_other g r j f h w r_q =
        IsListed-keep s moved g r j f (ap (λ (c : Channel). c.fd) (moved_heap r r_q))
          (ap (λ (c : Channel). c.index) (moved_heap r r_q)) (moved_at j below not_i) w
      where
        not_i : j ≢ i
        not_i = other_index g r j f (other_fd g r h) w

        not_k : j ≢ k
        not_k j_k =
            let u : some f ≡ some z = sym w.entry ∙ ap (get_elem? s.poll_fds) j_k ∙ at_k in
            let f_z : f ≡ z = cc in
            let y : some r ≡ some q =
              sym h ∙ ap unmapped (sym w.entry_fd ∙ ap (λ (t : PollFd). fd_of t.fd) f_z) ∙ n in
            r_q cc

        below : j < k
        below = omega (arith, lt_of_get_elem? s.poll_fds j f w.entry, not_k)

    moved_listed : (g r : ℕ) → unmapped g ≡ some r → (j : ℕ) × (f : PollFd) × IsListed moved g r j f
    moved_listed g r h =
        let (j, f, w) = v.listed g r (still_mapped g r h) in
        elim (ℕ_discrete r q) [
          | yes r_q ↦ (i, z, listed_mover g r j f w r_q)
          | no r_q ↦ (j, f, listed_other g r j f h w r_q)
        ]

    owned_other :
        (j : ℕ) (f : PollFd)
        → get_elem? s.poll_fds j ≡ some f
        → j < k
        → j ≢ i
        → (r : ℕ) × (unmapped (fd_of f.fd) ≡ some r) × ((moved.heap r).index ≡ pos j)
    owned_other j f h below ne =
        let (r, a, b) = still_owned j f h ne in
        (
          r,
          a,
          ap (λ (c : Channel). c.index)
                (moved_heap r (λ r_q.
                  let y : pos j ≡ pos k = sym b ∙ ap (λ t. (s.heap t).index) r_q ∙ x in
                  let j_k : j ≡ k = cc in omega arith))
              ∙ b,
        )

    moved_owned :
        (j : ℕ) (f : PollFd)
        → get_elem? moved.poll_fds j ≡ some f
        → (r : ℕ) × (unmapped (fd_of f.fd) ≡ some r) × ((moved.heap r).index ≡ pos j)
    moved_owned j f h = elim (ℕ_discrete j i) [
      | yes j_i ↦
          let u : some z ≡ some f = sym moved_self ∙ ap (get_elem? moved.poll_fds) (sym j_i) ∙ h in
          let z_f : z ≡ f = cc in
          (
            q,
            ap (λ (t : PollFd). unmapped (fd_of t.fd)) (sym z_f) ∙ n,
            moved_index ∙ ap pos (sym j_i),
          )
      | no j_i ↦ owned_other j f (sym (moved_at j below j_i) ∙ h) below j_i
    ]
      where
        below : j < k
        below =
            omega (
              arith,
              lt_of_get_elem?-pop_back (set s.poll_fds i z) j f h,
              length-set s.poll_fds i z,
            )

    pub moved-IsValid : IsValid moved
    moved-IsValid = record { listed = moved_listed; owned = moved_owned }
