-- ===== src/Net/Poller/Fresh.antt =====
-- A new channel, at a pointer where no registered channel is.
use neconet.Prelude.{
  update, update_ne, update_self, ℕ, ◌≡◌, ◌≢◌, refl, sym, ap, ◌∙◌, some, none, ok, true,
}
use neconet.Prelude.Int.{negsuc}
use neconet.Net.Channel.{Channel}
use neconet.Net.Poller.{Poller, Interest, set_interest, with_reader, watch, enable_reading}
use neconet.Net.Poller.Inv.{IsListed-keep, IsValid}
use neconet.Net.Poller.Register.{update_channel_adds}
use neconet.Net.Poller.Ignored.{before, before_fd, before_index, before-IsValid}

-- No registered channel is at `q`.
abbrev pub IsFresh : Poller → ℕ → Type 0
IsFresh s q = (fd : ℕ) → s.channels_map fd ≢ some q

-- A new channel at a fresh pointer keeps the poller valid.
pub fresh-IsValid :
    (s : Poller) (q : ℕ) (c : Channel)
    → IsValid s
    → IsFresh s q
    → IsValid (record s { heap = update s.heap q c })
fresh-IsValid s q c v f = record {
  listed = λ fd p m.
      let (i, e, l) = v.listed fd p m in
      (
        i,
        e,
        IsListed-keep s (record s { heap = update s.heap q c }) fd p i e
            (ap (λ (d : Channel). d.fd) (same fd p m)) (ap (λ (d : Channel). d.index) (same fd p m))
            refl l,
      );
  owned = λ i e g.
      let (p, m, k) = v.owned i e g in (p, m, ap (λ (d : Channel). d.index) (same _ p m) ∙ k);
}
  where
    same : (fd p : ℕ) → s.channels_map fd ≡ some p → update s.heap q c p ≡ s.heap p
    same fd p m = update_ne s.heap q c p (λ u. f fd (m ∙ ap some u))

-- Any of the four operations on a channel that has no entry registers it.
pub set_interest_adds :
    (op : Interest) (s : Poller) (q k : ℕ)
    → IsValid s
    → (s.heap q).index ≡ negsuc k
    → s.channels_map (s.heap q).fd ≡ none
    → (t : Poller) × (set_interest op s q ≡ ok t)
      × IsValid t
      × (t.channels_map (s.heap q).fd ≡ some q)
      × (t.channels_map ≡ update s.channels_map (s.heap q).fd (some q))
unfolding set_interest
set_interest_adds op s q k v x m =
    let b : Poller = before op s q in
    let (t, e, w, n, _, u) =
      update_channel_adds b q k (before-IsValid op s q v) (before_index op s q q ∙ x)
        (ap s.channels_map (before_fd op s q q) ∙ m) in
    (
      t,
      e,
      w,
      ap t.channels_map (sym (before_fd op s q q)) ∙ n,
      u ∙ ap (λ fd. update s.channels_map fd (some q)) (before_fd op s q q),
    )

-- A new channel for a descriptor that has none gets an entry.
pub watch_lem :
    (s : Poller) (q fd : ℕ)
    → IsValid s
    → IsFresh s q
    → s.channels_map fd ≡ none
    → (t : Poller) × (watch s q fd ≡ ok t)
      × IsValid t
      × (t.channels_map ≡ update s.channels_map fd (some q))
unfolding watch neconet.Net.Channel.init
watch_lem s q fd v f m =
    let b = with_reader s q fd in
    let c = update_self s.heap q (record (neconet.Net.Channel.init fd) { has_read = true }) in
    let c_fd : (b.heap q).fd ≡ fd = ap (λ (d : Channel). d.fd) c in
    let (t, e, w, _, u) =
      set_interest_adds enable_reading b q 0 (fresh-IsValid s q _ v f)
        (ap (λ (d : Channel). d.index) c) (ap s.channels_map c_fd ∙ m) in
    (t, e, w, u ∙ ap (λ n. update s.channels_map n (some q)) c_fd)
