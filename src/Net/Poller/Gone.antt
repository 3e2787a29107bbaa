-- ===== src/Net/Poller/Gone.antt =====
-- RemoveChannel leaves the index in the channel, so a later UpdateChannel takes it for a registered one.
use neconet.Prelude.{
  update, update_self, ℕ, ◌≡◌, refl, ap, ◌∙◌, ◌⊎◌, inl, inr, none, ok, err, assertion, arith,
}
use neconet.Prelude.Int.{pos}
use neconet.Net.Poller.{
  Poller, change_entry, update_channel, drop_entry, remove_channel, Interest, set_interest,
}
use neconet.Net.Poller.Effects.{ℤ-cases}
use neconet.Net.Poller.Ignored.{before, before_fd, before_index}

map-drop_entry : (s t : Poller) (i : ℕ) → drop_entry s i ≡ ok t → t.channels_map ≡ s.channels_map
unfolding drop_entry
map-drop_entry s t i h = ground arith

fd-drop_entry : (s t : Poller) (p i : ℕ) → drop_entry s i ≡ ok t → (t.heap p).fd ≡ (s.heap p).fd
unfolding drop_entry
fd-drop_entry s t p i h = ground arith

index-drop_entry :
    (s t : Poller) (p i : ℕ)
    → drop_entry s i ≡ ok t
    → ((t.heap p).index ≡ (s.heap p).index) ⊎ ((t.heap p).index ≡ pos i)
unfolding drop_entry
index-drop_entry s t p i h = ground arith

-- The channel at `p` is not registered, but has an index.
pub record IsGone (s : Poller) (p : ℕ) : Type 0 where
  pub unlisted : s.channels_map (s.heap p).fd ≡ none
  pub at : ℕ
  pub index : (s.heap p).index ≡ pos at

drop_entry-IsGone :
    (s t : Poller) (p i : ℕ)
    → s.channels_map (s.heap p).fd ≡ none
    → (s.heap p).index ≡ pos i
    → drop_entry s i ≡ ok t
    → IsGone t p
drop_entry-IsGone s t p i u x h = record {
  unlisted =
      ap t.channels_map (fd-drop_entry s t p i h)
      ∙ ap (λ f. f (s.heap p).fd) (map-drop_entry s t i h)
      ∙ u;
  at = i;
  index = elim (index-drop_entry s t p i h) [ inl e ↦ e ∙ x | inr e ↦ e ];
}

pub remove_channel-IsGone : (s t : Poller) (p : ℕ) → remove_channel s p ≡ ok t → IsGone t p
unfolding remove_channel
remove_channel-IsGone s t p h = elim (ℤ-cases (s.heap p).index) [
  | inl (i, e) ↦
      let b : Poller = record s { channels_map = update s.channels_map (s.heap p).fd none } in
      drop_entry-IsGone b t p i (update_self s.channels_map (s.heap p).fd none) e
        (ground (arith, e))
  | inr (k, e) ↦ absurd (ground (arith, e))
]

-- Any of the four operations on such a channel aborts.
pub set_interest-err :
    (op : Interest) (s : Poller) (p : ℕ) → IsGone s p → set_interest op s p ≡ err assertion
unfolding set_interest update_channel change_entry
set_interest-err op s p g =
    let b = before op s p in
    let x : (b.heap p).index ≡ pos g.at = before_index op s p p ∙ g.index in
    let y : b.channels_map (b.heap p).fd ≡ none =
      ap s.channels_map (before_fd op s p p) ∙ g.unlisted in
    rw (x, update_channel) (rw y refl)
