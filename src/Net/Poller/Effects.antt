-- ===== src/Net/Poller/Effects.antt =====
-- What the poller's operations do to the interest of the channel, whenever they succeed.
use neconet.Prelude.{update, update_self, ℕ, ◌≡◌, refl, ap, ◌∙◌, none, ok, arith, ◌⊎◌, inl, inr}
use neconet.Prelude.Int.{ℤ, pos, negsuc}
use neconet.Net.Channel.{Channel}
use neconet.Net.Poller.{
  Poller, add_entry, change_entry, update_channel, drop_entry, remove_channel, Interest, interest,
  set_interest,
}

events_add_entry :
    (s t : Poller) (p : ℕ) → add_entry s p ≡ ok t → (t.heap p).events ≡ (s.heap p).events
unfolding add_entry
events_add_entry s t p h = ground arith

events_change_entry :
    (s t : Poller) (p i : ℕ) → change_entry s p i ≡ ok t → (t.heap p).events ≡ (s.heap p).events
unfolding change_entry
events_change_entry s t p i h = ground arith

pub ℤ-cases : (z : ℤ) → ((n : ℕ) × (z ≡ pos n)) ⊎ ((n : ℕ) × (z ≡ negsuc n))
ℤ-cases (pos n) = inl (n, refl)
ℤ-cases (negsuc n) = inr (n, refl)

events_update_channel :
    (s t : Poller) (p : ℕ) → update_channel s p ≡ ok t → (t.heap p).events ≡ (s.heap p).events
unfolding update_channel
events_update_channel s t p h = elim (ℤ-cases (s.heap p).index) [
  | inl (i, e) ↦ events_change_entry s t p i (rw (e, update_channel) at h)
  | inr (k, e) ↦ events_add_entry s t p (rw (e, update_channel) at h)
]

pub events_set_interest :
    (op : Interest) (s t : Poller) (p : ℕ)
    → set_interest op s p ≡ ok t
    → (t.heap p).events ≡ (interest op (s.heap p)).events
unfolding set_interest
events_set_interest op s t p h =
    events_update_channel (record s { heap = update s.heap p (interest op (s.heap p)) }) t p h
    ∙ ap (λ (c : Channel). c.events) (update_self s.heap p (interest op (s.heap p)))

events_drop_entry :
    (s t : Poller) (p i : ℕ) → drop_entry s i ≡ ok t → (t.heap p).events ≡ (s.heap p).events
unfolding drop_entry
events_drop_entry s t p i h = ground arith

pub events_remove_channel :
    (s t : Poller) (p : ℕ) → remove_channel s p ≡ ok t → (t.heap p).events ≡ (s.heap p).events
unfolding remove_channel
events_remove_channel s t p h = elim (ℤ-cases (s.heap p).index) [
  | inl (i, e) ↦ ground (
    arith,
    e,
    events_drop_entry (record s { channels_map = update s.channels_map (s.heap p).fd none }) t p i,
  )
  | inr (k, e) ↦ ground (arith, e)
]
