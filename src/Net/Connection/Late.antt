-- ===== src/Net/Connection/Late.antt =====
-- A message that another thread sends between the close of a connection and its ConnectDestroyed.
use neconet.Prelude.{
  ℕ, ◌≡◌, refl, sym, ap, ◌∙◌, false, List, ◌∷◌, drop, length, ok, err, assertion, Outcome, OnOk,
  OnOk-bind, OnOk-assert, ◌||◌, subst,
}
use neconet.Net.Buffer.Inv.{IsValid}
use neconet.Net.Buffer.Append.{HasRoom, append-Holds}
use neconet.Net.Channel.{Events, none_event}
use neconet.Net.Poller.{set_interest, remove_channel, interest, enable_reading, disable_all}
use neconet.Net.Poller.Effects.{events_set_interest, events_remove_channel}
use neconet.Net.Poller.Gone.{IsGone, remove_channel-IsGone, set_interest-err}
use neconet.Net.Connection.{
  Connection, send_task, Written, taken, writing, connect_destroyed, keep_rest, send_in_loop,
  run_task, is_connected, is_disconnecting,
}

-- The channel is gone from the poller and without interest; the output buffer is that of `c`.
pub record IsOver (c d : Connection) : Type 0 where
  pub gone : IsGone d.poller d.channel
  pub silent : writing d ≡ false
  pub output : d.output ≡ c.output

on_ok {ℓ κ} : {A : Type ℓ} (P : A → Type κ) (m : Outcome A) → ((a : A) → m ≡ ok a → P a) → OnOk P m
on_ok P (ok a) h = h a refl
on_ok P (err e) h = tt

connect_destroyed-IsOver : (c : Connection) → OnOk (IsOver c) (connect_destroyed c)
unfolding connect_destroyed interest
connect_destroyed-IsOver c = OnOk-assert _ (is_connected c.state || is_disconnecting c.state) _ (
    OnOk-bind (λ s. (s.heap c.channel).events ≡ none_event) _
      (set_interest disable_all c.poller c.channel) _
      (on_ok _ (set_interest disable_all c.poller c.channel)
        λ s e. events_set_interest disable_all c.poller s c.channel e)
      λ s x.
        OnOk-bind (λ t. IsGone t c.channel × ((t.heap c.channel).events ≡ none_event)) _
          (remove_channel s c.channel) _
          (on_ok _ (remove_channel s c.channel) λ t e.
            (remove_channel-IsGone s t c.channel e, events_remove_channel s t c.channel e ∙ x))
          λ t (g, y). record { gone = g; silent = ap (λ (v : Events). v.pollout) y; output = refl })

-- After a ConnectDestroyed that succeeds, a message that another thread sent before aborts the program
-- when the loop runs its task, if `write` takes less than the whole message and the valid output buffer has
-- room for the rest: the interest in reading is set on a channel that is no longer registered.
pub late_send_lem :
    (c d : Connection) (message : List ℕ) (w : Written) (b : ℕ) (rest : List ℕ)
    → connect_destroyed c ≡ ok d
    → drop (taken d w) message ≡ b ∷ rest
    → IsValid c.output
    → HasRoom c.output (length (b ∷ rest))
    → run_task d (send_task message) w ≡ err assertion
unfolding run_task send_in_loop keep_rest
late_send_lem c d message w b rest e left v room =
    let o : IsOver c d = subst (OnOk (IsOver c)) e (connect_destroyed-IsOver c) in
    let (x, y, _, _) =
      append-Holds d.output (b ∷ rest) (subst IsValid (sym o.output) v)
        (subst (λ z. HasRoom z (length (b ∷ rest))) (sym o.output) room) in
    rw (left, keep_rest)
      (rw y (rw o.silent (rw (set_interest-err enable_reading d.poller d.channel o.gone) refl)))
