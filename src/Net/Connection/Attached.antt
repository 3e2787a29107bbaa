-- ===== src/Net/Connection/Attached.antt =====
-- An open connection with its channel in the poller.
pub mod Steps
use neconet.Prelude.{
  ℕ, zero, suc, ◌≡◌, refl, sym, ap, ◌∙◌, inl, inr, Bool, true, false, not, List, [], ◌∷◌, ◌++◌,
  Option, some, ok, OnOk, OnOk-bind, OnOk-if, all_ok, Bool-cases, take, drop, ◌==◌, if◌then◌else◌,
}
use neconet.Net.Buffer.{Buffer, Readv, failed, got, readable_bytes, retrieve, append, read_fd}
use neconet.Net.Poller.{
  Poller, Interest, interest, set_interest, enable_reading, disable_writing, disable_all,
}
use neconet.Net.Channel.{Events}
use neconet.Net.Poller.Effects.{events_set_interest}
use neconet.Net.Poller.Inv.{IsValid}
use neconet.Net.Poller.Ignored.{set_interest_lem}
use neconet.Net.Connection.{
  Connection, disconnecting, close_notice, is_connected, is_disconnecting, Written, wrote,
  write_failed, Task, send_task, shutdown_task, taken, writing, shutdown_in_loop, output_done,
  wrote_output, handle_write, handle_close, handle_error, handle_read, keep_rest, send_in_loop,
  send, shut_down, run_task, run_next, Event, established, destroyed, closes, errors, readable,
  writable, sends, shuts_down, runs_task, consumes, step, notify, message_notice,
}
use neconet.Net.Buffer.Inv.{contents}
use neconet.Net.Connection.Lifecycle.{IsOpen, open_test}

-- The connection is open, and its channel is `q`, which the valid poller's map `m` knows under `fd`.
pub record IsAttached (m : ℕ → Option ℕ) (q fd : ℕ) (c : Connection) : Type 0 where
  pub valid : IsValid c.poller
  pub map : c.poller.channels_map ≡ m
  pub listed : m fd ≡ some q
  pub channel : c.channel ≡ q
  pub state : IsOpen c.state

module _ (m : ℕ → Option ℕ) (q fd : ℕ) where
  -- What else changes in the connection does not matter.
  pub IsAttached-same :
      (c d : Connection)
      → d.poller ≡ c.poller
      → d.channel ≡ c.channel
      → d.state ≡ c.state
      → IsAttached m q fd c
      → IsAttached m q fd d
  IsAttached-same c d e f g h = record {
    valid = rw e h.valid;
    map = ap (λ (s : Poller). s.channels_map) e ∙ h.map;
    listed = h.listed;
    channel = f ∙ h.channel;
    state = rw g h.state;
  }

  -- An operation on the channel succeeds and keeps all of it.
  pub set_interest-IsAttached :
      (op : Interest) (c : Connection)
      → IsAttached m q fd c
      → (t : Poller) × (set_interest op c.poller c.channel ≡ ok t)
        × IsAttached m q fd (record c { poller = t })
  set_interest-IsAttached op c h =
      let own : c.poller.channels_map fd ≡ some c.channel =
        ap (λ (f : ℕ → Option ℕ). f fd) h.map ∙ h.listed ∙ ap some (sym h.channel) in
      let (i, e, l) = h.valid.listed fd c.channel own in
      let (t, r, v, n, _, _, _) = set_interest_lem op c.poller fd c.channel i e h.valid own l in
      (
        t,
        r,
        record {
          valid = v;
          map = n ∙ h.map;
          listed = h.listed;
          channel = h.channel;
          state = h.state;
        },
      )

  pub set_interest-OnOk :
      (op : Interest) (c : Connection)
      → IsAttached m q fd c
      → OnOk (λ t. IsAttached m q fd (record c { poller = t })) (set_interest op c.poller c.channel)
  set_interest-OnOk op c h = let (t, e, k) = set_interest-IsAttached op c h in rw e k

  -- `__HandleClose` fails no assertion.
  pub handle_close-IsAttached :
      (c : Connection)
      → IsAttached m q fd c
      → (d : Connection) × (handle_close c ≡ ok d) × IsAttached m q fd d × (writing d ≡ false)
  unfolding handle_close interest
  handle_close-IsAttached c h =
      let (t, e, k) = set_interest-IsAttached disable_all c h in
      (
        notify (record c { poller = t }) close_notice,
        rw (open_test c.state h.state) (rw e refl),
        IsAttached-same (record c { poller = t }) _ refl refl refl k,
        ap (λ (v : Events). v.pollout) (events_set_interest disable_all c.poller t c.channel e),
      )

  -- `Shutdown` leaves the connection open.
  pub closing :
      (c : Connection)
      → IsAttached m q fd c
      → IsAttached m q fd (record c { state = disconnecting })
  closing c h = record {
    valid = h.valid;
    map = h.map;
    listed = h.listed;
    channel = h.channel;
    state = inr refl;
  }

-- What can happen between ConnectEstablished and ConnectDestroyed.
abbrev pub IsInner : Event → Type 0
IsInner established = ⊥
IsInner destroyed = ⊥
IsInner _ = Unit
