-- ===== src/Net/Connection/Total.antt =====
-- __SendInLoop returns: with room in the output buffer and a registered channel no assertion fails.
use neconet.Prelude.{
  ℕ, ◌≡◌, refl, inl, inr, List, [], ◌∷◌, ◌++◌, length, take, drop, some, ok, subst, OnOk,
  Bool-cases,
}
use neconet.Net.Buffer.Inv.{IsValid}
use neconet.Net.Buffer.Append.{HasRoom, append-Holds}
use neconet.Net.Poller.{PollFd, set_interest, enable_reading}
use neconet.Net.Poller.Inv.{IsListed}
use neconet.Net.Poller.Ignored.{set_interest_lem}
use neconet.Net.Connection.{Connection, Written, writing, taken, keep_rest, send_in_loop}
use neconet.Net.Connection.Handlers.{Carries, stream, send_in_loop-Carries}

module _ (c : Connection) (fd i : ℕ) (e : PollFd) (p : neconet.Net.Poller.Inv.IsValid c.poller)
    (m : c.poller.channels_map fd ≡ some c.channel) (l : IsListed c.poller fd c.channel i e)
    (v : IsValid c.output) where
  keep_rest-ok :
      (rest : List ℕ)
      → HasRoom c.output (length rest)
      → (d : Connection) × (keep_rest c rest ≡ ok d)
  unfolding keep_rest
  keep_rest-ok [] room = (c, refl)
  keep_rest-ok (b ∷ rest) room =
      let (o, x, _, _) = append-Holds c.output (b ∷ rest) v room in
      let (t, y, _, _, _, _, _) = set_interest_lem enable_reading c.poller fd c.channel i e p m l in
      elim (Bool-cases (writing c)) [
        | inl h ↦ (record c { output = o }, rw x (rw h refl))
        | inr h ↦ (record c { output = o; poller = t }, rw x (rw h (rw y refl)))
      ]

-- `__SendInLoop` of a connection whose channel is registered in a valid poller returns, if the output
-- buffer is valid and has room for what `write` does not take. The bytes sent and waiting are then those
-- before, followed by the message, and the output buffer is valid.
pub send_in_loop_lem :
    (c : Connection) (fd i : ℕ) (e : PollFd)
    → neconet.Net.Poller.Inv.IsValid c.poller
    → c.poller.channels_map fd ≡ some c.channel
    → IsListed c.poller fd c.channel i e
    → IsValid c.output
    → (message : List ℕ) (w : Written) → HasRoom c.output (length (drop (taken c w) message))
    → (d : Connection) × (send_in_loop c message w ≡ ok d) × Carries (stream c ++ message) d
unfolding send_in_loop
send_in_loop_lem c fd i e p m l v message w room =
    let b : Connection = record c { sent = c.sent ++ take (taken c w) message } in
    let (d, x) = keep_rest-ok b fd i e p m l v (drop (taken c w) message) room in
    (d, x, subst (OnOk (Carries (stream c ++ message))) x (send_in_loop-Carries c message v w))
