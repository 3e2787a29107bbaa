-- ===== src/Net/Connection/Lost.antt =====
-- A message that `write` takes only in part, followed by ShutDown.
use neconet.Prelude.{
  ℕ, ◌<◌, ◌≡◌, refl, sym, ap, ◌∙◌, inl, true, false, List, [], ◌∷◌, ◌++◌, length, take, drop, ok,
  some, subst, OnOk, arith, length-drop,
}
use neconet.Net.Buffer.Inv.{IsValid, contents, readable_lem}
use neconet.Net.Buffer.Append.{HasRoom, append-Holds}
use neconet.Net.Buffer.Moves.{length-contents}
use neconet.Net.Poller.{PollFd, set_interest, enable_reading}
use neconet.Net.Poller.Inv.{IsListed}
use neconet.Net.Poller.Ignored.{set_interest_lem}
use neconet.Net.Connection.{
  Connection, connected, disconnecting, wrote, writing, taken, keep_rest, send_in_loop, shut_down,
  Event, run,
}
use neconet.Net.Connection.Interest.{quiet_set}
use neconet.Net.Connection.Writing.{IsStuck, run-IsStuck}

-- What keeping `rest` makes of a connection whose channel has no interest in writing.
record IsKept (c : Connection) (rest : List ℕ) (d : Connection) : Type 0 where
  quiet : writing d ≡ false
  valid : IsValid d.output
  waits : contents d.output ≡ contents c.output ++ rest
  same_sent : d.sent ≡ c.sent
  same_state : d.state ≡ c.state

shut_down_quiet :
    (d : Connection)
    → writing d ≡ false
    → d.state ≡ connected
    → shut_down d true ≡ record d { state = disconnecting; shut_write = true }
unfolding shut_down
shut_down_quiet d h e = rw (e, h) refl

module _ (c : Connection) (fd i : ℕ) (e : PollFd) (p : neconet.Net.Poller.Inv.IsValid c.poller)
    (m : c.poller.channels_map fd ≡ some c.channel) (l : IsListed c.poller fd c.channel i e)
    (v : IsValid c.output) (h : writing c ≡ false) where
  keep_rest-IsKept :
      (sent : List ℕ) (b : ℕ) (rest : List ℕ)
      → HasRoom c.output (length (b ∷ rest))
      → let s : Connection = record c { sent = sent } in
        (d : Connection) × (keep_rest s (b ∷ rest) ≡ ok d) × IsKept s (b ∷ rest) d
  unfolding keep_rest
  keep_rest-IsKept sent b rest room =
      let (o, x, w, holds) = append-Holds c.output (b ∷ rest) v room in
      let (t, y, _, _, _, _, _) = set_interest_lem enable_reading c.poller fd c.channel i e p m l in
      (
        record c { output = o; poller = t; sent = sent },
        rw x (rw h (rw y refl)),
        record {
          quiet = quiet_set enable_reading c.poller c.channel (inl refl) h (ok t) y;
          valid = w;
          waits = holds;
          same_sent = refl;
          same_state = refl;
        },
      )

  -- ShutDown after that.
  shut_down-IsStuck :
      (es : List Event) (xs : List ℕ) (b : ℕ) (rest : List ℕ) (d : Connection)
      → contents d.output ≡ b ∷ rest
      → writing d ≡ false
      → IsValid d.output
      → d.sent ≡ xs
      → d.state ≡ connected
      → ((shut_down d true).shut_write ≡ true)
        × OnOk (λ g. IsStuck (b ∷ rest) xs g.output g.sent) (run (shut_down d true) es)
  shut_down-IsStuck es xs b rest d x q w s t =
      let y = shut_down_quiet d q t in
      (
        ap (λ (g : Connection). g.shut_write) y,
        subst (λ ys. OnOk (λ g. IsStuck (b ∷ rest) ys g.output g.sent) (run (shut_down d true) es))
            (ap (λ (g : Connection). g.sent) y ∙ s)
            (run-IsStuck es (shut_down d true) b rest (ap writing y ∙ q)
              (subst (λ (g : Connection). IsValid g.output) (sym y) w)
              (ap (λ (g : Connection). contents g.output) y ∙ x)),
      )

  taken_all : (n : ℕ) → contents c.output ≡ [] → taken c (wrote n) ≡ n
  taken_all n z =
      ground (arith, h, readable_lem c.output v, length-contents c.output v, ap length z)

  -- With `rest` for what `write` leaves.
  kept_back :
      (message : List ℕ) (n : ℕ) (es : List Event) (rest : List ℕ)
      → c.state ≡ connected
      → contents c.output ≡ []
      → drop n message ≡ rest
      → 0 < length rest
      → HasRoom c.output (length rest)
      → (d : Connection) × (send_in_loop c message (wrote n) ≡ ok d)
        × ((shut_down d true).shut_write ≡ true)
        × OnOk
            (λ g. IsStuck rest (c.sent ++ take n message) g.output g.sent)
            (run (shut_down d true) es)
  unfolding send_in_loop
  kept_back message n es [] k z x some_left room = absurd (omega arith)
  kept_back message n es (b ∷ rest) k z x some_left room =
      let (d, y, g) = keep_rest-IsKept (c.sent ++ take n message) b rest room in
      let (shut, stuck) =
        shut_down-IsStuck es (c.sent ++ take n message) b rest d
          (g.waits ∙ ap (λ xs. xs ++ (b ∷ rest)) z) g.quiet g.valid g.same_sent
          (g.same_state ∙ k) in
      (d, rw (taken_all n z) (rw x y), shut, stuck)

-- If `write` takes only the first `n` bytes of a message of a connected connection, whose channel is
-- registered in a valid poller without interest in writing and whose output buffer is valid, empty and large
-- enough for the rest, then __SendInLoop returns, but a ShutDown by the loop's thread after it shuts
-- the socket's write half down although the rest waits. And whatever events follow, as long as no
-- assertion fails, the rest stays at the front of the output buffer and no byte of it is sent.
pub send-shut_down_loses :
    (c : Connection) (fd i : ℕ) (e : PollFd)
    → neconet.Net.Poller.Inv.IsValid c.poller
    → c.poller.channels_map fd ≡ some c.channel
    → IsListed c.poller fd c.channel i e
    → IsValid c.output
    → writing c ≡ false
    → c.state ≡ connected
    → contents c.output ≡ []
    → (message : List ℕ) (n : ℕ) (es : List Event) → n < length message
    → HasRoom c.output (length (drop n message))
    → (d : Connection) × (send_in_loop c message (wrote n) ≡ ok d)
      × ((shut_down d true).shut_write ≡ true)
      × OnOk
          (λ g. IsStuck (drop n message) (c.sent ++ take n message) g.output g.sent)
          (run (shut_down d true) es)
send-shut_down_loses c fd i e p m l v h k z message n es part room =
    kept_back c fd i e p m l v h message n es (drop n message) k z refl
      (omega (arith, length-drop n message)) room
