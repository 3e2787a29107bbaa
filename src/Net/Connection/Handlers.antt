-- ===== src/Net/Connection/Handlers.antt =====
-- Each handler keeps the bytes of the messages.
use neconet.Prelude.{
  ℕ, zero, suc, ◌-◌, ◌≡◌, sym, ap, ◌∙◌, not, ◌&&◌, ◌||◌, List, [], ◌∷◌, ◌++◌, take, drop, ok, arith,
  OnOk, OnOk-bind, OnOk-assert, OnOk-if, all_ok, ◌==◌, if◌then◌else◌, Bool-cases, inl, inr,
  append-nil, append_assoc, take-append-drop, subst,
}
use neconet.Net.Buffer.{Buffer, Readv, failed, got, readable_bytes, retrieve, append, read_fd}
use neconet.Net.Buffer.Inv.{IsValid, contents, readable_lem}
use neconet.Net.Buffer.Total.{append-OnOk}
use neconet.Net.Buffer.Moves.{retrieve-OnOk}
use neconet.Net.Poller.{set_interest, remove_channel, enable_reading, disable_writing, disable_all}
use neconet.Net.Connection.{
  Connection, is_connecting, is_connected, is_disconnecting, Written, wrote, write_failed, writing,
  taken, connect_established, connect_destroyed, shutdown_in_loop, output_done, wrote_output,
  handle_write, handle_close, handle_error, handle_read, keep_rest, send_in_loop, notify,
  message_notice,
}

-- The bytes sent, and then those that wait.
abbrev pub stream : Connection → List ℕ
stream c = c.sent ++ contents c.output

-- The output buffer is valid, and `xs` is what was sent or waits.
abbrev pub Carries : List ℕ → Connection → Type 0
Carries xs c = IsValid c.output × (stream c ≡ xs)

empty_contents : (b : Buffer) → IsValid b → readable_bytes b ≡ 0 → contents b ≡ []
empty_contents b v h =
    let e : b.writer_index - b.reader_index ≡ 0 = omega (arith, readable_lem b v) in
    ap (λ n. take n (drop b.reader_index b.bytes)) e

module _ (c : Connection) (v : IsValid c.output) where
  keep_rest-Carries : (rest : List ℕ) → OnOk (Carries (stream c ++ rest)) (keep_rest c rest)
  unfolding keep_rest
  keep_rest-Carries [] = (v, sym (append-nil (stream c)))
  keep_rest-Carries (b ∷ rest) =
      OnOk-bind _ _ (append c.output (b ∷ rest)) _ (append-OnOk c.output (b ∷ rest) v)
        λ o (w, same).
          let d : Connection = record c { output = o } in
          OnOk-bind (λ _. Unit {0}) _
            (if writing d then ok d.poller else set_interest enable_reading d.poller d.channel) _
            (all_ok _)
            λ p _. (
              w,
              ap (λ l. c.sent ++ l) same ∙ sym (append_assoc c.sent (contents c.output) (b ∷ rest)),
            )

module _ (c : Connection) (message : List ℕ) (v : IsValid c.output) where
  -- What is taken at once goes out while nothing waits.
  stream-taken :
      (w : Written)
      → (c.sent ++ take (taken c w) message) ++ contents c.output
        ≡ stream c ++ take (taken c w) message
  stream-taken (write_failed errno) = simp append-nil
  stream-taken (wrote n) = elim (Bool-cases (not (writing c) && readable_bytes c.output == 0)) [
    | inl e ↦
        let empty : contents c.output ≡ [] = empty_contents c.output v (ground (arith, e)) in
        rw e (rw empty (simp append-nil))
    | inr e ↦ rw e (simp append-nil)
  ]

  -- `__SendInLoop` adds the message to the stream: a part of it is sent, and the rest waits.
  pub send_in_loop-Carries :
      (w : Written) → OnOk (Carries (stream c ++ message)) (send_in_loop c message w)
  unfolding send_in_loop
  send_in_loop-Carries w =
      subst (λ xs. OnOk (Carries xs) (keep_rest d (drop (taken c w) message))) regroup
        (keep_rest-Carries d v (drop (taken c w) message))
    where
      d : Connection
      d = record c { sent = c.sent ++ take (taken c w) message }

      regroup : stream d ++ drop (taken c w) message ≡ stream c ++ message
      regroup =
          ap (λ l. l ++ drop (taken c w) message) (stream-taken w)
          ∙ append_assoc (stream c) (take (taken c w) message) (drop (taken c w) message)
          ∙ ap (λ l. stream c ++ l) (take-append-drop (taken c w) message)

pub shutdown_in_loop-Carries :
    (xs : List ℕ) (c : Connection) → Carries xs c → Carries xs (shutdown_in_loop c)
unfolding shutdown_in_loop
shutdown_in_loop-Carries xs c h = elim (Bool-cases (writing c)) [ inl e ↦ rw e h | inr e ↦ rw e h ]

-- What follows a complete write changes neither the buffer nor the bytes sent.
output_done-Carries :
    (xs : List ℕ) (c : Connection) → Carries xs c → OnOk (Carries xs) (output_done c)
unfolding output_done
output_done-Carries xs c h =
    OnOk-bind (λ _. Unit {0}) _ (set_interest disable_writing c.poller c.channel) _ (all_ok _)
      λ p _. elim (Bool-cases (is_disconnecting c.state)) [
        | inl e ↦ rw e (shutdown_in_loop-Carries xs (record c { poller = p }) h)
        | inr e ↦ rw e h
      ]

wrote_output-Carries :
    (xs : List ℕ) (c : Connection) (n : ℕ) → Carries xs c → OnOk (Carries xs) (wrote_output c n)
unfolding wrote_output
wrote_output-Carries xs c n (v, e) =
    OnOk-bind _ _ (retrieve c.output n) _ (retrieve-OnOk c.output n v) λ o (w, split).
      let d : Connection = record c { output = o; sent = c.sent ++ take n (contents c.output) } in
      let same : Carries xs d = (
        w,
        append_assoc c.sent (take n (contents c.output)) (contents o)
            ∙ ap (λ l. c.sent ++ l) split
            ∙ e,
      ) in
      OnOk-if _ (readable_bytes o == 0) _ _ (λ _. output_done-Carries xs d same) (λ _. same)

-- `__HandleWrite` moves bytes from the front of the output buffer to those sent.
pub handle_write-Carries :
    (xs : List ℕ) (c : Connection) (w : Written)
    → Carries xs c
    → OnOk (Carries xs) (handle_write c w)
unfolding handle_write
handle_write-Carries xs c (write_failed errno) h = h
handle_write-Carries xs c (wrote zero) h = h
handle_write-Carries xs c (wrote (suc n)) h =
    OnOk-if _ (writing c) _ _ (λ _. wrote_output-Carries xs c (suc n) h) (λ _. h)

pub connect_established-Carries :
    (xs : List ℕ) (c : Connection) → Carries xs c → OnOk (Carries xs) (connect_established c)
unfolding connect_established
connect_established-Carries xs c h = OnOk-assert _ (is_connecting c.state) _ (
    OnOk-bind (λ _. Unit {0}) _ (set_interest enable_reading c.poller c.channel) _ (all_ok _)
      (λ s k. h))

pub connect_destroyed-Carries :
    (xs : List ℕ) (c : Connection) → Carries xs c → OnOk (Carries xs) (connect_destroyed c)
unfolding connect_destroyed
connect_destroyed-Carries xs c h =
    OnOk-assert _ (is_connected c.state || is_disconnecting c.state) _ (
      OnOk-bind (λ _. Unit {0}) _ (set_interest disable_all c.poller c.channel) _ (all_ok _)
        (λ s k. OnOk-bind (λ _. Unit {0}) _ (remove_channel s c.channel) _ (all_ok _) (λ t l. h)))

pub handle_close-Carries :
    (xs : List ℕ) (c : Connection) → Carries xs c → OnOk (Carries xs) (handle_close c)
unfolding handle_close
handle_close-Carries xs c h = OnOk-assert _ (is_connected c.state || is_disconnecting c.state) _ (
    OnOk-bind (λ _. Unit {0}) _ (set_interest disable_all c.poller c.channel) _ (all_ok _)
      (λ s k. h))

pub handle_read-Carries :
    (xs : List ℕ) (c : Connection) (r : Readv) → Carries xs c → OnOk (Carries xs) (handle_read c r)
unfolding handle_read
handle_read-Carries xs c r h =
    OnOk-bind _ _ (read_fd c.input r) _ (all_ok _) λ (input, n) _. after input n
  where
    after :
        (input : Buffer) (n : Readv)
        → OnOk (Carries xs) (
            let d : Connection = record c { input = input } in
            elim n [
              | failed errno ↦ ok (handle_error d)
              | got [] ↦ handle_close d
              | got (b ∷ rest) ↦ ok (notify d message_notice)
            ])
    after input (failed errno) = h
    after input (got []) = handle_close-Carries xs (record c { input = input }) h
    after input (got (b ∷ rest)) = h
