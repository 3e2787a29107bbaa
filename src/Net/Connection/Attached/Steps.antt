-- ===== src/Net/Connection/Attached/Steps.antt =====
-- What the handlers of an open connection leave alone: its channel, the poller's map and its openness.
use neconet.Prelude.{
  ℕ, zero, suc, refl, inl, inr, Bool, true, false, not, List, [], ◌∷◌, ◌++◌, Option, ok, OnOk,
  OnOk-bind, OnOk-if, all_ok, Bool-cases, take, drop, ◌==◌, if◌then◌else◌,
}
use neconet.Net.Buffer.{Buffer, Readv, failed, got, readable_bytes, retrieve, append, read_fd}
use neconet.Net.Poller.{set_interest, enable_reading, disable_writing}
use neconet.Net.Connection.{
  Connection, disconnecting, is_connected, is_disconnecting, Written, wrote, write_failed, Task,
  send_task, shutdown_task, taken, writing, shutdown_in_loop, output_done, wrote_output,
  handle_write, handle_close, handle_error, handle_read, keep_rest, send_in_loop, send, shut_down,
  run_task, run_next, Event, established, destroyed, closes, errors, readable, writable, sends,
  shuts_down, runs_task, consumes, step, notify, message_notice,
}
use neconet.Net.Buffer.Inv.{contents}
use neconet.Net.Connection.Attached.{
  IsAttached, IsAttached-same, set_interest-OnOk, handle_close-IsAttached, closing, IsInner,
}

module _ (m : ℕ → Option ℕ) (q fd : ℕ) where
  shutdown_in_loop-IsAttached :
      (c : Connection) → IsAttached m q fd c → IsAttached m q fd (shutdown_in_loop c)
  unfolding shutdown_in_loop
  shutdown_in_loop-IsAttached c h = elim (Bool-cases (writing c)) [
    | inl e ↦ rw e h
    | inr e ↦ rw e (IsAttached-same m q fd c _ refl refl refl h)
  ]

  output_done-IsAttached :
      (c : Connection) → IsAttached m q fd c → OnOk (IsAttached m q fd) (output_done c)
  unfolding output_done
  output_done-IsAttached c h =
      OnOk-bind _ _ (set_interest disable_writing c.poller c.channel) _
        (set_interest-OnOk m q fd disable_writing c h)
        λ t k. elim (Bool-cases (is_disconnecting c.state)) [
          | inl e ↦ rw e (shutdown_in_loop-IsAttached (record c { poller = t }) k)
          | inr e ↦ rw e k
        ]

  handle_write-IsAttached :
      (c : Connection) (w : Written)
      → IsAttached m q fd c
      → OnOk (IsAttached m q fd) (handle_write c w)
  unfolding handle_write wrote_output
  handle_write-IsAttached c (write_failed errno) h = h
  handle_write-IsAttached c (wrote zero) h = h
  handle_write-IsAttached c (wrote (suc n)) h =
      OnOk-if _ (writing c) _ _
        (λ _.
          OnOk-bind (λ _. Unit {0}) _ (retrieve c.output (suc n)) _ (all_ok _)
            λ o _.
              let d : Connection = record c {
                output = o;
                sent = c.sent ++ take (suc n) (contents c.output);
              } in
              let k = IsAttached-same m q fd c d refl refl refl h in
              OnOk-if _ (readable_bytes o == 0) _ _ (λ _. output_done-IsAttached d k) (λ _. k))
        (λ _. h)

  handle_read-IsAttached :
      (c : Connection) (r : Readv)
      → IsAttached m q fd c
      → OnOk (IsAttached m q fd) (handle_read c r)
  unfolding handle_read handle_error
  handle_read-IsAttached c r h =
      OnOk-bind (λ _. Unit {0}) _ (read_fd c.input r) _ (all_ok _) λ (input, n) _. after input n
    where
      after :
          (input : Buffer) (n : Readv)
          → OnOk (IsAttached m q fd) (
              let d : Connection = record c { input = input } in
              elim n [
                | failed errno ↦ ok (handle_error d)
                | got [] ↦ handle_close d
                | got (b ∷ rest) ↦ ok (notify d message_notice)
              ])
      after input (failed errno) = IsAttached-same m q fd c _ refl refl refl h
      after input (got []) =
          let (d, e, k, _) =
            handle_close-IsAttached m q fd (record c { input = input })
              (IsAttached-same m q fd c _ refl refl refl h) in
          rw e k
      after input (got (b ∷ rest)) = IsAttached-same m q fd c _ refl refl refl h

  keep_rest-IsAttached :
      (c : Connection) (rest : List ℕ)
      → IsAttached m q fd c
      → OnOk (IsAttached m q fd) (keep_rest c rest)
  unfolding keep_rest
  keep_rest-IsAttached c [] h = h
  keep_rest-IsAttached c (b ∷ rest) h =
      OnOk-bind (λ _. Unit {0}) _ (append c.output (b ∷ rest)) _ (all_ok _)
        λ o _.
          let d : Connection = record c { output = o } in
          let k = IsAttached-same m q fd c d refl refl refl h in
          OnOk-bind (λ t. IsAttached m q fd (record d { poller = t })) _
            (if writing d then ok d.poller else set_interest enable_reading d.poller d.channel) _
            (OnOk-if _ (writing d) (ok d.poller) _ (λ _. k)
              (λ _. set_interest-OnOk m q fd enable_reading d k))
            (λ t j. j)

  send_in_loop-IsAttached :
      (c : Connection) (message : List ℕ) (w : Written)
      → IsAttached m q fd c
      → OnOk (IsAttached m q fd) (send_in_loop c message w)
  unfolding send_in_loop
  send_in_loop-IsAttached c message w h =
      keep_rest-IsAttached _ (drop (taken c w) message)
        (IsAttached-same m q fd c _ refl refl refl h)

  send-IsAttached :
      (c : Connection) (in_loop : Bool) (message : List ℕ) (w : Written)
      → IsAttached m q fd c
      → OnOk (IsAttached m q fd) (send c in_loop message w)
  unfolding send
  send-IsAttached c in_loop message w h =
      OnOk-if _ (not (is_connected c.state)) _ _ (λ _. h)
        λ _.
          OnOk-if _ in_loop _ _ (λ _. send_in_loop-IsAttached c message w h)
            (λ _. IsAttached-same m q fd c _ refl refl refl h)

  shut_down-IsAttached :
      (c : Connection) (in_loop : Bool)
      → IsAttached m q fd c
      → IsAttached m q fd (shut_down c in_loop)
  unfolding shut_down
  shut_down-IsAttached c true h = elim (Bool-cases (is_connected c.state)) [
    | inr e ↦ rw e h
    | inl e ↦
        rw e (shutdown_in_loop-IsAttached (record c { state = disconnecting }) (closing m q fd c h))
  ]
  shut_down-IsAttached c false h = elim (Bool-cases (is_connected c.state)) [
    | inr e ↦ rw e h
    | inl e ↦ rw e (
        IsAttached-same m q fd (record c { state = disconnecting }) _ refl refl refl
          (closing m q fd c h))
  ]

  run_next-IsAttached :
      (c : Connection) (tasks : List Task) (w : Written)
      → IsAttached m q fd c
      → OnOk (IsAttached m q fd) (run_next c tasks w)
  unfolding run_next run_task
  run_next-IsAttached c [] w h = h
  run_next-IsAttached c (send_task message ∷ rest) w h =
      send_in_loop-IsAttached (record c { tasks = rest }) message w
        (IsAttached-same m q fd c _ refl refl refl h)
  run_next-IsAttached c (shutdown_task ∷ rest) w h =
      shutdown_in_loop-IsAttached (record c { tasks = rest })
        (IsAttached-same m q fd c _ refl refl refl h)

-- Whatever happens to an open connection between ConnectEstablished and ConnectDestroyed, if the handler
-- returns, leaves it open, its channel the same, the poller valid and its map as it was.
pub step-IsAttached :
    (m : ℕ → Option ℕ) (q fd : ℕ) (c : Connection) (e : Event)
    → IsInner e
    → IsAttached m q fd c
    → OnOk (IsAttached m q fd) (step c e)
unfolding step handle_error
step-IsAttached m q fd c established i h = absurd i
step-IsAttached m q fd c destroyed i h = absurd i
step-IsAttached m q fd c closes i h =
    let (d, e, k, _) = handle_close-IsAttached m q fd c h in rw e k
step-IsAttached m q fd c errors i h = h
step-IsAttached m q fd c (readable r) i h = handle_read-IsAttached m q fd c r h
step-IsAttached m q fd c (writable w) i h = handle_write-IsAttached m q fd c w h
step-IsAttached m q fd c (sends in_loop message w) i h =
    send-IsAttached m q fd c in_loop message w h
step-IsAttached m q fd c (shuts_down in_loop) i h = shut_down-IsAttached m q fd c in_loop h
step-IsAttached m q fd c (runs_task w) i h = run_next-IsAttached m q fd c c.tasks w h
step-IsAttached m q fd c (consumes n) i h =
    OnOk-bind (λ _. Unit {0}) _ (retrieve c.input n) _ (all_ok _)
      λ o _. IsAttached-same m q fd c _ refl refl refl h
