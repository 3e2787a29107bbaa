-- ===== src/Net/Connection/Alike.antt =====
-- What the handlers leave alone: the state, and the number of connection callbacks.
use neconet.Prelude.{
  ℕ, zero, suc, ◌≡◌, refl, inl, inr, List, [], ◌∷◌, ◌++◌, ok, OnOk, OnOk-bind, OnOk-assert, OnOk-if,
  all_ok, Bool-cases, take, drop, ◌||◌, ◌==◌, if◌then◌else◌,
}
use neconet.Net.Buffer.{Buffer, Readv, failed, got, readable_bytes, retrieve, append, read_fd}
use neconet.Net.Buffer.Inv.{contents}
use neconet.Net.Poller.{set_interest, enable_reading, disable_writing, disable_all}
use neconet.Net.Connection.{
  Connection, is_connected, is_disconnecting, Written, wrote, write_failed, Task, send_task,
  shutdown_task, Notice, connection_notice, message_notice, close_notice, taken, writing,
  shutdown_in_loop, output_done, wrote_output, handle_write, handle_close, handle_error,
  handle_read, keep_rest, send_in_loop, run_task, run_next, notify,
}

-- The connection callbacks among those made.
abbrev pub ups : List Notice → ℕ
ups [] = 0
ups (connection_notice ∷ r) = suc (ups r)
ups (message_notice ∷ r) = ups r
ups (close_notice ∷ r) = ups r

-- The state is the same, and so is the number of connection callbacks.
abbrev pub IsAlike : Connection → Connection → Type 0
IsAlike c d = (d.state ≡ c.state) × (ups d.notices ≡ ups c.notices)

pub shutdown-IsAlike : (c : Connection) → IsAlike c (shutdown_in_loop c)
unfolding shutdown_in_loop
shutdown-IsAlike c = elim (Bool-cases (writing c)) [
  | inl e ↦ rw e (refl, refl)
  | inr e ↦ rw e (refl, refl)
]

pub write-IsAlike : (c : Connection) (w : Written) → OnOk (IsAlike c) (handle_write c w)
unfolding handle_write wrote_output output_done
write-IsAlike c (write_failed errno) = (refl, refl)
write-IsAlike c (wrote zero) = (refl, refl)
write-IsAlike c (wrote (suc n)) =
    OnOk-if _ (writing c) _ _
      (λ _.
        OnOk-bind (λ _. Unit {0}) _ (retrieve c.output (suc n)) _ (all_ok _)
          λ o _.
            let b : Connection = record c {
              output = o;
              sent = c.sent ++ take (suc n) (contents c.output);
            } in
            OnOk-if _ (readable_bytes o == 0) _ _
              (λ _.
                OnOk-bind (λ _. Unit {0}) _ (set_interest disable_writing b.poller b.channel) _
                  (all_ok _)
                  λ t _. elim (Bool-cases (is_disconnecting b.state)) [
                    | inl e ↦ rw e (shutdown-IsAlike (record b { poller = t }))
                    | inr e ↦ rw e (refl, refl)
                  ])
              (λ _. (refl, refl)))
      (λ _. (refl, refl))

close-IsAlike : (c : Connection) → OnOk (IsAlike c) (handle_close c)
unfolding handle_close
close-IsAlike c = OnOk-assert _ (is_connected c.state || is_disconnecting c.state) _ (
    OnOk-bind (λ _. Unit {0}) _ (set_interest disable_all c.poller c.channel) _ (all_ok _)
      (λ t _. (refl, refl)))

pub read-IsAlike : (c : Connection) (r : Readv) → OnOk (IsAlike c) (handle_read c r)
unfolding handle_read handle_error
read-IsAlike c r =
    OnOk-bind (λ _. Unit {0}) _ (read_fd c.input r) _ (all_ok _) λ (input, n) _. after input n
  where
    after :
        (input : Buffer) (n : Readv)
        → OnOk (IsAlike c) (
            let d : Connection = record c { input = input } in
            elim n [
              | failed errno ↦ ok (handle_error d)
              | got [] ↦ handle_close d
              | got (b ∷ rest) ↦ ok (notify d message_notice)
            ])
    after input (failed errno) = (refl, refl)
    after input (got []) = close-IsAlike (record c { input = input })
    after input (got (b ∷ rest)) = (refl, refl)

keep-IsAlike : (c : Connection) (rest : List ℕ) → OnOk (IsAlike c) (keep_rest c rest)
unfolding keep_rest
keep-IsAlike c [] = (refl, refl)
keep-IsAlike c (b ∷ rest) =
    OnOk-bind (λ _. Unit {0}) _ (append c.output (b ∷ rest)) _ (all_ok _)
      λ o _.
        let d : Connection = record c { output = o } in
        OnOk-bind (λ _. Unit {0}) _
          (if writing d then ok d.poller else set_interest enable_reading d.poller d.channel) _
          (all_ok _) (λ t _. (refl, refl))

pub send-IsAlike :
    (c : Connection) (message : List ℕ) (w : Written) → OnOk (IsAlike c) (send_in_loop c message w)
unfolding send_in_loop
send-IsAlike c message w = keep-IsAlike _ (drop (taken c w) message)

pub run-IsAlike :
    (c : Connection) (tasks : List Task) (w : Written) → OnOk (IsAlike c) (run_next c tasks w)
unfolding run_next run_task
run-IsAlike c [] w = (refl, refl)
run-IsAlike c (send_task message ∷ rest) w = send-IsAlike (record c { tasks = rest }) message w
run-IsAlike c (shutdown_task ∷ rest) w = shutdown-IsAlike (record c { tasks = rest })
