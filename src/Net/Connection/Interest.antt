-- ===== src/Net/Connection/Interest.antt =====
-- No operation of a connection ever enables writing on its channel.
use neconet.Prelude.{
  ℕ, zero, suc, take, drop, ◌++◌, append-nil, ◌==◌, not, ◌&&◌, Bool-cases, ◌≡◌, refl, ap, ◌∙◌, Bool,
  true, false, List, [], ◌∷◌, ok, err, arith, Outcome, ◌||◌, OnOk, OnOk-bind, OnOk-assert, OnOk-if,
  all_ok, ◌⊎◌, inl, inr,
}
use neconet.Net.Buffer.{Buffer, readable_bytes, Readv, failed, got, retrieve, append, read_fd}
use neconet.Net.Channel.{Channel, is_writing}
use neconet.Net.Poller.{
  Poller, interest, Interest, set_interest, remove_channel, enable_reading, enable_writing,
  disable_writing, disable_all,
}
use neconet.Net.Poller.Effects.{events_set_interest, events_remove_channel}
use neconet.Net.Connection.{
  Connection, is_connecting, is_connected, is_disconnecting, Written, wrote, write_failed, Task,
  send_task, shutdown_task, writing, connect_established, connect_destroyed, shutdown_in_loop,
  handle_write, handle_close, handle_error, handle_read, keep_rest, send_in_loop, send,
  disconnecting, taken, notify, message_notice, shut_down, run_task, run_next, Event, established,
  destroyed, closes, errors, readable, writable, sends, shuts_down, runs_task, consumes, step, run,
}

-- Only SetEnableWriting asks for POLLOUT.
quiet-interest :
    (op : Interest) (c : Channel)
    → ((op ≡ enable_reading) ⊎ (op ≡ disable_writing) ⊎ (op ≡ disable_all))
    → is_writing c ≡ false
    → is_writing (interest op c) ≡ false
unfolding interest
quiet-interest enable_reading c q h = ground arith
quiet-interest enable_writing c q h = ground arith
quiet-interest disable_writing c q h = ground arith
quiet-interest disable_all c q h = refl

abbrev QuietPoller : ℕ → Outcome Poller → Type 0
QuietPoller p = OnOk (λ s. is_writing (s.heap p) ≡ false)

pub quiet_set :
    (op : Interest) (s : Poller) (p : ℕ)
    → ((op ≡ enable_reading) ⊎ (op ≡ disable_writing) ⊎ (op ≡ disable_all))
    → is_writing (s.heap p) ≡ false
    → (r : Outcome Poller) → set_interest op s p ≡ r
    → QuietPoller p r
quiet_set op s p q h (ok t) e =
    ap (λ v. v.pollout) (events_set_interest op s t p e) ∙ quiet-interest op (s.heap p) q h
quiet_set op s p q h (err f) e = tt

quiet_remove :
    (s : Poller) (p : ℕ)
    → is_writing (s.heap p) ≡ false
    → (r : Outcome Poller) → remove_channel s p ≡ r
    → QuietPoller p r
quiet_remove s p h (ok t) e = ap (λ v. v.pollout) (events_remove_channel s t p e) ∙ h
quiet_remove s p h (err f) e = tt

quiet_after :
    (c : Connection) (op : Interest)
    → ((op ≡ enable_reading) ⊎ (op ≡ disable_writing) ⊎ (op ≡ disable_all))
    → writing c ≡ false
    → QuietPoller c.channel (set_interest op c.poller c.channel)
quiet_after c op q h = quiet_set op c.poller c.channel q h (set_interest op c.poller c.channel) refl

-- A fact about the output buffer and the bytes sent that appending to the buffer keeps, and sending too
-- when the buffer is empty.
pub record IsOutputFact (P : Buffer → List ℕ → Type 0) : Type 1 where
  pub appends : (o : Buffer) (s source : List ℕ) → P o s → OnOk (λ o'. P o' s) (append o source)
  pub sends : (o : Buffer) (s t : List ℕ) → (readable_bytes o == 0) ≡ true → P o s → P o (s ++ t)

abbrev pub IsQuiet : (Buffer → List ℕ → Type 0) → Connection → Type 0
IsQuiet P c = (writing c ≡ false) × P c.output c.sent

module _ (P : Buffer → List ℕ → Type 0) (fact : IsOutputFact P) (c : Connection)
    (h : IsQuiet P c) where
  connect_established-IsQuiet : OnOk (IsQuiet P) (connect_established c)
  unfolding connect_established
  connect_established-IsQuiet = OnOk-assert _ (is_connecting c.state) _ (
      OnOk-bind _ _ (set_interest enable_reading c.poller c.channel) _
        (quiet_after c enable_reading (inl refl) h.0) (λ s k. (k, h.1)))

  connect_destroyed-IsQuiet : OnOk (IsQuiet P) (connect_destroyed c)
  unfolding connect_destroyed
  connect_destroyed-IsQuiet = OnOk-assert _ (is_connected c.state || is_disconnecting c.state) _ (
      OnOk-bind _ _ (set_interest disable_all c.poller c.channel) _
        (quiet_after c disable_all (inr (inr refl)) h.0)
        (λ s k.
          OnOk-bind _ _ (remove_channel s c.channel) _
            (quiet_remove s c.channel k (remove_channel s c.channel) refl) (λ t l. (l, h.1))))

  handle_write-IsQuiet : (w : Written) → OnOk (IsQuiet P) (handle_write c w)
  unfolding handle_write
  handle_write-IsQuiet (write_failed errno) = h
  handle_write-IsQuiet (wrote zero) = h
  handle_write-IsQuiet (wrote (suc n)) = rw h.0 h

  shutdown_in_loop-IsQuiet : IsQuiet P (shutdown_in_loop c)
  unfolding shutdown_in_loop
  shutdown_in_loop-IsQuiet = rw h.0 h

  keep_rest-IsQuiet : (rest : List ℕ) → OnOk (IsQuiet P) (keep_rest c rest)
  unfolding keep_rest
  keep_rest-IsQuiet [] = h
  keep_rest-IsQuiet (b ∷ rest) =
      OnOk-bind _ _ (append c.output (b ∷ rest)) _ (fact.appends c.output c.sent (b ∷ rest) h.1)
        λ output k. rw h.0 (
          OnOk-bind _ _ (set_interest enable_reading c.poller c.channel) _
            (quiet_after c enable_reading (inl refl) h.0) (λ s l. (l, k)))

module _ (P : Buffer → List ℕ → Type 0) (fact : IsOutputFact P) where
  handle_close-IsQuiet : (c : Connection) → IsQuiet P c → OnOk (IsQuiet P) (handle_close c)
  unfolding handle_close
  handle_close-IsQuiet c h = OnOk-assert _ (is_connected c.state || is_disconnecting c.state) _ (
      OnOk-bind _ _ (set_interest disable_all c.poller c.channel) _
        (quiet_after c disable_all (inr (inr refl)) h.0) (λ s k. (k, h.1)))

  handle_read-IsQuiet :
      (c : Connection) (r : Readv) → IsQuiet P c → OnOk (IsQuiet P) (handle_read c r)
  unfolding handle_read
  handle_read-IsQuiet c r h =
      OnOk-bind _ _ (read_fd c.input r) _ (all_ok _) λ (input, n) _. after input n
    where
      after :
          (input : Buffer) (n : Readv)
          → OnOk (IsQuiet P) (
              let d : Connection = record c { input = input } in
              elim n [
                | failed errno ↦ ok (handle_error d)
                | got [] ↦ handle_close d
                | got (b ∷ rest) ↦ ok (notify d message_notice)
              ])
      after input (failed errno) = h
      after input (got []) = handle_close-IsQuiet (record c { input = input }) h
      after input (got (b ∷ rest)) = h

  -- What `write` took at once.
  quiet_taken :
      (c : Connection) (message : List ℕ) (w : Written)
      → P c.output c.sent
      → P c.output (c.sent ++ take (taken c w) message)
  quiet_taken c message (write_failed errno) h = rw append-nil h
  quiet_taken c message (wrote n) h =
      elim (Bool-cases (not (writing c) && readable_bytes c.output == 0)) [
        | inl e ↦ rw e (fact.sends c.output c.sent (take n message) (ground (arith, e)) h)
        | inr e ↦ rw e (rw append-nil h)
      ]

  send_in_loop-IsQuiet :
      (c : Connection) (message : List ℕ) (w : Written)
      → IsQuiet P c
      → OnOk (IsQuiet P) (send_in_loop c message w)
  unfolding send_in_loop
  send_in_loop-IsQuiet c message w h =
      keep_rest-IsQuiet P fact (record c { sent = c.sent ++ take (taken c w) message })
        (h.0, quiet_taken c message w h.1) (drop (taken c w) message)

  run_task-IsQuiet :
      (c : Connection) (t : Task) (w : Written) → IsQuiet P c → OnOk (IsQuiet P) (run_task c t w)
  unfolding run_task
  run_task-IsQuiet c (send_task message) w h = send_in_loop-IsQuiet c message w h
  run_task-IsQuiet c shutdown_task w h = shutdown_in_loop-IsQuiet P fact c h

  run_next-IsQuiet :
      (c : Connection) (ts : List Task) (w : Written)
      → IsQuiet P c
      → OnOk (IsQuiet P) (run_next c ts w)
  unfolding run_next
  run_next-IsQuiet c [] w h = h
  run_next-IsQuiet c (t ∷ ts) w h = run_task-IsQuiet (record c { tasks = ts }) t w h

  send-IsQuiet :
      (c : Connection) (b : Bool) (message : List ℕ) (w : Written)
      → IsQuiet P c
      → OnOk (IsQuiet P) (send c b message w)
  unfolding send
  send-IsQuiet c b message w h =
      OnOk-if _ (not (is_connected c.state)) _ _ (λ _. h)
        (λ _. OnOk-if _ b _ _ (λ _. send_in_loop-IsQuiet c message w h) (λ _. h))

  shut_down-IsQuiet : (c : Connection) (b : Bool) → IsQuiet P c → IsQuiet P (shut_down c b)
  unfolding shut_down
  shut_down-IsQuiet c b h = elim (Bool-cases (not (is_connected c.state))) [
    | inl e ↦ rw e h
    | inr e ↦ elim (Bool-cases b) [
      | inl t ↦ rw (e, t) (shutdown_in_loop-IsQuiet P fact (record c { state = disconnecting }) h)
      | inr f ↦ rw (e, f) h
    ]
  ]

  -- Every event keeps the fact, and the channel without interest in writing.
  pub step-IsQuiet : (c : Connection) (e : Event) → IsQuiet P c → OnOk (IsQuiet P) (step c e)
  unfolding step
  step-IsQuiet c established h = connect_established-IsQuiet P fact c h
  step-IsQuiet c destroyed h = connect_destroyed-IsQuiet P fact c h
  step-IsQuiet c closes h = handle_close-IsQuiet c h
  step-IsQuiet c errors h = h
  step-IsQuiet c (readable r) h = handle_read-IsQuiet c r h
  step-IsQuiet c (writable w) h = handle_write-IsQuiet P fact c h w
  step-IsQuiet c (sends b message w) h = send-IsQuiet c b message w h
  step-IsQuiet c (shuts_down b) h = shut_down-IsQuiet c b h
  step-IsQuiet c (runs_task w) h = run_next-IsQuiet c c.tasks w h
  step-IsQuiet c (consumes n) h = OnOk-bind _ _ (retrieve c.input n) _ (all_ok _) λ input _. h

  pub run-IsQuiet : (es : List Event) (c : Connection) → IsQuiet P c → OnOk (IsQuiet P) (run c es)
  unfolding run
  run-IsQuiet [] c h = h
  run-IsQuiet (e ∷ es) c h =
      OnOk-bind _ _ (step c e) _ (step-IsQuiet c e h) λ d k. run-IsQuiet es d k
