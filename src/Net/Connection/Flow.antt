-- ===== src/Net/Connection/Flow.antt =====
-- The bytes of a connection's messages: each is sent or waits in the output buffer, in order.
use neconet.Prelude.{
  ℕ, ◌≡◌, sym, ap, ◌∙◌, Bool, true, false, List, [], ◌∷◌, ◌++◌, ok, err, Outcome, ◌>>=◌, OnOk,
  OnOk-bind, all_ok, if◌then◌else◌, Bool-cases, inl, inr, append-nil, append_assoc, subst,
}
use neconet.Net.Buffer.{retrieve}
use neconet.Net.Buffer.Inv.{IsValid}
use neconet.Net.Connection.{
  Connection, disconnecting, is_connected, Written, Task, send_task, shutdown_task, send, shut_down,
  run_task, run_next, Event, established, destroyed, closes, errors, readable, writable, sends,
  shuts_down, runs_task, consumes, step, run,
}
use neconet.Net.Connection.Handlers.{
  stream, Carries, send_in_loop-Carries, shutdown_in_loop-Carries, handle_write-Carries,
  connect_established-Carries, connect_destroyed-Carries, handle_close-Carries, handle_read-Carries,
}

-- The bytes that an event hands to `__SendInLoop`.
abbrev pub handed_by_task : List Task → List ℕ
handed_by_task [] = []
handed_by_task (send_task message ∷ ts) = message
handed_by_task (shutdown_task ∷ ts) = []

abbrev pub handed_by : Connection → Event → List ℕ
handed_by c (sends true message w) = if is_connected c.state then message else []
handed_by c (runs_task w) = handed_by_task c.tasks
handed_by c _ = []

-- All bytes that a sequence of events hands over, up to a fault.
pub handed : Connection → List Event → List ℕ
handed c [] = []
handed c (e ∷ es) = elim (step c e) [ ok d ↦ handed_by c e ++ handed d es | err _ ↦ [] ]

-- An event adds to the stream what it hands over.
Grows : Connection → List ℕ → Outcome Connection → Type 0
Grows c xs = OnOk (Carries (stream c ++ xs))

module _ (c : Connection) (v : IsValid c.output) where
  unchanged : Carries (stream c ++ []) c
  unchanged = (v, sym (append-nil (stream c)))

  run_next-Grows : (ts : List Task) (w : Written) → Grows c (handed_by_task ts) (run_next c ts w)
  unfolding Grows run_next run_task
  run_next-Grows [] w = unchanged
  run_next-Grows (send_task message ∷ ts) w =
      send_in_loop-Carries (record c { tasks = ts }) message v w
  run_next-Grows (shutdown_task ∷ ts) w =
      shutdown_in_loop-Carries (stream c ++ []) (record c { tasks = ts }) unchanged

  send-Grows :
      (b : Bool) (message : List ℕ) (w : Written)
      → Grows c (handed_by c (sends b message w)) (send c b message w)
  unfolding Grows send
  send-Grows true message w = elim (Bool-cases (is_connected c.state)) [
    | inl e ↦ rw e (send_in_loop-Carries c message v w)
    | inr e ↦ rw e unchanged
  ]
  send-Grows false message w = elim (Bool-cases (is_connected c.state)) [
    | inl e ↦ rw e unchanged
    | inr e ↦ rw e unchanged
  ]

  shut_down-Carries : (b : Bool) → Carries (stream c ++ []) (shut_down c b)
  unfolding shut_down
  shut_down-Carries b = elim (Bool-cases (is_connected c.state)) [
    | inl e ↦ elim (Bool-cases b) [
      | inl t ↦
          rw (e, t)
            (shutdown_in_loop-Carries (stream c ++ []) (record c { state = disconnecting })
              unchanged)
      | inr f ↦ rw (e, f) unchanged
    ]
    | inr e ↦ rw e unchanged
  ]

  step-Grows : (e : Event) → Grows c (handed_by c e) (step c e)
  unfolding Grows step
  step-Grows established = connect_established-Carries (stream c ++ []) c unchanged
  step-Grows destroyed = connect_destroyed-Carries (stream c ++ []) c unchanged
  step-Grows closes = handle_close-Carries (stream c ++ []) c unchanged
  step-Grows errors = unchanged
  step-Grows (readable r) = handle_read-Carries (stream c ++ []) c r unchanged
  step-Grows (writable w) = handle_write-Carries (stream c ++ []) c w unchanged
  step-Grows (sends b message w) = unfold Grows in send-Grows b message w
  step-Grows (shuts_down b) = shut_down-Carries b
  step-Grows (runs_task w) = unfold Grows in run_next-Grows c.tasks w
  step-Grows (consumes n) =
      OnOk-bind (λ _. Unit {0}) _ (retrieve c.input n) _ (all_ok _) λ input _. unchanged

-- If the output buffer is valid, then after any sequence of events that ends in no fault the bytes
-- sent, followed by those that wait, are the bytes sent and waiting before, followed by all bytes
-- that were handed to `__SendInLoop` since, in order: none is lost, doubled or reordered. The
-- output buffer stays valid.
pub run-Carries :
    (es : List Event) (c : Connection)
    → IsValid c.output
    → OnOk (Carries (stream c ++ handed c es)) (run c es)
unfolding run handed
run-Carries [] c v = unchanged c v
run-Carries (e ∷ es) c v = after (run-Carries es) (step c e) (unfold Grows in step-Grows c v e)
  where
    after :
        ((d : Connection) → IsValid d.output → OnOk (Carries (stream d ++ handed d es)) (run d es))
        → (r : Outcome Connection) → OnOk (Carries (stream c ++ handed_by c e)) r
        → OnOk
            (Carries (stream c ++ (elim r [ ok d ↦ handed_by c e ++ handed d es | err _ ↦ [] ])))
            (r >>= λ d. run d es)
    after next (ok d) (w, same) =
        let g : stream d ++ handed d es ≡ stream c ++ (handed_by c e ++ handed d es) =
          ap (λ l. l ++ handed d es) same ∙ append_assoc (stream c) (handed_by c e) (handed d es) in
        subst (λ xs. OnOk (Carries xs) (run d es)) g (next d w)
    after next (err f) h = tt
