-- ===== src/Net/Connection/Protocol.antt =====
-- The states of a connection, and how often the user's connection callback is made.
use neconet.Prelude.{
  ℕ, suc, ◌≡◌, refl, sym, ap, ◌∙◌, inl, inr, Bool, true, false, not, List, [], ◌∷◌, ok, Outcome,
  OnOk, OnOk-bind, OnOk-check, OnOk-if, OnOk-map, all_ok, Bool-cases, ◌>>=◌, ◌>>◌, assert, ◌||◌,
  if◌then◌else◌,
}
use neconet.Net.Buffer.{retrieve}
use neconet.Net.Poller.{set_interest, remove_channel, enable_reading, disable_all}
use neconet.Net.Connection.{
  Connection, State, connecting, connected, disconnected, disconnecting, is_connecting,
  is_connected, is_disconnecting, connect_established, connect_destroyed, handle_write,
  handle_close, handle_error, handle_read, send, shut_down, run_next, Event, established, destroyed,
  closes, errors, readable, writable, sends, shuts_down, runs_task, consumes, step, run,
}
use neconet.Net.Connection.Alike.{
  ups, IsAlike, shutdown-IsAlike, write-IsAlike, read-IsAlike, send-IsAlike, run-IsAlike,
}

-- How many there have to be.
abbrev pub stage : State → ℕ
stage connecting = 0
stage connected = 1
stage disconnecting = 1
stage disconnected = 2

abbrev pub IsCounted : Connection → Type 0
IsCounted c = ups c.notices ≡ stage c.state

-- The states of a connection, and the events that it accepts in each.
abbrev pub is_open : State → Bool
is_open s = is_connected s || is_disconnecting s

unfoldable pub next : State → Event → Outcome State
next s established = assert (is_connecting s) >> ok connected
next s destroyed = assert (is_open s) >> ok disconnected
next s closes = assert (is_open s) >> ok s
next s errors = ok s
next s (readable r) = ok s
next s (writable w) = ok s
next s (sends in_loop message w) = ok s
next s (shuts_down in_loop) = ok (if is_connected s then disconnecting else s)
next s (runs_task w) = ok s
next s (consumes n) = ok s

unfoldable pub next_all : State → List Event → Outcome State
unfolding next
next_all s [] = ok s
next_all s (e ∷ es) = next s e >>= λ t. next_all t es

-- The connection `d` is in this state, with the callbacks that belong to it.
abbrev pub Follows : Outcome State → Connection → Type 0
Follows r d = (r ≡ ok d.state) × IsCounted d

alike-Follows :
    (c : Connection)
    → IsCounted c
    → (m : Outcome Connection) → OnOk (IsAlike c) m
    → OnOk (Follows (ok c.state)) m
alike-Follows c h m a =
    OnOk-map (IsAlike c) (Follows (ok c.state)) m
      (λ d (s, n). (ap ok (sym s), n ∙ h ∙ ap stage (sym s))) a

connecting-stage : (s : State) → is_connecting s ≡ true → stage s ≡ 0
connecting-stage connecting e = refl
connecting-stage connected e = cc
connecting-stage disconnected e = cc
connecting-stage disconnecting e = cc

open-stage : (s : State) → is_open s ≡ true → stage s ≡ 1
open-stage connecting e = cc
open-stage connected e = refl
open-stage disconnected e = cc
open-stage disconnecting e = refl

connected-only : (s : State) → is_connected s ≡ true → s ≡ connected
connected-only connecting e = cc
connected-only connected e = refl
connected-only disconnected e = cc
connected-only disconnecting e = cc

up-Follows :
    (c : Connection)
    → IsCounted c
    → OnOk (Follows (next c.state established)) (connect_established c)
unfolding connect_established next
up-Follows c h = OnOk-check _ (is_connecting c.state) _ λ e.
    OnOk-bind (λ _. Unit {0}) _ (set_interest enable_reading c.poller c.channel) _ (all_ok _)
      λ t _. (rw e refl, ap suc (h ∙ connecting-stage c.state e))

down-Follows :
    (c : Connection) → IsCounted c → OnOk (Follows (next c.state destroyed)) (connect_destroyed c)
unfolding connect_destroyed next
down-Follows c h = OnOk-check _ (is_open c.state) _ λ e.
    OnOk-bind (λ _. Unit {0}) _ (set_interest disable_all c.poller c.channel) _ (all_ok _)
      λ t _.
        OnOk-bind (λ _. Unit {0}) _ (remove_channel t c.channel) _ (all_ok _)
          λ u _. (rw e refl, ap suc (h ∙ open-stage c.state e))

close-Follows :
    (c : Connection) → IsCounted c → OnOk (Follows (next c.state closes)) (handle_close c)
unfolding handle_close next
close-Follows c h = OnOk-check _ (is_open c.state) _ λ e.
    OnOk-bind (λ _. Unit {0}) _ (set_interest disable_all c.poller c.channel) _ (all_ok _)
      λ t _. (rw e refl, h)

shut-Follows :
    (c : Connection) (b : Bool)
    → IsCounted c
    → Follows (next c.state (shuts_down b)) (shut_down c b)
unfolding shut_down next
shut-Follows c b h = elim (Bool-cases (is_connected c.state)) [
  | inr e ↦ rw e (refl, h)
  | inl e ↦ half b (ap stage (sym (connected-only c.state e)) ∙ sym h) e
]
  where
    half :
        (b : Bool)
        → 1 ≡ ups c.notices
        → is_connected c.state ≡ true
        → Follows (next c.state (shuts_down b)) (shut_down c b)
    half true n e =
        let d : Connection = record c { state = disconnecting } in
        let (s, k) = shutdown-IsAlike d in rw e (ap ok (sym s), k ∙ sym n ∙ ap stage (sym s))
    half false n e = rw e (refl, sym n)

step-Follows :
    (c : Connection) (e : Event) → IsCounted c → OnOk (Follows (next c.state e)) (step c e)
unfolding step handle_error next send
step-Follows c established h = unfold next in up-Follows c h
step-Follows c destroyed h = down-Follows c h
step-Follows c closes h = close-Follows c h
step-Follows c errors h = (refl, h)
step-Follows c (readable r) h = alike-Follows c h (handle_read c r) (read-IsAlike c r)
step-Follows c (writable w) h = alike-Follows c h (handle_write c w) (write-IsAlike c w)
step-Follows c (sends in_loop message w) h = alike-Follows c h (send c in_loop message w) (
    OnOk-if _ (not (is_connected c.state)) _ _ (λ _. (refl, refl))
      λ _. OnOk-if _ in_loop _ _ (λ _. send-IsAlike c message w) (λ _. (refl, refl)))
step-Follows c (shuts_down in_loop) h = shut-Follows c in_loop h
step-Follows c (runs_task w) h = alike-Follows c h (run_next c c.tasks w) (run-IsAlike c c.tasks w)
step-Follows c (consumes n) h =
    OnOk-bind (λ _. Unit {0}) _ (retrieve c.input n) _ (all_ok _) λ o _. (refl, h)

-- If the user's connection callback was made as often as the state says (never while connecting, once while
-- open, twice when disconnected), then after any events that end in no fault it still was, and the
-- connection is in the state that these events lead to in the state machine: it was established only
-- while connecting, closed and destroyed only while open.
pub run-Follows :
    (es : List Event) (c : Connection)
    → IsCounted c
    → OnOk (Follows (next_all c.state es)) (run c es)
unfolding run next_all
run-Follows [] c h = (refl, h)
run-Follows (e ∷ es) c h =
    OnOk-bind (Follows (next c.state e)) _ (step c e) _ (step-Follows c e h)
      λ d (s, k). rw s (run-Follows es d k)
