-- ===== src/Net/Loop.antt =====
-- net/CEventLoop.h and net/CEventLoop.cpp: the loop's thread, and the other threads that leave functors
-- with it. A functor is a number. The loop's channels are those of Net/Poller.antt: here a turn of the
-- loop handles any events, the one of the wakeup descriptor among them.
pub mod Inv
pub mod Pass
mod Tests
use neconet.Prelude.{
  ℕ, zero, suc, ◌≡◌, Bool, true, false, not, ◌||◌, List, [], ◌∷◌, ◌++◌, if◌then◌else◌,
}

-- Where the loop's thread is: outside `StartLoop`; before the test of `m_bQuit`; in `Poll`; in the
-- handlers of the active channels; in `__DoPendingFunctors` before the swap; behind it, with functors
-- still to run.
pub data Phase : Type 0 where
  stopped testing polling handling entering : Phase
  running : List ℕ → Phase

-- `wake` is the counter of the wakeup descriptor. `owing` counts the other threads between their
-- `push_back`, or their write of `m_bQuit`, and the `Wakeup` that follows it. `queued` and `done` are the
-- functors ever pushed and those run, in order; `early`, those that the loop's own thread pushed while it
-- was outside `StartLoop`, and that no pass has taken yet.
pub record Loop : Type 0 where
  pub phase : Phase
  pub in_looping : Bool
  pub quit : Bool
  pub calling : Bool
  pub pending : List ℕ
  pub wake : ℕ
  pub owing : ℕ
  pub queued : List ℕ
  pub done : List ℕ
  pub early : List ℕ

abbrev pub init : Loop
init = record {
  phase = stopped;
  in_looping = false;
  quit = false;
  calling = false;
  pending = [];
  wake = 0;
  owing = 0;
  queued = [];
  done = [];
  early = [];
}

abbrev pub wakeup : Loop → Loop
wakeup s = record s { wake = suc s.wake }

-- `__HandleRead` of the wakeup descriptor: a read of an event counter sets it to 0.
abbrev pub handle_read : Loop → Loop
handle_read s = record s { wake = 0 }

-- The part of `QueueInLoop` under the mutex, and its test for the wakeup.
abbrev pub push : Loop → ℕ → Loop
push s f = record s { pending = s.pending ++ (f ∷ []); queued = s.queued ++ (f ∷ []) }

abbrev pub wants_wakeup : Loop → Bool → Bool
wants_wakeup s in_loop_thread = not in_loop_thread || s.calling

abbrev pub is_stopped : Phase → Bool
is_stopped stopped = true
is_stopped _ = false

-- `QueueInLoop` by the loop's thread.
abbrev pub own_push : Loop → ℕ → Loop
own_push s f = record (push s f) {
  early = if is_stopped s.phase then s.early ++ (f ∷ []) else s.early;
}

abbrev pub queue_in_loop : Loop → ℕ → Loop
queue_in_loop s f = let t : Loop = own_push s f in if wants_wakeup t true then wakeup t else t

-- The first part of `QueueInLoop` by another thread, which then owes a wakeup.
abbrev pub queue_from_outside : Loop → ℕ → Loop
queue_from_outside s f =
    let t : Loop = push s f in if wants_wakeup t false then record t { owing = suc t.owing } else t

-- `QuitLoop` by the loop's thread, and its first part by another one.
abbrev pub quit_loop : Loop → Loop
quit_loop s = record s { quit = true }

abbrev pub quit_from_outside : Loop → Loop
quit_from_outside s = record s { quit = true; owing = suc s.owing }

-- `StartLoop` up to its loop.
abbrev pub start_loop : Loop → Loop
start_loop s = record s { phase = testing; in_looping = true; quit = false }

abbrev pub leave_loop : Loop → Loop
leave_loop s = record s { phase = stopped; in_looping = false }

abbrev pub go : Loop → Phase → Loop
go s p = record s { phase = p }

-- `__DoPendingFunctors`: the flag, the swap under the mutex, one functor, and the flag again.
abbrev pub begin_functors : Loop → Loop
begin_functors s = record s { phase = entering; calling = true }

abbrev pub swap_functors : Loop → Loop
swap_functors s = record s { phase = running s.pending; pending = []; early = [] }

abbrev pub run_functor : Loop → ℕ → List ℕ → Loop
run_functor s f rest = record s { phase = running rest; done = s.done ++ (f ∷ []) }

abbrev pub end_functors : Loop → Loop
end_functors s = record s { phase = testing; calling = false }

-- One step of the loop's thread or of another one. A handler or a functor may call `QueueInLoop` and
-- `QuitLoop` any number of times, and so may the loop's thread while it is outside `StartLoop`. `Poll` may
-- return for any event or for none, when its 10 seconds are over.
pub data Step : Loop → Loop → Type 0 where
  starts : {s : Loop} → s.phase ≡ stopped → s.in_looping ≡ false → Step s (start_loop s)
  early_queues : {s : Loop} (f : ℕ) → s.phase ≡ stopped → Step s (queue_in_loop s f)
  early_quits : {s : Loop} → s.phase ≡ stopped → Step s (quit_loop s)
  goes_on : {s : Loop} → s.phase ≡ testing → s.quit ≡ false → Step s (go s polling)
  leaves : {s : Loop} → s.phase ≡ testing → s.quit ≡ true → Step s (leave_loop s)
  returns : {s : Loop} → s.phase ≡ polling → Step s (go s handling)
  reads : {s : Loop} → s.phase ≡ handling → Step s (handle_read s)
  handler_queues : {s : Loop} (f : ℕ) → s.phase ≡ handling → Step s (queue_in_loop s f)
  handler_quits : {s : Loop} → s.phase ≡ handling → Step s (quit_loop s)
  begins : {s : Loop} → s.phase ≡ handling → Step s (begin_functors s)
  swaps : {s : Loop} → s.phase ≡ entering → Step s (swap_functors s)
  runs :
      {s : Loop} (f : ℕ) (rest : List ℕ)
      → s.phase ≡ running (f ∷ rest)
      → Step s (run_functor s f rest)
  functor_queues :
      {s : Loop} (f : ℕ) (rest : List ℕ) → s.phase ≡ running rest → Step s (queue_in_loop s f)
  functor_quits : {s : Loop} (rest : List ℕ) → s.phase ≡ running rest → Step s (quit_loop s)
  ends : {s : Loop} → s.phase ≡ running [] → Step s (end_functors s)
  other_queues : {s : Loop} (f : ℕ) → Step s (queue_from_outside s f)
  other_quits : {s : Loop} → Step s (quit_from_outside s)
  other_wakes : {s : Loop} (n : ℕ) → s.owing ≡ suc n → Step s (wakeup (record s { owing = n }))

-- The states of a loop since its constructor.
pub data Reachable : Loop → Type 0 where
  at_first : Reachable init
  after : {s t : Loop} → Reachable s → Step s t → Reachable t
