-- ===== src/Net/LoopThread/Quit.antt =====
-- What StartLoop returns, what the destructor waits for, and what it calls.
use neconet.Prelude.{ℕ, ◌≡◌, ◌∙◌, true, false, ◌||◌, refl}
use neconet.Net.LoopThread.{
  LoopThread, Step, Reachable, enter_loop, joining, entering, starts, locks, sleeps, wakes, retakes,
  goes_on, returns, quits, joins, constructs, child_locks, sets, child_unlocks, enters, ends,
  is_ended, ask_quit, others_quit,
}
use neconet.Net.LoopThread.Inv.{is_past, is_asleep, is_joined, Reachable-IsValid}

-- In every reachable state: once StartLoop is behind its loop, `m_iEventLoop` is set; while it
-- sleeps there, the pointer is not set, so that a notification is still to come; the loop's thread ends only
-- after the destructor, or somebody else who knows the loop, has called QuitLoop; the join returns only after
-- the thread has ended; and the destructor calls QuitLoop of a loop that is already destroyed only if
-- somebody else has called it.
pub ends_lem :
    (a b : ℕ) (s : LoopThread)
    → Reachable a b s
    → (is_past s.caller ≡ true → s.event_loop ≡ true)
      × (is_asleep s.caller ≡ true → s.event_loop ≡ false)
      × (is_ended s.child ≡ true → (s.exiting || s.asked) ≡ true)
      × (is_joined s.caller ≡ true → is_ended s.child ≡ true)
      × (s.dangling ≡ true → s.asked ≡ true)
ends_lem a b s r =
    let v = Reachable-IsValid a b s r in
    (v.past, λ u. v.pointer ∙ v.sleeping u, v.ending, v.joining_ended, v.dangling_asked)

-- When the destructor has called QuitLoop before the loop's thread enters the loop's StartLoop, which
-- resets `m_bQuit`, then the only step that is left after the reset, of the two threads and of anybody
-- else, is that somebody else calls QuitLoop: without that the thread does not end, and the destructor hangs
-- in the join.
pub quit_before_enter :
    (a b : ℕ) (s t : LoopThread)
    → s.caller ≡ joining
    → s.child ≡ entering
    → Step a b (enter_loop s) t
    → t ≡ ask_quit (enter_loop s)
quit_before_enter a b s _ e k (starts c _) = cc
quit_before_enter a b s _ e k (locks c _) = cc
quit_before_enter a b s _ e k (sleeps c _ _) = cc
quit_before_enter a b s _ e k (wakes c) = cc
quit_before_enter a b s _ e k (retakes c _) = cc
quit_before_enter a b s _ e k (goes_on c _) = cc
quit_before_enter a b s _ e k (returns c _) = cc
quit_before_enter a b s _ e k (quits c) = cc
quit_before_enter a b s _ e k (others_quit o d) = refl
quit_before_enter a b s _ e k (joins c d) = cc
quit_before_enter a b s _ e k (constructs c) = cc
quit_before_enter a b s _ e k (child_locks c _) = cc
quit_before_enter a b s _ e k (sets c) = cc
quit_before_enter a b s _ e k (child_unlocks c _) = cc
quit_before_enter a b s _ e k (enters c) = cc
quit_before_enter a b s _ e k (ends c q) = cc
