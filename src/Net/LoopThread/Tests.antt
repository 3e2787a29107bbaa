-- ===== src/Net/LoopThread/Tests.antt =====
-- CEventLoopThread with the caller's thread 1 and the loop's thread 2.
use neconet.Prelude.{◌≡◌, refl, true, false, ◌||◌, inl}
use neconet.Base.Mutex.{init, taken, lock, unlock}
use neconet.Net.LoopThread.{
  LoopThread, Reachable, start, caller_to, child_to, set_loop, enter_loop, quit_loop, wants,
  testing, asleep, leaving, returned, joined, constructing, locking, setting, entering, ended,
  starts, locks, sleeps, retakes, goes_on, returns, quits, joins, constructs, child_locks, sets,
  child_unlocks, enters, ends, at_first, after, is_ended, ask_quit, others_quit,
}
use neconet.Net.LoopThread.Inv.{is_past, is_asleep, is_joined}
use neconet.Net.LoopThread.Quit.{ends_lem, quit_before_enter}

-- The caller sleeps before the thread has built its loop; the notification wakes it.
abbrev set_now : LoopThread
set_now = set_loop (
    child_to
      (child_to
        (caller_to
          (caller_to (record start { caller = wants; child = constructing }) testing (taken 1))
          asleep init)
        locking init)
      setting (taken 2))

set_now-Reachable : Reachable 1 2 set_now
unfolding lock unlock
set_now-Reachable =
    after
      (after
        (after
          (after (after (after at_first (starts refl refl)) (locks refl refl))
            (sleeps refl refl refl))
          (constructs refl))
        (child_locks refl refl))
      (sets refl)

-- StartLoop has returned, and the thread is before the StartLoop of its loop.
abbrev returned_now : LoopThread
returned_now =
    caller_to
      (caller_to (caller_to (child_to set_now entering init) testing (taken 1)) leaving (taken 1))
      returned init

returned_now-Reachable : Reachable 1 2 returned_now
unfolding lock unlock
returned_now-Reachable =
    after
      (after (after (after set_now-Reachable (child_unlocks refl refl)) (retakes refl refl))
        (goes_on refl refl))
      (returns refl refl)

-- The destructor is called when the loop runs.
abbrev finished : LoopThread
finished = caller_to (child_to (quit_loop (enter_loop returned_now)) ended init) joined init

finished-Reachable : Reachable 1 2 finished
finished-Reachable =
    after (after (after (after returned_now-Reachable (enters refl)) (quits refl)) (ends refl refl))
      (joins refl refl)

-- A functor has ended the loop before: the destructor uses a loop that is gone.
abbrev ended_before : LoopThread
ended_before = quit_loop (child_to (ask_quit (enter_loop returned_now)) ended init)

ended_before-Reachable : Reachable 1 2 ended_before
ended_before-Reachable =
    after
      (after (after (after returned_now-Reachable (enters refl)) (others_quit (inl refl) refl))
        (ends refl refl))
      (quits refl)

ended_before_dangling : ended_before.dangling ≡ true
ended_before_dangling = refl

ends_lem_example :
    (is_past ended_before.caller ≡ true → ended_before.event_loop ≡ true)
    × (is_asleep ended_before.caller ≡ true → ended_before.event_loop ≡ false)
    × (is_ended ended_before.child ≡ true → (ended_before.exiting || ended_before.asked) ≡ true)
    × (is_joined ended_before.caller ≡ true → is_ended ended_before.child ≡ true)
    × (ended_before.dangling ≡ true → ended_before.asked ≡ true)
ends_lem_example = ends_lem 1 2 ended_before ended_before-Reachable

-- The destructor is called before.
quit_early-Reachable : Reachable 1 2 (quit_loop returned_now)
quit_early-Reachable = after returned_now-Reachable (quits refl)

quit_before_enter_example :
    ask_quit (enter_loop (quit_loop returned_now)) ≡ ask_quit (enter_loop (quit_loop returned_now))
quit_before_enter_example =
    quit_before_enter 1 2 (quit_loop returned_now) (ask_quit (enter_loop (quit_loop returned_now)))
      refl refl (others_quit (inl refl) refl)
