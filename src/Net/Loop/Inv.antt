-- ===== src/Net/Loop/Inv.antt =====
-- The invariants of CEventLoop: no functor is lost, and the loop does not sleep while one waits.
use neconet.Prelude.{
  ℕ, ◌+◌, ◌<◌, ◌≡◌, refl, sym, ap, ◌∙◌, ◌⊎◌, inl, inr, true, false, List, [], ◌∷◌, ◌++◌, arith,
  append-nil, append_assoc, subst, Bool-cases,
}
use neconet.Net.Loop.{
  Loop, Phase, stopped, testing, polling, handling, entering, running, wakeup, push, own_push,
  queue_in_loop, Step, starts, early_queues, early_quits, goes_on, leaves, returns, reads,
  handler_queues, handler_quits, begins, swaps, runs, functor_queues, functor_quits, ends,
  other_queues, other_quits, other_wakes, Reachable, at_first, after,
}

-- What the loop's thread has taken and not yet run.
abbrev pub batch : Phase → List ℕ
batch (running rest) = rest
batch _ = []

-- Every functor ever queued was run, is taken or waits, in the order in which they were queued.
abbrev pub IsComplete : Loop → Type 0
IsComplete s = s.done ++ (batch s.phase ++ s.pending) ≡ s.queued

-- A wakeup is there or under way.
abbrev pub IsWoken : Loop → Type 0
IsWoken s = 0 < s.wake + s.owing

-- The loop's thread holds the flag of `__DoPendingFunctors` there and nowhere else. Where the next thing
-- that it waits for is `Poll`, only early functors wait, or a wakeup is there. In `Poll` a wakeup is there
-- for a request to quit, too.
abbrev pub IsAwake : Phase → Loop → Type 0
IsAwake stopped s = (s.calling ≡ false) × ((s.pending ≡ s.early) ⊎ IsWoken s)
IsAwake testing s = (s.calling ≡ false) × ((s.pending ≡ s.early) ⊎ IsWoken s)
IsAwake polling s =
    (s.calling ≡ false) × ((s.pending ≡ s.early) ⊎ IsWoken s) × ((s.quit ≡ false) ⊎ IsWoken s)
IsAwake handling s = s.calling ≡ false
IsAwake entering s = s.calling ≡ true
IsAwake (running rest) s = (s.calling ≡ true) × ((s.pending ≡ s.early) ⊎ IsWoken s)

IsAwake-woken :
    (p : Phase) (s t : Loop) → t.calling ≡ s.calling → IsWoken t → IsAwake p s → IsAwake p t
IsAwake-woken stopped s t c w h = (c ∙ h.0, inr w)
IsAwake-woken testing s t c w h = (c ∙ h.0, inr w)
IsAwake-woken polling s t c w h = (c ∙ h.0, inr w, inr w)
IsAwake-woken handling s t c w h = c ∙ h
IsAwake-woken entering s t c w h = c ∙ h
IsAwake-woken (running rest) s t c w h = (c ∙ h.0, inr w)

pub queue_in_loop_calling :
    (s : Loop) (f : ℕ) → s.calling ≡ true → queue_in_loop s f ≡ wakeup (own_push s f)
queue_in_loop_calling s f c = rw c refl

pub queue_in_loop_quiet : (s : Loop) (f : ℕ) → s.calling ≡ false → queue_in_loop s f ≡ own_push s f
queue_in_loop_quiet s f c = rw c refl

-- A fact about a known phase is one about the state's.
IsAwake-back : (t : Loop) {p : Phase} → t.phase ≡ p → IsAwake p t → IsAwake t.phase t
IsAwake-back t e h = subst (λ q. IsAwake q t) (sym e) h

-- The loop's own thread, outside `StartLoop`, makes no wakeup, but remembers the functor as an early one.
early_push :
    (s : Loop) (f : ℕ)
    → s.phase ≡ stopped
    → (s.pending ≡ s.early) ⊎ IsWoken s
    → ((own_push s f).pending ≡ (own_push s f).early) ⊎ IsWoken (own_push s f)
early_push s f e (inl w) = rw e (inl (ap (λ l. l ++ (f ∷ [])) w))
early_push s f e (inr w) = inr w

Step-IsAwake : (s t : Loop) → Step s t → IsAwake s.phase s → IsAwake t.phase t
Step-IsAwake s _ (starts e i) h = subst (λ q. IsAwake q s) e h
Step-IsAwake s _ (early_queues f e) h =
    let (c, w) = subst (λ q. IsAwake q s) e h in
    subst (λ t. IsAwake t.phase t) (sym (queue_in_loop_quiet s f c))
      (IsAwake-back (own_push s f) e (c, early_push s f e w))
Step-IsAwake s _ (early_quits e) h =
    IsAwake-back (record s { quit = true }) e (subst (λ q. IsAwake q s) e h)
Step-IsAwake s _ (goes_on e q) h = let (c, w) = subst (λ q. IsAwake q s) e h in (c, w, inl q)
Step-IsAwake s _ (leaves e q) h = subst (λ q. IsAwake q s) e h
Step-IsAwake s _ (returns e) h = (subst (λ q. IsAwake q s) e h).0
Step-IsAwake s _ (reads e) h = IsAwake-back (record s { wake = 0 }) e (subst (λ q. IsAwake q s) e h)
Step-IsAwake s _ (handler_queues f e) h =
    let c : s.calling ≡ false = subst (λ q. IsAwake q s) e h in
    subst (λ t. IsAwake t.phase t) (sym (queue_in_loop_quiet s f c))
      (IsAwake-back (own_push s f) e c)
Step-IsAwake s _ (handler_quits e) h =
    IsAwake-back (record s { quit = true }) e (subst (λ q. IsAwake q s) e h)
Step-IsAwake s _ (begins e) h = refl
Step-IsAwake s _ (swaps e) h = (subst (λ q. IsAwake q s) e h, inl refl)
Step-IsAwake s _ (runs f rest e) h = subst (λ q. IsAwake q s) e h
Step-IsAwake s _ (functor_queues f rest e) h =
    let (c, w) = subst (λ q. IsAwake q s) e h in
    subst (λ t. IsAwake t.phase t) (sym (queue_in_loop_calling s f c))
      (IsAwake-back (wakeup (own_push s f)) e (c, inr (omega arith)))
Step-IsAwake s _ (functor_quits rest e) h =
    IsAwake-back (record s { quit = true }) e (subst (λ q. IsAwake q s) e h)
Step-IsAwake s _ (ends e) h = (refl, (subst (λ q. IsAwake q s) e h).1)
Step-IsAwake s _ (other_queues f) h = IsAwake-woken s.phase s _ refl (omega arith) h
Step-IsAwake s _ other_quits h = IsAwake-woken s.phase s _ refl (omega arith) h
Step-IsAwake s _ (other_wakes n e) h = IsAwake-woken s.phase s _ refl (omega arith) h

Reachable-IsAwake : (s : Loop) → Reachable s → IsAwake s.phase s
Reachable-IsAwake _ at_first = (refl, inl refl)
Reachable-IsAwake _ (after {s} {t} r step) = Step-IsAwake s t step (Reachable-IsAwake s r)

-- In every state that the loop and any other threads reach, whatever the order of their steps, while the
-- loop's thread is in `Poll`: the counter of the wakeup descriptor is not 0 or another thread is about to
-- write to it, or else no functor waits but those that the loop's own thread queued outside `StartLoop`
-- and no pass has taken since; and a wakeup is there in the same sense if the loop shall quit.
pub poll-IsWoken :
    (s : Loop)
    → Reachable s
    → s.phase ≡ polling
    → ((s.pending ≡ s.early) ⊎ IsWoken s) × ((s.quit ≡ false) ⊎ IsWoken s)
poll-IsWoken s r e = let (c, w, q) = subst (λ p. IsAwake p s) e (Reachable-IsAwake s r) in (w, q)

push_complete :
    (done batch pending queued : List ℕ) (f : ℕ)
    → done ++ (batch ++ pending) ≡ queued
    → done ++ (batch ++ (pending ++ (f ∷ []))) ≡ queued ++ (f ∷ [])
push_complete done batch pending queued f h =
    ap (λ l. done ++ l) (sym (append_assoc batch pending (f ∷ [])))
    ∙ sym (append_assoc done (batch ++ pending) (f ∷ []))
    ∙ ap (λ l. l ++ (f ∷ [])) h

push-IsComplete : (s : Loop) (f : ℕ) → IsComplete s → IsComplete (push s f)
push-IsComplete s f h = push_complete s.done (batch s.phase) s.pending s.queued f h

queue_in_loop-IsComplete : (s : Loop) (f : ℕ) → IsComplete s → IsComplete (queue_in_loop s f)
queue_in_loop-IsComplete s f h = elim (Bool-cases s.calling) [
  | inl c ↦ subst IsComplete (sym (queue_in_loop_calling s f c)) (push-IsComplete s f h)
  | inr c ↦ subst IsComplete (sym (queue_in_loop_quiet s f c)) (push-IsComplete s f h)
]

-- The completeness of a state in a known phase.
complete_at :
    (s : Loop) (p : Phase)
    → s.phase ≡ p
    → IsComplete s
    → s.done ++ (batch p ++ s.pending) ≡ s.queued
complete_at s p e h = subst (λ q. s.done ++ (batch q ++ s.pending) ≡ s.queued) e h

Step-IsComplete : (s t : Loop) → Step s t → IsComplete s → IsComplete t
Step-IsComplete s _ (starts e i) h = complete_at s stopped e h
Step-IsComplete s _ (early_queues f e) h = queue_in_loop-IsComplete s f h
Step-IsComplete s _ (early_quits e) h = h
Step-IsComplete s _ (goes_on e q) h = complete_at s testing e h
Step-IsComplete s _ (leaves e q) h = complete_at s testing e h
Step-IsComplete s _ (returns e) h = complete_at s polling e h
Step-IsComplete s _ (reads e) h = h
Step-IsComplete s _ (handler_queues f e) h = queue_in_loop-IsComplete s f h
Step-IsComplete s _ (handler_quits e) h = h
Step-IsComplete s _ (begins e) h = complete_at s handling e h
Step-IsComplete s _ (swaps e) h =
    ap (λ l. s.done ++ l) (append-nil s.pending) ∙ complete_at s entering e h
Step-IsComplete s _ (runs f rest e) h =
    append_assoc s.done (f ∷ []) (rest ++ s.pending) ∙ complete_at s (running (f ∷ rest)) e h
Step-IsComplete s _ (functor_queues f rest e) h = queue_in_loop-IsComplete s f h
Step-IsComplete s _ (functor_quits rest e) h = h
Step-IsComplete s _ (ends e) h = complete_at s (running []) e h
Step-IsComplete s _ (other_queues f) h = push-IsComplete s f h
Step-IsComplete s _ other_quits h = h
Step-IsComplete s _ (other_wakes n e) h = h

-- In every reachable state the functors run, followed by those that the loop's thread has taken and by
-- those that wait, are all functors ever queued, in the order in which they were queued: none is lost,
-- run twice or overtaken.
pub Reachable-IsComplete : (s : Loop) → Reachable s → IsComplete s
Reachable-IsComplete _ at_first = refl
Reachable-IsComplete _ (after {s} {t} r step) = Step-IsComplete s t step (Reachable-IsComplete s r)
