-- ===== src/Net/Loop/Pass.antt =====
-- One pass of __DoPendingFunctors, whatever is queued meanwhile.
use neconet.Prelude.{
  ℕ, ◌≡◌, refl, sym, ap, ◌∙◌, List, [], ◌∷◌, ◌++◌, append-nil, append_assoc, subst, Bool-cases, inl,
  inr,
}
use neconet.Net.Loop.{
  Loop, Step, stopped, testing, polling, handling, entering, running, push, queue_in_loop,
  swap_functors, starts, early_queues, early_quits, goes_on, leaves, returns, reads, handler_queues,
  handler_quits, begins, swaps, runs, functor_queues, functor_quits, ends, other_queues,
  other_quits, other_wakes,
}
use neconet.Net.Loop.Inv.{batch, queue_in_loop_calling, queue_in_loop_quiet}

-- What follows the swap in `s`, up to the end of the pass: steps of the loop's thread and of others, as
-- long as the loop's thread runs functors.
pub data Pass (s : Loop) : Loop → Type 0 where
  taken : s.phase ≡ entering → Pass s (swap_functors s)
  goes : {t u : Loop} → Pass s t → (rest : List ℕ) → t.phase ≡ running rest → Step t u → Pass s u

-- The functors run since, and those still to run, are those that waited at the swap; those that wait now
-- were queued since.
abbrev IsPass : Loop → Loop → Type 0
IsPass s t = (t.done ++ batch t.phase ≡ s.done ++ s.pending) × (t.queued ≡ s.queued ++ t.pending)

module _ (s : Loop) where
  push-IsPass : (t : Loop) (f : ℕ) → IsPass s t → IsPass s (push t f)
  push-IsPass t f (d, q) = (d, ap (λ l. l ++ (f ∷ [])) q ∙ append_assoc s.queued t.pending (f ∷ []))

  queue_in_loop-IsPass : (t : Loop) (f : ℕ) → IsPass s t → IsPass s (queue_in_loop t f)
  queue_in_loop-IsPass t f h = elim (Bool-cases t.calling) [
    | inl c ↦ subst (IsPass s) (sym (queue_in_loop_calling t f c)) (push-IsPass t f h)
    | inr c ↦ subst (IsPass s) (sym (queue_in_loop_quiet t f c)) (push-IsPass t f h)
  ]

  Step-IsPass :
      (t u : Loop) (rest : List ℕ) → t.phase ≡ running rest → Step t u → IsPass s t → IsPass s u
  Step-IsPass t _ rest r (starts e i) h = absurd (let x : stopped ≡ running rest = sym e ∙ r in cc)
  Step-IsPass t _ rest r (early_queues f e) h = queue_in_loop-IsPass t f h
  Step-IsPass t _ rest r (early_quits e) h = h
  Step-IsPass t _ rest r (goes_on e q) h = absurd (let x : testing ≡ running rest = sym e ∙ r in cc)
  Step-IsPass t _ rest r (leaves e q) h = absurd (let x : testing ≡ running rest = sym e ∙ r in cc)
  Step-IsPass t _ rest r (returns e) h = absurd (let x : polling ≡ running rest = sym e ∙ r in cc)
  Step-IsPass t _ rest r (reads e) h = h
  Step-IsPass t _ rest r (handler_queues f e) h = queue_in_loop-IsPass t f h
  Step-IsPass t _ rest r (handler_quits e) h = h
  Step-IsPass t _ rest r (begins e) h = absurd (let x : handling ≡ running rest = sym e ∙ r in cc)
  Step-IsPass t _ rest r (swaps e) h = absurd (let x : entering ≡ running rest = sym e ∙ r in cc)
  Step-IsPass t _ rest r (runs f tail e) (d, q) =
      (append_assoc t.done (f ∷ []) tail ∙ ap (λ p. t.done ++ batch p) (sym e) ∙ d, q)
  Step-IsPass t _ rest r (functor_queues f tail e) h = queue_in_loop-IsPass t f h
  Step-IsPass t _ rest r (functor_quits tail e) h = h
  Step-IsPass t _ rest r (ends e) (d, q) = (ap (λ p. t.done ++ batch p) (sym e) ∙ d, q)
  Step-IsPass t _ rest r (other_queues f) h = push-IsPass t f h
  Step-IsPass t _ rest r other_quits h = h
  Step-IsPass t _ rest r (other_wakes n e) h = h

-- From the swap of a pass up to its end, whatever the functors and other threads queue meanwhile: the
-- functors run since then, followed by those still to run, are exactly those that waited at the swap, in
-- their order, and those that wait are exactly those queued since. So a pass that has ended ran each
-- functor that waited at its swap once, and none that was queued later.
pub pass_lem :
    (s t : Loop)
    → Pass s t
    → (t.done ++ batch t.phase ≡ s.done ++ s.pending) × (t.queued ≡ s.queued ++ t.pending)
pass_lem s _ (taken e) = (refl, sym (append-nil s.queued))
pass_lem s u (goes {t = t} p rest r step) = Step-IsPass s t u rest r step (pass_lem s t p)
