-- ===== src/Base/Thread/Start.antt =====
-- Start waits for the new thread, so its last assertion holds.
use neconet.Prelude.{
  ℕ, ◌<◌, ◌≤◌, ◌≡◌, ◌⊎◌, refl, sym, ap, ◌∙◌, Bool, true, false, inl, inr, ok, lt→ltb, arith, update,
  update_self, update_ne, Bool-cases,
}
use native.Mathlib.Decide.{ℕ_discrete}
use neconet.Base.Latch.{
  Pc, Latch, Step, Reachable, count_down, decrement, is_zero, notified, wants_wait, testing, asleep,
  woken, passing, passed, wants_count, counting, leaving, counted, elsewhere, waits, sleeps, wakes,
  retakes, goes_on, passes, counts, counts_down, leaves,
}
use neconet.Base.Latch.Inv.{notified_cases}
use neconet.Base.Latch.Exit.{passed_lem}
use neconet.Base.Thread.{
  Thread, Starting, Started, writes, on_latch, at_first, after, first_place, end_start,
}

-- In a call of CountDown, or behind one; behind its decrement.
abbrev is_counting : Pc → Bool
is_counting wants_count = true
is_counting counting = true
is_counting leaving = true
is_counting counted = true
is_counting _ = false

abbrev is_after : Pc → Bool
is_after leaving = true
is_after counted = true
is_after _ = false

-- A class of places that a thread's step does not leave.
keeps :
    (f : Pc → Bool) (pc : ℕ → Pc) (i : ℕ) (p : Pc)
    → (f (pc i) ≡ true → f p ≡ true)
    → (j : ℕ) → f (pc j) ≡ true
    → f (update pc i p j) ≡ true
keeps f pc i p h j k = elim (ℕ_discrete j i) [
  | yes e ↦
      ap (λ n. f (update pc i p n)) e
      ∙ ap f (update_self pc i p)
      ∙ h (ap (λ n. f (pc n)) (sym e) ∙ k)
  | no e ↦ ap f (update_ne pc i p j e) ∙ k
]

comes :
    (f : Pc → Bool) (pc : ℕ → Pc) (i : ℕ) (p : Pc)
    → (f p ≡ true → f (pc i) ≡ true)
    → (j : ℕ) → f (update pc i p j) ≡ true
    → f (pc j) ≡ true
comes f pc i p h j k = elim (ℕ_discrete j i) [
  | yes e ↦
      ap (λ n. f (pc n)) e
      ∙ h (ap f (sym (update_self pc i p)) ∙ ap (λ n. f (update pc i p n)) (sym e) ∙ k)
  | no e ↦ ap f (sym (update_ne pc i p j e)) ∙ k
]

-- A place that the thread is not at.
not_at : (f : Pc → Bool) (p q : Pc) → p ≡ q → f q ≡ false → f p ≡ true → ⊥
not_at f p q e h k = let w : true ≡ false = sym k ∙ ap f e ∙ h in cc

after-notified : (p : Pc) → is_after p ≡ true → is_after (notified p) ≡ true
after-notified p h = elim (notified_cases p) [
  | inl e ↦ absurd (not_at is_after p asleep e refl h)
  | inr e ↦ ap is_after e ∙ h
]

counting-notified : (p : Pc) → is_counting (notified p) ≡ true → is_counting p ≡ true
counting-notified p h = elim (notified_cases p) [
  | inl e ↦ let w : true ≡ false = sym h ∙ ap (λ q. is_counting (notified q)) e in cc
  | inr e ↦ ap is_counting (sym e) ∙ h
]

-- What a step of the latch means for those that count down.
record IsLatchStep (s t : Latch) : Type 0 where
  comes_from : (j : ℕ) → is_counting (t.pc j) ≡ true → is_counting (s.pc j) ≡ true
  stays : (j : ℕ) → is_after (s.pc j) ≡ true → is_after (t.pc j) ≡ true
  downs : (t.downs ≡ s.downs) ⊎ ((i : ℕ) × (s.pc i ≡ counting) × (is_after (t.pc i) ≡ true))

-- A step that moves one thread and leaves the count alone.
by_move :
    (s t : Latch) (i : ℕ) (p : Pc)
    → t.pc ≡ update s.pc i p
    → t.downs ≡ s.downs
    → (is_counting p ≡ true → is_counting (s.pc i) ≡ true)
    → (is_after (s.pc i) ≡ true → is_after p ≡ true)
    → IsLatchStep s t
by_move s t i p e d a b = record {
  comes_from =
      λ j k. comes is_counting s.pc i p a j (ap (λ (f : ℕ → Pc). is_counting (f j)) (sym e) ∙ k);
  stays = λ j k. ap (λ (f : ℕ → Pc). is_after (f j)) e ∙ keeps is_after s.pc i p b j k;
  downs = inl d;
}

by_count : (s : Latch) (i : ℕ) → s.pc i ≡ counting → IsLatchStep s (count_down s i)
by_count s i e = elim (Bool-cases (is_zero (decrement s.count))) [
  | inl z ↦ rw z (record {
    comes_from = λ j k. back j (counting-notified (update s.pc i leaving j) k);
    stays = λ j k. after-notified (update s.pc i leaving j) (on j k);
    downs =
        inr (
          i,
          e,
          after-notified (update s.pc i leaving i) (ap is_after (update_self s.pc i leaving)),
        );
  })
  | inr z ↦ rw z (record {
    comes_from = back;
    stays = on;
    downs = inr (i, e, ap is_after (update_self s.pc i leaving));
  })
]
  where
    back : (j : ℕ) → is_counting (update s.pc i leaving j) ≡ true → is_counting (s.pc j) ≡ true
    back = comes is_counting s.pc i leaving (λ _. ap is_counting e)

    on : (j : ℕ) → is_after (s.pc j) ≡ true → is_after (update s.pc i leaving j) ≡ true
    on = keeps is_after s.pc i leaving (λ _. refl)

latch_step : (s t : Latch) → Step s t → IsLatchStep s t
latch_step s _ (waits i e l) =
    by_move s _ i testing refl refl (λ u. cc) (λ u. absurd (not_at is_after _ _ e refl u))
latch_step s _ (sleeps i e c l) =
    by_move s _ i asleep refl refl (λ u. cc) (λ u. absurd (not_at is_after _ _ e refl u))
latch_step s _ (wakes i e) =
    by_move s _ i woken refl refl (λ u. cc) (λ u. absurd (not_at is_after _ _ e refl u))
latch_step s _ (retakes i e l) =
    by_move s _ i testing refl refl (λ u. cc) (λ u. absurd (not_at is_after _ _ e refl u))
latch_step s _ (goes_on i e c) =
    by_move s _ i passing refl refl (λ u. cc) (λ u. absurd (not_at is_after _ _ e refl u))
latch_step s _ (passes i e l) =
    by_move s _ i passed refl refl (λ u. cc) (λ u. absurd (not_at is_after _ _ e refl u))
latch_step s _ (counts i e l) =
    by_move s _ i counting refl refl (λ u. ap is_counting e)
      (λ u. absurd (not_at is_after _ _ e refl u))
latch_step s _ (counts_down i e) = by_count s i e
latch_step s _ (leaves i e l) = by_move s _ i counted refl refl (λ u. ap is_counting e) (λ u. refl)

-- Only the child counts down, not before its id is written, and only once it is behind the decrement has
-- the count gone down.
record IsStarting (child : ℕ) (s : Starting) : Type 0 where
  reachable : Reachable 1 s.latch
  only : (j : ℕ) → is_counting (s.latch.pc j) ≡ true → j ≡ child
  unwritten : s.tid ≡ 0 → s.latch.pc child ≡ wants_count
  written : (s.tid ≡ 0) ⊎ (s.tid ≡ child)
  counted_down : 0 < s.latch.downs → is_after (s.latch.pc child) ≡ true

Started-IsStarting :
    (starter child : ℕ) (s : Starting) → Started starter child s → IsStarting child s
Started-IsStarting starter child _ at_first = record {
  reachable = Reachable.at_first (first_place starter child) (λ i. ground arith);
  only = λ j h. ground arith;
  unwritten = λ _. update_self (update (λ j. elsewhere) starter wants_wait) child wants_count;
  written = inl refl;
  counted_down = λ h. absurd (omega arith);
}
Started-IsStarting starter child _ (after {s} r (writes z)) =
    let h = Started-IsStarting starter child s r in
    record {
      reachable = h.reachable;
      only = h.only;
      unwritten = λ _. h.unwritten z;
      written = inr refl;
      counted_down = h.counted_down;
    }
Started-IsStarting starter child _ (after {s} r (on_latch {l} step same)) =
    let h = Started-IsStarting starter child s r in
    let m = latch_step s.latch l step in
    record {
      reachable = Reachable.after h.reachable step;
      only = λ j k. h.only j (m.comes_from j k);
      unwritten = λ z. same z ∙ h.unwritten z;
      written = h.written;
      counted_down = λ d. elim m.downs [
        | inl e ↦ m.stays child (h.counted_down (omega (arith, e)))
        | inr (i, e, k) ↦ ap (λ n. is_after (l.pc n)) (sym (h.only i (ap is_counting e))) ∙ k
      ];
    }

-- Whatever the order of the steps of the two threads: when the starter's Wait has returned, `m_tid` is the
-- new thread's id, and if this is above 0, as the kernel's ids are, the last assertion of Start holds.
pub end_start_lem :
    (starter child : ℕ) (s : Starting) (t : Thread)
    → Started starter child s
    → s.latch.pc starter ≡ passed
    → 0 < child
    → t.tid ≡ s.tid
    → (s.tid ≡ child) × (end_start t ≡ ok t)
unfolding end_start
end_start_lem starter child s t r e positive same =
    let h = Started-IsStarting starter child s r in
    let d : 1 ≤ s.latch.downs = passed_lem 1 s.latch starter h.reachable e in
    elim h.written [
      | inl z ↦ absurd (not_at is_after _ _ (h.unwritten z) refl (h.counted_down d))
      | inr w ↦ (w, rw (lt→ltb 0 t.tid (omega arith)) refl)
    ]
