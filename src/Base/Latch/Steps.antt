-- ===== src/Base/Latch/Steps.antt =====
-- Every step of a latch keeps its invariant.
use neconet.Prelude.{
  ℕ, suc, ◌+◌, ◌<◌, ◌≡◌, refl, sym, ap, ◌∙◌, true, false, inl, inr, arith, update, Bool-cases,
}
use neconet.Prelude.Int.{ℤ, pos, negsuc, ◌-ℤ◌, pos_part, neg_part}
use neconet.Base.Latch.{
  Pc, Latch, Step, Reachable, count_down, decrement, is_open, is_zero, notified, is_start,
  wants_wait, testing, asleep, woken, passing, passed, wants_count, counting, leaving, counted,
  elsewhere, waits, sleeps, wakes, retakes, goes_on, passes, counts, counts_down, leaves, at_first,
  after,
}
use neconet.Base.Latch.Inv.{
  is_inside, is_past, is_asleep, notified_cases, IsExclusive, IsCounted, IsValid, moved,
  lock-IsExclusive, release-IsExclusive, released, waited, stay-IsExclusive, notify_all-IsExclusive,
  move-IsCounted,
}

-- What a decrement does to the two parts of the count.
pub record IsDecrement (c d : ℤ) : Type 0 where
  pub total : pos_part d + neg_part c + 1 ≡ pos_part c + neg_part d
  pub shut : pos_part c ≡ 0 → pos_part d ≡ 0
  pub last : is_zero d ≡ false → 0 < pos_part c → 0 < pos_part d

pub decrement-IsDecrement : (c : ℤ) → IsDecrement c (decrement c)
unfolding decrement ◌-ℤ◌
decrement-IsDecrement (pos n) = record {
  total = ground arith;
  shut = λ h. ground arith;
  last = λ h k. ground arith;
}
decrement-IsDecrement (negsuc n) = record {
  total = ground arith;
  shut = λ h. ground arith;
  last = λ h k. ground arith;
}

past-notified : (p : Pc) → is_past (notified p) ≡ true → is_past p ≡ true
past-notified p h = elim (notified_cases p) [
  | inl e ↦ let w : true ≡ false = sym h ∙ ap (λ q. is_past (notified q)) e in cc
  | inr e ↦ ap is_past (sym e) ∙ h
]

none_asleep : (p : Pc) → is_asleep (notified p) ≡ false
none_asleep asleep = refl
none_asleep wants_wait = refl
none_asleep testing = refl
none_asleep woken = refl
none_asleep passing = refl
none_asleep passed = refl
none_asleep wants_count = refl
none_asleep counting = refl
none_asleep leaving = refl
none_asleep counted = refl
none_asleep elsewhere = refl

module _ (n : ℕ) (s : Latch) (h : IsCounted n s.count s.downs s.pc) (i : ℕ) where
  change : IsDecrement s.count (decrement s.count)
  change = decrement-IsDecrement s.count

  shut_past : (j : ℕ) → is_past (update s.pc i leaving j) ≡ true → pos_part (decrement s.count) ≡ 0
  shut_past j u = elim (moved is_past s.pc i leaving j u) [
    | inl (_, v) ↦ cc
    | inr (_, v) ↦ change.shut (h.past j v)
  ]

  new_total : pos_part (decrement s.count) + suc s.downs ≡ n + neg_part (decrement s.count)
  new_total = omega (arith, h.total, change.total)

  count_down-IsCounted :
      IsCounted n (count_down s i).count (count_down s i).downs (count_down s i).pc
  count_down-IsCounted = elim (Bool-cases (is_zero (decrement s.count))) [
    | inl z ↦ rw z (record {
      total = new_total;
      past = λ j u. shut_past j (past-notified (update s.pc i leaving j) u);
      sleeping = λ j u. let w : true ≡ false = sym u ∙ none_asleep (update s.pc i leaving j) in cc;
    })
    | inr z ↦ rw z (record {
      total = new_total;
      past = shut_past;
      sleeping = λ j u. elim (moved is_asleep s.pc i leaving j u) [
        | inl (_, v) ↦ cc
        | inr (_, v) ↦ change.last z (h.sleeping j v)
      ];
    })
  ]

  count_down-IsExclusive :
      IsExclusive s.mutex s.pc → s.pc i ≡ counting → IsExclusive s.mutex (count_down s i).pc
  count_down-IsExclusive x e = elim (Bool-cases (is_zero (decrement s.count))) [
    | inl z ↦ rw z (notify_all-IsExclusive s.mutex (update s.pc i leaving) next)
    | inr z ↦ rw z next
  ]
    where
      next : IsExclusive s.mutex (update s.pc i leaving)
      next = stay-IsExclusive s.mutex s.pc x i leaving (ap is_inside (sym e))

pub open_count : (c : ℤ) → is_open c ≡ true → pos_part c ≡ 0
open_count c h = ground arith

shut_count : (c : ℤ) → is_open c ≡ false → 0 < pos_part c
shut_count c h = ground arith

pub Step-IsValid : (n : ℕ) (s t : Latch) → Step s t → IsValid n s → IsValid n t
Step-IsValid n s _ (waits i {m} e l) v = record {
  exclusive = lock-IsExclusive s.mutex m s.pc i testing v.exclusive l refl;
  counted = move-IsCounted n s.downs s.count s.pc i testing v.counted (λ u. cc) (λ u. cc);
}
Step-IsValid n s _ (sleeps i {m} e c l) v =
    let t : is_inside (s.pc i) ≡ true = ap is_inside e in
    record {
      exclusive =
          release-IsExclusive s.mutex m s.pc i asleep v.exclusive t
            (waited s.mutex m s.pc i asleep v.exclusive t l) refl;
      counted =
          move-IsCounted n s.downs s.count s.pc i asleep v.counted (λ u. cc)
            (λ u. shut_count s.count c);
    }
Step-IsValid n s _ (wakes i e) v = record {
  exclusive = stay-IsExclusive s.mutex s.pc v.exclusive i woken (ap is_inside (sym e));
  counted = move-IsCounted n s.downs s.count s.pc i woken v.counted (λ u. cc) (λ u. cc);
}
Step-IsValid n s _ (retakes i {m} e l) v = record {
  exclusive = lock-IsExclusive s.mutex m s.pc i testing v.exclusive l refl;
  counted = move-IsCounted n s.downs s.count s.pc i testing v.counted (λ u. cc) (λ u. cc);
}
Step-IsValid n s _ (goes_on i e c) v = record {
  exclusive = stay-IsExclusive s.mutex s.pc v.exclusive i passing (ap is_inside (sym e));
  counted =
      move-IsCounted n s.downs s.count s.pc i passing v.counted (λ u. open_count s.count c)
        (λ u. cc);
}
Step-IsValid n s _ (passes i {m} e l) v =
    let t : is_inside (s.pc i) ≡ true = ap is_inside e in
    record {
      exclusive =
          release-IsExclusive s.mutex m s.pc i passed v.exclusive t
            (released s.mutex m s.pc i passed v.exclusive t l) refl;
      counted =
          move-IsCounted n s.downs s.count s.pc i passed v.counted
            (λ u. v.counted.past i (ap is_past e)) (λ u. cc);
    }
Step-IsValid n s _ (counts i {m} e l) v = record {
  exclusive = lock-IsExclusive s.mutex m s.pc i counting v.exclusive l refl;
  counted = move-IsCounted n s.downs s.count s.pc i counting v.counted (λ u. cc) (λ u. cc);
}
Step-IsValid n s _ (counts_down i e) v = record {
  exclusive = count_down-IsExclusive n s v.counted i v.exclusive e;
  counted = count_down-IsCounted n s v.counted i;
}
Step-IsValid n s _ (leaves i {m} e l) v =
    let t : is_inside (s.pc i) ≡ true = ap is_inside e in
    record {
      exclusive =
          release-IsExclusive s.mutex m s.pc i counted v.exclusive t
            (released s.mutex m s.pc i counted v.exclusive t l) refl;
      counted = move-IsCounted n s.downs s.count s.pc i counted v.counted (λ u. cc) (λ u. cc);
    }

start_outside :
    (p : Pc)
    → is_start p ≡ true
    → (is_inside p ≡ false) × (is_past p ≡ false) × (is_asleep p ≡ false)
start_outside wants_wait h = (refl, refl, refl)
start_outside wants_count h = (refl, refl, refl)
start_outside elsewhere h = (refl, refl, refl)
start_outside testing h = cc
start_outside asleep h = cc
start_outside woken h = cc
start_outside passing h = cc
start_outside passed h = cc
start_outside counting h = cc
start_outside leaving h = cc
start_outside counted h = cc

pub Reachable-IsValid : (n : ℕ) (s : Latch) → Reachable n s → IsValid n s
Reachable-IsValid n _ (at_first pc h) = record {
  exclusive = record {
    inside = λ i u. let w : true ≡ false = sym u ∙ (start_outside (pc i) (h i)).0 in cc;
    outside = inl refl;
  };
  counted = record {
    total = omega arith;
    past = λ i u. let w : true ≡ false = sym u ∙ (start_outside (pc i) (h i)).1 in cc;
    sleeping = λ i u. let w : true ≡ false = sym u ∙ (start_outside (pc i) (h i)).2 in cc;
  };
}
Reachable-IsValid n _ (after {s} {t} r step) = Step-IsValid n s t step (Reachable-IsValid n s r)
