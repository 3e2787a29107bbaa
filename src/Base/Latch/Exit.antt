-- ===== src/Base/Latch/Exit.antt =====
-- What the latch promises: no thread gets through too early, and every thread gets through in the end.
use neconet.Prelude.{
  ℕ, ◌≤◌, ◌≡◌, ◌≢◌, ◌⊎◌, refl, sym, ap, ◌∙◌, Bool, true, false, inl, inr, some, ok, arith,
  update_self, update_ne, Bool-cases, ==_iff,
}
use neconet.Prelude.Int.{ℤ, pos_part}
use neconet.Base.Mutex.{Mutex, init, taken, lock, unlock, is_locked_by, lock_free, unlock-taken}
use neconet.Base.Latch.{
  Pc, Latch, Step, Reachable, move, count_down, decrement, is_open, is_zero, notified, wants_wait,
  testing, asleep, woken, passing, passed, counting, leaving, counted, waits, retakes, goes_on,
  passes, counts_down, leaves,
}
use neconet.Base.Latch.Inv.{is_inside, is_past, is_asleep, IsExclusive, IsValid}
use neconet.Base.Latch.Steps.{Reachable-IsValid, decrement-IsDecrement, open_count}

-- In every reachable state of a latch that was made for `n`, whatever the order of the threads' steps, a
-- thread whose call of Wait has returned finds that CountDown was called at least `n` times.
pub passed_lem : (n : ℕ) (s : Latch) (i : ℕ) → Reachable n s → s.pc i ≡ passed → n ≤ s.downs
passed_lem n s i r e =
    let c = (Reachable-IsValid n s r).counted in omega (arith, c.total, c.past i (ap is_past e))

-- In every reachable state at most one thread is between taking the mutex and giving it back, and it is
-- the one that the mutex names as its holder.
pub exclusive_lem :
    (n : ℕ) (s : Latch) (i j : ℕ)
    → Reachable n s
    → is_inside (s.pc i) ≡ true
    → is_inside (s.pc j) ≡ true
    → (i ≡ j) × (is_locked_by s.mutex i ≡ true)
exclusive_lem n s i j r h k =
    let x = (Reachable-IsValid n s r).exclusive in
    let own : s.mutex ≡ taken i = x.inside i h in
    let both : some i ≡ some j = ap (λ (m : Mutex). m.owner) (sym own ∙ x.inside j k) in
    (cc, rw own ((==_iff i i).1 refl))

-- Any number of steps.
pub data Steps : Latch → Latch → Type 0 where
  stop : {s : Latch} → Steps s s
  next : {s t u : Latch} → Step s t → Steps t u → Steps s u

join : {s t u : Latch} → Steps s t → Steps t u → Steps s u
join stop k = k
join (next a h) k = next a (join h k)

still_open : (c : ℤ) → is_open c ≡ true → is_open (decrement c) ≡ true
still_open c h =
    let z : pos_part (decrement c) ≡ 0 = (decrement-IsDecrement c).shut (open_count c h) in
    ground (arith, z)

module _ (i : ℕ) where
  -- The mutex is free, the count is not above 0, and the thread is at `p`.
  record IsFree (p : Pc) (s : Latch) : Type 0 where
    free : s.mutex ≡ init
    shut : is_open s.count ≡ true
    here : s.pc i ≡ p

  -- From behind the loop, from the test and from before the lock.
  from_passing :
      (s : Latch)
      → s.mutex ≡ taken i
      → s.pc i ≡ passing
      → (t : Latch) × Steps s t × (t.pc i ≡ passed)
  from_passing s m e = (
    move s i passed init,
    next (passes i e (ap (λ n. unlock n i) m ∙ unlock-taken i)) stop,
    update_self s.pc i passed,
  )

  from_testing :
      (s : Latch)
      → s.mutex ≡ taken i
      → is_open s.count ≡ true
      → s.pc i ≡ testing
      → (t : Latch) × Steps s t × (t.pc i ≡ passed)
  from_testing s m o e =
      let (t, h, k) = from_passing (move s i passing s.mutex) m (update_self s.pc i passing) in
      (t, next (goes_on i e o) h, k)

  from_free :
      (s : Latch) (p : Pc)
      → (p ≡ wants_wait) ⊎ (p ≡ woken)
      → IsFree p s
      → (t : Latch) × Steps s t × (t.pc i ≡ passed)
  from_free s p q f =
      let l : lock s.mutex i ≡ some (taken i) =
        lock_free s.mutex i (ap (λ (m : Mutex). m.owner) f.free) in
      let (t, h, k) =
        from_testing (move s i testing (taken i)) refl f.shut (update_self s.pc i testing) in
      elim q [
        | inl e ↦ (t, next (waits i (f.here ∙ e) l) h, k)
        | inr e ↦ (t, next (retakes i (f.here ∙ e) l) h, k)
      ]

  -- The owner, another thread, gives the mutex back.
  module _ (k : ℕ) (d : i ≢ k) (p : Pc) (q : notified p ≡ p) where
    gives_back :
        (s : Latch)
        → s.mutex ≡ taken k
        → is_open s.count ≡ true
        → s.pc i ≡ p
        → (s.pc k ≡ passing) ⊎ (s.pc k ≡ leaving)
        → (t : Latch) × Steps s t × IsFree p t
    gives_back s m o e w =
        let u : unlock s.mutex k ≡ ok init = ap (λ n. unlock n k) m ∙ unlock-taken k in
        elim w [
          | inl x ↦ (
            move s k passed init,
            next (passes k x u) stop,
            record { free = refl; shut = o; here = update_ne s.pc k passed i d ∙ e },
          )
          | inr x ↦ (
            move s k counted init,
            next (leaves k x u) stop,
            record { free = refl; shut = o; here = update_ne s.pc k counted i d ∙ e },
          )
        ]

    counted_pc : (s : Latch) → s.pc i ≡ p → (count_down s k).pc i ≡ p
    counted_pc s e = elim (Bool-cases (is_zero (decrement s.count))) [
      | inl z ↦ rw z (ap notified (update_ne s.pc k leaving i d ∙ e) ∙ q)
      | inr z ↦ rw z (update_ne s.pc k leaving i d ∙ e)
    ]

    leaving_pc : (s : Latch) → (count_down s k).pc k ≡ leaving
    leaving_pc s = elim (Bool-cases (is_zero (decrement s.count))) [
      | inl z ↦ rw z (ap notified (update_self s.pc k leaving))
      | inr z ↦ rw z (update_self s.pc k leaving)
    ]

    owner_done :
        (s : Latch) (r : Pc)
        → s.mutex ≡ taken k
        → is_open s.count ≡ true
        → s.pc i ≡ p
        → s.pc k ≡ r
        → is_inside r ≡ true
        → (t : Latch) × Steps s t × IsFree p t
    owner_done s passing m o e x h = gives_back s m o e (inl x)
    owner_done s leaving m o e x h = gives_back s m o e (inr x)
    owner_done s testing m o e x h =
        let (t, g, f) =
          gives_back (move s k passing s.mutex) m o (update_ne s.pc k passing i d ∙ e)
            (inl (update_self s.pc k passing)) in
        (t, next (goes_on k x o) g, f)
    owner_done s counting m o e x h =
        let (t, g, f) =
          gives_back (count_down s k) m (still_open s.count o) (counted_pc s e)
            (inr (leaving_pc s)) in
        (t, next (counts_down k x) g, f)
    owner_done s wants_wait m o e x h = cc
    owner_done s asleep m o e x h = cc
    owner_done s woken m o e x h = cc
    owner_done s passed m o e x h = cc
    owner_done s counted m o e x h = cc
    owner_done s Pc.wants_count m o e x h = cc
    owner_done s Pc.elsewhere m o e x h = cc

  from_outside :
      (s : Latch) (p : Pc)
      → IsExclusive s.mutex s.pc
      → is_open s.count ≡ true
      → s.pc i ≡ p
      → (p ≡ wants_wait) ⊎ (p ≡ woken)
      → notified p ≡ p
      → is_inside p ≡ false
      → (t : Latch) × Steps s t × (t.pc i ≡ passed)
  from_outside s p x o e q stays out = elim x.outside [
    | inl m ↦ from_free s p q (record { free = m; shut = o; here = e })
    | inr (k, m, h) ↦
        let d : i ≢ k = λ u.
          let w : true ≡ false =
            sym h ∙ ap (λ n. is_inside (s.pc n)) (sym u) ∙ ap is_inside e ∙ out in
          cc in
        let (t, g, f) = owner_done k d p stays s (s.pc k) m o e refl h in
        let (u, g', y) = from_free t p q f in (u, join g g', y)
  ]

-- Is a thread in a call of Wait?
abbrev pub is_waiting : Pc → Bool
is_waiting wants_wait = true
is_waiting testing = true
is_waiting asleep = true
is_waiting woken = true
is_waiting passing = true
is_waiting _ = false

none_sleeps :
    (n : ℕ) (s : Latch) (i : ℕ) → IsValid n s → is_open s.count ≡ true → is_asleep (s.pc i) ≡ false
none_sleeps n s i v o = elim (Bool-cases (is_asleep (s.pc i))) [
  | inl a ↦ absurd (omega (arith, v.counted.sleeping i a, open_count s.count o))
  | inr a ↦ a
]

by_pc :
    (n : ℕ) (s : Latch) (i : ℕ) (p : Pc)
    → IsValid n s
    → s.pc i ≡ p
    → is_waiting p ≡ true
    → is_open s.count ≡ true
    → (t : Latch) × Steps s t × (t.pc i ≡ passed)
by_pc n s i wants_wait v e h o = from_outside i s wants_wait v.exclusive o e (inl refl) refl refl
by_pc n s i woken v e h o = from_outside i s woken v.exclusive o e (inr refl) refl refl
by_pc n s i testing v e h o = from_testing i s (v.exclusive.inside i (ap is_inside e)) o e
by_pc n s i passing v e h o = from_passing i s (v.exclusive.inside i (ap is_inside e)) e
by_pc n s i asleep v e h o =
    absurd (omega (arith, v.counted.sleeping i (ap is_asleep e), open_count s.count o))
by_pc n s i passed v e h o = cc
by_pc n s i counting v e h o = cc
by_pc n s i leaving v e h o = cc
by_pc n s i counted v e h o = cc
by_pc n s i Pc.wants_count v e h o = cc
by_pc n s i Pc.elsewhere v e h o = cc

-- In every reachable state in which the count is not above 0, no thread sleeps any more in Wait, so that
-- none of them depends on a wakeup that nobody sends; and every thread that is in a call of Wait can reach
-- the end of it.
pub wait_returns :
    (n : ℕ) (s : Latch) (i : ℕ)
    → Reachable n s
    → is_open s.count ≡ true
    → is_waiting (s.pc i) ≡ true
    → (is_asleep (s.pc i) ≡ false) × ((t : Latch) × Steps s t × (t.pc i ≡ passed))
wait_returns n s i r o h =
    let v = Reachable-IsValid n s r in (none_sleeps n s i v o, by_pc n s i (s.pc i) v refl h o)
