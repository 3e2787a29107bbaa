-- ===== src/Base/Latch/Inv.antt =====
-- The invariant of the latch.
use neconet.Prelude.{
  ℕ, ◌+◌, ◌<◌, ◌≡◌, ◌≢◌, ◌⊎◌, refl, sym, ap, ◌∙◌, subst, Bool, true, false, inl, inr, none, some,
  ok, update, update_self, update_ne,
}
use native.Mathlib.Decide.{ℕ_discrete}
use neconet.Prelude.Int.{ℤ, pos_part, neg_part}
use neconet.Base.Mutex.{
  Mutex, init, taken, lock, unlock, begin_wait, lock_lem, unlock-taken, begin_wait-taken,
}
use neconet.Base.Latch.{
  Pc, Latch, notify_all, notified, wants_wait, testing, asleep, woken, passing, passed, wants_count,
  counting, leaving, counted, elsewhere,
}

-- Between a lock and the next release of the mutex.
abbrev pub is_inside : Pc → Bool
is_inside testing = true
is_inside passing = true
is_inside counting = true
is_inside leaving = true
is_inside _ = false

-- Behind the loop of Wait.
abbrev pub is_past : Pc → Bool
is_past passing = true
is_past passed = true
is_past _ = false

abbrev pub is_asleep : Pc → Bool
is_asleep asleep = true
is_asleep _ = false

-- The owner of the mutex is its holder, and the thread that is inside.
pub record IsExclusive (m : Mutex) (pc : ℕ → Pc) : Type 0 where
  pub inside : (i : ℕ) → is_inside (pc i) ≡ true → m ≡ taken i
  pub outside : (m ≡ init) ⊎ ((i : ℕ) × (m ≡ taken i) × (is_inside (pc i) ≡ true))

-- The count is what the latch was made for, less the decrements. No thread is behind the loop while it
-- is above 0, and none sleeps otherwise.
pub record IsCounted (n : ℕ) (count : ℤ) (downs : ℕ) (pc : ℕ → Pc) : Type 0 where
  pub total : pos_part count + downs ≡ n + neg_part count
  pub past : (i : ℕ) → is_past (pc i) ≡ true → pos_part count ≡ 0
  pub sleeping : (i : ℕ) → is_asleep (pc i) ≡ true → 0 < pos_part count

pub record IsValid (n : ℕ) (s : Latch) : Type 0 where
  pub exclusive : IsExclusive s.mutex s.pc
  pub counted : IsCounted n s.count s.downs s.pc

-- Only a sleeping thread is moved by a notification.
pub notified_cases : (p : Pc) → (p ≡ asleep) ⊎ (notified p ≡ p)
notified_cases asleep = inl refl
notified_cases wants_wait = inr refl
notified_cases testing = inr refl
notified_cases woken = inr refl
notified_cases passing = inr refl
notified_cases passed = inr refl
notified_cases wants_count = inr refl
notified_cases counting = inr refl
notified_cases leaving = inr refl
notified_cases counted = inr refl
notified_cases elsewhere = inr refl

-- What holds of the thread that moved, or of one that did not.
pub moved :
    (f : Pc → Bool) (pc : ℕ → Pc) (i : ℕ) (p : Pc) (j : ℕ)
    → f (update pc i p j) ≡ true
    → ((j ≡ i) × (f p ≡ true)) ⊎ ((j ≢ i) × (f (pc j) ≡ true))
moved f pc i p j h = elim (ℕ_discrete j i) [
  | yes e ↦ inl (e, ap f (sym (update_self pc i p) ∙ ap (update pc i p) (sym e)) ∙ h)
  | no e ↦ inr (e, ap f (sym (update_ne pc i p j e)) ∙ h)
]

at_self : (f : Pc → Bool) (pc : ℕ → Pc) (i : ℕ) (p : Pc) → f p ≡ true → f (update pc i p i) ≡ true
at_self f pc i p h = ap f (update_self pc i p) ∙ h

module _ (m m' : Mutex) (pc : ℕ → Pc) (i : ℕ) (p : Pc) (h : IsExclusive m pc) where
  -- A lock that returns found no thread inside.
  pub lock-IsExclusive : lock m i ≡ some m' → is_inside p ≡ true → IsExclusive m' (update pc i p)
  lock-IsExclusive e t =
      let (free, held) = lock_lem m m' i e in
      record {
        inside = λ j u. elim (moved is_inside pc i p j u) [
          | inl (q, _) ↦ held ∙ ap taken (sym q)
          | inr (_, v) ↦
              let w : none ≡ some j = sym free ∙ ap (λ (n : Mutex). n.owner) (h.inside j v) in cc
        ];
        outside = inr (i, held, at_self is_inside pc i p t);
      }

  -- A release makes the mutex free.
  pub release-IsExclusive :
      is_inside (pc i) ≡ true → m' ≡ init → is_inside p ≡ false → IsExclusive m' (update pc i p)
  release-IsExclusive t e f = record {
    inside = λ j u. elim (moved is_inside pc i p j u) [
      | inl (_, v) ↦ let w : true ≡ false = sym v ∙ f in cc
      | inr (d, v) ↦
          let w : some j ≡ some i =
            ap (λ (n : Mutex). n.owner) (sym (h.inside j v) ∙ h.inside i t) in
          let q : j ≡ i = cc in absurd (d q)
    ];
    outside = inl e;
  }

  own : is_inside (pc i) ≡ true → m ≡ taken i
  own t = h.inside i t

  pub released : is_inside (pc i) ≡ true → unlock m i ≡ ok m' → m' ≡ init
  released t e =
      let w : ok init ≡ ok m' = sym (unlock-taken i) ∙ ap (λ n. unlock n i) (sym (own t)) ∙ e in cc

  pub waited : is_inside (pc i) ≡ true → begin_wait m i ≡ ok m' → m' ≡ init
  waited t e =
      let w : ok init ≡ ok m' =
        sym (begin_wait-taken i) ∙ ap (λ n. begin_wait n i) (sym (own t)) ∙ e in
      cc

module _ (m : Mutex) (pc : ℕ → Pc) (h : IsExclusive m pc) where
  -- A thread that stays inside, or outside.
  pub stay-IsExclusive :
      (i : ℕ) (p : Pc) → is_inside p ≡ is_inside (pc i) → IsExclusive m (update pc i p)
  stay-IsExclusive i p e = record {
    inside = λ j u. elim (moved is_inside pc i p j u) [
      | inl (q, v) ↦ subst (λ k. m ≡ taken k) (sym q) (h.inside i (sym e ∙ v))
      | inr (_, v) ↦ h.inside j v
    ];
    outside = elim h.outside [ inl free ↦ inl free | inr (k, held, v) ↦ inr (k, held, same k v) ];
  }
    where
      same : (k : ℕ) → is_inside (pc k) ≡ true → is_inside (update pc i p k) ≡ true
      same k v = elim (ℕ_discrete k i) [
        | yes q ↦
            ap (λ n. is_inside (update pc i p n)) q
            ∙ ap is_inside (update_self pc i p)
            ∙ e
            ∙ ap (λ n. is_inside (pc n)) (sym q)
            ∙ v
        | no q ↦ ap is_inside (update_ne pc i p k q) ∙ v
      ]

  inside-notified : (p : Pc) → is_inside (notified p) ≡ is_inside p
  inside-notified p = elim (notified_cases p) [ inl e ↦ rw e refl | inr e ↦ ap is_inside e ]

  pub notify_all-IsExclusive : IsExclusive m (notify_all pc)
  notify_all-IsExclusive = record {
    inside = λ j u. h.inside j (sym (inside-notified (pc j)) ∙ u);
    outside = elim h.outside [
      | inl free ↦ inl free
      | inr (k, held, v) ↦ inr (k, held, inside-notified (pc k) ∙ v)
    ];
  }

-- A step that leaves the count alone.
pub move-IsCounted :
    (n d : ℕ) (c : ℤ) (pc : ℕ → Pc) (i : ℕ) (p : Pc)
    → IsCounted n c d pc
    → (is_past p ≡ true → pos_part c ≡ 0)
    → (is_asleep p ≡ true → 0 < pos_part c)
    → IsCounted n c d (update pc i p)
move-IsCounted n d c pc i p h a b = record {
  total = h.total;
  past = λ j u. elim (moved is_past pc i p j u) [ inl (_, v) ↦ a v | inr (_, v) ↦ h.past j v ];
  sleeping =
      λ j u. elim (moved is_asleep pc i p j u) [ inl (_, v) ↦ b v | inr (_, v) ↦ h.sleeping j v ];
}
