-- ===== src/Net/LoopThread/Inv.antt =====
-- The invariant of CEventLoopThread: the pointer, the flags and the ends of the two threads.
use neconet.Prelude.{refl, ℕ, ◌≡◌, sym, ◌∙◌, Bool, true, false, ◌||◌, inl, inr, ap, Bool-cases}
use neconet.Base.Mutex.{Mutex}
use neconet.Net.LoopThread.{
  caller_to, child_to, Caller, Child, LoopThread, Step, Reachable, outside, wants, testing, asleep,
  woken, leaving, returned, joining, joined, locking, setting, releasing, entering, looping, ended,
  notified, starts, locks, sleeps, wakes, retakes, goes_on, returns, quits, joins, constructs,
  child_locks, sets, child_unlocks, enters, ends, at_first, after, is_ended, others_quit,
}

-- Behind the loop of StartLoop.
abbrev pub is_past : Caller → Bool
is_past leaving = true
is_past returned = true
is_past joining = true
is_past joined = true
is_past _ = false

-- In the destructor, behind the flag.
abbrev is_leaving : Caller → Bool
is_leaving joining = true
is_leaving joined = true
is_leaving _ = false

abbrev pub is_joined : Caller → Bool
is_joined joined = true
is_joined _ = false

abbrev pub is_asleep : Caller → Bool
is_asleep asleep = true
is_asleep _ = false

-- Behind the write of the pointer.
abbrev pub is_set : Child → Bool
is_set releasing = true
is_set entering = true
is_set looping = true
is_set ended = true
is_set _ = false

pub record IsValid (s : LoopThread) : Type 0 where
  pub pointer : s.event_loop ≡ is_set s.child
  pub past : is_past s.caller ≡ true → s.event_loop ≡ true
  pub quitting : s.quit ≡ true → (s.exiting || s.asked) ≡ true
  pub ending : is_ended s.child ≡ true → (s.exiting || s.asked) ≡ true
  pub dangling_asked : s.dangling ≡ true → s.asked ≡ true
  pub leaves_once : s.exiting ≡ true → is_leaving s.caller ≡ true
  pub joining_ended : is_joined s.caller ≡ true → is_ended s.child ≡ true
  pub sleeping : is_asleep s.caller ≡ true → is_set s.child ≡ false

joined-notified : (c : Caller) → is_joined (notified c) ≡ true → is_joined c ≡ true
joined-notified asleep h = cc
joined-notified outside h = cc
joined-notified wants h = cc
joined-notified testing h = cc
joined-notified woken h = cc
joined-notified leaving h = cc
joined-notified returned h = cc
joined-notified joining h = cc
joined-notified joined h = h

leaving-notified : (c : Caller) → is_leaving c ≡ true → is_leaving (notified c) ≡ true
leaving-notified asleep h = cc
leaving-notified outside h = cc
leaving-notified wants h = cc
leaving-notified testing h = cc
leaving-notified woken h = cc
leaving-notified leaving h = cc
leaving-notified returned h = cc
leaving-notified joining h = refl
leaving-notified joined h = refl

none_asleep : (c : Caller) → is_asleep (notified c) ≡ false
none_asleep asleep = refl
none_asleep outside = refl
none_asleep wants = refl
none_asleep testing = refl
none_asleep woken = refl
none_asleep leaving = refl
none_asleep returned = refl
none_asleep joining = refl
none_asleep joined = refl

-- Before the destructor only somebody else has called QuitLoop.
asked_before :
    (s : LoopThread)
    → IsValid s
    → s.caller ≡ returned
    → (s.exiting || s.asked) ≡ true
    → s.asked ≡ true
asked_before s v e h = elim (Bool-cases s.exiting) [
  | inl x ↦ let w : false ≡ true = sym (ap is_leaving e) ∙ v.leaves_once x in cc
  | inr x ↦ sym (ap (λ y. y || s.asked) x) ∙ h
]

-- A step of the caller that leaves the flags alone.
caller_to-IsValid :
    (s : LoopThread) (m : Mutex) (c : Caller)
    → IsValid s
    → (is_past c ≡ true → s.event_loop ≡ true)
    → (is_joined c ≡ true → is_ended s.child ≡ true)
    → (is_asleep c ≡ true → s.event_loop ≡ false)
    → (is_leaving s.caller ≡ true → is_leaving c ≡ true)
    → IsValid (caller_to s c m)
caller_to-IsValid s m c v p j q o = record {
  pointer = v.pointer;
  past = p;
  quitting = v.quitting;
  ending = v.ending;
  dangling_asked = v.dangling_asked;
  leaves_once = λ u. o (v.leaves_once u);
  joining_ended = j;
  sleeping = λ u. sym v.pointer ∙ q u;
}

-- A step of the thread that leaves the pointer alone.
child_to-IsValid :
    (s : LoopThread) (m : Mutex) (k : Child)
    → IsValid s
    → is_set k ≡ is_set s.child
    → (is_ended k ≡ true → (s.exiting || s.asked) ≡ true)
    → (is_ended s.child ≡ true → is_ended k ≡ true)
    → IsValid (child_to s k m)
child_to-IsValid s m k v p e j = record {
  pointer = v.pointer ∙ sym p;
  past = v.past;
  quitting = v.quitting;
  ending = e;
  dangling_asked = v.dangling_asked;
  leaves_once = v.leaves_once;
  joining_ended = λ h. j (v.joining_ended h);
  sleeping = λ u. p ∙ v.sleeping u;
}

or_true : (x : Bool) → (x || true) ≡ true
or_true true = refl
or_true false = refl

pub Step-IsValid : (a b : ℕ) (s t : LoopThread) → Step a b s t → IsValid s → IsValid t
Step-IsValid a b s _ (starts e k) v = record {
  pointer = v.pointer ∙ ap is_set k;
  past = λ u. cc;
  quitting = v.quitting;
  ending = λ u. cc;
  dangling_asked = v.dangling_asked;
  leaves_once =
      λ u. let w : is_leaving Caller.outside ≡ true = sym (ap is_leaving e) ∙ v.leaves_once u in cc;
  joining_ended = λ u. cc;
  sleeping = λ u. cc;
}
Step-IsValid a b s _ (locks {m} e l) v =
    caller_to-IsValid s m testing v (λ u. cc) (λ u. cc) (λ u. cc) (λ u. sym (ap is_leaving e) ∙ u)
Step-IsValid a b s _ (sleeps {m} e p l) v =
    caller_to-IsValid s m asleep v (λ u. cc) (λ u. cc) (λ u. p) (λ u. sym (ap is_leaving e) ∙ u)
Step-IsValid a b s _ (wakes e) v =
    caller_to-IsValid s s.mutex woken v (λ u. cc) (λ u. cc) (λ u. cc)
      (λ u. sym (ap is_leaving e) ∙ u)
Step-IsValid a b s _ (retakes {m} e l) v =
    caller_to-IsValid s m testing v (λ u. cc) (λ u. cc) (λ u. cc) (λ u. sym (ap is_leaving e) ∙ u)
Step-IsValid a b s _ (goes_on e p) v =
    caller_to-IsValid s s.mutex leaving v (λ u. p) (λ u. cc) (λ u. cc)
      (λ u. sym (ap is_leaving e) ∙ u)
Step-IsValid a b s _ (returns {m} e l) v =
    caller_to-IsValid s m returned v (λ u. v.past (ap is_past e)) (λ u. cc) (λ u. cc)
      (λ u. sym (ap is_leaving e) ∙ u)
Step-IsValid a b s _ (quits e) v = record {
  pointer = v.pointer;
  past = λ u. v.past (ap is_past e);
  quitting = λ u. refl;
  ending = λ u. refl;
  dangling_asked = λ u. asked_before s v e (v.ending u);
  leaves_once = λ u. refl;
  joining_ended = λ u. cc;
  sleeping = λ u. cc;
}
Step-IsValid a b s _ (others_quit o k) v = record {
  pointer = v.pointer;
  past = v.past;
  quitting = λ u. or_true s.exiting;
  ending = λ u. or_true s.exiting;
  dangling_asked = λ u. refl;
  leaves_once = v.leaves_once;
  joining_ended = v.joining_ended;
  sleeping = v.sleeping;
}
Step-IsValid a b s _ (joins e k) v =
    caller_to-IsValid s s.mutex joined v (λ u. v.past (ap is_past e)) (λ u. ap is_ended k) (λ u. cc)
      (λ u. refl)
Step-IsValid a b s _ (constructs e) v =
    child_to-IsValid s s.mutex locking v (sym (ap is_set e)) (λ u. cc)
      (λ u. sym (ap is_ended e) ∙ u)
Step-IsValid a b s _ (child_locks {m} e l) v =
    child_to-IsValid s m setting v (sym (ap is_set e)) (λ u. cc) (λ u. sym (ap is_ended e) ∙ u)
Step-IsValid a b s _ (sets e) v = record {
  pointer = refl;
  past = λ u. refl;
  quitting = v.quitting;
  ending = λ u. cc;
  dangling_asked = v.dangling_asked;
  leaves_once = λ u. leaving-notified s.caller (v.leaves_once u);
  joining_ended = λ u. sym (ap is_ended e) ∙ v.joining_ended (joined-notified s.caller u);
  sleeping = λ u. let w : true ≡ false = sym u ∙ none_asleep s.caller in cc;
}
Step-IsValid a b s _ (child_unlocks {m} e l) v =
    child_to-IsValid s m entering v (sym (ap is_set e)) (λ u. cc) (λ u. sym (ap is_ended e) ∙ u)
Step-IsValid a b s _ (enters e) v = record {
  pointer = v.pointer ∙ ap is_set e;
  past = v.past;
  quitting = λ u. cc;
  ending = λ u. cc;
  dangling_asked = v.dangling_asked;
  leaves_once = v.leaves_once;
  joining_ended = λ u. sym (ap is_ended e) ∙ v.joining_ended u;
  sleeping = λ u. let w : true ≡ false = sym (ap is_set e) ∙ v.sleeping u in cc;
}
Step-IsValid a b s _ (ends e q) v =
    child_to-IsValid s s.mutex ended v (sym (ap is_set e)) (λ u. v.quitting q) (λ u. refl)

pub Reachable-IsValid : (a b : ℕ) (s : LoopThread) → Reachable a b s → IsValid s
Reachable-IsValid a b _ at_first = record {
  pointer = refl;
  past = λ u. cc;
  quitting = λ u. cc;
  ending = λ u. cc;
  dangling_asked = λ u. cc;
  leaves_once = λ u. cc;
  joining_ended = λ u. cc;
  sleeping = λ u. cc;
}
Reachable-IsValid a b _ (after {s} {t} r step) =
    Step-IsValid a b s t step (Reachable-IsValid a b s r)
