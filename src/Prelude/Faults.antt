-- ===== src/Prelude/Faults.antt =====
-- What a call ends in: a value, or a fault that stops the program.
use mathlib.Core.Path.{◌≡◌, refl}
use mathlib.Core.Bool.{Bool, true, false}
use neconet.Prelude.Tests.{if◌then◌else◌}

-- `assertion` is a failed `assert`; `out_of_bounds` an access outside a vector; `no_element` a
-- dereferenced missing map entry; `length_error` what `std::vector::resize` throws; `no_return` the
-- undefined result of a function that flows off its end; `overflow`, that of a signed sum; `not_owner`, an
-- unlock of another thread's mutex; `aborted`, a call of `abort`.
pub data Fault : Type 0 where
  assertion out_of_bounds no_element length_error no_return overflow not_owner aborted : Fault

pub data Outcome {ℓ} (A : Type ℓ) : Type ℓ where
  ok : A → Outcome A
  err : Fault → Outcome A

infixl 5 ◌>>=◌ ◌>>◌
abbrev pub ◌>>=◌ {ℓ κ} : {A : Type ℓ} {B : Type κ} → Outcome A → (A → Outcome B) → Outcome B
ok a >>= f = f a
err e >>= f = err e

abbrev pub ◌>>◌ {ℓ} : {B : Type ℓ} → Outcome (Unit {0}) → Outcome B → Outcome B
m >> k = m >>= λ _. k

abbrev pub guard : Bool → Fault → Outcome (Unit {0})
guard true e = ok tt
guard false e = err e

-- `assert(b)`.
abbrev pub assert : Bool → Outcome (Unit {0})
assert b = guard b assertion

-- What holds of the value, if there is one.
abbrev pub OnOk {ℓ κ} : {A : Type ℓ} → (A → Type κ) → Outcome A → Type κ
OnOk P (ok a) = P a
OnOk P (err e) = Unit

abbrev pub map_ok {ℓ κ} : {A : Type ℓ} {B : Type κ} → (A → B) → Outcome A → Outcome B
map_ok f (ok a) = ok (f a)
map_ok f (err e) = err e

-- A bind, an assertion and a test keep what their parts keep.
pub OnOk-bind {ℓ κ ℓ' κ'} :
    {A : Type ℓ} {B : Type ℓ'} (P : A → Type κ) (Q : B → Type κ') (m : Outcome A)
    (f : A → Outcome B)
    → OnOk P m
    → ((a : A) → P a → OnOk Q (f a))
    → OnOk Q (m >>= f)
OnOk-bind P Q (ok a) f h k = k a h
OnOk-bind P Q (err e) f h k = tt

pub all_ok {ℓ} : {A : Type ℓ} (m : Outcome A) → OnOk (λ _. Unit {0}) m
all_ok (ok a) = tt
all_ok (err e) = tt

pub OnOk-guard {ℓ κ} :
    {B : Type ℓ} (Q : B → Type κ) (b : Bool) (f : Fault) (m : Outcome B)
    → OnOk Q m
    → OnOk Q (guard b f >> m)
OnOk-guard Q true f m h = h
OnOk-guard Q false f m h = tt

pub OnOk-assert {ℓ κ} :
    {B : Type ℓ} (Q : B → Type κ) (b : Bool) (m : Outcome B) → OnOk Q m → OnOk Q (assert b >> m)
OnOk-assert Q b m h = OnOk-guard Q b assertion m h

pub OnOk-if {ℓ κ} :
    {B : Type ℓ} (Q : B → Type κ) (b : Bool) (m n : Outcome B)
    → (b ≡ true → OnOk Q m)
    → (b ≡ false → OnOk Q n)
    → OnOk Q (if b then m else n)
OnOk-if Q true m n h k = h refl
OnOk-if Q false m n h k = k refl

pub OnOk-map {ℓ κ κ'} :
    {A : Type ℓ} (P : A → Type κ) (Q : A → Type κ') (m : Outcome A)
    → ((a : A) → P a → Q a)
    → OnOk P m
    → OnOk Q m
OnOk-map P Q (ok a) f h = f a h
OnOk-map P Q (err e) f h = tt

pub OnOk-check {ℓ κ} :
    {B : Type ℓ} (Q : B → Type κ) (b : Bool) (m : Outcome B)
    → (b ≡ true → OnOk Q m)
    → OnOk Q (assert b >> m)
OnOk-check Q true m h = h refl
OnOk-check Q false m h = tt
