-- ===== src/Base/Atomic.antt =====
-- base/CAtomic.h: an integer in two's complement with `w` bits beside the sign, 31 or 63, whose operations are each one step. The
-- compiler's atomic operations wrap; the sum that AddAndGet returns is an ordinary signed one.
mod Laws
mod Tests
use neconet.Prelude.{
  ℕ, suc, ◌-◌, ◌%◌, ◌^◌, Bool, true, false, ltb, if◌then◌else◌, Outcome, ok, err, overflow, ◌>>=◌,
}
use neconet.Prelude.Int.{ℤ, pos, negsuc, ◌+ℤ◌}

-- Is the integer in the range? What does it wrap to?
abbrev pub fits : ℕ → ℤ → Bool
fits w (pos n) = ltb n (2 ^ w)
fits w (negsuc n) = ltb n (2 ^ w)

-- The integer with the residue `r`.
abbrev pub from_residue : ℕ → ℕ → ℤ
from_residue w r = if ltb r (2 ^ w) then pos r else negsuc (2 ^ suc w - 1 - r)

abbrev pub wrap : ℕ → ℤ → ℤ
wrap w (pos n) = from_residue w (n % 2 ^ suc w)
wrap w (negsuc n) = from_residue w (2 ^ suc w - 1 - n % 2 ^ suc w)

-- The constructor, and Get: a compare-and-swap of 0 for 0 gives the value and leaves it.
abbrev pub init : ℤ
init = pos 0

abbrev pub get : ℤ → ℤ
get value = value

-- An operation gives its result and the new value.
unfoldable pub get_and_add : ℕ → ℤ → ℤ → ℤ × ℤ
get_and_add w value x = (value, wrap w (value +ℤ x))

unfoldable pub add_and_get : ℕ → ℤ → ℤ → Outcome (ℤ × ℤ)
unfolding get_and_add
add_and_get w value x = do
  let (old, next) = get_and_add w value x
  if fits w (old +ℤ x) then ok (old +ℤ x, next) else err overflow

unfoldable pub increment_and_get : ℕ → ℤ → Outcome (ℤ × ℤ)
unfolding add_and_get
increment_and_get w value = add_and_get w value (pos 1)

pub decrement_and_get : ℕ → ℤ → Outcome (ℤ × ℤ)
unfolding add_and_get
decrement_and_get w value = add_and_get w value (negsuc 0)

pub add : ℕ → ℤ → ℤ → ℤ
unfolding get_and_add
add w value x = (get_and_add w value x).1

pub increment : ℕ → ℤ → Outcome ℤ
unfolding increment_and_get
increment w value = increment_and_get w value >>= λ r. ok r.1

pub decrement : ℕ → ℤ → Outcome ℤ
unfolding decrement_and_get
decrement w value = decrement_and_get w value >>= λ r. ok r.1

pub get_and_set : ℤ → ℤ → ℤ × ℤ
get_and_set value new_value = (value, new_value)
