-- ===== src/Base/Atomic/Laws.antt =====
-- What an atomic integer gives back is what it then holds.
use neconet.Prelude.{
  ℕ, suc, ◌-◌, ◌%◌, ◌^◌, ◌<◌, ◌≡◌, refl, sym, ap, ◌∙◌, true, false, inl, inr, ltb, ltb→lt, OnOk,
  Bool-cases, arith,
}
use native.Mathlib.Nat.{pow-succ', mod-eq_of_lt}
use neconet.Prelude.Int.{ℤ, pos, negsuc, ◌+ℤ◌}
use neconet.Base.Atomic.{fits, wrap, from_residue, add_and_get, get_and_add}

-- An integer in the range does not change when it wraps.
pub wrap_of_fits : (w : ℕ) (z : ℤ) → fits w z ≡ true → wrap w z ≡ z
wrap_of_fits w (pos n) h =
    let small : n < 2 ^ w = ltb→lt n (2 ^ w) h in
    let keep : n % 2 ^ suc w ≡ n = mod-eq_of_lt (omega (arith, pow-succ' 2 w)) in
    ap (from_residue w) keep ∙ rw h refl
wrap_of_fits w (negsuc n) h =
    let small : n < 2 ^ w = ltb→lt n (2 ^ w) h in
    let keep : n % 2 ^ suc w ≡ n = mod-eq_of_lt (omega (arith, pow-succ' 2 w)) in
    let upper : ltb (2 ^ suc w - 1 - n) (2 ^ w) ≡ false = ground (arith, pow-succ' 2 w, small) in
    let back : 2 ^ suc w - 1 - (2 ^ suc w - 1 - n) ≡ n = omega (arith, pow-succ' 2 w) in
    ap (λ r. from_residue w (2 ^ suc w - 1 - r)) keep ∙ rw upper (ap negsuc back)

-- Whenever AddAndGet has a result, for any width, that is the value that the integer then holds.
pub add_and_get_lem : (w : ℕ) (value x : ℤ) → OnOk (λ r. r.0 ≡ r.1) (add_and_get w value x)
unfolding add_and_get get_and_add
add_and_get_lem w value x = elim (Bool-cases (fits w (value +ℤ x))) [
  | inl h ↦ rw h (sym (wrap_of_fits w (value +ℤ x) h))
  | inr h ↦ rw h tt
]
