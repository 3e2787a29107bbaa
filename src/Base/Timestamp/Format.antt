-- ===== src/Base/Timestamp/Format.antt =====
-- The text of a time can be read back.
use neconet.Prelude.{
  ℕ, zero, suc, ◌+◌, ◌-◌, ◌*◌, ◌/◌, ◌%◌, ◌^◌, ◌≤◌, ◌<◌, ◌≡◌, refl, sym, ap, ◌∙◌, false, inl, inr,
  [], ◌∷◌, ◌++◌, append-nil, length, length-append, length-replicate, replicate, take, take_all,
  ltb, ◌==◌, if◌then◌else◌, arith, Bool-cases,
}
use native.Mathlib.Nat.{add-mul, mul_assoc, pow-succ'}
use neconet.Prelude.Int.{pos}
use neconet.Base.Text.{Text, digits, decimal, signed, value, zero_padded, padded}
use neconet.Base.Text.Laws.{value-decimal, length-decimal}
use neconet.Base.Timestamp.{to_string}

-- The number of microseconds that a text spells: its digits, without the point.
abbrev pub microseconds : ℕ → Text → ℕ
microseconds n [] = n
microseconds n (c ∷ t) =
    if c == b'.' then microseconds n t else microseconds (n * 10 + (c - b'0')) t

-- Characters from `0` on.
data IsDigits : Text → Type 0 where
  empty : IsDigits []
  next : {c : ℕ} {t : Text} → b'0' ≤ c → IsDigits t → IsDigits (c ∷ t)

append-IsDigits : (s t : Text) → IsDigits s → IsDigits t → IsDigits (s ++ t)
append-IsDigits [] t v w = w
append-IsDigits (c ∷ s) t (next h v) w = next h (append-IsDigits s t v w)

digits-IsDigits : (fuel n : ℕ) → IsDigits (digits fuel n)
unfolding digits
digits-IsDigits zero n = next (omega arith) empty
digits-IsDigits (suc fuel) n = elim (Bool-cases (ltb n 10)) [
  | inl h ↦ rw h (next (omega arith) empty)
  | inr h ↦ rw h (
      append-IsDigits (digits fuel (n / 10)) ((b'0' + n % 10) ∷ []) (digits-IsDigits fuel (n / 10))
        (next (omega arith) empty))
]

decimal-IsDigits : (n : ℕ) → IsDigits (decimal n)
unfolding decimal
decimal-IsDigits n = digits-IsDigits n n

microseconds-append :
    (n : ℕ) (s t : Text) → IsDigits s → microseconds n (s ++ t) ≡ microseconds (value n s) t
unfolding value
microseconds-append n [] t v = refl
microseconds-append n (c ∷ s) t (next h v) =
    let e : (c == b'.') ≡ false = ground arith in
    rw e (microseconds-append (n * 10 + (c - b'0')) s t v)

zeros-IsDigits : (k : ℕ) → IsDigits (replicate k b'0')
zeros-IsDigits zero = empty
zeros-IsDigits (suc k) = next (omega arith) (zeros-IsDigits k)

value-zeros : (k : ℕ) (t : Text) → value 0 (replicate k b'0' ++ t) ≡ value 0 t
unfolding value
value-zeros zero t = refl
value-zeros (suc k) t = value-zeros k t

moved_up : (n d k v : ℕ) → (n * 10 + d) * 10 ^ k + v ≡ n * 10 ^ suc k + (d * 10 ^ k + v)
moved_up n d k v =
    let p = 10 ^ k in
    let all : (n * 10 + d) * p ≡ n * 10 ^ suc k + d * p =
      add-mul (n * 10) d p
      ∙ ap (λ m. m + d * p) (mul_assoc n 10 p ∙ ap (λ m. n * m) (sym (pow-succ' 10 k))) in
    omega (arith, all)

-- Behind a number, digits move it up.
value_behind : (n : ℕ) (t : Text) → value n t ≡ n * 10 ^ length t + value 0 t
unfolding value
value_behind n [] = omega arith
value_behind n (c ∷ t) =
    let d = c - b'0' in
    let e : 0 * 10 + d ≡ d = omega arith in
    let down : value (0 * 10 + d) t ≡ d * 10 ^ length t + value 0 t =
      ap (λ m. value m t) e ∙ value_behind d t in
    value_behind (n * 10 + d) t
    ∙ moved_up n d (length t) (value 0 t)
    ∙ ap (λ m. n * 10 ^ suc (length t) + m) (sym down)

length-padded : (r : ℕ) → r < 10 ^ 6 → length (padded b'0' 6 (decimal r)) ≡ 6
length-padded r h =
    let short : length (decimal r) ≤ 6 = length-decimal 5 r h in
    let zero_code : ℕ = b'0' in
    let zeros : Text = replicate (6 - length (decimal r)) b'0' in
    omega
      (arith, length-append zeros (decimal r), length-replicate (6 - length (decimal r)) zero_code)

six : (n r : ℕ) → r < 10 ^ 6 → microseconds n (zero_padded 6 (pos r)) ≡ n * 10 ^ 6 + r
unfolding zero_padded
six n r h =
    let wide = length-padded r h in
    ap (microseconds n) (sym (append-nil (padded b'0' 6 (decimal r))))
    ∙ microseconds-append n (padded b'0' 6 (decimal r)) [] (
        append-IsDigits (replicate (6 - length (decimal r)) b'0') (decimal r)
          (zeros-IsDigits (6 - length (decimal r))) (decimal-IsDigits r))
    ∙ value_behind n (padded b'0' 6 (decimal r))
    ∙ ap (λ k. n * 10 ^ k + value 0 (padded b'0' 6 (decimal r))) wide
    ∙ ap (λ m. n * 10 ^ 6 + m) (value-zeros (6 - length (decimal r)) (decimal r) ∙ value-decimal r)

-- For a time from 1970 on, the text is not cut, and its digits spell the time in microseconds.
pub microseconds-to_string : (n : ℕ) → n < 2 ^ 63 → microseconds 0 (to_string (pos n)) ≡ n
unfolding to_string signed zero_padded
microseconds-to_string n h =
    let short : length (decimal (n / 1000000)) ≤ 13 =
      length-decimal 12 (n / 1000000) (omega arith) in
    let tail = b'.' ∷ zero_padded 6 (pos (n % 1000000)) in
    let whole : take 30 (decimal (n / 1000000) ++ tail) ≡ decimal (n / 1000000) ++ tail =
      take_all 30 (decimal (n / 1000000) ++ tail) (
        omega (
          arith,
          length-append (decimal (n / 1000000)) tail,
          length-padded (n % 1000000) (omega arith),
        )) in
    ap (microseconds 0) whole
    ∙ microseconds-append 0 (decimal (n / 1000000)) tail (decimal-IsDigits (n / 1000000))
    ∙ ap (λ m. microseconds m tail) (value-decimal (n / 1000000))
    ∙ six (n / 1000000) (n % 1000000) (omega arith)
    ∙ omega arith
