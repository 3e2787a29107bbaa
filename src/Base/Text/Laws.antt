-- ===== src/Base/Text/Laws.antt =====
-- Decimal texts can be read back, so different numbers have different texts, and they are short.
use neconet.Prelude.{
  ℕ, zero, suc, ◌+◌, ◌-◌, ◌*◌, ◌/◌, ◌%◌, ◌^◌, ◌≤◌, ◌<◌, ◌≡◌, refl, sym, ap, ◌∙◌, inl, inr, true,
  false, [], ◌∷◌, ◌++◌, length, length-append, ltb, arith, Bool-cases, ◌==◌, ==_iff, ◌≢◌, ◌&&◌,
  Bool, ap₂,
}
use native.Mathlib.Nat.{pow-succ'}
use neconet.Base.Text.{Text, digits, decimal, value, text_eq, update_text}

pub value-append : (n : ℕ) (s t : Text) → value n (s ++ t) ≡ value (value n s) t
unfolding value
value-append n [] t = refl
value-append n (c ∷ s) t = value-append (n * 10 + (c - b'0')) s t

value-digits : (fuel n : ℕ) → n ≤ fuel → value 0 (digits fuel n) ≡ n
unfolding value digits
value-digits zero n h = omega arith
value-digits (suc fuel) n h = elim (Bool-cases (ltb n 10)) [
  | inl t ↦ rw t (omega arith)
  | inr f ↦ rw f (
      value-append 0 (digits fuel (n / 10)) ((b'0' + n % 10) ∷ [])
      ∙ ap (λ m. m * 10 + (b'0' + n % 10 - b'0')) (value-digits fuel (n / 10) (ground arith))
      ∙ omega arith)
]

-- The digits of a number spell it.
pub value-decimal : (n : ℕ) → value 0 (decimal n) ≡ n
unfolding decimal
value-decimal n = value-digits n n (omega arith)

pub decimal_injective : (m n : ℕ) → decimal m ≡ decimal n → m ≡ n
decimal_injective m n h = sym (value-decimal m) ∙ ap (value 0) h ∙ value-decimal n

length-digits : (k fuel n : ℕ) → n < 10 ^ suc k → n ≤ fuel → length (digits fuel n) ≤ suc k
unfolding digits
length-digits k zero n h f = omega arith
length-digits zero (suc fuel) n h f = let t : ltb n 10 ≡ true = ground arith in rw t (omega arith)
length-digits (suc k) (suc fuel) n h f = elim (Bool-cases (ltb n 10)) [
  | inl t ↦ rw t (omega arith)
  | inr g ↦ rw g (
      omega (
        arith,
        length-append (digits fuel (n / 10)) ((b'0' + n % 10) ∷ []),
        length-digits k fuel (n / 10) (omega (arith, pow-succ' 10 (suc k))) (ground arith),
      ))
]

-- A number below 10^k has at most k digits.
pub length-decimal : (k n : ℕ) → n < 10 ^ suc k → length (decimal n) ≤ suc k
unfolding decimal
length-decimal k n h = length-digits k n n h (omega arith)

-- Equality of texts, the way a map's search decides it.
pub text_eq_self : (s : Text) → text_eq s s ≡ true
text_eq_self [] = refl
text_eq_self (c ∷ s) = rw ((==_iff c c).1 refl) (text_eq_self s)

and_split : (a b : Bool) → (a && b) ≡ true → (a ≡ true) × (b ≡ true)
and_split true b h = (refl, h)
and_split false b h = cc

pub text_eq_sound : (s t : Text) → text_eq s t ≡ true → s ≡ t
text_eq_sound [] [] h = refl
text_eq_sound [] (d ∷ t) h = cc
text_eq_sound (c ∷ s) [] h = cc
text_eq_sound (c ∷ s) (d ∷ t) h =
    let (e, r) = and_split (c == d) (text_eq s t) h in
    ap₂ ◌∷◌ ((==_iff c d).0 e) (text_eq_sound s t r)

pub update_text_self {ℓ} : {A : Type ℓ} (f : Text → A) (k : Text) (v : A) → update_text f k v k ≡ v
update_text_self f k v = rw (text_eq_self k) refl

pub update_text_ne {ℓ} :
    {A : Type ℓ} (f : Text → A) (k : Text) (v : A) (j : Text) → j ≢ k → update_text f k v j ≡ f j
update_text_ne f k v j h = elim (Bool-cases (text_eq j k)) [
  | inl e ↦ absurd (h (text_eq_sound j k e))
  | inr e ↦ rw e refl
]
