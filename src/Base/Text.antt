-- ===== src/Base/Text.antt =====
-- Numbers as text, the way `snprintf` writes them for the code: `%d`, a width with blanks and one with
-- zeros. A character is its code.
pub mod Laws
mod Tests
use neconet.Prelude.{
  ℕ, zero, suc, ◌+◌, ◌-◌, ◌*◌, ◌/◌, ◌%◌, List, [], ◌∷◌, ◌++◌, length, replicate, take, ltb, ◌==◌,
  ◌&&◌, Bool, true, false, if◌then◌else◌,
}
use neconet.Prelude.Int.{ℤ, pos, negsuc}

abbrev pub Text : Type 0
Text = List ℕ

-- The digits of `n`, on fuel: `n` itself is enough, since it is divided by ten.
unfoldable pub digits : ℕ → ℕ → Text
digits zero n = (b'0' + n % 10) ∷ []
digits (suc fuel) n =
    let front = digits fuel (n / 10) in
    if ltb n 10 then (b'0' + n) ∷ [] else front ++ ((b'0' + n % 10) ∷ [])

unfoldable pub decimal : ℕ → Text
unfolding digits
decimal n = digits n n

-- `%d` of a signed integer.
unfoldable pub signed : ℤ → Text
unfolding decimal
signed (pos n) = decimal n
signed (negsuc n) = b'-' ∷ decimal (suc n)

-- A text in at least `width` places, behind blanks or zeros.
abbrev pub padded : ℕ → ℕ → Text → Text
padded blank width t = replicate (width - length t) blank ++ t

-- `%06` of a signed integer: the sign stands in front of the zeros and counts as a place.
unfoldable pub zero_padded : ℕ → ℤ → Text
unfolding decimal
zero_padded width (pos n) = padded b'0' width (decimal n)
zero_padded width (negsuc n) = b'-' ∷ padded b'0' (width - 1) (decimal (suc n))

-- `snprintf` into a buffer of `size` bytes keeps a byte for the end mark.
abbrev pub snprintf : ℕ → Text → Text
snprintf size t = take (size - 1) t

-- The number that digits spell, behind `n`.
unfoldable pub value : ℕ → Text → ℕ
value n [] = n
value n (c ∷ t) = value (n * 10 + (c - b'0')) t

abbrev pub text_eq : Text → Text → Bool
text_eq [] [] = true
text_eq [] (d ∷ t) = false
text_eq (c ∷ s) [] = false
text_eq (c ∷ s) (d ∷ t) = (c == d) && text_eq s t

-- A map with texts as keys, after an assignment.
abbrev pub update_text {ℓ} : {A : Type ℓ} → (Text → A) → Text → A → Text → A
update_text f k v j = if text_eq j k then v else f j
