-- ===== src/Base/Text/Tests.antt =====
-- Decimal texts of small numbers.
use neconet.Prelude.{◌≡◌, refl, [], ◌∷◌}
use neconet.Prelude.Int.{pos, negsuc}
use neconet.Base.Text.{decimal, signed, padded, zero_padded, snprintf}

decimal_zero : decimal 0 ≡ b'0' ∷ []
unfolding decimal
decimal_zero = refl

decimal_three : decimal 407 ≡ b'4' ∷ b'0' ∷ b'7' ∷ []
unfolding decimal
decimal_three = refl

signed_negative : signed (negsuc 11) ≡ b'-' ∷ b'1' ∷ b'2' ∷ []
unfolding signed
signed_negative = refl

zeros : zero_padded 6 (pos 345) ≡ b'0' ∷ b'0' ∷ b'0' ∷ b'3' ∷ b'4' ∷ b'5' ∷ []
unfolding zero_padded
zeros = refl

zeros_negative : zero_padded 6 (negsuc 344) ≡ b'-' ∷ b'0' ∷ b'0' ∷ b'3' ∷ b'4' ∷ b'5' ∷ []
unfolding zero_padded
zeros_negative = refl

blanks : padded b' ' 5 (b'4' ∷ b'2' ∷ []) ≡ b' ' ∷ b' ' ∷ b' ' ∷ b'4' ∷ b'2' ∷ []
blanks = refl

cut : snprintf 3 (b'a' ∷ b'b' ∷ b'c' ∷ []) ≡ b'a' ∷ b'b' ∷ []
cut = refl
