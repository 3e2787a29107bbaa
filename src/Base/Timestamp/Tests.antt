-- ===== src/Base/Timestamp/Tests.antt =====
-- CTimestamp: the theorems at inputs that meet their hypotheses.
use neconet.Prelude.{[], ◌∷◌, ◌≡◌, refl, arith, true}
use neconet.Prelude.Int.{pos, negsuc, ◌+ℤ◌}
use neconet.Base.Timestamp.{to_string, in_int64}
use neconet.Base.Text.{digits, decimal, signed, zero_padded}
use neconet.Base.Timestamp.Format.{microseconds, microseconds-to_string}

in_range : in_int64 (negsuc 4 +ℤ pos 7) ≡ true
unfolding ◌+ℤ◌
in_range = refl

microseconds-to_string_example : microseconds 0 (to_string (pos 1500000)) ≡ 1500000
microseconds-to_string_example = microseconds-to_string 1500000 (omega arith)

-- 1.500000.
second_and_half :
    to_string (pos 1500000) ≡ b'1' ∷ b'.' ∷ b'5' ∷ b'0' ∷ b'0' ∷ b'0' ∷ b'0' ∷ b'0' ∷ []
unfolding to_string signed zero_padded decimal digits
second_and_half = refl

-- Before 1970 both parts have a sign: 0.-00005.
before : to_string (negsuc 4) ≡ b'0' ∷ b'.' ∷ b'-' ∷ b'0' ∷ b'0' ∷ b'0' ∷ b'0' ∷ b'5' ∷ []
unfolding to_string signed zero_padded decimal digits
before = refl
