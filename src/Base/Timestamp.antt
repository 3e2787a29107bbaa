-- ===== src/Base/Timestamp.antt =====
-- base/CTimestamp.h and base/CTimestamp.cpp: a time in microseconds since 1970, an `int64_t`.
pub mod Laws
mod Format
mod Tests
use neconet.Prelude.{
  ℕ, zero, suc, ◌/◌, ◌%◌, ◌^◌, Bool, true, false, not, ltb, if◌then◌else◌, Outcome, ok, err,
  overflow, ◌>>=◌, ◌∷◌, ◌++◌,
}
use neconet.Base.Text.{Text, signed, zero_padded, padded, snprintf}
use neconet.Prelude.Int.{ℤ, pos, negsuc, ◌+ℤ◌, ◌-ℤ◌, ◌*ℤ◌, ltb_ℤ}

abbrev pub Timestamp : Type 0
Timestamp = ℤ

abbrev pub micro_seconds_per_second : ℕ
micro_seconds_per_second = 1000000

-- `-n`, and C++'s quotient and remainder by a positive number, which round towards 0.
abbrev pub minus : ℕ → ℤ
minus zero = pos 0
minus (suc n) = negsuc n

abbrev pub quotient : ℤ → ℕ → ℤ
quotient (pos n) k = pos (n / k)
quotient (negsuc n) k = minus (suc n / k)

abbrev pub remainder : ℤ → ℕ → ℤ
remainder (pos n) k = pos (n % k)
remainder (negsuc n) k = minus (suc n % k)

-- A result outside `int64_t` is undefined.
abbrev pub in_int64 : ℤ → Bool
in_int64 (pos n) = ltb n (2 ^ 63)
in_int64 (negsuc n) = ltb n (2 ^ 63)

abbrev pub to_int64 : ℤ → Outcome ℤ
to_int64 z = if in_int64 z then ok z else err overflow

abbrev pub invalid : Timestamp
invalid = pos 0

abbrev pub is_valid : Timestamp → Bool
is_valid t = ltb_ℤ (pos 0) t

-- `lhs < rhs` and `lhs > rhs`; `<=` and `>=` are their negations.
abbrev pub earlier : Timestamp → Timestamp → Bool
earlier lhs rhs = ltb_ℤ lhs rhs

abbrev pub at_most : Timestamp → Timestamp → Bool
at_most lhs rhs = not (ltb_ℤ rhs lhs)

abbrev pub seconds_since_epoch : Timestamp → ℤ
seconds_since_epoch t = quotient t micro_seconds_per_second

pub from_unix_time : ℤ → ℤ → Outcome Timestamp
from_unix_time t micro_seconds = do
  product ← to_int64 (t *ℤ pos micro_seconds_per_second)
  to_int64 (product +ℤ micro_seconds)

-- The delay is `seconds * sm_nMicroSecondsPerSecond`, a floating-point product that is cut to an integer:
-- `delta` is this integer.
unfoldable pub add_time : Timestamp → ℤ → Outcome Timestamp
add_time t delta = to_int64 (t +ℤ delta)

-- The difference in microseconds, which `TimeDifference` divides as a floating-point number.
unfoldable pub difference : Timestamp → Timestamp → Outcome ℤ
difference high low = to_int64 (high -ℤ low)

-- `ToString`: 31 bytes of the buffer are given to snprintf.
unfoldable pub to_string : Timestamp → Text
to_string t = snprintf 31 (
    signed (seconds_since_epoch t) ++ (b'.' ∷ zero_padded 6 (remainder t micro_seconds_per_second)))

-- `struct tm`, without the fields that are not read.
pub record Tm : Type 0 where
  pub year : ℤ
  pub mon : ℤ
  pub mday : ℤ
  pub hour : ℤ
  pub minute : ℤ
  pub sec : ℤ

-- `%4d`: blanks come in front of the sign.
abbrev pub blank_padded : ℕ → ℤ → Text
blank_padded width n = padded b' ' width (signed n)

abbrev pub date_text : Tm → Text
date_text m =
    blank_padded 4 (m.year +ℤ pos 1900)
    ++ zero_padded 2 (m.mon +ℤ pos 1)
    ++ zero_padded 2 m.mday
    ++ (b' '
        ∷ (zero_padded 2 m.hour
            ++ (b':' ∷ (zero_padded 2 m.minute ++ (b':' ∷ zero_padded 2 m.sec)))))

-- `ToFormattedString`, with `gmtime_r`.
pub to_formatted_string : (ℤ → Tm) → Timestamp → Bool → Text
to_formatted_string gmtime t show_microseconds =
    let date = date_text (gmtime (seconds_since_epoch t)) in
    if show_microseconds
    then snprintf 64 (date ++ (b'.' ∷ zero_padded 6 (remainder t micro_seconds_per_second)))
    else snprintf 64 date

abbrev pub swap : Timestamp → Timestamp → Timestamp × Timestamp
swap a b = (b, a)

-- `GetNowTimestamp`, from what `gettimeofday` gives.
pub now_timestamp : ℤ → ℤ → Outcome Timestamp
now_timestamp sec usec = do
  product ← to_int64 (sec *ℤ pos micro_seconds_per_second)
  to_int64 (product +ℤ usec)
