-- ===== src/Net/Address/Order.antt =====
-- Reversing the bytes of a number twice gives the number.
use neconet.Prelude.{
  ℕ, zero, suc, ◌+◌, ◌*◌, ◌/◌, ◌^◌, ◌<◌, ◌≡◌, refl, ap, ap₂, ◌∙◌, subst, List, [], ◌∷◌, arith,
}
use neconet.Net.Address.{bytes, number, swapped}
use mathlib.Core.List.{reverse, reverse_aux, reverse-reverse}
use native.Mathlib.Nat.{pow-succ'}

-- `k` bytes.
pub data IsWord : ℕ → List ℕ → Type 0 where
  empty : IsWord 0 []
  next : {k b : ℕ} {t : List ℕ} → b < 256 → IsWord k t → IsWord (suc k) (b ∷ t)

bytes-IsWord : (k n : ℕ) → IsWord k (bytes k n)
bytes-IsWord zero n = empty
bytes-IsWord (suc k) n = next (omega arith) (bytes-IsWord k (n / 256))

number-bytes : (k n : ℕ) → n < 256 ^ k → number (bytes k n) ≡ n
number-bytes zero n h = omega arith
number-bytes (suc k) n h =
    omega (arith, number-bytes k (n / 256) (omega (arith, pow-succ' 256 k)), pow-succ' 256 k)

bytes-number : (k : ℕ) (t : List ℕ) → IsWord k t → bytes k (number t) ≡ t
bytes-number zero [] empty = refl
bytes-number zero (b ∷ t) w = elim w [ ]
bytes-number (suc k) [] w = elim w [ ]
bytes-number (suc k) (b ∷ t) (next h w) = ap₂ ◌∷◌ (omega arith) (
    ap (bytes k) (let e : (b + 256 * number t) / 256 ≡ number t = omega arith in e)
    ∙ bytes-number k t w)

reverse_aux-IsWord :
    (j k : ℕ) (s t : List ℕ) → IsWord j s → IsWord k t → IsWord (j + k) (reverse_aux s t)
reverse_aux-IsWord zero k [] t v w = subst (λ n. IsWord n t) (omega arith) w
reverse_aux-IsWord zero k (b ∷ s) t v w = elim v [ ]
reverse_aux-IsWord (suc j) k [] t v w = elim v [ ]
reverse_aux-IsWord (suc j) k (b ∷ s) t (next h v) w =
    subst (λ n. IsWord n (reverse_aux s (b ∷ t))) (omega arith)
      (reverse_aux-IsWord j (suc k) s (b ∷ t) v (next h w))

pub swapped-swapped : (k n : ℕ) → n < 256 ^ k → swapped k (swapped k n) ≡ n
unfolding swapped
swapped-swapped k n h =
    let w : IsWord k (reverse (bytes k n)) =
      subst (λ m. IsWord m (reverse (bytes k n))) (omega arith)
        (reverse_aux-IsWord k 0 (bytes k n) [] (bytes-IsWord k n) empty) in
    ap (λ t. number (reverse t)) (bytes-number k (reverse (bytes k n)) w)
    ∙ ap number (reverse-reverse (bytes k n))
    ∙ number-bytes k n h
