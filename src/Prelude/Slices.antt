-- ===== src/Prelude/Slices.antt =====
-- Parts of a list at known lengths: what a copy into a vector reads and writes.
use Prim.Native.Nat.{ℕ, zero, suc, ◌+◌, ◌-◌, ◌≤◌}
use mathlib.Core.Path.{◌≡◌, refl, sym, ap, ◌∙◌}
use mathlib.Core.List.{List, [], ◌∷◌, ◌++◌, append_assoc}
use native.Mathlib.Omega.{arith}
use neconet.Prelude.Lists.{
  length, take, drop, length-append, length-take, length-drop, take-append-drop,
}

module _ {ℓ} {A : Type ℓ} where
  -- `n` elements from index `i`.
  abbrev pub slice : List A → ℕ → ℕ → List A
  slice xs i n = take n (drop i xs)

  -- `ys` written over `xs` from index `i` on.
  abbrev pub overwrite : List A → ℕ → List A → List A
  overwrite xs i ys = take i xs ++ (ys ++ drop (i + length ys) xs)

  pub take-append_left : (n : ℕ) (xs ys : List A) → n ≡ length xs → take n (xs ++ ys) ≡ xs
  take-append_left zero [] ys e = refl
  take-append_left zero (x ∷ xs) ys e = absurd (omega arith)
  take-append_left (suc n) [] ys e = absurd (omega arith)
  take-append_left (suc n) (x ∷ xs) ys e = ap (λ l. x ∷ l) (take-append_left n xs ys (omega arith))

  pub drop-append_left : (n : ℕ) (xs ys : List A) → n ≡ length xs → drop n (xs ++ ys) ≡ ys
  drop-append_left zero [] ys e = refl
  drop-append_left zero (x ∷ xs) ys e = absurd (omega arith)
  drop-append_left (suc n) [] ys e = absurd (omega arith)
  drop-append_left (suc n) (x ∷ xs) ys e = drop-append_left n xs ys (omega arith)

  pub take_all : (n : ℕ) (xs : List A) → length xs ≤ n → take n xs ≡ xs
  take_all zero [] h = refl
  take_all zero (x ∷ xs) h = absurd (omega arith)
  take_all (suc n) [] h = refl
  take_all (suc n) (x ∷ xs) h = ap (λ l. x ∷ l) (take_all n xs (omega arith))

  pub drop_all : (n : ℕ) (xs : List A) → length xs ≤ n → drop n xs ≡ []
  drop_all zero [] h = refl
  drop_all zero (x ∷ xs) h = absurd (omega arith)
  drop_all (suc n) [] h = refl
  drop_all (suc n) (x ∷ xs) h = drop_all n xs (omega arith)

  pub drop-drop : (m n : ℕ) (xs : List A) → drop n (drop m xs) ≡ drop (m + n) xs
  drop-drop zero n xs = ap (λ k. drop k xs) (omega arith)
  drop-drop (suc m) n [] = drop_all n [] (omega arith) ∙ sym (drop_all (suc m + n) [] (omega arith))
  drop-drop (suc m) n (x ∷ xs) =
      let e : suc m + n ≡ suc (m + n) = omega arith in rw e (drop-drop m n xs)

  pub drop-take : (k n : ℕ) (xs : List A) → drop k (take n xs) ≡ take (n - k) (drop k xs)
  drop-take zero n xs = ap (λ m. take m xs) (omega arith)
  drop-take (suc k) zero xs =
      let e : zero - suc k ≡ 0 = omega arith in rw e (drop_all (suc k) [] (omega arith))
  drop-take (suc k) (suc n) [] = sym (take_all (suc n - suc k) [] (omega arith))
  drop-take (suc k) (suc n) (x ∷ xs) = drop-take k n xs ∙ ap (λ m. take m (drop k xs)) (omega arith)

  -- The end of a slice is a slice.
  pub drop-slice : (xs : List A) (i n k : ℕ) → drop k (slice xs i n) ≡ slice xs (i + k) (n - k)
  drop-slice xs i n k = drop-take k n (drop i xs) ∙ ap (take (n - k)) (drop-drop i k xs)

  -- A middle part of known length is what `slice` reads.
  pub slice-append :
      (i n : ℕ) (xs ys zs : List A)
      → i ≡ length xs
      → n ≡ length ys
      → slice (xs ++ (ys ++ zs)) i n ≡ ys
  slice-append i n xs ys zs p q =
      rw (drop-append_left i xs (ys ++ zs) p) (take-append_left n ys zs q)

  -- Every list is what stands before a slice, the slice, and the rest.
  pub slice_split : (xs : List A) (i n : ℕ) → xs ≡ take i xs ++ (slice xs i n ++ drop (i + n) xs)
  slice_split xs i n =
      sym (take-append-drop i xs)
      ∙ ap (λ l. take i xs ++ l)
          (sym (take-append-drop n (drop i xs)) ∙ ap (λ l. slice xs i n ++ l) (drop-drop i n xs))

  pub length-slice : (xs : List A) (i n : ℕ) → i + n ≤ length xs → length (slice xs i n) ≡ n
  length-slice xs i n h = omega (arith, length-take n (drop i xs), length-drop i xs)

  pub length-overwrite :
      (xs ys : List A) (i : ℕ) → i + length ys ≤ length xs → length (overwrite xs i ys) ≡ length xs
  length-overwrite xs ys i h = omega (
    arith,
    length-append (take i xs) (ys ++ drop (i + length ys) xs),
    length-append ys (drop (i + length ys) xs),
    length-take i xs,
    length-drop (i + length ys) xs,
  )

  -- Bytes written just behind a slice extend it.
  pub slice-overwrite_end :
      (xs ys : List A) (i n : ℕ)
      → i + n + length ys ≤ length xs
      → slice (overwrite xs (i + n) ys) i (n + length ys) ≡ slice xs i n ++ ys
  slice-overwrite_end xs ys i n h =
      ap (λ l. slice l i (n + length ys)) regroup
      ∙ slice-append i (n + length ys) (take i xs) (slice xs i n ++ ys) rest
          (omega (arith, length-take i xs))
          (omega (arith, length-append (slice xs i n) ys, length-slice xs i n))
    where
      rest : List A
      rest = drop (i + n + length ys) xs

      front : take (i + n) xs ≡ take i xs ++ slice xs i n
      front =
          ap (take (i + n))
            (slice_split xs i n ∙ sym (append_assoc (take i xs) (slice xs i n) (drop (i + n) xs)))
          ∙ take-append_left (i + n) (take i xs ++ slice xs i n) (drop (i + n) xs) (
              omega (
                arith,
                length-append (take i xs) (slice xs i n),
                length-slice xs i n,
                length-take i xs,
              ))

      regroup : overwrite xs (i + n) ys ≡ take i xs ++ ((slice xs i n ++ ys) ++ rest)
      regroup = rw (front) (simp append_assoc)

  -- Bytes written just before a slice are put in front of it.
  pub slice-overwrite_front :
      (xs ys : List A) (i n : ℕ)
      → i + length ys + n ≤ length xs
      → slice (overwrite xs i ys) i (length ys + n) ≡ ys ++ slice xs (i + length ys) n
  slice-overwrite_front xs ys i n h =
      ap (λ l. slice l i (length ys + n)) regroup
      ∙ slice-append i (length ys + n) (take i xs) (ys ++ slice xs (i + length ys) n) rest
          (omega (arith, length-take i xs))
          (omega (
            arith,
            length-append ys (slice xs (i + length ys) n),
            length-slice xs (i + length ys) n,
          ))
    where
      rest : List A
      rest = drop n (drop (i + length ys) xs)

      regroup : overwrite xs i ys ≡ take i xs ++ ((ys ++ slice xs (i + length ys) n) ++ rest)
      regroup =
          rw (append_assoc ys (slice xs (i + length ys) n) rest)
            (ap (λ l. take i xs ++ (ys ++ l)) (sym (take-append-drop n (drop (i + length ys) xs))))

  -- What is written is what is read back.
  pub slice-overwrite_self :
      (xs ys : List A) (i : ℕ)
      → i + length ys ≤ length xs
      → slice (overwrite xs i ys) i (length ys) ≡ ys
  slice-overwrite_self xs ys i h =
      slice-append i (length ys) (take i xs) ys (drop (i + length ys) xs)
        (omega (arith, length-take i xs)) refl

  -- A slice inside a list does not see what is appended.
  pub slice-append_left :
      (xs ys : List A) (i n : ℕ) → i + n ≤ length xs → slice (xs ++ ys) i n ≡ slice xs i n
  slice-append_left xs ys i n h =
      ap (λ l. slice (l ++ ys) i n) (slice_split xs i n)
      ∙ ap (λ l. slice l i n) (simp append_assoc)
      ∙ slice-append i n (take i xs) (slice xs i n) (drop (i + n) xs ++ ys)
          (omega (arith, length-take i xs)) (omega (arith, length-slice xs i n))
