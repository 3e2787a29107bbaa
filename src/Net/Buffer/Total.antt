-- ===== src/Net/Buffer/Total.antt =====
-- Append for every length: what it leaves whenever it returns.
use neconet.Prelude.{
  ℕ, ◌+◌, ◌-◌, ◌≤◌, OnOk-if, OnOk-assert, OnOk-bind, OnOk-map, all_ok, leb→le, if◌then◌else◌,
  length-overwrite, ◌<◌, ◌≡◌, sym, inl, inr, List, ◌++◌, length, Outcome, ok, err, length_error,
  OnOk, arith, ◌==◌, ltb, leb, subst, take, replicate, length-append, length-take, length-replicate,
}
use native.Mathlib.Decide.{dec_lt, dec_le}
use neconet.Net.Word.{max_size, add_size}
use neconet.Net.Buffer.{
  Buffer, read_at, compact, make_space, begin_write, readable_bytes, writeable_bytes,
  prependable_bytes, append, ensure_writeable, resize, copy_to, cheap_prepend,
}
use neconet.Net.Buffer.Inv.{IsValid, contents, writeable_lem}
use neconet.Net.Buffer.Append.{HasRoom, InGap, append-Holds, append-InGap}

-- The vector would grow beyond the largest size.
ensure_too_large :
    (b : Buffer) (n : ℕ)
    → IsValid b
    → length b.bytes + b.reader_index < b.writer_index + n
    → max_size < b.writer_index + n
    → n ≤ max_size
    → ensure_writeable b n ≡ err length_error
unfolding ensure_writeable
ensure_too_large b n v short large m = ground (arith, writeable_lem b v)

-- Five cases cover every length up to the largest.
data Fit (b : Buffer) (n : ℕ) : Type 0 where
  room : HasRoom b n → Fit b n
  gap : InGap b n → Fit b n
  too_large :
      length b.bytes + b.reader_index < b.writer_index + n → max_size < b.writer_index + n → Fit b n

Fit-cases : (b : Buffer) (n : ℕ) → Fit b n
Fit-cases b n = elim (dec_le (b.writer_index + n) (length b.bytes)) [
  | yes h ↦ room (inl h)
  | no h ↦ elim (dec_lt (length b.bytes + b.reader_index) (b.writer_index + n)) [
    | yes k ↦ elim (dec_le (b.writer_index + n) max_size) [
      | yes m ↦ room (inr (inl (k, m)))
      | no m ↦ too_large k (omega arith)
    ]
    | no k ↦ elim (dec_le (b.writer_index + n + cheap_prepend) (length b.bytes + b.reader_index)) [
      | yes m ↦ room (inr (inr m))
      | no m ↦ gap (omega arith)
    ]
  ]
]

-- No vector is larger than the largest size, whatever `n` is.
IsSmall : Buffer → Type 0
IsSmall c = length c.bytes ≤ max_size

resize-IsSmall : (b : Buffer) (n : ℕ) → OnOk IsSmall (resize b n)
unfolding resize IsSmall
resize-IsSmall b n = OnOk-if _ (leb n max_size) _ _ (λ h. fits (leb→le _ _ h)) (λ _. tt)
  where
    fits : n ≤ max_size → length (take n b.bytes ++ replicate (n - length b.bytes) 0) ≤ max_size
    fits h =
        let e : length (replicate {A = ℕ} (n - length b.bytes) 0) ≡ n - length b.bytes =
          length-replicate {A = ℕ} (n - length b.bytes) 0 in
        omega (
          arith,
          e,
          length-append (take n b.bytes) (replicate (n - length b.bytes) 0),
          length-take n b.bytes,
        )

copy_to-IsSmall :
    (b : Buffer) (i : ℕ) (source : List ℕ) → IsSmall b → OnOk IsSmall (copy_to b i source)
unfolding copy_to IsSmall
copy_to-IsSmall b i source s =
    OnOk-if _ (leb (i + length source) (length b.bytes)) _ _
      (λ h. omega (arith, length-overwrite b.bytes source i (leb→le _ _ h))) (λ _. tt)

compact-IsSmall : (b : Buffer) → IsSmall b → OnOk IsSmall (compact b)
unfolding compact IsSmall
compact-IsSmall b s = OnOk-assert _ (ltb cheap_prepend b.reader_index) _ (
    OnOk-bind _ _ (read_at b b.reader_index (readable_bytes b)) _ (all_ok _) λ readable _.
      OnOk-bind _ _ (copy_to b cheap_prepend readable) _
        (copy_to-IsSmall b cheap_prepend readable s)
        λ c t.
          OnOk-assert IsSmall (readable_bytes b == readable_bytes (relocated c)) (ok (relocated c))
            t)
  where
    relocated : Buffer → Buffer
    relocated c = record c {
      reader_index = cheap_prepend;
      writer_index = add_size cheap_prepend (readable_bytes b);
    }

ensure_writeable-IsSmall : (b : Buffer) (n : ℕ) → IsSmall b → OnOk IsSmall (ensure_writeable b n)
unfolding ensure_writeable
ensure_writeable-IsSmall b n s =
    OnOk-bind IsSmall IsSmall (if ltb (writeable_bytes b) n then make_space b n else ok b) _
      (OnOk-if _ (ltb (writeable_bytes b) n) _ _
        (λ _.
          OnOk-if _ (ltb (add_size (writeable_bytes b) (prependable_bytes b)) n) _ _
            (λ _. resize-IsSmall b _) (λ _. compact-IsSmall b s))
        (λ _. s))
      λ c t. OnOk-assert IsSmall (leb n (writeable_bytes c)) (ok c) t

-- So the copy of a source that is larger fails.
append_huge :
    (b : Buffer) (source : List ℕ)
    → IsValid b
    → max_size < length source
    → OnOk (λ _. ⊥) (append b source)
unfolding append copy_to
append_huge b source v h =
    OnOk-bind IsSmall _ (ensure_writeable b (length source)) _
      (ensure_writeable-IsSmall b (length source) (unfold IsSmall in v.small))
      λ c t.
        OnOk-bind (λ _. ⊥) _ (copy_to c (begin_write c) source) _
          (OnOk-if _ (leb (c.writer_index + length source) (length c.bytes)) _ _
            (λ g. impossible c t (leb→le _ _ g)) (λ _. tt))
          λ d e. e
  where
    impossible : (c : Buffer) → IsSmall c → c.writer_index + length source ≤ length c.bytes → ⊥
    impossible c t g = let u : length c.bytes ≤ max_size = unfold IsSmall in t in omega arith

-- A successful `Append` leaves a valid buffer with the source behind the readable bytes, whatever the
-- source's length.
pub append-OnOk :
    (b : Buffer) (source : List ℕ)
    → IsValid b
    → OnOk (λ c. IsValid c × (contents c ≡ contents b ++ source)) (append b source)
append-OnOk b source v = elim (dec_le (length source) max_size) [
  | yes m ↦ by_fit m (Fit-cases b (length source))
  | no m ↦ OnOk-map _ _ (append b source) (λ c e. absurd e) (append_huge b source v (omega arith))
]
  where
    P : Outcome Buffer → Type 0
    P = OnOk (λ c. IsValid c × (contents c ≡ contents b ++ source))

    by_fit : length source ≤ max_size → Fit b (length source) → P (append b source)
    by_fit m (room h) = let (c, e, w, same) = append-Holds b source v h in subst P (sym e) (w, same)
    by_fit m (gap h) = subst P (sym (append-InGap b source v h)) tt
    by_fit m (too_large h k) = unfold append in rw (ensure_too_large b (length source) v h k m) tt
