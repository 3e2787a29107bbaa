-- ===== src/Net/Buffer/Append.antt =====
-- Making room and writing at the end: EnsureWriteableBytes, __MakeSpace and Append.
use neconet.Prelude.{
  ℕ, ◌+◌, ◌-◌, ◌≤◌, ◌<◌, ◌≡◌, refl, ap, ◌∙◌, ◌⊎◌, inl, inr, List, ◌++◌, length, replicate, slice,
  overwrite, Outcome, ok, err, assertion, arith, ◌>>=◌, length-append, length-replicate, take_all,
  slice-append_left, slice-overwrite_self, slice-overwrite_end, length-overwrite, length-slice,
}
use native.Mathlib.Decide.{dec_lt, dec_le}
use neconet.Net.Word.{max_size}
use neconet.Net.Buffer.{
  Buffer, copy_to, resize, compact, ensure_writeable, has_written, append, cheap_prepend,
}
use neconet.Net.Buffer.Inv.{IsValid, contents, readable_lem, writeable_lem, Holds}

abbrev grown : Buffer → ℕ → Buffer
grown b n = record b { bytes = b.bytes ++ replicate (n - length b.bytes) 0 }

length-grown : (b : Buffer) (n : ℕ) → length b.bytes ≤ n → length (grown b n).bytes ≡ n
length-grown b n h = omega (
  arith,
  length-append b.bytes (replicate (n - length b.bytes) 0),
  length-replicate {A = ℕ} (n - length b.bytes) 0,
)

resize_grows :
    (b : Buffer) (n : ℕ) → length b.bytes ≤ n → n ≤ max_size → resize b n ≡ ok (grown b n)
unfolding resize
resize_grows b n h m = ground (arith, take_all n b.bytes h)

contents-grown : (b : Buffer) (n : ℕ) → IsValid b → contents (grown b n) ≡ contents b
contents-grown b n v =
    slice-append_left b.bytes (replicate (n - length b.bytes) 0) b.reader_index
      (b.writer_index - b.reader_index) (omega arith)

-- The buffer after the readable bytes were moved to offset 8.
abbrev moved : Buffer → Buffer
moved b = record {
  bytes = overwrite b.bytes cheap_prepend (contents b);
  reader_index = cheap_prepend;
  writer_index = cheap_prepend + (b.writer_index - b.reader_index);
}

length-contents : (b : Buffer) → IsValid b → length (contents b) ≡ b.writer_index - b.reader_index
length-contents b v =
    length-slice b.bytes b.reader_index (b.writer_index - b.reader_index) (omega arith)

compact-ok : (b : Buffer) → IsValid b → cheap_prepend < b.reader_index → compact b ≡ ok (moved b)
unfolding compact
compact-ok b v h = ground (arith, readable_lem b v, length-contents b v)

length-moved :
    (b : Buffer)
    → IsValid b
    → cheap_prepend < b.reader_index
    → length (moved b).bytes ≡ length b.bytes
length-moved b v h =
    length-overwrite b.bytes (contents b) cheap_prepend (omega (arith, length-contents b v))

contents-moved :
    (b : Buffer) → IsValid b → cheap_prepend < b.reader_index → contents (moved b) ≡ contents b
contents-moved b v h =
    ap (slice (moved b).bytes cheap_prepend) (omega (arith, length-contents b v))
    ∙ slice-overwrite_self b.bytes (contents b) cheap_prepend (omega (arith, length-contents b v))

-- The sizes for which `EnsureWriteableBytes(n)` succeeds: the space behind the data is enough, or all
-- free space is too small by its own test, so that the vector grows, or enough space is left when the
-- data moves down to offset 8. In the second case the vector must be allowed to grow so far.
abbrev pub HasRoom : Buffer → ℕ → Type 0
HasRoom b n =
    (b.writer_index + n ≤ length b.bytes)
    ⊎ ((length b.bytes + b.reader_index < b.writer_index + n) × (b.writer_index + n ≤ max_size))
    ⊎ (b.writer_index + n + cheap_prepend ≤ length b.bytes + b.reader_index)

-- The sizes for which it fails: more than the space behind the data, and no more than all free space,
-- but with the 8 bytes in front that moving the data keeps it does not fit.
abbrev pub InGap : Buffer → ℕ → Type 0
InGap b n =
    (length b.bytes < b.writer_index + n)
    × (b.writer_index + n ≤ length b.bytes + b.reader_index)
    × (length b.bytes + b.reader_index < b.writer_index + n + cheap_prepend)

-- A buffer with the contents of `b` and space for `n` more bytes.
abbrev Ensured : Buffer → ℕ → Outcome Buffer → Type 0
Ensured b n r =
    (c : Buffer) × (r ≡ ok c)
    × IsValid c
    × (contents c ≡ contents b)
    × (c.writer_index + n ≤ length c.bytes)

ensure_fits :
    (b : Buffer) (n : ℕ)
    → IsValid b
    → b.writer_index + n ≤ length b.bytes
    → ensure_writeable b n ≡ ok b
unfolding ensure_writeable
ensure_fits b n v h = ground (arith, writeable_lem b v)

ensure_grows :
    (b : Buffer) (n : ℕ)
    → IsValid b
    → length b.bytes + b.reader_index < b.writer_index + n
    → b.writer_index + n ≤ max_size
    → ensure_writeable b n ≡ ok (grown b (b.writer_index + n))
unfolding ensure_writeable
ensure_grows b n v h m = ground (
  arith,
  writeable_lem b v,
  resize_grows b (b.writer_index + n),
  length-grown b (b.writer_index + n),
)

ensure_moves :
    (b : Buffer) (n : ℕ)
    → IsValid b
    → length b.bytes < b.writer_index + n
    → b.writer_index + n + cheap_prepend ≤ length b.bytes + b.reader_index
    → ensure_writeable b n ≡ ok (moved b)
unfolding ensure_writeable
ensure_moves b n v h m = ground (arith, writeable_lem b v, compact-ok b v, length-moved b v)

compact_refuses : (b : Buffer) → ¬ (cheap_prepend < b.reader_index) → compact b ≡ err assertion
unfolding compact
compact_refuses b h = ground arith

-- In the gap one of the two assertions fails.
ensure_writeable-InGap :
    (b : Buffer) (n : ℕ) → IsValid b → InGap b n → ensure_writeable b n ≡ err assertion
unfolding ensure_writeable
ensure_writeable-InGap b n v g = elim (dec_lt cheap_prepend b.reader_index) [
  | yes h ↦ ground (arith, writeable_lem b v, compact-ok b v h, length-moved b v h)
  | no h ↦ ground (arith, writeable_lem b v, compact_refuses b h)
]

grown-IsValid :
    (b : Buffer) (n : ℕ) → IsValid b → length b.bytes ≤ n → n ≤ max_size → IsValid (grown b n)
grown-IsValid b n v h m = omega (arith, length-grown b n h)

moved-IsValid : (b : Buffer) → IsValid b → cheap_prepend < b.reader_index → IsValid (moved b)
moved-IsValid b v h = omega (arith, length-moved b v h)

ensure_room : (b : Buffer) (n : ℕ) → IsValid b → HasRoom b n → Ensured b n (ensure_writeable b n)
ensure_room b n v room = elim (dec_le (b.writer_index + n) (length b.bytes)) [
  | yes h ↦ (b, ensure_fits b n v h, v, refl, h)
  | no h ↦ tight room h
]
  where
    tight :
        HasRoom b n → ¬ (b.writer_index + n ≤ length b.bytes) → Ensured b n (ensure_writeable b n)
    tight (inl fits) h = absurd (h fits)
    tight (inr (inl (short, allowed))) h = (
      grown b (b.writer_index + n),
      ensure_grows b n v short allowed,
      grown-IsValid b (b.writer_index + n) v (omega arith) allowed,
      contents-grown b (b.writer_index + n) v,
      omega (arith, length-grown b (b.writer_index + n)),
    )
    tight (inr (inr large)) h = (
      moved b,
      ensure_moves b n v (omega arith) large,
      moved-IsValid b v (omega arith),
      contents-moved b v (omega arith),
      omega (arith, length-moved b v),
    )

-- The buffer after `source` was stored behind its data.
abbrev pub stored : Buffer → List ℕ → Buffer
stored b source = record b {
  bytes = overwrite b.bytes b.writer_index source;
  writer_index = b.writer_index + length source;
}

pub stored-IsValid :
    (b : Buffer) (source : List ℕ)
    → IsValid b
    → b.writer_index + length source ≤ length b.bytes
    → IsValid (stored b source)
stored-IsValid b source v h = omega (arith, length-overwrite b.bytes source b.writer_index h)

pub contents-stored :
    (b : Buffer) (source : List ℕ)
    → IsValid b
    → b.writer_index + length source ≤ length b.bytes
    → contents (stored b source) ≡ contents b ++ source
contents-stored b source v h =
    ap (slice (stored b source).bytes b.reader_index) f
    ∙ ap (λ i. slice (overwrite b.bytes i source) b.reader_index (held + length source)) e
    ∙ slice-overwrite_end b.bytes source b.reader_index held (omega arith)
  where
    held : ℕ
    held = b.writer_index - b.reader_index

    e : b.writer_index ≡ b.reader_index + held
    e = omega arith

    f : b.writer_index + length source - b.reader_index ≡ held + length source
    f = omega arith

copy_behind :
    (b : Buffer) (source : List ℕ)
    → IsValid b
    → b.writer_index + length source ≤ length b.bytes
    → (copy_to b b.writer_index source >>= λ d. ok (has_written d (length source)))
      ≡ ok (stored b source)
unfolding copy_to has_written
copy_behind b source v h = ground arith

-- `Append` to a valid buffer adds the bytes behind the readable ones and keeps the buffer valid,
-- whenever there is room for them.
pub append-Holds :
    (b : Buffer) (source : List ℕ)
    → IsValid b
    → HasRoom b (length source)
    → Holds (contents b ++ source) (append b source)
unfolding append
append-Holds b source v room =
    let (c, e, w, same, space) = ensure_room b (length source) v room in
    (
      stored c source,
      rw e (copy_behind c source w space),
      stored-IsValid c source w space,
      contents-stored c source w space ∙ ap (λ l. l ++ source) same,
    )

-- `Append` to a valid buffer aborts on a failed assertion for every length in the gap.
pub append-InGap :
    (b : Buffer) (source : List ℕ)
    → IsValid b
    → InGap b (length source)
    → append b source ≡ err assertion
unfolding append
append-InGap b source v g = rw (ensure_writeable-InGap b (length source) v g)
