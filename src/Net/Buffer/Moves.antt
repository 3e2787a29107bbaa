-- ===== src/Net/Buffer/Moves.antt =====
-- The other operations of CBuffer: the constructor, Swap, Retrieve and its relatives, Prepend,
-- Shrink and ReadFd.
use neconet.Prelude.{
  ℕ, ◌+◌, ◌-◌, ◌≤◌, ◌<◌, ◌≡◌, refl, sym, ap, ◌∙◌, List, [], ◌++◌, length, take, drop, replicate,
  slice, overwrite, Outcome, OnOk, OnOk-check, leb→le, map_ok, if◌then◌else◌, drop-slice, ok, err,
  assertion, leb, arith, length-replicate, take-append-drop, slice-overwrite_self,
  slice-overwrite_front, length-overwrite, length-slice,
}
use neconet.Net.Word.{max_size, add_size}
use neconet.Net.Buffer.{
  Buffer, init, swap, retrieve, retrieve_until, retrieve_as_string, prepend, shrink, shrink_to,
  cheap_prepend, readable_bytes,
}
use neconet.Net.Buffer.Inv.{IsValid, contents, readable_lem, Holds}

-- The constructor passes its assertions and gives a valid, empty buffer of 1032 bytes.
pub init-Holds : Holds [] init
unfolding init
init-Holds = (_, refl, omega arith, refl)

abbrev held : Buffer → ℕ
held b = b.writer_index - b.reader_index

pub length-contents : (b : Buffer) → IsValid b → length (contents b) ≡ held b
length-contents b v = length-slice b.bytes b.reader_index (held b) (omega arith)

-- What the operations promise, on the readable bytes alone.
abbrev pub Refines : Outcome Buffer → Outcome (List ℕ) → Type 0
Refines r s = (map_ok contents r ≡ s) × OnOk IsValid r

unfoldable pub take_away : List ℕ → ℕ → Outcome (List ℕ)
take_away xs n = if leb n (length xs) then ok (drop n xs) else err assertion

contents-retrieved :
    (b : Buffer) (n : ℕ)
    → contents (record b { reader_index = b.reader_index + n }) ≡ drop n (contents b)
contents-retrieved b n =
    ap (slice b.bytes (b.reader_index + n)) (omega arith)
    ∙ sym (drop-slice b.bytes b.reader_index (held b) n)

-- `Retrieve(n)` drops the oldest `n` readable bytes if there are so many, and otherwise aborts; the
-- buffer stays valid.
pub retrieve-Refines :
    (b : Buffer) (n : ℕ) → IsValid b → Refines (retrieve b n) (take_away (contents b) n)
unfolding retrieve take_away
retrieve-Refines b n v =
    ground (arith, readable_lem b v, length-contents b v, contents-retrieved b n)

-- What `Retrieve(n)` dropped stood in front of what is left.
pub retrieve-OnOk :
    (b : Buffer) (n : ℕ)
    → IsValid b
    → OnOk (λ c. IsValid c × (take n (contents b) ++ contents c ≡ contents b)) (retrieve b n)
unfolding retrieve
retrieve-OnOk b n v = OnOk-check _ (leb n (readable_bytes b)) _ λ h.
    let enough : n ≤ readable_bytes b = leb→le _ _ h in
    let e : add_size b.reader_index n ≡ b.reader_index + n = omega (arith, readable_lem b v) in
    let valid : IsValid (record b { reader_index = b.reader_index + n }) =
      omega (arith, readable_lem b v) in
    rw e (
      valid,
      ap (λ l. take n (contents b) ++ l) (contents-retrieved b n) ∙ take-append-drop n (contents b),
    )

-- `RetrieveUtil(end)`, for `end` an offset in the vector, drops the bytes before `end`, and aborts if
-- that lies outside the readable bytes.
pub retrieve_until-Refines :
    (b : Buffer) (end : ℕ)
    → IsValid b
    → Refines (retrieve_until b end) (
        if leb b.reader_index end
        then take_away (contents b) (end - b.reader_index)
        else err assertion)
unfolding retrieve_until take_away
retrieve_until-Refines b end v =
    ground
      (arith, readable_lem b v, length-contents b v, contents-retrieved b (end - b.reader_index))

-- `RetrieveAsString` returns all readable bytes and leaves a valid buffer with none, unless the buffer is
-- smaller than the 8 bytes of the prepend area.
pub retrieve_as_string_lem :
    (b : Buffer)
    → IsValid b
    → cheap_prepend ≤ length b.bytes
    → (c : Buffer) × (retrieve_as_string b ≡ ok (contents b, c))
      × IsValid c
      × (contents c ≡ [])
      × (c.reader_index ≡ cheap_prepend)
      × (c.writer_index ≡ cheap_prepend)
      × (c.bytes ≡ b.bytes)
unfolding retrieve_as_string
retrieve_as_string_lem b v h = (
  record b { reader_index = cheap_prepend; writer_index = cheap_prepend },
  ground (arith, readable_lem b v),
  omega arith,
  refl,
  refl,
  refl,
  refl,
)

abbrev prepended : Buffer → List ℕ → Buffer
prepended b source = record b {
  bytes = overwrite b.bytes (b.reader_index - length source) source;
  reader_index = b.reader_index - length source;
}

contents-prepended :
    (b : Buffer) (source : List ℕ)
    → IsValid b
    → length source ≤ b.reader_index
    → contents (prepended b source) ≡ source ++ contents b
contents-prepended b source v h =
    ap (slice (prepended b source).bytes start) (omega arith)
    ∙ slice-overwrite_front b.bytes source start (held b) (omega arith)
    ∙ ap (λ i. source ++ slice b.bytes i (held b)) (omega arith)
  where
    start : ℕ
    start = b.reader_index - length source

-- `Prepend` puts the bytes in front of the readable ones, and aborts if there is no space for them.
pub prepend-Refines :
    (b : Buffer) (source : List ℕ)
    → IsValid b
    → Refines
        (prepend b source)
        (if leb (length source) b.reader_index then ok (source ++ contents b) else err assertion)
unfolding prepend
prepend-Refines b source v = ground (
  arith,
  contents-prepended b source v,
  length-overwrite b.bytes source (b.reader_index - length source),
)

-- `Swap` exchanges the readable bytes of two buffers, and both stay valid.
pub swap_lem :
    (b c : Buffer)
    → IsValid b
    → IsValid c
    → (contents (swap b c).0 ≡ contents c)
      × (contents (swap b c).1 ≡ contents b)
      × IsValid (swap b c).0
      × IsValid (swap b c).1
unfolding swap
swap_lem b c v w = (refl, refl, omega arith, omega arith)

-- What `Shrink` leaves, if the new vector may be so large.
abbrev shrunk : Buffer → ℕ → Buffer
shrunk b reserve = record b {
  bytes = overwrite (replicate (cheap_prepend + held b + reserve) 0) cheap_prepend (contents b);
}

length-shrunk :
    (b : Buffer) (reserve : ℕ)
    → IsValid b
    → length (shrunk b reserve).bytes ≡ cheap_prepend + held b + reserve
length-shrunk b reserve v =
    let e : length (replicate {A = ℕ} size 0) ≡ size = length-replicate {A = ℕ} size 0 in
    omega (
      arith,
      e,
      length-contents b v,
      length-overwrite (replicate size 0) (contents b) cheap_prepend
          (omega (arith, e, length-contents b v)),
    )
  where
    size : ℕ
    size = cheap_prepend + held b + reserve

shrink_to-ok :
    (b : Buffer) (size : ℕ)
    → IsValid b
    → cheap_prepend + held b ≤ size
    → size ≤ max_size
    → shrink_to b size
      ≡ ok (record b { bytes = overwrite (replicate size 0) cheap_prepend (contents b) })
unfolding shrink_to
shrink_to-ok b size v h m =
    ground (arith, readable_lem b v, length-contents b v, length-replicate {A = ℕ} size 0)

shrink-ok :
    (b : Buffer) (reserve : ℕ)
    → IsValid b
    → cheap_prepend + held b + reserve ≤ max_size
    → shrink b reserve ≡ ok (shrunk b reserve)
unfolding shrink
shrink-ok b reserve v h =
    ap (shrink_to b) (omega (arith, readable_lem b v))
    ∙ shrink_to-ok b (cheap_prepend + held b + reserve) v (omega arith) h

moved_bytes :
    (b : Buffer) (reserve : ℕ)
    → IsValid b
    → slice (shrunk b reserve).bytes cheap_prepend (held b) ≡ contents b
moved_bytes b reserve v =
    ap (slice (shrunk b reserve).bytes cheap_prepend) (sym (length-contents b v))
    ∙ slice-overwrite_self (replicate size 0) (contents b) cheap_prepend
        (omega (arith, length-replicate {A = ℕ} size 0, length-contents b v))
  where
    size : ℕ
    size = cheap_prepend + held b + reserve

-- `Shrink` of a valid buffer moves the readable bytes to offset 8 of a new vector but leaves both indices as
-- they are: where the readable bytes started behind `reserve + 8`, the writer index then lies outside
-- the new vector.
pub shrink_breaks :
    (b : Buffer) (reserve : ℕ)
    → IsValid b
    → cheap_prepend + reserve < b.reader_index
    → cheap_prepend + (b.writer_index - b.reader_index) + reserve ≤ max_size
    → (c : Buffer) × (shrink b reserve ≡ ok c)
      × (slice c.bytes cheap_prepend (b.writer_index - b.reader_index) ≡ contents b)
      × (c.reader_index ≡ b.reader_index)
      × (c.writer_index ≡ b.writer_index)
      × (length c.bytes < c.writer_index)
shrink_breaks b reserve v far h = (
  shrunk b reserve,
  shrink-ok b reserve v h,
  moved_bytes b reserve v,
  refl,
  refl,
  omega (arith, length-shrunk b reserve v),
)
