-- ===== src/Net/Buffer/Inv.antt =====
-- The representation invariant of CBuffer and the bytes that a buffer holds.
use neconet.Prelude.{ℕ, ◌-◌, ◌≤◌, ◌≡◌, List, length, slice, Outcome, ok, arith}
use neconet.Net.Word.{max_size}
use neconet.Net.Buffer.{Buffer, readable_bytes, writeable_bytes}

pub record IsValid (b : Buffer) : Type 0 where
  pub ordered : b.reader_index ≤ b.writer_index
  pub within : b.writer_index ≤ length b.bytes
  pub small : length b.bytes ≤ max_size

-- The readable bytes, oldest first.
abbrev pub contents : Buffer → List ℕ
contents b = slice b.bytes b.reader_index (b.writer_index - b.reader_index)

pub readable_lem : (b : Buffer) → IsValid b → readable_bytes b ≡ b.writer_index - b.reader_index
readable_lem b v = omega arith

pub writeable_lem : (b : Buffer) → IsValid b → writeable_bytes b ≡ length b.bytes - b.writer_index
writeable_lem b v = omega arith

-- What a call returns: a valid buffer that holds `xs`.
abbrev pub Holds : List ℕ → Outcome Buffer → Type 0
Holds xs r = (c : Buffer) × (r ≡ ok c) × IsValid c × (contents c ≡ xs)
