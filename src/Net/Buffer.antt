-- ===== src/Net/Buffer.antt =====
-- net/CBuffer.h and net/CBuffer.cpp. A pointer into `m_vBuffer` is its offset from `__Begin()`.
-- Bytes are only moved, never computed with, so a byte is any number.
pub mod Inv
pub mod Append
pub mod Total
pub mod Moves
pub mod Read
mod Tests
use neconet.Prelude.{
  ℕ, ◌+◌, ◌-◌, ◌%◌, ◌^◌, ◌≡◌, Bool, true, false, not, List, [], ◌∷◌, ◌++◌, length, take, drop,
  replicate, slice, overwrite, ltb, leb, ◌==◌, if◌then◌else◌, Outcome, ok, err, assertion,
  out_of_bounds, length_error, ◌>>=◌, ◌>>◌, guard, assert,
}
use neconet.Net.Word.{add_size, sub_size, max_size, size_mod}

abbrev pub cheap_prepend : ℕ
cheap_prepend = 8

abbrev pub initial_size : ℕ
initial_size = 1024

pub record Buffer : Type 0 where
  pub bytes : List ℕ
  pub reader_index : ℕ
  pub writer_index : ℕ

abbrev pub readable_bytes : Buffer → ℕ
readable_bytes b = sub_size b.writer_index b.reader_index

abbrev pub writeable_bytes : Buffer → ℕ
writeable_bytes b = sub_size (length b.bytes) b.writer_index

abbrev pub prependable_bytes : Buffer → ℕ
prependable_bytes b = b.reader_index

-- The constructor, with its three assertions.
unfoldable pub init : Outcome Buffer
init = do
  let b : Buffer = record {
    bytes = replicate (cheap_prepend + initial_size) 0;
    reader_index = cheap_prepend;
    writer_index = cheap_prepend;
  }
  assert (readable_bytes b == 0)
  assert (writeable_bytes b == initial_size)
  assert (prependable_bytes b == cheap_prepend)
  ok b

-- `*this` and `rhs` afterwards.
pub swap : Buffer → Buffer → Buffer × Buffer
swap b rhs = (
  record { bytes = rhs.bytes; reader_index = rhs.reader_index; writer_index = rhs.writer_index },
  record { bytes = b.bytes; reader_index = b.reader_index; writer_index = b.writer_index },
)

abbrev pub peek : Buffer → ℕ
peek b = b.reader_index

abbrev pub begin_write : Buffer → ℕ
begin_write b = b.writer_index

-- Reading `n` bytes at an offset, and `std::copy` to one: both must stay inside the vector.
pub read_at : Buffer → ℕ → ℕ → Outcome (List ℕ)
read_at b offset n =
    if leb (offset + n) (length b.bytes) then ok (slice b.bytes offset n) else err out_of_bounds

pub copy_to : Buffer → ℕ → List ℕ → Outcome Buffer
copy_to b offset source =
    if leb (offset + length source) (length b.bytes)
    then ok (record b { bytes = overwrite b.bytes offset source })
    else err out_of_bounds

-- `std::vector<char>::resize`, which fills with zeros.
pub resize : Buffer → ℕ → Outcome Buffer
resize b n =
    if leb n max_size
    then ok (record b { bytes = take n b.bytes ++ replicate (n - length b.bytes) 0 })
    else err length_error

pub retrieve : Buffer → ℕ → Outcome Buffer
retrieve b n = do
  assert (leb n (readable_bytes b))
  ok (record b { reader_index = add_size b.reader_index n })

pub retrieve_until : Buffer → ℕ → Outcome Buffer
unfolding retrieve
retrieve_until b end = do
  assert (leb (peek b) end)
  assert (leb end (begin_write b))
  retrieve b (end - peek b)

pub retrieve_all : Buffer → Buffer
retrieve_all b = record b { reader_index = cheap_prepend; writer_index = cheap_prepend }

pub retrieve_as_string : Buffer → Outcome (List ℕ × Buffer)
unfolding read_at retrieve_all
retrieve_as_string b = do str ← read_at b (peek b) (readable_bytes b); ok (str, retrieve_all b)

pub has_written : Buffer → ℕ → Buffer
has_written b n = record b { writer_index = add_size b.writer_index n }

-- The readable bytes moved down to the cheap prepend area.
pub compact : Buffer → Outcome Buffer
unfolding read_at copy_to
compact b = do
  assert (ltb cheap_prepend b.reader_index)
  readable ← read_at b b.reader_index (readable_bytes b)
  c ← copy_to b cheap_prepend readable
  let d : Buffer = record c {
    reader_index = cheap_prepend;
    writer_index = add_size cheap_prepend (readable_bytes b);
  }
  assert (readable_bytes b == readable_bytes d)
  ok d

pub make_space : Buffer → ℕ → Outcome Buffer
unfolding resize compact
make_space b n =
    if ltb (add_size (writeable_bytes b) (prependable_bytes b)) n
    then resize b (add_size b.writer_index n)
    else compact b

pub ensure_writeable : Buffer → ℕ → Outcome Buffer
unfolding make_space
ensure_writeable b n = do
  c ← if ltb (writeable_bytes b) n then make_space b n else ok b
  assert (leb n (writeable_bytes c))
  ok c

-- The three overloads of `Append`: the bytes at `pData`, or of the string.
unfoldable pub append : Buffer → List ℕ → Outcome Buffer
unfolding ensure_writeable copy_to has_written
append b source = do
  c ← ensure_writeable b (length source)
  d ← copy_to c (begin_write c) source
  ok (has_written d (length source))

pub prepend : Buffer → List ℕ → Outcome Buffer
unfolding copy_to
prepend b source = do
  assert (leb (length source) (prependable_bytes b))
  let c : Buffer = record b { reader_index = b.reader_index - length source }
  copy_to c c.reader_index source

-- The readable bytes copied to offset 8 of a new vector of `size` zeros, which replaces the old one.
-- The indices stay as they are.
pub shrink_to : Buffer → ℕ → Outcome Buffer
unfolding read_at copy_to
shrink_to b size = do
  guard (leb size max_size) length_error
  readable ← read_at b (peek b) (readable_bytes b)
  let fresh : Buffer = record b { bytes = replicate size 0 }
  copy_to fresh cheap_prepend readable

pub shrink : Buffer → ℕ → Outcome Buffer
shrink b reserve = shrink_to b (add_size (add_size cheap_prepend (readable_bytes b)) reserve)

-- What `readv` gives: an error with its errno, or the bytes that it stored.
pub data Readv : Type 0 where
  failed : ℕ → Readv
  got : List ℕ → Readv

abbrev pub extra_size : ℕ
extra_size = 65536

-- `readv` fills `iVec[0]`, the space behind the writer index, and then `iVec[1]`, the extra buffer.
-- The result is the buffer, and `readv`'s answer or the saved errno.
pub read_fd : Buffer → Readv → Outcome (Buffer × Readv)
unfolding copy_to append
read_fd b (failed errno) = ok (b, failed errno)
read_fd b (got received) = do
  let writeable : ℕ = writeable_bytes b
  c ← copy_to b b.writer_index (take writeable received)
  let extra : List ℕ = drop writeable received
  guard (leb (length extra) extra_size) out_of_bounds
  d ←
      if leb (length received) writeable
      then ok (record c { writer_index = add_size c.writer_index (length received) })
      else append (record c { writer_index = length c.bytes }) extra
  ok (d, got received)
