-- ===== src/Net/Buffer/Read.antt =====
-- ReadFd: what `readv` stored ends up behind the readable bytes.
use neconet.Prelude.{
  ℕ, ◌+◌, ◌-◌, ◌≤◌, ◌<◌, ◌≡◌, refl, ap, ◌∙◌, List, ◌++◌, length, take, drop, append_assoc, Outcome,
  ok, err, assertion, arith, ◌>>=◌, length-take, length-drop, take_all, length-overwrite,
  take-append-drop,
}
use native.Mathlib.Decide.{dec_le}
use neconet.Net.Buffer.{Buffer, Readv, failed, got, read_fd, append, copy_to, extra_size}
use neconet.Net.Buffer.Inv.{IsValid, contents, writeable_lem}
use neconet.Net.Buffer.Append.{
  HasRoom, InGap, stored, stored-IsValid, contents-stored, append-Holds, append-InGap,
}

pub read_fd-failed : (b : Buffer) (errno : ℕ) → read_fd b (failed errno) ≡ ok (b, failed errno)
unfolding read_fd
read_fd-failed b errno = refl

module _ (b : Buffer) (received : List ℕ) (v : IsValid b) where
  space : ℕ
  space = length b.bytes - b.writer_index

  -- All that was received fits behind the data.
  pub read_fd_fits :
      b.writer_index + length received ≤ length b.bytes
      → read_fd b (got received) ≡ ok (stored b received, got received)
  unfolding read_fd copy_to
  read_fd_fits h = ground (
    arith,
    writeable_lem b v,
    take_all (length b.bytes - b.writer_index) received,
    length-drop (length b.bytes - b.writer_index) received,
  )

  -- What did not fit is left for `Append`, on the full buffer.
  full : Buffer
  full = stored b (take space received)

  length-head :
      length b.bytes ≤ b.writer_index + length received → length (take space received) ≡ space
  unfolding space
  length-head h = omega (arith, length-take (length b.bytes - b.writer_index) received)

  -- Its writer index is the vector's size.
  full-eq :
      length b.bytes ≤ b.writer_index + length received
      → record (record b { bytes = full.bytes }) { writer_index = length full.bytes } ≡ full
  unfolding full space
  full-eq h =
      ap (λ i. record full { writer_index = i })
        (omega (
          arith,
          length-head h,
          length-overwrite b.bytes (take space received) b.writer_index
              (omega (arith, length-head h)),
        ))

  full-IsValid : length b.bytes ≤ b.writer_index + length received → IsValid full
  unfolding full space
  full-IsValid h = stored-IsValid b (take space received) v (omega (arith, length-head h))

  read_fd_more :
      length b.bytes < b.writer_index + length received
      → length received ≤ length b.bytes - b.writer_index + extra_size
      → read_fd b (got received) ≡ (append full (drop space received) >>= λ d. ok (d, got received))
  unfolding full space read_fd copy_to
  read_fd_more h m =
      rw (writeable_lem b v) (
        ground
          (arith, length-head (omega arith), length-drop space received, full-eq (omega arith)))

  contents-full-rest :
      length b.bytes ≤ b.writer_index + length received
      → contents full ++ drop space received ≡ contents b ++ received
  unfolding full space
  contents-full-rest h =
      ap (λ l. l ++ drop space received)
        (contents-stored b (take space received) v (omega (arith, length-head h)))
      ∙ append_assoc (contents b) (take space received) (drop space received)
      ∙ ap (λ l. contents b ++ l) (take-append-drop space received)

  full-HasRoom :
      length b.bytes < b.writer_index + length received
      → HasRoom b (length received)
      → HasRoom full (length (drop space received))
  unfolding full space
  full-HasRoom h room = omega (
    arith,
    length-head (omega arith),
    length-drop space received,
    length-overwrite b.bytes (take space received) b.writer_index
        (omega (arith, length-head (omega arith))),
  )

  full-InGap : InGap b (length received) → InGap full (length (drop space received))
  unfolding full space
  full-InGap gap = omega (
    arith,
    length-head (omega arith),
    length-drop space received,
    length-overwrite b.bytes (take space received) b.writer_index
        (omega (arith, length-head (omega arith))),
  )

  -- What a successful read leaves: a valid buffer with the received bytes behind the old ones.
  abbrev pub ReadsAll : Outcome (Buffer × Readv) → Type 0
  ReadsAll r =
      (c : Buffer) × (r ≡ ok (c, got received)) × IsValid c × (contents c ≡ contents b ++ received)

  read_fd_grows :
      length b.bytes < b.writer_index + length received
      → length received ≤ length b.bytes - b.writer_index + extra_size
      → HasRoom b (length received)
      → ReadsAll (read_fd b (got received))
  read_fd_grows h m room =
      let (c, e, w, same) =
        append-Holds full (drop space received) (full-IsValid (omega arith))
          (full-HasRoom h room) in
      (c, rw (read_fd_more h m) (rw e), w, same ∙ contents-full-rest (omega arith))

  -- `ReadFd` stores all that `readv` received behind the readable bytes and keeps the buffer valid, for
  -- every length that the buffer has room for and `readv` may return: no more than the space behind the
  -- data and the extra buffer of 65536 bytes.
  pub read_fd-ReadsAll :
      length received ≤ length b.bytes - b.writer_index + extra_size
      → HasRoom b (length received)
      → ReadsAll (read_fd b (got received))
  read_fd-ReadsAll m room = elim (dec_le (b.writer_index + length received) (length b.bytes)) [
    | yes h ↦ (
      stored b received,
      read_fd_fits h,
      stored-IsValid b received v h,
      contents-stored b received v h,
    )
    | no h ↦ read_fd_grows (omega arith) m room
  ]

  -- `ReadFd` aborts on a failed assertion if the number of received bytes lies in the gap.
  pub read_fd-InGap :
      InGap b (length received)
      → length received ≤ length b.bytes - b.writer_index + extra_size
      → read_fd b (got received) ≡ err assertion
  read_fd-InGap gap m =
      rw (read_fd_more gap.0 m)
        (rw (append-InGap full (drop space received) (full-IsValid (omega arith)) (full-InGap gap)))
