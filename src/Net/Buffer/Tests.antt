-- ===== src/Net/Buffer/Tests.antt =====
-- CBuffer at small buffers: tests, and the theorems at inputs that meet their hypotheses.
use neconet.Prelude.{
  ◌≡◌, ◌<◌, refl, inl, [], ◌∷◌, length, ok, err, assertion, arith, slice, ◌-◌, ◌>>=◌, replicate,
}
use neconet.Net.Buffer.{Buffer, init, cheap_prepend, retrieve, append, shrink, read_fd, got}
use neconet.Net.Buffer.Inv.{IsValid, contents, Holds}
use neconet.Net.Buffer.Append.{append-Holds, append-InGap}
use neconet.Net.Buffer.Moves.{Refines, take_away, retrieve-Refines, shrink_breaks}
use neconet.Net.Buffer.Read.{ReadsAll, read_fd-ReadsAll}

-- Three readable bytes behind the prepend area, and five bytes of space.
abbrev small : Buffer
small = record {
  bytes = 0 ∷ 0 ∷ 0 ∷ 0 ∷ 0 ∷ 0 ∷ 0 ∷ 0 ∷ 1 ∷ 2 ∷ 3 ∷ 0 ∷ 0 ∷ 0 ∷ 0 ∷ 0 ∷ [];
  reader_index = 8;
  writer_index = 11;
}

-- One readable byte at the end of the same vector.
abbrev late : Buffer
late = record small { reader_index = 15; writer_index = 16 }

small-IsValid : IsValid small
small-IsValid = omega arith

late-IsValid : IsValid late
late-IsValid = omega arith

contents-small : contents small ≡ 1 ∷ 2 ∷ 3 ∷ []
contents-small = refl

-- The data moves down, and four bytes fit behind it.
append_moves :
    (append late (6 ∷ 7 ∷ []))
    ≡ ok (record {
      bytes = 0 ∷ 0 ∷ 0 ∷ 0 ∷ 0 ∷ 0 ∷ 0 ∷ 0 ∷ 0 ∷ 6 ∷ 7 ∷ 0 ∷ 0 ∷ 0 ∷ 0 ∷ 0 ∷ [];
      reader_index = 8;
      writer_index = 11;
    })
unfolding append
append_moves = refl

-- A string of 1030 bytes makes a new buffer abort.
init_gap : (init >>= λ b. append b (replicate 1030 7)) ≡ err assertion
unfolding init append
init_gap = refl

append-Holds_example : Holds (1 ∷ 2 ∷ 3 ∷ 4 ∷ 5 ∷ []) (append small (4 ∷ 5 ∷ []))
append-Holds_example = append-Holds small (4 ∷ 5 ∷ []) small-IsValid (inl (omega arith))

append-InGap_example : append small (1 ∷ 2 ∷ 3 ∷ 4 ∷ 5 ∷ 6 ∷ []) ≡ err assertion
append-InGap_example = append-InGap small (1 ∷ 2 ∷ 3 ∷ 4 ∷ 5 ∷ 6 ∷ []) small-IsValid (omega arith)

retrieve-Refines_example : Refines (retrieve small 2) (ok (3 ∷ []))
unfolding take_away
retrieve-Refines_example = retrieve-Refines small 2 small-IsValid

shrink_breaks_example :
    (c : Buffer) × (shrink late 4 ≡ ok c)
    × (slice c.bytes cheap_prepend (late.writer_index - late.reader_index) ≡ contents late)
    × (c.reader_index ≡ late.reader_index)
    × (c.writer_index ≡ late.writer_index)
    × (length c.bytes < c.writer_index)
shrink_breaks_example = shrink_breaks late 4 late-IsValid (omega arith) (omega arith)

read_fd-ReadsAll_example :
    ReadsAll small (4 ∷ 5 ∷ 6 ∷ []) small-IsValid (read_fd small (got (4 ∷ 5 ∷ 6 ∷ [])))
read_fd-ReadsAll_example =
    read_fd-ReadsAll small (4 ∷ 5 ∷ 6 ∷ []) small-IsValid (omega arith) (inl (omega arith))
