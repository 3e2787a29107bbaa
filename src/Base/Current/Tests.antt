-- ===== src/Base/Current/Tests.antt =====
-- CurrentThread: tests.
use neconet.Prelude.{◌≡◌, refl, Option, some, [], ◌∷◌, true}
use neconet.Prelude.Int.{pos}
use neconet.Base.Text.{Text}
use neconet.Base.Current.{init, tid, after_fork, sleep_time, stack_trace}

-- `a(f+1)`, and a demangler that knows the name `f`.
abbrev frame : Text
frame = b'a' ∷ b'(' ∷ b'f' ∷ b'+' ∷ b'1' ∷ b')' ∷ []

abbrev demangle : Text → Option Text
demangle name = some (b'g' ∷ b'(' ∷ b')' ∷ [])

trace_text :
    stack_trace demangle true (some (frame ∷ frame ∷ []))
    ≡ b'a' ∷ b'(' ∷ b'g' ∷ b'(' ∷ b')' ∷ b'+' ∷ b'1' ∷ b')' ∷ b'\n' ∷ []
unfolding stack_trace
trace_text = refl

-- The second call does not ask the kernel.
tid_cached : (tid (tid init 42).1 77).0 ≡ 42
unfolding tid
tid_cached = refl

tid_forked : (tid (after_fork (tid init 42).1 77) 77).0 ≡ 77
unfolding tid after_fork
tid_forked = refl

-- A sleep of half a second is one of half a millisecond.
sleep_half : sleep_time (pos 500000) ≡ (pos 0, pos 500000)
unfolding sleep_time
sleep_half = refl
