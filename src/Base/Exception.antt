-- ===== src/Base/Exception.antt =====
-- base/CException.h and base/CException.cpp: the reason, and the stack where the exception was made.
use neconet.Prelude.{◌≡◌, refl, ap, false, List, [], ◌∷◌, ◌++◌, Option, some}
use neconet.Base.Text.{Text}
use neconet.Base.Current.{lines, line, stack_trace}

pub record Exception : Type 0 where
  pub message : Text
  pub stack : Text

-- The constructor asks for a stack without demangled names. `symbols` is what `backtrace_symbols` gives.
pub construct_exception : (Text → Option Text) → Option (List Text) → Text → Exception
construct_exception demangle symbols what = record {
  message = what;
  stack = stack_trace demangle false symbols;
}

abbrev pub what : Exception → Text
what e = e.message

-- Each frame ends with a newline.
abbrev pub frames_text : List Text → Text
frames_text [] = []
frames_text (t ∷ ts) = t ++ (b'\n' ∷ frames_text ts)

lines_plain :
    (demangle : Text → Option Text) (ts : List Text) → lines demangle false ts ≡ frames_text ts
unfolding lines line
lines_plain demangle [] = refl
lines_plain demangle (t ∷ ts) = ap (λ r. t ++ (b'\n' ∷ r)) (lines_plain demangle ts)

-- The stack of an exception is that of the frames above the constructor's own, a line each, as they are:
-- the demangler is not used.
pub stack-construct_exception :
    (demangle : Text → Option Text) (own : Text) (frames : List Text) (reason : Text)
    → (construct_exception demangle (some (own ∷ frames)) reason).stack ≡ frames_text frames
unfolding construct_exception stack_trace
stack-construct_exception demangle own frames reason = lines_plain demangle frames
