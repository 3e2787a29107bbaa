-- ===== src/Base/Current/Trace.antt =====
-- Demangling replaces the name between the last `(` and the last `+` of a line, and nothing else.
use neconet.Prelude.{
  ℕ, suc, ◌-◌, ◌<◌, ◌≡◌, refl, sym, ap, ◌∙◌, true, ◌++◌, Option, none, some, take, drop,
  take-append-drop, drop-drop, lt→ltb, arith,
}
use neconet.Base.Text.{Text}
use neconet.Base.Current.{last_index, line_at, line}

-- If a line's last `(` stands before its last `+`, it is three parts put together, of which the second
-- one is the name: demangling replaces this part by the name that the demangler gives, and leaves the
-- line alone if it gives none.
pub line_lem :
    (demangle : Text → Option Text) (t : Text) (left plus : ℕ)
    → last_index b'(' t ≡ some left
    → last_index b'+' t ≡ some plus
    → left < plus
    → (front : Text) × (name : Text) × (back : Text) × (t ≡ front ++ (name ++ back))
      × (line demangle true t ≡ elim (demangle name) [ some n ↦ front ++ (n ++ back) | none ↦ t ])
unfolding line line_at
line_lem demangle t left plus h k before = (
  take (suc left) t,
  take (plus - suc left) (drop (suc left) t),
  drop plus t,
  whole,
  rw (h, k) (rw (lt→ltb left plus before, line_at) refl),
)
  where
    whole : t ≡ take (suc left) t ++ (take (plus - suc left) (drop (suc left) t) ++ drop plus t)
    whole =
        sym (take-append-drop (suc left) t)
        ∙ ap (λ r. take (suc left) t ++ r)
            (sym (take-append-drop (plus - suc left) (drop (suc left) t))
              ∙ ap (λ r. take (plus - suc left) (drop (suc left) t) ++ r)
                  (drop-drop (suc left) (plus - suc left) t ∙ ap (λ n. drop n t) (omega arith)))
