-- ===== src/Net/Connection/Writing.antt =====
-- What follows for a connection that has bytes in its output buffer.
use neconet.Prelude.{
  ℕ, ◌≡◌, refl, sym, ap, ◌∙◌, true, false, List, [], ◌∷◌, ◌++◌, length, arith, OnOk, OnOk-map, ◌==◌,
  all_ok, append-nil, append_assoc,
}
use neconet.Net.Buffer.{Buffer, readable_bytes, append}
use neconet.Net.Buffer.Inv.{IsValid, contents, readable_lem}
use neconet.Net.Buffer.Total.{append-OnOk}
use neconet.Net.Buffer.Moves.{length-contents}
use neconet.Net.Connection.{Connection, writing, Event, run}
use neconet.Net.Connection.Interest.{IsOutputFact, run-IsQuiet}

-- Nothing is said of buffer and bytes.
abbrev Any : Buffer → List ℕ → Type 0
Any o s = Unit {0}

Any-IsOutputFact : IsOutputFact Any
Any-IsOutputFact = record {
  appends = λ o s source h. all_ok (append o source);
  sends = λ o s t e h. tt;
}

-- If the channel of a connection has no interest in writing, no sequence of events, the user's
-- calls and the loop's tasks included, gives it one.
pub run_never_writing :
    (es : List Event) (c : Connection)
    → writing c ≡ false
    → OnOk (λ d. writing d ≡ false) (run c es)
run_never_writing es c h =
    OnOk-map _ _ (run c es) (λ d k. k.0) (run-IsQuiet Any Any-IsOutputFact es c (h, tt))

-- The output buffer is valid and not empty, it holds at least `held`, and exactly `xs` was sent.
pub record IsStuck (held xs : List ℕ) (o : Buffer) (s : List ℕ) : Type 0 where
  pub valid : IsValid o
  pub behind : List ℕ
  pub holds : contents o ≡ held ++ behind
  pub nothing_sent : s ≡ xs

-- If a connection's channel has no interest in writing and its valid output buffer is not empty,
-- then, whatever happens afterwards, as long as no assertion fails, these bytes stay at the front
-- of the buffer, which stays valid, and `write` takes no byte any more.
pub run-IsStuck :
    (es : List Event) (c : Connection) (b : ℕ) (held : List ℕ)
    → writing c ≡ false
    → IsValid c.output
    → contents c.output ≡ b ∷ held
    → OnOk (λ d. IsStuck (b ∷ held) c.sent d.output d.sent) (run c es)
run-IsStuck es c b held h v e =
    OnOk-map _ _ (run c es) (λ d k. k.1)
      (run-IsQuiet (IsStuck (b ∷ held) c.sent) fact es c (h, start))
  where
    start : IsStuck (b ∷ held) c.sent c.output c.sent
    start = record {
      valid = v;
      behind = [];
      holds = e ∙ sym (append-nil (b ∷ held));
      nothing_sent = refl;
    }

    not_empty :
        (o : Buffer) (s : List ℕ)
        → IsStuck (b ∷ held) c.sent o s
        → (readable_bytes o == 0) ≡ true
        → ⊥
    not_empty o s k z =
        let r : readable_bytes o ≡ 0 = ground (arith, z) in
        omega (arith, readable_lem o k.valid, length-contents o k.valid, ap length k.holds)

    fact : IsOutputFact (IsStuck (b ∷ held) c.sent)
    fact = record {
      appends = λ o s source k.
          OnOk-map _ _ (append o source)
            (λ o' (w, same). record {
              valid = w;
              behind = k.behind ++ source;
              holds =
                  same ∙ ap (λ l. l ++ source) k.holds ∙ append_assoc (b ∷ held) k.behind source;
              nothing_sent = k.nothing_sent;
            })
            (append-OnOk o source k.valid);
      sends = λ o s t z k. absurd (not_empty o s k z);
    }
