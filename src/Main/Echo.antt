-- ===== src/Main/Echo.antt =====
-- What `onMessage` prints of the bytes that a connection receives.
use neconet.Prelude.{
  ℕ, ◌+◌, ◌-◌, ◌<◌, ◌≤◌, ◌≡◌, refl, ap, ◌∙◌, List, [], ◌∷◌, ◌++◌, length, ok, arith,
  length-overwrite, slice,
}
use neconet.Base.Text.{Text}
use neconet.Net.Buffer.{
  Buffer, Readv, failed, got, cheap_prepend, readable_bytes, retrieve_as_string,
}
use neconet.Net.Buffer.Inv.{IsValid, contents, readable_lem}
use neconet.Net.Buffer.Append.{stored, stored-IsValid, contents-stored}
use neconet.Net.Buffer.Read.{read_fd_fits}
use neconet.Net.Buffer.Moves.{retrieve_as_string_lem}
use neconet.Net.Connection.{Connection, notify, message_notice}
use neconet.Net.Connection.Reading.{handle_read-got, handle_read-failed}
use neconet.Main.{Line, received, content, c_str, on_message, receive, receive_all}

-- The input buffer is valid and empty, with room for `cap` bytes.
pub record IsReady (cap : ℕ) (b : Buffer) : Type 0 where
  pub valid : IsValid b
  pub reader : b.reader_index ≡ cheap_prepend
  pub writer : b.writer_index ≡ cheap_prepend
  pub room : cheap_prepend + cap ≤ length b.bytes

-- `readv` fails, or stores between one byte and `cap`.
abbrev pub Fits : ℕ → Readv → Type 0
Fits cap (failed errno) = Unit {0}
Fits cap (got bytes) = (0 < length bytes) × (length bytes ≤ cap)

abbrev pub AllFit : ℕ → List Readv → Type 0
AllFit cap [] = Unit {0}
AllFit cap (r ∷ rs) = Fits cap r × AllFit cap rs

-- Two lines for each read that is no failure.
abbrev pub lines : Text → List Readv → List Line
lines name [] = []
lines name (failed errno ∷ rs) = lines name rs
lines name (got bytes ∷ rs) = received (length bytes) name ∷ content (c_str bytes) ∷ lines name rs

receive-failed :
    (name : Text) (c : Connection) (errno : ℕ) → receive name c (failed errno) ≡ ok ([], c)
unfolding receive
receive-failed name c errno = rw (handle_read-failed c errno) refl

-- A read, and then a callback that takes all.
module _ (cap : ℕ) (name : Text) (c : Connection) (b : ℕ) (rest : List ℕ) (h : IsReady cap c.input)
    (small : length (b ∷ rest) ≤ cap) where
  full : Buffer
  full = stored c.input (b ∷ rest)

  fits : c.input.writer_index + length (b ∷ rest) ≤ length c.input.bytes
  fits = let r = h.writer in let m = h.room in omega arith

  full-IsValid : IsValid full
  unfolding full
  full-IsValid = stored-IsValid c.input (b ∷ rest) h.valid fits

  length-full : length full.bytes ≡ length c.input.bytes
  unfolding full
  length-full = length-overwrite c.input.bytes (b ∷ rest) c.input.writer_index fits

  contents-full : contents full ≡ b ∷ rest
  unfolding full
  contents-full =
      contents-stored c.input (b ∷ rest) h.valid fits
      ∙ ap (λ n. slice c.input.bytes c.input.reader_index n ++ (b ∷ rest)) none_before
    where
      none_before : c.input.writer_index - c.input.reader_index ≡ 0
      none_before = let r = h.reader in let w = h.writer in omega arith

  full_readable : readable_bytes full ≡ length (b ∷ rest)
  unfolding full
  full_readable =
      let r = h.reader in let w = h.writer in readable_lem full full-IsValid ∙ omega arith

  taken :
      (input : Buffer) × (retrieve_as_string full ≡ ok (contents full, input)) × IsReady cap input
  taken =
      let m = h.room in
      let (input, e, v, _, r, w, same) =
        retrieve_as_string_lem full full-IsValid (omega (arith, length-full)) in
      (
        input,
        e,
        record {
          valid = v;
          reader = r;
          writer = w;
          room = omega (arith, length-full, ap length same);
        },
      )

  receive-got :
      (d : Connection) × (receive name c (got (b ∷ rest))
        ≡ ok (received (length (b ∷ rest)) name ∷ content (c_str (b ∷ rest)) ∷ [], d))
      × IsReady cap d.input
  unfolding receive on_message full
  receive-got =
      let (input, e, k) = taken in
      let read = handle_read-got c b rest full (read_fd_fits c.input (b ∷ rest) h.valid fits) in
      (
        record (notify (record c { input = full }) message_notice) { input = input },
        rw read (rw e (rw contents-full (rw full_readable refl))),
        k,
      )

-- However many reads there are, if the input buffer is valid and empty, and each read fails or stores at
-- least one byte and no more than fit behind the prepend area, no assertion fails, and `main`'s callback
-- prints for every read that does not fail how many bytes it stored, and then these bytes up to the first
-- zero byte: each read once, in order. The buffer ends as it began, valid and empty.
pub receive_all_lem :
    (cap : ℕ) (name : Text) (rs : List Readv) (c : Connection)
    → IsReady cap c.input
    → AllFit cap rs
    → (d : Connection) × (receive_all name c rs ≡ ok (lines name rs, d)) × IsReady cap d.input
unfolding receive_all
receive_all_lem cap name [] c h fit = (c, refl, h)
receive_all_lem cap name (failed errno ∷ rs) c h fit =
    let (d, e, k) = receive_all_lem cap name rs c h fit.1 in
    (d, rw (receive-failed name c errno) (rw e refl), k)
receive_all_lem cap name (got [] ∷ rs) c h fit = absurd (let x = fit.0.0 in omega arith)
receive_all_lem cap name (got (b ∷ rest) ∷ rs) c h fit =
    let (d, e, k) = receive-got cap name c b rest h fit.0.1 in
    let (f, x, j) = receive_all_lem cap name rs d k fit.1 in (f, rw e (rw x refl), j)
