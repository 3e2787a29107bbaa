-- ===== src/Net/Server/Names.antt =====
-- The names of a server's connections: different numbers give different names.
use neconet.Prelude.{
  ℕ, ◌<◌, ◌≤◌, ◌≡◌, refl, sym, ap, ◌∙◌, [], ◌∷◌, ◌++◌, length, take_all, drop, arith,
}
use neconet.Base.Text.{Text, decimal, snprintf}
use neconet.Base.Text.Laws.{decimal_injective, length-decimal}
use neconet.Net.Server.{Server, conn_name, int_bound}

drop-append : (s t : Text) → drop (length s) (s ++ t) ≡ t
drop-append [] t = refl
drop-append (c ∷ s) t = drop-append s t

-- `#` and the number fit into the buffer.
whole : (id : ℕ) → id < int_bound → snprintf 32 (b'#' ∷ decimal id) ≡ b'#' ∷ decimal id
whole id h =
    let short : length (decimal id) ≤ 10 = length-decimal 9 id (omega arith) in
    take_all 31 (b'#' ∷ decimal id) (omega arith)

-- For numbers that an `int` can hold, the buffer of 32 bytes cuts nothing off, and connections of one
-- server with the same name have the same number.
pub conn_name_injective :
    (s : Server) (i j : ℕ) → i < int_bound → j < int_bound → conn_name s i ≡ conn_name s j → i ≡ j
conn_name_injective s i j h k e =
    decimal_injective i j (ap (drop 1) (sym (whole i h) ∙ same ∙ whole j k))
  where
    same : snprintf 32 (b'#' ∷ decimal i) ≡ snprintf 32 (b'#' ∷ decimal j)
    same =
        sym (drop-append s.name (snprintf 32 (b'#' ∷ decimal i)))
        ∙ ap (drop (length s.name)) e
        ∙ drop-append s.name (snprintf 32 (b'#' ∷ decimal j))
