-- ===== src/Net/Connection/Reading.antt =====
-- What `__HandleRead` and `__HandleWrite` come to for each answer.
use neconet.Prelude.{ℕ, zero, suc, ◌≡◌, refl, List, [], ◌∷◌, ok, false}
use neconet.Net.Buffer.{Buffer, got, failed, read_fd}
use neconet.Net.Buffer.Read.{read_fd-failed}
use neconet.Net.Connection.{
  Connection, handle_read, handle_error, handle_close, handle_write, Written, wrote, write_failed,
  writing, notify, message_notice,
}

-- `__HandleRead` of bytes.
pub handle_read-got :
    (c : Connection) (b : ℕ) (rest : List ℕ) (input : Buffer)
    → read_fd c.input (got (b ∷ rest)) ≡ ok (input, got (b ∷ rest))
    → handle_read c (got (b ∷ rest)) ≡ ok (notify (record c { input = input }) message_notice)
unfolding handle_read
handle_read-got c b rest input e = rw e refl

-- `__HandleRead` after an error of `readv`.
pub handle_read-failed : (c : Connection) (errno : ℕ) → handle_read c (failed errno) ≡ ok c
unfolding handle_read handle_error
handle_read-failed c errno = rw (read_fd-failed c.input errno) refl

-- `__HandleRead` at the end of the stream.
pub handle_read-end :
    (c : Connection) (input : Buffer)
    → read_fd c.input (got []) ≡ ok (input, got [])
    → handle_read c (got []) ≡ handle_close (record c { input = input })
unfolding handle_read
handle_read-end c input e = rw e refl

-- `__HandleWrite` without interest in writing.
pub handle_write-quiet :
    (c : Connection) (w : Written) → writing c ≡ false → handle_write c w ≡ ok c
unfolding handle_write
handle_write-quiet c (write_failed errno) e = refl
handle_write-quiet c (wrote zero) e = refl
handle_write-quiet c (wrote (suc n)) e = rw e refl
