-- ===== src/Net/Sockets/Tests.antt =====
-- Answers of the kernel to calls on a socket.
use neconet.Prelude.{◌≡◌, refl, true, false, ok}
use neconet.Prelude.Int.{negsuc}
use neconet.Net.Address.{zeroed, any_address}
use neconet.Net.Sockets.{
  fresh, done, failed, accept, accept_from, bind_or_die, listen_or_die, close, shutdown_write,
  get_local_addr, get_socket_error,
}

-- A listener whose address is taken listens all the same, where the kernel lets it.
unbound :
    (listen_or_die (bind_or_die (fresh 5) (any_address 9981) (failed 98)) (done _)).listening ≡ true
unfolding listen_or_die bind_or_die
unbound = refl

shut : (shutdown_write (close (fresh 5) (failed 5)) (done _)).closed ≡ false
unfolding shutdown_write close
shut = refl

-- EAGAIN is put back, and EBADF is not.
again : accept (failed 11) 0 ≡ ok (negsuc 0, 11)
unfolding accept
again = refl

bad_descriptor : accept (failed 9) 0 ≡ ok (negsuc 0, 0)
unfolding accept
bad_descriptor = refl

peer_kept : accept_from (failed 11) 0 (any_address 0) ≡ ok (negsuc 0, any_address 0)
unfolding accept_from accept
peer_kept = refl

no_local : get_local_addr (failed 9) ≡ zeroed
unfolding get_local_addr
no_local = refl

own_error : get_socket_error (failed 9) ≡ 9
unfolding get_socket_error
own_error = refl
