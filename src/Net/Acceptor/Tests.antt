-- ===== src/Net/Acceptor/Tests.antt =====
-- The acceptor that the source means to make, with the descriptor 5 and its channel at the pointer 3.
use neconet.Prelude.{◌≡◌, refl, true, none}
use neconet.Net.Address.{any_address}
use neconet.Net.Poller.{with_reader}
use neconet.Net.Poller.Fixtures.{empty}
use neconet.Net.Sockets.{done, failed, bind_or_die, set_reuse_addr}
use neconet.Net.Acceptor.{Created, with_socket}

abbrev answers : Created
answers = record { created = done 5; reused = done _; bound = failed 98 }

not_bound : (with_socket (any_address 9981) answers 3 5).socket.bound ≡ none
unfolding bind_or_die set_reuse_addr
not_bound = refl

reads : (with_reader empty 3 5).heap 3 ≡ record (neconet.Net.Channel.init 5) { has_read = true }
reads = refl
