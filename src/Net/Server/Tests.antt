-- ===== src/Net/Server/Tests.antt =====
-- CTcpServer and CAcceptor: tests, and the theorems at inputs that meet their hypotheses.
use neconet.Prelude.{ℕ, ◌≡◌, refl, [], ◌∷◌, none, ok, err, no_return, arith}
use neconet.Base.Text.{Text, decimal}
use neconet.Net.Poller.Fixtures.{empty}
use neconet.Net.Server.{conn_name, Server, handle_accept, construct}
use neconet.Net.Address.{zeroed}
use neconet.Net.Sockets.{done, failed, accept, accept_from}
use neconet.Net.Acceptor.{construct_acceptor}
use neconet.Net.Sockets.{create_nonblocking_or_die}
use neconet.Net.Server.Names.{conn_name_injective}
use neconet.Net.Poller.Fresh.{IsFresh}

-- A server after its constructor.
abbrev idle : Server
idle = record {
  name = b'h' ∷ [];
  poller = empty;
  next_conn_id = 1;
  connection_map = λ id. none;
  heap = λ p. none;
  destroying = [];
}

-- What the first connection is called.
abbrev first_name : Text
first_name = conn_name idle 1

idle-IsFresh : IsFresh empty 3
idle-IsFresh fd h = cc

-- An error of `accept4` changes nothing; a descriptor never reaches the server.
accept_error : handle_accept idle 8 3 (failed 11) 0 ≡ ok idle
unfolding handle_accept accept_from accept
accept_error = refl

accept_descriptor : handle_accept idle 8 3 (done (7, zeroed)) 0 ≡ err no_return
unfolding handle_accept accept_from accept
accept_descriptor = refl

first_name_text : first_name ≡ b'h' ∷ b'#' ∷ b'1' ∷ []
unfolding decimal
first_name_text = refl

conn_name_injective_example : ◌≡◌ {A = ℕ} 12 12
conn_name_injective_example = conn_name_injective idle 12 12 (omega arith) (omega arith) refl

construct_stops :
    construct
      (λ a. b'h' ∷ [])
      zeroed
      (record { created = done 5; reused = done _; bound = done _ })
      3
      empty
    ≡ err no_return
unfolding construct construct_acceptor create_nonblocking_or_die
construct_stops = refl
