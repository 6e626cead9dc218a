-- ===== src/LineManager.antt =====
-- createLineManager of src/posix/createlinemanager.cpp: the manager with the factories of the library.
pub mod Routes
mod Tests
use libcppio.Prelude.{ℕ, Bool, List, []}
use libcppio.Manager.{Created, IoLineFactory, register_factory}
use libcppio.Inproc
use libcppio.Socket.Open.{local_supports_scheme, tcp_supports_scheme}

-- What makes the lines and the acceptors of one kind, in the world of the program.
pub record Maker (World Line Acceptor : Type 0) : Type 0 where
  pub make_client : List ℕ → World → Created Line × World
  pub make_server : List ℕ → World → Created Acceptor × World

module _ {World Line Acceptor : Type 0} where
  unfoldable pub factory :
      (List ℕ → Bool) → Maker World Line Acceptor → IoLineFactory World Line Acceptor
  factory supports maker = record {
    supports_scheme = supports;
    create_client = maker.make_client;
    create_server = maker.make_server;
  }

  -- `createLineManager`: InprocLineFactory, UnixSocketFactory and TcpSocketFactory, in this order.
  unfoldable pub create_line_manager :
      (inproc local tcp : Maker World Line Acceptor) → List (IoLineFactory World Line Acceptor)
  unfolding register_factory factory Inproc.supports_scheme local_supports_scheme
      tcp_supports_scheme
  create_line_manager inproc local tcp =
      register_factory
        (register_factory (register_factory [] (factory Inproc.supports_scheme inproc))
          (factory local_supports_scheme local))
        (factory tcp_supports_scheme tcp)
