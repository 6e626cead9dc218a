-- ===== src/WinSocket/Handles.antt =====
-- The sockets that src/win32/win_socket.cpp opens and closes.
use libcppio.Prelude.{
  ℕ, ◌≡◌, refl, sym, ap, subst, ◌∙◌, Bool, true, false, Option, none, some, List, ◌==◌,
  if◌then◌else◌, arith,
}
use libcppio.Manager.{Created, object, io_exception}
use libcppio.Socket.{Socket, host_port}
use libcppio.WinSocket.{
  SockaddrIn, Winsock, new_win_socket, close_win, win_connect, create_win_client, win_name,
  win_listen, win_bind, create_win_server,
}

-- Which sockets are open, and what Winsock's calls do about it.
pub record Handles (w : Winsock) : Type 0 where
  pub is_open : w.Kernel → ℕ → Bool
  pub opened :
      (k k' : w.Kernel) (fd h : ℕ)
      → w.socket k ≡ (some fd, k')
      → is_open k' h ≡ (if h == fd then true else is_open k h)
  pub connected :
      (fd : ℕ) (name : SockaddrIn) (k : w.Kernel) (h : ℕ)
      → is_open (w.connect fd name k).1 h ≡ is_open k h
  pub bound :
      (fd : ℕ) (name : SockaddrIn) (k : w.Kernel) (h : ℕ)
      → is_open (w.bind fd name k).1 h ≡ is_open k h
  pub listening : (fd n : ℕ) (k : w.Kernel) (h : ℕ) → is_open (w.listen fd n k).1 h ≡ is_open k h
  pub reused : (fd : ℕ) (k : w.Kernel) (h : ℕ) → is_open (w.reuse_address fd k).1 h ≡ is_open k h
  pub closed :
      (fd : ℕ) (k : w.Kernel) (h : ℕ)
      → is_open (w.closesocket fd k) h ≡ (if h == fd then false else is_open k h)

module _ {Kernel : Type 0} where
  -- What follows the making of a socket, and a call that may fail.
  after_socket :
      (Socket → Kernel → Created Socket × Kernel)
      → Created Socket × Kernel
      → Created Socket × Kernel
  after_socket next r = elim r.0 [ object s ↦ next s r.1 | c ↦ (c, r.1) ]

  after_call : {A : Type 0} → (Kernel → A) → (Kernel → A) → Bool × Kernel → A
  after_call done failed r = elim r.0 [ true ↦ done r.1 | false ↦ failed r.1 ]

  after_call-ended :
      {A : Type 0} (done failed : Kernel → A) (r : Bool × Kernel) (b : Bool) (k : Kernel)
      → r ≡ (b, k)
      → after_call done failed r ≡ (if b then done k else failed k)
  unfolding after_call
  after_call-ended done failed r true k e = ap (after_call done failed) e
  after_call-ended done failed r false k e = ap (after_call done failed) e

module _ (w : Winsock) (handles : Handles w) where
  open handles use {is_open}

  -- How a constructor ended, and whether its socket is open then; the others are as they were.
  abbrev pub EndsWith : w.Kernel → ℕ → Created Socket × w.Kernel → Created Socket → Bool → Type 0
  EndsWith k fd done result left_open =
      (done.0 ≡ result)
      × ((h : ℕ) → is_open done.1 h ≡ (if h == fd then left_open else is_open k h))

  module _ (k k1 : w.Kernel) (fd : ℕ) (address : List ℕ) (made : w.socket k ≡ (some fd, k1)) where
    abbrev pub its_socket : Socket
    its_socket = record { m_socket = fd; m_address = address }

    abbrev pub its_name : SockaddrIn
    its_name = record {
      sin_addr = w.inet_addr (host_port address).0;
      sin_port = w.port_of (host_port address).1;
    }

    socket_made : new_win_socket w address k ≡ (object its_socket, k1)
    unfolding new_win_socket
    socket_made =
        ap
          (λ (r : Option ℕ × w.Kernel). elim r.0 as (λ _. Created Socket × w.Kernel) [
            | none ↦ (io_exception, r.1)
            | some n ↦ (object (record { m_socket = n; m_address = address }), r.1)
          ])
          made

    client_result :
        (b : Bool) (k2 : w.Kernel)
        → w.connect fd its_name k1 ≡ (b, k2)
        → create_win_client w address k
          ≡ (if b then (object its_socket, k2) else (io_exception, k2))
    unfolding create_win_client win_connect after_socket after_call
    client_result b k2 e =
        ap (after_socket (win_connect w)) socket_made
        ∙ after_call-ended (λ k'. (object its_socket, k')) (λ k'. (io_exception, k'))
            (w.connect fd its_name k1) b k2 e

    listen_result :
        (b : Bool) (k3 k4 : w.Kernel)
        → w.listen fd 10 k3 ≡ (b, k4)
        → win_listen w its_socket k3
          ≡ (if b then (object its_socket, k4) else (io_exception, w.closesocket fd k4))
    unfolding win_listen close_win after_call
    listen_result b k3 k4 e =
        after_call-ended (λ k'. (object its_socket, k')) (λ k'. (io_exception, w.closesocket fd k'))
          (w.listen fd 10 k3) b k4 e

    bind_result :
        (b : Bool) (k2 k3 : w.Kernel)
        → w.bind fd (win_name w address) k2 ≡ (b, k3)
        → win_bind w its_socket k2 ≡ (if b then win_listen w its_socket k3 else (io_exception, k3))
    unfolding win_bind after_call
    bind_result b k2 k3 e =
        after_call-ended (win_listen w its_socket) (λ k'. (io_exception, k'))
          (w.bind fd (win_name w address) k2) b k3 e

    server_result :
        (b : Bool) (k2 : w.Kernel)
        → w.reuse_address fd k1 ≡ (b, k2)
        → create_win_server w address k
          ≡ (if b then win_bind w its_socket k2 else (io_exception, k2))
    unfolding create_win_server after_socket after_call
    server_result b k2 e =
        ap
          (after_socket (λ s k'.
            after_call (win_bind w s) (λ k''. (io_exception, k'')) (w.reuse_address s.m_socket k')))
          socket_made
        ∙ after_call-ended (win_bind w its_socket) (λ k'. (io_exception, k'))
            (w.reuse_address fd k1) b k2 e

    module _ (connected enabled bound listening : Bool) (kc k2 k3 k4 : w.Kernel)
        (ec : w.connect fd its_name k1 ≡ (connected, kc))
        (e2 : w.reuse_address fd k1 ≡ (enabled, k2))
        (e3 : w.bind fd (win_name w address) k2 ≡ (bound, k3))
        (e4 : w.listen fd 10 k3 ≡ (listening, k4)) where
      -- The socket is open in each of the states after these calls.
      stays :
          (k' : w.Kernel)
          → ((h : ℕ) → is_open k' h ≡ is_open k1 h)
          → (h : ℕ) → is_open k' h ≡ (if h == fd then true else is_open k h)
      stays k' same h = same h ∙ handles.opened k k1 fd h made

      in_kc : (h : ℕ) → is_open kc h ≡ is_open k1 h
      in_kc h = ap (λ r. is_open r.1 h) (sym ec) ∙ handles.connected fd its_name k1 h

      in_k2 : (h : ℕ) → is_open k2 h ≡ is_open k1 h
      in_k2 h = ap (λ r. is_open r.1 h) (sym e2) ∙ handles.reused fd k1 h

      in_k3 : (h : ℕ) → is_open k3 h ≡ is_open k1 h
      in_k3 h =
          ap (λ r. is_open r.1 h) (sym e3) ∙ handles.bound fd (win_name w address) k2 h ∙ in_k2 h

      in_k4 : (h : ℕ) → is_open k4 h ≡ is_open k1 h
      in_k4 h = ap (λ r. is_open r.1 h) (sym e4) ∙ handles.listening fd 10 k3 h ∙ in_k3 h

      closed_at_last :
          (h : ℕ) → is_open (w.closesocket fd k4) h ≡ (if h == fd then false else is_open k h)
      closed_at_last h = ground (arith, handles.closed fd k4 h, stays k4 in_k4 h)

      listen_end :
          (b : Bool)
          → EndsWith k fd
              (if b then (object its_socket, k4) else (io_exception, w.closesocket fd k4))
              (if b then object its_socket else io_exception)
              b
      listen_end true = (refl, stays k4 in_k4)
      listen_end false = (refl, closed_at_last)

      bind_end :
          (b : Bool)
          → EndsWith k fd
              (if b then win_listen w its_socket k3 else (io_exception, k3))
              (if b then (if listening then object its_socket else io_exception) else io_exception)
              (if b then listening else true)
      bind_end true =
          subst
            (λ r. EndsWith k fd r (if listening then object its_socket else io_exception) listening)
            (sym (listen_result listening k3 k4 e4)) (listen_end listening)
      bind_end false = (refl, stays k3 in_k3)

      reuse_end :
          (b : Bool)
          → EndsWith k fd
              (if b then win_bind w its_socket k2 else (io_exception, k2))
              (if b
                then (if bound
                    then (if listening then object its_socket else io_exception)
                    else io_exception)
                else io_exception)
              (if b then (if bound then listening else true) else true)
      reuse_end true =
          subst
            (λ r.
              EndsWith k fd r
                (if bound
                  then (if listening then object its_socket else io_exception)
                  else io_exception)
                (if bound then listening else true))
            (sym (bind_result bound k2 k3 e3)) (bind_end bound)
      reuse_end false = (refl, stays k2 in_k2)

      connect_end :
          (b : Bool)
          → EndsWith k fd
              (if b then (object its_socket, kc) else (io_exception, kc))
              (if b then object its_socket else io_exception)
              true
      connect_end true = (refl, stays kc in_kc)
      connect_end false = (refl, stays kc in_kc)

      -- Once `socket` has made a socket, `createClient` and `createServer` end so, by whether `connect`,
      -- `setsockopt`, `bind` and `listen` succeed: the object is made if all that is called succeeds,
      -- otherwise an IoException is thrown. The socket is closed if `listen` fails, but stays open, with
      -- no object to close it, if `connect`, `setsockopt` or `bind` fails. The other sockets are open or
      -- not as before.
      pub created-open :
          EndsWith k fd
            (create_win_client w address k)
            (if connected then object its_socket else io_exception)
            true
          × EndsWith k fd
              (create_win_server w address k)
              (if enabled
                then (if bound
                    then (if listening then object its_socket else io_exception)
                    else io_exception)
                else io_exception)
              (if enabled then (if bound then listening else true) else true)
      created-open = (
        subst (λ r. EndsWith k fd r (if connected then object its_socket else io_exception) true)
            (sym (client_result connected kc ec)) (connect_end connected),
        subst
            (λ r.
              EndsWith k fd r
                (if enabled
                  then (if bound
                      then (if listening then object its_socket else io_exception)
                      else io_exception)
                  else io_exception)
                (if enabled then (if bound then listening else true) else true))
            (sym (server_result enabled k2 e2)) (reuse_end enabled),
      )
