-- ===== src/NamedPipe/Meeting.antt =====
-- How the two ends of a pipe of src/win32/pipes.cpp find each other.
use libcppio.Prelude.{
  ℕ, ◌+◌, ◌%◌, ◌^◌, ◌≡◌, refl, subst, Bool, true, false, List, [], ◌∷◌, ◌==◌, if◌then◌else◌,
}
use libcppio.Prelude.Int.{ℤ}
use libcppio.Manager.{Created, object, null, io_exception, other_exception}
use libcppio.NamedPipe.{
  PipeError, no_error, pipe_connected, io_pending, other_error, byte_mode, WinPipes, invalid_handle,
  pipe_path, NamedPipeLine, NamedPipeAcceptor, new_pipe_address, open_own_pipe, read_own_name,
  set_mode, create_pipe_client, connect_pipe, give_line, give_name, pipe_wait_connection,
}

-- What holds of the object, if there is one.
abbrev pub IfObject : {A : Type 0} → (A → Type 0) → Created A → Type 0
IfObject P (object a) = P a
IfObject P null = Unit
IfObject P io_exception = Unit
IfObject P other_exception = Unit

module _ (w : WinPipes) where
  -- The line is for a pipe of this handle and this name.
  abbrev pub ForPipe : List ℕ → ℕ → NamedPipeLine → Type 0
  ForPipe name pipe line = (line.m_address ≡ name) × (line.m_pipe ≡ pipe)

  give_line-ForPipe :
      (a : NamedPipeAcceptor) (name : List ℕ) (timeout : ℤ) (k : w.Kernel)
      → IfObject (ForPipe name a.m_waiting_pipe) (give_line w a name timeout k).0
  unfolding give_line
  give_line-ForPipe a name timeout k = by_result (connect_pipe w a.m_waiting_pipe timeout k)
    where
      by_result :
          (r : Bool × w.Kernel)
          → IfObject
              (ForPipe name a.m_waiting_pipe)
              (elim r.0 as (λ _. Created NamedPipeLine × w.Kernel) [
                | true ↦ (object (record { m_address = name; m_pipe = a.m_waiting_pipe }), r.1)
                | false ↦ (null, w.close_handle a.m_waiting_pipe r.1)
              ]).0
      by_result (true, k') = (refl, refl)
      by_result (false, k') = tt

  give_name-ForPipe :
      (a : NamedPipeAcceptor) (name : List ℕ) (timeout : ℤ) (k : w.Kernel)
      → IfObject (ForPipe name a.m_waiting_pipe) (give_name w a name timeout k).0
  unfolding give_name
  give_name-ForPipe a name timeout k = by_result (connect_pipe w a.m_pipe timeout k)
    where
      wrote : w.Kernel → w.Kernel
      wrote k' =
          w.disconnect_named_pipe a.m_pipe
            (w.flush_file_buffers a.m_pipe (w.write_file a.m_pipe name k').1)

      by_result :
          (r : Bool × w.Kernel)
          → IfObject
              (ForPipe name a.m_waiting_pipe)
              (elim r.0 as (λ _. Created NamedPipeLine × w.Kernel) [
                | true ↦ give_line w a name timeout (wrote r.1)
                | false ↦ (null, w.close_handle a.m_waiting_pipe r.1)
              ]).0
      by_result (true, k') = give_line-ForPipe a name timeout (wrote k')
      by_result (false, k') = tt

  -- The line was opened by the name that was read.
  abbrev pub Opened : List ℕ → NamedPipeLine → Type 0
  Opened name line =
      (line.m_address ≡ name)
      × ((k : w.Kernel) × ((w.create_file (pipe_path name) k).0 ≡ line.m_pipe))

  open_own_pipe-Opened :
      (name : List ℕ) (k : w.Kernel) → IfObject (Opened name) (open_own_pipe w name k).0
  unfolding open_own_pipe
  open_own_pipe-Opened [] k = tt
  open_own_pipe-Opened (c ∷ cs) k =
      by_test ((w.create_file (pipe_path (c ∷ cs)) k).0 == invalid_handle)
    where
      by_test :
          (b : Bool)
          → IfObject
              (Opened (c ∷ cs))
              (if◌then◌else◌ {A = Created NamedPipeLine × w.Kernel} b
                (io_exception, (w.create_file (pipe_path (c ∷ cs)) k).1)
                (
                  object (record {
                    m_address = c ∷ cs;
                    m_pipe = (w.create_file (pipe_path (c ∷ cs)) k).0;
                  }),
                  (w.create_file (pipe_path (c ∷ cs)) k).1,
                )).0
      by_test true = tt
      by_test false = (refl, (k, refl))

  -- What the client reads from the acceptor's pipe, at an address.
  abbrev pub name_read : List ℕ → w.Kernel → List ℕ
  name_read address k =
      let (server_pipe, k1) = w.create_file (pipe_path address) k in
      (w.read_file server_pipe 1_024 (w.set_message_mode server_pipe k1).1).0.1

  set_mode-Opened :
      (server_pipe : ℕ) (k : w.Kernel)
      → IfObject
          (Opened (w.read_file server_pipe 1_024 (w.set_message_mode server_pipe k).1).0.1)
          (set_mode w server_pipe k).0
  unfolding set_mode read_own_name
  set_mode-Opened server_pipe k = by_result (w.set_message_mode server_pipe k)
    where
      goes : w.Kernel → Created NamedPipeLine × w.Kernel
      goes k' = read_own_name w server_pipe k'

      opened :
          (k' : w.Kernel) → IfObject (Opened (w.read_file server_pipe 1_024 k').0.1) (goes k').0
      opened k' =
          open_own_pipe-Opened (w.read_file server_pipe 1_024 k').0.1
            (w.close_handle server_pipe (w.read_file server_pipe 1_024 k').1)

      by_error :
          (e : PipeError) (k' : w.Kernel)
          → IfObject
              (Opened (w.read_file server_pipe 1_024 k').0.1)
              (elim e as (λ _. Created NamedPipeLine × w.Kernel) [
                | no_error ↦ goes k'
                | pipe_connected ↦ (io_exception, k')
                | io_pending ↦ (io_exception, k')
                | other_error ↦ (io_exception, k')
              ]).0
      by_error no_error k' = opened k'
      by_error pipe_connected k' = tt
      by_error io_pending k' = tt
      by_error other_error k' = tt

      by_result :
          (r : Bool × w.Kernel)
          → IfObject
              (Opened (w.read_file server_pipe 1_024 r.1).0.1)
              (elim r.0 as (λ _. Created NamedPipeLine × w.Kernel) [
                | true ↦ goes r.1
                | false ↦ elim (w.last_error r.1) as (λ _. Created NamedPipeLine × w.Kernel) [
                  | no_error ↦ goes r.1
                  | pipe_connected ↦ (io_exception, r.1)
                  | io_pending ↦ (io_exception, r.1)
                  | other_error ↦ (io_exception, r.1)
                ]
              ]).0
      by_result (true, k') = opened k'
      by_result (false, k') = by_error (w.last_error k') k'

  client-Opened :
      (address : List ℕ) (k : w.Kernel)
      → IfObject (Opened (name_read address k)) (create_pipe_client w address k).0
  unfolding create_pipe_client
  client-Opened address k = by_test ((w.create_file (pipe_path address) k).0 == invalid_handle)
    where
      by_test :
          (b : Bool)
          → IfObject
              (Opened (name_read address k))
              (if◌then◌else◌ {A = Created NamedPipeLine × w.Kernel} b
                (io_exception, (w.create_file (pipe_path address) k).1)
                (set_mode w
                  (w.create_file (pipe_path address) k).0
                  (w.create_file (pipe_path address) k).1)).0
      by_test true = tt
      by_test false =
          set_mode-Opened (w.create_file (pipe_path address) k).0
            (w.create_file (pipe_path address) k).1

  -- If the client reads from the acceptor's pipe the name that `waitConnection` makes, then the line
  -- that `waitConnection` returns and the one that the client's constructor makes, if they do, have
  -- this name for their address: the acceptor's line is the pipe that `waitConnection` has created
  -- under the name, and the client's is what was opened under it.
  pub pipe_ends-meet :
      (a : NamedPipeAcceptor) (timeout : ℤ) (k : w.Kernel) (address : List ℕ) (kc : w.Kernel)
      → name_read address kc ≡ new_pipe_address a
      → IfObject
          (ForPipe
            (new_pipe_address a)
            (w.create_named_pipe (pipe_path (new_pipe_address a)) byte_mode 65_536 k).0)
          (pipe_wait_connection w a timeout k).0.0
        × IfObject (Opened (new_pipe_address a)) (create_pipe_client w address kc).0
  unfolding pipe_wait_connection
  pipe_ends-meet a timeout k address kc e = (
    give_name-ForPipe
        (record a {
          m_waiting_pipe =
              (w.create_named_pipe (pipe_path (new_pipe_address a)) byte_mode 65_536 k).0;
          m_counter = (a.m_counter + 1) % 2 ^ 32;
        })
        (new_pipe_address a) timeout
        (w.create_named_pipe (pipe_path (new_pipe_address a)) byte_mode 65_536 k).1,
    subst (λ name. IfObject (Opened name) (create_pipe_client w address kc).0) e
        (client-Opened address kc),
  )
