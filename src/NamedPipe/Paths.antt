-- ===== src/NamedPipe/Paths.antt =====
-- The names that NamedPipeAcceptor::waitConnection of src/win32/pipes.cpp gives to CreateNamedPipe.
use libcppio.Prelude.{
  ℕ, suc, ◌+◌, ◌%◌, ◌^◌, ◌<◌, ◌≡◌, ◌≢◌, refl, sym, ap, ◌∙◌, Bool, true, false, List, [], ◌∷◌, ◌++◌,
  All, arith, ◌==◌,
}
use libcppio.Prelude.Int.{ℤ, pos, negsuc, narrow}
use libcppio.Manager.{Created, object, null}
use libcppio.Socket.{c_string}
use libcppio.Socket.Names.{c_string-tail}
use libcppio.NamedPipe.{
  WinPipes, PipeError, no_error, pipe_connected, io_pending, other_error, byte_mode,
  NamedPipeAcceptor, NamedPipeLine, pipe_prefix, pipe_path, decimal, to_string, new_pipe_address,
  msec_word, connect_pending, connect_pipe, give_line, give_name, pipe_wait_connection,
}
use libcppio.NamedPipe.Decimal.{IsDigit, decimal-AllDigit}
use libcppio.NamedPipe.Names.{Calls, new_pipe_address-ne, Calls-counter, append-eq_back}

-- A record of the names that CreateNamedPipe was given, the last one first. No other call that
-- `waitConnection` makes adds to it.
pub record NameRecord (w : WinPipes) : Type 1 where
  pub names : w.Kernel → List (List ℕ)
  pub created :
      (name : List ℕ) (size : ℕ) (k : w.Kernel)
      → names (w.create_named_pipe name byte_mode size k).1 ≡ name ∷ names k
  pub event_made : (k : w.Kernel) → names (w.create_event k).1 ≡ names k
  pub connected :
      (pipe event : ℕ) (k : w.Kernel) → names (w.connect_named_pipe pipe event k).1 ≡ names k
  pub waited : (event msec : ℕ) (k : w.Kernel) → names (w.wait_for event msec k).1 ≡ names k
  pub ended : (pipe event : ℕ) (k : w.Kernel) → names (w.overlapped_result pipe event k).1 ≡ names k
  pub cancelled : (pipe : ℕ) (k : w.Kernel) → names (w.cancel_io pipe k) ≡ names k
  pub written : (pipe : ℕ) (bs : List ℕ) (k : w.Kernel) → names (w.write_file pipe bs k).1 ≡ names k
  pub flushed : (pipe : ℕ) (k : w.Kernel) → names (w.flush_file_buffers pipe k) ≡ names k
  pub disconnected : (pipe : ℕ) (k : w.Kernel) → names (w.disconnect_named_pipe pipe k) ≡ names k
  pub closed : (h : ℕ) (k : w.Kernel) → names (w.close_handle h k) ≡ names k

c_string-append :
    (xs ys : List ℕ) → c_string xs ≡ xs → c_string ys ≡ ys → c_string (xs ++ ys) ≡ xs ++ ys
unfolding c_string
c_string-append [] ys ex ey = ey
c_string-append (x ∷ xs) ys ex ey =
    let (nonzero, rest) = c_string-tail x xs ex in rw (nonzero, c_string-append xs ys rest ey) refl

c_string-AllDigit : (cs : List ℕ) → All IsDigit cs → c_string cs ≡ cs
unfolding c_string
c_string-AllDigit [] digits = refl
c_string-AllDigit (c ∷ cs) (digit, digits) =
    let nonzero : (c == 0) ≡ false = ground arith in rw (nonzero, c_string-AllDigit cs digits) refl

c_string-to_string : (i : ℤ) → c_string (to_string i) ≡ to_string i
unfolding to_string c_string
c_string-to_string (pos n) = c_string-AllDigit (decimal (suc n) n) (decimal-AllDigit (suc n) n)
c_string-to_string (negsuc n) =
    rw (c_string-AllDigit (decimal (suc (suc n)) (suc n)) (decimal-AllDigit (suc (suc n)) (suc n)))
      refl

c_string-prefix : c_string pipe_prefix ≡ pipe_prefix
unfolding c_string
c_string-prefix = refl

-- The C string of a new name is the whole of it, if the address has no zero byte.
path_whole :
    (a : NamedPipeAcceptor)
    → c_string a.m_address ≡ a.m_address
    → pipe_path (new_pipe_address a) ≡ pipe_prefix ++ new_pipe_address a
unfolding pipe_path new_pipe_address
path_whole a e =
    c_string-append pipe_prefix (a.m_address ++ to_string (narrow a.m_counter)) c_string-prefix (
      c_string-append a.m_address (to_string (narrow a.m_counter)) e
        (c_string-to_string (narrow a.m_counter)))

module _ (w : WinPipes) (record_of : NameRecord w) where
  open record_of use {names}

  connect_pending-names :
      (pipe event : ℕ) (msec : ℤ) (k : w.Kernel)
      → names (connect_pending w pipe event msec k).1 ≡ names k
  unfolding connect_pending
  connect_pending-names pipe event msec k = by_error (w.last_error k)
    where
      after_wait : Bool → w.Kernel → Bool × w.Kernel
      after_wait signalled k' = elim signalled [
        | true ↦ w.overlapped_result pipe event k'
        | false ↦ (false, w.cancel_io pipe k')
      ]

      by_wait :
          (b : Bool) (k' : w.Kernel) → names k' ≡ names k → names (after_wait b k').1 ≡ names k
      by_wait true k' e = record_of.ended pipe event k' ∙ e
      by_wait false k' e = record_of.cancelled pipe k' ∙ e

      by_error :
          (e : PipeError)
          → names
              (elim e as (λ _. Bool × w.Kernel) [
                | pipe_connected ↦ (true, k)
                | io_pending ↦
                    after_wait
                      (w.wait_for event (msec_word msec) k).0
                      (w.wait_for event (msec_word msec) k).1
                | no_error ↦ (false, k)
                | other_error ↦ (false, k)
              ]).1
            ≡ names k
      by_error pipe_connected = refl
      by_error io_pending =
          by_wait (w.wait_for event (msec_word msec) k).0 (w.wait_for event (msec_word msec) k).1
            (record_of.waited event (msec_word msec) k)
      by_error no_error = refl
      by_error other_error = refl

  connect_pipe-names :
      (pipe : ℕ) (msec : ℤ) (k : w.Kernel) → names (connect_pipe w pipe msec k).1 ≡ names k
  unfolding connect_pipe
  connect_pipe-names pipe msec k =
      record_of.closed event _
      ∙ by_result (w.connect_named_pipe pipe event k1).0
      ∙ record_of.event_made k
    where
      event : ℕ
      event = (w.create_event k).0

      k1 : w.Kernel
      k1 = (w.create_event k).1

      k2 : w.Kernel
      k2 = (w.connect_named_pipe pipe event k1).1

      by_result :
          (b : Bool)
          → names
              (elim b as (λ _. Bool × w.Kernel) [
                | true ↦ (true, k2)
                | false ↦ connect_pending w pipe event msec k2
              ]).1
            ≡ names k1
      by_result true = record_of.connected pipe event k1
      by_result false = connect_pending-names pipe event msec k2 ∙ record_of.connected pipe event k1

  give_line-names :
      (a : NamedPipeAcceptor) (name : List ℕ) (timeout : ℤ) (k : w.Kernel)
      → names (give_line w a name timeout k).1 ≡ names k
  unfolding give_line
  give_line-names a name timeout k =
      by_result (connect_pipe w a.m_waiting_pipe timeout k)
        (connect_pipe-names a.m_waiting_pipe timeout k)
    where
      by_result :
          (r : Bool × w.Kernel)
          → names r.1 ≡ names k
          → names
              (elim r.0 as (λ _. Created NamedPipeLine × w.Kernel) [
                | true ↦ (object (record { m_address = name; m_pipe = a.m_waiting_pipe }), r.1)
                | false ↦ (null, w.close_handle a.m_waiting_pipe r.1)
              ]).1
            ≡ names k
      by_result (true, k') e = e
      by_result (false, k') e = record_of.closed a.m_waiting_pipe k' ∙ e

  give_name-names :
      (a : NamedPipeAcceptor) (name : List ℕ) (timeout : ℤ) (k : w.Kernel)
      → names (give_name w a name timeout k).1 ≡ names k
  unfolding give_name
  give_name-names a name timeout k =
      by_result (connect_pipe w a.m_pipe timeout k) (connect_pipe-names a.m_pipe timeout k)
    where
      wrote : w.Kernel → w.Kernel
      wrote k' =
          w.disconnect_named_pipe a.m_pipe
            (w.flush_file_buffers a.m_pipe (w.write_file a.m_pipe name k').1)

      by_result :
          (r : Bool × w.Kernel)
          → names r.1 ≡ names k
          → names
              (elim r.0 as (λ _. Created NamedPipeLine × w.Kernel) [
                | true ↦ give_line w a name timeout (wrote r.1)
                | false ↦ (null, w.close_handle a.m_waiting_pipe r.1)
              ]).1
            ≡ names k
      by_result (true, k') e =
          give_line-names a name timeout (wrote k')
          ∙ record_of.disconnected a.m_pipe _
          ∙ record_of.flushed a.m_pipe _
          ∙ record_of.written a.m_pipe name k'
          ∙ e
      by_result (false, k') e = record_of.closed a.m_waiting_pipe k' ∙ e

  wait_connection-names :
      (a : NamedPipeAcceptor) (timeout : ℤ) (k : w.Kernel)
      → names (pipe_wait_connection w a timeout k).1 ≡ pipe_path (new_pipe_address a) ∷ names k
  unfolding pipe_wait_connection
  wait_connection-names a timeout k =
      give_name-names
        (record a {
          m_waiting_pipe =
              (w.create_named_pipe (pipe_path (new_pipe_address a)) byte_mode 65_536 k).0;
          m_counter = (a.m_counter + 1) % 2 ^ 32;
        })
        (new_pipe_address a) timeout
        (w.create_named_pipe (pipe_path (new_pipe_address a)) byte_mode 65_536 k).1
      ∙ record_of.created (pipe_path (new_pipe_address a)) 65_536 k

  -- A call of `waitConnection` gives CreateNamedPipe one name, and so does another call on the same
  -- acceptor that comes less than 2^32 calls later, and the two names are different: from whatever the
  -- counter starts at, in any states of the system, and if the address has no zero byte. Only
  -- CreateNamedPipe adds to the record of the names.
  pub wait_connection-apart :
      {a b : NamedPipeAcceptor} {n : ℕ} (timeout later_timeout : ℤ) (k later_k : w.Kernel)
      → c_string a.m_address ≡ a.m_address
      → a.m_counter < 2 ^ 32
      → Calls w a (suc n) b
      → suc n < 2 ^ 32
      → (name : List ℕ) × (later_name : List ℕ) × (names (pipe_wait_connection w a timeout k).1
          ≡ name ∷ names k)
        × (names (pipe_wait_connection w b later_timeout later_k).1 ≡ later_name ∷ names later_k)
        × (name ≢ later_name)
  wait_connection-apart {a} {b} timeout later_timeout k later_k whole h calls few =
      let (same, _) = Calls-counter w h calls in
      (
        pipe_path (new_pipe_address a),
        pipe_path (new_pipe_address b),
        wait_connection-names a timeout k,
        wait_connection-names b later_timeout later_k,
        λ e. new_pipe_address-ne w h calls few (
            append-eq_back pipe_prefix (new_pipe_address a) (new_pipe_address b)
              (sym (path_whole a whole) ∙ e ∙ path_whole b (ap c_string same ∙ whole ∙ sym same))),
      )
