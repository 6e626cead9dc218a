-- ===== src/Socket/Lines.antt =====
-- The sockets of src/posix/io_socket.cpp as lines: what the system's `read` and `write` guarantee of
-- a stream is what the messages need of a line.
use libcppio.Prelude.{
  ℕ, suc, ◌≤◌, ◌<◌, ◌≡◌, ◌≢◌, refl, ap, ◌∙◌, ◌⊎◌, inl, inr, Option, none, some, List, [], ◌∷◌, ◌++◌,
  length, take, arith,
}
use libcppio.Line.{ErrorCode, timeout, connection_lost, unknown, received, read_failed, accepted}
use libcppio.Socket.{
  Os, Errno, connreset, notconn, again, timedout, other_error, read_result, unix_write_result,
  tcp_write_result, socket_read, unix_write, tcp_write,
}

-- What the system promises of `read` on a connected blocking stream: while bytes are to come it
-- gives some of them, in order, at most 0x7ffff000 at a time; with none to come it gives none or
-- fails.
pub record StreamIn (os : Os) (fd : ℕ) : Type 0 where
  pub pending : os.Kernel → List ℕ
  pub some_come :
      (k : os.Kernel) (n : ℕ)
      → 0 < n
      → pending k ≢ []
      → (b : ℕ) × (bs : List ℕ) × (k' : os.Kernel) × (os.read fd n k ≡ (some (b ∷ bs), k'))
        × (length (b ∷ bs) ≤ n)
        × (length (b ∷ bs) ≤ 2_147_479_552)
        × (pending k ≡ (b ∷ bs) ++ pending k')
  pub none_come :
      (k : os.Kernel) (n : ℕ)
      → 0 < n
      → pending k ≡ []
      → (r : Option (List ℕ)) × (k' : os.Kernel) × (os.read fd n k ≡ (r, k'))
        × ((r ≡ none) ⊎ (r ≡ some []))

-- What the system promises of `write` on such a stream.
pub record StreamOut (os : Os) (fd : ℕ) : Type 0 where
  pub sent : os.Kernel → List ℕ
  pub some_go :
      (k : os.Kernel) (bs : List ℕ)
      → bs ≢ []
      → (n : ℕ) × (k' : os.Kernel) × (os.write fd bs k ≡ (some (suc n), k'))
        × (suc n ≤ length bs)
        × (sent k' ≡ sent k ++ take (suc n) bs)

read_result-none : (e : Errno) → (c : ErrorCode) × (read_result none e ≡ read_failed c)
unfolding read_result
read_result-none connreset = (connection_lost, refl)
read_result-none notconn = (connection_lost, refl)
read_result-none again = (timeout, refl)
read_result-none timedout = (unknown, refl)
read_result-none other_error = (unknown, refl)

read_result-nil : (e : Errno) → (c : ErrorCode) × (read_result (some []) e ≡ read_failed c)
unfolding read_result
read_result-nil connreset = (connection_lost, refl)
read_result-nil notconn = (connection_lost, refl)
read_result-nil again = (connection_lost, refl)
read_result-nil timedout = (timeout, refl)
read_result-nil other_error = (connection_lost, refl)

read_result-failed :
    (r : Option (List ℕ)) (e : Errno)
    → (r ≡ none) ⊎ (r ≡ some [])
    → (c : ErrorCode) × (read_result r e ≡ read_failed c)
read_result-failed r e (inl p) =
    let (c, q) = read_result-none e in (c, ap (λ x. read_result x e) p ∙ q)
read_result-failed r e (inr p) =
    let (c, q) = read_result-nil e in (c, ap (λ x. read_result x e) p ∙ q)

module _ (os : Os) (fd : ℕ) where
  socket_read-some :
      (k k' : os.Kernel) (n b : ℕ) (bs : List ℕ)
      → os.read fd n k ≡ (some (b ∷ bs), k')
      → socket_read os fd k n ≡ (received (b ∷ bs), k')
  unfolding socket_read read_result
  socket_read-some k k' n b bs e = rw e

  socket_read-failed :
      (k k' : os.Kernel) (n : ℕ) (r : Option (List ℕ)) (c : ErrorCode)
      → os.read fd n k ≡ (r, k')
      → read_result r (os.errno k') ≡ read_failed c
      → socket_read os fd k n ≡ (read_failed c, k')
  unfolding socket_read
  socket_read-failed k k' n r c e p = rw (e, p)

  pub unix_write-some :
      (k k' : os.Kernel) (bs : List ℕ) (n : ℕ)
      → os.write fd bs k ≡ (some (suc n), k')
      → unix_write os fd k bs ≡ (accepted (suc n), k')
  unfolding unix_write unix_write_result
  unix_write-some k k' bs n e = rw e

  pub tcp_write-some :
      (k k' : os.Kernel) (bs : List ℕ) (n : ℕ)
      → os.write fd bs k ≡ (some (suc n), k')
      → tcp_write os fd k bs ≡ (accepted (suc n), k')
  unfolding tcp_write tcp_write_result
  tcp_write-some k k' bs n e = rw e

  -- Both classes read in the same way.
  pub read_some :
      (stream : StreamIn os fd) (k : os.Kernel) (n : ℕ)
      → 0 < n
      → stream.pending k ≢ []
      → (bs : List ℕ) × (k' : os.Kernel) × (socket_read os fd k n ≡ (received bs, k'))
        × (0 < length bs)
        × (length bs ≤ n)
        × (length bs < 2_147_483_648)
        × (stream.pending k ≡ bs ++ stream.pending k')
  read_some stream k n h ne =
      let (b, bs, k', e, fits, bound, p) = stream.some_come k n h ne in
      (b ∷ bs, k', socket_read-some k k' n b bs e, omega arith, fits, omega (arith, bound), p)

  pub read_end :
      (stream : StreamIn os fd) (k : os.Kernel) (n : ℕ)
      → 0 < n
      → stream.pending k ≡ []
      → (c : ErrorCode) × (k' : os.Kernel) × (socket_read os fd k n ≡ (read_failed c, k'))
  read_end stream k n h none_left =
      let (r, k', e, d) = stream.none_come k n h none_left in
      let (c, q) = read_result-failed r (os.errno k') d in
      (c, k', socket_read-failed k k' n r c e q)
