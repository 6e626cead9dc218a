-- ===== src/Socket/Names.antt =====
-- The values that src/posix/io_socket.cpp computes for the system: names and time limits.
use libcppio.Prelude.{
  ℕ, zero, suc, ◌+◌, ◌-◌, ◌*◌, ◌/◌, ◌≤◌, ◌<◌, ◌≡◌, refl, ap, ◌∙◌, Bool, true, false, Option, none,
  some, List, [], ◌∷◌, ◌++◌, length, take, drop, replicate, take-append, ◌==◌, if◌then◌else◌, arith,
  le→leb, leb→le, ap₂, leb,
}
use libcppio.Prelude.Int.{ℤ, pos, negsuc, negate, ◌-ℤ◌, times, quotient}
use libcppio.Socket.{
  TimeVal, c_string, strlen, sa_data, server_name, find_colon, host_port, timeval,
}

-- A string without a zero byte goes on as one.
pub c_string-tail :
    (c : ℕ) (cs : List ℕ) → c_string (c ∷ cs) ≡ c ∷ cs → ((c == 0) ≡ false) × (c_string cs ≡ cs)
unfolding c_string
c_string-tail c cs e = by_test (c == 0) refl e
  where
    by_test :
        (t : Bool)
        → (c == 0) ≡ t
        → (if t then [] else c ∷ c_string cs) ≡ c ∷ cs
        → ((c == 0) ≡ false) × (c_string cs ≡ cs)
    by_test true z h = absurd (omega (arith, ap length h))
    by_test false z h = (z, ap (drop 1) h)

strlen_short :
    (a : List ℕ) (n m : ℕ)
    → c_string a ≡ a
    → n ≤ m
    → length a < n
    → strlen (take n (a ++ replicate m 0)) ≡ some (length a)
unfolding strlen
strlen_short [] (suc n) (suc m) e fits short = refl
strlen_short [] zero m e fits short = absurd (omega arith)
strlen_short [] (suc n) zero e fits short = absurd (omega arith)
strlen_short (c ∷ cs) zero m e fits short = absurd (omega arith)
strlen_short (c ∷ cs) (suc n) m e fits short =
    let (c_nonzero, e') = c_string-tail c cs e in
    rw (c_nonzero, strlen_short cs n m e' (omega arith) (omega arith))

strlen_long :
    (a : List ℕ) (n m : ℕ)
    → c_string a ≡ a
    → n ≤ length a
    → strlen (take n (a ++ replicate m 0)) ≡ none
unfolding strlen
strlen_long a zero m e long = refl
strlen_long [] (suc n) m e long = absurd (omega arith)
strlen_long (c ∷ cs) (suc n) m e long =
    let (c_nonzero, e') = c_string-tail c cs e in
    rw (c_nonzero, strlen_long cs n m e' (omega arith))

take_front : (a b : List ℕ) (n : ℕ) → length a ≤ n → take (length a) (take n (a ++ b)) ≡ a
take_front [] b n h = refl
take_front (c ∷ cs) b (suc n) h = ap (◌∷◌ c) (take_front cs b n (omega arith))
take_front (c ∷ cs) b zero h = absurd (omega arith)

-- The name of a local socket, for an address without a zero byte: the address if it is shorter than
-- 14 bytes; from 14 bytes on the code reads behind its array.
pub server_name_lem :
    (address : List ℕ)
    → c_string address ≡ address
    → (length address < 14 → server_name address ≡ some address)
      × (14 ≤ length address → server_name address ≡ none)
unfolding server_name sa_data
server_name_lem address e = (
  λ short.
      name_of (some (length address)) (measure (strlen_short address 14 14 e (omega arith) short))
      ∙ ap some (
          ap (λ a. take (length address) (take 14 (a ++ replicate 14 0))) e
          ∙ take_front address (replicate 14 0) 14 (omega arith)),
  λ long. name_of none (measure (strlen_long address 14 14 e long)),
)
  where
    named : Option ℕ → Option (List ℕ)
    named r = elim r [ none ↦ none | some n ↦ some (take n (sa_data address)) ]

    measure :
        {r : Option ℕ}
        → strlen (take 14 (address ++ replicate 14 0)) ≡ r
        → strlen (sa_data address) ≡ r
    measure h = ap (λ a. strlen (take 14 (a ++ replicate 14 0))) e ∙ h

    name_of : (r : Option ℕ) → strlen (sa_data address) ≡ r → server_name address ≡ named r
    name_of r h = ap named h

find_colon-append :
    (host port : List ℕ)
    → find_colon host ≡ none
    → find_colon (host ++ (b':' ∷ port)) ≡ some (length host)
unfolding find_colon
find_colon-append [] port e = refl
find_colon-append (c ∷ cs) port e =
    by_test (c == b':') refl (find_colon cs) refl e (find_colon-append cs port)
  where
    shifted : Option ℕ → Option ℕ
    shifted r = elim r [ none ↦ none | some i ↦ some (suc i) ]

    by_test :
        (t : Bool)
        → (c == b':') ≡ t
        → (r : Option ℕ) → find_colon cs ≡ r
        → (if t then some 0 else shifted r) ≡ none
        → (find_colon cs ≡ none → find_colon (cs ++ (b':' ∷ port)) ≡ some (length cs))
        → (if (c == b':') then some 0 else shifted (find_colon (cs ++ (b':' ∷ port))))
          ≡ some (suc (length cs))
    by_test true z r er h next = absurd (grind arith)
    by_test false z (some i) er h next = absurd (grind arith)
    by_test false z none er h next = rw (z, next er)

drop_behind : (host port : List ℕ) → drop (length host + 1) (host ++ (b':' ∷ port)) ≡ port
drop_behind host port =
    ap (λ k. drop k (host ++ (b':' ∷ port))) {x = length host + 1} {y = suc (length host)}
      (omega arith)
    ∙ behind host
  where
    behind : (h : List ℕ) → drop (suc (length h)) (h ++ (b':' ∷ port)) ≡ port
    behind [] = refl
    behind (c ∷ cs) = behind cs

-- A tcp address `host:port`, with no ':' in the host, is taken apart into the host and the port.
pub host_port-joined :
    (host port : List ℕ) → find_colon host ≡ none → host_port (host ++ (b':' ∷ port)) ≡ (host, port)
unfolding host_port
host_port-joined host port e =
    ap split (find_colon-append host port e)
    ∙ ap₂ pair (take-append host (b':' ∷ port) refl) (drop_behind host port)
  where
    pair : List ℕ → List ℕ → List ℕ × List ℕ
    pair h p = (h, p)

    split : Option ℕ → List ℕ × List ℕ
    split r = elim r [
      | none ↦ (host ++ (b':' ∷ port), host ++ (b':' ∷ port))
      | some i ↦ (take i (host ++ (b':' ∷ port)), drop (i + 1) (host ++ (b':' ∷ port)))
    ]

times-negate : (q d : ℕ) → times (negate q) d ≡ negate (q * d)
unfolding times negate
times-negate zero d =
    ap pos {x = 0 * d} {y = 0} (omega arith) ∙ ap negate {x = 0} {y = 0 * d} (omega arith)
times-negate (suc q) d = ap negate {x = (q + 1) * d} {y = suc q * d} (omega arith)

minus-negate : (a b : ℕ) → b ≤ a + 1 → negsuc a -ℤ negate b ≡ negate (a + 1 - b)
unfolding ◌-ℤ◌ negate
minus-negate a zero h = ap negate {x = suc (a + 0)} {y = a + 1 - 0} (omega arith)
minus-negate a (suc b) h = by_test (leb a b) refl
  where
    by_test :
        (t : Bool)
        → leb a b ≡ t
        → (if leb a b then pos (b - a) else negate (a - b)) ≡ negate (a + 1 - suc b)
    by_test true e =
        let le = leb→le a b e in
        let left : b - a ≡ 0 = omega arith in
        let right : a + 1 - suc b ≡ 0 = omega arith in rw (e, left, right) refl
    by_test false e = rw e (ap negate {x = a - b} {y = a + 1 - suc b} (omega arith))

-- The time limit that `setOption` gives to the system is the number of milliseconds it was given,
-- split into seconds and microseconds below one million; a negative number gives two negative
-- parts.
pub timeval_lem :
    (msecs : ℕ)
    → (secs : ℕ) × (usecs : ℕ) × (timeval (pos msecs)
        ≡ record { tv_sec = pos secs; tv_usec = pos usecs })
      × (timeval (negate msecs) ≡ record { tv_sec = negate secs; tv_usec = negate usecs })
      × (secs * 1_000_000 + usecs ≡ msecs * 1_000)
      × (usecs < 1_000_000)
unfolding timeval quotient times ◌-ℤ◌ negate
timeval_lem msecs = (
  msecs / 1_000,
  (msecs - msecs / 1_000 * 1_000) * 1_000,
  timeval_pos msecs,
  timeval_negate msecs,
  omega arith,
  omega arith,
)
  where
    both : ℤ → ℤ → TimeVal
    both s u = record { tv_sec = s; tv_usec = u }

    timeval_pos :
        (n : ℕ)
        → timeval (pos n)
          ≡ record { tv_sec = pos (n / 1_000); tv_usec = pos ((n - n / 1_000 * 1_000) * 1_000) }
    timeval_pos n = rw (le→leb (n / 1_000 * 1_000) n (omega arith))

    timeval_negate :
        (n : ℕ)
        → timeval (negate n) ≡ record {
          tv_sec = negate (n / 1_000);
          tv_usec = negate ((n - n / 1_000 * 1_000) * 1_000);
        }
    timeval_negate zero = refl
    timeval_negate (suc a) =
        ap₂ both (ap negate {x = (a + 1) / 1_000} {y = suc a / 1_000} (omega arith)) (
          ap (λ x. times (negsuc a -ℤ x) 1_000) (times-negate ((a + 1) / 1_000) 1_000)
          ∙ ap (λ x. times x 1_000) (minus-negate a ((a + 1) / 1_000 * 1_000) (omega arith))
          ∙ times-negate (a + 1 - (a + 1) / 1_000 * 1_000) 1_000
          ∙ ap negate {x = (a + 1 - (a + 1) / 1_000 * 1_000) * 1_000}
              {y = (suc a - suc a / 1_000 * 1_000) * 1_000} (omega arith))
