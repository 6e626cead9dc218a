-- ===== src/Line.antt =====
-- include/cppio/errors.h and the abstract class IoLine of include/cppio/ioline.h.
use libcppio.Prelude.{ℕ, ◌-◌, List, [], ◌≤◌, ◌<◌, ◌≡◌, ◌≢◌, ◌++◌, length, take}
use libcppio.Prelude.Int.{ℤ, negsuc}

-- `enum ErrorCode`
pub data ErrorCode : Type 0 where
  timeout connection_lost too_big_buffer unknown : ErrorCode

-- How far below zero the code is: -1, -2, -3 and -100.
unfoldable pub magnitude : ErrorCode → ℕ
magnitude timeout = 1
magnitude connection_lost = 2
magnitude too_big_buffer = 3
magnitude unknown = 100

abbrev pub error_value : ErrorCode → ℤ
error_value e = negsuc (magnitude e - 1)

-- What `read` returned: the bytes that it put at the front of the buffer, whose number is its
-- result, or an error.
pub data Received : Type 0 where
  received : List ℕ → Received
  read_failed : ErrorCode → Received

-- What `write` returned: how many of the bytes were taken, or an error.
pub data Accepted : Type 0 where
  accepted : ℕ → Accepted
  write_failed : ErrorCode → Accepted

-- `enum class LineOption`
pub data LineOption : Type 0 where
  receive_timeout send_timeout : LineOption

-- A line: a state of its own, and what `read` and `write` do at it; `setOption` differs from class
-- to class. `read` is given the length of
-- the buffer, `write` the bytes.
pub record IoLine : Type 1 where
  pub State : Type 0
  pub read : State → ℕ → Received × State
  pub write : State → List ℕ → Accepted × State

-- What a reader may rely on: there is a sequence of bytes still to come, `read` gives a front part
-- of it that is not empty and fits the buffer and an `int`, and fails only when nothing is to come.
pub record Delivers (line : IoLine) : Type 0 where
  pub pending : line.State → List ℕ
  pub read_some :
      (s : line.State) (n : ℕ)
      → 0 < n
      → pending s ≢ []
      → (bs : List ℕ) × (s' : line.State) × (line.read s n ≡ (received bs, s'))
        × (0 < length bs)
        × (length bs ≤ n)
        × (length bs < 2_147_483_648)
        × (pending s ≡ bs ++ pending s')
  pub read_end :
      (s : line.State) (n : ℕ)
      → 0 < n
      → pending s ≡ []
      → (e : ErrorCode) × (s' : line.State) × (line.read s n ≡ (read_failed e, s'))

-- What a writer may rely on: `write` takes at least one byte of those that it is given, and what it
-- takes follows what was written before.
pub record Takes (line : IoLine) : Type 0 where
  pub written : line.State → List ℕ
  pub write_some :
      (s : line.State) (bs : List ℕ)
      → bs ≢ []
      → (n : ℕ) × (s' : line.State) × (line.write s bs ≡ (accepted n, s'))
        × (0 < n)
        × (n ≤ length bs)
        × (written s' ≡ written s ++ take n bs)

-- The same for buffers of up to `limit` bytes: a line whose calls take an `int` promises no more.
pub record DeliversUpTo (limit : ℕ) (line : IoLine) : Type 0 where
  pub pending : line.State → List ℕ
  pub read_some :
      (s : line.State) (n : ℕ)
      → 0 < n
      → n ≤ limit
      → pending s ≢ []
      → (bs : List ℕ) × (s' : line.State) × (line.read s n ≡ (received bs, s'))
        × (0 < length bs)
        × (length bs ≤ n)
        × (length bs < 2_147_483_648)
        × (pending s ≡ bs ++ pending s')
  pub read_end :
      (s : line.State) (n : ℕ)
      → 0 < n
      → n ≤ limit
      → pending s ≡ []
      → (e : ErrorCode) × (s' : line.State) × (line.read s n ≡ (read_failed e, s'))

pub record TakesUpTo (limit : ℕ) (line : IoLine) : Type 0 where
  pub written : line.State → List ℕ
  pub write_some :
      (s : line.State) (bs : List ℕ)
      → bs ≢ []
      → length bs ≤ limit
      → (n : ℕ) × (s' : line.State) × (line.write s bs ≡ (accepted n, s'))
        × (0 < n)
        × (n ≤ length bs)
        × (written s' ≡ written s ++ take n bs)

module _ {line : IoLine} (limit : ℕ) where
  abbrev pub delivers_up_to : Delivers line → DeliversUpTo limit line
  delivers_up_to d = record {
    pending = d.pending;
    read_some = λ s n pos fits ne. d.read_some s n pos ne;
    read_end = λ s n pos fits e. d.read_end s n pos e;
  }

  abbrev pub takes_up_to : Takes line → TakesUpTo limit line
  takes_up_to t = record { written = t.written; write_some = λ s bs ne fits. t.write_some s bs ne }
