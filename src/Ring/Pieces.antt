-- ===== src/Ring/Pieces.antt =====
-- The reads of `RingBuffer::read` that copy at most once: an empty ring, bytes that lie in one piece,
-- and the first piece of bytes that go round the end.
use libcppio.Prelude.{
  ℕ, suc, ◌+◌, ◌-◌, ◌^◌, ◌<◌, ◌≡◌, refl, sym, ap, ap₂, ◌∙◌, List, [], ◌++◌, length, take, drop,
  arith, length-drop, min, take-min, drop-min, take-nil, drop-nil, take-append_parts,
  drop-append_parts, append-nil, drop-drop,
}
use libcppio.Memory.{ok}
use libcppio.Memory.Access.{load-take}
use libcppio.Ring.{RingBuffer, Reading, capacity, read_loop}
use libcppio.Ring.Queue.{IsValid, held, contents, length-held_upward, length-held_wrapped}

-- What a read of at most `n` bytes is to do to the ring.
pub record Took (r : RingBuffer) (n : ℕ) (out : Reading) : Type 0 where
  pub count : out.count ≡ min n (length (contents r))
  pub bytes : out.bytes ≡ take n (contents r)
  pub rest : contents out.ring ≡ drop n (contents r)
  pub storage : out.ring.m_data ≡ r.m_data
  pub writer : out.ring.m_wrptr ≡ r.m_wrptr
  pub valid : IsValid out.ring

abbrev pub Takes : ℕ → RingBuffer → ℕ → Type 0
Takes fuel r n = (out : Reading) × (read_loop fuel r n ≡ ok out) × Took r n out

pub take_none : (k n : ℕ) (xs : List ℕ) → n ≡ 0 → take k (take n xs) ≡ []
take_none k n xs e = ap (λ j. take k (take j xs)) e ∙ take-nil k

pub read_empty :
    (fuel n : ℕ) (r : RingBuffer) → IsValid r → r.m_wrptr ≡ r.m_rdptr → Takes (suc fuel) r n
unfolding read_loop contents
read_empty fuel n r v e = (
  record { count = 0; bytes = []; ring = r },
  ground arith,
  record {
    count = omega (arith, ap length none);
    bytes = rw none (sym (take-nil n));
    rest = rw none (sym (drop-nil n));
    storage = refl;
    writer = refl;
    valid = v;
  },
)
  where
    none : held r.m_data r.m_rdptr r.m_wrptr ≡ []
    none = ground arith

pub read_upward :
    (fuel n : ℕ) (r : RingBuffer)
    → IsValid r
    → n < 2 ^ 64
    → r.m_rdptr < r.m_wrptr
    → Takes (suc fuel) r n
unfolding read_loop contents
read_upward fuel n r v hn up = (
  record { count = t; bytes = take t (drop rd r.m_data); ring = record r { m_rdptr = rd + t } },
  ground (arith, load-take r.m_data rd t),
  record {
    count = omega (arith, length-held_upward r.m_data rd wr);
    bytes = rw now (take-min (wr - rd) n (drop rd r.m_data));
    rest =
        later
        ∙ ap₂ take {x = wr - (rd + t)} {y = wr - rd - t} (omega arith)
            (sym (drop-drop t rd r.m_data))
        ∙ drop-min (wr - rd) n (drop rd r.m_data)
        ∙ ap (drop n) (sym now);
    storage = refl;
    writer = refl;
    valid = omega arith;
  },
)
  where
    open r use {m_rdptr as rd, m_wrptr as wr}

    t : ℕ
    t = min (wr - rd) n

    now : held r.m_data rd wr ≡ take (wr - rd) (drop rd r.m_data)
    now = ground arith

    later : held r.m_data (rd + t) wr ≡ take (wr - (rd + t)) (drop (rd + t) r.m_data)
    later = ground arith

-- The ring wraps, and the read ends before the end of the storage.
pub read_wrapped_short :
    (fuel n : ℕ) (r : RingBuffer)
    → IsValid r
    → r.m_wrptr < r.m_rdptr
    → n < capacity r - r.m_rdptr
    → Takes (suc fuel) r n
unfolding read_loop contents
read_wrapped_short fuel n r v wraps short = (
  record { count = n; bytes = take n (drop rd r.m_data); ring = record r { m_rdptr = rd + n } },
  ground (arith, load-take r.m_data rd n),
  record {
    count = omega (arith, length-held_wrapped r.m_data rd wr);
    bytes = sym (
        ap (take n) now
        ∙ take-append_parts n (drop rd r.m_data) (take wr r.m_data)
        ∙ ap (λ k. take n (drop rd r.m_data) ++ take k (take wr r.m_data)) none_left
        ∙ append-nil (take n (drop rd r.m_data)));
    rest =
        later
        ∙ ap₂ ◌++◌ (sym (drop-drop n rd r.m_data))
            (ap (λ k. drop k (take wr r.m_data)) (sym none_left))
        ∙ sym (drop-append_parts n (drop rd r.m_data) (take wr r.m_data))
        ∙ ap (drop n) (sym now);
    storage = refl;
    writer = refl;
    valid = omega arith;
  },
)
  where
    open r use {m_rdptr as rd, m_wrptr as wr}

    now : held r.m_data rd wr ≡ drop rd r.m_data ++ take wr r.m_data
    now = ground arith

    later : held r.m_data (rd + n) wr ≡ drop (rd + n) r.m_data ++ take wr r.m_data
    later = ground arith

    none_left : n - length (drop rd r.m_data) ≡ 0
    none_left = omega (arith, length-drop rd r.m_data)
