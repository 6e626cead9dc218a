-- ===== src/Ring/Put.antt =====
-- What a write is to do to a ring, and what the first copy of RingBuffer::write of
-- src/common/inproc.cpp does to the storage.
use libcppio.Prelude.{
  ℕ, suc, ◌+◌, ◌-◌, ◌^◌, ◌≤◌, ◌<◌, ◌≡◌, ◌≢◌, ◌⊎◌, inl, inr, sym, ap, ap₂, ◌∙◌, List, [], ◌++◌,
  length, take, drop, ◌==◌, if◌then◌else◌, arith, length-append, length-take, length-drop, min,
  take-append, drop_all, append-nil, append_assoc,
}
use libcppio.Memory.{ok, add_size, store}
use libcppio.Memory.Access.{
  patch, store-patch, length-patch, drop-patch_behind, drop-patch_before, take-patch_through,
}
use libcppio.Ring.{RingBuffer, Writing, capacity, write_loop, upward_count}
use libcppio.Ring.Queue.{IsValid, held, contents}

-- How many bytes fit.
abbrev pub free : RingBuffer → ℕ
free r = capacity r - 1 - length (contents r)

-- What a write of `buffer` is to do to the ring.
pub record Put (r : RingBuffer) (buffer : List ℕ) (out : Writing) : Type 0 where
  pub count : out.count ≡ min (length buffer) (free r)
  pub holds : contents out.ring ≡ contents r ++ take (free r) buffer
  pub room : capacity out.ring ≡ capacity r
  pub reader : out.ring.m_rdptr ≡ r.m_rdptr
  pub valid : IsValid out.ring

abbrev pub Puts : ℕ → RingBuffer → List ℕ → Type 0
Puts fuel r buffer = (out : Writing) × (write_loop fuel r buffer ≡ ok out) × Put r buffer out

store-take :
    (storage : List ℕ) (wr t : ℕ) (buffer : List ℕ)
    → t ≤ length buffer
    → wr + t ≤ length storage
    → store storage wr (take t buffer) ≡ ok (patch storage wr (take t buffer))
store-take storage wr t buffer h fits =
    store-patch storage wr (take t buffer) (omega (arith, length-take t buffer))

-- The front part of the storage, from the read pointer on, grows by what is written behind it.
grow :
    (storage : List ℕ) (rd wr : ℕ) (bytes : List ℕ)
    → rd ≤ wr
    → wr + length bytes ≤ length storage
    → drop rd (patch storage wr bytes)
      ≡ (take (wr - rd) (drop rd storage) ++ bytes) ++ drop (wr + length bytes) storage
grow storage rd wr bytes h fits =
    drop-patch_before storage wr bytes rd (omega arith) h
    ∙ sym (append_assoc (take (wr - rd) (drop rd storage)) bytes (drop (wr + length bytes) storage))

grow_inside :
    (storage : List ℕ) (rd wr : ℕ) (bytes : List ℕ) {n : ℕ}
    → rd ≤ wr
    → wr + length bytes ≤ length storage
    → n ≡ wr + length bytes - rd
    → take n (drop rd (patch storage wr bytes)) ≡ take (wr - rd) (drop rd storage) ++ bytes
grow_inside storage rd wr bytes {n} h fits e =
    ap (take n) (grow storage rd wr bytes h fits)
    ∙ take-append (take (wr - rd) (drop rd storage) ++ bytes) (drop (wr + length bytes) storage) (
        omega (
          arith,
          length-append (take (wr - rd) (drop rd storage)) bytes,
          length-take (wr - rd) (drop rd storage),
          length-drop rd storage,
        ))

grow_to_end :
    (storage : List ℕ) (rd wr : ℕ) (bytes : List ℕ)
    → rd ≤ wr
    → wr + length bytes ≡ length storage
    → drop rd (patch storage wr bytes) ≡ take (wr - rd) (drop rd storage) ++ bytes
grow_to_end storage rd wr bytes h end =
    grow storage rd wr bytes h (omega arith)
    ∙ ap (λ t. (take (wr - rd) (drop rd storage) ++ bytes) ++ t)
        (drop_all storage {n = wr + length bytes} (omega arith))
    ∙ append-nil (take (wr - rd) (drop rd storage) ++ bytes)

-- The counts of the first branch.
pub upward_count_lem :
    (r : RingBuffer) (n : ℕ)
    → IsValid r
    → n < 2 ^ 64
    → upward_count r n ≡ (
        if r.m_rdptr == 0
        then min (capacity r - 1 - r.m_wrptr) n
        else min (capacity r - r.m_wrptr) n)
unfolding upward_count
upward_count_lem r n v hn = ground arith

-- The first branch, where it does not go on.
pub upward_run :
    (fuel t : ℕ) (r : RingBuffer) (buffer : List ℕ)
    → IsValid r
    → r.m_rdptr ≤ r.m_wrptr
    → upward_count r (length buffer) ≡ t
    → t ≤ length buffer
    → r.m_wrptr + t ≤ capacity r
    → (r.m_rdptr ≡ 0) ⊎ (t ≡ length buffer)
    → write_loop (suc fuel) r buffer
      ≡ ok (record {
        count = t;
        ring = record r {
          m_data = patch r.m_data r.m_wrptr (take t buffer);
          m_wrptr = if r.m_wrptr + t == capacity r then 0 else r.m_wrptr + t;
        };
      })
unfolding write_loop
upward_run fuel t r buffer v up et le fits (inl e) =
    ground (arith, store-take r.m_data r.m_wrptr t buffer)
upward_run fuel t r buffer v up et le fits (inr e) =
    ground (arith, store-take r.m_data r.m_wrptr t buffer)

-- The first branch, where it goes on at the start of the storage.
pub upward_run_on :
    (fuel t : ℕ) (r : RingBuffer) (buffer : List ℕ) (out : Writing)
    → IsValid r
    → r.m_rdptr ≤ r.m_wrptr
    → upward_count r (length buffer) ≡ t
    → t ≡ capacity r - r.m_wrptr
    → t < length buffer
    → r.m_rdptr ≢ 0
    → write_loop fuel
        (record r { m_data = patch r.m_data r.m_wrptr (take t buffer); m_wrptr = 0 })
        (drop t buffer)
      ≡ ok out
    → write_loop (suc fuel) r buffer ≡ ok (record { count = add_size t out.count; ring = out.ring })
unfolding write_loop
upward_run_on fuel t r buffer out v up et end le ne e =
    ground (arith, store-take r.m_data r.m_wrptr t buffer)

-- The second branch.
pub wrapped_run :
    (fuel : ℕ) (r : RingBuffer) (buffer : List ℕ)
    → IsValid r
    → length buffer < 2 ^ 64
    → r.m_wrptr < r.m_rdptr
    → let t = min (r.m_rdptr - 1 - r.m_wrptr) (length buffer) in
      write_loop (suc fuel) r buffer
      ≡ ok (record {
        count = t;
        ring = record r {
          m_data = patch r.m_data r.m_wrptr (take t buffer);
          m_wrptr = r.m_wrptr + t;
        };
      })
unfolding write_loop
wrapped_run fuel r buffer v hn wraps =
    ground (
      arith,
      store-take r.m_data r.m_wrptr (min (r.m_rdptr - 1 - r.m_wrptr) (length buffer)) buffer,
    )

-- The storage after a write of `t` bytes.
abbrev pub stored : ℕ → RingBuffer → List ℕ → List ℕ
stored t r buffer = patch r.m_data r.m_wrptr (take t buffer)

-- What is held after a write whose pointer does not pass the end of the storage.
module _ (t : ℕ) (r : RingBuffer) (buffer : List ℕ) (v : IsValid r) (le : t ≤ length buffer) where
  open r use {m_rdptr as rd, m_wrptr as wr}

  len : length (take t buffer) ≡ t
  len = omega (arith, length-take t buffer)

  pub same_size : wr + t ≤ capacity r → length (stored t r buffer) ≡ capacity r
  same_size fits = length-patch r.m_data wr (take t buffer) (omega (arith, len))

  pub held_upward :
      rd ≤ wr
      → wr + t ≤ capacity r
      → held (stored t r buffer) rd (wr + t) ≡ held r.m_data rd wr ++ take t buffer
  held_upward up fits =
      later
      ∙ grow_inside r.m_data rd wr (take t buffer) up (omega (arith, len)) (omega (arith, len))
      ∙ ap (λ h. h ++ take t buffer) (sym now)
    where
      now : held r.m_data rd wr ≡ take (wr - rd) (drop rd r.m_data)
      now = ground arith

      later :
          held (patch r.m_data wr (take t buffer)) rd (wr + t)
          ≡ take (wr + t - rd) (drop rd (patch r.m_data wr (take t buffer)))
      later = ground arith

  pub held_to_end :
      rd ≤ wr
      → wr + t ≡ capacity r
      → rd ≢ 0
      → held (stored t r buffer) rd 0 ≡ held r.m_data rd wr ++ take t buffer
  held_to_end up fits ne =
      later
      ∙ append-nil (drop rd (patch r.m_data wr (take t buffer)))
      ∙ grow_to_end r.m_data rd wr (take t buffer) up (omega (arith, len))
      ∙ ap (λ h. h ++ take t buffer) (sym now)
    where
      now : held r.m_data rd wr ≡ take (wr - rd) (drop rd r.m_data)
      now = ground arith

      later :
          held (patch r.m_data wr (take t buffer)) rd 0
          ≡ drop rd (patch r.m_data wr (take t buffer)) ++ []
      later = ground arith

  pub held_wrapped :
      wr < rd
      → wr + t < rd
      → held (stored t r buffer) rd (wr + t) ≡ held r.m_data rd wr ++ take t buffer
  held_wrapped wraps fits =
      later
      ∙ ap₂ ◌++◌
          (drop-patch_behind r.m_data wr (take t buffer) rd (omega (arith, len, v.reads_inside))
            (omega (arith, len)))
          (take-patch_through r.m_data wr (take t buffer) (omega (arith, v.writes_inside))
            (omega (arith, len)))
      ∙ sym (append_assoc (drop rd r.m_data) (take wr r.m_data) (take t buffer))
      ∙ ap (λ h. h ++ take t buffer) (sym now)
    where
      now : held r.m_data rd wr ≡ drop rd r.m_data ++ take wr r.m_data
      now = ground arith

      later :
          held (patch r.m_data wr (take t buffer)) rd (wr + t)
          ≡ drop rd (patch r.m_data wr (take t buffer))
            ++ take (wr + t) (patch r.m_data wr (take t buffer))
      later = ground arith
