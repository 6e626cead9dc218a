-- ===== src/Lockfree/Ends.antt =====
-- What the threads of the lock-free ring of src/common/inproc.cpp do when they publish: the call
-- returns, or goes on at the start of the storage.
use libcppio.Prelude.{
  ℕ, ◌+◌, ◌^◌, ◌≤◌, ◌<◌, ◌≡◌, ◌≢◌, ◌⊎◌, inl, inr, refl, ap, ◌∙◌, List, ◌++◌, length, take, drop,
  arith,
}
use native.Mathlib.Decide.{dec_le}
use libcppio.Prelude.{length-drop, length-take, some}
use libcppio.Memory.{sub_size, ok, store}
use libcppio.Memory.Access.{patch, load-take, store-patch}
use libcppio.Ring.{capacity}
use libcppio.Ring.Queue.{IsValid}
use libcppio.Lockfree.{
  step_reader, step_writer, starting, loaded, copying, copied, ReadCall, WriteCall, System,
  read_count, write_count, set_rdptr, set_wrptr, read_returns, write_returns, publish_read,
  publish_write,
}
use libcppio.Lockfree.Held.{advance}
use libcppio.Lockfree.Invariant.{MayCopy, MayStore, read_count_lem, write_count_lem}

pub equal_or_not : (a b : ℕ) → (a ≡ b) ⊎ (a ≢ b)
equal_or_not a b = elim (dec_le a b) [
  | yes le ↦ elim (dec_le b a) [ yes ge ↦ inl (omega arith) | no lt ↦ inr (omega arith) ]
  | no gt ↦ inr (omega arith)
]

-- What the steps before do.
pub loaded_empty :
    (s : System) (call : ReadCall) (wrptr : ℕ)
    → wrptr ≡ s.ring.m_rdptr
    → step_reader s (loaded call wrptr) ≡ some (read_returns s call.out)
unfolding step_reader
loaded_empty s call wrptr empty = ground arith

pub loaded_held :
    (s : System) (call : ReadCall) (wrptr : ℕ)
    → wrptr ≢ s.ring.m_rdptr
    → step_reader s (loaded call wrptr)
      ≡ some (record s { reader = copying call wrptr s.ring.m_rdptr })
unfolding step_reader
loaded_held s call wrptr held = ground arith

pub copying_result :
    (s : System) (call : ReadCall) (wrptr rdptr : ℕ)
    → IsValid s.ring
    → MayCopy s.ring call wrptr rdptr
    → step_reader s (copying call wrptr rdptr)
      ≡ some (record s {
        reader = copied call wrptr rdptr (
            take (read_count (capacity s.ring) wrptr rdptr call.buflen) (drop rdptr s.ring.m_data));
      })
unfolding step_reader
copying_result s call wrptr rdptr v may =
    rw
      (
        step_reader,
        load-take s.ring.m_data rdptr (read_count (capacity s.ring) wrptr rdptr call.buflen)
            (read_count_lem s.ring call wrptr rdptr v may).2,
      )
      refl

pub storing_result :
    (s : System) (call : WriteCall) (wrptr rdptr : ℕ)
    → IsValid s.ring
    → MayStore s.ring call wrptr rdptr
    → let bytes =
        take (write_count (capacity s.ring) wrptr rdptr (length call.buffer)) call.buffer in
      step_writer s (copying call wrptr rdptr)
      ≡ some (record s {
        ring = record s.ring { m_data = patch s.ring.m_data s.ring.m_wrptr bytes };
        writer = copied call wrptr rdptr bytes;
      })
unfolding step_writer
storing_result s call wrptr rdptr v may = rw (step_writer, data') refl
  where
    k : ℕ
    k = write_count (capacity s.ring) wrptr rdptr (length call.buffer)

    data' :
        store s.ring.m_data wrptr (take k call.buffer)
        ≡ ok (patch s.ring.m_data s.ring.m_wrptr (take k call.buffer))
    data' =
        ap (λ p. store s.ring.m_data p (take k call.buffer)) may.1
        ∙ store-patch s.ring.m_data s.ring.m_wrptr (take k call.buffer) (
            omega (
              arith,
              length-take k call.buffer,
              may.1,
              write_count_lem s.ring call wrptr rdptr v may,
            ))

module _ (s : System) (call : ReadCall) (wrptr rdptr : ℕ) (bytes : List ℕ) (v : IsValid s.ring)
    (may : MayCopy s.ring call wrptr rdptr) where
  abbrev pub read_by : ℕ
  read_by = read_count (capacity s.ring) wrptr rdptr call.buflen

  abbrev pub read_to : System
  read_to = set_rdptr s (advance (capacity s.ring) s.ring.m_rdptr read_by)

  abbrev pub more_to_read : ReadCall
  more_to_read = record { buflen = sub_size call.buflen read_by; out = call.out ++ bytes }

  read_to_end : wrptr < rdptr → read_by < call.buflen → rdptr + read_by ≡ capacity s.ring
  unfolding read_count
  read_to_end h part = ground (arith, may, v)

  -- What it did: the call returns, or goes on at the start of the storage.
  abbrev pub ReadEnd : Type 0
  ReadEnd =
      (publish_read s call wrptr rdptr bytes ≡ read_returns read_to (call.out ++ bytes))
      ⊎ ((publish_read s call wrptr rdptr bytes ≡ record read_to { reader = starting more_to_read })
          × (advance (capacity s.ring) s.ring.m_rdptr read_by ≡ 0)
          × (s.ring.m_rdptr ≢ 0)
          × (more_to_read.buflen < 2 ^ 64))

  pub read_end : ReadEnd
  unfolding publish_read
  read_end = elim (dec_le rdptr wrptr) [
    | yes up ↦ inl (ground (arith, read_count_lem s.ring call wrptr rdptr v may, may, v))
    | no round ↦ elim (dec_le call.buflen read_by) [
      | yes all ↦ inl (ground (arith, read_count_lem s.ring call wrptr rdptr v may, may, v))
      | no part ↦ elim (dec_le wrptr 0) [
        | yes empty ↦ inl (
            ground (
              arith,
              read_to_end (omega arith) (omega arith),
              read_count_lem s.ring call wrptr rdptr v may,
              may,
              v,
            ))
        | no held ↦ inr (
          ground (
            arith,
            read_to_end (omega arith) (omega arith),
            read_count_lem s.ring call wrptr rdptr v may,
            may,
            v,
          ),
          ground (arith, read_to_end (omega arith) (omega arith), may),
          ground (arith, may),
          ground (arith, may),
        )
      ]
    ]
  ]

module _ (s : System) (call : WriteCall) (wrptr rdptr : ℕ) (bytes : List ℕ) (v : IsValid s.ring)
    (may : MayStore s.ring call wrptr rdptr) where
  abbrev pub written_by : ℕ
  written_by = write_count (capacity s.ring) wrptr rdptr (length call.buffer)

  abbrev pub written_to : System
  written_to = set_wrptr s (advance (capacity s.ring) s.ring.m_wrptr written_by)

  abbrev pub more_to_write : WriteCall
  more_to_write = record { buffer = drop written_by call.buffer; written = call.written ++ bytes }

  written_to_end :
      rdptr ≤ wrptr
      → 0 < rdptr
      → written_by < length call.buffer
      → wrptr + written_by ≡ capacity s.ring
  unfolding write_count
  written_to_end h pos part = ground (arith, may, v)

  abbrev pub WriteEnd : Type 0
  WriteEnd =
      (publish_write s call wrptr rdptr bytes ≡ write_returns written_to (call.written ++ bytes))
      ⊎ ((publish_write s call wrptr rdptr bytes
            ≡ record written_to { writer = starting more_to_write })
          × (advance (capacity s.ring) s.ring.m_wrptr written_by ≡ 0)
          × (s.ring.m_wrptr ≢ 0)
          × (length more_to_write.buffer < 2 ^ 64))

  pub write_end : WriteEnd
  unfolding publish_write
  write_end = elim (dec_le rdptr wrptr) [
    | no round ↦ inl (ground (arith, write_count_lem s.ring call wrptr rdptr v may, may, v))
    | yes up ↦ elim (dec_le (length call.buffer) written_by) [
      | yes all ↦ inl (ground (arith, write_count_lem s.ring call wrptr rdptr v may, may, v))
      | no part ↦ elim (dec_le rdptr 0) [
        | yes first ↦ inl (ground (arith, write_count_lem s.ring call wrptr rdptr v may, may, v))
        | no later ↦ inr (
          ground (
            arith,
            written_to_end (omega arith) (omega arith) (omega arith),
            write_count_lem s.ring call wrptr rdptr v may,
            may,
            v,
          ),
          ground (arith, written_to_end (omega arith) (omega arith) (omega arith), may),
          ground (arith, may),
          omega (arith, length-drop written_by call.buffer, may),
        )
      ]
    ]
  ]
