-- ===== src/Lockfree/Kept.antt =====
-- What keeps the invariant of the lock-free ring of src/common/inproc.cpp.
use libcppio.Prelude.{Option, none, some}
use libcppio.Prelude.{ℕ, ◌≡◌, sym, ap, ◌∙◌, List, ◌++◌, length, take, drop, append_assoc}
use libcppio.Ring.{capacity}
use libcppio.Ring.Queue.{contents}
use libcppio.Lockfree.{At, ReadCall, WriteCall, System}
use libcppio.Lockfree.Held.{Claimed, Reserved, held_pop, held_push, held_kept}
use libcppio.Lockfree.Invariant.{ReaderOk, WriterOk, out_of, written_of, IsSound}
use libcppio.Lockfree.Moves.{
  read_ring, read_ring-IsValid, WriterOk-read, written_ring, written_ring-IsValid, ReaderOk-write,
  stored_ring, same_capacity, stored_ring-IsValid, ReaderOk-store,
}

abbrev pub Sound : ℕ → Option System → Type 0
Sound size none = ⊥
Sound size (some t) = IsSound size t

module _ (size : ℕ) (s : System) (sound : IsSound size s) where
  -- The reader goes on without moving its pointer.
  pub reader_goes :
      (reader : At ReadCall) (given : List ℕ)
      → ReaderOk s.ring reader
      → given ++ out_of reader ≡ s.given ++ out_of s.reader
      → IsSound size (record s { reader = reader; given = given })
  reader_goes reader given fine e = record {
    valid = sound.valid;
    sized = sound.sized;
    in_order = ap (λ t. t ++ contents s.ring) e ∙ sound.in_order;
    reader_ok = fine;
    writer_ok = sound.writer_ok;
  }

  pub writer_goes :
      (writer : At WriteCall) (accepted : List ℕ)
      → WriterOk s.ring writer
      → accepted ++ written_of writer ≡ s.accepted ++ written_of s.writer
      → IsSound size (record s { writer = writer; accepted = accepted })
  writer_goes writer accepted fine e = record {
    valid = sound.valid;
    sized = sound.sized;
    in_order = sound.in_order ∙ sym e;
    reader_ok = sound.reader_ok;
    writer_ok = fine;
  }

  -- The reader publishes the bytes that it has claimed.
  pub reader_moves :
      (k : ℕ) (reader : At ReadCall) (given : List ℕ)
      → (claim : Claimed (capacity s.ring) s.ring.m_rdptr s.ring.m_wrptr k)
      → ReaderOk (read_ring s.ring k sound.valid claim) reader
      → given ++ out_of reader
        ≡ s.given ++ (out_of s.reader ++ take k (drop s.ring.m_rdptr s.ring.m_data))
      → IsSound size
          (record s { ring = read_ring s.ring k sound.valid claim; reader = reader; given = given })
  unfolding contents
  reader_moves k reader given claim fine e = record {
    valid = read_ring-IsValid s.ring k sound.valid claim;
    sized = sound.sized;
    in_order =
        ap (λ t. t ++ left) (e ∙ sym (append_assoc s.given (out_of s.reader) front))
        ∙ append_assoc (s.given ++ out_of s.reader) front left
        ∙ ap (λ t. (s.given ++ out_of s.reader) ++ t)
            (sym (
              held_pop s.ring.m_data s.ring.m_rdptr s.ring.m_wrptr k sound.valid.reads_inside
                sound.valid.writes_inside claim))
        ∙ sound.in_order;
    reader_ok = fine;
    writer_ok = WriterOk-read s.ring k sound.valid claim s.writer sound.writer_ok;
  }
    where
      front : List ℕ
      front = take k (drop s.ring.m_rdptr s.ring.m_data)

      left : List ℕ
      left = contents (read_ring s.ring k sound.valid claim)

  -- The writer publishes the bytes that stand behind its pointer.
  pub writer_moves :
      (k : ℕ) (writer : At WriteCall) (accepted : List ℕ)
      → (room : Reserved (capacity s.ring) s.ring.m_rdptr s.ring.m_wrptr k)
      → WriterOk (written_ring s.ring k sound.valid room) writer
      → accepted ++ written_of writer
        ≡ s.accepted ++ (written_of s.writer ++ take k (drop s.ring.m_wrptr s.ring.m_data))
      → IsSound size (record s {
        ring = written_ring s.ring k sound.valid room;
        writer = writer;
        accepted = accepted;
      })
  unfolding contents
  writer_moves k writer accepted room fine e = record {
    valid = written_ring-IsValid s.ring k sound.valid room;
    sized = sound.sized;
    in_order =
        ap (λ t. (s.given ++ out_of s.reader) ++ t)
          (held_push s.ring.m_data s.ring.m_rdptr s.ring.m_wrptr k sound.valid.reads_inside
            sound.valid.writes_inside room)
        ∙ sym (append_assoc (s.given ++ out_of s.reader) (contents s.ring) back)
        ∙ ap (λ t. t ++ back) sound.in_order
        ∙ append_assoc s.accepted (written_of s.writer) back
        ∙ sym e;
    reader_ok = ReaderOk-write s.ring k sound.valid room s.reader sound.reader_ok;
    writer_ok = fine;
  }
    where
      back : List ℕ
      back = take k (drop s.ring.m_wrptr s.ring.m_data)

  -- The writer stores bytes in the places that it has reserved.
  pub writer_stores :
      (bytes : List ℕ) (writer : At WriteCall)
      → (room : Reserved (capacity s.ring) s.ring.m_rdptr s.ring.m_wrptr (length bytes))
      → WriterOk (stored_ring s.ring bytes sound.valid room) writer
      → written_of writer ≡ written_of s.writer
      → IsSound size
          (record s { ring = stored_ring s.ring bytes sound.valid room; writer = writer })
  unfolding contents
  writer_stores bytes writer room fine e = record {
    valid = stored_ring-IsValid s.ring bytes sound.valid room;
    sized = same_capacity s.ring bytes sound.valid room ∙ sound.sized;
    in_order =
        ap (λ t. (s.given ++ out_of s.reader) ++ t)
          (held_kept s.ring.m_data s.ring.m_rdptr s.ring.m_wrptr bytes sound.valid.reads_inside
            sound.valid.writes_inside room)
        ∙ sound.in_order
        ∙ ap (λ t. s.accepted ++ t) (sym e);
    reader_ok = ReaderOk-store s.ring bytes sound.valid room s.reader sound.reader_ok;
    writer_ok = fine;
  }
