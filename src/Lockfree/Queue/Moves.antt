-- ===== src/Lockfree/Queue/Moves.antt =====
-- The single moves of the threads of the queue over the ring without a lock, which keep what
-- Lockfree/Queue/Sound says.
use libcppio.Prelude.{
  ℕ, ◌<◌, ◌≡◌, refl, sym, ap, ◌∙◌, Bool, false, ◌&&◌, Option, none, some, List, length,
  if◌then◌else◌, arith, ◌^◌, ◌%◌, take, length-take,
}
use mathlib.Core.Bool.{false≢true}
use libcppio.DataQueue.Threads.{ReadCall}
use libcppio.Lockfree.{
  At, outside, starting, loaded, copying, copied, System, reader_begins, writer_begins,
  reader_steps, writer_steps, run,
}
use libcppio.Lockfree
use libcppio.Lockfree.Preserved.{Lockfree-IsSound}
use libcppio.Lockfree.Steps.{
  left, left-outside, ReaderStepped, WriterStepped, reader_step, writer_step,
}
use libcppio.Lockfree.Queue.{
  ReaderAt, reading, WriterAt, w_writing, QueueSystem, reader_holds, writer_holds, reader_to,
  writer_to, begin_ring_read, begin_ring_write, ring_stepped, in_ring_read, in_ring_write,
}
use libcppio.Lockfree.Queue.Sound.{in_read, in_write, QueueIsSound, SoundAfter, by_test}

module _ (size : ℕ) (pos : 0 < size) (small : size < 2 ^ 63) (s : QueueSystem)
    (sound : QueueIsSound size s) where
  -- The reading thread goes on outside the ring.
  pub reader_moves :
      (at : ReaderAt)
      → in_read s.reader ≡ false
      → (reader_holds at && writer_holds s.writer) ≡ false
      → QueueIsSound size (reader_to s at)
  reader_moves at out one = record {
    rings_reached = sound.rings_reached;
    reader_out = λ _. sound.reader_out out;
    writer_out = sound.writer_out;
    one_holder = one;
  }

  pub writer_moves :
      (at : WriterAt)
      → in_write s.writer ≡ false
      → (reader_holds s.reader && writer_holds at) ≡ false
      → QueueIsSound size (writer_to s at)
  writer_moves at out one = record {
    rings_reached = sound.rings_reached;
    reader_out = sound.reader_out;
    writer_out = λ _. sound.writer_out out;
    one_holder = one;
  }

  pub ring_read-Sound :
      (locked : Bool) (call : ReadCall)
      → in_read s.reader ≡ false
      → (locked && writer_holds s.writer) ≡ false
      → QueueIsSound size (begin_ring_read s locked call)
  unfolding begin_ring_read in_read reader_holds run
  ring_read-Sound locked call out one = record {
    rings_reached =
        Lockfree.later (reader_begins (call.buflen % 2 ^ 64)) sound.rings_reached
          (sound.reader_out out, omega arith) refl;
    reader_out = λ e. absurd (false≢true (sym e));
    writer_out = sound.writer_out;
    one_holder = one;
  }

  pub ring_write-Sound :
      (locked : Bool) (buffer : List ℕ)
      → in_write s.writer ≡ false
      → (reader_holds s.reader && locked) ≡ false
      → QueueIsSound size (begin_ring_write s locked buffer)
  unfolding begin_ring_write in_write writer_holds run
  ring_write-Sound locked buffer out one = record {
    rings_reached =
        Lockfree.later (writer_begins (take (length buffer % 2 ^ 64) buffer)) sound.rings_reached
          (sound.writer_out out, omega (arith, length-take (length buffer % 2 ^ 64) buffer)) refl;
    reader_out = sound.reader_out;
    writer_out = λ e. absurd (false≢true (sym e));
    one_holder = one;
  }

  -- A step in a call of the ring does not fault, and leaves the other thread where it is.
  pub reader_in_ring :
      (locked : Bool) (before : ℕ) (o : Option System)
      → s.reader ≡ reading locked before
      → run s.rings reader_steps ≡ o
      → ReaderStepped s.rings o
      → SoundAfter size (ring_stepped s o)
  unfolding ring_stepped SoundAfter in_read
  reader_in_ring locked before none at e stepped = stepped
  reader_in_ring locked before (some t) at e stepped = record {
    rings_reached = Lockfree.later reader_steps sound.rings_reached tt e;
    reader_out = λ out. absurd (false≢true (sym out ∙ ap in_read at));
    writer_out = λ out.
        left-outside t.ring.m_wrptr t.writer
          (stepped.1 ∙ ap (left s.rings.ring.m_wrptr) (sound.writer_out out));
    one_holder = sound.one_holder;
  }

  pub writer_in_ring :
      (locked : Bool) (before : ℕ) (o : Option System)
      → s.writer ≡ w_writing locked before
      → run s.rings writer_steps ≡ o
      → WriterStepped s.rings o
      → SoundAfter size (ring_stepped s o)
  unfolding ring_stepped SoundAfter in_write
  writer_in_ring locked before none at e stepped = stepped
  writer_in_ring locked before (some t) at e stepped = record {
    rings_reached = Lockfree.later writer_steps sound.rings_reached tt e;
    reader_out = λ out.
        left-outside t.ring.m_rdptr t.reader
          (stepped.1 ∙ ap (left s.rings.ring.m_rdptr) (sound.reader_out out));
    writer_out = λ out. absurd (false≢true (sym out ∙ ap in_write at));
    one_holder = sound.one_holder;
  }

  pub reader_on : ReaderStepped s.rings (run s.rings reader_steps)
  unfolding run
  reader_on =
      reader_step size s.rings (Lockfree-IsSound pos small sound.rings_reached) s.rings.reader refl

  pub reader_ringing :
      (locked : Bool) (before : ℕ) (ring_reader : At Lockfree.ReadCall)
      → s.reader ≡ reading locked before
      → s.rings.reader ≡ ring_reader
      → SoundAfter size (in_ring_read s locked before ring_reader)
  unfolding in_ring_read SoundAfter reader_holds
  reader_ringing locked before outside at e = record {
    rings_reached = sound.rings_reached;
    reader_out = λ _. e;
    writer_out = sound.writer_out;
    one_holder = sym (ap (λ r. reader_holds r && writer_holds s.writer) at) ∙ sound.one_holder;
  }
  reader_ringing locked before (starting _) at e =
      reader_in_ring locked before (run s.rings reader_steps) at refl reader_on
  reader_ringing locked before (loaded _ _) at e =
      reader_in_ring locked before (run s.rings reader_steps) at refl reader_on
  reader_ringing locked before (copying _ _ _) at e =
      reader_in_ring locked before (run s.rings reader_steps) at refl reader_on
  reader_ringing locked before (copied _ _ _ _) at e =
      reader_in_ring locked before (run s.rings reader_steps) at refl reader_on

  pub writer_on : WriterStepped s.rings (run s.rings writer_steps)
  unfolding run
  writer_on =
      writer_step size s.rings (Lockfree-IsSound pos small sound.rings_reached) s.rings.writer refl

  pub writer_ringing :
      (locked : Bool) (before : ℕ) (ring_writer : At Lockfree.WriteCall)
      → s.writer ≡ w_writing locked before
      → s.rings.writer ≡ ring_writer
      → SoundAfter size (in_ring_write s locked before ring_writer)
  unfolding in_ring_write SoundAfter writer_holds
  writer_ringing locked before outside at e = record {
    rings_reached = sound.rings_reached;
    reader_out = sound.reader_out;
    writer_out = λ _. e;
    one_holder = sym (ap (λ w. reader_holds s.reader && writer_holds w) at) ∙ sound.one_holder;
  }
  writer_ringing locked before (starting _) at e =
      writer_in_ring locked before (run s.rings writer_steps) at refl writer_on
  writer_ringing locked before (loaded _ _) at e =
      writer_in_ring locked before (run s.rings writer_steps) at refl writer_on
  writer_ringing locked before (copying _ _ _) at e =
      writer_in_ring locked before (run s.rings writer_steps) at refl writer_on
  writer_ringing locked before (copied _ _ _ _) at e =
      writer_in_ring locked before (run s.rings writer_steps) at refl writer_on

  -- A thread that is where it has the mutex: the other is not.
  pub reader_alone :
      (at : ReaderAt) → s.reader ≡ at → (reader_holds at && writer_holds s.writer) ≡ false
  reader_alone at e = sym (ap (λ r. reader_holds r && writer_holds s.writer) e) ∙ sound.one_holder

  pub writer_alone :
      (at : WriterAt) → s.writer ≡ at → (reader_holds s.reader && writer_holds at) ≡ false
  writer_alone at e = sym (ap (λ w. reader_holds s.reader && writer_holds w) e) ∙ sound.one_holder

  -- The reading thread goes to one of two places.
  pub reader_to_either :
      (b : Bool) (x y : ReaderAt)
      → in_read s.reader ≡ false
      → (reader_holds x && writer_holds s.writer) ≡ false
      → (reader_holds y && writer_holds s.writer) ≡ false
      → QueueIsSound size (reader_to s (if b then x else y))
  reader_to_either b x y out one_x one_y = reader_moves (if b then x else y) out (
      by_test (λ at. (reader_holds at && writer_holds s.writer) ≡ false) b x y (λ _. one_x)
        (λ _. one_y))

  pub writer_to_either :
      (b : Bool) (x y : WriterAt)
      → in_write s.writer ≡ false
      → (reader_holds s.reader && writer_holds x) ≡ false
      → (reader_holds s.reader && writer_holds y) ≡ false
      → QueueIsSound size (writer_to s (if b then x else y))
  writer_to_either b x y out one_x one_y = writer_moves (if b then x else y) out (
      by_test (λ at. (reader_holds s.reader && writer_holds at) ≡ false) b x y (λ _. one_x)
        (λ _. one_y))

  -- A thread that asks for the mutex.
  pub reader_asks :
      (next : QueueSystem)
      → (writer_holds s.writer ≡ false → QueueIsSound size next)
      → QueueIsSound size (if writer_holds s.writer then s else next)
  reader_asks next free =
      by_test (QueueIsSound size) (writer_holds s.writer) s next (λ _. sound) free

  pub writer_asks :
      (next : QueueSystem)
      → (reader_holds s.reader ≡ false → QueueIsSound size next)
      → QueueIsSound size (if reader_holds s.reader then s else next)
  writer_asks next free =
      by_test (QueueIsSound size) (reader_holds s.reader) s next (λ _. sound) free

  -- It begins to read from the ring, without the mutex, or goes elsewhere.
  pub ring_read_or :
      (b : Bool) (call : ReadCall) (other : QueueSystem)
      → in_read s.reader ≡ false
      → QueueIsSound size other
      → QueueIsSound size (if b then begin_ring_read s false call else other)
  ring_read_or b call other out sound_other =
      by_test (QueueIsSound size) b (begin_ring_read s false call) other
        (λ _. ring_read-Sound false call out refl) (λ _. sound_other)
