-- ===== src/Lockfree/WaitFree.antt =====
-- How many steps the methods of the lock-free ring of src/common/inproc.cpp take.
use libcppio.Prelude.{ℕ, suc, ◌-◌, ◌^◌, ◌≤◌, ◌<◌, ◌≡◌, refl, subst, arith, Option, none, some}
use libcppio.Lockfree.{
  outside, System, Turn, reader_begins, writer_begins, reader_steps, writer_steps, run, Enabled,
  Reach, later,
}
use libcppio.Lockfree.Invariant.{IsSound}
use libcppio.Lockfree.Preserved.{Lockfree-IsSound}
use libcppio.Lockfree.Steps.{
  left-bound, left-outside, reads_left, writes_left, ReaderStepped, WriterStepped, reader_step,
  writer_step,
}

-- One of the two threads: its step, the turns of the other one, and how it stands.
pub data Side : Type 0 where
  reading writing : Side

abbrev pub own_step : Side → Turn
own_step reading = reader_steps
own_step writing = writer_steps

abbrev pub OfOther : Side → Turn → Type 0
OfOther reading (writer_begins _) = Unit
OfOther reading writer_steps = Unit
OfOther reading (reader_begins _) = ⊥
OfOther reading reader_steps = ⊥
OfOther writing (reader_begins _) = Unit
OfOther writing reader_steps = Unit
OfOther writing (writer_begins _) = ⊥
OfOther writing writer_steps = ⊥

abbrev pub Returned : Side → System → Type 0
Returned reading s = s.reader ≡ outside
Returned writing s = s.writer ≡ outside

-- Turns after a state, of which so many are steps of one thread and the others are of the other.
pub data Runs (side : Side) (s : System) : ℕ → System → Type 0 where
  at_first : Runs side s 0 s
  own :
      {n : ℕ} {t u : System}
      → Runs side s n t
      → run t (own_step side) ≡ some u
      → Runs side s (suc n) u
  others :
      {n : ℕ} {t u : System} (turn : Turn)
      → Runs side s n t
      → OfOther side turn
      → Enabled t turn
      → run t turn ≡ some u
      → Runs side s n u

abbrev side_left : Side → System → ℕ
side_left reading s = reads_left s
side_left writing s = writes_left s

abbrev FewerLeft : Side → System → Option System → Type 0
FewerLeft side s none = ⊥
FewerLeft side s (some t) = side_left side t ≤ side_left side s - 1

abbrev SameLeft : Side → System → Option System → Type 0
SameLeft side s none = ⊥
SameLeft side s (some t) = side_left side t ≡ side_left side s

module _ (size : ℕ) (s : System) (sound : IsSound size s) where
  fewer : (side : Side) (o : Option System) → run s (own_step side) ≡ o → FewerLeft side s o
  unfolding run
  fewer reading none e = subst (ReaderStepped s) e (reader_step size s sound s.reader refl)
  fewer reading (some t) e = (subst (ReaderStepped s) e (reader_step size s sound s.reader refl)).0
  fewer writing none e = subst (WriterStepped s) e (writer_step size s sound s.writer refl)
  fewer writing (some t) e = (subst (WriterStepped s) e (writer_step size s sound s.writer refl)).0

  same :
      (side : Side) (turn : Turn) (o : Option System)
      → OfOther side turn
      → run s turn ≡ o
      → SameLeft side s o
  unfolding run
  same reading (writer_begins bs) o other e = subst (SameLeft reading s) e refl
  same reading writer_steps none other e =
      subst (WriterStepped s) e (writer_step size s sound s.writer refl)
  same reading writer_steps (some t) other e =
      (subst (WriterStepped s) e (writer_step size s sound s.writer refl)).1
  same reading (reader_begins n) o other e = absurd other
  same reading reader_steps o other e = absurd other
  same writing (reader_begins n) o other e = subst (SameLeft writing s) e refl
  same writing reader_steps none other e =
      subst (ReaderStepped s) e (reader_step size s sound s.reader refl)
  same writing reader_steps (some t) other e =
      (subst (ReaderStepped s) e (reader_step size s sound s.reader refl)).1
  same writing (writer_begins bs) o other e = absurd other
  same writing writer_steps o other e = absurd other

module _ {size : ℕ} {s : System} (side : Side) (r : Reach size s) where
  own_Enabled : (side : Side) (t : System) → Enabled t (own_step side)
  own_Enabled reading t = tt
  own_Enabled writing t = tt

  Runs-Reach : {n : ℕ} {t : System} → Runs side s n t → Reach size t
  Runs-Reach at_first = r
  Runs-Reach (own {n} {t} runs e) = later (own_step side) (Runs-Reach runs) (own_Enabled side t) e
  Runs-Reach (others turn runs other enabled e) = later turn (Runs-Reach runs) enabled e

  at_most : (side : Side) (t : System) → side_left side t ≤ 8
  at_most reading t = left-bound t.ring.m_rdptr t.reader
  at_most writing t = left-bound t.ring.m_wrptr t.writer

  Runs-left :
      {n : ℕ} {t : System} → 0 < size → size < 2 ^ 63 → Runs side s n t → side_left side t ≤ 8 - n
  Runs-left pos small at_first = at_most side s
  Runs-left {n = suc n} {t = u} pos small (own {t = t} runs e) = omega (
    arith,
    Runs-left pos small runs,
    fewer size t (Lockfree-IsSound pos small (Runs-Reach runs)) side (some u) e,
  )
  Runs-left {n} {t = u} pos small (others {t = t} turn runs other enabled e) = omega (
    arith,
    Runs-left pos small runs,
    same size t (Lockfree-IsSound pos small (Runs-Reach runs)) side turn (some u) other e,
  )

-- A call of `read` or `write` returns when its thread has taken eight steps, from any state that is
-- reached on, whatever the other thread does in between. The size is positive and below 2^63.
pub wait_free :
    {size : ℕ} {s t : System} {n : ℕ} (side : Side)
    → 0 < size
    → size < 2 ^ 63
    → Reach size s
    → Runs side s n t
    → 8 ≤ n
    → Returned side t
wait_free {s} {t} reading pos small r runs enough =
    left-outside t.ring.m_rdptr t.reader (omega (arith, Runs-left reading r pos small runs))
wait_free {s} {t} writing pos small r runs enough =
    left-outside t.ring.m_wrptr t.writer (omega (arith, Runs-left writing r pos small runs))
