-- ===== src/Lockfree/Tests.antt =====
-- A small ring without a lock, and the theorems at concrete inputs.
use libcppio.Prelude.{
  ℕ, ◌+◌, ◌≤◌, ◌≡◌, refl, subst, ◌⊎◌, List, [], ◌∷◌, arith, Option, none, some, All,
}
use mathlib.Core.Option.{some-injective}
use libcppio.Memory.{load, store}
use libcppio.Lockfree.{
  starting, copying, System, read_count, write_count, Turn, reader_begins, writer_begins,
  reader_steps, writer_steps, run, Enabled, start_system, Reach, start, later,
}
use libcppio.Lockfree.Invariant.{IsSound}
use libcppio.Lockfree.Preserved.{Lockfree-IsSound}
use libcppio.Lockfree.WaitFree.{reading, Runs, at_first, own, Returned, wait_free}
use libcppio.Lockfree.Races.{race_free}

unfoldable run_all : System → List Turn → Option System
unfolding run
run_all s [] = some s
run_all s (turn ∷ turns) = elim (run s turn) [ none ↦ none | some t ↦ run_all t turns ]

abbrev IsStep : Turn → Type 0
IsStep reader_steps = Unit
IsStep writer_steps = Unit
IsStep (reader_begins _) = ⊥
IsStep (writer_begins _) = ⊥

Reach-run_all :
    {size : ℕ} (turns : List Turn) (s t : System)
    → Reach size s
    → All IsStep turns
    → run_all s turns ≡ some t
    → Reach size t
unfolding run_all
Reach-run_all {size} [] s t r steps e = subst (Reach size) (some-injective _ _ e) r
Reach-run_all {size} (turn ∷ turns) s t r (step, steps) e =
    by_run (λ u reach found. Reach-run_all turns u t reach steps found) (run s turn) refl e
  where
    enabled : (turn : Turn) → IsStep turn → Enabled s turn
    enabled reader_steps step = tt
    enabled writer_steps step = tt
    enabled (reader_begins n) step = absurd step
    enabled (writer_begins bs) step = absurd step

    by_run :
        ((u : System) → Reach size u → run_all u turns ≡ some t → Reach size t)
        → (o : Option System) → run s turn ≡ o
        → (elim o as (λ _. Option System) [ none ↦ none | some u ↦ run_all u turns ]) ≡ some t
        → Reach size t
    by_run onward none h found = cc
    by_run onward (some u) h found = onward u (later turn r (enabled turn step) h) found

-- Two bytes have been written, and a byte more is on its way while two are read.
abbrev both_copying : System
both_copying = record {
  ring = record { m_data = 1 ∷ 2 ∷ 0 ∷ 0 ∷ []; m_wrptr = 2; m_rdptr = 0 };
  reader = copying (record { buflen = 2; out = [] }) 2 0;
  writer = copying (record { buffer = 3 ∷ []; written = [] }) 2 0;
  given = [];
  accepted = 1 ∷ 2 ∷ [];
}

abbrev starting_write : System
starting_write = record (start_system 4) {
  writer = starting (record { buffer = 1 ∷ 2 ∷ []; written = [] });
}

abbrev two_held : System
two_held = record (start_system 4) {
  ring = record { m_data = 1 ∷ 2 ∷ 0 ∷ 0 ∷ []; m_wrptr = 2; m_rdptr = 0 };
  accepted = 1 ∷ 2 ∷ [];
}

abbrev reader_starting : System
reader_starting = record two_held { reader = starting (record { buflen = 2; out = [] }) }

abbrev both_starting : System
both_starting = record reader_starting {
  writer = starting (record { buffer = 3 ∷ []; written = [] });
}

Reach-two_held : Reach 4 two_held
unfolding run run_all store write_count
Reach-two_held =
    Reach-run_all (writer_steps ∷ writer_steps ∷ writer_steps ∷ writer_steps ∷ []) starting_write
      two_held
      (later {s = start_system 4} (writer_begins (1 ∷ 2 ∷ [])) start (refl, omega arith) refl)
      (tt, (tt, (tt, (tt, tt)))) refl

Reach-reader_starting : Reach 4 reader_starting
unfolding run
Reach-reader_starting =
    later {s = two_held} (reader_begins 2) Reach-two_held (refl, omega arith) refl

Reach-both_starting : Reach 4 both_starting
unfolding run
Reach-both_starting =
    later {s = reader_starting} (writer_begins (3 ∷ [])) Reach-reader_starting (refl, omega arith)
      refl

Reach-both_copying : Reach 4 both_copying
unfolding run run_all
Reach-both_copying =
    Reach-run_all (reader_steps ∷ writer_steps ∷ reader_steps ∷ writer_steps ∷ []) both_starting
      both_copying Reach-both_starting (tt, (tt, (tt, (tt, tt)))) refl

Lockfree-IsSound_example : IsSound 4 both_copying
Lockfree-IsSound_example = Lockfree-IsSound (omega arith) (omega arith) Reach-both_copying

race_free_example : (0 + read_count 4 2 0 2 ≤ 2) ⊎ (2 + write_count 4 2 0 1 ≤ 0)
race_free_example =
    race_free {s = both_copying} (record { buflen = 2; out = [] })
      (record { buffer = 3 ∷ []; written = [] }) 2 0 2 0 (omega arith) (omega arith)
      Reach-both_copying refl refl

-- The reader's eight steps: after four of them the call has returned.
abbrev after_read : System
after_read = record two_held {
  ring = record { m_data = 1 ∷ 2 ∷ 0 ∷ 0 ∷ []; m_wrptr = 2; m_rdptr = 2 };
  given = 1 ∷ 2 ∷ [];
}

four_steps : Runs reading reader_starting 4 after_read
unfolding run load read_count
four_steps = own (own (own (own at_first refl) refl) refl) refl

eight_steps : Runs reading reader_starting 8 after_read
unfolding run
eight_steps = own (own (own (own four_steps refl) refl) refl) refl

wait_free_example : Returned reading after_read
wait_free_example =
    wait_free reading (omega arith) (omega arith) Reach-reader_starting eight_steps (omega arith)
