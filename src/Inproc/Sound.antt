-- ===== src/Inproc/Sound.antt =====
-- What holds of the hub of src/common/inproc.cpp after any calls of its methods.
use libcppio.Prelude.{
  ℕ, ◌+◌, ◌≡◌, refl, sym, ap, subst, ◌∙◌, Bool, true, false, Option, none, some, List, [], ◌∷◌,
  ◌++◌, length, get_elem?, if◌then◌else◌, arith,
}
use libcppio.DataQueue.{DataQueue, set_connection_flag}
use mathlib.Core.Option.{some-injective}
use libcppio.Inproc.{
  is_taken, destroy_factory, InprocLine, InprocAcceptor, Hub, create_server, destroy_acceptor,
  disconnect_queue, destroy_line,
}
use libcppio.Inproc.Store.{replace_at, length-replace_at}
use libcppio.Inproc.Servers.{Separate, Separate-erase, create_server-Separate}
use libcppio.Inproc.Waiting.{Distinct}
use libcppio.Inproc.Wiring.{OneEnd}
use libcppio.Inproc.Turns.{
  Turn, client, accept, serve, stop, close, clear, traffic, close_line, run, empty_hub, Reach,
  start, later,
}
use libcppio.Inproc.Invariant.{IsSound, Sound}
use libcppio.Inproc.Connections.{begin_client-IsSound, wait_connection-IsSound}

disconnect_queue-length :
    (p : Option ℕ) (queues after : List DataQueue)
    → disconnect_queue p queues ≡ some after
    → length after ≡ length queues
unfolding disconnect_queue
disconnect_queue-length none queues after e = absurd (grind arith)
disconnect_queue-length (some i) queues after e = by_queue (get_elem? queues i) e
  where
    by_queue :
        (found : Option DataQueue)
        → (elim found as (λ _. Option (List DataQueue)) [
          | none ↦ none
          | some q ↦ some (replace_at i (set_connection_flag q false).0 queues)
        ])
          ≡ some after
        → length after ≡ length queues
    by_queue none h = absurd (grind arith)
    by_queue (some q) h =
        ap length (sym (some-injective _ _ h))
        ∙ length-replace_at i (set_connection_flag q false).0 queues

destroy_line-length :
    (queues after : List DataQueue) (line : InprocLine)
    → destroy_line queues line ≡ some after
    → length after ≡ length queues
unfolding destroy_line
destroy_line-length queues after line e = by_first (disconnect_queue line.m_out queues) refl e
  where
    by_first :
        (first : Option (List DataQueue))
        → disconnect_queue line.m_out queues ≡ first
        → (elim first as (λ _. Option (List DataQueue)) [
          | none ↦ none
          | some queues' ↦ disconnect_queue line.m_in queues'
        ])
          ≡ some after
        → length after ≡ length queues
    by_first none _ h = absurd (grind arith)
    by_first (some queues') first h =
        disconnect_queue-length line.m_in queues' after h
        ∙ disconnect_queue-length line.m_out queues queues' first

same_size-IsSound :
    (h : Hub) (queues : List DataQueue)
    → length queues ≡ length h.queues
    → IsSound h
    → IsSound (record h { queues = queues })
same_size-IsSound h queues same sound = record {
  separate = sound.separate;
  waiting = sound.waiting;
  once = sound.once;
  readers = subst (λ n. OneEnd (λ line. line.m_in) n h.lines) (sym same) sound.readers;
  writers = subst (λ n. OneEnd (λ line. line.m_out) n h.lines) (sym same) sound.writers;
}

create_server-IsSound :
    (h : Hub) (address : List ℕ) → IsSound h → IsSound (create_server h address).1
unfolding create_server
create_server-IsSound h address sound =
    by_test (is_taken h.acceptors address) (create_server-Separate h address sound.separate)
  where
    acceptor : InprocAcceptor
    acceptor = record { this = h.next_acceptor; m_address = address }

    outcome : Bool → Option InprocAcceptor × Hub
    outcome t = if t then (none, h) else (
      some acceptor,
      record h { acceptors = h.acceptors ++ (acceptor ∷ []); next_acceptor = h.next_acceptor + 1 },
    )

    by_test : (t : Bool) → Separate (outcome t).1.acceptors → IsSound (outcome t).1
    by_test true _ = sound
    by_test false separate = record {
      separate = separate;
      waiting = sound.waiting;
      once = sound.once;
      readers = sound.readers;
      writers = sound.writers;
    }

close_line-Sound : (h : Hub) (i : ℕ) → IsSound h → Sound (close_line h i)
unfolding close_line
close_line-Sound h i sound = by_line (get_elem? h.lines i)
  where
    by_queues :
        (line : InprocLine) (after : Option (List DataQueue))
        → destroy_line h.queues line ≡ after
        → Sound (elim after as (λ _. Option Hub) [
          | none ↦ none
          | some queues ↦ some (record h { queues = queues })
        ])
    by_queues line none _ = tt
    by_queues line (some queues) e =
        same_size-IsSound h queues (destroy_line-length h.queues queues line e) sound

    by_line :
        (found : Option InprocLine)
        → Sound (elim found as (λ _. Option Hub) [
          | none ↦ none
          | some line ↦ elim (destroy_line h.queues line) as (λ _. Option Hub) [
            | none ↦ none
            | some queues ↦ some (record h { queues = queues })
          ]
        ])
    by_line none = tt
    by_line (some line) = by_queues line (destroy_line h.queues line) refl

run-Sound : (h : Hub) (turn : Turn) → IsSound h → Sound (run h turn)
unfolding run destroy_acceptor destroy_factory Separate Distinct
run-Sound h (client address) sound = begin_client-IsSound h address sound
run-Sound h (accept address left) sound = wait_connection-IsSound h address left sound
run-Sound h (serve address) sound = create_server-IsSound h address sound
run-Sound h (stop a) sound = record {
  separate = Separate-erase a.this h.acceptors sound.separate;
  waiting = sound.waiting;
  once = sound.once;
  readers = sound.readers;
  writers = sound.writers;
}
run-Sound h (close i) sound = close_line-Sound h i sound
run-Sound h clear sound = record {
  separate = tt;
  waiting = tt;
  once = tt;
  readers = sound.readers;
  writers = sound.writers;
}
run-Sound h (traffic i q) sound =
    same_size-IsSound h (replace_at i q h.queues) (length-replace_at i q h.queues) sound

empty_hub-IsSound : IsSound empty_hub
unfolding Separate Distinct
empty_hub-IsSound = record {
  separate = tt;
  waiting = tt;
  once = tt;
  readers = record { range = λ j q line e p. cc; only = λ i j q line other e e' p p'. cc };
  writers = record { range = λ j q line e p. cc; only = λ i j q line other e e' p p'. cc };
}

-- In every state that the calls of the hub lead to, from no objects and in any order: no two
-- acceptors have the same address; the lines in the connect queue stand there once and have no queues
-- yet; no two lines read from the same queue, and no two write to the same queue.
pub Hub-IsSound : {h : Hub} → Reach h → IsSound h
Hub-IsSound start = empty_hub-IsSound
Hub-IsSound (later {h} turn r e) = subst Sound e (run-Sound h turn (Hub-IsSound r))
