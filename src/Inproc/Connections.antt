-- ===== src/Inproc/Connections.antt =====
-- Connecting over the hub of src/common/inproc.cpp keeps its invariant.
use libcppio.Prelude.{
  ℕ, ◌+◌, ◌<◌, ◌≡◌, ◌≢◌, refl, ◌∙◌, Option, none, some, List, [], ◌∷◌, ◌++◌, length, length-append,
  All, All-append, arith,
}
use libcppio.Prelude.Int.{ℤ, pos, negsuc}
use libcppio.DataQueue.{DataQueue}
use libcppio.Inproc
use libcppio.Inproc.{
  is_taken, destroy_factory, InprocLine, InprocAcceptor, Hub, new_line, begin_client, accept_line,
  scan, wait_connection, create_server, destroy_acceptor, disconnect_queue, destroy_line,
  fresh_queue,
}
use libcppio.Inproc.Store.{
  replace_at, length-replace_at, get_elem?-front, get_elem?-behind, get_elem?-other,
  get_elem?-bound,
}
use libcppio.Inproc.Waiting.{
  Waiting, Picked, All-Picked, Distinct-Picked, Distinct-added, scan-Picked,
}
use libcppio.Inproc.Wiring.{OneEnd-added, OneEnd-joined}
use libcppio.Inproc.Invariant.{IsSound}

Waiting-bound :
    (lines : List InprocLine) (is : List ℕ)
    → All (Waiting lines) is
    → All (λ i. i < length lines) is
Waiting-bound lines [] _ = tt
Waiting-bound lines (i ∷ is) ((line, e, no_in, no_out), ws) =
    (get_elem?-bound i lines line e, Waiting-bound lines is ws)

Waiting-added :
    (lines : List InprocLine) (fresh : InprocLine) (is : List ℕ)
    → All (Waiting lines) is
    → All (Waiting (lines ++ (fresh ∷ []))) is
Waiting-added lines fresh [] _ = tt
Waiting-added lines fresh (i ∷ is) ((line, e, no_in, no_out), ws) = (
  (line, get_elem?-front i lines (fresh ∷ []) (get_elem?-bound i lines line e) ∙ e, no_in, no_out),
  Waiting-added lines fresh is ws,
)

Waiting-joined :
    (lines : List InprocLine) (i : ℕ) (joined added : InprocLine) (is : List ℕ)
    → All (λ j. i ≢ j) is
    → All (Waiting lines) is
    → All (Waiting (replace_at i joined lines ++ (added ∷ []))) is
Waiting-joined lines i joined added [] _ _ = tt
Waiting-joined lines i joined added (j ∷ js) (ne, nes) ((line, e, no_in, no_out), ws) = (
  (
    line,
    get_elem?-front j (replace_at i joined lines) (added ∷ [])
          (omega (arith, length-replace_at i joined lines, get_elem?-bound j lines line e))
        ∙ get_elem?-other i j joined lines ne
        ∙ e,
    no_in,
    no_out,
  ),
  Waiting-joined lines i joined added js nes ws,
)

pub begin_client-IsSound :
    (h : Hub) (address : List ℕ) → IsSound h → IsSound (begin_client h address).0
unfolding begin_client new_line
begin_client-IsSound h address sound = record {
  separate = sound.separate;
  waiting =
      All-append (Waiting (h.lines ++ (new_line address ∷ []))) (length h.lines ∷ [])
        h.connect_queue (Waiting-added h.lines (new_line address) h.connect_queue sound.waiting)
        (
          (
            new_line address,
            get_elem?-behind h.lines (new_line address ∷ []) (length h.lines) 0 (omega arith),
            refl,
            refl,
          ),
          tt,
        );
  once =
      Distinct-added h.connect_queue (length h.lines)
        (Waiting-bound h.lines h.connect_queue sound.waiting) sound.once;
  readers =
      OneEnd-added (λ line. line.m_in) (length h.queues) h.lines sound.readers (new_line address)
        refl;
  writers =
      OneEnd-added (λ line. line.m_out) (length h.queues) h.lines sound.writers (new_line address)
        refl;
}

accept_line-IsSound :
    (h : Hub) (i : ℕ) (line : InprocLine) (rest : List ℕ)
    → IsSound h
    → Picked i rest h.connect_queue
    → IsSound (accept_line (record h { connect_queue = rest }) i line).0
unfolding accept_line
accept_line-IsSound h i line rest sound pick =
    let (away, once) = Distinct-Picked pick sound.once in
    let (itself, others) = All-Picked (Waiting h.lines) pick sound.waiting in
    record {
      separate = sound.separate;
      waiting = Waiting-joined h.lines i here added rest away others;
      once = once;
      readers =
          OneEnd-joined (λ l. l.m_in) n h.lines sound.readers i (n + 1) n here added refl refl
            (omega arith) (omega arith) (λ e. absurd (omega arith)) (length both)
            (omega (arith, size)) (omega (arith, size)) (omega (arith, size));
      writers =
          OneEnd-joined (λ l. l.m_out) n h.lines sound.writers i n (n + 1) here added refl refl
            (omega arith) (omega arith) (λ e. absurd (omega arith)) (length both)
            (omega (arith, size)) (omega (arith, size)) (omega (arith, size));
    }
  where
    n : ℕ
    n = length h.queues

    both : List DataQueue
    both = h.queues ++ (fresh_queue ∷ fresh_queue ∷ [])

    size : length both ≡ n + 2
    size = length-append h.queues (fresh_queue ∷ fresh_queue ∷ [])

    here : InprocLine
    here = record line { m_out = some n; m_in = some (n + 1) }

    added : InprocLine
    added = record {
      m_address = line.m_address;
      m_in = some n;
      m_out = some (n + 1);
      m_read_timeout = pos 0;
    }

pub wait_connection-IsSound :
    (h : Hub) (address : List ℕ) (left : ℤ) → IsSound h → IsSound (wait_connection h address left).1
unfolding wait_connection
wait_connection-IsSound h address left sound = by_found (scan h.lines address h.connect_queue) refl
  where
    Found : Type 0
    Found = ℕ × InprocLine × List ℕ

    outcome : Option Found → Inproc.Turn × Hub
    outcome found = elim found [
      | some (i, line, rest) ↦
          let (h', s) = accept_line (record h { connect_queue = rest }) i line in
          (Inproc.connected s, h')
      | none ↦ elim left [ pos _ ↦ (Inproc.sleeps, h) | negsuc _ ↦ (Inproc.times_out, h) ]
    ]

    unanswered :
        (t : ℤ)
        → IsSound
            (elim t as (λ _. Inproc.Turn × Hub) [
              | pos _ ↦ (Inproc.sleeps, h)
              | negsuc _ ↦ (Inproc.times_out, h)
            ]).1
    unanswered (pos _) = sound
    unanswered (negsuc _) = sound

    by_found :
        (found : Option Found)
        → scan h.lines address h.connect_queue ≡ found
        → IsSound (outcome found).1
    by_found none e = unanswered left
    by_found (some (i, line, rest)) e =
        accept_line-IsSound h i line rest sound
          (scan-Picked h.lines address h.connect_queue i line rest e).0
