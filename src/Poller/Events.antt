-- ===== src/Poller/Events.antt =====
-- What `SelectPoller::poll` of src/common/select_poller.cpp stores for `eventsForLine`.
use libcppio.Prelude.{
  ℕ, zero, suc, ◌+◌, ◌≡◌, refl, sym, ap, subst, ◌∙◌, Bool, true, false, Option, none, some, List,
  [], ◌∷◌, ltb, ◌==◌, if◌then◌else◌, arith,
}
use Prim.Native.Nat.{bit_or}
use libcppio.Prelude.Int.{ℤ}
use libcppio.Socket.{TimeVal, timeval}
use mathlib.Core.Option.{some-injective}
use libcppio.Poller.{
  FdSets, SelectPoller, Polled, polled, faulted, polling_error, Selected, fd_setsize, no_fds,
  no_event, insert_event, find_event, events_for_line, events_in, is_set, read_event, write_event,
  error_event, collect, set_lines, after_select, poll,
}

unfoldable pub is_registered : ℕ → List (ℕ × ℕ) → Bool
is_registered line [] = false
is_registered line ((l, _) ∷ pollables) =
    let rest = is_registered line pollables in if l == line then true else rest

-- The events of the sets that hold a descriptor, added up.
abbrev pub flags : FdSets → ℕ → ℕ
flags fds fd =
    (if is_set fd fds.readfds then read_event else 0)
    + (if is_set fd fds.writefds then write_event else 0)
    + (if is_set fd fds.errorfds then error_event else 0)

events_in-flags : (fds : FdSets) (fd : ℕ) → events_in fds fd ≡ flags fds fd
unfolding events_in
events_in-flags fds fd =
    by_sets (is_set fd fds.readfds) (is_set fd fds.writefds) (is_set fd fds.errorfds)
  where
    by_sets :
        (r w e : Bool)
        → (let a = if r then bit_or no_event read_event else no_event in
            let b = if w then bit_or a write_event else a in if e then bit_or b error_event else b)
          ≡ (if r then read_event else 0)
            + (if w then write_event else 0)
            + (if e then error_event else 0)
    by_sets true true true = refl
    by_sets true true false = refl
    by_sets true false true = refl
    by_sets true false false = refl
    by_sets false true true = refl
    by_sets false true false = refl
    by_sets false false true = refl
    by_sets false false false = refl

find_event-insert_event :
    (line l e : ℕ) (m : List (ℕ × ℕ))
    → find_event line (insert_event l e m) ≡ (if l == line then e else find_event line m)
unfolding find_event insert_event
find_event-insert_event line l e [] = refl
find_event-insert_event line l e ((k, v) ∷ m) = ground (arith, find_event-insert_event line l e m)

merged :
    (same registered : Bool) (at_line at_fd before : ℕ)
    → (same ≡ true → at_fd ≡ at_line)
    → (if registered then at_line else (if same then at_fd else before))
      ≡ (if (if same then true else registered) then at_line else before)
merged true true a b c h = refl
merged true false a b c h = h refl
merged false true a b c h = refl
merged false false a b c h = refl

module _ (native_handle : ℕ → Option ℕ) where
  -- The events of a line, in sets of descriptors.
  abbrev pub events_at : FdSets → ℕ → ℕ
  events_at fds line = elim (native_handle line) [ none ↦ no_event | some fd ↦ flags fds fd ]

  events_at-handle :
      (fds : FdSets) (l line fd : ℕ)
      → native_handle l ≡ some fd
      → l ≡ line
      → events_in fds fd ≡ events_at fds line
  events_at-handle fds l line fd e same =
      events_in-flags fds fd
      ∙ subst (λ k. flags fds fd ≡ events_at fds k) same
          (sym (ap (λ found. elim found as (λ _. ℕ) [ none ↦ no_event | some d ↦ flags fds d ]) e))

  collected :
      (fds : FdSets) (pollables m m' : List (ℕ × ℕ)) (line : ℕ)
      → collect native_handle fds pollables m ≡ some m'
      → find_event line m'
        ≡ (if is_registered line pollables then events_at fds line else find_event line m)
  unfolding collect is_registered
  collected fds [] m m' line e = ap (find_event line) (sym (some-injective _ _ e))
  collected fds ((l, asked) ∷ pollables) m m' line e =
      by_handle (native_handle l) refl e
        (λ fd h. collected fds pollables (insert_event l (events_in fds fd) m) m' line h)
    where
      goal : Type 0
      goal = find_event line m' ≡ (
          if (if l == line then true else is_registered line pollables)
          then events_at fds line
          else find_event line m)

      rest : ℕ → Option (List (ℕ × ℕ))
      rest fd = collect native_handle fds pollables (insert_event l (events_in fds fd) m)

      known : ℕ → Type 0
      known fd = find_event line m' ≡ (
          if is_registered line pollables
          then events_at fds line
          else find_event line (insert_event l (events_in fds fd) m))

      by_size :
          (fd : ℕ) (t : Bool)
          → native_handle l ≡ some fd
          → (elim t as (λ _. Option (List (ℕ × ℕ))) [ false ↦ none | true ↦ rest fd ]) ≡ some m'
          → (rest fd ≡ some m' → known fd)
          → goal
      by_size fd false there h ih = absurd (grind arith)
      by_size fd true there h ih =
          ih h
          ∙ ap (λ other. if is_registered line pollables then events_at fds line else other)
              (find_event-insert_event line l (events_in fds fd) m)
          ∙ merged (l == line) (is_registered line pollables) (events_at fds line)
              (events_in fds fd) (find_event line m)
              (λ same. events_at-handle fds l line fd there (ground arith))

      by_handle :
          (found : Option ℕ)
          → native_handle l ≡ found
          → (elim found as (λ _. Option (List (ℕ × ℕ))) [
            | none ↦ none
            | some fd ↦ elim (ltb fd fd_setsize) as (λ _. Option (List (ℕ × ℕ))) [
              | false ↦ none
              | true ↦ rest fd
            ]
          ])
            ≡ some m'
          → ((fd : ℕ) → rest fd ≡ some m' → known fd)
          → goal
      by_handle none there h ih = absurd (grind arith)
      by_handle (some fd) there h ih = by_size fd (ltb fd fd_setsize) there h (ih fd)

  abbrev Reported : SelectPoller → ℕ → Bool → SelectPoller → Type 0
  Reported p line ready p' = events_for_line p' line ≡ (
      if ready
      then (if is_registered line p.m_pollables then events_at p'.m_fds line else no_event)
      else no_event)

  -- The same of a whole outcome; it says nothing where `poll` did not return.
  abbrev ReportedBy : SelectPoller → ℕ → Polled Bool × SelectPoller → Type 0
  ReportedBy p line (polled ready, p') = Reported p line ready p'
  ReportedBy p line (_, p') = Unit

  after_select-Reported :
      (p : SelectPoller) (out : Selected) (line : ℕ)
      → ReportedBy p line (after_select native_handle p out)
  unfolding after_select events_for_line find_event
  after_select-Reported p out line = by_result out.result
    where
      after : List (ℕ × ℕ) → SelectPoller
      after m = record p { m_fds = out.fds; m_events = m }

      stored : Option (List (ℕ × ℕ)) → Polled Bool × SelectPoller
      stored found = elim found [ none ↦ (faulted, after []) | some m ↦ (polled true, after m) ]

      by_map :
          (found : Option (List (ℕ × ℕ)))
          → collect native_handle out.fds p.m_pollables [] ≡ found
          → ReportedBy p line (stored found)
      by_map none c = tt
      by_map (some m) c = collected out.fds p.m_pollables [] m line c

      by_result :
          (result : Option ℕ)
          → ReportedBy p line (elim result as (λ _. Polled Bool × SelectPoller) [
            | none ↦ (polling_error, after [])
            | some zero ↦ (polled false, after [])
            | some (suc _) ↦ stored (collect native_handle out.fds p.m_pollables [])
          ])
      by_result none = tt
      by_result (some zero) = refl
      by_result (some (suc k)) = by_map (collect native_handle out.fds p.m_pollables []) refl

  -- After a `poll` that returned true, `eventsForLine` of a registered line is what `select` left set
  -- for the line's descriptor, and of any other line no event; after one that returned false it is no
  -- event for every line.
  pub events_for_line-poll :
      {World : Type 0} (select : ℕ → FdSets → TimeVal → World → Selected × World)
      (p p' : SelectPoller) (timeout : ℤ) (w w' : World) (ready : Bool) (line : ℕ)
      → poll native_handle select p timeout w ≡ ((polled ready, p'), w')
      → events_for_line p' line ≡ (
          if ready
          then (if is_registered line p.m_pollables then events_at p'.m_fds line else no_event)
          else no_event)
  unfolding poll
  events_for_line-poll {World} select p p' timeout w w' ready line e =
      subst (λ (r : (Polled Bool × SelectPoller) × World). ReportedBy p line r.0) e
        (by_sets (set_lines native_handle p.m_pollables no_fds 0))
    where
      by_sets :
          (found : Option (FdSets × ℕ))
          → ReportedBy p line
              (elim found as (λ _. (Polled Bool × SelectPoller) × World) [
                | none ↦ ((faulted, p), w)
                | some (fds, max_fd) ↦
                    let (out, w'') = select (max_fd + 1) fds (timeval timeout) w in
                    (after_select native_handle p out, w'')
              ]).0
      by_sets none = tt
      by_sets (some (fds, max_fd)) =
          after_select-Reported p (select (max_fd + 1) fds (timeval timeout) w).0 line
