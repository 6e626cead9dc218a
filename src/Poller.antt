-- ===== src/Poller.antt =====
-- SelectPoller of src/common/select_poller.cpp, with LineEvent of include/cppio/poller.h. A line is
-- known by a number, its address. The lines' `getNativeHandle` and the system's `select` are
-- parameters.
pub mod Events
pub mod Sets
pub mod Lines
mod Tests
use Prim.Native.Nat.{bit_and, bit_or}
use libcppio.Prelude.{
  ℕ, zero, suc, ◌+◌, ◌<◌, ◌≡◌, Bool, true, false, ◌||◌, not, Option, none, some, List, [], ◌∷◌,
  ◌++◌, ltb, ◌==◌, if◌then◌else◌,
}
use libcppio.Prelude.Int.{ℤ}
use libcppio.Socket.{TimeVal, timeval}

-- `enum class LineEvent : int`
abbrev pub no_event : ℕ
no_event = 0

abbrev pub read_event : ℕ
read_event = 1

abbrev pub write_event : ℕ
write_event = 2

abbrev pub error_event : ℕ
error_event = 4

-- `(events & e) != LineEvent::None`
unfoldable pub has_event : ℕ → ℕ → Bool
has_event events e = not (bit_and events e == no_event)

-- The three `fd_set`s: the descriptors in each.
pub record FdSets : Type 0 where
  pub readfds : List ℕ
  pub writefds : List ℕ
  pub errorfds : List ℕ

-- `m_pollables` with the events asked for, the sets, and `m_events`.
pub record SelectPoller : Type 0 where
  pub m_pollables : List (ℕ × ℕ)
  pub m_fds : FdSets
  pub m_events : List (ℕ × ℕ)

-- What a call did: it returned, it threw LineIsNotPollable or IoException, or it touched memory
-- outside an `fd_set` or through a null pointer.
pub data Polled (A : Type 0) : Type 0 where
  polled : A → Polled A
  line_is_not_pollable : Polled A
  polling_error : Polled A
  faulted : Polled A

-- What `select` returned, where a negative number is `none`, with the sets as it left them.
pub record Selected : Type 0 where
  pub result : Option ℕ
  pub fds : FdSets

abbrev pub no_fds : FdSets
no_fds = record { readfds = []; writefds = []; errorfds = [] }

abbrev pub empty_poller : SelectPoller
empty_poller = record { m_pollables = []; m_fds = no_fds; m_events = [] }

-- `FD_ISSET` for a descriptor that an `fd_set` has a place for.
unfoldable pub is_set : ℕ → List ℕ → Bool
is_set fd [] = false
is_set fd (x ∷ xs) = let rest = is_set fd xs in if x == fd then true else rest

-- `FD_SETSIZE`
abbrev pub fd_setsize : ℕ
fd_setsize = 1_024

-- `FD_SET` if the condition holds.
unfoldable pub set_if : Bool → ℕ → List ℕ → Option (List ℕ)
set_if wanted fd fds =
    if wanted then (if ltb fd fd_setsize then some (fd ∷ fds) else none) else some fds

-- `removeLine`: the first entry for the line goes.
unfoldable pub erase_line : ℕ → List (ℕ × ℕ) → List (ℕ × ℕ)
erase_line line [] = []
erase_line line ((l, events) ∷ pollables) =
    let rest = erase_line line pollables in if l == line then pollables else (l, events) ∷ rest

unfoldable pub remove_line : SelectPoller → ℕ → SelectPoller
unfolding erase_line
remove_line p line = record p { m_pollables = erase_line line p.m_pollables }

-- `m_events[line] = events`
unfoldable pub insert_event : ℕ → ℕ → List (ℕ × ℕ) → List (ℕ × ℕ)
insert_event line events [] = (line, events) ∷ []
insert_event line events ((l, e) ∷ m) =
    let rest = insert_event line events m in if l == line then (line, events) ∷ m else (l, e) ∷ rest

-- `m_events.find(line)`, and `LineEvent::None` for a line that is not there.
unfoldable pub find_event : ℕ → List (ℕ × ℕ) → ℕ
find_event line [] = no_event
find_event line ((l, e) ∷ m) = let rest = find_event line m in if l == line then e else rest

unfoldable pub events_for_line : SelectPoller → ℕ → ℕ
unfolding find_event
events_for_line p line = find_event line p.m_events

-- The events of a descriptor, with `|=` for each set that it is in.
unfoldable pub events_in : FdSets → ℕ → ℕ
unfolding is_set
events_in fds fd =
    let a = if is_set fd fds.readfds then bit_or no_event read_event else no_event in
    let b = if is_set fd fds.writefds then bit_or a write_event else a in
    if is_set fd fds.errorfds then bit_or b error_event else b

module _ (native_handle : ℕ → Option ℕ) where
  -- `addLine`
  unfoldable pub add_line : SelectPoller → ℕ → ℕ → Polled SelectPoller
  add_line p line events = elim (native_handle line) [
    | none ↦ line_is_not_pollable
    | some _ ↦ polled (record p { m_pollables = p.m_pollables ++ ((line, events) ∷ []) })
  ]

  -- The body of the first loop of `poll`, for a line with its descriptor.
  unfoldable pub set_line : ℕ → ℕ → FdSets → ℕ → Option (FdSets × ℕ)
  unfolding set_if has_event
  set_line fd events fds max_fd = elim (set_if (has_event events read_event) fd fds.readfds) [
    | none ↦ none
    | some readfds ↦ elim (set_if (has_event events write_event) fd fds.writefds) [
      | none ↦ none
      | some writefds ↦ elim (set_if (has_event events error_event) fd fds.errorfds) [
        | none ↦ none
        | some errorfds ↦ some (
          record { readfds = readfds; writefds = writefds; errorfds = errorfds },
          if ltb max_fd fd then fd else max_fd,
        )
      ]
    ]
  ]

  -- The first loop of `poll`: the sets and the greatest descriptor.
  unfoldable pub set_lines : List (ℕ × ℕ) → FdSets → ℕ → Option (FdSets × ℕ)
  unfolding set_line
  set_lines [] fds max_fd = some (fds, max_fd)
  set_lines ((line, events) ∷ pollables) fds max_fd = elim (native_handle line) [
    | none ↦ none
    | some fd ↦ elim (set_line fd events fds max_fd) [
      | none ↦ none
      | some (fds', max_fd') ↦ set_lines pollables fds' max_fd'
    ]
  ]

  -- The second loop, which asks `FD_ISSET` for every line.
  unfoldable pub collect : FdSets → List (ℕ × ℕ) → List (ℕ × ℕ) → Option (List (ℕ × ℕ))
  unfolding insert_event events_in
  collect fds [] m = some m
  collect fds ((line, _) ∷ pollables) m = elim (native_handle line) [
    | none ↦ none
    | some fd ↦ elim (ltb fd fd_setsize) [
      | false ↦ none
      | true ↦ collect fds pollables (insert_event line (events_in fds fd) m)
    ]
  ]

  -- The end of `poll`, with what `select` returned.
  unfoldable pub after_select : SelectPoller → Selected → Polled Bool × SelectPoller
  unfolding collect
  after_select p out = elim out.result [
    | none ↦ (polling_error, record p { m_fds = out.fds; m_events = [] })
    | some zero ↦ (polled false, record p { m_fds = out.fds; m_events = [] })
    | some (suc _) ↦ elim (collect out.fds p.m_pollables []) [
      | none ↦ (faulted, record p { m_fds = out.fds; m_events = [] })
      | some m ↦ (polled true, record p { m_fds = out.fds; m_events = m })
    ]
  ]

  -- `poll`, with a number of milliseconds.
  unfoldable pub poll :
      {World : Type 0}
      → (ℕ → FdSets → TimeVal → World → Selected × World)
      → SelectPoller
      → ℤ
      → World
      → (Polled Bool × SelectPoller) × World
  unfolding set_lines after_select timeval
  poll select p timeout w = elim (set_lines p.m_pollables no_fds 0) [
    | none ↦ ((faulted, p), w)
    | some (fds, max_fd) ↦
        let (out, w') = select (max_fd + 1) fds (timeval timeout) w in (after_select p out, w')
  ]
