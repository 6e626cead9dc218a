-- ===== src/Poller/Tests.antt =====
-- Three lines on concrete inputs, and the theorems at concrete inputs.
use libcppio.Prelude.{
  ℕ, suc, ◌+◌, ◌-◌, ◌≡◌, refl, true, Option, none, some, List, [], ◌∷◌, All, ◌==◌, if◌then◌else◌,
  arith,
}
use libcppio.Prelude.Int.{pos}
use libcppio.Socket.{TimeVal}
use libcppio.Poller.{
  FdSets, SelectPoller, polled, Selected, no_fds, no_event, read_event, write_event, error_event,
  is_set, set_lines, events_in, events_for_line, insert_event, poll, add_line, remove_line,
  empty_poller,
}
use libcppio.Poller.Events.{is_registered, events_at, events_for_line-poll}
use libcppio.Poller.Sets.{wants, Bounded, set_lines_lem}
use libcppio.Poller.Lines.{count, remove_line-add_line}

-- Line k has the descriptor k + 3, up to line 9.
abbrev handle : ℕ → Option ℕ
handle line = if line == 9 then none else some (line + 3)

-- Line 0 for reading, line 1 for both.
abbrev lines : List (ℕ × ℕ)
lines = (0, 1) ∷ (1, 3) ∷ []

abbrev two_lines : SelectPoller
two_lines = record empty_poller { m_pollables = lines }

-- A system in which everything is ready for writing.
abbrev all_write : ℕ → FdSets → TimeVal → ℕ → Selected × ℕ
all_write bound fds limit w =
    (record { result = some 1; fds = record no_fds { writefds = fds.writefds } }, suc w)

abbrev polled_lines : SelectPoller
polled_lines = record {
  m_pollables = lines;
  m_fds = record no_fds { writefds = 4 ∷ [] };
  m_events = (0, 0) ∷ (1, 2) ∷ [];
}

poll-two_lines : poll handle all_write two_lines (pos 1_500) 7 ≡ ((polled true, polled_lines), 8)
unfolding poll set_lines events_in insert_event
poll-two_lines = refl

events_for_line-poll_example :
    events_for_line polled_lines 1
    ≡ (if is_registered 1 lines then events_at handle polled_lines.m_fds 1 else no_event)
events_for_line-poll_example =
    events_for_line-poll handle all_write two_lines polled_lines (pos 1_500) 7 8 true 1
      poll-two_lines

set_lines_lem_example :
    (fds : FdSets) × (max_fd : ℕ) × (set_lines handle lines no_fds 0 ≡ some (fds, max_fd))
    × ((fd : ℕ) → is_set fd fds.readfds ≡ wants handle read_event lines fd)
    × ((fd : ℕ) → is_set fd fds.writefds ≡ wants handle write_event lines fd)
    × ((fd : ℕ) → is_set fd fds.errorfds ≡ wants handle error_event lines fd)
    × All (Bounded handle max_fd) lines
set_lines_lem_example =
    set_lines_lem handle lines ((3, refl, omega arith), ((4, refl, omega arith), tt))

remove_line-add_line_example :
    (p' : SelectPoller) × (add_line handle two_lines 2 4 ≡ polled p')
    × ((k : ℕ) → count k p'.m_pollables ≡ (if 2 == k then count k lines + 1 else count k lines))
    × ((k : ℕ)
        → count k (remove_line two_lines 2).m_pollables
          ≡ (if 2 == k then count k lines - 1 else count k lines))
    × ((k : ℕ) → count k (remove_line p' 2).m_pollables ≡ count k lines)
remove_line-add_line_example = remove_line-add_line handle two_lines 2 4 5 refl
