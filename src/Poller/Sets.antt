-- ===== src/Poller/Sets.antt =====
-- What `SelectPoller::poll` of src/common/select_poller.cpp gives to `select`.
use libcppio.Prelude.{
  ℕ, ◌≤◌, ◌<◌, ◌≡◌, refl, sym, ap, ◌∙◌, Bool, true, false, ◌&&◌, ◌||◌, Option, none, some, List, [],
  ◌∷◌, All, ltb, ◌==◌, if◌then◌else◌, arith,
}
use libcppio.Poller.{
  FdSets, read_event, write_event, error_event, has_event, fd_setsize, no_fds, is_set, set_if,
  set_line, set_lines,
}

-- What one `FD_SET` does.
set_if_lem :
    (wanted : Bool) (fd : ℕ) (fds : List ℕ)
    → fd < fd_setsize
    → (fds' : List ℕ) × (set_if wanted fd fds ≡ some fds')
      × ((x : ℕ) → is_set x fds' ≡ (is_set x fds || (fd == x && wanted)))
unfolding set_if is_set
set_if_lem true fd fds small = (fd ∷ fds, ground arith, λ x. ground arith)
set_if_lem false fd fds small = (fds, refl, λ x. ground arith)

or_false : (a : Bool) → (a || false) ≡ a
or_false true = refl
or_false false = refl

or_regroup : (a h r : Bool) → ((a || (h || false)) || r) ≡ (a || (h || r))
or_regroup true h r = refl
or_regroup false true r = refl
or_regroup false false r = refl

module _ (native_handle : ℕ → Option ℕ) where
  -- The descriptor of a line is there, and has a place in an `fd_set`.
  abbrev pub Fits : ℕ × ℕ → Type 0
  Fits (line, _) = (fd : ℕ) × (native_handle line ≡ some fd) × (fd < fd_setsize)

  -- Whether a line has the descriptor.
  abbrev has_fd : ℕ → ℕ → Bool
  has_fd line fd = elim (native_handle line) [ none ↦ false | some x ↦ x == fd ]

  -- Whether one of the registered lines has the descriptor and asks for the event.
  unfoldable pub wants : ℕ → List (ℕ × ℕ) → ℕ → Bool
  wants e [] fd = false
  wants e ((line, events) ∷ pollables) fd =
      let rest = wants e pollables fd in (has_fd line fd && has_event events e) || rest

  -- The sets hold a line's descriptor besides what they held, where it asks for the event.
  record Added (pollables : List (ℕ × ℕ)) (fds fds' : FdSets) : Type 0 where
    reads :
        (fd : ℕ) → is_set fd fds'.readfds ≡ (is_set fd fds.readfds || wants read_event pollables fd)
    writes :
        (fd : ℕ)
        → is_set fd fds'.writefds ≡ (is_set fd fds.writefds || wants write_event pollables fd)
    errors :
        (fd : ℕ)
        → is_set fd fds'.errorfds ≡ (is_set fd fds.errorfds || wants error_event pollables fd)

  wants_one :
      (e line events fd x : ℕ)
      → native_handle line ≡ some fd
      → wants e ((line, events) ∷ []) x ≡ (fd == x && has_event events e)
  unfolding wants
  wants_one e line events fd x there = rw (has_fd, there) (or_false (fd == x && has_event events e))

  set_line_lem :
      (line events fd : ℕ) (fds : FdSets) (max_fd : ℕ)
      → native_handle line ≡ some fd
      → fd < fd_setsize
      → (fds' : FdSets) × (max_fd' : ℕ) × (set_line native_handle fd events fds max_fd
          ≡ some (fds', max_fd'))
        × Added ((line, events) ∷ []) fds fds'
        × (fd ≤ max_fd')
        × (max_fd ≤ max_fd')
  unfolding set_line
  set_line_lem line events fd fds max_fd e small =
      let (r, er, hr) = set_if_lem (has_event events read_event) fd fds.readfds small in
      let (w, ew, hw) = set_if_lem (has_event events write_event) fd fds.writefds small in
      let (x, ex, hx) = set_if_lem (has_event events error_event) fd fds.errorfds small in
      (
        record { readfds = r; writefds = w; errorfds = x },
        if ltb max_fd fd then fd else max_fd,
        rw (set_line, er, ew, ex) refl,
        record {
          reads = λ y.
              hr y
              ∙ ap (λ b. is_set y fds.readfds || b) (sym (wants_one read_event line events fd y e));
          writes = λ y.
              hw y
              ∙ ap (λ b. is_set y fds.writefds || b)
                  (sym (wants_one write_event line events fd y e));
          errors = λ y.
              hx y
              ∙ ap (λ b. is_set y fds.errorfds || b)
                  (sym (wants_one error_event line events fd y e));
        },
        ground arith,
        ground arith,
      )

  Added-cons :
      (p : ℕ × ℕ) (pollables : List (ℕ × ℕ)) (a b c : FdSets)
      → Added (p ∷ []) a b
      → Added pollables b c
      → Added (p ∷ pollables) a c
  unfolding wants
  Added-cons (line, events) pollables a b c first others = record {
    reads = λ fd.
        others.reads fd
        ∙ ap (λ x. x || wants read_event pollables fd) (first.reads fd)
        ∙ or_regroup (is_set fd a.readfds) (has_fd line fd && has_event events read_event)
            (wants read_event pollables fd);
    writes = λ fd.
        others.writes fd
        ∙ ap (λ x. x || wants write_event pollables fd) (first.writes fd)
        ∙ or_regroup (is_set fd a.writefds) (has_fd line fd && has_event events write_event)
            (wants write_event pollables fd);
    errors = λ fd.
        others.errors fd
        ∙ ap (λ x. x || wants error_event pollables fd) (first.errors fd)
        ∙ or_regroup (is_set fd a.errorfds) (has_fd line fd && has_event events error_event)
            (wants error_event pollables fd);
  }

  -- The descriptor of a line is no greater than the bound.
  abbrev pub Bounded : ℕ → ℕ × ℕ → Type 0
  Bounded max_fd (line, _) = (fd : ℕ) × (native_handle line ≡ some fd) × (fd ≤ max_fd)

  set_lines_from :
      (pollables : List (ℕ × ℕ)) (fds : FdSets) (max_fd : ℕ)
      → All Fits pollables
      → (fds' : FdSets) × (max_fd' : ℕ) × (set_lines native_handle pollables fds max_fd
          ≡ some (fds', max_fd'))
        × Added pollables fds fds'
        × All (Bounded max_fd') pollables
        × (max_fd ≤ max_fd')
  unfolding set_lines wants
  set_lines_from [] fds max_fd _ = (
    fds,
    max_fd,
    refl,
    record {
      reads = λ fd. sym (or_false (is_set fd fds.readfds));
      writes = λ fd. sym (or_false (is_set fd fds.writefds));
      errors = λ fd. sym (or_false (is_set fd fds.errorfds));
    },
    tt,
    omega arith,
  )
  set_lines_from ((line, events) ∷ pollables) fds max_fd ((fd, e, small), fits) =
      let (fds1, max1, e1, added1, le, grows1) = set_line_lem line events fd fds max_fd e small in
      let (fds2, max2, e2, added2, bounds, grows2) = set_lines_from pollables fds1 max1 fits in
      (
        fds2,
        max2,
        rw (set_lines, e, e1) e2,
        Added-cons (line, events) pollables fds fds1 fds2 added1 added2,
        ((fd, e, omega arith), bounds),
        omega arith,
      )

  -- If every registered line has a descriptor below FD_SETSIZE, the first loop of `poll` touches no
  -- other memory, and each of the three sets that it gives to `select` holds exactly the descriptors
  -- of the registered lines that ask for its event; no registered line's descriptor is above the
  -- greatest that it has found.
  pub set_lines_lem :
      (pollables : List (ℕ × ℕ))
      → All Fits pollables
      → (fds : FdSets) × (max_fd : ℕ) × (set_lines native_handle pollables no_fds 0
          ≡ some (fds, max_fd))
        × ((fd : ℕ) → is_set fd fds.readfds ≡ wants read_event pollables fd)
        × ((fd : ℕ) → is_set fd fds.writefds ≡ wants write_event pollables fd)
        × ((fd : ℕ) → is_set fd fds.errorfds ≡ wants error_event pollables fd)
        × All (Bounded max_fd) pollables
  unfolding is_set
  set_lines_lem pollables fits =
      let (fds, max_fd, e, added, bounds, _) = set_lines_from pollables no_fds 0 fits in
      (fds, max_fd, e, added.reads, added.writes, added.errors, bounds)
