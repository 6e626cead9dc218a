-- ===== src/Poller/Lines.antt =====
-- `addLine` and `removeLine` of src/common/select_poller.cpp.
use libcppio.Prelude.{
  ℕ, ◌+◌, ◌-◌, ◌≡◌, refl, Option, some, List, [], ◌∷◌, ◌++◌, ◌==◌, if◌then◌else◌, arith,
}
use libcppio.Poller.{SelectPoller, polled, add_line, remove_line, erase_line}

-- How often a line is registered.
unfoldable pub count : ℕ → List (ℕ × ℕ) → ℕ
count line [] = 0
count line ((l, _) ∷ pollables) =
    let rest = count line pollables in if l == line then rest + 1 else rest

count-added :
    (line k events : ℕ) (pollables : List (ℕ × ℕ))
    → count k (pollables ++ ((line, events) ∷ []))
      ≡ (if line == k then count k pollables + 1 else count k pollables)
unfolding count
count-added line k events [] = ground arith
count-added line k events ((l, e) ∷ pollables) = ground (arith, count-added line k events pollables)

count-erase_line :
    (line k : ℕ) (pollables : List (ℕ × ℕ))
    → count k (erase_line line pollables)
      ≡ (if line == k then count k pollables - 1 else count k pollables)
unfolding count erase_line
count-erase_line line k [] = ground arith
count-erase_line line k ((l, e) ∷ pollables) = ground (arith, count-erase_line line k pollables)

-- `addLine` of a line with a native handle registers it once more, and no other line; `removeLine`
-- takes away one registration of the line, if there is one, and none of another; and after `addLine`
-- and `removeLine` of a line every line is registered as often as before.
pub remove_line-add_line :
    (native_handle : ℕ → Option ℕ) (p : SelectPoller) (line events handle : ℕ)
    → native_handle line ≡ some handle
    → (p' : SelectPoller) × (add_line native_handle p line events ≡ polled p')
      × ((k : ℕ)
          → count k p'.m_pollables
            ≡ (if line == k then count k p.m_pollables + 1 else count k p.m_pollables))
      × ((k : ℕ)
          → count k (remove_line p line).m_pollables
            ≡ (if line == k then count k p.m_pollables - 1 else count k p.m_pollables))
      × ((k : ℕ) → count k (remove_line p' line).m_pollables ≡ count k p.m_pollables)
unfolding add_line remove_line
remove_line-add_line native_handle p line events handle e = (
  record p { m_pollables = p.m_pollables ++ ((line, events) ∷ []) },
  rw (add_line, e) refl,
  λ k. count-added line k events p.m_pollables,
  λ k. count-erase_line line k p.m_pollables,
  λ k. ground (
    arith,
    count-erase_line line k (p.m_pollables ++ ((line, events) ∷ [])),
    count-added line k events p.m_pollables,
  ),
)
