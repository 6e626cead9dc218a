-- ===== src/NamedPipe/Names.antt =====
-- The names of the pipes that NamedPipeAcceptor::waitConnection of src/win32/pipes.cpp makes.
use libcppio.Prelude.{
  ℕ, suc, ◌+◌, ◌/◌, ◌%◌, ◌^◌, ◌≤◌, ◌<◌, ◌≡◌, ◌≢◌, refl, sym, ap, ap₂, ◌∙◌, List, ◌++◌, drop,
  drop-append, length, arith, append_assoc,
}
use libcppio.Prelude.Int.{ℤ, pos, narrow}
use libcppio.NamedPipe.{
  WinPipes, NamedPipeAcceptor, to_string, new_pipe_address, pipe_wait_connection,
}
use libcppio.NamedPipe.Decimal.{decimal_long, decimal-fuel, decimal_short, to_string-eq, narrow-eq}

-- Calls of `waitConnection`, with any time limits and in any states of the system, whatever they
-- return: so many lead from one acceptor to the other.
pub data Calls (w : WinPipes) (a : NamedPipeAcceptor) : ℕ → NamedPipeAcceptor → Type 0 where
  no_call : Calls w a 0 a
  one_more :
      {n : ℕ} {b : NamedPipeAcceptor} (timeout : ℤ) (k : w.Kernel)
      → Calls w a n b
      → Calls w a (suc n) (pipe_wait_connection w b timeout k).0.1

module _ (w : WinPipes) where
  counted :
      (b : NamedPipeAcceptor) (timeout : ℤ) (k : w.Kernel)
      → let after = (pipe_wait_connection w b timeout k).0.1 in
        (after.m_address ≡ b.m_address) × (after.m_counter ≡ (b.m_counter + 1) % 2 ^ 32)
  unfolding pipe_wait_connection
  counted b timeout k = (refl, refl)

  pub Calls-counter :
      {a b : NamedPipeAcceptor} {n : ℕ}
      → a.m_counter < 2 ^ 32
      → Calls w a n b
      → (b.m_address ≡ a.m_address) × (b.m_counter ≡ (a.m_counter + n) % 2 ^ 32)
  Calls-counter h no_call = (refl, omega arith)
  Calls-counter h (one_more {n} {b} timeout k calls) =
      let (same, e) = counted b timeout k in
      let (before, e') = Calls-counter h calls in (same ∙ before, omega (arith, e, e'))

pub append-eq_back : (xs ys zs : List ℕ) → xs ++ ys ≡ xs ++ zs → ys ≡ zs
append-eq_back xs ys zs e =
    sym (drop-append xs ys {n = length xs} refl)
    ∙ ap (drop (length xs)) e
    ∙ drop-append xs zs {n = length xs} refl

module _ (w : WinPipes) where
  -- Two calls of `waitConnection` of one acceptor that are less than 2^32 calls apart make pipes of
  -- different names, from whatever the counter starts at.
  pub new_pipe_address-ne :
      {a b : NamedPipeAcceptor} {n : ℕ}
      → a.m_counter < 2 ^ 32
      → Calls w a (suc n) b
      → suc n < 2 ^ 32
      → new_pipe_address a ≢ new_pipe_address b
  unfolding new_pipe_address
  new_pipe_address-ne {a} {b} {n} h calls few e =
      let (same, count) = Calls-counter w h calls in
      let equal = narrow-eq a.m_counter b.m_counter h (omega (arith, count)) (
        to_string-eq (narrow a.m_counter) (narrow b.m_counter) (
          append-eq_back a.m_address (to_string (narrow a.m_counter))
            (to_string (narrow b.m_counter))
            (e ∙ ap (λ s. s ++ to_string (narrow b.m_counter)) same))) in
      absurd (omega (arith, equal, count))

narrow_small : (n : ℕ) → n < 2_147_483_648 → narrow n ≡ pos n
narrow_small n h = ground arith

long-digits :
    (n : ℕ) → 10 ≤ n → to_string (pos n) ≡ to_string (pos (n / 10)) ++ to_string (pos (n % 10))
unfolding to_string
long-digits n h =
    decimal_long n n h
    ∙ ap₂ ◌++◌ (decimal-fuel n (suc (n / 10)) (n / 10) (omega arith) (omega arith))
        (sym (decimal_short (n % 10) (n % 10) (omega arith)))

-- Two acceptors make pipes of the same name where the address of one is that of the other with the
-- front digits of its counter behind it, and its own counter stands at the last digit.
pub new_pipe_address-collide :
    (a b : NamedPipeAcceptor)
    → 10 ≤ a.m_counter
    → a.m_counter < 2_147_483_648
    → b.m_address ≡ a.m_address ++ to_string (pos (a.m_counter / 10))
    → b.m_counter ≡ a.m_counter % 10
    → new_pipe_address a ≡ new_pipe_address b
unfolding new_pipe_address
new_pipe_address-collide a b long small same last =
    ap (λ i. a.m_address ++ to_string i) (narrow_small a.m_counter small)
    ∙ ap (λ s. a.m_address ++ s) (long-digits a.m_counter long)
    ∙ sym (
        append_assoc a.m_address (to_string (pos (a.m_counter / 10)))
          (to_string (pos (a.m_counter % 10))))
    ∙ ap₂ ◌++◌ (sym same)
        (ap to_string (sym (narrow_small (a.m_counter % 10) (omega arith)) ∙ ap narrow (sym last)))
