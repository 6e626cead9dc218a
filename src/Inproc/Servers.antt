-- ===== src/Inproc/Servers.antt =====
-- The acceptors of src/common/inproc.cpp: InprocLineFactory::createServer and ~InprocAcceptor.
use libcppio.Prelude.{
  ℕ, ◌≡◌, ◌≢◌, refl, sym, ap, ◌∙◌, All, All-append, Bool, true, false, List, [], ◌∷◌, ◌++◌, ◌==◌,
  if◌then◌else◌, arith,
}
use mathlib.Core.Bool.{false≢true}
use libcppio.Inproc.{InprocAcceptor, Hub, is_taken, create_server, erase_acceptor}
use libcppio.Inproc.Store.{address_equal, address_equal_refl}

-- No two acceptors have the same address.
unfoldable pub Separate : List InprocAcceptor → Type 0
Separate [] = Unit
Separate (a ∷ acceptors) = All (λ b. b.m_address ≢ a.m_address) acceptors × Separate acceptors

differs : (cs ds : List ℕ) → address_equal cs ds ≡ false → cs ≢ ds
differs cs ds e p =
    absurd (false≢true (sym e ∙ ap (address_equal cs) (sym p) ∙ address_equal_refl cs))

-- An address that is not taken is that of no acceptor.
not_taken :
    (acceptors : List InprocAcceptor) (address : List ℕ)
    → is_taken acceptors address ≡ false
    → All (λ b. b.m_address ≢ address) acceptors
unfolding is_taken
not_taken [] address free = tt
not_taken (a ∷ acceptors) address free =
    let both : (address_equal a.m_address address ≡ false) × (is_taken acceptors address ≡ false) =
      ground arith in
    (differs a.m_address address both.0, not_taken acceptors address both.1)

Separate-added :
    (acceptors : List InprocAcceptor) (a : InprocAcceptor)
    → All (λ b. b.m_address ≢ a.m_address) acceptors
    → Separate acceptors
    → Separate (acceptors ++ (a ∷ []))
unfolding Separate
Separate-added [] a free apart = (tt, tt)
Separate-added (x ∷ xs) a (x_free, free) (others, apart) = (
  All-append (λ b. b.m_address ≢ x.m_address) (a ∷ []) xs others ((λ e. x_free (sym e)), tt),
  Separate-added xs a free apart,
)

All-erase :
    (P : InprocAcceptor → Type 0) (this : ℕ) (acceptors : List InprocAcceptor)
    → All P acceptors
    → All P (erase_acceptor this acceptors)
unfolding erase_acceptor
All-erase P this [] all = tt
All-erase P this (x ∷ xs) (here, there) = by_test (x.this == this) (All-erase P this xs there)
  where
    by_test :
        (t : Bool)
        → All P (erase_acceptor this xs)
        → All P (if t then xs else x ∷ erase_acceptor this xs)
    by_test true _ = there
    by_test false rest = (here, rest)

pub Separate-erase :
    (this : ℕ) (acceptors : List InprocAcceptor)
    → Separate acceptors
    → Separate (erase_acceptor this acceptors)
unfolding Separate erase_acceptor
Separate-erase this [] apart = tt
Separate-erase this (x ∷ xs) (others, apart) =
    by_test (x.this == this) (Separate-erase this xs apart)
  where
    by_test :
        (t : Bool)
        → Separate (erase_acceptor this xs)
        → Separate (if t then xs else x ∷ erase_acceptor this xs)
    by_test true _ = apart
    by_test false rest = (All-erase (λ b. b.m_address ≢ x.m_address) this xs others, rest)

pub create_server-Separate :
    (h : Hub) (address : List ℕ)
    → Separate h.acceptors
    → Separate (create_server h address).1.acceptors
unfolding create_server
create_server-Separate h address apart = by_test (is_taken h.acceptors address) refl
  where
    by_test :
        (t : Bool)
        → is_taken h.acceptors address ≡ t
        → Separate (create_server h address).1.acceptors
    by_test true e = rw e apart
    by_test false e = rw e (
        Separate-added h.acceptors (record { this = h.next_acceptor; m_address = address })
          (not_taken h.acceptors address e) apart)
