-- ===== src/Manager.antt =====
-- IoLineManager of src/iolinemanager.cpp: it picks the factory for an address. The factories are
-- objects behind the interface IoLineFactory of include/cppio/ioline.h. Strings are lists of bytes.
pub mod Dispatch
mod Tests
use libcppio.Prelude.{
  ℕ, zero, suc, ◌+◌, Bool, true, false, ◌||◌, Option, none, some, List, [], ◌∷◌, ◌++◌, length, take,
  drop, leb, ◌==◌, if◌then◌else◌,
}

-- What a call that makes an object did: it returned the object or null, or it threw an IoException
-- or another exception.
pub data Created (A : Type 0) : Type 0 where
  object : A → Created A
  null : Created A
  io_exception : Created A
  other_exception : Created A

-- `IoLineFactory`, over the world in which it makes lines and acceptors.
pub record IoLineFactory (World Line Acceptor : Type 0) : Type 0 where
  pub supports_scheme : List ℕ → Bool
  pub create_client : List ℕ → World → Created Line × World
  pub create_server : List ℕ → World → Created Acceptor × World

-- `address.find_first_of("://")`: the first ':' or '/'.
abbrev pub in_delimiter : ℕ → Bool
in_delimiter c = c == b':' || c == b'/'

unfoldable pub find_first_of : List ℕ → Option ℕ
find_first_of [] = none
find_first_of (c ∷ cs) =
    let rest = find_first_of cs in
    if in_delimiter c then some 0 else elim rest [ none ↦ none | some i ↦ some (suc i) ]

-- `substr(pos)`, which throws `std::out_of_range` behind the end.
unfoldable pub substr_from : List ℕ → ℕ → Option (List ℕ)
substr_from s from = if leb from (length s) then some (drop from s) else none

-- The handler `catch(const IoException&)`.
abbrev pub caught : {A World : Type 0} → Created A × World → Created A × World
caught (object a, w) = (object a, w)
caught (null, w) = (null, w)
caught (io_exception, w) = (null, w)
caught (other_exception, w) = (other_exception, w)

-- The body of the `try` block.
unfoldable pub with_base :
    {A World : Type 0}
    → List ℕ
    → ℕ
    → (List ℕ → World → Created A × World)
    → World
    → Created A × World
with_base address delimiter create w = elim (substr_from address (delimiter + 3)) [
  | none ↦ (other_exception, w)
  | some base ↦ caught (create base w)
]

-- The loop over the factories, for either kind of object.
unfoldable pub dispatch :
    {A World Line Acceptor : Type 0}
    → (IoLineFactory World Line Acceptor → List ℕ → World → Created A × World)
    → List (IoLineFactory World Line Acceptor)
    → List ℕ
    → ℕ
    → World
    → Created A × World
dispatch create [] address delimiter w = (null, w)
dispatch create (f ∷ factories) address delimiter w =
    let here = with_base address delimiter (create f) w in
    let later = dispatch create factories address delimiter w in
    if f.supports_scheme (take delimiter address) then here else later

-- `IoLineManager::createClient` and `createServer`, with the registered factories.
unfoldable pub create_client :
    {World Line Acceptor : Type 0}
    → List (IoLineFactory World Line Acceptor)
    → List ℕ
    → World
    → Created Line × World
unfolding dispatch with_base find_first_of substr_from
create_client factories address w = elim (find_first_of address) [
  | none ↦ (null, w)
  | some delimiter ↦ dispatch (λ f. f.create_client) factories address delimiter w
]

unfoldable pub create_server :
    {World Line Acceptor : Type 0}
    → List (IoLineFactory World Line Acceptor)
    → List ℕ
    → World
    → Created Acceptor × World
unfolding dispatch with_base find_first_of substr_from
create_server factories address w = elim (find_first_of address) [
  | none ↦ (null, w)
  | some delimiter ↦ dispatch (λ f. f.create_server) factories address delimiter w
]

-- `IoLineManager::registerFactory`
unfoldable pub register_factory :
    {World Line Acceptor : Type 0}
    → List (IoLineFactory World Line Acceptor)
    → IoLineFactory World Line Acceptor
    → List (IoLineFactory World Line Acceptor)
register_factory factories f = factories ++ (f ∷ [])
