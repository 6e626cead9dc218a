-- ===== src/Inproc/Waiting.antt =====
-- The connect queue of src/common/inproc.cpp: which lines wait in it.
use libcppio.Prelude.{
  ℕ, ◌<◌, ◌≡◌, ◌≢◌, refl, sym, subst, Bool, true, false, Option, none, some, List, [], ◌∷◌, ◌++◌,
  get_elem?, All, if◌then◌else◌, arith,
}
use mathlib.Core.Option.{some-injective}
use libcppio.Inproc.{InprocLine, scan}
use libcppio.Inproc.Store.{address_equal}

-- The line is there and has no queues yet.
abbrev pub Waiting : List InprocLine → ℕ → Type 0
Waiting lines i =
    (line : InprocLine) × (get_elem? lines i ≡ some line) × (line.m_in ≡ none) × (line.m_out ≡ none)

unfoldable pub Distinct : List ℕ → Type 0
Distinct [] = Unit
Distinct (x ∷ xs) = All (λ y. x ≢ y) xs × Distinct xs

-- A list with one entry taken out.
pub data Picked (i : ℕ) : List ℕ → List ℕ → Type 0 where
  here : (is : List ℕ) → Picked i is (i ∷ is)
  there : {rest is : List ℕ} (j : ℕ) → Picked i rest is → Picked i (j ∷ rest) (j ∷ is)

pub All-Picked {ℓ} :
    (P : ℕ → Type ℓ) {i : ℕ} {rest is : List ℕ} → Picked i rest is → All P is → P i × All P rest
All-Picked P (here is) (p, ps) = (p, ps)
All-Picked P (there j pick) (p, ps) = let (q, qs) = All-Picked P pick ps in (q, (p, qs))

pub Distinct-Picked :
    {i : ℕ} {rest is : List ℕ}
    → Picked i rest is
    → Distinct is
    → All (λ j. i ≢ j) rest × Distinct rest
unfolding Distinct
Distinct-Picked (here is) (apart, distinct) = (apart, distinct)
Distinct-Picked (there j pick) (apart, distinct) =
    let (ne, others) = All-Picked (λ y. j ≢ y) pick apart in
    let (away, rest) = Distinct-Picked pick distinct in ((λ e. ne (sym e), away), (others, rest))

pub Distinct-added :
    (is : List ℕ) (n : ℕ) → All (λ i. i < n) is → Distinct is → Distinct (is ++ (n ∷ []))
unfolding Distinct
Distinct-added [] n small distinct = (tt, tt)
Distinct-added (i ∷ is) n (lt, small) (apart, distinct) =
    (apart_added is apart, Distinct-added is n small distinct)
  where
    apart_added : (js : List ℕ) → All (λ y. i ≢ y) js → All (λ y. i ≢ y) (js ++ (n ∷ []))
    apart_added [] _ = (λ e. absurd (omega arith), tt)
    apart_added (j ∷ js) (ne, nes) = (ne, apart_added js nes)

-- What the scan finds is a line of the store that is taken out of the queue.
pub scan-Picked :
    (lines : List InprocLine) (address : List ℕ) (is : List ℕ) (i : ℕ) (line : InprocLine)
    (rest : List ℕ)
    → scan lines address is ≡ some (i, line, rest)
    → Picked i rest is × (get_elem? lines i ≡ some line)
unfolding scan
scan-Picked lines address [] i line rest e = cc
scan-Picked lines address (j ∷ js) i line rest e =
    by_found (get_elem? lines j) refl (scan lines address js) (scan-Picked lines address js) e
  where
    Found : Type 0
    Found = ℕ × InprocLine × List ℕ

    Result : ℕ → InprocLine → List ℕ → List ℕ → Type 0
    Result i line rest is = Picked i rest is × (get_elem? lines i ≡ some line)

    shifted : Option Found → Option Found
    shifted deeper = elim deeper [ none ↦ none | some (k, l, r) ↦ some (k, l, j ∷ r) ]

    by_deeper :
        (deeper : Option Found)
        → ((k : ℕ) (l : InprocLine) (r : List ℕ) → deeper ≡ some (k, l, r) → Result k l r js)
        → shifted deeper ≡ some (i, line, rest)
        → Result i line rest (j ∷ js)
    by_deeper none below h = cc
    by_deeper (some (k, l, r)) below h =
        let (pick, there_it_is) = below k l r refl in
        let same : ◌≡◌ {A = Found} (k, l, j ∷ r) (i, line, rest) = some-injective _ _ h in
        subst (λ (f : Found). Result f.0 f.1 f.2 (j ∷ js)) same (there j pick, there_it_is)

    by_test :
        (l : InprocLine) (t : Bool) (deeper : Option Found)
        → ((k : ℕ) (l : InprocLine) (r : List ℕ) → deeper ≡ some (k, l, r) → Result k l r js)
        → get_elem? lines j ≡ some l
        → (if t then some (j, l, js) else shifted deeper) ≡ some (i, line, rest)
        → Result i line rest (j ∷ js)
    by_test l true deeper below there_it_is h =
        let same : ◌≡◌ {A = Found} (j, l, js) (i, line, rest) = some-injective _ _ h in
        subst (λ (f : Found). Result f.0 f.1 f.2 (j ∷ js)) same (here js, there_it_is)
    by_test l false deeper below there_it_is h = by_deeper deeper below h

    by_found :
        (found : Option InprocLine)
        → get_elem? lines j ≡ found
        → (deeper : Option Found)
        → ((k : ℕ) (l : InprocLine) (r : List ℕ) → deeper ≡ some (k, l, r) → Result k l r js)
        → (elim found [
          | none ↦ none
          | some l ↦ if address_equal l.m_address address then some (j, l, js) else shifted deeper
        ])
          ≡ some (i, line, rest)
        → Result i line rest (j ∷ js)
    by_found none _ deeper below h = cc
    by_found (some l) there_it_is deeper below h =
        by_test l (address_equal l.m_address address) deeper below there_it_is h
