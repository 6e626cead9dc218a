-- ===== src/Inproc/Wiring.antt =====
-- Which lines of src/common/inproc.cpp hold a queue, at one of their ends.
use libcppio.Prelude.{
  ℕ, zero, suc, ◌≤◌, ◌<◌, ◌≡◌, ◌≢◌, ◌⊎◌, inl, inr, refl, sym, ap, ◌∙◌, Option, none, some, List, [],
  ◌∷◌, ◌++◌, length, get_elem?, arith,
}
use mathlib.Core.Option.{some-injective}
use libcppio.Inproc.{InprocLine}
use libcppio.Inproc.Store.{replace_at, length-replace_at}

module _ {ℓ} {A : Type ℓ} where
  -- What stands at a position of a store to which an object was added.
  pub get_elem?-added :
      (xs : List A) (x y : A) (j : ℕ)
      → get_elem? (xs ++ (x ∷ [])) j ≡ some y
      → ((j ≡ length xs) × (y ≡ x)) ⊎ (get_elem? xs j ≡ some y)
  get_elem?-added [] x y zero e = inl (refl, cc)
  get_elem?-added [] x y (suc j) e = absurd (grind arith)
  get_elem?-added (z ∷ xs) x y zero e = inr e
  get_elem?-added (z ∷ xs) x y (suc j) e = elim (get_elem?-added xs x y j e) [
    | inl last ↦ inl (ap suc last.0, last.1)
    | inr there ↦ inr there
  ]

  -- What stands at a position of a store in which one was replaced.
  pub get_elem?-replaced :
      (i : ℕ) (a : A) (xs : List A) (y : A) (j : ℕ)
      → get_elem? (replace_at i a xs) j ≡ some y
      → ((j ≡ i) × (y ≡ a)) ⊎ ((get_elem? xs j ≡ some y) × (i ≢ j))
  unfolding replace_at
  get_elem?-replaced i a [] y j e = absurd (grind arith)
  get_elem?-replaced zero a (x ∷ xs) y zero e = inl (refl, cc)
  get_elem?-replaced zero a (x ∷ xs) y (suc j) e = inr (e, λ p. absurd (omega arith))
  get_elem?-replaced (suc i) a (x ∷ xs) y zero e = inr (e, λ p. absurd (omega arith))
  get_elem?-replaced (suc i) a (x ∷ xs) y (suc j) e = elim (get_elem?-replaced i a xs y j e) [
    | inl here ↦ inl (ap suc here.0, here.1)
    | inr there ↦ inr (there.0, λ p. there.1 (omega arith))
  ]

-- The pointers at one end, below the number of queues and no two the same.
pub record OneEnd (side : InprocLine → Option ℕ) (n : ℕ) (lines : List InprocLine) : Type 0 where
  pub range :
      (j q : ℕ) (line : InprocLine) → get_elem? lines j ≡ some line → side line ≡ some q → q < n
  pub only :
      (i j q : ℕ) (line other : InprocLine)
      → get_elem? lines i ≡ some line
      → get_elem? lines j ≡ some other
      → side line ≡ some q
      → side other ≡ some q
      → i ≡ j

module _ (side : InprocLine → Option ℕ) (n : ℕ) (lines : List InprocLine)
    (wired : OneEnd side n lines) where
  -- A line without a queue at that end is added.
  pub OneEnd-added :
      (fresh : InprocLine) → side fresh ≡ none → OneEnd side n (lines ++ (fresh ∷ []))
  OneEnd-added fresh e = record {
    range = λ j q line there p. wired.range j q line (old j q line there p) p;
    only = λ i j q line other there there' p p'.
        wired.only i j q line other (old i q line there p) (old j q other there' p') p p';
  }
    where
      old :
          (j q : ℕ) (line : InprocLine)
          → get_elem? (lines ++ (fresh ∷ [])) j ≡ some line
          → side line ≡ some q
          → get_elem? lines j ≡ some line
      old j q line there p = elim (get_elem?-added lines fresh line j there) [
        | inl last ↦ cc (ap side last.1)
        | inr there ↦ there
      ]

  -- Two queues come in: one line gets the one and a new line the other.
  module _ (i a b : ℕ) (here added : InprocLine) (ea : side here ≡ some a)
      (eb : side added ≡ some b) (new_a : n ≤ a) (new_b : n ≤ b) (apart : a ≢ b) where
    abbrev joined_lines : List InprocLine
    joined_lines = replace_at i here lines ++ (added ∷ [])

    data Place (j q : ℕ) (line : InprocLine) : Type 0 where
      at_added : j ≡ length lines → q ≡ b → Place j q line
      at_here : j ≡ i → q ≡ a → Place j q line
      before : get_elem? lines j ≡ some line → q < n → Place j q line

    place :
        (j q : ℕ) (line : InprocLine)
        → get_elem? joined_lines j ≡ some line
        → side line ≡ some q
        → Place j q line
    place j q line there p = elim (get_elem?-added (replace_at i here lines) added line j there) [
      | inl last ↦
          at_added (last.0 ∙ length-replace_at i here lines)
            (some-injective _ _ (sym p ∙ ap side last.1 ∙ eb))
      | inr within ↦ elim (get_elem?-replaced i here lines line j within) [
        | inl same ↦ at_here same.0 (some-injective _ _ (sym p ∙ ap side same.1 ∙ ea))
        | inr old ↦ before old.0 (wired.range j q line old.0 p)
      ]
    ]

    same-Place :
        (j k q : ℕ) (line other : InprocLine)
        → Place j q line
        → Place k q other
        → side line ≡ some q
        → side other ≡ some q
        → j ≡ k
    same-Place j k q line other (before e lt) (before e' lt') p p' =
        wired.only j k q line other e e' p p'
    same-Place j k q line other (at_added e r) (at_added e' r') p p' = omega arith
    same-Place j k q line other (at_here e r) (at_here e' r') p p' = omega arith
    same-Place j k q line other (at_added e r) (at_here e' r') p p' = absurd (apart (omega arith))
    same-Place j k q line other (at_here e r) (at_added e' r') p p' = absurd (apart (omega arith))
    same-Place j k q line other (before e lt) (at_here e' r') p p' = absurd (omega arith)
    same-Place j k q line other (before e lt) (at_added e' r') p p' = absurd (omega arith)
    same-Place j k q line other (at_here e r) (before e' lt') p p' = absurd (omega arith)
    same-Place j k q line other (at_added e r) (before e' lt') p p' = absurd (omega arith)

    below : (m j q : ℕ) (line : InprocLine) → a < m → b < m → n ≤ m → Place j q line → q < m
    below m j q line la lb ln (at_added e r) = omega arith
    below m j q line la lb ln (at_here e r) = omega arith
    below m j q line la lb ln (before e lt) = omega arith

    pub OneEnd-joined : (m : ℕ) → a < m → b < m → n ≤ m → OneEnd side m joined_lines
    OneEnd-joined m la lb ln = record {
      range = λ j q line there p. below m j q line la lb ln (place j q line there p);
      only = λ j k q line other there there' p p'.
          same-Place j k q line other (place j q line there p) (place k q other there' p') p p';
    }
