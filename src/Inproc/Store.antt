-- ===== src/Inproc/Store.antt =====
-- Addresses compared and objects replaced in a store, for src/common/inproc.cpp.
use libcppio.Prelude.{
  ℕ, zero, suc, ◌+◌, ◌<◌, ◌≡◌, ◌≢◌, refl, ap, Bool, true, false, some, List, [], ◌∷◌, ◌++◌, length,
  get_elem?, ◌==◌, if◌then◌else◌, arith,
}

-- `==` of strings.
unfoldable pub address_equal : List ℕ → List ℕ → Bool
address_equal [] [] = true
address_equal [] (d ∷ ds) = false
address_equal (c ∷ cs) [] = false
address_equal (c ∷ cs) (d ∷ ds) = let rest = address_equal cs ds in if c == d then rest else false

pub address_equal_refl : (cs : List ℕ) → address_equal cs cs ≡ true
unfolding address_equal
address_equal_refl [] = refl
address_equal_refl (c ∷ cs) =
    let e : (c == c) ≡ true = ground arith in rw (e, address_equal_refl cs)

pub address_equal_sym : (cs ds : List ℕ) → address_equal cs ds ≡ address_equal ds cs
unfolding address_equal
address_equal_sym [] [] = refl
address_equal_sym [] (d ∷ ds) = refl
address_equal_sym (c ∷ cs) [] = refl
address_equal_sym (c ∷ cs) (d ∷ ds) = ground (arith, address_equal_sym cs ds)

module _ {ℓ} {A : Type ℓ} where
  -- An assignment through a pointer; a position outside the store does not occur.
  unfoldable pub replace_at : ℕ → A → List A → List A
  replace_at i a [] = []
  replace_at zero a (x ∷ xs) = a ∷ xs
  replace_at (suc i) a (x ∷ xs) = x ∷ replace_at i a xs

  pub length-replace_at : (i : ℕ) (a : A) (xs : List A) → length (replace_at i a xs) ≡ length xs
  unfolding replace_at
  length-replace_at i a [] = refl
  length-replace_at zero a (x ∷ xs) = refl
  length-replace_at (suc i) a (x ∷ xs) = ap suc (length-replace_at i a xs)

  pub get_elem?-replace_at :
      (i : ℕ) (a : A) (xs : List A) → i < length xs → get_elem? (replace_at i a xs) i ≡ some a
  unfolding replace_at
  get_elem?-replace_at i a [] h = absurd (omega arith)
  get_elem?-replace_at zero a (x ∷ xs) h = refl
  get_elem?-replace_at (suc i) a (x ∷ xs) h = get_elem?-replace_at i a xs (omega arith)

  pub get_elem?-other :
      (i j : ℕ) (a : A) (xs : List A) → i ≢ j → get_elem? (replace_at i a xs) j ≡ get_elem? xs j
  unfolding replace_at
  get_elem?-other i j a [] ne = refl
  get_elem?-other zero zero a (x ∷ xs) ne = absurd (ne refl)
  get_elem?-other zero (suc j) a (x ∷ xs) ne = refl
  get_elem?-other (suc i) zero a (x ∷ xs) ne = refl
  get_elem?-other (suc i) (suc j) a (x ∷ xs) ne = get_elem?-other i j a xs (λ e. ne (ap suc e))

  pub get_elem?-front :
      (i : ℕ) (xs ys : List A) → i < length xs → get_elem? (xs ++ ys) i ≡ get_elem? xs i
  get_elem?-front i [] ys h = absurd (omega arith)
  get_elem?-front zero (x ∷ xs) ys h = refl
  get_elem?-front (suc i) (x ∷ xs) ys h = get_elem?-front i xs ys (omega arith)

  pub get_elem?-behind :
      (xs ys : List A) (n k : ℕ) → n ≡ length xs + k → get_elem? (xs ++ ys) n ≡ get_elem? ys k
  get_elem?-behind [] ys n k e = ap (get_elem? ys) {x = n} {y = k} (omega arith)
  get_elem?-behind (x ∷ xs) ys zero k e = absurd (omega arith)
  get_elem?-behind (x ∷ xs) ys (suc n) k e = get_elem?-behind xs ys n k (omega arith)

  pub get_elem?-bound : (i : ℕ) (xs : List A) (a : A) → get_elem? xs i ≡ some a → i < length xs
  get_elem?-bound i [] a e = absurd (grind arith)
  get_elem?-bound zero (x ∷ xs) a e = omega arith
  get_elem?-bound (suc i) (x ∷ xs) a e = let h = get_elem?-bound i xs a e in omega arith
