-- ===== src/Prelude/Lists.antt =====
-- Lists measured and indexed by native numbers, under the library's names.
use Prim.Native.Nat.{ℕ, zero, suc, ◌+◌, ◌-◌, ◌≤◌, min}
use mathlib.Core.Path.{◌≡◌, refl, sym, ap, ◌∙◌}
use mathlib.Core.List.{List, [], ◌∷◌, ◌++◌, append-nil}
use mathlib.Core.Option.{Option, none, some}
use native.Mathlib.Omega.{arith}
use native.Mathlib.Decide.{dec_le}

module _ {ℓ} {A : Type ℓ} where
  abbrev pub length : List A → ℕ
  length [] = 0
  length (x ∷ xs) = suc (length xs)

  abbrev pub get_elem? : List A → ℕ → Option A
  get_elem? [] i = none
  get_elem? (x ∷ xs) zero = some x
  get_elem? (x ∷ xs) (suc i) = get_elem? xs i

  abbrev pub take : ℕ → List A → List A
  take zero xs = []
  take (suc n) [] = []
  take (suc n) (x ∷ xs) = x ∷ take n xs

  abbrev pub drop : ℕ → List A → List A
  drop zero xs = xs
  drop (suc n) [] = []
  drop (suc n) (x ∷ xs) = drop n xs

  pub length-append : (xs ys : List A) → length (xs ++ ys) ≡ length xs + length ys
  length-append [] ys = omega arith
  length-append (x ∷ xs) ys = omega (arith, length-append xs ys)

  pub length-take : (n : ℕ) (xs : List A) → length (take n xs) ≡ min n (length xs)
  length-take zero xs = omega arith
  length-take (suc n) [] = omega arith
  length-take (suc n) (x ∷ xs) = omega (arith, length-take n xs)

  pub length-drop : (n : ℕ) (xs : List A) → length (drop n xs) ≡ length xs - n
  length-drop zero xs = omega arith
  length-drop (suc n) [] = omega arith
  length-drop (suc n) (x ∷ xs) = omega (arith, length-drop n xs)

  pub take-append-drop : (n : ℕ) (xs : List A) → take n xs ++ drop n xs ≡ xs
  take-append-drop zero xs = refl
  take-append-drop (suc n) [] = refl
  take-append-drop (suc n) (x ∷ xs) = ap (◌∷◌ x) (take-append-drop n xs)

  pub drop-nil : (n : ℕ) → drop n [] ≡ []
  drop-nil zero = refl
  drop-nil (suc n) = refl

  pub take-nil : (n : ℕ) → take n [] ≡ []
  take-nil zero = refl
  take-nil (suc n) = refl

  -- A prefix of the exact length is split off.
  pub take-append : (xs ys : List A) {n : ℕ} → n ≡ length xs → take n (xs ++ ys) ≡ xs
  take-append [] ys {n = zero} e = refl
  take-append [] ys {n = suc n} e = absurd (omega arith)
  take-append (x ∷ xs) ys {n = zero} e = absurd (omega arith)
  take-append (x ∷ xs) ys {n = suc n} e = ap (◌∷◌ x) (take-append xs ys (omega arith))

  pub drop-append : (xs ys : List A) {n : ℕ} → n ≡ length xs → drop n (xs ++ ys) ≡ ys
  drop-append [] ys {n = zero} e = refl
  drop-append [] ys {n = suc n} e = absurd (omega arith)
  drop-append (x ∷ xs) ys {n = zero} e = absurd (omega arith)
  drop-append (x ∷ xs) ys {n = suc n} e = drop-append xs ys (omega arith)

  pub drop-drop : (n m : ℕ) (xs : List A) → drop n (drop m xs) ≡ drop (m + n) xs
  drop-drop n zero xs = ap (λ k. drop k xs) (omega arith)
  drop-drop n (suc m) [] = drop-nil n ∙ sym (drop-nil (suc m + n))
  drop-drop n (suc m) (x ∷ xs) =
      let e : suc m + n ≡ suc (m + n) = omega arith in rw e (drop-drop n m xs)

  pub take_all : (xs : List A) {n : ℕ} → length xs ≤ n → take n xs ≡ xs
  take_all [] {n} h = take-nil n
  take_all (x ∷ xs) {n = zero} h = absurd (omega arith)
  take_all (x ∷ xs) {n = suc n} h = ap (◌∷◌ x) (take_all xs (omega arith))

  pub drop_all : (xs : List A) {n : ℕ} → length xs ≤ n → drop n xs ≡ []
  drop_all [] {n} h = drop-nil n
  drop_all (x ∷ xs) {n = zero} h = absurd (omega arith)
  drop_all (x ∷ xs) {n = suc n} h = drop_all xs (omega arith)

module _ {ℓ} {A : Type ℓ} where
  pub take-take : (n m : ℕ) (xs : List A) → take n (take m xs) ≡ take (min n m) xs
  take-take zero m xs = ap (λ k. take k xs) {x = 0} {y = min 0 m} (omega arith)
  take-take (suc n) zero xs = ap (λ k. take k xs) {x = 0} {y = min (suc n) 0} (omega arith)
  take-take (suc n) (suc m) [] = sym (take-nil (min (suc n) (suc m)))
  take-take (suc n) (suc m) (x ∷ xs) =
      let e : min (suc n) (suc m) ≡ suc (min n m) = omega arith in
      rw e (ap (◌∷◌ x) (take-take n m xs))

  pub drop-take : (n m : ℕ) (xs : List A) → drop n (take m xs) ≡ take (m - n) (drop n xs)
  drop-take zero m xs = ap (λ k. take k xs) {x = m} {y = m - 0} (omega arith)
  drop-take (suc n) zero xs = let e : 0 - suc n ≡ 0 = omega arith in rw e
  drop-take (suc n) (suc m) [] = sym (take-nil (suc m - suc n))
  drop-take (suc n) (suc m) (x ∷ xs) =
      let e : suc m - suc n ≡ m - n = omega arith in rw e (drop-take n m xs)

  pub take_add : (n m : ℕ) (xs : List A) → take (n + m) xs ≡ take n xs ++ take m (drop n xs)
  take_add zero m xs = ap (λ k. take k xs) {x = 0 + m} {y = m} (omega arith)
  take_add (suc n) m [] = take-nil (suc n + m) ∙ sym (take-nil m)
  take_add (suc n) m (x ∷ xs) =
      let e : suc n + m ≡ suc (n + m) = omega arith in rw e (ap (◌∷◌ x) (take_add n m xs))

  -- `take` and `drop` over two parts.
  pub take-append_parts :
      (n : ℕ) (xs ys : List A) → take n (xs ++ ys) ≡ take n xs ++ take (n - length xs) ys
  take-append_parts zero xs ys = let e : 0 - length xs ≡ 0 = omega arith in rw e
  take-append_parts (suc n) [] ys = let e : suc n - 0 ≡ suc n = omega arith in rw e
  take-append_parts (suc n) (x ∷ xs) ys =
      let e : suc n - suc (length xs) ≡ n - length xs = omega arith in
      rw e (ap (◌∷◌ x) (take-append_parts n xs ys))

  pub take-append_short : (n : ℕ) (xs ys : List A) → n ≤ length xs → take n (xs ++ ys) ≡ take n xs
  take-append_short n xs ys h =
      let e : n - length xs ≡ 0 = omega arith in
      take-append_parts n xs ys ∙ rw e (append-nil (take n xs))

  pub drop-append_parts :
      (n : ℕ) (xs ys : List A) → drop n (xs ++ ys) ≡ drop n xs ++ drop (n - length xs) ys
  drop-append_parts zero xs ys = let e : 0 - length xs ≡ 0 = omega arith in rw e
  drop-append_parts (suc n) [] ys = let e : suc n - 0 ≡ suc n = omega arith in rw e
  drop-append_parts (suc n) (x ∷ xs) ys =
      let e : suc n - suc (length xs) ≡ n - length xs = omega arith in
      rw e (drop-append_parts n xs ys)

  -- Taking `n` of the first `m`: what is taken, and what is left of the `m`.
  pub take-min : (m n : ℕ) (xs : List A) → take (min m n) xs ≡ take n (take m xs)
  take-min m n xs =
      ap (λ k. take k xs) {x = min m n} {y = min n m} (omega arith) ∙ sym (take-take n m xs)

  pub drop-min :
      (m n : ℕ) (xs : List A) → take (m - min m n) (drop (min m n) xs) ≡ drop n (take m xs)
  drop-min m n xs = sym (drop-take (min m n) m xs) ∙ past
    where
      past : drop (min m n) (take m xs) ≡ drop n (take m xs)
      past = elim (dec_le n m) [
        | yes h ↦ ap (λ k. drop k (take m xs)) {x = min m n} {y = n} (omega arith)
        | no h ↦
            drop_all (take m xs) {n = min m n} (omega (arith, length-take m xs))
            ∙ sym (drop_all (take m xs) {n = n} (omega (arith, length-take m xs)))
      ]

  pub take-min-length : (m : ℕ) (xs : List A) → take (min m (length xs)) xs ≡ take m xs
  take-min-length m xs =
      take-min m (length xs) xs ∙ take_all (take m xs) (omega (arith, length-take m xs))

  abbrev pub replicate : ℕ → A → List A
  replicate zero a = []
  replicate (suc n) a = a ∷ replicate n a

  pub length-replicate : (n : ℕ) (a : A) → length (replicate n a) ≡ n
  length-replicate zero a = refl
  length-replicate (suc n) a = ap suc (length-replicate n a)

  -- Two ways to cut one list, the second cut at or before the first.
  pub append-split :
      (us xs vs ys : List A)
      → xs ++ ys ≡ us ++ vs
      → length us ≤ length xs
      → (xs ≡ us ++ drop (length us) xs) × (vs ≡ drop (length us) xs ++ ys)
  append-split us xs vs ys e h = (
    sym (take-append-drop (length us) xs) ∙ ap (λ t. t ++ drop (length us) xs) front,
    sym (drop-append us vs {n = length us} refl)
        ∙ ap (drop (length us)) (sym e)
        ∙ drop-append_parts (length us) xs ys
        ∙ ap (λ k. drop (length us) xs ++ drop k ys) {x = length us - length xs} {y = 0}
            (omega arith),
  )
    where
      front : take (length us) xs ≡ us
      front =
          sym (
            take-append_parts (length us) xs ys
            ∙ ap (λ k. take (length us) xs ++ take k ys) {x = length us - length xs} {y = 0}
                (omega arith)
            ∙ append-nil (take (length us) xs))
          ∙ ap (take (length us)) e
          ∙ take-append us vs {n = length us} refl

-- A predicate by recursion computes to tuples, which the tactics read and build.
abbrev pub All {ℓ κ} : {A : Type ℓ} → (A → Type κ) → List A → Type κ
All P [] = Unit
All P (x ∷ xs) = P x × All P xs

module _ {ℓ κ} {A : Type ℓ} (P : A → Type κ) where
  pub All-append : (back front : List A) → All P front → All P back → All P (front ++ back)
  All-append back [] _ h = h
  All-append back (x ∷ front) (here, there) h = (here, All-append back front there h)

  pub All-drop : (n : ℕ) (xs : List A) → All P xs → All P (drop n xs)
  All-drop zero xs h = h
  All-drop (suc n) [] h = h
  All-drop (suc n) (x ∷ xs) h = All-drop n xs h.1

  pub All-take : (n : ℕ) (xs : List A) → All P xs → All P (take n xs)
  All-take zero xs h = tt
  All-take (suc n) [] h = h
  All-take (suc n) (x ∷ xs) h = (h.0, All-take n xs h.1)
