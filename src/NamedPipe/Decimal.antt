-- ===== src/NamedPipe/Decimal.antt =====
-- Numbers written in decimal, as the names of src/win32/pipes.cpp end.
use libcppio.Prelude.{
  ℕ, zero, suc, ◌+◌, ◌-◌, ◌*◌, ◌/◌, ◌%◌, ◌^◌, ◌≤◌, ◌<◌, ◌≡◌, refl, sym, ap, subst, ◌∙◌, List, [],
  ◌∷◌, ◌++◌, arith, All, All-append,
}
use native.Mathlib.Decide.{dec_lt}
use libcppio.Prelude.Int.{ℤ, pos, negsuc, narrow}
use libcppio.NamedPipe.{decimal, to_string, msec_word}

-- The number that digits stand for, behind those that are read already.
abbrev read_digits : ℕ → List ℕ → ℕ
read_digits so_far [] = so_far
read_digits so_far (c ∷ cs) = read_digits (10 * so_far + (c - b'0')) cs

read_digits-append :
    (cs : List ℕ) (so_far c : ℕ)
    → read_digits so_far (cs ++ (c ∷ [])) ≡ 10 * read_digits so_far cs + (c - b'0')
read_digits-append [] so_far c = refl
read_digits-append (d ∷ cs) so_far c = read_digits-append cs (10 * so_far + (d - b'0')) c

pub decimal_short : (fuel n : ℕ) → n < 10 → decimal (suc fuel) n ≡ (b'0' + n) ∷ []
unfolding decimal
decimal_short fuel n h = ground arith

pub decimal_long :
    (fuel n : ℕ) → 10 ≤ n → decimal (suc fuel) n ≡ decimal fuel (n / 10) ++ ((b'0' + n % 10) ∷ [])
unfolding decimal
decimal_long fuel n h = ground arith

-- What is written is read back.
pub read_digits-decimal : (fuel n : ℕ) → n < fuel → read_digits 0 (decimal fuel n) ≡ n
read_digits-decimal zero n h = absurd (omega arith)
read_digits-decimal (suc fuel) n h = elim (dec_lt n 10) [
  | yes short ↦ ap (read_digits 0) (decimal_short fuel n short) ∙ omega arith
  | no long ↦
      ap (read_digits 0) (decimal_long fuel n (omega arith))
      ∙ read_digits-append (decimal fuel (n / 10)) 0 (b'0' + n % 10)
      ∙ omega (arith, read_digits-decimal fuel (n / 10) (omega arith))
]

-- Any fuel above the number gives the same digits.
pub decimal-fuel : (fuel more n : ℕ) → n < fuel → n < more → decimal fuel n ≡ decimal more n
decimal-fuel zero more n h k = absurd (omega arith)
decimal-fuel (suc fuel) zero n h k = absurd (omega arith)
decimal-fuel (suc fuel) (suc more) n h k = elim (dec_lt n 10) [
  | yes short ↦ decimal_short fuel n short ∙ sym (decimal_short more n short)
  | no long ↦
      decimal_long fuel n (omega arith)
      ∙ ap (λ ds. ds ++ ((b'0' + n % 10) ∷ []))
          (decimal-fuel fuel more (n / 10) (omega arith) (omega arith))
      ∙ sym (decimal_long more n (omega arith))
]

abbrev pub IsDigit : ℕ → Type 0
IsDigit c = b'0' ≤ c

pub decimal-AllDigit : (fuel n : ℕ) → All IsDigit (decimal fuel n)
unfolding decimal
decimal-AllDigit zero n = tt
decimal-AllDigit (suc fuel) n = elim (dec_lt n 10) [
  | yes short ↦ subst (All IsDigit) (sym (decimal_short fuel n short)) (omega arith, tt)
  | no long ↦ subst (All IsDigit) (sym (decimal_long fuel n (omega arith))) (
      All-append IsDigit ((b'0' + n % 10) ∷ []) (decimal fuel (n / 10))
        (decimal-AllDigit fuel (n / 10)) (omega arith, tt))
]

-- Two numbers are written differently.
decimal-eq : (a b : ℕ) → decimal (suc a) a ≡ decimal (suc b) b → a ≡ b
decimal-eq a b e =
    sym (read_digits-decimal (suc a) a (omega arith))
    ∙ ap (read_digits 0) e
    ∙ read_digits-decimal (suc b) b (omega arith)

minus-ne-decimal : (ds : List ℕ) (fuel n : ℕ) → b'-' ∷ ds ≡ decimal fuel n → ⊥
minus-ne-decimal ds fuel n e =
    absurd (omega (arith, (subst (All IsDigit) (sym e) (decimal-AllDigit fuel n)).0))

pub to_string-eq : (a b : ℤ) → to_string a ≡ to_string b → a ≡ b
unfolding to_string
to_string-eq (pos a) (pos b) e = ap pos (decimal-eq a b e)
to_string-eq (negsuc a) (negsuc b) e =
    ap negsuc (omega (arith, decimal-eq (suc a) (suc b) (ap tail e)))
  where
    tail : List ℕ → List ℕ
    tail [] = []
    tail (c ∷ cs) = cs
to_string-eq (negsuc a) (pos b) e =
    absurd (minus-ne-decimal (decimal (suc (suc a)) (suc a)) (suc b) b e)
to_string-eq (pos a) (negsuc b) e =
    absurd (minus-ne-decimal (decimal (suc (suc b)) (suc b)) (suc a) a (sym e))

-- The `int` of a word tells the word.
msec_word-narrow : (a : ℕ) → a < 2 ^ 32 → msec_word (narrow a) ≡ a
unfolding msec_word
msec_word-narrow a h = ground arith

pub narrow-eq : (a b : ℕ) → a < 2 ^ 32 → b < 2 ^ 32 → narrow a ≡ narrow b → a ≡ b
narrow-eq a b ha hb e = sym (msec_word-narrow a ha) ∙ ap msec_word e ∙ msec_word-narrow b hb
