-- ===== src/Lockfree/Held.antt =====
-- What the ring of src/common/inproc.cpp holds, when a pointer moves or bytes are stored where none
-- are held.
use libcppio.Prelude.{
  ℕ, ◌+◌, ◌-◌, ◌≤◌, ◌<◌, ◌≡◌, refl, sym, ap, ap₂, ◌∙◌, List, [], ◌++◌, length, take, drop, leb,
  ◌==◌, if◌then◌else◌, arith, length-take, length-drop, take_add, take-append, take_all,
  drop-append, drop-drop, take-append-drop, append-nil, append_assoc,
}
use native.Mathlib.Decide.{dec_le}
use libcppio.Memory.Access.{patch, drop-patch_behind, drop-patch_before, length-patch}
use libcppio.Ring.Queue.{held}

-- A pointer that moves on by `k` places, round the end.
abbrev pub advance : ℕ → ℕ → ℕ → ℕ
advance size ptr k = if ptr + k == size then 0 else ptr + k

-- The `k` bytes from the read pointer on are held in one piece.
abbrev pub Claimed : ℕ → ℕ → ℕ → ℕ → Type 0
Claimed size rd wr k = rd + k ≤ (if leb rd wr then wr else size)

-- The `k` places from the write pointer on are free in one piece, and one more place is free.
abbrev pub Reserved : ℕ → ℕ → ℕ → ℕ → Type 0
Reserved size rd wr k = wr + k < (if leb rd wr then (if rd == 0 then size else size + 1) else rd)

module _ (storage : List ℕ) (rd wr k : ℕ) (reads : rd < length storage)
    (writes : wr < length storage) where
  upward : rd ≤ wr → held storage rd wr ≡ take (wr - rd) (drop rd storage)
  upward h = ground arith

  round : wr < rd → held storage rd wr ≡ drop rd storage ++ take wr storage
  round h = ground arith

  -- What is held begins with the bytes claimed, and the others are held from behind them.
  pub held_pop :
      Claimed (length storage) rd wr k
      → held storage rd wr
        ≡ take k (drop rd storage) ++ held storage (advance (length storage) rd k) wr
  held_pop claim = elim (dec_le rd wr) [
    | yes h ↦ pop_upward h (ground arith) (ground arith)
    | no h ↦ elim (dec_le (length storage) (rd + k)) [
      | yes end ↦ pop_to_end (omega arith) (ground arith)
      | no inside ↦ pop_round (omega arith) (omega arith)
    ]
  ]
    where
      pop_upward :
          rd ≤ wr
          → rd + k ≤ wr
          → rd + k < length storage
          → held storage rd wr
            ≡ take k (drop rd storage) ++ held storage (advance (length storage) rd k) wr
      pop_upward h inside small =
          upward h
          ∙ ap (λ j. take j (drop rd storage)) {x = wr - rd} {y = k + (wr - (rd + k))} (omega arith)
          ∙ take_add k (wr - (rd + k)) (drop rd storage)
          ∙ ap (λ t. take k (drop rd storage) ++ take (wr - (rd + k)) t) (drop-drop k rd storage)
          ∙ ap (λ t. take k (drop rd storage) ++ t) (sym later)
        where
          later :
              held storage (advance (length storage) rd k) wr
              ≡ take (wr - (rd + k)) (drop (rd + k) storage)
          later = ground arith

      pop_round :
          wr < rd
          → rd + k < length storage
          → held storage rd wr
            ≡ take k (drop rd storage) ++ held storage (advance (length storage) rd k) wr
      pop_round h small =
          round h
          ∙ ap (λ t. t ++ take wr storage) (sym (take-append-drop k (drop rd storage)))
          ∙ append_assoc (take k (drop rd storage)) (drop k (drop rd storage)) (take wr storage)
          ∙ ap (λ t. take k (drop rd storage) ++ (t ++ take wr storage)) (drop-drop k rd storage)
          ∙ ap (λ t. take k (drop rd storage) ++ t) (sym later)
        where
          later :
              held storage (advance (length storage) rd k) wr
              ≡ drop (rd + k) storage ++ take wr storage
          later = ground arith

      pop_to_end :
          wr < rd
          → rd + k ≡ length storage
          → held storage rd wr
            ≡ take k (drop rd storage) ++ held storage (advance (length storage) rd k) wr
      pop_to_end h end =
          round h
          ∙ ap (λ t. t ++ take wr storage)
              (sym (take_all (drop rd storage) {n = k} (omega (arith, length-drop rd storage))))
          ∙ ap (λ t. take k (drop rd storage) ++ t) (sym later)
        where
          later : held storage (advance (length storage) rd k) wr ≡ take wr storage
          later = ground arith

  -- Behind what is held stand the places reserved.
  pub held_push :
      Reserved (length storage) rd wr k
      → held storage rd (advance (length storage) wr k)
        ≡ held storage rd wr ++ take k (drop wr storage)
  held_push room = elim (dec_le rd wr) [
    | yes h ↦ elim (dec_le (length storage) (wr + k)) [
      | yes end ↦ push_to_end h (ground arith) (ground arith)
      | no inside ↦ push_upward h (omega arith)
    ]
    | no h ↦ push_round (omega arith) (ground arith)
  ]
    where
      push_upward :
          rd ≤ wr
          → wr + k < length storage
          → held storage rd (advance (length storage) wr k)
            ≡ held storage rd wr ++ take k (drop wr storage)
      push_upward h inside =
          later
          ∙ ap (λ j. take j (drop rd storage)) {x = wr + k - rd} {y = (wr - rd) + k} (omega arith)
          ∙ take_add (wr - rd) k (drop rd storage)
          ∙ ap (λ t. take (wr - rd) (drop rd storage) ++ take k t) behind
          ∙ ap (λ t. t ++ take k (drop wr storage)) (sym (upward h))
        where
          later :
              held storage rd (advance (length storage) wr k) ≡ take (wr + k - rd) (drop rd storage)
          later = ground arith

          behind : drop (wr - rd) (drop rd storage) ≡ drop wr storage
          behind =
              drop-drop (wr - rd) rd storage
              ∙ ap (λ j. drop j storage) {x = rd + (wr - rd)} {y = wr} (omega arith)

      push_to_end :
          rd ≤ wr
          → wr + k ≡ length storage
          → 0 < rd
          → held storage rd (advance (length storage) wr k)
            ≡ held storage rd wr ++ take k (drop wr storage)
      push_to_end h end pos =
          later
          ∙ append-nil (drop rd storage)
          ∙ sym (take-append-drop (wr - rd) (drop rd storage))
          ∙ ap₂ ◌++◌ (sym (upward h)) (
              behind
              ∙ sym (take_all (drop wr storage) {n = k} (omega (arith, length-drop wr storage))))
        where
          later : held storage rd (advance (length storage) wr k) ≡ drop rd storage ++ []
          later = ground arith

          behind : drop (wr - rd) (drop rd storage) ≡ drop wr storage
          behind =
              drop-drop (wr - rd) rd storage
              ∙ ap (λ j. drop j storage) {x = rd + (wr - rd)} {y = wr} (omega arith)

      push_round :
          wr < rd
          → wr + k < rd
          → held storage rd (advance (length storage) wr k)
            ≡ held storage rd wr ++ take k (drop wr storage)
      push_round h inside =
          later
          ∙ ap (λ t. drop rd storage ++ t) (take_add wr k storage)
          ∙ sym (append_assoc (drop rd storage) (take wr storage) (take k (drop wr storage)))
          ∙ ap (λ t. t ++ take k (drop wr storage)) (sym (round h))
        where
          later :
              held storage rd (advance (length storage) wr k)
              ≡ drop rd storage ++ take (wr + k) storage
          later = ground arith

-- A store into places that are reserved leaves what is held, and stands there afterwards.
module _ (storage : List ℕ) (rd wr : ℕ) (bytes : List ℕ) (reads : rd < length storage)
    (writes : wr < length storage) (room : Reserved (length storage) rd wr (length bytes)) where
  inside : wr + length bytes ≤ length storage
  inside = ground arith

  pub same_size : length (patch storage wr bytes) ≡ length storage
  same_size = length-patch storage wr bytes inside

  pub held_kept : held (patch storage wr bytes) rd wr ≡ held storage rd wr
  held_kept = elim (dec_le rd wr) [
    | yes h ↦ kept_upward h
    | no h ↦ kept_round (omega arith) (ground arith)
  ]
    where
      kept_upward : rd ≤ wr → held (patch storage wr bytes) rd wr ≡ held storage rd wr
      kept_upward h =
          upward (patch storage wr bytes) rd wr 0 (omega (arith, same_size))
            (omega (arith, same_size)) h
          ∙ ap (take (wr - rd)) (drop-patch_before storage wr bytes rd (omega arith) h)
          ∙ take-append (take (wr - rd) (drop rd storage))
              (bytes ++ drop (wr + length bytes) storage)
              (omega (arith, length-take (wr - rd) (drop rd storage), length-drop rd storage))
          ∙ sym (upward storage rd wr 0 reads writes h)

      kept_round :
          wr < rd
          → wr + length bytes < rd
          → held (patch storage wr bytes) rd wr ≡ held storage rd wr
      kept_round h small =
          round (patch storage wr bytes) rd wr 0 (omega (arith, same_size))
            (omega (arith, same_size)) h
          ∙ ap₂ ◌++◌ (drop-patch_behind storage wr bytes rd inside (omega arith)) (
              take-append (take wr storage) (bytes ++ drop (wr + length bytes) storage)
                (omega (arith, length-take wr storage)))
          ∙ sym (round storage rd wr 0 reads writes h)

  pub stored : take (length bytes) (drop wr (patch storage wr bytes)) ≡ bytes
  stored =
      ap (take (length bytes)) (
        drop-append (take wr storage) (bytes ++ drop (wr + length bytes) storage)
          (omega (arith, length-take wr storage)))
      ∙ take-append bytes (drop (wr + length bytes) storage) refl

  -- The bytes that a reader has claimed stay, too.
  pub Claimed-kept :
      (k : ℕ)
      → Claimed (length storage) rd wr k
      → take k (drop rd (patch storage wr bytes)) ≡ take k (drop rd storage)
  Claimed-kept k claim =
      sym (
        front (patch storage wr bytes) (omega (arith, same_size)) (omega (arith, same_size))
          (ground (arith, same_size)))
      ∙ ap (take k) held_kept
      ∙ front storage reads writes claim
    where
      front :
          (bs : List ℕ)
          → rd < length bs
          → wr < length bs
          → Claimed (length bs) rd wr k
          → take k (held bs rd wr) ≡ take k (drop rd bs)
      front bs r w c =
          ap (take k) (held_pop bs rd wr k r w c)
          ∙ take-append (take k (drop rd bs)) (held bs (advance (length bs) rd k) wr)
              (ground (arith, length-take k (drop rd bs), length-drop rd bs))
