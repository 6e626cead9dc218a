-- ===== src/Memory/Access.antt =====
-- Laws of loads and stores in a buffer that is split at the pointer.
use libcppio.Prelude.{
  ℕ, ◌+◌, ◌≤◌, ◌<◌, ◌≡◌, sym, ap, ◌∙◌, List, [], ◌++◌, length, take, drop, arith, length-append,
  length-take, length-drop, take-append, drop-append, drop-drop, take-append-drop, append_assoc,
  ◌-◌, refl, ap₂, drop-append_parts, drop-take,
}
use native.Mathlib.Nat.{add-zero, add_assoc}
use libcppio.Memory.{ok, out_of_bounds, load, store}

pub load-take :
    (buffer : List ℕ) (offset n : ℕ)
    → offset + n ≤ length buffer
    → load buffer offset n ≡ ok (take n (drop offset buffer))
unfolding load
load-take buffer offset n h = ground arith

-- A load of `length bytes` at a pointer that `bytes` starts at.
pub load_at :
    (buffer bytes rest : List ℕ) (offset n : ℕ)
    → drop offset buffer ≡ bytes ++ rest
    → n ≡ length bytes
    → offset ≤ length buffer
    → load buffer offset n ≡ ok bytes
unfolding load
load_at buffer bytes rest offset n e en h = ground (
  arith,
  take-append bytes rest en,
  ap length e,
  length-drop offset buffer,
  length-append bytes rest,
)

-- The buffer with `bytes` written over it at an offset.
abbrev pub patch : List ℕ → ℕ → List ℕ → List ℕ
patch buffer offset bytes = take offset buffer ++ (bytes ++ drop (offset + length bytes) buffer)

pub store-patch :
    (buffer : List ℕ) (offset : ℕ) (bytes : List ℕ)
    → offset + length bytes ≤ length buffer
    → store buffer offset bytes ≡ ok (patch buffer offset bytes)
unfolding store
store-patch buffer offset bytes h = ground arith

pub store_outside :
    (buffer : List ℕ) (offset : ℕ) (bytes : List ℕ)
    → length buffer < offset + length bytes
    → store buffer offset bytes ≡ out_of_bounds
unfolding store
store_outside buffer offset bytes h = ground arith

pub patch-nil : (buffer : List ℕ) (offset : ℕ) → patch buffer offset [] ≡ buffer
patch-nil buffer offset = rw add-zero (take-append-drop offset buffer)

pub length-patch :
    (buffer : List ℕ) (offset : ℕ) (bytes : List ℕ)
    → offset + length bytes ≤ length buffer
    → length (patch buffer offset bytes) ≡ length buffer
length-patch buffer offset bytes h = omega (
  arith,
  length-append (take offset buffer) (bytes ++ drop (offset + length bytes) buffer),
  length-append bytes (drop (offset + length bytes) buffer),
  length-take offset buffer,
  length-drop (offset + length bytes) buffer,
)

-- Two writes, the second where the first ends, are one write.
pub patch-patch :
    (buffer : List ℕ) (offset : ℕ) (xs ys : List ℕ) {next : ℕ}
    → offset + length xs ≤ length buffer
    → next ≡ offset + length xs
    → patch (patch buffer offset xs) next ys ≡ patch buffer offset (xs ++ ys)
patch-patch buffer offset xs ys {next} h e =
    rw (e, front_part, back_part, length-append xs ys, ← add_assoc offset (length xs) (length ys))
      (append_assoc (take offset buffer) xs (ys ++ tail)
        ∙ ap (◌++◌ (take offset buffer)) (sym (append_assoc xs ys tail)))
  where
    front : List ℕ
    front = take offset buffer ++ xs

    tail : List ℕ
    tail = drop (offset + length xs + length ys) buffer

    length-front : offset + length xs ≡ length front
    length-front = omega (arith, length-append (take offset buffer) xs, length-take offset buffer)

    regroup : patch buffer offset xs ≡ front ++ drop (offset + length xs) buffer
    regroup = sym (append_assoc (take offset buffer) xs (drop (offset + length xs) buffer))

    front_part : take (offset + length xs) (patch buffer offset xs) ≡ front
    front_part = rw regroup (take-append front (drop (offset + length xs) buffer) length-front)

    back_part : drop (offset + length xs + length ys) (patch buffer offset xs) ≡ tail
    back_part =
        sym (drop-drop (length ys) (offset + length xs) (patch buffer offset xs))
        ∙ ap (drop (length ys))
            (rw regroup (drop-append front (drop (offset + length xs) buffer) length-front))
        ∙ drop-drop (length ys) (offset + length xs) buffer

-- What stands behind, in front of, and from before a write on.
pub drop-patch_behind :
    (buffer : List ℕ) (offset : ℕ) (bytes : List ℕ) (n : ℕ)
    → offset + length bytes ≤ length buffer
    → offset + length bytes ≤ n
    → drop n (patch buffer offset bytes) ≡ drop n buffer
drop-patch_behind buffer offset bytes n fits h =
    ap (λ k. drop k (patch buffer offset bytes)) {x = n} {y = offset + (length bytes + k)}
      (omega arith)
    ∙ sym (drop-drop (length bytes + k) offset (patch buffer offset bytes))
    ∙ ap (drop (length bytes + k)) (drop-append (take offset buffer) tail {n = offset} front)
    ∙ sym (drop-drop k (length bytes) tail)
    ∙ ap (drop k) (drop-append bytes (drop (offset + length bytes) buffer) {n = length bytes} refl)
    ∙ drop-drop k (offset + length bytes) buffer
    ∙ ap (λ j. drop j buffer) {x = offset + length bytes + k} {y = n} (omega arith)
  where
    k : ℕ
    k = n - (offset + length bytes)

    tail : List ℕ
    tail = bytes ++ drop (offset + length bytes) buffer

    front : offset ≡ length (take offset buffer)
    front = omega (arith, length-take offset buffer)

pub take-patch_through :
    (buffer : List ℕ) (offset : ℕ) (bytes : List ℕ) {n : ℕ}
    → offset ≤ length buffer
    → n ≡ offset + length bytes
    → take n (patch buffer offset bytes) ≡ take offset buffer ++ bytes
take-patch_through buffer offset bytes {n} fits e =
    ap (take n) (sym (append_assoc (take offset buffer) bytes tail))
    ∙ take-append (take offset buffer ++ bytes) tail
        (omega (arith, length-append (take offset buffer) bytes, length-take offset buffer))
  where
    tail : List ℕ
    tail = drop (offset + length bytes) buffer

pub drop-patch_before :
    (buffer : List ℕ) (offset : ℕ) (bytes : List ℕ) (n : ℕ)
    → offset ≤ length buffer
    → n ≤ offset
    → drop n (patch buffer offset bytes)
      ≡ take (offset - n) (drop n buffer) ++ (bytes ++ drop (offset + length bytes) buffer)
drop-patch_before buffer offset bytes n fits h =
    drop-append_parts n (take offset buffer) (bytes ++ drop (offset + length bytes) buffer)
    ∙ ap₂ ◌++◌ (drop-take n offset buffer) (
        ap (λ k. drop k (bytes ++ drop (offset + length bytes) buffer))
          {x = n - length (take offset buffer)} {y = 0} (omega (arith, length-take offset buffer)))
