-- ===== src/Common/Overwrite.antt =====
-- What a list holds after a part of it has been written over.
use Prim.Native.Nat.{ℕ, zero, suc, ◌+◌, ◌-◌, ◌≤◌}
use mathlib.Core.Path.{◌≡◌, ap, sym, ◌∙◌}
use mathlib.Core.List.{[], ◌∷◌, List, ◌++◌, append-nil, append_assoc}
use native.Mathlib.Omega.{arith}
use native.Mathlib.Numerals.{unary_clauses}
use kernel_stuff.Common.Lists.{
  length, take, drop, length-append, length-take, length-drop, take-all, take-append_le,
  drop-append_le, take-append_ge, drop-append_ge, drop-drop, slice, slice-take, overwrite,
}

module _ {ℓ} {A : Type ℓ} (old : List A) (at : ℕ) (new : List A)
    (inside : at + length new ≤ length old) where
  length-head : length (take at old) ≡ at
  length-head = omega (arith, length-take at old)

  pub length-overwrite : length (overwrite old at new) ≡ length old
  length-overwrite = omega (
    arith,
    length-append (take at old) (new ++ drop (at + length new) old),
    length-append new (drop (at + length new) old),
    length-take at old,
    length-drop (at + length new) old,
  )

  -- The new part stands at its place.
  pub slice-overwrite : (n : ℕ) → n ≡ length new → slice (overwrite old at new) at n ≡ new
  slice-overwrite n e =
      ap (take n) (
        drop-append_ge at 0 (take at old) (new ++ drop (at + length new) old)
          (omega (arith, length-head)))
      ∙ take-append_le n new (drop (at + length new) old) (omega arith)
      ∙ take-all n new (omega arith)

  -- What lies before it stays.
  pub slice-overwrite_before :
      (i n : ℕ) → i + n ≤ at → slice (overwrite old at new) i n ≡ slice old i n
  slice-overwrite_before i n h =
      ap (take n) (
        drop-append_le i (take at old) (new ++ drop (at + length new) old)
          (omega (arith, length-head)))
      ∙ take-append_le n (drop i (take at old)) (new ++ drop (at + length new) old)
          (omega (arith, length-head, length-drop i (take at old)))
      ∙ slice-take i n at old h

  -- What lies behind it stays.
  pub slice-overwrite_after :
      (i n : ℕ) → at + length new ≤ i → slice (overwrite old at new) i n ≡ slice old i n
  slice-overwrite_after i n h = ap (take n) (
      drop-append_ge i (i - at) (take at old) (new ++ drop (at + length new) old)
        (omega (arith, length-head))
      ∙ drop-append_ge (i - at) (i - at - length new) new (drop (at + length new) old) (omega arith)
      ∙ drop-drop (i - at - length new) (at + length new) i old (omega arith))

module _ {ℓ} {A : Type ℓ} where
  -- One element, behind those of a list.
  pub overwrite-one :
      (xs : List A) (y : A) (ys : List A) (z : A) (i : ℕ)
      → length xs ≡ i
      → overwrite (xs ++ (y ∷ ys)) i (z ∷ []) ≡ (xs ++ (z ∷ [])) ++ ys
  overwrite-one [] y ys z zero h = λ _. z ∷ ys
  overwrite-one [] y ys z (suc i) h = absurd (omega arith)
  overwrite-one (x ∷ xs) y ys z zero h = absurd (omega arith)
  overwrite-one (x ∷ xs) y ys z (suc i) h =
      simp unary_clauses
        (ap (λ r. x ∷ r) (simp unary_clauses at (overwrite-one xs y ys z i (omega arith))))

  -- The middle of three parts.
  pub overwrite-middle :
      (xs old ys new : List A) (at : ℕ)
      → length xs ≡ at
      → length new ≡ length old
      → overwrite (xs ++ (old ++ ys)) at new ≡ xs ++ (new ++ ys)
  overwrite-middle xs old ys new at before same =
      ap (λ l. l ++ (new ++ drop (at + length new) (xs ++ (old ++ ys))))
        (take-append_ge at 0 xs (old ++ ys) (omega arith) ∙ append-nil xs)
      ∙ ap (λ l. xs ++ (new ++ l))
          (drop-append_ge (at + length new) (length old) xs (old ++ ys) (omega arith)
            ∙ drop-append_ge (length old) 0 old ys (omega arith))

  -- A part of the first of two joined lists.
  pub overwrite-append_le :
      (xs ys new : List A) (at : ℕ)
      → at + length new ≤ length xs
      → overwrite (xs ++ ys) at new ≡ overwrite xs at new ++ ys
  overwrite-append_le xs ys new at h =
      ap (λ l. l ++ (new ++ drop (at + length new) (xs ++ ys)))
        (take-append_le at xs ys (omega arith))
      ∙ ap (λ l. take at xs ++ (new ++ l)) (drop-append_le (at + length new) xs ys h)
      ∙ ap (λ l. take at xs ++ l) (sym (append_assoc new (drop (at + length new) xs) ys))
      ∙ sym (append_assoc (take at xs) (new ++ drop (at + length new) xs) ys)
