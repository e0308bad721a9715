-- ===== src/Common/Lists.antt =====
-- Lists measured, cut and indexed by native numbers, under the library's names.
use Prim.Native.Nat.{ℕ, zero, suc, ◌+◌, ◌-◌, ◌≤◌, min}
use mathlib.Core.Path.{◌≡◌, refl, ap, ◌∙◌, sym}
use mathlib.Core.List.{List, [], ◌∷◌, ◌++◌}
use mathlib.Core.Option.{Option, none, some}
use native.Mathlib.Omega.{arith}
use native.Mathlib.Numerals.{unary_clauses}

module _ {ℓ} {A : Type ℓ} where
  abbrev pub length : List A → ℕ
  length [] = 0
  length (x ∷ xs) = suc (length xs)

  abbrev pub get_elem? : List A → ℕ → Option A
  get_elem? [] i = none
  get_elem? (x ∷ xs) zero = some x
  get_elem? (x ∷ xs) (suc i) = get_elem? xs i

  abbrev pub take : ℕ → List A → List A
  take zero xs = []
  take (suc n) [] = []
  take (suc n) (x ∷ xs) = x ∷ take n xs

  abbrev pub drop : ℕ → List A → List A
  drop zero xs = xs
  drop (suc n) [] = []
  drop (suc n) (x ∷ xs) = drop n xs

  abbrev pub replicate : ℕ → A → List A
  replicate zero a = []
  replicate (suc n) a = a ∷ replicate n a

  pub length-append : (xs ys : List A) → length (xs ++ ys) ≡ length xs + length ys
  length-append [] ys = omega arith
  length-append (x ∷ xs) ys = omega (arith, length-append xs ys)

  pub length-take : (n : ℕ) (xs : List A) → length (take n xs) ≡ min n (length xs)
  length-take zero xs = omega arith
  length-take (suc n) [] = omega arith
  length-take (suc n) (x ∷ xs) = omega (arith, length-take n xs)

  pub length-drop : (n : ℕ) (xs : List A) → length (drop n xs) ≡ length xs - n
  length-drop zero xs = omega arith
  length-drop (suc n) [] = omega arith
  length-drop (suc n) (x ∷ xs) = omega (arith, length-drop n xs)

  pub length-replicate : (n : ℕ) (a : A) → length (replicate n a) ≡ n
  length-replicate zero a = refl
  length-replicate (suc n) a = ap suc (length-replicate n a)

  pub take-append-drop : (n : ℕ) (xs : List A) → take n xs ++ drop n xs ≡ xs
  take-append-drop zero xs = refl
  take-append-drop (suc n) [] = refl
  take-append-drop (suc n) (x ∷ xs) = ap (λ r. x ∷ r) (take-append-drop n xs)

  pub take-all : (n : ℕ) (xs : List A) → length xs ≤ n → take n xs ≡ xs
  take-all zero [] h = refl
  take-all zero (x ∷ xs) h = absurd (omega arith)
  take-all (suc n) [] h = refl
  take-all (suc n) (x ∷ xs) h = ap (λ r. x ∷ r) (take-all n xs (omega arith))

  pub drop-all : (n : ℕ) (xs : List A) → length xs ≤ n → drop n xs ≡ []
  drop-all zero [] h = refl
  drop-all zero (x ∷ xs) h = absurd (omega arith)
  drop-all (suc n) [] h = refl
  drop-all (suc n) (x ∷ xs) h = drop-all n xs (omega arith)

  -- A cut inside the first of two joined lists.
  pub take-append_le : (n : ℕ) (xs ys : List A) → n ≤ length xs → take n (xs ++ ys) ≡ take n xs
  take-append_le zero xs ys h = refl
  take-append_le (suc n) [] ys h = absurd (omega arith)
  take-append_le (suc n) (x ∷ xs) ys h = ap (λ r. x ∷ r) (take-append_le n xs ys (omega arith))

  pub drop-append_le :
      (n : ℕ) (xs ys : List A) → n ≤ length xs → drop n (xs ++ ys) ≡ drop n xs ++ ys
  drop-append_le zero xs ys h = refl
  drop-append_le (suc n) [] ys h = absurd (omega arith)
  drop-append_le (suc n) (x ∷ xs) ys h = drop-append_le n xs ys (omega arith)

  -- A cut inside the second.
  pub take-append_ge :
      (n k : ℕ) (xs ys : List A) → n ≡ length xs + k → take n (xs ++ ys) ≡ xs ++ take k ys
  take-append_ge n k [] ys h = ap (λ m. take m ys) (omega arith)
  take-append_ge zero k (x ∷ xs) ys h = absurd (omega arith)
  take-append_ge (suc n) k (x ∷ xs) ys h = ap (λ r. x ∷ r) (take-append_ge n k xs ys (omega arith))

  pub drop-append_ge :
      (n k : ℕ) (xs ys : List A) → n ≡ length xs + k → drop n (xs ++ ys) ≡ drop k ys
  drop-append_ge n k [] ys h = ap (λ m. drop m ys) (omega arith)
  drop-append_ge zero k (x ∷ xs) ys h = absurd (omega arith)
  drop-append_ge (suc n) k (x ∷ xs) ys h = drop-append_ge n k xs ys (omega arith)

  pub take-nil : (n : ℕ) → take n [] ≡ []
  take-nil zero = refl
  take-nil (suc n) = refl

  pub drop-nil : (n : ℕ) → drop n [] ≡ []
  drop-nil zero = refl
  drop-nil (suc n) = refl

  pub drop-drop : (n k m : ℕ) (xs : List A) → m ≡ k + n → drop n (drop k xs) ≡ drop m xs
  drop-drop n zero m xs h = ap (λ p. drop p xs) {x = n} {y = m} (omega arith)
  drop-drop n (suc k) m [] h = drop-nil n ∙ sym (drop-nil m)
  drop-drop n (suc k) zero (x ∷ xs) h = absurd (omega arith)
  drop-drop n (suc k) (suc m) (x ∷ xs) h = drop-drop n k m xs (omega arith)

  pub take-take : (n k : ℕ) (xs : List A) → n ≤ k → take n (take k xs) ≡ take n xs
  take-take zero k xs h = refl
  take-take (suc n) zero xs h = absurd (omega arith)
  take-take (suc n) (suc k) [] h = refl
  take-take (suc n) (suc k) (x ∷ xs) h = ap (λ r. x ∷ r) (take-take n k xs (omega arith))

  -- The `n` elements from index `i` on.
  abbrev pub slice : List A → ℕ → ℕ → List A
  slice xs i n = take n (drop i xs)

  pub length-slice : (xs : List A) (i n : ℕ) → i + n ≤ length xs → length (slice xs i n) ≡ n
  length-slice xs i n h = omega (arith, length-take n (drop i xs), length-drop i xs)

  pub slice-take : (j m n : ℕ) (xs : List A) → j + m ≤ n → slice (take n xs) j m ≡ slice xs j m
  slice-take zero m n xs h = take-take m n xs (omega arith)
  slice-take (suc j) m zero xs h = absurd (omega arith)
  slice-take (suc j) m (suc n) [] h = refl
  slice-take (suc j) m (suc n) (x ∷ xs) h = slice-take j m n xs (omega arith)

  -- A slice of a slice.
  pub slice-slice :
      (xs : List A) (i n j m : ℕ) → j + m ≤ n → slice (slice xs i n) j m ≡ slice xs (i + j) m
  slice-slice xs i n j m h =
      slice-take j m n (drop i xs) h ∙ ap (take m) (drop-drop j i (i + j) xs refl)

  -- Two cuts in a row are one.
  pub take-append-slice :
      (c n k : ℕ) (xs : List A) → k ≡ c + n → take c xs ++ slice xs c n ≡ take k xs
  take-append-slice zero n k xs h = ap (λ m. take m xs) {x = n} {y = k} (omega arith)
  take-append-slice (suc c) n zero xs h = absurd (omega arith)
  take-append-slice (suc c) n (suc k) [] h = take-nil n
  take-append-slice (suc c) n (suc k) (x ∷ xs) h =
      ap (λ r. x ∷ r) (take-append-slice c n k xs (omega arith))

  -- `ys` written over the elements from index `i` on.
  abbrev pub overwrite : List A → ℕ → List A → List A
  overwrite xs i ys = take i xs ++ (ys ++ drop (i + length ys) xs)

  -- What stands at the front of what is left behind an index.
  pub get_elem?-of_drop :
      (i : ℕ) (xs : List A) (y : A) (ys : List A)
      → drop i xs ≡ y ∷ ys
      → (get_elem? xs i ≡ some y) × (drop (i + 1) xs ≡ ys)
  get_elem?-of_drop zero [] y ys e = absurd (cc)
  get_elem?-of_drop zero (x ∷ xs) y ys e = (cc, cc)
  get_elem?-of_drop (suc i) [] y ys e = absurd (cc)
  get_elem?-of_drop (suc i) (x ∷ xs) y ys e =
      simp unary_clauses (simp unary_clauses at (get_elem?-of_drop i xs y ys e))

  pub drop-past :
      (i k m : ℕ) (xs front rest : List A)
      → drop i xs ≡ front ++ rest
      → length front ≡ k
      → m ≡ i + k
      → drop m xs ≡ rest
  drop-past i k m xs front rest e size to =
      sym (drop-drop k i m xs to) ∙ ap (drop k) e ∙ drop-append_ge k 0 front rest (omega arith)

  pub replicate-append :
      (m k n : ℕ) (a : A) → m ≡ k + n → replicate m a ≡ replicate k a ++ replicate n a
  replicate-append m zero n a h = ap (λ c. replicate c a) {x = m} {y = n} (omega arith)
  replicate-append zero (suc k) n a h = absurd (omega arith)
  replicate-append (suc m) (suc k) n a h = ap (λ r. a ∷ r) (replicate-append m k n a (omega arith))

  -- A part of the first of two joined lists.
  pub slice-append_le :
      (xs ys : List A) (i n : ℕ) → i + n ≤ length xs → slice (xs ++ ys) i n ≡ slice xs i n
  slice-append_le xs ys i n h =
      ap (take n) (drop-append_le i xs ys (omega arith))
      ∙ take-append_le n (drop i xs) ys (omega (arith, length-drop i xs))

  pub get_elem?-of_slice :
      (xs : List A) (i : ℕ) (x : A) → slice xs i 1 ≡ x ∷ [] → get_elem? xs i ≡ some x
  get_elem?-of_slice [] zero x e = absurd (cc)
  get_elem?-of_slice [] (suc i) x e = absurd (cc)
  get_elem?-of_slice (y ∷ xs) zero x e = cc
  get_elem?-of_slice (y ∷ xs) (suc i) x e = get_elem?-of_slice xs i x e
