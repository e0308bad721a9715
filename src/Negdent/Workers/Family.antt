-- ===== src/Negdent/Workers/Family.antt =====
-- Families indexed by thread: an update of one member, and sums over the first members.
use kernel_stuff.Common.{
  ℕ, zero, suc, ◌+◌, ◌*◌, ◌≤◌, ◌<◌, ◌≡◌, ap, inl, inr, ltb, ltb→lt, ◌==◌, if◌then◌else◌, arith,
  Bool-cases,
}

abbrev pub update {ℓ} : {A : Type ℓ} → (ℕ → A) → ℕ → A → ℕ → A
update f i a j = if i == j then a else f j

unfoldable pub sum_below : ℕ → (ℕ → ℕ) → ℕ
sum_below zero f = 0
sum_below (suc n) f = sum_below n f + f n

pub sum_below-add_one : (n : ℕ) (f : ℕ → ℕ) → sum_below (n + 1) f ≡ sum_below n f + f n
unfolding sum_below
sum_below-add_one n f = ap (λ m. sum_below m f) {x = n + 1} {y = suc n} (omega arith)

pub sum_below_mono :
    (n : ℕ) (f g : ℕ → ℕ) → ((i : ℕ) → i < n → f i ≤ g i) → sum_below n f ≤ sum_below n g
unfolding sum_below
sum_below_mono zero f g h = omega arith
sum_below_mono (suc n) f g h =
    omega (arith, h n (omega arith), sum_below_mono n f g (λ i lt. h i (omega arith)))

pub sum_below-le : (n a : ℕ) (f : ℕ → ℕ) → ((i : ℕ) → i < n → f i ≤ a) → sum_below n f ≤ n * a
unfolding sum_below
sum_below-le zero a f h = omega arith
sum_below-le (suc n) a f h =
    grind (arith, h n (omega arith), sum_below-le n a f (λ i lt. h i (omega arith)))

-- A sum that is as large as it can be has members that are as large as they can be.
pub sum_below_full :
    (n a : ℕ) (f : ℕ → ℕ)
    → ((i : ℕ) → i < n → f i ≤ a)
    → n * a ≤ sum_below n f
    → (i : ℕ) → i < n
    → f i ≡ a
unfolding sum_below
sum_below_full zero a f h full i lt = absurd (omega arith)
sum_below_full (suc n) a f h full i lt =
    let below : (j : ℕ) → j < n → f j ≤ a = λ j lt'. h j (omega arith) in
    let small : sum_below n f ≤ n * a = sum_below-le n a f below in
    let last : f n ≤ a = h n (omega arith) in
    elim (Bool-cases (ltb i n)) [
      | inl inner ↦ sum_below_full n a f below (grind arith) i (ltb→lt i n inner)
      | inr outer ↦ let at : i ≡ n = ground arith in rw at (grind arith)
    ]

-- A number below `n * a` lies in one of the `n` ranges of `a` numbers.
pub range_of : (n a x : ℕ) → x < n * a → (i : ℕ) × (i < n) × (i * a ≤ x) × (x < i * a + a)
range_of zero a x h = absurd (omega arith)
range_of (suc n) a x h = elim (Bool-cases (ltb x (n * a))) [
  | inl inner ↦
      let (i, lt, low, high) = range_of n a x (ltb→lt x (n * a) inner) in
      (i, omega arith, low, high)
  | inr outer ↦ (n, omega arith, ground arith, grind arith)
]

pub range_end-le : (n a i : ℕ) → i < n → i * a + a ≤ n * a
range_end-le zero a i h = absurd (omega arith)
range_end-le (suc n) a i h = elim (Bool-cases (ltb i n)) [
  | inl inner ↦ omega (arith, range_end-le n a i (ltb→lt i n inner))
  | inr outer ↦ let at : i ≡ n = ground arith in rw at (omega arith)
]
