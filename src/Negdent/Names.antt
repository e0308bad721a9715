-- ===== src/Negdent/Names.antt =====
-- The file names of negdentcreate/negdentcreate.c (the `snprintf` of `stat_worker`).
use kernel_stuff.Common.{
  ℕ, zero, suc, ◌+◌, ◌-◌, ◌*◌, ◌/◌, ◌%◌, ◌^◌, ◌≤◌, ◌<◌, ◌≡◌, refl, sym, ap, ◌∙◌, inl, inr, List, [],
  ◌∷◌, ◌++◌, ltb, if◌then◌else◌, length, arith, Bool-cases, take, drop, length-append, take-all,
  take-append_le, drop-append_ge,
}

-- The `n` low decimal digits of a number, as text.
unfoldable pub digits : ℕ → ℕ → List ℕ
digits zero x = []
digits (suc n) x = digits n (x / 10) ++ (b'0' + x % 10) ∷ []

-- How many digits a number of at most `fuel` digits has.
unfoldable pub digit_count : ℕ → ℕ → ℕ
digit_count zero x = 0
digit_count (suc fuel) x = let rest = digit_count fuel (x / 10) in if ltb x 10 then 1 else suc rest

-- "%010lu": an `unsigned long` has 20 digits at most.
unfoldable pub padded : ℕ → List ℕ
padded x = let n = digit_count 20 x in digits (if ltb n 10 then 10 else n) x

-- `char filename[64]` after `snprintf(filename, sizeof(filename), "%s%010lu", pfx, cur)`, without
-- its NUL.
unfoldable pub file_name : List ℕ → ℕ → List ℕ
file_name pfx cur = take 63 (pfx ++ padded cur)

-- The number that a decimal text stands for.
of_digits : ℕ → List ℕ → ℕ
of_digits acc [] = acc
of_digits acc (c ∷ cs) = of_digits (10 * acc + (c - b'0')) cs

of_digits-append :
    (acc : ℕ) (xs ys : List ℕ) → of_digits acc (xs ++ ys) ≡ of_digits (of_digits acc xs) ys
unfolding of_digits
of_digits-append acc [] ys = refl
of_digits-append acc (x ∷ xs) ys = of_digits-append (10 * acc + (x - b'0')) xs ys

-- The number has at most `n` digits.
Fits : ℕ → ℕ → Type 0
Fits zero x = x ≡ 0
Fits (suc n) x = Fits n (x / 10)

Fits-zero : (n : ℕ) → Fits n 0
unfolding Fits
Fits-zero zero = refl
Fits-zero (suc n) = Fits-zero n

Fits-mono : (n m x : ℕ) → n ≤ m → Fits n x → Fits m x
unfolding Fits
Fits-mono zero m x le h = rw h (Fits-zero m)
Fits-mono (suc n) zero x le h = absurd (omega arith)
Fits-mono (suc n) (suc m) x le h = Fits-mono n m (x / 10) (omega arith) h

digit_count-Fits : (fuel x : ℕ) → Fits fuel x → Fits (digit_count fuel x) x
unfolding Fits digit_count
digit_count-Fits zero x h = h
digit_count-Fits (suc fuel) x h = elim (Bool-cases (ltb x 10)) [
  | inl small ↦ rw small (ground arith)
  | inr large ↦ rw large (digit_count-Fits fuel (x / 10) h)
]

of_digits-digits : (n x : ℕ) → Fits n x → of_digits 0 (digits n x) ≡ x
unfolding Fits digits of_digits
of_digits-digits zero x h = sym h
of_digits-digits (suc n) x h =
    of_digits-append 0 (digits n (x / 10)) ((b'0' + x % 10) ∷ [])
    ∙ omega (arith, of_digits-digits n (x / 10) h)

length-digits : (n x : ℕ) → length (digits n x) ≡ n
unfolding digits
length-digits zero x = refl
length-digits (suc n) x =
    omega
      (arith, length-append (digits n (x / 10)) ((b'0' + x % 10) ∷ []), length-digits n (x / 10))

digit_count-le : (fuel x : ℕ) → digit_count fuel x ≤ fuel
unfolding digit_count
digit_count-le zero x = omega arith
digit_count-le (suc fuel) x = ground (arith, digit_count-le fuel (x / 10))

u64-Fits : (x : ℕ) → x < 2 ^ 64 → Fits 20 x
unfolding Fits
u64-Fits x h = omega arith

pub length-padded : (x : ℕ) → length (padded x) ≤ 20
unfolding padded
length-padded x =
    ground (arith, digit_count-le 20 x, length-digits 10 x, length-digits (digit_count 20 x) x)

of_digits-padded : (x : ℕ) → x < 2 ^ 64 → of_digits 0 (padded x) ≡ x
unfolding padded
of_digits-padded x h =
    let n : ℕ = digit_count 20 x in
    let fits : Fits n x = digit_count-Fits 20 x (u64-Fits x h) in
    elim (Bool-cases (ltb n 10)) [
      | inl short ↦ rw short (of_digits-digits 10 x (Fits-mono n 10 x (ground arith) fits))
      | inr long ↦ rw long (of_digits-digits n x fits)
    ]

-- Different numbers give different file names, if the prefix has at most 43 bytes.
pub file_name_injective :
    (pfx : List ℕ) (a b : ℕ)
    → length pfx ≤ 43
    → a < 2 ^ 64
    → b < 2 ^ 64
    → file_name pfx a ≡ file_name pfx b
    → a ≡ b
unfolding file_name
file_name_injective pfx a b short ha hb same =
    let whole = λ (x : ℕ).
      take-all 63 (pfx ++ padded x)
        (omega (arith, length-append pfx (padded x), length-padded x)) in
    let joined : pfx ++ padded a ≡ pfx ++ padded b = sym (whole a) ∙ same ∙ whole b in
    let cut = λ (x : ℕ). drop-append_ge (length pfx) 0 pfx (padded x) (omega arith) in
    let numerals : padded a ≡ padded b = sym (cut a) ∙ ap (drop (length pfx)) joined ∙ cut b in
    sym (of_digits-padded a ha) ∙ ap (of_digits 0) numerals ∙ of_digits-padded b hb

-- With a prefix of 63 bytes or more all numbers give one name.
pub file_name_long : (pfx : List ℕ) (a b : ℕ) → 63 ≤ length pfx → file_name pfx a ≡ file_name pfx b
unfolding file_name
file_name_long pfx a b long =
    take-append_le 63 pfx (padded a) long ∙ sym (take-append_le 63 pfx (padded b) long)
