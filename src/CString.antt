-- ===== src/CString.antt =====
-- NUL-terminated strings in memory, as the programs use <string.h>.
use kernel_stuff.Common.{
  ℕ, ◌+◌, List, [], ◌∷◌, ◌++◌, Bool, true, false, ◌==◌, ◌≡◌, ◌≢◌, refl, drop, get_elem?-of_drop,
  if◌then◌else◌, get_elem?, none, some, Bool-cases, inl, inr, arith,
}
use kernel_stuff.Common.Run.{Run, ok, stop, out_of_bounds, ◌>>=◌, Ends, >>=-Ends, ok-Ends}

-- The byte at an offset of a block of memory. A read past its end is undefined.
abbrev pub peek_byte : List ℕ → ℕ → Run ℕ
peek_byte mem off = elim (get_elem? mem off) [ none ↦ stop out_of_bounds | some b ↦ ok b ]

-- `strcmp(text, &mem[off]) == 0`, where `text` is given with its NUL: bytes are read up to the
-- first that differs, or up to the NUL.
unfoldable pub strcmp_eq : List ℕ → List ℕ → ℕ → Run Bool
strcmp_eq [] mem off = ok true
strcmp_eq (c ∷ text) mem off = do
  b ← peek_byte mem off
  if b == c then strcmp_eq text mem (off + 1) else ok false

pub strcmp_eq-Ends : (text mem : List ℕ) (off : ℕ) → Ends (strcmp_eq text mem off)
unfolding strcmp_eq
strcmp_eq-Ends [] mem off = ok-Ends true
strcmp_eq-Ends (c ∷ text) mem off =
    >>=-Ends (peek_byte mem off) _ (λ e. ground arith)
      (λ b. elim (Bool-cases (b == c)) [
        | inl same ↦ rw same (strcmp_eq-Ends text mem (off + 1))
        | inr other ↦ rw other (ok-Ends false)
      ])

-- The text has no NUL.
abbrev pub IsText : List ℕ → Type 0
IsText [] = Unit
IsText (c ∷ text) = (c ≢ 0) × IsText text

abbrev pub same_text : List ℕ → List ℕ → Bool
same_text [] [] = true
same_text [] (d ∷ other) = false
same_text (c ∷ text) [] = false
same_text (c ∷ text) (d ∷ other) = if d == c then same_text text other else false

-- Where the text `other` stands in memory, the comparison is that of the two texts.
pub strcmp_eq-same_text :
    (text other rest mem : List ℕ) (off : ℕ)
    → IsText text
    → IsText other
    → drop off mem ≡ other ++ (0 ∷ rest)
    → strcmp_eq (text ++ (0 ∷ [])) mem off ≡ ok (same_text text other)
unfolding strcmp_eq
strcmp_eq-same_text [] [] rest mem off h k e =
    let (here, next) = get_elem?-of_drop off mem 0 rest e in rw (here, peek_byte) refl
strcmp_eq-same_text [] (d ∷ other) rest mem off h (k, ks) e =
    let (here, next) = get_elem?-of_drop off mem d (other ++ (0 ∷ rest)) e in
    let differs : (d == 0) ≡ false = ground arith in rw (here, peek_byte, differs) refl
strcmp_eq-same_text (c ∷ text) [] rest mem off (h, hs) k e =
    let (here, next) = get_elem?-of_drop off mem 0 rest e in
    let differs : (0 == c) ≡ false = ground arith in rw (here, peek_byte, differs) refl
strcmp_eq-same_text (c ∷ text) (d ∷ other) rest mem off (h, hs) (k, ks) e =
    let (here, next) = get_elem?-of_drop off mem d (other ++ (0 ∷ rest)) e in
    elim (Bool-cases (d == c)) [
      | inl same ↦
          rw (here, peek_byte, same) (strcmp_eq-same_text text other rest mem (off + 1) hs ks next)
      | inr differs ↦ rw (here, peek_byte, differs) refl
    ]
