-- ===== src/Bytes/Laws.antt =====
-- Laws of byte order.
use native.Mathlib.Nat.{pow-suc}
use mathlib.Core.List.{reverse, reverse-reverse, reverse-append}
use kernel_stuff.Common.{
  ℕ, zero, suc, ◌+◌, ◌*◌, ◌/◌, ◌%◌, ◌^◌, ◌≤◌, ◌<◌, ◌≡◌, refl, ap, ◌∙◌, Bool, true, ◌&&◌, List, [],
  ◌∷◌, ◌++◌, ltb, length, arith, take, drop, length-append, slice,
}
use kernel_stuff.Common.Run.{ok, Ends}
use kernel_stuff.Bytes.{IsBytes, of_le, of_be, to_le, bswap, peek}

pub IsBytes-take : (n : ℕ) (bs : List ℕ) → IsBytes bs → IsBytes (take n bs)
IsBytes-take zero bs h = tt
IsBytes-take (suc n) [] h = tt
IsBytes-take (suc n) (b ∷ bs) (h, hs) = (h, IsBytes-take n bs hs)

pub IsBytes-drop : (n : ℕ) (bs : List ℕ) → IsBytes bs → IsBytes (drop n bs)
IsBytes-drop zero bs h = h
IsBytes-drop (suc n) [] h = tt
IsBytes-drop (suc n) (b ∷ bs) (h, hs) = IsBytes-drop n bs hs

pub IsBytes-slice : (bs : List ℕ) (i n : ℕ) → IsBytes bs → IsBytes (slice bs i n)
IsBytes-slice bs i n h = IsBytes-take n (drop i bs) (IsBytes-drop i bs h)

pub IsBytes-append : (xs ys : List ℕ) → IsBytes xs → IsBytes ys → IsBytes (xs ++ ys)
IsBytes-append [] ys h k = k
IsBytes-append (x ∷ xs) ys (h, hs) k = (h, IsBytes-append xs ys hs k)

IsBytes-reverse : (bs : List ℕ) → IsBytes bs → IsBytes (reverse bs)
IsBytes-reverse [] h = tt
IsBytes-reverse (b ∷ bs) (h, hs) =
    rw (reverse-append (b ∷ []) bs)
      (IsBytes-append (reverse bs) (b ∷ []) (IsBytes-reverse bs hs) (h, tt))

pub length-reverse : (bs : List ℕ) → length (reverse bs) ≡ length bs
length-reverse [] = refl
length-reverse (b ∷ bs) =
    rw (reverse-append (b ∷ []) bs)
      (omega (arith, length-append (reverse bs) (b ∷ []), length-reverse bs))

pub length-to_le : (n x : ℕ) → length (to_le n x) ≡ n
unfolding to_le
length-to_le zero x = refl
length-to_le (suc n) x = ap suc (length-to_le n (x / 256))

pub IsBytes-to_le : (n x : ℕ) → IsBytes (to_le n x)
unfolding to_le
IsBytes-to_le zero x = tt
IsBytes-to_le (suc n) x = (omega arith, IsBytes-to_le n (x / 256))

pub to_le-of_le : (n : ℕ) (bs : List ℕ) → IsBytes bs → length bs ≡ n → to_le n (of_le bs) ≡ bs
unfolding to_le of_le
to_le-of_le zero [] h e = refl
to_le-of_le zero (b ∷ bs) h e = absurd (omega arith)
to_le-of_le (suc n) [] h e = absurd (omega arith)
to_le-of_le (suc n) (b ∷ bs) (h, hs) e =
    let lo : (b + 256 * of_le bs) % 256 ≡ b = omega arith in
    let hi : (b + 256 * of_le bs) / 256 ≡ of_le bs = omega arith in
    rw (lo, hi, to_le-of_le n bs hs (omega arith))

pub bswap-of_le : (n : ℕ) (bs : List ℕ) → IsBytes bs → length bs ≡ n → bswap n (of_le bs) ≡ of_be bs
unfolding bswap
bswap-of_le n bs h e = rw (to_le-of_le n bs h e)

pub bswap-of_be : (n : ℕ) (bs : List ℕ) → IsBytes bs → length bs ≡ n → bswap n (of_be bs) ≡ of_le bs
unfolding bswap
bswap-of_be n bs h e =
    rw (to_le-of_le n (reverse bs) (IsBytes-reverse bs h) (length-reverse bs ∙ e), reverse-reverse)

pub of_le-to_le : (n x : ℕ) → x < 256 ^ n → of_le (to_le n x) ≡ x
unfolding to_le of_le
of_le-to_le zero x h = omega arith
of_le-to_le (suc n) x h =
    omega (arith, pow-suc 256 n, of_le-to_le n (x / 256) (omega (arith, pow-suc 256 n)))

pub peek-eq-ok :
    (mem : List ℕ) (off n : ℕ) {raw : List ℕ}
    → peek mem off n ≡ ok raw
    → (off + n ≤ length mem) × (raw ≡ slice mem off n)
peek-eq-ok mem off n e = ground arith

pub peek-Ends : (mem : List ℕ) (off n : ℕ) → Ends (peek mem off n)
peek-Ends mem off n e = ground arith

abbrev pub all_bytes : List ℕ → Bool
all_bytes [] = true
all_bytes (b ∷ bs) = ltb b 256 && all_bytes bs

pub IsBytes_of_all : (bs : List ℕ) → all_bytes bs ≡ true → IsBytes bs
IsBytes_of_all [] h = tt
IsBytes_of_all (b ∷ bs) h = (ground arith, IsBytes_of_all bs (ground arith))
