-- ===== src/Hex/RoundTrip.antt =====
-- Bytes to hexadecimal text and back (editbuildid/editbuildid.c).
use kernel_stuff.Common.{
  ℕ, ◌+◌, ◌-◌, ◌*◌, ◌/◌, ◌%◌, ◌<◌, ◌≡◌, refl, ap, ◌∙◌, Bool, true, false, ◌&&◌, Option, none, some,
  List, [], ◌∷◌, ltb, ◌==◌, ==_iff, if◌then◌else◌, bit_and, length, arith, test_below,
  test_below_sound,
}
use kernel_stuff.Common.Run.{ok, ◌>>=◌, Ends, >>=-Ends, ok-Ends}
use kernel_stuff.Bytes.{IsBytes}
use kernel_stuff.Hex.{nibble_to_hex, hex_to_nibble, to_hex, hex_pair, from_hex_loop, from_hex}

-- The lower-case digit of a nibble.
abbrev pub digit : ℕ → ℕ
digit n = if ltb n 10 then b'0' + n else b'a' + n - 10

-- The digits of the bytes, high nibble first.
abbrev pub digits : List ℕ → List ℕ
digits [] = []
digits (b ∷ bs) = digit (b / 16) ∷ digit (b % 16) ∷ digits bs

nibbles_table :
    test_below 256 (λ x. bit_and x 0xF0 / 16 == x / 16 && bit_and x 0xF == x % 16) ≡ true
unfolding test_below
nibbles_table = refl

high_nibble : (x : ℕ) → x < 256 → bit_and x 0xF0 / 16 ≡ x / 16
high_nibble x h = ground (arith, test_below_sound 256 _ x nibbles_table h)

low_nibble : (x : ℕ) → x < 256 → bit_and x 0xF ≡ x % 16
low_nibble x h = ground (arith, test_below_sound 256 _ x nibbles_table h)

nibble_to_hex_lem : (n : ℕ) → n < 16 → nibble_to_hex n ≡ ok (digit n)
unfolding nibble_to_hex
nibble_to_hex_lem n h = ground arith

-- `to_hex` never fails on bytes, and writes their digits.
pub to_hex_lem : (bs : List ℕ) → IsBytes bs → to_hex bs ≡ ok (digits bs)
unfolding to_hex
to_hex_lem [] h = refl
to_hex_lem (b ∷ bs) (h, hs) = rw (
  high_nibble b h,
  low_nibble b h,
  nibble_to_hex_lem (b / 16) (omega arith),
  nibble_to_hex_lem (b % 16) (omega arith),
  to_hex_lem bs hs,
)

pub length-digits : (bs : List ℕ) → length (digits bs) ≡ 2 * length bs
length-digits [] = refl
length-digits (b ∷ bs) = omega (arith, length-digits bs)

holds : Option ℕ → ℕ → Bool
holds none x = false
holds (some y) x = y == x

holds_sound : (o : Option ℕ) (x : ℕ) → holds o x ≡ true → o ≡ some x
unfolding holds
holds_sound none x h = cc
holds_sound (some y) x h = ap some ((==_iff y x).0 h)

pairs_table : test_below 256 (λ x. holds (hex_pair (digit (x / 16)) (digit (x % 16))) x) ≡ true
unfolding test_below holds hex_pair hex_to_nibble
pairs_table = refl

hex_pair-digit : (x : ℕ) → x < 256 → hex_pair (digit (x / 16)) (digit (x % 16)) ≡ some x
hex_pair-digit x h = holds_sound _ x (test_below_sound 256 _ x pairs_table h)

pub from_hex_loop_step :
    (a b : ℕ) (rest : List ℕ) {y : ℕ} {ys : List ℕ}
    → hex_pair a b ≡ some y
    → from_hex_loop rest ≡ some ys
    → from_hex_loop (a ∷ b ∷ rest) ≡ some (y ∷ ys)
unfolding from_hex_loop
from_hex_loop_step a b rest h hs = rw (h, from_hex_loop) (rw hs)

from_hex_loop-digits : (bs : List ℕ) → IsBytes bs → from_hex_loop (digits bs) ≡ some bs
unfolding from_hex_loop
from_hex_loop-digits [] h = refl
from_hex_loop-digits (b ∷ bs) (h, hs) =
    from_hex_loop_step _ _ (digits bs) (hex_pair-digit b h) (from_hex_loop-digits bs hs)

pub from_hex_even : (hs : List ℕ) → length hs % 2 ≡ 0 → from_hex hs ≡ ok (from_hex_loop hs)
unfolding from_hex
from_hex_even hs h = rw ((==_iff (length hs % 2) 0).1 h)

-- The text that `to_hex` makes of any bytes is read back by `from_hex` as those bytes.
pub from_hex-to_hex : (bs : List ℕ) → IsBytes bs → (to_hex bs >>= from_hex) ≡ ok (some bs)
from_hex-to_hex bs h = rw (to_hex_lem bs h) (
    from_hex_even (digits bs) (omega (arith, length-digits bs)) ∙ ap ok (from_hex_loop-digits bs h))

nibble_to_hex-Ends : (n : ℕ) → Ends (nibble_to_hex n)
unfolding nibble_to_hex
nibble_to_hex-Ends n e = ground arith

pub to_hex-Ends : (bs : List ℕ) → Ends (to_hex bs)
unfolding to_hex
to_hex-Ends [] = ok-Ends []
to_hex-Ends (b ∷ bs) = >>=-Ends _ _ (nibble_to_hex-Ends _) (λ hi.
    >>=-Ends _ _ (nibble_to_hex-Ends _) (λ lo. >>=-Ends _ _ (to_hex-Ends bs) (λ rest. ok-Ends _)))
