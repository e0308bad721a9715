-- ===== src/Hex/Decode.antt =====
-- Which texts `from_hex` accepts, and what it makes of them (editbuildid/editbuildid.c).
use kernel_stuff.Common.{
  ℕ, suc, ◌+◌, ◌*◌, ◌/◌, ◌%◌, ◌<◌, ◌≡◌, refl, sym, ap, ◌∙◌, ◌↔◌, inl, inr, Bool, true, false, ◌&&◌,
  ◌||◌, Option, none, some, List, [], ◌∷◌, map, leb, ◌==◌, ==_iff, if◌then◌else◌, bit_or, length,
  arith, test_below, test_below_sound, Bool-cases,
}
use kernel_stuff.Common.Run.{Run, ok, stop, assertion}
use kernel_stuff.Bytes.{IsBytes}
use kernel_stuff.Hex.{hex_to_nibble, to_hex, hex_pair, from_hex_loop, from_hex}
use kernel_stuff.Hex.RoundTrip.{
  length-digits, digit, digits, to_hex_lem, from_hex_even, from_hex_loop_step,
}

abbrev is_upper : ℕ → Bool
is_upper c = leb b'A' c && leb c b'F'

abbrev pub is_hex : ℕ → Bool
is_hex c = (leb b'0' c && leb c b'9') || ((leb b'a' c && leb c b'f') || is_upper c)

abbrev pub all_hex : List ℕ → Bool
all_hex [] = true
all_hex (c ∷ cs) = is_hex c && all_hex cs

-- The digit in lower case.
abbrev pub lower : ℕ → ℕ
lower c = if is_upper c then c + 32 else c

value : ℕ → ℕ
value c = (hex_to_nibble c false).0

hex_to_nibble-hex : (c : ℕ) (e : Bool) → is_hex c ≡ true → hex_to_nibble c e ≡ (value c, e)
unfolding hex_to_nibble value
hex_to_nibble-hex c e h = ground arith

hex_to_nibble-bad : (c : ℕ) (e : Bool) → is_hex c ≡ false → hex_to_nibble c e ≡ (0, true)
unfolding hex_to_nibble
hex_to_nibble-bad c e h = ground arith

value_lem : (c : ℕ) → is_hex c ≡ true → (value c < 16) × (digit (value c) ≡ lower c)
unfolding hex_to_nibble value
value_lem c h = ground arith

or_table :
    test_below 16 (λ hi. test_below 16 (λ lo. bit_or (hi * 16 % 256) lo == hi * 16 + lo)) ≡ true
unfolding test_below
or_table = refl

or_nibbles : (hi lo : ℕ) → hi < 16 → lo < 16 → bit_or (hi * 16 % 256) lo ≡ hi * 16 + lo
or_nibbles hi lo h l = (==_iff _ _).0 (
    test_below_sound 16 (λ y. bit_or (hi * 16 % 256) y == hi * 16 + y) lo
      (test_below_sound 16 (λ x. test_below 16 (λ y. bit_or (x * 16 % 256) y == x * 16 + y)) hi
        or_table h)
      l)

hex_pair-hex :
    (a b : ℕ) → is_hex a ≡ true → is_hex b ≡ true → hex_pair a b ≡ some (value a * 16 + value b)
unfolding hex_pair
hex_pair-hex a b ha hb =
    rw (hex_to_nibble-hex a false ha, hex_to_nibble-hex b false hb)
      (ap some (or_nibbles (value a) (value b) (value_lem a ha).0 (value_lem b hb).0))

hex_pair-bad : (a b : ℕ) → (is_hex a && is_hex b) ≡ false → hex_pair a b ≡ none
unfolding hex_pair
hex_pair-bad a b h = elim (Bool-cases (is_hex a)) [
  | inl good ↦ rw (hex_to_nibble-hex a false good, hex_to_nibble-bad b false (ground arith))
  | inr bad ↦
      rw (hex_to_nibble-bad a false bad)
        (ground (arith, hex_to_nibble-hex b true, hex_to_nibble-bad b true))
]

-- What an accepted text stands for: the bytes are bytes, and their digits are the text.
record Decodes (hs : List ℕ) (bs : List ℕ) : Type 0 where
  bytes : IsBytes bs
  same : digits bs ≡ map lower hs

digits_cons :
    (a b : ℕ) (rest bs : List ℕ)
    → is_hex a ≡ true
    → is_hex b ≡ true
    → digits bs ≡ map lower rest
    → digits ((value a * 16 + value b) ∷ bs) ≡ map lower (a ∷ b ∷ rest)
digits_cons a b rest bs ha hb e =
    let hi : (value a * 16 + value b) / 16 ≡ value a = omega (arith, value_lem b hb) in
    let lo : (value a * 16 + value b) % 16 ≡ value b = omega (arith, value_lem b hb) in
    rw (hi, lo, (value_lem a ha).1, (value_lem b hb).1, e)

decoded :
    (hs : List ℕ)
    → length hs % 2 ≡ 0
    → all_hex hs ≡ true
    → (bs : List ℕ) × (from_hex_loop hs ≡ some bs) × Decodes hs bs
unfolding from_hex_loop
decoded [] h e = ([], refl, record { bytes = tt; same = refl })
decoded (a ∷ []) h e = absurd (omega arith)
decoded (a ∷ b ∷ rest) h e =
    let (bs, p, d) = decoded rest (omega arith) (ground arith) in
    let ha : is_hex a ≡ true = ground arith in
    let hb : is_hex b ≡ true = ground arith in
    (
      (value a * 16 + value b) ∷ bs,
      from_hex_loop_step a b rest (hex_pair-hex a b ha hb) p,
      record {
        bytes = (omega (arith, value_lem a ha, value_lem b hb), d.bytes);
        same = digits_cons a b rest bs ha hb d.same;
      },
    )

rejected : (hs : List ℕ) → length hs % 2 ≡ 0 → all_hex hs ≡ false → from_hex_loop hs ≡ none
unfolding from_hex_loop
rejected [] h e = cc
rejected (a ∷ []) h e = absurd (omega arith)
rejected (a ∷ b ∷ rest) h e = elim (Bool-cases (is_hex a && is_hex b)) [
  | inl good ↦
      rw (hex_pair-hex a b (ground arith) (ground arith), from_hex_loop)
        (rw (rejected rest (omega arith) (ground arith)))
  | inr bad ↦ rw (hex_pair-bad a b bad, from_hex_loop)
]

-- `from_hex` of a text of even length: it is refused exactly when it holds a character that is no
-- hexadecimal digit.
pub from_hex-none_iff :
    (hs : List ℕ) → length hs % 2 ≡ 0 → (from_hex hs ≡ ok none) ↔ (all_hex hs ≡ false)
from_hex-none_iff hs h = (
  λ e. elim (Bool-cases (all_hex hs)) [
    | inl good ↦ let (bs, p, _) = decoded hs h good in cc (from_hex_even hs h, p)
    | inr bad ↦ bad
  ],
  λ e. from_hex_even hs h ∙ ap ok (rejected hs h e),
)

pub even-from_hex : (hs : List ℕ) {r : Option (List ℕ)} → from_hex hs ≡ ok r → length hs % 2 ≡ 0
unfolding from_hex
even-from_hex hs e = elim (Bool-cases (length hs % 2 == 0)) [
  | inl even ↦ (==_iff _ _).0 even
  | inr odd ↦ let f : ◌≡◌ {A = Run (Option (List ℕ))} (stop assertion) (ok _) = rw odd at e in cc
]

-- What `from_hex` accepts is the text, up to the case of its digits, that `to_hex` makes of the
-- bytes that it returns, and these are bytes.
pub to_hex-from_hex :
    (hs bs : List ℕ) → from_hex hs ≡ ok (some bs) → IsBytes bs × (to_hex bs ≡ ok (map lower hs))
to_hex-from_hex hs bs e =
    let even : length hs % 2 ≡ 0 = even-from_hex hs e in
    elim (Bool-cases (all_hex hs)) [
      | inl good ↦
          let (cs, p, d) = decoded hs even good in
          let same : cs ≡ bs = cc (from_hex_even hs even) in
          rw (← same) (d.bytes, to_hex_lem cs d.bytes ∙ ap ok d.same)
      | inr bad ↦ cc (from_hex_even hs even, rejected hs even bad)
    ]

length-map-lower : (hs : List ℕ) → length (map lower hs) ≡ length hs
length-map-lower [] = refl
length-map-lower (h ∷ hs) = ap suc (length-map-lower hs)

-- Two digits make a byte.
pub length-from_hex : (hs bs : List ℕ) → from_hex hs ≡ ok (some bs) → 2 * length bs ≡ length hs
length-from_hex hs bs e =
    let (bytes, text) = to_hex-from_hex hs bs e in
    let same : digits bs ≡ map lower hs = ok-inj (sym (to_hex_lem bs bytes) ∙ text) in
    omega (arith, length-digits bs, length-map-lower hs, ap length same)
  where
    ok-inj : ok (digits bs) ≡ ok (map lower hs) → digits bs ≡ map lower hs
    ok-inj p = cc
