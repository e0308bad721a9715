-- ===== src/Hex.antt =====
-- The hexadecimal text of a build ID (editbuildid/editbuildid.c): `nibble_to_hex`, `hex_to_nibble`,
-- `to_hex`, `from_hex`. A `char` is its byte, a text its bytes without the terminating NUL.
pub mod RoundTrip
pub mod Decode
mod Tests
use kernel_stuff.Common.{
  ℕ, ◌+◌, ◌-◌, ◌*◌, ◌/◌, ◌%◌, Bool, true, false, ◌&&◌, ◌||◌, Option, none, some, List, [], ◌∷◌, ltb,
  leb, ◌==◌, if◌then◌else◌, bit_and, bit_or, length,
}
use kernel_stuff.Common.Run.{Run, ok, stop, assertion, ◌>>=◌, ◌>>◌, require}

-- `input` is unsigned, so `input >= 0` always holds.
unfoldable pub nibble_to_hex : ℕ → Run ℕ
nibble_to_hex input =
    if ltb input 10
    then ok (b'0' + input)
    else if leb 10 input && ltb input 16
    then ok (b'a' + input - 10)
    else stop assertion

-- The value, and `*error` afterwards.
unfoldable pub hex_to_nibble : ℕ → Bool → ℕ × Bool
hex_to_nibble input error =
    if leb b'0' input && leb input b'9'
    then (input - b'0', error)
    else if leb b'a' input && leb input b'f'
    then (input - b'a' + 10, error)
    else if leb b'A' input && leb input b'F'
    then (input - b'A' + 10, error)
    else (0, true)

-- The loop over `data[0..size)`.
unfoldable pub to_hex : List ℕ → Run (List ℕ)
to_hex [] = ok []
to_hex (byte ∷ data_rest) = do
  hi ← nibble_to_hex (bit_and byte 0xF0 / 16)
  lo ← nibble_to_hex (bit_and byte 0xF)
  rest ← to_hex data_rest
  ok (hi ∷ lo ∷ rest)

-- One round of the loop of `from_hex`: `none` is the early `return NULL`.
unfoldable pub hex_pair : ℕ → ℕ → Option ℕ
hex_pair a b =
    let (hi, error) = hex_to_nibble a false in
    let (lo, error') = hex_to_nibble b error in
    if error' then none else some (bit_or (hi * 16 % 256) lo)

abbrev push_byte : ℕ → Option (List ℕ) → Option (List ℕ)
push_byte byte none = none
push_byte byte (some bytes) = some (byte ∷ bytes)

-- The loop, two digits a round. The digits left over past `2 * size` are not read.
unfoldable pub from_hex_loop : List ℕ → Option (List ℕ)
from_hex_loop [] = some []
from_hex_loop (a ∷ []) = some []
from_hex_loop (a ∷ b ∷ rest) =
    let bytes = from_hex_loop rest in
    elim (hex_pair a b) [ none ↦ none | some byte ↦ push_byte byte bytes ]

-- `none` is NULL.
unfoldable pub from_hex : List ℕ → Run (Option (List ℕ))
from_hex hex_data = do require (length hex_data % 2 == 0) assertion; ok (from_hex_loop hex_data)
