-- ===== src/Hex/Tests.antt =====
-- The conversions at concrete texts.
use kernel_stuff.Common.{ℕ, ◌≡◌, refl, ◌↔◌, false, none, some, List, [], ◌∷◌, map, arith}
use kernel_stuff.Common.Run.{ok, stop, assertion, ◌>>=◌}
use kernel_stuff.Bytes.{IsBytes}
use kernel_stuff.Hex.{hex_to_nibble, to_hex, hex_pair, from_hex_loop, from_hex}
use kernel_stuff.Hex.RoundTrip.{from_hex-to_hex}
use kernel_stuff.Hex.Decode.{from_hex-none_iff, to_hex-from_hex, lower, all_hex}

abbrev two_bytes : List ℕ
two_bytes = 0xde ∷ 0x07 ∷ []

-- "De07"
abbrev mixed : List ℕ
mixed = b'D' ∷ b'e' ∷ b'0' ∷ b'7' ∷ []

-- "zz"
abbrev not_hex : List ℕ
not_hex = b'z' ∷ b'z' ∷ []

mixed_read : from_hex mixed ≡ ok (some two_bytes)
unfolding from_hex from_hex_loop hex_pair hex_to_nibble
mixed_read = refl

odd_stops : from_hex (b'1' ∷ []) ≡ stop assertion
unfolding from_hex
odd_stops = refl

from_hex-to_hex_example : (to_hex two_bytes >>= from_hex) ≡ ok (some two_bytes)
from_hex-to_hex_example = from_hex-to_hex two_bytes (omega arith)

from_hex-none_iff_example : (from_hex not_hex ≡ ok none) ↔ (all_hex not_hex ≡ false)
from_hex-none_iff_example = from_hex-none_iff not_hex (omega arith)

to_hex-from_hex_example : IsBytes two_bytes × (to_hex two_bytes ≡ ok (map lower mixed))
to_hex-from_hex_example = to_hex-from_hex mixed two_bytes mixed_read
