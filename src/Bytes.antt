-- ===== src/Bytes.antt =====
-- Integers as bytes in memory: what a load gives on either kind of platform, and the byte swaps of
-- <byteswap.h>. A byte is a number below 256.
pub mod Laws
use mathlib.Core.List.{reverse}
use kernel_stuff.Common.{
  ℕ, zero, suc, ◌+◌, ◌*◌, ◌/◌, ◌%◌, ◌<◌, List, [], ◌∷◌, Bool, leb, if◌then◌else◌, slice, length,
}
use kernel_stuff.Common.Run.{Run, ok, stop, out_of_bounds}

abbrev pub IsBytes : List ℕ → Type 0
IsBytes [] = Unit
IsBytes (b ∷ bs) = (b < 256) × IsBytes bs

-- The number whose bytes these are, least significant first.
unfoldable pub of_le : List ℕ → ℕ
of_le [] = 0
of_le (b ∷ bs) = b + 256 * of_le bs

-- The same, most significant first.
abbrev pub of_be : List ℕ → ℕ
of_be bs = of_le (reverse bs)

-- The `n` low bytes of a number, least significant first.
unfoldable pub to_le : ℕ → ℕ → List ℕ
to_le zero x = []
to_le (suc n) x = x % 256 ∷ to_le n (x / 256)

-- `__BYTE_ORDER__` of the platform that the program is compiled for.
pub data Platform : Type 0 where
  little big : Platform

-- An integer in memory, as the platform loads and stores it.
abbrev pub of_native : Platform → List ℕ → ℕ
of_native little bs = of_le bs
of_native big bs = of_be bs

abbrev pub to_native : Platform → ℕ → ℕ → List ℕ
to_native little n x = to_le n x
to_native big n x = reverse (to_le n x)

-- `bswap_16`, `bswap_32`, `bswap_64` at `n` = 2, 4, 8.
unfoldable pub bswap : ℕ → ℕ → ℕ
bswap n x = of_be (to_le n x)

-- The `n` bytes at an offset of a block of memory. A read past its end is undefined.
abbrev pub peek : List ℕ → ℕ → ℕ → Run (List ℕ)
peek mem off n = if leb (off + n) (length mem) then ok (slice mem off n) else stop out_of_bounds
