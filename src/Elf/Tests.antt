-- ===== src/Elf/Tests.antt =====
-- The reads at concrete structures.
use kernel_stuff.Common.{ℕ, ◌≡◌, refl, List, [], ◌∷◌}
use kernel_stuff.Common.Run.{ok}
use kernel_stuff.Bytes.{little, bswap, of_le, to_le}
use kernel_stuff.Elf.{ElfInfo, getfield, n_descsz}

-- A big-endian ELF32 file.
abbrev big32 : ElfInfo
big32 = record { endian = 2; bits = 1 }

abbrev memory : List ℕ
memory = 0 ∷ 0 ∷ 0 ∷ 4 ∷ 0 ∷ 0 ∷ 1 ∷ 20 ∷ 0 ∷ 0 ∷ 0 ∷ 3 ∷ []

swapped : getfield little big32 4 memory 0 n_descsz ≡ ok 276
unfolding getfield bswap of_le to_le
swapped = refl
