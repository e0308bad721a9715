-- ===== src/Elf.antt =====
-- Reading the structures of <elf.h> in either class and either byte order
-- (editbuildid/editbuildid.c): `struct elfinfo`, `platform_endian`, `getfield`, `getaddr`.
-- Memory is the list of its bytes, a pointer the offset in it.
pub mod Fields
pub mod Notes
mod Tests
use kernel_stuff.Common.{ℕ, ◌+◌, ◌%◌, ◌^◌, List, Bool, true, false, ◌==◌, if◌then◌else◌}
use kernel_stuff.Common.Run.{Run, ok, stop, exit, ◌>>=◌}
use kernel_stuff.Bytes.{Platform, little, big, of_native, bswap, peek}

abbrev pub elfclass32 : ℕ
elfclass32 = 1

abbrev pub elfclass64 : ℕ
elfclass64 = 2

abbrev pub elfdata2lsb : ℕ
elfdata2lsb = 1

abbrev pub elfdata2msb : ℕ
elfdata2msb = 2

-- `struct elfinfo`
pub record ElfInfo : Type 0 where
  pub endian : ℕ
  pub bits : ℕ

abbrev pub platform_endian : Platform → ℕ
platform_endian little = elfdata2lsb
platform_endian big = elfdata2msb

-- A member of a structure: its offset in the Elf64 and in the Elf32 form.
pub record Field : Type 0 where
  pub at64 : ℕ
  pub at32 : ℕ

abbrev field : ℕ → ℕ → Field
field a b = record { at64 = a; at32 = b }

abbrev pub e_phoff : Field
e_phoff = field 32 28

abbrev pub e_shoff : Field
e_shoff = field 40 32

abbrev pub e_phentsize : Field
e_phentsize = field 54 42

abbrev pub e_phnum : Field
e_phnum = field 56 44

abbrev pub e_shentsize : Field
e_shentsize = field 58 46

abbrev pub e_shnum : Field
e_shnum = field 60 48

abbrev pub p_type : Field
p_type = field 0 0

abbrev pub p_offset : Field
p_offset = field 8 4

abbrev pub p_filesz : Field
p_filesz = field 32 16

abbrev pub sh_type : Field
sh_type = field 4 4

abbrev pub sh_offset : Field
sh_offset = field 24 16

abbrev pub sh_size : Field
sh_size = field 32 20

abbrev pub n_namesz : Field
n_namesz = field 0 0

abbrev pub n_descsz : Field
n_descsz = field 4 4

abbrev pub n_type : Field
n_type = field 8 8

module _ (platform : Platform) (info : ElfInfo) where
  -- `if (info->endian != platform_endian()) _result = bswapmethod(_result);`
  abbrev swap_if : ℕ → ℕ → ℕ
  swap_if size result =
      if info.endian == platform_endian platform then result else bswap size result

  -- `getfield`: an integer of `size` bytes in either class.
  unfoldable pub getfield : ℕ → List ℕ → ℕ → Field → Run ℕ
  getfield size mem ptr f = do
    raw ←
        (if info.bits == elfclass64
          then peek mem (ptr + f.at64) size
          else if info.bits == elfclass32
          then peek mem (ptr + f.at32) size
          else stop (exit 1))
    ok (swap_if size (of_native platform raw))

  unfoldable pub getfield16 : List ℕ → ℕ → Field → Run ℕ
  getfield16 = getfield 2

  unfoldable pub getfield32 : List ℕ → ℕ → Field → Run ℕ
  getfield32 = getfield 4

  -- `getaddr`: 8 bytes in the Elf64 form, 4 bytes in the Elf32 form.
  unfoldable pub getaddr : List ℕ → ℕ → Field → Run ℕ
  getaddr mem ptr f =
      if info.bits == elfclass64
      then (do raw ← peek mem (ptr + f.at64) 8; ok (swap_if 8 (of_native platform raw)))
      else if info.bits == elfclass32
      then (do raw ← peek mem (ptr + f.at32) 4; ok (swap_if 4 (of_native platform raw)))
      else stop (exit 1)
