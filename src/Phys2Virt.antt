-- ===== src/Phys2Virt.antt =====
-- elf/phys2virt.c: copy the physical address of each segment of a core file over its virtual
-- address, or clear the virtual address. A failure is the call of `exit` with status 1.
pub mod Table
pub mod Rewrite
pub mod Whole
mod Tests
use kernel_stuff.Common.{
  ℕ, zero, suc, ◌+◌, ◌*◌, List, [], ◌∷◌, Bool, true, false, not, ◌&&◌, Option, none, some, ◌==◌,
  if◌then◌else◌, slice, overwrite, replicate,
}
use kernel_stuff.Common.Run.{Run, ok, stop, exit, ◌>>=◌, ◌>>◌, require}
use kernel_stuff.Bytes.{Platform, of_native, bswap, peek}
use kernel_stuff.CString.{peek_byte}
use kernel_stuff.Posix.{File, seek_set, fread, fwrite}
use kernel_stuff.Elf.{platform_endian, elfclass64}

abbrev pub sizeof_ehdr : ℕ
sizeof_ehdr = 64

abbrev pub sizeof_phdr : ℕ
sizeof_phdr = 56

-- The members that are used: their offsets in `Elf64_Ehdr` and in `Elf64_Phdr`.
abbrev pub phoff_at : ℕ
phoff_at = 32

abbrev pub phentsize_at : ℕ
phentsize_at = 54

abbrev pub phnum_at : ℕ
phnum_at = 56

abbrev pub vaddr_at : ℕ
vaddr_at = 16

abbrev pub paddr_at : ℕ
paddr_at = 24

-- The new bytes of `phdrs[i].p_vaddr`.
unfoldable pub new_vaddr : Bool → List ℕ → ℕ → List ℕ
new_vaddr zero_it phdrs i =
    if zero_it then replicate 8 0 else slice phdrs (i * sizeof_phdr + paddr_at) 8

-- The loop from entry `i` on, with `rounds` entries left.
unfoldable pub set_vaddrs : Bool → ℕ → ℕ → List ℕ → List ℕ
set_vaddrs zero_it zero i phdrs = phdrs
set_vaddrs zero_it (suc rounds) i phdrs =
    set_vaddrs zero_it rounds (i + 1)
      (overwrite phdrs (i * sizeof_phdr + vaddr_at) (new_vaddr zero_it phdrs i))

-- A member of the header, swapped if the file has another byte order than the platform.
unfoldable pub header_field : Platform → ℕ → List ℕ → ℕ → ℕ → Run ℕ
header_field platform data_order hdr at size = do
  raw ← peek hdr at size
  let value = of_native platform raw
  ok (if platform_endian platform == data_order then value else bswap size value)

-- The value of a call, or `exit(EXIT_FAILURE)`.
abbrev pub or_fail {ℓ} : {A : Type ℓ} → Option A → Run A
or_fail none = stop (exit 1)
or_fail (some a) = ok a

-- `phys2virt` from the table on.
unfoldable pub rewrite_table : Bool → File → ℕ → ℕ → Run File
rewrite_table zero_it f phoff phnum = do
  let (sought, f1) = seek_set f phoff
  require sought (exit 1)
  let (got, f2) = fread f1 (sizeof_phdr * phnum)
  phdrs ← or_fail got
  let (again, f3) = seek_set f2 phoff
  require again (exit 1)
  let (written, f4) = fwrite f3 (set_vaddrs zero_it phnum 0 phdrs)
  require written (exit 1)
  ok f4

-- `phys2virt` on an open file: the file that it leaves if it returns `EXIT_SUCCESS`.
unfoldable pub phys2virt : Platform → Bool → File → Run File
phys2virt platform zero_it f = do
  let (got, f1) = fread f sizeof_ehdr
  hdr ← or_fail got
  mag0 ← peek_byte hdr 0
  mag1 ← peek_byte hdr 1
  mag2 ← peek_byte hdr 2
  mag3 ← peek_byte hdr 3
  require (mag0 == 0x7f && mag1 == b'E' && mag2 == b'L' && mag3 == b'F') (exit 1)
  class ← peek_byte hdr 4
  require (class == elfclass64) (exit 1)
  data_order ← peek_byte hdr 5
  phoff ← header_field platform data_order hdr phoff_at 8
  phnum ← header_field platform data_order hdr phnum_at 2
  phentsize ← header_field platform data_order hdr phentsize_at 2
  require (phentsize == sizeof_phdr) (exit 1)
  rewrite_table zero_it f1 phoff phnum

pub data Opt : Type 0 where
  help zero_vaddr invalid : Opt

-- The loop over the options: `zero` afterwards. `help` prints the usage and exits.
unfoldable pub read_opts : List Opt → Bool → Run Bool
read_opts [] zero_it = ok zero_it
read_opts (help ∷ opts) zero_it = stop (exit 0)
read_opts (zero_vaddr ∷ opts) zero_it = read_opts opts true
read_opts (invalid ∷ opts) zero_it = stop (exit 1)

-- `main`, with what `getopt_long` returns, the arguments it leaves, and what `fopen` makes of them.
unfoldable pub main : Platform → (List ℕ → Option File) → List Opt → List (List ℕ) → Run File
main platform opens opts args = do
  zero_it ← read_opts opts false
  elim args [
    | [] ↦ stop (exit 0)
    | filename ∷ others ↦ elim others [
      | [] ↦ do f ← or_fail (opens filename); phys2virt platform zero_it f
      | _ ∷ _ ↦ stop (exit 0)
    ]
  ]
