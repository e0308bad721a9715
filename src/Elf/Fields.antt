-- ===== src/Elf/Fields.antt =====
-- What `getfield` and `getaddr` read (editbuildid/editbuildid.c).
use kernel_stuff.Common.{
  ℕ, ◌+◌, ◌≡◌, ap, ◌⊎◌, inl, inr, List, leb, leb→le, ◌==◌, if◌then◌else◌, length, arith, Bool-cases,
  slice, length-slice,
}
use kernel_stuff.Common.Run.{Run, ok, stop, out_of_bounds, ◌>>=◌, Ends}
use kernel_stuff.Bytes.{IsBytes, of_le, of_be, Platform, little, big, of_native, peek}
use kernel_stuff.Bytes.Laws.{IsBytes-slice, bswap-of_le, bswap-of_be}
use kernel_stuff.Elf.{ElfInfo, Field, swap_if, getfield, getaddr, elfclass64, elfdata2lsb}

-- The class and the data encoding are ones that <elf.h> defines.
abbrev pub IsKnown : ElfInfo → Type 0
IsKnown info = ((info.bits ≡ 1) ⊎ (info.bits ≡ 2)) × ((info.endian ≡ 1) ⊎ (info.endian ≡ 2))

-- The integer that bytes of the file stand for, by its data encoding alone.
abbrev pub decode : ElfInfo → List ℕ → ℕ
decode info bs = if info.endian == elfdata2lsb then of_le bs else of_be bs

-- Where a member lies, by the class of the file.
abbrev pub offset_of : ElfInfo → Field → ℕ
offset_of info f = if info.bits == elfclass64 then f.at64 else f.at32

abbrev pub addr_size : ElfInfo → ℕ
addr_size info = if info.bits == elfclass64 then 8 else 4

-- A read of a member of `size` bytes of a structure, in words of the file only.
abbrev pub member : ElfInfo → ℕ → List ℕ → ℕ → Field → Run ℕ
member info size mem ptr f =
    if leb (ptr + offset_of info f + size) (length mem)
    then ok (decode info (slice mem (ptr + offset_of info f) size))
    else stop out_of_bounds

swap_if_lem :
    (p : Platform) (info : ElfInfo) (size : ℕ) (bs : List ℕ)
    → IsKnown info
    → IsBytes bs
    → length bs ≡ size
    → swap_if p info size (of_native p bs) ≡ decode info bs
swap_if_lem little info size bs (b, inl e) h l = ground arith
swap_if_lem little info size bs (b, inr e) h l = ground (arith, bswap-of_le size bs h l)
swap_if_lem big info size bs (b, inl e) h l = ground (arith, bswap-of_be size bs h l)
swap_if_lem big info size bs (b, inr e) h l = ground arith

peek-decode :
    (p : Platform) (info : ElfInfo) (size : ℕ) (mem : List ℕ) (off : ℕ)
    → IsKnown info
    → IsBytes mem
    → (peek mem off size >>= (λ raw. ok (swap_if p info size (of_native p raw)))) ≡ (
        if leb (off + size) (length mem)
        then ok (decode info (slice mem off size))
        else stop out_of_bounds)
peek-decode p info size mem off k h = elim (Bool-cases (leb (off + size) (length mem))) [
  | inl fits ↦ rw fits (
      ap ok (
        swap_if_lem p info size (slice mem off size) k (IsBytes-slice mem off size h)
          (length-slice mem off size (leb→le _ _ fits))))
  | inr past ↦ rw past
]

-- On any platform `getfield` gives the integer that the bytes of the member stand for in the
-- file's data encoding, at the member's place in the file's class; a member that does not lie in
-- the memory is a read out of bounds.
pub getfield-eq-member :
    (p : Platform) (info : ElfInfo) (size : ℕ) (mem : List ℕ) (ptr : ℕ) (f : Field)
    → IsKnown info
    → IsBytes mem
    → getfield p info size mem ptr f ≡ member info size mem ptr f
unfolding getfield
getfield-eq-member p info size mem ptr f (inl b, e) h =
    rw b (peek-decode p info size mem (ptr + f.at32) (inl b, e) h)
getfield-eq-member p info size mem ptr f (inr b, e) h =
    rw b (peek-decode p info size mem (ptr + f.at64) (inr b, e) h)

-- The same of `getaddr`, whose member has 8 bytes in the Elf64 form and 4 in the Elf32 form.
pub getaddr-eq-member :
    (p : Platform) (info : ElfInfo) (mem : List ℕ) (ptr : ℕ) (f : Field)
    → IsKnown info
    → IsBytes mem
    → getaddr p info mem ptr f ≡ member info (addr_size info) mem ptr f
unfolding getaddr
getaddr-eq-member p info mem ptr f (inl b, e) h =
    rw b (peek-decode p info 4 mem (ptr + f.at32) (inl b, e) h)
getaddr-eq-member p info mem ptr f (inr b, e) h =
    rw b (peek-decode p info 8 mem (ptr + f.at64) (inr b, e) h)

-- Neither reads in a loop.
pub getfield-Ends :
    (p : Platform) (info : ElfInfo) (size : ℕ) (mem : List ℕ) (ptr : ℕ) (f : Field)
    → Ends (getfield p info size mem ptr f)
unfolding getfield
getfield-Ends p info size mem ptr f e = ground arith

pub getaddr-Ends :
    (p : Platform) (info : ElfInfo) (mem : List ℕ) (ptr : ℕ) (f : Field)
    → Ends (getaddr p info mem ptr f)
unfolding getaddr
getaddr-Ends p info mem ptr f e = ground arith
