-- ===== src/Phys2Virt/Whole.antt =====
-- The whole program on a core file (elf/phys2virt.c).
use kernel_stuff.Common.{
  ℕ, ◌+◌, ◌*◌, ◌≤◌, ◌<◌, ◌≡◌, refl, sym, ap, ◌∙◌, ◌⊎◌, inl, inr, Bool, true, false, some, List, [],
  ◌∷◌, leb, ◌==◌, ==_iff, if◌then◌else◌, length, arith, get_elem?, get_elem?-of_slice, replicate,
  slice, length-slice, slice-slice,
}
use kernel_stuff.Common.Run.{ok}
use kernel_stuff.Bytes.{Platform, little, big, IsBytes, of_le, of_be}
use kernel_stuff.Bytes.Laws.{IsBytes-slice, bswap-of_le, bswap-of_be}
use kernel_stuff.CString.{peek_byte}
use kernel_stuff.Posix.{File, IsFile, fread}
use kernel_stuff.Phys2Virt.{
  sizeof_ehdr, sizeof_phdr, phoff_at, phentsize_at, phnum_at, vaddr_at, paddr_at, header_field,
  rewrite_table, phys2virt,
}
use kernel_stuff.Phys2Virt.Rewrite.{IsRewritable, rewrite_table-entry, rewrite_table-outside}

-- An integer in the byte order that the header names: 1 stands for little, 2 for big.
abbrev pub of_order : ℕ → List ℕ → ℕ
of_order order bs = if order == 1 then of_le bs else of_be bs

header_field_lem :
    (platform : Platform) (order : ℕ) (hdr : List ℕ) (at size : ℕ) (raw : List ℕ)
    → (order ≡ 1) ⊎ (order ≡ 2)
    → slice hdr at size ≡ raw
    → at + size ≤ length hdr
    → IsBytes raw
    → length raw ≡ size
    → header_field platform order hdr at size ≡ ok (of_order order raw)
unfolding header_field
header_field_lem little order hdr at size raw (inl e) r inside b l =
    let test : leb (at + size) (length hdr) ≡ true = ground arith in rw (test, r, e) refl
header_field_lem little order hdr at size raw (inr e) r inside b l =
    let test : leb (at + size) (length hdr) ≡ true = ground arith in
    rw (test, r, e) (ap ok (bswap-of_le size raw b l))
header_field_lem big order hdr at size raw (inl e) r inside b l =
    let test : leb (at + size) (length hdr) ≡ true = ground arith in
    rw (test, r, e) (ap ok (bswap-of_be size raw b l))
header_field_lem big order hdr at size raw (inr e) r inside b l =
    let test : leb (at + size) (length hdr) ≡ true = ground arith in rw (test, r, e) refl

-- The header of a core file of 64 bits in one of the two byte orders, with the place of its table.
pub record IsCore (f : File) (order phoff phnum : ℕ) : Type 0 where
  pub size : sizeof_ehdr ≤ length f.bytes
  pub ident : slice f.bytes 0 5 ≡ 0x7f ∷ b'E' ∷ b'L' ∷ b'F' ∷ 2 ∷ []
  pub data_order : slice f.bytes 5 1 ≡ order ∷ []
  pub known_order : (order ≡ 1) ⊎ (order ≡ 2)
  pub e_phoff : of_order order (slice f.bytes phoff_at 8) ≡ phoff
  pub e_phnum : of_order order (slice f.bytes phnum_at 2) ≡ phnum
  pub e_phentsize : of_order order (slice f.bytes phentsize_at 2) ≡ sizeof_phdr

module _ (platform : Platform) (zero_it : Bool) (f : File) (order phoff phnum : ℕ) (v : IsFile f)
    (h : IsCore f order phoff phnum) (start : f.pos ≡ 0) (reads : f.read_fails 0 ≡ false) where
  hdr : List ℕ
  hdr = slice f.bytes 0 sizeof_ehdr

  length-hdr : length hdr ≡ sizeof_ehdr
  unfolding hdr
  length-hdr = length-slice f.bytes 0 sizeof_ehdr h.size

  in_hdr : (i n : ℕ) → i + n ≤ sizeof_ehdr → slice hdr i n ≡ slice f.bytes i n
  unfolding hdr
  in_hdr i n le =
      slice-slice f.bytes 0 sizeof_ehdr i n le
      ∙ ap (λ k. slice f.bytes k n) {x = 0 + i} {y = i} (omega arith)

  field_lem :
      (at size x : ℕ)
      → at + size ≤ sizeof_ehdr
      → of_order order (slice f.bytes at size) ≡ x
      → header_field platform order hdr at size ≡ ok x
  field_lem at size x le e =
      header_field_lem platform order hdr at size (slice f.bytes at size) h.known_order
        (in_hdr at size le) (omega (arith, length-hdr)) (IsBytes-slice f.bytes at size v.content)
        (length-slice f.bytes at size (omega (arith, h.size)))
      ∙ ap ok e

  ident_lem :
      (i b : ℕ)
      → i + 1 ≤ 5
      → slice (0x7f ∷ b'E' ∷ b'L' ∷ b'F' ∷ 2 ∷ []) i 1 ≡ b ∷ []
      → get_elem? hdr i ≡ some b
  ident_lem i b le e = get_elem?-of_slice hdr i b (
      in_hdr i 1 (omega arith)
      ∙ sym (
          slice-slice f.bytes 0 5 i 1 le
          ∙ ap (λ k. slice f.bytes k 1) {x = 0 + i} {y = i} (omega arith))
      ∙ ap (λ l. slice l i 1) h.ident
      ∙ e)

  header_lem :
      (g : File)
      → rewrite_table zero_it (record f { pos = sizeof_ehdr }) phoff phnum ≡ ok g
      → phys2virt platform zero_it f ≡ ok g
  unfolding phys2virt fread hdr
  header_lem g e =
      let whole : (length hdr == sizeof_ehdr) ≡ true = (==_iff _ _).1 length-hdr in
      rw
        (
          start,
          reads,
          whole,
          peek_byte,
          ident_lem 0 0x7f (omega arith) refl,
          ident_lem 1 b'E' (omega arith) refl,
          ident_lem 2 b'L' (omega arith) refl,
          ident_lem 3 b'F' (omega arith) refl,
          ident_lem 4 2 (omega arith) refl,
          get_elem?-of_slice hdr 5 order (in_hdr 5 1 (omega arith) ∙ h.data_order),
          field_lem phoff_at 8 phoff (omega arith) h.e_phoff,
          field_lem phnum_at 2 phnum (omega arith) h.e_phnum,
          field_lem phentsize_at 2 sizeof_phdr (omega arith) h.e_phentsize,
        )
        e

-- On a core file of 64 bits in either byte order, on either kind of platform, whose table lies in the
-- file, and where no call fails, the program returns. It keeps the size of the file. An entry `k` of
-- the table has in its virtual address the bytes of its physical address, or zeros if these were asked
-- for, and its members before and behind as before; and `n` bytes at an offset `o` outside of the
-- table are as before.
pub phys2virt_lem :
    (platform : Platform) (zero_it : Bool) (f : File) (order phoff phnum k o n : ℕ)
    → IsFile f
    → IsCore f order phoff phnum
    → f.pos ≡ 0
    → f.read_fails 0 ≡ false
    → IsRewritable f phoff phnum
    → k < phnum
    → (o + n ≤ phoff) ⊎ (phoff + sizeof_phdr * phnum ≤ o)
    → let at = k * sizeof_phdr in
      (g : File) × (phys2virt platform zero_it f ≡ ok g)
      × (length g.bytes ≡ length f.bytes)
      × (slice g.bytes (phoff + (at + vaddr_at)) 8
          ≡ (if zero_it then replicate 8 0 else slice f.bytes (phoff + (at + paddr_at)) 8))
      × (slice g.bytes (phoff + at) vaddr_at ≡ slice f.bytes (phoff + at) vaddr_at)
      × (slice g.bytes (phoff + (at + paddr_at)) 32 ≡ slice f.bytes (phoff + (at + paddr_at)) 32)
      × (slice g.bytes o n ≡ slice f.bytes o n)
phys2virt_lem platform zero_it f order phoff phnum k o n v h start reads r lt outside =
    let f1 : File = record f { pos = sizeof_ehdr } in
    let v1 : IsFile f1 = record { content = v.content; offsets = v.offsets; size = v.size } in
    let r1 : IsRewritable f1 phoff phnum = record {
      inside = r.inside;
      reads = r.reads;
      writes = r.writes;
    } in
    let (g, run, size, vaddr, before, behind) =
      rewrite_table-entry zero_it f1 phoff phnum k v1 r1 lt in
    let (g', run', kept) = rewrite_table-outside zero_it f1 phoff phnum o n v1 r1 outside in
    let same : g ≡ g' = cc in
    (
      g,
      header_lem platform zero_it f order phoff phnum v h start reads g run,
      size,
      vaddr,
      before,
      behind,
      ap (λ (e : File). slice e.bytes o n) same ∙ kept,
    )
