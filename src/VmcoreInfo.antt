-- ===== src/VmcoreInfo.antt =====
-- vmcoreinfo/editvmcoreinfo.c: replace the VMCOREINFO note of a vmcore, on a little-endian host.
-- Memory is a list of bytes, a pointer into the block of notes an offset in it. `none` stands for
-- the result -1; allocations succeed, and messages are left out.
pub mod Notes
pub mod Complete
pub mod Vmcore
pub mod Reads
pub mod Reading
pub mod Search
pub mod Edit
mod Tests
use kernel_stuff.Common.{
  ℕ, zero, suc, ◌+◌, ◌*◌, ◌/◌, ◌%◌, ◌^◌, List, [], ◌∷◌, ◌++◌, Bool, true, false, not, ◌&&◌, Option,
  none, some, ltb, ◌==◌, if◌then◌else◌, length,
}
use kernel_stuff.Common.Run.{Run, ok, stop, assertion, out_of_fuel, ◌>>=◌, ◌>>◌, require}
use kernel_stuff.Bytes.{of_le, peek}
use kernel_stuff.CString.{peek_byte, strcmp_eq}
use kernel_stuff.Posix.{File, seek_set, read, fread}

-- `struct saved_elfdata`: of the ELF header what is used, the bytes of the program header table and
-- of the notes; `vi_note` is the note at `vi_note_start`.
pub record SavedElfdata : Type 0 where
  pub e_phoff : ℕ
  pub e_phentsize : ℕ
  pub e_phnum : ℕ
  pub phdr : List ℕ
  pub notes : List ℕ
  pub notes_start : ℕ
  pub notes_len : ℕ
  pub notes_seg : ℕ
  pub vi_note_start : ℕ
  pub vi_note_end : ℕ
  pub old_descsz : ℕ

abbrev pub sizeof_ehdr : ℕ
sizeof_ehdr = 64

abbrev pub sizeof_phdr : ℕ
sizeof_phdr = 56

-- `sizeof(struct elf_notehdr)`, where the name begins.
abbrev pub sizeof_notehdr : ℕ
sizeof_notehdr = 12

unfoldable pub pad4 : ℕ → ℕ
pad4 val = if val % 4 == 0 then val else (val / 4 * 4 + 4) % 2 ^ 64

-- An integer of `size` bytes at an offset.
unfoldable pub load : List ℕ → ℕ → ℕ → Run ℕ
load mem at size = do raw ← peek mem at size; ok (of_le raw)

-- The descriptor of the note at `nhdr`, whose name has `namesz` bytes.
unfoldable pub note_desc : ℕ → ℕ → ℕ
note_desc nhdr namesz = nhdr + sizeof_notehdr + pad4 namesz

unfoldable pub next_note : ℕ → ℕ → ℕ → ℕ
next_note nhdr namesz descsz = nhdr + sizeof_notehdr + (pad4 namesz + pad4 descsz)

-- The block starts at offset 0.
unfoldable pub end_notes : ℕ → ℕ → Bool
end_notes len ptr = if ltb ptr len then false else true

-- `read_newdata` of an open file: its content with a NUL behind it.
unfoldable pub read_newdata : File → Option (List ℕ)
read_newdata f = elim ((fread (record f { pos = 0 }) (length f.bytes)).0) [
  | none ↦ none
  | some content ↦ some (content ++ (0 ∷ []))
]

-- "VMCOREINFO" with its NUL.
abbrev pub vmcoreinfo : List ℕ
vmcoreinfo = b'V' ∷ b'M' ∷ b'C' ∷ b'O' ∷ b'R' ∷ b'E' ∷ b'I' ∷ b'N' ∷ b'F' ∷ b'O' ∷ 0 ∷ []

-- The place of a VMCOREINFO note: `vi_note_start`, `vi_note_end`, `old_descsz`.
abbrev pub Place : Type 0
Place = ℕ × ℕ × ℕ

-- The loop over the notes from `nhdr` on, for as many rounds as the fuel allows. A later
-- VMCOREINFO note takes the place of an earlier one.
unfoldable pub find_vmcoreinfo : List ℕ → ℕ → ℕ → Option Place → Run (Option Place)
find_vmcoreinfo notes zero nhdr seen = stop out_of_fuel
find_vmcoreinfo notes (suc fuel) nhdr seen =
    let round = λ (descsz namesz : ℕ) (hit : Bool).
      find_vmcoreinfo notes fuel (next_note nhdr namesz descsz) (
        if hit
        then some (nhdr, nhdr + sizeof_notehdr + pad4 descsz + pad4 namesz, descsz)
        else seen) in
    if end_notes (length notes) nhdr then ok seen else (do
      same_name ← strcmp_eq vmcoreinfo notes (nhdr + sizeof_notehdr)
      type ← load notes (nhdr + 8) 4
      descsz ← load notes (nhdr + 4) 4
      namesz ← load notes nhdr 4
      round descsz namesz (same_name && type == 0))

abbrev pub pt_note : ℕ
pt_note = 4

-- The loop over the table from entry `i` on, with `rounds` entries left.
unfoldable pub find_segment : List ℕ → ℕ → ℕ → Run (Option ℕ)
find_segment phdr zero i = ok none
find_segment phdr (suc rounds) i =
    let later = find_segment phdr rounds (i + 1) in
    do p_type ← load phdr (i * sizeof_phdr) 4; if p_type == pt_note then ok (some i) else later

-- `read` of `n` bytes that gives all of them.
abbrev pub read_all : File → ℕ → Option (List ℕ) × File
read_all f n =
    let (got, f') = read f n in
    elim got [
      | none ↦ (none, f')
      | some block ↦ if length block == n then (some block, f') else (none, f')
    ]

abbrev pub Saved : Type 0
Saved = Option SavedElfdata × File

-- `read_elfdata` from the notes segment on, whose index is `i`.
unfoldable pub read_notes : File → ℕ → ℕ → List ℕ → ℕ → Run Saved
read_notes fd phoff phnum phdr i = do
  notes_start ← load phdr (i * sizeof_phdr + 8) 8
  notes_len ← load phdr (i * sizeof_phdr + 32) 8
  let (sought, f) = seek_set fd notes_start
  let (got, f') = read_all f notes_len
  if not sought then ok (none, f) else elim got [
    | none ↦ ok (none, f')
    | some notes ↦ do
      place ← find_vmcoreinfo notes (notes_len + 1) 0 none
      elim place [
        | none ↦ ok (none, f')
        | some (start, end, descsz) ↦ ok (
          some (record {
            e_phoff = phoff;
            e_phentsize = sizeof_phdr;
            e_phnum = phnum;
            phdr = phdr;
            notes = notes;
            notes_start = notes_start;
            notes_len = notes_len;
            notes_seg = i;
            vi_note_start = start;
            vi_note_end = end;
            old_descsz = descsz;
          }),
          f',
        )
      ]
  ]

-- `read_elfdata` from the program header table on.
unfoldable pub read_table : File → ℕ → ℕ → Run Saved
read_table fd phoff phnum =
    let (sought, f) = seek_set fd phoff in
    let (got, f') = read_all f (sizeof_phdr * phnum) in
    if not sought then ok (none, f) else elim got [
      | none ↦ ok (none, f')
      | some phdr ↦ do
        segment ← find_segment phdr phnum 0
        elim segment [ none ↦ ok (none, f') | some i ↦ read_notes f' phoff phnum phdr i ]
    ]

-- `read_elfdata` on the header.
unfoldable pub read_header : File → List ℕ → Run Saved
read_header fd ehdr = do
  magic ← load ehdr 0 4
  class ← peek_byte ehdr 4
  data_order ← peek_byte ehdr 5
  phoff ← load ehdr 32 8
  phentsize ← load ehdr 54 2
  phnum ← load ehdr 56 2
  shentsize ← load ehdr 58 2
  let read_on = (do require (phentsize == sizeof_phdr) assertion; read_table fd phoff phnum)
  if not (magic == 0x464c_457f)
      then ok (none, fd)
      else if not (class == 2)
      then ok (none, fd)
      else if not (data_order == 1)
      then ok (none, fd)
      else if not (shentsize == 0)
      then ok (none, fd)
      else read_on

unfoldable pub read_elfdata : File → Run Saved
read_elfdata fd =
    let (got, f) = read_all fd sizeof_ehdr in
    elim got [ none ↦ ok (none, f) | some ehdr ↦ read_header f ehdr ]
