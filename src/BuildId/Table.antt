-- ===== src/BuildId/Table.antt =====
-- The program header table and the section header table (editbuildid/editbuildid.c):
-- `find_notes_phdr`, `find_buildid_phdr`, `find_notes_shdr`, `find_buildid_shdr`. The two pairs of
-- functions differ in the members that they read, so they are one pair over a `Table`.
pub mod Found
pub mod Complete
use kernel_stuff.Common.{
  ℕ, zero, suc, ◌+◌, ◌-◌, ◌*◌, ◌^◌, List, Bool, true, false, Option, none, some, ltb, ◌==◌,
  if◌then◌else◌,
}
use kernel_stuff.Common.Run.{
  Run, ok, stop, uninitialised, int_overflow, out_of_fuel, ◌>>=◌, ◌>>◌, require,
}
use kernel_stuff.Bytes.{Platform}
use kernel_stuff.Posix.{File}
use kernel_stuff.Elf.{
  ElfInfo, Field, getfield16, getfield32, getaddr, e_phoff, e_shoff, e_phentsize, e_phnum,
  e_shentsize, e_shnum, p_type, p_offset, p_filesz, sh_type, sh_offset, sh_size,
}
use kernel_stuff.BuildId.Note.{Search, failed, absent, found, fetch_data, find_buildid}

pub record Table : Type 0 where
  pub num : Field
  pub off : Field
  pub entsize : Field
  pub kind : Field
  pub note_kind : ℕ
  pub offset : Field
  pub size : Field

abbrev pub pt_note : ℕ
pt_note = 4

abbrev pub sht_note : ℕ
sht_note = 7

-- The members that the functions ending in `_phdr` read.
abbrev pub phdr : Table
phdr = record {
  num = e_phnum;
  off = e_phoff;
  entsize = e_phentsize;
  kind = p_type;
  note_kind = pt_note;
  offset = p_offset;
  size = p_filesz;
}

-- The members that the functions ending in `_shdr` read.
abbrev pub shdr : Table
shdr = record {
  num = e_shnum;
  off = e_shoff;
  entsize = e_shentsize;
  kind = sh_type;
  note_kind = sht_note;
  offset = sh_offset;
  size = sh_size;
}

-- A product of two `uint16_t`, computed as an `int`.
abbrev pub int_mul : ℕ → ℕ → Run ℕ
int_mul a b = if ltb (a * b) (2 ^ 31) then ok (a * b) else stop int_overflow

module _ (platform : Platform) (info : ElfInfo) (t : Table) where
  -- The loop from entry `i` on, with `rounds` entries left: the index of the first table entry
  -- for notes with its offset and size, or `none` for -1.
  unfoldable pub find_notes : List ℕ → ℕ → ℕ → ℕ → Run (Option (ℕ × ℕ × ℕ))
  find_notes entries entsize zero i = ok none
  find_notes entries entsize (suc rounds) i =
      let later = find_notes entries entsize rounds (i + 1) in
      do
        entry ← int_mul i entsize
        kind ← getfield32 platform info entries entry t.kind
        if kind == t.note_kind
            then (do
              offset ← getaddr platform info entries entry t.offset
              size ← getaddr platform info entries entry t.size
              ok (some (i, offset, size)))
            else later

  -- The `while` loop from `start` on. `rv` is `none` as long as it has not been assigned; when no
  -- entry is left, it is returned.
  unfoldable pub search_table : List ℕ → ℕ → ℕ → ℕ → ℕ → Option Search → File → Run (Search × File)
  search_table entries num entsize zero start rv fd = stop out_of_fuel
  search_table entries num entsize (suc fuel) start rv fd = do
    entry ← find_notes entries entsize (num - start) start
    elim entry [
      | none ↦ elim rv [ none ↦ stop uninitialised | some result ↦ ok (result, fd) ]
      | some (i, offset, size) ↦ do
        (result, fd') ← find_buildid platform fd info offset size
        elim result [
          | absent ↦ search_table entries num entsize fuel (i + 1) (some absent) fd'
          | failed ↦ ok (failed, fd')
          | found b ↦ ok (found b, fd')
        ]
    ]

  -- `ehdr` is the ELF header in memory.
  unfoldable pub find_buildid_in : File → List ℕ → Run (Search × File)
  find_buildid_in fd ehdr = do
    num ← getfield16 platform info ehdr 0 t.num
    off ← getaddr platform info ehdr 0 t.off
    entsize ← getfield16 platform info ehdr 0 t.entsize
    if num == 0 then ok (absent, fd) else (do
      len ← int_mul num entsize
      let (got, fd') = fetch_data fd off len
      elim got [
        | none ↦ ok (failed, fd')
        | some entries ↦ search_table entries num entsize (num + 1) 0 none fd'
      ])

abbrev pub find_notes_phdr : Platform → ElfInfo → List ℕ → ℕ → ℕ → ℕ → Run (Option (ℕ × ℕ × ℕ))
find_notes_phdr platform info = find_notes platform info phdr

abbrev pub find_notes_shdr : Platform → ElfInfo → List ℕ → ℕ → ℕ → ℕ → Run (Option (ℕ × ℕ × ℕ))
find_notes_shdr platform info = find_notes platform info shdr

abbrev pub find_buildid_phdr : Platform → ElfInfo → File → List ℕ → Run (Search × File)
find_buildid_phdr platform info = find_buildid_in platform info phdr

abbrev pub find_buildid_shdr : Platform → ElfInfo → File → List ℕ → Run (Search × File)
find_buildid_shdr platform info = find_buildid_in platform info shdr
