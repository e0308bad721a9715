-- ===== src/VmcoreInfo/Vmcore.antt =====
-- A vmcore whose notes are values, and what `read_elfdata` reads of it (vmcoreinfo/editvmcoreinfo.c).
use kernel_stuff.Common.{ℕ, ◌+◌, ◌*◌, ◌≤◌, ◌<◌, ◌≡◌, ◌≢◌, true, List, [], ◌∷◌, ◌++◌, length, slice}
use kernel_stuff.Bytes.{of_le}
use kernel_stuff.Posix.{max_rw_count}
use kernel_stuff.VmcoreInfo.{SavedElfdata, sizeof_ehdr, sizeof_phdr, pt_note}
use kernel_stuff.Elf.Notes.{Note}
use kernel_stuff.VmcoreInfo.Notes.{AllNotes, encode_notes, note_size}
use kernel_stuff.VmcoreInfo.Complete.{is_vmcoreinfo, OtherNotes}

-- The bytes before the notes segment, with the place of the program header table and the index of
-- the segment in it; the notes, one of them to be replaced; and the bytes behind them.
pub record Vmcore : Type 0 where
  pub head : List ℕ
  pub phoff : ℕ
  pub phnum : ℕ
  pub seg : ℕ
  pub before : List Note
  pub vi : Note
  pub after : List Note
  pub tail : List ℕ

abbrev pub notes_of : Vmcore → List Note
notes_of c = c.before ++ (c.vi ∷ c.after)

abbrev pub segment : Vmcore → List ℕ
segment c = encode_notes (notes_of c)

abbrev pub content : Vmcore → List ℕ
content c = c.head ++ (segment c ++ c.tail)

abbrev pub table : Vmcore → List ℕ
table c = slice c.head c.phoff (sizeof_phdr * c.phnum)

-- What `read_elfdata` saves.
abbrev pub saved : Vmcore → SavedElfdata
saved c = record {
  e_phoff = c.phoff;
  e_phentsize = sizeof_phdr;
  e_phnum = c.phnum;
  phdr = table c;
  notes = segment c;
  notes_start = length c.head;
  notes_len = length (segment c);
  notes_seg = c.seg;
  vi_note_start = length (encode_notes c.before);
  vi_note_end = length (encode_notes c.before) + note_size c.vi;
  old_descsz = length c.vi.desc;
}

-- An ELF file of 64 bits, little endian, without sections; the notes are its first segment of type
-- PT_NOTE, the one to be replaced is the last VMCOREINFO note.
pub record IsVmcore (c : Vmcore) : Type 0 where
  pub behind_header : sizeof_ehdr ≤ c.phoff
  pub table_inside : c.phoff + sizeof_phdr * c.phnum ≤ length c.head
  pub magic : of_le (slice c.head 0 4) ≡ 0x464c_457f
  pub class : slice c.head 4 1 ≡ 2 ∷ []
  pub data_order : slice c.head 5 1 ≡ 1 ∷ []
  pub e_phoff : of_le (slice c.head 32 8) ≡ c.phoff
  pub e_phentsize : of_le (slice c.head 54 2) ≡ sizeof_phdr
  pub e_phnum : of_le (slice c.head 56 2) ≡ c.phnum
  pub e_shentsize : of_le (slice c.head 58 2) ≡ 0
  pub seg_inside : c.seg < c.phnum
  pub seg_type : of_le (slice (table c) (c.seg * sizeof_phdr) 4) ≡ pt_note
  pub seg_first : (j : ℕ) → j < c.seg → of_le (slice (table c) (j * sizeof_phdr) 4) ≢ pt_note
  pub seg_offset : of_le (slice (table c) (c.seg * sizeof_phdr + 8) 8) ≡ length c.head
  pub seg_size : of_le (slice (table c) (c.seg * sizeof_phdr + 32) 8) ≡ length (segment c)
  pub all_notes : AllNotes (notes_of c)
  pub is_vi : is_vmcoreinfo c.vi ≡ true
  pub others : OtherNotes c.after

-- What one `read` transfers.
pub record IsSmall (c : Vmcore) : Type 0 where
  pub table_size : sizeof_phdr * c.phnum ≤ max_rw_count
  pub segment_size : length (segment c) ≤ max_rw_count
