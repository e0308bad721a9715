-- ===== src/VmcoreInfo/Tests.antt =====
-- The program on a small vmcore (vmcoreinfo/editvmcoreinfo.c).
use kernel_stuff.Common.{
  ◌≤◌, ◌<◌, ◌+◌, ◌*◌, ◌⊎◌, none, ℕ, ◌^◌, length, slice, overwrite, ◌≡◌, refl, true, false, Option,
  some, List, [], ◌∷◌, ◌++◌, arith, replicate,
}
use kernel_stuff.Common.Run.{ok, Ends}
use kernel_stuff.VmcoreInfo.Search.{find_vmcoreinfo-Ends}
use kernel_stuff.Bytes.{to_le, of_le}
use kernel_stuff.Bytes.Laws.{IsBytes_of_all}
use kernel_stuff.CString.{strcmp_eq}
use kernel_stuff.Posix.{File, IsFile, seek_set, seek_end, read, write, fread, truncate, sendfile}
use kernel_stuff.VmcoreInfo.{
  SavedElfdata, pad4, note_desc, next_note, end_notes, load, read_newdata, find_vmcoreinfo,
  find_segment, read_notes, read_table, read_header, read_elfdata, vmcoreinfo,
}
use kernel_stuff.VmcoreInfo.Edit.{
  add_diff, add_diff_at, shift_segments, update_table, update_offsets, sendfile_loop, new_note,
  copy_back, put_back, shift_data, edit_vmcore, main,
}
use kernel_stuff.VmcoreInfo.Edit.Moved.{IsApart, moved}
use kernel_stuff.VmcoreInfo.Edit.Sizes.{moved_memsz}
use kernel_stuff.VmcoreInfo.Edit.Offsets.{update_offsets_lem}

abbrev zeros : ℕ → List ℕ
zeros n = replicate n 0

abbrev header : List ℕ
header =
    (0x7f ∷ b'E' ∷ b'L' ∷ b'F' ∷ 2 ∷ 1 ∷ [])
    ++ (zeros 26 ++ (64 ∷ (zeros 21 ++ (56 ∷ 0 ∷ 1 ∷ 0 ∷ zeros 6))))

-- A notes segment of `size` bytes behind the table.
abbrev segment : ℕ → List ℕ
segment size = (4 ∷ zeros 7) ++ (120 ∷ (zeros 23 ++ (size ∷ (zeros 7 ++ (size ∷ zeros 15)))))

-- A note with a descriptor of `descsz` bytes, padding included in `desc`.
abbrev note_with : ℕ → List ℕ → List ℕ
note_with descsz desc = (11 ∷ zeros 3) ++ (descsz ∷ zeros 7) ++ vmcoreinfo ++ (0 ∷ desc)

abbrev old_note : List ℕ
old_note = note_with 3 (1 ∷ 2 ∷ 3 ∷ 0 ∷ [])

abbrev replaced : List ℕ
replaced = note_with 6 (4 ∷ 5 ∷ 6 ∷ 7 ∷ 8 ∷ 0 ∷ 0 ∷ 0 ∷ [])

abbrev file_of : List ℕ → ℕ → File
file_of content at = record {
  bytes = content;
  pos = at;
  max_offset = 2 ^ 60;
  read_fails = λ _. false;
  write_fails = λ _. false;
}

abbrev vmcore : ℕ → List ℕ → List ℕ
vmcore size note = header ++ (segment size ++ (note ++ (9 ∷ 9 ∷ [])))

abbrev newdata : List ℕ
newdata = 4 ∷ 5 ∷ 6 ∷ 7 ∷ 8 ∷ []

abbrev opens : List ℕ → Option File
opens [] = some (file_of (vmcore 28 old_note) 0)
opens (c ∷ path) = some (file_of newdata 0)

-- The sizes of the segment grow by 4, and the note is replaced.
edited :
    main opens (some (file_of [] 0)) ([] ∷ (b'x' ∷ []) ∷ [])
    ≡ ok (0, some (file_of (vmcore 32 replaced) 154))
unfolding main edit_vmcore read_newdata read_elfdata read_header read_table find_segment read_notes
    find_vmcoreinfo load end_notes next_note note_desc pad4 update_offsets update_table
    shift_segments add_diff_at add_diff shift_data new_note put_back copy_back sendfile_loop
    strcmp_eq to_le of_le seek_set seek_end read write fread truncate sendfile
edited = refl

abbrev saved : SavedElfdata
saved = record {
  e_phoff = 64;
  e_phentsize = 56;
  e_phnum = 1;
  phdr = segment 28;
  notes = old_note;
  notes_start = 120;
  notes_len = 28;
  notes_seg = 0;
  vi_note_start = 0;
  vi_note_end = 28;
  old_descsz = 3;
}

find_vmcoreinfo-Ends_example : Ends (find_vmcoreinfo old_note 29 0 none)
find_vmcoreinfo-Ends_example = find_vmcoreinfo-Ends old_note 29 0 none (omega arith) (omega arith)

-- A notes segment and a second one.
abbrev two_segments : SavedElfdata
two_segments = record saved { e_phnum = 2; phdr = segment 28 ++ segment 9; notes_start = 176 }

abbrev two_core : File
two_core = file_of (header ++ (two_segments.phdr ++ old_note)) 0

two_core-IsFile : IsFile two_core
two_core-IsFile = record {
  content = IsBytes_of_all two_core.bytes refl;
  offsets = omega arith;
  size = omega arith;
}

update_offsets_lem_example :
    (t : List ℕ) × (f : File) × (update_offsets two_core two_segments 6 ≡ ok (true, f))
    × (f.bytes ≡ overwrite two_core.bytes 64 t)
    × (length t ≡ length two_segments.phdr)
    × (slice t 32 8 ≡ moved 3 6 (slice two_segments.phdr 32 8))
    × (slice t 40 8 ≡ moved_memsz two_segments 6 (slice two_segments.phdr 40 8))
    × ((j : ℕ)
        → 0 < j
        → j < 2
        → slice t (j * 56 + 8) 8 ≡ moved 3 6 (slice two_segments.phdr (j * 56 + 8) 8))
    × ((a n : ℕ)
        → (a + n ≤ 32) ⊎ (48 ≤ a)
        → IsApart 1 1 a n
        → slice t a n ≡ slice two_segments.phdr a n)
update_offsets_lem_example =
    update_offsets_lem two_core two_segments 6 two_core-IsFile (λ at. (refl, refl)) refl
      (omega arith) (omega arith) (omega arith) (omega arith)

-- The offset of the second segment grows by 4.
two_moved : moved 3 6 (slice two_segments.phdr 64 8) ≡ 124 ∷ zeros 7
unfolding add_diff pad4 to_le of_le
two_moved = refl
