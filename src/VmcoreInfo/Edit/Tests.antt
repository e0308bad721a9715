-- ===== src/VmcoreInfo/Edit/Tests.antt =====
-- The command on a vmcore with two notes and two segments (vmcoreinfo/editvmcoreinfo.c).
use kernel_stuff.Common.{
  ℕ, ◌+◌, ◌*◌, ◌^◌, ◌≡◌, overwrite, refl, false, Option, none, some, List, [], ◌∷◌, ◌++◌, length,
  arith, drop, replicate, slice,
}
use kernel_stuff.Common.Run.{ok}
use kernel_stuff.Bytes.{to_le, of_le}
use kernel_stuff.Bytes.Laws.{IsBytes_of_all}
use kernel_stuff.CString.{strcmp_eq}
use kernel_stuff.Posix.{File, IsFile, seek_set, seek_end, read, write, fread, truncate, sendfile}
use kernel_stuff.VmcoreInfo.{
  sizeof_phdr, SavedElfdata, pad4, note_desc, next_note, end_notes, load, read_newdata,
  find_vmcoreinfo, find_segment, read_notes, read_table, read_header, read_elfdata,
}
use kernel_stuff.VmcoreInfo.Edit.{
  add_diff, add_diff_at, shift_segments, update_table, update_offsets, sendfile_loop, new_note,
  copy_back, put_back, shift_data, edit_vmcore, main,
}
use kernel_stuff.Elf.Notes.{Note}
use kernel_stuff.VmcoreInfo.Notes.{IsNote, note_size, encode_notes}
use kernel_stuff.VmcoreInfo.Complete.{last_place, find_vmcoreinfo-last_place}
use kernel_stuff.VmcoreInfo.Vmcore.{Vmcore, notes_of, segment, content, saved, IsVmcore, IsSmall}
use kernel_stuff.VmcoreInfo.Edit.Offsets.{IsUpdated}
use kernel_stuff.VmcoreInfo.Edit.Encoded.{with_desc}
use kernel_stuff.VmcoreInfo.Edit.Edited.{edited}
use kernel_stuff.VmcoreInfo.Edit.Command.{
  new_desc, offset_of, main-IsVmcore, main-segment, main-read_elfdata,
}

abbrev zeros : ℕ → List ℕ
zeros n = replicate n 0

abbrev header : List ℕ
header =
    (0x7f ∷ b'E' ∷ b'L' ∷ b'F' ∷ 2 ∷ 1 ∷ [])
    ++ (zeros 26 ++ (64 ∷ (zeros 21 ++ (56 ∷ 0 ∷ 2 ∷ 0 ∷ zeros 6))))

abbrev entry : ℕ → ℕ → ℕ → List ℕ
entry type offset size =
    (type ∷ zeros 7) ++ (offset ∷ (zeros 23 ++ (size ∷ (zeros 7 ++ (size ∷ zeros 15)))))

abbrev first : Note
first = record { name = b'X' ∷ []; type = 5; desc = 7 ∷ [] }

abbrev vmcoreinfo_note : Note
vmcoreinfo_note = record {
  name = b'V' ∷ b'M' ∷ b'C' ∷ b'O' ∷ b'R' ∷ b'E' ∷ b'I' ∷ b'N' ∷ b'F' ∷ b'O' ∷ [];
  type = 0;
  desc = 1 ∷ 2 ∷ 3 ∷ [];
}

abbrev core : Vmcore
core = record {
  head = header ++ (entry 4 176 48 ++ entry 1 224 2);
  phoff = 64;
  phnum = 2;
  seg = 0;
  before = first ∷ [];
  vi = vmcoreinfo_note;
  after = [];
  tail = 9 ∷ 9 ∷ [];
}

first-IsNote : IsNote first
first-IsNote = record {
  text = omega arith;
  name_size = omega arith;
  desc_size = omega arith;
  type_size = omega arith;
}

vmcoreinfo_note-IsNote : IsNote vmcoreinfo_note
vmcoreinfo_note-IsNote = record {
  text = omega arith;
  name_size = omega arith;
  desc_size = omega arith;
  type_size = omega arith;
}

core-IsVmcore : IsVmcore core
unfolding of_le to_le pad4
core-IsVmcore = record {
  behind_header = omega arith;
  table_inside = omega arith;
  magic = refl;
  class = refl;
  data_order = refl;
  e_phoff = refl;
  e_phentsize = refl;
  e_phnum = refl;
  e_shentsize = refl;
  seg_inside = omega arith;
  seg_type = refl;
  seg_first = λ j h. elim h [ ];
  seg_offset = refl;
  seg_size = refl;
  all_notes = (first-IsNote, (vmcoreinfo_note-IsNote, tt));
  is_vi = refl;
  others = tt;
}

segment_size : length (segment core) ≡ 48
unfolding to_le pad4
segment_size = refl

core-IsSmall : IsSmall core
core-IsSmall = record { table_size = omega arith; segment_size = omega (arith, segment_size) }

abbrev file_of : List ℕ → ℕ → File
file_of bytes at = record {
  bytes = bytes;
  pos = at;
  max_offset = 2 ^ 60;
  read_fails = λ _. false;
  write_fails = λ _. false;
}

abbrev core_file : File
core_file = file_of (content core) 0

core_size : length (content core) ≡ 226
unfolding to_le pad4
core_size = refl

core_file-IsFile : IsFile core_file
unfolding to_le pad4
core_file-IsFile = record {
  content = IsBytes_of_all (content core) refl;
  offsets = omega arith;
  size = omega (arith, core_size);
}

abbrev data_file : File
data_file = file_of (4 ∷ 5 ∷ 6 ∷ 7 ∷ 8 ∷ []) 0

abbrev opens : List ℕ → Option File
opens [] = some core_file
opens (c ∷ path) = some data_file

-- What the command leaves.
abbrev core' : Vmcore
core' = record core {
  head = header ++ (entry 4 176 52 ++ entry 1 228 2);
  vi = with_desc vmcoreinfo_note (new_desc data_file);
}

edited_size : note_size (with_desc vmcoreinfo_note (new_desc data_file)) ≡ 32
unfolding pad4
edited_size = refl

main-IsVmcore_example :
    (t : List ℕ) × (f : File) × (main opens (some (file_of [] 0)) ([] ∷ (b'n' ∷ []) ∷ [])
      ≡ ok (0, some f))
    × (f.bytes
        ≡ overwrite core.head core.phoff t
          ++ (encode_notes (core.before ++ (with_desc core.vi (new_desc data_file) ∷ core.after))
              ++ core.tail))
    × (length t ≡ sizeof_phdr * core.phnum)
    × IsUpdated (saved core) (length (new_desc data_file)) t
    × IsVmcore (edited core (new_desc data_file) t)
main-IsVmcore_example =
    main-IsVmcore opens (file_of [] 0) data_file core_file [] (b'n' ∷ []) core refl refl refl
      core_file-IsFile (λ _. (refl, refl)) (λ _. (refl, refl)) (λ _. (refl, refl)) (refl, refl) refl
      core-IsVmcore core-IsSmall (omega arith) (omega (arith, edited_size))

run :
    main opens (some (file_of [] 0)) ([] ∷ (b'n' ∷ []) ∷ [])
    ≡ ok (0, some (file_of (content core') 230))
unfolding main edit_vmcore read_newdata read_elfdata read_header read_table find_segment read_notes
    find_vmcoreinfo load end_notes next_note note_desc pad4 update_offsets update_table
    shift_segments add_diff_at add_diff shift_data new_note put_back copy_back sendfile_loop
    strcmp_eq to_le of_le seek_set seek_end read write fread truncate sendfile
run = refl

abbrev left : File
left = file_of (content core') 230

-- The second segment stands at offset 224, and then at 228.
old_offset : offset_of core_file core 1 ≡ 224
unfolding of_le
old_offset = refl

new_offset : offset_of left core 1 ≡ 228
unfolding of_le
new_offset = refl

main-segment_example :
    drop (offset_of left core 1) left.bytes ≡ drop (offset_of core_file core 1) core_file.bytes
main-segment_example =
    main-segment opens (file_of [] 0) data_file core_file [] (b'n' ∷ []) core refl refl refl
      core_file-IsFile (λ _. (refl, refl)) (λ _. (refl, refl)) (λ _. (refl, refl)) (refl, refl) refl
      core-IsVmcore core-IsSmall (omega arith) (omega (arith, edited_size)) left run 1 (omega arith)
      (omega arith) (omega (arith, old_offset, segment_size)) (omega (arith, old_offset, core_size))

left_size : length (content core') ≡ 230
unfolding to_le pad4
left_size = refl

left-IsFile : IsFile (record left { pos = 0 })
unfolding to_le pad4
left-IsFile = record {
  content = IsBytes_of_all (content core') refl;
  offsets = omega arith;
  size = omega (arith, left_size);
}

padded_size : pad4 6 ≡ 8
unfolding pad4
padded_size = refl

main-read_elfdata_example :
    (se : SavedElfdata) × (h : File) × (read_elfdata (record left { pos = 0 }) ≡ ok (some se, h))
    × (se.old_descsz ≡ 6)
    × (slice se.notes (se.vi_note_start + (12 + pad4 11)) se.old_descsz
        ≡ 4 ∷ 5 ∷ 6 ∷ 7 ∷ 8 ∷ 0 ∷ [])
main-read_elfdata_example =
    main-read_elfdata opens (file_of [] 0) data_file core_file [] (b'n' ∷ []) core refl refl refl
      core_file-IsFile (λ _. (refl, refl)) (λ _. (refl, refl)) (λ _. (refl, refl)) (refl, refl) refl
      core-IsVmcore core-IsSmall (omega arith) (omega (arith, edited_size)) left
      (record left { pos = 0 }) run refl refl left-IsFile (λ _. (refl, refl))
      (omega (arith, segment_size, padded_size))

find_vmcoreinfo-last_place_example :
    find_vmcoreinfo (segment core) 49 0 none ≡ ok (last_place 0 (notes_of core) none)
find_vmcoreinfo-last_place_example =
    find_vmcoreinfo-last_place (notes_of core) (segment core) 49 0 none
      (first-IsNote, (vmcoreinfo_note-IsNote, tt)) refl (omega (arith, segment_size)) (omega arith)
