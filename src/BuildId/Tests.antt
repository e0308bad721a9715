-- ===== src/BuildId/Tests.antt =====
-- Runs of editbuildid on a small file, and the theorems at concrete data.
use kernel_stuff.Common.{
  ℕ, zero, suc, ◌^◌, ◌≤◌, ◌≡◌, refl, Bool, true, false, not, ◌&&◌, some, List, [], ◌∷◌, ◌++◌, map,
  ◌==◌, length, arith, get_elem?, replicate, slice, overwrite,
}
use kernel_stuff.Common.Run.{ok, stop, out_of_fuel, Ends}
use kernel_stuff.Bytes.{of_le, to_le, little, bswap}
use kernel_stuff.CString.{strcmp_eq}
use kernel_stuff.Posix.{File, IsFile, seek_set, read}
use kernel_stuff.Elf.{ElfInfo, getfield, getfield16, getfield32, getaddr}
use kernel_stuff.Hex.{to_hex, from_hex, nibble_to_hex, from_hex_loop, hex_pair, hex_to_nibble}
use kernel_stuff.BuildId.Note.{
  pad4, note_desc, next_note, end_notes, max_buildid_size, gnu, BuildidInfo, found, fetch_data,
  take_buildid, note_round, find_note, find_buildid,
}
use kernel_stuff.Posix.Moved.{Moved}
use kernel_stuff.BuildId.Note.Found.{Located}
use kernel_stuff.BuildId.Note.Walk.{find_note-Ends, find_note_oversized, IsBuildidNote}
use kernel_stuff.BuildId.Table.{find_notes, search_table, find_buildid_in}
use kernel_stuff.BuildId.Main.{search_ehdr, find_build_id, ended, edit_file}
use kernel_stuff.Hex.RoundTrip.{digits}
use kernel_stuff.Hex.Decode.{lower}
use kernel_stuff.BuildId.Main.Find.{find_build_id_sound}
use kernel_stuff.BuildId.Main.Edit.{edit_file_new, edit_file_write_fails}
use kernel_stuff.Bytes.Laws.{IsBytes_of_all}

-- A little-endian ELF64 file: the header, one program header, and a note with a 16-byte ID.
abbrev zeros : ℕ → List ℕ
zeros n = replicate n 0

abbrev header : List ℕ
header =
    (0x7f ∷ b'E' ∷ b'L' ∷ b'F' ∷ 2 ∷ 1 ∷ [])
    ++ (zeros 26 ++ (64 ∷ (zeros 21 ++ (56 ∷ 0 ∷ 1 ∷ 0 ∷ zeros 6))))

abbrev segment : List ℕ
segment = (4 ∷ 0 ∷ 0 ∷ 0 ∷ zeros 4) ++ (120 ∷ (zeros 23 ++ (32 ∷ zeros 23)))

abbrev old_id : List ℕ
old_id = 0xde ∷ 0xad ∷ 0xbe ∷ 0xef ∷ (replicate 12 0x11)

abbrev note : List ℕ
note = (4 ∷ 0 ∷ 0 ∷ 0 ∷ 16 ∷ 0 ∷ 0 ∷ 0 ∷ 3 ∷ 0 ∷ 0 ∷ 0 ∷ b'G' ∷ b'N' ∷ b'U' ∷ 0 ∷ []) ++ old_id

abbrev content : List ℕ
content = header ++ (segment ++ note)

abbrev elf : File
elf = record {
  bytes = content;
  pos = 0;
  max_offset = 2 ^ 60;
  read_fails = λ _. false;
  write_fails = λ _. false;
}

elf-IsFile : IsFile elf
elf-IsFile = record {
  content = IsBytes_of_all content refl;
  offsets = omega arith;
  size = omega arith;
}

abbrev old_info : BuildidInfo
old_info = record { data_offset = 136; bytes_size = 16; hex = digits old_id }

found_example : find_build_id little elf ≡ ok (found old_info, record elf { pos = 152 })
unfolding find_build_id search_ehdr find_buildid_in search_table find_notes find_buildid find_note
    note_round take_buildid end_notes next_note note_desc pad4 fetch_data seek_set read getfield
    getfield16 getfield32 getaddr strcmp_eq to_hex nibble_to_hex bswap of_le to_le
found_example = refl

find_build_id_sound_example : Moved elf (record elf { pos = 152 }) × Located content old_info
find_build_id_sound_example = find_build_id_sound little elf elf-IsFile found_example

-- "AB" sixteen times
abbrev new_hex : List ℕ
new_hex = flat (replicate 16 (b'A' ∷ b'B' ∷ []))
  where
    flat : List (List ℕ) → List ℕ
    flat [] = []
    flat (x ∷ xs) = x ++ flat xs

abbrev new_id : List ℕ
new_id = replicate 16 0xab

new_hex_read : from_hex new_hex ≡ ok (some new_id)
unfolding from_hex from_hex_loop hex_pair hex_to_nibble
new_hex_read = refl

edit_file_new_example :
    (f : File) × (edit_file little elf (some new_hex) ≡ ok (ended 0 [] f))
    × (f.bytes ≡ overwrite content 136 new_id)
    × (length f.bytes ≡ length content)
    × (to_hex (slice f.bytes 136 16) ≡ ok (map lower new_hex))
edit_file_new_example =
    edit_file_new little elf elf-IsFile new_hex new_id found_example new_hex_read refl refl

-- The same file on a medium whose writes fail.
abbrev worn : File
worn = record elf { write_fails = λ _. true }

found_worn : find_build_id little worn ≡ ok (found old_info, record worn { pos = 152 })
unfolding find_build_id search_ehdr find_buildid_in search_table find_notes find_buildid find_note
    note_round take_buildid end_notes next_note note_desc pad4 fetch_data seek_set read getfield
    getfield16 getfield32 getaddr strcmp_eq to_hex nibble_to_hex bswap of_le to_le
found_worn = refl

edit_file_write_fails_example :
    (f : File) × (edit_file little worn (some new_hex) ≡ ok (ended 0 [] f)) × (f.bytes ≡ content)
edit_file_write_fails_example =
    edit_file_write_fails little worn
      (record { content = IsBytes_of_all content refl; offsets = omega arith; size = omega arith })
      new_hex new_id found_worn new_hex_read refl refl

abbrev info64 : ElfInfo
info64 = record { endian = 1; bits = 2 }

-- A build ID note with a descriptor of 1024 bytes.
abbrev huge_note : List ℕ
huge_note = 4 ∷ 0 ∷ 0 ∷ 0 ∷ 0 ∷ 4 ∷ 0 ∷ 0 ∷ 3 ∷ 0 ∷ 0 ∷ 0 ∷ b'G' ∷ b'N' ∷ b'U' ∷ 0 ∷ []

huge-IsBuildidNote : IsBuildidNote little info64 huge_note 0 0 1024
unfolding getfield getfield32 strcmp_eq bswap of_le to_le
huge-IsBuildidNote = record {
  namesz = 4;
  has_descsz = refl;
  has_namesz = refl;
  has_type = refl;
  is_gnu = refl;
}

find_note_oversized_example : find_note little info64 huge_note 0 1000 0 ≡ stop out_of_fuel
find_note_oversized_example =
    find_note_oversized little info64 huge_note 0 0 1024 huge-IsBuildidNote (omega arith)
      (omega arith) 1000

-- A note of another owner, "XEN".
abbrev xen_note : List ℕ
xen_note = 4 ∷ 0 ∷ 0 ∷ 0 ∷ 0 ∷ 0 ∷ 0 ∷ 0 ∷ 3 ∷ 0 ∷ 0 ∷ 0 ∷ b'X' ∷ b'E' ∷ b'N' ∷ 0 ∷ []

lacks : ℕ → List ℕ → Bool
lacks c [] = true
lacks c (b ∷ bs) = not (b == c) && lacks c bs

lacks_sound : (c : ℕ) (bs : List ℕ) (i : ℕ) → lacks c bs ≡ true → get_elem? bs i ≡ some c → ⊥
unfolding lacks
lacks_sound c [] i h e = cc
lacks_sound c (b ∷ bs) zero h e = ground arith
lacks_sound c (b ∷ bs) (suc i) h e = lacks_sound c bs i (ground arith) e

strcmp_first :
    (mem : List ℕ) (off : ℕ) → strcmp_eq gnu mem off ≡ ok true → get_elem? mem off ≡ some b'G'
unfolding strcmp_eq
strcmp_first mem off e = ground arith

xen-sized :
    (nhdr descsz : ℕ)
    → IsBuildidNote little info64 xen_note 0 nhdr descsz
    → descsz ≤ max_buildid_size
unfolding lacks
xen-sized nhdr descsz v =
    absurd (lacks_sound b'G' xen_note _ refl (strcmp_first xen_note _ v.is_gnu))

find_note-Ends_example : Ends (find_note little info64 xen_note 0 17 0)
find_note-Ends_example =
    find_note-Ends little info64 xen_note 0 xen-sized 17 0 (omega arith) (omega arith)
