-- ===== src/BuildId/Main/Tests.antt =====
-- The search through a file of values (editbuildid/editbuildid.c).

use kernel_stuff.Common.{
  ℕ, ◌^◌, ◌≡◌, refl, inr, false, List, [], ◌∷◌, ◌++◌, arith, replicate, slice,
}
use kernel_stuff.Common.Run.{ok, ◌>>=◌}
use kernel_stuff.Bytes.{little, of_le, to_le}
use kernel_stuff.Bytes.Laws.{IsBytes_of_all, IsBytes-slice}
use kernel_stuff.Posix.{File, IsFile}
use kernel_stuff.Posix.Writes.{Works}
use kernel_stuff.Elf.{ElfInfo}
use kernel_stuff.Elf.Fields.{IsKnown}
use kernel_stuff.Elf.Notes.{Note}
use kernel_stuff.BuildId.Note.{pad4, found}
use kernel_stuff.BuildId.Note.Values.{IsNote, encode_notes}
use kernel_stuff.BuildId.Table.{phdr, shdr}
use kernel_stuff.BuildId.Table.Complete.{Entry, HasNotes, at_pos}
use kernel_stuff.BuildId.Main.{find_build_id, sizeof_ehdr}
use kernel_stuff.BuildId.Main.Complete.{in_file, IsTable, IsIdent, find_build_id-in_file}

-- A big-endian ELF64 file: the header, a program header of another kind, one for the notes, and two
-- notes, the second of them a build ID.
abbrev info : ElfInfo
info = record { endian = 2; bits = 2 }

known : IsKnown info
known = (inr refl, inr refl)

abbrev other_note : Note
other_note = record { name = b'X' ∷ []; type = 3; desc = 1 ∷ 2 ∷ 3 ∷ [] }

abbrev id_note : Note
id_note = record { name = b'G' ∷ b'N' ∷ b'U' ∷ []; type = 3; desc = 0xde ∷ 0xad ∷ 0xbe ∷ 0xef ∷ [] }

abbrev header : List ℕ
header =
    (0x7f ∷ b'E' ∷ b'L' ∷ b'F' ∷ 2 ∷ 2 ∷ [])
    ++ (replicate 33 0 ++ (64 ∷ (replicate 14 0 ++ (0 ∷ 56 ∷ 0 ∷ 2 ∷ replicate 6 0))))

abbrev segment : ℕ → ℕ → ℕ → List ℕ
segment kind offset size =
    (0 ∷ 0 ∷ 0 ∷ kind ∷ replicate 11 0) ++ (offset ∷ (replicate 23 0 ++ (size ∷ replicate 16 0)))

abbrev notes : List ℕ
notes =
    (0 ∷ 0 ∷ 0 ∷ 2 ∷ 0 ∷ 0 ∷ 0 ∷ 3 ∷ 0 ∷ 0 ∷ 0 ∷ 3 ∷ b'X' ∷ 0 ∷ 0 ∷ 0 ∷ 1 ∷ 2 ∷ 3 ∷ 0 ∷ [])
    ++ (0 ∷ 0 ∷ 0 ∷ 4 ∷ 0 ∷ 0 ∷ 0 ∷ 4 ∷ 0 ∷ 0 ∷ 0 ∷ 3 ∷ b'G' ∷ b'N' ∷ b'U' ∷ 0 ∷ 0xde ∷ 0xad ∷ 0xbe
        ∷ 0xef ∷ [])

abbrev elf : File
elf = record {
  bytes = header ++ (segment 1 0 9 ++ (segment 4 176 40 ++ notes));
  pos = 0;
  max_offset = 2 ^ 60;
  read_fails = λ _. false;
  write_fails = λ _. false;
}

elf-IsFile : IsFile elf
elf-IsFile = record {
  content = IsBytes_of_all elf.bytes refl;
  offsets = omega arith;
  size = omega arith;
}

elf-Works : Works elf
elf-Works at = (refl, refl)

abbrev load_segment : Entry
load_segment = record { kind = 1; offset = 0; size = 9; notes = [] }

abbrev notes_segment : Entry
notes_segment = record { kind = 4; offset = 176; size = 40; notes = other_note ∷ id_note ∷ [] }

other-IsNote : IsNote other_note
other-IsNote = record {
  text = (omega arith, tt);
  name_size = omega arith;
  desc_size = omega arith;
  type_size = omega arith;
  desc_bytes = IsBytes_of_all other_note.desc refl;
  id_size = λ id. omega arith;
}

id-IsNote : IsNote id_note
id-IsNote = record {
  text = (omega arith, (omega arith, (omega arith, tt)));
  name_size = omega arith;
  desc_size = omega arith;
  type_size = omega arith;
  desc_bytes = IsBytes_of_all id_note.desc refl;
  id_size = λ id. omega arith;
}

notes-encode : slice elf.bytes 176 40 ≡ encode_notes info (other_note ∷ id_note ∷ [])
unfolding to_le pad4
notes-encode = refl

elf-IsIdent :
    IsIdent little info known elf elf-Works elf-IsFile
      (slice elf.bytes 0 sizeof_ehdr)
      (IsBytes-slice elf.bytes 0 sizeof_ehdr elf-IsFile.content)
elf-IsIdent = record {
  mag0 = refl;
  mag1 = refl;
  mag2 = refl;
  mag3 = refl;
  has_class = refl;
  has_data = refl;
}

notes_segment-HasNotes : HasNotes little info known elf notes_segment
notes_segment-HasNotes = ((omega arith, omega arith), notes-encode, (other-IsNote, (id-IsNote, tt)))

elf-segments :
    IsTable little info known elf elf-Works elf-IsFile
      (slice elf.bytes 0 sizeof_ehdr)
      (IsBytes-slice elf.bytes 0 sizeof_ehdr elf-IsFile.content)
      phdr
      (load_segment ∷ notes_segment ∷ [])
unfolding of_le
elf-segments = record {
  off = 64;
  entsize = 56;
  has_num = refl;
  has_off = refl;
  has_entsize = refl;
  product = omega arith;
  inside = (omega arith, omega arith);
  fit = (
    (omega arith, refl, λ is. absurd (omega (arith, is))),
    ((omega arith, refl, λ is. (refl, refl, notes_segment-HasNotes)), tt),
  );
}

elf-sections :
    IsTable little info known elf elf-Works elf-IsFile
      (slice elf.bytes 0 sizeof_ehdr)
      (IsBytes-slice elf.bytes 0 sizeof_ehdr elf-IsFile.content)
      shdr
      []
unfolding of_le
elf-sections = record {
  off = 0;
  entsize = 0;
  has_num = refl;
  has_off = refl;
  has_entsize = refl;
  product = omega arith;
  inside = (omega arith, omega arith);
  fit = tt;
}

find_build_id-in_file_example :
    (pos' : ℕ) × (find_build_id little elf
      ≡ (in_file (load_segment ∷ notes_segment ∷ []) [] >>= at_pos elf pos'))
find_build_id-in_file_example =
    find_build_id-in_file little info known elf elf-Works elf-IsFile
      (load_segment ∷ notes_segment ∷ []) [] refl (omega arith) elf-IsIdent elf-segments
      elf-sections

-- What that is.
in_file_example :
    in_file (load_segment ∷ notes_segment ∷ []) []
    ≡ ok (
        found (record {
          data_offset = 212;
          bytes_size = 4;
          hex = b'd' ∷ b'e' ∷ b'a' ∷ b'd' ∷ b'b' ∷ b'e' ∷ b'e' ∷ b'f' ∷ [];
        }))
unfolding pad4
in_file_example = refl
