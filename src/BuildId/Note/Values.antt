-- ===== src/BuildId/Note/Values.antt =====
-- Notes as values, and the bytes that stand for them in a file of either byte order
-- (editbuildid/editbuildid.c).
use kernel_stuff.Common.{
  ℕ, ◌+◌, ◌-◌, ◌^◌, ◌≤◌, ◌<◌, ◌≡◌, ap, ◌∙◌, inl, inr, Bool, true, ◌&&◌, List, [], ◌∷◌, ◌++◌, leb,
  ◌==◌, if◌then◌else◌, Bool-cases, length, arith, take, drop, replicate, length-append, length-drop,
  length-replicate, take-all, take-append_le, slice,
}
use mathlib.Core.List.{reverse, reverse-reverse}
use kernel_stuff.Common.Run.{ok}
use kernel_stuff.Bytes.{Platform, IsBytes, to_le}
use kernel_stuff.Bytes.Laws.{length-to_le, length-reverse, of_le-to_le}
use kernel_stuff.CString.{IsText, same_text}
use kernel_stuff.Elf.{ElfInfo, Field, getfield32, elfdata2lsb}
use kernel_stuff.Elf.Fields.{IsKnown, decode, offset_of, getfield-eq-member}
use kernel_stuff.Elf.Notes.{Note, name_field}
use kernel_stuff.BuildId.Note.{pad4, nt_gnu_build_id, max_buildid_size}

-- "GNU"
abbrev pub gnu_text : List ℕ
gnu_text = b'G' ∷ b'N' ∷ b'U' ∷ []

abbrev pub is_buildid : Note → Bool
is_buildid n = same_text gnu_text n.name && n.type == nt_gnu_build_id

-- Sizes of 16 bits, and a build ID that is not too large.
pub record IsNote (n : Note) : Type 0 where
  pub text : IsText n.name
  pub name_size : length (name_field n) < 2 ^ 16
  pub desc_size : length n.desc < 2 ^ 16
  pub type_size : n.type < 2 ^ 32
  pub desc_bytes : IsBytes n.desc
  pub id_size : is_buildid n ≡ true → length n.desc ≤ max_buildid_size

abbrev pub AllNotes : List Note → Type 0
AllNotes [] = Unit
AllNotes (n ∷ ns) = IsNote n × AllNotes ns

-- An integer of 32 bits in the file's byte order.
abbrev pub word_of : ElfInfo → ℕ → List ℕ
word_of info x = if info.endian == elfdata2lsb then to_le 4 x else reverse (to_le 4 x)

abbrev pub padding : List ℕ → List ℕ
padding field = replicate (pad4 (length field) - length field) 0

abbrev pub padded : List ℕ → List ℕ
padded field = field ++ padding field

abbrev pub encode : ElfInfo → Note → List ℕ
encode info n =
    word_of info (length (name_field n))
    ++ (word_of info (length n.desc)
        ++ (word_of info n.type ++ (padded (name_field n) ++ padded n.desc)))

abbrev pub encode_notes : ElfInfo → List Note → List ℕ
encode_notes info [] = []
encode_notes info (n ∷ ns) = encode info n ++ encode_notes info ns

abbrev pub note_size : Note → ℕ
note_size n = 12 + pad4 (length (name_field n)) + pad4 (length n.desc)

pad4_ge : (x : ℕ) → x < 2 ^ 16 → x ≤ pad4 x
unfolding pad4
pad4_ge x small = ground arith

pub length-padded :
    (field : List ℕ) → length field < 2 ^ 16 → length (padded field) ≡ pad4 (length field)
length-padded field small = omega (
  arith,
  length-append field (padding field),
  length-replicate {A = ℕ} (pad4 (length field) - length field) 0,
  pad4_ge (length field) small,
)

pub length-word_of : (info : ElfInfo) (x : ℕ) → length (word_of info x) ≡ 4
length-word_of info x = elim (Bool-cases (info.endian == elfdata2lsb)) [
  | inl lsb ↦ rw lsb (length-to_le 4 x)
  | inr msb ↦ rw msb (length-reverse (to_le 4 x) ∙ length-to_le 4 x)
]

decode-word_of : (info : ElfInfo) (x : ℕ) → x < 2 ^ 32 → decode info (word_of info x) ≡ x
decode-word_of info x small = elim (Bool-cases (info.endian == elfdata2lsb)) [
  | inl lsb ↦ rw lsb (of_le-to_le 4 x (omega arith))
  | inr msb ↦ rw (msb, reverse-reverse) (of_le-to_le 4 x (omega arith))
]

pub length-encode : (info : ElfInfo) (n : Note) → IsNote n → length (encode info n) ≡ note_size n
length-encode info n v = omega (
  arith,
  v.name_size,
  v.desc_size,
  length-append (word_of info (length (name_field n))) (
      word_of info (length n.desc)
      ++ (word_of info n.type ++ (padded (name_field n) ++ padded n.desc))),
  length-append (word_of info (length n.desc))
      (word_of info n.type ++ (padded (name_field n) ++ padded n.desc)),
  length-append (word_of info n.type) (padded (name_field n) ++ padded n.desc),
  length-append (padded (name_field n)) (padded n.desc),
  length-word_of info (length (name_field n)),
  length-word_of info (length n.desc),
  length-word_of info n.type,
  length-padded (name_field n) v.name_size,
  length-padded n.desc v.desc_size,
)

-- A member of 32 bits that stands behind an offset, at the same place in either class.
pub getfield32-word_of :
    (platform : Platform) (info : ElfInfo) (mem : List ℕ) (at off x : ℕ) (f : Field) (rest : List ℕ)
    → IsKnown info
    → IsBytes mem
    → offset_of info f ≡ off
    → drop (at + off) mem ≡ word_of info x ++ rest
    → x < 2 ^ 32
    → getfield32 platform info mem at f ≡ ok x
unfolding getfield32
getfield32-word_of platform info mem at off x f rest known bytes place e small =
    let size : length (word_of info x) ≡ 4 = length-word_of info x in
    let test : leb (at + off + 4) (length mem) ≡ true =
      ground (
        arith,
        size,
        length-drop (at + off) mem,
        ap length e,
        length-append (word_of info x) rest,
      ) in
    let raw : slice mem (at + off) 4 ≡ word_of info x =
      ap (take 4) e
      ∙ take-append_le 4 (word_of info x) rest (omega (arith, size))
      ∙ take-all 4 (word_of info x) (omega (arith, size)) in
    getfield-eq-member platform info 4 mem at f known bytes
    ∙ rw (place, test, raw) (ap ok (decode-word_of info x small))
