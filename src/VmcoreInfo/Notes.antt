-- ===== src/VmcoreInfo/Notes.antt =====
-- Notes as values, and the bytes that stand for them in a vmcore (vmcoreinfo/editvmcoreinfo.c).
use kernel_stuff.Common.{
  ℕ, ◌+◌, ◌-◌, ◌^◌, ◌≤◌, ◌<◌, ◌≡◌, refl, sym, ap, ◌∙◌, true, List, [], ◌∷◌, ◌++◌, append_assoc, leb,
  length, arith, take, drop, replicate, length-append, length-drop, length-replicate, take-all,
  take-append_le, slice,
}
use kernel_stuff.Common.Run.{ok}
use kernel_stuff.Bytes.{to_le}
use kernel_stuff.Bytes.Laws.{length-to_le, of_le-to_le}
use kernel_stuff.CString.{IsText}
use kernel_stuff.Elf.Notes.{Note, name_field}
use kernel_stuff.VmcoreInfo.{pad4, load}

-- What fits the members of `struct elf_notehdr`.
pub record IsNote (n : Note) : Type 0 where
  pub text : IsText n.name
  pub name_size : length (name_field n) < 2 ^ 32
  pub desc_size : length n.desc < 2 ^ 32
  pub type_size : n.type < 2 ^ 32

abbrev pub AllNotes : List Note → Type 0
AllNotes [] = Unit
AllNotes (n ∷ ns) = IsNote n × AllNotes ns

-- Zeros up to a multiple of 4 bytes.
abbrev pub padding : List ℕ → List ℕ
padding field = replicate (pad4 (length field) - length field) 0

abbrev pub padded : List ℕ → List ℕ
padded field = field ++ padding field

abbrev pub encode : Note → List ℕ
encode n =
    to_le 4 (length (name_field n))
    ++ (to_le 4 (length n.desc) ++ (to_le 4 n.type ++ (padded (name_field n) ++ padded n.desc)))

abbrev pub encode_notes : List Note → List ℕ
encode_notes [] = []
encode_notes (n ∷ ns) = encode n ++ encode_notes ns

pub pad4_ge : (x : ℕ) → x < 2 ^ 63 → x ≤ pad4 x
unfolding pad4
pad4_ge x small = ground arith

pub length-padded :
    (field : List ℕ) → length field < 2 ^ 63 → length (padded field) ≡ pad4 (length field)
length-padded field small = omega (
  arith,
  length-append field (padding field),
  length-replicate {A = ℕ} (pad4 (length field) - length field) 0,
  pad4_ge (length field) small,
)

abbrev pub note_size : Note → ℕ
note_size n = 12 + pad4 (length (name_field n)) + pad4 (length n.desc)

pub length-encode : (n : Note) → IsNote n → length (encode n) ≡ note_size n
length-encode n v = omega (
  arith,
  v.name_size,
  v.desc_size,
  length-append (to_le 4 (length (name_field n)))
      (to_le 4 (length n.desc) ++ (to_le 4 n.type ++ (padded (name_field n) ++ padded n.desc))),
  length-append (to_le 4 (length n.desc))
      (to_le 4 n.type ++ (padded (name_field n) ++ padded n.desc)),
  length-append (to_le 4 n.type) (padded (name_field n) ++ padded n.desc),
  length-append (padded (name_field n)) (padded n.desc),
  length-to_le 4 (length (name_field n)),
  length-to_le 4 (length n.desc),
  length-to_le 4 n.type,
  length-padded (name_field n) (omega (arith, v.name_size)),
  length-padded n.desc (omega (arith, v.desc_size)),
)

pub encode_notes-append :
    (ms ns : List Note) → encode_notes (ms ++ ns) ≡ encode_notes ms ++ encode_notes ns
encode_notes-append [] ns = refl
encode_notes-append (m ∷ ms) ns =
    ap (λ l. encode m ++ l) (encode_notes-append ms ns)
    ∙ sym (append_assoc (encode m) (encode_notes ms) (encode_notes ns))

-- A member of 32 bits that stands behind an offset.
pub load-to_le :
    (mem : List ℕ) (at x : ℕ) (rest : List ℕ)
    → drop at mem ≡ to_le 4 x ++ rest
    → x < 2 ^ 32
    → load mem at 4 ≡ ok x
unfolding load
load-to_le mem at x rest e small =
    let size : length (to_le 4 x) ≡ 4 = length-to_le 4 x in
    let test : leb (at + 4) (length mem) ≡ true =
      ground (arith, size, length-drop at mem, ap length e, length-append (to_le 4 x) rest) in
    let raw : slice mem at 4 ≡ to_le 4 x =
      ap (take 4) e
      ∙ take-append_le 4 (to_le 4 x) rest (omega (arith, size))
      ∙ take-all 4 (to_le 4 x) (omega (arith, size)) in
    rw (test, raw) (ap ok (of_le-to_le 4 x (omega arith)))
