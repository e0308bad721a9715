-- ===== src/VmcoreInfo/Complete.antt =====
-- The search through notes that are given as values (vmcoreinfo/editvmcoreinfo.c).
use kernel_stuff.Common.{
  ℕ, zero, suc, ◌+◌, ◌-◌, ◌≤◌, ◌<◌, ◌≡◌, refl, ap, ◌∙◌, Bool, true, false, ◌&&◌, Option, some, List,
  [], ◌∷◌, ◌++◌, append_assoc, ◌==◌, if◌then◌else◌, length, arith, drop-past, take, drop,
  length-append, length-drop, take-all, take-append_le, slice,
}
use kernel_stuff.Common.Run.{ok}
use kernel_stuff.Bytes.{to_le}
use kernel_stuff.Bytes.Laws.{length-to_le}
use kernel_stuff.CString.{same_text, strcmp_eq, strcmp_eq-same_text}
use kernel_stuff.VmcoreInfo.{
  sizeof_notehdr, pad4, load, next_note, end_notes, vmcoreinfo, Place, find_vmcoreinfo,
}
use kernel_stuff.Elf.Notes.{Note, name_field}
use kernel_stuff.VmcoreInfo.Notes.{
  IsNote, AllNotes, padding, padded, encode, encode_notes, length-padded, note_size, length-encode,
  load-to_le,
}

-- "VMCOREINFO"
abbrev pub vmcoreinfo_text : List ℕ
vmcoreinfo_text = b'V' ∷ b'M' ∷ b'C' ∷ b'O' ∷ b'R' ∷ b'E' ∷ b'I' ∷ b'N' ∷ b'F' ∷ b'O' ∷ []

abbrev pub is_vmcoreinfo : Note → Bool
is_vmcoreinfo n = same_text vmcoreinfo_text n.name && n.type == 0

abbrev pub place_of : ℕ → Note → Place
place_of at n = (at, at + note_size n, length n.desc)

-- The last VMCOREINFO note of notes from an offset on, or else what was seen before.
abbrev pub last_place : ℕ → List Note → Option Place → Option Place
last_place at [] seen = seen
last_place at (n ∷ ns) seen =
    last_place (at + note_size n) ns (if is_vmcoreinfo n then some (place_of at n) else seen)

-- The members of a note that stands at an offset, before `rest`.
module _ (mem : List ℕ) (at : ℕ) (n : Note) (rest : List ℕ) (v : IsNote n)
    (here : drop at mem ≡ encode n ++ rest) where
  name_on : List ℕ
  name_on = padded (name_field n) ++ (padded n.desc ++ rest)

  fields :
      drop at mem
      ≡ to_le 4 (length (name_field n))
        ++ (to_le 4 (length n.desc)
            ++ (to_le 4 n.type ++ (padded (name_field n) ++ (padded n.desc ++ rest))))
  fields = here ∙ simp append_assoc

  pub namesz_lem : load mem at 4 ≡ ok (length (name_field n))
  namesz_lem = load-to_le mem at _ _ fields v.name_size

  after_namesz :
      drop (at + 4) mem
      ≡ to_le 4 (length n.desc)
        ++ (to_le 4 n.type ++ (padded (name_field n) ++ (padded n.desc ++ rest)))
  after_namesz = drop-past at 4 (at + 4) mem _ _ fields (length-to_le 4 _) refl

  pub descsz_lem : load mem (at + 4) 4 ≡ ok (length n.desc)
  descsz_lem = load-to_le mem (at + 4) _ _ after_namesz v.desc_size

  after_descsz :
      drop (at + 8) mem ≡ to_le 4 n.type ++ (padded (name_field n) ++ (padded n.desc ++ rest))
  after_descsz = drop-past (at + 4) 4 (at + 8) mem _ _ after_namesz (length-to_le 4 _) (omega arith)

  pub type_lem : load mem (at + 8) 4 ≡ ok n.type
  type_lem = load-to_le mem (at + 8) _ _ after_descsz v.type_size

  pub from_name : drop (at + 12) mem ≡ padded (name_field n) ++ (padded n.desc ++ rest)
  from_name = drop-past (at + 8) 4 (at + 12) mem _ _ after_descsz (length-to_le 4 _) (omega arith)

  pub name_lem : strcmp_eq vmcoreinfo mem (at + 12) ≡ ok (same_text vmcoreinfo_text n.name)
  name_lem =
      strcmp_eq-same_text vmcoreinfo_text n.name (padding (name_field n) ++ (padded n.desc ++ rest))
        mem (at + 12) (omega arith) v.text (from_name ∙ simp append_assoc)

  pub desc_lem : slice mem (at + (12 + pad4 (length (name_field n)))) (length n.desc) ≡ n.desc
  desc_lem =
      ap (take (length n.desc)) (
        drop-past (at + 12) (pad4 (length (name_field n))) _ mem (padded (name_field n))
          (padded n.desc ++ rest) from_name
          (length-padded (name_field n) (omega (arith, v.name_size))) (omega arith)
        ∙ append_assoc n.desc (padding n.desc) rest)
      ∙ take-append_le (length n.desc) n.desc (padding n.desc ++ rest) (omega arith)
      ∙ take-all (length n.desc) n.desc (omega arith)

  pub after_note : drop (at + note_size n) mem ≡ rest
  after_note =
      drop-past at (note_size n) (at + note_size n) mem (encode n) rest here (length-encode n v)
        refl

end_of : (len ptr : ℕ) → len ≤ ptr → end_notes len ptr ≡ true
unfolding end_notes
end_of len ptr h = ground arith

more_of : (len ptr : ℕ) → ptr < len → end_notes len ptr ≡ false
unfolding end_notes
more_of len ptr h = ground arith

next_note_lem :
    (at : ℕ) (n : Note) → next_note at (length (name_field n)) (length n.desc) ≡ at + note_size n
unfolding next_note
next_note_lem at n = omega arith

-- With enough fuel the search gives the last VMCOREINFO note.
pub find_vmcoreinfo-last_place :
    (ns : List Note) (mem : List ℕ) (fuel at : ℕ) (seen : Option Place)
    → AllNotes ns
    → drop at mem ≡ encode_notes ns
    → length (encode_notes ns) < fuel
    → at ≤ length mem
    → find_vmcoreinfo mem fuel at seen ≡ ok (last_place at ns seen)
unfolding find_vmcoreinfo
find_vmcoreinfo-last_place ns mem zero at seen v here enough inside = absurd (omega arith)
find_vmcoreinfo-last_place [] mem (suc fuel) at seen v here enough inside =
    rw (end_of (length mem) at (omega (arith, ap length here, length-drop at mem))) refl
find_vmcoreinfo-last_place (n ∷ ns) mem (suc fuel) at seen (v, vs) here enough inside =
    let rest = encode_notes ns in
    let size : length (encode n ++ rest) ≡ note_size n + length rest =
      omega (arith, length-append (encode n) rest, length-encode n v) in
    let left : length (drop at mem) ≡ length mem - at = length-drop at mem in
    let more : end_notes (length mem) at ≡ false =
      more_of (length mem) at (omega (arith, size, left, ap length here)) in
    let end : at + sizeof_notehdr + pad4 (length n.desc) + pad4 (length (name_field n))
        ≡ at + note_size n =
      omega arith in
    rw
      (
        more,
        name_lem mem at n rest v here,
        type_lem mem at n rest v here,
        descsz_lem mem at n rest v here,
        namesz_lem mem at n rest v here,
        next_note_lem at n,
        end,
      )
      (find_vmcoreinfo-last_place ns mem fuel (at + note_size n)
        (if is_vmcoreinfo n then some (place_of at n) else seen) vs
        (after_note mem at n rest v here) (omega (arith, size))
        (omega (arith, size, left, ap length here)))

-- None of them is a VMCOREINFO note.
abbrev pub OtherNotes : List Note → Type 0
OtherNotes [] = Unit
OtherNotes (n ∷ ns) = (is_vmcoreinfo n ≡ false) × OtherNotes ns

last_place-OtherNotes :
    (at : ℕ) (ns : List Note) (seen : Option Place) → OtherNotes ns → last_place at ns seen ≡ seen
last_place-OtherNotes at [] seen others = refl
last_place-OtherNotes at (n ∷ ns) seen (other, others) =
    rw other (last_place-OtherNotes (at + note_size n) ns seen others)

-- The last VMCOREINFO note is behind all the notes before it.
pub last_place-middle :
    (at : ℕ) (before : List Note) (vi : Note) (after : List Note) (seen : Option Place)
    → AllNotes before
    → is_vmcoreinfo vi ≡ true
    → OtherNotes after
    → last_place at (before ++ (vi ∷ after)) seen
      ≡ some (place_of (at + length (encode_notes before)) vi)
last_place-middle at [] vi after seen v here others =
    rw (here, last_place)
      (last_place-OtherNotes (at + note_size vi) after (some (place_of at vi)) others
        ∙ ap (λ k. some (place_of k vi)) {x = at} {y = at + 0} (omega arith))
last_place-middle at (n ∷ before) vi after seen (v, vs) here others =
    last_place-middle (at + note_size n) before vi after
      (if is_vmcoreinfo n then some (place_of at n) else seen) vs here others
    ∙ ap (λ k. some (place_of k vi)) {x = at + note_size n + length (encode_notes before)}
        {y = at + length (encode_notes (n ∷ before))}
        (omega (arith, length-append (encode n) (encode_notes before), length-encode n v))
