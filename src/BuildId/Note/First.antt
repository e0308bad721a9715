-- ===== src/BuildId/Note/First.antt =====
-- The search through notes that are given as values (editbuildid/editbuildid.c).
use kernel_stuff.Common.{
  ℕ, zero, suc, ◌+◌, ◌-◌, ◌%◌, ◌^◌, ◌≤◌, ◌<◌, ◌≡◌, refl, ap, ◌∙◌, inl, inr, true, false, List, [],
  ◌∷◌, ◌++◌, append_assoc, leb, le→leb, ltb, ◌==◌, if◌then◌else◌, Bool-cases, length, arith, take,
  drop, drop-past, length-append, length-drop, take-all, take-append_le, slice,
}
use kernel_stuff.Common.Run.{ok}
use kernel_stuff.Bytes.{Platform, IsBytes, peek}
use kernel_stuff.CString.{same_text, strcmp_eq, strcmp_eq-same_text}
use kernel_stuff.Elf.{ElfInfo, Field, getfield32, n_namesz, n_descsz, n_type, elfclass64}
use kernel_stuff.Elf.Fields.{IsKnown, offset_of}
use kernel_stuff.Hex.RoundTrip.{digits, to_hex_lem}
use kernel_stuff.Elf.Notes.{Note, name_field}
use kernel_stuff.BuildId.Note.{
  pad4, gnu, max_buildid_size, BuildidInfo, Search, absent, found, note_desc, next_note, end_notes,
  give, next, take_buildid, note_round, find_note,
}
use kernel_stuff.BuildId.Note.Values.{
  gnu_text, is_buildid, IsNote, AllNotes, word_of, padding, padded, encode, encode_notes, note_size,
  length-encode, length-word_of, length-padded, getfield32-word_of,
}
use kernel_stuff.BuildId.Note.Walk.{find_note_give, find_note_next, find_note_last}

-- What is reported of a note at an offset of a block that begins at `offset` in the file.
abbrev pub report : ℕ → ℕ → Note → BuildidInfo
report offset at n = record {
  data_offset = (offset + (at + 12 + pad4 (length (name_field n)))) % 2 ^ 64;
  bytes_size = length n.desc;
  hex = digits n.desc;
}

-- The first build ID note of notes from an offset on.
abbrev pub first_id : ℕ → ℕ → List Note → Search
first_id offset at [] = absent
first_id offset at (n ∷ ns) =
    if is_buildid n then found (report offset at n) else first_id offset (at + note_size n) ns

same_place : (info : ElfInfo) (f : Field) → f.at64 ≡ f.at32 → offset_of info f ≡ f.at32
same_place info f e = elim (Bool-cases (info.bits == elfclass64)) [
  | inl wide ↦ rw wide e
  | inr narrow ↦ rw narrow refl
]

module _ (platform : Platform) (info : ElfInfo) (mem : List ℕ) (known : IsKnown info)
    (bytes : IsBytes mem) where
  -- The members of a note that stands at an offset, before `rest`.
  module _ (at : ℕ) (n : Note) (rest : List ℕ) (v : IsNote n)
      (here : drop at mem ≡ encode info n ++ rest) where
    fields :
        drop (at + 0) mem
        ≡ word_of info (length (name_field n))
          ++ (word_of info (length n.desc)
              ++ (word_of info n.type ++ (padded (name_field n) ++ (padded n.desc ++ rest))))
    fields = ap (λ k. drop k mem) {x = at + 0} {y = at} (omega arith) ∙ here ∙ simp append_assoc

    namesz_lem : getfield32 platform info mem at n_namesz ≡ ok (length (name_field n))
    namesz_lem =
        getfield32-word_of platform info mem at 0 _ n_namesz _ known bytes
          (same_place info n_namesz refl) fields (omega (arith, v.name_size))

    after_namesz :
        drop (at + 4) mem
        ≡ word_of info (length n.desc)
          ++ (word_of info n.type ++ (padded (name_field n) ++ (padded n.desc ++ rest)))
    after_namesz =
        drop-past (at + 0) 4 (at + 4) mem _ _ fields (length-word_of info _) (omega arith)

    descsz_lem : getfield32 platform info mem at n_descsz ≡ ok (length n.desc)
    descsz_lem =
        getfield32-word_of platform info mem at 4 _ n_descsz _ known bytes
          (same_place info n_descsz refl) after_namesz (omega (arith, v.desc_size))

    after_descsz :
        drop (at + 8) mem
        ≡ word_of info n.type ++ (padded (name_field n) ++ (padded n.desc ++ rest))
    after_descsz =
        drop-past (at + 4) 4 (at + 8) mem _ _ after_namesz (length-word_of info _) (omega arith)

    type_lem : getfield32 platform info mem at n_type ≡ ok n.type
    type_lem =
        getfield32-word_of platform info mem at 8 _ n_type _ known bytes
          (same_place info n_type refl) after_descsz v.type_size

    from_name : drop (at + 12) mem ≡ padded (name_field n) ++ (padded n.desc ++ rest)
    from_name =
        drop-past (at + 8) 4 (at + 12) mem _ _ after_descsz (length-word_of info _) (omega arith)

    name_lem : strcmp_eq gnu mem (at + 12) ≡ ok (same_text gnu_text n.name)
    name_lem =
        strcmp_eq-same_text gnu_text n.name (padding (name_field n) ++ (padded n.desc ++ rest)) mem
          (at + 12) (omega arith) v.text (from_name ∙ simp append_assoc)

    after_note : drop (at + note_size n) mem ≡ rest
    after_note =
        drop-past at (note_size n) (at + note_size n) mem (encode info n) rest here
          (length-encode info n v) refl

    at_desc : note_desc at (length (name_field n)) ≡ at + 12 + pad4 (length (name_field n))
    unfolding note_desc
    at_desc =
        let whole : length (name_field n) % 2 ^ 16 ≡ length (name_field n) =
          omega (arith, v.name_size) in
        rw whole refl

    desc_lem : peek mem (at + 12 + pad4 (length (name_field n))) (length n.desc) ≡ ok n.desc
    desc_lem =
        let field = length (name_field n) in
        let later : drop (at + 12 + pad4 field) mem ≡ n.desc ++ (padding n.desc ++ rest) =
          drop-past (at + 12) (pad4 field) (at + 12 + pad4 field) mem (padded (name_field n))
            (padded n.desc ++ rest) from_name (length-padded (name_field n) v.name_size) refl
          ∙ append_assoc n.desc (padding n.desc) rest in
        let test : leb (at + 12 + pad4 field + length n.desc) (length mem) ≡ true = le→leb _ _ (
          omega (
            arith,
            length-drop at mem,
            ap length here,
            length-append (encode info n) rest,
            length-encode info n v,
            length-append n.desc (padding n.desc),
            length-padded n.desc v.desc_size,
          )) in
        let raw : slice mem (at + 12 + pad4 field) (length n.desc) ≡ n.desc =
          ap (take (length n.desc)) later
          ∙ take-append_le (length n.desc) n.desc (padding n.desc ++ rest) (omega arith)
          ∙ take-all (length n.desc) n.desc (omega arith) in
        rw (test, raw) refl

    take_lem :
        (small : length n.desc ≤ max_buildid_size) (offset : ℕ)
        → take_buildid platform info mem offset at (length (name_field n)) (length n.desc)
          ≡ ok (give (found (report offset at n)))
    unfolding take_buildid
    take_lem small offset =
        let fits : ltb max_buildid_size (length n.desc) ≡ false = ground arith in
        rw (fits, at_desc, desc_lem, to_hex_lem n.desc v.desc_bytes) refl

    -- A round at a build ID note reports it.
    round_found :
        (offset : ℕ)
        → is_buildid n ≡ true
        → note_round platform info mem offset at ≡ ok (give (found (report offset at n)))
    unfolding note_round
    round_found offset id =
        rw (descsz_lem, namesz_lem, type_lem, name_lem, id) (take_lem (v.id_size id) offset)

    -- A round at another note goes on behind it.
    round_other :
        (offset : ℕ)
        → is_buildid n ≡ false
        → note_round platform info mem offset at ≡ ok (next (at + note_size n))
    unfolding note_round next_note
    round_other offset other =
        let name : length (name_field n) % 2 ^ 16 ≡ length (name_field n) =
          omega (arith, v.name_size) in
        let desc : length n.desc % 2 ^ 16 ≡ length n.desc = omega (arith, v.desc_size) in
        let behind : at + 12 + pad4 (length (name_field n)) + pad4 (length n.desc)
            ≡ at + note_size n =
          omega arith in
        rw (descsz_lem, namesz_lem, type_lem, name_lem, other, name, desc)
          (ap (λ k. ok (next k)) behind)

  end_of : (len ptr : ℕ) → len ≤ ptr → end_notes len ptr ≡ true
  unfolding end_notes
  end_of len ptr h = ground arith

  more_of : (len ptr : ℕ) → ptr < len → end_notes len ptr ≡ false
  unfolding end_notes
  more_of len ptr h = ground arith

  -- With more rounds than there are bytes left the loop gives the first build ID note.
  pub find_note-first_id :
      (ns : List Note) (offset fuel at : ℕ)
      → AllNotes ns
      → drop at mem ≡ encode_notes info ns
      → length (encode_notes info ns) < fuel
      → at ≤ length mem
      → find_note platform info mem offset fuel at ≡ ok (first_id offset at ns)
  find_note-first_id ns offset zero at v here enough inside = absurd (omega arith)
  find_note-first_id [] offset (suc fuel) at v here enough inside =
      find_note_last platform info mem offset fuel at
        (end_of (length mem) at (omega (arith, ap length here, length-drop at mem)))
  find_note-first_id (n ∷ ns) offset (suc fuel) at (v, vs) here enough inside =
      let rest = encode_notes info ns in
      let size : length (encode info n ++ rest) ≡ note_size n + length rest =
        omega (arith, length-append (encode info n) rest, length-encode info n v) in
      let left : length (drop at mem) ≡ length mem - at = length-drop at mem in
      let more : end_notes (length mem) at ≡ false =
        more_of (length mem) at (omega (arith, size, left, ap length here)) in
      elim (Bool-cases (is_buildid n)) [
        | inl id ↦
            rw (id, first_id)
              (find_note_give platform info mem offset fuel at more
                (round_found at n rest v here offset id))
        | inr other ↦
            rw (other, first_id)
              (find_note_next platform info mem offset fuel at more
                  (round_other at n rest v here offset other)
                ∙ find_note-first_id ns offset fuel (at + note_size n) vs
                    (after_note at n rest v here) (omega (arith, size))
                    (omega (arith, size, left, ap length here)))
      ]
