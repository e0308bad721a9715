-- ===== src/VmcoreInfo/Edit/Edited.antt =====
-- A vmcore with a new descriptor in its VMCOREINFO note (vmcoreinfo/editvmcoreinfo.c).
use kernel_stuff.Common.{
  ℕ, ◌+◌, ◌-◌, ◌*◌, ◌^◌, ◌≤◌, ◌<◌, ◌≡◌, refl, sym, ap, ◌∙◌, inl, List, [], ◌∷◌, ◌++◌, length, arith,
  drop, length-append, drop-append_ge, slice, overwrite, length-overwrite, slice-overwrite,
  slice-overwrite_before,
}
use kernel_stuff.Bytes.{of_le}
use kernel_stuff.Bytes.Laws.{of_le-to_le}
use kernel_stuff.VmcoreInfo.{sizeof_ehdr, sizeof_phdr, pad4}
use kernel_stuff.Elf.Notes.{Note}
use kernel_stuff.VmcoreInfo.Notes.{
  IsNote, AllNotes, encode, encode_notes, note_size, length-encode, encode_notes-append,
}
use kernel_stuff.VmcoreInfo.Vmcore.{
  Vmcore, notes_of, segment, content, table, saved, IsVmcore, IsSmall,
}
use kernel_stuff.VmcoreInfo.Reading.{length-table}
use kernel_stuff.VmcoreInfo.Edit.{add_diff}
use kernel_stuff.VmcoreInfo.Edit.Encoded.{with_desc}
use kernel_stuff.VmcoreInfo.Edit.Moved.{moved}
use kernel_stuff.VmcoreInfo.Edit.Offsets.{IsUpdated}

-- The vmcore with a new descriptor and a new program header table.
abbrev pub edited : Vmcore → List ℕ → List ℕ → Vmcore
edited c newdesc t = record c { head = overwrite c.head c.phoff t; vi = with_desc c.vi newdesc }

pub AllNotes-at :
    (ns : List Note) (n : Note) (ms : List Note) → AllNotes (ns ++ (n ∷ ms)) → IsNote n
AllNotes-at [] n ms (v, vs) = v
AllNotes-at (m ∷ ns) n ms (v, vs) = AllNotes-at ns n ms vs

pad4_small : (x : ℕ) → x < 2 ^ 32 → pad4 x < 2 ^ 33
unfolding pad4
pad4_small x h = ground arith

length-segment :
    (c : Vmcore)
    → AllNotes (notes_of c)
    → length (segment c)
      ≡ length (encode_notes c.before) + (note_size c.vi + length (encode_notes c.after))
length-segment c v = omega (
  arith,
  ap length (encode_notes-append c.before (c.vi ∷ c.after)),
  length-append (encode_notes c.before) (encode c.vi ++ encode_notes c.after),
  length-append (encode c.vi) (encode_notes c.after),
  length-encode c.vi (AllNotes-at c.before c.vi c.after v),
)

AllNotes-replace :
    (ns : List Note) (n n' : Note) (ms : List Note)
    → IsNote n'
    → AllNotes (ns ++ (n ∷ ms))
    → AllNotes (ns ++ (n' ∷ ms))
AllNotes-replace [] n n' ms v' (v, vs) = (v', vs)
AllNotes-replace (m ∷ ns) n n' ms v' (v, vs) = (v, AllNotes-replace ns n n' ms v' vs)

pub with_desc-IsNote :
    (n : Note) (newdesc : List ℕ)
    → IsNote n
    → length newdesc < 2 ^ 32
    → IsNote (with_desc n newdesc)
with_desc-IsNote n newdesc v small = record {
  text = v.text;
  name_size = v.name_size;
  desc_size = small;
  type_size = v.type_size;
}

module _ (c : Vmcore) (newdesc t : List ℕ) (v : IsVmcore c) (small : length newdesc < 2 ^ 32)
    (u : IsUpdated (saved c) (length newdesc) t) (fits : IsSmall c) where
  length-t : length t ≡ sizeof_phdr * c.phnum
  length-t = u.same_length ∙ length-table c v fits

  placed : c.phoff + length t ≤ length c.head
  placed = omega (arith, length-t, v.table_inside)

  length-head : length (edited c newdesc t).head ≡ length c.head
  length-head = length-overwrite c.head c.phoff t placed

  table-edited : table (edited c newdesc t) ≡ t
  table-edited = slice-overwrite c.head c.phoff t placed (sizeof_phdr * c.phnum) (sym length-t)

  in_header :
      (i n : ℕ) → i + n ≤ sizeof_ehdr → slice (edited c newdesc t).head i n ≡ slice c.head i n
  in_header i n h =
      slice-overwrite_before c.head c.phoff t placed i n (omega (arith, v.behind_header))

  -- The members of an entry up to the notes segment that stay.
  kept :
      (j at n : ℕ)
      → j ≤ c.seg
      → at + n ≤ 32
      → slice (table (edited c newdesc t)) (j * sizeof_phdr + at) n
        ≡ slice (table c) (j * sizeof_phdr + at) n
  kept j at n h k =
      ap (λ l. slice l (j * sizeof_phdr + at) n) table-edited
      ∙ u.same_rest (j * sizeof_phdr + at) n (inl (omega arith)) (λ i low high. inl (omega arith))

  kept0 :
      (j n : ℕ)
      → j ≤ c.seg
      → n ≤ 32
      → slice (table (edited c newdesc t)) (j * sizeof_phdr) n ≡ slice (table c) (j * sizeof_phdr) n
  kept0 j n h k =
      ap (λ l. slice l (j * sizeof_phdr) n) table-edited
      ∙ u.same_rest (j * sizeof_phdr) n (inl (omega arith)) (λ i low high. inl (omega arith))

  grown :
      length (segment (edited c newdesc t)) + pad4 (length c.vi.desc)
      ≡ length (segment c) + pad4 (length newdesc)
  grown = omega (
    arith,
    length-segment c v.all_notes,
    length-segment (edited c newdesc t) (
        AllNotes-replace c.before c.vi (with_desc c.vi newdesc) c.after
          (with_desc-IsNote c.vi newdesc (AllNotes-at c.before c.vi c.after v.all_notes) small)
          v.all_notes),
  )

  -- A member of 64 bits after the difference has been added to it.
  of_moved :
      (member : List ℕ) (x y : ℕ)
      → of_le member ≡ x
      → x < 2 ^ 63
      → y < 2 ^ 64
      → y + pad4 (length c.vi.desc) ≡ x + pad4 (length newdesc)
      → of_le (moved (length c.vi.desc) (length newdesc) member) ≡ y
  unfolding add_diff
  of_moved member x y e low high balance =
      let old = AllNotes-at c.before c.vi c.after v.all_notes in
      of_le-to_le 8 (add_diff (length c.vi.desc) (length newdesc) (of_le member)) (omega arith)
      ∙ omega (arith, e, pad4_small (length c.vi.desc) old.desc_size)

  new_note : IsNote (with_desc c.vi newdesc)
  new_note = with_desc-IsNote c.vi newdesc (AllNotes-at c.before c.vi c.after v.all_notes) small

  pub edited-IsVmcore :
      length (segment (edited c newdesc t)) < 2 ^ 63 → IsVmcore (edited c newdesc t)
  edited-IsVmcore new_fits = record {
    behind_header = v.behind_header;
    table_inside = omega (arith, length-head, v.table_inside);
    magic = ap of_le (in_header 0 4 (omega arith)) ∙ v.magic;
    class = in_header 4 1 (omega arith) ∙ v.class;
    data_order = in_header 5 1 (omega arith) ∙ v.data_order;
    e_phoff = ap of_le (in_header 32 8 (omega arith)) ∙ v.e_phoff;
    e_phentsize = ap of_le (in_header 54 2 (omega arith)) ∙ v.e_phentsize;
    e_phnum = ap of_le (in_header 56 2 (omega arith)) ∙ v.e_phnum;
    e_shentsize = ap of_le (in_header 58 2 (omega arith)) ∙ v.e_shentsize;
    seg_inside = v.seg_inside;
    seg_type = ap of_le (kept0 c.seg 4 (omega arith) (omega arith)) ∙ v.seg_type;
    seg_first = λ j before e.
        v.seg_first j before (sym (ap of_le (kept0 j 4 (omega arith) (omega arith))) ∙ e);
    seg_offset =
        ap of_le (kept c.seg 8 8 (omega arith) (omega arith)) ∙ v.seg_offset ∙ sym length-head;
    seg_size =
        ap (λ l. of_le (slice l (c.seg * sizeof_phdr + 32) 8)) table-edited
        ∙ ap of_le u.filesz
        ∙ of_moved _ (length (segment c)) (length (segment (edited c newdesc t))) v.seg_size
            (omega (arith, fits.segment_size)) (omega arith) grown;
    all_notes =
        AllNotes-replace c.before c.vi (with_desc c.vi newdesc) c.after new_note v.all_notes;
    is_vi = v.is_vi;
    others = v.others;
  }

  -- What a later segment holds, if it lies behind the notes, is found at its new offset.
  pub data_lem :
      (j o : ℕ)
      → c.seg < j
      → j < c.phnum
      → of_le (slice (table c) (j * sizeof_phdr + 8) 8) ≡ o
      → length c.head + length (segment c) ≤ o
      → o ≤ length (content c)
      → length (content c) < 2 ^ 63
      → drop
          (of_le (slice (table (edited c newdesc t)) (j * sizeof_phdr + 8) 8))
          (content (edited c newdesc t))
        ≡ drop o (content c)
  data_lem j o after known at behind inside low =
      let c' = edited c newdesc t in
      let k : ℕ = o - (length c.head + length (segment c)) in
      let o' : ℕ = length c.head + length (segment c') + k in
      let offset : of_le (slice (table c') (j * sizeof_phdr + 8) 8) ≡ o' =
        ap (λ l. of_le (slice l (j * sizeof_phdr + 8) 8)) table-edited
        ∙ ap of_le (u.offsets j after known)
        ∙ of_moved _ o o' at (omega arith)
            (omega (arith, grown, pad4_small (length newdesc) small, fits.segment_size))
            (omega (arith, grown)) in
      ap (λ n. drop n (content c')) offset
      ∙ drop-append_ge o' (length (segment c') + k) c'.head (segment c' ++ c'.tail)
          (omega (arith, length-head))
      ∙ drop-append_ge (length (segment c') + k) k (segment c') c'.tail refl
      ∙ sym (
          drop-append_ge o (length (segment c) + k) c.head (segment c ++ c.tail) (omega arith)
          ∙ drop-append_ge (length (segment c) + k) k (segment c) c.tail refl)

  -- The new segment is not larger than the old one by more than the new descriptor.
  pub segment_bound :
      length (segment (edited c newdesc t)) ≤ length (segment c) + pad4 (length newdesc)
  segment_bound = omega (arith, grown)
