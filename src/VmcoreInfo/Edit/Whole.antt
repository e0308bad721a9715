-- ===== src/VmcoreInfo/Edit/Whole.antt =====
-- The whole command on a vmcore (vmcoreinfo/editvmcoreinfo.c).
use kernel_stuff.Common.{
  ℕ, ◌+◌, ◌^◌, ◌≤◌, ◌<◌, ◌≡◌, refl, sym, ap, ◌∙◌, some, List, [], ◌∷◌, ◌++◌, append-nil,
  append_assoc, length, arith, take, drop, length-append, length-drop, take-append_ge,
  drop-append_ge, overwrite, overwrite-append_le, length-overwrite,
}
use kernel_stuff.Common.Run.{ok}
use kernel_stuff.Posix.{File, IsFile, max_rw_count}
use kernel_stuff.Posix.Writes.{Works}
use kernel_stuff.VmcoreInfo.Notes.{
  IsNote, AllNotes, encode, encode_notes, note_size, length-encode, encode_notes-append,
}
use kernel_stuff.VmcoreInfo.Vmcore.{Vmcore, notes_of, segment, content, saved, IsVmcore, IsSmall}
use kernel_stuff.VmcoreInfo.Reading.{length-table, length-content, after, read_elfdata_lem}
use kernel_stuff.VmcoreInfo.Edit.{new_note, edit_vmcore}
use kernel_stuff.VmcoreInfo.Edit.Encoded.{with_desc, new_note-encode}
use kernel_stuff.VmcoreInfo.Edit.Splice.{note_end, shift_data-splice}
use kernel_stuff.VmcoreInfo.Edit.Offsets.{IsUpdated, with_table, update_offsets-IsUpdated}
use kernel_stuff.VmcoreInfo.Edit.Edited.{edited, AllNotes-at, with_desc-IsNote}

-- The bytes of a vmcore around the note that is replaced.
content-split :
    (c : Vmcore)
    → content c
      ≡ (c.head ++ encode_notes c.before) ++ (encode c.vi ++ (encode_notes c.after ++ c.tail))
content-split c =
    ap (λ l. c.head ++ (l ++ c.tail)) (encode_notes-append c.before (c.vi ∷ c.after))
    ∙ simp append_assoc

splice :
    (c : Vmcore) (note : List ℕ)
    → IsNote c.vi
    → take (length c.head + length (encode_notes c.before)) (content c)
        ++ (note
            ++ drop (length c.head + (length (encode_notes c.before) + note_size c.vi)) (content c))
      ≡ (c.head ++ encode_notes c.before) ++ (note ++ (encode_notes c.after ++ c.tail))
splice c note v =
    let front = c.head ++ encode_notes c.before in
    let rest = encode_notes c.after ++ c.tail in
    let size = length-append c.head (encode_notes c.before) in
    ap
      (λ l.
        take (length c.head + length (encode_notes c.before)) l
        ++ (note ++ drop (length c.head + (length (encode_notes c.before) + note_size c.vi)) l))
      (content-split c)
    ∙ ap
        (λ l.
          l
          ++ (note
              ++ drop (length c.head + (length (encode_notes c.before) + note_size c.vi))
                  (front ++ (encode c.vi ++ rest))))
        (take-append_ge (length c.head + length (encode_notes c.before)) 0 front
            (encode c.vi ++ rest) (omega (arith, size))
          ∙ append-nil front)
    ∙ ap (λ l. front ++ (note ++ l))
        (drop-append_ge (length c.head + (length (encode_notes c.before) + note_size c.vi))
            (note_size c.vi) front (encode c.vi ++ rest) (omega (arith, size))
          ∙ drop-append_ge (note_size c.vi) 0 (encode c.vi) rest
              (omega (arith, length-encode c.vi v)))

-- The note stands in the segment.
pub at_note :
    (c : Vmcore)
    → AllNotes (notes_of c)
    → drop (length (encode_notes c.before)) (segment c) ≡ encode c.vi ++ encode_notes c.after
at_note c v =
    ap (drop (length (encode_notes c.before))) (encode_notes-append c.before (c.vi ∷ c.after))
    ∙ drop-append_ge (length (encode_notes c.before)) 0 (encode_notes c.before)
        (encode c.vi ++ encode_notes c.after) (omega arith)

module _ (c : Vmcore) (fd tmp : File) (newdesc : List ℕ) (v : IsVmcore c) (small : IsSmall c)
    (holds : fd.bytes ≡ content c) (start : fd.pos ≡ 0) (valid : IsFile fd) (wd : Works fd)
    (wt : Works tmp) (fresh : (tmp.bytes ≡ []) × (tmp.pos ≡ 0))
    (fits : note_size (with_desc c.vi newdesc) ≤ max_rw_count)
    (desc_fits : length newdesc < 2 ^ 32) where
  vi-IsNote : IsNote c.vi
  vi-IsNote = AllNotes-at c.before c.vi c.after v.all_notes

  made :
      new_note (segment c) (length (encode_notes c.before)) (length newdesc) newdesc
      ≡ ok (encode (with_desc c.vi newdesc))
  made =
      new_note-encode c.vi vi-IsNote newdesc desc_fits (segment c) (length (encode_notes c.before))
        (encode_notes c.after) (at_note c v.all_notes)

  size : length fd.bytes ≡ length c.head + (length (segment c) + length c.tail)
  size = ap length holds ∙ length-content c v small

  read_fd : File
  read_fd = after c v small fd wd holds valid.size

  pub edit_vmcore_run :
      (t : List ℕ) × (f : File) × (edit_vmcore fd (some tmp) newdesc ≡ ok (0, f))
      × (f.bytes ≡ content (edited c newdesc t))
      × IsUpdated (saved c) (length newdesc) t
  unfolding edit_vmcore read_fd
  edit_vmcore_run =
      let (t, updates, over, u) =
        update_offsets-IsUpdated read_fd (saved c) (length newdesc) valid.size wd
          (sym (length-table c v small))
          (omega (arith, size, length-table c v small, v.table_inside))
          (omega (arith, length-table c v small, small.table_size))
          (omega (arith, length-table c v small)) v.seg_inside in
      let placed : c.phoff + length t ≤ length c.head =
        omega (arith, u.same_length, length-table c v small, v.table_inside) in
      let f : File = with_table read_fd c.phoff t in
      let c' : Vmcore = record c { head = overwrite c.head c.phoff t } in
      let f_holds : f.bytes ≡ content c' =
        over
        ∙ ap (λ l. overwrite l c.phoff t) holds
        ∙ overwrite-append_le c.head (segment c ++ c.tail) t c.phoff placed in
      let same : length f.bytes ≡ length fd.bytes =
        ap length over ∙ length-overwrite fd.bytes c.phoff t (omega (arith, size)) in
      let same_head : length c'.head ≡ length c.head = length-overwrite c.head c.phoff t placed in
      let end : note_end (saved c) ≤ length f.bytes = omega (
        arith,
        same,
        size,
        ap length (at_note c v.all_notes),
        length-encode c.vi vi-IsNote,
        length-append (encode c.vi) (encode_notes c.after),
        length-drop (length (encode_notes c.before)) (segment c),
      ) in
      let note_fits : length (encode (with_desc c.vi newdesc)) ≤ max_rw_count = omega (
        arith,
        length-encode (with_desc c.vi newdesc) (with_desc-IsNote c.vi newdesc vi-IsNote desc_fits),
      ) in
      let (g, shifts, spliced) =
        shift_data-splice f tmp (saved c) newdesc (encode (with_desc c.vi newdesc)) valid.offsets
          (omega (arith, same, valid.size)) wd wt fresh end made note_fits in
      (
        t,
        g,
        rw (read_elfdata_lem c v small fd wd holds valid.size start, updates, shifts) refl,
        spliced
            ∙ ap
                (λ l.
                  take (length c.head + length (encode_notes c.before)) l
                  ++ (encode (with_desc c.vi newdesc) ++ drop (note_end (saved c)) l))
                f_holds
            ∙ ap
                (λ k.
                  take (k + length (encode_notes c.before)) (content c')
                  ++ (encode (with_desc c.vi newdesc)
                      ++ drop (k + (length (encode_notes c.before) + note_size c.vi)) (content c')))
                (sym same_head)
            ∙ splice c' (encode (with_desc c.vi newdesc)) vi-IsNote
            ∙ sym (content-split (edited c newdesc t)),
        u,
      )
