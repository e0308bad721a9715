-- ===== src/VmcoreInfo/Edit/Renewed.antt =====
-- The note that is written in place of the old one (vmcoreinfo/editvmcoreinfo.c).
use kernel_stuff.Common.{
  ℕ, ◌+◌, ◌-◌, ◌^◌, ◌≤◌, ◌<◌, ◌≡◌, refl, sym, ap, ◌∙◌, ◌⊎◌, inl, inr, true, some, List, [], ◌++◌,
  leb, length, arith, take, drop, replicate, length-replicate, take-all, slice, length-slice,
  slice-slice, slice-take, overwrite, length-overwrite, slice-overwrite, slice-overwrite_before,
  slice-overwrite_after,
}
use kernel_stuff.Common.Run.{ok}
use kernel_stuff.Bytes.Laws.{length-to_le}
use kernel_stuff.Bytes.{to_le, of_le}
use kernel_stuff.Posix.{File, IsFile, max_rw_count}
use kernel_stuff.Posix.Writes.{Works}
use kernel_stuff.VmcoreInfo.Edit.Splice.{note_end, shift_data-splice}
use kernel_stuff.VmcoreInfo.{SavedElfdata, sizeof_notehdr, pad4, note_desc, load}
use kernel_stuff.VmcoreInfo.Edit.{new_note, shift_data}

pad4_ge : (x : ℕ) → x < 2 ^ 63 → x ≤ pad4 x
unfolding pad4
pad4_ge x small = ground arith

-- `namesz` of the note at an offset.
abbrev pub namesz_at : List ℕ → ℕ → ℕ
namesz_at notes at = of_le (slice notes at 4)

-- The bytes before the descriptor.
abbrev pub head_size : List ℕ → ℕ → ℕ
head_size notes at = sizeof_notehdr + pad4 (namesz_at notes at)

-- What a note is that takes a new descriptor: `descsz` and the descriptor are new, and `namesz`,
-- `type` and the name, with its padding, are those of the note at `at`.
pub record IsRenewed (notes : List ℕ) (at : ℕ) (newdesc note : List ℕ) : Type 0 where
  pub size : length note ≡ head_size notes at + pad4 (length newdesc)
  pub same_namesz : slice note 0 4 ≡ slice notes at 4
  pub new_descsz : slice note 4 4 ≡ to_le 4 (length newdesc)
  pub same_rest :
      slice note 8 (head_size notes at - 8) ≡ slice notes (at + 8) (head_size notes at - 8)
  pub new_desc : slice note (head_size notes at) (length newdesc) ≡ newdesc

module _ (notes : List ℕ) (at : ℕ) (newdesc : List ℕ)
    (inside : at + head_size notes at ≤ length notes) (small : length newdesc < 2 ^ 63) where
  head : List ℕ
  head = slice notes at (head_size notes at)

  sz : ℕ
  sz = head_size notes at + pad4 (length newdesc)

  zeroed : List ℕ
  zeroed = replicate sz 0

  blank : List ℕ
  blank = overwrite zeroed 0 head

  sized : List ℕ
  sized = overwrite blank 4 (to_le 4 (length newdesc))

  final : List ℕ
  final = overwrite sized (head_size notes at) newdesc

  length-head : length head ≡ head_size notes at
  unfolding head
  length-head = length-slice notes at (head_size notes at) inside

  length-zeroed : length zeroed ≡ sz
  unfolding zeroed
  length-zeroed = length-replicate sz 0

  fits_head : 0 + length head ≤ length zeroed
  unfolding sz
  fits_head = omega (arith, length-head, length-zeroed)

  length-blank : length blank ≡ sz
  unfolding blank
  length-blank = length-overwrite zeroed 0 head fits_head ∙ length-zeroed

  fits_size : 4 + length (to_le 4 (length newdesc)) ≤ length blank
  unfolding sz
  fits_size = omega (arith, length-blank, length-to_le 4 (length newdesc))

  length-sized : length sized ≡ sz
  unfolding sized
  length-sized = length-overwrite blank 4 (to_le 4 (length newdesc)) fits_size ∙ length-blank

  fits_desc : head_size notes at + length newdesc ≤ length sized
  unfolding sz
  fits_desc = omega (arith, length-sized, pad4_ge (length newdesc) small)

  from_head :
      (i n : ℕ)
      → i + n ≤ head_size notes at
      → (i + n ≤ 4) ⊎ (8 ≤ i)
      → slice final i n ≡ slice notes (at + i) n
  unfolding final sized blank head
  from_head i n h side =
      slice-overwrite_before sized (head_size notes at) newdesc fits_desc i n h
      ∙ around side
      ∙ sym (slice-take i n (head_size notes at) blank h)
      ∙ ap (λ l. slice l i n)
          (slice-overwrite zeroed 0 head fits_head (head_size notes at) (sym length-head))
      ∙ slice-slice notes at (head_size notes at) i n h
    where
      around : (i + n ≤ 4) ⊎ (8 ≤ i) → slice sized i n ≡ slice blank i n
      around (inl before) =
          slice-overwrite_before blank 4 (to_le 4 (length newdesc)) fits_size i n before
      around (inr after) =
          slice-overwrite_after blank 4 (to_le 4 (length newdesc)) fits_size i n
            (omega (arith, length-to_le 4 (length newdesc)))

  final-IsRenewed : IsRenewed notes at newdesc final
  unfolding final sized sz
  final-IsRenewed = record {
    size = length-overwrite sized (head_size notes at) newdesc fits_desc ∙ length-sized;
    same_namesz =
        from_head 0 4 (omega arith) (inl (omega arith))
        ∙ ap (λ k. slice notes k 4) {x = at + 0} {y = at} (omega arith);
    new_descsz =
        slice-overwrite_before sized (head_size notes at) newdesc fits_desc 4 4 (omega arith)
        ∙ slice-overwrite blank 4 (to_le 4 (length newdesc)) fits_size 4
            (omega (arith, length-to_le 4 (length newdesc)));
    same_rest = from_head 8 (head_size notes at - 8) (omega arith) (inr (omega arith));
    new_desc = slice-overwrite sized (head_size notes at) newdesc fits_desc (length newdesc) refl;
  }

-- A note that lies in the block of notes up to its descriptor is renewed.
pub new_note-IsRenewed :
    (notes : List ℕ) (at : ℕ) (newdesc : List ℕ)
    → at + head_size notes at ≤ length notes
    → length newdesc < 2 ^ 63
    → (note : List ℕ) × (new_note notes at (length newdesc) newdesc ≡ ok note)
      × IsRenewed notes at newdesc note
unfolding new_note load note_desc final sized blank zeroed head sz
new_note-IsRenewed notes at newdesc inside small =
    let field : leb (at + 4) (length notes) ≡ true = ground arith in
    let copied : leb (at + head_size notes at) (length notes) ≡ true = ground arith in
    (
      final notes at newdesc inside small,
      rw (field, copied)
          (ap (λ d. ok (overwrite (sized notes at newdesc inside small) (head_size notes at) d))
            (take-all (length newdesc) newdesc (omega arith))),
      final-IsRenewed notes at newdesc inside small,
    )

-- `shift_data` of a new descriptor of less than 2 ^ 63 bytes returns 0 and leaves a file in which
-- the old note is replaced by one with that descriptor, its size in `descsz`, and the old
-- `namesz`, `type` and name; what stands before the old note and behind it is kept. No call on
-- either file fails; the temporary file is new; the old note ends inside the file, and up to its
-- descriptor inside the block of notes; the new note is small enough for one write.
shift_data-IsRenewed :
    (fd tmp : File) (se : SavedElfdata) (newdesc : List ℕ)
    → IsFile fd
    → Works fd
    → Works tmp
    → (tmp.bytes ≡ []) × (tmp.pos ≡ 0)
    → note_end se ≤ length fd.bytes
    → se.vi_note_start + head_size se.notes se.vi_note_start ≤ length se.notes
    → length newdesc < 2 ^ 63
    → head_size se.notes se.vi_note_start + pad4 (length newdesc) ≤ max_rw_count
    → (note : List ℕ) × (f : File) × (shift_data fd (some tmp) se (length newdesc) newdesc
        ≡ ok (true, f))
      × IsRenewed se.notes se.vi_note_start newdesc note
      × (f.bytes
          ≡ take (se.notes_start + se.vi_note_start) fd.bytes
            ++ (note ++ drop (note_end se) fd.bytes))
shift_data-IsRenewed fd tmp se newdesc v wd wt fresh inside known small fits =
    let (note, made, renewed) = new_note-IsRenewed se.notes se.vi_note_start newdesc known small in
    let (f, done, spliced) =
      shift_data-splice fd tmp se newdesc note v.offsets v.size wd wt fresh inside made
        (omega (arith, renewed.size)) in
    (note, f, done, renewed, spliced)
