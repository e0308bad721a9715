-- ===== src/VmcoreInfo/Edit/Offsets.antt =====
-- The program header table after `update_offsets` (vmcoreinfo/editvmcoreinfo.c).
use kernel_stuff.Common.{
  ℕ, ◌+◌, ◌-◌, ◌*◌, ◌≤◌, ◌<◌, ◌≡◌, ap, ◌∙◌, ◌⊎◌, inl, inr, true, List, leb, le→leb, length, arith,
  take, take-all, slice, overwrite,
}
use kernel_stuff.Common.Run.{ok}
use kernel_stuff.VmcoreInfo.{SavedElfdata, sizeof_phdr}
use kernel_stuff.VmcoreInfo.Edit.{update_table, update_offsets}
use kernel_stuff.VmcoreInfo.Edit.Moved.{moved, IsApart, add_diff_at_lem, shift_segments-IsShifted}
use kernel_stuff.Posix.{File, IsFile, seek_set, write_at, max_rw_count}
use kernel_stuff.Posix.Writes.{Works, write-whole, write_at-inside}
use kernel_stuff.VmcoreInfo.Edit.Splice.{write_all_done}
use kernel_stuff.VmcoreInfo.Edit.Sizes.{
  filesz_at, memsz_at, moved_memsz, filesz_inside, load_memsz, notes_sized,
}

-- What the table is after `update_table`.
pub record IsUpdated (se : SavedElfdata) (newdescsz : ℕ) (t : List ℕ) : Type 0 where
  pub same_length : length t ≡ length se.phdr
  pub filesz :
      slice t (filesz_at se newdescsz) 8
      ≡ moved se.old_descsz newdescsz (slice se.phdr (filesz_at se newdescsz) 8)
  pub memsz :
      slice t (memsz_at se newdescsz) 8
      ≡ moved_memsz se newdescsz (slice se.phdr (memsz_at se newdescsz) 8)
  pub offsets :
      (j : ℕ)
      → se.notes_seg < j
      → j < se.e_phnum
      → slice t (j * sizeof_phdr + 8) 8
        ≡ moved se.old_descsz newdescsz (slice se.phdr (j * sizeof_phdr + 8) 8)
  pub same_rest :
      (a n : ℕ)
      → (a + n ≤ filesz_at se newdescsz) ⊎ (memsz_at se newdescsz + 8 ≤ a)
      → IsApart (se.notes_seg + 1) (se.e_phnum - (se.notes_seg + 1)) a n
      → slice t a n ≡ slice se.phdr a n

update_table-IsUpdated :
    (se : SavedElfdata) (newdescsz : ℕ)
    → se.e_phnum * sizeof_phdr ≤ length se.phdr
    → se.notes_seg < se.e_phnum
    → (t : List ℕ) × (update_table se newdescsz ≡ ok t) × IsUpdated se newdescsz t
unfolding update_table
update_table-IsUpdated se newdescsz inside below =
    let (sized_t, run, notes) = notes_sized se newdescsz inside below in
    let (t, shifts, loop) =
      shift_segments-IsShifted se.old_descsz newdescsz (se.e_phnum - (se.notes_seg + 1))
        (se.notes_seg + 1) sized_t (omega (arith, notes.same_length)) in
    let filesz_in = filesz_inside se newdescsz inside below in
    (
      t,
      rw
          (
            add_diff_at_lem se.old_descsz newdescsz (filesz_at se newdescsz) se.phdr filesz_in,
            load_memsz se newdescsz inside below,
            run,
          )
          shifts,
      record {
        same_length = loop.same_length ∙ notes.same_length;
        filesz =
            loop.same_rest (filesz_at se newdescsz) 8 (λ k kl ku. inl (omega arith)) ∙ notes.filesz;
        memsz =
            loop.same_rest (memsz_at se newdescsz) 8 (λ k kl ku. inl (omega arith)) ∙ notes.memsz;
        offsets = λ j after known.
            loop.moved_offsets j (omega arith) (omega arith)
            ∙ ap (moved se.old_descsz newdescsz)
                (notes.same_rest (j * sizeof_phdr + 8) 8 (inr (omega arith)));
        same_rest = λ a n apart elsewhere. loop.same_rest a n elsewhere ∙ notes.same_rest a n apart;
      },
    )

-- The file after a table has been written over the old one.
abbrev pub with_table : File → ℕ → List ℕ → File
with_table fd phoff t = record fd { bytes = write_at fd.bytes phoff t; pos = phoff + length t }

pub update_offsets-IsUpdated :
    (fd : File) (se : SavedElfdata) (newdescsz : ℕ)
    → length fd.bytes ≤ fd.max_offset
    → Works fd
    → se.e_phentsize * se.e_phnum ≡ length se.phdr
    → se.e_phoff + length se.phdr ≤ length fd.bytes
    → length se.phdr ≤ max_rw_count
    → se.e_phnum * sizeof_phdr ≤ length se.phdr
    → se.notes_seg < se.e_phnum
    → (t : List ℕ) × (update_offsets fd se newdescsz ≡ ok (true, with_table fd se.e_phoff t))
      × (write_at fd.bytes se.e_phoff t ≡ overwrite fd.bytes se.e_phoff t)
      × IsUpdated se newdescsz t
unfolding update_offsets seek_set
update_offsets-IsUpdated fd se newdescsz fits w size placed small inside below =
    let (t, run, updated) = update_table-IsUpdated se newdescsz inside below in
    let same = updated.same_length in
    let sought : leb se.e_phoff fd.max_offset ≡ true = le→leb _ _ (omega arith) in
    let whole : take (se.e_phentsize * se.e_phnum) t ≡ t = take-all _ t (omega (arith, same)) in
    let at_table : File = record fd { pos = se.e_phoff } in
    (
      t,
      rw (run, sought, whole)
          (ap ok (write_all_done at_table _ t (write-whole at_table t w (omega (arith, same))))),
      write_at-inside fd.bytes se.e_phoff t (omega (arith, same)),
      updated,
    )

-- If no call fails, the table lies in the file, fits one write and holds all the entries, then
-- `update_offsets` returns 0 and writes a table of the same length over the old one and nothing else.
-- In it, `p_filesz` of the notes segment is moved by the difference of the padded descriptor sizes,
-- `p_memsz` too unless it is 0, and so is `p_offset` of each entry behind it, if there are any; every
-- part of the table that meets neither the two sizes nor the offset of a later entry is kept.
pub update_offsets_lem :
    (fd : File) (se : SavedElfdata) (newdescsz : ℕ)
    → IsFile fd
    → Works fd
    → se.e_phentsize * se.e_phnum ≡ length se.phdr
    → se.e_phoff + length se.phdr ≤ length fd.bytes
    → length se.phdr ≤ max_rw_count
    → se.e_phnum * sizeof_phdr ≤ length se.phdr
    → se.notes_seg < se.e_phnum
    → (t : List ℕ) × (f : File) × (update_offsets fd se newdescsz ≡ ok (true, f))
      × (f.bytes ≡ overwrite fd.bytes se.e_phoff t)
      × (length t ≡ length se.phdr)
      × (slice t (se.notes_seg * sizeof_phdr + 32) 8
          ≡ moved se.old_descsz newdescsz (slice se.phdr (se.notes_seg * sizeof_phdr + 32) 8))
      × (slice t (se.notes_seg * sizeof_phdr + 40) 8
          ≡ moved_memsz se newdescsz (slice se.phdr (se.notes_seg * sizeof_phdr + 40) 8))
      × ((j : ℕ)
          → se.notes_seg < j
          → j < se.e_phnum
          → slice t (j * sizeof_phdr + 8) 8
            ≡ moved se.old_descsz newdescsz (slice se.phdr (j * sizeof_phdr + 8) 8))
      × ((a n : ℕ)
          → (a + n ≤ filesz_at se newdescsz) ⊎ (memsz_at se newdescsz + 8 ≤ a)
          → IsApart (se.notes_seg + 1) (se.e_phnum - (se.notes_seg + 1)) a n
          → slice t a n ≡ slice se.phdr a n)
update_offsets_lem fd se newdescsz v w size placed small inside below =
    let (t, run, over, updated) =
      update_offsets-IsUpdated fd se newdescsz v.size w size placed small inside below in
    (
      t,
      with_table fd se.e_phoff t,
      run,
      over,
      updated.same_length,
      updated.filesz,
      updated.memsz,
      updated.offsets,
      updated.same_rest,
    )
