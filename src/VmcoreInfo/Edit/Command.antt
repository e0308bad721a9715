-- ===== src/VmcoreInfo/Edit/Command.antt =====
-- The command on a vmcore and a file with the new data (vmcoreinfo/editvmcoreinfo.c).
use kernel_stuff.Common.{
  ℕ, ◌+◌, ◌*◌, ◌^◌, ◌≤◌, ◌<◌, ◌≡◌, refl, sym, ap, ◌∙◌, true, Option, some, List, [], ◌∷◌, ◌++◌,
  ◌==◌, ==_iff, length, arith, slice-append_le, take, drop, take-all, overwrite, slice, slice-slice,
}
use kernel_stuff.Common.Run.{Run, ok}
use kernel_stuff.Bytes.{of_le}
use kernel_stuff.Posix.{File, IsFile, fread, max_rw_count}
use kernel_stuff.Posix.Writes.{Works}
use kernel_stuff.VmcoreInfo.{SavedElfdata, sizeof_phdr, pad4, read_newdata, read_elfdata}
use kernel_stuff.Elf.Notes.{name_field}
use kernel_stuff.VmcoreInfo.Notes.{note_size, encode_notes}
use kernel_stuff.VmcoreInfo.Complete.{desc_lem}
use kernel_stuff.VmcoreInfo.Vmcore.{Vmcore, segment, content, table, saved, IsVmcore, IsSmall}
use kernel_stuff.VmcoreInfo.Reading.{length-table, read_elfdata_lem}
use kernel_stuff.VmcoreInfo.Edit.{main}
use kernel_stuff.VmcoreInfo.Edit.Encoded.{with_desc}
use kernel_stuff.VmcoreInfo.Edit.Offsets.{IsUpdated}
use kernel_stuff.VmcoreInfo.Edit.Edited.{
  edited, AllNotes-at, edited-IsVmcore, data_lem, segment_bound,
}
use kernel_stuff.VmcoreInfo.Edit.Whole.{at_note, edit_vmcore_run}

-- The new descriptor: the content of the file that is given, with a NUL.
abbrev pub new_desc : File → List ℕ
new_desc data_file = data_file.bytes ++ (0 ∷ [])

read_newdata_lem : (f : File) → Works f → read_newdata f ≡ some (new_desc f)
unfolding read_newdata fread
read_newdata_lem f w =
    let whole : take (length f.bytes) f.bytes ≡ f.bytes =
      take-all (length f.bytes) f.bytes (omega arith) in
    let test : (length f.bytes == length f.bytes) ≡ true = (==_iff _ _).1 refl in
    rw (read_newdata, (w 0).0, whole, test) refl

-- `p_offset` of an entry, as it stands in a vmcore.
abbrev pub offset_of : File → Vmcore → ℕ → ℕ
offset_of f c j = of_le (slice f.bytes (c.phoff + (j * sizeof_phdr + 8)) 8)

offset_of-table :
    (f : File) (c : Vmcore)
    → IsVmcore c
    → f.bytes ≡ content c
    → (j : ℕ) → j < c.phnum
    → offset_of f c j ≡ of_le (slice (table c) (j * sizeof_phdr + 8) 8)
offset_of-table f c v holds j known =
    ap (λ l. of_le (slice l (c.phoff + (j * sizeof_phdr + 8)) 8)) holds
    ∙ ap of_le (
        slice-append_le c.head (segment c ++ c.tail) (c.phoff + (j * sizeof_phdr + 8)) 8
          (omega (arith, v.table_inside))
        ∙ sym (
            slice-slice c.head c.phoff (sizeof_phdr * c.phnum) (j * sizeof_phdr + 8) 8
              (omega arith)))

-- The command on two files that can be opened, and a new temporary file; no call on them fails. The
-- vmcore is that of `c`, and its table, its notes and the new note fit one read or write.
module _ (opens : List ℕ → Option File) (tmp data_file fd : File) (vmcore new : List ℕ) (c : Vmcore)
    (opened_new : opens new ≡ some data_file) (opened : opens vmcore ≡ some fd) (start : fd.pos ≡ 0)
    (valid : IsFile fd) (reads : Works data_file) (wd : Works fd) (wt : Works tmp)
    (fresh : (tmp.bytes ≡ []) × (tmp.pos ≡ 0)) (holds : fd.bytes ≡ content c) (v : IsVmcore c)
    (small : IsSmall c) (desc_fits : length (new_desc data_file) < 2 ^ 32)
    (fits : note_size (with_desc c.vi (new_desc data_file)) ≤ max_rw_count) where
  main_run :
      (t : List ℕ) × (f : File) × (main opens (some tmp) (vmcore ∷ new ∷ []) ≡ ok (0, some f))
      × (f.bytes ≡ content (edited c (new_desc data_file) t))
      × IsUpdated (saved c) (length (new_desc data_file)) t
  unfolding main
  main_run =
      let (t, f, run, bytes, u) =
        edit_vmcore_run c fd tmp (new_desc data_file) v small holds start valid wd wt fresh fits
          desc_fits in
      (t, f, rw (main, opened_new, read_newdata_lem data_file reads, opened, run) refl, bytes, u)

  new_segment :
      (t : List ℕ)
      → IsUpdated (saved c) (length (new_desc data_file)) t
      → length (segment (edited c (new_desc data_file) t)) < 2 ^ 63
  new_segment t u =
      omega (
        arith,
        segment_bound c (new_desc data_file) t v desc_fits u small,
        small.segment_size,
        fits,
      )

  -- On a vmcore whose notes are values (`IsVmcore`), with two files that can be opened and a new
  -- temporary file, no call on which fails, and where the table, the notes and the new note fit one
  -- read or write, the command ends with status 0. The vmcore then has the content of the data file
  -- with a NUL as the descriptor of its VMCOREINFO note, whose name and type stay; its other notes and
  -- the bytes behind the notes are as they were, and so are those before the notes, but for a table `t`
  -- that stands over the program header table and is as long. In `t` (`IsUpdated`) `p_filesz` of the
  -- notes is moved by the difference of the padded descriptor sizes, `p_memsz` too unless it is 0, and
  -- `p_offset` of each later entry; all else of the table is kept. The file is a vmcore again.
  pub main-IsVmcore :
      (t : List ℕ) × (f : File) × (main opens (some tmp) (vmcore ∷ new ∷ []) ≡ ok (0, some f))
      × (f.bytes
          ≡ overwrite c.head c.phoff t
            ++ (encode_notes (c.before ++ (with_desc c.vi (new_desc data_file) ∷ c.after))
                ++ c.tail))
      × (length t ≡ sizeof_phdr * c.phnum)
      × IsUpdated (saved c) (length (new_desc data_file)) t
      × IsVmcore (edited c (new_desc data_file) t)
  main-IsVmcore =
      let (t, f, run, bytes, u) = main_run in
      (
        t,
        f,
        run,
        bytes,
        u.same_length ∙ length-table c v small,
        u,
        edited-IsVmcore c (new_desc data_file) t v desc_fits u small (new_segment t u),
      )

  -- The file that a run leaves is the one above.
  left :
      (g : File)
      → main opens (some tmp) (vmcore ∷ new ∷ []) ≡ ok (0, some g)
      → g.bytes ≡ content (edited c (new_desc data_file) main_run.0)
  left g run = ap (λ (h : File). h.bytes) (the_file (sym run ∙ main_run.2)) ∙ main_run.3
    where
      the_file :
          {f h : File} → ◌≡◌ {A = Run (ℕ × Option File)} (ok (0, some f)) (ok (0, some h)) → f ≡ h
      the_file e = cc

  -- Under the conditions of `main-IsVmcore`, a segment behind the notes segment in the table whose
  -- offset is behind the notes and inside the file: at the offset that the table has for it after the
  -- command, the file has the bytes that it had at the old offset, up to its end.
  pub main-segment :
      (g : File)
      → main opens (some tmp) (vmcore ∷ new ∷ []) ≡ ok (0, some g)
      → (j : ℕ) → c.seg < j
      → j < c.phnum
      → length c.head + length (segment c) ≤ offset_of fd c j
      → offset_of fd c j ≤ length fd.bytes
      → drop (offset_of g c j) g.bytes ≡ drop (offset_of fd c j) fd.bytes
  main-segment g run j after known behind inside =
      let (t, f, ran, bytes, u) = main_run in
      let c' : Vmcore = edited c (new_desc data_file) t in
      let v' = edited-IsVmcore c (new_desc data_file) t v desc_fits u small (new_segment t u) in
      let g_holds : g.bytes ≡ content c' = left g run in
      let o : ℕ = offset_of fd c j in
      let old_at : of_le (slice (table c) (j * sizeof_phdr + 8) 8) ≡ o =
        sym (offset_of-table fd c v holds j known) in
      let size : length fd.bytes ≡ length (content c) = ap length holds in
      ap (λ n. drop n g.bytes) (offset_of-table g c' v' g_holds j known)
      ∙ ap (drop (of_le (slice (table c') (j * sizeof_phdr + 8) 8))) g_holds
      ∙ data_lem c (new_desc data_file) t v desc_fits u small j o after known old_at behind
          (omega (arith, size)) (omega (arith, size, valid.size, valid.offsets))
      ∙ ap (drop o) (sym holds)

  -- Under the conditions of `main-IsVmcore`, when the vmcore that the command has left is opened again,
  -- no read of it fails, and the grown notes fit one read, `read_elfdata` succeeds; at the descriptor of
  -- the note that it finds are the content of the data file and a NUL, and its size is that of these.
  pub main-read_elfdata :
      (g again : File)
      → main opens (some tmp) (vmcore ∷ new ∷ []) ≡ ok (0, some g)
      → again.bytes ≡ g.bytes
      → again.pos ≡ 0
      → IsFile again
      → Works again
      → length (segment c) + pad4 (length (new_desc data_file)) ≤ max_rw_count
      → (se : SavedElfdata) × (h : File) × (read_elfdata again ≡ ok (some se, h))
        × (se.old_descsz ≡ length (new_desc data_file))
        × (slice se.notes (se.vi_note_start + (12 + pad4 (length (name_field c.vi)))) se.old_descsz
            ≡ new_desc data_file)
  main-read_elfdata g again run same again_start again_valid again_works room =
      let (t, f, ran, bytes, u) = main_run in
      let c' : Vmcore = edited c (new_desc data_file) t in
      let v' = edited-IsVmcore c (new_desc data_file) t v desc_fits u small (new_segment t u) in
      let small' : IsSmall c' = record {
        table_size = small.table_size;
        segment_size = omega (arith, segment_bound c (new_desc data_file) t v desc_fits u small);
      } in
      (
        saved c',
        _,
        read_elfdata_lem c' v' small' again again_works (same ∙ left g run) again_valid.size
            again_start,
        refl,
        desc_lem (segment c') (length (encode_notes c'.before)) c'.vi (encode_notes c'.after)
            (AllNotes-at c'.before c'.vi c'.after v'.all_notes) (at_note c' v'.all_notes),
      )
