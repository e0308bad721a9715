-- ===== src/VmcoreInfo/Edit/Sizes.antt =====
-- The sizes of the notes segment in `update_offsets` (vmcoreinfo/editvmcoreinfo.c).
use kernel_stuff.Common.{
  ℕ, ◌+◌, ◌*◌, ◌≤◌, ◌<◌, ◌≡◌, refl, ap, ◌∙◌, ◌⊎◌, inl, inr, true, List, leb, ◌==◌, if◌then◌else◌,
  length, arith, Bool-cases, slice,
}
use kernel_stuff.Common.Run.{ok}
use kernel_stuff.Bytes.{of_le}
use kernel_stuff.VmcoreInfo.{SavedElfdata, load, sizeof_phdr}
use kernel_stuff.VmcoreInfo.Edit.{add_diff_at}
use kernel_stuff.VmcoreInfo.Edit.Moved.{
  moved, add_diff_at_lem, one_moved-length, one_moved-at, one_moved-rest, one_moved,
}

-- The sizes of the notes segment after `update_table`, before the loop over the later entries.
module _ (se : SavedElfdata) (newdescsz : ℕ) where
  abbrev pub filesz_at : ℕ
  filesz_at = se.notes_seg * sizeof_phdr + 32

  abbrev pub memsz_at : ℕ
  memsz_at = se.notes_seg * sizeof_phdr + 40

  -- `p_memsz` stays 0 where it is.
  abbrev pub moved_memsz : List ℕ → List ℕ
  moved_memsz member = if of_le member == 0 then member else moved se.old_descsz newdescsz member

  module _ (inside : se.e_phnum * sizeof_phdr ≤ length se.phdr)
      (below : se.notes_seg < se.e_phnum) where
    pub filesz_inside : filesz_at + 8 ≤ length se.phdr
    filesz_inside = omega arith

    abbrev pub sized : List ℕ
    sized = one_moved se.old_descsz newdescsz se.phdr filesz_at filesz_inside

    memsz_inside : memsz_at + 8 ≤ length sized
    memsz_inside =
        omega (arith, one_moved-length se.old_descsz newdescsz se.phdr filesz_at filesz_inside)

    pub load_memsz : load sized memsz_at 8 ≡ ok (of_le (slice se.phdr memsz_at 8))
    unfolding load
    load_memsz =
        let test : leb (memsz_at + 8) (length sized) ≡ true = ground (arith, memsz_inside) in
        rw test (
          ap (λ b. ok (of_le b))
            (one_moved-rest se.old_descsz newdescsz se.phdr filesz_at filesz_inside memsz_at 8
              (inr (omega arith))))

    -- The table when the sizes of the notes segment are moved.
    pub record IsSized (t : List ℕ) : Type 0 where
      pub same_length : length t ≡ length se.phdr
      pub filesz : slice t filesz_at 8 ≡ moved se.old_descsz newdescsz (slice se.phdr filesz_at 8)
      pub memsz : slice t memsz_at 8 ≡ moved_memsz (slice se.phdr memsz_at 8)
      pub same_rest :
          (a n : ℕ) → (a + n ≤ filesz_at) ⊎ (memsz_at + 8 ≤ a) → slice t a n ≡ slice se.phdr a n

    pub notes_sized :
        (t : List ℕ) × ((if of_le (slice se.phdr memsz_at 8) == 0
            then ok sized
            else add_diff_at se.old_descsz newdescsz memsz_at sized)
          ≡ ok t)
        × IsSized t
    notes_sized =
        let d = se.old_descsz in
        let before = one_moved-rest d newdescsz se.phdr filesz_at filesz_inside in
        let first = one_moved-at d newdescsz se.phdr filesz_at filesz_inside in
        let same = one_moved-length d newdescsz se.phdr filesz_at filesz_inside in
        let memsz_same = before memsz_at 8 (inr (omega arith)) in
        elim (Bool-cases (of_le (slice se.phdr memsz_at 8) == 0)) [
          | inl zero_memsz ↦ (
            sized,
            rw zero_memsz refl,
            record {
              same_length = same;
              filesz = first;
              memsz = rw zero_memsz memsz_same;
              same_rest = λ a n apart.
                  before a n (elim apart [ inl b ↦ inl b | inr c ↦ inr (omega arith) ]);
            },
          )
          | inr nonzero ↦ (
            one_moved d newdescsz sized memsz_at memsz_inside,
            rw nonzero (add_diff_at_lem d newdescsz memsz_at sized memsz_inside),
            record {
              same_length = one_moved-length d newdescsz sized memsz_at memsz_inside ∙ same;
              filesz =
                  one_moved-rest d newdescsz sized memsz_at memsz_inside filesz_at 8
                    (inl (omega arith))
                  ∙ first;
              memsz = rw nonzero (
                  one_moved-at d newdescsz sized memsz_at memsz_inside
                  ∙ ap (moved d newdescsz) memsz_same);
              same_rest = λ a n apart.
                  one_moved-rest d newdescsz sized memsz_at memsz_inside a n
                    (elim apart [ inl b ↦ inl (omega arith) | inr c ↦ inr c ])
                  ∙ before a n (elim apart [ inl b ↦ inl b | inr c ↦ inr (omega arith) ]);
            },
          )
        ]
