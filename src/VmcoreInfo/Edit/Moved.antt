-- ===== src/VmcoreInfo/Edit/Moved.antt =====
-- The members of the program header table that vmcoreinfo/editvmcoreinfo.c adds the difference of
-- the descriptor sizes to.
use kernel_stuff.Common.{
  ℕ, zero, suc, ◌+◌, ◌*◌, ◌≤◌, ◌<◌, ◌≡◌, refl, sym, ap, ◌∙◌, ◌⊎◌, inl, inr, true, List, leb, ◌==◌,
  ==_iff, length, arith, Bool-cases, slice, overwrite, length-overwrite, slice-overwrite,
  slice-overwrite_before, slice-overwrite_after,
}
use kernel_stuff.Common.Run.{ok}
use kernel_stuff.Bytes.{to_le, of_le}
use kernel_stuff.Bytes.Laws.{length-to_le}
use kernel_stuff.VmcoreInfo.{load, sizeof_phdr}
use kernel_stuff.VmcoreInfo.Edit.{add_diff, add_diff_at, shift_segments}

-- A part of the table that meets no `p_offset` of the entries from `i` on, `rounds` of them.
abbrev pub IsApart : (i rounds a n : ℕ) → Type 0
IsApart i rounds a n =
    (j : ℕ) → i ≤ j → j < i + rounds → (a + n ≤ j * sizeof_phdr + 8) ⊎ (j * sizeof_phdr + 16 ≤ a)

module _ (old_descsz newdescsz : ℕ) where
  -- The bytes of a member of 64 bits after `sizediff` has been added to it.
  abbrev pub moved : List ℕ → List ℕ
  moved member = to_le 8 (add_diff old_descsz newdescsz (of_le member))

  pub add_diff_at_lem :
      (at : ℕ) (phdr : List ℕ)
      → at + 8 ≤ length phdr
      → add_diff_at old_descsz newdescsz at phdr ≡ ok (overwrite phdr at (moved (slice phdr at 8)))
  unfolding add_diff_at load
  add_diff_at_lem at phdr inside =
      let test : leb (at + 8) (length phdr) ≡ true = ground arith in rw test refl

  -- The table after the loop over the entries from `i` on.
  pub record IsShifted (i rounds : ℕ) (phdr t : List ℕ) : Type 0 where
    pub same_length : length t ≡ length phdr
    pub moved_offsets :
        (j : ℕ)
        → i ≤ j
        → j < i + rounds
        → slice t (j * sizeof_phdr + 8) 8 ≡ moved (slice phdr (j * sizeof_phdr + 8) 8)
    pub same_rest : (a n : ℕ) → IsApart i rounds a n → slice t a n ≡ slice phdr a n

  module _ (phdr : List ℕ) (at : ℕ) (inside : at + 8 ≤ length phdr) where
    abbrev pub one_moved : List ℕ
    one_moved = overwrite phdr at (moved (slice phdr at 8))

    fits : at + length (moved (slice phdr at 8)) ≤ length phdr
    fits = omega (arith, length-to_le 8 (add_diff old_descsz newdescsz (of_le (slice phdr at 8))))

    pub one_moved-length : length one_moved ≡ length phdr
    one_moved-length = length-overwrite phdr at (moved (slice phdr at 8)) fits

    pub one_moved-at : slice one_moved at 8 ≡ moved (slice phdr at 8)
    one_moved-at =
        slice-overwrite phdr at (moved (slice phdr at 8)) fits 8
          (sym (length-to_le 8 (add_diff old_descsz newdescsz (of_le (slice phdr at 8)))))

    pub one_moved-rest :
        (a n : ℕ) → (a + n ≤ at) ⊎ (at + 8 ≤ a) → slice one_moved a n ≡ slice phdr a n
    one_moved-rest a n (inl before) =
        slice-overwrite_before phdr at (moved (slice phdr at 8)) fits a n before
    one_moved-rest a n (inr after) =
        slice-overwrite_after phdr at (moved (slice phdr at 8)) fits a n
          (omega (arith, length-to_le 8 (add_diff old_descsz newdescsz (of_le (slice phdr at 8)))))

  pub shift_segments-IsShifted :
      (rounds i : ℕ) (phdr : List ℕ)
      → (i + rounds) * sizeof_phdr ≤ length phdr
      → (t : List ℕ) × (shift_segments old_descsz newdescsz phdr rounds i ≡ ok t)
        × IsShifted i rounds phdr t
  unfolding shift_segments
  shift_segments-IsShifted zero i phdr h = (
    phdr,
    refl,
    record {
      same_length = refl;
      moved_offsets = λ j l u. absurd (omega arith);
      same_rest = λ a n apart. refl;
    },
  )
  shift_segments-IsShifted (suc rounds) i phdr h =
      let at : ℕ = i * sizeof_phdr + 8 in
      let inside : at + 8 ≤ length phdr = omega arith in
      let (t, run, rest) =
        shift_segments-IsShifted rounds (i + 1) (one_moved phdr at inside)
          (omega (arith, one_moved-length phdr at inside)) in
      (
        t,
        rw (add_diff_at_lem at phdr inside) run,
        record {
          same_length = rest.same_length ∙ one_moved-length phdr at inside;
          moved_offsets = λ j l u. elim (Bool-cases (i == j)) [
            | inl here ↦
                let e : i ≡ j = (==_iff i j).0 here in
                rw (← e)
                  (rest.same_rest at 8 (λ k kl ku. inl (omega arith)) ∙ one_moved-at phdr at inside)
            | inr there ↦
                let after : i + 1 ≤ j = ground arith in
                rest.moved_offsets j after (omega arith)
                ∙ ap moved
                    (one_moved-rest phdr at inside (j * sizeof_phdr + 8) 8 (inr (omega arith)))
          ];
          same_rest = λ a n apart.
              rest.same_rest a n (λ j l u. apart j (omega arith) (omega arith))
              ∙ one_moved-rest phdr at inside a n (elim (apart i (omega arith) (omega arith)) [
                | inl b ↦ inl b
                | inr c ↦ inr (omega arith)
              ]);
        },
      )
