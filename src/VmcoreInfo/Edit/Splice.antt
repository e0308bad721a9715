-- ===== src/VmcoreInfo/Edit/Splice.antt =====
-- What the data of a vmcore are after its note has been replaced (vmcoreinfo/editvmcoreinfo.c).
use kernel_stuff.Common.{
  ℕ, ◌+◌, ◌-◌, ◌%◌, ◌^◌, ◌≤◌, ◌<◌, ◌≡◌, refl, ap, ◌∙◌, Bool, true, false, Option, none, some, List,
  [], ◌++◌, append_assoc, leb, le→leb, ◌==◌, ==_iff, length, arith, take, drop, length-append,
  length-drop, take-all, slice,
}
use kernel_stuff.Common.Run.{ok}
use kernel_stuff.Posix.{write, File, max_rw_count, seek_set, seek_end, truncate}
use kernel_stuff.VmcoreInfo.{SavedElfdata}
use kernel_stuff.VmcoreInfo.Edit.{
  Copied, sendfile_loop, new_note, write_all, copy_back, put_back, shift_data,
}
use kernel_stuff.Posix.Writes.{Works, appended, write-appended}
use kernel_stuff.VmcoreInfo.Edit.Copy.{copied, sendfile_loop_lem}

-- A write that takes the whole block.
pub write_all_done :
    (f g : File) (block : List ℕ)
    → write f block ≡ (some (length block), g)
    → write_all f block ≡ (true, g)
write_all_done f g block e =
    ap
      (λ (r : Option ℕ × File). elim r.0 as (λ _. Bool × File) [
        | none ↦ (false, r.1)
        | some n ↦ (n == length block, r.1)
      ])
      e
    ∙ ap (λ b. (b, g)) ((==_iff _ _).1 refl)

write_all-appended :
    (f : File) (block : List ℕ)
    → Works f
    → f.pos ≡ length f.bytes
    → length block ≤ max_rw_count
    → write_all f block ≡ (true, appended f block)
write_all-appended f block w at fits = write_all_done f _ block (write-appended f block w at fits)

-- The file that `put_back` cuts off, at its end.
abbrev cut_end : File → ℕ → File
cut_end fd start = (seek_end (truncate fd start)).1

module _ (fd tmp : File) (se : SavedElfdata) (note : List ℕ) (n : ℕ) (wd : Works fd)
    (wt : Works tmp) (fits : length note ≤ max_rw_count) (whole : n ≡ length tmp.bytes)
    (small : n < 2 ^ 63) where
  abbrev pub start : ℕ
  start = se.notes_start + se.vi_note_start

  abbrev pub final : File
  final = (copied (appended (cut_end fd start) note) (record tmp { pos = 0 }) n).dst

  pub put_back_lem : put_back fd tmp se note n ≡ ok (true, final)
  unfolding put_back copy_back seek_set seek_end truncate
  put_back_lem =
      let k : File = cut_end fd start in
      let wrote : write_all k note ≡ (true, appended k note) =
        write_all-appended k note wd refl fits in
      let low : leb 0 tmp.max_offset ≡ true = ground arith in
      let sent : sendfile_loop (n + 1) (appended k note) (record tmp { pos = 0 }) n 0
          ≡ ok (copied (appended k note) (record tmp { pos = 0 }) n) =
        sendfile_loop_lem (n + 1) (appended k note) (record tmp { pos = 0 }) n 0 n wd wt
          (omega (arith, length-append k.bytes note)) (omega arith) small (omega arith)
          (omega arith) in
      rw low (ap (λ w. copy_back w (record tmp { pos = 0 }) n) wrote ∙ rw sent refl)

  pub final-bytes : final.bytes ≡ take start fd.bytes ++ (note ++ tmp.bytes)
  unfolding seek_end truncate
  final-bytes =
      append_assoc (take start fd.bytes) note (take n tmp.bytes)
      ∙ ap (λ l. take start fd.bytes ++ (note ++ l)) (take-all n tmp.bytes (omega arith))

-- The end of the old note in the file.
abbrev pub note_end : SavedElfdata → ℕ
note_end se = se.notes_start + se.vi_note_end

-- With the new note given.
pub shift_data-splice :
    (fd tmp : File) (se : SavedElfdata) (newdesc note : List ℕ)
    → fd.max_offset < 2 ^ 63
    → length fd.bytes ≤ fd.max_offset
    → Works fd
    → Works tmp
    → (tmp.bytes ≡ []) × (tmp.pos ≡ 0)
    → note_end se ≤ length fd.bytes
    → new_note se.notes se.vi_note_start (length newdesc) newdesc ≡ ok note
    → length note ≤ max_rw_count
    → (f : File) × (shift_data fd (some tmp) se (length newdesc) newdesc ≡ ok (true, f))
      × (f.bytes
          ≡ take (se.notes_start + se.vi_note_start) fd.bytes
            ++ (note ++ drop (note_end se) fd.bytes))
unfolding shift_data seek_set seek_end
shift_data-splice fd tmp se newdesc note low_max fits_max wd wt (empty, at) inside made fits =
    let size : ℕ = length fd.bytes in
    let offset : note_end se % 2 ^ 64 ≡ note_end se = omega arith in
    let n : ℕ = size - note_end se in
    let savesz : (size + 2 ^ 64 - note_end se) % 2 ^ 64 ≡ n = omega arith in
    let test : leb (note_end se) fd.max_offset ≡ true = le→leb _ _ (omega arith) in
    let old : File = record fd { pos = note_end se } in
    let k : Copied = copied tmp old n in
    let behind : slice fd.bytes (note_end se) n ≡ drop (note_end se) fd.bytes =
      take-all n (drop (note_end se) fd.bytes)
        (omega (arith, length-drop (note_end se) fd.bytes)) in
    let saved : k.dst.bytes ≡ drop (note_end se) fd.bytes =
      ap (λ l. l ++ slice fd.bytes (note_end se) n) empty ∙ behind in
    let whole : n ≡ length k.dst.bytes =
      omega (arith, ap length saved, length-drop (note_end se) fd.bytes) in
    let small : n < 2 ^ 63 = omega arith in
    let sent : sendfile_loop (n + 1) tmp old n 0 ≡ ok k =
      sendfile_loop_lem (n + 1) tmp old n 0 n wt wd (omega (arith, at, ap length empty))
        (omega arith) small (omega arith) (omega arith) in
    (
      final k.src k.dst se note n wd wt fits whole small,
      rw (made, offset, savesz, test, sent)
          (put_back_lem k.src k.dst se note n wd wt fits whole small),
      final-bytes k.src k.dst se note n wd wt fits whole small
          ∙ ap (λ l. take (se.notes_start + se.vi_note_start) fd.bytes ++ (note ++ l)) saved,
    )
