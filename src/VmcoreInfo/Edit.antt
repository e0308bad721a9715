-- ===== src/VmcoreInfo/Edit.antt =====
-- The changes of vmcoreinfo/editvmcoreinfo.c to the file: the program header table, and the data
-- that the new note moves; then `main`. A Boolean result is whether 0 is returned, and not -1.
pub mod Copy
pub mod Splice
pub mod Renewed
pub mod Edited
pub mod Encoded
pub mod Moved
pub mod Sizes
pub mod Offsets
pub mod Whole
pub mod Command
mod Tests
use kernel_stuff.Common.{
  ℕ, zero, suc, ◌+◌, ◌-◌, ◌*◌, ◌%◌, ◌^◌, Bool, true, false, not, Option, none, some, List, [], ◌∷◌,
  ltb, ◌==◌, if◌then◌else◌, length, take, replicate, overwrite,
}
use kernel_stuff.Common.Run.{Run, ok, stop, out_of_fuel, ◌>>=◌}
use kernel_stuff.Bytes.{to_le, peek}
use kernel_stuff.Posix.{File, seek_set, seek_end, write, truncate, sendfile}
use kernel_stuff.VmcoreInfo.{
  SavedElfdata, sizeof_notehdr, sizeof_phdr, pad4, note_desc, load, read_newdata, read_elfdata,
}

-- `x += sizediff` on a member of 64 bits.
unfoldable pub add_diff : ℕ → ℕ → ℕ → ℕ
add_diff old_descsz newdescsz x = (x + pad4 newdescsz + 2 ^ 64 - pad4 old_descsz) % 2 ^ 64

-- The same on the member at an offset of the table.
unfoldable pub add_diff_at : ℕ → ℕ → ℕ → List ℕ → Run (List ℕ)
add_diff_at old_descsz newdescsz at phdr = do
  old ← load phdr at 8
  ok (overwrite phdr at (to_le 8 (add_diff old_descsz newdescsz old)))

-- The loop over the segments from entry `i` on, with `rounds` entries left.
unfoldable pub shift_segments : ℕ → ℕ → List ℕ → ℕ → ℕ → Run (List ℕ)
shift_segments old_descsz newdescsz phdr zero i = ok phdr
shift_segments old_descsz newdescsz phdr (suc rounds) i = do
  shifted ← add_diff_at old_descsz newdescsz (i * sizeof_phdr + 8) phdr
  shift_segments old_descsz newdescsz shifted rounds (i + 1)

-- The table of `update_offsets`: the sizes of the notes segment, then the later offsets.
unfoldable pub update_table : SavedElfdata → ℕ → Run (List ℕ)
update_table se newdescsz = do
  let at = se.notes_seg * sizeof_phdr
  sized ← add_diff_at se.old_descsz newdescsz (at + 32) se.phdr
  memsz ← load sized (at + 40) 8
  notes_done ←
      (if memsz == 0 then ok sized else add_diff_at se.old_descsz newdescsz (at + 40) sized)
  shift_segments se.old_descsz newdescsz notes_done (se.e_phnum - (se.notes_seg + 1))
      (se.notes_seg + 1)

-- `write` of a block that takes all of it.
abbrev pub write_all : File → List ℕ → Bool × File
write_all f block =
    let (put, f') = write f block in
    elim put [ none ↦ (false, f') | some n ↦ (n == length block, f') ]

unfoldable pub update_offsets : File → SavedElfdata → ℕ → Run (Bool × File)
update_offsets fd se newdescsz = do
  phdr ← update_table se newdescsz
  let (sought, f) = seek_set fd se.e_phoff
  ok (if sought then write_all f (take (se.e_phentsize * se.e_phnum) phdr) else (false, f))

-- What `sendfile_loop` leaves.
pub record Copied : Type 0 where
  pub is_done : Bool
  pub dst : File
  pub src : File

-- For as many rounds as the fuel allows.
unfoldable pub sendfile_loop : ℕ → File → File → ℕ → ℕ → Run Copied
sendfile_loop zero dst src amt cur = stop out_of_fuel
sendfile_loop (suc fuel) dst src amt cur =
    let s = sendfile dst src (amt - cur) in
    elim s.sent [
      | none ↦ ok (record { is_done = false; dst = s.dst; src = s.src })
      | some rv ↦
          let rest = sendfile_loop fuel s.dst s.src amt (cur + rv) in
          if ltb (cur + rv) amt
          then rest
          else ok (record { is_done = true; dst = s.dst; src = s.src })
    ]

-- The new note of `shift_data`, from the old one at an offset of the notes.
unfoldable pub new_note : List ℕ → ℕ → ℕ → List ℕ → Run (List ℕ)
new_note notes vi_note newdescsz newdesc = do
  namesz ← load notes vi_note 4
  head ← peek notes vi_note (sizeof_notehdr + pad4 namesz)
  let sz = sizeof_notehdr + pad4 namesz + pad4 newdescsz
  let copied = overwrite (replicate sz 0) 0 head
  let sized = overwrite copied 4 (to_le 4 newdescsz)
  ok (overwrite sized (note_desc 0 namesz) (take newdescsz newdesc))

-- `shift_data` from the result of the write of the new note on.
unfoldable pub copy_back : Bool × File → File → ℕ → Run (Bool × File)
copy_back (false, fd) tmpfd savesz = ok (false, fd)
copy_back (true, fd) tmpfd savesz = do
  c ← sendfile_loop (savesz + 1) fd tmpfd savesz 0
  ok (c.is_done, c.dst)

-- `shift_data` once the data behind the old note are in the temporary file, until the end.
unfoldable pub put_back : File → File → SavedElfdata → List ℕ → ℕ → Run (Bool × File)
put_back fd tmpfd se newnote savesz =
    let f = (seek_end (truncate fd (se.notes_start + se.vi_note_start))).1 in
    let (rewound, tmp) = seek_set tmpfd 0 in
    if rewound then copy_back (write_all f newnote) tmp savesz else ok (false, f)

-- `tmpfile` is the temporary file, or `none` if `mkstemp` or `unlink` fails.
unfoldable pub shift_data : File → Option File → SavedElfdata → ℕ → List ℕ → Run (Bool × File)
shift_data fd tmpfile se newdescsz newdesc = do
  newnote ← new_note se.notes se.vi_note_start newdescsz newdesc
  let (size, end) = seek_end fd
  let offset = (se.notes_start + se.vi_note_end) % 2 ^ 64
  let (sought, f) = seek_set end offset
  let savesz = (size + 2 ^ 64 - offset) % 2 ^ 64
  if not sought then ok (false, f) else elim tmpfile [
    | none ↦ ok (false, f)
    | some tmpfd ↦ do
      c ← sendfile_loop (savesz + 1) tmpfd f savesz 0
      if c.is_done then put_back c.src c.dst se newnote savesz else ok (false, c.src)
  ]

-- `main` from `read_elfdata` on: the exit status and the file.
unfoldable pub edit_vmcore : File → Option File → List ℕ → Run (ℕ × File)
edit_vmcore elf_fd tmpfile newdata = do
  (saved, fd) ← read_elfdata elf_fd
  elim saved [
    | none ↦ ok (1, fd)
    | some se ↦ do
      (is_updated, f) ← update_offsets fd se (length newdata)
      (is_shifted, f') ←
          (if is_updated then shift_data f tmpfile se (length newdata) newdata else ok (false, f))
      ok ((if is_shifted then 0 else 1), f')
  ]

-- `opens` is what `open` or `fopen` makes of a path; a status of 255 is the return value -1, and the
-- file is the vmcore if it was opened.
unfoldable pub main : (List ℕ → Option File) → Option File → List (List ℕ) → Run (ℕ × Option File)
main opens tmpfile (vmcore ∷ new ∷ []) = elim (opens new) [
  | none ↦ ok (1, none)
  | some data_file ↦ elim (read_newdata data_file) [
    | none ↦ ok (1, none)
    | some newdata ↦ elim (opens vmcore) [
      | none ↦ ok (1, none)
      | some elf_fd ↦ do (status, f) ← edit_vmcore elf_fd tmpfile newdata; ok (status, some f)
    ]
  ]
]
main opens tmpfile other = ok (255, none)
