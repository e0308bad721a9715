-- ===== src/CtfPrint.antt =====
-- ctf/ctfdictprint.c: print the names of the dictionaries in a CTF archive. libctf is an argument:
-- `ctf_arc_bufopen` on a section of bytes, and `ctf_archive_iter`, which is given a visitor and makes
-- the output of its calls. Messages on stderr are left out, and `fseek` to the end succeeds.
pub mod Names
mod Tests
use kernel_stuff.Common.{ℕ, Bool, Option, none, some, List, [], ◌∷◌, ◌++◌, take}
use kernel_stuff.Common.Run.{Run, ok, stop, exit, ◌>>=◌, ◌>>◌, require}
use kernel_stuff.Posix.{File, seek_set, seek_end, fread}

-- What `fopen` gives, and whether `malloc` gives the buffer.
unfoldable pub read_file : Option File → Bool → Run (ℕ × List ℕ)
read_file none allocates = stop (exit 1)
read_file (some f) allocates =
    let (size, f1) = seek_end f in
    let (sought, f2) = seek_set f1 0 in
    let (got, f3) = fread f2 size in
    do
      require allocates (exit 1)
      elim got [ none ↦ stop (exit 1) | some buf ↦ ok (size, buf ++ (0 ∷ [])) ]

-- The result of a visit, and what it prints.
unfoldable pub visit_dict : List ℕ → ℕ × List ℕ
visit_dict name = (0, name ++ (10 ∷ []))

module _ {Arc : Type 0} (bufopen : List ℕ → Option Arc)
    (archive_iter : Arc → (List ℕ → ℕ × List ℕ) → List ℕ) where
  unfoldable pub open_ctf : Option File → Bool → Run Arc
  open_ctf opened allocates = do
    (size, data_buf) ← read_file opened allocates
    elim (bufopen (take size data_buf)) [ none ↦ stop (exit 1) | some arc ↦ ok arc ]

  -- The exit status and the output, where `args` are the arguments behind the program's name.
  unfoldable pub main : List (List ℕ) → Option File → Bool → Run (ℕ × List ℕ)
  main [] opened allocates = ok (1, [])
  main (file ∷ []) opened allocates = do
    arc ← open_ctf opened allocates
    ok (0, archive_iter arc visit_dict)
  main (file ∷ other ∷ others) opened allocates = ok (1, [])
