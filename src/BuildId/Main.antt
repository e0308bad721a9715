-- ===== src/BuildId/Main.antt =====
-- The search through a file and the command (editbuildid/editbuildid.c): `find_build_id`,
-- `write_new_buildid`, `main`. The options are what `getopt_long` returns, in order, and `args` the
-- arguments that it leaves; messages on stderr are not modelled.
pub mod Find
pub mod Complete
mod Tests
pub mod Edit
use kernel_stuff.Common.{
  ℕ, ◌+◌, ◌/◌, ◌%◌, List, [], ◌∷◌, ◌++◌, Bool, true, false, not, ◌&&◌, ◌||◌, Option, none, some,
  ◌==◌, if◌then◌else◌, length, take,
}
use kernel_stuff.Common.Run.{Run, ok, stop, exit, ◌>>=◌}
use kernel_stuff.Bytes.{Platform}
use kernel_stuff.CString.{peek_byte}
use kernel_stuff.Posix.{File, seek_set, read, write}
use kernel_stuff.Elf.{ElfInfo, elfclass32, elfclass64, elfdata2lsb, elfdata2msb}
use kernel_stuff.Hex.{from_hex}
use kernel_stuff.BuildId.Note.{BuildidInfo, Search, failed, absent, found}
use kernel_stuff.BuildId.Table.{find_buildid_phdr, find_buildid_shdr}

-- `sizeof(ehdrbuf)`, the larger of the two ELF headers.
abbrev pub sizeof_ehdr : ℕ
sizeof_ehdr = 64

-- `e_ident[EI_CLASS]` and `e_ident[EI_DATA]`
abbrev pub ei_class : ℕ
ei_class = 4

abbrev pub ei_data : ℕ
ei_data = 5

-- The search after the ELF header has been read into memory.
unfoldable pub search_ehdr : Platform → File → List ℕ → Run (Search × File)
search_ehdr platform fd ehdr = do
  mag0 ← peek_byte ehdr 0
  mag1 ← peek_byte ehdr 1
  mag2 ← peek_byte ehdr 2
  mag3 ← peek_byte ehdr 3
  bits ← peek_byte ehdr ei_class
  endian ← peek_byte ehdr ei_data
  let info : ElfInfo = record { endian = endian; bits = bits }
  let shdr_search = find_buildid_shdr platform info
  if not (mag0 == 0x7f && mag1 == b'E' && mag2 == b'L' && mag3 == b'F')
      then ok (failed, fd)
      else if not (bits == elfclass32 || bits == elfclass64)
      then ok (failed, fd)
      else if not (endian == elfdata2lsb || endian == elfdata2msb)
      then ok (failed, fd)
      else (do
        (result, fd') ← find_buildid_phdr platform info fd ehdr
        elim result [
          | absent ↦ shdr_search fd' ehdr
          | failed ↦ ok (failed, fd')
          | found b ↦ ok (found b, fd')
        ])

unfoldable pub find_build_id : Platform → File → Run (Search × File)
find_build_id platform fd =
    let (got, f) = read fd sizeof_ehdr in
    elim got [
      | none ↦ ok (failed, f)
      | some ehdr ↦
          if length ehdr == sizeof_ehdr then search_ehdr platform f ehdr else ok (failed, f)
    ]

-- Whether 0 is returned, and not -1. An error of `write` is only reported.
unfoldable pub write_new_buildid : File → ℕ → List ℕ → ℕ → Bool × File
write_new_buildid fd offset new size =
    let (sought, f) = seek_set fd offset in
    if sought then (true, (write f (take size new)).1) else (false, f)

pub data Opt : Type 0 where
  help unknown verbose print : Opt
  new : List ℕ → Opt

-- The variables that the options set.
pub record Config : Type 0 where
  pub is_verbose : Bool
  pub is_print : Bool
  pub newid_hex : Option (List ℕ)

-- The loop over the options. `help` prints the usage and exits.
unfoldable pub read_opts : List Opt → Config → Run Config
read_opts [] c = ok c
read_opts (help ∷ opts) c = stop (exit 0)
read_opts (unknown ∷ opts) c = stop (exit 0)
read_opts (verbose ∷ opts) c = read_opts opts (record c { is_verbose = true })
read_opts (print ∷ opts) c = read_opts opts (record c { is_print = true })
read_opts (new hex ∷ opts) c = read_opts opts (record c { newid_hex = some hex })

-- What `main` leaves: its exit status, what it printed, and the file if it opened it.
pub record Outcome : Type 0 where
  pub status : ℕ
  pub out : List ℕ
  pub file : Option File

abbrev pub ended : ℕ → List ℕ → File → Outcome
ended status out f = record { status = status; out = out; file = some f }

abbrev pub refused : Outcome
refused = record { status = 1; out = []; file = none }

-- `main` from the test of the new ID on; a status of 255 is the return value -1.
unfoldable pub write_id : File → BuildidInfo → List ℕ → Run Outcome
write_id fd info newid_hex = do
  newid_bytes ← (if length newid_hex % 2 == 0 then from_hex newid_hex else ok none)
  elim newid_bytes [
    | none ↦ ok (ended 1 [] fd)
    | some new_bytes ↦
        let (written, f) = write_new_buildid fd info.data_offset new_bytes info.bytes_size in
        if not (length newid_hex / 2 == info.bytes_size)
        then ok (ended 1 [] fd)
        else if written
        then ok (ended 0 [] f)
        else ok (ended 255 [] f)
  ]

-- `main` from the search on, with `newid_hex` the new ID or `none` for `print`.
unfoldable pub edit_file : Platform → File → Option (List ℕ) → Run Outcome
edit_file platform fd newid_hex = do
  (result, f) ← find_build_id platform fd
  elim result [
    | failed ↦ ok (ended 255 [] f)
    | absent ↦ ok (ended 0 [] f)
    | found info ↦ elim newid_hex [
      | none ↦ ok (ended 0 (info.hex ++ 10 ∷ []) f)
      | some hex ↦ write_id f info hex
    ]
  ]

-- `main` after `open`, whose result -1 is `none`.
unfoldable pub run_file : Platform → Config → Option File → Run Outcome
run_file platform c none = ok refused
run_file platform c (some fd) = edit_file platform fd (if c.is_print then none else c.newid_hex)

-- `main` after the loop over the options: exactly one argument, and exactly one of the two modes.
unfoldable pub run_config : Platform → (List ℕ → Option File) → Config → List (List ℕ) → Run Outcome
run_config platform opens c (path ∷ []) = elim c.newid_hex [
  | none ↦ if c.is_print then run_file platform c (opens path) else ok refused
  | some hex ↦ if c.is_print then ok refused else run_file platform c (opens path)
]
run_config platform opens c other = ok refused

-- `opens` is what `open` makes of a path.
unfoldable pub main : Platform → (List ℕ → Option File) → List Opt → List (List ℕ) → Run Outcome
main platform opens opts args = do
  c ← read_opts opts (record { is_verbose = false; is_print = false; newid_hex = none })
  run_config platform opens c args
