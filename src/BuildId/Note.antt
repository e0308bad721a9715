-- ===== src/BuildId/Note.antt =====
-- The notes of one segment or section (editbuildid/editbuildid.c): `pad4`, `note_desc`,
-- `next_note`, `end_notes`, `fetch_data`, `find_buildid`. A pointer into the block of notes is its
-- offset in the block.
pub mod Found
pub mod Walk
pub mod Values
pub mod First
use kernel_stuff.Common.{
  ℕ, zero, suc, ◌+◌, ◌*◌, ◌/◌, ◌%◌, ◌^◌, List, [], ◌∷◌, Bool, true, false, not, ◌&&◌, Option, none,
  some, ltb, leb, ◌==◌, if◌then◌else◌, length,
}
use kernel_stuff.Common.Run.{Run, ok, stop, out_of_fuel, ◌>>=◌}
use kernel_stuff.Bytes.{Platform, peek}
use kernel_stuff.CString.{strcmp_eq}
use kernel_stuff.Posix.{File, seek_set, read}
use kernel_stuff.Elf.{ElfInfo, getfield32, n_namesz, n_descsz, n_type}
use kernel_stuff.Hex.{to_hex}

-- `size_t` arithmetic: `val & 3` is the remainder by 4, `val & ~3` the rest.
unfoldable pub pad4 : ℕ → ℕ
pad4 val = if val % 4 == 0 then val else (val / 4 * 4 + 4) % 2 ^ 64

abbrev pub sizeof_nhdr : ℕ
sizeof_nhdr = 12

-- The sizes are parameters of type `uint16_t`: what is passed is cut to 16 bits.
unfoldable pub note_desc : ℕ → ℕ → ℕ
note_desc nhdr namesz = nhdr + sizeof_nhdr + pad4 (namesz % 2 ^ 16)

unfoldable pub next_note : ℕ → ℕ → ℕ → ℕ
next_note nhdr namesz descsz = nhdr + sizeof_nhdr + pad4 (namesz % 2 ^ 16) + pad4 (descsz % 2 ^ 16)

-- The block starts at offset 0.
unfoldable pub end_notes : ℕ → ℕ → Bool
end_notes len ptr = leb len ptr

abbrev pub max_buildid_size : ℕ
max_buildid_size = 512

abbrev pub nt_gnu_build_id : ℕ
nt_gnu_build_id = 3

-- "GNU" with its NUL.
abbrev pub gnu : List ℕ
gnu = b'G' ∷ b'N' ∷ b'U' ∷ 0 ∷ []

-- `struct buildid_info`; `hex` without its NUL.
pub record BuildidInfo : Type 0 where
  pub data_offset : ℕ
  pub bytes_size : ℕ
  pub hex : List ℕ

-- The results -1, 0 and 1 of the searches, the last with `*info_out`.
pub data Search : Type 0 where
  failed absent : Search
  found : BuildidInfo → Search

-- `none` is NULL. A `calloc` that fails is not modelled.
unfoldable pub fetch_data : File → ℕ → ℕ → Option (List ℕ) × File
fetch_data fd offset len =
    let (sought, f) = seek_set fd offset in
    let (got, f') = read f len in
    if not sought then (none, f) else elim got [
      | none ↦ (none, f')
      | some block ↦ if length block == len then (some block, f') else (none, f')
    ]

-- What one round of the loop of `find_buildid` does: it returns, or goes on with another `nhdr`.
pub data Round : Type 0 where
  give : Search → Round
  next : ℕ → Round

module _ (platform : Platform) (info : ElfInfo) (block : List ℕ) (offset : ℕ) where
  -- The body of the branch for a build ID note. `continue` leaves `nhdr` as it is.
  unfoldable pub take_buildid : ℕ → ℕ → ℕ → Run Round
  take_buildid nhdr namesz descsz = if ltb max_buildid_size descsz then ok (next nhdr) else (do
    raw ← peek block (note_desc nhdr namesz) descsz
    hex ← to_hex raw
    ok (
        give (
          found (record {
            data_offset = (offset + note_desc nhdr namesz) % 2 ^ 64;
            bytes_size = descsz;
            hex = hex;
          }))))

  unfoldable pub note_round : ℕ → Run Round
  note_round nhdr = do
    descsz ← getfield32 platform info block nhdr n_descsz
    namesz ← getfield32 platform info block nhdr n_namesz
    type ← getfield32 platform info block nhdr n_type
    is_gnu ← strcmp_eq gnu block (nhdr + sizeof_nhdr)
    if is_gnu && type == nt_gnu_build_id
        then take_buildid nhdr namesz descsz
        else ok (next (next_note nhdr namesz descsz))

  -- The loop from `nhdr` on, for as many rounds as the fuel allows.
  unfoldable pub find_note : ℕ → ℕ → Run Search
  find_note zero nhdr = stop out_of_fuel
  find_note (suc fuel) nhdr =
      let round = note_round nhdr in
      let go =
        λ (r : Round). elim r as (λ _. Run Search) [ give s ↦ ok s | next n ↦ find_note fuel n ] in
      if end_notes (length block) nhdr then ok absent else round >>= go

-- The fuel allows more rounds than the block has bytes.
unfoldable pub find_buildid : Platform → File → ElfInfo → ℕ → ℕ → Run (Search × File)
find_buildid platform fd info offset len =
    let (got, f) = fetch_data fd offset len in
    elim got [
      | none ↦ ok (failed, f)
      | some block ↦ do result ← find_note platform info block offset (len + 1) 0; ok (result, f)
    ]
