-- ===== src/BuildId/Table/Complete.antt =====
-- The search through a table whose entries and notes are given as values
-- (editbuildid/editbuildid.c).
use kernel_stuff.Common.{
  ℕ, zero, suc, ◌+◌, ◌-◌, ◌*◌, ◌^◌, ◌≤◌, ◌<◌, ◌≡◌, refl, ap, ◌∙◌, ◌⊎◌, inl, inr, Bool, true, false,
  Option, none, some, List, [], ◌∷◌, ltb, leb, ◌==◌, ==_iff, if◌then◌else◌, length, arith,
  Bool-cases, slice, length-slice,
}
use kernel_stuff.Common.Run.{Run, ok, stop, uninitialised, ◌>>=◌}
use kernel_stuff.Bytes.{Platform, IsBytes}
use kernel_stuff.Bytes.Laws.{IsBytes-slice}
use kernel_stuff.Posix.{File, IsFile, seek_set, read, max_rw_count}
use kernel_stuff.Posix.Writes.{Works, read_whole}
use kernel_stuff.Elf.{ElfInfo, getfield32}
use kernel_stuff.Elf.Fields.{IsKnown, member, addr_size, getfield-eq-member, getaddr-eq-member}
use kernel_stuff.Elf.Notes.{Note}
use kernel_stuff.BuildId.Note.{BuildidInfo, Search, failed, absent, found, fetch_data, find_buildid}
use kernel_stuff.BuildId.Note.Values.{AllNotes, encode_notes}
use kernel_stuff.BuildId.Note.First.{first_id, find_note-first_id}
use kernel_stuff.BuildId.Table.{Table, int_mul, find_notes, search_table}

-- An entry of a table, with the notes that stand at its place.
pub record Entry : Type 0 where
  pub kind : ℕ
  pub offset : ℕ
  pub size : ℕ
  pub notes : List Note

-- What the search reports of the entries from one on, when `rv` has been assigned or not: the first
-- build ID of the first notes that have one. If there are no notes at all, `rv` is not assigned.
abbrev pub first_found : ℕ → Option Search → List Entry → Run Search
first_found note_kind none [] = stop uninitialised
first_found note_kind (some s) [] = ok s
first_found note_kind rv (e ∷ es) =
    if e.kind == note_kind
    then elim (first_id e.offset 0 e.notes) [
      | absent ↦ first_found note_kind (some absent) es
      | failed ↦ ok failed
      | found b ↦ ok (found b)
    ]
    else first_found note_kind rv es

Search-cases : (s : Search) → (s ≡ failed) ⊎ (s ≡ absent) ⊎ ((b : BuildidInfo) × (s ≡ found b))
Search-cases failed = inl refl
Search-cases absent = inr (inl refl)
Search-cases (found b) = inr (inr (b, refl))

-- The same file at another offset, with what was found.
abbrev pub at_pos : File → ℕ → Search → Run (Search × File)
at_pos fd pos s = ok (s, record fd { pos = pos })

-- The part of a file that is read whole.
abbrev pub IsInside : File → ℕ → ℕ → Type 0
IsInside fd offset len = (offset + len ≤ length fd.bytes) × (len ≤ max_rw_count)

seek_lem :
    (fd : File) (pos offset : ℕ)
    → offset ≤ fd.max_offset
    → seek_set (record fd { pos = pos }) offset ≡ (true, record fd { pos = offset })
unfolding seek_set
seek_lem fd pos offset low =
    let test : leb offset fd.max_offset ≡ true = ground arith in rw test refl

pub fetch_data_lem :
    (fd : File) (pos offset len : ℕ)
    → Works fd
    → IsFile fd
    → IsInside fd offset len
    → fetch_data (record fd { pos = pos }) offset len
      ≡ (some (slice fd.bytes offset len), record fd { pos = offset + len })
unfolding fetch_data
fetch_data_lem fd pos offset len w v (inside, small) =
    let whole : (length (slice fd.bytes offset len) == len) ≡ true =
      (==_iff _ _).1 (length-slice fd.bytes offset len inside) in
    let seek : seek_set (record fd { pos = pos }) offset ≡ (true, record fd { pos = offset }) =
      seek_lem fd pos offset (omega (arith, v.size)) in
    let block = read_whole (record fd { pos = offset }) len w small inside in
    rw (seek, block, whole)
      (ap (λ (f : File). (some (slice fd.bytes offset len), f))
        (ap (λ (r : Bool × File). (read r.1 len).1) seek
          ∙ ap (λ (r : Option (List ℕ) × File). r.1) block))

module _ (platform : Platform) (info : ElfInfo) (known : IsKnown info) where
  -- Notes in the file.
  abbrev pub HasNotes : File → Entry → Type 0
  HasNotes fd e =
      IsInside fd e.offset e.size
      × (slice fd.bytes e.offset e.size ≡ encode_notes info e.notes)
      × AllNotes e.notes

  find_buildid_lem :
      (fd : File) (pos : ℕ) (e : Entry)
      → Works fd
      → IsFile fd
      → HasNotes fd e
      → find_buildid platform (record fd { pos = pos }) info e.offset e.size
        ≡ at_pos fd (e.offset + e.size) (first_id e.offset 0 e.notes)
  unfolding find_buildid
  find_buildid_lem fd pos e w v (inside, same, all) =
      let block = slice fd.bytes e.offset e.size in
      let size : length block ≡ e.size = length-slice fd.bytes e.offset e.size (inside.0) in
      rw
        (
          fetch_data_lem fd pos e.offset e.size w v inside,
          find_note-first_id platform info block known
              (IsBytes-slice fd.bytes e.offset e.size v.content) e.notes e.offset (e.size + 1) 0 all
              same (omega (arith, size, ap length same)) (omega arith),
          find_buildid,
        )
        (ap (λ (r : Option (List ℕ) × File). ok (first_id e.offset 0 e.notes, r.1))
          (fetch_data_lem fd pos e.offset e.size w v inside))

  module _ (t : Table) (fd : File) (w : Works fd) (v : IsFile fd) (entries : List ℕ)
      (bytes : IsBytes entries) (entsize : ℕ) where
    -- An entry as it stands in the table, which counts only for notes.
    abbrev pub IsEntry : ℕ → Entry → Type 0
    IsEntry i e =
        (i * entsize < 2 ^ 31)
        × (member info 4 entries (i * entsize) t.kind ≡ ok e.kind)
        × (e.kind ≡ t.note_kind
            → (member info (addr_size info) entries (i * entsize) t.offset ≡ ok e.offset)
              × (member info (addr_size info) entries (i * entsize) t.size ≡ ok e.size)
              × HasNotes fd e)

    abbrev pub AllEntries : ℕ → List Entry → Type 0
    AllEntries i [] = Unit
    AllEntries i (e ∷ es) = IsEntry i e × AllEntries (i + 1) es

    find_notes_here :
        (rounds i : ℕ) (e : Entry)
        → IsEntry i e
        → e.kind ≡ t.note_kind
        → find_notes platform info t entries entsize (suc rounds) i
          ≡ ok (some (i, e.offset, e.size))
    unfolding find_notes getfield32
    find_notes_here rounds i e (low, kind, is) note =
        let (offset, size, has) = is note in
        let product : ltb (i * entsize) (2 ^ 31) ≡ true = ground arith in
        let test : (e.kind == t.note_kind) ≡ true = (==_iff _ _).1 note in
        rw
          (
            product,
            int_mul,
            getfield-eq-member platform info 4 entries (i * entsize) t.kind known bytes ∙ kind,
            test,
            getaddr-eq-member platform info entries (i * entsize) t.offset known bytes ∙ offset,
            getaddr-eq-member platform info entries (i * entsize) t.size known bytes ∙ size,
          )
          refl

    find_notes_later :
        (rounds i : ℕ) (e : Entry)
        → IsEntry i e
        → (e.kind == t.note_kind) ≡ false
        → find_notes platform info t entries entsize (suc rounds) i
          ≡ find_notes platform info t entries entsize rounds (i + 1)
    unfolding find_notes getfield32
    find_notes_later rounds i e (low, kind, is) other =
        let product : ltb (i * entsize) (2 ^ 31) ≡ true = ground arith in
        rw
          (
            product,
            int_mul,
            getfield-eq-member platform info 4 entries (i * entsize) t.kind known bytes ∙ kind,
            other,
          )
          refl

    no_notes :
        (num start : ℕ)
        → num - start ≡ 0
        → find_notes platform info t entries entsize (num - start) start ≡ ok none
    unfolding find_notes
    no_notes num start past = rw past refl

    notes_at :
        (num start : ℕ) (e : Entry) (es : List Entry)
        → IsEntry start e
        → start + suc (length es) ≡ num
        → e.kind ≡ t.note_kind
        → find_notes platform info t entries entsize (num - start) start
          ≡ ok (some (start, e.offset, e.size))
    notes_at num start e es fit all note =
        ap (λ r. find_notes platform info t entries entsize r start) {x = num - start}
          {y = suc (length es)} (omega arith)
        ∙ find_notes_here (length es) start e fit note

    notes_behind :
        (num start : ℕ) (e : Entry) (es : List Entry)
        → IsEntry start e
        → start + suc (length es) ≡ num
        → (e.kind == t.note_kind) ≡ false
        → find_notes platform info t entries entsize (num - start) start
          ≡ find_notes platform info t entries entsize (num - (start + 1)) (start + 1)
    notes_behind num start e es fit all other =
        ap (λ r. find_notes platform info t entries entsize r start) {x = num - start}
          {y = suc (length es)} (omega arith)
        ∙ find_notes_later (length es) start e fit other
        ∙ ap (λ r. find_notes platform info t entries entsize r (start + 1)) {x = length es}
            {y = num - (start + 1)} (omega arith)

    -- The loop over the table, from one entry on.
    pub search_table_lem :
        (es : List Entry) (num fuel start pos : ℕ) (rv : Option Search)
        → start + length es ≡ num
        → length es < fuel
        → AllEntries start es
        → (pos' : ℕ) × (search_table platform info t entries num entsize fuel start rv
              (record fd { pos = pos })
            ≡ (first_found t.note_kind rv es >>= at_pos fd pos'))
    unfolding search_table
    search_table_lem es num zero start pos rv all enough fit = absurd (omega arith)
    search_table_lem [] num (suc fuel) start pos none all enough fit =
        (pos, rw (no_notes num start (omega arith)) refl)
    search_table_lem [] num (suc fuel) start pos (some s) all enough fit =
        (pos, rw (no_notes num start (omega arith)) refl)
    search_table_lem (e ∷ es) num (suc fuel) start pos rv all enough (fit, fits) =
        elim (Bool-cases (e.kind == t.note_kind)) [
          | inl note ↦
              let here = notes_at num start e es fit all ((==_iff _ _).0 note) in
              let (_, _, is) = fit in
              let (_, _, has) = is ((==_iff _ _).0 note) in
              let block = find_buildid_lem fd pos e w v has in
              let (pos', later) =
                search_table_lem es num fuel (start + 1) (e.offset + e.size) (some absent)
                  (omega arith) (omega arith) fits in
              elim (Search-cases (first_id e.offset 0 e.notes)) [
                | inl fails ↦ (e.offset + e.size, rw (here, block, note, fails) refl)
                | inr (inl none_here) ↦ (pos', rw (here, block, note, none_here) later)
                | inr (inr (b, gives)) ↦ (e.offset + e.size, rw (here, block, note, gives) refl)
              ]
          | inr other ↦
              let (pos', later) =
                search_table_lem es num (suc fuel) (start + 1) pos rv (omega arith) (omega arith)
                  fits in
              (pos', rw (notes_behind num start e es fit all other, other) later)
        ]
