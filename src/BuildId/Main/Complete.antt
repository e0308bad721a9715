-- ===== src/BuildId/Main/Complete.antt =====
-- The search through a file whose tables and notes are given as values
-- (editbuildid/editbuildid.c).
use kernel_stuff.Common.{
  ℕ, ◌+◌, ◌*◌, ◌^◌, ◌≤◌, ◌<◌, ◌≡◌, refl, ap, ◌∙◌, ◌⊎◌, inl, inr, ◌||◌, true, false, Option, none,
  some, List, [], ◌∷◌, ltb, ◌==◌, ==_iff, if◌then◌else◌, length, arith, slice, length-slice,
}
use kernel_stuff.Common.Run.{Stop, Run, ok, stop, ◌>>=◌}
use kernel_stuff.Bytes.{Platform, IsBytes}
use kernel_stuff.Bytes.Laws.{IsBytes-slice}
use kernel_stuff.CString.{peek_byte}
use kernel_stuff.Posix.{File, IsFile, read}
use kernel_stuff.Posix.Writes.{Works, read_whole}
use kernel_stuff.Elf.{ElfInfo, getfield16}
use kernel_stuff.Elf.Fields.{IsKnown, member, addr_size, getfield-eq-member, getaddr-eq-member}
use kernel_stuff.BuildId.Note.{BuildidInfo, Search, failed, absent, found}
use kernel_stuff.BuildId.Table.{
  Table, int_mul, search_table, find_buildid_in, find_buildid_shdr, phdr, shdr,
}
use kernel_stuff.BuildId.Table.Complete.{
  Entry, first_found, at_pos, IsInside, AllEntries, fetch_data_lem, search_table_lem,
}
use kernel_stuff.BuildId.Main.{search_ehdr, find_build_id, sizeof_ehdr, ei_class, ei_data}

-- A table without entries has no build ID; otherwise its entries decide.
abbrev pub in_table : Table → List Entry → Run Search
in_table t [] = ok absent
in_table t (e ∷ es) = first_found t.note_kind none (e ∷ es)

-- The sections count only if the segments have no build ID.
abbrev pub in_file : List Entry → List Entry → Run Search
in_file segments sections = do
  result ← in_table phdr segments
  elim result [ absent ↦ in_table shdr sections | failed ↦ ok failed | found b ↦ ok (found b) ]

int_mul_lem : (a b : ℕ) → a * b < 2 ^ 31 → int_mul a b ≡ ok (a * b)
int_mul_lem a b small = let test : ltb (a * b) (2 ^ 31) ≡ true = ground arith in rw test refl

Run-cases :
    (r : Run Search)
    → ((r ≡ ok absent) ⊎ (r ≡ ok failed))
      ⊎ ((b : BuildidInfo) × (r ≡ ok (found b)))
      ⊎ ((s : Stop) × (r ≡ stop s))
Run-cases (ok absent) = inl (inl refl)
Run-cases (ok failed) = inl (inr refl)
Run-cases (ok (found b)) = inr (inl (b, refl))
Run-cases (stop s) = inr (inr (s, refl))

module _ (platform : Platform) (info : ElfInfo) (known : IsKnown info) (fd : File) (w : Works fd)
    (v : IsFile fd) (ehdr : List ℕ) (bytes : IsBytes ehdr) where
  -- A table that the ELF header leads to.
  pub record IsTable (t : Table) (es : List Entry) : Type 0 where
    pub off : ℕ
    pub entsize : ℕ
    pub has_num : member info 2 ehdr 0 t.num ≡ ok (length es)
    pub has_off : member info (addr_size info) ehdr 0 t.off ≡ ok off
    pub has_entsize : member info 2 ehdr 0 t.entsize ≡ ok entsize
    pub product : length es * entsize < 2 ^ 31
    pub inside : IsInside fd off (length es * entsize)
    pub fit :
        AllEntries platform info known t fd w v
          (slice fd.bytes off (length es * entsize))
          (IsBytes-slice fd.bytes off (length es * entsize) v.content)
          entsize
          0
          es

  find_buildid_in_lem :
      (t : Table) (es : List Entry) (pos : ℕ)
      → IsTable t es
      → (pos' : ℕ) × (find_buildid_in platform info t (record fd { pos = pos }) ehdr
          ≡ (in_table t es >>= at_pos fd pos'))
  unfolding find_buildid_in getfield16
  find_buildid_in_lem t [] pos k = (
    pos,
    rw
        (
          getfield-eq-member platform info 2 ehdr 0 t.num known bytes ∙ k.has_num,
          getaddr-eq-member platform info ehdr 0 t.off known bytes ∙ k.has_off,
          getfield-eq-member platform info 2 ehdr 0 t.entsize known bytes ∙ k.has_entsize,
        )
        refl,
  )
  find_buildid_in_lem t (e ∷ es) pos k =
      let len = length (e ∷ es) * k.entsize in
      let product : int_mul (length (e ∷ es)) k.entsize ≡ ok len =
        int_mul_lem (length (e ∷ es)) k.entsize k.product in
      let fetched = fetch_data_lem fd pos k.off len w v k.inside in
      let some_entries : (length (e ∷ es) == 0) ≡ false = ground arith in
      let (pos', searched) =
        search_table_lem platform info known t fd w v (slice fd.bytes k.off len)
          (IsBytes-slice fd.bytes k.off len v.content) k.entsize (e ∷ es) (length (e ∷ es))
          (length (e ∷ es) + 1) 0 (k.off + len) none (omega arith) (omega arith) k.fit in
      (
        pos',
        rw
            (
              getfield-eq-member platform info 2 ehdr 0 t.num known bytes ∙ k.has_num,
              getaddr-eq-member platform info ehdr 0 t.off known bytes ∙ k.has_off,
              getfield-eq-member platform info 2 ehdr 0 t.entsize known bytes ∙ k.has_entsize,
              some_entries,
              product,
            )
            (ap
                (λ (r : Option (List ℕ) × File). elim r.0 as (λ _. Run (Search × File)) [
                  | none ↦ ok (failed, r.1)
                  | some entries ↦
                      search_table platform info t entries (length (e ∷ es)) k.entsize
                        (length (e ∷ es) + 1) 0 none r.1
                ])
                fetched
              ∙ searched),
      )

  -- Both tables, one after the other.
  both_lem :
      (segments sections : List Entry) (pos : ℕ)
      → IsTable phdr segments
      → IsTable shdr sections
      → (pos' : ℕ) × ((find_buildid_in platform info phdr (record fd { pos = pos }) ehdr
            >>= (λ (result, fd'). elim result [
              | absent ↦ find_buildid_shdr platform info fd' ehdr
              | failed ↦ ok (failed, fd')
              | found b ↦ ok (found b, fd')
            ]))
          ≡ (in_file segments sections >>= at_pos fd pos'))
  both_lem segments sections pos k k' =
      let (mid, first) = find_buildid_in_lem phdr segments pos k in
      let (end, second) = find_buildid_in_lem shdr sections mid k' in
      elim (Run-cases (in_table phdr segments)) [
        | inl (inl none_here) ↦ (end, rw (first, none_here) second)
        | inl (inr fails) ↦ (mid, rw (first, fails) refl)
        | inr (inl (b, gives)) ↦ (mid, rw (first, gives) refl)
        | inr (inr (s, stops)) ↦ (mid, rw (first, stops) refl)
      ]

  -- The identification in the ELF header.
  pub record IsIdent : Type 0 where
    pub mag0 : peek_byte ehdr 0 ≡ ok 0x7f
    pub mag1 : peek_byte ehdr 1 ≡ ok b'E'
    pub mag2 : peek_byte ehdr 2 ≡ ok b'L'
    pub mag3 : peek_byte ehdr 3 ≡ ok b'F'
    pub has_class : peek_byte ehdr ei_class ≡ ok info.bits
    pub has_data : peek_byte ehdr ei_data ≡ ok info.endian

  search_ehdr_lem :
      (segments sections : List Entry) (pos : ℕ)
      → IsIdent
      → IsTable phdr segments
      → IsTable shdr sections
      → (pos' : ℕ) × (search_ehdr platform (record fd { pos = pos }) ehdr
          ≡ (in_file segments sections >>= at_pos fd pos'))
  unfolding search_ehdr
  search_ehdr_lem segments sections pos i k k' =
      let (pos', both) = both_lem segments sections pos k k' in
      let bits : (info.bits == 1 || info.bits == 2) ≡ true = ground (arith, known.0) in
      let endian : (info.endian == 1 || info.endian == 2) ≡ true = ground (arith, known.1) in
      (pos', rw (i.mag0, i.mag1, i.mag2, i.mag3, i.has_class, i.has_data, bits, endian) both)

-- On a file with which no call fails, in either class and byte order and on either platform: if it
-- begins with an ELF header, and the two tables that the header leads to hold entries whose notes are
-- the encodings of values, with sizes below 65536 and build IDs of at most 512 bytes, then the search
-- gives the first build ID of the segments, or else of the sections, with its place in the file and
-- its text; nothing where there is none; and it reaches the use of an unassigned variable exactly where
-- a table that is searched has entries but none for notes. Only the file's offset changes.
pub find_build_id-in_file :
    (platform : Platform) (info : ElfInfo) (known : IsKnown info) (fd : File) (w : Works fd)
    (v : IsFile fd) (segments sections : List Entry)
    → fd.pos ≡ 0
    → sizeof_ehdr ≤ length fd.bytes
    → IsIdent platform info known fd w v
        (slice fd.bytes 0 sizeof_ehdr)
        (IsBytes-slice fd.bytes 0 sizeof_ehdr v.content)
    → IsTable platform info known fd w v
        (slice fd.bytes 0 sizeof_ehdr)
        (IsBytes-slice fd.bytes 0 sizeof_ehdr v.content)
        phdr
        segments
    → IsTable platform info known fd w v
        (slice fd.bytes 0 sizeof_ehdr)
        (IsBytes-slice fd.bytes 0 sizeof_ehdr v.content)
        shdr
        sections
    → (pos' : ℕ) × (find_build_id platform fd ≡ (in_file segments sections >>= at_pos fd pos'))
unfolding find_build_id
find_build_id-in_file platform info known fd w v segments sections start enough i k k' =
    let ehdr = slice fd.bytes 0 sizeof_ehdr in
    let bytes = IsBytes-slice fd.bytes 0 sizeof_ehdr v.content in
    let header : read fd sizeof_ehdr ≡ (some ehdr, record fd { pos = sizeof_ehdr }) =
      read_whole fd sizeof_ehdr w (omega arith) (omega arith)
      ∙ ap (λ p. (some (slice fd.bytes p sizeof_ehdr), record fd { pos = p + sizeof_ehdr }))
          start in
    let size : (length ehdr == sizeof_ehdr) ≡ true =
      (==_iff _ _).1 (length-slice fd.bytes 0 sizeof_ehdr enough) in
    let (pos', found_first) =
      search_ehdr_lem platform info known fd w v ehdr bytes segments sections sizeof_ehdr i k k' in
    (
      pos',
      ap
            (λ (r : Option (List ℕ) × File). elim r.0 as (λ _. Run (Search × File)) [
              | none ↦ ok (failed, r.1)
              | some block ↦
                  if length block == sizeof_ehdr
                  then search_ehdr platform r.1 block
                  else ok (failed, r.1)
            ])
            header
          ∙ rw size found_first,
    )
