-- ===== src/BuildId/Table/Found.antt =====
-- What a search through a table reports lies in the file (editbuildid/editbuildid.c).
use mathlib.Core.Path.{subst}
use kernel_stuff.Common.{
  ℕ, zero, suc, ◌+◌, ◌-◌, ◌≡◌, refl, sym, inl, inr, Option, none, some, List, ◌==◌, Bool-cases,
}
use kernel_stuff.Common.Run.{ok, stop, uninitialised, Returns, >>=-Returns, Returns-map}
use kernel_stuff.Bytes.{Platform}
use kernel_stuff.Posix.{File, IsFile}
use kernel_stuff.Elf.{ElfInfo, getfield16, getaddr}
use kernel_stuff.BuildId.Note.{Search, failed, absent, found, fetch_data, find_buildid}
use kernel_stuff.Posix.Moved.{Moved, Moved-trans}
use kernel_stuff.BuildId.Note.Found.{
  Located, fetch_data-Moved, find_buildid-Moved, find_buildid-Located,
}
use kernel_stuff.BuildId.Table.{Table, int_mul, find_notes, search_table, find_buildid_in}

-- What is reported as found lies at the reported place.
abbrev pub Claims : List ℕ → Search → Type 0
Claims content (found b) = Located content b
Claims content failed = Unit
Claims content absent = Unit

-- After a search: the file is as it was, but for its offset, and the report is right.
abbrev pub IsSound : File → Search × File → Type 0
IsSound fd (s, g) = Moved fd g × Claims fd.bytes s

pub IsFile-of_Moved : (f g : File) → Moved f g → IsFile f → IsFile g
IsFile-of_Moved f g m v =
    subst IsFile (sym m) (record { content = v.content; offsets = v.offsets; size = v.size })

pub IsSound-trans : (f g : File) (r : Search × File) → Moved f g → IsSound g r → IsSound f r
IsSound-trans f g (found b, h) m (m', c) = (Moved-trans f g h m m', rw m at c)
IsSound-trans f g (failed, h) m (m', c) = (Moved-trans f g h m m', tt)
IsSound-trans f g (absent, h) m (m', c) = (Moved-trans f g h m m', tt)

pub Moved-refl : (f : File) → Moved f f
Moved-refl f = refl

find_buildid-IsSound :
    (platform : Platform) (fd : File) (info : ElfInfo) (offset len : ℕ) (s : Search) (g : File)
    → IsFile fd
    → find_buildid platform fd info offset len ≡ ok (s, g)
    → IsSound fd (s, g)
find_buildid-IsSound p fd info offset len (found b) g v e =
    (find_buildid-Moved p fd info offset len e, find_buildid-Located p fd info offset len v e)
find_buildid-IsSound p fd info offset len failed g v e =
    (find_buildid-Moved p fd info offset len e, tt)
find_buildid-IsSound p fd info offset len absent g v e =
    (find_buildid-Moved p fd info offset len e, tt)

abbrev IsUnfound : Option Search → Type 0
IsUnfound none = Unit
IsUnfound (some failed) = Unit
IsUnfound (some absent) = Unit
IsUnfound (some (found b)) = ⊥

module _ (platform : Platform) (info : ElfInfo) (t : Table) where
  search_table-IsSound :
      (entries : List ℕ) (num entsize fuel start : ℕ) (rv : Option Search) (fd : File)
      → IsUnfound rv
      → IsFile fd
      → Returns (IsSound fd) (search_table platform info t entries num entsize fuel start rv fd)
  unfolding search_table
  search_table-IsSound entries num entsize zero start rv fd u v = tt
  search_table-IsSound entries num entsize (suc fuel) start rv fd u v =
      >>=-Returns (IsSound fd) (find_notes platform info t entries entsize (num - start) start) _
        (elim [
          | none ↦ λ _. unfound rv fd u
          | some (i, offset, size) ↦ λ _.
              >>=-Returns (IsSound fd) (find_buildid platform fd info offset size) _ λ (s, g) e.
                after
                  (λ j h. search_table-IsSound entries num entsize fuel (j + 1) (some absent) h tt)
                  s g i (find_buildid-IsSound platform fd info offset size s g v e)
        ])
    where
      unfound :
          (rv : Option Search) (fd : File)
          → IsUnfound rv
          → Returns
              (IsSound fd)
              (elim rv [ none ↦ stop uninitialised | some result ↦ ok (result, fd) ])
      unfound none fd u = tt
      unfound (some failed) fd u = (refl, tt)
      unfound (some absent) fd u = (refl, tt)
      unfound (some (found b)) fd u = absurd u

      after :
          (ih : (j : ℕ) (h : File)
            → IsFile h
            → Returns
                (IsSound h)
                (search_table platform info t entries num entsize fuel (j + 1) (some absent) h))
          (s : Search) (g : File) (i : ℕ)
          → IsSound fd (s, g)
          → Returns (IsSound fd) (elim s [
            | absent ↦ search_table platform info t entries num entsize fuel (i + 1) (some absent) g
            | failed ↦ ok (failed, g)
            | found b ↦ ok (found b, g)
          ])
      after ih failed g i h = h
      after ih (found b) g i h = h
      after ih absent g i (m, _) =
          Returns-map (IsSound g) (IsSound fd) _ (λ r. IsSound-trans fd g r m)
            (ih i g (IsFile-of_Moved fd g m v))

  pub find_buildid_in-IsSound :
      (fd : File) (ehdr : List ℕ)
      → IsFile fd
      → Returns (IsSound fd) (find_buildid_in platform info t fd ehdr)
  unfolding find_buildid_in
  find_buildid_in-IsSound fd ehdr v =
      >>=-Returns (IsSound fd) (getfield16 platform info ehdr 0 t.num) _ λ num _.
        >>=-Returns (IsSound fd) (getaddr platform info ehdr 0 t.off) _ λ off _.
          >>=-Returns (IsSound fd) (getfield16 platform info ehdr 0 t.entsize) _ λ entsize _.
            elim (Bool-cases (num == 0)) [
              | inl zero_num ↦ rw zero_num (refl, tt)
              | inr some_num ↦ rw some_num (
                  >>=-Returns (IsSound fd) (int_mul num entsize) _ λ len _.
                    fetched num entsize (fetch_data fd off len).0 (fetch_data fd off len).1
                      (fetch_data-Moved fd off len))
            ]
    where
      fetched :
          (num entsize : ℕ) (got : Option (List ℕ)) (g : File)
          → Moved fd g
          → Returns (IsSound fd) (elim got [
            | none ↦ ok (failed, g)
            | some entries ↦ search_table platform info t entries num entsize (num + 1) 0 none g
          ])
      fetched num entsize none g m = (m, tt)
      fetched num entsize (some entries) g m =
          Returns-map (IsSound g) (IsSound fd) _ (λ r. IsSound-trans fd g r m)
            (search_table-IsSound entries num entsize (num + 1) 0 none g tt
              (IsFile-of_Moved fd g m v))
