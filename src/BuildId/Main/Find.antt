-- ===== src/BuildId/Main/Find.antt =====
-- What the search through the whole file reports (editbuildid/editbuildid.c).
use kernel_stuff.Common.{
  ℕ, ◌≡◌, refl, inl, inr, Bool, true, false, not, ◌&&◌, ◌||◌, Option, none, some, List, ◌==◌,
  if◌then◌else◌, length, Bool-cases,
}
use kernel_stuff.Common.Run.{Run, ok, ◌>>=◌, Returns, >>=-Returns, Returns-eq-ok, Returns-map}
use kernel_stuff.Bytes.{Platform}
use kernel_stuff.CString.{peek_byte}
use kernel_stuff.Posix.{File, IsFile, read}
use kernel_stuff.Elf.{ElfInfo}
use kernel_stuff.BuildId.Note.{BuildidInfo, Search, failed, absent, found}
use kernel_stuff.Posix.Moved.{Moved, read-Moved}
use kernel_stuff.BuildId.Note.Found.{Located}
use kernel_stuff.BuildId.Table.{phdr, shdr, find_buildid_phdr, find_buildid_shdr}
use kernel_stuff.BuildId.Table.Found.{
  IsSound, IsFile-of_Moved, IsSound-trans, find_buildid_in-IsSound,
}
use kernel_stuff.BuildId.Main.{search_ehdr, find_build_id, sizeof_ehdr, ei_class, ei_data}

module _ (platform : Platform) where
  search_ehdr-IsSound :
      (fd : File) (ehdr : List ℕ) → IsFile fd → Returns (IsSound fd) (search_ehdr platform fd ehdr)
  unfolding search_ehdr
  search_ehdr-IsSound fd ehdr v = >>=-Returns (IsSound fd) (peek_byte ehdr 0) _ λ mag0 _.
      >>=-Returns (IsSound fd) (peek_byte ehdr 1) _ λ mag1 _.
        >>=-Returns (IsSound fd) (peek_byte ehdr 2) _ λ mag2 _.
          >>=-Returns (IsSound fd) (peek_byte ehdr 3) _ λ mag3 _.
            >>=-Returns (IsSound fd) (peek_byte ehdr ei_class) _ λ bits _.
              >>=-Returns (IsSound fd) (peek_byte ehdr ei_data) _ λ endian _.
                guarded (not (mag0 == 0x7f && mag1 == b'E' && mag2 == b'L' && mag3 == b'F')) _ (
                  guarded (not (bits == 1 || bits == 2)) _ (
                    guarded (not (endian == 1 || endian == 2)) _
                      (searched (record { endian = endian; bits = bits }))))
    where
      guarded :
          (bad : Bool) (m : Run (Search × File))
          → Returns (IsSound fd) m
          → Returns (IsSound fd) (if bad then ok (failed, fd) else m)
      guarded true m h = (refl, tt)
      guarded false m h = h

      after :
          (info : ElfInfo) (r : Search × File)
          → IsSound fd r
          → Returns (IsSound fd) (elim r.0 [
            | absent ↦ find_buildid_shdr platform info r.1 ehdr
            | failed ↦ ok (failed, r.1)
            | found b ↦ ok (found b, r.1)
          ])
      after info (failed, g) h = h
      after info (found b, g) h = h
      after info (absent, g) (m, _) =
          Returns-map (IsSound g) (IsSound fd) _ (λ r. IsSound-trans fd g r m)
            (find_buildid_in-IsSound platform info shdr g ehdr (IsFile-of_Moved fd g m v))

      searched :
          (info : ElfInfo)
          → Returns (IsSound fd) (
              find_buildid_phdr platform info fd ehdr >>= λ (result, fd'). elim result [
                | absent ↦ find_buildid_shdr platform info fd' ehdr
                | failed ↦ ok (failed, fd')
                | found b ↦ ok (found b, fd')
              ])
      searched info = >>=-Returns (IsSound fd) (find_buildid_phdr platform info fd ehdr) _ λ r e.
          after info r
            (Returns-eq-ok (IsSound fd) _ (find_buildid_in-IsSound platform info phdr fd ehdr v) e)

  -- The search leaves the file as it is, but for its offset, and what it reports as found lies at
  -- the reported place: the offset and the size are inside the file, the size is at most 512, and
  -- the text is that of the bytes that stand there.
  pub find_build_id-IsSound :
      (fd : File) → IsFile fd → Returns (IsSound fd) (find_build_id platform fd)
  unfolding find_build_id
  find_build_id-IsSound fd v =
      had (read fd sizeof_ehdr).0 (read fd sizeof_ehdr).1 (read-Moved fd sizeof_ehdr)
    where
      had :
          (got : Option (List ℕ)) (g : File)
          → Moved fd g
          → Returns (IsSound fd) (elim got [
            | none ↦ ok (failed, g)
            | some ehdr ↦
                if length ehdr == sizeof_ehdr then search_ehdr platform g ehdr else ok (failed, g)
          ])
      had none g m = (m, tt)
      had (some ehdr) g m = elim (Bool-cases (length ehdr == sizeof_ehdr)) [
        | inl whole ↦ rw whole (
            Returns-map (IsSound g) (IsSound fd) _ (λ r. IsSound-trans fd g r m)
              (search_ehdr-IsSound g ehdr (IsFile-of_Moved fd g m v)))
        | inr short ↦ rw short (m, tt)
      ]

  -- Where the search over an open file reports a build ID, the file is as it was but for its
  -- offset; the reported offset and size lie inside the content, the size is at most 512, and the
  -- reported text is the hexadecimal text of the bytes that stand there.
  pub find_build_id_sound :
      (fd : File) {b : BuildidInfo} {g : File}
      → IsFile fd
      → find_build_id platform fd ≡ ok (found b, g)
      → Moved fd g × Located fd.bytes b
  find_build_id_sound fd v e = Returns-eq-ok (IsSound fd) _ (find_build_id-IsSound fd v) e
