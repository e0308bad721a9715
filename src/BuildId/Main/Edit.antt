-- ===== src/BuildId/Main/Edit.antt =====
-- What the command does to the file (editbuildid/editbuildid.c).
use kernel_stuff.Common.{
  ℕ, ◌+◌, ◌/◌, ◌%◌, ◌≤◌, ◌≡◌, sym, ap, ◌∙◌, true, false, some, List, [], map, leb, le→leb, ◌==◌,
  ==_iff, length, arith, take, take-all, slice, overwrite,
}
use kernel_stuff.Common.Run.{ok, Returns-eq-ok}
use kernel_stuff.Bytes.{Platform}
use kernel_stuff.Posix.{File, IsFile, seek_set, write, write_at, max_rw_count}
use kernel_stuff.Hex.{to_hex, from_hex}
use kernel_stuff.BuildId.Note.{BuildidInfo, found}
use kernel_stuff.BuildId.Note.Found.{Located}
use kernel_stuff.BuildId.Table.Found.{IsSound, IsFile-of_Moved}
use kernel_stuff.BuildId.Main.{find_build_id, write_new_buildid, ended, write_id, edit_file}
use kernel_stuff.Posix.Writes.{write_at-inside, length-write_at, slice-write_at}
use kernel_stuff.Hex.Decode.{to_hex-from_hex, length-from_hex, even-from_hex, lower}
use kernel_stuff.BuildId.Main.Find.{find_build_id-IsSound}

-- The write of a new ID of the right size, in a file whose write at that place does not fail.
pub write_new_buildid_lem :
    (f : File) (b : BuildidInfo) (new : List ℕ)
    → IsFile f
    → Located f.bytes b
    → length new ≡ b.bytes_size
    → f.write_fails b.data_offset ≡ false
    → write_new_buildid f b.data_offset new b.bytes_size ≡ (
      true,
      record f { bytes = write_at f.bytes b.data_offset new; pos = b.data_offset + length new },
    )
unfolding write_new_buildid seek_set write
write_new_buildid_lem f b new v l size works =
    let sought : leb b.data_offset f.max_offset ≡ true = le→leb _ _ (omega arith) in
    let whole : take b.bytes_size new ≡ new = take-all b.bytes_size new (omega arith) in
    let short : take max_rw_count new ≡ new = take-all max_rw_count new (omega arith) in
    rw (sought, whole, short, works)

-- A write that fails is reported as a success.
write_new_buildid_fails :
    (f : File) (b : BuildidInfo) (new : List ℕ)
    → IsFile f
    → Located f.bytes b
    → f.write_fails b.data_offset ≡ true
    → write_new_buildid f b.data_offset new b.bytes_size ≡ (true, record f { pos = b.data_offset })
unfolding write_new_buildid seek_set write
write_new_buildid_fails f b new v l fails =
    let sought : leb b.data_offset f.max_offset ≡ true = le→leb _ _ (omega arith) in
    rw (sought, fails)

write_id_lem :
    (f : File) (b : BuildidInfo) (hex ids : List ℕ)
    → IsFile f
    → Located f.bytes b
    → from_hex hex ≡ ok (some ids)
    → length hex / 2 ≡ b.bytes_size
    → f.write_fails b.data_offset ≡ false
    → write_id f b hex
      ≡ ok (
          ended 0 [] (record f {
            bytes = write_at f.bytes b.data_offset ids;
            pos = b.data_offset + length ids;
          }))
unfolding write_id
write_id_lem f b hex ids v l d size works =
    let even : (length hex % 2 == 0) ≡ true = (==_iff _ _).1 (even-from_hex hex d) in
    let fits : (length hex / 2 == b.bytes_size) ≡ true = (==_iff _ _).1 size in
    let count : length ids ≡ b.bytes_size = omega (arith, length-from_hex hex ids d) in
    rw (even, d, write_new_buildid_lem f b ids v l count works, fits)

-- The same when the write fails.
write_id_fails :
    (f : File) (b : BuildidInfo) (hex ids : List ℕ)
    → IsFile f
    → Located f.bytes b
    → from_hex hex ≡ ok (some ids)
    → length hex / 2 ≡ b.bytes_size
    → f.write_fails b.data_offset ≡ true
    → write_id f b hex ≡ ok (ended 0 [] (record f { pos = b.data_offset }))
unfolding write_id
write_id_fails f b hex ids v l d size fails =
    let even : (length hex % 2 == 0) ≡ true = (==_iff _ _).1 (even-from_hex hex d) in
    let fits : (length hex / 2 == b.bytes_size) ≡ true = (==_iff _ _).1 size in
    rw (even, d, write_new_buildid_fails f b ids v l fails, fits)

module _ (platform : Platform) (fd : File) (v : IsFile fd) where
  found_at :
      {b : BuildidInfo} {g : File}
      → find_build_id platform fd ≡ ok (found b, g)
      → IsSound fd (found b, g)
  found_at e = Returns-eq-ok (IsSound fd) _ (find_build_id-IsSound platform fd v) e

  edit_found :
      (hex : List ℕ) {b : BuildidInfo} {g : File}
      → find_build_id platform fd ≡ ok (found b, g)
      → edit_file platform fd (some hex) ≡ write_id g b hex
  unfolding edit_file
  edit_found hex e = rw e

  -- Where a build ID has been found and the new ID is a hexadecimal text of its size, the command
  -- ends with status 0 and prints nothing. The content has the new bytes at the place of the ID
  -- and is otherwise as before, and what stands at the place of the ID reads as the new text in
  -- lower case. The write at that place must not fail.
  pub edit_file_new :
      (hex ids : List ℕ) {b : BuildidInfo} {g : File}
      → find_build_id platform fd ≡ ok (found b, g)
      → from_hex hex ≡ ok (some ids)
      → length hex / 2 ≡ b.bytes_size
      → fd.write_fails b.data_offset ≡ false
      → (f : File) × (edit_file platform fd (some hex) ≡ ok (ended 0 [] f))
        × (f.bytes ≡ overwrite fd.bytes b.data_offset ids)
        × (length f.bytes ≡ length fd.bytes)
        × (to_hex (slice f.bytes b.data_offset b.bytes_size) ≡ ok (map lower hex))
  edit_file_new hex ids {b} {g} e d size works =
      let (m, l) = found_at e in
      let count : length ids ≡ b.bytes_size = omega (arith, length-from_hex hex ids d) in
      let inside : b.data_offset + length ids ≤ length fd.bytes = omega (arith, l.inside) in
      let same : g.bytes ≡ fd.bytes = ap (λ (x : File). x.bytes) m in
      let works' : g.write_fails b.data_offset ≡ false =
        ap (λ (x : File). x.write_fails b.data_offset) m ∙ works in
      let new_bytes : write_at g.bytes b.data_offset ids ≡ overwrite fd.bytes b.data_offset ids =
        ap (λ c. write_at c b.data_offset ids) same
        ∙ write_at-inside fd.bytes b.data_offset ids inside in
      let text : to_hex (slice (write_at fd.bytes b.data_offset ids) b.data_offset b.bytes_size)
          ≡ ok (map lower hex) =
        ap to_hex (
          ap (slice (write_at fd.bytes b.data_offset ids) b.data_offset) (sym count)
          ∙ slice-write_at fd.bytes b.data_offset ids inside)
        ∙ (to_hex-from_hex hex ids d).1 in
      (
        record g { bytes = write_at g.bytes b.data_offset ids; pos = b.data_offset + length ids },
        edit_found hex e
            ∙ write_id_lem g b hex ids (IsFile-of_Moved fd g m v) (rw same l) d size works',
        new_bytes,
        ap (λ c. length (write_at c b.data_offset ids)) same
            ∙ length-write_at fd.bytes b.data_offset ids inside,
        ap (λ c. to_hex (slice (write_at c b.data_offset ids) b.data_offset b.bytes_size)) same
            ∙ text,
      )

  -- If the write at the place of the ID fails, the command still ends with status 0, and the
  -- content is as before.
  pub edit_file_write_fails :
      (hex ids : List ℕ) {b : BuildidInfo} {g : File}
      → find_build_id platform fd ≡ ok (found b, g)
      → from_hex hex ≡ ok (some ids)
      → length hex / 2 ≡ b.bytes_size
      → fd.write_fails b.data_offset ≡ true
      → (f : File) × (edit_file platform fd (some hex) ≡ ok (ended 0 [] f)) × (f.bytes ≡ fd.bytes)
  edit_file_write_fails hex ids {b} {g} e d size fails =
      let (m, l) = found_at e in
      let same : g.bytes ≡ fd.bytes = ap (λ (x : File). x.bytes) m in
      let fails' : g.write_fails b.data_offset ≡ true =
        ap (λ (x : File). x.write_fails b.data_offset) m ∙ fails in
      (
        record g { pos = b.data_offset },
        edit_found hex e
            ∙ write_id_fails g b hex ids (IsFile-of_Moved fd g m v) (rw same l) d size fails',
        same,
      )
