-- ===== src/BuildId/Note/Found.antt =====
-- Where a build ID that `find_buildid` reports lies in the file (editbuildid/editbuildid.c).
use mathlib.Core.Path.{subst}
use kernel_stuff.Common.{
  ℕ, zero, suc, ◌+◌, ◌%◌, ◌^◌, ◌≤◌, ◌<◌, min, ◌≡◌, refl, sym, ap, ◌∙◌, ◌⊎◌, inl, inr, false, ◌&&◌,
  Option, none, some, List, ltb, ◌==◌, length, arith, Bool-cases, drop, length-take, length-drop,
  slice, slice-slice,
}
use kernel_stuff.Common.Run.{Run, ok, >>=-eq-ok}
use kernel_stuff.Bytes.{Platform, peek}
use kernel_stuff.Bytes.Laws.{peek-eq-ok}
use kernel_stuff.CString.{strcmp_eq}
use kernel_stuff.Posix.{File, IsFile, seek_set, read, max_rw_count}
use kernel_stuff.Elf.{ElfInfo, getfield32, n_namesz, n_descsz, n_type}
use kernel_stuff.Hex.{to_hex}
use kernel_stuff.Posix.Moved.{Moved, seek_set-Moved, read-Moved}
use kernel_stuff.BuildId.Note.Walk.{find_note_dry, find_note_inv}
use kernel_stuff.BuildId.Note.{
  sizeof_nhdr, note_desc, max_buildid_size, nt_gnu_build_id, gnu, BuildidInfo, Search, failed,
  found, fetch_data, give, take_buildid, note_round, find_note, find_buildid,
}

-- The offset and size that are reported lie inside the content, and the text is that of the bytes
-- that stand there.
pub record Located (content : List ℕ) (b : BuildidInfo) : Type 0 where
  pub inside : b.data_offset + b.bytes_size ≤ length content
  pub bounded : b.bytes_size ≤ max_buildid_size
  pub text : to_hex (slice content b.data_offset b.bytes_size) ≡ ok b.hex

pub fetch_data-Moved : (f : File) (offset len : ℕ) → Moved f (fetch_data f offset len).1
unfolding fetch_data
fetch_data-Moved f offset len =
    ground (arith, seek_set-Moved f offset, read-Moved (seek_set f offset).1 len)

-- The part of the content that the kernel transfers, if it has the length that was asked for.
fetch_data-raw :
    (f : File) (offset len : ℕ) {block : List ℕ} {g : File}
    → fetch_data f offset len ≡ (some block, g)
    → (block ≡ slice f.bytes offset (min len max_rw_count))
      × (length block ≡ len)
      × (offset ≤ f.max_offset)
unfolding fetch_data seek_set read
fetch_data-raw f offset len {block} e = ground arith

-- What has been fetched is the part of the content that was asked for, whole.
pub fetch_data-slice :
    (f : File) (offset len : ℕ) {block : List ℕ} {g : File}
    → fetch_data f offset len ≡ (some block, g)
    → (block ≡ slice f.bytes offset len) × (length block ≡ len) × (offset ≤ f.max_offset)
fetch_data-slice f offset len {block} e =
    let (same, full, low) = fetch_data-raw f offset len e in
    let short : min len max_rw_count ≡ len =
      omega (arith, length-take (min len max_rw_count) (drop offset f.bytes), ap length same) in
    (same ∙ ap (slice f.bytes offset) short, full, low)

note_desc-pos : (nhdr namesz : ℕ) → 0 < note_desc nhdr namesz
unfolding note_desc
note_desc-pos nhdr namesz = omega arith

small_le : (n : ℕ) → ltb max_buildid_size n ≡ false → n ≤ max_buildid_size
small_le n h = ground arith

module _ (content : List ℕ) (offset len : ℕ) (small : length content < 2 ^ 63)
    (low : offset < 2 ^ 63) where
  -- The block that has been read.
  module _ (full : length (slice content offset len) ≡ len) where
    located :
        (desc size : ℕ) (hex : List ℕ)
        → 0 < desc
        → desc + size ≤ len
        → size ≤ max_buildid_size
        → to_hex (slice (slice content offset len) desc size) ≡ ok hex
        → Located content
            (record { data_offset = (offset + desc) % 2 ^ 64; bytes_size = size; hex = hex })
    located desc size hex pos fits bounded e =
        let inside : offset + len ≤ length content =
          omega (arith, length-take len (drop offset content), length-drop offset content) in
        let exact : (offset + desc) % 2 ^ 64 ≡ offset + desc = omega arith in
        record {
          inside = omega arith;
          bounded = bounded;
          text = rw (exact, ← slice-slice content offset len desc size fits) e;
        }

    module _ (platform : Platform) (info : ElfInfo) where
      take_buildid-Located :
          (nhdr namesz descsz : ℕ) {b : BuildidInfo}
          → take_buildid platform info (slice content offset len) offset nhdr namesz descsz
            ≡ ok (give (found b))
          → Located content b
      unfolding take_buildid
      take_buildid-Located nhdr namesz descsz {b} e =
          elim (Bool-cases (ltb max_buildid_size descsz)) [
            | inl large ↦ cc (rw large at e)
            | inr small ↦
                let (raw, at_desc, e') =
                  >>=-eq-ok (peek (slice content offset len) (note_desc nhdr namesz) descsz) _
                    (rw small at e) in
                let (hex, is_hex, e'') = >>=-eq-ok (to_hex raw) _ e' in
                let (fits, same) = peek-eq-ok (slice content offset len) _ descsz at_desc in
                let b' : BuildidInfo = record {
                  data_offset = (offset + note_desc nhdr namesz) % 2 ^ 64;
                  bytes_size = descsz;
                  hex = hex;
                } in
                let eq : b' ≡ b = cc in
                subst (Located content) eq (
                  located (note_desc nhdr namesz) descsz hex (note_desc-pos nhdr namesz)
                    (omega arith) (omega (arith, small_le descsz small))
                    (ap to_hex (sym same) ∙ is_hex))
          ]

      note_round-Located :
          (nhdr : ℕ) {b : BuildidInfo}
          → note_round platform info (slice content offset len) offset nhdr ≡ ok (give (found b))
          → Located content b
      unfolding note_round
      note_round-Located nhdr e =
          let (descsz, _, e1) = >>=-eq-ok (getfield32 platform info block nhdr n_descsz) _ e in
          let (namesz, _, e2) = >>=-eq-ok (getfield32 platform info block nhdr n_namesz) _ e1 in
          let (type, _, e3) = >>=-eq-ok (getfield32 platform info block nhdr n_type) _ e2 in
          let (is_gnu, _, e4) = >>=-eq-ok (strcmp_eq gnu block (nhdr + sizeof_nhdr)) _ e3 in
          elim (Bool-cases (is_gnu && type == nt_gnu_build_id)) [
            | inl yes_id ↦ take_buildid-Located nhdr namesz descsz (rw yes_id at e4)
            | inr no_id ↦ cc (rw no_id at e4)
          ]
        where
          block : List ℕ
          block = slice content offset len

      pub find_note-Located :
          (fuel nhdr : ℕ) {b : BuildidInfo}
          → find_note platform info (slice content offset len) offset fuel nhdr ≡ ok (found b)
          → Located content b
      find_note-Located zero nhdr e = cc (find_note_dry platform info block offset nhdr)
        where
          block : List ℕ
          block = slice content offset len
      find_note-Located (suc fuel) nhdr e =
          elim (find_note_inv platform info (slice content offset len) offset fuel nhdr e) [
            | inl (_, none_left) ↦ cc
            | inr (inl gives) ↦ note_round-Located nhdr gives
            | inr (inr (n, _, rest)) ↦ find_note-Located fuel n rest
          ]

-- What a search that returned had read, and how it went on.
find_buildid_inv :
    (platform : Platform) (fd : File) (info : ElfInfo) (offset len : ℕ) {s : Search} {g : File}
    → find_buildid platform fd info offset len ≡ ok (s, g)
    → (g ≡ (fetch_data fd offset len).1)
      × ((s ≡ failed)
          ⊎ ((block : List ℕ) × ((fetch_data fd offset len).0 ≡ some block)
              × (find_note platform info block offset (len + 1) 0 ≡ ok s)))
unfolding find_buildid
find_buildid_inv platform fd info offset len {s} {g} e = go (fetch_data fd offset len).0 refl
  where
    go :
        (got : Option (List ℕ))
        → (fetch_data fd offset len).0 ≡ got
        → (g ≡ (fetch_data fd offset len).1)
          × ((s ≡ failed)
              ⊎ ((block : List ℕ) × ((fetch_data fd offset len).0 ≡ some block)
                  × (find_note platform info block offset (len + 1) 0 ≡ ok s)))
    go none h =
        let e' : ◌≡◌ {A = Run (Search × File)} (ok (failed, (fetch_data fd offset len).1))
            (ok (s, g)) =
          rw (h, find_buildid) at e in
        (ground arith, inl (ground arith))
    go (some block) h =
        let (r, walk, e') =
          >>=-eq-ok (find_note platform info block offset (len + 1) 0) _
            (rw (h, find_buildid) at e) in
        (ground arith, inr (block, h, walk ∙ ground arith))

-- The search leaves the file as it is, but for its offset.
pub find_buildid-Moved :
    (platform : Platform) (fd : File) (info : ElfInfo) (offset len : ℕ) {s : Search} {g : File}
    → find_buildid platform fd info offset len ≡ ok (s, g)
    → Moved fd g
find_buildid-Moved platform fd info offset len e =
    rw ((find_buildid_inv platform fd info offset len e).0) (fetch_data-Moved fd offset len)

-- What `find_buildid` reports as found lies at the reported place of the file.
pub find_buildid-Located :
    (platform : Platform) (fd : File) (info : ElfInfo) (offset len : ℕ) {b : BuildidInfo} {g : File}
    → IsFile fd
    → find_buildid platform fd info offset len ≡ ok (found b, g)
    → Located fd.bytes b
find_buildid-Located platform fd info offset len {b} {g} v e =
    elim ((find_buildid_inv platform fd info offset len e).1) [
      | inl bad ↦ cc
      | inr (block, h, walk) ↦
          let (same, full, low) =
            fetch_data-slice fd offset len {block = block} {g = (fetch_data fd offset len).1}
              (ap {B = Option (List ℕ) × File} (λ o. (o, (fetch_data fd offset len).1)) h) in
          find_note-Located fd.bytes offset len (omega arith) (omega arith)
            (ap length (sym same) ∙ full) platform info (len + 1) 0 (rw same at walk)
    ]
