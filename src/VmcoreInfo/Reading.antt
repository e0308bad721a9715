-- ===== src/VmcoreInfo/Reading.antt =====
-- What `read_elfdata` reads of a vmcore (vmcoreinfo/editvmcoreinfo.c).
use kernel_stuff.Common.{
  ℕ, ◌+◌, ◌*◌, ◌≤◌, ◌≡◌, refl, ap, ◌∙◌, Bool, true, Option, none, some, List, [], ◌∷◌, ◌++◌, leb,
  le→leb, ◌==◌, ==_iff, length, arith, get_elem?, get_elem?-of_slice, slice-append_le, take,
  length-append, take-all, take-append_le, drop-append_ge, slice, length-slice, slice-slice,
}
use kernel_stuff.Common.Run.{Run, ok, ◌>>=◌}
use kernel_stuff.Bytes.{of_le}
use kernel_stuff.CString.{peek_byte}
use kernel_stuff.Posix.{File, seek_set, read}
use kernel_stuff.Posix.Writes.{read_whole, Works}
use kernel_stuff.VmcoreInfo.{
  Saved, sizeof_ehdr, sizeof_phdr, load, find_vmcoreinfo, find_segment, read_all, read_notes,
  read_table, read_header, read_elfdata,
}
use kernel_stuff.Elf.Notes.{Note}
use kernel_stuff.VmcoreInfo.Notes.{AllNotes, encode_notes, note_size}
use kernel_stuff.VmcoreInfo.Complete.{find_vmcoreinfo-last_place, last_place-middle}
use kernel_stuff.VmcoreInfo.Reads.{load-slice, read_all_lem, find_segment_lem}
use kernel_stuff.VmcoreInfo.Vmcore.{
  Vmcore, notes_of, segment, content, table, saved, IsVmcore, IsSmall,
}

module _ (c : Vmcore) (v : IsVmcore c) (small : IsSmall c) where
  pub length-table : length (table c) ≡ sizeof_phdr * c.phnum
  length-table = length-slice c.head c.phoff (sizeof_phdr * c.phnum) v.table_inside

  pub length-content : length (content c) ≡ length c.head + (length (segment c) + length c.tail)
  length-content =
      omega (arith, length-append c.head (segment c ++ c.tail), length-append (segment c) c.tail)

  place_lem :
      find_vmcoreinfo (segment c) (length (segment c) + 1) 0 none
      ≡ ok (
          some (
            length (encode_notes c.before),
            length (encode_notes c.before) + note_size c.vi,
            length c.vi.desc,
          ))
  place_lem =
      find_vmcoreinfo-last_place (notes_of c) (segment c) (length (segment c) + 1) 0 none
        v.all_notes refl (omega arith) (omega arith)
      ∙ ap ok (
          last_place-middle 0 c.before c.vi c.after none (front c.before v.all_notes) v.is_vi
            v.others)
      ∙ ap (λ k. ok (some (k, k + note_size c.vi, length c.vi.desc)))
          {x = 0 + length (encode_notes c.before)} {y = length (encode_notes c.before)}
          (omega arith)
    where
      front : (ns : List Note) → AllNotes (ns ++ (c.vi ∷ c.after)) → AllNotes ns
      front [] h = tt
      front (n ∷ ns) (h, hs) = (h, front ns hs)

  module _ (fd : File) (w : Works fd) (holds : fd.bytes ≡ content c)
      (fits : length fd.bytes ≤ fd.max_offset) where
    seeks :
        (p at : ℕ)
        → at ≤ length fd.bytes
        → seek_set (record fd { pos = p }) at ≡ (true, record fd { pos = at })
    unfolding seek_set
    seeks p at h =
        let test : leb at fd.max_offset ≡ true = le→leb at fd.max_offset (omega arith) in
        rw test refl

    size : length fd.bytes ≡ length c.head + (length (segment c) + length c.tail)
    size = ap length holds ∙ length-content

    at_segment : slice fd.bytes (length c.head) (length (segment c)) ≡ segment c
    at_segment =
        ap (λ l. slice l (length c.head) (length (segment c))) holds
        ∙ ap (take (length (segment c)))
            (drop-append_ge (length c.head) 0 c.head (segment c ++ c.tail) (omega arith))
        ∙ take-append_le (length (segment c)) (segment c) c.tail (omega arith)
        ∙ take-all (length (segment c)) (segment c) (omega arith)

    in_head : (i n : ℕ) → i + n ≤ length c.head → slice fd.bytes i n ≡ slice c.head i n
    in_head i n h = ap (λ l. slice l i n) holds ∙ slice-append_le c.head (segment c ++ c.tail) i n h

    abbrev pub after : File
    after = record fd { pos = length c.head + length (segment c) }

    offset_lem : load (table c) (c.seg * sizeof_phdr + 8) 8 ≡ ok (length c.head)
    offset_lem =
        load-slice (table c) (c.seg * sizeof_phdr + 8) 8 (omega (arith, length-table, v.seg_inside))
        ∙ ap ok v.seg_offset

    size_lem : load (table c) (c.seg * sizeof_phdr + 32) 8 ≡ ok (length (segment c))
    size_lem =
        load-slice (table c) (c.seg * sizeof_phdr + 32) 8
          (omega (arith, length-table, v.seg_inside))
        ∙ ap ok v.seg_size

    notes_lem :
        read (record fd { pos = length c.head }) (length (segment c)) ≡ (some (segment c), after)
    notes_lem =
        read_whole (record fd { pos = length c.head }) (length (segment c)) w small.segment_size
          (omega (arith, size))
        ∙ ap (λ l. (some l, after)) at_segment

    all_notes_lem :
        (p : ℕ)
        → read_all (seek_set (record fd { pos = p }) (length c.head)).1 (length (segment c))
          ≡ (some (segment c), after)
    all_notes_lem p =
        ap (λ (r : Bool × File). read_all r.1 (length (segment c)))
          (seeks p (length c.head) (omega (arith, size)))
        ∙ read_all_lem (record fd { pos = length c.head }) (length (segment c)) w small.segment_size
            (omega (arith, size))
        ∙ ap (λ l. (some l, after)) at_segment

    same_size : (n : ℕ) → (n == n) ≡ true
    same_size n = (==_iff n n).1 refl

    read_notes_lem :
        (p : ℕ)
        → read_notes (record fd { pos = p }) c.phoff c.phnum (table c) c.seg
          ≡ ok (some (saved c), after)
    unfolding read_notes
    read_notes_lem p =
        rw
          (
            offset_lem,
            size_lem,
            seeks p (length c.head) (omega (arith, size)),
            notes_lem,
            same_size (length (segment c)),
            place_lem,
          )
          (ap (λ (r : Option (List ℕ) × File). ok (some (saved c), r.1)) (all_notes_lem p))

    table_lem :
        (p : ℕ)
        → read_all (seek_set (record fd { pos = p }) c.phoff).1 (sizeof_phdr * c.phnum)
          ≡ (some (table c), record fd { pos = c.phoff + sizeof_phdr * c.phnum })
    table_lem p =
        ap (λ (r : Bool × File). read_all r.1 (sizeof_phdr * c.phnum))
          (seeks p c.phoff (omega (arith, size, v.table_inside)))
        ∙ read_all_lem (record fd { pos = c.phoff }) (sizeof_phdr * c.phnum) w small.table_size
            (omega (arith, size, v.table_inside))
        ∙ ap (λ l. (some l, record fd { pos = c.phoff + sizeof_phdr * c.phnum }))
            (in_head c.phoff (sizeof_phdr * c.phnum) v.table_inside)

    segment_lem : find_segment (table c) c.phnum 0 ≡ ok (some c.seg)
    segment_lem =
        find_segment_lem (table c) c.seg c.phnum 0 (omega (arith, length-table)) (omega arith)
          (omega (arith, v.seg_inside)) v.seg_type v.seg_first

    read_table_lem :
        (p : ℕ) → read_table (record fd { pos = p }) c.phoff c.phnum ≡ ok (some (saved c), after)
    unfolding read_table
    read_table_lem p =
        let here : File = record fd { pos = c.phoff + sizeof_phdr * c.phnum } in
        let sought = seeks p c.phoff (omega (arith, size, v.table_inside)) in
        rw (ap (λ (r : Bool × File). r.0) sought) (
          ap
            (λ (r : Option (List ℕ) × File). elim r.0 as (λ _. Run Saved) [
              | none ↦ ok (none, r.1)
              | some phdr ↦ find_segment phdr c.phnum 0 >>= (λ segment.
                  elim segment as (λ _. Run Saved) [
                    | none ↦ ok (none, r.1)
                    | some i ↦ read_notes r.1 c.phoff c.phnum phdr i
                  ])
            ])
            (table_lem p)
          ∙ rw segment_lem (read_notes_lem (c.phoff + sizeof_phdr * c.phnum)))

    ehdr : List ℕ
    ehdr = slice fd.bytes 0 sizeof_ehdr

    in_ehdr : (i n : ℕ) → i + n ≤ sizeof_ehdr → slice ehdr i n ≡ slice c.head i n
    unfolding ehdr
    in_ehdr i n h =
        slice-slice fd.bytes 0 sizeof_ehdr i n h
        ∙ ap (λ k. slice fd.bytes k n) {x = 0 + i} {y = i} (omega arith)
        ∙ in_head i n (omega (arith, v.behind_header, v.table_inside))

    length-ehdr : length ehdr ≡ sizeof_ehdr
    unfolding ehdr
    length-ehdr =
        length-slice fd.bytes 0 sizeof_ehdr (omega (arith, size, v.behind_header, v.table_inside))

    member_lem :
        (at n x : ℕ) → at + n ≤ sizeof_ehdr → of_le (slice c.head at n) ≡ x → load ehdr at n ≡ ok x
    member_lem at n x h e =
        load-slice ehdr at n (omega (arith, length-ehdr))
        ∙ ap (λ l. ok (of_le l)) (in_ehdr at n h)
        ∙ ap ok e

    byte_lem :
        (at x : ℕ) → at + 1 ≤ sizeof_ehdr → slice c.head at 1 ≡ x ∷ [] → get_elem? ehdr at ≡ some x
    byte_lem at x h e = get_elem?-of_slice ehdr at x (in_ehdr at 1 h ∙ e)

    read_header_lem :
        (p : ℕ) → read_header (record fd { pos = p }) ehdr ≡ ok (some (saved c), after)
    unfolding read_header
    read_header_lem p =
        rw
          (
            member_lem 0 4 _ (omega arith) v.magic,
            peek_byte,
            byte_lem 4 2 (omega arith) v.class,
            byte_lem 5 1 (omega arith) v.data_order,
            member_lem 32 8 _ (omega arith) v.e_phoff,
            member_lem 54 2 _ (omega arith) v.e_phentsize,
            member_lem 56 2 _ (omega arith) v.e_phnum,
            member_lem 58 2 _ (omega arith) v.e_shentsize,
          )
          (read_table_lem p)

    -- All that is saved of a vmcore, and the file after it.
    pub read_elfdata_lem : fd.pos ≡ 0 → read_elfdata fd ≡ ok (some (saved c), after)
    unfolding read_elfdata ehdr
    read_elfdata_lem start =
        let inside : fd.pos + sizeof_ehdr ≤ length fd.bytes =
          omega (arith, start, size, v.behind_header, v.table_inside) in
        let got : read_all fd sizeof_ehdr ≡ (some ehdr, record fd { pos = sizeof_ehdr }) =
          read_all_lem fd sizeof_ehdr w (omega arith) inside
          ∙ ap (λ p. (some (slice fd.bytes p sizeof_ehdr), record fd { pos = p + sizeof_ehdr }))
              start in
        ap
          (λ (r : Option (List ℕ) × File). elim r.0 as (λ _. Run Saved) [
            | none ↦ ok (none, r.1)
            | some header ↦ read_header r.1 header
          ])
          got
        ∙ read_header_lem sizeof_ehdr
