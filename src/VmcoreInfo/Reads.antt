-- ===== src/VmcoreInfo/Reads.antt =====
-- Reads that give all the bytes, and the search for the notes segment (vmcoreinfo/editvmcoreinfo.c).
use kernel_stuff.Common.{
  ℕ, zero, suc, ◌+◌, ◌*◌, ◌≤◌, ◌<◌, ◌≡◌, refl, ap, ◌∙◌, ◌≢◌, inl, inr, Bool, true, false, Option,
  none, some, List, leb, ◌==◌, ==_iff, if◌then◌else◌, length, arith, Bool-cases, slice,
  length-slice,
}
use kernel_stuff.Common.Run.{ok}
use kernel_stuff.Bytes.{of_le}
use kernel_stuff.Posix.{File, max_rw_count}
use kernel_stuff.Posix.Writes.{Works, read_whole}
use kernel_stuff.VmcoreInfo.{sizeof_phdr, pt_note, load, find_segment, read_all}

pub load-slice :
    (mem : List ℕ) (at n : ℕ) → at + n ≤ length mem → load mem at n ≡ ok (of_le (slice mem at n))
unfolding load
load-slice mem at n inside =
    let test : leb (at + n) (length mem) ≡ true = ground arith in rw test refl

pub read_all_lem :
    (f : File) (n : ℕ)
    → Works f
    → n ≤ max_rw_count
    → f.pos + n ≤ length f.bytes
    → read_all f n ≡ (some (slice f.bytes f.pos n), record f { pos = f.pos + n })
read_all_lem f n w small inside =
    let got = slice f.bytes f.pos n in
    let f' : File = record f { pos = f.pos + n } in
    ap
      (λ (r : Option (List ℕ) × File). elim r.0 as (λ _. Option (List ℕ) × File) [
        | none ↦ (none, r.1)
        | some block ↦ if length block == n then (some block, r.1) else (none, r.1)
      ])
      (read_whole f n w small inside)
    ∙ ap (λ (b : Bool). if b then (some got, f') else (none, f'))
        ((==_iff (length got) n).1 (length-slice f.bytes f.pos n inside))

pub find_segment_lem :
    (phdr : List ℕ) (seg rounds i : ℕ)
    → (i + rounds) * sizeof_phdr ≤ length phdr
    → i ≤ seg
    → seg < i + rounds
    → of_le (slice phdr (seg * sizeof_phdr) 4) ≡ pt_note
    → ((j : ℕ) → j < seg → of_le (slice phdr (j * sizeof_phdr) 4) ≢ pt_note)
    → find_segment phdr rounds i ≡ ok (some seg)
unfolding find_segment
find_segment_lem phdr seg zero i inside low high here first = absurd (omega arith)
find_segment_lem phdr seg (suc rounds) i inside low high here first =
    let type = of_le (slice phdr (i * sizeof_phdr) 4) in
    elim (Bool-cases (i == seg)) [
      | inl at ↦
          let e : i ≡ seg = (==_iff i seg).0 at in
          let test : (type == pt_note) ≡ true = (==_iff _ _).1 (rw e here) in
          rw (load-slice phdr (i * sizeof_phdr) 4 (omega arith), test) (ap (λ k. ok (some k)) e)
      | inr before ↦
          let lower : i < seg = ground arith in
          let test : (type == pt_note) ≡ false = ground (arith, first i lower) in
          rw (load-slice phdr (i * sizeof_phdr) 4 (omega arith), test)
            (find_segment_lem phdr seg rounds (i + 1) (omega arith) (omega arith) (omega arith) here
              first)
    ]
