-- ===== src/VmcoreInfo/Search.antt =====
-- The search for the note (the loop of `read_elfdata` in vmcoreinfo/editvmcoreinfo.c).
use kernel_stuff.Common.{
  ℕ, zero, suc, ◌+◌, ◌≤◌, ◌<◌, ◌≡◌, refl, ap, ◌∙◌, inl, inr, Bool, true, false, ◌&&◌, Option, none,
  some, List, ◌==◌, ==_iff, length, arith, Bool-cases,
}
use kernel_stuff.Common.Run.{ok, Ends, >>=-Ends, ok-Ends, Returns, >>=-Returns, Returns-eq-ok}
use kernel_stuff.Bytes.{of_le, peek}
use kernel_stuff.Bytes.Laws.{peek-Ends}
use kernel_stuff.CString.{strcmp_eq, strcmp_eq-Ends}
use kernel_stuff.VmcoreInfo.{
  sizeof_notehdr, pad4, load, next_note, end_notes, vmcoreinfo, Place, find_vmcoreinfo,
}

load-Ends : (mem : List ℕ) (at size : ℕ) → Ends (load mem at size)
unfolding load
load-Ends mem at size =
    >>=-Ends (peek mem at size) _ (peek-Ends mem at size) (λ raw. ok-Ends (of_le raw))

next_note_ge : (nhdr namesz descsz : ℕ) → nhdr + 12 ≤ next_note nhdr namesz descsz
unfolding next_note
next_note_ge nhdr namesz descsz = omega arith

inside_of : (len nhdr : ℕ) → end_notes len nhdr ≡ false → nhdr < len
unfolding end_notes
inside_of len nhdr h = ground arith

-- The walk over the notes ends, with as much fuel as `read_elfdata` gives it: one more than the
-- bytes of the block.
pub find_vmcoreinfo-Ends :
    (notes : List ℕ) (fuel nhdr : ℕ) (seen : Option Place)
    → 0 < fuel
    → length notes < fuel + nhdr
    → Ends (find_vmcoreinfo notes fuel nhdr seen)
unfolding find_vmcoreinfo
find_vmcoreinfo-Ends notes zero nhdr seen pos enough = absurd (omega arith)
find_vmcoreinfo-Ends notes (suc fuel) nhdr seen pos enough =
    elim (Bool-cases (end_notes (length notes) nhdr)) [
      | inl last ↦ rw last (ok-Ends seen)
      | inr more ↦ rw more (
          >>=-Ends (strcmp_eq vmcoreinfo notes (nhdr + 12)) _
            (strcmp_eq-Ends vmcoreinfo notes (nhdr + 12))
            (λ same. >>=-Ends (load notes (nhdr + 8) 4) _ (load-Ends notes (nhdr + 8) 4) (λ type.
              >>=-Ends (load notes (nhdr + 4) 4) _ (load-Ends notes (nhdr + 4) 4) (λ descsz.
                >>=-Ends (load notes nhdr 4) _ (load-Ends notes nhdr 4) (λ namesz.
                  find_vmcoreinfo-Ends notes fuel (next_note nhdr namesz descsz) _
                    (omega (arith, inside_of (length notes) nhdr more))
                    (omega (arith, next_note_ge nhdr namesz descsz)))))))
    ]

-- A VMCOREINFO note: its name, its type, the size of its descriptor and its end.
pub record IsVmcoreinfo (notes : List ℕ) (p : Place) : Type 0 where
  pub namesz : ℕ
  pub has_name : strcmp_eq vmcoreinfo notes (p.0 + sizeof_notehdr) ≡ ok true
  pub has_type : load notes (p.0 + 8) 4 ≡ ok 0
  pub has_descsz : load notes (p.0 + 4) 4 ≡ ok p.2
  pub has_namesz : load notes p.0 4 ≡ ok namesz
  pub ends_at : p.1 ≡ p.0 + sizeof_notehdr + pad4 p.2 + pad4 namesz

abbrev pub IsFound : List ℕ → Option Place → Type 0
IsFound notes none = Unit
IsFound notes (some p) = IsVmcoreinfo notes p

found_here :
    (notes : List ℕ) (nhdr : ℕ) (same : Bool) (type descsz namesz : ℕ)
    → (same && type == 0) ≡ true
    → strcmp_eq vmcoreinfo notes (nhdr + sizeof_notehdr) ≡ ok same
    → load notes (nhdr + 8) 4 ≡ ok type
    → load notes (nhdr + 4) 4 ≡ ok descsz
    → load notes nhdr 4 ≡ ok namesz
    → IsVmcoreinfo notes (nhdr, nhdr + sizeof_notehdr + pad4 descsz + pad4 namesz, descsz)
found_here notes nhdr false type descsz namesz hit e1 e2 e3 e4 = cc
found_here notes nhdr true type descsz namesz hit e1 e2 e3 e4 = record {
  namesz = namesz;
  has_name = e1;
  has_type = e2 ∙ ap ok ((==_iff type 0).0 hit);
  has_descsz = e3;
  has_namesz = e4;
  ends_at = refl;
}

find_vmcoreinfo-IsFound :
    (notes : List ℕ) (fuel nhdr : ℕ) (seen : Option Place)
    → IsFound notes seen
    → Returns (IsFound notes) (find_vmcoreinfo notes fuel nhdr seen)
unfolding find_vmcoreinfo
find_vmcoreinfo-IsFound notes zero nhdr seen v = tt
find_vmcoreinfo-IsFound notes (suc fuel) nhdr seen v =
    elim (Bool-cases (end_notes (length notes) nhdr)) [
      | inl last ↦ rw last v
      | inr more ↦ rw more (
          >>=-Returns (IsFound notes) (strcmp_eq vmcoreinfo notes (nhdr + 12)) _ (λ same e1.
            >>=-Returns (IsFound notes) (load notes (nhdr + 8) 4) _ (λ type e2.
              >>=-Returns (IsFound notes) (load notes (nhdr + 4) 4) _ (λ descsz e3.
                >>=-Returns (IsFound notes) (load notes nhdr 4) _ (λ namesz e4.
                  find_vmcoreinfo-IsFound notes fuel (next_note nhdr namesz descsz) _
                    (elim (Bool-cases (same && type == 0)) [
                      | inl hit ↦
                          rw hit (found_here notes nhdr same type descsz namesz hit e1 e2 e3 e4)
                      | inr other ↦ rw other v
                    ]))))))
    ]

-- The place that the search returns is that of a VMCOREINFO note: its name is "VMCOREINFO", its type
-- is 0, the descriptor has the size that is returned, and the note ends where it is said to.
find_vmcoreinfo_sound :
    (notes : List ℕ) {p : Place}
    → find_vmcoreinfo notes (length notes + 1) 0 none ≡ ok (some p)
    → IsVmcoreinfo notes p
find_vmcoreinfo_sound notes returned =
    Returns-eq-ok (IsFound notes) (find_vmcoreinfo notes (length notes + 1) 0 none)
      (find_vmcoreinfo-IsFound notes (length notes + 1) 0 none tt) returned
