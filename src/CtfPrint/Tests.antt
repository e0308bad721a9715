-- ===== src/CtfPrint/Tests.antt =====
-- The program on a library that takes each byte of a file for the name of a dictionary
-- (ctf/ctfdictprint.c).
use kernel_stuff.Common.{
  ℕ, ◌^◌, ◌≡◌, ◌≢◌, refl, ap, true, false, Option, none, some, List, [], ◌∷◌, ◌++◌, ◌==◌,
  if◌then◌else◌, length,
}
use kernel_stuff.Common.Run.{Run, ok, stop, exit}
use kernel_stuff.Posix.{File, seek_set, seek_end, fread}
use kernel_stuff.Posix.Writes.{Works}
use kernel_stuff.CtfPrint.{read_file, visit_dict, open_ctf, main}
use kernel_stuff.CtfPrint.Names.{IsIter, outputs, line, main-names}

abbrev names_of : List ℕ → List (List ℕ)
names_of [] = []
names_of (b ∷ bs) = (b ∷ []) ∷ names_of bs

abbrev bufopen : List ℕ → Option (List (List ℕ))
bufopen [] = none
bufopen (b ∷ bs) = some (names_of (b ∷ bs))

abbrev archive_iter : List (List ℕ) → (List ℕ → ℕ × List ℕ) → List ℕ
archive_iter [] visit = []
archive_iter (name ∷ names) visit =
    let rest = archive_iter names visit in
    let (result, out) = visit name in if result == 0 then out ++ rest else out

archive_iter-IsIter : IsIter archive_iter (λ arc. arc)
archive_iter-IsIter [] print = refl
archive_iter-IsIter (name ∷ names) print =
    ap (λ rest. print name ++ rest) (archive_iter-IsIter names print)

abbrev two_names : File
two_names = record {
  bytes = b'a' ∷ b'b' ∷ [];
  pos = 0;
  max_offset = 2 ^ 60;
  read_fails = λ _. false;
  write_fails = λ _. false;
}

two_names-Works : Works two_names
two_names-Works at = (refl, refl)

main-prints :
    main bufopen archive_iter ((b'f' ∷ []) ∷ []) (some two_names) true
    ≡ ok (0, b'a' ∷ 10 ∷ b'b' ∷ 10 ∷ [])
unfolding main open_ctf read_file visit_dict seek_end seek_set fread
main-prints = refl

main-names_example :
    (main bufopen archive_iter ((b'f' ∷ []) ∷ []) (some two_names) true
      ≡ elim (bufopen two_names.bytes) as (λ _. Run (ℕ × List ℕ)) [
        | none ↦ stop (exit 1)
        | some arc ↦ ok (0, outputs line arc)
      ])
    × (main bufopen archive_iter ((b'f' ∷ []) ∷ []) (some two_names) false ≡ stop (exit 1))
    × (main bufopen archive_iter ((b'f' ∷ []) ∷ []) none true ≡ stop (exit 1))
    × ((args : List (List ℕ))
        → length args ≢ 1
        → main bufopen archive_iter args (some two_names) true ≡ ok (1, []))
main-names_example =
    main-names bufopen archive_iter (λ arc. arc) archive_iter-IsIter (b'f' ∷ []) two_names
      two_names-Works
