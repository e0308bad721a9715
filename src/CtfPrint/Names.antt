-- ===== src/CtfPrint/Names.antt =====
-- What the program prints (ctf/ctfdictprint.c).
use kernel_stuff.Common.{
  ℕ, ◌≡◌, refl, ap, ◌∙◌, true, false, ◌≢◌, inl, inr, Option-cases, Option, none, some, List, [],
  ◌∷◌, ◌++◌, leb, ◌==◌, ==_iff, length, arith, take, take-all, take-append_le,
}
use kernel_stuff.Common.Run.{Run, ok, stop, exit}
use kernel_stuff.Posix.{File, seek_set, seek_end, fread}
use kernel_stuff.Posix.Writes.{Works}
use kernel_stuff.CtfPrint.{read_file, visit_dict, open_ctf, main}

-- What is visited in order, if each visit returns 0.
abbrev pub outputs : (List ℕ → List ℕ) → List (List ℕ) → List ℕ
outputs print [] = []
outputs print (name ∷ names) = print name ++ outputs print names

-- What `ctf_archive_iter` documents: the visitor is called for the dictionaries in order, as long as
-- it returns 0.
abbrev pub IsIter :
    {Arc : Type 0} → (Arc → (List ℕ → ℕ × List ℕ) → List ℕ) → (Arc → List (List ℕ)) → Type 0
IsIter {Arc} archive_iter dicts =
    (arc : Arc) (print : List ℕ → List ℕ)
    → archive_iter arc (λ name. (0, print name)) ≡ outputs print (dicts arc)

abbrev pub line : List ℕ → List ℕ
line name = name ++ (10 ∷ [])

read_file_lem :
    (f : File) → Works f → read_file (some f) true ≡ ok (length f.bytes, f.bytes ++ (0 ∷ []))
unfolding read_file seek_end seek_set fread
read_file_lem f w =
    let low : leb 0 f.max_offset ≡ true = ground arith in
    let all : take (length f.bytes) f.bytes ≡ f.bytes =
      take-all (length f.bytes) f.bytes (omega arith) in
    let whole : (length f.bytes == length f.bytes) ≡ true = (==_iff _ _).1 refl in
    rw (low, (w 0).0, all, whole) refl

content : (f : File) → take (length f.bytes) (f.bytes ++ (0 ∷ [])) ≡ f.bytes
content f =
    take-append_le (length f.bytes) f.bytes (0 ∷ []) (omega arith)
    ∙ take-all (length f.bytes) f.bytes (omega arith)

no_memory : (f : File) → read_file (some f) false ≡ stop (exit 1)
unfolding read_file
no_memory f = refl

no_file : read_file none true ≡ stop (exit 1)
unfolding read_file
no_file = refl

-- Where the file can be read and memory is given, libctf is given exactly the file's content; if it
-- finds an archive there, the program prints the names of its dictionaries in order, a line each, and
-- ends with status 0, and otherwise it ends with status 1. A file that cannot be opened, memory that
-- is not given and any other number of arguments make the status 1. `dicts` are the dictionaries that
-- libctf documents to visit in order.
pub main-names :
    {Arc : Type 0} (bufopen : List ℕ → Option Arc)
    (archive_iter : Arc → (List ℕ → ℕ × List ℕ) → List ℕ) (dicts : Arc → List (List ℕ))
    → IsIter archive_iter dicts
    → (file : List ℕ) (f : File) → Works f
    → (main bufopen archive_iter (file ∷ []) (some f) true
        ≡ elim (bufopen f.bytes) as (λ _. Run (ℕ × List ℕ)) [
          | none ↦ stop (exit 1)
          | some arc ↦ ok (0, outputs line (dicts arc))
        ])
      × (main bufopen archive_iter (file ∷ []) (some f) false ≡ stop (exit 1))
      × (main bufopen archive_iter (file ∷ []) none true ≡ stop (exit 1))
      × ((args : List (List ℕ))
          → length args ≢ 1
          → main bufopen archive_iter args (some f) true ≡ ok (1, []))
unfolding main open_ctf visit_dict
main-names bufopen archive_iter dicts iter file f w = (
  elim (Option-cases (bufopen f.bytes)) [
    | inl wrong ↦ rw (read_file_lem f w, content f, wrong) refl
    | inr (arc, opens) ↦
        rw (read_file_lem f w, content f, opens) (ap (λ out. ok (0, out)) (iter arc line))
  ],
  rw (no_memory f) refl,
  rw no_file refl,
  other_args,
)
  where
    other_args :
        (args : List (List ℕ))
        → length args ≢ 1
        → main bufopen archive_iter args (some f) true ≡ ok (1, [])
    other_args [] n = refl
    other_args (file ∷ []) n = absurd (n refl)
    other_args (file ∷ other ∷ others) n = refl
