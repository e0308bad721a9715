-- ===== src/Stash/Session.antt =====
-- Opening, closing, and what one process leaves for the next (crashstash/crashstash.c).
use kernel_stuff.Common.{
  ℕ, zero, suc, ◌+◌, ◌-◌, ◌%◌, ◌^◌, ◌≤◌, ◌<◌, min, ◌≡◌, refl, ap, ◌∙◌, inl, inr, true, Option, none,
  some, List, [], ltb, leb, ◌==◌, length, arith, Bool-cases, take, drop, take-take,
}
use kernel_stuff.Common.Run.{
  Run, ok, ◌>>=◌, >>=-eq-ok, Returns, >>=-Returns, Returns-eq-ok, Returns-map,
}
use kernel_stuff.Stash.{
  page_size, max_size, Page, Stash, Mode, rdonly, wronly, rdwr, Errno, bytes, free, open_stash,
  release, Written, get_page, write_loop, limit, write, Reading, read, initial,
}
use kernel_stuff.Stash.Pages.{IsPaged, contents}
use kernel_stuff.Stash.Fill.{Allocates}
use kernel_stuff.Stash.Write.{published, write-contents}
use kernel_stuff.Stash.Read.{read-contents, read_eq}

-- The module's variables, and how many files are open on it.
abbrev pub System : Type 0
System = Stash × ℕ

module _ (alloc : ℕ → Option Page) where
  -- One call of a file operation. The kernel calls `release` once for each successful `open`, and
  -- `write` only on an open file; `read` changes none of the variables.
  pub data Step : System → System → Type 0 where
    opened : {s t : Stash} {n : ℕ} (m : Mode) → open_stash m s ≡ (none, t) → Step (s, n) (t, suc n)
    refused :
        {s t : Stash} {n : ℕ} (m : Mode) (e : Errno)
        → open_stash m s ≡ (some e, t)
        → Step (s, n) (t, n)
    closed : {s t : Stash} {n : ℕ} → release s ≡ ok t → Step (s, suc n) (t, n)
    wrote :
        {s : Stash} {n : ℕ} (off : ℕ) (user : List ℕ) (amt : ℕ) (w : Written)
        → write alloc s off user amt ≡ ok w
        → Step (s, suc n) (w.stash, suc n)

  pub data Reach (a : System) : System → Type 0 where
    here : Reach a a
    next : {b c : System} → Reach a b → Step b c → Reach a c

  get_page-count : (pgoff : ℕ) (s t : Stash) → get_page alloc pgoff s ≡ ok t → t.count ≡ s.count
  unfolding get_page
  get_page-count pgoff s t e = ground arith

  write_loop-count :
      (fuel : ℕ) (s : Stash) (off : ℕ) (user : List ℕ) (amt written : ℕ)
      → Returns
          (λ (w : Written). w.stash.count ≡ s.count)
          (write_loop alloc fuel s off user amt written)
  unfolding write_loop
  write_loop-count zero s off user amt written = tt
  write_loop-count (suc fuel) s off user amt written = elim (Bool-cases (amt == 0)) [
    | inl done ↦ rw done refl
    | inr more ↦
        let c : ℕ = min amt (page_size - off % page_size) in
        rw more (
          >>=-Returns (λ (w : Written). w.stash.count ≡ s.count)
            (get_page alloc (off % page_size) s) _
            λ t got. elim (Bool-cases (ltb (length user) c)) [
              | inl fault ↦ rw fault (get_page-count (off % page_size) s t got)
              | inr fine ↦ rw fine (
                  Returns-map (λ (w : Written). w.stash.count ≡ t.count)
                    (λ (w : Written). w.stash.count ≡ s.count) _
                    (λ w same. same ∙ get_page-count (off % page_size) s t got)
                    (write_loop-count fuel _ (off + c) (drop c user) (amt - c) (written + c)))
            ])
  ]

  write-count :
      (s : Stash) (off : ℕ) (user : List ℕ) (amt : ℕ) (w : Written)
      → write alloc s off user amt ≡ ok w
      → w.stash.count ≡ s.count
  unfolding write
  write-count s off user amt w e = elim (Bool-cases (off == s.size)) [
    | inr other ↦ let e' : ◌≡◌ {A = Run Written} (ok _) (ok w) = rw other at e in cc
    | inl same ↦ elim (Bool-cases (leb max_size s.size)) [
      | inl full ↦ let e' : ◌≡◌ {A = Run Written} (ok _) (ok w) = rw (same, full) at e in cc
      | inr space ↦
          let (v, looped, e') =
            >>=-eq-ok (write_loop alloc (limit s.size amt + 1) s off user (limit s.size amt) 0) _
              (rw (same, space) at e) in
          let kept : v.stash.count ≡ s.count =
            Returns-eq-ok (λ (w : Written). w.stash.count ≡ s.count) _
              (write_loop-count (limit s.size amt + 1) s off user (limit s.size amt) 0) looped in
          ground arith
    ]
  ]

  abbrev IsExclusive : System → Type 0
  IsExclusive (s, n) = (s.count ≡ n) × (n ≤ 1)

  Step-IsExclusive : {a b : System} → Step a b → IsExclusive a → IsExclusive b
  unfolding open_stash release free
  Step-IsExclusive (opened rdonly e) h = ground arith
  Step-IsExclusive (opened wronly e) h = ground arith
  Step-IsExclusive (opened rdwr e) h = ground arith
  Step-IsExclusive (refused rdonly c e) h = ground arith
  Step-IsExclusive (refused wronly c e) h = ground arith
  Step-IsExclusive (refused rdwr c e) h = ground arith
  Step-IsExclusive (closed e) h = ground arith
  Step-IsExclusive (wrote {s = s} off user amt w e) h = (write-count s off user amt w e ∙ h.0, h.1)

  Reach-IsExclusive : {a b : System} → IsExclusive a → Reach a b → IsExclusive b
  Reach-IsExclusive h here = h
  Reach-IsExclusive h (next r st) = Step-IsExclusive st (Reach-IsExclusive h r)

  -- In every state that calls can lead to from the module's first one, `count` is the number of
  -- open files, and that is one at most.
  pub Reach-count : {s : Stash} {n : ℕ} → Reach (initial, 0) (s, n) → (s.count ≡ n) × (n ≤ 1)
  Reach-count r = Reach-IsExclusive (refl, omega arith) r

  -- Nor does the last close of an open file ever meet the `BUG_ON` of `crashstash_release`.
  pub Reach-release :
      {s : Stash} {n : ℕ} → Reach (initial, 0) (s, suc n) → release s ≡ ok (record s { count = 0 })
  unfolding release
  Reach-release r = let (c, one) = Reach-count r in ground arith

-- A process that opens the stash to write, writes once and closes, and one that opens it to read
-- and reads once from the start.
pub stash_away : (ℕ → Option Page) → Stash → List ℕ → Run Stash
stash_away alloc s user = do
  w ← write alloc (open_stash wronly s).1 0 user (length user)
  release w.stash

pub retrieve : Stash → ℕ → ℕ → Run Reading
retrieve s amt room = read (open_stash rdonly s).1 0 amt room

-- An open for writing leaves an empty stash.
abbrev emptied : Stash → Stash
emptied s = record s { count = s.count + 1; list = []; size = 0; pages = 0 }

open_stash-wronly : (s : Stash) → s.count ≡ 0 → (open_stash wronly s).1 ≡ emptied s
unfolding open_stash free
open_stash-wronly s e = let test : (s.count == 0) ≡ true = ground arith in simp test

open_stash-rdonly :
    (s : Stash) → s.count ≡ 0 → (open_stash rdonly s).1 ≡ record s { count = s.count + 1 }
unfolding open_stash
open_stash-rdonly s e = let test : (s.count == 0) ≡ true = ground arith in simp test

emptied-IsPaged : (s : Stash) → IsPaged (emptied s)
emptied-IsPaged s = record {
  full = tt;
  counted = refl;
  enough = omega arith;
  tight = omega arith;
  limited = omega arith;
}

release-published :
    (s t : Stash) (n : ℕ)
    → s.count ≡ 0
    → t.count ≡ s.count + 1
    → release (published t) ≡ ok (record (published t) { count = 0 })
unfolding release
release-published s t n e same = ground arith

recount-IsPaged : (s : Stash) (n : ℕ) → IsPaged s → IsPaged (record s { count = n })
recount-IsPaged s n v = record {
  full = v.full;
  counted = v.counted;
  enough = v.enough;
  tight = v.tight;
  limited = v.limited;
}

retrieve_lem :
    (s : Stash) (amt room : ℕ)
    → IsPaged s
    → s.count ≡ 0
    → amt < 2 ^ 63
    → min amt s.size ≤ room
    → retrieve s amt room
      ≡ ok (record {
        off = min amt s.size;
        ret = bytes (min amt s.size);
        copied = take (min amt s.size) (contents s);
      })
unfolding retrieve
retrieve_lem s amt room v e a fits =
    ap (λ t. read t 0 amt room) (open_stash-rdonly s e)
    ∙ read-contents (record s { count = s.count + 1 }) 0 amt room
        (recount-IsPaged s (s.count + 1) v) (omega arith) a (omega arith)
    ∙ read_eq (omega arith) (omega arith) (
        ap (λ n. take n (contents s)) {x = min amt (s.size - 0)} {y = min amt s.size} (omega arith))

-- What one process has written, the next reads, up to the limit on the size, whatever the stash
-- held before; the file was not open.
pub retrieve-stash_away :
    (alloc : ℕ → Option Page) (s : Stash) (user : List ℕ) (amt room : ℕ)
    → Allocates alloc
    → s.count ≡ 0
    → length user < 2 ^ 63
    → amt < 2 ^ 63
    → min amt (min (length user) max_size) ≤ room
    → let n = min amt (min (length user) max_size) in
      (stash_away alloc s user >>= λ t. retrieve t amt room)
      ≡ ok (record { off = n; ret = bytes n; copied = take n user })
unfolding stash_away
retrieve-stash_away alloc s user amt room alloc_ok closed_before l a fits =
    let m : ℕ = min (length user) (max_size - 0) in
    let (t, written, w) =
      write-contents alloc (emptied s) user (length user) alloc_ok (emptied-IsPaged s) (omega arith)
        (omega arith) l in
    let size : t.size ≡ min (length user) max_size = omega (arith, w.grown) in
    let n : ℕ = min amt (min (length user) max_size) in
    let r : Stash = record (published t) { count = 0 } in
    let stored : stash_away alloc s user ≡ ok r =
      ap (λ x. write alloc x 0 user (length user) >>= (λ (v : Written). release v.stash))
        (open_stash-wronly s closed_before)
      ∙ rw written (release-published s t 0 closed_before w.same_count) in
    ap (λ x. x >>= (λ (u : Stash). retrieve u amt room)) stored
    ∙ retrieve_lem r amt room (recount-IsPaged (published t) 0 w.paged) refl a (omega (arith, size))
    ∙ read_eq (omega (arith, size)) (omega (arith, size)) (
        ap (take (min amt t.size)) w.appended
        ∙ ap (λ k. take k (take m user)) {x = min amt t.size} {y = n} (omega (arith, size))
        ∙ take-take n m user (omega arith))
