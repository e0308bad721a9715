-- ===== src/Stash/Read.antt =====
-- A read gives back what the stash holds (crashstash/crashstash.c).
use native.Mathlib.Decide.{dec_le}
use mathlib.Core.Path.{ap₂}
use kernel_stuff.Common.{
  ℕ, zero, suc, ◌+◌, ◌-◌, ◌*◌, ◌/◌, ◌%◌, ◌^◌, ◌≤◌, ◌<◌, min, ◌≡◌, refl, sym, ap, ◌∙◌, ◌≢◌, false,
  List, [], ◌∷◌, ◌++◌, append-nil, append_assoc, ltb, ◌==◌, if◌then◌else◌, length, arith, take,
  drop, length-drop, take-all, take-append_le, drop-append_le, take-append_ge, drop-append_ge,
  drop-nil, drop-drop, slice, slice-take,
}
use kernel_stuff.Common.Run.{Run, ok}
use kernel_stuff.Stash.{
  page_size, max_size, Page, Stash, bytes, Reading, seek_page, read_loop, read,
}
use kernel_stuff.Stash.Pages.{concat, AllFull, IsPaged, contents}

read_loop_end :
    (ps : List Page) (off room n : ℕ) (copied : List ℕ)
    → read_loop ps 0 off room n copied ≡ ok (record { off = off; ret = bytes n; copied = copied })
unfolding read_loop
read_loop_end [] off room n copied = refl
read_loop_end (p ∷ ps) off room n copied = refl

read_loop_step :
    (p : Page) (ps : List Page) (amt off room n : ℕ) (copied : List ℕ)
    → amt ≢ 0
    → min amt (page_size - off % page_size) ≤ room
    → read_loop (p ∷ ps) amt off room n copied ≡ (
        let c = min amt (page_size - off % page_size) in
        read_loop ps (amt - c) (off + c) (room - c) (n + c) (copied ++ slice p (off % page_size) c))
unfolding read_loop
read_loop_step p ps amt off room n copied nz fits =
    let test : (amt == 0) ≡ false = ground arith in
    let inside : ltb room (min amt (page_size - off % page_size)) ≡ false = ground arith in
    rw (test, inside)

pub read_eq :
    {o p n m : ℕ} {l k : List ℕ}
    → o ≡ p
    → n ≡ m
    → l ≡ k
    → ◌≡◌ {A = Run Reading}
        (ok (record { off = o; ret = bytes n; copied = l }))
        (ok (record { off = p; ret = bytes m; copied = k }))
read_eq a b c = cc

-- What one round and the rest of the loop copy is the part of the pages that was asked for.
copied_on :
    (p : Page) (ps : List Page) (amt o : ℕ)
    → length p ≡ page_size
    → o < page_size
    → (c : ℕ) → c ≡ min amt (page_size - o)
    → slice p o c ++ slice (concat ps) ((o + c) % page_size) (amt - c)
      ≡ slice (p ++ concat ps) o amt
copied_on p ps amt o h lt c ec = elim (dec_le amt (page_size - o)) [
  | yes fits ↦
      ap₂ ◌++◌ (ap (λ k. take k (drop o p)) {x = c} {y = amt} (omega arith)) (
        ap (λ k. take k (drop ((o + c) % page_size) (concat ps))) {x = amt - c} {y = 0}
          (omega arith))
      ∙ append-nil (take amt (drop o p))
      ∙ sym (
          ap (take amt) whole
          ∙ take-append_le amt (drop o p) (concat ps) (omega (arith, length-drop o p)))
  | no over ↦
      ap₂ ◌++◌ (take-all c (drop o p) (omega (arith, length-drop o p))) (
        ap (λ k. take (amt - c) (drop k (concat ps))) {x = (o + c) % page_size} {y = 0}
          (omega arith))
      ∙ sym (
          ap (take amt) whole
          ∙ take-append_ge amt (amt - c) (drop o p) (concat ps) (omega (arith, length-drop o p)))
]
  where
    whole : drop o (p ++ concat ps) ≡ drop o p ++ concat ps
    whole = drop-append_le o p (concat ps) (omega arith)

read_loop_lem :
    (ps : List Page) (amt off room n : ℕ) (copied : List ℕ)
    → AllFull ps
    → amt ≤ length ps * page_size - off % page_size
    → amt ≤ room
    → read_loop ps amt off room n copied
      ≡ ok (record {
        off = off + amt;
        ret = bytes (n + amt);
        copied = copied ++ slice (concat ps) (off % page_size) amt;
      })
read_loop_lem ps zero off room n copied h fits u =
    read_loop_end ps off room n copied
    ∙ read_eq (omega arith) (omega arith) (sym (append-nil copied))
read_loop_lem [] (suc k) off room n copied h fits u = absurd (omega arith)
read_loop_lem (p ∷ ps) (suc k) off room n copied (h, hs) fits u =
    let o : ℕ = off % page_size in
    let c : ℕ = min (suc k) (page_size - o) in
    read_loop_step p ps (suc k) off room n copied (omega arith) (omega arith)
    ∙ read_loop_lem ps (suc k - c) (off + c) (room - c) (n + c) (copied ++ slice p o c) hs
        (omega arith) (omega arith)
    ∙ read_eq (omega arith) (omega arith) (
        append_assoc copied (slice p o c) _
        ∙ ap (λ l. copied ++ l)
            (ap (λ m. slice p o c ++ slice (concat ps) m (suc k - c)) {x = (off + c) % page_size}
                {y = (o + c) % page_size} (omega arith)
              ∙ copied_on p ps (suc k) o h (omega arith) c refl))

seek_page-drop : (ps : List Page) (n : ℕ) → seek_page ps n ≡ drop n ps
unfolding seek_page
seek_page-drop [] n = sym (drop-nil n)
seek_page-drop (p ∷ ps) zero = refl
seek_page-drop (p ∷ ps) (suc n) = seek_page-drop ps n

concat-drop :
    (ps : List Page) (n : ℕ) → AllFull ps → concat (drop n ps) ≡ drop (n * page_size) (concat ps)
concat-drop ps zero h = refl
concat-drop [] (suc n) h = sym (drop-nil (suc n * page_size))
concat-drop (p ∷ ps) (suc n) (h, hs) =
    concat-drop ps n hs
    ∙ sym (drop-append_ge (suc n * page_size) (n * page_size) p (concat ps) (omega arith))

AllFull-drop : (n : ℕ) (ps : List Page) → AllFull ps → AllFull (drop n ps)
AllFull-drop zero ps h = h
AllFull-drop (suc n) [] h = tt
AllFull-drop (suc n) (p ∷ ps) (h, hs) = AllFull-drop n ps hs

-- The bytes that a read is limited to.
limited_read :
    (size off amt : ℕ)
    → off ≤ size
    → size ≤ max_size
    → amt < 2 ^ 63
    → (if ltb size ((off + amt) % 2 ^ 64) then (2 ^ 64 + size - off) % 2 ^ 64 else amt)
      ≡ min amt (size - off)
limited_read size off amt h m k = ground arith

-- A read at an offset inside the stash, into memory that can take the bytes, copies the bytes of the
-- stash from the offset on, as many as were asked for and are there, moves the offset by as many
-- and returns their number. The number asked for is below 2 ^ 63.
pub read-contents :
    (s : Stash) (off amt room : ℕ)
    → IsPaged s
    → off ≤ s.size
    → amt < 2 ^ 63
    → (let n = min amt (s.size - off) in n ≤ room)
    → let n = min amt (s.size - off) in
      read s off amt room
      ≡ ok (record { off = off + n; ret = bytes n; copied = slice (contents s) off n })
unfolding read
read-contents s off amt room v inside small fits =
    let n : ℕ = min amt (s.size - off) in
    ap (λ k. read_loop (seek_page s.list (off / page_size)) k off room 0 [])
      (limited_read s.size off amt inside v.limited small)
    ∙ ap (λ l. read_loop l n off room 0 []) (seek_page-drop s.list (off / page_size))
    ∙ read_loop_lem (drop (off / page_size) s.list) n off room 0 []
        (AllFull-drop (off / page_size) s.list v.full)
        (omega (arith, length-drop (off / page_size) s.list, v.enough)) fits
    ∙ read_eq (omega arith) (omega arith) (
        ap (λ l. slice l (off % page_size) n) (concat-drop s.list (off / page_size) v.full)
        ∙ ap (take n) (
            drop-drop (off % page_size) (off / page_size * page_size) off (concat s.list)
              (omega arith))
        ∙ sym (slice-take off n s.size (concat s.list) (omega arith)))
