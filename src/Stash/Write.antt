-- ===== src/Stash/Write.antt =====
-- A write appends to the stash (crashstash/crashstash.c).
use mathlib.Core.Path.{subst}
use kernel_stuff.Common.{
  ℕ, zero, suc, ◌+◌, ◌-◌, ◌%◌, ◌^◌, ◌≤◌, ◌<◌, min, ◌≡◌, refl, sym, ap, ◌∙◌, ◌≢◌, ◌⊎◌, inl, inr,
  true, false, Option, List, ◌++◌, append-nil, append_assoc, ltb, leb, ◌==◌, if◌then◌else◌, length,
  arith, Bool-cases, take, drop, replicate, overwrite, length-drop, slice, take-append-slice,
}
use kernel_stuff.Common.Run.{Run, ok}
use kernel_stuff.Stash.{
  page_size, max_size, Page, Stash, einval, enospc, bytes, error, Written, get_page, write_loop,
  copy_from_user, update_last, limit, write,
}
use kernel_stuff.Stash.Pages.{IsPaged, contents}
use kernel_stuff.Stash.Fill.{Allocates, get_page-IsReady, filled, filled-IsPaged, contents-filled}

-- What a loop that has written all of `amt` bytes leaves.
pub record HasWritten (s : Stash) (user : List ℕ) (amt : ℕ) (t : Stash) : Type 0 where
  pub paged : IsPaged t
  pub appended : contents t ≡ contents s ++ take amt user
  pub grown : t.size ≡ s.size + amt
  pub same_count : t.count ≡ s.count

written_eq :
    (s : Stash) {o p n m : ℕ}
    → o ≡ p
    → n ≡ m
    → ◌≡◌ {A = Run Written}
        (ok (record { stash = s; off = o; ret = bytes n }))
        (ok (record { stash = s; off = p; ret = bytes m }))
written_eq s a b = cc

copy_from_user-take :
    (user : List ℕ) (n : ℕ) → n ≤ length user → copy_from_user user n ≡ take n user
copy_from_user-take user n fits =
    ap (λ k. take n user ++ replicate k 0) {x = n - length user} {y = 0} (omega arith)
    ∙ append-nil (take n user)

module _ (alloc : ℕ → Option Page) where
  pub write_loop_step :
      (fuel : ℕ) (s t : Stash) (user : List ℕ) (amt written : ℕ)
      → amt ≢ 0
      → get_page alloc (s.size % page_size) s ≡ ok t
      → min amt (page_size - s.size % page_size) ≤ length user
      → write_loop alloc (suc fuel) s s.size user amt written ≡ (
          let c = min amt (page_size - s.size % page_size) in
          write_loop alloc fuel
            (filled t (s.size % page_size) c user)
            (s.size + c)
            (drop c user)
            (amt - c)
            (written + c))
  unfolding write_loop
  write_loop_step fuel s t user amt written nz e fits =
      let test : (amt == 0) ≡ false = ground arith in
      let inside : ltb (length user) (min amt (page_size - s.size % page_size)) ≡ false =
        ground arith in
      rw (test, e, inside)
        (ap
          (λ chunk.
            write_loop alloc fuel
              (record t {
                list = update_last (λ pg. overwrite pg (s.size % page_size) chunk) t.list;
                size = t.size + min amt (page_size - s.size % page_size);
              })
              (s.size + min amt (page_size - s.size % page_size))
              (drop (min amt (page_size - s.size % page_size)) user)
              (amt - min amt (page_size - s.size % page_size))
              (written + min amt (page_size - s.size % page_size)))
          (copy_from_user-take user _ fits))

  pub write_loop_done :
      (fuel : ℕ) (s : Stash) (off : ℕ) (user : List ℕ) (written : ℕ)
      → write_loop alloc (suc fuel) s off user 0 written
        ≡ ok (record { stash = s; off = off; ret = bytes written })
  unfolding write_loop
  write_loop_done fuel s off user written = refl

module _ (alloc : ℕ → Option Page) (alloc_ok : Allocates alloc) where
  write_loop_lem :
      (fuel : ℕ) (s : Stash) (user : List ℕ) (amt written : ℕ)
      → IsPaged s
      → amt < fuel
      → amt ≤ length user
      → s.size + amt ≤ max_size
      → (t : Stash) × (write_loop alloc fuel s s.size user amt written
          ≡ ok (record { stash = t; off = s.size + amt; ret = bytes (written + amt) }))
        × HasWritten s user amt t
  write_loop_lem zero s user amt written v lt u m = absurd (omega arith)
  write_loop_lem (suc fuel) s user zero written v lt u m = (
    s,
    write_loop_done alloc fuel s s.size user written ∙ written_eq s (omega arith) (omega arith),
    record {
      paged = v;
      appended = sym (append-nil (contents s));
      grown = omega arith;
      same_count = refl;
    },
  )
  write_loop_lem (suc fuel) s user (suc k) written v lt u m =
      let c : ℕ = min (suc k) (page_size - s.size % page_size) in
      let (t, e, r) = get_page-IsReady alloc alloc_ok s v in
      let f : Stash = filled t (s.size % page_size) c user in
      let room : c ≤ page_size - s.size % page_size = omega arith in
      let paged : IsPaged f =
        filled-IsPaged s t v r c user (omega arith) room (omega arith) (omega arith) in
      let held : contents f ≡ contents s ++ take c user =
        contents-filled s t v r c user (omega arith) room (omega arith) (omega arith) in
      let (g, rest, w) =
        write_loop_lem fuel f (drop c user) (suc k - c) (written + c) paged (omega arith)
          (omega (arith, length-drop c user)) (omega (arith, r.same_size)) in
      (
        g,
        write_loop_step alloc fuel s t user (suc k) written (omega arith) e (omega arith)
            ∙ ap (λ o. write_loop alloc fuel f o (drop c user) (suc k - c) (written + c))
                {x = s.size + c} {y = t.size + c} (omega (arith, r.same_size))
            ∙ rest
            ∙ written_eq g (omega (arith, r.same_size)) (omega arith),
        record {
          paged = w.paged;
          appended =
              w.appended
              ∙ ap (λ l. l ++ slice user c (suc k - c)) held
              ∙ append_assoc (contents s) (take c user) (slice user c (suc k - c))
              ∙ ap (λ l. contents s ++ l)
                  (take-append-slice c (suc k - c) (suc k) user (omega arith));
          grown = omega (arith, w.grown, r.same_size);
          same_count = w.same_count ∙ r.same_count;
        },
      )

pub limit_lem :
    (size amt : ℕ) → size < max_size → amt < 2 ^ 63 → limit size amt ≡ min amt (max_size - size)
limit_lem size amt h k = ground arith

-- `s` with the size that `proc_set_size` sets.
abbrev pub published : Stash → Stash
published s = record s { proc_size = s.size }

HasWritten-published :
    (s : Stash) (user : List ℕ) {amt : ℕ} (t : Stash)
    → HasWritten s user amt t
    → HasWritten s user amt (published t)
HasWritten-published s user t w = record {
  paged = record {
    full = w.paged.full;
    counted = w.paged.counted;
    enough = w.paged.enough;
    tight = w.paged.tight;
    limited = w.paged.limited;
  };
  appended = w.appended;
  grown = w.grown;
  same_count = w.same_count;
}

-- A write at the end of a stash that is not full, from memory that can be read, appends as many of
-- the bytes as there is space for, moves the offset by as many and returns their number. The pages
-- stay as many as the size needs, the new size is published, and `count` stays. Every page that is
-- asked for is given; the number of bytes is below 2 ^ 63.
pub write-contents :
    (alloc : ℕ → Option Page) (s : Stash) (user : List ℕ) (amt : ℕ)
    → Allocates alloc
    → IsPaged s
    → s.size < max_size
    → amt ≤ length user
    → amt < 2 ^ 63
    → let n = min amt (max_size - s.size) in
      (t : Stash) × (write alloc s s.size user amt
        ≡ ok (record { stash = published t; off = s.size + n; ret = bytes n }))
      × HasWritten s user n (published t)
unfolding write
write-contents alloc s user amt alloc_ok v space readable small =
    let same_off : (s.size == s.size) ≡ true = ground arith in
    let not_full : leb max_size s.size ≡ false = ground arith in
    let (t, e, w) =
      write_loop_lem alloc alloc_ok (limit s.size amt + 1) s user (limit s.size amt) 0 v
        (omega arith) (omega (arith, limit_lem s.size amt space small))
        (omega (arith, limit_lem s.size amt space small)) in
    let n : limit s.size amt ≡ min amt (max_size - s.size) = limit_lem s.size amt space small in
    (
      t,
      rw (same_off, not_full, e) (written_eq (published t) (omega (arith, n)) (omega (arith, n))),
      HasWritten-published s user t (subst (λ k. HasWritten s user k t) n w),
    )

-- A write elsewhere than at the end fails with `EINVAL`, one at the end of a full stash with
-- `ENOSPC`, and neither changes anything.
write_refused :
    (alloc : ℕ → Option Page) (s : Stash) (off : ℕ) (user : List ℕ) (amt : ℕ)
    → (off ≢ s.size) ⊎ (max_size ≤ s.size)
    → write alloc s off user amt
      ≡ ok (record { stash = s; off = off; ret = error (if off == s.size then enospc else einval) })
unfolding write
write_refused alloc s off user amt (inl ne) =
    let test : (off == s.size) ≡ false = ground arith in rw test
write_refused alloc s off user amt (inr full) = elim (Bool-cases (off == s.size)) [
  | inl test ↦ let is_full : leb max_size s.size ≡ true = ground arith in rw (test, is_full)
  | inr test ↦ rw test
]
