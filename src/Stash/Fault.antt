-- ===== src/Stash/Fault.antt =====
-- A write from memory that cannot be read (crashstash/crashstash.c).
use kernel_stuff.Common.{
  ℕ, suc, ◌+◌, ◌-◌, ◌%◌, ◌^◌, ◌<◌, min, ◌≡◌, ap, ◌∙◌, true, false, Option, some, List, [], ◌∷◌,
  ◌++◌, ltb, leb, ◌==◌, arith, length-append, take-nil, replicate, overwrite,
}
use kernel_stuff.Common.Run.{ok, ◌>>=◌}
use kernel_stuff.Stash.{
  page_size, max_size, Page, Stash, efault, error, copy_from_user, update_last, Written, get_page,
  write_loop, limit, write,
}
use kernel_stuff.Stash.Pages.{IsPaged, update_last-append}
use kernel_stuff.Stash.Write.{published}
use kernel_stuff.Stash.Write.{limit_lem}

-- The stash with one more page at its end, as a write at a page boundary has left it.
abbrev pub with_page : Stash → Page → Stash
with_page s pg = record s {
  list = s.list ++ (pg ∷ []);
  pages = s.pages + 1;
  allocs = s.allocs + 1;
  proc_size = s.size;
}

-- A frame whose first bytes are zeros.
abbrev pub zero_filled : Page → ℕ → Page
zero_filled pg n = overwrite pg 0 (replicate n 0)

copy_from_user-none : (n : ℕ) → copy_from_user [] n ≡ replicate n 0
copy_from_user-none n =
    ap (λ (l : List ℕ). l ++ replicate (n - 0) 0) (take-nil n)
    ∙ ap (λ k. replicate {A = ℕ} k 0) {x = n - 0} {y = n} (omega arith)

module _ (alloc : ℕ → Option Page) (s : Stash) (pg : Page) (given : alloc s.allocs ≡ some pg) where
  fault_loop :
      (fuel amt : ℕ)
      → s.size % page_size ≡ 0
      → 0 < amt
      → write_loop alloc (suc fuel) s s.size [] amt 0
        ≡ ok (record {
          stash = record s {
            list = s.list ++ (zero_filled pg (min amt page_size) ∷ []);
            pages = s.pages + 1;
            allocs = s.allocs + 1;
          };
          off = s.size;
          ret = error efault;
        })
  unfolding write_loop get_page
  fault_loop fuel amt aligned pos =
      let test : (amt == 0) ≡ false = ground arith in
      let at_start : (s.size % page_size == 0) ≡ true = ground arith in
      let short : ltb 0 (min amt (page_size - s.size % page_size)) ≡ true = ground arith in
      rw (test, at_start, given, short)
        (ap
          (λ l. ok (record {
            stash = record s { list = l; pages = s.pages + 1; allocs = s.allocs + 1 };
            off = s.size;
            ret = error efault;
          }))
          list_same)
    where
      list_same :
          update_last
            (λ p.
              overwrite p
                (s.size % page_size)
                (copy_from_user [] (min amt (page_size - s.size % page_size))))
            (s.list ++ (pg ∷ []))
          ≡ s.list ++ (zero_filled pg (min amt page_size) ∷ [])
      list_same =
          update_last-append
            (λ p.
              overwrite p (s.size % page_size)
                (copy_from_user [] (min amt (page_size - s.size % page_size))))
            s.list pg
          ∙ ap (λ chunk. s.list ++ (overwrite pg (s.size % page_size) chunk ∷ []))
              (copy_from_user-none (min amt (page_size - s.size % page_size)))
          ∙ ap (λ o. s.list ++ (overwrite pg o (replicate (min amt (page_size - o)) 0) ∷ []))
              aligned

  -- A write at a page boundary, from memory of which no byte can be read, fails with `EFAULT` and
  -- has stored nothing, but it leaves a page more than the size needs, which begins with as many
  -- zeros as were to be copied into it.
  pub fault-with_page :
      (amt : ℕ)
      → IsPaged s
      → s.size % page_size ≡ 0
      → s.size < max_size
      → 0 < amt
      → amt < 2 ^ 63
      → (write alloc s s.size [] amt
          ≡ ok (record {
            stash = with_page s (zero_filled pg (min (limit s.size amt) page_size));
            off = s.size;
            ret = error efault;
          }))
        × (¬ IsPaged (with_page s (zero_filled pg (min (limit s.size amt) page_size))))
  unfolding write
  fault-with_page amt v aligned space pos small =
      let same_off : (s.size == s.size) ≡ true = ground arith in
      let not_full : leb max_size s.size ≡ false = ground arith in
      (
        rw (same_off, not_full)
            (ap
                (λ k.
                  write_loop alloc k s s.size [] (limit s.size amt) 0
                  >>= (λ (w : Written). ok (record w { stash = published w.stash })))
                {x = limit s.size amt + 1} {y = suc (limit s.size amt)} (omega arith)
              ∙ rw (
                  fault_loop (limit s.size amt) (limit s.size amt) aligned
                    (omega (arith, limit_lem s.size amt space small)))),
        (λ w. absurd (
            omega (
              arith,
              w.tight,
              v.enough,
              length-append s.list (zero_filled pg (min (limit s.size amt) page_size) ∷ []),
            ))),
      )
