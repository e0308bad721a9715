-- ===== src/Dumpphys.antt =====
-- vmcoreinfo/dumpphys.c: write the memory of a core dump, or the vmcoreinfo in it. libkdumpfile is an
-- argument; messages on stderr, among them the progress report, are left out.
pub mod Progress
pub mod Image
pub mod Range
pub mod Dump
pub mod Rule
pub mod Main
mod Tests
use kernel_stuff.Common.{
  ℕ, zero, suc, ◌+◌, ◌-◌, ◌*◌, ◌%◌, ◌^◌, Bool, true, false, ◌&&◌, Option, none, some, List, [], ◌∷◌,
  ◌==◌, if◌then◌else◌, length, take, overwrite,
}
use kernel_stuff.Common.Run.{
  Run, ok, stop, exit, out_of_bounds, assertion, out_of_fuel, ◌>>=◌, ◌>>◌, require,
}
use kernel_stuff.CString.{strcmp_eq}
use kernel_stuff.Posix.{File, write}

-- `kdump_status`, as far as the program looks at it.
pub data Status : Type 0 where
  kdump_ok nodata failed : Status

pub data Attr : Type 0 where
  max_pfn_attr page_size_attr page_shift_attr : Attr

-- A dump that libkdumpfile has open: a number attribute, or `none` for an error; whether the attribute
-- of the page map is a bitmap, or `none`; the next bit of it that is set, or clear, from an index on;
-- the bytes that are read at a physical address, when so many are asked for; and a string there.
pub record Kdump : Type 0 where
  pub get_number : Attr → Option ℕ
  pub get_pagemap : Option Bool
  pub find_set : ℕ → Status × ℕ
  pub find_clear : ℕ → Status × ℕ
  pub kdump_read : ℕ → ℕ → Status × List ℕ
  pub read_string : ℕ → Option (List ℕ)

-- `struct memory_info`; the page map stands in the dump.
pub record MemoryInfo : Type 0 where
  pub max_pfn : ℕ
  pub page_size : ℕ
  pub page_shift : ℕ

-- `fail` and `perror_fail`
abbrev pub or_exit {ℓ} : {A : Type ℓ} → Option A → Run A
or_exit none = stop (exit 1)
or_exit (some a) = ok a

unfoldable pub get_memory_info : Kdump → Run MemoryInfo
get_memory_info ctx = do
  pfns ← or_exit (ctx.get_number max_pfn_attr)
  size ← or_exit (ctx.get_number page_size_attr)
  shift ← or_exit (ctx.get_number page_shift_attr)
  is_bitmap ← or_exit ctx.get_pagemap
  require is_bitmap assertion
  ok (record { max_pfn = pfns; page_size = if size == 0 then 4096 else size; page_shift = shift })

-- `struct vmcoreinfo_arg`, without the dump.
pub record VmcoreinfoArg : Type 0 where
  pub fd : File
  pub should_continue : Bool
  pub found_count : ℕ
  pub search_within_page : Bool

-- The functions of type `page_fn`. Their result is whether they return 0, and not -1.
pub data PageFn : Type 0 where
  dump_page_fn check_vmcoreinfo_fn : PageFn

abbrev pub Paged : Type 0
Paged = Run (Bool × VmcoreinfoArg)

unfoldable pub dump_page : VmcoreinfoArg → ℕ → ℕ → List ℕ → Paged
dump_page arg addr len buf =
    let (put, fd') = write arg.fd (take len buf) in
    ok (elim put [ none ↦ false | some n ↦ true ], record arg { fd = fd' })

-- "OSRELEASE="
abbrev pub osrelease : List ℕ
osrelease = b'O' ∷ b'S' ∷ b'R' ∷ b'E' ∷ b'L' ∷ b'E' ∷ b'A' ∷ b'S' ∷ b'E' ∷ b'=' ∷ []

-- "---\n"
abbrev pub separator : List ℕ
separator = b'-' ∷ b'-' ∷ b'-' ∷ 10 ∷ []

-- The bytes of a string up to its NUL.
unfoldable pub c_string : List ℕ → Run (List ℕ)
c_string [] = stop out_of_bounds
c_string (b ∷ bs) = let rest = (do s ← c_string bs; ok (b ∷ s)) in if b == 0 then ok [] else rest

unfoldable pub starts_with : List ℕ → List ℕ → Bool
starts_with [] mem = true
starts_with (c ∷ text) [] = false
starts_with (c ∷ text) (b ∷ mem) = b == c && starts_with text mem

-- `memmem`: the offset of the first place that holds a text.
unfoldable pub memmem : List ℕ → List ℕ → Option ℕ
memmem [] text = if starts_with text [] then some 0 else none
memmem (b ∷ mem) text =
    let rest = elim (memmem mem text) as (λ _. Option ℕ) [ none ↦ none | some i ↦ some (suc i) ] in
    if starts_with text (b ∷ mem) then some 0 else rest

-- What `check_vmcoreinfo` does after it has written what it found.
abbrev pub go_on : VmcoreinfoArg → Bool × VmcoreinfoArg
go_on arg =
    if arg.should_continue
    then (true, record arg { fd = (write arg.fd separator).1 })
    else (false, arg)

unfoldable pub check_vmcoreinfo : Kdump → VmcoreinfoArg → ℕ → ℕ → List ℕ → Paged
check_vmcoreinfo ctx arg addr len buf =
    let at_start = (do
      matches ← strcmp_eq osrelease buf 0
      let written = (do
        text ← c_string buf
        ok (go_on (record arg { fd = (write arg.fd text).1; found_count = arg.found_count + 1 })))
      if matches then written else ok (true, arg)) in
    let within : Paged = elim (memmem (take len buf) osrelease) [
      | none ↦ ok (true, arg)
      | some found ↦ elim (ctx.read_string (addr + found)) [
        | none ↦ ok (false, arg)
        | some str ↦ ok (go_on (record arg { fd = (write arg.fd str).1 }))
      ]
    ] in
    if arg.search_within_page then within else at_start

abbrev pub call_fn : PageFn → Kdump → VmcoreinfoArg → ℕ → ℕ → List ℕ → Paged
call_fn dump_page_fn ctx arg addr len buf = dump_page arg addr len buf
call_fn check_vmcoreinfo_fn ctx arg addr len buf = check_vmcoreinfo ctx arg addr len buf

-- How the work on the pages ends: with the last page, with a page function that returned -1, or
-- by `exit`.
pub data How : Type 0 where
  finished returned_error exited : How

-- Then the argument of the page function, the buffer, and the number of pages read.
pub record Work : Type 0 where
  pub how : How
  pub arg : VmcoreinfoArg
  pub buf : List ℕ
  pub pages_read : ℕ

-- `offset << mi->page_shift`
abbrev pub address_of : MemoryInfo → ℕ → ℕ
address_of mi pfn = pfn * 2 ^ mi.page_shift % 2 ^ 64

module _ (ctx : Kdump) (mi : MemoryInfo) (fn : PageFn) (persist : Bool) where
  -- The loop over a range of page frames, from `offset` on with `left` frames left.
  unfoldable pub read_range : ℕ → ℕ → Work → Run Work
  read_range zero offset w = ok w
  read_range (suc left) offset w =
      let (ks, got) = ctx.kdump_read (address_of mi offset) mi.page_size in
      let filled = overwrite w.buf 0 got in
      let skipped = read_range left (offset + 1) (record w { buf = filled }) in
      elim ks [
        | kdump_ok ↦ do
          (goes_on, arg') ← call_fn fn ctx w.arg (address_of mi offset) (length got) filled
          let read_on =
              read_range left (offset + 1)
                (record w { arg = arg'; buf = filled; pages_read = w.pages_read + 1 })
          if goes_on
              then read_on
              else ok (record {
                how = returned_error;
                arg = arg';
                buf = filled;
                pages_read = w.pages_read + 1;
              })
        | nodata ↦ if persist then skipped else ok (record w { how = exited })
        | failed ↦ if persist then skipped else ok (record w { how = exited })
      ]

  -- The loop over the ranges of pages, from the index `addr` of the page map on.
  unfoldable pub read_ranges : ℕ → ℕ → Work → Run Work
  read_ranges zero addr w = stop out_of_fuel
  read_ranges (suc fuel) addr w =
      let (set_status, begin) = ctx.find_set addr in
      let (clear_status, end) = ctx.find_clear begin in
      let continue = λ (w' : Work). read_ranges fuel end w' in
      elim set_status [
        | nodata ↦ ok w
        | failed ↦ ok (record w { how = exited })
        | kdump_ok ↦ elim clear_status [
          | nodata ↦ ok (record w { how = exited })
          | failed ↦ ok (record w { how = exited })
          | kdump_ok ↦ do
            w' ← read_range (end - begin) begin w
            elim w'.how [ finished ↦ continue w' | returned_error ↦ ok w' | exited ↦ ok w' ]
        ]
      ]

  -- `fresh` is what `malloc` gives; `frames` bounds the page frames of the dump.
  unfoldable pub count_pages : (frames : ℕ) → (fresh : List ℕ) → VmcoreinfoArg → Run Work
  count_pages frames fresh arg =
      read_ranges (frames + 1) 0 (record { how = finished; arg = arg; buf = fresh; pages_read = 0 })
