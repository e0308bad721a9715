-- ===== src/Dumpphys/Tests.antt =====
-- dumpphys on a small core (vmcoreinfo/dumpphys.c).
use kernel_stuff.Common.{
  ℕ, ◌+◌, ◌%◌, ◌^◌, ◌≤◌, ◌≡◌, refl, ◌≢◌, ◌↔◌, ◌⊎◌, inl, inr, Bool, true, false, ◌||◌, none, some,
  List, [], ◌∷◌, ◌++◌, leb, ◌==◌, if◌then◌else◌, length, arith, Bool-cases, replicate,
}
use kernel_stuff.Common.Run.{ok}
use kernel_stuff.Common.Int.{pos, ◌-ℤ◌}
use kernel_stuff.CString.{strcmp_eq}
use kernel_stuff.Posix.{File, write, max_rw_count}
use kernel_stuff.Dumpphys.{
  Kdump, kdump_ok, nodata, failed, max_pfn_attr, page_size_attr, page_shift_attr, MemoryInfo,
  get_memory_info, VmcoreinfoArg, dump_page_fn, check_vmcoreinfo_fn, check_vmcoreinfo, c_string,
  starts_with, memmem, osrelease, finished, exited, Work, address_of, read_range, read_ranges,
  count_pages,
}
use kernel_stuff.Dumpphys.Progress.{
  Timespec, Progress, timespec_sub, progress_update, up_ns, down_ns, progress_update-printed,
}
use kernel_stuff.Dumpphys.Image.{IsPageMap, page_of, image}
use kernel_stuff.Dumpphys.Range.{IsReadable}
use kernel_stuff.Dumpphys.Dump.{count_pages-image}
use kernel_stuff.Dumpphys.Main.{
  Env, core, vmcoreinfo, persistent, default_config, read_opts, silent, found_none, report_of,
  conclude, main,
}
use kernel_stuff.Dumpphys.Main.Search.{first_search, flexible_search}

-- Page frames 1, 2 and 4 are there; frame 2 cannot be read.
abbrev bits : ℕ → Bool
bits k = k == 1 || (k == 2 || k == 4)

-- The third page starts with the text that a search looks for, if `text` does.
abbrev dump_of : List ℕ → Kdump
dump_of text = record {
  get_number =
      λ a. elim a [ max_pfn_attr ↦ some 5 | page_size_attr ↦ some 16 | page_shift_attr ↦ some 4 ];
  get_pagemap = some true;
  find_set = λ i.
      if leb i 1
      then (kdump_ok, 1)
      else if leb i 2
      then (kdump_ok, 2)
      else if leb i 4
      then (kdump_ok, 4)
      else (nodata, i);
  find_clear = λ i.
      if i == 1 || i == 2 then (kdump_ok, 3) else if i == 4 then (kdump_ok, 5) else (kdump_ok, i);
  kdump_read = λ addr n.
      if addr == 32
      then (failed, [])
      else if addr == 64
      then (kdump_ok, text)
      else (kdump_ok, replicate n 7);
  read_string = λ addr. some text;
}

page_map : (text : List ℕ) → IsPageMap (dump_of text) 5 bits
page_map text = record {
  set_works = λ i e. ground arith;
  set_found = λ i e. (ground arith, ground arith, λ k l u. ground arith);
  set_none = λ i e k l. ground arith;
  clear_found = λ i. (ground arith, ground arith, ground arith, λ k l u. ground arith);
  bounded = λ k l. ground arith;
}

abbrev stdout : File
stdout = record {
  bytes = 1 ∷ [];
  pos = 1;
  max_offset = 2 ^ 60;
  read_fails = λ _. false;
  write_fails = λ _. false;
}

abbrev mi : MemoryInfo
mi = record { max_pfn = 5; page_size = 16; page_shift = 4 }

abbrev some_text : List ℕ
some_text = 3 ∷ 4 ∷ []

abbrev via : Bool → Bool → VmcoreinfoArg
via all within = record {
  fd = stdout;
  should_continue = all;
  found_count = 0;
  search_within_page = within;
}

page_fits : (addr : ℕ) → length ((dump_of some_text).kdump_read addr 16).1 ≤ max_rw_count
page_fits addr = elim (Bool-cases (addr == 32)) [
  | inl bad ↦ rw bad (omega arith)
  | inr good ↦ rw good (elim (Bool-cases (addr == 64)) [
    | inl there ↦ rw there (omega arith)
    | inr other ↦ rw other (omega arith)
  ])
]

some_text-IsReadable : IsReadable (dump_of some_text) mi true bits
some_text-IsReadable = record {
  reads = λ pfn on. inr refl;
  fits = λ pfn. page_fits (address_of mi pfn);
}

count_pages-image_example :
    (w : Work) × (count_pages (dump_of some_text) mi dump_page_fn true 5 [] (via false false)
      ≡ ok w)
    × (w.how ≡ finished)
    × (w.arg.fd.bytes ≡ (1 ∷ []) ++ image bits (page_of (dump_of some_text) mi) 0 5)
count_pages-image_example =
    count_pages-image (dump_of some_text) mi true bits some_text-IsReadable 5 (page_map some_text)
      [] (via false false) (record { works = λ _. (refl, refl); at_end = refl })

the_image : image bits (page_of (dump_of some_text) mi) 0 5 ≡ replicate 16 7 ++ some_text
unfolding image
the_image = refl

-- A page with vmcoreinfo.
abbrev info : List ℕ
info = osrelease ++ (b'5' ∷ 0 ∷ [])

abbrev env : Env
env = record {
  open_core = λ path. some 3;
  open_output = λ path. none;
  stdout = stdout;
  new_ctx = λ fd. some (dump_of info);
}

-- What has been found is written, and the status is 1.
searched :
    main env 5 (replicate 16 0) (core [] ∷ vmcoreinfo ∷ persistent ∷ [])
    ≡ ok (record {
      status = 1;
      out = record stdout { bytes = (1 ∷ []) ++ osrelease ++ (b'5' ∷ []); pos = 12 };
      report = silent;
    })
unfolding main read_opts default_config get_memory_info count_pages read_ranges read_range
    check_vmcoreinfo c_string strcmp_eq write conclude report_of
searched = refl

first_run :
    (w : Work) × (count_pages
        (dump_of info)
        mi
        check_vmcoreinfo_fn
        true
        5
        (replicate 16 0)
        (via false false)
      ≡ ok w)
    × (w.how ≢ exited)
unfolding count_pages read_ranges read_range check_vmcoreinfo c_string strcmp_eq write
first_run = (_, refl, λ e. cc)

first_search_example :
    let o = conclude check_vmcoreinfo_fn first_run.0 in
    ((o.status ≡ 1) × (first_run.0.arg.found_count ≡ 1) × (o.report ≡ silent))
    ⊎ ((o.status ≡ 0) × (first_run.0.arg.found_count ≡ 0) × (o.report ≡ found_none))
first_search_example =
    first_search (dump_of info) mi true 5 (replicate 16 0) (via false false) (refl, refl, refl)
      first_run.1 first_run.2

flexible_run :
    (w : Work) × (count_pages
        (dump_of info)
        mi
        check_vmcoreinfo_fn
        true
        5
        (replicate 16 0)
        (via true true)
      ≡ ok w)
    × ((conclude check_vmcoreinfo_fn w).status ≡ 0)
    × (length w.arg.fd.bytes ≡ 17)
unfolding count_pages read_ranges read_range check_vmcoreinfo memmem starts_with write conclude
flexible_run = (_, refl, refl, refl)

flexible_search_example : (conclude check_vmcoreinfo_fn flexible_run.0).report ≡ found_none
flexible_search_example =
    flexible_search (dump_of info) mi true 5 (replicate 16 0) (via true true) refl refl
      flexible_run.1 flexible_run.2

abbrev time : ℕ → ℕ → Timespec
time sec nsec = record { tv_sec = pos sec; tv_nsec = pos nsec }

borrowed : timespec_sub (time 5 100) (time 3 200) ≡ time 1 999_999_900
unfolding timespec_sub ◌-ℤ◌
borrowed = refl

abbrev running : Progress
running = record {
  total_bytes = 100;
  current_bytes = 10;
  start_time = time 1 0;
  last_update = time 1 0;
  update_interval = time 0 200_000_000;
  print = true;
}

progress_update-printed_example :
    let (prog, printed) = progress_update running false 5 (time 1 300_000_000) in
    ((printed ≡ true) ↔ (
      up_ns (time 1 0) + up_ns (time 0 200_000_000) + down_ns (time 1 300_000_000)
      ≤ up_ns (time 1 300_000_000) + down_ns (time 1 0) + down_ns (time 0 200_000_000)))
    × (prog.last_update ≡ (if printed then time 1 300_000_000 else time 1 0))
    × (prog.current_bytes ≡ (10 + 5) % 2 ^ 64)
progress_update-printed_example =
    progress_update-printed running 5 (time 1 300_000_000) refl (omega arith) (omega arith)
      (omega arith)
