-- ===== src/Dumpphys/Dump.antt =====
-- dumpphys without `--vmcoreinfo` writes the image of the memory (vmcoreinfo/dumpphys.c).
use mathlib.Core.Path.{subst}
use kernel_stuff.Common.{
  ℕ, zero, suc, ◌+◌, ◌-◌, ◌≤◌, ◌<◌, ◌≡◌, refl, sym, ap, ◌∙◌, inl, inr, Bool, true, false, List, [],
  ◌++◌, ltb, leb, ltb→lt, leb→le, arith, Bool-cases,
}
use kernel_stuff.Common.Run.{Run, ok}
use kernel_stuff.Dumpphys.{
  Kdump, Status, kdump_ok, nodata, failed, MemoryInfo, VmcoreinfoArg, dump_page_fn, finished,
  returned_error, exited, Work, read_range, read_ranges, count_pages,
}
use kernel_stuff.Dumpphys.Image.{IsPageMap, page_of, image, image-append, image-none}
use kernel_stuff.Dumpphys.Range.{
  IsReady, IsReadable, HasDumped, HasDumped-nil, HasDumped-append, read_range-HasDumped,
}

module _ (ctx : Kdump) (mi : MemoryInfo) (persist : Bool) (bits : ℕ → Bool)
    (readable : IsReadable ctx mi persist bits) (frames : ℕ)
    (page_map : IsPageMap ctx frames bits) where
  begin_of : ℕ → ℕ
  begin_of addr = (ctx.find_set addr).1

  end_of : ℕ → ℕ
  end_of addr = (ctx.find_clear (begin_of addr)).1

  ranges_end :
      (fuel addr : ℕ) (w : Work)
      → (ctx.find_set addr).0 ≡ nodata
      → read_ranges ctx mi dump_page_fn persist (suc fuel) addr w ≡ ok w
  unfolding read_ranges
  ranges_end fuel addr w e = rw (e, read_ranges) refl

  ranges_next :
      (fuel addr : ℕ) (w w' : Work)
      → (ctx.find_set addr).0 ≡ kdump_ok
      → read_range ctx mi dump_page_fn persist (end_of addr - begin_of addr) (begin_of addr) w
        ≡ ok w'
      → w'.how ≡ finished
      → read_ranges ctx mi dump_page_fn persist (suc fuel) addr w
        ≡ read_ranges ctx mi dump_page_fn persist fuel (end_of addr) w'
  unfolding read_ranges end_of begin_of
  ranges_next fuel addr w w' e run h =
      rw (e, read_ranges)
        (rw ((page_map.clear_found (ctx.find_set addr).1).0, read_ranges)
          (rw run (
            ap
              (λ how. elim how as (λ _. Run Work) [
                | finished ↦ read_ranges ctx mi dump_page_fn persist fuel (end_of addr) w'
                | returned_error ↦ ok w'
                | exited ↦ ok w'
              ])
              h)))

  begin-lt-end : (addr : ℕ) → (ctx.find_set addr).0 ≡ kdump_ok → begin_of addr < end_of addr
  unfolding end_of begin_of
  begin-lt-end addr e =
      let (_, on, _) = page_map.set_found addr e in
      let (_, low, off, _) = page_map.clear_found (ctx.find_set addr).1 in
      elim (Bool-cases (ltb (begin_of addr) (end_of addr))) [
        | inl less ↦ ltb→lt (begin_of addr) (end_of addr) less
        | inr ge ↦
            let same : end_of addr ≡ begin_of addr = ground arith in
            let o : ◌≡◌ {A = Bool} true false = sym on ∙ ap bits (sym same) ∙ off in cc
      ]

  end-le-frames : (addr : ℕ) → (ctx.find_set addr).0 ≡ kdump_ok → end_of addr ≤ frames
  unfolding end_of begin_of
  end-le-frames addr e =
      let (_, low, off, set) = page_map.clear_found (ctx.find_set addr).1 in
      elim (Bool-cases (leb (end_of addr) frames)) [
        | inl le ↦ leb→le (end_of addr) frames le
        | inr more ↦
            let less : begin_of addr < end_of addr = begin-lt-end addr e in
            let beyond : frames < end_of addr = ground arith in
            let o : ◌≡◌ {A = Bool} true false =
              sym (set (end_of addr - 1) (omega arith) (omega arith))
              ∙ page_map.bounded (end_of addr - 1) (omega arith) in
            cc
      ]

  begin-ge : (addr : ℕ) → (ctx.find_set addr).0 ≡ kdump_ok → addr ≤ begin_of addr
  unfolding begin_of
  begin-ge addr e = (page_map.set_found addr e).0

  range_set : (addr k : ℕ) → begin_of addr ≤ k → k < end_of addr → bits k ≡ true
  unfolding end_of begin_of
  range_set addr k l u = (page_map.clear_found (ctx.find_set addr).1).3 k l u

  gap_clear :
      (addr k : ℕ)
      → (ctx.find_set addr).0 ≡ kdump_ok
      → addr ≤ k
      → k < begin_of addr
      → bits k ≡ false
  unfolding begin_of
  gap_clear addr k e l u = (page_map.set_found addr e).2 k l u

  -- What a range of set bits leaves of the image.
  image_split :
      (addr rest : ℕ)
      → (ctx.find_set addr).0 ≡ kdump_ok
      → addr + rest ≡ frames
      → image bits (page_of ctx mi) addr rest
        ≡ image bits (page_of ctx mi) (begin_of addr) (end_of addr - begin_of addr)
          ++ image bits (page_of ctx mi) (end_of addr) (frames - end_of addr)
  image_split addr rest e total =
      let page = page_of ctx mi in
      let low : addr ≤ begin_of addr = begin-ge addr e in
      let less : begin_of addr < end_of addr = begin-lt-end addr e in
      let high : end_of addr ≤ frames = end-le-frames addr e in
      ap (image bits page addr) {x = rest} {y = (begin_of addr - addr) + (frames - begin_of addr)}
        (omega arith)
      ∙ sym (
          image-append bits page addr (begin_of addr) (begin_of addr - addr)
            (frames - begin_of addr) (omega arith))
      ∙ ap (λ l. l ++ image bits page (begin_of addr) (frames - begin_of addr))
          (image-none bits page addr (begin_of addr - addr)
            (λ k l u. gap_clear addr k e l (omega arith)))
      ∙ ap (image bits page (begin_of addr)) {x = frames - begin_of addr}
          {y = (end_of addr - begin_of addr) + (frames - end_of addr)} (omega arith)
      ∙ sym (
          image-append bits page (begin_of addr) (end_of addr) (end_of addr - begin_of addr)
            (frames - end_of addr) (omega arith))

  pub read_ranges-HasDumped :
      (fuel addr rest : ℕ) (w : Work)
      → rest < fuel
      → addr + rest ≡ frames
      → w.how ≡ finished
      → IsReady w.arg.fd
      → (w' : Work) × (read_ranges ctx mi dump_page_fn persist fuel addr w ≡ ok w')
        × HasDumped w (image bits (page_of ctx mi) addr rest) w'
  read_ranges-HasDumped zero addr rest w lt total h r = absurd (omega arith)
  read_ranges-HasDumped (suc fuel) addr rest w lt total h r =
      go (ctx.find_set addr).0 refl (read_ranges-HasDumped fuel)
    where
      go :
          (ks : Status)
          → (ctx.find_set addr).0 ≡ ks
          → ((addr' rest' : ℕ) (v : Work)
              → rest' < fuel
              → addr' + rest' ≡ frames
              → v.how ≡ finished
              → IsReady v.arg.fd
              → (u : Work) × (read_ranges ctx mi dump_page_fn persist fuel addr' v ≡ ok u)
                × HasDumped v (image bits (page_of ctx mi) addr' rest') u)
          → (w' : Work) × (read_ranges ctx mi dump_page_fn persist (suc fuel) addr w ≡ ok w')
            × HasDumped w (image bits (page_of ctx mi) addr rest) w'
      go nodata e ih =
          let empty : image bits (page_of ctx mi) addr rest ≡ [] =
            image-none bits (page_of ctx mi) addr rest (λ k l u. page_map.set_none addr e k l) in
          (
            w,
            ranges_end fuel addr w e,
            subst (λ l. HasDumped w l w) (sym empty) (HasDumped-nil w h r),
          )
      go failed e ih = absurd (page_map.set_works addr e)
      go kdump_ok e ih =
          let low : addr ≤ begin_of addr = begin-ge addr e in
          let less : begin_of addr < end_of addr = begin-lt-end addr e in
          let high : end_of addr ≤ frames = end-le-frames addr e in
          let cut = image_split addr rest e total in
          let (v, run, first) =
            read_range-HasDumped ctx mi persist bits readable (end_of addr - begin_of addr)
              (begin_of addr) w h r (λ k l b. range_set addr k l (omega arith)) in
          let (u, more, second) =
            ih (end_of addr) (frames - end_of addr) v (omega arith) (omega arith) first.still
              first.ready in
          (
            u,
            ranges_next fuel addr w v e run first.still ∙ more,
            subst (λ l. HasDumped w l u) (sym cut) (HasDumped-append w v u _ _ first second),
          )

  -- A dump returns 0 after it has written, at the end of the output, the image of the memory:
  -- the bytes of all pages that the page map has, by rising page frame, each once. The output
  -- takes all writes; a page that cannot be read is left out, with `--persist`, which is given if
  -- there is such a page; libkdumpfile's page map is as it is documented.
  pub count_pages-image :
      (fresh : List ℕ) (arg : VmcoreinfoArg)
      → IsReady arg.fd
      → (w : Work) × (count_pages ctx mi dump_page_fn persist frames fresh arg ≡ ok w)
        × (w.how ≡ finished)
        × (w.arg.fd.bytes ≡ arg.fd.bytes ++ image bits (page_of ctx mi) 0 frames)
  unfolding count_pages
  count_pages-image fresh arg r =
      let (w, run, done) =
        read_ranges-HasDumped (frames + 1) 0 frames
          (record { how = finished; arg = arg; buf = fresh; pages_read = 0 }) (omega arith)
          (omega arith) refl r in
      (w, run, done.still, done.written)
