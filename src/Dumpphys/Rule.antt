-- ===== src/Dumpphys/Rule.antt =====
-- A rule for the loops over the pages (vmcoreinfo/dumpphys.c): what every call of the page function
-- keeps, all of them keep.
use mathlib.Core.Path.{subst}
use kernel_stuff.Common.{
  ℕ, zero, suc, ◌+◌, ◌-◌, ◌≡◌, refl, sym, Bool, true, false, List, if◌then◌else◌, length, overwrite,
}
use kernel_stuff.Common.Run.{Run, ok, ◌>>=◌, Returns, >>=-Returns, Returns-eq-ok}
use kernel_stuff.Dumpphys.{
  Kdump, Status, kdump_ok, nodata, failed, MemoryInfo, VmcoreinfoArg, PageFn, call_fn, How,
  finished, returned_error, exited, Work, address_of, read_range, read_ranges, count_pages,
}

-- `keep` holds as long as the page function returns 0, and `last` once it has returned -1.
abbrev pub Called : (keep last : VmcoreinfoArg → Type 0) → Bool × VmcoreinfoArg → Type 0
Called keep last (true, arg) = keep arg
Called keep last (false, arg) = last arg

abbrev pub Ended : (keep last : VmcoreinfoArg → Type 0) → How → VmcoreinfoArg → Type 0
Ended keep last finished arg = keep arg
Ended keep last returned_error arg = last arg
Ended keep last exited arg = keep arg

module _ (ctx : Kdump) (mi : MemoryInfo) (fn : PageFn) (persist : Bool)
    (keep last : VmcoreinfoArg → Type 0)
    (kept : (arg : VmcoreinfoArg) (addr len : ℕ) (buf : List ℕ)
      → keep arg
      → Returns (Called keep last) (call_fn fn ctx arg addr len buf)) where
  abbrev Post : Work → Type 0
  Post w = Ended keep last w.how w.arg

  Post-finished : (w : Work) → w.how ≡ finished → keep w.arg → Post w
  Post-finished w e h = subst (λ how. Ended keep last how w.arg) (sym e) h

  read_range-Post :
      (left offset : ℕ) (w : Work)
      → w.how ≡ finished
      → keep w.arg
      → Returns Post (read_range ctx mi fn persist left offset w)
  unfolding read_range
  read_range-Post zero offset w e h = Post-finished w e h
  read_range-Post (suc left) offset w e h =
      go (ctx.kdump_read (address_of mi offset) mi.page_size).0 (read_range-Post left (offset + 1))
    where
      got : List ℕ
      got = (ctx.kdump_read (address_of mi offset) mi.page_size).1

      buf' : List ℕ
      buf' = overwrite w.buf 0 got

      unread :
          (b : Bool)
          → ((v : Work)
              → v.how ≡ finished
              → keep v.arg
              → Returns Post (read_range ctx mi fn persist left (offset + 1) v))
          → Returns Post (
              if b
              then read_range ctx mi fn persist left (offset + 1) (record w { buf = buf' })
              else ok (record w { how = exited }))
      unread true ih = ih (record w { buf = buf' }) e h
      unread false ih = h

      go :
          (ks : Status)
          → ((v : Work)
              → v.how ≡ finished
              → keep v.arg
              → Returns Post (read_range ctx mi fn persist left (offset + 1) v))
          → Returns Post (elim ks as (λ _. Run Work) [
            | kdump_ok ↦ call_fn fn ctx w.arg (address_of mi offset) (length got) buf' >>= λ r.
                if r.0
                then read_range ctx mi fn persist left
                    (offset + 1)
                    (record w { arg = r.1; buf = buf'; pages_read = w.pages_read + 1 })
                else ok (record {
                  how = returned_error;
                  arg = r.1;
                  buf = buf';
                  pages_read = w.pages_read + 1;
                })
            | nodata ↦
                if persist
                then read_range ctx mi fn persist left (offset + 1) (record w { buf = buf' })
                else ok (record w { how = exited })
            | failed ↦
                if persist
                then read_range ctx mi fn persist left (offset + 1) (record w { buf = buf' })
                else ok (record w { how = exited })
          ])
      go nodata ih = unread persist ih
      go failed ih = unread persist ih
      go kdump_ok ih =
          >>=-Returns Post (call_fn fn ctx w.arg (address_of mi offset) (length got) buf') _
            (λ r er. called r (
              Returns-eq-ok (Called keep last) _
                (kept w.arg (address_of mi offset) (length got) buf' h) er))
        where
          called :
              (r : Bool × VmcoreinfoArg)
              → Called keep last r
              → Returns Post (
                  if r.0
                  then read_range ctx mi fn persist left
                      (offset + 1)
                      (record w { arg = r.1; buf = buf'; pages_read = w.pages_read + 1 })
                  else ok (record {
                    how = returned_error;
                    arg = r.1;
                    buf = buf';
                    pages_read = w.pages_read + 1;
                  }))
          called (true, arg') k = ih _ e k
          called (false, arg') k = k

  read_ranges-Post :
      (fuel addr : ℕ) (w : Work)
      → w.how ≡ finished
      → keep w.arg
      → Returns Post (read_ranges ctx mi fn persist fuel addr w)
  unfolding read_ranges
  read_ranges-Post zero addr w e h = tt
  read_ranges-Post (suc fuel) addr w e h =
      go (ctx.find_set addr).0 (ctx.find_clear begin).0 (read_ranges-Post fuel end)
    where
      begin : ℕ
      begin = (ctx.find_set addr).1

      end : ℕ
      end = (ctx.find_clear begin).1

      range : Run Work
      range = read_range ctx mi fn persist (end - begin) begin w

      after : Work → Run Work
      after w' = elim w'.how [
        | finished ↦ read_ranges ctx mi fn persist fuel end w'
        | returned_error ↦ ok w'
        | exited ↦ ok w'
      ]

      Next : Type 0
      Next =
          (v : Work)
          → v.how ≡ finished
          → keep v.arg
          → Returns Post (read_ranges ctx mi fn persist fuel end v)

      resumed :
          (w' : Work)
          → Post w'
          → Next
          → (how : How) → w'.how ≡ how
          → Returns Post (elim how as (λ _. Run Work) [
            | finished ↦ read_ranges ctx mi fn persist fuel end w'
            | returned_error ↦ ok w'
            | exited ↦ ok w'
          ])
      resumed w' p ih finished eh = ih w' eh (subst (λ x. Ended keep last x w'.arg) eh p)
      resumed w' p ih returned_error eh = p
      resumed w' p ih exited eh = p

      go :
          (set_status clear_status : Status)
          → Next
          → Returns Post (elim set_status as (λ _. Run Work) [
            | nodata ↦ ok w
            | failed ↦ ok (record w { how = exited })
            | kdump_ok ↦ elim clear_status as (λ _. Run Work) [
              | nodata ↦ ok (record w { how = exited })
              | failed ↦ ok (record w { how = exited })
              | kdump_ok ↦ range >>= after
            ]
          ])
      go nodata clear_status ih = Post-finished w e h
      go failed clear_status ih = h
      go kdump_ok nodata ih = h
      go kdump_ok failed ih = h
      go kdump_ok kdump_ok ih = >>=-Returns Post range after (λ w' ew.
          resumed w' (Returns-eq-ok Post range (read_range-Post (end - begin) begin w e h) ew) ih
            w'.how refl)

  pub count_pages-Ended :
      (frames : ℕ) (fresh : List ℕ) (arg : VmcoreinfoArg) {w : Work}
      → keep arg
      → count_pages ctx mi fn persist frames fresh arg ≡ ok w
      → Ended keep last w.how w.arg
  unfolding count_pages
  count_pages-Ended frames fresh arg h e =
      Returns-eq-ok Post _
        (read_ranges-Post (frames + 1) 0
          (record { how = finished; arg = arg; buf = fresh; pages_read = 0 }) refl h)
        e
