-- ===== src/Dumpphys/Range.antt =====
-- A range of pages that dumpphys dumps (vmcoreinfo/dumpphys.c).
use mathlib.Core.Path.{subst}
use kernel_stuff.Common.{
  ℕ, zero, suc, ◌+◌, ◌≤◌, ◌<◌, ◌≡◌, refl, sym, ap, ◌∙◌, ◌≢◌, ◌⊎◌, inl, inr, Bool, true, false,
  Option, none, some, List, [], ◌++◌, append-nil, append_assoc, length, arith, take, drop,
  length-append, take-all, take-append_le, overwrite,
}
use kernel_stuff.Common.Run.{ok}
use kernel_stuff.Posix.{File, max_rw_count, write}
use kernel_stuff.Posix.Writes.{Works, appended, write-appended}
use kernel_stuff.Dumpphys.{
  Kdump, Status, kdump_ok, nodata, failed, MemoryInfo, VmcoreinfoArg, dump_page_fn, dump_page,
  finished, Work, address_of, read_range,
}
use kernel_stuff.Dumpphys.Image.{page_of, image}

-- A file at its end, on which no call fails.
pub record IsReady (f : File) : Type 0 where
  pub works : Works f
  pub at_end : f.pos ≡ length f.bytes

-- `w'` goes on from `w`, with `new` written.
pub record HasDumped (w : Work) (new : List ℕ) (w' : Work) : Type 0 where
  pub still : w'.how ≡ finished
  pub written : w'.arg.fd.bytes ≡ w.arg.fd.bytes ++ new
  pub ready : IsReady w'.arg.fd

pub HasDumped-nil : (w : Work) → w.how ≡ finished → IsReady w.arg.fd → HasDumped w [] w
HasDumped-nil w h r = record { still = h; written = sym (append-nil w.arg.fd.bytes); ready = r }

pub HasDumped-append :
    (w v u : Work) (new more : List ℕ)
    → HasDumped w new v
    → HasDumped v more u
    → HasDumped w (new ++ more) u
HasDumped-append w v u new more a b = record {
  still = b.still;
  written = b.written ∙ ap (λ l. l ++ more) a.written ∙ append_assoc w.arg.fd.bytes new more;
  ready = b.ready;
}

module _ (ctx : Kdump) (mi : MemoryInfo) (persist : Bool) (bits : ℕ → Bool) where
  -- Every page can be read, or the program persists; and a page fits in one write.
  pub record IsReadable : Type 0 where
    pub reads :
        (pfn : ℕ)
        → bits pfn ≡ true
        → ((ctx.kdump_read (address_of mi pfn) mi.page_size).0 ≡ kdump_ok) ⊎ (persist ≡ true)
    pub fits : (pfn : ℕ) → length (ctx.kdump_read (address_of mi pfn) mi.page_size).1 ≤ max_rw_count

  module _ (readable : IsReadable) where
    -- The state after a page has been read into the buffer and written.
    abbrev dumped : Work → List ℕ → Work
    dumped w got = record w {
      arg = record w.arg { fd = appended w.arg.fd got };
      buf = overwrite w.buf 0 got;
      pages_read = w.pages_read + 1;
    }

    dump_page_lem :
        (arg : VmcoreinfoArg) (addr : ℕ) (got buf : List ℕ)
        → IsReady arg.fd
        → length got ≤ max_rw_count
        → dump_page arg addr (length got) (overwrite buf 0 got)
          ≡ ok (true, record arg { fd = appended arg.fd got })
    unfolding dump_page
    dump_page_lem arg addr got buf r fits =
        let cut : take (length got) (overwrite buf 0 got) ≡ got =
          take-append_le (length got) got (drop (0 + length got) buf) (omega arith)
          ∙ take-all (length got) got (omega arith) in
        ap
          (λ (p : Option ℕ × File).
            ok (elim p.0 as (λ _. Bool) [ none ↦ false | some n ↦ true ], record arg { fd = p.1 }))
          (ap (write arg.fd) cut ∙ write-appended arg.fd got r.works r.at_end fits)

    status : ℕ → Status
    status pfn = (ctx.kdump_read (address_of mi pfn) mi.page_size).0

    got : ℕ → List ℕ
    got pfn = (ctx.kdump_read (address_of mi pfn) mi.page_size).1

    range_reads :
        (left offset : ℕ) (w : Work)
        → w.how ≡ finished
        → IsReady w.arg.fd
        → status offset ≡ kdump_ok
        → read_range ctx mi dump_page_fn persist (suc left) offset w
          ≡ read_range ctx mi dump_page_fn persist left (offset + 1) (dumped w (got offset))
    unfolding read_range status got
    range_reads left offset w h r e =
        let put : dump_page w.arg (address_of mi offset) (length (got offset))
              (overwrite w.buf 0 (got offset))
            ≡ ok (true, record w.arg { fd = appended w.arg.fd (got offset) }) =
          dump_page_lem w.arg (address_of mi offset) (got offset) w.buf r (readable.fits offset) in
        rw (e, read_range) (rw put refl)

    range_skips :
        (ks : Status) (left offset : ℕ) (w : Work)
        → status offset ≡ ks
        → ks ≢ kdump_ok
        → persist ≡ true
        → read_range ctx mi dump_page_fn persist (suc left) offset w
          ≡ read_range ctx mi dump_page_fn persist left
              (offset + 1)
              (record w { buf = overwrite w.buf 0 (got offset) })
    unfolding read_range status got
    range_skips kdump_ok left offset w e ne on = absurd (ne refl)
    range_skips nodata left offset w e ne on = rw (e, on, read_range) refl
    range_skips failed left offset w e ne on = rw (e, on, read_range) refl

    page_skipped :
        (ks : Status) (pfn : ℕ) → status pfn ≡ ks → ks ≢ kdump_ok → page_of ctx mi pfn ≡ []
    unfolding status
    page_skipped kdump_ok pfn e ne = absurd (ne refl)
    page_skipped nodata pfn e ne = rw (e, page_of) refl
    page_skipped failed pfn e ne = rw (e, page_of) refl

    page_read : (pfn : ℕ) → status pfn ≡ kdump_ok → page_of ctx mi pfn ≡ got pfn
    unfolding status got
    page_read pfn e = rw (e, page_of) refl

    page_from :
        (i n : ℕ) {new : List ℕ}
        → bits i ≡ true
        → page_of ctx mi i ≡ new
        → image bits (page_of ctx mi) i (suc n) ≡ new ++ image bits (page_of ctx mi) (i + 1) n
    unfolding image
    page_from i n on e = rw on (ap (λ l. l ++ image bits (page_of ctx mi) (i + 1) n) e)

    dumped-HasDumped :
        (w : Work) (new : List ℕ)
        → w.how ≡ finished
        → IsReady w.arg.fd
        → HasDumped w new (dumped w new)
    dumped-HasDumped w new h r = record {
      still = h;
      written = refl;
      ready = record {
        works = r.works;
        at_end = omega (arith, r.at_end, length-append w.arg.fd.bytes new);
      };
    }

    abbrev pub RangeDone : ℕ → ℕ → Work → Type 0
    RangeDone left offset w =
        (w' : Work) × (read_range ctx mi dump_page_fn persist left offset w ≡ ok w')
        × HasDumped w (image bits (page_of ctx mi) offset left) w'

    range_unread :
        (ks : Status) (left offset : ℕ) (w : Work)
        → w.how ≡ finished
        → IsReady w.arg.fd
        → bits offset ≡ true
        → status offset ≡ ks
        → ks ≢ kdump_ok
        → RangeDone left (offset + 1) (record w { buf = overwrite w.buf 0 (got offset) })
        → RangeDone (suc left) offset w
    range_unread ks left offset w h r on e ne (u, run, rest) =
        let persists : persist ≡ true = elim (readable.reads offset on) [
          | inl read ↦ absurd (ne (sym e ∙ unfold status in read))
          | inr p ↦ p
        ] in
        (
          u,
          range_skips ks left offset w e ne persists ∙ run,
          subst (λ l. HasDumped w l u)
              (sym (page_from offset left on (page_skipped ks offset e ne)))
              (record { still = rest.still; written = rest.written; ready = rest.ready }),
        )

    pub read_range-HasDumped :
        (left offset : ℕ) (w : Work)
        → w.how ≡ finished
        → IsReady w.arg.fd
        → ((k : ℕ) → offset ≤ k → k < offset + left → bits k ≡ true)
        → RangeDone left offset w
    read_range-HasDumped zero offset w h r there =
        (w, unfold read_range in refl, unfold image in HasDumped-nil w h r)
    read_range-HasDumped (suc left) offset w h r there =
        go (status offset) refl (read_range-HasDumped left (offset + 1))
      where
        on : bits offset ≡ true
        on = there offset (omega arith) (omega arith)

        go :
            (ks : Status)
            → status offset ≡ ks
            → ((v : Work)
                → v.how ≡ finished
                → IsReady v.arg.fd
                → ((k : ℕ) → offset + 1 ≤ k → k < offset + 1 + left → bits k ≡ true)
                → RangeDone left (offset + 1) v)
            → RangeDone (suc left) offset w
        go kdump_ok e ih =
            let first = dumped-HasDumped w (got offset) h r in
            let (u, run, rest) =
              ih (dumped w (got offset)) h first.ready
                (λ k l b. there k (omega arith) (omega arith)) in
            (
              u,
              range_reads left offset w h r e ∙ run,
              subst (λ l. HasDumped w l u) (sym (page_from offset left on (page_read offset e)))
                  (HasDumped-append w (dumped w (got offset)) u _ _ first rest),
            )
        go nodata e ih =
            range_unread nodata left offset w h r on e (λ x. cc)
              (ih (record w { buf = overwrite w.buf 0 (got offset) }) h r
                (λ k l b. there k (omega arith) (omega arith)))
        go failed e ih =
            range_unread failed left offset w h r on e (λ x. cc)
              (ih (record w { buf = overwrite w.buf 0 (got offset) }) h r
                (λ k l b. there k (omega arith) (omega arith)))
