-- ===== src/Dumpphys/Main/Search.antt =====
-- What dumpphys returns and reports with `--vmcoreinfo` (vmcoreinfo/dumpphys.c).
use kernel_stuff.Common.{
  ℕ, ◌+◌, ◌≡◌, refl, sym, ap, ◌∙◌, ◌≢◌, ◌⊎◌, inl, inr, Bool, true, false, Option, none, some, List,
  if◌then◌else◌, arith, Bool-cases, take,
}
use kernel_stuff.Common.Run.{ok, Returns, >>=-Returns}
use mathlib.Core.Path.{ap₂}
use kernel_stuff.Posix.{File, write}
use kernel_stuff.CString.{strcmp_eq}
use kernel_stuff.Dumpphys.{
  Kdump, MemoryInfo, VmcoreinfoArg, check_vmcoreinfo_fn, check_vmcoreinfo, c_string, osrelease,
  separator, Paged, memmem, go_on, How, finished, returned_error, exited, Work, count_pages,
}
use kernel_stuff.Dumpphys.Rule.{Called, Ended, count_pages-Ended}
use kernel_stuff.Dumpphys.Main.{silent, found_none, report_of, Outcome, conclude}

-- A search at the start of each page for the first vmcoreinfo, before it has found any.
abbrev IsFirst : VmcoreinfoArg → Type 0
IsFirst arg =
    (arg.search_within_page ≡ false) × (arg.should_continue ≡ false) × (arg.found_count ≡ 0)

-- The same with one found.
abbrev HasOne : VmcoreinfoArg → Type 0
HasOne arg = arg.found_count ≡ 1

check_vmcoreinfo-IsFirst :
    (ctx : Kdump) (arg : VmcoreinfoArg) (addr len : ℕ) (buf : List ℕ)
    → IsFirst arg
    → Returns (Called IsFirst HasOne) (check_vmcoreinfo ctx arg addr len buf)
unfolding check_vmcoreinfo
check_vmcoreinfo-IsFirst ctx arg addr len buf (outside, once, none_yet) = rw outside (
    >>=-Returns (Called IsFirst HasOne) (strcmp_eq osrelease buf 0) _ (λ matches e.
      elim (Bool-cases matches) [
        | inl yes_ ↦ rw yes_ (
            >>=-Returns (Called IsFirst HasOne) (c_string buf) _
              (λ text e'. rw once (omega (arith, none_yet))))
        | inr no_ ↦ rw no_ (refl, once, none_yet)
      ]))

-- `dumpphys -i` looks for the first vmcoreinfo at the start of a page. Where it gets through with no
-- read error, it has found exactly one and returns 1, a failure, or it has found none, returns 0 and
-- reports that it could not find anything. With no read error stands for: `exit` is not called.
pub first_search :
    (ctx : Kdump) (mi : MemoryInfo) (persist : Bool) (frames : ℕ) (fresh : List ℕ)
    (arg : VmcoreinfoArg) {w : Work}
    → IsFirst arg
    → count_pages ctx mi check_vmcoreinfo_fn persist frames fresh arg ≡ ok w
    → w.how ≢ exited
    → let o = conclude check_vmcoreinfo_fn w in
      ((o.status ≡ 1) × (w.arg.found_count ≡ 1) × (o.report ≡ silent))
      ⊎ ((o.status ≡ 0) × (w.arg.found_count ≡ 0) × (o.report ≡ found_none))
unfolding conclude report_of
first_search ctx mi persist frames fresh arg {w} h e through = go w.how refl (
    count_pages-Ended ctx mi check_vmcoreinfo_fn persist IsFirst HasOne
      (check_vmcoreinfo-IsFirst ctx) frames fresh arg h e)
  where
    o : Outcome
    o = conclude check_vmcoreinfo_fn w

    reported :
        (how : How) (n : ℕ)
        → w.how ≡ how
        → w.arg.found_count ≡ n
        → report_of check_vmcoreinfo_fn w.how w.arg.found_count
          ≡ report_of check_vmcoreinfo_fn how n
    reported how n eh en = ap₂ (report_of check_vmcoreinfo_fn) eh en

    go :
        (how : How)
        → w.how ≡ how
        → Ended IsFirst HasOne how w.arg
        → ((o.status ≡ 1) × (w.arg.found_count ≡ 1) × (o.report ≡ silent))
          ⊎ ((o.status ≡ 0) × (w.arg.found_count ≡ 0) × (o.report ≡ found_none))
    go finished eh (_, _, none_yet) = inr (rw eh refl, none_yet, reported finished 0 eh none_yet)
    go returned_error eh one = inl (rw eh refl, one, reported returned_error 1 eh one)
    go exited eh k = absurd (through eh)

-- A search at all places of each page, before it has counted any.
abbrev IsFlexible : VmcoreinfoArg → Type 0
IsFlexible arg = (arg.search_within_page ≡ true) × (arg.found_count ≡ 0)

check_vmcoreinfo-IsFlexible :
    (ctx : Kdump) (arg : VmcoreinfoArg) (addr len : ℕ) (buf : List ℕ)
    → IsFlexible arg
    → Returns (Called IsFlexible IsFlexible) (check_vmcoreinfo ctx arg addr len buf)
unfolding check_vmcoreinfo
check_vmcoreinfo-IsFlexible ctx arg addr len buf (inside, none_yet) =
    rw inside (at_place (memmem (take len buf) osrelease))
  where
    went_on :
        (f : File) (b : Bool)
        → Called IsFlexible IsFlexible (
            if b
            then (true, record arg { fd = (write f separator).1 })
            else (false, record arg { fd = f }))
    went_on f true = (inside, none_yet)
    went_on f false = (inside, none_yet)

    string_at :
        (s : Option (List ℕ))
        → Returns (Called IsFlexible IsFlexible) (elim s as (λ _. Paged) [
          | none ↦ ok (false, arg)
          | some str ↦ ok (go_on (record arg { fd = (write arg.fd str).1 }))
        ])
    string_at none = (inside, none_yet)
    string_at (some str) = went_on (write arg.fd str).1 arg.should_continue

    at_place :
        (place : Option ℕ)
        → Returns (Called IsFlexible IsFlexible) (elim place as (λ _. Paged) [
          | none ↦ ok (true, arg)
          | some found ↦ elim (ctx.read_string (addr + found)) as (λ _. Paged) [
            | none ↦ ok (false, arg)
            | some str ↦ ok (go_on (record arg { fd = (write arg.fd str).1 }))
          ]
        ])
    at_place none = (inside, none_yet)
    at_place (some found) = string_at (ctx.read_string (addr + found))

-- `dumpphys -f -i` and `-f -I` never count what they find: where they return 0, they report that
-- they could not find anything, whatever they have written.
pub flexible_search :
    (ctx : Kdump) (mi : MemoryInfo) (persist : Bool) (frames : ℕ) (fresh : List ℕ)
    (arg : VmcoreinfoArg) {w : Work}
    → arg.search_within_page ≡ true
    → arg.found_count ≡ 0
    → count_pages ctx mi check_vmcoreinfo_fn persist frames fresh arg ≡ ok w
    → (conclude check_vmcoreinfo_fn w).status ≡ 0
    → (conclude check_vmcoreinfo_fn w).report ≡ found_none
unfolding conclude report_of
flexible_search ctx mi persist frames fresh arg {w} inside none_yet e good = go w.how refl (
    count_pages-Ended ctx mi check_vmcoreinfo_fn persist IsFlexible IsFlexible
      (check_vmcoreinfo-IsFlexible ctx) frames fresh arg (inside, none_yet) e)
  where
    status_at :
        (how : How)
        → w.how ≡ how
        → (elim how as (λ _. ℕ) [ finished ↦ 0 | returned_error ↦ 1 | exited ↦ 1 ]) ≡ 0
    status_at how eh =
        ap (λ h. elim h as (λ _. ℕ) [ finished ↦ 0 | returned_error ↦ 1 | exited ↦ 1 ]) (sym eh)
        ∙ good

    go :
        (how : How)
        → w.how ≡ how
        → Ended IsFlexible IsFlexible how w.arg
        → report_of check_vmcoreinfo_fn w.how w.arg.found_count ≡ found_none
    go finished eh (_, zero_) = ap₂ (report_of check_vmcoreinfo_fn) eh zero_
    go returned_error eh k = absurd (omega (arith, status_at returned_error eh))
    go exited eh k = absurd (omega (arith, status_at exited eh))
