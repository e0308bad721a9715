-- ===== src/Stash.antt =====
-- crashstash/crashstash.c: the kernel module's file operations. Each runs under
-- `crashstash_lock`, so each is one step on the module's variables.
pub mod Pages
pub mod Fill
pub mod Write
pub mod Read
pub mod Session
pub mod Fault
mod Tests
use kernel_stuff.Common.{
  ℕ, zero, suc, ◌+◌, ◌-◌, ◌*◌, ◌/◌, ◌%◌, ◌^◌, min, List, [], ◌∷◌, ◌++◌, Bool, true, false, not,
  Option, none, some, ltb, leb, ◌==◌, if◌then◌else◌, length, take, drop, replicate, slice,
  overwrite,
}
use kernel_stuff.Common.Run.{
  Run, ok, stop, assertion, null_deref, out_of_bounds, out_of_fuel, ◌>>=◌, ◌>>◌, require,
}

-- `PAGE_SIZE` of the usual configuration.
abbrev pub page_size : ℕ
page_size = 4096

-- `MAXSIZE`
abbrev pub max_size : ℕ
max_size = 10 * 1024 * 1024

-- A `struct page` is the bytes of its frame.
abbrev pub Page : Type 0
Page = List ℕ

-- The module's variables: `count`, the list `crashstash`, `size`, `pages` and the size that
-- `proc_set_size` has set; `allocs` counts the calls of `alloc_page`.
pub record Stash : Type 0 where
  pub count : ℕ
  pub list : List Page
  pub size : ℕ
  pub pages : ℕ
  pub proc_size : ℕ
  pub allocs : ℕ

-- `filp->f_flags & O_ACCMODE`
pub data Mode : Type 0 where
  rdonly wronly rdwr : Mode

pub data Errno : Type 0 where
  ebusy einval enospc efault : Errno

-- A result of type `ssize_t`.
pub data Ret : Type 0 where
  bytes : ℕ → Ret
  error : Errno → Ret

-- `crashstash_free`; its caller holds the lock.
unfoldable pub free : Stash → Stash
free s = record s { list = []; size = 0; pages = 0 }

-- `crashstash_open`; `none` is the result 0.
unfoldable pub open_stash : Mode → Stash → Option Errno × Stash
open_stash mode s = if not (s.count == 0) then (some ebusy, s) else elim mode [
  | rdwr ↦ (some einval, s)
  | wronly ↦ (none, record (free s) { count = s.count + 1 })
  | rdonly ↦ (none, record s { count = s.count + 1 })
]

-- `crashstash_release`
unfoldable pub release : Stash → Run Stash
release s = do require (not (s.count == 0)) assertion; ok (record s { count = s.count - 1 })

-- The last page of a list, changed.
unfoldable pub update_last : (Page → Page) → List Page → List Page
update_last f [] = []
update_last f (p ∷ []) = f p ∷ []
update_last f (p ∷ q ∷ ps) = p ∷ update_last f (q ∷ ps)

-- What a call of `crashstash_write` leaves: the variables, `*off`, and its result.
pub record Written : Type 0 where
  pub stash : Stash
  pub off : ℕ
  pub ret : Ret

-- The write limited to the space that is left; `size + amt` is a `u64`.
abbrev pub limit : ℕ → ℕ → ℕ
limit size amt = if ltb max_size ((size + amt) % 2 ^ 64) then max_size - size else amt

-- `copy_from_user(dst, data, n)`: the `n` bytes at `dst` afterwards. `user` is the memory at `data`
-- that can be read; what cannot be copied is filled with zeros.
abbrev pub copy_from_user : List ℕ → ℕ → List ℕ
copy_from_user user n = take n user ++ replicate (n - length user) 0

-- `alloc` is what the calls of `alloc_page` give, in order: a page with whatever its frame holds,
-- or NULL.
module _ (alloc : ℕ → Option Page) where
  -- The page to write into: the last one of the list afterwards.
  unfoldable pub get_page : ℕ → Stash → Run Stash
  get_page pgoff s =
      if pgoff == 0
      then elim (alloc s.allocs) [
        | none ↦ stop null_deref
        | some pg ↦
            ok (record s { list = s.list ++ (pg ∷ []); pages = s.pages + 1; allocs = s.allocs + 1 })
      ]
      else elim s.list [ [] ↦ stop assertion | p ∷ ps ↦ ok s ]

  -- The loop, for as many rounds as the fuel allows.
  unfoldable pub write_loop : ℕ → Stash → ℕ → List ℕ → ℕ → ℕ → Run Written
  write_loop zero s off user amt written = stop out_of_fuel
  write_loop (suc fuel) s off user amt written =
      let pgoff = off % page_size in
      let chunk_amt = min amt (page_size - pgoff) in
      let next = λ (t : Stash).
        write_loop fuel (record t { size = t.size + chunk_amt }) (off + chunk_amt)
          (drop chunk_amt user) (amt - chunk_amt) (written + chunk_amt) in
      if amt == 0 then ok (record { stash = s; off = off; ret = bytes written }) else (do
        t ← get_page pgoff s
        let t' : Stash = record t {
          list = update_last (λ pg. overwrite pg pgoff (copy_from_user user chunk_amt)) t.list;
        }
        if ltb (length user) chunk_amt
            then ok (record { stash = t'; off = off; ret = error efault })
            else next t')

  -- `crashstash_write` of `amt` bytes at `*off`.
  unfoldable pub write : Stash → ℕ → List ℕ → ℕ → Run Written
  write s off user amt =
      if not (off == s.size)
      then ok (record { stash = s; off = off; ret = error einval })
      else if leb max_size s.size
      then ok (record { stash = s; off = off; ret = error enospc })
      else (do
        w ← write_loop (limit s.size amt + 1) s off user (limit s.size amt) 0
        let t : Stash = w.stash
        ok (record w { stash = record t { proc_size = t.size } }))

-- What a call of `crashstash_read` leaves: `*off`, its result, and the bytes copied to the user.
pub record Reading : Type 0 where
  pub off : ℕ
  pub ret : Ret
  pub copied : List ℕ

-- The walk to the page at the index `pgnum`, or past the last one.
unfoldable pub seek_page : List Page → ℕ → List Page
seek_page [] pgnum = []
seek_page (p ∷ ps) zero = p ∷ ps
seek_page (p ∷ ps) (suc pgnum) = seek_page ps pgnum

-- The loop over the pages from `pg` on. `room` is how many bytes the memory at `data` can take.
-- Past the last page the list head is taken for a page.
unfoldable pub read_loop : List Page → ℕ → ℕ → ℕ → ℕ → List ℕ → Run Reading
read_loop [] amt off room read copied =
    if amt == 0
    then ok (record { off = off; ret = bytes read; copied = copied })
    else stop out_of_bounds
read_loop (pg ∷ rest) amt off room read copied =
    let pgoff = off % page_size in
    let chunk_amt = min amt (page_size - pgoff) in
    let src = slice pg pgoff chunk_amt in
    let later =
      read_loop rest (amt - chunk_amt) (off + chunk_amt) (room - chunk_amt) (read + chunk_amt)
        (copied ++ src) in
    if amt == 0
    then ok (record { off = off; ret = bytes read; copied = copied })
    else if ltb room chunk_amt
    then ok (record { off = off; ret = error efault; copied = copied ++ take room src })
    else later

-- `crashstash_read` of `amt` bytes at `*off`, in arithmetic of `u64`.
unfoldable pub read : Stash → ℕ → ℕ → ℕ → Run Reading
read s off amt room =
    let amt' =
      if ltb s.size ((off + amt) % 2 ^ 64) then (2 ^ 64 + s.size - off) % 2 ^ 64 else amt in
    read_loop (seek_page s.list (off / page_size)) amt' off room 0 []

-- The variables when the module is loaded.
abbrev pub initial : Stash
initial = record { count = 0; list = []; size = 0; pages = 0; proc_size = 0; allocs = 0 }
