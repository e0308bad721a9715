-- ===== src/Dumpphys/Image.antt =====
-- What a dump by vmcoreinfo/dumpphys.c is meant to be: the pages that the page map has, in order.
use kernel_stuff.Common.{
  ℕ, zero, suc, ◌+◌, ◌≤◌, ◌<◌, ◌≡◌, refl, ap, ◌∙◌, ◌≢◌, Bool, true, false, List, [], ◌++◌,
  append_assoc, if◌then◌else◌, arith,
}
use kernel_stuff.Dumpphys.{Kdump, kdump_ok, nodata, failed, MemoryInfo, address_of}

-- What libkdumpfile documents of the page map, for the set of the page frames that are there. All
-- are below `frames`.
pub record IsPageMap (ctx : Kdump) (frames : ℕ) (bits : ℕ → Bool) : Type 0 where
  pub set_works : (i : ℕ) → (ctx.find_set i).0 ≢ failed
  pub set_found :
      (i : ℕ)
      → (ctx.find_set i).0 ≡ kdump_ok
      → let j = (ctx.find_set i).1 in
        (i ≤ j) × (bits j ≡ true) × ((k : ℕ) → i ≤ k → k < j → bits k ≡ false)
  pub set_none : (i : ℕ) → (ctx.find_set i).0 ≡ nodata → (k : ℕ) → i ≤ k → bits k ≡ false
  pub clear_found :
      (i : ℕ)
      → let j = (ctx.find_clear i).1 in
        ((ctx.find_clear i).0 ≡ kdump_ok)
        × (i ≤ j)
        × (bits j ≡ false)
        × ((k : ℕ) → i ≤ k → k < j → bits k ≡ true)
  pub bounded : (k : ℕ) → frames ≤ k → bits k ≡ false

module _ (ctx : Kdump) (mi : MemoryInfo) where
  -- The bytes of a page frame that the dump gives: none where they cannot be read.
  abbrev pub page_of : ℕ → List ℕ
  page_of pfn =
      let (ks, got) = ctx.kdump_read (address_of mi pfn) mi.page_size in
      elim ks [ kdump_ok ↦ got | nodata ↦ [] | failed ↦ [] ]

module _ (bits : ℕ → Bool) (page : ℕ → List ℕ) where
  -- The pages among `n` frames from `i` on, in order.
  unfoldable pub image : ℕ → ℕ → List ℕ
  image i zero = []
  image i (suc n) = (if bits i then page i else []) ++ image (i + 1) n

  pub image-append : (i j m n : ℕ) → i + m ≡ j → image i m ++ image j n ≡ image i (m + n)
  unfolding image
  image-append i j zero n e =
      ap (λ x. image x n) {x = j} {y = i} (omega arith)
      ∙ ap (image i) {x = n} {y = 0 + n} (omega arith)
  image-append i j (suc m) n e =
      append_assoc (if bits i then page i else []) (image (i + 1) m) (image j n)
      ∙ ap (λ l. (if bits i then page i else []) ++ l) (image-append (i + 1) j m n (omega arith))
      ∙ ap (image i) {x = suc (m + n)} {y = suc m + n} (omega arith)

  pub image-none : (i n : ℕ) → ((k : ℕ) → i ≤ k → k < i + n → bits k ≡ false) → image i n ≡ []
  unfolding image
  image-none i zero h = refl
  image-none i (suc n) h =
      rw (h i (omega arith) (omega arith))
        (image-none (i + 1) n (λ k l u. h k (omega arith) (omega arith)))
