-- ===== src/Phys2Virt/Rewrite.antt =====
-- What the program leaves of the file (elf/phys2virt.c).
use native.Mathlib.Decide.{dec_le}
use kernel_stuff.Common.{
  ℕ, ◌+◌, ◌*◌, ◌≤◌, ◌<◌, ◌≡◌, sym, ap, ◌∙◌, ◌⊎◌, inl, inr, Bool, true, false, List, leb, le→leb,
  ◌==◌, ==_iff, if◌then◌else◌, length, arith, replicate, slice, length-slice, slice-slice,
  overwrite, length-overwrite, slice-overwrite, slice-overwrite_before, slice-overwrite_after,
}
use kernel_stuff.Common.Run.{ok}
use kernel_stuff.Posix.{File, IsFile, seek_set, fread, fwrite, write_at}
use kernel_stuff.Posix.Writes.{write_at-inside}
use kernel_stuff.Phys2Virt.{sizeof_phdr, vaddr_at, paddr_at, new_vaddr, set_vaddrs, rewrite_table}
use kernel_stuff.Phys2Virt.Table.{length-set_vaddrs, set_vaddrs-Avoids, set_vaddrs-vaddr}

-- The table lies in the file, and neither its read nor its write fails.
pub record IsRewritable (f : File) (phoff phnum : ℕ) : Type 0 where
  pub inside : phoff + sizeof_phdr * phnum ≤ length f.bytes
  pub reads : f.read_fails phoff ≡ false
  pub writes : f.write_fails phoff ≡ false

-- The rewritten table.
abbrev new_table : Bool → File → ℕ → ℕ → List ℕ
new_table zero_it f phoff phnum =
    set_vaddrs zero_it phnum 0 (slice f.bytes phoff (sizeof_phdr * phnum))

length-new_table :
    (zero_it : Bool) (f : File) (phoff phnum : ℕ)
    → IsRewritable f phoff phnum
    → length (new_table zero_it f phoff phnum) ≡ sizeof_phdr * phnum
length-new_table zero_it f phoff phnum r =
    length-set_vaddrs zero_it phnum 0 (slice f.bytes phoff (sizeof_phdr * phnum))
      (omega (arith, length-slice f.bytes phoff (sizeof_phdr * phnum) r.inside))
    ∙ length-slice f.bytes phoff (sizeof_phdr * phnum) r.inside

pub rewrite_table_lem :
    (zero_it : Bool) (f : File) (phoff phnum : ℕ)
    → IsFile f
    → IsRewritable f phoff phnum
    → (g : File) × (rewrite_table zero_it f phoff phnum ≡ ok g)
      × (g.bytes ≡ overwrite f.bytes phoff (new_table zero_it f phoff phnum))
unfolding rewrite_table seek_set fread fwrite
rewrite_table_lem zero_it f phoff phnum v r =
    let sought : leb phoff f.max_offset ≡ true = le→leb _ _ (omega (arith, r.inside, v.size)) in
    let whole : (length (slice f.bytes phoff (sizeof_phdr * phnum)) == sizeof_phdr * phnum) ≡ true =
      (==_iff _ _).1 (length-slice f.bytes phoff (sizeof_phdr * phnum) r.inside) in
    (
      record f {
        bytes = write_at f.bytes phoff (new_table zero_it f phoff phnum);
        pos = phoff + length (new_table zero_it f phoff phnum);
      },
      rw (sought, r.reads, whole, sought, r.writes),
      write_at-inside f.bytes phoff (new_table zero_it f phoff phnum)
          (omega (arith, length-new_table zero_it f phoff phnum r, r.inside)),
    )

module _ (zero_it : Bool) (f : File) (phoff phnum : ℕ) (r : IsRewritable f phoff phnum) where
  table : List ℕ
  table = slice f.bytes phoff (sizeof_phdr * phnum)

  result : List ℕ
  result = overwrite f.bytes phoff (new_table zero_it f phoff phnum)

  fits : phoff + length (new_table zero_it f phoff phnum) ≤ length f.bytes
  fits = omega (arith, length-new_table zero_it f phoff phnum r, r.inside)

  table_size : length table ≡ sizeof_phdr * phnum
  unfolding table
  table_size = length-slice f.bytes phoff (sizeof_phdr * phnum) r.inside

  -- A part of the table, seen in the file.
  slice-result :
      (x n : ℕ)
      → x + n ≤ sizeof_phdr * phnum
      → slice result (phoff + x) n ≡ slice (new_table zero_it f phoff phnum) x n
  unfolding result
  slice-result x n h =
      sym (slice-slice result phoff (sizeof_phdr * phnum) x n h)
      ∙ ap (λ l. slice l x n)
          (slice-overwrite f.bytes phoff (new_table zero_it f phoff phnum) fits
            (sizeof_phdr * phnum) (sym (length-new_table zero_it f phoff phnum r)))

  kept_part :
      (x n : ℕ)
      → x + n ≤ sizeof_phdr * phnum
      → ((j : ℕ) → 0 ≤ j → (x + n ≤ j * sizeof_phdr + vaddr_at) ⊎ (j * sizeof_phdr + paddr_at ≤ x))
      → slice result (phoff + x) n ≡ slice f.bytes (phoff + x) n
  unfolding table
  kept_part x n h avoids =
      slice-result x n h
      ∙ set_vaddrs-Avoids zero_it phnum 0 table x n (omega (arith, table_size)) avoids
      ∙ slice-slice f.bytes phoff (sizeof_phdr * phnum) x n h

-- Where the table lies in the file and can be read and written, the rewrite succeeds and keeps the
-- size of the file. Each entry has in its virtual address the bytes of its physical address, or
-- zeros if these were asked for; its members before and behind are as before.
pub rewrite_table-entry :
    (zero_it : Bool) (f : File) (phoff phnum k : ℕ)
    → IsFile f
    → IsRewritable f phoff phnum
    → k < phnum
    → let at = k * sizeof_phdr in
      (g : File) × (rewrite_table zero_it f phoff phnum ≡ ok g)
      × (length g.bytes ≡ length f.bytes)
      × (slice g.bytes (phoff + (at + vaddr_at)) 8
          ≡ (if zero_it then replicate 8 0 else slice f.bytes (phoff + (at + paddr_at)) 8))
      × (slice g.bytes (phoff + at) vaddr_at ≡ slice f.bytes (phoff + at) vaddr_at)
      × (slice g.bytes (phoff + (at + paddr_at)) 32 ≡ slice f.bytes (phoff + (at + paddr_at)) 32)
unfolding table result new_vaddr
rewrite_table-entry zero_it f phoff phnum k v r lt =
    let (g, e, same) = rewrite_table_lem zero_it f phoff phnum v r in
    let at : ℕ = k * sizeof_phdr in
    (
      g,
      e,
      ap length same
          ∙ length-overwrite f.bytes phoff (new_table zero_it f phoff phnum)
              (fits zero_it f phoff phnum r),
      ap (λ l. slice l (phoff + (at + vaddr_at)) 8) same
          ∙ slice-result zero_it f phoff phnum r (at + vaddr_at) 8 (omega arith)
          ∙ set_vaddrs-vaddr zero_it phnum 0 (table zero_it f phoff phnum r) k
              (omega (arith, table_size zero_it f phoff phnum r)) (omega arith) (omega arith)
          ∙ ap (λ l. if zero_it then replicate 8 0 else l)
              (slice-slice f.bytes phoff (sizeof_phdr * phnum) (at + paddr_at) 8 (omega arith)),
      ap (λ l. slice l (phoff + at) vaddr_at) same
          ∙ kept_part zero_it f phoff phnum r at vaddr_at (omega arith) (λ j _. before k j),
      ap (λ l. slice l (phoff + (at + paddr_at)) 32) same
          ∙ kept_part zero_it f phoff phnum r (at + paddr_at) 32 (omega arith) (λ j _. behind k j),
    )
  where
    before :
        (a j : ℕ)
        → (a * sizeof_phdr + vaddr_at ≤ j * sizeof_phdr + vaddr_at)
          ⊎ (j * sizeof_phdr + paddr_at ≤ a * sizeof_phdr)
    before a j = elim (dec_le a j) [ yes le ↦ inl (omega arith) | no gt ↦ inr (omega arith) ]

    behind :
        (a j : ℕ)
        → (a * sizeof_phdr + paddr_at + 32 ≤ j * sizeof_phdr + vaddr_at)
          ⊎ (j * sizeof_phdr + paddr_at ≤ a * sizeof_phdr + paddr_at)
    behind a j = elim (dec_le j a) [ yes le ↦ inr (omega arith) | no gt ↦ inl (omega arith) ]

-- Outside the table the rewrite changes nothing.
pub rewrite_table-outside :
    (zero_it : Bool) (f : File) (phoff phnum o n : ℕ)
    → IsFile f
    → IsRewritable f phoff phnum
    → (o + n ≤ phoff) ⊎ (phoff + sizeof_phdr * phnum ≤ o)
    → (g : File) × (rewrite_table zero_it f phoff phnum ≡ ok g)
      × (slice g.bytes o n ≡ slice f.bytes o n)
rewrite_table-outside zero_it f phoff phnum o n v r (inl h) =
    let (g, e, same) = rewrite_table_lem zero_it f phoff phnum v r in
    (
      g,
      e,
      ap (λ l. slice l o n) same
          ∙ slice-overwrite_before f.bytes phoff (new_table zero_it f phoff phnum)
              (fits zero_it f phoff phnum r) o n h,
    )
rewrite_table-outside zero_it f phoff phnum o n v r (inr h) =
    let (g, e, same) = rewrite_table_lem zero_it f phoff phnum v r in
    (
      g,
      e,
      ap (λ l. slice l o n) same
          ∙ slice-overwrite_after f.bytes phoff (new_table zero_it f phoff phnum)
              (fits zero_it f phoff phnum r) o n
              (omega (arith, length-new_table zero_it f phoff phnum r)),
    )
