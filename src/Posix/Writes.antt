-- ===== src/Posix/Writes.antt =====
-- What a write inside the content does, and one at its end; a read that gives all the bytes.
use kernel_stuff.Common.{
  min, length-slice, ℕ, ◌+◌, ◌-◌, ◌≤◌, ◌≡◌, refl, ap, ◌∙◌, false, some, List, ◌++◌, append-nil,
  length, arith, take, drop, replicate, take-all, drop-all, slice, overwrite, length-overwrite,
  slice-overwrite,
}
use kernel_stuff.Posix.{read, File, write_at, write, max_rw_count}

module _ (old : List ℕ) (at : ℕ) (new : List ℕ) (inside : at + length new ≤ length old) where
  pub write_at-inside : write_at old at new ≡ overwrite old at new
  write_at-inside =
      ap (λ n. take at old ++ (replicate n 0 ++ (new ++ drop (at + length new) old)))
        {x = at - length old} {y = 0} (omega arith)

  -- The size of the content stays.
  pub length-write_at : length (write_at old at new) ≡ length old
  length-write_at = ap length write_at-inside ∙ length-overwrite old at new inside

  -- The new bytes stand at their place.
  pub slice-write_at : slice (write_at old at new) at (length new) ≡ new
  slice-write_at =
      ap (λ l. slice l at (length new)) write_at-inside
      ∙ slice-overwrite old at new inside (length new) refl

-- A file with which no call fails.
abbrev pub Works : File → Type 0
Works f = (at : ℕ) → (f.read_fails at ≡ false) × (f.write_fails at ≡ false)

pub write_at-end :
    (old : List ℕ) (at : ℕ) (new : List ℕ) → at ≡ length old → write_at old at new ≡ old ++ new
write_at-end old at new e =
    ap (λ n. take at old ++ (replicate n 0 ++ (new ++ drop (at + length new) old)))
      {x = at - length old} {y = 0} (omega arith)
    ∙ ap (λ l. l ++ (new ++ drop (at + length new) old)) (take-all at old (omega arith))
    ∙ ap (λ l. old ++ (new ++ l)) (drop-all (at + length new) old (omega arith))
    ∙ ap (λ l. old ++ l) (append-nil new)

-- The file after a write at its end.
abbrev pub appended : File → List ℕ → File
appended f block = record f { bytes = f.bytes ++ block; pos = f.pos + length block }

pub write-whole :
    (f : File) (block : List ℕ)
    → Works f
    → length block ≤ max_rw_count
    → write f block ≡ (
      some (length block),
      record f { bytes = write_at f.bytes f.pos block; pos = f.pos + length block },
    )
unfolding write
write-whole f block w fits = rw ((w f.pos).1, take-all max_rw_count block fits)

pub write-appended :
    (f : File) (block : List ℕ)
    → Works f
    → f.pos ≡ length f.bytes
    → length block ≤ max_rw_count
    → write f block ≡ (some (length block), appended f block)
write-appended f block w at fits =
    write-whole f block w fits
    ∙ ap (λ l. (some (length block), record f { bytes = l; pos = f.pos + length block }))
        (write_at-end f.bytes f.pos block at)

pub read_whole :
    (f : File) (n : ℕ)
    → Works f
    → n ≤ max_rw_count
    → f.pos + n ≤ length f.bytes
    → read f n ≡ (some (slice f.bytes f.pos n), record f { pos = f.pos + n })
unfolding read
read_whole f n w small inside =
    let whole : min n max_rw_count ≡ n = omega arith in
    rw ((w f.pos).0, whole, length-slice f.bytes f.pos n inside)
