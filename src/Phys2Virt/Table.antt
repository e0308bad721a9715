-- ===== src/Phys2Virt/Table.antt =====
-- What the loop over the program headers does to their bytes (elf/phys2virt.c).
use native.Mathlib.Decide.{ℕ_discrete}
use kernel_stuff.Common.{
  ℕ, zero, suc, ◌+◌, ◌*◌, ◌≤◌, ◌<◌, ◌≡◌, refl, sym, ap, ◌∙◌, ◌⊎◌, inl, inr, Bool, List,
  if◌then◌else◌, length, arith, Bool-cases, replicate, slice, length-slice, overwrite,
  length-overwrite, slice-overwrite, slice-overwrite_before, slice-overwrite_after,
}
use kernel_stuff.Phys2Virt.{sizeof_phdr, vaddr_at, paddr_at, new_vaddr, set_vaddrs}

module _ (zero_it : Bool) where
  length-new_vaddr :
      (phdrs : List ℕ) (i : ℕ)
      → suc i * sizeof_phdr ≤ length phdrs
      → length (new_vaddr zero_it phdrs i) ≡ 8
  unfolding new_vaddr
  length-new_vaddr phdrs i fits = elim (Bool-cases zero_it) [
    | inl clear ↦ rw clear
    | inr copy ↦ rw copy (length-slice phdrs (i * sizeof_phdr + paddr_at) 8 (omega arith))
  ]

  -- One round.
  set_vaddr : List ℕ → ℕ → List ℕ
  set_vaddr phdrs i = overwrite phdrs (i * sizeof_phdr + vaddr_at) (new_vaddr zero_it phdrs i)

  -- The part from `o` on, of `n` bytes, meets no virtual address from entry `i` on.
  abbrev Avoids : ℕ → ℕ → ℕ → Type 0
  Avoids i o n =
      (j : ℕ) → i ≤ j → (o + n ≤ j * sizeof_phdr + vaddr_at) ⊎ (j * sizeof_phdr + paddr_at ≤ o)

  length-set_vaddr :
      (phdrs : List ℕ) (i : ℕ)
      → suc i * sizeof_phdr ≤ length phdrs
      → length (set_vaddr phdrs i) ≡ length phdrs
  unfolding set_vaddr
  length-set_vaddr phdrs i fits =
      length-overwrite phdrs (i * sizeof_phdr + vaddr_at) (new_vaddr zero_it phdrs i)
        (omega (arith, length-new_vaddr phdrs i fits))

  slice-set_vaddr :
      (phdrs : List ℕ) (i o n : ℕ)
      → suc i * sizeof_phdr ≤ length phdrs
      → (o + n ≤ i * sizeof_phdr + vaddr_at) ⊎ (i * sizeof_phdr + paddr_at ≤ o)
      → slice (set_vaddr phdrs i) o n ≡ slice phdrs o n
  unfolding set_vaddr
  slice-set_vaddr phdrs i o n fits (inl before) =
      slice-overwrite_before phdrs (i * sizeof_phdr + vaddr_at) (new_vaddr zero_it phdrs i)
        (omega (arith, length-new_vaddr phdrs i fits)) o n before
  slice-set_vaddr phdrs i o n fits (inr behind) =
      slice-overwrite_after phdrs (i * sizeof_phdr + vaddr_at) (new_vaddr zero_it phdrs i)
        (omega (arith, length-new_vaddr phdrs i fits)) o n
        (omega (arith, length-new_vaddr phdrs i fits))

  pub length-set_vaddrs :
      (rounds i : ℕ) (phdrs : List ℕ)
      → (i + rounds) * sizeof_phdr ≤ length phdrs
      → length (set_vaddrs zero_it rounds i phdrs) ≡ length phdrs
  unfolding set_vaddrs set_vaddr
  length-set_vaddrs zero i phdrs fits = refl
  length-set_vaddrs (suc rounds) i phdrs fits =
      length-set_vaddrs rounds (i + 1) (set_vaddr phdrs i)
        (omega (arith, length-set_vaddr phdrs i (omega arith)))
      ∙ length-set_vaddr phdrs i (omega arith)

  pub set_vaddrs-Avoids :
      (rounds i : ℕ) (phdrs : List ℕ) (o n : ℕ)
      → (i + rounds) * sizeof_phdr ≤ length phdrs
      → Avoids i o n
      → slice (set_vaddrs zero_it rounds i phdrs) o n ≡ slice phdrs o n
  unfolding set_vaddrs set_vaddr
  set_vaddrs-Avoids zero i phdrs o n fits h = refl
  set_vaddrs-Avoids (suc rounds) i phdrs o n fits h =
      set_vaddrs-Avoids rounds (i + 1) (set_vaddr phdrs i) o n
        (omega (arith, length-set_vaddr phdrs i (omega arith))) (λ j le. h j (omega arith))
      ∙ slice-set_vaddr phdrs i o n (omega arith) (h i (omega arith))

  new_vaddr-set_vaddr :
      (phdrs : List ℕ) (i k : ℕ)
      → suc i * sizeof_phdr ≤ length phdrs
      → i < k
      → new_vaddr zero_it (set_vaddr phdrs i) k ≡ new_vaddr zero_it phdrs k
  unfolding new_vaddr
  new_vaddr-set_vaddr phdrs i k fits lt =
      ap (λ l. if zero_it then replicate 8 0 else l)
        (slice-set_vaddr phdrs i (k * sizeof_phdr + paddr_at) 8 fits (inr (omega arith)))

  pub set_vaddrs-vaddr :
      (rounds i : ℕ) (phdrs : List ℕ) (k : ℕ)
      → (i + rounds) * sizeof_phdr ≤ length phdrs
      → i ≤ k
      → k < i + rounds
      → slice (set_vaddrs zero_it rounds i phdrs) (k * sizeof_phdr + vaddr_at) 8
        ≡ new_vaddr zero_it phdrs k
  unfolding set_vaddrs set_vaddr
  set_vaddrs-vaddr zero i phdrs k fits le lt = absurd (omega arith)
  set_vaddrs-vaddr (suc rounds) i phdrs k fits le lt = elim (ℕ_discrete i k) [
    | yes same ↦
        set_vaddrs-Avoids rounds (i + 1) (set_vaddr phdrs i) (k * sizeof_phdr + vaddr_at) 8
          (omega (arith, length-set_vaddr phdrs i (omega arith))) (λ j after. inl (omega arith))
        ∙ ap (λ m. slice (set_vaddr phdrs i) (m * sizeof_phdr + vaddr_at) 8) (sym same)
        ∙ slice-overwrite phdrs (i * sizeof_phdr + vaddr_at) (new_vaddr zero_it phdrs i)
            (omega (arith, length-new_vaddr phdrs i (omega arith))) 8
            (omega (arith, length-new_vaddr phdrs i (omega arith)))
        ∙ ap (new_vaddr zero_it phdrs) same
    | no other ↦
        set_vaddrs-vaddr rounds (i + 1) (set_vaddr phdrs i) k
          (omega (arith, length-set_vaddr phdrs i (omega arith))) (omega arith) (omega arith)
        ∙ new_vaddr-set_vaddr phdrs i k (omega arith) (omega arith)
  ]
