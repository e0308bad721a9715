-- ===== src/VmcoreInfo/Edit/Encoded.antt =====
-- The note that is written in place of one that is given as a value (vmcoreinfo/editvmcoreinfo.c).
use kernel_stuff.Common.{
  ℕ, ◌+◌, ◌-◌, ◌^◌, ◌<◌, ◌≡◌, refl, sym, ap, ◌∙◌, true, List, [], ◌++◌, append_assoc, leb, length,
  arith, take, drop, replicate, length-append, length-drop, length-replicate, take-all,
  take-append_le, slice, overwrite, overwrite-middle, replicate-append,
}
use kernel_stuff.Common.Run.{ok}
use kernel_stuff.Bytes.{to_le}
use kernel_stuff.Bytes.Laws.{length-to_le}
use kernel_stuff.VmcoreInfo.{pad4, note_desc}
use kernel_stuff.Elf.Notes.{Note, name_field}
use kernel_stuff.VmcoreInfo.Notes.{IsNote, padding, padded, encode, pad4_ge, length-padded}
use kernel_stuff.VmcoreInfo.Complete.{namesz_lem}
use kernel_stuff.VmcoreInfo.Edit.{new_note}

-- The note with a new descriptor.
abbrev pub with_desc : Note → List ℕ → Note
with_desc n newdesc = record n { desc = newdesc }

module _ (n : Note) (v : IsNote n) (newdesc : List ℕ) (small : length newdesc < 2 ^ 32) where
  -- The parts before and behind `descsz`, up to the descriptor.
  abbrev name_size : List ℕ
  name_size = to_le 4 (length (name_field n))

  abbrev type_name : List ℕ
  type_name = to_le 4 n.type ++ padded (name_field n)

  abbrev head_of : List ℕ → List ℕ
  head_of desc = name_size ++ (to_le 4 (length desc) ++ type_name)

  length-head_of : (desc : List ℕ) → length (head_of desc) ≡ 12 + pad4 (length (name_field n))
  length-head_of desc = omega (
    arith,
    v.name_size,
    length-append name_size (to_le 4 (length desc) ++ type_name),
    length-append (to_le 4 (length desc)) type_name,
    length-append (to_le 4 n.type) (padded (name_field n)),
    length-to_le 4 (length (name_field n)),
    length-to_le 4 (length desc),
    length-to_le 4 n.type,
    length-padded (name_field n) (omega (arith, v.name_size)),
  )

  encode-head_of : encode (with_desc n newdesc) ≡ head_of newdesc ++ padded newdesc
  encode-head_of = simp append_assoc

  -- The three writes to the block of zeros.
  blank : List ℕ
  blank = replicate (12 + pad4 (length (name_field n)) + pad4 (length newdesc)) 0

  copied_head :
      overwrite blank 0 (head_of n.desc)
      ≡ head_of n.desc ++ (replicate (length newdesc) 0 ++ padding newdesc)
  unfolding blank
  copied_head =
      let size = length-head_of n.desc in
      let desc_size = pad4_ge (length newdesc) (omega arith) in
      ap (λ l. overwrite l 0 (head_of n.desc))
        (replicate-append (12 + pad4 (length (name_field n)) + pad4 (length newdesc))
          (12 + pad4 (length (name_field n))) (pad4 (length newdesc)) 0 refl)
      ∙ overwrite-middle [] (replicate (12 + pad4 (length (name_field n))) 0)
          (replicate (pad4 (length newdesc)) 0) (head_of n.desc) 0 refl
          (omega (arith, size, length-replicate {A = ℕ} (12 + pad4 (length (name_field n))) 0))
      ∙ ap (λ l. head_of n.desc ++ l)
          (replicate-append (pad4 (length newdesc)) (length newdesc)
            (pad4 (length newdesc) - length newdesc) 0 (omega (arith, desc_size)))

  sized :
      (rest : List ℕ)
      → overwrite (head_of n.desc ++ rest) 4 (to_le 4 (length newdesc)) ≡ head_of newdesc ++ rest
  sized rest =
      ap (λ l. overwrite l 4 (to_le 4 (length newdesc))) {x = head_of n.desc ++ rest}
        (simp append_assoc)
      ∙ overwrite-middle name_size (to_le 4 (length n.desc)) (type_name ++ rest)
          (to_le 4 (length newdesc)) 4 (length-to_le 4 _)
          (length-to_le 4 (length newdesc) ∙ sym (length-to_le 4 (length n.desc)))
      ∙ simp append_assoc

  described :
      overwrite
        (head_of newdesc ++ (replicate (length newdesc) 0 ++ padding newdesc))
        (12 + pad4 (length (name_field n)))
        newdesc
      ≡ encode (with_desc n newdesc)
  described =
      overwrite-middle (head_of newdesc) (replicate (length newdesc) 0) (padding newdesc) newdesc
        (12 + pad4 (length (name_field n))) (length-head_of newdesc)
        (sym (length-replicate {A = ℕ} (length newdesc) 0))
      ∙ sym encode-head_of

  -- `new_note` makes the note with the new descriptor of one that stands at an offset.
  pub new_note-encode :
      (notes : List ℕ) (at : ℕ) (rest : List ℕ)
      → drop at notes ≡ encode n ++ rest
      → new_note notes at (length newdesc) newdesc ≡ ok (encode (with_desc n newdesc))
  unfolding new_note note_desc blank
  new_note-encode notes at rest here =
      let k : ℕ = 12 + pad4 (length (name_field n)) in
      let from : drop at notes ≡ head_of n.desc ++ (padded n.desc ++ rest) =
        here ∙ simp append_assoc in
      let size = length-head_of n.desc in
      let inside : leb (at + k) (length notes) ≡ true = ground (
        arith,
        size,
        length-drop at notes,
        ap length from,
        length-append (head_of n.desc) (padded n.desc ++ rest),
      ) in
      let head : slice notes at k ≡ head_of n.desc =
        ap (take k) from
        ∙ take-append_le k (head_of n.desc) _ (omega (arith, size))
        ∙ take-all k (head_of n.desc) (omega (arith, size)) in
      rw
        (
          namesz_lem notes at n rest v here,
          inside,
          head,
          copied_head,
          sized,
          take-all (length newdesc) newdesc (omega arith),
        )
        (ap ok described)
