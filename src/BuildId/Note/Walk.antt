-- ===== src/BuildId/Note/Walk.antt =====
-- The walk over the notes: its rounds, and that it ends (editbuildid/editbuildid.c).
use kernel_stuff.Common.{
  ℕ, zero, suc, ◌+◌, ◌≤◌, ◌<◌, ◌≡◌, refl, sym, ap, ◌∙◌, ◌⊎◌, inl, inr, Bool, true, false, ◌&&◌,
  List, ltb, ltb→lt, lt→ltb, ◌==◌, length, arith, Bool-cases,
}
use kernel_stuff.Common.Run.{Stop, Run, ok, stop, out_of_fuel, >>=-eq-ok, Ends, >>=-Ends, ok-Ends}
use kernel_stuff.Bytes.{Platform, peek}
use kernel_stuff.Bytes.Laws.{peek-Ends, peek-Ends}
use kernel_stuff.CString.{strcmp_eq, strcmp_eq-Ends}
use kernel_stuff.Elf.{ElfInfo, getfield32, n_namesz, n_descsz, n_type}
use kernel_stuff.Elf.Fields.{getfield-Ends}
use kernel_stuff.Hex.RoundTrip.{to_hex-Ends}
use kernel_stuff.Hex.{to_hex}
use kernel_stuff.BuildId.Note.{
  sizeof_nhdr, note_desc, next_note, end_notes, max_buildid_size, nt_gnu_build_id, gnu, Search,
  absent, Round, give, next, take_buildid, note_round, find_note,
}

pub next_note_ge : (nhdr namesz descsz : ℕ) → nhdr + 12 ≤ next_note nhdr namesz descsz
unfolding next_note
next_note_ge nhdr namesz descsz = omega arith

module _ (platform : Platform) (info : ElfInfo) (block : List ℕ) (offset : ℕ) where
  pub find_note_dry : (nhdr : ℕ) → find_note platform info block offset 0 nhdr ≡ stop out_of_fuel
  unfolding find_note
  find_note_dry nhdr = refl

  -- How a walk that returned `r` went on from `nhdr`, with fuel for so many rounds more.
  abbrev pub WentOn : ℕ → ℕ → Search → Type 0
  WentOn fuel nhdr r =
      ((end_notes (length block) nhdr ≡ true) × (r ≡ absent))
      ⊎ (note_round platform info block offset nhdr ≡ ok (give r))
      ⊎ ((n : ℕ) × (note_round platform info block offset nhdr ≡ ok (next n))
          × (find_note platform info block offset fuel n ≡ ok r))

  pub find_note_inv :
      (fuel nhdr : ℕ) {r : Search}
      → find_note platform info block offset (suc fuel) nhdr ≡ ok r
      → WentOn fuel nhdr r
  unfolding find_note
  find_note_inv fuel nhdr {r} e =
      go (end_notes (length block) nhdr) refl (note_round platform info block offset nhdr) refl
    where
      go :
          (last : Bool)
          → end_notes (length block) nhdr ≡ last
          → (round : Run Round) → note_round platform info block offset nhdr ≡ round
          → WentOn fuel nhdr r
      go true h round k = inl (h, cc (rw h at e))
      go false h (ok (give s)) k = inr (inl (k ∙ cc (rw (h, k) at e)))
      go false h (ok (next n)) k = inr (inr (n, k, rw (h, k) at e))
      go false h (stop s) k = cc (rw (h, k) at e)

  -- A build ID note of `descsz` bytes stands at `nhdr`.
  pub record IsBuildidNote (nhdr descsz : ℕ) : Type 0 where
    pub namesz : ℕ
    pub has_descsz : getfield32 platform info block nhdr n_descsz ≡ ok descsz
    pub has_namesz : getfield32 platform info block nhdr n_namesz ≡ ok namesz
    pub has_type : getfield32 platform info block nhdr n_type ≡ ok nt_gnu_build_id
    pub is_gnu : strcmp_eq gnu block (nhdr + sizeof_nhdr) ≡ ok true

  note_round_at :
      {nhdr descsz : ℕ}
      → (v : IsBuildidNote nhdr descsz)
      → note_round platform info block offset nhdr
        ≡ take_buildid platform info block offset nhdr v.namesz descsz
  unfolding note_round
  note_round_at v = rw (v.has_descsz, v.has_namesz, v.has_type, v.is_gnu)

  pub find_note_next :
      (fuel nhdr : ℕ) {n : ℕ}
      → end_notes (length block) nhdr ≡ false
      → note_round platform info block offset nhdr ≡ ok (next n)
      → find_note platform info block offset (suc fuel) nhdr
        ≡ find_note platform info block offset fuel n
  unfolding find_note
  find_note_next fuel nhdr h k = rw (h, k)

  end_notes_inside : (nhdr : ℕ) → nhdr < length block → end_notes (length block) nhdr ≡ false
  unfolding end_notes
  end_notes_inside nhdr h = ground arith

  comes_back :
      (nhdr namesz descsz : ℕ)
      → max_buildid_size < descsz
      → take_buildid platform info block offset nhdr namesz descsz ≡ ok (next nhdr)
  unfolding take_buildid
  comes_back nhdr namesz descsz large = rw (lt→ltb _ _ large)

  -- At a build ID note of more than 512 bytes the walk comes back to the same note, so no number
  -- of rounds is enough: the loop does not end.
  pub find_note_oversized :
      (nhdr descsz : ℕ)
      → IsBuildidNote nhdr descsz
      → max_buildid_size < descsz
      → nhdr < length block
      → (fuel : ℕ) → find_note platform info block offset fuel nhdr ≡ stop out_of_fuel
  find_note_oversized nhdr descsz v large inside zero = find_note_dry nhdr
  find_note_oversized nhdr descsz v large inside (suc fuel) =
      find_note_next fuel nhdr (end_notes_inside nhdr inside)
        (note_round_at v ∙ comes_back nhdr v.namesz descsz large)
      ∙ find_note_oversized nhdr descsz v large inside fuel

  take_buildid_next :
      (nhdr namesz descsz : ℕ) {n : ℕ}
      → take_buildid platform info block offset nhdr namesz descsz ≡ ok (next n)
      → max_buildid_size < descsz
  unfolding take_buildid
  take_buildid_next nhdr namesz descsz e = elim (Bool-cases (ltb max_buildid_size descsz)) [
    | inl large ↦ ltb→lt _ _ large
    | inr small ↦
        let (raw, _, e') =
          >>=-eq-ok (peek block (note_desc nhdr namesz) descsz) _ (rw small at e) in
        let (hex, _, e'') = >>=-eq-ok (to_hex raw) _ e' in cc
  ]

  -- A round that goes on does so by 12 bytes at least, or stands at a note that is too large.
  note_round_next :
      (nhdr : ℕ) {n : ℕ}
      → note_round platform info block offset nhdr ≡ ok (next n)
      → (nhdr + 12 ≤ n) ⊎ ((descsz : ℕ) × IsBuildidNote nhdr descsz × (max_buildid_size < descsz))
  unfolding note_round
  note_round_next nhdr {n} e =
      let (descsz, d, e1) = >>=-eq-ok (getfield32 platform info block nhdr n_descsz) _ e in
      let (namesz, m, e2) = >>=-eq-ok (getfield32 platform info block nhdr n_namesz) _ e1 in
      let (type, t, e3) = >>=-eq-ok (getfield32 platform info block nhdr n_type) _ e2 in
      let (is_gnu, g, e4) = >>=-eq-ok (strcmp_eq gnu block (nhdr + sizeof_nhdr)) _ e3 in
      elim (Bool-cases (is_gnu && type == nt_gnu_build_id)) [
        | inl good ↦
            let gnu_too : is_gnu ≡ true = ground arith in
            let is_id : type ≡ nt_gnu_build_id = ground arith in
            let at : IsBuildidNote nhdr descsz = record {
              namesz = namesz;
              has_descsz = d;
              has_namesz = m;
              has_type = t ∙ ap ok is_id;
              is_gnu = g ∙ ap ok gnu_too;
            } in
            inr (descsz, at, take_buildid_next nhdr namesz descsz (rw good at e4))
        | inr bad ↦
            let to : next_note nhdr namesz descsz ≡ n = cc (rw bad at e4) in
            inl (rw (← to) (next_note_ge nhdr namesz descsz))
      ]

  note_round-Ends : (nhdr : ℕ) → Ends (note_round platform info block offset nhdr)
  unfolding note_round getfield32 take_buildid
  note_round-Ends nhdr = >>=-Ends _ _ (getfield-Ends platform info 4 block nhdr n_descsz) λ descsz.
      >>=-Ends _ _ (getfield-Ends platform info 4 block nhdr n_namesz) λ namesz.
        >>=-Ends _ _ (getfield-Ends platform info 4 block nhdr n_type) λ type.
          >>=-Ends _ _ (strcmp_eq-Ends gnu block (nhdr + sizeof_nhdr)) λ is_gnu.
            elim (Bool-cases (is_gnu && type == nt_gnu_build_id)) [
              | inl good ↦ rw good (elim (Bool-cases (ltb max_buildid_size descsz)) [
                | inl large ↦ rw large (ok-Ends _)
                | inr small ↦ rw small (
                    >>=-Ends _ _ (peek-Ends block (note_desc nhdr namesz) descsz)
                      λ raw. >>=-Ends _ _ (to_hex-Ends raw) λ hex. ok-Ends _)
              ])
              | inr bad ↦ rw bad (ok-Ends _)
            ]

  pub find_note_last :
      (fuel nhdr : ℕ)
      → end_notes (length block) nhdr ≡ true
      → find_note platform info block offset (suc fuel) nhdr ≡ ok absent
  unfolding find_note
  find_note_last fuel nhdr h = rw h

  pub find_note_give :
      (fuel nhdr : ℕ) {s : Search}
      → end_notes (length block) nhdr ≡ false
      → note_round platform info block offset nhdr ≡ ok (give s)
      → find_note platform info block offset (suc fuel) nhdr ≡ ok s
  unfolding find_note
  find_note_give fuel nhdr h k = rw (h, k)

  find_note_stop :
      (fuel nhdr : ℕ) {s : Stop}
      → end_notes (length block) nhdr ≡ false
      → note_round platform info block offset nhdr ≡ stop s
      → find_note platform info block offset (suc fuel) nhdr ≡ stop s
  unfolding find_note
  find_note_stop fuel nhdr h k = rw (h, k)

  inside_of : (nhdr : ℕ) → end_notes (length block) nhdr ≡ false → nhdr < length block
  unfolding end_notes
  inside_of nhdr h = ground arith

  -- Where no build ID note is larger than 512 bytes, the walk ends within as many rounds as there
  -- are bytes left, and one more.
  pub find_note-Ends :
      ((nhdr descsz : ℕ) → IsBuildidNote nhdr descsz → descsz ≤ max_buildid_size)
      → (fuel nhdr : ℕ) → 0 < fuel
      → length block < fuel + nhdr
      → Ends (find_note platform info block offset fuel nhdr)
  find_note-Ends sized zero nhdr pos enough stuck = absurd (omega arith)
  find_note-Ends sized (suc fuel) nhdr pos enough stuck =
      go (end_notes (length block) nhdr) refl (note_round platform info block offset nhdr) refl
        (find_note-Ends sized fuel)
    where
      further : (n : ℕ) → note_round platform info block offset nhdr ≡ ok (next n) → nhdr + 12 ≤ n
      further n k = elim (note_round_next nhdr k) [
        | inl far ↦ far
        | inr (descsz, at, large) ↦ absurd (omega (arith, sized nhdr descsz at))
      ]

      go :
          (last : Bool)
          → end_notes (length block) nhdr ≡ last
          → (round : Run Round) → note_round platform info block offset nhdr ≡ round
          → ((n : ℕ)
              → 0 < fuel
              → length block < fuel + n
              → Ends (find_note platform info block offset fuel n))
          → ⊥
      go true h round k ih = cc (find_note_last fuel nhdr h)
      go false h (ok (give s)) k ih = cc (find_note_give fuel nhdr h k)
      go false h (ok (next n)) k ih =
          ih n (omega (arith, inside_of nhdr h)) (omega (arith, further n k))
            (sym (find_note_next fuel nhdr h k) ∙ stuck)
      go false h (stop s) k ih = note_round-Ends nhdr (k ∙ cc (find_note_stop fuel nhdr h k))
