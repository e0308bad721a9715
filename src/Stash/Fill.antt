-- ===== src/Stash/Fill.antt =====
-- The page for the next byte, and a chunk that is copied into it (crashstash/crashstash.c).
use mathlib.Core.Path.{subst}
use kernel_stuff.Common.{
  ℕ, ◌+◌, ◌-◌, ◌*◌, ◌%◌, ◌≤◌, ◌<◌, ◌≡◌, refl, sym, ap, ◌∙◌, ◌≢◌, inl, inr, Option, some, List, [],
  ◌∷◌, ◌++◌, append-nil, append_assoc, ◌==◌, ==_iff, length, arith, Bool-cases, take, drop,
  length-append, length-take, length-drop, take-all, take-append_le, take-append_ge, overwrite,
}
use kernel_stuff.Common.Run.{Run, ok, stop, assertion}
use kernel_stuff.Stash.{page_size, max_size, Page, Stash, update_last, get_page}
use kernel_stuff.Stash.Pages.{
  concat, AllFull, IsPaged, contents, length-concat, concat-append, AllFull-append,
  AllFull-append_left, update_last-append, split_last,
}

-- Every page that is asked for is given, with a whole frame.
abbrev pub Allocates : (ℕ → Option Page) → Type 0
Allocates alloc = (n : ℕ) → (pg : Page) × (alloc n ≡ some pg) × (length pg ≡ page_size)

-- `t` is `s` with the page for its next byte in place.
pub record IsReady (s t : Stash) : Type 0 where
  pub front : List Page
  pub last : Page
  pub split : t.list ≡ front ++ (last ∷ [])
  pub front_full : AllFull front
  pub last_full : length last ≡ page_size
  pub placed : length front * page_size + s.size % page_size ≡ s.size
  pub counted : t.pages ≡ length t.list
  pub same_size : t.size ≡ s.size
  pub same_count : t.count ≡ s.count
  pub same_contents : contents t ≡ contents s

IsReady-new :
    (s : Stash) (pg : Page)
    → IsPaged s
    → length pg ≡ page_size
    → s.size % page_size ≡ 0
    → IsReady s
        (record s { list = s.list ++ (pg ∷ []); pages = s.pages + 1; allocs = s.allocs + 1 })
IsReady-new s pg v h z = record {
  front = s.list;
  last = pg;
  split = refl;
  front_full = v.full;
  last_full = h;
  placed = omega (arith, v.enough, v.tight);
  counted = omega (arith, length-append s.list (pg ∷ []), v.counted);
  same_size = refl;
  same_count = refl;
  same_contents =
      ap (take s.size) (concat-append s.list (pg ∷ []))
      ∙ take-append_le s.size (concat s.list) (concat (pg ∷ []))
          (omega (arith, length-concat s.list v.full, v.enough));
}

IsReady-old :
    (s : Stash) (p : Page) (ps : List Page)
    → IsPaged s
    → s.list ≡ p ∷ ps
    → s.size % page_size ≢ 0
    → IsReady s s
IsReady-old s p ps v e nz =
    let (front, last, split) = split_last p ps in
    let (front_full, (last_full, _)) =
      AllFull-append_left front (last ∷ []) (subst AllFull (e ∙ split) v.full) in
    record {
      front = front;
      last = last;
      split = e ∙ split;
      front_full = front_full;
      last_full = last_full;
      placed =
          omega (arith, v.enough, v.tight, ap length (e ∙ split), length-append front (last ∷ []));
      counted = v.counted;
      same_size = refl;
      same_count = refl;
      same_contents = refl;
    }

module _ (alloc : ℕ → Option Page) (alloc_ok : Allocates alloc) where
  pub get_page-IsReady :
      (s : Stash)
      → IsPaged s
      → (t : Stash) × (get_page alloc (s.size % page_size) s ≡ ok t) × IsReady s t
  unfolding get_page
  get_page-IsReady s v = elim (Bool-cases (s.size % page_size == 0)) [
    | inl aligned ↦
        let (pg, given, h) = alloc_ok s.allocs in
        (
          record s { list = s.list ++ (pg ∷ []); pages = s.pages + 1; allocs = s.allocs + 1 },
          rw (aligned, given),
          IsReady-new s pg v h ((==_iff _ _).0 aligned),
        )
    | inr inner ↦ rw inner (go s.list refl (λ z. cc ((==_iff _ _).1 z)))
  ]
    where
      go :
          (l : List Page)
          → s.list ≡ l
          → s.size % page_size ≢ 0
          → (t : Stash) × ((elim s.list as (λ _. Run Stash) [ [] ↦ stop assertion | p ∷ ps ↦ ok s ])
              ≡ ok t)
            × IsReady s t
      go [] e nz = absurd (omega (arith, v.enough, ap length e))
      go (p ∷ ps) e nz = (
        s,
        ap (λ (k : List Page). elim k as (λ _. Run Stash) [ [] ↦ stop assertion | _ ∷ _ ↦ ok s ]) e,
        IsReady-old s p ps v e nz,
      )

-- The stash after a chunk has been copied into its place.
abbrev pub filled : Stash → ℕ → ℕ → List ℕ → Stash
filled t pgoff c user = record t {
  list = update_last (λ pg. overwrite pg pgoff (take c user)) t.list;
  size = t.size + c;
}

module _ (s t : Stash) (v : IsPaged s) (r : IsReady s t) (c : ℕ) (user : List ℕ)
    (some_bytes : 0 < c) (in_page : c ≤ page_size - s.size % page_size)
    (in_limit : s.size + c ≤ max_size) (in_user : c ≤ length user) where
  pgoff : ℕ
  pgoff = s.size % page_size

  chunk : List ℕ
  chunk = take c user

  length-chunk : length chunk ≡ c
  unfolding chunk
  length-chunk = omega (arith, length-take c user)

  new_last : Page
  new_last = overwrite r.last pgoff chunk

  filled-list : (filled t (s.size % page_size) c user).list ≡ r.front ++ (new_last ∷ [])
  unfolding new_last pgoff chunk
  filled-list =
      ap (update_last (λ pg. overwrite pg (s.size % page_size) (take c user))) r.split
      ∙ update_last-append (λ pg. overwrite pg (s.size % page_size) (take c user)) r.front r.last

  length-new_last : length new_last ≡ page_size
  unfolding new_last pgoff
  length-new_last = omega (
    arith,
    length-append (take pgoff r.last) (chunk ++ drop (pgoff + length chunk) r.last),
    length-append chunk (drop (pgoff + length chunk) r.last),
    length-take pgoff r.last,
    length-drop (pgoff + length chunk) r.last,
    length-chunk,
    r.last_full,
  )

  front_length : length (concat r.front) + s.size % page_size ≡ s.size
  front_length = omega (arith, length-concat r.front r.front_full, r.placed)

  old_contents : contents s ≡ concat r.front ++ take (s.size % page_size) r.last
  old_contents =
      sym r.same_contents
      ∙ ap (λ n. take n (concat t.list)) r.same_size
      ∙ ap (λ l. take s.size (concat l)) r.split
      ∙ ap (take s.size) (concat-append r.front (r.last ∷ []))
      ∙ take-append_ge s.size (s.size % page_size) (concat r.front) (r.last ++ [])
          (omega (arith, front_length))
      ∙ ap (λ p. concat r.front ++ take (s.size % page_size) p) (append-nil r.last)

  new_contents :
      take (s.size + c) (concat (r.front ++ (new_last ∷ [])))
      ≡ concat r.front ++ (take (s.size % page_size) r.last ++ chunk)
  unfolding new_last pgoff
  new_contents =
      ap (take (s.size + c)) (concat-append r.front (new_last ∷ []))
      ∙ take-append_ge (s.size + c) (s.size % page_size + c) (concat r.front) (new_last ++ [])
          (omega (arith, front_length))
      ∙ ap (λ p. concat r.front ++ take (s.size % page_size + c) p) (append-nil new_last)
      ∙ ap (λ p. concat r.front ++ p)
          (take-append_ge (s.size % page_size + c) c (take pgoff r.last)
            (chunk ++ drop (pgoff + length chunk) r.last)
            (omega (arith, length-take pgoff r.last, r.last_full)))
      ∙ ap (λ p. concat r.front ++ (take pgoff r.last ++ p))
          (take-append_le c chunk (drop (pgoff + length chunk) r.last) (omega (arith, length-chunk))
            ∙ take-all c chunk (omega (arith, length-chunk)))

  pages_now : length (filled t (s.size % page_size) c user).list ≡ length r.front + 1
  pages_now = omega (arith, ap length filled-list, length-append r.front (new_last ∷ []))

  pub filled-IsPaged : IsPaged (filled t (s.size % page_size) c user)
  filled-IsPaged = record {
    full =
        subst AllFull (sym filled-list)
          (AllFull-append r.front (new_last ∷ []) r.front_full (length-new_last, tt));
    counted =
        omega (arith, r.counted, ap length r.split, pages_now, length-append r.front (r.last ∷ []));
    enough = omega (arith, pages_now, r.same_size, r.placed);
    tight = omega (arith, pages_now, r.same_size, r.placed);
    limited = omega (arith, r.same_size);
  }

  pub contents-filled : contents (filled t (s.size % page_size) c user) ≡ contents s ++ take c user
  unfolding chunk
  contents-filled =
      ap (λ n. take (n + c) (concat (filled t (s.size % page_size) c user).list)) r.same_size
      ∙ ap (λ l. take (s.size + c) (concat l)) filled-list
      ∙ new_contents
      ∙ sym (append_assoc (concat r.front) (take (s.size % page_size) r.last) chunk)
      ∙ ap (λ p. p ++ chunk) (sym old_contents)
