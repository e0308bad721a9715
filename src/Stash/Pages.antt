-- ===== src/Stash/Pages.antt =====
-- The pages of a stash hold its bytes (crashstash/crashstash.c).
use kernel_stuff.Common.{
  ℕ, ◌+◌, ◌*◌, ◌≤◌, ◌<◌, ◌≡◌, refl, sym, ap, ◌∙◌, List, [], ◌∷◌, ◌++◌, append_assoc, length, arith,
  take, length-append, length-take,
}
use kernel_stuff.Stash.{page_size, max_size, Page, Stash, update_last}

abbrev pub concat : List Page → List ℕ
concat [] = []
concat (p ∷ ps) = p ++ concat ps

abbrev pub AllFull : List Page → Type 0
AllFull [] = Unit
AllFull (p ∷ ps) = (length p ≡ page_size) × AllFull ps

-- The list has exactly the pages that the size needs, each with a whole frame.
pub record IsPaged (s : Stash) : Type 0 where
  pub full : AllFull s.list
  pub counted : s.pages ≡ length s.list
  pub enough : s.size ≤ length s.list * page_size
  pub tight : length s.list * page_size < s.size + page_size
  pub limited : s.size ≤ max_size

-- The bytes that have been stashed.
abbrev pub contents : Stash → List ℕ
contents s = take s.size (concat s.list)

pub length-concat : (ps : List Page) → AllFull ps → length (concat ps) ≡ length ps * page_size
length-concat [] h = refl
length-concat (p ∷ ps) (h, hs) = omega (arith, length-append p (concat ps), length-concat ps hs)

pub concat-append : (ps qs : List Page) → concat (ps ++ qs) ≡ concat ps ++ concat qs
concat-append [] qs = refl
concat-append (p ∷ ps) qs =
    ap (λ r. p ++ r) (concat-append ps qs) ∙ sym (append_assoc p (concat ps) (concat qs))

pub AllFull-append : (ps qs : List Page) → AllFull ps → AllFull qs → AllFull (ps ++ qs)
AllFull-append [] qs h k = k
AllFull-append (p ∷ ps) qs (h, hs) k = (h, AllFull-append ps qs hs k)

pub AllFull-append_left : (ps qs : List Page) → AllFull (ps ++ qs) → AllFull ps × AllFull qs
AllFull-append_left [] qs h = (tt, h)
AllFull-append_left (p ∷ ps) qs (h, hs) = let (l, r) = AllFull-append_left ps qs hs in ((h, l), r)

pub length-contents : (s : Stash) → IsPaged s → length (contents s) ≡ s.size
length-contents s v = omega (arith, length-take s.size (concat s.list), length-concat s.list v.full)

pub update_last-append :
    (f : Page → Page) (front : List Page) (p : Page)
    → update_last f (front ++ (p ∷ [])) ≡ front ++ (f p ∷ [])
unfolding update_last
update_last-append f [] p = refl
update_last-append f (q ∷ []) p = refl
update_last-append f (q ∷ r ∷ front) p = ap (λ l. q ∷ l) (update_last-append f (r ∷ front) p)

pub split_last :
    (p : Page) (ps : List Page) → (front : List Page) × (q : Page) × (p ∷ ps ≡ front ++ (q ∷ []))
split_last p [] = ([], p, refl)
split_last p (q ∷ ps) = let (front, r, e) = split_last q ps in (p ∷ front, r, ap (λ l. p ∷ l) e)
