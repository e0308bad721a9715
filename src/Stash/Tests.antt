-- ===== src/Stash/Tests.antt =====
-- The operations at concrete data (crashstash/crashstash.c).
use kernel_stuff.Common.{
  ℕ, suc, ◌≤◌, ◌≡◌, refl, ap, Option, some, List, [], ◌∷◌, arith, replicate, length-replicate,
}
use kernel_stuff.Common.Run.{Run, ok, ◌>>=◌}
use kernel_stuff.Stash.{
  Page, Stash, rdonly, efault, bytes, error, open_stash, release, update_last, get_page, write_loop,
  write, Reading, seek_page, read_loop, read, initial,
}
use kernel_stuff.Stash.Pages.{IsPaged}
use kernel_stuff.Stash.Fill.{Allocates}
use kernel_stuff.Stash.Write.{HasWritten, published, write-contents}
use kernel_stuff.Stash.Read.{read-contents}
use kernel_stuff.Stash.Session.{
  opened, Reach, here, next, Reach-count, Reach-release, stash_away, retrieve, retrieve-stash_away,
}
use kernel_stuff.Stash.Fault.{fault-with_page, with_page, zero_filled}

-- Frames that hold old bytes.
abbrev frame : Page
frame = replicate 4096 0xaa

abbrev frames : ℕ → Option Page
frames n = some frame

frames-Allocates : Allocates frames
frames-Allocates n = (frame, refl, length-replicate {A = ℕ} 4096 0xaa)

abbrev user : List ℕ
user = 7 ∷ 8 ∷ 9 ∷ []

initial-IsPaged : IsPaged initial
initial-IsPaged = record {
  full = tt;
  counted = refl;
  enough = omega arith;
  tight = omega arith;
  limited = omega arith;
}

-- A stash that holds two bytes.
abbrev held : Stash
held = record {
  count = 1;
  list = (5 ∷ 6 ∷ replicate 4094 0xaa) ∷ [];
  size = 2;
  pages = 1;
  proc_size = 2;
  allocs = 1;
}

held-IsPaged : IsPaged held
held-IsPaged = record {
  full = (ap (λ n. suc (suc n)) (length-replicate {A = ℕ} 4094 0xaa), tt);
  counted = refl;
  enough = omega arith;
  tight = omega arith;
  limited = omega arith;
}

write-contents_example :
    (t : Stash) × (write frames held 2 user 3
      ≡ ok (record { stash = published t; off = 5; ret = bytes 3 }))
    × HasWritten held user 3 (published t)
write-contents_example =
    write-contents frames held user 3 frames-Allocates held-IsPaged (omega arith) (omega arith)
      (omega arith)

read-contents_example : read held 1 10 8 ≡ ok (record { off = 2; ret = bytes 1; copied = 6 ∷ [] })
read-contents_example =
    read-contents held 1 10 8 held-IsPaged (omega arith) (omega arith) (omega arith)

retrieve-stash_away_example :
    (stash_away frames initial user >>= λ t. retrieve t 2 8)
    ≡ ok (record { off = 2; ret = bytes 2; copied = 7 ∷ 8 ∷ [] })
retrieve-stash_away_example =
    retrieve-stash_away frames initial user 2 8 frames-Allocates refl (omega arith) (omega arith)
      (omega arith)

abbrev reading : Stash
reading = record initial { count = 1 }

opened_once : Reach frames (initial, 0) (reading, 1)
unfolding open_stash
opened_once = next here (opened rdonly refl)

Reach-count_example : (reading.count ≡ 1) × (1 ≤ 1)
Reach-count_example = Reach-count frames opened_once

Reach-release_example : release reading ≡ ok (record reading { count = 0 })
Reach-release_example = Reach-release frames opened_once

fault-with_page_example :
    (write frames initial 0 [] 4
      ≡ ok
          (record { stash = with_page initial (zero_filled frame 4); off = 0; ret = error efault }))
    × (¬ IsPaged (with_page initial (zero_filled frame 4)))
fault-with_page_example =
    fault-with_page frames initial frame refl 4 initial-IsPaged refl (omega arith) (omega arith)
      (omega arith)

-- After such a write the next one stores its bytes behind the page that was left, and a read from
-- the start gives zeros.
retry : Run Reading
retry = do w ← write frames initial 0 [] 4; w' ← write frames w.stash 0 user 3; read w'.stash 0 3 8

retry_lost : retry ≡ ok (record { off = 3; ret = bytes 3; copied = 0 ∷ 0 ∷ 0 ∷ [] })
unfolding retry write write_loop get_page update_last read read_loop seek_page
retry_lost = refl
