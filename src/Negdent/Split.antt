-- ===== src/Negdent/Split.antt =====
-- How negdentcreate divides the files among its threads.
use kernel_stuff.Common.{
  ℕ, zero, suc, ◌+◌, ◌-◌, ◌*◌, ◌/◌, ◌%◌, ◌^◌, ◌≤◌, ◌<◌, ◌≡◌, ap, ◌∙◌, true, false, List, [], ◌∷◌,
  ◌++◌, ltb, ◌==◌, arith,
}
use kernel_stuff.Common.Run.{ok}
use kernel_stuff.Negdent.{Config, Work, work_of, make_works, split}
use kernel_stuff.Negdent.Workers.Family.{range_end-le}
use kernel_stuff.Negdent.Workers.Invariant.{IsSplit}

-- The `m` numbers from `a` on.
abbrev pub upto : ℕ → ℕ → List ℕ
upto a zero = []
upto a (suc m) = a ∷ upto (a + 1) m

upto-append : (a b m n : ℕ) → a + m ≡ b → upto a m ++ upto b n ≡ upto a (m + n)
upto-append a b zero n e =
    ap (λ x. upto x n) {x = b} {y = a} (omega arith) ∙ ap (upto a) (omega arith)
upto-append a b (suc m) n e =
    ap (λ l. a ∷ l) (upto-append (a + 1) b m n (omega arith))
    ∙ ap (upto a) {x = suc (m + n)} {y = suc m + n} (omega arith)

-- The numbers of the files of all works, in order.
abbrev pub numbers : List Work → List ℕ
numbers [] = []
numbers (w ∷ ws) = upto w.start (w.stop_at - w.start) ++ numbers ws

work_of-range :
    (c : Config) (n increment i : ℕ)
    → n * increment < 2 ^ 64
    → i < n
    → ((work_of c increment i).start ≡ i * increment)
      × ((work_of c increment i).stop_at ≡ i * increment + increment)
unfolding work_of
work_of-range c n increment i small lt = omega (arith, range_end-le n increment i lt)

numbers-make_works :
    (c : Config) (n increment left i : ℕ)
    → n * increment < 2 ^ 64
    → i + left ≡ n
    → numbers (make_works c increment left i) ≡ upto (i * increment) (left * increment)
unfolding make_works
numbers-make_works c n increment zero i small e =
    ap (upto (i * increment)) {x = 0} {y = 0 * increment} (omega arith)
numbers-make_works c n increment (suc left) i small e =
    let (low, high) = work_of-range c n increment i small (omega arith) in
    ap (λ l. l ++ numbers (make_works c increment left (i + 1)))
      (ap (λ a. upto a ((work_of c increment i).stop_at - (work_of c increment i).start)) low
        ∙ ap (upto (i * increment)) (omega arith))
    ∙ ap (λ l. upto (i * increment) increment ++ l)
        (numbers-make_works c n increment left (i + 1) small (omega arith))
    ∙ upto-append (i * increment) ((i + 1) * increment) increment (left * increment) (omega arith)
    ∙ ap (upto (i * increment)) (omega arith)

-- With at least one thread, the files are dealt out: the ranges of the works, one after the other,
-- are the numbers from 0 to the number of files, each once. That number is the count that was asked
-- for, less what is left over by the division, and it is `main`'s final `count`.
pub split-numbers :
    (c : Config)
    → 0 < c.nthread
    → c.nthread < 2 ^ 31
    → c.total < 2 ^ 64
    → (works : List Work) × (total : ℕ) × (split c ≡ ok (works, total))
      × (numbers works ≡ upto 0 total)
      × (total ≤ c.total)
      × (c.total < total + c.nthread)
unfolding split
split-numbers c some_thread small fits =
    let n : ℕ = c.nthread in
    let increment : ℕ = c.total / n in
    let some_test : (n == 0) ≡ false = ground arith in
    let small_test : ltb n (2 ^ 31) ≡ true = ground arith in
    let kept : n * increment ≤ c.total = grind arith in
    let left_over : c.total < n * increment + n = grind arith in
    let whole : increment * n % 2 ^ 64 ≡ n * increment = omega arith in
    (
      make_works c increment n 0,
      n * increment,
      rw (some_test, small_test) (ap (λ t. ok (make_works c increment n 0, t)) whole),
      numbers-make_works c n increment n 0 (omega arith) (omega arith)
          ∙ ap (λ a. upto a (n * increment)) {x = 0 * increment} {y = 0} (omega arith),
      kept,
      left_over,
    )

-- The ranges do not wrap.
pub work_of-IsSplit :
    (c : Config) (n increment : ℕ)
    → n * increment < 2 ^ 64
    → IsSplit n increment (work_of c increment)
work_of-IsSplit c n increment small = (small, λ i lt. work_of-range c n increment i small lt)
