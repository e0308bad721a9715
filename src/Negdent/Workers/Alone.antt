-- ===== src/Negdent/Workers/Alone.antt =====
-- A thread of negdentcreate that runs with no failing call, no loop and no signal.
use kernel_stuff.Common.{
  ℕ, zero, suc, ◌+◌, ◌*◌, ◌≡◌, ap, ◌∙◌, true, false, ◌&&◌, List, [], ◌∷◌, ◌++◌, append-nil, ltb,
  if◌then◌else◌, arith,
}
use kernel_stuff.Negdent.{Work}
use kernel_stuff.Negdent.Workers.{
  Phase, testing, working, counting, finished, Worker, worker_from, worker_step, log_from, made,
}

-- A thread and its log after so many steps.
unfoldable pub alone : ℕ → Work → Worker → List ℕ → Worker × List ℕ
unfolding worker_from
alone zero w k trace = (k, trace)
alone (suc steps) w k trace =
    alone steps w (worker_step false false true w k) (log_from k.phase true k.cur trace)

-- The `m` numbers from `a` on, the last first.
abbrev pub down : ℕ → ℕ → List ℕ
down a zero = []
down a (suc m) = (a + m) ∷ down a m

down-append : (a m : ℕ) (rest : List ℕ) → down (a + 1) m ++ (a ∷ rest) ≡ down a (suc m) ++ rest
down-append a zero rest = ap (λ x. x ∷ rest) (omega arith)
down-append a (suc m) rest =
    ap (λ x. x ∷ (down (a + 1) m ++ (a ∷ rest))) {x = a + 1 + m} {y = a + suc m} (omega arith)
    ∙ ap (λ l. (a + suc m) ∷ l) (down-append a m rest)

-- The steps from the test of the inner loop on, with `m` files left.
steps : ℕ → ℕ
steps zero = 3
steps (suc m) = suc (suc (steps m))

steps_lem : (m : ℕ) → steps m ≡ 2 * m + 3
unfolding steps
steps_lem zero = omega arith
steps_lem (suc m) = omega (arith, steps_lem m)

abbrev pub at_phase : ℕ → Phase → Worker
at_phase cur phase = record { cur = cur; cnt = 0; error = 0; phase = phase }

alone-testing :
    (m : ℕ) (w : Work) (cur : ℕ) (trace : List ℕ)
    → cur + m ≡ w.stop_at
    → alone (steps m) w (at_phase cur testing) trace
      ≡ (at_phase w.stop_at finished, down cur m ++ trace)
unfolding alone steps worker_from
alone-testing zero w cur trace e =
    let over : ltb cur w.stop_at ≡ false = ground arith in
    let here : cur ≡ w.stop_at = omega arith in
    ap (λ b. alone 2 w (at_phase cur (if b && true then working else counting)) trace) over
    ∙ ap (λ c. (at_phase c finished, trace)) here
alone-testing (suc m) w cur trace e =
    let more : ltb cur w.stop_at ≡ true = ground arith in
    ap (λ b. alone (suc (steps m)) w (at_phase cur (if b && true then working else counting)) trace)
      more
    ∙ alone-testing m w (cur + 1) (cur ∷ trace) (omega arith)
    ∙ ap (λ l. (at_phase w.stop_at finished, l)) (down-append cur m trace)

-- A thread that runs with no failing call, no loop and no signal ends after two steps for each file
-- and four more, with every file of its range done once, in order, and no error.
pub alone_lem :
    (m : ℕ) (w : Work)
    → w.start + m ≡ w.stop_at
    → alone (2 * m + 4) w (made w) [] ≡ (at_phase w.stop_at finished, down w.start m)
unfolding alone worker_from
alone_lem m w e =
    ap (λ n. alone n w (made w) []) {x = 2 * m + 4} {y = suc (steps m)} (omega (arith, steps_lem m))
    ∙ alone-testing m w w.start [] e
    ∙ ap (λ l. (at_phase w.stop_at finished, l)) (append-nil (down w.start m))
