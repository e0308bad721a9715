-- ===== src/Negdent/Workers/Invariant.antt =====
-- What holds of the threads of negdentcreate in every state, when they do not loop.
use kernel_stuff.Common.{
  ℕ, ◌+◌, ◌-◌, ◌*◌, ◌^◌, ◌≤◌, ◌<◌, ◌≡◌, refl, ◌≢◌, ◌⊎◌, inl, inr, Bool, true, false, not, ◌&&◌,
  List, [], ◌∷◌, ltb, ◌==◌, ==_iff, arith, Bool-cases,
}
use kernel_stuff.Negdent.{Work}
use kernel_stuff.Negdent.Workers.Family.{sum_below, sum_below_mono}
use kernel_stuff.Negdent.Workers.{
  Phase, opening, testing, working, counting, deciding, finished, cancelled, Worker, worker_from,
  log_from, made, detected, interrupted, all_done, MainPhase, creating, sampling, looping, judging,
  judged, System,
}

-- The number is in the log.
abbrev pub Logged : ℕ → List ℕ → Type 0
Logged x [] = ⊥
Logged x (y ∷ trace) = (x ≡ y) ⊎ Logged x trace

-- A thread has done the files of its range before `cur`, and no other has been counted.
pub record IsSound (w : Work) (trace : List ℕ) (k : Worker) : Type 0 where
  pub low : w.start ≤ k.cur
  pub high : k.cur ≤ w.stop_at
  pub uncounted : k.cnt ≡ 0
  pub busy : k.phase ≡ working → k.cur < w.stop_at
  pub fresh : k.phase ≡ opening → k.cur ≡ w.start
  pub logged : (x : ℕ) → w.start ≤ x → x < k.cur → Logged x trace

pub made-IsSound : (w : Work) (trace : List ℕ) → w.start ≤ w.stop_at → IsSound w trace (made w)
made-IsSound w trace h = record {
  low = omega arith;
  high = h;
  uncounted = refl;
  busy = λ e. cc;
  fresh = λ e. refl;
  logged = λ x l u. absurd (omega arith);
}

-- What a step of a thread keeps or lets grow.
pub record Grows (k k' : Worker) : Type 0 where
  pub further : k.cur ≤ k'.cur
  pub still_failed : k.error ≢ 0 → k'.error ≢ 0

pub log_from-Logged :
    (phase : Phase) (returns : Bool) (cur x : ℕ) (trace : List ℕ)
    → Logged x trace
    → Logged x (log_from phase returns cur trace)
log_from-Logged opening returns cur x trace h = h
log_from-Logged testing returns cur x trace h = h
log_from-Logged working true cur x trace h = inr h
log_from-Logged working false cur x trace h = h
log_from-Logged counting returns cur x trace h = h
log_from-Logged deciding returns cur x trace h = h
log_from-Logged finished returns cur x trace h = h
log_from-Logged cancelled returns cur x trace h = h

pub IsSound-log :
    (w : Work) (k : Worker) (trace trace' : List ℕ)
    → ((x : ℕ) → Logged x trace → Logged x trace')
    → IsSound w trace k
    → IsSound w trace' k
IsSound-log w k trace trace' more v = record {
  low = v.low;
  high = v.high;
  uncounted = v.uncounted;
  busy = v.busy;
  fresh = v.fresh;
  logged = λ x l u. more x (v.logged x l u);
}

-- A change of the phase, or of `error`.
pub IsSound-move :
    (w : Work) (trace : List ℕ) (k : Worker) (err : ℕ) (p : Phase)
    → (p ≡ working → k.cur < w.stop_at)
    → p ≢ opening
    → IsSound w trace k
    → IsSound w trace (record k { error = err; phase = p })
IsSound-move w trace k err p h not_new v = record {
  low = v.low;
  high = v.high;
  uncounted = v.uncounted;
  busy = h;
  fresh = λ e. absurd (not_new e);
  logged = v.logged;
}

-- A thread keeps the invariant by its own steps.
pub worker_from-IsSound :
    (phase : Phase) (exiting returns : Bool) (w : Work) (trace : List ℕ) (k : Worker)
    → k.phase ≡ phase
    → IsSound w trace k
    → IsSound w (log_from phase returns k.cur trace) (worker_from phase false exiting returns w k)
unfolding worker_from
worker_from-IsSound opening exiting true w trace k e v = record {
  low = omega arith;
  high = omega (arith, v.low, v.high);
  uncounted = v.uncounted;
  busy = λ e'. cc;
  fresh = λ e'. cc;
  logged = λ x l u. absurd (omega arith);
}
worker_from-IsSound opening exiting false w trace k e v =
    IsSound-move w trace k 1 finished (λ e'. cc) (λ e'. cc) v
worker_from-IsSound testing exiting returns w trace k e v =
    elim (Bool-cases (ltb k.cur w.stop_at && not exiting)) [
      | inl more ↦ rw more (IsSound-move w trace k k.error working (λ _. ground arith) (λ e'. cc) v)
      | inr over ↦ rw over (IsSound-move w trace k k.error counting (λ e'. cc) (λ e'. cc) v)
    ]
worker_from-IsSound working exiting true w trace k e v = record {
  low = omega (arith, v.low);
  high = omega (arith, v.busy e);
  uncounted = v.uncounted;
  busy = λ e'. cc;
  fresh = λ e'. cc;
  logged = λ x l u. elim (Bool-cases (x == k.cur)) [
    | inl now ↦ inl ((==_iff x k.cur).0 now)
    | inr before ↦ inr (v.logged x l (ground arith))
  ];
}
worker_from-IsSound working exiting false w trace k e v =
    IsSound-move w trace k 1 finished (λ e'. cc) (λ e'. cc) v
worker_from-IsSound counting exiting returns w trace k e v =
    IsSound-move w trace k k.error deciding (λ e'. cc) (λ e'. cc) v
worker_from-IsSound deciding exiting returns w trace k e v =
    IsSound-move w trace k k.error finished (λ e'. cc) (λ e'. cc) v
worker_from-IsSound finished exiting returns w trace k e v = v
worker_from-IsSound cancelled exiting returns w trace k e v = v

pub worker_from-Grows :
    (phase : Phase) (exiting returns : Bool) (w : Work) (trace : List ℕ) (k : Worker)
    → k.phase ≡ phase
    → IsSound w trace k
    → Grows k (worker_from phase false exiting returns w k)
unfolding worker_from
worker_from-Grows opening exiting true w trace k e v = ground (arith, v.fresh e)
worker_from-Grows opening exiting false w trace k e v = record {
  further = omega arith;
  still_failed = λ _. omega arith;
}
worker_from-Grows testing exiting returns w trace k e v = record {
  further = omega arith;
  still_failed = λ f. f;
}
worker_from-Grows working exiting true w trace k e v = record {
  further = omega arith;
  still_failed = λ f. f;
}
worker_from-Grows working exiting false w trace k e v = record {
  further = omega arith;
  still_failed = λ _. omega arith;
}
worker_from-Grows counting exiting returns w trace k e v = record {
  further = omega arith;
  still_failed = λ f. f;
}
worker_from-Grows deciding exiting returns w trace k e v = record {
  further = omega arith;
  still_failed = λ f. f;
}
worker_from-Grows finished exiting returns w trace k e v = record {
  further = omega arith;
  still_failed = λ f. f;
}
worker_from-Grows cancelled exiting returns w trace k e v = record {
  further = omega arith;
  still_failed = λ f. f;
}

-- The threads share `increment * n` files, in ranges of `increment`.
module _ (n increment : ℕ) (work : ℕ → Work) where
  -- The ranges that `main` gives to the threads, without a wrap.
  abbrev pub IsSplit : Type 0
  IsSplit =
      (n * increment < 2 ^ 64)
      × ((i : ℕ)
          → i < n
          → ((work i).start ≡ i * increment) × ((work i).stop_at ≡ i * increment + increment))

  abbrev pub AllSound : System → Type 0
  AllSound s = (i : ℕ) → i < n → IsSound (work i) s.trace (s.workers i)

  -- The number of files that thread `i` is done with.
  abbrev pub done_of : System → ℕ → ℕ
  done_of s i = (s.workers i).cur - (work i).start

  abbrev pub HasFailed : System → Type 0
  HasFailed s = (i : ℕ) × (i < n) × ((s.workers i).error ≢ 0)

  -- What `main` knows in each of its phases.
  abbrev pub Knows : System → MainPhase → Type 0
  Knows s (creating i) = i ≤ n
  Knows s (sampling i progress err) =
      (i ≤ n) × (progress ≤ sum_below i (done_of s)) × (err ≢ 0 → HasFailed s)
  Knows s (looping progress err) = (progress ≤ sum_below n (done_of s)) × (err ≢ 0 → HasFailed s)
  Knows s (judging err) =
      (err ≢ 0 → HasFailed s)
      × (err ≡ 0 → (s.exiting ≡ true) ⊎ (n * increment ≤ sum_below n (done_of s)))
  Knows s (judged detected) = HasFailed s
  Knows s (judged interrupted) = s.exiting ≡ true
  Knows s (judged all_done) = n * increment ≤ sum_below n (done_of s)

  -- A state from which every thread has gone on, and `exiting` has not been cleared.
  pub record Later (s t : System) : Type 0 where
    pub grown : (i : ℕ) → i < n → Grows (s.workers i) (t.workers i)
    pub still_exiting : s.exiting ≡ true → t.exiting ≡ true

  Later-sum :
      (s t : System)
      → Later s t
      → (i : ℕ) → i ≤ n
      → sum_below i (done_of s) ≤ sum_below i (done_of t)
  Later-sum s t l i h =
      sum_below_mono i (done_of s) (done_of t)
        (λ j lt. omega (arith, (l.grown j (omega arith)).further))

  Later-HasFailed : (s t : System) → Later s t → HasFailed s → HasFailed t
  Later-HasFailed s t l (i, lt, failed) = (i, lt, (l.grown i lt).still_failed failed)

  pub Later-Knows : (s t : System) (m : MainPhase) → Later s t → Knows s m → Knows t m
  Later-Knows s t (creating i) l k = k
  Later-Knows s t (sampling i progress err) l (h, p, f) =
      (h, omega (arith, Later-sum s t l i h), λ e. Later-HasFailed s t l (f e))
  Later-Knows s t (looping progress err) l (p, f) =
      (omega (arith, Later-sum s t l n (omega arith)), λ e. Later-HasFailed s t l (f e))
  Later-Knows s t (judging err) l (f, d) = (
    λ e. Later-HasFailed s t l (f e),
    λ e. elim (d e) [
      | inl x ↦ inl (l.still_exiting x)
      | inr full ↦ inr (omega (arith, Later-sum s t l n (omega arith)))
    ],
  )
  Later-Knows s t (judged detected) l k = Later-HasFailed s t l k
  Later-Knows s t (judged interrupted) l k = l.still_exiting k
  Later-Knows s t (judged all_done) l k = omega (arith, Later-sum s t l n (omega arith))
