-- ===== src/Negdent/Workers/Safety.antt =====
-- What the verdict of `main` in negdentcreate says of the threads.
use mathlib.Core.Path.{subst}
use kernel_stuff.Common.{
  ℕ, ◌+◌, ◌*◌, ◌≤◌, ◌<◌, ◌≡◌, refl, ap, ◌≢◌, ◌⊎◌, inl, inr, Bool, true, false, not, ◌&&◌, ◌||◌, [],
  ltb, ltb→lt, ◌==◌, ==_iff, if◌then◌else◌, arith, Bool-cases,
}
use kernel_stuff.Negdent.{Work}
use kernel_stuff.Negdent.Workers.Family.{
  range_end-le, sum_below-add_one, update, sum_below, sum_below-le, sum_below_full, range_of,
}
use kernel_stuff.Negdent.Workers.{
  status, cancelled, Verdict, detected, interrupted, all_done, MainPhase, creating, sampling,
  looping, judging, judged, System, add_progress, main_from, turn_of, Step, turn, main_turn,
  interrupt, cancel, Reach, start, later,
}
use kernel_stuff.Negdent.Workers.Invariant.{
  Logged, made-IsSound, log_from-Logged, IsSound-log, IsSound-move, worker_from-IsSound,
  worker_from-Grows, IsSplit, AllSound, done_of, HasFailed, Knows, Later, Later-Knows,
}

module _ (n increment : ℕ) (work : ℕ → Work) (is_split : IsSplit n increment work) where
  turn_of-AllSound :
      (s : System) (i : ℕ) (returns : Bool)
      → AllSound n increment work s
      → AllSound n increment work (turn_of n work (n * increment) false i returns s)
  unfolding turn_of
  turn_of-AllSound s i returns all j lt = elim (Bool-cases (i == j)) [
    | inl same ↦
        let at : i ≡ j = (==_iff i j).0 same in
        rw same (
          rw at (
            worker_from-IsSound (s.workers j).phase s.exiting returns (work j) s.trace (s.workers j)
              refl (all j lt)))
    | inr other ↦ rw other (
        IsSound-log (work j) (s.workers j) s.trace _
          (λ x h. log_from-Logged (s.workers i).phase returns (s.workers i).cur x s.trace h)
          (all j lt))
  ]

  turn_of-Later :
      (s : System) (i : ℕ) (returns : Bool)
      → AllSound n increment work s
      → Later n increment work s (turn_of n work (n * increment) false i returns s)
  unfolding turn_of
  turn_of-Later s i returns all = record {
    grown = λ j lt. elim (Bool-cases (i == j)) [
      | inl same ↦
          let at : i ≡ j = (==_iff i j).0 same in
          rw same (
            rw at (
              worker_from-Grows (s.workers j).phase s.exiting returns (work j) s.trace (s.workers j)
                refl (all j lt)))
      | inr other ↦ rw other (record { further = omega arith; still_failed = λ f. f })
    ];
    still_exiting = λ e. e;
  }

  add_progress-le :
      (s : System) (i progress : ℕ)
      → i < n
      → AllSound n increment work s
      → add_progress progress (work i) (s.workers i) ≤ progress + done_of n increment work s i
  unfolding add_progress
  add_progress-le s i progress lt all =
      let v = all i lt in
      let (_, ends) = is_split.1 i lt in
      rw v.uncounted (omega (arith, v.low, v.high, ends, range_end-le n increment i lt, is_split.0))

  main_from-Knows :
      (s : System) (m : MainPhase)
      → AllSound n increment work s
      → Knows n increment work s m
      → Knows n increment work s (main_from n work (n * increment) false m s)
  unfolding main_from
  main_from-Knows s (creating i) all k = elim (Bool-cases (ltb i n)) [
    | inl more ↦ rw more (ground arith)
    | inr last ↦ rw last (omega arith, omega arith, λ e. absurd (e refl))
  ]
  main_from-Knows s (sampling i progress err) all (h, p, f) = elim (Bool-cases (ltb i n)) [
    | inl more ↦
        let lt : i < n = ltb→lt i n more in
        rw more (
          omega arith,
          omega (
            arith,
            add_progress-le s i progress lt all,
            sum_below-add_one i (done_of n increment work s),
          ),
          λ e. elim (Bool-cases (err == 0)) [
            | inl none_yet ↦ (i, lt, λ z. e (ground arith))
            | inr some_yet ↦ f (ground arith)
          ],
        )
    | inr last ↦
        let at : i ≡ n = ground arith in
        rw last (omega (arith, ap (λ m. sum_below m (done_of n increment work s)) at), f)
  ]
  main_from-Knows s (looping progress err) all (p, f) =
      elim (Bool-cases ((ltb progress (n * increment) || false) && (err == 0 && not s.exiting))) [
        | inl again ↦ rw again (omega arith, omega arith, λ e. absurd (e refl))
        | inr out ↦ rw out (f, λ e. why e (ltb progress (n * increment)) refl s.exiting refl out)
      ]
    where
      why :
          err ≡ 0
          → (b : Bool) → ltb progress (n * increment) ≡ b
          → (x : Bool) → s.exiting ≡ x
          → ((b || false) && (err == 0 && not x)) ≡ false
          → (s.exiting ≡ true) ⊎ (n * increment ≤ sum_below n (done_of n increment work s))
      why e b eb true ex out' = inl ex
      why e true eb false ex out' =
          let zero_test : (err == 0) ≡ true = (==_iff err 0).1 e in
          let o : ◌≡◌ {A = Bool} true false = rw zero_test at out' in cc
      why e false eb false ex out' = inr (ground arith)
  main_from-Knows s (judging err) all (f, d) = elim (Bool-cases (err == 0)) [
    | inl clean ↦ rw clean (verdict s.exiting refl (d ((==_iff err 0).0 clean)))
    | inr failed ↦ rw failed (f (λ z. cc ((==_iff err 0).1 z)))
  ]
    where
      verdict :
          (x : Bool)
          → s.exiting ≡ x
          → (s.exiting ≡ true) ⊎ (n * increment ≤ sum_below n (done_of n increment work s))
          → Knows n increment work s (judged (if x then interrupted else all_done))
      verdict true ex d' = ex
      verdict false ex (inl on) = cc
      verdict false ex (inr full) = full
  main_from-Knows s (judged v) all k = k

  abbrev Holds : System → Type 0
  Holds s = AllSound n increment work s × Knows n increment work s s.main_phase

  cancel-AllSound :
      (s : System) (i : ℕ)
      → AllSound n increment work s
      → AllSound n increment work
          (record s { workers = update s.workers i (record (s.workers i) { phase = cancelled }) })
  cancel-AllSound s i all j lt = elim (Bool-cases (i == j)) [
    | inl same ↦
        let at : i ≡ j = (==_iff i j).0 same in
        rw same (
          rw at (
            IsSound-move (work j) s.trace (s.workers j) (s.workers j).error cancelled (λ e. cc)
              (λ e. cc) (all j lt)))
    | inr other ↦ rw other (all j lt)
  ]

  cancel-Later :
      (s : System) (i : ℕ)
      → Later n increment work s
          (record s { workers = update s.workers i (record (s.workers i) { phase = cancelled }) })
  cancel-Later s i = record {
    grown = λ j lt. elim (Bool-cases (i == j)) [
      | inl same ↦
          let at : i ≡ j = (==_iff i j).0 same in
          rw same (rw at (record { further = omega arith; still_failed = λ f. f }))
      | inr other ↦ rw other (record { further = omega arith; still_failed = λ f. f })
    ];
    still_exiting = λ e. e;
  }

  Step-Holds : {s t : System} → Step n work (n * increment) false s t → Holds s → Holds t
  Step-Holds {s} (turn i returns made_) (all, k) = (
    turn_of-AllSound s i returns all,
    unfold turn_of in
        Later-Knows n increment work s (turn_of n work (n * increment) false i returns s)
          s.main_phase (turn_of-Later s i returns all) k,
  )
  Step-Holds {s} main_turn (all, k) = (all, main_from-Knows s s.main_phase all k)
  Step-Holds {s} (interrupt free) (all, k) = (
    all,
    Later-Knows n increment work s (record s { exiting = true }) s.main_phase
        (record {
          grown = λ i lt. record { further = omega arith; still_failed = λ f. f };
          still_exiting = λ e. refl;
        })
        k,
  )
  Step-Holds {s} (cancel i asked clean) (all, k) =
      (cancel-AllSound s i all, Later-Knows n increment work s _ s.main_phase (cancel-Later s i) k)

  Reach-Holds : {s : System} → Reach n work (n * increment) false s → Holds s
  Reach-Holds start = (
    λ i lt. made-IsSound (work i) [] (let (low, high) = is_split.1 i lt in omega arith),
    omega arith,
  )
  Reach-Holds (later r st) = Step-Holds st (Reach-Holds r)

  done_of-le : (s : System) → Holds s → (i : ℕ) → i < n → done_of n increment work s i ≤ increment
  done_of-le s (all, k) i lt = let (low, high) = is_split.1 i lt in omega (arith, (all i lt).high)

  -- When threads that do not loop have been told to be done, an operation has returned 0 on the
  -- file of every number below the number of files.
  pub Reach-all_done :
      {s : System}
      → Reach n work (n * increment) false s
      → s.main_phase ≡ judged all_done
      → (x : ℕ) → x < n * increment
      → Logged x s.trace
  Reach-all_done {s} r e x lt =
      let (i, inner, low, high) = range_of n increment x lt in
      let full : Knows n increment work s (judged all_done) =
        subst (Knows n increment work s) e (Reach-Holds r).1 in
      let whole : done_of n increment work s i ≡ increment =
        sum_below_full n increment (done_of n increment work s) (done_of-le s (Reach-Holds r)) full
          i inner in
      let (at, _) = is_split.1 i inner in
      ((Reach-Holds r).0 i inner).logged x (omega arith) (omega arith)

  -- The progress that `main` prints is never more than the number of files.
  pub Reach-progress :
      {s : System} (progress err : ℕ)
      → Reach n work (n * increment) false s
      → s.main_phase ≡ looping progress err
      → progress ≤ n * increment
  Reach-progress {s} progress err r e =
      let known : Knows n increment work s (looping progress err) =
        subst (Knows n increment work s) e (Reach-Holds r).1 in
      omega (
        arith,
        known.0,
        sum_below-le n increment (done_of n increment work s) (done_of-le s (Reach-Holds r)),
      )

  -- `main` returns a failure only if a thread has an error, or after SIGINT.
  pub Reach-failure :
      {s : System} (v : Verdict)
      → Reach n work (n * increment) false s
      → s.main_phase ≡ judged v
      → status v ≢ 0
      → HasFailed n increment work s ⊎ (s.exiting ≡ true)
  Reach-failure {s} detected r e h = inl (subst (Knows n increment work s) e (Reach-Holds r).1)
  Reach-failure {s} interrupted r e h = inr (subst (Knows n increment work s) e (Reach-Holds r).1)
  Reach-failure {s} all_done r e h = absurd (h refl)
