-- ===== src/Negdent/Workers.antt =====
-- The threads of negdentcreate/negdentcreate.c: `stat_worker`, and `main` from the loop that makes
-- the threads on. A step of a thread is one access to what the threads share, or one call; `arg->op` and
-- the increment of `arg->cur` behind it are one step, and so are the reads of one `struct work` by `main`.
pub mod Family
pub mod Invariant
pub mod Safety
pub mod Alone
pub mod Blame
use kernel_stuff.Common.{
  ℕ, ◌+◌, ◌-◌, ◌*◌, ◌%◌, ◌^◌, ◌<◌, ◌≡◌, Bool, true, false, not, ◌&&◌, ◌||◌, List, [], ◌∷◌, ltb,
  ◌==◌, if◌then◌else◌,
}
use kernel_stuff.Negdent.{Work}
use kernel_stuff.Negdent.Workers.Family.{update}

-- Where a thread is: before `open`, at the test of the inner loop, in `arg->op`, before `arg->cnt++`,
-- at the test of the outer loop, or after its end.
pub data Phase : Type 0 where
  opening testing working counting deciding finished cancelled : Phase

-- What changes in a `struct work`.
pub record Worker : Type 0 where
  pub cur : ℕ
  pub cnt : ℕ
  pub error : ℕ
  pub phase : Phase

-- One step of `stat_worker` from a phase. `returns` is whether the call of that step, `open` or
-- `arg->op`, succeeds. A count that passes the test is below `stop`, so adding one cannot wrap.
unfoldable pub worker_from : Phase → (loop exiting returns : Bool) → Work → Worker → Worker
worker_from opening loop exiting returns w k =
    if returns
    then record k { cur = w.start; phase = testing }
    else record k { error = 1; phase = finished }
worker_from testing loop exiting returns w k = record k {
  phase = if ltb k.cur w.stop_at && not exiting then working else counting;
}
worker_from working loop exiting returns w k =
    if returns
    then record k { cur = k.cur + 1; phase = testing }
    else record k { error = 1; phase = finished }
worker_from counting loop exiting returns w k = record k {
  cnt = if loop then (k.cnt + 1) % 2 ^ 64 else k.cnt;
  phase = deciding;
}
worker_from deciding loop exiting returns w k =
    if loop && not exiting
    then record k { cur = w.start; phase = testing }
    else record k { phase = finished }
worker_from finished loop exiting returns w k = k
worker_from cancelled loop exiting returns w k = k

abbrev pub worker_step : (loop exiting returns : Bool) → Work → Worker → Worker
worker_step loop exiting returns w k = worker_from k.phase loop exiting returns w k

-- The numbers of the files on which an operation has returned 0, the last first.
abbrev pub log_from : Phase → Bool → ℕ → List ℕ → List ℕ
log_from working true cur trace = cur ∷ trace
log_from working false cur trace = trace
log_from opening returns cur trace = trace
log_from testing returns cur trace = trace
log_from counting returns cur trace = trace
log_from deciding returns cur trace = trace
log_from finished returns cur trace = trace
log_from cancelled returns cur trace = trace

-- The threads in which a call has failed, the last first.
abbrev pub fail_from : Phase → Bool → ℕ → List ℕ → List ℕ
fail_from opening false i failed = i ∷ failed
fail_from opening true i failed = failed
fail_from working false i failed = i ∷ failed
fail_from working true i failed = failed
fail_from testing returns i failed = failed
fail_from counting returns i failed = failed
fail_from deciding returns i failed = failed
fail_from finished returns i failed = failed
fail_from cancelled returns i failed = failed

-- A `struct work` when its thread is made.
abbrev pub made : Work → Worker
made w = record { cur = w.start; cnt = 0; error = 0; phase = opening }

pub data Verdict : Type 0 where
  detected interrupted all_done : Verdict

-- Where `main` is: before it makes thread `i`; before it reads the work of thread `i`, with
-- `progress` and `err`; at the test of the loop; at the test of `err`; or joining the threads.
pub data MainPhase : Type 0 where
  creating : ℕ → MainPhase
  sampling : (i progress err : ℕ) → MainPhase
  looping : (progress err : ℕ) → MainPhase
  judging : (err : ℕ) → MainPhase
  judged : Verdict → MainPhase

-- What the threads share. `trace` and `failed` are no part of the program.
pub record System : Type 0 where
  pub workers : ℕ → Worker
  pub exiting : Bool
  pub main_phase : MainPhase
  pub trace : List ℕ
  pub failed : List ℕ

-- `main`'s return value.
abbrev pub status : Verdict → ℕ
status detected = 1
status interrupted = 1
status all_done = 0

-- `progress` after a `struct work` has been added to it.
unfoldable pub add_progress : ℕ → Work → Worker → ℕ
add_progress progress w k =
    (progress
      + (k.cur + 2 ^ 64 - w.start) % 2 ^ 64
      + k.cnt * ((w.stop_at + 2 ^ 64 - w.start) % 2 ^ 64))
    % 2 ^ 64

module _ (n : ℕ) (work : ℕ → Work) (total : ℕ) (loop : Bool) where
  -- One step of `main` from a phase. `total` is its variable `count`.
  unfoldable pub main_from : MainPhase → System → MainPhase
  main_from (creating i) s = if ltb i n then creating (i + 1) else sampling 0 0 0
  main_from (sampling i progress err) s =
      if ltb i n
      then sampling (i + 1) (add_progress progress (work i) (s.workers i))
          (err + (s.workers i).error)
      else looping progress err
  main_from (looping progress err) s =
      if (ltb progress total || loop) && (err == 0 && not s.exiting)
      then sampling 0 0 0
      else judging err
  main_from (judging err) s =
      judged (if not (err == 0) then detected else if s.exiting then interrupted else all_done)
  main_from (judged v) s = judged v

  -- How many threads have been made.
  abbrev pub threads_made : MainPhase → ℕ
  threads_made (creating i) = i
  threads_made (sampling i progress err) = n
  threads_made (looping progress err) = n
  threads_made (judging err) = n
  threads_made (judged v) = n

  -- SIGINT is blocked until the threads have been made.
  abbrev pub is_unblocked : MainPhase → Bool
  is_unblocked (creating i) = false
  is_unblocked (sampling i progress err) = true
  is_unblocked (looping progress err) = true
  is_unblocked (judging err) = true
  is_unblocked (judged v) = true

  unfoldable pub turn_of : ℕ → Bool → System → System
  turn_of i returns s = record s {
    workers = update s.workers i (worker_step loop s.exiting returns (work i) (s.workers i));
    trace = log_from (s.workers i).phase returns (s.workers i).cur s.trace;
    failed = fail_from (s.workers i).phase returns i s.failed;
  }

  -- A step of one thread, of `main`, of the handler `interrupt`, or a cancellation that `main` has
  -- asked for.
  pub data Step : System → System → Type 0 where
    turn :
        {s : System} (i : ℕ) (returns : Bool)
        → i < threads_made s.main_phase
        → Step s (turn_of i returns s)
    main_turn : {s : System} → Step s (record s { main_phase = main_from s.main_phase s })
    interrupt :
        {s : System} → is_unblocked s.main_phase ≡ true → Step s (record s { exiting = true })
    cancel :
        {s : System} (i : ℕ)
        → s.main_phase ≡ judged detected
        → (s.workers i).error ≡ 0
        → Step s
            (record s { workers = update s.workers i (record (s.workers i) { phase = cancelled }) })

  abbrev pub initial : System
  initial = record {
    workers = λ i. made (work i);
    exiting = false;
    main_phase = creating 0;
    trace = [];
    failed = [];
  }

  pub data Reach : System → Type 0 where
    start : Reach initial
    later : {s t : System} → Reach s → Step s t → Reach t
