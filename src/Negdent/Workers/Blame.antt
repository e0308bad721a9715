-- ===== src/Negdent/Workers/Blame.antt =====
-- Where a thread of negdentcreate has its error from.
use kernel_stuff.Common.{
  ℕ, ◌≡◌, refl, ◌≢◌, inl, inr, Bool, true, false, List, ◌==◌, ==_iff, Bool-cases,
}
use kernel_stuff.Negdent.{Work}
use kernel_stuff.Negdent.Workers.{
  Phase, opening, testing, working, counting, deciding, finished, cancelled, Worker, worker_from,
  fail_from, System, turn_of, Step, turn, main_turn, interrupt, cancel, Reach, start, later,
}
use kernel_stuff.Negdent.Workers.Invariant.{Logged}

fail_from-Logged :
    (phase : Phase) (returns : Bool) (i j : ℕ) (failed : List ℕ)
    → Logged j failed
    → Logged j (fail_from phase returns i failed)
fail_from-Logged opening true i j failed h = h
fail_from-Logged opening false i j failed h = inr h
fail_from-Logged working true i j failed h = h
fail_from-Logged working false i j failed h = inr h
fail_from-Logged testing returns i j failed h = h
fail_from-Logged counting returns i j failed h = h
fail_from-Logged deciding returns i j failed h = h
fail_from-Logged finished returns i j failed h = h
fail_from-Logged cancelled returns i j failed h = h

-- A step sets the error of its thread only with a call that fails.
worker_from-Logged :
    (phase : Phase) (loop exiting returns : Bool) (w : Work) (k : Worker) (i : ℕ) (failed : List ℕ)
    → (k.error ≢ 0 → Logged i failed)
    → (worker_from phase loop exiting returns w k).error ≢ 0
    → Logged i (fail_from phase returns i failed)
unfolding worker_from
worker_from-Logged opening loop exiting true w k i failed h e = h e
worker_from-Logged opening loop exiting false w k i failed h e = inl refl
worker_from-Logged working loop exiting true w k i failed h e = h e
worker_from-Logged working loop exiting false w k i failed h e = inl refl
worker_from-Logged testing loop exiting returns w k i failed h e = h e
worker_from-Logged counting loop exiting returns w k i failed h e = h e
worker_from-Logged deciding true true returns w k i failed h e = h e
worker_from-Logged deciding true false returns w k i failed h e = h e
worker_from-Logged deciding false exiting returns w k i failed h e = h e
worker_from-Logged finished loop exiting returns w k i failed h e = h e
worker_from-Logged cancelled loop exiting returns w k i failed h e = h e

-- Every thread with an error is one in which a call has failed.
abbrev Blamed : System → Type 0
Blamed s = (i : ℕ) → (s.workers i).error ≢ 0 → Logged i s.failed

module _ (n : ℕ) (work : ℕ → Work) (total : ℕ) (loop : Bool) where
  Step-Blamed : {s t : System} → Step n work total loop s t → Blamed s → Blamed t
  unfolding turn_of
  Step-Blamed {s} (turn i returns made) b j = elim (Bool-cases (i == j)) [
    | inl same ↦
        let at : i ≡ j = (==_iff i j).0 same in
        rw same (
          rw at (
            worker_from-Logged (s.workers j).phase loop s.exiting returns (work j) (s.workers j) j
              s.failed (b j)))
    | inr other ↦ rw other (λ e. fail_from-Logged (s.workers i).phase returns i j s.failed (b j e))
  ]
  Step-Blamed {s} main_turn b j = b j
  Step-Blamed {s} (interrupt free) b j = b j
  Step-Blamed {s} (cancel i asked clean) b j = elim (Bool-cases (i == j)) [
    | inl same ↦ let at : i ≡ j = (==_iff i j).0 same in rw same (rw at (b j))
    | inr other ↦ rw other (b j)
  ]

  pub Reach-Blamed :
      {s : System}
      → Reach n work total loop s
      → (i : ℕ) → (s.workers i).error ≢ 0
      → Logged i s.failed
  Reach-Blamed start i e = absurd (e refl)
  Reach-Blamed (later r st) i e = Step-Blamed st (Reach-Blamed r) i e
