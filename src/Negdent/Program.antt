-- ===== src/Negdent/Program.antt =====
-- negdentcreate as a whole: the states that `main` reaches with the options it has read.
use mathlib.Core.Path.{subst}
use kernel_stuff.Common.{
  ℕ, ◌*◌, ◌/◌, ◌%◌, ◌^◌, ◌≤◌, ◌<◌, ◌≡◌, ◌≢◌, ◌⊎◌, inl, inr, true, false, List, ltb, if◌then◌else◌,
  arith,
}
use kernel_stuff.Common.Run.{Run, ok, ◌>>=◌}
use kernel_stuff.Negdent.{
  Config, Opt, Work, sign_extend, rounds, work_of, default_config, read_opts, split,
}
use kernel_stuff.Negdent.Split.{work_of-IsSplit}
use kernel_stuff.Negdent.Workers.{System, Verdict, status, all_done, looping, judged, Reach}
use kernel_stuff.Negdent.Workers.Invariant.{Logged}
use kernel_stuff.Negdent.Workers.Blame.{Reach-Blamed}
use kernel_stuff.Negdent.Workers.Safety.{Reach-all_done, Reach-progress, Reach-failure}

-- `main` until it makes the threads: its variables, the works, and the number of files.
unfoldable pub prepare : List ℕ → List Opt → Run (Config × List Work × ℕ)
prepare cwd opts = do
  c ← read_opts opts (default_config cwd)
  (works, total) ← split c
  ok (c, works, total)

-- `increment`, and the number of files.
unfoldable pub increment_of : Config → ℕ
increment_of c = c.total / sign_extend c.nthread

unfoldable pub file_count : Config → ℕ
file_count c = increment_of c * sign_extend c.nthread % 2 ^ 64

-- The states that the threads and `main` can reach.
abbrev pub Runs : Config → System → Type 0
Runs c s = Reach (rounds c.nthread) (work_of c (increment_of c)) (file_count c) c.loop s

module _ (c : Config) (some_thread : 0 < c.nthread) (small : c.nthread < 2 ^ 31)
    (fits : c.total < 2 ^ 64) (once : c.loop ≡ false) where
  no_wrap : c.nthread * increment_of c < 2 ^ 64
  unfolding increment_of
  no_wrap = let test : ltb c.nthread (2 ^ 31) ≡ true = ground arith in rw test (grind arith)

  file_count_lem : file_count c ≡ c.nthread * increment_of c
  unfolding file_count
  file_count_lem =
      let test : ltb c.nthread (2 ^ 31) ≡ true = ground arith in rw test (omega (arith, no_wrap))

  Runs-Reach :
      {s : System}
      → Runs c s
      → Reach c.nthread (work_of c (increment_of c)) (c.nthread * increment_of c) false s
  Runs-Reach {s} r =
      let test : ltb c.nthread (2 ^ 31) ≡ true = ground arith in
      subst (λ t. Reach c.nthread (work_of c (increment_of c)) t false s) file_count_lem
        (subst (λ l. Reach c.nthread (work_of c (increment_of c)) (file_count c) l s) once
          (subst
            (λ b.
              Reach (if b then c.nthread else 0) (work_of c (increment_of c)) (file_count c) c.loop
                s)
            test r))

  -- When `main` says that it is done, an operation has returned 0 on every file: on each number
  -- below the number of files, in whatever order the threads and `main` took their steps. The
  -- number of threads is positive as an `int`; there is no `--loop`.
  pub Runs-all_done :
      {s : System}
      → Runs c s
      → s.main_phase ≡ judged all_done
      → (x : ℕ) → x < file_count c
      → Logged x s.trace
  Runs-all_done {s} r e x lt =
      Reach-all_done c.nthread (increment_of c) (work_of c (increment_of c))
        (work_of-IsSplit c c.nthread (increment_of c) no_wrap) (Runs-Reach r) e x
        (omega (arith, file_count_lem))

  -- The progress that `main` prints is never more than the number of files, though `main` reads the
  -- works of the threads one after the other while they go on. The number of threads is
  -- positive as an `int`; there is no `--loop`.
  pub Runs-progress :
      {s : System} (progress err : ℕ)
      → Runs c s
      → s.main_phase ≡ looping progress err
      → progress ≤ file_count c
  Runs-progress {s} progress err r e = omega (
    arith,
    file_count_lem,
    Reach-progress c.nthread (increment_of c) (work_of c (increment_of c))
        (work_of-IsSplit c c.nthread (increment_of c) no_wrap) progress err (Runs-Reach r) e,
  )

  -- `main` returns a failure only after a call of one of the threads, `open` or an operation, has
  -- failed, or after SIGINT. The number of threads is positive as an `int`; there is no `--loop`.
  pub Runs-failure :
      {s : System} (v : Verdict)
      → Runs c s
      → s.main_phase ≡ judged v
      → status v ≢ 0
      → ((i : ℕ) × (i < c.nthread) × Logged i s.failed) ⊎ (s.exiting ≡ true)
  Runs-failure {s} v r e h =
      elim (Reach-failure c.nthread (increment_of c) (work_of c (increment_of c))
        (work_of-IsSplit c c.nthread (increment_of c) no_wrap) v (Runs-Reach r) e h) [
          | inl (i, lt, error) ↦
              inl (i, lt, Reach-Blamed _ (work_of c (increment_of c)) _ _ r i error)
          | inr interrupted ↦ inr interrupted
        ]
