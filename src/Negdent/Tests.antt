-- ===== src/Negdent/Tests.antt =====
-- Small runs of negdentcreate.
use kernel_stuff.Common.{
  ℕ, ◌+◌, ◌≤◌, ◌<◌, ◌≡◌, refl, sym, ap, ◌≢◌, ◌⊎◌, Bool, true, false, ◌&&◌, List, [], ◌∷◌, ◌==◌,
  arith,
}
use kernel_stuff.Common.Run.{ok, stop, div_by_zero}
use kernel_stuff.Negdent.{
  Calls, create, create_close_unlink, create_unlink_close, run_op, do_create,
  do_create_close_unlink, codes, same_text, find_op, threads, count, op_name, Config,
  default_config, read_opts, Work, work_of, make_works, split,
}
use kernel_stuff.Negdent.Names.{digits, digit_count, padded, file_name, file_name_injective}
use kernel_stuff.Negdent.Ops.{Behaves, run_op-Done, create_unlink_close_leaks}
use kernel_stuff.Negdent.Effect.{call_op, op_loop, HasRun, op_loop-HasRun}
use kernel_stuff.Negdent.Split.{numbers, upto, split-numbers}
use kernel_stuff.Negdent.Workers.{
  Phase, worker_from, made, System, detected, all_done, looping, judged, add_progress, main_from,
  turn_of, start, later, turn, main_turn,
}
use kernel_stuff.Negdent.Workers.Alone.{alone, at_phase, down, alone_lem}
use kernel_stuff.Negdent.Workers.Invariant.{Logged}
use kernel_stuff.Negdent.Disk.{Disk, put, disk, disk_view, disk-Behaves}
use kernel_stuff.Negdent.Program.{
  prepare, increment_of, file_count, Runs, Runs-all_done, Runs-progress, Runs-failure,
}

named : file_name (codes "file-") 1234 ≡ codes "file-0000001234"
unfolding file_name padded digits digit_count
named = refl

file_name_injective_example : ◌≡◌ {A = ℕ} 7 7
file_name_injective_example =
    file_name_injective (codes "file-") 7 7 (omega arith) (omega arith) (omega arith) refl

abbrev two : Config
two = record (default_config []) { nthread = 2; total = 5 }

dealt :
    prepare [] (threads 2 ∷ count 5 ∷ op_name (codes "create") ∷ [])
    ≡ ok (
      record two { op = create },
      work_of (record two { op = create }) 2 0 ∷ work_of (record two { op = create }) 2 1 ∷ [],
      4,
    )
unfolding prepare read_opts split make_works find_op same_text default_config
dealt = refl

split-numbers_example :
    (works : List Work) × (total : ℕ) × (split two ≡ ok (works, total))
    × (numbers works ≡ upto 0 total)
    × (total ≤ 5)
    × (5 < total + 2)
unfolding default_config
split-numbers_example = split-numbers two (omega arith) (omega arith) (omega arith)

abbrev some_work : Work
some_work = record {
  work_path = [];
  work_pfx = codes "f";
  work_op = create_close_unlink;
  start = 3;
  stop_at = 5;
}

alone_lem_example : alone 8 some_work (made some_work) [] ≡ (at_phase 5 Phase.finished, down 3 2)
alone_lem_example = alone_lem 2 some_work refl

abbrev empty : Disk
empty = (λ name. false, false)

run_op-Done_example :
    (disk_view.has (put (λ name. false) (codes "a") true, false) (codes "a") ≡ true)
    × ((other : List ℕ)
        → other ≢ codes "a"
        → disk_view.has (put (λ name. false) (codes "a") true, false) other ≡ false)
    × ((fd : ℕ) → (fd == 3 && false) ≡ (fd == 3 && false))
unfolding run_op do_create
run_op-Done_example =
    run_op-Done disk_view disk disk-Behaves create empty
      (put (λ name. false) (codes "a") true, false) (codes "a") refl

-- SIGINT comes before the test for file 4.
op_loop-HasRun_example :
    HasRun disk_view disk disk-Behaves some_work
      (omega arith)
      3
      4
      empty
      (op_loop disk some_work (λ cur. cur == 4) 2 3 empty).2
    × (3 ≤ 4)
    × ((4 ≡ 3 + 2) ⊎ ((4 < 3 + 2) × ((4 == 4) ≡ true)))
unfolding op_loop call_op run_op do_create_close_unlink same_text file_name padded digits
    digit_count
op_loop-HasRun_example =
    op_loop-HasRun disk_view disk disk-Behaves some_work (omega arith) (λ cur. cur == 4) 2 3 4 empty
      (op_loop disk some_work (λ cur. cur == 4) 2 3 empty).2 (omega arith) refl

-- The same system, on which no file can be removed.
abbrev stuck : Calls Disk
stuck = record disk { unlinkat = λ d name. (false, d) }

stuck-Behaves : Behaves disk_view stuck
stuck-Behaves = record {
  stat_names = λ s name other. refl;
  stat_fds = λ s name fd. refl;
  open_fails = disk-Behaves.open_fails;
  open_reads = disk-Behaves.open_reads;
  open_creates = disk-Behaves.open_creates;
  close_names = disk-Behaves.close_names;
  close_others = disk-Behaves.close_others;
  close_closes = disk-Behaves.close_closes;
  unlink_fds = λ s name fd. refl;
  unlink_others = λ s name other ne. refl;
  unlink_removes = λ s t name e. cc;
  unlink_fails = λ s t name e. ap (λ (r : Bool × Disk). r.1.0 name) (sym e);
}

abbrev left_open : Disk
left_open = (put (λ name. false) (codes "a") true, true)

create_unlink_close_leaks_example :
    (run_op stuck create_unlink_close empty (codes "a") ≡ (false, left_open))
    × ((3 == 3 && false) ≡ false)
    × ((3 == 3 && true) ≡ true)
    × (disk_view.has left_open (codes "a") ≡ true)
create_unlink_close_leaks_example =
    create_unlink_close_leaks disk_view stuck stuck-Behaves empty left_open left_open (codes "a") 3
      refl refl

-- One thread with one file.
abbrev one : Config
one = record (default_config []) { nthread = 1; total = 1 }

-- The thread opens the directory and does its file; then `main` reads its work and judges.
to_looping : (s : System) × Runs one s × (s.main_phase ≡ looping 1 0)
unfolding default_config main_from turn_of worker_from add_progress work_of increment_of file_count
to_looping = (
  _,
  later
      (later
        (later
          (later
            (later (later (later start main_turn) (turn 0 true (omega arith)))
              (turn 0 true (omega arith)))
            (turn 0 true (omega arith)))
          main_turn)
        main_turn)
      main_turn,
  refl,
)

to_done : (s : System) × Runs one s × (s.main_phase ≡ judged all_done) × (s.trace ≡ 0 ∷ [])
unfolding default_config main_from turn_of worker_from add_progress work_of increment_of file_count
to_done = (
  _,
  later
      (later
        (later
          (later
            (later
              (later
                (later (later (later start main_turn) (turn 0 true (omega arith)))
                  (turn 0 true (omega arith)))
                (turn 0 true (omega arith)))
              main_turn)
            main_turn)
          main_turn)
        main_turn)
      main_turn,
  refl,
  refl,
)

-- The thread cannot open the directory.
to_failed : (s : System) × Runs one s × (s.main_phase ≡ judged detected)
unfolding default_config main_from turn_of worker_from add_progress work_of increment_of file_count
to_failed = (
  _,
  later
      (later
        (later
          (later (later (later (later start main_turn) (turn 0 false (omega arith))) main_turn)
            main_turn)
          main_turn)
        main_turn)
      main_turn,
  refl,
)

Runs-all_done_example : Logged 0 to_done.0.trace
unfolding default_config file_count increment_of
Runs-all_done_example =
    Runs-all_done one (omega arith) (omega arith) (omega arith) refl to_done.1 to_done.2 0
      (omega arith)

Runs-progress_example : 1 ≤ file_count one
unfolding default_config
Runs-progress_example =
    Runs-progress one (omega arith) (omega arith) (omega arith) refl 1 0 to_looping.1 to_looping.2

Runs-failure_example :
    ((i : ℕ) × (i < 1) × Logged i to_failed.0.failed) ⊎ (to_failed.0.exiting ≡ true)
unfolding default_config
Runs-failure_example =
    Runs-failure one (omega arith) (omega arith) (omega arith) refl detected to_failed.1 to_failed.2
      (λ e. cc)

no_threads : split (record two { nthread = 0 }) ≡ stop div_by_zero
unfolding split
no_threads = refl

one_name :
    file_name (codes "a-prefix-of-at-least-sixty-three-bytes-leaves-no-room-for-digits") 1
    ≡ file_name (codes "a-prefix-of-at-least-sixty-three-bytes-leaves-no-room-for-digits") 2
unfolding file_name padded digits digit_count
one_name = refl
