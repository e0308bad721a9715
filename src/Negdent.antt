-- ===== src/Negdent.antt =====
-- negdentcreate/negdentcreate.c: the operations on files, their table, the names of the files, and
-- the command line. Messages and the usage text are left out.
pub mod Names
pub mod Ops
pub mod Split
pub mod Effect
pub mod Workers
pub mod Program
mod Disk
mod Tests
use Prim.Native.Char.{code}
use Prim.Native.String.{String}
use kernel_stuff.Common.{
  ℕ, zero, suc, ◌+◌, ◌-◌, ◌*◌, ◌/◌, ◌%◌, ◌^◌, Bool, true, false, not, ◌&&◌, Option, none, some,
  List, [], ◌∷◌, ltb, ◌==◌, if◌then◌else◌,
}
use kernel_stuff.Common.Run.{Run, ok, stop, exit, div_by_zero, ◌>>=◌, ◌>>◌, require}

-- What `fstatat` returns: 0, or -1 with `errno` equal to ENOENT or not.
pub data Answer : Type 0 where
  success enoent error : Answer

-- `O_RDONLY`, and `O_WRONLY | O_CREAT`
pub data Flags : Type 0 where
  rdonly creat : Flags

-- The system calls on the files of a directory, over a state of the system. A descriptor of `none`
-- is the result -1, and so is `false`.
pub record Calls (S : Type 0) : Type 0 where
  pub fstatat : S → List ℕ → Answer × S
  pub openat : S → List ℕ → Flags → Option ℕ × S
  pub close : S → ℕ → Bool × S
  pub unlinkat : S → List ℕ → Bool × S

-- A function of type `work_op_t`; the result is whether it returns 0, and not -1.
abbrev pub WorkOp : Type 0 → Type 0
WorkOp S = S → List ℕ → Bool × S

module _ {S : Type 0} (calls : Calls S) where
  unfoldable pub do_stat : WorkOp S
  do_stat sys filename =
      let (answer, sys') = calls.fstatat sys filename in
      elim answer [ error ↦ (false, sys') | success ↦ (true, sys') | enoent ↦ (true, sys') ]

  unfoldable pub do_open : WorkOp S
  do_open sys filename =
      let (opened, sys') = calls.openat sys filename rdonly in
      elim opened [ none ↦ (false, sys') | some fd ↦ calls.close sys' fd ]

  unfoldable pub do_create : WorkOp S
  do_create sys filename =
      let (opened, sys') = calls.openat sys filename creat in
      elim opened [ none ↦ (false, sys') | some fd ↦ calls.close sys' fd ]

  unfoldable pub do_unlink : WorkOp S
  do_unlink sys filename = calls.unlinkat sys filename

  unfoldable pub do_create_close_unlink : WorkOp S
  do_create_close_unlink sys filename =
      let (opened, sys') = calls.openat sys filename creat in
      elim opened [
        | none ↦ (false, sys')
        | some fd ↦
            let (closed, sys'') = calls.close sys' fd in
            if closed then calls.unlinkat sys'' filename else (false, sys'')
      ]

  unfoldable pub do_create_unlink_close : WorkOp S
  do_create_unlink_close sys filename =
      let (opened, sys') = calls.openat sys filename creat in
      elim opened [
        | none ↦ (false, sys')
        | some fd ↦
            let (unlinked, sys'') = calls.unlinkat sys' filename in
            if unlinked then calls.close sys'' fd else (false, sys'')
      ]

-- The functions of the table `OPERATIONS`, by name.
pub data Op : Type 0 where
  stat open_file create unlink create_close_unlink create_unlink_close : Op

unfoldable pub run_op : {S : Type 0} → Calls S → Op → WorkOp S
run_op calls stat = do_stat calls
run_op calls open_file = do_open calls
run_op calls create = do_create calls
run_op calls unlink = do_unlink calls
run_op calls create_close_unlink = do_create_close_unlink calls
run_op calls create_unlink_close = do_create_unlink_close calls

-- The code points of a text.
abbrev pub codes : String → List ℕ
codes String.[] = []
codes (String.◌∷◌ c s) = code c ∷ codes s

-- `OPERATIONS`
abbrev pub operations : List (List ℕ × Op)
operations =
    (codes "stat", stat)
    ∷ (codes "open", open_file)
    ∷ (codes "create", create)
    ∷ (codes "unlink", unlink)
    ∷ (codes "create_close_unlink", create_close_unlink)
    ∷ (codes "create_unlink_close", create_unlink_close)
    ∷ []

-- `strcmp(a, b) == 0` of two strings, given without their NUL.
unfoldable pub same_text : List ℕ → List ℕ → Bool
same_text [] [] = true
same_text (a ∷ as_) (b ∷ bs) = a == b && same_text as_ bs
same_text _ _ = false

-- The loop over the table for `--op`.
unfoldable pub find_op : List (List ℕ × Op) → List ℕ → Option Op
find_op [] optarg = none
find_op ((name, op) ∷ table) optarg =
    if same_text name optarg then some op else find_op table optarg

-- What `getopt_long` returns. `threads` and `count` have what `atoi` and `atol` make of their
-- argument, as the bits of an `int` and of a `long`.
pub data Opt : Type 0 where
  help unknown loop_on : Opt
  threads count : ℕ → Opt
  path prefix op_name : List ℕ → Opt

-- The variables that the options set.
pub record Config : Type 0 where
  pub nthread : ℕ
  pub total : ℕ
  pub dir_path : List ℕ
  pub pfx : List ℕ
  pub op : Op
  pub loop : Bool

-- `cwd` is the result of `get_current_dir_name`.
unfoldable pub default_config : List ℕ → Config
default_config cwd = record {
  nthread = 1;
  total = 1000;
  dir_path = cwd;
  pfx = codes "file-";
  op = stat;
  loop = false;
}

-- The loop over the options.
unfoldable pub read_opts : List Opt → Config → Run Config
read_opts [] c = ok c
read_opts (help ∷ opts) c = stop (exit 0)
read_opts (unknown ∷ opts) c = stop (exit 1)
read_opts (loop_on ∷ opts) c = read_opts opts (record c { loop = true })
read_opts (threads n ∷ opts) c = read_opts opts (record c { nthread = n })
read_opts (count n ∷ opts) c = read_opts opts (record c { total = n })
read_opts (path text ∷ opts) c = read_opts opts (record c { dir_path = text })
read_opts (prefix text ∷ opts) c = read_opts opts (record c { pfx = text })
read_opts (op_name text ∷ opts) c = elim (find_op operations text) [
  | none ↦ stop (exit 1)
  | some o ↦ read_opts opts (record c { op = o })
]

-- `struct work` as `main` fills it: what stays as it is.
pub record Work : Type 0 where
  pub work_path : List ℕ
  pub work_pfx : List ℕ
  pub work_op : Op
  pub start : ℕ
  pub stop_at : ℕ

-- An `int` as an `unsigned long`.
abbrev pub sign_extend : ℕ → ℕ
sign_extend n = if ltb n (2 ^ 31) then n else n + 2 ^ 64 - 2 ^ 32

-- How often `for (i = 0; i < nthread; i++)` runs.
abbrev pub rounds : ℕ → ℕ
rounds n = if ltb n (2 ^ 31) then n else 0

-- The body of the loop that makes the threads, in round `i`.
unfoldable pub work_of : Config → ℕ → ℕ → Work
work_of c increment i = record {
  work_path = c.dir_path;
  work_pfx = c.pfx;
  work_op = c.op;
  start = i * increment % 2 ^ 64;
  stop_at = (i * increment % 2 ^ 64 + increment) % 2 ^ 64;
}

-- The list that the loop makes, from round `i` on with `left` rounds left.
unfoldable pub make_works : Config → ℕ → ℕ → ℕ → List Work
make_works c increment zero i = []
make_works c increment (suc left) i = work_of c increment i ∷ make_works c increment left (i + 1)

-- The split of the work among the threads: the work of each, and the number of files in all.
unfoldable pub split : Config → Run (List Work × ℕ)
split c = do
  require (not (c.nthread == 0)) div_by_zero
  let n = sign_extend c.nthread
  let increment = c.total / n
  ok (make_works c increment (rounds c.nthread) 0, increment * n % 2 ^ 64)
