-- ===== src/Dumpphys/Main.antt =====
-- The command line of vmcoreinfo/dumpphys.c. The options are what `getopt_long` returns, in order.
pub mod Search
use kernel_stuff.Common.{
  ℕ, Bool, true, false, ◌&&◌, Option, none, some, List, [], ◌∷◌, ltb, ◌==◌, if◌then◌else◌,
}
use kernel_stuff.Common.Run.{Run, ok, stop, exit, ◌>>=◌}
use kernel_stuff.Posix.{File}
use kernel_stuff.Dumpphys.{
  Kdump, or_exit, get_memory_info, VmcoreinfoArg, PageFn, dump_page_fn, check_vmcoreinfo_fn, How,
  finished, returned_error, exited, Work, count_pages,
}

-- What the program gets from outside: `open` of a core and of an output; stdout; and what
-- `kdump_new` and the two settings of attributes make of a descriptor, or `none` for an error.
pub record Env : Type 0 where
  pub open_core : List ℕ → Option ℕ
  pub open_output : List ℕ → Option File
  pub stdout : File
  pub new_ctx : ℕ → Option Kdump

pub data Opt : Type 0 where
  help unknown vmcoreinfo all_vmcoreinfo verbose persistent flexible : Opt
  core output : List ℕ → Opt

-- The variables that the options set.
pub record Config : Type 0 where
  pub in_fd : Option ℕ
  pub via : VmcoreinfoArg
  pub op : PageFn
  pub is_verbose : Bool
  pub persist : Bool

unfoldable pub default_config : Env → Config
default_config env = record {
  in_fd = none;
  via = record {
    fd = env.stdout;
    should_continue = false;
    found_count = 0;
    search_within_page = false;
  };
  op = dump_page_fn;
  is_verbose = false;
  persist = false;
}

-- The loop over the options.
unfoldable pub read_opts : Env → List Opt → Config → Run Config
read_opts env [] c = ok c
read_opts env (help ∷ opts) c = stop (exit 0)
read_opts env (unknown ∷ opts) c = stop (exit 1)
read_opts env (vmcoreinfo ∷ opts) c = read_opts env opts (record c { op = check_vmcoreinfo_fn })
read_opts env (all_vmcoreinfo ∷ opts) c =
    read_opts env opts
      (record c { via = record c.via { should_continue = true }; op = check_vmcoreinfo_fn })
read_opts env (verbose ∷ opts) c = read_opts env opts (record c { is_verbose = true })
read_opts env (persistent ∷ opts) c = read_opts env opts (record c { persist = true })
read_opts env (flexible ∷ opts) c =
    read_opts env opts (record c { via = record c.via { search_within_page = true } })
read_opts env (core path ∷ opts) c = elim (env.open_core path) [
  | none ↦ stop (exit 1)
  | some fd ↦ read_opts env opts (record c { in_fd = some fd })
]
read_opts env (output path ∷ opts) c = elim (env.open_output path) [
  | none ↦ stop (exit 1)
  | some f ↦ read_opts env opts (record c { via = record c.via { fd = f } })
]

-- The message of `main` on what has been found.
pub data Report : Type 0 where
  silent found_many found_none : Report

abbrev pub is_check : PageFn → Bool
is_check dump_page_fn = false
is_check check_vmcoreinfo_fn = true

-- `rv` is 0 after the last page, and -1 after a page function has returned -1.
unfoldable pub report_of : PageFn → How → ℕ → Report
report_of op finished found_count =
    if is_check op && ltb 1 found_count
    then found_many
    else if found_count == 0 && is_check op
    then found_none
    else silent
report_of op returned_error found_count =
    if is_check op && ltb 1 found_count then found_many else silent
report_of op exited found_count = silent

-- What `main` leaves: its status, the output, and what it reports.
pub record Outcome : Type 0 where
  pub status : ℕ
  pub out : File
  pub report : Report

-- `main` once the pages have been counted.
unfoldable pub conclude : PageFn → Work → Outcome
conclude op w = record {
  status = elim w.how [ finished ↦ 0 | returned_error ↦ 1 | exited ↦ 1 ];
  out = w.arg.fd;
  report = report_of op w.how w.arg.found_count;
}

unfoldable pub main : Env → (frames : ℕ) → (fresh : List ℕ) → List Opt → Run Outcome
main env frames fresh opts = do
  c ← read_opts env opts (default_config env)
  fd ← or_exit c.in_fd
  ctx ← or_exit (env.new_ctx fd)
  mi ← get_memory_info ctx
  w ← count_pages ctx mi c.op c.persist frames fresh c.via
  ok (conclude c.op w)
