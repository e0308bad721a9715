-- ===== src/Negdent/Effect.antt =====
-- The files that one thread of negdentcreate leaves, if no other thread runs: the inner loop of
-- `stat_worker` with its calls. SIGINT may come at any time.
use kernel_stuff.Common.{
  ℕ, zero, suc, ◌+◌, ◌^◌, ◌≤◌, ◌<◌, ◌≡◌, refl, sym, ap, ◌∙◌, ◌≢◌, ◌⊎◌, inl, inr, Bool, true, false,
  List, ◌==◌, ==_iff, if◌then◌else◌, length, arith, Bool-cases,
}
use kernel_stuff.Negdent.{Calls, run_op, Work}
use kernel_stuff.Negdent.Names.{file_name, file_name_injective}
use kernel_stuff.Negdent.Ops.{View, Behaves, SameFds, expected, run_op-Done}

-- `arg->op(dirfd, filename)` on the file of a number.
unfoldable pub call_op : {S : Type 0} → Calls S → Work → ℕ → S → Bool × S
call_op calls w cur sys = run_op calls w.work_op sys (file_name w.work_pfx cur)

-- The inner loop from `cur` on, with `left` files left, where `exiting cur` is what the test before the
-- file of `cur` reads of the variable: whether no operation fails, and `arg->cur` at its end.
unfoldable pub op_loop : {S : Type 0} → Calls S → Work → (ℕ → Bool) → ℕ → ℕ → S → Bool × ℕ × S
op_loop calls w exiting zero cur sys = (true, cur, sys)
op_loop calls w exiting (suc left) cur sys =
    let (done, sys') = call_op calls w cur sys in
    let rest = op_loop calls w exiting left (cur + 1) sys' in
    if exiting cur then (true, cur, sys) else if done then rest else (false, cur, sys')

module _ {S : Type 0} (v : View S) (calls : Calls S) (b : Behaves v calls) (w : Work)
    (short : length w.work_pfx ≤ 43) where
  abbrev name : ℕ → List ℕ
  name x = file_name w.work_pfx x

  step_inv :
      (stops : Bool) (cur stop : ℕ) (s : S) (r : Bool × S) (rest : S → Bool × ℕ × S) (t : S)
      → (if stops then (true, cur, s) else if r.0 then rest r.1 else (false, cur, r.1))
        ≡ (true, stop, t)
      → ((stops ≡ true) × (stop ≡ cur) × (t ≡ s))
        ⊎ ((u : S) × (r ≡ (true, u)) × (rest u ≡ (true, stop, t)))
  step_inv true cur stop s r rest t e =
      inl (refl, ap (λ (r : Bool × ℕ × S). r.1) (sym e), ap (λ (r : Bool × ℕ × S). r.2) (sym e))
  step_inv false cur stop s (false, u) rest t e = cc
  step_inv false cur stop s (true, u) rest t e = inr (u, refl, e)

  -- What a run of the loop over the numbers from `cur` on, up to `stop`, leaves.
  pub record HasRun (cur stop : ℕ) (s t : S) : Type 0 where
    pub inside :
        (x : ℕ) → cur ≤ x → x < stop → v.has t (name x) ≡ expected w.work_op (v.has s (name x))
    pub outside :
        (other : List ℕ)
        → ((x : ℕ) → cur ≤ x → x < stop → other ≢ name x)
        → v.has t other ≡ v.has s other
    pub same_fds : SameFds v s t

  no_files : (cur stop : ℕ) (s t : S) → stop ≡ cur → t ≡ s → HasRun cur stop s t
  no_files cur stop s t here same = record {
    inside = λ x low high. absurd (omega arith);
    outside = λ other far. ap (λ u. v.has u other) same;
    same_fds = λ fd. ap (λ u. v.is_open u fd) same;
  }

  -- One file more.
  run-cons :
      (cur stop : ℕ) (s u t : S)
      → stop < 2 ^ 64
      → cur + 1 ≤ stop
      → run_op calls w.work_op s (name cur) ≡ (true, u)
      → HasRun (cur + 1) stop u t
      → HasRun cur stop s t
  run-cons cur stop s u t small some_file first rest =
      let (at, others, fds) = run_op-Done v calls b w.work_op s u (name cur) first in
      let apart : (x : ℕ) → x < 2 ^ 64 → x ≢ cur → name x ≢ name cur =
        λ x lt ne same. ne (file_name_injective w.work_pfx x cur short lt (omega arith) same) in
      record {
        inside = λ x low high. elim (Bool-cases (x == cur)) [
          | inl here ↦
              let is_cur : x ≡ cur = (==_iff x cur).0 here in
              rw is_cur (
                rest.outside (name cur)
                  (λ y l h same. apart y (omega arith) (omega arith) (sym same))
                ∙ at)
          | inr there ↦
              let ne : x ≢ cur = λ is_cur. cc ((==_iff x cur).1 is_cur) in
              rest.inside x (omega arith) (omega arith)
              ∙ ap (expected w.work_op) (others (name x) (apart x (omega arith) ne))
        ];
        outside = λ other far.
            rest.outside other (λ x l h. far x (omega arith) (omega arith))
            ∙ others other (far cur (omega arith) (omega arith));
        same_fds = λ fd. rest.same_fds fd ∙ fds fd;
      }

  -- If no operation of the loop fails, it ends behind its last file, or where it has read that
  -- `exiting` is set. Every file of the numbers before its end is as the operation leaves it, every
  -- other name is as it was, and so are the open descriptors. The system calls behave as they are
  -- documented, the prefix has at most 43 bytes, and the numbers are values of `unsigned long`.
  pub op_loop-HasRun :
      (exiting : ℕ → Bool) (left cur stop : ℕ) (s t : S)
      → cur + left < 2 ^ 64
      → op_loop calls w exiting left cur s ≡ (true, stop, t)
      → HasRun cur stop s t
        × (cur ≤ stop)
        × ((stop ≡ cur + left) ⊎ ((stop < cur + left) × (exiting stop ≡ true)))
  unfolding op_loop call_op
  op_loop-HasRun exiting zero cur stop s t small e =
      let here : stop ≡ cur = ap (λ (r : Bool × ℕ × S). r.1) (sym e) in
      let same : t ≡ s = ap (λ (r : Bool × ℕ × S). r.2) (sym e) in
      (no_files cur stop s t here same, omega arith, inl (omega arith))
  op_loop-HasRun exiting (suc left) cur stop s t small e =
      elim (step_inv (exiting cur) cur stop s (run_op calls w.work_op s (name cur))
        (λ u. op_loop calls w exiting left (cur + 1) u) t e) [
          | inl (stops, here, same) ↦ (
            no_files cur stop s t here same,
            omega arith,
            inr (omega arith, ap exiting here ∙ stops),
          )
          | inr (u, first, later) ↦
              let (rest, further, why) =
                op_loop-HasRun exiting left (cur + 1) stop u t (omega arith) later in
              (
                run-cons cur stop s u t (omega (arith, why)) further first rest,
                omega arith,
                elim why [
                  | inl end ↦ inl (omega arith)
                  | inr (before, set) ↦ inr (omega arith, set)
                ],
              )
        ]
