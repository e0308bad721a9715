-- ===== src/Negdent/Ops.antt =====
-- What the operations of negdentcreate/negdentcreate.c do to a directory, for system calls that
-- behave as they are documented.
use kernel_stuff.Common.{
  ℕ, ◌≡◌, refl, sym, ap, ◌∙◌, ◌≢◌, inl, inr, Bool, true, false, Option, none, some, List, ◌==◌,
  ==_iff, if◌then◌else◌, Bool-cases,
}
use kernel_stuff.Negdent.{
  Answer, success, enoent, error, Flags, rdonly, creat, Calls, do_stat, do_open, do_create,
  do_unlink, do_create_close_unlink, do_create_unlink_close, Op, stat, open_file, create, unlink,
  create_close_unlink, create_unlink_close, run_op,
}

-- What can be seen of a state of the system: which names the directory has, and which descriptors
-- are open.
pub record View (S : Type 0) : Type 0 where
  pub has : S → List ℕ → Bool
  pub is_open : S → ℕ → Bool

module _ {S : Type 0} (v : View S) where
  abbrev pub SameNames : S → S → Type 0
  SameNames s t = (name : List ℕ) → v.has t name ≡ v.has s name

  abbrev pub SameOthers : List ℕ → S → S → Type 0
  SameOthers name s t = (other : List ℕ) → other ≢ name → v.has t other ≡ v.has s other

  abbrev pub SameFds : S → S → Type 0
  SameFds s t = (fd : ℕ) → v.is_open t fd ≡ v.is_open s fd

  -- `fd` is all that is opened.
  abbrev pub Opens : ℕ → S → S → Type 0
  Opens fd s t =
      (v.is_open s fd ≡ false)
      × (v.is_open t fd ≡ true)
      × ((g : ℕ) → g ≢ fd → v.is_open t g ≡ v.is_open s g)

  -- The documented behaviour. After an error of `close` it is left open whether `fd` is closed.
  pub record Behaves (calls : Calls S) : Type 0 where
    pub stat_names : (s : S) (name : List ℕ) → SameNames s (calls.fstatat s name).1
    pub stat_fds : (s : S) (name : List ℕ) → SameFds s (calls.fstatat s name).1
    pub open_fails :
        (s t : S) (name : List ℕ) (flags : Flags)
        → calls.openat s name flags ≡ (none, t)
        → SameNames s t × SameFds s t
    pub open_reads :
        (s t : S) (name : List ℕ) (fd : ℕ)
        → calls.openat s name rdonly ≡ (some fd, t)
        → SameNames s t × Opens fd s t
    pub open_creates :
        (s t : S) (name : List ℕ) (fd : ℕ)
        → calls.openat s name creat ≡ (some fd, t)
        → (v.has t name ≡ true) × SameOthers name s t × Opens fd s t
    pub close_names : (s : S) (fd : ℕ) → SameNames s (calls.close s fd).1
    pub close_others :
        (s : S) (fd g : ℕ) → g ≢ fd → v.is_open (calls.close s fd).1 g ≡ v.is_open s g
    pub close_closes : (s t : S) (fd : ℕ) → calls.close s fd ≡ (true, t) → v.is_open t fd ≡ false
    pub unlink_fds : (s : S) (name : List ℕ) → SameFds s (calls.unlinkat s name).1
    pub unlink_others : (s : S) (name : List ℕ) → SameOthers name s (calls.unlinkat s name).1
    pub unlink_removes :
        (s t : S) (name : List ℕ) → calls.unlinkat s name ≡ (true, t) → v.has t name ≡ false
    pub unlink_fails :
        (s t : S) (name : List ℕ) → calls.unlinkat s name ≡ (false, t) → v.has t name ≡ v.has s name

-- Whether the directory has the name after an operation, from whether it had it before.
abbrev pub expected : Op → Bool → Bool
expected stat before = before
expected open_file before = before
expected create before = true
expected unlink before = false
expected create_close_unlink before = false
expected create_unlink_close before = false

module _ {S : Type 0} (v : View S) (calls : Calls S) (b : Behaves v calls) where
  abbrev Done : Op → List ℕ → S → S → Type 0
  Done op name s t =
      (v.has t name ≡ expected op (v.has s name)) × SameOthers v name s t × SameFds v s t

  open_inv :
      (r : Option ℕ × S) (rest : ℕ → S → Bool × S) (t : S)
      → (elim r.0 as (λ _. Bool × S) [ none ↦ (false, r.1) | some fd ↦ rest fd r.1 ]) ≡ (true, t)
      → (fd : ℕ) × (u : S) × (r ≡ (some fd, u)) × (rest fd u ≡ (true, t))
  open_inv (none, u) rest t e = cc
  open_inv (some fd, u) rest t e = (fd, u, refl, e)

  then_inv :
      (r : Bool × S) (rest : S → Bool × S) (t : S)
      → (if r.0 then rest r.1 else (false, r.1)) ≡ (true, t)
      → (u : S) × (r ≡ (true, u)) × (rest u ≡ (true, t))
  then_inv (false, u) rest t e = cc
  then_inv (true, u) rest t e = (u, refl, e)

  -- `close` after an open undoes it.
  close-Opens : (s t u : S) (fd : ℕ) → Opens v fd s t → calls.close t fd ≡ (true, u) → SameFds v s u
  close-Opens s t u fd (was, _, others) e g = elim (Bool-cases (g == fd)) [
    | inl same ↦ let at : g ≡ fd = (==_iff g fd).0 same in rw at (b.close_closes t u fd e ∙ sym was)
    | inr other ↦
        let apart : g ≢ fd = λ at. cc ((==_iff g fd).1 at) in
        ap (λ (r : Bool × S). v.is_open r.1 g) (sym e)
        ∙ b.close_others t fd g apart
        ∙ others g apart
  ]

  names_of : (r : Bool × S) {t u : S} → r ≡ (true, u) → SameNames v t r.1 → SameNames v t u
  names_of r e same name = ap (λ (r' : Bool × S). v.has r'.1 name) (sym e) ∙ same name

  open_file-Done :
      (s t : S) (name : List ℕ) → do_open calls s name ≡ (true, t) → Done open_file name s t
  unfolding do_open
  open_file-Done s t name e =
      let (fd, u, opened, closed) =
        open_inv (calls.openat s name rdonly) (λ fd u. calls.close u fd) t e in
      let (names, fds) = b.open_reads s u name fd opened in
      let kept : SameNames v u t = names_of (calls.close u fd) closed (b.close_names u fd) in
      (kept name ∙ names name, λ other _. kept other ∙ names other, close-Opens s u t fd fds closed)

  create-Done :
      (s t : S) (name : List ℕ) → do_create calls s name ≡ (true, t) → Done create name s t
  unfolding do_create
  create-Done s t name e =
      let (fd, u, opened, closed) =
        open_inv (calls.openat s name creat) (λ fd u. calls.close u fd) t e in
      let (made, others, fds) = b.open_creates s u name fd opened in
      let kept : SameNames v u t = names_of (calls.close u fd) closed (b.close_names u fd) in
      (kept name ∙ made, λ other ne. kept other ∙ others other ne, close-Opens s u t fd fds closed)

  unlink-Done : (s t : S) (name : List ℕ) → calls.unlinkat s name ≡ (true, t) → Done unlink name s t
  unlink-Done s t name e = (
    b.unlink_removes s t name e,
    λ other ne. ap (λ (r : Bool × S). v.has r.1 other) (sym e) ∙ b.unlink_others s name other ne,
    λ fd. ap (λ (r : Bool × S). v.is_open r.1 fd) (sym e) ∙ b.unlink_fds s name fd,
  )

  create_close_unlink-Done :
      (s t : S) (name : List ℕ)
      → do_create_close_unlink calls s name ≡ (true, t)
      → Done create_close_unlink name s t
  unfolding do_create_close_unlink
  create_close_unlink-Done s t name e =
      let (fd, u, opened, e1) =
        open_inv (calls.openat s name creat)
          (λ fd u.
            let (ok_, w) = calls.close u fd in if ok_ then calls.unlinkat w name else (false, w))
          t e in
      let (w, closed, e2) = then_inv (calls.close u fd) (λ w. calls.unlinkat w name) t e1 in
      let (made, others, fds) = b.open_creates s u name fd opened in
      let kept : SameNames v u w = names_of (calls.close u fd) closed (b.close_names u fd) in
      let (gone, others', fds') = unlink-Done w t name e2 in
      (
        gone,
        λ other ne. others' other ne ∙ kept other ∙ others other ne,
        λ g. fds' g ∙ close-Opens s u w fd fds closed g,
      )

  create_unlink_close-Done :
      (s t : S) (name : List ℕ)
      → do_create_unlink_close calls s name ≡ (true, t)
      → Done create_unlink_close name s t
  unfolding do_create_unlink_close
  create_unlink_close-Done s t name e =
      let (fd, u, opened, e1) =
        open_inv (calls.openat s name creat)
          (λ fd u.
            let (ok_, w) = calls.unlinkat u name in if ok_ then calls.close w fd else (false, w))
          t e in
      let (w, unlinked, closed) = then_inv (calls.unlinkat u name) (λ w. calls.close w fd) t e1 in
      let (made, others, (was, now, rest)) = b.open_creates s u name fd opened in
      let (gone, others', fds') = unlink-Done u w name unlinked in
      let kept : SameNames v w t = names_of (calls.close w fd) closed (b.close_names w fd) in
      let fds : Opens v fd s w = (was, fds' fd ∙ now, λ g ne. fds' g ∙ rest g ne) in
      (
        kept name ∙ gone,
        λ other ne. kept other ∙ others' other ne ∙ others other ne,
        close-Opens s w t fd fds closed,
      )

  stat-Done : (s t : S) (name : List ℕ) → do_stat calls s name ≡ (true, t) → Done stat name s t
  unfolding do_stat
  stat-Done s t name e =
      let at : (calls.fstatat s name).1 ≡ t = go (calls.fstatat s name) e in
      (
        ap (λ u. v.has u name) (sym at) ∙ b.stat_names s name name,
        λ other _. ap (λ u. v.has u other) (sym at) ∙ b.stat_names s name other,
        λ fd. ap (λ u. v.is_open u fd) (sym at) ∙ b.stat_fds s name fd,
      )
    where
      go :
          (r : Answer × S)
          → (elim r.0 as (λ _. Bool × S) [
            | error ↦ (false, r.1)
            | success ↦ (true, r.1)
            | enoent ↦ (true, r.1)
          ])
            ≡ (true, t)
          → r.1 ≡ t
      go (success, u) e' = cc
      go (enoent, u) e' = cc
      go (error, u) e' = cc

  -- An operation that returns 0 leaves the directory as `expected` says, all other names as they
  -- were, and no descriptor open that was not. The system calls behave as they are documented.
  pub run_op-Done :
      (op : Op) (s t : S) (name : List ℕ) → run_op calls op s name ≡ (true, t) → Done op name s t
  unfolding run_op
  run_op-Done stat s t name e = stat-Done s t name e
  run_op-Done open_file s t name e = open_file-Done s t name e
  run_op-Done create s t name e = create-Done s t name e
  run_op-Done unlink s t name e = unlink-Done s t name (unfold do_unlink in e)
  run_op-Done create_close_unlink s t name e = create_close_unlink-Done s t name e
  run_op-Done create_unlink_close s t name e = create_unlink_close-Done s t name e

  -- Where `unlinkat` fails, `do_create_unlink_close` returns -1 with its descriptor still open.
  pub create_unlink_close_leaks :
      (s t u : S) (name : List ℕ) (fd : ℕ)
      → calls.openat s name creat ≡ (some fd, t)
      → calls.unlinkat t name ≡ (false, u)
      → (run_op calls create_unlink_close s name ≡ (false, u))
        × (v.is_open s fd ≡ false)
        × (v.is_open u fd ≡ true)
        × (v.has u name ≡ true)
  unfolding run_op do_create_unlink_close
  create_unlink_close_leaks s t u name fd opened fails =
      let rest : ℕ → S → Bool × S = λ g w.
        (let (unlinked, x) = calls.unlinkat w name in
          if unlinked then calls.close x g else (false, x)) in
      let (made, _, (was, now, _)) = b.open_creates s t name fd opened in
      (
        ap
              (λ (r : Option ℕ × S). elim r.0 as (λ _. Bool × S) [
                | none ↦ (false, r.1)
                | some g ↦ rest g r.1
              ])
              opened
            ∙ ap (λ (r : Bool × S). if r.0 then calls.close r.1 fd else (false, r.1)) fails,
        was,
        ap (λ (r : Bool × S). v.is_open r.1 fd) (sym fails) ∙ b.unlink_fds t name fd ∙ now,
        b.unlink_fails t u name fails ∙ made,
      )
