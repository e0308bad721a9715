-- ===== src/Dumpphys/Progress.antt =====
-- The progress report of vmcoreinfo/dumpphys.c: `struct progress` and its functions. What is printed
-- is left out; times are what `clock_gettime` gives.
use kernel_stuff.Common.{
  ℕ, ◌+◌, ◌*◌, ◌%◌, ◌^◌, ◌≤◌, ◌<◌, ◌≡◌, refl, ◌↔◌, ◌⊎◌, inl, inr, Bool, true, false, not, ◌&&◌,
  ltb→lt, if◌then◌else◌, arith, Bool-cases,
}
use kernel_stuff.Common.Int.{
  ℤ, pos, negsuc, plus_part, minus_part, ◌-ℤ◌, ◌≤ℤ◌, ◌<ℤ◌, lt_test, -ℤ_parts,
}

-- `struct timespec`; the members are integers without a bound.
pub record Timespec : Type 0 where
  pub tv_sec : ℤ
  pub tv_nsec : ℤ

-- The result is the difference of two times.
unfoldable pub timespec_sub : Timespec → Timespec → Timespec
timespec_sub a b =
    let borrow = lt_test a.tv_nsec b.tv_nsec in
    let ret : Timespec =
      (if borrow
        then record { tv_sec = a.tv_sec -ℤ pos 1; tv_nsec = a.tv_nsec -ℤ negsuc 999_999_999 }
        else a) in
    record { tv_sec = ret.tv_sec -ℤ b.tv_sec; tv_nsec = ret.tv_nsec -ℤ b.tv_nsec }

abbrev same_int : ℤ → ℤ → Bool
same_int x y = not (lt_test x y) && not (lt_test y x)

unfoldable pub timespec_cmp : Timespec → Timespec → ℤ
timespec_cmp a b =
    if same_int a.tv_sec b.tv_sec then a.tv_nsec -ℤ b.tv_nsec else a.tv_sec -ℤ b.tv_sec

-- `struct progress`
pub record Progress : Type 0 where
  pub total_bytes : ℕ
  pub current_bytes : ℕ
  pub start_time : Timespec
  pub last_update : Timespec
  pub update_interval : Timespec
  pub print : Bool

-- The new state, and whether a line is printed.
unfoldable pub progress_update : Progress → (force : Bool) → ℕ → (now : Timespec) → Progress × Bool
progress_update prog force add_bytes now =
    let counted : Progress = record prog {
      current_bytes = (prog.current_bytes + add_bytes) % 2 ^ 64;
    } in
    let since_last = timespec_sub now prog.last_update in
    if not prog.print
    then (prog, false)
    else if not force && lt_test (timespec_cmp since_last prog.update_interval) (pos 0)
    then (counted, false)
    else (record counted { last_update = now }, true)

unfoldable pub progress_complete : Progress → (now : Timespec) → Progress × Bool
progress_complete prog now = if prog.print then progress_update prog true 0 now else (prog, false)

-- `prog` is what the variable held before.
unfoldable pub progress_init : Progress → (verbose : Bool) → ℕ → (now : Timespec) → Progress
progress_init prog verbose total now =
    if verbose
    then record {
      total_bytes = total;
      current_bytes = 0;
      start_time = now;
      last_update = record { tv_sec = pos 0; tv_nsec = pos 0 };
      update_interval = record { tv_sec = pos 0; tv_nsec = pos 200_000_000 };
      print = true;
    }
    else record prog { print = false }

-- A time with its nanoseconds in range.
abbrev pub IsNormal : Timespec → Type 0
IsNormal t = (pos 0 ≤ℤ t.tv_nsec) × (t.tv_nsec <ℤ pos 1_000_000_000)

-- In nanoseconds, as a difference of two numbers: what counts up and what counts down.
abbrev pub up_ns : Timespec → ℕ
up_ns t = 1_000_000_000 * plus_part t.tv_sec + plus_part t.tv_nsec

abbrev pub down_ns : Timespec → ℕ
down_ns t = 1_000_000_000 * minus_part t.tv_sec + minus_part t.tv_nsec

lt_test-false : (x y : ℤ) → lt_test x y ≡ false → y ≤ℤ x
lt_test-false x y h = ground arith

same_int_lem : (x y : ℤ) → same_int x y ≡ true → (x ≤ℤ y) × (y ≤ℤ x)
same_int_lem x y h = ground arith

other_int_lem : (x y : ℤ) → same_int x y ≡ false → (x <ℤ y) ⊎ (y <ℤ x)
other_int_lem x y h = ground arith

-- The difference of two normal times is normal, and exact.
timespec_sub_exact :
    (a b : Timespec)
    → IsNormal a
    → IsNormal b
    → IsNormal (timespec_sub a b)
      × (up_ns (timespec_sub a b) + down_ns a + up_ns b
          ≡ down_ns (timespec_sub a b) + up_ns a + down_ns b)
unfolding timespec_sub
timespec_sub_exact a b ha hb = elim (Bool-cases (lt_test a.tv_nsec b.tv_nsec)) [
  | inl borrow ↦
      let less : a.tv_nsec <ℤ b.tv_nsec = ltb→lt _ _ borrow in rw borrow (omega (arith, -ℤ_parts))
  | inr plain ↦
      let more : b.tv_nsec ≤ℤ a.tv_nsec = lt_test-false a.tv_nsec b.tv_nsec plain in
      rw plain (omega (arith, -ℤ_parts))
]

-- The sign of the comparison of two normal times is that of their difference.
timespec_cmp_sign :
    (a b : Timespec)
    → IsNormal a
    → IsNormal b
    → ((timespec_cmp a b <ℤ pos 0) ↔ (up_ns a + down_ns b < down_ns a + up_ns b))
      × ((pos 0 <ℤ timespec_cmp a b) ↔ (down_ns a + up_ns b < up_ns a + down_ns b))
unfolding timespec_cmp
timespec_cmp_sign a b ha hb = elim (Bool-cases (same_int a.tv_sec b.tv_sec)) [
  | inl same ↦
      let (low, high) = same_int_lem a.tv_sec b.tv_sec same in rw same (omega (arith, -ℤ_parts))
  | inr other ↦ rw other (elim (other_int_lem a.tv_sec b.tv_sec other) [
    | inl less ↦ omega (arith, -ℤ_parts)
    | inr more ↦ omega (arith, -ℤ_parts)
  ])
]

-- In verbose mode an update that is not forced prints exactly if the update interval has passed
-- since the last one that printed; it then moves the time of the last update to now. It counts the
-- bytes in both cases. The times are normal.
pub progress_update-printed :
    (prog : Progress) (add_bytes : ℕ) (now : Timespec)
    → prog.print ≡ true
    → IsNormal now
    → IsNormal prog.last_update
    → IsNormal prog.update_interval
    → let (prog', printed) = progress_update prog false add_bytes now in
      ((printed ≡ true) ↔ (
        up_ns prog.last_update + up_ns prog.update_interval + down_ns now
        ≤ up_ns now + down_ns prog.last_update + down_ns prog.update_interval))
      × (prog'.last_update ≡ (if printed then now else prog.last_update))
      × (prog'.current_bytes ≡ (prog.current_bytes + add_bytes) % 2 ^ 64)
unfolding progress_update
progress_update-printed prog add_bytes now on hn hl hi =
    let since : Timespec = timespec_sub now prog.last_update in
    let (normal, exact) = timespec_sub_exact now prog.last_update hn hl in
    let (below, above) = timespec_cmp_sign since prog.update_interval normal hi in
    elim (Bool-cases (lt_test (timespec_cmp since prog.update_interval) (pos 0))) [
      | inl soon ↦
          let early : up_ns since + down_ns prog.update_interval
              < down_ns since + up_ns prog.update_interval =
            below.0 (ltb→lt _ _ soon) in
          rw (on, soon) ((λ e. cc, λ h. absurd (omega (arith, early, exact))), refl, refl)
      | inr late ↦
          let due : ¬ (
              up_ns since + down_ns prog.update_interval
              < down_ns since + up_ns prog.update_interval) =
            λ h. absurd (
              omega (
                arith,
                below.1 h,
                lt_test-false (timespec_cmp since prog.update_interval) (pos 0) late,
              )) in
          rw (on, late) ((λ e. omega (arith, due, exact), λ h. refl), refl, refl)
    ]
