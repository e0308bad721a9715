-- ===== src/Negdent/Disk.antt =====
-- A small file system for runs of negdentcreate, which behaves as it is documented.
use kernel_stuff.Common.{
  ℕ, ◌≡◌, refl, ap, ◌∙◌, ◌≢◌, inl, inr, Bool, true, false, not, ◌&&◌, none, some, List, [], ◌∷◌,
  ◌==◌, if◌then◌else◌, arith, Bool-cases,
}
use kernel_stuff.Negdent.{success, enoent, Flags, rdonly, creat, Calls, same_text}
use kernel_stuff.Negdent.Ops.{View, Behaves, Opens}

-- A system with one directory and room for one open descriptor, 3.
abbrev pub Disk : Type 0
Disk = (List ℕ → Bool) × Bool

abbrev pub put : (List ℕ → Bool) → List ℕ → Bool → List ℕ → Bool
put names name b other = if same_text other name then b else names other

abbrev pub disk : Calls Disk
disk = record {
  fstatat = λ d name. (if d.0 name then success else enoent, d);
  openat = λ d name flags. elim flags [
    | rdonly ↦ if not d.1 && d.0 name then (some 3, (d.0, true)) else (none, d)
    | creat ↦ if d.1 then (none, d) else (some 3, (put d.0 name true, true))
  ];
  close = λ d fd. if fd == 3 && d.1 then (true, (d.0, false)) else (false, d);
  unlinkat = λ d name. if d.0 name then (true, (put d.0 name false, d.1)) else (false, d);
}

abbrev pub disk_view : View Disk
disk_view = record { has = λ d name. d.0 name; is_open = λ d fd. fd == 3 && d.1 }

same_text_refl : (a : List ℕ) → same_text a a ≡ true
unfolding same_text
same_text_refl [] = refl
same_text_refl (x ∷ xs) = ground (arith, same_text_refl xs)

same_text_sound : (a b : List ℕ) → same_text a b ≡ true → a ≡ b
unfolding same_text
same_text_sound [] [] h = refl
same_text_sound [] (y ∷ ys) h = cc
same_text_sound (x ∷ xs) [] h = cc
same_text_sound (x ∷ xs) (y ∷ ys) h = ground (arith, same_text_sound xs ys)

put_self : (names : List ℕ → Bool) (name : List ℕ) (b : Bool) → put names name b name ≡ b
put_self names name b = rw (same_text_refl name) refl

put_other :
    (names : List ℕ → Bool) (name : List ℕ) (b : Bool) (other : List ℕ)
    → other ≢ name
    → put names name b other ≡ names other
put_other names name b other ne = elim (Bool-cases (same_text other name)) [
  | inl same ↦ absurd (ne (same_text_sound other name same))
  | inr apart ↦ rw apart refl
]

disk_open_fails :
    (s t : Disk) (name : List ℕ) (flags : Flags) → disk.openat s name flags ≡ (none, t) → t ≡ s
disk_open_fails s t name rdonly e = ground arith
disk_open_fails s t name creat e = ground arith

disk_open_reads :
    (s t : Disk) (name : List ℕ) (fd : ℕ)
    → disk.openat s name rdonly ≡ (some fd, t)
    → (fd ≡ 3) × (s.1 ≡ false) × (t ≡ (s.0, true))
disk_open_reads s t name fd e = ground arith

disk_open_creates :
    (s t : Disk) (name : List ℕ) (fd : ℕ)
    → disk.openat s name creat ≡ (some fd, t)
    → (fd ≡ 3) × (s.1 ≡ false) × (t ≡ (put s.0 name true, true))
disk_open_creates s t name fd e = ground arith

disk-Opens : (s t : Disk) (fd : ℕ) → fd ≡ 3 → s.1 ≡ false → t.1 ≡ true → Opens disk_view fd s t
disk-Opens s t fd e was now = (ground arith, ground arith, λ g ne. ground arith)

disk_unlinked :
    (s : Disk) (name other : List ℕ) → other ≢ name → (disk.unlinkat s name).1.0 other ≡ s.0 other
disk_unlinked s name other ne = elim (Bool-cases (s.0 name)) [
  | inl there ↦ rw there (put_other s.0 name false other ne)
  | inr gone ↦ rw gone refl
]

disk_removes :
    (s t : Disk) (name : List ℕ) → disk.unlinkat s name ≡ (true, t) → t ≡ (put s.0 name false, s.1)
disk_removes s t name e = ground arith

disk_unlink_fails : (s t : Disk) (name : List ℕ) → disk.unlinkat s name ≡ (false, t) → t ≡ s
disk_unlink_fails s t name e = ground arith

pub disk-Behaves : Behaves disk_view disk
disk-Behaves = record {
  stat_names = λ s name other. refl;
  stat_fds = λ s name fd. refl;
  open_fails = λ s t name flags e. (
    λ other. ap (λ (u : Disk). u.0 other) (disk_open_fails s t name flags e),
    λ fd. ap (λ (u : Disk). fd == 3 && u.1) (disk_open_fails s t name flags e),
  );
  open_reads = λ s t name fd e.
      let (at, was, new) = disk_open_reads s t name fd e in
      (
        λ other. ap (λ (u : Disk). u.0 other) new,
        disk-Opens s t fd at was (ap (λ (u : Disk). u.1) new),
      );
  open_creates = λ s t name fd e.
      let (at, was, new) = disk_open_creates s t name fd e in
      (
        ap (λ (u : Disk). u.0 name) new ∙ put_self s.0 name true,
        λ other ne. ap (λ (u : Disk). u.0 other) new ∙ put_other s.0 name true other ne,
        disk-Opens s t fd at was (ap (λ (u : Disk). u.1) new),
      );
  close_names = λ s fd name. ground arith;
  close_others = λ s fd g ne. ground arith;
  close_closes = λ s t fd e. ground arith;
  unlink_fds = λ s name fd. ground arith;
  unlink_others = disk_unlinked;
  unlink_removes =
      λ s t name e. ap (λ (u : Disk). u.0 name) (disk_removes s t name e) ∙ put_self s.0 name false;
  unlink_fails = λ s t name e. ap (λ (u : Disk). u.0 name) (disk_unlink_fails s t name e);
}
