-- ===== src/VmcoreInfo/Edit/Copy.antt =====
-- The copy loop (`sendfile_loop` of vmcoreinfo/editvmcoreinfo.c).
use kernel_stuff.Common.{
  ℕ, zero, suc, ◌+◌, ◌-◌, ◌^◌, ◌≤◌, ◌<◌, min, ◌≡◌, refl, sym, ap, ◌∙◌, inl, inr, true, false, none,
  some, List, ◌++◌, append_assoc, ltb, leb, if◌then◌else◌, length, arith, Bool-cases, take, drop,
  length-append, drop-drop, slice, length-slice, take-append-slice,
}
use kernel_stuff.Common.Run.{Run, ok}
use kernel_stuff.Posix.{File, Sent, max_rw_count, sendfile}
use kernel_stuff.Posix.Writes.{Works, write_at-end}
use kernel_stuff.VmcoreInfo.Edit.{Copied, sendfile_loop}

-- Both files after `n` bytes have been copied to the end of `dst`.
abbrev pub copied : File → File → ℕ → Copied
copied dst src n = record {
  is_done = true;
  dst = record dst { bytes = dst.bytes ++ slice src.bytes src.pos n; pos = dst.pos + n };
  src = record src { pos = src.pos + n };
}

abbrev round : File → File → ℕ → Sent
round dst src n = record {
  sent = some n;
  dst = (copied dst src n).dst;
  src = (copied dst src n).src;
}

-- What a round leaves, with the content of `dst` and the number of bytes given.
abbrev leaves : File → File → List ℕ → ℕ → Sent
leaves dst src content n = record {
  sent = some n;
  dst = record dst { bytes = content; pos = dst.pos + n };
  src = record src { pos = src.pos + n };
}

leaves_eq :
    (dst src : File) {a b : List ℕ} {n m : ℕ}
    → a ≡ b
    → n ≡ m
    → leaves dst src a n ≡ leaves dst src b m
leaves_eq dst src e k = cc

sendfile_lem :
    (dst src : File) (n : ℕ)
    → Works dst
    → Works src
    → dst.pos ≡ length dst.bytes
    → src.pos + n ≤ length src.bytes
    → n < 2 ^ 63
    → sendfile dst src n ≡ round dst src (min n max_rw_count)
unfolding sendfile
sendfile_lem dst src n wd ws at inside small =
    let test : leb (2 ^ 63) n ≡ false = ground arith in
    let part = slice src.bytes src.pos (min n max_rw_count) in
    let whole : length part ≡ min n max_rw_count =
      length-slice src.bytes src.pos (min n max_rw_count) (omega arith) in
    rw (test, (ws src.pos).0, (wd dst.pos).1)
      (leaves_eq dst src (write_at-end dst.bytes dst.pos part at) whole)

copied_eq :
    (dst src : File) {a b : List ℕ} {n m p q : ℕ}
    → a ≡ b
    → n ≡ m
    → p ≡ q
    → ◌≡◌ {A = Run Copied}
        (ok (record {
          is_done = true;
          dst = record dst { bytes = a; pos = n };
          src = record src { pos = p };
        }))
        (ok (record {
          is_done = true;
          dst = record dst { bytes = b; pos = m };
          src = record src { pos = q };
        }))
copied_eq dst src a b c = cc

round_step :
    (fuel : ℕ) (dst src : File) (amt cur c : ℕ)
    → sendfile dst src (amt - cur) ≡ round dst src c
    → sendfile_loop (suc fuel) dst src amt cur ≡ (
        let k = copied dst src c in
        if ltb (cur + c) amt then sendfile_loop fuel k.dst k.src amt (cur + c) else ok k)
unfolding sendfile_loop
round_step fuel dst src amt cur c e =
    ap
      (λ (s : Sent). elim s.sent as (λ _. Run Copied) [
        | none ↦ ok (record { is_done = false; dst = s.dst; src = s.src })
        | some rv ↦
            if ltb (cur + rv) amt
            then sendfile_loop fuel s.dst s.src amt (cur + rv)
            else ok (record { is_done = true; dst = s.dst; src = s.src })
      ])
      e

-- The loop copies what is left to copy, if `src` has as many bytes behind its offset.
pub sendfile_loop_lem :
    (fuel : ℕ) (dst src : File) (amt cur n : ℕ)
    → Works dst
    → Works src
    → dst.pos ≡ length dst.bytes
    → src.pos + n ≤ length src.bytes
    → n < 2 ^ 63
    → n + cur ≡ amt
    → n < fuel
    → sendfile_loop fuel dst src amt cur ≡ ok (copied dst src n)
sendfile_loop_lem zero dst src amt cur n wd ws at inside small left enough = absurd (omega arith)
sendfile_loop_lem (suc fuel) dst src amt cur n wd ws at inside small left enough =
    let c : ℕ = min n max_rw_count in
    let sent : sendfile dst src (amt - cur) ≡ round dst src c =
      ap (sendfile dst src) (omega arith) ∙ sendfile_lem dst src n wd ws at inside small in
    round_step fuel dst src amt cur c sent ∙ (elim (Bool-cases (ltb (cur + c) amt)) [
      | inl more ↦
          let mid : Copied = copied dst src c in
          let rest : sendfile_loop fuel mid.dst mid.src amt (cur + c)
              ≡ ok (copied mid.dst mid.src (n - c)) =
            sendfile_loop_lem fuel mid.dst mid.src amt (cur + c) (n - c) wd ws
              (omega (
                arith,
                length-append dst.bytes (slice src.bytes src.pos c),
                length-slice src.bytes src.pos c (omega arith),
              ))
              (omega arith) (omega arith) (omega arith) (ground arith) in
          rw (more, rest)
            (copied_eq dst src
              (append_assoc dst.bytes (slice src.bytes src.pos c)
                  (slice src.bytes (src.pos + c) (n - c))
                ∙ ap (λ l. dst.bytes ++ l)
                    (ap (λ l. slice src.bytes src.pos c ++ take (n - c) l)
                        (sym (drop-drop c src.pos (src.pos + c) src.bytes refl))
                      ∙ take-append-slice c (n - c) n (drop src.pos src.bytes) (omega arith)))
              (omega arith) (omega arith))
      | inr last ↦ let all : c ≡ n = ground arith in rw last (ap (λ k. ok (copied dst src k)) all)
    ])
