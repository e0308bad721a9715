-- ===== src/Phys2Virt/Tests.antt =====
-- The program on a small core file (elf/phys2virt.c).
use kernel_stuff.Common.{
  ℕ, ◌^◌, ◌≡◌, refl, inr, false, some, List, [], ◌∷◌, ◌++◌, length, arith, replicate, slice,
}
use kernel_stuff.Common.Run.{ok}
use kernel_stuff.Bytes.{little, big, bswap, of_le, to_le}
use kernel_stuff.Bytes.Laws.{IsBytes_of_all}
use kernel_stuff.Posix.{File, IsFile, seek_set, fread, fwrite}
use kernel_stuff.Phys2Virt.{
  header_field, phys2virt, new_vaddr, set_vaddrs, rewrite_table, read_opts, zero_vaddr, main,
}
use kernel_stuff.Phys2Virt.Rewrite.{IsRewritable}
use kernel_stuff.Phys2Virt.Whole.{IsCore, phys2virt_lem}

-- A big-endian ELF64 header with one program header behind it, and a byte behind that.
abbrev header : List ℕ
header =
    (0x7f ∷ b'E' ∷ b'L' ∷ b'F' ∷ 2 ∷ 2 ∷ [])
    ++ (replicate 33 0 ++ (64 ∷ (replicate 14 0 ++ (0 ∷ 56 ∷ 0 ∷ 1 ∷ replicate 6 0))))

abbrev segment : List ℕ → List ℕ
segment vaddr = replicate 16 1 ++ (vaddr ++ (replicate 8 3 ++ replicate 24 4))

abbrev core_with : List ℕ → File
core_with vaddr = record {
  bytes = header ++ (segment vaddr ++ (9 ∷ []));
  pos = 0;
  max_offset = 2 ^ 60;
  read_fails = λ _. false;
  write_fails = λ _. false;
}

abbrev core : File
core = core_with (replicate 8 2)

core-IsFile : IsFile core
core-IsFile = record {
  content = IsBytes_of_all (header ++ (segment (replicate 8 2) ++ (9 ∷ []))) refl;
  offsets = omega arith;
  size = omega arith;
}

core-IsRewritable : IsRewritable core 64 1
core-IsRewritable = record { inside = omega arith; reads = refl; writes = refl }

copied : phys2virt little false core ≡ ok (record (core_with (replicate 8 3)) { pos = 120 })
unfolding phys2virt header_field rewrite_table set_vaddrs new_vaddr seek_set fread fwrite bswap
    of_le to_le
copied = refl

cleared :
    main big (λ _. some core) (zero_vaddr ∷ []) ([] ∷ [])
    ≡ ok (record (core_with (replicate 8 0)) { pos = 120 })
unfolding main read_opts phys2virt header_field rewrite_table set_vaddrs new_vaddr seek_set fread
    fwrite bswap of_le to_le
cleared = refl

core-IsCore : IsCore core 2 64 1
unfolding of_le
core-IsCore = record {
  size = omega arith;
  ident = refl;
  data_order = refl;
  known_order = inr refl;
  e_phoff = refl;
  e_phnum = refl;
  e_phentsize = refl;
}

phys2virt_lem_example :
    (g : File) × (phys2virt little false core ≡ ok g)
    × (length g.bytes ≡ 121)
    × (slice g.bytes 80 8 ≡ replicate 8 3)
    × (slice g.bytes 64 16 ≡ replicate 16 1)
    × (slice g.bytes 88 32 ≡ replicate 8 3 ++ replicate 24 4)
    × (slice g.bytes 120 1 ≡ 9 ∷ [])
phys2virt_lem_example =
    phys2virt_lem little false core 2 64 1 0 120 1 core-IsFile core-IsCore refl refl
      core-IsRewritable (omega arith) (inr (omega arith))
