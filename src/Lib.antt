-- ===== src/Lib.antt =====
-- Models of the C programs of this repository, and theorems about them.
--
-- The programs are independent of one another; they share the modules below.
-- - Common: names of the libraries, lists over native numbers, and `Run`, the result of code that
--   may exit, fail an assertion or meet undefined behaviour (`Stop`).
-- - Bytes, CString, Posix: integers in memory in either byte order, NUL-terminated strings, and an
--   open regular file with `lseek`, `read` and `write`. A read or write of an open file may fail at
--   given offsets and is never interrupted; `calloc` and `malloc` succeed.
--
-- editbuildid/editbuildid.c:
-- - Elf: `struct elfinfo`, `getfield`, `getaddr`. The structures of <elf.h> are given by the offsets
--   of their members in the two classes; the platform's own byte order is a parameter.
-- - Hex: `nibble_to_hex`, `hex_to_nibble`, `to_hex`, `from_hex`.
-- - BuildId.Note: `pad4`, `note_desc`, `next_note`, `end_notes`, `fetch_data`, `find_buildid`.
-- - BuildId.Table: `find_notes_phdr`, `find_buildid_phdr` and their `_shdr` twins.
-- - BuildId.Main: `find_build_id`, `write_new_buildid`, `main`. Options come as `getopt_long`
--   returns them; messages on stderr and the usage text are left out.
-- - Elf.Notes, BuildId.Note.Values, BuildId.Table.Complete and BuildId.Main.Complete: notes, table
--   entries and a whole file as values, with the bytes that stand for them in either byte order.
-- A pointer into a block of memory is the offset in it; a read past the end of the block stops the
-- run. The loops over notes and over table entries take fuel: one more than the bytes of the block,
-- and one more than the entries of the table.
--
-- crashstash/crashstash.c:
-- - Stash: the module's variables and `crashstash_free`, `crashstash_open`, `crashstash_release`,
--   `crashstash_write`, `crashstash_read`. Each of them runs under one lock, so each is one step. A
--   page has 4096 bytes; what `alloc_page` gives and how much of the user's memory can be read or
--   written are arguments; `copy_from_user` fills with zeros what it cannot copy. The write loop takes
--   fuel, one more than the bytes to write.
--
-- elf/phys2virt.c:
-- - Phys2Virt: `phys2virt` on an open file and `main`; a failure is `exit` with status 1. The table
--   of program headers is a block of bytes, as `fread` fills it; buffering by stdio is left out.
--
-- vmcoreinfo/editvmcoreinfo.c:
-- - VmcoreInfo: `read_newdata` and `read_elfdata`, on a little-endian host; the loop over the notes
--   takes fuel, one more than the bytes of the block.
-- - VmcoreInfo.Notes and VmcoreInfo.Vmcore: notes and a whole vmcore as values, with the bytes that
--   stand for them; VmcoreInfo.Reading is what `read_elfdata` makes of such a vmcore.
-- - VmcoreInfo.Edit: `update_offsets`, `sendfile_loop`, `shift_data`, `main`. The temporary file is
--   an argument; the copy loop takes fuel, one more than the bytes to copy. `ftruncate` to a smaller
--   size and seeks to an end succeed.
--
-- negdentcreate/negdentcreate.c:
-- - Negdent: the operations (`do_stat` to `do_create_unlink_close`) over the system calls, which are
--   an argument; `OPERATIONS`, the option loop, and the division of the work.
-- - Negdent.Names: the file names. Negdent.Effect: the inner loop of `stat_worker` with its calls.
-- - Negdent.Workers: the threads and `main` as a step relation. A step is one access to what the
--   threads share, or one call; `arg->op` with the increment of `arg->cur` is one step, and so are the
--   reads of one `struct work` by `main`. The threads, `main` and the signal handler take their steps
--   in any order. `pthread_create` and the signal calls succeed. Which calls have failed and which
--   operations have returned 0 is logged beside the state.
--
-- vmcoreinfo/dumpphys.c:
-- - Dumpphys: `get_memory_info`, the two page functions, and the loops of `count_pages`, which take
--   fuel, one more than a bound on the page frames. A core that libkdumpfile has open is a record of
--   functions (`Kdump`); what is documented of its page map is `IsPageMap` in Dumpphys.Image.
-- - Dumpphys.Main: the options and `main`. Dumpphys.Progress: `struct progress` and its functions,
--   over integers without a bound (Common.Int).
--
-- drgn_vmalloc_test/drgn_vmalloc_test.c:
-- - VmallocTest: the kernel module's variables, `init_dentryref` and `cleanup`, with the calls that
--   they make; what the kernel's allocators give is an argument. A page has 4096 bytes.
--
-- assoc_array_gc/repro.c (and repro_fixed.c, with the same text):
-- - ArrayRepro: the helpers `mknode` to `get_parent`, `make_array` on the statements of
--   construct_array.c, the printing, `my_iterator` and `main`. The heap is a list of nodes; `calloc`
--   succeeds, and it is told apart what a pointer leads to. The garbage collection is an argument.
-- - ArrayRepro.Trees: trees as values, the statements that assoc_array_constructor.py makes of one,
--   its nodes and its lines. ArrayRepro.Steps, Build and Print: the two passes over a tree.
--
-- ctf/ctfdictprint.c:
-- - CtfPrint: every function. libctf is an argument; what it documents of its visitor is `IsIter`.
--
-- Not modelled: the copies of the kernel's assoc_array code, generated code, the scripts, and the
-- small programs that only call a library or the kernel (vmcoreinfo/get_vmcoreinfo.c,
-- ftrace_killer/ftrace_killer.c, openclose/openclose.c).
pub mod ArrayRepro
pub mod BuildId
pub mod Bytes
pub mod CString
pub mod Common
pub mod CtfPrint
pub mod Dumpphys
pub mod Elf
pub mod Hex
pub mod Negdent
pub mod Phys2Virt
pub mod Posix
pub mod Stash
pub mod VmallocTest
pub mod VmcoreInfo
