-- ===== src/Posix.antt =====
-- The calls of the C library that work on an open regular file, as far as the programs use them.
pub mod Moved
pub mod Writes
use kernel_stuff.Common.{
  ◌||◌, ◌==◌, ℕ, ◌+◌, ◌-◌, ◌≤◌, ◌<◌, ◌^◌, List, ◌++◌, Bool, true, false, Option, none, some, leb,
  min, if◌then◌else◌, slice, length, take, drop, replicate,
}
use kernel_stuff.Bytes.{IsBytes}

-- An open file: its content, the file offset, the largest offset that its file system takes, and
-- the offsets at which a read or a write fails with an error.
pub record File : Type 0 where
  pub bytes : List ℕ
  pub pos : ℕ
  pub max_offset : ℕ
  pub read_fails : ℕ → Bool
  pub write_fails : ℕ → Bool

-- What the kernel guarantees of such a file: offsets are non-negative values of `loff_t`.
pub record IsFile (f : File) : Type 0 where
  pub content : IsBytes f.bytes
  pub offsets : f.max_offset < 2 ^ 63
  pub size : length f.bytes ≤ f.max_offset

-- The most bytes that one read or write transfers.
abbrev pub max_rw_count : ℕ
max_rw_count = 0x7fff_f000

-- `lseek(fd, offset, SEEK_SET)`, and whether it succeeds.
unfoldable pub seek_set : File → ℕ → Bool × File
seek_set f offset =
    if leb offset f.max_offset then (true, record f { pos = offset }) else (false, f)

-- `read(fd, buf, n)`; `none` is the result -1.
unfoldable pub read : File → ℕ → Option (List ℕ) × File
read f n =
    let got = slice f.bytes f.pos (min n max_rw_count) in
    if f.read_fails f.pos then (none, f) else (some got, record f { pos = f.pos + length got })

-- The content after `new` is written at an offset; a gap before it is filled with zeros.
abbrev pub write_at : List ℕ → ℕ → List ℕ → List ℕ
write_at old at new =
    take at old ++ (replicate (at - length old) 0 ++ (new ++ drop (at + length new) old))

-- `write(fd, buf, n)` of the bytes of `buf`; `none` is the result -1.
unfoldable pub write : File → List ℕ → Option ℕ × File
write f buf =
    let new = take max_rw_count buf in
    if f.write_fails f.pos then (none, f) else (
      some (length new),
      record f { bytes = write_at f.bytes f.pos new; pos = f.pos + length new },
    )

-- `fread(buf, size, count, f)` of `n = size * count` bytes that gives all of them, or `none`.
unfoldable pub fread : File → ℕ → Option (List ℕ) × File
fread f n =
    let got = slice f.bytes f.pos n in
    if f.read_fails f.pos
    then (none, f)
    else if length got == n
    then (some got, record f { pos = f.pos + n })
    else (none, record f { pos = f.pos + length got })

-- `fwrite`, and whether all bytes are written. Buffering is not modelled.
unfoldable pub fwrite : File → List ℕ → Bool × File
fwrite f buf =
    if f.write_fails f.pos
    then (false, f)
    else (true, record f { bytes = write_at f.bytes f.pos buf; pos = f.pos + length buf })

-- `lseek(fd, 0, SEEK_END)`: the size.
unfoldable pub seek_end : File → ℕ × File
seek_end f = (length f.bytes, record f { pos = length f.bytes })

-- `ftruncate(fd, size)` to a size that is not larger.
unfoldable pub truncate : File → ℕ → File
truncate f size = record f { bytes = take size f.bytes }

-- What a copy between two files leaves: both, and the number of bytes, `none` for -1.
pub record Sent : Type 0 where
  pub sent : Option ℕ
  pub dst : File
  pub src : File

-- `sendfile(dst, src, NULL, n)`. A count that is negative as `ssize_t` is refused.
unfoldable pub sendfile : File → File → ℕ → Sent
sendfile dst src n =
    let part = slice src.bytes src.pos (min n max_rw_count) in
    if leb (2 ^ 63) n || (src.read_fails src.pos || dst.write_fails dst.pos)
    then record { sent = none; dst = dst; src = src }
    else record {
      sent = some (length part);
      dst = record dst { bytes = write_at dst.bytes dst.pos part; pos = dst.pos + length part };
      src = record src { pos = src.pos + length part };
    }
