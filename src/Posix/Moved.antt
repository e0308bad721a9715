-- ===== src/Posix/Moved.antt =====
-- Calls that leave a file as it is, but for its offset.
use kernel_stuff.Common.{ℕ, ◌≡◌, arith}
use kernel_stuff.Posix.{File, seek_set, read}

-- The same open file, perhaps at another file offset.
abbrev pub Moved : File → File → Type 0
Moved f g = g ≡ record f { pos = g.pos }

pub seek_set-Moved : (f : File) (offset : ℕ) → Moved f (seek_set f offset).1
unfolding seek_set
seek_set-Moved f offset = ground arith

pub read-Moved : (f : File) (n : ℕ) → Moved f (read f n).1
unfolding read
read-Moved f n = ground arith

pub Moved-trans : (f g h : File) → Moved f g → Moved g h → Moved f h
Moved-trans f g h p q = cc
