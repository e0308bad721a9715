-- ===== src/Elf/Notes.antt =====
-- Notes as values: what an `Elf64_Nhdr` and the bytes behind it stand for.
use kernel_stuff.Common.{ℕ, List, [], ◌∷◌, ◌++◌}

-- A note: the text of its name, its type and its descriptor.
pub record Note : Type 0 where
  pub name : List ℕ
  pub type : ℕ
  pub desc : List ℕ

-- The name field, with its NUL.
abbrev pub name_field : Note → List ℕ
name_field n = n.name ++ (0 ∷ [])
