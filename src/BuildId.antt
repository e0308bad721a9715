-- ===== src/BuildId.antt =====
-- editbuildid/editbuildid.c: find the build ID note of an ELF file, print it or overwrite it.
-- `Note` walks the notes of one segment or section, `Table` a program or section header table,
-- `Main` is the search through the whole file and the command.
pub mod Note
pub mod Table
pub mod Main
mod Tests
