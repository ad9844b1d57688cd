-- ===== src/Compile.antt =====
-- src/vdnsdb.c: the compiler of the data file into the constant database.
-- `none` is the end of the process with code 111: a syntax error, a name that cannot be parsed
-- (`nomem`), or a record that the database has no room for. The files are opened, renamed and closed
-- outside of the model, and `mtime` is the time that `fstat` tells.
pub mod Parse
pub mod Record
pub mod Line
pub mod Run
mod Runs
