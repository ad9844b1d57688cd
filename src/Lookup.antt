-- ===== src/Lookup.antt =====
-- src/tdlookup.c: from a question to the records of the response.
-- The globals of the file that a function reads are the fields of `State`, with those locals of
-- `doit` that its loops change; `data` holds `dlen` bytes. `some` of a state is a step that goes on,
-- and `none` a return of 0, after which the server drops the response.
-- `find` starts a search again from where `cdb_findnext` left it. A loop of finds ends: each moves
-- on in a table of fewer than 2^32 slots. So the fuel of those loops is 2^32 calls.
pub mod Parse
pub mod Find
pub mod Records
pub mod Answer
pub mod Respond
