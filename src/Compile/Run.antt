-- ===== src/Compile/Run.antt =====
-- `main` of src/vdnsdb.c: the loop over the lines, and the file that it leaves.
pub mod Enough
use geoipdns.Base.{
  ℕ, zero, suc, ◌+◌, Bool, true, false, ◌||◌, Option, none, some, List, [], ◌∷◌, ◌++◌, length,
  byte_at, set, ◌==◌, if◌then◌else◌, ◌>>=◌, u32,
}
use geoipdns.Uint.{uint32_pack_big}
use geoipdns.Ip4.{Ip}
use geoipdns.Cdb.{byte_equal}
use geoipdns.Cdb.Make.{cdb_make_start, cdb_make_finish}
use geoipdns.Compile.Parse.{getln, trim, fields}
use geoipdns.Compile.Record.{Out}
use geoipdns.Compile.Line.{
  net_line, soa_line, ns_line, a_line, mx_line, name_line, txt_line, any_line,
}

-- "\0\0\100\000\0\0\010\000\0\020\000\000\0\0\012\000"
abbrev soa_times : List ℕ
soa_times = 0 ∷ 0 ∷ 64 ∷ 0 ∷ 0 ∷ 0 ∷ 8 ∷ 0 ∷ 0 ∷ 16 ∷ 0 ∷ 0 ∷ 0 ∷ 0 ∷ 10 ∷ 0 ∷ []

unfoldable pub defaultsoa_init : ℕ → List ℕ
defaultsoa_init mtime =
    let serial = uint32_pack_big (u32 mtime) in
    (if byte_equal serial (0 ∷ 0 ∷ 0 ∷ 0 ∷ []) then set serial 3 1 else serial) ++ soa_times

-- What the lines change: the database, and the bytes of `ipa`.
pub record Progress : Type 0 where
  pub out : Out
  pub ipa : Ip

-- What every line but `%` does to it.
abbrev keep_ipa : Progress → Option Out → Option Progress
keep_ipa s o = o >>= λ out. some (record s { out = out })

-- `byte_zero(ipa,4)`
abbrev zeros : Ip
zeros = record { a = 0; b = 0; c = 0; d = 0 }

-- The `switch` on the first byte.
unfoldable pub do_line : List ℕ → ℕ → List (List ℕ) → Progress → Option Progress
do_line defaultsoa ch f s =
    if ch == b'%'
    then some (record { out = net_line s.ipa f s.out; ipa = zeros })
    else if ch == b'Z'
    then keep_ipa s (soa_line defaultsoa f s.out)
    else if ch == b'.' || ch == b'&'
    then keep_ipa s (ns_line defaultsoa (ch == b'.') f s.out)
    else if ch == b'+' || ch == b'='
    then keep_ipa s (a_line (ch == b'=') f s.out)
    else if ch == b'@'
    then keep_ipa s (mx_line f s.out)
    else if ch == b'^' || ch == b'C'
    then keep_ipa s (name_line (ch == b'C') f s.out)
    else if ch == b'\''
    then keep_ipa s (txt_line f s.out)
    else if ch == b':'
    then keep_ipa s (any_line f s.out)
    else none

-- The lines that are passed over: empty ones, and those that begin with `#` or `-`.
abbrev is_passed : List ℕ → Bool
is_passed line = (length line == 0) || byte_at line 0 == b'#' || byte_at line 0 == b'-'

unfoldable pub one_line : List ℕ → List ℕ → Progress → Option Progress
one_line defaultsoa raw s =
    let line = trim raw in
    if is_passed line then some s else do_line defaultsoa (byte_at line 0) (fields line) s

-- `while (match)`: the last line is the one without an end. A line takes a byte of the input at
-- least, so a round for each byte, and one more, are enough.
unfoldable pub lines_loop : ℕ → List ℕ → List ℕ → Progress → Option Progress
lines_loop zero defaultsoa input s = none
lines_loop (suc fuel) defaultsoa input s = one_line defaultsoa ((getln input).0) s >>= λ s'.
    elim ((getln input).1) [
      | true ↦ lines_loop fuel defaultsoa ((getln input).2) s'
      | false ↦ some s'
    ]

-- The database file that is made of the data file; `ipa` are the bytes that the array holds at the
-- start, which the source does not set.
unfoldable pub main : ℕ → Ip → List ℕ → Option (List ℕ)
main mtime ipa input = do
  s ←
      lines_loop (length input + 1) (defaultsoa_init mtime) input
        (record { out = record { cdb = cdb_make_start; result = [] }; ipa = ipa })
  cdb_make_finish s.out.cdb
