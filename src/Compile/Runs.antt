-- ===== src/Compile/Runs.antt =====
-- A record and a data file, compiled.
use geoipdns.Base.{ℕ, true, some, List, [], ◌∷◌, ◌++◌, drop, replicate, u32, ◌≡◌, refl, arith}
use geoipdns.Uint.{uint32_pack, uint32_pack_big}
use geoipdns.Text.{case_lowerb, lower}
use geoipdns.Dns.Domain.{dns_domain_length}
use geoipdns.Cdb.{byte_equal}
use geoipdns.Cdb.Make.{
  cdb_make_start, posplus, and_posplus, cdb_make_addend, cdb_make_addbegin, cdb_make_add,
}
use geoipdns.Lookup.Parse.{check_ttd, check_data}
use geoipdns.Cdb.Make.Added.{IsMade, cdb_make_start-IsMade}
use geoipdns.Dns.Name.{IsName}
use geoipdns.Compile.Run.{Progress, lines_loop}
use geoipdns.Compile.Run.Enough.{Lines, lines_loop_enough}
use geoipdns.Compile.Record.{Out, rr_add, rr_start, rr_finish}
use geoipdns.Compile.Record.ReadBack.{has_star, stored_key, rr_finish-check_data}

abbrev begun : Out
begun = record { cdb = cdb_make_start; result = [] }

-- An A record of `*.e` for the location 5: 10.0.0.1.
abbrev address : List ℕ
address = 10 ∷ 0 ∷ 0 ∷ 1 ∷ []

abbrev no_limit : List ℕ
no_limit = replicate 8 0

abbrev star_e : List ℕ
star_e = 1 ∷ b'*' ∷ 1 ∷ b'e' ∷ 0 ∷ []

abbrev before : Out
before = rr_add address (rr_start (0 ∷ 1 ∷ []) 60 no_limit 5 begun)

abbrev record_bytes : List ℕ
record_bytes = 0 ∷ 1 ∷ b'+' ∷ 5 ∷ 0 ∷ 0 ∷ 0 ∷ 0 ∷ 0 ∷ 0 ∷ 60 ∷ (no_limit ++ address)

abbrev after : Out
after = record {
  cdb = (cdb_make_add cdb_make_start (1 ∷ b'e' ∷ 0 ∷ []) record_bytes).0;
  result = record_bytes;
}

finishes : rr_finish star_e before ≡ some after
unfolding rr_finish cdb_make_add cdb_make_addend and_posplus posplus cdb_make_addbegin rr_add
    rr_start cdb_make_start case_lowerb dns_domain_length byte_equal uint32_pack uint32_pack_big
    lower
finishes = refl

star_e-IsName : IsName ((b'*' ∷ []) ∷ (b'e' ∷ []) ∷ [])
star_e-IsName = record {
  labels = (
    record { some_bytes = omega arith; at_most_63 = omega arith; bytes = omega arith },
    (record { some_bytes = omega arith; at_most_63 = omega arith; bytes = omega arith }, tt),
  );
  at_most_255 = omega arith;
}

rr_finish-check_data_example :
    IsMade after.cdb ((1 ∷ b'e' ∷ 0 ∷ [], record_bytes) ∷ [])
    × (check_data 5 0 true after.result ≡ check_ttd 0 (0 ∷ 1 ∷ []) (u32 60) no_limit 19)
    × (drop 19 after.result ≡ address)
unfolding rr_start rr_add check_ttd byte_equal has_star stored_key lower
rr_finish-check_data_example =
    rr_finish-check_data 0 1 60 5 no_limit address ((b'*' ∷ []) ∷ (b'e' ∷ []) ∷ []) [] begun before
      5 0 true refl (omega arith) (omega arith) star_e-IsName cdb_make_start-IsMade refl finishes

-- "# a\n#": two lines.
abbrev two_lines : List ℕ
two_lines = b'#' ∷ b' ' ∷ b'a' ∷ b'\n' ∷ b'#' ∷ []

abbrev progress : Progress
progress = record { out = begun; ipa = record { a = 0; b = 0; c = 0; d = 0 } }

lines_loop_enough_example : Lines [] two_lines progress (lines_loop 6 [] two_lines progress)
lines_loop_enough_example = lines_loop_enough [] two_lines progress
