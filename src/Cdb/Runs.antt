-- ===== src/Cdb/Runs.antt =====
-- The lookup of a record in a small database.
use geoipdns.Base.{ℕ, ◌+◌, ◌<◌, ◌≤◌, ◌↔◌, List, [], ◌∷◌, length, take, drop, ◌≡◌, refl, arith, some}
use geoipdns.Uint.{uint32_pack, uint32_unpack}
use geoipdns.Cdb.{
  Cdb, absent, present, match_loop, cdb_read_map, cdb_read, match, find_table, next_slot,
  check_record, search_slot, unless_returned, find_slots, cdb_findnext, byte_equal,
}
use geoipdns.Cdb.Hash.{hash_round, hash_bytes, hash_finish, cdb_hash}
use geoipdns.Cdb.Match.{IsMapped, match_iff}
use geoipdns.Cdb.Find.{IsRecord}
use geoipdns.Cdb.Search.{IsCursor, cdb_findnext_found}
use geoipdns.Cdb.Sample.{one_record_file, opened}

abbrev www : List ℕ
www = 3 ∷ b'w' ∷ b'w' ∷ b'w' ∷ 0 ∷ []

abbrev file : List ℕ
file = one_record_file www (7 ∷ 8 ∷ 9 ∷ [])

abbrev found : Cdb
found = (cdb_findnext (opened file) www).0

length-file : length file ≡ 2072
unfolding uint32_pack hash_round hash_bytes hash_finish cdb_hash
length-file = refl

file-IsMapped : IsMapped (opened file) file
file-IsMapped = record { mapped = refl; whole = refl; fits = omega (arith, length-file) }

file-IsCursor : IsCursor (opened file) file
file-IsCursor = record { mapped = file-IsMapped; slots = omega arith; in_table = omega arith }

finds : cdb_findnext (opened file) www ≡ (found, present)
unfolding match_loop cdb_read_map cdb_read match find_table next_slot check_record search_slot
    unless_returned find_slots cdb_findnext byte_equal uint32_pack uint32_unpack hash_round
    hash_bytes hash_finish cdb_hash
finds = refl

cdb_findnext_found_example :
    IsRecord file www found.dpos found.dlen × IsCursor found file × (0 < found.loop)
cdb_findnext_found_example = cdb_findnext_found (opened file) www (omega arith) file-IsCursor finds

match_iff_example :
    (match (opened file) www 2056 ≡ present)
    ↔ ((2056 + length www ≤ length file) × (take (length www) (drop 2056 file) ≡ www))
match_iff_example = match_iff (opened file) file-IsMapped www 2056 (omega arith)

-- The data of the record, and no second record.
found_data : cdb_read found found.dlen found.dpos ≡ some (7 ∷ 8 ∷ 9 ∷ [])
unfolding match_loop cdb_read_map cdb_read match find_table next_slot check_record search_slot
    unless_returned find_slots cdb_findnext byte_equal uint32_pack uint32_unpack hash_round
    hash_bytes hash_finish cdb_hash
found_data = refl

found_once : (cdb_findnext found www).1 ≡ absent
unfolding match_loop cdb_read_map cdb_read match find_table next_slot check_record search_slot
    unless_returned find_slots cdb_findnext byte_equal uint32_pack uint32_unpack hash_round
    hash_bytes hash_finish cdb_hash
found_once = refl
