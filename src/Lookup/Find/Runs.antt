-- ===== src/Lookup/Find/Runs.antt =====
-- A database with an address of `e`, and the search for it.
use geoipdns.Base.{ℕ, ◌<◌, ◌≡◌, List, [], ◌∷◌, length, refl, arith, false, take}
use geoipdns.Uint.{uint32_pack, uint32_unpack, uint32_unpack_big, tai_unpack}
use geoipdns.Dns.Domain.{length_from, dns_domain_length}
use geoipdns.Dns.Packet.{dns_packet_copy}
use geoipdns.Cdb.{
  present, absent, match_loop, cdb_read_map, cdb_read, match, find_table, next_slot, check_record,
  search_slot, unless_returned, find_slots, cdb_findnext, byte_equal,
}
use geoipdns.Cdb.Hash.{hash_round, hash_bytes, hash_finish, cdb_hash}
use geoipdns.Cdb.Search.{IsCursor}
use geoipdns.Cdb.Sample.{one_record_file, opened}
use geoipdns.Lookup.Parse.{clamp_ttl, check_ttd, check_wild, check_location, check_data}
use geoipdns.Lookup.Find.{
  Look, judge, read_record, after_findnext, find_round, unless_done, find_loop, find,
}
use geoipdns.Lookup.Find.Sound.{IsTaken, Finds, find_found, find_enough}

abbrev e : List ℕ
e = 1 ∷ b'e' ∷ 0 ∷ []

-- An A record for the location 5, of ttl 60, without a limit: 10.0.0.1.
abbrev a_record : List ℕ
a_record =
    0 ∷ 1 ∷ b'>' ∷ 5 ∷ 0 ∷ 0 ∷ 0 ∷ 0 ∷ 0 ∷ 0 ∷ 60 ∷ 0 ∷ 0 ∷ 0 ∷ 0 ∷ 0 ∷ 0 ∷ 0 ∷ 0 ∷ 10 ∷ 0 ∷ 0 ∷ 1
    ∷ []

abbrev file : List ℕ
file = one_record_file e a_record

length-file : length file ≡ 2090
unfolding uint32_pack hash_round hash_bytes hash_finish cdb_hash
length-file = refl

abbrev look : ℕ → Look
look clientloc = record {
  c = opened file;
  clientloc = clientloc;
  now = 4611686018427387914;
  record_bytes = [];
  dpos = 0;
  type = [];
  ttl = 0;
}

file-IsCursor : IsCursor (opened file) file
file-IsCursor = record {
  mapped = record { mapped = refl; whole = refl; fits = omega (arith, length-file) };
  slots = omega arith;
  in_table = omega arith;
}

name-length : 0 < length (take (dns_domain_length e) e)
unfolding dns_domain_length length_from
name-length = omega arith

-- The record as `find` takes it: its data begin behind the limit.
abbrev found : Look
found = record (look 5) {
  c = (cdb_findnext (opened file) e).0;
  record_bytes = a_record;
  dpos = 19;
  type = 0 ∷ 1 ∷ [];
  ttl = 60;
}

finds : find (look 5) e false ≡ (found, present)
unfolding find find_loop unless_done find_round after_findnext read_record judge clamp_ttl check_ttd
    check_wild check_location check_data dns_packet_copy dns_domain_length length_from
    uint32_unpack_big tai_unpack match_loop cdb_read_map cdb_read match find_table next_slot
    check_record search_slot unless_returned find_slots cdb_findnext byte_equal uint32_pack
    uint32_unpack hash_round hash_bytes hash_finish cdb_hash
finds = refl

-- A client at another location does not see it.
elsewhere : (find (look 6) e false).1 ≡ absent
unfolding find find_loop unless_done find_round after_findnext read_record judge clamp_ttl check_ttd
    check_wild check_location check_data dns_packet_copy dns_domain_length length_from
    uint32_unpack_big tai_unpack match_loop cdb_read_map cdb_read match find_table next_slot
    check_record search_slot unless_returned find_slots cdb_findnext byte_equal uint32_pack
    uint32_unpack hash_round hash_bytes hash_finish cdb_hash
elsewhere = refl

find_found_example :
    IsTaken file (take (dns_domain_length e) e) false found
    × (found.clientloc ≡ (look 5).clientloc)
    × (found.now ≡ (look 5).now)
    × IsCursor found.c file
    × (0 < found.c.loop)
find_found_example = find_found file e false (look 5) name-length file-IsCursor finds

find_enough_example : Finds e false (look 6) (find (look 6) e false).0 (find (look 6) e false).1
find_enough_example = find_enough file e false (look 6) name-length file-IsCursor
