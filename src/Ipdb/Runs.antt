-- ===== src/Ipdb/Runs.antt =====
-- A database with the location 5 of the network 192.168.0.0/24, in map 1 of user 2.
use geoipdns.Base.{All, ℕ, ◌≤◌, ◌≡◌, ◌↔◌, ◌⊎◌, List, [], ◌∷◌, length, refl, arith, some}
use geoipdns.Uint.{uint32_pack, uint32_unpack}
use geoipdns.Cdb.{
  match_loop, cdb_read_map, cdb_read, match, find_table, next_slot, check_record, search_slot,
  unless_returned, find_slots, cdb_findnext, byte_equal, cdb_findstart, cdb_find,
}
use geoipdns.Cdb.Hash.{hash_round, hash_bytes, hash_finish, cdb_hash}
use geoipdns.Cdb.Search.{IsCursor}
use geoipdns.Cdb.Sample.{one_record_file, opened}
use geoipdns.Cdb.Make.Added.{IsShort, image}
use geoipdns.Cdb.Make.Built.{IsBuilt, cdb_of, cdb_of-IsBuilt}
use geoipdns.Cdb.Make.Room.{cdb_of_room}
use geoipdns.Cdb.Walk.{datas_of}
use geoipdns.Ip4.{Ip, ip4_num}
use geoipdns.Ip4.RoundTrip.{IsIp}
use geoipdns.Ipdb.{
  ipdb_key4build, netmask_loop, ipdb_key4lookup, read_location, after_find, try_masks, ipdb_get,
}
use geoipdns.Ipdb.Keys.{network, ipdb_key4lookup_iff}
use geoipdns.Ipdb.Refine.{location_of, ipdb_get-location_of}
use geoipdns.Ipdb.Get.{IsLocation, ipdb_get_lem}

-- 192.168.0.0 and 192.168.0.7
abbrev local_net : ℕ
local_net = 3232235520

abbrev local : Ip
local = record { a = 192; b = 168; c = 0; d = 7 }

local-IsIp : IsIp local
local-IsIp = record {
  byte_a = omega arith;
  byte_b = omega arith;
  byte_c = omega arith;
  byte_d = omega arith;
}

abbrev file : List ℕ
file =
    one_record_file (0 ∷ b'%' ∷ 1 ∷ 0 ∷ 0 ∷ 0 ∷ 2 ∷ 0 ∷ 0 ∷ 0 ∷ 192 ∷ 168 ∷ 0 ∷ 0 ∷ 24 ∷ [])
      (5 ∷ 0 ∷ 0 ∷ 0 ∷ [])

length-file : length file ≡ 2083
unfolding uint32_pack hash_round hash_bytes hash_finish cdb_hash
length-file = refl

file-IsCursor : IsCursor (opened file) file
file-IsCursor = record {
  mapped = record { mapped = refl; whole = refl; fits = omega (arith, length-file) };
  slots = omega arith;
  in_table = omega arith;
}

finds_location : (ipdb_get (opened file) local 9 1 2).1 ≡ some 5
unfolding ipdb_get try_masks after_find read_location ip4_num ipdb_key4lookup netmask_loop
    match_loop cdb_read_map cdb_read match find_table next_slot check_record search_slot
    unless_returned find_slots cdb_findnext cdb_findstart cdb_find byte_equal uint32_pack
    uint32_unpack hash_round hash_bytes hash_finish cdb_hash
finds_location = refl

ipdb_get_lem_example :
    (◌≡◌ {A = ℕ} 5 9)
    ⊎ ((mask : ℕ) × (mask ≤ 32)
        × IsLocation file (ipdb_key4build (network (ip4_num 0 local) mask) mask 1 2) 5)
ipdb_get_lem_example =
    ipdb_get_lem (opened file) local 9 1 2 file-IsCursor local-IsIp finds_location

-- The address is in the network.
ipdb_key4lookup_iff_example :
    (ipdb_key4lookup 3232235527 24 1 2 ≡ ipdb_key4build local_net 24 1 2) ↔ (
      (network 3232235527 24 ≡ local_net)
      × (◌≡◌ {A = ℕ} 24 24)
      × (◌≡◌ {A = ℕ} 1 1)
      × (◌≡◌ {A = ℕ} 2 2))
ipdb_key4lookup_iff_example =
    ipdb_key4lookup_iff 3232235527 24 1 2 local_net 24 1 2 (omega arith) (omega arith) (omega arith)
      (omega arith) (omega arith) (omega arith) (omega arith)

-- Two networks that hold the address, of 24 and of 28 bits.
abbrev two_nets : List (List ℕ × List ℕ)
two_nets =
    (0 ∷ b'%' ∷ 1 ∷ 0 ∷ 0 ∷ 0 ∷ 2 ∷ 0 ∷ 0 ∷ 0 ∷ 192 ∷ 168 ∷ 0 ∷ 0 ∷ 28 ∷ [], 6 ∷ 0 ∷ 0 ∷ 0 ∷ [])
    ∷ (0 ∷ b'%' ∷ 1 ∷ 0 ∷ 0 ∷ 0 ∷ 2 ∷ 0 ∷ 0 ∷ 0 ∷ 192 ∷ 168 ∷ 0 ∷ 0 ∷ 24 ∷ [], 5 ∷ 0 ∷ 0 ∷ 0 ∷ [])
    ∷ []

nets-IsShort : All IsShort two_nets
nets-IsShort = ((omega arith, omega arith), ((omega arith, omega arith), tt))

nets_made : (bytes : List ℕ) × (cdb_of two_nets ≡ some bytes)
unfolding image uint32_pack
nets_made = cdb_of_room two_nets nets-IsShort (omega arith)

nets : List ℕ
nets = nets_made.0

nets-IsBuilt : IsBuilt nets two_nets
unfolding nets
nets-IsBuilt = cdb_of-IsBuilt two_nets nets-IsShort nets_made.1

-- The network of 24 bits is tried before that of 28.
ipdb_get-location_of_example : (ipdb_get (opened nets) local 9 1 2).1 ≡ some 5
unfolding location_of datas_of byte_equal ipdb_key4build uint32_pack uint32_unpack ip4_num
ipdb_get-location_of_example =
    ipdb_get-location_of nets two_nets (opened nets) local 9 1 2 nets-IsBuilt
      (record { mapped = refl; whole = refl; fits = nets-IsBuilt.in_reach }) local-IsIp
      (omega arith, (omega arith, tt))
