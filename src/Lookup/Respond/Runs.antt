-- ===== src/Lookup/Respond/Runs.antt =====
-- The location of a client for a name with a map, and a network of the map.
use geoipdns.Base.{ℕ, List, [], ◌∷◌, All, some, refl, arith, ◌≡◌}
use geoipdns.Uint.{uint32_pack, uint32_unpack}
use geoipdns.Cdb.{byte_equal}
use geoipdns.Cdb.Sample.{opened}
use geoipdns.Cdb.Make.Added.{IsShort, image}
use geoipdns.Cdb.Make.Built.{IsBuilt, cdb_of, cdb_of-IsBuilt}
use geoipdns.Cdb.Make.Room.{cdb_of_room}
use geoipdns.Cdb.Walk.{datas_of}
use geoipdns.Ip4.{Ip, ip4_num}
use geoipdns.Ipdb.{ipdb_key4build}
use geoipdns.Ipdb.Refine.{location_of}
use geoipdns.Dns.Domain.{dns_domain_length}
use geoipdns.Lookup.Find.{Look}
use geoipdns.Lookup.Respond.{find_location}
use geoipdns.Lookup.Respond.Located.{IsLocated, client_location, find_location-client_location}

abbrev name : List ℕ
name = 1 ∷ b'e' ∷ 0 ∷ []

-- The map 1 and the user 2 for addresses of `e`, and the location 5 of 192.168.0.0/24 in them.
abbrev two : List (List ℕ × List ℕ)
two =
    (0 ∷ b'?' ∷ 0 ∷ 1 ∷ name, 1 ∷ 0 ∷ 0 ∷ 0 ∷ 2 ∷ 0 ∷ 0 ∷ 0 ∷ [])
    ∷ (0 ∷ b'%' ∷ 1 ∷ 0 ∷ 0 ∷ 0 ∷ 2 ∷ 0 ∷ 0 ∷ 0 ∷ 192 ∷ 168 ∷ 0 ∷ 0 ∷ 24 ∷ [], 5 ∷ 0 ∷ 0 ∷ 0 ∷ [])
    ∷ []

two-IsShort : All IsShort two
two-IsShort = ((omega arith, omega arith), ((omega arith, omega arith), tt))

made : (bytes : List ℕ) × (cdb_of two ≡ some bytes)
unfolding image uint32_pack
made = cdb_of_room two two-IsShort (omega arith)

file : List ℕ
file = made.0

file-IsBuilt : IsBuilt file two
unfolding file
file-IsBuilt = cdb_of-IsBuilt two two-IsShort made.1

abbrev client : Ip
client = record { a = 192; b = 168; c = 0; d = 7 }

abbrev look : Look
look = record {
  c = opened file;
  clientloc = 1219579562;
  now = 4611686018427387914;
  record_bytes = [];
  dpos = 0;
  type = [];
  ttl = 0;
}

find_location-client_location_example :
    (l' : Look) × (find_location look name (0 ∷ 1 ∷ []) client ≡ some l') × IsLocated file look l' 5
unfolding client_location location_of datas_of byte_equal ipdb_key4build dns_domain_length
    uint32_pack uint32_unpack ip4_num
find_location-client_location_example =
    find_location-client_location file two look name (0 ∷ 1 ∷ []) client file-IsBuilt
      (record { mapped = refl; whole = refl; fits = file-IsBuilt.in_reach })
      (record {
        byte_a = omega arith;
        byte_b = omega arith;
        byte_c = omega arith;
        byte_d = omega arith;
      })
      (omega arith, (omega arith, tt)) (omega arith) (omega arith)
