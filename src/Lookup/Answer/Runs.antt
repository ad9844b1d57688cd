-- ===== src/Lookup/Answer/Runs.antt =====
-- The zone of `a.e` in a database with an SOA and an NS record of `e`, and an address of `a.e`.
use geoipdns.Base.{
  take, length, ◌∙◌, ◌^◌, ◌<◌, inr, Bool-cases, Yields, Yields-bind, Yields-rest, ℕ, List, [], ◌∷◌,
  ◌++◌, replicate, some, true, false, All, refl, inl, arith, ◌≡◌,
}
use geoipdns.Cdb.{byte_equal}
use geoipdns.Cdb.Match.{IsMapped}
use geoipdns.Cdb.Sample.{opened}
use geoipdns.Cdb.Make.Added.{IsShort, image}
use geoipdns.Cdb.Make.Built.{IsBuilt, cdb_of, cdb_of-IsBuilt}
use geoipdns.Cdb.Make.Room.{cdb_of_room}
use geoipdns.Cdb.Walk.{datas_of}
use geoipdns.Uint.{uint32_pack}
use geoipdns.Dns.Domain.{dns_domain_length}
use geoipdns.Dns.Packet.{dns_packet_copy}
use geoipdns.Lookup.Parse.{check_data}
use geoipdns.Lookup.Find.{Look, find}
use geoipdns.Lookup.Find.Refine.{first_taken, IsFound, find-first_taken}
use geoipdns.Lookup.Find.Same.{IsClient}
use geoipdns.Response.{response_rstart, response_addname}
use geoipdns.Dns.Packet.{dns_packet_getname}
use geoipdns.Lookup.Records.{State, while_found, type_ns, rstart, doname, rfinish}
use geoipdns.Lookup.Records.Enough.{SameCursor, Loops, while_found_enough}
use geoipdns.Lookup.Answer.{find_zone, ns_record}
use geoipdns.Lookup.Answer.Taken.{all_taken, has_type}
use geoipdns.Lookup.Answer.Zone.{zone_of, find_zone-zone_of}

abbrev e : List ℕ
e = 1 ∷ b'e' ∷ 0 ∷ []

abbrev a_e : List ℕ
a_e = 1 ∷ b'a' ∷ e

-- A record of a type, anywhere, of ttl 60, without a limit.
abbrev record_of : ℕ → List ℕ → List ℕ
record_of type content = 0 ∷ type ∷ b'=' ∷ 0 ∷ 0 ∷ 0 ∷ 60 ∷ (replicate 8 0 ++ content)

abbrev soa_data : List ℕ
soa_data = record_of 6 (e ++ (e ++ replicate 20 0))

abbrev ns_data : List ℕ
ns_data = record_of 2 e

abbrev three : List (List ℕ × List ℕ)
three = (e, soa_data) ∷ (e, ns_data) ∷ (a_e, record_of 1 (10 ∷ 0 ∷ 0 ∷ 1 ∷ [])) ∷ []

three-IsShort : All IsShort three
three-IsShort =
    ((omega arith, omega arith), ((omega arith, omega arith), ((omega arith, omega arith), tt)))

made : (bytes : List ℕ) × (cdb_of three ≡ some bytes)
unfolding image uint32_pack
made = cdb_of_room three three-IsShort (omega arith)

file : List ℕ
file = made.0

file-IsBuilt : IsBuilt file three
unfolding file
file-IsBuilt = cdb_of-IsBuilt three three-IsShort made.1

abbrev look : Look
look = record {
  c = opened file;
  clientloc = 5;
  now = 4611686018427387914;
  record_bytes = [];
  dpos = 0;
  type = [];
  ttl = 0;
}

file-IsMapped : IsMapped (opened file) file
file-IsMapped = record { mapped = refl; whole = refl; fits = file-IsBuilt.in_reach }

find_zone-zone_of_example :
    (l' : Look) × (find_zone 4 look a_e ≡ some (l', e, true)) × IsClient look l'
unfolding zone_of all_taken datas_of byte_equal dns_domain_length check_data dns_packet_copy
    has_type
find_zone-zone_of_example = find_zone-zone_of file three file-IsBuilt 4 look a_e file-IsMapped

find-first_taken_example :
    IsFound file three file-IsBuilt e false look
      (first_taken 5 4611686018427387914 false (soa_data ∷ ns_data ∷ []))
      (find look e false)
unfolding datas_of byte_equal dns_domain_length
find-first_taken_example =
    find-first_taken file three file-IsBuilt e false look (soa_data ∷ ns_data ∷ [])
      (inl (file-IsMapped, refl, refl))

rstart_kept : (s : State) (d type : List ℕ) (ttl : ℕ) → Yields (SameCursor s) (rstart s d type ttl)
unfolding rstart
rstart_kept s d type ttl =
    Yields-rest (SameCursor s) (response_rstart s.response d type ttl) _ (λ r. refl)

doname_kept : (s : State) → Yields (SameCursor s) (doname s)
unfolding doname
doname_kept s =
    Yields-rest (SameCursor s)
      (dns_packet_getname s.look.record_bytes (length s.look.record_bytes) s.look.dpos) _
      (λ (d1, dpos). Yields-rest (SameCursor s) (response_addname s.response d1) _ (λ r. refl))

-- The body of the loop over the NS records leaves the cursor alone.
ns_record_kept : (control : List ℕ) (s : State) → Yields (SameCursor s) (ns_record control s)
unfolding ns_record rfinish
ns_record_kept control s = elim (Bool-cases (byte_equal s.look.type type_ns)) [
  | inl ns ↦
      rw (ns, ns_record)
        (Yields-bind (SameCursor s) (SameCursor s) (rstart s control type_ns s.look.ttl) _
          (rstart_kept s control type_ns s.look.ttl)
          (λ s1 k1.
            Yields-bind (SameCursor s1) (SameCursor s) (doname s1) _ (doname_kept s1)
              (λ s2 k2. k2 ∙ k1)))
  | inr other ↦ rw (other, ns_record) refl
]

-- The state at the beginning of an answer.
abbrev state : State
state = record {
  look = look;
  response = record { bytes = []; names = []; tctarget = 0; dpos = 0; hidettl = false };
  random = record { seed = []; input = []; out = []; outleft = 0 };
  flaggavesoa = false;
  flagfound = false;
  addr = [];
  addrnum = 0;
  addrttl = 0;
}

name-length : 0 < length (take (dns_domain_length e) e)
unfolding dns_domain_length
name-length = omega arith

while_found_enough_example :
    Loops e false (ns_record e) state (while_found (2 ^ 32) e false (ns_record e) state)
while_found_enough_example =
    while_found_enough file e false (ns_record e) state name-length (ns_record_kept e)
      (record { mapped = file-IsMapped; slots = omega arith; in_table = omega arith })
