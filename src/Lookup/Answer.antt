-- ===== src/Lookup/Answer.antt =====
-- `doit` in src/tdlookup.c.
pub mod Kept
pub mod Taken
pub mod Zone
mod Runs
use geoipdns.Base.{
  ℕ, zero, suc, ◌+◌, ◌-◌, ◌^◌, Bool, true, false, not, ◌&&◌, ◌||◌, Option, none, some, List, [],
  length, take, drop, set, replicate, byte_at, ltb, leb, ◌==◌, if◌then◌else◌, ◌>>=◌, min,
}
use geoipdns.Uint.{uint16_unpack_big}
use geoipdns.Text.{case_lowerb}
use geoipdns.Cdb.{error, absent, present, byte_equal, cdb_findstart}
use geoipdns.Random.{Random}
use geoipdns.Dns.Packet.{dns_packet_copy, dns_packet_skipname, dns_packet_getname}
use geoipdns.Response.{
  Response, len, response_nxdomain, keep_bits, authority_section, additional_section,
}
use geoipdns.Lookup.Find.{Look, find}
use geoipdns.Lookup.Records.{
  State, type_a, type_ns, type_mx, type_soa, want, dobytes, doname, dosoa, rstart, rfinish,
  each_found, answer_record, answer_addresses,
}

-- `*name` and `name += *name; name += 1;`
abbrev pub at_root : List ℕ → Bool
at_root name = byte_at name 0 == 0

abbrev pub parent : List ℕ → List ℕ
parent name = drop (byte_at name 0 + 1) name

-- The flags of the records of a name that the first loop looks at: an SOA record, and an NS record.
pub record Flags : Type 0 where
  pub flagauthoritative : Bool
  pub flagns : Bool

-- `while (r = find(control,0))` of the first loop.
unfoldable pub zone_flags : ℕ → List ℕ → Look → Flags → Option (Look × Flags)
zone_flags zero control l f = none
zone_flags (suc fuel) control l f =
    let l' = (find l control false).0 in
    let soa = f.flagauthoritative || byte_equal l'.type type_soa in
    let ns = f.flagns || byte_equal l'.type type_ns in
    elim ((find l control false).1) [
      | error ↦ none
      | absent ↦ some (l', f)
      | present ↦ zone_flags fuel control l' (record { flagauthoritative = soa; flagns = ns })
    ]

-- The first loop: the closest ancestor of the name, itself included, that has an NS record. A round
-- drops a label, so `length control` rounds are enough.
unfoldable pub find_zone : ℕ → Look → List ℕ → Option (Look × List ℕ × Bool)
find_zone zero l control = none
find_zone (suc fuel) l control =
    elim (zone_flags (2 ^ 32) control (record l { c = cdb_findstart l.c })
      (record { flagauthoritative = false; flagns = false })) [
        | none ↦ none
        | some (l', f) ↦ elim f.flagns [
          | true ↦ some (l', control, f.flagauthoritative)
          | false ↦ elim (at_root control) [
            | true ↦ none
            | false ↦ find_zone fuel l' (parent control)
          ]
        ]
      ]

-- One name of the answer's loop.
unfoldable pub answer_name : List ℕ → List ℕ → List ℕ → State → Option State
answer_name q qtype wild s = do
  s1 ←
      each_found wild (not (length wild == length q)) (answer_record q qtype)
        (record s { addrnum = 0; addrttl = 0 })
  answer_addresses (take (min s1.addrnum 8) s1.addr) q s1

-- The answer: the name itself, then the wildcards of its ancestors, up to `control`. `wild` and
-- `control` are suffixes of `q`, so they are one pointer when they are equally long.
unfoldable pub answer_loop : ℕ → List ℕ → List ℕ → List ℕ → List ℕ → State → Option State
answer_loop zero q qtype control wild s = none
answer_loop (suc fuel) q qtype control wild s = answer_name q qtype wild s >>= λ s1.
    elim (s1.flagfound || (length wild == length control) || at_root wild) [
      | true ↦ some s1
      | false ↦ answer_loop fuel q qtype control (parent wild) s1
    ]

-- `while (r = find(control,0))` of an answer without records: the first SOA record.
unfoldable pub first_soa : ℕ → List ℕ → State → Option State
first_soa zero control s = none
first_soa (suc fuel) control s =
    let look = (find s.look control false).0 in
    let s' = record s { look = look } in
    elim ((find s.look control false).1) [
      | error ↦ none
      | absent ↦ some s'
      | present ↦ elim (byte_equal look.type type_soa) [
        | false ↦ first_soa fuel control s'
        | true ↦
            (rstart s' control type_soa look.ttl >>= λ s1.
            dosoa s1 >>= λ s2. some (rfinish s2 authority_section))
      ]
    ]

-- An NS record of `control` in the authority section.
unfoldable pub ns_record : List ℕ → State → Option State
ns_record control s =
    if byte_equal s.look.type type_ns
    then (do
      s1 ← rstart s control type_ns s.look.ttl
      s2 ← doname s1
      some (rfinish s2 authority_section))
    else some s

-- From `AUTHORITY:` to `arpos`.
unfoldable pub authority : ℕ → List ℕ → Bool → State → Option State
authority anpos control flagauthoritative s =
    if flagauthoritative && (len s.response == anpos)
    then first_soa (2 ^ 32) control
        (record s { look = record (s.look) { c = cdb_findstart s.look.c } })
    else if want s.response control type_ns
    then each_found control false (ns_record control) s
    else some s

-- An address of `d1` in the additional section.
unfoldable pub a_record : List ℕ → State → Option State
a_record d1 s =
    if byte_equal s.look.type type_a
    then (do
      s1 ← rstart s d1 type_a s.look.ttl
      s2 ← dobytes s1 4
      some (rfinish s2 additional_section))
    else some s

-- The addresses of the name at `pos`, if it is wanted.
unfoldable pub glue : ℕ → ℕ → State → Option State
glue arpos pos s = do
  (name, end) ← dns_packet_getname s.response.bytes arpos pos
  let d1 = case_lowerb name
  if want s.response d1 type_a then each_found d1 false (a_record d1) s else some s

-- The record whose type and length are `x`, and whose data begin at `pos`.
unfoldable pub glue_record : ℕ → List ℕ → ℕ → State → Option State
glue_record arpos x pos s =
    if byte_equal (take 2 x) type_ns
    then glue arpos pos s
    else if byte_equal (take 2 x) type_mx
    then glue arpos (pos + 2) s
    else some s

-- The loop from `anpos` to `arpos`. A record takes eleven bytes at least, so a round for each byte
-- is enough.
unfoldable pub additional : ℕ → ℕ → ℕ → State → Option State
additional zero arpos bpos s = some s
additional (suc fuel) arpos bpos s = elim (leb arpos bpos) [
  | true ↦ some s
  | false ↦ dns_packet_skipname s.response.bytes arpos bpos >>= λ bpos1.
      dns_packet_copy s.response.bytes arpos bpos1 10 >>= λ copied.
      glue_record arpos copied.0 copied.1 s >>= λ s'.
      additional fuel arpos (copied.1 + uint16_unpack_big (drop 8 copied.0)) s'
]

-- `byte_zero(response + i,2); response_len = n;`
abbrev pub cut_section : Response → ℕ → ℕ → Response
cut_section r i n = record r { bytes = take n (set (set r.bytes i 0) (i + 1) 0) }

-- What is too long for a UDP packet is cut back to the authority section, or to the answer.
unfoldable pub cut_back : Bool → ℕ → ℕ → Response → Response
cut_back flagauthoritative aupos arpos r =
    let r1 = cut_section r additional_section arpos in
    if flagauthoritative && ltb 512 (len r)
    then (if ltb 512 (len r1) then cut_section r1 authority_section aupos else r1)
    else r

-- From `anpos = response_len` on; the zone is known.
unfoldable pub answer : List ℕ → List ℕ → List ℕ → Bool → State → Option State
answer q qtype control flagauthoritative s =
    if flagauthoritative
    then (do
      s1 ← answer_loop (length q) q qtype control q s
      some (if s1.flagfound then s1 else record s1 { response = response_nxdomain s1.response }))
    else some (record s { response = keep_bits s.response 2 251 })

unfoldable pub doit : List ℕ → List ℕ → Look → Response → Random → Option State
doit q qtype l r random = do
  (l', control, flagauthoritative) ← find_zone (length q) l q
  let anpos = len r
  s1 ← answer q qtype control flagauthoritative (record {
    look = l';
    response = r;
    random = random;
    flaggavesoa = false;
    flagfound = false;
    addr = replicate 8 [];
    addrnum = 0;
    addrttl = 0;
  })
  let aupos = len s1.response
  s2 ← authority anpos control flagauthoritative s1
  let arpos = len s2.response
  s3 ← additional (arpos - anpos) arpos anpos s2
  some (record s3 { response = cut_back flagauthoritative aupos arpos s3.response })
