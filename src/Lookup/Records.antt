-- ===== src/Lookup/Records.antt =====
-- The state of `doit` in src/tdlookup.c, `dobytes`, `doname` and `want`, and how a record of the
-- database goes into the response.
pub mod Kept
pub mod Enough
use geoipdns.Base.{
  ℕ, zero, suc, ◌+◌, ◌-◌, ◌^◌, Bool, true, false, not, ◌&&◌, ◌||◌, Option, none, some, List, [],
  ◌∷◌, length, take, drop, set, get_or, ltb, leb, ◌==◌, if◌then◌else◌, ◌>>=◌, ◌>>◌, guard,
}
use geoipdns.Uint.{uint16_unpack_big}
use geoipdns.Cdb.{error, absent, present, byte_equal, cdb_findstart}
use geoipdns.Random.{Random, dns_random}
use geoipdns.Dns.Domain.{dns_domain_equal}
use geoipdns.Dns.Packet.{dns_packet_copy, dns_packet_skipname, dns_packet_getname}
use geoipdns.Response.{
  Response, len, response_addbytes, response_addname, response_rstart, response_rfinish,
  answer_section,
}
use geoipdns.Lookup.Find.{Look, find}

pub record State : Type 0 where
  pub look : Look
  pub response : Response
  pub random : Random
  pub flaggavesoa : Bool
  pub flagfound : Bool
  pub addr : List (List ℕ)
  pub addrnum : ℕ
  pub addrttl : ℕ

-- DNS_T_A and so on: a type is its two bytes.
abbrev pub dns_type : ℕ → List ℕ
dns_type n = 0 ∷ n ∷ []

abbrev pub type_a : List ℕ
type_a = dns_type 1

abbrev pub type_ns : List ℕ
type_ns = dns_type 2

abbrev pub type_cname : List ℕ
type_cname = dns_type 5

abbrev pub type_soa : List ℕ
type_soa = dns_type 6

abbrev pub type_ptr : List ℕ
type_ptr = dns_type 12

abbrev pub type_mx : List ℕ
type_mx = dns_type 15

abbrev pub type_axfr : List ℕ
type_axfr = dns_type 252

abbrev pub type_any : List ℕ
type_any = dns_type 255

-- The loop of `want` over the records of the response: `false` is the return of 0. A record takes
-- eleven bytes at least, so a round for each byte is enough.
unfoldable pub want_loop : ℕ → List ℕ → List ℕ → List ℕ → ℕ → Bool
want_loop zero bytes owner type pos = true
want_loop (suc fuel) bytes owner type pos =
    let n = length bytes in
    let rest = λ (p : ℕ). want_loop fuel bytes owner type p in
    if leb n pos then true else elim (dns_packet_getname bytes n pos) [
      | none ↦ false
      | some (d, pos1) ↦ elim (dns_packet_copy bytes n pos1 10) [
        | none ↦ false
        | some (x, pos2) ↦
            if dns_domain_equal d owner && byte_equal type (take 2 x)
            then false
            else rest (pos2 + uint16_unpack_big (drop 8 x))
      ]
    ]

unfoldable pub want : Response → List ℕ → List ℕ → Bool
unfolding want_loop
want r owner type = elim (dns_packet_skipname r.bytes (len r) 12) [
  | none ↦ false
  | some pos ↦ want_loop (len r) r.bytes owner type (pos + 4)
]

unfoldable pub dobytes : State → ℕ → Option State
dobytes s n = do
  let bytes = s.look.record_bytes
  guard (leb n 20)
  (buf, dpos) ← dns_packet_copy bytes (length bytes) s.look.dpos n
  r ← response_addbytes s.response buf
  some (record s { look = record (s.look) { dpos = dpos }; response = r })

unfoldable pub doname : State → Option State
doname s = do
  let bytes = s.look.record_bytes
  (d1, dpos) ← dns_packet_getname bytes (length bytes) s.look.dpos
  r ← response_addname s.response d1
  some (record s { look = record (s.look) { dpos = dpos }; response = r })

-- `if (!response_rstart(d,type,ttl)) return 0;`
unfoldable pub rstart : State → List ℕ → List ℕ → ℕ → Option State
rstart s d type ttl = do r ← response_rstart s.response d type ttl; some (record s { response = r })

unfoldable pub rfinish : State → ℕ → State
rfinish s section = record s { response = response_rfinish s.response section }

-- Two names and twenty bytes: the data of an SOA record.
unfoldable pub dosoa : State → Option State
dosoa s = do s1 ← doname s; s2 ← doname s1; dobytes s2 20

-- The data of the record that was found, by its type.
unfoldable pub dodata : State → Option State
dodata s =
    let type = s.look.type in
    if byte_equal type type_ns || byte_equal type type_cname || byte_equal type type_ptr
    then doname s
    else if byte_equal type type_mx
    then (do s1 ← dobytes s 2; doname s1)
    else if byte_equal type type_soa
    then (do s1 ← dosoa s; some (record s1 { flaggavesoa = true }))
    else (do
      r ← response_addbytes s.response (drop s.look.dpos s.look.record_bytes)
      some (record s { response = r }))

-- The loop `while (r = find(d,flagwild))`, whose body is a function of the state.
unfoldable pub while_found : ℕ → List ℕ → Bool → (State → Option State) → State → Option State
while_found zero d flagwild body s = none
while_found (suc fuel) d flagwild body s =
    let look = (find s.look d flagwild).0 in
    elim ((find s.look d flagwild).1) [
      | error ↦ none
      | absent ↦ some (record s { look = look })
      | present ↦ (body (record s { look = look }) >>= λ s'. while_found fuel d flagwild body s')
    ]

-- `cdb_findstart(&c); while (r = find(d,flagwild)) { if (r == -1) return 0; body }`
unfoldable pub each_found : List ℕ → Bool → (State → Option State) → State → Option State
each_found d flagwild body s =
    while_found (2 ^ 32) d flagwild body
      (record s { look = record (s.look) { c = cdb_findstart s.look.c } })

-- An address is kept at a random place among the first eight.
unfoldable pub keep_address : State → State
keep_address s =
    let (random, i) = dns_random s.random (s.addrnum + 1) in
    let moved =
      if ltb i s.addrnum && ltb s.addrnum 8
      then set s.addr s.addrnum (get_or s.addr i [])
      else s.addr in
    let ip = take 4 (drop s.look.dpos s.look.record_bytes) in
    record s {
      random = random;
      addr = if ltb i 8 then set moved i ip else s.addr;
      addrnum = if ltb s.addrnum 1000000 then s.addrnum + 1 else s.addrnum;
      addrttl = s.look.ttl;
    }

-- The body of the loop over the records of `wild`, in the answer to `q`.
unfoldable pub answer_record : List ℕ → List ℕ → State → Option State
answer_record q qtype s0 =
    let s = record s0 { flagfound = true } in
    let type = s.look.type in
    if s.flaggavesoa && byte_equal type type_soa
    then some s
    else if not (byte_equal type qtype)
        && not (byte_equal qtype type_any)
        && not (byte_equal type type_cname)
    then some s
    else if byte_equal type type_a && (length s.look.record_bytes - s.look.dpos == 4)
    then some (keep_address s)
    else (do s1 ← rstart s q type s.look.ttl; s2 ← dodata s1; some (rfinish s2 answer_section))

-- `for (i = 0;i < addrnum;++i) if (i < 8) …`: the addresses that were kept.
unfoldable pub answer_addresses : List (List ℕ) → List ℕ → State → Option State
answer_addresses [] q s = some s
answer_addresses (ip ∷ ips) q s = do
  s1 ← rstart s q type_a s.addrttl
  r ← response_addbytes s1.response ip
  answer_addresses ips q (rfinish (record s1 { response = r }) answer_section)
