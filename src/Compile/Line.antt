-- ===== src/Compile/Line.antt =====
-- The lines of the data file, as the `switch` in `main` of src/vdnsdb.c handles them.
-- A field to which `stralloc_0` adds a NUL is read as a C string only, so the NUL is left out.
use geoipdns.Base.{
  ℕ, zero, suc, ◌+◌, Bool, ◌||◌, Option, none, some, List, [], ◌∷◌, ◌++◌, length, take, drop,
  get_or, leb, min, ◌==◌, if◌then◌else◌, ◌>>=◌, ◌>>◌, guard, not, u8, u16, u32,
}
use geoipdns.Uint.{uint16_pack_big, uint32_pack, uint32_pack_big, uint32_unpack_big}
use geoipdns.Text.{scan_ulong, scan_ushort}
use geoipdns.Ip4.{Ip, ip4_scan, ip4_scan_into, ip4_num, dns_name4_domain}
use geoipdns.Ipdb.{ipdb_key4build}
use geoipdns.Cdb.{byte_equal}
use geoipdns.Cdb.Make.{cdb_make_add}
use geoipdns.Dns.Dot.{dns_domain_fromdot}
use geoipdns.Lookup.Records.{
  dns_type, type_a, type_ns, type_cname, type_soa, type_ptr, type_mx, type_axfr,
}
use geoipdns.Compile.Parse.{byte_chr, ttdparse, txtparse}
use geoipdns.Compile.Record.{Out, gethash, rr_add, rr_addname, rr_addloq, rr_start, rr_finish}

-- DNS_T_TXT
abbrev pub type_txt : List ℕ
type_txt = dns_type 16

-- TTL_NS, TTL_POSITIVE and TTL_NEGATIVE
abbrev pub ttl_ns : ℕ
ttl_ns = 259200

abbrev pub ttl_positive : ℕ
ttl_positive = 86400

abbrev pub ttl_negative : ℕ
ttl_negative = 2560

abbrev pub field : List (List ℕ) → ℕ → List ℕ
field f i = get_or f i []

-- `if (!scan_ulong(s,&u)) u = …;`
unfoldable pub scan_or : List ℕ → ℕ → ℕ
scan_or s default = let (i, u) = scan_ulong s in if i == 0 then default else u

-- The fields at the end of a line: the ttl, the time to die, the location, the map and the user.
pub record Ending : Type 0 where
  pub ttl : ℕ
  pub ttd : List ℕ
  pub loc : ℕ
  pub mid : ℕ
  pub uid : ℕ

unfoldable pub ending : List (List ℕ) → ℕ → ℕ → Ending
ending f i default = record {
  ttl = scan_or (field f i) default;
  ttd = ttdparse (field f (i + 1));
  loc = gethash (field f (i + 2));
  mid = gethash (field f (i + 3));
  uid = gethash (field f (i + 4));
}

-- `rr_addloq` and `rr_start` with the end of the line.
abbrev pub loq : List ℕ → List ℕ → Ending → Out → Out
loq type d e o = rr_addloq type d e.loc e.mid e.uid o

abbrev pub start : List ℕ → Ending → Out → Out
start type e o = rr_start type e.ttl e.ttd e.loc o

-- `%`: an address with a mask. `ipa` are the four bytes that the array holds before.
unfoldable pub net_line : Ip → List (List ℕ) → Out → Out
net_line ipa f o =
    let ip = ip4_scan_into ipa (field f 1) in
    let mask = (scan_ushort (field f 2)).1 in
    let key = ipdb_key4build (ip4_num 0 ip) (u8 mask) (gethash (field f 3)) (gethash (field f 4)) in
    record o { cdb = (cdb_make_add o.cdb key (uint32_pack (gethash (field f 0)))).0 }

-- A number of an SOA record; a field without digits gives the four bytes of `defaultsoa` from `at`
-- on.
abbrev pub soa_number : List ℕ → ℕ → List ℕ → List ℕ
soa_number defaultsoa at s =
    uint32_pack_big (u32 (scan_or s (uint32_unpack_big (take 4 (drop at defaultsoa)))))

-- `Z`
unfoldable pub soa_line : List ℕ → List (List ℕ) → Out → Option Out
soa_line defaultsoa f o0 = do
  d1 ← dns_domain_fromdot (field f 0)
  let soa =
      soa_number defaultsoa 0 (field f 3)
      ++ (soa_number defaultsoa 4 (field f 4)
          ++ (soa_number defaultsoa 8 (field f 5)
              ++ (soa_number defaultsoa 12 (field f 6) ++ soa_number defaultsoa 16 (field f 7))))
  let e = ending f 8 ttl_negative
  let o1 = start type_soa e (loq type_soa d1 e o0)
  d2 ← dns_domain_fromdot (field f 1)
  let o2 = rr_addname d2 o1
  d3 ← dns_domain_fromdot (field f 2)
  rr_finish d1 (rr_add soa (rr_addname d3 o2))

-- `if (byte_chr(f[2].s,f[2].len,'.') >= f[2].len) …`: a name without a dot is put before another.
unfoldable pub with_domain : List ℕ → List ℕ → List ℕ → List ℕ
with_domain x infix_name d = if leb (length x) (byte_chr x b'.') then x ++ (infix_name ++ d) else x

-- ".ns." and ".mx."
abbrev dot_ns : List ℕ
dot_ns = b'.' ∷ b'n' ∷ b's' ∷ b'.' ∷ []

abbrev dot_mx : List ℕ
dot_mx = b'.' ∷ b'm' ∷ b'x' ∷ b'.' ∷ []

-- "\12hostmaster"
abbrev hostmaster : List ℕ
hostmaster = 10 ∷ b'h' ∷ b'o' ∷ b's' ∷ b't' ∷ b'm' ∷ b'a' ∷ b's' ∷ b't' ∷ b'e' ∷ b'r' ∷ []

abbrev ip_bytes : Ip → List ℕ
ip_bytes ip = ip.a ∷ ip.b ∷ ip.c ∷ ip.d ∷ []

-- `if (ip4_scan(f[1].s,ip)) …`: an A record of `d`. Whether its map comes before `rr_start` makes
-- no difference to the state.
unfoldable pub address_record : List ℕ → List ℕ → Ending → Out → Option Out
address_record text d e o = elim (ip4_scan text) [
  | none ↦ some o
  | some (ip, len) ↦ rr_finish d (rr_add (ip_bytes ip) (start type_a e (loq type_a d e o)))
]

-- The SOA record of a line that begins with a dot.
unfoldable pub dot_soa : List ℕ → List ℕ → List ℕ → Ending → Out → Option Out
dot_soa defaultsoa d1 d2 e o =
    let ttl = if e.ttl == 0 then 0 else ttl_negative in
    let o1 = loq type_soa d1 e (rr_start type_soa ttl e.ttd e.loc o) in
    rr_finish d1 (rr_add defaultsoa (rr_addname d1 (rr_add hostmaster (rr_addname d2 o1))))

-- `.` and `&`
unfoldable pub ns_line : List ℕ → Bool → List (List ℕ) → Out → Option Out
ns_line defaultsoa dot f o0 = do
  d1 ← dns_domain_fromdot (field f 0)
  let e = ending f 3 ttl_ns
  d2 ← dns_domain_fromdot (with_domain (field f 2) dot_ns (field f 0))
  o1 ← if dot then dot_soa defaultsoa d1 d2 e o0 else some o0
  o2 ← rr_finish d1 (loq type_ns d2 e (rr_addname d2 (start type_ns e o1)))
  address_record (field f 1) d2 e o2

-- The PTR record of a line that begins with an equals sign.
unfoldable pub ptr_record : List ℕ → Ip → Ending → Out → Option Out
ptr_record d1 ip e o =
    rr_finish (dns_name4_domain ip) (rr_addname d1 (start type_ptr e (loq type_ptr d1 e o)))

-- `+` and `=`
unfoldable pub a_line : Bool → List (List ℕ) → Out → Option Out
a_line both f o0 = do
  d1 ← dns_domain_fromdot (field f 0)
  let e = ending f 2 ttl_positive
  o1 ← address_record (field f 1) d1 e o0
  elim (ip4_scan (field f 1)) [
    | none ↦ some o1
    | some (ip, len) ↦ if both then ptr_record d1 ip e o1 else some o1
  ]

-- `@`
unfoldable pub mx_line : List (List ℕ) → Out → Option Out
mx_line f o0 = do
  d1 ← dns_domain_fromdot (field f 0)
  let e = ending f 4 ttl_positive
  d2 ← dns_domain_fromdot (with_domain (field f 2) dot_mx (field f 0))
  let u = scan_or (field f 3) 0
  let o1 = rr_add (uint16_pack_big (u16 u)) (start type_mx e (loq type_mx d1 e o0))
  o2 ← rr_finish d1 (rr_addname d2 o1)
  address_record (field f 1) d2 e o2

-- `^` and `C`
unfoldable pub name_line : Bool → List (List ℕ) → Out → Option Out
name_line cname f o0 = do
  d1 ← dns_domain_fromdot (field f 0)
  d2 ← dns_domain_fromdot (field f 1)
  let e = ending f 2 ttl_positive
  let o1 =
      if cname
      then start type_cname e (loq type_cname d1 e (loq type_a d1 e o0))
      else start type_ptr e (loq type_ptr d1 e o0)
  rr_finish d1 (rr_addname d2 o1)

-- The loop over the pieces of a text: a round takes a byte at least.
unfoldable pub add_pieces : ℕ → List ℕ → List ℕ
add_pieces zero text = []
add_pieces (suc fuel) [] = []
add_pieces (suc fuel) (ch ∷ text) =
    let k = min 127 (length (ch ∷ text)) in
    k ∷ (take k (ch ∷ text) ++ add_pieces fuel (drop k (ch ∷ text)))

-- `'`
unfoldable pub txt_line : List (List ℕ) → Out → Option Out
txt_line f o0 = do
  d1 ← dns_domain_fromdot (field f 0)
  let e = ending f 2 ttl_positive
  let text = txtparse (field f 1)
  let o1 = start type_txt e (loq type_txt d1 e o0)
  rr_finish d1 (rr_add (add_pieces (length text) text) o1)

-- The types that a line of any type may not have.
unfoldable pub is_prohibited : List ℕ → Bool
is_prohibited type =
    byte_equal type type_axfr
    || byte_equal type (dns_type 0)
    || byte_equal type type_soa
    || byte_equal type type_ns
    || byte_equal type type_cname
    || byte_equal type type_ptr
    || byte_equal type type_mx

-- `:`
unfoldable pub any_line : List (List ℕ) → Out → Option Out
any_line f o0 = do
  d1 ← dns_domain_fromdot (field f 0)
  let e = ending f 3 ttl_positive
  let type = uint16_pack_big (u16 (scan_ulong (field f 1)).1)
  guard (not (is_prohibited type))
  rr_finish d1 (rr_add (txtparse (field f 2)) (start type e (loq type d1 e o0)))
