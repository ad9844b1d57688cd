-- ===== src/Response.antt =====
-- src/response.h and src/response.c: the response that is being built.
-- The source's globals are the fields of `Response`; `bytes` are the first `response_len` bytes of
-- `response`, which holds 65535. A call that returns 0 gives `none`: the server then drops the
-- response, and the next request begins with `response_query`, which sets `response_len` and
-- `name_num` to 0.
pub mod Names
pub mod Added
pub mod Compress
pub mod Whole
pub mod Kept
mod Runs
use geoipdns.Base.{
  ℕ, zero, suc, ◌+◌, ◌-◌, ◌*◌, ◌<◌, ◌≤◌, Bool, true, false, ◌&&◌, Option, none, some, List, [], ◌∷◌,
  ◌++◌, length, take, drop, set, byte_at, ltb, leb, ◌==◌, if◌then◌else◌, ◌>>=◌, u8, u16, u32,
  bit_and, bit_or,
}
use geoipdns.Uint.{uint16_pack_big, uint32_pack_big}
use geoipdns.Dns.Domain.{dns_domain_length, dns_domain_equal}

pub record Response : Type 0 where
  pub bytes : List ℕ
  pub names : List (List ℕ × ℕ)
  pub tctarget : ℕ
  pub dpos : ℕ
  pub hidettl : Bool

-- `response_len`
abbrev pub len : Response → ℕ
len r = length r.bytes

unfoldable pub response_addbytes : Response → List ℕ → Option Response
response_addbytes r buf =
    if ltb (65535 - len r) (length buf) then none else some (record r { bytes = r.bytes ++ buf })

-- The loop over the names that were added: the place of the first that is equal.
unfoldable pub find_name : List ℕ → List (List ℕ × ℕ) → Option ℕ
find_name d [] = none
find_name d ((name, ptr) ∷ names) = if dns_domain_equal d name then some ptr else find_name d names

-- `if (dlen <= 128) if (name_num < NAMES) …`
unfoldable pub remember : Response → List ℕ → ℕ → Response
remember r d dlen =
    if leb dlen 128 && ltb (length r.names) 100
    then record r { names = r.names ++ ((take dlen d, len r) ∷ []) }
    else r

-- `while (*d)`: a round drops a label, so `length d` rounds are enough.
unfoldable pub addname_loop : ℕ → Response → List ℕ → ℕ → Option Response
addname_loop zero r d dlen = none
addname_loop (suc fuel) r d dlen =
    let i = byte_at d 0 + 1 in
    if byte_at d 0 == 0 then response_addbytes r (take 1 d) else elim (find_name d r.names) [
      | some ptr ↦ response_addbytes r (uint16_pack_big (u16 (49152 + ptr)))
      | none ↦ response_addbytes (remember r d dlen) (take i d) >>= λ r'.
          addname_loop fuel r' (drop i d) (dlen - i)
    ]

unfoldable pub response_addname : Response → List ℕ → Option Response
response_addname r d = addname_loop (length d) r d (dns_domain_length d)

-- "\0\0\201\200\0\1\0\0\0\0\0\0"
abbrev pub query_header : List ℕ
query_header = 0 ∷ 0 ∷ 0x81 ∷ 0x80 ∷ 0 ∷ 1 ∷ 0 ∷ 0 ∷ 0 ∷ 0 ∷ 0 ∷ 0 ∷ []

unfoldable pub response_query : Response → List ℕ → List ℕ → List ℕ → Option Response
response_query r q qtype qclass = do
  r1 ← response_addbytes (record r { bytes = []; names = [] }) query_header
  r2 ← response_addname r1 q
  r3 ← response_addbytes r2 qtype
  r4 ← response_addbytes r3 qclass
  some (record r4 { tctarget = len r4 })

-- DNS_C_IN
abbrev pub class_in : List ℕ
class_in = 0 ∷ 1 ∷ []

unfoldable pub response_rstart : Response → List ℕ → List ℕ → ℕ → Option Response
response_rstart r d type ttl = do
  r1 ← response_addname r d
  r2 ← response_addbytes r1 type
  r3 ← response_addbytes r2 class_in
  r4 ← response_addbytes r3 (uint32_pack_big (if r.hidettl then 0 else ttl))
  r5 ← response_addbytes r4 (0 ∷ 0 ∷ [])
  some (record r5 { dpos = len r5 })

-- `++s[i]` on a `char`.
abbrev pub increment : List ℕ → ℕ → List ℕ
increment s i = set s i (u8 (byte_at s i + 1))

-- `uint16_pack_big(s + i,u)`
abbrev pub put16 : List ℕ → ℕ → ℕ → List ℕ
put16 s i u =
    let packed = uint16_pack_big (u16 u) in
    set (set s i (byte_at packed 0)) (i + 1) (byte_at packed 1)

-- `if (!++response[x + 1]) ++response[x];`
unfoldable pub count_record : List ℕ → ℕ → List ℕ
count_record s x =
    let s' = increment s (x + 1) in if byte_at s' (x + 1) == 0 then increment s' x else s'

unfoldable pub response_rfinish : Response → ℕ → Response
response_rfinish r x = record r {
  bytes = count_record (put16 r.bytes (r.dpos - 2) (len r - r.dpos)) x;
}

-- RESPONSE_ANSWER, RESPONSE_AUTHORITY and RESPONSE_ADDITIONAL
abbrev pub answer_section : ℕ
answer_section = 6

abbrev pub authority_section : ℕ
authority_section = 8

abbrev pub additional_section : ℕ
additional_section = 10

-- DNS_T_CNAME
abbrev pub type_cname : List ℕ
type_cname = 0 ∷ 5 ∷ []

unfoldable pub response_cname : Response → List ℕ → List ℕ → ℕ → Option Response
response_cname r c d ttl = do
  r1 ← response_rstart r c type_cname ttl
  r2 ← response_addname r1 d
  some (response_rfinish r2 answer_section)

-- `response[i] |= m` and `response[i] &= m`.
abbrev pub set_bits : Response → ℕ → ℕ → Response
set_bits r i m = record r { bytes = set r.bytes i (bit_or (byte_at r.bytes i) m) }

abbrev pub keep_bits : Response → ℕ → ℕ → Response
keep_bits r i m = record r { bytes = set r.bytes i (bit_and (byte_at r.bytes i) m) }

unfoldable pub response_hidettl : Response → Response
response_hidettl r = record r { hidettl = true }

unfoldable pub response_nxdomain : Response → Response
response_nxdomain r = set_bits (set_bits r 3 3) 2 4

unfoldable pub response_servfail : Response → Response
response_servfail r = set_bits r 3 2

unfoldable pub response_id : Response → List ℕ → Response
response_id r id = record r { bytes = take 2 id ++ drop 2 r.bytes }

unfoldable pub response_tc : Response → Response
response_tc r = let r' = set_bits r 2 2 in record r' { bytes = take r.tctarget r'.bytes }
