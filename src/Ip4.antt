-- ===== src/Ip4.antt =====
-- src/ip4_scan.c, src/ip4_fmt.c and src/ip4_num.c: dotted-decimal addresses. src/dns_nd.c: the name
-- of an address under in-addr.arpa.
-- An address is four bytes.
pub mod RoundTrip
mod Runs
use geoipdns.Base.{
  ℕ, zero, suc, ◌+◌, ◌*◌, ◌^◌, Bool, true, false, Option, none, some, List, [], ◌∷◌, ◌++◌, drop,
  ◌==◌, if◌then◌else◌, ◌>>=◌, ◌>>◌, guard, not, u8, u32, ◌<<<◌, byte_at, bit_or, length,
}
use geoipdns.Text.{scan_ulong, fmt_ulong}

pub record Ip : Type 0 where
  pub a : ℕ
  pub b : ℕ
  pub c : ℕ
  pub d : ℕ

-- `i = scan_ulong(s,&u); if (!i) return 0; ip[k] = u; s += i; len += i;`
unfoldable pub scan_byte : List ℕ → Option (ℕ × List ℕ × ℕ)
scan_byte s = do let (i, u) = scan_ulong s; guard (not (i == 0)); some (u8 u, drop i s, i)

-- `if (*s != '.') return 0; ++s; ++len;`
unfoldable pub skip_dot : List ℕ → Option (List ℕ)
skip_dot [] = none
skip_dot (c ∷ cs) = if c == b'.' then some cs else none

-- The address and the bytes taken; `none` for the return of 0.
unfoldable pub ip4_scan : List ℕ → Option (Ip × ℕ)
ip4_scan s = do
  (a, s1, i) ← scan_byte s
  s2 ← skip_dot s1
  (b, s3, j) ← scan_byte s2
  s4 ← skip_dot s3
  (c, s5, k) ← scan_byte s4
  s6 ← skip_dot s5
  (d, s7, l) ← scan_byte s6
  some (record { a = a; b = b; c = c; d = d }, i + 1 + (j + 1) + (k + 1) + l)

-- What `ip4_scan` leaves in its array, also where it gives up: the bytes before it does are set.
unfoldable pub ip4_scan_into : Ip → List ℕ → Ip
ip4_scan_into ip s = elim (scan_byte s) [
  | none ↦ ip
  | some (a, s1, i) ↦ elim (skip_dot s1 >>= scan_byte) [
    | none ↦ record ip { a = a }
    | some (b, s2, j) ↦ elim (skip_dot s2 >>= scan_byte) [
      | none ↦ record ip { a = a; b = b }
      | some (c, s3, k) ↦ elim (skip_dot s3 >>= scan_byte) [
        | none ↦ record ip { a = a; b = b; c = c }
        | some (d, s4, l) ↦ record { a = a; b = b; c = c; d = d }
      ]
    ]
  ]
]

unfoldable pub ip4_fmt : Ip → List ℕ
ip4_fmt ip =
    fmt_ulong ip.a
    ++ (b'.' ∷ (fmt_ulong ip.b ++ (b'.' ∷ (fmt_ulong ip.c ++ (b'.' ∷ fmt_ulong ip.d)))))

-- `*u |= ip[k] << n`, four times, on the number that `u` holds.
unfoldable pub ip4_num : ℕ → Ip → ℕ
ip4_num u ip =
    bit_or (bit_or (bit_or (bit_or u (u32 (ip.a <<< 24))) (u32 (ip.b <<< 16))) (u32 (ip.c <<< 8)))
      ip.d

-- `i = fmt_ulong(name + namelen + 1,...); name[namelen++] = i; namelen += i;`
abbrev number_label : ℕ → List ℕ → List ℕ
number_label n rest = length (fmt_ulong n) ∷ (fmt_ulong n ++ rest)

-- "\7in-addr\4arpa\0"
abbrev pub in_addr_arpa : List ℕ
in_addr_arpa =
    7 ∷ b'i' ∷ b'n' ∷ b'-' ∷ b'a' ∷ b'd' ∷ b'd' ∷ b'r' ∷ 4 ∷ b'a' ∷ b'r' ∷ b'p' ∷ b'a' ∷ 0 ∷ []

unfoldable pub dns_name4_domain : Ip → List ℕ
dns_name4_domain ip =
    number_label ip.d (number_label ip.c (number_label ip.b (number_label ip.a in_addr_arpa)))
