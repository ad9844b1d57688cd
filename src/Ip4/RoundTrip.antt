-- ===== src/Ip4/RoundTrip.antt =====
-- An address is read back from its text, and its number determines it.
use geoipdns.Base.{
  ℕ, zero, suc, ◌+◌, ◌*◌, ◌/◌, ◌%◌, ◌^◌, ◌<◌, some, List, [], ◌∷◌, ◌++◌, ◌≡◌, length, length-append,
  drop-append, append_assoc, IsByte, arith,
}
use geoipdns.Base.Bits.{bit_or-field, zero-bit_or}
use geoipdns.Text.{fmt_ulong, fmt_loop}
use geoipdns.Text.Decimal.{Ends, scan_ulong-fmt_ulong}
use geoipdns.Ip4.{Ip, scan_byte, skip_dot, ip4_scan, ip4_fmt, ip4_num}

pub record IsIp (ip : Ip) : Type 0 where
  pub byte_a : IsByte ip.a
  pub byte_b : IsByte ip.b
  pub byte_c : IsByte ip.c
  pub byte_d : IsByte ip.d

fmt_pos : (fuel u : ℕ) (out : List ℕ) → length out < length (fmt_loop fuel u out)
unfolding fmt_loop
fmt_pos zero u out = omega arith
fmt_pos (suc fuel) u out = ground (arith, fmt_pos fuel (u / 10) ((b'0' + u % 10) ∷ out))

length-fmt_ulong : (n : ℕ) → 0 < length (fmt_ulong n)
unfolding fmt_ulong
length-fmt_ulong n = fmt_pos n n []

scan_byte-fmt :
    (n : ℕ) (rest : List ℕ)
    → IsByte n
    → Ends rest
    → scan_byte (fmt_ulong n ++ rest) ≡ some (n, rest, length (fmt_ulong n))
unfolding scan_byte
scan_byte-fmt n rest h hr =
    rw (scan_ulong-fmt_ulong n rest (omega arith) hr, drop-append (fmt_ulong n) rest)
      (ground (arith, length-fmt_ulong n))

dot-Ends : (rest : List ℕ) → Ends (b'.' ∷ rest)
dot-Ends rest = omega arith

-- The dotted form of an address is read back as the address, to its end, and what follows it is
-- left alone if it begins with no digit.
pub ip4_scan-fmt :
    (ip : Ip) (rest : List ℕ)
    → IsIp ip
    → Ends rest
    → ip4_scan (ip4_fmt ip ++ rest) ≡ some (ip, length (ip4_fmt ip))
unfolding ip4_scan ip4_fmt skip_dot
ip4_scan-fmt ip rest h hr =
    let t3 : List ℕ = fmt_ulong ip.d ++ rest in
    let t2 : List ℕ = fmt_ulong ip.c ++ (b'.' ∷ t3) in
    let t1 : List ℕ = fmt_ulong ip.b ++ (b'.' ∷ t2) in
    simp
      (
        append_assoc,
        scan_byte-fmt ip.a (b'.' ∷ t1) h.byte_a (dot-Ends t1),
        scan_byte-fmt ip.b (b'.' ∷ t2) h.byte_b (dot-Ends t2),
        scan_byte-fmt ip.c (b'.' ∷ t3) h.byte_c (dot-Ends t3),
        scan_byte-fmt ip.d rest h.byte_d hr,
        length-append,
      )
      (ground arith)

-- The number of an address is its bytes in base 256, first byte highest.
pub ip4_num_lem :
    (ip : Ip) → IsIp ip → ip4_num 0 ip ≡ ((ip.a * 256 + ip.b) * 256 + ip.c) * 256 + ip.d
unfolding ip4_num
ip4_num_lem ip h = ground (
  arith,
  zero-bit_or (ip.a * 2 ^ 24),
  bit_or-field 24 ip.a (ip.b * 2 ^ 16) (omega arith),
  bit_or-field 16 (ip.a * 256 + ip.b) (ip.c * 2 ^ 8) (omega arith),
  bit_or-field 8 ((ip.a * 256 + ip.b) * 256 + ip.c) ip.d (omega arith),
)
