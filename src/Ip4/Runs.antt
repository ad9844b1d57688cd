-- ===== src/Ip4/Runs.antt =====
-- Concrete addresses.
use geoipdns.Base.{◌+◌, ◌*◌, [], ◌∷◌, ◌++◌, length, ◌≡◌, refl, arith, some, none}
use geoipdns.Text.{scan_loop, scan_ulong}
use geoipdns.Ip4.{Ip, scan_byte, skip_dot, ip4_scan, ip4_fmt, ip4_num}
use geoipdns.Ip4.RoundTrip.{IsIp, ip4_scan-fmt, ip4_num_lem}

abbrev local : Ip
local = record { a = 192; b = 168; c = 0; d = 7 }

local-IsIp : IsIp local
local-IsIp = record {
  byte_a = omega arith;
  byte_b = omega arith;
  byte_c = omega arith;
  byte_d = omega arith;
}

three_parts : ip4_scan (b'1' ∷ b'.' ∷ b'2' ∷ b'.' ∷ b'3' ∷ []) ≡ none
unfolding ip4_scan scan_byte skip_dot scan_ulong scan_loop
three_parts = refl

ip4_scan-fmt_example :
    ip4_scan (ip4_fmt local ++ (b':' ∷ [])) ≡ some (local, length (ip4_fmt local))
ip4_scan-fmt_example = ip4_scan-fmt local (b':' ∷ []) local-IsIp (omega arith)

ip4_num_lem_example : ip4_num 0 local ≡ ((192 * 256 + 168) * 256 + 0) * 256 + 7
ip4_num_lem_example = ip4_num_lem local local-IsIp
