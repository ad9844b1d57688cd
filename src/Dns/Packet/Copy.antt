-- ===== src/Dns/Packet/Copy.antt =====
-- `dns_packet_copy` reads inside the packet or fails.
use geoipdns.Base.{
  ℕ, zero, suc, ◌+◌, ◌<◌, ◌≤◌, none, some, List, [], ◌∷◌, take, drop, length, byte_at, ◌≡◌, refl,
  arith, leb, if◌then◌else◌,
}
use native.Mathlib.Decide.{dec_le}
use geoipdns.Dns.Packet.{dns_packet_copy}

pub drop_at :
    (buf : List ℕ) (pos : ℕ)
    → pos < length buf
    → drop pos buf ≡ byte_at buf pos ∷ drop (pos + 1) buf
drop_at [] pos h = elim h [ ]
drop_at (x ∷ xs) zero h = refl
drop_at (x ∷ xs) (suc pos) h =
    let e : suc pos + 1 ≡ suc (pos + 1) = omega arith in rw e (drop_at xs pos (omega arith))

dns_packet_copy_cases :
    (buf : List ℕ) (len pos n : ℕ)
    → len ≤ length buf
    → ((pos + n ≤ len) → dns_packet_copy buf len pos n ≡ some (take n (drop pos buf), pos + n))
      × ((pos ≤ len) → (len < pos + n) → dns_packet_copy buf len pos n ≡ none)
unfolding dns_packet_copy
dns_packet_copy_cases buf len pos zero h = (λ le. ground arith, λ le lt. absurd (omega arith))
dns_packet_copy_cases buf len pos (suc n) h =
    let rest = dns_packet_copy_cases buf len (pos + 1) n h in
    (
      λ le. rw (drop_at buf pos (omega arith)) (ground (arith, rest.0)),
      λ le lt. ground (arith, rest.1),
    )

-- From a position inside the packet, the bytes are copied and the position moves behind them if
-- they all lie in the packet, and the call fails if one lies outside.
pub dns_packet_copy_lem :
    (buf : List ℕ) (len pos n : ℕ)
    → len ≤ length buf
    → pos ≤ len
    → dns_packet_copy buf len pos n
      ≡ (if leb (pos + n) len then some (take n (drop pos buf), pos + n) else none)
dns_packet_copy_lem buf len pos n h hp =
    let c = dns_packet_copy_cases buf len pos n h in
    elim (dec_le (pos + n) len) [
      | yes le ↦ ground (arith, c.0 le)
      | no gt ↦ ground (arith, c.1 hp (omega arith))
    ]
