-- ===== src/Dns/Packet/Runs.antt =====
-- A packet with a compressed name, and one whose pointers go round.
use geoipdns.Base.{
  ℕ, ◌+◌, ◌<◌, ◌≤◌, List, [], ◌∷◌, All, IsByte, take, drop, leb, if◌then◌else◌, ◌≡◌, refl, arith,
  some, none,
}
use geoipdns.Dns.Name.{IsName, wire}
use geoipdns.Dns.Domain.{length_from, dns_domain_length}
use geoipdns.Dns.Packet.{
  dns_packet_copy, dns_packet_skipname, getname_loop, dns_domain_copy, dns_packet_getname,
}
use geoipdns.Dns.Packet.Copy.{dns_packet_copy_lem}
use geoipdns.Dns.Packet.Walk.{dns_packet_getname-IsName, dns_packet_skipname-getname}
use geoipdns.Dns.Packet.Encoded.{Encoded, root, part, pointer, dns_packet_getname-Encoded}

-- `e` at 0, and `w.e` at 3, with a pointer to 0 for its end.
abbrev packet : List ℕ
packet = 1 ∷ b'e' ∷ 0 ∷ 1 ∷ b'w' ∷ 192 ∷ 0 ∷ []

abbrev w_e : List (List ℕ)
w_e = (b'w' ∷ []) ∷ (b'e' ∷ []) ∷ []

w_e-IsName : IsName w_e
w_e-IsName = record {
  labels = (
    record { some_bytes = omega arith; at_most_63 = omega arith; bytes = omega arith },
    (record { some_bytes = omega arith; at_most_63 = omega arith; bytes = omega arith }, tt),
  );
  at_most_255 = omega arith;
}

packet-IsByte : All IsByte packet
packet-IsByte = omega arith

reads_w_e : dns_packet_getname packet 7 3 ≡ some (wire w_e, 7)
unfolding dns_packet_getname getname_loop dns_domain_copy dns_domain_length length_from
reads_w_e = refl

-- A pointer to itself is given up.
goes_round : dns_packet_getname (192 ∷ 0 ∷ []) 2 0 ≡ none
unfolding dns_packet_getname getname_loop dns_domain_copy dns_domain_length length_from
goes_round = refl

w_e-Encoded : Encoded packet 7 3 w_e 6 7
w_e-Encoded =
    part (w_e-IsName.labels.0) (omega arith) refl refl
      (pointer {target = 0} {n = 3} {stop' = 3} (omega arith) (omega arith) refl
        (part (w_e-IsName.labels.1.0) (omega arith) refl refl (root (omega arith) refl refl refl)
          refl)
        refl refl)
      refl

dns_packet_getname-Encoded_example : dns_packet_getname packet 7 3 ≡ some (wire w_e, 7)
dns_packet_getname-Encoded_example =
    dns_packet_getname-Encoded packet 7 (omega arith) w_e-Encoded w_e-IsName (omega arith)

dns_packet_getname-IsName_example :
    ((ls : List (List ℕ)) × (wire w_e ≡ wire ls) × IsName ls) × (3 < 7) × (7 ≤ 7)
dns_packet_getname-IsName_example = dns_packet_getname-IsName packet 7 3 packet-IsByte reads_w_e

dns_packet_skipname-getname_example : dns_packet_skipname packet 7 3 ≡ some 7
dns_packet_skipname-getname_example = dns_packet_skipname-getname packet 7 3 reads_w_e

dns_packet_copy_lem_example :
    dns_packet_copy packet 7 5 3
    ≡ (if leb (5 + 3) 7 then some (take 3 (drop 5 packet), 5 + 3) else none)
dns_packet_copy_lem_example = dns_packet_copy_lem packet 7 5 3 (omega arith) (omega arith)
