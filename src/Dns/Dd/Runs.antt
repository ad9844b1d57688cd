-- ===== src/Dns/Dd/Runs.antt =====
-- The name of 10.0.20.255.
use geoipdns.Base.{[], ◌∷◌, some, ◌≡◌, arith}
use geoipdns.Ip4.{Ip, dns_name4_domain, in_addr_arpa}
use geoipdns.Dns.Dd.{dd}
use geoipdns.Dns.Dd.RoundTrip.{dd-dns_name4_domain}

abbrev address : Ip
address = record { a = 10; b = 0; c = 20; d = 255 }

dd-dns_name4_domain_example :
    dd (dns_name4_domain address) in_addr_arpa (1 ∷ 2 ∷ 3 ∷ 4 ∷ [])
    ≡ some (4, 255 ∷ 20 ∷ 0 ∷ 10 ∷ [])
dd-dns_name4_domain_example = dd-dns_name4_domain address 1 2 3 4 (record {
  byte_a = omega arith;
  byte_b = omega arith;
  byte_c = omega arith;
  byte_d = omega arith;
})
