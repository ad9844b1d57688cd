-- ===== src/Dns/Domain/Length.antt =====
-- The length that `dns_domain_length` counts.
use geoipdns.Base.{
  ℕ, ◌+◌, List, [], ◌∷◌, ◌++◌, length, length-append, append_assoc, take, take-append, All, ◌≡◌,
  refl, arith,
}
use geoipdns.Dns.Name.{IsLabel, wire}
use geoipdns.Dns.Domain.{length_from, dns_domain_length}

length_from-skip :
    (l rest : List ℕ) → length_from (length l) (l ++ rest) ≡ length l + length_from 0 rest
unfolding length_from
length_from-skip [] rest = omega arith
length_from-skip (b ∷ l) rest = omega (arith, length_from-skip l rest)

-- Whatever stands behind a well-formed name, its length is counted up to its end.
pub dns_domain_length-wire :
    (ls : List (List ℕ)) (rest : List ℕ)
    → All IsLabel ls
    → dns_domain_length (wire ls ++ rest) ≡ length (wire ls)
unfolding dns_domain_length
dns_domain_length-wire [] rest h = refl
dns_domain_length-wire (l ∷ ls) rest h = rw append_assoc (
    ground (
      arith,
      h.0.some_bytes,
      length_from-skip l (wire ls ++ rest),
      length-append l (wire ls),
      dns_domain_length-wire ls rest h.1,
    ))

-- So the bytes that are compared or copied are the name.
pub take-dns_domain_length :
    (ls : List (List ℕ)) (rest : List ℕ)
    → All IsLabel ls
    → take (dns_domain_length (wire ls ++ rest)) (wire ls ++ rest) ≡ wire ls
take-dns_domain_length ls rest h =
    rw (dns_domain_length-wire ls rest h) (take-append (wire ls) rest)
