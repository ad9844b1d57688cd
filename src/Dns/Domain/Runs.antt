-- ===== src/Dns/Domain/Runs.antt =====
-- Concrete names.
use geoipdns.Base.{ℕ, List, [], ◌∷◌, ◌++◌, All, ◌≡◌, ◌↔◌, refl, arith, true, false}
use geoipdns.Text.{fold_case, case_equal}
use geoipdns.Dns.Name.{IsLabel, wire, lower_labels}
use geoipdns.Dns.Domain.{
  length_from, dns_domain_length, dns_domain_equal, next_label, suffix_loop, dns_domain_suffix,
}
use geoipdns.Dns.Domain.Length.{dns_domain_length-wire}
use geoipdns.Dns.Domain.Equal.{dns_domain_equal_iff}

abbrev www_example : List (List ℕ)
www_example = (b'w' ∷ b'w' ∷ []) ∷ (b'e' ∷ []) ∷ []

abbrev shouted : List (List ℕ)
shouted = (b'W' ∷ b'w' ∷ []) ∷ (b'E' ∷ []) ∷ []

www_example-IsLabel : All IsLabel www_example
www_example-IsLabel = (
  record { some_bytes = omega arith; at_most_63 = omega arith; bytes = omega arith },
  (record { some_bytes = omega arith; at_most_63 = omega arith; bytes = omega arith }, tt),
)

shouted-IsLabel : All IsLabel shouted
shouted-IsLabel = (
  record { some_bytes = omega arith; at_most_63 = omega arith; bytes = omega arith },
  (record { some_bytes = omega arith; at_most_63 = omega arith; bytes = omega arith }, tt),
)

same_name : dns_domain_equal (wire www_example) (wire shouted) ≡ true
unfolding dns_domain_equal dns_domain_length length_from case_equal fold_case
same_name = refl

-- A name ends with the root, and with its own last label.
ends_with :
    (dns_domain_suffix (wire www_example) (0 ∷ []) ≡ true)
    × (dns_domain_suffix (wire www_example) (1 ∷ b'e' ∷ 0 ∷ []) ≡ true)
    × (dns_domain_suffix (wire www_example) (1 ∷ b'w' ∷ 1 ∷ b'e' ∷ 0 ∷ []) ≡ false)
unfolding dns_domain_suffix suffix_loop next_label dns_domain_equal dns_domain_length length_from
    case_equal fold_case
ends_with = (refl, refl, refl)

dns_domain_length-wire_example : dns_domain_length (wire www_example ++ (7 ∷ [])) ≡ 6
dns_domain_length-wire_example = dns_domain_length-wire www_example (7 ∷ []) www_example-IsLabel

dns_domain_equal_iff_example :
    (dns_domain_equal (wire www_example ++ (1 ∷ [])) (wire shouted ++ []) ≡ true)
    ↔ (lower_labels www_example ≡ lower_labels shouted)
dns_domain_equal_iff_example =
    dns_domain_equal_iff www_example shouted (1 ∷ []) [] www_example-IsLabel shouted-IsLabel
