-- ===== src/Dns/Dot/Runs.antt =====
-- Names in text.
use geoipdns.Base.{ℕ, List, [], ◌∷◌, All, IsByte, ◌≡◌, refl, arith, some}
use geoipdns.Dns.Name.{IsName, wire}
use geoipdns.Dns.Dot.{
  add_label, octal_digit, escaped, next_char, fromdot_loop, dns_domain_fromdot, printed,
  printed_label, todot_loop, dns_domain_todot_cat,
}
use geoipdns.Dns.Dot.Parsed.{dns_domain_fromdot-IsName}

-- `W\052.e.`, whose escape is a star.
abbrev text : List ℕ
text = b'W' ∷ 92 ∷ b'0' ∷ b'5' ∷ b'2' ∷ b'.' ∷ b'e' ∷ b'.' ∷ []

abbrev name : List ℕ
name = 2 ∷ b'W' ∷ b'*' ∷ 1 ∷ b'e' ∷ 0 ∷ []

parses : dns_domain_fromdot text ≡ some name
unfolding dns_domain_fromdot fromdot_loop next_char escaped octal_digit add_label
parses = refl

-- In lower case, with the star as an escape again, and no dot at the end.
prints_back : dns_domain_todot_cat [] name ≡ b'w' ∷ 92 ∷ b'0' ∷ b'5' ∷ b'2' ∷ b'.' ∷ b'e' ∷ []
unfolding dns_domain_todot_cat todot_loop printed_label printed
prints_back = refl

-- A backslash at the end is dropped.
last_backslash : dns_domain_fromdot (b'e' ∷ 92 ∷ []) ≡ some (1 ∷ b'e' ∷ 0 ∷ [])
unfolding dns_domain_fromdot fromdot_loop next_char escaped octal_digit add_label
last_backslash = refl

text-IsByte : All IsByte text
text-IsByte = omega arith

dns_domain_fromdot-IsName_example : (ls : List (List ℕ)) × (name ≡ wire ls) × IsName ls
dns_domain_fromdot-IsName_example = dns_domain_fromdot-IsName text text-IsByte parses
