-- ===== src/Dns/Domain.antt =====
-- src/dns_domain.c: the length of a name, and comparisons of names.
pub mod Length
pub mod Equal
mod Runs
use geoipdns.Base.{
  ℕ, zero, suc, ◌+◌, Bool, true, false, Option, none, some, List, [], ◌∷◌, take, drop, length,
  byte_at, ◌==◌, if◌then◌else◌, ◌≡◌, ◌≤◌, IsByte,
}
use geoipdns.Text.{case_equal}

-- `while (c = *x++) x += c;`: the number is what is left of `x += c`. A name that its array cuts
-- short, which the source reads past, ends at the end of the array here.
unfoldable pub length_from : ℕ → List ℕ → ℕ
length_from skip [] = 0
length_from (suc skip) (b ∷ bs) = suc (length_from skip bs)
length_from zero (b ∷ bs) = let more = suc (length_from b bs) in if b == 0 then 1 else more

unfoldable pub dns_domain_length : List ℕ → ℕ
unfolding length_from
dns_domain_length dn = length_from 0 dn

unfoldable pub dns_domain_equal : List ℕ → List ℕ → Bool
dns_domain_equal dn1 dn2 =
    let len = dns_domain_length dn1 in
    if len == dns_domain_length dn2 then case_equal (take len dn1) (take len dn2) else false

-- `c = *big++; if (!c) return; big += c;`: what is left after the first label, if there is one.
unfoldable pub next_label : List ℕ → Option (List ℕ)
next_label [] = none
next_label (c ∷ big) = if c == 0 then none else some (drop c big)

-- The loop of both searches: how far into `big` the first suffix equal to `little` lies. A round
-- drops a byte at least, so `length big` rounds are enough.
unfoldable pub suffix_loop : ℕ → ℕ → List ℕ → List ℕ → Option ℕ
suffix_loop zero pos big little = if dns_domain_equal big little then some pos else none
suffix_loop (suc fuel) pos big little =
    let rest = λ (b : List ℕ). suffix_loop fuel (pos + 1 + byte_at big 0) b little in
    if dns_domain_equal big little
    then some pos
    else elim (next_label big) [ none ↦ none | some b ↦ rest b ]

unfoldable pub dns_domain_suffix : List ℕ → List ℕ → Bool
unfolding suffix_loop
dns_domain_suffix big little = elim (suffix_loop (length big) 0 big little) [
  | none ↦ false
  | some pos ↦ true
]

unfoldable pub dns_domain_suffixpos : List ℕ → List ℕ → ℕ
unfolding suffix_loop
dns_domain_suffixpos big little = elim (suffix_loop (length big) 0 big little) [
  | none ↦ 0
  | some pos ↦ pos
]
