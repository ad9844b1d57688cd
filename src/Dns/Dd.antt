-- ===== src/Dns/Dd.antt =====
-- src/dd.c: the numbers in front of a name.
pub mod RoundTrip
mod Runs
use geoipdns.Base.{
  ℕ, zero, suc, ◌+◌, ◌-◌, ◌*◌, Bool, true, false, not, ◌&&◌, ◌||◌, Option, none, some, List, [],
  ◌∷◌, drop, set, byte_at, leb, ltb, ◌==◌, if◌then◌else◌,
}
use geoipdns.Dns.Domain.{dns_domain_equal}

abbrev is_digit : ℕ → Bool
is_digit ch = leb b'0' ch && leb ch b'9'

-- The body of the loop once the name is not the base: the number of a label of one to three digits,
-- without a zero in front, and what is left of the name. A first byte above 127 is negative as a
-- `char`; like one from 4 on, it is refused.
unfoldable pub dd_label : List ℕ → Option (ℕ × List ℕ)
dd_label q =
    let n = byte_at q 0 in
    let x1 = byte_at q 1 - b'0' in
    let x2 = x1 * 10 + (byte_at q 2 - b'0') in
    let x3 = x2 * 10 + (byte_at q 3 - b'0') in
    if (n == 0) || leb 4 n || not (is_digit (byte_at q 1))
    then none
    else if n == 1
    then some (x1, drop 2 q)
    else if (x1 == 0) || not (is_digit (byte_at q 2))
    then none
    else if n == 2
    then some (x2, drop 3 q)
    else if not (is_digit (byte_at q 3)) || ltb 255 x3
    then none
    else some (x3, drop 4 q)

-- The rounds from `j` on; `ip` are the four bytes. `none` is the return of -1; what it
-- leaves in the array is not kept.
unfoldable pub dd_loop : ℕ → ℕ → List ℕ → List ℕ → List ℕ → Option (ℕ × List ℕ)
dd_loop zero j q base ip = none
dd_loop (suc left) j q base ip =
    if dns_domain_equal q base then some (j, ip) else if leb 4 j then none else elim (dd_label q) [
      | none ↦ none
      | some (x, rest) ↦ dd_loop left (j + 1) rest base (set ip j x)
    ]

-- Five rounds: the one with `j` of 4 returns.
unfoldable pub dd : List ℕ → List ℕ → List ℕ → Option (ℕ × List ℕ)
unfolding dd_loop
dd q base ip = dd_loop 5 0 q base ip
