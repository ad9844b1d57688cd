-- ===== src/Random/Bounds.antt =====
-- What the callers of `dns_random` rely on, and that `dns_sortip` only reorders.
use geoipdns.Base.{ℕ, ◌<◌, arith}
use geoipdns.Random.{Random, dns_random}

-- A random number below a positive bound.
pub dns_random-lt : (r : Random) (n : ℕ) → 0 < n → (dns_random r n).1 < n
unfolding dns_random
dns_random-lt r n h = grind (arith)
