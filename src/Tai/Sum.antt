-- ===== src/Tai/Sum.antt =====
-- `taia_add` and `taia_sub` on attoseconds.
use geoipdns.Base.{◌+◌, ◌<◌, ◌≤◌, ◌≡◌, arith}
use geoipdns.Tai.{Taia, taia_add, taia_sub}
use geoipdns.Tai.Order.{IsTaia, attos}

-- A sum that does not pass the last second adds the attoseconds, and its parts are in range.
pub taia_add_lem :
    (u v : Taia)
    → IsTaia u
    → IsTaia v
    → u.sec + v.sec + 1 < 18446744073709551616
    → IsTaia (taia_add u v) × (attos (taia_add u v) ≡ attos u + attos v)
unfolding taia_add
taia_add_lem u v hu hv h = ground arith

-- A difference that is not negative subtracts the attoseconds.
pub taia_sub_lem :
    (u v : Taia)
    → IsTaia u
    → IsTaia v
    → attos v ≤ attos u
    → IsTaia (taia_sub u v) × (attos (taia_sub u v) + attos v ≡ attos u)
unfolding taia_sub
taia_sub_lem u v hu hv h = ground arith
