-- ===== src/Tai/Order.antt =====
-- `taia_less` is the order of the moments.
use geoipdns.Base.{ℕ, ◌+◌, ◌*◌, ◌<◌, true, ◌≡◌, ◌↔◌, arith}
use geoipdns.Tai.{Taia, taia_less}

-- The parts of a second are below 10^9 each.
pub record IsTaia (t : Taia) : Type 0 where
  pub sec_fits : t.sec < 18446744073709551616
  pub nano_fits : t.nano < 1000000000
  pub atto_fits : t.atto < 1000000000

-- The attoseconds since the origin.
abbrev pub attos : Taia → ℕ
attos t = (t.sec * 1000000000 + t.nano) * 1000000000 + t.atto

-- One time is less than another exactly when it is fewer attoseconds after the origin.
pub taia_less_iff :
    (t u : Taia) → IsTaia t → IsTaia u → (taia_less t u ≡ true) ↔ (attos t < attos u)
unfolding taia_less
taia_less_iff t u ht hu = (λ e. ground arith, λ e. ground arith)
