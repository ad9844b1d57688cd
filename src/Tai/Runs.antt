-- ===== src/Tai/Runs.antt =====
-- Concrete times.
use geoipdns.Base.{◌+◌, ◌<◌, ◌≡◌, ◌↔◌, refl, arith, true}
use geoipdns.Tai.{Taia, taia_add, taia_sub, taia_less}
use geoipdns.Tai.Order.{IsTaia, attos, taia_less_iff}
use geoipdns.Tai.Sum.{taia_add_lem, taia_sub_lem}

abbrev late : Taia
late = record { sec = 10; nano = 999999999; atto = 600000000 }

abbrev short : Taia
short = record { sec = 1; nano = 0; atto = 700000000 }

late-IsTaia : IsTaia late
late-IsTaia = record { sec_fits = omega arith; nano_fits = omega arith; atto_fits = omega arith }

short-IsTaia : IsTaia short
short-IsTaia = record { sec_fits = omega arith; nano_fits = omega arith; atto_fits = omega arith }

-- Both carries.
carries : taia_add late short ≡ record { sec = 12; nano = 0; atto = 300000000 }
unfolding taia_add
carries = refl

-- A borrow.
borrows : taia_sub late short ≡ record { sec = 9; nano = 999999998; atto = 900000000 }
unfolding taia_sub
borrows = refl

taia_less_iff_example : (taia_less short late ≡ true) ↔ (attos short < attos late)
taia_less_iff_example = taia_less_iff short late short-IsTaia late-IsTaia

taia_add_lem_example :
    IsTaia (taia_add late short) × (attos (taia_add late short) ≡ attos late + attos short)
taia_add_lem_example = taia_add_lem late short late-IsTaia short-IsTaia (omega arith)

taia_sub_lem_example :
    IsTaia (taia_sub late short) × (attos (taia_sub late short) + attos short ≡ attos late)
taia_sub_lem_example = taia_sub_lem late short late-IsTaia short-IsTaia (omega arith)
