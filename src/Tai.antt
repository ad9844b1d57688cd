-- ===== src/Tai.antt =====
-- src/tai.h, tai_add.c, tai_sub.c and tai_uint.c, src/taia.h, taia_add.c, taia_sub.c, taia_less.c,
-- taia_uint.c and taia_tai.c: times.
-- A `struct tai` is its field `x`, a `uint64`. `nano` and `atto` are `unsigned long`, of 64 bits.
pub mod Order
pub mod Sum
mod Runs
use geoipdns.Base.{ℕ, ◌+◌, ◌-◌, ◌^◌, ◌<◌, ◌≤◌, Bool, true, false, ltb, if◌then◌else◌, u64, ◌*◌}

unfoldable pub tai_add : ℕ → ℕ → ℕ
tai_add u v = u64 (u + v)

unfoldable pub tai_sub : ℕ → ℕ → ℕ
tai_sub u v = u64 (u + 2 ^ 64 - v)

unfoldable pub tai_less : ℕ → ℕ → Bool
tai_less t u = ltb t u

-- `tai_unix(t,u)`
unfoldable pub tai_unix : ℕ → ℕ
tai_unix u = u64 (4611686018427387914 + u64 u)

pub record Taia : Type 0 where
  pub sec : ℕ
  pub nano : ℕ
  pub atto : ℕ

abbrev sub64 : ℕ → ℕ → ℕ
sub64 a b = u64 (a + 2 ^ 64 - b)

-- `if (t->atto > 999999999UL) { t->atto -= 1000000000UL; ++t->nano; }`, and the same for `nano`.
abbrev pub carry_atto : Taia → Taia
carry_atto t =
    if ltb 999999999 t.atto
    then record t { nano = u64 (t.nano + 1); atto = t.atto - 1000000000 }
    else t

abbrev pub carry_nano : Taia → Taia
carry_nano t =
    if ltb 999999999 t.nano
    then record t { sec = u64 (t.sec + 1); nano = t.nano - 1000000000 }
    else t

unfoldable pub taia_add : Taia → Taia → Taia
taia_add u v = carry_nano (
    carry_atto (record {
      sec = u64 (u.sec + v.sec);
      nano = u64 (u.nano + v.nano);
      atto = u64 (u.atto + v.atto);
    }))

-- `if (t->atto > uatto) { t->atto += 1000000000UL; --t->nano; }`, and the same for `nano`.
abbrev pub borrow_atto : ℕ → Taia → Taia
borrow_atto uatto t =
    if ltb uatto t.atto
    then record t { nano = sub64 t.nano 1; atto = u64 (t.atto + 1000000000) }
    else t

abbrev pub borrow_nano : ℕ → Taia → Taia
borrow_nano unano t =
    if ltb unano t.nano
    then record t { sec = sub64 t.sec 1; nano = u64 (t.nano + 1000000000) }
    else t

unfoldable pub taia_sub : Taia → Taia → Taia
taia_sub u v = borrow_nano u.nano (
    borrow_atto u.atto
      (record { sec = sub64 u.sec v.sec; nano = sub64 u.nano v.nano; atto = sub64 u.atto v.atto }))

unfoldable pub taia_less : Taia → Taia → Bool
taia_less t u =
    if ltb t.sec u.sec
    then true
    else if ltb u.sec t.sec
    then false
    else if ltb t.nano u.nano
    then true
    else if ltb u.nano t.nano
    then false
    else ltb t.atto u.atto

unfoldable pub taia_uint : ℕ → Taia
taia_uint s = record { sec = s; nano = 0; atto = 0 }

unfoldable pub taia_tai : Taia → ℕ
taia_tai ta = ta.sec
