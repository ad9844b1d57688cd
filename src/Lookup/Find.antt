-- ===== src/Lookup/Find.antt =====
-- `find` in src/tdlookup.c: the next record of a name that the client may see.
pub mod Sound
pub mod Refine
pub mod Same
mod Runs
use geoipdns.Base.{
  ℕ, zero, suc, ◌+◌, ◌-◌, ◌^◌, Bool, true, false, Option, none, some, List, [], ◌∷◌, length, take,
  ltb, if◌then◌else◌,
}
use geoipdns.Cdb.{Cdb, Found, error, absent, present, cdb_read, cdb_findnext}
use geoipdns.Dns.Domain.{dns_domain_length}
use geoipdns.Lookup.Parse.{Taken, Verdict, bad, skip, take as taken, check_data}

-- The globals that `find` reads and sets.
pub record Look : Type 0 where
  pub c : Cdb
  pub clientloc : ℕ
  pub now : ℕ
  pub record_bytes : List ℕ
  pub dpos : ℕ
  pub type : List ℕ
  pub ttl : ℕ

-- `some` is a return of `find`, and `none` a `continue`. What a record that is passed over leaves in
-- `type`, `ttl` and `dpos` is not kept: nothing reads them before the next record sets them.
unfoldable pub judge : Look → List ℕ → Verdict → Look × Option Found
judge s bytes bad = (s, some error)
judge s bytes skip = (s, none)
judge s bytes (taken t) =
    (record s { record_bytes = bytes; dpos = t.dpos; type = t.type; ttl = t.ttl }, some present)

-- `dlen = cdb_datalen(&c); if (dlen > sizeof data) return -1; if (cdb_read(…) == -1) return -1;`
unfoldable pub read_record : Look → Bool → Look × Option Found
unfolding judge
read_record s flagwild =
    if ltb 32767 s.c.dlen then (s, some error) else elim (cdb_read s.c s.c.dlen s.c.dpos) [
      | none ↦ (s, some error)
      | some bytes ↦ judge s bytes (check_data s.clientloc s.now flagwild bytes)
    ]

-- `if (r <= 0) return r;`
unfoldable pub after_findnext : Look → Bool → Cdb × Found → Look × Option Found
after_findnext s flagwild (c, error) = (record s { c = c }, some error)
after_findnext s flagwild (c, absent) = (record s { c = c }, some absent)
after_findnext s flagwild (c, present) = read_record (record s { c = c }) flagwild

unfoldable pub find_round : Look → List ℕ → Bool → Look × Option Found
unfolding after_findnext read_record
find_round s d flagwild =
    after_findnext s flagwild (cdb_findnext s.c (take (dns_domain_length d) d))

-- Goes on after a `continue`.
unfoldable pub unless_done : Look × Option Found → (Look → Look × Found) → Look × Found
unless_done (s, some r) go = (s, r)
unless_done (s, none) go = go s

unfoldable pub find_loop : ℕ → Look → List ℕ → Bool → Look × Found
find_loop zero s d flagwild = (s, error)
find_loop (suc fuel) s d flagwild =
    unless_done (find_round s d flagwild) (λ s'. find_loop fuel s' d flagwild)

unfoldable pub find : Look → List ℕ → Bool → Look × Found
find s d flagwild = find_loop (2 ^ 32) s d flagwild
