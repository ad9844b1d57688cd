-- ===== src/Lookup/Respond.antt =====
-- `respond`, `datachk` and `datare` in src/tdlookup.c, as `USE_LOCMAPS` without `WILDCARD_LOCMAP`
-- and the Linux branch give them: the watch on the database, and the client's location.
pub mod Located
mod Runs
use geoipdns.Base.{
  ℕ, zero, suc, ◌/◌, Bool, false, not, ◌||◌, Option, none, some, List, [], ◌∷◌, ◌++◌, take, drop,
  ltb, ◌==◌, if◌then◌else◌, ◌>>=◌, ◌>>◌, guard,
}
use geoipdns.Uint.{uint32_unpack}
use geoipdns.Cdb.{Cdb, error, absent, present, cdb_read, cdb_find, cdb_findstart}
use geoipdns.Tai.{tai_unix}
use geoipdns.Ip4.{Ip}
use geoipdns.Ipdb.{ipdb_get}
use geoipdns.Random.{Random}
use geoipdns.Response.{Response}
use geoipdns.Dns.Domain.{dns_domain_length}
use geoipdns.Lookup.Find.{Look}
use geoipdns.Lookup.Records.{State}
use geoipdns.Lookup.Answer.{doit}

-- What the system delivers to a request: the result of `ioctl` with the bytes that wait, and of
-- `read`; of each event, whether its mask has IN_Q_OVERFLOW; the file as `open_read` and `cdb_init`
-- give it when it is opened again, `none` if it cannot be opened; and `time`.
pub record System : Type 0 where
  pub waiting : Option ℕ
  pub read_bytes : ℕ
  pub event_size : ℕ
  pub overflows : List Bool
  pub reopened : Option Cdb
  pub time : ℕ

-- The loop over the events: it fails at one that tells of an overflow.
unfoldable pub has_overflow : ℕ → List Bool → Bool
has_overflow zero events = false
has_overflow (suc left) [] = false
has_overflow (suc left) (e ∷ events) = e || has_overflow left events

-- `datare`: `cdb_init` begins with `cdb_findstart`.
unfoldable pub datare : System → Option Cdb
datare sys = do c ← sys.reopened; some (cdb_findstart c)

unfoldable pub datachk : System → Cdb → Option Cdb
unfolding datare
datachk sys c = elim sys.waiting [
  | none ↦ none
  | some msglen ↦ if msglen == 0 then some c else (do
    guard (sys.read_bytes == msglen)
    guard (not (has_overflow (msglen / sys.event_size) sys.overflows))
    datare sys)
]

-- NOMATCH_HASH
abbrev pub defloc : ℕ
defloc = 1219579562

-- The key of the map of a name: `z` up to `l + 4`.
abbrev pub map_key : List ℕ → List ℕ → List ℕ
map_key q qtype = 0 ∷ b'?' ∷ (take 2 qtype ++ take (dns_domain_length q) q)

-- The lookup of the map of the name, and of the client's location in it: `some` of the state to go
-- on with, and `none` for a return of 0. The array `u` has eight bytes: longer data are written beyond
-- it, and shorter ones leave bytes of it unset. The source does not test for that, and what it does
-- then is undefined; the model has no result for either.
unfoldable pub find_location : Look → List ℕ → List ℕ → Ip → Option Look
find_location l q qtype ip =
    let c = (cdb_find l.c (map_key q qtype)).0 in
    if ltb 255 (dns_domain_length q) then none else elim ((cdb_find l.c (map_key q qtype)).1) [
      | error ↦ none
      | absent ↦ some (record l { c = c })
      | present ↦ do
        guard (c.dlen == 8)
        u ← cdb_read c c.dlen c.dpos
        let (c', loc) = ipdb_get c ip l.clientloc (uint32_unpack u) (uint32_unpack (drop 4 u))
        clientloc ← loc
        some (record l { c = c'; clientloc = clientloc })
    ]

unfoldable pub respond : System → List ℕ → List ℕ → Ip → Look → Response → Random → Option State
respond sys q qtype ip l r random = do
  c ← datachk sys l.c
  l' ← find_location (record l { c = c; now = tai_unix sys.time; clientloc = defloc }) q qtype ip
  doit q qtype l' r random
