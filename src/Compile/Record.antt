-- ===== src/Compile/Record.antt =====
-- The records that src/vdnsdb.c builds: `rr_start`, `rr_add`, `rr_addname`, `rr_addloq` and
-- `rr_finish`, with the globals `cdb` and `result`. `key` is set anew wherever it is read.
pub mod Stored
pub mod ReadBack
use geoipdns.Base.{
  ℕ, zero, suc, ◌+◌, ◌-◌, Bool, true, false, Option, none, some, List, [], ◌∷◌, ◌++◌, length, take,
  drop, set, byte_at, ◌==◌, if◌then◌else◌, u8, u32,
}
use geoipdns.Uint.{uint32_pack, uint32_pack_big}
use geoipdns.Text.{case_lowerb}
use geoipdns.Cdb.{byte_equal}
use geoipdns.Cdb.Hash.{cdb_hash}
use geoipdns.Cdb.Make.{CdbMake, cdb_make_add}
use geoipdns.Dns.Domain.{dns_domain_length}
use geoipdns.Lookup.Respond.{defloc}

pub record Out : Type 0 where
  pub cdb : CdbMake
  pub result : List ℕ

unfoldable pub gethash : List ℕ → ℕ
gethash s = if length s == 0 then 0 else cdb_hash s

unfoldable pub rr_add : List ℕ → Out → Out
rr_add buf o = record o { result = o.result ++ buf }

unfoldable pub rr_addname : List ℕ → Out → Out
unfolding rr_add
rr_addname d o = rr_add (take (dns_domain_length d) d) o

-- The key of the map of a name, and the map's data. NOMATCH_HASH is `defloc`.
abbrev pub loq_key : List ℕ → List ℕ → List ℕ
loq_key type d = 0 ∷ b'?' ∷ (type ++ take (dns_domain_length d) d)

-- What `cdb_make_add` returns is not looked at.
unfoldable pub rr_addloq : List ℕ → List ℕ → ℕ → ℕ → ℕ → Out → Out
rr_addloq type d loc mid uid o =
    if loc == defloc
    then record o {
      cdb = (cdb_make_add o.cdb (loq_key type d) (uint32_pack mid ++ uint32_pack uid)).0;
    }
    else o

-- The mark of a record, with the location where it has one.
abbrev pub located : ℕ → List ℕ
located loc = if loc == 0 then b'=' ∷ [] else b'>' ∷ uint32_pack loc

-- `ttl` is an `unsigned long`, cut to a `uint32`.
unfoldable pub rr_start : List ℕ → ℕ → List ℕ → ℕ → Out → Out
rr_start type ttl ttd loc o = record o {
  result = type ++ (located loc ++ (uint32_pack_big (u32 ttl) ++ ttd));
}

-- `result.s[2] -= 19`
abbrev pub mark_wild : List ℕ → List ℕ
mark_wild result = set result 2 (u8 (byte_at result 2 + 256 - 19))

-- `byte_equal(owner,2,"\1*")`
abbrev pub is_wild : List ℕ → Bool
is_wild owner = byte_equal (take 2 owner) (1 ∷ b'*' ∷ [])

abbrev pub finish_key : List ℕ → List ℕ
finish_key owner = case_lowerb (take (dns_domain_length owner) owner)

unfoldable pub rr_finish : List ℕ → Out → Option Out
rr_finish owner o =
    let owner' = if is_wild owner then drop 2 owner else owner in
    let result = if is_wild owner then mark_wild o.result else o.result in
    let (cdb, added) = cdb_make_add o.cdb (finish_key owner') result in
    if added then some (record { cdb = cdb; result = result }) else none
