-- ===== src/Ipdb/Get.antt =====
-- `ipdb_get` on a mapped file: the location it gives is that of a network that holds the address.
use geoipdns.Base.{
  ℕ, ◌+◌, ◌<◌, ◌≤◌, ◌≡◌, ◌⊎◌, inl, inr, refl, sym, ap, Option, some, List, [], ◌∷◌, All, IsU32,
  arith, length, take, drop, Option-cases,
}
use mathlib.Core.Path.{subst}
use native.Mathlib.Decide.{dec_le}
use geoipdns.Uint.{uint32_unpack}
use geoipdns.Cdb.{Cdb, Found, error, absent, present, cdb_read, cdb_find}
use geoipdns.Cdb.Match.{cdb_read_lem}
use geoipdns.Cdb.Find.{IsRecord}
use geoipdns.Cdb.Search.{IsCursor, cdb_find_lem}
use geoipdns.Ip4.{Ip, ip4_num}
use geoipdns.Ip4.RoundTrip.{IsIp, ip4_num_lem}
use geoipdns.Ipdb.{
  ipdb_key4build, ipdb_key4lookup, lookup_order, read_location, after_find, try_masks, ipdb_get,
}
use geoipdns.Ipdb.Keys.{network, ipdb_key4lookup-build}

-- The file holds a record under `key`, and its data begin with the location.
pub record IsLocation (file key : List ℕ) (loc : ℕ) : Type 0 where
  pub dpos : ℕ
  pub dlen : ℕ
  pub found : IsRecord file key dpos dlen
  pub inside : dpos + 4 ≤ length file
  pub location : loc ≡ uint32_unpack (take 4 (drop dpos file))

-- What a search over some masks gives: a cursor, and, if it gives a location, the one it had or one
-- of the file.
record IsSearched (file : List ℕ) (key : ℕ → List ℕ) (loc : ℕ) (r : Cdb × Option ℕ) : Type 0 where
  cursor : IsCursor r.0 file
  gives :
      {loc' : ℕ}
      → r.1 ≡ some loc'
      → (loc' ≡ loc) ⊎ ((mask : ℕ) × (mask ≤ 32) × IsLocation file (key mask) loc')

length-ipdb_key4lookup : (ip m mid uid : ℕ) → 0 < length (ipdb_key4lookup ip m mid uid)
unfolding ipdb_key4lookup
length-ipdb_key4lookup ip m mid uid = omega arith

module _ (c : Cdb) (file key : List ℕ) (h : IsCursor c file) where
  -- The four bytes of the location, once a record is found.
  bytes-IsLocation :
      {buf : List ℕ}
      → IsRecord file key c.dpos c.dlen
      → cdb_read c 4 c.dpos ≡ some buf
      → IsLocation file key (uint32_unpack buf)
  bytes-IsLocation {buf} found e = elim (dec_le (c.dpos + 4) (length file)) [
    | yes p ↦ record {
      dpos = c.dpos;
      dlen = c.dlen;
      found = found;
      inside = p;
      location = ap uint32_unpack (cc (e, (cdb_read_lem c 4 c.dpos h.mapped).0 p));
    }
    | no p ↦ absurd (cc (e, (cdb_read_lem c 4 c.dpos h.mapped).1 (omega arith)))
  ]

  read_location_lem :
      IsRecord file key c.dpos c.dlen
      → ((read_location c).0 ≡ c)
        × ((loc : ℕ) → (read_location c).1 ≡ some loc → IsLocation file key loc)
  unfolding read_location
  read_location_lem found = elim (Option-cases (cdb_read c 4 c.dpos)) [
    | inl e ↦ rw (e, read_location) (refl, λ l x. absurd (cc))
    | inr (buf, e) ↦
        rw (e, read_location)
          (refl, λ l x. subst (λ n. IsLocation file key n) (cc x) (bytes-IsLocation found e))
  ]

module _ (file : List ℕ) (key : ℕ → List ℕ) (loc mask : ℕ) (small : mask ≤ 32) where
  after_find-IsSearched :
      (r : Cdb × Found) (rest : Cdb → Cdb × Option ℕ)
      → IsCursor r.0 file
      → (r.1 ≡ present → IsRecord file (key mask) r.0.dpos r.0.dlen)
      → IsSearched file key loc (rest r.0)
      → IsSearched file key loc (after_find r rest)
  unfolding after_find
  after_find-IsSearched (c, error) rest h found s = record { cursor = h; gives = λ e. absurd (cc) }
  after_find-IsSearched (c, absent) rest h found s = record { cursor = s.cursor; gives = s.gives }
  after_find-IsSearched (c, present) rest h found s =
      let l = read_location_lem c file (key mask) h (found refl) in
      record {
        cursor = subst (λ x. IsCursor x file) (sym l.0) h;
        gives = λ e. inr (mask, small, l.1 _ e);
      }

module _ (ipint mid uid loc : ℕ) (file : List ℕ) where
  try_masks-IsSearched :
      (masks : List ℕ) (c : Cdb)
      → All (λ m. m ≤ 32) masks
      → IsCursor c file
      → IsSearched file
          (λ m. ipdb_key4lookup ipint m mid uid)
          loc
          (try_masks masks c ipint mid uid loc)
  unfolding try_masks
  try_masks-IsSearched [] c hm h = record { cursor = h; gives = λ e. inl (cc e) }
  try_masks-IsSearched (mask ∷ masks) c hm h =
      let key = ipdb_key4lookup ipint mask mid uid in
      let f = cdb_find_lem c key (length-ipdb_key4lookup ipint mask mid uid) h in
      after_find-IsSearched file (λ m. ipdb_key4lookup ipint m mid uid) loc mask hm.0
        (cdb_find c key) (λ c'. try_masks masks c' ipint mid uid loc) f.0 f.1
        (try_masks-IsSearched masks (cdb_find c key).0 hm.1 f.0)

-- On a mapped file, the location that `ipdb_get` gives is the one that it was handed, or one of the
-- file, of a record of the map and the user for a network that holds the address.
pub ipdb_get_lem :
    (c : Cdb) (ip : Ip) (loc mid uid : ℕ) {file : List ℕ} {loc' : ℕ}
    → IsCursor c file
    → IsIp ip
    → (ipdb_get c ip loc mid uid).1 ≡ some loc'
    → (loc' ≡ loc)
      ⊎ ((mask : ℕ) × (mask ≤ 32)
          × IsLocation file (ipdb_key4build (network (ip4_num 0 ip) mask) mask mid uid) loc')
unfolding ipdb_get
ipdb_get_lem c ip loc mid uid {file} {loc'} h hip e =
    let number : IsU32 (ip4_num 0 ip) =
      omega (arith, ip4_num_lem ip hip, hip.byte_a, hip.byte_b, hip.byte_c, hip.byte_d) in
    let s = try_masks-IsSearched (ip4_num 0 ip) mid uid loc file lookup_order c (omega arith) h in
    elim (s.gives e) [
      | inl same ↦ inl same
      | inr (mask, small, l) ↦ inr (
        mask,
        small,
        subst (λ key. IsLocation file key loc')
            (ipdb_key4lookup-build (ip4_num 0 ip) mask mid uid number small) l,
      )
    ]
