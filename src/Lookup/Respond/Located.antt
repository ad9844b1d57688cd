-- ===== src/Lookup/Respond/Located.antt =====
-- The location of a client, as `respond` of src/tdlookup.c finds it in a database that src/cdb_make.c
-- has made: the map of the name, and the networks of the map.
use geoipdns.Dns.Domain.{dns_domain_length}
use geoipdns.Base.{
  ℕ, ◌≡◌, ◌≤◌, ◌==◌, ltb, true, false, length, arith, refl, Option, some, List, [], ◌∷◌, All, drop,
  Option-cases, inl, inr,
}
use mathlib.Core.Path.{subst}
use geoipdns.Uint.{uint32_unpack}
use geoipdns.Cdb.{
  Cdb, Found, error, absent, present, cdb_read, cdb_findstart, cdb_findnext, cdb_find,
}
use geoipdns.Cdb.Match.{IsMapped}
use geoipdns.Cdb.Make.Built.{IsBuilt}
use geoipdns.Cdb.Walk.{datas_of}
use geoipdns.Cdb.Refine.{IsRest, cdb_findstart-IsRest, IsRest-nil, IsRest-cons}
use geoipdns.Cdb.Same.{IsSame, IsSame-refl, IsSame-trans, IsSame-IsMapped, cdb_find-IsSame}
use geoipdns.Ip4.{Ip, ip4_num}
use geoipdns.Ip4.RoundTrip.{IsIp}
use geoipdns.Ipdb.{lookup_order, ipdb_key4lookup, read_location, after_find, try_masks, ipdb_get}
use geoipdns.Ipdb.Refine.{HasFour, location_of, ipdb_get-location_of}
use geoipdns.Lookup.Find.{Look}
use geoipdns.Lookup.Respond.{map_key, find_location}

-- The location of an address for a question: that of its networks in the map and of the user that the
-- name has for the type. A name without a map leaves the location as it is.
unfoldable pub client_location : List (List ℕ × List ℕ) → List ℕ → List ℕ → ℕ → ℕ → ℕ
client_location records q qtype ipint clientloc = elim (datas_of (map_key q qtype) records) [
  | [] ↦ clientloc
  | u ∷ us ↦
      location_of lookup_order records ipint (uint32_unpack u) (uint32_unpack (drop 4 u)) clientloc
]

after_find-IsSame :
    (c : Cdb) (r : Cdb × Found) (rest : Cdb → Cdb × Option ℕ)
    → IsSame c r.0
    → ((c' : Cdb) → IsSame c' (rest c').0)
    → IsSame c (after_find r rest).0
unfolding after_find read_location
after_find-IsSame c (c', error) rest same further = same
after_find-IsSame c (c', absent) rest same further = IsSame-trans same (further c')
after_find-IsSame c (c', present) rest same further = elim (Option-cases (cdb_read c' 4 c'.dpos)) [
  | inl e ↦ rw (e, read_location) same
  | inr (buf, e) ↦ rw (e, read_location) same
]

try_masks-IsSame :
    (masks : List ℕ) (c : Cdb) (ipint mid uid loc : ℕ)
    → IsSame c (try_masks masks c ipint mid uid loc).0
unfolding try_masks
try_masks-IsSame [] c ipint mid uid loc = IsSame-refl c
try_masks-IsSame (mask ∷ masks) c ipint mid uid loc =
    after_find-IsSame c (cdb_find c (ipdb_key4lookup ipint mask mid uid)) _
      (cdb_find-IsSame c (ipdb_key4lookup ipint mask mid uid))
      (λ c'. try_masks-IsSame masks c' ipint mid uid loc)

ipdb_get-IsSame : (c : Cdb) (ip : Ip) (loc mid uid : ℕ) → IsSame c (ipdb_get c ip loc mid uid).0
unfolding ipdb_get
ipdb_get-IsSame c ip loc mid uid = try_masks-IsSame lookup_order c (ip4_num 0 ip) mid uid loc

-- The data of a map: the map and the user, of four bytes each.
abbrev pub HasEight : List ℕ → Type 0
HasEight content = length content ≡ 8

-- The state with the location, over the same file, at the same time.
pub record IsLocated (file : List ℕ) (l l' : Look) (loc : ℕ) : Type 0 where
  pub mapped : IsMapped l'.c file
  pub located : l'.clientloc ≡ loc
  pub same_now : l'.now ≡ l.now

module _ (file : List ℕ) (records : List (List ℕ × List ℕ)) (built : IsBuilt file records)
    (l : Look) (q qtype : List ℕ) (ip : Ip) (mapped : IsMapped l.c file) (hip : IsIp ip)
    (four : All HasFour records) (short : dns_domain_length q ≤ 255) where
  abbrev key : List ℕ
  key = map_key q qtype

  -- The lookup of the map, by the data under its key.
  data-IsLocated :
      (ds : List (List ℕ))
      → datas_of key records ≡ ds
      → All HasEight ds
      → (l' : Look) × (find_location l q qtype ip ≡ some l')
        × IsLocated file l l' (client_location records q qtype (ip4_num 0 ip) l.clientloc)
  unfolding find_location client_location cdb_find
  data-IsLocated [] e eight =
      let limit : ltb 255 (dns_domain_length q) ≡ false = ground (arith, short) in
      let c0 = cdb_findstart l.c in
      let none_left =
        subst (IsRest file records built key c0) e
          (cdb_findstart-IsRest file records built key l.c mapped) in
      let gone = IsRest-nil file records built key c0 none_left in
      let c' = (cdb_findnext c0 key).0 in
      rw (limit, gone, e, find_location, client_location)
        (
          record l { c = c' },
          refl,
          record {
            mapped = IsSame-IsMapped (cdb_find-IsSame l.c key) mapped;
            located = refl;
            same_now = refl;
          },
        )
  data-IsLocated (u ∷ us) e eight =
      let limit : ltb 255 (dns_domain_length q) ≡ false = ground (arith, short) in
      let c0 = cdb_findstart l.c in
      let some_left =
        subst (IsRest file records built key c0) e
          (cdb_findstart-IsRest file records built key l.c mapped) in
      let (found, read, size, left) = IsRest-cons file records built key c0 u us some_left in
      let c' = (cdb_findnext c0 key).0 in
      let eight_bytes : ((cdb_findnext c0 key).0.dlen == 8) ≡ true =
        ground (arith, size, eight.0) in
      let mapped' = IsSame-IsMapped (cdb_find-IsSame l.c key) mapped in
      let loc =
        ipdb_get-location_of file records c' ip l.clientloc (uint32_unpack u)
          (uint32_unpack (drop 4 u)) built mapped' hip four in
      let r = ipdb_get c' ip l.clientloc (uint32_unpack u) (uint32_unpack (drop 4 u)) in
      rw (limit, found, eight_bytes, read, e, loc, find_location, client_location)
        (
          record l {
            c = r.0;
            clientloc =
                location_of lookup_order records (ip4_num 0 ip) (uint32_unpack u)
                  (uint32_unpack (drop 4 u)) l.clientloc;
          },
          refl,
          record {
            mapped =
                IsSame-IsMapped
                  (ipdb_get-IsSame c' ip l.clientloc (uint32_unpack u) (uint32_unpack (drop 4 u)))
                  mapped';
            located = refl;
            same_now = refl;
          },
        )

-- On a database that was made of a list of records, whose data have four bytes at least, those of the
-- map of the name for the type eight, and for a name of 255 bytes at most, the client's location is
-- found without a failure: if the name has a map for the type, it is the location of the first mask, in
-- the order of `ipdb_get`, whose network of the address has a record of this map and user; and it stays
-- what it was where there is no map or no such network. The file and the time stay.
pub find_location-client_location :
    (file : List ℕ) (records : List (List ℕ × List ℕ)) (l : Look) (q qtype : List ℕ) (ip : Ip)
    → IsBuilt file records
    → IsMapped l.c file
    → IsIp ip
    → All HasFour records
    → All HasEight (datas_of (map_key q qtype) records)
    → dns_domain_length q ≤ 255
    → (l' : Look) × (find_location l q qtype ip ≡ some l')
      × IsLocated file l l' (client_location records q qtype (ip4_num 0 ip) l.clientloc)
find_location-client_location file records l q qtype ip built mapped hip four eight short =
    data-IsLocated file records built l q qtype ip mapped hip four short
      (datas_of (map_key q qtype) records) refl eight
