-- ===== src/Ipdb/Refine.antt =====
-- `ipdb_get` on a database that src/cdb_make.c has made.
use geoipdns.Base.{
  ℕ, ◌+◌, ◌≤◌, ◌≡◌, refl, sym, ap, ◌∙◌, inl, inr, Bool-cases, Option, some, List, [], ◌∷◌, All,
  IsU32, arith, length, take, drop, take-take,
}
use mathlib.Core.Path.{subst}
use native.Mathlib.Decide.{dec_le}
use geoipdns.Uint.{uint32_unpack}
use geoipdns.Cdb.{
  Cdb, Found, error, absent, present, byte_equal, cdb_read, cdb_findstart, cdb_findnext, cdb_find,
}
use geoipdns.Cdb.Match.{IsMapped, cdb_read_lem}
use geoipdns.Cdb.Make.Built.{IsBuilt}
use geoipdns.Cdb.Walk.{datas_of}
use geoipdns.Cdb.Refine.{IsRest, cdb_findstart-IsRest, IsRest-nil, IsRest-cons}
use geoipdns.Cdb.Same.{IsSame-IsMapped, cdb_find-IsSame}
use geoipdns.Ip4.{Ip, ip4_num}
use geoipdns.Ip4.RoundTrip.{IsIp, ip4_num_lem}
use geoipdns.Ipdb.{ipdb_key4build, lookup_order, read_location, after_find, try_masks, ipdb_get}
use geoipdns.Ipdb.Keys.{network, ipdb_key4lookup-build}

-- The location of the first of these masks whose network of the address has a record, or else `loc`.
unfoldable pub location_of : List ℕ → List (List ℕ × List ℕ) → ℕ → ℕ → ℕ → ℕ → ℕ
location_of [] records ipint mid uid loc = loc
location_of (mask ∷ masks) records ipint mid uid loc =
    let rest = location_of masks records ipint mid uid loc in
    elim (datas_of (ipdb_key4build (network ipint mask) mask mid uid) records) [
      | [] ↦ rest
      | d ∷ ds ↦ uint32_unpack (take 4 d)
    ]

-- The data can hold a location.
abbrev pub HasFour : List ℕ × List ℕ → Type 0
HasFour (key, content) = 4 ≤ length content

datas_of-HasFour :
    (key : List ℕ) (records : List (List ℕ × List ℕ))
    → All HasFour records
    → All (λ (d : List ℕ). 4 ≤ length d) (datas_of key records)
unfolding datas_of
datas_of-HasFour key [] h = tt
datas_of-HasFour key ((key', content) ∷ records) h = elim (Bool-cases (byte_equal key' key)) [
  | inl hit ↦ rw (hit, datas_of) (h.0, datas_of-HasFour key records h.1)
  | inr miss ↦ rw (miss, datas_of) (datas_of-HasFour key records h.1)
]

-- A shorter read of the same data.
cdb_read_less :
    (c : Cdb) {file : List ℕ} (len less pos : ℕ) (d : List ℕ)
    → IsMapped c file
    → less ≤ len
    → cdb_read c len pos ≡ some d
    → cdb_read c less pos ≡ some (take less d)
cdb_read_less c {file} len less pos d mapped le e = elim (dec_le (pos + len) (length file)) [
  | yes inside ↦
      let bytes : take len (drop pos file) ≡ d = cc ((cdb_read_lem c len pos mapped).0 inside, e) in
      (cdb_read_lem c less pos mapped).0 (omega arith)
      ∙ ap some
          (sym (take-take less len (drop pos file) le) ∙ ap (λ (bs : List ℕ). take less bs) bytes)
  | no outside ↦ absurd (cc ((cdb_read_lem c len pos mapped).1 (omega arith), e))
]

module _ (file : List ℕ) (records : List (List ℕ × List ℕ)) (built : IsBuilt file records)
    (ipint mid uid loc : ℕ) (number : IsU32 ipint) where
  abbrev key : ℕ → List ℕ
  key mask = ipdb_key4build (network ipint mask) mask mid uid

  -- After the lookup under a mask.
  after_absent :
      (r : Cdb × Found) (rest : Cdb → Cdb × Option ℕ) → r.1 ≡ absent → after_find r rest ≡ rest r.0
  unfolding after_find
  after_absent (c, error) rest e = absurd (cc)
  after_absent (c, absent) rest e = refl
  after_absent (c, present) rest e = absurd (cc)

  after_present :
      (r : Cdb × Found) (rest : Cdb → Cdb × Option ℕ) (buf : List ℕ)
      → r.1 ≡ present
      → cdb_read r.0 4 r.0.dpos ≡ some buf
      → (after_find r rest).1 ≡ some (uint32_unpack buf)
  unfolding after_find read_location
  after_present (c, error) rest buf e read = absurd (cc)
  after_present (c, absent) rest buf e read = absurd (cc)
  after_present (c, present) rest buf e read = rw (read, read_location) refl

  mask_step :
      (mask : ℕ) (masks : List ℕ) (c : Cdb) (ds : List (List ℕ))
      → mask ≤ 32
      → IsMapped c file
      → datas_of (key mask) records ≡ ds
      → All (λ d. 4 ≤ length d) ds
      → ((c' : Cdb)
          → IsMapped c' file
          → (try_masks masks c' ipint mid uid loc).1
            ≡ some (location_of masks records ipint mid uid loc))
      → (try_masks (mask ∷ masks) c ipint mid uid loc).1
        ≡ some (location_of (mask ∷ masks) records ipint mid uid loc)
  unfolding try_masks location_of cdb_find
  mask_step mask masks c [] small mapped e long further =
      let same = ipdb_key4lookup-build ipint mask mid uid number small in
      let none_left =
        subst (IsRest file records built (key mask) (cdb_findstart c)) e
          (cdb_findstart-IsRest file records built (key mask) c mapped) in
      let gone = IsRest-nil file records built (key mask) (cdb_findstart c) none_left in
      rw (same, e, after_absent (cdb_findnext (cdb_findstart c) (key mask)) _ gone, location_of)
        (further (cdb_findnext (cdb_findstart c) (key mask)).0
          (IsSame-IsMapped (cdb_find-IsSame c (key mask)) mapped))
  mask_step mask masks c (d ∷ ds) small mapped e long further =
      let same = ipdb_key4lookup-build ipint mask mid uid number small in
      let some_left =
        subst (IsRest file records built (key mask) (cdb_findstart c)) e
          (cdb_findstart-IsRest file records built (key mask) c mapped) in
      let (found, read, size, left) =
        IsRest-cons file records built (key mask) (cdb_findstart c) d ds some_left in
      let r = cdb_findnext (cdb_findstart c) (key mask) in
      let four =
        cdb_read_less r.0 r.0.dlen 4 r.0.dpos d
          (IsSame-IsMapped (cdb_find-IsSame c (key mask)) mapped) (omega (arith, size, long.0))
          read in
      rw (same, e, location_of) (after_present r _ (take 4 d) found four)

  try_masks-location_of :
      (masks : List ℕ) (c : Cdb)
      → All (λ m. m ≤ 32) masks
      → All HasFour records
      → IsMapped c file
      → (try_masks masks c ipint mid uid loc).1 ≡ some (location_of masks records ipint mid uid loc)
  unfolding try_masks location_of
  try_masks-location_of [] c small long mapped = refl
  try_masks-location_of (mask ∷ masks) c small long mapped =
      mask_step mask masks c (datas_of (key mask) records) small.0 mapped refl
        (datas_of-HasFour (key mask) records long)
        (λ c' mapped'. try_masks-location_of masks c' small.1 long mapped')

-- On a database that was made of a list of records, whose data have four bytes at least, `ipdb_get` does not fail, and gives the location of the first mask, in its order of masks,
-- for which the network of that size that holds the address has a record of the map and the user: that
-- of the first such record. If no network has one, it gives the location that it was handed.
pub ipdb_get-location_of :
    (file : List ℕ) (records : List (List ℕ × List ℕ)) (c : Cdb) (ip : Ip) (loc mid uid : ℕ)
    → IsBuilt file records
    → IsMapped c file
    → IsIp ip
    → All HasFour records
    → (ipdb_get c ip loc mid uid).1
      ≡ some (location_of lookup_order records (ip4_num 0 ip) mid uid loc)
unfolding ipdb_get
ipdb_get-location_of file records c ip loc mid uid built mapped hip long =
    let number : IsU32 (ip4_num 0 ip) =
      omega (arith, ip4_num_lem ip hip, hip.byte_a, hip.byte_b, hip.byte_c, hip.byte_d) in
    try_masks-location_of file records built (ip4_num 0 ip) mid uid loc number lookup_order c
      (omega arith) long mapped
