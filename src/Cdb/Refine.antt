-- ===== src/Cdb/Refine.antt =====
-- What src/cdb.c finds in a file of src/cdb_make.c: the data under the key, in the order in which the
-- records were added.
use mathlib.Core.Path.{subst}
use geoipdns.Base.{
  ℕ, zero, suc, ◌+◌, ◌-◌, ◌*◌, ◌<◌, ◌≤◌, ◌%◌, true, false, Option, none, some, List, [], ◌∷◌,
  length, ◌==◌, if◌then◌else◌, u32, ◌<<<◌, ◌>>>◌, ◌>>=◌, ◌≡◌, refl, sym, ap, ◌^◌, ◌⊎◌, inl, inr,
  Bool-cases, ==_iff, arith, All,
}
use geoipdns.Cdb.{
  Cdb, Found, error, absent, present, cdb_read, find_table, unless_returned, cdb_findstart,
  cdb_findnext,
}
use geoipdns.Cdb.Hash.{cdb_hash, cdb_hash-IsU32}
use geoipdns.Cdb.Match.{IsMapped}
use geoipdns.Cdb.Holds.{Holds_inside}
use geoipdns.Cdb.Make.Probe.{reads}
use geoipdns.Cdb.Make.Filled.{home}
use geoipdns.Cdb.Make.Finished.{length-pack_slots}
use geoipdns.Cdb.Make.Added.{IsShort}
use geoipdns.Cdb.Make.Room.{length-image}
use geoipdns.Cdb.Make.Built.{IsTable, IsBuilt, cdb_of, cdb_of-IsBuilt}
use geoipdns.Cdb.Walk.{
  datas_of, AreStored, IsAt, IsPending, IsOutcome, no_records, find_slots-IsOutcome,
}
use geoipdns.Cdb.Compare.{unpack_two, read_two}
use geoipdns.Cdb.Stored.{
  of_hash, datas_of_hash, places-AreStored, length-datas_of, length-reads, length-AreStored,
}

-- The data of all the records that calls of `cdb_findnext` find, one after another.
unfoldable pub find_all : ℕ → Cdb → List ℕ → Option (List (List ℕ))
find_all zero c key = none
find_all (suc fuel) c key =
    let c' = (cdb_findnext c key).0 in
    elim ((cdb_findnext c key).1) [
      | error ↦ none
      | absent ↦ some []
      | present ↦ cdb_read c' c'.dlen c'.dpos >>= λ d. find_all fuel c' key >>= λ ds. some (d ∷ ds)
    ]

module _ (file : List ℕ) (records : List (List ℕ × List ℕ)) (built : IsBuilt file records)
    (key : List ℕ) where
  pub key_table : IsTable file records (cdb_hash key % 256)
  key_table = built.has_table (cdb_hash key % 256) (omega arith)

  -- What is left to find at a cursor between two calls.
  abbrev pub IsLeft : Cdb → List (List ℕ × List ℕ) → Type 0
  IsLeft c after =
      IsPending file key_table.table key_table.pos built.in_reach key_table.slots key_table.fits key
        c after

  abbrev Gives : List (List ℕ) → Cdb × Found → Type 0
  Gives =
      IsOutcome file key_table.table key_table.pos built.in_reach key_table.slots key_table.fits key

  all_stored :
      AreStored file
        (reads
          (length key_table.table)
          (length key_table.table)
          key_table.table
          (cdb_hash key)
          (home (length key_table.table) (cdb_hash key)))
        (of_hash (cdb_hash key) records)
  all_stored =
      rw (key_table.filled.met (cdb_hash key))
        (places-AreStored file (cdb_hash key) 2048 records built.stored)

  -- The cursor at the start of the table.
  abbrev table_cursor : Cdb → Cdb
  table_cursor c = record c {
    hslots = length key_table.table;
    hpos = key_table.pos;
    khash = cdb_hash key;
    kpos = key_table.pos + 8 * home (length key_table.table) (cdb_hash key);
  }

  table_fits : key_table.pos + 8 * length key_table.table ≤ length file
  table_fits = omega (arith, Holds_inside key_table.slots, length-pack_slots key_table.table)

  find_table_lem :
      (c : Cdb)
      → IsMapped c file
      → find_table c key ≡ (
          if length key_table.table == 0
          then (record c { hslots = length key_table.table }, some absent)
          else (table_cursor c, none))
  unfolding find_table
  find_table_lem c mapped =
      let place : u32 (cdb_hash key <<< 3) % 2048 ≡ 8 * (cdb_hash key % 256) =
        omega (arith, cdb_hash-IsU32 key) in
      let read =
        read_two c (8 * (cdb_hash key % 256)) key_table.pos (length key_table.table) mapped
          key_table.header in
      let two =
        unpack_two key_table.pos (length key_table.table) key_table.in_reach
          (omega (arith, table_fits, built.in_reach)) in
      elim (Bool-cases (length key_table.table == 0)) [
        | inl empty ↦ rw (place, read, two.1, empty, find_table) refl
        | inr full ↦
            let kpos : u32
                  (key_table.pos + u32 (((cdb_hash key >>> 8) % length key_table.table) <<< 3))
                ≡ key_table.pos + 8 * home (length key_table.table) (cdb_hash key) =
              ground (arith, full, table_fits, built.in_reach) in
            rw (place, read, two.1, two.0, full, kpos, find_table) refl
      ]

  table_cursor-IsAt :
      (c : Cdb)
      → IsMapped c file
      → c.loop ≡ 0
      → (length key_table.table == 0) ≡ false
      → IsAt file key_table.table key_table.pos built.in_reach key_table.slots key_table.fits key
          (table_cursor c)
          (home (length key_table.table) (cdb_hash key))
          (length key_table.table)
  table_cursor-IsAt c mapped z full = record {
    mapped = record { mapped = mapped.mapped; whole = mapped.whole; fits = mapped.fits };
    same_slots = refl;
    same_pos = refl;
    same_hash = refl;
    slot_pos = refl;
    in_table = ground (arith, full);
    to_go = omega (arith, z);
  }

  -- The first call gives the first of the data under the key, in the order of the records.
  cdb_findnext_start :
      (c : Cdb) → IsMapped c file → c.loop ≡ 0 → Gives (datas_of key records) (cdb_findnext c key)
  unfolding cdb_findnext unless_returned reads
  cdb_findnext_start c mapped z =
      let z' : (c.loop == 0) ≡ true = (==_iff c.loop 0).1 z in
      rw (z', find_table_lem c mapped, sym (datas_of_hash key records))
        (elim (Bool-cases (length key_table.table == 0)) [
          | inl empty ↦
              let none_left : AreStored file [] (of_hash (cdb_hash key) records) =
                rw ((==_iff _ 0).0 empty) at all_stored in
              rw
                (
                  empty,
                  no_records file key_table.table key_table.pos built.in_reach key_table.slots
                      key_table.fits key _ none_left,
                )
                refl
          | inr full ↦
              let all_left : length key_table.table - c.loop ≡ length key_table.table =
                omega (arith, z) in
              rw (full, all_left)
                (find_slots-IsOutcome file key_table.table key_table.pos built.in_reach
                  key_table.slots key_table.fits key (length key_table.table) (table_cursor c)
                  (home (length key_table.table) (cdb_hash key)) (of_hash (cdb_hash key) records)
                  (table_cursor-IsAt c mapped z full) all_stored)
        ])

  -- A later call goes on behind the record that was found last.
  cdb_findnext_further :
      (c : Cdb) (after : List (List ℕ × List ℕ))
      → 0 < c.loop
      → IsLeft c after
      → Gives (datas_of key after) (cdb_findnext c key)
  unfolding cdb_findnext unless_returned
  cdb_findnext_further c after started p =
      let z : (c.loop == 0) ≡ false = ground (arith, started) in
      let to_go : c.hslots - c.loop ≡ p.left = omega (arith, p.is_at.to_go, p.is_at.same_slots) in
      rw (z, to_go)
        (find_slots-IsOutcome file key_table.table key_table.pos built.in_reach key_table.slots
          key_table.fits key p.left c p.at after p.is_at p.are_stored)

  -- The data that the calls from here on find.
  abbrev pub IsRest : Cdb → List (List ℕ) → Type 0
  IsRest c ds =
      (IsMapped c file × (c.loop ≡ 0) × (datas_of key records ≡ ds))
      ⊎ ((0 < c.loop)
          × ((after : List (List ℕ × List ℕ)) × IsLeft c after × (datas_of key after ≡ ds)))

  pub cdb_findstart-IsRest :
      (c : Cdb) → IsMapped c file → IsRest (cdb_findstart c) (datas_of key records)
  unfolding cdb_findstart
  cdb_findstart-IsRest c mapped =
      inl (record { mapped = mapped.mapped; whole = mapped.whole; fits = mapped.fits }, refl, refl)

  rest-Gives : (c : Cdb) (ds : List (List ℕ)) → IsRest c ds → Gives ds (cdb_findnext c key)
  rest-Gives c ds (inl (mapped, z, same)) =
      subst (λ (x : List (List ℕ)). Gives x (cdb_findnext c key)) same
        (cdb_findnext_start c mapped z)
  rest-Gives c ds (inr (started, (after, left, same))) =
      subst (λ (x : List (List ℕ)). Gives x (cdb_findnext c key)) same
        (cdb_findnext_further c after started left)

  pub IsRest-nil : (c : Cdb) → IsRest c [] → (cdb_findnext c key).1 ≡ absent
  IsRest-nil c rest = rest-Gives c [] rest

  pub IsRest-cons :
      (c : Cdb) (d : List ℕ) (ds : List (List ℕ))
      → IsRest c (d ∷ ds)
      → ((cdb_findnext c key).1 ≡ present)
        × (cdb_read (cdb_findnext c key).0 (cdb_findnext c key).0.dlen (cdb_findnext c key).0.dpos
            ≡ some d)
        × ((cdb_findnext c key).0.dlen ≡ length d)
        × IsRest (cdb_findnext c key).0 ds
  IsRest-cons c d ds rest =
      let (e, read, size, started, left) = rest-Gives c (d ∷ ds) rest in
      (e, read, size, inr (started, left))

  pub length-IsRest : (c : Cdb) (ds : List (List ℕ)) → IsRest c ds → length ds < 2 ^ 32
  length-IsRest c ds (inl (mapped, z, same)) = omega (
    arith,
    ap (λ (x : List (List ℕ)). length x) same,
    length-datas_of key records,
    length-image records,
    Holds_inside built.stored,
    built.in_reach,
  )
  length-IsRest c ds (inr (started, (after, left, same))) = omega (
    arith,
    ap (λ (x : List (List ℕ)). length x) same,
    length-datas_of key after,
    length-AreStored file _ after left.are_stored,
    length-reads left.left (length key_table.table) key_table.table (cdb_hash key) left.at,
    left.is_at.to_go,
    table_fits,
    built.in_reach,
  )

  find_all_step :
      (fuel : ℕ) (c : Cdb) (ds : List (List ℕ))
      → Gives ds (cdb_findnext c key)
      → ((c' : Cdb) (after : List (List ℕ × List ℕ))
          → 0 < c'.loop
          → IsLeft c' after
          → length (datas_of key after) < fuel
          → find_all fuel c' key ≡ some (datas_of key after))
      → length ds < suc fuel
      → find_all (suc fuel) c key ≡ some ds
  unfolding find_all
  find_all_step fuel c [] e go_on enough = rw (e, find_all) refl
  find_all_step fuel c (d ∷ ds) (e, read, size, started, (after, left, same)) go_on enough =
      let rest = go_on (cdb_findnext c key).0 after started left (rw same (omega arith)) in
      rw (e, read, rest, same, find_all) refl

  find_all_further :
      (fuel : ℕ) (c : Cdb) (after : List (List ℕ × List ℕ))
      → 0 < c.loop
      → IsLeft c after
      → length (datas_of key after) < fuel
      → find_all fuel c key ≡ some (datas_of key after)
  find_all_further zero c after started left enough = absurd (omega arith)
  find_all_further (suc fuel) c after started left enough =
      find_all_step fuel c (datas_of key after) (cdb_findnext_further c after started left)
        (find_all_further fuel) enough

  find_all_start :
      (c : Cdb)
      → IsMapped c file
      → find_all (length records + 1) (cdb_findstart c) key ≡ some (datas_of key records)
  unfolding cdb_findstart
  find_all_start c mapped =
      let c0 : Cdb = record c { loop = 0 } in
      let mapped0 : IsMapped c0 file = record {
        mapped = mapped.mapped;
        whole = mapped.whole;
        fits = mapped.fits;
      } in
      let one : length records + 1 ≡ suc (length records) = omega arith in
      rw one (
        find_all_step (length records) c0 (datas_of key records)
          (cdb_findnext_start c0 mapped0 refl) (find_all_further (length records))
          (omega (arith, length-datas_of key records)))

-- The file that the database compiler makes of a list of records, if they fit into it, is the list of
-- the records to a reader: in the mapped file, the calls of `cdb_findnext` for any key, begun by
-- `cdb_findstart`, find the data of the records under the key, each once and in the order in which
-- they were added, and then no more. None of them fails.
pub find_all-cdb_of :
    (records : List (List ℕ × List ℕ)) (key : List ℕ) (c : Cdb) {file : List ℕ}
    → All IsShort records
    → cdb_of records ≡ some file
    → IsMapped c file
    → find_all (length records + 1) (cdb_findstart c) key ≡ some (datas_of key records)
find_all-cdb_of records key c {file} short e mapped =
    find_all_start file records (cdb_of-IsBuilt records short e) key c mapped
