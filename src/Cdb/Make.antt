-- ===== src/Cdb/Make.antt =====
-- src/cdb_make.h and src/cdb_make.c: the writer of the constant database.
-- `written` are the bytes that went to the file behind the 2048 of the header, and `entries` the
-- hashes and positions of the lists of `cdb_hplist`, the last one first, as `cdb_make_finish` walks
-- them. A call that returns -1 gives `false` with the state that it leaves. Writes, seeks and
-- allocations are taken to succeed.
pub mod Probe
pub mod Placed
pub mod Filled
pub mod Added
pub mod Finished
pub mod Built
pub mod Room
mod Runs
use geoipdns.Base.{
  ℕ, zero, suc, ◌+◌, ◌*◌, ◌/◌, ◌%◌, Bool, true, false, Option, none, some, List, [], ◌∷◌, ◌++◌,
  length, replicate, set, get_or, ltb, ◌==◌, if◌then◌else◌, u32, ◌>>>◌,
}
use geoipdns.Uint.{uint32_pack}
use geoipdns.Cdb.Hash.{cdb_hash}

pub record CdbHp : Type 0 where
  pub h : ℕ
  pub p : ℕ

pub record CdbMake : Type 0 where
  pub written : List ℕ
  pub entries : List CdbHp
  pub numentries : ℕ
  pub pos : ℕ

unfoldable pub cdb_make_start : CdbMake
cdb_make_start = record { written = []; entries = []; numentries = 0; pos = 2048 }

unfoldable pub posplus : CdbMake → ℕ → CdbMake × Bool
posplus c len =
    let newpos = u32 (c.pos + len) in
    if ltb newpos len then (c, false) else (record c { pos = newpos }, true)

-- `if (posplus(c,len) == -1) return -1;`
unfoldable pub and_posplus : CdbMake × Bool → ℕ → CdbMake × Bool
and_posplus (c, false) len = (c, false)
and_posplus (c, true) len = posplus c len

unfoldable pub cdb_make_addend : CdbMake → ℕ → ℕ → ℕ → CdbMake × Bool
cdb_make_addend c keylen datalen h =
    let c' = record c {
      entries = record { h = h; p = c.pos } ∷ c.entries;
      numentries = u32 (c.numentries + 1);
    } in
    and_posplus (and_posplus (posplus c' 8) keylen) datalen

unfoldable pub cdb_make_addbegin : CdbMake → ℕ → ℕ → CdbMake
cdb_make_addbegin c keylen datalen = record c {
  written = c.written ++ (uint32_pack keylen ++ uint32_pack datalen);
}

-- The lengths are `unsigned int`, so they are below 2^32.
unfoldable pub cdb_make_add : CdbMake → List ℕ → List ℕ → CdbMake × Bool
cdb_make_add c key content =
    let c1 = cdb_make_addbegin c (length key) (length content) in
    cdb_make_addend (record c1 { written = c1.written ++ (key ++ content) }) (length key)
      (length content) (cdb_hash key)

-- `c->count[i]`: the entries whose hash falls to table `i`.
unfoldable pub count : ℕ → List CdbHp → ℕ
count i [] = 0
count i (hp ∷ entries) = let rest = count i entries in if hp.h % 256 == i then rest + 1 else rest

-- `c->split + c->start[i]`: the entries of table `i`. The walk begins with the last entry and fills
-- the part from its end, so they stand in the order in which they were added.
unfoldable pub split : ℕ → List CdbHp → List CdbHp
split i [] = []
split i (hp ∷ entries) =
    let rest = split i entries in if hp.h % 256 == i then rest ++ (hp ∷ []) else rest

-- The loop over the tables that finds `memsize`: a round for each `i` from `i` on.
unfoldable pub memsize_loop : ℕ → ℕ → List CdbHp → ℕ → ℕ
memsize_loop zero i entries memsize = memsize
memsize_loop (suc left) i entries memsize =
    let u = u32 (count i entries * 2) in
    memsize_loop left (i + 1) entries (if ltb memsize u then u else memsize)

-- `memsize > u`, where a `struct cdb_hp` has eight bytes.
unfoldable pub too_large : CdbMake → Bool
unfolding memsize_loop
too_large c = ltb (4294967295 / 8) (u32 (memsize_loop 256 0 c.entries 1 + c.numentries))

abbrev pub empty_slot : CdbHp
empty_slot = record { h = 0; p = 0 }

-- `while (c->hash[where].p) if (++where == len) where = 0; c->hash[where] = *hp;`. The table has more
-- slots than entries, so one is free, and `length table` rounds are enough.
unfoldable pub place : ℕ → List CdbHp → ℕ → CdbHp → List CdbHp
place zero table at hp = table
place (suc fuel) table at hp =
    let next = if at + 1 == length table then 0 else at + 1 in
    elim ((get_or table at empty_slot).p == 0) [
      | true ↦ set table at hp
      | false ↦ place fuel table next hp
    ]

-- `where = (hp->h >> 8) % len`
unfoldable pub place_all : List CdbHp → List CdbHp → List CdbHp
place_all table [] = table
place_all table (hp ∷ hps) =
    place_all (place (length table) table ((hp.h >>> 8) % length table) hp) hps

unfoldable pub table_of : ℕ → List CdbHp → List CdbHp
table_of i entries =
    place_all (replicate (count i entries + count i entries) empty_slot) (split i entries)

unfoldable pub pack_slots : List CdbHp → List ℕ
pack_slots [] = []
pack_slots (hp ∷ table) = uint32_pack hp.h ++ (uint32_pack hp.p ++ pack_slots table)

-- `posplus(c,8)` for each slot of a table.
unfoldable pub posplus_slots : ℕ → CdbMake → CdbMake × Bool
posplus_slots zero c = (c, true)
posplus_slots (suc slots) c = elim ((posplus c 8).1) [
  | false ↦ (c, false)
  | true ↦ posplus_slots slots (posplus c 8).0
]

-- The tables from `i` on: they go behind the records, and their places to `final`.
unfoldable pub finish_loop : ℕ → ℕ → CdbMake → List ℕ → Option (CdbMake × List ℕ)
finish_loop zero i c final = some (c, final)
finish_loop (suc left) i c final =
    let table = table_of i c.entries in
    let final' = final ++ (uint32_pack c.pos ++ uint32_pack (length table)) in
    elim ((posplus_slots (length table) c).1) [
      | false ↦ none
      | true ↦
          let c' = (posplus_slots (length table) c).0 in
          finish_loop left (i + 1) (record c' { written = c'.written ++ pack_slots table }) final'
    ]

-- The file, or `none` for a return of -1.
unfoldable pub cdb_make_finish : CdbMake → Option (List ℕ)
cdb_make_finish c = elim (too_large c) [
  | true ↦ none
  | false ↦ elim (finish_loop 256 0 c []) [
    | none ↦ none
    | some (c', final) ↦ some (final ++ c'.written)
  ]
]
