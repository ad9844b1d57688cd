-- ===== src/Cdb.antt =====
-- src/cdb_hash.c, src/cdb.h, src/cdb.c and src/byte_diff.c: the constant database as the server
-- reads it.
-- The file is the list of its bytes. `map` is the mmapped file, `none` where the mapping failed;
-- `fd` then stands for what `seek_set` and the loop of `read` deliver, which are system calls:
-- `len` bytes from `pos`, or `none` for the returns of -1. The hash is the one that `USE_SFHASH`
-- selects, as conf-cc does.
pub mod Hash
pub mod Match
pub mod Find
pub mod Search
pub mod Compare
pub mod Walk
pub mod Stored
pub mod Refine
pub mod Same
pub mod Make
pub mod Holds
pub mod Sample
mod Runs
use geoipdns.Base.{
  ℕ, zero, suc, ◌+◌, ◌-◌, ◌*◌, ◌/◌, ◌%◌, ◌^◌, ◌<◌, min, Bool, true, false, ◌||◌, Option, none, some,
  List, [], ◌∷◌, ◌++◌, length, take, drop, ltb, ◌==◌, if◌then◌else◌, u32, ◌<<<◌, ◌>>>◌,
}
use geoipdns.Uint.{uint32_unpack}
use geoipdns.Cdb.Hash.{cdb_hash}

pub record Cdb : Type 0 where
  pub map : Option (List ℕ)
  pub fd : ℕ → ℕ → Option (List ℕ)
  pub size : ℕ
  pub loop : ℕ
  pub khash : ℕ
  pub kpos : ℕ
  pub hpos : ℕ
  pub hslots : ℕ
  pub dpos : ℕ
  pub dlen : ℕ

-- The returns -1, 0 and 1.
pub data Found : Type 0 where
  error absent present : Found

-- `byte_diff(s,n,t)` is 0, for two arrays of `n` bytes.
unfoldable pub byte_equal : List ℕ → List ℕ → Bool
byte_equal [] [] = true
byte_equal [] (y ∷ ys) = false
byte_equal (x ∷ xs) [] = false
byte_equal (x ∷ xs) (y ∷ ys) = if x == y then byte_equal xs ys else false

unfoldable pub cdb_read_map : List ℕ → ℕ → ℕ → ℕ → Option (List ℕ)
cdb_read_map m size len pos =
    if ltb size pos || ltb (size - pos) len then none else some (take len (drop pos m))

unfoldable pub cdb_read : Cdb → ℕ → ℕ → Option (List ℕ)
unfolding cdb_read_map
cdb_read c len pos = elim c.map [ none ↦ c.fd len pos | some m ↦ cdb_read_map m c.size len pos ]

-- The chunks of 32 bytes. Each round takes a byte at least, so `length key` rounds are enough: the
-- fuel runs out at an empty key only.
unfoldable pub match_loop : ℕ → Cdb → List ℕ → ℕ → Found
match_loop fuel c [] pos = present
match_loop zero c (k ∷ ks) pos = error
match_loop (suc fuel) c (k ∷ ks) pos =
    let n = min 32 (length (k ∷ ks)) in
    let rest = match_loop fuel c (drop n (k ∷ ks)) (u32 (pos + n)) in
    elim (cdb_read c n pos) [
      | none ↦ error
      | some buf ↦ if byte_equal buf (take n (k ∷ ks)) then rest else absent
    ]

unfoldable pub match : Cdb → List ℕ → ℕ → Found
unfolding match_loop
match c key pos = match_loop (length key) c key pos

unfoldable pub cdb_findstart : Cdb → Cdb
cdb_findstart c = record c { loop = 0 }

-- The part of `cdb_findnext` under `if (!c->loop)`: the new state, and a return if it makes one.
unfoldable pub find_table : Cdb → List ℕ → Cdb × Option Found
find_table c key =
    let u = cdb_hash key in
    elim (cdb_read c 8 (u32 (u <<< 3) % 2048)) [
      | none ↦ (c, some error)
      | some buf ↦
          let hslots = uint32_unpack (drop 4 buf) in
          let hpos = uint32_unpack buf in
          if hslots == 0 then (record c { hslots = hslots }, some absent) else (
            record c {
              hslots = hslots;
              hpos = hpos;
              khash = u;
              kpos = u32 (hpos + u32 (((u >>> 8) % hslots) <<< 3));
            },
            none,
          )
    ]

-- `c->loop += 1; c->kpos += 8;` and the step back to the start of the table.
unfoldable pub next_slot : Cdb → Cdb
next_slot c =
    let kpos = u32 (c.kpos + 8) in
    record c {
      loop = u32 (c.loop + 1);
      kpos = if kpos == u32 (c.hpos + u32 (c.hslots <<< 3)) then c.hpos else kpos;
    }

-- What is done with a slot that holds the wanted hash: `none` goes on to the next slot.
unfoldable pub check_record : Cdb → List ℕ → ℕ → Cdb × Option Found
check_record c key pos = elim (cdb_read c 8 pos) [
  | none ↦ (c, some error)
  | some buf ↦
      if uint32_unpack buf == length key
      then elim (match c key (u32 (pos + 8))) [
        | error ↦ (c, some error)
        | absent ↦ (c, none)
        | present ↦ (
          record c { dlen = uint32_unpack (drop 4 buf); dpos = u32 (u32 (pos + 8) + length key) },
          some present,
        )
      ]
      else (c, none)
]

-- One round of the loop over the slots.
unfoldable pub search_slot : Cdb → List ℕ → Cdb × Option Found
search_slot c key = elim (cdb_read c 8 c.kpos) [
  | none ↦ (c, some error)
  | some buf ↦
      let pos = uint32_unpack (drop 4 buf) in
      if pos == 0
      then (c, some absent)
      else if uint32_unpack buf == c.khash
      then check_record (next_slot c) key pos
      else (next_slot c, none)
]

-- Goes on unless a return was made.
unfoldable pub unless_returned : Cdb × Option Found → (Cdb → Cdb × Found) → Cdb × Found
unless_returned (c, some r) go = (c, r)
unless_returned (c, none) go = go c

-- `while (c->loop < c->hslots)`: the number is `c->hslots - c->loop`, the rounds that are left.
unfoldable pub find_slots : ℕ → Cdb → List ℕ → Cdb × Found
find_slots zero c key = (c, absent)
find_slots (suc left) c key = unless_returned (search_slot c key) (λ c'. find_slots left c' key)

unfoldable pub cdb_findnext : Cdb → List ℕ → Cdb × Found
cdb_findnext c key =
    unless_returned (if c.loop == 0 then find_table c key else (c, none))
      (λ c'. find_slots (c'.hslots - c'.loop) c' key)

unfoldable pub cdb_find : Cdb → List ℕ → Cdb × Found
cdb_find c key = cdb_findnext (cdb_findstart c) key
