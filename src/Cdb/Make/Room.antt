-- ===== src/Cdb/Make/Room.antt =====
-- When src/cdb_make.c has room for the records: neither adding one nor the tables fail.
use geoipdns.Base.{
  ℕ, zero, suc, ◌+◌, ◌*◌, ◌≤◌, ◌%◌, ◌/◌, Bool, true, false, some, List, [], ◌∷◌, ◌++◌, length,
  length-append, ◌==◌, if◌then◌else◌, ltb, leb, ◌&&◌, u32, IsU32, ◌≡◌, refl, sym, ap, ◌∙◌, inl, inr,
  Bool-cases, arith, append-nil, All,
}
use mathlib.Core.Path.{subst}
use geoipdns.Uint.{uint32_pack}
use geoipdns.Cdb.Make.{
  CdbHp, CdbMake, count, split, memsize_loop, too_large, table_of, posplus, and_posplus,
  posplus_slots, pack_slots, finish_loop, cdb_make_start, cdb_make_add, cdb_make_addend,
  cdb_make_addbegin, cdb_make_finish,
}
use geoipdns.Cdb.Make.Filled.{IsReal, length-split, table_of-IsFilled}
use geoipdns.Cdb.Make.Added.{
  IsMade, IsShort, image, image-append, packed, length-packed, places, in_table, posplus-IsAhead,
  cdb_make_add-IsMade, cdb_make_start-IsMade, cdb_make_adds, cdb_make_adds-IsMade,
}
use geoipdns.Cdb.Make.Finished.{posplus_slots-IsAhead}
use geoipdns.Cdb.Make.Built.{cdb_of, made-IsReal}

posplus_room : (c : CdbMake) (len : ℕ) → IsU32 (c.pos + len) → (posplus c len).1 ≡ true
unfolding posplus
posplus_room c len fits =
    let fine : ltb (u32 (c.pos + len)) len ≡ false = ground arith in rw (fine, posplus) refl

and_posplus_room :
    (r : CdbMake × Bool) (len : ℕ)
    → r.1 ≡ true
    → IsU32 (r.0.pos + len)
    → (and_posplus r len).1 ≡ true
unfolding and_posplus
and_posplus_room (c, true) len ok fits = posplus_room c len fits
and_posplus_room (c, false) len ok fits = absurd (cc)

and_posplus_pos :
    (r : CdbMake × Bool) (len : ℕ)
    → r.1 ≡ true
    → IsU32 (r.0.pos + len)
    → (and_posplus r len).0.pos ≡ r.0.pos + len
unfolding and_posplus
and_posplus_pos (c, true) len ok fits =
    (posplus-IsAhead c len (omega arith) (omega arith) (posplus_room c len fits)).moved
and_posplus_pos (c, false) len ok fits = absurd (cc)

three_room :
    (c : CdbMake) (a b : ℕ)
    → IsU32 (c.pos + (8 + a + b))
    → (and_posplus (and_posplus (posplus c 8) a) b).1 ≡ true
three_room c a b fits =
    let one = posplus_room c 8 (omega arith) in
    let at1 = (posplus-IsAhead c 8 (omega arith) (omega arith) one).moved in
    let two = and_posplus_room (posplus c 8) a one (omega (arith, at1)) in
    let at2 = and_posplus_pos (posplus c 8) a one (omega (arith, at1)) in
    and_posplus_room (and_posplus (posplus c 8) a) b two (omega (arith, at1, at2))

cdb_make_add_room :
    (c : CdbMake) (key content : List ℕ)
    → IsU32 (c.pos + length (packed key content))
    → (cdb_make_add c key content).1 ≡ true
unfolding cdb_make_add cdb_make_addend cdb_make_addbegin
cdb_make_add_room c key content fits =
    three_room _ (length key) (length content) (omega (arith, length-packed key content))

cdb_make_adds_room :
    (c : CdbMake) (before records : List (List ℕ × List ℕ))
    → IsMade c before
    → All IsShort records
    → IsU32 (c.pos + length (image records))
    → (c' : CdbMake) × (cdb_make_adds c records ≡ some c')
unfolding cdb_make_adds image
cdb_make_adds_room c before [] made short fits = (c, refl)
cdb_make_adds_room c before ((key, content) ∷ records) made short fits =
    let sum = length-append (packed key content) (image records) in
    let ok = cdb_make_add_room c key content (omega (arith, sum)) in
    let one = cdb_make_add-IsMade c before key content short.0.0 short.0.1 made ok in
    let grown = ap (λ (bs : List ℕ). length bs) (image-append before ((key, content) ∷ [])) in
    let single : length (image ((key, content) ∷ [])) ≡ length (packed key content) =
      ap (λ (bs : List ℕ). length bs) (append-nil (packed key content)) in
    let (c', rest) =
      cdb_make_adds_room (cdb_make_add c key content).0 (before ++ ((key, content) ∷ [])) records
        one short.1
        (omega (
          arith,
          one.at_end,
          made.at_end,
          sum,
          grown,
          single,
          length-append (image before) (image ((key, content) ∷ [])),
        )) in
    (c', rw (ok, cdb_make_adds) rest)

posplus_slots_room :
    (slots : ℕ) (c : CdbMake) → IsU32 (c.pos + 8 * slots) → (posplus_slots slots c).1 ≡ true
unfolding posplus_slots
posplus_slots_room zero c fits = refl
posplus_slots_room (suc slots) c fits =
    let one = posplus_room c 8 (omega arith) in
    let at1 = (posplus-IsAhead c 8 (omega arith) (omega arith) one).moved in
    rw (one, posplus_slots) (posplus_slots_room slots (posplus c 8).0 (omega (arith, at1)))

-- The entries of the tables from `i` on.
unfoldable total : ℕ → ℕ → List CdbHp → ℕ
total zero i entries = 0
total (suc left) i entries = length (in_table i entries) + total left (i + 1) entries

total_nil : (left i : ℕ) → total left i [] ≡ 0
unfolding total in_table
total_nil zero i = refl
total_nil (suc left) i = omega (arith, total_nil left (i + 1))

total_cons :
    (left i : ℕ) (hp : CdbHp) (entries : List CdbHp)
    → total left i (hp ∷ entries)
      ≡ total left i entries + (if leb i (hp.h % 256) && ltb (hp.h % 256) (i + left) then 1 else 0)
unfolding total in_table
total_cons zero i hp entries = ground arith
total_cons (suc left) i hp entries =
    let rest = total_cons left (i + 1) hp entries in
    elim (Bool-cases (hp.h % 256 == i)) [
      | inl hit ↦ rw (hit, rest) (ground (arith, hit))
      | inr miss ↦ rw (miss, rest) (ground (arith, miss))
    ]

-- Each entry falls into one of the 256 tables.
total_all : (entries : List CdbHp) → total 256 0 entries ≡ length entries
total_all [] = total_nil 256 0
total_all (hp ∷ entries) = total_cons 256 0 hp entries ∙ ground (arith, total_all entries)

-- The state before the loop over the tables: its tables are those of a list of entries.
abbrev HasEntries : List CdbHp → List CdbHp → Type 0
HasEntries es entries = (j : ℕ) → (split j entries ≡ in_table j es) × All IsReal (split j entries)

length-table_of :
    (es : List CdbHp) (i : ℕ) (entries : List CdbHp)
    → HasEntries es entries
    → length (table_of i entries) ≡ 2 * length (in_table i es)
length-table_of es i entries has =
    (table_of-IsFilled i entries (has i).1).size
    ∙ omega (arith, length-split i entries, ap (λ (hps : List CdbHp). length hps) (has i).0)

finish_loop_room :
    (es : List CdbHp) (left i : ℕ) (c : CdbMake) (final : List ℕ)
    → HasEntries es c.entries
    → IsU32 (c.pos + 16 * total left i es)
    → (r : CdbMake × List ℕ) × (finish_loop left i c final ≡ some r)
unfolding finish_loop total
finish_loop_room es zero i c final has fits = ((c, final), refl)
finish_loop_room es (suc left) i c final has fits =
    let table = table_of i c.entries in
    let size = length-table_of es i c.entries has in
    let ok = posplus_slots_room (length table) c (omega (arith, size)) in
    let ahead = posplus_slots-IsAhead (length table) c (omega arith) ok in
    let c1 = (posplus_slots (length table) c).0 in
    let (r, rest) =
      finish_loop_room es left (i + 1) (record c1 { written = c1.written ++ pack_slots table })
        (final ++ (uint32_pack c.pos ++ uint32_pack (length table)))
        (subst (HasEntries es) (sym ahead.same_entries) has) (omega (arith, ahead.moved, size)) in
    (r, rw (ok, finish_loop) rest)

length-in_table : (i : ℕ) (es : List CdbHp) → length (in_table i es) ≤ length es
unfolding in_table
length-in_table i [] = omega arith
length-in_table i (hp ∷ es) = elim (Bool-cases (hp.h % 256 == i)) [
  | inl hit ↦ rw hit (omega (arith, length-in_table i es))
  | inr miss ↦ rw miss (omega (arith, length-in_table i es))
]

memsize_bound :
    (es entries : List CdbHp) (bound left i memsize : ℕ)
    → HasEntries es entries
    → 2 * length es ≤ bound
    → memsize ≤ bound
    → memsize_loop left i entries memsize ≤ bound
unfolding memsize_loop
memsize_bound es entries bound zero i memsize has le le' = le'
memsize_bound es entries bound (suc left) i memsize has le le' =
    let one : count i entries ≤ length es = omega (
      arith,
      length-split i entries,
      ap (λ (hps : List CdbHp). length hps) (has i).0,
      length-in_table i es,
    ) in
    memsize_bound es entries bound left (i + 1) _ has le (ground (arith, one))

length-places :
    (pos : ℕ) (records : List (List ℕ × List ℕ)) → length (places pos records) ≡ length records
unfolding places
length-places pos [] = refl
length-places pos ((key, content) ∷ records) =
    ap suc (length-places (pos + length (packed key content)) records)

not_large :
    (m n k : ℕ)
    → m ≤ 2 * n + 1
    → k ≡ u32 n
    → IsU32 (2048 + 24 * n)
    → ltb (4294967295 / 8) (u32 (m + k)) ≡ false
not_large m n k le e fits =
    let wrap : u32 (m + k) ≡ m + n = omega (arith) in
    let small : m + n ≤ 536870911 = omega arith in rw wrap (ground (arith, small))

cdb_make_finish_room :
    (c : CdbMake) (records : List (List ℕ × List ℕ))
    → IsMade c records
    → 8 * length records ≤ length (image records)
    → IsU32 (c.pos + 16 * length records)
    → (file : List ℕ) × (cdb_make_finish c ≡ some file)
unfolding cdb_make_finish too_large
cdb_make_finish_room c records made each fits =
    let es = places 2048 records in
    let has : HasEntries es c.entries = λ j. (made.tables j, made-IsReal c records made j) in
    let n = length-places 2048 records in
    let few =
      memsize_bound es c.entries (2 * length records + 1) 256 0 1 has (omega (arith, n))
        (omega arith) in
    let small : ltb (4294967295 / 8) (u32 (memsize_loop 256 0 c.entries 1 + c.numentries)) ≡ false =
      not_large _ (length records) c.numentries few made.counted (omega (arith, made.at_end)) in
    let (r, done) = finish_loop_room es 256 0 c [] has (omega (arith, total_all es, n)) in
    (r.1 ++ r.0.written, rw (small, done, cdb_make_finish) refl)

pub length-image : (records : List (List ℕ × List ℕ)) → 8 * length records ≤ length (image records)
unfolding image
length-image [] = omega arith
length-image ((key, content) ∷ records) = omega (
  arith,
  length-append (packed key content) (image records),
  length-packed key content,
  length-image records,
)

-- If the header, the records and two slots of eight bytes for each record take fewer than 2^32 bytes,
-- then no call fails, and a file is made.
pub cdb_of_room :
    (records : List (List ℕ × List ℕ))
    → All IsShort records
    → IsU32 (2048 + length (image records) + 16 * length records)
    → (file : List ℕ) × (cdb_of records ≡ some file)
unfolding cdb_of cdb_make_start
cdb_of_room records short fits =
    let (c, added) =
      cdb_make_adds_room cdb_make_start [] records cdb_make_start-IsMade short (omega arith) in
    let made = cdb_make_adds-IsMade cdb_make_start [] records cdb_make_start-IsMade short added in
    let (file, done) =
      cdb_make_finish_room c records made (length-image records) (omega (arith, made.at_end)) in
    (file, rw (added, cdb_of) done)
