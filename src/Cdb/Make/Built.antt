-- ===== src/Cdb/Make/Built.antt =====
-- The file that `cdb_make_finish` leaves: the header, the records, and the tables.
use geoipdns.Base.{
  ℕ, zero, suc, ◌+◌, ◌*◌, ◌<◌, ◌%◌, Option, none, some, List, [], ◌∷◌, ◌++◌, length, length-append,
  ◌==◌, set, replicate, IsU32, ◌≡◌, sym, ap, ◌∙◌, inl, inr, Bool-cases, Option-cases, arith, All,
}
use mathlib.Core.Path.{subst}
use geoipdns.Uint.{uint32_pack}
use geoipdns.Cdb.Hash.{cdb_hash-IsU32}
use geoipdns.Cdb.Holds.{Holds, Holds_middle, Holds_append, Holds_behind, Holds_at}
use geoipdns.Cdb.Make.{
  CdbHp, CdbMake, empty_slot, count, split, place, place_all, table_of, pack_slots, finish_loop,
  cdb_make_start, cdb_make_finish, too_large,
}
use geoipdns.Cdb.Make.Probe.{slot, next}
use geoipdns.Cdb.Make.Filled.{IsFilled, IsReal, under, table_of-IsFilled}
use geoipdns.Cdb.Make.Added.{
  IsMade, IsShort, image, packed, places, in_table, cdb_make_adds, cdb_make_adds-IsMade,
  cdb_make_start-IsMade,
}
use geoipdns.Cdb.Make.Finished.{IsFinished, finish_loop-IsFinished}

-- An entry fits into eight bytes.
abbrev pub IsFit : CdbHp → Type 0
IsFit hp = IsU32 hp.h × IsU32 hp.p

module _ (P : CdbHp → Type 0) (empty : P empty_slot) where
  All-set : (table : List CdbHp) (i : ℕ) (hp : CdbHp) → All P table → P hp → All P (set table i hp)
  All-set [] i hp h p = tt
  All-set (x ∷ table) zero hp h p = (p, h.1)
  All-set (x ∷ table) (suc i) hp h p = (h.0, All-set table i hp h.1 p)

  All-place :
      (n : ℕ) (table : List CdbHp) (at : ℕ) (hp : CdbHp)
      → All P table
      → P hp
      → All P (place n table at hp)
  unfolding place
  All-place zero table at hp h p = h
  All-place (suc n) table at hp h p = elim (Bool-cases ((slot table at).p == 0)) [
    | inl free ↦ rw (free, place) (All-set table at hp h p)
    | inr taken ↦ rw (taken, place) (All-place n table (next (length table) at) hp h p)
  ]

  All-place_all :
      (entries table : List CdbHp) → All P table → All P entries → All P (place_all table entries)
  unfolding place_all
  All-place_all [] table h es = h
  All-place_all (hp ∷ entries) table h es =
      All-place_all entries _ (All-place (length table) table _ hp h es.0) es.1

  All-replicate : (n : ℕ) → All P (replicate n empty_slot)
  All-replicate zero = tt
  All-replicate (suc n) = (empty, All-replicate n)

  All-table_of :
      (i : ℕ) (entries : List CdbHp) → All P (split i entries) → All P (table_of i entries)
  unfolding table_of
  All-table_of i entries h =
      All-place_all (split i entries) _ (All-replicate (count i entries + count i entries)) h

  pub All-slot : (table : List CdbHp) (at : ℕ) → All P table → P (slot table at)
  All-slot [] at h = empty
  All-slot (x ∷ table) zero h = h.0
  All-slot (x ∷ table) (suc at) h = All-slot table at h.1

All-in_table :
    (P : CdbHp → Type 0) (i : ℕ) (entries : List CdbHp) → All P entries → All P (in_table i entries)
unfolding in_table
All-in_table P i [] h = tt
All-in_table P i (hp ∷ entries) h = elim (Bool-cases (hp.h % 256 == i)) [
  | inl hit ↦ rw (hit, in_table) (h.0, All-in_table P i entries h.1)
  | inr miss ↦ rw (miss, in_table) (All-in_table P i entries h.1)
]

places-IsFit :
    (pos : ℕ) (records : List (List ℕ × List ℕ))
    → 0 < pos
    → IsU32 (pos + length (image records))
    → All IsFit (places pos records) × All IsReal (places pos records)
unfolding places image
places-IsFit pos [] positive fits = (tt, tt)
places-IsFit pos ((key, content) ∷ records) positive fits =
    let sum = length-append (packed key content) (image records) in
    let rest =
      places-IsFit (pos + length (packed key content)) records (omega arith) (omega (arith, sum)) in
    (((cdb_hash-IsU32 key, omega arith), rest.0), (ground arith, rest.1))

-- Table `j` of a file: where it is, and its slots.
pub record IsTable (file : List ℕ) (records : List (List ℕ × List ℕ)) (j : ℕ) : Type 0 where
  pub pos : ℕ
  pub table : List CdbHp
  pub taken : ℕ
  pub in_reach : IsU32 pos
  pub header : Holds file (8 * j) (uint32_pack pos ++ uint32_pack (length table))
  pub slots : Holds file pos (pack_slots table)
  pub fits : All IsFit table
  pub filled : IsFilled (length table) table taken (λ h. under h (in_table j (places 2048 records)))

pub record IsBuilt (file : List ℕ) (records : List (List ℕ × List ℕ)) : Type 0 where
  pub in_reach : IsU32 (length file)
  pub stored : Holds file 2048 (image records)
  pub has_table : (j : ℕ) → j < 256 → IsTable file records j

pub made-IsReal :
    (c : CdbMake) (records : List (List ℕ × List ℕ))
    → IsMade c records
    → (j : ℕ) → All IsReal (split j c.entries)
made-IsReal c records made j =
    subst (λ es. All IsReal es) (sym (made.tables j))
      (All-in_table IsReal j _
        (places-IsFit 2048 records (omega arith) (omega (arith, made.at_end, made.fits))).1)

module _ (c c' : CdbMake) (final : List ℕ) (records : List (List ℕ × List ℕ))
    (made : IsMade c records) (f : IsFinished 256 0 c [] c' final) where
  final_size : length final ≡ 2048
  final_size = f.length_final ∙ omega arith

  finished_table : (j : ℕ) → j < 256 → IsTable (final ++ c'.written) records j
  finished_table j lt =
      let t = f.has_table j (omega arith) (omega arith) in
      let fit = places-IsFit 2048 records (omega arith) (omega (arith, made.at_end, made.fits)) in
      let real = made-IsReal c records made j in
      let fits : All IsFit (split j c.entries) =
        subst (λ es. All IsFit es) (sym (made.tables j)) (All-in_table IsFit j _ fit.0) in
      let filled = table_of-IsFilled j c.entries real in
      record {
        pos = 2048 + t.behind;
        table = table_of j c.entries;
        taken = count j c.entries;
        in_reach = t.in_reach;
        header = Holds_append t.header c'.written;
        slots = Holds_at (omega (arith, final_size)) (Holds_behind t.slots final);
        fits = All-table_of IsFit (omega arith, omega arith) j c.entries fits;
        filled = rw (filled.size, sym (made.tables j)) filled;
      }

  finished-IsBuilt : IsBuilt (final ++ c'.written) records
  finished-IsBuilt = record {
    in_reach = omega (arith, length-append final c'.written, final_size, f.at_end, f.in_reach);
    stored =
        Holds_at final_size
          (rw (f.appended, made.wrote) (Holds_middle final (image records) f.more));
    has_table = finished_table;
  }

cdb_make_finish-IsBuilt :
    (c : CdbMake) (records : List (List ℕ × List ℕ)) {file : List ℕ}
    → IsMade c records
    → cdb_make_finish c ≡ some file
    → IsBuilt file records
unfolding cdb_make_finish
cdb_make_finish-IsBuilt c records {file} made e = elim (Bool-cases (too_large c)) [
  | inl large ↦ absurd (cc (rw (large, cdb_make_finish) at e))
  | inr small ↦ elim (Option-cases (finish_loop 256 0 c [])) [
    | inl failed ↦ absurd (cc (rw (small, failed, cdb_make_finish) at e))
    | inr ((c', final), done) ↦
        let same : final ++ c'.written ≡ file = cc (rw (small, done, cdb_make_finish) at e) in
        subst (λ (bs : List ℕ). IsBuilt bs records) same
          (finished-IsBuilt c c' final records made (
            finish_loop-IsFinished 256 0 c []
              (made.at_end ∙ ap (λ (bs : List ℕ). 2048 + length bs) (sym made.wrote)) made.fits
              (omega arith) done))
  ]
]

-- The database of a list of records, as `main` of src/vdnsdb.c makes one.
unfoldable pub cdb_of : List (List ℕ × List ℕ) → Option (List ℕ)
cdb_of records = elim (cdb_make_adds cdb_make_start records) [
  | none ↦ none
  | some c ↦ cdb_make_finish c
]

pub cdb_of-IsBuilt :
    (records : List (List ℕ × List ℕ)) {file : List ℕ}
    → All IsShort records
    → cdb_of records ≡ some file
    → IsBuilt file records
unfolding cdb_of
cdb_of-IsBuilt records short e = elim (Option-cases (cdb_make_adds cdb_make_start records)) [
  | inl failed ↦ absurd (cc (rw (failed, cdb_of) at e))
  | inr (c, added) ↦
      cdb_make_finish-IsBuilt c records
        (cdb_make_adds-IsMade cdb_make_start [] records cdb_make_start-IsMade short added)
        (rw (added, cdb_of) at e)
]
