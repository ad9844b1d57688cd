-- ===== src/Cdb/Walk.antt =====
-- The search of src/cdb.c in a table that src/cdb_make.c has filled.
use geoipdns.Base.{
  ℕ, zero, suc, ◌+◌, ◌*◌, ◌<◌, ◌≤◌, none, some, List, [], ◌∷◌, length, ◌==◌, if◌then◌else◌, u32,
  IsU32, ◌<<<◌, ◌≡◌, refl, sym, inl, inr, Bool-cases, arith, All,
}
use geoipdns.Cdb.{
  Cdb, Found, absent, present, byte_equal, cdb_read, next_slot, check_record, search_slot,
  unless_returned, find_slots,
}
use geoipdns.Cdb.Hash.{cdb_hash}
use geoipdns.Cdb.Match.{IsMapped}
use geoipdns.Cdb.Holds.{Holds, Holds_inside, Holds_part, Holds_at, Holds-cdb_read}
use geoipdns.Cdb.Make.{CdbHp, pack_slots}
use geoipdns.Cdb.Make.Probe.{slot, next, reads}
use geoipdns.Cdb.Make.Added.{packed}
use geoipdns.Cdb.Make.Finished.{pack_slot, length-pack_slots, Holds_slot}
use geoipdns.Cdb.Make.Built.{IsFit, All-slot}
use geoipdns.Cdb.Compare.{unpack_two, read_two, data_at, check_record_lem}

-- The data under a key, in the order of the records.
unfoldable pub datas_of : List ℕ → List (List ℕ × List ℕ) → List (List ℕ)
datas_of key [] = []
datas_of key ((key', content) ∷ records) =
    let rest = datas_of key records in if byte_equal key' key then content ∷ rest else rest

-- The records stand in the file at these positions.
abbrev pub AreStored : List ℕ → List ℕ → List (List ℕ × List ℕ) → Type 0
AreStored file [] [] = Unit
AreStored file [] (r ∷ records) = ⊥
AreStored file (p ∷ ps) [] = ⊥
AreStored file (p ∷ ps) ((key', content) ∷ records) =
    Holds file p (packed key' content) × AreStored file ps records

module _ (file : List ℕ) (table : List CdbHp) (pos : ℕ) (reach : IsU32 (length file))
    (slots : Holds file pos (pack_slots table)) (fits : All IsFit table) (key : List ℕ) where
  -- The cursor is at a slot of the table, with `left` slots to go.
  pub record IsAt (c : Cdb) (at left : ℕ) : Type 0 where
    pub mapped : IsMapped c file
    pub same_slots : c.hslots ≡ length table
    pub same_pos : c.hpos ≡ pos
    pub same_hash : c.khash ≡ cdb_hash key
    pub slot_pos : c.kpos ≡ pos + 8 * at
    pub in_table : at < length table
    pub to_go : c.loop + left ≡ length table

  table_inside : pos + 8 * length table ≤ length file
  table_inside = omega (arith, Holds_inside slots, length-pack_slots table)

  next_slot-IsAt :
      (c : Cdb) (at left : ℕ)
      → IsAt c at (suc left)
      → IsAt (next_slot c) (next (length table) at) left
  unfolding next_slot
  next_slot-IsAt c at left a = record {
    mapped = record { mapped = a.mapped.mapped; whole = a.mapped.whole; fits = a.mapped.fits };
    same_slots = a.same_slots;
    same_pos = a.same_pos;
    same_hash = a.same_hash;
    slot_pos = stepped;
    in_table = ground (arith, a.in_table);
    to_go = omega (arith, a.to_go, table_inside);
  }
    where
      stepped :
          (if u32 (c.kpos + 8) == u32 (c.hpos + u32 (c.hslots <<< 3))
            then c.hpos
            else u32 (c.kpos + 8))
          ≡ pos + 8 * next (length table) at
      stepped =
          let wrap : u32 (c.kpos + 8) ≡ pos + 8 * (at + 1) =
            omega (arith, a.slot_pos, a.in_table, table_inside) in
          let end : u32 (c.hpos + u32 (c.hslots <<< 3)) ≡ pos + 8 * length table =
            omega (arith, a.same_pos, a.same_slots, table_inside) in
          rw (wrap, end, a.same_pos) (ground arith)

  -- A cursor at which the records that are left are these.
  pub record IsPending (c : Cdb) (records : List (List ℕ × List ℕ)) : Type 0 where
    pub at : ℕ
    pub left : ℕ
    pub is_at : IsAt c at left
    pub are_stored : AreStored file (reads left (length table) table (cdb_hash key) at) records

  -- What a search gives, if these are the data that are left.
  abbrev pub IsOutcome : List (List ℕ) → Cdb × Found → Type 0
  IsOutcome [] r = r.1 ≡ absent
  IsOutcome (d ∷ ds) r =
      (r.1 ≡ present)
      × (cdb_read r.0 r.0.dlen r.0.dpos ≡ some d)
      × (r.0.dlen ≡ length d)
      × (0 < r.0.loop)
      × ((after : List (List ℕ × List ℕ)) × IsPending r.0 after × (datas_of key after ≡ ds))

  search_slot_lem :
      (c : Cdb) (at left : ℕ)
      → IsAt c at (suc left)
      → search_slot c key ≡ (
          if (slot table at).p == 0
          then (c, some absent)
          else if (slot table at).h == cdb_hash key
          then check_record (next_slot c) key (slot table at).p
          else (next_slot c, none))
  unfolding search_slot
  search_slot_lem c at left a =
      let s = slot table at in
      let fit : IsFit s = All-slot IsFit (omega arith, omega arith) table at fits in
      let stands : Holds file c.kpos (pack_slot s) =
        Holds_at (sym a.slot_pos) (Holds_part slots (Holds_slot table at a.in_table)) in
      let read = read_two c c.kpos s.h s.p a.mapped stands in
      let two = unpack_two s.h s.p fit.0 fit.1 in
      rw (read, two.0, two.1, a.same_hash, search_slot) refl

  with_data-IsAt :
      (c : Cdb) (at left dlen dpos : ℕ)
      → IsAt c at left
      → IsAt (record c { dlen = dlen; dpos = dpos }) at left
  with_data-IsAt c at left dlen dpos a = record {
    mapped = record { mapped = a.mapped.mapped; whole = a.mapped.whole; fits = a.mapped.fits };
    same_slots = a.same_slots;
    same_pos = a.same_pos;
    same_hash = a.same_hash;
    slot_pos = a.slot_pos;
    in_table = a.in_table;
    to_go = a.to_go;
  }

  next_slot_loop : (c : Cdb) (at left : ℕ) → IsAt c at (suc left) → 0 < (next_slot c).loop
  unfolding next_slot
  next_slot_loop c at left a = omega (arith, a.to_go, table_inside)

  pub no_records :
      (records : List (List ℕ × List ℕ)) → AreStored file [] records → datas_of key records ≡ []
  unfolding datas_of
  no_records [] h = refl
  no_records (r ∷ records) h = absurd h

  -- A slot with the hash of the key.
  checked-IsOutcome :
      (left : ℕ) (c : Cdb) (at : ℕ) (records : List (List ℕ × List ℕ))
      → IsAt c at (suc left)
      → ((rest : List (List ℕ × List ℕ))
          → AreStored file
              (reads left (length table) table (cdb_hash key) (next (length table) at))
              rest
          → IsOutcome (datas_of key rest) (find_slots left (next_slot c) key))
      → AreStored file
          ((slot table at).p
            ∷ reads left (length table) table (cdb_hash key) (next (length table) at))
          records
      → IsOutcome (datas_of key records) (
          unless_returned
            (check_record (next_slot c) key (slot table at).p)
            (λ c'. find_slots left c' key))
  unfolding unless_returned datas_of
  checked-IsOutcome left c at [] a go_on h = absurd h
  checked-IsOutcome left c at ((key', content) ∷ rest) a go_on (here, others) =
      let forward = next_slot-IsAt c at left a in
      let checked = check_record_lem key' content here (next_slot c) key forward.mapped in
      let dpos = (slot table at).p + 8 + length key' in
      elim (Bool-cases (byte_equal key' key)) [
        | inl hit ↦
            let found =
              with_data-IsAt (next_slot c) (next (length table) at) left (length content) dpos
                forward in
            rw (checked, hit)
              (
                refl,
                Holds-cdb_read (data_at key' content here) _ found.mapped,
                refl,
                next_slot_loop c at left a,
                (
                  rest,
                  record {
                    at = next (length table) at;
                    left = left;
                    is_at = found;
                    are_stored = others;
                  },
                  refl,
                ),
              )
        | inr miss ↦ rw (checked, miss) (go_on rest others)
      ]

  -- The search goes through the slots that are left.
  pub find_slots-IsOutcome :
      (left : ℕ) (c : Cdb) (at : ℕ) (records : List (List ℕ × List ℕ))
      → IsAt c at left
      → AreStored file (reads left (length table) table (cdb_hash key) at) records
      → IsOutcome (datas_of key records) (find_slots left c key)
  unfolding reads find_slots unless_returned datas_of
  find_slots-IsOutcome zero c at records a h = rw (no_records records h) refl
  find_slots-IsOutcome (suc left) c at records a h =
      let step = search_slot_lem c at left a in
      let forward = next_slot-IsAt c at left a in
      elim (Bool-cases ((slot table at).p == 0)) [
        | inl free ↦ rw (step, free, no_records records (rw free at h)) refl
        | inr taken ↦ elim (Bool-cases ((slot table at).h == cdb_hash key)) [
          | inl same ↦
              rw (step, taken, same)
                (checked-IsOutcome left c at records a
                  (λ rest h'.
                    find_slots-IsOutcome left (next_slot c) (next (length table) at) rest forward
                      h')
                  (rw (taken, same) at h))
          | inr other ↦
              rw (step, taken, other)
                (find_slots-IsOutcome left (next_slot c) (next (length table) at) records forward
                  (rw (taken, other) at h))
        ]
      ]
