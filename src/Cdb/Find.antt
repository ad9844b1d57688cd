-- ===== src/Cdb/Find.antt =====
-- `cdb_findnext` on a mapped file: what it finds is a record of the file under the key, and each
-- call that finds one moves on in the table, so that a loop of calls ends.
use geoipdns.Base.{
  ℕ, ◌+◌, ◌<◌, ◌≤◌, Option, none, some, List, length, take, drop, ◌==◌, u32, IsU32, arith, ◌≡◌,
  refl, ◌∙◌, ◌≢◌, inl, inr, Option-cases, Bool-cases,
}
use geoipdns.Uint.{uint32_unpack}
use geoipdns.Cdb.{
  Cdb, Found, error, absent, present, cdb_read, match, next_slot, check_record, search_slot,
}
use geoipdns.Cdb.Match.{IsMapped, cdb_read_lem, match_iff}
use native.Mathlib.Decide.{dec_le}

-- The eight bytes of the file at a place: two `uint32`, lowest byte first.
abbrev pub head_at : List ℕ → ℕ → List ℕ
head_at m pos = take 8 (drop pos m)

-- The file holds a record at `pos`: the lengths of its key and its data, then the key; the data
-- begin at `dpos`.
pub record IsRecord (m key : List ℕ) (dpos dlen : ℕ) : Type 0 where
  pub pos : ℕ
  pub inside : pos + 8 + length key ≤ length m
  pub key_length : uint32_unpack (head_at m pos) ≡ length key
  pub data_length : uint32_unpack (drop 4 (head_at m pos)) ≡ dlen
  pub key_bytes : take (length key) (drop (pos + 8) m) ≡ key
  pub data_after : dpos ≡ pos + 8 + length key

-- What a step of the search keeps: the file, and the slots of the table.
pub record Keeps (c c' : Cdb) : Type 0 where
  pub same_map : c'.map ≡ c.map
  pub same_size : c'.size ≡ c.size
  pub same_slots : c'.hslots ≡ c.hslots

module _ (c : Cdb) {m : List ℕ} (h : IsMapped c m) (key : List ℕ) (hk : 0 < length key) where
  check_record_found :
      (pos : ℕ)
      → (check_record c key pos).1 ≡ some present
      → IsRecord m key (check_record c key pos).0.dpos (check_record c key pos).0.dlen
  unfolding check_record
  check_record_found pos e = elim (dec_le (pos + 8) (length m)) [
    | yes p ↦
        let read : cdb_read c 8 pos ≡ some (head_at m pos) = (cdb_read_lem c 8 pos h).0 p in
        let no_wrap : u32 (pos + 8) ≡ pos + 8 = omega (arith, h.whole, h.fits) in
        let hit : match c key (pos + 8) ≡ present = ground (arith, read, no_wrap) in
        let found = (match_iff c h key (pos + 8) hk).0 hit in
        record {
          pos = pos;
          inside = found.0;
          key_length = ground (arith, read, no_wrap);
          data_length = ground (arith, read, no_wrap, hit);
          key_bytes = found.1;
          data_after = ground (arith, read, no_wrap, hit, h.whole, h.fits);
        }
    | no p ↦ absurd (miss ((cdb_read_lem c 8 pos h).1 (omega arith)) e)
  ]
    where
      miss : cdb_read c 8 pos ≡ none → (check_record c key pos).1 ≡ some present → ⊥
      miss r e' = ground (arith, r)

  check_record-Keeps :
      (pos : ℕ) → Keeps c (check_record c key pos).0 × ((check_record c key pos).0.loop ≡ c.loop)
  unfolding check_record
  check_record-Keeps pos = ground arith

next_slot-IsMapped : (c : Cdb) {m : List ℕ} → IsMapped c m → IsMapped (next_slot c) m
unfolding next_slot
next_slot-IsMapped c h = record { mapped = h.mapped; whole = h.whole; fits = h.fits }

next_slot-Keeps :
    (c : Cdb)
    → c.loop < c.hslots
    → IsU32 c.hslots
    → Keeps c (next_slot c) × ((next_slot c).loop ≡ c.loop + 1)
unfolding next_slot
next_slot-Keeps c lt fits =
    (record { same_map = refl; same_size = refl; same_slots = refl }, omega arith)

-- The state after a round of the loop: the same file and table, at most one slot further, and a
-- find is a record of the file and lies one slot further.
pub record IsStep (m key : List ℕ) (c : Cdb) (r : Cdb × Option Found) : Type 0 where
  pub keeps : Keeps c r.0
  pub forward : c.loop ≤ r.0.loop
  pub one_slot : r.0.loop ≤ c.loop + 1
  pub goes_on : r.1 ≡ none → r.0.loop ≡ c.loop + 1
  pub found_next : r.1 ≡ some present → r.0.loop ≡ c.loop + 1
  pub found_record : r.1 ≡ some present → IsRecord m key r.0.dpos r.0.dlen

module _ (c : Cdb) {m : List ℕ} (h : IsMapped c m) (key : List ℕ) (hk : 0 < length key) where
  stays-IsStep : (f : Found) → f ≢ present → IsStep m key c (c, some f)
  stays-IsStep f ne = record {
    keeps = record { same_map = refl; same_size = refl; same_slots = refl };
    forward = omega arith;
    one_slot = omega arith;
    goes_on = λ e. cc;
    found_next = λ e. absurd (ne (cc));
    found_record = λ e. absurd (ne (cc));
  }

  module _ (lt : c.loop < c.hslots) (fits : IsU32 c.hslots) where
    other-IsStep : IsStep m key c (next_slot c, none)
    other-IsStep =
        let k = next_slot-Keeps c lt fits in
        record {
          keeps = k.0;
          forward = omega (arith, k.1);
          one_slot = omega (arith, k.1);
          goes_on = λ e. k.1;
          found_next = λ e. cc;
          found_record = λ e. cc;
        }

    checked-IsStep : (pos : ℕ) → IsStep m key c (check_record (next_slot c) key pos)
    checked-IsStep pos =
        let k = next_slot-Keeps c lt fits in
        let mapped = next_slot-IsMapped c h in
        let r = check_record-Keeps (next_slot c) mapped key hk pos in
        record {
          keeps = record {
            same_map = r.0.same_map ∙ k.0.same_map;
            same_size = r.0.same_size ∙ k.0.same_size;
            same_slots = r.0.same_slots ∙ k.0.same_slots;
          };
          forward = omega (arith, k.1, r.1);
          one_slot = omega (arith, k.1, r.1);
          goes_on = λ e. r.1 ∙ k.1;
          found_next = λ e. r.1 ∙ k.1;
          found_record = check_record_found (next_slot c) mapped key hk pos;
        }

    pub search_slot-IsStep : IsStep m key c (search_slot c key)
    unfolding search_slot
    search_slot-IsStep = elim (Option-cases (cdb_read c 8 c.kpos)) [
      | inl e ↦ rw (e, search_slot) (stays-IsStep error (λ x. cc))
      | inr (buf, e) ↦ elim (Bool-cases (uint32_unpack (drop 4 buf) == 0)) [
        | inl z ↦ rw (e, z, search_slot) (stays-IsStep absent (λ x. cc))
        | inr z ↦ elim (Bool-cases (uint32_unpack buf == c.khash)) [
          | inl k ↦ rw (e, z, k, search_slot) (checked-IsStep (uint32_unpack (drop 4 buf)))
          | inr k ↦ rw (e, z, k, search_slot) other-IsStep
        ]
      ]
    ]
