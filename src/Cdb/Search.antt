-- ===== src/Cdb/Search.antt =====
-- The loop of `cdb_findnext` over the slots, and the calls as a whole, on a mapped file.
use geoipdns.Base.{
  ℕ, zero, suc, ◌+◌, ◌-◌, ◌<◌, ◌≤◌, ◌%◌, u32, ◌<<<◌, ==_iff, Option, none, some, List, length, ◌==◌,
  IsU32, arith, ◌≡◌, ◌≢◌, refl, ◌∙◌, ap, inl, inr, Bool-cases, Option-cases, drop,
}
use mathlib.Core.Path.{subst}
use geoipdns.Uint.{uint32_unpack}
use geoipdns.Uint.RoundTrip.{uint32_unpack-IsU32}
use geoipdns.Cdb.Hash.{cdb_hash}
use geoipdns.Cdb.{
  Cdb, Found, present, cdb_read, find_table, search_slot, unless_returned, find_slots, cdb_findnext,
  cdb_findstart, cdb_find,
}
use geoipdns.Cdb.Match.{IsMapped}
use geoipdns.Cdb.Find.{IsRecord, Keeps, IsStep, search_slot-IsStep}

-- A cursor over a mapped file: what holds before each call of `cdb_findnext`.
pub record IsCursor (c : Cdb) (m : List ℕ) : Type 0 where
  pub mapped : IsMapped c m
  pub slots : IsU32 c.hslots
  pub in_table : c.loop ≤ c.hslots

-- What a search in a table yields: a cursor over the same file and table that has not moved back,
-- and that has moved on where a record was found.
pub record IsSearch (m key : List ℕ) (c : Cdb) (r : Cdb × Found) : Type 0 where
  pub cursor : IsCursor r.0 m
  pub same_slots : r.0.hslots ≡ c.hslots
  pub forward : c.loop ≤ r.0.loop
  pub moved : r.1 ≡ present → c.loop < r.0.loop
  pub found_record : r.1 ≡ present → IsRecord m key r.0.dpos r.0.dlen

Keeps-IsMapped : {c c' : Cdb} {m : List ℕ} → Keeps c c' → IsMapped c m → IsMapped c' m
Keeps-IsMapped k h = record {
  mapped = k.same_map ∙ h.mapped;
  whole = k.same_size ∙ h.whole;
  fits = omega (arith, k.same_size, h.fits);
}

module _ {m : List ℕ} (key : List ℕ) where
  stop-IsSearch :
      (c c' : Cdb) (f : Found)
      → IsMapped c m
      → IsU32 c.hslots
      → c.loop < c.hslots
      → IsStep m key c (c', some f)
      → IsSearch m key c (c', f)
  stop-IsSearch c c' f h fits lt s = record {
    cursor = record {
      mapped = Keeps-IsMapped s.keeps h;
      slots = omega (arith, s.keeps.same_slots);
      in_table = omega (arith, s.keeps.same_slots, s.one_slot);
    };
    same_slots = s.keeps.same_slots;
    forward = s.forward;
    moved = λ e. omega (arith, s.found_next (ap some e));
    found_record = λ e. s.found_record (ap some e);
  }

  further-IsSearch :
      (c c' : Cdb) (r : Cdb × Found)
      → IsStep m key c (c', none)
      → IsSearch m key c' r
      → IsSearch m key c r
  further-IsSearch c c' r s t = record {
    cursor = t.cursor;
    same_slots = t.same_slots ∙ s.keeps.same_slots;
    forward = omega (arith, s.forward, t.forward);
    moved = λ e. omega (arith, s.forward, t.moved e);
    found_record = t.found_record;
  }

module _ {m : List ℕ} (key : List ℕ) (hk : 0 < length key) where
  -- The rounds that are left are enough: the loop ends by a return or at the last slot.
  find_slots-IsSearch :
      (left : ℕ) (c : Cdb)
      → IsMapped c m
      → IsU32 c.hslots
      → c.loop + left ≡ c.hslots
      → IsSearch m key c (find_slots left c key)
  unfolding find_slots unless_returned
  find_slots-IsSearch zero c h fits e = record {
    cursor = record { mapped = h; slots = fits; in_table = omega arith };
    same_slots = refl;
    forward = omega arith;
    moved = λ x. cc;
    found_record = λ x. cc;
  }
  find_slots-IsSearch (suc left) c h fits e =
      go (search_slot c key) (search_slot-IsStep c h key hk (omega arith) fits)
        (find_slots-IsSearch left)
    where
      go :
          (r : Cdb × Option Found)
          → IsStep m key c r
          → ((c' : Cdb)
              → IsMapped c' m
              → IsU32 c'.hslots
              → c'.loop + left ≡ c'.hslots
              → IsSearch m key c' (find_slots left c' key))
          → IsSearch m key c (unless_returned r (λ c'. find_slots left c' key))
      go (c', some f) s rest = stop-IsSearch key c c' f h fits (omega arith) s
      go (c', none) s rest = further-IsSearch key c c' _ s (
          rest c' (Keeps-IsMapped s.keeps h) (omega (arith, s.keeps.same_slots))
            (omega (arith, s.keeps.same_slots, s.goes_on refl)))

-- The table of a key is read from the file: the cursor is at its start, and nothing is found yet.
find_table_lem :
    (c : Cdb) {m : List ℕ} (key : List ℕ)
    → IsCursor c m
    → c.loop ≡ 0
    → IsCursor (find_table c key).0 m
      × ((find_table c key).0.loop ≡ 0)
      × ((find_table c key).1 ≢ some present)
unfolding find_table
find_table_lem c {m} key h z =
    elim (Option-cases (cdb_read c 8 (u32 (cdb_hash key <<< 3) % 2048))) [
      | inl e ↦ rw (e, find_table) (h, z, λ x. cc)
      | inr (buf, e) ↦ elim (Bool-cases (uint32_unpack (drop 4 buf) == 0)) [
        | inl none_left ↦
            rw (e, none_left, find_table)
              (
                cursor _ _ (record { same_map = refl; same_size = refl; same_slots = refl }) refl
                    refl,
                z,
                λ x. cc,
              )
        | inr some_left ↦
            rw (e, some_left, find_table)
              (
                cursor _ _ (record { same_map = refl; same_size = refl; same_slots = refl }) refl
                    refl,
                z,
                λ x. cc,
              )
      ]
    ]
  where
    cursor :
        (c' : Cdb) (buf : List ℕ)
        → Keeps (record c { hslots = c'.hslots }) c'
        → c'.loop ≡ c.loop
        → c'.hslots ≡ uint32_unpack buf
        → IsCursor c' m
    cursor c' buf k e e' = record {
      mapped =
          Keeps-IsMapped k
            (record { mapped = h.mapped.mapped; whole = h.mapped.whole; fits = h.mapped.fits });
      slots = rw e' (uint32_unpack-IsU32 buf);
      in_table = omega arith;
    }

-- A call of `cdb_findnext` leaves a cursor over the file, and moves on if it finds a record.
pub cdb_findnext_lem :
    (c : Cdb) {m : List ℕ} (key : List ℕ)
    → 0 < length key
    → IsCursor c m
    → IsCursor (cdb_findnext c key).0 m
      × ((cdb_findnext c key).1 ≡ present
          → IsRecord m key (cdb_findnext c key).0.dpos (cdb_findnext c key).0.dlen
            × (c.loop < (cdb_findnext c key).0.loop))
unfolding cdb_findnext unless_returned
cdb_findnext_lem c {m} key hk h = elim (Bool-cases (c.loop == 0)) [
  | inl z ↦
      let t = find_table_lem c key h ((==_iff c.loop 0).0 z) in
      rw z (go (find_table c key) t.0 (omega (arith, (==_iff c.loop 0).0 z)) t.2)
  | inr nz ↦ rw nz (go (c, none) h (omega arith) (λ x. cc))
]
  where
    go :
        (r : Cdb × Option Found)
        → IsCursor r.0 m
        → c.loop ≤ r.0.loop
        → r.1 ≢ some present
        → IsCursor (unless_returned r (λ c'. find_slots (c'.hslots - c'.loop) c' key)).0 m
          × ((unless_returned r (λ c'. find_slots (c'.hslots - c'.loop) c' key)).1 ≡ present
              → IsRecord m key
                  (unless_returned r (λ c'. find_slots (c'.hslots - c'.loop) c' key)).0.dpos
                  (unless_returned r (λ c'. find_slots (c'.hslots - c'.loop) c' key)).0.dlen
                × (c.loop
                    < (unless_returned r (λ c'. find_slots (c'.hslots - c'.loop) c' key)).0.loop))
    go (c', some f) cursor forward ne = (cursor, λ e. absurd (ne (ap some e)))
    go (c', none) cursor forward ne =
        let s =
          find_slots-IsSearch key hk (c'.hslots - c'.loop) c' cursor.mapped cursor.slots
            (omega (arith, cursor.in_table)) in
        (s.cursor, λ e. (s.found_record e, omega (arith, s.moved e)))

-- `cdb_find` on a mapped file, from whatever place of a table the search before it was left at.
pub cdb_find_lem :
    (c : Cdb) {m : List ℕ} (key : List ℕ)
    → 0 < length key
    → IsCursor c m
    → IsCursor (cdb_find c key).0 m
      × ((cdb_find c key).1 ≡ present
          → IsRecord m key (cdb_find c key).0.dpos (cdb_find c key).0.dlen)
unfolding cdb_find cdb_findstart
cdb_find_lem c {m} key hk h =
    let r =
      cdb_findnext_lem (record c { loop = 0 }) key hk
        (record {
          mapped = record {
            mapped = h.mapped.mapped;
            whole = h.mapped.whole;
            fits = h.mapped.fits;
          };
          slots = h.slots;
          in_table = omega arith;
        }) in
    (r.0, λ e. (r.1 e).0)

-- On a cursor over a mapped file, a record that `cdb_findnext` finds stands in the file under the
-- key, its data are where the cursor says, the cursor is over the file as before, and it has moved
-- on in its table.
pub cdb_findnext_found :
    (c : Cdb) {m : List ℕ} (key : List ℕ) {c' : Cdb}
    → 0 < length key
    → IsCursor c m
    → cdb_findnext c key ≡ (c', present)
    → IsRecord m key c'.dpos c'.dlen × IsCursor c' m × (c.loop < c'.loop)
cdb_findnext_found c {m} key {c'} hk h e =
    let r = cdb_findnext_lem c key hk h in
    let found = r.1 (ap (λ x. x.1) e) in
    (
      subst (λ (x : Cdb). IsRecord m key x.dpos x.dlen) (ap (λ x. x.0) e) found.0,
      subst (λ x. IsCursor x m) (ap (λ x. x.0) e) r.0,
      subst (λ (x : Cdb). c.loop < x.loop) (ap (λ x. x.0) e) found.1,
    )
