-- ===== src/Cdb/Same.antt =====
-- The calls of src/cdb.c leave the file as it is.
use geoipdns.Base.{
  ℕ, zero, suc, ◌-◌, Option, none, some, List, ◌==◌, ◌≡◌, refl, ◌∙◌, inl, inr, Bool-cases, arith,
}
use geoipdns.Cdb.{
  Cdb, Found, next_slot, check_record, search_slot, find_table, unless_returned, find_slots,
  cdb_findnext, cdb_findstart, cdb_find,
}
use geoipdns.Cdb.Match.{IsMapped}

pub record IsSame (c c' : Cdb) : Type 0 where
  pub same_map : c'.map ≡ c.map
  pub same_size : c'.size ≡ c.size

pub IsSame-trans : {c c' c'' : Cdb} → IsSame c c' → IsSame c' c'' → IsSame c c''
IsSame-trans p q = record {
  same_map = q.same_map ∙ p.same_map;
  same_size = q.same_size ∙ p.same_size;
}

pub IsSame-refl : (c : Cdb) → IsSame c c
IsSame-refl c = record { same_map = refl; same_size = refl }

pub IsSame-IsMapped : {c c' : Cdb} {m : List ℕ} → IsSame c c' → IsMapped c m → IsMapped c' m
IsSame-IsMapped p h = record {
  mapped = p.same_map ∙ h.mapped;
  whole = p.same_size ∙ h.whole;
  fits = rw p.same_size h.fits;
}

check_record-IsSame : (c : Cdb) (key : List ℕ) (pos : ℕ) → IsSame c (check_record c key pos).0
unfolding check_record
check_record-IsSame c key pos = record { same_map = ground arith; same_size = ground arith }

search_slot-IsSame : (c : Cdb) (key : List ℕ) → IsSame c (search_slot c key).0
unfolding search_slot next_slot check_record
search_slot-IsSame c key = record { same_map = ground arith; same_size = ground arith }

find_table-IsSame : (c : Cdb) (key : List ℕ) → IsSame c (find_table c key).0
unfolding find_table
find_table-IsSame c key = record { same_map = ground arith; same_size = ground arith }

unless_returned-IsSame :
    (c : Cdb) (r : Cdb × Option Found) (go : Cdb → Cdb × Found)
    → IsSame c r.0
    → ((c' : Cdb) → IsSame c' (go c').0)
    → IsSame c (unless_returned r go).0
unfolding unless_returned
unless_returned-IsSame c (c', some r) go same rest = same
unless_returned-IsSame c (c', none) go same rest = IsSame-trans same (rest c')

find_slots-IsSame : (left : ℕ) (c : Cdb) (key : List ℕ) → IsSame c (find_slots left c key).0
unfolding find_slots
find_slots-IsSame zero c key = IsSame-refl c
find_slots-IsSame (suc left) c key =
    unless_returned-IsSame c (search_slot c key) _ (search_slot-IsSame c key)
      (λ c'. find_slots-IsSame left c' key)

pub cdb_findnext-IsSame : (c : Cdb) (key : List ℕ) → IsSame c (cdb_findnext c key).0
unfolding cdb_findnext
cdb_findnext-IsSame c key = elim (Bool-cases (c.loop == 0)) [
  | inl z ↦
      rw (z, cdb_findnext)
        (unless_returned-IsSame c (find_table c key) _ (find_table-IsSame c key)
          (λ c'. find_slots-IsSame (c'.hslots - c'.loop) c' key))
  | inr nz ↦
      rw (nz, cdb_findnext)
        (unless_returned-IsSame c (c, none) _ (IsSame-refl c)
          (λ c'. find_slots-IsSame (c'.hslots - c'.loop) c' key))
]

pub cdb_find-IsSame : (c : Cdb) (key : List ℕ) → IsSame c (cdb_find c key).0
unfolding cdb_find cdb_findstart
cdb_find-IsSame c key =
    let same = cdb_findnext-IsSame (record c { loop = 0 }) key in
    record { same_map = same.same_map; same_size = same.same_size }
