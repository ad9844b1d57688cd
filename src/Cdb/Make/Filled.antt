-- ===== src/Cdb/Make/Filled.antt =====
-- The whole of a table: `place_all` and `table_of`.
use geoipdns.Base.{
  ℕ, zero, suc, ◌+◌, ◌<◌, ◌≤◌, ◌%◌, false, List, [], ◌∷◌, ◌++◌, length, set, replicate, length-set,
  length-append, ◌==◌, if◌then◌else◌, ◌>>>◌, ◌≡◌, refl, sym, ap, ◌∙◌, inl, inr, Bool-cases, ==_iff,
  arith, append_assoc, append-nil, All,
}
use geoipdns.Cdb.Make.{CdbHp, empty_slot, place, place_all, count, split, table_of}
use geoipdns.Cdb.Make.Probe.{slot, next, reads, everywhere, everywhere-set_other, reads-set_other}
use geoipdns.Cdb.Make.Placed.{IsPlaced, place-IsPlaced}

-- The slots that are taken.
unfoldable pub used : List CdbHp → ℕ
used [] = 0
used (hp ∷ table) = let rest = used table in if hp.p == 0 then rest else rest + 1

free_slot :
    (table : List CdbHp)
    → used table < length table
    → (i : ℕ) × (i < length table) × ((slot table i).p ≡ 0)
unfolding used
free_slot [] lt = absurd (omega arith)
free_slot (hp ∷ table) lt = elim (Bool-cases (hp.p == 0)) [
  | inl z ↦ (0, omega arith, (==_iff hp.p 0).0 z)
  | inr nz ↦
      let (i, inside, free) = free_slot table (ground (arith, nz, lt)) in (suc i, omega arith, free)
]

used-set :
    (table : List CdbHp) (i : ℕ) (hp : CdbHp)
    → i < length table
    → (slot table i).p ≡ 0
    → (hp.p == 0) ≡ false
    → used (set table i hp) ≡ used table + 1
unfolding used
used-set [] i hp lt free real = absurd (omega arith)
used-set (x ∷ table) zero hp lt free real = rw (real, free) refl
used-set (x ∷ table) (suc i) hp lt free real =
    let rest = used-set table i hp (omega arith) free real in
    elim (Bool-cases (x.p == 0)) [ inl z ↦ rw (z, rest) refl | inr nz ↦ rw (nz, rest) refl ]

-- The positions of the entries under a hash.
unfoldable pub under : ℕ → List CdbHp → List ℕ
under h [] = []
under h (hp ∷ entries) = let rest = under h entries in if hp.h == h then hp.p ∷ rest else rest

-- The slot where a walk for a hash begins.
abbrev pub home : ℕ → ℕ → ℕ
home len h = (h >>> 8) % len

-- A walk for any hash meets the positions under it, in order, before an empty slot, and none behind.
pub record IsFilled (len : ℕ) (table : List CdbHp) (taken : ℕ) (held : ℕ → List ℕ) : Type 0 where
  pub size : length table ≡ len
  pub in_use : used table ≡ taken
  pub met : (h : ℕ) → reads len len table h (home len h) ≡ held h
  pub there : (h : ℕ) → everywhere len len table h (home len h) ≡ held h

module _ (len : ℕ) (table : List CdbHp) {taken : ℕ} {held : ℕ → List ℕ}
    (f : IsFilled len table taken held) where
  -- What the walk for a hash meets once an entry is placed.
  walk_filled :
      (hp : CdbHp) (table' : List CdbHp)
      → (hp.p == 0) ≡ false
      → IsPlaced len len table (home len hp.h) hp table'
      → (h : ℕ)
      → (everywhere len len table' h (home len h) ≡ held h ++ (if hp.h == h then hp.p ∷ [] else []))
        × (reads len len table' h (home len h) ≡ held h ++ (if hp.h == h then hp.p ∷ [] else []))
  walk_filled hp table' real p h = elim (Bool-cases (hp.h == h)) [
    | inl hit ↦
        let same : hp.h ≡ h = (==_iff hp.h h).0 hit in
        let both = p.behind (f.met hp.h ∙ sym (f.there hp.h)) in
        rw (hit, sym same)
          (
            both.0 ∙ ap (λ (ps : List ℕ). ps ++ (hp.p ∷ [])) (f.there hp.h),
            both.1 ∙ ap (λ (ps : List ℕ). ps ++ (hp.p ∷ [])) (f.there hp.h),
          )
    | inr miss ↦
        let good = f.met h ∙ sym (f.there h) in
        let at = home len h in
        rw (miss, append-nil (held h), p.is_set)
          (
            everywhere-set_other len table p.e hp p.inside p.free real h miss len at ∙ f.there h,
            reads-set_other len table p.e hp p.inside p.free real h miss len at good ∙ f.there h,
          )
  ]

  placed-IsFilled :
      (hp : CdbHp) (table' : List CdbHp)
      → (hp.p == 0) ≡ false
      → IsPlaced len len table (home len hp.h) hp table'
      → IsFilled len table' (taken + 1) (λ h. held h ++ (if hp.h == h then hp.p ∷ [] else []))
  placed-IsFilled hp table' real p = record {
    size = ap (λ (t : List CdbHp). length t) p.is_set ∙ length-set table p.e hp ∙ f.size;
    in_use =
        ap used p.is_set
        ∙ used-set table p.e hp p.inside p.free real
        ∙ ap (λ (n : ℕ). n + 1) f.in_use;
    met = λ h. (walk_filled hp table' real p h).1;
    there = λ h. (walk_filled hp table' real p h).0;
  }

  place-IsFilled :
      (hp : CdbHp)
      → (hp.p == 0) ≡ false
      → taken < len
      → IsFilled len
          (place (length table) table (home (length table) hp.h) hp)
          (taken + 1)
          (λ h. held h ++ (if hp.h == h then hp.p ∷ [] else []))
  place-IsFilled hp real room =
      let (i, inside, free) = free_slot table (omega (arith, f.size, f.in_use)) in
      rw (f.size) (
        placed-IsFilled hp _ real (
          place-IsPlaced len table f.size hp real i (omega (arith, f.size)) free len (home len hp.h)
            (omega arith) (omega arith) (ground (arith, f.size))))

under_first :
    (h : ℕ) (hp : CdbHp) (entries : List CdbHp) (held : List ℕ)
    → (held ++ (if hp.h == h then hp.p ∷ [] else [])) ++ under h entries
      ≡ held ++ under h (hp ∷ entries)
unfolding under
under_first h hp entries held = elim (Bool-cases (hp.h == h)) [
  | inl hit ↦ rw hit (append_assoc held (hp.p ∷ []) (under h entries))
  | inr miss ↦ rw miss (ap (λ (ps : List ℕ). ps ++ under h entries) (append-nil held))
]

abbrev pub IsReal : CdbHp → Type 0
IsReal hp = (hp.p == 0) ≡ false

place_all-IsFilled :
    (len : ℕ) (entries table : List CdbHp) {taken : ℕ} {held : ℕ → List ℕ}
    → IsFilled len table taken held
    → All IsReal entries
    → taken + length entries ≤ len
    → IsFilled len
        (place_all table entries)
        (taken + length entries)
        (λ h. held h ++ under h entries)
unfolding place_all under
place_all-IsFilled len [] table {taken} {held} f real room = record {
  size = f.size;
  in_use = f.in_use ∙ omega arith;
  met = λ h. f.met h ∙ sym (append-nil (held h));
  there = λ h. f.there h ∙ sym (append-nil (held h));
}
place_all-IsFilled len (hp ∷ entries) table {taken} {held} f real room =
    let one = place-IsFilled len table f hp real.0 (omega arith) in
    let rest = place_all-IsFilled len entries _ one real.1 (omega arith) in
    record {
      size = rest.size;
      in_use = rest.in_use ∙ omega arith;
      met = λ h. rest.met h ∙ under_first h hp entries (held h);
      there = λ h. rest.there h ∙ under_first h hp entries (held h);
    }

module _ (len : ℕ) where
  slot-replicate : (n at : ℕ) → slot (replicate n empty_slot) at ≡ empty_slot
  slot-replicate zero at = refl
  slot-replicate (suc n) zero = refl
  slot-replicate (suc n) (suc at) = slot-replicate n at

  empty_walk :
      (n size h at : ℕ)
      → (reads n len (replicate size empty_slot) h at ≡ [])
        × (everywhere n len (replicate size empty_slot) h at ≡ [])
  unfolding reads everywhere
  empty_walk zero size h at = (refl, refl)
  empty_walk (suc n) size h at =
      rw (slot-replicate size at) (refl, (empty_walk n size h (next len at)).1)

empty_used : (n : ℕ) → (used (replicate n empty_slot) ≡ 0) × (length (replicate n empty_slot) ≡ n)
unfolding used
empty_used zero = (refl, refl)
empty_used (suc n) = ((empty_used n).0, ap suc (empty_used n).1)

empty-IsFilled : (len : ℕ) → IsFilled len (replicate len empty_slot) 0 (λ h. [])
empty-IsFilled len = record {
  size = (empty_used len).1;
  in_use = (empty_used len).0;
  met = λ h. (empty_walk len len len h (home len h)).0;
  there = λ h. (empty_walk len len len h (home len h)).1;
}

pub length-split : (i : ℕ) (entries : List CdbHp) → length (split i entries) ≡ count i entries
unfolding split count
length-split i [] = refl
length-split i (hp ∷ entries) = elim (Bool-cases (hp.h % 256 == i)) [
  | inl hit ↦
      rw hit (length-append (split i entries) (hp ∷ []) ∙ omega (arith, length-split i entries))
  | inr miss ↦ rw miss (length-split i entries)
]

-- If no entry of table `i` has the position 0, which marks a free slot, then the table has two slots
-- for each of its entries and as many taken slots as entries; and a walk for any hash, from the slot
-- that the reader begins at, meets the positions under the hash, in the order of the entries, before
-- it comes to a free slot, and meets none behind.
pub table_of-IsFilled :
    (i : ℕ) (entries : List CdbHp)
    → All IsReal (split i entries)
    → IsFilled
        (count i entries + count i entries)
        (table_of i entries)
        (count i entries)
        (λ h. under h (split i entries))
unfolding table_of
table_of-IsFilled i entries real =
    let len = count i entries + count i entries in
    let f =
      place_all-IsFilled len (split i entries) _ (empty-IsFilled len) real
        (omega (arith, length-split i entries)) in
    record {
      size = f.size;
      in_use = omega (arith, f.in_use, length-split i entries);
      met = f.met;
      there = f.there;
    }
