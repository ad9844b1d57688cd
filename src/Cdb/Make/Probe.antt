-- ===== src/Cdb/Make/Probe.antt =====
-- The hash tables of src/cdb_make.c as src/cdb.c walks them: what a walk from a slot meets, and what
-- `place` does to it.
use geoipdns.Base.{
  ℕ, zero, suc, ◌+◌, ◌-◌, ◌<◌, ◌≤◌, false, List, [], ◌∷◌, length, get_or, set, leb, ◌==◌,
  if◌then◌else◌, ◌≡◌, ◌≢◌, refl, sym, ap, ◌∙◌, inl, inr, Bool-cases, arith,
}
use native.Mathlib.Decide.{ℕ_discrete}
use geoipdns.Cdb.Make.{CdbHp, empty_slot}

abbrev pub slot : List CdbHp → ℕ → CdbHp
slot table at = get_or table at empty_slot

abbrev pub next : ℕ → ℕ → ℕ
next len at = if at + 1 == len then 0 else at + 1

-- The positions under a hash that a walk of `n` slots meets before an empty slot.
unfoldable pub reads : ℕ → ℕ → List CdbHp → ℕ → ℕ → List ℕ
reads zero len table h at = []
reads (suc n) len table h at =
    let rest = reads n len table h (next len at) in
    if (slot table at).p == 0
    then []
    else if (slot table at).h == h
    then (slot table at).p ∷ rest
    else rest

-- The positions under a hash that it meets at all.
unfoldable pub everywhere : ℕ → ℕ → List CdbHp → ℕ → ℕ → List ℕ
everywhere zero len table h at = []
everywhere (suc n) len table h at =
    let rest = everywhere n len table h (next len at) in
    if (slot table at).p == 0
    then rest
    else if (slot table at).h == h
    then (slot table at).p ∷ rest
    else rest

-- How many steps a walk takes from one slot to another.
abbrev pub distance : ℕ → ℕ → ℕ → ℕ
distance len at e = if leb at e then e - at else len + e - at

pub slot-set_same :
    (table : List CdbHp) (i : ℕ) (hp : CdbHp) → i < length table → slot (set table i hp) i ≡ hp
slot-set_same [] i hp h = absurd (omega arith)
slot-set_same (x ∷ table) zero hp h = refl
slot-set_same (x ∷ table) (suc i) hp h = slot-set_same table i hp (omega arith)

pub slot-set_other :
    (table : List CdbHp) (i j : ℕ) (hp : CdbHp) → i ≢ j → slot (set table i hp) j ≡ slot table j
slot-set_other [] i j hp h = refl
slot-set_other (x ∷ table) zero zero hp h = absurd (h refl)
slot-set_other (x ∷ table) zero (suc j) hp h = refl
slot-set_other (x ∷ table) (suc i) zero hp h = refl
slot-set_other (x ∷ table) (suc i) (suc j) hp h = slot-set_other table i j hp (λ e. h (ap suc e))

pub same_tail : {x : ℕ} {xs ys : List ℕ} → x ∷ xs ≡ x ∷ ys → xs ≡ ys
same_tail e = cc

pub nowhere-reads :
    (n len : ℕ) (table : List CdbHp) (h at : ℕ)
    → everywhere n len table h at ≡ []
    → reads n len table h at ≡ []
unfolding reads everywhere
nowhere-reads zero len table h at e = refl
nowhere-reads (suc n) len table h at e = grind (arith, nowhere-reads n len table h (next len at))

module _ (len : ℕ) (table : List CdbHp) (e : ℕ) (hp : CdbHp) (inside : e < length table)
    (free : (slot table e).p ≡ 0) (real : (hp.p == 0) ≡ false) where
  abbrev filled : List CdbHp
  filled = set table e hp

  filled_here : (at : ℕ) → e ≡ at → (slot filled at ≡ hp) × ((slot table at).p ≡ 0)
  filled_here at same = (
    ap (λ (k : ℕ). slot filled k) (sym same) ∙ slot-set_same table e hp inside,
    ap (λ (k : ℕ). (slot table k).p) (sym same) ∙ free,
  )

  -- An entry of another hash changes nothing.
  pub everywhere-set_other :
      (h : ℕ)
      → (hp.h == h) ≡ false
      → (n at : ℕ) → everywhere n len filled h at ≡ everywhere n len table h at
  unfolding everywhere
  everywhere-set_other h other zero at = refl
  everywhere-set_other h other (suc n) at =
      let rest = everywhere-set_other h other n (next len at) in
      elim (ℕ_discrete e at) [
        | yes same ↦
            let (here, before) = filled_here at same in rw (here, before, real, other, rest) refl
        | no differ ↦ rw (slot-set_other table e at hp differ, rest) refl
      ]

  pub reads-set_other :
      (h : ℕ)
      → (hp.h == h) ≡ false
      → (n at : ℕ) → reads n len table h at ≡ everywhere n len table h at
      → reads n len filled h at ≡ everywhere n len table h at
  unfolding reads everywhere
  reads-set_other h other zero at good = refl
  reads-set_other h other (suc n) at good = elim (ℕ_discrete e at) [
    | yes same ↦
        let (here, before) = filled_here at same in
        let nothing : everywhere n len table h (next len at) ≡ [] = ground (arith, before, good) in
        let rest : reads n len filled h (next len at) ≡ [] =
          nowhere-reads n len filled h (next len at)
            (everywhere-set_other h other n (next len at) ∙ nothing) in
        rw (here, before, real, other, rest, nothing) refl
    | no differ ↦
        let rest = reads-set_other h other n (next len at) in
        rw (slot-set_other table e at hp differ) (elim (Bool-cases ((slot table at).p == 0)) [
          | inl z ↦ rw z (rw z at good)
          | inr nz ↦ elim (Bool-cases ((slot table at).h == h)) [
            | inl hit ↦
                rw (nz, hit)
                  (ap (λ (ps : List ℕ). (slot table at).p ∷ ps)
                    (rest (same_tail (rw (nz, hit) at good))))
            | inr miss ↦ rw (nz, miss) (rest (rw (nz, miss) at good))
          ]
        ])
  ]

  -- A walk that ends before the slot does not meet the entry.
  pub everywhere-set_away :
      (h n at : ℕ)
      → length table ≡ len
      → at < len
      → n ≤ distance len at e
      → everywhere n len filled h at ≡ everywhere n len table h at
  unfolding everywhere
  everywhere-set_away h zero at size lt away = refl
  everywhere-set_away h (suc n) at size lt away =
      let rest = everywhere-set_away h n (next len at) size (ground arith) (ground arith) in
      let differ : e ≢ at = λ same. ground arith in
      rw (slot-set_other table e at hp differ, rest) refl
