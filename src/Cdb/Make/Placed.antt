-- ===== src/Cdb/Make/Placed.antt =====
-- `place` and `place_all`: an entry goes where a walk for its hash meets it, behind the entries of
-- the hash that were placed before it.
use geoipdns.Base.{
  ℕ, zero, suc, ◌<◌, ◌≤◌, true, false, List, [], ◌∷◌, ◌++◌, length, set, ◌==◌, ◌≡◌, ◌≢◌, refl, ap,
  ◌∙◌, inl, inr, Bool-cases, ==_iff, arith,
}
use geoipdns.Cdb.Make.{CdbHp, place}
use geoipdns.Cdb.Make.Probe.{
  slot, next, distance, reads, everywhere, slot-set_same, slot-set_other, nowhere-reads, same_tail,
  everywhere-set_away,
}

-- Where `place` puts an entry.
pub record IsPlaced (n len : ℕ) (table : List CdbHp) (at : ℕ) (hp : CdbHp) (table' : List CdbHp)
    : Type 0 where
  pub e : ℕ
  pub inside : e < length table
  pub free : (slot table e).p ≡ 0
  pub is_set : table' ≡ set table e hp
  pub behind :
      reads n len table hp.h at ≡ everywhere n len table hp.h at
      → (everywhere n len table' hp.h at ≡ everywhere n len table hp.h at ++ (hp.p ∷ []))
        × (reads n len table' hp.h at ≡ everywhere n len table hp.h at ++ (hp.p ∷ []))

module _ (len : ℕ) (table : List CdbHp) (size : length table ≡ len) (hp : CdbHp)
    (real : (hp.p == 0) ≡ false) where
  self : (hp.h == hp.h) ≡ true
  self = (==_iff hp.h hp.h).1 refl

  -- The first slot of the walk is free.
  here-IsPlaced :
      (n at : ℕ)
      → at < len
      → suc n ≤ len
      → (slot table at).p ≡ 0
      → IsPlaced (suc n) len table at hp (set table at hp)
  unfolding reads everywhere
  here-IsPlaced n at lt short z = record {
    e = at;
    inside = omega (arith, size);
    free = z;
    is_set = refl;
    behind = λ good.
        let here = slot-set_same table at hp (omega (arith, size)) in
        let nothing : everywhere n len table hp.h (next len at) ≡ [] = ground (arith, z, good) in
        let away =
          everywhere-set_away len table at hp (omega (arith, size)) z real hp.h n (next len at) size
            (ground arith) (ground arith) in
        let rest = nowhere-reads n len (set table at hp) hp.h (next len at) (away ∙ nothing) in
        (
          rw (here, real, self, z, away, nothing) refl,
          rw (here, real, self, z, rest, nothing) refl,
        );
  }

  -- It is taken, and the entry goes to a later one.
  later-IsPlaced :
      (n at : ℕ) (table' : List CdbHp)
      → ((slot table at).p == 0) ≡ false
      → IsPlaced n len table (next len at) hp table'
      → IsPlaced (suc n) len table at hp table'
  unfolding reads everywhere
  later-IsPlaced n at table' nz later = record {
    e = later.e;
    inside = later.inside;
    free = later.free;
    is_set = later.is_set;
    behind = λ good.
        let differ : later.e ≢ at = λ same. ground (arith, nz, later.free, same) in
        let here : slot table' at ≡ slot table at =
          ap (λ (t : List CdbHp). slot t at) later.is_set
          ∙ slot-set_other table later.e at hp differ in
        elim (Bool-cases ((slot table at).h == hp.h)) [
          | inl hit ↦
              let rest = later.behind (same_tail (rw (nz, hit) at good)) in
              rw (here, nz, hit)
                (
                  ap (λ (ps : List ℕ). (slot table at).p ∷ ps) rest.0,
                  ap (λ (ps : List ℕ). (slot table at).p ∷ ps) rest.1,
                )
          | inr miss ↦ rw (here, nz, miss) (later.behind (rw (nz, miss) at good))
        ];
  }

  -- The walk meets a free slot, so the entry is placed.
  pub place-IsPlaced :
      (i : ℕ)
      → i < len
      → (slot table i).p ≡ 0
      → (n at : ℕ) → at < len
      → n ≤ len
      → distance len at i < n
      → IsPlaced n len table at hp (place n table at hp)
  unfolding place
  place-IsPlaced i lt_i z zero at lt short reach = absurd (omega arith)
  place-IsPlaced i lt_i z (suc n) at lt short reach = elim (Bool-cases ((slot table at).p == 0)) [
    | inl free ↦ rw (free, place) (here-IsPlaced n at lt short ((==_iff _ 0).0 free))
    | inr taken ↦
        let differ : at ≢ i = λ same. ground (arith, taken, z, same) in
        rw (taken, place)
          (later-IsPlaced n at _ taken (
            rw size (
              place-IsPlaced i lt_i z n (next len at) (ground arith) (omega arith) (ground arith))))
  ]
