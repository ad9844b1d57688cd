-- ===== src/Cdb/Make/Added.antt =====
-- The state of src/cdb_make.c after records were added.
use geoipdns.Base.{
  ℕ, ◌+◌, ◌%◌, Bool, true, false, Option, none, some, List, [], ◌∷◌, ◌++◌, length, length-append,
  ◌==◌, if◌then◌else◌, ltb, u32, IsU32, ◌≡◌, refl, sym, ap, ap₂, ◌∙◌, inl, inr, Bool-cases, arith,
  append_assoc, append-nil, All,
}
use mathlib.Core.Path.{subst}
use geoipdns.Uint.{uint32_pack}
use geoipdns.Uint.RoundTrip.{length-uint32_pack}
use geoipdns.Cdb.Hash.{cdb_hash}
use geoipdns.Cdb.Make.{
  CdbHp, CdbMake, split, posplus, and_posplus, cdb_make_start, cdb_make_addend, cdb_make_addbegin,
  cdb_make_add,
}

-- A record in the file: the lengths of its key and its data, the key, and the data.
abbrev pub packed : List ℕ → List ℕ → List ℕ
packed key content = (uint32_pack (length key) ++ uint32_pack (length content)) ++ (key ++ content)

unfoldable pub image : List (List ℕ × List ℕ) → List ℕ
image [] = []
image ((key, content) ∷ records) = packed key content ++ image records

abbrev pub entry : List ℕ → ℕ → CdbHp
entry key pos = record { h = cdb_hash key; p = pos }

-- The hash and the position of each record, if the first is at `pos`.
unfoldable pub places : ℕ → List (List ℕ × List ℕ) → List CdbHp
places pos [] = []
places pos ((key, content) ∷ records) =
    entry key pos ∷ places (pos + length (packed key content)) records

-- The entries of table `i`.
unfoldable pub in_table : ℕ → List CdbHp → List CdbHp
in_table i [] = []
in_table i (hp ∷ entries) =
    let rest = in_table i entries in if hp.h % 256 == i then hp ∷ rest else rest

-- The state holds these records, in the order in which they were added.
pub record IsMade (c : CdbMake) (records : List (List ℕ × List ℕ)) : Type 0 where
  pub wrote : c.written ≡ image records
  pub at_end : c.pos ≡ 2048 + length (image records)
  pub fits : IsU32 c.pos
  pub counted : c.numentries ≡ u32 (length records)
  pub tables : (i : ℕ) → split i c.entries ≡ in_table i (places 2048 records)

pub length-packed :
    (key content : List ℕ) → length (packed key content) ≡ 8 + length key + length content
length-packed key content = omega (
  arith,
  length-append (uint32_pack (length key) ++ uint32_pack (length content)) (key ++ content),
  length-append (uint32_pack (length key)) (uint32_pack (length content)),
  length-append key content,
  length-uint32_pack (length key),
  length-uint32_pack (length content),
)

pub image-append : (rs ss : List (List ℕ × List ℕ)) → image (rs ++ ss) ≡ image rs ++ image ss
unfolding image
image-append [] ss = refl
image-append ((key, content) ∷ rs) ss =
    ap (λ (bs : List ℕ). packed key content ++ bs) (image-append rs ss)
    ∙ sym (append_assoc (packed key content) (image rs) (image ss))

places-append :
    (pos : ℕ) (rs ss : List (List ℕ × List ℕ))
    → places pos (rs ++ ss) ≡ places pos rs ++ places (pos + length (image rs)) ss
unfolding places image
places-append pos [] ss = ap (λ (k : ℕ). places k ss) (omega arith)
places-append pos ((key, content) ∷ rs) ss =
    ap (λ (es : List CdbHp). entry key pos ∷ es)
      (places-append (pos + length (packed key content)) rs ss
        ∙ ap (λ (k : ℕ). places (pos + length (packed key content)) rs ++ places k ss)
            (omega (arith, length-append (packed key content) (image rs))))

in_table-append :
    (i : ℕ) (xs ys : List CdbHp) → in_table i (xs ++ ys) ≡ in_table i xs ++ in_table i ys
unfolding in_table
in_table-append i [] ys = refl
in_table-append i (hp ∷ xs) ys = elim (Bool-cases (hp.h % 256 == i)) [
  | inl hit ↦ rw hit (ap (λ (es : List CdbHp). hp ∷ es) (in_table-append i xs ys))
  | inr miss ↦ rw miss (in_table-append i xs ys)
]

-- What `posplus` changes, if it succeeds.
pub record IsAhead (c c' : CdbMake) (len : ℕ) : Type 0 where
  pub moved : c'.pos ≡ c.pos + len
  pub in_reach : IsU32 c'.pos
  pub same_written : c'.written ≡ c.written
  pub same_entries : c'.entries ≡ c.entries
  pub same_count : c'.numentries ≡ c.numentries

pub posplus-IsAhead :
    (c : CdbMake) (len : ℕ)
    → IsU32 c.pos
    → IsU32 len
    → (posplus c len).1 ≡ true
    → IsAhead c (posplus c len).0 len
unfolding posplus
posplus-IsAhead c len fits fits' ok = elim (Bool-cases (ltb (u32 (c.pos + len)) len)) [
  | inl wrapped ↦ absurd (ground (arith, wrapped, ok))
  | inr fine ↦
      rw (fine, posplus)
        (record {
          moved = ground (arith, fine);
          in_reach = omega arith;
          same_written = refl;
          same_entries = refl;
          same_count = refl;
        })
]

and_posplus-IsAhead :
    (r : CdbMake × Bool) (len : ℕ)
    → (and_posplus r len).1 ≡ true
    → (r.1 ≡ true) × (IsU32 r.0.pos → IsU32 len → IsAhead r.0 (and_posplus r len).0 len)
unfolding and_posplus
and_posplus-IsAhead (c, false) len ok = absurd (cc)
and_posplus-IsAhead (c, true) len ok = (refl, λ fits fits'. posplus-IsAhead c len fits fits' ok)

pub IsAhead-trans :
    {c c' c'' : CdbMake} {a b : ℕ} → IsAhead c c' a → IsAhead c' c'' b → IsAhead c c'' (a + b)
IsAhead-trans p q = record {
  moved = omega (arith, p.moved, q.moved);
  in_reach = q.in_reach;
  same_written = q.same_written ∙ p.same_written;
  same_entries = q.same_entries ∙ p.same_entries;
  same_count = q.same_count ∙ p.same_count;
}

-- What `cdb_make_add` does to the state, if it succeeds.
cdb_make_add_lem :
    (c : CdbMake) (key content : List ℕ)
    → IsU32 c.pos
    → IsU32 (length key)
    → IsU32 (length content)
    → (cdb_make_add c key content).1 ≡ true
    → IsAhead
        (record {
          written = c.written ++ packed key content;
          entries = entry key c.pos ∷ c.entries;
          numentries = u32 (c.numentries + 1);
          pos = c.pos;
        })
        (cdb_make_add c key content).0
        (8 + length key + length content)
unfolding cdb_make_add cdb_make_addend cdb_make_addbegin
cdb_make_add_lem c key content fits fits_key fits_content ok =
    let c0 : CdbMake = record {
      written =
          (c.written ++ (uint32_pack (length key) ++ uint32_pack (length content)))
          ++ (key ++ content);
      entries = entry key c.pos ∷ c.entries;
      numentries = u32 (c.numentries + 1);
      pos = c.pos;
    } in
    let third = and_posplus-IsAhead (and_posplus (posplus c0 8) (length key)) (length content) ok in
    let second = and_posplus-IsAhead (posplus c0 8) (length key) third.0 in
    let first = posplus-IsAhead c0 8 fits (omega arith) second.0 in
    let two = second.1 first.in_reach fits_key in
    let three = third.1 two.in_reach fits_content in
    let all = IsAhead-trans (IsAhead-trans first two) three in
    record {
      moved = all.moved;
      in_reach = all.in_reach;
      same_written =
          all.same_written
          ∙ append_assoc c.written (uint32_pack (length key) ++ uint32_pack (length content))
              (key ++ content);
      same_entries = all.same_entries;
      same_count = all.same_count;
    }

pub cdb_make_start-IsMade : IsMade cdb_make_start []
unfolding cdb_make_start split in_table places image
cdb_make_start-IsMade = record {
  wrote = refl;
  at_end = omega arith;
  fits = omega arith;
  counted = omega arith;
  tables = λ i. refl;
}

split-entry :
    (c : CdbMake) (records : List (List ℕ × List ℕ)) (key content : List ℕ) (i : ℕ)
    → IsMade c records
    → split i (entry key c.pos ∷ c.entries)
      ≡ in_table i (places 2048 (records ++ ((key, content) ∷ [])))
unfolding split in_table places
split-entry c records key content i made =
    let place_of : places 2048 (records ++ ((key, content) ∷ []))
        ≡ places 2048 records ++ (entry key c.pos ∷ []) =
      places-append 2048 records ((key, content) ∷ [])
      ∙ ap (λ (k : ℕ). places 2048 records ++ (entry key k ∷ [])) (sym made.at_end) in
    rw (place_of, in_table-append i (places 2048 records) (entry key c.pos ∷ []))
      (elim (Bool-cases (cdb_hash key % 256 == i)) [
        | inl hit ↦ rw (hit, made.tables i) refl
        | inr miss ↦ rw (miss, made.tables i) (sym (append-nil (in_table i (places 2048 records))))
      ])

-- `cdb_make_add` keeps the state in order, if it succeeds: what was written are the records so far and
-- then this one, each as the lengths of its key and data and their bytes; `pos` is a `uint32` and is
-- where the next one goes; `numentries` counts them, cut to 32 bits; and the entries of each table are
-- the hashes and positions of the records whose hash falls to it, in the order of adding.
pub cdb_make_add-IsMade :
    (c : CdbMake) (records : List (List ℕ × List ℕ)) (key content : List ℕ)
    → IsU32 (length key)
    → IsU32 (length content)
    → IsMade c records
    → (cdb_make_add c key content).1 ≡ true
    → IsMade (cdb_make_add c key content).0 (records ++ ((key, content) ∷ []))
unfolding split in_table places image
cdb_make_add-IsMade c records key content fits_key fits_content made ok =
    let a = cdb_make_add_lem c key content made.fits fits_key fits_content ok in
    let grown = image-append records ((key, content) ∷ []) in
    let one : image ((key, content) ∷ []) ≡ packed key content = append-nil (packed key content) in
    record {
      wrote = a.same_written ∙ ap₂ (λ (x y : List ℕ). x ++ y) made.wrote (sym one) ∙ sym grown;
      at_end = omega (
        arith,
        a.moved,
        made.at_end,
        ap (λ (bs : List ℕ). length bs) grown,
        length-append (image records) (image ((key, content) ∷ [])),
        ap (λ (bs : List ℕ). length bs) one,
        length-packed key content,
      );
      fits = a.in_reach;
      counted =
          omega (arith, a.same_count, made.counted, length-append records ((key, content) ∷ []));
      tables = λ i.
          ap (λ (es : List CdbHp). split i es) a.same_entries
          ∙ split-entry c records key content i made;
    }

-- The calls of `cdb_make_add` for a list of records, none of which may fail.
unfoldable pub cdb_make_adds : CdbMake → List (List ℕ × List ℕ) → Option CdbMake
cdb_make_adds c [] = some c
cdb_make_adds c ((key, content) ∷ records) = elim ((cdb_make_add c key content).1) [
  | false ↦ none
  | true ↦ cdb_make_adds (cdb_make_add c key content).0 records
]

-- The lengths are `unsigned int`.
abbrev pub IsShort : List ℕ × List ℕ → Type 0
IsShort (key, content) = IsU32 (length key) × IsU32 (length content)

pub cdb_make_adds-IsMade :
    (c : CdbMake) (before records : List (List ℕ × List ℕ)) {c' : CdbMake}
    → IsMade c before
    → All IsShort records
    → cdb_make_adds c records ≡ some c'
    → IsMade c' (before ++ records)
unfolding cdb_make_adds
cdb_make_adds-IsMade c before [] {c'} made short e =
    let same : c ≡ c' = cc in
    subst (λ (x : CdbMake). IsMade x (before ++ [])) same (rw (append-nil before) made)
cdb_make_adds-IsMade c before ((key, content) ∷ records) {c'} made short e =
    elim (Bool-cases ((cdb_make_add c key content).1)) [
      | inl ok ↦
          let one = cdb_make_add-IsMade c before key content short.0.0 short.0.1 made ok in
          rw (sym (append_assoc before ((key, content) ∷ []) records)) (
            cdb_make_adds-IsMade (cdb_make_add c key content).0 (before ++ ((key, content) ∷ []))
              records one short.1 (rw (ok, cdb_make_adds) at e))
      | inr failed ↦ absurd (cc (rw (failed, cdb_make_adds) at e))
    ]
