-- ===== src/Lookup/Find/Refine.antt =====
-- `find` of src/tdlookup.c on a database that src/cdb_make.c has made.
use geoipdns.Base.{
  ℕ, zero, suc, ◌^◌, ◌<◌, Bool, Option, none, some, List, [], ◌∷◌, length, take, ltb, if◌then◌else◌,
  ◌≡◌, refl, sym, ◌∙◌, inl, inr, Bool-cases, arith,
}
use mathlib.Core.Path.{subst}
use geoipdns.Cdb.{Cdb, Found, error, absent, present, cdb_read, cdb_findnext}
use geoipdns.Cdb.Make.Built.{IsBuilt}
use geoipdns.Cdb.Refine.{IsRest, IsRest-nil, length-IsRest, IsRest-cons}
use geoipdns.Dns.Domain.{dns_domain_length}
use geoipdns.Lookup.Parse.{Taken, Verdict, bad, skip, take as taken, check_data}
use geoipdns.Lookup.Find.{
  Look, judge, read_record, after_findnext, find_round, unless_done, find_loop, find,
}

-- The first of the data that is taken, and the data behind it: `none` if one before it is bad or too
-- long, and `some none` if there is none.
unfoldable pub first_taken :
    ℕ → ℕ → Bool → List (List ℕ) → Option (Option (List ℕ × Taken × List (List ℕ)))
first_taken clientloc now flagwild [] = some none
first_taken clientloc now flagwild (d ∷ ds) =
    let rest = first_taken clientloc now flagwild ds in
    if ltb 32767 (length d) then none else elim (check_data clientloc now flagwild d) [
      | bad ↦ none
      | skip ↦ rest
      | taken t ↦ some (some (d, t, ds))
    ]

module _ (file : List ℕ) (records : List (List ℕ × List ℕ)) (built : IsBuilt file records)
    (d : List ℕ) (flagwild : Bool) where
  abbrev key : List ℕ
  key = take (dns_domain_length d) d

  -- What `find` returns, if this is the first that is taken of the data that are left.
  abbrev pub IsFound :
      Look → Option (Option (List ℕ × Taken × List (List ℕ))) → Look × Found → Type 0
  IsFound s none r = r.1 ≡ error
  IsFound s (some none) r = (r.1 ≡ absent) × (r.0.clientloc ≡ s.clientloc) × (r.0.now ≡ s.now)
  IsFound s (some (some (bytes, t, rest))) r =
      (r.1 ≡ present)
      × (r.0.clientloc ≡ s.clientloc)
      × (r.0.now ≡ s.now)
      × (r.0.record_bytes ≡ bytes)
      × (r.0.type ≡ t.type)
      × (r.0.ttl ≡ t.ttl)
      × (r.0.dpos ≡ t.dpos)
      × IsRest file records built key r.0.c rest

  after_present :
      (s : Look) (r : Cdb × Found)
      → r.1 ≡ present
      → after_findnext s flagwild r ≡ read_record (record s { c = r.0 }) flagwild
  unfolding after_findnext
  after_present s (c, error) e = absurd (cc)
  after_present s (c, absent) e = absurd (cc)
  after_present s (c, present) e = refl

  after_absent :
      (s : Look) (r : Cdb × Found)
      → r.1 ≡ absent
      → after_findnext s flagwild r ≡ (record s { c = r.0 }, some absent)
  unfolding after_findnext
  after_absent s (c, error) e = absurd (cc)
  after_absent s (c, absent) e = refl
  after_absent s (c, present) e = absurd (cc)

  read_record_lem :
      (s : Look) (bytes : List ℕ)
      → s.c.dlen ≡ length bytes
      → cdb_read s.c s.c.dlen s.c.dpos ≡ some bytes
      → read_record s flagwild ≡ (
          if ltb 32767 (length bytes)
          then (s, some error)
          else judge s bytes (check_data s.clientloc s.now flagwild bytes))
  unfolding read_record
  read_record_lem s bytes size read = rw (read, size, read_record) refl

  -- The state behind a call of `cdb_findnext`.
  abbrev moved : Look → Look
  moved s = record s { c = (cdb_findnext s.c key).0 }

  -- A round that finds a record judges its data.
  find_round_cons :
      (s : Look) (bytes : List ℕ) (ds : List (List ℕ))
      → IsRest file records built key s.c (bytes ∷ ds)
      → find_round s d flagwild ≡ (
          if ltb 32767 (length bytes)
          then (moved s, some error)
          else judge (moved s) bytes (check_data s.clientloc s.now flagwild bytes))
  unfolding find_round
  find_round_cons s bytes ds rest =
      let (e, read, size, left) = IsRest-cons file records built key s.c bytes ds rest in
      after_present s (cdb_findnext s.c key) e ∙ read_record_lem (moved s) bytes size read

  find_round_nil :
      (s : Look)
      → IsRest file records built key s.c []
      → find_round s d flagwild ≡ (moved s, some absent)
  unfolding find_round
  find_round_nil s rest =
      after_absent s (cdb_findnext s.c key) (IsRest-nil file records built key s.c rest)

  -- What the loop returns on data that begin with these, of which the verdict is known.
  find_loop_judged :
      (fuel : ℕ) (s : Look) (bytes : List ℕ) (ds : List (List ℕ)) (v : Verdict)
      → IsRest file records built key (moved s).c ds
      → IsFound
          (moved s)
          (first_taken s.clientloc s.now flagwild ds)
          (find_loop fuel (moved s) d flagwild)
      → IsFound s
          (elim v [
            | bad ↦ none
            | skip ↦ first_taken s.clientloc s.now flagwild ds
            | taken t ↦ some (some (bytes, t, ds))
          ])
          (unless_done (judge (moved s) bytes v) (λ s'. find_loop fuel s' d flagwild))
  unfolding judge unless_done
  find_loop_judged fuel s bytes ds bad left go_on = refl
  find_loop_judged fuel s bytes ds skip left go_on =
      again (first_taken s.clientloc s.now flagwild ds) go_on
    where
      again :
          (f : Option (Option (List ℕ × Taken × List (List ℕ))))
          → IsFound (moved s) f (find_loop fuel (moved s) d flagwild)
          → IsFound s f (find_loop fuel (moved s) d flagwild)
      again none h = h
      again (some none) h = h
      again (some (some (b, t, r))) h = h
  find_loop_judged fuel s bytes ds (taken t) left go_on =
      (refl, refl, refl, refl, refl, refl, refl, left)

  find_loop-first_taken :
      (fuel : ℕ) (s : Look) (ds : List (List ℕ))
      → IsRest file records built key s.c ds
      → length ds < fuel
      → IsFound s (first_taken s.clientloc s.now flagwild ds) (find_loop fuel s d flagwild)
  unfolding find_loop first_taken unless_done
  find_loop-first_taken zero s ds rest enough = absurd (omega arith)
  find_loop-first_taken (suc fuel) s [] rest enough =
      subst
        (λ (r : Look × Option Found).
          IsFound s (some none) (unless_done r (λ s'. find_loop fuel s' d flagwild)))
        (sym (find_round_nil s rest)) (refl, refl, refl)
  find_loop-first_taken (suc fuel) s (bytes ∷ ds) rest enough =
      let (e, read, size, left) = IsRest-cons file records built key s.c bytes ds rest in
      let go_on = find_loop-first_taken fuel (moved s) ds left (omega arith) in
      rw (find_round_cons s bytes ds rest) (elim (Bool-cases (ltb 32767 (length bytes))) [
        | inl long ↦ rw (long, unless_done) refl
        | inr short ↦ rw short (
            find_loop_judged fuel s bytes ds (check_data s.clientloc s.now flagwild bytes) left
              go_on)
      ])

  -- On a database that was made of a list of records, `find` returns the first of the data that are left
  -- under the name that `check_data` takes, with its type, its ttl and the place of what follows, and
  -- goes on behind it at the next call; it returns 0 if none is taken, and -1 if one before it is bad or
  -- longer than 32767 bytes. The client's location and the time stay where it
  -- returns 0 or 1.
  pub find-first_taken :
      (s : Look) (ds : List (List ℕ))
      → IsRest file records built key s.c ds
      → IsFound s (first_taken s.clientloc s.now flagwild ds) (find s d flagwild)
  unfolding find
  find-first_taken s ds rest =
      find_loop-first_taken (2 ^ 32) s ds rest (length-IsRest file records built key s.c ds rest)
