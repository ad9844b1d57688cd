-- ===== src/Lookup/Answer/Zone.antt =====
-- The first loop of `doit` in src/tdlookup.c on a database that src/cdb_make.c has made: the zone that
-- it finds for a name.
use geoipdns.Base.{
  ℕ, zero, suc, ◌^◌, ◌<◌, Bool, true, false, ◌||◌, Option, none, some, List, [], ◌∷◌, length, take,
  if◌then◌else◌, ◌>>=◌, ◌≡◌, refl, ap, ap₂, ◌∙◌, inl, inr, Bool-cases, arith,
}
use mathlib.Core.Path.{subst}
use geoipdns.Cdb.{Cdb, byte_equal, cdb_findstart}
use geoipdns.Cdb.Match.{IsMapped}
use geoipdns.Cdb.Same.{IsSame-IsMapped}
use geoipdns.Cdb.Make.Built.{IsBuilt}
use geoipdns.Cdb.Walk.{datas_of}
use geoipdns.Cdb.Refine.{IsRest, length-IsRest}
use geoipdns.Dns.Domain.{dns_domain_length}
use geoipdns.Lookup.Parse.{Taken}
use geoipdns.Lookup.Find.{Look, find}
use geoipdns.Lookup.Find.Refine.{first_taken, IsFound, find-first_taken}
use geoipdns.Lookup.Find.Same.{IsClient, IsClient-trans, find-IsClient}
use geoipdns.Lookup.Records.{type_ns, type_soa}
use geoipdns.Lookup.Answer.{Flags, at_root, parent, zone_flags, find_zone}
use geoipdns.Lookup.Answer.Taken.{all_taken, has_type, IsFirst, first_taken-IsFirst}

-- The closest ancestor of a name, itself included, with an NS record for the client; and whether it
-- has an SOA record. `none` if there is none, or if a bad record is met before.
unfoldable pub zone_of : ℕ → List (List ℕ × List ℕ) → ℕ → ℕ → List ℕ → Option (List ℕ × Bool)
zone_of zero records clientloc now name = none
zone_of (suc fuel) records clientloc now name =
    let further = zone_of fuel records clientloc now (parent name) in
    elim (all_taken clientloc now false (datas_of (take (dns_domain_length name) name) records)) [
      | none ↦ none
      | some ts ↦
          if has_type type_ns ts
          then some (name, has_type type_soa ts)
          else if at_root name
          then none
          else further
    ]

-- The flags once these records were looked at.
abbrev flags_of : Flags → List Taken → Flags
flags_of f ts = record {
  flagauthoritative = f.flagauthoritative || has_type type_soa ts;
  flagns = f.flagns || has_type type_ns ts;
}

or_assoc : (a b c : Bool) → ((a || b) || c) ≡ (a || (b || c))
or_assoc true b c = refl
or_assoc false b c = refl

or_false : (a : Bool) → a ≡ (a || false)
or_false true = refl
or_false false = refl

no_more_flags : (f : Flags) → f ≡ flags_of f []
unfolding has_type
no_more_flags f =
    ap₂ (λ (soa ns : Bool). (record { flagauthoritative = soa; flagns = ns }))
      (or_false f.flagauthoritative) (or_false f.flagns)

-- What `zone_flags` returns, if all of these are taken.
abbrev IsFlags : Look → Flags → Option (List Taken) → Option (Look × Flags) → Type 0
IsFlags l f none r = r ≡ none
IsFlags l f (some ts) r = (l' : Look) × (r ≡ some (l', flags_of f ts)) × IsClient l l'

module _ (file : List ℕ) (records : List (List ℕ × List ℕ)) (built : IsBuilt file records)
    (control : List ℕ) where
  abbrev key : List ℕ
  key = take (dns_domain_length control) control

  abbrev next_flags : Flags → List ℕ → Flags
  next_flags f type = record {
    flagauthoritative = f.flagauthoritative || byte_equal type type_soa;
    flagns = f.flagns || byte_equal type type_ns;
  }

  -- After a record, what the rest gives.
  flags_further :
      (l l' : Look) (f : Flags) (t : Taken) (all : Option (List Taken)) (r : Option (Look × Flags))
      → IsClient l l'
      → l'.type ≡ t.type
      → IsFlags l' (next_flags f l'.type) all r
      → IsFlags l f (all >>= λ ts. some (t ∷ ts)) r
  unfolding has_type
  flags_further l l' f t none r client type e = e
  flags_further l l' f t (some ts) r client type (l2, e, client2) =
      let same : flags_of (next_flags f l'.type) ts ≡ flags_of f (t ∷ ts) =
        rw
          (
            type,
            or_assoc f.flagauthoritative (byte_equal t.type type_soa) (has_type type_soa ts),
            or_assoc f.flagns (byte_equal t.type type_ns) (has_type type_ns ts),
          )
          refl in
      (l2, e ∙ ap (λ (x : Flags). some (l2, x)) same, IsClient-trans client client2)

  zone_flags_step :
      (fuel : ℕ) (l : Look) (f : Flags) (ds : List (List ℕ))
      (first : Option (Option (List ℕ × Taken × List (List ℕ))))
      → length ds < suc fuel
      → IsFound file records built control false l first (find l control false)
      → IsFirst l.clientloc l.now false ds first
      → ((l' : Look) (f' : Flags) (rest : List (List ℕ))
          → IsRest file records built key l'.c rest
          → length rest < fuel
          → IsFlags l' f'
              (all_taken l'.clientloc l'.now false rest)
              (zone_flags fuel control l' f'))
      → IsFlags l f (all_taken l.clientloc l.now false ds) (zone_flags (suc fuel) control l f)
  unfolding zone_flags
  zone_flags_step fuel l f ds none enough found h go_on = rw (h, found, zone_flags) refl
  zone_flags_step fuel l f ds (some none) enough found h go_on =
      rw (h, found.0, zone_flags)
        (
          (find l control false).0,
          ap (λ (x : Flags). some ((find l control false).0, x)) (no_more_flags f),
          find-IsClient l control false,
        )
  zone_flags_step fuel l f ds (some (some (b, t, rest))) enough
        (e, loc, now, bytes, type, ttl, dpos, left) h go_on =
      let l' = (find l control false).0 in
      let more = go_on l' (next_flags f l'.type) rest left (omega (arith, h.1)) in
      rw (h.0, e, zone_flags)
        (flags_further l l' f t (all_taken l.clientloc l.now false rest) _
          (find-IsClient l control false) type (rw (loc, now) at more))

  zone_flags-IsFlags :
      (fuel : ℕ) (l : Look) (f : Flags) (ds : List (List ℕ))
      → IsRest file records built key l.c ds
      → length ds < fuel
      → IsFlags l f (all_taken l.clientloc l.now false ds) (zone_flags fuel control l f)
  zone_flags-IsFlags zero l f ds rest enough = absurd (omega arith)
  zone_flags-IsFlags (suc fuel) l f ds rest enough =
      zone_flags_step fuel l f ds (first_taken l.clientloc l.now false ds) enough
        (find-first_taken file records built control false l ds rest)
        (first_taken-IsFirst l.clientloc l.now false ds) (zone_flags-IsFlags fuel)

-- What `find_zone` returns, if this is the zone.
abbrev pub IsZone : Look → Option (List ℕ × Bool) → Option (Look × List ℕ × Bool) → Type 0
IsZone l none r = r ≡ none
IsZone l (some (name, soa)) r = (l' : Look) × (r ≡ some (l', name, soa)) × IsClient l l'

IsZone-trans :
    (l l' : Look) (zone : Option (List ℕ × Bool)) (r : Option (Look × List ℕ × Bool))
    → IsClient l l'
    → IsZone l' zone r
    → IsZone l zone r
IsZone-trans l l' none r client h = h
IsZone-trans l l' (some (name, soa)) r client (l2, e, client2) =
    (l2, e, IsClient-trans client client2)

abbrev started : Look → Look
started l = record l { c = cdb_findstart l.c }

findstart_loop : (c : Cdb) → (cdb_findstart c).loop ≡ 0
unfolding cdb_findstart
findstart_loop c = refl

abbrev no_flags : Flags
no_flags = record { flagauthoritative = false; flagns = false }

started-IsClient : (l : Look) → IsClient l (started l)
unfolding cdb_findstart
started-IsClient l = record {
  same_file = record { same_map = refl; same_size = refl };
  same_loc = refl;
  same_now = refl;
}

module _ (file : List ℕ) (records : List (List ℕ × List ℕ)) (built : IsBuilt file records) where
  -- At a name whose records for the client are these.
  here-IsZone :
      (fuel : ℕ) (l : Look) (control : List ℕ) (all : Option (List Taken))
      → all_taken l.clientloc l.now false
          (datas_of (take (dns_domain_length control) control) records)
        ≡ all
      → IsFlags (started l) no_flags all (zone_flags (2 ^ 32) control (started l) no_flags)
      → ((l' : Look)
          → IsClient l l'
          → IsZone l'
              (zone_of fuel records l.clientloc l.now (parent control))
              (find_zone fuel l' (parent control)))
      → IsZone l
          (zone_of (suc fuel) records l.clientloc l.now control)
          (find_zone (suc fuel) l control)
  unfolding zone_of find_zone
  here-IsZone fuel l control none e flags further = rw (e, flags, zone_of, find_zone) refl
  here-IsZone fuel l control (some ts) e (l', flags, client) further =
      let client' = IsClient-trans (started-IsClient l) client in
      elim (Bool-cases (has_type type_ns ts)) [
        | inl ns ↦ rw (e, flags, ns, zone_of, find_zone) (l', refl, client')
        | inr no_ns ↦ elim (Bool-cases (at_root control)) [
          | inl root ↦ rw (e, flags, no_ns, root, zone_of, find_zone) refl
          | inr below ↦
              rw (e, flags, no_ns, below, zone_of, find_zone)
                (IsZone-trans l l' _ _ client' (further l' client'))
        ]
      ]

  -- On a database that was made of a list of records, the first loop of `doit` finds the closest
  -- ancestor of a name, itself included, that has an NS record for the client at this time, and tells
  -- whether it has an SOA record; it fails if there is none within the rounds, or if a record that
  -- cannot be read comes before. The file, the client's location and the time stay.
  pub find_zone-zone_of :
      (fuel : ℕ) (l : Look) (control : List ℕ)
      → IsMapped l.c file
      → IsZone l (zone_of fuel records l.clientloc l.now control) (find_zone fuel l control)
  unfolding zone_of find_zone
  find_zone-zone_of zero l control mapped = refl
  find_zone-zone_of (suc fuel) l control mapped =
      let key = take (dns_domain_length control) control in
      let mapped' = IsSame-IsMapped (started-IsClient l).same_file mapped in
      let rest : IsRest file records built key (started l).c (datas_of key records) =
        inl (mapped', findstart_loop l.c, refl) in
      here-IsZone fuel l control _ refl
        (zone_flags-IsFlags file records built control (2 ^ 32) (started l) no_flags
          (datas_of key records) rest
          (length-IsRest file records built key (started l).c (datas_of key records) rest))
        (λ l' client.
          subst
            (λ (n : ℕ).
              IsZone l' (zone_of fuel records l.clientloc n (parent control))
                (find_zone fuel l' (parent control)))
            client.same_now
            (subst
              (λ (k : ℕ).
                IsZone l' (zone_of fuel records k l'.now (parent control))
                  (find_zone fuel l' (parent control)))
              client.same_loc
              (find_zone-zone_of fuel l' (parent control)
                (IsSame-IsMapped client.same_file mapped))))
