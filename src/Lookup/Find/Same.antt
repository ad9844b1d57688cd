-- ===== src/Lookup/Find/Same.antt =====
-- `find` of src/tdlookup.c leaves the file, the client's location and the time as they are.
use geoipdns.Base.{
  ℕ, zero, suc, ◌^◌, Bool, Option, none, some, List, take, ltb, ◌≡◌, refl, ◌∙◌, inl, inr,
  Bool-cases, Option-cases,
}
use geoipdns.Cdb.{Cdb, Found, error, absent, present, cdb_read}
use geoipdns.Cdb.Same.{IsSame, IsSame-refl, IsSame-trans, cdb_findnext-IsSame}
use geoipdns.Dns.Domain.{dns_domain_length}
use geoipdns.Lookup.Parse.{Verdict, bad, skip, take as taken, check_data}
use geoipdns.Lookup.Find.{
  Look, judge, read_record, after_findnext, find_round, unless_done, find_loop, find,
}

pub record IsClient (s s' : Look) : Type 0 where
  pub same_file : IsSame s.c s'.c
  pub same_loc : s'.clientloc ≡ s.clientloc
  pub same_now : s'.now ≡ s.now

pub IsClient-refl : (s : Look) → IsClient s s
IsClient-refl s = record { same_file = IsSame-refl s.c; same_loc = refl; same_now = refl }

pub IsClient-trans : {s s' s'' : Look} → IsClient s s' → IsClient s' s'' → IsClient s s''
IsClient-trans p q = record {
  same_file = IsSame-trans p.same_file q.same_file;
  same_loc = q.same_loc ∙ p.same_loc;
  same_now = q.same_now ∙ p.same_now;
}

judge-IsClient : (s : Look) (bytes : List ℕ) (v : Verdict) → IsClient s (judge s bytes v).0
unfolding judge
judge-IsClient s bytes bad = IsClient-refl s
judge-IsClient s bytes skip = IsClient-refl s
judge-IsClient s bytes (taken t) = record {
  same_file = IsSame-refl s.c;
  same_loc = refl;
  same_now = refl;
}

read_record-IsClient : (s : Look) (flagwild : Bool) → IsClient s (read_record s flagwild).0
unfolding read_record
read_record-IsClient s flagwild = elim (Bool-cases (ltb 32767 s.c.dlen)) [
  | inl big ↦ rw (big, read_record) (IsClient-refl s)
  | inr small ↦ elim (Option-cases (cdb_read s.c s.c.dlen s.c.dpos)) [
    | inl e ↦ rw (small, e, read_record) (IsClient-refl s)
    | inr (bytes, e) ↦
        rw (small, e, read_record)
          (judge-IsClient s bytes (check_data s.clientloc s.now flagwild bytes))
  ]
]

after_findnext-IsClient :
    (s : Look) (flagwild : Bool) (r : Cdb × Found)
    → IsSame s.c r.0
    → IsClient s (after_findnext s flagwild r).0
unfolding after_findnext
after_findnext-IsClient s flagwild (c, error) same = record {
  same_file = same;
  same_loc = refl;
  same_now = refl;
}
after_findnext-IsClient s flagwild (c, absent) same = record {
  same_file = same;
  same_loc = refl;
  same_now = refl;
}
after_findnext-IsClient s flagwild (c, present) same =
    IsClient-trans {s' = record s { c = c }}
      (record { same_file = same; same_loc = refl; same_now = refl })
      (read_record-IsClient (record s { c = c }) flagwild)

unless_done-IsClient :
    (s : Look) (r : Look × Option Found) (go : Look → Look × Found)
    → IsClient s r.0
    → ((s' : Look) → IsClient s' (go s').0)
    → IsClient s (unless_done r go).0
unfolding unless_done
unless_done-IsClient s (s', some r) go same rest = same
unless_done-IsClient s (s', none) go same rest = IsClient-trans same (rest s')

find_loop-IsClient :
    (fuel : ℕ) (s : Look) (d : List ℕ) (flagwild : Bool)
    → IsClient s (find_loop fuel s d flagwild).0
unfolding find_loop find_round
find_loop-IsClient zero s d flagwild = IsClient-refl s
find_loop-IsClient (suc fuel) s d flagwild =
    unless_done-IsClient s _ _
      (after_findnext-IsClient s flagwild _
        (cdb_findnext-IsSame s.c (take (dns_domain_length d) d)))
      (λ s'. find_loop-IsClient fuel s' d flagwild)

pub find-IsClient : (s : Look) (d : List ℕ) (flagwild : Bool) → IsClient s (find s d flagwild).0
unfolding find
find-IsClient s d flagwild = find_loop-IsClient (2 ^ 32) s d flagwild
