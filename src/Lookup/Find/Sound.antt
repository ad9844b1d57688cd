-- ===== src/Lookup/Find/Sound.antt =====
-- `find` of src/tdlookup.c on a mapped file: what it returns, and its rounds.
use geoipdns.Base.{
  ℕ, zero, suc, ◌+◌, ◌^◌, ◌<◌, ◌≤◌, Bool, Option, none, some, List, length, take, drop, ltb, ◌≡◌,
  refl, sym, ap, ◌∙◌, inl, inr, Bool-cases, Option-cases, arith, ◌≢◌,
}
use mathlib.Core.Path.{subst}
use native.Mathlib.Decide.{dec_le}
use geoipdns.Cdb.{Cdb, Found, error, absent, present, cdb_read, cdb_findnext}
use geoipdns.Cdb.Match.{cdb_read_lem}
use geoipdns.Cdb.Find.{IsRecord}
use geoipdns.Cdb.Search.{IsCursor, cdb_findnext_lem}
use geoipdns.Dns.Domain.{dns_domain_length}
use geoipdns.Lookup.Parse.{Verdict, bad, skip, take as taken, check_data}
use geoipdns.Lookup.Find.{
  Look, judge, read_record, after_findnext, find_round, unless_done, find_loop, find,
}

-- The record that was found: it stands in the file under `key`, its data are in `record_bytes`, and
-- `check_data` takes it for a client at `clientloc` at the time `now`.
pub record IsTaken (file key : List ℕ) (flagwild : Bool) (s : Look) : Type 0 where
  pub dlen_fits : s.c.dlen ≤ 32767
  pub of_file : IsRecord file key s.c.dpos s.c.dlen
  pub inside : s.c.dpos + s.c.dlen ≤ length file
  pub is_data : s.record_bytes ≡ take s.c.dlen (drop s.c.dpos file)
  pub accepted :
      check_data s.clientloc s.now flagwild s.record_bytes
      ≡ taken (record { type = s.type; ttl = s.ttl; dpos = s.dpos })

-- What a call, or a round of its loop, keeps; `r` is a return, if it makes one.
pub record IsFind (file key : List ℕ) (flagwild : Bool) (s s' : Look) (r : Option Found)
    : Type 0 where
  pub cursor : IsCursor s'.c file
  pub same_loc : s'.clientloc ≡ s.clientloc
  pub same_now : s'.now ≡ s.now
  pub goes_on : r ≡ none → s.c.loop < s'.c.loop
  pub found_next : r ≡ some present → s.c.loop < s'.c.loop
  pub found_taken : r ≡ some present → IsTaken file key flagwild s'

module _ (file key : List ℕ) (flagwild : Bool) (s : Look) (c : Cdb) (h : IsCursor c file) where
  abbrev moved : Look
  moved = record s { c = c }

  stop-IsFind : (f : Found) → f ≢ present → IsFind file key flagwild s moved (some f)
  stop-IsFind f ne = record {
    cursor = h;
    same_loc = refl;
    same_now = refl;
    goes_on = λ e. absurd (cc);
    found_next = λ e. absurd (ne (cc));
    found_taken = λ e. absurd (ne (cc));
  }

  module _ (forward : s.c.loop < c.loop) (found : IsRecord file key c.dpos c.dlen) where
    judge-IsFind :
        (bytes : List ℕ) (v : Verdict)
        → c.dlen ≤ 32767
        → c.dpos + c.dlen ≤ length file
        → bytes ≡ take c.dlen (drop c.dpos file)
        → check_data s.clientloc s.now flagwild bytes ≡ v
        → IsFind file key flagwild s (judge moved bytes v).0 (judge moved bytes v).1
    unfolding judge
    judge-IsFind bytes bad fit inside e ev = stop-IsFind error (λ x. cc)
    judge-IsFind bytes skip fit inside e ev = record {
      cursor = h;
      same_loc = refl;
      same_now = refl;
      goes_on = λ x. forward;
      found_next = λ x. forward;
      found_taken = λ x. absurd (cc);
    }
    judge-IsFind bytes (taken t) fit inside e ev = record {
      cursor = h;
      same_loc = refl;
      same_now = refl;
      goes_on = λ x. forward;
      found_next = λ x. forward;
      found_taken = λ x. record {
        dlen_fits = fit;
        of_file = found;
        inside = inside;
        is_data = e;
        accepted = ev;
      };
    }

    read_record-IsFind :
        IsFind file key flagwild s (read_record moved flagwild).0 (read_record moved flagwild).1
    unfolding read_record
    read_record-IsFind = elim (Bool-cases (ltb 32767 c.dlen)) [
      | inl big ↦ rw big (stop-IsFind error (λ x. cc))
      | inr small ↦ elim (Option-cases (cdb_read c c.dlen c.dpos)) [
        | inl e ↦ rw (small, e, read_record) (stop-IsFind error (λ x. cc))
        | inr (bytes, e) ↦
            rw (small, e, read_record)
              (elim (dec_le (c.dpos + c.dlen) (length file)) [
                | yes p ↦
                    judge-IsFind bytes (check_data s.clientloc s.now flagwild bytes) (ground arith)
                      p (cc (e, (cdb_read_lem c c.dlen c.dpos h.mapped).0 p)) refl
                | no p ↦ absurd (cc (e, (cdb_read_lem c c.dlen c.dpos h.mapped).1 (omega arith)))
              ])
      ]
    ]

-- The calls of `find` that return, without a limit of rounds: the first round returns, or it ends in
-- a `continue` and the loop returns from the state that it leaves.
pub data Finds (d : List ℕ) (flagwild : Bool) : Look → Look → Found → Type 0 where
  returns :
      {s s' : Look} {f : Found} → find_round s d flagwild ≡ (s', some f) → Finds d flagwild s s' f
  continues :
      {s s1 s' : Look} {f : Found}
      → find_round s d flagwild ≡ (s1, none)
      → Finds d flagwild s1 s' f
      → Finds d flagwild s s' f

module _ (file d : List ℕ) (flagwild : Bool) (hd : 0 < length (take (dns_domain_length d) d)) where
  abbrev key : List ℕ
  key = take (dns_domain_length d) d

  after_findnext-IsFind :
      (s : Look) (r : Cdb × Found)
      → IsCursor r.0 file
      → (r.1 ≡ present → IsRecord file key r.0.dpos r.0.dlen × (s.c.loop < r.0.loop))
      → IsFind file key flagwild s (after_findnext s flagwild r).0 (after_findnext s flagwild r).1
  unfolding after_findnext
  after_findnext-IsFind s (c, error) h found = stop-IsFind file key flagwild s c h error (λ x. cc)
  after_findnext-IsFind s (c, absent) h found = stop-IsFind file key flagwild s c h absent (λ x. cc)
  after_findnext-IsFind s (c, present) h found =
      let f = found refl in read_record-IsFind file key flagwild s c h f.1 f.0

  find_round-IsFind :
      (s : Look)
      → IsCursor s.c file
      → IsFind file key flagwild s (find_round s d flagwild).0 (find_round s d flagwild).1
  unfolding find_round
  find_round-IsFind s h =
      let f = cdb_findnext_lem s.c key hd h in
      after_findnext-IsFind s (cdb_findnext s.c key) f.0 f.1

  -- A return after a `continue`.
  later-IsFind :
      (s s' s2 : Look) (f : Option Found)
      → IsFind file key flagwild s s' none
      → IsFind file key flagwild s' s2 f
      → IsFind file key flagwild s s2 f
  later-IsFind s s' s2 f a b = record {
    cursor = b.cursor;
    same_loc = b.same_loc ∙ a.same_loc;
    same_now = b.same_now ∙ a.same_now;
    goes_on = λ e. omega (arith, a.goes_on refl, b.goes_on e);
    found_next = λ e. omega (arith, a.goes_on refl, b.found_next e);
    found_taken = b.found_taken;
  }

  unless_done-IsFind :
      (s : Look) (r : Look × Option Found) (go : Look → Look × Found)
      → IsFind file key flagwild s r.0 r.1
      → (r.1 ≡ none → IsFind file key flagwild r.0 (go r.0).0 (some (go r.0).1))
      → IsFind file key flagwild s (unless_done r go).0 (some (unless_done r go).1)
  unfolding unless_done
  unless_done-IsFind s (s', some f) go a b = a
  unless_done-IsFind s (s', none) go a b = later-IsFind s s' (go s').0 (some (go s').1) a (b refl)

  find_loop-IsFind :
      (fuel : ℕ) (s : Look)
      → IsCursor s.c file
      → IsFind file key flagwild s
          (find_loop fuel s d flagwild).0
          (some (find_loop fuel s d flagwild).1)
  unfolding find_loop
  find_loop-IsFind zero s h = stop-IsFind file key flagwild s s.c h error (λ x. cc)
  find_loop-IsFind (suc fuel) s h =
      let a = find_round-IsFind s h in
      unless_done-IsFind s (find_round s d flagwild) (λ s'. find_loop fuel s' d flagwild) a
        (λ e. find_loop-IsFind fuel (find_round s d flagwild).0 a.cursor)

  after_round :
      (s : Look) (r : Look × Option Found) (go : Look → Look × Found)
      → find_round s d flagwild ≡ r
      → (r.1 ≡ none → Finds d flagwild r.0 (go r.0).0 (go r.0).1)
      → Finds d flagwild s (unless_done r go).0 (unless_done r go).1
  unfolding unless_done
  after_round s (s', some f) go e rest = returns e
  after_round s (s', none) go e rest = continues e (rest refl)

  -- A round for each slot that is left is enough.
  find_loop-Finds :
      (fuel : ℕ) (s : Look)
      → IsCursor s.c file
      → 2 ^ 32 ≤ fuel + s.c.loop
      → Finds d flagwild s (find_loop fuel s d flagwild).0 (find_loop fuel s d flagwild).1
  unfolding find_loop
  find_loop-Finds zero s h fit = absurd (omega (arith, h.slots, h.in_table))
  find_loop-Finds (suc fuel) s h fit =
      let a = find_round-IsFind s h in
      after_round s (find_round s d flagwild) (λ s'. find_loop fuel s' d flagwild) refl
        (λ e.
          find_loop-Finds fuel (find_round s d flagwild).0 a.cursor (omega (arith, a.goes_on e)))

-- On a mapped file, a record that `find` finds stands in the file under the name, `find` has read
-- its data, and `check_data` takes it: it is one for this client, at this time and of the asked kind,
-- wildcard or not. The client's location and the time are as before, and the cursor, which is over
-- the file, has moved on.
pub find_found :
    (file d : List ℕ) (flagwild : Bool) (s : Look) {s' : Look}
    → 0 < length (take (dns_domain_length d) d)
    → IsCursor s.c file
    → find s d flagwild ≡ (s', present)
    → IsTaken file (take (dns_domain_length d) d) flagwild s'
      × (s'.clientloc ≡ s.clientloc)
      × (s'.now ≡ s.now)
      × IsCursor s'.c file
      × (s.c.loop < s'.c.loop)
unfolding find
find_found file d flagwild s {s'} hd h e =
    let r = find_loop-IsFind file d flagwild hd (2 ^ 32) s h in
    let state : (find s d flagwild).0 ≡ s' = ap (λ x. x.0) e in
    let result = ap (λ x. some x.1) e in
    (
      subst (λ x. IsTaken file (take (dns_domain_length d) d) flagwild x) state
          (r.found_taken result),
      sym (ap (λ x. x.clientloc) state) ∙ r.same_loc,
      sym (ap (λ x. x.now) state) ∙ r.same_now,
      subst (λ (x : Look). IsCursor x.c file) state r.cursor,
      subst (λ (x : Look). s.c.loop < x.c.loop) state (r.found_next result),
    )

-- On a mapped file, `find` returns by its own returns: after finitely many rounds that end in a
-- `continue`, each from where the one before it stopped, there is a round that returns, and the state
-- and the result of that round are those of the model. The fuel never cuts the loop short.
pub find_enough :
    (file d : List ℕ) (flagwild : Bool) (s : Look)
    → 0 < length (take (dns_domain_length d) d)
    → IsCursor s.c file
    → Finds d flagwild s (find s d flagwild).0 (find s d flagwild).1
unfolding find
find_enough file d flagwild s hd h = find_loop-Finds file d flagwild hd (2 ^ 32) s h (omega arith)
