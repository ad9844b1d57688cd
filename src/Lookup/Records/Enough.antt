-- ===== src/Lookup/Records/Enough.antt =====
-- The loop of src/tdlookup.c over the records that `find` finds, and its rounds.
use geoipdns.Base.{
  ℕ, zero, suc, ◌+◌, ◌^◌, ◌<◌, ◌≤◌, Bool, Option, none, some, List, length, take, ◌>>=◌, ◌≡◌, refl,
  sym, ap, Yields, Yields_some, arith,
}
use mathlib.Core.Path.{subst}
use geoipdns.Cdb.{Cdb, Found, error, absent, present}
use geoipdns.Cdb.Search.{IsCursor}
use geoipdns.Dns.Domain.{dns_domain_length}
use geoipdns.Lookup.Find.{Look, find}
use geoipdns.Lookup.Find.Sound.{Finds, find_found, find_enough}
use geoipdns.Lookup.Records.{State, while_found}

-- The cursor is left alone.
abbrev pub SameCursor : State → State → Type 0
SameCursor s s' = s'.look.c ≡ s.look.c

-- What the loop does with a result of `find`.
abbrev after_found : Look × Found → State → (State → Option State) → Option State
after_found (look, error) s go_on = none
after_found (look, absent) s go_on = some (record s { look = look })
after_found (look, present) s go_on = go_on (record s { look = look })

-- The loop without a limit of rounds: what it gives for each way in which it ends.
pub data Loops (d : List ℕ) (flagwild : Bool) (body : State → Option State)
    : State → Option State → Type 0 where
  fails :
      {s : State} {look : Look} → Finds d flagwild s.look look error → Loops d flagwild body s none
  ends :
      {s : State} {look : Look}
      → Finds d flagwild s.look look absent
      → Loops d flagwild body s (some (record s { look = look }))
  body_fails :
      {s : State} {look : Look}
      → Finds d flagwild s.look look present
      → body (record s { look = look }) ≡ none
      → Loops d flagwild body s none
  goes_on :
      {s s1 : State} {look : Look} {o : Option State}
      → Finds d flagwild s.look look present
      → body (record s { look = look }) ≡ some s1
      → Loops d flagwild body s1 o
      → Loops d flagwild body s o

module _ (d : List ℕ) (flagwild : Bool) (body : State → Option State) where
  while_found_step :
      (fuel : ℕ) (s : State) (r : Look × Found)
      → find s.look d flagwild ≡ r
      → while_found (suc fuel) d flagwild body s
        ≡ after_found r s (λ s1. body s1 >>= λ s2. while_found fuel d flagwild body s2)
  unfolding while_found
  while_found_step fuel s (look, error) e =
      let result = ap (λ x. x.1) e in rw (result, while_found) refl
  while_found_step fuel s (look, absent) e =
      let state : (find s.look d flagwild).0 ≡ look = ap (λ x. x.0) e in
      let result = ap (λ x. x.1) e in rw (result, state, while_found) refl
  while_found_step fuel s (look, present) e =
      let state : (find s.look d flagwild).0 ≡ look = ap (λ x. x.0) e in
      let result = ap (λ x. x.1) e in rw (result, state, while_found) refl

  module _ (file : List ℕ) (hd : 0 < length (take (dns_domain_length d) d))
      (keeps : (s : State) → Yields (SameCursor s) (body s)) where
    after_body :
        (s : State) (look : Look) (o : Option State) (f : State → Option State)
        → Finds d flagwild s.look look present
        → body (record s { look = look }) ≡ o
        → ((s2 : State) → s2.look.c ≡ look.c → Loops d flagwild body s2 (f s2))
        → Loops d flagwild body s (o >>= f)
    after_body s look none f found e rest = body_fails found e
    after_body s look (some s2) f found e rest = goes_on found e (
        rest s2 (
          Yields_some (SameCursor (record s { look = look })) (body (record s { look = look }))
            (keeps (record s { look = look })) e))

    after_find :
        (s : State) (r : Look × Found) (f : State → Option State)
        → find s.look d flagwild ≡ r
        → Finds d flagwild s.look r.0 r.1
        → IsCursor s.look.c file
        → ((s2 : State)
            → IsCursor s2.look.c file
            → s.look.c.loop < s2.look.c.loop
            → Loops d flagwild body s2 (f s2))
        → Loops d flagwild body s (after_found r s (λ s1. body s1 >>= f))
    after_find s (look, error) f e returned h rest = fails returned
    after_find s (look, absent) f e returned h rest = ends returned
    after_find s (look, present) f e returned h rest =
        let found = find_found file d flagwild s.look hd h e in
        after_body s look (body (record s { look = look })) f returned refl (λ s2 kept.
          rest s2 (subst (λ (c : Cdb). IsCursor c file) (sym kept) found.3)
            (subst (λ (c : Cdb). s.look.c.loop < c.loop) (sym kept) found.4))

    -- A round for each slot that is left is enough.
    while_found-Loops :
        (fuel : ℕ) (s : State)
        → IsCursor s.look.c file
        → 2 ^ 32 ≤ fuel + s.look.c.loop
        → Loops d flagwild body s (while_found fuel d flagwild body s)
    while_found-Loops zero s h fit = absurd (omega (arith, h.slots, h.in_table))
    while_found-Loops (suc fuel) s h fit =
        let r = find s.look d flagwild in
        subst (Loops d flagwild body s) (sym (while_found_step fuel s r refl)) (
          after_find s r (while_found fuel d flagwild body) refl
            (find_enough file d flagwild s.look hd h) h
            (λ s2 h2 further. while_found-Loops fuel s2 h2 (omega arith)))

-- On a mapped file, with a body that leaves the cursor alone, the loop over the records of a name
-- ends by itself, as the source has it: after finitely many records, for each of which `find` returns
-- it and the body succeeds, `find` fails or finds no more, or the body fails, and the model's result
-- is that of this end. Neither its fuel nor that of `find` ever cuts the loop short.
pub while_found_enough :
    (file d : List ℕ) (flagwild : Bool) (body : State → Option State) (s : State)
    → 0 < length (take (dns_domain_length d) d)
    → ((s1 : State) → Yields (SameCursor s1) (body s1))
    → IsCursor s.look.c file
    → Loops d flagwild body s (while_found (2 ^ 32) d flagwild body s)
while_found_enough file d flagwild body s hd keeps h =
    while_found-Loops d flagwild body file hd keeps (2 ^ 32) s h (omega arith)
