-- ===== src/Compile/Record/ReadBack.antt =====
-- What `rr_finish` of src/vdnsdb.c adds to the database, and what `find` of src/tdlookup.c makes of it.
use geoipdns.Base.{
  ℕ, ◌+◌, Bool, true, false, not, ◌&&◌, ◌||◌, none, some, List, [], ◌∷◌, ◌++◌, length, take, drop,
  ◌==◌, if◌then◌else◌, u32, IsU32, ◌≡◌, refl, sym, ap, ◌∙◌, inl, inr, Bool-cases, arith, append-nil,
  All, Option, length-append,
}
use mathlib.Core.Path.{subst}
use geoipdns.Lookup.Parse.{skip, check_ttd, check_data}
use geoipdns.Compile.Record.{Out, mark_wild, is_wild, finish_key, rr_start, rr_finish}
use geoipdns.Text.{case_lowerb}
use geoipdns.Text.Case.{length-lower}
use geoipdns.Cdb.{byte_equal}
use geoipdns.Cdb.Match.{byte_equal_sound}
use geoipdns.Cdb.Make.{CdbMake, cdb_make_add}
use geoipdns.Cdb.Make.Added.{IsMade, cdb_make_add-IsMade}
use geoipdns.Dns.Name.{IsLabel, IsName, label, wire, lower_labels, map_lower-wire}
use geoipdns.Dns.Domain.{dns_domain_length}
use geoipdns.Dns.Domain.Length.{take-dns_domain_length}
use geoipdns.Compile.Record.Stored.{stored, check_stored, drop_stored, started-stored, stored-IsU32}

-- Whether a name is that of a wildcard: its first label is `*`.
unfoldable pub has_star : List (List ℕ) → Bool
has_star [] = false
has_star (l ∷ ls) = byte_equal l (b'*' ∷ [])

-- The key of a name: the name in lower case, without the `*` of a wildcard.
unfoldable pub stored_key : List (List ℕ) → List ℕ
stored_key [] = wire []
stored_key (l ∷ ls) = wire (lower_labels (if byte_equal l (b'*' ∷ []) then ls else l ∷ ls))

is_wild-wire : (ls : List (List ℕ)) → All IsLabel ls → is_wild (wire ls) ≡ has_star ls
unfolding has_star byte_equal
is_wild-wire [] h = refl
is_wild-wire ([] ∷ ls) h = absurd (omega (arith, h.0.some_bytes))
is_wild-wire ((x ∷ []) ∷ ls) h = refl
is_wild-wire ((x ∷ y ∷ l) ∷ ls) h = ground arith

finish_key-wire :
    (ls : List (List ℕ)) → All IsLabel ls → finish_key (wire ls) ≡ wire (lower_labels ls)
unfolding case_lowerb
finish_key-wire ls h =
    let whole : take (dns_domain_length (wire ls)) (wire ls) ≡ wire ls =
      subst (λ (d : List ℕ). take (dns_domain_length d) d ≡ wire ls) (append-nil (wire ls))
        (take-dns_domain_length ls [] h) in
    ap case_lowerb whole ∙ map_lower-wire ls h

length_lower_wire :
    (ls : List (List ℕ)) → All IsLabel ls → length (wire (lower_labels ls)) ≡ length (wire ls)
length_lower_wire ls h = ap length (sym (map_lower-wire ls h)) ∙ length-lower (wire ls)

finish_key-stored :
    (ls : List (List ℕ))
    → All IsLabel ls
    → finish_key (if has_star ls then drop 2 (wire ls) else wire ls) ≡ stored_key ls
unfolding has_star stored_key
finish_key-stored [] h = finish_key-wire [] h
finish_key-stored (l ∷ ls) h = elim (Bool-cases (byte_equal l (b'*' ∷ []))) [
  | inl star ↦
      let front : drop 2 (wire (l ∷ ls)) ≡ wire ls =
        ap (λ (xs : List ℕ). drop 2 (label xs ++ wire ls)) (byte_equal_sound l (b'*' ∷ []) star) in
      rw (star, front) (finish_key-wire ls h.1)
  | inr plain ↦ rw plain (finish_key-wire (l ∷ ls) h)
]

stored_key-IsU32 : (ls : List (List ℕ)) → IsName ls → IsU32 (length (stored_key ls))
unfolding stored_key
stored_key-IsU32 [] h = omega arith
stored_key-IsU32 (l ∷ ls) h =
    let whole = length_lower_wire (l ∷ ls) h.labels in
    let base = length_lower_wire ls h.labels.1 in
    let longer = length-append l (wire ls) in
    elim (Bool-cases (byte_equal l (b'*' ∷ []))) [
      | inl star ↦ rw star (omega (arith, base, longer, h.at_most_255))
      | inr plain ↦ rw plain (omega (arith, whole, h.at_most_255))
    ]

-- What `rr_finish` adds.
rr_finish-added :
    (owner : List ℕ) (o : Out) {o' : Out}
    → rr_finish owner o ≡ some o'
    → (o'.result ≡ (if is_wild owner then mark_wild o.result else o.result))
      × ((cdb_make_add o.cdb
            (finish_key (if is_wild owner then drop 2 owner else owner))
            o'.result).1
          ≡ true)
      × ((cdb_make_add o.cdb
            (finish_key (if is_wild owner then drop 2 owner else owner))
            o'.result).0
          ≡ o'.cdb)
unfolding rr_finish
rr_finish-added owner o {o'} e =
    let key = finish_key (if is_wild owner then drop 2 owner else owner) in
    let result = if is_wild owner then mark_wild o.result else o.result in
    elim (Bool-cases ((cdb_make_add o.cdb key result).1)) [
      | inl added ↦
          let made : Out = record { cdb = (cdb_make_add o.cdb key result).0; result = result } in
          let same : some made ≡ some o' = rw added at e in
          let out = ap (λ (x : Option Out). elim x [ none ↦ made | some y ↦ y ]) same in
          let is_result : result ≡ o'.result = ap (λ (x : Out). x.result) out in
          (
            sym is_result,
            subst (λ (r : List ℕ). (cdb_make_add o.cdb key r).1 ≡ true) is_result added,
            ap (λ (r : List ℕ). (cdb_make_add o.cdb key r).0) (sym is_result)
                ∙ ap (λ (x : Out). x.cdb) out,
          )
      | inr failed ↦ absurd (ground (arith, failed, e))
    ]

-- A record that is begun by `rr_start`, whatever is added to it then, and that `rr_finish` adds under
-- a well-formed owner, if that succeeds: the database is then that of the records before and of one
-- more, whose key is the owner in lower case, without a `*` at its front, and whose data `check_data`,
-- by which `find` judges what it reads, accepts as follows. They are for a client at the record's
-- location, or at any if it has none, and for a search for wildcards exactly if the owner's first
-- label is `*`. Then they are judged by the time to die and the ttl, which are those of the line, and
-- what was added to the record stands at the position that `find` goes on from.
pub rr_finish-check_data :
    (t0 t1 ttl loc : ℕ) (ttd content : List ℕ) (owner : List (List ℕ))
    (records : List (List ℕ × List ℕ)) (o o1 : Out) {o2 : Out} (clientloc now : ℕ) (flagwild : Bool)
    → length ttd ≡ 8
    → IsU32 loc
    → IsU32 (length content + 19)
    → IsName owner
    → IsMade o1.cdb records
    → o1.result ≡ (rr_start (t0 ∷ t1 ∷ []) ttl ttd loc o).result ++ content
    → rr_finish (wire owner) o1 ≡ some o2
    → IsMade o2.cdb (records ++ ((stored_key owner, o2.result) ∷ []))
      × (check_data clientloc now flagwild o2.result ≡ (
          if (if flagwild then has_star owner else not (has_star owner))
            && (loc == 0 || loc == clientloc)
          then check_ttd now (t0 ∷ t1 ∷ []) (u32 ttl) ttd (if loc == 0 then 15 else 19)
          else skip))
      × (drop (if loc == 0 then 15 else 19) o2.result ≡ content)
rr_finish-check_data t0 t1 ttl loc ttd content owner records o o1 {o2} clientloc now flagwild eight
      fits small name made e1 e2 =
    let (is_result, is_added, is_cdb) = rr_finish-added (wire owner) o1 e2 in
    let wild = has_star owner in
    let is_star = is_wild-wire owner name.labels in
    let is_stored : o2.result ≡ stored t0 t1 ttl loc ttd content eight fits wild =
      is_result
      ∙ ap (λ (r : List ℕ). if is_wild (wire owner) then mark_wild r else r) e1
      ∙ started-stored t0 t1 ttl loc ttd content eight fits (wire owner) o
      ∙ ap (stored t0 t1 ttl loc ttd content eight fits) is_star in
    let is_key : finish_key (if is_wild (wire owner) then drop 2 (wire owner) else wire owner)
        ≡ stored_key owner =
      ap (λ (b : Bool). finish_key (if b then drop 2 (wire owner) else wire owner)) is_star
      ∙ finish_key-stored owner name.labels in
    let long : IsU32 (length o2.result) =
      subst (λ (r : List ℕ). IsU32 (length r)) (sym is_stored)
        (stored-IsU32 t0 t1 ttl loc ttd content eight fits wild small) in
    let added =
      subst (λ (k : List ℕ). (cdb_make_add o1.cdb k o2.result).1 ≡ true) is_key is_added in
    (
      subst (λ (c : CdbMake). IsMade c (records ++ ((stored_key owner, o2.result) ∷ [])))
          (ap (λ (k : List ℕ). (cdb_make_add o1.cdb k o2.result).0) (sym is_key) ∙ is_cdb)
          (cdb_make_add-IsMade o1.cdb records (stored_key owner) o2.result
            (stored_key-IsU32 owner name) long made added),
      ap (λ (r : List ℕ). check_data clientloc now flagwild r) is_stored
          ∙ check_stored t0 t1 ttl loc ttd content eight fits clientloc now flagwild wild,
      ap (λ (r : List ℕ). drop (if loc == 0 then 15 else 19) r) is_stored
          ∙ drop_stored t0 t1 ttl loc ttd content eight fits wild,
    )
