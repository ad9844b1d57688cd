-- ===== src/Compile/Record/Stored.antt =====
-- A record that src/vdnsdb.c has built, as `check_data` reads it in `find` of src/tdlookup.c.
use geoipdns.Base.{
  ℕ, ◌+◌, ◌-◌, Bool, true, false, not, ◌&&◌, ◌||◌, some, ◌≤◌, List, [], ◌∷◌, ◌++◌, length, take,
  drop, ◌==◌, if◌then◌else◌, u32, IsU32, ◌≡◌, refl, sym, ap, ◌∙◌, inl, inr, Bool-cases, arith,
  append_assoc, length-append, take-append, drop-append,
}
use mathlib.Core.Path.{subst}
use geoipdns.Uint.{uint32_pack, uint32_pack_big}
use geoipdns.Uint.RoundTrip.{uint32_unpack-pack, length-uint32_pack, length-uint32_pack_big}
use geoipdns.Dns.Packet.{dns_packet_copy}
use geoipdns.Dns.Packet.Copy.{dns_packet_copy_lem}
use geoipdns.Lookup.Parse.{Verdict, skip, check_ttd, check_wild, check_location, check_data}
use geoipdns.Compile.Record.{Out, mark_wild, is_wild, rr_start}

-- A part of a buffer is copied whole.
copy_part :
    (xs ys zs : List ℕ) (pos n : ℕ)
    → pos ≡ length xs
    → n ≡ length ys
    → dns_packet_copy (xs ++ (ys ++ zs)) (length (xs ++ (ys ++ zs))) pos n ≡ some (ys, pos + n)
copy_part xs ys zs pos n hp hn =
    let buf = xs ++ (ys ++ zs) in
    let total : length buf ≡ length xs + (length ys + length zs) =
      length-append xs (ys ++ zs) ∙ ap (λ (k : ℕ). length xs + k) (length-append ys zs) in
    let part : take n (drop pos buf) ≡ ys =
      rw (hp, hn, drop-append xs (ys ++ zs)) (take-append ys zs) in
    dns_packet_copy_lem buf (length buf) pos n (omega arith) (omega (arith, total))
    ∙ ground (arith, total, part)

-- The mark of a record, and its location if it has one.
abbrev pub mark : Bool → ℕ → ℕ
mark wild loc = if loc == 0 then (if wild then b'*' else b'=') else (if wild then b'+' else b'>')

abbrev pub loc_bytes : ℕ → List ℕ
loc_bytes loc = if loc == 0 then [] else uint32_pack loc

and_true {ℓ} :
    {A : Type ℓ} (test : Bool) (x y : A) → (if test && true then x else y) ≡ (if test then x else y)
and_true true x y = refl
and_true false x y = refl

and_false {ℓ} : {A : Type ℓ} (test : Bool) (x y : A) → (if test && false then x else y) ≡ y
and_false true x y = refl
and_false false x y = refl

module _ (t0 t1 ttl loc : ℕ) (ttd content : List ℕ) (eight : length ttd ≡ 8)
    (fits : IsU32 loc) where
  abbrev pub behind : List ℕ
  behind = uint32_pack_big (u32 ttl) ++ (ttd ++ content)

  abbrev pub stored : Bool → List ℕ
  stored wild = t0 ∷ t1 ∷ mark wild loc ∷ (loc_bytes loc ++ behind)

  -- Behind the location: the ttl and the time to die.
  check_stored_wild :
      (now : ℕ) (flagwild : Bool) (front type : List ℕ) (ch : ℕ)
      → check_wild now flagwild (front ++ behind) type ch (length front) ≡ (
          if (if flagwild then ch == b'*' else not (ch == b'*'))
          then check_ttd now type (u32 ttl) ttd (length front + 12)
          else skip)
  unfolding check_wild
  check_stored_wild now flagwild front type ch =
      let packed = uint32_pack_big (u32 ttl) in
      let n = length (front ++ behind) in
      let copy_ttl : dns_packet_copy (front ++ behind) n (length front) 4
          ≡ some (packed, length front + 4) =
        copy_part front packed (ttd ++ content) (length front) 4 refl
          (sym (length-uint32_pack_big (u32 ttl))) in
      let joined : (front ++ packed) ++ (ttd ++ content) ≡ front ++ behind =
        append_assoc front packed (ttd ++ content) in
      let copy_ttd : dns_packet_copy (front ++ behind) n (length front + 4) 8
          ≡ some (ttd, length front + 12) =
        subst
          (λ (buf : List ℕ).
            dns_packet_copy buf (length buf) (length front + 4) 8 ≡ some (ttd, length front + 12))
          joined
          (copy_part (front ++ packed) ttd content (length front + 4) 8
              (omega (arith, length-append front packed, length-uint32_pack_big (u32 ttl)))
              (sym eight)
            ∙ ap (λ (k : ℕ). some (ttd, k)) (omega arith)) in
      let back = (uint32_unpack-pack (u32 ttl) (omega arith)).1 in
      elim (Bool-cases (if flagwild then ch == b'*' else not (ch == b'*'))) [
        | inl kind ↦ rw (kind, copy_ttl, copy_ttd, back) refl
        | inr other ↦ rw other refl
      ]

  abbrev pub expected : ℕ → ℕ → Bool → Bool → Verdict
  expected clientloc now flagwild wild =
      if (if flagwild then wild else not wild) && (loc == 0 || loc == clientloc)
      then check_ttd now (t0 ∷ t1 ∷ []) (u32 ttl) ttd (if loc == 0 then 15 else 19)
      else skip

  -- A record without a location.
  check_anywhere :
      (clientloc now : ℕ) (flagwild wild : Bool)
      → (loc == 0) ≡ true
      → check_location clientloc now flagwild (stored wild) (t0 ∷ t1 ∷ []) (mark wild loc) 3
        ≡ expected clientloc now flagwild wild
  unfolding check_location
  check_anywhere clientloc now flagwild true z = rw z (
      check_stored_wild now flagwild (t0 ∷ t1 ∷ b'*' ∷ []) (t0 ∷ t1 ∷ []) b'*'
      ∙ sym (and_true (if flagwild then true else false) _ skip))
  check_anywhere clientloc now flagwild false z = rw z (
      check_stored_wild now flagwild (t0 ∷ t1 ∷ b'=' ∷ []) (t0 ∷ t1 ∷ []) b'='
      ∙ sym (and_true (if flagwild then false else true) _ skip))

  abbrev packed_loc : List ℕ
  packed_loc = uint32_pack loc

  copy_loc :
      (ch : ℕ)
      → dns_packet_copy
          (t0 ∷ t1 ∷ ch ∷ (packed_loc ++ behind))
          (length (t0 ∷ t1 ∷ ch ∷ (packed_loc ++ behind)))
          3
          4
        ≡ some (packed_loc, 7)
  copy_loc ch =
      copy_part (t0 ∷ t1 ∷ ch ∷ []) packed_loc behind 3 4 refl (sym (length-uint32_pack loc))

  -- A record with a location, once its mark is read.
  check_here :
      (clientloc now : ℕ) (flagwild wild : Bool)
      → (loc == 0) ≡ false
      → check_wild now flagwild
          (t0 ∷ t1 ∷ mark wild loc ∷ (packed_loc ++ behind))
          (t0 ∷ t1 ∷ [])
          (mark wild loc - 1)
          7
        ≡ (if (if flagwild then wild else not wild)
            then check_ttd now (t0 ∷ t1 ∷ []) (u32 ttl) ttd 19
            else skip)
  unfolding uint32_pack
  check_here clientloc now flagwild true nz =
      rw nz (check_stored_wild now flagwild (t0 ∷ t1 ∷ b'+' ∷ packed_loc) (t0 ∷ t1 ∷ []) b'*')
  check_here clientloc now flagwild false nz =
      rw nz (check_stored_wild now flagwild (t0 ∷ t1 ∷ b'>' ∷ packed_loc) (t0 ∷ t1 ∷ []) b'=')

  check_somewhere :
      (clientloc now : ℕ) (flagwild wild : Bool)
      → (loc == 0) ≡ false
      → check_location clientloc now flagwild (stored wild) (t0 ∷ t1 ∷ []) (mark wild loc) 3
        ≡ expected clientloc now flagwild wild
  unfolding check_location
  check_somewhere clientloc now flagwild true nz =
      let here = check_here clientloc now flagwild true nz in
      let back = (uint32_unpack-pack loc fits).0 in
      elim (Bool-cases (loc == clientloc)) [
        | inl same ↦
            rw (nz, copy_loc b'+', back, same)
              (rw nz at here ∙ sym (and_true (if flagwild then true else false) _ skip))
        | inr other ↦
            rw (nz, copy_loc b'+', back, other)
              (sym (and_false (if flagwild then true else false) _ skip))
      ]
  check_somewhere clientloc now flagwild false nz =
      let here = check_here clientloc now flagwild false nz in
      let back = (uint32_unpack-pack loc fits).0 in
      elim (Bool-cases (loc == clientloc)) [
        | inl same ↦
            rw (nz, copy_loc b'>', back, same)
              (rw nz at here ∙ sym (and_true (if flagwild then false else true) _ skip))
        | inr other ↦
            rw (nz, copy_loc b'>', back, other)
              (sym (and_false (if flagwild then false else true) _ skip))
      ]

  pub check_stored :
      (clientloc now : ℕ) (flagwild wild : Bool)
      → check_data clientloc now flagwild (stored wild) ≡ expected clientloc now flagwild wild
  unfolding check_data
  check_stored clientloc now flagwild wild =
      let tail = loc_bytes loc ++ behind in
      let copy_type = copy_part [] (t0 ∷ t1 ∷ []) (mark wild loc ∷ tail) 0 2 refl refl in
      let copy_mark = copy_part (t0 ∷ t1 ∷ []) (mark wild loc ∷ []) tail 2 1 refl refl in
      rw (copy_type, copy_mark)
        (elim (Bool-cases (loc == 0)) [
          | inl z ↦ check_anywhere clientloc now flagwild wild z
          | inr nz ↦ check_somewhere clientloc now flagwild wild nz
        ])

  pub drop_stored : (wild : Bool) → drop (if loc == 0 then 15 else 19) (stored wild) ≡ content
  unfolding uint32_pack uint32_pack_big
  drop_stored wild =
      let rest : drop 8 (ttd ++ content) ≡ content =
        subst (λ (k : ℕ). drop k (ttd ++ content) ≡ content) eight (drop-append ttd content) in
      elim (Bool-cases (loc == 0)) [ inl z ↦ rw z rest | inr nz ↦ rw nz rest ]

  pub started-stored :
      (owner : List ℕ) (o : Out)
      → (if is_wild owner
          then mark_wild ((rr_start (t0 ∷ t1 ∷ []) ttl ttd loc o).result ++ content)
          else (rr_start (t0 ∷ t1 ∷ []) ttl ttd loc o).result ++ content)
        ≡ stored (is_wild owner)
  unfolding rr_start uint32_pack uint32_pack_big
  started-stored owner o = elim (Bool-cases (loc == 0)) [
    | inl z ↦ elim (Bool-cases (is_wild owner)) [
      | inl wild ↦ rw (z, wild) refl
      | inr plain ↦ rw (z, plain) refl
    ]
    | inr nz ↦ elim (Bool-cases (is_wild owner)) [
      | inl wild ↦ rw (nz, wild) refl
      | inr plain ↦ rw (nz, plain) refl
    ]
  ]

length-loc_bytes : (loc : ℕ) → length (loc_bytes loc) ≤ 4
length-loc_bytes loc = elim (Bool-cases (loc == 0)) [
  | inl z ↦ rw z (omega arith)
  | inr nz ↦ rw nz (omega (arith, length-uint32_pack loc))
]

-- The length of a stored record.
pub stored-IsU32 :
    (t0 t1 ttl loc : ℕ) (ttd content : List ℕ) (eight : length ttd ≡ 8) (fits : IsU32 loc)
    (wild : Bool)
    → IsU32 (length content + 19)
    → IsU32 (length (stored t0 t1 ttl loc ttd content eight fits wild))
stored-IsU32 t0 t1 ttl loc ttd content eight fits wild small =
    let front = length-append (loc_bytes loc) (uint32_pack_big (u32 ttl) ++ (ttd ++ content)) in
    let four = length-uint32_pack_big (u32 ttl) in
    let rest = length-append (uint32_pack_big (u32 ttl)) (ttd ++ content) in
    let all = length-append ttd content in
    let here = length-loc_bytes loc in omega (arith, front, four, rest, all, here, eight, small)
