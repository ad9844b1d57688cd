-- ===== src/Response/Kept.antt =====
-- What every call keeps of a response: where its question ends, and its bounds.
use geoipdns.Base.{
  ℕ, zero, suc, ◌+◌, ◌-◌, ◌≤◌, false, List, [], ◌∷◌, length, take, drop, byte_at, ltb, ◌==◌, ◌≡◌,
  refl, arith, length-append, length-take, length-drop, length-set, u8, ◌∙◌, Yields, Yields-bind,
  Yields-map, Bool-cases, Option-cases, inl, inr, u16,
}
use geoipdns.Uint.{uint16_pack_big}
use geoipdns.Uint.RoundTrip.{length-uint16_pack_big}
use geoipdns.Dns.Domain.{dns_domain_length}
use geoipdns.Response.{
  Response, len, response_addbytes, find_name, remember, addname_loop, response_addname,
  response_rstart, response_rfinish, count_record, increment, set_bits, keep_bits,
  response_nxdomain, class_in,
}

-- The question ends at `target`, and the response has it whole and fits its array.
pub record IsKept (target : ℕ) (r : Response) : Type 0 where
  pub ends : r.tctarget ≡ target
  pub whole : target ≤ len r
  pub fits : len r ≤ 65535

pub record IsGrown (r : Response) (most : ℕ) (r' : Response) : Type 0 where
  pub same_tctarget : r'.tctarget ≡ r.tctarget
  pub longer : len r ≤ len r'
  pub at_most : len r' ≤ len r + most
  pub still_fits : len r ≤ 65535 → len r' ≤ 65535

pub addbytes-IsGrown :
    (r : Response) (buf : List ℕ) → Yields (IsGrown r (length buf)) (response_addbytes r buf)
unfolding response_addbytes
addbytes-IsGrown r buf = elim (Bool-cases (ltb (65535 - len r) (length buf))) [
  | inl no_room ↦ rw no_room tt
  | inr room ↦ rw room (record {
    same_tctarget = refl;
    longer = omega (arith, length-append r.bytes buf);
    at_most = omega (arith, length-append r.bytes buf);
    still_fits = λ h. ground (arith, length-append r.bytes buf);
  })
]

length-remember :
    (r : Response) (d : List ℕ) (dlen : ℕ)
    → (len (remember r d dlen) ≡ len r) × ((remember r d dlen).tctarget ≡ r.tctarget)
unfolding remember
length-remember r d dlen = ground arith

IsGrown-more : (r r' : Response) (m n : ℕ) → m ≤ n → IsGrown r m r' → IsGrown r n r'
IsGrown-more r r' m n h g = record {
  same_tctarget = g.same_tctarget;
  longer = g.longer;
  at_most = omega (arith, g.at_most);
  still_fits = g.still_fits;
}

pub IsGrown-trans :
    (r r1 r2 : Response) (m n k : ℕ) → IsGrown r m r1 → IsGrown r1 n r2 → m + n ≤ k → IsGrown r k r2
IsGrown-trans r r1 r2 m n k g h le = record {
  same_tctarget = h.same_tctarget ∙ g.same_tctarget;
  longer = omega (arith, g.longer, h.longer);
  at_most = omega (arith, g.at_most, h.at_most);
  still_fits = λ f. h.still_fits (g.still_fits f);
}

IsGrown-remember : (r : Response) (d : List ℕ) (dlen : ℕ) → IsGrown r 0 (remember r d dlen)
IsGrown-remember r d dlen =
    let e = length-remember r d dlen in
    record {
      same_tctarget = e.1;
      longer = omega (arith, e.0);
      at_most = omega (arith, e.0);
      still_fits = λ h. omega (arith, e.0);
    }

nonempty : (xs : List ℕ) → (byte_at xs 0 == 0) ≡ false → 2 ≤ length xs + 1
nonempty [] e = absurd (cc)
nonempty (x ∷ xs) e = omega arith

-- A name adds its own length at most, and one byte more where its array cuts it short.
addname_loop-IsGrown :
    (fuel : ℕ) (r : Response) (d : List ℕ) (dlen : ℕ)
    → Yields (IsGrown r (length d + 1)) (addname_loop fuel r d dlen)
unfolding addname_loop
addname_loop-IsGrown zero r d dlen = tt
addname_loop-IsGrown (suc fuel) r d dlen = elim (Bool-cases (byte_at d 0 == 0)) [
  | inl root ↦ rw root (
      Yields-map _ _ _ (addbytes-IsGrown r (take 1 d)) (λ r' g.
        IsGrown-more r r' (length (take 1 d)) (length d + 1) (omega (arith, length-take 1 d)) g))
  | inr more ↦ elim (Option-cases (find_name d r.names)) [
    | inr (ptr, f) ↦
        let buf = uint16_pack_big (u16 (49152 + ptr)) in
        rw (more, f)
          (Yields-map _ _ _ (addbytes-IsGrown r buf) (λ r' g.
            IsGrown-more r r' (length buf) (length d + 1)
              (omega (arith, length-uint16_pack_big (u16 (49152 + ptr)), nonempty d more)) g))
    | inl f ↦
        let i : ℕ = byte_at d 0 + 1 in
        rw (more, f)
          (Yields-bind _ _ _ _ (addbytes-IsGrown (remember r d dlen) (take i d)) (λ r1 g.
            Yields-map _ _ _ (addname_loop-IsGrown fuel r1 (drop i d) (dlen - i)) (λ r2 h.
              IsGrown-trans r (remember r d dlen) r2 0 (length d + 1) (length d + 1)
                (IsGrown-remember r d dlen)
                (IsGrown-trans (remember r d dlen) r1 r2 (length (take i d)) (length (drop i d) + 1)
                  (length d + 1) g h (omega (arith, length-take i d, length-drop i d)))
                (omega arith))))
  ]
]

pub addname-IsGrown :
    (r : Response) (d : List ℕ) → Yields (IsGrown r (length d + 1)) (response_addname r d)
unfolding response_addname
addname-IsGrown r d = addname_loop-IsGrown (length d) r d (dns_domain_length d)

-- What is kept when a response grows, and when it changes in place.
pub grown-IsKept :
    (target : ℕ) (r r' : Response) {n : ℕ} → IsKept target r → IsGrown r n r' → IsKept target r'
grown-IsKept target r r' k g = record {
  ends = g.same_tctarget ∙ k.ends;
  whole = omega (arith, k.whole, g.longer);
  fits = g.still_fits k.fits;
}

pub addbytes-IsKept :
    (target : ℕ) (r : Response) (buf : List ℕ)
    → IsKept target r
    → Yields (IsKept target) (response_addbytes r buf)
addbytes-IsKept target r buf k =
    Yields-map _ _ _ (addbytes-IsGrown r buf) (λ r' g. grown-IsKept target r r' k g)

pub addname-IsKept :
    (target : ℕ) (r : Response) (d : List ℕ)
    → IsKept target r
    → Yields (IsKept target) (response_addname r d)
addname-IsKept target r d k =
    Yields-map _ _ _ (addname-IsGrown r d) (λ r' g. grown-IsKept target r r' k g)

pub rstart-IsKept :
    (target : ℕ) (r : Response) (d type : List ℕ) (ttl : ℕ)
    → IsKept target r
    → Yields (IsKept target) (response_rstart r d type ttl)
unfolding response_rstart
rstart-IsKept target r d type ttl k =
    let kept = IsKept target in
    Yields-bind kept kept _ _ (addname-IsKept target r d k) (λ r1 k1.
      Yields-bind kept kept _ _ (addbytes-IsKept target r1 type k1) (λ r2 k2.
        Yields-bind kept kept _ _ (addbytes-IsKept target r2 class_in k2) (λ r3 k3.
          Yields-bind kept kept _ _ (addbytes-IsKept target r3 _ k3) (λ r4 k4.
            Yields-bind kept kept _ _ (addbytes-IsKept target r4 _ k4)
              (λ r5 k5. record { ends = k5.ends; whole = k5.whole; fits = k5.fits })))))

length-count_record : (s : List ℕ) (x : ℕ) → length (count_record s x) ≡ length s
unfolding count_record
length-count_record s x =
    let s' = increment s (x + 1) in
    let n = length-set s (x + 1) (u8 (byte_at s (x + 1) + 1)) in
    let n' = length-set s' x (u8 (byte_at s' x + 1)) in
    elim (Bool-cases (byte_at s' (x + 1) == 0)) [
      | inl carry ↦ rw carry (n' ∙ n)
      | inr stop ↦ rw stop n
    ]

-- What changes in place keeps a response.
pub in_place-IsKept :
    (target : ℕ) (r r' : Response)
    → IsKept target r
    → r'.tctarget ≡ r.tctarget
    → len r' ≡ len r
    → IsKept target r'
in_place-IsKept target r r' k e n = record {
  ends = e ∙ k.ends;
  whole = omega (arith, n, k.whole);
  fits = omega (arith, n, k.fits);
}

pub rfinish-IsKept :
    (target : ℕ) (r : Response) (x : ℕ) → IsKept target r → IsKept target (response_rfinish r x)
unfolding response_rfinish
rfinish-IsKept target r x k =
    in_place-IsKept target r (response_rfinish r x) k refl (
      length-count_record _ x ∙ length-set _ (r.dpos - 2 + 1) _ ∙ length-set r.bytes (r.dpos - 2) _)

pub set_bits-IsKept :
    (target : ℕ) (r : Response) (i m : ℕ) → IsKept target r → IsKept target (set_bits r i m)
set_bits-IsKept target r i m k =
    in_place-IsKept target r (set_bits r i m) k refl (length-set r.bytes i _)

pub keep_bits-IsKept :
    (target : ℕ) (r : Response) (i m : ℕ) → IsKept target r → IsKept target (keep_bits r i m)
keep_bits-IsKept target r i m k =
    in_place-IsKept target r (keep_bits r i m) k refl (length-set r.bytes i _)

pub nxdomain-IsKept :
    (target : ℕ) (r : Response) → IsKept target r → IsKept target (response_nxdomain r)
unfolding response_nxdomain
nxdomain-IsKept target r k = set_bits-IsKept target _ 2 4 (set_bits-IsKept target r 3 3 k)
