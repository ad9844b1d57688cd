-- ===== src/Dns/Dot/Parsed.antt =====
-- What `dns_domain_fromdot` makes of a text is a well-formed name.
use geoipdns.Base.{
  ℕ, zero, suc, ◌+◌, ◌-◌, ◌≤◌, none, some, List, [], ◌∷◌, ◌++◌, length, ltb, leb, ◌==◌, All, IsByte,
  ◌≡◌, refl, sym, ap, ◌∙◌, append_assoc, append-nil, length-append, arith, Bool-cases, Option-cases,
  inl, inr, Yields, Yields-bind, Yields_some, if◌then◌else◌,
}
use geoipdns.Dns.Name.{IsLabel, IsName, wire}
use geoipdns.Dns.Dot.{
  is_octal, add_label, octal_digit, escaped, next_char, fromdot_loop, dns_domain_fromdot,
}

-- The labels that are done: what is put behind them, a name follows.
record IsPart (name : List ℕ) : Type 0 where
  labels : List (List ℕ)
  whole : All IsLabel labels
  goes_on : (ms : List (List ℕ)) → name ++ wire ms ≡ wire (labels ++ ms)

-- The label that is being read.
record IsBegun (l : List ℕ) : Type 0 where
  bytes : All IsByte l
  at_most_63 : length l ≤ 63

All-push {ℓ κ} :
    {A : Type ℓ} (P : A → Type κ) (xs : List A) (x : A) → All P xs → P x → All P (xs ++ (x ∷ []))
All-push P [] x h p = (p, tt)
All-push P (y ∷ ys) x h p = (h.0, All-push P ys x h.1 p)

wire-append :
    (ls : List (List ℕ)) (name l : List ℕ)
    → ((ms : List (List ℕ)) → name ++ wire ms ≡ wire (ls ++ ms))
    → (ms : List (List ℕ)) → (name ++ (length l ∷ l)) ++ wire ms ≡ wire ((ls ++ (l ∷ [])) ++ ms)
wire-append ls name l goes_on ms =
    append_assoc name (length l ∷ l) (wire ms)
    ∙ goes_on (l ∷ ms)
    ∙ ap wire (sym (append_assoc ls (l ∷ []) ms))

add_label-IsPart : (name l : List ℕ) → IsPart name → IsBegun l → Yields IsPart (add_label name l)
unfolding add_label
add_label-IsPart name l p b = elim (Bool-cases (length l == 0)) [
  | inl z ↦ rw z p
  | inr nz ↦ elim (Bool-cases (ltb 255 (length name + length l + 1))) [
    | inl full ↦ rw (nz, full) tt
    | inr room ↦
        rw (nz, room)
          (record {
            labels = p.labels ++ (l ∷ []);
            whole =
                All-push IsLabel p.labels l p.whole (record {
                  some_bytes = ground arith;
                  at_most_63 = b.at_most_63;
                  bytes = b.bytes;
                });
            goes_on = wire-append p.labels name l p.goes_on;
          })
  ]
]

-- The byte and the rest that an escape gives are bytes.
abbrev AreBytes : ℕ × List ℕ → Type 0
AreBytes (c, buf) = IsByte c × All IsByte buf

octal_digit-AreBytes :
    (ch : ℕ) (buf : List ℕ) → All IsByte buf → Yields AreBytes (octal_digit ch buf)
unfolding octal_digit
octal_digit-AreBytes ch [] h = tt
octal_digit-AreBytes ch (c ∷ buf) h = elim (Bool-cases (leb b'0' c)) [
  | inl low ↦ elim (Bool-cases (leb c b'7')) [
    | inl high ↦ rw (low, high) (omega arith, h.1)
    | inr other ↦ rw (low, other) tt
  ]
  | inr other ↦ rw other tt
]

escaped-AreBytes : (c : ℕ) (buf : List ℕ) → IsByte c → All IsByte buf → AreBytes (escaped c buf)
unfolding escaped
escaped-AreBytes c buf hc h = elim (Bool-cases (is_octal c)) [
  | inr other ↦ rw other (hc, h)
  | inl octal ↦ elim (Option-cases (octal_digit (c - b'0') buf)) [
    | inl none1 ↦ rw (octal, none1) (omega arith, h)
    | inr ((ch1, buf1), e1) ↦
        let h1 = Yields_some AreBytes _ (octal_digit-AreBytes (c - b'0') buf h) e1 in
        elim (Option-cases (octal_digit ch1 buf1)) [
          | inl none2 ↦ rw (octal, e1, none2) h1
          | inr (r, e2) ↦
              rw (octal, e1, e2) (Yields_some AreBytes _ (octal_digit-AreBytes ch1 buf1 h1.1) e2)
        ]
  ]
]

next_char-AreBytes :
    (ch : ℕ) (buf : List ℕ) → IsByte ch → All IsByte buf → Yields AreBytes (next_char ch buf)
unfolding next_char
next_char-AreBytes ch [] hc h = elim (Bool-cases (ch == 92)) [
  | inl slash ↦ rw slash tt
  | inr other ↦ rw other (hc, h)
]
next_char-AreBytes ch (c ∷ rest) hc h = elim (Bool-cases (ch == 92)) [
  | inl slash ↦ rw slash (escaped-AreBytes c rest h.0 h.1)
  | inr other ↦ rw other (hc, h)
]

abbrev AreRead : List ℕ × List ℕ → Type 0
AreRead (name, l) = IsPart name × IsBegun l

fromdot_loop-AreRead :
    (fuel : ℕ) (buf l name : List ℕ)
    → All IsByte buf
    → IsBegun l
    → IsPart name
    → Yields AreRead (fromdot_loop fuel buf l name)
unfolding fromdot_loop
fromdot_loop-AreRead zero buf l name h b p = tt
fromdot_loop-AreRead (suc fuel) [] l name h b p = (p, b)
fromdot_loop-AreRead (suc fuel) (ch ∷ buf) l name h b p = elim (Bool-cases (ch == b'.')) [
  | inl dot ↦
      rw (dot, Yields)
        (Yields-bind IsPart AreRead _ _ (add_label-IsPart name l p b) (λ name' p'.
          fromdot_loop-AreRead fuel buf [] name' h.1
            (record { bytes = tt; at_most_63 = omega arith }) p'))
  | inr other ↦ elim (Option-cases (next_char ch buf)) [
    | inl ends ↦ rw (other, ends, Yields) (p, b)
    | inr ((c, rest), e) ↦
        let hc = Yields_some AreBytes _ (next_char-AreBytes ch buf h.0 h.1) e in
        elim (Bool-cases (leb 63 (length l))) [
          | inl full ↦ rw (other, e, full, Yields) tt
          | inr room ↦
              rw (other, e, room, Yields)
                (fromdot_loop-AreRead fuel rest (l ++ (c ∷ [])) name hc.1
                  (record {
                    bytes = All-push IsByte l c b.bytes hc.0;
                    at_most_63 = ground (arith, room, length-append l (c ∷ []));
                  })
                  p)
        ]
  ]
]

finish :
    (name : List ℕ)
    → IsPart name
    → Yields
        (λ r. (ls : List (List ℕ)) × (r ≡ wire ls) × IsName ls)
        (if ltb 255 (length name + 1) then none else some (name ++ (0 ∷ [])))
finish name p = elim (Bool-cases (ltb 255 (length name + 1))) [
  | inl full ↦ rw full tt
  | inr room ↦
      let e : name ++ (0 ∷ []) ≡ wire p.labels = p.goes_on [] ∙ ap wire (append-nil p.labels) in
      rw room (
        p.labels,
        e,
        record {
          labels = p.whole;
          at_most_255 = ground (arith, room, ap length e, length-append name (0 ∷ []));
        },
      )
]

-- What `dns_domain_fromdot` makes of any text of bytes, if it does not refuse it, is a well-formed
-- name of 255 bytes at most.
pub dns_domain_fromdot-IsName :
    (buf : List ℕ) {r : List ℕ}
    → All IsByte buf
    → dns_domain_fromdot buf ≡ some r
    → (ls : List (List ℕ)) × (r ≡ wire ls) × IsName ls
unfolding dns_domain_fromdot
dns_domain_fromdot-IsName buf h e =
    let named = λ (r : List ℕ). (ls : List (List ℕ)) × (r ≡ wire ls) × IsName ls in
    Yields_some named _
      (Yields-bind AreRead named _ _
        (fromdot_loop-AreRead (length buf + 1) buf [] [] h
          (record { bytes = tt; at_most_63 = omega arith })
          (record { labels = []; whole = tt; goes_on = λ ms. refl }))
        (λ r read. Yields-bind IsPart named _ _ (add_label-IsPart r.0 r.1 read.0 read.1) finish))
      e
