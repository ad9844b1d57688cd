-- ===== src/Dns/Packet/Walk.antt =====
-- `dns_packet_getname` on any packet: what it returns, and how it agrees with
-- `dns_packet_skipname`.
use geoipdns.Base.{
  ℕ, zero, suc, ◌+◌, ◌-◌, ◌<◌, ◌≤◌, some, List, [], ◌∷◌, ◌++◌, length, byte_at, leb, ◌==◌,
  if◌then◌else◌, ◌≡◌, refl, sym, ◌∙◌, ap, All, IsByte, arith, length-append, append_assoc,
  append-nil, ◌<<<◌, Bool-cases, Option-cases, take, inl, inr,
}
use geoipdns.Dns.Name.{IsLabel, IsName, wire}
use geoipdns.Dns.Packet.{
  getname_loop, dns_packet_getname, skip_loop, dns_packet_skipname, dns_domain_copy,
}
use geoipdns.Dns.Domain.{dns_domain_length}
use geoipdns.Dns.Domain.Length.{take-dns_domain_length}

-- How a name ends from within a label of which `state` bytes are to come: those bytes, then labels.
record Completes (state : ℕ) (name r : List ℕ) : Type 0 where
  part : List ℕ
  labels : List (List ℕ)
  layout : r ≡ name ++ (part ++ wire labels)
  part_length : length part ≡ state
  part_bytes : All IsByte part
  whole : All IsLabel labels
  fits : length r ≤ 255

nil_part : (xs : List ℕ) → length xs ≡ 0 → xs ≡ []
nil_part [] e = refl
nil_part (x ∷ xs) e = absurd (omega arith)

byte_at-IsByte : (buf : List ℕ) (i : ℕ) → All IsByte buf → IsByte (byte_at buf i)
byte_at-IsByte [] i h = omega arith
byte_at-IsByte (x ∷ xs) zero h = h.0
byte_at-IsByte (x ∷ xs) (suc i) h = byte_at-IsByte xs i h.1

one_more :
    (ch state : ℕ) (name r : List ℕ)
    → IsByte ch
    → Completes state (name ++ (ch ∷ [])) r
    → Completes (suc state) name r
one_more ch state name r h c = record {
  part = ch ∷ c.part;
  labels = c.labels;
  layout = c.layout ∙ append_assoc name (ch ∷ []) (c.part ++ wire c.labels);
  part_length = omega (arith, c.part_length);
  part_bytes = (h, c.part_bytes);
  whole = c.whole;
  fits = c.fits;
}

new_label :
    (ch : ℕ) (name r : List ℕ)
    → 0 < ch
    → ch < 64
    → Completes ch (name ++ (ch ∷ [])) r
    → Completes 0 name r
new_label ch name r pos small c = record {
  part = [];
  labels = c.part ∷ c.labels;
  layout =
      c.layout
      ∙ append_assoc name (ch ∷ []) (c.part ++ wire c.labels)
      ∙ ap (λ (n : ℕ). name ++ (n ∷ (c.part ++ wire c.labels))) (sym c.part_length);
  part_length = refl;
  part_bytes = tt;
  whole = (
    record {
      some_bytes = omega (arith, c.part_length);
      at_most_63 = omega (arith, c.part_length);
      bytes = c.part_bytes;
    },
    c.whole,
  );
  fits = c.fits;
}

end_name : (name : List ℕ) → length name < 255 → Completes 0 name (name ++ (0 ∷ []))
end_name name h = record {
  part = [];
  labels = [];
  layout = refl;
  part_length = refl;
  part_bytes = tt;
  whole = tt;
  fits = omega (arith, length-append name (0 ∷ []));
}

module _ (buf : List ℕ) (len : ℕ) (hb : All IsByte buf) where
  getname_loop-Completes :
      (left pos first state : ℕ) (name : List ℕ) {r : List ℕ} {end : ℕ}
      → getname_loop left buf len pos first state name ≡ some (r, end)
      → Completes state name r
  unfolding getname_loop
  getname_loop-Completes zero pos first state name e = absurd (cc)
  getname_loop-Completes (suc left) pos first (suc state) name {r} {end} e =
      one_more (byte_at buf pos) state name r (byte_at-IsByte buf pos hb) (
        getname_loop-Completes left (pos + 1) first state (name ++ (byte_at buf pos ∷ []))
          {end = end} (ground arith))
  getname_loop-Completes (suc left) pos first zero name {r} {end} e =
      elim (Bool-cases (leb 192 (byte_at buf pos))) [
        | inl p ↦
            getname_loop-Completes left ((byte_at buf pos - 192) <<< 8 + byte_at buf (pos + 1))
              (if first == 0 then pos + 2 else first) 0 name {end = end} (ground arith)
        | inr p ↦ elim (Bool-cases (byte_at buf pos == 0)) [
          | inl z ↦
              let er : r ≡ name ++ (0 ∷ []) = ground arith in rw er (end_name name (ground arith))
          | inr nz ↦ new_label (byte_at buf pos) name r (ground arith) (ground arith) (
              getname_loop-Completes left (pos + 1) first (byte_at buf pos)
                (name ++ (byte_at buf pos ∷ [])) {end = end} (ground arith))
        ]
      ]

-- `firstcompress`, once it is set, is what is returned.
getname_loop_first :
    (left : ℕ) (buf : List ℕ) (len pos first state : ℕ) (name : List ℕ) {r : List ℕ} {end : ℕ}
    → 0 < first
    → getname_loop left buf len pos first state name ≡ some (r, end)
    → end ≡ first
unfolding getname_loop
getname_loop_first zero buf len pos first state name h e = absurd (cc)
getname_loop_first (suc left) buf len pos first (suc state) name {r} {end} h e =
    getname_loop_first left buf len (pos + 1) first state (name ++ (byte_at buf pos ∷ [])) {r = r}
      {end = end} h (ground arith)
getname_loop_first (suc left) buf len pos first zero name {r} {end} h e =
    elim (Bool-cases (leb 192 (byte_at buf pos))) [
      | inl p ↦
          getname_loop_first left buf len ((byte_at buf pos - 192) <<< 8 + byte_at buf (pos + 1))
            first 0 name {r = r} {end = end} h (ground arith)
      | inr p ↦ elim (Bool-cases (byte_at buf pos == 0)) [
        | inl z ↦ ground arith
        | inr nz ↦
            getname_loop_first left buf len (pos + 1) first (byte_at buf pos)
              (name ++ (byte_at buf pos ∷ [])) {r = r} {end = end} h (ground arith)
      ]
    ]

-- From within a label, `skip_loop` goes on at the label's end, and stops at the same place.
getname_loop-skip_loop :
    (left fuel : ℕ) (buf : List ℕ) (len pos state : ℕ) (name : List ℕ) {r : List ℕ} {end : ℕ}
    → len ≤ pos + state + fuel
    → getname_loop left buf len pos 0 state name ≡ some (r, end)
    → (skip_loop fuel buf len (pos + state) ≡ some end) × (pos + state < end) × (end ≤ len)
unfolding getname_loop skip_loop
getname_loop-skip_loop zero fuel buf len pos state name h e = absurd (cc)
getname_loop-skip_loop (suc left) fuel buf len pos (suc state) name {r} {end} h e =
    let same : pos + 1 + state ≡ pos + suc state = omega arith in
    rw (← same) (
      getname_loop-skip_loop left fuel buf len (pos + 1) state (name ++ (byte_at buf pos ∷ []))
        {r = r} {end = end} (omega arith) (ground arith))
getname_loop-skip_loop (suc left) zero buf len pos zero name {r} {end} h e = absurd (ground arith)
getname_loop-skip_loop (suc left) (suc fuel) buf len pos zero name {r} {end} h e =
    let same : pos + 0 ≡ pos = omega arith in
    let ch = byte_at buf pos in
    rw same (elim (Bool-cases (leb 192 ch)) [
      | inl p ↦ ground (
        arith,
        getname_loop_first left buf len ((ch - 192) <<< 8 + byte_at buf (pos + 1)) (pos + 2) 0 name
            {r = r} {end = end},
      )
      | inr p ↦ elim (Bool-cases (ch == 0)) [
        | inl z ↦ ground arith
        | inr nz ↦ ground (
          arith,
          getname_loop-skip_loop left fuel buf len (pos + 1) ch (name ++ (ch ∷ [])) {r = r}
              {end = end},
        )
      ]
    ])

getname_inv :
    (buf : List ℕ) (len pos : ℕ) {r : List ℕ} {end : ℕ}
    → dns_packet_getname buf len pos ≡ some (r, end)
    → (name : List ℕ) × (getname_loop 999 buf len pos 0 0 [] ≡ some (name, end))
      × (r ≡ dns_domain_copy name)
unfolding dns_packet_getname
getname_inv buf len pos {r} {end} e = elim (Option-cases (getname_loop 999 buf len pos 0 0 [])) [
  | inl n ↦ absurd (ground (arith, n))
  | inr ((name, end'), s) ↦ (name, ground (arith, s), ground (arith, s))
]

pub copy-wire : (ls : List (List ℕ)) → All IsLabel ls → dns_domain_copy (wire ls) ≡ wire ls
unfolding dns_domain_copy
copy-wire ls h =
    ap (λ xs. take (dns_domain_length xs) xs) (sym (append-nil (wire ls)))
    ∙ take-dns_domain_length ls [] h

-- What `dns_packet_getname` returns, on any packet of bytes, is a well-formed name of 255 bytes at
-- most, and a position behind the one it began at and not behind the packet.
pub dns_packet_getname-IsName :
    (buf : List ℕ) (len pos : ℕ) {r : List ℕ} {end : ℕ}
    → All IsByte buf
    → dns_packet_getname buf len pos ≡ some (r, end)
    → ((ls : List (List ℕ)) × (r ≡ wire ls) × IsName ls) × (pos < end) × (end ≤ len)
dns_packet_getname-IsName buf len pos {r} {end} hb e =
    let (name, run, copied) = getname_inv buf len pos e in
    let c = getname_loop-Completes buf len hb 999 pos 0 0 [] run in
    let walk = getname_loop-skip_loop 999 len buf len pos 0 [] (omega arith) run in
    (finish c copied, omega (arith, walk.1), walk.2)
  where
    finish :
        {name : List ℕ}
        → Completes 0 [] name
        → r ≡ dns_domain_copy name
        → (ls : List (List ℕ)) × (r ≡ wire ls) × IsName ls
    finish c copied =
        let e' = c.layout ∙ ap (λ p. p ++ wire c.labels) (nil_part c.part c.part_length) in
        (
          c.labels,
          copied ∙ ap dns_domain_copy e' ∙ copy-wire c.labels c.whole,
          record { labels = c.whole; at_most_255 = omega (arith, c.fits, ap length e') },
        )

-- Where `dns_packet_getname` returns a name, `dns_packet_skipname` moves to the same position.
pub dns_packet_skipname-getname :
    (buf : List ℕ) (len pos : ℕ) {r : List ℕ} {end : ℕ}
    → dns_packet_getname buf len pos ≡ some (r, end)
    → dns_packet_skipname buf len pos ≡ some end
unfolding dns_packet_skipname
dns_packet_skipname-getname buf len pos e =
    let (name, run, copied) = getname_inv buf len pos e in
    let same : pos + 0 ≡ pos = omega arith in
    rw same at (getname_loop-skip_loop 999 (len - pos) buf len pos 0 [] (omega arith) run).0
