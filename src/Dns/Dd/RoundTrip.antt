-- ===== src/Dns/Dd/RoundTrip.antt =====
-- The address in the name that `dns_name4_domain` of src/dns_nd.c builds.
use geoipdns.Base.{
  ℕ, zero, suc, ◌+◌, ◌/◌, ◌%◌, ◌<◌, ◌≤◌, true, false, some, List, [], ◌∷◌, ◌++◌, length, set, ◌==◌,
  ltb, leb, ◌≡◌, ◌⊎◌, refl, ◌∙◌, inl, inr, Bool-cases, IsByte, arith,
}
use geoipdns.Text.{fmt_loop, fmt_ulong, case_equal, fold_case}
use geoipdns.Ip4.{Ip, dns_name4_domain, in_addr_arpa}
use geoipdns.Ip4.RoundTrip.{IsIp}
use geoipdns.Dns.Domain.{dns_domain_length, length_from, dns_domain_equal}
use geoipdns.Dns.Dd.{dd_label, dd_loop, dd}

one_round : (fuel u : ℕ) (out : List ℕ) → u < 10 → fmt_loop fuel u out ≡ (b'0' + u % 10) ∷ out
unfolding fmt_loop
one_round zero u out small = refl
one_round (suc fuel) u out small = let z : (u / 10 == 0) ≡ true = ground arith in rw z refl

more_rounds :
    (fuel u : ℕ) (out : List ℕ)
    → 10 ≤ u
    → fmt_loop (suc fuel) u out ≡ fmt_loop fuel (u / 10) ((b'0' + u % 10) ∷ out)
unfolding fmt_loop
more_rounds fuel u out large = let z : (u / 10 == 0) ≡ false = ground arith in rw z refl

-- The digits of a byte.
fmt_byte :
    (x : ℕ)
    → IsByte x
    → ((x < 10) × (fmt_ulong x ≡ (b'0' + x % 10) ∷ []))
      ⊎ ((10 ≤ x) × (x < 100) × (fmt_ulong x ≡ (b'0' + x / 10 % 10) ∷ (b'0' + x % 10) ∷ []))
      ⊎ ((100 ≤ x)
          × (fmt_ulong x ≡ (b'0' + x / 10 / 10 % 10) ∷ (b'0' + x / 10 % 10) ∷ (b'0' + x % 10) ∷ []))
unfolding fmt_ulong
fmt_byte zero byte = inl (omega arith, one_round 0 0 [] (omega arith))
fmt_byte (suc zero) byte = inl (omega arith, one_round 1 1 [] (omega arith))
fmt_byte (suc (suc k)) byte = elim (Bool-cases (ltb (suc (suc k)) 10)) [
  | inl one ↦ inl (ground arith, one_round (suc (suc k)) (suc (suc k)) [] (ground arith))
  | inr several ↦ elim (Bool-cases (ltb (suc (suc k)) 100)) [
    | inl two ↦ inr (
        inl (
          ground arith,
          ground arith,
          more_rounds (suc k) (suc (suc k)) [] (ground arith)
              ∙ one_round (suc k) (suc (suc k) / 10) _ (ground arith),
        ))
    | inr three ↦ inr (
        inr (
          ground arith,
          more_rounds (suc k) (suc (suc k)) [] (ground arith)
              ∙ more_rounds k (suc (suc k) / 10) _ (ground arith)
              ∙ one_round k (suc (suc k) / 10 / 10) _ (ground arith),
        ))
  ]
]

-- A label that holds a byte.
abbrev label : ℕ → List ℕ → List ℕ
label x rest = length (fmt_ulong x) ∷ (fmt_ulong x ++ rest)

dd_label-fmt : (x : ℕ) (rest : List ℕ) → IsByte x → dd_label (label x rest) ≡ some (x, rest)
unfolding dd_label
dd_label-fmt x rest byte = elim (fmt_byte x byte) [
  | inl (small, e) ↦ rw e (ground (arith, small))
  | inr (inl (large, small, e)) ↦ rw e (ground (arith, large, small))
  | inr (inr (large, e)) ↦ rw e (ground (arith, large, byte))
]

-- A name with another first byte is another name.
other_head :
    (n : ℕ) (xs : List ℕ)
    → (n == 0) ≡ false
    → (fold_case n == fold_case 7) ≡ false
    → dns_domain_equal (n ∷ xs) in_addr_arpa ≡ false
unfolding dns_domain_equal dns_domain_length length_from case_equal
other_head n xs nz differ = elim (Bool-cases (suc (length_from n xs) == 14)) [
  | inl same ↦ rw (nz, same, differ) refl
  | inr other ↦ rw (nz, other) refl
]

other_label :
    (x : ℕ) (rest : List ℕ) → IsByte x → dns_domain_equal (label x rest) in_addr_arpa ≡ false
unfolding fold_case
other_label x rest byte = elim (fmt_byte x byte) [
  | inl (small, e) ↦ rw e (other_head 1 _ refl refl)
  | inr (inl (large, small, e)) ↦ rw e (other_head 2 _ refl refl)
  | inr (inr (large, e)) ↦ rw e (other_head 3 _ refl refl)
]

dd_loop-label :
    (left j x : ℕ) (rest ip : List ℕ)
    → IsByte x
    → leb 4 j ≡ false
    → dd_loop (suc left) j (label x rest) in_addr_arpa ip
      ≡ dd_loop left (j + 1) rest in_addr_arpa (set ip j x)
unfolding dd_loop
dd_loop-label left j x rest ip byte early =
    rw (other_label x rest byte, early, dd_label-fmt x rest byte, dd_loop) refl

same_base : dns_domain_equal in_addr_arpa in_addr_arpa ≡ true
unfolding dns_domain_equal dns_domain_length length_from case_equal fold_case
same_base = refl

-- The name that `dns_name4_domain` builds for an address holds four numbers in front of the base, and
-- they are the bytes of the address, the last one first; whatever the array held before.
pub dd-dns_name4_domain :
    (ip : Ip) (w x y z : ℕ)
    → IsIp ip
    → dd (dns_name4_domain ip) in_addr_arpa (w ∷ x ∷ y ∷ z ∷ [])
      ≡ some (4, ip.d ∷ ip.c ∷ ip.b ∷ ip.a ∷ [])
unfolding dd dns_name4_domain
dd-dns_name4_domain ip w x y z h =
    dd_loop-label 4 0 ip.d _ _ h.byte_d refl
    ∙ dd_loop-label 3 1 ip.c _ _ h.byte_c refl
    ∙ dd_loop-label 2 2 ip.b _ _ h.byte_b refl
    ∙ dd_loop-label 1 3 ip.a _ _ h.byte_a refl
    ∙ rw same_base refl
