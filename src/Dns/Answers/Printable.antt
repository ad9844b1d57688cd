-- ===== src/Dns/Answers/Printable.antt =====
-- What `dns_txt_packet` lets through.
use geoipdns.Base.{
  ℕ, zero, suc, ◌+◌, ◌≤◌, true, false, ◌||◌, Bool, Option, some, List, [], ◌∷◌, ◌++◌, length, take,
  drop, ltb, if◌then◌else◌, All, ◌≡◌, arith, Bool-cases, inl, inr, Yields, Yields-bind, Yields_some,
  Yields-rest,
}
use geoipdns.Uint.{uint16_unpack_big}
use geoipdns.Dns.Packet.{dns_packet_copy, dns_packet_skipname}
use geoipdns.Dns.Answers.{
  first_answer, each_answer, is_answer, txt_bytes, txt_answer, dns_txt_packet,
}

-- From the space to the tilde.
pub record IsPrintable (b : ℕ) : Type 0 where
  pub from_space : 32 ≤ b
  pub to_tilde : b ≤ 126

All-append {ℓ κ} :
    {A : Type ℓ} (P : A → Type κ) (xs ys : List A) → All P xs → All P ys → All P (xs ++ ys)
All-append P [] ys hx hy = hy
All-append P (x ∷ xs) ys hx hy = (hx.0, All-append P xs ys hx.1 hy)

shown-IsPrintable : (ch : ℕ) → IsPrintable (if ltb ch 32 || ltb 126 ch then b'?' else ch)
shown-IsPrintable ch = record { from_space = ground arith; to_tilde = ground arith }

txt_bytes-IsPrintable : (txtlen : ℕ) (bytes : List ℕ) → All IsPrintable (txt_bytes txtlen bytes)
unfolding txt_bytes
txt_bytes-IsPrintable txtlen [] = tt
txt_bytes-IsPrintable zero (ch ∷ bytes) = txt_bytes-IsPrintable ch bytes
txt_bytes-IsPrintable (suc txtlen) (ch ∷ bytes) =
    (shown-IsPrintable ch, txt_bytes-IsPrintable txtlen bytes)

txt_answer-IsPrintable :
    (buf header : List ℕ) (pos : ℕ) (out : List ℕ)
    → All IsPrintable out
    → Yields (λ r. All IsPrintable r.1) (txt_answer buf header pos out)
unfolding txt_answer
txt_answer-IsPrintable buf header pos out h =
    let datalen = uint16_unpack_big (drop 8 header) in
    elim (Bool-cases (is_answer header 16)) [
      | inr other ↦ rw other h
      | inl txt ↦ elim (Bool-cases (ltb (length buf) (pos + datalen))) [
        | inl outside ↦ rw (txt, outside) tt
        | inr inside ↦
            rw (txt, inside)
              (All-append IsPrintable out (txt_bytes 0 (take datalen (drop pos buf))) h
                (txt_bytes-IsPrintable 0 (take datalen (drop pos buf))))
      ]
    ]

stops-Yields {ℓ κ} :
    {A : Type ℓ} (P : A → Type κ) (stop : Bool) (a : A) (rest : Option A)
    → P a
    → Yields P rest
    → Yields P (elim stop [ true ↦ some a | false ↦ rest ])
stops-Yields P true a rest ha hr = ha
stops-Yields P false a rest ha hr = hr

-- What the body keeps, the loop over the answers keeps.
each_answer-Yields {ℓ κ} :
    {A : Type ℓ} (P : A → Type κ) (n : ℕ) (buf : List ℕ) (pos : ℕ)
    (body : List ℕ → ℕ → A → Option (Bool × A)) (out : A)
    → ((header : List ℕ) (p : ℕ) (a : A) → P a → Yields (λ r. P r.1) (body header p a))
    → P out
    → Yields P (each_answer n buf pos body out)
unfolding each_answer
each_answer-Yields P zero buf pos body out keeps h = h
each_answer-Yields P (suc n) buf pos body out keeps h =
    Yields-rest P (dns_packet_skipname buf (length buf) pos) _ (λ pos1.
      Yields-rest P (dns_packet_copy buf (length buf) pos1 10) _ (λ copied.
        Yields-bind (λ r. P r.1) P (body copied.0 copied.1 out) _ (keeps copied.0 copied.1 out h)
          (λ r hr. stops-Yields P r.0 r.1 _ hr (
            each_answer-Yields P n buf (copied.1 + uint16_unpack_big (drop 8 copied.0)) body r.1
              keeps hr))))

-- What `dns_txt_packet` returns, on any packet, is printable ASCII.
pub dns_txt_packet-IsPrintable :
    (buf : List ℕ) {out : List ℕ} → dns_txt_packet buf ≡ some out → All IsPrintable out
unfolding dns_txt_packet
dns_txt_packet-IsPrintable buf e =
    Yields_some (All IsPrintable) _
      (Yields-rest (All IsPrintable) (first_answer buf) _ (λ r.
        each_answer-Yields (All IsPrintable) r.0 buf r.1 (txt_answer buf) []
          (λ header p a h. txt_answer-IsPrintable buf header p a h) tt))
      e
