-- ===== src/Dns/Answers.antt =====
-- src/dns_ip.c, src/dns_name.c, src/dns_mx.c and src/dns_txt.c: the answers of a packet. A return of
-- -1 is `none`. The calls that send a query, and the parsing of an address in dns_ip4, are left out.
pub mod Printable
mod Runs
use geoipdns.Base.{
  ℕ, zero, suc, ◌+◌, Bool, true, false, ◌&&◌, ◌||◌, Option, none, some, List, [], ◌∷◌, ◌++◌, length,
  take, drop, ltb, ◌==◌, if◌then◌else◌, ◌>>=◌,
}
use geoipdns.Uint.{uint16_unpack_big}
use geoipdns.Cdb.{byte_equal}
use geoipdns.Random.{Random, dns_sortip}
use geoipdns.Dns.Packet.{dns_packet_copy, dns_packet_skipname, dns_packet_getname}
use geoipdns.Dns.Dot.{dns_domain_todot_cat}

-- The number of answers, and the position behind the question.
unfoldable pub first_answer : List ℕ → Option (ℕ × ℕ)
first_answer buf = do
  (header, pos) ← dns_packet_copy buf (length buf) 0 12
  pos1 ← dns_packet_skipname buf (length buf) pos
  some (uint16_unpack_big (drop 6 header), pos1 + 4)

-- `while (numanswers--)`. The body gets the ten bytes behind an answer's name, the position of its
-- data and the output so far; it gives the new output, and whether to return at once.
unfoldable pub each_answer {ℓ} :
    {A : Type ℓ} → ℕ → List ℕ → ℕ → (List ℕ → ℕ → A → Option (Bool × A)) → A → Option A
each_answer zero buf pos body out = some out
each_answer (suc numanswers) buf pos body out = dns_packet_skipname buf (length buf) pos >>= λ pos1.
    dns_packet_copy buf (length buf) pos1 10 >>= λ copied. body copied.0 copied.1 out >>= λ r.
    elim r.0 [
      | true ↦ some r.1
      | false ↦ each_answer numanswers buf (copied.1 + uint16_unpack_big (drop 8 copied.0)) body r.1
    ]

-- The type of an answer, whose class is DNS_C_IN.
abbrev is_answer : List ℕ → ℕ → Bool
is_answer header type =
    byte_equal (take 2 header) (0 ∷ type ∷ []) && byte_equal (take 2 (drop 2 header)) (0 ∷ 1 ∷ [])

unfoldable pub ip4_answer : List ℕ → List ℕ → ℕ → List (List ℕ) → Option (Bool × List (List ℕ))
ip4_answer buf header pos out =
    if is_answer header 1 && (uint16_unpack_big (drop 8 header) == 4)
    then (do
      (address, pos1) ← dns_packet_copy buf (length buf) pos 4
      some (false, out ++ (address ∷ [])))
    else some (false, out)

unfoldable pub dns_ip4_packet : Random → List ℕ → Option (Random × List (List ℕ))
dns_ip4_packet random buf = do
  (numanswers, pos) ← first_answer buf
  out ← each_answer numanswers buf pos (ip4_answer buf) []
  some (dns_sortip random out)

unfoldable pub name_answer : List ℕ → List ℕ → ℕ → List ℕ → Option (Bool × List ℕ)
name_answer buf header pos out =
    if is_answer header 12
    then (do
      (q, pos1) ← dns_packet_getname buf (length buf) pos
      some (true, dns_domain_todot_cat out q))
    else some (false, out)

unfoldable pub dns_name_packet : List ℕ → Option (List ℕ)
dns_name_packet buf = do
  (numanswers, pos) ← first_answer buf
  each_answer numanswers buf pos (name_answer buf) []

unfoldable pub mx_answer : List ℕ → List ℕ → ℕ → List ℕ → Option (Bool × List ℕ)
mx_answer buf header pos out =
    if is_answer header 15
    then (do
      (pref, pos1) ← dns_packet_copy buf (length buf) pos 2
      (q, pos2) ← dns_packet_getname buf (length buf) (pos + 2)
      some (false, dns_domain_todot_cat (out ++ pref) q ++ (0 ∷ [])))
    else some (false, out)

unfoldable pub dns_mx_packet : List ℕ → Option (List ℕ)
dns_mx_packet buf = do
  (numanswers, pos) ← first_answer buf
  each_answer numanswers buf pos (mx_answer buf) []

-- The bytes of the strings of a TXT record; `txtlen` bytes of the present one are still to come.
unfoldable pub txt_bytes : ℕ → List ℕ → List ℕ
txt_bytes txtlen [] = []
txt_bytes zero (ch ∷ bytes) = txt_bytes ch bytes
txt_bytes (suc txtlen) (ch ∷ bytes) =
    (if ltb ch 32 || ltb 126 ch then b'?' else ch) ∷ txt_bytes txtlen bytes

unfoldable pub txt_answer : List ℕ → List ℕ → ℕ → List ℕ → Option (Bool × List ℕ)
txt_answer buf header pos out =
    let datalen = uint16_unpack_big (drop 8 header) in
    if is_answer header 16
    then (if ltb (length buf) (pos + datalen)
        then none
        else some (false, out ++ txt_bytes 0 (take datalen (drop pos buf))))
    else some (false, out)

unfoldable pub dns_txt_packet : List ℕ → Option (List ℕ)
dns_txt_packet buf = do
  (numanswers, pos) ← first_answer buf
  each_answer numanswers buf pos (txt_answer buf) []
