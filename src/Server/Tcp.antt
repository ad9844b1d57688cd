-- ===== src/Server/Tcp.antt =====
-- The length in front of a TCP message, and the room of the receiver.
use geoipdns.Base.{
  ℕ, zero, suc, ◌≤◌, [], ◌∷◌, ◌+◌, ◌<◌, ◌^◌, u16, none, some, List, take, drop, refl, ◌++◌, length,
  ◌≡◌, ◌==◌, leb, ◌&&◌, if◌then◌else◌, arith, length-append, length-take, ◌∙◌, ap, inl, inr,
  Bool-cases,
}
use geoipdns.Uint.{uint16_pack_big, uint16_unpack_big}
use geoipdns.Uint.RoundTrip.{uint16_unpack-pack, length-uint16_pack_big}
use geoipdns.Server.{epollin, socket_send4_tcp, socket_recv4_tcp}

-- The length is read from the first two bytes, whatever stands behind them.
framed_length :
    (u : ℕ) (rest : List ℕ) → u < 2 ^ 16 → uint16_unpack_big (uint16_pack_big u ++ rest) ≡ u
unfolding uint16_unpack_big uint16_pack_big
framed_length u rest h = (uint16_unpack-pack u h).1

-- What is delivered of a message: its length, and as much of it as there is room for.
delivered :
    (u n : ℕ) (rest : List ℕ)
    → take (2 + n) (uint16_pack_big u ++ rest) ≡ uint16_pack_big u ++ take n rest
unfolding uint16_pack_big
delivered u n rest = let two : 2 + n ≡ suc (suc n) = omega arith in rw two refl

dropped : (u : ℕ) (rest : List ℕ) → drop 2 (uint16_pack_big u ++ rest) ≡ rest
unfolding uint16_pack_big
dropped u rest = refl

take_long : (n : ℕ) (xs : List ℕ) → length xs ≤ n → take n xs ≡ xs
take_long zero [] h = refl
take_long zero (x ∷ xs) h = absurd (omega arith)
take_long (suc n) [] h = refl
take_long (suc n) (x ∷ xs) h = ap (λ ys. x ∷ ys) (take_long n xs (omega arith))

-- A message of up to 65533 bytes is written to a TCP connection, and `readv` delivers of what was
-- written as much as there is room for. Then `socket_recv4_tcp`, with room for `len` bytes, receives the
-- message as it was if it is called for the event EPOLLIN, and the message has `len` bytes at most; else
-- it fails.
pub socket_recv4_tcp-send4_tcp :
    (buf : List ℕ) (len events : ℕ) (readv : ℕ → List ℕ)
    → length buf + 2 < 2 ^ 16
    → len + 2 < 2 ^ 16
    → readv (2 + len) ≡ take (2 + len) (socket_send4_tcp buf)
    → socket_recv4_tcp readv len events
      ≡ (if events == epollin && leb (length buf) len then some buf else none)
unfolding socket_recv4_tcp socket_send4_tcp
socket_recv4_tcp-send4_tcp buf len events readv h fit reads =
    let u : u16 (length buf) ≡ length buf = omega arith in
    let bytes : readv (2 + len) ≡ uint16_pack_big (length buf) ++ take len buf =
      rw u at (reads ∙ delivered (u16 (length buf)) len buf) in
    let n = framed_length (length buf) (take len buf) (omega arith) in
    let total = length-append (uint16_pack_big (length buf)) (take len buf) in
    let two = length-uint16_pack_big (length buf) in
    let cut = length-take len buf in
    elim (Bool-cases (leb (length buf) len)) [
      | inl fits ↦
          let whole : take len buf ≡ buf = take_long len buf (ground (arith, fits)) in
          rw (bytes, n, whole, fits)
            (ground (arith, total, two, cut, whole, fits, dropped (length buf) buf))
      | inr over ↦ rw (bytes, n, over) (ground (arith, total, two, cut, over))
    ]
