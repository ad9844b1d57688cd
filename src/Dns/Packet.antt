-- ===== src/Dns/Packet.antt =====
-- src/dns_packet.c: reading a packet: bytes at a position, the end of a name, and a name that may
-- be compressed.
-- `buf` holds the packet and `len` its length; a position is an `unsigned int`, and stays below
-- `len`, or 257 above it at most, so it does not wrap. A return of 0, which the callers take for a
-- failure, is `none`.
pub mod Copy
pub mod Walk
pub mod Encoded
mod Runs
use geoipdns.Base.{
  ℕ, zero, suc, ◌+◌, ◌-◌, ◌*◌, Bool, true, false, ◌||◌, Option, none, some, List, [], ◌∷◌, ◌++◌,
  length, byte_at, ltb, leb, ◌==◌, if◌then◌else◌, ◌>>=◌, take, ◌<<<◌,
}
use geoipdns.Dns.Domain.{dns_domain_length}

-- The bytes that go to `out`, and the new position.
unfoldable pub dns_packet_copy : List ℕ → ℕ → ℕ → ℕ → Option (List ℕ × ℕ)
dns_packet_copy buf len pos zero = some ([], pos)
dns_packet_copy buf len pos (suc outlen) =
    let rest = dns_packet_copy buf len (pos + 1) outlen in
    if leb len pos
    then none
    else elim rest [ none ↦ none | some (out, end) ↦ some (byte_at buf pos ∷ out, end) ]

-- A round moves `pos` on, so `len - pos` rounds are enough.
unfoldable pub skip_loop : ℕ → List ℕ → ℕ → ℕ → Option ℕ
skip_loop zero buf len pos = none
skip_loop (suc fuel) buf len pos =
    let ch = byte_at buf pos in
    let rest = skip_loop fuel buf len (pos + 1 + ch) in
    if leb len pos
    then none
    else if leb 192 ch
    then some (pos + 2)
    else if leb 64 ch
    then none
    else if ch == 0
    then some (pos + 1)
    else rest

unfoldable pub dns_packet_skipname : List ℕ → ℕ → ℕ → Option ℕ
unfolding skip_loop
dns_packet_skipname buf len pos = skip_loop (len - pos) buf len pos

-- `if (namelen + 1 > sizeof name) goto PROTO;`
abbrev pub is_full : List ℕ → Bool
is_full name = leb 255 (length name)

-- The rounds of `dns_packet_getname`, the inner `while` included: each reads one byte. The fuel is
-- the program's own: `++loop >= 1000` allows 999 reads, and the read after them fails.
-- `state` counts the bytes of the label that are still to come, `first` is `firstcompress`, and
-- `name` the bytes so far. The result is the whole name and the position to return.
unfoldable pub getname_loop : ℕ → List ℕ → ℕ → ℕ → ℕ → ℕ → List ℕ → Option (List ℕ × ℕ)
getname_loop zero buf len pos first state name = none
getname_loop (suc left) buf len pos first (suc state) name =
    let ch = byte_at buf pos in
    let rest = getname_loop left buf len (pos + 1) first state (name ++ (ch ∷ [])) in
    if leb len pos || is_full name then none else rest
getname_loop (suc left) buf len pos first zero name =
    let ch = byte_at buf pos in
    let first' = if first == 0 then pos + 2 else first in
    let target = (ch - 192) <<< 8 + byte_at buf (pos + 1) in
    let jump = getname_loop left buf len target first' 0 name in
    let rest = getname_loop left buf len (pos + 1) first ch (name ++ (ch ∷ [])) in
    if leb len pos
    then none
    else if leb 192 ch
    then (if leb len (pos + 1) then none else jump)
    else if leb 64 ch || is_full name
    then none
    else if ch == 0
    then some (name ++ (0 ∷ []), if first == 0 then pos + 1 else first)
    else rest

-- `dns_domain_copy` keeps the bytes of the name up to its end.
unfoldable pub dns_domain_copy : List ℕ → List ℕ
dns_domain_copy dn = take (dns_domain_length dn) dn

unfoldable pub dns_packet_getname : List ℕ → ℕ → ℕ → Option (List ℕ × ℕ)
dns_packet_getname buf len pos = elim (getname_loop 999 buf len pos 0 0 []) [
  | none ↦ none
  | some (name, end) ↦ some (dns_domain_copy name, end)
]
