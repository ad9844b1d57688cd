-- ===== src/Lookup/Parse.antt =====
-- What `find` in src/tdlookup.c makes of the data of a record.
use geoipdns.Base.{
  ℕ, ◌-◌, Bool, not, Option, none, some, List, [], ◌∷◌, length, byte_at, ltb, ◌==◌, if◌then◌else◌,
  ◌||◌,
}
use geoipdns.Uint.{uint32_unpack, uint32_unpack_big, tai_unpack}
use geoipdns.Cdb.{byte_equal}
use geoipdns.Tai.{tai_less, tai_sub}
use geoipdns.Dns.Packet.{dns_packet_copy}

-- The record: its type, its ttl, and the position of what follows in `data`.
pub record Taken : Type 0 where
  pub type : List ℕ
  pub ttl : ℕ
  pub dpos : ℕ

-- `return -1`, `continue`, and the end of the loop's body.
pub data Verdict : Type 0 where
  bad skip : Verdict
  take : Taken → Verdict

abbrev pub or_bad : Option (List ℕ × ℕ) → (List ℕ → ℕ → Verdict) → Verdict
or_bad none k = bad
or_bad (some (out, pos)) k = k out pos

-- `newttl` is a `double`: an integer, cut to the range from 2 to 3600, where it is exact.
unfoldable pub clamp_ttl : ℕ → ℕ
clamp_ttl x = if ltb x 3 then 2 else if ltb 3599 x then 3600 else x

abbrev pub eight_zeros : List ℕ
eight_zeros = 0 ∷ 0 ∷ 0 ∷ 0 ∷ 0 ∷ 0 ∷ 0 ∷ 0 ∷ []

-- From `if (byte_diff(ttd,8,…))` on. A ttd of zeros sets no limit; with a ttl of 0 it is the time at
-- which the record dies, and else the time at which it begins to live.
unfoldable pub check_ttd : ℕ → List ℕ → ℕ → List ℕ → ℕ → Verdict
check_ttd now type ttl ttd dpos =
    let cutoff = tai_unpack ttd in
    if byte_equal ttd eight_zeros
    then take (record { type = type; ttl = ttl; dpos = dpos })
    else if ttl == 0
    then (if tai_less cutoff now
        then skip
        else take (record { type = type; ttl = clamp_ttl (tai_sub cutoff now); dpos = dpos }))
    else (if tai_less cutoff now
        then take (record { type = type; ttl = ttl; dpos = dpos })
        else skip)

-- From `if (flagwild != (ch == '*'))` on.
unfoldable pub check_wild : ℕ → Bool → List ℕ → List ℕ → ℕ → ℕ → Verdict
check_wild now flagwild bytes type ch dpos =
    let n = length bytes in
    let wild = ch == b'*' in
    if (if flagwild then wild else not wild)
    then or_bad (dns_packet_copy bytes n dpos 4) (λ ttlstr dpos'.
      or_bad (dns_packet_copy bytes n dpos' 8)
        (λ ttd dpos2. check_ttd now type (uint32_unpack_big ttlstr) ttd dpos2))
    else skip

-- `(ch == '=' + 1) || (ch == '*' + 1)`
abbrev pub is_located : ℕ → Bool
is_located ch = ch == b'>' || ch == b'+'

unfoldable pub check_location : ℕ → ℕ → Bool → List ℕ → List ℕ → ℕ → ℕ → Verdict
unfolding check_wild check_ttd
check_location clientloc now flagwild bytes type ch dpos =
    if is_located ch
    then or_bad (dns_packet_copy bytes (length bytes) dpos 4) (λ recordloc dpos'.
      if uint32_unpack recordloc == clientloc
      then check_wild now flagwild bytes type (ch - 1) dpos'
      else skip)
    else check_wild now flagwild bytes type ch dpos

-- The body of the loop of `find` once the data are read.
unfoldable pub check_data : ℕ → ℕ → Bool → List ℕ → Verdict
unfolding check_location
check_data clientloc now flagwild bytes =
    or_bad (dns_packet_copy bytes (length bytes) 0 2) (λ type dpos.
      or_bad (dns_packet_copy bytes (length bytes) dpos 1)
        (λ ch dpos'. check_location clientloc now flagwild bytes type (byte_at ch 0) dpos'))
