-- ===== src/Dns/Dot.antt =====
-- src/dns_dfd.c and src/dns_dtda.c: names as text, with a dot between the labels.
-- The text is the list of its bytes, `n` of them; `label` holds the bytes of the label that is being
-- read, and `name` those of the labels before it.
pub mod Parsed
mod Runs
use geoipdns.Base.{
  ℕ, zero, suc, ◌+◌, ◌-◌, ◌/◌, ◌%◌, Bool, true, false, ◌&&◌, ◌||◌, Option, none, some, List, [],
  ◌∷◌, ◌++◌, length, take, drop, byte_at, ltb, leb, ◌==◌, if◌then◌else◌, ◌>>=◌, u8, ◌<<<◌, bit_and,
  ◌>>>◌,
}

-- `if (labellen) …`: the label goes behind the name, if 255 bytes hold them.
unfoldable pub add_label : List ℕ → List ℕ → Option (List ℕ)
add_label name label =
    if length label == 0
    then some name
    else if ltb 255 (length name + length label + 1)
    then none
    else some (name ++ (length label ∷ label))

abbrev pub is_octal : ℕ → Bool
is_octal ch = leb b'0' ch && leb ch b'7'

-- One more digit of an escape: the new `ch` and the text behind the digit.
unfoldable pub octal_digit : ℕ → List ℕ → Option (ℕ × List ℕ)
octal_digit ch [] = none
octal_digit ch (c ∷ buf) = if is_octal c then some (u8 (u8 (ch <<< 3) + (c - b'0')), buf) else none

-- What follows a backslash: three octal digits at most, or one byte that stands for itself.
unfoldable pub escaped : ℕ → List ℕ → ℕ × List ℕ
escaped c buf =
    let ch = c - b'0' in
    if is_octal c
    then elim (octal_digit ch buf) [
      | none ↦ (ch, buf)
      | some (ch1, buf1) ↦ elim (octal_digit ch1 buf1) [ none ↦ (ch1, buf1) | some r ↦ r ]
    ]
    else (c, buf)

-- The byte that `ch` begins, and the text behind it; `none` is the `break` after a last backslash.
unfoldable pub next_char : ℕ → List ℕ → Option (ℕ × List ℕ)
next_char ch buf =
    if ch == 92 then elim buf [ [] ↦ none | c ∷ rest ↦ some (escaped c rest) ] else some (ch, buf)

-- The loop: each round takes a byte of the text at least. The result is `name` and `label` at its
-- end.
unfoldable pub fromdot_loop : ℕ → List ℕ → List ℕ → List ℕ → Option (List ℕ × List ℕ)
fromdot_loop zero buf label name = none
fromdot_loop (suc fuel) [] label name = some (name, label)
fromdot_loop (suc fuel) (ch ∷ buf) label name = elim (ch == b'.') [
  | true ↦ (add_label name label >>= λ name'. fromdot_loop fuel buf [] name')
  | false ↦ elim (next_char ch buf) [
    | none ↦ some (name, label)
    | some (c, rest) ↦ elim (leb 63 (length label)) [
      | true ↦ none
      | false ↦ fromdot_loop fuel rest (label ++ (c ∷ [])) name
    ]
  ]
]

unfoldable pub dns_domain_fromdot : List ℕ → Option (List ℕ)
dns_domain_fromdot buf = do
  (name, label) ← fromdot_loop (length buf + 1) buf [] []
  name' ← add_label name label
  if ltb 255 (length name' + 1) then none else some (name' ++ (0 ∷ []))

-- A byte of a label in text: a letter in lower case, a digit, a dash or a low line as it is, and
-- anything else as a backslash and three octal digits.
unfoldable pub printed : ℕ → List ℕ
printed byte =
    let ch2 = if leb b'A' byte && leb byte b'Z' then byte + 32 else byte in
    if (leb b'a' ch2 && leb ch2 b'z')
      || (leb b'0' ch2 && leb ch2 b'9')
      || ch2 == b'-'
      || ch2 == b'_'
    then ch2 ∷ []
    else 92
      ∷ (b'0' + bit_and (ch2 >>> 3 >>> 3) 7)
      ∷ (b'0' + bit_and (ch2 >>> 3) 7)
      ∷ (b'0' + bit_and ch2 7)
      ∷ []

unfoldable pub printed_label : List ℕ → List ℕ
unfolding printed
printed_label [] = []
printed_label (ch2 ∷ bytes) = printed ch2 ++ printed_label bytes

-- The loop over the labels. The lengths are below 128, so that `char` reads them right; a round takes
-- a byte at least.
unfoldable pub todot_loop : ℕ → List ℕ → List ℕ → List ℕ
unfolding printed_label
todot_loop zero out d = out
todot_loop (suc fuel) out d =
    let ch = byte_at d 0 in
    let out' = out ++ printed_label (take ch (drop 1 d)) in
    let rest = drop (ch + 1) d in
    elim (byte_at rest 0 == 0) [ true ↦ out' | false ↦ todot_loop fuel (out' ++ (b'.' ∷ [])) rest ]

unfoldable pub dns_domain_todot_cat : List ℕ → List ℕ → List ℕ
dns_domain_todot_cat out d =
    if byte_at d 0 == 0 then out ++ (b'.' ∷ []) else todot_loop (length d) out d
