-- ===== src/Compile/Parse.antt =====
-- How src/vdnsdb.c takes a line apart, with src/getln.c and src/byte_chr.c.
use geoipdns.Base.{
  ℕ, zero, suc, ◌+◌, ◌-◌, Bool, true, false, ◌&&◌, ◌||◌, none, some, List, [], ◌∷◌, ◌++◌, length,
  take, drop, set, replicate, byte_at, ltb, leb, ◌==◌, if◌then◌else◌, u8, ◌<<<◌, ◌>>>◌, bit_and,
  bit_or,
}
use geoipdns.Text.{scan_ulong}
use geoipdns.Dns.Dot.{next_char}

-- A hexadecimal digit; anything else counts as 0.
unfoldable pub hex_digit : ℕ → ℕ
hex_digit ch =
    if leb b'0' ch && leb ch b'9'
    then ch - b'0'
    else if leb b'a' ch && leb ch b'f'
    then ch - (b'a' - 10)
    else 0

-- `ttd[i >> 1] |= ch`, where the first digit of a byte is its high half.
unfoldable pub ttd_loop : ℕ → List ℕ → List ℕ → List ℕ
unfolding hex_digit
ttd_loop i [] ttd = ttd
ttd_loop i (c ∷ sa) ttd =
    let ch = if bit_and i 1 == 0 then u8 (hex_digit c <<< 4) else hex_digit c in
    ttd_loop (i + 1) sa (set ttd (i >>> 1) (bit_or (byte_at ttd (i >>> 1)) ch))

unfoldable pub ttdparse : List ℕ → List ℕ
unfolding ttd_loop
ttdparse sa = ttd_loop 0 (take 16 sa) (replicate 8 0)

-- Each round takes a byte at least.
unfoldable pub ipprefix_loop : ℕ → List ℕ → List ℕ → List ℕ
ipprefix_loop zero out s = out
ipprefix_loop (suc fuel) out s =
    let (j, u) = scan_ulong s in
    elim (byte_at s 0 == b'.') [
      | true ↦ ipprefix_loop fuel out (drop 1 s)
      | false ↦ elim (j == 0) [
        | true ↦ out
        | false ↦ ipprefix_loop fuel (out ++ (u8 u ∷ [])) (drop j s)
      ]
    ]

unfoldable pub ipprefix_cat : List ℕ → List ℕ → List ℕ
ipprefix_cat out s = ipprefix_loop (length s + 1) out s

-- The escapes are those of a name. Each round takes a byte at least.
unfoldable pub txt_loop : ℕ → List ℕ → List ℕ
txt_loop zero sa = []
txt_loop (suc fuel) [] = []
txt_loop (suc fuel) (ch ∷ sa) = elim (next_char ch sa) [
  | none ↦ []
  | some (c, rest) ↦ c ∷ txt_loop fuel rest
]

unfoldable pub txtparse : List ℕ → List ℕ
unfolding txt_loop
txtparse sa = txt_loop (length sa) sa

-- `byte_chr(s,n,c)`: how many bytes stand before the first `c`, or all of them.
unfoldable pub byte_chr : List ℕ → ℕ → ℕ
byte_chr [] c = 0
byte_chr (ch ∷ s) c = let rest = byte_chr s c in if ch == c then 0 else rest + 1

-- A line, with its end; `match`; and what is left of the input.
unfoldable pub getln : List ℕ → List ℕ × Bool × List ℕ
unfolding byte_chr
getln input =
    let n = byte_chr input b'\n' in (take (n + 1) input, ltb n (length input), drop (n + 1) input)

abbrev pub is_blank : ℕ → Bool
is_blank ch = ch == b' ' || ch == b'\t' || ch == b'\n'

-- The loop that drops the blanks at the end of a line.
unfoldable pub trim : List ℕ → List ℕ
trim [] = []
trim (ch ∷ line) =
    let rest = trim line in if (length rest == 0) && is_blank ch then [] else ch ∷ rest

-- The loop over the fields; `rest` is the line from `j` on.
unfoldable pub fields_loop : ℕ → List ℕ → List (List ℕ)
unfolding byte_chr
fields_loop zero rest = []
fields_loop (suc left) rest =
    let k = byte_chr rest b':' in take k rest ∷ fields_loop left (drop (k + 1) rest)

-- NUMFIELDS fields, from the second byte of the line on.
unfoldable pub fields : List ℕ → List (List ℕ)
unfolding fields_loop
fields line = fields_loop 17 (drop 1 line)
