-- ===== src/Text.antt =====
-- src/scan_ulong.c, src/scan_ushort.c, src/fmt_ulong.c, src/case_lowerb.c and src/case_diffb.c:
-- decimal numbers and letter case on bytes.
-- A C string is the list of its bytes before the NUL. An `unsigned long` has 64 bits.
pub mod Decimal
pub mod Case
mod Runs
use geoipdns.Base.{
  ℕ, zero, suc, ◌+◌, ◌-◌, ◌*◌, ◌/◌, ◌%◌, Bool, true, false, List, [], ◌∷◌, ltb, leb, ◌==◌,
  if◌then◌else◌, map, u8, u16, u64,
}

-- `(unsigned char) (c - '0')`.
abbrev pub digit : ℕ → ℕ
digit c = u8 (c + 256 - b'0')

-- The loop of both scanners: the bytes taken, and the number; `wrap` is the width of `result`.
unfoldable pub scan_loop : (ℕ → ℕ) → List ℕ → ℕ → ℕ → ℕ × ℕ
scan_loop wrap [] pos result = (pos, result)
scan_loop wrap (c ∷ cs) pos result =
    let rest = scan_loop wrap cs (pos + 1) (wrap (wrap (result * 10) + digit c)) in
    if ltb (digit c) 10 then rest else (pos, result)

unfoldable pub scan_ulong : List ℕ → ℕ × ℕ
unfolding scan_loop
scan_ulong s = scan_loop u64 s 0 0

unfoldable pub scan_ushort : List ℕ → ℕ × ℕ
unfolding scan_loop
scan_ushort s = scan_loop u16 s 0 0

-- `do { *--s = '0' + (u % 10); u /= 10; } while (u);` before the digits already written. A round
-- divides by ten, so `u` rounds after the first are enough.
unfoldable pub fmt_loop : ℕ → ℕ → List ℕ → List ℕ
fmt_loop zero u out = (b'0' + u % 10) ∷ out
fmt_loop (suc fuel) u out =
    let more = fmt_loop fuel (u / 10) ((b'0' + u % 10) ∷ out) in
    if u / 10 == 0 then (b'0' + u % 10) ∷ out else more

unfoldable pub fmt_ulong : ℕ → List ℕ
unfolding fmt_loop
fmt_ulong u = fmt_loop u u []

-- `x = *s - 'A'; if (x <= 'Z' - 'A') *s = x + 'a';`
unfoldable pub lower : ℕ → ℕ
lower b = let x = u8 (b + 256 - b'A') in if leb x 25 then u8 (x + b'a') else b

unfoldable pub case_lowerb : List ℕ → List ℕ
case_lowerb s = map lower s

-- The byte as `case_diffb` compares it.
unfoldable pub fold_case : ℕ → ℕ
fold_case b = let x = u8 (b + 256 - b'A') in if leb x 25 then u8 (x + b'a') else u8 (x + b'A')

-- `case_diffb` is 0, for two arrays of the same length.
unfoldable pub case_equal : List ℕ → List ℕ → Bool
case_equal [] [] = true
case_equal [] (y ∷ ys) = false
case_equal (x ∷ xs) [] = false
case_equal (x ∷ xs) (y ∷ ys) = if fold_case x == fold_case y then case_equal xs ys else false
