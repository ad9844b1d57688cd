-- ===== src/Text/Runs.antt =====
-- Concrete numbers and letters.
use geoipdns.Base.{[], ◌∷◌, ◌++◌, length, map, ◌≡◌, ◌↔◌, refl, arith, true, false}
use geoipdns.Text.{
  scan_loop, scan_ulong, scan_ushort, fmt_loop, fmt_ulong, lower, fold_case, case_equal,
}
use geoipdns.Text.Case.{case_equal_iff}
use geoipdns.Text.Decimal.{scan_ulong-fmt_ulong}

prints : fmt_ulong 1204 ≡ b'1' ∷ b'2' ∷ b'0' ∷ b'4' ∷ []
unfolding fmt_ulong fmt_loop
prints = refl

-- 65537 in five digits wraps in an `unsigned short`.
wraps : scan_ushort (b'6' ∷ b'5' ∷ b'5' ∷ b'3' ∷ b'7' ∷ []) ≡ (5, 1)
unfolding scan_ushort scan_loop
wraps = refl

scan_ulong-fmt_ulong_example :
    scan_ulong (fmt_ulong 1204 ++ (b'.' ∷ [])) ≡ (length (fmt_ulong 1204), 1204)
scan_ulong-fmt_ulong_example = scan_ulong-fmt_ulong 1204 (b'.' ∷ []) (omega arith) (omega arith)

case_equal_iff_example :
    (case_equal (b'a' ∷ b'B' ∷ []) (b'A' ∷ b'b' ∷ []) ≡ true)
    ↔ (map lower (b'a' ∷ b'B' ∷ []) ≡ map lower (b'A' ∷ b'b' ∷ []))
case_equal_iff_example =
    case_equal_iff (b'a' ∷ b'B' ∷ []) (b'A' ∷ b'b' ∷ []) omega arith omega arith

-- The bytes around the letters keep their difference.
brackets_differ : case_equal (b'[' ∷ []) (b'{' ∷ []) ≡ false
unfolding case_equal fold_case
brackets_differ = refl
