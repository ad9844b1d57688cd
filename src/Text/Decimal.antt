-- ===== src/Text/Decimal.antt =====
-- A number is read back from its decimal digits.
use geoipdns.Base.{
  ℕ, zero, suc, ◌+◌, ◌*◌, ◌/◌, ◌%◌, ◌^◌, ◌<◌, ◌≤◌, List, [], ◌∷◌, ◌++◌, ◌≡◌, refl, ◌∙◌, ap, length,
  length-append, lt→ltb, ==_iff, arith, u64, Bool-cases, inl, inr, ◌==◌,
}
use geoipdns.Text.{digit, scan_loop, scan_ulong, fmt_loop, fmt_ulong}

-- The text goes on with no digit.
abbrev pub Ends : List ℕ → Type 0
Ends [] = Unit
Ends (c ∷ cs) = 10 ≤ digit c

scan_end : (rest : List ℕ) (pos r : ℕ) → Ends rest → scan_loop u64 rest pos r ≡ (pos, r)
unfolding scan_loop
scan_end [] pos r h = refl
scan_end (c ∷ cs) pos r h = ground arith

scan_digit :
    (u : ℕ) (out : List ℕ) (pos r : ℕ)
    → scan_loop u64 ((b'0' + u % 10) ∷ out) pos r
      ≡ scan_loop u64 out (pos + 1) (u64 (u64 (r * 10) + u % 10))
unfolding scan_loop
scan_digit u out pos r =
    let e : digit (48 + u % 10) ≡ u % 10 = omega arith in
    rw (e, lt→ltb (u % 10) 10 (omega arith)) refl

scan_first :
    (u : ℕ) (out : List ℕ)
    → u < 10
    → scan_loop u64 ((b'0' + u % 10) ∷ out) 0 0 ≡ scan_loop u64 out 1 u
scan_first u out h = scan_digit u out 0 0 ∙ ap (λ (v : ℕ). scan_loop u64 out 1 v) (omega arith)

-- The digits written before `out` are read as `u`.
scan-fmt_loop :
    (fuel u : ℕ) (out : List ℕ)
    → u ≤ fuel
    → u < 2 ^ 64
    → (n : ℕ) × (length (fmt_loop fuel u out) ≡ n + length out)
      × (scan_loop u64 (fmt_loop fuel u out) 0 0 ≡ scan_loop u64 out n u)
unfolding fmt_loop
scan-fmt_loop zero u out h h' = (1, omega arith, scan_first u out (omega arith))
scan-fmt_loop (suc fuel) u out h h' = elim (Bool-cases (u / 10 == 0)) [
  | inl z ↦ rw z (1, omega arith, scan_first u out (omega (arith, (==_iff (u / 10) 0).0 z)))
  | inr nz ↦ rw nz (
      let (n, len, e) =
        scan-fmt_loop fuel (u / 10) ((b'0' + u % 10) ∷ out) (ground arith) (omega arith) in
      (
        n + 1,
        omega (arith, len),
        e ∙ scan_digit u out n (u / 10) ∙ ap (λ (v : ℕ). scan_loop u64 out (n + 1) v) (omega arith),
      ))
]

fmt_loop-append :
    (fuel u : ℕ) (out rest : List ℕ) → fmt_loop fuel u (out ++ rest) ≡ fmt_loop fuel u out ++ rest
unfolding fmt_loop
fmt_loop-append zero u out rest = refl
fmt_loop-append (suc fuel) u out rest =
    ground (arith, fmt_loop-append fuel (u / 10) ((b'0' + u % 10) ∷ out) rest)

-- The decimal digits of an `unsigned long` are read back whole, whatever follows that is no digit.
pub scan_ulong-fmt_ulong :
    (u : ℕ) (rest : List ℕ)
    → u < 2 ^ 64
    → Ends rest
    → scan_ulong (fmt_ulong u ++ rest) ≡ (length (fmt_ulong u), u)
unfolding scan_ulong fmt_ulong
scan_ulong-fmt_ulong u rest h hr =
    let (n, len, e) = scan-fmt_loop u u rest (omega arith) h in
    rw (← fmt_loop-append u u [] rest) (
      e
      ∙ scan_end rest n u hr
      ∙ ap (λ (k : ℕ). (k, u))
          (omega (
            arith,
            len,
            ap length (fmt_loop-append u u [] rest),
            length-append (fmt_loop u u []) rest,
          )))
