-- ===== src/Dns/Domain/Equal.antt =====
-- `dns_domain_equal` compares names without regard to letter case.
use geoipdns.Base.{
  ℕ, true, false, take, take-append, List, ◌++◌, map, length, All, ◌≡◌, ◌↔◌, refl, sym, ap, ◌∙◌,
  inl, inr, ◌==◌, ==_iff, arith, Bool-cases, if◌then◌else◌,
}
use geoipdns.Text.{lower, case_equal}
use geoipdns.Text.Case.{case_equal_iff, length-lower}
use geoipdns.Dns.Name.{
  IsLabel, wire, wire-injective, lower_labels, map_lower-wire, IsLabel-lower, IsByte-wire,
}
use geoipdns.Dns.Domain.{dns_domain_equal}
use geoipdns.Dns.Domain.Length.{dns_domain_length-wire, take-dns_domain_length}

module _ (ls ms : List (List ℕ)) (rest more : List ℕ) (hl : All IsLabel ls)
    (hm : All IsLabel ms) where
  lowered : map lower (wire ls) ≡ map lower (wire ms) → lower_labels ls ≡ lower_labels ms
  lowered e =
      wire-injective _ _ (IsLabel-lower ls hl) (IsLabel-lower ms hm)
        (sym (map_lower-wire ls hl) ∙ e ∙ map_lower-wire ms hm)

  same_wire : lower_labels ls ≡ lower_labels ms → map lower (wire ls) ≡ map lower (wire ms)
  same_wire e = map_lower-wire ls hl ∙ ap wire e ∙ sym (map_lower-wire ms hm)

  same_length : map lower (wire ls) ≡ map lower (wire ms) → length (wire ls) ≡ length (wire ms)
  same_length e = omega (arith, ap length e, length-lower (wire ls), length-lower (wire ms))

  equal_step :
      dns_domain_equal (wire ls ++ rest) (wire ms ++ more)
      ≡ (if length (wire ls) == length (wire ms) then case_equal (wire ls) (wire ms) else false)
  unfolding dns_domain_equal
  equal_step =
      let t1 = take-dns_domain_length ls rest hl in
      let n1 = dns_domain_length-wire ls rest hl in
      let n2 = dns_domain_length-wire ms more hm in
      elim (Bool-cases (length (wire ls) == length (wire ms))) [
        | inl y ↦
            let n : length (wire ls) ≡ length (wire ms) = (==_iff _ _).0 y in
            rw (t1, n1, n2, y)
              (ap (case_equal (wire ls))
                (ap (λ (k : ℕ). take k (wire ms ++ more)) n ∙ take-append (wire ms) more))
        | inr n ↦ rw (t1, n1, n2, n) refl
      ]

  -- Two well-formed names compare equal exactly when their labels are the same in lower case,
  -- whatever stands behind them.
  pub dns_domain_equal_iff :
      (dns_domain_equal (wire ls ++ rest) (wire ms ++ more) ≡ true)
      ↔ (lower_labels ls ≡ lower_labels ms)
  dns_domain_equal_iff =
      let both = case_equal_iff (wire ls) (wire ms) (IsByte-wire ls hl) (IsByte-wire ms hm) in
      (
        λ e. lowered (both.0 (ground (arith, equal_step, e))),
        λ e. ground (arith, equal_step, both.1 (same_wire e), same_length (same_wire e)),
      )
