-- ===== src/Lookup/Answer/Taken.antt =====
-- The records of a name that src/tdlookup.c takes for a client.
use geoipdns.Base.{
  ℕ, ◌<◌, Bool, false, ◌||◌, Option, none, some, List, [], ◌∷◌, length, ltb, if◌then◌else◌, ◌>>=◌,
  ◌≡◌, refl, sym, ◌∙◌, inl, inr, Bool-cases, arith,
}
use mathlib.Core.Path.{subst}
use geoipdns.Cdb.{byte_equal}
use geoipdns.Lookup.Parse.{Taken, Verdict, bad, skip, take as taken, check_data}
use geoipdns.Lookup.Find.Refine.{first_taken}

-- All that is taken of the data, in order: `none` if one is bad or too long.
unfoldable pub all_taken : ℕ → ℕ → Bool → List (List ℕ) → Option (List Taken)
all_taken clientloc now flagwild [] = some []
all_taken clientloc now flagwild (d ∷ ds) =
    let rest = all_taken clientloc now flagwild ds in
    if ltb 32767 (length d) then none else elim (check_data clientloc now flagwild d) [
      | bad ↦ none
      | skip ↦ rest
      | taken t ↦ rest >>= λ ts. some (t ∷ ts)
    ]

-- Whether a record of the type is among them.
unfoldable pub has_type : List ℕ → List Taken → Bool
has_type type [] = false
has_type type (t ∷ ts) = let rest = has_type type ts in byte_equal t.type type || rest

-- How the first that is taken and all that are taken hang together.
abbrev pub IsFirst :
    ℕ → ℕ → Bool → List (List ℕ) → Option (Option (List ℕ × Taken × List (List ℕ))) → Type 0
IsFirst clientloc now flagwild ds none = all_taken clientloc now flagwild ds ≡ none
IsFirst clientloc now flagwild ds (some none) = all_taken clientloc now flagwild ds ≡ some []
IsFirst clientloc now flagwild ds (some (some (d, t, rest))) =
    (all_taken clientloc now flagwild ds
      ≡ (all_taken clientloc now flagwild rest >>= λ ts. some (t ∷ ts)))
    × (length rest < length ds)

further-IsFirst :
    (clientloc now : ℕ) (flagwild : Bool) (d : List ℕ) (ds : List (List ℕ))
    (f : Option (Option (List ℕ × Taken × List (List ℕ))))
    → all_taken clientloc now flagwild (d ∷ ds) ≡ all_taken clientloc now flagwild ds
    → IsFirst clientloc now flagwild ds f
    → IsFirst clientloc now flagwild (d ∷ ds) f
further-IsFirst clientloc now flagwild d ds none e h = e ∙ h
further-IsFirst clientloc now flagwild d ds (some none) e h = e ∙ h
further-IsFirst clientloc now flagwild d ds (some (some (b, t, rest))) e h =
    (e ∙ h.0, omega (arith, h.1))

judged-IsFirst :
    (clientloc now : ℕ) (flagwild : Bool) (d : List ℕ) (ds : List (List ℕ)) (v : Verdict)
    → ltb 32767 (length d) ≡ false
    → check_data clientloc now flagwild d ≡ v
    → IsFirst clientloc now flagwild ds (first_taken clientloc now flagwild ds)
    → IsFirst clientloc now flagwild (d ∷ ds) (first_taken clientloc now flagwild (d ∷ ds))
unfolding all_taken first_taken
judged-IsFirst clientloc now flagwild d ds bad short e h =
    let same' : first_taken clientloc now flagwild (d ∷ ds) ≡ none = rw (short, e) refl in
    subst (IsFirst clientloc now flagwild (d ∷ ds)) (sym same') (rw (short, e) refl)
judged-IsFirst clientloc now flagwild d ds skip short e h =
    let same : all_taken clientloc now flagwild (d ∷ ds) ≡ all_taken clientloc now flagwild ds =
      rw (short, e) refl in
    let same' : first_taken clientloc now flagwild (d ∷ ds)
        ≡ first_taken clientloc now flagwild ds =
      rw (short, e) refl in
    subst (IsFirst clientloc now flagwild (d ∷ ds)) (sym same')
      (further-IsFirst clientloc now flagwild d ds _ same h)
judged-IsFirst clientloc now flagwild d ds (taken t) short e h =
    let same' : first_taken clientloc now flagwild (d ∷ ds) ≡ some (some (d, t, ds)) =
      rw (short, e) refl in
    subst (IsFirst clientloc now flagwild (d ∷ ds)) (sym same') (rw (short, e) refl, omega arith)

pub first_taken-IsFirst :
    (clientloc now : ℕ) (flagwild : Bool) (ds : List (List ℕ))
    → IsFirst clientloc now flagwild ds (first_taken clientloc now flagwild ds)
unfolding all_taken first_taken
first_taken-IsFirst clientloc now flagwild [] = refl
first_taken-IsFirst clientloc now flagwild (d ∷ ds) = elim (Bool-cases (ltb 32767 (length d))) [
  | inl long ↦ rw (long, first_taken) (rw (long, all_taken) refl)
  | inr short ↦
      judged-IsFirst clientloc now flagwild d ds _ short refl
        (first_taken-IsFirst clientloc now flagwild ds)
]
