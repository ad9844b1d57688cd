-- ===== src/Dns/Name.antt =====
-- What a well-formed name is: the wire form of a list of labels.
use geoipdns.Base.{
  ℕ, ◌<◌, ◌≤◌, List, [], ◌∷◌, ◌++◌, map, length, All, IsByte, ◌≡◌, refl, ap, ap₂, ◌∙◌, arith, sym,
}
use geoipdns.Text.{lower}
use geoipdns.Text.Case.{lower_small, length-lower, All-lower}

-- A label holds 1 to 63 bytes.
pub record IsLabel (l : List ℕ) : Type 0 where
  pub some_bytes : 0 < length l
  pub at_most_63 : length l ≤ 63
  pub bytes : All IsByte l

abbrev pub label : List ℕ → List ℕ
label l = length l ∷ l

abbrev pub wire : List (List ℕ) → List ℕ
wire [] = 0 ∷ []
wire (l ∷ ls) = label l ++ wire ls

-- A name that the program accepts: labels, in 255 bytes at most.
pub record IsName (ls : List (List ℕ)) : Type 0 where
  pub labels : All IsLabel ls
  pub at_most_255 : length (wire ls) ≤ 255

pub length-wire : (ls : List (List ℕ)) → 0 < length (wire ls)
length-wire [] = omega arith
length-wire (l ∷ ls) = omega arith

append_split {ℓ} :
    {A : Type ℓ} (xs ys a b : List A)
    → length xs ≡ length ys
    → xs ++ a ≡ ys ++ b
    → (xs ≡ ys) × (a ≡ b)
append_split [] [] a b n e = (refl, e)
append_split [] (y ∷ ys) a b n e = absurd (omega arith)
append_split (x ∷ xs) [] a b n e = absurd (omega arith)
append_split (x ∷ xs) (y ∷ ys) a b n e =
    let r = append_split xs ys a b (omega arith) (cc) in (cc (r.0), r.1)

-- The wire form determines the labels.
pub wire-injective :
    (ls ms : List (List ℕ)) → All IsLabel ls → All IsLabel ms → wire ls ≡ wire ms → ls ≡ ms
wire-injective [] [] hl hm e = refl
wire-injective [] (m ∷ ms) hl hm e = absurd (ground (arith, hm.0.some_bytes))
wire-injective (l ∷ ls) [] hl hm e = absurd (ground (arith, hl.0.some_bytes))
wire-injective (l ∷ ls) (m ∷ ms) hl hm e =
    let r = append_split l m (wire ls) (wire ms) (cc) (cc) in
    ap₂ (λ x xs. x ∷ xs) r.0 (wire-injective ls ms hl.1 hm.1 r.1)

-- A name in lower case: the bytes of a label's length are no letters, so the labels stay.
abbrev pub lower_labels : List (List ℕ) → List (List ℕ)
lower_labels = map (map lower)

map-append_lower : (xs ys : List ℕ) → map lower (xs ++ ys) ≡ map lower xs ++ map lower ys
map-append_lower [] ys = refl
map-append_lower (x ∷ xs) ys = ap (λ zs. lower x ∷ zs) (map-append_lower xs ys)

pub map_lower-wire :
    (ls : List (List ℕ)) → All IsLabel ls → map lower (wire ls) ≡ wire (lower_labels ls)
map_lower-wire [] h = ap (λ (n : ℕ). n ∷ []) (lower_small 0 (omega arith))
map_lower-wire (l ∷ ls) h =
    ap₂ (λ (n : ℕ) (ns : List ℕ). n ∷ ns)
      (lower_small (length l) (omega (arith, h.0.at_most_63)) ∙ sym (length-lower l))
      (map-append_lower l (wire ls) ∙ ap (λ ns. map lower l ++ ns) (map_lower-wire ls h.1))

pub IsLabel-lower : (ls : List (List ℕ)) → All IsLabel ls → All IsLabel (lower_labels ls)
IsLabel-lower [] h = tt
IsLabel-lower (l ∷ ls) h = (
  record {
    some_bytes = omega (arith, length-lower l, h.0.some_bytes);
    at_most_63 = omega (arith, length-lower l, h.0.at_most_63);
    bytes = All-lower l h.0.bytes;
  },
  IsLabel-lower ls h.1,
)

All-append : (xs ys : List ℕ) → All IsByte xs → All IsByte ys → All IsByte (xs ++ ys)
All-append [] ys hx hy = hy
All-append (x ∷ xs) ys hx hy = (hx.0, All-append xs ys hx.1 hy)

pub IsByte-wire : (ls : List (List ℕ)) → All IsLabel ls → All IsByte (wire ls)
IsByte-wire [] h = omega arith
IsByte-wire (l ∷ ls) h =
    (omega (arith, h.0.at_most_63), All-append l (wire ls) h.0.bytes (IsByte-wire ls h.1))
