-- ===== src/Response/Names.antt =====
-- The names that a response holds, for compression.
use geoipdns.Base.{
  ℕ, ◌+◌, ◌<◌, ◌≤◌, true, some, List, [], ◌∷◌, ◌++◌, length, ◌≡◌, sym, ◌∙◌, ap, ap₂, All, arith,
  length-append, append-nil, ◌⊎◌, inl, inr, Bool-cases,
}
use mathlib.Core.Path.{subst}
use geoipdns.Text.Case.{length-lower}
use geoipdns.Dns.Name.{IsLabel, wire, lower_labels, map_lower-wire}
use geoipdns.Dns.Domain.{dns_domain_equal}
use geoipdns.Dns.Domain.Equal.{dns_domain_equal_iff}
use geoipdns.Dns.Packet.Encoded.{Encoded, Encoded-append}
use geoipdns.Response.{find_name}

-- The rounds that reading a name can take: one for each byte, and one for a pointer before each
-- label and before the root.
abbrev pub bound : List (List ℕ) → ℕ
bound ls = length (wire ls) + length ls

-- A name that was added: where its place is, the response holds it in some mix of letter case.
pub record IsStored (bytes name : List ℕ) (ptr : ℕ) : Type 0 where
  pub labels : List (List ℕ)
  pub held : List (List ℕ)
  pub reads : ℕ
  pub stop : ℕ
  pub is_wire : name ≡ wire labels
  pub labels_fit : All IsLabel labels
  pub same : lower_labels held ≡ lower_labels labels
  pub encoded : Encoded bytes (length bytes) ptr held reads stop
  pub few : reads < bound held
  pub small : ptr < 16384

-- A name of which only the place is known so far, and that is longer than the name being added.
pub record IsLonger (m : ℕ) (name : List ℕ) : Type 0 where
  pub labels : List (List ℕ)
  pub is_wire : name ≡ wire labels
  pub labels_fit : All IsLabel labels
  pub longer : m < length (wire labels)

abbrev pub Entry : List ℕ → ℕ → List ℕ × ℕ → Type 0
Entry bytes m (name, ptr) = IsStored bytes name ptr ⊎ IsLonger m name

abbrev pub Stored : List ℕ → List ℕ × ℕ → Type 0
Stored bytes (name, ptr) = IsStored bytes name ptr

IsStored-append :
    (bytes more name : List ℕ) (ptr : ℕ)
    → IsStored bytes name ptr
    → IsStored (bytes ++ more) name ptr
IsStored-append bytes more name ptr s = record {
  labels = s.labels;
  held = s.held;
  reads = s.reads;
  stop = s.stop;
  is_wire = s.is_wire;
  labels_fit = s.labels_fit;
  same = s.same;
  encoded =
      Encoded-append bytes more (length bytes) (length (bytes ++ more)) (omega arith)
        (omega (arith, length-append bytes more)) s.encoded;
  few = s.few;
  small = s.small;
}

pub Stored-append :
    (bytes more : List ℕ) (names : List (List ℕ × ℕ))
    → All (Stored bytes) names
    → All (Stored (bytes ++ more)) names
Stored-append bytes more [] h = tt
Stored-append bytes more ((name, ptr) ∷ names) h =
    (IsStored-append bytes more name ptr h.0, Stored-append bytes more names h.1)

pub Entry-append :
    (bytes more : List ℕ) (m m' : ℕ) (names : List (List ℕ × ℕ))
    → m' ≤ m
    → All (Entry bytes m) names
    → All (Entry (bytes ++ more) m') names
Entry-append bytes more m m' [] le h = tt
Entry-append bytes more m m' ((name, ptr) ∷ names) le (inl s, h) =
    (inl (IsStored-append bytes more name ptr s), Entry-append bytes more m m' names le h)
Entry-append bytes more m m' ((name, ptr) ∷ names) le (inr l, h) = (
  inr (record {
    labels = l.labels;
    is_wire = l.is_wire;
    labels_fit = l.labels_fit;
    longer = omega (arith, l.longer);
  }),
  Entry-append bytes more m m' names le h,
)

pub Stored-Entry :
    (bytes : List ℕ) (m : ℕ) (names : List (List ℕ × ℕ))
    → All (Stored bytes) names
    → All (Entry bytes m) names
Stored-Entry bytes m [] h = tt
Stored-Entry bytes m ((name, ptr) ∷ names) h = (inl h.0, Stored-Entry bytes m names h.1)

pub All-snoc {ℓ κ} :
    {A : Type ℓ} (P : A → Type κ) (xs ys : List A) → All P xs → All P ys → All P (xs ++ ys)
All-snoc P [] ys hx hy = hy
All-snoc P (x ∷ xs) ys hx hy = (hx.0, All-snoc P xs ys hx.1 hy)

-- Names that are the same in lower case are equally long.
pub same_length :
    (ls ms : List (List ℕ))
    → All IsLabel ls
    → All IsLabel ms
    → lower_labels ls ≡ lower_labels ms
    → length (wire ls) ≡ length (wire ms)
same_length ls ms hl hm e =
    let low = map_lower-wire ls hl ∙ ap wire e ∙ sym (map_lower-wire ms hm) in
    omega (arith, ap length low, length-lower (wire ls), length-lower (wire ms))

equal_names :
    (ls ms : List (List ℕ))
    → All IsLabel ls
    → All IsLabel ms
    → dns_domain_equal (wire ls) (wire ms) ≡ true
    → lower_labels ls ≡ lower_labels ms
equal_names ls ms hl hm e =
    (dns_domain_equal_iff ls ms [] [] hl hm).0
      (ap₂ dns_domain_equal (append-nil (wire ls)) (append-nil (wire ms)) ∙ e)

-- At `ptr` the response holds the name `ls` in some mix of letter case.
pub record IsHeld (bytes : List ℕ) (ls : List (List ℕ)) (ptr : ℕ) : Type 0 where
  pub held : List (List ℕ)
  pub reads : ℕ
  pub stop : ℕ
  pub encoded : Encoded bytes (length bytes) ptr held reads stop
  pub same : lower_labels held ≡ lower_labels ls
  pub few : reads < bound held
  pub small : ptr < 16384

found_here :
    (bytes : List ℕ) (ls : List (List ℕ)) (name : List ℕ) (ptr : ℕ)
    → All IsLabel ls
    → Entry bytes (length (wire ls)) (name, ptr)
    → dns_domain_equal (wire ls) name ≡ true
    → IsHeld bytes ls ptr
found_here bytes ls name ptr h (inl s) e =
    let e' = ap (dns_domain_equal (wire ls)) (sym s.is_wire) ∙ e in
    record {
      held = s.held;
      reads = s.reads;
      stop = s.stop;
      encoded = s.encoded;
      same = s.same ∙ sym (equal_names ls s.labels h s.labels_fit e');
      few = s.few;
      small = s.small;
    }
found_here bytes ls name ptr h (inr l) e =
    let e' = ap (dns_domain_equal (wire ls)) (sym l.is_wire) ∙ e in
    let n = same_length ls l.labels h l.labels_fit (equal_names ls l.labels h l.labels_fit e') in
    absurd (omega (arith, n, l.longer))

-- A place that is found holds the name.
pub find_name-IsHeld :
    (bytes : List ℕ) (ls : List (List ℕ)) (names : List (List ℕ × ℕ)) {ptr : ℕ}
    → All IsLabel ls
    → All (Entry bytes (length (wire ls))) names
    → find_name (wire ls) names ≡ some ptr
    → IsHeld bytes ls ptr
unfolding find_name
find_name-IsHeld bytes ls [] h hn e = absurd (cc)
find_name-IsHeld bytes ls ((name, place) ∷ names) {ptr} h hn e =
    elim (Bool-cases (dns_domain_equal (wire ls) name)) [
      | inl y ↦
          let here : place ≡ ptr = ground (arith, y) in
          subst (λ p. IsHeld bytes ls p) here (found_here bytes ls name place h hn.0 y)
      | inr n ↦ find_name-IsHeld bytes ls names h hn.1 (ground (arith, n))
    ]
