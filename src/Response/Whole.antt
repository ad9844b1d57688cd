-- ===== src/Response/Whole.antt =====
-- The first name of a response: `response_query` writes it whole, without a pointer.
use geoipdns.Base.{
  ℕ, zero, suc, ◌≤◌, none, some, true, false, List, [], ◌∷◌, ◌++◌, length, ◌≡◌, refl, sym, ◌∙◌, ap,
  All, arith, length-append, append-nil, append_assoc, Yields, Yields-bind, Option-cases,
  Bool-cases, ◌⊎◌, inl, inr,
}
use mathlib.Core.Path.{subst}
use geoipdns.Dns.Name.{IsLabel, IsName, label, wire}
use geoipdns.Dns.Domain.{dns_domain_length, dns_domain_equal}
use geoipdns.Dns.Domain.Length.{dns_domain_length-wire}
use geoipdns.Dns.Domain.Equal.{dns_domain_equal_iff}
use geoipdns.Response.{
  Response, len, response_addbytes, find_name, addname_loop, response_addname, query_header,
  response_query,
}
use geoipdns.Response.Names.{IsLonger, All-snoc, same_length}
use geoipdns.Response.Added.{append_bytes, addbytes_inv, addname_root, addname_label, with_label}
use geoipdns.Response.Compress.{this_name, label_shape}

-- A name that the response holds, longer than `m` bytes.
abbrev Longer : ℕ → List ℕ × ℕ → Type 0
Longer m (name, ptr) = IsLonger m name

Longer-less :
    (m m' : ℕ) (names : List (List ℕ × ℕ)) → m' ≤ m → All (Longer m) names → All (Longer m') names
Longer-less m m' [] le h = tt
Longer-less m m' ((name, ptr) ∷ names) le (l, h) = (
  record {
    labels = l.labels;
    is_wire = l.is_wire;
    labels_fit = l.labels_fit;
    longer = omega (arith, l.longer);
  },
  Longer-less m m' names le h,
)

-- A longer name is another name.
unequal :
    (ls : List (List ℕ)) (name : List ℕ)
    → All IsLabel ls
    → IsLonger (length (wire ls)) name
    → dns_domain_equal (wire ls) name ≡ false
unequal ls name h l = elim (Bool-cases (dns_domain_equal (wire ls) name)) [
  | inl same ↦
      let e : dns_domain_equal (wire ls) (wire l.labels) ≡ true =
        subst (λ (x : List ℕ). dns_domain_equal (wire ls) x ≡ true) l.is_wire same in
      let e' : dns_domain_equal (wire ls ++ []) (wire l.labels ++ []) ≡ true =
        rw (append-nil (wire ls), append-nil (wire l.labels)) e in
      let low = (dns_domain_equal_iff ls l.labels [] [] h l.labels_fit).0 e' in
      absurd (omega (arith, l.longer, same_length ls l.labels h l.labels_fit low))
  | inr other ↦ other
]

find_name-Longer :
    (ls : List (List ℕ)) (names : List (List ℕ × ℕ))
    → All IsLabel ls
    → All (Longer (length (wire ls))) names
    → find_name (wire ls) names ≡ none
unfolding find_name
find_name-Longer ls [] h hn = refl
find_name-Longer ls ((name, ptr) ∷ names) h (l, hn) =
    rw (unequal ls name h l) (find_name-Longer ls names h hn)

-- A round that adds a label, where only longer names are held.
module _ (r : Response) (l : List ℕ) (ls : List (List ℕ)) where
  abbrev Shape : Response → Type 0
  Shape r2 = (with_label r l [] ≡ r2) ⊎ (with_label r l (this_name r l ls) ≡ r2)

  Shape-bytes : (r2 : Response) → Shape r2 → r2.bytes ≡ r.bytes ++ label l
  Shape-bytes r2 (inl s) = ap (λ (x : Response). x.bytes) (sym s)
  Shape-bytes r2 (inr s) = ap (λ (x : Response). x.bytes) (sym s)

  Shape-names :
      (r2 : Response)
      → All IsLabel (l ∷ ls)
      → All (Longer (length (wire (l ∷ ls)))) r.names
      → Shape r2
      → All (Longer (length (wire ls))) r2.names
  Shape-names r2 h hn (inl s) =
      subst (λ (x : Response). All (Longer (length (wire ls))) x.names) s
        (rw append-nil (
          Longer-less (length (wire (l ∷ ls))) (length (wire ls)) r.names
            (omega (arith, length-append l (wire ls))) hn))
  Shape-names r2 h hn (inr s) =
      subst (λ (x : Response). All (Longer (length (wire ls))) x.names) s
        (All-snoc _ r.names (this_name r l ls)
          (Longer-less (length (wire (l ∷ ls))) (length (wire ls)) r.names
            (omega (arith, length-append l (wire ls))) hn)
          (
            record {
              labels = l ∷ ls;
              is_wire = refl;
              labels_fit = h;
              longer = omega (arith, length-append l (wire ls));
            },
            tt,
          ))

addname_loop-whole :
    (fuel : ℕ) (ls : List (List ℕ)) (r : Response) {r' : Response}
    → All IsLabel ls
    → All (Longer (length (wire ls))) r.names
    → addname_loop fuel r (wire ls) (length (wire ls)) ≡ some r'
    → r'.bytes ≡ r.bytes ++ wire ls
addname_loop-whole zero ls r h hn e = absurd (unfold addname_loop in cc)
addname_loop-whole (suc fuel) [] r h hn e =
    ap (λ (x : Response). x.bytes)
      (sym (addbytes_inv r (0 ∷ []) (sym (addname_root fuel r 1) ∙ e)).0)
addname_loop-whole (suc fuel) (l ∷ ls) r {r'} h hn e =
    let (r2, added, rest) =
      addname_label fuel r l ls h.0.some_bytes (find_name-Longer (l ∷ ls) r.names h hn) e in
    let s = label_shape r l ls added in
    addname_loop-whole fuel ls r2 h.1 (Shape-names r l ls r2 h hn s) rest
    ∙ ap (λ (bs : List ℕ). bs ++ wire ls) (Shape-bytes r l ls r2 s)
    ∙ append_assoc r.bytes (label l) (wire ls)

addname-whole :
    (ls : List (List ℕ)) (r : Response)
    → r.names ≡ []
    → All IsLabel ls
    → Yields (λ r'. r'.bytes ≡ r.bytes ++ wire ls) (response_addname r (wire ls))
unfolding response_addname
addname-whole ls r none_yet h =
    let n = ap dns_domain_length (sym (append-nil (wire ls))) ∙ dns_domain_length-wire ls [] h in
    let start : All (Longer (length (wire ls))) r.names =
      subst (λ (ns : List (List ℕ × ℕ)). All (Longer (length (wire ls))) ns) (sym none_yet) tt in
    elim (Option-cases
      (addname_loop (length (wire ls)) r (wire ls) (dns_domain_length (wire ls)))) [
        | inl e ↦ rw e tt
        | inr (r', e) ↦
            let e' : addname_loop (length (wire ls)) r (wire ls) (length (wire ls)) ≡ some r' =
              ap (addname_loop (length (wire ls)) r (wire ls)) (sym n) ∙ e in
            rw e (addname_loop-whole (length (wire ls)) ls r h start e')
      ]

addbytes-appends :
    (r : Response) (buf : List ℕ) → Yields (λ r'. append_bytes r buf ≡ r') (response_addbytes r buf)
addbytes-appends r buf = elim (Option-cases (response_addbytes r buf)) [
  | inl e ↦ rw e tt
  | inr (r', e) ↦ rw e ((addbytes_inv r buf e).0)
]

-- The response to a question holds the header and the question, and `tctarget` is at its end.
pub record IsAsked (question : List ℕ) (r : Response) : Type 0 where
  pub bytes_are : r.bytes ≡ query_header ++ question
  pub target : r.tctarget ≡ len r

pub response_query-IsAsked :
    (r : Response) (ls : List (List ℕ)) (qtype qclass : List ℕ)
    → IsName ls
    → Yields (IsAsked (wire ls ++ (qtype ++ qclass))) (response_query r (wire ls) qtype qclass)
unfolding response_query
response_query-IsAsked r ls qtype qclass h =
    let asked = IsAsked (wire ls ++ (qtype ++ qclass)) in
    let r0 : Response = record r { bytes = []; names = [] } in
    Yields-bind (λ r1. append_bytes r0 query_header ≡ r1) asked _ _
      (addbytes-appends r0 query_header)
      (λ r1 e1.
        Yields-bind (λ r2. r2.bytes ≡ r1.bytes ++ wire ls) asked _ _
          (addname-whole ls r1 (ap (λ (x : Response). x.names) (sym e1)) h.labels)
          (λ r2 e2.
            Yields-bind (λ r3. append_bytes r2 qtype ≡ r3) asked _ _ (addbytes-appends r2 qtype)
              (λ r3 e3.
                Yields-bind (λ r4. append_bytes r3 qclass ≡ r4) asked _ _
                  (addbytes-appends r3 qclass)
                  (λ r4 e4. record {
                    bytes_are =
                        ap (λ (x : Response). x.bytes) (sym e4)
                        ∙ ap (λ (x : Response). x.bytes ++ qclass) (sym e3)
                        ∙ ap (λ (bs : List ℕ). (bs ++ qtype) ++ qclass)
                            (e2 ∙ ap (λ (x : Response). x.bytes ++ wire ls) (sym e1))
                        ∙ append_assoc (query_header ++ wire ls) qtype qclass
                        ∙ append_assoc query_header (wire ls) (qtype ++ qclass);
                    target = refl;
                  }))))
