-- ===== src/Response/Compress.antt =====
-- `response_addname`: what it adds, read back, is the name.
use geoipdns.Base.{
  ℕ, zero, suc, ◌<◌, ◌≤◌, some, List, [], ◌∷◌, ◌++◌, length, ◌≡◌, refl, sym, ◌∙◌, ap, All, arith,
  length-append, append-nil, take_all, Option-cases, ◌⊎◌, inl, inr,
}
use mathlib.Core.Path.{subst, subst₂}
use geoipdns.Dns.Name.{IsLabel, IsName, label, wire, lower_labels}
use geoipdns.Dns.Domain.{dns_domain_length}
use geoipdns.Dns.Domain.Length.{dns_domain_length-wire}
use geoipdns.Dns.Packet.{dns_packet_getname}
use geoipdns.Dns.Packet.Encoded.{Encoded, root, part, pointer, dns_packet_getname-Encoded}
use geoipdns.Response.{
  Response, len, response_addbytes, find_name, remember, addname_loop, response_addname,
}
use geoipdns.Response.Names.{
  Entry, Stored, Stored-append, Entry-append, Stored-Entry, All-snoc, same_length, find_name-IsHeld,
}
use geoipdns.Response.Added.{
  IsAdded, append_bytes, addbytes_inv, addname_root, addname_pointer, addname_label, remember_lem,
  root-IsAdded, pointer-IsAdded, with_label, name-Stored, label-IsAdded,
}

-- What a round that adds a label leaves: the name is remembered, or there was no room for it.
module _ (r : Response) (l : List ℕ) (ls : List (List ℕ)) where
  abbrev pub this_name : List (List ℕ × ℕ)
  this_name = (wire (l ∷ ls), len r) ∷ []

  with_no_name : append_bytes r (label l) ≡ with_label r l []
  with_no_name =
      ap (λ ns. record r { bytes = r.bytes ++ label l; names = ns }) (sym (append-nil r.names))

  pub label_shape :
      {r2 : Response}
      → response_addbytes (remember r (wire (l ∷ ls)) (length (wire (l ∷ ls)))) (label l) ≡ some r2
      → (with_label r l [] ≡ r2) ⊎ (with_label r l this_name ≡ r2)
  label_shape {r2} e = elim (remember_lem r (wire (l ∷ ls)) (length (wire (l ∷ ls)))) [
    | inl old ↦ inl (sym with_no_name ∙ ap (λ x. append_bytes x (label l)) (sym old) ∙ grown)
    | inr new ↦ inr (
        ap (λ name. with_label r l ((name, len r) ∷ [])) (sym (take_all (wire (l ∷ ls))))
        ∙ ap (λ x. append_bytes x (label l)) (sym new)
        ∙ grown)
  ]
    where
      grown : append_bytes (remember r (wire (l ∷ ls)) (length (wire (l ∷ ls)))) (label l) ≡ r2
      grown = (addbytes_inv (remember r (wire (l ∷ ls)) (length (wire (l ∷ ls)))) (label l) e).0

  module _ (hls : All IsLabel (l ∷ ls))
      (hn : All (Entry r.bytes (length (wire (l ∷ ls)))) r.names) where
    shorter : length (wire ls) < length (wire (l ∷ ls))
    shorter = omega (arith, length-append l (wire ls))

    old_entries : All (Entry (r.bytes ++ label l) (length (wire ls))) r.names
    old_entries = Entry-append r.bytes (label l) _ _ r.names (omega (arith, shorter)) hn

    entries : All (Entry (r.bytes ++ label l) (length (wire ls))) (r.names ++ this_name)
    entries =
        All-snoc _ r.names this_name old_entries
          (inr (record { labels = l ∷ ls; is_wire = refl; labels_fit = hls; longer = shorter }), tt)

    -- The round, given what the rounds after it do.
    label_step :
        {r2 r' : Response}
        → (with_label r l [] ≡ r2) ⊎ (with_label r l this_name ≡ r2)
        → len r' ≤ 16384
        → (All (Entry r2.bytes (length (wire ls))) r2.names → IsAdded r2 r' ls)
        → IsAdded r r' (l ∷ ls)
    label_step {r2} {r'} (inl s) small rest =
        let a =
          subst (λ x. (All (Entry x.bytes (length (wire ls))) x.names → IsAdded x r' ls)) (sym s)
            rest (rw append-nil old_entries) in
        label-IsAdded r l ls [] hls.0 hls.1 a tt
    label_step {r2} {r'} (inr s) small rest =
        let a =
          subst (λ x. (All (Entry x.bytes (length (wire ls))) x.names → IsAdded x r' ls)) (sym s)
            rest entries in
        label-IsAdded r l ls this_name hls.0 hls.1 a
          (name-Stored r l ls this_name hls.0 hls.1 a small, tt)

-- The whole loop. The names that the response holds at its start are in place, or longer than the
-- name that is added, as those are that the rounds before have remembered.
addname_loop-IsAdded :
    (fuel : ℕ) (ls : List (List ℕ)) (r : Response) {r' : Response}
    → All IsLabel ls
    → All (Entry r.bytes (length (wire ls))) r.names
    → len r' ≤ 16384
    → addname_loop fuel r (wire ls) (length (wire ls)) ≡ some r'
    → IsAdded r r' ls
addname_loop-IsAdded zero ls r h hn small e = absurd (unfold addname_loop in cc)
addname_loop-IsAdded (suc fuel) [] r h hn small e = root-IsAdded r (sym (addname_root fuel r 1) ∙ e)
addname_loop-IsAdded (suc fuel) (l ∷ ls) r {r'} h hn small e =
    elim (Option-cases (find_name (wire (l ∷ ls)) r.names)) [
      | inr (ptr, f) ↦
          pointer-IsAdded r (l ∷ ls) (find_name-IsHeld r.bytes (l ∷ ls) r.names h hn f)
            (sym (addname_pointer fuel r l ls (length (wire (l ∷ ls))) h.0.some_bytes f) ∙ e)
      | inl f ↦
          let (r2, added, rest) = addname_label fuel r l ls h.0.some_bytes f e in
          label_step r l ls h hn (label_shape r l ls added) small
            (λ hn'. addname_loop-IsAdded fuel ls r2 h.1 hn' small rest)
    ]

Encoded-IsLabel :
    {buf : List ℕ} {len' pos n stop : ℕ} {ls : List (List ℕ)}
    → Encoded buf len' pos ls n stop
    → All IsLabel ls
Encoded-IsLabel (root hp hz hr hs) = tt
Encoded-IsLabel (part hl hp hz hb e hr) = (hl, Encoded-IsLabel e)
Encoded-IsLabel (pointer hp hz ht e hr hs) = Encoded-IsLabel e

labels-le-wire : (ls : List (List ℕ)) → length ls ≤ length (wire ls)
labels-le-wire [] = omega arith
labels-le-wire (l ∷ ls) = omega (arith, labels-le-wire ls, length-append l (wire ls))

-- Every name that the response holds is in its place.
abbrev pub HasNames : Response → Type 0
HasNames r = All (Stored r.bytes) r.names

-- Adding a well-formed name to a response whose names are in place, if it succeeds and the response
-- then has 16384 bytes at most, which is the reach of a pointer: it keeps what is there, and leaves the
-- names in place, and the name that `dns_packet_getname` then reads where the new bytes begin is the one
-- that was added, but for letter case, and it ends at the end of the response.
pub response_addname_lem :
    (r : Response) (ls : List (List ℕ)) {r' : Response}
    → HasNames r
    → IsName ls
    → len r' ≤ 16384
    → response_addname r (wire ls) ≡ some r'
    → HasNames r'
      × ((more : List ℕ) × (r'.bytes ≡ r.bytes ++ more))
      × ((held : List (List ℕ)) × (dns_packet_getname r'.bytes (len r') (len r)
            ≡ some (wire held, len r'))
          × (lower_labels held ≡ lower_labels ls))
unfolding response_addname
response_addname_lem r ls {r'} hn h small e =
    let start = Stored-Entry r.bytes (length (wire ls)) r.names hn in
    let n =
      ap dns_domain_length (sym (append-nil (wire ls))) ∙ dns_domain_length-wire ls [] h.labels in
    let a =
      addname_loop-IsAdded (length (wire ls)) ls r h.labels start small
        (ap (addname_loop (length (wire ls)) r (wire ls)) (sym n) ∙ e) in
    let fit = Encoded-IsLabel a.encoded in
    let size = same_length a.held ls fit h.labels a.same in
    (
      subst₂ (λ bytes names. All (Stored bytes) names) (sym a.bytes_grow) (sym a.names_grow)
          (All-snoc _ r.names a.new (Stored-append r.bytes a.more r.names hn)
            (subst (λ bytes. All (Stored bytes) a.new) a.bytes_grow a.stored)),
      (a.more, a.bytes_grow),
      (
        a.held,
        dns_packet_getname-Encoded r'.bytes (len r') (omega arith) a.encoded
            (record { labels = fit; at_most_255 = omega (arith, size, h.at_most_255) })
            (omega (arith, a.few, size, h.at_most_255, labels-le-wire a.held)),
        a.same,
      ),
    )
