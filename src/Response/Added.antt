-- ===== src/Response/Added.antt =====
-- The rounds of `response_addname`: what each adds to the response, and that it lies there.
use geoipdns.Base.{
  ℕ, suc, ◌+◌, ◌-◌, ◌/◌, ◌%◌, ◌<◌, ◌≤◌, none, some, List, [], ◌∷◌, ◌++◌, length, ◌≡◌, refl, sym,
  ◌∙◌, ap, All, arith, length-append, append-nil, append_assoc, byte_at, u16, take, drop,
  take-append, drop-append, Option-cases, ◌⊎◌, inl, inr,
}
use mathlib.Core.Path.{subst}
use mathlib.Core.List.{map}
use geoipdns.Text.{lower}
use geoipdns.Base.Bits.{bit_and-low_mask}
use geoipdns.Uint.{uint16_pack_big}
use geoipdns.Dns.Name.{IsLabel, label, wire, lower_labels}
use geoipdns.Dns.Packet.Encoded.{Encoded, root, part, pointer, Encoded-append}
use geoipdns.Response.{Response, len, response_addbytes, find_name, remember, addname_loop}
use geoipdns.Response.Names.{bound, Stored, All-snoc, IsHeld}

-- What a call that adds `ls` to `r` and gives `r'` has done: it wrote behind what was there, the
-- name lies where it began to write, and each name that it remembered is in its place.
pub record IsAdded (r r' : Response) (ls : List (List ℕ)) : Type 0 where
  pub more : List ℕ
  pub new : List (List ℕ × ℕ)
  pub held : List (List ℕ)
  pub reads : ℕ
  pub bytes_grow : r'.bytes ≡ r.bytes ++ more
  pub names_grow : r'.names ≡ r.names ++ new
  pub stored : All (Stored r'.bytes) new
  pub encoded : Encoded r'.bytes (len r') (len r) held reads (len r')
  pub same : lower_labels held ≡ lower_labels ls
  pub few : reads ≤ bound held
  pub same_tctarget : r'.tctarget ≡ r.tctarget
  pub same_dpos : r'.dpos ≡ r.dpos
  pub same_hidettl : r'.hidettl ≡ r.hidettl

abbrev pub append_bytes : Response → List ℕ → Response
append_bytes r buf = record r { bytes = r.bytes ++ buf }

pub addbytes_inv :
    (r : Response) (buf : List ℕ) {r' : Response}
    → response_addbytes r buf ≡ some r'
    → (append_bytes r buf ≡ r') × (len r + length buf ≤ 65535 ⊎ (65535 < len r) × (length buf ≡ 0))
unfolding response_addbytes
addbytes_inv r buf e = ground arith

byte_at-append_right : (xs ys : List ℕ) (i : ℕ) → byte_at (xs ++ ys) (length xs + i) ≡ byte_at ys i
byte_at-append_right [] ys i = ap (λ (k : ℕ). byte_at ys k) (omega arith)
byte_at-append_right (x ∷ xs) ys i =
    let e : suc (length xs) + i ≡ suc (length xs + i) = omega arith in
    rw e (byte_at-append_right xs ys i)

pub byte_at-append_end :
    (xs : List ℕ) (y : ℕ) (ys : List ℕ) → byte_at (xs ++ (y ∷ ys)) (length xs) ≡ y
byte_at-append_end [] y ys = refl
byte_at-append_end (x ∷ xs) y ys = byte_at-append_end xs y ys

pub pointer_bytes :
    (ptr : ℕ)
    → ptr < 16384
    → uint16_pack_big (u16 (49152 + ptr)) ≡ (192 + ptr / 256) ∷ (ptr % 256) ∷ []
unfolding uint16_pack_big
pointer_bytes ptr h = ground (arith, bit_and-low_mask 8 (u16 (49152 + ptr)))

-- The `while` of `response_addname` at the root, at a name that was added before, and at a label.
pub addname_root :
    (fuel : ℕ) (r : Response) (dlen : ℕ)
    → addname_loop (suc fuel) r (0 ∷ []) dlen ≡ response_addbytes r (0 ∷ [])
unfolding addname_loop
addname_root fuel r dlen = refl

pub addname_pointer :
    (fuel : ℕ) (r : Response) (l : List ℕ) (ls : List (List ℕ)) (dlen : ℕ) {ptr : ℕ}
    → 0 < length l
    → find_name (wire (l ∷ ls)) r.names ≡ some ptr
    → addname_loop (suc fuel) r (wire (l ∷ ls)) dlen
      ≡ response_addbytes r (uint16_pack_big (u16 (49152 + ptr)))
unfolding addname_loop
addname_pointer fuel r l ls dlen h e = ground (arith, e)

pub addname_label :
    (fuel : ℕ) (r : Response) (l : List ℕ) (ls : List (List ℕ)) {r' : Response}
    → 0 < length l
    → find_name (wire (l ∷ ls)) r.names ≡ none
    → addname_loop (suc fuel) r (wire (l ∷ ls)) (length (wire (l ∷ ls))) ≡ some r'
    → (r2 : Response) × (response_addbytes
          (remember r (wire (l ∷ ls)) (length (wire (l ∷ ls))))
          (label l)
        ≡ some r2)
      × (addname_loop fuel r2 (wire ls) (length (wire ls)) ≡ some r')
unfolding addname_loop
addname_label fuel r l ls {r'} h f e =
    let i : length l + 1 ≡ suc (length l) = omega arith in
    let front : take (length l + 1) (wire (l ∷ ls)) ≡ label l =
      rw i (ap (λ xs. length l ∷ xs) (take-append l (wire ls))) in
    let back : drop (length l + 1) (wire (l ∷ ls)) ≡ wire ls = rw i (drop-append l (wire ls)) in
    let left : length (wire (l ∷ ls)) - (length l + 1) ≡ length (wire ls) =
      omega (arith, length-append l (wire ls)) in
    elim (Option-cases
      (response_addbytes (remember r (wire (l ∷ ls)) (length (wire (l ∷ ls)))) (label l))) [
        | inl n ↦ absurd (ground (arith, f, n, front))
        | inr (r2, s) ↦ (r2, s, ground (arith, f, s, front, back, left))
      ]

-- The three ways in which a round adds a name.
module _ (r : Response) where
  pub root-IsAdded : {r' : Response} → response_addbytes r (0 ∷ []) ≡ some r' → IsAdded r r' []
  root-IsAdded {r'} e =
      let same = (addbytes_inv r (0 ∷ []) e).0 in
      let grown = length-append r.bytes (0 ∷ []) in
      let there = byte_at-append_end r.bytes 0 [] in
      subst (λ x. IsAdded r x []) same
        (record {
          more = 0 ∷ [];
          new = [];
          held = [];
          reads = 1;
          bytes_grow = refl;
          names_grow = sym (append-nil r.names);
          stored = tt;
          encoded = root (omega (arith, grown)) there refl (omega (arith, grown));
          same = refl;
          few = omega arith;
          same_tctarget = refl;
          same_dpos = refl;
          same_hidettl = refl;
        })

  pub pointer-IsAdded :
      (ls : List (List ℕ)) {ptr : ℕ} {r' : Response}
      → IsHeld r.bytes ls ptr
      → response_addbytes r (uint16_pack_big (u16 (49152 + ptr))) ≡ some r'
      → IsAdded r r' ls
  pointer-IsAdded ls {ptr} {r'} h e =
      let buf : List ℕ = (192 + ptr / 256) ∷ (ptr % 256) ∷ [] in
      let e' : response_addbytes r buf ≡ some r' =
        ap (response_addbytes r) (sym (pointer_bytes ptr h.small)) ∙ e in
      let same = (addbytes_inv r buf e').0 in
      let grown = length-append r.bytes buf in
      let there0 = byte_at-append_end r.bytes (192 + ptr / 256) (ptr % 256 ∷ []) in
      let there1 = byte_at-append_right r.bytes buf 1 in
      subst (λ x. IsAdded r x ls) same
        (record {
          more = buf;
          new = [];
          held = h.held;
          reads = h.reads + 1;
          bytes_grow = refl;
          names_grow = sym (append-nil r.names);
          stored = tt;
          encoded =
              pointer (omega (arith, grown)) (omega (arith, there0))
                (omega (arith, there0, there1, h.small))
                (Encoded-append r.bytes buf (len r) (len (append_bytes r buf)) (omega arith)
                  (omega (arith, grown)) h.encoded)
                refl (omega (arith, grown));
          same = h.same;
          few = omega (arith, h.few);
          same_tctarget = refl;
          same_dpos = refl;
          same_hidettl = refl;
        })

-- Of the names and the bytes after `remember` and the label's bytes.
pub remember_lem :
    (r : Response) (d : List ℕ) (dlen : ℕ)
    → ((remember r d dlen ≡ r)
        ⊎ (remember r d dlen ≡ record r { names = r.names ++ ((take dlen d, len r) ∷ []) }))
unfolding remember
remember_lem r d dlen = ground arith

-- The response after a label, with what `remember` added to the names.
abbrev pub with_label : Response → List ℕ → List (List ℕ × ℕ) → Response
with_label r l pending = record r { bytes = r.bytes ++ label l; names = r.names ++ pending }

module _ (r : Response) (l : List ℕ) (ls : List (List ℕ)) (pending : List (List ℕ × ℕ))
    {r' : Response} (hl : IsLabel l) (hls : All IsLabel ls)
    (a : IsAdded (with_label r l pending) r' ls) where
  layout : r'.bytes ≡ r.bytes ++ (length l ∷ (l ++ a.more))
  layout = a.bytes_grow ∙ append_assoc r.bytes (label l) a.more

  length_byte : byte_at r'.bytes (len r) ≡ length l
  length_byte = rw layout (byte_at-append_end r.bytes (length l) (l ++ a.more))

  label_bytes : take (length l) (drop (len r + 1) r'.bytes) ≡ l
  label_bytes =
      let front : r.bytes ++ (length l ∷ (l ++ a.more))
          ≡ (r.bytes ++ (length l ∷ [])) ++ (l ++ a.more) =
        sym (append_assoc r.bytes (length l ∷ []) (l ++ a.more)) in
      let n : len r + 1 ≡ length (r.bytes ++ (length l ∷ [])) =
        omega (arith, length-append r.bytes (length l ∷ [])) in
      rw (layout, front, n, drop-append (r.bytes ++ (length l ∷ [])) (l ++ a.more))
        (take-append l a.more)

  after_label : length (r.bytes ++ label l) ≡ len r + 1 + length l
  after_label = omega (arith, length-append r.bytes (label l))

  all_bytes : len r' ≡ len r + 1 + length l + length a.more
  all_bytes =
      omega (arith, after_label, ap length a.bytes_grow, length-append (r.bytes ++ label l) a.more)

  label-Encoded : Encoded r'.bytes (len r') (len r) (l ∷ a.held) (a.reads + 1 + length l) (len r')
  label-Encoded =
      part hl (omega (arith, all_bytes)) length_byte label_bytes
        (subst (λ p. Encoded r'.bytes (len r') p a.held a.reads (len r')) after_label a.encoded)
        refl

  held_few : a.reads + 1 + length l < bound (l ∷ a.held)
  held_few = omega (arith, a.few, length-append l (wire a.held))

  same_labels : lower_labels (l ∷ a.held) ≡ lower_labels (l ∷ ls)
  same_labels = ap (λ xs. map lower l ∷ xs) a.same

  pub name-Stored : len r' ≤ 16384 → Stored r'.bytes (wire (l ∷ ls), len r)
  name-Stored small = record {
    labels = l ∷ ls;
    held = l ∷ a.held;
    reads = a.reads + 1 + length l;
    stop = len r';
    is_wire = refl;
    labels_fit = (hl, hls);
    same = same_labels;
    encoded = label-Encoded;
    few = held_few;
    small = omega (arith, all_bytes);
  }

  pub label-IsAdded : All (Stored r'.bytes) pending → IsAdded r r' (l ∷ ls)
  label-IsAdded stored = record {
    more = label l ++ a.more;
    new = pending ++ a.new;
    held = l ∷ a.held;
    reads = a.reads + 1 + length l;
    bytes_grow = layout;
    names_grow = a.names_grow ∙ append_assoc r.names pending a.new;
    stored = All-snoc (Stored r'.bytes) pending a.new stored a.stored;
    encoded = label-Encoded;
    same = same_labels;
    few = omega (arith, held_few);
    same_tctarget = a.same_tctarget;
    same_dpos = a.same_dpos;
    same_hidettl = a.same_hidettl;
  }
