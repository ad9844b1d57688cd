-- ===== src/Dns/Packet/Encoded.antt =====
-- A name as it may lie in a packet, compressed or not, and how `dns_packet_getname` reads it.
use geoipdns.Base.{
  ℕ, zero, suc, ◌+◌, ◌-◌, ◌<◌, ◌≤◌, some, List, [], ◌∷◌, ◌++◌, length, byte_at, ◌==◌, if◌then◌else◌,
  ◌≡◌, refl, ◌∙◌, ap, arith, length-append, append_assoc, append-nil, take, drop, ◌<<<◌, Bool-cases,
  inl, inr,
}
use geoipdns.Dns.Name.{IsLabel, IsName, wire, length-wire}
use geoipdns.Dns.Packet.{getname_loop, dns_packet_getname}
use geoipdns.Dns.Packet.Copy.{drop_at}
use geoipdns.Dns.Packet.Walk.{copy-wire}

-- The labels `ls` lie at `pos`: each as its length and its bytes, with a zero at the end, or, from
-- some label on, as a pointer to where the rest lies. `reads` counts the rounds of the loop that
-- read it, and `stop` is where the part before the first pointer ends.
pub data Encoded (buf : List ℕ) (len : ℕ) : ℕ → List (List ℕ) → ℕ → ℕ → Type 0 where
  root :
      {pos reads stop : ℕ}
      → pos < len
      → byte_at buf pos ≡ 0
      → reads ≡ 1
      → stop ≡ pos + 1
      → Encoded buf len pos [] reads stop
  part :
      {pos n reads stop : ℕ} {l : List ℕ} {ls : List (List ℕ)}
      → IsLabel l
      → pos + 1 + length l ≤ len
      → byte_at buf pos ≡ length l
      → take (length l) (drop (pos + 1) buf) ≡ l
      → Encoded buf len (pos + 1 + length l) ls n stop
      → reads ≡ n + 1 + length l
      → Encoded buf len pos (l ∷ ls) reads stop
  pointer :
      {pos target n reads stop stop' : ℕ} {ls : List (List ℕ)}
      → pos + 1 < len
      → 192 ≤ byte_at buf pos
      → target ≡ (byte_at buf pos - 192) <<< 8 + byte_at buf (pos + 1)
      → Encoded buf len target ls n stop'
      → reads ≡ n + 1
      → stop ≡ pos + 2
      → Encoded buf len pos ls reads stop

module _ (buf : List ℕ) (len : ℕ) (inside : len ≤ length buf) where
  read_label :
      (l : List ℕ) (total left pos first : ℕ) (name : List ℕ)
      → total ≡ length l + left
      → take (length l) (drop pos buf) ≡ l
      → pos + length l ≤ len
      → length name + length l ≤ 255
      → getname_loop total buf len pos first (length l) name
        ≡ getname_loop left buf len (pos + length l) first 0 (name ++ l)
  unfolding getname_loop
  read_label [] total left pos first name ht hl hp hn =
      let same : total ≡ left = omega arith in
      let stay : pos + 0 ≡ pos = omega arith in rw (same, stay, append-nil) refl
  read_label (b ∷ l) zero left pos first name ht hl hp hn = absurd (omega arith)
  read_label (b ∷ l) (suc total) left pos first name ht hl hp hn =
      let here = drop_at buf pos (omega arith) in
      let first_byte : byte_at buf pos ≡ b = cc (here) in
      let others : take (length l) (drop (pos + 1) buf) ≡ l = cc (here) in
      let step =
        read_label l total left (pos + 1) first (name ++ (b ∷ [])) (omega arith) others
          (omega arith) (omega (arith, length-append name (b ∷ []))) in
      let same : pos + 1 + length l ≡ pos + suc (length l) = omega arith in
      rw (← same, ← append_assoc name (b ∷ []) l, ← step, first_byte) (ground arith)

  -- One round at each kind of byte.
  label_round :
      (left pos first n : ℕ) (name : List ℕ)
      → pos < len
      → byte_at buf pos ≡ n
      → 0 < n
      → n < 64
      → length name < 255
      → getname_loop (suc left) buf len pos first 0 name
        ≡ getname_loop left buf len (pos + 1) first n (name ++ (n ∷ []))
  unfolding getname_loop
  label_round left pos first n name hp e h h' hf = rw e (ground arith)

  pointer_round :
      (left pos first target : ℕ) (name : List ℕ)
      → pos + 1 < len
      → 192 ≤ byte_at buf pos
      → target ≡ (byte_at buf pos - 192) <<< 8 + byte_at buf (pos + 1)
      → getname_loop (suc left) buf len pos first 0 name
        ≡ getname_loop left buf len target (if first == 0 then pos + 2 else first) 0 name
  unfolding getname_loop
  pointer_round left pos first target name hp h e = rw e (ground arith)

  getname_loop-Encoded :
      {pos n stop : ℕ} {ls : List (List ℕ)}
      → Encoded buf len pos ls n stop
      → (left first : ℕ) (name : List ℕ) → n ≤ left
      → length name + length (wire ls) ≤ 255
      → getname_loop left buf len pos first 0 name
        ≡ some (name ++ wire ls, if first == 0 then stop else first)
  getname_loop-Encoded (root hp hz hr hs) zero first name hn hf = absurd (omega arith)
  getname_loop-Encoded (root hp hz hr hs) (suc left) first name hn hf =
      rw hs (unfold getname_loop in ground arith)
  getname_loop-Encoded (part hl hp hz hb e hr) zero first name hn hf = absurd (omega arith)
  getname_loop-Encoded {pos} {n} {stop} (part {l = l} {ls = ls} hl hp hz hb e hr) (suc left) first
        name hn hf =
      let longer = length-append name (length l ∷ []) in
      label_round left pos first (length l) name (omega arith) hz hl.some_bytes
        (omega (arith, hl.at_most_63)) (omega (arith, length-wire ls, length-append l (wire ls)))
      ∙ read_label l left (left - length l) (pos + 1) first (name ++ (length l ∷ [])) (omega arith)
          hb hp (omega (arith, longer, length-append l (wire ls)))
      ∙ getname_loop-Encoded e (left - length l) first ((name ++ (length l ∷ [])) ++ l)
          (omega arith)
          (omega
            (arith, longer, length-append (name ++ (length l ∷ [])) l, length-append l (wire ls)))
      ∙ rw (append_assoc, append_assoc) refl
  getname_loop-Encoded (pointer hp hz ht e hr hs) zero first name hn hf = absurd (omega arith)
  getname_loop-Encoded {pos} {n} {stop} (pointer {target = target} {stop' = stop'} hp hz ht e hr hs)
        (suc left) first name hn hf =
      pointer_round left pos first target name hp hz ht
      ∙ getname_loop-Encoded e left (if first == 0 then pos + 2 else first) name (omega arith) hf
      ∙ rw hs (elim (Bool-cases (first == 0)) [
        | inl z ↦ rw z (ground arith)
        | inr nz ↦ rw nz (rw nz refl)
      ])

  -- A name of 255 bytes at most that lies at `pos`, and that at most 999 rounds read, is what
  -- `dns_packet_getname` returns there, with the position behind it.
  pub dns_packet_getname-Encoded :
      {pos n stop : ℕ} {ls : List (List ℕ)}
      → Encoded buf len pos ls n stop
      → IsName ls
      → n ≤ 999
      → dns_packet_getname buf len pos ≡ some (wire ls, stop)
  unfolding dns_packet_getname
  dns_packet_getname-Encoded {pos} {n} {stop} {ls} e h hn =
      rw (getname_loop-Encoded e 999 0 [] hn (omega (arith, h.at_most_255)), dns_packet_getname)
        (ap (λ xs. some (xs, stop)) (copy-wire ls h.labels))

-- Bytes that are added behind the packet change nothing of what lies in it.
byte_at-append : (xs ys : List ℕ) (i : ℕ) → i < length xs → byte_at (xs ++ ys) i ≡ byte_at xs i
byte_at-append [] ys i h = elim h [ ]
byte_at-append (x ∷ xs) ys zero h = refl
byte_at-append (x ∷ xs) ys (suc i) h = byte_at-append xs ys i (omega arith)

take-drop-append :
    (n p : ℕ) (xs ys : List ℕ) → p + n ≤ length xs → take n (drop p (xs ++ ys)) ≡ take n (drop p xs)
take-drop-append zero zero xs ys h = refl
take-drop-append (suc n) zero [] ys h = absurd (omega arith)
take-drop-append (suc n) zero (x ∷ xs) ys h =
    ap (λ zs. x ∷ zs) (take-drop-append n zero xs ys (omega arith))
take-drop-append zero (suc p) xs ys h = refl
take-drop-append (suc n) (suc p) [] ys h = absurd (omega arith)
take-drop-append (suc n) (suc p) (x ∷ xs) ys h = take-drop-append (suc n) p xs ys (omega arith)

pub Encoded-append :
    (buf more : List ℕ) (len len' : ℕ) {pos n stop : ℕ} {ls : List (List ℕ)}
    → len ≤ length buf
    → len ≤ len'
    → Encoded buf len pos ls n stop
    → Encoded (buf ++ more) len' pos ls n stop
Encoded-append buf more len len' {pos} h h' (root hp hz hr hs) =
    root (omega arith) (byte_at-append buf more pos (omega arith) ∙ hz) hr hs
Encoded-append buf more len len' {pos} h h' (part {l = l} hl hp hz hb e hr) =
    part hl (omega arith) (byte_at-append buf more pos (omega arith) ∙ hz)
      (take-drop-append (length l) (pos + 1) buf more (omega arith) ∙ hb)
      (Encoded-append buf more len len' h h' e) hr
Encoded-append buf more len len' {pos} h h' (pointer hp hz ht e hr hs) =
    let b0 = byte_at-append buf more pos (omega arith) in
    let b1 = byte_at-append buf more (pos + 1) (omega arith) in
    pointer (omega arith) (omega (arith, b0)) (rw (b0, b1) ht)
      (Encoded-append buf more len len' h h' e) hr hs
