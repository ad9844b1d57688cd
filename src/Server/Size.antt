-- ===== src/Server/Size.antt =====
-- The size of a reply over UDP.
use geoipdns.Base.{
  ℕ, zero, suc, ◌+◌, ◌≤◌, Bool, true, false, not, ◌||◌, some, List, length, take, drop, leb, ltb,
  ◌==◌, if◌then◌else◌, guard, Option, none, ◌++◌, Yields-map, sym, ◌≡◌, refl, ap, arith, Yields,
  Yields-bind, Yields-rest, Yields_some, All, IsByte, Bool-cases, Option-cases, inl, inr,
  length-append, length-take, length-drop, length-set, byte_at, bit_and, bit_or,
}
use geoipdns.Cdb.{Cdb, byte_equal}
use geoipdns.Text.{case_lowerb}
use geoipdns.Ip4.{Ip}
use geoipdns.Random.{Random}
use geoipdns.Tai.{tai_unix}
use geoipdns.Dns.Packet.{dns_packet_copy, dns_packet_getname}
use geoipdns.Dns.Packet.Walk.{dns_packet_getname-IsName}
use geoipdns.Response.{
  Response, len, class_in, query_header, response_query, response_id, response_tc, set_bits,
}
use geoipdns.Response.Kept.{IsKept, set_bits-IsKept, keep_bits-IsKept}
use geoipdns.Response.Whole.{response_query-IsAsked}
use geoipdns.Dns.Name.{IsName, wire}
use mathlib.Core.Path.{subst}
use geoipdns.Lookup.Find.{Look}
use geoipdns.Lookup.Records.{type_axfr}
use geoipdns.Lookup.Records.Kept.{Kept, if_Yields}
use geoipdns.Lookup.Answer.Kept.{doit-Keeps}
use geoipdns.Lookup.Respond.{System, datachk, find_location, defloc, respond}
use geoipdns.Server.{Question, read_question, refuse, copy_flags, class_any, doit, udp_reply}

-- The parts of a question have their sizes.
record IsSized (x : Question) : Type 0 where
  two_at_least : 2 ≤ length x.header
  labels : List (List ℕ)
  is_wire : x.name ≡ wire labels
  is_name : IsName labels
  qtype_two : length x.qtype ≡ 2
  qclass_two : length x.qclass ≡ 2

copied-Sized :
    (buf : List ℕ) (n pos k : ℕ) → Yields (λ r. length r.0 ≡ k) (dns_packet_copy buf n pos k)
unfolding dns_packet_copy
copied-Sized buf n pos zero = refl
copied-Sized buf n pos (suc k) = elim (Bool-cases (leb n pos)) [
  | inl outside ↦ rw outside tt
  | inr inside ↦ elim (Option-cases (dns_packet_copy buf n (pos + 1) k)) [
    | inl e ↦ rw (inside, e) tt
    | inr ((out, end), e) ↦
        let h =
          Yields_some (λ (r : List ℕ × ℕ). length r.0 ≡ k) _ (copied-Sized buf n (pos + 1) k) e in
        rw (inside, e) (omega (arith, h))
  ]
]

-- A name that was read is well-formed.
abbrev IsRead : List ℕ → Type 0
IsRead q = (ls : List (List ℕ)) × (q ≡ wire ls) × IsName ls

name-IsRead :
    (buf : List ℕ) (n pos : ℕ)
    → All IsByte buf
    → Yields (λ (r : List ℕ × ℕ). IsRead r.0) (dns_packet_getname buf n pos)
name-IsRead buf n pos hb = elim (Option-cases (dns_packet_getname buf n pos)) [
  | inl e ↦ rw e tt
  | inr ((r, end), e) ↦
      let (read, before, inside) = dns_packet_getname-IsName buf n pos hb e in rw e read
]

read_question-IsSized : (buf : List ℕ) → All IsByte buf → Yields IsSized (read_question buf)
unfolding read_question
read_question-IsSized buf hb =
    let n = length buf in
    let two = λ (r : List ℕ × ℕ). length r.0 ≡ 2 in
    Yields-rest {A = Unit {0}} IsSized (guard (not (leb 513 n))) _ (λ u.
      Yields-bind (λ (r : List ℕ × ℕ). length r.0 ≡ 12) IsSized _ _ (copied-Sized buf n 0 12)
        (λ h twelve.
          Yields-rest {A = Unit {0}} IsSized (guard (bit_and (byte_at h.0 2) 128 == 0)) _ (λ u1.
            Yields-rest {A = Unit {0}} IsSized (guard (byte_at h.0 4 == 0)) _ (λ u2.
              Yields-rest {A = Unit {0}} IsSized (guard (byte_at h.0 5 == 1)) _ (λ u3.
                Yields-bind (λ (r : List ℕ × ℕ). IsRead r.0) IsSized _ _ (name-IsRead buf n h.1 hb)
                  (λ q read. Yields-bind two IsSized _ _ (copied-Sized buf n q.1 2) (λ t t2.
                    Yields-bind two IsSized _ _ (copied-Sized buf n t.1 2) (λ c c2. record {
                      two_at_least = omega arith;
                      labels = read.0;
                      is_wire = read.1;
                      is_name = read.2;
                      qtype_two = t2;
                      qclass_two = c2;
                    }))))))))

-- A response that holds the header and a question, of so many bytes, and no more.
record IsQuery (size : ℕ) (r : Response) : Type 0 where
  ends : r.tctarget ≡ len r
  begins : 12 ≤ len r
  whole : len r ≡ size
  fits : len r ≤ 65535

response_query-IsQuery :
    (r : Response) (x : Question)
    → IsSized x
    → Yields (IsQuery (12 + length x.name + 4)) (response_query r x.name x.qtype x.qclass)
response_query-IsQuery r x sized =
    let query = IsQuery (12 + length x.name + 4) in
    let name = ap length sized.is_wire in
    let question = wire sized.labels ++ (x.qtype ++ x.qclass) in
    subst (λ (q : List ℕ). Yields query (response_query r q x.qtype x.qclass)) (sym sized.is_wire)
      (Yields-map _ query _ (response_query-IsAsked r sized.labels x.qtype x.qclass sized.is_name)
        (λ r1 asked.
          let size : len r1 ≡ 12 + length x.name + 4 = omega (
            arith,
            ap length asked.bytes_are,
            length-append query_header question,
            length-append (wire sized.labels) (x.qtype ++ x.qclass),
            length-append x.qtype x.qclass,
            name,
            sized.qtype_two,
            sized.qclass_two,
          ) in
          record {
            ends = asked.target;
            begins = omega (arith, size);
            whole = size;
            fits = omega (arith, size, name, sized.is_name.at_most_255);
          }))

-- The flags of the response change in place.
refuse-IsKept :
    (target : ℕ) (r : Response) (rcode : ℕ) → IsKept target r → IsKept target (refuse r rcode)
refuse-IsKept target r rcode k =
    set_bits-IsKept target _ 3 rcode (keep_bits-IsKept target r 3 240 k)

pick-IsKept :
    (target : ℕ) (test : Bool) (r1 r2 : Response)
    → IsKept target r1
    → IsKept target r2
    → IsKept target (if test then r1 else r2)
pick-IsKept target true r1 r2 k1 k2 = k1
pick-IsKept target false r1 r2 k1 k2 = k2

copy_flags-IsKept :
    (target : ℕ) (header : List ℕ) (r : Response)
    → IsKept target r
    → IsKept target (copy_flags header r)
unfolding copy_flags
copy_flags-IsKept target header r k =
    let k1 = keep_bits-IsKept target r 3 127 k in
    pick-IsKept target (bit_and (byte_at header 2) 1 == 0) _ _ (keep_bits-IsKept target _ 2 254 k1)
      k1

response_id-IsKept :
    (r : Response) (id : List ℕ) (size : ℕ)
    → 2 ≤ length id
    → IsQuery size r
    → IsKept (len r) (response_id r id)
unfolding response_id
response_id-IsKept r id size h k =
    let n : len (response_id r id) ≡ len r = omega (
      arith,
      k.begins,
      length-append (take 2 id) (drop 2 r.bytes),
      length-take 2 id,
      length-drop 2 r.bytes,
    ) in
    record { ends = k.ends; whole = omega (arith, n); fits = omega (arith, n, k.fits) }

respond-Kept :
    (target : ℕ) (sys : System) (q qtype : List ℕ) (ip : Ip) (l : Look) (r : Response)
    (random : Random)
    → IsKept target r
    → Yields (Kept target) (respond sys q qtype ip l r random)
unfolding respond
respond-Kept target sys q qtype ip l r random k =
    Yields-rest (Kept target) (datachk sys l.c) _ (λ (c : Cdb).
      Yields-rest (Kept target)
        (find_location (record l { c = c; now = tai_unix sys.time; clientloc = defloc }) q qtype ip)
        _ (λ l'. doit-Keeps target q qtype l' r random k))

-- What a request leaves: `tctarget` is where its question ends, and the response has it whole.
record IsReply (buf : List ℕ) (r : Response) : Type 0 where
  asked : Question
  is_asked : read_question buf ≡ some asked
  target : r.tctarget ≡ 12 + length asked.name + 4
  name_fits : length asked.name ≤ 255
  whole : r.tctarget ≤ len r

-- A result, with the equation by which it came.
Yields-known :
    (P : Question → Type 0) (m : Option Question) → Yields P m → Yields (λ x. P x × (m ≡ some x)) m
Yields-known P none h = tt
Yields-known P (some x) h = (h, refl)

doit-IsReply :
    (sys : System) (ip : Ip) (l : Look) (random : Random) (r0 : Response) (buf : List ℕ)
    → All IsByte buf
    → Yields (IsReply buf) (doit sys ip l random r0 buf)
unfolding doit
doit-IsReply sys ip l random r0 buf hb =
    let reply = IsReply buf in
    Yields-bind (λ x. IsSized x × (read_question buf ≡ some x)) reply _ _
      (Yields-known IsSized (read_question buf) (read_question-IsSized buf hb))
      (λ x known.
        let (sized, is_asked) = known in
        let size : ℕ = 12 + length x.name + 4 in
        Yields-bind (IsQuery size) reply _ _ (response_query-IsQuery r0 x sized) (λ r1 query.
          let target : ℕ = len r1 in
          let kept-IsReply : (r : Response) → IsKept target r → IsReply buf r = λ (r : Response) k.
            record {
              asked = x;
              is_asked = is_asked;
              target = omega (arith, k.ends, query.whole);
              name_fits = omega (arith, ap length sized.is_wire, sized.is_name.at_most_255);
              whole = omega (arith, k.ends, k.whole);
            } in
          let r2 : Response = response_id r1 x.header in
          let k2 = response_id-IsKept r1 x.header size sized.two_at_least query in
          let internet = byte_equal x.qclass class_in in
          let r3 : Response = if internet then set_bits r2 2 4 else r2 in
          let k3 = pick-IsKept target internet _ r2 (set_bits-IsKept target r2 2 4 k2) k2 in
          let r4 : Response = copy_flags x.header r3 in
          let k4 = copy_flags-IsKept target x.header r3 k3 in
          if_Yields reply (internet || byte_equal x.qclass class_any) _ (some (refuse r3 1))
            (if_Yields reply
              (not (bit_and (byte_at x.header 2) 126 == 0) || byte_equal x.qtype type_axfr)
              (some (refuse r4 4)) _ (kept-IsReply _ (refuse-IsKept target r4 4 k4))
              (Yields-bind (Kept target) reply _ _
                (respond-Kept target sys (case_lowerb x.name) x.qtype ip l r4 random k4)
                (λ s k. kept-IsReply s.response k)))
            (kept-IsReply _ (refuse-IsKept target r3 1 k3))))

chosen :
    (P : Response → Type 0) (test : Bool) (r1 r2 : Response)
    → (test ≡ true → P r1)
    → (test ≡ false → P r2)
    → P (if test then r1 else r2)
chosen P true r1 r2 h1 h2 = h1 refl
chosen P false r1 r2 h1 h2 = h2 refl

-- Whatever packet of bytes came in, a response that `doit` makes is one to a question that was read of
-- the packet, and its `tctarget` is where that question ends in a reply: behind the header of 12
-- bytes, the name, and four bytes of type and class. The reply that goes out over UDP is not cut
-- before that, and has 512 bytes at most.
pub length-udp_reply :
    (sys : System) (ip : Ip) (l : Look) (random : Random) (r0 : Response) (buf : List ℕ)
    {r : Response}
    → All IsByte buf
    → doit sys ip l random r0 buf ≡ some r
    → (x : Question) × (read_question buf ≡ some x)
      × (r.tctarget ≡ 12 + length x.name + 4)
      × (12 + length x.name + 4 ≤ length (udp_reply r))
      × (length (udp_reply r) ≤ 512)
unfolding udp_reply response_tc
length-udp_reply sys ip l random r0 buf {r} hb e =
    let reply = Yields_some (IsReply buf) _ (doit-IsReply sys ip l random r0 buf hb) e in
    let r' : Response = set_bits r 2 2 in
    let n = length-take r.tctarget r'.bytes in
    let n' = length-set r.bytes 2 (bit_or (byte_at r.bytes 2) 2) in
    let end : ℕ = 12 + length reply.asked.name + 4 in
    let early : r.tctarget ≤ 271 = omega (arith, reply.target, reply.name_fits) in
    let size =
      chosen (λ x. (end ≤ len x) × (len x ≤ 512)) (ltb 512 (len r)) (response_tc r) r
        (λ long.
          (omega (arith, n, n', early, reply.target, reply.whole), omega (arith, n, n', early)))
        (λ short. (omega (arith, reply.target, reply.whole), ground (arith, short))) in
    (reply.asked, reply.is_asked, reply.target, size.0, size.1)
