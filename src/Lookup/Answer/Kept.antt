-- ===== src/Lookup/Answer/Kept.antt =====
-- `doit` keeps the response: whatever it adds and cuts, the question stays whole.

use geoipdns.Base.{
  ℕ, zero, suc, ◌+◌, ◌-◌, ◌^◌, ◌≤◌, Bool, true, false, not, ◌&&◌, ◌||◌, Option, none, some, List,
  length, take, drop, min, leb, ltb, set, ◌==◌, if◌then◌else◌, arith, Yields, Yields-bind,
  Yields-rest, length-take, length-set,
}
use geoipdns.Text.{case_lowerb}
use geoipdns.Uint.{uint16_unpack_big}
use geoipdns.Cdb.{Found, byte_equal, error, absent, present}
use geoipdns.Random.{Random}
use geoipdns.Dns.Packet.{dns_packet_copy, dns_packet_skipname, dns_packet_getname}
use geoipdns.Response.{
  Response, len, response_nxdomain, keep_bits, authority_section, additional_section,
}
use geoipdns.Response.Kept.{IsKept, nxdomain-IsKept, keep_bits-IsKept}
use geoipdns.Lookup.Find.{Look, find}
use geoipdns.Lookup.Records.{
  State, type_a, type_ns, type_mx, type_soa, want, dobytes, doname, dosoa, answer_record,
}
use geoipdns.Lookup.Records.Kept.{
  Kept, if_Yields, dobytes-Kept, doname-Kept, dosoa-Kept, record-Kept, each_found-Kept,
  answer_record-Kept, answer_addresses-Kept,
}
use geoipdns.Lookup.Answer.{
  at_root, parent, find_zone, answer_name, answer_loop, first_soa, ns_record, authority, a_record,
  glue, glue_record, additional, cut_section, cut_back, answer, doit,
}

module _ (target : ℕ) where
  abbrev pub Keeps : State → Type 0
  Keeps = Kept target

  answer_name-Keeps :
      (q qtype wild : List ℕ) (s : State) → Keeps s → Yields Keeps (answer_name q qtype wild s)
  unfolding answer_name
  answer_name-Keeps q qtype wild s k =
      Yields-bind Keeps Keeps _ _
        (each_found-Kept target wild (not (length wild == length q)) (answer_record q qtype)
          (record s { addrnum = 0; addrttl = 0 }) (λ s' k'. answer_record-Kept target q qtype s' k')
          k)
        (λ s1 k1. answer_addresses-Kept target (take (min s1.addrnum 8) s1.addr) q s1 k1)

  -- A step that either ends the loop or goes on.
  ends-Keeps :
      (stop : Bool) (s : State) (rest : Option State)
      → Keeps s
      → Yields Keeps rest
      → Yields Keeps (elim stop [ true ↦ some s | false ↦ rest ])
  ends-Keeps true s rest k h = k
  ends-Keeps false s rest k h = h

  answer_loop-Keeps :
      (fuel : ℕ) (q qtype control wild : List ℕ) (s : State)
      → Keeps s
      → Yields Keeps (answer_loop fuel q qtype control wild s)
  unfolding answer_loop
  answer_loop-Keeps zero q qtype control wild s k = tt
  answer_loop-Keeps (suc fuel) q qtype control wild s k =
      Yields-bind Keeps Keeps _ _ (answer_name-Keeps q qtype wild s k) (λ s1 k1.
        ends-Keeps (s1.flagfound || (length wild == length control) || at_root wild) s1 _ k1
          (answer_loop-Keeps fuel q qtype control (parent wild) s1 k1))

  soa-Keeps :
      (f : Found) (soa : Bool) (s : State) (added rest : Option State)
      → Keeps s
      → Yields Keeps added
      → Yields Keeps rest
      → Yields Keeps (elim f [
        | error ↦ none
        | absent ↦ some s
        | present ↦ elim soa [ false ↦ rest | true ↦ added ]
      ])
  soa-Keeps error soa s added rest k ha hr = tt
  soa-Keeps absent soa s added rest k ha hr = k
  soa-Keeps present true s added rest k ha hr = ha
  soa-Keeps present false s added rest k ha hr = hr

  first_soa-Keeps :
      (fuel : ℕ) (control : List ℕ) (s : State) → Keeps s → Yields Keeps (first_soa fuel control s)
  unfolding first_soa
  first_soa-Keeps zero control s k = tt
  first_soa-Keeps (suc fuel) control s k =
      let look = (find s.look control false).0 in
      let s' : State = record s { look = look } in
      soa-Keeps ((find s.look control false).1) (byte_equal look.type type_soa) s' _ _ k
        (record-Kept target s' control type_soa look.ttl authority_section dosoa (dosoa-Kept target)
          k)
        (first_soa-Keeps fuel control s' k)

  ns_record-Keeps : (control : List ℕ) (s : State) → Keeps s → Yields Keeps (ns_record control s)
  unfolding ns_record
  ns_record-Keeps control s k =
      if_Yields Keeps (byte_equal s.look.type type_ns) _ (some s)
        (record-Kept target s control type_ns s.look.ttl authority_section doname
          (doname-Kept target) k)
        k

  authority-Keeps :
      (anpos : ℕ) (control : List ℕ) (flag : Bool) (s : State)
      → Keeps s
      → Yields Keeps (authority anpos control flag s)
  unfolding authority
  authority-Keeps anpos control flag s k =
      if_Yields Keeps (flag && (len s.response == anpos)) _ _ (first_soa-Keeps (2 ^ 32) control _ k)
        (if_Yields Keeps (want s.response control type_ns) _ (some s)
          (each_found-Kept target control false (ns_record control) s (ns_record-Keeps control) k)
          k)

  a_record-Keeps : (d1 : List ℕ) (s : State) → Keeps s → Yields Keeps (a_record d1 s)
  unfolding a_record
  a_record-Keeps d1 s k =
      if_Yields Keeps (byte_equal s.look.type type_a) _ (some s)
        (record-Kept target s d1 type_a s.look.ttl additional_section (λ s'. dobytes s' 4)
          (λ s' k'. dobytes-Kept target s' 4 k') k)
        k

  glue-Keeps : (arpos pos : ℕ) (s : State) → Keeps s → Yields Keeps (glue arpos pos s)
  unfolding glue
  glue-Keeps arpos pos s k =
      Yields-rest Keeps (dns_packet_getname s.response.bytes arpos pos) _ (λ (read : List ℕ × ℕ).
        let d1 = case_lowerb read.0 in
        if_Yields Keeps (want s.response d1 type_a) _ (some s)
          (each_found-Kept target d1 false (a_record d1) s (a_record-Keeps d1) k) k)

  glue_record-Keeps :
      (arpos : ℕ) (x : List ℕ) (pos : ℕ) (s : State)
      → Keeps s
      → Yields Keeps (glue_record arpos x pos s)
  unfolding glue_record
  glue_record-Keeps arpos x pos s k =
      if_Yields Keeps (byte_equal (take 2 x) type_ns) _ _ (glue-Keeps arpos pos s k) (
        if_Yields Keeps (byte_equal (take 2 x) type_mx) _ (some s) (glue-Keeps arpos (pos + 2) s k)
          k)

  additional-Keeps :
      (fuel arpos bpos : ℕ) (s : State) → Keeps s → Yields Keeps (additional fuel arpos bpos s)
  unfolding additional
  additional-Keeps zero arpos bpos s k = k
  additional-Keeps (suc fuel) arpos bpos s k = ends-Keeps (leb arpos bpos) s _ k (
      Yields-rest Keeps (dns_packet_skipname s.response.bytes arpos bpos) _ (λ bpos1.
        Yields-rest Keeps (dns_packet_copy s.response.bytes arpos bpos1 10) _
          (λ (copied : List ℕ × ℕ).
            Yields-bind Keeps Keeps _ _ (glue_record-Keeps arpos copied.0 copied.1 s k) (λ s' k'.
              additional-Keeps fuel arpos (copied.1 + uint16_unpack_big (drop 8 copied.0)) s' k'))))

  cut_section-IsKept :
      (r : Response) (i n : ℕ) → IsKept target r → target ≤ n → IsKept target (cut_section r i n)
  cut_section-IsKept r i n k h = record {
    ends = k.ends;
    whole = omega (
      arith,
      k.whole,
      length-take n (set (set r.bytes i 0) (i + 1) 0),
      length-set (set r.bytes i 0) (i + 1) 0,
      length-set r.bytes i 0,
    );
    fits = omega (
      arith,
      k.fits,
      length-take n (set (set r.bytes i 0) (i + 1) 0),
      length-set (set r.bytes i 0) (i + 1) 0,
      length-set r.bytes i 0,
    );
  }

  pick-IsKept :
      (test : Bool) (r1 r2 : Response)
      → IsKept target r1
      → IsKept target r2
      → IsKept target (if test then r1 else r2)
  pick-IsKept true r1 r2 k1 k2 = k1
  pick-IsKept false r1 r2 k1 k2 = k2

  cut_back-IsKept :
      (flag : Bool) (aupos arpos : ℕ) (r : Response)
      → target ≤ aupos
      → target ≤ arpos
      → IsKept target r
      → IsKept target (cut_back flag aupos arpos r)
  unfolding cut_back
  cut_back-IsKept flag aupos arpos r hau har k =
      let r1 = cut_section r additional_section arpos in
      let k1 = cut_section-IsKept r additional_section arpos k har in
      pick-IsKept (flag && ltb 512 (len r)) _ r
        (pick-IsKept (ltb 512 (len r1)) _ r1 (cut_section-IsKept r1 authority_section aupos k1 hau)
          k1)
        k

  found_or_not-Keeps :
      (s : State)
      → Keeps s
      → Keeps (if s.flagfound then s else record s { response = response_nxdomain s.response })
  found_or_not-Keeps s k =
      pick s.flagfound (record s { response = response_nxdomain s.response })
        (nxdomain-IsKept target s.response k)
    where
      pick : (test : Bool) (other : State) → Keeps other → Keeps (if test then s else other)
      pick true other k2 = k
      pick false other k2 = k2

  answer-Keeps :
      (q qtype control : List ℕ) (flag : Bool) (s : State)
      → Keeps s
      → Yields Keeps (answer q qtype control flag s)
  unfolding answer
  answer-Keeps q qtype control flag s k =
      if_Yields Keeps flag _ (some (record s { response = keep_bits s.response 2 251 }))
        (Yields-bind Keeps Keeps _ _ (answer_loop-Keeps (length q) q qtype control q s k)
          (λ s1 k1. found_or_not-Keeps s1 k1))
        (keep_bits-IsKept target s.response 2 251 k)

  pub doit-Keeps :
      (q qtype : List ℕ) (l : Look) (r : Response) (random : Random)
      → IsKept target r
      → Yields Keeps (doit q qtype l r random)
  unfolding doit
  doit-Keeps q qtype l r random k =
      Yields-rest Keeps (find_zone (length q) l q) _ (λ (zone : Look × List ℕ × Bool).
        Yields-bind Keeps Keeps _ _ (answer-Keeps q qtype zone.1 zone.2 _ k) (λ s1 k1.
          Yields-bind Keeps Keeps _ _ (authority-Keeps (len r) zone.1 zone.2 s1 k1) (λ s2 k2.
            Yields-bind Keeps Keeps _ _
              (additional-Keeps (len s2.response - len r) (len s2.response) (len r) s2 k2)
              (λ s3 k3.
                cut_back-IsKept zone.2 (len s1.response) (len s2.response) s3.response k1.whole
                  k2.whole k3))))
