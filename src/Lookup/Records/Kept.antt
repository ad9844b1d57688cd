-- ===== src/Lookup/Records/Kept.antt =====
-- Every step of an answer keeps the response: the question in it stays whole, and it fits its array.
use geoipdns.Base.{
  ℕ, zero, suc, ◌-◌, ◌^◌, Bool, true, false, not, ◌&&◌, ◌||◌, Option, none, some, List, [], ◌∷◌,
  length, leb, ◌==◌, if◌then◌else◌, ◌>>=◌, Yields, Yields-bind, Yields-rest, guard,
}
use geoipdns.Dns.Packet.{dns_packet_copy, dns_packet_getname}
use geoipdns.Cdb.{Found, byte_equal, error, absent, present}
use geoipdns.Response.Kept.{
  IsKept, addbytes-IsKept, addname-IsKept, rstart-IsKept as response_rstart-IsKept,
  rfinish-IsKept as response_rfinish-IsKept,
}
use geoipdns.Lookup.Find.{find}
use geoipdns.Lookup.Records.{
  State, dobytes, doname, rstart, rfinish, dosoa, dodata, while_found, each_found, keep_address,
  answer_record, answer_addresses, type_ns, type_cname, type_ptr, type_mx, type_soa, type_any,
  type_a,
}
use geoipdns.Response.{answer_section}

pub if_Yields {ℓ κ} :
    {A : Type ℓ} (P : A → Type κ) (test : Bool) (yes_m no_m : Option A)
    → Yields P yes_m
    → Yields P no_m
    → Yields P (if test then yes_m else no_m)
if_Yields P true yes_m no_m h1 h2 = h1
if_Yields P false yes_m no_m h1 h2 = h2

module _ (target : ℕ) where
  abbrev pub Kept : State → Type 0
  Kept s = IsKept target s.response

  pub dobytes-Kept : (s : State) (n : ℕ) → Kept s → Yields Kept (dobytes s n)
  unfolding dobytes
  dobytes-Kept s n k = Yields-rest {A = Unit {0}} Kept (guard (leb n 20)) _ (λ u.
      Yields-rest Kept
        (dns_packet_copy s.look.record_bytes (length s.look.record_bytes) s.look.dpos n) _
        (λ (copied : List ℕ × ℕ).
          Yields-bind (IsKept target) Kept _ _ (addbytes-IsKept target s.response copied.0 k)
            (λ r kr. kr)))

  pub doname-Kept : (s : State) → Kept s → Yields Kept (doname s)
  unfolding doname
  doname-Kept s k =
      Yields-rest Kept
        (dns_packet_getname s.look.record_bytes (length s.look.record_bytes) s.look.dpos) _
        (λ (read : List ℕ × ℕ).
          Yields-bind (IsKept target) Kept _ _ (addname-IsKept target s.response read.0 k)
            (λ r kr. kr))

  pub rstart-Kept :
      (s : State) (d type : List ℕ) (ttl : ℕ) → Kept s → Yields Kept (rstart s d type ttl)
  unfolding rstart
  rstart-Kept s d type ttl k =
      Yields-bind (IsKept target) Kept _ _ (response_rstart-IsKept target s.response d type ttl k)
        (λ r kr. kr)

  pub rfinish-Kept : (s : State) (section : ℕ) → Kept s → Kept (rfinish s section)
  unfolding rfinish
  rfinish-Kept s section k = response_rfinish-IsKept target s.response section k

  pub dosoa-Kept : (s : State) → Kept s → Yields Kept (dosoa s)
  unfolding dosoa
  dosoa-Kept s k =
      Yields-bind Kept Kept _ _ (doname-Kept s k)
        (λ s1 k1. Yields-bind Kept Kept _ _ (doname-Kept s1 k1) (λ s2 k2. dobytes-Kept s2 20 k2))

  -- A record in a section: its head, its data, and its count.
  pub record-Kept :
      (s : State) (d type : List ℕ) (ttl section : ℕ) (body : State → Option State)
      → ((s' : State) → Kept s' → Yields Kept (body s'))
      → Kept s
      → Yields Kept (rstart s d type ttl >>= λ s1. body s1 >>= λ s2. some (rfinish s2 section))
  record-Kept s d type ttl section body keeps k =
      Yields-bind Kept Kept _ _ (rstart-Kept s d type ttl k)
        (λ s1 k1. Yields-bind Kept Kept _ _ (keeps s1 k1) (λ s2 k2. rfinish-Kept s2 section k2))

  -- One round of a loop of finds, by what was found.
  round-Kept :
      (f : Found) (s : State) (body next : State → Option State)
      → ((s' : State) → Kept s' → Yields Kept (body s'))
      → ((s' : State) → Kept s' → Yields Kept (next s'))
      → Kept s
      → Yields Kept (elim f [ error ↦ none | absent ↦ some s | present ↦ (body s >>= next) ])
  round-Kept error s body next keeps later k = tt
  round-Kept absent s body next keeps later k = k
  round-Kept present s body next keeps later k = Yields-bind Kept Kept _ _ (keeps s k) later

  pub while_found-Kept :
      (fuel : ℕ) (d : List ℕ) (flagwild : Bool) (body : State → Option State) (s : State)
      → ((s' : State) → Kept s' → Yields Kept (body s'))
      → Kept s
      → Yields Kept (while_found fuel d flagwild body s)
  unfolding while_found
  while_found-Kept zero d flagwild body s keeps k = tt
  while_found-Kept (suc fuel) d flagwild body s keeps k =
      round-Kept ((find s.look d flagwild).1) (record s { look = (find s.look d flagwild).0 }) body
        (λ s'. while_found fuel d flagwild body s') keeps
        (λ s' k'. while_found-Kept fuel d flagwild body s' keeps k') k

  pub each_found-Kept :
      (d : List ℕ) (flagwild : Bool) (body : State → Option State) (s : State)
      → ((s' : State) → Kept s' → Yields Kept (body s'))
      → Kept s
      → Yields Kept (each_found d flagwild body s)
  unfolding each_found
  each_found-Kept d flagwild body s keeps k = while_found-Kept (2 ^ 32) d flagwild body _ keeps k

  pub dodata-Kept : (s : State) → Kept s → Yields Kept (dodata s)
  unfolding dodata
  dodata-Kept s k =
      let type = s.look.type in
      let name =
        byte_equal type type_ns || byte_equal type type_cname || byte_equal type type_ptr in
      if_Yields Kept name _ _ (doname-Kept s k) (
        if_Yields Kept (byte_equal type type_mx) _ _
          (Yields-bind Kept Kept _ _ (dobytes-Kept s 2 k) (λ s1 k1. doname-Kept s1 k1))
          (if_Yields Kept (byte_equal type type_soa) _ _
            (Yields-bind Kept Kept _ _ (dosoa-Kept s k) (λ s1 k1. k1))
            (Yields-bind (IsKept target) Kept _ _ (addbytes-IsKept target s.response _ k)
              (λ r kr. kr))))

  pub keep_address-Kept : (s : State) → Kept s → Kept (keep_address s)
  unfolding keep_address
  keep_address-Kept s k = k

  pub answer_record-Kept :
      (q qtype : List ℕ) (s : State) → Kept s → Yields Kept (answer_record q qtype s)
  unfolding answer_record
  answer_record-Kept q qtype s0 k =
      let s : State = record s0 { flagfound = true } in
      let type = s.look.type in
      let asked =
        not (byte_equal type qtype)
        && not (byte_equal qtype type_any)
        && not (byte_equal type type_cname) in
      if_Yields Kept (s.flaggavesoa && byte_equal type type_soa) (some s) _ k (
        if_Yields Kept asked (some s) _ k (
          if_Yields Kept (byte_equal type type_a && (length s.look.record_bytes - s.look.dpos == 4))
            (some (keep_address s)) _ (keep_address-Kept s k)
            (record-Kept s q type s.look.ttl answer_section dodata (λ s' k'. dodata-Kept s' k') k)))

  pub answer_addresses-Kept :
      (ips : List (List ℕ)) (q : List ℕ) (s : State)
      → Kept s
      → Yields Kept (answer_addresses ips q s)
  unfolding answer_addresses
  answer_addresses-Kept [] q s k = k
  answer_addresses-Kept (ip ∷ ips) q s k =
      Yields-bind Kept Kept _ _ (rstart-Kept s q type_a s.addrttl k) (λ s1 k1.
        Yields-bind (IsKept target) Kept _ _ (addbytes-IsKept target s1.response ip k1)
          (λ r kr. answer_addresses-Kept ips q _ (rfinish-Kept _ answer_section kr)))
