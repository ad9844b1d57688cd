-- ===== src/Response/Runs.antt =====
-- Two names in a response, the second compressed.
use geoipdns.Base.{ℕ, List, [], ◌∷◌, ◌++◌, ◌≡◌, refl, arith, some, false}
use geoipdns.Uint.{uint16_pack_big}
use geoipdns.Text.{fold_case, case_equal}
use geoipdns.Dns.Name.{IsName, wire, lower_labels}
use geoipdns.Dns.Domain.{length_from, dns_domain_length, dns_domain_equal}
use geoipdns.Dns.Packet.{dns_packet_getname}
use geoipdns.Response.{
  Response, response_addbytes, find_name, remember, addname_loop, response_addname, query_header,
  count_record, answer_section,
}
use geoipdns.Response.Compress.{HasNames, response_addname_lem}

abbrev fresh : Response
fresh = record { bytes = query_header; names = []; tctarget = 0; dpos = 0; hidettl = false }

abbrev e : List (List ℕ)
e = (b'e' ∷ []) ∷ []

abbrev w_e : List (List ℕ)
w_e = (b'w' ∷ []) ∷ (b'E' ∷ []) ∷ []

e-IsName : IsName e
e-IsName = record {
  labels = (record { some_bytes = omega arith; at_most_63 = omega arith; bytes = omega arith }, tt);
  at_most_255 = omega arith;
}

w_e-IsName : IsName w_e
w_e-IsName = record {
  labels = (
    record { some_bytes = omega arith; at_most_63 = omega arith; bytes = omega arith },
    (record { some_bytes = omega arith; at_most_63 = omega arith; bytes = omega arith }, tt),
  );
  at_most_255 = omega arith;
}

-- After `e`, which lies at 12.
abbrev one_name : Response
one_name = record fresh { bytes = query_header ++ (1 ∷ b'e' ∷ 0 ∷ []); names = (wire e, 12) ∷ [] }

-- After `w.E`, whose last label is a pointer to 12.
abbrev two_names : Response
two_names = record fresh {
  bytes = query_header ++ (1 ∷ b'e' ∷ 0 ∷ 1 ∷ b'w' ∷ 192 ∷ 12 ∷ []);
  names = (wire e, 12) ∷ (wire w_e, 15) ∷ [];
}

adds_e : response_addname fresh (wire e) ≡ some one_name
unfolding response_addname addname_loop remember find_name response_addbytes dns_domain_length
    length_from
adds_e = refl

adds_w_e : response_addname one_name (wire w_e) ≡ some two_names
unfolding response_addname addname_loop remember find_name response_addbytes dns_domain_length
    length_from dns_domain_equal case_equal fold_case uint16_pack_big
adds_w_e = refl

one_name-HasNames : HasNames one_name
one_name-HasNames = (response_addname_lem fresh e tt e-IsName (omega arith) adds_e).0

response_addname_lem_example :
    HasNames two_names
    × ((more : List ℕ) × (two_names.bytes ≡ one_name.bytes ++ more))
    × ((held : List (List ℕ)) × (dns_packet_getname two_names.bytes 19 15 ≡ some (wire held, 19))
        × (lower_labels held ≡ lower_labels w_e))
response_addname_lem_example =
    response_addname_lem one_name w_e one_name-HasNames w_e-IsName (omega arith) adds_w_e

-- The count of the answers carries from its low byte to its high byte.
counts :
    count_record (0 ∷ 0 ∷ 0 ∷ 0 ∷ 0 ∷ 0 ∷ 2 ∷ 255 ∷ []) answer_section
    ≡ 0 ∷ 0 ∷ 0 ∷ 0 ∷ 0 ∷ 0 ∷ 3 ∷ 0 ∷ []
unfolding count_record
counts = refl
