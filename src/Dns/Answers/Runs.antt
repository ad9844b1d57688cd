-- ===== src/Dns/Answers/Runs.antt =====
-- A packet with one TXT answer, whose string has a tab in it.
use geoipdns.Base.{ℕ, List, [], ◌∷◌, All, ◌≡◌, refl, some}
use geoipdns.Uint.{uint16_unpack_big}
use geoipdns.Cdb.{byte_equal}
use geoipdns.Dns.Packet.{dns_packet_copy, dns_packet_skipname, skip_loop}
use geoipdns.Dns.Answers.{first_answer, each_answer, txt_bytes, txt_answer, dns_txt_packet}
use geoipdns.Dns.Answers.Printable.{IsPrintable, dns_txt_packet-IsPrintable}

abbrev packet : List ℕ
packet =
    0 ∷ 0 ∷ 0x81 ∷ 0x80 ∷ 0 ∷ 1 ∷ 0 ∷ 1 ∷ 0 ∷ 0 ∷ 0 ∷ 0 ∷ 0 ∷ 0 ∷ 16 ∷ 0 ∷ 1 ∷ 192 ∷ 12 ∷ 0 ∷ 16 ∷ 0
    ∷ 1 ∷ 0 ∷ 0 ∷ 0 ∷ 60 ∷ 0 ∷ 4 ∷ 3 ∷ b'a' ∷ 9 ∷ b'b' ∷ []

reads_text : dns_txt_packet packet ≡ some (b'a' ∷ b'?' ∷ b'b' ∷ [])
unfolding dns_txt_packet txt_answer txt_bytes each_answer first_answer dns_packet_copy
    dns_packet_skipname skip_loop uint16_unpack_big byte_equal
reads_text = refl

dns_txt_packet-IsPrintable_example : All IsPrintable (b'a' ∷ b'?' ∷ b'b' ∷ [])
dns_txt_packet-IsPrintable_example = dns_txt_packet-IsPrintable packet reads_text
