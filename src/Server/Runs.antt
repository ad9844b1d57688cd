-- ===== src/Server/Runs.antt =====
-- A request for a transfer of a zone, which is refused.
use geoipdns.Base.{
  ℕ, ◌+◌, ◌≤◌, List, [], ◌∷◌, All, IsByte, length, ◌≡◌, refl, some, none, false, arith, take,
}
use geoipdns.Uint.{uint16_pack_big, uint16_unpack_big}
use geoipdns.Text.{fold_case, case_equal}
use geoipdns.Cdb.{byte_equal}
use geoipdns.Cdb.Sample.{opened}
use geoipdns.Ip4.{Ip}
use geoipdns.Random.{Random}
use geoipdns.Dns.Domain.{length_from, dns_domain_length, dns_domain_equal}
use geoipdns.Dns.Packet.{dns_packet_copy, getname_loop, dns_domain_copy, dns_packet_getname}
use geoipdns.Response.{
  Response, response_addbytes, find_name, remember, addname_loop, response_addname, response_query,
  response_id,
}
use geoipdns.Lookup.Find.{Look}
use geoipdns.Lookup.Respond.{System}
use geoipdns.Server.{
  Question, read_question, copy_flags, doit, udp_reply, socket_send4_tcp, socket_recv4_tcp, epollin,
}
use geoipdns.Server.Tcp.{socket_recv4_tcp-send4_tcp}
use geoipdns.Server.Size.{length-udp_reply}

abbrev client : Ip
client = record { a = 10; b = 0; c = 0; d = 1 }

abbrev system : System
system = record {
  waiting = some 0;
  read_bytes = 0;
  event_size = 16;
  overflows = [];
  reopened = none;
  time = 0;
}

abbrev look : Look
look = record {
  c = opened [];
  clientloc = 0;
  now = 0;
  record_bytes = [];
  dpos = 0;
  type = [];
  ttl = 0;
}

abbrev random : Random
random = record { seed = []; input = []; out = []; outleft = 0 }

abbrev before : Response
before = record { bytes = []; names = []; tctarget = 0; dpos = 0; hidettl = false }

-- The name `e`, the type AXFR, the class IN.
abbrev request : List ℕ
request = 18 ∷ 52 ∷ 1 ∷ 0 ∷ 0 ∷ 1 ∷ 0 ∷ 0 ∷ 0 ∷ 0 ∷ 0 ∷ 0 ∷ 1 ∷ b'e' ∷ 0 ∷ 0 ∷ 252 ∷ 0 ∷ 1 ∷ []

abbrev refused : Response
refused = record {
  bytes = 18 ∷ 52 ∷ 0x85 ∷ 4 ∷ 0 ∷ 1 ∷ 0 ∷ 0 ∷ 0 ∷ 0 ∷ 0 ∷ 0 ∷ 1 ∷ b'e' ∷ 0 ∷ 0 ∷ 252 ∷ 0 ∷ 1 ∷ [];
  names = (1 ∷ b'e' ∷ 0 ∷ [], 12) ∷ [];
  tctarget = 19;
  dpos = 0;
  hidettl = false;
}

is_refused : doit system client look random before request ≡ some refused
unfolding doit read_question dns_packet_copy dns_packet_getname getname_loop dns_domain_copy
    dns_domain_length length_from dns_domain_equal case_equal fold_case response_query
    response_addname addname_loop remember find_name response_addbytes response_id uint16_pack_big
    byte_equal copy_flags
is_refused = refl

request-IsByte : All IsByte request
request-IsByte = omega arith

length-udp_reply_example :
    (x : Question) × (read_question request ≡ some x)
    × (19 ≡ 12 + length x.name + 4)
    × (12 + length x.name + 4 ≤ length (udp_reply refused))
    × (length (udp_reply refused) ≤ 512)
length-udp_reply_example =
    length-udp_reply system client look random before request request-IsByte is_refused

-- The whole message waits, and the buffer of the server has 513 bytes.
abbrev waiting : ℕ → List ℕ
waiting n = take n (socket_send4_tcp request)

socket_recv4_tcp-send4_tcp_example : socket_recv4_tcp waiting 513 epollin ≡ some request
socket_recv4_tcp-send4_tcp_example =
    socket_recv4_tcp-send4_tcp request 513 epollin waiting (omega arith) (omega arith) refl

-- A message that came in two pieces is not put together.
cut_short : socket_recv4_tcp (λ n. 0 ∷ 3 ∷ 1 ∷ []) 513 epollin ≡ none
unfolding socket_recv4_tcp uint16_unpack_big
cut_short = refl
