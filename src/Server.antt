-- ===== src/Server.antt =====
-- src/server.c: one request, and the reply over UDP or TCP. src/socket_recv.c and
-- src/socket_send.c: the length in front of a TCP message.
-- Sockets, the event loop, the log and the start of the process are left out.
pub mod Size
pub mod Tcp
mod Runs
use geoipdns.Base.{
  ℕ, ◌+◌, not, ◌||◌, Option, none, some, List, [], ◌∷◌, ◌++◌, length, drop, byte_at, ltb, leb, ◌==◌,
  if◌then◌else◌, ◌>>=◌, ◌>>◌, guard, bit_and, u16,
}
use geoipdns.Uint.{uint16_pack_big, uint16_unpack_big}
use geoipdns.Text.{case_lowerb}
use geoipdns.Cdb.{byte_equal}
use geoipdns.Ip4.{Ip}
use geoipdns.Random.{Random}
use geoipdns.Dns.Packet.{dns_packet_copy, dns_packet_getname}
use geoipdns.Response.{
  Response, len, class_in, set_bits, keep_bits, response_query, response_id, response_tc,
}
use geoipdns.Lookup.Find.{Look}
use geoipdns.Lookup.Records.{type_axfr}
use geoipdns.Lookup.Respond.{System, respond}

-- The question of a packet, with the header it came under.
pub record Question : Type 0 where
  pub header : List ℕ
  pub name : List ℕ
  pub qtype : List ℕ
  pub qclass : List ℕ

-- From the start of `doit` to `response_query`: `none` is `goto NOQ`. `buf` holds the bytes that
-- were received, 513 at most.
unfoldable pub read_question : List ℕ → Option Question
read_question buf = do
  let n = length buf
  guard (not (leb 513 n))
  (header, pos) ← dns_packet_copy buf n 0 12
  guard (bit_and (byte_at header 2) 128 == 0)
  guard (byte_at header 4 == 0)
  guard (byte_at header 5 == 1)
  (q, pos1) ← dns_packet_getname buf n pos
  (qtype, pos2) ← dns_packet_copy buf n pos1 2
  (qclass, pos3) ← dns_packet_copy buf n pos2 2
  some (record { header = header; name = q; qtype = qtype; qclass = qclass })

-- `response[3] &= ~15; response[3] |= rcode;`
abbrev pub refuse : Response → ℕ → Response
refuse r rcode = set_bits (keep_bits r 3 240) 3 rcode

-- `response[3] &= ~128; if (!(header[2] & 1)) response[2] &= ~1;`
unfoldable pub copy_flags : List ℕ → Response → Response
copy_flags header r =
    let r1 = keep_bits r 3 127 in
    if bit_and (byte_at header 2) 1 == 0 then keep_bits r1 2 254 else r1

-- DNS_C_ANY
abbrev pub class_any : List ℕ
class_any = 0 ∷ 255 ∷ []

-- `doit`: the response to send, or `none` for a return of 0.
unfoldable pub doit : System → Ip → Look → Random → Response → List ℕ → Option Response
doit sys ip l random r0 buf = do
  x ← read_question buf
  r1 ← response_query r0 x.name x.qtype x.qclass
  let r2 = response_id r1 x.header
  let internet = byte_equal x.qclass class_in
  let r3 = if internet then set_bits r2 2 4 else r2
  if internet || byte_equal x.qclass class_any
      then (let r4 = copy_flags x.header r3 in
          if not (bit_and (byte_at x.header 2) 126 == 0) || byte_equal x.qtype type_axfr
          then some (refuse r4 4)
          else (do s ← respond sys (case_lowerb x.name) x.qtype ip l r4 random; some s.response))
      else some (refuse r3 1)

-- `if (response_len > 512) response_tc();`
unfoldable pub udp_reply : Response → List ℕ
udp_reply r = (if ltb 512 (len r) then response_tc r else r).bytes

-- The message that `socket_send4_tcp` writes.
unfoldable pub socket_send4_tcp : List ℕ → List ℕ
socket_send4_tcp buf = uint16_pack_big (u16 (length buf)) ++ buf

-- EPOLLIN of sys/epoll.h.
abbrev pub epollin : ℕ
epollin = 1

-- `socket_recv4_tcp`: the message, `none` for -1. `readv n` is what the system call delivers into the
-- two bytes of `qlen_` and the `len` bytes of `buf`, `n` in all: two bytes at least. `numbytes` is an
-- `unsigned short`, so the test for -1 never holds and is no test here.
unfoldable pub socket_recv4_tcp : (ℕ → List ℕ) → ℕ → ℕ → Option (List ℕ)
socket_recv4_tcp readv len events =
    if not (events == epollin)
    then none
    else (let bytes = readv (2 + len) in
        let qlen = uint16_unpack_big bytes in
        if qlen + 2 == u16 (length bytes) then some (drop 2 bytes) else none)
