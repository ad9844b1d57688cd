-- ===== src/Dns.antt =====
-- src/dns.h: names on the wire and DNS packets, as src/dns_domain.c, src/dns_packet.c,
-- src/dns_dfd.c and src/dns_dtda.c handle them, and the answers that src/dns_ip.c and its kin read.
-- A name is the list of its bytes: for each label its length and its bytes, and a zero at the end.
-- `alloc` is taken to succeed, so what the source returns when memory is short is left out.
pub mod Dd
pub mod Domain
pub mod Name
pub mod Packet
pub mod Dot
pub mod Answers
