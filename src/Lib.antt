-- ===== src/Lib.antt =====
-- A model of the DNS server of this repository: vdnsd, which answers from a constant database and
-- chooses the answers by the client's address.
--
-- A request is a packet. The server reads its question (src/server.c, with src/dns_packet.c), begins
-- a response (src/response.c), and asks src/tdlookup.c for the records. That finds the client's
-- location (src/ipdb.c) and then searches the database (src/cdb.c) for the zone of the name, for
-- the records of the name or of a wildcard, for the name servers, and for the addresses of the
-- names in the response so far. The reply goes out over UDP, cut short if it is too long, or TCP.
--
-- Base: Boolean tests, lists, words of 8 to 64 bits, and lemmas on them.
-- Uint: src/uint16_pack.c, uint16_unpack.c, uint32_pack.c, uint32_unpack.c, tai_pack.c, tai_unpack.c.
-- Text: src/scan_ulong.c, scan_ushort.c, fmt_ulong.c, case_lowerb.c, case_diffb.c.
-- Ip4: src/ip4_scan.c, ip4_fmt.c, ip4_num.c, dns_nd.c.
-- Dns: src/dns_domain.c in Dns.Domain, and src/dns_packet.c in Dns.Packet; Dns.Name says what a
--   well-formed name is. src/dns_dfd.c and dns_dtda.c in Dns.Dot, src/dd.c in Dns.Dd, and the
--   parsers of src/dns_ip.c, dns_name.c, dns_mx.c and dns_txt.c in Dns.Answers.
-- Response: src/response.c; the globals are the fields of the record `Response`.
-- Tai: src/tai_add.c, tai_sub.c, tai.h, taia.h, taia_add.c, taia_sub.c, taia_less.c, taia_uint.c,
--   taia_tai.c.
-- Random: src/dns_random.c, dns_sortip.c.
-- Cdb: src/cdb_hash.c, cdb.h, cdb.c, byte_diff.c. The file is the list of its bytes.
-- Ipdb: src/ipdb.c.
-- Lookup: src/tdlookup.c, `find` in Lookup.Parse and Lookup.Find, the records in Lookup.Records,
--   `doit` in Lookup.Answer, and `respond` with the watch on the database in Lookup.Respond.
-- Cdb.Make: src/cdb_make.h, cdb_make.c: the writer of the database.
-- Compile: src/vdnsdb.c, the program that makes the database of the data file: a line is taken apart
--   in Compile.Parse, with src/getln.c and byte_chr.c, and each kind of line is a function of
--   Compile.Line, which builds records with those of Compile.Record. Compile.Run has the loop over
--   the lines, and `main`.
-- Server: src/server.c, and the TCP calls of src/socket_recv.c and socket_send.c.
--
-- A database is described by the list of its records, a key and data each, in the order of adding:
-- `datas_of` of Cdb.Walk are the data under a key, `first_taken` of Lookup.Find.Refine the first of
-- them for a client, `zone_of` of Lookup.Answer.Zone the zone of a name, `location_of` of Ipdb.Refine
-- the location of an address, and `client_location` of Lookup.Respond.Located that of a client for a
-- name. `cdb_of` of Cdb.Make.Built is the file of such a list.
--
-- A function keeps its name in the source. A return of 0 for a failure is `none`; globals and
-- changed arguments are passed along. A byte is a number below 256; arithmetic on a machine word is
-- followed by its cut (`u8`, `u16`, `u32`, `u64`). Characters are taken as unsigned bytes, except in
-- the hash, where the source widens a signed `char`. Memory is taken to be given when asked for.
--
-- Loops run on fuel, or on the data they walk. `dns_packet_getname` has 999 rounds, which is the
-- limit in the source. `cdb_findnext` has a round for each slot that is left. `find` and the loops
-- over it have 2^32 rounds: each moves on in a table of fewer than 2^32 slots. The loop of
-- `cdb_make_finish` over the slots of a table has a round for each slot, and that of the compiler over
-- the lines one for each byte of the data file and one more. The other loops walk a name, a list or a
-- packet, and have a round for each byte.
--
-- Relations without fuel describe three of these loops as the source has them: `Finds` of
-- Lookup.Find.Sound, `Loops` of Lookup.Records.Enough, `Lines` of Compile.Run.Enough.
--
-- Where the source reads a location map whose data do not have eight bytes, it goes beyond its array
-- or reads bytes that are not set; the model has no result there.
--
-- Not modelled: system calls (sockets, epoll, inotify, files, clock), whose results are arguments;
-- the log; the resolver; the copy of xtables-addons.
pub mod Base
pub mod Uint
pub mod Text
pub mod Ip4
pub mod Dns
pub mod Response
pub mod Tai
pub mod Random
pub mod Cdb
pub mod Ipdb
pub mod Lookup
pub mod Server
pub mod Compile
