-- ===== src/Cdb/Sample.antt =====
-- A small database to run the lookups on: one record, and the one table with its slot.
use geoipdns.Base.{ℕ, ◌+◌, ◌-◌, ◌*◌, ◌%◌, none, some, List, ◌++◌, length, replicate}
use geoipdns.Uint.{uint32_pack}
use geoipdns.Cdb.{Cdb}
use geoipdns.Cdb.Hash.{cdb_hash}

abbrev pub one_record_file : List ℕ → List ℕ → List ℕ
one_record_file key content =
    let hash = cdb_hash key in
    let header = hash % 256 * 8 in
    let table = 2056 + length key + length content in
    replicate header 0
    ++ (uint32_pack table
        ++ (uint32_pack 1
            ++ (replicate (2040 - header) 0
                ++ (uint32_pack (length key)
                    ++ (uint32_pack (length content)
                        ++ (key ++ (content ++ (uint32_pack hash ++ uint32_pack 2048))))))))

-- What `cdb_init` gives for a mapped file.
abbrev pub opened : List ℕ → Cdb
opened file = record {
  map = some file;
  fd = λ len pos. none;
  size = length file;
  loop = 0;
  khash = 0;
  kpos = 0;
  hpos = 0;
  hslots = 0;
  dpos = 0;
  dlen = 0;
}
