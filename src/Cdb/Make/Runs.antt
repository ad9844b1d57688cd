-- ===== src/Cdb/Make/Runs.antt =====
-- A database of three records, two of them under one key, and what is found in it.
use geoipdns.Base.{
  ℕ, ◌+◌, ◌≡◌, List, [], ◌∷◌, ◌++◌, length, Option, none, some, All, refl, arith, true,
}
use geoipdns.Uint.{uint32_pack}
use geoipdns.Cdb.{byte_equal, cdb_findstart}
use geoipdns.Cdb.Hash.{hash_round, hash_bytes, hash_finish, cdb_hash}
use geoipdns.Cdb.Match.{IsMapped}
use geoipdns.Cdb.Sample.{opened}
use geoipdns.Cdb.Make.{
  CdbHp, cdb_make_start, posplus, and_posplus, cdb_make_addend, cdb_make_addbegin, cdb_make_add,
  count, split, memsize_loop, too_large, place, place_all, table_of, pack_slots, posplus_slots,
  finish_loop, cdb_make_finish,
}
use geoipdns.Cdb.Make.Filled.{IsFilled, IsReal, under, table_of-IsFilled}
use geoipdns.Cdb.Make.Added.{
  IsMade, IsShort, image, cdb_make_start-IsMade, cdb_make_add-IsMade, cdb_make_adds,
}
use geoipdns.Cdb.Make.Built.{cdb_of}
use geoipdns.Cdb.Make.Room.{cdb_of_room}
use geoipdns.Cdb.Walk.{datas_of}
use geoipdns.Cdb.Refine.{find_all, find_all-cdb_of}

abbrev www : List ℕ
www = 3 ∷ b'w' ∷ b'w' ∷ b'w' ∷ 0 ∷ []

abbrev ftp : List ℕ
ftp = 3 ∷ b'f' ∷ b't' ∷ b'p' ∷ 0 ∷ []

abbrev three : List (List ℕ × List ℕ)
three = (www, 1 ∷ 2 ∷ []) ∷ (ftp, 3 ∷ []) ∷ (www, 4 ∷ 5 ∷ 6 ∷ []) ∷ []

three-IsShort : All IsShort three
three-IsShort =
    ((omega arith, omega arith), ((omega arith, omega arith), ((omega arith, omega arith), tt)))

abbrev or_empty : Option (List ℕ) → List ℕ
or_empty none = []
or_empty (some file) = file

file : List ℕ
file = or_empty (cdb_of three)

file_made : cdb_of three ≡ some file
unfolding file cdb_of cdb_make_adds cdb_make_add cdb_make_addend and_posplus posplus
    cdb_make_addbegin cdb_make_start cdb_make_finish too_large count cdb_hash finish_loop
    posplus_slots table_of place_all split place hash_bytes hash_finish hash_round memsize_loop
    pack_slots uint32_pack
file_made = refl

-- The header, three records, and two slots for each.
length-file : length file ≡ 2048 + (15 + (14 + 16)) + 48
unfolding file cdb_of cdb_make_adds cdb_make_add cdb_make_addend and_posplus posplus
    cdb_make_addbegin cdb_make_start cdb_make_finish too_large count cdb_hash finish_loop
    posplus_slots table_of place_all split place hash_bytes hash_finish hash_round memsize_loop
    pack_slots uint32_pack
length-file = refl

file-IsMapped : IsMapped (opened file) file
file-IsMapped = record { mapped = refl; whole = refl; fits = omega (arith, length-file) }

find_all-cdb_of_example :
    find_all 4 (cdb_findstart (opened file)) www ≡ some ((1 ∷ 2 ∷ []) ∷ (4 ∷ 5 ∷ 6 ∷ []) ∷ [])
unfolding datas_of byte_equal
find_all-cdb_of_example =
    find_all-cdb_of three www (opened file) three-IsShort file_made file-IsMapped

fits_in : (cdb_make_add cdb_make_start www (1 ∷ 2 ∷ [])).1 ≡ true
unfolding cdb_make_add cdb_make_addend and_posplus posplus cdb_make_addbegin cdb_make_start
fits_in = refl

cdb_make_add-IsMade_example :
    IsMade (cdb_make_add cdb_make_start www (1 ∷ 2 ∷ [])).0 ([] ++ ((www, 1 ∷ 2 ∷ []) ∷ []))
cdb_make_add-IsMade_example =
    cdb_make_add-IsMade cdb_make_start [] www (1 ∷ 2 ∷ []) (omega arith) (omega arith)
      cdb_make_start-IsMade fits_in

-- Two entries that begin at the same slot of table 5.
abbrev two_entries : List CdbHp
two_entries = record { h = 1029; p = 2048 } ∷ record { h = 5; p = 2060 } ∷ []

two-IsReal : All IsReal (split 5 two_entries)
unfolding split
two-IsReal = (refl, (refl, tt))

table_of-IsFilled_example :
    IsFilled
      (count 5 two_entries + count 5 two_entries)
      (table_of 5 two_entries)
      (count 5 two_entries)
      (λ h. under h (split 5 two_entries))
table_of-IsFilled_example = table_of-IsFilled 5 two_entries two-IsReal

cdb_of_room_example : (bytes : List ℕ) × (cdb_of three ≡ some bytes)
unfolding image uint32_pack
cdb_of_room_example = cdb_of_room three three-IsShort (omega arith)
