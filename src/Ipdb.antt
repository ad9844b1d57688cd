-- ===== src/Ipdb.antt =====
-- src/ipdb.h and src/ipdb.c: the addresses in the database. A record's key is made of the network's
-- address, the mask, the map and the user; its data is the location.
pub mod Keys
pub mod Get
pub mod Refine
mod Runs
use geoipdns.Base.{
  ℕ, zero, suc, ◌+◌, ◌-◌, Option, none, some, List, [], ◌∷◌, ◌++◌, ◌<<<◌, ◌>>>◌, u8, u32, bit_and,
  bit_or,
}
use geoipdns.Uint.{uint32_pack, uint32_unpack}
use geoipdns.Cdb.{Cdb, Found, error, absent, present, cdb_read, cdb_find}
use geoipdns.Ip4.{Ip, ip4_num}

unfoldable pub ipdb_key4build : ℕ → ℕ → ℕ → ℕ → List ℕ
ipdb_key4build ipuint mask mid uid =
    0
    ∷ b'%'
    ∷ (uint32_pack mid
        ++ (uint32_pack uid
            ++ (bit_and (ipuint >>> 24) 255
                ∷ bit_and (ipuint >>> 16) 255
                ∷ bit_and (ipuint >>> 8) 255
                ∷ bit_and ipuint 255
                ∷ mask
                ∷ [])))

-- `for (i = 0; i < mask; i++) netmask |= 1 << (31 - i);`: the rounds left, `i`, and `netmask`.
unfoldable pub netmask_loop : ℕ → ℕ → ℕ → ℕ
netmask_loop zero i netmask = netmask
netmask_loop (suc left) i netmask =
    netmask_loop left (i + 1) (bit_or netmask (u32 (1 <<< (31 - i))))

unfoldable pub ipdb_key4lookup : ℕ → ℕ → ℕ → ℕ → List ℕ
ipdb_key4lookup ipuint mask mid uid =
    let masked = bit_and ipuint (netmask_loop mask 0 0) in
    0
    ∷ b'%'
    ∷ (uint32_pack mid
        ++ (uint32_pack uid
            ++ (bit_and (masked >>> 24) 255
                ∷ bit_and (masked >>> 16) 255
                ∷ bit_and (masked >>> 8) 255
                ∷ bit_and masked 255
                ∷ mask
                ∷ [])))

-- The masks in the order in which IPDB_TRYLOOKUP tries them.
abbrev pub lookup_order : List ℕ
lookup_order =
    24 ∷ 28 ∷ 29 ∷ 27 ∷ 32 ∷ 23 ∷ 26 ∷ 30 ∷ 25 ∷ 22 ∷ 19 ∷ 21 ∷ 20 ∷ 16 ∷ 18 ∷ 31 ∷ 17 ∷ 15 ∷ 14
    ∷ 13 ∷ 12 ∷ 11 ∷ 10 ∷ 9 ∷ 8 ∷ 7 ∷ 6 ∷ 5 ∷ 4 ∷ 3 ∷ 2 ∷ 1 ∷ []

-- `cdb_read(c,cc,4,cdb_datapos(c))` and what is returned after it: the new `*clientloc`, or `none`
-- for the return of 0.
unfoldable pub read_location : Cdb → Cdb × Option ℕ
read_location c = elim (cdb_read c 4 c.dpos) [
  | none ↦ (c, none)
  | some cc ↦ (c, some (uint32_unpack cc))
]

-- The tests of `r` in IPDB_TRYLOOKUP; `rest` is what follows it.
unfoldable pub after_find : Cdb × Found → (Cdb → Cdb × Option ℕ) → Cdb × Option ℕ
after_find (c, error) rest = (c, none)
after_find (c, absent) rest = rest c
after_find (c, present) rest = read_location c

-- The lookups one after the other. Where none finds a record, `*clientloc` keeps its value `loc`.
unfoldable pub try_masks : List ℕ → Cdb → ℕ → ℕ → ℕ → ℕ → Cdb × Option ℕ
unfolding after_find read_location
try_masks [] c ipint mid uid loc = (c, some loc)
try_masks (mask ∷ masks) c ipint mid uid loc =
    after_find (cdb_find c (ipdb_key4lookup ipint mask mid uid))
      (λ c'. try_masks masks c' ipint mid uid loc)

unfoldable pub ipdb_get : Cdb → Ip → ℕ → ℕ → ℕ → Cdb × Option ℕ
ipdb_get c ip loc mid uid = try_masks lookup_order c (ip4_num 0 ip) mid uid loc
