-- ===== src/Ipdb/Keys.antt =====
-- The key that is looked up for an address under a mask is the key of the network of that size that
-- holds the address, and no other.
use geoipdns.Base.{
  ℕ, ◌+◌, ◌-◌, ◌*◌, ◌/◌, ◌%◌, ◌^◌, ◌<◌, ◌≤◌, ◌≡◌, ◌↔◌, refl, sym, ap, ap₂, true, get_or, ◌∙◌, IsU32,
  arith, bit_and, take, drop,
}
use native.Mathlib.Nat.{one-le-pow, mod-eq_of_lt}
use geoipdns.Base.Tables.{equal_below, equal_below_sound}
use geoipdns.Base.Bits.{bit_and-low_mask, bit_and-shifted}
use geoipdns.Uint.{uint32_pack}
use geoipdns.Uint.RoundTrip.{uint32_pack-injective}
use geoipdns.Ipdb.{ipdb_key4build, netmask_loop, ipdb_key4lookup}

netmask_table : equal_below (λ m. netmask_loop m 0 0) (λ m. (2 ^ m - 1) * 2 ^ (32 - m)) 33 ≡ true
unfolding equal_below netmask_loop
netmask_table = refl

-- `netmask` has the `mask` highest of 32 bits.
netmask_lem : (m : ℕ) → m ≤ 32 → netmask_loop m 0 0 ≡ (2 ^ m - 1) * 2 ^ (32 - m)
netmask_lem m h =
    equal_below_sound (λ m. netmask_loop m 0 0) (λ m. (2 ^ m - 1) * 2 ^ (32 - m)) 33 netmask_table m
      (omega arith)

-- The first address of the network of an address.
abbrev pub network : ℕ → ℕ → ℕ
network ip m = ip / 2 ^ (32 - m) * 2 ^ (32 - m)

width_table : equal_below (λ n. 2 ^ n * 2 ^ (32 - n)) (λ n. 2 ^ 32) 33 ≡ true
unfolding equal_below
width_table = refl

high_few : (q a b : ℕ) → q * b < a * b → q < a
high_few q a b h = grind arith

masked : (ip m : ℕ) → IsU32 ip → m ≤ 32 → bit_and ip (netmask_loop m 0 0) ≡ network ip m
masked ip m hi hm =
    let k : ℕ = 32 - m in
    let all : 2 ^ m * 2 ^ k ≡ 2 ^ 32 =
      equal_below_sound (λ n. 2 ^ n * 2 ^ (32 - n)) (λ n. 2 ^ 32) 33 width_table m (omega arith) in
    let split : ip ≡ ip / 2 ^ k * 2 ^ k + ip % 2 ^ k = grind (arith, one-le-pow k 2) in
    let low : ip % 2 ^ k < 2 ^ k = grind (arith, one-le-pow k 2) in
    let few : ip / 2 ^ k < 2 ^ m = high_few (ip / 2 ^ k) (2 ^ m) (2 ^ k) (omega arith) in
    ap (bit_and ip) (netmask_lem m hm)
    ∙ ap (λ (x : ℕ). bit_and x ((2 ^ m - 1) * 2 ^ k)) split
    ∙ bit_and-shifted k (ip / 2 ^ k) (ip % 2 ^ k) (2 ^ m - 1) low
    ∙ ap (λ (x : ℕ). x * 2 ^ k) (bit_and-low_mask m (ip / 2 ^ k) ∙ mod-eq_of_lt few)

pub ipdb_key4lookup-build :
    (ip m mid uid : ℕ)
    → IsU32 ip
    → m ≤ 32
    → ipdb_key4lookup ip m mid uid ≡ ipdb_key4build (network ip m) m mid uid
unfolding ipdb_key4lookup ipdb_key4build
ipdb_key4lookup-build ip m mid uid hi hm = rw (masked ip m hi hm) refl

network-IsU32 : (ip m : ℕ) → IsU32 ip → IsU32 (network ip m)
network-IsU32 ip m h = grind (arith, one-le-pow (32 - m) 2)

pub ipdb_key4build-injective :
    (ip m mid uid ip' m' mid' uid' : ℕ)
    → IsU32 ip
    → IsU32 mid
    → IsU32 uid
    → IsU32 ip'
    → IsU32 mid'
    → IsU32 uid'
    → ipdb_key4build ip m mid uid ≡ ipdb_key4build ip' m' mid' uid'
    → (ip ≡ ip') × (m ≡ m') × (mid ≡ mid') × (uid ≡ uid')
unfolding ipdb_key4build uint32_pack
ipdb_key4build-injective ip m mid uid ip' m' mid' uid' h1 h2 h3 h4 h5 h6 e = (
  omega (
    arith,
    ap (λ key. get_or key 10 0) e,
    ap (λ key. get_or key 11 0) e,
    ap (λ key. get_or key 12 0) e,
    ap (λ key. get_or key 13 0) e,
    bit_and-low_mask 8 (ip / 2 ^ 24),
    bit_and-low_mask 8 (ip / 2 ^ 16),
    bit_and-low_mask 8 (ip / 2 ^ 8),
    bit_and-low_mask 8 ip,
    bit_and-low_mask 8 (ip' / 2 ^ 24),
    bit_and-low_mask 8 (ip' / 2 ^ 16),
    bit_and-low_mask 8 (ip' / 2 ^ 8),
    bit_and-low_mask 8 ip',
  ),
  ap (λ key. get_or key 14 0) e,
  uint32_pack-injective mid mid' h2 h5 (ap (λ key. take 4 (drop 2 key)) e),
  uint32_pack-injective uid uid' h3 h6 (ap (λ key. take 4 (drop 6 key)) e),
)

-- The key that is looked up for an address under a mask is the key of the record of a network
-- exactly when the record has that mask, map and user, and its network is the one of that size
-- that holds the address.
pub ipdb_key4lookup_iff :
    (ip m mid uid net m' mid' uid' : ℕ)
    → IsU32 ip
    → m ≤ 32
    → IsU32 mid
    → IsU32 uid
    → IsU32 net
    → IsU32 mid'
    → IsU32 uid'
    → (ipdb_key4lookup ip m mid uid ≡ ipdb_key4build net m' mid' uid')
      ↔ ((network ip m ≡ net) × (m ≡ m') × (mid ≡ mid') × (uid ≡ uid'))
ipdb_key4lookup_iff ip m mid uid net m' mid' uid' hi hm h2 h3 h4 h5 h6 = (
  λ e.
      ipdb_key4build-injective (network ip m) m mid uid net m' mid' uid' (network-IsU32 ip m hi) h2
        h3 h4 h5 h6 (sym (ipdb_key4lookup-build ip m mid uid hi hm) ∙ e),
  λ (e1, e2, e3, e4).
      ipdb_key4lookup-build ip m mid uid hi hm
      ∙ ap₂ (λ (n k : ℕ). ipdb_key4build n k mid uid) e1 e2
      ∙ ap₂ (λ (a b : ℕ). ipdb_key4build net m' a b) e3 e4,
)
