-- ===== src/Random.antt =====
-- src/dns_random.c: the generator, and src/dns_sortip.c: a random order of addresses.
-- The arrays `seed`, `in` and `out` and the counter `outleft` are the generator's state; `in` is
-- `input` here. How `dns_random_init` fills them from the clock and the process is left out.
pub mod Bounds
use geoipdns.Base.{
  ℕ, zero, suc, ◌+◌, ◌-◌, ◌*◌, ◌/◌, ◌%◌, ◌<◌, ◌≤◌, Bool, true, false, List, [], ◌∷◌, ◌++◌, take,
  drop, set, byte_at, get_or, length, ◌==◌, if◌then◌else◌, u32, ◌<<<◌, ◌>>>◌, bit_or, bit_xor,
}

pub record Random : Type 0 where
  pub seed : List ℕ
  pub input : List ℕ
  pub out : List ℕ
  pub outleft : ℕ

-- `a[i]` of an array of `uint32`.
abbrev pub word_at : List ℕ → ℕ → ℕ
word_at = byte_at

-- ROTATE(x,b)
abbrev rotate : ℕ → ℕ → ℕ
rotate x b = bit_or (u32 (x <<< b)) (x >>> (32 - b))

-- MUSH(i,b): the new `x`, which is also the new `t[i]`.
abbrev mush : List ℕ → ℕ → ℕ → ℕ → ℕ → ℕ → ℕ
mush seed sum t_i i b x = u32 (t_i + bit_xor (u32 (bit_xor x (word_at seed i) + sum)) (rotate x b))

-- The shifts of the twelve MUSH of a round.
abbrev shifts : List ℕ
shifts = 5 ∷ 7 ∷ 9 ∷ 13 ∷ 5 ∷ 7 ∷ 9 ∷ 13 ∷ 5 ∷ 7 ∷ 9 ∷ 13 ∷ []

-- The MUSH from index `i` on: the words of `t` that are left, and the new `t` with the last `x`.
mush_all : List ℕ → ℕ → List ℕ → List ℕ → ℕ → ℕ → List ℕ × ℕ
mush_all seed sum [] bs i x = ([], x)
mush_all seed sum (t ∷ ts) [] i x = ([], x)
mush_all seed sum (t ∷ ts) (b ∷ bs) i x =
    let x' = mush seed sum t i b x in
    let (ts', last) = mush_all seed sum ts bs (i + 1) x' in (x' ∷ ts', last)

-- `for (r = 0;r < 16;++r)`: `t`, `x` and `sum`.
mush_rounds : ℕ → List ℕ → List ℕ × ℕ × ℕ → List ℕ × ℕ × ℕ
mush_rounds zero seed s = s
mush_rounds (suc left) seed (t, x, sum) =
    let sum' = u32 (sum + 0x9e3779b9) in
    let (t', x') = mush_all seed sum' t shifts 0 x in mush_rounds left seed (t', x', sum')

xor_words : List ℕ → List ℕ → List ℕ
xor_words [] ys = []
xor_words (x ∷ xs) [] = []
xor_words (x ∷ xs) (y ∷ ys) = bit_xor x y ∷ xor_words xs ys

-- `for (loop = 0;loop < 2;++loop)`: sixteen rounds, then `out[i] ^= t[i + 4]`.
surf_loops : ℕ → List ℕ → List ℕ → List ℕ × ℕ × ℕ → List ℕ
surf_loops zero seed out s = out
surf_loops (suc left) seed out s =
    let s' = mush_rounds 16 seed s in surf_loops left seed (xor_words out (drop 4 s'.0)) s'

unfoldable pub surf : Random → Random
unfolding surf_loops mush_rounds mush_all xor_words
surf r =
    let t = xor_words (take 12 r.input) (take 12 (drop 12 r.seed)) in
    let out = take 8 (drop 24 r.seed) in
    record r { out = surf_loops 2 r.seed out (t, word_at t 11, 0) }

-- `if (!++in[0]) if (!++in[1]) if (!++in[2]) ++in[3];`
unfoldable pub count_up : ℕ → ℕ → List ℕ → List ℕ
count_up zero i input = set input i (u32 (word_at input i + 1))
count_up (suc left) i input =
    let input' = set input i (u32 (word_at input i + 1)) in
    let more = count_up left (i + 1) input' in if word_at input' i == 0 then more else input'

unfoldable pub refill : Random → Random
refill r =
    if r.outleft == 0
    then record (surf (record r { input = count_up 3 0 r.input })) { outleft = 8 }
    else r

unfoldable pub dns_random : Random → ℕ → Random × ℕ
dns_random r n =
    if n == 0
    then (r, 0)
    else let r' = refill r in
      (record r' { outleft = r'.outleft - 1 }, word_at r'.out (r'.outleft - 1) % n)

-- The address at an index, and the exchange of two.
abbrev swap_at : List (List ℕ) → ℕ → ℕ → List (List ℕ)
swap_at s i j = set (set s i (get_or s j [])) j (get_or s i [])

-- `while (n > 1)` over the addresses, of four bytes each: the number is the rounds left, `n - 1`.
sort_loop : ℕ → Random → List (List ℕ) → Random × List (List ℕ)
sort_loop zero r s = (r, s)
sort_loop (suc n) r s =
    let (r', i) = dns_random r (suc (suc n)) in sort_loop n r' (swap_at s i (suc n))

unfoldable pub dns_sortip : Random → List (List ℕ) → Random × List (List ℕ)
unfolding sort_loop
dns_sortip r s = sort_loop (length s - 1) r s
