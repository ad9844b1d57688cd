-- ===== src/Cdb/Match.antt =====
-- `cdb_read` and `match` on a mapped file.
use geoipdns.Base.{
  ℕ, zero, suc, ◌+◌, ◌<◌, ◌≤◌, min, Bool, true, false, none, some, List, [], ◌∷◌, length, take,
  drop, if◌then◌else◌, u32, IsU32, arith, ◌≡◌, refl, sym, ◌∙◌, ◌≢◌, ◌↔◌, length-drop, take-take,
  drop-take, drop-drop,
}
use native.Mathlib.Decide.{dec_le}
use geoipdns.Cdb.{Cdb, absent, present, byte_equal, cdb_read, match_loop, match}

-- The file is mapped whole, and its size is a `uint32`.
pub record IsMapped (c : Cdb) (m : List ℕ) : Type 0 where
  pub mapped : c.map ≡ some m
  pub whole : c.size ≡ length m
  pub fits : IsU32 c.size

-- A read of a mapped file returns exactly the bytes of the file at that place, and fails exactly
-- where they would pass its end.
pub cdb_read_lem :
    (c : Cdb) {m : List ℕ} (len pos : ℕ)
    → IsMapped c m
    → ((pos + len ≤ length m) → cdb_read c len pos ≡ some (take len (drop pos m)))
      × ((length m < pos + len) → cdb_read c len pos ≡ none)
unfolding cdb_read
cdb_read_lem c len pos h =
    (λ le. rw (h.mapped, h.whole) (ground arith), λ lt. rw (h.mapped, h.whole) (ground arith))

pub byte_equal_sound : (xs ys : List ℕ) → byte_equal xs ys ≡ true → xs ≡ ys
unfolding byte_equal
byte_equal_sound [] [] h = refl
byte_equal_sound [] (y ∷ ys) h = cc
byte_equal_sound (x ∷ xs) [] h = cc
byte_equal_sound (x ∷ xs) (y ∷ ys) h = ground (arith, byte_equal_sound xs ys)

pub byte_equal_self : (xs : List ℕ) → byte_equal xs xs ≡ true
unfolding byte_equal
byte_equal_self [] = refl
byte_equal_self (x ∷ xs) = ground (arith, byte_equal_self xs)

present_iff : (b : Bool) → (if b then present else absent) ≡ present → b ≡ true
present_iff b e = ground arith

-- A comparison may be made in two parts.
byte_equal_split :
    (n : ℕ) (xs ys : List ℕ)
    → byte_equal xs ys
      ≡ (if byte_equal (take n xs) (take n ys) then byte_equal (drop n xs) (drop n ys) else false)
unfolding byte_equal
byte_equal_split zero xs ys = refl
byte_equal_split (suc n) [] [] = refl
byte_equal_split (suc n) [] (y ∷ ys) = refl
byte_equal_split (suc n) (x ∷ xs) [] = refl
byte_equal_split (suc n) (x ∷ xs) (y ∷ ys) = ground (arith, byte_equal_split n xs ys)

module _ (c : Cdb) {m : List ℕ} (h : IsMapped c m) where
  wrap :
      (n : ℕ) (key : List ℕ) (pos : ℕ)
      → n ≤ length key
      → pos + length key ≤ length m
      → u32 (pos + n) ≡ pos + n
  wrap n key pos hn le = omega (arith, h.whole, h.fits)

  -- The comparison of the first `n` bytes, and that of the rest.
  chunk :
      (n : ℕ) (key : List ℕ) (pos : ℕ)
      → n ≤ length key
      → pos + length key ≤ length m
      → byte_equal (take (length key) (drop pos m)) key ≡ (
          if byte_equal (take n (drop pos m)) (take n key)
          then byte_equal (take (length (drop n key)) (drop (u32 (pos + n)) m)) (drop n key)
          else false)
  chunk n key pos hn le =
      rw
        (
          byte_equal_split n (take (length key) (drop pos m)) key,
          take-take n (length key) (drop pos m) hn,
          drop-take n (length key) (drop pos m),
          drop-drop n pos m,
          wrap n key pos hn le,
          length-drop n key,
        )
        refl

  -- Inside the file the loop gives the plain comparison, with no error.
  pub match_loop_inside :
      (fuel : ℕ) (key : List ℕ) (pos : ℕ)
      → length key ≤ fuel
      → pos + length key ≤ length m
      → match_loop fuel c key pos
        ≡ (if byte_equal (take (length key) (drop pos m)) key then present else absent)
  unfolding match_loop byte_equal
  match_loop_inside fuel [] pos hf le = refl
  match_loop_inside zero (k ∷ ks) pos hf le = absurd (omega arith)
  match_loop_inside (suc fuel) (k ∷ ks) pos hf le =
      let n = min 32 (length (k ∷ ks)) in
      let n_le : n ≤ length (k ∷ ks) = omega arith in
      ground (
        arith,
        (cdb_read_lem c n pos h).0 (omega arith),
        chunk n (k ∷ ks) pos n_le le,
        match_loop_inside fuel (drop n (k ∷ ks)) (u32 (pos + n))
            (omega (arith, length-drop n (k ∷ ks)))
            (omega (arith, length-drop n (k ∷ ks), wrap n (k ∷ ks) pos n_le le)),
      )

  -- A key that would pass the end of the file is not found.
  match_loop_outside :
      (fuel : ℕ) (key : List ℕ) (pos : ℕ)
      → 0 < length key
      → length m < pos + length key
      → match_loop fuel c key pos ≢ present
  unfolding match_loop
  match_loop_outside fuel [] pos hk gt = absurd (omega arith)
  match_loop_outside zero (k ∷ ks) pos hk gt = λ e. cc
  match_loop_outside (suc fuel) (k ∷ ks) pos hk gt =
      let n = min 32 (length (k ∷ ks)) in
      elim (dec_le (pos + n) (length m)) [
        | yes p ↦ λ e. ground (
          arith,
          (cdb_read_lem c n pos h).0 p,
          h.whole,
          h.fits,
          length-drop n (k ∷ ks),
          match_loop_outside fuel (drop n (k ∷ ks)) (u32 (pos + n))
              (omega (arith, length-drop n (k ∷ ks)))
              (omega (arith, length-drop n (k ∷ ks), h.whole, h.fits)),
        )
        | no p ↦ λ e. cc ((cdb_read_lem c n pos h).1 (omega arith))
      ]

  -- On a mapped file, `match` finds a key at a place exactly when the bytes there are the key's.
  pub match_iff :
      (key : List ℕ) (pos : ℕ)
      → 0 < length key
      → (match c key pos ≡ present)
        ↔ ((pos + length key ≤ length m) × (take (length key) (drop pos m) ≡ key))
  unfolding match
  match_iff key pos hk = (
    λ e. elim (dec_le (pos + length key) (length m)) [
      | yes p ↦ (
        p,
        byte_equal_sound _ key
            (present_iff _ (sym (match_loop_inside (length key) key pos (omega arith) p) ∙ e)),
      )
      | no p ↦ absurd (match_loop_outside (length key) key pos hk (omega arith) e)
    ],
    λ (le, e).
        match_loop_inside (length key) key pos (omega arith) le ∙ rw (e, byte_equal_self key) refl,
  )
