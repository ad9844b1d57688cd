-- ===== src/Base/Lists.antt =====
-- Buffers as lists of bytes, measured and indexed by native numbers; options.
use Prim.Native.Nat.{ℕ, zero, suc, ◌+◌, ◌-◌, ◌<◌, ◌≤◌, min}
use mathlib.Core.Path.{◌≡◌, refl, ap, subst}
use mathlib.Core.Bool.{Bool, true, false}
use mathlib.Core.List.{List, [], ◌∷◌, ◌++◌}
use mathlib.Core.Option.{Option, none, some}
use native.Mathlib.Omega.{arith}

module _ {ℓ} {A : Type ℓ} where
  abbrev pub length : List A → ℕ
  length [] = 0
  length (x ∷ xs) = suc (length xs)

  abbrev pub get_elem? : List A → ℕ → Option A
  get_elem? [] i = none
  get_elem? (x ∷ xs) zero = some x
  get_elem? (x ∷ xs) (suc i) = get_elem? xs i

  abbrev pub get_or : List A → ℕ → A → A
  get_or [] i d = d
  get_or (x ∷ xs) zero d = x
  get_or (x ∷ xs) (suc i) d = get_or xs i d

  -- A write out of bounds changes nothing.
  abbrev pub set : List A → ℕ → A → List A
  set [] i v = []
  set (x ∷ xs) zero v = v ∷ xs
  set (x ∷ xs) (suc i) v = x ∷ set xs i v

  abbrev pub take : ℕ → List A → List A
  take zero xs = []
  take (suc n) [] = []
  take (suc n) (x ∷ xs) = x ∷ take n xs

  abbrev pub drop : ℕ → List A → List A
  drop zero xs = xs
  drop (suc n) [] = []
  drop (suc n) (x ∷ xs) = drop n xs

  abbrev pub replicate : ℕ → A → List A
  replicate zero a = []
  replicate (suc n) a = a ∷ replicate n a

  abbrev pub All {κ} : (A → Type κ) → List A → Type κ
  All P [] = Unit {κ}
  All P (x ∷ xs) = P x × All P xs

  take_nil : (n : ℕ) → ◌≡◌ {A = List A} [] (take n [])
  take_nil zero = refl
  take_nil (suc n) = refl

  drop_nil : (n : ℕ) → ◌≡◌ {A = List A} (drop n []) []
  drop_nil zero = refl
  drop_nil (suc n) = refl

  pub length-append : (xs ys : List A) → length (xs ++ ys) ≡ length xs + length ys
  length-append [] ys = omega arith
  length-append (x ∷ xs) ys = omega (arith, length-append xs ys)

module _ {ℓ} {A : Type ℓ} where
  pub length-set : (xs : List A) (i : ℕ) (v : A) → length (set xs i v) ≡ length xs
  length-set [] i v = refl
  length-set (x ∷ xs) zero v = refl
  length-set (x ∷ xs) (suc i) v = ap suc (length-set xs i v)

  pub length-take : (n : ℕ) (xs : List A) → length (take n xs) ≡ min n (length xs)
  length-take zero xs = omega arith
  length-take (suc n) [] = omega arith
  length-take (suc n) (x ∷ xs) = omega (arith, length-take n xs)

  pub length-drop : (n : ℕ) (xs : List A) → length (drop n xs) ≡ length xs - n
  length-drop zero xs = omega arith
  length-drop (suc n) [] = omega arith
  length-drop (suc n) (x ∷ xs) = omega (arith, length-drop n xs)

  pub take_all : (xs : List A) → take (length xs) xs ≡ xs
  take_all [] = refl
  take_all (x ∷ xs) = ap (λ ys. x ∷ ys) (take_all xs)

  pub take-append : (xs ys : List A) → take (length xs) (xs ++ ys) ≡ xs
  take-append [] ys = refl
  take-append (x ∷ xs) ys = ap (λ zs. x ∷ zs) (take-append xs ys)

  pub drop-append : (xs ys : List A) → drop (length xs) (xs ++ ys) ≡ ys
  drop-append [] ys = refl
  drop-append (x ∷ xs) ys = drop-append xs ys

  -- A read inside the left part, and a read counted from its end.
  pub get_elem?-append_left :
      (xs ys : List A) (i : ℕ) → i < length xs → get_elem? (xs ++ ys) i ≡ get_elem? xs i
  get_elem?-append_left [] ys i h = elim h [ ]
  get_elem?-append_left (x ∷ xs) ys zero h = refl
  get_elem?-append_left (x ∷ xs) ys (suc i) h = get_elem?-append_left xs ys i (omega arith)

  pub get_elem?-drop : (xs : List A) (n i : ℕ) → get_elem? (drop n xs) i ≡ get_elem? xs (n + i)
  get_elem?-drop xs zero i = ap (λ (k : ℕ). get_elem? xs k) (omega arith)
  get_elem?-drop [] (suc n) i = refl
  get_elem?-drop (x ∷ xs) (suc n) i =
      let e : suc n + i ≡ suc (n + i) = omega arith in rw e (get_elem?-drop xs n i)

  pub take-take : (n k : ℕ) (xs : List A) → n ≤ k → take n (take k xs) ≡ take n xs
  take-take zero k xs h = refl
  take-take (suc n) zero xs h = absurd (omega arith)
  take-take (suc n) (suc k) [] h = refl
  take-take (suc n) (suc k) (x ∷ xs) h = ap (λ ys. x ∷ ys) (take-take n k xs (omega arith))

  pub drop-take : (n k : ℕ) (xs : List A) → drop n (take k xs) ≡ take (k - n) (drop n xs)
  drop-take zero k xs = ap (λ (j : ℕ). take j xs) (omega arith)
  drop-take (suc n) zero xs = let e : 0 - suc n ≡ 0 = omega arith in rw e refl
  drop-take (suc n) (suc k) [] =
      let e : suc k - suc n ≡ k - n = omega arith in rw e (take_nil (k - n))
  drop-take (suc n) (suc k) (x ∷ xs) =
      let e : suc k - suc n ≡ k - n = omega arith in rw e (drop-take n k xs)

  pub drop-drop : (n k : ℕ) (xs : List A) → drop n (drop k xs) ≡ drop (k + n) xs
  drop-drop n zero xs = ap (λ (j : ℕ). drop j xs) (omega arith)
  drop-drop n (suc k) [] = let e : suc k + n ≡ suc (k + n) = omega arith in rw e (drop_nil n)
  drop-drop n (suc k) (x ∷ xs) =
      let e : suc k + n ≡ suc (k + n) = omega arith in rw e (drop-drop n k xs)

infixl 5 ◌>>=◌
abbrev pub ◌>>=◌ {ℓ κ} : {A : Type ℓ} {B : Type κ} → Option A → (A → Option B) → Option B
none >>= f = none
some a >>= f = f a

-- `if (!test) return 0;`
abbrev pub guard : Bool → Option (Unit {0})
guard true = some tt
guard false = none

infixl 5 ◌>>◌
abbrev pub ◌>>◌ {ℓ} : {B : Type ℓ} → Option (Unit {0}) → Option B → Option B
m >> k = m >>= λ _. k

-- What holds of the value, if there is one; and through a chain of steps.
abbrev pub Yields {ℓ κ} : {A : Type ℓ} → (A → Type κ) → Option A → Type κ
Yields P none = Unit
Yields P (some a) = P a

pub Yields-bind {ℓ κ μ ν} :
    {A : Type ℓ} {B : Type κ} (P : A → Type μ) (Q : B → Type ν) (m : Option A) (f : A → Option B)
    → Yields P m
    → ((a : A) → P a → Yields Q (f a))
    → Yields Q (m >>= f)
Yields-bind P Q none f h k = tt
Yields-bind P Q (some a) f h k = k a h

pub Yields_some {ℓ κ} :
    {A : Type ℓ} (P : A → Type κ) (m : Option A) {a : A} → Yields P m → m ≡ some a → P a
Yields_some P none h e = absurd (cc)
Yields_some P (some b) h e = subst P (cc) h

pub Yields-map {ℓ κ μ} :
    {A : Type ℓ} (P : A → Type κ) (Q : A → Type μ) (m : Option A)
    → Yields P m
    → ((a : A) → P a → Q a)
    → Yields Q m
Yields-map P Q none h k = tt
Yields-map P Q (some a) h k = k a h

-- A chain of which the first result may be any.
pub Yields-rest {ℓ κ ν} :
    {A : Type ℓ} {B : Type κ} (Q : B → Type ν) (m : Option A) (f : A → Option B)
    → ((a : A) → Yields Q (f a))
    → Yields Q (m >>= f)
Yields-rest Q none f k = tt
Yields-rest Q (some a) f k = k a

pub Yields-any {ℓ κ} : {A : Type ℓ} (P : A → Type κ) (m : Option A) → ((a : A) → P a) → Yields P m
Yields-any P none h = tt
Yields-any P (some a) h = h a

-- A byte of a local array; the index is within it wherever the program reads one.
abbrev pub byte_at : List ℕ → ℕ → ℕ
byte_at s i = get_or s i 0
