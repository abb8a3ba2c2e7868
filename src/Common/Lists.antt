-- ===== src/Common/Lists.antt =====
-- Lists measured and indexed by native numbers, under the library's names.
use Prim.Native.Nat.{ℕ, zero, suc, ◌+◌, ◌≤◌, ◌<◌}
use mathlib.Core.Path.{◌≡◌, refl, ap}
use mathlib.Core.List.{List, [], ◌∷◌, ◌++◌}
use mathlib.Core.Option.{Option, none, some}
use native.Mathlib.Omega.{arith}

module _ {ℓ} {A : Type ℓ} where
  abbrev pub length : List A → ℕ
  length [] = 0
  length (x ∷ xs) = suc (length xs)

  abbrev pub get_elem? : List A → ℕ → Option A
  get_elem? [] i = none
  get_elem? (x ∷ xs) zero = some x
  get_elem? (x ∷ xs) (suc i) = get_elem? xs i

  abbrev pub get_or : List A → ℕ → A → A
  get_or [] i d = d
  get_or (x ∷ xs) zero d = x
  get_or (x ∷ xs) (suc i) d = get_or xs i d

  -- A write out of bounds changes nothing.
  abbrev pub set : List A → ℕ → A → List A
  set [] i v = []
  set (x ∷ xs) zero v = v ∷ xs
  set (x ∷ xs) (suc i) v = x ∷ set xs i v

  abbrev pub take : ℕ → List A → List A
  take zero xs = []
  take (suc n) [] = []
  take (suc n) (x ∷ xs) = x ∷ take n xs

  abbrev pub drop : ℕ → List A → List A
  drop zero xs = xs
  drop (suc n) [] = []
  drop (suc n) (x ∷ xs) = drop n xs

  abbrev pub replicate : ℕ → A → List A
  replicate zero a = []
  replicate (suc n) a = a ∷ replicate n a

  abbrev pub All {κ} : (A → Type κ) → List A → Type κ
  All P [] = Unit {κ}
  All P (x ∷ xs) = P x × All P xs

  pub length-append : (xs ys : List A) → length (xs ++ ys) ≡ length xs + length ys
  length-append [] ys = omega arith
  length-append (x ∷ xs) ys = omega (arith, length-append xs ys)

  pub length-set : (xs : List A) (i : ℕ) (v : A) → length (set xs i v) ≡ length xs
  length-set [] i v = refl
  length-set (x ∷ xs) zero v = refl
  length-set (x ∷ xs) (suc i) v = ap suc (length-set xs i v)

  pub length-replicate : (n : ℕ) (a : A) → length (replicate n a) ≡ n
  length-replicate zero a = refl
  length-replicate (suc n) a = ap suc (length-replicate n a)

  pub drop-append : (xs ys : List A) → drop (length xs) (xs ++ ys) ≡ ys
  drop-append [] ys = refl
  drop-append (x ∷ xs) ys = drop-append xs ys

  pub take-append : (xs ys : List A) → take (length xs) (xs ++ ys) ≡ xs
  take-append [] ys = refl
  take-append (x ∷ xs) ys = ap (λ t. x ∷ t) (take-append xs ys)

  -- A list that is long enough splits at any place.
  pub split_at :
      (n : ℕ) (xs : List A)
      → n ≤ length xs
      → (ys : List A) × (zs : List A) × (xs ≡ ys ++ zs) × (length ys ≡ n)
  split_at zero xs h = ([], xs, refl, refl)
  split_at (suc n) [] h = absurd (omega arith)
  split_at (suc n) (x ∷ xs) h =
      let (ys, zs, e, l) = split_at n xs (omega arith) in (x ∷ ys, zs, ap (λ t. x ∷ t) e, ap suc l)

  -- A page of a list that is as long as asked for, and what is behind it.
  pub length-take-le : (n : ℕ) (xs : List A) → length (take n xs) ≤ length xs
  length-take-le zero xs = omega arith
  length-take-le (suc n) [] = omega arith
  length-take-le (suc n) (x ∷ xs) = omega (arith, length-take-le n xs)

  pub length-take-bound : (n : ℕ) (xs : List A) → length (take n xs) ≤ n
  length-take-bound zero xs = omega arith
  length-take-bound (suc n) [] = omega arith
  length-take-bound (suc n) (x ∷ xs) = omega (arith, length-take-bound n xs)

  pub length-drop-le :
      (skip room : ℕ) (xs : List A)
      → 0 < room
      → length (take room (drop skip xs)) ≡ room
      → skip + room ≤ length xs
  length-drop-le zero room xs p h = omega (arith, length-take-le room xs)
  length-drop-le (suc skip) zero [] p h = absurd (omega arith)
  length-drop-le (suc skip) (suc room) [] p h = absurd (omega arith)
  length-drop-le (suc skip) room (x ∷ xs) p h = omega (arith, length-drop-le skip room xs p h)

  pub take-drop :
      (skip room total : ℕ) (xs : List A)
      → total ≡ skip + room
      → take room (drop skip xs) ++ drop total xs ≡ drop skip xs
  take-drop zero zero zero xs e = refl
  take-drop zero zero (suc total) xs e = absurd (omega arith)
  take-drop zero (suc room) zero xs e = absurd (omega arith)
  take-drop zero (suc room) (suc total) [] e = refl
  take-drop zero (suc room) (suc total) (x ∷ xs) e =
      ap (λ l. x ∷ l) (take-drop zero room total xs (omega arith))
  take-drop (suc skip) room zero xs e = absurd (omega arith)
  take-drop (suc skip) zero (suc total) [] e = refl
  take-drop (suc skip) (suc room) (suc total) [] e = refl
  take-drop (suc skip) room (suc total) (x ∷ xs) e = take-drop skip room total xs (omega arith)
