-- ===== src/Prelude/Lists.antt =====
-- Lists measured and indexed by native numbers, under the library's names.
use Prim.Native.Nat.{ℕ, zero, suc, ◌+◌, ◌-◌, ◌≤◌, min}
use mathlib.Core.Path.{◌≡◌, refl, ap}
use mathlib.Core.List.{List, [], ◌∷◌, ◌++◌, map}
use mathlib.Core.Option.{Option, none, some}
use native.Mathlib.Omega.{arith}

module _ {ℓ} {A : Type ℓ} where
  abbrev pub length : List A → ℕ
  length [] = 0
  length (x ∷ xs) = suc (length xs)

  abbrev pub get_elem? : List A → ℕ → Option A
  get_elem? [] i = none
  get_elem? (x ∷ xs) zero = some x
  get_elem? (x ∷ xs) (suc i) = get_elem? xs i

  abbrev pub take : ℕ → List A → List A
  take zero xs = []
  take (suc n) [] = []
  take (suc n) (x ∷ xs) = x ∷ take n xs

  abbrev pub drop : ℕ → List A → List A
  drop zero xs = xs
  drop (suc n) [] = []
  drop (suc n) (x ∷ xs) = drop n xs

  abbrev pub replicate : ℕ → A → List A
  replicate zero a = []
  replicate (suc n) a = a ∷ replicate n a

  pub length-append : (xs ys : List A) → length (xs ++ ys) ≡ length xs + length ys
  length-append [] ys = omega arith
  length-append (x ∷ xs) ys = omega (arith, length-append xs ys)

  pub length-take : (n : ℕ) (xs : List A) → length (take n xs) ≡ min n (length xs)
  length-take zero xs = omega arith
  length-take (suc n) [] = omega arith
  length-take (suc n) (x ∷ xs) = omega (arith, length-take n xs)

  pub length-drop : (n : ℕ) (xs : List A) → length (drop n xs) ≡ length xs - n
  length-drop zero xs = omega arith
  length-drop (suc n) [] = omega arith
  length-drop (suc n) (x ∷ xs) = omega (arith, length-drop n xs)

  pub length-replicate : (n : ℕ) (a : A) → length (replicate n a) ≡ n
  length-replicate zero a = refl
  length-replicate (suc n) a = ap suc (length-replicate n a)

  pub take-append-drop : (n : ℕ) (xs : List A) → take n xs ++ drop n xs ≡ xs
  take-append-drop zero xs = refl
  take-append-drop (suc n) [] = refl
  take-append-drop (suc n) (x ∷ xs) = ap (◌∷◌ x) (take-append-drop n xs)

  pub take-le : (n : ℕ) (xs : List A) → length xs ≤ n → take n xs ≡ xs
  take-le zero [] h = refl
  take-le zero (x ∷ xs) h = absurd (omega arith)
  take-le (suc n) [] h = refl
  take-le (suc n) (x ∷ xs) h = ap (◌∷◌ x) (take-le n xs (omega arith))

  pub drop-le : (n : ℕ) (xs : List A) → length xs ≤ n → drop n xs ≡ []
  drop-le zero [] h = refl
  drop-le zero (x ∷ xs) h = absurd (omega arith)
  drop-le (suc n) [] h = refl
  drop-le (suc n) (x ∷ xs) h = drop-le n xs (omega arith)

  -- Cutting a sum of two lists: the cut falls in the first or in the second.
  pub take-append :
      (n : ℕ) (xs ys : List A) → take n (xs ++ ys) ≡ take n xs ++ take (n - length xs) ys
  take-append zero [] ys = refl
  take-append zero (x ∷ xs) ys = ground arith
  take-append (suc n) [] ys = ground arith
  take-append (suc n) (x ∷ xs) ys = ground (arith, take-append n xs ys)

  pub drop-append :
      (n : ℕ) (xs ys : List A) → drop n (xs ++ ys) ≡ drop n xs ++ drop (n - length xs) ys
  drop-append zero [] ys = refl
  drop-append zero (x ∷ xs) ys = ground arith
  drop-append (suc n) [] ys = ground arith
  drop-append (suc n) (x ∷ xs) ys = ground (arith, drop-append n xs ys)

  pub drop-nil : (n : ℕ) → drop n [] ≡ []
  drop-nil zero = refl
  drop-nil (suc n) = refl

  pub drop-drop : (m n : ℕ) (xs : List A) → drop m (drop n xs) ≡ drop (n + m) xs
  drop-drop m zero xs = ground arith
  drop-drop m (suc n) [] = ground (arith, drop-nil m, drop-nil (suc n + m))
  drop-drop m (suc n) (x ∷ xs) =
      let e : suc n + m ≡ suc (n + m) = omega arith in rw e (drop-drop m n xs)

module _ {ℓ κ} {A : Type ℓ} {B : Type κ} where
  pub length-map : (f : A → B) (xs : List A) → length (map f xs) ≡ length xs
  length-map f [] = refl
  length-map f (x ∷ xs) = ap suc (length-map f xs)

  pub map-take : (f : A → B) (n : ℕ) (xs : List A) → map f (take n xs) ≡ take n (map f xs)
  map-take f zero xs = refl
  map-take f (suc n) [] = refl
  map-take f (suc n) (x ∷ xs) = ap (◌∷◌ (f x)) (map-take f n xs)

  pub map-drop : (f : A → B) (n : ℕ) (xs : List A) → map f (drop n xs) ≡ drop n (map f xs)
  map-drop f zero xs = refl
  map-drop f (suc n) [] = refl
  map-drop f (suc n) (x ∷ xs) = map-drop f n xs
