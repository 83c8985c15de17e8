-- ===== src/Base/Lists.antt =====
-- Lists indexed by native numbers, under the library's names.
use Prim.Native.Nat.{ℕ, zero, suc, ◌+◌, ◌-◌, ◌≤◌}
use Prim.Native.Nat.add
use mathlib.Core.Path.{◌≡◌, refl, ap}
use mathlib.Core.List.{List, [], ◌∷◌, ◌++◌, map}
use mathlib.Core.Option.{Option, none, some}
use native.Mathlib.Omega.{arith}

module _ {ℓ} {A : Type ℓ} where
  abbrev pub length : List A → ℕ
  length [] = 0
  length (x ∷ xs) = suc (length xs)

  abbrev pub get_elem? : List A → ℕ → Option A
  get_elem? [] i = none
  get_elem? (x ∷ xs) zero = some x
  get_elem? (x ∷ xs) (suc i) = get_elem? xs i

  abbrev pub get_or : List A → ℕ → A → A
  get_or [] i d = d
  get_or (x ∷ xs) zero d = x
  get_or (x ∷ xs) (suc i) d = get_or xs i d

  -- A write out of bounds changes nothing.
  abbrev pub set : List A → ℕ → A → List A
  set [] i v = []
  set (x ∷ xs) zero v = v ∷ xs
  set (x ∷ xs) (suc i) v = x ∷ set xs i v

  abbrev pub take : ℕ → List A → List A
  take zero xs = []
  take (suc n) [] = []
  take (suc n) (x ∷ xs) = x ∷ take n xs

  abbrev pub drop : ℕ → List A → List A
  drop zero xs = xs
  drop (suc n) [] = []
  drop (suc n) (x ∷ xs) = drop n xs

  abbrev pub replicate : ℕ → A → List A
  replicate zero a = []
  replicate (suc n) a = a ∷ replicate n a

  pub length-append : (xs ys : List A) → length (xs ++ ys) ≡ length xs + length ys
  length-append [] ys = omega arith
  length-append (x ∷ xs) ys = omega (arith, length-append xs ys)

  pub get_elem?-append_length :
      (xs ys : List A) (k : ℕ) → get_elem? (xs ++ ys) (length xs + k) ≡ get_elem? ys k
  get_elem?-append_length [] ys k = ap (get_elem? ys) (omega arith)
  get_elem?-append_length (x ∷ xs) ys k = simp (add.suc, get_elem?-append_length xs ys k)

  pub take-append_length : (xs ys : List A) → take (length xs) (xs ++ ys) ≡ xs
  take-append_length [] ys = refl
  take-append_length (x ∷ xs) ys = ap (λ l. x ∷ l) (take-append_length xs ys)

  pub drop-append_length : (xs ys : List A) → drop (length xs) (xs ++ ys) ≡ ys
  drop-append_length [] ys = refl
  drop-append_length (x ∷ xs) ys = drop-append_length xs ys

  pub length-set : (l : List A) (i : ℕ) (v : A) → length (set l i v) ≡ length l
  length-set [] i v = refl
  length-set (x ∷ xs) zero v = refl
  length-set (x ∷ xs) (suc i) v = ap suc (length-set xs i v)

  pub length-drop : (l : List A) (n : ℕ) → length (drop n l) ≡ length l - n
  length-drop l zero = omega arith
  length-drop [] (suc n) = omega arith
  length-drop (x ∷ xs) (suc n) = omega (arith, length-drop xs n)

  pub length-take : (l : List A) (n : ℕ) → n ≤ length l → length (take n l) ≡ n
  length-take l zero h = refl
  length-take [] (suc n) h = omega (arith, h)
  length-take (x ∷ xs) (suc n) h = omega (arith, h, length-take xs n (omega (arith, h)))

  -- The last element, `back()` of a vector.
  abbrev pub get_last? : List A → Option A
  get_last? [] = none
  get_last? (x ∷ []) = some x
  get_last? (x ∷ y ∷ ys) = get_last? (y ∷ ys)

  -- A write to the last element.
  abbrev pub set_last : List A → A → List A
  set_last [] v = []
  set_last (x ∷ []) v = v ∷ []
  set_last (x ∷ y ∷ ys) v = x ∷ set_last (y ∷ ys) v

  pub get_last?-concat : (xs : List A) (a : A) → get_last? (xs ++ (a ∷ [])) ≡ some a
  get_last?-concat [] a = refl
  get_last?-concat (x ∷ []) a = refl
  get_last?-concat (x ∷ y ∷ ys) a = get_last?-concat (y ∷ ys) a

  pub set_last-concat : (xs : List A) (a b : A) → set_last (xs ++ (a ∷ [])) b ≡ xs ++ (b ∷ [])
  set_last-concat [] a b = refl
  set_last-concat (x ∷ []) a b = refl
  set_last-concat (x ∷ y ∷ ys) a b = ap (λ l. x ∷ l) (set_last-concat (y ∷ ys) a b)

  abbrev pub All {κ} : (A → Type κ) → List A → Type κ
  All P [] = Unit {κ}
  All P (x ∷ xs) = P x × All P xs

module _ {ℓ κ} {A : Type ℓ} {B : Type κ} (f : A → B) where
  pub get_elem?-map :
      (l : List A) (i : ℕ)
      → get_elem? (map f l) i ≡ elim (get_elem? l i) [ none ↦ none | some a ↦ some (f a) ]
  get_elem?-map [] i = refl
  get_elem?-map (x ∷ xs) zero = refl
  get_elem?-map (x ∷ xs) (suc i) = get_elem?-map xs i

  pub drop-map : (n : ℕ) (l : List A) → drop n (map f l) ≡ map f (drop n l)
  drop-map zero l = refl
  drop-map (suc n) [] = refl
  drop-map (suc n) (x ∷ xs) = drop-map n xs
