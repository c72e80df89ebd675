-- ===== src/Base/Lists.antt =====
-- Lists measured and indexed by native numbers, under the library's names.
use Prim.Native.Nat.{◌-◌, ◌≤◌, ℕ, zero, suc, ◌+◌, ◌<◌}
use mathlib.Core.Path.{◌≡◌, refl, ap}
use mathlib.Core.Logic.{◌≢◌}
use mathlib.Core.List.{List, [], ◌∷◌, ◌++◌, map, tail}
use mathlib.Core.Option.{Option, none, some}
use native.Mathlib.Omega.{arith}
use native.Mathlib.Nat.{zero-add, suc-add}

module _ {ℓ} {A : Type ℓ} where
  abbrev pub length : List A → ℕ
  length [] = 0
  length (x ∷ xs) = suc (length xs)

  abbrev pub get_elem? : List A → ℕ → Option A
  get_elem? [] i = none
  get_elem? (x ∷ xs) zero = some x
  get_elem? (x ∷ xs) (suc i) = get_elem? xs i

  -- A write out of bounds changes nothing.
  abbrev pub set : List A → ℕ → A → List A
  set [] i v = []
  set (x ∷ xs) zero v = v ∷ xs
  set (x ∷ xs) (suc i) v = x ∷ set xs i v

  abbrev pub take : ℕ → List A → List A
  take zero xs = []
  take (suc n) [] = []
  take (suc n) (x ∷ xs) = x ∷ take n xs

  abbrev pub drop : ℕ → List A → List A
  drop zero xs = xs
  drop (suc n) [] = []
  drop (suc n) (x ∷ xs) = drop n xs

  -- A predicate by recursion computes to tuples, which the tactics read and build.
  abbrev pub All {κ} : (A → Type κ) → List A → Type κ
  All P [] = Unit
  All P (x ∷ xs) = P x × All P xs

module _ {ℓ} {A : Type ℓ} where
  pub length-append : (xs ys : List A) → length (xs ++ ys) ≡ length xs + length ys
  length-append [] ys = omega arith
  length-append (x ∷ xs) ys = omega (arith, length-append xs ys)

  pub length-map {κ} : {B : Type κ} (xs : List A) (f : A → B) → length (map f xs) ≡ length xs
  length-map [] f = refl
  length-map (x ∷ xs) f = ap suc (length-map xs f)

  pub length-tail-le : (xs : List A) → length (tail xs) ≤ length xs
  length-tail-le [] = omega arith
  length-tail-le (x ∷ xs) = omega arith

  pub length-set : (xs : List A) (i : ℕ) (v : A) → length (set xs i v) ≡ length xs
  length-set [] i v = refl
  length-set (x ∷ xs) zero v = refl
  length-set (x ∷ xs) (suc i) v = ap suc (length-set xs i v)

  pub get_elem?-set_self :
      (xs : List A) (i : ℕ) (v : A) → i < length xs → get_elem? (set xs i v) i ≡ some v
  get_elem?-set_self [] i v h = elim h [ ]
  get_elem?-set_self (x ∷ xs) zero v h = refl
  get_elem?-set_self (x ∷ xs) (suc i) v h = get_elem?-set_self xs i v (omega arith)

  pub get_elem?-set_ne :
      (xs : List A) (i j : ℕ) (v : A) → i ≢ j → get_elem? (set xs i v) j ≡ get_elem? xs j
  get_elem?-set_ne [] i j v h = refl
  get_elem?-set_ne (x ∷ xs) zero zero v h = absurd (h refl)
  get_elem?-set_ne (x ∷ xs) zero (suc j) v h = refl
  get_elem?-set_ne (x ∷ xs) (suc i) zero v h = refl
  get_elem?-set_ne (x ∷ xs) (suc i) (suc j) v h = get_elem?-set_ne xs i j v (λ e. h (ap suc e))

  pub get_elem?-lt-length : (xs : List A) (i : ℕ) {v : A} → get_elem? xs i ≡ some v → i < length xs
  get_elem?-lt-length [] i h = cc
  get_elem?-lt-length (x ∷ xs) zero h = omega arith
  get_elem?-lt-length (x ∷ xs) (suc i) h = omega (arith, get_elem?-lt-length xs i h)

  pub get_elem?-append_self : (xs : List A) (v : A) → get_elem? (xs ++ v ∷ []) (length xs) ≡ some v
  get_elem?-append_self [] v = refl
  get_elem?-append_self (x ∷ xs) v = get_elem?-append_self xs v

  module _ {κ} (P : A → Type κ) where
    pub All-append : (xs ys : List A) → All P xs → All P ys → All P (xs ++ ys)
    All-append [] ys hx hy = hy
    All-append (x ∷ xs) ys hx hy = (hx.0, All-append xs ys hx.1 hy)

    pub All-get_elem? : (xs : List A) (i : ℕ) {v : A} → All P xs → get_elem? xs i ≡ some v → P v
    All-get_elem? [] i h e = cc
    All-get_elem? (x ∷ xs) zero h e = ground arith
    All-get_elem? (x ∷ xs) (suc i) h e = All-get_elem? xs i h.1 e

    pub All-set : (xs : List A) (i : ℕ) (v : A) → All P xs → P v → All P (set xs i v)
    All-set [] i v h p = tt
    All-set (x ∷ xs) zero v h p = (p, h.1)
    All-set (x ∷ xs) (suc i) v h p = (h.0, All-set xs i v h.1 p)

module _ {ℓ} {A : Type ℓ} where
  pub drop-append : (xs ys : List A) → drop (length xs) (xs ++ ys) ≡ ys
  drop-append [] ys = refl
  drop-append (x ∷ xs) ys = drop-append xs ys

  pub take-append : (xs ys : List A) → take (length xs) (xs ++ ys) ≡ xs
  take-append [] ys = refl
  take-append (x ∷ xs) ys = ap (λ (r : List A). x ∷ r) (take-append xs ys)

  pub drop-nil : (k : ℕ) → drop {A = A} k [] ≡ []
  drop-nil zero = refl
  drop-nil (suc k) = refl

  pub drop-drop : (a b : ℕ) (xs : List A) → drop b (drop a xs) ≡ drop (a + b) xs
  drop-drop zero b xs = rw zero-add
  drop-drop (suc a) b [] = rw (drop-nil b, suc-add)
  drop-drop (suc a) b (x ∷ xs) = rw suc-add (drop-drop a b xs)

  -- A write in front of what is kept makes no difference.
  pub drop-set : (k i : ℕ) (v : A) (xs : List A) → i < k → drop k (set xs i v) ≡ drop k xs
  drop-set k i v [] h = refl
  drop-set zero i v (x ∷ xs) h = absurd (omega arith)
  drop-set (suc k) zero v (x ∷ xs) h = refl
  drop-set (suc k) (suc i) v (x ∷ xs) h = drop-set k i v xs (omega arith)

  pub length-drop : (k : ℕ) (xs : List A) → length (drop k xs) ≡ length xs - k
  length-drop zero xs = omega arith
  length-drop (suc k) [] = omega arith
  length-drop (suc k) (x ∷ xs) = omega (arith, length-drop k xs)

  pub length-take : (k : ℕ) (xs : List A) → k ≤ length xs → length (take k xs) ≡ k
  length-take zero xs h = omega arith
  length-take (suc k) [] h = absurd (omega arith)
  length-take (suc k) (x ∷ xs) h = omega (arith, length-take k xs)

  pub length-take-le : (k : ℕ) (xs : List A) → length (take k xs) ≤ k
  length-take-le zero xs = omega arith
  length-take-le (suc k) [] = omega arith
  length-take-le (suc k) (x ∷ xs) = omega (arith, length-take-le k xs)

  pub take-all : (k : ℕ) (xs : List A) → length xs ≤ k → take k xs ≡ xs
  take-all zero [] h = refl
  take-all zero (x ∷ xs) h = absurd (omega arith)
  take-all (suc k) [] h = refl
  take-all (suc k) (x ∷ xs) h = ap (λ (r : List A). x ∷ r) (take-all k xs (omega arith))

  pub All-drop {κ} : (P : A → Type κ) (k : ℕ) (xs : List A) → All P xs → All P (drop k xs)
  All-drop P zero xs h = h
  All-drop P (suc k) [] h = h
  All-drop P (suc k) (x ∷ xs) h = All-drop P k xs h.1
