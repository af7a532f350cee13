-- ===== src/Base/Lists.antt =====
-- Lists measured and indexed by native numbers, under the library's names, and the iterator
-- methods `any`, `find` and `position` of the source.
use Prim.Native.Nat.{ℕ, zero, suc, ◌+◌, ◌-◌, ◌≤◌, ◌<◌}
use mathlib.Core.Path.{◌≡◌, refl, ap}
use mathlib.Core.Bool.{Bool, true, false, ◌||◌}
use mathlib.Core.List.{List, [], ◌∷◌, ◌++◌, map}
use mathlib.Core.Option.{Option, none, some}
use native.Mathlib.Omega.{arith}
use rust_ai_router.Base.Tests.{if◌then◌else◌, Bool-cases}
use mathlib.Core.Logic.{inl, inr}

module _ {ℓ} {A : Type ℓ} where
  abbrev pub length : List A → ℕ
  length [] = 0
  length (x ∷ xs) = suc (length xs)

  abbrev pub get_elem? : List A → ℕ → Option A
  get_elem? [] i = none
  get_elem? (x ∷ xs) zero = some x
  get_elem? (x ∷ xs) (suc i) = get_elem? xs i

  abbrev pub take : ℕ → List A → List A
  take zero xs = []
  take (suc n) [] = []
  take (suc n) (x ∷ xs) = x ∷ take n xs

  abbrev pub drop : ℕ → List A → List A
  drop zero xs = xs
  drop (suc n) [] = []
  drop (suc n) (x ∷ xs) = drop n xs

  abbrev pub is_empty : List A → Bool
  is_empty [] = true
  is_empty (x ∷ xs) = false

  -- `iter().any(p)`
  abbrev pub any : (A → Bool) → List A → Bool
  any p [] = false
  any p (x ∷ xs) = p x || any p xs

  -- `iter().find(p)`
  abbrev pub find : (A → Bool) → List A → Option A
  find p [] = none
  find p (x ∷ xs) = if p x then some x else find p xs

  -- `iter().filter(p)`
  abbrev pub keep : (A → Bool) → List A → List A
  keep p [] = []
  keep p (x ∷ xs) = if p x then x ∷ keep p xs else keep p xs

  pub length-append : (xs ys : List A) → length (xs ++ ys) ≡ length xs + length ys
  length-append [] ys = omega arith
  length-append (x ∷ xs) ys = omega (arith, length-append xs ys)

module _ {ℓ} {A : Type ℓ} where
  pub get_elem?_lt : (xs : List A) (i : ℕ) → i < length xs → (x : A) × (get_elem? xs i ≡ some x)
  get_elem?_lt [] i h = absurd (omega arith)
  get_elem?_lt (x ∷ xs) zero h = (x, refl)
  get_elem?_lt (x ∷ xs) (suc i) h = get_elem?_lt xs i (omega arith)

  pub get_elem?-some-lt : (xs : List A) (i : ℕ) (x : A) → get_elem? xs i ≡ some x → i < length xs
  get_elem?-some-lt [] i x h = ground arith
  get_elem?-some-lt (y ∷ xs) zero x h = omega arith
  get_elem?-some-lt (y ∷ xs) (suc i) x h = omega (arith, get_elem?-some-lt xs i x h)

  pub length-map {κ} : {B : Type κ} (f : A → B) (xs : List A) → length (map f xs) ≡ length xs
  length-map f [] = refl
  length-map f (x ∷ xs) = ap suc (length-map f xs)

  pub get_elem?-map {κ} :
      {B : Type κ} (f : A → B) (xs : List A) (i : ℕ) (x : A)
      → get_elem? xs i ≡ some x
      → get_elem? (map f xs) i ≡ some (f x)
  get_elem?-map f [] i x at = ground arith
  get_elem?-map f (y ∷ xs) zero x at = ground arith
  get_elem?-map f (y ∷ xs) (suc i) x at = get_elem?-map f xs i x at

  pub length-drop : (n : ℕ) (xs : List A) → length (drop n xs) ≡ length xs - n
  length-drop zero xs = omega arith
  length-drop (suc n) [] = omega arith
  length-drop (suc n) (x ∷ xs) = omega (arith, length-drop n xs)

  pub take-append-drop : (n : ℕ) (xs : List A) → take n xs ++ drop n xs ≡ xs
  take-append-drop zero xs = refl
  take-append-drop (suc n) [] = refl
  take-append-drop (suc n) (x ∷ xs) = rw (take-append-drop n xs)

  -- A found element satisfies the test.
  pub find-some : (p : A → Bool) (xs : List A) (x : A) → find p xs ≡ some x → p x ≡ true
  find-some p [] x h = ground arith
  find-some p (y ∷ xs) x h = ground (arith, find-some p xs x)

  pub any-keep : (p q : A → Bool) (xs : List A) → any p xs ≡ false → any p (keep q xs) ≡ false
  any-keep p q [] h = refl
  any-keep p q (x ∷ xs) h = ground (arith, any-keep p q xs)

  pub length-keep-le : (p : A → Bool) (xs : List A) → length (keep p xs) ≤ length xs
  length-keep-le p [] = omega arith
  length-keep-le p (x ∷ xs) = ground (arith, length-keep-le p xs)

module _ {ℓ} {A : Type ℓ} where
  -- Some element of the list passes the test; its place is given.
  abbrev pub Some : (A → Bool) → List A → Type ℓ
  Some p xs = (i : ℕ) × (x : A) × (get_elem? xs i ≡ some x) × (p x ≡ true)

  pub any-Some : (p : A → Bool) (xs : List A) → any p xs ≡ true → Some p xs
  any-Some p [] h = absurd (ground arith)
  any-Some p (x ∷ xs) h = elim (Bool-cases (p x)) [
    | inl e ↦ (0, x, refl, e)
    | inr e ↦ let (i, y, at_i, py) = any-Some p xs (ground arith) in (suc i, y, at_i, py)
  ]

  pub Some-any : (p : A → Bool) (xs : List A) → Some p xs → any p xs ≡ true
  Some-any p [] (i, x, at_i, px) = ground arith
  Some-any p (y ∷ xs) (zero, x, at_i, px) = ground arith
  Some-any p (y ∷ xs) (suc i, x, at_i, px) = ground (arith, Some-any p xs (i, x, at_i, px))

  pub find-none :
      (p : A → Bool) (xs : List A)
      → find p xs ≡ none
      → (i : ℕ) (x : A) → get_elem? xs i ≡ some x
      → p x ≡ false
  find-none p [] h i x e = absurd (ground arith)
  find-none p (y ∷ xs) h zero x e = ground arith
  find-none p (y ∷ xs) h (suc i) x e = find-none p xs (ground arith) i x e

  pub find-place :
      (p : A → Bool) (xs : List A) (x : A)
      → find p xs ≡ some x
      → (i : ℕ) × (get_elem? xs i ≡ some x)
  find-place p [] x h = absurd (ground arith)
  find-place p (y ∷ xs) x h = elim (Bool-cases (p y)) [
    | inl e ↦ (0, ground arith)
    | inr e ↦ let (i, at_i) = find-place p xs x (ground arith) in (suc i, at_i)
  ]
