-- ===== src/Common/Lists.antt =====
-- Lists: tests over the elements, a predicate of every element, and sums.
use Prim.Native.Nat.{ℕ, suc, ◌+◌}
use mathlib.Core.Path.{◌≡◌, refl, sym, subst}
use mathlib.Core.Logic.{◌≢◌, inl, inr}
use mathlib.Core.Bool.{Bool, true, false, ◌&&◌, ◌||◌}
use mathlib.Core.Option.{Option, none, some, some-injective, none-ne-some}
use mathlib.Core.List.{List, [], ◌∷◌, ◌++◌}
use native.Mathlib.Omega.{arith}
use e_commerce_titulo_interm.Common.Tests.{if◌then◌else◌, Bool-cases}

module _ {ℓ} {A : Type ℓ} where
  abbrev pub length : List A → ℕ
  length [] = 0
  length (_ ∷ xs) = suc (length xs)

  -- `xs.some(p)`
  abbrev pub any : (A → Bool) → List A → Bool
  any p [] = false
  any p (x ∷ xs) = p x || any p xs

  -- `xs.every(p)`
  abbrev pub every : (A → Bool) → List A → Bool
  every p [] = true
  every p (x ∷ xs) = p x && every p xs

  -- `xs.filter(p)`
  abbrev pub keep : (A → Bool) → List A → List A
  keep p [] = []
  keep p (x ∷ xs) = let rest = keep p xs in if p x then x ∷ rest else rest

  -- `xs.find(p)`
  abbrev pub find : (A → Bool) → List A → Option A
  find p [] = none
  find p (x ∷ xs) = let rest = find p xs in if p x then some x else rest

  -- The sum of a measure over the elements.
  abbrev pub sum : (A → ℕ) → List A → ℕ
  sum f [] = 0
  sum f (x ∷ xs) = f x + sum f xs

module _ {ℓ κ} {A : Type ℓ} (P : A → Type κ) where
  -- `P` holds of every element.
  abbrev pub All : List A → Type κ
  All [] = Unit
  All (x ∷ xs) = P x × All xs

pub All-map {ℓ κ μ} :
    {A : Type ℓ} {P : A → Type κ} {Q : A → Type μ} (f : (x : A) → P x → Q x) (xs : List A)
    → All P xs
    → All Q xs
All-map f [] h = tt
All-map f (x ∷ xs) h = (f x h.0, All-map f xs h.1)

pub All-map2 {ℓ κ μ ν} :
    {A : Type ℓ} {P : A → Type κ} {Q : A → Type μ} {R : A → Type ν} (f : (x : A) → P x → Q x → R x)
    (xs : List A)
    → All P xs
    → All Q xs
    → All R xs
All-map2 f [] h k = tt
All-map2 f (x ∷ xs) h k = (f x h.0 k.0, All-map2 f xs h.1 k.1)

pub All-trivial {ℓ} : {A : Type ℓ} (xs : List A) → All (λ x. Unit {0}) xs
All-trivial [] = tt
All-trivial (x ∷ xs) = (tt, All-trivial xs)

pub sum-append {ℓ} :
    {A : Type ℓ} (f : A → ℕ) (xs ys : List A) → sum f (xs ++ ys) ≡ sum f xs + sum f ys
sum-append f [] ys = omega arith
sum-append f (x ∷ xs) ys = omega (arith, sum-append f xs ys)

module _ {ℓ κ} {A : Type ℓ} (P : A → Type κ) where
  pub All-append : (xs ys : List A) → All P xs → All P ys → All P (xs ++ ys)
  All-append [] ys h k = k
  All-append (x ∷ xs) ys h k = (h.0, All-append xs ys h.1 k)

  pub All-keep :
      (test : A → Bool) (xs : List A) → All P xs → All (λ x. P x × (test x ≡ true)) (keep test xs)
  All-keep test [] h = tt
  All-keep test (x ∷ xs) h = elim (Bool-cases (test x)) [
    | inl e ↦ rw e ((h.0, e), All-keep test xs h.1)
    | inr e ↦ rw e (All-keep test xs h.1)
  ]

  -- What `find` returns is an element that passes the test.
  pub All-find :
      (test : A → Bool) (xs : List A) {x : A}
      → All P xs
      → find test xs ≡ some x
      → P x × (test x ≡ true)
  All-find test [] h e = cc
  All-find test (y ∷ ys) {x} h e = elim (Bool-cases (test y)) [
    | inl passed ↦
        let same : y ≡ x = some-injective y x (rw passed at e) in
        subst (λ z. P z × (test z ≡ true)) same (h.0, passed)
    | inr failed ↦ All-find test ys h.1 (rw failed at e)
  ]

-- An element found among those kept by a test is one that passes both.
pub find-keep {ℓ} :
    {A : Type ℓ} (first second : A → Bool) (xs : List A)
    → find second (keep first xs) ≡ find (λ x. first x && second x) xs
find-keep first second [] = refl
find-keep first second (x ∷ xs) = ground (arith, find-keep first second xs)

-- A query that found nothing finds a row at the end.
pub find-append {ℓ} :
    {A : Type ℓ} (test : A → Bool) (x : A) (xs : List A)
    → find test xs ≡ none
    → test x ≡ true
    → find test (xs ++ (x ∷ [])) ≡ some x
find-append test x [] h passes = rw passes refl
find-append test x (y ∷ ys) h passes = elim (Bool-cases (test y)) [
  | inl e ↦ absurd (none-ne-some y (sym (rw e at h)))
  | inr e ↦ rw e (find-append test x ys (rw e at h) passes)
]

pub cons-ne-nil {ℓ} : {A : Type ℓ} (x : A) (xs : List A) → (x ∷ xs) ≢ []
cons-ne-nil x xs h = cc

-- Two lists whose concatenation is empty are empty.
pub append-nil {ℓ} : {A : Type ℓ} (xs ys : List A) → xs ++ ys ≡ [] → (xs ≡ []) × (ys ≡ [])
append-nil [] ys h = (refl, h)
append-nil (x ∷ xs) ys h = absurd (cons-ne-nil x (xs ++ ys) h)

-- The sum over the elements that a test keeps.
pub sum-keep {ℓ} :
    {A : Type ℓ} (f : A → ℕ) (test : A → Bool) (xs : List A)
    → sum f (keep test xs) ≡ sum (λ x. if test x then f x else 0) xs
sum-keep f test [] = refl
sum-keep f test (x ∷ xs) = ground (arith, sum-keep f test xs)
