-- ===== src/Common/Tables.antt =====
-- Tables: lists of rows with a key, as a repository reads and writes them.
use Prim.Native.Nat.{ℕ, ◌+◌, ◌≤◌}
use mathlib.Core.Path.{◌≡◌, refl, sym, subst}
use mathlib.Core.Logic.{◌≢◌, inl, inr}
use mathlib.Core.Bool.{Bool, true}
use mathlib.Core.Option.{Option, some, some-injective}
use mathlib.Core.List.{List, [], ◌∷◌, ◌++◌, map}
use native.Mathlib.Omega.{arith}
use e_commerce_titulo_interm.Common.Tests.{if◌then◌else◌, ◌==◌, ==_iff, Bool-cases, if-cases}
use e_commerce_titulo_interm.Common.Lists.{
  find, sum, any, keep, All, All-map, All-map2, All-keep, All-append, All-find,
}

module _ {ℓ} {A : Type ℓ} (key : A → ℕ) where
  -- The row with a key.
  abbrev pub find_key : ℕ → List A → Option A
  find_key id xs = find (λ x. key x == id) xs

  -- A write to the row with a key; with no such row it changes nothing.
  unfoldable pub update_key : ℕ → (A → A) → List A → List A
  update_key id changes [] = []
  update_key id changes (x ∷ xs) =
      let rest = x ∷ update_key id changes xs in if key x == id then changes x ∷ xs else rest

  -- The table without the row with a key.
  unfoldable pub remove_key : ℕ → List A → List A
  remove_key id [] = []
  remove_key id (x ∷ xs) = let rest = x ∷ remove_key id xs in if key x == id then xs else rest

  -- No two rows have the same key.
  abbrev pub HasKeys : List A → Type 0
  HasKeys [] = Unit
  HasKeys (x ∷ xs) = All (λ y. key y ≢ key x) xs × HasKeys xs

  pub sum-update_key :
      (f : A → ℕ) (id : ℕ) (changes : A → A) (xs : List A) {x : A}
      → find_key id xs ≡ some x
      → sum f (update_key id changes xs) + f x ≡ sum f xs + f (changes x)
  unfolding update_key
  sum-update_key f id changes [] h = cc
  sum-update_key f id changes (y ∷ ys) {x} h =
      ground (arith, sum-update_key f id changes ys {x = x})

  pub sum-remove_key :
      (f : A → ℕ) (id : ℕ) (xs : List A) {x : A}
      → find_key id xs ≡ some x
      → sum f (remove_key id xs) + f x ≡ sum f xs
  unfolding remove_key
  sum-remove_key f id [] h = cc
  sum-remove_key f id (y ∷ ys) {x} h = ground (arith, sum-remove_key f id ys {x = x})

  -- A row counts in the sum over its table.
  pub sum-row :
      (f : A → ℕ) (id : ℕ) (xs : List A) {x : A} → find_key id xs ≡ some x → f x ≤ sum f xs
  sum-row f id xs found = omega (arith, sum-remove_key f id xs found)

  pub find-update_key :
      (id : ℕ) (changes : A → A) (xs : List A) {x : A}
      → ((y : A) → key y ≡ id → key (changes y) ≡ key y)
      → find_key id xs ≡ some x
      → find_key id (update_key id changes xs) ≡ some (changes x)
  unfolding update_key
  find-update_key id changes [] same h = cc
  find-update_key id changes (y ∷ ys) {x} same h =
      ground (arith, same y, ==_iff (key y) id, find-update_key id changes ys {x = x} same)

  pub find-update_key_other :
      (id other : ℕ) (changes : A → A) (xs : List A)
      → ((y : A) → key y ≡ id → key (changes y) ≡ key y)
      → other ≢ id
      → find_key other (update_key id changes xs) ≡ find_key other xs
  unfolding update_key
  find-update_key_other id other changes [] same ne = refl
  find-update_key_other id other changes (y ∷ ys) same ne = ground (
    arith,
    same y,
    ne,
    find-update_key_other id other changes ys same ne,
    ==_iff (key y) id,
    ==_iff (key y) other,
  )

  module _ {κ} (P : A → Type κ) where
    pub All-update_key :
        (id : ℕ) (changes : A → A) (xs : List A)
        → ((y : A) → key y ≡ id → P y → P (changes y))
        → All P xs
        → All P (update_key id changes xs)
    unfolding update_key
    All-update_key id changes [] step h = tt
    All-update_key id changes (y ∷ ys) step h = elim (Bool-cases (key y == id)) [
      | inl e ↦ rw e (step y ((==_iff (key y) id).0 e) h.0, h.1)
      | inr e ↦ rw e (h.0, All-update_key id changes ys step h.1)
    ]

    pub All-remove_key : (id : ℕ) (xs : List A) → All P xs → All P (remove_key id xs)
    unfolding remove_key
    All-remove_key id [] h = tt
    All-remove_key id (y ∷ ys) h =
        if-cases (All P) (key y == id) (λ found. h.1) (λ other. (h.0, All-remove_key id ys h.1))

  pub HasKeys-update_key :
      (id : ℕ) (changes : A → A) (xs : List A)
      → ((y : A) → key y ≡ id → key (changes y) ≡ key y)
      → HasKeys xs
      → HasKeys (update_key id changes xs)
  unfolding update_key
  HasKeys-update_key id changes [] same h = tt
  HasKeys-update_key id changes (y ∷ ys) same h =
      if-cases HasKeys (key y == id) (λ found. (rw (same y ((==_iff (key y) id).0 found)) h.0, h.1))
        (λ other. (
          All-update_key (λ z. key z ≢ key y) id changes ys (λ z e ne. rw (same z e) ne) h.0,
          HasKeys-update_key id changes ys same h.1,
        ))

  pub HasKeys-remove_key : (id : ℕ) (xs : List A) → HasKeys xs → HasKeys (remove_key id xs)
  unfolding remove_key
  HasKeys-remove_key id [] h = tt
  HasKeys-remove_key id (y ∷ ys) h =
      if-cases HasKeys (key y == id) (λ found. h.1)
        (λ other. (All-remove_key (λ z. key z ≢ key y) id ys h.0, HasKeys-remove_key id ys h.1))

  -- A row that some query finds is the row of its key.
  pub find_key-find :
      (test : A → Bool) (xs : List A) {x : A}
      → HasKeys xs
      → find test xs ≡ some x
      → find_key (key x) xs ≡ some x
  find_key-find test [] h e = cc
  find_key-find test (y ∷ ys) {x} h e = elim (Bool-cases (test y)) [
    | inl passed ↦
        let same : y ≡ x = some-injective y x (rw passed at e) in
        ground (arith, same, ==_iff (key y) (key x))
    | inr failed ↦
        let rest : find test ys ≡ some x = rw failed at e in
        let other = All-find (λ z. key z ≢ key y) test ys h.0 rest in
        ground (arith, find_key-find test ys h.1 rest, other.0, ==_iff (key y) (key x))
  ]

  pub HasKeys-append :
      (xs : List A) (x : A) → HasKeys xs → All (λ y. key y ≢ key x) xs → HasKeys (xs ++ (x ∷ []))
  HasKeys-append [] x h fresh = (tt, tt)
  HasKeys-append (y ∷ ys) x h fresh = (
    All-append (λ z. key z ≢ key y) ys (x ∷ []) h.0 (λ e. fresh.0 (sym e), tt),
    HasKeys-append ys x h.1 fresh.1,
  )

  -- A write to every row.
  module _ (changes : A → A) (same : (y : A) → key (changes y) ≡ key y) where
    pub find_key-map :
        (id : ℕ) (xs : List A) {x : A}
        → find_key id xs ≡ some x
        → find_key id (map changes xs) ≡ some (changes x)
    find_key-map id [] h = cc
    find_key-map id (y ∷ ys) {x} h = ground (arith, same y, find_key-map id ys {x = x})

    pub All-key-map :
        (id : ℕ) (xs : List A) → All (λ y. key y ≢ id) xs → All (λ y. key y ≢ id) (map changes xs)
    All-key-map id [] h = tt
    All-key-map id (y ∷ ys) h = (rw (same y) h.0, All-key-map id ys h.1)

    pub HasKeys-map : (xs : List A) → HasKeys xs → HasKeys (map changes xs)
    HasKeys-map [] h = tt
    HasKeys-map (y ∷ ys) h = (rw (same y) (All-key-map (key y) ys h.0), HasKeys-map ys h.1)

  pub find-remove_key_other :
      (id other : ℕ) (xs : List A)
      → other ≢ id
      → find_key other (remove_key id xs) ≡ find_key other xs
  unfolding remove_key
  find-remove_key_other id other [] ne = refl
  find-remove_key_other id other (y ∷ ys) ne =
      ground
        (arith, ne, find-remove_key_other id other ys ne, ==_iff (key y) id, ==_iff (key y) other)

  -- Writing a row over itself.
  pub update_key-same :
      (id : ℕ) (xs : List A) {x : A} → find_key id xs ≡ some x → update_key id (λ old. x) xs ≡ xs
  unfolding update_key
  update_key-same id [] h = cc
  update_key-same id (y ∷ ys) {x} h = ground (arith, update_key-same id ys {x = x})

  -- A predicate of every row after a write to the row with a key.
  module _ {κ μ} (P : A → Type κ) (Q : A → Type μ) (id : ℕ) where
    All-others :
        (xs : List A)
        → ((y : A) → key y ≢ id → P y → Q y)
        → All (λ y. key y ≢ id) xs
        → All P xs
        → All Q xs
    All-others [] others fresh h = tt
    All-others (y ∷ ys) others fresh h = (others y fresh.0 h.0, All-others ys others fresh.1 h.1)

    pub All-update_row :
        (changes : A → A) (xs : List A)
        → HasKeys xs
        → ((y : A) → key y ≡ id → P y → Q (changes y))
        → ((y : A) → key y ≢ id → P y → Q y)
        → All P xs
        → All Q (update_key id changes xs)
    unfolding update_key
    All-update_row changes [] keys step others h = tt
    All-update_row changes (y ∷ ys) keys step others h = elim (Bool-cases (key y == id)) [
      | inl e ↦
          let same = (==_iff (key y) id).0 e in
          rw e (
            step y same h.0,
            All-others ys others (subst (λ k. All (λ z. key z ≢ k) ys) same keys.0) h.1,
          )
      | inr e ↦ rw e (
        others y (λ same. ground (arith, same, e)) h.0,
        All-update_row changes ys keys.1 step others h.1,
      )
    ]

    pub All-remove_row :
        (xs : List A)
        → HasKeys xs
        → ((y : A) → key y ≢ id → P y → Q y)
        → All P xs
        → All Q (remove_key id xs)
    unfolding remove_key
    All-remove_row [] keys others h = tt
    All-remove_row (y ∷ ys) keys others h = elim (Bool-cases (key y == id)) [
      | inl e ↦
          let same = (==_iff (key y) id).0 e in
          rw e (All-others ys others (subst (λ k. All (λ z. key z ≢ k) ys) same keys.0) h.1)
      | inr e ↦
          rw e (others y (λ same. ground (arith, same, e)) h.0, All-remove_row ys keys.1 others h.1)
    ]

  pub HasKeys-keep : (test : A → Bool) (xs : List A) → HasKeys xs → HasKeys (keep test xs)
  HasKeys-keep test [] h = tt
  HasKeys-keep test (y ∷ ys) h =
      if-cases HasKeys (test y)
        (λ e. (
          All-map (λ z both. both.0) (keep test ys) (All-keep (λ z. key z ≢ key y) test ys h.0),
          HasKeys-keep test ys h.1,
        ))
        (λ e. HasKeys-keep test ys h.1)

  -- Every row is the row of its key.
  pub find_key-All : (xs : List A) → HasKeys xs → All (λ x. find_key (key x) xs ≡ some x) xs
  find_key-All [] h = tt
  find_key-All (y ∷ ys) h = (
    ground (arith, ==_iff (key y) (key y)),
    All-map2 (λ z ne found. ground (arith, ne, found, ==_iff (key y) (key z))) ys h.0
        (find_key-All ys h.1),
  )

  -- A row that passes a test is among those that the test keeps.
  pub any-keep :
      (test : A → Bool) (xs : List A)
      → All (λ x. test x ≡ true → any (λ y. key y == key x) (keep test xs) ≡ true) xs
  any-keep test [] = tt
  any-keep test (y ∷ ys) = (
    λ e. rw e (ground (arith, ==_iff (key y) (key y))),
    All-map
        (λ x later passed.
          if-cases (λ kept. any (λ z. key z == key x) kept ≡ true) (test y)
            (λ e. ground (arith, later passed)) (λ e. later passed))
        ys (any-keep test ys),
  )

  -- The row that a query finds, after it is written over by one that passes the query too.
  pub find-update_row :
      (test : A → Bool) (saved : A) (xs : List A) {x : A}
      → HasKeys xs
      → find test xs ≡ some x
      → test saved ≡ true
      → find test (update_key (key x) (λ old. saved) xs) ≡ some saved
  unfolding update_key
  find-update_row test saved [] keys h passes = cc
  find-update_row test saved (y ∷ ys) {x} keys h passes = elim (Bool-cases (test y)) [
    | inl e ↦
        let same : y ≡ x = some-injective y x (rw e at h) in
        ground (arith, same, passes, ==_iff (key y) (key x))
    | inr e ↦
        let rest : find test ys ≡ some x = rw e at h in
        let other = All-find (λ z. key z ≢ key y) test ys keys.0 rest in
        ground (
          arith,
          find-update_row test saved ys keys.1 rest passes,
          other.0,
          e,
          ==_iff (key y) (key x),
        )
  ]
