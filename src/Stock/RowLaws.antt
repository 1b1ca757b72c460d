-- ===== src/Stock/RowLaws.antt =====
-- What an UPDATE by primary key does to the rows that a query finds.
use mathlib.Core.Option
use e_commerce_titulo_interm.Common.{
  ℕ, Bool, true, false, Option, none, some, List, [], ◌∷◌, ◌==◌, if◌then◌else◌, ◌≡◌, refl, arith,
  is_some, All, Option-cases, ==_iff, Bool-cases, inl, inr,
}
use e_commerce_titulo_interm.Stock.Rows.{ProductVariant, row, update_row}
use e_commerce_titulo_interm.Stock.Reservation.{or_same, always}

module _ (id : ℕ) (test : ProductVariant → Bool) (assign : ProductVariant → ProductVariant)
    (same_id : (v : ProductVariant) → (assign v).id ≡ v.id) where
  -- An UPDATE that affects a row assigns to that row and leaves the others.
  pub row-update_row :
      (j : ℕ) (vs : List ProductVariant) {ws : List ProductVariant}
      → update_row id test assign vs ≡ some ws
      → row j ws ≡ (if j == id then Option.map assign (row j vs) else row j vs)
  unfolding row update_row
  row-update_row j [] h = cc
  row-update_row j (v ∷ vs) h = elim (Option-cases (update_row id test assign vs)) [
    | inl e ↦ ground (arith, same_id v)
    | inr (us, e) ↦ ground (arith, same_id v, row-update_row j vs e)
  ]

-- A row that is there and passes a test.
abbrev pub passes : (ProductVariant → Bool) → Option ProductVariant → Bool
passes test none = false
passes test (some v) = test v

module _ (id : ℕ) (test : ProductVariant → Bool) (assign : ProductVariant → ProductVariant) where
  -- An UPDATE affects a row exactly when the row is there and passes the test.
  pub is_some-update_row :
      (vs : List ProductVariant) → is_some (update_row id test assign vs) ≡ passes test (row id vs)
  unfolding row update_row
  is_some-update_row [] = refl
  is_some-update_row (v ∷ vs) = ground (arith, is_some-update_row vs)

  module _ (P : ProductVariant → Type 0)
      (keeps : (v : ProductVariant) → P v → test v ≡ true → P (assign v)) where
    -- What holds of every row, and of a row that the UPDATE assigns to, holds afterwards.
    pub update_row-All-or_same :
        (vs : List ProductVariant) → All P vs → All P (or_same vs (update_row id test assign vs))
    unfolding update_row
    update_row-All-or_same [] all = tt
    update_row-All-or_same (v ∷ vs) all = elim (Bool-cases (v.id == id)) [
      | inl e ↦ rw e (elim (Bool-cases (test v)) [
        | inl passed ↦ rw passed (keeps v all.0 passed, all.1)
        | inr failed ↦ rw failed all
      ])
      | inr e ↦ rw e (later (update_row id test assign vs) all.0 (update_row-All-or_same vs all.1))
    ]
      where
        later :
            (o : Option (List ProductVariant))
            → P v
            → All P (or_same vs o)
            → All P (or_same (v ∷ vs) (Option.map (λ ws. v ∷ ws) o))
        later none p rest = (p, rest)
        later (some ws) p rest = (p, rest)

    pub update_row-All :
        (vs : List ProductVariant) {ws : List ProductVariant}
        → All P vs
        → update_row id test assign vs ≡ some ws
        → All P ws
    update_row-All vs all h = rw h at (update_row-All-or_same vs all)

-- An UPDATE by the key alone assigns to the row if it is there, and leaves the others.
pub row-or_same :
    (id : ℕ) (assign : ProductVariant → ProductVariant)
    → ((v : ProductVariant) → (assign v).id ≡ v.id)
    → (j : ℕ) (vs : List ProductVariant)
    → row j (or_same vs (update_row id always assign vs))
      ≡ (if j == id then Option.map assign (row j vs) else row j vs)
row-or_same id assign same_id j vs = elim (Option-cases (update_row id always assign vs)) [
  | inl e ↦ ground (arith, is_some-update_row id always assign vs, ==_iff j id)
  | inr (ws, e) ↦ ground (arith, row-update_row id always assign same_id j vs e)
]
