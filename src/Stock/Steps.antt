-- ===== src/Stock/Steps.antt =====
-- The loops of `StockReservationService`, one turn at a time.
use e_commerce_titulo_interm.Common.{
  Bool, none, some, List, [], ◌∷◌, ◌++◌, ◌≡◌, arith, ok, Option-cases, inl, inr, >>=-eq-ok,
  ok-injective, sym,
}
use e_commerce_titulo_interm.Stock.Rows.{
  ProductVariant, StockMovementType, Reason, Stock, row, venta,
}
use e_commerce_titulo_interm.Stock.Reservation.{
  StockLine, short_of, MovementOpts, sorted, release_rows, reserve_row, reserve_rows,
  record_movement, sell_row, confirm_lines,
}

module _ (l : StockLine) (ls reserved : List StockLine) (vs : List ProductVariant) where
  pub reserve_rows_short :
      reserve_row l vs ≡ none
      → reserve_rows (l ∷ ls) reserved vs
        ≡ (short_of l.variant_id, release_rows (sorted reserved) vs)
  unfolding reserve_rows
  reserve_rows_short e = rw (e, reserve_rows)

  pub reserve_rows_taken :
      {ws : List ProductVariant}
      → reserve_row l vs ≡ some ws
      → reserve_rows (l ∷ ls) reserved vs ≡ reserve_rows ls (reserved ++ (l ∷ [])) ws
  unfolding reserve_rows
  reserve_rows_taken e = rw (e, reserve_rows)

-- A movement is written beside the rows, and tells the total that the row has.
pub record_movement_ok :
    (l : StockLine) (kind : StockMovementType) (opts : MovementOpts) (s : Stock) {t : Stock}
    → record_movement l kind opts s ≡ ok t
    → t.variants ≡ s.variants
unfolding record_movement
record_movement_ok l kind opts s e = elim (Option-cases (row l.variant_id s.variants)) [
  | inl missing ↦ ground arith
  | inr (v, there) ↦ ground arith
]

module _ (active : Bool) (reason : Reason) (l : StockLine) (ls shortages : List StockLine)
    (s : Stock) {r : List StockLine × Stock}
    (e : confirm_lines active reason (l ∷ ls) shortages s ≡ ok r) where
  pub confirm_lines_short :
      sell_row active l s.variants ≡ none
      → confirm_lines active reason ls (shortages ++ (l ∷ [])) s ≡ ok r
  unfolding confirm_lines
  confirm_lines_short short = rw (short, confirm_lines) at e

  pub confirm_lines_sold :
      {ws : List ProductVariant}
      → sell_row active l s.variants ≡ some ws
      → (t : Stock) × (record_movement l venta
            (record { reason = reason; actor_id = none })
            (record s { variants = ws })
          ≡ ok t)
        × (confirm_lines active reason ls shortages t ≡ ok r)
  unfolding confirm_lines
  confirm_lines_sold sold = >>=-eq-ok _ _ (rw (sold, confirm_lines) at e)

module _ (active : Bool) (reason : Reason) (shortages : List StockLine) (s : Stock) where
  -- The loop ends with the shortages and the tables that it has.
  pub confirm_lines_done :
      {r : List StockLine × Stock}
      → confirm_lines active reason [] shortages s ≡ ok r
      → r ≡ (shortages, s)
  unfolding confirm_lines
  confirm_lines_done e = sym (ok-injective e)
