-- ===== src/Stock/Availability.antt =====
-- When `reserve` and `confirmSale` have enough stock for every line.
use e_commerce_titulo_interm.Common.{
  ℕ, true, none, List, [], ◌∷◌, ◌++◌, ◌≡◌, ◌<◌, ◌≢◌, ◌↔◌, refl, arith, pos, ◌-ℤ◌, ◌≤ℤ◌, All,
  int_laws, parts, -ℤ_parts, Option-cases, inl, inr, ok,
}
use e_commerce_titulo_interm.Stock.Rows.{ProductVariant, Reason, Stock, venta}
use e_commerce_titulo_interm.Stock.Reservation.{
  StockLine, reserved_all, has_available, has_reserved, add_reserved, drop_both, sorted,
  reserve_row, reserve_rows, reserve, sell_row, confirm_lines, confirm_sale,
}
use e_commerce_titulo_interm.Stock.Presence.{sorted-All}
use e_commerce_titulo_interm.Stock.RowLaws.{is_some-update_row}
use e_commerce_titulo_interm.Stock.Steps.{
  reserve_rows_taken, confirm_lines_sold, confirm_lines_done, record_movement_ok,
}
use e_commerce_titulo_interm.Stock.Counters.{
  reserved_of, total_of, line_qty, qty_of, qty_of-sorted, reserve_row_counters,
  sell_reserved_counters,
}
use e_commerce_titulo_interm.Stock.Soundness.{IsSoundStock, reserve-IsSound}
use e_commerce_titulo_interm.Stock.Reserving.{sound_counters, reserve_all}

-- Every line asks for at least one unit.
abbrev pub IsPositive : StockLine → Type 0
IsPositive l = 0 < l.quantity

-- A line that fits in what is available is reserved.
reserve_row_fits :
    (l : StockLine) (vs : List ProductVariant)
    → 0 < l.quantity
    → pos l.quantity ≤ℤ total_of l.variant_id vs -ℤ reserved_of l.variant_id vs
    → reserve_row l vs ≢ none
unfolding reserve_row
reserve_row_fits l vs positive fits e = ground (
  arith,
  is_some-update_row l.variant_id (has_available l.quantity) (add_reserved l.quantity) vs,
  -ℤ_parts (pos 0) (pos 0),
)

sell_row_fits :
    (l : StockLine) (vs : List ProductVariant)
    → 0 < l.quantity
    → pos l.quantity ≤ℤ reserved_of l.variant_id vs
    → sell_row true l vs ≢ none
unfolding sell_row
sell_row_fits l vs positive fits e =
    ground
      (arith, is_some-update_row l.variant_id (has_reserved l.quantity) (drop_both l.quantity) vs)

-- A line holds its own quantity of its variant.
line_qty_self : (l : StockLine) → line_qty l.variant_id l ≡ l.quantity
line_qty_self l = ground arith

reserve_rows_fits :
    (ls reserved : List StockLine) (vs : List ProductVariant)
    → All IsPositive ls
    → ((j : ℕ) → pos (qty_of j ls) ≤ℤ total_of j vs -ℤ reserved_of j vs)
    → (reserve_rows ls reserved vs).0 ≡ reserved_all
reserve_rows_fits [] reserved vs h fits = unfold reserve_rows in refl
reserve_rows_fits (l ∷ ls) reserved vs h fits = elim (Option-cases (reserve_row l vs)) [
  | inl e ↦ absurd (reserve_row_fits l vs h.0 (omega (arith, fits l.variant_id, line_qty_self l)) e)
  | inr (ws, e) ↦ rw (reserve_rows_taken l ls reserved vs e) (
      reserve_rows_fits ls (reserved ++ (l ∷ [])) ws h.1 (λ j.
        let one = reserve_row_counters j l vs e in
        omega (int_laws, parts one.0, parts one.1, fits j)))
]

-- On a sound stock and lines of at least one unit, reserve takes the whole batch exactly when
-- what is available of each variant covers the units that all the lines together ask of it.
pub reserve_iff :
    (lines : List StockLine) (s : Stock)
    → IsSoundStock s
    → All IsPositive lines
    → ((reserve lines s).0 ≡ reserved_all)
      ↔ ((j : ℕ) → pos (qty_of j lines) ≤ℤ total_of j s.variants -ℤ reserved_of j s.variants)
reserve_iff lines s sound positive = (
  λ taken j.
      let after = sound_counters j (reserve lines s).1.variants (reserve-IsSound lines s sound) in
      let counted = reserve_all lines s j taken in
      omega (int_laws, after.1, parts counted.0, parts counted.1),
  λ fits.
      unfold reserve in
      reserve_rows_fits (sorted lines) [] s.variants (sorted-All IsPositive lines positive)
        (λ j. omega (arith, fits j, qty_of-sorted j lines)),
)

confirm_lines_covered :
    (reason : Reason) (ls shortages : List StockLine) (s : Stock) {r : List StockLine × Stock}
    → All IsPositive ls
    → ((j : ℕ) → pos (qty_of j ls) ≤ℤ reserved_of j s.variants)
    → confirm_lines true reason ls shortages s ≡ ok r
    → r.0 ≡ shortages
confirm_lines_covered reason [] shortages s h fits e =
    rw (confirm_lines_done true reason shortages s e)
confirm_lines_covered reason (l ∷ ls) shortages s h fits e =
    elim (Option-cases (sell_row true l s.variants)) [
      | inl short ↦
          absurd (
            sell_row_fits l s.variants h.0 (omega (arith, fits l.variant_id, line_qty_self l))
              short)
      | inr (ws, sold) ↦
          let (t, recorded, rest) = confirm_lines_sold true reason l ls shortages s e sold in
          let step =
            record_movement_ok l venta (record { reason = reason; actor_id = none })
              (record s { variants = ws }) recorded in
          confirm_lines_covered reason ls shortages t h.1
            (λ j.
              let one = sell_reserved_counters j l s.variants sold in
              rw step (omega (int_laws, parts one.0, fits j)))
            rest
    ]

-- A sale under an active reservation that covers its lines has no shortage.
pub confirm_sale_covered :
    (lines : List StockLine) (reason : Reason) (s : Stock) {r : List StockLine × Stock}
    → All IsPositive lines
    → ((j : ℕ) → pos (qty_of j lines) ≤ℤ reserved_of j s.variants)
    → confirm_sale lines true reason s ≡ ok r
    → r.0 ≡ []
unfolding confirm_sale
confirm_sale_covered lines reason s positive fits e =
    confirm_lines_covered reason (sorted lines) [] s (sorted-All IsPositive lines positive)
      (λ j. omega (arith, fits j, qty_of-sorted j lines)) e
