-- ===== src/Stock/Selling.antt =====
-- `confirmSale` never throws, and accounts for every unit: sold, or listed as a shortage.
use e_commerce_titulo_interm.Common.{
  ℕ, Bool, true, false, none, some, List, [], ◌∷◌, ◌++◌, ◌≡◌, refl, ◌∙◌, arith, pos, ◌+◌, ◌+ℤ◌,
  ◌-ℤ◌, if◌then◌else◌, sum-append, int_laws, parts, ◌≢◌, ap, eq_of_parts, Option-cases, inl, inr,
  ok, err, Result-cases,
}
use e_commerce_titulo_interm.Errors.{ServiceError}
use e_commerce_titulo_interm.Stock.Rows.{
  ProductVariant, StockMovementType, Reason, Stock, row, venta,
}
use e_commerce_titulo_interm.Stock.Reservation.{
  StockLine, MovementOpts, has_available, has_reserved, drop_total, drop_both, sorted, take_row,
  sell_row, record_movement, confirm_lines, confirm_sale,
}
use e_commerce_titulo_interm.Stock.RowLaws.{is_some-update_row, row-update_row}
use e_commerce_titulo_interm.Stock.Steps.{
  confirm_lines_short, confirm_lines_sold, confirm_lines_done, record_movement_ok,
}
use e_commerce_titulo_interm.Stock.Counters.{
  reserved_of, total_of, line_qty, qty_of, qty_of-sorted, take_row_counters, sell_reserved_counters,
}

-- The units that a sale takes off the reserved counter.
abbrev pub taken_reserved : Bool → ℕ → ℕ
taken_reserved active n = if active then n else 0

taken_reserved-+ :
    (active : Bool) (a b : ℕ)
    → taken_reserved active (a + b) ≡ taken_reserved active a + taken_reserved active b
taken_reserved-+ true a b = refl
taken_reserved-+ false a b = omega arith

module _ (l : StockLine) (vs : List ProductVariant) {ws : List ProductVariant} where
  pub sell_row_lost : (active : Bool) → sell_row active l vs ≡ some ws → row l.variant_id ws ≢ none
  unfolding sell_row take_row
  sell_row_lost true e lost = ground (
    arith,
    row-update_row l.variant_id (has_reserved l.quantity) (drop_both l.quantity) (λ v. refl)
        l.variant_id vs e,
    is_some-update_row l.variant_id (has_reserved l.quantity) (drop_both l.quantity) vs,
  )
  sell_row_lost false e lost = ground (
    arith,
    row-update_row l.variant_id (has_available l.quantity) (drop_total l.quantity) (λ v. refl)
        l.variant_id vs e,
    is_some-update_row l.variant_id (has_available l.quantity) (drop_total l.quantity) vs,
  )

  sell_row_counters :
      (active : Bool) (j : ℕ)
      → sell_row active l vs ≡ some ws
      → (reserved_of j ws ≡ reserved_of j vs -ℤ pos (taken_reserved active (line_qty j l)))
        × (total_of j ws ≡ total_of j vs -ℤ pos (line_qty j l))
  sell_row_counters true j e = sell_reserved_counters j l vs e
  sell_row_counters false j e =
      let taken = take_row_counters j l vs {ws = ws} (unfold sell_row in e) in
      (taken.0 ∙ eq_of_parts _ _ (omega int_laws), taken.1)

-- The only exception of a movement: its variant has no row.
record_movement_err :
    (l : StockLine) (kind : StockMovementType) (opts : MovementOpts) (s : Stock) {x : ServiceError}
    → record_movement l kind opts s ≡ err x
    → row l.variant_id s.variants ≡ none
unfolding record_movement
record_movement_err l kind opts s e = elim (Option-cases (row l.variant_id s.variants)) [
  | inl missing ↦ missing
  | inr (v, there) ↦ ground arith
]

-- A movement of a line whose row is there is written.
pub record_movement_there :
    (l : StockLine) (kind : StockMovementType) (opts : MovementOpts) (s : Stock)
    → row l.variant_id s.variants ≢ none
    → (t : Stock) × (record_movement l kind opts s ≡ ok t)
record_movement_there l kind opts s there = elim (Result-cases (record_movement l kind opts s)) [
  | inl written ↦ written
  | inr (x, e) ↦ absurd (there (record_movement_err l kind opts s e))
]

module _ (active : Bool) (reason : Reason) where
  confirm_lines_total :
      (ls shortages : List StockLine) (s : Stock)
      → (r : List StockLine × Stock) × (confirm_lines active reason ls shortages s ≡ ok r)
  unfolding confirm_lines
  confirm_lines_total [] shortages s = ((shortages, s), refl)
  confirm_lines_total (l ∷ ls) shortages s = elim (Option-cases (sell_row active l s.variants)) [
    | inl short ↦ rw (short, confirm_lines) (confirm_lines_total ls (shortages ++ (l ∷ [])) s)
    | inr (ws, sold) ↦
        let written =
          record_movement_there l venta (record { reason = reason; actor_id = none })
            (record s { variants = ws }) (sell_row_lost l s.variants active sold) in
        rw (sold, confirm_lines, written.1) (confirm_lines_total ls shortages written.0)
  ]

  pub confirm_lines_counters :
      (j : ℕ) (ls shortages : List StockLine) (s : Stock) {r : List StockLine × Stock}
      → confirm_lines active reason ls shortages s ≡ ok r
      → (total_of j r.1.variants +ℤ pos (qty_of j ls) +ℤ pos (qty_of j shortages)
          ≡ total_of j s.variants +ℤ pos (qty_of j r.0))
        × (reserved_of j r.1.variants
              +ℤ pos (taken_reserved active (qty_of j ls + qty_of j shortages))
            ≡ reserved_of j s.variants +ℤ pos (taken_reserved active (qty_of j r.0)))
  confirm_lines_counters j [] shortages s e =
      let done = confirm_lines_done active reason shortages s e in
      rw done (
        omega int_laws,
        ap (λ n. reserved_of j s.variants +ℤ pos (taken_reserved active n)) (omega arith),
      )
  confirm_lines_counters j (l ∷ ls) shortages s {r} e =
      elim (Option-cases (sell_row active l s.variants)) [
        | inl short ↦
            let rest =
              confirm_lines_counters j ls (shortages ++ (l ∷ [])) s
                (confirm_lines_short active reason l ls shortages s e short) in
            let more = sum-append (line_qty j) shortages (l ∷ []) in
            (
              omega (int_laws, parts rest.0, more),
              ap (λ n. reserved_of j r.1.variants +ℤ pos (taken_reserved active n))
                    (omega (arith, more))
                  ∙ rest.1,
            )
        | inr (ws, sold) ↦
            let (t, recorded, rest) = confirm_lines_sold active reason l ls shortages s e sold in
            let one = sell_row_counters l s.variants active j sold in
            let step =
              record_movement_ok l venta (record { reason = reason; actor_id = none })
                (record s { variants = ws }) recorded in
            let after = confirm_lines_counters j ls shortages t rest in
            let split = taken_reserved-+ active in
            let same = ap (λ vs. reserved_of j vs) step in
            (
              omega (int_laws, parts after.0, parts one.1, parts (ap (λ vs. total_of j vs) step)),
              omega (
                int_laws,
                parts after.1,
                parts one.0,
                parts same,
                split (line_qty j l + qty_of j ls) (qty_of j shortages),
                split (line_qty j l) (qty_of j ls),
                split (qty_of j ls) (qty_of j shortages),
              ),
            )
      ]

module _ (lines : List StockLine) (active : Bool) (reason : Reason) (s : Stock) where
  -- What a firm sale does to the counters of a variant: the total falls by the units of the lines
  -- that are no shortage, and the reserved counter by as much if the reservation was active.
  pub confirm_sale_counters :
      (j : ℕ) {r : List StockLine × Stock}
      → confirm_sale lines active reason s ≡ ok r
      → (total_of j r.1.variants +ℤ pos (qty_of j lines)
          ≡ total_of j s.variants +ℤ pos (qty_of j r.0))
        × (reserved_of j r.1.variants +ℤ pos (taken_reserved active (qty_of j lines))
            ≡ reserved_of j s.variants +ℤ pos (taken_reserved active (qty_of j r.0)))
  unfolding confirm_sale
  confirm_sale_counters j {r} e =
      let sums = qty_of-sorted j lines in
      let loop = confirm_lines_counters active reason j (sorted lines) [] s e in
      (
        omega (int_laws, parts loop.0, sums),
        ap (λ n. reserved_of j r.1.variants +ℤ pos (taken_reserved active n)) (omega (arith, sums))
            ∙ loop.1,
      )

  -- The loop never meets a missing row.
  pub confirm_sale_total :
      (r : List StockLine × Stock) × (confirm_sale lines active reason s ≡ ok r)
  unfolding confirm_sale
  confirm_sale_total = confirm_lines_total active reason (sorted lines) [] s
