-- ===== src/Stock/Restocking.antt =====
-- What `move`, `restockCancelledSale` and `takeForReplacement` do to the counters of a variant.
use e_commerce_titulo_interm.Common.{
  ℕ, true, List, [], ◌∷◌, ◌≡◌, ◌+◌, refl, ◌∙◌, arith, ap, sym, ℤ, pos, ◌+ℤ◌, ◌==◌, if◌then◌else◌,
  is_some, int_laws, eq_of_parts, +ℤ_parts, ==_iff, Option-cases, inl, inr, ok, >>=-eq-ok,
  ok-injective,
}
use e_commerce_titulo_interm.Stock.Rows.{StockMovementType, cancelacion, Stock, row}
use e_commerce_titulo_interm.Stock.Reservation.{
  StockLine, MovementOpts, add_total, sorted, record_movement, move_row, move, restock_lines,
  restock_cancelled_sale,
}
use e_commerce_titulo_interm.Stock.RowLaws.{row-or_same}
use e_commerce_titulo_interm.Stock.Steps.{record_movement_ok}
use e_commerce_titulo_interm.Stock.Counters.{reserved_of, total_of, line_qty, qty_of, qty_of-sorted}

-- A movement is written only for a variant that has a row.
record_movement-row :
    (l : StockLine) (kind : StockMovementType) (opts : MovementOpts) (s : Stock) {t : Stock}
    → record_movement l kind opts s ≡ ok t
    → is_some (row l.variant_id s.variants) ≡ true
unfolding record_movement
record_movement-row l kind opts s e = elim (Option-cases (row l.variant_id s.variants)) [
  | inl missing ↦ ground arith
  | inr (v, there) ↦ ground arith
]

module _ (j : ℕ) where
  -- A move that goes through adds its delta to the total of its variant, and nothing else.
  pub move_counters :
      (l : StockLine) (delta : ℤ) (kind : StockMovementType) (opts : MovementOpts) (s : Stock)
      {t : Stock}
      → move l delta kind opts s ≡ ok t
      → (reserved_of j t.variants ≡ reserved_of j s.variants)
        × (total_of j t.variants
            ≡ total_of j s.variants +ℤ (if j == l.variant_id then delta else pos 0))
  unfolding move move_row
  move_counters l delta kind opts s e =
      let moved = record s { variants = move_row l.variant_id delta s.variants } in
      ground (
        arith,
        record_movement_ok l kind opts moved e,
        record_movement-row l kind opts moved e,
        row-or_same l.variant_id (add_total delta) (λ v. refl) l.variant_id s.variants,
        row-or_same l.variant_id (add_total delta) (λ v. refl) j s.variants,
        ==_iff j l.variant_id,
        +ℤ_parts (total_of j s.variants) (pos 0),
        eq_of_parts (total_of j s.variants +ℤ pos 0) (total_of j s.variants),
      )

  restock_lines_counters :
      (ls : List StockLine) (opts : MovementOpts) (s : Stock) {t : Stock}
      → restock_lines ls opts s ≡ ok t
      → (reserved_of j t.variants ≡ reserved_of j s.variants)
        × (total_of j t.variants ≡ total_of j s.variants +ℤ pos (qty_of j ls))
  unfolding restock_lines
  restock_lines_counters [] opts s e =
      let same = ok-injective e in
      (
        ap (λ u. reserved_of j u.variants) (sym same),
        ap (λ u. total_of j u.variants) (sym same) ∙ eq_of_parts _ _ (omega int_laws),
      )
  restock_lines_counters (l ∷ ls) opts s e =
      let (u, moved, rest) = >>=-eq-ok (move l (pos l.quantity) cancelacion opts s) _ e in
      let one = move_counters l (pos l.quantity) cancelacion opts s moved in
      let more = restock_lines_counters ls opts u rest in
      (
        more.0 ∙ one.0,
        more.1
            ∙ ground (
              arith,
              one.1,
              +ℤ_parts (total_of j u.variants) (pos (qty_of j ls)),
              +ℤ_parts (total_of j s.variants) (pos l.quantity),
              +ℤ_parts (total_of j s.variants) (pos 0),
              +ℤ_parts (total_of j s.variants) (pos (line_qty j l + qty_of j ls)),
              eq_of_parts (total_of j u.variants +ℤ pos (qty_of j ls))
                  (total_of j s.variants +ℤ pos (line_qty j l + qty_of j ls)),
            ),
      )

  -- Putting a cancelled sale back raises the total of each variant by its units.
  pub restock_cancelled_sale_counters :
      (lines : List StockLine) (opts : MovementOpts) (s : Stock) {t : Stock}
      → restock_cancelled_sale lines opts s ≡ ok t
      → (reserved_of j t.variants ≡ reserved_of j s.variants)
        × (total_of j t.variants ≡ total_of j s.variants +ℤ pos (qty_of j lines))
  unfolding restock_cancelled_sale
  restock_cancelled_sale_counters lines opts s e =
      let loop = restock_lines_counters (sorted lines) opts s e in
      (loop.0, loop.1 ∙ ap (λ n. total_of j s.variants +ℤ pos n) (qty_of-sorted j lines))
