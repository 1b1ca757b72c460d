-- ===== src/Stock/Counters.antt =====
-- The two counters of a variant, and what each UPDATE of `StockReservationService` adds to them.
use e_commerce_titulo_interm.Common.{
  ℕ, true, Option, none, some, List, [], ◌∷◌, ◌≡◌, refl, arith, ℤ, pos, ◌+◌, ◌+ℤ◌, ◌-ℤ◌, ◌≤ℤ◌, ◌==◌,
  if◌then◌else◌, sum, +ℤ_parts, -ℤ_parts, eq_of_parts, is_some, ==_iff,
}
use e_commerce_titulo_interm.Stock.Rows.{ProductVariant, row}
use e_commerce_titulo_interm.Stock.Reservation.{
  StockLine, has_available, has_reserved, add_reserved, drop_reserved, add_total, drop_total,
  drop_both, insert_line, sorted, release_row, reserve_row, take_row, sell_row, move_row,
}
use e_commerce_titulo_interm.Stock.RowLaws.{row-or_same, row-update_row, is_some-update_row}

abbrev pub reserved_in : Option ProductVariant → ℤ
reserved_in none = pos 0
reserved_in (some v) = v.stock_reserved

abbrev pub total_in : Option ProductVariant → ℤ
total_in none = pos 0
total_in (some v) = v.stock_total

-- The counters of a variant; a variant with no row has none of either.
abbrev pub reserved_of : ℕ → List ProductVariant → ℤ
reserved_of j vs = reserved_in (row j vs)

abbrev pub total_of : ℕ → List ProductVariant → ℤ
total_of j vs = total_in (row j vs)

-- The units of a variant in a line, and in a list of lines.
abbrev pub line_qty : ℕ → StockLine → ℕ
line_qty j l = if j == l.variant_id then l.quantity else 0

abbrev pub qty_of : ℕ → List StockLine → ℕ
qty_of j ls = sum (line_qty j) ls

module _ (j : ℕ) where
  qty_of-insert_line :
      (l : StockLine) (ls : List StockLine)
      → qty_of j (insert_line l ls) ≡ line_qty j l + qty_of j ls
  unfolding insert_line
  qty_of-insert_line l [] = refl
  qty_of-insert_line l (m ∷ ms) = ground (arith, qty_of-insert_line l ms)

  -- Sorting the lines changes no sum.
  pub qty_of-sorted : (ls : List StockLine) → qty_of j (sorted ls) ≡ qty_of j ls
  unfolding sorted
  qty_of-sorted [] = refl
  qty_of-sorted (l ∷ ls) = omega (arith, qty_of-insert_line l (sorted ls), qty_of-sorted ls)

  module _ (l : StockLine) (vs : List ProductVariant) where
    pub reserve_row_counters :
        {ws : List ProductVariant}
        → reserve_row l vs ≡ some ws
        → (reserved_of j ws ≡ reserved_of j vs +ℤ pos (line_qty j l))
          × (total_of j ws ≡ total_of j vs)
    unfolding reserve_row
    reserve_row_counters e =
        let id = l.variant_id in
        ground (
          arith,
          row-update_row id (has_available l.quantity) (add_reserved l.quantity) (λ v. refl) j vs e,
          is_some-update_row id (has_available l.quantity) (add_reserved l.quantity) vs,
          ==_iff j id,
          +ℤ_parts (reserved_of j vs) (pos 0),
          eq_of_parts (reserved_of j vs +ℤ pos 0) (reserved_of j vs),
        )

    -- The reservation of a line, taken back; the clamp at 0 does not bite while the variant has
    -- that much reserved.
    pub release_row_counters :
        pos (line_qty j l) ≤ℤ reserved_of j vs
        → (reserved_of j (release_row l vs) ≡ reserved_of j vs -ℤ pos (line_qty j l))
          × (total_of j (release_row l vs) ≡ total_of j vs)
    unfolding release_row
    release_row_counters enough = ground (
      arith,
      row-or_same l.variant_id (drop_reserved l.quantity) (λ v. refl) j vs,
      -ℤ_parts (reserved_of j vs) (pos 0),
      eq_of_parts (reserved_of j vs -ℤ pos 0) (reserved_of j vs),
      -ℤ_parts (reserved_of j vs) (pos l.quantity),
      eq_of_parts (reserved_of j (release_row l vs)) (reserved_of j vs -ℤ pos l.quantity),
    )

    -- A line that is taken from what is available lowers the total alone.
    pub take_row_counters :
        {ws : List ProductVariant}
        → take_row l vs ≡ some ws
        → (reserved_of j ws ≡ reserved_of j vs)
          × (total_of j ws ≡ total_of j vs -ℤ pos (line_qty j l))
    unfolding take_row
    take_row_counters e = ground (
      arith,
      row-update_row l.variant_id (has_available l.quantity) (drop_total l.quantity) (λ v. refl) j
          vs e,
      is_some-update_row l.variant_id (has_available l.quantity) (drop_total l.quantity) vs,
      ==_iff j l.variant_id,
      -ℤ_parts (total_of j vs) (pos 0),
      eq_of_parts (total_of j vs -ℤ pos 0) (total_of j vs),
    )

    -- A line that is sold under its reservation lowers both counters.
    pub sell_reserved_counters :
        {ws : List ProductVariant}
        → sell_row true l vs ≡ some ws
        → (reserved_of j ws ≡ reserved_of j vs -ℤ pos (line_qty j l))
          × (total_of j ws ≡ total_of j vs -ℤ pos (line_qty j l))
    unfolding sell_row
    sell_reserved_counters e = ground (
      arith,
      row-update_row l.variant_id (has_reserved l.quantity) (drop_both l.quantity) (λ v. refl) j vs
          e,
      is_some-update_row l.variant_id (has_reserved l.quantity) (drop_both l.quantity) vs,
      ==_iff j l.variant_id,
      -ℤ_parts (total_of j vs) (pos 0),
      eq_of_parts (total_of j vs -ℤ pos 0) (total_of j vs),
      -ℤ_parts (reserved_of j vs) (pos 0),
      eq_of_parts (reserved_of j vs -ℤ pos 0) (reserved_of j vs),
    )

  -- A change of the total alone, of a variant that has a row.
  pub move_row_counters :
      (id : ℕ) (delta : ℤ) (vs : List ProductVariant)
      → (reserved_of j (move_row id delta vs) ≡ reserved_of j vs)
        × (total_of j (move_row id delta vs) ≡ (
            if j == id
            then (if is_some (row j vs) then total_of j vs +ℤ delta else pos 0)
            else total_of j vs))
  unfolding move_row
  move_row_counters id delta vs = ground (arith, row-or_same id (add_total delta) (λ v. refl) j vs)
