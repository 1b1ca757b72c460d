-- ===== src/Stock/Soundness.antt =====
-- No variant is ever oversold: what is reserved is never negative and never more than the total.
-- Every operation of `StockReservationService` keeps this.
use e_commerce_titulo_interm.Common.{
  ℕ, Bool, true, false, none, some, List, [], ◌∷◌, ◌++◌, ◌≡◌, arith, pos, ◌≤ℤ◌, +ℤ_parts, -ℤ_parts,
  ok, All, Option-cases, inl, inr, >>=-eq-ok, ok-injective,
}
use e_commerce_titulo_interm.Stock.Rows.{
  ProductVariant, StockMovementType, venta, cancelacion, Reason, Stock,
}
use e_commerce_titulo_interm.Stock.Reservation.{
  StockLine, MovementOpts, has_available, has_reserved, always, add_reserved, drop_reserved,
  add_total, drop_total, drop_both, sorted, release_row, release_rows, release, reserve_row,
  reserve_rows, reserve, record_movement, take_row, sell_row, confirm_lines, confirm_sale, move_row,
  move, restock_lines, restock_cancelled_sale,
}
use e_commerce_titulo_interm.Stock.RowLaws.{update_row-All, update_row-All-or_same}
use e_commerce_titulo_interm.Stock.Steps.{
  reserve_rows_short, reserve_rows_taken, record_movement_ok, confirm_lines_short,
  confirm_lines_sold, confirm_lines_done,
}

pub record IsSound (v : ProductVariant) : Type 0 where
  pub reserved_nonneg : pos 0 ≤ℤ v.stock_reserved
  pub within_total : v.stock_reserved ≤ℤ v.stock_total

abbrev pub IsSoundStock : Stock → Type 0
IsSoundStock s = All IsSound s.variants

add_reserved-IsSound :
    (qty : ℕ) (v : ProductVariant)
    → IsSound v
    → has_available qty v ≡ true
    → IsSound (add_reserved qty v)
add_reserved-IsSound qty v h available =
    ground (arith, +ℤ_parts v.stock_reserved (pos qty), -ℤ_parts v.stock_total v.stock_reserved)

drop_reserved-IsSound :
    (qty : ℕ) (v : ProductVariant) → IsSound v → always v ≡ true → IsSound (drop_reserved qty v)
drop_reserved-IsSound qty v h t = ground (arith, -ℤ_parts v.stock_reserved (pos qty))

add_total-IsSound :
    (qty : ℕ) (v : ProductVariant) → IsSound v → always v ≡ true → IsSound (add_total (pos qty) v)
add_total-IsSound qty v h t = ground (arith, +ℤ_parts v.stock_total (pos qty))

drop_total-IsSound :
    (qty : ℕ) (v : ProductVariant)
    → IsSound v
    → has_available qty v ≡ true
    → IsSound (drop_total qty v)
drop_total-IsSound qty v h available =
    ground (arith, -ℤ_parts v.stock_total (pos qty), -ℤ_parts v.stock_total v.stock_reserved)

drop_both-IsSound :
    (qty : ℕ) (v : ProductVariant)
    → IsSound v
    → has_reserved qty v ≡ true
    → IsSound (drop_both qty v)
drop_both-IsSound qty v h reserved =
    ground (arith, -ℤ_parts v.stock_total (pos qty), -ℤ_parts v.stock_reserved (pos qty))

pub release_row-IsSound :
    (l : StockLine) (vs : List ProductVariant) → All IsSound vs → All IsSound (release_row l vs)
unfolding release_row
release_row-IsSound l vs h =
    update_row-All-or_same l.variant_id always (drop_reserved l.quantity) IsSound
      (drop_reserved-IsSound l.quantity) vs h

pub reserve_row-IsSound :
    (l : StockLine) (vs : List ProductVariant) {ws : List ProductVariant}
    → All IsSound vs
    → reserve_row l vs ≡ some ws
    → All IsSound ws
unfolding reserve_row
reserve_row-IsSound l vs h e =
    update_row-All l.variant_id (has_available l.quantity) (add_reserved l.quantity) IsSound
      (add_reserved-IsSound l.quantity) vs h e

pub take_row-IsSound :
    (l : StockLine) (vs : List ProductVariant) {ws : List ProductVariant}
    → All IsSound vs
    → take_row l vs ≡ some ws
    → All IsSound ws
unfolding take_row
take_row-IsSound l vs h e =
    update_row-All l.variant_id (has_available l.quantity) (drop_total l.quantity) IsSound
      (drop_total-IsSound l.quantity) vs h e

pub sell_row-IsSound :
    (active : Bool) (l : StockLine) (vs : List ProductVariant) {ws : List ProductVariant}
    → All IsSound vs
    → sell_row active l vs ≡ some ws
    → All IsSound ws
unfolding sell_row
sell_row-IsSound true l vs h e =
    update_row-All l.variant_id (has_reserved l.quantity) (drop_both l.quantity) IsSound
      (drop_both-IsSound l.quantity) vs h e
sell_row-IsSound false l vs h e = take_row-IsSound l vs h e

pub move_row-IsSound :
    (id qty : ℕ) (vs : List ProductVariant)
    → All IsSound vs
    → All IsSound (move_row id (pos qty) vs)
unfolding move_row
move_row-IsSound id qty vs h =
    update_row-All-or_same id always (add_total (pos qty)) IsSound (add_total-IsSound qty) vs h

release_rows-IsSound :
    (ls : List StockLine) (vs : List ProductVariant)
    → All IsSound vs
    → All IsSound (release_rows ls vs)
unfolding release_rows
release_rows-IsSound [] vs h = h
release_rows-IsSound (l ∷ ls) vs h =
    release_rows-IsSound ls (release_row l vs) (release_row-IsSound l vs h)

reserve_rows-IsSound :
    (ls reserved : List StockLine) (vs : List ProductVariant)
    → All IsSound vs
    → All IsSound (reserve_rows ls reserved vs).1
reserve_rows-IsSound [] reserved vs h = unfold reserve_rows in h
reserve_rows-IsSound (l ∷ ls) reserved vs h = elim (Option-cases (reserve_row l vs)) [
  | inl e ↦ rw (reserve_rows_short l ls reserved vs e) (release_rows-IsSound (sorted reserved) vs h)
  | inr (ws, e) ↦
      rw (reserve_rows_taken l ls reserved vs e)
        (reserve_rows-IsSound ls (reserved ++ (l ∷ [])) ws (reserve_row-IsSound l vs h e))
]

-- Whether the batch is reserved or undone, no variant of a sound stock is oversold.
pub reserve-IsSound :
    (lines : List StockLine) (s : Stock) → IsSoundStock s → IsSoundStock (reserve lines s).1
unfolding reserve
reserve-IsSound lines s h = reserve_rows-IsSound (sorted lines) [] s.variants h

-- Releasing any lines of a sound stock, reserved or not, leaves the reserved counters at 0 or
-- more and no variant oversold.
pub release-IsSound :
    (lines : List StockLine) (s : Stock) → IsSoundStock s → IsSoundStock (release lines s)
unfolding release
release-IsSound lines s h = release_rows-IsSound (sorted lines) s.variants h

pub record_movement-IsSound :
    (l : StockLine) (kind : StockMovementType) (opts : MovementOpts) (s : Stock) {t : Stock}
    → IsSoundStock s
    → record_movement l kind opts s ≡ ok t
    → IsSoundStock t
record_movement-IsSound l kind opts s h e = rw (record_movement_ok l kind opts s e) h

confirm_lines-IsSound :
    (active : Bool) (reason : Reason) (ls shortages : List StockLine) (s : Stock)
    {r : List StockLine × Stock}
    → IsSoundStock s
    → confirm_lines active reason ls shortages s ≡ ok r
    → IsSoundStock r.1
confirm_lines-IsSound active reason [] shortages s h e =
    rw (confirm_lines_done active reason shortages s e) h
confirm_lines-IsSound active reason (l ∷ ls) shortages s h e =
    elim (Option-cases (sell_row active l s.variants)) [
      | inl short ↦
          confirm_lines-IsSound active reason ls (shortages ++ (l ∷ [])) s h
            (confirm_lines_short active reason l ls shortages s e short)
      | inr (ws, sold) ↦
          let (t, recorded, rest) = confirm_lines_sold active reason l ls shortages s e sold in
          confirm_lines-IsSound active reason ls shortages t
            (record_movement-IsSound l venta (record { reason = reason; actor_id = none })
              (record s { variants = ws }) (sell_row-IsSound active l s.variants h sold) recorded)
            rest
    ]

-- A firm sale never takes a unit that another order has reserved.
pub confirm_sale-IsSound :
    (lines : List StockLine) (active : Bool) (reason : Reason) (s : Stock)
    {r : List StockLine × Stock}
    → IsSoundStock s
    → confirm_sale lines active reason s ≡ ok r
    → IsSoundStock r.1
unfolding confirm_sale
confirm_sale-IsSound lines active reason s h e =
    confirm_lines-IsSound active reason (sorted lines) [] s h e

pub restock_lines-IsSound :
    (ls : List StockLine) (opts : MovementOpts) (s : Stock) {t : Stock}
    → IsSoundStock s
    → restock_lines ls opts s ≡ ok t
    → IsSoundStock t
unfolding restock_lines move
restock_lines-IsSound [] opts s h e = rw (← ok-injective e) h
restock_lines-IsSound (l ∷ ls) opts s h e =
    let (u, recorded, rest) = >>=-eq-ok _ _ e in
    restock_lines-IsSound ls opts u
      (record_movement-IsSound l cancelacion opts
        (record s { variants = move_row l.variant_id (pos l.quantity) s.variants })
        (move_row-IsSound l.variant_id l.quantity s.variants h) recorded)
      rest

-- Putting a cancelled sale back keeps every variant sound.
pub restock_cancelled_sale-IsSound :
    (lines : List StockLine) (opts : MovementOpts) (s : Stock) {t : Stock}
    → IsSoundStock s
    → restock_cancelled_sale lines opts s ≡ ok t
    → IsSoundStock t
unfolding restock_cancelled_sale
restock_cancelled_sale-IsSound lines opts s h e = restock_lines-IsSound (sorted lines) opts s h e
