-- ===== src/Stock/Reservation.antt =====
-- backend/src/modules/products/stock/stock-reservation.service.ts: `StockReservationService`.
-- Each method takes the tables of the caller's transaction and returns them changed.
use e_commerce_titulo_interm.Common.{
  ℕ, Bool, true, false, Option, none, some, List, [], ◌∷◌, ◌++◌, leb, if◌then◌else◌, ℤ, pos, ◌+ℤ◌,
  ◌-ℤ◌, leb_ℤ, max_ℤ, Result, ok, err, ◌>>=◌,
}
use e_commerce_titulo_interm.Errors.{ServiceError, entity_not_found}
use e_commerce_titulo_interm.Stock.Rows.{
  ProductVariant, StockMovementType, devolucion, merma, venta, cancelacion, cambio, Reason,
  arrived_damaged, Stock, row, update_row,
}

-- `StockLine`
pub record StockLine : Type 0 where
  pub variant_id : ℕ
  pub quantity : ℕ

-- `ReserveResult`
pub data ReserveResult : Type 0 where
  reserved_all : ReserveResult  -- `{ ok: true }`
  short_of : ℕ → ReserveResult  -- `{ ok: false; variantId }`

-- `{ reason, actorId }`
pub record MovementOpts : Type 0 where
  pub reason : Reason
  pub actor_id : Option ℕ

-- `stock_total - stock_reserved >= :qty`
abbrev pub has_available : ℕ → ProductVariant → Bool
has_available qty v = leb_ℤ (pos qty) (v.stock_total -ℤ v.stock_reserved)

-- `stock_reserved >= :qty`
abbrev pub has_reserved : ℕ → ProductVariant → Bool
has_reserved qty v = leb_ℤ (pos qty) v.stock_reserved

-- An UPDATE with no condition but the key.
abbrev pub always : ProductVariant → Bool
always v = true

abbrev pub add_reserved : ℕ → ProductVariant → ProductVariant
add_reserved qty v = record v { stock_reserved = v.stock_reserved +ℤ pos qty }

-- `GREATEST(stock_reserved - :qty, 0)`
abbrev pub drop_reserved : ℕ → ProductVariant → ProductVariant
drop_reserved qty v = record v { stock_reserved = max_ℤ (v.stock_reserved -ℤ pos qty) (pos 0) }

abbrev pub add_total : ℤ → ProductVariant → ProductVariant
add_total delta v = record v { stock_total = v.stock_total +ℤ delta }

abbrev pub drop_total : ℕ → ProductVariant → ProductVariant
drop_total qty v = record v { stock_total = v.stock_total -ℤ pos qty }

-- Both columns of a reserved unit that is sold.
abbrev pub drop_both : ℕ → ProductVariant → ProductVariant
drop_both qty v = record v {
  stock_total = v.stock_total -ℤ pos qty;
  stock_reserved = v.stock_reserved -ℤ pos qty;
}

-- `sorted`: a stable sort by `variantId`. The uuids are written alike, so `localeCompare` orders
-- them as the numbers that they write out.
unfoldable pub insert_line : StockLine → List StockLine → List StockLine
insert_line l [] = l ∷ []
insert_line l (m ∷ ms) =
    let rest = m ∷ insert_line l ms in if leb l.variant_id m.variant_id then l ∷ m ∷ ms else rest

unfoldable pub sorted : List StockLine → List StockLine
unfolding insert_line
sorted [] = []
sorted (l ∷ ls) = insert_line l (sorted ls)

-- An UPDATE whose count of affected rows is not looked at.
abbrev pub or_same : List ProductVariant → Option (List ProductVariant) → List ProductVariant
or_same vs none = vs
or_same vs (some ws) = ws

-- The UPDATE of `release`.
unfoldable pub release_row : StockLine → List ProductVariant → List ProductVariant
release_row l vs = or_same vs (update_row l.variant_id always (drop_reserved l.quantity) vs)

-- The UPDATE of `reserve`.
unfoldable pub reserve_row : StockLine → List ProductVariant → Option (List ProductVariant)
reserve_row l vs = update_row l.variant_id (has_available l.quantity) (add_reserved l.quantity) vs

-- The UPDATE of `move` and of `restockCancelledSale`.
unfoldable pub move_row : ℕ → ℤ → List ProductVariant → List ProductVariant
move_row id delta vs = or_same vs (update_row id always (add_total delta) vs)

-- The UPDATE of `takeForReplacement`, and of `confirmSale` when the reservation was released.
unfoldable pub take_row : StockLine → List ProductVariant → Option (List ProductVariant)
take_row l vs = update_row l.variant_id (has_available l.quantity) (drop_total l.quantity) vs

-- The loop of `release`, over the sorted lines.
unfoldable pub release_rows : List StockLine → List ProductVariant → List ProductVariant
unfolding release_row
release_rows [] vs = vs
release_rows (l ∷ ls) vs = release_rows ls (release_row l vs)

-- `release`
unfoldable pub release : List StockLine → Stock → Stock
unfolding release_rows
release lines s = record s { variants = release_rows (sorted lines) s.variants }

-- The loop of `reserve`, over the sorted lines; `reserved` is what the batch has taken so far.
unfoldable pub reserve_rows :
    List StockLine → List StockLine → List ProductVariant → ReserveResult × List ProductVariant
unfolding reserve_row release_rows
reserve_rows [] reserved vs = (reserved_all, vs)
reserve_rows (l ∷ ls) reserved vs = elim (reserve_row l vs) [
  | none ↦ (short_of l.variant_id, release_rows (sorted reserved) vs)
  | some ws ↦ reserve_rows ls (reserved ++ (l ∷ [])) ws
]

-- `reserve`
unfoldable pub reserve : List StockLine → Stock → ReserveResult × Stock
unfolding reserve_rows
reserve lines s =
    let (result, vs) = reserve_rows (sorted lines) [] s.variants in
    (result, record s { variants = vs })

-- `recordMovement`: reads the row again for the total that the UPDATE left.
unfoldable pub record_movement :
    StockLine → StockMovementType → MovementOpts → Stock → Result ServiceError Stock
record_movement line kind opts s = elim (row line.variant_id s.variants) [
  | none ↦ err entity_not_found
  | some v ↦ ok (record s {
    movements =
        record {
          variant_id = line.variant_id;
          kind = kind;
          quantity = line.quantity;
          resulting_stock_total = v.stock_total;
          reason = opts.reason;
          actor_id = opts.actor_id;
        }
        ∷ s.movements;
  })
]

-- The UPDATE of `confirmSale`, which depends on whether the order still holds its reservation.
unfoldable pub sell_row : Bool → StockLine → List ProductVariant → Option (List ProductVariant)
unfolding take_row
sell_row true l vs = update_row l.variant_id (has_reserved l.quantity) (drop_both l.quantity) vs
sell_row false l vs = take_row l vs

-- The loop of `confirmSale`; `shortages` holds the lines that could not be covered.
unfoldable pub confirm_lines :
    Bool
    → Reason
    → List StockLine
    → List StockLine
    → Stock
    → Result ServiceError (List StockLine × Stock)
unfolding sell_row record_movement
confirm_lines active reason [] shortages s = ok (shortages, s)
confirm_lines active reason (l ∷ ls) shortages s = elim (sell_row active l s.variants) [
  | none ↦ confirm_lines active reason ls (shortages ++ (l ∷ [])) s
  | some vs ↦
      record_movement l venta (record { reason = reason; actor_id = none })
        (record s { variants = vs })
      >>= λ t. confirm_lines active reason ls shortages t
]

-- `confirmSale`
unfoldable pub confirm_sale :
    List StockLine → Bool → Reason → Stock → Result ServiceError (List StockLine × Stock)
unfolding confirm_lines
confirm_sale lines active reason s = confirm_lines active reason (sorted lines) [] s

-- `move`: an unconditional change of the total, with its movement.
unfoldable pub move :
    StockLine → ℤ → StockMovementType → MovementOpts → Stock → Result ServiceError Stock
unfolding record_movement move_row
move line delta kind opts s =
    record_movement line kind opts
      (record s { variants = move_row line.variant_id delta s.variants })

-- The loop of `restockCancelledSale`, over the sorted lines.
unfoldable pub restock_lines : List StockLine → MovementOpts → Stock → Result ServiceError Stock
unfolding move
restock_lines [] opts s = ok s
restock_lines (l ∷ ls) opts s =
    move l (pos l.quantity) cancelacion opts s >>= λ t. restock_lines ls opts t

-- `restockCancelledSale`
unfoldable pub restock_cancelled_sale :
    List StockLine → MovementOpts → Stock → Result ServiceError Stock
unfolding restock_lines
restock_cancelled_sale lines opts s = restock_lines (sorted lines) opts s

-- `takeForReplacement`
unfoldable pub take_for_replacement :
    StockLine → MovementOpts → Stock → Result ServiceError (Bool × Stock)
unfolding record_movement take_row
take_for_replacement l opts s = elim (take_row l s.variants) [
  | none ↦ ok (false, s)
  | some vs ↦ record_movement l cambio opts (record s { variants = vs }) >>= λ t. ok (true, t)
]

-- A line of `restockReturn`: a `StockLine` with the state in which it came back.
pub record ReturnedLine : Type 0 where
  pub line : StockLine
  pub damaged : Bool

-- The sort of `restockReturn`, by the same key.
unfoldable pub insert_returned : ReturnedLine → List ReturnedLine → List ReturnedLine
insert_returned l [] = l ∷ []
insert_returned l (m ∷ ms) =
    let rest = m ∷ insert_returned l ms in
    if leb l.line.variant_id m.line.variant_id then l ∷ m ∷ ms else rest

unfoldable pub sorted_returned : List ReturnedLine → List ReturnedLine
unfolding insert_returned
sorted_returned [] = []
sorted_returned (l ∷ ls) = insert_returned l (sorted_returned ls)

-- `if (line.damaged) await this.move(…)`
unfoldable pub restock_damaged : ReturnedLine → MovementOpts → Stock → Result ServiceError Stock
unfolding move
restock_damaged l opts s =
    if l.damaged
    then move l.line (pos 0 -ℤ pos l.line.quantity) merma
        (record opts { reason = arrived_damaged opts.reason }) s
    else ok s

-- One turn of the loop of `restockReturn`: what came back damaged leaves again at once.
unfoldable pub restock_returned_line :
    ReturnedLine → MovementOpts → Stock → Result ServiceError Stock
unfolding move restock_damaged
restock_returned_line l opts s = do
  t ← move l.line (pos l.line.quantity) devolucion opts s
  restock_damaged l opts t

unfoldable pub restock_returned_lines :
    List ReturnedLine → MovementOpts → Stock → Result ServiceError Stock
unfolding restock_returned_line
restock_returned_lines [] opts s = ok s
restock_returned_lines (l ∷ ls) opts s =
    restock_returned_line l opts s >>= λ t. restock_returned_lines ls opts t

-- `restockReturn`
unfoldable pub restock_return : List ReturnedLine → MovementOpts → Stock → Result ServiceError Stock
unfolding restock_returned_lines sorted_returned
restock_return lines opts s = restock_returned_lines (sorted_returned lines) opts s
