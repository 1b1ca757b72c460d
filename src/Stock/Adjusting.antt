-- ===== src/Stock/Adjusting.antt =====
-- backend/src/modules/products/stock/stock.service.ts: `StockService`, the stock of the administrator.
use e_commerce_titulo_interm.Common.{
  ℕ, Bool, Option, none, some, List, ◌∷◌, ◌&&◌, not, ◌==◌, find, ℤ, pos, ◌+ℤ◌, ◌-ℤ◌, ltb_ℤ, leb_ℤ,
  Result, ok, err, ◌>>=◌, ◌>>◌, throw_if, update_key,
}
use Prim.Native.String.{String}
use e_commerce_titulo_interm.Errors.{
  ServiceError, variant_not_found, product_not_found, product_removed, variant_removed,
  total_below_reserved, null_relation,
}
use e_commerce_titulo_interm.Stock.Rows.{
  Product, ProductVariant, Stock, StockMovementType, reposicion, ajuste, merma, devolucion, typed,
  row,
}

-- `ManualStockMovementType`
pub data ManualMovement : Type 0 where
  by_reposicion by_ajuste by_merma by_devolucion : ManualMovement

abbrev pub movement_type : ManualMovement → StockMovementType
movement_type by_reposicion = reposicion
movement_type by_ajuste = ajuste
movement_type by_merma = merma
movement_type by_devolucion = devolucion

-- `AdjustStockDto`
pub record AdjustStockDto : Type 0 where
  pub kind : ManualMovement  -- `type`
  pub quantity : ℕ
  pub reason : String

-- `computeNewTotal`
abbrev pub compute_new_total : ℤ → ManualMovement → ℕ → ℤ
compute_new_total total by_reposicion quantity = total +ℤ pos quantity
compute_new_total total by_devolucion quantity = total +ℤ pos quantity
compute_new_total total by_merma quantity = total -ℤ pos quantity
compute_new_total total by_ajuste quantity = pos quantity

-- `if (!found) throw …`
abbrev pub or_throw : {E A : Type 0} → E → Option A → Result E A
or_throw e none = err e
or_throw e (some a) = ok a

-- The product of a variant, whose field `isActive` is read.
abbrev pub product_of : List Product → ProductVariant → Result ServiceError Product
product_of products v =
    or_throw null_relation (find (λ (p : Product). p.id == v.product_id) products)

abbrev pub variant_or_fail : ℕ → List ProductVariant → Result ServiceError ProductVariant
variant_or_fail id variants = or_throw variant_not_found (row id variants)

-- What `adjust` checks before its transaction: the variant as it will save it.
unfoldable pub plan_adjust :
    List Product → ℕ → AdjustStockDto → Stock → Result ServiceError ProductVariant
unfolding row
plan_adjust products variant_id dto s = do
  v ← variant_or_fail variant_id s.variants
  p ← product_of products v
  throw_if (not p.is_active) product_removed
  throw_if (not v.is_active) variant_removed
  let total = compute_new_total v.stock_total dto.kind dto.quantity
  throw_if (ltb_ℤ total v.stock_reserved) (total_below_reserved total v.stock_reserved)
  ok (record v { stock_total = total })

abbrev pub variant_key : ProductVariant → ℕ
variant_key v = v.id

-- The transaction of `adjust`: the whole row is saved as it was read, with its new total.
unfoldable pub save_adjust : ℕ → AdjustStockDto → ProductVariant → Stock → Stock
unfolding update_key
save_adjust actor_id dto saved s = record {
  variants = update_key variant_key saved.id (λ old. saved) s.variants;
  movements =
      record {
        variant_id = saved.id;
        kind = movement_type dto.kind;
        quantity = dto.quantity;
        resulting_stock_total = saved.stock_total;
        reason = typed dto.reason;
        actor_id = some actor_id;
      }
      ∷ s.movements;
}

-- `adjust`, with nothing between its read and its transaction.
unfoldable pub adjust : List Product → ℕ → ℕ → AdjustStockDto → Stock → Result ServiceError Stock
unfolding plan_adjust save_adjust
adjust products actor_id variant_id dto s = do
  saved ← plan_adjust products variant_id dto s
  ok (save_adjust actor_id dto saved s)

-- `setThreshold`
unfoldable pub set_threshold : ℕ → Option ℕ → List Product → Result ServiceError (List Product)
unfolding update_key
set_threshold product_id threshold products = do
  p ←
      or_throw product_not_found
        (find (λ (p : Product). p.id == product_id && p.is_active) products)
  ok (
      update_key (λ (q : Product). q.id) p.id (λ old. record p { low_stock_threshold = threshold })
        products)

-- `DEFAULT_LOW_STOCK_THRESHOLD`
abbrev pub default_low_stock_threshold : ℕ
default_low_stock_threshold = 5

abbrev pub threshold_or_default : Option ℕ → ℕ
threshold_or_default none = default_low_stock_threshold
threshold_or_default (some n) = n

-- What `toStockItem` computes.
pub record StockItem : Type 0 where
  pub stock_available : ℤ
  pub low_stock_threshold : ℕ
  pub is_low_stock : Bool
  pub is_out_of_stock : Bool

-- `toStockItem`
abbrev pub to_stock_item : Product → ProductVariant → StockItem
to_stock_item p v =
    let available = v.stock_total -ℤ v.stock_reserved in
    let threshold = threshold_or_default p.low_stock_threshold in
    record {
      stock_available = available;
      low_stock_threshold = threshold;
      is_low_stock = ltb_ℤ (pos 0) available && leb_ℤ available (pos threshold);
      is_out_of_stock = leb_ℤ available (pos 0);
    }
