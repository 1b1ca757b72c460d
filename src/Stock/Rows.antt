-- ===== src/Stock/Rows.antt =====
-- backend/src/modules/products/entities: the rows that stock is kept in, and the SQL statement
-- `UPDATE product_variants SET … WHERE id = :id AND …` that every stock operation is made of.
-- A uuid is the number that it writes out; `id` is the primary key of its table.
use e_commerce_titulo_interm.Common.{
  ℕ, Bool, Option, none, some, List, [], ◌∷◌, ◌==◌, if◌then◌else◌, ℤ,
}
use mathlib.Core.Option
use Prim.Native.String.{String}

-- The columns of `Product` that stock, cart and checkout read.
pub record Product : Type 0 where
  pub id : ℕ
  pub name : String
  pub price : ℕ  -- decimal(10,2), in cents
  pub is_published : Bool
  pub is_active : Bool
  pub low_stock_threshold : Option ℕ

-- `ProductVariant`
pub record ProductVariant : Type 0 where
  pub id : ℕ
  pub product_id : ℕ
  pub is_active : Bool
  pub stock_total : ℤ
  pub stock_reserved : ℤ

-- `StockMovementType`
pub data StockMovementType : Type 0 where
  reposicion ajuste merma devolucion venta cancelacion cambio : StockMovementType

-- The texts of `reason`: one constructor for each template, `typed` for what a person wrote.
pub data Reason : Type 0 where
  typed : String → Reason
  sale : ℕ → Reason  -- `Venta — pedido ${order.id}`
  cancelled_order : ℕ → Reason  -- `Cancelación — pedido #${order.orderNumber}`
  arrived_damaged : Reason → Reason  -- `${opts.reason} (llegó dañado)`

-- `StockMovement`
pub record StockMovement : Type 0 where
  pub variant_id : ℕ
  pub kind : StockMovementType  -- `type`
  pub quantity : ℕ
  pub resulting_stock_total : ℤ
  pub reason : Reason
  pub actor_id : Option ℕ

-- The tables of the stock operations.
pub record Stock : Type 0 where
  pub variants : List ProductVariant
  pub movements : List StockMovement  -- the newest first

-- The row with a primary key, as a query by `id` finds it.
unfoldable pub row : ℕ → List ProductVariant → Option ProductVariant
row id [] = none
row id (v ∷ vs) = let rest = row id vs in if v.id == id then some v else rest

-- `UPDATE … SET … WHERE id = :id AND …`: `none` when no row is affected.
unfoldable pub update_row :
    ℕ
    → (ProductVariant → Bool)
    → (ProductVariant → ProductVariant)
    → List ProductVariant
    → Option (List ProductVariant)
update_row id test assign [] = none
update_row id test assign (v ∷ vs) =
    let rest = Option.map (λ ws. v ∷ ws) (update_row id test assign vs) in
    if v.id == id then (if test v then some (assign v ∷ vs) else none) else rest
