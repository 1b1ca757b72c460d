-- ===== src/Carts/Rows.antt =====
-- backend/src/modules/cart/entities, what the cart reads of the catalogue, and the rule of
-- backend/src/modules/products/purchasable.ts.
use e_commerce_titulo_interm.Common.{
  ℕ, Bool, true, false, Option, none, some, List, ◌&&◌, find_key, Result, ok, err, ℤ, ◌-ℤ◌,
}
use e_commerce_titulo_interm.Errors.{ServiceError, null_relation}
use e_commerce_titulo_interm.Stock.Rows.{Product, ProductVariant, row}

-- `CartStatus`
pub data CartStatus : Type 0 where
  activo asociado_a_pedido : CartStatus

abbrev pub is_activo : CartStatus → Bool
is_activo activo = true
is_activo asociado_a_pedido = false

-- `Cart`
pub record Cart : Type 0 where
  pub id : ℕ
  pub user_id : ℕ
  pub status : CartStatus

-- `CartItem`
pub record CartItem : Type 0 where
  pub id : ℕ
  pub cart_id : ℕ
  pub product_id : ℕ
  pub variant_id : ℕ
  pub quantity : ℕ
  pub unit_price_snapshot : ℕ

-- The tables of the carts, items by `addedAt`; `next_id` stands for the generated keys.
pub record Carts : Type 0 where
  pub carts : List Cart
  pub items : List CartItem
  pub next_id : ℕ

-- What the cart reads of the catalogue.
pub record Catalog : Type 0 where
  pub products : List Product
  pub variants : List ProductVariant

abbrev pub cart_key : Cart → ℕ
cart_key c = c.id

abbrev pub item_key : CartItem → ℕ
item_key i = i.id

abbrev pub product_key : Product → ℕ
product_key p = p.id

-- `isPurchasable` of a product that exists, with a variant that exists.
abbrev pub is_purchasable : Product → ProductVariant → Bool
is_purchasable p v = p.is_active && p.is_published && v.is_active

-- `stockAvailable`
abbrev pub stock_available : ProductVariant → ℤ
stock_available v = v.stock_total -ℤ v.stock_reserved

-- A variant with its product (`relations: { product: true }`).
abbrev pub with_product : Catalog → ProductVariant → Option (Product × ProductVariant)
with_product catalog v = elim (find_key product_key v.product_id catalog.products) [
  | none ↦ none
  | some p ↦ some (p, v)
]

abbrev pub find_variant : Catalog → ℕ → Option (Product × ProductVariant)
find_variant catalog variant_id = elim (row variant_id catalog.variants) [
  | none ↦ none
  | some v ↦ with_product catalog v
]

-- An item with its relations `product` and `variant`; the foreign keys make both exist, and a
-- read of a field of a missing one throws.
unfoldable pub load_product : Catalog → CartItem → Result ServiceError Product
load_product catalog item = elim (find_key product_key item.product_id catalog.products) [
  | none ↦ err null_relation
  | some p ↦ ok p
]

abbrev pub load_variant : Catalog → CartItem → Option ProductVariant
load_variant catalog item = row item.variant_id catalog.variants

-- `isPurchasable` of the relations of an item.
abbrev pub is_item_purchasable : Product → Option ProductVariant → Bool
is_item_purchasable p none = false
is_item_purchasable p (some v) = is_purchasable p v
