-- ===== src/Carts/Revalidation.antt =====
-- backend/src/modules/cart/cart.service.ts: what the checkout asks of the cart.
use e_commerce_titulo_interm.Common.{
  ℕ, Bool, true, false, Option, none, some, List, [], ◌∷◌, ◌++◌, not, ◌==◌, if◌then◌else◌, find,
  Result, ok, ◌>>=◌, update_key, remove_key, pos, ltb_ℤ, leb_ℤ, pos_part,
}
use Prim.Native.String.{String}
use e_commerce_titulo_interm.Errors.{ServiceError}
use e_commerce_titulo_interm.Stock.Rows.{Product, ProductVariant}
use e_commerce_titulo_interm.Carts.Rows.{
  CartStatus, activo, asociado_a_pedido, Cart, CartItem, Carts, Catalog, cart_key, item_key,
  is_purchasable, stock_available, load_product, load_variant,
}
use e_commerce_titulo_interm.Carts.Service.{is_active_cart_of, get_or_create_cart, save_item}
use e_commerce_titulo_interm.Carts.Views.{items_of}

-- `reason` of a removal.
pub data RemovalReason : Type 0 where
  no_longer_sold out_of_stock : RemovalReason

-- `type` of `CheckoutAdjustment`, with what it carries.
pub data AdjustmentKind : Type 0 where
  removed : RemovalReason → AdjustmentKind
  quantity_reduced : ℕ → ℕ → AdjustmentKind
  price_updated : ℕ → ℕ → AdjustmentKind

-- `CheckoutAdjustment`
pub record CheckoutAdjustment : Type 0 where
  pub item_id : ℕ
  pub product_name : String
  pub kind : AdjustmentKind

abbrev pub adjustment : CartItem → Product → AdjustmentKind → CheckoutAdjustment
adjustment i p kind = record { item_id = i.id; product_name = p.name; kind = kind }

-- An item whose quantity and price the loop of `revalidateForCheckout` may change. What is
-- available is positive there, so that its positive part is its value.
unfoldable pub adjust_item :
    CartItem → Product → ProductVariant → List CartItem → List CheckoutAdjustment × List CartItem
unfolding update_key
adjust_item i p v items =
    let available = pos_part (stock_available v) in
    let reduces = ltb_ℤ (stock_available v) (pos i.quantity) in
    let reprices = not (p.price == i.unit_price_snapshot) in
    let quantity = if reduces then available else i.quantity in
    let first =
      if reduces then adjustment i p (quantity_reduced i.quantity available) ∷ [] else [] in
    let second =
      if reprices then adjustment i p (price_updated i.unit_price_snapshot p.price) ∷ [] else [] in
    let unit_price = if reprices then p.price else i.unit_price_snapshot in
    let saved =
      save_item (record i { quantity = quantity; unit_price_snapshot = unit_price }) items in
    (first ++ second, if reduces then saved else if reprices then saved else items)

-- The removal of an item.
abbrev pub drop_item :
    CartItem → Product → RemovalReason → List CartItem → List CheckoutAdjustment × List CartItem
drop_item i p reason items = (adjustment i p (removed reason) ∷ [], remove_key item_key i.id items)

-- One turn of the loop, with the relations of the item loaded.
unfoldable pub revalidate_item :
    CartItem
    → Product
    → Option ProductVariant
    → List CartItem
    → List CheckoutAdjustment × List CartItem
unfolding adjust_item remove_key
revalidate_item i p none items = drop_item i p no_longer_sold items
revalidate_item i p (some v) items =
    let adjusted = adjust_item i p v items in
    if not (is_purchasable p v)
    then drop_item i p no_longer_sold items
    else if leb_ℤ (stock_available v) (pos 0)
    then drop_item i p out_of_stock items
    else adjusted

-- The loop of `revalidateForCheckout`, over the items that were read.
unfoldable pub revalidate_items :
    Catalog
    → List CartItem
    → List CartItem
    → Result ServiceError (List CheckoutAdjustment × List CartItem)
unfolding load_product revalidate_item
revalidate_items catalog [] items = ok ([], items)
revalidate_items catalog (i ∷ is) items = do
  p ← load_product catalog i
  let (adjustments, next) = revalidate_item i p (load_variant catalog i) items
  rest ← revalidate_items catalog is next
  ok (adjustments ++ rest.0, rest.1)

-- `revalidateForCheckout`, up to the view that it returns.
unfoldable pub revalidate_for_checkout :
    Catalog → ℕ → Carts → Result ServiceError (List CheckoutAdjustment × Carts)
unfolding get_or_create_cart revalidate_items
revalidate_for_checkout catalog user_id s = do
  let (cart, t) = get_or_create_cart user_id s
  r ← revalidate_items catalog (items_of cart.id t) t.items
  ok (r.0, record t { items = r.1 })

-- `lockActiveCartForCheckout`
abbrev pub lock_active_cart_for_checkout : ℕ → Carts → Option (Cart × List CartItem)
lock_active_cart_for_checkout user_id s = elim (find (is_active_cart_of user_id) s.carts) [
  | none ↦ none
  | some cart ↦ some (cart, items_of cart.id s)
]

abbrev pub with_cart_status : CartStatus → Cart → Cart
with_cart_status status c = record c { status = status }

-- `markAssociatedToOrder`
unfoldable pub mark_associated_to_order : ℕ → Carts → Carts
unfolding update_key
mark_associated_to_order cart_id s = record s {
  carts = update_key cart_key cart_id (with_cart_status asociado_a_pedido) s.carts;
}

-- The write that makes a cart active again.
unfoldable pub reactivate : ℕ → List Cart → List Cart
unfolding update_key
reactivate cart_id carts = update_key cart_key cart_id (with_cart_status activo) carts

-- `restoreAfterFailedCheckout`: false if the customer filled a newer cart in the meantime.
unfoldable pub restore_after_failed_checkout : ℕ → ℕ → Carts → Bool × Carts
unfolding reactivate remove_key
restore_after_failed_checkout cart_id user_id s = elim (find (is_active_cart_of user_id) s.carts) [
  | none ↦ (true, record s { carts = reactivate cart_id s.carts })
  | some newer ↦ elim (items_of newer.id s) [
    | [] ↦ (true, record s { carts = reactivate cart_id (remove_key cart_key newer.id s.carts) })
    | ◌∷◌ i is ↦ (false, s)
  ]
]
