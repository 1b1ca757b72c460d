-- ===== src/Carts/Service.antt =====
-- backend/src/modules/cart/cart.service.ts: `CartService`, over the tables of the carts. A request
-- runs alone between its reads and its writes.
use e_commerce_titulo_interm.Common.{
  ℕ, ◌+◌, suc, Bool, Option, none, some, List, [], ◌∷◌, ◌++◌, ◌&&◌, not, ◌==◌, ltb, if◌then◌else◌,
  keep, find, Result, ok, err, ◌>>=◌, ◌>>◌, throw_if, update_key, remove_key, ℤ, pos, ◌-ℤ◌, ltb_ℤ,
  max_ℤ,
}
use e_commerce_titulo_interm.Errors.{
  ServiceError, item_unavailable, insufficient_stock, cart_is_ordered, item_not_in_cart,
}
use e_commerce_titulo_interm.Stock.Rows.{Product, ProductVariant}
use e_commerce_titulo_interm.Carts.Rows.{
  activo, is_activo, Cart, CartItem, Carts, Catalog, item_key, is_purchasable, stock_available,
  find_variant,
}

-- `ResolveOutcome`
pub data ResolveOutcome : Type 0 where
  resolved : Product → ProductVariant → ResolveOutcome
  too_few : ℤ → ResolveOutcome  -- `{ outcome: 'insufficient_stock'; maxAvailable }`
  unavailable : ResolveOutcome

-- `resolveVariantForPurchase` of products.service.ts.
unfoldable pub resolve_variant_for_purchase :
    Catalog → ℕ → Result ServiceError (Product × ProductVariant)
resolve_variant_for_purchase catalog variant_id = elim (find_variant catalog variant_id) [
  | none ↦ err item_unavailable
  | some r ↦ if is_purchasable r.0 r.1 then ok r else err item_unavailable
]

-- The comparison of `resolveItem` with the stock.
abbrev pub fits : ℕ → ℕ → Product → ProductVariant → ResolveOutcome
fits requested already p v =
    if ltb_ℤ (stock_available v) (pos (already + requested))
    then too_few (max_ℤ (pos 0) (stock_available v -ℤ pos already))
    else resolved p v

-- `resolveItem`
unfoldable pub resolve_item : Catalog → ℕ → ℕ → ℕ → ResolveOutcome
unfolding resolve_variant_for_purchase
resolve_item catalog variant_id requested already =
    elim (resolve_variant_for_purchase catalog variant_id) [
      | err e ↦ unavailable
      | ok r ↦ fits requested already r.0 r.1
    ]

-- What `addItem` and `updateItemQuantity` do with an outcome.
abbrev pub resolved_or_fail : ResolveOutcome → Result ServiceError (Product × ProductVariant)
resolved_or_fail (resolved p v) = ok (p, v)
resolved_or_fail (too_few max_available) = err (insufficient_stock max_available)
resolved_or_fail unavailable = err item_unavailable

-- `{ userId, status: ACTIVO }`
abbrev pub is_active_cart_of : ℕ → Cart → Bool
is_active_cart_of user_id c = c.user_id == user_id && is_activo c.status

abbrev pub new_cart : ℕ → ℕ → Cart
new_cart id user_id = record { id = id; user_id = user_id; status = activo }

-- `getOrCreateCart`
unfoldable pub get_or_create_cart : ℕ → Carts → Cart × Carts
get_or_create_cart user_id s = elim (find (is_active_cart_of user_id) s.carts) [
  | some c ↦ (c, s)
  | none ↦ (
    new_cart s.next_id user_id,
    record s { carts = s.carts ++ (new_cart s.next_id user_id ∷ []); next_id = suc s.next_id },
  )
]

-- `assertMutable`
abbrev pub assert_mutable : Cart → Result ServiceError (Unit {0})
assert_mutable c = throw_if (not (is_activo c.status)) cart_is_ordered

-- `{ cartId, variantId }`
abbrev pub is_item_of : ℕ → ℕ → CartItem → Bool
is_item_of cart_id variant_id i = i.cart_id == cart_id && i.variant_id == variant_id

-- `existing?.quantity ?? 0`
abbrev pub quantity_of : Option CartItem → ℕ
quantity_of none = 0
quantity_of (some i) = i.quantity

-- `existing.quantity += quantity; existing.unitPriceSnapshot = product.price`
abbrev pub grown : ℕ → Product → CartItem → CartItem
grown quantity p i = record i { quantity = i.quantity + quantity; unit_price_snapshot = p.price }

-- The item that `upsertNewItem` inserts.
abbrev pub new_item : ℕ → ℕ → ℕ → ℕ → Product → CartItem
new_item id cart_id variant_id quantity p = record {
  id = id;
  cart_id = cart_id;
  product_id = p.id;
  variant_id = variant_id;
  quantity = quantity;
  unit_price_snapshot = p.price;
}

-- `itemRepo.save` of an item that was read.
abbrev pub save_item : CartItem → List CartItem → List CartItem
save_item item items = update_key item_key item.id (λ old. item) items

-- The write of `addItem` and of `confirmMerge`, once the item is resolved.
unfoldable pub put_item : Option CartItem → ℕ → ℕ → ℕ → Product → Carts → Carts
unfolding update_key
put_item (some i) cart_id variant_id quantity p s = record s {
  items = save_item (grown quantity p i) s.items;
}
put_item none cart_id variant_id quantity p s = record s {
  items = s.items ++ (new_item s.next_id cart_id variant_id quantity p ∷ []);
  next_id = suc s.next_id;
}

-- `addItem`, up to the view that it returns.
unfoldable pub add_item : Catalog → ℕ → ℕ → ℕ → Carts → Result ServiceError Carts
unfolding get_or_create_cart resolve_item put_item
add_item catalog user_id variant_id quantity s = do
  let (cart, t) = get_or_create_cart user_id s
  assert_mutable cart
  let existing = find (is_item_of cart.id variant_id) t.items
  r ← resolved_or_fail (resolve_item catalog variant_id quantity (quantity_of existing))
  ok (put_item existing cart.id variant_id quantity r.0 t)

-- `findOwnedItemOrFail`
unfoldable pub find_owned_item_or_fail : ℕ → ℕ → List CartItem → Result ServiceError CartItem
find_owned_item_or_fail cart_id item_id items =
    elim (find (λ i. i.id == item_id && i.cart_id == cart_id) items) [
      | none ↦ err item_not_in_cart
      | some i ↦ ok i
    ]

-- The price that `updateItemQuantity` leaves: only a larger quantity resolves the item again.
abbrev pub new_price : Catalog → ℕ → CartItem → Result ServiceError ℕ
new_price catalog quantity i =
    if ltb i.quantity quantity
    then resolved_or_fail (resolve_item catalog i.variant_id quantity 0) >>= (λ r. ok r.0.price)
    else ok i.unit_price_snapshot

-- `updateItemQuantity`, up to the view that it returns.
unfoldable pub update_item_quantity : Catalog → ℕ → ℕ → ℕ → Carts → Result ServiceError Carts
unfolding get_or_create_cart resolve_item find_owned_item_or_fail update_key
update_item_quantity catalog user_id item_id quantity s = do
  let (cart, t) = get_or_create_cart user_id s
  assert_mutable cart
  i ← find_owned_item_or_fail cart.id item_id t.items
  price ← new_price catalog quantity i
  let saved = record i { quantity = quantity; unit_price_snapshot = price }
  ok (record t { items = save_item saved t.items })

-- `removeItem`, up to the view that it returns.
unfoldable pub remove_item : ℕ → ℕ → Carts → Result ServiceError Carts
unfolding get_or_create_cart find_owned_item_or_fail remove_key
remove_item user_id item_id s = do
  let (cart, t) = get_or_create_cart user_id s
  assert_mutable cart
  i ← find_owned_item_or_fail cart.id item_id t.items
  ok (record t { items = remove_key item_key i.id t.items })

-- `clearCart`, up to the view that it returns.
unfoldable pub clear_cart : ℕ → Carts → Result ServiceError Carts
unfolding get_or_create_cart
clear_cart user_id s = do
  let (cart, t) = get_or_create_cart user_id s
  assert_mutable cart
  ok (record t { items = keep (λ i. not (i.cart_id == cart.id)) t.items })
