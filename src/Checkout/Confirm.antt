-- ===== src/Checkout/Confirm.antt =====
-- backend/src/modules/orders/checkout.service.ts: the transaction of `confirm`. `now` is the time,
-- `number` the next order number of the database, `ttl` the life of a reservation in milliseconds.
use e_commerce_titulo_interm.Common.{
  ℕ, suc, ◌+◌, ◌*◌, true, false, Option, none, some, List, [], ◌∷◌, ◌++◌, not, ◌==◌, if◌then◌else◌,
  find, sum, map, length, Result, ok, err, ◌>>=◌, ◌>>◌, throw_if,
}
use Prim.Native.String.{String}
use e_commerce_titulo_interm.Errors.{
  ServiceError, CheckoutProblem, product_unavailable, product_short, price_changed, total_changed,
  empty_cart, checkout_stale,
}
use e_commerce_titulo_interm.Orders.Status.{pendiente_pago}
use e_commerce_titulo_interm.Stock.Rows.{Product, ProductVariant, Stock}
use e_commerce_titulo_interm.Stock.Reservation.{
  StockLine, ReserveResult, reserved_all, short_of, reserve,
}
use e_commerce_titulo_interm.Entities.{OrderItem, Order, Db, checkout_confirmed}
use e_commerce_titulo_interm.Orders.Lifecycle.{record_history}
use e_commerce_titulo_interm.Users.Rows.{Address}
use e_commerce_titulo_interm.Carts.Rows.{
  Cart, CartItem, Catalog, load_product, load_variant, is_item_purchasable,
}
use e_commerce_titulo_interm.Carts.Revalidation.{
  lock_active_cart_for_checkout, mark_associated_to_order,
}
use e_commerce_titulo_interm.Checkout.Rows.{
  ShippingMethod, Shop, catalog_of, snapshot_address, snapshot_method, is_nil,
}

-- An item of the cart with its relations.
pub record LoadedItem : Type 0 where
  pub item : CartItem
  pub product : Product
  pub variant : Option ProductVariant

unfoldable pub load_items : Catalog → List CartItem → Result ServiceError (List LoadedItem)
unfolding load_product
load_items catalog [] = ok []
load_items catalog (i ∷ is) = do
  p ← load_product catalog i
  rest ← load_items catalog is
  ok (record { item = i; product = p; variant = load_variant catalog i } ∷ rest)

-- What step 13 finds wrong with an item.
abbrev pub item_problems : LoadedItem → List CheckoutProblem
item_problems l =
    if not (is_item_purchasable l.product l.variant)
    then product_unavailable l.product.name ∷ []
    else if not (l.product.price == l.item.unit_price_snapshot)
    then price_changed l.product.name l.item.unit_price_snapshot l.product.price ∷ []
    else []

-- The loop of step 13.
abbrev pub checkout_problems : List LoadedItem → List CheckoutProblem
checkout_problems [] = []
checkout_problems (l ∷ ls) = item_problems l ++ checkout_problems ls

-- `if (problems.length > 0) throw`
abbrev pub throw_problems : List CheckoutProblem → Result ServiceError (Unit {0})
throw_problems [] = ok tt
throw_problems (p ∷ ps) = err (checkout_stale (p ∷ ps))

-- `toCents(item.product.price) * item.quantity`
abbrev pub line_price : LoadedItem → ℕ
line_price l = l.product.price * l.item.quantity

-- `subtotalCents`
abbrev pub subtotal_of : List LoadedItem → ℕ
subtotal_of loaded = sum line_price loaded

-- The items of the order; the keys are generated.
unfoldable pub order_items : ℕ → List LoadedItem → List OrderItem
order_items id [] = []
order_items id (l ∷ ls) =
    record {
      id = id;
      product_id = l.item.product_id;
      variant_id = l.item.variant_id;
      product_name_snapshot = l.product.name;
      quantity = l.item.quantity;
      unit_price_snapshot = l.product.price;
      subtotal = line_price l;
      stock_committed = false;
    }
    ∷ order_items (suc id) ls

-- What the transaction is called with.
pub record Checkout : Type 0 where
  pub now : ℕ
  pub ttl : ℕ
  pub number : ℕ
  pub user_id : ℕ
  pub address : Address
  pub method : ShippingMethod
  pub expected_total : ℕ

-- The order of step 14.
unfoldable pub new_order : Checkout → Cart → List LoadedItem → ℕ → Order
unfolding order_items
new_order c cart loaded id = record {
  id = id;
  order_number = c.number;
  user_id = c.user_id;
  cart_id = some cart.id;
  status = pendiente_pago;
  subtotal = subtotal_of loaded;
  shipping_cost = c.method.cost;
  total = subtotal_of loaded + c.method.cost;
  shipping_method_snapshot = snapshot_method c.method;
  shipping_address_snapshot = snapshot_address c.address;
  cancellation_cause = none;
  stock_reservation_active = true;
  reservation_expires_at = c.now + c.ttl;
  payment_preference_id = none;
  tracking_carrier = none;
  tracking_number = none;
  dispatched_at = none;
  paid_at = none;
  delivered_at = none;
  items = order_items (suc id) loaded;
}

-- The insert of step 14, with its history.
unfoldable pub insert_order : ℕ → Order → Db → Db
unfolding record_history
insert_order user_id order db =
    record_history order.id none pendiente_pago
      (record {
        actor_id = some user_id;
        reason = some checkout_confirmed;
        cancellation_cause = none;
      })
      (record db {
        orders = db.orders ++ (order ∷ []);
        next_id = suc db.next_id + length order.items;
      })

-- `items.map((item) => ({ variantId, quantity }))`
abbrev pub cart_line : LoadedItem → StockLine
cart_line l = record { variant_id = l.item.variant_id; quantity = l.item.quantity }

abbrev pub name_or_empty : Option LoadedItem → String
name_or_empty none = ""
name_or_empty (some l) = l.product.name

-- Step 15: a batch that falls short rolls everything back.
abbrev pub require_reserved : List LoadedItem → ReserveResult × Stock → Result ServiceError Stock
require_reserved loaded (reserved_all, stock) = ok stock
require_reserved loaded (short_of id, stock) = err (
    checkout_stale
      (product_short (name_or_empty (find (λ l. l.item.variant_id == id) loaded)) ∷ []))

-- Steps 14 to 16, once the total is what the customer saw.
unfoldable pub place_order :
    Checkout → Cart → List LoadedItem → Shop → Result ServiceError (Order × Shop)
unfolding new_order insert_order reserve mark_associated_to_order
place_order c cart loaded shop =
    let order = new_order c cart loaded shop.db.next_id in
    let inserted = insert_order c.user_id order shop.db in
    require_reserved loaded (reserve (map cart_line loaded) inserted.stock) >>= λ stock. ok (
      order,
      record shop {
        db = record inserted { stock = stock };
        carts = mark_associated_to_order cart.id shop.carts;
      },
    )

-- Steps 13 to 16, on the items of the locked cart.
unfoldable pub confirm_items :
    Checkout → Cart → List CartItem → Shop → Result ServiceError (Order × Shop)
unfolding load_items place_order
confirm_items c cart items shop = do
  throw_if (is_nil items) empty_cart
  loaded ← load_items (catalog_of shop) items
  throw_problems (checkout_problems loaded)
  throw_if (not (c.expected_total == (subtotal_of loaded + c.method.cost)))
      (checkout_stale (total_changed c.expected_total (subtotal_of loaded + c.method.cost) ∷ []))
  place_order c cart loaded shop

-- The transaction of `confirm`.
unfoldable pub confirm_transaction : Checkout → Shop → Result ServiceError (Order × Shop)
unfolding confirm_items
confirm_transaction c shop = elim (lock_active_cart_for_checkout c.user_id shop.carts) [
  | none ↦ err empty_cart
  | some locked ↦ confirm_items c locked.0 locked.1 shop
]
