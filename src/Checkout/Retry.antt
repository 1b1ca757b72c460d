-- ===== src/Checkout/Retry.antt =====
-- backend/src/modules/orders/checkout.service.ts: `retryPayment`.
use e_commerce_titulo_interm.Common.{
  ℕ, Bool, true, Option, none, some, List, [], ◌∷◌, ◌++◌, ◌&&◌, ◌||◌, not, ◌==◌, if◌then◌else◌, any,
  find, find_key, Result, ok, err, ◌>>=◌, ◌>>◌, throw_if,
}
use Prim.Native.String.{String}
use e_commerce_titulo_interm.Errors.{
  ServiceError, CheckoutProblem, product_unavailable, product_short, price_changed, order_not_found,
  payment_not_started, payment_retry_not_allowed, order_expired, payment_retry_stale,
}
use e_commerce_titulo_interm.Orders.Status.{pendiente_pago, pago_rechazado, same_status}
use e_commerce_titulo_interm.Orders.Policies
use e_commerce_titulo_interm.Orders.Policies.{ActionAvailability, allowed, denied, payment_retry}
use e_commerce_titulo_interm.Stock.Rows.{Product, ProductVariant, Stock}
use e_commerce_titulo_interm.Stock.Reservation.{ReserveResult, reserved_all, short_of, reserve}
use e_commerce_titulo_interm.Entities.{
  OrderItem, Order, Db, find_order, update_order, stock_lines, payment_retried,
}
use e_commerce_titulo_interm.Orders.Lifecycle.{because, change_status, set_reservation}
use e_commerce_titulo_interm.Carts.Rows.{product_key}
use e_commerce_titulo_interm.Checkout.Rows.{User, Shop}
use e_commerce_titulo_interm.Checkout.Payment.{
  PreferenceInput, CreatedPreference, Redirect, preference_input, attach_preference, find_user,
}

-- A variant that `findInactiveVariantIds` lists.
abbrev pub is_inactive_variant : ℕ → List ProductVariant → Bool
is_inactive_variant id variants = any (λ v. v.id == id && not v.is_active) variants

-- What the revalidation finds wrong with an item of the order, given its product.
abbrev pub retry_item_problems :
    Option Product → List ProductVariant → OrderItem → List CheckoutProblem
retry_item_problems none variants i = product_unavailable i.product_name_snapshot ∷ []
retry_item_problems (some p) variants i =
    if not (p.is_active && p.is_published) || is_inactive_variant i.variant_id variants
    then product_unavailable i.product_name_snapshot ∷ []
    else if not (p.price == i.unit_price_snapshot)
    then price_changed i.product_name_snapshot i.unit_price_snapshot p.price ∷ []
    else []

abbrev pub retry_problems :
    List Product → List ProductVariant → List OrderItem → List CheckoutProblem
retry_problems products variants [] = []
retry_problems products variants (i ∷ is) =
    retry_item_problems (find_key product_key i.product_id products) variants i
    ++ retry_problems products variants is

abbrev pub throw_retry_problems : List CheckoutProblem → Result ServiceError (Unit {0})
throw_retry_problems [] = ok tt
throw_retry_problems (p ∷ ps) = err (payment_retry_stale (p ∷ ps))

abbrev pub item_name_or_empty : Option OrderItem → String
item_name_or_empty none = ""
item_name_or_empty (some i) = i.product_name_snapshot

-- The end of step 15, by what `reserve` answered.
abbrev pub reserved_again : Order → Db → ReserveResult × Stock → Result ServiceError (Order × Db)
reserved_again order db (reserved_all, stock) = ok (
  set_reservation true order,
  update_order order.id (set_reservation true) (record db { stock = stock }),
)
reserved_again order db (short_of id, stock) = err (
    payment_retry_stale
      (product_short (item_name_or_empty (find (λ i. i.variant_id == id) order.items)) ∷ []))

-- Step 15 of a retry: what a rejection released is reserved again.
unfoldable pub reserve_for_retry : Order → Db → Result ServiceError (Order × Db)
unfolding reserve
reserve_for_retry order db =
    if order.stock_reservation_active
    then ok (order, db)
    else reserved_again order db (reserve (stock_lines order.items) db.stock)

-- The last step of the transaction.
unfoldable pub reopen : ℕ → ℕ → Order → Db → Result ServiceError (Order × Db)
unfolding change_status
reopen now user_id order db =
    if same_status order.status pago_rechazado
    then change_status now order pendiente_pago
        (record (because payment_retried) { actor_id = some user_id }) db
    else ok (order, db)

-- `if (!retry.allowed) throw`
abbrev pub require_allowed : ActionAvailability → Result ServiceError (Unit {0})
require_allowed (allowed deadline) = ok tt
require_allowed (denied Policies.order_expired) = err order_expired
require_allowed (denied reason) = err payment_retry_not_allowed

-- The transaction of `retryPayment`, on the locked order.
unfoldable pub retry_locked : ℕ → ℕ → List Product → Order → Db → Result ServiceError (Order × Db)
unfolding payment_retry reserve_for_retry reopen
retry_locked now user_id products order db = do
  throw_if (not (order.user_id == user_id)) order_not_found
  require_allowed (payment_retry order now)
  throw_retry_problems (retry_problems products db.stock.variants order.items)
  reserved ← reserve_for_retry order db
  reopen now user_id reserved.0 reserved.1

-- The transaction of `retryPayment`.
unfoldable pub retry_transaction : ℕ → ℕ → ℕ → List Product → Db → Result ServiceError (Order × Db)
unfolding retry_locked
retry_transaction now user_id order_id products db = elim (find_order order_id db.orders) [
  | none ↦ err order_not_found
  | some order ↦ retry_locked now user_id products order db
]

-- What follows the transaction of a retry: the order stays if the gateway fails.
unfoldable pub restart_payment :
    (PreferenceInput → Option CreatedPreference)
    → User
    → Order
    → Shop
    → Result ServiceError Redirect × Shop
unfolding preference_input attach_preference
restart_payment gateway user order shop = elim (gateway (preference_input order user.email)) [
  | none ↦ (err payment_not_started, shop)
  | some preference ↦ attach_preference order.id order.payment_preference_id preference shop
]

-- `retryPayment`: the answer, and the tables.
unfoldable pub retry_payment :
    (PreferenceInput → Option CreatedPreference)
    → ℕ
    → ℕ
    → ℕ
    → Shop
    → Result ServiceError Redirect × Shop
unfolding retry_transaction restart_payment
retry_payment gateway now user_id order_id shop = elim (find_user user_id shop) [
  | err e ↦ (err e, shop)
  | ok user ↦ elim (retry_transaction now user_id order_id shop.products shop.db) [
    | err e ↦ (err e, shop)
    | ok done ↦ restart_payment gateway user done.0 (record shop { db = done.1 })
  ]
]
