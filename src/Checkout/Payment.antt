-- ===== src/Checkout/Payment.antt =====
-- backend/src/modules/orders/checkout.service.ts: the payment preference of an order, and the
-- requests `confirm` and `retryPayment` that ask for one. The gateway is a parameter: it answers a
-- preference, or it fails. What expires a preference at the gateway changes no table.
use e_commerce_titulo_interm.Common.{
  ℕ, ltb, Bool, true, false, Option, none, some, List, [], ◌∷◌, ◌++◌, ◌&&◌, not, ◌==◌,
  if◌then◌else◌, find, map, Result, ok, err, ◌>>=◌,
}
use Prim.Native.String.{String}
use e_commerce_titulo_interm.Errors.{
  ServiceError, user_not_found, payment_gateway_failed, order_changed_meanwhile,
}
use e_commerce_titulo_interm.Orders.Status.{pendiente_pago, cancelado, pasarela, same_status}
use e_commerce_titulo_interm.Entities.{
  OrderItem, Order, Db, find_order, update_order, preference_failed,
}
use e_commerce_titulo_interm.Orders.Lifecycle.{because, change_status, release_reservation}
use e_commerce_titulo_interm.Carts.Revalidation.{restore_after_failed_checkout}
use e_commerce_titulo_interm.Checkout.Rows.{
  User, Shop, require_valid_address, require_shipping_method,
}
use e_commerce_titulo_interm.Checkout.Confirm.{Checkout, confirm_transaction}

-- `id` and `title` of a line of a preference; the attributes of a variant are left out.
pub data PreferenceLabel : Type 0 where
  for_variant for_shipping : ℕ → String → PreferenceLabel

-- A line of a preference.
pub record PreferenceItem : Type 0 where
  pub label : PreferenceLabel
  pub quantity : ℕ
  pub unit_price : ℕ

-- What `createPreference` takes.
pub record PreferenceInput : Type 0 where
  pub order_id : ℕ
  pub payer_email : String
  pub expires_at : ℕ
  pub items : List PreferenceItem

-- `CreatedPreference`
pub record CreatedPreference : Type 0 where
  pub preference_id : ℕ
  pub redirect_url : String

abbrev pub preference_item : OrderItem → PreferenceItem
preference_item i = record {
  label = for_variant i.variant_id i.product_name_snapshot;
  quantity = i.quantity;
  unit_price = i.unit_price_snapshot;
}

-- The line of the shipping, if it costs anything.
abbrev pub shipping_items : Order → List PreferenceItem
shipping_items order =
    if ltb 0 order.shipping_cost
    then record {
      label = for_shipping order.shipping_method_snapshot.id order.shipping_method_snapshot.name;
      quantity = 1;
      unit_price = order.shipping_cost;
    }
      ∷ []
    else []

-- What `requestPreference` asks the gateway for.
unfoldable pub preference_input : Order → String → PreferenceInput
preference_input order email = record {
  order_id = order.id;
  payer_email = email;
  expires_at = order.reservation_expires_at;
  items = map preference_item order.items ++ shipping_items order;
}

-- `{ orderId, redirectUrl }`
pub record Redirect : Type 0 where
  pub order_id : ℕ
  pub redirect_url : String

abbrev pub same_key : Option ℕ → Option ℕ → Bool
same_key none none = true
same_key (some a) (some b) = a == b
same_key a b = false

abbrev pub set_preference : ℕ → Order → Order
set_preference preference_id order = record order { payment_preference_id = some preference_id }

-- `attachPreference`: the answer, and the tables.
unfoldable pub attach_preference :
    ℕ → Option ℕ → CreatedPreference → Shop → Result ServiceError Redirect × Shop
attach_preference order_id expected preference shop = elim (find_order order_id shop.db.orders) [
  | none ↦ (err order_changed_meanwhile, shop)
  | some order ↦
      if same_status order.status pendiente_pago && same_key order.payment_preference_id expected
      then (
        ok (record { order_id = order_id; redirect_url = preference.redirect_url }),
        record shop {
          db = update_order order_id (set_preference preference.preference_id) shop.db;
        },
      )
      else (err order_changed_meanwhile, shop)
]

-- The cancellation of `compensateFailedPreference`, on the locked order.
unfoldable pub cancel_unpaid : ℕ → Order → Db → Result ServiceError (Order × Db)
unfolding release_reservation change_status
cancel_unpaid now order db =
    let (released, written) = release_reservation order db in
    change_status now released cancelado
      (record (because preference_failed) { cancellation_cause = some pasarela }) written

-- `compensateFailedPreference`
unfoldable pub compensate_failed_preference : ℕ → ℕ → ℕ → ℕ → Shop → Result ServiceError Shop
unfolding cancel_unpaid restore_after_failed_checkout
compensate_failed_preference now order_id cart_id user_id shop =
    elim (find_order order_id shop.db.orders) [
      | none ↦ ok shop
      | some order ↦
          if not (same_status order.status pendiente_pago)
          then ok shop
          else cancel_unpaid now order shop.db >>= λ done. ok (record shop {
            db = done.1;
            carts = (restore_after_failed_checkout cart_id user_id shop.carts).1;
          })
    ]

-- What `confirm` answers when the preference failed.
abbrev pub after_compensation :
    Shop → Result ServiceError Shop → Result ServiceError Redirect × Shop
after_compensation shop (err e) = (err e, shop)
after_compensation shop (ok restored) = (err payment_gateway_failed, restored)

-- `ConfirmCheckoutDto`
pub record ConfirmCheckoutDto : Type 0 where
  pub address_id : ℕ
  pub shipping_method_id : ℕ
  pub expected_total : ℕ

abbrev pub find_user : ℕ → Shop → Result ServiceError User
find_user user_id shop = elim (find (λ (u : User). u.id == user_id) shop.users) [
  | none ↦ err user_not_found
  | some u ↦ ok u
]

-- What `confirm` reads before its transaction.
unfoldable pub prepare :
    ℕ → ℕ → ℕ → ℕ → ConfirmCheckoutDto → Shop → Result ServiceError (User × Checkout)
unfolding require_valid_address require_shipping_method
prepare now ttl number user_id dto shop = do
  user ← find_user user_id shop
  address ← require_valid_address user_id dto.address_id shop
  m ← require_shipping_method dto.shipping_method_id shop
  ok (
    user,
    record {
      now = now;
      ttl = ttl;
      number = number;
      user_id = user_id;
      address = address;
      method = m;
      expected_total = dto.expected_total;
    },
  )

abbrev pub key_or_zero : Option ℕ → ℕ
key_or_zero none = 0
key_or_zero (some id) = id

-- Steps 17 and 18, after the transaction; the cart of a new order is never null.
unfoldable pub start_payment :
    (PreferenceInput → Option CreatedPreference)
    → ℕ
    → User
    → Order
    → Shop
    → Result ServiceError Redirect × Shop
unfolding preference_input attach_preference compensate_failed_preference
start_payment gateway now user order shop = elim (gateway (preference_input order user.email)) [
  | none ↦
      after_compensation shop
        (compensate_failed_preference now order.id (key_or_zero order.cart_id) user.id shop)
  | some preference ↦ attach_preference order.id none preference shop
]

-- `confirm`: the answer, and the tables.
unfoldable pub confirm :
    (PreferenceInput → Option CreatedPreference)
    → ℕ
    → ℕ
    → ℕ
    → ℕ
    → ConfirmCheckoutDto
    → Shop
    → Result ServiceError Redirect × Shop
unfolding prepare confirm_transaction start_payment
confirm gateway now ttl number user_id dto shop = elim (prepare now ttl number user_id dto shop) [
  | err e ↦ (err e, shop)
  | ok ready ↦ elim (confirm_transaction ready.1 shop) [
    | err e ↦ (err e, shop)
    | ok placed ↦ start_payment gateway now ready.0 placed.0 placed.1
  ]
]
