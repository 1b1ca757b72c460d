-- ===== src/Entities.antt =====
-- The rows of the orders and payments modules (backend/src/modules/orders/entities,
-- backend/src/modules/payments/entities), and the tables of a transaction. A uuid is the number
-- that it writes out, an amount `decimal(10,2)` is its cents, a date its milliseconds. The columns
-- that no modelled operation reads or writes are left out.
use e_commerce_titulo_interm.Common.{
  ℕ, Bool, Option, none, some, List, [], ◌∷◌, ◌==◌, if◌then◌else◌, any, map,
}
use Prim.Native.String.{String}
use e_commerce_titulo_interm.Orders.Status.{OrderStatus, OrderCancellationCause}
use e_commerce_titulo_interm.Payments.Status.{
  PaymentStatus, RefundStatus, RefundOrigin, GatewayStatus,
}
use e_commerce_titulo_interm.Stock.Rows.{Stock}
use e_commerce_titulo_interm.Stock.Reservation.{StockLine}

-- The texts that the system writes, one constructor for each template; `typed` is what a person
-- wrote.
pub data Text : Type 0 where
  typed : String → Text
  payment_approved payment_approved_late payment_rejected payment_pending : ℕ → Text
  reservation_expired preference_failed checkout_confirmed payment_retried : Text
  shortage : List StockLine → Text
  not_reserved_again : ℕ → Text
  double_charge rejected_on_paid : ℕ → OrderStatus → Text
  paid_cancelled : ℕ → Option OrderCancellationCause → Text
  final_conflict : ℕ → PaymentStatus → PaymentStatus → Text
  amount_mismatch : ℕ → ℕ → ℕ → Text
  order_cancellation : ℕ → Text → Text
  refund_not_registered : Text
  cancelled_by_customer : Text
  gateway_reported : GatewayStatus → Text

-- `OrderItem`
pub record OrderItem : Type 0 where
  pub id : ℕ
  pub product_id : ℕ
  pub variant_id : ℕ
  pub product_name_snapshot : String
  pub quantity : ℕ
  pub unit_price_snapshot : ℕ
  pub subtotal : ℕ
  pub stock_committed : Bool

-- `ShippingMethodType`
pub data ShippingMethodType : Type 0 where
  domicilio retiro : ShippingMethodType

-- `ShippingMethodSnapshot`
pub record ShippingMethodSnapshot : Type 0 where
  pub id : ℕ
  pub name : String
  pub cost : ℕ
  pub kind : Option ShippingMethodType  -- `type`
  pub description : Option String

-- `ShippingAddressSnapshot`
pub record ShippingAddressSnapshot : Type 0 where
  pub alias : String
  pub street : String
  pub number : String
  pub floor_apt : Option String
  pub city : String
  pub province : String
  pub postal_code : String
  pub phone : String
  pub notes : Option String

-- `Order`, with its items.
pub record Order : Type 0 where
  pub id : ℕ
  pub order_number : ℕ
  pub user_id : ℕ
  pub cart_id : Option ℕ
  pub status : OrderStatus
  pub subtotal : ℕ
  pub shipping_cost : ℕ
  pub total : ℕ
  pub shipping_method_snapshot : ShippingMethodSnapshot
  pub shipping_address_snapshot : ShippingAddressSnapshot
  pub cancellation_cause : Option OrderCancellationCause
  pub stock_reservation_active : Bool
  pub reservation_expires_at : ℕ
  pub payment_preference_id : Option ℕ
  pub tracking_carrier : Option String
  pub tracking_number : Option String
  pub dispatched_at : Option ℕ
  pub paid_at : Option ℕ
  pub delivered_at : Option ℕ
  pub items : List OrderItem

-- `OrderStatusHistory`
pub record OrderStatusHistory : Type 0 where
  pub order_id : ℕ
  pub from_status : Option OrderStatus
  pub to_status : OrderStatus
  pub actor_id : Option ℕ
  pub reason : Option Text

-- `OrderNote`
pub record OrderNote : Type 0 where
  pub order_id : ℕ
  pub author_id : Option ℕ
  pub text : Text

-- `Payment`
pub record Payment : Type 0 where
  pub id : ℕ
  pub order_id : ℕ
  pub external_payment_id : ℕ
  pub status : PaymentStatus
  pub amount : ℕ
  pub processed_at : ℕ

-- `Refund`
pub record Refund : Type 0 where
  pub id : ℕ
  pub order_id : ℕ
  pub payment_id : ℕ
  pub amount : ℕ
  pub status : RefundStatus
  pub external_refund_id : Option ℕ
  pub origin_cu : RefundOrigin
  pub reason : Option Text
  pub resolved_at : Option ℕ
  pub attempt : ℕ
  pub last_error : Option Text
  pub resolution_note : Option String
  pub resolved_by_user_id : Option ℕ

-- The tables that a transaction reads and writes; of the log tables the newest row is first.
-- `next_id` stands for the generated keys: each insert of a payment or a refund takes a new one.
pub record Db : Type 0 where
  pub stock : Stock
  pub orders : List Order
  pub history : List OrderStatusHistory
  pub notes : List OrderNote
  pub payments : List Payment
  pub refunds : List Refund
  pub next_id : ℕ

-- The order with a primary key.
unfoldable pub find_order : ℕ → List Order → Option Order
find_order id [] = none
find_order id (o ∷ os) = let rest = find_order id os in if o.id == id then some o else rest

-- `manager.update(Order, id, changes)`
unfoldable pub update_orders : ℕ → (Order → Order) → List Order → List Order
update_orders id changes [] = []
update_orders id changes (o ∷ os) =
    let rest = o ∷ update_orders id changes os in if o.id == id then changes o ∷ os else rest

-- The same statement on the tables.
abbrev pub update_order : ℕ → (Order → Order) → Db → Db
update_order id changes db = record db { orders = update_orders id changes db.orders }

-- `manager.update(OrderItem, { id: In(ids) }, { stockCommitted })`, on the items of an order.
unfoldable pub mark_committed : List ℕ → Bool → List OrderItem → List OrderItem
mark_committed ids committed [] = []
mark_committed ids committed (i ∷ is) =
    (if any (λ id. i.id == id) ids then record i { stock_committed = committed } else i)
    ∷ mark_committed ids committed is

-- `stockLines`
abbrev pub stock_line : OrderItem → StockLine
stock_line i = record { variant_id = i.variant_id; quantity = i.quantity }

abbrev pub stock_lines : List OrderItem → List StockLine
stock_lines items = map stock_line items
