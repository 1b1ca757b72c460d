-- ===== src/Tests/Data.antt =====
-- A small shop: two variants, an order that waits for its payment, one that is paid and one that
-- the customer cancelled.
use e_commerce_titulo_interm.Common.{ℕ, Bool, true, false, Option, none, some, List, [], ◌∷◌, pos}
use e_commerce_titulo_interm.Stock.Rows.{ProductVariant, Stock, sale}
use e_commerce_titulo_interm.Stock.Reservation.{StockLine, MovementOpts}
use e_commerce_titulo_interm.Orders.Status.{
  OrderStatus, OrderCancellationCause, pendiente_pago, pagado, cancelado, cliente,
}
use e_commerce_titulo_interm.Payments.Status.{aprobado}
use e_commerce_titulo_interm.Entities.{
  ShippingMethodSnapshot, ShippingAddressSnapshot, domicilio, OrderItem, Order, Payment, Db,
}

abbrev pub variant_1 : ProductVariant
variant_1 = record {
  id = 1;
  product_id = 1;
  is_active = true;
  stock_total = pos 10;
  stock_reserved = pos 2;
}

abbrev pub variant_2 : ProductVariant
variant_2 = record {
  id = 2;
  product_id = 1;
  is_active = true;
  stock_total = pos 5;
  stock_reserved = pos 0;
}

abbrev pub shop : Stock
shop = record { variants = variant_1 ∷ variant_2 ∷ []; movements = [] }

abbrev pub line : ℕ → ℕ → StockLine
line variant_id quantity = record { variant_id = variant_id; quantity = quantity }

-- Lines that fit in what is available, and lines of which the second asks for too much.
abbrev pub small_lines : List StockLine
small_lines = line 2 3 ∷ line 1 2 ∷ []

abbrev pub large_lines : List StockLine
large_lines = line 2 9 ∷ line 1 2 ∷ []

abbrev pub movement_opts : MovementOpts
movement_opts = record { reason = sale 7; actor_id = some 1 }

abbrev item : Bool → OrderItem
item committed = record {
  id = 70;
  product_id = 1;
  variant_id = 1;
  product_name_snapshot = "remera";
  quantity = 2;
  unit_price_snapshot = 500;
  subtotal = 1000;
  stock_committed = committed;
}

abbrev home_delivery : ShippingMethodSnapshot
home_delivery = record {
  id = 40;
  name = "correo";
  cost = 200;
  kind = some domicilio;
  description = none;
}

abbrev shipped_to : ShippingAddressSnapshot
shipped_to = record {
  alias = "casa";
  street = "San Martin";
  number = "120";
  floor_apt = none;
  city = "Rosario";
  province = "Santa Fe";
  postal_code = "2000";
  phone = "3415550000";
  notes = none;
}

abbrev order_of :
    ℕ → OrderStatus → Bool → Option ℕ → Option OrderCancellationCause → OrderItem → Order
order_of id status active paid_at cause bought = record {
  id = id;
  order_number = id;
  user_id = 3;
  cart_id = none;
  status = status;
  subtotal = 1000;
  shipping_cost = 200;
  total = 1200;
  shipping_method_snapshot = home_delivery;
  shipping_address_snapshot = shipped_to;
  cancellation_cause = cause;
  stock_reservation_active = active;
  reservation_expires_at = 1800000;
  payment_preference_id = none;
  tracking_carrier = none;
  tracking_number = none;
  dispatched_at = none;
  paid_at = paid_at;
  delivered_at = none;
  items = bought ∷ [];
}

abbrev pub waiting_order : Order
waiting_order = order_of 7 pendiente_pago true none none (item false)

abbrev pub paid_order : Order
paid_order = order_of 8 pagado false (some 5000) none (item true)

abbrev pub cancelled_order_9 : Order
cancelled_order_9 = order_of 9 cancelado false none (some cliente) (item false)

abbrev pub payment_80 : Payment
payment_80 = record {
  id = 80;
  order_id = 8;
  external_payment_id = 800;
  status = aprobado;
  amount = 1200;
  processed_at = 5000;
}

abbrev pub tables : Db
tables = record {
  stock = shop;
  orders = waiting_order ∷ paid_order ∷ cancelled_order_9 ∷ [];
  history = [];
  notes = [];
  payments = payment_80 ∷ [];
  refunds = [];
  next_id = 100;
}
