-- ===== src/Errors.antt =====
-- The exceptions that the services of the backend throw, one constructor for each `throw`.
use e_commerce_titulo_interm.Common.{ℕ, ℤ, List}
use Prim.Native.String.{String}
use e_commerce_titulo_interm.Orders.Status.{OrderStatus}

-- orders/checkout.service.ts: `CheckoutProblem`
pub data CheckoutProblem : Type 0 where
  product_unavailable product_short : String → CheckoutProblem
  price_changed : String → ℕ → ℕ → CheckoutProblem
  total_changed : ℕ → ℕ → CheckoutProblem

pub data ServiceError : Type 0 where
  -- `findOneOrFail` of the object mapper
  entity_not_found : ServiceError
  -- products/stock/stock.service.ts
  variant_not_found product_not_found product_removed variant_removed : ServiceError
  total_below_reserved : ℤ → ℤ → ServiceError
  -- orders/orders.service.ts
  invalid_transition : OrderStatus → OrderStatus → ServiceError
  missing_cancellation_cause : ServiceError
  -- orders/order-cancellation.service.ts, orders/admin/admin-orders.service.ts
  order_not_found : ServiceError
  order_status_changed : OrderStatus → ServiceError
  order_not_cancellable cancel_window_expired : ServiceError
  tracking_not_editable : ServiceError
  -- payments/refunds/refunds.service.ts
  refund_not_found refund_not_retryable refund_exceeds_balance : ServiceError
  -- users/addresses.service.ts
  address_not_found new_default_missing new_default_not_found : ServiceError
  -- a read of a field of a row that a relation did not load
  null_relation : ServiceError
  -- cart/cart.service.ts
  item_unavailable cart_is_ordered item_not_in_cart : ServiceError
  insufficient_stock : ℤ → ServiceError
  -- orders/checkout.service.ts
  user_not_found invalid_address shipping_method_not_found empty_cart : ServiceError
  payment_gateway_failed payment_not_started order_changed_meanwhile : ServiceError
  payment_retry_not_allowed order_expired : ServiceError
  checkout_stale payment_retry_stale : List CheckoutProblem → ServiceError
  -- orders/returns/returns.service.ts
  repeated_item too_many_photos no_eligible_items : ServiceError
  order_not_delivered return_window_expired : ServiceError
  item_not_in_order more_than_bought already_requested : ServiceError
  -- orders/admin/admin-returns.service.ts
  request_not_found return_status_changed items_do_not_match : ServiceError
  approved_too_many nothing_approved missing_rejection_reason : ServiceError
  -- auth/login-throttle/login-throttle.service.ts, auth/auth.service.ts
  account_locked ip_locked invalid_credentials unverified_account unavailable_account : ServiceError
