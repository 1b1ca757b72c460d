-- ===== src/Tests/OrderCases.antt =====
-- The theorems on the orders, at the small shop.
use e_commerce_titulo_interm.Common.{
  ℕ, none, true, false, some, ◌≡◌, ◌↔◌, inl, refl, arith, Returns, All, Result, err, false≢true,
  ◌⊎◌, ◌<◌,
}
use e_commerce_titulo_interm.Stock.Rows.{row}
use e_commerce_titulo_interm.Stock.Availability.{IsPositive}
use e_commerce_titulo_interm.Orders.Status.{
  pendiente_pago, pago_rechazado, en_preparacion, cancelado, devuelto, cliente, can_transition,
  includes,
}
use e_commerce_titulo_interm.Payments.Status.{aprobado, cu_14}
use e_commerce_titulo_interm.Entities.{Order, Refund, Db, find_order, stock_lines, typed}
use e_commerce_titulo_interm.Orders.Lifecycle.{apply_payment_outcome}
use e_commerce_titulo_interm.Orders.Expiry.{expire_reservations}
use e_commerce_titulo_interm.Orders.Cancellation.{
  CancellationEffects, CancelOpts, apply_cancellation,
}
use e_commerce_titulo_interm.Orders.Policies.{
  allowed, customer_cancellation, payment_retry, return_window, admin_transitions,
  admin_non_cancellable_statuses,
}
use e_commerce_titulo_interm.Orders.PolicyLaws.{
  IsAllowed, IsWithin, IsInHouse, IsDeliveredWithin, policies_iff, policies_can_transition,
}
use e_commerce_titulo_interm.Orders.Outcomes.{IsOutcome, apply_payment_outcome-IsOutcome}
use e_commerce_titulo_interm.Orders.Booking.Defs.{IsAccounted, IsBooked}
use e_commerce_titulo_interm.Orders.Booking.Orderly.{IsOrderly, IsBookedResult}
use e_commerce_titulo_interm.Orders.Booking.Payments.{apply_payment_outcome-IsBooked}
use e_commerce_titulo_interm.Orders.Booking.Expiring.{expire_reservations-IsAccounted}
use e_commerce_titulo_interm.Orders.Booking.Cancelling.{
  IsStocked, IsCancellation, apply_cancellation-IsBooked,
}
use e_commerce_titulo_interm.Tests.StockCases.{shop-IsSound}
use e_commerce_titulo_interm.Orders.Booking.Requests.{
  cancel_by_customer-IsBooked, admin_cancel-IsBooked,
}
use e_commerce_titulo_interm.Orders.Status.{administrador}
use e_commerce_titulo_interm.Orders.AfterCancellation.{cancel_by_customer, admin_cancel}
use e_commerce_titulo_interm.Orders.Booking.Aftermath.{IsCancelledRow}
use e_commerce_titulo_interm.Payments.Refunds.{RefundAnswer, refused}
use e_commerce_titulo_interm.Errors.{ServiceError, user_not_found}
use e_commerce_titulo_interm.Tests.Data.{waiting_order, paid_order, cancelled_order_9, tables}

pub tables-IsAccounted : IsAccounted tables
unfolding row
tables-IsAccounted = record { sound = shop-IsSound; reserved = λ j. ground arith }

waiting-IsBooked : IsBooked (waiting_order, tables)
unfolding find_order
waiting-IsBooked = record { accounted = tables-IsAccounted; locked = refl }

paid-IsBooked : IsBooked (paid_order, tables)
unfolding find_order
paid-IsBooked = record { accounted = tables-IsAccounted; locked = refl }

pub waiting-IsOrderly : IsOrderly waiting_order
waiting-IsOrderly active = inl refl

pub waiting-IsPositive : All IsPositive (stock_lines waiting_order.items)
waiting-IsPositive = ground arith

paid-IsStocked : IsStocked paid_order tables
unfolding row
paid-IsStocked = ground arith

apply_payment_outcome-IsBooked_example :
    Returns IsBookedResult (apply_payment_outcome 6000 waiting_order aprobado 81 tables)
apply_payment_outcome-IsBooked_example =
    apply_payment_outcome-IsBooked 6000 waiting_order aprobado 81 tables waiting-IsBooked
      waiting-IsOrderly waiting-IsPositive

abbrev cancel_opts : CancelOpts
cancel_opts = record {
  actor_id = some 3;
  cause = cliente;
  reason = typed "me arrepentí";
  refund_origin = cu_14;
}

apply_cancellation-IsBooked_example :
    Returns
      (IsCancellation paid_order.status cliente)
      (apply_cancellation 6000 paid_order cancel_opts tables)
apply_cancellation-IsBooked_example =
    apply_cancellation-IsBooked 6000 paid_order cancel_opts tables paid-IsBooked paid-IsStocked
      (unfold can_transition in refl)

expire_reservations-IsAccounted_example :
    Returns (λ (r : ℕ × Db). IsAccounted r.1) (expire_reservations 2000000 tables)
expire_reservations-IsAccounted_example =
    expire_reservations-IsAccounted 2000000 tables tables-IsAccounted

cancelled-IsBooked : IsBooked (cancelled_order_9, tables)
unfolding find_order
cancelled-IsBooked = record { accounted = tables-IsAccounted; locked = refl }

cancelled-IsOrderly : IsOrderly cancelled_order_9
cancelled-IsOrderly active = absurd (false≢true active)

cancelled-IsPositive : All IsPositive (stock_lines cancelled_order_9.items)
cancelled-IsPositive = ground arith

apply_payment_outcome-IsOutcome_example :
    Returns
      (IsOutcome 6000 cancelled_order_9 tables aprobado)
      (apply_payment_outcome 6000 cancelled_order_9 aprobado 81 tables)
apply_payment_outcome-IsOutcome_example =
    apply_payment_outcome-IsOutcome 6000 cancelled_order_9 aprobado 81 tables cancelled-IsBooked
      cancelled-IsOrderly cancelled-IsPositive

policies_iff_example :
    (IsAllowed (customer_cancellation paid_order 6000)
      ↔ (IsInHouse paid_order.status × IsWithin 6000 paid_order.paid_at 86_400_000))
    × (IsAllowed (payment_retry paid_order 6000) ↔ (
        ((paid_order.status ≡ pendiente_pago) ⊎ (paid_order.status ≡ pago_rechazado))
        × (6000 < paid_order.reservation_expires_at)))
    × (IsAllowed (return_window paid_order 6000)
        ↔ IsDeliveredWithin 6000 paid_order.status paid_order.delivered_at 864_000_000)
policies_iff_example = policies_iff paid_order 6000

policies_can_transition_example :
    (IsAllowed (customer_cancellation waiting_order 6000)
      → can_transition waiting_order.status cancelado ≡ true)
    × (includes admin_non_cancellable_statuses waiting_order.status ≡ false
        → can_transition waiting_order.status cancelado ≡ true)
    × (includes (admin_transitions waiting_order.status) en_preparacion ≡ true
        → can_transition waiting_order.status en_preparacion ≡ true)
    × (IsAllowed (payment_retry waiting_order 6000)
        → (waiting_order.status ≡ pendiente_pago)
          ⊎ (can_transition waiting_order.status pendiente_pago ≡ true))
    × (IsAllowed (return_window waiting_order 6000)
        → can_transition waiting_order.status devuelto ≡ true)
policies_can_transition_example = policies_can_transition waiting_order 6000 en_preparacion

find_paid : find_order 8 tables.orders ≡ some paid_order
unfolding find_order
find_paid = refl

paid_order_cancellable : customer_cancellation paid_order 6000 ≡ allowed (some 86_405_000)
unfolding customer_cancellation
paid_order_cancellable = refl

-- A gateway that refuses every refund, and a notice that cannot be sent.
abbrev refusing : Refund → ℕ → RefundAnswer
refusing refund attempt = refused "sin saldo"

abbrev no_notice : Order → CancellationEffects → Result ServiceError (Unit {0})
no_notice order effects = err user_not_found

cancel_by_customer-IsBooked_example :
    Returns
      (IsCancelledRow 8 cliente)
      (cancel_by_customer refusing 2 no_notice 6000 3 8 paid_order.status none tables)
cancel_by_customer-IsBooked_example =
    cancel_by_customer-IsBooked refusing 2 no_notice 6000 3 8 none paid_order tables
      tables-IsAccounted find_paid refl paid_order_cancellable paid-IsStocked

admin_cancel-IsBooked_example :
    Returns
      (IsCancelledRow 8 administrador)
      (admin_cancel refusing 2 no_notice 6000 1 8 paid_order.status (typed "sin stock") tables)
admin_cancel-IsBooked_example =
    admin_cancel-IsBooked refusing 2 no_notice 6000 1 8 (typed "sin stock") paid_order tables
      tables-IsAccounted find_paid refl paid-IsStocked
