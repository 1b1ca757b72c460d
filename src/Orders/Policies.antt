-- ===== src/Orders/Policies.antt =====
-- backend/src/modules/orders/order-policies.ts: what a customer and the administrator may do with
-- an order now. Dates are milliseconds; `order` gives the four fields of `OrderLike`.
use e_commerce_titulo_interm.Common.{
  ℕ, Bool, Option, none, some, List, [], ◌∷◌, ◌+◌, ◌*◌, ◌||◌, not, leb, is_some, if◌then◌else◌,
}
use e_commerce_titulo_interm.Orders.Status.{
  OrderStatus, pendiente_pago, pago_pendiente_acreditacion, pago_rechazado, pagado, en_preparacion,
  despachado, entregado, cancelado, devuelto, same_status, includes, awaiting_payment_statuses,
  paid_statuses,
}
use e_commerce_titulo_interm.Entities.{Order}

-- `CUSTOMER_CANCEL_WINDOW_HOURS`, `RETURN_WINDOW_DAYS`, `RETURN_RECEPTION_DAYS`
abbrev pub customer_cancel_window_hours : ℕ
customer_cancel_window_hours = 24

abbrev pub return_window_days : ℕ
return_window_days = 10

abbrev pub return_reception_days : ℕ
return_reception_days = 10

-- Hours and days in milliseconds, as the code multiplies them out.
abbrev pub hours_ms : ℕ → ℕ
hours_ms h = h * 60 * 60 * 1000

abbrev pub days_ms : ℕ → ℕ
days_ms d = d * 24 * 60 * 60 * 1000

-- `CUSTOMER_CANCELLABLE_STATUSES`
abbrev pub customer_cancellable_statuses : List OrderStatus
customer_cancellable_statuses =
    pendiente_pago ∷ pago_pendiente_acreditacion ∷ pago_rechazado ∷ pagado ∷ en_preparacion ∷ []

-- `RETRYABLE_PAYMENT_STATUSES`
abbrev pub retryable_payment_statuses : List OrderStatus
retryable_payment_statuses = pendiente_pago ∷ pago_rechazado ∷ []

-- `code`, each with the texts that `message` may be.
pub data Denial : Type 0 where
  -- `true`: the text for an order that was dispatched
  order_not_cancellable : Bool → Denial
  cancel_window_expired payment_retry_not_allowed order_expired : Denial
  -- `true`: the text for an order that was not dispatched yet
  order_not_delivered : Bool → Denial
  return_window_expired : Denial

-- `ActionAvailability`
pub data ActionAvailability : Type 0 where
  allowed : Option ℕ → ActionAvailability
  denied : Denial → ActionAvailability

abbrev pub before_deadline : ℕ → ℕ → Denial → ActionAvailability
before_deadline now deadline late =
    if leb deadline now then denied late else allowed (some deadline)

-- A paid order has 24 hours; one that was never paid has no deadline.
abbrev pub cancel_window : Option ℕ → ℕ → ActionAvailability
cancel_window none now = allowed none
cancel_window (some paid_at) now =
    before_deadline now (paid_at + hours_ms customer_cancel_window_hours) cancel_window_expired

-- `customerCancellation`
unfoldable pub customer_cancellation : Order → ℕ → ActionAvailability
customer_cancellation order now =
    if not (includes customer_cancellable_statuses order.status)
    then denied (
        order_not_cancellable
          (same_status order.status despachado || same_status order.status entregado))
    else cancel_window order.paid_at now

-- `paymentRetry`
unfoldable pub payment_retry : Order → ℕ → ActionAvailability
payment_retry order now =
    if not (includes retryable_payment_statuses order.status)
    then denied payment_retry_not_allowed
    else before_deadline now order.reservation_expires_at order_expired

abbrev pub delivered_window : OrderStatus → Option ℕ → ℕ → ActionAvailability
delivered_window status none now =
    denied (order_not_delivered (includes customer_cancellable_statuses status))
delivered_window status (some delivered_at) now =
    if not (same_status status entregado)
    then denied (order_not_delivered (includes customer_cancellable_statuses status))
    else before_deadline now (delivered_at + days_ms return_window_days) return_window_expired

-- `returnWindow`
unfoldable pub return_window : Order → ℕ → ActionAvailability
return_window order now = delivered_window order.status order.delivered_at now

-- `CustomerPaymentStatus`
pub data CustomerPaymentStatus : Type 0 where
  pendiente aprobado rechazado sin_pago : CustomerPaymentStatus

-- `customerPaymentStatus`
unfoldable pub customer_payment_status : OrderStatus → Option ℕ → CustomerPaymentStatus
customer_payment_status status paid_at =
    if same_status status pago_rechazado
    then rechazado
    else if includes awaiting_payment_statuses status
    then pendiente
    else if includes paid_statuses status || is_some paid_at
    then aprobado
    else sin_pago

-- `ADMIN_TRANSITIONS[status] ?? []`
abbrev pub admin_transitions : OrderStatus → List OrderStatus
admin_transitions pagado = en_preparacion ∷ []
admin_transitions en_preparacion = despachado ∷ []
admin_transitions despachado = entregado ∷ []
admin_transitions status = []

-- `ADMIN_NON_CANCELLABLE_STATUSES`
abbrev pub admin_non_cancellable_statuses : List OrderStatus
admin_non_cancellable_statuses = entregado ∷ cancelado ∷ devuelto ∷ []

-- `TRACKING_EDITABLE_STATUSES`
abbrev pub tracking_editable_statuses : List OrderStatus
tracking_editable_statuses = despachado ∷ entregado ∷ []

-- `receptionDeadline`
unfoldable pub reception_deadline : ℕ → ℕ
reception_deadline approved_at = approved_at + days_ms return_reception_days
