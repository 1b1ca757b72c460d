-- ===== src/Orders/Cancellation.antt =====
-- backend/src/modules/orders/order-cancellation.service.ts: the transactions of
-- `OrderCancellationService`, and those of the methods of
-- backend/src/modules/orders/admin/admin-orders.service.ts that change an order. A transaction that
-- throws leaves the tables as they were: its result is the exception alone.
use e_commerce_titulo_interm.Common.{
  ℕ, Bool, true, false, Option, none, some, not, ◌==◌, if◌then◌else◌, is_some, Result, ok, err,
  ◌>>=◌, ◌>>◌, throw_if,
}
use Prim.Native.String.{String}
use e_commerce_titulo_interm.Errors.{
  ServiceError, invalid_transition, order_not_found, order_status_changed, order_not_cancellable,
  cancel_window_expired, tracking_not_editable,
}
use e_commerce_titulo_interm.Orders.Status.{
  OrderStatus, despachado, cancelado, OrderCancellationCause, cliente, administrador, same_status,
  includes,
}
use e_commerce_titulo_interm.Orders.Policies
use e_commerce_titulo_interm.Orders.Policies.{
  ActionAvailability, allowed, denied, Denial, customer_cancellation, admin_transitions,
  admin_non_cancellable_statuses, tracking_editable_statuses,
}
use e_commerce_titulo_interm.Payments.Status.{RefundOrigin, cu_14, cu_19}
use e_commerce_titulo_interm.Payments.Ledger.{request_refund}
use e_commerce_titulo_interm.Entities.{
  Text, typed, order_cancellation, refund_not_registered, cancelled_by_customer, Order, Refund, Db,
  find_order, update_order,
}
use e_commerce_titulo_interm.Orders.Lifecycle.{
  change_status, return_stock_on_cancel, append_internal_note,
}

-- `CancellationEffects`
pub record CancellationEffects : Type 0 where
  pub refund_requested : Bool
  pub refund_id : Option ℕ
  pub previous_status : OrderStatus

-- `{ actorId, cause, reason, refundOrigin }`
pub record CancelOpts : Type 0 where
  pub actor_id : Option ℕ
  pub cause : OrderCancellationCause
  pub reason : Text
  pub refund_origin : RefundOrigin

-- The end of step 7: a refund that could not be registered leaves a note.
abbrev pub settle_refund :
    OrderStatus → Order → Option Refund × Db → CancellationEffects × Order × Db
settle_refund previous order (some refund, db) = (
  record { refund_requested = true; refund_id = some refund.id; previous_status = previous },
  order,
  db,
)
settle_refund previous order (none, db) = (
  record { refund_requested = false; refund_id = none; previous_status = previous },
  order,
  append_internal_note order.id refund_not_registered none db,
)

-- Step 7: the refund of an order whose payment was accredited.
unfoldable pub refund_cancelled :
    OrderStatus → CancelOpts → Order → Db → CancellationEffects × Order × Db
unfolding request_refund append_internal_note
refund_cancelled previous opts order db =
    if is_some order.paid_at
    then settle_refund previous order (
        request_refund
          (record {
            order_id = order.id;
            amount = if same_status previous despachado then order.subtotal else order.total;
            origin_cu = opts.refund_origin;
            reason = order_cancellation order.order_number opts.reason;
            payment_id = none;
          })
          db)
    else (
      record { refund_requested = false; refund_id = none; previous_status = previous },
      order,
      db,
    )

-- Step 6: the stock of a dispatched order does not come back by itself.
abbrev pub return_stock_unless : Bool → Option ℕ → Order × Db → Result ServiceError (Order × Db)
return_stock_unless true actor_id (order, db) = ok (order, db)
return_stock_unless false actor_id (order, db) = return_stock_on_cancel order actor_id db

-- `applyCancellation`
unfoldable pub apply_cancellation :
    ℕ → Order → CancelOpts → Db → Result ServiceError (CancellationEffects × Order × Db)
unfolding change_status return_stock_on_cancel refund_cancelled
apply_cancellation now order opts db = do
  changed ←
      change_status now order cancelado
        (record {
          actor_id = opts.actor_id;
          reason = some opts.reason;
          cancellation_cause = some opts.cause;
        })
        db
  returned ← return_stock_unless (same_status order.status despachado) opts.actor_id changed
  ok (refund_cancelled order.status opts returned.0 returned.1)

-- `input.reason?.trim() || 'Cancelado por el Cliente'`, of the trimmed reason.
abbrev pub customer_reason : Option String → Text
customer_reason none = cancelled_by_customer
customer_reason (some reason) = typed reason

abbrev pub check_available : ActionAvailability → Result ServiceError (Unit {0})
check_available (allowed deadline) = ok tt
check_available (denied Policies.cancel_window_expired) = err cancel_window_expired
check_available (denied reason) = err order_not_cancellable

-- The transaction of `cancelByCustomer`. `reason` is none where the trimmed text is empty.
unfoldable pub customer_cancel_transaction :
    ℕ
    → ℕ
    → ℕ
    → OrderStatus
    → Option String
    → Db
    → Result ServiceError (CancellationEffects × Order × Db)
unfolding customer_cancellation apply_cancellation
customer_cancel_transaction now user_id order_id expected reason db =
    elim (find_order order_id db.orders) [
      | none ↦ err order_not_found
      | some order ↦ do
        throw_if (not (order.user_id == user_id)) order_not_found
        throw_if (not (same_status order.status expected)) (order_status_changed order.status)
        check_available (customer_cancellation order now)
        apply_cancellation now order
            (record {
              actor_id = some user_id;
              cause = cliente;
              reason = customer_reason reason;
              refund_origin = cu_14;
            })
            db
    ]

-- The transaction of `AdminOrdersService.cancel`.
unfoldable pub admin_cancel_transaction :
    ℕ → ℕ → ℕ → OrderStatus → Text → Db → Result ServiceError (CancellationEffects × Order × Db)
unfolding apply_cancellation
admin_cancel_transaction now admin_id order_id expected reason db =
    elim (find_order order_id db.orders) [
      | none ↦ err order_not_found
      | some order ↦ do
        throw_if (not (same_status order.status expected)) (order_status_changed order.status)
        throw_if (includes admin_non_cancellable_statuses order.status) order_not_cancellable
        apply_cancellation now order
            (record {
              actor_id = some admin_id;
              cause = administrador;
              reason = reason;
              refund_origin = cu_19;
            })
            db
    ]

-- `TrackingDto`, its texts trimmed and none where empty.
pub record Tracking : Type 0 where
  pub carrier : Option String
  pub number : Option String
  pub dispatched_at : Option ℕ

abbrev pub with_tracking : Tracking → Order → Order
with_tracking tracking order = record order {
  tracking_carrier = tracking.carrier;
  tracking_number = tracking.number;
  dispatched_at = tracking.dispatched_at;
}

-- `applyTracking`
unfoldable pub apply_tracking : Tracking → Order → Db → Order × Db
apply_tracking tracking order db =
    (with_tracking tracking order, update_order order.id (with_tracking tracking) db)

abbrev pub track_dispatch : Bool → Option Tracking → Order → Db → Order × Db
track_dispatch true (some tracking) order db = apply_tracking tracking order db
track_dispatch to_dispatched tracking order db = (order, db)

-- The transaction of `AdminOrdersService.changeStatus`.
unfoldable pub admin_change_status :
    ℕ
    → ℕ
    → ℕ
    → OrderStatus
    → OrderStatus
    → Option Tracking
    → Option Text
    → Db
    → Result ServiceError (Order × Db)
unfolding change_status apply_tracking
admin_change_status now admin_id order_id expected target tracking note db =
    elim (find_order order_id db.orders) [
      | none ↦ err order_not_found
      | some order ↦ do
        throw_if (not (same_status order.status expected)) (order_status_changed order.status)
        throw_if (not (includes (admin_transitions order.status) target))
            (invalid_transition order.status target)
        let tracked = track_dispatch (same_status target despachado) tracking order db
        change_status now tracked.0 target
            (record { actor_id = some admin_id; reason = note; cancellation_cause = none })
            tracked.1
    ]

-- `updateTracking`
unfoldable pub update_tracking : ℕ → Tracking → Db → Result ServiceError Db
unfolding apply_tracking
update_tracking order_id tracking db = elim (find_order order_id db.orders) [
  | none ↦ err order_not_found
  | some order ↦ do
    throw_if (not (includes tracking_editable_statuses order.status)) tracking_not_editable
    ok ((apply_tracking tracking order db).1)
]

-- `addNote`
unfoldable pub add_note : ℕ → ℕ → String → Db → Result ServiceError Db
unfolding append_internal_note
add_note admin_id order_id text db = elim (find_order order_id db.orders) [
  | none ↦ err order_not_found
  | some order ↦ ok (append_internal_note order.id (typed text) (some admin_id) db)
]
