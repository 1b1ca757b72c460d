-- ===== src/Orders/Lifecycle.antt =====
-- backend/src/modules/orders/orders.service.ts: `OrdersService`. The order that a transaction has
-- locked is a value beside the tables: a method returns it with the tables it has written.
use e_commerce_titulo_interm.Common.{
  ℕ, Bool, true, false, Option, none, some, List, [], ◌∷◌, ◌&&◌, not, ◌==◌, any, keep, map,
  if◌then◌else◌, is_some, Result, ok, ◌>>=◌, ◌>>◌, throw_if,
}
use e_commerce_titulo_interm.Errors.{ServiceError, invalid_transition, missing_cancellation_cause}
use e_commerce_titulo_interm.Orders.Status.{
  OrderStatus, pendiente_pago, pago_pendiente_acreditacion, pago_rechazado, pagado, entregado,
  cancelado, OrderCancellationCause, reserva_vencida, cliente, administrador, same_status, includes,
  can_transition, paid_statuses,
}
use e_commerce_titulo_interm.Payments.Status.{
  PaymentOutcome, aprobado, rechazado, pendiente, RefundOrigin, cu_05, cu_14, cu_19,
}
use e_commerce_titulo_interm.Stock.Rows.{sale, cancelled_order}
use e_commerce_titulo_interm.Stock.Reservation.{
  StockLine, reserved_all, short_of, release, reserve, confirm_sale, restock_cancelled_sale,
}
use e_commerce_titulo_interm.Entities.{
  Text, payment_approved, payment_approved_late, payment_rejected, payment_pending, shortage,
  not_reserved_again, double_charge, rejected_on_paid, paid_cancelled, OrderItem, Order, Db,
  update_order, mark_committed, stock_lines,
}

-- The options of `changeStatus` and `recordHistory`.
pub record ChangeOpts : Type 0 where
  pub actor_id : Option ℕ
  pub reason : Option Text
  pub cancellation_cause : Option OrderCancellationCause

-- An automatic change, with its reason.
abbrev pub because : Text → ChangeOpts
because text = record { actor_id = none; reason = some text; cancellation_cause = none }

-- `recordHistory`
unfoldable pub record_history : ℕ → Option OrderStatus → OrderStatus → ChangeOpts → Db → Db
record_history order_id source target opts db = record db {
  history =
      record {
        order_id = order_id;
        from_status = source;
        to_status = target;
        actor_id = opts.actor_id;
        reason = opts.reason;
      }
      ∷ db.history;
}

-- The columns that `changeStatus` assigns.
unfoldable pub with_status : ℕ → OrderStatus → Option OrderCancellationCause → Order → Order
with_status now target cause order = record order {
  status = target;
  cancellation_cause = if same_status target cancelado then cause else none;
  paid_at = if same_status target pagado then some now else order.paid_at;
  delivered_at = if same_status target entregado then some now else order.delivered_at;
}

-- The columns that the UPDATE of `changeStatus` writes to the row.
abbrev pub write_status : Order → Order → Order
write_status changed row = record row {
  status = changed.status;
  cancellation_cause = changed.cancellation_cause;
  paid_at = changed.paid_at;
  delivered_at = changed.delivered_at;
}

-- `changeStatus`. The row gets the four columns of the order, as they are after the assignments.
unfoldable pub change_status :
    ℕ → Order → OrderStatus → ChangeOpts → Db → Result ServiceError (Order × Db)
unfolding can_transition with_status record_history
change_status now order target opts db = do
  throw_if (not (can_transition order.status target)) (invalid_transition order.status target)
  throw_if (same_status target cancelado && not (is_some opts.cancellation_cause))
      missing_cancellation_cause
  let changed = with_status now target opts.cancellation_cause order
  let written = update_order order.id (write_status changed) db
  ok (changed, record_history order.id (some order.status) target opts written)

-- `order.stockReservationActive = active`, in memory and in the row.
abbrev pub set_reservation : Bool → Order → Order
set_reservation active order = record order { stock_reservation_active = active }

-- `releaseReservation`
unfoldable pub release_reservation : Order → Db → Order × Db
release_reservation order db =
    if order.stock_reservation_active
    then (
      set_reservation false order,
      update_order order.id (set_reservation false)
          (record db { stock = release (stock_lines order.items) db.stock }),
    )
    else (order, db)

-- `order.items.filter((item) => item.stockCommitted)`
abbrev pub committed_items : List OrderItem → List OrderItem
committed_items items = keep (λ i. i.stock_committed) items

-- The assignments of `stockCommitted` to some items of an order, in memory and in the rows.
abbrev pub set_committed : List OrderItem → Bool → Order → Order
set_committed chosen committed order = record order {
  items = mark_committed (map (λ i. i.id) chosen) committed order.items;
}

abbrev pub restock_committed :
    Order → Option ℕ → List OrderItem → Db → Result ServiceError (Order × Db)
restock_committed order actor_id [] db = ok (order, db)
restock_committed order actor_id (i ∷ is) db = do
  stock ←
      restock_cancelled_sale (stock_lines (i ∷ is))
        (record { reason = cancelled_order order.order_number; actor_id = actor_id }) db.stock
  ok (
    set_committed (i ∷ is) false order,
    update_order order.id (set_committed (i ∷ is) false) (record db { stock = stock }),
  )

-- `returnStockOnCancel`
unfoldable pub return_stock_on_cancel : Order → Option ℕ → Db → Result ServiceError (Order × Db)
unfolding release_reservation
return_stock_on_cancel order actor_id db =
    let (released, written) = release_reservation order db in
    restock_committed released actor_id (committed_items released.items) written

-- `appendInternalNote`
unfoldable pub append_internal_note : ℕ → Text → Option ℕ → Db → Db
append_internal_note order_id text author_id db = record db {
  notes = record { order_id = order_id; author_id = author_id; text = text } ∷ db.notes;
}

-- `ApplyPaymentResult`
pub record ApplyPaymentResult : Type 0 where
  pub changed : Bool
  pub discrepancy : Option Text
  pub refund_origin : Option RefundOrigin
  pub shortages : List StockLine

-- `{ changed }`, with nothing to review.
abbrev pub applied : Bool → ApplyPaymentResult
applied changed = record {
  changed = changed;
  discrepancy = none;
  refund_origin = none;
  shortages = [];
}

-- What a payment that is not applied leaves for review.
abbrev pub not_applied : Text → Option RefundOrigin → ApplyPaymentResult
not_applied text origin = record {
  changed = false;
  discrepancy = some text;
  refund_origin = origin;
  shortages = [];
}

-- The origin of the automatic refund of a payment on an order that was cancelled on purpose.
abbrev pub late_refund_origin : Option OrderCancellationCause → RefundOrigin
late_refund_origin (some cliente) = cu_14
late_refund_origin (some administrador) = cu_19
late_refund_origin cause = cu_05

-- `order.cancellationCause !== OrderCancellationCause.RESERVA_VENCIDA`
abbrev pub is_expired_cause : Option OrderCancellationCause → Bool
is_expired_cause (some reserva_vencida) = true
is_expired_cause cause = false

-- `!shortages.some((s) => s.variantId === item.variantId)`
abbrev pub is_covered : List StockLine → OrderItem → Bool
is_covered shortages i = not (any (λ s. s.variant_id == i.variant_id) shortages)

abbrev pub note_shortages : Order → List StockLine → Db → Db
note_shortages order [] db = db
note_shortages order (s ∷ ss) db = append_internal_note order.id (shortage (s ∷ ss)) none db

-- What the firm sale leaves of the order: no reservation, and its covered items committed.
abbrev pub sold : List StockLine → Order → Order
sold shortages order =
    set_committed (keep (is_covered shortages) order.items) true (set_reservation false order)

-- The end of the case `aprobado`: the firm sale, its marks, the note and the change of status.
unfoldable pub confirm_payment :
    ℕ → Order → ℕ → Db → Result ServiceError (ApplyPaymentResult × Order × Db)
unfolding change_status append_internal_note
confirm_payment now order payment_id db = do
  (shortages, stock) ←
      confirm_sale (stock_lines order.items) order.stock_reservation_active (sale order.id) db.stock
  let written = update_order order.id (sold shortages) (record db { stock = stock })
  (changed, done) ←
      change_status now (sold shortages order) pagado
        (because (
          if same_status order.status cancelado
          then payment_approved_late payment_id
          else payment_approved payment_id))
        (note_shortages order shortages written)
  ok (record (applied true) { shortages = shortages }, changed, done)

unfoldable pub apply_approved :
    ℕ → Order → ℕ → Db → Result ServiceError (ApplyPaymentResult × Order × Db)
unfolding confirm_payment
apply_approved now order payment_id db =
    if includes paid_statuses order.status
    then ok (not_applied (double_charge payment_id order.status) (some cu_05), order, db)
    else if same_status order.status cancelado && not (is_expired_cause order.cancellation_cause)
    then ok (
      not_applied (paid_cancelled payment_id order.cancellation_cause)
          (some (late_refund_origin order.cancellation_cause)),
      order,
      db,
    )
    else confirm_payment now order payment_id db

unfoldable pub apply_rejected :
    ℕ → Order → ℕ → Db → Result ServiceError (ApplyPaymentResult × Order × Db)
unfolding change_status release_reservation
apply_rejected now order payment_id db =
    if includes paid_statuses order.status
    then ok (not_applied (rejected_on_paid payment_id order.status) none, order, db)
    else if not (same_status order.status pendiente_pago)
        && not (same_status order.status pago_pendiente_acreditacion)
    then ok (applied false, order, db)
    else let (released, written) = release_reservation order db in
      change_status now released pago_rechazado (because (payment_rejected payment_id)) written
      >>= λ done. ok (applied true, done.0, done.1)

-- The new reservation of an order whose payment had been rejected.
unfoldable pub reserve_again : Order → ℕ → Db → Order × Db
unfolding append_internal_note
reserve_again order payment_id db =
    let (result, stock) = reserve (stock_lines order.items) db.stock in
    elim result [
      | reserved_all ↦ (
        set_reservation true order,
        update_order order.id (set_reservation true) (record db { stock = stock }),
      )
      | short_of id ↦ (
        order,
        append_internal_note order.id (not_reserved_again payment_id) none
            (record db { stock = stock }),
      )
    ]

abbrev pub pend : ℕ → ℕ → Order × Db → Result ServiceError (ApplyPaymentResult × Order × Db)
pend now payment_id (order, db) =
    change_status now order pago_pendiente_acreditacion (because (payment_pending payment_id)) db
    >>= λ done. ok (applied true, done.0, done.1)

unfoldable pub apply_pending :
    ℕ → Order → ℕ → Db → Result ServiceError (ApplyPaymentResult × Order × Db)
unfolding change_status reserve_again
apply_pending now order payment_id db =
    if same_status order.status pago_rechazado
    then pend now payment_id (reserve_again order payment_id db)
    else if not (same_status order.status pendiente_pago)
    then ok (applied false, order, db)
    else pend now payment_id (order, db)

-- `applyPaymentOutcome`
unfoldable pub apply_payment_outcome :
    ℕ → Order → PaymentOutcome → ℕ → Db → Result ServiceError (ApplyPaymentResult × Order × Db)
unfolding apply_approved apply_rejected apply_pending
apply_payment_outcome now order aprobado payment_id db = apply_approved now order payment_id db
apply_payment_outcome now order rechazado payment_id db = apply_rejected now order payment_id db
apply_payment_outcome now order pendiente payment_id db = apply_pending now order payment_id db
