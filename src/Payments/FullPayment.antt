-- ===== src/Payments/FullPayment.antt =====
-- An order is never taken as paid for less than its total
-- (backend/src/modules/payments/payments.service.ts).
use e_commerce_titulo_interm.Common.{
  ℕ, true, false, Option, none, some, ◌≡◌, ◌⊎◌, refl, sym, ap, arith, not, ◌&&◌, Result, ok, ◌>>=◌,
  Returns, All, Option-cases, inl, inr, if-cases, ==_iff, IfOk, IfOk-bind, IfOk-intro, Returns-IfOk,
}
use mathlib.Core.Path.{subst}
use e_commerce_titulo_interm.Errors.{ServiceError}
use e_commerce_titulo_interm.Orders.Status.{
  OrderStatus, includes, paid_statuses, same_status, pago_rechazado, pago_pendiente_acreditacion,
  pendiente_pago,
}
use e_commerce_titulo_interm.Payments.Status.{
  PaymentStatus, PaymentOutcome, aprobado, rechazado, pendiente, is_final,
}
use e_commerce_titulo_interm.Entities.{
  Order, Payment, Db, find_order, stock_lines, payment_rejected, payment_pending,
}
use e_commerce_titulo_interm.Orders.Lifecycle.{
  ChangeOpts, because, change_status, with_status, ApplyPaymentResult, release_reservation,
  reserve_again, pend, apply_rejected, apply_pending, apply_payment_outcome,
}
use e_commerce_titulo_interm.Payments.Processing.{
  GatewayPayment, other_currency, TxResult, find_external, is_repeated, register_payment,
  is_approval, is_mismatch, settle_applied, apply_registered, process_registered,
  process_transaction,
}
use e_commerce_titulo_interm.Stock.Availability.{IsPositive}
use e_commerce_titulo_interm.Orders.Booking.Defs.{IsAccounted}
use e_commerce_titulo_interm.Orders.Booking.Orderly.{IsOrderly}
use e_commerce_titulo_interm.Orders.Booking.Changes.{change_status_ok}
use e_commerce_titulo_interm.Payments.Crediting.{IsBookedTx, process_transaction-IsBooked}

-- The order is not paid.
abbrev pub IsUnpaid : Order → Type 0
IsUnpaid order = includes paid_statuses order.status ≡ false

change_status-IfOk :
    (now : ℕ) (order : Order) (target : OrderStatus) (opts : ChangeOpts) (db : Db)
    → IfOk (λ (r : Order × Db). r.0.status ≡ target) (change_status now order target opts db)
unfolding with_status
change_status-IfOk now order target opts db =
    IfOk-intro (λ (r : Order × Db). r.0.status ≡ target) (change_status now order target opts db)
      (λ r e. ap (λ (x : Order × Db). x.0.status) (change_status_ok now order target opts db e))

-- Of what `applyPaymentOutcome` returns.
abbrev IsUnpaidResult : ApplyPaymentResult × Order × Db → Type 0
IsUnpaidResult r = IsUnpaid r.1

IsUnpaid-status :
    {s : OrderStatus} (o : Order) → o.status ≡ s → includes paid_statuses s ≡ false → IsUnpaid o
IsUnpaid-status o e h = subst (λ x. includes paid_statuses x ≡ false) (sym e) h

apply_rejected-IsUnpaid :
    (now : ℕ) (order : Order) (payment_id : ℕ) (db : Db)
    → IsUnpaid order
    → IfOk IsUnpaidResult (apply_rejected now order payment_id db)
unfolding apply_rejected
apply_rejected-IsUnpaid now order payment_id db unpaid =
    let (released, written) = release_reservation order db in
    if-cases (IfOk IsUnpaidResult) (includes paid_statuses order.status) (λ paid. unpaid)
      (λ open_order.
        if-cases (IfOk IsUnpaidResult)
          (not (same_status order.status pendiente_pago)
            && not (same_status order.status pago_pendiente_acreditacion))
          (λ over. unpaid)
          (λ waiting.
            IfOk-bind (λ (r : Order × Db). r.0.status ≡ pago_rechazado) IsUnpaidResult
              (change_status now released pago_rechazado (because (payment_rejected payment_id))
                written)
              _
              (change_status-IfOk now released pago_rechazado
                (because (payment_rejected payment_id)) written)
              (λ r e. IsUnpaid-status r.0 e refl)))

pend-IsUnpaid :
    (now payment_id : ℕ) (state : Order × Db) → IfOk IsUnpaidResult (pend now payment_id state)
pend-IsUnpaid now payment_id (order, db) =
    IfOk-bind (λ (r : Order × Db). r.0.status ≡ pago_pendiente_acreditacion) IsUnpaidResult
      (change_status now order pago_pendiente_acreditacion (because (payment_pending payment_id))
        db)
      _
      (change_status-IfOk now order pago_pendiente_acreditacion
        (because (payment_pending payment_id)) db)
      (λ r e. IsUnpaid-status r.0 e refl)

apply_pending-IsUnpaid :
    (now : ℕ) (order : Order) (payment_id : ℕ) (db : Db)
    → IsUnpaid order
    → IfOk IsUnpaidResult (apply_pending now order payment_id db)
unfolding apply_pending
apply_pending-IsUnpaid now order payment_id db unpaid =
    if-cases (IfOk IsUnpaidResult) (same_status order.status pago_rechazado)
      (λ again. pend-IsUnpaid now payment_id (reserve_again order payment_id db))
      (λ first.
        if-cases (IfOk IsUnpaidResult) (not (same_status order.status pendiente_pago))
          (λ over. unpaid) (λ waiting. pend-IsUnpaid now payment_id (order, db)))

-- The order is unpaid still, or the payment was an approval of its total.
abbrev pub IsPaidInFull :
    ℕ → PaymentOutcome → GatewayPayment → Order → TxResult × Order × Db → Type 0
IsPaidInFull currency outcome payment order r =
    IsUnpaid r.1
    ⊎ ((is_approval outcome ≡ true)
        × (payment.amount ≡ order.total)
        × (other_currency payment.currency currency ≡ false))

settle_applied-order :
    (saved : Payment) (r : ApplyPaymentResult × Order × Db) → (settle_applied saved r).1 ≡ r.1
unfolding settle_applied
settle_applied-order saved (applied, order, db) = elim (Option-cases applied.discrepancy) [
  | inl e ↦ rw (e, settle_applied) refl
  | inr (text, e) ↦ rw (e, settle_applied) refl
]

module _ (now currency : ℕ) (order : Order) (payment : GatewayPayment)
    (unpaid : IsUnpaid order) where
  not_approved :
      (outcome : PaymentOutcome) (saved : Payment)
      (m : Result ServiceError (ApplyPaymentResult × Order × Db))
      → IfOk IsUnpaidResult m
      → IfOk (IsPaidInFull currency outcome payment order) (m >>= λ r. ok (settle_applied saved r))
  not_approved outcome saved m h =
      IfOk-bind IsUnpaidResult (IsPaidInFull currency outcome payment order) m _ h
        (λ r u. inl (subst IsUnpaid (sym (settle_applied-order saved r)) u))

  apply_registered-IsPaidInFull :
      (outcome : PaymentOutcome) (saved : Payment) (db : Db)
      → IfOk
          (IsPaidInFull currency outcome payment order)
          (apply_registered now currency order payment outcome (saved, db))
  unfolding apply_registered apply_payment_outcome
  apply_registered-IsPaidInFull rechazado saved db =
      not_approved rechazado saved _ (apply_rejected-IsUnpaid now order payment.id db unpaid)
  apply_registered-IsPaidInFull pendiente saved db =
      not_approved pendiente saved _ (apply_pending-IsUnpaid now order payment.id db unpaid)
  apply_registered-IsPaidInFull aprobado saved db =
      if-cases (IfOk (IsPaidInFull currency aprobado payment order))
        (is_mismatch currency order payment aprobado) (λ mismatch. inl unpaid)
        (λ fits. IfOk-intro (IsPaidInFull currency aprobado payment order) _ (λ r e.
          inr
            (refl, ground (arith, fits, ==_iff payment.amount order.total), ground (arith, fits))))

  process_registered-IsPaidInFull :
      (status : PaymentStatus) (outcome : PaymentOutcome) (existing : Option Payment) (db : Db)
      → IfOk
          (IsPaidInFull currency outcome payment order)
          (process_registered now currency order payment (status, outcome) existing db)
  unfolding process_registered
  process_registered-IsPaidInFull status outcome none db =
      let (saved, written) = register_payment now order payment status none db in
      apply_registered-IsPaidInFull outcome saved written
  process_registered-IsPaidInFull status outcome (some existing) db =
      let (saved, written) = register_payment now order payment status (some existing) db in
      if-cases (IfOk (IsPaidInFull currency outcome payment order))
        (is_repeated existing.status status) (λ repeated. inl unpaid)
        (λ moved.
          if-cases (IfOk (IsPaidInFull currency outcome payment order)) (is_final existing.status)
            (λ final. inl unpaid)
            (λ open_payment. apply_registered-IsPaidInFull outcome saved written))

-- If no variant is oversold and the reserved counters are the sum of what the orders hold, and
-- the order of the payment is there, unpaid, with lines of at least one unit and no reservation
-- but in the states pendiente_pago and pago_pendiente_acreditacion, the transaction of
-- processPayment returns and leaves the order unpaid unless the gateway informs an approval of
-- exactly its total, in the currency of the shop or in none that it names.
pub process_transaction-IsPaidInFull :
    (now currency : ℕ) (payment : GatewayPayment) (status : PaymentStatus)
    (outcome : PaymentOutcome) (order : Order) (order_id : ℕ) (db : Db)
    → IsAccounted db
    → find_order order_id db.orders ≡ some order
    → IsOrderly order
    → All IsPositive (stock_lines order.items)
    → IsUnpaid order
    → Returns
        (IsPaidInFull currency outcome payment order)
        (process_transaction now currency payment (status, outcome) order_id db)
unfolding process_transaction
process_transaction-IsPaidInFull now currency payment status outcome order order_id db accounted
      there orderly positive unpaid =
    Returns-IfOk IsBookedTx (IsPaidInFull currency outcome payment order) _
      (process_transaction-IsBooked now currency payment (status, outcome) order order_id db
        accounted there orderly positive)
      (rw (there, process_transaction)
        (process_registered-IsPaidInFull now currency order payment unpaid status outcome
          (find_external payment.id db.payments) db))
