-- ===== src/Orders/Outcomes.antt =====
-- What becomes of the money of a payment (backend/src/modules/orders/orders.service.ts,
-- `applyPaymentOutcome`), in each state of the order.
use e_commerce_titulo_interm.Common.{
  ℕ, true, false, Option, none, some, ◌≡◌, refl, sym, subst, ◌&&◌, not, ok, false≢true, All,
  if-cases, if◌then◌else◌, Returns, IfOk, IfOk-after, IfOk-bind, IfOk-intro, Returns-IfOk,
}
use e_commerce_titulo_interm.Orders.Status.{
  OrderStatus, pendiente_pago, pago_pendiente_acreditacion, pago_rechazado, pagado, cancelado,
  OrderCancellationCause, reserva_vencida, pasarela, cliente, administrador, same_status, includes,
  paid_statuses,
}
use e_commerce_titulo_interm.Payments.Status.{
  PaymentOutcome, aprobado, rechazado, pendiente, RefundOrigin, cu_05, cu_14, cu_19,
}
use e_commerce_titulo_interm.Entities.{
  Order, Db, stock_lines, payment_rejected, payment_approved, payment_approved_late,
}
use e_commerce_titulo_interm.Stock.Rows.{sale}
use e_commerce_titulo_interm.Stock.Reservation.{confirm_sale}
use e_commerce_titulo_interm.Stock.Availability.{IsPositive}
use e_commerce_titulo_interm.Orders.Lifecycle.{
  ApplyPaymentResult, ChangeOpts, sold, applied, late_refund_origin, is_expired_cause, because,
  change_status, with_status, apply_payment_outcome, apply_approved, apply_rejected, apply_pending,
  pend, release_reservation, reserve_again, confirm_payment,
}
use e_commerce_titulo_interm.Orders.Booking.Defs.{IsBooked}
use e_commerce_titulo_interm.Orders.Booking.Changes.{change_status_ok}
use e_commerce_titulo_interm.Orders.Booking.Orderly.{IsOrderly, IsBookedResult}
use e_commerce_titulo_interm.Orders.Booking.Payments.{apply_payment_outcome-IsBooked}

-- Under which use case an approved payment has to be given back, in an order of a state and a cause
-- of cancellation: none where the payment buys the order.
abbrev pub refund_due : OrderStatus → Option OrderCancellationCause → Option RefundOrigin
refund_due pendiente_pago cause = none
refund_due pago_pendiente_acreditacion cause = none
refund_due pago_rechazado cause = none
refund_due cancelado none = some cu_05
refund_due cancelado (some reserva_vencida) = none
refund_due cancelado (some pasarela) = some cu_05
refund_due cancelado (some cliente) = some cu_14
refund_due cancelado (some administrador) = some cu_19
refund_due status cause = some cu_05

-- The order was not touched.
abbrev pub IsUntouched : Order → Db → ApplyPaymentResult × Order × Db → Type 0
IsUntouched order db r = (r.1 ≡ order) × (r.2 ≡ db)

-- An approved payment buys the order, or leaves it and is marked for its refund.
abbrev pub IsApproved :
    ℕ → Order → Db → Option RefundOrigin → ApplyPaymentResult × Order × Db → Type 0
IsApproved now order db none r =
    (r.1.status ≡ pagado)
    × (r.1.paid_at ≡ some now)
    × (r.0.changed ≡ true)
    × (r.0.refund_origin ≡ none)
IsApproved now order db (some origin) r =
    IsUntouched order db r × (r.0.changed ≡ false) × (r.0.refund_origin ≡ some origin)

-- A state in which a payment is not awaited.
abbrev pub IsClosed : OrderStatus → Type 0
IsClosed pendiente_pago = ⊥
IsClosed pago_pendiente_acreditacion = ⊥
IsClosed pago_rechazado = ⊥
IsClosed status = Unit

-- What each outcome of a payment does to an order.
abbrev pub IsOutcome : ℕ → Order → Db → PaymentOutcome → ApplyPaymentResult × Order × Db → Type 0
IsOutcome now order db aprobado r =
    IsApproved now order db (refund_due order.status order.cancellation_cause) r
IsOutcome now order db outcome r =
    (r.0.refund_origin ≡ none) × (IsClosed order.status → IsUntouched order db r)

refund_due_paid :
    (status : OrderStatus) (cause : Option OrderCancellationCause)
    → includes paid_statuses status ≡ true
    → refund_due status cause ≡ some cu_05
refund_due_paid pendiente_pago cause e = absurd (false≢true e)
refund_due_paid pago_pendiente_acreditacion cause e = absurd (false≢true e)
refund_due_paid pago_rechazado cause e = absurd (false≢true e)
refund_due_paid cancelado cause e = absurd (false≢true e)
refund_due_paid status cause e = refl

refund_due_cancelled :
    (status : OrderStatus) (cause : Option OrderCancellationCause)
    → (same_status status cancelado && not (is_expired_cause cause)) ≡ true
    → refund_due status cause ≡ some (late_refund_origin cause)
refund_due_cancelled cancelado none e = refl
refund_due_cancelled cancelado (some reserva_vencida) e = absurd (false≢true e)
refund_due_cancelled cancelado (some pasarela) e = refl
refund_due_cancelled cancelado (some cliente) e = refl
refund_due_cancelled cancelado (some administrador) e = refl
refund_due_cancelled status cause e = absurd (false≢true e)

refund_due_open :
    (status : OrderStatus) (cause : Option OrderCancellationCause)
    → includes paid_statuses status ≡ false
    → (same_status status cancelado && not (is_expired_cause cause)) ≡ false
    → refund_due status cause ≡ none
refund_due_open pendiente_pago cause e d = refl
refund_due_open pago_pendiente_acreditacion cause e d = refl
refund_due_open pago_rechazado cause e d = refl
refund_due_open cancelado (some reserva_vencida) e d = refl
refund_due_open cancelado none e d = absurd (false≢true (sym d))
refund_due_open cancelado (some pasarela) e d = absurd (false≢true (sym d))
refund_due_open cancelado (some cliente) e d = absurd (false≢true (sym d))
refund_due_open cancelado (some administrador) e d = absurd (false≢true (sym d))
refund_due_open status cause e d = absurd (false≢true (sym e))

changed_to_paid :
    (now : ℕ) (order : Order) (opts : ChangeOpts) (db : Db)
    → IfOk
        (λ r. (r.0.status ≡ pagado) × (r.0.paid_at ≡ some now))
        (change_status now order pagado opts db)
unfolding with_status
changed_to_paid now order opts db =
    IfOk-intro (λ r. (r.0.status ≡ pagado) × (r.0.paid_at ≡ some now))
      (change_status now order pagado opts db)
      (λ r e. rw (change_status_ok now order pagado opts db e) (refl, refl))

confirm_payment-IsApproved :
    (now : ℕ) (order : Order) (payment_id : ℕ) (db : Db)
    → IfOk (IsApproved now order db none) (confirm_payment now order payment_id db)
unfolding confirm_payment
confirm_payment-IsApproved now order payment_id db =
    IfOk-after (IsApproved now order db none)
      (confirm_sale (stock_lines order.items) order.stock_reservation_active (sale order.id)
        db.stock)
      _
      (λ (shortages, stock).
        IfOk-bind (λ r. (r.0.status ≡ pagado) × (r.0.paid_at ≡ some now))
          (IsApproved now order db none) _ _
          (changed_to_paid now (sold shortages order)
            (because (
              if same_status order.status cancelado
              then payment_approved_late payment_id
              else payment_approved payment_id))
            _)
          (λ r paid. (paid.0, paid.1, refl, refl)))

apply_approved-IsOutcome :
    (now : ℕ) (order : Order) (payment_id : ℕ) (db : Db)
    → IfOk (IsOutcome now order db aprobado) (apply_approved now order payment_id db)
unfolding apply_approved
apply_approved-IsOutcome now order payment_id db =
    let Goal = IfOk (IsOutcome now order db aprobado) in
    let deliberate =
      same_status order.status cancelado && not (is_expired_cause order.cancellation_cause) in
    if-cases Goal (includes paid_statuses order.status)
      (λ paid.
        rw (refund_due_paid order.status order.cancellation_cause paid) ((refl, refl), refl, refl))
      (λ unpaid.
        if-cases Goal deliberate
          (λ cancelled.
            rw (refund_due_cancelled order.status order.cancellation_cause cancelled)
              ((refl, refl), refl, refl))
          (λ live.
            subst
              (λ due. IfOk (IsApproved now order db due) (confirm_payment now order payment_id db))
              (sym (refund_due_open order.status order.cancellation_cause unpaid live))
              (confirm_payment-IsApproved now order payment_id db)))

awaiting-IsClosed :
    (status : OrderStatus)
    → (not (same_status status pendiente_pago)
        && not (same_status status pago_pendiente_acreditacion))
      ≡ false
    → IsClosed status
    → ⊥
awaiting-IsClosed pendiente_pago e h = h
awaiting-IsClosed pago_pendiente_acreditacion e h = h
awaiting-IsClosed status e h = false≢true (sym e)

apply_rejected-IsOutcome :
    (now : ℕ) (order : Order) (payment_id : ℕ) (db : Db)
    → IfOk (IsOutcome now order db rechazado) (apply_rejected now order payment_id db)
unfolding apply_rejected
apply_rejected-IsOutcome now order payment_id db =
    let Goal = IfOk (IsOutcome now order db rechazado) in
    if-cases Goal (includes paid_statuses order.status) (λ paid. (refl, λ closed. (refl, refl)))
      (λ unpaid.
        if-cases Goal
          (not (same_status order.status pendiente_pago)
            && not (same_status order.status pago_pendiente_acreditacion))
          (λ settled. (refl, λ closed. (refl, refl)))
          (λ awaiting.
            let state = release_reservation order db in
            IfOk-after (IsOutcome now order db rechazado)
              (change_status now state.0 pago_rechazado (because (payment_rejected payment_id))
                state.1)
              (λ done. ok (applied true, done.0, done.1))
              (λ done. (refl, λ closed. absurd (awaiting-IsClosed order.status awaiting closed)))))

pend-IsOutcome :
    (now : ℕ) (order : Order) (payment_id : ℕ) (db : Db) (state : Order × Db)
    → (IsClosed order.status → ⊥)
    → IfOk (IsOutcome now order db pendiente) (pend now payment_id state)
pend-IsOutcome now order payment_id db (locked, written) awaited =
    IfOk-after (IsOutcome now order db pendiente)
      (change_status now locked pago_pendiente_acreditacion _ written) _
      (λ done. (refl, λ closed. absurd (awaited closed)))

rejected-IsClosed :
    (status : OrderStatus) → same_status status pago_rechazado ≡ true → IsClosed status → ⊥
rejected-IsClosed pago_rechazado e h = h
rejected-IsClosed status e h = false≢true e

waiting-IsClosed :
    (status : OrderStatus) → not (same_status status pendiente_pago) ≡ false → IsClosed status → ⊥
waiting-IsClosed pendiente_pago e h = h
waiting-IsClosed status e h = false≢true (sym e)

apply_pending-IsOutcome :
    (now : ℕ) (order : Order) (payment_id : ℕ) (db : Db)
    → IfOk (IsOutcome now order db pendiente) (apply_pending now order payment_id db)
unfolding apply_pending
apply_pending-IsOutcome now order payment_id db =
    let Goal = IfOk (IsOutcome now order db pendiente) in
    if-cases Goal (same_status order.status pago_rechazado)
      (λ rejected.
        pend-IsOutcome now order payment_id db (reserve_again order payment_id db)
          (rejected-IsClosed order.status rejected))
      (λ other.
        if-cases Goal (not (same_status order.status pendiente_pago))
          (λ settled. (refl, λ closed. (refl, refl)))
          (λ waiting.
            pend-IsOutcome now order payment_id db (order, db)
              (waiting-IsClosed order.status waiting)))

apply-IsOutcome :
    (now : ℕ) (order : Order) (outcome : PaymentOutcome) (payment_id : ℕ) (db : Db)
    → IfOk (IsOutcome now order db outcome) (apply_payment_outcome now order outcome payment_id db)
unfolding apply_payment_outcome
apply-IsOutcome now order aprobado payment_id db = apply_approved-IsOutcome now order payment_id db
apply-IsOutcome now order rechazado payment_id db = apply_rejected-IsOutcome now order payment_id db
apply-IsOutcome now order pendiente payment_id db = apply_pending-IsOutcome now order payment_id db

-- If no variant is oversold, the reserved counters are the sum of what the orders hold, and the
-- locked order has lines of at least one unit and holds a reservation only in the states
-- pendiente_pago and pago_pendiente_acreditacion, then applyPaymentOutcome returns. An approved
-- payment makes an order that awaits payment, or that was cancelled because its reservation
-- expired, paid at this moment; in every other state it leaves order and tables as they are and
-- is marked for a refund, under CU-14 if the customer cancelled the order, under CU-19 if the
-- administrator did, and under CU-05 otherwise. A rejected or pending payment is never marked for
-- a refund, and leaves order and tables as they are unless the order awaits payment.
pub apply_payment_outcome-IsOutcome :
    (now : ℕ) (order : Order) (outcome : PaymentOutcome) (payment_id : ℕ) (db : Db)
    → IsBooked (order, db)
    → IsOrderly order
    → All IsPositive (stock_lines order.items)
    → Returns
        (IsOutcome now order db outcome)
        (apply_payment_outcome now order outcome payment_id db)
apply_payment_outcome-IsOutcome now order outcome payment_id db booked orderly positive =
    Returns-IfOk IsBookedResult (IsOutcome now order db outcome)
      (apply_payment_outcome now order outcome payment_id db)
      (apply_payment_outcome-IsBooked now order outcome payment_id db booked orderly positive)
      (apply-IsOutcome now order outcome payment_id db)
