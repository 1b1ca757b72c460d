-- ===== src/Payments/Crediting.antt =====
-- The transaction of `processPayment` keeps the books, and credits only what was paid in full
-- (backend/src/modules/payments/payments.service.ts).
use e_commerce_titulo_interm.Common.{
  ℕ, Option, none, some, ◌≡◌, refl, Returns, Returns-bind, All, Option-cases, inl, inr, if-cases,
}
use e_commerce_titulo_interm.Payments.Status.{PaymentStatus, PaymentOutcome, is_final, RefundOrigin}
use e_commerce_titulo_interm.Entities.{Text, Order, Payment, Db, find_order, stock_lines}
use e_commerce_titulo_interm.Orders.Lifecycle.{ApplyPaymentResult, apply_payment_outcome}
use e_commerce_titulo_interm.Payments.Ledger.{RefundRequest, request_refund}
use e_commerce_titulo_interm.Payments.Processing.{
  GatewayPayment, TxResult, find_external, is_repeated, register_payment, is_mismatch,
  refund_unapplied, settle_applied, apply_registered, process_registered, process_transaction,
}
use e_commerce_titulo_interm.Stock.Availability.{IsPositive}
use e_commerce_titulo_interm.Orders.Booking.Defs.{IsAccounted, IsBooked, same-IsBooked}
use e_commerce_titulo_interm.Orders.Booking.Orderly.{
  IsOrderly, IsBookedResult, append_internal_note-IsBooked,
}
use e_commerce_titulo_interm.Orders.Booking.Payments.{apply_payment_outcome-IsBooked}
use e_commerce_titulo_interm.Orders.Booking.Expiring.{find_order-IsBooked}
use e_commerce_titulo_interm.Orders.Booking.Cancelling.{request_refund_rest}

-- After the transaction the books are kept, and the order is orderly.
abbrev pub IsBookedTx : TxResult × Order × Db → Type 0
IsBookedTx r = IsBooked (r.1, r.2) × IsOrderly r.1

register_payment_rest :
    (now : ℕ) (order : Order) (payment : GatewayPayment) (status : PaymentStatus)
    (existing : Option Payment) (db : Db)
    → let r = register_payment now order payment status existing db in
      (r.1.orders ≡ db.orders) × (r.1.stock ≡ db.stock)
unfolding register_payment
register_payment_rest now order payment status none db = (refl, refl)
register_payment_rest now order payment status (some existing) db = (refl, refl)

refund_unapplied-IsBooked :
    (order : Order) (saved : Payment) (text : Text) (origin : Option RefundOrigin) (db : Db)
    → IsBooked (order, db)
    → IsBooked (order, (refund_unapplied order saved text origin db).1)
refund_unapplied-IsBooked order saved text none db booked = booked
refund_unapplied-IsBooked order saved text (some origin) db booked =
    let request : RefundRequest = record {
      order_id = order.id;
      amount = saved.amount;
      origin_cu = origin;
      reason = text;
      payment_id = some saved.id;
    } in
    let rest = request_refund_rest request db in
    same-IsBooked order db (request_refund request db).1 rest.0 rest.1 booked

settle_applied-IsBooked :
    (saved : Payment) (r : ApplyPaymentResult × Order × Db)
    → IsBookedResult r
    → IsBookedTx (settle_applied saved r)
unfolding settle_applied
settle_applied-IsBooked saved (applied, order, db) (booked, orderly) =
    elim (Option-cases applied.discrepancy) [
      | inl e ↦ rw (e, settle_applied) (booked, orderly)
      | inr (text, e) ↦
          rw (e, settle_applied)
            (
              refund_unapplied-IsBooked order saved text applied.refund_origin _
                  (append_internal_note-IsBooked order text none order.id db booked),
              orderly,
            )
    ]

module _ (now currency : ℕ) (order : Order) (payment : GatewayPayment) (orderly : IsOrderly order)
    (positive : All IsPositive (stock_lines order.items)) where
  apply_registered-IsBooked :
      (outcome : PaymentOutcome) (saved : Payment) (db : Db)
      → IsBooked (order, db)
      → Returns IsBookedTx (apply_registered now currency order payment outcome (saved, db))
  unfolding apply_registered
  apply_registered-IsBooked outcome saved db booked =
      if-cases (Returns IsBookedTx) (is_mismatch currency order payment outcome)
        (λ mismatch. (append_internal_note-IsBooked order _ none order.id db booked, orderly))
        (λ fits.
          Returns-bind IsBookedResult IsBookedTx
            (apply_payment_outcome now order outcome payment.id db) _
            (apply_payment_outcome-IsBooked now order outcome payment.id db booked orderly positive)
            (λ r e kept. settle_applied-IsBooked saved r kept))

  process_registered-IsBooked :
      (mapped : PaymentStatus × PaymentOutcome) (existing : Option Payment) (db : Db)
      → IsBooked (order, db)
      → Returns IsBookedTx (process_registered now currency order payment mapped existing db)
  unfolding process_registered
  process_registered-IsBooked (status, outcome) none db booked =
      let (saved, written) = register_payment now order payment status none db in
      let rest = register_payment_rest now order payment status none db in
      apply_registered-IsBooked outcome saved written
        (same-IsBooked order db written rest.0 rest.1 booked)
  process_registered-IsBooked (status, outcome) (some existing) db booked =
      let (saved, written) = register_payment now order payment status (some existing) db in
      let rest = register_payment_rest now order payment status (some existing) db in
      if-cases (Returns IsBookedTx) (is_repeated existing.status status)
        (λ repeated. (booked, orderly))
        (λ moved.
          if-cases (Returns IsBookedTx) (is_final existing.status)
            (λ final. (append_internal_note-IsBooked order _ none order.id db booked, orderly))
            (λ open_payment.
              apply_registered-IsBooked outcome saved written
                (same-IsBooked order db written rest.0 rest.1 booked)))

-- If no variant is oversold and the reserved counters are the sum of what the orders hold, and
-- the order of the payment is there, has lines of at least one unit and holds a reservation only
-- in the states pendiente_pago and pago_pendiente_acreditacion, the transaction of processPayment
-- never throws; after it no variant is oversold, the counters are the sum of what the orders
-- hold, the order it returns is the row of its key, and it holds a reservation only in those two
-- states.
pub process_transaction-IsBooked :
    (now currency : ℕ) (payment : GatewayPayment) (mapped : PaymentStatus × PaymentOutcome)
    (order : Order) (order_id : ℕ) (db : Db)
    → IsAccounted db
    → find_order order_id db.orders ≡ some order
    → IsOrderly order
    → All IsPositive (stock_lines order.items)
    → Returns IsBookedTx (process_transaction now currency payment mapped order_id db)
unfolding process_transaction
process_transaction-IsBooked now currency payment mapped order order_id db accounted there orderly
      positive =
    rw (there, process_transaction)
      (process_registered-IsBooked now currency order payment orderly positive mapped
        (find_external payment.id db.payments) db (find_order-IsBooked order_id db accounted there))
