-- ===== src/Orders/Booking/Payments.antt =====
-- `applyPaymentOutcome` keeps the books, on every outcome and in every state of the order.
use e_commerce_titulo_interm.Common.{
  ℕ, true, false, none, List, ◌≡◌, refl, arith, int_laws, parts, if◌then◌else◌, ok, false≢true,
  if-cases, ◌&&◌, not, eq_of_parts, ◌⊎◌, inr, sym, ap, ◌∙◌, ◌>>=◌, Returns, Returns-bind, All,
}
use e_commerce_titulo_interm.Orders.Status.{
  OrderStatus, can_transition, includes, paid_statuses, same_status, cancelado, pago_rechazado,
  pendiente_pago, pago_pendiente_acreditacion,
}
use e_commerce_titulo_interm.Payments.Status.{PaymentOutcome, aprobado, rechazado, pendiente}
use e_commerce_titulo_interm.Entities.{
  Order, Db, stock_lines, Text, payment_rejected, payment_pending,
}
use e_commerce_titulo_interm.Stock.Rows.{Stock}
use e_commerce_titulo_interm.Stock.Reservation.{
  StockLine, ReserveResult, reserved_all, short_of, reserve,
}
use e_commerce_titulo_interm.Stock.Counters.{qty_of}
use e_commerce_titulo_interm.Stock.Availability.{IsPositive}
use e_commerce_titulo_interm.Stock.Reserving.{reserve_all, reserve_undone}
use e_commerce_titulo_interm.Stock.Soundness.{reserve-IsSound}
use e_commerce_titulo_interm.Orders.Lifecycle.{
  applied, because, change_status, set_reservation, release_reservation, apply_rejected,
  reserve_again, apply_pending, apply_payment_outcome,
}
use e_commerce_titulo_interm.Orders.Booking.Defs.{held, IsBooked, update_order-IsBooked}
use e_commerce_titulo_interm.Orders.Booking.Changes.{
  change_status-Returns, release_reservation_inactive, release_reservation-IsBooked,
  release_reservation_status,
}
use e_commerce_titulo_interm.Orders.Booking.Orderly.{
  IsOrderly, IsBookedResult, change_status-IsOrderly, append_internal_note-IsBooked,
}
use e_commerce_titulo_interm.Orders.Booking.Approval.{apply_approved-IsBooked}

-- The change of status with which a case ends.
changed-Returns :
    (now : ℕ) (order : Order) (target : OrderStatus) (text : Text) (db : Db)
    → can_transition order.status target ≡ true
    → same_status target cancelado ≡ false
    → (order.stock_reservation_active ≡ true
        → (target ≡ pendiente_pago) ⊎ (target ≡ pago_pendiente_acreditacion))
    → IsBooked (order, db)
    → Returns IsBookedResult (
        change_status now order target (because text) db >>= λ done.
        ok (applied true, done.0, done.1))
changed-Returns now order target text db valid kept free booked =
    Returns-bind IsBooked IsBookedResult (change_status now order target (because text) db) _
      (change_status-Returns now order target (because text) db valid (ap (λ b. b && true) kept)
        booked)
      (λ done e books. (books, change_status-IsOrderly now order target (because text) db free e))

awaiting-can_transition :
    (status : OrderStatus)
    → (not (same_status status pendiente_pago)
        && not (same_status status pago_pendiente_acreditacion))
      ≡ false
    → can_transition status pago_rechazado ≡ true
unfolding can_transition
awaiting-can_transition status h = ground arith

-- A rejected payment releases the reservation of an order that awaits it.
apply_rejected-IsBooked :
    (now : ℕ) (order : Order) (payment_id : ℕ) (db : Db)
    → IsBooked (order, db)
    → IsOrderly order
    → Returns IsBookedResult (apply_rejected now order payment_id db)
unfolding apply_rejected
apply_rejected-IsBooked now order payment_id db booked orderly =
    if-cases (Returns IsBookedResult) (includes paid_statuses order.status)
      (λ paid. (booked, orderly))
      (λ unpaid.
        if-cases (Returns IsBookedResult)
          (not (same_status order.status pendiente_pago)
            && not (same_status order.status pago_pendiente_acreditacion))
          (λ settled. (booked, orderly))
          (λ awaiting.
            let state = release_reservation order db in
            changed-Returns now state.0 pago_rechazado (payment_rejected payment_id) state.1
              (ap (λ status. can_transition status pago_rechazado)
                  (release_reservation_status order db)
                ∙ awaiting-can_transition order.status awaiting)
              refl
              (λ active. absurd (false≢true (sym (release_reservation_inactive order db) ∙ active)))
              (release_reservation-IsBooked order db booked)))

-- The attempt to reserve again takes the whole batch or leaves the counters.
reserve_again-IsBooked :
    (order : Order) (payment_id : ℕ) (db : Db)
    → IsBooked (order, db)
    → order.stock_reservation_active ≡ false
    → IsBooked (reserve_again order payment_id db)
unfolding reserve_again
reserve_again-IsBooked order payment_id db booked inactive = go (reserve lines db.stock).0 refl
  where
    lines : List StockLine
    lines = stock_lines order.items

    stock : Stock
    stock = (reserve lines db.stock).1

    go :
        (result : ReserveResult)
        → (reserve lines db.stock).0 ≡ result
        → IsBooked (reserve_again order payment_id db)
    go reserved_all e =
        rw (e, reserve_again)
          (update_order-IsBooked order db stock (set_reservation true) booked (λ o. refl)
            (reserve-IsSound lines db.stock booked.accounted.sound)
            (λ j.
              let counted = reserve_all lines db.stock j e in
              let nothing : held j order ≡ 0 = ap (λ b. if b then qty_of j lines else 0) inactive in
              eq_of_parts _ _ (omega (int_laws, parts counted.0, nothing))))
    go (short_of id) e =
        rw (e, reserve_again)
          (append_internal_note-IsBooked order _ none order.id (record db { stock = stock })
            (record {
              accounted = record {
                sound = reserve-IsSound lines db.stock booked.accounted.sound;
                reserved = λ j.
                    (reserve_undone lines db.stock j booked.accounted.sound e).0
                    ∙ booked.accounted.reserved j;
              };
              locked = booked.locked;
            }))

reserve_again_status :
    (order : Order) (payment_id : ℕ) (db : Db)
    → (reserve_again order payment_id db).0.status ≡ order.status
unfolding reserve_again
reserve_again_status order payment_id db = ground arith

rejected-can_transition :
    (status : OrderStatus)
    → same_status status pago_rechazado ≡ true
    → can_transition status pago_pendiente_acreditacion ≡ true
unfolding can_transition
rejected-can_transition status h = ground arith

waiting-can_transition :
    (status : OrderStatus)
    → not (same_status status pendiente_pago) ≡ false
    → can_transition status pago_pendiente_acreditacion ≡ true
unfolding can_transition
waiting-can_transition status h = ground arith

rejected_inactive :
    (order : Order)
    → IsOrderly order
    → same_status order.status pago_rechazado ≡ true
    → order.stock_reservation_active ≡ false
rejected_inactive order orderly h = ground arith

-- A pending payment after a rejection takes the stock again, if it is still there.
apply_pending-IsBooked :
    (now : ℕ) (order : Order) (payment_id : ℕ) (db : Db)
    → IsBooked (order, db)
    → IsOrderly order
    → Returns IsBookedResult (apply_pending now order payment_id db)
unfolding apply_pending
apply_pending-IsBooked now order payment_id db booked orderly =
    if-cases (Returns IsBookedResult) (same_status order.status pago_rechazado)
      (λ rejected.
        let state = reserve_again order payment_id db in
        changed-Returns now state.0 pago_pendiente_acreditacion (payment_pending payment_id) state.1
          (ap (λ status. can_transition status pago_pendiente_acreditacion)
              (reserve_again_status order payment_id db)
            ∙ rejected-can_transition order.status rejected)
          refl (λ active. inr refl)
          (reserve_again-IsBooked order payment_id db booked
            (rejected_inactive order orderly rejected)))
      (λ other.
        if-cases (Returns IsBookedResult) (not (same_status order.status pendiente_pago))
          (λ settled. (booked, orderly))
          (λ waiting.
            changed-Returns now order pago_pendiente_acreditacion (payment_pending payment_id) db
              (waiting-can_transition order.status waiting) refl (λ active. inr refl) booked))

-- If no variant is oversold, the reserved counter of every variant is the sum of what the orders
-- hold, and the locked order has lines of at least one unit and holds a reservation only in the
-- states pendiente_pago and pago_pendiente_acreditacion, then applyPaymentOutcome never throws,
-- whatever the outcome and the state of the order; after it no variant is oversold, the counters
-- are the sum of what the orders hold, the order it returns is the row of its key, and it holds a
-- reservation only in those two states.
pub apply_payment_outcome-IsBooked :
    (now : ℕ) (order : Order) (outcome : PaymentOutcome) (payment_id : ℕ) (db : Db)
    → IsBooked (order, db)
    → IsOrderly order
    → All IsPositive (stock_lines order.items)
    → Returns IsBookedResult (apply_payment_outcome now order outcome payment_id db)
unfolding apply_payment_outcome
apply_payment_outcome-IsBooked now order aprobado payment_id db booked orderly positive =
    apply_approved-IsBooked now order payment_id db booked orderly positive
apply_payment_outcome-IsBooked now order rechazado payment_id db booked orderly positive =
    apply_rejected-IsBooked now order payment_id db booked orderly
apply_payment_outcome-IsBooked now order pendiente payment_id db booked orderly positive =
    apply_pending-IsBooked now order payment_id db booked orderly
