-- ===== src/Orders/Expiry.antt =====
-- backend/src/modules/orders/orders.service.ts: `expireReservations`, the periodic cancellation of
-- the orders whose stock reservation has run out.
use e_commerce_titulo_interm.Common.{
  ℕ, Bool, true, false, none, some, List, [], ◌∷◌, ◌+◌, ◌&&◌, ◌||◌, not, ltb, leb, keep, map,
  if◌then◌else◌, Result, ok, ◌>>=◌,
}
use e_commerce_titulo_interm.Errors.{ServiceError}
use e_commerce_titulo_interm.Orders.Status.{
  cancelado, reserva_vencida, includes, awaiting_payment_statuses,
}
use e_commerce_titulo_interm.Entities.{Order, Db, find_order, reservation_expired}
use e_commerce_titulo_interm.Orders.Lifecycle.{because, change_status, release_reservation}

-- `status: In(AWAITING_PAYMENT_STATUSES), reservationExpiresAt: LessThan(now)`
abbrev pub is_due : ℕ → Order → Bool
is_due now order =
    includes awaiting_payment_statuses order.status && ltb order.reservation_expires_at now

-- The order is given up: its reservation is released and its status changes.
unfoldable pub expire_locked : ℕ → Order → Db → Result ServiceError (Order × Db)
unfolding release_reservation change_status
expire_locked now order db =
    let (released, written) = release_reservation order db in
    change_status now released cancelado
      (record (because reservation_expired) { cancellation_cause = some reserva_vencida }) written

-- The transaction of one order, which looks at the locked row again.
unfoldable pub expire_one : ℕ → ℕ → Db → Result ServiceError (Bool × Db)
unfolding expire_locked
expire_one now id db = elim (find_order id db.orders) [
  | none ↦ ok (false, db)
  | some order ↦
      if not (includes awaiting_payment_statuses order.status)
        || leb now order.reservation_expires_at
      then ok (false, db)
      else expire_locked now order db >>= λ done. ok (true, done.1)
]

-- The loop over the orders that were due, with the count of those that expired.
unfoldable pub expire_all : ℕ → List ℕ → ℕ → Db → Result ServiceError (ℕ × Db)
unfolding expire_one
expire_all now [] expired db = ok (expired, db)
expire_all now (id ∷ ids) expired db = expire_one now id db >>= λ done.
    expire_all now ids (if done.0 then expired + 1 else expired) done.1

-- `expireReservations`
unfoldable pub expire_reservations : ℕ → Db → Result ServiceError (ℕ × Db)
unfolding expire_all
expire_reservations now db = expire_all now (map (λ o. o.id) (keep (is_due now) db.orders)) 0 db
