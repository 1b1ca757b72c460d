-- ===== src/Orders/Booking/Expiring.antt =====
-- The periodic expiry of reservations keeps the books (backend/src/modules/orders/orders.service.ts).
use e_commerce_titulo_interm.Common.{
  ℕ, Bool, true, false, some, List, [], ◌∷◌, ◌≡◌, ◌∙◌, refl, ap, arith, if◌then◌else◌, if-cases,
  ◌||◌, not, Option-cases, inl, inr, Returns, Returns-bind, leb, ◌+◌,
}
use e_commerce_titulo_interm.Orders.Status.{
  OrderStatus, cancelado, reserva_vencida, can_transition, includes, awaiting_payment_statuses,
}
use e_commerce_titulo_interm.Entities.{Order, Db, find_order, reservation_expired}
use e_commerce_titulo_interm.Orders.RowLaws.{find_order_id}
use e_commerce_titulo_interm.Orders.Lifecycle.{because, release_reservation}
use e_commerce_titulo_interm.Orders.Expiry.{
  expire_locked, expire_one, expire_all, expire_reservations,
}
use e_commerce_titulo_interm.Orders.Booking.Defs.{IsAccounted, IsBooked}
use e_commerce_titulo_interm.Orders.Booking.Changes.{
  change_status-Returns, release_reservation-IsBooked, release_reservation_status,
}

awaiting-can_cancel :
    (status : OrderStatus)
    → includes awaiting_payment_statuses status ≡ true
    → can_transition status cancelado ≡ true
unfolding can_transition
awaiting-can_cancel status h = ground arith

expire_locked-IsBooked :
    (now : ℕ) (order : Order) (db : Db)
    → IsBooked (order, db)
    → includes awaiting_payment_statuses order.status ≡ true
    → Returns IsBooked (expire_locked now order db)
unfolding expire_locked
expire_locked-IsBooked now order db booked awaiting =
    let state = release_reservation order db in
    change_status-Returns now state.0 cancelado
      (record (because reservation_expired) { cancellation_cause = some reserva_vencida }) state.1
      (ap (λ status. can_transition status cancelado) (release_reservation_status order db)
        ∙ awaiting-can_cancel order.status awaiting)
      refl (release_reservation-IsBooked order db booked)

-- The order that a query finds is locked by its own key.
pub find_order-IsBooked :
    (id : ℕ) (db : Db) {order : Order}
    → IsAccounted db
    → find_order id db.orders ≡ some order
    → IsBooked (order, db)
find_order-IsBooked id db accounted found = record {
  accounted = accounted;
  locked = ap (λ k. find_order k db.orders) (find_order_id id db.orders found) ∙ found;
}

due_awaiting : (a b : Bool) → (not a || b) ≡ false → a ≡ true
due_awaiting a b h = ground arith

expire_one-IsAccounted :
    (now id : ℕ) (db : Db)
    → IsAccounted db
    → Returns (λ (r : Bool × Db). IsAccounted r.1) (expire_one now id db)
unfolding expire_one
expire_one-IsAccounted now id db accounted = elim (Option-cases (find_order id db.orders)) [
  | inl missing ↦ rw (missing, expire_one) accounted
  | inr (order, found) ↦
      rw (found, expire_one)
        (if-cases (Returns (λ (r : Bool × Db). IsAccounted r.1))
          (not (includes awaiting_payment_statuses order.status)
            || leb now order.reservation_expires_at)
          (λ skipped. accounted)
          (λ due.
            Returns-bind IsBooked (λ (r : Bool × Db). IsAccounted r.1) (expire_locked now order db)
              _
              (expire_locked-IsBooked now order db (find_order-IsBooked id db accounted found)
                (due_awaiting (includes awaiting_payment_statuses order.status) _ due))
              (λ done e booked. booked.accounted)))
]

expire_all-IsAccounted :
    (now : ℕ) (ids : List ℕ) (expired : ℕ) (db : Db)
    → IsAccounted db
    → Returns (λ (r : ℕ × Db). IsAccounted r.1) (expire_all now ids expired db)
unfolding expire_all
expire_all-IsAccounted now [] expired db accounted = accounted
expire_all-IsAccounted now (id ∷ ids) expired db accounted =
    Returns-bind (λ (r : Bool × Db). IsAccounted r.1) (λ (r : ℕ × Db). IsAccounted r.1)
      (expire_one now id db) _ (expire_one-IsAccounted now id db accounted)
      (λ done e kept.
        expire_all-IsAccounted now ids (if done.0 then expired + 1 else expired) done.1 kept)

-- The periodic expiry never throws, and if before it no variant was oversold and the reserved
-- counters were the sum of what the orders hold, the same is true after it.
pub expire_reservations-IsAccounted :
    (now : ℕ) (db : Db)
    → IsAccounted db
    → Returns (λ (r : ℕ × Db). IsAccounted r.1) (expire_reservations now db)
unfolding expire_reservations
expire_reservations-IsAccounted now db accounted = expire_all-IsAccounted now _ 0 db accounted
