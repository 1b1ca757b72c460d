-- ===== src/Checkout/Retrying.antt =====
-- backend/src/modules/orders/checkout.service.ts: a retry of the payment and the stock books.
use e_commerce_titulo_interm.Common.{
  IfOk-after, throw_if, ℕ, ◌≡◌, refl, ap, ◌∙◌, subst, inl, inr, true, false, Option, some, List,
  not, ◌==◌, if◌then◌else◌, if-cases, Option-cases, Result-cases, IfOk, IfOk-bind, IfOk-intro,
  int_laws, parts, eq_of_parts,
}
use e_commerce_titulo_interm.Errors.{order_not_found}
use e_commerce_titulo_interm.Orders.Status.{pendiente_pago, pago_rechazado, same_status}
use e_commerce_titulo_interm.Orders.Policies.{payment_retry}
use e_commerce_titulo_interm.Stock.Rows.{Product, Stock}
use e_commerce_titulo_interm.Stock.Reservation.{ReserveResult, reserved_all, short_of, reserve}
use e_commerce_titulo_interm.Stock.Counters.{reserved_of, qty_of}
use e_commerce_titulo_interm.Stock.Soundness.{IsSoundStock, reserve-IsSound}
use e_commerce_titulo_interm.Stock.Reserving.{reserve_all}
use e_commerce_titulo_interm.Entities.{Order, Db, find_order, stock_lines, payment_retried}
use e_commerce_titulo_interm.Orders.Lifecycle.{because, change_status, set_reservation}
use e_commerce_titulo_interm.Orders.Booking.Defs.{
  held, IsAccounted, IsBooked, update_order-IsBooked,
}
use e_commerce_titulo_interm.Orders.Booking.Changes.{change_status-IsBooked, change_status_rest}
use e_commerce_titulo_interm.Checkout.Rows.{User, Shop}
use e_commerce_titulo_interm.Checkout.Payment.{
  PreferenceInput, CreatedPreference, preference_input, find_user,
}
use e_commerce_titulo_interm.Checkout.Retry.{
  retry_problems, throw_retry_problems, reserved_again, reserve_for_retry, reopen, require_allowed,
  retry_locked, retry_transaction, restart_payment, retry_payment,
}
use e_commerce_titulo_interm.Checkout.Accounting.{found-IsBooked, attach_preference-IsAccounted}

-- What a retry leaves: the books, and an order that waits for its payment and holds its stock.
abbrev pub IsRetried : Order × Db → Type 0
IsRetried r = IsBooked r × (r.0.stock_reservation_active ≡ true)

reserved_again-IsRetried :
    (order : Order) (db : Db)
    → IsBooked (order, db)
    → order.stock_reservation_active ≡ false
    → (r : ReserveResult × Stock) → reserve (stock_lines order.items) db.stock ≡ r
    → IfOk IsRetried (reserved_again order db r)
reserved_again-IsRetried order db booked idle (short_of id, stock) e = tt
reserved_again-IsRetried order db booked idle (reserved_all, stock) e =
    let lines = stock_lines order.items in
    let left : (reserve lines db.stock).1 ≡ stock = ap (λ r. r.1) e in
    (
      update_order-IsBooked order db stock (set_reservation true) booked (λ o. refl)
          (subst IsSoundStock left (reserve-IsSound lines db.stock booked.accounted.sound))
          (λ j.
            let counted = reserve_all lines db.stock j (ap (λ r. r.0) e) in
            let empty : held j order ≡ 0 = ap (λ b. if b then qty_of j lines else 0) idle in
            let moved : reserved_of j (reserve lines db.stock).1.variants
                ≡ reserved_of j stock.variants =
              ap (λ (t : Stock). reserved_of j t.variants) left in
            eq_of_parts _ _ (omega (int_laws, parts counted.0, parts moved, empty))),
      refl,
    )

reserve_for_retry-IsRetried :
    (order : Order) (db : Db) → IsBooked (order, db) → IfOk IsRetried (reserve_for_retry order db)
unfolding reserve_for_retry
reserve_for_retry-IsRetried order db booked =
    if-cases (IfOk IsRetried) order.stock_reservation_active (λ active. (booked, active))
      (λ idle.
        reserved_again-IsRetried order db booked idle (reserve (stock_lines order.items) db.stock)
          refl)

reopen-IsRetried :
    (now user_id : ℕ) (order : Order) (db : Db)
    → IsRetried (order, db)
    → IfOk IsRetried (reopen now user_id order db)
unfolding reopen
reopen-IsRetried now user_id order db h =
    if-cases (IfOk IsRetried) (same_status order.status pago_rechazado)
      (λ rejected.
        let opts = record (because payment_retried) { actor_id = some user_id } in
        IfOk-intro IsRetried (change_status now order pendiente_pago opts db) (λ r e. (
          change_status-IsBooked now order pendiente_pago opts db e h.0,
          (change_status_rest now order pendiente_pago opts db e).1 ∙ h.1,
        )))
      (λ waiting. h)

-- If no variant is oversold and the reserved counters are the sum of what the orders hold, and
-- the transaction of retryPayment returns, the same holds, and its order holds the reservation of
-- its items.
pub retry_transaction-IsRetried :
    (now user_id order_id : ℕ) (products : List Product) (db : Db)
    → IsAccounted db
    → IfOk IsRetried (retry_transaction now user_id order_id products db)
unfolding retry_transaction retry_locked
retry_transaction-IsRetried now user_id order_id products db books =
    elim (Option-cases (find_order order_id db.orders)) [
      | inl e ↦ rw (e, retry_transaction) tt
      | inr (order, e) ↦
          rw (e, retry_transaction)
            (IfOk-after _ (throw_if (not (order.user_id == user_id)) order_not_found) _ (λ done.
              IfOk-after _ (require_allowed (payment_retry order now)) _ (λ done.
                IfOk-after _
                  (throw_retry_problems (retry_problems products db.stock.variants order.items)) _
                  (λ done.
                    IfOk-bind IsRetried IsRetried (reserve_for_retry order db) _
                      (reserve_for_retry-IsRetried order db
                        (found-IsBooked order_id order db books e))
                      (λ r kept. reopen-IsRetried now user_id r.0 r.1 kept)))))
    ]

module _ (gateway : PreferenceInput → Option CreatedPreference) where
  restart_payment-IsAccounted :
      (user : User) (order : Order) (shop : Shop)
      → IsAccounted shop.db
      → IsAccounted (restart_payment gateway user order shop).1.db
  unfolding restart_payment
  restart_payment-IsAccounted user order shop books =
      elim (Option-cases (gateway (preference_input order user.email))) [
        | inl e ↦ rw (e, restart_payment) books
        | inr (preference, e) ↦
            rw (e, restart_payment)
              (attach_preference-IsAccounted order.id order.payment_preference_id preference shop
                books)
      ]

  -- Whatever the gateway answers, `retryPayment` keeps the stock books.
  pub retry_payment-IsAccounted :
      (now user_id order_id : ℕ) (shop : Shop)
      → IsAccounted shop.db
      → IsAccounted (retry_payment gateway now user_id order_id shop).1.db
  unfolding retry_payment
  retry_payment-IsAccounted now user_id order_id shop books =
      elim (Result-cases (find_user user_id shop)) [
        | inr (fault, e) ↦ rw (e, retry_payment) books
        | inl (user, e) ↦
            elim (Result-cases (retry_transaction now user_id order_id shop.products shop.db)) [
              | inr (fault, f) ↦ rw (e, f, retry_payment) books
              | inl (done, f) ↦
                  let kept : IsRetried done = subst (IfOk IsRetried) f (
                    retry_transaction-IsRetried now user_id order_id shop.products shop.db books) in
                  rw (e, f, retry_payment)
                    (restart_payment-IsAccounted user done.0 (record shop { db = done.1 })
                      kept.0.accounted)
            ]
      ]
