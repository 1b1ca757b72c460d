-- ===== src/Checkout/Compensation.antt =====
-- backend/src/modules/orders/checkout.service.ts: `compensateFailedPreference` undoes the
-- transaction of `confirm`.
use e_commerce_titulo_interm.Common.{
  false≢true, ℕ, suc, ◌≡◌, refl, ap, ◌∙◌, subst, true, none, some, List, [], ◌∷◌, ◌++◌, not, ==_iff,
  if◌then◌else◌, if-cases, map, IfOk, IfOk-bind, IfOk-intro, Returns, Returns-bind, Returns-intro,
  Result, ok, pos, ◌+ℤ◌, ◌-ℤ◌, int_laws, parts, eq_of_parts, arith,
}
use e_commerce_titulo_interm.Errors.{ServiceError}
use e_commerce_titulo_interm.Orders.Status.{pendiente_pago, cancelado, pasarela, same_status}
use e_commerce_titulo_interm.Stock.Rows.{Stock}
use e_commerce_titulo_interm.Stock.Reservation.{reserved_all, reserve}
use e_commerce_titulo_interm.Stock.Counters.{reserved_of, total_of, qty_of}
use e_commerce_titulo_interm.Stock.Reserving.{reserve_all, release_counters}
use e_commerce_titulo_interm.Entities.{Order, Db, find_order, stock_lines, preference_failed}
use e_commerce_titulo_interm.Orders.Lifecycle.{
  because, change_status, release_reservation, record_history,
}
use e_commerce_titulo_interm.Orders.Booking.Defs.{held, IsAccounted, IsBooked, held-le-reserved}
use e_commerce_titulo_interm.Orders.Booking.Changes.{
  change_status_valid, change_status_ok, release_reservation_status,
}
use e_commerce_titulo_interm.Carts.Rows.{Cart}
use e_commerce_titulo_interm.Checkout.Rows.{Shop}
use e_commerce_titulo_interm.Checkout.Confirm.{
  LoadedItem, Checkout, new_order, insert_order, cart_line, require_reserved, place_order,
  confirm_transaction,
}
use e_commerce_titulo_interm.Checkout.Payment.{cancel_unpaid, compensate_failed_preference}
use e_commerce_titulo_interm.Checkout.Accounting.{
  stock_lines-order_items, require_reserved-all, confirm_transaction-IfOk, found-IsBooked,
  place_order-IsAccounted,
}

find_order-append :
    (order : Order) (orders : List Order)
    → find_order order.id orders ≡ none
    → find_order order.id (orders ++ (order ∷ [])) ≡ some order
unfolding find_order
find_order-append order [] h = ground (arith, ==_iff order.id order.id)
find_order-append order (o ∷ os) h = ground (arith, find_order-append order os)

-- What the transaction leaves: its order as a row, waiting for payment, and its units reserved.
abbrev IsRow : Shop → Order × Shop → Type 0
IsRow shop r =
    (find_order r.0.id r.1.db.orders ≡ some r.0)
    × (r.0.status ≡ pendiente_pago)
    × (r.0.stock_reservation_active ≡ true)
    × ((j : ℕ)
        → (reserved_of j r.1.db.stock.variants
            ≡ reserved_of j shop.db.stock.variants +ℤ pos (qty_of j (stock_lines r.0.items)))
          × (total_of j r.1.db.stock.variants ≡ total_of j shop.db.stock.variants))

place_order-IsRow :
    (c : Checkout) (cart : Cart) (loaded : List LoadedItem) (shop : Shop)
    → find_order shop.db.next_id shop.db.orders ≡ none
    → IfOk (IsRow shop) (place_order c cart loaded shop)
unfolding place_order insert_order new_order record_history
place_order-IsRow c cart loaded shop fresh =
    let lines = map cart_line loaded in
    let order = new_order c cart loaded shop.db.next_id in
    IfOk-bind
      (λ stock.
        ((reserve lines shop.db.stock).0 ≡ reserved_all)
        × (stock ≡ (reserve lines shop.db.stock).1))
      (IsRow shop) (require_reserved loaded (reserve lines shop.db.stock)) _
      (require_reserved-all loaded (reserve lines shop.db.stock))
      (λ stock done. rw (done.1) (
        find_order-append order shop.db.orders fresh,
        refl,
        refl,
        λ j.
            rw (stock_lines-order_items (suc shop.db.next_id) loaded)
              (reserve_all lines shop.db.stock j done.0),
      ))

abbrev IsInserted : Shop → Order × Shop → Type 0
IsInserted shop r = IsAccounted r.1.db × IsRow shop r

place_order-IsInserted :
    (c : Checkout) (cart : Cart) (loaded : List LoadedItem) (shop : Shop)
    → IsAccounted shop.db
    → find_order shop.db.next_id shop.db.orders ≡ none
    → IfOk (IsInserted shop) (place_order c cart loaded shop)
place_order-IsInserted c cart loaded shop books fresh =
    IfOk-intro (IsInserted shop) (place_order c cart loaded shop) (λ r e.
      let kept =
        subst (IfOk (λ r. IsAccounted r.1.db)) e
          (place_order-IsAccounted c cart loaded shop books) in
      let rest = subst (IfOk (IsRow shop)) e (place_order-IsRow c cart loaded shop fresh) in
      (kept, rest))

-- The counters of every variant, as they were.
abbrev pub SameCounters : Db → Db → Type 0
SameCounters before after =
    (j : ℕ)
    → (reserved_of j after.stock.variants ≡ reserved_of j before.stock.variants)
      × (total_of j after.stock.variants ≡ total_of j before.stock.variants)

-- The release of an order that holds its units.
released_lem :
    (order : Order) (db : Db) (j : ℕ)
    → IsBooked (order, db)
    → order.stock_reservation_active ≡ true
    → (reserved_of j (release_reservation order db).1.stock.variants
        ≡ reserved_of j db.stock.variants -ℤ pos (qty_of j (stock_lines order.items)))
      × (total_of j (release_reservation order db).1.stock.variants ≡ total_of j db.stock.variants)
unfolding release_reservation
released_lem order db j booked active =
    let (rest, counter) = held-le-reserved order db booked j in
    let holds : held j order ≡ qty_of j (stock_lines order.items) =
      ap (λ b. if b then qty_of j (stock_lines order.items) else 0) active in
    rw (active, release_reservation)
      (release_counters (stock_lines order.items) db.stock j (omega (arith, parts counter, holds)))

cancel_unpaid-Returns :
    (now : ℕ) (order : Order) (db : Db)
    → order.status ≡ pendiente_pago
    → Returns
        (λ done. done.1.stock ≡ (release_reservation order db).1.stock)
        (cancel_unpaid now order db)
unfolding cancel_unpaid
cancel_unpaid-Returns now order db waiting =
    let (released, written) = release_reservation order db in
    let opts = record (because preference_failed) { cancellation_cause = some pasarela } in
    let status : released.status ≡ pendiente_pago = release_reservation_status order db ∙ waiting in
    let (r, e) = change_status_valid now released cancelado opts written (rw status refl) refl in
    Returns-intro (λ done. done.1.stock ≡ written.stock)
      (change_status now released cancelado opts written) e
      (ap (λ (s : Order × Db). s.1.stock) (change_status_ok now released cancelado opts written e))

-- If no variant is oversold, the reserved counters are the sum of what the orders hold, the key
-- of the new order is not in use and the transaction of confirm returned, then undoing it after a
-- failed preference does not throw and leaves the total and the reserved counter of every variant
-- as they were before the checkout.
pub compensate_failed_preference-undoes :
    (c : Checkout) (shop : Shop) (now : ℕ) (placed : Order × Shop)
    → IsAccounted shop.db
    → find_order shop.db.next_id shop.db.orders ≡ none
    → confirm_transaction c shop ≡ ok placed
    → (cart_id : ℕ)
    → Returns
        (λ restored. SameCounters shop.db restored.db)
        (compensate_failed_preference now placed.0.id cart_id c.user_id placed.1)
unfolding compensate_failed_preference
compensate_failed_preference-undoes c shop now placed books fresh e cart_id =
    let (kept, (found, waiting, active, counted)) = subst (IfOk (IsInserted shop)) e (
      confirm_transaction-IfOk (IsInserted shop) c shop
        (λ cart loaded. place_order-IsInserted c cart loaded shop books fresh)) in
    let booked = found-IsBooked placed.0.id placed.0 placed.1.db kept found in
    rw (found, compensate_failed_preference)
      (if-cases
        (λ (r : Result ServiceError Shop).
          Returns (λ (restored : Shop). SameCounters shop.db restored.db) r)
        (not (same_status placed.0.status pendiente_pago))
        (λ moved. absurd (false≢true (rw waiting at moved)))
        (λ waits.
          Returns-bind (λ done. done.1.stock ≡ (release_reservation placed.0 placed.1.db).1.stock)
            (λ (restored : Shop). SameCounters shop.db restored.db)
            (cancel_unpaid now placed.0 placed.1.db) _
            (cancel_unpaid-Returns now placed.0 placed.1.db waiting)
            (λ done f same j.
              let freed = released_lem placed.0 placed.1.db j booked active in
              let before = counted j in
              let after_reserved : reserved_of j done.1.stock.variants
                  ≡ reserved_of j (release_reservation placed.0 placed.1.db).1.stock.variants =
                ap (λ (t : Stock). reserved_of j t.variants) same in
              let after_total : total_of j done.1.stock.variants
                  ≡ total_of j (release_reservation placed.0 placed.1.db).1.stock.variants =
                ap (λ (t : Stock). total_of j t.variants) same in
              (
                eq_of_parts _ _
                    (omega (int_laws, parts after_reserved, parts freed.0, parts before.0)),
                after_total ∙ freed.1 ∙ before.1,
              ))))
