-- ===== src/Orders/Booking/Cancelling.antt =====
-- A cancellation, by whoever asks for it, keeps the books
-- (backend/src/modules/orders/order-cancellation.service.ts).
use e_commerce_titulo_interm.Common.{
  ℕ, Bool, true, false, Option, none, some, List, [], ◌∷◌, ◌≡◌, refl, arith, if◌then◌else◌, ok,
  if-cases, All, ok-injective, Returns, Returns-bind, Returns-intro, Returns-elim, >>=-eq-ok,
}
use e_commerce_titulo_interm.Orders.Status.{
  OrderStatus, OrderCancellationCause, cancelado, despachado, can_transition, same_status,
}
use e_commerce_titulo_interm.Entities.{
  Order, OrderItem, Db, update_order, stock_lines, order_cancellation,
}
use e_commerce_titulo_interm.Payments.Ledger.{RefundRequest, request_refund}
use e_commerce_titulo_interm.Stock.Rows.{cancelled_order}
use e_commerce_titulo_interm.Stock.Reservation.{StockLine, restock_cancelled_sale}
use e_commerce_titulo_interm.Stock.Presence.{
  HasRow, HasRow-map, release_present, restock_cancelled_sale_total,
}
use e_commerce_titulo_interm.Orders.Lifecycle.{
  ChangeOpts, change_status, with_status, record_history, set_committed, release_reservation,
  return_stock_on_cancel, restock_committed, committed_items, append_internal_note,
}
use e_commerce_titulo_interm.Orders.Cancellation.{
  CancellationEffects, CancelOpts, refund_cancelled, return_stock_unless, apply_cancellation,
}
use e_commerce_titulo_interm.Orders.Booking.Defs.{IsBooked, same-IsBooked}
use e_commerce_titulo_interm.Orders.Booking.Changes.{
  change_status_ok, change_status-Returns, return_stock_on_cancel-IsBooked,
}

-- The refund is registered beside the books.
pub request_refund_rest :
    (request : RefundRequest) (db : Db)
    → let r = request_refund request db in (r.1.orders ≡ db.orders) × (r.1.stock ≡ db.stock)
unfolding request_refund
request_refund_rest request db = ground arith

pub refund_cancelled_rest :
    (previous : OrderStatus) (opts : CancelOpts) (order : Order) (db : Db)
    → let r = refund_cancelled previous opts order db in
      (r.1 ≡ order)
      × (r.2.orders ≡ db.orders)
      × (r.2.stock ≡ db.stock)
      × (r.0.previous_status ≡ previous)
unfolding refund_cancelled append_internal_note
refund_cancelled_rest previous opts order db = ground (
  arith,
  request_refund_rest
      (record {
        order_id = order.id;
        amount = if same_status previous despachado then order.subtotal else order.total;
        origin_cu = opts.refund_origin;
        reason = order_cancellation order.order_number opts.reason;
        payment_id = none;
      })
      db,
)

-- The items of an order that was sold are of variants that have rows.
abbrev pub IsStocked : Order → Db → Type 0
IsStocked order db = All (HasRow db.stock.variants) (stock_lines order.items)

committed_items-All :
    (P : StockLine → Type 0) (items : List OrderItem)
    → All P (stock_lines items)
    → All P (stock_lines (committed_items items))
committed_items-All P [] h = tt
committed_items-All P (i ∷ is) h =
    if-cases (λ kept. All P (stock_lines kept)) i.stock_committed
      (λ committed. (h.0, committed_items-All P is h.1)) (λ other. committed_items-All P is h.1)

release_reservation-IsStocked :
    (order : Order) (db : Db)
    → IsStocked order db
    → let r = release_reservation order db in IsStocked r.0 r.1
unfolding release_reservation
release_reservation-IsStocked order db stocked =
    if-cases (λ (r : Order × Db). IsStocked r.0 r.1) order.stock_reservation_active
      (λ active.
        HasRow-map db.stock.variants _ (λ j. release_present j (stock_lines order.items) db.stock)
          (stock_lines order.items) stocked)
      (λ inactive. stocked)

restock_committed_total :
    (order : Order) (actor_id : Option ℕ) (items : List OrderItem) (db : Db)
    → All (HasRow db.stock.variants) (stock_lines items)
    → (r : Order × Db) × (restock_committed order actor_id items db ≡ ok r)
restock_committed_total order actor_id [] db h = ((order, db), refl)
restock_committed_total order actor_id (i ∷ is) db h =
    let restocked =
      restock_cancelled_sale_total (stock_lines (i ∷ is))
        (record { reason = cancelled_order order.order_number; actor_id = actor_id }) db.stock h in
    (
      (
        set_committed (i ∷ is) false order,
        update_order order.id (set_committed (i ∷ is) false) (record db { stock = restocked.0 }),
      ),
      rw restocked.1,
    )

-- The return of the stock on a cancellation does not throw, and keeps the books.
return_stock-Returns :
    (order : Order) (actor_id : Option ℕ) (db : Db)
    → IsBooked (order, db)
    → IsStocked order db
    → Returns IsBooked (return_stock_on_cancel order actor_id db)
return_stock-Returns order actor_id db booked stocked =
    let state = release_reservation order db in
    let done : (r : Order × Db) × (return_stock_on_cancel order actor_id db ≡ ok r) =
      unfold return_stock_on_cancel in
      restock_committed_total state.0 actor_id (committed_items state.0.items) state.1 (
        committed_items-All (HasRow state.1.stock.variants) state.0.items
          (release_reservation-IsStocked order db stocked)) in
    Returns-intro IsBooked (return_stock_on_cancel order actor_id db) done.1
      (return_stock_on_cancel-IsBooked order actor_id db booked done.1)

-- A cancelled order, with its cause.
abbrev pub IsCancelled : OrderCancellationCause → Order → Type 0
IsCancelled cause order = (order.status ≡ cancelado) × (order.cancellation_cause ≡ some cause)

return_stock-IsCancelled :
    (cause : OrderCancellationCause) (order : Order) (actor_id : Option ℕ) (db : Db)
    {r : Order × Db}
    → IsCancelled cause order
    → return_stock_on_cancel order actor_id db ≡ ok r
    → IsCancelled cause r.0
unfolding return_stock_on_cancel release_reservation
return_stock-IsCancelled cause order actor_id db cancelled e =
    let state = release_reservation order db in
    restocked state.0 (committed_items state.0.items) state.1
      (if-cases (λ (r : Order × Db). IsCancelled cause r.0) order.stock_reservation_active
        (λ active. cancelled) (λ inactive. cancelled))
      e
  where
    restocked :
        (o : Order) (items : List OrderItem) (d : Db) {r : Order × Db}
        → IsCancelled cause o
        → restock_committed o actor_id items d ≡ ok r
        → IsCancelled cause r.0
    restocked o [] d h same = rw (← ok-injective same) h
    restocked o (i ∷ is) d h same =
        let (stock, before, done) =
          >>=-eq-ok (restock_cancelled_sale (stock_lines (i ∷ is)) _ d.stock) _ same in
        rw (← ok-injective done) h

-- The cancelled order has the lines that it had, and the stock is not touched yet.
changed_facts :
    (now : ℕ) (order : Order) (opts : ChangeOpts) (cause : OrderCancellationCause)
    → opts.cancellation_cause ≡ some cause
    → (db : Db) {r : Order × Db} → IsStocked order db
    → change_status now order cancelado opts db ≡ ok r
    → IsStocked r.0 r.1 × IsCancelled cause r.0
unfolding with_status record_history
changed_facts now order opts cause named db stocked e =
    rw (change_status_ok now order cancelado opts db e) (stocked, (refl, named))

-- The step that returns the stock, unless the order was dispatched.
return_stock_unless-IsBooked :
    (cause : OrderCancellationCause) (dispatched : Bool) (actor_id : Option ℕ) (order : Order)
    (db : Db)
    → IsBooked (order, db)
    → IsStocked order db
    → IsCancelled cause order
    → Returns
        (λ r. IsBooked r × IsCancelled cause r.0)
        (return_stock_unless dispatched actor_id (order, db))
return_stock_unless-IsBooked cause true actor_id order db booked stocked cancelled =
    (booked, cancelled)
return_stock_unless-IsBooked cause false actor_id order db booked stocked cancelled =
    let (r, e, kept) =
      Returns-elim IsBooked (return_stock_on_cancel order actor_id db)
        (return_stock-Returns order actor_id db booked stocked) in
    Returns-intro (λ s. IsBooked s × IsCancelled cause s.0)
      (return_stock_on_cancel order actor_id db) e
      (kept, return_stock-IsCancelled cause order actor_id db cancelled e)

-- What a cancellation leaves: the books, the cancelled order and what its effects say.
abbrev pub IsCancellation :
    OrderStatus → OrderCancellationCause → CancellationEffects × Order × Db → Type 0
IsCancellation previous cause r =
    IsBooked (r.1, r.2) × IsCancelled cause r.1 × (r.0.previous_status ≡ previous)

refund_cancelled-IsCancellation :
    (previous : OrderStatus) (opts : CancelOpts) (order : Order) (db : Db)
    → IsBooked (order, db)
    → IsCancelled opts.cause order
    → IsCancellation previous opts.cause (refund_cancelled previous opts order db)
refund_cancelled-IsCancellation previous opts order db booked cancelled =
    let rest = refund_cancelled_rest previous opts order db in
    let r = refund_cancelled previous opts order db in
    (rw rest.0 (same-IsBooked order db r.2 rest.1 rest.2 booked), rw rest.0 cancelled, rest.3)

-- If no variant is oversold, the reserved counter of every variant is the sum of what the orders
-- hold, the variants of the items have rows and the table allows the order to be cancelled, then
-- applyCancellation never throws, leaves the order cancelled with its cause, reports the state
-- the order had, and the counters are still so.
pub apply_cancellation-IsBooked :
    (now : ℕ) (order : Order) (opts : CancelOpts) (db : Db)
    → IsBooked (order, db)
    → IsStocked order db
    → can_transition order.status cancelado ≡ true
    → Returns (IsCancellation order.status opts.cause) (apply_cancellation now order opts db)
unfolding apply_cancellation
apply_cancellation-IsBooked now order opts db booked stocked valid =
    let change_opts : ChangeOpts = record {
      actor_id = opts.actor_id;
      reason = some opts.reason;
      cancellation_cause = some opts.cause;
    } in
    let Q = IsCancellation order.status opts.cause in
    Returns-bind IsBooked Q (change_status now order cancelado change_opts db) _
      (change_status-Returns now order cancelado change_opts db valid refl booked)
      (λ changed e kept.
        let facts = changed_facts now order change_opts opts.cause refl db stocked e in
        Returns-bind (λ r. IsBooked r × IsCancelled opts.cause r.0) Q
          (return_stock_unless (same_status order.status despachado) opts.actor_id changed) _
          (return_stock_unless-IsBooked opts.cause (same_status order.status despachado)
            opts.actor_id changed.0 changed.1 kept facts.0 facts.1)
          (λ returned e' after.
            refund_cancelled-IsCancellation order.status opts returned.0 returned.1 after.0
              after.1))
