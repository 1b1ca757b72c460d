-- ===== src/Orders/Booking/Changes.antt =====
-- `changeStatus`, `releaseReservation` and `returnStockOnCancel` keep the books.
use e_commerce_titulo_interm.Common.{
  ℕ, Bool, true, false, Option, some, List, [], ◌∷◌, ◌≡◌, refl, arith, pos, ◌+ℤ◌, int_laws, parts,
  if◌then◌else◌, ok, if-cases, ◌&&◌, not, is_some, eq_of_parts, ok-injective, sym, ap, throw_if-ok,
  Returns, Returns-intro, >>=-eq-ok, map,
}
use e_commerce_titulo_interm.Errors.{invalid_transition, missing_cancellation_cause}
use e_commerce_titulo_interm.Orders.Status.{OrderStatus, cancelado, can_transition, same_status}
use e_commerce_titulo_interm.Entities.{
  Order, OrderItem, Db, update_order, mark_committed, stock_lines,
}
use e_commerce_titulo_interm.Stock.Rows.{cancelled_order}
use e_commerce_titulo_interm.Stock.Reservation.{MovementOpts, release, restock_cancelled_sale}
use e_commerce_titulo_interm.Stock.Counters.{qty_of}
use e_commerce_titulo_interm.Stock.Reserving.{release_counters}
use e_commerce_titulo_interm.Stock.Restocking.{restock_cancelled_sale_counters}
use mathlib.Core.Path.{ap₂}
use e_commerce_titulo_interm.Stock.Soundness.{release-IsSound, restock_cancelled_sale-IsSound}
use e_commerce_titulo_interm.Orders.Lifecycle.{
  ChangeOpts, change_status, with_status, record_history, write_status, set_reservation,
  release_reservation, return_stock_on_cancel, committed_items, set_committed, restock_committed,
}
use e_commerce_titulo_interm.Orders.Booking.Defs.{
  held, IsBooked, update_order-IsBooked, held-le-reserved,
}

pub change_status_valid :
    (now : ℕ) (order : Order) (target : OrderStatus) (opts : ChangeOpts) (db : Db)
    → can_transition order.status target ≡ true
    → (same_status target cancelado && not (is_some opts.cancellation_cause)) ≡ false
    → (r : Order × Db) × (change_status now order target opts db ≡ ok r)
unfolding change_status
change_status_valid now order target opts db valid caused = (
  (
    with_status now target opts.cancellation_cause order,
    record_history order.id (some order.status) target opts (
        update_order order.id (write_status (with_status now target opts.cancellation_cause order))
          db),
  ),
  rw (valid, caused),
)

module _ (now : ℕ) (order : Order) (target : OrderStatus) (opts : ChangeOpts) (db : Db)
    {r : Order × Db} (e : change_status now order target opts db ≡ ok r) where
  -- What a successful change of status returns.
  pub change_status_ok :
      let changed = with_status now target opts.cancellation_cause order in
      r ≡ (
        changed,
        record_history order.id
            (some order.status)
            target
            opts
            (update_order order.id (write_status changed) db),
      )
  unfolding change_status
  change_status_ok =
      let valid =
        throw_if-ok (not (can_transition order.status target))
          (invalid_transition order.status target) _ e in
      let caused =
        throw_if-ok (same_status target cancelado && not (is_some opts.cancellation_cause))
          missing_cancellation_cause _ valid.1 in
      sym (ok-injective caused.1)

  pub change_status-IsBooked : IsBooked (order, db) → IsBooked r
  unfolding with_status record_history
  change_status-IsBooked booked =
      let changed = with_status now target opts.cancellation_cause order in
      let written =
        update_order-IsBooked order db db.stock (write_status changed) booked (λ o. refl)
          booked.accounted.sound (λ j. refl) in
      rw change_status_ok (record {
        accounted = record {
          sound = written.accounted.sound;
          reserved = written.accounted.reserved;
        };
        locked = written.locked;
      })

  -- A change of status leaves the items and the reservation of the order.
  pub change_status_rest :
      (r.0.items ≡ order.items) × (r.0.stock_reservation_active ≡ order.stock_reservation_active)
  unfolding with_status
  change_status_rest = (
    ap (λ s. s.0.items) change_status_ok,
    ap (λ s. s.0.stock_reservation_active) change_status_ok,
  )

-- A change of status along the table, with a cause if it cancels, does not throw.
pub change_status-Returns :
    (now : ℕ) (order : Order) (target : OrderStatus) (opts : ChangeOpts) (db : Db)
    → can_transition order.status target ≡ true
    → (same_status target cancelado && not (is_some opts.cancellation_cause)) ≡ false
    → IsBooked (order, db)
    → Returns IsBooked (change_status now order target opts db)
change_status-Returns now order target opts db valid caused booked =
    let e : (r : Order × Db) × (change_status now order target opts db ≡ ok r) =
      change_status_valid now order target opts db valid caused in
    Returns-intro IsBooked (change_status now order target opts db) e.1
      (change_status-IsBooked now order target opts db e.1 booked)

-- Releasing the reservation takes off the counters exactly what the order held.
pub release_reservation-IsBooked :
    (order : Order) (db : Db) → IsBooked (order, db) → IsBooked (release_reservation order db)
unfolding release_reservation
release_reservation-IsBooked order db booked =
    if-cases IsBooked order.stock_reservation_active
      (λ active.
        let lines = stock_lines order.items in
        let holds : (j : ℕ) → held j order ≡ qty_of j lines =
          λ j. ap (λ b. if b then qty_of j lines else 0) active in
        update_order-IsBooked order db (release lines db.stock) (set_reservation false) booked
          (λ o. refl) (release-IsSound lines db.stock booked.accounted.sound)
          (λ j.
            let (rest, counter) = held-le-reserved order db booked j in
            let freed = release_counters lines db.stock j (omega (arith, parts counter, holds j)) in
            eq_of_parts _ _ (omega (int_laws, parts freed.0, holds j))))
      (λ inactive. booked)

-- After a release the order holds nothing.
pub release_reservation_inactive :
    (order : Order) (db : Db) → (release_reservation order db).0.stock_reservation_active ≡ false
unfolding release_reservation
release_reservation_inactive order db = ground arith

pub release_reservation_status :
    (order : Order) (db : Db) → (release_reservation order db).0.status ≡ order.status
unfolding release_reservation
release_reservation_status order db = ground arith

-- Marking items changes no line.
pub stock_lines-mark_committed :
    (ids : List ℕ) (b : Bool) (items : List OrderItem)
    → stock_lines (mark_committed ids b items) ≡ stock_lines items
unfolding mark_committed
stock_lines-mark_committed ids b [] = refl
stock_lines-mark_committed ids b (i ∷ is) = ground (arith, stock_lines-mark_committed ids b is)

pub held-set_committed :
    (j : ℕ) (chosen : List OrderItem) (b : Bool) (order : Order)
    → held j (set_committed chosen b order) ≡ held j order
held-set_committed j chosen b order =
    ap (λ lines. if order.stock_reservation_active then qty_of j lines else 0)
      (stock_lines-mark_committed (map (λ i. i.id) chosen) b order.items)

-- What was sold comes back to the total, and no reservation changes.
restock_committed-IsBooked :
    (order : Order) (actor_id : Option ℕ) (items : List OrderItem) (db : Db) {r : Order × Db}
    → IsBooked (order, db)
    → restock_committed order actor_id items db ≡ ok r
    → IsBooked r
restock_committed-IsBooked order actor_id [] db booked e = rw (← ok-injective e) booked
restock_committed-IsBooked order actor_id (i ∷ is) db booked e =
    let opts : MovementOpts = record {
      reason = cancelled_order order.order_number;
      actor_id = actor_id;
    } in
    let (stock, restocked, done) =
      >>=-eq-ok (restock_cancelled_sale (stock_lines (i ∷ is)) opts db.stock) _ e in
    rw (← ok-injective done) (
      update_order-IsBooked order db stock (set_committed (i ∷ is) false) booked (λ o. refl)
        (restock_cancelled_sale-IsSound (stock_lines (i ∷ is)) opts db.stock booked.accounted.sound
          restocked)
        (λ j.
          let counted =
            restock_cancelled_sale_counters j (stock_lines (i ∷ is)) opts db.stock restocked in
          ap₂ (λ a n. a +ℤ pos n) counted.0 (sym (held-set_committed j (i ∷ is) false order))))

pub return_stock_on_cancel-IsBooked :
    (order : Order) (actor_id : Option ℕ) (db : Db) {r : Order × Db}
    → IsBooked (order, db)
    → return_stock_on_cancel order actor_id db ≡ ok r
    → IsBooked r
unfolding return_stock_on_cancel
return_stock_on_cancel-IsBooked order actor_id db booked e =
    let (released, written) = release_reservation order db in
    restock_committed-IsBooked released actor_id (committed_items released.items) written
      (release_reservation-IsBooked order db booked) e
