-- ===== src/Orders/Booking/Approval.antt =====
-- The firm sale of an approved payment keeps the books.
use e_commerce_titulo_interm.Common.{
  ℕ, Bool, true, false, List, ◌≡◌, refl, arith, pos, ◌+ℤ◌, ◌≤ℤ◌, int_laws, parts, if◌then◌else◌, ok,
  false≢true, if-cases, ◌&&◌, not, eq_of_parts, ap, ◌>>=◌, Returns, Returns-bind, All, keep,
}
use e_commerce_titulo_interm.Orders.Status.{
  OrderStatus, can_transition, includes, paid_statuses, same_status, cancelado, pagado,
}
use e_commerce_titulo_interm.Entities.{
  Order, Db, stock_lines, payment_approved, payment_approved_late,
}
use e_commerce_titulo_interm.Stock.Rows.{Stock, Reason, sale}
use e_commerce_titulo_interm.Stock.Reservation.{StockLine, confirm_sale}
use e_commerce_titulo_interm.Stock.Counters.{reserved_of, qty_of}
use e_commerce_titulo_interm.Stock.Selling.{
  taken_reserved, confirm_sale_counters, confirm_sale_total,
}
use e_commerce_titulo_interm.Stock.Availability.{IsPositive, confirm_sale_covered}
use e_commerce_titulo_interm.Stock.Soundness.{confirm_sale-IsSound}
use e_commerce_titulo_interm.Orders.Lifecycle.{
  because, set_reservation, sold, is_covered, is_expired_cause, confirm_payment, apply_approved,
}
use e_commerce_titulo_interm.Orders.Booking.Defs.{
  held, IsBooked, update_order-IsBooked, held-le-reserved,
}
use e_commerce_titulo_interm.Orders.Booking.Changes.{change_status-Returns, held-set_committed}
use e_commerce_titulo_interm.Orders.Booking.Orderly.{
  IsOrderly, IsBookedResult, change_status-IsOrderly, note_shortages-IsBooked,
}

-- While the reservation is active the firm sale leaves no shortage.
no_shortage_reserved :
    (active : Bool) (lines : List StockLine) (reason : Reason) (s : Stock)
    {r : List StockLine × Stock}
    → All IsPositive lines
    → ((j : ℕ) → pos (taken_reserved active (qty_of j lines)) ≤ℤ reserved_of j s.variants)
    → confirm_sale lines active reason s ≡ ok r
    → (j : ℕ) → taken_reserved active (qty_of j r.0) ≡ 0
no_shortage_reserved true lines reason s positive enough e j =
    ap (λ ls. qty_of j ls) (confirm_sale_covered lines reason s positive enough e)
no_shortage_reserved false lines reason s positive enough e j = refl

-- A firm sale of an order's lines lowers the reserved counters by what the order held.
confirm_sale_moves :
    (order : Order) (db : Db) {r : List StockLine × Stock}
    → IsBooked (order, db)
    → All IsPositive (stock_lines order.items)
    → confirm_sale (stock_lines order.items) order.stock_reservation_active (sale order.id) db.stock
      ≡ ok r
    → (j : ℕ) → reserved_of j r.1.variants +ℤ pos (held j order) ≡ reserved_of j db.stock.variants
confirm_sale_moves order db booked positive e j =
    let lines = stock_lines order.items in
    let active = order.stock_reservation_active in
    let counted = confirm_sale_counters lines active (sale order.id) db.stock j e in
    let enough : (k : ℕ) → pos (held k order) ≤ℤ reserved_of k db.stock.variants =
      λ k. omega (int_laws, parts (held-le-reserved order db booked k).1) in
    let none_short =
      no_shortage_reserved active lines (sale order.id) db.stock positive enough e j in
    eq_of_parts _ _ (omega (int_laws, parts counted.1, none_short))

not_paid-can_transition :
    (status : OrderStatus)
    → includes paid_statuses status ≡ false
    → can_transition status pagado ≡ true
unfolding can_transition
not_paid-can_transition status h = ground arith

confirm_payment-IsBooked :
    (now : ℕ) (order : Order) (payment_id : ℕ) (db : Db)
    → IsBooked (order, db)
    → All IsPositive (stock_lines order.items)
    → includes paid_statuses order.status ≡ false
    → Returns IsBookedResult (confirm_payment now order payment_id db)
unfolding confirm_payment
confirm_payment-IsBooked now order payment_id db booked positive unpaid =
    let lines = stock_lines order.items in
    let active = order.stock_reservation_active in
    let (sale_result, confirmed) = confirm_sale_total lines active (sale order.id) db.stock in
    let (shortages, stock) = sale_result in
    let written =
      update_order-IsBooked order db stock (sold shortages) booked (λ o. refl)
        (confirm_sale-IsSound lines active (sale order.id) db.stock booked.accounted.sound
          confirmed)
        (λ j.
          let moves = confirm_sale_moves order db booked positive confirmed j in
          let left =
            held-set_committed j (keep (is_covered shortages) order.items) true
              (set_reservation false order) in
          eq_of_parts _ _ (omega (int_laws, parts moves, left))) in
    let reason = because (
      if same_status order.status cancelado
      then payment_approved_late payment_id
      else payment_approved payment_id) in
    rw (confirmed, ◌>>=◌)
      (Returns-bind IsBooked IsBookedResult _ _
        (change_status-Returns now (sold shortages order) pagado reason _
          (not_paid-can_transition order.status unpaid) refl
          (note_shortages-IsBooked (sold shortages order) order shortages _ written))
        (λ done e kept. (
          kept,
          change_status-IsOrderly now (sold shortages order) pagado reason _
              (λ held_still. absurd (false≢true held_still)) e,
        )))

pub apply_approved-IsBooked :
    (now : ℕ) (order : Order) (payment_id : ℕ) (db : Db)
    → IsBooked (order, db)
    → IsOrderly order
    → All IsPositive (stock_lines order.items)
    → Returns IsBookedResult (apply_approved now order payment_id db)
unfolding apply_approved
apply_approved-IsBooked now order payment_id db booked orderly positive =
    if-cases (Returns IsBookedResult) (includes paid_statuses order.status)
      (λ paid. (booked, orderly))
      (λ unpaid.
        if-cases (Returns IsBookedResult)
          (same_status order.status cancelado && not (is_expired_cause order.cancellation_cause))
          (λ deliberate. (booked, orderly))
          (λ open_order. confirm_payment-IsBooked now order payment_id db booked positive unpaid))
