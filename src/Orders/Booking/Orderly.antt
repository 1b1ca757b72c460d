-- ===== src/Orders/Booking/Orderly.antt =====
-- The orders that hold a reservation, and the notes and changes of status beside the books.
use e_commerce_titulo_interm.Common.{ℕ, true, Option, List, [], ◌∷◌, ◌≡◌, ok, ◌⊎◌}
use e_commerce_titulo_interm.Orders.Status.{
  OrderStatus, pendiente_pago, pago_pendiente_acreditacion,
}
use e_commerce_titulo_interm.Entities.{Order, Db, Text}
use e_commerce_titulo_interm.Stock.Reservation.{StockLine}
use e_commerce_titulo_interm.Orders.Lifecycle.{
  ChangeOpts, with_status, ApplyPaymentResult, change_status, append_internal_note, note_shortages,
}
use e_commerce_titulo_interm.Orders.Booking.Defs.{IsBooked}
use e_commerce_titulo_interm.Orders.Booking.Changes.{change_status_ok}

-- A note is written beside the books.
pub append_internal_note-IsBooked :
    (order : Order) (text : Text) (author_id : Option ℕ) (id : ℕ) (db : Db)
    → IsBooked (order, db)
    → IsBooked (order, append_internal_note id text author_id db)
unfolding append_internal_note
append_internal_note-IsBooked order text author_id id db booked = record {
  accounted = record { sound = booked.accounted.sound; reserved = booked.accounted.reserved };
  locked = booked.locked;
}

pub note_shortages-IsBooked :
    (order noted : Order) (shortages : List StockLine) (db : Db)
    → IsBooked (order, db)
    → IsBooked (order, note_shortages noted shortages db)
note_shortages-IsBooked order noted [] db booked = booked
note_shortages-IsBooked order noted (s ∷ ss) db booked =
    append_internal_note-IsBooked order _ _ noted.id db booked

-- An order holds a reservation only while it waits for a payment that was not rejected.
abbrev pub IsOrderly : Order → Type 0
IsOrderly order =
    order.stock_reservation_active ≡ true
    → (order.status ≡ pendiente_pago) ⊎ (order.status ≡ pago_pendiente_acreditacion)

-- Of what `applyPaymentOutcome` returns: the books are kept, and the order is orderly.
abbrev pub IsBookedResult : ApplyPaymentResult × Order × Db → Type 0
IsBookedResult r = IsBooked (r.1, r.2) × IsOrderly r.1

-- A change of status leaves the order orderly if the new status is one that may hold a reservation,
-- or the order holds none.
pub change_status-IsOrderly :
    (now : ℕ) (order : Order) (target : OrderStatus) (opts : ChangeOpts) (db : Db) {r : Order × Db}
    → (order.stock_reservation_active ≡ true
        → (target ≡ pendiente_pago) ⊎ (target ≡ pago_pendiente_acreditacion))
    → change_status now order target opts db ≡ ok r
    → IsOrderly r.0
unfolding with_status
change_status-IsOrderly now order target opts db free e =
    rw (change_status_ok now order target opts db e) free
