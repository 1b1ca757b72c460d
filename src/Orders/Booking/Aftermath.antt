-- ===== src/Orders/Booking/Aftermath.antt =====
-- What a cancellation leaves after its commit, whatever the gateway answers and whether or not the
-- notice is sent (backend/src/modules/orders/order-cancellation.service.ts).
use e_commerce_titulo_interm.Common.{
  ℕ, Bool, true, false, Option, none, some, List, [], ◌∷◌, ◌≡◌, refl, ap, subst, ◌∙◌, ok, err,
  if-cases, Result, Returns, Returns-intro, Returns-elim, IfOk, IfOk-bind, IfOk-intro, IfOk-after,
}
use e_commerce_titulo_interm.Errors.{ServiceError}
use e_commerce_titulo_interm.Orders.Status.{
  OrderCancellationCause, cancelado, despachado, same_status, can_transition,
}
use e_commerce_titulo_interm.Stock.Rows.{cancelled_order}
use e_commerce_titulo_interm.Stock.Reservation.{restock_cancelled_sale}
use e_commerce_titulo_interm.Entities.{Order, OrderItem, Refund, Db, find_order, stock_lines}
use e_commerce_titulo_interm.Payments.Refunds.{RefundAnswer}
use e_commerce_titulo_interm.Payments.RefundSteps.{IsSettling, IsSettling-refl, dispatch-IsSettling}
use e_commerce_titulo_interm.Orders.Lifecycle.{
  ChangeOpts, change_status, with_status, release_reservation, restock_committed, committed_items,
  return_stock_on_cancel,
}
use e_commerce_titulo_interm.Orders.Cancellation.{
  CancellationEffects, CancelOpts, return_stock_unless, apply_cancellation,
}
use e_commerce_titulo_interm.Orders.AfterCancellation.{
  dispatch_requested, caught, after_cancellation, finish_cancellation,
}
use e_commerce_titulo_interm.Orders.Booking.Defs.{IsAccounted, IsBooked, same-IsBooked}
use e_commerce_titulo_interm.Orders.Booking.Changes.{change_status_ok}
use e_commerce_titulo_interm.Orders.Booking.Cancelling.{
  IsStocked, IsCancelled, IsCancellation, refund_cancelled_rest, apply_cancellation-IsBooked,
}

-- The steps of a cancellation keep the key of the order.

restock_committed_key :
    (order : Order) (actor_id : Option ℕ) (items : List OrderItem) (db : Db)
    → IfOk (λ r. r.0.id ≡ order.id) (restock_committed order actor_id items db)
restock_committed_key order actor_id [] db = refl
restock_committed_key order actor_id (i ∷ is) db =
    IfOk-after (λ r. r.0.id ≡ order.id)
      (restock_cancelled_sale (stock_lines (i ∷ is))
        (record { reason = cancelled_order order.order_number; actor_id = actor_id }) db.stock)
      _ (λ stock. refl)

return_stock_key :
    (dispatched : Bool) (actor_id : Option ℕ) (state : Order × Db)
    → IfOk (λ r. r.0.id ≡ state.0.id) (return_stock_unless dispatched actor_id state)
unfolding return_stock_on_cancel release_reservation
return_stock_key true actor_id (order, db) = refl
return_stock_key false actor_id (order, db) =
    if-cases
      (λ (state : Order × Db).
        IfOk (λ r. r.0.id ≡ order.id)
          (restock_committed state.0 actor_id (committed_items state.0.items) state.1))
      order.stock_reservation_active (λ active. restock_committed_key _ actor_id _ _)
      (λ inactive. restock_committed_key _ actor_id _ _)

apply_cancellation_key :
    (now : ℕ) (order : Order) (opts : CancelOpts) (db : Db)
    → IfOk (λ r. r.1.id ≡ order.id) (apply_cancellation now order opts db)
unfolding apply_cancellation with_status
apply_cancellation_key now order opts db =
    let change_opts : ChangeOpts = record {
      actor_id = opts.actor_id;
      reason = some opts.reason;
      cancellation_cause = some opts.cause;
    } in
    IfOk-bind (λ r. r.0.id ≡ order.id) (λ r. r.1.id ≡ order.id)
      (change_status now order cancelado change_opts db) _
      (IfOk-intro (λ r. r.0.id ≡ order.id) (change_status now order cancelado change_opts db)
        (λ r e. rw (change_status_ok now order cancelado change_opts db e) refl))
      (λ changed same.
        IfOk-bind (λ r. r.0.id ≡ changed.0.id) (λ r. r.1.id ≡ order.id)
          (return_stock_unless (same_status order.status despachado) opts.actor_id changed) _
          (return_stock_key (same_status order.status despachado) opts.actor_id changed)
          (λ returned kept.
            ap (λ o. o.id) (refund_cancelled_rest order.status opts returned.0 returned.1).0
            ∙ kept
            ∙ same))

-- What the transaction of a cancellation commits.
abbrev pub IsCommitted : Order → OrderCancellationCause → CancellationEffects × Order × Db → Type 0
IsCommitted order cause r = IsCancellation order.status cause r × (r.1.id ≡ order.id)

pub apply_cancellation-IsCommitted :
    (now : ℕ) (order : Order) (opts : CancelOpts) (db : Db)
    → IsBooked (order, db)
    → IsStocked order db
    → can_transition order.status cancelado ≡ true
    → Returns (IsCommitted order opts.cause) (apply_cancellation now order opts db)
apply_cancellation-IsCommitted now order opts db booked stocked valid =
    let (r, e, kept) =
      Returns-elim (IsCancellation order.status opts.cause) (apply_cancellation now order opts db)
        (apply_cancellation-IsBooked now order opts db booked stocked valid) in
    Returns-intro (IsCommitted order opts.cause) (apply_cancellation now order opts db) e
      (kept, subst (IfOk (λ r. r.1.id ≡ order.id)) e (apply_cancellation_key now order opts db))

-- What a cancellation leaves in the tables: no variant oversold, counters that are the sum of what the
-- orders hold, and the row of the order, cancelled with its cause.
pub record IsCancelledRow (order_id : ℕ) (cause : OrderCancellationCause) (r : Bool × Db)
    : Type 0 where
  pub accounted : IsAccounted r.1
  pub row : Order
  pub found : find_order order_id r.1.orders ≡ some row
  pub cancelled : IsCancelled cause row

module _ (ask : Refund → ℕ → RefundAnswer) (delays : ℕ)
    (notify : Order → CancellationEffects → Result ServiceError (Unit {0})) where
  dispatch_requested-IsSettling :
      (now : ℕ) (refund_id : Option ℕ) (db : Db)
      → IsSettling db (dispatch_requested ask delays notify now refund_id db)
  dispatch_requested-IsSettling now none db = IsSettling-refl db
  dispatch_requested-IsSettling now (some id) db = dispatch-IsSettling ask delays now id db

  caught_all : (r : Result ServiceError (Unit {0})) → caught r ≡ ok tt
  caught_all (ok tt) = refl
  caught_all (err e) = refl

  pub finish_cancellation-Returns :
      (now : ℕ) (order : Order) (cause : OrderCancellationCause)
      (r : CancellationEffects × Order × Db)
      → IsCommitted order cause r
      → Returns (IsCancelledRow order.id cause) (finish_cancellation ask delays notify now r)
  unfolding after_cancellation
  finish_cancellation-Returns now order cause (effects, cancelled, db) (kept, same) =
      let (steps, rest) = dispatch_requested-IsSettling now effects.refund_id db in
      let after = dispatch_requested ask delays notify now effects.refund_id db in
      let booked =
        same-IsBooked cancelled db after (ap (λ (d : Db). d.orders) rest)
          (ap (λ (d : Db). d.stock) rest) kept.0 in
      rw (caught_all (notify cancelled effects)) (record {
        accounted = booked.accounted;
        row = cancelled;
        found = subst (λ id. find_order id after.orders ≡ some cancelled) same booked.locked;
        cancelled = kept.1;
      })
