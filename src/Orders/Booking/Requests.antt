-- ===== src/Orders/Booking/Requests.antt =====
-- The cancellations that a customer and the administrator ask for, from the request to the tables
-- and the answer (backend/src/modules/orders/order-cancellation.service.ts and
-- backend/src/modules/orders/admin/admin-orders.service.ts).
use e_commerce_titulo_interm.Common.{
  ℕ, true, false, Option, some, ◌≡◌, subst, arith, Result, Returns, Returns-bind, ==_iff,
}
use Prim.Native.String.{String}
use e_commerce_titulo_interm.Errors.{ServiceError}
use e_commerce_titulo_interm.Orders.Status.{
  OrderStatus, cancelado, cliente, administrador, includes, same_status,
}
use e_commerce_titulo_interm.Orders.Policies.{
  allowed, customer_cancellation, admin_non_cancellable_statuses,
}
use e_commerce_titulo_interm.Orders.PolicyLaws.{policies_can_transition}
use e_commerce_titulo_interm.Entities.{Text, Order, Refund, Db, find_order}
use e_commerce_titulo_interm.Payments.Status.{cu_14, cu_19}
use e_commerce_titulo_interm.Payments.Refunds.{RefundAnswer}
use e_commerce_titulo_interm.Orders.Cancellation.{
  CancellationEffects, customer_cancel_transaction, admin_cancel_transaction, customer_reason,
}
use e_commerce_titulo_interm.Orders.AfterCancellation.{
  finish_cancellation, cancel_by_customer, admin_cancel,
}
use e_commerce_titulo_interm.Orders.RowLaws.{find_order_id}
use e_commerce_titulo_interm.Orders.Booking.Defs.{IsAccounted}
use e_commerce_titulo_interm.Orders.Booking.Expiring.{find_order-IsBooked}
use e_commerce_titulo_interm.Orders.Booking.Cancelling.{IsStocked}
use e_commerce_titulo_interm.Orders.Booking.Aftermath.{
  IsCommitted, apply_cancellation-IsCommitted, IsCancelledRow, finish_cancellation-Returns,
}

same_status_refl : (s : OrderStatus) → same_status s s ≡ true
same_status_refl s = ground arith

customer_cancel_transaction-IsCommitted :
    (now user_id order_id : ℕ) (reason : Option String) (order : Order) (db : Db) {d : Option ℕ}
    → IsAccounted db
    → find_order order_id db.orders ≡ some order
    → order.user_id ≡ user_id
    → customer_cancellation order now ≡ allowed d
    → IsStocked order db
    → Returns
        (IsCommitted order cliente)
        (customer_cancel_transaction now user_id order_id order.status reason db)
unfolding customer_cancel_transaction
customer_cancel_transaction-IsCommitted now user_id order_id reason order db {d} accounted there own
      available stocked =
    rw
      (
        there,
        customer_cancel_transaction,
        (==_iff order.user_id user_id).1 own,
        same_status_refl order.status,
        available,
      )
      (apply_cancellation-IsCommitted now order
        (record {
          actor_id = some user_id;
          cause = cliente;
          reason = customer_reason reason;
          refund_origin = cu_14;
        })
        db (find_order-IsBooked order_id db accounted there) stocked
        ((policies_can_transition order now cancelado).0 (d, available)))

admin_cancel_transaction-IsCommitted :
    (now admin_id order_id : ℕ) (reason : Text) (order : Order) (db : Db)
    → IsAccounted db
    → find_order order_id db.orders ≡ some order
    → includes admin_non_cancellable_statuses order.status ≡ false
    → IsStocked order db
    → Returns
        (IsCommitted order administrador)
        (admin_cancel_transaction now admin_id order_id order.status reason db)
unfolding admin_cancel_transaction
admin_cancel_transaction-IsCommitted now admin_id order_id reason order db accounted there
      open_order stocked =
    rw (there, admin_cancel_transaction, same_status_refl order.status, open_order)
      (apply_cancellation-IsCommitted now order
        (record {
          actor_id = some admin_id;
          cause = administrador;
          reason = reason;
          refund_origin = cu_19;
        })
        db (find_order-IsBooked order_id db accounted there) stocked
        ((policies_can_transition order now cancelado).1 open_order))

module _ (ask : Refund → ℕ → RefundAnswer) (delays : ℕ)
    (notify : Order → CancellationEffects → Result ServiceError (Unit {0})) where
  -- If no variant is oversold and the reserved counters are the sum of what the orders hold, the
  -- order is there, of that customer, in the state that the customer saw and open to cancellation
  -- now, and the variants of its items have rows, then cancelByCustomer, with what follows its
  -- commit, never throws, whatever the gateway answers to the refund and even if the notice
  -- fails; its row is cancelled by the customer, no variant is oversold and the counters are the
  -- sum of what the orders hold.
  pub cancel_by_customer-IsBooked :
      (now user_id order_id : ℕ) (reason : Option String) (order : Order) (db : Db) {d : Option ℕ}
      → IsAccounted db
      → find_order order_id db.orders ≡ some order
      → order.user_id ≡ user_id
      → customer_cancellation order now ≡ allowed d
      → IsStocked order db
      → Returns
          (IsCancelledRow order_id cliente)
          (cancel_by_customer ask delays notify now user_id order_id order.status reason db)
  unfolding cancel_by_customer
  cancel_by_customer-IsBooked now user_id order_id reason order db accounted there own available
        stocked =
      Returns-bind (IsCommitted order cliente) (IsCancelledRow order_id cliente)
        (customer_cancel_transaction now user_id order_id order.status reason db) _
        (customer_cancel_transaction-IsCommitted now user_id order_id reason order db accounted
          there own available stocked)
        (λ r e kept.
          subst
            (λ id.
              Returns (IsCancelledRow id cliente) (finish_cancellation ask delays notify now r))
            (find_order_id order_id db.orders there)
            (finish_cancellation-Returns ask delays notify now order cliente r kept))

  -- If no variant is oversold and the reserved counters are the sum of what the orders hold, the
  -- order is there, in the state that the administrator saw and in none of the states that may
  -- not be cancelled, and the variants of its items have rows, then the cancellation of the
  -- administrator, with what follows its commit, never throws, whatever the gateway answers to
  -- the refund and even if the notice fails; the row of the order is cancelled by the
  -- administrator, no variant is oversold and the counters are the sum of what the orders hold.
  pub admin_cancel-IsBooked :
      (now admin_id order_id : ℕ) (reason : Text) (order : Order) (db : Db)
      → IsAccounted db
      → find_order order_id db.orders ≡ some order
      → includes admin_non_cancellable_statuses order.status ≡ false
      → IsStocked order db
      → Returns
          (IsCancelledRow order_id administrador)
          (admin_cancel ask delays notify now admin_id order_id order.status reason db)
  unfolding admin_cancel
  admin_cancel-IsBooked now admin_id order_id reason order db accounted there open_order stocked =
      Returns-bind (IsCommitted order administrador) (IsCancelledRow order_id administrador)
        (admin_cancel_transaction now admin_id order_id order.status reason db) _
        (admin_cancel_transaction-IsCommitted now admin_id order_id reason order db accounted there
          open_order stocked)
        (λ r e kept.
          subst
            (λ id.
              Returns (IsCancelledRow id administrador)
                (finish_cancellation ask delays notify now r))
            (find_order_id order_id db.orders there)
            (finish_cancellation-Returns ask delays notify now order administrador r kept))
