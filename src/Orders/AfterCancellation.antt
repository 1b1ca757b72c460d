-- ===== src/Orders/AfterCancellation.antt =====
-- backend/src/modules/orders/order-cancellation.service.ts, `cancelByCustomer` and
-- `afterCancellation`, and backend/src/modules/orders/admin/admin-orders.service.ts, `cancel`: a
-- transaction, and what follows its commit. What the gateway answers to a refund is a parameter, and
-- so is what the look-up of the user and the notice come to.
use e_commerce_titulo_interm.Common.{
  ℕ, Bool, Option, none, some, if◌then◌else◌, Result, ok, err, ◌>>=◌, ◌>>◌,
}
use Prim.Native.String.{String}
use e_commerce_titulo_interm.Errors.{ServiceError}
use e_commerce_titulo_interm.Orders.Status.{OrderStatus, includes, awaiting_payment_statuses}
use e_commerce_titulo_interm.Entities.{Text, Order, Refund, Db}
use e_commerce_titulo_interm.Payments.Refunds.{RefundAnswer, dispatch}
use e_commerce_titulo_interm.Orders.Cancellation.{
  CancellationEffects, customer_cancel_transaction, admin_cancel_transaction,
}

-- What follows the commit: how it ends, the preference that the gateway is asked to expire, and the
-- tables.
pub record Aftermath : Type 0 where
  pub notice : Result ServiceError (Unit {0})
  pub expired_preference : Option ℕ
  pub tables : Db

-- The preference of an order that was not paid. A failure of the gateway is only logged.
abbrev pub preference_to_expire : Order → OrderStatus → Option ℕ
preference_to_expire order previous =
    if includes awaiting_payment_statuses previous then order.payment_preference_id else none

-- `.catch((err) => this.logger.error(…))`
abbrev pub caught : Result ServiceError (Unit {0}) → Result ServiceError (Unit {0})
caught (ok done) = ok done
caught (err e) = ok tt

module _ (ask : Refund → ℕ → RefundAnswer) (delays : ℕ)
    (notify : Order → CancellationEffects → Result ServiceError (Unit {0})) where
  -- `if (effects.refundId) await this.refunds.dispatch(effects.refundId)`
  abbrev pub dispatch_requested : ℕ → Option ℕ → Db → Db
  dispatch_requested now none db = db
  dispatch_requested now (some id) db = dispatch ask delays now id db

  -- `afterCancellation`
  unfoldable pub after_cancellation : ℕ → Order → CancellationEffects → Db → Aftermath
  unfolding dispatch
  after_cancellation now order effects db = record {
    notice = notify order effects;
    expired_preference = preference_to_expire order effects.previous_status;
    tables = dispatch_requested now effects.refund_id db;
  }

  -- What the two cancellations do after their transaction: `{ refundRequested }`, and the tables.
  abbrev pub finish_cancellation :
      ℕ → CancellationEffects × Order × Db → Result ServiceError (Bool × Db)
  finish_cancellation now (effects, order, db) = do
    let after = after_cancellation now order effects db
    caught after.notice
    ok (effects.refund_requested, after.tables)

  -- `cancelByCustomer`. The result keeps the tables of the commit only if nothing is thrown after it.
  unfoldable pub cancel_by_customer :
      ℕ → ℕ → ℕ → OrderStatus → Option String → Db → Result ServiceError (Bool × Db)
  unfolding customer_cancel_transaction after_cancellation
  cancel_by_customer now user_id order_id expected reason db = do
    committed ← customer_cancel_transaction now user_id order_id expected reason db
    finish_cancellation now committed

  -- `AdminOrdersService.cancel`
  unfoldable pub admin_cancel :
      ℕ → ℕ → ℕ → OrderStatus → Text → Db → Result ServiceError (Bool × Db)
  unfolding admin_cancel_transaction after_cancellation
  admin_cancel now admin_id order_id expected reason db = do
    committed ← admin_cancel_transaction now admin_id order_id expected reason db
    finish_cancellation now committed
