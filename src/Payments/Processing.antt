-- ===== src/Payments/Processing.antt =====
-- backend/src/modules/payments/payments.service.ts: `processPayment`, which brings a payment of the
-- gateway into the books. The answers of the gateway are parameters; the audit log and the e-mails
-- are left out.
use e_commerce_titulo_interm.Common.{
  ℕ, zero, suc, Bool, true, false, Option, none, some, List, [], ◌∷◌, ◌+◌, ◌&&◌, ◌||◌, not, ◌==◌,
  if◌then◌else◌, find, is_some, Result, ok, err, ◌>>=◌,
}
use mathlib.Core.Option
use e_commerce_titulo_interm.Errors.{ServiceError, entity_not_found}
use e_commerce_titulo_interm.Payments.Status.{
  PaymentStatus, PaymentOutcome, same_payment_status, is_final, GatewayStatus, status_map,
  RefundOrigin,
}
use e_commerce_titulo_interm.Entities.{
  Text, final_conflict, amount_mismatch, Order, Payment, Refund, Db, find_order,
}
use e_commerce_titulo_interm.Orders.Lifecycle.{
  ApplyPaymentResult, append_internal_note, apply_payment_outcome,
}
use e_commerce_titulo_interm.Payments.Ledger.{request_refund}
use e_commerce_titulo_interm.Payments.Refunds.{RefundAnswer, dispatch}

-- `GatewayPayment`: `amount` is in cents, `order_id` is none where the reference is missing or is no
-- uuid, and a currency is a number.
pub record GatewayPayment : Type 0 where
  pub id : ℕ
  pub status : GatewayStatus
  pub amount : ℕ
  pub currency : Option ℕ
  pub order_id : Option ℕ

-- `TxResult`
pub data TxResult : Type 0 where
  duplicate : PaymentStatus → TxResult
  discrepancy : Text → Option ℕ → TxResult
  processed : ApplyPaymentResult → Order → TxResult

-- `manager.findOne(Payment, { where: { externalPaymentId } })`
abbrev pub find_external : ℕ → List Payment → Option Payment
find_external external_payment_id payments =
    find (λ p. p.external_payment_id == external_payment_id) payments

-- A state that was processed already, or a late one that is not final.
abbrev pub is_repeated : PaymentStatus → PaymentStatus → Bool
is_repeated known informed =
    same_payment_status known informed || (is_final known && not (is_final informed))

-- The fields that `Object.assign` sets, on a row that was there or a new one.
abbrev pub informed_payment : ℕ → Order → GatewayPayment → PaymentStatus → ℕ → Payment
informed_payment now order payment status id = record {
  id = id;
  order_id = order.id;
  external_payment_id = payment.id;
  status = status;
  amount = payment.amount;
  processed_at = now;
}

-- `manager.save` of a payment that has a row: the row of its key.
unfoldable pub save_payment : Payment → List Payment → List Payment
save_payment saved [] = []
save_payment saved (p ∷ ps) =
    let rest = p ∷ save_payment saved ps in if p.id == saved.id then saved ∷ ps else rest

-- Step 8: the payment that is saved, beside the tables.
unfoldable pub register_payment :
    ℕ → Order → GatewayPayment → PaymentStatus → Option Payment → Db → Payment × Db
unfolding save_payment
register_payment now order payment status none db =
    let saved = informed_payment now order payment status db.next_id in
    (saved, record db { payments = saved ∷ db.payments; next_id = db.next_id + 1 })
register_payment now order payment status (some existing) db =
    let saved = informed_payment now order payment status existing.id in
    (saved, record db { payments = save_payment saved db.payments })

-- `payment.currency !== null && payment.currency !== this.currency`
abbrev pub other_currency : Option ℕ → ℕ → Bool
other_currency none currency = false
other_currency (some paid) currency = not (paid == currency)

abbrev pub is_approval : PaymentOutcome → Bool
is_approval PaymentOutcome.aprobado = true
is_approval outcome = false

-- An approval for anything but the total of the order.
abbrev pub is_mismatch : ℕ → Order → GatewayPayment → PaymentOutcome → Bool
is_mismatch currency order payment outcome =
    is_approval outcome
    && (not (payment.amount == order.total) || other_currency payment.currency currency)

-- The refund of a payment that is not applied.
abbrev pub refund_unapplied : Order → Payment → Text → Option RefundOrigin → Db → Option ℕ × Db
refund_unapplied order saved text none db = (none, db)
refund_unapplied order saved text (some origin) db =
    let (refund, registered) =
      request_refund
        (record {
          order_id = order.id;
          amount = saved.amount;
          origin_cu = origin;
          reason = text;
          payment_id = some saved.id;
        })
        db in
    (Option.map (λ r. r.id) refund, registered)

-- The end of step 7: what was not applied is noted, and refunded if the case asks for it.
unfoldable pub settle_applied : Payment → ApplyPaymentResult × Order × Db → TxResult × Order × Db
unfolding append_internal_note request_refund
settle_applied saved (applied, order, db) = elim applied.discrepancy [
  | none ↦ (processed applied order, order, db)
  | some text ↦
      let (refund, settled) =
        refund_unapplied order saved text applied.refund_origin
          (append_internal_note order.id text none db) in
      (discrepancy text refund, order, settled)
]

-- Steps 7 and 8, of a payment that is new or has moved.
unfoldable pub apply_registered :
    ℕ
    → ℕ
    → Order
    → GatewayPayment
    → PaymentOutcome
    → Payment × Db
    → Result ServiceError (TxResult × Order × Db)
unfolding apply_payment_outcome append_internal_note settle_applied
apply_registered now currency order payment outcome (saved, db) =
    let text = amount_mismatch payment.id payment.amount order.total in
    if is_mismatch currency order payment outcome
    then ok (discrepancy text none, order, append_internal_note order.id text none db)
    else apply_payment_outcome now order outcome payment.id db >>= λ r. ok (settle_applied saved r)

-- What the transaction decides by the payment that is registered already.
unfoldable pub process_registered :
    ℕ
    → ℕ
    → Order
    → GatewayPayment
    → PaymentStatus × PaymentOutcome
    → Option Payment
    → Db
    → Result ServiceError (TxResult × Order × Db)
unfolding register_payment apply_registered append_internal_note
process_registered now currency order payment (status, outcome) none db =
    apply_registered now currency order payment outcome
      (register_payment now order payment status none db)
process_registered now currency order payment (status, outcome) (some existing) db =
    let text = final_conflict payment.id existing.status status in
    if is_repeated existing.status status
    then ok (duplicate existing.status, order, db)
    else if is_final existing.status
    then ok (discrepancy text none, order, append_internal_note order.id text none db)
    else apply_registered now currency order payment outcome
        (register_payment now order payment status (some existing) db)

-- The transaction of `processPayment`.
unfoldable pub process_transaction :
    ℕ
    → ℕ
    → GatewayPayment
    → PaymentStatus × PaymentOutcome
    → ℕ
    → Db
    → Result ServiceError (TxResult × Order × Db)
unfolding process_registered
process_transaction now currency payment mapped order_id db = elim (find_order order_id db.orders) [
  | none ↦ err entity_not_found
  | some order ↦
      process_registered now currency order payment mapped (find_external payment.id db.payments) db
]

-- `ProcessResult`
pub data ProcessResult : Type 0 where
  was_processed ignored invalid order_not_found was_duplicate was_discrepancy : ProcessResult
  gateway_unavailable : ProcessResult

-- What a call of `gateway.getPayment` comes to.
pub data PaymentAnswer : Type 0 where
  found : GatewayPayment → PaymentAnswer
  missing : PaymentAnswer  -- `PaymentNotFoundError`
  unavailable : PaymentAnswer  -- `PaymentGatewayUnavailableError`
  failed : PaymentAnswer  -- any other error

-- `fetchPaymentWithRetry`: as many waits as `delays` says.
unfoldable pub fetch_payment_with_retry : (ℕ → PaymentAnswer) → ℕ → ℕ → PaymentAnswer
fetch_payment_with_retry get attempt zero = get attempt
fetch_payment_with_retry get attempt (suc delays) =
    let again = fetch_payment_with_retry get (attempt + 1) delays in
    elim (get attempt) [
      | found payment ↦ found payment
      | missing ↦ missing
      | unavailable ↦ again
      | failed ↦ failed
    ]

module _ (ask : Refund → ℕ → RefundAnswer) (delays : ℕ) where
  -- What follows the commit: the refund that the transaction registered is asked for.
  abbrev pub after_commit : ℕ → TxResult × Order × Db → ProcessResult × Db
  after_commit now (duplicate known, order, db) = (was_duplicate, db)
  after_commit now (discrepancy text none, order, db) = (was_discrepancy, db)
  after_commit now (discrepancy text (some refund_id), order, db) =
      (was_discrepancy, dispatch ask delays now refund_id db)
  after_commit now (processed applied order, _, db) = (was_processed, db)

  unfoldable pub process_found :
      ℕ → ℕ → GatewayPayment → Db → Result ServiceError (ProcessResult × Db)
  unfolding process_transaction dispatch
  process_found now currency payment db = elim (status_map payment.status) [
    | none ↦ ok (ignored, db)
    | some mapped ↦ elim payment.order_id [
      | none ↦ ok (order_not_found, db)
      | some order_id ↦
          if not (is_some (find_order order_id db.orders))
          then ok (order_not_found, db)
          else process_transaction now currency payment mapped order_id db >>= λ r.
              ok (after_commit now r)
    ]
  ]

  -- `processPayment`, of the answer that `fetchPaymentWithRetry` gives.
  unfoldable pub process_payment :
      ℕ → ℕ → PaymentAnswer → Db → Result ServiceError (ProcessResult × Db)
  unfolding process_found
  process_payment now currency (found payment) db = process_found now currency payment db
  process_payment now currency missing db = ok (invalid, db)
  process_payment now currency unavailable db = ok (gateway_unavailable, db)
  process_payment now currency failed db = ok (gateway_unavailable, db)
