-- ===== src/Payments/Refunds.antt =====
-- backend/src/modules/payments/refunds/refunds.service.ts: `RefundsService`. What the gateway
-- answers is a parameter; the audit log and the e-mails are left out.
use e_commerce_titulo_interm.Common.{
  ℕ, zero, suc, Bool, true, false, Option, none, some, List, [], ◌∷◌, ◌+◌, ◌&&◌, ◌||◌, not, ◌==◌,
  if◌then◌else◌, keep, find, is_some, Result, ok, err, ◌>>=◌, ◌>>◌, throw_if,
}
use mathlib.Core.Option
use Prim.Native.String.{String}
use e_commerce_titulo_interm.Errors.{
  ServiceError, refund_not_found, refund_not_retryable, refund_exceeds_balance,
}
use e_commerce_titulo_interm.Payments.Status.{
  RefundStatus, en_tramite, reembolsado, pendiente_de_gestion, same_refund_status, needs_attention,
  GatewayStatus, final_refund_status,
}
use e_commerce_titulo_interm.Entities.{Text, typed, gateway_reported, Payment, Refund, Db}
use e_commerce_titulo_interm.Payments.Ledger.{fits_in_balance, find_payment}

-- `GatewayRefund`
pub record GatewayRefund : Type 0 where
  pub id : ℕ
  pub status : GatewayStatus

-- What a call of `gateway.createRefund` comes to: an answer, or an error with its message.
pub data RefundAnswer : Type 0 where
  answered : GatewayRefund → RefundAnswer
  refused : String → RefundAnswer  -- `RefundRejectedError`
  unavailable : String → RefundAnswer  -- `PaymentGatewayUnavailableError`
  failed : String → RefundAnswer  -- any other error

-- The refund with a primary key.
unfoldable pub find_refund : ℕ → List Refund → Option Refund
find_refund id refunds = find (λ r. r.id == id) refunds

-- `refundRepo.update(where, changes)`, where the condition names the key: `none` when no row is
-- affected.
unfoldable pub update_refund :
    (Refund → Bool) → (Refund → Refund) → List Refund → Option (List Refund)
update_refund test changes [] = none
update_refund test changes (r ∷ rs) =
    let rest = Option.map (λ ss. r ∷ ss) (update_refund test changes rs) in
    if test r then some (changes r ∷ rs) else rest

-- The tables after the UPDATE, and whether it affected a row.
abbrev pub written : Db → Option (List Refund) → Bool × Db
written db none = (false, db)
written db (some refunds) = (true, record db { refunds = refunds })

-- `{ id: refund.id, status: from, attempt: refund.attempt }`
abbrev pub is_at : Refund → RefundStatus → Refund → Bool
is_at refund source r =
    r.id == refund.id && same_refund_status r.status source && r.attempt == refund.attempt

-- `transition`
unfoldable pub transition : Refund → RefundStatus → (Refund → Refund) → Db → Bool × Db
unfolding update_refund
transition refund source changes db =
    written db (update_refund (is_at refund source) changes db.refunds)

-- `createWithRetry`: the answer to the first attempt that may not be tried again; `delays` is how
-- many waits are left.
unfoldable pub create_with_retry : (ℕ → RefundAnswer) → ℕ → ℕ → RefundAnswer
create_with_retry ask attempt zero = ask attempt
create_with_retry ask attempt (suc delays) =
    let again = create_with_retry ask (attempt + 1) delays in
    elim (ask attempt) [
      | answered result ↦ answered result
      | refused message ↦ refused message
      | unavailable message ↦ again
      | failed message ↦ failed message
    ]

-- The error that `applyGatewayResult` writes beside a final state.
abbrev pub reported_error : RefundStatus → GatewayStatus → Option Text
reported_error RefundStatus.rechazado status = some (gateway_reported status)
reported_error final status = none

-- `applyGatewayResult`
unfoldable pub apply_gateway_result : ℕ → Refund → GatewayRefund → Db → Db
unfolding transition
apply_gateway_result now refund result db = elim (final_refund_status result.status) [
  | none ↦ db
  | some final ↦
      (transition refund en_tramite
        (λ r. record r {
          status = final;
          resolved_at = some now;
          last_error = reported_error final result.status;
        })
        db).1
]

-- `{ id, status: EN_TRAMITE, externalRefundId: IsNull(), attempt }`
abbrev pub is_unasked : Refund → Refund → Bool
is_unasked refund r = is_at refund en_tramite r && not (is_some r.external_refund_id)

abbrev pub unanswered : Refund → String → Db → Db
unanswered refund message db =
    (transition refund en_tramite
      (λ r. record r { status = pendiente_de_gestion; last_error = some (typed message) }) db).1

-- The rest of `dispatch`, after the gateway's answer.
unfoldable pub settle_answer : ℕ → Refund → RefundAnswer → Db → Db
unfolding transition apply_gateway_result update_refund
settle_answer now refund (refused message) db =
    (transition refund en_tramite
      (λ r. record r {
        status = RefundStatus.rechazado;
        resolved_at = some now;
        last_error = some (typed message);
      })
      db).1
settle_answer now refund (unavailable message) db = unanswered refund message db
settle_answer now refund (failed message) db = unanswered refund message db
settle_answer now refund (answered result) db =
    apply_gateway_result now (record refund { external_refund_id = some result.id }) result
      (written db (
        update_refund (is_unasked refund)
          (λ r. record r { external_refund_id = some result.id; last_error = none }) db.refunds)).1

-- The refunds that the gateway was not asked for, or whose answer was lost.
abbrev pub is_pending : Refund → Bool
is_pending r = same_refund_status r.status en_tramite && not (is_some r.external_refund_id)

module _ (ask : Refund → ℕ → RefundAnswer) (delays : ℕ) where
  -- `dispatch`. `ask refund n` is what the gateway answers to attempt `n` at a refund, and `delays`
  -- the length of `retryDelaysMs`.
  unfoldable pub dispatch : ℕ → ℕ → Db → Db
  unfolding find_refund settle_answer create_with_retry
  dispatch now id db = elim (find_refund id db.refunds) [
    | none ↦ db
    | some refund ↦
        if not (same_refund_status refund.status en_tramite) || is_some refund.external_refund_id
        then db
        else settle_answer now refund (create_with_retry (ask refund) 0 delays) db
  ]

  -- The loop of `dispatchPending`.
  unfoldable pub dispatch_all : ℕ → List Refund → Db → Db
  unfolding dispatch
  dispatch_all now [] db = db
  dispatch_all now (r ∷ rs) db = dispatch_all now rs (dispatch now r.id db)

  -- `dispatchPending`
  unfoldable pub dispatch_pending : ℕ → Db → Db
  unfolding dispatch_all
  dispatch_pending now db = dispatch_all now (keep is_pending db.refunds) db

-- The refunds in progress that the gateway already knows.
abbrev pub is_in_progress : Refund → Bool
is_in_progress r = same_refund_status r.status en_tramite && is_some r.external_refund_id

-- `payment: { externalPaymentId }`, of the payment of a refund.
abbrev pub pays : ℕ → Option Payment → Bool
pays external_payment_id none = false
pays external_payment_id (some p) = p.external_payment_id == external_payment_id

-- `reconcileOne`: nothing changes if the gateway does not answer.
abbrev pub reconcile_answer : ℕ → Refund → Option GatewayRefund → Db → Db
reconcile_answer now refund none db = db
reconcile_answer now refund (some result) db = apply_gateway_result now refund result db

module _ (look : Refund → Option GatewayRefund) where
  -- The loop of `reconcilePayment` and `reconcileInProgress`.
  unfoldable pub reconcile_all : ℕ → List Refund → Db → Db
  unfolding apply_gateway_result
  reconcile_all now [] db = db
  reconcile_all now (r ∷ rs) db = reconcile_all now rs (reconcile_answer now r (look r) db)

  -- `reconcileInProgress`
  unfoldable pub reconcile_in_progress : ℕ → Db → Db
  unfolding reconcile_all
  reconcile_in_progress now db = reconcile_all now (keep is_in_progress db.refunds) db

  -- `reconcilePayment`
  unfoldable pub reconcile_payment : ℕ → ℕ → Db → Db
  unfolding reconcile_all find_payment
  reconcile_payment now external_payment_id db =
      reconcile_all now
        (keep
          (λ r.
            is_in_progress r && pays external_payment_id (find_payment r.payment_id db.payments))
          db.refunds)
        db

-- The row that `retry` saves.
abbrev pub retried : Refund → Refund
retried refund =
    let rejected = same_refund_status refund.status RefundStatus.rechazado in
    record refund {
      status = en_tramite;
      attempt = if rejected then refund.attempt + 1 else refund.attempt;
      external_refund_id = if rejected then none else refund.external_refund_id;
      resolved_at = none;
      last_error = none;
    }

-- `manager.save(refund)` on a row that was read.
abbrev pub saved_refund : ℕ → (Refund → Refund) → Db → Db
saved_refund id changes db = (written db (update_refund (λ r. r.id == id) changes db.refunds)).1

-- A rejected refund is asked for again only if it fits in what is left of the payment.
abbrev pub check_balance : Refund → Db → Result ServiceError Bool
check_balance refund db =
    if same_refund_status refund.status RefundStatus.rechazado
    then fits_in_balance refund db
    else ok true

-- The transaction of `retry`.
unfoldable pub retry_transaction : ℕ → Db → Result ServiceError Db
unfolding find_refund fits_in_balance update_refund
retry_transaction id db = elim (find_refund id db.refunds) [
  | none ↦ err refund_not_found
  | some refund ↦ do
    throw_if (not (needs_attention refund.status)) refund_not_retryable
    fits ← check_balance refund db
    throw_if (not fits) refund_exceeds_balance
    ok (saved_refund id (λ r. retried refund) db)
]

-- `retry`: its transaction, and the dispatch of the refund after the commit.
unfoldable pub retry : (Refund → ℕ → RefundAnswer) → ℕ → ℕ → ℕ → Db → Result ServiceError Db
unfolding retry_transaction dispatch
retry ask delays now id db = do
  committed ← retry_transaction id db
  ok (dispatch ask delays now id committed)

-- `resolveManually`
unfoldable pub resolve_manually : ℕ → ℕ → ℕ → String → Db → Result ServiceError Db
unfolding find_refund update_refund
resolve_manually now id admin_id note db = elim (find_refund id db.refunds) [
  | none ↦ err refund_not_found
  | some refund ↦
      let (moved, resolved) = written db (
        update_refund (λ r. r.id == id && needs_attention r.status)
          (λ r. record r {
            status = reembolsado;
            resolved_at = some now;
            resolution_note = some note;
            resolved_by_user_id = some admin_id;
          })
          db.refunds) in
      throw_if (not moved) refund_not_retryable >> ok resolved
]
