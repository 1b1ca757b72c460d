-- ===== src/Payments/Ledger.antt =====
-- backend/src/modules/payments/ledger/payment-ledger.service.ts: `PaymentLedgerService`.
use e_commerce_titulo_interm.Common.{
  ℕ, Bool, true, Option, none, some, List, [], ◌∷◌, ◌+◌, ◌&&◌, not, ◌==◌, leb, if◌then◌else◌, keep,
  find, sum, ℤ, pos, sub_ℕ, leb_ℤ, Result, ok, err,
}
use e_commerce_titulo_interm.Errors.{ServiceError, entity_not_found}
use e_commerce_titulo_interm.Payments.Status.{
  aprobado, same_payment_status, en_tramite, is_committed, RefundOrigin,
}
use e_commerce_titulo_interm.Entities.{Text, Payment, Refund, Db}

-- `RefundRequest`
pub record RefundRequest : Type 0 where
  pub order_id : ℕ
  pub amount : ℕ
  pub origin_cu : RefundOrigin
  pub reason : Text
  pub payment_id : Option ℕ

-- `ORDER BY processed_at ASC`
unfoldable pub insert_payment : Payment → List Payment → List Payment
insert_payment p [] = p ∷ []
insert_payment p (q ∷ qs) =
    let rest = q ∷ insert_payment p qs in
    if leb p.processed_at q.processed_at then p ∷ q ∷ qs else rest

unfoldable pub by_processed_at : List Payment → List Payment
unfolding insert_payment
by_processed_at [] = []
by_processed_at (p ∷ ps) = insert_payment p (by_processed_at ps)

abbrev pub is_approved_of : ℕ → Payment → Bool
is_approved_of order_id p = p.order_id == order_id && same_payment_status p.status aprobado

abbrev pub is_committed_of : ℕ → Refund → Bool
is_committed_of order_id r = r.order_id == order_id && is_committed r.status

-- The cents of the refunds of a payment, as the `reduce` adds them up.
abbrev pub refunded_cents : ℕ → List Refund → ℕ
refunded_cents payment_id refunds =
    sum (λ r. r.amount) (keep (λ r. r.payment_id == payment_id) refunds)

-- `refundableCents`
abbrev pub refundable_cents : Payment → List Refund → ℤ
refundable_cents p refunds = sub_ℕ p.amount (refunded_cents p.id refunds)

-- `!request.paymentId || p.id === request.paymentId`
abbrev pub is_wanted : Option ℕ → Payment → Bool
is_wanted none p = true
is_wanted (some id) p = p.id == id

-- The payment that a refund goes against: the first with enough balance.
unfoldable pub choose_payment : Option ℕ → ℕ → List Refund → List Payment → Option Payment
choose_payment wanted amount refunds approved =
    find (λ p. is_wanted wanted p && leb_ℤ (pos amount) (refundable_cents p refunds)) approved

-- The row that `requestRefund` inserts.
abbrev pub new_refund : ℕ → RefundRequest → Payment → Refund
new_refund id request p = record {
  id = id;
  order_id = request.order_id;
  payment_id = p.id;
  amount = request.amount;
  status = en_tramite;
  external_refund_id = none;
  origin_cu = request.origin_cu;
  reason = some request.reason;
  resolved_at = none;
  attempt = 1;
  last_error = none;
  resolution_note = none;
  resolved_by_user_id = none;
}

abbrev pub insert_refund : RefundRequest → Db → Option Payment → Option Refund × Db
insert_refund request db none = (none, db)
insert_refund request db (some p) =
    let refund = new_refund db.next_id request p in
    (some refund, record db { refunds = refund ∷ db.refunds; next_id = db.next_id + 1 })

-- `requestRefund`
unfoldable pub request_refund : RefundRequest → Db → Option Refund × Db
unfolding choose_payment by_processed_at
request_refund request db =
    let approved = by_processed_at (keep (is_approved_of request.order_id) db.payments) in
    let refunds = keep (is_committed_of request.order_id) db.refunds in
    if leb request.amount 0
    then (none, db)
    else insert_refund request db
        (choose_payment request.payment_id request.amount refunds approved)

-- The payment with a primary key.
unfoldable pub find_payment : ℕ → List Payment → Option Payment
find_payment id payments = find (λ p. p.id == id) payments

-- `fitsInBalance`
unfoldable pub fits_in_balance : Refund → Db → Result ServiceError Bool
unfolding find_payment
fits_in_balance refund db =
    let others =
      keep (λ r. not (r.id == refund.id))
        (keep (λ r. r.payment_id == refund.payment_id && is_committed r.status) db.refunds) in
    elim (find_payment refund.payment_id db.payments) [
      | none ↦ err entity_not_found
      | some payment ↦ ok (leb_ℤ (pos refund.amount) (refundable_cents payment others))
    ]
