-- ===== src/Payments/Balance.antt =====
-- No payment is refunded beyond its amount: what `requestRefund` registers fits in the balance
-- (backend/src/modules/payments/ledger/payment-ledger.service.ts).
use e_commerce_titulo_interm.Common.{
  ℕ, Bool, true, Option, some, List, [], ◌∷◌, ◌≡◌, ◌≤◌, ◌+◌, ◌&&◌, refl, sym, ap, ◌∙◌, arith, keep,
  find, sum, All, All-map, ◌==◌, Bool-cases, Option-cases, inl, inr, if-cases, leb, ==_iff,
}
use mathlib.Core.Path.{subst}
use mathlib.Core.Option.{some-injective}
use e_commerce_titulo_interm.Payments.Status.{is_committed}
use e_commerce_titulo_interm.Entities.{Payment, Refund, Db}
use e_commerce_titulo_interm.Payments.Ledger.{
  RefundRequest, insert_payment, by_processed_at, is_approved_of, is_committed_of, refunded_cents,
  choose_payment, new_refund, request_refund, find_payment,
}

-- The refund takes up a part of the balance of the payment.
abbrev pub takes_up : Payment → Refund → Bool
takes_up p r = r.payment_id == p.id && is_committed r.status

-- The cents of a payment that are refunded, or are to be.
abbrev pub committed_cents : Payment → List Refund → ℕ
committed_cents p refunds = sum (λ r. r.amount) (keep (takes_up p) refunds)

-- A refund is of the order of its payment.
abbrev pub IsOf : Payment → Refund → Type 0
IsOf p r = r.payment_id ≡ p.id → r.order_id ≡ p.order_id

-- The payment is the row of its key, its refunds are of its order, and they fit in its amount.
pub record IsCovered (payments : List Payment) (refunds : List Refund) (p : Payment) : Type 0 where
  pub row : find_payment p.id payments ≡ some p
  pub linked : All (IsOf p) refunds
  pub covered : committed_cents p refunds ≤ p.amount

abbrev pub IsCoveredDb : Db → Type 0
IsCoveredDb db = All (IsCovered db.payments db.refunds) db.payments

module _ (P : Payment → Type 0) where
  keep-All :
      (test : Payment → Bool) (ps : List Payment)
      → All P ps
      → All (λ p. P p × (test p ≡ true)) (keep test ps)
  keep-All test [] h = tt
  keep-All test (p ∷ ps) h = elim (Bool-cases (test p)) [
    | inl e ↦ rw e ((h.0, e), keep-All test ps h.1)
    | inr e ↦ rw e (keep-All test ps h.1)
  ]

  find-All :
      (test : Payment → Bool) (ps : List Payment) {p : Payment}
      → All P ps
      → find test ps ≡ some p
      → P p × (test p ≡ true)
  find-All test [] h e = cc
  find-All test (q ∷ qs) {p} h e = elim (Bool-cases (test q)) [
    | inl passed ↦
        let same : q ≡ p = some-injective q p (rw passed at e) in
        subst (λ x. P x × (test x ≡ true)) same (h.0, passed)
    | inr failed ↦ find-All test qs h.1 (rw failed at e)
  ]

  insert_payment-All :
      (p : Payment) (ps : List Payment) → P p → All P ps → All P (insert_payment p ps)
  unfolding insert_payment
  insert_payment-All p [] h hs = (h, tt)
  insert_payment-All p (q ∷ qs) h hs =
      if-cases (All P) (leb p.processed_at q.processed_at) (λ first. (h, hs))
        (λ later. (hs.0, insert_payment-All p qs h hs.1))

  by_processed_at-All : (ps : List Payment) → All P ps → All P (by_processed_at ps)
  unfolding by_processed_at
  by_processed_at-All [] h = tt
  by_processed_at-All (p ∷ ps) h =
      insert_payment-All p (by_processed_at ps) h.0 (by_processed_at-All ps h.1)

-- Among the refunds of the order, those of the payment are all the refunds of the payment.
refunded_cents-committed :
    (p : Payment) (order_id : ℕ) (rs : List Refund)
    → p.order_id ≡ order_id
    → All (IsOf p) rs
    → refunded_cents p.id (keep (is_committed_of order_id) rs) ≡ committed_cents p rs
refunded_cents-committed p order_id [] same linked = refl
refunded_cents-committed p order_id (r ∷ rs) same linked = ground (
  arith,
  refunded_cents-committed p order_id rs same linked.1,
  ==_iff r.payment_id p.id,
  ==_iff r.order_id order_id,
)

-- A payment that `choose_payment` returns can bear the refund.
choose_payment_bears :
    (request : RefundRequest) (db : Db) {p : Payment}
    → IsCoveredDb db
    → choose_payment request.payment_id request.amount
        (keep (is_committed_of request.order_id) db.refunds)
        (by_processed_at (keep (is_approved_of request.order_id) db.payments))
      ≡ some p
    → IsCovered db.payments db.refunds p
      × (p.order_id ≡ request.order_id)
      × (request.amount + committed_cents p db.refunds ≤ p.amount)
unfolding choose_payment
choose_payment_bears request db {p} covered e =
    let Good : Payment → Type 0 =
      λ q. IsCovered db.payments db.refunds q × (is_approved_of request.order_id q ≡ true) in
    let approved = keep (is_approved_of request.order_id) db.payments in
    let (good, fits) =
      find-All Good _ (by_processed_at approved)
        (by_processed_at-All Good approved (keep-All _ _ db.payments covered)) e in
    let order : p.order_id ≡ request.order_id =
      ground (arith, good.1, ==_iff p.order_id request.order_id) in
    (
      good.0,
      order,
      ground
          (arith, fits, refunded_cents-committed p request.order_id db.refunds order good.0.linked),
    )

module _ (request : RefundRequest) (db : Db) (p : Payment)
    (bears : IsCovered db.payments db.refunds p) (order : p.order_id ≡ request.order_id)
    (fits : request.amount + committed_cents p db.refunds ≤ p.amount) where
  same_key : (q : Payment) → IsCovered db.payments db.refunds q → p.id ≡ q.id → p ≡ q
  same_key q h same =
      some-injective p q (sym bears.row ∙ ap (λ k. find_payment k db.payments) same ∙ h.row)

  new_refund-IsCovered :
      (q : Payment)
      → IsCovered db.payments db.refunds q
      → IsCovered db.payments (new_refund db.next_id request p ∷ db.refunds) q
  new_refund-IsCovered q h = record {
    row = h.row;
    linked = (λ same. sym order ∙ ap (λ x. x.order_id) (same_key q h same), h.linked);
    covered = elim (Bool-cases (p.id == q.id)) [
      | inl same ↦
          let e : p ≡ q = same_key q h ((==_iff p.id q.id).0 same) in
          subst (λ x. committed_cents x (new_refund db.next_id request p ∷ db.refunds) ≤ x.amount) e
            (ground (arith, fits, ==_iff p.id p.id))
      | inr other ↦ rw other h.covered
    ];
  }

-- If each payment is the row of its key, its refunds are of its order and the cents refunded or
-- to be refunded are within its amount, the same holds after requestRefund.
pub request_refund-IsCovered :
    (request : RefundRequest) (db : Db) → IsCoveredDb db → IsCoveredDb (request_refund request db).1
unfolding request_refund
request_refund-IsCovered request db covered =
    let approved = by_processed_at (keep (is_approved_of request.order_id) db.payments) in
    let refunds = keep (is_committed_of request.order_id) db.refunds in
    let chosen = choose_payment request.payment_id request.amount refunds approved in
    if-cases (λ (r : Option Refund × Db). IsCoveredDb r.1) (leb request.amount 0)
      (λ nothing. covered)
      (λ positive. elim (Option-cases chosen) [
        | inl missing ↦ rw missing covered
        | inr (p, e) ↦
            let (bears, order, fits) = choose_payment_bears request db covered e in
            rw e (All-map (new_refund-IsCovered request db p bears order fits) db.payments covered)
      ])
