-- ===== src/Payments/Settling.antt =====
-- The periodic tasks and the retries of refunds (backend/src/modules/payments/refunds): the steps
-- of every refund, and the balance of every payment.
use e_commerce_titulo_interm.Common.{
  ℕ, true, Option, none, some, List, [], ◌∷◌, ◌≡◌, ◌≤◌, ◌&&◌, refl, sym, ap, ◌∙◌, arith, keep, All,
  All-map, Bool-cases, inl, inr, ==_iff,
}
use mathlib.Core.Path.{subst}
use e_commerce_titulo_interm.Payments.Status.{RefundStatus, is_committed}
use e_commerce_titulo_interm.Entities.{Payment, Refund, Db}
use e_commerce_titulo_interm.Payments.Refunds.{
  GatewayRefund, RefundAnswer, dispatch_pending, is_pending, is_in_progress, reconcile_answer,
  reconcile_all, reconcile_in_progress, reconcile_payment, pays,
}
use e_commerce_titulo_interm.Payments.Ledger.{find_payment}
use e_commerce_titulo_interm.Payments.Balance.{
  takes_up, committed_cents, IsOf, IsCovered, IsCoveredDb,
}
use e_commerce_titulo_interm.Payments.RefundSteps.{
  Moves, stays, accredited, rejected, given_up, IsStep, AreSteps, IsSettling, IsSettling-refl,
  IsSettling-trans, apply_gateway_result-IsSettling, dispatch_all-IsSettling,
}

reconcile_answer-IsSettling :
    (now : ℕ) (r : Refund) (answer : Option GatewayRefund) (db : Db)
    → IsSettling db (reconcile_answer now r answer db)
reconcile_answer-IsSettling now r none db = IsSettling-refl db
reconcile_answer-IsSettling now r (some result) db = apply_gateway_result-IsSettling now r result db

reconcile_all-IsSettling :
    (look : Refund → Option GatewayRefund) (now : ℕ) (rs : List Refund) (db : Db)
    → IsSettling db (reconcile_all look now rs db)
unfolding reconcile_all
reconcile_all-IsSettling look now [] db = IsSettling-refl db
reconcile_all-IsSettling look now (r ∷ rs) db =
    IsSettling-trans db (reconcile_answer now r (look r) db) _
      (reconcile_answer-IsSettling now r (look r) db)
      (reconcile_all-IsSettling look now rs (reconcile_answer now r (look r) db))

-- Whatever the gateway answers, dispatchPending, reconcileInProgress and reconcilePayment change
-- nothing but refunds, and each refund by one move at most, from in progress to accredited,
-- rejected or given up; its money and attempt stay, and a refund that is not in progress keeps
-- its state.
pub gateway_tasks-IsSettling :
    (ask : Refund → ℕ → RefundAnswer) (delays : ℕ) (look : Refund → Option GatewayRefund)
    (external_payment_id now : ℕ) (db : Db)
    → IsSettling db (dispatch_pending ask delays now db)
      × IsSettling db (reconcile_in_progress look now db)
      × IsSettling db (reconcile_payment look now external_payment_id db)
unfolding dispatch_pending reconcile_in_progress reconcile_payment find_payment
gateway_tasks-IsSettling ask delays look external_payment_id now db = (
  dispatch_all-IsSettling ask delays now (keep is_pending db.refunds) db,
  reconcile_all-IsSettling look now (keep is_in_progress db.refunds) db,
  reconcile_all-IsSettling look now
      (keep
        (λ r. is_in_progress r && pays external_payment_id (find_payment r.payment_id db.payments))
        db.refunds)
      db,
)

is_committed_before :
    {s t : RefundStatus} → Moves s t → is_committed t ≡ true → is_committed s ≡ true
is_committed_before stays h = h
is_committed_before accredited h = refl
is_committed_before rejected h = refl
is_committed_before given_up h = refl

takes_up_before :
    (p : Payment) (r r' : Refund) → IsStep r r' → takes_up p r' ≡ true → takes_up p r ≡ true
takes_up_before p r r' step h = ground (
  arith,
  is_committed_before step.moves,
  step.payment_id,
  ==_iff r.payment_id p.id,
  ==_iff r'.payment_id p.id,
)

-- A step frees a part of the balance, or leaves it.
committed_cents-AreSteps :
    (p : Payment) (rs ss : List Refund)
    → AreSteps rs ss
    → committed_cents p ss ≤ committed_cents p rs
committed_cents-AreSteps p [] [] h = omega arith
committed_cents-AreSteps p [] (s ∷ ss) h = absurd h
committed_cents-AreSteps p (r ∷ rs) [] h = absurd h
committed_cents-AreSteps p (r ∷ rs) (s ∷ ss) (h, hs) =
    let rest = committed_cents-AreSteps p rs ss hs in
    let same = h.amount in
    elim (Bool-cases (takes_up p s)) [
      | inl e ↦ rw (e, takes_up_before p r s h e) (omega (arith, rest, same))
      | inr e ↦ elim (Bool-cases (takes_up p r)) [
        | inl d ↦ rw (e, d) (omega (arith, rest))
        | inr d ↦ rw (e, d) rest
      ]
    ]

IsOf-AreSteps :
    (p : Payment) (rs ss : List Refund) → AreSteps rs ss → All (IsOf p) rs → All (IsOf p) ss
IsOf-AreSteps p [] [] h of = tt
IsOf-AreSteps p [] (s ∷ ss) h of = absurd h
IsOf-AreSteps p (r ∷ rs) [] h of = absurd h
IsOf-AreSteps p (r ∷ rs) (s ∷ ss) (h, hs) (k, ks) =
    (λ same. h.order_id ∙ k (sym h.payment_id ∙ same), IsOf-AreSteps p rs ss hs ks)

IsSettling-IsCovered : (db t : Db) → IsSettling db t → IsCoveredDb db → IsCoveredDb t
IsSettling-IsCovered db t (steps, e) covered =
    let same : t.payments ≡ db.payments = ap (λ x. x.payments) e in
    subst (λ ps. All (IsCovered ps t.refunds) ps) (sym same)
      (All-map
        (λ p h. record {
          row = h.row;
          linked = IsOf-AreSteps p db.refunds t.refunds steps h.linked;
          covered = omega (arith, committed_cents-AreSteps p db.refunds t.refunds steps, h.covered);
        })
        db.payments covered)

-- If each payment is the row of its key, its refunds are of its order and the cents refunded or
-- to be refunded are within its amount, the same holds after dispatchPending, after
-- reconcileInProgress and after reconcilePayment, whatever the gateway answers.
pub gateway_tasks-IsCovered :
    (ask : Refund → ℕ → RefundAnswer) (delays : ℕ) (look : Refund → Option GatewayRefund)
    (external_payment_id now : ℕ) (db : Db)
    → IsCoveredDb db
    → IsCoveredDb (dispatch_pending ask delays now db)
      × IsCoveredDb (reconcile_in_progress look now db)
      × IsCoveredDb (reconcile_payment look now external_payment_id db)
gateway_tasks-IsCovered ask delays look external_payment_id now db covered =
    let (sent, seen, told) = gateway_tasks-IsSettling ask delays look external_payment_id now db in
    (
      IsSettling-IsCovered db _ sent covered,
      IsSettling-IsCovered db _ seen covered,
      IsSettling-IsCovered db _ told covered,
    )
