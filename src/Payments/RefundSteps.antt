-- ===== src/Payments/RefundSteps.antt =====
-- What the gateway's answers may do to the refunds (backend/src/modules/payments/refunds): a refund
-- in progress is settled once, and a settled one is not touched.
use e_commerce_titulo_interm.Common.{
  ℕ, Bool, true, Option, none, some, List, [], ◌∷◌, ◌≡◌, ◌⊎◌, ◌||◌, not, refl, sym, ap, ◌∙◌, arith,
  is_some, Option-cases, inl, inr, if-cases,
}
use mathlib.Core.Path.{subst}
use e_commerce_titulo_interm.Payments.Status.{
  RefundStatus, en_tramite, reembolsado, pendiente_de_gestion, same_refund_status, GatewayStatus,
  final_refund_status,
}
use e_commerce_titulo_interm.Entities.{Refund, Db}
use e_commerce_titulo_interm.Payments.Refunds.{
  GatewayRefund, RefundAnswer, answered, refused, unavailable, failed, find_refund, update_refund,
  written, is_at, is_unasked, transition, apply_gateway_result, settle_answer, create_with_retry,
  dispatch, dispatch_all,
}

-- The moves of a refund that the gateway may cause.
pub data Moves : RefundStatus → RefundStatus → Type 0 where
  stays : {s : RefundStatus} → Moves s s
  accredited : Moves en_tramite reembolsado
  rejected : Moves en_tramite RefundStatus.rechazado
  given_up : Moves en_tramite pendiente_de_gestion

Moves-trans : {s t u : RefundStatus} → Moves s t → Moves t u → Moves s u
Moves-trans stays n = n
Moves-trans accredited stays = accredited
Moves-trans rejected stays = rejected
Moves-trans given_up stays = given_up

-- One refund before and after: the same money under the same attempt, and one move at most.
pub record IsStep (r r' : Refund) : Type 0 where
  pub id : r'.id ≡ r.id
  pub order_id : r'.order_id ≡ r.order_id
  pub payment_id : r'.payment_id ≡ r.payment_id
  pub amount : r'.amount ≡ r.amount
  pub attempt : r'.attempt ≡ r.attempt
  pub moves : Moves r.status r'.status

-- The rows before and after, one by one.
abbrev pub AreSteps : List Refund → List Refund → Type 0
AreSteps [] [] = Unit
AreSteps [] (s ∷ ss) = ⊥
AreSteps (r ∷ rs) [] = ⊥
AreSteps (r ∷ rs) (s ∷ ss) = IsStep r s × AreSteps rs ss

IsStep-refl : (r : Refund) → IsStep r r
IsStep-refl r = record {
  id = refl;
  order_id = refl;
  payment_id = refl;
  amount = refl;
  attempt = refl;
  moves = stays;
}

AreSteps-refl : (rs : List Refund) → AreSteps rs rs
AreSteps-refl [] = tt
AreSteps-refl (r ∷ rs) = (IsStep-refl r, AreSteps-refl rs)

AreSteps-trans : (rs ss us : List Refund) → AreSteps rs ss → AreSteps ss us → AreSteps rs us
AreSteps-trans [] [] [] h k = tt
AreSteps-trans [] [] (u ∷ us) h k = absurd k
AreSteps-trans [] (s ∷ ss) us h k = absurd h
AreSteps-trans (r ∷ rs) [] us h k = absurd h
AreSteps-trans (r ∷ rs) (s ∷ ss) [] h k = absurd k
AreSteps-trans (r ∷ rs) (s ∷ ss) (u ∷ us) (h, hs) (k, ks) = (
  record {
    id = k.id ∙ h.id;
    order_id = k.order_id ∙ h.order_id;
    payment_id = k.payment_id ∙ h.payment_id;
    amount = k.amount ∙ h.amount;
    attempt = k.attempt ∙ h.attempt;
    moves = Moves-trans h.moves k.moves;
  },
  AreSteps-trans rs ss us hs ks,
)

module _ (test : Refund → Bool) (changes : Refund → Refund)
    (step : (r : Refund) → test r ≡ true → IsStep r (changes r)) where
  abbrev or_same : List Refund → Option (List Refund) → List Refund
  or_same rs none = rs
  or_same rs (some ss) = ss

  update_refund-AreSteps :
      (rs : List Refund) → AreSteps rs (or_same rs (update_refund test changes rs))
  unfolding update_refund
  update_refund-AreSteps [] = tt
  update_refund-AreSteps (r ∷ rs) =
      if-cases (λ (u : Option (List Refund)). AreSteps (r ∷ rs) (or_same (r ∷ rs) u)) (test r)
        (λ passed. (step r passed, AreSteps-refl rs))
        (λ failed. elim (Option-cases (update_refund test changes rs)) [
          | inl e ↦ rw e (AreSteps-refl (r ∷ rs))
          | inr (ss, e) ↦ rw e (IsStep-refl r, rw e at (update_refund-AreSteps rs))
        ])

  written-AreSteps :
      (db : Db) → AreSteps db.refunds (written db (update_refund test changes db.refunds)).1.refunds
  written-AreSteps db = elim (Option-cases (update_refund test changes db.refunds)) [
    | inl e ↦ rw e (AreSteps-refl db.refunds)
    | inr (ss, e) ↦ rw e (rw e at (update_refund-AreSteps db.refunds))
  ]

-- Only refunds were touched, each by a step.
abbrev pub IsSettling : Db → Db → Type 0
IsSettling db t = AreSteps db.refunds t.refunds × (t ≡ record db { refunds = t.refunds })

pub IsSettling-refl : (db : Db) → IsSettling db db
IsSettling-refl db = (AreSteps-refl db.refunds, refl)

pub IsSettling-trans : (a b c : Db) → IsSettling a b → IsSettling b c → IsSettling a c
IsSettling-trans a b c (h, e) (k, d) = (
  AreSteps-trans a.refunds b.refunds c.refunds h k,
  d ∙ ap (λ (x : Db). record x { refunds = c.refunds }) e,
)

written-IsSettling :
    (test : Refund → Bool) (changes : Refund → Refund) (db : Db)
    → ((r : Refund) → test r ≡ true → IsStep r (changes r))
    → IsSettling db (written db (update_refund test changes db.refunds)).1
written-IsSettling test changes db step = (
  written-AreSteps test changes step db,
  elim (Option-cases (update_refund test changes db.refunds)) [
    | inl e ↦ rw e refl
    | inr (ss, e) ↦ rw e refl
  ],
)

is_at-en_tramite : (refund r : Refund) → is_at refund en_tramite r ≡ true → r.status ≡ en_tramite
is_at-en_tramite refund r h = ground arith

reembolsado_or_rechazado :
    (status : GatewayStatus) {s : RefundStatus}
    → final_refund_status status ≡ some s
    → (s ≡ reembolsado) ⊎ (s ≡ RefundStatus.rechazado)
reembolsado_or_rechazado status h = ground arith

final_move :
    (status : GatewayStatus) {s : RefundStatus}
    → final_refund_status status ≡ some s
    → Moves en_tramite s
final_move status {s} h = elim (reembolsado_or_rechazado status h) [
  | inl e ↦ subst (λ x. Moves en_tramite x) (sym e) accredited
  | inr e ↦ subst (λ x. Moves en_tramite x) (sym e) rejected
]

transition-IsSettling :
    (refund : Refund) (changes : Refund → Refund) (db : Db)
    → ((r : Refund) → r.status ≡ en_tramite → IsStep r (changes r))
    → IsSettling db (transition refund en_tramite changes db).1
unfolding transition
transition-IsSettling refund changes db step =
    written-IsSettling (is_at refund en_tramite) changes db
      (λ r h. step r (is_at-en_tramite refund r h))

-- A row that takes a new state and keeps its money.
Moves-IsStep :
    (r r' : Refund)
    → r'.id ≡ r.id
    → r'.order_id ≡ r.order_id
    → r'.payment_id ≡ r.payment_id
    → r'.amount ≡ r.amount
    → r'.attempt ≡ r.attempt
    → Moves en_tramite r'.status
    → r.status ≡ en_tramite
    → IsStep r r'
Moves-IsStep r r' id order_id payment_id amount attempt moves from = record {
  id = id;
  order_id = order_id;
  payment_id = payment_id;
  amount = amount;
  attempt = attempt;
  moves = subst (λ s. Moves s r'.status) (sym from) moves;
}

pub apply_gateway_result-IsSettling :
    (now : ℕ) (refund : Refund) (result : GatewayRefund) (db : Db)
    → IsSettling db (apply_gateway_result now refund result db)
unfolding apply_gateway_result
apply_gateway_result-IsSettling now refund result db =
    elim (Option-cases (final_refund_status result.status)) [
      | inl e ↦ rw (e, apply_gateway_result) (IsSettling-refl db)
      | inr (s, e) ↦
          rw (e, apply_gateway_result)
            (transition-IsSettling refund _ db
              (λ r. Moves-IsStep r _ refl refl refl refl refl (final_move result.status e)))
    ]

settle_answer-IsSettling :
    (now : ℕ) (refund : Refund) (answer : RefundAnswer) (db : Db)
    → IsSettling db (settle_answer now refund answer db)
unfolding settle_answer
settle_answer-IsSettling now refund (refused message) db =
    transition-IsSettling refund _ db (λ r. Moves-IsStep r _ refl refl refl refl refl rejected)
settle_answer-IsSettling now refund (unavailable message) db =
    transition-IsSettling refund _ db (λ r. Moves-IsStep r _ refl refl refl refl refl given_up)
settle_answer-IsSettling now refund (failed message) db =
    transition-IsSettling refund _ db (λ r. Moves-IsStep r _ refl refl refl refl refl given_up)
settle_answer-IsSettling now refund (answered result) db =
    IsSettling-trans db _ _
      (written-IsSettling (is_unasked refund) _ db (λ r h. record {
        id = refl;
        order_id = refl;
        payment_id = refl;
        amount = refl;
        attempt = refl;
        moves = stays;
      }))
      (apply_gateway_result-IsSettling now (record refund { external_refund_id = some result.id })
        result _)

module _ (ask : Refund → ℕ → RefundAnswer) (delays now : ℕ) where
  pub dispatch-IsSettling : (id : ℕ) (db : Db) → IsSettling db (dispatch ask delays now id db)
  unfolding dispatch
  dispatch-IsSettling id db = elim (Option-cases (find_refund id db.refunds)) [
    | inl e ↦ rw (e, dispatch) (IsSettling-refl db)
    | inr (refund, e) ↦
        rw (e, dispatch)
          (if-cases (IsSettling db)
            (not (same_refund_status refund.status en_tramite) || is_some refund.external_refund_id)
            (λ skipped. IsSettling-refl db)
            (λ asked.
              settle_answer-IsSettling now refund (create_with_retry (ask refund) 0 delays) db))
  ]

  pub dispatch_all-IsSettling :
      (rs : List Refund) (db : Db) → IsSettling db (dispatch_all ask delays now rs db)
  unfolding dispatch_all
  dispatch_all-IsSettling [] db = IsSettling-refl db
  dispatch_all-IsSettling (r ∷ rs) db =
      IsSettling-trans db (dispatch ask delays now r.id db) _ (dispatch-IsSettling r.id db)
        (dispatch_all-IsSettling rs _)
