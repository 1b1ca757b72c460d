-- ===== src/Orders/PolicyLaws.antt =====
-- What the policies of backend/src/modules/orders/order-policies.ts allow, against a description of
-- their own and against the transition table.
use e_commerce_titulo_interm.Common.{
  ℕ, Bool, false≢true, true, false, Option, none, some, ◌≡◌, ◌<◌, ◌+◌, ◌↔◌, ◌⊎◌, refl, arith, not,
  if◌then◌else◌,
}
use e_commerce_titulo_interm.Orders.Status.{
  OrderStatus, pendiente_pago, pago_pendiente_acreditacion, pago_rechazado, pagado, en_preparacion,
  despachado, entregado, cancelado, devuelto, includes, can_transition,
}
use e_commerce_titulo_interm.Entities.{Order}
use e_commerce_titulo_interm.Orders.Policies.{
  ActionAvailability, Denial, order_expired, before_deadline, cancel_window, allowed, denied,
  customer_cancellation, payment_retry, return_window, delivered_window, admin_transitions,
  admin_non_cancellable_statuses, customer_cancellable_statuses, retryable_payment_statuses,
}

-- An action that a policy offers, with or without a deadline.
abbrev pub IsAllowed : ActionAvailability → Type 0
IsAllowed x = (d : Option ℕ) × (x ≡ allowed d)

-- The time that a date leaves open: everything, if there is no date.
abbrev pub IsWithin : ℕ → Option ℕ → ℕ → Type 0
IsWithin now none ms = Unit
IsWithin now (some since) ms = now < since + ms

-- An order that did not leave the shop and was not cancelled.
abbrev pub IsInHouse : OrderStatus → Type 0
IsInHouse despachado = ⊥
IsInHouse entregado = ⊥
IsInHouse devuelto = ⊥
IsInHouse cancelado = ⊥
IsInHouse status = Unit

-- An order that was delivered, less than some time ago.
abbrev pub IsDeliveredWithin : ℕ → OrderStatus → Option ℕ → ℕ → Type 0
IsDeliveredWithin now entregado (some date) ms = now < date + ms
IsDeliveredWithin now status date ms = ⊥

cancellable_iff :
    (s : OrderStatus) → (includes customer_cancellable_statuses s ≡ true) ↔ IsInHouse s
cancellable_iff pendiente_pago = (λ e. tt, λ h. refl)
cancellable_iff pago_pendiente_acreditacion = (λ e. tt, λ h. refl)
cancellable_iff pago_rechazado = (λ e. tt, λ h. refl)
cancellable_iff pagado = (λ e. tt, λ h. refl)
cancellable_iff en_preparacion = (λ e. tt, λ h. refl)
cancellable_iff despachado = (λ e. false≢true e, λ h. absurd h)
cancellable_iff entregado = (λ e. false≢true e, λ h. absurd h)
cancellable_iff cancelado = (λ e. false≢true e, λ h. absurd h)
cancellable_iff devuelto = (λ e. false≢true e, λ h. absurd h)

retryable_iff :
    (s : OrderStatus)
    → (includes retryable_payment_statuses s ≡ true) ↔ ((s ≡ pendiente_pago) ⊎ (s ≡ pago_rechazado))
retryable_iff s = (λ e. ground arith, λ h. ground (arith, h))

unless_iff :
    (b : Bool) (x : ActionAvailability) (reason : Denial)
    → IsAllowed (if not b then denied reason else x) ↔ ((b ≡ true) × IsAllowed x)
unless_iff true x reason = (λ p. (refl, p), λ (e, p). p)
unless_iff false x reason = (λ (d, e). ground arith, λ (e, p). absurd (false≢true e))

before_deadline_iff :
    (now deadline : ℕ) (late : Denial)
    → IsAllowed (before_deadline now deadline late) ↔ (now < deadline)
before_deadline_iff now deadline late = (λ (d, e). ground arith, λ l. (some deadline, ground arith))

cancel_window_iff :
    (paid_at : Option ℕ) (now : ℕ)
    → IsAllowed (cancel_window paid_at now) ↔ IsWithin now paid_at 86_400_000
cancel_window_iff none now = (λ p. tt, λ u. (none, refl))
cancel_window_iff (some paid_at) now = before_deadline_iff now (paid_at + 86_400_000) _

delivered_window_iff :
    (status : OrderStatus) (delivered_at : Option ℕ) (now : ℕ)
    → IsAllowed (delivered_window status delivered_at now)
      ↔ IsDeliveredWithin now status delivered_at 864_000_000
delivered_window_iff entregado (some date) now = before_deadline_iff now (date + 864_000_000) _
delivered_window_iff entregado none now = (λ (d, e). ground arith, λ h. absurd h)
delivered_window_iff status none now = (λ (d, e). ground arith, λ h. absurd h)
delivered_window_iff status (some date) now = (λ (d, e). ground arith, λ h. absurd h)

-- The customer may cancel exactly an order that was not dispatched, delivered, returned or
-- cancelled, and a paid one only in the 24 hours after the payment; may retry the payment exactly
-- of an order that is pendiente_pago or pago_rechazado, before its reservation expires; and may
-- ask for a return exactly of an order that is delivered, in the 10 days after the delivery.
pub policies_iff :
    (order : Order) (now : ℕ)
    → (IsAllowed (customer_cancellation order now)
        ↔ (IsInHouse order.status × IsWithin now order.paid_at 86_400_000))
      × (IsAllowed (payment_retry order now) ↔ (
          ((order.status ≡ pendiente_pago) ⊎ (order.status ≡ pago_rechazado))
          × (now < order.reservation_expires_at)))
      × (IsAllowed (return_window order now)
          ↔ IsDeliveredWithin now order.status order.delivered_at 864_000_000)
unfolding customer_cancellation payment_retry return_window
policies_iff order now =
    let (cancel_to, cancel_from) =
      unless_iff (includes customer_cancellable_statuses order.status)
        (cancel_window order.paid_at now) _ in
    let (in_time, back) = cancel_window_iff order.paid_at now in
    let (in_house, cancellable) = cancellable_iff order.status in
    let (retry_to, retry_from) =
      unless_iff (includes retryable_payment_statuses order.status)
        (before_deadline now order.reservation_expires_at order_expired) _ in
    let (early, late) = before_deadline_iff now order.reservation_expires_at order_expired in
    let (unpaid, retryable) = retryable_iff order.status in
    (
      (
        λ p. let (e, q) = cancel_to p in (in_house e, in_time q),
        λ (h, w). cancel_from (cancellable h, back w),
      ),
      (
        λ p. let (e, q) = retry_to p in (unpaid e, early q),
        λ (h, w). retry_from (retryable h, late w),
      ),
      delivered_window_iff order.status order.delivered_at now,
    )

retry_edge :
    (status : OrderStatus)
    → (status ≡ pendiente_pago) ⊎ (status ≡ pago_rechazado)
    → (status ≡ pendiente_pago) ⊎ (can_transition status pendiente_pago ≡ true)
unfolding can_transition
retry_edge status h = ground (arith, h)

return_edge :
    (now ms : ℕ) (status : OrderStatus) (date : Option ℕ)
    → IsDeliveredWithin now status date ms
    → can_transition status devuelto ≡ true
unfolding can_transition
return_edge now ms entregado date h = refl
return_edge now ms status date h = absurd h

-- What the policies offer is in the transition table: an order that the customer or the
-- administrator may cancel has an edge to cancelado, each target that the administrator is
-- offered is an edge, an order whose payment may be retried is pendiente_pago or has an edge to
-- it, and an order that may be returned has an edge to devuelto.
pub policies_can_transition :
    (order : Order) (now : ℕ) (target : OrderStatus)
    → (IsAllowed (customer_cancellation order now) → can_transition order.status cancelado ≡ true)
      × (includes admin_non_cancellable_statuses order.status ≡ false
          → can_transition order.status cancelado ≡ true)
      × (includes (admin_transitions order.status) target ≡ true
          → can_transition order.status target ≡ true)
      × (IsAllowed (payment_retry order now)
          → (order.status ≡ pendiente_pago) ⊎ (can_transition order.status pendiente_pago ≡ true))
      × (IsAllowed (return_window order now) → can_transition order.status devuelto ≡ true)
unfolding customer_cancellation can_transition
policies_can_transition order now target =
    let (cancellation, retry, window) = policies_iff order now in
    (
      λ (d, h). ground arith,
      λ h. ground arith,
      λ h. ground arith,
      λ h. retry_edge order.status (retry.0 h).0,
      λ h. return_edge now 864_000_000 order.status order.delivered_at (window.0 h),
    )
