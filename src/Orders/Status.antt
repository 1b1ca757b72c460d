-- ===== src/Orders/Status.antt =====
-- backend/src/modules/orders/order-status.ts: the states of an order and the transition table.
use e_commerce_titulo_interm.Common.{ℕ, Bool, List, [], ◌∷◌, any, ◌==◌}

-- `OrderStatus`
pub data OrderStatus : Type 0 where
  pendiente_pago pago_pendiente_acreditacion pago_rechazado pagado : OrderStatus
  en_preparacion despachado entregado cancelado devuelto : OrderStatus

-- `OrderCancellationCause`
pub data OrderCancellationCause : Type 0 where
  reserva_vencida pasarela cliente administrador : OrderCancellationCause

abbrev status_index : OrderStatus → ℕ
status_index pendiente_pago = 0
status_index pago_pendiente_acreditacion = 1
status_index pago_rechazado = 2
status_index pagado = 3
status_index en_preparacion = 4
status_index despachado = 5
status_index entregado = 6
status_index cancelado = 7
status_index devuelto = 8

-- `a === b`
abbrev pub same_status : OrderStatus → OrderStatus → Bool
same_status a b = status_index a == status_index b

-- `statuses.includes(status)`
abbrev pub includes : List OrderStatus → OrderStatus → Bool
includes statuses status = any (same_status status) statuses

-- `TRANSITIONS`
abbrev pub transitions : OrderStatus → List OrderStatus
transitions pendiente_pago = pago_pendiente_acreditacion ∷ pago_rechazado ∷ pagado ∷ cancelado ∷ []
transitions pago_pendiente_acreditacion = pagado ∷ pago_rechazado ∷ cancelado ∷ []
transitions pago_rechazado = pendiente_pago ∷ pago_pendiente_acreditacion ∷ pagado ∷ cancelado ∷ []
transitions pagado = en_preparacion ∷ cancelado ∷ []
transitions en_preparacion = despachado ∷ cancelado ∷ []
transitions despachado = entregado ∷ cancelado ∷ []
transitions entregado = devuelto ∷ []
transitions cancelado = pagado ∷ []
transitions devuelto = []

-- `canTransition`
unfoldable pub can_transition : OrderStatus → OrderStatus → Bool
can_transition source target = includes (transitions source) target

-- `AWAITING_PAYMENT_STATUSES`
abbrev pub awaiting_payment_statuses : List OrderStatus
awaiting_payment_statuses = pendiente_pago ∷ pago_pendiente_acreditacion ∷ pago_rechazado ∷ []

-- `PAID_STATUSES`
abbrev pub paid_statuses : List OrderStatus
paid_statuses = pagado ∷ en_preparacion ∷ despachado ∷ entregado ∷ devuelto ∷ []
