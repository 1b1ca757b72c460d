-- ===== src/Payments/Status.antt =====
-- backend/src/modules/payments/entities and the tables of payments.service.ts and
-- refunds.service.ts: the states of a payment and of a refund, and the raw states of the gateway.
use e_commerce_titulo_interm.Common.{ℕ, Bool, Option, none, some, List, [], ◌∷◌, any, ◌==◌}
use Prim.Native.String.{String}

-- `PaymentStatus`
pub data PaymentStatus : Type 0 where
  pendiente aprobado rechazado pendiente_acreditacion cancelado : PaymentStatus

-- `PaymentOutcome`
pub data PaymentOutcome : Type 0 where
  aprobado rechazado pendiente : PaymentOutcome

-- `RefundStatus`
pub data RefundStatus : Type 0 where
  en_tramite reembolsado rechazado pendiente_de_gestion : RefundStatus

-- `RefundOrigin`
pub data RefundOrigin : Type 0 where
  cu_05 cu_14 cu_19 cu_22 : RefundOrigin

abbrev payment_index : PaymentStatus → ℕ
payment_index pendiente = 0
payment_index aprobado = 1
payment_index rechazado = 2
payment_index pendiente_acreditacion = 3
payment_index cancelado = 4

-- `a === b`
abbrev pub same_payment_status : PaymentStatus → PaymentStatus → Bool
same_payment_status a b = payment_index a == payment_index b

abbrev refund_index : RefundStatus → ℕ
refund_index en_tramite = 0
refund_index reembolsado = 1
refund_index rechazado = 2
refund_index pendiente_de_gestion = 3

abbrev pub same_refund_status : RefundStatus → RefundStatus → Bool
same_refund_status a b = refund_index a == refund_index b

-- `FINAL_PAYMENT_STATUSES`
abbrev pub final_payment_statuses : List PaymentStatus
final_payment_statuses =
    PaymentStatus.aprobado ∷ PaymentStatus.rechazado ∷ PaymentStatus.cancelado ∷ []

-- `FINAL_PAYMENT_STATUSES.includes(status)`
abbrev pub is_final : PaymentStatus → Bool
is_final status = any (same_payment_status status) final_payment_statuses

-- `COMMITTED_REFUND_STATUSES`
abbrev pub committed_refund_statuses : List RefundStatus
committed_refund_statuses = en_tramite ∷ reembolsado ∷ pendiente_de_gestion ∷ []

-- `In(COMMITTED_REFUND_STATUSES)`
abbrev pub is_committed : RefundStatus → Bool
is_committed status = any (same_refund_status status) committed_refund_statuses

-- `REFUND_NEEDS_ATTENTION`
abbrev pub refund_needs_attention : List RefundStatus
refund_needs_attention = RefundStatus.rechazado ∷ pendiente_de_gestion ∷ []

-- `REFUND_NEEDS_ATTENTION.includes(status)`
abbrev pub needs_attention : RefundStatus → Bool
needs_attention status = any (same_refund_status status) refund_needs_attention

-- The raw state of a payment at the gateway; `other` is any text that `STATUS_MAP` does not name.
pub data GatewayStatus : Type 0 where
  approved rejected cancelled pending in_process authorized : GatewayStatus
  other : String → GatewayStatus

-- `STATUS_MAP`
abbrev pub status_map : GatewayStatus → Option (PaymentStatus × PaymentOutcome)
status_map approved = some (PaymentStatus.aprobado, PaymentOutcome.aprobado)
status_map rejected = some (PaymentStatus.rechazado, PaymentOutcome.rechazado)
status_map cancelled = some (PaymentStatus.cancelado, PaymentOutcome.rechazado)
status_map pending = some (pendiente_acreditacion, PaymentOutcome.pendiente)
status_map in_process = some (pendiente_acreditacion, PaymentOutcome.pendiente)
status_map authorized = some (pendiente_acreditacion, PaymentOutcome.pendiente)
status_map (other text) = none

-- `FINAL_REFUND_STATUS`, over the raw states of a refund, which the gateway spells likewise.
abbrev pub final_refund_status : GatewayStatus → Option RefundStatus
final_refund_status approved = some reembolsado
final_refund_status rejected = some RefundStatus.rechazado
final_refund_status cancelled = some RefundStatus.rechazado
final_refund_status status = none
