-- ===== src/PostSale/Rows.antt =====
-- backend/src/modules/orders/returns/entities, and the units that can still be asked for
-- (backend/src/modules/orders/returns/return-eligibility.ts).
use e_commerce_titulo_interm.Common.{
  ℕ, ◌-◌, Bool, Option, none, some, List, keep, sum, ◌==◌, if◌then◌else◌,
}
use Prim.Native.String.{String}

-- `ReturnRequestStatus`
pub data ReturnRequestStatus : Type 0 where
  solicitada aprobada rechazada resuelta : ReturnRequestStatus

-- `ReturnRequestType`
pub data ReturnRequestType : Type 0 where
  cambio devolucion : ReturnRequestType

-- `ReturnItemCondition`
pub data ReturnItemCondition : Type 0 where
  in_order danado : ReturnItemCondition

-- `ReturnRequestItem`
pub record ReturnRequestItem : Type 0 where
  pub order_item_id : ℕ
  pub quantity_requested : ℕ
  pub quantity_approved : Option ℕ
  pub quantity_received : Option ℕ
  pub condition : Option ReturnItemCondition
  pub refund_approved : Option Bool

-- `ReturnRequest`, with its items.
pub record ReturnRequest : Type 0 where
  pub id : ℕ
  pub request_number : ℕ
  pub order_id : ℕ
  pub status : ReturnRequestStatus
  pub kind : ReturnRequestType  -- `type`
  pub reason : String
  pub items : List ReturnRequestItem
  pub approved_at : Option ℕ
  pub received_at : Option ℕ
  pub resolved_at : Option ℕ
  pub resolved_by_user_id : Option ℕ
  pub resolution_note : Option String
  pub internal_note : Option String
  pub refund_id : Option ℕ

abbrev pub request_key : ReturnRequest → ℕ
request_key r = r.id

-- `quantity ?? 0`
abbrev pub or_zero : Option ℕ → ℕ
or_zero none = 0
or_zero (some n) = n

-- The units that an item of a request blocks, by the state of the request.
abbrev pub blocked_units : ReturnRequestStatus → ReturnRequestItem → ℕ
blocked_units solicitada i = i.quantity_requested
blocked_units aprobada i = or_zero i.quantity_approved
blocked_units resuelta i = or_zero i.quantity_received
blocked_units rechazada i = 0

-- The inner loop of `eligibleUnits`.
abbrev pub blocked_in : ℕ → ReturnRequest → ℕ
blocked_in order_item_id r =
    sum (λ i. if i.order_item_id == order_item_id then blocked_units r.status i else 0) r.items

-- The loops of `eligibleUnits`.
abbrev pub blocked : ℕ → List ReturnRequest → ℕ
blocked order_item_id requests = sum (blocked_in order_item_id) requests

-- `eligibleUnits`; the subtraction stops at 0, as `Math.max` does.
abbrev pub eligible_units : ℕ → ℕ → List ReturnRequest → ℕ
eligible_units order_item_id purchased requests = purchased - blocked order_item_id requests

-- The requests of an order.
abbrev pub of_order : ℕ → List ReturnRequest → List ReturnRequest
of_order order_id requests = keep (λ r. r.order_id == order_id) requests
