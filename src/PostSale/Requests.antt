-- ===== src/PostSale/Requests.antt =====
-- backend/src/modules/orders/returns/returns.service.ts: `ReturnsService`, over the orders and the
-- table of requests. The photos are files: only their number is looked at.
use e_commerce_titulo_interm.Common.{
  ℕ, Bool, true, Option, none, some, List, [], ◌∷◌, ◌++◌, ◌&&◌, not, ◌==◌, ltb, any, every,
  find_key, map, Result, ok, err, ◌>>◌, throw_if,
}
use Prim.Native.String.{String}
use e_commerce_titulo_interm.Errors.{
  ServiceError, order_not_found, repeated_item, too_many_photos, order_not_delivered,
  return_window_expired, no_eligible_items, item_not_in_order, more_than_bought, already_requested,
}
use e_commerce_titulo_interm.Entities.{OrderItem, Order, find_order}
use e_commerce_titulo_interm.Orders.Policies
use e_commerce_titulo_interm.Orders.Policies.{ActionAvailability, allowed, denied, return_window}
use e_commerce_titulo_interm.PostSale.Rows.{
  ReturnRequestType, solicitada, ReturnRequestItem, ReturnRequest, eligible_units, of_order,
}

-- `ReturnRequestItemDto`
pub record ReturnRequestItemDto : Type 0 where
  pub order_item_id : ℕ
  pub quantity : ℕ

-- `CreateReturnRequestDto`
pub record CreateReturnRequestDto : Type 0 where
  pub kind : ReturnRequestType
  pub reason : String
  pub items : List ReturnRequestItemDto

abbrev pub order_item_key : OrderItem → ℕ
order_item_key i = i.id

-- `new Set(ids).size === ids.length`
abbrev pub all_distinct : List ℕ → Bool
all_distinct [] = true
all_distinct (x ∷ xs) = not (any (λ y. y == x) xs) && all_distinct xs

-- `if (!window.allowed) throw`
abbrev pub require_window : ActionAvailability → Result ServiceError (Unit {0})
require_window (allowed deadline) = ok tt
require_window (denied Policies.return_window_expired) = err return_window_expired
require_window (denied reason) = err order_not_delivered

-- One turn of the loop of `validate`, once the item of the order is found.
abbrev pub check_found :
    List ReturnRequest → ReturnRequestItemDto → Option OrderItem → Result ServiceError (Unit {0})
check_found previous d none = err item_not_in_order
check_found previous d (some i) = do
  throw_if (ltb i.quantity d.quantity) more_than_bought
  throw_if (ltb (eligible_units i.id i.quantity previous) d.quantity) already_requested

-- The loop of `validate`.
unfoldable pub check_items :
    List OrderItem → List ReturnRequest → List ReturnRequestItemDto → Result ServiceError (Unit {0})
check_items items previous [] = ok tt
check_items items previous (d ∷ ds) =
    check_found previous d (find_key order_item_key d.order_item_id items)
    >> check_items items previous ds

-- `validate`, on the order of the customer.
unfoldable pub validate_order :
    ℕ → Order → List ReturnRequestItemDto → List ReturnRequest → Result ServiceError (Unit {0})
unfolding check_items return_window
validate_order now order ds previous = do
  require_window (return_window order now)
  throw_if (every (λ i. eligible_units i.id i.quantity previous == 0) order.items) no_eligible_items
  check_items order.items previous ds

-- An item of the request of step 6.
abbrev pub new_request_item : ReturnRequestItemDto → ReturnRequestItem
new_request_item d = record {
  order_item_id = d.order_item_id;
  quantity_requested = d.quantity;
  quantity_approved = none;
  quantity_received = none;
  condition = none;
  refund_approved = none;
}

-- The request of step 6.
abbrev pub new_request : ℕ → ℕ → ℕ → CreateReturnRequestDto → ReturnRequest
new_request id number order_id dto = record {
  id = id;
  request_number = number;
  order_id = order_id;
  status = solicitada;
  kind = dto.kind;
  reason = dto.reason;
  items = map new_request_item dto.items;
  approved_at = none;
  received_at = none;
  resolved_at = none;
  resolved_by_user_id = none;
  resolution_note = none;
  internal_note = none;
  refund_id = none;
}

-- What `create` does with the order that it finds; `id` and `number` are generated.
unfoldable pub create_on :
    ℕ
    → ℕ
    → ℕ
    → ℕ
    → CreateReturnRequestDto
    → List ReturnRequest
    → Option Order
    → Result ServiceError (List ReturnRequest)
unfolding validate_order
create_on now id number user_id dto requests none = err order_not_found
create_on now id number user_id dto requests (some order) = do
  throw_if (not (order.user_id == user_id)) order_not_found
  validate_order now order dto.items (of_order order.id requests)
  ok (requests ++ (new_request id number order.id dto ∷ []))

-- `create`. The validation before the transaction is the one that the transaction repeats.
unfoldable pub create_request :
    ℕ
    → ℕ
    → ℕ
    → ℕ
    → ℕ
    → CreateReturnRequestDto
    → ℕ
    → List Order
    → List ReturnRequest
    → Result ServiceError (List ReturnRequest)
unfolding create_on find_order
create_request now id number user_id order_id dto photos orders requests = do
  throw_if (not (all_distinct (map (λ (d : ReturnRequestItemDto). d.order_item_id) dto.items)))
      repeated_item
  throw_if (ltb 3 photos) too_many_photos
  create_on now id number user_id dto requests (find_order order_id orders)
