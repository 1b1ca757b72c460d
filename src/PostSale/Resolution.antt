-- ===== src/PostSale/Resolution.antt =====
-- backend/src/modules/orders/admin/admin-returns.service.ts: `approve` and `reject`.
use e_commerce_titulo_interm.Common.{
  ℕ, Bool, true, false, Option, none, some, List, ◌&&◌, not, ◌==◌, ltb, any, every, find, find_key,
  length, map, if◌then◌else◌, is_some, Result, ok, err, ◌>>=◌, ◌>>◌, throw_if, update_key,
}
use Prim.Native.String.{String}
use e_commerce_titulo_interm.Errors.{
  ServiceError, request_not_found, return_status_changed, items_do_not_match, approved_too_many,
  nothing_approved, missing_rejection_reason,
}
use e_commerce_titulo_interm.PostSale.Rows.{
  ReturnRequestStatus, solicitada, aprobada, rechazada, resuelta, ReturnRequestItem, ReturnRequest,
  request_key, or_zero,
}
use e_commerce_titulo_interm.PostSale.Requests.{all_distinct}

-- An item of `ApproveReturnDto`.
pub record ApproveItemDto : Type 0 where
  pub order_item_id : ℕ
  pub quantity_approved : ℕ

-- `ApproveReturnDto`
pub record ApproveReturnDto : Type 0 where
  pub items : List ApproveItemDto
  pub rejection_reason : Option String
  pub internal_note : Option String

abbrev pub same_request_status : ReturnRequestStatus → ReturnRequestStatus → Bool
same_request_status solicitada solicitada = true
same_request_status aprobada aprobada = true
same_request_status rechazada rechazada = true
same_request_status resuelta resuelta = true
same_request_status a b = false

-- `lockRequest`
unfoldable pub lock_request :
    ℕ → ReturnRequestStatus → List ReturnRequest → Result ServiceError ReturnRequest
lock_request id expected requests = elim (find_key request_key id requests) [
  | none ↦ err request_not_found
  | some r ↦ throw_if (not (same_request_status r.status expected)) return_status_changed >> ok r
]

-- `byItem.get(id)`, with distinct ids.
abbrev pub approved_for : ApproveReturnDto → ℕ → Option ApproveItemDto
approved_for dto id = find (λ d. d.order_item_id == id) dto.items

abbrev pub dto_quantity : Option ApproveItemDto → ℕ
dto_quantity none = 0
dto_quantity (some d) = d.quantity_approved

-- `sameItems`
abbrev pub has_same_items : ApproveReturnDto → List ReturnRequestItem → Bool
has_same_items dto items =
    all_distinct (map (λ (d : ApproveItemDto). d.order_item_id) dto.items)
    && (length dto.items == length items)
    && every (λ i. is_some (approved_for dto i.order_item_id)) items

-- `ri.quantityApproved = approved`
abbrev pub approve_item : ApproveReturnDto → ReturnRequestItem → ReturnRequestItem
approve_item dto i = record i {
  quantity_approved = some (dto_quantity (approved_for dto i.order_item_id));
}

-- The guard of the loop of `approve`.
abbrev pub exceeds : ReturnRequestItem → Bool
exceeds i = ltb i.quantity_requested (or_zero i.quantity_approved)

-- `partial`
abbrev pub is_partial : List ReturnRequestItem → Bool
is_partial items = any (λ i. ltb (or_zero i.quantity_approved) i.quantity_requested) items

abbrev pub save_request : ReturnRequest → List ReturnRequest → List ReturnRequest
save_request saved requests = update_key request_key saved.id (λ row. saved) requests

-- The columns that `approve` assigns.
abbrev pub approved_request :
    ℕ → ℕ → ApproveReturnDto → List ReturnRequestItem → ReturnRequest → ReturnRequest
approved_request now admin_id dto items r = record r {
  items = items;
  status = aprobada;
  approved_at = some now;
  resolved_by_user_id = some admin_id;
  internal_note = dto.internal_note;
  resolution_note = if is_partial items then dto.rejection_reason else none;
}

-- The transaction of `approve`. The texts are none where empty.
unfoldable pub approve :
    ℕ → ℕ → ℕ → ApproveReturnDto → List ReturnRequest → Result ServiceError (List ReturnRequest)
unfolding lock_request update_key
approve now admin_id request_id dto requests = do
  r ← lock_request request_id solicitada requests
  throw_if (not (has_same_items dto r.items)) items_do_not_match
  let items = map (approve_item dto) r.items
  throw_if (any exceeds items) approved_too_many
  throw_if (every (λ (i : ReturnRequestItem). or_zero i.quantity_approved == 0) items)
      nothing_approved
  throw_if (is_partial items && not (is_some dto.rejection_reason)) missing_rejection_reason
  ok (save_request (approved_request now admin_id dto items r) requests)

abbrev pub unapproved : ReturnRequestItem → ReturnRequestItem
unapproved i = record i { quantity_approved = some 0 }

-- The columns that `reject` assigns.
abbrev pub rejected_request : ℕ → ℕ → String → ReturnRequest → ReturnRequest
rejected_request now admin_id reason r = record r {
  items = map unapproved r.items;
  status = rechazada;
  resolved_at = some now;
  resolved_by_user_id = some admin_id;
  resolution_note = some reason;
}

-- The transaction of `reject`.
unfoldable pub reject :
    ℕ → ℕ → ℕ → String → List ReturnRequest → Result ServiceError (List ReturnRequest)
unfolding lock_request update_key
reject now admin_id request_id reason requests = do
  r ← lock_request request_id solicitada requests
  ok (save_request (rejected_request now admin_id reason r) requests)
