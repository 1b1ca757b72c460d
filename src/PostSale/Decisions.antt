-- ===== src/PostSale/Decisions.antt =====
-- backend/src/modules/orders/admin/admin-returns.service.ts: a decision on a request blocks no more
-- units than the request did.
use e_commerce_titulo_interm.Common.{
  throw_if-IfOk, false≢true, ℕ, ◌≤◌, ◌≡◌, refl, sym, subst, inl, inr, Bool, true, false, some, List,
  [], ◌∷◌, ◌&&◌, not, ◌==◌, ==_iff, if◌then◌else◌, Option-cases, any, every, is_some, map, sum,
  sum-keep, sum-update_key, find_key, All-map, All-find, All-trivial, throw_if, IfOk, IfOk-bind,
  IfOk-after, arith,
}
use Prim.Native.String.{String}
use e_commerce_titulo_interm.Errors.{
  return_status_changed, items_do_not_match, approved_too_many, nothing_approved,
  missing_rejection_reason,
}
use e_commerce_titulo_interm.Entities.{Order}
use e_commerce_titulo_interm.PostSale.Rows.{
  ReturnRequestStatus, solicitada, aprobada, rechazada, resuelta, ReturnRequestItem, ReturnRequest,
  or_zero, blocked_units, blocked_in, request_key,
}
use e_commerce_titulo_interm.PostSale.Resolution.{
  ApproveReturnDto, same_request_status, lock_request, has_same_items, approve_item, exceeds,
  is_partial, save_request, approved_request, approve, unapproved, rejected_request, reject,
}
use e_commerce_titulo_interm.PostSale.Units.{IsWithin}

status_lem : (s : ReturnRequestStatus) → same_request_status s solicitada ≡ true → s ≡ solicitada
status_lem solicitada h = refl
status_lem aprobada h = absurd (false≢true h)
status_lem rechazada h = absurd (false≢true h)
status_lem resuelta h = absurd (false≢true h)

-- The request that is locked is the row of its key, and open.
lock_request-open :
    (id : ℕ) (requests : List ReturnRequest)
    → IfOk
        (λ r. (find_key request_key r.id requests ≡ some r) × (r.status ≡ solicitada))
        (lock_request id solicitada requests)
unfolding lock_request
lock_request-open id requests = elim (Option-cases (find_key request_key id requests)) [
  | inl e ↦ rw (e, lock_request) tt
  | inr (r, e) ↦
      let passed =
        (All-find (λ x. Unit {0}) (λ x. request_key x == id) requests (All-trivial requests) e).1 in
      let same : r.id ≡ id = (==_iff r.id id).0 passed in
      let found = subst (λ k. find_key request_key k requests ≡ some r) (sym same) e in
      rw (e, lock_request)
        (IfOk-bind (λ done. not (same_request_status r.status solicitada) ≡ false)
          (λ q. (find_key request_key q.id requests ≡ some q) × (q.status ≡ solicitada))
          (throw_if (not (same_request_status r.status solicitada)) return_status_changed) _
          (throw_if-IfOk (not (same_request_status r.status solicitada)) return_status_changed)
          (λ done waits. (found, status_lem r.status (ground (arith, waits)))))
]

-- A write that blocks no more than before.
save_request-IsWithin :
    (order : Order) (requests : List ReturnRequest) (r saved : ReturnRequest)
    → IsWithin order requests
    → find_key request_key r.id requests ≡ some r
    → saved.id ≡ r.id
    → saved.order_id ≡ r.order_id
    → ((j : ℕ) → blocked_in j saved ≤ blocked_in j r)
    → IsWithin order (save_request saved requests)
save_request-IsWithin order requests r saved within found same_id same_order less =
    All-map
      (λ i fits.
        let test : ReturnRequest → Bool = λ x. x.order_id == order.id in
        let counted : ReturnRequest → ℕ = λ x. if test x then blocked_in i.id x else 0 in
        let before = sum-keep (blocked_in i.id) test requests in
        let after = sum-keep (blocked_in i.id) test (save_request saved requests) in
        let moved =
          sum-update_key request_key counted saved.id (λ row. saved) requests
            (subst (λ k. find_key request_key k requests ≡ some r) (sym same_id) found) in
        let fewer : counted saved ≤ counted r = ground (arith, less i.id, same_order) in
        omega (arith, fits, before, after, moved, fewer))
      order.items within

approved-le :
    (j : ℕ) (dto : ApproveReturnDto) (items : List ReturnRequestItem)
    → any exceeds (map (approve_item dto) items) ≡ false
    → sum
        (λ i. if i.order_item_id == j then blocked_units aprobada i else 0)
        (map (approve_item dto) items)
      ≤ sum (λ i. if i.order_item_id == j then blocked_units solicitada i else 0) items
approved-le j dto [] h = omega arith
approved-le j dto (i ∷ is) h = ground (arith, approved-le j dto is)

rejected-zero :
    (j : ℕ) (items : List ReturnRequestItem)
    → sum
        (λ i. if i.order_item_id == j then blocked_units rechazada i else 0)
        (map unapproved items)
      ≡ 0
rejected-zero j [] = refl
rejected-zero j (i ∷ is) = ground (arith, rejected-zero j is)

module _ (order : Order) (requests : List ReturnRequest) (within : IsWithin order requests) where
  approve-IsWithin :
      (now admin_id request_id : ℕ) (dto : ApproveReturnDto)
      → IfOk (IsWithin order) (approve now admin_id request_id dto requests)
  unfolding approve
  approve-IsWithin now admin_id request_id dto =
      IfOk-bind (λ r. (find_key request_key r.id requests ≡ some r) × (r.status ≡ solicitada))
        (IsWithin order) (lock_request request_id solicitada requests) _
        (lock_request-open request_id requests)
        (λ r locked.
          let items = map (approve_item dto) r.items in
          IfOk-after (IsWithin order)
            (throw_if (not (has_same_items dto r.items)) items_do_not_match) _
            (λ done.
              IfOk-bind (λ done. any exceeds items ≡ false) (IsWithin order)
                (throw_if (any exceeds items) approved_too_many) _
                (throw_if-IfOk (any exceeds items) approved_too_many)
                (λ done fits.
                  IfOk-after (IsWithin order)
                    (throw_if
                      (every (λ (i : ReturnRequestItem). or_zero i.quantity_approved == 0) items)
                      nothing_approved)
                    _
                    (λ done.
                      IfOk-after (IsWithin order)
                        (throw_if (is_partial items && not (is_some dto.rejection_reason))
                          missing_rejection_reason)
                        _
                        (λ done.
                          save_request-IsWithin order requests r
                            (approved_request now admin_id dto items r) within locked.0 refl refl
                            (λ j. rw locked.1 (approved-le j dto r.items fits)))))))

  reject-IsWithin :
      (now admin_id request_id : ℕ) (reason : String)
      → IfOk (IsWithin order) (reject now admin_id request_id reason requests)
  unfolding reject
  reject-IsWithin now admin_id request_id reason =
      IfOk-bind (λ r. (find_key request_key r.id requests ≡ some r) × (r.status ≡ solicitada))
        (IsWithin order) (lock_request request_id solicitada requests) _
        (lock_request-open request_id requests)
        (λ r locked.
          save_request-IsWithin order requests r (rejected_request now admin_id reason r) within
            locked.0 refl refl (λ j. omega (arith, rejected-zero j r.items)))

  -- If the requests on an order block no more units of each item than were bought, the same holds
  -- after approve and after reject, if they return, whatever request they are about.
  pub decisions-IsWithin :
      (now admin_id request_id : ℕ) (dto : ApproveReturnDto) (reason : String)
      → IfOk (IsWithin order) (approve now admin_id request_id dto requests)
        × IfOk (IsWithin order) (reject now admin_id request_id reason requests)
  decisions-IsWithin now admin_id request_id dto reason =
      (approve-IsWithin now admin_id request_id dto, reject-IsWithin now admin_id request_id reason)
