-- ===== src/PostSale/Units.antt =====
-- backend/src/modules/orders/returns: no item of an order is asked back more often than it was bought.
use e_commerce_titulo_interm.Common.{
  throw_if-IfOk, ℕ, ◌+◌, ◌≤◌, ◌≡◌, refl, ap, ◌∙◌, subst, inl, inr, Bool, true, false, some, List,
  [], ◌∷◌, ◌++◌, not, ◌==◌, ==_iff, ltb, if◌then◌else◌, if-cases, Bool-cases, any, every, map, sum,
  sum-append, sum-keep, find_key, find_key-All, HasKeys, All, All-map, All-map2, throw_if, IfOk,
  IfOk-bind, IfOk-map, IfOk-after, IfOk-intro, arith,
}
use e_commerce_titulo_interm.Errors.{
  more_than_bought, already_requested, order_not_found, repeated_item, too_many_photos,
  no_eligible_items,
}
use e_commerce_titulo_interm.Entities.{OrderItem, Order, find_order}
use e_commerce_titulo_interm.Orders.Policies.{return_window}
use e_commerce_titulo_interm.PostSale.Rows.{
  solicitada, ReturnRequest, blocked_units, blocked_in, blocked, eligible_units, of_order,
}
use e_commerce_titulo_interm.PostSale.Requests.{
  ReturnRequestItemDto, CreateReturnRequestDto, order_item_key, all_distinct, check_found,
  check_items, require_window, validate_order, new_request_item, new_request, create_on,
  create_request,
}

-- What the requests of an order block is within what was bought of each item.
abbrev pub IsWithin : Order → List ReturnRequest → Type 0
IsWithin order requests =
    All (λ i. blocked i.id (of_order order.id requests) ≤ i.quantity) order.items

-- The units of an item that a new request asks for.
abbrev asked : ℕ → List ReturnRequestItemDto → ℕ
asked j ds = sum (λ d. if d.order_item_id == j then d.quantity else 0) ds

abbrev ids : List ReturnRequestItemDto → List ℕ
ids ds = map (λ (d : ReturnRequestItemDto). d.order_item_id) ds

asked-none :
    (j : ℕ) (ds : List ReturnRequestItemDto) → any (λ k. k == j) (ids ds) ≡ false → asked j ds ≡ 0
asked-none j [] h = refl
asked-none j (d ∷ ds) h = ground (arith, asked-none j ds)

module _ (items : List OrderItem) (previous : List ReturnRequest) (i : OrderItem)
    (found : find_key order_item_key i.id items ≡ some i) where
  check_found-fits :
      (d : ReturnRequestItemDto)
      → IfOk
          (λ done. d.order_item_id ≡ i.id → d.quantity ≤ eligible_units i.id i.quantity previous)
          (check_found previous d (find_key order_item_key d.order_item_id items))
  check_found-fits d = elim (Bool-cases (d.order_item_id == i.id)) [
    | inr e ↦
        IfOk-intro _ (check_found previous d (find_key order_item_key d.order_item_id items))
          (λ done f same. ground (arith, e, same))
    | inl e ↦
        let same = (==_iff d.order_item_id i.id).0 e in
        let at_item : find_key order_item_key d.order_item_id items ≡ some i =
          ap (λ k. find_key order_item_key k items) same ∙ found in
        rw at_item (
          IfOk-after
            (λ done. d.order_item_id ≡ i.id → d.quantity ≤ eligible_units i.id i.quantity previous)
            (throw_if (ltb i.quantity d.quantity) more_than_bought) _
            (λ done.
              IfOk-map (λ done few same. ground (arith, few))
                (throw_if (ltb (eligible_units i.id i.quantity previous) d.quantity)
                  already_requested)
                (throw_if-IfOk (ltb (eligible_units i.id i.quantity previous) d.quantity)
                  already_requested)))
  ]

  -- A batch that passes the loop of `validate` fits with what is blocked already.
  check_items-fits :
      (ds : List ReturnRequestItemDto)
      → all_distinct (ids ds) ≡ true
      → blocked i.id previous ≤ i.quantity
      → IfOk
          (λ done. asked i.id ds + blocked i.id previous ≤ i.quantity)
          (check_items items previous ds)
  unfolding check_items
  check_items-fits [] distinct within = omega (arith, within)
  check_items-fits (d ∷ ds) distinct within =
      IfOk-bind
        (λ done. d.order_item_id ≡ i.id → d.quantity ≤ eligible_units i.id i.quantity previous)
        (λ done. asked i.id (d ∷ ds) + blocked i.id previous ≤ i.quantity)
        (check_found previous d (find_key order_item_key d.order_item_id items)) _
        (check_found-fits d)
        (λ done one.
          IfOk-map
            (λ done rest. elim (Bool-cases (d.order_item_id == i.id)) [
              | inl e ↦
                  let same = (==_iff d.order_item_id i.id).0 e in
                  let alone : asked i.id ds ≡ 0 = asked-none i.id ds (
                    subst (λ k. any (λ y. y == k) (ids ds) ≡ false) same
                      (ground (arith, distinct))) in
                  let fits = one same in rw e (omega (arith, alone, fits, within))
              | inr e ↦ rw e (omega (arith, rest))
            ])
            (check_items items previous ds) (check_items-fits ds (ground (arith, distinct)) within))

asked-items :
    (j : ℕ) (ds : List ReturnRequestItemDto)
    → sum
        (λ i. if i.order_item_id == j then blocked_units solicitada i else 0)
        (map new_request_item ds)
      ≡ asked j ds
asked-items j [] = refl
asked-items j (d ∷ ds) =
    ap (λ n. (if d.order_item_id == j then d.quantity else 0) + n) (asked-items j ds)

asked-new_request :
    (j id number order_id : ℕ) (dto : CreateReturnRequestDto)
    → blocked_in j (new_request id number order_id dto) ≡ asked j dto.items
asked-new_request j id number order_id dto = asked-items j dto.items

-- What the requests of an order block, when one is added at the end.
blocked-append :
    (j order_id : ℕ) (requests : List ReturnRequest) (r : ReturnRequest)
    → r.order_id ≡ order_id
    → blocked j (of_order order_id (requests ++ (r ∷ [])))
      ≡ blocked j (of_order order_id requests) + blocked_in j r
blocked-append j order_id requests r same =
    let test : ReturnRequest → Bool = λ x. x.order_id == order_id in
    let counted : ReturnRequest → ℕ = λ x. if test x then blocked_in j x else 0 in
    let one = sum-keep (blocked_in j) test (requests ++ (r ∷ [])) in
    let two = sum-keep (blocked_in j) test requests in
    let split = sum-append counted requests (r ∷ []) in
    let last : counted r ≡ blocked_in j r =
      if-cases (λ n. n ≡ blocked_in j r) (test r) (λ e. refl) (λ e. ground (arith, e, same)) in
    omega (arith, one, two, split, last)

module _ (order : Order) (requests : List ReturnRequest) (keys : HasKeys order_item_key order.items)
    (within : IsWithin order requests) where
  abbrev Fits : List ReturnRequestItemDto → Type 0
  Fits ds =
      All (λ i. asked i.id ds + blocked i.id (of_order order.id requests) ≤ i.quantity) order.items

  validate_order-Fits :
      (now : ℕ) (ds : List ReturnRequestItemDto)
      → all_distinct (ids ds) ≡ true
      → IfOk (λ done. Fits ds) (validate_order now order ds (of_order order.id requests))
  unfolding validate_order
  validate_order-Fits now ds distinct =
      let previous = of_order order.id requests in
      IfOk-after _ (require_window (return_window order now)) _ (λ done.
        IfOk-after _
          (throw_if (every (λ i. eligible_units i.id i.quantity previous == 0) order.items)
            no_eligible_items)
          _
          (λ done.
            IfOk-intro (λ done. Fits ds) (check_items order.items previous ds)
              (λ done e.
                All-map2
                  (λ i found fits.
                    subst (IfOk (λ done. asked i.id ds + blocked i.id previous ≤ i.quantity)) e
                      (check_items-fits order.items previous i found ds distinct fits))
                  order.items (find_key-All order_item_key order.items keys) within)))

  -- If the items of an order have distinct keys and the requests on the order block no more units
  -- of each item than were bought, the same holds after create of ReturnsService, if it returns,
  -- for a request on that order.
  pub create_request-IsWithin :
      (now id number user_id order_id photos : ℕ) (dto : CreateReturnRequestDto)
      (orders : List Order)
      → find_order order_id orders ≡ some order
      → IfOk
          (IsWithin order)
          (create_request now id number user_id order_id dto photos orders requests)
  unfolding create_request create_on
  create_request-IsWithin now id number user_id order_id photos dto orders found =
      IfOk-bind (λ done. not (all_distinct (ids dto.items)) ≡ false) (IsWithin order)
        (throw_if (not (all_distinct (ids dto.items))) repeated_item) _
        (throw_if-IfOk (not (all_distinct (ids dto.items))) repeated_item)
        (λ done distinct.
          IfOk-after (IsWithin order) (throw_if (ltb 3 photos) too_many_photos) _ (λ done.
            rw (found, create_on)
              (IfOk-after (IsWithin order)
                (throw_if (not (order.user_id == user_id)) order_not_found) _
                (λ done.
                  IfOk-bind (λ done. Fits dto.items) (IsWithin order)
                    (validate_order now order dto.items (of_order order.id requests)) _
                    (validate_order-Fits now dto.items (ground (arith, distinct)))
                    (λ done fits.
                      All-map
                        (λ i fit. omega (
                          arith,
                          fit,
                          asked-new_request i.id id number order.id dto,
                          blocked-append i.id order.id requests (new_request id number order.id dto)
                              refl,
                        ))
                        order.items fits)))))
