-- ===== src/Tests/PostSaleCases.antt =====
-- The theorems on returns, at an order that was delivered.
use e_commerce_titulo_interm.Common.{some, none, List, [], ◌∷◌, ◌≡◌, refl, arith, IfOk}
use e_commerce_titulo_interm.Orders.Status.{entregado}
use e_commerce_titulo_interm.Entities.{Order, find_order}
use e_commerce_titulo_interm.PostSale.Rows.{devolucion, ReturnRequest}
use e_commerce_titulo_interm.PostSale.Requests.{CreateReturnRequestDto, new_request, create_request}
use e_commerce_titulo_interm.PostSale.Resolution.{ApproveReturnDto, approve, reject}
use e_commerce_titulo_interm.PostSale.Units.{IsWithin, create_request-IsWithin}
use e_commerce_titulo_interm.PostSale.Decisions.{decisions-IsWithin}
use e_commerce_titulo_interm.Tests.Data.{paid_order}

abbrev delivered : Order
delivered = record paid_order { status = entregado; delivered_at = some 5000 }

-- One of the two units comes back.
abbrev one_unit : CreateReturnRequestDto
one_unit = record {
  kind = devolucion;
  reason = "no era el talle";
  items = record { order_item_id = 70; quantity = 1 } ∷ [];
}

abbrev open_requests : List ReturnRequest
open_requests = new_request 200 1 8 one_unit ∷ []

open_requests-IsWithin : IsWithin delivered open_requests
open_requests-IsWithin = ground arith

delivered_lem : find_order 8 (delivered ∷ []) ≡ some delivered
unfolding find_order
delivered_lem = refl

create_request-IsWithin_example :
    IfOk
      (IsWithin delivered)
      (create_request 6000 201 2 3 8 one_unit 0 (delivered ∷ []) open_requests)
create_request-IsWithin_example =
    create_request-IsWithin delivered open_requests (tt, tt) open_requests-IsWithin 6000 201 2 3 8 0
      one_unit (delivered ∷ []) delivered_lem

abbrev approval : ApproveReturnDto
approval = record {
  items = record { order_item_id = 70; quantity_approved = 1 } ∷ [];
  rejection_reason = none;
  internal_note = none;
}

decisions-IsWithin_example :
    IfOk (IsWithin delivered) (approve 7000 1 200 approval open_requests)
    × IfOk (IsWithin delivered) (reject 7000 1 200 "usado" open_requests)
decisions-IsWithin_example =
    decisions-IsWithin delivered open_requests open_requests-IsWithin 7000 1 200 approval "usado"
