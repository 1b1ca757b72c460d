-- ===== src/Tests/CheckoutCases.antt =====
-- The theorems on the checkout, at one customer.
use e_commerce_titulo_interm.Common.{
  ◌-ℤ◌, Option, none, [], ◌∷◌, ◌≡◌, refl, arith, IfOk, Returns, ok,
}
use e_commerce_titulo_interm.Stock.Rows.{row, update_row}
use e_commerce_titulo_interm.Stock.Reservation.{sorted}
use e_commerce_titulo_interm.Entities.{Order, find_order}
use e_commerce_titulo_interm.Orders.Booking.Defs.{IsAccounted}
use e_commerce_titulo_interm.Carts.Current.{IsCurrent}
use e_commerce_titulo_interm.Checkout.Rows.{Shop, catalog_of}
use e_commerce_titulo_interm.Checkout.Confirm.{confirm_transaction}
use e_commerce_titulo_interm.Checkout.Payment.{
  PreferenceInput, CreatedPreference, confirm, preference_input, compensate_failed_preference,
}
use e_commerce_titulo_interm.Checkout.Retry.{retry_transaction}
use e_commerce_titulo_interm.Checkout.Accounting.{confirm-IsAccounted}
use e_commerce_titulo_interm.Checkout.Retrying.{IsRetried, retry_transaction-IsRetried}
use e_commerce_titulo_interm.Checkout.Placed.{
  IsPlaced, charged, confirm_transaction-IsPlaced, preference_input-charged,
}
use e_commerce_titulo_interm.Checkout.Compensation.{
  SameCounters, compensate_failed_preference-undoes,
}
use e_commerce_titulo_interm.Checkout.Success.{IsCovered, confirm_transaction-Returns}
use e_commerce_titulo_interm.Tests.Data.{line, waiting_order, tables, variant_1, variant_2}
use e_commerce_titulo_interm.Tests.OrderCases.{tables-IsAccounted}
use e_commerce_titulo_interm.Tests.ShopData.{
  cart_60, cart_item, shirt, shop_3, checkout_3, confirm_dto,
}

-- A gateway that does not answer.
abbrev silent : PreferenceInput → Option CreatedPreference
silent input = none

confirm-IsAccounted_example :
    IsAccounted (confirm silent 6000 86400000 10 3 confirm_dto shop_3).1.db
confirm-IsAccounted_example =
    confirm-IsAccounted silent 6000 86400000 10 3 confirm_dto shop_3 tables-IsAccounted

retry_transaction-IsRetried_example :
    IfOk IsRetried (retry_transaction 6000 3 7 (shirt ∷ []) tables)
retry_transaction-IsRetried_example =
    retry_transaction-IsRetried 6000 3 7 (shirt ∷ []) tables tables-IsAccounted

confirm_transaction-IsPlaced_example :
    IfOk (IsPlaced checkout_3 shop_3) (confirm_transaction checkout_3 shop_3)
confirm_transaction-IsPlaced_example = confirm_transaction-IsPlaced checkout_3 shop_3

preference_input-charged_example :
    IfOk
      (λ r. charged (preference_input r.0 "ana@example.com") ≡ 1700)
      (confirm_transaction checkout_3 shop_3)
preference_input-charged_example = preference_input-charged checkout_3 shop_3 "ana@example.com"

item_1-IsCurrent : IsCurrent (catalog_of shop_3) (cart_item 61 1 2 500)
unfolding row ◌-ℤ◌
item_1-IsCurrent = (shirt, variant_1, refl, refl, refl, omega arith, refl)

item_2-IsCurrent : IsCurrent (catalog_of shop_3) (cart_item 62 2 1 500)
unfolding row ◌-ℤ◌
item_2-IsCurrent = (shirt, variant_2, refl, refl, refl, omega arith, refl)

items-IsCovered : IsCovered (line 1 2 ∷ line 2 1 ∷ []) shop_3.db.stock
unfolding row ◌-ℤ◌
items-IsCovered = (ground arith, λ j. ground arith)

confirm_transaction-Returns_example :
    Returns (IsPlaced checkout_3 shop_3) (confirm_transaction checkout_3 shop_3)
confirm_transaction-Returns_example =
    confirm_transaction-Returns checkout_3 shop_3 cart_60 (cart_item 61 1 2 500)
      (cart_item 62 2 1 500 ∷ []) refl (item_1-IsCurrent, (item_2-IsCurrent, tt)) refl
      tables-IsAccounted.sound items-IsCovered

fresh_key : find_order shop_3.db.next_id shop_3.db.orders ≡ none
unfolding find_order
fresh_key = refl

abbrev placed : Order × Shop
placed = elim (confirm_transaction checkout_3 shop_3) [ ok r ↦ r | _ ↦ (waiting_order, shop_3) ]

placed_lem : confirm_transaction checkout_3 shop_3 ≡ ok placed
unfolding confirm_transaction row sorted update_row ◌-ℤ◌
placed_lem = refl

compensate_failed_preference-undoes_example :
    Returns
      (λ restored. SameCounters shop_3.db restored.db)
      (compensate_failed_preference 7000 placed.0.id 60 3 placed.1)
compensate_failed_preference-undoes_example =
    compensate_failed_preference-undoes checkout_3 shop_3 7000 placed tables-IsAccounted fresh_key
      placed_lem 60
