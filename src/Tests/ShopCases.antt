-- ===== src/Tests/ShopCases.antt =====
-- The theorems on addresses, carts and the checkout, at one customer.
use e_commerce_titulo_interm.Common.{
  ℕ, true, some, List, [], ◌∷◌, ◌≡◌, ◌≢◌, refl, arith, All, IfOk, Returns, ok, sum, ◌≤◌, HasKeys,
  sym, find, sym, find,
}
use e_commerce_titulo_interm.Users.Rows.{Address}
use e_commerce_titulo_interm.Stock.Rows.{Product, ProductVariant}
use e_commerce_titulo_interm.Users.Addresses.{create, update, remove, find_owned_or_fail}
use e_commerce_titulo_interm.Users.DefaultAddress.{IsBook, live, live_default}
use e_commerce_titulo_interm.Users.NewAddress.{update-unmarks}
use e_commerce_titulo_interm.Users.Books.{
  AddressCalls, done, then_call, created, removed, AddressCalls-IsBook,
}
use e_commerce_titulo_interm.Carts.Rows.{CartItem, item_key}
use e_commerce_titulo_interm.Carts.Service.{get_or_create_cart, add_item, is_item_of}
use e_commerce_titulo_interm.Carts.Views.{items_of}
use e_commerce_titulo_interm.Carts.Revalidation.{revalidate_for_checkout}
use e_commerce_titulo_interm.Carts.Current.{IsCurrent, revalidate_for_checkout-IsCurrent}
use e_commerce_titulo_interm.Carts.Adding.{
  units, add_units, add_item-units, add_item-InStock, IsResolved,
}
use e_commerce_titulo_interm.Tests.ShopData.{
  book, address_of, new_address_dto, unmarking_dto, ready_carts, stale_carts, cart_item, catalog,
}

book-IsBook : IsBook 3 book
book-IsBook = (((λ e. ground arith, tt), (tt, tt)), omega arith, λ some_live. omega arith)

abbrev larger_book : List Address
larger_book = create 52 3 new_address_dto book

abbrev left_book : List Address
left_book = elim (remove 3 52 (some 51) larger_book) [ ok left ↦ left | _ ↦ [] ]

book_calls : AddressCalls book left_book
unfolding create remove find_owned_or_fail
book_calls =
    then_call book larger_book left_book
      (created 3 52 new_address_dto book (λ e. ground arith, (λ e. ground arith, tt)))
      (then_call larger_book left_book left_book (removed 3 52 (some 51) larger_book left_book refl)
        (done left_book))

AddressCalls-IsBook_example : IsBook 3 left_book
AddressCalls-IsBook_example = AddressCalls-IsBook 3 book left_book book_calls book-IsBook

update-unmarks_example :
    Returns
      (λ left. (1 ≤ sum (live 3) left) × (sum (live_default 3) left ≡ 0))
      (update 3 50 unmarking_dto book)
unfolding find_owned_or_fail
update-unmarks_example =
    update-unmarks 3 50 unmarking_dto book (address_of 50 true) book-IsBook refl refl refl

items-HasKeys :
    (first second : CartItem) → first.id ≢ second.id → HasKeys item_key (first ∷ second ∷ [])
items-HasKeys first second ne = ((λ e. ne (sym e), tt), (tt, tt))

revalidate_for_checkout-IsCurrent_example :
    IfOk
      (λ r. All (IsCurrent catalog) (items_of (get_or_create_cart 3 stale_carts).0.id r.1))
      (revalidate_for_checkout catalog 3 stale_carts)
revalidate_for_checkout-IsCurrent_example =
    revalidate_for_checkout-IsCurrent catalog 3 stale_carts
      (items-HasKeys (cart_item 61 1 20 400) (cart_item 62 2 1 500) (λ e. ground arith))

add_item-units_example :
    IfOk
      (λ t.
        (c v : ℕ)
        → units c v t
          ≡ add_units
              (get_or_create_cart 3 ready_carts).0.id
              2
              3
              (λ c v. units c v ready_carts)
              c
              v)
      (add_item catalog 3 2 3 ready_carts)
add_item-units_example =
    add_item-units catalog 3 2 3 ready_carts
      (items-HasKeys (cart_item 61 1 2 500) (cart_item 62 2 1 500) (λ e. ground arith))

add_item-InStock_example :
    IfOk
      (λ t.
        (i : CartItem) × (p : Product) × (v : ProductVariant) × (find
            (is_item_of (get_or_create_cart 3 ready_carts).0.id 2)
            t.items
          ≡ some i)
        × (i.unit_price_snapshot ≡ p.price)
        × IsResolved catalog 2 i.quantity p v)
      (add_item catalog 3 2 3 ready_carts)
add_item-InStock_example =
    add_item-InStock catalog 3 2 3 ready_carts
      (items-HasKeys (cart_item 61 1 2 500) (cart_item 62 2 1 500) (λ e. ground arith))
