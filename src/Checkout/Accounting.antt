-- ===== src/Checkout/Accounting.antt =====
-- backend/src/modules/orders/checkout.service.ts: the checkout and the stock books.
use e_commerce_titulo_interm.Common.{
  IfOk-after, throw_if, ℕ, suc, ◌+◌, ◌≡◌, refl, sym, ap, subst, inl, inr, Option, none, some, List,
  [], ◌∷◌, not, ◌==◌, ◌&&◌, if-cases, Option-cases, Result-cases, map, sum-append, IfOk, IfOk-bind,
  IfOk-intro, Result, ok, err, int_laws, parts,
}
use e_commerce_titulo_interm.Errors.{ServiceError, empty_cart, checkout_stale, total_changed}
use e_commerce_titulo_interm.Orders.Status.{pendiente_pago, cancelado, pasarela, same_status}
use e_commerce_titulo_interm.Stock.Rows.{Stock}
use e_commerce_titulo_interm.Stock.Reservation.{ReserveResult, reserved_all, short_of, reserve}
use e_commerce_titulo_interm.Stock.Counters.{qty_of}
use e_commerce_titulo_interm.Stock.Soundness.{reserve-IsSound}
use e_commerce_titulo_interm.Stock.Reserving.{reserve_all}
use e_commerce_titulo_interm.Entities.{
  Order, Db, find_order, update_order, stock_lines, preference_failed,
}
use e_commerce_titulo_interm.Orders.RowLaws.{find_order_id}
use e_commerce_titulo_interm.Orders.Lifecycle.{
  because, change_status, release_reservation, record_history,
}
use e_commerce_titulo_interm.Orders.Booking.Defs.{
  held, IsAccounted, IsBooked, update_order-IsBooked,
}
use e_commerce_titulo_interm.Orders.Booking.Changes.{
  change_status-IsBooked, release_reservation-IsBooked,
}
use e_commerce_titulo_interm.Carts.Rows.{Cart}
use e_commerce_titulo_interm.Carts.Revalidation.{lock_active_cart_for_checkout}
use e_commerce_titulo_interm.Checkout.Rows.{User, Shop, catalog_of, is_nil}
use e_commerce_titulo_interm.Checkout.Confirm.{
  LoadedItem, load_items, checkout_problems, throw_problems, subtotal_of, order_items, Checkout,
  new_order, insert_order, cart_line, require_reserved, place_order, confirm_items,
  confirm_transaction,
}
use e_commerce_titulo_interm.Checkout.Payment.{
  PreferenceInput, CreatedPreference, Redirect, set_preference, attach_preference, cancel_unpaid,
  compensate_failed_preference, after_compensation, ConfirmCheckoutDto, prepare, start_payment,
  confirm, preference_input, same_key, key_or_zero,
}

-- The order has the lines of the cart.
pub stock_lines-order_items :
    (id : ℕ) (loaded : List LoadedItem) → stock_lines (order_items id loaded) ≡ map cart_line loaded
unfolding order_items
stock_lines-order_items id [] = refl
stock_lines-order_items id (l ∷ ls) =
    ap (λ rest. cart_line l ∷ rest) (stock_lines-order_items (suc id) ls)

-- What the reservation answered, when nothing was short.
pub require_reserved-all :
    (loaded : List LoadedItem) (r : ReserveResult × Stock)
    → IfOk (λ stock. (r.0 ≡ reserved_all) × (stock ≡ r.1)) (require_reserved loaded r)
require_reserved-all loaded (reserved_all, stock) = (refl, refl)
require_reserved-all loaded (short_of id, stock) = tt

pub place_order-IsAccounted :
    (c : Checkout) (cart : Cart) (loaded : List LoadedItem) (shop : Shop)
    → IsAccounted shop.db
    → IfOk (λ r. IsAccounted r.1.db) (place_order c cart loaded shop)
unfolding place_order insert_order new_order record_history
place_order-IsAccounted c cart loaded shop books =
    let lines = map cart_line loaded in
    let order = new_order c cart loaded shop.db.next_id in
    IfOk-bind
      (λ stock.
        ((reserve lines shop.db.stock).0 ≡ reserved_all)
        × (stock ≡ (reserve lines shop.db.stock).1))
      _ (require_reserved loaded (reserve lines shop.db.stock)) _
      (require_reserved-all loaded (reserve lines shop.db.stock))
      (λ stock done. rw (done.1) (record {
        sound = reserve-IsSound lines shop.db.stock books.sound;
        reserved = λ j.
            let held_new : held j order ≡ qty_of j lines =
              ap (qty_of j) (stock_lines-order_items (suc shop.db.next_id) loaded) in
            let counted = reserve_all lines shop.db.stock j done.0 in
            let summed = sum-append (held j) shop.db.orders (order ∷ []) in
            omega (int_laws, parts counted.0, parts (books.reserved j), summed, held_new);
      }))

-- What the order that is placed has, the transaction has.
pub confirm_transaction-IfOk :
    (Q : Order × Shop → Type 0) (c : Checkout) (shop : Shop)
    → ((cart : Cart) (loaded : List LoadedItem) → IfOk Q (place_order c cart loaded shop))
    → IfOk Q (confirm_transaction c shop)
unfolding confirm_transaction confirm_items
confirm_transaction-IfOk Q c shop placed =
    elim (Option-cases (lock_active_cart_for_checkout c.user_id shop.carts)) [
      | inl e ↦ rw (e, confirm_transaction) tt
      | inr (locked, e) ↦
          rw (e, confirm_transaction)
            (IfOk-after Q (throw_if (is_nil locked.1) empty_cart) _ (λ done.
              IfOk-after Q (load_items (catalog_of shop) locked.1) _ (λ loaded.
                IfOk-after Q (throw_problems (checkout_problems loaded)) _ (λ done.
                  IfOk-after Q
                    (throw_if (not (c.expected_total == (subtotal_of loaded + c.method.cost))) (
                      checkout_stale
                        (total_changed c.expected_total (subtotal_of loaded + c.method.cost) ∷ [])))
                    _ (λ done. placed locked.0 loaded)))))
    ]

-- An order that was found by its key is locked.
pub found-IsBooked :
    (id : ℕ) (order : Order) (db : Db)
    → IsAccounted db
    → find_order id db.orders ≡ some order
    → IsBooked (order, db)
found-IsBooked id order db books e = record {
  accounted = books;
  locked = subst (λ k. find_order k db.orders ≡ some order) (sym (find_order_id id db.orders e)) e;
}

pub attach_preference-IsAccounted :
    (order_id : ℕ) (expected : Option ℕ) (preference : CreatedPreference) (shop : Shop)
    → IsAccounted shop.db
    → IsAccounted (attach_preference order_id expected preference shop).1.db
unfolding attach_preference
attach_preference-IsAccounted order_id expected preference shop books =
    elim (Option-cases (find_order order_id shop.db.orders)) [
      | inl e ↦ rw (e, attach_preference) books
      | inr (order, e) ↦
          let id = find_order_id order_id shop.db.orders e in
          let written =
            update_order-IsBooked order shop.db shop.db.stock
              (set_preference preference.preference_id)
              (found-IsBooked order_id order shop.db books e) (λ o. refl) books.sound (λ j. refl) in
          rw (e, attach_preference)
            (if-cases (λ (r : Result ServiceError Redirect × Shop). IsAccounted r.1.db)
              (same_status order.status pendiente_pago
                && same_key order.payment_preference_id expected)
              (λ t.
                subst
                  (λ k.
                    IsAccounted (update_order k (set_preference preference.preference_id) shop.db))
                  id written.accounted)
              (λ f. books))
    ]

pub cancel_unpaid-IsBooked :
    (now : ℕ) (order : Order) (db : Db)
    → IsBooked (order, db)
    → IfOk IsBooked (cancel_unpaid now order db)
unfolding cancel_unpaid
cancel_unpaid-IsBooked now order db booked =
    let (released, written) = release_reservation order db in
    let opts = record (because preference_failed) { cancellation_cause = some pasarela } in
    IfOk-intro IsBooked (change_status now released cancelado opts written) (λ r e.
      change_status-IsBooked now released cancelado opts written e
        (release_reservation-IsBooked order db booked))

compensate-IsAccounted :
    (now order_id cart_id user_id : ℕ) (shop : Shop)
    → IsAccounted shop.db
    → IfOk
        (λ restored. IsAccounted restored.db)
        (compensate_failed_preference now order_id cart_id user_id shop)
unfolding compensate_failed_preference
compensate-IsAccounted now order_id cart_id user_id shop books =
    elim (Option-cases (find_order order_id shop.db.orders)) [
      | inl e ↦ rw (e, compensate_failed_preference) books
      | inr (order, e) ↦
          rw (e, compensate_failed_preference)
            (if-cases
              (λ (r : Result ServiceError Shop). IfOk (λ restored. IsAccounted restored.db) r)
              (not (same_status order.status pendiente_pago)) (λ t. books)
              (λ f.
                IfOk-bind IsBooked (λ restored. IsAccounted restored.db)
                  (cancel_unpaid now order shop.db) _
                  (cancel_unpaid-IsBooked now order shop.db
                    (found-IsBooked order_id order shop.db books e))
                  (λ done booked. booked.accounted)))
    ]

after_compensation-IsAccounted :
    (shop : Shop) (r : Result ServiceError Shop)
    → IsAccounted shop.db
    → IfOk (λ restored. IsAccounted restored.db) r
    → IsAccounted (after_compensation shop r).1.db
after_compensation-IsAccounted shop (ok restored) books kept = kept
after_compensation-IsAccounted shop (err e) books kept = books

module _ (gateway : PreferenceInput → Option CreatedPreference) where
  start_payment-IsAccounted :
      (now : ℕ) (user : User) (order : Order) (shop : Shop)
      → IsAccounted shop.db
      → IsAccounted (start_payment gateway now user order shop).1.db
  unfolding start_payment
  start_payment-IsAccounted now user order shop books =
      elim (Option-cases (gateway (preference_input order user.email))) [
        | inl e ↦
            rw (e, start_payment)
              (after_compensation-IsAccounted shop
                (compensate_failed_preference now order.id (key_or_zero order.cart_id) user.id shop)
                books
                (compensate-IsAccounted now order.id (key_or_zero order.cart_id) user.id shop
                  books))
        | inr (preference, e) ↦
            rw (e, start_payment)
              (attach_preference-IsAccounted order.id none preference shop books)
      ]

  -- If no variant is oversold and the reserved counters are the sum of what the orders hold, the
  -- same holds after confirm, whatever it answers and whatever the gateway answers: an order that
  -- is placed, a checkout that throws, and one whose preference fails and is undone.
  pub confirm-IsAccounted :
      (now ttl number user_id : ℕ) (dto : ConfirmCheckoutDto) (shop : Shop)
      → IsAccounted shop.db
      → IsAccounted (confirm gateway now ttl number user_id dto shop).1.db
  unfolding confirm
  confirm-IsAccounted now ttl number user_id dto shop books =
      elim (Result-cases (prepare now ttl number user_id dto shop)) [
        | inr (fault, e) ↦ rw (e, confirm) books
        | inl (ready, e) ↦ elim (Result-cases (confirm_transaction ready.1 shop)) [
          | inr (fault, f) ↦ rw (e, f, confirm) books
          | inl (placed, f) ↦
              let kept : IsAccounted placed.1.db =
                subst (IfOk (λ (r : Order × Shop). IsAccounted r.1.db)) f (
                  confirm_transaction-IfOk (λ r. IsAccounted r.1.db) ready.1 shop
                    (λ cart loaded. place_order-IsAccounted ready.1 cart loaded shop books)) in
              rw (e, f, confirm) (start_payment-IsAccounted now ready.0 placed.0 placed.1 kept)
        ]
      ]
