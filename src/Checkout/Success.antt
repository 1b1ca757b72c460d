-- ===== src/Checkout/Success.antt =====
-- backend/src/modules/orders/checkout.service.ts: when the transaction of `confirm` places an order.
use e_commerce_titulo_interm.Common.{
  find_key, ℕ, ◌+◌, ◌*◌, ◌≡◌, refl, sym, ap, ◌∙◌, subst, false, some, List, [], ◌∷◌, not, ◌==◌,
  ==_iff, map, sum, All, Returns, Returns-bind, Returns-IfOk, pos, ◌-ℤ◌, ◌≤ℤ◌, arith,
}
use mathlib.Core.Path.{ap₂}
use e_commerce_titulo_interm.Stock.Rows.{Product, Stock}
use e_commerce_titulo_interm.Stock.Reservation.{StockLine, reserved_all, reserve}
use e_commerce_titulo_interm.Stock.Counters.{reserved_of, total_of, qty_of}
use e_commerce_titulo_interm.Stock.Soundness.{IsSoundStock}
use e_commerce_titulo_interm.Stock.Availability.{IsPositive, reserve_iff}
use e_commerce_titulo_interm.Carts.Rows.{
  Cart, CartItem, Catalog, load_product, load_variant, product_key,
}
use e_commerce_titulo_interm.Carts.Current.{IsCurrent}
use e_commerce_titulo_interm.Carts.Revalidation.{lock_active_cart_for_checkout}
use e_commerce_titulo_interm.Checkout.Rows.{Shop, catalog_of}
use e_commerce_titulo_interm.Checkout.Confirm.{
  LoadedItem, load_items, item_problems, checkout_problems, line_price, subtotal_of, Checkout,
  insert_order, cart_line, place_order, confirm_items, confirm_transaction,
}
use e_commerce_titulo_interm.Checkout.Placed.{IsPlaced, confirm_transaction-IsPlaced}

-- The line of the stock that an item of a cart asks for.
abbrev pub item_line : CartItem → StockLine
item_line i = record { variant_id = i.variant_id; quantity = i.quantity }

-- What the cart says its items cost.
abbrev pub cart_subtotal : List CartItem → ℕ
cart_subtotal items = sum (λ i. i.unit_price_snapshot * i.quantity) items

-- The loaded items of a cart that is current.
abbrev IsReady : List CartItem → List LoadedItem → Type 0
IsReady items loaded =
    (checkout_problems loaded ≡ [])
    × (subtotal_of loaded ≡ cart_subtotal items)
    × (map cart_line loaded ≡ map item_line items)

load_product-Returns :
    (catalog : Catalog) (i : CartItem) (p : Product)
    → find_key product_key i.product_id catalog.products ≡ some p
    → Returns (λ q. q ≡ p) (load_product catalog i)
unfolding load_product
load_product-Returns catalog i p product = rw (product, load_product) refl

load_items-Returns :
    (catalog : Catalog) (items : List CartItem)
    → All (IsCurrent catalog) items
    → Returns (IsReady items) (load_items catalog items)
unfolding load_items
load_items-Returns catalog [] h = (refl, refl, refl)
load_items-Returns catalog (i ∷ is) ((p, v, product, variant, sold, fits, price), rest) =
    Returns-bind (λ q. q ≡ p) (IsReady (i ∷ is)) (load_product catalog i) _
      (load_product-Returns catalog i p product)
      (λ q read same.
        Returns-bind (IsReady is) (IsReady (i ∷ is)) (load_items catalog is) _
          (load_items-Returns catalog is rest)
          (λ loaded e h.
            let l : LoadedItem = record {
              item = i;
              product = q;
              variant = load_variant catalog i;
            } in
            let clear : item_problems l ≡ [] = rw (same, variant) (ground (arith, sold, price)) in
            let cost : line_price l ≡ i.unit_price_snapshot * i.quantity =
              ap (λ n. n * i.quantity) (ap (λ (r : Product). r.price) same ∙ sym price) in
            (rw clear h.0, ap₂ (λ m n. m + n) cost h.1, ap (λ ls. item_line i ∷ ls) h.2)))

place_order-Returns :
    (c : Checkout) (cart : Cart) (loaded : List LoadedItem) (shop : Shop)
    → (reserve (map cart_line loaded) shop.db.stock).0 ≡ reserved_all
    → Returns (λ r. Unit {0}) (place_order c cart loaded shop)
unfolding place_order insert_order
place_order-Returns c cart loaded shop taken = rw (taken, place_order) tt

-- The lines ask for something, and what is available covers them.
abbrev pub IsCovered : List StockLine → Stock → Type 0
IsCovered lines s =
    All IsPositive lines
    × ((j : ℕ) → pos (qty_of j lines) ≤ℤ total_of j s.variants -ℤ reserved_of j s.variants)

-- If the active cart of the customer has items, each for sale, within what is available and at
-- its present price, the total that the customer saw is the sum of the cart and the shipping, no
-- variant is oversold, the quantities are positive and what is available of each variant covers
-- all the lines that ask for it, then the transaction of confirm does not throw: it places an
-- order of that total, with the items at their prices, waiting for its payment and holding its
-- reservation.
pub confirm_transaction-Returns :
    (c : Checkout) (shop : Shop) (cart : Cart) (i : CartItem) (is : List CartItem)
    → lock_active_cart_for_checkout c.user_id shop.carts ≡ some (cart, i ∷ is)
    → All (IsCurrent (catalog_of shop)) (i ∷ is)
    → c.expected_total ≡ cart_subtotal (i ∷ is) + c.method.cost
    → IsSoundStock shop.db.stock
    → IsCovered (map item_line (i ∷ is)) shop.db.stock
    → Returns (IsPlaced c shop) (confirm_transaction c shop)
unfolding confirm_transaction confirm_items
confirm_transaction-Returns c shop cart i is locked current total sound covered =
    Returns-IfOk (λ r. Unit {0}) (IsPlaced c shop) (confirm_transaction c shop)
      (rw (locked, confirm_transaction)
        (Returns-bind (IsReady (i ∷ is)) (λ r. Unit {0}) (load_items (catalog_of shop) (i ∷ is)) _
          (load_items-Returns (catalog_of shop) (i ∷ is) current)
          (λ loaded e ready.
            let quoted : not (c.expected_total == (subtotal_of loaded + c.method.cost)) ≡ false =
              ground (
                arith,
                total,
                ready.1,
                ==_iff c.expected_total (subtotal_of loaded + c.method.cost),
              ) in
            let fits : (reserve (map cart_line loaded) shop.db.stock).0 ≡ reserved_all =
              subst (λ lines. (reserve lines shop.db.stock).0 ≡ reserved_all) (sym ready.2)
                ((reserve_iff (map item_line (i ∷ is)) shop.db.stock sound covered.0).1
                  covered.1) in
            rw (ready.0) (rw quoted (place_order-Returns c cart loaded shop fits)))))
      (confirm_transaction-IsPlaced c shop)
