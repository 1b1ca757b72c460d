-- ===== src/Checkout/Placed.antt =====
-- backend/src/modules/orders/checkout.service.ts: the order that the transaction of `confirm` places.
use e_commerce_titulo_interm.Common.{
  throw_if-IfOk, IfOk-after, cons-ne-nil, append-nil, throw_if, ℕ, suc, ◌+◌, ◌*◌, ◌≡◌, refl, sym,
  ap, ◌∙◌, subst, inl, inr, true, false, some, List, [], ◌∷◌, not, ◌==◌, ==_iff, ltb, if-cases,
  Option-cases, map, sum, sum-append, All, find_key, IfOk, IfOk-bind, IfOk-intro, arith,
}
use mathlib.Core.Path.{ap₂}
use Prim.Native.String.{String}
use e_commerce_titulo_interm.Errors.{CheckoutProblem, empty_cart, checkout_stale, total_changed}
use e_commerce_titulo_interm.Orders.Status.{pendiente_pago}
use e_commerce_titulo_interm.Stock.Rows.{Product, ProductVariant, row}
use e_commerce_titulo_interm.Stock.Reservation.{reserve}
use e_commerce_titulo_interm.Entities.{Order, OrderItem}
use e_commerce_titulo_interm.Carts.Rows.{
  Cart, CartItem, Catalog, product_key, is_purchasable, load_product,
}
use e_commerce_titulo_interm.Carts.Revalidation.{lock_active_cart_for_checkout}
use e_commerce_titulo_interm.Carts.Current.{load_product-IfOk}
use e_commerce_titulo_interm.Checkout.Rows.{Shop, catalog_of, is_nil}
use e_commerce_titulo_interm.Checkout.Confirm.{
  LoadedItem, load_items, item_problems, checkout_problems, throw_problems, line_price, subtotal_of,
  order_items, Checkout, new_order, cart_line, require_reserved, place_order, confirm_items,
  confirm_transaction,
}
use e_commerce_titulo_interm.Checkout.Payment.{
  PreferenceItem, PreferenceInput, preference_item, shipping_items, preference_input,
}

-- An item whose product and variant are for sale now, at the price in the order.
abbrev pub IsSold : Catalog → OrderItem → Type 0
IsSold catalog i =
    (p : Product) × (v : ProductVariant) × (find_key product_key i.product_id catalog.products
      ≡ some p)
    × (row i.variant_id catalog.variants ≡ some v)
    × (is_purchasable p v ≡ true)
    × (i.unit_price_snapshot ≡ p.price)
    × (i.subtotal ≡ i.unit_price_snapshot * i.quantity)

-- What the gateway is asked to charge.
abbrev pub charged : PreferenceInput → ℕ
charged input = sum (λ i. i.unit_price * i.quantity) input.items

-- A loaded item, with nothing wrong.
abbrev IsClear : Catalog → LoadedItem → Type 0
IsClear catalog l =
    (v : ProductVariant) × (find_key product_key l.item.product_id catalog.products
      ≡ some l.product)
    × (row l.item.variant_id catalog.variants ≡ some v)
    × (is_purchasable l.product v ≡ true)

abbrev IsLoaded : Catalog → LoadedItem → Type 0
IsLoaded catalog l =
    (find_key product_key l.item.product_id catalog.products ≡ some l.product)
    × (l.variant ≡ row l.item.variant_id catalog.variants)

load_items-IsLoaded :
    (catalog : Catalog) (items : List CartItem)
    → IfOk
        (λ loaded. All (IsLoaded catalog) loaded × (map (λ l. l.item) loaded ≡ items))
        (load_items catalog items)
unfolding load_items
load_items-IsLoaded catalog [] = (tt, refl)
load_items-IsLoaded catalog (i ∷ is) =
    IfOk-bind (λ p. find_key product_key i.product_id catalog.products ≡ some p)
      (λ loaded. All (IsLoaded catalog) loaded × (map (λ l. l.item) loaded ≡ i ∷ is))
      (load_product catalog i) _ (load_product-IfOk catalog i)
      (λ p found.
        IfOk-bind (λ loaded. All (IsLoaded catalog) loaded × (map (λ l. l.item) loaded ≡ is))
          (λ loaded. All (IsLoaded catalog) loaded × (map (λ l. l.item) loaded ≡ i ∷ is))
          (load_items catalog is) _ (load_items-IsLoaded catalog is)
          (λ rest h. (((found, refl), h.0), ap (λ js. i ∷ js) h.1)))

-- With nothing to report, every item is for sale.
item_problems-IsClear :
    (catalog : Catalog) (l : LoadedItem)
    → IsLoaded catalog l
    → item_problems l ≡ []
    → IsClear catalog l
item_problems-IsClear catalog l loaded h = elim (Option-cases l.variant) [
  | inl e ↦ absurd (cons-ne-nil _ _ (rw e at h))
  | inr (v, e) ↦ (v, loaded.0, sym loaded.1 ∙ e, ground (arith, h, e))
]

item_problems-price :
    (l : LoadedItem) → item_problems l ≡ [] → l.product.price ≡ l.item.unit_price_snapshot
item_problems-price l h = ground (arith, h)

checkout_problems-IsClear :
    (catalog : Catalog) (loaded : List LoadedItem)
    → All (IsLoaded catalog) loaded
    → checkout_problems loaded ≡ []
    → All (IsClear catalog) loaded
checkout_problems-IsClear catalog [] h e = tt
checkout_problems-IsClear catalog (l ∷ ls) h e =
    let (one, rest) = append-nil (item_problems l) (checkout_problems ls) e in
    (item_problems-IsClear catalog l h.0 one, checkout_problems-IsClear catalog ls h.1 rest)

order_items-IsSold :
    (catalog : Catalog) (id : ℕ) (loaded : List LoadedItem)
    → All (IsClear catalog) loaded
    → All (IsSold catalog) (order_items id loaded)
unfolding order_items
order_items-IsSold catalog id [] h = tt
order_items-IsSold catalog id (l ∷ ls) h = (
  (l.product, h.0.0, h.0.1, h.0.2, h.0.3, refl, refl),
  order_items-IsSold catalog (suc id) ls h.1,
)

sum-order_items :
    (id : ℕ) (loaded : List LoadedItem)
    → sum (λ i. i.subtotal) (order_items id loaded) ≡ subtotal_of loaded
unfolding order_items
sum-order_items id [] = refl
sum-order_items id (l ∷ ls) = ap (λ n. line_price l + n) (sum-order_items (suc id) ls)

-- What the lines of a preference come to.
charged-items :
    (catalog : Catalog) (items : List OrderItem)
    → All (IsSold catalog) items
    → sum (λ i. i.unit_price * i.quantity) (map preference_item items) ≡ sum (λ i. i.subtotal) items
charged-items catalog [] h = refl
charged-items catalog (i ∷ is) (((p, v, found, row_v, sold, price, sub), rest)) =
    ap₂ (λ m n. m + n) (sym sub) (charged-items catalog is rest)

-- What `confirm` promises of the order it places.
abbrev pub IsPlaced : Checkout → Shop → Order × Shop → Type 0
IsPlaced c shop r =
    (r.0.total ≡ c.expected_total)
    × (r.0.total ≡ r.0.subtotal + r.0.shipping_cost)
    × (r.0.subtotal ≡ sum (λ i. i.subtotal) r.0.items)
    × (r.0.shipping_cost ≡ c.method.cost)
    × All (IsSold (catalog_of shop)) r.0.items
    × (r.0.status ≡ pendiente_pago)
    × (r.0.stock_reservation_active ≡ true)

place_order-IsPlaced :
    (c : Checkout) (cart : Cart) (loaded : List LoadedItem) (shop : Shop)
    → All (IsClear (catalog_of shop)) loaded
    → c.expected_total ≡ subtotal_of loaded + c.method.cost
    → IfOk (IsPlaced c shop) (place_order c cart loaded shop)
unfolding place_order new_order
place_order-IsPlaced c cart loaded shop clear total =
    IfOk-after _ (require_reserved loaded (reserve (map cart_line loaded) shop.db.stock)) _
      (λ stock. (
        sym total,
        refl,
        sym (sum-order_items (suc shop.db.next_id) loaded),
        refl,
        order_items-IsSold (catalog_of shop) (suc shop.db.next_id) loaded clear,
        refl,
        refl,
      ))

throw_problems-IfOk : (ps : List CheckoutProblem) → IfOk (λ done. ps ≡ []) (throw_problems ps)
throw_problems-IfOk [] = refl
throw_problems-IfOk (p ∷ ps) = tt

confirm_items-IsPlaced :
    (c : Checkout) (cart : Cart) (items : List CartItem) (shop : Shop)
    → IfOk (IsPlaced c shop) (confirm_items c cart items shop)
unfolding confirm_items
confirm_items-IsPlaced c cart items shop =
    IfOk-after (IsPlaced c shop) (throw_if (is_nil items) empty_cart) _ (λ done.
      IfOk-bind
        (λ loaded. All (IsLoaded (catalog_of shop)) loaded × (map (λ l. l.item) loaded ≡ items))
        (IsPlaced c shop) (load_items (catalog_of shop) items) _
        (load_items-IsLoaded (catalog_of shop) items)
        (λ loaded h.
          IfOk-bind (λ done. checkout_problems loaded ≡ []) (IsPlaced c shop)
            (throw_problems (checkout_problems loaded)) _
            (throw_problems-IfOk (checkout_problems loaded))
            (λ done clear.
              let total = subtotal_of loaded + c.method.cost in
              IfOk-bind (λ done. not (c.expected_total == total) ≡ false) (IsPlaced c shop)
                (throw_if (not (c.expected_total == total))
                  (checkout_stale (total_changed c.expected_total total ∷ [])))
                _
                (throw_if-IfOk (not (c.expected_total == total))
                  (checkout_stale (total_changed c.expected_total total ∷ [])))
                (λ done same.
                  place_order-IsPlaced c cart loaded shop
                    (checkout_problems-IsClear (catalog_of shop) loaded h.0 clear)
                    (ground (arith, same, ==_iff c.expected_total total))))))

-- If the transaction of confirm returns, the total of its order is the one that the customer saw
-- and the sum of subtotal and shipping, the shipping is the cost of the method, the subtotal is
-- the sum over the items, each item is of a product and a variant that are for sale now at the
-- price that the order has, and the order waits for its payment and holds its reservation.
pub confirm_transaction-IsPlaced :
    (c : Checkout) (shop : Shop) → IfOk (IsPlaced c shop) (confirm_transaction c shop)
unfolding confirm_transaction
confirm_transaction-IsPlaced c shop =
    elim (Option-cases (lock_active_cart_for_checkout c.user_id shop.carts)) [
      | inl e ↦ rw (e, confirm_transaction) tt
      | inr (locked, e) ↦
          rw (e, confirm_transaction) (confirm_items-IsPlaced c locked.0 locked.1 shop)
    ]

charged-shipping :
    (order : Order)
    → sum (λ i. i.unit_price * i.quantity) (shipping_items order) ≡ order.shipping_cost
charged-shipping order =
    if-cases (λ items. sum (λ i. i.unit_price * i.quantity) items ≡ order.shipping_cost)
      (ltb 0 order.shipping_cost) (λ costs. omega arith) (λ free. ground (arith, free))

-- If the transaction of confirm returns, the lines of the preference that is asked of the
-- gateway, the shipping included, come to exactly the total that the customer saw.
pub preference_input-charged :
    (c : Checkout) (shop : Shop) (email : String)
    → IfOk
        (λ r. charged (preference_input r.0 email) ≡ c.expected_total)
        (confirm_transaction c shop)
unfolding preference_input
preference_input-charged c shop email =
    IfOk-intro (λ r. charged (preference_input r.0 email) ≡ c.expected_total)
      (confirm_transaction c shop)
      (λ r e.
        let placed : IsPlaced c shop r =
          subst (IfOk (IsPlaced c shop)) e (confirm_transaction-IsPlaced c shop) in
        let items = charged-items (catalog_of shop) r.0.items placed.4 in
        let total =
          sum-append (λ (i : PreferenceItem). i.unit_price * i.quantity)
            (map preference_item r.0.items) (shipping_items r.0) in
        let shipping = charged-shipping r.0 in
        total ∙ omega (arith, items, shipping, placed.0, placed.1, placed.2))
