-- ===== src/Carts/Adding.antt =====
-- backend/src/modules/cart/cart.service.ts: `addItem`, as the customer sees it: a number of units
-- of each variant.
use e_commerce_titulo_interm.Common.{
  ℕ, ◌+◌, ◌≡◌, refl, sym, ap, subst, ◌∙◌, inl, inr, true, Option, some, [], ◌∷◌, ◌&&◌, ◌==◌, ==_iff,
  if◌then◌else◌, if-cases, Bool-cases, Option-cases, sum, sum-append, find-append, find-update_row,
  sum-update_key, find_key-find, All-find, All-trivial, find, IfOk, IfOk-bind, IfOk-intro, HasKeys,
  pos, ltb_ℤ, ◌≤ℤ◌, arith,
}
use e_commerce_titulo_interm.Stock.Rows.{Product, ProductVariant}
use e_commerce_titulo_interm.Carts.Rows.{
  CartItem, Carts, Catalog, item_key, is_purchasable, stock_available, find_variant,
}
use e_commerce_titulo_interm.Carts.Current.{get_or_create_cart-items}
use e_commerce_titulo_interm.Carts.Service.{
  get_or_create_cart, grown, new_item, put_item, is_item_of, quantity_of, ResolveOutcome,
  resolve_item, resolve_variant_for_purchase, resolved_or_fail, assert_mutable, add_item,
}

-- The units of a variant that the items of a cart hold.
abbrev pub units_in : ℕ → ℕ → CartItem → ℕ
units_in cart_id variant_id i = if is_item_of cart_id variant_id i then i.quantity else 0

abbrev pub units : ℕ → ℕ → Carts → ℕ
units cart_id variant_id s = sum (units_in cart_id variant_id) s.items

-- The abstract operation: some units more of one variant in one cart.
abbrev pub add_units : ℕ → ℕ → ℕ → (ℕ → ℕ → ℕ) → ℕ → ℕ → ℕ
add_units cart_id variant_id quantity before c v =
    if c == cart_id && v == variant_id then before c v + quantity else before c v

-- What `put_item` does, in units.
pub put_item-units :
    (cart_id variant_id quantity : ℕ) (p : Product) (s : Carts)
    → HasKeys item_key s.items
    → (c v : ℕ)
    → units c v
        (put_item (find (is_item_of cart_id variant_id) s.items) cart_id variant_id quantity p s)
      ≡ add_units cart_id variant_id quantity (λ c v. units c v s) c v
unfolding put_item
put_item-units cart_id variant_id quantity p s keys c v =
    let test = is_item_of cart_id variant_id in
    elim (Option-cases (find test s.items)) [
      | inl e ↦
          let put = new_item s.next_id cart_id variant_id quantity p in
          let total = sum-append (units_in c v) s.items (put ∷ []) in
          rw (e, put_item) (ground (arith, total))
      | inr (i, e) ↦
          let found = find_key-find item_key test s.items keys e in
          let passed = (All-find (λ x. Unit {0}) test s.items (All-trivial s.items) e).1 in
          let total =
            sum-update_key item_key (units_in c v) i.id (λ old. grown quantity p i) s.items found in
          rw (e, put_item) (ground (arith, total, passed))
    ]

-- A variant that resolves is for sale, and what is asked for is within what is available.
abbrev pub IsResolved : Catalog → ℕ → ℕ → Product → ProductVariant → Type 0
IsResolved catalog variant_id wanted p v =
    (find_variant catalog variant_id ≡ some (p, v))
    × (is_purchasable p v ≡ true)
    × (pos wanted ≤ℤ stock_available v)

resolve-IsResolved :
    (catalog : Catalog) (variant_id requested already : ℕ)
    → IfOk
        (λ r. IsResolved catalog variant_id (already + requested) r.0 r.1)
        (resolved_or_fail (resolve_item catalog variant_id requested already))
unfolding resolve_item
resolve-IsResolved catalog variant_id requested already =
    elim (Option-cases (find_variant catalog variant_id)) [
      | inl e ↦ rw (e, resolve_variant_for_purchase, resolve_item) tt
      | inr (r, e) ↦
          let Kept = λ (o : ResolveOutcome).
            IfOk
              (λ (q : Product × ProductVariant).
                (◌≡◌ {A = Option (Product × ProductVariant)} (some r) (some (q.0, q.1)))
                × (is_purchasable q.0 q.1 ≡ true)
                × (pos (already + requested) ≤ℤ stock_available q.1))
              (resolved_or_fail o) in
          rw (e, resolve_variant_for_purchase, resolve_item)
            (elim (Bool-cases (is_purchasable r.0 r.1)) [
              | inl sold ↦ rw sold (
                  if-cases Kept (ltb_ℤ (stock_available r.1) (pos (already + requested)))
                    (λ few. tt) (λ enough. (refl, sold, ground (arith, enough))))
              | inr lost ↦ rw lost tt
            ])
    ]

-- If no two items of the table have the same key and addItem returns, it has added the quantity
-- to the units of that variant in the active cart of the customer, and left the units of every
-- other variant and of every other cart.
pub add_item-units :
    (catalog : Catalog) (user_id variant_id quantity : ℕ) (s : Carts)
    → HasKeys item_key s.items
    → IfOk
        (λ t.
          (c v : ℕ)
          → units c v t
            ≡ add_units
                (get_or_create_cart user_id s).0.id
                variant_id
                quantity
                (λ c v. units c v s)
                c
                v)
        (add_item catalog user_id variant_id quantity s)
unfolding add_item
add_item-units catalog user_id variant_id quantity s keys =
    let cart = (get_or_create_cart user_id s).0 in
    let t = (get_or_create_cart user_id s).1 in
    let same : t.items ≡ s.items = get_or_create_cart-items user_id s in
    let existing = find (is_item_of cart.id variant_id) t.items in
    IfOk-bind (λ done. Unit {0}) _ (assert_mutable cart) _
      (IfOk-intro (λ done. Unit {0}) (assert_mutable cart) (λ done e. tt))
      (λ done e.
        IfOk-bind (λ r. Unit {0}) _
          (resolved_or_fail (resolve_item catalog variant_id quantity (quantity_of existing))) _
          (IfOk-intro (λ r. Unit {0})
            (resolved_or_fail (resolve_item catalog variant_id quantity (quantity_of existing)))
            (λ r e. tt))
          (λ r e c v.
            put_item-units cart.id variant_id quantity r.0 t
              (subst (HasKeys item_key) (sym same) keys) c v
            ∙ ap
                (λ items.
                  add_units cart.id variant_id quantity (λ c v. sum (units_in c v) items) c v)
                same))

-- The item that `put_item` leaves.
put_item-found :
    (cart_id variant_id quantity : ℕ) (p : Product) (s : Carts)
    → HasKeys item_key s.items
    → (i : CartItem) × (find
          (is_item_of cart_id variant_id)
          (put_item
            (find (is_item_of cart_id variant_id) s.items)
            cart_id
            variant_id
            quantity
            p
            s).items
        ≡ some i)
      × (i.quantity ≡ quantity_of (find (is_item_of cart_id variant_id) s.items) + quantity)
      × (i.unit_price_snapshot ≡ p.price)
unfolding put_item
put_item-found cart_id variant_id quantity p s keys =
    let test = is_item_of cart_id variant_id in
    elim (Option-cases (find test s.items)) [
      | inl e ↦
          let put = new_item s.next_id cart_id variant_id quantity p in
          rw (e, put_item)
            (
              put,
              find-append test put s.items e
                  (ground (arith, ==_iff cart_id cart_id, ==_iff variant_id variant_id)),
              omega arith,
              refl,
            )
      | inr (i, e) ↦
          let passed = (All-find (λ x. Unit {0}) test s.items (All-trivial s.items) e).1 in
          rw (e, put_item)
            (
              grown quantity p i,
              find-update_row item_key test (grown quantity p i) s.items keys e passed,
              refl,
              refl,
            )
    ]

-- If no two items of the table have the same key and addItem returns, the cart has an item of the
-- variant, at the present price of its product, the variant and the product are for sale, and the
-- quantity of the item, with the units that were in the cart before, is within what is available.
pub add_item-InStock :
    (catalog : Catalog) (user_id variant_id quantity : ℕ) (s : Carts)
    → HasKeys item_key s.items
    → IfOk
        (λ t.
          (i : CartItem) × (p : Product) × (v : ProductVariant) × (find
              (is_item_of (get_or_create_cart user_id s).0.id variant_id)
              t.items
            ≡ some i)
          × (i.unit_price_snapshot ≡ p.price)
          × IsResolved catalog variant_id i.quantity p v)
        (add_item catalog user_id variant_id quantity s)
unfolding add_item
add_item-InStock catalog user_id variant_id quantity s keys =
    let cart = (get_or_create_cart user_id s).0 in
    let t = (get_or_create_cart user_id s).1 in
    let same : t.items ≡ s.items = get_or_create_cart-items user_id s in
    let existing = find (is_item_of cart.id variant_id) t.items in
    IfOk-bind (λ done. Unit {0}) _ (assert_mutable cart) _
      (IfOk-intro (λ done. Unit {0}) (assert_mutable cart) (λ done e. tt))
      (λ done e.
        IfOk-bind (λ r. IsResolved catalog variant_id (quantity_of existing + quantity) r.0 r.1) _
          (resolved_or_fail (resolve_item catalog variant_id quantity (quantity_of existing))) _
          (resolve-IsResolved catalog variant_id quantity (quantity_of existing))
          (λ r fit.
            let (i, found, quantity_i, price_i) =
              put_item-found cart.id variant_id quantity r.0 t
                (subst (HasKeys item_key) (sym same) keys) in
            (i, r.0, r.1, found, price_i, (fit.0, fit.1, rw quantity_i fit.2))))
