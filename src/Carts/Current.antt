-- ===== src/Carts/Current.antt =====
-- backend/src/modules/cart/cart.service.ts: what `revalidateForCheckout` leaves in a cart.
use e_commerce_titulo_interm.Common.{
  ℕ, ◌≡◌, ◌≢◌, refl, sym, subst, ◌∙◌, inl, inr, Bool, true, false, some, List, [], ◌∷◌, not, ◌==◌,
  ==_iff, if◌then◌else◌, if-cases, Option-cases, any, keep, find, All, All-map, All-map2, IfOk,
  IfOk-bind, HasKeys, HasKeys-keep, find_key-All, any-keep, All-keep, false≢true, find_key,
  update_key, remove_key, update_key-same, All-update_row, All-remove_row, HasKeys-update_key,
  HasKeys-remove_key, find-update_key_other, find-remove_key_other, pos, ltb_ℤ, leb_ℤ, pos_part,
  ◌≤ℤ◌, arith,
}
use e_commerce_titulo_interm.Stock.Rows.{Product, ProductVariant}
use e_commerce_titulo_interm.Carts.Rows.{
  CartItem, Carts, Catalog, item_key, product_key, is_purchasable, stock_available, load_product,
  load_variant,
}
use e_commerce_titulo_interm.Carts.Service.{is_active_cart_of, get_or_create_cart, save_item}
use e_commerce_titulo_interm.Carts.Views.{items_of}
use e_commerce_titulo_interm.Carts.Revalidation.{
  CheckoutAdjustment, adjust_item, revalidate_item, revalidate_items, revalidate_for_checkout,
}

-- An item that can be bought as it is: for sale, within what is available, at its present price.
abbrev pub IsCurrent : Catalog → CartItem → Type 0
IsCurrent catalog i =
    (p : Product) × (v : ProductVariant) × (find_key product_key i.product_id catalog.products
      ≡ some p)
    × (load_variant catalog i ≡ some v)
    × (is_purchasable p v ≡ true)
    × (pos i.quantity ≤ℤ stock_available v)
    × (i.unit_price_snapshot ≡ p.price)

-- The item that the loop leaves in the place of one that stays.
abbrev adjusted : CartItem → Product → ProductVariant → CartItem
adjusted i p v = record i {
  quantity =
      if ltb_ℤ (stock_available v) (pos i.quantity)
      then pos_part (stock_available v)
      else i.quantity;
  unit_price_snapshot = p.price;
}

adjusted_lem :
    (i : CartItem) (p : Product) (v : ProductVariant) (items : List CartItem)
    → find_key item_key i.id items ≡ some i
    → (adjust_item i p v items).1 ≡ save_item (adjusted i p v) items
unfolding adjust_item
adjusted_lem i p v items found =
    let reduces = ltb_ℤ (stock_available v) (pos i.quantity) in
    let reprices = not (p.price == i.unit_price_snapshot) in
    let price : (if reprices then p.price else i.unit_price_snapshot) ≡ p.price = ground arith in
    let saved : save_item (adjusted i p v) items ≡ save_item (adjusted i p v) items = refl in
    rw price (
      if-cases (λ left. left ≡ save_item (adjusted i p v) items) reduces (λ e. refl)
        (λ e.
          if-cases (λ left. left ≡ save_item (adjusted i p v) items) reprices (λ f. refl)
            (λ f.
              let same : p.price ≡ i.unit_price_snapshot = ground (arith, f) in
              let kept : adjusted i p v ≡ i = rw (e, same) refl in
              sym (
                subst (λ j. save_item j items ≡ items) (sym kept)
                  (update_key-same item_key i.id items found)))))

-- What is still to be shown of the items of a cart, when the pending ones have their turn ahead.
abbrev IsDone : Catalog → ℕ → List CartItem → CartItem → Type 0
IsDone catalog cart_id pending x =
    any (λ j. j.id == x.id) pending ≡ false → x.cart_id ≡ cart_id → IsCurrent catalog x

abbrev IsRead : List CartItem → CartItem → Type 0
IsRead items j = find_key item_key j.id items ≡ some j

module _ (catalog : Catalog) (cart_id : ℕ) (i : CartItem) (pending items : List CartItem)
    (keys : HasKeys item_key items) (ahead : HasKeys item_key (i ∷ pending))
    (reads : All (IsRead items) (i ∷ pending))
    (done : All (IsDone catalog cart_id (i ∷ pending)) items) where
  -- What a turn leaves behind.
  abbrev AfterTurn : List CartItem → Type 0
  AfterTurn next =
      HasKeys item_key next × All (IsRead next) pending × All (IsDone catalog cart_id pending) next

  other-IsDone :
      (y : CartItem)
      → y.id ≢ i.id
      → IsDone catalog cart_id (i ∷ pending) y
      → IsDone catalog cart_id pending y
  other-IsDone y ne h left cart = h (ground (arith, ne, left, ==_iff i.id y.id)) cart

  dropped-AfterTurn : AfterTurn (remove_key item_key i.id items)
  dropped-AfterTurn = (
    HasKeys-remove_key item_key i.id items keys,
    All-map2 (λ j ne read. find-remove_key_other item_key i.id j.id items ne ∙ read) pending ahead.0
        reads.1,
    All-remove_row item_key (IsDone catalog cart_id (i ∷ pending)) (IsDone catalog cart_id pending)
        i.id items keys other-IsDone done,
  )

  saved-AfterTurn :
      (saved : CartItem)
      → saved.id ≡ i.id
      → IsCurrent catalog saved
      → AfterTurn (save_item saved items)
  saved-AfterTurn saved same current =
      subst (λ k. AfterTurn (update_key item_key k (λ old. saved) items)) (sym same)
        (
          HasKeys-update_key item_key i.id (λ old. saved) items (λ y e. same ∙ sym e) keys,
          All-map2
              (λ j ne read.
                find-update_key_other item_key i.id j.id (λ old. saved) items (λ y e. same ∙ sym e)
                  ne
                ∙ read)
              pending ahead.0 reads.1,
          All-update_row item_key (IsDone catalog cart_id (i ∷ pending))
              (IsDone catalog cart_id pending) i.id (λ old. saved) items keys
              (λ y e h left cart. current) other-IsDone done,
        )

  -- One turn of the loop.
  turn-AfterTurn :
      (p : Product)
      → find_key product_key i.product_id catalog.products ≡ some p
      → AfterTurn (revalidate_item i p (load_variant catalog i) items).1
  unfolding revalidate_item
  turn-AfterTurn p product = elim (Option-cases (load_variant catalog i)) [
    | inl e ↦ rw (e, revalidate_item) dropped-AfterTurn
    | inr (v, e) ↦
        rw (e, revalidate_item)
          (if-cases (λ (r : List CheckoutAdjustment × List CartItem). AfterTurn r.1)
            (not (is_purchasable p v)) (λ t. dropped-AfterTurn)
            (λ sold.
              if-cases (λ (r : List CheckoutAdjustment × List CartItem). AfterTurn r.1)
                (leb_ℤ (stock_available v) (pos 0)) (λ t. dropped-AfterTurn)
                (λ stocked. rw (adjusted_lem i p v items reads.0) (
                  saved-AfterTurn (adjusted i p v) refl
                    (p, v, product, e, ground (arith, sold), ground (arith, stocked), refl)))))
  ]

pub load_product-IfOk :
    (catalog : Catalog) (i : CartItem)
    → IfOk
        (λ p. find_key product_key i.product_id catalog.products ≡ some p)
        (load_product catalog i)
unfolding load_product
load_product-IfOk catalog i =
    elim (Option-cases (find_key product_key i.product_id catalog.products)) [
      | inl e ↦ rw (e, load_product) tt
      | inr (p, e) ↦ rw (e, load_product) refl
    ]

-- The loop, over the items that it read.
loop_lem :
    (catalog : Catalog) (cart_id : ℕ) (pending items : List CartItem)
    → HasKeys item_key items
    → HasKeys item_key pending
    → All (IsRead items) pending
    → All (IsDone catalog cart_id pending) items
    → IfOk
        (λ r. HasKeys item_key r.1 × All (IsDone catalog cart_id []) r.1)
        (revalidate_items catalog pending items)
unfolding revalidate_items
loop_lem catalog cart_id [] items keys ahead reads done = (keys, done)
loop_lem catalog cart_id (i ∷ pending) items keys ahead reads done =
    IfOk-bind (λ p. find_key product_key i.product_id catalog.products ≡ some p)
      (λ r. HasKeys item_key r.1 × All (IsDone catalog cart_id []) r.1) (load_product catalog i) _
      (load_product-IfOk catalog i)
      (λ p product.
        let next = turn-AfterTurn catalog cart_id i pending items keys ahead reads done p product in
        IfOk-bind (λ r. HasKeys item_key r.1 × All (IsDone catalog cart_id []) r.1)
          (λ r. HasKeys item_key r.1 × All (IsDone catalog cart_id []) r.1)
          (revalidate_items catalog pending (revalidate_item i p (load_variant catalog i) items).1)
          _
          (loop_lem catalog cart_id pending (revalidate_item i p (load_variant catalog i) items).1
            next.0 ahead.1 next.1 next.2)
          (λ r done. done))

pub get_or_create_cart-items :
    (user_id : ℕ) (s : Carts) → (get_or_create_cart user_id s).1.items ≡ s.items
unfolding get_or_create_cart
get_or_create_cart-items user_id s =
    elim (Option-cases (find (is_active_cart_of user_id) s.carts)) [
      | inl e ↦ rw (e, get_or_create_cart) refl
      | inr (c, e) ↦ rw (e, get_or_create_cart) refl
    ]

-- If no two items of the table have the same key and revalidateForCheckout returns, every item
-- that it leaves in the cart is of a product and a variant that are for sale, with a quantity
-- within what is available of the variant and at the present price of the product.
pub revalidate_for_checkout-IsCurrent :
    (catalog : Catalog) (user_id : ℕ) (s : Carts)
    → HasKeys item_key s.items
    → IfOk
        (λ r. All (IsCurrent catalog) (items_of (get_or_create_cart user_id s).0.id r.1))
        (revalidate_for_checkout catalog user_id s)
unfolding revalidate_for_checkout
revalidate_for_checkout-IsCurrent catalog user_id s keys =
    let cart = (get_or_create_cart user_id s).0 in
    let t = (get_or_create_cart user_id s).1 in
    let test : CartItem → Bool = λ i. i.cart_id == cart.id in
    let keys_t : HasKeys item_key t.items =
      subst (HasKeys item_key) (sym (get_or_create_cart-items user_id s)) keys in
    IfOk-bind (λ r. HasKeys item_key r.1 × All (IsDone catalog cart.id []) r.1) _
      (revalidate_items catalog (items_of cart.id t) t.items) _
      (loop_lem catalog cart.id (items_of cart.id t) t.items keys_t
        (HasKeys-keep item_key test t.items keys_t)
        (All-map (λ j both. both.0) (keep test t.items)
          (All-keep (IsRead t.items) test t.items (find_key-All item_key t.items keys_t)))
        (All-map
          (λ x covers left same. absurd (false≢true (sym left ∙ covers (ground (arith, same)))))
          t.items (any-keep item_key test t.items)))
      (λ r done.
        All-map (λ x both. both.0 refl (ground (arith, both))) (keep test r.1)
          (All-keep (IsDone catalog cart.id []) test r.1 done.1))
