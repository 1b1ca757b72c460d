-- ===== src/Carts/Views.antt =====
-- backend/src/modules/cart/cart.service.ts: what the requests of the cart return.
use e_commerce_titulo_interm.Common.{
  ℕ, ◌*◌, Bool, true, false, Option, none, some, List, [], ◌∷◌, ◌&&◌, not, ◌==◌, keep, find, sum,
  Result, ok, err, ◌>>=◌, ◌>>◌, pos, leb_ℤ, ℤ,
}
use Prim.Native.String.{String}
use e_commerce_titulo_interm.Errors.{ServiceError, null_relation}
use e_commerce_titulo_interm.Stock.Rows.{Product, ProductVariant}
use e_commerce_titulo_interm.Carts.Rows.{
  CartItem, Carts, Catalog, is_purchasable, stock_available, with_product, load_product,
  load_variant,
}
use e_commerce_titulo_interm.Carts.Service.{
  ResolveOutcome, resolved, too_few, unavailable, resolve_item, get_or_create_cart, assert_mutable,
  is_item_of, quantity_of, put_item,
}

-- `CartItemView`; the attributes of the variant are left out.
pub record CartItemView : Type 0 where
  pub id : ℕ
  pub product_id : ℕ
  pub product_name : String
  pub variant_id : ℕ
  pub quantity : ℕ
  pub unit_price_snapshot : ℕ
  pub subtotal : ℕ
  pub is_unavailable : Bool
  pub is_out_of_stock : Bool
  pub price_changed : Bool

-- `isPurchasable(item.variant.product, item.variant)`
abbrev pub is_variant_purchasable : Catalog → ProductVariant → Bool
is_variant_purchasable catalog v = elim (with_product catalog v) [
  | none ↦ false
  | some r ↦ is_purchasable r.0 r.1
]

-- `toItemView`, with its relations loaded.
abbrev pub to_item_view : Catalog → CartItem → Product → ProductVariant → CartItemView
to_item_view catalog i p v = record {
  id = i.id;
  product_id = i.product_id;
  product_name = p.name;
  variant_id = i.variant_id;
  quantity = i.quantity;
  unit_price_snapshot = i.unit_price_snapshot;
  subtotal = i.unit_price_snapshot * i.quantity;
  is_unavailable = not (is_variant_purchasable catalog v);
  is_out_of_stock = is_variant_purchasable catalog v && leb_ℤ (stock_available v) (pos 0);
  price_changed = not (p.price == i.unit_price_snapshot);
}

-- A relation whose fields are read.
abbrev pub some_or_null : Option ProductVariant → Result ServiceError ProductVariant
some_or_null none = err null_relation
some_or_null (some v) = ok v

-- `items.map((item) => this.toItemView(item))`
unfoldable pub to_item_views : Catalog → List CartItem → Result ServiceError (List CartItemView)
unfolding load_product
to_item_views catalog [] = ok []
to_item_views catalog (i ∷ is) = do
  p ← load_product catalog i
  v ← some_or_null (load_variant catalog i)
  views ← to_item_views catalog is
  ok (to_item_view catalog i p v ∷ views)

-- What `getCart` returns.
pub record CartTotals : Type 0 where
  pub cart_id : ℕ
  pub items : List CartItemView
  pub total_items : ℕ
  pub total_amount : ℕ

-- `toCartTotals`
abbrev pub to_cart_totals : ℕ → List CartItemView → CartTotals
to_cart_totals cart_id views = record {
  cart_id = cart_id;
  items = views;
  total_items = sum (λ i. i.quantity) views;
  total_amount = sum (λ i. i.subtotal) views;
}

-- `{ cartId }`
abbrev pub items_of : ℕ → Carts → List CartItem
items_of cart_id s = keep (λ i. i.cart_id == cart_id) s.items

-- `getCart`
unfoldable pub get_cart : Catalog → ℕ → Carts → Result ServiceError (CartTotals × Carts)
unfolding get_or_create_cart to_item_views
get_cart catalog user_id s = do
  let (cart, t) = get_or_create_cart user_id s
  views ← to_item_views catalog (items_of cart.id t)
  ok (to_cart_totals cart.id views, t)

-- `{ variantId, quantity }` of the cart of a guest.
pub record GuestItem : Type 0 where
  pub variant_id : ℕ
  pub quantity : ℕ

-- `outcome` and `maxAvailable` of `MergeItemResult`
pub data MergeOutcome : Type 0 where
  merges : MergeOutcome
  lacks_stock : ℤ → MergeOutcome
  not_available : MergeOutcome

-- `MergeItemResult`
pub record MergeItemResult : Type 0 where
  pub variant_id : ℕ
  pub requested_quantity : ℕ
  pub outcome : MergeOutcome

abbrev pub merge_outcome : ResolveOutcome → MergeOutcome
merge_outcome (resolved p v) = merges
merge_outcome (too_few max_available) = lacks_stock max_available
merge_outcome unavailable = not_available

-- `toMergeItemResult`
abbrev pub to_merge_item_result : ℕ → ℕ → ResolveOutcome → MergeItemResult
to_merge_item_result variant_id quantity r = record {
  variant_id = variant_id;
  requested_quantity = quantity;
  outcome = merge_outcome r;
}

-- `resolveGuestItem`
abbrev pub resolve_guest_item : Catalog → ℕ → ℕ → ℕ → MergeItemResult
resolve_guest_item catalog variant_id quantity already =
    to_merge_item_result variant_id quantity (resolve_item catalog variant_id quantity already)

-- The outcome of an item of a guest on the cart of a customer.
unfoldable pub merge_resolution : Catalog → ℕ → GuestItem → List CartItem → ResolveOutcome
unfolding resolve_item
merge_resolution catalog cart_id g items =
    resolve_item catalog g.variant_id g.quantity
      (quantity_of (find (is_item_of cart_id g.variant_id) items))

-- The items of `previewMerge`.
unfoldable pub preview_items : Catalog → ℕ → List GuestItem → List CartItem → List MergeItemResult
unfolding merge_resolution
preview_items catalog cart_id [] items = []
preview_items catalog cart_id (g ∷ gs) items =
    to_merge_item_result g.variant_id g.quantity (merge_resolution catalog cart_id g items)
    ∷ preview_items catalog cart_id gs items

-- `previewMerge`
unfoldable pub preview_merge : Catalog → ℕ → List GuestItem → Carts → List MergeItemResult × Carts
unfolding get_or_create_cart preview_items
preview_merge catalog user_id gs s =
    let (cart, t) = get_or_create_cart user_id s in (preview_items catalog cart.id gs t.items, t)

-- The write of `confirmMerge` for one item.
abbrev pub merge_write : ResolveOutcome → ℕ → GuestItem → Carts → Carts
merge_write (resolved p v) cart_id g s =
    put_item (find (is_item_of cart_id g.variant_id) s.items) cart_id g.variant_id g.quantity p s
merge_write (too_few max_available) cart_id g s = s
merge_write unavailable cart_id g s = s

-- The items of `confirmMerge`: the outcome of each, and the cart with those that resolve. They are
-- of different variants, so that the order in which they run does not matter.
unfoldable pub merge_items : Catalog → ℕ → List GuestItem → Carts → List MergeItemResult × Carts
unfolding merge_resolution put_item
merge_items catalog cart_id [] s = ([], s)
merge_items catalog cart_id (g ∷ gs) s =
    let r = merge_resolution catalog cart_id g s.items in
    let (outcomes, t) = merge_items catalog cart_id gs (merge_write r cart_id g s) in
    (to_merge_item_result g.variant_id g.quantity r ∷ outcomes, t)

abbrev pub is_merged : MergeOutcome → Bool
is_merged merges = true
is_merged (lacks_stock max_available) = false
is_merged not_available = false

-- What `confirmMerge` returns, without the view of the cart.
pub record MergeReport : Type 0 where
  pub merged : List MergeItemResult
  pub skipped : List MergeItemResult

-- `confirmMerge`, up to the view that it returns.
unfoldable pub confirm_merge :
    Catalog → ℕ → List GuestItem → Carts → Result ServiceError (MergeReport × Carts)
unfolding get_or_create_cart merge_items
confirm_merge catalog user_id gs s = do
  let (cart, t) = get_or_create_cart user_id s
  assert_mutable cart
  let (outcomes, u) = merge_items catalog cart.id gs t
  let merged = keep (λ o. is_merged o.outcome) outcomes
  let skipped = keep (λ o. not (is_merged o.outcome)) outcomes
  ok (record { merged = merged; skipped = skipped }, u)
