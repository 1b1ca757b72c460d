-- ===== src/Checkout/Rows.antt =====
-- backend/src/modules/orders/checkout.service.ts: the tables that the checkout reads and writes,
-- and what it checks before it starts.
use e_commerce_titulo_interm.Common.{
  ℕ, ◌+◌, Bool, true, false, Option, none, some, List, [], ◌∷◌, ◌&&◌, ◌||◌, ◌==◌, leb, any, find,
  sum, Result, ok, err, ◌>>=◌, ◌>>◌, throw_if,
}
use Prim.Native.String.{String}
use Prim.Native.Char.{code}
use e_commerce_titulo_interm.Errors.{
  ServiceError, address_not_found, invalid_address, shipping_method_not_found, empty_cart,
}
use e_commerce_titulo_interm.Stock.Rows.{Product}
use e_commerce_titulo_interm.Entities.{
  ShippingMethodType, ShippingMethodSnapshot, ShippingAddressSnapshot, Db,
}
use e_commerce_titulo_interm.Users.Rows.{Address}
use e_commerce_titulo_interm.Users.Addresses.{find_owned_active}
use e_commerce_titulo_interm.Carts.Rows.{Carts, Catalog}
use e_commerce_titulo_interm.Carts.Views.{CartItemView, CartTotals, get_cart}

-- `ShippingMethod`
pub record ShippingMethod : Type 0 where
  pub id : ℕ
  pub name : String
  pub description : Option String
  pub cost : ℕ
  pub kind : ShippingMethodType  -- `type`
  pub is_active : Bool

-- The columns of `User` that the checkout reads.
pub record User : Type 0 where
  pub id : ℕ
  pub email : String

-- The tables of the checkout.
pub record Shop : Type 0 where
  pub db : Db
  pub products : List Product
  pub carts : Carts
  pub addresses : List Address
  pub shipping_methods : List ShippingMethod
  pub users : List User

-- What the cart reads of the tables.
abbrev pub catalog_of : Shop → Catalog
catalog_of shop = record { products = shop.products; variants = shop.db.stock.variants }

-- The characters that `trim` takes off.
abbrev pub is_white : ℕ → Bool
is_white c =
    (leb 9 c && leb c 13)
    || (leb 8192 c && leb c 8202)
    || any (λ w. w == c) (32 ∷ 160 ∷ 5760 ∷ 8232 ∷ 8233 ∷ 8239 ∷ 8287 ∷ 12288 ∷ 65279 ∷ [])

-- `!text.trim()`
unfoldable pub is_blank : String → Bool
is_blank String.[] = true
is_blank (String.◌∷◌ c rest) = is_white (code c) && is_blank rest

-- Some field of `REQUIRED_ADDRESS_FIELDS` is missing.
unfoldable pub is_incomplete : Address → Bool
unfolding is_blank
is_incomplete a =
    is_blank a.street
    || is_blank a.number
    || is_blank a.city
    || is_blank a.province
    || is_blank a.postal_code
    || is_blank a.phone

-- `requireValidAddress`
unfoldable pub require_valid_address : ℕ → ℕ → Shop → Result ServiceError Address
unfolding is_incomplete
require_valid_address user_id address_id shop =
    elim (find_owned_active user_id address_id shop.addresses) [
      | none ↦ err address_not_found
      | some a ↦ throw_if (is_incomplete a) invalid_address >> ok a
    ]

-- `requireShippingMethod`
unfoldable pub require_shipping_method : ℕ → Shop → Result ServiceError ShippingMethod
require_shipping_method method_id shop =
    elim (find (λ m. m.id == method_id && m.is_active) shop.shipping_methods) [
      | none ↦ err shipping_method_not_found
      | some m ↦ ok m
    ]

-- `snapshotAddress`
abbrev pub snapshot_address : Address → ShippingAddressSnapshot
snapshot_address a = record {
  alias = a.alias;
  street = a.street;
  number = a.number;
  floor_apt = a.floor_apt;
  city = a.city;
  province = a.province;
  postal_code = a.postal_code;
  phone = a.phone;
  notes = a.notes;
}

-- The snapshot of a shipping method that `confirm` writes out.
abbrev pub snapshot_method : ShippingMethod → ShippingMethodSnapshot
snapshot_method m = record {
  id = m.id;
  name = m.name;
  cost = m.cost;
  kind = some m.kind;
  description = m.description;
}

-- What `quote` returns.
pub record Quote : Type 0 where
  pub items : List CartItemView
  pub method_id : ℕ
  pub subtotal : ℕ
  pub shipping_cost : ℕ
  pub total : ℕ

abbrev pub is_nil {ℓ} : {A : Type ℓ} → List A → Bool
is_nil [] = true
is_nil (x ∷ xs) = false

-- The sums of `quote`, of a cart that is not empty.
abbrev pub quote_of : CartTotals → ShippingMethod → Quote
quote_of cart m =
    let subtotal = sum (λ i. i.subtotal) cart.items in
    record {
      items = cart.items;
      method_id = m.id;
      subtotal = subtotal;
      shipping_cost = m.cost;
      total = subtotal + m.cost;
    }

-- `quote`
unfoldable pub quote : ℕ → ℕ → ℕ → Shop → Result ServiceError (Quote × Shop)
unfolding require_valid_address require_shipping_method get_cart
quote user_id address_id method_id shop = do
  address ← require_valid_address user_id address_id shop
  m ← require_shipping_method method_id shop
  read ← get_cart (catalog_of shop) user_id shop.carts
  throw_if (is_nil read.0.items) empty_cart
  ok (quote_of read.0 m, record shop { carts = read.1 })
