-- ===== src/Tests/ShopData.antt =====
-- A customer with two addresses and a cart, and the shop where they buy.
use e_commerce_titulo_interm.Common.{ℕ, Bool, true, false, none, some, List, [], ◌∷◌}
use e_commerce_titulo_interm.Stock.Rows.{Product}
use e_commerce_titulo_interm.Entities.{domicilio}
use e_commerce_titulo_interm.Users.Rows.{Address, CreateAddressDto, UpdateAddressDto}
use e_commerce_titulo_interm.Carts.Rows.{Cart, activo, CartItem, Carts, Catalog}
use e_commerce_titulo_interm.Checkout.Rows.{ShippingMethod, Shop}
use e_commerce_titulo_interm.Checkout.Confirm.{Checkout}
use e_commerce_titulo_interm.Checkout.Payment.{ConfirmCheckoutDto}
use e_commerce_titulo_interm.Tests.Data.{variant_1, variant_2, tables}

abbrev pub address_of : ℕ → Bool → Address
address_of id default = record {
  id = id;
  user_id = 3;
  alias = "casa";
  street = "San Martin";
  number = "120";
  floor_apt = none;
  city = "Rosario";
  province = "Santa Fe";
  postal_code = "2000";
  phone = "3415550000";
  notes = none;
  is_default = default;
  is_active = true;
}

abbrev pub book : List Address
book = address_of 50 true ∷ address_of 51 false ∷ []

abbrev pub new_address_dto : CreateAddressDto
new_address_dto = record {
  alias = "trabajo";
  street = "Mitre";
  number = "7";
  floor_apt = none;
  city = "Rosario";
  province = "Santa Fe";
  postal_code = "2000";
  phone = "3415550001";
  notes = none;
  is_default = some true;
}

abbrev pub unmarking_dto : UpdateAddressDto
unmarking_dto = record {
  alias = none;
  street = none;
  number = none;
  floor_apt = none;
  city = none;
  province = none;
  postal_code = none;
  phone = none;
  notes = none;
  is_default = some false;
}

abbrev pub shirt : Product
shirt = record {
  id = 1;
  name = "remera";
  price = 500;
  is_published = true;
  is_active = true;
  low_stock_threshold = none;
}

abbrev pub cart_item : ℕ → ℕ → ℕ → ℕ → CartItem
cart_item id variant_id quantity price = record {
  id = id;
  cart_id = 60;
  product_id = 1;
  variant_id = variant_id;
  quantity = quantity;
  unit_price_snapshot = price;
}

abbrev pub cart_60 : Cart
cart_60 = record { id = 60; user_id = 3; status = activo }

abbrev pub carts_with : List CartItem → Carts
carts_with items = record { carts = cart_60 ∷ []; items = items; next_id = 70 }

-- A cart that is up to date, and one that the catalogue has overtaken.
abbrev pub ready_carts : Carts
ready_carts = carts_with (cart_item 61 1 2 500 ∷ cart_item 62 2 1 500 ∷ [])

abbrev pub stale_carts : Carts
stale_carts = carts_with (cart_item 61 1 20 400 ∷ cart_item 62 2 1 500 ∷ [])

abbrev pub catalog : Catalog
catalog = record { products = shirt ∷ []; variants = variant_1 ∷ variant_2 ∷ [] }

abbrev pub delivery : ShippingMethod
delivery = record {
  id = 40;
  name = "correo";
  description = none;
  cost = 200;
  kind = domicilio;
  is_active = true;
}

abbrev pub shop_3 : Shop
shop_3 = record {
  db = tables;
  products = shirt ∷ [];
  carts = ready_carts;
  addresses = book;
  shipping_methods = delivery ∷ [];
  users = record { id = 3; email = "ana@example.com" } ∷ [];
}

abbrev pub checkout_3 : Checkout
checkout_3 = record {
  now = 6000;
  ttl = 86400000;
  number = 10;
  user_id = 3;
  address = address_of 50 true;
  method = delivery;
  expected_total = 1700;
}

abbrev pub confirm_dto : ConfirmCheckoutDto
confirm_dto = record { address_id = 50; shipping_method_id = 40; expected_total = 1700 }
