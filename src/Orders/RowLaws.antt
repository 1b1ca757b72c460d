-- ===== src/Orders/RowLaws.antt =====
-- What an UPDATE of an order does to the order that a query finds, and to a sum over all orders.
use e_commerce_titulo_interm.Common.{ℕ, some, List, [], ◌∷◌, ◌≡◌, ◌+◌, ◌≤◌, arith, sum, ==_iff}
use e_commerce_titulo_interm.Entities.{Order, find_order, update_orders}

module _ (id : ℕ) (changes : Order → Order) where
  -- The row that is found afterwards is the changed one.
  pub find_order-update_orders :
      ((o : Order) → (changes o).id ≡ o.id)
      → (os : List Order) {o : Order} → find_order id os ≡ some o
      → find_order id (update_orders id changes os) ≡ some (changes o)
  unfolding find_order update_orders
  find_order-update_orders same [] e = cc
  find_order-update_orders same (p ∷ os) {o} e =
      ground (arith, same p, find_order-update_orders same os {o = o})

  -- A sum over all orders changes by the change of that one.
  pub sum-update_orders :
      (measure : Order → ℕ) (os : List Order) {o : Order}
      → find_order id os ≡ some o
      → sum measure (update_orders id changes os) + measure o ≡ sum measure os + measure (changes o)
  unfolding find_order update_orders
  sum-update_orders measure [] e = cc
  sum-update_orders measure (p ∷ os) {o} e = ground (arith, sum-update_orders measure os {o = o})

-- The order that is found is one of the summands.
pub measure-le-sum :
    (id : ℕ) (measure : Order → ℕ) (os : List Order) {o : Order}
    → find_order id os ≡ some o
    → measure o ≤ sum measure os
unfolding find_order
measure-le-sum id measure [] e = cc
measure-le-sum id measure (p ∷ os) {o} e = ground (arith, measure-le-sum id measure os {o = o})

-- The order that is found has the key that was asked for.
pub find_order_id : (id : ℕ) (os : List Order) {o : Order} → find_order id os ≡ some o → o.id ≡ id
unfolding find_order
find_order_id id [] e = cc
find_order_id id (p ∷ os) {o} e = ground (arith, ==_iff p.id id, find_order_id id os {o = o})
