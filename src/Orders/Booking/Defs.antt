-- ===== src/Orders/Booking/Defs.antt =====
-- What the reserved counters stand for, and the rule by which a write to the locked order keeps it.
use e_commerce_titulo_interm.Common.{
  ℕ, some, ◌≡◌, ◌+◌, ◌-◌, ◌∙◌, ap, sym, arith, sum, pos, ◌+ℤ◌, int_laws, parts, if◌then◌else◌,
}
use mathlib.Core.Path.{subst}
use e_commerce_titulo_interm.Stock.Rows.{Stock}
use e_commerce_titulo_interm.Stock.Counters.{reserved_of, qty_of}
use e_commerce_titulo_interm.Stock.Soundness.{IsSoundStock}
use e_commerce_titulo_interm.Entities.{
  Order, Db, find_order, update_order, update_orders, stock_lines,
}
use e_commerce_titulo_interm.Orders.RowLaws.{
  find_order-update_orders, sum-update_orders, measure-le-sum,
}

-- The units of a variant that an order holds reserved.
abbrev pub held : ℕ → Order → ℕ
held j o = if o.stock_reservation_active then qty_of j (stock_lines o.items) else 0

-- No variant is oversold, and what is reserved of each variant is what the orders hold.
pub record IsAccounted (db : Db) : Type 0 where
  pub sound : IsSoundStock db.stock
  pub reserved : (j : ℕ) → reserved_of j db.stock.variants ≡ pos (sum (held j) db.orders)

-- The order in memory is the row.
abbrev pub IsLocked : Order → Db → Type 0
IsLocked order db = find_order order.id db.orders ≡ some order

-- An order that a transaction has locked, beside the tables.
pub record IsBooked (state : Order × Db) : Type 0 where
  pub accounted : IsAccounted state.1
  pub locked : IsLocked state.0 state.1

module _ (order : Order) (db : Db) (stock : Stock) (changes : Order → Order)
    (booked : IsBooked (order, db)) (same : (o : Order) → (changes o).id ≡ o.id)
    (sound : IsSoundStock stock)
    (moved : (j : ℕ)
      → reserved_of j stock.variants +ℤ pos (held j order)
        ≡ reserved_of j db.stock.variants +ℤ pos (held j (changes order))) where
  -- A write to the locked order keeps the books if the reserved counters move by as much as what
  -- the order holds.
  pub update_order-IsBooked :
      IsBooked (changes order, update_order order.id changes (record db { stock = stock }))
  update_order-IsBooked = record {
    accounted = record {
      sound = sound;
      reserved = λ j. omega (
        int_laws,
        parts (moved j),
        parts (booked.accounted.reserved j),
        sum-update_orders order.id changes (held j) db.orders booked.locked,
      );
    };
    locked =
        subst (λ k. find_order k (update_orders order.id changes db.orders) ≡ some (changes order))
          (sym (same order))
          (find_order-update_orders order.id changes same db.orders booked.locked);
  }

-- What one order holds is no more than what is reserved.
pub held-le-reserved :
    (order : Order) (db : Db)
    → IsBooked (order, db)
    → (j : ℕ) → (n : ℕ) × (reserved_of j db.stock.variants ≡ pos (held j order + n))
held-le-reserved order db booked j = (
  sum (held j) db.orders - held j order,
  booked.accounted.reserved j
      ∙ ap pos (omega (arith, measure-le-sum order.id (held j) db.orders booked.locked)),
)

-- The books read the stock and the orders alone.
pub same-IsBooked :
    (order : Order) (db db' : Db)
    → db'.orders ≡ db.orders
    → db'.stock ≡ db.stock
    → IsBooked (order, db)
    → IsBooked (order, db')
same-IsBooked order db db' orders stock booked = record {
  accounted = record {
    sound = subst IsSoundStock (sym stock) booked.accounted.sound;
    reserved = λ j.
        ap (λ (s : Stock). reserved_of j s.variants) stock
        ∙ booked.accounted.reserved j
        ∙ ap (λ os. pos (sum (held j) os)) (sym orders);
  };
  locked = ap (λ os. find_order order.id os) orders ∙ booked.locked;
}
