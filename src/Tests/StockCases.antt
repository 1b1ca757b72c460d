-- ===== src/Tests/StockCases.antt =====
-- The theorems on the stock of a variant, at the small shop.
use e_commerce_titulo_interm.Common.{
  ℕ, true, List, [], ◌∷◌, ◌≡◌, ◌↔◌, refl, arith, pos, ◌+ℤ◌, ◌-ℤ◌, ◌≤ℤ◌, Returns, All, false, some,
  ok, is_ok, IfOk,
}
use e_commerce_titulo_interm.Stock.Rows.{ProductVariant, Stock, sale, row, update_row}
use e_commerce_titulo_interm.Stock.Reservation.{
  StockLine, reserved_all, short_of, sorted, reserve, release, confirm_sale, restock_cancelled_sale,
  take_for_replacement,
}
use e_commerce_titulo_interm.Stock.Counters.{reserved_of, total_of, qty_of}
use e_commerce_titulo_interm.Stock.Selling.{taken_reserved}
use e_commerce_titulo_interm.Stock.Presence.{HasRow}
use e_commerce_titulo_interm.Stock.Availability.{IsPositive, reserve_iff}
use e_commerce_titulo_interm.Stock.Reserving.{reserve_all, reserve_undone, release_counters}
use e_commerce_titulo_interm.Stock.Soundness.{IsSoundStock, reserve-IsSound, release-IsSound}
use e_commerce_titulo_interm.Stock.Movements.{
  IsTaken, confirm_sale-Returns, confirm_sale_reserved, restock_cancelled_sale-Returns,
  take_for_replacement-Returns,
}
use e_commerce_titulo_interm.Stock.Adjusting.{
  AdjustStockDto, by_merma, by_ajuste, plan_adjust, save_adjust, adjust,
}
use e_commerce_titulo_interm.Stock.Adjusted.{adjust-IsSound, save_adjust-overwrites}
use e_commerce_titulo_interm.Tests.ShopData.{shirt}
use e_commerce_titulo_interm.Tests.Data.{
  variant_1, shop, line, small_lines, large_lines, movement_opts,
}

pub shop-IsSound : IsSoundStock shop
shop-IsSound = ground arith

small_lines-IsPositive : All IsPositive small_lines
small_lines-IsPositive = ground arith

small_lines-HasRow : All (HasRow shop.variants) small_lines
unfolding row
small_lines-HasRow = ground arith

reserve_small : (reserve small_lines shop).0 ≡ reserved_all
unfolding reserve sorted update_row ◌-ℤ◌
reserve_small = refl

reserve_large : (reserve large_lines shop).0 ≡ short_of 2
unfolding reserve sorted update_row ◌-ℤ◌
reserve_large = refl

reserve_iff_example : ((reserve small_lines shop).0 ≡ reserved_all) ↔ (
    (j : ℕ) → pos (qty_of j small_lines) ≤ℤ total_of j shop.variants -ℤ reserved_of j shop.variants)
reserve_iff_example = reserve_iff small_lines shop shop-IsSound small_lines-IsPositive

reserve_all_example :
    (reserved_of 2 (reserve small_lines shop).1.variants
      ≡ reserved_of 2 shop.variants +ℤ pos (qty_of 2 small_lines))
    × (total_of 2 (reserve small_lines shop).1.variants ≡ total_of 2 shop.variants)
reserve_all_example = reserve_all small_lines shop 2 reserve_small

reserve_undone_example :
    (reserved_of 1 (reserve large_lines shop).1.variants ≡ reserved_of 1 shop.variants)
    × (total_of 1 (reserve large_lines shop).1.variants ≡ total_of 1 shop.variants)
reserve_undone_example = reserve_undone large_lines shop 1 shop-IsSound reserve_large

abbrev held_lines : List StockLine
held_lines = line 1 2 ∷ []

held_lines-IsPositive : All IsPositive held_lines
held_lines-IsPositive = ground arith

held_lines_reserved : (j : ℕ) → pos (qty_of j held_lines) ≤ℤ reserved_of j shop.variants
unfolding row
held_lines_reserved j = ground arith

release_counters_example :
    (reserved_of 1 (release held_lines shop).variants
      ≡ reserved_of 1 shop.variants -ℤ pos (qty_of 1 held_lines))
    × (total_of 1 (release held_lines shop).variants ≡ total_of 1 shop.variants)
release_counters_example = release_counters held_lines shop 1 (held_lines_reserved 1)

reserve-IsSound_example : IsSoundStock (reserve large_lines shop).1
reserve-IsSound_example = reserve-IsSound large_lines shop shop-IsSound

release-IsSound_example : IsSoundStock (release held_lines shop)
release-IsSound_example = release-IsSound held_lines shop shop-IsSound

confirm_sale-Returns_example :
    Returns
      (λ (r : List StockLine × Stock).
        IsSoundStock r.1
        × ((j : ℕ)
            → (total_of j r.1.variants +ℤ pos (qty_of j large_lines)
                ≡ total_of j shop.variants +ℤ pos (qty_of j r.0))
              × (reserved_of j r.1.variants +ℤ pos (taken_reserved true (qty_of j large_lines))
                  ≡ reserved_of j shop.variants +ℤ pos (taken_reserved true (qty_of j r.0)))))
      (confirm_sale large_lines true (sale 7) shop)
confirm_sale-Returns_example = confirm_sale-Returns large_lines true (sale 7) shop shop-IsSound

confirm_sale_reserved_example :
    Returns (λ (r : List StockLine × Stock). r.0 ≡ []) (confirm_sale held_lines true (sale 7) shop)
confirm_sale_reserved_example =
    confirm_sale_reserved held_lines (sale 7) shop held_lines-IsPositive held_lines_reserved

restock_cancelled_sale-Returns_example :
    Returns
      (λ (t : Stock).
        IsSoundStock t
        × ((j : ℕ)
            → (reserved_of j t.variants ≡ reserved_of j shop.variants)
              × (total_of j t.variants ≡ total_of j shop.variants +ℤ pos (qty_of j small_lines))))
      (restock_cancelled_sale small_lines movement_opts shop)
restock_cancelled_sale-Returns_example =
    restock_cancelled_sale-Returns small_lines movement_opts shop shop-IsSound small_lines-HasRow

take_for_replacement-Returns_example :
    Returns (IsTaken (line 1 2) shop) (take_for_replacement (line 1 2) movement_opts shop)
take_for_replacement-Returns_example =
    take_for_replacement-Returns (line 1 2) movement_opts shop shop-IsSound (omega arith)

abbrev two_lost : AdjustStockDto
two_lost = record { kind = by_merma; quantity = 2; reason = "rotura" }

abbrev none_left : AdjustStockDto
none_left = record { kind = by_ajuste; quantity = 0; reason = "recuento" }

none_left_refused : is_ok (adjust (shirt ∷ []) 9 1 none_left shop) ≡ false
unfolding adjust plan_adjust row ◌-ℤ◌
none_left_refused = refl

two_lost_accepted : is_ok (adjust (shirt ∷ []) 9 1 two_lost shop) ≡ true
unfolding adjust plan_adjust row ◌-ℤ◌
two_lost_accepted = refl

adjust-IsSound_example : IfOk IsSoundStock (adjust (shirt ∷ []) 9 1 two_lost shop)
adjust-IsSound_example = adjust-IsSound (shirt ∷ []) 9 1 two_lost shop shop-IsSound

-- The row of variant 1 with two units less.
abbrev variant_1_less : ProductVariant
variant_1_less = record variant_1 { stock_total = pos 8 }

plan_two_lost : plan_adjust (shirt ∷ []) 1 two_lost shop ≡ ok variant_1_less
unfolding plan_adjust row ◌-ℤ◌
plan_two_lost = refl

-- The tables after a reservation of the small lines.
abbrev reserved_shop : Stock
reserved_shop = (reserve small_lines shop).1

reserved_shop-row :
    row 1 reserved_shop.variants ≡ some (record variant_1 { stock_reserved = pos 4 })
unfolding reserve sorted update_row row ◌-ℤ◌ ◌+ℤ◌
reserved_shop-row = refl

save_adjust-overwrites_example :
    reserved_of 1 (save_adjust 9 two_lost variant_1_less reserved_shop).variants
    ≡ reserved_of 1 shop.variants
save_adjust-overwrites_example =
    save_adjust-overwrites (shirt ∷ []) 9 1 two_lost shop reserved_shop plan_two_lost
      reserved_shop-row
