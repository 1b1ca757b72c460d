-- ===== src/Stock/Movements.antt =====
-- What `confirmSale`, `restockCancelledSale` and `takeForReplacement` return: none of them throws
-- where the rows exist, and none of them oversells.
use e_commerce_titulo_interm.Common.{
  ℕ, Bool, true, false, some, List, [], ◌≡◌, ◌<◌, refl, arith, pos, ◌+ℤ◌, ◌-ℤ◌, ◌≤ℤ◌, -ℤ_parts, ok,
  All, Option-cases, inl, inr, Returns, Returns-intro, is_some,
}
use e_commerce_titulo_interm.Stock.Rows.{ProductVariant, cambio, Reason, Stock}
use e_commerce_titulo_interm.Stock.Reservation.{
  StockLine, MovementOpts, has_available, drop_total, confirm_sale, restock_cancelled_sale,
  take_row, take_for_replacement, sell_row,
}
use e_commerce_titulo_interm.Stock.RowLaws.{is_some-update_row}
use e_commerce_titulo_interm.Stock.Counters.{
  reserved_of, total_of, line_qty, qty_of, take_row_counters,
}
use e_commerce_titulo_interm.Stock.Selling.{sell_row_lost, record_movement_there}
use e_commerce_titulo_interm.Stock.Steps.{record_movement_ok}
use e_commerce_titulo_interm.Stock.Presence.{HasRow, restock_cancelled_sale_total}
use e_commerce_titulo_interm.Stock.Restocking.{restock_cancelled_sale_counters}
use e_commerce_titulo_interm.Stock.Selling.{
  confirm_sale_total, taken_reserved, confirm_sale_counters,
}
use e_commerce_titulo_interm.Stock.Availability.{IsPositive, confirm_sale_covered}
use e_commerce_titulo_interm.Stock.Soundness.{
  IsSoundStock, confirm_sale-IsSound, restock_cancelled_sale-IsSound, take_row-IsSound,
}

module _ (lines : List StockLine) (active : Bool) (reason : Reason) (s : Stock) where
  -- On a sound stock a firm sale never throws; the stock stays sound, the total of each variant
  -- falls by exactly the units of the lines that are no shortage, and the reserved counter by as
  -- much if the reservation was active and by nothing if it was not.
  pub confirm_sale-Returns :
      IsSoundStock s
      → Returns
          (λ (r : List StockLine × Stock).
            IsSoundStock r.1
            × ((j : ℕ)
                → (total_of j r.1.variants +ℤ pos (qty_of j lines)
                    ≡ total_of j s.variants +ℤ pos (qty_of j r.0))
                  × (reserved_of j r.1.variants +ℤ pos (taken_reserved active (qty_of j lines))
                      ≡ reserved_of j s.variants +ℤ pos (taken_reserved active (qty_of j r.0)))))
          (confirm_sale lines active reason s)
  confirm_sale-Returns sound =
      let (r, e) = confirm_sale_total lines active reason s in
      Returns-intro _ _ e (
        confirm_sale-IsSound lines active reason s sound e,
        λ j. confirm_sale_counters lines active reason s j e,
      )

-- A sale under an active reservation whose lines are of at least one unit and are covered by the
-- reserved counters goes through without a shortage.
pub confirm_sale_reserved :
    (lines : List StockLine) (reason : Reason) (s : Stock)
    → All IsPositive lines
    → ((j : ℕ) → pos (qty_of j lines) ≤ℤ reserved_of j s.variants)
    → Returns (λ (r : List StockLine × Stock). r.0 ≡ []) (confirm_sale lines true reason s)
confirm_sale_reserved lines reason s positive covered =
    let (r, e) = confirm_sale_total lines true reason s in
    Returns-intro (λ (r : List StockLine × Stock). r.0 ≡ []) _ e
      (confirm_sale_covered lines reason s positive covered e)

-- On a sound stock, putting a cancelled sale back never throws if the variants have rows; it
-- raises the total of each variant by exactly its units, leaves what is reserved, and keeps the
-- stock sound.
pub restock_cancelled_sale-Returns :
    (lines : List StockLine) (opts : MovementOpts) (s : Stock)
    → IsSoundStock s
    → All (HasRow s.variants) lines
    → Returns
        (λ (t : Stock).
          IsSoundStock t
          × ((j : ℕ)
              → (reserved_of j t.variants ≡ reserved_of j s.variants)
                × (total_of j t.variants ≡ total_of j s.variants +ℤ pos (qty_of j lines))))
        (restock_cancelled_sale lines opts s)
restock_cancelled_sale-Returns lines opts s sound present =
    let (t, e) = restock_cancelled_sale_total lines opts s present in
    Returns-intro _ _ e (
      restock_cancelled_sale-IsSound lines opts s sound e,
      λ j. restock_cancelled_sale_counters j lines opts s e,
    )

-- What can be sold of the variant of a line: the total less what is reserved.
abbrev pub Fits : StockLine → Stock → Type 0
Fits l s = pos l.quantity ≤ℤ total_of l.variant_id s.variants -ℤ reserved_of l.variant_id s.variants

-- The replacement was taken out of what is available, or nothing was touched.
abbrev pub IsTaken : StockLine → Stock → Bool × Stock → Type 0
IsTaken l s (true, t) =
    IsSoundStock t
    × Fits l s
    × ((j : ℕ)
        → (reserved_of j t.variants ≡ reserved_of j s.variants)
          × (total_of j t.variants ≡ total_of j s.variants -ℤ pos (line_qty j l)))
IsTaken l s (false, t) = (t ≡ s) × (¬ Fits l s)

take_row_fits :
    (l : StockLine) (vs : List ProductVariant)
    → 0 < l.quantity
    → is_some (take_row l vs) ≡ true
    → pos l.quantity ≤ℤ total_of l.variant_id vs -ℤ reserved_of l.variant_id vs
unfolding take_row
take_row_fits l vs positive taken =
    ground
      (arith, is_some-update_row l.variant_id (has_available l.quantity) (drop_total l.quantity) vs)

take_row_short :
    (l : StockLine) (vs : List ProductVariant)
    → 0 < l.quantity
    → is_some (take_row l vs) ≡ false
    → ¬ (pos l.quantity ≤ℤ total_of l.variant_id vs -ℤ reserved_of l.variant_id vs)
unfolding take_row
take_row_short l vs positive short fits = ground (
  arith,
  is_some-update_row l.variant_id (has_available l.quantity) (drop_total l.quantity) vs,
  -ℤ_parts (pos 0) (pos 0),
)

take_row_written :
    (l : StockLine) (opts : MovementOpts) (s : Stock) {ws : List ProductVariant}
    → take_row l s.variants ≡ some ws
    → (t : Stock) × (take_for_replacement l opts s ≡ ok (true, t)) × (t.variants ≡ ws)
unfolding take_for_replacement sell_row
take_row_written l opts s {ws} taken =
    let moved : Stock = record s { variants = ws } in
    let (t, recorded) =
      record_movement_there l cambio opts moved (sell_row_lost l s.variants false taken) in
    (
      t,
      rw (taken, take_for_replacement, recorded) refl,
      record_movement_ok l cambio opts moved recorded,
    )

-- On a sound stock and a line of at least one unit, takeForReplacement never throws, takes the
-- units exactly when they are available, in which case only the total of the variant falls, by
-- the units, and otherwise touches nothing.
pub take_for_replacement-Returns :
    (l : StockLine) (opts : MovementOpts) (s : Stock)
    → IsSoundStock s
    → 0 < l.quantity
    → Returns (IsTaken l s) (take_for_replacement l opts s)
unfolding take_for_replacement
take_for_replacement-Returns l opts s sound positive = elim (Option-cases (take_row l s.variants)) [
  | inl short ↦
      rw (short, take_for_replacement) (refl, take_row_short l s.variants positive (rw short refl))
  | inr (ws, taken) ↦
      let (t, e, rows) = take_row_written l opts s taken in
      Returns-intro (IsTaken l s) _ e (
        rw rows (take_row-IsSound l s.variants sound taken),
        take_row_fits l s.variants positive (rw taken refl),
        λ j. rw rows (take_row_counters j l s.variants taken),
      )
]
