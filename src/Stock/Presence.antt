-- ===== src/Stock/Presence.antt =====
-- No stock operation removes a row, so what `restockCancelledSale` looks up is there.
use e_commerce_titulo_interm.Common.{
  ℕ, true, List, [], ◌∷◌, ◌≡◌, ◌≢◌, refl, ◌∙◌, arith, ap, ℤ, pos, is_some, All, Option-cases, inl,
  inr, ok, err, Result-cases, ◌>>=◌, leb, if-cases,
}
use e_commerce_titulo_interm.Errors.{ServiceError}
use e_commerce_titulo_interm.Stock.Rows.{ProductVariant, StockMovementType, cancelacion, Stock, row}
use e_commerce_titulo_interm.Stock.Reservation.{
  StockLine, MovementOpts, add_total, drop_reserved, insert_line, sorted, record_movement, move_row,
  move, release_row, release_rows, release, restock_lines, restock_cancelled_sale,
}
use e_commerce_titulo_interm.Stock.RowLaws.{row-or_same}
use e_commerce_titulo_interm.Stock.Steps.{record_movement_ok}

-- The variant of a line has a row.
abbrev pub HasRow : List ProductVariant → StockLine → Type 0
HasRow vs l = is_some (row l.variant_id vs) ≡ true

module _ (j : ℕ) where
  move_row_present :
      (id : ℕ) (delta : ℤ) (vs : List ProductVariant)
      → is_some (row j (move_row id delta vs)) ≡ is_some (row j vs)
  unfolding move_row
  move_row_present id delta vs = ground (arith, row-or_same id (add_total delta) (λ v. refl) j vs)

  release_rows_present :
      (ls : List StockLine) (vs : List ProductVariant)
      → is_some (row j (release_rows ls vs)) ≡ is_some (row j vs)
  unfolding release_rows release_row
  release_rows_present [] vs = refl
  release_rows_present (l ∷ ls) vs = ground (
    arith,
    row-or_same l.variant_id (drop_reserved l.quantity) (λ v. refl) j vs,
    release_rows_present ls (release_row l vs),
  )

  -- A release removes no row.
  pub release_present :
      (lines : List StockLine) (s : Stock)
      → is_some (row j (release lines s).variants) ≡ is_some (row j s.variants)
  unfolding release
  release_present lines s = release_rows_present (sorted lines) s.variants

-- What keeps the rows keeps the rows of lines.
pub HasRow-map :
    (vs ws : List ProductVariant)
    → ((j : ℕ) → is_some (row j ws) ≡ is_some (row j vs))
    → (ls : List StockLine) → All (HasRow vs) ls
    → All (HasRow ws) ls
HasRow-map vs ws same [] h = tt
HasRow-map vs ws same (l ∷ ls) h = (same l.variant_id ∙ h.0, HasRow-map vs ws same ls h.1)

-- The only exception of a movement is a missing row.
move_lost :
    (l : StockLine) (kind : StockMovementType) (opts : MovementOpts) (s : Stock) {x : ServiceError}
    → HasRow s.variants l
    → record_movement l kind opts s ≢ err x
unfolding record_movement
move_lost l kind opts s there e = elim (Option-cases (row l.variant_id s.variants)) [
  | inl missing ↦ ground arith
  | inr (v, found) ↦ ground arith
]

-- A move of a line whose row is there does not throw, and leaves the rows there.
move_present :
    (l : StockLine) (delta : ℤ) (kind : StockMovementType) (opts : MovementOpts) (s : Stock)
    → HasRow s.variants l
    → (t : Stock) × (move l delta kind opts s ≡ ok t)
      × ((j : ℕ) → is_some (row j t.variants) ≡ is_some (row j s.variants))
unfolding move
move_present l delta kind opts s there =
    let moved = record s { variants = move_row l.variant_id delta s.variants } in
    elim (Result-cases (record_movement l kind opts moved)) [
      | inl (t, e) ↦ (
        t,
        e,
        λ j.
            ap (λ vs. is_some (row j vs)) (record_movement_ok l kind opts moved e)
            ∙ move_row_present j l.variant_id delta s.variants,
      )
      | inr (x, e) ↦ absurd (
          move_lost l kind opts moved
            (move_row_present l.variant_id l.variant_id delta s.variants ∙ there) e)
    ]

insert_line-All :
    (P : StockLine → Type 0) (l : StockLine) (ls : List StockLine)
    → P l
    → All P ls
    → All P (insert_line l ls)
unfolding insert_line
insert_line-All P l [] p h = (p, tt)
insert_line-All P l (m ∷ ms) p h =
    if-cases (All P) (leb l.variant_id m.variant_id) (λ first. (p, h))
      (λ later. (h.0, insert_line-All P l ms p h.1))

-- What holds of every line holds of the sorted lines.
pub sorted-All : (P : StockLine → Type 0) (ls : List StockLine) → All P ls → All P (sorted ls)
unfolding sorted
sorted-All P [] h = tt
sorted-All P (l ∷ ls) h = insert_line-All P l (sorted ls) h.0 (sorted-All P ls h.1)

restock_lines_total :
    (ls : List StockLine) (opts : MovementOpts) (s : Stock)
    → All (HasRow s.variants) ls
    → (t : Stock) × (restock_lines ls opts s ≡ ok t)
unfolding restock_lines
restock_lines_total [] opts s h = (s, refl)
restock_lines_total (l ∷ ls) opts s h =
    let (u, moved, same) = move_present l (pos l.quantity) cancelacion opts s h.0 in
    rw (moved, ◌>>=◌) (restock_lines_total ls opts u (HasRow-map s.variants u.variants same ls h.1))

-- Putting a cancelled sale back does not throw while its variants have rows.
pub restock_cancelled_sale_total :
    (lines : List StockLine) (opts : MovementOpts) (s : Stock)
    → All (HasRow s.variants) lines
    → (t : Stock) × (restock_cancelled_sale lines opts s ≡ ok t)
unfolding restock_cancelled_sale
restock_cancelled_sale_total lines opts s h =
    restock_lines_total (sorted lines) opts s (sorted-All (HasRow s.variants) lines h)
