-- ===== src/Stock/Reserving.antt =====
-- `reserve` is all or nothing, and `release` undoes it, counter by counter.
use e_commerce_titulo_interm.Common.{
  ℕ, List, [], ◌∷◌, ◌++◌, ◌≡◌, refl, ◌∙◌, arith, ℤ, pos, ◌+ℤ◌, ◌-ℤ◌, ◌≤ℤ◌, sum-append, All,
  int_laws, parts, ◌≢◌, Option-cases, inl, inr,
}
use e_commerce_titulo_interm.Stock.Rows.{ProductVariant, Stock, row}
use e_commerce_titulo_interm.Stock.Reservation.{
  StockLine, reserved_all, short_of, sorted, release_row, release_rows, release, reserve_row,
  reserve_rows, reserve,
}
use e_commerce_titulo_interm.Stock.Steps.{reserve_rows_short, reserve_rows_taken}
use e_commerce_titulo_interm.Stock.Counters.{
  reserved_of, total_of, line_qty, qty_of, qty_of-sorted, reserve_row_counters,
  release_row_counters,
}
use e_commerce_titulo_interm.Stock.Soundness.{IsSound, IsSoundStock}

-- In a sound table the counters of each variant are in order.
pub sound_counters :
    (j : ℕ) (vs : List ProductVariant)
    → All IsSound vs
    → (pos 0 ≤ℤ reserved_of j vs) × (reserved_of j vs ≤ℤ total_of j vs)
unfolding row
sound_counters j [] h = (omega arith, omega arith)
sound_counters j (v ∷ vs) h = ground (arith, sound_counters j vs h.1)

module _ (j : ℕ) where
  pub release_rows_counters :
      (ls : List StockLine) (vs : List ProductVariant)
      → pos (qty_of j ls) ≤ℤ reserved_of j vs
      → (reserved_of j (release_rows ls vs) ≡ reserved_of j vs -ℤ pos (qty_of j ls))
        × (total_of j (release_rows ls vs) ≡ total_of j vs)
  unfolding release_rows
  release_rows_counters [] vs enough = (omega int_laws, refl)
  release_rows_counters (l ∷ ls) vs enough =
      let one = release_row_counters j l vs (omega arith) in
      let rest = release_rows_counters ls (release_row l vs) (omega (int_laws, parts one.0)) in
      (omega (int_laws, parts one.0, parts rest.0), rest.1 ∙ one.1)

  reserve_rows_counters :
      (ls reserved : List StockLine) (vs : List ProductVariant)
      → (reserve_rows ls reserved vs).0 ≡ reserved_all
      → let ws = (reserve_rows ls reserved vs).1 in
        (reserved_of j ws ≡ reserved_of j vs +ℤ pos (qty_of j ls)) × (total_of j ws ≡ total_of j vs)
  reserve_rows_counters [] reserved vs h = unfold reserve_rows in (omega int_laws, refl)
  reserve_rows_counters (l ∷ ls) reserved vs h = elim (Option-cases (reserve_row l vs)) [
    | inl e ↦ cc (h, reserve_rows_short l ls reserved vs e)
    | inr (ws, e) ↦
        let step = reserve_rows_taken l ls reserved vs e in
        let one = reserve_row_counters j l vs e in
        let rest = reserve_rows_counters ls (reserved ++ (l ∷ [])) ws (rw step at h) in
        rw step (omega (int_laws, parts one.0, parts rest.0), rest.1 ∙ one.1)
  ]

  -- A batch with no line left is not short.
  reserve_rows_done :
      (reserved : List StockLine) (vs : List ProductVariant) {id : ℕ}
      → (reserve_rows [] reserved vs).0 ≢ short_of id
  unfolding reserve_rows
  reserve_rows_done reserved vs h = cc

  reserve_rows_undone :
      (ls reserved : List StockLine) (vs : List ProductVariant) (before : ℤ) {id : ℕ}
      → (reserve_rows ls reserved vs).0 ≡ short_of id
      → pos 0 ≤ℤ before
      → reserved_of j vs ≡ before +ℤ pos (qty_of j reserved)
      → let ws = (reserve_rows ls reserved vs).1 in
        (reserved_of j ws ≡ before) × (total_of j ws ≡ total_of j vs)
  reserve_rows_undone [] reserved vs before h nonneg taken =
      absurd (reserve_rows_done reserved vs h)
  reserve_rows_undone (l ∷ ls) reserved vs before h nonneg taken =
      elim (Option-cases (reserve_row l vs)) [
        | inl e ↦
            let sums = qty_of-sorted j reserved in
            let undo =
              release_rows_counters (sorted reserved) vs (omega (int_laws, parts taken, sums)) in
            rw (reserve_rows_short l ls reserved vs e)
              (omega (int_laws, parts undo.0, parts taken, sums), undo.1)
        | inr (ws, e) ↦
            let step = reserve_rows_taken l ls reserved vs e in
            let one = reserve_row_counters j l vs e in
            let rest =
              reserve_rows_undone ls (reserved ++ (l ∷ [])) ws before (rw step at h) nonneg (
                omega (
                  int_laws,
                  parts one.0,
                  parts taken,
                  sum-append (line_qty j) reserved (l ∷ []),
                )) in
            rw step (rest.0, rest.1 ∙ one.1)
      ]

-- A batch that is reserved raises the reserved counter of each variant by the units that the
-- lines ask of it, and leaves every total.
pub reserve_all :
    (lines : List StockLine) (s : Stock) (j : ℕ)
    → (reserve lines s).0 ≡ reserved_all
    → let t = (reserve lines s).1 in
      (reserved_of j t.variants ≡ reserved_of j s.variants +ℤ pos (qty_of j lines))
      × (total_of j t.variants ≡ total_of j s.variants)
unfolding reserve
reserve_all lines s j h =
    rw (← qty_of-sorted j lines) (reserve_rows_counters j (sorted lines) [] s.variants h)

-- When a batch falls short on a sound stock, reserve undoes it: both counters of every variant
-- are what they were.
pub reserve_undone :
    (lines : List StockLine) (s : Stock) (j : ℕ) {id : ℕ}
    → IsSoundStock s
    → (reserve lines s).0 ≡ short_of id
    → let t = (reserve lines s).1 in
      (reserved_of j t.variants ≡ reserved_of j s.variants)
      × (total_of j t.variants ≡ total_of j s.variants)
unfolding reserve
reserve_undone lines s j sound h =
    reserve_rows_undone j (sorted lines) [] s.variants (reserved_of j s.variants) h
      ((sound_counters j s.variants sound).0) (omega int_laws)

-- Releasing lines that are reserved lowers the reserved counter of each variant by exactly its
-- units, and leaves every total.
pub release_counters :
    (lines : List StockLine) (s : Stock) (j : ℕ)
    → pos (qty_of j lines) ≤ℤ reserved_of j s.variants
    → let t = release lines s in
      (reserved_of j t.variants ≡ reserved_of j s.variants -ℤ pos (qty_of j lines))
      × (total_of j t.variants ≡ total_of j s.variants)
unfolding release
release_counters lines s j enough =
    let sums = qty_of-sorted j lines in
    rw (← sums) (release_rows_counters j (sorted lines) s.variants (omega (arith, sums)))
