-- ===== src/Stock/Adjusted.antt =====
-- The adjustments of the administrator: they keep the stock sound, and they write the row as it was
-- read.
use e_commerce_titulo_interm.Common.{
  ℕ, ◌≡◌, sym, ap, ◌∙◌, subst, inl, inr, false, some, List, [], ◌∷◌, not, ◌==◌, ==_iff, Bool-cases,
  Option-cases, ℤ, ltb_ℤ, ok, throw_if, throw_if-IfOk, IfOk, IfOk-bind, IfOk-after, update_key, All,
  All-update_key, arith,
}
use mathlib.Core.Option.{some-injective}
use e_commerce_titulo_interm.Errors.{
  variant_not_found, product_removed, variant_removed, total_below_reserved,
}
use e_commerce_titulo_interm.Stock.Rows.{Product, ProductVariant, Stock, row}
use e_commerce_titulo_interm.Stock.Counters.{reserved_of, reserved_in}
use e_commerce_titulo_interm.Stock.Soundness.{IsSound, IsSoundStock}
use e_commerce_titulo_interm.Stock.Adjusting.{
  AdjustStockDto, compute_new_total, or_throw, product_of, variant_or_fail, plan_adjust,
  variant_key, save_adjust, adjust,
}

-- What holds of the row that is read, whenever there is one.
variant_or_fail-IfOk :
    (P : ProductVariant → Type 0) (id : ℕ) (variants : List ProductVariant)
    → ((v : ProductVariant) → row id variants ≡ some v → P v)
    → IfOk P (variant_or_fail id variants)
variant_or_fail-IfOk P id variants h = elim (Option-cases (row id variants)) [
  | inl e ↦ subst (λ o. IfOk P (or_throw variant_not_found o)) (sym e) tt
  | inr (v, e) ↦ subst (λ o. IfOk P (or_throw variant_not_found o)) (sym e) (h v e)
]

-- What the plan is, if it is made: the row that is read, with a total that covers what is reserved.
plan_adjust-IfOk :
    (Q : ProductVariant → Type 0) (products : List Product) (variant_id : ℕ) (dto : AdjustStockDto)
    (s : Stock)
    → ((v : ProductVariant) (total : ℤ)
        → row variant_id s.variants ≡ some v
        → ltb_ℤ total v.stock_reserved ≡ false
        → Q (record v { stock_total = total }))
    → IfOk Q (plan_adjust products variant_id dto s)
unfolding plan_adjust
plan_adjust-IfOk Q products variant_id dto s h =
    IfOk-bind (λ v. row variant_id s.variants ≡ some v) Q (variant_or_fail variant_id s.variants) _
      (variant_or_fail-IfOk (λ v. row variant_id s.variants ≡ some v) variant_id s.variants
        (λ v e. e))
      (λ v read.
        let total = compute_new_total v.stock_total dto.kind dto.quantity in
        let short = ltb_ℤ total v.stock_reserved in
        let refusal = total_below_reserved total v.stock_reserved in
        IfOk-after Q (product_of products v) _ (λ p.
          IfOk-after Q (throw_if (not p.is_active) product_removed) _ (λ done.
            IfOk-after Q (throw_if (not v.is_active) variant_removed) _ (λ done.
              IfOk-bind (λ done. short ≡ false) Q (throw_if short refusal) _
                (throw_if-IfOk short refusal) (λ done covers. h v total read covers)))))

row-IsSound :
    (id : ℕ) (variants : List ProductVariant) (v : ProductVariant)
    → All IsSound variants
    → row id variants ≡ some v
    → IsSound v
unfolding row
row-IsSound id [] v h e = cc
row-IsSound id (w ∷ ws) v h e = elim (Bool-cases (w.id == id)) [
  | inl same ↦ subst IsSound (some-injective w v (rw same at e)) h.0
  | inr other ↦ row-IsSound id ws v h.1 (rw other at e)
]

plan_adjust-IsSound :
    (products : List Product) (variant_id : ℕ) (dto : AdjustStockDto) (s : Stock)
    → IsSoundStock s
    → IfOk IsSound (plan_adjust products variant_id dto s)
plan_adjust-IsSound products variant_id dto s sound =
    plan_adjust-IfOk IsSound products variant_id dto s (λ v total read covers.
      let h = row-IsSound variant_id s.variants v sound read in
      record { reserved_nonneg = h.reserved_nonneg; within_total = ground (arith, covers) })

-- If of every variant the reserved counter is not negative and not more than the total, the same
-- holds after adjust, if it returns, with nothing between its read and its transaction.
pub adjust-IsSound :
    (products : List Product) (actor_id variant_id : ℕ) (dto : AdjustStockDto) (s : Stock)
    → IsSoundStock s
    → IfOk IsSoundStock (adjust products actor_id variant_id dto s)
unfolding adjust save_adjust
adjust-IsSound products actor_id variant_id dto s sound =
    IfOk-bind IsSound IsSoundStock (plan_adjust products variant_id dto s) _
      (plan_adjust-IsSound products variant_id dto s sound)
      (λ saved h.
        All-update_key variant_key IsSound saved.id (λ old. saved) s.variants (λ y same old. h)
          sound)

row-update_key :
    (id : ℕ) (saved : ProductVariant) (variants : List ProductVariant) {w : ProductVariant}
    → row id variants ≡ some w
    → saved.id ≡ id
    → row id (update_key variant_key saved.id (λ old. saved) variants) ≡ some saved
unfolding row update_key
row-update_key id saved [] e same = cc
row-update_key id saved (v ∷ vs) {w} e same =
    ground (arith, row-update_key id saved vs {w = w}, ==_iff v.id id)

row_key :
    (id : ℕ) (variants : List ProductVariant) {v : ProductVariant}
    → row id variants ≡ some v
    → v.id ≡ id
unfolding row
row_key id [] e = cc
row_key id (w ∷ ws) {v} e = ground (arith, row_key id ws {v = v}, ==_iff w.id id)

-- If adjust passes its checks on the tables that it reads, and the variant has a row in the later
-- tables on which its transaction runs, the transaction leaves the variant with the reserved
-- counter of the tables that were read, whatever the later tables had.
pub save_adjust-overwrites :
    (products : List Product) (actor_id variant_id : ℕ) (dto : AdjustStockDto) (s later : Stock)
    {saved w : ProductVariant}
    → plan_adjust products variant_id dto s ≡ ok saved
    → row variant_id later.variants ≡ some w
    → reserved_of variant_id (save_adjust actor_id dto saved later).variants
      ≡ reserved_of variant_id s.variants
unfolding save_adjust
save_adjust-overwrites products actor_id variant_id dto s later {saved} planned there =
    let AsRead : ProductVariant → Type 0 =
      λ v. (v.id ≡ variant_id) × (reserved_of variant_id s.variants ≡ v.stock_reserved) in
    let h : AsRead saved = subst (IfOk AsRead) planned (
      plan_adjust-IfOk AsRead products variant_id dto s
        (λ v total read covers. (row_key variant_id s.variants read, ap reserved_in read))) in
    let written = row-update_key variant_id saved later.variants there h.0 in
    ap reserved_in written ∙ sym h.1
