-- ===== src/Loaders/Fp8/Blocked.antt =====
-- The vectorized dequantization agrees with the double loop.
use s_llm.Prelude.{
  ℕ, ◌/◌, ◌<◌, ◌≡◌, sym, ap, ◌∙◌, true, List, arith, length, range_from, Result, ok, ◌>>=◌,
}
use native.Mathlib.Nat.{zero-add}
use s_llm.Runtime.Planner.{ceiling}
use s_llm.Loaders.Shard.{item, each_of}
use s_llm.Loaders.Slices.{Tensor}
use s_llm.Loaders.Slices.Reassemble.{AllWide}
use s_llm.Loaders.Fp8.{
  Float8, decode_e4m3fn, block_index, blocks_of, gather, zipped, fits_blocks, row_product, entry,
  dequant_weight_blocked, dequant_weight_blocked_loop,
}
use s_llm.Loaders.Fp8.Index.{
  each_ext, zip_each, item_inside, item-AllWide, block_below, gather_blocks, >>=_assoc,
}

-- A row and its scales, as the double loop multiplies them.
module _ {F : Type 0} (value : Float8 → F) (times : F → F → F) where
  row_product_lem :
      (bw w : ℕ) (row : List ℕ) (scales : List F)
      → 0 < bw
      → length row ≡ w
      → length scales ≡ ceiling w bw
      → row_product value times (blocks_of w bw) bw w row scales
        ≡ each_of (range_from 0 w) (λ j.
          item row j >>= λ b. item scales (j / bw) >>= λ y. ok (times (value (decode_e4m3fn b)) y))
  row_product_lem bw w row scales v h k =
      let product : ℕ → F → Result F = λ b y. ok (times (value (decode_e4m3fn b)) y) in
      ap (λ r. r >>= λ ys. zipped product row ys) (gather_blocks w bw scales v)
      ∙ ap
          (λ n.
            each_of (range_from 0 n) (λ j. item scales (j / bw)) >>= λ ys. zipped product row ys)
          (sym h)
      ∙ zip_each product (λ j. item scales (j / bw)) row row 0
          (λ i. ap (item row) (sym (zero-add i)))
          (λ i below. item_inside scales (i / bw) (
            let short : i / bw < ceiling w bw = block_below w bw i v (omega (arith, below, h)) in
            omega (arith, short, k)))
      ∙ ap
          (λ n.
            each_of (range_from 0 n)
              (λ j. item row j >>= λ b. item scales (j / bw) >>= λ y. product b y))
          h

  -- On a rectangular weight and a rectangular scale, with block sizes above 0 and as many scales as there
  -- are blocks, the vectorized dequantization returns what the double loop over the elements returns.
  pub dequant_weight_blocked-loop :
      (fp8 : Tensor ℕ) (scale : Tensor F) (bh bw : ℕ)
      → 0 < bh
      → 0 < bw
      → AllWide fp8.width fp8.rows
      → AllWide scale.width scale.rows
      → fits_blocks (length fp8.rows) fp8.width bh bw scale ≡ true
      → dequant_weight_blocked value times fp8 scale bh bw
        ≡ dequant_weight_blocked_loop value times fp8 scale bh bw
  unfolding dequant_weight_blocked dequant_weight_blocked_loop
  dequant_weight_blocked-loop fp8 scale bh bw vh vw wide even fits =
      let (tall, broad) = fits_both fits in
      rw fits (
        sym (
          >>=_assoc
            (gather (block_index (blocks_of (length fp8.rows) bh) bh (length fp8.rows)) scale.rows)
            (zipped (row_product value times (blocks_of fp8.width bw) bw fp8.width) fp8.rows)
            (λ rows. ok (record { rows = rows; width = fp8.width })))
        ∙ ap (λ r. r >>= λ rows. ok (record { rows = rows; width = fp8.width }))
            (all_rows tall broad))
    where
      fits_both :
          fits_blocks (length fp8.rows) fp8.width bh bw scale ≡ true
          → (length scale.rows ≡ ceiling (length fp8.rows) bh)
            × (scale.width ≡ ceiling fp8.width bw)
      fits_both e = ground (arith, e)

      one_row :
          length scale.rows ≡ ceiling (length fp8.rows) bh
          → scale.width ≡ ceiling fp8.width bw
          → (i : ℕ) → i < length fp8.rows
          → (item fp8.rows i >>= λ row. item scale.rows (i / bh) >>= λ scales.
              row_product value times (blocks_of fp8.width bw) bw fp8.width row scales)
            ≡ each_of (range_from 0 fp8.width) (λ j. entry fp8 i j >>= λ b.
                entry scale (i / bh) (j / bw) >>= λ y. ok (times (value (decode_e4m3fn b)) y))
      one_row tall broad i below =
          let (row, e) = item_inside fp8.rows i below in
          let short : i / bh < ceiling (length fp8.rows) bh =
            block_below (length fp8.rows) bh i vh below in
          let (scales, es) = item_inside scale.rows (i / bh) (omega (arith, short, tall)) in
          rw (e, es)
            (row_product_lem bw fp8.width row scales vw
              (item-AllWide fp8.width fp8.rows i row wide e)
              (item-AllWide scale.width scale.rows (i / bh) scales even es ∙ broad))

      all_rows :
          length scale.rows ≡ ceiling (length fp8.rows) bh
          → scale.width ≡ ceiling fp8.width bw
          → (gather (block_index (blocks_of (length fp8.rows) bh) bh (length fp8.rows)) scale.rows
              >>= zipped (row_product value times (blocks_of fp8.width bw) bw fp8.width) fp8.rows)
            ≡ each_of (range_from 0 (length fp8.rows)) (λ i. each_of (range_from 0 fp8.width) (λ j.
              entry fp8 i j >>= λ b.
              entry scale (i / bh) (j / bw) >>= λ y. ok (times (value (decode_e4m3fn b)) y)))
      all_rows tall broad =
          ap
            (λ r. r >>= λ ss.
              zipped (row_product value times (blocks_of fp8.width bw) bw fp8.width) fp8.rows ss)
            (gather_blocks (length fp8.rows) bh scale.rows vh)
          ∙ zip_each (row_product value times (blocks_of fp8.width bw) bw fp8.width)
              (λ i. item scale.rows (i / bh)) fp8.rows fp8.rows 0
              (λ i. ap (item fp8.rows) (sym (zero-add i)))
              (λ i below. item_inside scale.rows (i / bh) (
                let short : i / bh < ceiling (length fp8.rows) bh =
                  block_below (length fp8.rows) bh i vh (omega (arith, below)) in
                omega (arith, short, tall)))
          ∙ each_ext _ _ (length fp8.rows) 0
              (λ i below. one_row tall broad i (omega (arith, below)))
