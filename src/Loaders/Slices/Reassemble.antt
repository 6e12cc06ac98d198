-- ===== src/Loaders/Slices/Reassemble.antt =====
-- A tensor that passes the validation is cut into shards that give it back.
use Prim.Native.String.{String}
use s_llm.Prelude.{
  ℕ, zero, suc, ◌+◌, ◌-◌, ◌*◌, ◌/◌, ◌≤◌, ◌<◌, ◌≡◌, refl, sym, ap, ◌∙◌, Bool, false, some, List, [],
  ◌∷◌, map, arith, ltb, ◌==◌, length, take, drop, range_from, ok, >>=-eq-ok, length-range_from,
}
use native.Mathlib.Nat.{zero-add}
use mathlib.Core.List.{append-nil}
use s_llm.Loaders.Shard.{
  TensorPlan, replicated, vocab, split_out, split_in, experts, Sharding, Range, even_ranges, singly,
  total_size, plan_ranges, is_whole, validate_tensor, rank_ranges, shape_ranges-plan_ranges,
}
use s_llm.Loaders.Shard.Ranges.{
  rank_segments, AllDivide, item-map, plan_ranges-vocab, plan_ranges-split_in,
  plan_ranges-split_out,
}
use s_llm.Loaders.Slices.{
  Tensor, slice, cut_rows, cut_cols, cut_all, shard_plan, shard, concat_rows, concat_cols, scatter,
  with_position, scatter_shards, full_from_plan, full_from_shards,
}
use s_llm.Loaders.Slices.Rows.{even_rows, concat-even_rows, take_all}
use s_llm.Loaders.Slices.Columns.{length-map, map_ext, even_cols, concat-even_cols}
use s_llm.Loaders.Slices.Scatter.{mixed, scatter_lem}

-- Every row has the tensor's width.
abbrev pub AllWide {ℓ} : {A : Type ℓ} → ℕ → List (List A) → Type 0
AllWide w [] = Unit
AllWide w (row ∷ rows) = (length row ≡ w) × AllWide w rows

drop_all {ℓ} : {A : Type ℓ} (n : ℕ) (xs : List A) → length xs ≤ n → drop n xs ≡ []
drop_all zero [] h = refl
drop_all zero (x ∷ xs) h = absurd (omega (arith, h))
drop_all (suc n) [] h = refl
drop_all (suc n) (x ∷ xs) h = drop_all n xs (omega (arith, h))

pub map-map {ℓ} :
    {A B C : Type ℓ} (g : B → C) (f : A → B) (xs : List A)
    → map g (map f xs) ≡ map (λ x. g (f x)) xs
map-map g f [] = refl
map-map g f (x ∷ xs) = ap (◌∷◌ (g (f x))) (map-map g f xs)

slice_whole {ℓ} : {B : Type ℓ} (n : ℕ) (xs : List B) → length xs ≡ n → slice 0 n xs ≡ xs
slice_whole n xs h = take_all (n - 0) xs (omega (arith, h))

wide_rows {ℓ} :
    {A : Type ℓ} (n : ℕ) (rows : List (List A)) → AllWide n rows → map (slice 0 n) rows ≡ rows
wide_rows n [] h = refl
wide_rows n (row ∷ rows) (h, hs) = rw (slice_whole n row h, wide_rows n rows hs) refl

module _ {A : Type 0} (t : Tensor A) where
  -- The even slices of all ranks give the tensor.
  whole_rows :
      (tp per : ℕ) → 0 < tp → tp * per ≡ length t.rows → concat_rows (even_rows t per 0 tp) ≡ ok t
  whole_rows zero per v h = absurd (omega (arith, v))
  whole_rows (suc n) per v h =
      let start : 0 * per ≡ 0 = omega arith in
      let end : (0 + suc n) * per ≡ length t.rows = ap (λ k. k * per) (zero-add (suc n)) ∙ h in
      let bounds : (0 * per, (0 + suc n) * per) ≡ (0, length t.rows) = rw (start, end) refl in
      concat-even_rows t per n 0
      ∙ ap (λ (x : ℕ × ℕ). ok (record { rows = slice x.0 x.1 t.rows; width = t.width })) bounds
      ∙ ap (λ xs. ok (record { rows = xs; width = t.width }))
          (slice_whole (length t.rows) t.rows refl)

  whole_cols :
      (tp per : ℕ)
      → 0 < tp
      → tp * per ≡ t.width
      → AllWide t.width t.rows
      → concat_cols (even_cols t per 0 tp) ≡ ok t
  whole_cols zero per v h wide = absurd (omega (arith, v))
  whole_cols (suc n) per v h wide =
      let start : 0 * per ≡ 0 = omega arith in
      let end : (0 + suc n) * per ≡ t.width = ap (λ k. k * per) (zero-add (suc n)) ∙ h in
      let bounds : (0 * per, ((0 + suc n) * per, suc n * per)) ≡ (0, (t.width, t.width)) =
        rw (start, end, h) refl in
      concat-even_cols t per n 0
      ∙ ap (λ (x : ℕ × (ℕ × ℕ)). ok (record { rows = map (slice x.0 x.1.0) t.rows; width = x.1.1 }))
          bounds
      ∙ ap (λ xs. ok (record { rows = xs; width = t.width })) (wide_rows t.width t.rows wide)

  -- The shards of the ranks for the given segments.
  abbrev row_shards : ℕ → List (ℕ × ℕ) → List (Tensor A)
  row_shards tp segs = map (λ q. cut_rows t (rank_segments tp q 0 segs)) (range_from 0 tp)

  pairs_start : (f : ℕ → Tensor A) (rs : List ℕ) → with_position (map f rs) ≡ map (λ q. (f q, 0)) rs
  pairs_start f rs = map-map (λ (u : Tensor A). (u, 0)) f rs

  scatter_whole :
      (s : Sharding) (segs : List (ℕ × ℕ)) (blank : List (List A))
      → 0 < s.tp
      → total_size segs ≡ length t.rows
      → AllDivide s.tp segs
      → length blank ≤ length t.rows
      → scatter_shards s segs (row_shards s.tp segs) blank ≡ ok t
  scatter_whole s segs blank v total divide few =
      let long : length (row_shards s.tp segs) ≡ s.tp =
        length-map _ (range_from 0 s.tp) ∙ length-range_from 0 s.tp in
      let enough : ltb (length (row_shards s.tp segs)) s.tp ≡ false = ground (arith, long) in
      let taken : take s.tp (row_shards s.tp segs) ≡ row_shards s.tp segs =
        take_all s.tp (row_shards s.tp segs) (omega (arith, long)) in
      let written : scatter s.tp 0 segs
            (map (λ q. (cut_rows t (rank_segments s.tp q 0 segs), 0)) (range_from 0 s.tp)) blank
          ≡ ok (mixed (length t.rows) t.rows blank) =
        scatter_lem s.tp t.rows blank (λ q. cut_rows t (rank_segments s.tp q 0 segs)) segs 0 0
          (λ q. []) (omega (arith, total)) divide (λ q below. refl) (λ q below. refl) in
      let done : mixed (length t.rows) t.rows blank ≡ t.rows =
        rw (take_all (length t.rows) t.rows (omega arith), drop_all (length t.rows) blank few)
          (append-nil t.rows) in
      rw
        (
          item-map (λ q. cut_rows t (rank_segments s.tp q 0 segs)) s.tp 0 0 v,
          enough,
          taken,
          pairs_start,
          written,
          done,
        )
        refl

pub from_zero : (a b : ℕ) → ◌≡◌ {A = Range} (0 + a, 0 + b) (a, b)
from_zero a b = rw (zero-add a, zero-add b) refl

module _ {A : Type 0} (s : Sharding) (t : Tensor A) (blank : List (List A)) where
  -- The shards of a plan, and the tensor that they give.
  abbrev Restored : TensorPlan → Type 0
  Restored plan =
      (ss : List (Tensor A)) × (shard_plan s plan t ≡ ok (map some ss))
      × (full_from_plan s plan blank ss ≡ ok t)

  cut_all-some :
      (cut : Tensor A → List Range → Tensor A) (rrs : List (List Range))
      → cut_all cut t rrs ≡ map some (map (cut t) rrs)
  cut_all-some cut rrs = sym (map-map some (cut t) rrs)

  singly-even :
      (cut : Tensor A → List Range → Tensor A) (per : ℕ)
      → map (cut t) (singly (even_ranges s.tp per))
        ≡ map (λ q. cut t ((q * per, (q + 1) * per) ∷ [])) (range_from 0 s.tp)
  singly-even cut per =
      ap (map (cut t)) (map-map (λ x. x ∷ []) (λ r. (r * per, (r + 1) * per)) (range_from 0 s.tp))
      ∙ map-map (cut t) (λ q. (q * per, (q + 1) * per) ∷ []) (range_from 0 s.tp)

  split_in-Restored :
      (size unit : ℕ) (rrs : List (List Range))
      → 0 < s.tp
      → AllWide t.width t.rows
      → plan_ranges s.tp (split_in size unit) (length t.rows) t.width ≡ ok rrs
      → Restored (split_in size unit)
  unfolding shard_plan full_from_plan
  split_in-Restored size unit rrs v wide h =
      let (ranges, divide, wide_enough) =
        plan_ranges-split_in s.tp size unit (length t.rows) t.width rrs h in
      (
        map (cut_cols t) rrs,
        rw h (ap ok (cut_all-some cut_cols rrs)),
        ap (λ r. concat_cols (map (cut_cols t) r)) ranges
            ∙ ap concat_cols (singly-even cut_cols (size / s.tp))
            ∙ whole_cols t s.tp (size / s.tp) v (divide ∙ wide_enough) wide,
      )

  vocab-Restored :
      (rrs : List (List Range))
      → 0 < s.tp
      → plan_ranges s.tp vocab (length t.rows) t.width ≡ ok rrs
      → Restored vocab
  unfolding shard_plan full_from_plan
  vocab-Restored rrs v h =
      let (ranges, divide) = plan_ranges-vocab s.tp (length t.rows) t.width rrs h in
      (
        map (cut_rows t) rrs,
        rw h (ap ok (cut_all-some cut_rows rrs)),
        ap (λ r. concat_rows (map (cut_rows t) r)) ranges
            ∙ ap concat_rows (singly-even cut_rows (length t.rows / s.tp))
            ∙ whole_rows t s.tp (length t.rows / s.tp) v divide,
      )

  full_out :
      (segs : List (ℕ × ℕ))
      → 0 < s.tp
      → length blank ≤ length t.rows
      → AllDivide s.tp segs
      → total_size segs ≡ length t.rows
      → full_from_plan s (split_out segs) blank (row_shards t s.tp segs) ≡ ok t
  unfolding full_from_plan
  full_out [] v few divide total = scatter_whole t s [] blank v total divide few
  full_out ((size, unit) ∷ []) v few (whole, divide) total =
      let same : row_shards t s.tp ((size, unit) ∷ []) ≡ even_rows t (size / s.tp) 0 s.tp =
        map_ext _ _ (range_from 0 s.tp) (λ q.
          ap (λ (x : Range). cut_rows t (x ∷ []))
            (from_zero (q * (size / s.tp)) ((q + 1) * (size / s.tp)))) in
      rw same (whole_rows t s.tp (size / s.tp) v (omega (arith, whole, total)))
  full_out (a ∷ b ∷ segs) v few divide total =
      let many : (length (a ∷ b ∷ segs) == 1) ≡ false = ground arith in
      rw many (scatter_whole t s (a ∷ b ∷ segs) blank v total divide few)

  split_out-Restored :
      (segs : List (ℕ × ℕ)) (rrs : List (List Range))
      → 0 < s.tp
      → length blank ≤ length t.rows
      → plan_ranges s.tp (split_out segs) (length t.rows) t.width ≡ ok rrs
      → Restored (split_out segs)
  unfolding shard_plan
  split_out-Restored segs rrs v few h =
      let (ranges, divide, total) =
        plan_ranges-split_out s.tp segs (length t.rows) t.width rrs v h in
      let shards_are : map (cut_rows t) rrs ≡ row_shards t s.tp segs =
        ap (map (cut_rows t)) ranges
        ∙ map-map (cut_rows t) (λ r. rank_segments s.tp r 0 segs) (range_from 0 s.tp) in
      (
        map (cut_rows t) rrs,
        rw h (ap ok (cut_all-some cut_rows rrs)),
        rw shards_are (full_out segs v few divide total),
      )

  cut-Restored :
      (plan : TensorPlan) (rrs : List (List Range))
      → 0 < s.tp
      → AllWide t.width t.rows
      → length blank ≤ length t.rows
      → is_whole plan ≡ false
      → plan_ranges s.tp plan (length t.rows) t.width ≡ ok rrs
      → Restored plan
  cut-Restored replicated rrs v wide few cut h = cc
  cut-Restored (experts e) rrs v wide few cut h = cc
  cut-Restored vocab rrs v wide few cut h = vocab-Restored rrs v h
  cut-Restored (split_out segs) rrs v wide few cut h = split_out-Restored segs rrs v few h
  cut-Restored (split_in size unit) rrs v wide few cut h = split_in-Restored size unit rrs v wide h

  -- A rectangular tensor that is cut, whatever its plan, and has passed the validation for at least one
  -- rank has shards, and their reassembly, into a buffer with at most as many rows as the tensor has,
  -- gives the tensor.
  pub full_from_shards-shard :
      (name : String) (quantized : Bool)
      → 0 < s.tp
      → AllWide t.width t.rows
      → length blank ≤ length t.rows
      → is_whole (s.plan_for name) ≡ false
      → validate_tensor s name (length t.rows ∷ t.width ∷ []) quantized ≡ ok tt
      → (ss : List (Tensor A)) × (shard s name t ≡ ok (map some ss))
        × (full_from_shards s name blank ss ≡ ok t)
  unfolding validate_tensor
  full_from_shards-shard name quantized v wide few cut h =
      let (rrs, e, _) =
        >>=-eq-ok (rank_ranges s name (length t.rows ∷ t.width ∷ [])) _ (rw cut at h) in
      cut-Restored (s.plan_for name) rrs v wide few cut
        (sym (shape_ranges-plan_ranges s.tp (s.plan_for name) (length t.rows) t.width) ∙ e)
