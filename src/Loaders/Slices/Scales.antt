-- ===== src/Loaders/Slices/Scales.antt =====
-- The scales that go with a shard: a rank finds for each of its rows and columns the scale that the
-- whole tensor has there.
use s_llm.Prelude.{
  ℕ, zero, suc, ◌+◌, ◌-◌, ◌*◌, ◌/◌, ◌≤◌, ◌<◌, ◌≡◌, refl, sym, ap, ◌∙◌, subst, true, false, some,
  List, [], ◌∷◌, map, arith, ◌==◌, take, drop, range_from, Result, ok, >>=-eq-ok, checked,
  shard_error,
}
use Prim.Native.String.{String}
use native.Mathlib.Nat.{add-mul, zero-add, add-zero}
use mathlib.Core.List.{append-nil}
use s_llm.Loaders.Shard.{
  Sharding, TensorPlan, split_out, split_in, Range, item, check_range, check_ranges, check_ranks,
  validate_tensor, shape_ranges, shape_ranges-plan_ranges, plan_ranges, col_ranges, rank_row_ranges,
  is_whole,
}
use s_llm.Loaders.Shard.Ranges.{plan_ranges-split_out, plan_ranges-split_in}
use s_llm.Loaders.Shard.Blocks.{block_offset, block_inside, check_ranks-map}
use s_llm.Loaders.Slices.{
  Tensor, slice, slices, block_range, block_ranges, cut_rows, cut_cols, cut_all, scale_plan,
  shard_scale,
}
use s_llm.Loaders.Slices.Columns.{map_ext}
use s_llm.Loaders.Slices.Reassemble.{map-map, from_zero}
use s_llm.Runtime.Planner.{ceiling}

-- The scale of each row (or column) from `lo` on, for `n` of them.
abbrev pub spread {ℓ} : {B : Type ℓ} → ℕ → ℕ → ℕ → List B → List (Result B)
spread block lo n scales = map (λ p. item scales (p / block)) (range_from lo n)

module _ {ℓ} {B : Type ℓ} where
  pub item-take : (n i : ℕ) (xs : List B) → i < n → item (take n xs) i ≡ item xs i
  item-take zero i xs h = absurd (omega (arith, h))
  item-take (suc n) i [] h = refl
  item-take (suc n) zero (x ∷ xs) h = refl
  item-take (suc n) (suc i) (x ∷ xs) h = item-take n i xs (omega (arith, h))

  item-drop : (n i : ℕ) (xs : List B) → item (drop n xs) i ≡ item xs (n + i)
  item-drop zero i xs = rw zero-add refl
  item-drop (suc n) i [] = refl
  item-drop (suc n) i (x ∷ xs) =
      let next : suc n + i ≡ suc (n + i) = omega arith in rw next (item-drop n i xs)

  local_scale :
      (block b e i : ℕ) (scales : List B)
      → 0 < block
      → check_range block true (b, e) ≡ ok tt
      → b + i < e
      → item (slice (b / block) (ceiling e block) scales) (i / block)
        ≡ item scales ((b + i) / block)
  local_scale block b e i scales v h k =
      item-take (ceiling e block - b / block) (i / block) (drop (b / block) scales)
        (block_inside block b e i v h k)
      ∙ item-drop (b / block) (i / block) scales
      ∙ ap (item scales) (sym (block_offset block b e i v h k))

  local_scales :
      (block b e : ℕ) (scales : List B)
      → 0 < block
      → check_range block true (b, e) ≡ ok tt
      → (n i : ℕ) → b + i + n ≤ e
      → spread block i n (slice (b / block) (ceiling e block) scales)
        ≡ spread block (b + i) n scales
  local_scales block b e scales v h zero i k = refl
  local_scales block b e scales v h (suc n) i k =
      let next : b + suc i ≡ suc (b + i) = omega arith in
      let rest : spread block (suc i) n (slice (b / block) (ceiling e block) scales)
          ≡ spread block (suc (b + i)) n scales =
        local_scales block b e scales v h n (suc i) (omega (arith, k))
        ∙ ap (λ m. spread block m n scales) next in
      rw (local_scale block b e i scales v h (omega (arith, k)), rest) refl

  -- The same for the range of a rank.
  rank_scales :
      (block per r : ℕ) (scales : List B)
      → 0 < block
      → check_ranges block true ((r * per, (r + 1) * per) ∷ []) ≡ ok tt
      → spread block 0 per (slices (map (block_range block) ((r * per, (r + 1) * per) ∷ [])) scales)
        ≡ spread block (r * per) per scales
  unfolding check_ranges
  rank_scales block per r scales v h =
      let (u, one, _) = >>=-eq-ok (check_range block true (r * per, (r + 1) * per)) _ h in
      let end : r * per + 0 + per ≡ (r + 1) * per = omega (arith, add-mul r 1 per) in
      rw append-nil (
        local_scales block (r * per) ((r + 1) * per) scales v one per 0 (omega (arith, end))
        ∙ ap (λ m. spread block m per scales) (add-zero (r * per)))

pub map-range_ext {ℓ} :
    {B : Type ℓ} (f g : ℕ → B) (n lo : ℕ)
    → ((r : ℕ) → lo ≤ r → r < lo + n → f r ≡ g r)
    → map f (range_from lo n) ≡ map g (range_from lo n)
map-range_ext f g zero lo h = refl
map-range_ext f g (suc n) lo h =
    let rest : map f (range_from (suc lo) n) ≡ map g (range_from (suc lo) n) =
      map-range_ext f g n (suc lo) (λ r v k. h r (omega (arith, v)) (omega (arith, k))) in
    rw (h lo (omega arith) (omega arith), rest) refl

-- The range of rank `r`, of `per` rows or columns.
abbrev rank_range : ℕ → ℕ → List Range
rank_range per r = (r * per, (r + 1) * per) ∷ []

module _ {A : Type 0} (s : Sharding) (scale : Tensor A) (name : String) (height width : ℕ) where
  validated :
      (plan : TensorPlan)
      → s.plan_for name ≡ plan
      → is_whole plan ≡ false
      → validate_tensor s name (height ∷ width ∷ []) true ≡ ok tt
      → (rrs : List (List Range)) × (plan_ranges s.tp plan height width ≡ ok rrs)
        × (check_ranks s.block true rrs ≡ ok tt)
  unfolding validate_tensor
  validated plan e cut h =
      let (rrs, found, fine) =
        >>=-eq-ok (shape_ranges s.tp plan (height ∷ width ∷ [])) _ (rw (e, cut) at h) in
      (rrs, sym (shape_ranges-plan_ranges s.tp plan height width) ∙ found, fine)

  -- The scale shard of a rank.
  abbrev scale_part : (Tensor A → List Range → Tensor A) → ℕ → ℕ → Tensor A
  scale_part cut per r = cut scale (map (block_range s.block) (rank_range per r))

  cut_blocks :
      (cut : Tensor A → List Range → Tensor A) (per : ℕ) (rs : List ℕ)
      → cut_all cut scale (block_ranges s.block (map (rank_range per) rs))
        ≡ map some (map (scale_part cut per) rs)
  cut_blocks cut per [] = refl
  cut_blocks cut per (r ∷ rs) = rw (cut_blocks cut per rs) refl

  scale_plan-rows :
      (size unit : ℕ) (rrs : List (List Range))
      → plan_ranges s.tp (split_out ((size, unit) ∷ [])) height width ≡ ok rrs
      → scale_plan s (split_out ((size, unit) ∷ [])) scale
        ≡ ok (cut_all cut_rows scale (block_ranges s.block rrs))
  unfolding plan_ranges scale_plan
  scale_plan-rows size unit rrs h =
      let (_, found) =
        checked (size + 0 == height) shard_error (rank_row_ranges s.tp ((size, unit) ∷ [])) rrs h in
      rw found refl

  scale_plan-cols :
      (size unit : ℕ) (rrs : List (List Range))
      → plan_ranges s.tp (split_in size unit) height width ≡ ok rrs
      → scale_plan s (split_in size unit) scale
        ≡ ok (cut_all cut_cols scale (block_ranges s.block rrs))
  unfolding plan_ranges scale_plan
  scale_plan-cols size unit rrs h =
      let (_, found) = checked (size == width) shard_error (col_ranges s.tp size unit) rrs h in
      rw found refl

  -- What the validation found out about the range of a rank.
  rank_checked :
      (per r : ℕ) (rrs : List (List Range))
      → rrs ≡ map (rank_range per) (range_from 0 s.tp)
      → check_ranks s.block true rrs ≡ ok tt
      → r < 0 + s.tp
      → check_ranges s.block true (rank_range per r) ≡ ok tt
  rank_checked per r rrs even h k =
      check_ranks-map s.block true (rank_range per) s.tp 0 r
        (subst (λ x. check_ranks s.block true x ≡ ok tt) even h) (omega arith) k

  -- A quantized matrix whose rows are cut in one segment, and which has passed the validation, has scale
  -- shards, and each rank reads there for each of its rows the scale that the row has in the whole
  -- tensor; both reads fail alike where the scale tensor has too few rows.
  pub shard_scale-rows :
      (size unit : ℕ)
      → 0 < s.tp
      → 0 < s.block
      → s.plan_for name ≡ split_out ((size, unit) ∷ [])
      → validate_tensor s name (height ∷ width ∷ []) true ≡ ok tt
      → (ss : List (Tensor A)) × (shard_scale s name scale ≡ ok (map some ss))
        × (map (λ (x : Tensor A). spread s.block 0 (size / s.tp) x.rows) ss
            ≡ map
                (λ r. spread s.block (r * (size / s.tp)) (size / s.tp) scale.rows)
                (range_from 0 s.tp))
  shard_scale-rows size unit v vb e h =
      let (rrs, e1, e2) = validated (split_out ((size, unit) ∷ [])) e refl h in
      let (ranges, _, _) = plan_ranges-split_out s.tp ((size, unit) ∷ []) height width rrs v e1 in
      let even : rrs ≡ map (rank_range (size / s.tp)) (range_from 0 s.tp) =
        ranges
        ∙ map_ext _ _ (range_from 0 s.tp) (λ r.
          ap (λ (x : Range). x ∷ []) (from_zero (r * (size / s.tp)) ((r + 1) * (size / s.tp)))) in
      let made : shard_scale s name scale ≡ ok (cut_all cut_rows scale (block_ranges s.block rrs)) =
        rw e (scale_plan-rows size unit rrs e1) in
      (
        map (scale_part cut_rows (size / s.tp)) (range_from 0 s.tp),
        made
            ∙ ap (λ x. ok (cut_all cut_rows scale (block_ranges s.block x))) even
            ∙ ap ok (cut_blocks cut_rows (size / s.tp) (range_from 0 s.tp)),
        map-map (λ (x : Tensor A). spread s.block 0 (size / s.tp) x.rows)
              (scale_part cut_rows (size / s.tp)) (range_from 0 s.tp)
            ∙ map-range_ext _ _ s.tp 0 (λ r low k.
              rank_scales s.block (size / s.tp) r scale.rows vb
                (rank_checked (size / s.tp) r rrs even e2 k)),
      )

  -- The same for a matrix whose columns are cut, in each row of the scale tensor.
  pub shard_scale-cols :
      (size unit : ℕ)
      → 0 < s.tp
      → 0 < s.block
      → s.plan_for name ≡ split_in size unit
      → validate_tensor s name (height ∷ width ∷ []) true ≡ ok tt
      → (ss : List (Tensor A)) × (shard_scale s name scale ≡ ok (map some ss))
        × (map (λ (x : Tensor A). map (spread s.block 0 (size / s.tp)) x.rows) ss
            ≡ map
                (λ r. map (spread s.block (r * (size / s.tp)) (size / s.tp)) scale.rows)
                (range_from 0 s.tp))
  shard_scale-cols size unit v vb e h =
      let (rrs, e1, e2) = validated (split_in size unit) e refl h in
      let (ranges, _, _) = plan_ranges-split_in s.tp size unit height width rrs e1 in
      let even : rrs ≡ map (rank_range (size / s.tp)) (range_from 0 s.tp) =
        ranges
        ∙ map-map (λ x. x ∷ []) (λ r. (r * (size / s.tp), (r + 1) * (size / s.tp)))
            (range_from 0 s.tp) in
      let made : shard_scale s name scale ≡ ok (cut_all cut_cols scale (block_ranges s.block rrs)) =
        rw e (scale_plan-cols size unit rrs e1) in
      (
        map (scale_part cut_cols (size / s.tp)) (range_from 0 s.tp),
        made
            ∙ ap (λ x. ok (cut_all cut_cols scale (block_ranges s.block x))) even
            ∙ ap ok (cut_blocks cut_cols (size / s.tp) (range_from 0 s.tp)),
        map-map (λ (x : Tensor A). map (spread s.block 0 (size / s.tp)) x.rows)
              (scale_part cut_cols (size / s.tp)) (range_from 0 s.tp)
            ∙ map-range_ext _ _ s.tp 0 (λ r low k.
              map-map (spread s.block 0 (size / s.tp))
                (slices (map (block_range s.block) (rank_range (size / s.tp) r))) scale.rows
              ∙ map_ext _ _ scale.rows (λ row.
                rank_scales s.block (size / s.tp) r row vb
                  (rank_checked (size / s.tp) r rrs even e2 k))),
      )
