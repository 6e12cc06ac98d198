-- ===== src/Loaders/Slices.antt =====
-- Slicing and reassembly of tensors in loaders/tp_shard.py. `numpy.concatenate` wants arrays that agree
-- on the other axis, and an assignment to a range of rows wants that many rows, or one that it repeats.
pub mod Columns
pub mod Rows
pub mod Scatter
pub mod Scales
pub mod Reassemble
pub mod Pairs
use Prim.Native.String.{String}
use s_llm.Prelude.{
  ℕ, zero, suc, ◌+◌, ◌-◌, ◌*◌, ◌/◌, ◌%◌, ◌^◌, ◌≤◌, ◌<◌, ◌≡◌, ◌≢◌, refl, sym, ap, ◌∙◌, subst, min,
  ◌⊎◌, inl, inr, ◌↔◌, Bool, true, false, ◌&&◌, ◌||◌, not, Option, none, some, List, [], ◌∷◌, ◌++◌,
  map, arith, ltb, leb, ◌==◌, if◌then◌else◌, bit, length, take, drop, replicate, keep, all, count,
  member, sum, range_from, Outcome, returns, raises, state_of, Result, ok, err, ◌>>=◌, Error,
  value_error, key_error, index_error, out_of_capacity, collectives_error, shard_error,
  runtime_error, ℤ, pos, negsuc, Bool-cases, Option-cases, leb→le, le→leb, ltb→lt, lt→ltb, ==_refl,
  ==_iff, length-append, take-append-drop, length-take, length-drop, count-append, count-split,
  length-range_from, count-range_from,
}
use s_llm.Prelude.Dict.{
  Dict, lookup, put, without, has, Distinct, lookup-put, lookup-without, put-Distinct,
  without-Distinct, without_missing, length-put_missing, length-put_present, length-without,
  without-put_missing,
}
use s_llm.Runtime.Planner.{ceiling}
use s_llm.Loaders.Shard.{
  TensorPlan, replicated, vocab, split_out, split_in, experts, Sharding, Range, item,
  rank_row_ranges, col_ranges, plan_ranges, owner,
}

pub record Tensor (A : Type 0) : Type 0 where
  pub rows : List (List A)
  pub width : ℕ

-- `xs[b:e]`
abbrev pub slice {ℓ} : {B : Type ℓ} → ℕ → ℕ → List B → List B
slice b e xs = take (e - b) (drop b xs)

-- The slices of several ranges, one after the other.
abbrev pub slices {ℓ} : {B : Type ℓ} → List Range → List B → List B
slices [] xs = []
slices ((b, e) ∷ rr) xs = slice b e xs ++ slices rr xs

abbrev pub range_sum : List Range → ℕ
range_sum [] = 0
range_sum ((b, e) ∷ rr) = (e - b) + range_sum rr

-- `b // blk` and `ceil(e / blk)`
abbrev pub block_range : ℕ → Range → Range
block_range blk (b, e) = (b / blk, ceiling e blk)

abbrev pub block_ranges : ℕ → List (List Range) → List (List Range)
block_ranges blk rrs = map (λ rr. map (block_range blk) rr) rrs

-- The plan has several segments, and one of them does not consist of whole blocks.
unfoldable pub some_misaligned : ℕ → ℕ → List (ℕ × ℕ) → Bool
some_misaligned tp blk [] = false
some_misaligned tp blk ((size, unit) ∷ segs) =
    not (size % blk == 0) || not (size / tp % blk == 0) || some_misaligned tp blk segs

-- Two arrays side by side.
abbrev pub beside {ℓ} : {B : Type ℓ} → List (List B) → List (List B) → List (List B)
beside [] ys = []
beside (x ∷ xs) [] = []
beside (x ∷ xs) (y ∷ ys) = (x ++ y) ∷ beside xs ys

module _ {A : Type 0} where
  abbrev pub cut_rows : Tensor A → List Range → Tensor A
  cut_rows t rr = record { rows = slices rr t.rows; width = t.width }

  abbrev pub cut_cols : Tensor A → List Range → Tensor A
  cut_cols t rr = record { rows = map (slices rr) t.rows; width = range_sum rr }

  abbrev pub cut_all :
      (Tensor A → List Range → Tensor A) → Tensor A → List (List Range) → List (Option (Tensor A))
  cut_all cut t rrs = map (λ rr. some (cut t rr)) rrs

  -- `shard`; `none` stands for an expert of another rank.
  unfoldable pub shard_plan : Sharding → TensorPlan → Tensor A → Result (List (Option (Tensor A)))
  shard_plan s replicated t = ok (replicate s.tp (some t))
  shard_plan s (experts e) t =
      ok (map (λ r. if owner s e == r then some t else none) (range_from 0 s.tp))
  shard_plan s vocab t =
      plan_ranges s.tp vocab (length t.rows) t.width >>= λ rrs. ok (cut_all cut_rows t rrs)
  shard_plan s (split_out segs) t =
      plan_ranges s.tp (split_out segs) (length t.rows) t.width >>= λ rrs.
      ok (cut_all cut_rows t rrs)
  shard_plan s (split_in size unit) t =
      plan_ranges s.tp (split_in size unit) (length t.rows) t.width >>= λ rrs.
      ok (cut_all cut_cols t rrs)

  abbrev pub shard : Sharding → String → Tensor A → Result (List (Option (Tensor A)))
  shard s name t = shard_plan s (s.plan_for name) t

  unfoldable pub scale_plan : Sharding → TensorPlan → Tensor A → Result (List (Option (Tensor A)))
  scale_plan s replicated scale = ok (replicate s.tp (some scale))
  scale_plan s (experts e) scale = err shard_error
  scale_plan s vocab scale = err shard_error
  scale_plan s (split_out segs) scale =
      if ltb 1 (length segs) && some_misaligned s.tp s.block segs
      then err shard_error
      else rank_row_ranges s.tp segs >>= λ rrs.
          ok (cut_all cut_rows scale (block_ranges s.block rrs))
  scale_plan s (split_in size unit) scale =
      col_ranges s.tp size unit >>= λ rrs. ok (cut_all cut_cols scale (block_ranges s.block rrs))

  abbrev pub shard_scale : Sharding → String → Tensor A → Result (List (Option (Tensor A)))
  shard_scale s name scale = scale_plan s (s.plan_for name) scale

  -- `(w[r], None if w[r] is None else s[r])` for each rank
  abbrev pub pairs :
      {B : Type 0}
      → List (Option (Tensor A))
      → List (Option B)
      → List (Option (Tensor A) × Option B)
  pairs [] ss = []
  pairs (w ∷ ws) [] = []
  pairs (none ∷ ws) (x ∷ ss) = (none, none) ∷ pairs ws ss
  pairs (some w ∷ ws) (x ∷ ss) = (some w, x) ∷ pairs ws ss

  -- `shard_scale` of `DeepseekV4Sharding`, which does not look at the alignment.
  unfoldable pub deepseek_shard_scale :
      Sharding → TensorPlan → Tensor A → Result (List (Option (Tensor A)))
  deepseek_shard_scale s replicated scale = ok (replicate s.tp (some scale))
  deepseek_shard_scale s (experts e) scale = err shard_error
  deepseek_shard_scale s vocab scale = err shard_error
  deepseek_shard_scale s (split_out segs) scale =
      rank_row_ranges s.tp segs >>= λ rrs. ok (cut_all cut_rows scale (block_ranges s.block rrs))
  deepseek_shard_scale s (split_in size unit) scale =
      col_ranges s.tp size unit >>= λ rrs. ok (cut_all cut_cols scale (block_ranges s.block rrs))

  unfoldable pub concat_rows : List (Tensor A) → Result (Tensor A)
  concat_rows [] = err value_error
  concat_rows (t ∷ []) = ok t
  concat_rows (t ∷ u ∷ ts) = concat_rows (u ∷ ts) >>= λ (rest : Tensor A).
      if t.width == rest.width
      then ok (record { rows = t.rows ++ rest.rows; width = t.width })
      else err value_error

  unfoldable pub concat_cols : List (Tensor A) → Result (Tensor A)
  concat_cols [] = err value_error
  concat_cols (t ∷ []) = ok t
  concat_cols (t ∷ u ∷ ts) = concat_cols (u ∷ ts) >>= λ (rest : Tensor A).
      if length t.rows == length rest.rows
      then ok (record { rows = beside t.rows rest.rows; width = t.width + rest.width })
      else err value_error

  -- `out[b:e] = x`
  unfoldable pub assign_rows : ℕ → ℕ → List (List A) → List (List A) → Result (List (List A))
  assign_rows b e [] out = if e - b == 0 then ok out else err value_error
  assign_rows b e (x ∷ []) out = ok (take b out ++ replicate (e - b) x ++ drop e out)
  assign_rows b e (x ∷ y ∷ xs) out =
      if length (x ∷ y ∷ xs) == e - b
      then ok (take b out ++ (x ∷ y ∷ xs) ++ drop e out)
      else err value_error

  -- The loop over the ranks for one segment: each shard stands with its position.
  unfoldable pub scatter_ranks :
      ℕ → ℕ → ℕ → List (Tensor A × ℕ) → List (List A) → Result (List (Tensor A × ℕ) × List (List A))
  scatter_ranks base per r [] out = ok ([], out)
  scatter_ranks base per r ((t, p) ∷ shards) out =
      assign_rows (base + r * per) (base + (r + 1) * per) (slice p (p + per) t.rows) out >>= λ out'.
      scatter_ranks base per (r + 1) shards out' >>= λ (x : List (Tensor A × ℕ) × List (List A)).
      ok ((t, p + per) ∷ x.0, x.1)

  -- The loop over the segments.
  unfoldable pub scatter :
      ℕ → ℕ → List (ℕ × ℕ) → List (Tensor A × ℕ) → List (List A) → Result (List (List A))
  scatter tp base [] shards out = ok out
  scatter tp base ((size, unit) ∷ segs) shards out =
      scatter_ranks base (size / tp) 0 shards out >>= λ (x : List (Tensor A × ℕ) × List (List A)).
      scatter tp (base + size) segs x.0 x.1

  abbrev pub with_position : List (Tensor A) → List (Tensor A × ℕ)
  with_position shards = map (λ t. (t, 0)) shards

  abbrev pub scatter_shards :
      Sharding → List (ℕ × ℕ) → List (Tensor A) → List (List A) → Result (Tensor A)
  scatter_shards s segs shards blank = item shards 0 >>= λ (first : Tensor A).
      if ltb (length shards) s.tp
      then err index_error
      else scatter s.tp 0 segs (with_position (take s.tp shards)) blank >>= λ out.
          ok (record { rows = out; width = first.width })

  -- `full_from_shards`; `blank` is what `numpy.empty` holds, as many rows as the segments have.
  unfoldable pub full_from_plan :
      Sharding → TensorPlan → List (List A) → List (Tensor A) → Result (Tensor A)
  full_from_plan s replicated blank shards = item shards 0
  full_from_plan s (experts e) blank shards = err shard_error
  full_from_plan s (split_in size unit) blank shards = concat_cols shards
  full_from_plan s vocab blank shards = concat_rows shards
  full_from_plan s (split_out segs) blank shards =
      if length segs == 1 then concat_rows shards else scatter_shards s segs shards blank

  abbrev pub full_from_shards :
      Sharding → String → List (List A) → List (Tensor A) → Result (Tensor A)
  full_from_shards s name blank shards = full_from_plan s (s.plan_for name) blank shards

  -- `full_from_shards` of `DeepseekV4Sharding`, whose plans have one segment.
  unfoldable pub deepseek_full_from_shards : TensorPlan → List (Tensor A) → Result (Tensor A)
  deepseek_full_from_shards replicated shards = item shards 0
  deepseek_full_from_shards (experts e) shards = err shard_error
  deepseek_full_from_shards (split_in size unit) shards = concat_cols shards
  deepseek_full_from_shards vocab shards = concat_rows shards
  deepseek_full_from_shards (split_out segs) shards = concat_rows shards
