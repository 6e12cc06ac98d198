-- ===== src/Loaders/Slices/Pairs.antt =====
-- `shard_pair` and `full_scale_from_shards` of both classes of loaders/tp_shard.py.
use s_llm.Prelude.{
  ℕ, ◌+◌, ◌-◌, ◌*◌, ◌/◌, ◌%◌, not, Option, List, [], ◌∷◌, ltb, ◌==◌, if◌then◌else◌, length, take,
  Result, ok, err, ◌>>=◌, index_error, shard_error,
}
use Prim.Native.String.{String}
use s_llm.Loaders.Shard.{
  TensorPlan, replicated, vocab, split_out, split_in, experts, Sharding, item, total_size,
}
use s_llm.Loaders.Slices.{
  Tensor, slice, pairs, shard_plan, scale_plan, deepseek_shard_scale, assign_rows, concat_rows,
  concat_cols, with_position,
}

module _ {A : Type 0} where
  unfoldable pub shard_pair :
      Sharding
      → String
      → Tensor A
      → Tensor A
      → Result (List (Option (Tensor A) × Option (Tensor A)))
  shard_pair s name fp8 scale = shard_plan s (s.plan_for name) fp8 >>= λ w.
      scale_plan s (s.plan_for name) scale >>= λ sc. ok (pairs w sc)

  unfoldable pub deepseek_shard_pair :
      Sharding
      → String
      → Tensor A
      → Tensor A
      → Result (List (Option (Tensor A) × Option (Tensor A)))
  deepseek_shard_pair s name fp8 scale = shard_plan s (s.plan_for name) fp8 >>= λ w.
      deepseek_shard_scale s (s.plan_for name) scale >>= λ sc. ok (pairs w sc)

  -- The loop over the ranks for the scales of one segment.
  unfoldable pub scatter_scale_ranks :
      ℕ
      → ℕ
      → ℕ
      → ℕ
      → List (Tensor A × ℕ)
      → List (List A)
      → Result (List (Tensor A × ℕ) × List (List A))
  scatter_scale_ranks block base per r [] out = ok ([], out)
  scatter_scale_ranks block base per r ((t, p) ∷ shards) out =
      let sb = (base + r * per) / block in
      let se = (base + (r + 1) * per) / block in
      assign_rows sb se (slice p (p + (se - sb)) t.rows) out >>= λ out'.
      scatter_scale_ranks block base per (r + 1) shards out'
      >>= λ (x : List (Tensor A × ℕ) × List (List A)). ok ((t, p + (se - sb)) ∷ x.0, x.1)

  unfoldable pub scatter_scale :
      ℕ → ℕ → ℕ → List (ℕ × ℕ) → List (Tensor A × ℕ) → List (List A) → Result (List (List A))
  scatter_scale tp block base [] shards out = ok out
  scatter_scale tp block base ((size, unit) ∷ segs) shards out =
      scatter_scale_ranks block base (size / tp) 0 shards out
      >>= λ (x : List (Tensor A × ℕ) × List (List A)).
          scatter_scale tp block (base + size) segs x.0 x.1

  abbrev pub scatter_scale_shards :
      Sharding → List (ℕ × ℕ) → List (Tensor A) → List (List A) → Result (Tensor A)
  scatter_scale_shards s segs shards blank =
      if not (total_size segs % s.block == 0)
      then err shard_error
      else item shards 0 >>= λ (first : Tensor A).
          if ltb (length shards) s.tp
          then err index_error
          else scatter_scale s.tp s.block 0 segs (with_position (take s.tp shards)) blank >>= λ out.
              ok (record { rows = out; width = first.width })

  -- `plan.segments[0]` does not exist for a plan that cuts nothing.
  unfoldable pub full_scale_from_shards :
      Sharding → TensorPlan → List (List A) → List (Tensor A) → Result (Tensor A)
  full_scale_from_shards s replicated blank shards = err index_error
  full_scale_from_shards s (experts e) blank shards = err index_error
  full_scale_from_shards s (split_in size unit) blank shards = concat_cols shards
  full_scale_from_shards s vocab blank shards = concat_rows shards
  full_scale_from_shards s (split_out segs) blank shards =
      if length segs == 1 then concat_rows shards else scatter_scale_shards s segs shards blank

  unfoldable pub deepseek_full_scale_from_shards : TensorPlan → List (Tensor A) → Result (Tensor A)
  deepseek_full_scale_from_shards replicated shards = concat_cols shards
  deepseek_full_scale_from_shards (experts e) shards = concat_cols shards
  deepseek_full_scale_from_shards (split_in size unit) shards = concat_cols shards
  deepseek_full_scale_from_shards vocab shards = concat_rows shards
  deepseek_full_scale_from_shards (split_out segs) shards = concat_rows shards
