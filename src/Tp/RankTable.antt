-- ===== src/Tp/RankTable.antt =====
-- tp/rank_table.py: the view that a rank has of the weights. What it calls of the table of weights and
-- of the dequantization is an interface, since these read files and numbers.
pub mod Ownership
pub mod Gather
use s_llm.Prelude.{
  ℕ, zero, suc, ◌+◌, ◌-◌, ◌*◌, ◌/◌, ◌%◌, ◌^◌, ◌≤◌, ◌<◌, ◌≡◌, ◌≢◌, refl, sym, ap, ◌∙◌, subst, min,
  ◌⊎◌, inl, inr, ◌↔◌, Bool, true, false, ◌&&◌, ◌||◌, not, Option, none, some, List, [], ◌∷◌, ◌++◌,
  map, arith, ltb, leb, ◌==◌, if◌then◌else◌, bit, length, take, drop, replicate, keep, all, count,
  member, sum, range_from, Outcome, returns, raises, state_of, Result, ok, err, ◌>>=◌, >>=-eq-ok,
  ok_inj, Error, value_error, key_error, index_error, out_of_capacity, collectives_error,
  shard_error, runtime_error, ℤ, pos, negsuc, Bool-cases, Option-cases, leb→le, le→leb, ltb→lt,
  lt→ltb, ==_refl, ==_iff, length-append, take-append-drop, length-take, length-drop, count-append,
  count-split, length-range_from, count-range_from,
}
use s_llm.Prelude.Dict.{
  Dict, lookup, put, without, has, Distinct, lookup-put, lookup-without, put-Distinct,
  without-Distinct, without_missing, length-put_missing, length-put_present, length-without,
  without-put_missing,
}
use Prim.Native.String.{String}
use s_llm.Tp.WeightTable.{WeightTable}
use s_llm.Loaders.Shard.{
  TensorPlan, replicated, vocab, split_out, split_in, experts, Sharding, item, owner, is_whole,
  validate_tensor,
}
use s_llm.Loaders.Slices.{Tensor, shard}
use s_llm.Loaders.Slices.Pairs.{shard_pair}

pub record RankWeightTable (A : Type 0) : Type 0 where
  pub table : WeightTable A
  pub sharding : Sharding
  pub rank : ℕ

-- `owns`, for the plan of the name.
unfoldable pub owns_plan : Sharding → ℕ → TensorPlan → Bool
owns_plan s r (experts e) = owner s e == r
owns_plan s r replicated = true
owns_plan s r vocab = true
owns_plan s r (split_out segs) = true
owns_plan s r (split_in size unit) = true

module _ {A : Type 0} where
  unfoldable pub make_rank_table : WeightTable A → Sharding → ℤ → Result (RankWeightTable A)
  make_rank_table table s (negsuc n) = err value_error
  make_rank_table table s (pos r) =
      if ltb r s.tp then ok (record { table = table; sharding = s; rank = r }) else err value_error

  abbrev pub owns : RankWeightTable A → String → Bool
  owns w name = owns_plan w.sharding w.rank (w.sharding.plan_for name)

  abbrev pub owned_names : RankWeightTable A → List String
  owned_names w = keep (owns w) w.table.names

  unfoldable pub slice_for :
      RankWeightTable A → String → TensorPlan → Tensor A → Result (Option (Tensor A))
  slice_for w name replicated arr = ok (some arr)
  slice_for w name (experts e) arr = if owns w name then ok (some arr) else err key_error
  slice_for w name vocab arr = shard w.sharding name arr >>= λ ss. item ss w.rank
  slice_for w name (split_out segs) arr = shard w.sharding name arr >>= λ ss. item ss w.rank
  slice_for w name (split_in size unit) arr = shard w.sharding name arr >>= λ ss. item ss w.rank

  abbrev pub plan_slice : RankWeightTable A → String → Tensor A → Result (Option (Tensor A))
  plan_slice w name arr = slice_for w name (w.sharding.plan_for name) arr

  unfoldable pub get : RankWeightTable A → String → Result (Option (Tensor A))
  get w name =
      if owns w name then (w.table.get name >>= λ arr. plan_slice w name arr) else err key_error

  -- The tail of `dequant`, for a quantized tensor that is cut.
  unfoldable pub dequant_slice : RankWeightTable A → String → Result (Option (Tensor A))
  dequant_slice w name = w.table.get name >>= λ (fp8 : Tensor A). w.table.scale name >>= λ scale.
      validate_tensor w.sharding name (length fp8.rows ∷ fp8.width ∷ []) true >>= λ _.
      shard_pair w.sharding name fp8 scale >>= λ ps.
      item ps w.rank >>= λ (p : Option (Tensor A) × Option (Tensor A)).
      if w.table.is_bytes scale
      then w.table.dequant_auto w.sharding.block p.0 p.1
      else w.table.dequant_blocked p.0 p.1

  unfoldable pub dequant : RankWeightTable A → String → Result (Option (Tensor A))
  dequant w name =
      if not (owns w name)
      then err key_error
      else if not (w.table.is_quantized name)
      then (w.table.get name >>= λ arr. plan_slice w name arr)
      else if is_whole (w.sharding.plan_for name)
      then (w.table.dequant name >>= λ t. ok (some t))
      else dequant_slice w name
