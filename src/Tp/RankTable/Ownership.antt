-- ===== src/Tp/RankTable/Ownership.antt =====
-- Which rank holds which tensor.
use s_llm.Prelude.{Bool, true, false}
use Prim.Native.String.{String}
use s_llm.Loaders.Shard.{TensorPlan, replicated, vocab, split_out, split_in, experts}
use s_llm.Tp.WeightTable.{WeightTable}

abbrev pub is_experts : TensorPlan → Bool
is_experts replicated = false
is_experts vocab = false
is_experts (split_out segs) = false
is_experts (split_in size unit) = false
is_experts (experts e) = true
