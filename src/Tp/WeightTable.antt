-- ===== src/Tp/WeightTable.antt =====
-- What tp/rank_table.py calls of the table of weights and of the dequantization.
use Prim.Native.String.{String}
use s_llm.Prelude.{ℕ, Bool, Option, List, Result}
use s_llm.Loaders.Slices.{Tensor}

-- What the view calls: the methods of the table, `dequant_weight_auto` with the block of the sharding,
-- `dequant_weight_blocked`, and the test of a scale for bytes.
pub record WeightTable (A : Type 0) : Type 0 where
  pub names : List String
  pub get : String → Result (Tensor A)
  pub scale : String → Result (Tensor A)
  pub is_quantized : String → Bool
  pub dequant : String → Result (Tensor A)
  pub is_bytes : Tensor A → Bool
  pub dequant_auto : ℕ → Option (Tensor A) → Option (Tensor A) → Result (Option (Tensor A))
  pub dequant_blocked : Option (Tensor A) → Option (Tensor A) → Result (Option (Tensor A))
