-- ===== src/Tests/Shards.antt =====
-- loaders/tp_shard.py, loaders/fp8.py and tp/rank_table.py at concrete inputs.
use s_llm.Prelude.{
  ℕ, ◌*◌, ◌<◌, ◌≡◌, refl, ◌⊎◌, true, false, some, List, [], ◌∷◌, map, arith, length, replicate,
  range_from, ok, err, key_error, shard_error,
}
use s_llm.Loaders.Shard.{
  TensorPlan, split_out, Sharding, item, validate_tensor, shape_ranges, plan_ranges, segments_of,
  segment_ranges, each_of, check_range, check_ranges, check_ranks,
}
use s_llm.Loaders.Shard.Errors.{all_usable, validate_tensor-error}
use s_llm.Loaders.Shard.{Range, rank_ranges, split_in}
use s_llm.Prelude.{index_error}
use s_llm.Loaders.Slices.{Tensor, shard, full_from_shards, shard_scale}
use s_llm.Loaders.Slices.Reassemble.{full_from_shards-shard}
use s_llm.Loaders.Slices.Scales.{shard_scale-rows, spread}
use s_llm.Loaders.Fp8.{
  Float8, nan, infinite, finite, decode_e4m3fn, dequant_weight_blocked, dequant_weight_blocked_loop,
}
use s_llm.Loaders.Fp8.Monotone.{decode_e4m3fn-grows}
use s_llm.Loaders.Fp8.Blocked.{dequant_weight_blocked-loop}
use s_llm.Tp.RankTable.{get}
use s_llm.Tp.WeightTable.{WeightTable}
use s_llm.Tp.RankTable.Gather.{full_from_shards-get}

-- Two ranks and blocks of four rows.
abbrev by_plan : TensorPlan → Sharding
by_plan plan = record { tp = 2; block = 4; num_experts = 4; plan_for = λ name. plan }

abbrev fused : TensorPlan
fused = split_out ((8, 4) ∷ (4, 2) ∷ [])

-- The rows 0 to 11.
abbrev tall : Tensor ℕ
tall = record { rows = map (λ i. i ∷ 100 ∷ []) (range_from 0 12); width = 2 }

fused-valid : validate_tensor (by_plan fused) "w" (length tall.rows ∷ tall.width ∷ []) false ≡ ok tt
unfolding validate_tensor shape_ranges plan_ranges segments_of segment_ranges each_of check_range
    check_ranges check_ranks
fused-valid = refl

full_from_shards-shard_example :
    (ss : List (Tensor ℕ)) × (shard (by_plan fused) "w" tall ≡ ok (map some ss))
    × (full_from_shards (by_plan fused) "w" (replicate 12 []) ss ≡ ok tall)
full_from_shards-shard_example =
    full_from_shards-shard (by_plan fused) tall (replicate 12 []) "w" false (omega arith)
      (
        refl,
        (refl, (refl, (refl, (refl, (refl, (refl, (refl, (refl, (refl, (refl, (refl, tt))))))))))),
      )
      (omega arith) refl fused-valid

-- A table with the one tensor under every name.
abbrev one_tensor : WeightTable ℕ
one_tensor = record {
  names = "w" ∷ [];
  get = λ name. ok tall;
  scale = λ name. err key_error;
  is_quantized = λ name. false;
  dequant = λ name. ok tall;
  is_bytes = λ t. false;
  dequant_auto = λ block w scale. ok w;
  dequant_blocked = λ w scale. ok w;
}

full_from_shards-get_example :
    (ss : List (Tensor ℕ)) × ((r : ℕ)
      → get (record { table = one_tensor; sharding = by_plan fused; rank = r }) "w"
        ≡ item (map some ss) r)
    × (full_from_shards (by_plan fused) "w" (replicate 12 []) ss ≡ ok tall)
full_from_shards-get_example =
    full_from_shards-get one_tensor (by_plan fused) "w" tall (replicate 12 []) false (omega arith)
      refl
      (
        refl,
        (refl, (refl, (refl, (refl, (refl, (refl, (refl, (refl, (refl, (refl, (refl, tt))))))))))),
      )
      (omega arith) refl fused-valid

abbrev whole_blocks : TensorPlan
whole_blocks = split_out ((16, 8) ∷ [])

abbrev scales : Tensor ℕ
scales = record { rows = (7 ∷ []) ∷ (8 ∷ []) ∷ (9 ∷ []) ∷ (10 ∷ []) ∷ []; width = 1 }

whole_blocks-valid : validate_tensor (by_plan whole_blocks) "w" (16 ∷ 4 ∷ []) true ≡ ok tt
unfolding validate_tensor shape_ranges plan_ranges segments_of segment_ranges each_of check_range
    check_ranges check_ranks
whole_blocks-valid = refl

shard_scale-rows_example :
    (ss : List (Tensor ℕ)) × (shard_scale (by_plan whole_blocks) "w" scales ≡ ok (map some ss))
    × (map (λ (x : Tensor ℕ). spread 4 0 8 x.rows) ss
        ≡ map (λ r. spread 4 (r * 8) 8 scales.rows) (range_from 0 2))
shard_scale-rows_example =
    shard_scale-rows (by_plan whole_blocks) scales "w" 16 4 16 8 (omega arith) (omega arith) refl
      whole_blocks-valid

-- Five rows for each of two ranks.
abbrev halved : Sharding
halved = by_plan (split_out ((10, 5) ∷ []))

validate_tensor-error_example :
    ((validate_tensor halved "w" (10 ∷ 1 ∷ []) false ≡ ok tt)
      × ((false ≡ true)
          ⊎ ((rrs : List (List Range)) × (rank_ranges halved "w" (10 ∷ 1 ∷ []) ≡ ok rrs)
              × (all_usable halved.block false rrs ≡ true))))
    ⊎ ((validate_tensor halved "w" (10 ∷ 1 ∷ []) false ≡ err shard_error)
        × (false ≡ false)
        × ((rank_ranges halved "w" (10 ∷ 1 ∷ []) ≡ err shard_error)
            ⊎ ((rrs : List (List Range)) × (rank_ranges halved "w" (10 ∷ 1 ∷ []) ≡ ok rrs)
                × (all_usable halved.block false rrs ≡ false))))
validate_tensor-error_example =
    validate_tensor-error halved "w" (10 ∷ 1 ∷ []) false (omega arith)
      ((omega arith, tt), omega arith)

-- A vector has no columns to cut.
no_columns : validate_tensor (by_plan (split_in 4 1)) "w" (4 ∷ []) false ≡ err index_error
unfolding validate_tensor shape_ranges
no_columns = refl

abbrev small : Tensor ℕ
small = record { rows = (1 ∷ 2 ∷ 3 ∷ []) ∷ (4 ∷ 5 ∷ 6 ∷ []) ∷ (7 ∷ 8 ∷ 9 ∷ []) ∷ []; width = 3 }

abbrev small_scale : Tensor ℕ
small_scale = record { rows = (10 ∷ 20 ∷ []) ∷ (30 ∷ 40 ∷ []) ∷ []; width = 2 }

-- Floating-point numbers are natural numbers here.
abbrev size_value : Float8 → ℕ
size_value nan = 0
size_value (infinite b) = 0
size_value (finite b n) = n

dequant_weight_blocked-loop_example :
    dequant_weight_blocked size_value (λ x y. x * y) small small_scale 2 2
    ≡ dequant_weight_blocked_loop size_value (λ x y. x * y) small small_scale 2 2
dequant_weight_blocked-loop_example =
    dequant_weight_blocked-loop size_value (λ x y. x * y) small small_scale 2 2 (omega arith)
      (omega arith) (refl, (refl, (refl, tt))) (refl, (refl, tt)) refl

decode_e4m3fn-grows_example :
    (m n : ℕ) × (decode_e4m3fn 8 ≡ finite false m) × (decode_e4m3fn 126 ≡ finite false n) × (m < n)
decode_e4m3fn-grows_example = decode_e4m3fn-grows 8 126 (omega arith) (omega arith)
