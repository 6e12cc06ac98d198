-- ===== src/Tests/Memory.antt =====
-- runtime/memory_planner.py and runtime/placement.py at concrete inputs.
use s_llm.Prelude.{
  ℕ, suc, ◌*◌, ◌≤◌, ◌<◌, ◌≡◌, refl, ◌⊎◌, true, false, none, some, List, [], ◌∷◌, arith, ok, err,
  value_error, pos,
}
use s_llm.Prelude.Dict.{lookup, put, without, has}
use s_llm.Runtime.Floats.{Float, halvings, nearest, rounded, truncated_product}
use s_llm.Runtime.Planner.{
  plan_block_count, qwen3_5_kv_profile, linear_attention, full_attention, Qwen4Config,
  DeepseekConfig, full_layers,
}
use s_llm.Runtime.Planner.Fits.{plan_block_count_total}
use s_llm.Runtime.Placement.{
  host, Recipe, KvMemoryPlan, sized_plan, make_plan, plan_from_recipe, budget_of_recipe,
  kv_bytes_per_token, KvBackend, make_backend, reserve, release, HostKvBackend, gather,
}
use s_llm.Runtime.Placement.Budget.{reserved_within_budget}
use s_llm.Runtime.Placement.Reserve.{
  reserved, IsSized, Use, reserves, releases, after_use, after_uses,
}
use s_llm.Runtime.Placement.Store.{
  HostUse, stores, frees, after_host_uses, last_use, gather-after_host_uses,
}

-- The double that is written 0.9.
abbrev nine_tenths : Float
nine_tenths = record { mantissa = 8106479329266893; exponent = 53 }

abbrev four_gib : ℕ
four_gib = 4294967296

used_part : truncated_product four_gib nine_tenths ≡ 3865470566
unfolding truncated_product rounded halvings nearest
used_part = refl

block_count : plan_block_count (pos four_gib) (pos 32768) (pos 16) nine_tenths ≡ ok 7372
unfolding plan_block_count truncated_product rounded halvings nearest
block_count = refl

-- 4 GiB in blocks of 16 tokens
qwen3_5_profile :
    qwen3_5_kv_profile (pos 16) 1 (some (record { mantissa = 4; exponent = 0 })) nine_tenths
    ≡ ok (record {
      profile_bytes_per_token = 32768;
      profile_block_size = pos 16;
      profile_num_blocks = some 7372;
      profile_max_total_tokens = some 117952;
    })
unfolding qwen3_5_kv_profile plan_block_count truncated_product rounded halvings nearest
qwen3_5_profile = refl

plan_block_count_total_example :
    ((false ≡ true)
      × (plan_block_count (pos four_gib) (pos 32768) (pos 16) nine_tenths ≡ err value_error))
    ⊎ ((false ≡ false)
        × (n : ℕ) × (plan_block_count (pos four_gib) (pos 32768) (pos 16) nine_tenths ≡ ok n)
        × (n * 524288 ≤ four_gib)
        × (truncated_product four_gib nine_tenths < suc n * 524288))
plan_block_count_total_example =
    plan_block_count_total (pos four_gib) (pos 32768) (pos 16) nine_tenths (omega arith)

abbrev qwen : Qwen4Config
qwen = record {
  layer_types = linear_attention ∷ linear_attention ∷ full_attention ∷ [];
  attn_kv_heads = 2;
  attn_head_dim = 64;
  idx_dim = 32;
  idx_ratio = 4;
  lin_k_heads = 2;
  lin_k_dim = 16;
  lin_v_heads = 4;
  lin_v_dim = 16;
  lin_conv = 4;
}

abbrev deepseek : DeepseekConfig
deepseek = record { compress_ratios = 0 ∷ 4 ∷ 128 ∷ []; head_dim = 512; index_head_dim = 128 }

abbrev recipe : Recipe
recipe = record {
  layer_types = linear_attention ∷ full_attention ∷ [];
  num_heads = 8;
  num_kv_heads = 4;
  head_dim = none;
  hidden_size = 512;
  memory = record {
    kv_placement = host;
    kv_host_bytes = some 1000000;
    kv_device_bytes = none;
    kv_utilization = nine_tenths;
  };
}

abbrev plan : KvMemoryPlan
plan = sized_plan host nine_tenths 1024 1000000 16

plan-made : plan_from_recipe recipe 16 none ≡ ok plan
unfolding plan_from_recipe make_plan kv_bytes_per_token budget_of_recipe full_layers
plan-made = refl

-- 900000 bytes are used, in blocks of 16 * 1024.
plan-blocks : plan.num_blocks ≡ 54
unfolding truncated_product rounded halvings nearest
plan-blocks = refl

recipe_budget : budget_of_recipe recipe.memory none < 9007199254740992
unfolding budget_of_recipe
recipe_budget = omega arith

abbrev uses : List Use
uses = reserves 1 20 ∷ reserves 2 30 ∷ reserves 3 5 ∷ releases 1 ∷ reserves 1 4 ∷ []

-- The third reservation does not fit.
uses-reserved : (after_uses (make_backend plan) uses).blocks ≡ (2, 30) ∷ (1, 4) ∷ []
unfolding after_uses after_use reserve release has lookup put without truncated_product rounded
    halvings nearest
uses-reserved = refl

reserved_within_budget_example :
    reserved (after_uses (make_backend plan) uses).blocks * 16 * 1024
    ≤ budget_of_recipe recipe.memory none
reserved_within_budget_example =
    reserved_within_budget recipe 16 none plan uses refl recipe_budget plan-made

abbrev half_full : KvBackend
half_full = record { plan = plan; blocks = (1, 20) ∷ (2, 30) ∷ []; blocks_free = 4 }

half_full-IsSized : IsSized half_full
unfolding lookup reserved truncated_product rounded halvings nearest
half_full-IsSized = record { distinct = (refl, (refl, tt)); sized = refl }

abbrev arrays : HostKvBackend ℕ
arrays = record { backend = half_full; arrays = (1, (0, (5, 6)) ∷ []) ∷ [] }

abbrev as_float : ℕ → ℕ
as_float n = n

-- Layer 3 is stored twice, and layer 0 stays.
abbrev later_uses : List (HostUse ℕ)
later_uses = stores 1 3 7 8 ∷ frees 2 ∷ stores 1 3 9 9 ∷ []

gather-after_host_uses_example :
    gather (after_host_uses as_float arrays later_uses) 1 3
    ≡ last_use as_float later_uses 1 3 (gather arrays 1 3)
gather-after_host_uses_example = gather-after_host_uses as_float later_uses arrays 1 3

last_stored : last_use as_float later_uses 1 3 (gather arrays 1 3) ≡ ok (9, 9)
unfolding last_use gather lookup
last_stored = refl
