-- ===== src/Runtime/Planner.antt =====
-- runtime/memory_planner.py: how many cache blocks, and how many sequences, fit in a number of bytes.
-- Arguments whose sign is tested are integers, the others are natural numbers. The fields of a
-- configuration are those that the planner reads; `idx_ratio` and `lin_conv` are at least 1.
pub mod Fits
use s_llm.Prelude.{
  ℕ, zero, suc, ◌+◌, ◌-◌, ◌*◌, ◌/◌, ◌%◌, ◌^◌, ◌≤◌, ◌<◌, ◌≡◌, ◌≢◌, refl, sym, ap, ◌∙◌, subst, min,
  ◌⊎◌, inl, inr, ◌↔◌, Bool, true, false, ◌&&◌, ◌||◌, not, Option, none, some, List, [], ◌∷◌, ◌++◌,
  map, arith, ltb, leb, ◌==◌, if◌then◌else◌, bit, length, take, drop, replicate, keep, all, count,
  member, sum, range_from, Outcome, returns, raises, state_of, Result, ok, err, ◌>>=◌, Error,
  value_error, key_error, index_error, out_of_capacity, collectives_error, shard_error,
  runtime_error, ℤ, pos, negsuc, Bool-cases, Option-cases, leb→le, le→leb, ltb→lt, lt→ltb, ==_refl,
  ==_iff, length-append, take-append-drop, length-take, length-drop, count-append, count-split,
  length-range_from, count-range_from,
}
use s_llm.Prelude.Dict.{
  Dict, lookup, put, without, has, Distinct, lookup-put, lookup-without, put-Distinct,
  without-Distinct, without_missing, length-put_missing, length-put_present, length-without,
  without-put_missing,
}
use s_llm.Runtime.Floats.{Float, is_fraction, truncated_product, truncated_product-le}
use native.Mathlib.Nat.{mul-div-le, mul_comm, div-lt_iff_lt-mul, le_trans}

abbrev pub fp8_kv_bytes_per_token : ℕ → ℕ → ℕ → ℕ → ℕ
fp8_kv_bytes_per_token num_full_attn_layers num_kv_heads head_dim kv_bytes =
    num_full_attn_layers * 2 * num_kv_heads * head_dim * kv_bytes

-- `n <= 0`
abbrev pub not_positive : ℤ → Bool
not_positive (pos zero) = true
not_positive (pos (suc n)) = false
not_positive (negsuc n) = true

-- `n < 0`
abbrev pub negative : ℤ → Bool
negative (pos n) = false
negative (negsuc n) = true

-- An integer that has passed the tests.
abbrev pub magnitude : ℤ → ℕ
magnitude (pos n) = n
magnitude (negsuc n) = 0

unfoldable pub plan_block_count : ℤ → ℤ → ℤ → Float → Result ℕ
plan_block_count kv_avail_bytes bytes_per_token block_size utilization =
    if not_positive bytes_per_token || not_positive block_size
    then err value_error
    else if negative kv_avail_bytes
    then err value_error
    else if not (is_fraction utilization)
    then err value_error
    else (let per_block = magnitude bytes_per_token * magnitude block_size in
        let budget = truncated_product (magnitude kv_avail_bytes) utilization in
        ok (budget / per_block))

-- The dict of `qwen3_5_kv_profile`; the last two keys are there only with a number of bytes.
pub record KvProfile : Type 0 where
  pub profile_bytes_per_token : ℕ
  pub profile_block_size : ℤ
  pub profile_num_blocks : Option ℕ
  pub profile_max_total_tokens : Option ℕ

-- `int(kv_avail_gib * (1024 ** 3))`: the product with a power of two is exact.
abbrev pub gib_bytes : Float → ℕ
gib_bytes kv_avail_gib = kv_avail_gib.mantissa * 1024 ^ 3 / 2 ^ kv_avail_gib.exponent

unfoldable pub qwen3_5_kv_profile : ℤ → ℕ → Option Float → Float → Result KvProfile
qwen3_5_kv_profile block_size kv_bytes none utilization = ok (record {
  profile_bytes_per_token = fp8_kv_bytes_per_token 16 4 256 kv_bytes;
  profile_block_size = block_size;
  profile_num_blocks = none;
  profile_max_total_tokens = none;
})
qwen3_5_kv_profile block_size kv_bytes (some kv_avail_gib) utilization =
    let per_token = fp8_kv_bytes_per_token 16 4 256 kv_bytes in
    plan_block_count (pos (gib_bytes kv_avail_gib)) (pos per_token) block_size utilization
    >>= λ budget. ok (record {
      profile_bytes_per_token = per_token;
      profile_block_size = block_size;
      profile_num_blocks = some budget;
      profile_max_total_tokens = some (budget * magnitude block_size);
    })

pub data LayerType : Type 0 where
  linear_attention full_attention qsa_attention mla_attention : LayerType

-- `sum(1 for t in cfg.layer_types if t == "full_attention")`
unfoldable pub full_layers : List LayerType → ℕ
full_layers [] = 0
full_layers (linear_attention ∷ ts) = full_layers ts
full_layers (full_attention ∷ ts) = suc (full_layers ts)
full_layers (qsa_attention ∷ ts) = full_layers ts
full_layers (mla_attention ∷ ts) = full_layers ts

-- `sum(1 for t in cfg.layer_types if t == "linear_attention")`
unfoldable pub linear_layers : List LayerType → ℕ
linear_layers [] = 0
linear_layers (linear_attention ∷ ts) = suc (linear_layers ts)
linear_layers (full_attention ∷ ts) = linear_layers ts
linear_layers (qsa_attention ∷ ts) = linear_layers ts
linear_layers (mla_attention ∷ ts) = linear_layers ts

pub record Qwen4Config : Type 0 where
  pub layer_types : List LayerType
  pub attn_kv_heads : ℕ
  pub attn_head_dim : ℕ
  pub idx_dim : ℕ
  pub idx_ratio : ℕ
  pub lin_k_heads : ℕ
  pub lin_k_dim : ℕ
  pub lin_v_heads : ℕ
  pub lin_v_dim : ℕ
  pub lin_conv : ℕ

-- `-(-n // d)`
abbrev pub ceiling : ℕ → ℕ → ℕ
ceiling n d = (n + d - 1) / d

unfoldable pub qwen4_exp_bytes_per_token : Qwen4Config → ℕ → ℕ → ℕ
qwen4_exp_bytes_per_token cfg kv_bytes idx_bytes =
    full_layers cfg.layer_types
    * (2 * cfg.attn_kv_heads * cfg.attn_head_dim * kv_bytes
        + cfg.idx_dim * idx_bytes
        + ceiling cfg.idx_dim cfg.idx_ratio * idx_bytes)

unfoldable pub qwen4_exp_seq_state_bytes : Qwen4Config → ℕ → ℕ
qwen4_exp_seq_state_bytes cfg state_bytes =
    let c = 2 * cfg.lin_k_heads * cfg.lin_k_dim + cfg.lin_v_heads * cfg.lin_v_dim in
    linear_layers cfg.layer_types
    * (cfg.lin_v_heads * cfg.lin_v_dim * cfg.lin_k_dim * state_bytes
        + c * (cfg.lin_conv - 1) * state_bytes)

-- The dict that the plans return.
pub record SequencePlan : Type 0 where
  pub bytes_per_token : ℕ
  pub bytes_per_sequence : ℕ
  pub bytes_per_sequence_at_context : ℕ
  pub max_sequences : ℕ
  pub max_total_tokens : ℕ

-- The common end of `qwen4_exp_plan` and `deepseek_plan`.
abbrev pub sequence_plan : ℕ → ℕ → ℕ → ℕ → SequencePlan
sequence_plan budget per_tok per_seq avg_context =
    let per_seq_full = per_seq + per_tok * avg_context in
    let n_seqs = if per_seq_full == 0 then 0 else budget / per_seq_full in
    record {
      bytes_per_token = per_tok;
      bytes_per_sequence = per_seq;
      bytes_per_sequence_at_context = per_seq_full;
      max_sequences = n_seqs;
      max_total_tokens = n_seqs * avg_context;
    }

unfoldable pub qwen4_exp_plan : Qwen4Config → ℤ → ℤ → ℕ → ℕ → ℕ → Float → Result SequencePlan
qwen4_exp_plan cfg kv_avail_bytes avg_context kv_bytes idx_bytes state_bytes utilization =
    if not_positive avg_context
    then err value_error
    else if negative kv_avail_bytes
    then err value_error
    else if not (is_fraction utilization)
    then err value_error
    else ok (
        sequence_plan (truncated_product (magnitude kv_avail_bytes) utilization)
          (qwen4_exp_bytes_per_token cfg kv_bytes idx_bytes)
          (qwen4_exp_seq_state_bytes cfg state_bytes) (magnitude avg_context))

pub record DeepseekConfig : Type 0 where
  pub compress_ratios : List ℕ
  pub head_dim : ℕ
  pub index_head_dim : ℕ

-- One turn of the loop: `int(kv_bytes * (head_dim / ratio))` is exact division, since a ratio is 4 or
-- 128 where it is not 0 (recipes/schema.py admits no other), and the numbers are small.
abbrev pub layer_bytes : DeepseekConfig → ℕ → ℕ → ℕ → ℕ
layer_bytes cfg kv_bytes idx_bytes ratio =
    kv_bytes * cfg.head_dim
    + (if ratio == 0 then 0 else kv_bytes * cfg.head_dim / ratio)
    + (if ratio == 4 then idx_bytes * cfg.index_head_dim / ratio else 0)

abbrev pub deepseek_bytes_per_token : DeepseekConfig → ℕ → ℕ → ℕ
deepseek_bytes_per_token cfg kv_bytes idx_bytes =
    sum (map (layer_bytes cfg kv_bytes idx_bytes) cfg.compress_ratios)

abbrev pub layer_state : DeepseekConfig → ℕ → ℕ → ℕ
layer_state cfg state_bytes ratio =
    if ratio == 4
    then 2 * (2 * ratio) * (2 * cfg.head_dim) * state_bytes
      + 2 * (2 * ratio) * (2 * cfg.index_head_dim) * state_bytes
    else if ratio == 0
    then 0
    else 2 * ratio * cfg.head_dim * state_bytes

abbrev pub deepseek_seq_state_bytes : DeepseekConfig → ℕ → ℕ
deepseek_seq_state_bytes cfg state_bytes =
    sum (map (layer_state cfg state_bytes) cfg.compress_ratios)

unfoldable pub deepseek_plan : DeepseekConfig → ℤ → ℤ → ℕ → ℕ → ℕ → Float → Result SequencePlan
deepseek_plan cfg kv_avail_bytes avg_context kv_bytes idx_bytes state_bytes utilization =
    if not_positive avg_context || negative kv_avail_bytes || not (is_fraction utilization)
    then err value_error
    else ok (
        sequence_plan (truncated_product (magnitude kv_avail_bytes) utilization)
          (deepseek_bytes_per_token cfg kv_bytes idx_bytes)
          (deepseek_seq_state_bytes cfg state_bytes) (magnitude avg_context))
