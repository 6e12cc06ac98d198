-- ===== src/Loaders/Plans.antt =====
-- `plan_for` and the constructors of the two sharding classes of loaders/tp_shard.py.
use Prim.Native.String.{String}
use s_llm.Prelude.{
  ℕ, ◌*◌, ◌%◌, Bool, true, ◌&&◌, ◌||◌, not, Option, some, List, [], ◌∷◌, leb, ◌==◌, if◌then◌else◌,
  Result, ok, err, shard_error,
}
use s_llm.Loaders.Names.{Piece, text, number, one_of, codes, matched, matches}
use s_llm.Loaders.Shard.{TensorPlan, replicated, vocab, split_out, split_in, experts, Sharding}

-- The fields of `Qwen4ExpCfg` that the plans read.
pub record Qwen4Geometry : Type 0 where
  pub attn_heads : ℕ
  pub attn_kv_heads : ℕ
  pub attn_head_dim : ℕ
  pub lin_k_heads : ℕ
  pub lin_k_dim : ℕ
  pub lin_v_heads : ℕ
  pub lin_v_dim : ℕ
  pub n_experts : ℕ

-- `^model\.language_model\.layers\.(\d+)` and what follows
abbrev layer : List Piece → List Piece
layer ps = text "model.language_model.layers." ∷ number ∷ ps

abbrev pub qwen_embed : List Piece
qwen_embed = text "model.language_model.embed_tokens.weight" ∷ []

abbrev pub qwen_lm_head : List Piece
qwen_lm_head = text "lm_head.weight" ∷ []

abbrev pub qwen_q : List Piece
qwen_q = layer (text ".self_attn.q_proj.weight" ∷ [])

abbrev pub qwen_kv : List Piece
qwen_kv = layer (text ".self_attn." ∷ one_of ("k" ∷ "v" ∷ []) ∷ text "_proj.weight" ∷ [])

abbrev pub qwen_o : List Piece
qwen_o = layer (text ".self_attn.o_proj.weight" ∷ [])

abbrev pub gdn_qkv : List Piece
gdn_qkv = layer (text ".linear_attn.in_proj_qkv.weight" ∷ [])

abbrev pub gdn_z : List Piece
gdn_z = layer (text ".linear_attn.in_proj_z.weight" ∷ [])

abbrev pub gdn_ba : List Piece
gdn_ba = layer (text ".linear_attn.in_proj_" ∷ one_of ("a" ∷ "b" ∷ []) ∷ text ".weight" ∷ [])

abbrev pub gdn_conv : List Piece
gdn_conv = layer (text ".linear_attn.conv1d.weight" ∷ [])

abbrev pub gdn_dt : List Piece
gdn_dt = layer (text ".linear_attn." ∷ one_of ("A_log" ∷ "dt_bias" ∷ []) ∷ [])

abbrev pub gdn_out : List Piece
gdn_out = layer (text ".linear_attn.out_proj.weight" ∷ [])

abbrev pub qwen_expert : List Piece
qwen_expert = layer (
    text ".mlp.experts."
    ∷ number
    ∷ text "."
    ∷ one_of ("gate" ∷ "up" ∷ "down" ∷ [])
    ∷ text "_proj.weight"
    ∷ [])

-- `int(m.group(2))` for the experts, and everything else is replicated.
abbrev pub expert_or_replicated : Option (List ℕ) → TensorPlan
expert_or_replicated (some (l ∷ e ∷ [])) = experts e
expert_or_replicated _ = replicated

unfoldable pub qwen_plan_for : Qwen4Geometry → String → TensorPlan
qwen_plan_for c name =
    if matches qwen_embed name || matches qwen_lm_head name
    then vocab
    else if matches qwen_q name
    then split_out ((c.attn_heads * 2 * c.attn_head_dim, 2 * c.attn_head_dim) ∷ [])
    else if matches qwen_kv name
    then split_out ((c.attn_kv_heads * c.attn_head_dim, c.attn_head_dim) ∷ [])
    else if matches qwen_o name
    then split_in (c.attn_heads * c.attn_head_dim) c.attn_head_dim
    else if matches gdn_qkv name || matches gdn_conv name
    then (let kd = c.lin_k_heads * c.lin_k_dim in
        let vd = c.lin_v_heads * c.lin_v_dim in
        split_out ((kd, c.lin_k_dim) ∷ (kd, c.lin_k_dim) ∷ (vd, c.lin_v_dim) ∷ []))
    else if matches gdn_z name
    then split_out ((c.lin_v_heads * c.lin_v_dim, c.lin_v_dim) ∷ [])
    else if matches gdn_ba name || matches gdn_dt name
    then split_out ((c.lin_v_heads, 1) ∷ [])
    else if matches gdn_out name
    then split_in (c.lin_v_heads * c.lin_v_dim) c.lin_v_dim
    else expert_or_replicated (matched qwen_expert (codes name))

-- `n % tp` for each of the counts
unfoldable pub all_divide : ℕ → List ℕ → Bool
all_divide tp [] = true
all_divide tp (n ∷ ns) = n % tp == 0 && all_divide tp ns

unfoldable pub make_qwen4_sharding : Qwen4Geometry → ℕ → ℕ → Result Sharding
make_qwen4_sharding c tp block =
    if leb tp 1
    then err shard_error
    else if not (
        all_divide tp
          (c.attn_heads ∷ c.attn_kv_heads ∷ c.lin_k_heads ∷ c.lin_v_heads ∷ c.n_experts ∷ []))
    then err shard_error
    else ok
        (record { tp = tp; block = block; num_experts = c.n_experts; plan_for = qwen_plan_for c })

-- The fields of `DeepseekV4Cfg` that the plans read.
pub record DeepseekGeometry : Type 0 where
  pub n_heads : ℕ
  pub head_dim : ℕ
  pub q_lora_rank : ℕ
  pub o_groups : ℕ
  pub o_lora_rank : ℕ
  pub index_n_heads : ℕ
  pub index_head_dim : ℕ
  pub n_routed_experts : ℕ

-- `^layers\.\d+` and `^mtp\.\d+`
abbrev flat_layer : List Piece → List Piece
flat_layer ps = text "layers." ∷ number ∷ ps

abbrev mtp : List Piece → List Piece
mtp ps = text "mtp." ∷ number ∷ ps

abbrev pub ds_embed : List Piece
ds_embed = text "embed.weight" ∷ []

abbrev pub ds_head : List Piece
ds_head = text "head.weight" ∷ []

abbrev pub ds_wq_a : List Piece
ds_wq_a = flat_layer (text ".attn.wq_a.weight" ∷ [])

abbrev pub ds_wq_b : List Piece
ds_wq_b = flat_layer (text ".attn.wq_b.weight" ∷ [])

abbrev pub ds_wo_a : List Piece
ds_wo_a = flat_layer (text ".attn.wo_a.weight" ∷ [])

abbrev pub ds_wo_b : List Piece
ds_wo_b = flat_layer (text ".attn.wo_b.weight" ∷ [])

abbrev pub ds_idx_wq_b : List Piece
ds_idx_wq_b = flat_layer (text ".attn.indexer.wq_b.weight" ∷ [])

abbrev pub ds_idx_wproj : List Piece
ds_idx_wproj = flat_layer (text ".attn.indexer.weights_proj.weight" ∷ [])

abbrev pub ds_expert : List Piece
ds_expert = flat_layer (
    text ".ffn.experts." ∷ number ∷ text ".w" ∷ one_of ("1" ∷ "2" ∷ "3" ∷ []) ∷ text ".weight" ∷ [])

abbrev pub mtp_wq_b : List Piece
mtp_wq_b = mtp (text ".attn.wq_b.weight" ∷ [])

abbrev pub mtp_wo_a : List Piece
mtp_wo_a = mtp (text ".attn.wo_a.weight" ∷ [])

abbrev pub mtp_wo_b : List Piece
mtp_wo_b = mtp (text ".attn.wo_b.weight" ∷ [])

abbrev pub markov_w1 : List Piece
markov_w1 = mtp (text ".markov_head.markov_w1.weight" ∷ [])

abbrev pub markov_w2 : List Piece
markov_w2 = mtp (text ".markov_head.markov_w2.weight" ∷ [])

unfoldable pub deepseek_plan_for : DeepseekGeometry → String → TensorPlan
deepseek_plan_for c name =
    if matches ds_embed name || matches ds_head name
    then vocab
    else if matches ds_wq_a name
    then split_out ((c.q_lora_rank, 1) ∷ [])
    else if matches ds_wq_b name
    then split_out ((c.n_heads * c.head_dim, c.head_dim) ∷ [])
    else if matches ds_wo_a name
    then split_out ((c.o_groups * c.o_lora_rank, c.o_lora_rank) ∷ [])
    else if matches ds_wo_b name
    then split_in (c.o_groups * c.o_lora_rank) c.o_lora_rank
    else if matches ds_idx_wq_b name
    then split_out ((c.index_n_heads * c.index_head_dim, c.index_head_dim) ∷ [])
    else if matches ds_idx_wproj name
    then split_out ((c.index_n_heads, 1) ∷ [])
    else if matches mtp_wq_b name
    then split_out ((c.n_heads * c.head_dim, c.head_dim) ∷ [])
    else if matches mtp_wo_a name
    then split_out ((c.o_groups * c.o_lora_rank, c.o_lora_rank) ∷ [])
    else if matches mtp_wo_b name
    then split_in (c.o_groups * c.o_lora_rank) c.o_lora_rank
    else if matches markov_w1 name || matches markov_w2 name
    then vocab
    else expert_or_replicated (matched ds_expert (codes name))

unfoldable pub make_deepseek_sharding : DeepseekGeometry → ℕ → ℕ → Result Sharding
make_deepseek_sharding c tp block =
    if leb tp 1
    then err shard_error
    else if not (all_divide tp (c.n_heads ∷ c.o_groups ∷ c.index_n_heads ∷ c.n_routed_experts ∷ []))
    then err shard_error
    else ok (record {
      tp = tp;
      block = block;
      num_experts = c.n_routed_experts;
      plan_for = deepseek_plan_for c;
    })
