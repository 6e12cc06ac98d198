-- ===== src/Runtime/Placement.antt =====
-- runtime/placement.py: the sized plan for KV memory, the reservation of its blocks, and the store in
-- host memory. Byte counts are natural numbers; `unknown` is any string but "device" and "host".
-- What the source passes to numpy for conversion is stored as `as_f32` of it.
pub mod Budget
pub mod Reserve
pub mod Store
use s_llm.Prelude.{
  ℕ, zero, suc, ◌+◌, ◌-◌, ◌*◌, ◌/◌, ◌%◌, ◌^◌, ◌≤◌, ◌<◌, ◌≡◌, ◌≢◌, refl, sym, ap, ◌∙◌, subst, min,
  ◌⊎◌, inl, inr, ◌↔◌, Bool, true, false, ◌&&◌, ◌||◌, not, Option, none, some, List, [], ◌∷◌, ◌++◌,
  map, arith, ltb, leb, ◌==◌, if◌then◌else◌, bit, length, take, drop, replicate, keep, all, count,
  member, sum, range_from, Outcome, returns, raises, state_of, Result, ok, err, ◌>>=◌, Error,
  value_error, key_error, index_error, out_of_capacity, collectives_error, shard_error, ℤ, pos,
  negsuc, Bool-cases, Option-cases, leb→le, le→leb, ltb→lt, lt→ltb, ==_refl, ==_iff, length-append,
  take-append-drop, length-take, length-drop, count-append, count-split, length-range_from,
  count-range_from,
}
use s_llm.Prelude.Dict.{
  Dict, lookup, put, without, has, Distinct, lookup-put, lookup-without, put-Distinct,
  without-Distinct, without_missing, length-put_missing, length-put_present, length-without,
  without-put_missing,
}
use s_llm.Runtime.Floats.{Float, truncated_product}
use s_llm.Runtime.Planner.{LayerType, full_layers, fp8_kv_bytes_per_token}

pub data Placement : Type 0 where
  device host unknown : Placement

pub record MemorySpec : Type 0 where
  pub kv_placement : Placement
  pub kv_host_bytes : Option ℕ
  pub kv_device_bytes : Option ℕ
  pub kv_utilization : Float

-- The fields of the recipe that placement reads; `num_heads` is at least 1.
pub record Recipe : Type 0 where
  pub layer_types : List LayerType
  pub num_heads : ℕ
  pub num_kv_heads : ℕ
  pub head_dim : Option ℕ
  pub hidden_size : ℕ
  pub memory : MemorySpec

abbrev pub effective_head_dim : Option ℕ → ℕ → ℕ → ℕ
effective_head_dim none hidden_size num_heads = hidden_size / num_heads
effective_head_dim (some n) hidden_size num_heads = n

unfoldable pub kv_bytes_per_token : Recipe → ℕ → ℕ
kv_bytes_per_token r kv_bytes =
    fp8_kv_bytes_per_token (full_layers r.layer_types) r.num_kv_heads
      (effective_head_dim r.head_dim r.hidden_size r.num_heads) kv_bytes

pub record KvMemoryPlan : Type 0 where
  pub placement : Placement
  pub utilization : Float
  pub bytes_per_token : ℕ
  pub budget_bytes : ℕ
  pub block_size : ℕ
  pub num_blocks : ℕ
  pub max_tokens : ℕ

-- `budget // per_block if per_block else 0`
abbrev pub blocks_in : ℕ → ℕ → ℕ
blocks_in budget per_block = if per_block == 0 then 0 else budget / per_block

-- `placement not in ("device", "host")`
abbrev pub is_unknown : Placement → Bool
is_unknown device = false
is_unknown host = false
is_unknown unknown = true

-- What the constructor sets.
abbrev pub sized_plan : Placement → Float → ℕ → ℕ → ℕ → KvMemoryPlan
sized_plan placement utilization bytes_per_token budget_bytes block_size =
    let num_blocks =
      blocks_in (truncated_product budget_bytes utilization) (bytes_per_token * block_size) in
    record {
      placement = placement;
      utilization = utilization;
      bytes_per_token = bytes_per_token;
      budget_bytes = budget_bytes;
      block_size = block_size;
      num_blocks = num_blocks;
      max_tokens = num_blocks * block_size;
    }

unfoldable pub make_plan : Placement → Float → ℕ → ℕ → ℕ → Result KvMemoryPlan
make_plan placement utilization bytes_per_token budget_bytes block_size =
    if is_unknown placement
    then err value_error
    else ok (sized_plan placement utilization bytes_per_token budget_bytes block_size)

abbrev pub device_default_bytes : ℕ
device_default_bytes = 4 * 1024 ^ 3

abbrev pub host_default_bytes : ℕ
host_default_bytes = 8 * 1024 ^ 3

-- `value or default`
abbrev pub value_or : Option ℕ → ℕ → ℕ
value_or none default = default
value_or (some zero) default = default
value_or (some (suc n)) default = suc n

-- `4 if mem.kv_placement == "device" else 2`
abbrev pub element_bytes : Placement → ℕ
element_bytes device = 4
element_bytes host = 2
element_bytes unknown = 2

-- The budget: the argument, or what the recipe or the default says for the placement.
abbrev pub default_budget : MemorySpec → Placement → ℕ
default_budget mem device = value_or mem.kv_device_bytes device_default_bytes
default_budget mem host = value_or mem.kv_host_bytes host_default_bytes
default_budget mem unknown = value_or mem.kv_device_bytes device_default_bytes

unfoldable pub budget_of_recipe : MemorySpec → Option ℕ → ℕ
budget_of_recipe mem (some kv_avail_bytes) = kv_avail_bytes
budget_of_recipe mem none = default_budget mem mem.kv_placement

unfoldable pub plan_from_recipe : Recipe → ℕ → Option ℕ → Result KvMemoryPlan
plan_from_recipe recipe block_size kv_avail_bytes =
    let mem = recipe.memory in
    make_plan mem.kv_placement mem.kv_utilization
      (kv_bytes_per_token recipe (element_bytes mem.kv_placement))
      (budget_of_recipe mem kv_avail_bytes) block_size

pub record KvBackend : Type 0 where
  pub plan : KvMemoryPlan
  pub blocks : Dict ℕ
  pub blocks_free : ℕ

abbrev pub make_backend : KvMemoryPlan → KvBackend
make_backend plan = record { plan = plan; blocks = []; blocks_free = plan.num_blocks }

unfoldable pub reserve : KvBackend → ℕ → ℕ → Outcome KvBackend (Unit {0})
reserve b seq_id num_blocks =
    if has seq_id b.blocks
    then raises value_error b
    else if ltb b.blocks_free num_blocks
    then raises out_of_capacity b
    else returns tt (record b {
      blocks = put seq_id num_blocks b.blocks;
      blocks_free = b.blocks_free - num_blocks;
    })

-- `self._blocks.pop(seq_id, 0)`
unfoldable pub release : KvBackend → ℕ → KvBackend
release b seq_id = record b {
  blocks = without seq_id b.blocks;
  blocks_free = b.blocks_free + (elim (lookup seq_id b.blocks) [ none ↦ 0 | some n ↦ n ]);
}

pub record HostKvBackend (F : Type 0) : Type 0 where
  pub backend : KvBackend
  pub arrays : Dict (Dict (F × F))

module _ {A F : Type 0} (as_f32 : A → F) where
  -- `self._store.setdefault(seq_id, {})`
  abbrev pub layers_of : ℕ → Dict (Dict (F × F)) → Dict (F × F)
  layers_of seq_id arrays = elim (lookup seq_id arrays) [ none ↦ [] | some layers ↦ layers ]

  unfoldable pub store : HostKvBackend F → ℕ → ℕ → A → A → HostKvBackend F
  store h seq_id layer k v = record h {
    arrays = put seq_id (put layer (as_f32 k, as_f32 v) (layers_of seq_id h.arrays)) h.arrays;
  }

module _ {F : Type 0} where
  unfoldable pub gather : HostKvBackend F → ℕ → ℕ → Result (F × F)
  gather h seq_id layer = elim (lookup seq_id h.arrays) [
    | none ↦ err key_error
    | some layers ↦ elim (lookup layer layers) [ none ↦ err key_error | some kv ↦ ok kv ]
  ]

  unfoldable pub free_host : HostKvBackend F → ℕ → HostKvBackend F
  free_host h seq_id = record {
    backend = release h.backend seq_id;
    arrays = without seq_id h.arrays;
  }
