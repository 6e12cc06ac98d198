-- ===== src/Serving/Facade.antt =====
-- serving/batched_server.py: how `BatchedServingEngine` sizes the engine it wraps, and the check of a
-- request before it is admitted. An argument or an environment variable that is not given is `none`.
pub mod Handshake
pub mod Jobs
pub mod Loop
pub mod Sizing
pub mod Counted
pub mod Lifecycle
pub mod History
pub mod Running
pub mod Stream
pub mod Failing
pub mod Aborting
use s_llm.Prelude.{
  ℕ, zero, suc, ◌+◌, ◌-◌, ◌*◌, ◌/◌, ◌%◌, ◌^◌, ◌≤◌, ◌<◌, ◌≡◌, ◌≢◌, refl, sym, ap, ◌∙◌, subst, min,
  ◌⊎◌, inl, inr, ◌↔◌, Bool, true, false, ◌&&◌, ◌||◌, not, Option, none, some, List, [], ◌∷◌, ◌++◌,
  map, arith, ltb, leb, ◌==◌, if◌then◌else◌, bit, length, take, drop, replicate, keep, all, count,
  member, sum, range_from, Outcome, returns, raises, state_of, Result, ok, err, ◌>>=◌, >>=-eq-ok,
  ok_inj, Result-cases, List-cases, Error, value_error, key_error, index_error, out_of_capacity,
  collectives_error, shard_error, runtime_error, ℤ, pos, negsuc, Bool-cases, Option-cases, leb→le,
  le→leb, ltb→lt, lt→ltb, ==_refl, ==_iff, length-append, take-append-drop, length-take,
  length-drop, count-append, count-split, length-range_from, count-range_from,
}
use s_llm.Prelude.Dict.{
  Dict, lookup, put, without, has, Distinct, lookup-put, lookup-without, put-Distinct,
  without-Distinct, without_missing, length-put_missing, length-put_present, length-without,
  without-put_missing,
}
use s_llm.Serving.Engine.{Engine, make_engine}

unfoldable pub blocks_for : ℕ → ℕ → ℕ
blocks_for tokens block_size = if ltb 0 tokens then (tokens + block_size - 1) / block_size else 0

-- `v or default`, where `v` may be `None`.
abbrev pub or_else : Option ℤ → ℤ → ℤ
or_else none d = d
or_else (some (negsuc n)) d = negsuc n
or_else (some (pos v)) d = if v == 0 then d else pos v

-- The value of an environment variable, or its default: `env_config.get_int`.
abbrev pub or_default : Option ℤ → ℤ → ℤ
or_default none d = d
or_default (some v) d = v

-- `if v < 1: v = d`
abbrev pub at_least_one : ℤ → ℕ → ℕ
at_least_one (negsuc n) d = d
at_least_one (pos v) d = if ltb v 1 then d else v

-- `max(1, v)`
abbrev pub max_one : ℤ → ℕ
max_one (negsuc n) = 1
max_one (pos v) = if ltb 1 v then v else 1

-- `min(v, bound)`
abbrev pub min_with : ℤ → ℕ → ℤ
min_with (negsuc n) bound = negsuc n
min_with (pos v) bound = pos (min v bound)

-- The keyword arguments of the constructor, or the variables SLLM_BLOCK_SIZE and so on.
pub record Settings : Type 0 where
  pub kv_capacity : Option ℤ
  pub state_capacity : Option ℤ
  pub block_size : Option ℤ
  pub chunk_size : Option ℤ
  pub max_concurrency : Option ℤ
  pub max_queued : Option ℤ

pub record Sizes : Type 0 where
  pub block_size : ℕ
  pub chunk_size : ℕ
  pub max_concurrency : ℕ
  pub state_capacity : ℕ
  pub kv_capacity : ℕ
  pub max_context : ℕ
  pub max_queued : ℕ

-- `_HARD_MAX_BLOCKS`
abbrev pub hard_max_blocks : ℕ
hard_max_blocks = 200000

-- `kv_capacity`, from the argument, the blocks of the `KVMemoryPlan` where there is one, and the need.
abbrev pub blocks_wanted : Option ℤ → Option ℕ → ℕ → ℤ
blocks_wanted (some kv) plan need = kv
blocks_wanted none none need = pos need
blocks_wanted none (some blocks) need = pos (if ltb 0 blocks then min blocks need else need)

-- The sizing in the constructor; `plan` makes the plan for a block size.
unfoldable pub sizes : Settings → Settings → ℕ → (ℕ → Option ℕ) → Sizes
sizes args env max_context plan =
    let concurrency =
      at_least_one (or_else args.max_concurrency (or_default env.max_concurrency (pos 8))) 1 in
    let block = at_least_one (or_else args.block_size (or_default env.block_size (pos 16))) 16 in
    let chunk = at_least_one (or_else args.chunk_size (or_default env.chunk_size (pos 32))) 32 in
    let state =
      at_least_one (or_else args.state_capacity (or_default env.state_capacity (pos concurrency)))
        concurrency in
    let need = blocks_for max_context block * concurrency in
    record {
      block_size = block;
      chunk_size = chunk;
      max_concurrency = concurrency;
      state_capacity = state;
      kv_capacity =
          max_one (min_with (blocks_wanted args.kv_capacity (plan block) need) hard_max_blocks);
      max_context = max_context;
      max_queued =
          max_one (or_default args.max_queued (or_default env.max_queued (pos (concurrency * 4))));
    }

-- `self.batched`: the engine of these sizes.
unfoldable pub engine_of :
    {L C G R T : Type 0} → Sizes → Option ℕ → Bool → Option (List Bool) → Result (Engine L C G R T)
engine_of z eos inc layers =
    make_engine eos inc layers (pos z.kv_capacity) (pos z.state_capacity) z.block_size z.chunk_size
      z.max_concurrency

-- `_precheck`; the error stands for `InvalidRequestError`.
unfoldable pub precheck : Sizes → ℕ → ℕ → Result (Unit {0})
precheck z prompt_len max_new =
    if ltb max_new 1
    then err value_error
    else if not (z.max_context == 0) && ltb z.max_context (prompt_len + max_new)
    then err value_error
    else if ltb z.kv_capacity (blocks_for (prompt_len + max_new) z.block_size)
    then err value_error
    else ok tt
