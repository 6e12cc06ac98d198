-- ===== src/Serving/Facade/Sizing.antt =====
-- The sizes of the facade fit the engine, and its check of a request fits the engine's admission.
use s_llm.Prelude.{
  ℕ, ◌+◌, ◌≤◌, ◌<◌, ◌≡◌, refl, ◌∙◌, ◌⊎◌, inl, inr, Bool, true, false, ◌&&◌, not, Option, none, some,
  List, [], ◌∷◌, arith, ltb, leb, ◌==◌, range_from, ok, err, value_error, pos, Bool-cases,
  length-range_from,
}
use s_llm.Runtime.Kv.{make_kv}
use s_llm.Runtime.Slots.{make_state}
use s_llm.Runtime.Coordinator.{make_coordinator, blocks_for_tokens}
use s_llm.Runtime.Scheduler.{Scheduler, make_scheduler, new_request, accepts}
use s_llm.Serving.Engine.{Engine, needs_state, make_engine}
use s_llm.Serving.Facade.{blocks_for, Settings, Sizes, sizes, engine_of, precheck}

-- Every size is at least 1.
record IsPositive (z : Sizes) : Type 0 where
  block_pos : 1 ≤ z.block_size
  chunk_pos : 1 ≤ z.chunk_size
  concurrency_pos : 1 ≤ z.max_concurrency
  state_pos : 1 ≤ z.state_capacity
  kv_pos : 1 ≤ z.kv_capacity
  queued_pos : 1 ≤ z.max_queued

sizes-IsPositive :
    (args env : Settings) (ctx : ℕ) (plan : ℕ → Option ℕ) → IsPositive (sizes args env ctx plan)
unfolding sizes
sizes-IsPositive args env ctx plan = record {
  block_pos = ground arith;
  chunk_pos = ground arith;
  concurrency_pos = ground arith;
  state_pos = ground arith;
  kv_pos = ground arith;
  queued_pos = ground arith;
}

abbrev fresh_scheduler : Sizes → Scheduler
fresh_scheduler z = record {
  coord = record {
    kv = record { capacity = z.kv_capacity; free = range_from 0 z.kv_capacity; owner = [] };
    state = record {
      capacity = z.state_capacity;
      free = range_from 0 z.state_capacity;
      owner = [];
    };
    tables = [];
  };
  block_size = z.block_size;
  chunk_size = z.chunk_size;
  max_concurrency = z.max_concurrency;
  waiting = [];
  running = [];
  done = [];
}

make_scheduler-IsPositive :
    (z : Sizes)
    → IsPositive z
    → make_scheduler
        (pos z.kv_capacity)
        (pos z.state_capacity)
        z.block_size
        z.chunk_size
        z.max_concurrency
      ≡ ok (fresh_scheduler z)
unfolding make_scheduler make_coordinator make_kv make_state
make_scheduler-IsPositive z p = ground (arith, p.block_pos, p.chunk_pos, p.concurrency_pos)

fresh-accepts :
    (z : Sizes) (q prompt max_new : ℕ) (use_state : Bool)
    → IsPositive z
    → accepts (fresh_scheduler z) (new_request q prompt max_new use_state)
      ≡ leb (blocks_for (prompt + max_new) z.block_size) z.kv_capacity
unfolding accepts blocks_for blocks_for_tokens
fresh-accepts z q prompt max_new use_state p = ground (
  arith,
  p.concurrency_pos,
  p.state_pos,
  length-range_from 0 z.kv_capacity,
  length-range_from 0 z.state_capacity,
)

-- The limit of the model on the tokens of a request, where there is one.
abbrev pub Within : Sizes → ℕ → Type 0
Within z tokens = (z.max_context ≡ 0) ⊎ (tokens ≤ z.max_context)

-- What the check of a request finds: it passes exactly for a request of at least one token, within the
-- limit of the model, that a scheduler `s` accepts; otherwise it is an error.
abbrev pub Checked : Sizes → Scheduler → ℕ → ℕ → Type 0
Checked z s prompt max_new =
    ((precheck z prompt max_new ≡ ok tt)
      × (1 ≤ max_new)
      × Within z (prompt + max_new)
      × ((q : ℕ) (use_state : Bool) → accepts s (new_request q prompt max_new use_state) ≡ true))
    ⊎ ((precheck z prompt max_new ≡ err value_error)
        × ((max_new ≡ 0)
            ⊎ (((1 ≤ z.max_context) × (z.max_context < prompt + max_new))
                ⊎ ((q : ℕ) (use_state : Bool)
                    → accepts s (new_request q prompt max_new use_state) ≡ false))))

precheck-Checked :
    (z : Sizes) (prompt max_new : ℕ) → IsPositive z → Checked z (fresh_scheduler z) prompt max_new
unfolding precheck
precheck-Checked z prompt max_new p = elim (Bool-cases (ltb max_new 1)) [
  | inl e ↦ inr (rw e refl, inl (ground arith))
  | inr e ↦ elim (Bool-cases (not (z.max_context == 0) && ltb z.max_context (prompt + max_new))) [
    | inl f ↦ inr (rw (e, f) refl, inr (inl (ground arith, ground arith)))
    | inr f ↦ elim (Bool-cases (ltb z.kv_capacity (blocks_for (prompt + max_new) z.block_size))) [
      | inl g ↦ inr (
        rw (e, f, g) refl,
        inr (inr (λ q u. fresh-accepts z q prompt max_new u p ∙ ground arith)),
      )
      | inr g ↦ inl (
        rw (e, f, g) refl,
        ground arith,
        ground arith,
        λ q u. fresh-accepts z q prompt max_new u p ∙ ground arith,
      )
    ]
  ]
]

-- The engine around a new scheduler.
abbrev fresh_engine :
    {L C G R T : Type 0} → Scheduler → Option ℕ → Bool → Option (List Bool) → Engine L C G R T
fresh_engine s eos inc layers = record {
  sched = s;
  seqs = [];
  order = [];
  next_seq = 0;
  stop = elim eos [ none ↦ [] | some t ↦ t ∷ [] ];
  inc = inc;
  use_state = needs_state layers;
}

engine_of-IsPositive :
    {L C G R T : Type 0} (z : Sizes) (eos : Option ℕ) (inc : Bool) (layers : Option (List Bool))
    → IsPositive z
    → engine_of {L = L} {C = C} {G = G} {R = R} {T = T} z eos inc layers
      ≡ ok (fresh_engine (fresh_scheduler z) eos inc layers)
unfolding engine_of make_engine
engine_of-IsPositive z eos inc layers p = rw (make_scheduler-IsPositive z p) refl

-- Whatever the arguments and the environment are, the facade's engine can be made, its queue limit is at
-- least 1, and the check of a request passes exactly where it asks for a token, stays within the limit
-- of the model, and the idle engine accepts it.
pub sizes-Checked :
    {L C G R T : Type 0} (args env : Settings) (ctx : ℕ) (plan : ℕ → Option ℕ) (eos : Option ℕ)
    (inc : Bool) (layers : Option (List Bool)) (prompt max_new : ℕ)
    → let z = sizes args env ctx plan in
      (1 ≤ z.max_queued)
      × (e : Engine L C G R T) × (engine_of z eos inc layers ≡ ok e)
      × Checked z e.sched prompt max_new
sizes-Checked args env ctx plan eos inc layers prompt max_new =
    let z = sizes args env ctx plan in
    let p = sizes-IsPositive args env ctx plan in
    (
      p.queued_pos,
      fresh_engine (fresh_scheduler z) eos inc layers,
      engine_of-IsPositive z eos inc layers p,
      precheck-Checked z prompt max_new p,
    )
