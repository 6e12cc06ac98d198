-- ===== src/Runtime/Scheduler.antt =====
-- `Scheduler` of runtime/scheduler.py: continuous batching over the coordinator. Prompt and output
-- lengths are natural numbers. A request that the source mutates in place is put back into the
-- dict that holds it; what was raised halfway leaves the state that the source would leave.
pub mod Invariant
pub mod Admission
pub mod Pump
pub mod Maximal
pub mod Removal
pub mod Progress
pub mod Abort
pub mod Plan
pub mod Reach
pub mod Termination
pub mod Work
use s_llm.Prelude.{
  ℕ, zero, suc, ◌+◌, ◌-◌, ◌*◌, ◌/◌, ◌%◌, ◌≤◌, ◌<◌, ◌≡◌, ◌≢◌, refl, sym, ap, ◌∙◌, subst, min, ◌⊎◌,
  inl, inr, ◌↔◌, Bool, true, false, ◌&&◌, ◌||◌, not, Option, none, some, List, [], ◌∷◌, ◌++◌, map,
  arith, ltb, leb, ◌==◌, if◌then◌else◌, bit, length, take, drop, replicate, keep, all, count,
  member, sum, range_from, Outcome, returns, raises, state_of, Result, ok, err, ◌>>=◌, Error,
  value_error, key_error, index_error, out_of_capacity, collectives_error, shard_error, ℤ, pos,
  negsuc, Bool-cases, Option-cases, leb→le, le→leb, ltb→lt, lt→ltb, ==_refl, ==_iff, length-append,
  take-append-drop, length-take, length-drop, count-append, count-split, length-range_from,
  count-range_from,
}
use s_llm.Prelude.Dict.{
  Dict, lookup, put, without, has, Distinct, lookup-put, lookup-without, put-Distinct,
  without-Distinct, without_missing, length-put_missing, length-put_present, length-without,
  without-put_missing,
}
use s_llm.Prelude
use s_llm.Runtime.Coordinator.{
  BlockTable, Coordinator, make_coordinator, blocks_for_tokens, new_sequence, free_sequence,
}

pub record Request : Type 0 where
  pub seq_id : ℕ
  pub prompt_len : ℕ
  pub max_new : ℕ
  pub use_state : Bool
  pub position : ℕ
  pub tokens_generated : ℕ
  pub finished : Bool

pub data Phase : Type 0 where
  prefill decode : Phase

pub record Action : Type 0 where
  pub seq_id : ℕ
  pub phase : Phase
  pub from_tok : ℕ
  pub to_tok : ℕ
  pub length : ℕ

pub record Schedule : Type 0 where
  pub actions : List Action

abbrev pub is_prefill : Phase → Bool
is_prefill prefill = true
is_prefill decode = false

abbrev pub prefills : Schedule → List Action
prefills sched = keep (λ a. is_prefill a.phase) sched.actions

abbrev pub decodes : Schedule → List Action
decodes sched = keep (λ a. not (is_prefill a.phase)) sched.actions

abbrev pub num_sequences : Schedule → ℕ
num_sequences sched = Prelude.length sched.actions

abbrev pub tokens_this_step : Schedule → ℕ
tokens_this_step sched = sum (map (λ a. a.length) sched.actions)

pub record Scheduler : Type 0 where
  pub coord : Coordinator
  pub block_size : ℕ
  pub chunk_size : ℕ
  pub max_concurrency : ℕ
  pub waiting : List Request
  pub running : Dict Request
  pub done : List Request

abbrev pub waiting_count : Scheduler → ℕ
waiting_count s = Prelude.length s.waiting

-- `list(self._running.values())`
abbrev pub running_list : Scheduler → List Request
running_list s = map (λ (e : ℕ × Request). e.1) s.running

-- `self.coord.tables[seq_id]`
unfoldable pub table : Scheduler → ℕ → Result BlockTable
table s seq_id = elim (lookup seq_id s.coord.tables) [ none ↦ err key_error | some t ↦ ok t ]

unfoldable pub make_scheduler : ℤ → ℤ → ℕ → ℕ → ℕ → Result Scheduler
make_scheduler kv_capacity state_capacity block_size chunk_size max_concurrency =
    if ltb chunk_size 1 || ltb block_size 1 || ltb max_concurrency 1
    then err value_error
    else make_coordinator kv_capacity state_capacity >>= λ c. ok (record {
      coord = c;
      block_size = block_size;
      chunk_size = chunk_size;
      max_concurrency = max_concurrency;
      waiting = [];
      running = [];
      done = [];
    })

-- `any(r.seq_id == seq_id for r in self._waiting)`
unfoldable pub is_waiting : ℕ → List Request → Bool
is_waiting s [] = false
is_waiting s (r ∷ rs) = r.seq_id == s || is_waiting s rs

abbrev pub new_request : ℕ → ℕ → ℕ → Bool → Request
new_request seq_id prompt_len max_new use_state = record {
  seq_id = seq_id;
  prompt_len = prompt_len;
  max_new = max_new;
  use_state = use_state;
  position = 0;
  tokens_generated = 0;
  finished = false;
}

unfoldable pub add : Scheduler → ℕ → ℕ → ℕ → Bool → Outcome Scheduler (Unit {0})
add s seq_id prompt_len max_new use_state =
    if is_waiting seq_id s.waiting || has seq_id s.running
    then raises value_error s
    else returns tt
        (record s { waiting = s.waiting ++ new_request seq_id prompt_len max_new use_state ∷ [] })

abbrev pub ended : Request → Request
ended r = record r { finished = true }

-- The loop of `abort` over the queue: the first request of that id, and the others.
unfoldable pub pick_waiting : ℕ → List Request → Option (Request × List Request)
pick_waiting s [] = none
pick_waiting s (r ∷ rs) =
    let rest = pick_waiting s rs in
    if r.seq_id == s
    then some (r, rs)
    else elim rest [ none ↦ none | some (q, others) ↦ some (q, r ∷ others) ]

unfoldable pub abort_waiting : Scheduler → ℕ → Outcome Scheduler Bool
abort_waiting s seq_id = elim (pick_waiting seq_id s.waiting) [
  | none ↦ returns false s
  | some (r, others) ↦ returns true (record s { waiting = others; done = s.done ++ ended r ∷ [] })
]

unfoldable pub abort : Scheduler → ℕ → Outcome Scheduler Bool
abort s seq_id = elim (lookup seq_id s.running) [
  | none ↦ abort_waiting s seq_id
  | some req ↦
      let popped = without seq_id s.running in
      elim (free_sequence s.coord seq_id) [
        | raises e c ↦ raises e (record s { coord = c; running = popped })
        | returns _ c ↦
            returns true (record s { coord = c; running = popped; done = s.done ++ ended req ∷ [] })
      ]
]

-- `worst` of `_accepts` and `_admit`
abbrev pub worst : Scheduler → Request → ℕ
worst s req = blocks_for_tokens (req.prompt_len + req.max_new) s.block_size

unfoldable pub accepts : Scheduler → Request → Bool
accepts s req =
    if leb s.max_concurrency (length s.running)
    then false
    else if req.use_state && (length s.coord.state.free == 0)
    then false
    else leb (worst s req) (length s.coord.kv.free)

unfoldable pub admit : Scheduler → Request → Outcome Scheduler (Unit {0})
admit s req =
    elim (new_sequence s.coord req.seq_id (worst s req * s.block_size) s.block_size req.use_state) [
      | raises e c ↦ raises e (record s { coord = c })
      | returns _ c ↦ returns tt (record s { coord = c; running = put req.seq_id req s.running })
    ]

-- `except OutOfCapacity: pass`; any other exception leaves `pump`.
abbrev admit_result : Outcome Scheduler (Unit {0}) → Outcome Scheduler Bool
admit_result (returns _ s) = returns true s
admit_result (raises out_of_capacity s) = returns false s
admit_result (raises e s) = raises e s

-- The body of the loop of `pump`: was the request admitted?
unfoldable pub try_admit : Scheduler → Request → Outcome Scheduler Bool
try_admit s req = if accepts s req then admit_result (admit s req) else returns false s

unfoldable pub pump_loop :
    Scheduler → List ℕ → List Request → List Request → Outcome Scheduler (List ℕ)
pump_loop s admitted skipped [] = returns admitted (record s { waiting = skipped })
pump_loop s admitted skipped (req ∷ rest) = elim (try_admit (record s { waiting = rest }) req) [
  | raises e s' ↦ raises e s'
  | returns taken s' ↦ elim taken [
    | true ↦ pump_loop s' (admitted ++ req.seq_id ∷ []) skipped rest
    | false ↦ pump_loop s' admitted (skipped ++ req ∷ []) rest
  ]
]

unfoldable pub pump : Scheduler → Outcome Scheduler (List ℕ)
pump s = pump_loop s [] [] s.waiting

unfoldable pub plan_one : ℕ → Request → List Action
plan_one chunk_size req =
    if req.finished
    then []
    else if ltb req.position req.prompt_len
    then (let n = min chunk_size (req.prompt_len - req.position) in
        record {
          seq_id = req.seq_id;
          phase = prefill;
          from_tok = req.position;
          to_tok = req.position + n;
          length = n;
        }
        ∷ [])
    else record { seq_id = req.seq_id; phase = decode; from_tok = 0; to_tok = 0; length = 1 } ∷ []

unfoldable pub plan_all : ℕ → Dict Request → List Action
plan_all chunk_size [] = []
plan_all chunk_size ((q, req) ∷ rest) = plan_one chunk_size req ++ plan_all chunk_size rest

unfoldable pub schedule : Scheduler → Schedule
schedule s = record { actions = plan_all s.chunk_size s.running }

unfoldable pub step : Scheduler → Outcome Scheduler Schedule
step s = elim (pump s) [ raises e s' ↦ raises e s' | returns _ s' ↦ returns (schedule s') s' ]

-- The request as `advance` moves it.
unfoldable pub moved : Request → Action → Request
moved req action = elim action.phase [
  | prefill ↦ record req { position = min req.prompt_len (req.position + action.length) }
  | decode ↦ record req {
    tokens_generated = req.tokens_generated + (if ltb 0 action.length then action.length else 1);
    position = req.prompt_len;
  }
]

unfoldable pub is_over : Request → Bool → Bool
is_over req eos = eos || (leb req.prompt_len req.position && leb req.max_new req.tokens_generated)

unfoldable pub finish : Scheduler → ℕ → Request → Outcome Scheduler (Unit {0})
finish s q req = if req.finished then returns tt s else elim (free_sequence s.coord req.seq_id) [
  | raises e c ↦ raises e (record s { coord = c; running = put q (ended req) s.running })
  | returns _ c ↦ returns tt (record s {
    coord = c;
    running = without req.seq_id s.running;
    done = s.done ++ ended req ∷ [];
  })
]

unfoldable pub advance : Scheduler → Action → Bool → Outcome Scheduler (Unit {0})
advance s action eos = elim (lookup action.seq_id s.running) [
  | none ↦ raises key_error s
  | some req ↦
      let req' = moved req action in
      let s' = record s { running = put action.seq_id req' s.running } in
      if is_over req' eos then finish s' action.seq_id req' else returns tt s'
]
