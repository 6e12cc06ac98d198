-- ===== src/Tests/Serve.antt =====
-- serving/executor.py at concrete inputs.
use s_llm.Prelude.{
  ℕ, ◌≡◌, refl, true, false, Option, none, some, List, [], ◌∷◌, ◌++◌, ◌==◌, if◌then◌else◌, length,
  returns, state_of, ok, pos,
}
use s_llm.Prelude.Dict.{lookup, put, without, has}
use s_llm.Runtime.Coordinator.{
  make_coordinator, new_sequence, free_sequence, blocks_for_tokens, take_blocks, take_slot,
}
use s_llm.Runtime.Kv.{make_kv, allocate, own_all, free_blocks, validate, release_all, owned_by}
use s_llm.Runtime.Slots.{make_state, allocate_slot, free_slot}
use s_llm.Runtime.Heap.{heappush, heappops}
use s_llm.Runtime.Scheduler
use s_llm.Runtime.Scheduler.{
  Scheduler, make_scheduler, add, advance, is_waiting, pump, pump_loop, try_admit, accepts, admit,
  schedule, plan_all, plan_one, moved, is_over, finish,
}
use s_llm.Runtime.Spec.{generate}
use s_llm.Serving.Model.{Calls, Sampler}
use s_llm.Serving.Engine.{Engine, Info, make_engine, new_info, submit, result_text, results_of}
use s_llm.Serving.Engine.Step.{
  penalized_by, sample_token, next_logits, extended, reported, decode_action, decode_of,
  advance_only, prefill_action, act, act_all, step, run_loop, run_all,
}
use s_llm.Serving.Engine.Greedy.{AllFollow}
use s_llm.Serving.Engine.Served.{begins, submits, steps, Served-AllFollow}
use s_llm.Serving.Engine.Greedy.{greedy_next}
use s_llm.Runtime.Scheduler.Work.{work}
use s_llm.Serving.Engine.Coupled.{InList}
use s_llm.Runtime.Scheduler.{Request}
use s_llm.Runtime.Spec.{generate}
use s_llm.Prelude.{zero, suc, inl, raises, ◌<◌, ◌⊎◌}
use s_llm.Serving.Engine.Answering.{Answering, at_start, asked, stepped}
use s_llm.Serving.Engine.Answers.{HasStalled, finished-generate, run_loop-generate}
use s_llm.Runtime.Scheduler.Reach
use s_llm.Runtime.Scheduler.Reach.{after_calls-IsSound}
use s_llm.Runtime.Scheduler.Invariant.{IsSound}
use s_llm.Serving.Facade.Handshake.{new_facade, timed_out}
use s_llm.Serving.Facade.Loop.{Server, keys, fail_all_batched}
use s_llm.Serving.Facade.Failing.{AllFree, present, fail_all_batched-drained}
use s_llm.Serving.Facade.Loop.{drain_aborts}
use s_llm.Serving.Facade.Aborting.{drain_aborts-exact}
use s_llm.Prelude.{ltb, if◌then◌else◌, false}
use s_llm.Prelude.{runtime_error, member, arith}
use s_llm.Prelude.Dict.{lookup, has, put}

-- A model whose next token is the number of tokens, and whose cache is the list of tokens.
abbrev after_step : List ℕ → Option ℕ → List ℕ
after_step c none = c
after_step c (some t) = c ++ t ∷ []

abbrev counter : Calls ℕ (List ℕ)
counter = record {
  logits = λ ids. length ids;
  prefill = λ ids. (ids, length ids);
  decode_step = λ c t. (after_step c t, length (after_step c t));
}

-- Floating-point numbers and generators are natural numbers.
abbrev plain_sampler : Sampler ℕ ℕ ℕ
plain_sampler = record {
  is_one = λ r. r == 1;
  not_positive = λ r. r == 0;
  penalized = λ l ids r. l;
  greedy = λ l. l;
  sample = λ l t k p g. (l, g);
}

abbrev TestEngine : Type 0
TestEngine = Engine ℕ (List ℕ) ℕ ℕ (List ℕ)

abbrev idle : Scheduler
idle = record {
  coord = record {
    kv = record { capacity = 4; free = 0 ∷ 1 ∷ 2 ∷ 3 ∷ []; owner = [] };
    state = record { capacity = 2; free = 0 ∷ 1 ∷ []; owner = [] };
    tables = [];
  };
  block_size = 4;
  chunk_size = 8;
  max_concurrency = 2;
  waiting = [];
  running = [];
  done = [];
}

abbrev fresh : TestEngine
fresh = record {
  sched = idle;
  seqs = [];
  order = [];
  next_seq = 0;
  stop = 9 ∷ [];
  inc = false;
  use_state = true;
}

fresh-made :
    make_engine {L = ℕ} {C = List ℕ} {G = ℕ} {R = ℕ} {T = List ℕ}
      (some 9)
      false
      none
      (pos 4)
      (pos 2)
      4
      8
      2
    ≡ ok fresh
unfolding make_engine make_scheduler make_coordinator make_kv make_state
fresh-made = refl

abbrev request : Info ℕ (List ℕ) ℕ ℕ (List ℕ)
request = new_info (1 ∷ 2 ∷ []) 3 (some 0) none none 0 none none

abbrev waiting_one : TestEngine
waiting_one = state_of (submit fresh none request)

Served-AllFollow_example :
    AllFollow counter plain_sampler (state_of (step counter plain_sampler waiting_one))
Served-AllFollow_example =
    Served-AllFollow counter plain_sampler (λ ids. ids) fresh
      (state_of (step counter plain_sampler waiting_one))
      (record { recomputes = refl; follow = tt })
      (steps waiting_one (submits fresh none (1 ∷ 2 ∷ []) 3 0 none none 0 none none begins refl))

run-results :
    run_all counter plain_sampler (λ ids. ids) 20 waiting_one
    ≡ returns
        ((2 ∷ 3 ∷ 4 ∷ []) ∷ [])
        (state_of (run_all counter plain_sampler (λ ids. ids) 20 waiting_one))
unfolding run_all run_loop step act_all act prefill_action advance_only decode_of decode_action
    reported extended next_logits sample_token penalized_by submit result_text results_of
    Scheduler.step schedule plan_all plan_one advance moved is_over finish add is_waiting pump
    pump_loop try_admit accepts admit new_sequence take_blocks take_slot allocate allocate_slot
    blocks_for_tokens heappops own_all put has lookup without free_sequence free_blocks validate
    release_all owned_by heappush free_slot
run-results = refl

-- The engine after four steps: one for the prompt, and one for each token.
abbrev after : ℕ → TestEngine
after zero = waiting_one
after (suc n) = state_of (step counter plain_sampler (after n))

asked_one : (n : ℕ) → Answering counter plain_sampler fresh (after n)
asked_one zero = asked fresh none (1 ∷ 2 ∷ []) 3 0 none none 0 none none at_start refl (omega arith)
asked_one (suc n) = stepped (after n) (asked_one n)

abbrev answered : Request
answered = record {
  seq_id = 0;
  prompt_len = 2;
  max_new = 3;
  use_state = true;
  position = 2;
  tokens_generated = 3;
  finished = true;
}

answered-done : InList answered (after 4).sched.done
unfolding step act_all act prefill_action advance_only decode_of decode_action reported extended
    next_logits sample_token penalized_by submit Scheduler.step schedule plan_all plan_one advance
    moved is_over finish add is_waiting pump pump_loop try_admit accepts admit new_sequence
    take_blocks take_slot allocate allocate_slot blocks_for_tokens heappops own_all put has lookup
    without free_sequence free_blocks validate release_all owned_by heappush free_slot
answered-done = inl refl

finished-generate_example :
    (info : Info ℕ (List ℕ) ℕ ℕ (List ℕ)) × (lookup 0 (after 4).seqs ≡ some info)
    × (info.prompt ++ info.gen
        ≡ generate
            (greedy_next counter plain_sampler info.rep)
            none
            (after 4).stop
            info.max_new
            info.prompt)
finished-generate_example =
    finished-generate counter plain_sampler (some 9) none (pos 4) (pos 2) 4 8 2 fresh (after 4)
      fresh-made (asked_one 4) answered answered-done

abbrev looped : TestEngine
looped = state_of (run_loop counter plain_sampler 20 waiting_one)

abbrev told_all : Info ℕ (List ℕ) ℕ ℕ (List ℕ)
told_all = record request { gen = 2 ∷ 3 ∷ 4 ∷ []; last_id = some 4 }

looped-told_all : lookup 0 looped.seqs ≡ some told_all
unfolding run_loop step act_all act prefill_action advance_only decode_of decode_action reported
    extended next_logits sample_token penalized_by submit Scheduler.step schedule plan_all plan_one
    advance moved is_over finish add is_waiting pump pump_loop try_admit accepts admit new_sequence
    take_blocks take_slot allocate allocate_slot blocks_for_tokens heappops own_all put has lookup
    without free_sequence free_blocks validate release_all owned_by heappush free_slot
looped-told_all = refl

enough_steps : work waiting_one.sched < 20
unfolding submit add is_waiting has lookup
enough_steps = omega arith

run_loop-generate_example :
    ((run_loop counter plain_sampler 20 waiting_one ≡ raises runtime_error looped)
      × HasStalled looped.sched)
    ⊎ ((run_loop counter plain_sampler 20 waiting_one ≡ returns tt looped)
        × (told_all.prompt ++ told_all.gen
            ≡ generate (greedy_next counter plain_sampler none) none looped.stop 3 (1 ∷ 2 ∷ [])))
run_loop-generate_example =
    run_loop-generate counter plain_sampler (some 9) none (pos 4) (pos 2) 4 8 2 fresh waiting_one
      fresh-made (asked_one 0) 20 0 told_all enough_steps looped-told_all

-- The executor thread with one request that waits.
abbrev serving_one : Server ℕ (List ℕ) ℕ ℕ (List ℕ) ℕ
serving_one = record { shared = new_facade 2; engine = waiting_one; sinks = [] }

waiting_one-IsSound : IsSound waiting_one.sched
unfolding submit add is_waiting make_scheduler make_coordinator make_kv make_state has
    Reach.after_calls Reach.after_call
waiting_one-IsSound =
    after_calls-IsSound (pos 4) (pos 2) 4 8 2 idle (Reach.adds 0 2 3 true ∷ []) refl

waiting_one-keys :
    (q : ℕ) → present q waiting_one.sched ≡ true → member q (keys waiting_one.seqs) ≡ true
unfolding submit add is_waiting lookup has put
waiting_one-keys q h = ground (arith, h)

fail_all_batched-drained_example :
    (v' : Server ℕ (List ℕ) ℕ ℕ (List ℕ) ℕ) × (fail_all_batched (λ ids. ids) serving_one timed_out
      ≡ returns tt v')
    × (v'.engine.sched.running ≡ [])
    × (v'.engine.sched.waiting ≡ [])
    × AllFree v'.engine.sched.coord
fail_all_batched-drained_example =
    fail_all_batched-drained (λ ids. ids) serving_one timed_out waiting_one-IsSound waiting_one-keys

-- The request is to be aborted, and an id that is not there.
abbrev aborting : Server ℕ (List ℕ) ℕ ℕ (List ℕ) ℕ
aborting = record serving_one { shared = record (new_facade 2) { abort_q = 0 ∷ 7 ∷ [] } }

drain_aborts-exact_example :
    (v' : Server ℕ (List ℕ) ℕ ℕ (List ℕ) ℕ) × (drain_aborts (λ ids. ids) aborting
      ≡ returns (ltb 0 2) v')
    × (v'.shared.abort_q ≡ [])
    × ((x : ℕ)
        → present x v'.engine.sched
          ≡ (if member x (0 ∷ 7 ∷ []) then false else present x waiting_one.sched))
drain_aborts-exact_example = drain_aborts-exact (λ ids. ids) aborting waiting_one-IsSound
