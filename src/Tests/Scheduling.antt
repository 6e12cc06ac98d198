-- ===== src/Tests/Scheduling.antt =====
-- runtime/scheduler.py at concrete inputs.
use s_llm.Prelude.{
  ◌++◌, ◌≡◌, refl, subst, true, false, none, some, List, [], ◌∷◌, arith, length, replicate, returns,
  state_of, ok, pos,
}
use s_llm.Prelude.Dict.{lookup, put, without, has}
use s_llm.Runtime.Coordinator.{blocks_for_tokens, new_sequence, free_sequence}
use s_llm.Runtime.Coordinator.Invariant.{fresh}
use s_llm.Runtime.Scheduler.{
  running_list, Request, prefill, Action, Scheduler, make_scheduler, is_waiting, new_request, add,
  abort, accepts, admit, try_admit, pump_loop, pump, plan_one, plan_all, schedule, moved, is_over,
  finish, advance,
}
use s_llm.Runtime.Scheduler.Invariant.{ids, IsSound}
use s_llm.Runtime.Heap.{heappush, heappops}
use s_llm.Runtime.Kv.{make_kv, own_all, allocate, free_blocks, validate, release_all}
use s_llm.Runtime.Slots.{make_state, allocate_slot, free_slot}
use s_llm.Runtime.Coordinator.{make_coordinator, take_blocks, take_slot}
use s_llm.Runtime.Scheduler.Pump.{budget_of, greedy, start_all, pump_total}
use s_llm.Runtime.Scheduler.Maximal.{Interleaved, pump_maximal, NoneAccepted}
use s_llm.Runtime.Scheduler.Progress.{Advanced, advance_total}
use s_llm.Runtime.Scheduler.Reach.{
  Call, adds, aborts, pumps, after_call, after_calls, after_calls-IsSound, idle_all_free,
}
use s_llm.Runtime.Scheduler.Termination.{rounds, rounds_end}

abbrev start : Scheduler
start = record {
  coord = fresh 4 2;
  block_size = 16;
  chunk_size = 8;
  max_concurrency = 2;
  waiting = [];
  running = [];
  done = [];
}

abbrev large : Request
large = new_request 2 100 10 true

abbrev first : Request
first = new_request 1 20 4 true

-- One request runs in two blocks and a slot; one that never fits waits.
abbrev busy : Scheduler
busy = record start {
  coord = record {
    kv = record { capacity = 4; free = 2 ∷ 3 ∷ []; owner = (0, 1) ∷ (1, 1) ∷ [] };
    state = record { capacity = 2; free = 1 ∷ []; owner = (0, 1) ∷ [] };
    tables = (1, record { seq_id = 1; blocks = 0 ∷ 1 ∷ []; state_slot = some 0 }) ∷ [];
  };
  waiting = large ∷ [];
  running = (1, first) ∷ [];
}

abbrev calls : List Call
calls = adds 2 100 10 true ∷ adds 1 20 4 true ∷ pumps ∷ []

start-made : make_scheduler (pos 4) (pos 2) 16 8 2 ≡ ok start
unfolding make_scheduler make_coordinator make_kv make_state
start-made = refl

busy-reached : after_calls start calls ≡ busy
unfolding after_calls after_call add is_waiting pump pump_loop try_admit accepts admit new_sequence
    take_blocks take_slot allocate allocate_slot blocks_for_tokens heappops own_all put has lookup
busy-reached = refl

after_calls-IsSound_example : IsSound (after_calls start calls)
after_calls-IsSound_example = after_calls-IsSound (pos 4) (pos 2) 16 8 2 start calls start-made

busy-IsSound : IsSound busy
busy-IsSound =
    subst IsSound busy-reached (after_calls-IsSound (pos 4) (pos 2) 16 8 2 start calls start-made)

pump_total_example :
    (s' : Scheduler) × (pump busy
      ≡ returns (ids (greedy 16 (budget_of busy) (large ∷ [])).taken) s')
    × (s'.waiting ≡ (greedy 16 (budget_of busy) (large ∷ [])).kept)
    × (s'.running ≡ start_all (greedy 16 (budget_of busy) (large ∷ [])).taken busy.running)
    × (budget_of s' ≡ (greedy 16 (budget_of busy) (large ∷ [])).left)
    × (s'.done ≡ [])
    × IsSound s'
pump_total_example = pump_total busy busy-IsSound

pump_maximal_example :
    (taken : List Request) × (s' : Scheduler) × (pump busy ≡ returns (ids taken) s')
    × Interleaved taken s'.waiting busy.waiting
    × (running_list s' ≡ running_list busy ++ taken)
    × NoneAccepted s' s'.waiting
pump_maximal_example = pump_maximal busy busy-IsSound

abbrev chunk : Action
chunk = record { seq_id = 1; phase = prefill; from_tok = 0; to_tok = 8; length = 8 }

schedule-chunk : (schedule busy).actions ≡ chunk ∷ []
unfolding schedule plan_all plan_one
schedule-chunk = refl

advance_total_example :
    (s' : Scheduler) × (advance busy chunk false ≡ returns tt s')
    × IsSound s'
    × Advanced busy 1 first chunk false (returns tt s')
unfolding lookup
advance_total_example = advance_total busy chunk false busy-IsSound first refl

-- Request 1 is admitted, aborted, and nothing runs.
abbrev to_idle : List Call
to_idle = adds 1 20 4 true ∷ pumps ∷ aborts 1 ∷ []

idle-reached : (after_calls start to_idle).running ≡ []
unfolding after_calls after_call add is_waiting pump pump_loop try_admit accepts admit new_sequence
    take_blocks take_slot allocate allocate_slot blocks_for_tokens heappops own_all put has lookup
    abort free_sequence free_blocks free_slot validate release_all heappush without
idle-reached = refl

idle_all_free_example :
    (length (after_calls start to_idle).coord.kv.free
      ≡ (after_calls start to_idle).coord.kv.capacity)
    × (length (after_calls start to_idle).coord.state.free
        ≡ (after_calls start to_idle).coord.state.capacity)
idle_all_free_example = idle_all_free (pos 4) (pos 2) 16 8 2 start to_idle start-made idle-reached

rounds_end_example :
    (lookup 1 (rounds busy 1 (replicate 25 false)).running ≡ none)
    × IsSound (rounds busy 1 (replicate 25 false))
unfolding lookup
rounds_end_example = rounds_end busy 1 first (replicate 25 false) busy-IsSound refl (omega arith)

-- The end-of-sequence answer ends the request at once, and everything is free again.
eos_ends : (state_of (advance busy chunk true)).coord.kv.free ≡ 0 ∷ 1 ∷ 2 ∷ 3 ∷ []
unfolding advance moved is_over finish free_sequence free_blocks free_slot validate release_all
    heappush put lookup without
eos_ends = refl
