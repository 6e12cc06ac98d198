-- ===== src/Tests/Front.antt =====
-- serving/batched_server.py: the sizes by default, and a history of three requests where two may be in flight.
use s_llm.Prelude.{ℕ, ◌≤◌, ◌≡◌, refl, true, false, none, some, List, [], ◌∷◌, Result, ok}
use s_llm.Prelude.Dict.{lookup, put}
use s_llm.Serving.Engine.{Engine, stopped, too_long}
use s_llm.Serving.Facade.{Settings, Sizes, sizes, engine_of, blocks_for}
use s_llm.Serving.Facade.Sizing.{Checked, sizes-Checked}
use s_llm.Serving.Facade.Handshake.{
  new_facade, admit, release, on_token, on_finish, fail, request_abort, start_batched,
  start_exclusive, end_complete, close_batched_stream,
}
use s_llm.Serving.Facade.Jobs.{Output, deltas, run_job}
use s_llm.Serving.Facade.Counted.{IsCounted}
use s_llm.Serving.Facade.History.{
  Call, starts_batched, starts_exclusive, emits, finishes, ends_complete, closes_batched, runs,
  after_calls, new_facade-after_calls,
}

abbrev nothing_set : Settings
nothing_set = record {
  kv_capacity = none;
  state_capacity = none;
  block_size = none;
  chunk_size = none;
  max_concurrency = none;
  max_queued = none;
}

abbrev default_sizes : Sizes
default_sizes = sizes nothing_set nothing_set 4096 (λ b. none)

sizes-Checked_example :
    (1 ≤ default_sizes.max_queued)
    × (e : Engine ℕ ℕ ℕ ℕ ℕ) × (engine_of default_sizes (some 9) false none ≡ ok e)
    × Checked default_sizes e.sched 100 20
sizes-Checked_example =
    sizes-Checked nothing_set nothing_set 4096 (λ b. none) (some 9) false none 100 20

default_capacity : default_sizes.kv_capacity ≡ 2048
unfolding sizes blocks_for
default_capacity = refl

-- A job that streams two texts.
abbrev two_texts : ℕ → Result Output
two_texts j = ok (deltas ((5 ∷ [], none) ∷ (6 ∷ [], some stopped) ∷ []) none)

abbrev history : List (Call ℕ ℕ)
history =
    starts_batched true (1 ∷ []) 0
    ∷ starts_exclusive true 7
    ∷ starts_batched false (1 ∷ []) 0
    ∷ emits 0 42
    ∷ runs 1 7
    ∷ finishes 0 too_long
    ∷ closes_batched 0 false
    ∷ starts_batched false (2 ∷ []) 0
    ∷ ends_complete 2 false
    ∷ finishes 2 stopped
    ∷ []

new_facade-after_calls_example : IsCounted (after_calls two_texts (new_facade 2) history)
new_facade-after_calls_example = new_facade-after_calls two_texts 2 history

all_served : (after_calls two_texts (new_facade 2) history).served ≡ 3
unfolding lookup put admit release on_token on_finish fail request_abort start_batched
    start_exclusive end_complete close_batched_stream run_job
all_served = refl
