-- ===== src/Serving/Engine.antt =====
-- `BatchedInferenceEngine` of serving/executor.py. A prompt is given as token ids, as the server does;
-- lengths are natural numbers. The dict of a sequence is a record that is put back where it stood, and
-- a sink is what was called on it, in order: the callbacks return.
pub mod Step
pub mod Reap
pub mod Greedy
pub mod Served
pub mod Drained
pub mod Coupled
pub mod Acting
pub mod Moving
pub mod Complete
pub mod Admitting
pub mod Answering
pub mod Answers
use s_llm.Prelude.{
  ℕ, zero, suc, ◌+◌, ◌-◌, ◌*◌, ◌/◌, ◌%◌, ◌^◌, ◌≤◌, ◌<◌, ◌≡◌, ◌≢◌, refl, sym, ap, ◌∙◌, subst, min,
  ◌⊎◌, inl, inr, ◌↔◌, Bool, true, false, ◌&&◌, ◌||◌, not, Option, none, some, List, [], ◌∷◌, ◌++◌,
  map, arith, ltb, leb, ◌==◌, if◌then◌else◌, bit, length, take, drop, replicate, keep, all, count,
  member, sum, range_from, Outcome, returns, raises, state_of, Result, ok, err, ◌>>=◌, >>=-eq-ok,
  ok_inj, Error, value_error, key_error, index_error, out_of_capacity, collectives_error,
  shard_error, runtime_error, ℤ, pos, negsuc, Bool-cases, Option-cases, leb→le, le→leb, ltb→lt,
  lt→ltb, ==_refl, ==_iff, length-append, take-append-drop, length-take, length-drop, count-append,
  count-split, length-range_from, count-range_from,
}
use s_llm.Prelude.Dict.{
  Dict, lookup, put, without, has, Distinct, lookup-put, lookup-without, put-Distinct,
  without-Distinct, without_missing, length-put_missing, length-put_present, length-without,
  without-put_missing,
}
use s_llm.Runtime.Scheduler
use s_llm.Runtime.Scheduler.{
  Scheduler, Action, Phase, prefill, decode, Schedule, Request, make_scheduler, waiting_count, add,
  advance,
}
use s_llm.Serving.Model.{Calls, Sampler}

pub data Reason : Type 0 where
  stopped too_long aborted : Reason

pub data Event : Type 0 where
  on_token : ℕ → Event
  on_finish : Reason → Event
  fail : Event

-- Whether the sink has the methods `fail` and `on_finish`, and the calls.
pub record Sink : Type 0 where
  pub has_fail : Bool
  pub has_finish : Bool
  pub events : List Event

pub record Info (L C G R T : Type 0) : Type 0 where
  pub prompt : List ℕ
  pub gen : List ℕ
  pub max_new : ℕ
  pub temperature : Option R
  pub top_k : Option ℕ
  pub top_p : Option R
  pub rng : G
  pub text : Option T
  pub rep : Option R
  pub sink : Option Sink
  pub cache : Option C
  pub last_id : Option ℕ
  pub prefill_logits : Option L

pub record Engine (L C G R T : Type 0) : Type 0 where
  pub sched : Scheduler
  pub seqs : Dict (Info L C G R T)
  pub order : List ℕ
  pub next_seq : ℕ
  pub stop : List ℕ
  pub inc : Bool
  pub use_state : Bool

-- `_use_state`: the recipe has no layer types, or one of them is "linear_attention".
abbrev pub needs_state : Option (List Bool) → Bool
needs_state none = true
needs_state (some []) = true
needs_state (some (b ∷ bs)) = not (all not (b ∷ bs))

-- What the constructor reads: the end-of-sequence id, `supports_incremental`, and for each layer of the
-- recipe whether its type is "linear_attention", where there are layer types.
unfoldable pub make_engine :
    {L C G R T : Type 0}
    → Option ℕ
    → Bool
    → Option (List Bool)
    → ℤ
    → ℤ
    → ℕ
    → ℕ
    → ℕ
    → Result (Engine L C G R T)
make_engine eos inc layers kv_capacity state_capacity block_size chunk_size max_concurrency =
    make_scheduler kv_capacity state_capacity block_size chunk_size max_concurrency >>= λ s.
    ok (record {
      sched = s;
      seqs = [];
      order = [];
      next_seq = 0;
      stop = elim eos [ none ↦ [] | some t ↦ t ∷ [] ];
      inc = inc;
      use_state = needs_state layers;
    })

-- `max_ctx and len(prompt_ids) + int(max_new) > max_ctx`
abbrev pub exceeds : Option ℕ → ℕ → Bool
exceeds none n = false
exceeds (some m) n = not (m == 0) && ltb m n

-- A call of the sink, where there is one.
abbrev pub called : Event → Option Sink → Option Sink
called x none = none
called x (some sink) = some (record sink { events = sink.events ++ x ∷ [] })

-- What `abort` calls on a sink.
abbrev pub failed : Option Sink → Option Sink
failed none = none
failed (some sink) =
    if sink.has_fail
    then called fail (some sink)
    else if sink.has_finish
    then called (on_finish aborted) (some sink)
    else some sink

module _ {L C G R T : Type 0} where
  abbrev pub new_info :
      List ℕ → ℕ → Option R → Option ℕ → Option R → G → Option R → Option Sink → Info L C G R T
  new_info prompt max_new temperature top_k top_p rng rep sink = record {
    prompt = prompt;
    gen = [];
    max_new = max_new;
    temperature = temperature;
    top_k = top_k;
    top_p = top_p;
    rng = rng;
    text = none;
    rep = rep;
    sink = sink;
    cache = none;
    last_id = none;
    prefill_logits = none;
  }

  unfoldable pub submit :
      Engine L C G R T → Option ℕ → Info L C G R T → Outcome (Engine L C G R T) ℕ
  submit e max_ctx info =
      let e1 = record e { next_seq = suc e.next_seq } in
      if exceeds max_ctx (length info.prompt + info.max_new)
      then raises value_error e1
      else elim (add e.sched e.next_seq (length info.prompt) info.max_new e.use_state) [
        | raises x s ↦ raises x (record e1 {
          seqs = put e.next_seq info e.seqs;
          order = e.order ++ e.next_seq ∷ [];
          sched = s;
        })
        | returns _ s ↦ returns e.next_seq (record e1 {
          seqs = put e.next_seq info e.seqs;
          order = e.order ++ e.next_seq ∷ [];
          sched = s;
        })
      ]

  -- `info` put back after a change of it.
  abbrev pub with_info : Engine L C G R T → ℕ → Info L C G R T → Engine L C G R T
  with_info e q info = record e { seqs = put q info e.seqs }

  unfoldable pub attach : Engine L C G R T → ℕ → Sink → Engine L C G R T
  attach e q sink = elim (lookup q e.seqs) [
    | none ↦ e
    | some info ↦ with_info e q (record info { sink = some sink })
  ]

  abbrev pub emit : Event → Info L C G R T → Info L C G R T
  emit x info = record info { sink = called x info.sink }

  abbrev pub tell_aborted : Info L C G R T → Info L C G R T
  tell_aborted info = record info { sink = failed info.sink }

  module _ (decoded : List ℕ → T) where
    -- `info["text"]`, decoded where it is `None`.
    abbrev pub text_of : Info L C G R T → T
    text_of info = elim info.text [ none ↦ decoded info.gen | some t ↦ t ]

    unfoldable pub abort : Engine L C G R T → ℕ → Outcome (Engine L C G R T) Bool
    abort e q = elim (Scheduler.abort e.sched q) [
      | raises x s ↦ raises x (record e { sched = s })
      | returns false s ↦ returns false (record e { sched = s })
      | returns true s ↦ elim (lookup q e.seqs) [
        | none ↦ returns true (record e { sched = s })
        | some info ↦ returns true (
            with_info (record e { sched = s }) q
              (tell_aborted (record info { text = some (text_of info) })))
      ]
    ]

    unfoldable pub result_text : Engine L C G R T → ℕ → Outcome (Engine L C G R T) T
    result_text e q = elim (lookup q e.seqs) [
      | none ↦ raises key_error e
      | some info ↦
          returns (text_of info) (with_info e q (record info { text = some (text_of info) }))
    ]

    unfoldable pub results_of : Engine L C G R T → List ℕ → Outcome (Engine L C G R T) (List T)
    results_of e [] = returns [] e
    results_of e (q ∷ qs) = elim (result_text e q) [
      | raises x e' ↦ raises x e'
      | returns t e' ↦ elim (results_of e' qs) [
        | raises x e2 ↦ raises x e2
        | returns ts e2 ↦ returns (t ∷ ts) e2
      ]
    ]

    abbrev pub results_in_order : Engine L C G R T → Outcome (Engine L C G R T) (List T)
    results_in_order e = results_of e e.order

  abbrev pub queue_length : Engine L C G R T → ℕ
  queue_length e = waiting_count e.sched + length e.sched.running

  abbrev pub done_count : Engine L C G R T → ℕ
  done_count e = length e.sched.done
