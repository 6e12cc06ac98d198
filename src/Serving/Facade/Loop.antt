-- ===== src/Serving/Facade/Loop.antt =====
-- The executor thread of `BatchedServingEngine`. What one call of the engine calls on the sinks is
-- carried out when that call ends, for each sink in order: nothing in the engine reads what they change.
use s_llm.Prelude.{
  ℕ, Bool, true, false, ◌||◌, Option, none, some, List, [], ◌∷◌, map, ltb, if◌then◌else◌, length,
  Outcome, returns, raises, Result,
}
use s_llm.Prelude.Dict.{Dict, lookup, put}
use s_llm.Serving.Model.{Calls, Sampler}
use s_llm.Serving.Engine
use s_llm.Serving.Engine.{
  Engine, Info, Sink, Reason, Event, stopped, too_long, aborted, submit, queue_length, with_info,
}
use s_llm.Serving.Engine.Step
use s_llm.Serving.Engine.Reap.{reap}
use s_llm.Serving.Facade.Jobs.{Output, drain_exclusive}
use s_llm.Serving.Facade.Handshake.{
  Facade, Failure, request_aborted, caught, with_req, on_token, on_finish, fail,
}

-- What the threads share, with a new entry of the engine's dict for each request to submit.
abbrev pub Shared : (L C G R T J : Type 0) → Type 0
Shared L C G R T J = Facade (Info L C G R T) J

abbrev pub told : Option Sink → Option Sink
told none = none
told (some sink) = some (record sink { events = [] })

abbrev pub events_of : Option Sink → List Event
events_of none = []
events_of (some sink) = sink.events

-- What the executor thread works on; `sinks` says which request is the sink of a sequence.
pub record Server (L C G R T J : Type 0) : Type 0 where
  pub shared : Shared L C G R T J
  pub engine : Engine L C G R T
  pub sinks : Dict ℕ

module _ {L C G R T : Type 0} where
  abbrev pub clear_all : Dict (Info L C G R T) → Dict (Info L C G R T)
  clear_all [] = []
  clear_all ((q, info) ∷ seqs) = (q, record info { sink = told info.sink }) ∷ clear_all seqs

  abbrev pub keys : Dict (Info L C G R T) → List ℕ
  keys d = map (λ (x : ℕ × Info L C G R T). x.0) d

module _ {L C G R T J : Type 0} where
  -- One call on the sink that the request `r` is.
  abbrev pub tell : Shared L C G R T J → ℕ → Event → Shared L C G R T J
  tell f r (Event.on_token tok) = on_token f r tok
  tell f r (Event.on_finish reason) = on_finish f r reason
  tell f r Event.fail = fail f r request_aborted

  abbrev pub tell_all : Shared L C G R T J → ℕ → List Event → Shared L C G R T J
  tell_all f r [] = f
  tell_all f r (x ∷ xs) = tell_all (tell f r x) r xs

  -- The calls on the sinks of the sequences, in the order of the dict.
  unfoldable pub deliver_all :
      Shared L C G R T J → Dict ℕ → Dict (Info L C G R T) → Shared L C G R T J
  deliver_all f sinks [] = f
  deliver_all f sinks ((q, info) ∷ seqs) = elim (lookup q sinks) [
    | none ↦ deliver_all f sinks seqs
    | some r ↦ deliver_all (tell_all f r (events_of info.sink)) sinks seqs
  ]

  -- A server after a call of its engine that left `e`.
  abbrev pub after_engine : Server L C G R T J → Engine L C G R T → Server L C G R T J
  after_engine v e = record v {
    shared = deliver_all v.shared v.sinks e.seqs;
    engine = record e { seqs = clear_all e.seqs };
  }

  -- `self.batched.reap()`
  abbrev pub reap_server : Server L C G R T J → Server L C G R T J
  reap_server v = record v { engine = (reap v.engine).0 }

  module _ (decoded : List ℕ → T) where
    -- `self.batched.abort(sid)` for each id.
    unfoldable pub abort_each :
        Server L C G R T J → List ℕ → Outcome (Server L C G R T J) (Unit {0})
    abort_each v [] = returns tt v
    abort_each v (sid ∷ sids) = elim (Engine.abort decoded v.engine sid) [
      | raises x e ↦ raises x (after_engine v e)
      | returns _ e ↦ abort_each (after_engine v e) sids
    ]

    -- `_drain_aborts`; the ids that stand in the queue are taken out first.
    unfoldable pub drain_aborts : Server L C G R T J → Outcome (Server L C G R T J) Bool
    drain_aborts v =
        let sids = v.shared.abort_q in
        elim (abort_each (record v { shared = record (v.shared) { abort_q = [] } }) sids) [
          | raises x v' ↦ raises x v'
          | returns _ v' ↦ elim sids [
            | [] ↦ returns false v'
            | (s ∷ ss) ↦ returns true (reap_server v')
          ]
        ]

    -- `sink.fail(exc)` for each sequence whose sink is a request.
    abbrev pub fail_each :
        Shared L C G R T J → Failure → Dict ℕ → Dict (Info L C G R T) → Shared L C G R T J
    fail_each f x sinks [] = f
    fail_each f x sinks ((q, info) ∷ seqs) = elim (lookup q sinks) [
      | none ↦ fail_each f x sinks seqs
      | some r ↦ fail_each (fail f r x) x sinks seqs
    ]

    -- `_fail_all_batched`
    unfoldable pub fail_all_batched :
        Server L C G R T J → Failure → Outcome (Server L C G R T J) (Unit {0})
    fail_all_batched v x =
        let failed = record v { shared = fail_each v.shared x v.sinks v.engine.seqs } in
        elim (abort_each failed (keys v.engine.seqs)) [
          | raises y v' ↦ raises y v'
          | returns _ v' ↦ returns tt (reap_server v')
        ]

  module _ (max_ctx : Option ℕ) where
    -- `req.seq_id = sid`
    abbrev pub named : Shared L C G R T J → ℕ → ℕ → Shared L C G R T J
    named f r sid = elim (lookup r f.reqs) [
      | none ↦ f
      | some req ↦ with_req f r (record req { seq_id = some sid })
    ]

    -- The body of the loop of `_drain_submits`.
    unfoldable pub submit_one : Server L C G R T J → ℕ × Info L C G R T → Server L C G R T J
    submit_one v (r, info) = elim (submit v.engine max_ctx info) [
      | raises x e ↦ record v { engine = e; shared = fail v.shared r (caught x) }
      | returns sid e ↦ record v {
        engine = e;
        shared = named v.shared r sid;
        sinks = put sid r v.sinks;
      }
    ]

    abbrev pub submit_each : Server L C G R T J → List (ℕ × Info L C G R T) → Server L C G R T J
    submit_each v [] = v
    submit_each v (x ∷ xs) = submit_each (submit_one v x) xs

    -- `_drain_submits`
    unfoldable pub drain_submits : Server L C G R T J → Server L C G R T J × Bool
    drain_submits v =
        let entries = v.shared.submit_q in
        (
          submit_each (record v { shared = record (v.shared) { submit_q = [] } }) entries,
          ltb 0 (length entries),
        )

-- The body of `_loop`: whether there was anything to do.
module _ {L C G R T J : Type 0} (m : Calls L C) (sampler : Sampler L G R) (decoded : List ℕ → T)
    (max_ctx : Option ℕ) (run_func : J → Result Output) where
  -- The step of the batch, where requests wait or run.
  unfoldable pub step_batched : Server L C G R T J → Outcome (Server L C G R T J) (Unit {0})
  step_batched v = elim (Engine.Step.step m sampler v.engine) [
    | returns _ e ↦ returns tt (reap_server (after_engine v e))
    | raises x e ↦ elim (fail_all_batched decoded (after_engine v e) (caught x)) [
      | raises y v' ↦ raises y v'
      | returns _ v' ↦ returns tt (reap_server v')
    ]
  ]

  unfoldable pub loop_body : Server L C G R T J → Outcome (Server L C G R T J) Bool
  loop_body v = elim (drain_aborts decoded v) [
    | raises x v' ↦ raises x v'
    | returns _ v1 ↦
        let (v2, submitted) = drain_submits max_ctx v1 in
        let (f3, ran) = drain_exclusive run_func v2.shared in
        let v3 = record v2 { shared = f3 } in
        if ltb 0 (queue_length v3.engine)
        then (elim (step_batched v3) [ raises x v' ↦ raises x v' | returns _ v4 ↦ returns true v4 ])
        else returns (submitted || ran) v3
  ]
