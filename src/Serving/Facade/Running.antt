-- ===== src/Serving/Facade/Running.antt =====
-- The executor thread keeps the requests counted.
use s_llm.Prelude.{
  ℕ, refl, inl, inr, Option, List, [], ◌∷◌, ltb, Outcome, returns, raises, state_of, Result,
  Outcome-cases, List-cases, Bool-cases, Option-cases,
}
use s_llm.Prelude.Dict.{Dict, lookup}
use s_llm.Serving.Model.{Calls, Sampler}
use s_llm.Serving.Engine
use s_llm.Serving.Engine.{Engine, Info, Event, submit, queue_length}
use s_llm.Serving.Engine.Step
use s_llm.Serving.Facade.Handshake.{Failure, fail, caught, request_aborted}
use s_llm.Serving.Facade.Jobs.{Output, run_job, run_jobs, drain_exclusive}
use s_llm.Serving.Facade.Counted.{IsCounted, with_req-IsCounted}
use s_llm.Serving.Facade.Lifecycle.{on_token-IsCounted, on_finish-IsCounted, fail-IsCounted}
use s_llm.Serving.Facade.History.{run_job-IsCounted}
use s_llm.Serving.Facade.Loop.{
  Shared, Server, tell, tell_all, events_of, deliver_all, keys, after_engine, abort_each,
  drain_aborts, fail_each, fail_all_batched, named, submit_one, submit_each, drain_submits,
  step_batched, loop_body,
}

module _ {L C G R T J : Type 0} where
  tell-IsCounted :
      (f : Shared L C G R T J) (r : ℕ) (x : Event) → IsCounted f → IsCounted (tell f r x)
  tell-IsCounted f r (Event.on_token tok) v = on_token-IsCounted f r v tok
  tell-IsCounted f r (Event.on_finish reason) v = on_finish-IsCounted f r v reason
  tell-IsCounted f r Event.fail v = fail-IsCounted f r v request_aborted

  tell_all-IsCounted :
      (f : Shared L C G R T J) (r : ℕ) (xs : List Event) → IsCounted f → IsCounted (tell_all f r xs)
  tell_all-IsCounted f r [] v = v
  tell_all-IsCounted f r (x ∷ xs) v = tell_all-IsCounted (tell f r x) r xs (tell-IsCounted f r x v)

  deliver_all-IsCounted :
      (f : Shared L C G R T J) (sinks : Dict ℕ) (seqs : Dict (Info L C G R T))
      → IsCounted f
      → IsCounted (deliver_all f sinks seqs)
  unfolding deliver_all
  deliver_all-IsCounted f sinks [] v = v
  deliver_all-IsCounted f sinks ((q, info) ∷ seqs) v = elim (Option-cases (lookup q sinks)) [
    | inl e ↦ rw (deliver_all, e) (deliver_all-IsCounted f sinks seqs v)
    | inr (r, e) ↦
        rw (deliver_all, e)
          (deliver_all-IsCounted (tell_all f r (events_of info.sink)) sinks seqs
            (tell_all-IsCounted f r (events_of info.sink) v))
  ]

  abbrev IsServing : Server L C G R T J → Type 0
  IsServing v = IsCounted v.shared

  after_engine-IsServing :
      (v : Server L C G R T J) (e : Engine L C G R T) → IsServing v → IsServing (after_engine v e)
  after_engine-IsServing v e c = deliver_all-IsCounted v.shared v.sinks e.seqs c

  -- A call, and what follows it where it returns.
  then-IsServing :
      {A B : Type 0} (o : Outcome (Server L C G R T J) A)
      (k : A → Server L C G R T J → Outcome (Server L C G R T J) B)
      → IsServing (state_of o)
      → ((a : A) (v : Server L C G R T J) → IsServing v → IsServing (state_of (k a v)))
      → IsServing (
          state_of (elim o as (λ _. Outcome (Server L C G R T J) B) [
            | raises x v ↦ raises x v
            | returns a v ↦ k a v
          ]))
  then-IsServing (raises x v) k c h = c
  then-IsServing (returns a v) k c h = h a v c

  module _ (decoded : List ℕ → T) where
    abort_each-IsServing :
        (v : Server L C G R T J) (sids : List ℕ)
        → IsServing v
        → IsServing (state_of (abort_each decoded v sids))
    unfolding abort_each
    abort_each-IsServing v [] c = c
    abort_each-IsServing v (q ∷ qs) c = elim (Outcome-cases (Engine.abort decoded v.engine q)) [
      | inr (x, e, o) ↦ rw (abort_each, o) (after_engine-IsServing v e c)
      | inl (found, e, o) ↦
          rw (abort_each, o)
            (abort_each-IsServing (after_engine v e) qs (after_engine-IsServing v e c))
    ]

    drain_aborts-IsServing :
        (v : Server L C G R T J) → IsServing v → IsServing (state_of (drain_aborts decoded v))
    unfolding drain_aborts
    drain_aborts-IsServing v c =
        let sids = v.shared.abort_q in
        then-IsServing
          (abort_each decoded (record v { shared = record (v.shared) { abort_q = [] } }) sids) _
          (abort_each-IsServing (record v { shared = record (v.shared) { abort_q = [] } }) sids c)
          (λ a v' c'. elim (List-cases sids) [
            | inl none_left ↦ rw none_left c'
            | inr (q, qs, more) ↦ rw more c'
          ])

    fail_each-IsCounted :
        (f : Shared L C G R T J) (x : Failure) (sinks : Dict ℕ) (seqs : Dict (Info L C G R T))
        → IsCounted f
        → IsCounted (fail_each decoded f x sinks seqs)
    fail_each-IsCounted f x sinks [] v = v
    fail_each-IsCounted f x sinks ((q, info) ∷ seqs) v = elim (Option-cases (lookup q sinks)) [
      | inl e ↦ rw (fail_each, e) (fail_each-IsCounted f x sinks seqs v)
      | inr (r, e) ↦
          rw (fail_each, e) (fail_each-IsCounted (fail f r x) x sinks seqs (fail-IsCounted f r v x))
    ]

    fail_all_batched-IsServing :
        (v : Server L C G R T J) (x : Failure)
        → IsServing v
        → IsServing (state_of (fail_all_batched decoded v x))
    unfolding fail_all_batched
    fail_all_batched-IsServing v x c =
        let failed = record v { shared = fail_each decoded v.shared x v.sinks v.engine.seqs } in
        then-IsServing (abort_each decoded failed (keys v.engine.seqs)) _
          (abort_each-IsServing failed (keys v.engine.seqs)
            (fail_each-IsCounted v.shared x v.sinks v.engine.seqs c))
          (λ a v' c'. c')

  module _ (max_ctx : Option ℕ) where
    named-IsCounted :
        (f : Shared L C G R T J) (r sid : ℕ) → IsCounted f → IsCounted (named max_ctx f r sid)
    named-IsCounted f r sid v = elim (Option-cases (lookup r f.reqs)) [
      | inl e ↦ rw (named, e) v
      | inr (req, e) ↦
          let o = v.orderly r req e in
          rw (named, e)
            (with_req-IsCounted f r req _ v e refl
              (record { once = o.once; returned = o.returned }))
    ]

    submit_one-IsServing :
        (v : Server L C G R T J) (r : ℕ) (info : Info L C G R T)
        → IsServing v
        → IsServing (submit_one max_ctx v (r, info))
    unfolding submit_one
    submit_one-IsServing v r info c = elim (Outcome-cases (submit v.engine max_ctx info)) [
      | inr (x, e, o) ↦ rw (submit_one, o) (fail-IsCounted v.shared r c (caught x))
      | inl (sid, e, o) ↦ rw (submit_one, o) (named-IsCounted v.shared r sid c)
    ]

    submit_each-IsServing :
        (v : Server L C G R T J) (entries : List (ℕ × Info L C G R T))
        → IsServing v
        → IsServing (submit_each max_ctx v entries)
    submit_each-IsServing v [] c = c
    submit_each-IsServing v ((r, info) ∷ rest) c =
        submit_each-IsServing (submit_one max_ctx v (r, info)) rest
          (submit_one-IsServing v r info c)

    drain_submits-IsServing :
        (v : Server L C G R T J) → IsServing v → IsServing (drain_submits max_ctx v).0
    unfolding drain_submits
    drain_submits-IsServing v c = submit_each-IsServing _ v.shared.submit_q c

  module _ (run_func : J → Result Output) where
    run_jobs-IsCounted :
        (f : Shared L C G R T J) (jobs : List (ℕ × J))
        → IsCounted f
        → IsCounted (run_jobs run_func f jobs)
    run_jobs-IsCounted f [] v = v
    run_jobs-IsCounted f ((r, job) ∷ rest) v =
        run_jobs-IsCounted (run_job run_func f (r, job)) rest (run_job-IsCounted run_func f r job v)

    drain_exclusive-IsCounted :
        (f : Shared L C G R T J) → IsCounted f → IsCounted (drain_exclusive run_func f).0
    unfolding drain_exclusive
    drain_exclusive-IsCounted f v = run_jobs-IsCounted _ f.excl_q v

module _ {L C G R T J : Type 0} (m : Calls L C) (sampler : Sampler L G R) (decoded : List ℕ → T)
    (max_ctx : Option ℕ) (run_func : J → Result Output) where
  step_batched-IsServing :
      (v : Server L C G R T J)
      → IsServing v
      → IsServing (state_of (step_batched m sampler decoded max_ctx run_func v))
  unfolding step_batched
  step_batched-IsServing v c = elim (Outcome-cases (Engine.Step.step m sampler v.engine)) [
    | inl (a, e, o) ↦ rw (step_batched, o) (after_engine-IsServing v e c)
    | inr (x, e, o) ↦
        rw (step_batched, o)
          (then-IsServing (fail_all_batched decoded (after_engine v e) (caught x)) _
            (fail_all_batched-IsServing decoded (after_engine v e) (caught x)
              (after_engine-IsServing v e c))
            (λ a v' c'. c'))
  ]

  -- One pass of the executor thread keeps the requests counted, whatever the engine and the exclusive jobs
  -- do, and where something raises.
  loop_body-IsServing :
      (v : Server L C G R T J)
      → IsServing v
      → IsServing (state_of (loop_body m sampler decoded max_ctx run_func v))
  unfolding loop_body
  loop_body-IsServing v c =
      then-IsServing (drain_aborts decoded v) _ (drain_aborts-IsServing decoded v c) (λ a v1 c1.
        let v2 = (drain_submits max_ctx v1).0 in
        let c2 = drain_submits-IsServing max_ctx v1 c1 in
        let v3 = record v2 { shared = (drain_exclusive run_func v2.shared).0 } in
        let c3 = drain_exclusive-IsCounted run_func v2.shared c2 in
        elim (Bool-cases (ltb 0 (queue_length v3.engine))) [
          | inl busy ↦ rw busy (
              then-IsServing (step_batched m sampler decoded max_ctx run_func v3) _
                (step_batched-IsServing v3 c3) (λ a' v' c'. c'))
          | inr idle ↦ rw idle c3
        ])
