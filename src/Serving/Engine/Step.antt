-- ===== src/Serving/Engine/Step.antt =====
-- `step` and `run_all` of `BatchedInferenceEngine`.
use s_llm.Prelude.{
  ℕ, zero, suc, Bool, true, false, Option, none, some, List, [], ◌∷◌, ◌++◌, leb, ◌==◌,
  if◌then◌else◌, length, member, Outcome, returns, raises, value_error, key_error, runtime_error,
}
use s_llm.Prelude.Dict.{lookup}
use s_llm.Runtime.Scheduler
use s_llm.Runtime.Scheduler.{Scheduler, Action, Phase, prefill, decode, Schedule, advance}
use s_llm.Serving.Model.{Calls, Sampler}
use s_llm.Serving.Engine.{
  Engine, Info, on_token, on_finish, stopped, too_long, with_info, emit, queue_length,
  results_in_order,
}

module _ {L G R : Type 0} (sampler : Sampler L G R) where
  -- The repetition penalty, where there is one.
  unfoldable pub penalized_by : Option R → L → List ℕ → L
  penalized_by none logits ids = logits
  penalized_by (some r) logits ids =
      if sampler.is_one r then logits else sampler.penalized logits ids r

module _ {L C G R T : Type 0} (sampler : Sampler L G R) where
  -- `_sample_token`: the token, and the generator after it.
  unfoldable pub sample_token : Info L C G R T → L → ℕ × G
  sample_token info logits =
      let l = penalized_by sampler info.rep logits (info.prompt ++ info.gen) in
      elim info.temperature [
        | none ↦ sampler.sample l none info.top_k info.top_p info.rng
        | some t ↦
            if sampler.not_positive t
            then (sampler.greedy l, info.rng)
            else sampler.sample l (some t) info.top_k info.top_p info.rng
      ]

module _ {L C G R T : Type 0} (m : Calls L C) where
  -- `if info["cache"] is None: info["cache"], pl = self.model.prefill(info["prompt"])`
  unfoldable pub filled : Info L C G R T → Info L C G R T
  filled info = elim info.cache [
    | some c ↦ info
    | none ↦
        let start = m.prefill info.prompt in
        record info { cache = some start.0; prefill_logits = some start.1 }
  ]

  -- The logits of the next token by the cache.
  unfoldable pub cached_logits : Info L C G R T → Option (L × Info L C G R T)
  cached_logits info = elim info.prefill_logits [
    | some l ↦ some (l, record info { prefill_logits = none })
    | none ↦ elim info.cache [
      | none ↦ none
      | some c ↦
          let after = m.decode_step c info.last_id in
          some (after.1, record info { cache = some after.0 })
    ]
  ]

  unfoldable pub next_logits : Bool → Info L C G R T → Option (L × Info L C G R T)
  next_logits true info = cached_logits (filled info)
  next_logits false info = some (m.logits (info.prompt ++ info.gen), info)

module _ {L C G R T : Type 0} where
  -- `if not eos: info["gen"].append(tok)`, and the generator that the sampling has moved.
  unfoldable pub extended : Info L C G R T → G → ℕ → Bool → Info L C G R T
  extended info rng tok true = record info { rng = rng }
  extended info rng tok false = record info {
    rng = rng;
    gen = info.gen ++ tok ∷ [];
    last_id = some tok;
  }

  -- The calls of the sink after a decode.
  unfoldable pub reported : Info L C G R T → ℕ → Bool → Info L C G R T
  reported info tok true = emit (on_finish stopped) info
  reported info tok false =
      let told = emit (on_token tok) info in
      if leb info.max_new (length info.gen) then emit (on_finish too_long) told else told

  -- `self.sched.advance(a)`
  unfoldable pub advance_only : Engine L C G R T → Action → Outcome (Engine L C G R T) (Unit {0})
  advance_only e a = elim (advance e.sched a false) [
    | raises x s ↦ raises x (record e { sched = s })
    | returns _ s ↦ returns tt (record e { sched = s })
  ]

module _ {L C G R T : Type 0} (m : Calls L C) (sampler : Sampler L G R) where
  unfoldable pub decode_action :
      Engine L C G R T → Action → L → Info L C G R T → Outcome (Engine L C G R T) (Unit {0})
  decode_action e a logits info =
      let chosen = sample_token sampler info logits in
      let eos = member chosen.0 e.stop in
      let info' = extended info chosen.1 chosen.0 eos in
      let e' = with_info e a.seq_id info' in
      elim (advance e'.sched a eos) [
        | raises x s ↦ raises x (record e' { sched = s })
        | returns _ s ↦
            returns tt (with_info (record e' { sched = s }) a.seq_id (reported info' chosen.0 eos))
      ]

  -- `AttributeError` on a sequence without a cache, which `filled` rules out.
  unfoldable pub decode_of :
      Engine L C G R T
      → Action
      → Option (L × Info L C G R T)
      → Outcome (Engine L C G R T) (Unit {0})
  decode_of e a none = raises value_error e
  decode_of e a (some (logits, info)) = decode_action e a logits info

  -- The engine after the prompt has run, where the model is incremental.
  abbrev pub prepared : Engine L C G R T → Action → Info L C G R T → Engine L C G R T
  prepared e a info = if e.inc then with_info e a.seq_id (filled m info) else e

  unfoldable pub prefill_action :
      Engine L C G R T → Action → Info L C G R T → Outcome (Engine L C G R T) (Unit {0})
  prefill_action e a info = advance_only (prepared e a info) a

  -- The body of the loop over the actions.
  unfoldable pub act : Engine L C G R T → Action → Outcome (Engine L C G R T) (Unit {0})
  act e a = elim (lookup a.seq_id e.seqs) [
    | none ↦ raises key_error e
    | some info ↦ elim a.phase [
      | prefill ↦ prefill_action e a info
      | decode ↦ decode_of e a (next_logits m e.inc info)
    ]
  ]

  unfoldable pub act_all : Engine L C G R T → List Action → Outcome (Engine L C G R T) (Unit {0})
  act_all e [] = returns tt e
  act_all e (a ∷ rest) = elim (act e a) [
    | raises x e' ↦ raises x e'
    | returns _ e' ↦ act_all e' rest
  ]

  unfoldable pub step : Engine L C G R T → Outcome (Engine L C G R T) (List Action)
  step e = elim (Scheduler.step e.sched) [
    | raises x s ↦ raises x (record e { sched = s })
    | returns sched s ↦ elim (act_all (record e { sched = s }) sched.actions) [
      | raises x e' ↦ raises x e'
      | returns _ e' ↦ returns sched.actions e'
    ]
  ]

  -- The loop of `run_all`, before the results are read.
  unfoldable pub run_loop : ℕ → Engine L C G R T → Outcome (Engine L C G R T) (Unit {0})
  run_loop zero e = if queue_length e == 0 then returns tt e else raises runtime_error e
  run_loop (suc n) e = elim (step e) [
    | raises x e' ↦ raises x e'
    | returns (a ∷ actions) e' ↦ run_loop n e'
    | returns [] e' ↦ if queue_length e' == 0 then returns tt e' else raises runtime_error e'
  ]

  unfoldable pub run_all : (List ℕ → T) → ℕ → Engine L C G R T → Outcome (Engine L C G R T) (List T)
  run_all decoded max_steps e = elim (run_loop max_steps e) [
    | raises x e' ↦ raises x e'
    | returns _ e' ↦ results_in_order decoded e'
  ]
