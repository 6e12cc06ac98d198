-- ===== src/Serving/Engine/Greedy.antt =====
-- The engine generates, for every sequence, what the greedy run generates, in whatever order the
-- scheduler lets the sequences advance.
use s_llm.Prelude.{
  ℕ, zero, suc, ◌+◌, ◌≡◌, refl, sym, ap, ◌∙◌, subst, inl, inr, Bool, true, false, Option, some,
  List, [], ◌∷◌, ◌++◌, leb, ◌==◌, if◌then◌else◌, length, member, state_of, Outcome-cases,
  Bool-cases, Option-cases, length-append,
}
use s_llm.Prelude.Dict.{Dict, lookup, put}
use mathlib.Core.List.{append_assoc, append-nil}
use s_llm.Runtime.Scheduler
use s_llm.Runtime.Scheduler.{Scheduler, Action, Phase, prefill, decode, Schedule, advance}
use s_llm.Runtime.Spec.Verify.{greedy_run, greedy_run-add}
use s_llm.Serving.Model.{Calls, Sampler}
use s_llm.Serving.Engine.{
  Engine, Info, Event, on_token, on_finish, stopped, too_long, with_info, emit, queue_length,
  new_info, Sink,
}
use s_llm.Serving.Engine.Step.{
  penalized_by, sample_token, filled, next_logits, extended, reported, decode_action, decode_of,
  prefill_action, prepared, advance_only, act, act_all, step, run_loop,
}

pub if_false {ℓ} : {A : Type ℓ} (b : Bool) (x y : A) → b ≡ false → (if b then x else y) ≡ y
if_false true x y h = cc
if_false false x y h = refl

-- A property of every value of a dict.
abbrev pub Every {ℓ} : {V : Type ℓ} → (V → Type 0) → Dict V → Type 0
Every P [] = Unit
Every P ((q, v) ∷ d) = P v × Every P d

module _ {V : Type 0} (P : V → Type 0) where
  pub Every-lookup : (q : ℕ) (v : V) (d : Dict V) → Every P d → lookup q d ≡ some v → P v
  unfolding lookup
  Every-lookup q v [] h e = cc
  Every-lookup q v ((j, x) ∷ d) (h, hs) e = elim (Bool-cases (j == q)) [
    | inl here ↦ (let same : x ≡ v = cc in subst P same h)
    | inr other ↦ Every-lookup q v d hs (rw other at e)
  ]

  pub Every-put : (q : ℕ) (v : V) (d : Dict V) → Every P d → P v → Every P (put q v d)
  unfolding put
  Every-put q v [] h p = (p, tt)
  Every-put q v ((j, x) ∷ d) (h, hs) p = elim (Bool-cases (j == q)) [
    | inl here ↦ rw here (p, hs)
    | inr other ↦ rw other (h, Every-put q v d hs p)
  ]

-- The token of the highest logit after the repetition penalty.
abbrev pub greedy_next : {L C G R : Type 0} → Calls L C → Sampler L G R → Option R → List ℕ → ℕ
greedy_next m sampler rep ids = sampler.greedy (penalized_by sampler rep (m.logits ids) ids)

module _ {L C G R T : Type 0} (m : Calls L C) (sampler : Sampler L G R) where
  -- A sequence at a temperature of at most 0 whose tokens are the greedy run of its prompt.
  pub record Follows (info : Info L C G R T) : Type 0 where
    pub degree : R
    pub set : info.temperature ≡ some degree
    pub cold : sampler.not_positive degree ≡ true
    pub runs :
        info.prompt ++ info.gen
        ≡ greedy_run (greedy_next m sampler info.rep) (length info.gen) info.prompt

  -- An engine that computes everything again, all of whose sequences follow the greedy run.
  pub record AllFollow (e : Engine L C G R T) : Type 0 where
    pub recomputes : e.inc ≡ false
    pub follow : Every Follows e.seqs

  emit-Follows : (x : Event) (info : Info L C G R T) → Follows info → Follows (emit x info)
  emit-Follows x info h = record { degree = h.degree; set = h.set; cold = h.cold; runs = h.runs }

  reported-Follows :
      (info : Info L C G R T) (tok : ℕ) (eos : Bool)
      → Follows info
      → Follows (reported info tok eos)
  unfolding reported
  reported-Follows info tok true h = emit-Follows (on_finish stopped) info h
  reported-Follows info tok false h = elim (Bool-cases (leb info.max_new (length info.gen))) [
    | inl e ↦ rw e (
        emit-Follows (on_finish too_long) (emit (on_token tok) info)
          (emit-Follows (on_token tok) info h))
    | inr e ↦ rw e (emit-Follows (on_token tok) info h)
  ]

  pub sampled :
      (info : Info L C G R T)
      → Follows info
      → sample_token sampler info (m.logits (info.prompt ++ info.gen))
        ≡ (greedy_next m sampler info.rep (info.prompt ++ info.gen), info.rng)
  unfolding sample_token
  sampled info h = rw (h.set, h.cold) refl

  extended-Follows :
      (info : Info L C G R T) (rng : G) (tok : ℕ) (eos : Bool)
      → Follows info
      → tok ≡ greedy_next m sampler info.rep (info.prompt ++ info.gen)
      → Follows (extended info rng tok eos)
  unfolding extended greedy_run
  extended-Follows info rng tok true h e = record {
    degree = h.degree;
    set = h.set;
    cold = h.cold;
    runs = h.runs;
  }
  extended-Follows info rng tok false h e =
      let longer : length (info.gen ++ tok ∷ []) ≡ length info.gen + 1 =
        length-append info.gen (tok ∷ []) in
      record {
        degree = h.degree;
        set = h.set;
        cold = h.cold;
        runs =
            sym (append_assoc info.prompt info.gen (tok ∷ []))
            ∙ ap (λ t. info.prompt ++ info.gen ++ t ∷ []) e
            ∙ ap (λ ids. ids ++ greedy_next m sampler info.rep ids ∷ []) h.runs
            ∙ sym (greedy_run-add (greedy_next m sampler info.rep) (length info.gen) 1 info.prompt)
            ∙ ap (λ n. greedy_run (greedy_next m sampler info.rep) n info.prompt) (sym longer);
      }

  -- The engine with another dict of sequences and another scheduler.
  pub put-AllFollow :
      (e : Engine L C G R T) (s : Scheduler) (q : ℕ) (info : Info L C G R T)
      → AllFollow e
      → Follows info
      → AllFollow (record e { seqs = put q info e.seqs; sched = s })
  put-AllFollow e s q info h p = record {
    recomputes = h.recomputes;
    follow = Every-put Follows q info e.seqs h.follow p;
  }

  decode_action-AllFollow :
      (e : Engine L C G R T) (a : Action) (info : Info L C G R T)
      → AllFollow e
      → Follows info
      → AllFollow (state_of (decode_action m sampler e a (m.logits (info.prompt ++ info.gen)) info))
  unfolding decode_action
  decode_action-AllFollow e a info h p =
      let chosen = sample_token sampler info (m.logits (info.prompt ++ info.gen)) in
      let eos = member chosen.0 e.stop in
      let grown : Follows (extended info chosen.1 chosen.0 eos) =
        extended-Follows info chosen.1 chosen.0 eos p (ap (λ (x : ℕ × G). x.0) (sampled info p)) in
      let e1 = with_info e a.seq_id (extended info chosen.1 chosen.0 eos) in
      elim (Outcome-cases (advance e.sched a eos)) [
        | inl (u, s, o) ↦
            rw (decode_action, o)
              (put-AllFollow e1 s a.seq_id
                (reported (extended info chosen.1 chosen.0 eos) chosen.0 eos)
                (put-AllFollow e e.sched a.seq_id (extended info chosen.1 chosen.0 eos) h grown)
                (reported-Follows (extended info chosen.1 chosen.0 eos) chosen.0 eos grown))
        | inr (x, s, o) ↦
            rw (decode_action, o)
              (put-AllFollow e s a.seq_id (extended info chosen.1 chosen.0 eos) h grown)
      ]

  pub with_sched :
      (e : Engine L C G R T) (s : Scheduler) → AllFollow e → AllFollow (record e { sched = s })
  with_sched e s h = record { recomputes = h.recomputes; follow = h.follow }

  advance_only-AllFollow :
      (e : Engine L C G R T) (a : Action) → AllFollow e → AllFollow (state_of (advance_only e a))
  unfolding advance_only
  advance_only-AllFollow e a h = elim (Outcome-cases (advance e.sched a false)) [
    | inl (u, s, o) ↦ rw (advance_only, o) (with_sched e s h)
    | inr (x, s, o) ↦ rw (advance_only, o) (with_sched e s h)
  ]

  prefill_action-AllFollow :
      (e : Engine L C G R T) (a : Action) (info : Info L C G R T)
      → AllFollow e
      → AllFollow (state_of (prefill_action m sampler e a info))
  unfolding prefill_action
  prefill_action-AllFollow e a info h =
      let same : prepared m sampler e a info ≡ e =
        if_false e.inc (with_info e a.seq_id (filled m info)) e h.recomputes in
      subst (λ x. AllFollow (state_of (advance_only x a))) (sym same) (advance_only-AllFollow e a h)

  phase-AllFollow :
      (e : Engine L C G R T) (a : Action) (phase : Phase) (info : Info L C G R T)
      → AllFollow e
      → Follows info
      → AllFollow (
          state_of (elim phase [
            | prefill ↦ prefill_action m sampler e a info
            | decode ↦ decode_of m sampler e a (next_logits m e.inc info)
          ]))
  unfolding decode_of next_logits
  phase-AllFollow e a prefill info h p = prefill_action-AllFollow e a info h
  phase-AllFollow e a decode info h p =
      let logits_are : next_logits m e.inc info ≡ some (m.logits (info.prompt ++ info.gen), info) =
        rw h.recomputes refl in
      rw logits_are (decode_action-AllFollow e a info h p)

  pub act-AllFollow :
      (e : Engine L C G R T) (a : Action) → AllFollow e → AllFollow (state_of (act m sampler e a))
  unfolding act
  act-AllFollow e a h = elim (Option-cases (lookup a.seq_id e.seqs)) [
    | inl missing ↦ rw (act, missing) h
    | inr (info, found) ↦
        rw (act, found)
          (phase-AllFollow e a a.phase info h
            (Every-lookup Follows a.seq_id info e.seqs h.follow found))
  ]

  act_all-AllFollow :
      (actions : List Action) (e : Engine L C G R T)
      → AllFollow e
      → AllFollow (state_of (act_all m sampler e actions))
  unfolding act_all
  act_all-AllFollow [] e h = h
  act_all-AllFollow (a ∷ rest) e h =
      let after : AllFollow (state_of (act m sampler e a)) = act-AllFollow e a h in
      elim (Outcome-cases (act m sampler e a)) [
        | inl (u, e', o) ↦ rw (act_all, o) (act_all-AllFollow rest e' (rw o at after))
        | inr (x, e', o) ↦ rw (act_all, o) (rw o at after)
      ]

  pub step-AllFollow :
      (e : Engine L C G R T) → AllFollow e → AllFollow (state_of (step m sampler e))
  unfolding step
  step-AllFollow e h = elim (Outcome-cases (Scheduler.step e.sched)) [
    | inr (x, s, o) ↦ rw (step, o) (with_sched e s h)
    | inl (sched, s, o) ↦
        (let after : AllFollow
              (state_of (act_all m sampler (record e { sched = s }) sched.actions)) =
            act_all-AllFollow sched.actions (record e { sched = s }) (with_sched e s h) in
          elim (Outcome-cases (act_all m sampler (record e { sched = s }) sched.actions)) [
            | inl (u, e', o') ↦ rw (step, o, o') (rw o' at after)
            | inr (x, e', o') ↦ rw (step, o, o') (rw o' at after)
          ])
  ]

  pub run_loop-AllFollow :
      (n : ℕ) (e : Engine L C G R T) → AllFollow e → AllFollow (state_of (run_loop m sampler n e))
  unfolding run_loop
  run_loop-AllFollow zero e h = elim (Bool-cases (queue_length e == 0)) [
    | inl k ↦ rw (run_loop, k) h
    | inr k ↦ rw (run_loop, k) h
  ]
  run_loop-AllFollow (suc n) e h =
      let after : AllFollow (state_of (step m sampler e)) = step-AllFollow e h in
      elim (Outcome-cases (step m sampler e)) [
        | inr (x, e', o) ↦ rw (run_loop, o) (rw o at after)
        | inl (a ∷ actions, e', o) ↦ rw (run_loop, o) (run_loop-AllFollow n e' (rw o at after))
        | inl ([], e', o) ↦ elim (Bool-cases (queue_length e' == 0)) [
          | inl k ↦ rw (run_loop, o, k) (rw o at after)
          | inr k ↦ rw (run_loop, o, k) (rw o at after)
        ]
      ]

  pub new-Follows :
      (prompt : List ℕ) (max_new : ℕ) (degree : R) (top_k : Option ℕ) (top_p : Option R) (rng : G)
      (rep : Option R) (sink : Option Sink)
      → sampler.not_positive degree ≡ true
      → Follows (new_info prompt max_new (some degree) top_k top_p rng rep sink)
  unfolding greedy_run
  new-Follows prompt max_new degree top_k top_p rng rep sink cold = record {
    degree = degree;
    set = refl;
    cold = cold;
    runs = append-nil prompt;
  }
