-- ===== src/Serving/Engine/Served.antt =====
-- What a server does with an engine: any sequence of its operations.
use s_llm.Prelude.{
  ℕ, ◌+◌, ◌≡◌, refl, ◌∙◌, inl, inr, Bool, true, false, not, Option, some, List, [], ◌∷◌, length,
  keep, state_of, Outcome-cases, List-cases, Bool-cases, Option-cases,
}
use s_llm.Prelude.Dict.{Dict, lookup}
use s_llm.Runtime.Scheduler
use s_llm.Runtime.Scheduler.{Scheduler, add}
use s_llm.Serving.Model.{Calls, Sampler}
use s_llm.Serving.Engine.{
  Engine, Info, Sink, new_info, submit, exceeds, attach, abort, result_text, text_of, tell_aborted,
}
use s_llm.Serving.Engine.Step.{step}
use s_llm.Serving.Engine.Reap.{reap, reaped, is_reaped, done_ids}
use s_llm.Serving.Engine.Greedy.{
  new-Follows, Every, Every-lookup, Every-put, Follows, AllFollow, with_sched, put-AllFollow,
  step-AllFollow,
}

module _ {L C G R T : Type 0} (m : Calls L C) (sampler : Sampler L G R) (decoded : List ℕ → T) where
  -- The engines that calls lead to, whether these return or raise, where every request asks for a
  -- temperature of at most 0.
  pub data Served (start : Engine L C G R T) : Engine L C G R T → Type 0 where
    begins : Served start start
    submits :
        (e : Engine L C G R T) (max_ctx : Option ℕ) (prompt : List ℕ) (max_new : ℕ) (degree : R)
        (top_k : Option ℕ) (top_p : Option R) (rng : G) (rep : Option R) (sink : Option Sink)
        → Served start e
        → sampler.not_positive degree ≡ true
        → Served start (
            state_of
              (submit e max_ctx (new_info prompt max_new (some degree) top_k top_p rng rep sink)))
    attaches :
        (e : Engine L C G R T) (q : ℕ) (sink : Sink)
        → Served start e
        → Served start (attach e q sink)
    aborts :
        (e : Engine L C G R T) (q : ℕ)
        → Served start e
        → Served start (state_of (abort decoded e q))
    reads :
        (e : Engine L C G R T) (q : ℕ)
        → Served start e
        → Served start (state_of (result_text decoded e q))
    reaps : (e : Engine L C G R T) → Served start e → Served start (reap e).0
    steps : (e : Engine L C G R T) → Served start e → Served start (state_of (step m sampler e))

  abbrev Good : Engine L C G R T → Type 0
  Good e = AllFollow m sampler e

  -- Only these four fields count.
  same-Follows :
      (info' info : Info L C G R T)
      → Follows m sampler info
      → info'.temperature ≡ info.temperature
      → info'.rep ≡ info.rep
      → info'.prompt ≡ info.prompt
      → info'.gen ≡ info.gen
      → Follows m sampler info'
  same-Follows info' info h a b c d = record {
    degree = h.degree;
    set = a ∙ h.set;
    cold = h.cold;
    runs = rw (b, c, d) h.runs;
  }

  submit-AllFollow :
      (e : Engine L C G R T) (max_ctx : Option ℕ) (info : Info L C G R T)
      → Good e
      → Follows m sampler info
      → Good (state_of (submit e max_ctx info))
  unfolding submit
  submit-AllFollow e max_ctx info h p =
      elim (Bool-cases (exceeds max_ctx (length info.prompt + info.max_new))) [
        | inl over ↦ rw (submit, over) (record { recomputes = h.recomputes; follow = h.follow })
        | inr fits ↦
            elim (Outcome-cases
              (add e.sched e.next_seq (length info.prompt) info.max_new e.use_state)) [
                | inl (u, s, o) ↦
                    rw (submit, fits, o)
                      (record {
                        recomputes = h.recomputes;
                        follow = Every-put (Follows m sampler) e.next_seq info e.seqs h.follow p;
                      })
                | inr (x, s, o) ↦
                    rw (submit, fits, o)
                      (record {
                        recomputes = h.recomputes;
                        follow = Every-put (Follows m sampler) e.next_seq info e.seqs h.follow p;
                      })
              ]
      ]

  attach-AllFollow : (e : Engine L C G R T) (q : ℕ) (sink : Sink) → Good e → Good (attach e q sink)
  unfolding attach
  attach-AllFollow e q sink h = elim (Option-cases (lookup q e.seqs)) [
    | inl missing ↦ rw (attach, missing) h
    | inr (info, found) ↦
        rw (attach, found)
          (put-AllFollow m sampler e e.sched q (record info { sink = some sink }) h
            (same-Follows (record info { sink = some sink }) info
              (Every-lookup (Follows m sampler) q info e.seqs h.follow found) refl refl refl refl))
  ]

  abort-AllFollow : (e : Engine L C G R T) (q : ℕ) → Good e → Good (state_of (abort decoded e q))
  unfolding abort
  abort-AllFollow e q h = elim (Outcome-cases (Scheduler.abort e.sched q)) [
    | inr (x, s, o) ↦ rw (abort, o) (with_sched m sampler e s h)
    | inl (false, s, o) ↦ rw (abort, o) (with_sched m sampler e s h)
    | inl (true, s, o) ↦ elim (Option-cases (lookup q e.seqs)) [
      | inl missing ↦ rw (abort, o, missing) (with_sched m sampler e s h)
      | inr (info, found) ↦
          rw (abort, o, found)
            (put-AllFollow m sampler e s q
              (tell_aborted (record info { text = some (text_of decoded info) })) h
              (same-Follows (tell_aborted (record info { text = some (text_of decoded info) })) info
                (Every-lookup (Follows m sampler) q info e.seqs h.follow found) refl refl refl
                refl))
    ]
  ]

  result_text-AllFollow :
      (e : Engine L C G R T) (q : ℕ) → Good e → Good (state_of (result_text decoded e q))
  unfolding result_text
  result_text-AllFollow e q h = elim (Option-cases (lookup q e.seqs)) [
    | inl missing ↦ rw (result_text, missing) h
    | inr (info, found) ↦
        rw (result_text, found)
          (put-AllFollow m sampler e e.sched q (record info { text = some (text_of decoded info) })
            h
            (same-Follows (record info { text = some (text_of decoded info) }) info
              (Every-lookup (Follows m sampler) q info e.seqs h.follow found) refl refl refl refl))
  ]

  Every-keep :
      {V : Type 0} (P : V → Type 0) (f : ℕ × V → Bool) (d : Dict V) → Every P d → Every P (keep f d)
  Every-keep P f [] h = tt
  Every-keep P f (x ∷ d) (h, hs) = elim (Bool-cases (f x)) [
    | inl k ↦ rw k (h, Every-keep P f d hs)
    | inr k ↦ rw k (Every-keep P f d hs)
  ]

  reap-AllFollow : (e : Engine L C G R T) → Good e → Good (reap e).0
  unfolding reap
  reap-AllFollow e h =
      let left =
        Every-keep (Follows m sampler) (λ x. not (is_reaped (done_ids e.sched.done) x)) e.seqs
          h.follow in
      elim (List-cases (reaped (done_ids e.sched.done) e.seqs)) [
        | inl none_gone ↦ rw (reap, none_gone) (record { recomputes = h.recomputes; follow = left })
        | inr (q, qs, gone) ↦ rw (reap, gone) (record { recomputes = h.recomputes; follow = left })
      ]

  -- However an engine that computes everything again is used, from one all of whose sequences follow the
  -- greedy run on, and whichever calls raise: every sequence in it has, as prompt and generated tokens,
  -- the greedy run of its own prompt, if every request asks for a temperature of at most 0.
  pub Served-AllFollow :
      (start e : Engine L C G R T)
      → AllFollow m sampler start
      → Served start e
      → AllFollow m sampler e
  Served-AllFollow start e h begins = h
  Served-AllFollow start e h
        (submits e' max_ctx prompt max_new degree top_k top_p rng rep sink s cold) =
      submit-AllFollow e' max_ctx (new_info prompt max_new (some degree) top_k top_p rng rep sink)
        (Served-AllFollow start e' h s)
        (new-Follows m sampler prompt max_new degree top_k top_p rng rep sink cold)
  Served-AllFollow start e h (attaches e' q sink s) =
      attach-AllFollow e' q sink (Served-AllFollow start e' h s)
  Served-AllFollow start e h (aborts e' q s) = abort-AllFollow e' q (Served-AllFollow start e' h s)
  Served-AllFollow start e h (reads e' q s) =
      result_text-AllFollow e' q (Served-AllFollow start e' h s)
  Served-AllFollow start e h (reaps e' s) = reap-AllFollow e' (Served-AllFollow start e' h s)
  Served-AllFollow start e h (steps e' s) =
      step-AllFollow m sampler e' (Served-AllFollow start e' h s)
