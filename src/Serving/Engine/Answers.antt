-- ===== src/Serving/Engine/Answers.antt =====
-- The batched engine answers as the single-shot loop does.
use s_llm.Prelude.{
  ℕ, zero, suc, ◌<◌, ◌≡◌, refl, sym, ap, ◌∙◌, subst, ◌⊎◌, inl, inr, Bool, true, false, ◌||◌, Option,
  none, some, List, [], ◌∷◌, ◌++◌, arith, ltb, ◌==◌, if◌then◌else◌, length, count, Outcome, returns,
  raises, state_of, ok, err, >>=-eq-ok, ok_inj, value_error, runtime_error, ℤ, Bool-cases,
  List-cases, ==_iff,
}
use s_llm.Prelude.Dict.{Dict, lookup, has}
use s_llm.Runtime.Scheduler.{Request, Scheduler, make_scheduler}
use s_llm.Runtime.Coordinator.{make_coordinator}
use s_llm.Runtime.Scheduler.Invariant.{ids, IsSound, make_scheduler-IsSound}
use s_llm.Runtime.Spec.{generate}
use s_llm.Runtime.Scheduler.Work.{work}
use s_llm.Runtime.Scheduler.Reach.{sound_idle_free}
use s_llm.Runtime.Scheduler.Maximal.{NoneAccepted}
use s_llm.Serving.Model.{Calls, Sampler}
use s_llm.Serving.Engine.{Engine, Info, make_engine, queue_length}
use s_llm.Serving.Engine.Step.{run_loop}
use s_llm.Serving.Engine.Greedy.{greedy_next}
use s_llm.Serving.Engine.Coupled.{InList, IsComplete}
use s_llm.Serving.Engine.Acting.{Going}
use s_llm.Serving.Engine.Admitting.{IsStuck, step-Going}
use s_llm.Serving.Engine.Answering.{Answering, Answering-Going}

-- Requests wait while none runs and all blocks and slots are free, and none of them would be accepted.
pub record HasStalled (s : Scheduler) : Type 0 where
  none_runs : s.running ≡ []
  some_wait : 0 < length s.waiting
  refused : NoneAccepted s s.waiting
  all_blocks_free : length s.coord.kv.free ≡ s.coord.kv.capacity
  all_slots_free : length s.coord.state.free ≡ s.coord.state.capacity

has_length : (q : ℕ) (d : Dict Request) → has q d ≡ true → 0 < length d
unfolding has lookup
has_length q [] h = cc
has_length q (x ∷ d) h = omega arith

count_length : (q : ℕ) (rs : List Request) → 0 < count q (ids rs) → 0 < length rs
count_length q [] h = omega arith
count_length q (r ∷ rs) h = omega arith

same_value {ℓ} :
    {V : Type ℓ} (d : Dict V) {p q : ℕ} {x y : V}
    → lookup p d ≡ some x
    → lookup q d ≡ some y
    → p ≡ q
    → x ≡ y
same_value d h k name = cc

make_scheduler-empty :
    (kv state : ℤ) (bs chunk conc : ℕ) (s : Scheduler)
    → make_scheduler kv state bs chunk conc ≡ ok s
    → (s.running ≡ []) × (s.waiting ≡ []) × (s.done ≡ [])
unfolding make_scheduler
make_scheduler-empty kv state bs chunk conc s h =
    elim (Bool-cases (ltb chunk 1 || ltb bs 1 || ltb conc 1)) [
      | inl bad ↦ (let no_result : err value_error ≡ ok s = rw bad at h in cc)
      | inr good ↦
          let (c, made, same) = >>=-eq-ok (make_coordinator kv state) _ (rw good at h) in
          (
            ap (λ (x : Scheduler). x.running) (sym (ok_inj same)),
            ap (λ (x : Scheduler). x.waiting) (sym (ok_inj same)),
            ap (λ (x : Scheduler). x.done) (sym (ok_inj same)),
          )
    ]

module _ {L C G R T : Type 0} (m : Calls L C) (sampler : Sampler L G R) where
  empty-Going :
      (s : Scheduler) (stop : List ℕ) (use_state : Bool)
      → IsSound s
      → s.running ≡ []
      → s.waiting ≡ []
      → s.done ≡ []
      → Going {T = T} m sampler (record {
        sched = s;
        seqs = [];
        order = [];
        next_seq = 0;
        stop = stop;
        inc = false;
        use_state = use_state;
      })
  unfolding lookup
  empty-Going s stop use_state sound no_runs no_waits no_done = record {
    follows = record { recomputes = refl; follow = tt };
    coupled = record {
      sound = sound;
      unused = λ q h. refl;
      runs = λ q r h. absurd (nothing_runs q r (ap (lookup q) (sym no_runs) ∙ h));
      waits = λ r h. absurd (subst (InList r) no_waits h);
      over = λ r h. absurd (subst (InList r) no_done h);
      apart = λ r h. absurd (subst (InList r) no_done h);
      accounted = λ q info h. cc;
    };
  }
    where
      nothing_runs : (q : ℕ) (r : Request) → none ≡ some r → ⊥
      nothing_runs q r h = cc

  make_engine-Going :
      (eos : Option ℕ) (layers : Option (List Bool)) (kv state : ℤ) (bs chunk conc : ℕ)
      (e : Engine L C G R T)
      → make_engine eos false layers kv state bs chunk conc ≡ ok e
      → Going m sampler e
  unfolding make_engine
  make_engine-Going eos layers kv state bs chunk conc e h =
      let (s, made, same) = >>=-eq-ok (make_scheduler kv state bs chunk conc) _ h in
      let (no_runs, no_waits, no_done) = make_scheduler-empty kv state bs chunk conc s made in
      subst (λ x. Going m sampler x) (ok_inj same)
        (empty-Going s _ _ (make_scheduler-IsSound kv state bs chunk conc s made) no_runs no_waits
          no_done)

  IsComplete-at_end :
      (e : Engine L C G R T)
      → Going m sampler e
      → queue_length e ≡ 0
      → (q : ℕ) (info : Info L C G R T) → lookup q e.seqs ≡ some info
      → IsComplete (greedy_next m sampler) e.stop info
  IsComplete-at_end e g idle q info h = elim (g.coupled.accounted q info h) [
    | inl runs ↦ absurd (omega (arith, has_length q e.sched.running runs, idle))
    | inr (inl waits) ↦ absurd (omega (arith, count_length q e.sched.waiting waits, idle))
    | inr (inr (r, i, name)) ↦
        let (x, there, done) = g.coupled.over r i in
        subst (IsComplete (greedy_next m sampler) e.stop) (same_value e.seqs there h name) done
  ]

  -- What the loop of `run_all` comes to: every sequence complete, or only requests that
  -- wait, none of which was admitted.
  abbrev pub Answered : Outcome (Engine L C G R T) (Unit {0}) → Type 0
  Answered o =
      ((e : Engine L C G R T) × (o ≡ returns tt e)
        × ((q : ℕ) (info : Info L C G R T)
            → lookup q e.seqs ≡ some info
            → IsComplete (greedy_next m sampler) e.stop info))
      ⊎ ((e : Engine L C G R T) × (o ≡ raises runtime_error e)
          × IsSound e.sched
          × IsStuck e.sched
          × (0 < length e.sched.waiting))

  idle_or_stuck :
      (e : Engine L C G R T)
      → Going m sampler e
      → IsStuck e.sched
      → Answered (if queue_length e == 0 then returns tt e else raises runtime_error e)
  idle_or_stuck e g idle = elim (Bool-cases (queue_length e == 0)) [
    | inl k ↦ inl (e, rw k refl, IsComplete-at_end e g ((==_iff (queue_length e) 0).0 k))
    | inr k ↦ inr (e, rw k refl, g.coupled.sound, idle, ground (arith, ap length idle.0))
  ]

  run_loop-Answered :
      (n : ℕ) (e : Engine L C G R T)
      → Going m sampler e
      → work e.sched < n
      → Answered (run_loop m sampler n e)
  unfolding run_loop
  run_loop-Answered zero e g enough = absurd (omega (arith, enough))
  run_loop-Answered (suc n) e g enough =
      let (actions, e', o, g', less, idle) = step-Going m sampler e g in
      elim (List-cases actions) [
        | inl nothing ↦ rw (run_loop, o, nothing) (idle_or_stuck e' g' (idle nothing))
        | inr (a, rest, some_done) ↦
            rw (run_loop, o, some_done)
              (run_loop-Answered n e' g' (omega (arith, less, enough, ap length some_done)))
      ]

module _ {L C G R T : Type 0} (m : Calls L C) (sampler : Sampler L G R) (eos : Option ℕ)
    (layers : Option (List Bool)) (kv state : ℤ) (bs chunk conc : ℕ) (start e : Engine L C G R T)
    (made : make_engine eos false layers kv state bs chunk conc ≡ ok start)
    (history : Answering m sampler start e) where
  is_Going : Going m sampler e
  is_Going =
      Answering-Going m sampler start e
        (make_engine-Going m sampler eos layers kv state bs chunk conc start made) history

  -- An engine that computes everything again is made and used: requests for at least one token, at a
  -- temperature of at most 0, are submitted, and steps are taken, in any order. Any request
  -- that is done then has, as prompt and generated tokens, exactly what the single-shot loop gives for
  -- its prompt, its limit and the stop ids of the engine.
  pub finished-generate :
      (r : Request)
      → InList r e.sched.done
      → (info : Info L C G R T) × (lookup r.seq_id e.seqs ≡ some info)
        × (info.prompt ++ info.gen
            ≡ generate (greedy_next m sampler info.rep) none e.stop info.max_new info.prompt)
  finished-generate r over = is_Going.coupled.over r over

  -- An engine that computes everything again is made and used: requests for at least one token, at a
  -- temperature of at most 0, are submitted, and steps are taken, in any order. If then the loop of
  -- `run_all` is allowed more steps than there are prompt tokens and output tokens to go, it returns, or it
  -- raises the `RuntimeError` with requests that wait, none of which the scheduler accepts, although none
  -- runs and all blocks and slots are free. If it returns,
  -- any sequence of the engine has, as prompt and generated tokens, exactly what the single-shot loop
  -- gives for its prompt, its limit and the stop ids of the engine.
  pub run_loop-generate :
      (n q : ℕ) (info : Info L C G R T)
      → work e.sched < n
      → lookup q (state_of (run_loop m sampler n e)).seqs ≡ some info
      → ((run_loop m sampler n e ≡ raises runtime_error (state_of (run_loop m sampler n e)))
          × HasStalled (state_of (run_loop m sampler n e)).sched)
        ⊎ ((run_loop m sampler n e ≡ returns tt (state_of (run_loop m sampler n e)))
            × (info.prompt ++ info.gen
                ≡ generate
                    (greedy_next m sampler info.rep)
                    none
                    (state_of (run_loop m sampler n e)).stop
                    info.max_new
                    info.prompt))
  run_loop-generate n q info enough there = elim (run_loop-Answered m sampler n e is_Going enough) [
    | inl (e', o, all_complete) ↦
        let same : e' ≡ state_of (run_loop m sampler n e) = ap state_of (sym o) in
        inr (
          o ∙ ap (returns tt) same,
          subst (λ x. IsComplete (greedy_next m sampler) x.stop info) same
              (all_complete q info (ap (λ x. lookup q x.seqs) same ∙ there)),
        )
    | inr (e', o, sound, (none_runs, refused), left) ↦
        let (blocks, slots) = sound_idle_free e'.sched sound none_runs in
        let same : e' ≡ state_of (run_loop m sampler n e) = ap state_of (sym o) in
        inl (
          o ∙ ap (raises runtime_error) same,
          subst (λ x. HasStalled x.sched) same
              (record {
                none_runs = none_runs;
                some_wait = left;
                refused = refused;
                all_blocks_free = blocks;
                all_slots_free = slots;
              }),
        )
  ]
