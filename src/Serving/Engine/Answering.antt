-- ===== src/Serving/Engine/Answering.antt =====
-- Requests that enter, and what every history of the engine leads to.
use s_llm.Prelude.{
  ℕ, suc, ◌+◌, ◌-◌, ◌<◌, ◌≡◌, refl, sym, ap, ◌∙◌, subst, ◌⊎◌, inl, inr, Bool, true, false, Option,
  none, some, List, [], ◌∷◌, ◌++◌, arith, ◌==◌, length, count, state_of, Bool-cases, ==_iff,
}
use s_llm.Prelude.Dict.{Dict, lookup, put, has, lookup-put}
use mathlib.Core.List.{append-nil}
use s_llm.Runtime.Scheduler.{Request, Scheduler, new_request}
use s_llm.Runtime.Scheduler.Invariant.{ids, IsSound, has-lookup, count-ids-append}
use s_llm.Runtime.Scheduler.Reach.{add_total}
use s_llm.Runtime.Spec.{generate}
use s_llm.Serving.Model.{Calls, Sampler}
use s_llm.Serving.Engine.{Engine, Info, Sink, exceeds, new_info, submit}
use s_llm.Serving.Engine.Step.{step}
use s_llm.Serving.Engine.Greedy.{new-Follows, Every-put, Follows, greedy_next}
use s_llm.Serving.Engine.Coupled.{InList, InList-append, Placed, Busy, Coupled}
use s_llm.Serving.Engine.Acting.{Going}
use s_llm.Serving.Engine.Complete.{other_key}
use s_llm.Serving.Engine.Admitting.{step-Going}

count-InList :
    (q : ℕ) (xs : List Request)
    → 0 < count q (ids xs)
    → (r : Request) × InList r xs × (r.seq_id ≡ q)
count-InList q [] h = absurd (omega arith)
count-InList q (x ∷ xs) h = elim (Bool-cases (x.seq_id == q)) [
  | inl same ↦ (x, inl refl, (==_iff x.seq_id q).0 same)
  | inr other ↦ let (r, i, name) = count-InList q xs (ground (arith, h, other)) in (r, inr i, name)
]

module _ {L C G R T : Type 0} (next : Option R → List ℕ → ℕ) (stop : List ℕ) (s : Scheduler)
    (seqs : Dict (Info L C G R T)) (n : ℕ) (v : Coupled next stop s seqs n) where
  -- The next id neither waits nor runs.
  new_id : (0 < count n (ids s.waiting)) ⊎ (has n s.running ≡ true) → ⊥
  new_id (inl h) =
      let (r, i, name) = count-InList n s.waiting h in
      let (info, there, b) = v.waits r i in cc (v.unused n (omega arith), there, name)
  new_id (inr h) = elim (has-lookup n s.running) [
    | inl (absent, _) ↦ cc (absent, h)
    | inr (_, r, e) ↦ cc (v.unused n (omega arith), (v.runs n r e).1)
  ]

  module _ (info : Info L C G R T) (use_state : Bool) (fresh_gen : info.gen ≡ [])
      (some_new : 0 < info.max_new) where
    abbrev entered : Scheduler
    entered = record s {
      waiting = s.waiting ++ new_request n (length info.prompt) info.max_new use_state ∷ [];
    }

    kept :
        (q : ℕ) (x : Info L C G R T) → lookup q seqs ≡ some x → lookup q (put n info seqs) ≡ some x
    kept q x h =
        ground
          (arith, lookup-put n q info seqs, other_key n q seqs x (v.unused n (omega arith)) h, h)

    new_Busy : Busy next stop (new_request n (length info.prompt) info.max_new use_state) info
    new_Busy =
        let none_yet : length info.gen ≡ 0 = ap length fresh_gen in
        let budget : info.max_new ≡ info.max_new - length info.gen = omega (arith, none_yet) in
        let from_start : info.prompt ≡ info.prompt ++ info.gen =
          sym (ap (λ g. info.prompt ++ g) fresh_gen ∙ append-nil info.prompt) in
        record {
          same_prompt = refl;
          same_max = refl;
          same_gen = sym (ap length fresh_gen);
          room = some_new;
          leads = λ i. generate (next info.rep) none stop (budget i) (from_start i);
        }

    entered-Placed : (q : ℕ) → Placed q s → Placed q entered
    entered-Placed q (inl h) = inl h
    entered-Placed q (inr (inl h)) = inr (
        inl (
          omega (
            arith,
            h,
            count-ids-append q s.waiting
                (new_request n (length info.prompt) info.max_new use_state ∷ []),
          )))
    entered-Placed q (inr (inr h)) = inr (inr h)

    pub entered-Coupled : IsSound entered → Coupled next stop entered (put n info seqs) (suc n)
    entered-Coupled sound = record {
      sound = sound;
      unused = λ q h. ground (arith, lookup-put n q info seqs, v.unused q (omega arith), h);
      runs = λ q r h. let (x, there, b) = v.runs q r h in (x, kept q x there, b);
      waits = λ r h. elim (InList-append r s.waiting _ h) [
        | inl i ↦ let (x, there, b) = v.waits r i in (x, kept r.seq_id x there, b)
        | inr (inl it) ↦
            let name : n ≡ r.seq_id = ap (λ (y : Request). y.seq_id) it in
            (
              info,
              ground (arith, lookup-put n r.seq_id info seqs, name),
              subst (λ (y : Request). Busy next stop y info) it new_Busy,
            )
        | inr (inr nothing) ↦ absurd nothing
      ];
      over = λ r h. let (x, there, b) = v.over r h in (x, kept r.seq_id x there, b);
      apart = λ r h.
          let (x, there, b) = v.over r h in
          let other : (n == r.seq_id) ≡ false =
            other_key n r.seq_id seqs x (v.unused n (omega arith)) there in
          let (no_run, no_wait) = v.apart r h in
          (
            no_run,
            ground (
              arith,
              no_wait,
              other,
              count-ids-append r.seq_id s.waiting
                  (new_request n (length info.prompt) info.max_new use_state ∷ []),
            ),
          );
      accounted = λ q x h. elim (Bool-cases (n == q)) [
        | inl same ↦ inr (
            inl (
              ground (
                arith,
                same,
                count-ids-append q s.waiting
                    (new_request n (length info.prompt) info.max_new use_state ∷ []),
              )))
        | inr o ↦
            entered-Placed q (v.accounted q x (ground (arith, lookup-put n q info seqs, h, o)))
      ];
    }

module _ {L C G R T : Type 0} (m : Calls L C) (sampler : Sampler L G R) where
  -- What may be asked of an engine: requests at a temperature of at most 0 for at least one token,
  -- and steps.
  pub data Answering (start : Engine L C G R T) : Engine L C G R T → Type 0 where
    at_start : Answering start start
    asked :
        (e : Engine L C G R T) (max_ctx : Option ℕ) (prompt : List ℕ) (max_new : ℕ) (degree : R)
        (top_k : Option ℕ) (top_p : Option R) (rng : G) (rep : Option R) (sink : Option Sink)
        → Answering start e
        → sampler.not_positive degree ≡ true
        → 0 < max_new
        → Answering start (
            state_of
              (submit e max_ctx (new_info prompt max_new (some degree) top_k top_p rng rep sink)))
    stepped :
        (e : Engine L C G R T) → Answering start e → Answering start (state_of (step m sampler e))

  submit-Going :
      (e : Engine L C G R T) (max_ctx : Option ℕ) (info : Info L C G R T)
      → Going m sampler e
      → Follows m sampler info
      → info.gen ≡ []
      → 0 < info.max_new
      → Going m sampler (state_of (submit e max_ctx info))
  unfolding submit
  submit-Going e max_ctx info g f fresh_gen some_new =
      let v = g.coupled in
      elim (Bool-cases (exceeds max_ctx (length info.prompt + info.max_new))) [
        | inl over ↦
            rw (submit, over)
              (record {
                follows = record { recomputes = g.follows.recomputes; follow = g.follows.follow };
                coupled = record {
                  sound = v.sound;
                  unused = λ q h. v.unused q (omega (arith, h));
                  runs = v.runs;
                  waits = v.waits;
                  over = v.over;
                  apart = v.apart;
                  accounted = v.accounted;
                };
              })
        | inr fits ↦
            elim (add_total e.sched e.next_seq (length info.prompt) info.max_new e.use_state
              v.sound) [
                | inl (taken, _) ↦
                    absurd (new_id (greedy_next m sampler) e.stop e.sched e.seqs e.next_seq v taken)
                | inr (_, _, o, sound) ↦
                    rw (submit, fits, o)
                      (record {
                        follows = record {
                          recomputes = g.follows.recomputes;
                          follow =
                              Every-put (Follows m sampler) e.next_seq info e.seqs g.follows.follow
                                f;
                        };
                        coupled =
                            entered-Coupled (greedy_next m sampler) e.stop e.sched e.seqs e.next_seq
                              v info e.use_state fresh_gen some_new sound;
                      })
              ]
      ]

  pub Answering-Going :
      (start e : Engine L C G R T) → Going m sampler start → Answering start e → Going m sampler e
  Answering-Going start e g at_start = g
  Answering-Going start e g
        (asked e' max_ctx prompt max_new degree top_k top_p rng rep sink h cold some_new) =
      submit-Going e' max_ctx (new_info prompt max_new (some degree) top_k top_p rng rep sink)
        (Answering-Going start e' g h)
        (new-Follows m sampler prompt max_new degree top_k top_p rng rep sink cold) refl some_new
  Answering-Going start e g (stepped e' h) =
      let (actions, e'', o, after, _, _) = step-Going m sampler e' (Answering-Going start e' g h) in
      subst (λ x. Going m sampler (state_of x)) (sym o) after
