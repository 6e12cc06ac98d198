-- ===== src/Serving/Engine/Moving.antt =====
-- One planned action of a running request, carried out.
use s_llm.Prelude.{
  ℕ, suc, ◌+◌, ◌-◌, ◌≡◌, refl, sym, ap, ◌∙◌, subst, Bool, true, false, Option, none, some, List, [],
  ◌∷◌, ◌++◌, arith, leb, ◌==◌, if◌then◌else◌, length, member, returns, length-append,
}
use s_llm.Prelude.Dict.{Dict, lookup, put, lookup-put, lookup-without}
use mathlib.Core.List.{append_assoc}
use s_llm.Runtime.Scheduler.{Request, Scheduler, Action, prefill, decode, moved, is_over}
use s_llm.Runtime.Scheduler.Invariant.{IsSound}
use s_llm.Runtime.Scheduler.Progress.{Advanced, goes_on, is_done}
use s_llm.Runtime.Spec.{generate}
use s_llm.Serving.Engine.{Info}
use s_llm.Serving.Engine.Coupled.{
  Busy, IsComplete, single, Coupled, goes_on-Coupled, is_done-Coupled,
}
use s_llm.Serving.Engine.Acting.{generate_stops, generate_goes}

pub Advanced-others :
    (s s' : Scheduler) (q : ℕ) (r : Request) (a : Action) (eos : Bool)
    → Advanced s q r a eos (returns tt s')
    → (x : ℕ) → (q == x) ≡ false
    → lookup x s'.running ≡ lookup x s.running
Advanced-others s s' q r a eos (goes_on _ on same) x o =
    ap (λ (y : Scheduler). lookup x y.running) same
    ∙ ground (arith, lookup-put q x (moved r a) s.running)
Advanced-others s s' q r a eos (is_done t c _ over has_table reg same) x o =
    ap (λ (y : Scheduler). lookup x y.running) same
    ∙ ground (
      arith,
      lookup-without q x (put q (moved r a) s.running),
      lookup-put q x (moved r a) s.running,
    )

moved-seq_id : (r : Request) (a : Action) → (moved r a).seq_id ≡ r.seq_id
unfolding moved
moved-seq_id r a = ground arith

-- What a decoded token does to the request.
one_token-moved :
    (r : Request) (a : Action)
    → a.phase ≡ decode
    → a.length ≡ 1
    → ((moved r a).prompt_len ≡ r.prompt_len)
      × ((moved r a).max_new ≡ r.max_new)
      × ((moved r a).tokens_generated ≡ r.tokens_generated + 1)
      × (is_over (moved r a) false ≡ leb r.max_new (r.tokens_generated + 1))
unfolding moved is_over
one_token-moved r a e l = rw (e, moved, is_over) (refl, refl, ground (arith, l), ground (arith, l))

module _ {L C G R T : Type 0} (next : Option R → List ℕ → ℕ) (stop : List ℕ) where
  -- A request that moves as its sequence does stays coupled with it.
  pub Advanced-Coupled :
      (s s' : Scheduler) (seqs seqs' : Dict (Info L C G R T)) (n q : ℕ) (r : Request) (a : Action)
      (eos : Bool) (info' : Info L C G R T)
      → Coupled next stop s seqs n
      → lookup q s.running ≡ some r
      → ((x : ℕ) → lookup x seqs' ≡ (if q == x then some info' else lookup x seqs))
      → IsSound s'
      → (is_over (moved r a) eos ≡ false → Busy next stop (moved r a) info')
      → (is_over (moved r a) eos ≡ true → IsComplete next stop info')
      → Advanced s q r a eos (returns tt s')
      → Coupled next stop s' seqs' n
  Advanced-Coupled s s' seqs seqs' n q r a eos info' v e puts sound busy complete
        (goes_on _ on same) =
      subst (λ (x : Scheduler). Coupled next stop x seqs' n) (sym same)
        (goes_on-Coupled next stop s seqs seqs' n q r (moved r a) info' v e puts
          (subst IsSound same sound) (busy on))
  Advanced-Coupled s s' seqs seqs' n q r a eos info' v e puts sound busy complete
        (is_done t c _ over has_table reg same) =
      subst (λ (x : Scheduler). Coupled next stop x seqs' n) (sym same)
        (is_done-Coupled next stop s seqs seqs' n q r (moved r a) info' v e puts c
          (subst IsSound same sound) (moved-seq_id r a ∙ (v.sound.live q r e).named)
          (complete over))

  -- A chunk of the prompt leaves the request as far from its end as it was.
  pub chunk_Busy :
      (r : Request) (a : Action) (info : Info L C G R T)
      → a.phase ≡ prefill
      → Busy next stop r info
      → Busy next stop (moved r a) info × (is_over (moved r a) false ≡ false)
  unfolding moved is_over
  chunk_Busy r a info e b =
      rw (e, moved, is_over)
        (
          record {
            same_prompt = b.same_prompt;
            same_max = b.same_max;
            same_gen = b.same_gen;
            room = b.room;
            leads = b.leads;
          },
          ground (arith, b.room),
        )

  -- The dict of a sequence that is not yet complete, with one more token.
  pub record Grown (info info' : Info L C G R T) : Type 0 where
    pub same_prompt : info'.prompt ≡ info.prompt
    pub same_max : info'.max_new ≡ info.max_new
    pub same_rep : info'.rep ≡ info.rep
    pub longer : info'.gen ≡ info.gen ++ next info.rep (info.prompt ++ info.gen) ∷ []

  same_single :
      (info info' : Info L C G R T)
      → info'.prompt ≡ info.prompt
      → info'.max_new ≡ info.max_new
      → info'.rep ≡ info.rep
      → single next stop info' ≡ single next stop info
  same_single info info' p m r = λ i. generate (next (r i)) none stop (m i) (p i)

  -- The model stops.
  pub stops_IsComplete :
      (r : Request) (info info' : Info L C G R T)
      → Busy next stop r info
      → info'.prompt ≡ info.prompt
      → info'.max_new ≡ info.max_new
      → info'.rep ≡ info.rep
      → info'.gen ≡ info.gen
      → member (next info.rep (info.prompt ++ info.gen)) stop ≡ true
      → IsComplete next stop info'
  stops_IsComplete r info info' b p m rep g halt =
      let some_left : info.max_new - length info.gen ≡ suc (info.max_new - length info.gen - 1) =
        omega (arith, b.room, b.same_max, b.same_gen) in
      (λ i. p i ++ g i)
      ∙ sym (
          b.leads
          ∙ ap (λ k. generate (next info.rep) none stop k (info.prompt ++ info.gen)) some_left
          ∙ generate_stops (next info.rep) stop _ (info.prompt ++ info.gen) halt)
      ∙ sym (same_single info info' p m rep)

  Grown-leads :
      (r : Request) (info info' : Info L C G R T)
      → Busy next stop r info
      → Grown info info'
      → member (next info.rep (info.prompt ++ info.gen)) stop ≡ false
      → single next stop info'
        ≡ generate
            (next info'.rep)
            none
            stop
            (info'.max_new - length info'.gen)
            (info'.prompt ++ info'.gen)
  Grown-leads r info info' b g goes =
      let some_left : info.max_new - length info.gen ≡ suc (info.max_new - (length info.gen + 1)) =
        omega (arith, b.room, b.same_max, b.same_gen) in
      let size : length info'.gen ≡ length info.gen + 1 =
        ap length g.longer
        ∙ length-append info.gen (next info.rep (info.prompt ++ info.gen) ∷ []) in
      same_single info info' g.same_prompt g.same_max g.same_rep
      ∙ b.leads
      ∙ ap (λ k. generate (next info.rep) none stop k (info.prompt ++ info.gen)) some_left
      ∙ generate_goes (next info.rep) stop _ (info.prompt ++ info.gen) goes
      ∙ ap (generate (next info.rep) none stop (info.max_new - (length info.gen + 1)))
          (append_assoc info.prompt info.gen (next info.rep (info.prompt ++ info.gen) ∷ []))
      ∙ sym (λ i.
        generate (next (g.same_rep i)) none stop (g.same_max i - size i)
          (g.same_prompt i ++ g.longer i))

  -- The model goes on, and so does the request, or it is over.
  pub Grown-Busy :
      (r : Request) (a : Action) (info info' : Info L C G R T)
      → Busy next stop r info
      → Grown info info'
      → a.phase ≡ decode
      → a.length ≡ 1
      → member (next info.rep (info.prompt ++ info.gen)) stop ≡ false
      → is_over (moved r a) false ≡ false
      → Busy next stop (moved r a) info'
  Grown-Busy r a info info' b g phase one goes on =
      let (same_prompt, same_max, more, over) = one_token-moved r a phase one in
      let size : length info'.gen ≡ length info.gen + 1 =
        ap length g.longer
        ∙ length-append info.gen (next info.rep (info.prompt ++ info.gen) ∷ []) in
      record {
        same_prompt = same_prompt ∙ b.same_prompt ∙ sym (ap length g.same_prompt);
        same_max = same_max ∙ b.same_max ∙ sym g.same_max;
        same_gen = more ∙ ap (λ k. k + 1) b.same_gen ∙ sym size;
        room = ground (arith, sym over ∙ on, same_max, more);
        leads = Grown-leads r info info' b g goes;
      }

  pub Grown-IsComplete :
      (r : Request) (a : Action) (info info' : Info L C G R T)
      → Busy next stop r info
      → Grown info info'
      → a.phase ≡ decode
      → a.length ≡ 1
      → member (next info.rep (info.prompt ++ info.gen)) stop ≡ false
      → is_over (moved r a) false ≡ true
      → IsComplete next stop info'
  unfolding generate
  Grown-IsComplete r a info info' b g phase one goes ends =
      let (same_prompt, same_max, more, over) = one_token-moved r a phase one in
      let size : length info'.gen ≡ length info.gen + 1 =
        ap length g.longer
        ∙ length-append info.gen (next info.rep (info.prompt ++ info.gen) ∷ []) in
      let full : info'.max_new - length info'.gen ≡ 0 =
        ground (arith, sym over ∙ ends, b.same_max, b.same_gen, g.same_max, size) in
      sym (
        Grown-leads r info info' b g goes
        ∙ ap (λ k. generate (next info'.rep) none stop k (info'.prompt ++ info'.gen)) full)
