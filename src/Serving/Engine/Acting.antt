-- ===== src/Serving/Engine/Acting.antt =====
-- Carrying out a planned action keeps the sequences and the scheduler coupled.
use s_llm.Prelude.{
  ℕ, suc, ◌≡◌, refl, ap, ◌∙◌, subst, inl, inr, Bool, true, false, none, some, List, [], ◌∷◌, ◌++◌,
  arith, leb, ◌==◌, if◌then◌else◌, length, member, returns, state_of, Bool-cases,
}
use s_llm.Prelude.Dict.{Dict, lookup, put, lookup-put}
use s_llm.Runtime.Scheduler.{Scheduler, Action, prefill, decode, advance}
use s_llm.Runtime.Spec.{generate}
use s_llm.Prelude.{◌<◌, length, arith}
use s_llm.Runtime.Scheduler.Work.{total}
use s_llm.Serving.Model.{Calls, Sampler}
use s_llm.Serving.Engine.{Engine, Info, with_info}
use s_llm.Serving.Engine.Step.{
  sample_token, next_logits, extended, reported, decode_action, decode_of, prefill_action, prepared,
  advance_only, act, filled,
}
use s_llm.Serving.Engine.Greedy.{greedy_next, AllFollow, act-AllFollow, if_false}
use s_llm.Serving.Engine.Coupled.{Coupled}

module _ (next : List ℕ → ℕ) (stop : List ℕ) where
  pub generate_stops :
      (k : ℕ) (xs : List ℕ) → member (next xs) stop ≡ true → generate next none stop (suc k) xs ≡ xs
  unfolding generate
  generate_stops k xs e = rw (generate, e) refl

  pub generate_goes :
      (k : ℕ) (xs : List ℕ)
      → member (next xs) stop ≡ false
      → generate next none stop (suc k) xs ≡ generate next none stop k (xs ++ next xs ∷ [])
  unfolding generate
  generate_goes k xs e = rw (generate, e) refl

module _ {L C G R T : Type 0} where
  -- What the sink is told changes none of these.
  pub reported-same :
      (info : Info L C G R T) (tok : ℕ) (eos : Bool)
      → ((reported info tok eos).prompt ≡ info.prompt)
        × ((reported info tok eos).gen ≡ info.gen)
        × ((reported info tok eos).max_new ≡ info.max_new)
        × ((reported info tok eos).rep ≡ info.rep)
  unfolding reported
  reported-same info tok true = (refl, refl, refl, refl)
  reported-same info tok false = elim (Bool-cases (leb info.max_new (length info.gen))) [
    | inl e ↦ (rw e refl, rw e refl, rw e refl, rw e refl)
    | inr e ↦ (rw e refl, rw e refl, rw e refl, rw e refl)
  ]

  pub put_twice :
      (q : ℕ) (a b : Info L C G R T) (d : Dict (Info L C G R T)) (x : ℕ)
      → lookup x (put q b (put q a d)) ≡ (if q == x then some b else lookup x d)
  put_twice q a b d x = ground (arith, lookup-put q x b (put q a d), lookup-put q x a d)

module _ {L C G R T : Type 0} (m : Calls L C) (sampler : Sampler L G R) where
  advance_only-eq :
      (e : Engine L C G R T) (a : Action) (s : Scheduler)
      → advance e.sched a false ≡ returns tt s
      → advance_only e a ≡ returns tt (record e { sched = s })
  unfolding advance_only
  advance_only-eq e a s o = rw (advance_only, o) refl

  pub act-prefill-eq :
      (e : Engine L C G R T) (a : Action) (info : Info L C G R T) (s : Scheduler)
      → lookup a.seq_id e.seqs ≡ some info
      → a.phase ≡ prefill
      → e.inc ≡ false
      → advance e.sched a false ≡ returns tt s
      → act m sampler e a ≡ returns tt (record e { sched = s })
  unfolding act prefill_action
  act-prefill-eq e a info s there phase plain o =
      let same : prepared m sampler e a info ≡ e =
        if_false e.inc (with_info e a.seq_id (filled m info)) e plain in
      rw (act, there, phase) (ap (λ x. advance_only x a) same ∙ advance_only-eq e a s o)

  -- The engine after a decode that chose the token and the generator in `c`.
  abbrev pub after_decode :
      Engine L C G R T → Action → Info L C G R T → Scheduler → ℕ × G → Bool → Engine L C G R T
  after_decode e a info s c eos = record e {
    sched = s;
    seqs =
        put a.seq_id (reported (extended info c.1 c.0 eos) c.0 eos)
          (put a.seq_id (extended info c.1 c.0 eos) e.seqs);
  }

  decode_action-sampled :
      (e : Engine L C G R T) (a : Action) (logits : L) (info : Info L C G R T) (s : Scheduler)
      → advance e.sched a (member (sample_token sampler info logits).0 e.stop) ≡ returns tt s
      → decode_action m sampler e a logits info
        ≡ returns tt (
            after_decode e a info s
              (sample_token sampler info logits)
              (member (sample_token sampler info logits).0 e.stop))
  unfolding decode_action
  decode_action-sampled e a logits info s o = rw (decode_action, o) refl

  decode_action-eq :
      (e : Engine L C G R T) (a : Action) (logits : L) (info : Info L C G R T) (s : Scheduler)
      (c : ℕ × G) (eos : Bool)
      → sample_token sampler info logits ≡ c
      → member c.0 e.stop ≡ eos
      → advance e.sched a eos ≡ returns tt s
      → decode_action m sampler e a logits info ≡ returns tt (after_decode e a info s c eos)
  decode_action-eq e a logits info s c eos chosen halts o =
      decode_action-sampled e a logits info s (
        ap (λ (x : ℕ × G). advance e.sched a (member x.0 e.stop)) chosen
        ∙ ap (advance e.sched a) halts
        ∙ o)
      ∙ ap (λ (x : ℕ × G). returns tt (after_decode e a info s x (member x.0 e.stop))) chosen
      ∙ ap (λ b. returns tt (after_decode e a info s c b)) halts

  pub act-decode-eq :
      (e : Engine L C G R T) (a : Action) (info : Info L C G R T) (s : Scheduler) (c : ℕ × G)
      (eos : Bool)
      → lookup a.seq_id e.seqs ≡ some info
      → a.phase ≡ decode
      → e.inc ≡ false
      → sample_token sampler info (m.logits (info.prompt ++ info.gen)) ≡ c
      → member c.0 e.stop ≡ eos
      → advance e.sched a eos ≡ returns tt s
      → act m sampler e a ≡ returns tt (after_decode e a info s c eos)
  unfolding act decode_of next_logits
  act-decode-eq e a info s c eos there phase plain chosen halts o =
      let logits_are : next_logits m e.inc info ≡ some (m.logits (info.prompt ++ info.gen), info) =
        rw plain refl in
      rw (act, there, phase)
        (ap (decode_of m sampler e a) logits_are
          ∙ decode_action-eq e a (m.logits (info.prompt ++ info.gen)) info s c eos chosen halts o)

  -- The sequences and the scheduler of an engine that computes everything again, at a temperature of at
  -- most 0.
  pub record Going (e : Engine L C G R T) : Type 0 where
    pub follows : AllFollow m sampler e
    pub coupled : Coupled (greedy_next m sampler) e.stop e.sched e.seqs e.next_seq

  -- What an action leads to: it returns, and the requests under other ids stay.
  pub record Acted (e : Engine L C G R T) (a : Action) : Type 0 where
    pub after : Engine L C G R T
    pub returned : act m sampler e a ≡ returns tt after
    pub going : Going after
    pub others :
        (x : ℕ) → (a.seq_id == x) ≡ false → lookup x after.sched.running ≡ lookup x e.sched.running
    pub less : total after.sched.running < total e.sched.running
    pub queue_kept : after.sched.waiting ≡ e.sched.waiting

  pub acted-AllFollow :
      (e e' : Engine L C G R T) (a : Action)
      → AllFollow m sampler e
      → act m sampler e a ≡ returns tt e'
      → AllFollow m sampler e'
  acted-AllFollow e e' a h o =
      subst (λ x. AllFollow m sampler (state_of x)) o (act-AllFollow m sampler e a h)
