-- ===== src/Serving/Engine/Complete.antt =====
-- The actions of a step, carried out on sequences that are coupled with the scheduler.
use s_llm.Prelude.{
  ℕ, ◌≡◌, refl, sym, ap, ◌∙◌, inl, inr, Bool, true, false, none, some, List, ◌∷◌, ◌++◌, arith, ◌==◌,
  if◌then◌else◌, member, returns, Bool-cases, ==_iff,
}
use s_llm.Prelude.Dict.{Dict, lookup, Distinct}
use s_llm.Runtime.Scheduler.{Request, Action, prefill, decode, moved, is_over}
use s_llm.Runtime.Scheduler.Progress.{advance_total}
use s_llm.Runtime.Scheduler.Plan.{Planned, chunked, one_token, PlannedAll, no_more, plan_next}
use s_llm.Prelude.{◌≤◌, ◌+◌, length, arith, []}
use s_llm.Runtime.Scheduler.Work.{queued, work, Advanced-total}
use s_llm.Serving.Model.{Calls, Sampler}
use s_llm.Serving.Engine.{Engine, Info}
use s_llm.Serving.Engine.Step.{extended, reported, act_all}
use s_llm.Serving.Engine.Greedy.{Every-lookup, greedy_next, Follows, sampled}
use s_llm.Serving.Engine.Acting.{
  reported-same, put_twice, act-prefill-eq, after_decode, act-decode-eq, Going, Acted,
  acted-AllFollow,
}
use s_llm.Serving.Engine.Moving.{
  Advanced-others, Advanced-Coupled, chunk_Busy, stops_IsComplete, Grown-Busy, Grown-IsComplete,
  Grown,
}

unchanged {ℓ} :
    {V : Type ℓ} (q : ℕ) (v : V) (d : Dict V)
    → lookup q d ≡ some v
    → (x : ℕ) → lookup x d ≡ (if q == x then some v else lookup x d)
unchanged q v d there x = elim (Bool-cases (q == x)) [
  | inl same ↦ ap (λ k. lookup k d) (sym ((==_iff q x).0 same)) ∙ there ∙ rw same refl
  | inr o ↦ rw o refl
]

Planned-named : (chunk : ℕ) (r : Request) (a : Action) → Planned chunk r a → a.seq_id ≡ r.seq_id
Planned-named chunk r a (chunked _ n phase f t le some_left c) = n
Planned-named chunk r a (one_token _ n phase le one) = n

pub other_key {ℓ} :
    {V : Type ℓ} (q x : ℕ) (d : Dict V) (y : V)
    → lookup q d ≡ none
    → lookup x d ≡ some y
    → (q == x) ≡ false
other_key q x d y h k = elim (Bool-cases (q == x)) [
  | inr o ↦ o
  | inl same ↦ let key : q ≡ x = (==_iff q x).0 same in cc (h, k, key)
]

ends_by_eos : (r : Request) → is_over r true ≡ true
unfolding is_over
ends_by_eos r = refl

module _ {L C G R T : Type 0} (m : Calls L C) (sampler : Sampler L G R) (e : Engine L C G R T)
    (a : Action) (r : Request) (g : Going m sampler e)
    (here : lookup a.seq_id e.sched.running ≡ some r) (chunk : ℕ) (plan : Planned chunk r a) where
  chunk-Acted : a.phase ≡ prefill → Acted m sampler e a
  chunk-Acted phase =
      let (info, there, b) = g.coupled.runs a.seq_id r here in
      let (s', o, sound, adv) = advance_total e.sched a false g.coupled.sound r here in
      let (busy, on) = chunk_Busy (greedy_next m sampler) e.stop r a info phase b in
      let back = act-prefill-eq m sampler e a info s' there phase g.follows.recomputes o in
      record {
        after = record e { sched = s' };
        returned = back;
        going = record {
          follows = acted-AllFollow m sampler e (record e { sched = s' }) a g.follows back;
          coupled =
              Advanced-Coupled (greedy_next m sampler) e.stop e.sched s' e.seqs e.seqs e.next_seq
                a.seq_id r a false info g.coupled here (unchanged a.seq_id info e.seqs there) sound
                (λ k. busy) (λ k. cc (on, k)) adv;
        };
        others = Advanced-others e.sched s' a.seq_id r a false adv;
        less =
            (Advanced-total e.sched s' chunk a.seq_id r a false plan here (omega (arith, b.room))
              adv).0;
        queue_kept =
            (Advanced-total e.sched s' chunk a.seq_id r a false plan here (omega (arith, b.room))
              adv).1;
      }

  abbrev choice : Info L C G R T → ℕ
  choice info = greedy_next m sampler info.rep (info.prompt ++ info.gen)

  abbrev told : Info L C G R T → Bool → Info L C G R T
  told info eos = reported (extended info info.rng (choice info) eos) (choice info) eos

  one_token-Acted : a.phase ≡ decode → a.length ≡ 1 → Acted m sampler e a
  unfolding extended
  one_token-Acted phase one =
      let (info, there, b) = g.coupled.runs a.seq_id r here in
      let f = Every-lookup (Follows m sampler) a.seq_id info e.seqs g.follows.follow there in
      elim (Bool-cases (member (choice info) e.stop)) [
        | inl halt ↦
            let (s', o, sound, adv) = advance_total e.sched a true g.coupled.sound r here in
            let back =
              act-decode-eq m sampler e a info s' (choice info, info.rng) true there phase
                g.follows.recomputes (sampled m sampler info f) halt o in
            let (p, gen, mx, rep) =
              reported-same (extended info info.rng (choice info) true) (choice info) true in
            record {
              after = after_decode m sampler e a info s' (choice info, info.rng) true;
              returned = back;
              going = record {
                follows = acted-AllFollow m sampler e _ a g.follows back;
                coupled =
                    Advanced-Coupled (greedy_next m sampler) e.stop e.sched s' e.seqs _ e.next_seq
                      a.seq_id r a true (told info true) g.coupled here
                      (put_twice a.seq_id _ _ e.seqs) sound (λ k. cc (k, ends_by_eos (moved r a)))
                      (λ k.
                        stops_IsComplete (greedy_next m sampler) e.stop r info (told info true) b p
                          mx rep gen halt)
                      adv;
              };
              others = Advanced-others e.sched s' a.seq_id r a true adv;
              less =
                  (Advanced-total e.sched s' chunk a.seq_id r a true plan here
                    (omega (arith, b.room)) adv).0;
              queue_kept =
                  (Advanced-total e.sched s' chunk a.seq_id r a true plan here
                    (omega (arith, b.room)) adv).1;
            }
        | inr goes ↦
            let (s', o, sound, adv) = advance_total e.sched a false g.coupled.sound r here in
            let back =
              act-decode-eq m sampler e a info s' (choice info, info.rng) false there phase
                g.follows.recomputes (sampled m sampler info f) goes o in
            let (p, gen, mx, rep) =
              reported-same (extended info info.rng (choice info) false) (choice info) false in
            let grown : Grown (greedy_next m sampler) e.stop info (told info false) = record {
              same_prompt = p;
              same_max = mx;
              same_rep = rep;
              longer = gen;
            } in
            record {
              after = after_decode m sampler e a info s' (choice info, info.rng) false;
              returned = back;
              going = record {
                follows = acted-AllFollow m sampler e _ a g.follows back;
                coupled =
                    Advanced-Coupled (greedy_next m sampler) e.stop e.sched s' e.seqs _ e.next_seq
                      a.seq_id r a false (told info false) g.coupled here
                      (put_twice a.seq_id _ _ e.seqs) sound
                      (Grown-Busy (greedy_next m sampler) e.stop r a info (told info false) b grown
                        phase one goes)
                      (Grown-IsComplete (greedy_next m sampler) e.stop r a info (told info false) b
                        grown phase one goes)
                      adv;
              };
              others = Advanced-others e.sched s' a.seq_id r a false adv;
              less =
                  (Advanced-total e.sched s' chunk a.seq_id r a false plan here
                    (omega (arith, b.room)) adv).0;
              queue_kept =
                  (Advanced-total e.sched s' chunk a.seq_id r a false plan here
                    (omega (arith, b.room)) adv).1;
            }
      ]

module _ {L C G R T : Type 0} (m : Calls L C) (sampler : Sampler L G R) where
  Planned-Acted :
      (chunk : ℕ) (e : Engine L C G R T) (a : Action) (r : Request)
      → Going m sampler e
      → lookup a.seq_id e.sched.running ≡ some r
      → Planned chunk r a
      → Acted m sampler e a
  Planned-Acted chunk e a r g here (chunked _ n phase f t le some_left c) =
      chunk-Acted m sampler e a r g here chunk (chunked a n phase f t le some_left c) phase
  Planned-Acted chunk e a r g here (one_token _ n phase le one) =
      one_token-Acted m sampler e a r g here chunk (one_token a n phase le one) phase one

  -- The requests of `d` run, each under its own id.
  abbrev pub AllRun : Dict Request → Engine L C G R T → Type 0
  AllRun d e =
      (q : ℕ) (r : Request)
      → lookup q d ≡ some r
      → (lookup q e.sched.running ≡ some r) × (r.seq_id ≡ q)

  -- The actions planned for running requests all return, and each lowers the work left.
  pub act_all-Going :
      (chunk : ℕ) (d : Dict Request) (actions : List Action) (e : Engine L C G R T)
      → PlannedAll chunk d actions
      → Distinct d
      → AllRun d e
      → Going m sampler e
      → (e' : Engine L C G R T) × (act_all m sampler e actions ≡ returns tt e')
        × Going m sampler e'
        × (work e'.sched + length actions ≤ work e.sched)
        × (actions ≡ [] → e' ≡ e)
  unfolding act_all lookup
  act_all-Going chunk _ _ e no_more u f g = (e, refl, g, omega arith, λ h. refl)
  act_all-Going chunk ((q, r) ∷ d) (a ∷ rest) e (plan_next p more) u f g =
      let (here, named) = f q r (ground arith) in
      let same : a.seq_id ≡ q = Planned-named chunk r a p ∙ named in
      let it = Planned-Acted chunk e a r g (ap (λ k. lookup k e.sched.running) same ∙ here) p in
      let still : AllRun d it.after = (λ x y k.
        let apart : (q == x) ≡ false = other_key q x d y u.0 k in
        let (there, name) = f x y (rw apart k) in
        (it.others x (ap (λ z. z == x) same ∙ apart) ∙ there, name)) in
      let (e', o, g', less, _) = act_all-Going chunk d rest it.after more u.1 still it.going in
      (
        e',
        rw (act_all, it.returned) o,
        g',
        omega (arith, less, it.less, ap queued it.queue_kept),
        λ h. cc,
      )
