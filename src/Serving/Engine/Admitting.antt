-- ===== src/Serving/Engine/Admitting.antt =====
-- Admission keeps the sequences and the scheduler coupled, and so does a step, or the loop of `run_all`.
use s_llm.Prelude.{
  ℕ, ◌+◌, ◌≡◌, refl, sym, ap, ◌∙◌, subst, ◌⊎◌, inl, inr, ◌||◌, Option, some, List, [], ◌∷◌, arith,
  ltb, ◌==◌, count, returns, Bool-cases, ==_iff,
}
use s_llm.Prelude.Dict.{Dict, lookup, put, has, lookup-put}
use s_llm.Runtime.Scheduler
use s_llm.Runtime.Scheduler.{Request, Scheduler, Action, pump, schedule}
use s_llm.Runtime.Scheduler.Invariant.{ids, IsSound, has-put}
use s_llm.Runtime.Scheduler.Pump.{Budget, budget_of, greedy, start_all, fits, spend, pump_total}
use s_llm.Runtime.Scheduler.Plan.{schedule-PlannedAll}
use s_llm.Prelude.{◌≤◌, length, state_of}
use s_llm.Runtime.Scheduler.Maximal.{greedy-count, NoneAccepted, pump_maximal}
use s_llm.Runtime.Scheduler.Work.{
  total, queued, work, start_all-total, greedy-queued, PlannedAll-none,
}
use s_llm.Serving.Model.{Calls, Sampler}
use s_llm.Serving.Engine.{Engine, Info}
use s_llm.Serving.Engine.Step.{act_all, step}
use s_llm.Serving.Engine.Greedy.{greedy_next, with_sched}
use s_llm.Serving.Engine.Coupled.{InList, Placed, Busy, Coupled}
use s_llm.Serving.Engine.Acting.{Going}
use s_llm.Serving.Engine.Complete.{act_all-Going}

-- The choice takes its requests from the queue, and keeps the others.
greedy-InList :
    (bs : ℕ) (b : Budget) (w : List Request) (x : Request)
    → (InList x (greedy bs b w).taken → InList x w) × (InList x (greedy bs b w).kept → InList x w)
unfolding greedy
greedy-InList bs b [] x = (λ h. h, λ h. h)
greedy-InList bs b (r ∷ rs) x = elim (Bool-cases (fits bs b r)) [
  | inl e ↦
      let (t, k) = greedy-InList bs (spend bs b r) rs x in
      rw (greedy, e) (λ h. (elim h [ inl y ↦ inl y | inr y ↦ inr (t y) ]), λ h. inr (k h))
  | inr e ↦
      let (t, k) = greedy-InList bs b rs x in
      rw (greedy, e) (λ h. inr (t h), λ h. (elim h [ inl y ↦ inl y | inr y ↦ inr (k y) ]))
]

-- Nothing runs, and no request that waits would be accepted.
abbrev pub IsStuck : Scheduler → Type 0
IsStuck s = (s.running ≡ []) × NoneAccepted s s.waiting

refused_after :
    (s s' : Scheduler) (admitted : List ℕ)
    → IsSound s
    → pump s ≡ returns admitted s'
    → NoneAccepted s' s'.waiting
refused_after s s' admitted v o =
    let (_, s1, o1, _, _, refused) = pump_maximal s v in
    let same : s1 ≡ s' = ap state_of (sym o1 ∙ o) in
    subst (λ x. NoneAccepted x x.waiting) same refused

-- Admission adds no work.
admitted-work :
    (s s' : Scheduler) (bs : ℕ) (b : Budget)
    → s'.waiting ≡ (greedy bs b s.waiting).kept
    → s'.running ≡ start_all (greedy bs b s.waiting).taken s.running
    → work s' ≤ work s
admitted-work s s' bs b waits runs = omega (
  arith,
  ap queued waits,
  ap total runs,
  start_all-total (greedy bs b s.waiting).taken s.running,
  greedy-queued bs b s.waiting,
)

-- Who runs after some have started: those, and who ran before.
start_all-lookup :
    (ts : List Request) (d : Dict Request) (q : ℕ) (r : Request)
    → lookup q (start_all ts d) ≡ some r
    → (lookup q d ≡ some r) ⊎ (InList r ts × (r.seq_id ≡ q))
unfolding start_all
start_all-lookup [] d q r h = inl h
start_all-lookup (t ∷ ts) d q r h = elim (start_all-lookup ts (put t.seq_id t d) q r h) [
  | inr (i, n) ↦ inr (inr i, n)
  | inl k ↦ elim (Bool-cases (t.seq_id == q)) [
    | inr o ↦ inl (ground (arith, lookup-put t.seq_id q t d))
    | inl same ↦
        let it : t ≡ r = ground (arith, lookup-put t.seq_id q t d) in
        inr (inl it, ap (λ (x : Request). x.seq_id) (sym it) ∙ (==_iff t.seq_id q).0 same)
  ]
]

start_all-has :
    (ts : List Request) (d : Dict Request) (q : ℕ)
    → has q (start_all ts d) ≡ (has q d || ltb 0 (count q (ids ts)))
unfolding start_all
start_all-has [] d q = ground arith
start_all-has (t ∷ ts) d q =
    ground (arith, start_all-has ts (put t.seq_id t d) q, has-put t.seq_id q t d)

module _ {L C G R T : Type 0} (next : Option R → List ℕ → ℕ) (stop : List ℕ) (s s' : Scheduler)
    (bs : ℕ) (b : Budget) (seqs : Dict (Info L C G R T)) (n : ℕ) (v : Coupled next stop s seqs n)
    (waits : s'.waiting ≡ (greedy bs b s.waiting).kept)
    (runs : s'.running ≡ start_all (greedy bs b s.waiting).taken s.running)
    (over : s'.done ≡ s.done) where
  from_queue : (x : Request) → InList x s'.waiting → InList x s.waiting
  from_queue x h = (greedy-InList bs b s.waiting x).1 (subst (InList x) waits h)

  as_before : (x : Request) → InList x s'.done → InList x s.done
  as_before x h = subst (InList x) over h

  has_after :
      (q : ℕ)
      → has q s'.running ≡ (has q s.running || ltb 0 (count q (ids (greedy bs b s.waiting).taken)))
  has_after q = ap (has q) runs ∙ start_all-has (greedy bs b s.waiting).taken s.running q

  waits_after : (q : ℕ) → count q (ids s'.waiting) ≡ count q (ids (greedy bs b s.waiting).kept)
  waits_after q = ap (λ w. count q (ids w)) waits

  admitted_runs :
      (q : ℕ) (r : Request)
      → lookup q s'.running ≡ some r
      → (info : Info L C G R T) × (lookup q seqs ≡ some info) × Busy next stop r info
  admitted_runs q r h =
      elim (start_all-lookup (greedy bs b s.waiting).taken s.running q r
        (ap (lookup q) (sym runs) ∙ h)) [
          | inl k ↦ v.runs q r k
          | inr (i, name) ↦
              let (info, there, busy) = v.waits r ((greedy-InList bs b s.waiting r).0 i) in
              (info, ap (λ k. lookup k seqs) (sym name) ∙ there, busy)
        ]

  admitted_Placed : (q : ℕ) → Placed q s → Placed q s'
  admitted_Placed q (inl h) = inl (has_after q ∙ rw h refl)
  admitted_Placed q (inr (inl h)) =
      elim (Bool-cases (ltb 0 (count q (ids (greedy bs b s.waiting).taken)))) [
        | inl e ↦ inl (ground (arith, has_after q, e))
        | inr e ↦ inr (inl (ground (arith, greedy-count bs q b s.waiting, waits_after q, h, e)))
      ]
  admitted_Placed q (inr (inr (r, h, name))) = inr (inr (r, subst (InList r) (sym over) h, name))

  pub admitted-Coupled : IsSound s' → Coupled next stop s' seqs n
  admitted-Coupled sound = record {
    sound = sound;
    unused = v.unused;
    runs = admitted_runs;
    waits = λ r h. v.waits r (from_queue r h);
    over = λ r h. v.over r (as_before r h);
    apart = λ r h.
        let (no_run, no_wait) = v.apart r (as_before r h) in
        (
          ground (arith, has_after r.seq_id, greedy-count bs r.seq_id b s.waiting, no_run, no_wait),
          ground (arith, waits_after r.seq_id, greedy-count bs r.seq_id b s.waiting, no_wait),
        );
    accounted = λ q info h. admitted_Placed q (v.accounted q info h);
  }

module _ {L C G R T : Type 0} (m : Calls L C) (sampler : Sampler L G R) where
  step-returns :
      (e e' : Engine L C G R T) (s' : Scheduler) (admitted : List ℕ)
      → pump e.sched ≡ returns admitted s'
      → act_all m sampler (record e { sched = s' }) (schedule s').actions ≡ returns tt e'
      → step m sampler e ≡ returns (schedule s').actions e'
  unfolding step Scheduler.step
  step-returns e e' s' admitted o acted = rw (step, Scheduler.step, o) (rw acted refl)

  -- A step never raises, leaves them coupled, and lowers the work left by one round at least for each
  -- action; without an action the engine is stuck.
  pub step-Going :
      (e : Engine L C G R T)
      → Going m sampler e
      → (actions : List Action) × (e' : Engine L C G R T) × (step m sampler e ≡ returns actions e')
        × Going m sampler e'
        × (work e'.sched + length actions ≤ work e.sched)
        × (actions ≡ [] → IsStuck e'.sched)
  step-Going e g =
      let (s', o, waits, runs, left, over, sound) = pump_total e.sched g.coupled.sound in
      let ready : Going m sampler (record e { sched = s' }) = record {
        follows = with_sched m sampler e s' g.follows;
        coupled =
            admitted-Coupled (greedy_next m sampler) e.stop e.sched s' e.sched.block_size
              (budget_of e.sched) e.seqs e.next_seq g.coupled waits runs over sound;
      } in
      let (e', acted, after, less, idle) =
        act_all-Going m sampler s'.chunk_size s'.running (schedule s').actions
          (record e { sched = s' }) (schedule-PlannedAll s' sound) sound.running_distinct
          (λ q r h. (h, (sound.live q r h).named)) ready in
      let no_more_work : work s' ≤ work e.sched =
        admitted-work e.sched s' e.sched.block_size (budget_of e.sched) waits runs in
      (
        (schedule s').actions,
        e',
        step-returns e e' s' _ o acted,
        after,
        omega (arith, less, no_more_work),
        λ h.
            subst (λ (x : Engine L C G R T). IsStuck x.sched) (sym (idle h))
              (
                PlannedAll-none s'.chunk_size s'.running _ (schedule-PlannedAll s' sound) h,
                refused_after e.sched s' _ g.coupled.sound o,
              ),
      )
