-- ===== src/Runtime/Scheduler/Pump.antt =====
-- `pump` refines a greedy choice over three counters: places, KV blocks and state slots.
use mathlib.Core.List.{append-nil, append_assoc}
use s_llm.Prelude.{
  ℕ, suc, ◌+◌, ◌-◌, ◌≡◌, refl, sym, ap, ◌∙◌, subst, inl, inr, Bool, true, false, ◌&&◌, List, [],
  ◌∷◌, ◌++◌, arith, ltb, leb, bit, length, returns, Bool-cases,
}
use s_llm.Prelude.Dict.{Dict, put, has, length-put_missing}
use s_llm.Runtime.Coordinator.{BlockTable, Coordinator, blocks_for_tokens}
use s_llm.Runtime.Coordinator.Register.{Registered}
use s_llm.Runtime.Scheduler.{Request, Scheduler, worst, accepts, try_admit, pump_loop, pump}
use s_llm.Runtime.Scheduler.Invariant.{ids, Sound, IsSound, has-lookup}
use s_llm.Runtime.Scheduler.Admission.{
  with_running, try_admit_accepted, try_admit_refused, not_running,
}

pub record Budget : Type 0 where
  pub places : ℕ
  pub blocks : ℕ
  pub slots : ℕ

abbrev pub budget_of : Scheduler → Budget
budget_of s = record {
  places = s.max_concurrency - length s.running;
  blocks = length s.coord.kv.free;
  slots = length s.coord.state.free;
}

abbrev pub fits : ℕ → Budget → Request → Bool
fits bs b r =
    ltb 0 b.places
    && (leb (bit r.use_state) b.slots
        && leb (blocks_for_tokens (r.prompt_len + r.max_new) bs) b.blocks)

abbrev pub spend : ℕ → Budget → Request → Budget
spend bs b r = record {
  places = b.places - 1;
  blocks = b.blocks - blocks_for_tokens (r.prompt_len + r.max_new) bs;
  slots = b.slots - bit r.use_state;
}

-- First come, first served, but who does not fit is passed over.
pub record Choice : Type 0 where
  pub taken : List Request
  pub kept : List Request
  pub left : Budget

unfoldable pub greedy : ℕ → Budget → List Request → Choice
greedy bs b [] = record { taken = []; kept = []; left = b }
greedy bs b (r ∷ rs) = elim (fits bs b r) [
  | true ↦ let c = greedy bs (spend bs b r) rs in record c { taken = r ∷ c.taken }
  | false ↦ let c = greedy bs b rs in record c { kept = r ∷ c.kept }
]

-- The requests start in the order given.
unfoldable pub start_all : List Request → Dict Request → Dict Request
start_all [] d = d
start_all (r ∷ rs) d = start_all rs (put r.seq_id r d)

-- The source's test is the test of the counters.
pub accepts-fits : (s : Scheduler) (r : Request) → accepts s r ≡ fits s.block_size (budget_of s) r
unfolding accepts
accepts-fits s r = ground arith

pub rewait :
    (s : Scheduler) (w queue : List Request)
    → Sound s queue
    → Sound (record s { waiting = w }) queue
rewait s w queue v = record {
  block_pos = v.block_pos;
  chunk_pos = v.chunk_pos;
  consistent = v.consistent;
  running_distinct = v.running_distinct;
  tables_running = v.tables_running;
  live = v.live;
  covered = v.covered;
  unique = v.unique;
  fresh_queue = v.fresh_queue;
  bounded = v.bounded;
}

-- What the loop of `pump` ends with.
pub record Pumped (s : Scheduler) (admitted : List ℕ) (skipped rest : List Request) (c : Choice)
    : Type 0 where
  pub s' : Scheduler
  pub returned : pump_loop s admitted skipped rest ≡ returns (admitted ++ ids c.taken) s'
  pub waits : s'.waiting ≡ skipped ++ c.kept
  pub sound : Sound s' (skipped ++ c.kept)
  pub runs : s'.running ≡ start_all c.taken s.running
  pub remains : budget_of s' ≡ c.left
  pub ended_before : s'.done ≡ s.done
  pub same_block_size : s'.block_size ≡ s.block_size

module _ (s : Scheduler) (admitted : List ℕ) (skipped : List Request) (r : Request)
    (rest : List Request) where
  abbrev popped : Scheduler
  popped = record s { waiting = rest }

  loop_taken :
      (s' : Scheduler)
      → try_admit popped r ≡ returns true s'
      → pump_loop s admitted skipped (r ∷ rest)
        ≡ pump_loop s' (admitted ++ r.seq_id ∷ []) skipped rest
  unfolding pump_loop
  loop_taken s' e = rw (e, pump_loop) refl

  loop_kept :
      (s' : Scheduler)
      → try_admit popped r ≡ returns false s'
      → pump_loop s admitted skipped (r ∷ rest) ≡ pump_loop s' admitted (skipped ++ r ∷ []) rest
  unfolding pump_loop
  loop_kept s' e = rw (e, pump_loop) refl

  spend-budget :
      (t : BlockTable) (c : Coordinator)
      → has r.seq_id s.running ≡ false
      → Registered s.coord r.seq_id (worst s r) (bit r.use_state) t c
      → budget_of (with_running popped r c) ≡ spend s.block_size (budget_of s) r
  spend-budget t c new reg = elim (has-lookup r.seq_id s.running) [
    | inr (h, _, _) ↦ cc (h, new)
    | inl (_, e) ↦
        let longer : length (put r.seq_id r s.running) ≡ suc (length s.running) =
          length-put_missing r.seq_id r s.running e in
        λ i. record { places = places longer i; blocks = blocks i; slots = slots i }
  ]
    where
      places :
          length (put r.seq_id r s.running) ≡ suc (length s.running)
          → s.max_concurrency - length (put r.seq_id r s.running)
            ≡ s.max_concurrency - length s.running - 1
      places l = omega (arith, l)

      blocks : length c.kv.free ≡ length s.coord.kv.free - worst s r
      blocks = omega (arith, reg.kv_taken)

      slots : length c.state.free ≡ length s.coord.state.free - bit r.use_state
      slots = omega (arith, reg.state_taken)

pub pump_loop-Pumped :
    (s : Scheduler) (admitted : List ℕ) (skipped rest : List Request)
    → Sound s (skipped ++ rest)
    → Pumped s admitted skipped rest (greedy s.block_size (budget_of s) rest)
unfolding greedy start_all
pump_loop-Pumped s admitted skipped [] v = record {
  s' = record s { waiting = skipped };
  returned = unfold pump_loop in rw append-nil refl;
  waits = rw append-nil refl;
  sound = rewait s skipped (skipped ++ []) v;
  runs = refl;
  remains = refl;
  ended_before = refl;
  same_block_size = refl;
}
pump_loop-Pumped s admitted skipped (r ∷ rest) v =
    elim (Bool-cases (fits s.block_size (budget_of s) r)) [
      | inl yes_fits ↦
          let v0 : Sound (record s { waiting = rest }) (skipped ++ r ∷ rest) =
            rewait s rest (skipped ++ r ∷ rest) v in
          let (t, c, e, reg, v1) =
            try_admit_accepted (record s { waiting = rest }) skipped rest r v0
              (accepts-fits (record s { waiting = rest }) r ∙ yes_fits) in
          let budget : budget_of (with_running (record s { waiting = rest }) r c)
              ≡ spend s.block_size (budget_of s) r =
            spend-budget s admitted skipped r rest t c (not_running s skipped rest r v).1 reg in
          let p : Pumped (with_running (record s { waiting = rest }) r c)
              (admitted ++ r.seq_id ∷ []) skipped rest
              (greedy s.block_size (spend s.block_size (budget_of s) r) rest) =
            subst
              (λ (b : Budget).
                Pumped (with_running (record s { waiting = rest }) r c) (admitted ++ r.seq_id ∷ [])
                  skipped rest (greedy s.block_size b rest))
              budget
              (pump_loop-Pumped (with_running (record s { waiting = rest }) r c)
                (admitted ++ r.seq_id ∷ []) skipped rest v1) in
          rw (yes_fits, greedy)
            (record {
              s' = p.s';
              returned =
                  loop_taken s admitted skipped r rest _ e
                  ∙ p.returned
                  ∙ ap (λ (l : List ℕ). returns l p.s') (append_assoc admitted (r.seq_id ∷ []) _);
              waits = p.waits;
              sound = p.sound;
              runs = p.runs;
              remains = p.remains;
              ended_before = p.ended_before;
              same_block_size = p.same_block_size;
            })
      | inr no_fit ↦
          let v0 : Sound (record s { waiting = rest }) ((skipped ++ r ∷ []) ++ rest) =
            rw append_assoc (rewait s rest (skipped ++ r ∷ rest) v) in
          let e : try_admit (record s { waiting = rest }) r
              ≡ returns false (record s { waiting = rest }) =
            try_admit_refused (record s { waiting = rest }) skipped rest r
              (rewait s rest (skipped ++ r ∷ rest) v)
              (accepts-fits (record s { waiting = rest }) r ∙ no_fit) in
          let p =
            pump_loop-Pumped (record s { waiting = rest }) admitted (skipped ++ r ∷ []) rest v0 in
          let regroup : (skipped ++ r ∷ []) ++ (greedy s.block_size (budget_of s) rest).kept
              ≡ skipped ++ r ∷ (greedy s.block_size (budget_of s) rest).kept =
            append_assoc skipped (r ∷ []) _ in
          rw (no_fit, greedy)
            (record {
              s' = p.s';
              returned = loop_kept s admitted skipped r rest _ e ∙ p.returned;
              waits = p.waits ∙ regroup;
              sound = subst (Sound p.s') regroup p.sound;
              runs = p.runs;
              remains = p.remains;
              ended_before = p.ended_before;
              same_block_size = p.same_block_size;
            })
    ]

-- On a sound scheduler `pump` never raises: the handler for a lost race is never entered. It takes
-- and keeps exactly the requests that the greedy choice takes and keeps, in that order, starts what
-- it takes, spends what the choice spends, and leaves a sound scheduler.
pub pump_total :
    (s : Scheduler)
    → IsSound s
    → let c = greedy s.block_size (budget_of s) s.waiting in
      (s' : Scheduler) × (pump s ≡ returns (ids c.taken) s')
      × (s'.waiting ≡ c.kept)
      × (s'.running ≡ start_all c.taken s.running)
      × (budget_of s' ≡ c.left)
      × (s'.done ≡ s.done)
      × IsSound s'
unfolding pump
pump_total s v =
    let p = pump_loop-Pumped s [] [] s.waiting v in
    (
      p.s',
      p.returned,
      p.waits,
      p.runs,
      p.remains,
      p.ended_before,
      subst (Sound p.s') (sym p.waits) p.sound,
    )
