-- ===== src/Runtime/Scheduler/Plan.antt =====
-- What `schedule` plans: one action for each running request, within its prompt and the chunk.
use s_llm.Prelude.{
  ℕ, ◌+◌, ◌-◌, ◌≤◌, ◌<◌, ◌≡◌, refl, min, ◌⊎◌, inl, inr, Bool, true, false, some, List, [], ◌∷◌,
  arith, ltb, leb, Bool-cases, ltb→lt,
}
use s_llm.Prelude.Dict.{Dict, lookup, Distinct}
use s_llm.Runtime.Scheduler.{
  Request, prefill, decode, Action, Scheduler, plan_one, plan_all, schedule, moved, is_over,
}
use s_llm.Runtime.Scheduler.Invariant.{IsSound}

-- The action that a request that is not over gets.
pub data Planned (chunk : ℕ) (r : Request) : Action → Type 0 where
  chunked :
      (a : Action)
      → a.seq_id ≡ r.seq_id
      → a.phase ≡ prefill
      → a.from_tok ≡ r.position
      → a.to_tok ≡ r.position + a.length
      → a.to_tok ≤ r.prompt_len
      → 1 ≤ a.length
      → a.length ≤ chunk
      → Planned chunk r a
  one_token :
      (a : Action)
      → a.seq_id ≡ r.seq_id
      → a.phase ≡ decode
      → r.prompt_len ≤ r.position
      → a.length ≡ 1
      → Planned chunk r a

pub plan_one-Planned :
    (chunk : ℕ) (r : Request)
    → 1 ≤ chunk
    → r.finished ≡ false
    → (a : Action) × (plan_one chunk r ≡ a ∷ []) × Planned chunk r a
unfolding plan_one
plan_one-Planned chunk r h e = elim (Bool-cases (ltb r.position r.prompt_len)) [
  | inl more ↦ (
    record {
      seq_id = r.seq_id;
      phase = prefill;
      from_tok = r.position;
      to_tok = r.position + min chunk (r.prompt_len - r.position);
      length = min chunk (r.prompt_len - r.position);
    },
    ground (arith, e, more),
    chunked _ refl refl refl refl (omega (arith, ltb→lt _ _ more)) (omega (arith, ltb→lt _ _ more))
        (omega arith),
  )
  | inr full ↦ (
    record { seq_id = r.seq_id; phase = decode; from_tok = 0; to_tok = 0; length = 1 },
    ground (arith, e, full),
    one_token _ refl refl (ground arith) refl,
  )
]

-- The actions answer the running requests one for one, in order.
pub data PlannedAll (chunk : ℕ) : Dict Request → List Action → Type 0 where
  no_more : PlannedAll chunk [] []
  plan_next :
      {q : ℕ} {r : Request} {a : Action} {d : Dict Request} {rest : List Action}
      → Planned chunk r a
      → PlannedAll chunk d rest
      → PlannedAll chunk ((q, r) ∷ d) (a ∷ rest)

AllUnfinished : Dict Request → Type 0
AllUnfinished d = (q : ℕ) (r : Request) → lookup q d ≡ some r → r.finished ≡ false

plan_all-PlannedAll :
    (chunk : ℕ) (d : Dict Request)
    → 1 ≤ chunk
    → Distinct d
    → AllUnfinished d
    → PlannedAll chunk d (plan_all chunk d)
unfolding plan_all AllUnfinished lookup
plan_all-PlannedAll chunk [] h u f = no_more
plan_all-PlannedAll chunk ((q, r) ∷ d) h u f =
    let (a, e, p) = plan_one-Planned chunk r h (f q r (ground arith)) in
    rw e (plan_next p (plan_all-PlannedAll chunk d h u.1 (λ x y g. f x y (ground (arith, u.0)))))

-- `schedule` of a sound scheduler plans one action for each running request, in the order in which
-- they were admitted: a request with prompt left gets the next part of it, not empty, at most a
-- chunk and within the prompt; any other decodes one token.
pub schedule-PlannedAll :
    (s : Scheduler) → IsSound s → PlannedAll s.chunk_size s.running (schedule s).actions
unfolding schedule AllUnfinished
schedule-PlannedAll s v =
    plan_all-PlannedAll s.chunk_size s.running v.chunk_pos v.running_distinct
      (λ q r e. (v.live q r e).unfinished)

-- The rounds that a request still needs: one for each chunk of prompt left, in tokens at worst, and
-- one for each token that it may generate.
abbrev pub remaining : Request → ℕ
remaining r = (r.prompt_len - r.position) + (r.max_new - r.tokens_generated)

-- The action that a request was planned brings it nearer to its end, or ends it.
pub moved-remaining :
    (chunk : ℕ) (r : Request) (a : Action) (eos : Bool)
    → Planned chunk r a
    → (is_over (moved r a) eos ≡ true) ⊎ (remaining (moved r a) < remaining r)
unfolding moved is_over
moved-remaining chunk r a eos (chunked _ n p f t le some_left c) = inr (ground arith)
moved-remaining chunk r a eos (one_token _ n p le l) =
    elim (Bool-cases (leb r.max_new (r.tokens_generated + 1))) [
      | inl e ↦ inl (ground arith)
      | inr e ↦ inr (ground arith)
    ]
