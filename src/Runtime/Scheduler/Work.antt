-- ===== src/Runtime/Scheduler/Work.antt =====
-- The rounds that all requests together still need: every planned action lowers them.
use s_llm.Prelude.{
  ℕ, ◌+◌, ◌≤◌, ◌<◌, ◌≡◌, refl, ap, inl, inr, Bool, some, List, [], ◌∷◌, arith, ◌==◌, returns,
  Bool-cases,
}
use s_llm.Prelude.Dict.{Dict, lookup, put, without, lookup-put}
use s_llm.Runtime.Scheduler.{Request, Scheduler, Action, moved}
use s_llm.Runtime.Scheduler.Progress.{Advanced, goes_on, is_done}
use s_llm.Runtime.Scheduler.Plan.{
  Planned, PlannedAll, no_more, plan_next, remaining, moved-remaining,
}
use s_llm.Runtime.Scheduler.Pump.{Budget, greedy, start_all, fits, spend}

abbrev pub total : Dict Request → ℕ
total [] = 0
total ((q, r) ∷ d) = remaining r + total d

abbrev pub queued : List Request → ℕ
queued [] = 0
queued (r ∷ rs) = remaining r + queued rs

-- What the running and the waiting requests need.
abbrev pub work : Scheduler → ℕ
work s = total s.running + queued s.waiting

total-put :
    (q : ℕ) (r p : Request) (d : Dict Request)
    → lookup q d ≡ some r
    → total (put q p d) + remaining r ≡ total d + remaining p
unfolding lookup put
total-put q r p [] h = cc
total-put q r p ((j, x) ∷ d) h = elim (Bool-cases (j == q)) [
  | inl here ↦
      (let same : x ≡ r = ground (arith, h, here) in rw here (omega (arith, ap remaining same)))
  | inr other ↦ rw other (omega (arith, total-put q r p d (rw other at h)))
]

total-put_bound :
    (q : ℕ) (p : Request) (d : Dict Request) → total (put q p d) ≤ total d + remaining p
unfolding put
total-put_bound q p [] = omega arith
total-put_bound q p ((j, x) ∷ d) = elim (Bool-cases (j == q)) [
  | inl here ↦ rw here (omega arith)
  | inr other ↦ rw other (omega (arith, total-put_bound q p d))
]

total-without_bound : (q : ℕ) (d : Dict Request) → total (without q d) ≤ total d
unfolding without
total-without_bound q [] = omega arith
total-without_bound q ((j, x) ∷ d) = elim (Bool-cases (j == q)) [
  | inl here ↦ rw here (omega (arith, total-without_bound q d))
  | inr other ↦ rw other (omega (arith, total-without_bound q d))
]

total-without :
    (q : ℕ) (r : Request) (d : Dict Request)
    → lookup q d ≡ some r
    → total (without q d) + remaining r ≤ total d
unfolding lookup without
total-without q r [] h = cc
total-without q r ((j, x) ∷ d) h = elim (Bool-cases (j == q)) [
  | inl here ↦
      (let same : x ≡ r = ground (arith, h, here) in
        rw here (omega (arith, ap remaining same, total-without_bound q d)))
  | inr other ↦ rw other (omega (arith, total-without q r d (rw other at h)))
]

-- A planned action of a request that still needs a round lowers the total.
pub Advanced-total :
    (s s' : Scheduler) (chunk q : ℕ) (r : Request) (a : Action) (eos : Bool)
    → Planned chunk r a
    → lookup q s.running ≡ some r
    → 0 < remaining r
    → Advanced s q r a eos (returns tt s')
    → (total s'.running < total s.running) × (s'.waiting ≡ s.waiting)
Advanced-total s s' chunk q r a eos p e more (goes_on _ on same) =
    let nearer : remaining (moved r a) < remaining r = elim (moved-remaining chunk r a eos p) [
      | inl over ↦ cc (on, over)
      | inr less ↦ less
    ] in
    let here : total s'.running ≡ total (put q (moved r a) s.running) =
      ap (λ (y : Scheduler). total y.running) same in
    (
      omega (arith, here, nearer, total-put q r (moved r a) s.running e),
      ap (λ (y : Scheduler). y.waiting) same,
    )
Advanced-total s s' chunk q r a eos p e more (is_done t c _ over has_table reg same) =
    let here : total s'.running ≡ total (without q (put q (moved r a) s.running)) =
      ap (λ (y : Scheduler). total y.running) same in
    let found : lookup q (put q (moved r a) s.running) ≡ some (moved r a) =
      ground (arith, lookup-put q q (moved r a) s.running) in
    (
      omega (
        arith,
        here,
        more,
        total-put q r (moved r a) s.running e,
        total-without q (moved r a) (put q (moved r a) s.running) found,
      ),
      ap (λ (y : Scheduler). y.waiting) same,
    )

pub start_all-total :
    (ts : List Request) (d : Dict Request) → total (start_all ts d) ≤ total d + queued ts
unfolding start_all
start_all-total [] d = omega arith
start_all-total (t ∷ ts) d =
    omega (arith, start_all-total ts (put t.seq_id t d), total-put_bound t.seq_id t d)

pub greedy-queued :
    (bs : ℕ) (b : Budget) (w : List Request)
    → queued (greedy bs b w).taken + queued (greedy bs b w).kept ≡ queued w
unfolding greedy
greedy-queued bs b [] = refl
greedy-queued bs b (r ∷ rs) = elim (Bool-cases (fits bs b r)) [
  | inl e ↦ rw (greedy, e) (omega (arith, greedy-queued bs (spend bs b r) rs))
  | inr e ↦ rw (greedy, e) (omega (arith, greedy-queued bs b rs))
]

-- Nothing is planned only where nothing runs.
pub PlannedAll-none :
    (chunk : ℕ) (d : Dict Request) (actions : List Action)
    → PlannedAll chunk d actions
    → actions ≡ []
    → d ≡ []
PlannedAll-none chunk _ _ no_more e = refl
PlannedAll-none chunk _ _ (plan_next p more) e = cc
