-- ===== src/Runtime/Scheduler/Abort.antt =====
-- `abort` cancels a request wherever it stands.
use s_llm.Prelude.{
  ℕ, ◌+◌, ◌≤◌, ◌≡◌, refl, ap, ◌∙◌, inl, inr, Bool, true, false, ◌||◌, Option, none, some, List, [],
  ◌∷◌, ◌++◌, arith, ltb, ◌==◌, if◌then◌else◌, bit, length, count, keep, not, returns, Bool-cases,
  ==_iff,
}
use s_llm.Prelude.Dict.{lookup, has, lookup-without}
use s_llm.Runtime.Scheduler.{
  Request, Scheduler, is_waiting, ended, pick_waiting, abort_waiting, abort,
}
use s_llm.Runtime.Scheduler.Invariant.{ids, AllFresh, IsSound, has-lookup, has-some, has-without}
use s_llm.Runtime.Scheduler.Removal.{removed, free_running}

-- The requests under other ids, in order.
abbrev pub unnamed : ℕ → List Request → List Request
unnamed q ws = keep (λ r. not (r.seq_id == q)) ws

unnamed_absent : (q : ℕ) (ws : List Request) → count q (ids ws) ≡ 0 → ws ≡ unnamed q ws
unnamed_absent q [] h = refl
unnamed_absent q (w ∷ ws) h = elim (Bool-cases (w.seq_id == q)) [
  | inl e ↦ absurd (ground (arith, e, h))
  | inr e ↦ rw e (ap (◌∷◌ w) (unnamed_absent q ws (ground (arith, e, h))))
]

abbrev Picks : ℕ → List Request → Option (Request × List Request) → Type 0
Picks q ws none = count q (ids ws) ≡ 0
Picks q ws (some (r, others)) =
    ((x : ℕ) → count x (ids ws) ≡ bit (q == x) + count x (ids others))
    × (AllFresh ws → AllFresh others)
    × (count q (ids others) ≡ 0 → others ≡ unnamed q ws)
    × (r.seq_id ≡ q)

pick_waiting-Picks : (q : ℕ) (ws : List Request) → Picks q ws (pick_waiting q ws)
unfolding pick_waiting
pick_waiting-Picks q [] = refl
pick_waiting-Picks q (w ∷ ws) = elim (Bool-cases (w.seq_id == q)) [
  | inl e ↦ rw e (
    (λ x. ground arith),
    (λ f. f.1),
    (λ h. unnamed_absent q ws h ∙ rw e refl),
    (==_iff w.seq_id q).0 e,
  )
  | inr e ↦ rw e (later e (pick_waiting q ws) (pick_waiting-Picks q ws))
]
  where
    later :
        (w.seq_id == q) ≡ false
        → (o : Option (Request × List Request)) → Picks q ws o
        → Picks q (w ∷ ws) (elim o [ none ↦ none | some (p, others) ↦ some (p, w ∷ others) ])
    later e none h = ground arith
    later e (some (p, others)) h = (
      (λ x. omega (arith, h.0 x)),
      (λ f. (f.0, h.1 f.1)),
      (λ k. rw e (ap (◌∷◌ w) (h.2 (ground (arith, e, k))))),
      h.3,
    )

pub is_waiting-count : (q : ℕ) (ws : List Request) → is_waiting q ws ≡ ltb 0 (count q (ids ws))
unfolding is_waiting
is_waiting-count q [] = refl
is_waiting-count q (w ∷ ws) = ground (arith, is_waiting-count q ws)

-- What `abort` adds to the done: the request of that id, marked as finished, if it found one.
abbrev pub WasEnded : Scheduler → ℕ → Bool → Scheduler → Type 0
WasEnded s q false s' = s'.done ≡ s.done
WasEnded s q true s' = (r : Request) × (r.seq_id ≡ q) × (s'.done ≡ s.done ++ ended r ∷ [])

-- What `abort` of `q` leaves, having answered `found`.
pub record Aborted (s : Scheduler) (q : ℕ) (found : Bool) (s' : Scheduler) : Type 0 where
  pub sound : IsSound s'
  pub answer : found ≡ (has q s.running || is_waiting q s.waiting)
  pub not_running : has q s'.running ≡ false
  pub not_waiting : is_waiting q s'.waiting ≡ false
  -- every other request stands where it stood
  pub others_run : (x : ℕ) → lookup x s'.running ≡ (if q == x then none else lookup x s.running)
  pub same_queue : s'.waiting ≡ unnamed q s.waiting
  -- the request that was ended stands last among the done
  pub reported : WasEnded s q found s'
  pub others_wait :
      (x : ℕ) → count x (ids s'.waiting) ≡ (if q == x then 0 else count x (ids s.waiting))
  pub free_grows : length s.coord.kv.free ≤ length s'.coord.kv.free

module _ (s : Scheduler) (q : ℕ) (v : IsSound s) where
  abort_running :
      (r : Request)
      → lookup q s.running ≡ some r
      → (s' : Scheduler) × (abort s q ≡ returns true s') × Aborted s q true s'
  unfolding abort
  abort_running r e =
      let (t, c, _, f, reg, sound) = free_running s s.waiting q r v e in
      (
        removed s q c (s.done ++ ended r ∷ []),
        ground (arith, e, f),
        record {
          sound = sound _;
          answer = rw (has-some q s.running e) refl;
          not_running = ground (arith, has-without q q s.running);
          not_waiting =
              ground (arith, is_waiting-count q s.waiting, v.unique q, has-some q s.running e);
          others_run = λ x. lookup-without q x s.running;
          same_queue =
              unnamed_absent q s.waiting (ground (arith, v.unique q, has-some q s.running e));
          reported = (r, (v.live q r e).named, refl);
          others_wait = λ x. ground (arith, v.unique x, has-some q s.running e);
          free_grows = omega (arith, reg.kv_returned);
        },
      )

  abort_not_running :
      lookup q s.running ≡ none
      → has q s.running ≡ false
      → (o : Option (Request × List Request)) → pick_waiting q s.waiting ≡ o
      → Picks q s.waiting o
      → (found : Bool) × (s' : Scheduler) × (abort s q ≡ returns found s') × Aborted s q found s'
  unfolding abort abort_waiting
  abort_not_running e h none p k = (
    false,
    s,
    ground (arith, e, p),
    record {
      sound = v;
      answer = ground (arith, h, k, is_waiting-count q s.waiting);
      not_running = h;
      not_waiting = ground (arith, k, is_waiting-count q s.waiting);
      others_run = λ x. ground (arith, e);
      same_queue = unnamed_absent q s.waiting k;
      reported = refl;
      others_wait = λ x. ground (arith, k);
      free_grows = omega arith;
    },
  )
  abort_not_running e h (some (r, others)) p k =
      let s' : Scheduler = record s { waiting = others; done = s.done ++ ended r ∷ [] } in
      (
        true,
        s',
        ground (arith, e, p),
        record {
          sound = record {
            block_pos = v.block_pos;
            chunk_pos = v.chunk_pos;
            consistent = v.consistent;
            running_distinct = v.running_distinct;
            tables_running = v.tables_running;
            live = v.live;
            covered = v.covered;
            unique = λ x. ground (arith, v.unique x, k.0 x);
            fresh_queue = k.1 v.fresh_queue;
            bounded = v.bounded;
          };
          answer = ground (arith, h, k.0 q, is_waiting-count q s.waiting);
          not_running = h;
          not_waiting = ground (arith, k.0 q, v.unique q, is_waiting-count q others);
          others_run = λ x. ground (arith, e);
          same_queue = k.2 (ground (arith, k.0 q, v.unique q));
          reported = (r, k.3, refl);
          others_wait = λ x. ground (arith, k.0 x, v.unique x);
          free_grows = omega arith;
        },
      )

  pub abort_total :
      (found : Bool) × (s' : Scheduler) × (abort s q ≡ returns found s') × Aborted s q found s'
  abort_total = elim (has-lookup q s.running) [
    | inl (h, e) ↦
        abort_not_running e h (pick_waiting q s.waiting) refl (pick_waiting-Picks q s.waiting)
    | inr (_, r, e) ↦ let (s', f, a) = abort_running r e in (true, s', f, a)
  ]
