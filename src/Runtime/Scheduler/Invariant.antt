-- ===== src/Runtime/Scheduler/Invariant.antt =====
-- The invariant of the scheduler.
use s_llm.Prelude.{
  ℕ, ◌+◌, ◌*◌, ◌≤◌, ◌≡◌, refl, subst, ◌⊎◌, inl, inr, true, false, ◌||◌, none, some, List, [], ◌∷◌,
  ◌++◌, map, arith, ◌==◌, if◌then◌else◌, bit, length, count, ok, ℤ, Option-cases,
}
use s_llm.Prelude.Dict.{Dict, lookup, put, without, has, Distinct, lookup-put, lookup-without}
use s_llm.Runtime.Coordinator.{BlockTable}
use s_llm.Runtime.Coordinator.Invariant.{
  IsConsistent, fresh-IsConsistent, make_coordinator-cases, fresh,
}
use s_llm.Runtime.Scheduler.{Request, Scheduler, make_scheduler}

abbrev pub ids : List Request → List ℕ
ids rs = map (λ r. r.seq_id) rs

-- A request that waits has not been worked on.
abbrev pub IsFresh : Request → Type 0
IsFresh r = (r.finished ≡ false) × (r.position ≡ 0) × (r.tokens_generated ≡ 0)

abbrev pub AllFresh : List Request → Type 0
AllFresh [] = Unit
AllFresh (r ∷ rs) = IsFresh r × AllFresh rs

-- A request that runs under the key `q`.
pub record IsLive (q : ℕ) (r : Request) : Type 0 where
  pub named : r.seq_id ≡ q
  pub unfinished : r.finished ≡ false
  pub within : r.position ≤ r.prompt_len

-- The scheduler with the requests of `queue` waiting (`pump` takes them out one by one).
pub record Sound (s : Scheduler) (queue : List Request) : Type 0 where
  pub block_pos : 1 ≤ s.block_size
  pub chunk_pos : 1 ≤ s.chunk_size
  pub consistent : IsConsistent s.coord
  pub running_distinct : Distinct s.running
  -- a table for each running request, and no other
  pub tables_running : (q : ℕ) → has q s.coord.tables ≡ has q s.running
  pub live : (q : ℕ) (r : Request) → lookup q s.running ≡ some r → IsLive q r
  -- the blocks of a running request hold its prompt and all that it may generate
  pub covered :
      (q : ℕ) (r : Request) (t : BlockTable)
      → lookup q s.running ≡ some r
      → lookup q s.coord.tables ≡ some t
      → r.prompt_len + r.max_new ≤ length t.blocks * s.block_size
  -- no id twice among the waiting and the running
  pub unique : (q : ℕ) → count q (ids queue) + bit (has q s.running) ≤ 1
  pub fresh_queue : AllFresh queue
  pub bounded : length s.running ≤ s.max_concurrency

abbrev pub IsSound : Scheduler → Type 0
IsSound s = Sound s s.waiting

-- The constructor takes the arguments, unless a size is 0 or a capacity is negative, and starts in a
-- sound state.
pub make_scheduler-IsSound :
    (kv state : ℤ) (bs chunk conc : ℕ) (s : Scheduler)
    → make_scheduler kv state bs chunk conc ≡ ok s
    → IsSound s
unfolding make_scheduler lookup has
make_scheduler-IsSound kv state bs chunk conc s e = elim (make_coordinator-cases kv state) [
  | inl bad ↦ ground (arith, bad)
  | inr (m, n, _, _, good) ↦
      let s0 : Scheduler = record {
        coord = fresh m n;
        block_size = bs;
        chunk_size = chunk;
        max_concurrency = conc;
        waiting = [];
        running = [];
        done = [];
      } in
      let same : s0 ≡ s = ground (arith, good) in
      subst IsSound same (record {
        block_pos = ground (arith, good);
        chunk_pos = ground (arith, good);
        consistent = fresh-IsConsistent m n;
        running_distinct = tt;
        tables_running = λ q. refl;
        live = λ q r h. cc;
        covered = λ q r t h k. cc;
        unique = λ q. omega arith;
        fresh_queue = tt;
        bounded = omega arith;
      })
]

pub has-lookup {ℓ} :
    {V : Type ℓ} (q : ℕ) (d : Dict V)
    → ((has q d ≡ false) × (lookup q d ≡ none))
      ⊎ ((has q d ≡ true) × (v : V) × (lookup q d ≡ some v))
unfolding has
has-lookup q d = elim (Option-cases (lookup q d)) [
  | inl e ↦ inl (ground (arith, e), e)
  | inr (v, e) ↦ inr (ground (arith, e), v, e)
]

pub has-some {ℓ} : {V : Type ℓ} (q : ℕ) (d : Dict V) {v : V} → lookup q d ≡ some v → has q d ≡ true
unfolding has
has-some q d e = rw (e, has) refl

pub has-put {ℓ} :
    {V : Type ℓ} (k q : ℕ) (v : V) (d : Dict V) → has q (put k v d) ≡ (k == q || has q d)
unfolding has
has-put k q v d = ground (arith, lookup-put k q v d)

pub has-without {ℓ} :
    {V : Type ℓ} (k q : ℕ) (d : Dict V) → has q (without k d) ≡ (if k == q then false else has q d)
unfolding has
has-without k q d = ground (arith, lookup-without k q d)

-- A running request has its table.
pub table_of :
    (s : Scheduler) (queue : List Request) (q : ℕ) (r : Request)
    → Sound s queue
    → lookup q s.running ≡ some r
    → (t : BlockTable) × (lookup q s.coord.tables ≡ some t)
table_of s queue q r v e = elim (has-lookup q s.coord.tables) [
  | inr (_, t, f) ↦ (t, f)
  | inl (h, _) ↦ cc (h, v.tables_running q, has-some q s.running e)
]

pub count-ids-append :
    (q : ℕ) (xs ys : List Request) → count q (ids (xs ++ ys)) ≡ count q (ids xs) + count q (ids ys)
count-ids-append q [] ys = omega arith
count-ids-append q (x ∷ xs) ys = omega (arith, count-ids-append q xs ys)

pub AllFresh-append : (xs ys : List Request) → AllFresh xs → AllFresh ys → AllFresh (xs ++ ys)
AllFresh-append [] ys f g = g
AllFresh-append (x ∷ xs) ys f g = (f.0, AllFresh-append xs ys f.1 g)

pub AllFresh-split : (xs ys : List Request) → AllFresh (xs ++ ys) → AllFresh xs × AllFresh ys
AllFresh-split [] ys f = (tt, f)
AllFresh-split (x ∷ xs) ys f = let (g, h) = AllFresh-split xs ys f.1 in ((f.0, g), h)
