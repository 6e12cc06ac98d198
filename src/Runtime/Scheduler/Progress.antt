-- ===== src/Runtime/Scheduler/Progress.antt =====
-- `advance`: a running request makes progress, and one that is over gives everything back.
use s_llm.Prelude.{
  ℕ, ◌+◌, ◌*◌, ◌≤◌, ◌≡◌, refl, sym, subst, ◌⊎◌, inl, inr, Bool, true, false, none, some, List, [],
  ◌∷◌, ◌++◌, arith, ◌==◌, length, Outcome, returns, raises, key_error, Bool-cases,
}
use s_llm.Prelude.Dict.{lookup, put, lookup-put, put-Distinct, length-put_present}
use s_llm.Runtime.Coordinator.{BlockTable, Coordinator, free_sequence}
use s_llm.Runtime.Coordinator.Release.{Released}
use s_llm.Runtime.Scheduler.{
  Request, Phase, prefill, decode, Action, Scheduler, ended, moved, is_over, finish, advance,
}
use s_llm.Runtime.Scheduler.Invariant.{IsLive, Sound, IsSound, has-some, has-put}
use s_llm.Runtime.Scheduler.Removal.{removed, free_running}

moved-IsLive : (q : ℕ) (r : Request) (a : Action) → IsLive q r → IsLive q (moved r a)
unfolding moved
moved-IsLive q r a l = elim (phase-cases a.phase) [
  | inl e ↦
      rw (e, moved) (record { named = l.named; unfinished = l.unfinished; within = omega arith })
  | inr e ↦
      rw (e, moved) (record { named = l.named; unfinished = l.unfinished; within = omega arith })
]
  where
    phase-cases : (p : Phase) → (p ≡ prefill) ⊎ (p ≡ decode)
    phase-cases prefill = inl refl
    phase-cases decode = inr refl

moved-lengths :
    (r : Request) (a : Action)
    → ((moved r a).prompt_len ≡ r.prompt_len) × ((moved r a).max_new ≡ r.max_new)
unfolding moved
moved-lengths r a = (ground arith, ground arith)

finish-eq :
    (s : Scheduler) (q : ℕ) (p : Request) (c : Coordinator)
    → p.finished ≡ false
    → p.seq_id ≡ q
    → free_sequence s.coord q ≡ returns tt c
    → finish s q p ≡ returns tt (removed s q c (s.done ++ ended p ∷ []))
unfolding finish
finish-eq s q p c e n f = ground (arith, e, n, f)

-- The request under `q` replaced by `p`.
abbrev pub replaced : Scheduler → ℕ → Request → Scheduler
replaced s q p = record s { running = put q p s.running }

module _ (s : Scheduler) (queue : List Request) (q : ℕ) (r p : Request) (v : Sound s queue)
    (e : lookup q s.running ≡ some r) where
  replaced-Sound :
      IsLive q p
      → p.prompt_len ≡ r.prompt_len
      → p.max_new ≡ r.max_new
      → Sound (replaced s q p) queue
  replaced-Sound l same_prompt same_max = record {
    block_pos = v.block_pos;
    chunk_pos = v.chunk_pos;
    consistent = v.consistent;
    running_distinct = put-Distinct q p s.running v.running_distinct;
    tables_running =
        λ x. ground (arith, has-put q x p s.running, v.tables_running x, has-some q s.running e);
    live = λ x y h. elim (Bool-cases (q == x)) [
      | inr other ↦ v.live x y (ground (arith, lookup-put q x p s.running))
      | inl same ↦
          let key : q ≡ x = ground arith in
          let it : p ≡ y = ground (arith, lookup-put q x p s.running) in
          subst (λ (k : ℕ). IsLive k y) key (subst (IsLive q) it l)
    ];
    covered = λ x y t h k. elim (Bool-cases (q == x)) [
      | inr other ↦ v.covered x y t (ground (arith, lookup-put q x p s.running)) k
      | inl same ↦
          let key : q ≡ x = ground arith in
          let it : p ≡ y = ground (arith, lookup-put q x p s.running) in
          let old =
            v.covered q r t e (subst (λ (z : ℕ). lookup z s.coord.tables ≡ some t) (sym key) k) in
          subst (λ (z : Request). z.prompt_len + z.max_new ≤ length t.blocks * s.block_size) it
            (omega (arith, old, same_prompt, same_max))
    ];
    unique = λ x. ground (arith, v.unique x, has-put q x p s.running, has-some q s.running e);
    fresh_queue = v.fresh_queue;
    bounded = omega (arith, v.bounded, length-put_present q p r s.running e);
  }

-- What `advance` of the request `r` under `q` does on a sound scheduler.
pub data Advanced (s : Scheduler) (q : ℕ) (r : Request) (a : Action) (eos : Bool)
    : Outcome Scheduler (Unit {0}) → Type 0 where
  goes_on :
      (s' : Scheduler)
      → is_over (moved r a) eos ≡ false
      → s' ≡ replaced s q (moved r a)
      → Advanced s q r a eos (returns tt s')
  is_done :
      (t : BlockTable) (c : Coordinator) (s' : Scheduler)
      → is_over (moved r a) eos ≡ true
      → lookup q s.coord.tables ≡ some t
      → Released s.coord q t c
      → s' ≡ removed (replaced s q (moved r a)) q c (s.done ++ ended (moved r a) ∷ [])
      → Advanced s q r a eos (returns tt s')

module _ (s : Scheduler) (a : Action) (eos : Bool) (v : IsSound s) where
  -- An action for an id that does not run is a `KeyError`, and changes nothing.
  pub advance_unknown : lookup a.seq_id s.running ≡ none → advance s a eos ≡ raises key_error s
  unfolding advance
  advance_unknown e = rw (e, advance) refl

  module _ (r : Request) (e : lookup a.seq_id s.running ≡ some r) where
    moved-IsLive' : IsLive a.seq_id (moved r a)
    moved-IsLive' = moved-IsLive a.seq_id r a (v.live a.seq_id r e)

    replaced-IsSound : IsSound (replaced s a.seq_id (moved r a))
    replaced-IsSound =
        replaced-Sound s s.waiting a.seq_id r (moved r a) v e moved-IsLive' (moved-lengths r a).0
          (moved-lengths r a).1

    found : lookup a.seq_id (put a.seq_id (moved r a) s.running) ≡ some (moved r a)
    found = ground (arith, lookup-put a.seq_id a.seq_id (moved r a) s.running)

    -- `advance` of a running request of a sound scheduler never raises, and the result is sound. The
    -- request is moved in place if it is not over; if it is, its blocks and slot are free again, it
    -- no longer runs, and it stands last among the done.
    pub advance_total :
        (s' : Scheduler) × (advance s a eos ≡ returns tt s')
        × IsSound s'
        × Advanced s a.seq_id r a eos (returns tt s')
    unfolding advance
    advance_total = elim (Bool-cases (is_over (moved r a) eos)) [
      | inr on ↦ (
        replaced s a.seq_id (moved r a),
        ground (arith, e, on),
        replaced-IsSound,
        goes_on _ on refl,
      )
      | inl over ↦
          let (t, c, g, f, reg, sound) =
            free_running (replaced s a.seq_id (moved r a)) s.waiting a.seq_id (moved r a)
              replaced-IsSound found in
          (
            removed (replaced s a.seq_id (moved r a)) a.seq_id c (s.done ++ ended (moved r a) ∷ []),
            ground (
              arith,
              e,
              over,
              finish-eq (replaced s a.seq_id (moved r a)) a.seq_id (moved r a) c
                  moved-IsLive'.unfinished moved-IsLive'.named f,
            ),
            sound _,
            is_done t c _ over g reg refl,
          )
    ]
