-- ===== src/Runtime/Scheduler/Removal.antt =====
-- A running request leaves the scheduler: its blocks and slot go back, all else stays sound.
use s_llm.Prelude.{ℕ, ◌≡◌, ap, ◌∙◌, some, List, arith, returns}
use s_llm.Prelude.Dict.{lookup, without, has, lookup-without, without-Distinct, length-without}
use s_llm.Runtime.Coordinator.{BlockTable, Coordinator, free_sequence}
use s_llm.Runtime.Coordinator.Release.{Released, free_sequence_registered}
use s_llm.Runtime.Scheduler.{Request, Scheduler}
use s_llm.Runtime.Scheduler.Invariant.{Sound, has-without, table_of}

abbrev pub removed : Scheduler → ℕ → Coordinator → List Request → Scheduler
removed s q c done = record s { coord = c; running = without q s.running; done = done }

module _ (s : Scheduler) (queue : List Request) (q : ℕ) (r : Request) (v : Sound s queue)
    (e : lookup q s.running ≡ some r) where
  removed-Sound :
      (t : BlockTable) (c : Coordinator) (done : List Request)
      → Released s.coord q t c
      → Sound (removed s q c done) queue
  removed-Sound t c done reg = record {
    block_pos = v.block_pos;
    chunk_pos = v.chunk_pos;
    consistent = reg.consistent;
    running_distinct = without-Distinct q s.running v.running_distinct;
    tables_running = λ p.
        ap (has p) reg.forgotten
        ∙ ground
            (arith, has-without q p s.coord.tables, has-without q p s.running, v.tables_running p);
    live = λ p x h. v.live p x (ground (arith, lookup-without q p s.running));
    covered = λ p x u h k. v.covered p x u (ground (arith, lookup-without q p s.running)) (
        ground (
          arith,
          ap (lookup p) reg.forgotten,
          lookup-without q p s.coord.tables,
          lookup-without q p s.running,
        ));
    unique = λ p. ground (arith, v.unique p, has-without q p s.running);
    fresh_queue = v.fresh_queue;
    bounded = omega (arith, v.bounded, length-without q r s.running v.running_distinct e);
  }

  pub free_running :
      (t : BlockTable) × (c : Coordinator) × (lookup q s.coord.tables ≡ some t)
      × (free_sequence s.coord q ≡ returns tt c)
      × Released s.coord q t c
      × ((done : List Request) → Sound (removed s q c done) queue)
  free_running =
      let (t, f) = table_of s queue q r v e in
      let (c, g, reg) = free_sequence_registered s.coord q t v.consistent f in
      (t, c, f, g, reg, λ done. removed-Sound t c done reg)
