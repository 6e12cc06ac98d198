-- ===== src/Runtime/Scheduler/Admission.antt =====
-- `pump` admits what fits and keeps the rest in order.
use s_llm.Prelude.{
  ℕ, ◌+◌, ◌*◌, ◌≤◌, ◌<◌, ◌≡◌, refl, ap, ◌∙◌, subst, inl, inr, true, false, none, some, List, ◌∷◌,
  ◌++◌, arith, ◌==◌, if◌then◌else◌, bit, length, count, returns, Bool-cases,
}
use s_llm.Prelude.Dict.{lookup, put, has, lookup-put, put-Distinct, length-put_missing}
use s_llm.Runtime.Coordinator.{BlockTable, Coordinator, blocks_for_tokens}
use s_llm.Runtime.Coordinator.Sizes.{le-blocks_for_tokens, blocks_for_tokens-mul}
use s_llm.Runtime.Coordinator.Register.{Registered, new_sequence_fits}
use s_llm.Runtime.Scheduler.{Request, Scheduler, worst, accepts, admit, try_admit}
use s_llm.Runtime.Scheduler.Invariant.{
  ids, IsFresh, IsLive, Sound, has-lookup, has-put, count-ids-append, AllFresh-append,
  AllFresh-split,
}

-- The scheduler once `r` runs under the table that the coordinator `c` has for it.
abbrev pub with_running : Scheduler → Request → Coordinator → Scheduler
with_running s r c = record s { coord = c; running = put r.seq_id r s.running }

module _ (s : Scheduler) (skipped rest : List Request) (r : Request)
    (v : Sound s (skipped ++ r ∷ rest)) where
  -- the id is new
  pub not_running : (count r.seq_id (ids (skipped ++ rest)) ≡ 0) × (has r.seq_id s.running ≡ false)
  not_running = ground (
    arith,
    v.unique r.seq_id,
    count-ids-append r.seq_id skipped (r ∷ rest),
    count-ids-append r.seq_id skipped rest,
  )

  no_table : lookup r.seq_id s.coord.tables ≡ none
  no_table = elim (has-lookup r.seq_id s.coord.tables) [
    | inl (_, e) ↦ e
    | inr (h, _, _) ↦ cc (h, not_running.1, v.tables_running r.seq_id)
  ]

  module _ (t : BlockTable) (c : Coordinator)
      (reg : Registered s.coord r.seq_id (worst s r) (bit r.use_state) t c) where
    tables-lookup :
        (q : ℕ) → lookup q c.tables ≡ (if r.seq_id == q then some t else lookup q s.coord.tables)
    tables-lookup q = ap (lookup q) reg.recorded ∙ lookup-put r.seq_id q t s.coord.tables

    running-IsLive :
        (q : ℕ) (p : Request) → lookup q (put r.seq_id r s.running) ≡ some p → IsLive q p
    running-IsLive q p e = elim (Bool-cases (r.seq_id == q)) [
      | inr other ↦ v.live q p (ground (arith, lookup-put r.seq_id q r s.running))
      | inl same ↦
          let fresh : IsFresh r = (AllFresh-split skipped (r ∷ rest) v.fresh_queue).1.0 in
          let it : r ≡ p = ground (arith, lookup-put r.seq_id q r s.running) in
          subst (IsLive q) it
            (record { named = ground arith; unfinished = fresh.0; within = omega (arith, fresh.1) })
    ]

    running-covered :
        (q : ℕ) (p : Request) (u : BlockTable)
        → lookup q (put r.seq_id r s.running) ≡ some p
        → lookup q c.tables ≡ some u
        → p.prompt_len + p.max_new ≤ length u.blocks * s.block_size
    running-covered q p u e f = elim (Bool-cases (r.seq_id == q)) [
      | inr other ↦
          v.covered q p u (ground (arith, lookup-put r.seq_id q r s.running))
            (ground (arith, tables-lookup q))
      | inl same ↦
          let p-eq : r ≡ p = ground (arith, lookup-put r.seq_id q r s.running) in
          let u-eq : t ≡ u = ground (arith, tables-lookup q) in
          subst (λ (x : Request). x.prompt_len + x.max_new ≤ length u.blocks * s.block_size) p-eq
            (subst (λ (x : BlockTable). r.prompt_len + r.max_new ≤ length x.blocks * s.block_size)
              u-eq
              (rw reg.enough_blocks
                (le-blocks_for_tokens (r.prompt_len + r.max_new) s.block_size v.block_pos)))
    ]

    with_running-Sound :
        length s.running < s.max_concurrency → Sound (with_running s r c) (skipped ++ rest)
    with_running-Sound room = record {
      block_pos = v.block_pos;
      chunk_pos = v.chunk_pos;
      consistent = reg.consistent;
      running_distinct = put-Distinct r.seq_id r s.running v.running_distinct;
      tables_running = λ q.
          ap (has q) reg.recorded
          ∙ ground (
            arith,
            has-put r.seq_id q t s.coord.tables,
            has-put r.seq_id q r s.running,
            v.tables_running q,
          );
      live = running-IsLive;
      covered = running-covered;
      unique = λ q. ground (
        arith,
        not_running,
        v.unique q,
        has-put r.seq_id q r s.running,
        count-ids-append q skipped (r ∷ rest),
        count-ids-append q skipped rest,
      );
      fresh_queue =
          let (f, g) = AllFresh-split skipped (r ∷ rest) v.fresh_queue in
          AllFresh-append skipped rest f g.1;
      bounded = elim (has-lookup r.seq_id s.running) [
        | inl (_, e) ↦ omega (arith, length-put_missing r.seq_id r s.running e)
        | inr (h, _, _) ↦ cc (h, not_running.1)
      ];
    }

  -- `_accepts` holds only where the resources are there ...
  accepts-room :
      accepts s r ≡ true
      → (length s.running < s.max_concurrency)
        × (bit r.use_state ≤ length s.coord.state.free)
        × (worst s r ≤ length s.coord.kv.free)
  unfolding accepts
  accepts-room h = (ground arith, ground arith, ground arith)

  -- ... and then `_admit` never raises.
  pub try_admit_accepted :
      accepts s r ≡ true
      → (t : BlockTable) × (c : Coordinator) × (try_admit s r ≡ returns true (with_running s r c))
        × Registered s.coord r.seq_id (worst s r) (bit r.use_state) t c
        × Sound (with_running s r c) (skipped ++ rest)
  unfolding try_admit admit
  try_admit_accepted h =
      let (room, slots, blocks) = accepts-room h in
      let same : blocks_for_tokens (worst s r * s.block_size) s.block_size ≡ worst s r =
        blocks_for_tokens-mul (worst s r) s.block_size v.block_pos in
      let (t, c, e, reg) =
        new_sequence_fits s.coord r.seq_id (worst s r * s.block_size) s.block_size r.use_state
          v.consistent no_table (rw same blocks) slots in
      let reg' : Registered s.coord r.seq_id (worst s r) (bit r.use_state) t c =
        subst (λ (n : ℕ). Registered s.coord r.seq_id n (bit r.use_state) t c) same reg in
      (t, c, ground (arith, h, e), reg', with_running-Sound t c reg' room)

  pub try_admit_refused : accepts s r ≡ false → try_admit s r ≡ returns false s
  unfolding try_admit
  try_admit_refused h = rw h refl
