-- ===== src/Runtime/Scheduler/Reach.antt =====
-- The scheduler after any sequence of calls, those that raise included.
use s_llm.Prelude.{
  ℕ, ◌<◌, ◌≡◌, refl, ap, ◌⊎◌, inl, inr, Bool, true, false, none, List, [], ◌∷◌, ◌++◌, arith, length,
  count, returns, raises, state_of, ok, value_error, ℤ, Bool-cases,
}
use s_llm.Prelude.Dict.{Dict, lookup, has}
use s_llm.Runtime.Coordinator.Invariant.{IsConsistent}
use s_llm.Runtime.Scheduler.{
  Request, Action, Scheduler, make_scheduler, is_waiting, new_request, add, abort, pump, advance,
}
use s_llm.Runtime.Scheduler.Invariant.{ids, IsSound, has-lookup, count-ids-append, AllFresh-append}
use s_llm.Runtime.Kv.Batch.{holds}
use s_llm.Runtime.Scheduler.Invariant.{make_scheduler-IsSound}
use s_llm.Runtime.Scheduler.Pump.{pump_total}
use s_llm.Runtime.Scheduler.Abort.{abort_total, is_waiting-count}
use s_llm.Runtime.Scheduler.Progress.{advance_unknown, advance_total}

-- `add` enters a new id at the end of the queue. For an id that waits or runs it is a `ValueError`
-- that changes nothing. A sound scheduler stays sound.
pub add_total :
    (s : Scheduler) (q prompt max_new : ℕ) (use_state : Bool)
    → IsSound s
    → let s' = record s { waiting = s.waiting ++ new_request q prompt max_new use_state ∷ [] } in
      (((0 < count q (ids s.waiting)) ⊎ (has q s.running ≡ true))
        × (add s q prompt max_new use_state ≡ raises value_error s))
      ⊎ ((count q (ids s.waiting) ≡ 0)
          × (has q s.running ≡ false)
          × (add s q prompt max_new use_state ≡ returns tt s')
          × IsSound s')
unfolding add
add_total s q prompt max_new use_state v = elim (Bool-cases (is_waiting q s.waiting)) [
  | inl e ↦ inl (inl (ground (arith, is_waiting-count q s.waiting)), rw e refl)
  | inr e ↦ elim (Bool-cases (has q s.running)) [
    | inl f ↦ inl (inr f, rw (e, f) refl)
    | inr f ↦
        let absent : count q (ids s.waiting) ≡ 0 = ground (arith, is_waiting-count q s.waiting) in
        let r : Request = new_request q prompt max_new use_state in
        inr (
          absent,
          f,
          rw (e, f) refl,
          record {
            block_pos = v.block_pos;
            chunk_pos = v.chunk_pos;
            consistent = v.consistent;
            running_distinct = v.running_distinct;
            tables_running = v.tables_running;
            live = v.live;
            covered = v.covered;
            unique =
                λ x. ground (arith, v.unique x, count-ids-append x s.waiting (r ∷ []), absent, f);
            fresh_queue = AllFresh-append s.waiting (r ∷ []) v.fresh_queue ((refl, refl, refl), tt);
            bounded = v.bounded;
          },
        )
  ]
]

pub data Call : Type 0 where
  adds : ℕ → ℕ → ℕ → Bool → Call
  aborts : ℕ → Call
  pumps : Call
  advances : Action → Bool → Call

unfoldable pub after_call : Scheduler → Call → Scheduler
after_call s (adds q prompt max_new use_state) = state_of (add s q prompt max_new use_state)
after_call s (aborts q) = state_of (abort s q)
after_call s pumps = state_of (pump s)
after_call s (advances a eos) = state_of (advance s a eos)

unfoldable pub after_calls : Scheduler → List Call → Scheduler
after_calls s [] = s
after_calls s (c ∷ cs) = after_calls (after_call s c) cs

pub after_call-IsSound : (s : Scheduler) (c : Call) → IsSound s → IsSound (after_call s c)
unfolding after_call
after_call-IsSound s (adds q p m u) v = elim (add_total s q p m u v) [
  | inl (_, e) ↦ rw e v
  | inr (_, _, e, w) ↦ rw e w
]
after_call-IsSound s (aborts q) v = let (f, s', e, w) = abort_total s q v in rw e w.sound
after_call-IsSound s pumps v = let (s', e, _, _, _, _, w) = pump_total s v in rw e w
after_call-IsSound s (advances a eos) v = elim (has-lookup a.seq_id s.running) [
  | inl (_, e) ↦ rw (advance_unknown s a eos v e) v
  | inr (_, r, e) ↦ let (s', f, w, _) = advance_total s a eos v r e in rw f w
]

after_calls-keep : (s : Scheduler) (cs : List Call) → IsSound s → IsSound (after_calls s cs)
unfolding after_calls
after_calls-keep s [] v = v
after_calls-keep s (c ∷ cs) v = after_calls-keep (after_call s c) cs (after_call-IsSound s c v)

-- A scheduler that the constructor made is sound after any sequence of calls, those that raise
-- included.
pub after_calls-IsSound :
    (kv state : ℤ) (bs chunk conc : ℕ) (s : Scheduler) (cs : List Call)
    → make_scheduler kv state bs chunk conc ≡ ok s
    → IsSound (after_calls s cs)
after_calls-IsSound kv state bs chunk conc s cs e =
    after_calls-keep s cs (make_scheduler-IsSound kv state bs chunk conc s e)

-- With no table left, nothing has an owner.
all_free : (d : Dict ℕ) → ((q b : ℕ) → holds q (lookup b d) ≡ 0) → length d ≡ 0
unfolding lookup
all_free [] h = refl
all_free ((b, q) ∷ d) h = absurd (ground (arith, h q b))

pub sound_idle_free :
    (s : Scheduler)
    → IsSound s
    → s.running ≡ []
    → (length s.coord.kv.free ≡ s.coord.kv.capacity)
      × (length s.coord.state.free ≡ s.coord.state.capacity)
unfolding has lookup
sound_idle_free s v e = (
  omega (
    arith,
    c.kv_valid.sized,
    all_free s.coord.kv.owner (λ q b. ground (arith, c.blocks_tracked q b, bare q)),
  ),
  omega (
    arith,
    c.state_valid.sized,
    all_free s.coord.state.owner (λ q b. ground (arith, c.slots_tracked q b, bare q)),
  ),
)
  where
    c : IsConsistent s.coord
    c = v.consistent

    bare : (q : ℕ) → lookup q s.coord.tables ≡ none
    bare q = elim (has-lookup q s.coord.tables) [
      | inl (_, f) ↦ f
      | inr (h, _, _) ↦ cc (h, v.tables_running q, ap (has q) e)
    ]

-- No block and no slot leaks: a scheduler that the constructor made, after any sequence of calls,
-- those that raise included, has all blocks and all slots free whenever no request runs.
pub idle_all_free :
    (kv state : ℤ) (bs chunk conc : ℕ) (s : Scheduler) (cs : List Call)
    → make_scheduler kv state bs chunk conc ≡ ok s
    → (after_calls s cs).running ≡ []
    → let s' = after_calls s cs in
      (length s'.coord.kv.free ≡ s'.coord.kv.capacity)
      × (length s'.coord.state.free ≡ s'.coord.state.capacity)
idle_all_free kv state bs chunk conc s cs e =
    sound_idle_free (after_calls s cs) (after_calls-IsSound kv state bs chunk conc s cs e)
