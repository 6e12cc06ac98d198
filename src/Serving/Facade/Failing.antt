-- ===== src/Serving/Facade/Failing.antt =====
-- `_fail_all_batched` empties the batch.
use s_llm.Prelude.{
  ℕ, ◌≡◌, refl, sym, ap, ◌∙◌, subst, inl, inr, Bool, true, false, ◌||◌, none, some, List, [], ◌∷◌,
  arith, ltb, ◌==◌, length, member, returns, List-cases, Bool-cases, Option-cases, ==_iff,
}
use s_llm.Prelude.Dict.{Dict, lookup, has}
use s_llm.Runtime.Coordinator.{Coordinator}
use s_llm.Runtime.Scheduler
use s_llm.Runtime.Scheduler.{Scheduler, Request, is_waiting}
use s_llm.Runtime.Scheduler.Invariant.{IsSound}
use s_llm.Runtime.Scheduler.Abort.{Aborted, abort_total, is_waiting-count}
use s_llm.Runtime.Scheduler.Reach.{sound_idle_free}
use s_llm.Serving.Engine
use s_llm.Serving.Engine.{Engine, Info, queue_length, with_info, tell_aborted, text_of}
use s_llm.Serving.Engine.Reap.{reap, reaped, done_ids}
use s_llm.Serving.Facade.Handshake.{Failure}
use s_llm.Serving.Facade.Loop.{
  Server, keys, after_engine, reap_server, abort_each, fail_each, fail_all_batched,
}

module _ {L C G R T : Type 0} (decoded : List ℕ → T) where
  abort-false :
      (e : Engine L C G R T) (q : ℕ) (s : Scheduler)
      → Scheduler.abort e.sched q ≡ returns false s
      → Engine.abort decoded e q ≡ returns false (record e { sched = s })
  unfolding Engine.abort
  abort-false e q s o = rw (Engine.abort, o) refl

  abort_missing :
      (e : Engine L C G R T) (q : ℕ) (s : Scheduler)
      → Scheduler.abort e.sched q ≡ returns true s
      → lookup q e.seqs ≡ none
      → Engine.abort decoded e q ≡ returns true (record e { sched = s })
  unfolding Engine.abort
  abort_missing e q s o missing = rw (Engine.abort, o, missing) refl

  abort_found :
      (e : Engine L C G R T) (q : ℕ) (s : Scheduler) (info : Info L C G R T)
      → Scheduler.abort e.sched q ≡ returns true s
      → lookup q e.seqs ≡ some info
      → Engine.abort decoded e q
        ≡ returns true (
            with_info
              (record e { sched = s })
              q
              (tell_aborted (record info { text = some (text_of decoded info) })))
  unfolding Engine.abort
  abort_found e q s info o there = rw (Engine.abort, o, there) refl

  -- The engine's `abort` on a sound scheduler.
  pub abort-Aborted :
      (e : Engine L C G R T) (q : ℕ)
      → IsSound e.sched
      → (found : Bool) × (e' : Engine L C G R T) × (Engine.abort decoded e q ≡ returns found e')
        × Aborted e.sched q found e'.sched
  abort-Aborted e q v = let (found, s, o, a) = abort_total e.sched q v in told_of found s o a
    where
      told_of :
          (found : Bool) (s : Scheduler)
          → Scheduler.abort e.sched q ≡ returns found s
          → Aborted e.sched q found s
          → (found : Bool) × (e' : Engine L C G R T) × (Engine.abort decoded e q ≡ returns found e')
            × Aborted e.sched q found e'.sched
      told_of false s o a = (false, record e { sched = s }, abort-false e q s o, a)
      told_of true s o a = elim (Option-cases (lookup q e.seqs)) [
        | inl missing ↦ (true, record e { sched = s }, abort_missing e q s o missing, a)
        | inr (info, there) ↦ (true, _, abort_found e q s info o there, a)
      ]

-- A request that waits or runs.
abbrev pub present : ℕ → Scheduler → Bool
present x s = has x s.running || is_waiting x s.waiting

pub abort_each-step :
    {L C G R T J : Type 0} (decoded : List ℕ → T) (v : Server L C G R T J) (q : ℕ) (qs : List ℕ)
    (found : Bool) (e' : Engine L C G R T)
    → Engine.abort decoded v.engine q ≡ returns found e'
    → abort_each decoded v (q ∷ qs) ≡ abort_each decoded (after_engine v e') qs
unfolding abort_each
abort_each-step decoded v q qs found e' o = rw (abort_each, o) refl

pub has-same : {V : Type 0} (x : ℕ) (d d' : Dict V) → lookup x d ≡ lookup x d' → has x d ≡ has x d'
unfolding has
has-same x d d' e = rw (has, e) refl

-- What the abort of `q` leaves was there, and is not `q`.
Aborted-present :
    (s s' : Scheduler) (q x : ℕ) (found : Bool)
    → Aborted s q found s'
    → present x s' ≡ true
    → ((q == x) ≡ false) × (present x s ≡ true)
Aborted-present s s' q x found a h = elim (Bool-cases (q == x)) [
  | inl same ↦
      let here : present q s' ≡ true =
        subst (λ y. present y s' ≡ true) (sym ((==_iff q x).0 same)) h in
      absurd (ground (arith, here, a.not_running, a.not_waiting))
  | inr away ↦
      let runs : has x s'.running ≡ has x s.running =
        has-same x s'.running s.running (a.others_run x ∙ rw away refl) in
      let waits : is_waiting x s'.waiting ≡ is_waiting x s.waiting =
        is_waiting-count x s'.waiting
        ∙ ap (ltb 0) (a.others_wait x ∙ rw away refl)
        ∙ sym (is_waiting-count x s.waiting) in
      (away, ground (arith, h, runs, waits))
]

-- Aborting every id of a list leaves none of them, and raises nothing.
module _ {L C G R T J : Type 0} (decoded : List ℕ → T) where
  abort_each-absent :
      (qs : List ℕ) (v : Server L C G R T J)
      → IsSound v.engine.sched
      → (v' : Server L C G R T J) × (abort_each decoded v qs ≡ returns tt v')
        × IsSound v'.engine.sched
        × ((x : ℕ)
            → (present x v'.engine.sched ≡ true)
            → (member x qs ≡ false) × (present x v.engine.sched ≡ true))
  unfolding abort_each
  abort_each-absent [] v sound = (v, refl, sound, λ x h. (refl, h))
  abort_each-absent (q ∷ qs) v sound =
      let (found, e', o, a) = abort-Aborted decoded v.engine q sound in
      let (v', o', sound', left) = abort_each-absent qs (after_engine v e') a.sound in
      (
        v',
        abort_each-step decoded v q qs found e' o ∙ o',
        sound',
        λ x h.
            (let (kept, before) = left x h in
              let (other, first) = Aborted-present v.engine.sched e'.sched q x found a before in
              (rw (other, kept) refl, first)),
      )

no_run : (d : Dict Request) → ((x : ℕ) → has x d ≡ false) → d ≡ []
unfolding has lookup
no_run [] h = refl
no_run ((q, r) ∷ d) h = absurd (ground (arith, h q))

no_wait : (ws : List Request) → ((x : ℕ) → is_waiting x ws ≡ false) → ws ≡ []
unfolding is_waiting
no_wait [] h = refl
no_wait (w ∷ ws) h = absurd (ground (arith, h w.seq_id))

pub reap-queues :
    {L C G R T : Type 0} (e : Engine L C G R T)
    → ((reap e).0.sched.running ≡ e.sched.running)
      × ((reap e).0.sched.waiting ≡ e.sched.waiting)
      × ((reap e).0.sched.coord ≡ e.sched.coord)
unfolding reap
reap-queues e = elim (List-cases (reaped (done_ids e.sched.done) e.seqs)) [
  | inl nothing ↦ (rw (reap, nothing) refl, rw (reap, nothing) refl, rw (reap, nothing) refl)
  | inr (q, qs, some_gone) ↦
      (rw (reap, some_gone) refl, rw (reap, some_gone) refl, rw (reap, some_gone) refl)
]

nothing_present :
    (s : Scheduler) → ((x : ℕ) → present x s ≡ false) → (s.running ≡ []) × (s.waiting ≡ [])
nothing_present s none_left = (
  no_run s.running (λ x. ground (arith, none_left x)),
  no_wait s.waiting (λ x. ground (arith, none_left x)),
)

abbrev pub AllFree : Coordinator → Type 0
AllFree c = (length c.kv.free ≡ c.kv.capacity) × (length c.state.free ≡ c.state.capacity)

-- A step that failed does not come back: on a sound engine whose waiting and running requests all stand
-- in its dict, `_fail_all_batched` raises nothing, leaves no request waiting or running, and every cache
-- block and state slot free.
pub fail_all_batched-drained :
    {L C G R T J : Type 0} (decoded : List ℕ → T) (v : Server L C G R T J) (x : Failure)
    → IsSound v.engine.sched
    → ((q : ℕ) → present q v.engine.sched ≡ true → member q (keys v.engine.seqs) ≡ true)
    → (v' : Server L C G R T J) × (fail_all_batched decoded v x ≡ returns tt v')
      × (v'.engine.sched.running ≡ [])
      × (v'.engine.sched.waiting ≡ [])
      × AllFree v'.engine.sched.coord
unfolding fail_all_batched
fail_all_batched-drained decoded v x sound tracked =
    let failed = record v { shared = fail_each decoded v.shared x v.sinks v.engine.seqs } in
    let (v1, o, after, left) = abort_each-absent decoded (keys v.engine.seqs) failed sound in
    let (runs, waits) = nothing_present v1.engine.sched (λ q.
      elim (Bool-cases (present q v1.engine.sched)) [
        | inl still ↦
            let (kept, before) = left q still in absurd (ground (arith, tracked q before, kept))
        | inr gone ↦ gone
      ]) in
    let (same, same', kept) = reap-queues v1.engine in
    (
      reap_server v1,
      rw (fail_all_batched, o) refl,
      same ∙ runs,
      same' ∙ waits,
      subst AllFree (sym kept) (sound_idle_free v1.engine.sched after runs),
    )
