-- ===== src/Serving/Facade/Aborting.antt =====
-- `_drain_aborts` ends the requests that stand in its queue, and no other ones.
use s_llm.Prelude.{
  ℕ, ◌≡◌, refl, sym, ap, ◌∙◌, inl, inr, Bool, true, false, ◌||◌, none, some, List, [], ◌∷◌, arith,
  ltb, ◌==◌, if◌then◌else◌, length, member, returns, Bool-cases, Option-cases, ==_iff,
}
use s_llm.Prelude.Dict.{Dict, lookup, has}
use s_llm.Runtime.Scheduler.{Scheduler, is_waiting}
use s_llm.Runtime.Scheduler.Invariant.{IsSound}
use s_llm.Runtime.Scheduler.Abort.{Aborted, is_waiting-count}
use s_llm.Serving.Engine.{Info, Event}
use s_llm.Serving.Facade.Handshake.{release, on_token, on_finish, fail}
use s_llm.Serving.Facade.Loop.{
  Shared, Server, after_engine, reap_server, abort_each, drain_aborts, deliver_all, tell, tell_all,
  events_of,
}
use s_llm.Serving.Facade.Failing.{present, abort-Aborted, abort_each-step, has-same, reap-queues}
use s_llm.Prelude.{List-cases}

-- Who is there after an abort.
present-Aborted :
    (s s' : Scheduler) (q x : ℕ) (found : Bool)
    → Aborted s q found s'
    → present x s' ≡ (if q == x then false else present x s)
present-Aborted s s' q x found a = elim (Bool-cases (q == x)) [
  | inl same ↦ rw same (
      ap (λ y. present y s') (sym ((==_iff q x).0 same))
      ∙ ground (arith, a.not_running, a.not_waiting))
  | inr away ↦
      let runs : has x s'.running ≡ has x s.running =
        has-same x s'.running s.running (a.others_run x ∙ rw away refl) in
      let waits : is_waiting x s'.waiting ≡ is_waiting x s.waiting =
        is_waiting-count x s'.waiting
        ∙ ap (ltb 0) (a.others_wait x ∙ rw away refl)
        ∙ sym (is_waiting-count x s.waiting) in
      rw away (ap (λ b. b || is_waiting x s'.waiting) runs ∙ ap (λ b. has x s.running || b) waits)
]

module _ {L C G R T J : Type 0} where
  -- No call on a request puts anything into the queue of aborts.
  release-abort_q : (f : Shared L C G R T J) (r : ℕ) → (release f r).abort_q ≡ f.abort_q
  unfolding release
  release-abort_q f r = elim (Option-cases (lookup r f.reqs)) [
    | inl e ↦ rw (release, e) refl
    | inr (req, e) ↦ elim (Bool-cases req.released) [
      | inl b ↦ rw (release, e, b) refl
      | inr b ↦ rw (release, e, b) refl
    ]
  ]

  tell-abort_q : (f : Shared L C G R T J) (r : ℕ) (x : Event) → (tell f r x).abort_q ≡ f.abort_q
  unfolding on_token on_finish fail
  tell-abort_q f r x = elim (Option-cases (lookup r f.reqs)) [
    | inl e ↦ missing x e
    | inr (req, e) ↦ found req e x
  ]
    where
      missing : (x : Event) → lookup r f.reqs ≡ none → (tell f r x).abort_q ≡ f.abort_q
      missing (Event.on_token tok) e = rw (on_token, e) refl
      missing (Event.on_finish reason) e = rw (on_finish, e) refl
      missing Event.fail e = rw (fail, e) refl

      found :
          (req : _) → lookup r f.reqs ≡ some req → (x : Event) → (tell f r x).abort_q ≡ f.abort_q
      found req e (Event.on_token tok) = rw (on_token, e) refl
      found req e (Event.on_finish reason) = elim (Bool-cases req.done) [
        | inl b ↦ rw (on_finish, e, b) refl
        | inr b ↦ rw (on_finish, e, b) (release-abort_q _ r)
      ]
      found req e Event.fail = elim (Bool-cases req.done) [
        | inl b ↦ rw (fail, e, b) refl
        | inr b ↦ rw (fail, e, b) (release-abort_q _ r)
      ]

  tell_all-abort_q :
      (f : Shared L C G R T J) (r : ℕ) (xs : List Event) → (tell_all f r xs).abort_q ≡ f.abort_q
  tell_all-abort_q f r [] = refl
  tell_all-abort_q f r (x ∷ xs) = tell_all-abort_q (tell f r x) r xs ∙ tell-abort_q f r x

  deliver_all-abort_q :
      (f : Shared L C G R T J) (sinks : Dict ℕ) (seqs : Dict (Info L C G R T))
      → (deliver_all f sinks seqs).abort_q ≡ f.abort_q
  unfolding deliver_all
  deliver_all-abort_q f sinks [] = refl
  deliver_all-abort_q f sinks ((q, info) ∷ seqs) = elim (Option-cases (lookup q sinks)) [
    | inl e ↦ rw (deliver_all, e) (deliver_all-abort_q f sinks seqs)
    | inr (r, e) ↦
        rw (deliver_all, e)
          (deliver_all-abort_q (tell_all f r (events_of info.sink)) sinks seqs
            ∙ tell_all-abort_q f r (events_of info.sink))
  ]

  abort_each-exact :
      (decoded : List ℕ → T) (qs : List ℕ) (v : Server L C G R T J)
      → IsSound v.engine.sched
      → (v' : Server L C G R T J) × (abort_each decoded v qs ≡ returns tt v')
        × IsSound v'.engine.sched
        × (v'.shared.abort_q ≡ v.shared.abort_q)
        × ((x : ℕ)
            → present x v'.engine.sched ≡ (if member x qs then false else present x v.engine.sched))
  unfolding abort_each
  abort_each-exact decoded [] v sound = (v, refl, sound, refl, λ x. refl)
  abort_each-exact decoded (q ∷ qs) v sound =
      let (found, e', o, a) = abort-Aborted decoded v.engine q sound in
      let (v', o', sound', queue, left) = abort_each-exact decoded qs (after_engine v e') a.sound in
      (
        v',
        abort_each-step decoded v q qs found e' o ∙ o',
        sound',
        queue ∙ deliver_all-abort_q v.shared v.sinks e'.seqs,
        λ x. ground (arith, left x, present-Aborted v.engine.sched e'.sched q x found a),
      )

  abbrev emptied : Server L C G R T J → Server L C G R T J
  emptied v = record v { shared = record (v.shared) { abort_q = [] } }

  drain_none :
      (decoded : List ℕ → T) (v v1 : Server L C G R T J)
      → v.shared.abort_q ≡ []
      → abort_each decoded (emptied v) v.shared.abort_q ≡ returns tt v1
      → drain_aborts decoded v ≡ returns (ltb 0 (length v.shared.abort_q)) v1
  unfolding drain_aborts
  drain_none decoded v v1 nothing o =
      rw (drain_aborts, o, nothing) refl ∙ ap (λ qs. returns (ltb 0 (length qs)) v1) (sym nothing)

  drain_some :
      (decoded : List ℕ → T) (v v1 : Server L C G R T J) (q : ℕ) (qs : List ℕ)
      → v.shared.abort_q ≡ q ∷ qs
      → abort_each decoded (emptied v) v.shared.abort_q ≡ returns tt v1
      → drain_aborts decoded v ≡ returns (ltb 0 (length v.shared.abort_q)) (reap_server v1)
  unfolding drain_aborts
  drain_some decoded v v1 q qs some_left o =
      let positive : ltb 0 (length (q ∷ qs)) ≡ true = ground arith in
      rw (drain_aborts, o, some_left) refl
      ∙ ap (λ b. returns b (reap_server v1)) (sym positive)
      ∙ ap (λ xs. returns (ltb 0 (length xs)) (reap_server v1)) (sym some_left)

  -- `_drain_aborts` of a server whose scheduler is sound raises nothing, leaves an empty queue of
  -- aborts, and answers whether that queue held anything. Afterwards a request waits or
  -- runs exactly if it did before and its id was not in the queue.
  pub drain_aborts-exact :
      (decoded : List ℕ → T) (v : Server L C G R T J)
      → IsSound v.engine.sched
      → (v' : Server L C G R T J) × (drain_aborts decoded v
          ≡ returns (ltb 0 (length v.shared.abort_q)) v')
        × (v'.shared.abort_q ≡ [])
        × ((x : ℕ)
            → present x v'.engine.sched
              ≡ (if member x v.shared.abort_q then false else present x v.engine.sched))
  drain_aborts-exact decoded v sound =
      let (v1, o, sound1, queue, left) =
        abort_each-exact decoded v.shared.abort_q (emptied v) sound in
      elim (List-cases v.shared.abort_q) [
        | inl nothing ↦ (v1, drain_none decoded v v1 nothing o, queue, left)
        | inr (q, qs, some_left) ↦
            let (runs, waits, kept) = reap-queues v1.engine in
            (
              reap_server v1,
              drain_some decoded v v1 q qs some_left o,
              queue,
              λ x.
                  ap (λ d. has x d || is_waiting x (reap_server v1).engine.sched.waiting) runs
                  ∙ ap (λ w. has x v1.engine.sched.running || is_waiting x w) waits
                  ∙ left x,
            )
      ]
