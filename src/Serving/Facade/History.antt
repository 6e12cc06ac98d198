-- ===== src/Serving/Facade/History.antt =====
-- The calls of the handler threads and of the executor thread, in any order.
use s_llm.Prelude.{
  ℕ, ◌≡◌, refl, sym, ◌∙◌, inl, inr, Bool, true, false, Option, none, some, List, [], ◌∷◌, ◌++◌,
  arith, if◌then◌else◌, Result, Result-cases, Bool-cases, Option-cases,
}
use s_llm.Prelude.Dict.{lookup}
use s_llm.Serving.Engine.{Reason}
use s_llm.Serving.Facade.Handshake.{
  Facade, new_facade, Failure, tok_text, Req, release, on_token, on_finish, fail, request_abort,
  start_batched, start_exclusive, end_complete, end_exclusive, close_batched_stream, caught,
  close_text_stream,
}
use s_llm.Serving.Facade.Jobs.{Output, document, deltas, put_texts, run_job}
use s_llm.Serving.Facade.Counted.{
  terminals, terminals-append, IsCounted, with_req-IsCounted, release-IsCounted, released-IsCounted,
}
use s_llm.Serving.Facade.Lifecycle.{
  on_token-IsCounted, on_finish-IsCounted, fail-IsCounted, request_abort-IsCounted,
  start_batched-IsCounted, start_exclusive-IsCounted,
}

module _ {E J : Type 0} (f : Facade E J) (r : ℕ) (v : IsCounted f) where
  end_complete-IsCounted : (in_time : Bool) → IsCounted (end_complete f r in_time).0
  unfolding end_complete
  end_complete-IsCounted false =
      released-IsCounted (request_abort f r) r (request_abort-IsCounted f r v)
  end_complete-IsCounted true = elim (Option-cases (lookup r f.reqs)) [
    | inl e ↦ rw (end_complete, e) v
    | inr (req, e) ↦ elim (Option-cases req.failure) [
      | inl fine ↦ rw (end_complete, e, fine) v
      | inr (x, broken) ↦ rw (end_complete, e, broken) (released-IsCounted f r v)
    ]
  ]

  end_exclusive-IsCounted : (in_time : Bool) → IsCounted (end_exclusive f r in_time).0
  unfolding end_exclusive
  end_exclusive-IsCounted false = released-IsCounted f r v
  end_exclusive-IsCounted true = elim (Option-cases (lookup r f.reqs)) [
    | inl e ↦ rw (end_exclusive, e) v
    | inr (req, e) ↦ elim (Option-cases req.failure) [
      | inl fine ↦ rw (end_exclusive, e, fine) v
      | inr (x, broken) ↦ rw (end_exclusive, e, broken) (released-IsCounted f r v)
    ]
  ]

  close_text_stream-IsCounted : IsCounted (close_text_stream f r)
  unfolding close_text_stream
  close_text_stream-IsCounted = elim (Option-cases (lookup r f.reqs)) [
    | inl e ↦ rw (close_text_stream, e) v
    | inr (req, e) ↦ elim (Bool-cases req.done) [
      | inl over ↦ rw (close_text_stream, e, over) v
      | inr open_still ↦ rw (close_text_stream, e, open_still) (released-IsCounted f r v)
    ]
  ]

  closed : Facade E J → Facade E J
  closed g = elim (lookup r g.reqs) [
    | none ↦ g
    | some req ↦ if req.done then g else release (request_abort g r) r
  ]

  closed-IsCounted : (g : Facade E J) → IsCounted g → IsCounted (closed g)
  unfolding closed
  closed-IsCounted g w = elim (Option-cases (lookup r g.reqs)) [
    | inl e ↦ rw (closed, e) w
    | inr (req, e) ↦ elim (Bool-cases req.done) [
      | inl over ↦ rw (closed, e, over) w
      | inr open_still ↦
          rw (closed, e, open_still)
            (released-IsCounted (request_abort g r) r (request_abort-IsCounted g r w))
    ]
  ]

  close_batched_stream-IsCounted : (stalled : Bool) → IsCounted (close_batched_stream f r stalled)
  unfolding close_batched_stream closed
  close_batched_stream-IsCounted false = closed-IsCounted f v
  close_batched_stream-IsCounted true =
      closed-IsCounted (request_abort f r) (request_abort-IsCounted f r v)

-- Texts that are put into the queue end nothing.
put_texts-same :
    (req : Req) (texts : List (List ℕ × Option Reason))
    → (terminals (put_texts req texts).q ≡ terminals req.q)
      × ((put_texts req texts).done ≡ req.done)
      × ((put_texts req texts).released ≡ req.released)
put_texts-same req [] = (refl, refl, refl)
put_texts-same req (([], reason) ∷ rest) = put_texts-same req rest
put_texts-same req ((c ∷ cs, reason) ∷ rest) =
    let (t, d, l) = put_texts-same (record req { q = req.q ++ tok_text (c ∷ cs) ∷ [] }) rest in
    (omega (arith, t, terminals-append req.q (tok_text (c ∷ cs) ∷ [])), d, l)

module _ {E J : Type 0} (run_func : J → Result Output) where
  pub run_job-IsCounted :
      (f : Facade E J) (r : ℕ) (job : J) → IsCounted f → IsCounted (run_job run_func f (r, job))
  unfolding run_job
  run_job-IsCounted f r job v = elim (Option-cases (lookup r f.reqs)) [
    | inl e ↦ rw (run_job, e) v
    | inr (req, e) ↦ elim (Result-cases (run_func job)) [
      | inr (x, failed) ↦ rw (run_job, e, failed) (fail-IsCounted f r v (caught x))
      | inl (document reason, done) ↦
          rw (run_job, e, done)
            (release-IsCounted f r req _ v e refl
              (record { once = ground (arith, (v.orderly r req e).once); returned = λ _. refl }))
      | inl (deltas texts broken, done) ↦
          let (t, d, l) = put_texts-same req texts in
          let o = v.orderly r req e in
          let w = with_req-IsCounted f r req (put_texts req texts) v e l (record {
            once = ground (arith, o.once, t, d);
            returned = λ over. l ∙ o.returned (sym d ∙ over);
          }) in
          elim (Option-cases broken) [
            | inl fine ↦ rw (run_job, e, done, fine) (on_finish-IsCounted _ r w _)
            | inr (x, bad) ↦ rw (run_job, e, done, bad) (fail-IsCounted _ r w (caught x))
          ]
    ]
  ]

new_facade-IsCounted : (E J : Type 0) (limit : ℕ) → IsCounted (new_facade {E = E} {J = J} limit)
unfolding lookup
new_facade-IsCounted E J limit = record {
  numbered = λ r above. refl;
  places = refl;
  others = refl;
  bounded = omega arith;
  orderly = λ r req h. absurd (empty h);
}
  where
    empty : {req : Req} → none ≡ some req → ⊥
    empty h = ground arith

-- One call of a thread.
pub data Call (E J : Type 0) : Type 0 where
  starts_batched : Bool → List ℕ → E → Call E J
  starts_exclusive : Bool → J → Call E J
  emits : ℕ → ℕ → Call E J
  finishes : ℕ → Reason → Call E J
  fails : ℕ → Failure → Call E J
  ends_complete ends_exclusive closes_batched : ℕ → Bool → Call E J
  closes_text : ℕ → Call E J
  runs : ℕ → J → Call E J

module _ {E J : Type 0} (run_func : J → Result Output) where
  abbrev pub after_call : Facade E J → Call E J → Facade E J
  after_call f (starts_batched stream prompt params) = (start_batched f stream prompt params).0
  after_call f (starts_exclusive stream job) = (start_exclusive f stream job).0
  after_call f (emits r tok) = on_token f r tok
  after_call f (finishes r reason) = on_finish f r reason
  after_call f (fails r x) = fail f r x
  after_call f (ends_complete r in_time) = (end_complete f r in_time).0
  after_call f (ends_exclusive r in_time) = (end_exclusive f r in_time).0
  after_call f (closes_batched r stalled) = close_batched_stream f r stalled
  after_call f (closes_text r) = close_text_stream f r
  after_call f (runs r job) = run_job run_func f (r, job)

  abbrev pub after_calls : Facade E J → List (Call E J) → Facade E J
  after_calls f [] = f
  after_calls f (c ∷ cs) = after_calls (after_call f c) cs

  after_call-IsCounted : (f : Facade E J) (c : Call E J) → IsCounted f → IsCounted (after_call f c)
  after_call-IsCounted f (starts_batched stream prompt params) v =
      start_batched-IsCounted f v stream prompt params
  after_call-IsCounted f (starts_exclusive stream job) v = start_exclusive-IsCounted f v stream job
  after_call-IsCounted f (emits r tok) v = on_token-IsCounted f r v tok
  after_call-IsCounted f (finishes r reason) v = on_finish-IsCounted f r v reason
  after_call-IsCounted f (fails r x) v = fail-IsCounted f r v x
  after_call-IsCounted f (ends_complete r in_time) v = end_complete-IsCounted f r v in_time
  after_call-IsCounted f (ends_exclusive r in_time) v = end_exclusive-IsCounted f r v in_time
  after_call-IsCounted f (closes_batched r stalled) v = close_batched_stream-IsCounted f r v stalled
  after_call-IsCounted f (closes_text r) v = close_text_stream-IsCounted f r v
  after_call-IsCounted f (runs r job) v = run_job-IsCounted run_func f r job v

  after_calls-IsCounted :
      (f : Facade E J) (cs : List (Call E J)) → IsCounted f → IsCounted (after_calls f cs)
  after_calls-IsCounted f [] v = v
  after_calls-IsCounted f (c ∷ cs) v =
      after_calls-IsCounted (after_call f c) cs (after_call-IsCounted f c v)

  -- Whatever calls the threads make, one after the other, on a new facade: `_inflight` is the number of
  -- requests that have not given back their place, and at most the limit; `_served` counts the others;
  -- each request was told of its end at most once, not before it was done, and has then given back its
  -- place.
  pub new_facade-after_calls :
      (limit : ℕ) (cs : List (Call E J)) → IsCounted (after_calls (new_facade limit) cs)
  new_facade-after_calls limit cs =
      after_calls-IsCounted (new_facade limit) cs (new_facade-IsCounted E J limit)
