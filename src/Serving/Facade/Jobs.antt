-- ===== src/Serving/Facade/Jobs.antt =====
-- The exclusive jobs of `BatchedServingEngine`: requests that the executor thread runs alone.
use s_llm.Prelude.{
  ℕ, Bool, true, Option, none, some, List, [], ◌∷◌, ◌++◌, ltb, length, Result, ok, err, Error,
}
use s_llm.Prelude.Dict.{lookup}
use s_llm.Serving.Engine.{Reason, stopped, too_long}
use s_llm.Serving.Facade.Handshake.{
  Facade, caught, tok_text, Req, with_req, release, on_finish, fail,
}

-- What an exclusive job comes to: a document with its finish reason where it has one, or a stream of
-- texts and reasons that may end in an error.
pub data Output : Type 0 where
  document : Option Reason → Output
  deltas : List (List ℕ × Option Reason) → Option Error → Output

abbrev pub put_texts : Req → List (List ℕ × Option Reason) → Req
put_texts req [] = req
put_texts req (([], reason) ∷ rest) = put_texts req rest
put_texts req ((c ∷ cs, reason) ∷ rest) =
    put_texts (record req { q = req.q ++ tok_text (c ∷ cs) ∷ [] }) rest

-- `last_reason`
abbrev pub last_reason : Option Reason → List (List ℕ × Option Reason) → Option Reason
last_reason found [] = found
last_reason found ((d, none) ∷ rest) = last_reason found rest
last_reason found ((d, some reason) ∷ rest) = last_reason (some reason) rest

abbrev pub reason_or : Option Reason → Reason → Reason
reason_or none d = d
reason_or (some reason) d = reason

module _ {E J : Type 0} (run_func : J → Result Output) where
  -- `_run_job`on a job for the request `r`: a request that streams has a job that does.
  unfoldable pub run_job : Facade E J → ℕ × J → Facade E J
  run_job f (r, job) = elim (lookup r f.reqs) [
    | none ↦ f
    | some req ↦ elim (run_func job) [
      | err x ↦ fail f r (caught x)
      | ok (document reason) ↦
          release
            (with_req f r (record req { reason = some (reason_or reason stopped); done = true })) r
      | ok (deltas texts broken) ↦
          let f' = with_req f r (put_texts req texts) in
          elim broken [
            | some x ↦ fail f' r (caught x)
            | none ↦ on_finish f' r (reason_or (last_reason none texts) too_long)
          ]
    ]
  ]

  abbrev pub run_jobs : Facade E J → List (ℕ × J) → Facade E J
  run_jobs f [] = f
  run_jobs f (x ∷ xs) = run_jobs (run_job f x) xs

  -- `_drain_exclusive`
  unfoldable pub drain_exclusive : Facade E J → Facade E J × Bool
  drain_exclusive f =
      let jobs = f.excl_q in (run_jobs (record f { excl_q = [] }) jobs, ltb 0 (length jobs))
