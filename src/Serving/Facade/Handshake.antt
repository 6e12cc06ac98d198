-- ===== src/Serving/Facade/Handshake.antt =====
-- `_Req`, and the parts of `BatchedServingEngine` that the handler threads and the executor thread
-- share. Each call runs to its end before the next one. A request object is an entry of a dict.
use s_llm.Prelude.{
  ℕ, suc, ◌-◌, Bool, true, false, not, Option, none, some, List, [], ◌∷◌, ◌++◌, leb, ◌==◌,
  if◌then◌else◌, Error, ℤ, pos, negsuc,
}
use s_llm.Prelude.Dict.{Dict, lookup, put}
use s_llm.Serving.Engine.{Reason}

-- What a request may fail with: `SaturatedError`, `TimeoutError`, or what the executor thread caught.
pub data Failure : Type 0 where
  saturated timed_out request_aborted : Failure
  caught : Error → Failure

-- What stands in the queue of a streaming request; a text is one that an exclusive job has decoded.
pub data Item : Type 0 where
  tok_id : ℕ → Item
  tok_text : List ℕ → Item
  finish : Reason → Item
  error : Failure → Item

pub record Req : Type 0 where
  pub stream : Bool
  pub prompt_ids : Option (List ℕ)
  pub q : List Item
  pub done : Bool
  pub ids : List ℕ
  pub reason : Option Reason
  pub failure : Option Failure
  pub seq_id : Option ℕ
  pub released : Bool

abbrev pub new_req : Bool → Option (List ℕ) → Req
new_req stream prompt_ids = record {
  stream = stream;
  prompt_ids = prompt_ids;
  q = [];
  done = false;
  ids = [];
  reason = none;
  failure = none;
  seq_id = none;
  released = false;
}

abbrev pub plus_one : ℤ → ℤ
plus_one (pos n) = pos (suc n)
plus_one (negsuc n) = if n == 0 then pos 0 else negsuc (n - 1)

abbrev pub minus_one : ℤ → ℤ
minus_one (pos n) = if n == 0 then negsuc 0 else pos (n - 1)
minus_one (negsuc n) = negsuc (suc n)

-- `z >= n`
abbrev pub at_least : ℤ → ℕ → Bool
at_least (pos m) n = leb n m
at_least (negsuc m) n = false

-- The requests that were made, by number, and what the threads share. `E` is an entry of `_submit_q`:
-- what `submit` makes of the parameters; `J` is an exclusive job.
pub record Facade (E J : Type 0) : Type 0 where
  pub max_queued : ℕ
  pub reqs : Dict Req
  pub next_req : ℕ
  pub inflight : ℤ
  pub served : ℕ
  pub submit_q : List (ℕ × E)
  pub excl_q : List (ℕ × J)
  pub abort_q : List ℕ

-- The state that the constructor makes.
abbrev pub new_facade : {E J : Type 0} → ℕ → Facade E J
new_facade limit = record {
  max_queued = limit;
  reqs = [];
  next_req = 0;
  inflight = pos 0;
  served = 0;
  submit_q = [];
  excl_q = [];
  abort_q = [];
}

-- What a call answers.
pub data Answer (A : Type 0) : Type 0 where
  gives : A → Answer A
  refuses : Failure → Answer A

abbrev pub put_item : Item → Req → List Item
put_item x req = if req.stream then req.q ++ x ∷ [] else req.q

module _ {E J : Type 0} where
  abbrev pub with_req : Facade E J → ℕ → Req → Facade E J
  with_req f r req = record f { reqs = put r req f.reqs }

  -- `_admit`
  unfoldable pub admit : Facade E J → Facade E J × Answer (Unit {0})
  admit f =
      if at_least f.inflight f.max_queued
      then (f, refuses saturated)
      else (record f { inflight = plus_one f.inflight }, gives tt)

  -- `_release`
  unfoldable pub release : Facade E J → ℕ → Facade E J
  release f r = elim (lookup r f.reqs) [
    | none ↦ f
    | some req ↦ if req.released then f else record f {
      reqs = put r (record req { released = true }) f.reqs;
      inflight = minus_one f.inflight;
      served = suc f.served;
    }
  ]

  unfoldable pub on_token : Facade E J → ℕ → ℕ → Facade E J
  on_token f r tok = elim (lookup r f.reqs) [
    | none ↦ f
    | some req ↦
        with_req f r (record req { ids = req.ids ++ tok ∷ []; q = put_item (tok_id tok) req })
  ]

  unfoldable pub on_finish : Facade E J → ℕ → Reason → Facade E J
  on_finish f r reason = elim (lookup r f.reqs) [
    | none ↦ f
    | some req ↦
        if req.done
        then f
        else release
            (with_req f r
              (record req { reason = some reason; q = put_item (finish reason) req; done = true }))
            r
  ]

  unfoldable pub fail : Facade E J → ℕ → Failure → Facade E J
  fail f r x = elim (lookup r f.reqs) [
    | none ↦ f
    | some req ↦
        if req.done
        then f
        else release
            (with_req f r
              (record req { failure = some x; q = put_item (error x) req; done = true }))
            r
  ]

  unfoldable pub request_abort : Facade E J → ℕ → Facade E J
  request_abort f r = elim (lookup r f.reqs) [
    | none ↦ f
    | some req ↦ elim req.seq_id [
      | none ↦ f
      | some sid ↦ if req.done then f else record f { abort_q = f.abort_q ++ sid ∷ [] }
    ]
  ]

  -- A request object that a handler thread has just made.
  abbrev pub made : Facade E J → Req → Facade E J
  made f req = record f { reqs = put f.next_req req f.reqs; next_req = suc f.next_req }

  -- `complete_detail` and `stream_complete` after the check, up to the wait: the number of the request.
  unfoldable pub start_batched : Facade E J → Bool → List ℕ → E → Facade E J × Answer ℕ
  start_batched f stream prompt_ids params =
      let (f1, answer) = admit f in
      elim answer [
        | refuses x ↦ (f1, refuses x)
        | gives _ ↦
            let f2 = made f1 (new_req stream (some prompt_ids)) in
            (record f2 { submit_q = f2.submit_q ++ (f1.next_req, params) ∷ [] }, gives f1.next_req)
      ]

  -- `_exclusive` and `_exclusive_stream`, up to the wait.
  unfoldable pub start_exclusive : Facade E J → Bool → J → Facade E J × Answer ℕ
  start_exclusive f stream job =
      let (f1, answer) = admit f in
      elim answer [
        | refuses x ↦ (f1, refuses x)
        | gives _ ↦
            let f2 = made f1 (new_req stream none) in
            (record f2 { excl_q = f2.excl_q ++ (f1.next_req, job) ∷ [] }, gives f1.next_req)
      ]

  -- `complete_detail` after the wait, which came to an end or was timed out: the ids and the reason.
  unfoldable pub end_complete : Facade E J → ℕ → Bool → Facade E J × Answer (List ℕ × Option Reason)
  end_complete f r in_time =
      if not in_time
      then (release (request_abort f r) r, refuses timed_out)
      else elim (lookup r f.reqs) [
        | none ↦ (f, refuses timed_out)
        | some req ↦ elim req.failure [
          | some x ↦ (release f r, refuses x)
          | none ↦ (f, gives (req.ids, req.reason))
        ]
      ]

  -- `_exclusive` after the wait, without the result, which is the job's.
  unfoldable pub end_exclusive : Facade E J → ℕ → Bool → Facade E J × Answer (Unit {0})
  end_exclusive f r in_time =
      if not in_time then (release f r, refuses timed_out) else elim (lookup r f.reqs) [
        | none ↦ (f, refuses timed_out)
        | some req ↦ elim req.failure [ some x ↦ (release f r, refuses x) | none ↦ (f, gives tt) ]
      ]

  -- The end of `_iter_batched_stream`; `stalled` is a queue that stayed empty too long.
  unfoldable pub close_batched_stream : Facade E J → ℕ → Bool → Facade E J
  close_batched_stream f r stalled =
      let f1 = if stalled then request_abort f r else f in
      elim (lookup r f1.reqs) [
        | none ↦ f1
        | some req ↦ if req.done then f1 else release (request_abort f1 r) r
      ]

  -- The end of `_iter_text_stream`.
  unfoldable pub close_text_stream : Facade E J → ℕ → Facade E J
  close_text_stream f r = elim (lookup r f.reqs) [
    | none ↦ f
    | some req ↦ if req.done then f else release f r
  ]
