-- ===== src/Serving/Facade/Lifecycle.antt =====
-- Every call on a request, and on the queues that the threads share, keeps the requests counted.
use s_llm.Prelude.{
  ℕ, suc, ◌+◌, ◌≤◌, ◌<◌, ◌≡◌, refl, sym, ap, ◌∙◌, subst, ◌⊎◌, inl, inr, Bool, true, false, none,
  some, List, [], ◌∷◌, ◌++◌, arith, leb, ◌==◌, pos, Bool-cases, Option-cases,
}
use s_llm.Prelude.Dict.{lookup, put, lookup-put, length-put_missing}
use s_llm.Serving.Engine.{Reason}
use s_llm.Serving.Facade.Handshake.{
  Facade, Failure, Item, tok_id, finish, error, Req, new_req, plus_one, at_least, Answer, gives,
  refuses, saturated, put_item, admit, on_token, on_finish, fail, request_abort, made,
  start_batched, start_exclusive,
}
use s_llm.Serving.Facade.Counted.{
  terminals, terminals-append, in_flight, in_flight-put_new, IsOrderly, plus_one_pos, IsCounted,
  with_req-IsCounted, release-IsCounted,
}

put_item-terminals :
    (x : Item) (req : Req) → terminals (put_item x req) ≤ terminals req.q + terminals (x ∷ [])
put_item-terminals x req = ground (arith, terminals-append req.q (x ∷ []))

module _ {E J : Type 0} (f : Facade E J) (r : ℕ) (v : IsCounted f) where
  pub on_token-IsCounted : (tok : ℕ) → IsCounted (on_token f r tok)
  unfolding on_token
  on_token-IsCounted tok = elim (Option-cases (lookup r f.reqs)) [
    | inl e ↦ rw (on_token, e) v
    | inr (req, e) ↦
        let o = v.orderly r req e in
        rw (on_token, e)
          (with_req-IsCounted f r req _ v e refl (record {
            once = omega (arith, o.once, put_item-terminals (tok_id tok) req);
            returned = o.returned;
          }))
  ]

  pub on_finish-IsCounted : (reason : Reason) → IsCounted (on_finish f r reason)
  unfolding on_finish
  on_finish-IsCounted reason = elim (Option-cases (lookup r f.reqs)) [
    | inl e ↦ rw (on_finish, e) v
    | inr (req, e) ↦ elim (Bool-cases req.done) [
      | inl over ↦ rw (on_finish, e, over) v
      | inr open_still ↦
          let o = v.orderly r req e in
          rw (on_finish, e, open_still)
            (release-IsCounted f r req _ v e refl (record {
              once = ground (arith, o.once, put_item-terminals (finish reason) req, open_still);
              returned = λ _. refl;
            }))
    ]
  ]

  pub fail-IsCounted : (x : Failure) → IsCounted (fail f r x)
  unfolding fail
  fail-IsCounted x = elim (Option-cases (lookup r f.reqs)) [
    | inl e ↦ rw (fail, e) v
    | inr (req, e) ↦ elim (Bool-cases req.done) [
      | inl over ↦ rw (fail, e, over) v
      | inr open_still ↦
          let o = v.orderly r req e in
          rw (fail, e, open_still)
            (release-IsCounted f r req _ v e refl (record {
              once = ground (arith, o.once, put_item-terminals (error x) req, open_still);
              returned = λ _. refl;
            }))
    ]
  ]

  pub request_abort-IsCounted : IsCounted (request_abort f r)
  unfolding request_abort
  request_abort-IsCounted = elim (Option-cases (lookup r f.reqs)) [
    | inl e ↦ rw (request_abort, e) v
    | inr (req, e) ↦ elim (Option-cases req.seq_id) [
      | inl none_yet ↦ rw (request_abort, e, none_yet) v
      | inr (sid, s) ↦ elim (Bool-cases req.done) [
        | inl over ↦ rw (request_abort, e, s, over) v
        | inr open_still ↦ rw (request_abort, e, s, open_still) v
      ]
    ]
  ]

module _ {E J : Type 0} (f : Facade E J) (v : IsCounted f) where
  -- A place in flight, and the request that takes it.
  abbrev placed : Req → Facade E J
  placed req = made (record f { inflight = plus_one f.inflight }) req

  placed-IsCounted :
      (req : Req)
      → in_flight f.reqs < f.max_queued
      → req.released ≡ false
      → terminals req.q ≡ 0
      → req.done ≡ false
      → IsCounted (placed req)
  placed-IsCounted req room held quiet open_still =
      let missing = v.numbered f.next_req (omega arith) in
      let more : in_flight (put f.next_req req f.reqs) ≡ suc (in_flight f.reqs) =
        ground (arith, in_flight-put_new f.next_req req f.reqs missing, held) in
      let o : IsOrderly req = record {
        once = omega (arith, quiet);
        returned = λ over. absurd (clash over open_still);
      } in
      record {
        numbered = λ j above. ground (arith, lookup-put f.next_req j req f.reqs, v.numbered j);
        places = ap plus_one v.places ∙ plus_one_pos _ ∙ ap pos (sym more);
        others = omega (arith, v.others, more, length-put_missing f.next_req req f.reqs missing);
        bounded = omega (arith, room, more);
        orderly = λ j q h. elim (Bool-cases (f.next_req == j)) [
          | inl here ↦ subst IsOrderly (ground (arith, lookup-put f.next_req j req f.reqs)) o
          | inr away ↦ v.orderly j q (ground (arith, lookup-put f.next_req j req f.reqs))
        ];
      }
    where
      clash : {b : Bool} → b ≡ true → b ≡ false → ⊥
      clash h k = ground arith

  -- A place is refused exactly when as many requests hold one as the limit says.
  pub admit_cases :
      ((in_flight f.reqs ≡ f.max_queued) × (admit f ≡ (f, refuses saturated)))
      ⊎ ((in_flight f.reqs < f.max_queued)
          × (admit f ≡ (record f { inflight = plus_one f.inflight }, gives tt)))
  unfolding admit
  admit_cases =
      let same : at_least f.inflight f.max_queued ≡ leb f.max_queued (in_flight f.reqs) =
        ap (λ z. at_least z f.max_queued) v.places in
      elim (Bool-cases (leb f.max_queued (in_flight f.reqs))) [
        | inl full ↦ inl (ground (arith, v.bounded), rw (admit, same, full) refl)
        | inr room ↦ inr (ground arith, rw (admit, same, room) refl)
      ]

  -- What starting a request comes to: it is refused and nothing changes, or it is given a number that
  -- no request had.
  pub start_batched_cases :
      (stream : Bool) (prompt_ids : List ℕ) (params : E)
      → ((in_flight f.reqs ≡ f.max_queued)
          × (start_batched f stream prompt_ids params ≡ (f, refuses saturated)))
        ⊎ ((in_flight f.reqs < f.max_queued)
            × (start_batched f stream prompt_ids params ≡ (
              record (placed (new_req stream (some prompt_ids))) {
                submit_q = f.submit_q ++ (f.next_req, params) ∷ [];
              },
              gives f.next_req,
            )))
  unfolding start_batched
  start_batched_cases stream prompt_ids params =
      let queued : Facade E J → Facade E J × Answer ℕ = λ g. (
        record (made g (new_req stream (some prompt_ids))) {
          submit_q = g.submit_q ++ (g.next_req, params) ∷ [];
        },
        gives g.next_req,
      ) in
      elim admit_cases [
        | inl (full, e) ↦ inl (full, rw (start_batched, e) (ap (λ p. (p.0, refuses saturated)) e))
        | inr (room, e) ↦ inr (room, rw (start_batched, e) (ap (λ p. queued p.0) e))
      ]

  pub start_exclusive_cases :
      (stream : Bool) (job : J)
      → ((in_flight f.reqs ≡ f.max_queued)
          × (start_exclusive f stream job ≡ (f, refuses saturated)))
        ⊎ ((in_flight f.reqs < f.max_queued)
            × (start_exclusive f stream job ≡ (
              record (placed (new_req stream none)) { excl_q = f.excl_q ++ (f.next_req, job) ∷ [] },
              gives f.next_req,
            )))
  unfolding start_exclusive
  start_exclusive_cases stream job =
      let queued : Facade E J → Facade E J × Answer ℕ = λ g. (
        record (made g (new_req stream none)) { excl_q = g.excl_q ++ (g.next_req, job) ∷ [] },
        gives g.next_req,
      ) in
      elim admit_cases [
        | inl (full, e) ↦ inl (full, rw (start_exclusive, e) (ap (λ p. (p.0, refuses saturated)) e))
        | inr (room, e) ↦ inr (room, rw (start_exclusive, e) (ap (λ p. queued p.0) e))
      ]

  pub start_batched-IsCounted :
      (stream : Bool) (prompt_ids : List ℕ) (params : E)
      → IsCounted (start_batched f stream prompt_ids params).0
  start_batched-IsCounted stream prompt_ids params =
      elim (start_batched_cases stream prompt_ids params) [
        | inl (full, e) ↦ rw e v
        | inr (room, e) ↦
            rw e (placed-IsCounted (new_req stream (some prompt_ids)) room refl refl refl)
      ]

  pub start_exclusive-IsCounted :
      (stream : Bool) (job : J) → IsCounted (start_exclusive f stream job).0
  start_exclusive-IsCounted stream job = elim (start_exclusive_cases stream job) [
    | inl (full, e) ↦ rw e v
    | inr (room, e) ↦ rw e (placed-IsCounted (new_req stream none) room refl refl refl)
  ]
