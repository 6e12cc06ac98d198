-- ===== src/Runtime/Spec/Greedy.antt =====
-- Speculative decoding agrees with the greedy run, for every draft head.
use s_llm.Prelude.{
  ℕ, zero, suc, ◌+◌, ◌-◌, ◌≤◌, ◌<◌, ◌≡◌, refl, sym, ap, ◌∙◌, subst, min, ◌⊎◌, inl, inr, Bool, true,
  false, Option, none, some, List, arith, ltb, take, member, Result, ok, Bool-cases, ltb→lt,
  length-take,
}
use s_llm.Runtime.Spec.{
  last?, settle, draft_tokens, spec_loop, spec_decode_greedy, deepseek_loop,
  spec_decode_greedy_deepseek,
}
use s_llm.Runtime.Spec.Verify.{
  greedy_run, greedy_run-add, last?-greedy_run, Settles, settle-Settles, length-draft_tokens,
}

module _ (next : List ℕ → ℕ) where
  -- The list ends in a stop id, or the greedy token after it is one.
  pub data Stops (stop_ids ids : List ℕ) : Type 0 where
    ends_in_stop : (t : ℕ) → last? ids ≡ some t → member t stop_ids ≡ true → Stops stop_ids ids
    stop_comes : member (next ids) stop_ids ≡ true → Stops stop_ids ids

  -- What a loop with `n` tokens emitted may return.
  pub record Emits (stop_ids : List ℕ) (max_new : ℕ) (ids : List ℕ) (n : ℕ)
      (r : Option (Result (List ℕ))) : Type 0 where
    pub steps : ℕ
    pub result : r ≡ some (ok (greedy_run next steps ids))
    pub bounded : n + steps ≤ max_new
    pub complete : (n + steps ≡ max_new) ⊎ Stops stop_ids (greedy_run next steps ids)

  at_once :
      (stop_ids : List ℕ) (max_new : ℕ) (ids : List ℕ) (n : ℕ)
      → n ≤ max_new
      → (n ≡ max_new) ⊎ Stops stop_ids ids
      → Emits stop_ids max_new ids n (some (ok ids))
  unfolding greedy_run
  at_once stop_ids max_new ids n h (inl e) = record {
    steps = 0;
    result = refl;
    bounded = omega arith;
    complete = inl (omega arith);
  }
  at_once stop_ids max_new ids n h (inr e) = record {
    steps = 0;
    result = refl;
    bounded = omega arith;
    complete = inr e;
  }

  -- A pass that ends the loop.
  settled :
      (stop_ids : List ℕ) (max_new : ℕ) (ids ids' : List ℕ) (n n' : ℕ)
      → Settles next stop_ids max_new ids n false ids' n'
      → Emits stop_ids max_new ids n (some (ok ids'))
  settled stop_ids max_new ids ids' n n' s = record {
    steps = s.steps;
    result = ap (λ (l : List ℕ). some (ok l)) s.runs;
    bounded = omega (arith, s.counts, s.bounded);
    complete = elim (s.ends refl) [
      | inl e ↦ inl (omega (arith, s.counts, e))
      | inr e ↦ inr (stop_comes (subst (λ (l : List ℕ). member (next l) stop_ids ≡ true) s.runs e))
    ];
  }

  -- A pass that goes on, and what the rest of the loop emits.
  continued :
      (stop_ids : List ℕ) (max_new : ℕ) (ids ids' : List ℕ) (n n' : ℕ)
      (r : Option (Result (List ℕ)))
      → Settles next stop_ids max_new ids n true ids' n'
      → Emits stop_ids max_new ids' n' r
      → Emits stop_ids max_new ids n r
  continued stop_ids max_new ids ids' n n' r s m =
      let joined : greedy_run next m.steps ids' ≡ greedy_run next (s.steps + m.steps) ids =
        ap (greedy_run next m.steps) s.runs ∙ sym (greedy_run-add next s.steps m.steps ids) in
      record {
        steps = s.steps + m.steps;
        result = m.result ∙ ap (λ (l : List ℕ). some (ok l)) joined;
        bounded = omega (arith, s.counts, m.bounded);
        complete = elim m.complete [
          | inl e ↦ inl (omega (arith, s.counts, e))
          | inr e ↦ inr (subst (Stops stop_ids) joined e)
        ];
      }

  pub last_of :
      (stop_ids : List ℕ) (max_new : ℕ) (ids ids' : List ℕ) (n n' t : ℕ)
      → last? ids ≡ some t
      → Settles next stop_ids max_new ids n true ids' n'
      → (u : ℕ) × (last? ids' ≡ some u)
  last_of stop_ids max_new ids ids' n n' t e s =
      let (u, f) = last?-greedy_run next s.steps t ids e in (u, ap last? s.runs ∙ f)

  -- One pass of either loop, given what its recursive call emits.
  next_pass :
      (stop_ids : List ℕ) (max_new fuel : ℕ) (loop : List ℕ → ℕ → Option (Result (List ℕ)))
      → ((ids : List ℕ) (n t : ℕ)
          → last? ids ≡ some t
          → n ≤ max_new
          → max_new - n < fuel
          → Emits stop_ids max_new ids n (loop ids n))
      → (ids : List ℕ) (n t : ℕ) → last? ids ≡ some t
      → max_new - n < suc fuel
      → n < max_new
      → (r : Bool × List ℕ × ℕ) → Settles next stop_ids max_new ids n r.0 r.1 r.2
      → Emits stop_ids max_new ids n (elim r.0 [ true ↦ loop r.1 r.2 | false ↦ some (ok r.1) ])
  next_pass stop_ids max_new fuel loop rest ids n t e f room (false, ids', n') s =
      settled stop_ids max_new ids ids' n n' s
  next_pass stop_ids max_new fuel loop rest ids n t e f room (true, ids', n') s =
      let (u, g) = last_of stop_ids max_new ids ids' n n' t e s in
      continued stop_ids max_new ids ids' n n' (loop ids' n') s
        (rest ids' n' u g s.bounded (omega (arith, s.counts, s.goes_on refl)))

  module _ (draft : List ℕ → ℕ) (stop_ids : List ℕ) (num_draft max_new : ℕ) where
    pub spec_loop-Emits :
        (fuel : ℕ) (ids : List ℕ) (n t : ℕ)
        → last? ids ≡ some t
        → n ≤ max_new
        → max_new - n < fuel
        → Emits stop_ids max_new ids n (spec_loop next draft fuel stop_ids num_draft max_new ids n)
    unfolding spec_loop
    spec_loop-Emits zero ids n t e h f = absurd (omega arith)
    spec_loop-Emits (suc fuel) ids n t e h f = elim (Bool-cases (ltb n max_new)) [
      | inr full ↦ rw full (at_once stop_ids max_new ids n h (inl (ground arith)))
      | inl room ↦ elim (Bool-cases (member t stop_ids)) [
        | inl stops ↦
            rw (room, e, stops) (at_once stop_ids max_new ids n h (inr (ends_in_stop t e stops)))
        | inr more ↦
            let drafted : List ℕ = draft_tokens next draft (min num_draft (max_new - n - 1)) ids in
            rw (room, e, more)
              (next_pass stop_ids max_new fuel
                (spec_loop next draft fuel stop_ids num_draft max_new) (spec_loop-Emits fuel) ids n
                t e f (ltb→lt _ _ room) (settle next stop_ids max_new ids n drafted)
                (settle-Settles next stop_ids max_new ids n drafted (
                  omega (
                    arith,
                    ltb→lt _ _ room,
                    length-draft_tokens next draft (min num_draft (max_new - n - 1)) ids,
                  ))))
      ]
    ]

    -- Whatever the draft head proposes, `spec_decode_greedy` of a prompt that is not empty returns
    -- the prompt and tokens of the main model's greedy run, at most `max_new`, and fewer only where
    -- the list ends in a stop id or the greedy token after it is one.
    pub spec_decode_greedy-Emits :
        (prompt : List ℕ) (t : ℕ)
        → last? prompt ≡ some t
        → 1 ≤ num_draft
        → Emits stop_ids max_new prompt 0
            (spec_decode_greedy next draft prompt max_new num_draft stop_ids)
    unfolding spec_decode_greedy
    spec_decode_greedy-Emits prompt t e h = elim (Bool-cases (ltb num_draft 1)) [
      | inl none_drafted ↦ absurd (ground arith)
      | inr some_drafted ↦
          rw some_drafted (spec_loop-Emits (suc max_new) prompt 0 t e (omega arith) (omega arith))
    ]

  module _ (block : List ℕ → List ℕ) (stop_ids : List ℕ) (max_new : ℕ) where
    deepseek_loop-Emits :
        (block_size num_draft fuel : ℕ) (ids : List ℕ) (n t : ℕ)
        → 1 ≤ num_draft
        → last? ids ≡ some t
        → n ≤ max_new
        → max_new - n < fuel
        → Emits stop_ids max_new ids n
            (deepseek_loop next block block_size fuel stop_ids num_draft max_new ids n)
    unfolding deepseek_loop
    deepseek_loop-Emits bs num_draft zero ids n t d e h f = absurd (omega arith)
    deepseek_loop-Emits bs num_draft (suc fuel) ids n t d e h f =
        elim (Bool-cases (ltb n max_new)) [
          | inr full ↦ rw full (at_once stop_ids max_new ids n h (inl (ground arith)))
          | inl room ↦ elim (Bool-cases (member t stop_ids)) [
            | inl stops ↦
                rw (room, e, stops)
                  (at_once stop_ids max_new ids n h (inr (ends_in_stop t e stops)))
            | inr more ↦
                let nd : ℕ = min num_draft (max_new - n) in
                let drafted : List ℕ = take nd (block ids) in
                let some_left : ltb nd 1 ≡ false = ground (arith, ltb→lt _ _ room) in
                rw (room, e, more, some_left)
                  (next_pass stop_ids max_new fuel
                    (deepseek_loop next block bs fuel stop_ids num_draft max_new)
                    (λ ids' n' u. deepseek_loop-Emits bs num_draft fuel ids' n' u d) ids n t e f
                    (ltb→lt _ _ room) (settle next stop_ids max_new ids n drafted)
                    (settle-Settles next stop_ids max_new ids n drafted
                      (omega (arith, ltb→lt _ _ room, length-take nd (block ids)))))
          ]
        ]

    -- The same of `spec_decode_greedy_deepseek`, for every block that the draft head proposes, with
    -- `num_draft` given or left to the block size.
    pub spec_decode_greedy_deepseek-Emits :
        (block_size : ℕ) (num_draft : Option ℕ) (prompt : List ℕ) (t : ℕ)
        → last? prompt ≡ some t
        → 1 ≤ (elim num_draft [ none ↦ block_size | some k ↦ k ])
        → Emits stop_ids max_new prompt 0
            (spec_decode_greedy_deepseek next block block_size prompt max_new num_draft stop_ids)
    unfolding spec_decode_greedy_deepseek
    spec_decode_greedy_deepseek-Emits bs num_draft prompt t e h =
        let nd : ℕ = elim num_draft [ none ↦ bs | some k ↦ k ] in
        let enough : ltb nd 1 ≡ false = few nd h in
        rw enough
          (deepseek_loop-Emits bs nd (suc max_new) prompt 0 t h e (omega arith) (omega arith))
      where
        few : (k : ℕ) → 1 ≤ k → ltb k 1 ≡ false
        few k p = ground arith
