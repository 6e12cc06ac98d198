-- ===== src/Runtime/Spec/Stop.antt =====
-- Speculative decoding against the plain loop: equal where there is no stop id, and different where
-- the draft head guesses a stop id.
use s_llm.Prelude.{
  ℕ, zero, suc, ◌+◌, ◌-◌, ◌≤◌, ◌<◌, ◌≡◌, refl, sym, ap, ◌∙◌, min, inl, inr, Bool, true, false,
  Option, none, some, List, [], ◌∷◌, ◌++◌, arith, ltb, leb, ◌==◌, length, member, Result, ok,
  Bool-cases, ==_iff, length-append,
}
use mathlib.Core.List.{append-nil, append_assoc}
use s_llm.Runtime.Spec.{
  last?, generate, verify, corrective, settle, draft_tokens, spec_loop, spec_decode_greedy,
  spec_decode_greedy_deepseek,
}
use s_llm.Runtime.Spec.Verify.{greedy_run, Settles, settle-Settles, length-draft_tokens}
use s_llm.Runtime.Spec.Greedy.{
  Emits, Stops, ends_in_stop, stop_comes, spec_decode_greedy-Emits,
  spec_decode_greedy_deepseek-Emits, spec_loop-Emits, last_of,
}

-- The limit on the context, where there is one, is not below `n`.
abbrev pub WithinContext : Option ℕ → ℕ → Type 0
WithinContext none n = Unit
WithinContext (some c) n = n ≤ c

module _ (next : List ℕ → ℕ) where
  generate-greedy_run : (k : ℕ) (ids : List ℕ) → generate next none [] k ids ≡ greedy_run next k ids
  unfolding generate greedy_run
  generate-greedy_run zero ids = refl
  generate-greedy_run (suc k) ids = generate-greedy_run k (ids ++ next ids ∷ [])

  never-Stops : (ids : List ℕ) → Stops next [] ids → ⊥
  never-Stops ids (ends_in_stop t e h) = cc
  never-Stops ids (stop_comes h) = cc

  Emits-generate :
      (max_new : ℕ) (prompt : List ℕ) (r : Option (Result (List ℕ)))
      → Emits next [] max_new prompt 0 r
      → r ≡ some (ok (generate next none [] max_new prompt))
  Emits-generate max_new prompt r m = elim m.complete [
    | inr s ↦ absurd (never-Stops (greedy_run next m.steps prompt) s)
    | inl e ↦
        let all_of_them : m.steps ≡ max_new = omega (arith, e) in
        m.result
        ∙ ap (λ (k : ℕ). some (ok (greedy_run next k prompt))) all_of_them
        ∙ ap (λ (l : List ℕ). some (ok l)) (sym (generate-greedy_run max_new prompt))
  ]

  -- A limit on the context that the prompt and the new tokens do not exceed stops nothing.
  generate-within :
      (max_context : Option ℕ) (k : ℕ) (ids : List ℕ)
      → WithinContext max_context (length ids + k)
      → generate next max_context [] k ids ≡ generate next none [] k ids
  unfolding generate
  generate-within none k ids h = refl
  generate-within (some c) zero ids h = refl
  generate-within (some c) (suc k) ids h =
      let ids' = ids ++ next ids ∷ [] in
      let longer : length ids' ≡ length ids + 1 = length-append ids (next ids ∷ []) in
      elim (Bool-cases (leb c (length ids'))) [
        | inl full ↦
            let last_one : k ≡ 0 = ground (arith, full, longer, h) in
            rw full (sym (ap (λ j. generate next none [] j ids') last_one))
        | inr below ↦ rw below (generate-within (some c) k ids' (omega (arith, longer, h)))
      ]

  -- With no stop id, where at least one token is drafted at a time and the prompt is not empty,
  -- speculative decoding returns exactly what the plain greedy loop generates, whatever the draft head
  -- proposes, if that loop has no limit on the context, or one that the prompt with all new tokens
  -- stays within.
  pub spec_decode_greedy-generate :
      (draft : List ℕ → ℕ) (num_draft max_new : ℕ) (max_context : Option ℕ) (prompt : List ℕ)
      (t : ℕ)
      → last? prompt ≡ some t
      → 1 ≤ num_draft
      → WithinContext max_context (length prompt + max_new)
      → spec_decode_greedy next draft prompt max_new num_draft []
        ≡ some (ok (generate next max_context [] max_new prompt))
  spec_decode_greedy-generate draft num_draft max_new max_context prompt t e h w =
      Emits-generate max_new prompt _
        (spec_decode_greedy-Emits next draft [] num_draft max_new prompt t e h)
      ∙ ap (λ (l : List ℕ). some (ok l)) (sym (generate-within max_context max_new prompt w))

  -- The decoder that drafts whole blocks, with no stop id, a prompt that is not empty and at least one
  -- token kept of each block, returns exactly what the plain greedy loop generates, whatever the draft
  -- head proposes, if that loop has no limit on the context, or one that the prompt with all new tokens
  -- stays within.
  pub spec_decode_greedy_deepseek-generate :
      (block : List ℕ → List ℕ) (block_size : ℕ) (num_draft : Option ℕ) (max_new : ℕ)
      (max_context : Option ℕ) (prompt : List ℕ) (t : ℕ)
      → last? prompt ≡ some t
      → 1 ≤ (elim num_draft [ none ↦ block_size | some k ↦ k ])
      → WithinContext max_context (length prompt + max_new)
      → spec_decode_greedy_deepseek next block block_size prompt max_new num_draft []
        ≡ some (ok (generate next max_context [] max_new prompt))
  spec_decode_greedy_deepseek-generate block bs num_draft max_new max_context prompt t e h w =
      Emits-generate max_new prompt _
        (spec_decode_greedy_deepseek-Emits next block [] max_new bs num_draft prompt t e h)
      ∙ ap (λ (l : List ℕ). some (ok l)) (sym (generate-within max_context max_new prompt w))

  greedy_run-extends :
      (k : ℕ) (ids : List ℕ) → (more : List ℕ) × (greedy_run next k ids ≡ ids ++ more)
  unfolding greedy_run
  greedy_run-extends zero ids = ([], sym (append-nil ids))
  greedy_run-extends (suc k) ids =
      let (more, e) = greedy_run-extends k (ids ++ next ids ∷ []) in
      (next ids ∷ more, e ∙ append_assoc ids (next ids ∷ []) more)

  -- A first draft that the main model agrees with is emitted by its pass.
  settle_extends :
      (stop_ids : List ℕ) (max_new : ℕ) (ids : List ℕ) (n : ℕ) (tok : ℕ) (rest : List ℕ)
      → (next ids == tok) ≡ true
      → (x : List ℕ) × ((settle next stop_ids max_new ids n (tok ∷ rest)).1 ≡ ids ++ tok ∷ x)
  unfolding settle verify
  settle_extends stop_ids max_new ids n tok rest h =
      let more = verify next (ids ++ tok ∷ []) rest in
      let ids' : List ℕ = ids ++ tok ∷ more.0 in
      elim (Bool-cases (leb max_new (n + suc (length more.0)))) [
        | inl full ↦ (more.0, rw (h, full) refl)
        | inr room ↦ elim (Bool-cases (member (corrective next ids' more.1) stop_ids)) [
          | inl stops ↦ (more.0, rw (h, room, stops) refl)
          | inr goes ↦ (
            more.0 ++ corrective next ids' more.1 ∷ [],
            rw (h, room, goes) (append_assoc ids (tok ∷ more.0) _),
          )
        ]
      ]

  loop_extends :
      (draft : List ℕ → ℕ) (stop_ids : List ℕ) (num_draft max_new fuel : ℕ) (prompt start : List ℕ)
      (x : List ℕ) (r : Bool × List ℕ × ℕ)
      → Settles next stop_ids max_new prompt 0 r.0 r.1 r.2
      → r.1 ≡ start ++ x
      → (t : ℕ) → last? prompt ≡ some t
      → max_new < suc fuel
      → (more : List ℕ) × ((elim r.0 [
        | true ↦ spec_loop next draft fuel stop_ids num_draft max_new r.1 r.2
        | false ↦ some (ok r.1)
      ])
          ≡ some (ok (start ++ more)))
  loop_extends draft stop_ids num_draft max_new fuel prompt start x (false, ids', n') s e t l f =
      (x, ap (λ (l : List ℕ). some (ok l)) e)
  loop_extends draft stop_ids num_draft max_new fuel prompt start x (true, ids', n') s e t l f =
      let (u, g) = last_of next stop_ids max_new prompt ids' 0 n' t l s in
      let m =
        spec_loop-Emits next draft stop_ids num_draft max_new fuel ids' n' u g s.bounded
          (omega (arith, s.counts, s.goes_on refl)) in
      let (more, k) = greedy_run-extends m.steps ids' in
      (
        x ++ more,
        m.result
            ∙ ap (λ (l : List ℕ). some (ok l))
                (k ∙ ap (λ (l : List ℕ). l ++ more) e ∙ append_assoc start x more),
      )

  draft_tokens_first :
      (draft : List ℕ → ℕ) (nd : ℕ) (cur : List ℕ)
      → 1 ≤ nd
      → (rest : List ℕ) × (draft_tokens next draft nd cur ≡ draft cur ∷ rest)
  unfolding draft_tokens
  draft_tokens_first draft zero cur h = elim h [ ]
  draft_tokens_first draft (suc nd) cur h = (_, refl)

  generate_stops :
      (stop_ids : List ℕ) (max_new : ℕ) (ids : List ℕ)
      → 1 ≤ max_new
      → member (next ids) stop_ids ≡ true
      → generate next none stop_ids max_new ids ≡ ids
  unfolding generate
  generate_stops stop_ids zero ids h s = elim h [ ]
  generate_stops stop_ids (suc k) ids h s = rw s refl

  -- Where the greedy token after the prompt is a stop id and the draft head proposes it, with two or
  -- more tokens to go, the plain loop emits nothing, and `spec_decode_greedy` emits the stop id.
  pub stop_drafted_is_emitted :
      (draft : List ℕ → ℕ) (stop_ids : List ℕ) (num_draft max_new : ℕ) (prompt : List ℕ) (t : ℕ)
      → last? prompt ≡ some t
      → member t stop_ids ≡ false
      → member (next prompt) stop_ids ≡ true
      → draft prompt ≡ next prompt
      → 1 ≤ num_draft
      → 2 ≤ max_new
      → (generate next none stop_ids max_new prompt ≡ prompt)
        × (more : List ℕ) × (spec_decode_greedy next draft prompt max_new num_draft stop_ids
            ≡ some (ok (prompt ++ next prompt ∷ more)))
  unfolding spec_decode_greedy spec_loop
  stop_drafted_is_emitted draft stop_ids num_draft max_new prompt t e calm stops same h k =
      let nd : ℕ = min num_draft (max_new - 0 - 1) in
      let drafted : List ℕ = draft_tokens next draft nd prompt in
      let (rest, first) = draft_tokens_first draft nd prompt (omega arith) in
      let agreed : (next prompt == draft prompt) ≡ true = (==_iff _ _).1 (sym same) in
      let (x, begins) = settle_extends stop_ids max_new prompt 0 (draft prompt) rest agreed in
      let pass : Bool × List ℕ × ℕ = settle next stop_ids max_new prompt 0 drafted in
      let emitted : pass.1 ≡ (prompt ++ next prompt ∷ []) ++ x =
        ap (λ (d : List ℕ). (settle next stop_ids max_new prompt 0 d).1) first
        ∙ begins
        ∙ ap (λ (y : ℕ). prompt ++ y ∷ x) same
        ∙ sym (append_assoc prompt (next prompt ∷ []) x) in
      let (more, result) =
        loop_extends draft stop_ids num_draft max_new max_new prompt (prompt ++ next prompt ∷ []) x
          pass
          (settle-Settles next stop_ids max_new prompt 0 drafted
            (omega (arith, length-draft_tokens next draft nd prompt)))
          emitted t e (omega arith) in
      let drafting : ltb num_draft 1 ≡ false = ground arith in
      let room : ltb 0 max_new ≡ true = ground arith in
      (
        generate_stops stop_ids max_new prompt (omega arith) stops,
        more,
        rw (drafting, room, e, calm)
            (result
              ∙ ap (λ (l : List ℕ). some (ok l)) (append_assoc prompt (next prompt ∷ []) more)),
      )
