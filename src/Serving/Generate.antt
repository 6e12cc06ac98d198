-- ===== src/Serving/Generate.antt =====
-- The incremental path of `generate` in serving/executor.py at temperature 0, and that it agrees with the
-- path that computes everything again (`generate` of Runtime/Spec.antt). `pick ids l` is the token chosen
-- from the logits, the repetition penalty for `ids` included. A call with images is not modelled.
use s_llm.Prelude.{
  ℕ, zero, suc, ◌≡◌, refl, ap, some, List, [], ◌∷◌, ◌++◌, leb, if◌then◌else◌, length, member,
  Result, ok, err, value_error,
}
use s_llm.Runtime.Spec.{generate}
use s_llm.Serving.Model.{Calls, Incremental}

module _ {L C : Type 0} (m : Calls L C) (pick : List ℕ → L → ℕ) where
  -- The loop, after `prefill`.
  unfoldable pub generate_from : ℕ → List ℕ → ℕ → List ℕ → C → L → List ℕ
  generate_from max_context stop_ids zero ids cache logits = ids
  generate_from max_context stop_ids (suc steps) ids cache logits =
      let next_id = pick ids logits in
      let ids' = ids ++ next_id ∷ [] in
      let after = m.decode_step cache (some next_id) in
      let rest = generate_from max_context stop_ids steps ids' after.0 after.1 in
      if member next_id stop_ids then ids else if leb max_context (length ids') then ids' else rest

  unfoldable pub generate_incremental : ℕ → List ℕ → ℕ → List ℕ → Result (List ℕ)
  generate_incremental max_context stop_ids max_new ids =
      if leb max_context (length ids)
      then err value_error
      else (let start = m.prefill ids in
          ok (generate_from max_context stop_ids max_new ids start.0 start.1))

  module _ (Holds : C → List ℕ → Type 0) (model : Incremental m Holds) where
    generate_from-generate :
        (max_context : ℕ) (stop_ids : List ℕ) (steps : ℕ) (ids : List ℕ) (cache : C) (logits : L)
        → Holds cache ids
        → logits ≡ m.logits ids
        → generate_from max_context stop_ids steps ids cache logits
          ≡ generate (λ xs. pick xs (m.logits xs)) (some max_context) stop_ids steps ids
    unfolding generate_from generate
    generate_from-generate max_context stop_ids zero ids cache logits h e = refl
    generate_from-generate max_context stop_ids (suc steps) ids cache logits h e =
        let ih : generate_from max_context stop_ids steps (ids ++ pick ids logits ∷ [])
              (m.decode_step cache (some (pick ids logits))).0
              (m.decode_step cache (some (pick ids logits))).1
            ≡ generate (λ xs. pick xs (m.logits xs)) (some max_context) stop_ids steps
                (ids ++ pick ids logits ∷ []) =
          generate_from-generate max_context stop_ids steps (ids ++ pick ids logits ∷ [])
            (m.decode_step cache (some (pick ids logits))).0
            (m.decode_step cache (some (pick ids logits))).1
            (model.stepped cache ids (pick ids logits) h)
            (model.step_logits cache ids (pick ids logits) h) in
        let same : pick ids logits ≡ pick ids (m.logits ids) = ap (pick ids) e in rw (ih, same) refl

    -- For a model whose cache holds what it computed, the incremental path rejects a prompt that fills
    -- the context, and otherwise returns the same tokens as the path that computes everything again.
    generate_incremental_lem :
        (max_context : ℕ) (stop_ids : List ℕ) (max_new : ℕ) (ids : List ℕ)
        → generate_incremental max_context stop_ids max_new ids ≡ (
            if leb max_context (length ids)
            then err value_error
            else ok
                (generate (λ xs. pick xs (m.logits xs)) (some max_context) stop_ids max_new ids))
    unfolding generate_incremental
    generate_incremental_lem max_context stop_ids max_new ids =
        rw
          (generate_from-generate max_context stop_ids max_new ids (m.prefill ids).0
            (m.prefill ids).1 (model.prefilled ids) (model.prefill_logits ids))
          refl
