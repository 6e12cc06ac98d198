-- ===== src/Runtime/Placement/Budget.antt =====
-- The budget that a plan stands for, and what its backend reserves of it.
use s_llm.Prelude.{
  ℕ, ◌*◌, ◌≤◌, ◌<◌, ◌≡◌, refl, ap, ◌∙◌, subst, ◌⊎◌, inl, inr, true, Option, List, arith, ok, err,
  value_error, Bool-cases,
}
use s_llm.Runtime.Floats.{is_fraction, truncated_product, truncated_product-le}
use s_llm.Runtime.Planner.Fits.{sequences_fit}
use s_llm.Runtime.Placement.{
  make_backend, Recipe, KvMemoryPlan, sized_plan, make_plan, is_unknown, plan_from_recipe,
  budget_of_recipe, element_bytes, kv_bytes_per_token,
}
use s_llm.Runtime.Placement.Reserve.{
  reserved, Use, after_uses, after_uses-IsSized, make_backend-IsSized,
}
use native.Mathlib.Nat.{mul-le-mul_right, le_trans, mul_assoc, mul_comm}

-- A plan from a recipe fails only for an unknown placement. Otherwise it charges 4 bytes for an
-- element on the device and 2 elsewhere, and its tokens fit in its budget, which is below 2 ^ 53
-- bytes with a utilization in (0, 1].
pub plan_from_recipe_total :
    (recipe : Recipe) (block : ℕ) (avail : Option ℕ)
    → is_fraction recipe.memory.kv_utilization ≡ true
    → budget_of_recipe recipe.memory avail < 9007199254740992
    → let placement = recipe.memory.kv_placement in
      ((is_unknown placement ≡ true) × (plan_from_recipe recipe block avail ≡ err value_error))
      ⊎ ((p : KvMemoryPlan) × (plan_from_recipe recipe block avail ≡ ok p)
          × (p.bytes_per_token ≡ kv_bytes_per_token recipe (element_bytes placement))
          × (p.budget_bytes ≡ budget_of_recipe recipe.memory avail)
          × (p.block_size ≡ block)
          × (p.max_tokens ≡ p.num_blocks * block)
          × (p.max_tokens * p.bytes_per_token ≤ p.budget_bytes))
unfolding plan_from_recipe make_plan
plan_from_recipe_total recipe block avail frac small =
    elim (Bool-cases (is_unknown recipe.memory.kv_placement)) [
      | inl e ↦ inl (e, rw e refl)
      | inr e ↦
          inr (made, rw e refl, refl, refl, refl, refl, omega (arith, regroup, le_trans fit used))
    ]
  where
    made : KvMemoryPlan
    made =
        sized_plan recipe.memory.kv_placement recipe.memory.kv_utilization
          (kv_bytes_per_token recipe (element_bytes recipe.memory.kv_placement))
          (budget_of_recipe recipe.memory avail) block

    fit :
        made.num_blocks * (made.bytes_per_token * block)
        ≤ truncated_product made.budget_bytes made.utilization
    fit =
        (sequences_fit (truncated_product made.budget_bytes made.utilization)
          (made.bytes_per_token * block)).0

    used : truncated_product made.budget_bytes made.utilization ≤ made.budget_bytes
    used = truncated_product-le made.budget_bytes made.utilization small frac

    regroup :
        made.num_blocks * block * made.bytes_per_token
        ≡ made.num_blocks * (made.bytes_per_token * block)
    regroup =
        mul_assoc made.num_blocks block made.bytes_per_token
        ∙ ap (λ m. made.num_blocks * m) (mul_comm block made.bytes_per_token)

-- Whatever is reserved and released on the backend of a recipe's plan, the reserved blocks never take
-- more bytes than the budget, which is below 2 ^ 53 bytes with a utilization in (0, 1].
pub reserved_within_budget :
    (recipe : Recipe) (block : ℕ) (avail : Option ℕ) (p : KvMemoryPlan) (us : List Use)
    → is_fraction recipe.memory.kv_utilization ≡ true
    → budget_of_recipe recipe.memory avail < 9007199254740992
    → plan_from_recipe recipe block avail ≡ ok p
    → reserved (after_uses (make_backend p) us).blocks * block * p.bytes_per_token
      ≤ budget_of_recipe recipe.memory avail
reserved_within_budget recipe block avail p us frac small e =
    elim (plan_from_recipe_total recipe block avail frac small) [
      | inl (_, f) ↦ absurd (ground (arith, e, f))
      | inr (p', f, _, budget, _, tokens, fit) ↦
          let (same, w) = after_uses-IsSized (make_backend p) us (make_backend-IsSized p) in
          let most : reserved (after_uses (make_backend p) us).blocks ≤ p.num_blocks =
            omega (arith, w.sized, ap (λ m. m.num_blocks) same) in
          let plans : p' ≡ p = ground (arith, e, f) in
          let within : p'.num_blocks * block * p'.bytes_per_token
              ≤ budget_of_recipe recipe.memory avail =
            subst (λ m. m * p'.bytes_per_token ≤ budget_of_recipe recipe.memory avail) tokens
              (subst (λ m. p'.max_tokens * p'.bytes_per_token ≤ m) budget fit) in
          le_trans (mul-le-mul_right p.bytes_per_token (mul-le-mul_right block most)) (
            subst
              (λ m. m.num_blocks * block * m.bytes_per_token ≤ budget_of_recipe recipe.memory avail)
              plans within)
    ]
