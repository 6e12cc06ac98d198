-- ===== src/Runtime/Coordinator/Sizes.antt =====
-- `blocks_for_tokens` rounds up to whole blocks.
use native.Mathlib.Nat.{le_trans, mul-le-mul_right, div-lt_iff_lt-mul, div-eq_of_lt-le}
use s_llm.Prelude.{
  ℕ, zero, suc, ◌+◌, ◌-◌, ◌*◌, ◌/◌, ◌≤◌, ◌<◌, ◌≡◌, inl, inr, ◌↔◌, true, arith, ltb, Bool-cases,
  ltb→lt, lt→ltb,
}
use s_llm.Runtime.Coordinator.{blocks_for_tokens}

pub le-blocks_for_tokens : (t bs : ℕ) → 1 ≤ bs → t ≤ blocks_for_tokens t bs * bs
unfolding blocks_for_tokens
le-blocks_for_tokens t bs h = ground arith

pub blocks_for_tokens-le : (t bs k : ℕ) → 1 ≤ bs → t ≤ k * bs → blocks_for_tokens t bs ≤ k
unfolding blocks_for_tokens
blocks_for_tokens-le t bs k h p = elim (Bool-cases (ltb 0 t)) [
  | inr e ↦ rw e (omega arith)
  | inl e ↦
      let few : (t + bs - 1) / bs < suc k = (div-lt_iff_lt-mul h).1 (omega (arith, ltb→lt 0 t e)) in
      rw e (omega (arith, few))
]

-- A whole number of blocks is not rounded.
pub blocks_for_tokens-mul : (w bs : ℕ) → 1 ≤ bs → blocks_for_tokens (w * bs) bs ≡ w
unfolding blocks_for_tokens
blocks_for_tokens-mul zero bs h = ground arith
blocks_for_tokens-mul (suc w) bs h =
    let e : ltb 0 (suc w * bs) ≡ true = lt→ltb _ _ (omega arith) in
    rw e (div-eq_of_lt-le bs {m = suc w * bs + bs - 1} (omega arith) (omega arith))

-- `blocks_for_tokens` is the least number of blocks that hold the tokens.
pub blocks_for_tokens_least :
    (tokens block_size k : ℕ)
    → 1 ≤ block_size
    → (blocks_for_tokens tokens block_size ≤ k) ↔ (tokens ≤ k * block_size)
blocks_for_tokens_least t bs k h = (
  λ p. le_trans (le-blocks_for_tokens t bs h) (mul-le-mul_right bs p),
  blocks_for_tokens-le t bs k h,
)
