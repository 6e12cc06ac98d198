-- ===== src/Runtime/Planner/Fits.antt =====
-- What the planner promises: the planned blocks and sequences fit in the bytes that are available.
use s_llm.Prelude.{
  ℕ, zero, suc, ◌+◌, ◌*◌, ◌/◌, ◌≤◌, ◌<◌, ◌≡◌, refl, ◌⊎◌, inl, inr, true, false, ◌||◌, not, arith,
  ◌==◌, if◌then◌else◌, ok, err, value_error, ℤ, pos, negsuc, Bool-cases,
}
use s_llm.Runtime.Floats.{Float, is_fraction, truncated_product, truncated_product-le}
use s_llm.Runtime.Planner.{
  not_positive, negative, magnitude, plan_block_count, Qwen4Config, qwen4_exp_bytes_per_token,
  qwen4_exp_seq_state_bytes, SequencePlan, sequence_plan, qwen4_exp_plan, DeepseekConfig,
  deepseek_bytes_per_token, deepseek_seq_state_bytes, deepseek_plan,
}
use native.Mathlib.Nat.{mul-div-le, mul_comm, div-lt_iff_lt-mul, le_trans}

-- What fits, and that no more fits.
fits :
    (budget per_item : ℕ)
    → 0 < per_item
    → (budget / per_item * per_item ≤ budget) × (budget < suc (budget / per_item) * per_item)
fits budget per_item v = (
  omega (arith, mul-div-le budget per_item, mul_comm per_item (budget / per_item)),
  (div-lt_iff_lt-mul v).0 (omega arith),
)

-- Below 2 ^ 53 bytes, `plan_block_count` raises `ValueError` exactly for a token size or a block size
-- that is not positive, a negative number of bytes or a utilization outside (0, 1]. Otherwise the
-- blocks fit into the available bytes, and one more block would pass the used part of them.
pub plan_block_count_total :
    (avail token block : ℤ) (u : Float)
    → magnitude avail < 9007199254740992
    → let per_block = magnitude token * magnitude block in
      let invalid =
        (not_positive token || not_positive block) || (negative avail || not (is_fraction u)) in
      ((invalid ≡ true) × (plan_block_count avail token block u ≡ err value_error))
      ⊎ ((invalid ≡ false)
          × (n : ℕ) × (plan_block_count avail token block u ≡ ok n)
          × (n * per_block ≤ magnitude avail)
          × (truncated_product (magnitude avail) u < suc n * per_block))
unfolding plan_block_count
plan_block_count_total a (negsuc t) b u small = inl (refl, refl)
plan_block_count_total a (pos zero) b u small = inl (refl, refl)
plan_block_count_total a (pos (suc t)) (negsuc b) u small = inl (refl, refl)
plan_block_count_total a (pos (suc t)) (pos zero) u small = inl (refl, refl)
plan_block_count_total (negsuc a) (pos (suc t)) (pos (suc b)) u small = inl (refl, refl)
plan_block_count_total (pos a) (pos (suc t)) (pos (suc b)) u small =
    elim (Bool-cases (is_fraction u)) [
      | inr e ↦ inl (rw e refl, rw e refl)
      | inl e ↦
          let (fit, most) = fits (truncated_product a u) (suc t * suc b) (omega arith) in
          inr (rw e refl, _, rw e refl, le_trans fit (truncated_product-le a u small e), most)
    ]

pub sequences_fit :
    (budget per_item : ℕ)
    → let n : ℕ = if per_item == 0 then 0 else budget / per_item in
      (n * per_item ≤ budget) × ((per_item ≡ 0) ⊎ (budget < suc n * per_item))
sequences_fit budget zero = (omega arith, inl refl)
sequences_fit budget (suc m) = elim (Bool-cases (suc m == 0)) [
  | inl e ↦ absurd (ground arith)
  | inr e ↦ let (fit, most) = fits budget (suc m) (omega arith) in rw e (fit, inr most)
]

-- Below 2 ^ 53 bytes, `qwen4_exp_plan` raises `ValueError` exactly for a context that is not positive, a
-- negative number of bytes or a utilization outside (0, 1]. Otherwise the planned sequences, each with
-- its state and its tokens, fit into the available bytes, one more would pass the used part of them
-- unless a sequence takes no bytes, and the total of tokens is that of the sequences.
pub qwen4_exp_plan_total :
    (cfg : Qwen4Config) (avail context : ℤ) (kv_bytes idx_bytes state_bytes : ℕ) (u : Float)
    → magnitude avail < 9007199254740992
    → let plan = qwen4_exp_plan cfg avail context kv_bytes idx_bytes state_bytes u in
      let per_token = qwen4_exp_bytes_per_token cfg kv_bytes idx_bytes in
      let per_sequence =
        qwen4_exp_seq_state_bytes cfg state_bytes + per_token * magnitude context in
      let invalid = not_positive context || (negative avail || not (is_fraction u)) in
      ((invalid ≡ true) × (plan ≡ err value_error))
      ⊎ ((invalid ≡ false)
          × (p : SequencePlan) × (plan ≡ ok p)
          × (p.max_sequences * per_sequence ≤ magnitude avail)
          × ((per_sequence ≡ 0)
              ⊎ (truncated_product (magnitude avail) u < suc p.max_sequences * per_sequence))
          × (p.max_total_tokens ≡ p.max_sequences * magnitude context))
unfolding qwen4_exp_plan
qwen4_exp_plan_total cfg a (negsuc c) kv idx st u small = inl (refl, refl)
qwen4_exp_plan_total cfg a (pos zero) kv idx st u small = inl (refl, refl)
qwen4_exp_plan_total cfg (negsuc a) (pos (suc c)) kv idx st u small = inl (refl, refl)
qwen4_exp_plan_total cfg (pos a) (pos (suc c)) kv idx st u small =
    elim (Bool-cases (is_fraction u)) [
      | inr e ↦ inl (rw e refl, rw e refl)
      | inl e ↦
          let (fit, most) = sequences_fit (truncated_product a u) per_sequence in
          let p : SequencePlan =
            sequence_plan (truncated_product a u) (qwen4_exp_bytes_per_token cfg kv idx)
              (qwen4_exp_seq_state_bytes cfg st) (suc c) in
          inr (rw e refl, p, rw e refl, le_trans fit (truncated_product-le a u small e), most, refl)
    ]
  where
    per_sequence : ℕ
    per_sequence = qwen4_exp_seq_state_bytes cfg st + qwen4_exp_bytes_per_token cfg kv idx * suc c

-- Below 2 ^ 53 bytes, `deepseek_plan` raises `ValueError` exactly for a context that is not positive, a
-- negative number of bytes or a utilization outside (0, 1]. Otherwise the planned sequences, each with
-- its state and its tokens, fit into the available bytes, one more would pass the used part of them
-- unless a sequence takes no bytes, and the total of tokens is that of the sequences.
pub deepseek_plan_total :
    (cfg : DeepseekConfig) (avail context : ℤ) (kv_bytes idx_bytes state_bytes : ℕ) (u : Float)
    → magnitude avail < 9007199254740992
    → let plan = deepseek_plan cfg avail context kv_bytes idx_bytes state_bytes u in
      let per_token = deepseek_bytes_per_token cfg kv_bytes idx_bytes in
      let per_sequence = deepseek_seq_state_bytes cfg state_bytes + per_token * magnitude context in
      let invalid = not_positive context || (negative avail || not (is_fraction u)) in
      ((invalid ≡ true) × (plan ≡ err value_error))
      ⊎ ((invalid ≡ false)
          × (p : SequencePlan) × (plan ≡ ok p)
          × (p.max_sequences * per_sequence ≤ magnitude avail)
          × ((per_sequence ≡ 0)
              ⊎ (truncated_product (magnitude avail) u < suc p.max_sequences * per_sequence))
          × (p.max_total_tokens ≡ p.max_sequences * magnitude context))
unfolding deepseek_plan
deepseek_plan_total cfg a (negsuc c) kv idx st u small = inl (refl, refl)
deepseek_plan_total cfg a (pos zero) kv idx st u small = inl (refl, refl)
deepseek_plan_total cfg (negsuc a) (pos (suc c)) kv idx st u small = inl (refl, refl)
deepseek_plan_total cfg (pos a) (pos (suc c)) kv idx st u small =
    elim (Bool-cases (is_fraction u)) [
      | inr e ↦ inl (rw e refl, rw e refl)
      | inl e ↦
          let (fit, most) = sequences_fit (truncated_product a u) per_sequence in
          let p : SequencePlan =
            sequence_plan (truncated_product a u) (deepseek_bytes_per_token cfg kv idx)
              (deepseek_seq_state_bytes cfg st) (suc c) in
          inr (rw e refl, p, rw e refl, le_trans fit (truncated_product-le a u small e), most, refl)
    ]
  where
    per_sequence : ℕ
    per_sequence = deepseek_seq_state_bytes cfg st + deepseek_bytes_per_token cfg kv idx * suc c
