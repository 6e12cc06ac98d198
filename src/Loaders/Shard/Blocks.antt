-- ===== src/Loaders/Shard/Blocks.antt =====
-- The quantization blocks of a range that the validation lets through.
use s_llm.Prelude.{
  ℕ, zero, suc, ◌+◌, ◌-◌, ◌*◌, ◌/◌, ◌%◌, ◌≤◌, ◌<◌, ◌≡◌, sym, ap, ◌∙◌, subst, ◌⊎◌, inl, inr, Bool,
  true, List, map, arith, ◌==◌, range_from, ok, >>=-eq-ok, Bool-cases, ==_iff,
}
use native.Mathlib.Nat.{
  div-add-mod, div-eq_of_lt, mul-add-div, le-div_iff_mul-le, add-div_right, mod-lt, div-mul-le_self,
}
use s_llm.Loaders.Shard.{Range, check_range, check_ranges, check_ranks}
use s_llm.Runtime.Planner.{ceiling}

-- The two ways in which a range passes the validation of a quantized tensor.
check_range_cases :
    (block b e : ℕ)
    → check_range block true (b, e) ≡ ok tt
    → (b < e) × ((b % block ≡ 0) ⊎ ((e - 1) / block ≡ b / block))
unfolding check_range
check_range_cases block b e h = ground (arith, h)

-- Within such a range, the block of a row is found by its position in the range.
pub block_offset :
    (block b e i : ℕ)
    → 0 < block
    → check_range block true (b, e) ≡ ok tt
    → b + i < e
    → (b + i) / block ≡ b / block + i / block
block_offset block b e i v h k =
    let (below, how) = check_range_cases block b e h in
    elim how [
      | inl aligned ↦
          let whole : b ≡ block * (b / block) = omega (arith, div-add-mod b block, aligned) in
          ap (λ n. (n + i) / block) whole ∙ mul-add-div v (b / block) i
      | inr inside ↦
          let same : block * ((e - 1) / block) ≡ block * (b / block) = ap (λ q. block * q) inside in
          let short : b % block + i < block =
            omega
              (arith, div-add-mod b block, div-add-mod (e - 1) block, mod-lt (e - 1) v, same, k) in
          let placed : b + i ≡ block * (b / block) + (b % block + i) =
            omega (arith, div-add-mod b block) in
          let alone : i / block ≡ 0 = div-eq_of_lt (omega (arith, short)) in
          ap (λ n. n / block) placed
          ∙ mul-add-div v (b / block) (b % block + i)
          ∙ ap (λ n. b / block + n) (div-eq_of_lt short ∙ sym alone)
    ]

pub block_inside :
    (block b e i : ℕ)
    → 0 < block
    → check_range block true (b, e) ≡ ok tt
    → b + i < e
    → i / block < ceiling e block - b / block
block_inside block b e i v h k =
    let up : (e - 1 + block) / block ≡ (e - 1) / block + 1 = add-div_right (e - 1) v in
    let same : e - 1 + block ≡ e + block - 1 = omega (arith, k) in
    let below : (b + i) / block ≤ (e - 1) / block =
      (le-div_iff_mul-le v).1 (omega (arith, div-mul-le_self (b + i) block, k)) in
    let last : ceiling e block ≡ (e - 1) / block + 1 = ap (λ n. n / block) (sym same) ∙ up in
    omega (arith, last, below, block_offset block b e i v h k)

-- The ranges of every rank have passed the check.
pub check_ranks-map :
    (block : ℕ) (quantized : Bool) (f : ℕ → List Range) (n lo r : ℕ)
    → check_ranks block quantized (map f (range_from lo n)) ≡ ok tt
    → lo ≤ r
    → r < lo + n
    → check_ranges block quantized (f r) ≡ ok tt
unfolding check_ranks
check_ranks-map block quantized f zero lo r h v k = absurd (omega (arith, v, k))
check_ranks-map block quantized f (suc n) lo r h v k =
    let (u, first, rest) = >>=-eq-ok (check_ranges block quantized (f lo)) _ h in
    elim (Bool-cases (r == lo)) [
      | inl here ↦
          subst (λ m. check_ranges block quantized (f m) ≡ ok tt) (sym ((==_iff r lo).0 here)) first
      | inr later ↦
          check_ranks-map block quantized f n (suc lo) r rest (ground arith) (omega (arith, k))
    ]
