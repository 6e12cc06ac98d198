-- ===== src/Serving/Model.antt =====
-- What serving/executor.py calls of a model and of the sampler, which are numeric code. A token id is a
-- natural number, `L` holds the logits of one row, `C` is the cache of a model, `G` the state of a
-- random generator and `R` the floating-point numbers.
use s_llm.Prelude.{ℕ, ◌≡◌, Bool, Option, some, List, [], ◌∷◌, ◌++◌}

-- The last row of `logits` and of `prefill`, and `decode_step`, which changes its cache.
pub record Calls (L C : Type 0) : Type 0 where
  pub logits : List ℕ → L
  pub prefill : List ℕ → C × L
  pub decode_step : C → Option ℕ → C × L

-- The functions of the sampler, and the tests `x == 1.0` and `x <= 0`.
pub record Sampler (L G R : Type 0) : Type 0 where
  pub is_one : R → Bool
  pub not_positive : R → Bool
  pub penalized : L → List ℕ → R → L
  pub greedy : L → ℕ
  pub sample : L → Option R → Option ℕ → Option R → G → ℕ × G

-- What an incremental model promises: where a cache holds some tokens, one step adds a token to it and
-- computes the logits that a run over all tokens computes.
pub record Incremental {L C : Type 0} (m : Calls L C) (Holds : C → List ℕ → Type 0) : Type 0 where
  pub prefilled : (ids : List ℕ) → Holds (m.prefill ids).0 ids
  pub prefill_logits : (ids : List ℕ) → (m.prefill ids).1 ≡ m.logits ids
  pub stepped :
      (c : C) (ids : List ℕ) (t : ℕ)
      → Holds c ids
      → Holds (m.decode_step c (some t)).0 (ids ++ t ∷ [])
  pub step_logits :
      (c : C) (ids : List ℕ) (t : ℕ)
      → Holds c ids
      → (m.decode_step c (some t)).1 ≡ m.logits (ids ++ t ∷ [])
