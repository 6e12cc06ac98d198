-- ===== src/Tests/Speculation.antt =====
-- runtime/spec.py at concrete inputs.
use s_llm.Prelude.{ℕ, ◌≡◌, refl, none, some, List, [], ◌∷◌, arith, ltb, if◌then◌else◌, length, ok}
use s_llm.Runtime.Spec.{
  last?, generate, verify, settle, draft_tokens, spec_loop, spec_decode_greedy,
  spec_decode_greedy_deepseek,
}
use s_llm.Runtime.Spec.Stop.{
  spec_decode_greedy-generate, spec_decode_greedy_deepseek-generate, stop_drafted_is_emitted,
}

-- A main model that counts up, and a draft head that is right about small lists only.
abbrev count_up : List ℕ → ℕ
count_up ids = length ids

abbrev guess : List ℕ → ℕ
guess ids = if ltb (length ids) 4 then length ids else 0

abbrev guess_block : List ℕ → List ℕ
guess_block ids = length ids ∷ 9 ∷ 9 ∷ []

spec_decode_greedy-generate_example :
    spec_decode_greedy count_up guess (0 ∷ []) 5 2 []
    ≡ some (ok (generate count_up (some 6) [] 5 (0 ∷ [])))
unfolding last?
spec_decode_greedy-generate_example =
    spec_decode_greedy-generate count_up guess 2 5 (some 6) (0 ∷ []) 0 refl (omega arith)
      (omega arith)

spec_runs :
    spec_decode_greedy count_up guess (0 ∷ []) 5 2 [] ≡ some (ok (0 ∷ 1 ∷ 2 ∷ 3 ∷ 4 ∷ 5 ∷ []))
unfolding spec_decode_greedy spec_loop settle verify draft_tokens last?
spec_runs = refl

spec_decode_greedy_deepseek-generate_example :
    spec_decode_greedy_deepseek count_up guess_block 3 (0 ∷ []) 5 none []
    ≡ some (ok (generate count_up (some 6) [] 5 (0 ∷ [])))
unfolding last?
spec_decode_greedy_deepseek-generate_example =
    spec_decode_greedy_deepseek-generate count_up guess_block 3 none 5 (some 6) (0 ∷ []) 0 refl
      (omega arith) (omega arith)

-- The stop id 1 comes first, is drafted, and is emitted.
stop_drafted_is_emitted_example :
    (generate count_up none (1 ∷ []) 5 (0 ∷ []) ≡ 0 ∷ [])
    × (more : List ℕ) × (spec_decode_greedy count_up guess (0 ∷ []) 5 2 (1 ∷ [])
        ≡ some (ok (0 ∷ 1 ∷ more)))
unfolding last?
stop_drafted_is_emitted_example =
    stop_drafted_is_emitted count_up guess (1 ∷ []) 2 5 (0 ∷ []) 0 refl refl refl refl (omega arith)
      (omega arith)

stop_emitted :
    spec_decode_greedy count_up guess (0 ∷ []) 5 2 (1 ∷ []) ≡ some (ok (0 ∷ 1 ∷ 2 ∷ 3 ∷ 4 ∷ 5 ∷ []))
unfolding spec_decode_greedy spec_loop settle verify draft_tokens last?
stop_emitted = refl
