-- ===== src/Serving/Bpe/Scan.antt =====
-- The loop over the pairs finds the best of them, and the `while` loop carries out the merges.
use s_llm.Prelude.{
  ℕ, zero, suc, ◌+◌, ◌≤◌, ◌<◌, ◌≡◌, refl, ap, ◌∙◌, subst, ◌⊎◌, inl, inr, Option, none, some, List,
  [], ◌∷◌, arith, ltb, length, Bool-cases, Option-cases,
}
use s_llm.Prelude.Text.{Text}
use s_llm.Serving.Bpe.{Ranks, rank_of, better, best_from, merge_at, merge_loop}
use s_llm.Serving.Bpe.Merging.{pair_rank, IsBest, Merges, finished, merged, length-merge_at}

-- What the scan knows after the pairs of `words`, the first of which stands at `i`: `best` was found
-- before them.
abbrev Found : Ranks → ℕ → Option (ℕ × ℕ) → List Text → Option (ℕ × ℕ) → Type 0
Found rank i best words none = (best ≡ none) × ((j : ℕ) → pair_rank rank j words ≡ none)
Found rank i best words (some (r, k)) =
    ((best ≡ some (r, k)) × ((j s : ℕ) → pair_rank rank j words ≡ some s → r ≤ s))
    ⊎ ((j : ℕ) × (k ≡ i + j)
        × (pair_rank rank j words ≡ some r)
        × ((r0 k0 : ℕ) → best ≡ some (r0, k0) → r < r0)
        × ((h s : ℕ) → pair_rank rank h words ≡ some s → (r ≤ s) × (h < j → r < s)))

unranked-Found :
    (rank : Ranks) (i : ℕ) (best : Option (ℕ × ℕ)) (words : List Text)
    → ((j : ℕ) → pair_rank rank j words ≡ none)
    → Found rank i best words best
unranked-Found rank i none words none_ranked = (refl, none_ranked)
unranked-Found rank i (some (r, k)) words none_ranked =
    inl (refl, λ j s e. absurd (clash (none_ranked j) e))
  where
    clash : {o : Option ℕ} {s : ℕ} → o ≡ none → o ≡ some s → ⊥
    clash e e' = ground arith

-- What one pair changes.
better-none :
    (best : Option (ℕ × ℕ)) (o : Option ℕ) (i : ℕ)
    → better best o i ≡ none
    → (best ≡ none) × (o ≡ none)
better-none none none i h = (refl, refl)
better-none none (some r) i h = ground arith
better-none (some (r, k)) none i h = ground arith
better-none (some (r, k)) (some s) i h = ground arith

better-some :
    (best : Option (ℕ × ℕ)) (o : Option ℕ) (i r k : ℕ)
    → better best o i ≡ some (r, k)
    → ((best ≡ some (r, k)) × ((s : ℕ) → o ≡ some s → r ≤ s))
      ⊎ ((o ≡ some r) × (k ≡ i) × ((r0 k0 : ℕ) → best ≡ some (r0, k0) → r < r0))
better-some none none i r k h = ground arith
better-some none (some s) i r k h = inr (ground arith, ground arith, λ r0 k0 e. ground arith)
better-some (some (r0, k0)) none i r k h = inl (h, λ s e. ground arith)
better-some (some (r0, k0)) (some s) i r k h = elim (Bool-cases (ltb s r0)) [
  | inl lower ↦ inr (ground arith, ground arith, λ r1 k1 e. ground arith)
  | inr higher ↦ inl (ground arith, λ t e. ground arith)
]

better-below :
    (best : Option (ℕ × ℕ)) (o : Option ℕ) (i r : ℕ)
    → ((r0 k0 : ℕ) → better best o i ≡ some (r0, k0) → r < r0)
    → ((r0 k0 : ℕ) → best ≡ some (r0, k0) → r < r0) × ((s : ℕ) → o ≡ some s → r < s)
better-below none none i r low = (low, λ s e. ground arith)
better-below none (some t) i r low = (λ r0 k0 e. ground arith, λ s e. ground (arith, low t i refl))
better-below (some (r1, k1)) none i r low = (low, λ s e. ground arith)
better-below (some (r1, k1)) (some t) i r low = elim (Bool-cases (ltb t r1)) [
  | inl lower ↦ (λ r0 k0 e. ground (arith, low t i), λ s e. ground (arith, low t i))
  | inr higher ↦ (λ r0 k0 e. ground (arith, low r1 k1), λ s e. ground (arith, low r1 k1))
]

next_pair-Found :
    (rank : Ranks) (i : ℕ) (best : Option (ℕ × ℕ)) (a b : Text) (words : List Text)
    (result : Option (ℕ × ℕ))
    → Found rank (suc i) (better best (rank_of rank a b) i) (b ∷ words) result
    → Found rank i best (a ∷ b ∷ words) result
unfolding pair_rank
next_pair-Found rank i best a b words none (e, unranked) =
    let (nothing, here) = better-none best (rank_of rank a b) i e in
    (nothing, elim [ zero ↦ here | suc j ↦ unranked j ])
next_pair-Found rank i best a b words (some (r, k)) (inl (e, least)) =
    elim (better-some best (rank_of rank a b) i r k e) [
      | inl (before, here) ↦ inl (before, elim [ zero ↦ here | suc j ↦ least j ])
      | inr (here, at, low) ↦ inr (
        0,
        omega (arith, at),
        here,
        low,
        elim [
          | zero ↦ λ s e. (ground (arith, here), λ h. omega (arith, h))
          | suc j ↦ λ s e. (least j s e, λ h. omega (arith, h))
        ],
      )
    ]
next_pair-Found rank i best a b words (some (r, k)) (inr (j, at, here, low, least)) =
    let (before, first) = better-below best (rank_of rank a b) i r low in
    inr (
      suc j,
      omega (arith, at),
      here,
      before,
      elim [
        | zero ↦ λ s e. (omega (arith, first s e), λ h. first s e)
        | suc h ↦ λ s e. ((least h s e).0, λ lt. (least h s e).1 (omega (arith, lt)))
      ],
    )

best_from-Found :
    (rank : Ranks) (i : ℕ) (best : Option (ℕ × ℕ)) (words : List Text)
    → Found rank i best words (best_from rank i best words)
unfolding pair_rank
best_from-Found rank i best [] = unranked-Found rank i best [] (elim [ zero ↦ refl | suc j ↦ refl ])
best_from-Found rank i best (a ∷ []) =
    unranked-Found rank i best (a ∷ [])
      (elim [ zero ↦ refl | suc zero ↦ refl | suc (suc j) ↦ refl ])
best_from-Found rank i best (a ∷ b ∷ words) =
    next_pair-Found rank i best a b words _
      (best_from-Found rank (suc i) (better best (rank_of rank a b) i) (b ∷ words))

-- The scan of a whole list.
best_from_start :
    (rank : Ranks) (words : List Text)
    → ((best_from rank 0 none words ≡ none) × ((i : ℕ) → pair_rank rank i words ≡ none))
      ⊎ ((r : ℕ) × (i : ℕ) × (best_from rank 0 none words ≡ some (r, i)) × IsBest rank words i)
best_from_start rank words = elim (Option-cases (best_from rank 0 none words)) [
  | inl nothing ↦
      inl (nothing, (subst (Found rank 0 none words) nothing (best_from-Found rank 0 none words)).1)
  | inr ((r, k), e) ↦ elim (subst (Found rank 0 none words) e (best_from-Found rank 0 none words)) [
    | inl (before, least) ↦ absurd (apart before)
    | inr (j, at, here, low, least) ↦
        inr (r, j, e ∙ ap (λ x. some (r, x)) (omega (arith, at)), (r, here, least))
  ]
]
  where
    apart : {x : ℕ × ℕ} → none ≡ some x → ⊥
    apart h = ground arith

short_unranked :
    (rank : Ranks) (words : List Text) → length words ≤ 1 → (i : ℕ) → pair_rank rank i words ≡ none
unfolding pair_rank
short_unranked rank [] short = elim [ zero ↦ refl | suc j ↦ refl ]
short_unranked rank (a ∷ []) short = elim [ zero ↦ refl | suc zero ↦ refl | suc (suc j) ↦ refl ]
short_unranked rank (a ∷ b ∷ words) short = absurd (omega (arith, short))

-- The `while` loop ends within one pass for each symbol, and has then merged the best pairs.
pub merge_loop-Merges :
    (fuel : ℕ) (rank : Ranks) (words : List Text)
    → length words < fuel
    → (last : List Text) × (merge_loop fuel rank words ≡ some last) × Merges rank words last
unfolding merge_loop
merge_loop-Merges zero rank words enough = absurd (omega (arith, enough))
merge_loop-Merges (suc fuel) rank words enough = elim (Bool-cases (ltb 1 (length words))) [
  | inl many ↦ elim (best_from_start rank words) [
    | inl (e, over) ↦ (words, rw (merge_loop, many, e) refl, finished over)
    | inr (r, i, e, best) ↦
        let shorter = length-merge_at rank i best.0 words best.1 in
        let (last, done, rest) =
          merge_loop-Merges fuel rank (merge_at i words) (omega (arith, shorter, enough)) in
        (last, rw (merge_loop, many, e) done, merged i best rest)
  ]
  | inr few ↦
      (words, rw (merge_loop, few) refl, finished (short_unranked rank words (ground arith)))
]
