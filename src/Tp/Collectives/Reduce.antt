-- ===== src/Tp/Collectives/Reduce.antt =====
-- What a reduction gives: the sum of the partials, or an error when their shapes differ.
use s_llm.Prelude.{
  ◌≡◌, refl, inl, inr, Bool, true, List, [], ◌∷◌, if◌then◌else◌, all, ok, err, collectives_error,
  Bool-cases,
}
use s_llm.Tp.Collectives.{reduce_loop, all_reduce_partials}

module _ {A : Type 0} (same_shape : A → A → Bool) (as_double : A → A) (add : A → A → A)
    (cast_like : A → A → A) where
  -- The sum of a list of arrays, from the left.
  abbrev pub sum_from : A → List A → A
  sum_from out [] = out
  sum_from out (p ∷ ps) = sum_from (add out p) ps

  abbrev pub all_shaped : A → List A → Bool
  all_shaped out ps = all (λ p. same_shape p out) ps

  module _
      (keeps : (p q r : A) → same_shape r q ≡ true → same_shape p (add q r) ≡ same_shape p q) where
    all_shaped-add :
        (out r : A) (ps : List A)
        → same_shape r out ≡ true
        → all_shaped (add out r) ps ≡ all_shaped out ps
    all_shaped-add out r [] h = refl
    all_shaped-add out r (p ∷ ps) h = rw (keeps p out r h, all_shaped-add out r ps h) refl

    reduce_loop_sum :
        (out : A) (ps : List A)
        → reduce_loop same_shape as_double add cast_like out ps
          ≡ (if all_shaped out ps then ok (sum_from out ps) else err collectives_error)
    unfolding reduce_loop
    reduce_loop_sum out [] = refl
    reduce_loop_sum out (p ∷ ps) = elim (Bool-cases (same_shape p out)) [
      | inl e ↦ rw (e, reduce_loop_sum (add out p) ps, all_shaped-add out p ps e) refl
      | inr e ↦ rw e refl
    ]

    -- `all_reduce_partials` of partials of one shape is their sum, in the type of the first, and a
    -- `CollectivesError` when the shapes differ, provided that the sum of two arrays of one shape has
    -- that shape.
    all_reduce_partials_sum :
        (x : A) (xs : List A)
        → all_reduce_partials same_shape as_double add cast_like (x ∷ xs) ≡ (
            if all_shaped (as_double x) xs
            then ok (cast_like x (sum_from (as_double x) xs))
            else err collectives_error)
    unfolding all_reduce_partials
    all_reduce_partials_sum x xs = elim (Bool-cases (all_shaped (as_double x) xs)) [
      | inl e ↦ rw (reduce_loop_sum (as_double x) xs, e) refl
      | inr e ↦ rw (reduce_loop_sum (as_double x) xs, e) refl
    ]
