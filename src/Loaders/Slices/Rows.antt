-- ===== src/Loaders/Slices/Rows.antt =====
-- The even slices of a list, and the rows that are put together again.
use s_llm.Prelude.{
  ℕ, zero, suc, ◌+◌, ◌-◌, ◌*◌, ◌≤◌, ◌≡◌, refl, sym, ap, ◌∙◌, List, [], ◌∷◌, ◌++◌, map, arith,
  length, take, drop, range_from, ok, ==_refl,
}
use native.Mathlib.Nat.{zero-add, suc-add, mul-le-mul_right}
use mathlib.Core.List.{append-nil}
use s_llm.Loaders.Slices.{Tensor, slice, cut_rows, concat_rows}

module _ {ℓ} {B : Type ℓ} where
  drop-nil : (n : ℕ) → drop {A = B} n [] ≡ []
  drop-nil zero = refl
  drop-nil (suc n) = refl

  pub take-nil : (n : ℕ) → take {A = B} n [] ≡ []
  take-nil zero = refl
  take-nil (suc n) = refl

  pub drop-drop : (a b : ℕ) (xs : List B) → drop a (drop b xs) ≡ drop (b + a) xs
  drop-drop a zero xs = rw zero-add refl
  drop-drop a (suc b) [] = rw (suc-add b a) (drop-nil a)
  drop-drop a (suc b) (x ∷ xs) = rw (suc-add b a) (drop-drop a b xs)

  pub take-take-drop : (a c : ℕ) (xs : List B) → take a xs ++ take c (drop a xs) ≡ take (a + c) xs
  take-take-drop zero c xs = rw zero-add refl
  take-take-drop (suc a) c [] = rw (suc-add a c, take-nil c) refl
  take-take-drop (suc a) c (x ∷ xs) = rw (suc-add a c) (ap (◌∷◌ x) (take-take-drop a c xs))

  -- Two slices that meet.
  pub slice-slice :
      (a b c : ℕ) (xs : List B) → a ≤ b → b ≤ c → slice a b xs ++ slice b c xs ≡ slice a c xs
  slice-slice a b c xs h k =
      let there : a + (b - a) ≡ b = omega (arith, h) in
      let whole : (b - a) + (c - b) ≡ c - a = omega (arith, h, k) in
      ap (λ n. take (b - a) (drop a xs) ++ take (c - b) (drop n xs)) (sym there)
      ∙ ap (λ ys. take (b - a) (drop a xs) ++ take (c - b) ys) (sym (drop-drop (b - a) a xs))
      ∙ take-take-drop (b - a) (c - b) (drop a xs)
      ∙ ap (λ n. take n (drop a xs)) whole

  pub take_all : (n : ℕ) (xs : List B) → length xs ≤ n → take n xs ≡ xs
  take_all zero [] h = refl
  take_all zero (x ∷ xs) h = absurd (omega (arith, h))
  take_all (suc n) [] h = refl
  take_all (suc n) (x ∷ xs) h = ap (◌∷◌ x) (take_all n xs (omega (arith, h)))

-- `concat_rows` of even slices, from rank `r` to rank `r + n`.
module _ {A : Type 0} (t : Tensor A) (per : ℕ) where
  abbrev pub even_rows : ℕ → ℕ → List (Tensor A)
  even_rows r n = map (λ q. cut_rows t ((q * per, (q + 1) * per) ∷ [])) (range_from r n)

  pub concat-even_rows :
      (n r : ℕ)
      → concat_rows (even_rows r (suc n))
        ≡ ok (record { rows = slice (r * per) ((r + suc n) * per) t.rows; width = t.width })
  unfolding concat_rows
  concat-even_rows zero r = rw append-nil refl
  concat-even_rows (suc n) r =
      let next : r + 1 ≡ suc r = omega arith in
      let last : suc r + suc n ≡ r + suc (suc n) = omega arith in
      let joined : (slice (r * per) ((r + 1) * per) t.rows ++ [])
            ++ slice (suc r * per) ((suc r + suc n) * per) t.rows
          ≡ slice (r * per) ((r + suc (suc n)) * per) t.rows =
        rw (append-nil, next, last)
          (slice-slice (r * per) (suc r * per) ((r + suc (suc n)) * per) t.rows
            (mul-le-mul_right per (omega arith)) (mul-le-mul_right per (omega arith))) in
      rw (concat-even_rows n (suc r), ==_refl t.width)
        (ap (λ xs. ok (record { rows = xs; width = t.width })) joined)
