-- ===== src/Loaders/Slices/Columns.antt =====
-- The columns that are put together again.
use s_llm.Prelude.{
  ℕ, zero, suc, ◌+◌, ◌-◌, ◌*◌, ◌≡◌, refl, ap, true, List, [], ◌∷◌, ◌++◌, map, arith, ◌==◌, length,
  range_from, ok, ==_refl,
}
use native.Mathlib.Nat.{mul-le-mul_right, add-mul}
use mathlib.Core.List.{append-nil}
use s_llm.Loaders.Slices.{Tensor, slice, slices, cut_cols, beside, concat_cols}
use s_llm.Loaders.Slices.Rows.{slice-slice}

pub length-map {ℓ κ} :
    {A : Type ℓ} {B : Type κ} (f : A → B) (xs : List A) → length (map f xs) ≡ length xs
length-map f [] = refl
length-map f (x ∷ xs) = ap suc (length-map f xs)

pub map_ext {ℓ κ} :
    {A : Type ℓ} {B : Type κ} (f g : A → B) (xs : List A)
    → ((x : A) → f x ≡ g x)
    → map f xs ≡ map g xs
map_ext f g [] h = refl
map_ext f g (x ∷ xs) h = rw (h x, map_ext f g xs h) refl

beside-map {ℓ κ} :
    {A : Type ℓ} {B : Type κ} (f g h : A → List B) (xs : List A)
    → ((x : A) → f x ++ g x ≡ h x)
    → beside (map f xs) (map g xs) ≡ map h xs
beside-map f g h [] e = refl
beside-map f g h (x ∷ xs) e = rw (e x, beside-map f g h xs e) refl

-- `concat_cols` of even slices, from rank `r` to rank `r + n`.
module _ {A : Type 0} (t : Tensor A) (per : ℕ) where
  abbrev pub even_cols : ℕ → ℕ → List (Tensor A)
  even_cols r n = map (λ q. cut_cols t ((q * per, (q + 1) * per) ∷ [])) (range_from r n)

  abbrev pub column_slice : ℕ → ℕ → Tensor A
  column_slice r n = record { rows = map (slice (r * per) ((r + n) * per)) t.rows; width = n * per }

  one_width : (r : ℕ) → ((r + 1) * per - r * per) + 0 ≡ per
  one_width r = omega (arith, add-mul r 1 per)

  pub concat-even_cols : (n r : ℕ) → concat_cols (even_cols r (suc n)) ≡ ok (column_slice r (suc n))
  unfolding concat_cols
  concat-even_cols zero r =
      let one : 1 * per ≡ per = omega arith in
      let rows_are : map (slices ((r * per, (r + 1) * per) ∷ [])) t.rows
          ≡ map (slice (r * per) ((r + 1) * per)) t.rows =
        map_ext _ _ t.rows (λ x. append-nil (slice (r * per) ((r + 1) * per) x)) in
      rw (rows_are, one_width r, one) refl
  concat-even_cols (suc n) r =
      let next : r + 1 ≡ suc r = omega arith in
      let last : suc r + suc n ≡ r + suc (suc n) = omega arith in
      let joined : beside (map (slices ((r * per, (r + 1) * per) ∷ [])) t.rows)
            (map (slice (suc r * per) ((suc r + suc n) * per)) t.rows)
          ≡ map (slice (r * per) ((r + suc (suc n)) * per)) t.rows =
        beside-map _ _ _ t.rows (λ x.
          rw (append-nil, next, last)
            (slice-slice (r * per) (suc r * per) ((r + suc (suc n)) * per) x
              (mul-le-mul_right per (omega arith)) (mul-le-mul_right per (omega arith)))) in
      let wide : ((r + 1) * per - r * per) + 0 + suc n * per ≡ suc (suc n) * per =
        omega (arith, one_width r, add-mul 1 (suc n) per) in
      let heights : (length (map (slices ((r * per, (r + 1) * per) ∷ [])) t.rows)
            == length (map (slice (suc r * per) ((suc r + suc n) * per)) t.rows))
          ≡ true =
        rw (length-map, length-map) (==_refl (length t.rows)) in
      rw (concat-even_cols n (suc r), heights)
        (ap (λ (x : List (List A) × ℕ). ok (record { rows = x.0; width = x.1 }))
          (rw (joined, wide) refl))
