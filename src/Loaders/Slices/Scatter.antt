-- ===== src/Loaders/Slices/Scatter.antt =====
-- The reassembly of a tensor of several segments writes the rows back in their order.
use s_llm.Prelude.{
  ℕ, zero, suc, ◌+◌, ◌-◌, ◌*◌, ◌/◌, ◌≤◌, ◌<◌, ◌≡◌, refl, sym, ap, ◌∙◌, true, List, [], ◌∷◌, ◌++◌,
  map, arith, ◌==◌, length, take, drop, range_from, ok, length-append, take-append-drop,
  length-take, length-drop,
}
use native.Mathlib.Nat.{mul-le-mul_right, add-mul, zero-add}
use mathlib.Core.List.{append-nil, append_assoc}
use s_llm.Loaders.Shard.Ranges.{AllDivide, rank_segments}
use s_llm.Loaders.Shard.{total_size}
use s_llm.Loaders.Slices.{Tensor, slice, slices, assign_rows, scatter_ranks, scatter}
use s_llm.Loaders.Slices.Rows.{drop-drop, take-take-drop}

module _ {ℓ} {B : Type ℓ} where
  pub take-append : (n : ℕ) (xs ys : List B) → length xs ≡ n → take n (xs ++ ys) ≡ xs
  take-append n [] ys h = rw (← h) refl
  take-append zero (x ∷ xs) ys h = absurd (omega (arith, h))
  take-append (suc n) (x ∷ xs) ys h = ap (◌∷◌ x) (take-append n xs ys (omega (arith, h)))

  pub drop-append : (n : ℕ) (xs ys : List B) → length xs ≡ n → drop n (xs ++ ys) ≡ ys
  drop-append n [] ys h = rw (← h) refl
  drop-append zero (x ∷ xs) ys h = absurd (omega (arith, h))
  drop-append (suc n) (x ∷ xs) ys h = drop-append n xs ys (omega (arith, h))

  length-slice : (b e : ℕ) (xs : List B) → e ≤ length xs → length (slice b e xs) ≡ e - b
  length-slice b e xs h = omega (arith, length-take (e - b) (drop b xs), length-drop b xs, h)

  -- The first `b` rows are there, the others are still blank.
  abbrev pub mixed : ℕ → List B → List B → List B
  mixed b xs blank = take b xs ++ drop b blank

  mixed_next :
      (b e : ℕ) (xs blank : List B)
      → b ≤ e
      → e ≤ length xs
      → take b (mixed b xs blank) ++ slice b e xs ++ drop e (mixed b xs blank) ≡ mixed e xs blank
  mixed_next b e xs blank h k =
      let there : b + (e - b) ≡ e = omega (arith, h) in
      let long : length (take b xs) ≡ b = omega (arith, length-take b xs, h, k) in
      let front : take b (mixed b xs blank) ≡ take b xs =
        take-append b (take b xs) (drop b blank) long in
      let back : drop e (mixed b xs blank) ≡ drop e blank =
        ap (λ n. drop n (mixed b xs blank)) (sym there)
        ∙ sym (drop-drop (e - b) b (mixed b xs blank))
        ∙ ap (drop (e - b)) (drop-append b (take b xs) (drop b blank) long)
        ∙ drop-drop (e - b) b blank
        ∙ ap (λ n. drop n blank) there in
      let taken : take b xs ++ slice b e xs ≡ take e xs =
        take-take-drop b (e - b) xs ∙ ap (λ n. take n xs) there in
      ap (λ ys. ys ++ slice b e xs ++ drop e (mixed b xs blank)) front
      ∙ ap (λ ys. take b xs ++ slice b e xs ++ ys) back
      ∙ ap (λ ys. ys ++ drop e blank) taken

module _ {A : Type 0} where
  assign_rows_lem :
      (b e : ℕ) (x out : List (List A))
      → b ≤ e
      → length x ≡ e - b
      → assign_rows b e x out ≡ ok (take b out ++ x ++ drop e out)
  unfolding assign_rows
  assign_rows_lem b e [] out h k =
      let same : e ≡ b = omega (arith, h, k) in
      let none_left : (e - b == 0) ≡ true = ground (arith, k) in
      rw (none_left, same, append-nil) (ap ok (sym (take-append-drop b out)))
  assign_rows_lem b e (x ∷ []) out h k = let one : e - b ≡ 1 = sym k in rw one refl
  assign_rows_lem b e (x ∷ y ∷ xs) out h k =
      let fit : (length (x ∷ y ∷ xs) == e - b) ≡ true = ground (arith, k) in rw fit refl

  -- The ranks from `r` to `r + n` write their slices of one segment.
  module _ (base per P : ℕ) (rows blank : List (List A)) (T : ℕ → Tensor A) where
    scatter_ranks_lem :
        (n r : ℕ)
        → base + (r + n) * per ≤ length rows
        → ((q : ℕ)
            → q < r + n
            → slice P (P + per) (T q).rows ≡ slice (base + q * per) (base + (q + 1) * per) rows)
        → scatter_ranks base per r
            (map (λ q. (T q, P)) (range_from r n))
            (mixed (base + r * per) rows blank)
          ≡ ok (map (λ q. (T q, P + per)) (range_from r n), mixed (base + (r + n) * per) rows blank)
    unfolding scatter_ranks
    scatter_ranks_lem zero r v h = let same : r + 0 ≡ r = omega arith in rw same refl
    scatter_ranks_lem (suc n) r v h =
        let next : r + 1 ≡ suc r = omega arith in
        let last : suc r + n ≡ r + suc n = omega arith in
        let low : r * per ≤ (r + 1) * per = mul-le-mul_right per (omega arith) in
        let high : (r + 1) * per ≤ (r + suc n) * per = mul-le-mul_right per (omega arith) in
        let inside : base + (r + 1) * per ≤ length rows = omega (arith, high, v) in
        let step : assign_rows (base + r * per) (base + (r + 1) * per)
              (slice P (P + per) (T r).rows) (mixed (base + r * per) rows blank)
            ≡ ok (mixed (base + (r + 1) * per) rows blank) =
          ap
            (λ x.
              assign_rows (base + r * per) (base + (r + 1) * per) x
                (mixed (base + r * per) rows blank))
            (h r (omega arith))
          ∙ assign_rows_lem (base + r * per) (base + (r + 1) * per)
              (slice (base + r * per) (base + (r + 1) * per) rows)
              (mixed (base + r * per) rows blank) (omega (arith, low))
              (length-slice (base + r * per) (base + (r + 1) * per) rows inside)
          ∙ ap ok (
              mixed_next (base + r * per) (base + (r + 1) * per) rows blank (omega (arith, low))
                inside) in
        let ih : scatter_ranks base per (suc r) (map (λ q. (T q, P)) (range_from (suc r) n))
              (mixed (base + suc r * per) rows blank)
            ≡ ok (
              map (λ q. (T q, P + per)) (range_from (suc r) n),
              mixed (base + (suc r + n) * per) rows blank,
            ) =
          scatter_ranks_lem n (suc r) (rw last v) (λ q k. h q (omega (arith, k))) in
        rw (step, next, ih, last) refl

  -- The shard of a rank stands before and after its part of the segments from `base` on.
  pub scatter_lem :
      (tp : ℕ) (rows blank : List (List A)) (T : ℕ → Tensor A) (segs : List (ℕ × ℕ)) (base P : ℕ)
      (pre : ℕ → List (List A))
      → base + total_size segs ≡ length rows
      → AllDivide tp segs
      → ((q : ℕ) → q < tp → (T q).rows ≡ pre q ++ slices (rank_segments tp q base segs) rows)
      → ((q : ℕ) → q < tp → length (pre q) ≡ P)
      → scatter tp base segs (map (λ q. (T q, P)) (range_from 0 tp)) (mixed base rows blank)
        ≡ ok (mixed (length rows) rows blank)
  unfolding scatter
  scatter_lem tp rows blank T [] base P pre v d h k =
      let same : base ≡ length rows = omega (arith, v) in rw same refl
  scatter_lem tp rows blank T ((size, unit) ∷ segs) base P pre v (w, d) h k =
      let start : base + 0 * per ≡ base = omega arith in
      let all_ranks : (0 + tp) * per ≡ size = ap (λ n. n * per) (zero-add tp) ∙ w in
      let step : scatter_ranks base per 0 (map (λ q. (T q, P)) (range_from 0 tp))
            (mixed base rows blank)
          ≡ ok (map (λ q. (T q, P + per)) (range_from 0 tp), mixed (base + size) rows blank) =
        ap
          (λ m.
            scatter_ranks base per 0 (map (λ q. (T q, P)) (range_from 0 tp)) (mixed m rows blank))
          (sym start)
        ∙ scatter_ranks_lem base per P rows blank T tp 0 (omega (arith, all_ranks, v))
            (λ q below. written q (omega (arith, below)))
        ∙ ap (λ m. ok (map (λ q. (T q, P + per)) (range_from 0 tp), mixed (base + m) rows blank))
            all_ranks in
      rw step (
        scatter_lem tp rows blank T segs (base + size) (P + per) (λ q. pre q ++ part q)
          (omega (arith, v)) d
          (λ q below.
            h q below
            ∙ sym (
                append_assoc (pre q) (part q)
                  (slices (rank_segments tp q (base + size) segs) rows)))
          (λ q below.
            omega (arith, length-append (pre q) (part q), k q below, length-part q below)))
    where
      per : ℕ
      per = size / tp

      part : ℕ → List (List A)
      part q = slice (base + q * per) (base + (q + 1) * per) rows

      length-part : (q : ℕ) → q < tp → length (part q) ≡ per
      length-part q below =
          let some_ranks : (q + 1) * per ≤ tp * per = mul-le-mul_right per (omega (arith, below)) in
          omega (
            arith,
            length-slice (base + q * per) (base + (q + 1) * per) rows
                (omega (arith, some_ranks, w, v)),
            add-mul q 1 per,
          )

      written : (q : ℕ) → q < tp → slice P (P + per) (T q).rows ≡ part q
      written q below =
          let wide : P + per - P ≡ per = omega arith in
          ap (slice P (P + per)) (h q below)
          ∙ ap (take (P + per - P)) (
              drop-append P (pre q) (part q ++ slices (rank_segments tp q (base + size) segs) rows)
                (k q below))
          ∙ ap (λ n. take n (part q ++ slices (rank_segments tp q (base + size) segs) rows)) wide
          ∙ take-append per (part q) (slices (rank_segments tp q (base + size) segs) rows)
              (length-part q below)
