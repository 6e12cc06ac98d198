-- ===== src/Loaders/Shard/Ranges.antt =====
-- The ranges that the ranks get.
use s_llm.Prelude.{
  ℕ, zero, suc, ◌+◌, ◌*◌, ◌/◌, ◌%◌, ◌≤◌, ◌<◌, ◌≡◌, refl, sym, ap, ◌∙◌, List, [], ◌∷◌, map, arith,
  ◌==◌, range_from, ok, >>=-eq-ok, ok_inj, checked, shard_error, ==_iff,
}
use native.Mathlib.Nat.{div-add-mod, zero-add}
use s_llm.Loaders.Shard.{
  vocab, split_out, split_in, Range, even_ranges, singly, col_ranges, plan_ranges, segment_ranges,
  item, segments_of, each_of, rank_row_ranges, total_size,
}

-- Every segment consists of as many parts as there are ranks.
abbrev pub AllDivide : ℕ → List (ℕ × ℕ) → Type 0
AllDivide tp [] = Unit
AllDivide tp ((size, unit) ∷ segs) = (tp * (size / tp) ≡ size) × AllDivide tp segs

-- The part of each segment that belongs to a rank.
abbrev pub rank_segments : ℕ → ℕ → ℕ → List (ℕ × ℕ) → List Range
rank_segments tp r base [] = []
rank_segments tp r base ((size, unit) ∷ segs) =
    (base + r * (size / tp), base + (r + 1) * (size / tp)) ∷ rank_segments tp r (base + size) segs

pub segment_ranges_even :
    (tp size unit : ℕ) (rs : List Range)
    → segment_ranges tp size unit ≡ ok rs
    → (rs ≡ even_ranges tp (size / tp)) × (tp * (size / tp) ≡ size) × (size / tp % unit ≡ 0)
unfolding segment_ranges
segment_ranges_even tp size unit rs h = ground (arith, div-add-mod size tp)

pub item-map {ℓ} :
    {A : Type ℓ} (f : ℕ → A) (n lo i : ℕ)
    → i < n
    → item (map f (range_from lo n)) i ≡ ok (f (lo + i))
item-map f zero lo i h = absurd (omega (arith, h))
item-map f (suc n) lo zero h = let same : lo + 0 ≡ lo = omega arith in rw same refl
item-map f (suc n) lo (suc i) h =
    let same : suc lo + i ≡ lo + suc i = omega arith in
    item-map f n (suc lo) i (omega (arith, h)) ∙ ap (λ k. ok (f k)) same

pub segments_of_lem :
    (tp r base : ℕ) (segs : List (ℕ × ℕ)) (rr : List Range)
    → r < tp
    → segments_of tp r base segs ≡ ok rr
    → (rr ≡ rank_segments tp r base segs) × AllDivide tp segs
unfolding segments_of
segments_of_lem tp r base [] rr v h = ground (arith, h)
segments_of_lem tp r base ((size, unit) ∷ segs) rr v h =
    let (ranges, e1, h1) = >>=-eq-ok (segment_ranges tp size unit) _ h in
    let (x, e2, h2) = >>=-eq-ok (item ranges r) _ h1 in
    let (rest, e3, h3) = >>=-eq-ok (segments_of tp r (base + size) segs) _ h2 in
    let (even, whole, _) = segment_ranges_even tp size unit ranges e1 in
    let (same, divide) = segments_of_lem tp r (base + size) segs rest v e3 in
    let mine : x ≡ (r * (size / tp), (r + 1) * (size / tp)) = ok_inj (
      sym e2
      ∙ ap (λ xs. item xs r) even
      ∙ item-map _ tp 0 r v
      ∙ ap (λ k. ok (k * (size / tp), (k + 1) * (size / tp))) (zero-add r)) in
    (sym (ok_inj h3) ∙ rw (mine, same) refl, (whole, divide))

pub each_of_lem :
    (tp : ℕ) (segs : List (ℕ × ℕ)) (n lo : ℕ) (rrs : List (List Range))
    → lo + n ≤ tp
    → each_of (range_from lo n) (λ r. segments_of tp r 0 segs) ≡ ok rrs
    → rrs ≡ map (λ r. rank_segments tp r 0 segs) (range_from lo n)
unfolding each_of
each_of_lem tp segs zero lo rrs v h = sym (ok_inj h)
each_of_lem tp segs (suc n) lo rrs v h =
    let (rr, e1, h1) = >>=-eq-ok (segments_of tp lo 0 segs) _ h in
    let (rest, e2, h2) = >>=-eq-ok (each_of (range_from (suc lo) n) _) _ h1 in
    let (mine, _) = segments_of_lem tp lo 0 segs rr (omega (arith, v)) e1 in
    let others : rest ≡ map (λ r. rank_segments tp r 0 segs) (range_from (suc lo) n) =
      each_of_lem tp segs n (suc lo) rest (omega (arith, v)) e2 in
    sym (ok_inj h2) ∙ rw (mine, others) refl

-- Where `rank_row_ranges` succeeds, every rank has its part of every segment.
pub rank_row_ranges_lem :
    (tp : ℕ) (segs : List (ℕ × ℕ)) (rrs : List (List Range))
    → 0 < tp
    → rank_row_ranges tp segs ≡ ok rrs
    → (rrs ≡ map (λ r. rank_segments tp r 0 segs) (range_from 0 tp)) × AllDivide tp segs
unfolding each_of
rank_row_ranges_lem zero segs rrs v h = absurd (omega (arith, v))
rank_row_ranges_lem (suc n) segs rrs v h =
    let (rr, e1, h1) = >>=-eq-ok (segments_of (suc n) 0 0 segs) _ h in
    let (_, divide) = segments_of_lem (suc n) 0 0 segs rr v e1 in
    (each_of_lem (suc n) segs (suc n) 0 rrs (omega arith) h, divide)

-- What the ranges of a plan are, where they exist.
pub plan_ranges-vocab :
    (tp height width : ℕ) (rrs : List (List Range))
    → plan_ranges tp vocab height width ≡ ok rrs
    → (rrs ≡ singly (even_ranges tp (height / tp))) × (tp * (height / tp) ≡ height)
unfolding plan_ranges
plan_ranges-vocab tp height width rrs h = ground (arith, div-add-mod height tp)

pub plan_ranges-split_in :
    (tp size unit height width : ℕ) (rrs : List (List Range))
    → plan_ranges tp (split_in size unit) height width ≡ ok rrs
    → (rrs ≡ singly (even_ranges tp (size / tp))) × (tp * (size / tp) ≡ size) × (size ≡ width)
unfolding plan_ranges
plan_ranges-split_in tp size unit height width rrs h =
    let (same, h1) = checked (size == width) shard_error (col_ranges tp size unit) rrs h in
    let (ranges, e, h2) = >>=-eq-ok (segment_ranges tp size unit) _ h1 in
    let (even, whole, _) = segment_ranges_even tp size unit ranges e in
    (sym (ok_inj h2) ∙ ap singly even, whole, (==_iff size width).0 same)

pub plan_ranges-split_out :
    (tp : ℕ) (segs : List (ℕ × ℕ)) (height width : ℕ) (rrs : List (List Range))
    → 0 < tp
    → plan_ranges tp (split_out segs) height width ≡ ok rrs
    → (rrs ≡ map (λ r. rank_segments tp r 0 segs) (range_from 0 tp))
      × AllDivide tp segs
      × (total_size segs ≡ height)
unfolding plan_ranges
plan_ranges-split_out tp segs height width rrs v h =
    let (same, h1) =
      checked (total_size segs == height) shard_error (rank_row_ranges tp segs) rrs h in
    let (ranges, divide) = rank_row_ranges_lem tp segs rrs v h1 in
    (ranges, divide, (==_iff (total_size segs) height).0 same)
