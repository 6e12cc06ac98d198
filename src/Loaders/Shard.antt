-- ===== src/Loaders/Shard.antt =====
-- The sharding classes of loaders/tp_shard.py: ranges, validation, slicing and reassembly. The two
-- classes have the same methods for these but for what is said below, and differ in `plan_for` and in
-- the number of experts, which are fields of `Sharding`. A tensor that is cut is the list of its rows; axes
-- behind the second are flattened into a row, and a vector is a column. The validation reads a shape of
-- any number of axes. `cfg` and `tp` have passed the constructor, so that `tp` is above 1.
pub mod Ranges
pub mod Blocks
pub mod Errors
use Prim.Native.String.{String}
use s_llm.Prelude.{
  ℕ, zero, suc, ◌+◌, ◌-◌, ◌*◌, ◌/◌, ◌%◌, ◌^◌, ◌≤◌, ◌<◌, ◌≡◌, ◌≢◌, refl, sym, ap, ◌∙◌, subst, min,
  ◌⊎◌, inl, inr, ◌↔◌, Bool, true, false, ◌&&◌, ◌||◌, not, Option, none, some, List, [], ◌∷◌, ◌++◌,
  map, arith, ltb, leb, ◌==◌, if◌then◌else◌, bit, length, take, drop, replicate, keep, all, count,
  member, sum, range_from, Outcome, returns, raises, state_of, Result, ok, err, ◌>>=◌, Error,
  value_error, key_error, index_error, out_of_capacity, collectives_error, shard_error,
  runtime_error, zero_division_error, ℤ, pos, negsuc, Bool-cases, Option-cases, leb→le, le→leb,
  ltb→lt, lt→ltb, ==_refl, ==_iff, length-append, take-append-drop, length-take, length-drop,
  count-append, count-split, length-range_from, count-range_from,
}
use s_llm.Prelude.Dict.{
  Dict, lookup, put, without, has, Distinct, lookup-put, lookup-without, put-Distinct,
  without-Distinct, without_missing, length-put_missing, length-put_present, length-without,
  without-put_missing,
}

-- `TensorPlan`: the kinds "replicated" and "experts", "split_out" with its segments of a size and a
-- unit, or with the one segment `(None, 1)` (`vocab`), and "split_in" with its one segment.
pub data TensorPlan : Type 0 where
  replicated vocab : TensorPlan
  split_out : List (ℕ × ℕ) → TensorPlan
  split_in : ℕ → ℕ → TensorPlan
  experts : ℕ → TensorPlan

pub record Sharding : Type 0 where
  pub tp : ℕ
  pub block : ℕ
  pub num_experts : ℕ
  pub plan_for : String → TensorPlan

abbrev pub Range : Type 0
Range = ℕ × ℕ

-- `[(r * per, (r + 1) * per) for r in range(self.tp)]`
abbrev pub even_ranges : ℕ → ℕ → List Range
even_ranges tp per = map (λ r. (r * per, (r + 1) * per)) (range_from 0 tp)

unfoldable pub segment_ranges : ℕ → ℕ → ℕ → Result (List Range)
segment_ranges tp size unit =
    let per = size / tp in
    if not (size % tp == 0)
    then err shard_error
    else if unit == 0
    then err zero_division_error
    else if not (per % unit == 0)
    then err shard_error
    else ok (even_ranges tp per)

-- `xs[i]`
abbrev pub item {ℓ} : {A : Type ℓ} → List A → ℕ → Result A
item [] i = err index_error
item (x ∷ xs) zero = ok x
item (x ∷ xs) (suc i) = item xs i

-- The segments of one rank, from `base` on.
unfoldable pub segments_of : ℕ → ℕ → ℕ → List (ℕ × ℕ) → Result (List Range)
segments_of tp r base [] = ok []
segments_of tp r base ((size, unit) ∷ segs) = segment_ranges tp size unit >>= λ ranges.
    item ranges r >>= λ (x : Range).
    segments_of tp r (base + size) segs >>= λ rest. ok ((base + x.0, base + x.1) ∷ rest)

-- A list of results, up to the first error.
unfoldable pub each_of {ℓ} : {A : Type ℓ} → List ℕ → (ℕ → Result A) → Result (List A)
each_of [] f = ok []
each_of (r ∷ rs) f = f r >>= λ x. each_of rs f >>= λ xs. ok (x ∷ xs)

abbrev pub rank_row_ranges : ℕ → List (ℕ × ℕ) → Result (List (List Range))
rank_row_ranges tp segs = each_of (range_from 0 tp) (λ r. segments_of tp r 0 segs)

-- `[[x] for x in xs]`
abbrev pub singly : List Range → List (List Range)
singly xs = map (λ x. x ∷ []) xs

abbrev pub col_ranges : ℕ → ℕ → ℕ → Result (List (List Range))
col_ranges tp size unit = segment_ranges tp size unit >>= λ ranges. ok (singly ranges)

-- The number of rows or columns that the plan expects.
abbrev pub total_size : List (ℕ × ℕ) → ℕ
total_size [] = 0
total_size ((size, unit) ∷ segs) = size + total_size segs

unfoldable pub plan_ranges : ℕ → TensorPlan → ℕ → ℕ → Result (List (List Range))
plan_ranges tp replicated height width = err shard_error
plan_ranges tp (experts e) height width = err shard_error
plan_ranges tp vocab height width =
    if not (height % tp == 0) then err shard_error else ok (singly (even_ranges tp (height / tp)))
plan_ranges tp (split_out segs) height width =
    if not (total_size segs == height) then err shard_error else rank_row_ranges tp segs
plan_ranges tp (split_in size unit) height width =
    if not (size == width) then err shard_error else col_ranges tp size unit

-- The ranges for a shape, of which the plan reads one axis; a missing axis is an `IndexError`.
unfoldable pub shape_ranges : ℕ → TensorPlan → List ℕ → Result (List (List Range))
shape_ranges tp replicated shape = err shard_error
shape_ranges tp (experts e) shape = err shard_error
shape_ranges tp vocab shape = item shape 0 >>= λ height. plan_ranges tp vocab height 0
shape_ranges tp (split_out segs) shape =
    item shape 0 >>= λ height. plan_ranges tp (split_out segs) height 0
shape_ranges tp (split_in size unit) shape =
    item shape 1 >>= λ width. plan_ranges tp (split_in size unit) 0 width

abbrev pub rank_ranges : Sharding → String → List ℕ → Result (List (List Range))
rank_ranges s name shape = shape_ranges s.tp (s.plan_for name) shape

-- On a matrix.
pub shape_ranges-plan_ranges :
    (tp : ℕ) (plan : TensorPlan) (height width : ℕ)
    → shape_ranges tp plan (height ∷ width ∷ []) ≡ plan_ranges tp plan height width
unfolding shape_ranges plan_ranges
shape_ranges-plan_ranges tp replicated height width = refl
shape_ranges-plan_ranges tp (experts e) height width = refl
shape_ranges-plan_ranges tp vocab height width = refl
shape_ranges-plan_ranges tp (split_out segs) height width = refl
shape_ranges-plan_ranges tp (split_in size unit) height width = refl

-- `b % block and bl1 != bl0`
abbrev pub cuts_block : ℕ → Range → Bool
cuts_block block (b, e) = not (b % block == 0) && not ((e - 1) / block == b / block)

unfoldable pub check_range : ℕ → Bool → Range → Result (Unit {0})
check_range block quantized (b, e) =
    if leb e b
    then err shard_error
    else if quantized && (block == 0)
    then err zero_division_error
    else if quantized && cuts_block block (b, e)
    then err shard_error
    else ok tt

unfoldable pub check_ranges : ℕ → Bool → List Range → Result (Unit {0})
check_ranges block quantized [] = ok tt
check_ranges block quantized (x ∷ xs) =
    check_range block quantized x >>= λ _. check_ranges block quantized xs

unfoldable pub check_ranks : ℕ → Bool → List (List Range) → Result (Unit {0})
check_ranks block quantized [] = ok tt
check_ranks block quantized (rr ∷ rrs) =
    check_ranges block quantized rr >>= λ _. check_ranks block quantized rrs

-- `plan.kind in (_REP, _EXPERTS)`
abbrev pub is_whole : TensorPlan → Bool
is_whole replicated = true
is_whole (experts e) = true
is_whole vocab = false
is_whole (split_out segs) = false
is_whole (split_in size unit) = false

unfoldable pub validate_tensor : Sharding → String → List ℕ → Bool → Result (Unit {0})
validate_tensor s name shape quantized =
    if is_whole (s.plan_for name)
    then ok tt
    else rank_ranges s name shape >>= λ rrs. check_ranks s.block quantized rrs

unfoldable pub owner : Sharding → ℕ → ℕ
owner s expert = min (expert / (s.num_experts / s.tp)) (s.tp - 1)
