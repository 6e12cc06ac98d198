-- ===== src/Loaders/Shard/Errors.antt =====
-- What the validation of a tensor raises.
use s_llm.Prelude.{
  ℕ, zero, suc, ◌+◌, ◌*◌, ◌/◌, ◌%◌, ◌≤◌, ◌<◌, ◌≡◌, refl, ap, ◌∙◌, ◌⊎◌, inl, inr, Bool, true, false,
  not, List, [], ◌∷◌, arith, ◌==◌, if◌then◌else◌, range_from, Result, ok, err, ◌>>=◌, >>=-eq-err,
  Error, shard_error, Bool-cases, Result-cases, ltb, ◌&&◌, ◌||◌, ◌-◌, all, length,
}
use Prim.Native.String.{String}
use s_llm.Loaders.Shard.{
  TensorPlan, replicated, vocab, split_out, split_in, experts, Sharding, Range, segment_ranges,
  item, segments_of, each_of, plan_ranges, shape_ranges, rank_ranges, col_ranges, rank_row_ranges,
  check_range, check_ranges, check_ranks, is_whole, validate_tensor,
}
use s_llm.Loaders.Shard.Ranges.{segment_ranges_even, item-map}

-- Whatever is raised is a `ShardError`.
abbrev OnlyShardError {ℓ} : {A : Type ℓ} → Result A → Type ℓ
OnlyShardError m = (x : Error) → m ≡ err x → x ≡ shard_error

chain {ℓ κ} :
    {A : Type ℓ} {B : Type κ} (m : Result A) (f : A → Result B)
    → OnlyShardError m
    → ((a : A) → m ≡ ok a → OnlyShardError (f a))
    → OnlyShardError (m >>= f)
chain m f h k x e = elim (>>=-eq-err m f e) [
  | inl fail ↦ h x fail
  | inr (a, here, later) ↦ k a here x later
]

done {ℓ} : {A : Type ℓ} (a : A) → OnlyShardError (ok a)
done a x e = cc

raised {ℓ} : (A : Type ℓ) → OnlyShardError {A = A} (err shard_error)
raised A x e = cc

guarded {ℓ} :
    {A : Type ℓ} (b : Bool) (m : Result A)
    → OnlyShardError m
    → OnlyShardError (if b then err shard_error else m)
guarded true m h = raised _
guarded false m h = h

-- The units of the segments are above 0.
abbrev pub HasUnits : List (ℕ × ℕ) → Type 0
HasUnits [] = Unit
HasUnits ((size, unit) ∷ segs) = (1 ≤ unit) × HasUnits segs

-- The units of the plan are above 0, and the tensor has the axis along which it is cut.
abbrev pub IsCuttable : TensorPlan → List ℕ → Type 0
IsCuttable replicated shape = Unit
IsCuttable (experts e) shape = Unit
IsCuttable vocab shape = 1 ≤ length shape
IsCuttable (split_out segs) shape = HasUnits segs × (1 ≤ length shape)
IsCuttable (split_in size unit) shape = (1 ≤ unit) × (2 ≤ length shape)

segment_ranges-error : (tp size unit : ℕ) → 1 ≤ unit → OnlyShardError (segment_ranges tp size unit)
unfolding segment_ranges
segment_ranges-error tp size unit u =
    let some_unit : (unit == 0) ≡ false = ground (arith, u) in
    guarded (not (size % tp == 0)) _
      (rw some_unit (guarded (not (size / tp % unit == 0)) _ (done _)))

segments_of-error :
    (tp r base : ℕ) (segs : List (ℕ × ℕ))
    → HasUnits segs
    → r < tp
    → OnlyShardError (segments_of tp r base segs)
unfolding segments_of
segments_of-error tp r base [] u v = done []
segments_of-error tp r base ((size, unit) ∷ segs) u v =
    chain (segment_ranges tp size unit) _ (segment_ranges-error tp size unit u.0) (λ ranges e.
      let (even, _, _) = segment_ranges_even tp size unit ranges e in
      chain (item ranges r) _
        (λ x fail.
          let there : item ranges r ≡ ok ((0 + r) * (size / tp), (0 + r + 1) * (size / tp)) =
            ap (λ xs. item xs r) even
            ∙ item-map (λ q. (q * (size / tp), (q + 1) * (size / tp))) tp 0 r v in
          cc)
        (λ x here.
          chain (segments_of tp r (base + size) segs) _
            (segments_of-error tp r (base + size) segs u.1 v) (λ rest more. done _)))

each_of-error :
    (tp : ℕ) (segs : List (ℕ × ℕ)) (n lo : ℕ)
    → HasUnits segs
    → lo + n ≤ tp
    → OnlyShardError (each_of (range_from lo n) (λ r. segments_of tp r 0 segs))
unfolding each_of
each_of-error tp segs zero lo u v = done []
each_of-error tp segs (suc n) lo u v =
    chain (segments_of tp lo 0 segs) _ (segments_of-error tp lo 0 segs u (omega (arith, v)))
      (λ x here.
        chain (each_of (range_from (suc lo) n) (λ r. segments_of tp r 0 segs)) _
          (each_of-error tp segs n (suc lo) u (omega (arith, v))) (λ xs more. done _))

item-present {ℓ} : {A : Type ℓ} (xs : List A) (i : ℕ) → i < length xs → (x : A) × (item xs i ≡ ok x)
item-present [] i h = absurd (omega (arith, h))
item-present (x ∷ xs) zero h = (x, refl)
item-present (x ∷ xs) (suc i) h = item-present xs i (omega (arith, h))

shape_ranges-error :
    (tp : ℕ) (plan : TensorPlan) (shape : List ℕ)
    → IsCuttable plan shape
    → OnlyShardError (shape_ranges tp plan shape)
unfolding shape_ranges plan_ranges
shape_ranges-error tp replicated shape v = raised _
shape_ranges-error tp (experts e) shape v = raised _
shape_ranges-error tp vocab shape v =
    let (height, e) = item-present shape 0 v in rw e (guarded (not (height % tp == 0)) _ (done _))
shape_ranges-error tp (split_out segs) shape (u, v) =
    let (height, e) = item-present shape 0 v in
    rw e (guarded _ (rank_row_ranges tp segs) (each_of-error tp segs tp 0 u (omega arith)))
shape_ranges-error tp (split_in size unit) shape (u, v) =
    let (width, e) = item-present shape 1 v in
    rw e (
      guarded _ (col_ranges tp size unit) (
        chain (segment_ranges tp size unit) _ (segment_ranges-error tp size unit u)
          (λ rs e. done _)))

-- A range is usable that is not empty and, if the tensor is quantized, begins at a block or stays inside
-- one.
abbrev pub is_usable : ℕ → Bool → Range → Bool
is_usable block quantized (b, e) =
    ltb b e && (not quantized || (b % block == 0 || (e - 1) / block == b / block))

abbrev pub all_usable : ℕ → Bool → List (List Range) → Bool
all_usable block quantized rrs = all (all (is_usable block quantized)) rrs

-- What the checks come to.
abbrev verdict : Bool → Result (Unit {0})
verdict true = ok tt
verdict false = err shard_error

verdict-and :
    (a b : Bool) (x y : Result (Unit {0}))
    → x ≡ verdict a
    → y ≡ verdict b
    → (x >>= λ _. y) ≡ verdict (if a then b else false)
verdict-and true b x y h k = rw h k
verdict-and false b x y h k = rw h refl

check_range-is_usable :
    (block : ℕ) (quantized : Bool) (b e : ℕ)
    → 0 < block
    → check_range block quantized (b, e) ≡ verdict (is_usable block quantized (b, e))
unfolding check_range
check_range-is_usable block true b e v = ground (arith, v)
check_range-is_usable block false b e v = ground (arith, v)

check_ranges-usable :
    (block : ℕ) (quantized : Bool) (rr : List Range)
    → 0 < block
    → check_ranges block quantized rr ≡ verdict (all (is_usable block quantized) rr)
unfolding check_ranges
check_ranges-usable block quantized [] v = refl
check_ranges-usable block quantized ((b, e) ∷ rr) v =
    verdict-and _ _ _ _ (check_range-is_usable block quantized b e v)
      (check_ranges-usable block quantized rr v)

check_ranks-all_usable :
    (block : ℕ) (quantized : Bool) (rrs : List (List Range))
    → 0 < block
    → check_ranks block quantized rrs ≡ verdict (all_usable block quantized rrs)
unfolding check_ranks
check_ranks-all_usable block quantized [] v = refl
check_ranks-all_usable block quantized (rr ∷ rrs) v =
    verdict-and _ _ _ _ (check_ranges-usable block quantized rr v)
      (check_ranks-all_usable block quantized rrs v)

-- The validation of a tensor, for a block size and units above 0 and a shape that has the axis along
-- which the plan cuts, passes or raises a `ShardError`. It passes exactly where the plan keeps the
-- tensor whole, or where the plan has ranges for the shape all of which are usable: not empty and, if
-- the tensor is quantized, beginning at a block or staying inside one.
pub validate_tensor-error :
    (s : Sharding) (name : String) (shape : List ℕ) (quantized : Bool)
    → 0 < s.block
    → IsCuttable (s.plan_for name) shape
    → ((validate_tensor s name shape quantized ≡ ok tt)
        × ((is_whole (s.plan_for name) ≡ true)
            ⊎ ((rrs : List (List Range)) × (rank_ranges s name shape ≡ ok rrs)
                × (all_usable s.block quantized rrs ≡ true))))
      ⊎ ((validate_tensor s name shape quantized ≡ err shard_error)
          × (is_whole (s.plan_for name) ≡ false)
          × ((rank_ranges s name shape ≡ err shard_error)
              ⊎ ((rrs : List (List Range)) × (rank_ranges s name shape ≡ ok rrs)
                  × (all_usable s.block quantized rrs ≡ false))))
unfolding validate_tensor
validate_tensor-error s name shape quantized v cuttable =
    elim (Bool-cases (is_whole (s.plan_for name))) [
      | inl e ↦ inl (rw (validate_tensor, e) refl, inl e)
      | inr e ↦ elim (Result-cases (rank_ranges s name shape)) [
        | inr (x, f) ↦
            let only : x ≡ shard_error =
              shape_ranges-error s.tp (s.plan_for name) shape cuttable x f in
            let fails : rank_ranges s name shape ≡ err shard_error = f ∙ ap err only in
            inr (rw (validate_tensor, e, fails) refl, e, inl fails)
        | inl (rrs, f) ↦
            let checks = check_ranks-all_usable s.block quantized rrs v in
            elim (Bool-cases (all_usable s.block quantized rrs)) [
              | inl u ↦ inl (rw (validate_tensor, e, f) (checks ∙ ap verdict u), inr (rrs, f, u))
              | inr u ↦ inr (rw (validate_tensor, e, f) (checks ∙ ap verdict u), e, inr (rrs, f, u))
            ]
      ]
    ]
