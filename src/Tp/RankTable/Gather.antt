-- ===== src/Tp/RankTable/Gather.antt =====
-- What all ranks read is the whole tensor.
use s_llm.Prelude.{
  ◌∷◌, [], ℕ, ◌≤◌, ◌<◌, ◌≡◌, refl, ap, ◌∙◌, Bool, true, false, Option, some, List, map, length, ok,
  ◌>>=◌,
}
use Prim.Native.String.{String}
use s_llm.Loaders.Shard.{
  TensorPlan, replicated, vocab, split_out, split_in, experts, Sharding, item, is_whole,
  validate_tensor,
}
use s_llm.Loaders.Slices.{Tensor, shard, full_from_shards}
use s_llm.Loaders.Slices.Reassemble.{AllWide, full_from_shards-shard}
use s_llm.Tp.RankTable.{RankWeightTable, owns_plan, get, slice_for}
use s_llm.Tp.WeightTable.{WeightTable}

module _ {A : Type 0} (table : WeightTable A) (s : Sharding) (name : String) where
  owned_cut : (plan : TensorPlan) (r : ℕ) → is_whole plan ≡ false → owns_plan s r plan ≡ true
  unfolding owns_plan
  owned_cut replicated r cut = refl
  owned_cut (experts x) r cut = cc
  owned_cut vocab r cut = refl
  owned_cut (split_out segs) r cut = refl
  owned_cut (split_in size unit) r cut = refl

  slice_cut :
      (w : RankWeightTable A) (plan : TensorPlan) (t : Tensor A)
      → is_whole plan ≡ false
      → slice_for w name plan t ≡ (shard w.sharding name t >>= λ ss. item ss w.rank)
  unfolding slice_for
  slice_cut w replicated t cut = cc
  slice_cut w (experts x) t cut = cc
  slice_cut w vocab t cut = refl
  slice_cut w (split_out segs) t cut = refl
  slice_cut w (split_in size unit) t cut = refl

  get_cut :
      (r : ℕ) (t : Tensor A) (ss : List (Option (Tensor A)))
      → table.get name ≡ ok t
      → is_whole (s.plan_for name) ≡ false
      → shard s name t ≡ ok ss
      → get (record { table = table; sharding = s; rank = r }) name ≡ item ss r
  unfolding get
  get_cut r t ss found cut cuts =
      rw (owned_cut (s.plan_for name) r cut, found)
        (slice_cut (record { table = table; sharding = s; rank = r }) (s.plan_for name) t cut
          ∙ ap (λ x. x >>= λ ss'. item ss' r) cuts)

  -- For a rectangular tensor of the table that is cut and has passed the validation for at least one rank,
  -- what each rank gets under its name is an item of one list of slices, and the reassembly of that list,
  -- into a buffer with at most as many rows as the tensor has, gives the tensor of the table.
  pub full_from_shards-get :
      (t : Tensor A) (blank : List (List A)) (quantized : Bool)
      → 0 < s.tp
      → table.get name ≡ ok t
      → AllWide t.width t.rows
      → length blank ≤ length t.rows
      → is_whole (s.plan_for name) ≡ false
      → validate_tensor s name (length t.rows ∷ t.width ∷ []) quantized ≡ ok tt
      → (ss : List (Tensor A)) × ((r : ℕ)
          → get (record { table = table; sharding = s; rank = r }) name ≡ item (map some ss) r)
        × (full_from_shards s name blank ss ≡ ok t)
  full_from_shards-get t blank quantized v found wide few cut h =
      let (ss, cuts, whole) = full_from_shards-shard s t blank name quantized v wide few cut h in
      (ss, (λ r. get_cut r t (map some ss) found cut cuts), whole)
