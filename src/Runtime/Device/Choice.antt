-- ===== src/Runtime/Device/Choice.antt =====
-- Which backend `build_kv_backend` gives.
use s_llm.Prelude.{
  ℕ, zero, suc, ◌≡◌, refl, inl, inr, Bool, true, false, ◌&&◌, not, Option, none, some, [], arith,
  ltb, leb, if◌then◌else◌, ℤ, pos, negsuc, Bool-cases,
}
use s_llm.Prelude.Dict.{Dict}
use s_llm.Runtime.Placement.{Placement, device, host, unknown, KvMemoryPlan, make_backend}
use s_llm.Runtime.Device.{
  make_device, Backend, in_host, in_device, new_host, or_host, build_kv_backend,
}

abbrev pub is_host : Placement → Bool
is_host device = false
is_host host = true
is_host unknown = false

-- A device is there, and its free memory is not known to be below the budget.
abbrev pub has_room : Option ℕ → ℤ → ℕ → Bool
has_room none free budget = false
has_room (some zero) free budget = false
has_room (some (suc n)) (pos m) budget = leb budget m
has_room (some (suc n)) (negsuc m) budget = true

or_host-make_device :
    {F : Type 0} (plan : KvMemoryPlan) (count : Option ℕ) (free : ℤ) (live : Dict F)
    → or_host plan (make_device plan count free live) ≡ (
        if has_room count free plan.budget_bytes
        then in_device (record { backend = make_backend plan; live = live; bufs = [] })
        else in_host (new_host plan))
unfolding make_device
or_host-make_device plan none free live = refl
or_host-make_device plan (some zero) free live = refl
or_host-make_device plan (some (suc n)) (pos m) live = elim (Bool-cases (ltb m plan.budget_bytes)) [
  | inl e ↦ let few : leb plan.budget_bytes m ≡ false = ground arith in rw (e, few) refl
  | inr e ↦ let enough : leb plan.budget_bytes m ≡ true = ground arith in rw (e, enough) refl
]
or_host-make_device plan (some (suc n)) (negsuc m) live = refl

by_placement :
    {F : Type 0} (p : Placement) (room : Bool) (x y z : Backend F)
    → z ≡ (if room then x else y)
    → (elim p [ host ↦ y | device ↦ z | unknown ↦ z ]) ≡ (if not (is_host p) && room then x else y)
by_placement host room x y z h = refl
by_placement device room x y z h = h
by_placement unknown room x y z h = h

-- `build_kv_backend` never fails: a plan for the device gets an empty backend there if there is a
-- device whose free memory is not known to be below the budget; every other case gets an empty backend
-- in host memory.
pub build_kv_backend_total :
    {F : Type 0} (plan : KvMemoryPlan) (count : Option ℕ) (free : ℤ) (live : Dict F)
    → build_kv_backend plan count free live ≡ (
        if not (is_host plan.placement) && has_room count free plan.budget_bytes
        then in_device (record { backend = make_backend plan; live = live; bufs = [] })
        else in_host (new_host plan))
unfolding build_kv_backend make_device
build_kv_backend_total plan devices free live =
    by_placement plan.placement (has_room devices free plan.budget_bytes) _ _ _
      (or_host-make_device plan devices free live)
