-- ===== src/Runtime/Device.antt =====
-- `DeviceKVBackend` and `build_kv_backend` of runtime/placement.py, over the buffers of
-- kernels/_sllm_cuda.py. The device is the dict of its live buffers, from the pointer to the contents;
-- `flatten` stands for the conversion to a contiguous float32 array, whose elements in row-major order
-- are what a buffer holds; `new_buffer` stands for `sllm_buf_new` of the CUDA library, which fails or
-- gives a pointer, and `uploads` says whether `sllm_buf_h2d` succeeds. A buffer that an exception leaves
-- without a reference is freed by `DeviceBuffer.__del__`. Copies to the host, and frees, do not fail.
pub mod Leak
pub mod Choice
pub mod Apart
pub mod Gather
use s_llm.Prelude.{
  ℕ, zero, suc, ◌+◌, ◌-◌, ◌*◌, ◌/◌, ◌%◌, ◌^◌, ◌≤◌, ◌<◌, ◌≡◌, ◌≢◌, refl, sym, ap, ◌∙◌, subst, min,
  ◌⊎◌, inl, inr, ◌↔◌, Bool, true, false, ◌&&◌, ◌||◌, not, Option, none, some, List, [], ◌∷◌, ◌++◌,
  map, arith, ltb, leb, ◌==◌, if◌then◌else◌, bit, length, take, drop, replicate, keep, all, count,
  member, sum, range_from, Outcome, returns, raises, state_of, Result, ok, err, ◌>>=◌, Error,
  value_error, key_error, index_error, out_of_capacity, collectives_error, shard_error,
  runtime_error, ℤ, pos, negsuc, Bool-cases, Option-cases, leb→le, le→leb, ltb→lt, lt→ltb, ==_refl,
  ==_iff, length-append, take-append-drop, length-take, length-drop, count-append, count-split,
  length-range_from, count-range_from,
}
use s_llm.Prelude.Dict.{
  Dict, lookup, put, without, has, Distinct, lookup-put, lookup-without, put-Distinct,
  without-Distinct, without_missing, length-put_missing, length-put_present, length-without,
  without-put_missing,
}
use s_llm.Runtime.Placement.{
  Placement, device, host, unknown, KvMemoryPlan, KvBackend, make_backend, release, HostKvBackend,
}

pub record DeviceKvBackend (F : Type 0) : Type 0 where
  pub backend : KvBackend
  pub live : Dict F
  pub bufs : Dict (Dict (ℕ × ℕ))

pub data Backend (F : Type 0) : Type 0 where
  in_host : HostKvBackend F → Backend F
  in_device : DeviceKvBackend F → Backend F

-- `self._bufs.get(seq_id, {})`
abbrev pub layers_at : ℕ → Dict (Dict (ℕ × ℕ)) → Dict (ℕ × ℕ)
layers_at seq_id bufs = elim (lookup seq_id bufs) [ none ↦ [] | some layers ↦ layers ]

module _ {F : Type 0} where
  -- `stale[0].free()` and `stale[1].free()`
  abbrev pub free_pair : ℕ × ℕ → Dict F → Dict F
  free_pair (kb, vb) live = without vb (without kb live)

  abbrev pub free_stale : Option (ℕ × ℕ) → Dict F → Dict F
  free_stale none live = live
  free_stale (some pair) live = free_pair pair live

  -- What `store` does when both buffers are there.
  abbrev pub replace : DeviceKvBackend F → Dict F → ℕ → ℕ → ℕ × ℕ → DeviceKvBackend F
  replace d live seq_id layer pair =
      let layers = layers_at seq_id d.bufs in
      record d {
        live = free_stale (lookup layer layers) live;
        bufs = put seq_id (put layer pair layers) d.bufs;
      }

  -- `kb.copy_host(), vb.copy_host()`: the contents, a flat array each
  abbrev pub copy_pair : ℕ × ℕ → Dict F → Result (F × F)
  copy_pair (kb, vb) live = elim (lookup kb live) [
    | none ↦ err runtime_error
    | some k ↦ elim (lookup vb live) [ none ↦ err runtime_error | some v ↦ ok (k, v) ]
  ]

  unfoldable pub gather_device : DeviceKvBackend F → ℕ → ℕ → Result (F × F)
  gather_device d seq_id layer = elim (lookup seq_id d.bufs) [
    | none ↦ err key_error
    | some layers ↦ elim (lookup layer layers) [
      | none ↦ err key_error
      | some pair ↦ copy_pair pair d.live
    ]
  ]

  -- `for kb, vb in ....values(): kb.free(); vb.free()`
  unfoldable pub free_layers : Dict (ℕ × ℕ) → Dict F → Dict F
  free_layers [] live = live
  free_layers ((l, pair) ∷ layers) live = free_layers layers (free_pair pair live)

  unfoldable pub free_device : DeviceKvBackend F → ℕ → DeviceKvBackend F
  free_device d seq_id = record {
    backend = release d.backend seq_id;
    live = free_layers (layers_at seq_id d.bufs) d.live;
    bufs = without seq_id d.bufs;
  }

  -- The constructor. `device_count` is absent when the CUDA module cannot be loaded, `free` is
  -- `mem_free_bytes()`, negative when it is not known.
  unfoldable pub make_device : KvMemoryPlan → Option ℕ → ℤ → Dict F → Result (DeviceKvBackend F)
  make_device plan none free live = err runtime_error
  make_device plan (some zero) free live = err runtime_error
  make_device plan (some (suc n)) free live =
      if (elim free [ pos m ↦ ltb m plan.budget_bytes | negsuc m ↦ false ])
      then err runtime_error
      else ok (record { backend = make_backend plan; live = live; bufs = [] })

  abbrev pub new_host : KvMemoryPlan → HostKvBackend F
  new_host plan = record { backend = make_backend plan; arrays = [] }

  -- `except Exception`: fall back to the host.
  abbrev pub or_host : KvMemoryPlan → Result (DeviceKvBackend F) → Backend F
  or_host plan (ok d) = in_device d
  or_host plan (err e) = in_host (new_host plan)

  unfoldable pub build_kv_backend : KvMemoryPlan → Option ℕ → ℤ → Dict F → Backend F
  build_kv_backend plan device_count free live = elim plan.placement [
    | host ↦ in_host (new_host plan)
    | device ↦ or_host plan (make_device plan device_count free live)
    | unknown ↦ or_host plan (make_device plan device_count free live)
  ]

module _ {A N : Type 0} (flatten : A → List N) (new_buffer : Dict (List N) → Option ℕ)
    (uploads : ℕ → List N → Bool) where
  -- `DeviceBuffer` refuses an empty array by a `ValueError`.
  unfoldable pub to_device : A → Dict (List N) → Outcome (Dict (List N)) ℕ
  to_device x live =
      if length (flatten x) == 0 then raises value_error live else elim (new_buffer live) [
        | none ↦ raises runtime_error live
        | some ptr ↦
            if uploads ptr (flatten x)
            then returns ptr (put ptr (flatten x) live)
            else raises runtime_error live
      ]

  unfoldable pub store_device :
      DeviceKvBackend (List N) → ℕ → ℕ → A → A → Outcome (DeviceKvBackend (List N)) (Unit {0})
  store_device d seq_id layer k v = elim (to_device k d.live) [
    | raises e live ↦ raises e (record d { live = live })
    | returns kb live ↦ elim (to_device v live) [
      | raises e live' ↦ raises e (record d { live = without kb live' })
      | returns vb live' ↦ returns tt (replace d live' seq_id layer (kb, vb))
    ]
  ]
