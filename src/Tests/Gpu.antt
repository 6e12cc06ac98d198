-- ===== src/Tests/Gpu.antt =====
-- The backend on the device at concrete inputs.
use s_llm.Prelude.{
  ℕ, suc, ◌+◌, ◌<◌, ◌≡◌, refl, ◌⊎◌, false, Option, none, some, [], ◌∷◌, arith, ltb, if◌then◌else◌,
  length, returns, raises, ok, Error, Bool, true, List, ◌++◌,
}
use s_llm.Prelude.Dict.{Dict, lookup, put, without, has}
use s_llm.Runtime.Placement.{device, KvMemoryPlan, make_backend}
use s_llm.Runtime.Device.{DeviceKvBackend, layers_at, store_device, to_device, gather_device}
use s_llm.Runtime.Device.Leak.{IsHeld, held, held_layers, Refused, store_device-IsHeld}
use s_llm.Runtime.Device.Gather.{gather_device-store_device}

abbrev plan : KvMemoryPlan
plan = record {
  placement = device;
  utilization = record { mantissa = 1; exponent = 0 };
  bytes_per_token = 4;
  budget_bytes = 1000;
  block_size = 16;
  num_blocks = 15;
  max_tokens = 240;
}

abbrev pointers : Dict (List ℕ) → ℕ
pointers [] = 0
pointers ((p, x) ∷ live) = p + pointers live

-- A pointer above all live ones, and none when ten buffers are live.
abbrev next_pointer : Dict (List ℕ) → Option ℕ
next_pointer live = if ltb (length live) 10 then some (suc (pointers live)) else none

above_absent : (p : ℕ) (live : Dict (List ℕ)) → pointers live < p → has p live ≡ false
unfolding has lookup
above_absent p [] h = refl
above_absent p ((j, x) ∷ live) h = ground (arith, above_absent p live)

next_pointer_fresh :
    (live : Dict (List ℕ)) (p : ℕ) → next_pointer live ≡ some p → has p live ≡ false
next_pointer_fresh live p e = ground (arith, above_absent p live)

-- A matrix, row by row.
abbrev flatten : List (List ℕ) → List ℕ
flatten [] = []
flatten (row ∷ rows) = row ++ flatten rows

abbrev always : ℕ → List ℕ → Bool
always p x = true

-- Two rows of one element.
abbrev keys : List (List ℕ)
keys = (71 ∷ []) ∷ (72 ∷ []) ∷ []

abbrev values : List (List ℕ)
values = (81 ∷ []) ∷ (82 ∷ []) ∷ []

-- Layer 3 of sequence 1 has the buffers 1 and 2.
abbrev stored : DeviceKvBackend (List ℕ)
stored = record {
  backend = make_backend plan;
  live = (1, 70 ∷ []) ∷ (2, 80 ∷ []) ∷ [];
  bufs = (1, (3, (1, 2)) ∷ []) ∷ [];
}

stored-IsHeld : IsHeld stored
unfolding held held_layers has lookup
stored-IsHeld = record { distinct = (refl, tt); exact = λ p. ground arith }

store_device-IsHeld_example :
    (d' : DeviceKvBackend (List ℕ)) × IsHeld d'
    × (((pair : ℕ × ℕ) × (store_device flatten next_pointer always stored 1 3 keys values
            ≡ returns tt d')
          × (d'.bufs ≡ put 1 (put 3 pair (layers_at 1 stored.bufs)) stored.bufs))
        ⊎ ((e : Error) × (store_device flatten next_pointer always stored 1 3 keys values
              ≡ raises e d')
            × (Refused flatten next_pointer always keys e
                ⊎ Refused flatten next_pointer always values e)
            × (d'.bufs ≡ stored.bufs)))
store_device-IsHeld_example =
    store_device-IsHeld flatten next_pointer always stored 1 3 keys values next_pointer_fresh
      stored-IsHeld

-- A second store of that layer frees the first two buffers.
abbrev stored_again : DeviceKvBackend (List ℕ)
stored_again = record stored {
  live = (4, 71 ∷ 72 ∷ []) ∷ (8, 81 ∷ 82 ∷ []) ∷ [];
  bufs = (1, (3, (4, 8)) ∷ []) ∷ [];
}

store_again_returns :
    store_device flatten next_pointer always stored 1 3 keys values ≡ returns tt stored_again
unfolding store_device to_device put lookup without
store_again_returns = refl

gather_device-store_device_example :
    gather_device stored_again 1 3 ≡ ok (71 ∷ 72 ∷ [], 81 ∷ 82 ∷ [])
gather_device-store_device_example =
    gather_device-store_device flatten next_pointer always stored stored_again 1 3 1 3 keys values
      next_pointer_fresh stored-IsHeld store_again_returns
