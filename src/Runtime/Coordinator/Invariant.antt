-- ===== src/Runtime/Coordinator/Invariant.antt =====
-- The invariant of `HybridKVCoordinator`: its tables and the owners of its allocators agree.
use s_llm.Prelude.{
  ℕ, zero, suc, ◌≤◌, ◌<◌, ◌≡◌, refl, ◌∙◌, ◌⊎◌, inl, inr, Bool, true, false, Option, none, some,
  List, [], ◌∷◌, arith, bit, length, take, count, range_from, returns, raises, ok, err, value_error,
  out_of_capacity, ℤ, pos, negsuc,
}
use s_llm.Prelude.Dict.{lookup, Distinct}
use s_llm.Runtime.Kv.{validate, release_all, KvAllocator, make_kv, own_all, free_blocks}
use s_llm.Runtime.Kv.Batch.{holds}
use s_llm.Runtime.Kv.Invariant.{IsValid, make_kv-IsValid, allocated, allocate-full, allocate-fits}
use s_llm.Runtime.Kv.Laws.{free-allocate}
use s_llm.Runtime.Slots.{StateAllocator, make_state}
use s_llm.Runtime.Slots.Laws.{as_kv, slot_list, allocate_slot-full, allocate_slot-fits}
use s_llm.Runtime.Coordinator.{
  BlockTable, Coordinator, make_coordinator, take_blocks, take_slot, drop_blocks,
}

abbrev pub blocks_of : Option BlockTable → List ℕ
blocks_of none = []
blocks_of (some t) = t.blocks

abbrev pub slots_of : Option BlockTable → List ℕ
slots_of none = []
slots_of (some t) = slot_list t.state_slot

pub record IsConsistent (c : Coordinator) : Type 0 where
  pub kv_valid : IsValid c.kv
  pub state_valid : IsValid (as_kv c.state)
  pub tables_distinct : Distinct c.tables
  pub blocks_tracked :
      (s b : ℕ) → count b (blocks_of (lookup s c.tables)) ≡ holds s (lookup b c.kv.owner)
  pub slots_tracked :
      (s b : ℕ) → count b (slots_of (lookup s c.tables)) ≡ holds s (lookup b c.state.owner)

abbrev fresh_kv : ℕ → KvAllocator
fresh_kv m = record { capacity = m; free = range_from 0 m; owner = [] }

abbrev fresh_state : ℕ → StateAllocator
fresh_state n = record { capacity = n; free = range_from 0 n; owner = [] }

abbrev pub fresh : ℕ → ℕ → Coordinator
fresh m n = record { kv = fresh_kv m; state = fresh_state n; tables = [] }

pub fresh-IsConsistent : (m n : ℕ) → IsConsistent (fresh m n)
unfolding make_kv make_state lookup
fresh-IsConsistent m n = record {
  kv_valid = make_kv-IsValid (pos m) (fresh_kv m) refl;
  state_valid = make_kv-IsValid (pos n) (as_kv (fresh_state n)) refl;
  tables_distinct = tt;
  blocks_tracked = λ s b. refl;
  slots_tracked = λ s b. refl;
}

-- The constructor takes the two capacities unless one is negative.
pub make_coordinator-cases :
    (m n : ℤ)
    → (make_coordinator m n ≡ err value_error)
      ⊎ ((k l : ℕ) × (m ≡ pos k) × (n ≡ pos l) × (make_coordinator m n ≡ ok (fresh k l)))
unfolding make_coordinator make_kv make_state
make_coordinator-cases (negsuc m) n = inl refl
make_coordinator-cases (pos m) (negsuc n) = inl refl
make_coordinator-cases (pos m) (pos n) = inr (m, n, refl, refl, refl)

pub take_blocks-fits :
    (kv : KvAllocator) (s n : ℕ)
    → n ≤ length kv.free
    → take_blocks kv s n ≡ returns (take n kv.free) (allocated kv s n)
unfolding take_blocks
take_blocks-fits kv s zero h = unfold allocated own_all in refl
take_blocks-fits kv s (suc n) h = ground (arith, allocate-fits kv s (suc n) h)

pub take_blocks-full :
    (kv : KvAllocator) (s n : ℕ)
    → length kv.free < n
    → take_blocks kv s n ≡ raises out_of_capacity kv
unfolding take_blocks
take_blocks-full kv s n h = ground (arith, allocate-full kv s n h)

pub take_slot-full :
    (st : StateAllocator) (s : ℕ) (use_state : Bool)
    → length st.free < bit use_state
    → take_slot st s use_state ≡ raises out_of_capacity st
unfolding take_slot
take_slot-full st s false h = absurd (omega arith)
take_slot-full st s true h = ground (arith, allocate_slot-full st s (empty st.free h))
  where
    empty : (xs : List ℕ) → length xs < 1 → xs ≡ []
    empty [] p = refl
    empty (x ∷ xs) p = absurd (omega arith)

pub take_slot-fits :
    (st : StateAllocator) (s : ℕ) (use_state : Bool)
    → bit use_state ≤ length st.free
    → (slot : Option ℕ) × (st' : StateAllocator) × (take_slot st s use_state ≡ returns slot st')
      × (slot_list slot ≡ take (bit use_state) st.free)
      × (as_kv st' ≡ allocated (as_kv st) s (bit use_state))
unfolding take_slot
take_slot-fits st s false h = (none, st, refl, refl, unfold allocated own_all in refl)
take_slot-fits st s true h =
    let (slot, st', e, l, k) = allocate_slot-fits st s h in
    (some slot, st', ground (arith, e), l, k)

-- Giving back the blocks just taken restores the allocator.
pub drop_blocks-taken :
    (kv : KvAllocator) (s n : ℕ)
    → IsValid kv
    → n ≤ length kv.free
    → drop_blocks (allocated kv s n) s (take n kv.free) ≡ returns tt kv
drop_blocks-taken kv s n v h =
    same (allocated kv s n) (take n kv.free) ∙ free-allocate kv s n v h _ _ (allocate-fits kv s n h)
  where
    same : (kv : KvAllocator) (ids : List ℕ) → drop_blocks kv s ids ≡ free_blocks kv s ids
    same kv [] = unfold drop_blocks free_blocks validate release_all in refl
    same kv (b ∷ bs) = unfold drop_blocks in refl
