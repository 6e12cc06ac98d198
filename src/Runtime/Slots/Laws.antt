-- ===== src/Runtime/Slots/Laws.antt =====
-- `StateAllocator` keeps its books as `KVBlockAllocator` does, one slot at a time, so its invariant
-- and its laws are read through that view.
use s_llm.Prelude.{
  ℕ, ◌≤◌, ◌≡◌, refl, ap, ◌⊎◌, inl, inr, Option, none, some, List, [], ◌∷◌, arith, length, take,
  returns, raises, out_of_capacity,
}
use s_llm.Prelude.Dict.{put}
use s_llm.Runtime.Heap.{heappushes}
use s_llm.Runtime.Kv.{KvAllocator, own_all}
use s_llm.Runtime.Kv.Batch.{freed, without_all}
use s_llm.Runtime.Kv.Invariant.{allocated, Owns}
use s_llm.Runtime.Slots.{StateAllocator, allocate_slot, free_slot}

abbrev pub as_kv : StateAllocator → KvAllocator
as_kv st = record { capacity = st.capacity; free = st.free; owner = st.owner }

abbrev pub slot_list : Option ℕ → List ℕ
slot_list none = []
slot_list (some slot) = slot ∷ []

pub allocate_slot-full :
    (st : StateAllocator) (s : ℕ) → st.free ≡ [] → allocate_slot st s ≡ raises out_of_capacity st
unfolding allocate_slot
allocate_slot-full st s e = ground (arith, e)

list-cases : (xs : List ℕ) → (xs ≡ []) ⊎ ((y : ℕ) × (ys : List ℕ) × (xs ≡ y ∷ ys))
list-cases [] = inl refl
list-cases (y ∷ ys) = inr (y, ys, refl)

pub allocate_slot-fits :
    (st : StateAllocator) (s : ℕ)
    → 1 ≤ length st.free
    → (slot : ℕ) × (st' : StateAllocator) × (allocate_slot st s ≡ returns slot st')
      × (slot ∷ [] ≡ take 1 st.free)
      × (as_kv st' ≡ allocated (as_kv st) s 1)
unfolding allocate_slot allocated own_all
allocate_slot-fits st s h = elim (list-cases st.free) [
  | inl e ↦ absurd (omega (arith, ap length e))
  | inr (y, ys, e) ↦ (
    y,
    record st { free = ys; owner = put y s st.owner },
    rw (e, allocate_slot) refl,
    rw e refl,
    rw e refl,
  )
]

pub free_slot-owned :
    (st : StateAllocator) (s : ℕ) (slot : Option ℕ)
    → Owns (as_kv st) s (slot_list slot)
    → (st' : StateAllocator) × (free_slot st s slot ≡ returns tt st')
      × (as_kv st' ≡ freed (as_kv st) (slot_list slot))
unfolding free_slot freed heappushes without_all
free_slot-owned st s none h = (st, refl, refl)
free_slot-owned st s (some slot) h = (_, ground (arith, h slot), refl)
