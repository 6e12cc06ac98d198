-- ===== src/Tests/Allocators.antt =====
-- runtime/blocks.py at concrete inputs.
use s_llm.Prelude.{
  ℕ, ◌+◌, ◌≤◌, ◌<◌, ◌≡◌, refl, subst, ◌⊎◌, inl, inr, true, some, List, [], ◌∷◌, ◌++◌, ◌==◌,
  if◌then◌else◌, length, count, returns, raises, ok, err, value_error, key_error, out_of_capacity,
  pos,
}
use s_llm.Prelude.Dict.{lookup, put, without, has}
use s_llm.Runtime.Heap.{Ascending, heappush, heappops}
use s_llm.Runtime.Kv.{
  KvAllocator, make_kv, own_all, allocate, free_blocks, free_count, validate, release_all,
}
use s_llm.Runtime.Kv.Batch.{holds}
use s_llm.Runtime.Kv.Invariant.{IsValid, make_kv-IsValid, Owns}
use s_llm.Runtime.Kv.Laws.{allocate_total, free_total}
use s_llm.Runtime.Slots.{allocate_slot}
use s_llm.Runtime.Coordinator.{
  BlockTable, Coordinator, blocks_for_tokens, take_blocks, take_slot, drop_blocks, new_sequence,
  kv_used, slots_in_use,
}
use s_llm.Runtime.Coordinator.Invariant.{IsConsistent, fresh, fresh-IsConsistent}
use s_llm.Runtime.Coordinator.Register.{Registered, new_sequence_total}

abbrev four : KvAllocator
four = record { capacity = 4; free = 0 ∷ 1 ∷ 2 ∷ 3 ∷ []; owner = [] }

-- Blocks 0 and 1 belong to sequence 7.
abbrev two_taken : KvAllocator
two_taken = record { capacity = 4; free = 2 ∷ 3 ∷ []; owner = (0, 7) ∷ (1, 7) ∷ [] }

four-IsValid : IsValid four
unfolding make_kv
four-IsValid = make_kv-IsValid (pos 4) four refl

allocate_two : allocate four 7 2 ≡ returns (0 ∷ 1 ∷ []) two_taken
unfolding allocate heappops own_all put
allocate_two = refl

free_twice_listed : free_blocks two_taken 7 (0 ∷ 0 ∷ []) ≡ raises value_error two_taken
unfolding free_blocks validate lookup
free_twice_listed = refl

free_foreign : free_blocks two_taken 8 (0 ∷ []) ≡ raises value_error two_taken
unfolding free_blocks validate lookup
free_foreign = refl

allocate_total_example :
    ((free_count four < 5) × (allocate four 7 5 ≡ raises out_of_capacity four))
    ⊎ ((ids : List ℕ) × (kv' : KvAllocator) × (allocate four 7 5 ≡ returns ids kv')
        × IsValid kv'
        × (length ids ≡ 5)
        × (free_count kv' + 5 ≡ free_count four)
        × ((q b : ℕ)
            → holds q (lookup b kv'.owner)
              ≡ holds q (lookup b four.owner) + (if q == 7 then count b ids else 0))
        × Ascending (ids ++ kv'.free))
allocate_total_example = allocate_total four 7 5 four-IsValid

free_total_example :
    ((Owns four 7 (0 ∷ []) → ⊥) × (free_blocks four 7 (0 ∷ []) ≡ raises value_error four))
    ⊎ (Owns four 7 (0 ∷ [])
        × (kv' : KvAllocator) × (free_blocks four 7 (0 ∷ []) ≡ returns tt kv')
        × IsValid kv'
        × (free_count kv' ≡ 1 + free_count four)
        × ((q b : ℕ)
            → holds q (lookup b kv'.owner) + (if q == 7 then count b (0 ∷ []) else 0)
              ≡ holds q (lookup b four.owner)))
free_total_example = free_total four 7 (0 ∷ []) four-IsValid

round_up :
    (blocks_for_tokens 0 16 ≡ 0) × (blocks_for_tokens 16 16 ≡ 1) × (blocks_for_tokens 17 16 ≡ 2)
unfolding blocks_for_tokens
round_up = (refl, refl, refl)

abbrev small : Coordinator
small = fresh 4 1

-- Sequence 7 has two blocks of 16 tokens and the only slot.
abbrev seven : BlockTable
seven = record { seq_id = 7; blocks = 0 ∷ 1 ∷ []; state_slot = some 0 }

abbrev held : Coordinator
held = record {
  kv = two_taken;
  state = record { capacity = 1; free = []; owner = (0, 7) ∷ [] };
  tables = (7, seven) ∷ [];
}

register_seven : new_sequence small 7 32 16 true ≡ returns seven held
unfolding new_sequence take_blocks take_slot allocate allocate_slot blocks_for_tokens heappops
    own_all put has lookup
register_seven = refl

-- The blocks taken for sequence 8 go back when there is no slot for it.
register_undone : new_sequence held 8 16 16 true ≡ raises out_of_capacity held
unfolding new_sequence take_blocks take_slot drop_blocks free_blocks validate release_all allocate
    allocate_slot blocks_for_tokens heappops heappush own_all put has lookup without
register_undone = refl

new_sequence_total_example :
    ((blocks_for_tokens 32 16 ≤ 4)
      × (1 ≤ 1)
      × (t : BlockTable) × (c : Coordinator) × (new_sequence small 7 32 16 true ≡ returns t c)
      × Registered small 7 (blocks_for_tokens 32 16) 1 t c)
    ⊎ (((4 < blocks_for_tokens 32 16) ⊎ (1 < 1))
        × (new_sequence small 7 32 16 true ≡ raises out_of_capacity small))
unfolding lookup
new_sequence_total_example = new_sequence_total small 7 32 16 true (fresh-IsConsistent 4 1) refl

held-IsConsistent : IsConsistent held
held-IsConsistent =
    elim (new_sequence_total small 7 32 16 true (fresh-IsConsistent 4 1) (unfold lookup in refl)) [
      | inl (_, _, t, c, e, reg) ↦
          let same : c ≡ held = cc (register_seven, e) in subst IsConsistent same reg.consistent
      | inr (_, e) ↦ cc (register_seven, e)
    ]

used_after :
    (kv_used held 7 ≡ ok 2) × (kv_used held 8 ≡ err key_error) × (slots_in_use held.tables ≡ 1)
unfolding kv_used slots_in_use lookup
used_after = (refl, refl, refl)
