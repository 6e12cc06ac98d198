-- ===== src/Runtime/Coordinator/Register.antt =====
-- `HybridKVCoordinator.new_sequence`: a sequence gets all it needs, or nothing changes.
use s_llm.Prelude.{
  ℕ, ◌+◌, ◌≤◌, ◌<◌, ◌≡◌, refl, ap, ◌⊎◌, inl, inr, Bool, false, Option, none, arith, leb, bit,
  length, take, drop, count, returns, raises, out_of_capacity, Bool-cases, leb→le, length-take,
  length-drop,
}
use s_llm.Prelude.Dict.{Dict, lookup, put, has, lookup-put, put-Distinct}
use s_llm.Runtime.Kv.{KvAllocator}
use s_llm.Runtime.Kv.Batch.{holds}
use s_llm.Runtime.Kv.Invariant.{allocated, allocated-IsValid, holds-allocated}
use s_llm.Runtime.Slots.{StateAllocator}
use s_llm.Runtime.Slots.Laws.{as_kv, slot_list}
use s_llm.Runtime.Coordinator.{BlockTable, Coordinator, blocks_for_tokens, new_sequence}
use s_llm.Runtime.Coordinator.Invariant.{
  slots_of, IsConsistent, take_blocks-fits, take_blocks-full, take_slot-full, take_slot-fits,
  drop_blocks-taken,
}

-- What a successful `new_sequence` leaves behind.
pub record Registered (c : Coordinator) (s blocks slots : ℕ) (t : BlockTable) (c' : Coordinator)
    : Type 0 where
  pub consistent : IsConsistent c'
  pub enough_blocks : length t.blocks ≡ blocks
  pub enough_slots : length (slot_list t.state_slot) ≡ slots
  pub kv_taken : length c'.kv.free + blocks ≡ length c.kv.free
  pub state_taken : length c'.state.free + slots ≡ length c.state.free
  pub same_capacity : c'.kv.capacity ≡ c.kv.capacity
  pub recorded : c'.tables ≡ put s t c.tables

not_has : (s : ℕ) (d : Dict BlockTable) → lookup s d ≡ none → has s d ≡ false
unfolding has
not_has s d e = rw (e, has) refl

module _ (c : Coordinator) (s tokens block_size : ℕ) (use_state : Bool) (v : IsConsistent c)
    (new : lookup s c.tables ≡ none) where
  abbrev need : ℕ
  need = blocks_for_tokens tokens block_size

  module _ (fits : need ≤ length c.kv.free) where
    new_sequence_full_slots :
        length c.state.free < bit use_state
        → new_sequence c s tokens block_size use_state ≡ raises out_of_capacity c
    unfolding new_sequence
    new_sequence_full_slots h = ground (
      arith,
      not_has s c.tables new,
      take_blocks-fits c.kv s need fits,
      take_slot-full c.state s use_state h,
      drop_blocks-taken c.kv s need v.kv_valid fits,
    )

    module _ (slot : Option ℕ) (st : StateAllocator)
        (taken : slot_list slot ≡ take (bit use_state) c.state.free)
        (left : as_kv st ≡ allocated (as_kv c.state) s (bit use_state))
        (room : bit use_state ≤ length c.state.free) where
      abbrev new_table : BlockTable
      new_table = record { seq_id = s; blocks = take need c.kv.free; state_slot = slot }

      abbrev after : Coordinator
      after = record { kv = allocated c.kv s need; state = st; tables = put s new_table c.tables }

      after-slots :
          (q b : ℕ)
          → count b (slots_of (lookup q (put s new_table c.tables))) ≡ holds q (lookup b st.owner)
      after-slots q b =
          let k : holds q (lookup b st.owner)
              ≡ holds q (lookup b (allocated (as_kv c.state) s (bit use_state)).owner) =
            ap (λ (x : KvAllocator). holds q (lookup b x.owner)) left in
          ground (
            arith,
            k,
            holds-allocated (as_kv c.state) s (bit use_state) v.state_valid q b,
            v.slots_tracked q b,
            v.slots_tracked s b,
            lookup-put s q new_table c.tables,
            ap (count b) taken,
          )

      after-Registered : Registered c s need (bit use_state) new_table after
      after-Registered = record {
        consistent = record {
          kv_valid = allocated-IsValid c.kv s need fits v.kv_valid;
          state_valid =
              rw left (allocated-IsValid (as_kv c.state) s (bit use_state) room v.state_valid);
          tables_distinct = put-Distinct s new_table c.tables v.tables_distinct;
          blocks_tracked = λ q b. ground (
            arith,
            holds-allocated c.kv s need v.kv_valid q b,
            v.blocks_tracked q b,
            v.blocks_tracked s b,
            lookup-put s q new_table c.tables,
          );
          slots_tracked = after-slots;
        };
        enough_blocks = omega (arith, length-take need c.kv.free);
        enough_slots = omega (arith, ap length taken, length-take (bit use_state) c.state.free);
        kv_taken = unfold allocated in omega (arith, length-drop need c.kv.free);
        state_taken =
            let k : length st.free ≡ length (drop (bit use_state) c.state.free) =
              unfold allocated in ap (λ (x : KvAllocator). length x.free) left in
            omega (arith, k, length-drop (bit use_state) c.state.free);
        same_capacity = unfold allocated in refl;
        recorded = refl;
      }

    pub new_sequence_fits :
        bit use_state ≤ length c.state.free
        → (t : BlockTable) × (c' : Coordinator) × (new_sequence c s tokens block_size use_state
            ≡ returns t c')
          × Registered c s need (bit use_state) t c'
    unfolding new_sequence
    new_sequence_fits room =
        let (slot, st, e, l, k) = take_slot-fits c.state s use_state room in
        (
          new_table slot st l k room,
          after slot st l k room,
          ground (arith, not_has s c.tables new, take_blocks-fits c.kv s need fits, e),
          after-Registered slot st l k room,
        )

  new_sequence_full_blocks :
      length c.kv.free < need
      → new_sequence c s tokens block_size use_state ≡ raises out_of_capacity c
  unfolding new_sequence
  new_sequence_full_blocks h =
      ground (arith, not_has s c.tables new, take_blocks-full c.kv s need h)

  -- A sequence that has no new_table yet is registered if there are blocks for its tokens and, where it
  -- wants one, a state slot: it gets exactly those, other tables stay, and the coordinator stays
  -- consistent. Otherwise `new_sequence` raises `OutOfCapacity` and leaves the coordinator exactly
  -- as it was, also where the blocks had been taken before the slot was refused.
  pub new_sequence_total :
      ((need ≤ length c.kv.free)
        × (bit use_state ≤ length c.state.free)
        × (t : BlockTable) × (c' : Coordinator) × (new_sequence c s tokens block_size use_state
            ≡ returns t c')
        × Registered c s need (bit use_state) t c')
      ⊎ (((length c.kv.free < need) ⊎ (length c.state.free < bit use_state))
          × (new_sequence c s tokens block_size use_state ≡ raises out_of_capacity c))
  new_sequence_total = elim (Bool-cases (leb need (length c.kv.free))) [
    | inr e ↦ inr (inl (ground arith), new_sequence_full_blocks (ground arith))
    | inl e ↦
        let fits : need ≤ length c.kv.free = leb→le _ _ e in
        elim (Bool-cases (leb (bit use_state) (length c.state.free))) [
          | inr f ↦ inr (inr (ground arith), new_sequence_full_slots fits (ground arith))
          | inl f ↦
              let (t, c', made, reg) = new_sequence_fits fits (leb→le _ _ f) in
              inl (fits, leb→le _ _ f, t, c', made, reg)
        ]
  ]
