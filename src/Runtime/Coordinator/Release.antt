-- ===== src/Runtime/Coordinator/Release.antt =====
-- `HybridKVCoordinator.free_sequence` and `grow` never meet an ownership error on a consistent
-- coordinator.
use s_llm.Prelude.{
  ℕ, ◌+◌, ◌-◌, ◌≤◌, ◌<◌, ◌≡◌, refl, ap, ◌∙◌, ◌⊎◌, inl, inr, none, some, List, [], ◌++◌, arith, ltb,
  length, take, count, returns, raises, out_of_capacity, Bool-cases, ltb→lt, length-take,
  length-drop, count-append,
}
use s_llm.Prelude.Dict.{
  lookup, put, without, lookup-put, lookup-without, put-Distinct, without-Distinct,
}
use s_llm.Runtime.Kv.{KvAllocator}
use s_llm.Runtime.Kv.Batch.{holds, freed}
use s_llm.Runtime.Kv.Invariant.{
  allocated, allocate-full, allocate-fits, allocated-IsValid, holds-allocated, Owns,
  free_blocks-owned, freed-IsValid, holds-freed, length-free-freed,
}
use s_llm.Runtime.Slots.{StateAllocator}
use s_llm.Runtime.Slots.Laws.{as_kv, slot_list, free_slot-owned}
use s_llm.Runtime.Coordinator.{BlockTable, Coordinator, blocks_for_tokens, grow, free_sequence}
use mathlib.Core.List.{append-nil}
use s_llm.Runtime.Coordinator.Invariant.{slots_of, IsConsistent}

-- What `free_sequence` of a registered sequence leaves behind.
pub record Released (c : Coordinator) (s : ℕ) (t : BlockTable) (c' : Coordinator) : Type 0 where
  pub consistent : IsConsistent c'
  pub kv_returned : length c'.kv.free ≡ length t.blocks + length c.kv.free
  pub state_returned : length c'.state.free ≡ length (slot_list t.state_slot) + length c.state.free
  pub same_capacity : c'.kv.capacity ≡ c.kv.capacity
  pub forgotten : c'.tables ≡ without s c.tables

module _ (c : Coordinator) (s : ℕ) (t : BlockTable) (v : IsConsistent c)
    (e : lookup s c.tables ≡ some t) where
  owns_blocks : Owns c.kv s t.blocks
  owns_blocks b = ground (arith, v.blocks_tracked s b, e)

  owns_slots : Owns (as_kv c.state) s (slot_list t.state_slot)
  owns_slots b = ground (arith, v.slots_tracked s b, e)

  module _ (st : StateAllocator)
      (left : as_kv st ≡ freed (as_kv c.state) (slot_list t.state_slot)) where
    abbrev after : Coordinator
    after = record { kv = freed c.kv t.blocks; state = st; tables = without s c.tables }

    after-slots :
        (q b : ℕ) → count b (slots_of (lookup q (without s c.tables))) ≡ holds q (lookup b st.owner)
    after-slots q b =
        let k : holds q (lookup b st.owner)
            ≡ holds q (lookup b (freed (as_kv c.state) (slot_list t.state_slot)).owner) =
          ap (λ (x : KvAllocator). holds q (lookup b x.owner)) left in
        ground (
          arith,
          k,
          holds-freed (as_kv c.state) s (slot_list t.state_slot) owns_slots q b,
          v.slots_tracked q b,
          lookup-without s q c.tables,
          e,
        )

    after-Released : Released c s t after
    after-Released = record {
      consistent = record {
        kv_valid = freed-IsValid c.kv s t.blocks owns_blocks v.kv_valid;
        state_valid =
            rw left
              (freed-IsValid (as_kv c.state) s (slot_list t.state_slot) owns_slots v.state_valid);
        tables_distinct = without-Distinct s c.tables v.tables_distinct;
        blocks_tracked = λ q b. ground (
          arith,
          holds-freed c.kv s t.blocks owns_blocks q b,
          v.blocks_tracked q b,
          lookup-without s q c.tables,
          e,
        );
        slots_tracked = after-slots;
      };
      kv_returned = length-free-freed c.kv s t.blocks;
      state_returned =
          ap (λ (x : KvAllocator). length x.free) left
          ∙ length-free-freed (as_kv c.state) s (slot_list t.state_slot);
      same_capacity = unfold freed in refl;
      forgotten = refl;
    }

  -- `free_sequence` of a registered sequence never raises: it gives back all its blocks and its slot
  -- and forgets its table only, and the coordinator stays consistent.
  pub free_sequence_registered :
      (c' : Coordinator) × (free_sequence c s ≡ returns tt c') × Released c s t c'
  unfolding free_sequence
  free_sequence_registered =
      let (st, f, k) = free_slot-owned c.state s t.state_slot owns_slots in
      (
        after st k,
        ground (arith, e, free_blocks-owned c.kv s t.blocks owns_blocks, f),
        after-Released st k,
      )

-- `free_sequence` of an unknown sequence returns and changes nothing.
pub free_sequence_unknown :
    (c : Coordinator) (s : ℕ) → lookup s c.tables ≡ none → free_sequence c s ≡ returns tt c
unfolding free_sequence
free_sequence_unknown c s e = rw (e, free_sequence) refl

module _ (c : Coordinator) (s target block_size : ℕ) (t : BlockTable) (v : IsConsistent c)
    (e : lookup s c.tables ≡ some t) where
  abbrev want : ℕ
  want = blocks_for_tokens target block_size

  abbrev lack : ℕ
  lack = want - length t.blocks

  abbrev longer : BlockTable
  longer = record t { blocks = t.blocks ++ take lack c.kv.free }

  abbrev grown : Coordinator
  grown = record c { kv = allocated c.kv s lack; tables = put s longer c.tables }

  grown-IsConsistent : lack ≤ length c.kv.free → IsConsistent grown
  grown-IsConsistent fits = record {
    kv_valid = allocated-IsValid c.kv s lack fits v.kv_valid;
    state_valid = v.state_valid;
    tables_distinct = put-Distinct s longer c.tables v.tables_distinct;
    blocks_tracked = λ q b. ground (
      arith,
      holds-allocated c.kv s lack v.kv_valid q b,
      v.blocks_tracked q b,
      v.blocks_tracked s b,
      lookup-put s q longer c.tables,
      count-append b t.blocks (take lack c.kv.free),
      e,
    );
    slots_tracked = λ q b.
        ground (arith, v.slots_tracked q b, v.slots_tracked s b, lookup-put s q longer c.tables, e);
  }

  -- `grow` of a registered sequence covers the target: its table keeps the blocks it had, in front,
  -- and has as many as the target needs, or more if it had more. It raises `OutOfCapacity`, changing
  -- nothing, exactly when more blocks are missing than are free. The coordinator stays consistent.
  pub grow_total :
      ((length c.kv.free < lack) × (grow c s target block_size ≡ raises out_of_capacity c))
      ⊎ ((lack ≤ length c.kv.free)
          × (c' : Coordinator) × (ids : List ℕ) × (grow c s target block_size ≡ returns tt c')
          × IsConsistent c'
          × (lookup s c'.tables ≡ some (record t { blocks = t.blocks ++ ids }))
          × (length ids ≡ lack)
          × (length c'.kv.free + length ids ≡ length c.kv.free))
  unfolding grow
  grow_total = elim (Bool-cases (ltb (length t.blocks) want)) [
    | inl more ↦ elim (Bool-cases (ltb (length c.kv.free) lack)) [
      | inl full ↦
          inl (ground arith, ground (arith, e, allocate-full c.kv s lack (ltb→lt _ _ full)))
      | inr room ↦
          let fits : lack ≤ length c.kv.free = ground arith in
          inr (
            fits,
            grown,
            take lack c.kv.free,
            ground (arith, e, allocate-fits c.kv s lack fits),
            grown-IsConsistent fits,
            ground (arith, lookup-put s s longer c.tables),
            omega (arith, length-take lack c.kv.free),
            unfold allocated in
                omega (arith, length-take lack c.kv.free, length-drop lack c.kv.free),
          )
    ]
    | inr enough ↦
        let none_missing : lack ≡ 0 = ground arith in
        inr (
          omega (arith, none_missing),
          c,
          [],
          ground (arith, e),
          v,
          rw (e, append-nil) refl,
          omega (arith, none_missing),
          omega arith,
        )
  ]
