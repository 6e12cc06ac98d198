-- ===== src/Runtime/Coordinator.antt =====
-- `HybridKVCoordinator` of runtime/blocks.py, which pairs the two allocators for each sequence. A
-- block size is at least 1: the scheduler's constructor checks its own.
pub mod Sizes
pub mod Invariant
pub mod Register
pub mod Release
use s_llm.Prelude.{
  ℕ, zero, suc, ◌+◌, ◌-◌, ◌*◌, ◌/◌, ◌%◌, ◌≤◌, ◌<◌, ◌≡◌, ◌≢◌, refl, sym, ap, ◌∙◌, subst, min, ◌⊎◌,
  inl, inr, ◌↔◌, Bool, true, false, ◌&&◌, ◌||◌, not, Option, none, some, List, [], ◌∷◌, ◌++◌, map,
  arith, ltb, leb, ◌==◌, if◌then◌else◌, bit, length, take, drop, replicate, keep, all, count,
  member, sum, range_from, Outcome, returns, raises, state_of, Result, ok, err, ◌>>=◌, Error,
  value_error, key_error, index_error, out_of_capacity, collectives_error, shard_error, ℤ, pos,
  negsuc, Bool-cases, Option-cases, leb→le, le→leb, ltb→lt, lt→ltb, ==_refl, ==_iff, length-append,
  take-append-drop, length-take, length-drop, count-append, count-split, length-range_from,
  count-range_from,
}
use s_llm.Prelude.Dict.{
  Dict, lookup, put, without, has, Distinct, lookup-put, lookup-without, put-Distinct,
  without-Distinct, without_missing, length-put_missing, length-put_present, length-without,
  without-put_missing,
}
use s_llm.Runtime.Kv.{KvAllocator, make_kv, allocate, free_blocks, used_count}
use s_llm.Runtime.Slots.{StateAllocator, make_state, allocate_slot, free_slot}

pub record BlockTable : Type 0 where
  pub seq_id : ℕ
  pub blocks : List ℕ
  pub state_slot : Option ℕ

abbrev pub length_tokens : BlockTable → ℕ → ℕ
length_tokens t block_size = length t.blocks * block_size

pub record Coordinator : Type 0 where
  pub kv : KvAllocator
  pub state : StateAllocator
  pub tables : Dict BlockTable

unfoldable pub make_coordinator : ℤ → ℤ → Result Coordinator
make_coordinator kv_capacity state_capacity = make_kv kv_capacity >>= λ kv.
    make_state state_capacity >>= λ st. ok (record { kv = kv; state = st; tables = [] })

unfoldable pub blocks_for_tokens : ℕ → ℕ → ℕ
blocks_for_tokens tokens block_size =
    if ltb 0 tokens then (tokens + block_size - 1) / block_size else 0

-- `if kv_blocks: table.blocks = self.kv.allocate(seq_id, kv_blocks)`
unfoldable pub take_blocks : KvAllocator → ℕ → ℕ → Outcome KvAllocator (List ℕ)
take_blocks kv seq_id kv_blocks =
    if kv_blocks == 0 then returns [] kv else allocate kv seq_id kv_blocks

-- `if use_state: table.state_slot = self.state.allocate(seq_id)`
unfoldable pub take_slot : StateAllocator → ℕ → Bool → Outcome StateAllocator (Option ℕ)
take_slot st seq_id false = returns none st
take_slot st seq_id true = elim (allocate_slot st seq_id) [
  | returns slot st' ↦ returns (some slot) st'
  | raises e st' ↦ raises e st'
]

-- `if table.blocks: self.kv.free(seq_id, table.blocks)`
unfoldable pub drop_blocks : KvAllocator → ℕ → List ℕ → Outcome KvAllocator (Unit {0})
drop_blocks kv seq_id [] = returns tt kv
drop_blocks kv seq_id (b ∷ bs) = free_blocks kv seq_id (b ∷ bs)

unfoldable pub new_sequence : Coordinator → ℕ → ℕ → ℕ → Bool → Outcome Coordinator BlockTable
new_sequence c seq_id tokens block_size use_state =
    if has seq_id c.tables
    then raises value_error c
    else elim (take_blocks c.kv seq_id (blocks_for_tokens tokens block_size)) [
      | raises e kv ↦ raises e (record c { kv = kv })
      | returns ids kv ↦ elim (take_slot c.state seq_id use_state) [
        | returns slot st ↦
            let table : BlockTable = record { seq_id = seq_id; blocks = ids; state_slot = slot } in
            returns table (record { kv = kv; state = st; tables = put seq_id table c.tables })
        | raises e st ↦ elim (drop_blocks kv seq_id ids) [
          | returns _ kv' ↦ raises e (record c { kv = kv'; state = st })
          | raises e' kv' ↦ raises e' (record c { kv = kv'; state = st })
        ]
      ]
    ]

-- The table object in `tables` is the one that `grow` extends.
unfoldable pub grow : Coordinator → ℕ → ℕ → ℕ → Outcome Coordinator (Unit {0})
grow c seq_id target_tokens block_size = elim (lookup seq_id c.tables) [
  | none ↦ raises key_error c
  | some table ↦
      let want = blocks_for_tokens target_tokens block_size in
      let have = length table.blocks in
      if ltb have want
      then elim (allocate c.kv seq_id (want - have)) [
        | raises e kv ↦ raises e (record c { kv = kv })
        | returns ids kv ↦ returns tt (record c {
          kv = kv;
          tables = put seq_id (record table { blocks = table.blocks ++ ids }) c.tables;
        })
      ]
      else returns tt c
]

unfoldable pub free_sequence : Coordinator → ℕ → Outcome Coordinator (Unit {0})
free_sequence c seq_id = elim (lookup seq_id c.tables) [
  | none ↦ returns tt c
  | some table ↦ elim (free_blocks c.kv seq_id table.blocks) [
    | raises e kv ↦ raises e (record c { kv = kv })
    | returns _ kv ↦ elim (free_slot c.state seq_id table.state_slot) [
      | raises e st ↦ raises e (record c { kv = kv; state = st })
      | returns _ st ↦ returns tt (record { kv = kv; state = st; tables = without seq_id c.tables })
    ]
  ]
]

unfoldable pub kv_used : Coordinator → ℕ → Result ℕ
kv_used c seq_id = elim (lookup seq_id c.tables) [
  | none ↦ err key_error
  | some table ↦ ok (length table.blocks)
]

abbrev pub kv_used_total : Coordinator → ℕ
kv_used_total c = used_count c.kv

abbrev has_slot : Option ℕ → ℕ
has_slot none = 0
has_slot (some slot) = 1

-- `sum(1 for s in self.tables.values() if s.state_slot is not None)`
unfoldable pub slots_in_use : Dict BlockTable → ℕ
slots_in_use [] = 0
slots_in_use ((s, t) ∷ rest) = has_slot t.state_slot + slots_in_use rest

abbrev pub state_used_total : Coordinator → ℕ
state_used_total c = slots_in_use c.tables
