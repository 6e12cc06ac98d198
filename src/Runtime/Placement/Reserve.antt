-- ===== src/Runtime/Placement/Reserve.antt =====
-- Reservation keeps the free blocks and the reserved ones together at the plan's number.
use s_llm.Prelude.{
  ℕ, ◌+◌, ◌-◌, ◌<◌, ◌≡◌, refl, ◌∙◌, ◌⊎◌, inl, inr, true, false, Option, none, some, List, [], ◌∷◌,
  arith, ltb, ◌==◌, if◌then◌else◌, returns, raises, state_of, value_error, out_of_capacity,
  Bool-cases, Option-cases,
}
use s_llm.Prelude.Dict.{
  Dict, lookup, put, without, has, Distinct, lookup-put, lookup-without, put-Distinct,
  without-Distinct, without_missing,
}
use s_llm.Runtime.Placement.{KvMemoryPlan, KvBackend, make_backend, reserve, release}

-- The number of reserved blocks.
unfoldable pub reserved : Dict ℕ → ℕ
reserved [] = 0
reserved ((q, n) ∷ d) = n + reserved d

pub reserved-put :
    (k v : ℕ) (d : Dict ℕ) → lookup k d ≡ none → reserved (put k v d) ≡ reserved d + v
unfolding reserved lookup put
reserved-put k v [] h = omega arith
reserved-put k v ((j, w) ∷ d) h = ground (arith, reserved-put k v d)

pub reserved-without :
    (k v : ℕ) (d : Dict ℕ)
    → Distinct d
    → lookup k d ≡ some v
    → reserved (without k d) + v ≡ reserved d
unfolding reserved lookup without
reserved-without k v [] s h = cc
reserved-without k v ((j, w) ∷ d) s h =
    ground (arith, reserved-without k v d s.1, without_missing k d)

pub record IsSized (b : KvBackend) : Type 0 where
  pub distinct : Distinct b.blocks
  pub sized : b.blocks_free + reserved b.blocks ≡ b.plan.num_blocks

-- `reserve` raises `ValueError` for a sequence that has a reservation and `OutOfCapacity` for more
-- blocks than are free, and both change nothing. Otherwise the sequence has its blocks, no other
-- reservation changes, and free and reserved blocks still make up the plan.
pub reserve_total :
    (b : KvBackend) (q n : ℕ)
    → IsSized b
    → ((has q b.blocks ≡ true) × (reserve b q n ≡ raises value_error b))
      ⊎ (((has q b.blocks ≡ false)
            × (b.blocks_free < n)
            × (reserve b q n ≡ raises out_of_capacity b))
          ⊎ ((b' : KvBackend) × (reserve b q n ≡ returns tt b')
              × (has q b.blocks ≡ false)
              × (b'.blocks_free + n ≡ b.blocks_free)
              × ((j : ℕ) → lookup j b'.blocks ≡ (if q == j then some n else lookup j b.blocks))
              × (b'.plan ≡ b.plan)
              × IsSized b'))
unfolding reserve has
reserve_total b q n v = elim (Bool-cases (has q b.blocks)) [
  | inl e ↦ inl (e, rw e refl)
  | inr e ↦ elim (Bool-cases (ltb b.blocks_free n)) [
    | inl f ↦ inr (inl (e, ground arith, rw (e, f) refl))
    | inr f ↦
        let b' : KvBackend = record b {
          blocks = put q n b.blocks;
          blocks_free = b.blocks_free - n;
        } in
        inr (
          inr (
            b',
            rw (e, f) refl,
            e,
            ground arith,
            λ j. lookup-put q j n b.blocks,
            refl,
            record {
              distinct = put-Distinct q n b.blocks v.distinct;
              sized = ground (arith, v.sized, e, reserved-put q n b.blocks);
            },
          ))
  ]
]

abbrev pub or_none : Option ℕ → ℕ
or_none none = 0
or_none (some n) = n

-- `release` gives back what the sequence has reserved, which is nothing without a reservation, and
-- changes no other reservation.
pub release_total :
    (b : KvBackend) (q : ℕ)
    → IsSized b
    → let b' = release b q in
      (b'.blocks_free ≡ b.blocks_free + or_none (lookup q b.blocks))
      × ((j : ℕ) → lookup j b'.blocks ≡ (if q == j then none else lookup j b.blocks))
      × (b'.plan ≡ b.plan)
      × IsSized b'
unfolding release
release_total b q v = elim (Option-cases (lookup q b.blocks)) [
  | inl e ↦ (
    rw e refl,
    λ j. lookup-without q j b.blocks,
    refl,
    record {
      distinct = without-Distinct q b.blocks v.distinct;
      sized = rw e (ground (arith, without_missing q b.blocks, v.sized));
    },
  )
  | inr (n, e) ↦ (
    rw e refl,
    λ j. lookup-without q j b.blocks,
    refl,
    record {
      distinct = without-Distinct q b.blocks v.distinct;
      sized = rw e (ground (arith, reserved-without q n b.blocks v.distinct e, v.sized));
    },
  )
]

pub data Use : Type 0 where
  reserves : ℕ → ℕ → Use
  releases : ℕ → Use

unfoldable pub after_use : KvBackend → Use → KvBackend
after_use b (reserves q n) = state_of (reserve b q n)
after_use b (releases q) = release b q

unfoldable pub after_uses : KvBackend → List Use → KvBackend
after_uses b [] = b
after_uses b (u ∷ us) = after_uses (after_use b u) us

after_use-IsSized :
    (b : KvBackend) (u : Use)
    → IsSized b
    → ((after_use b u).plan ≡ b.plan) × IsSized (after_use b u)
unfolding after_use
after_use-IsSized b (reserves q n) v = elim (reserve_total b q n v) [
  | inl (_, e) ↦ rw e (refl, v)
  | inr (inl (_, _, e)) ↦ rw e (refl, v)
  | inr (inr (b', e, _, _, _, p, w)) ↦ rw e (p, w)
]
after_use-IsSized b (releases q) v = let (_, _, p, w) = release_total b q v in (p, w)

pub after_uses-IsSized :
    (b : KvBackend) (us : List Use)
    → IsSized b
    → ((after_uses b us).plan ≡ b.plan) × IsSized (after_uses b us)
unfolding after_uses
after_uses-IsSized b [] v = (refl, v)
after_uses-IsSized b (u ∷ us) v =
    let (p, w) = after_use-IsSized b u v in
    let (p', w') = after_uses-IsSized (after_use b u) us w in (p' ∙ p, w')

pub make_backend-IsSized : (p : KvMemoryPlan) → IsSized (make_backend p)
unfolding reserved
make_backend-IsSized p = record { distinct = tt; sized = omega arith }
