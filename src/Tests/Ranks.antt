-- ===== src/Tests/Ranks.antt =====
-- tp/collectives.py at concrete inputs.
use s_llm.Prelude.{
  ℕ, ◌+◌, ◌≡◌, refl, Bool, List, [], ◌∷◌, ◌++◌, arith, ltb, ◌==◌, bit, length, count, returns, ok,
  err, collectives_error, pos,
}
use s_llm.Tp.Collectives.{
  SimCollectives, make_collectives, all_gather, reduce_loop, all_reduce_partials,
}
use s_llm.Tp.Collectives.Gather.{contribute_all, all_gather_any_order}

-- Arrays are lists of numbers.
abbrev Row : Type 0
Row = List ℕ

-- `numpy.concatenate` of rows
abbrev joined : List Row → ℕ → Row
joined [] axis = []
joined (x ∷ xs) axis = x ++ joined xs axis

abbrev row_of : ℕ → Row
row_of r = r ∷ 10 ∷ []

abbrev world : SimCollectives Row
world = record { world_size = 3; tags = [] }

world-made : make_collectives (pos 3) ≡ ok world
unfolding make_collectives
world-made = refl

abbrev one_in : SimCollectives Row
one_in = record { world_size = 3; tags = (5, (1, row_of 1) ∷ []) ∷ [] }

abbrev order : List ℕ
order = 2 ∷ 0 ∷ 1 ∷ []

each_once : (b : ℕ) → count b order ≡ bit (ltb b 3)
each_once b = ground arith

all_gather_any_order_example :
    (c' : SimCollectives Row) × (contribute_all world 5 row_of order ≡ returns tt c')
    × (all_gather joined c' 5 0 ≡ ok (0 ∷ 10 ∷ 1 ∷ 10 ∷ 2 ∷ 10 ∷ []))
all_gather_any_order_example =
    all_gather_any_order joined 3 world 5 0 row_of order world-made each_once

abbrev same_length : Row → Row → Bool
same_length x y = length x == length y

-- Rows are added place by place.
abbrev plus : Row → Row → Row
plus [] y = []
plus (x ∷ xs) [] = x ∷ xs
plus (x ∷ xs) (y ∷ ys) = (x + y) ∷ plus xs ys

abbrev as_is : Row → Row
as_is x = x

abbrev second : Row → Row → Row
second x y = y

-- Two partials whose shapes differ.
shapes_differ :
    all_reduce_partials same_length as_is plus second ((1 ∷ []) ∷ (1 ∷ 2 ∷ []) ∷ [])
    ≡ err collectives_error
unfolding all_reduce_partials reduce_loop
shapes_differ = refl
