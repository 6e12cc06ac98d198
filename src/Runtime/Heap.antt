-- ===== src/Runtime/Heap.antt =====
-- The free lists of runtime/blocks.py are min-heaps of Python's `heapq`. The code looks at a heap
-- only by `len`, `heappush` and `heappop`, so a heap is its ascending list of elements.
use s_llm.Prelude.{
  ℕ, zero, suc, ◌+◌, ◌≤◌, ◌<◌, ◌≡◌, refl, ap, ◌∙◌, List, [], ◌∷◌, arith, leb, ◌==◌, if◌then◌else◌,
  bit, length, take, drop, count, range_from, Outcome, returns, raises, index_error, inl, inr,
  Bool-cases, leb→le,
}

unfoldable pub heappush : ℕ → List ℕ → List ℕ
heappush b [] = b ∷ []
heappush b (x ∷ xs) = let rest = heappush b xs in if leb b x then b ∷ x ∷ xs else x ∷ rest

-- `[heapq.heappop(h) for _ in range(n)]`
unfoldable pub heappops : ℕ → List ℕ → Outcome (List ℕ) (List ℕ)
heappops zero h = returns [] h
heappops (suc n) [] = raises index_error []
heappops (suc n) (x ∷ xs) = elim (heappops n xs) [
  | returns ids h ↦ returns (x ∷ ids) h
  | raises e h ↦ raises e h
]

-- `for b in ids: heapq.heappush(h, b)`
unfoldable pub heappushes : List ℕ → List ℕ → List ℕ
heappushes [] h = h
heappushes (b ∷ bs) h = heappushes bs (heappush b h)

-- Every element of the list is above `a`.
abbrev pub Above : ℕ → List ℕ → Type 0
Above a [] = Unit
Above a (x ∷ xs) = (a < x) × Above a xs

abbrev pub Ascending : List ℕ → Type 0
Ascending [] = Unit
Ascending (x ∷ xs) = Above x xs × Ascending xs

pub heappops-fits :
    (n : ℕ) (h : List ℕ) → n ≤ length h → heappops n h ≡ returns (take n h) (drop n h)
unfolding heappops
heappops-fits zero h p = refl
heappops-fits (suc n) [] p = absurd (omega arith)
heappops-fits (suc n) (x ∷ xs) p = ground (arith, heappops-fits n xs)

pub count-heappush : (a b : ℕ) (h : List ℕ) → count a (heappush b h) ≡ bit (b == a) + count a h
unfolding heappush
count-heappush a b [] = refl
count-heappush a b (x ∷ xs) = ground (arith, count-heappush a b xs)

pub length-heappush : (b : ℕ) (h : List ℕ) → length (heappush b h) ≡ suc (length h)
unfolding heappush
length-heappush b [] = refl
length-heappush b (x ∷ xs) = ground (arith, length-heappush b xs)

pub Above-le : (a b : ℕ) (h : List ℕ) → a ≤ b → Above b h → Above a h
Above-le a b [] p q = tt
Above-le a b (x ∷ xs) p q = (omega arith, Above-le a b xs p q.1)

Above-count : (a b : ℕ) (h : List ℕ) → Above a h → b ≤ a → count b h ≡ 0
Above-count a b [] q p = refl
Above-count a b (x ∷ xs) q p = ground (arith, Above-count a b xs q.1 p)

Above-heappush : (a b : ℕ) (h : List ℕ) → a < b → Above a h → Above a (heappush b h)
unfolding heappush
Above-heappush a b [] p q = (p, tt)
Above-heappush a b (x ∷ xs) p q = ground (arith, Above-heappush a b xs p q.1)

-- Pushing a new element keeps the order.
pub heappush-Ascending :
    (b : ℕ) (h : List ℕ) → count b h ≡ 0 → Ascending h → Ascending (heappush b h)
unfolding heappush
heappush-Ascending b [] c s = (tt, tt)
heappush-Ascending b (x ∷ xs) c s = elim (Bool-cases (leb b x)) [
  | inl small ↦ rw small (((ground arith), Above-le b x xs (leb→le b x small) s.0), s)
  | inr large ↦
      rw large
        (Above-heappush x b xs (ground arith) s.0, heappush-Ascending b xs (ground arith) s.1)
]

pub drop-Ascending : (n : ℕ) (h : List ℕ) → Ascending h → Ascending (drop n h)
drop-Ascending zero h s = s
drop-Ascending (suc n) [] s = tt
drop-Ascending (suc n) (x ∷ xs) s = drop-Ascending n xs s.1

pub range_from-Ascending : (lo n : ℕ) → Ascending (range_from lo n)
range_from-Ascending lo zero = tt
range_from-Ascending lo (suc n) =
    (above lo (suc lo) n (omega arith), range_from-Ascending (suc lo) n)
  where
    above : (a lo n : ℕ) → a < lo → Above a (range_from lo n)
    above a lo zero p = tt
    above a lo (suc n) p = (p, above a (suc lo) n (omega arith))

-- A heap of which the `n` least elements were popped is restored when they are pushed again.
heappush_least : (x : ℕ) (h : List ℕ) → Above x h → heappush x h ≡ x ∷ h
unfolding heappush
heappush_least x [] a = refl
heappush_least x (y ∷ ys) a = ground arith

heappushes_least :
    (x : ℕ) (bs h : List ℕ) → Above x bs → heappushes bs (x ∷ h) ≡ x ∷ heappushes bs h
unfolding heappushes heappush
heappushes_least x [] h a = refl
heappushes_least x (b ∷ bs) h a = ground (arith, heappushes_least x bs (heappush b h) a.1)

Above-take : (a n : ℕ) (h : List ℕ) → Above a h → Above a (take n h)
Above-take a zero h q = tt
Above-take a (suc n) [] q = tt
Above-take a (suc n) (x ∷ xs) q = (q.0, Above-take a n xs q.1)

Above-drop : (a n : ℕ) (h : List ℕ) → Above a h → Above a (drop n h)
Above-drop a zero h q = q
Above-drop a (suc n) [] q = tt
Above-drop a (suc n) (x ∷ xs) q = Above-drop a n xs q.1

pub heappushes-take-drop : (n : ℕ) (h : List ℕ) → Ascending h → heappushes (take n h) (drop n h) ≡ h
unfolding heappushes
heappushes-take-drop zero h s = refl
heappushes-take-drop (suc n) [] s = refl
heappushes-take-drop (suc n) (x ∷ xs) s =
    ap (heappushes (take n xs)) (heappush_least x (drop n xs) (Above-drop x n xs s.0))
    ∙ heappushes_least x (take n xs) (drop n xs) (Above-take x n xs s.0)
    ∙ ap (◌∷◌ x) (heappushes-take-drop n xs s.1)
