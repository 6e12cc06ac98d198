-- ===== src/Runtime/Scheduler/Maximal.antt =====
-- `pump` leaves nobody waiting whom it could still admit.
use mathlib.Core.List.{append-nil, append_assoc}
use s_llm.Prelude.{
  ℕ, ◌+◌, ◌≤◌, ◌≡◌, refl, sym, ap, ◌∙◌, inl, inr, false, List, [], ◌∷◌, ◌++◌, map, arith, ◌==◌, bit,
  count, returns, Bool-cases,
}
use s_llm.Prelude.Dict.{Dict, put, has, lookup}
use s_llm.Runtime.Scheduler.{Request, Scheduler, accepts, pump, running_list}
use s_llm.Runtime.Scheduler.Invariant.{ids, IsSound, has-put}
use s_llm.Runtime.Scheduler.Pump.{
  Budget, budget_of, fits, spend, greedy, start_all, accepts-fits, pump_loop-Pumped,
}

record Below (b d : Budget) : Type 0 where
  places : b.places ≤ d.places
  blocks : b.blocks ≤ d.blocks
  slots : b.slots ≤ d.slots

left-Below : (bs : ℕ) (b : Budget) (rs : List Request) → Below (greedy bs b rs).left b
unfolding greedy
left-Below bs b [] = omega arith
left-Below bs b (r ∷ rs) = elim (Bool-cases (fits bs b r)) [
  | inl e ↦
      rw (e, greedy)
        (let h : Below (greedy bs (spend bs b r) rs).left (spend bs b r) =
            left-Below bs (spend bs b r) rs in
          record {
            places = omega (arith, h.places);
            blocks = omega (arith, h.blocks);
            slots = omega (arith, h.slots);
          })
  | inr e ↦ rw (e, greedy) (left-Below bs b rs)
]

refused-Below :
    (bs : ℕ) (b d : Budget) (r : Request) → Below b d → fits bs d r ≡ false → fits bs b r ≡ false
refused-Below bs b d r h e = ground arith

abbrev pub AllRefused : ℕ → Budget → List Request → Type 0
AllRefused bs b [] = Unit
AllRefused bs b (r ∷ rs) = (fits bs b r ≡ false) × AllRefused bs b rs

kept-AllRefused :
    (bs : ℕ) (b : Budget) (rs : List Request)
    → AllRefused bs (greedy bs b rs).left (greedy bs b rs).kept
unfolding greedy
kept-AllRefused bs b [] = tt
kept-AllRefused bs b (r ∷ rs) = elim (Bool-cases (fits bs b r)) [
  | inl e ↦ rw (e, greedy) (kept-AllRefused bs (spend bs b r) rs)
  | inr e ↦
      rw (e, greedy)
        (refused-Below bs (greedy bs b rs).left b r (left-Below bs b rs) e, kept-AllRefused bs b rs)
]

abbrev pub NoneAccepted : Scheduler → List Request → Type 0
NoneAccepted s [] = Unit
NoneAccepted s (r ∷ rs) = (accepts s r ≡ false) × NoneAccepted s rs

AllRefused-NoneAccepted :
    (s : Scheduler) (rs : List Request)
    → AllRefused s.block_size (budget_of s) rs
    → NoneAccepted s rs
AllRefused-NoneAccepted s [] h = tt
AllRefused-NoneAccepted s (r ∷ rs) h = (accepts-fits s r ∙ h.0, AllRefused-NoneAccepted s rs h.1)

pub greedy-count :
    (bs q : ℕ) (b : Budget) (rs : List Request)
    → count q (ids (greedy bs b rs).taken) + count q (ids (greedy bs b rs).kept) ≡ count q (ids rs)
unfolding greedy
greedy-count bs q b [] = omega arith
greedy-count bs q b (r ∷ rs) = elim (Bool-cases (fits bs b r)) [
  | inl e ↦ rw (e, greedy) (omega (arith, greedy-count bs q (spend bs b r) rs))
  | inr e ↦ rw (e, greedy) (omega (arith, greedy-count bs q b rs))
]

-- A list cut into two, each in the order of the whole.
pub data Interleaved {A : Type 0} : List A → List A → List A → Type 0 where
  both_end : Interleaved [] [] []
  from_first : {x : A} {xs ys zs : List A} → Interleaved xs ys zs → Interleaved (x ∷ xs) ys (x ∷ zs)
  from_second :
      {y : A} {xs ys zs : List A} → Interleaved xs ys zs → Interleaved xs (y ∷ ys) (y ∷ zs)

greedy-Interleaved :
    (bs : ℕ) (b : Budget) (rs : List Request)
    → Interleaved (greedy bs b rs).taken (greedy bs b rs).kept rs
unfolding greedy
greedy-Interleaved bs b [] = both_end
greedy-Interleaved bs b (r ∷ rs) = elim (Bool-cases (fits bs b r)) [
  | inl e ↦ rw (e, greedy) (from_first (greedy-Interleaved bs (spend bs b r) rs))
  | inr e ↦ rw (e, greedy) (from_second (greedy-Interleaved bs b rs))
]

values-put :
    (q : ℕ) (r : Request) (d : Dict Request)
    → has q d ≡ false
    → map (λ (x : ℕ × Request). x.1) (put q r d) ≡ map (λ (x : ℕ × Request). x.1) d ++ r ∷ []
unfolding put has lookup
values-put q r [] h = refl
values-put q r ((j, x) ∷ d) h = elim (Bool-cases (j == q)) [
  | inl e ↦ absurd (ground (arith, e, h))
  | inr e ↦ rw e (ap (◌∷◌ x) (values-put q r d (ground (arith, e, h))))
]

-- Requests with new ids run behind those that ran.
start_all-values :
    (ts : List Request) (d : Dict Request)
    → ((q : ℕ) → count q (ids ts) + bit (has q d) ≤ 1)
    → map (λ (x : ℕ × Request). x.1) (start_all ts d) ≡ map (λ (x : ℕ × Request). x.1) d ++ ts
unfolding start_all
start_all-values [] d h = sym (append-nil (map (λ (x : ℕ × Request). x.1) d))
start_all-values (t ∷ ts) d h =
    start_all-values ts (put t.seq_id t d) (λ q. ground (arith, h q, has-put t.seq_id q t d))
    ∙ ap (λ xs. xs ++ ts) (values-put t.seq_id t d (ground (arith, h t.seq_id)))
    ∙ append_assoc (map (λ (x : ℕ × Request). x.1) d) (t ∷ []) ts

-- `pump` of a sound scheduler loses no request and leaves no room unused: it cuts the queue in two,
-- each part in the order of the queue. Those of the one part run afterwards, behind the requests that
-- ran before, and their ids are what it returns. Those of the other part still wait, and the scheduler
-- it ends in would accept none of them.
pub pump_maximal :
    (s : Scheduler)
    → IsSound s
    → (taken : List Request) × (s' : Scheduler) × (pump s ≡ returns (ids taken) s')
      × Interleaved taken s'.waiting s.waiting
      × (running_list s' ≡ running_list s ++ taken)
      × NoneAccepted s' s'.waiting
unfolding pump
pump_maximal s v =
    let p = pump_loop-Pumped s [] [] s.waiting v in
    let c = greedy s.block_size (budget_of s) s.waiting in
    (
      c.taken,
      p.s',
      p.returned,
      rw p.waits (greedy-Interleaved s.block_size (budget_of s) s.waiting),
      ap (map (λ (x : ℕ × Request). x.1)) p.runs
          ∙ start_all-values c.taken s.running
              (λ q. omega (arith, v.unique q, greedy-count s.block_size q (budget_of s) s.waiting)),
      AllRefused-NoneAccepted p.s' p.s'.waiting (
          rw (p.waits, p.remains, p.same_block_size)
            (kept-AllRefused s.block_size (budget_of s) s.waiting)),
    )
