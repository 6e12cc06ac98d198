-- ===== src/Runtime/Kv/Batch.antt =====
-- The loops of `KVBlockAllocator.allocate` and `free` over a batch of block ids, one lemma for each.
use s_llm.Prelude.{
  ℕ, ◌+◌, ◌≤◌, ◌≡◌, refl, inl, inr, true, Option, none, some, List, [], ◌∷◌, arith, ltb,
  if◌then◌else◌, bit, length, count, member, returns, Option-cases,
}
use s_llm.Prelude.Dict.{
  Dict, lookup, put, without, Distinct, lookup-put, lookup-without, put-Distinct, without-Distinct,
  length-put_missing, length-without,
}
use s_llm.Runtime.Heap.{
  heappush, heappushes, Ascending, count-heappush, length-heappush, heappush-Ascending,
}
use s_llm.Runtime.Kv.{KvAllocator, own_all, owned_by, validate, release_all, owned}

abbrev pub present : Option ℕ → ℕ
present none = 0
present (some q) = 1

-- 1 if `s` is the owner, else 0.
abbrev pub holds : ℕ → Option ℕ → ℕ
holds s o = bit (owned_by s o)

pub member-count : (b : ℕ) (xs : List ℕ) → member b xs ≡ ltb 0 (count b xs)
member-count b [] = refl
member-count b (x ∷ xs) = ground (arith, member-count b xs)

pub lookup-own_all :
    (b s : ℕ) (ids : List ℕ) (owner : Dict ℕ)
    → lookup b (own_all ids s owner) ≡ (if ltb 0 (count b ids) then some s else lookup b owner)
unfolding own_all
lookup-own_all b s [] owner = refl
lookup-own_all b s (x ∷ xs) owner =
    ground (arith, lookup-own_all b s xs (put x s owner), lookup-put x b s owner)

pub own_all-Distinct :
    (s : ℕ) (ids : List ℕ) (owner : Dict ℕ) → Distinct owner → Distinct (own_all ids s owner)
unfolding own_all
own_all-Distinct s [] owner d = d
own_all-Distinct s (x ∷ xs) owner d =
    own_all-Distinct s xs (put x s owner) (put-Distinct x s owner d)

pub length-own_all :
    (s : ℕ) (ids : List ℕ) (owner : Dict ℕ)
    → ((b : ℕ) → count b ids + present (lookup b owner) ≤ 1)
    → length (own_all ids s owner) ≡ length owner + length ids
unfolding own_all
length-own_all s [] owner h = omega arith
length-own_all s (x ∷ xs) owner h =
    let missing : lookup x owner ≡ none = ground (arith, h x) in
    omega (
      arith,
      length-put_missing x s owner missing,
      length-own_all s xs (put x s owner) (λ b. ground (arith, h b, lookup-put x b s owner)),
    )

unfoldable pub without_all : List ℕ → Dict ℕ → Dict ℕ
without_all [] owner = owner
without_all (b ∷ bs) owner = without_all bs (without b owner)

pub lookup-without_all :
    (b : ℕ) (ids : List ℕ) (owner : Dict ℕ)
    → lookup b (without_all ids owner) ≡ (if ltb 0 (count b ids) then none else lookup b owner)
unfolding without_all
lookup-without_all b [] owner = refl
lookup-without_all b (x ∷ xs) owner =
    ground (arith, lookup-without_all b xs (without x owner), lookup-without x b owner)

pub without_all-Distinct :
    (ids : List ℕ) (owner : Dict ℕ) → Distinct owner → Distinct (without_all ids owner)
unfolding without_all
without_all-Distinct [] owner d = d
without_all-Distinct (x ∷ xs) owner d =
    without_all-Distinct xs (without x owner) (without-Distinct x owner d)

pub length-without_all :
    (ids : List ℕ) (owner : Dict ℕ)
    → Distinct owner
    → ((b : ℕ) → count b ids ≤ present (lookup b owner))
    → length (without_all ids owner) + length ids ≡ length owner
unfolding without_all
length-without_all [] owner d h = omega arith
length-without_all (x ∷ xs) owner d h = elim (Option-cases (lookup x owner)) [
  | inl e ↦ absurd (ground (arith, h x))
  | inr (q, e) ↦ omega (
    arith,
    length-without x q owner d e,
    length-without_all xs (without x owner) (without-Distinct x owner d)
        (λ b. ground (arith, h b, h x, lookup-without x b owner)),
  )
]

pub count-heappushes :
    (b : ℕ) (ids h : List ℕ) → count b (heappushes ids h) ≡ count b ids + count b h
unfolding heappushes
count-heappushes b [] h = omega arith
count-heappushes b (x ∷ xs) h =
    omega (arith, count-heappushes b xs (heappush x h), count-heappush b x h)

pub length-heappushes : (ids h : List ℕ) → length (heappushes ids h) ≡ length ids + length h
unfolding heappushes
length-heappushes [] h = omega arith
length-heappushes (x ∷ xs) h =
    omega (arith, length-heappushes xs (heappush x h), length-heappush x h)

pub heappushes-Ascending :
    (ids h : List ℕ)
    → ((b : ℕ) → count b ids + count b h ≤ 1)
    → Ascending h
    → Ascending (heappushes ids h)
unfolding heappushes
heappushes-Ascending [] h c s = s
heappushes-Ascending (x ∷ xs) h c s =
    heappushes-Ascending xs (heappush x h) (λ b. ground (arith, c b, count-heappush b x h))
      (heappush-Ascending x h (ground (arith, c x)) s)

-- The state after the blocks `ids` went back.
unfoldable pub freed : KvAllocator → List ℕ → KvAllocator
freed kv ids = record kv { free = heappushes ids kv.free; owner = without_all ids kv.owner }

pub release_all-eq :
    (ids : List ℕ) (kv : KvAllocator)
    → ((b : ℕ) → count b ids ≤ present (lookup b kv.owner))
    → release_all ids kv ≡ returns tt (freed kv ids)
unfolding release_all freed heappushes without_all
release_all-eq [] kv h = refl
release_all-eq (x ∷ xs) kv h = elim (Option-cases (lookup x kv.owner)) [
  | inl e ↦ absurd (ground (arith, h x))
  | inr (q, e) ↦
      rw (e, release_all)
        (release_all-eq xs (record kv { owner = without x kv.owner; free = heappush x kv.free })
          (λ b. ground (arith, h b, h x, lookup-without x b kv.owner)))
]

-- What `validate` lets through, when the ids in `seen` came before.
abbrev Allowed : Dict ℕ → ℕ → List ℕ → List ℕ → Type 0
Allowed owner s seen ids =
    (b : ℕ) → count b ids ≤ (if member b seen then 0 else holds s (lookup b owner))

pub validate-Allowed :
    (owner : Dict ℕ) (s : ℕ) (seen ids : List ℕ)
    → validate owner s seen ids ≡ true
    → Allowed owner s seen ids
unfolding validate
validate-Allowed owner s seen [] h b = omega arith
validate-Allowed owner s seen (x ∷ xs) h b =
    ground (arith, validate-Allowed owner s (x ∷ seen) xs (ground arith) b)

pub Allowed-validate :
    (owner : Dict ℕ) (s : ℕ) (seen ids : List ℕ)
    → Allowed owner s seen ids
    → validate owner s seen ids ≡ true
unfolding validate
Allowed-validate owner s seen [] h = refl
Allowed-validate owner s seen (x ∷ xs) h =
    ground (arith, h x, Allowed-validate owner s (x ∷ seen) xs (λ b. ground (arith, h b, h x)))

-- `owned` lists each block of the sequence once.
pub count-owned :
    (s b : ℕ) (owner : Dict ℕ) → Distinct owner → count b (owned s owner) ≡ holds s (lookup b owner)
unfolding owned lookup
count-owned s b [] d = refl
count-owned s b ((c, q) ∷ rest) d = ground (arith, count-owned s b rest d.1, d.0)
