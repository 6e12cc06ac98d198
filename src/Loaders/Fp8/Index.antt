-- ===== src/Loaders/Fp8/Index.antt =====
-- The index arrays of the dequantization, and loops over them.
use s_llm.Prelude.{
  ℕ, zero, suc, ◌+◌, ◌-◌, ◌*◌, ◌/◌, ◌%◌, ◌≤◌, ◌<◌, ◌≡◌, refl, sym, ap, ◌∙◌, inl, inr, List, [], ◌∷◌,
  ◌++◌, map, arith, ◌==◌, length, take, replicate, range_from, Result, ok, err, ◌>>=◌, ok_inj,
  Bool-cases, ==_iff,
}
use native.Mathlib.Nat.{
  add-mul, mul-add, zero-add, div-add-mod, mod-lt, div-lt_iff_lt-mul, mul-add-div, div-eq_of_lt,
  mul_comm, add-zero,
}
use s_llm.Runtime.Planner.{ceiling}
use s_llm.Loaders.Shard.{item, each_of}
use s_llm.Loaders.Slices.Reassemble.{AllWide}
use s_llm.Loaders.Fp8.{repeated, block_index, blocks_of, gather, zipped}

module _ {Y : Type 0} where
  -- A loop all of whose steps succeed.
  each_total :
      (g : ℕ → Result Y) (n lo : ℕ)
      → ((i : ℕ) → i < lo + n → (y : Y) × (g i ≡ ok y))
      → (ys : List Y) × (each_of (range_from lo n) g ≡ ok ys)
  unfolding each_of
  each_total g zero lo h = ([], refl)
  each_total g (suc n) lo h =
      let (y, e) = h lo (omega arith) in
      let (ys, es) = each_total g n (suc lo) (λ i k. h i (omega (arith, k))) in
      (y ∷ ys, rw (e, es) refl)

  pub each_ext :
      (f g : ℕ → Result Y) (n lo : ℕ)
      → ((i : ℕ) → i < lo + n → f i ≡ g i)
      → each_of (range_from lo n) f ≡ each_of (range_from lo n) g
  unfolding each_of
  each_ext f g zero lo h = refl
  each_ext f g (suc n) lo h =
      let rest : each_of (range_from (suc lo) n) f ≡ each_of (range_from (suc lo) n) g =
        each_ext f g n (suc lo) (λ i k. h i (omega (arith, k))) in
      rw (h lo (omega arith), rest) refl

module _ {X Y Z : Type 0} where
  -- First the one array and then the products, or both in one loop.
  pub zip_each :
      (f : X → Y → Result Z) (g : ℕ → Result Y) (source : List X) (xs : List X) (lo : ℕ)
      → ((i : ℕ) → item xs i ≡ item source (lo + i))
      → ((i : ℕ) → i < lo + length xs → (y : Y) × (g i ≡ ok y))
      → (each_of (range_from lo (length xs)) g >>= λ ys. zipped f xs ys)
        ≡ each_of (range_from lo (length xs)) (λ i. item source i >>= λ x. g i >>= λ y. f x y)
  unfolding each_of zipped
  zip_each f g source [] lo there h = refl
  zip_each f g source (x ∷ xs) lo there h =
      let here : item source lo ≡ ok x = ap (item source) (sym (add-zero lo)) ∙ sym (there 0) in
      let (y, e) = h lo (omega arith) in
      let (ys, es) = each_total g (length xs) (suc lo) (λ i k. h i (omega (arith, k))) in
      let ih : (each_of (range_from (suc lo) (length xs)) g >>= λ ys. zipped f xs ys)
          ≡ each_of (range_from (suc lo) (length xs))
              (λ i. item source i >>= λ x. g i >>= λ y. f x y) =
        zip_each f g source xs (suc lo)
          (λ i.
            let next : lo + suc i ≡ suc lo + i = omega arith in
            there (suc i) ∙ ap (item source) next)
          (λ i k. h i (omega (arith, k))) in
      let ih' : zipped f xs ys
          ≡ each_of (range_from (suc lo) (length xs))
              (λ i. item source i >>= λ x. g i >>= λ y. f x y) =
        ap (λ r. r >>= λ ys. zipped f xs ys) (sym es) ∙ ih in
      rw (e, es, here, ih') refl

module _ {ℓ} {B : Type ℓ} where
  pub item_inside : (xs : List B) (i : ℕ) → i < length xs → (x : B) × (item xs i ≡ ok x)
  item_inside [] i h = absurd (omega (arith, h))
  item_inside (x ∷ xs) zero h = (x, refl)
  item_inside (x ∷ xs) (suc i) h = item_inside xs i (omega (arith, h))

  pub item-AllWide :
      (w : ℕ) (xs : List (List B)) (i : ℕ) (x : List B)
      → AllWide w xs
      → item xs i ≡ ok x
      → length x ≡ w
  item-AllWide w [] i x h e = cc
  item-AllWide w (row ∷ rows) zero x (h, hs) e = ap length (sym (ok_inj e)) ∙ h
  item-AllWide w (row ∷ rows) (suc i) x (h, hs) e = item-AllWide w rows i x hs e

  map-append : {D : Type ℓ} (f : B → D) (xs ys : List B) → map f (xs ++ ys) ≡ map f xs ++ map f ys
  map-append f [] ys = refl
  map-append f (x ∷ xs) ys = ap (◌∷◌ (f x)) (map-append f xs ys)

  map-take : {D : Type ℓ} (f : B → D) (n : ℕ) (xs : List B) → map f (take n xs) ≡ take n (map f xs)
  map-take f zero xs = refl
  map-take f (suc n) [] = refl
  map-take f (suc n) (x ∷ xs) = ap (◌∷◌ (f x)) (map-take f n xs)

take-range_from : (n m lo : ℕ) → n ≤ m → take n (range_from lo m) ≡ range_from lo n
take-range_from zero m lo h = refl
take-range_from (suc n) zero lo h = absurd (omega (arith, h))
take-range_from (suc n) (suc m) lo h = ap (◌∷◌ lo) (take-range_from n m (suc lo) (omega (arith, h)))

range_from-append : (a b lo : ℕ) → range_from lo (a + b) ≡ range_from lo a ++ range_from (lo + a) b
range_from-append zero b lo = rw (zero-add b, add-zero lo) refl
range_from-append (suc a) b lo =
    let one : suc a + b ≡ suc (a + b) = omega arith in
    let next : suc lo + a ≡ lo + suc a = omega arith in
    ap (range_from lo) one
    ∙ ap (◌∷◌ lo)
        (range_from-append a b (suc lo) ∙ ap (λ m. range_from (suc lo) a ++ range_from m b) next)

quotient : (blk q r : ℕ) → r < blk → (blk * q + r) / blk ≡ q
quotient blk q r h =
    mul-add-div (omega (arith, h)) q r ∙ ap (λ m. q + m) (div-eq_of_lt h) ∙ add-zero q

-- All of a block have its number.
replicate_block :
    (blk k n i : ℕ) → i + n ≤ blk → replicate n k ≡ map (λ j. j / blk) (range_from (blk * k + i) n)
replicate_block blk k zero i h = refl
replicate_block blk k (suc n) i h =
    let next : blk * k + suc i ≡ suc (blk * k + i) = omega arith in
    let here : (blk * k + i) / blk ≡ k = quotient blk k i (omega (arith, h)) in
    rw here (
      ap (◌∷◌ k) (
        replicate_block blk k n (suc i) (omega (arith, h))
        ∙ ap (λ m. map (λ j. j / blk) (range_from m n)) next))

repeated_lem :
    (blk n k : ℕ)
    → repeated blk (range_from k n) ≡ map (λ j. j / blk) (range_from (blk * k) (n * blk))
unfolding repeated
repeated_lem blk zero k = let none_left : 0 * blk ≡ 0 = omega arith in rw none_left refl
repeated_lem blk (suc n) k =
    let size : suc n * blk ≡ blk + n * blk = omega (arith, add-mul 1 n blk) in
    let start : blk * k + 0 ≡ blk * k = omega arith in
    let next : blk * suc k ≡ blk * k + blk = omega (arith, mul-add blk k 1) in
    ap (λ xs. xs ++ repeated blk (range_from (suc k) n))
      (replicate_block blk k blk 0 (omega arith)
        ∙ ap (λ m. map (λ j. j / blk) (range_from m blk)) start)
    ∙ ap (λ ys. map (λ j. j / blk) (range_from (blk * k) blk) ++ ys)
        (repeated_lem blk n (suc k) ∙ ap (λ m. map (λ j. j / blk) (range_from m (n * blk))) next)
    ∙ sym (
        map-append (λ j. j / blk) (range_from (blk * k) blk) (range_from (blk * k + blk) (n * blk)))
    ∙ ap (map (λ j. j / blk))
        (sym (range_from-append blk (n * blk) (blk * k)) ∙ ap (range_from (blk * k)) (sym size))

-- The index arrays hold the numbers of the blocks.
block_index_lem :
    (blocks blk n : ℕ)
    → n ≤ blocks * blk
    → block_index blocks blk n ≡ map (λ j. j / blk) (range_from 0 n)
block_index_lem blocks blk n h =
    let start : blk * 0 ≡ 0 = omega arith in
    ap (take n)
      (repeated_lem blk blocks 0 ∙ ap (λ m. map (λ j. j / blk) (range_from m (blocks * blk))) start)
    ∙ sym (map-take (λ j. j / blk) n (range_from 0 (blocks * blk)))
    ∙ ap (map (λ j. j / blk)) (take-range_from n (blocks * blk) 0 h)

blocks_of-enough :
    (n blk : ℕ) → 0 < blk → (n ≤ blocks_of n blk * blk) × (blocks_of n blk ≡ ceiling n blk)
blocks_of-enough n blk v =
    let whole : blk * (n / blk) + n % blk ≡ n = div-add-mod n blk in
    let turned : n / blk * blk ≡ blk * (n / blk) = mul_comm (n / blk) blk in
    elim (Bool-cases (n % blk == 0)) [
      | inl e ↦
          (let exact : n % blk ≡ 0 = (==_iff (n % blk) 0).0 e in
            let shape : n + blk - 1 ≡ blk * (n / blk) + (blk - 1) =
              omega (arith, whole, exact, v) in
            rw (e, add-zero)
              (
                omega (arith, whole, exact, turned),
                sym (ap (λ m. m / blk) shape ∙ quotient blk (n / blk) (blk - 1) (omega (arith, v))),
              ))
      | inr e ↦
          (let some_left : 0 < n % blk = ground (arith, e) in
            let short : n % blk < blk = mod-lt n v in
            let more : (n / blk + 1) * blk ≡ blk * (n / blk) + blk =
              omega (arith, turned, add-mul (n / blk) 1 blk) in
            let more' : blk * (n / blk + 1) ≡ blk * (n / blk) + blk =
              mul_comm blk (n / blk + 1) ∙ more in
            let shape : n + blk - 1 ≡ blk * (n / blk + 1) + (n % blk - 1) =
              omega (arith, whole, some_left, more', v) in
            rw e (
              omega (arith, whole, short, more),
              sym (
                  ap (λ m. m / blk) shape
                  ∙ quotient blk (n / blk + 1) (n % blk - 1) (omega (arith, short))),
            ))
    ]

gather-map {ℓ} :
    {B : Type ℓ} (g : ℕ → ℕ) (rs : List ℕ) (xs : List B)
    → gather (map g rs) xs ≡ each_of rs (λ i. item xs (g i))
unfolding each_of
gather-map g [] xs = refl
gather-map g (r ∷ rs) xs = rw (gather-map g rs xs) refl

pub block_below : (n blk i : ℕ) → 0 < blk → i < n → i / blk < ceiling n blk
block_below n blk i v h =
    let (enough, same) = blocks_of-enough n blk v in
    let below : i / blk < blocks_of n blk = (div-lt_iff_lt-mul v).1 (omega (arith, h, enough)) in
    omega (arith, below, same)

-- The scales of the rows, or of the columns, as the loop reads them.
pub gather_blocks {ℓ} :
    {B : Type ℓ} (n blk : ℕ) (xs : List B)
    → 0 < blk
    → gather (block_index (blocks_of n blk) blk n) xs
      ≡ each_of (range_from 0 n) (λ i. item xs (i / blk))
gather_blocks n blk xs v =
    ap (λ index. gather index xs)
      (block_index_lem (blocks_of n blk) blk n (blocks_of-enough n blk v).0)
    ∙ gather-map (λ i. i / blk) (range_from 0 n) xs

pub >>=_assoc {ℓ} :
    {A B D : Type ℓ} (r : Result A) (f : A → Result B) (g : B → Result D)
    → ((r >>= f) >>= g) ≡ (r >>= λ x. f x >>= g)
>>=_assoc (ok a) f g = refl
>>=_assoc (err e) f g = refl
