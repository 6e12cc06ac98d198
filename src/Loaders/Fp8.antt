-- ===== src/Loaders/Fp8.antt =====
-- loaders/fp8.py: the 8-bit number formats, and the dequantization of a weight by a scale for each of its
-- blocks. A byte is a natural number below 256. What a byte stands for is exact here; the products are
-- those of a type of floating-point numbers.
pub mod Monotone
pub mod Index
pub mod Blocked
use s_llm.Prelude.{
  ℕ, zero, suc, ◌+◌, ◌-◌, ◌*◌, ◌/◌, ◌%◌, ◌^◌, ◌≤◌, ◌<◌, ◌≡◌, ◌≢◌, refl, sym, ap, ◌∙◌, subst, min,
  ◌⊎◌, inl, inr, ◌↔◌, Bool, true, false, ◌&&◌, ◌||◌, not, Option, none, some, List, [], ◌∷◌, ◌++◌,
  map, arith, ltb, leb, ◌==◌, if◌then◌else◌, bit, length, take, drop, replicate, keep, all, count,
  member, sum, range_from, Outcome, returns, raises, state_of, Result, ok, err, ◌>>=◌, >>=-eq-ok,
  ok_inj, Error, value_error, key_error, index_error, out_of_capacity, collectives_error,
  shard_error, runtime_error, ℤ, pos, negsuc, Bool-cases, Option-cases, leb→le, le→leb, ltb→lt,
  lt→ltb, ==_refl, ==_iff, length-append, take-append-drop, length-take, length-drop, count-append,
  count-split, length-range_from, count-range_from,
}
use s_llm.Prelude.Dict.{
  Dict, lookup, put, without, has, Distinct, lookup-put, lookup-without, put-Distinct,
  without-Distinct, without_missing, length-put_missing, length-put_present, length-without,
  without-put_missing,
}
use s_llm.Runtime.Planner.{ceiling}
use s_llm.Loaders.Shard.{item, each_of}
use s_llm.Loaders.Slices.{Tensor}

-- A decoded byte: its sign, and its size in units of the smallest subnormal, which is 2^-9 for F8_E4M3
-- and 2^-16 for F8_E5M2.
pub data Float8 : Type 0 where
  nan : Float8
  infinite : Bool → Float8
  finite : Bool → ℕ → Float8

-- `(u8 >> 7) & 1`
abbrev pub is_negative : ℕ → Bool
is_negative byte = byte / 128 % 2 == 1

-- The size of a number with `bits` bits of mantissa.
abbrev pub magnitude : ℕ → ℕ → ℕ → ℕ
magnitude bits exp mant = if exp == 0 then mant else (2 ^ bits + mant) * 2 ^ (exp - 1)

unfoldable pub decode_e4m3fn : ℕ → Float8
decode_e4m3fn byte =
    let exp = byte / 8 % 16 in
    let mant = byte % 8 in
    if (exp == 15) && (mant == 7) then nan else finite (is_negative byte) (magnitude 3 exp mant)

unfoldable pub decode_e5m2 : ℕ → Float8
decode_e5m2 byte =
    let exp = byte / 4 % 32 in
    let mant = byte % 4 in
    if (exp == 31) && (mant == 0)
    then infinite (is_negative byte)
    else if exp == 31
    then nan
    else finite (is_negative byte) (magnitude 2 exp mant)

-- A decoded E8M0 byte `e`: 2^(e - 127).
pub data Scale8 : Type 0 where
  no_scale zero_scale : Scale8
  power : ℕ → Scale8

unfoldable pub decode_ue8m0 : ℕ → Scale8
decode_ue8m0 byte = if byte == 0 then zero_scale else if byte == 255 then no_scale else power byte

-- `FP4_TABLE`: the sign and twice the value.
unfoldable pub fp4_table : ℕ → Bool × ℕ
fp4_table nibble =
    let n = nibble % 8 in
    (leb 9 nibble, if leb n 4 then n else if n == 5 then 6 else if n == 6 then 8 else 12)

-- `numpy.repeat(xs, blk)`
unfoldable pub repeated {ℓ} : {B : Type ℓ} → ℕ → List B → List B
repeated blk [] = []
repeated blk (x ∷ xs) = replicate blk x ++ repeated blk xs

-- `numpy.repeat(numpy.arange(blocks), blk)[:n]`
abbrev pub block_index : ℕ → ℕ → ℕ → List ℕ
block_index blocks blk n = take n (repeated blk (range_from 0 blocks))

-- `xs[index]` for an array of indices.
abbrev pub gather {ℓ} : {B : Type ℓ} → List ℕ → List B → Result (List B)
gather index xs = each_of index (item xs)

-- Two arrays of the same length, element by element.
unfoldable pub zipped : {X Y Z : Type 0} → (X → Y → Result Z) → List X → List Y → Result (List Z)
zipped f [] ys = ok []
zipped f (x ∷ xs) [] = err value_error
zipped f (x ∷ xs) (y ∷ ys) = f x y >>= λ z. zipped f xs ys >>= λ zs. ok (z ∷ zs)

-- Whether the scales are as many as the blocks.
abbrev pub fits_blocks : {F : Type 0} → ℕ → ℕ → ℕ → ℕ → Tensor F → Bool
fits_blocks h w bh bw scale = (length scale.rows == ceiling h bh) && (scale.width == ceiling w bw)

-- `xs[i, j]`
abbrev pub entry : {B : Type 0} → Tensor B → ℕ → ℕ → Result B
entry t i j = item t.rows i >>= λ row. item row j

-- `n // blk + (1 if n % blk else 0)`
abbrev pub blocks_of : ℕ → ℕ → ℕ
blocks_of n blk = n / blk + (if n % blk == 0 then 0 else 1)

abbrev pub decoded_scale : {F : Type 0} → (Scale8 → F) → Tensor ℕ → Tensor F
decoded_scale scale_value scale_u8 = record {
  rows = map (map (λ b. scale_value (decode_ue8m0 b))) scale_u8.rows;
  width = scale_u8.width;
}

-- The nibbles of a row of bytes, the low one first.
unfoldable pub nibbles : List ℕ → List ℕ
nibbles [] = []
nibbles (b ∷ bs) = b % 16 ∷ b / 16 % 16 ∷ nibbles bs

unfoldable pub dequant_fp4_packed_weight :
    {F : Type 0}
    → (Bool × ℕ → F)
    → (Scale8 → F)
    → (F → F → F)
    → Tensor ℕ
    → Tensor ℕ
    → ℕ
    → Result (Tensor F)
dequant_fp4_packed_weight fp4_value scale_value times packed scale_u8 block_w =
    let scale = decoded_scale scale_value scale_u8 in
    let w = packed.width * 2 in
    if not ((length scale.rows == length packed.rows) && (scale.width == ceiling w block_w))
    then err value_error
    else zipped
        (λ row scales. gather (block_index scale.width block_w w) scales >>= λ ys.
          zipped (λ n y. ok (times (fp4_value (fp4_table n)) y)) (nibbles row) ys)
        packed.rows scale.rows
      >>= λ rows. ok (record { rows = rows; width = w })

-- A scale of bytes, or of floating-point numbers.
pub data AnyScale (F : Type 0) : Type 0 where
  e8m0 : Tensor ℕ → AnyScale F
  floats : Tensor F → AnyScale F

module _ {F : Type 0} (value : Float8 → F) (times : F → F → F) where
  -- The product of one row with its scales.
  abbrev pub row_product : ℕ → ℕ → ℕ → List ℕ → List F → Result (List F)
  row_product blocks bw w row scales = gather (block_index blocks bw w) scales >>= λ ys.
      zipped (λ b y. ok (times (value (decode_e4m3fn b)) y)) row ys

  -- The product of a weight with its scales, for numbers of blocks in both directions.
  abbrev pub block_product : ℕ → ℕ → Tensor ℕ → Tensor F → ℕ → ℕ → Result (Tensor F)
  block_product nrow_b ncol_b fp8 scale bh bw =
      gather (block_index nrow_b bh (length fp8.rows)) scale.rows >>= λ srows.
      zipped (row_product ncol_b bw fp8.width) fp8.rows srows >>= λ rows.
      ok (record { rows = rows; width = fp8.width })

  -- `dequant_weight_blocked`, on a scale of floating-point numbers.
  unfoldable pub dequant_weight_blocked : Tensor ℕ → Tensor F → ℕ → ℕ → Result (Tensor F)
  dequant_weight_blocked fp8 scale bh bw =
      if not (fits_blocks (length fp8.rows) fp8.width bh bw scale)
      then err value_error
      else block_product (blocks_of (length fp8.rows) bh) (blocks_of fp8.width bw) fp8 scale bh bw

  unfoldable pub dequant_fp8_mxfp_weight :
      (Scale8 → F) → Tensor ℕ → Tensor ℕ → ℕ → ℕ → Result (Tensor F)
  dequant_fp8_mxfp_weight scale_value fp8 scale_u8 bh bw =
      let scale = decoded_scale scale_value scale_u8 in
      if not (fits_blocks (length fp8.rows) fp8.width bh bw scale)
      then err value_error
      else block_product (length scale.rows) scale.width fp8 scale bh bw

  -- `dequant_weight_blocked_loop`
  unfoldable pub dequant_weight_blocked_loop : Tensor ℕ → Tensor F → ℕ → ℕ → Result (Tensor F)
  dequant_weight_blocked_loop fp8 scale bh bw =
      each_of (range_from 0 (length fp8.rows)) (λ i. each_of (range_from 0 fp8.width) (λ j.
        entry fp8 i j >>= λ b.
        entry scale (i / bh) (j / bw) >>= λ y. ok (times (value (decode_e4m3fn b)) y)))
      >>= λ rows. ok (record { rows = rows; width = fp8.width })

module _ {F : Type 0} (value : Float8 → F) (fp4_value : Bool × ℕ → F) (scale_value : Scale8 → F)
    (times : F → F → F) where
  -- `dequant_weight_auto`, on a weight of bytes.
  unfoldable pub dequant_weight_auto : Tensor ℕ → AnyScale F → ℕ → ℕ → ℕ → Result (Tensor F)
  dequant_weight_auto w (floats s) bh bw fp4_block_w = dequant_weight_blocked value times w s bh bw
  dequant_weight_auto w (e8m0 s) bh bw fp4_block_w =
      if (length s.rows == length w.rows) && (s.width == ceiling (w.width * 2) fp4_block_w)
      then dequant_fp4_packed_weight fp4_value scale_value times w s fp4_block_w
      else if length s.rows == ceiling (length w.rows) bh
      then dequant_fp8_mxfp_weight value times scale_value w s bh bw
      else err value_error
