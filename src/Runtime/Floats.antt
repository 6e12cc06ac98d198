-- ===== src/Runtime/Floats.antt =====
-- Python's `int(n * x)` for a natural number `n` and a `float` `x` that is not negative: `n` is
-- rounded to a double, the product is rounded to a double, and the fraction is cut off. A `float` is
-- `mantissa / 2 ^ exponent`; overflow to infinity and subnormal products lie outside the model, since
-- `n` is at least 1 where `x` counts and `n` is a number of bytes.
use s_llm.Prelude.{
  ℕ, zero, suc, ◌+◌, ◌-◌, ◌*◌, ◌/◌, ◌%◌, ◌^◌, ◌≤◌, ◌<◌, ◌≡◌, sym, ap, ◌∙◌, subst, inl, inr, Bool,
  true, false, ◌&&◌, arith, ltb, leb, if◌then◌else◌, Bool-cases,
}
use native.Mathlib.Nat.{
  mul-le-mul_left, mul-le-mul_right, div-le_of_le-mul, pow-suc, mul_left_comm, suc-mul, mul_assoc,
  mul_comm, div-add-mod, one-le-pow, le_trans,
}

pub record Float : Type 0 where
  pub mantissa : ℕ
  pub exponent : ℕ

-- How often `p` is halved until it has at most 53 bits.
unfoldable pub halvings : ℕ → ℕ → ℕ
halvings zero p = 0
halvings (suc fuel) p = elim (ltb p 9007199254740992) [
  | true ↦ 0
  | false ↦ suc (halvings fuel (p / 2))
]

-- `p / u` rounded to the nearest whole number, a half to the even one.
unfoldable pub nearest : ℕ → ℕ → ℕ
nearest p u =
    let q = p / u in
    let r = p % u in if ltb (2 * r) u then q else if ltb u (2 * r) then q + 1 else q + q % 2

-- `p` rounded to 53 significant bits.
unfoldable pub rounded : ℕ → ℕ
rounded p = let u = 2 ^ halvings p p in nearest p u * u

-- `0 < x <= 1`
abbrev pub is_fraction : Float → Bool
is_fraction x = ltb 0 x.mantissa && leb x.mantissa (2 ^ x.exponent)

unfoldable pub truncated_product : ℕ → Float → ℕ
truncated_product n x = rounded (rounded n * x.mantissa) / 2 ^ x.exponent

power_suc : (e : ℕ) → 2 ^ suc e ≡ 2 * 2 ^ e
power_suc e = pow-suc 2 e ∙ mul_comm (2 ^ e) 2

power_positive : (e : ℕ) → 0 < 2 ^ e
power_positive e = one-le-pow e 2 (omega arith)

power_split : (h k : ℕ) → 2 ^ (k + h) ≡ 2 ^ k * 2 ^ h
power_split zero k = let plain : k + 0 ≡ k = omega arith in rw plain (omega arith)
power_split (suc h) k =
    let shift : k + suc h ≡ suc (k + h) = omega arith in
    ap (λ m. 2 ^ m) shift
    ∙ power_suc (k + h)
    ∙ ap (λ m. 2 * m) (power_split h k)
    ∙ mul_left_comm 2 (2 ^ k) (2 ^ h)
    ∙ ap (λ m. 2 ^ k * m) (sym (power_suc h))

halvings_least : (fuel p e : ℕ) → p < 9007199254740992 * 2 ^ e → halvings fuel p ≤ e
unfolding halvings
halvings_least zero p e h = omega arith
halvings_least (suc fuel) p zero h = ground arith
halvings_least (suc fuel) p (suc e) h = elim (Bool-cases (ltb p 9007199254740992)) [
  | inl f ↦ rw (f, halvings) (omega arith)
  | inr f ↦ rw (f, halvings) (ground (arith, power_suc e, halvings_least fuel (p / 2) e))
]

-- Rounding does not pass a whole number of units.
nearest-le : (p u n : ℕ) → 0 < u → p ≤ n * u → nearest p u ≤ n
unfolding nearest
nearest-le p u n v h = elim (Bool-cases (ltb (p / u) n)) [
  | inl f ↦ ground arith
  | inr f ↦
      let le : n ≤ p / u = ground arith in
      let most : p / u ≤ n = div-le_of_le-mul u (subst (λ m. p ≤ m) (mul_comm n u) h) in
      let tight : p % u ≡ 0 = omega (arith, div-add-mod p u, mul-le-mul_left u le, mul_comm n u) in
      ground arith
]

rounded-le : (p n e : ℕ) → n < 9007199254740992 → p ≤ n * 2 ^ e → rounded p ≤ n * 2 ^ e
unfolding rounded
rounded-le p n e b h =
    let k = e - halvings p p in
    let u = 2 ^ halvings p p in
    let split : e ≡ k + halvings p p = omega (arith, least) in
    let whole : n * 2 ^ e ≡ n * 2 ^ k * u =
      ap (λ m. n * 2 ^ m) split
      ∙ ap (λ m. n * m) (power_split (halvings p p) k)
      ∙ sym (mul_assoc n (2 ^ k) u) in
    rw whole (
      mul-le-mul_right u
        (nearest-le p u (n * 2 ^ k) (power_positive (halvings p p)) (rw (sym whole) h)))
  where
    least : halvings p p ≤ e
    least =
        halvings_least p p e
          (omega (arith, mul-le-mul_right (2 ^ e) b, power_positive e, suc-mul n (2 ^ e)))

rounded_small : (n : ℕ) → n < 9007199254740992 → rounded n ≤ n
rounded_small n b = omega (arith, rounded-le n n 0 b (omega arith))

-- `int(n * x)` is at most `n` for a fraction `x`, as long as `n` is below 2 ^ 53.
pub truncated_product-le :
    (n : ℕ) (x : Float) → n < 9007199254740992 → is_fraction x ≡ true → truncated_product n x ≤ n
unfolding truncated_product
truncated_product-le n x b f =
    let fraction : x.mantissa ≤ 2 ^ x.exponent = ground arith in
    div-le_of_le-mul (2 ^ x.exponent) (
      subst (λ m. rounded (rounded n * x.mantissa) ≤ m) (mul_comm n (2 ^ x.exponent))
        (rounded-le (rounded n * x.mantissa) n x.exponent b (
          le_trans (mul-le-mul_right x.mantissa (rounded_small n b)) (mul-le-mul_left n fraction))))
