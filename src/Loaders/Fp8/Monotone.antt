-- ===== src/Loaders/Fp8/Monotone.antt =====
-- The order of the decoded bytes.
use s_llm.Prelude.{
  ℕ, zero, suc, ◌+◌, ◌-◌, ◌/◌, ◌%◌, ◌≤◌, ◌<◌, ◌≡◌, refl, sym, subst, inl, inr, Bool, true, false,
  ◌&&◌, not, arith, ltb, ◌==◌, all, range_from, Bool-cases, ltb→lt, ==_iff,
}
use s_llm.Loaders.Fp8.{finite, decode_e4m3fn, magnitude, is_negative}

-- The size of the bytes below 127, all of them finite.
abbrev steps_up : ℕ → Bool
steps_up b = ltb (magnitude 3 (b / 8 % 16) (b % 8)) (magnitude 3 ((b + 1) / 8 % 16) ((b + 1) % 8))

all_steps : all steps_up (range_from 0 126) ≡ true
all_steps = refl

all-range_from :
    (p : ℕ → Bool) (n lo b : ℕ) → all p (range_from lo n) ≡ true → lo ≤ b → b < lo + n → p b ≡ true
all-range_from p zero lo b h v k = absurd (omega (arith, v, k))
all-range_from p (suc n) lo b h v k = elim (Bool-cases (p lo)) [
  | inr other ↦ absurd (ground (arith, h, other))
  | inl first ↦ elim (Bool-cases (b == lo)) [
    | inl here ↦ subst (λ m. p m ≡ true) (sym ((==_iff b lo).0 here)) first
    | inr later ↦
        all-range_from p n (suc lo) b (ground (arith, h, first)) (ground (arith, v, later))
          (omega (arith, k))
  ]
]

abbrev magnitude_of : ℕ → ℕ
magnitude_of b = magnitude 3 (b / 8 % 16) (b % 8)

magnitude_grows : (d a : ℕ) → a + suc d < 127 → magnitude_of a < magnitude_of (a + suc d)
magnitude_grows zero a h =
    ltb→lt _ _ (all-range_from steps_up 126 0 a all_steps (omega arith) (omega (arith, h)))
magnitude_grows (suc d) a h =
    let next : magnitude_of a < magnitude_of (a + 1) =
      ltb→lt _ _ (all-range_from steps_up 126 0 a all_steps (omega arith) (omega (arith, h))) in
    let same : a + 1 + suc d ≡ a + suc (suc d) = omega arith in
    let rest : magnitude_of (a + 1) < magnitude_of (a + suc (suc d)) =
      subst (λ m. magnitude_of (a + 1) < magnitude_of m) same
        (magnitude_grows d (a + 1) (omega (arith, h))) in
    omega (arith, next, rest)

abbrev is_nan : ℕ → Bool
is_nan b = (b / 8 % 16 == 15) && (b % 8 == 7)

-- Neither NaN nor negative.
abbrev plain : ℕ → Bool
plain b = not (is_nan b) && not (is_negative b)

all-plain : all plain (range_from 0 127) ≡ true
all-plain = refl

both : (x y : Bool) → (not x && not y) ≡ true → (x ≡ false) × (y ≡ false)
both x y h = ground (arith, h)

finite_byte : (b : ℕ) → b < 127 → decode_e4m3fn b ≡ finite false (magnitude_of b)
unfolding decode_e4m3fn
finite_byte b h =
    let ok_byte : plain b ≡ true =
      all-range_from plain 127 0 b all-plain (omega arith) (omega (arith, h)) in
    let (number, positive) = both (is_nan b) (is_negative b) ok_byte in rw (number, positive) refl

-- The bytes 0 to 126 of F8_E4M3 decode to finite numbers that are not negative, in the order of the
-- bytes: no two of them stand for the same number.
pub decode_e4m3fn-grows :
    (a b : ℕ)
    → a < b
    → b < 127
    → (m n : ℕ) × (decode_e4m3fn a ≡ finite false m) × (decode_e4m3fn b ≡ finite false n) × (m < n)
decode_e4m3fn-grows a b h k =
    let same : a + suc (b - suc a) ≡ b = omega (arith, h) in
    (
      magnitude_of a,
      magnitude_of b,
      finite_byte a (omega (arith, h, k)),
      finite_byte b k,
      subst (λ m. magnitude_of a < magnitude_of m) same
          (magnitude_grows (b - suc a) a (omega (arith, h, k))),
    )
