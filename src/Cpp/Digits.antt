-- ===== src/Cpp/Digits.antt =====
-- What `sprintf` writes for a whole number: digits, and zeros before them.
use native.Mathlib.Nat.{div-add-mod'}
use kaya_basic.Base.{
  ℕ, zero, suc, ◌+◌, ◌-◌, ◌*◌, ◌/◌, ◌%◌, ◌≤◌, ◌<◌, ◌≢◌, ◌≡◌, refl, arith, false, Bool-cases, inl,
  inr, [], ◌∷◌, ◌++◌, ltb, if◌then◌else◌, length, replicate, length-append, length-replicate, All,
  All-append, append_assoc, Bytes,
}

abbrev pub digit : ℕ → ℕ
digit d = if ltb d 10 then d + b'0' else d + 55

-- The digits of `n` to the base `b`, on fuel.
unfoldable pub digits : ℕ → ℕ → ℕ → Bytes
digits zero b n = []
digits (suc fuel) b n =
    let rest = digits fuel b (n / b) ++ digit (n % b) ∷ [] in if ltb n b then digit n ∷ [] else rest

-- `%d` of a number that is not negative, and `%X`.
unfoldable pub decimal : ℕ → Bytes
decimal n = digits (suc n) 10 n

unfoldable pub hexadecimal : ℕ → Bytes
hexadecimal n = digits (suc n) 16 n

-- `%0wd`
unfoldable pub padded : ℕ → ℕ → Bytes
padded w n = replicate (w - length (decimal n)) b'0' ++ decimal n

-- The value of a text of digits.
abbrev pub digit_value : ℕ → ℕ
digit_value c = if ltb c 65 then c - b'0' else c - 55

pub value_from : ℕ → ℕ → Bytes → ℕ
value_from b acc [] = acc
value_from b acc (c ∷ s) = value_from b (acc * b + digit_value c) s

value_from-append :
    (b acc c : ℕ) (s : Bytes)
    → value_from b acc (s ++ c ∷ []) ≡ value_from b acc s * b + digit_value c
unfolding value_from
value_from-append b acc c [] = refl
value_from-append b acc c (d ∷ s) = value_from-append b (acc * b + digit_value d) c s

digit-value : (d : ℕ) → d < 16 → digit_value (digit d) ≡ d
digit-value d h = ground arith

smaller : (n b f : ℕ) → n < suc f → 2 ≤ b → b ≤ n → n / b < f
smaller n b f h two large = grind arith

small_digit : (n b : ℕ) → 2 ≤ b → n % b < b
small_digit n b two = grind arith

module _ (b : ℕ) (two : 2 ≤ b) where
  -- Reading the digits back, with any fuel above the number.
  pub value-digits : (f n : ℕ) → b ≤ 16 → n < f → value_from b 0 (digits f b n) ≡ n
  unfolding digits
  value-digits zero n top h = absurd (omega arith)
  value-digits (suc f) n top h = elim (Bool-cases (ltb n b)) [
    | inl small ↦ rw small (unfold value_from in ground (arith, digit-value n))
    | inr large ↦
        let below = small_digit n b two in
        rw
          (
            large,
            value_from-append b 0 (digit (n % b)) (digits f b (n / b)),
            value-digits f (n / b) top (smaller n b f h two (ground arith)),
            digit-value (n % b) (omega arith),
          )
          (div-add-mod' n b)
  ]

  -- The fuel does not matter above the number.
  pub digits-fuel : (f g n : ℕ) → n < f → n < g → digits f b n ≡ digits g b n
  unfolding digits
  digits-fuel zero g n h k = absurd (omega arith)
  digits-fuel (suc f) zero n h k = absurd (omega arith)
  digits-fuel (suc f) (suc g) n h k = elim (Bool-cases (ltb n b)) [
    | inl small ↦ rw small refl
    | inr large ↦
        let above : b ≤ n = ground arith in
        rw (large, digits-fuel f g (n / b) (smaller n b f h two above) (smaller n b g k two above))
          refl
  ]

pub value-decimal : (n : ℕ) → value_from 10 0 (decimal n) ≡ n
unfolding decimal
value-decimal n = value-digits 10 (omega arith) (suc n) n (omega arith) (omega arith)

-- A last digit split off.
decimal-step : (n : ℕ) → 10 ≤ n → decimal n ≡ decimal (n / 10) ++ digit (n % 10) ∷ []
unfolding decimal digits
decimal-step n h =
    let large : ltb n 10 ≡ false = ground arith in
    rw (large, digits-fuel 10 (omega arith) n (suc (n / 10)) (n / 10) (omega arith) (omega arith))
      refl

-- A text of digits only.
abbrev pub AllDigits : Bytes → Type 0
AllDigits = All (λ c. (b'0' ≤ c) × (c ≤ b'9'))

AllDigits-digits : (f n : ℕ) → AllDigits (digits f 10 n)
unfolding digits
AllDigits-digits zero n = tt
AllDigits-digits (suc f) n = elim (Bool-cases (ltb n 10)) [
  | inl small ↦ rw small (ground arith)
  | inr large ↦ rw large (
      All-append (λ c. (b'0' ≤ c) × (c ≤ b'9')) (digits f 10 (n / 10)) (digit (n % 10) ∷ [])
        (AllDigits-digits f (n / 10)) (ground arith))
]

pub decimal-AllDigits : (n : ℕ) → AllDigits (decimal n)
unfolding decimal
decimal-AllDigits n = AllDigits-digits (suc n) n

pub length-decimal : (n : ℕ) → length (decimal n) ≢ 0
unfolding decimal digits
length-decimal n = elim (Bool-cases (ltb n 10)) [
  | inl small ↦ rw small (omega arith)
  | inr large ↦ rw large (omega (arith, length-append (digits n 10 (n / 10)) (digit (n % 10) ∷ [])))
]

-- Three digits of a number below 1000.
abbrev pub three : ℕ → Bytes
three n = digit (n / 100) ∷ digit (n / 10 % 10) ∷ digit (n % 10) ∷ []

pub decimal-three : (n : ℕ) → 1000 ≤ n → decimal n ≡ decimal (n / 1000) ++ three (n % 1000)
decimal-three n h =
    let d1 = decimal-step n (omega arith) in
    let d2 = decimal-step (n / 10) (omega arith) in
    let d3 = decimal-step (n / 10 / 10) (omega arith) in
    let rest : n / 10 / 10 / 10 ≡ n / 1000 = omega arith in
    let c1 : n / 10 / 10 % 10 ≡ n % 1000 / 100 = omega arith in
    let c2 : n / 10 % 10 ≡ n % 1000 / 10 % 10 = omega arith in
    let c3 : n % 10 ≡ n % 1000 % 10 = omega arith in
    rw
      (
        d1,
        d2,
        d3,
        rest,
        c1,
        c2,
        c3,
        append_assoc (decimal (n / 1000)),
        append_assoc (decimal (n / 1000)),
      )
      refl

pub length-padded : (w n : ℕ) → length (decimal n) ≤ w → length (padded w n) ≡ w
unfolding padded
length-padded w n h = omega (
  arith,
  length-append (replicate (w - length (decimal n)) b'0') (decimal n),
  length-replicate {A = ℕ} (w - length (decimal n)) b'0',
)

pub length-decimal-one : (n : ℕ) → n < 10 → length (decimal n) ≡ 1
unfolding decimal digits
length-decimal-one n h = ground arith

pub length-decimal-step : (n : ℕ) → 10 ≤ n → length (decimal n) ≡ length (decimal (n / 10)) + 1
length-decimal-step n h =
    rw (decimal-step n h) (omega (arith, length-append (decimal (n / 10)) (digit (n % 10) ∷ [])))

pub length-decimal-two : (n : ℕ) → n < 100 → length (decimal n) ≤ 2
length-decimal-two n h = elim (Bool-cases (ltb n 10)) [
  | inl small ↦ ground (arith, length-decimal-one n)
  | inr large ↦ ground (arith, length-decimal-step n, length-decimal-one (n / 10))
]

pub length-decimal-four : (n : ℕ) → n < 10000 → length (decimal n) ≤ 4
length-decimal-four n h = elim (Bool-cases (ltb n 100)) [
  | inl small ↦ ground (arith, length-decimal-two n)
  | inr large ↦
      ground (
        arith,
        length-decimal-step n,
        length-decimal-step (n / 10),
        length-decimal-two (n / 10 / 10),
      )
]
