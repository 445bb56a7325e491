-- ===== src/Format/Laws.antt =====
-- `Format` sets the thousands of a number apart.
use kaya_basic.Base.{
  ℕ, zero, suc, ◌+◌, ◌-◌, ◌/◌, ◌%◌, ◌≤◌, ◌<◌, ◌≢◌, ◌≡◌, refl, sym, ap, ◌∙◌, arith, Bool, true,
  false, Bool-cases, inl, inr, ◌&&◌, [], ◌∷◌, ◌++◌, ltb, ltb→lt, lt→ltb, ◌==◌, if◌then◌else◌,
  length, replicate, length-append, All-append, append_assoc, Bytes, ok,
}
use kaya_basic.Cpp.Int.{ℤ, pos, pos_part, ◌-ℤ◌, pos-sub-pos}
use kaya_basic.Cpp.Text.{c_str}
use kaya_basic.Cpp.Digits.{
  decimal, three, decimal-three, AllDigits, decimal-AllDigits, length-decimal, length-decimal-step,
  length-decimal-two,
}
use kaya_basic.Format.{Mask, no_mask, read_mask, group, front, lay_out, format}
use kaya_basic.Strings.Trim.Laws.{NoNul, c_str_lem}

-- No comma is due where three bytes or fewer are left.
group_short : (len : ℤ) (s : Bytes) → pos_part len ≤ 3 → group len s ≡ s
unfolding group ◌-ℤ◌
group_short len [] h = refl
group_short len (c ∷ s) h = ground (arith, group_short (len -ℤ pos 1) s)

-- Whether a comma is due behind a digit with `l` digits behind it.
abbrev due : ℕ → Bool
due l = ltb 2 l && l % 3 == 0

group-digit :
    (c l : ℕ) (s : Bytes)
    → b'0' ≤ c
    → group (pos (suc l)) (c ∷ s) ≡ c ∷ (if due l then b',' ∷ group (pos l) s else group (pos l) s)
unfolding group ◌-ℤ◌
group-digit c l s h = ground arith

due_later : (l : ℕ) → 0 < l → due (l + 3) ≡ due l
due_later l h = ground arith

comma-append :
    (comma : Bool) (c : ℕ) (s t : Bytes)
    → (c ∷ (if comma then b',' ∷ (s ++ t) else s ++ t)) ≡ (c ∷ (if comma then b',' ∷ s else s)) ++ t
comma-append true c s t = refl
comma-append false c s t = refl

-- The digits with three more behind them.
group-append :
    (c : ℕ) (a b : Bytes)
    → AllDigits (c ∷ a)
    → group (pos (suc (length a + 3))) (c ∷ a ++ b)
      ≡ group (pos (suc (length a))) (c ∷ a) ++ b',' ∷ b
group-append c [] b (h, _) =
    rw (group-digit c 3 b h.0, group-digit c 0 [] h.0, group_short (pos 3) b (omega arith))
      (unfold group in refl)
group-append c (d ∷ a) b (h, hs) =
    let l = suc (length a) in
    let regroup : l + 3 ≡ suc (length a + 3) = omega arith in
    rw
      (
        group-digit c (l + 3) (d ∷ a ++ b) h.0,
        group-digit c l (d ∷ a) h.0,
        due_later l (omega arith),
        regroup,
        group-append d a b hs,
      )
      (comma-append (due l) c (group (pos l) (d ∷ a)) (b',' ∷ b))

-- What stands behind the whole part is copied.
group-rest :
    (a rest : Bytes) → group (pos (length a)) (a ++ rest) ≡ group (pos (length a)) a ++ rest
unfolding group ◌-ℤ◌
group-rest [] rest = group_short (pos 0) rest (omega arith)
group-rest (c ∷ a) rest = ground (arith, group-rest a rest)

-- A number with its thousands apart.
unfoldable pub thousands : ℕ → ℕ → Bytes
thousands zero n = []
thousands (suc fuel) n =
    let rest = thousands fuel (n / 1000) ++ b',' ∷ three (n % 1000) in
    if ltb n 1000 then decimal n else rest

split_last :
    (s t : Bytes)
    → AllDigits s
    → length s ≢ 0
    → length t ≡ 3
    → group (pos (length (s ++ t))) (s ++ t) ≡ group (pos (length s)) s ++ b',' ∷ t
split_last [] t h ne three_more = absurd (ne refl)
split_last (c ∷ s) t h ne three_more =
    let e : length (c ∷ s ++ t) ≡ suc (length s + 3) = omega (arith, length-append s t) in
    rw e (group-append c s t h)

short_decimal : (n : ℕ) → n < 1000 → length (decimal n) ≤ 3
short_decimal n h = elim (Bool-cases (ltb n 10)) [
  | inl small ↦ ground (arith, length-decimal-two n)
  | inr large ↦ ground (arith, length-decimal-step n, length-decimal-two (n / 10))
]

group-thousands : (f n : ℕ) → n < f → group (pos (length (decimal n))) (decimal n) ≡ thousands f n
unfolding thousands
group-thousands zero n h = absurd (omega arith)
group-thousands (suc f) n h = elim (Bool-cases (ltb n 1000)) [
  | inl small ↦ rw small (group_short _ (decimal n) (short_decimal n (ltb→lt _ _ small)))
  | inr large ↦
      rw (large, ← group-thousands f (n / 1000) (ground arith))
        (rw (← decimal-three n (ground arith)) at (
          split_last (decimal (n / 1000)) (three (n % 1000)) (decimal-AllDigits (n / 1000))
            (length-decimal (n / 1000)) refl))
]

NoNul-AllDigits : (s : Bytes) → AllDigits s → NoNul s
NoNul-AllDigits [] h = tt
NoNul-AllDigits (c ∷ s) (h, hs) = (omega arith, NoNul-AllDigits s hs)

NoNul-append : (s t : Bytes) → NoNul s → NoNul t → NoNul (s ++ t)
NoNul-append s t h k = All-append (λ c. c ≢ 0) s t h k

NoNul-thousands : (f n : ℕ) → NoNul (thousands f n)
unfolding thousands
NoNul-thousands zero n = tt
NoNul-thousands (suc f) n = elim (Bool-cases (ltb n 1000)) [
  | inl small ↦ rw small (NoNul-AllDigits (decimal n) (decimal-AllDigits n))
  | inr large ↦ rw large (
      NoNul-append (thousands f (n / 1000)) (b',' ∷ three (n % 1000)) (NoNul-thousands f (n / 1000))
        (ground arith))
]

NoNul-replicate : (k c : ℕ) → c ≢ 0 → NoNul (replicate k c)
NoNul-replicate zero c h = tt
NoNul-replicate (suc k) c h = (h, NoNul-replicate k c h)

NoNul-sign : (d : ℕ) → d ≤ 1 → NoNul (if d == 0 then [] else 36 ∷ replicate (d - 1) 0)
NoNul-sign zero h = tt
NoNul-sign (suc zero) h = (omega arith, tt)
NoNul-sign (suc (suc d)) h = absurd (omega arith)

NoNul-front : (m : Mask) → m.dollar ≤ 1 → NoNul (front m)
NoNul-front m h =
    NoNul-append (replicate m.spaces 32) _ (NoNul-replicate m.spaces 32 (omega arith))
      (NoNul-sign m.dollar h)

whole_length :
    (s frac : Bytes) (k j : ℕ)
    → length frac ≡ k + j
    → pos (length (s ++ frac)) -ℤ pos k -ℤ pos j ≡ pos (length s)
whole_length s frac k j h =
    rw
      (
        pos-sub-pos (length (s ++ frac)) k (omega (arith, length-append s frac)),
        pos-sub-pos (length (s ++ frac) - k) j (omega (arith, length-append s frac)),
      )
      (ap pos (omega (arith, length-append s frac)))

lay_out-thousands :
    {A : Type 0} (fixed : ℕ → A → Bytes) (num : A) (m : Mask) (n : ℕ) (frac : Bytes)
    → m.dollar ≤ 1
    → fixed m.decimals num ≡ decimal n ++ frac
    → length frac ≡ m.decimals + (if ltb 0 m.decimals then 1 else 0)
    → NoNul frac
    → length (decimal n ++ frac) < 512
    → length (front m ++ thousands (suc n) n ++ frac) < 512
    → lay_out fixed num m ≡ ok (front m ++ thousands (suc n) n ++ frac)
unfolding lay_out
lay_out-thousands fixed num m n frac d e k no_nul b b' =
    let len = whole_length (decimal n) frac m.decimals (if ltb 0 m.decimals then 1 else 0) k in
    let grouped =
      group-rest (decimal n) frac ∙ ap (λ s. s ++ frac) (group-thousands (suc n) n (omega arith)) in
    let number = thousands (suc n) n in
    let joined = sym (append_assoc (front m) number frac) in
    let whole = c_str_lem (front m ++ number ++ frac) (
      NoNul-append (front m ++ number) frac
        (NoNul-append (front m) number (NoNul-front m d) (NoNul-thousands (suc n) n)) no_nul) in
    rw (e, len, grouped, joined, lt→ltb _ _ b, lt→ltb _ _ b', whole) refl

-- If the mask has one dollar sign at most, `sprintf` writes a whole number with as many decimals as
-- the mask asks for, and no buffer is too short, `Format` returns the spaces of the mask, the
-- dollar sign, the number with a comma before every three digits, and the decimals.
pub format-thousands :
    {A : Type 0} (fixed : ℕ → A → Bytes) (num : A) (mask : Bytes) (n : ℕ) (frac : Bytes)
    → let m = read_mask (c_str mask) no_mask in
      m.dollar ≤ 1
      → fixed m.decimals num ≡ decimal n ++ frac
      → length frac ≡ m.decimals + (if ltb 0 m.decimals then 1 else 0)
      → NoNul frac
      → length (decimal n ++ frac) < 512
      → length (front m ++ thousands (suc n) n ++ frac) < 512
      → format fixed num mask ≡ ok (front m ++ thousands (suc n) n ++ frac)
unfolding format
format-thousands fixed num mask n frac d e k no_nul b b' =
    lay_out-thousands fixed num (read_mask (c_str mask) no_mask) n frac d e k no_nul b b'
