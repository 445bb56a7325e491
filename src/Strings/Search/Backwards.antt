-- ===== src/Strings/Search/Backwards.antt =====
-- `InStrRev` finds the last occurrence.
use kaya_basic.Base.{
  ℕ, zero, suc, ◌+◌, ◌-◌, ◌≤◌, ◌<◌, ◌^◌, ◌≡◌, ◌⊎◌, refl, sym, ap, ◌∙◌, arith, ℕ_discrete, dec_lt,
  min, true, Bool-cases, Option, none, some, Option-cases, inl, inr, length, length-take,
  length-drop, drop, leb, if◌then◌else◌, Bytes,
}
use kaya_basic.Cpp.Int.{ℤ, pos, pos_part, ltb_ℤ, ◌-ℤ◌}
use kaya_basic.Cpp.Text.{starts_with, rfind?, rfind, position}
use kaya_basic.Cpp.Text.Find.{OccursAt, OccursAt-starts_with, starts_with-OccursAt}
use kaya_basic.Cpp.Word.{Fits, npos, to_size, to_long}
use kaya_basic.Strings.Search.{one_based, in_str_rev}
use kaya_basic.Strings.Search.Laws.{answer, one_based-position}

rfind?-starts_with :
    (pat s : Bytes) (k i : ℕ)
    → rfind? pat s k ≡ some i
    → (starts_with pat (drop i s) ≡ true) × (i ≤ k)
unfolding rfind?
rfind?-starts_with pat s zero i h = ground arith
rfind?-starts_with pat s (suc k) i h = ground (arith, rfind?-starts_with pat s k i)

-- Behind what is found nothing is, as far as the search begins.
rfind?-last :
    (pat s : Bytes) (k j : ℕ)
    → j ≤ k
    → starts_with pat (drop j s) ≡ true
    → j < answer (rfind? pat s k)
unfolding rfind?
rfind?-last pat s zero zero le h = ground arith
rfind?-last pat s zero (suc j) le h = absurd (omega arith)
rfind?-last pat s (suc k) j le h = elim (ℕ_discrete j (suc k)) [
  | yes e ↦
      let here : starts_with pat (drop (suc k) s) ≡ true =
        ap (λ i. starts_with pat (drop i s)) (sym e) ∙ h in
      rw here (omega arith)
  | no ne ↦ elim (Bool-cases (starts_with pat (drop (suc k) s))) [
    | inl found ↦ rw found (omega arith)
    | inr missed ↦ rw missed (rfind?-last pat s k j (omega arith) h)
  ]
]

-- An occurrence ends inside the text.
OccursAt-inside :
    (pat s : Bytes) (j : ℕ) → j ≤ length s → OccursAt pat s j → j + length pat ≤ length s
OccursAt-inside pat s j le h =
    let size = ap length h in
    omega (arith, size, length-take (length pat) (drop j s), length-drop j s)

-- The last offset at which `InStrRev` looks.
abbrev pub reach : Bytes → ℤ → ℕ
reach s start = if ltb_ℤ start (pos 1) then length s else pos_part start - 1

-- Where `rfind` from `p` down finds the text.
back : Bytes → Bytes → ℕ → Option ℕ
back sub s p =
    if leb (length sub) (length s) then rfind? sub s (min p (length s - length sub)) else none

rfind-back : (sub s : Bytes) (p : ℕ) → rfind s sub p ≡ position (back sub s p)
unfolding rfind back
rfind-back sub s p = ground arith

back-OccursAt :
    (sub s : Bytes) (p : ℕ)
    → (answer (back sub s p) ≡ 0)
      ⊎ (OccursAt sub s (answer (back sub s p) - 1)
          × (answer (back sub s p) - 1 ≤ p)
          × (answer (back sub s p) ≤ length s + 1))
unfolding back
back-OccursAt sub s p = elim (Bool-cases (leb (length sub) (length s))) [
  | inr long ↦ rw long (inl refl)
  | inl short ↦
      let k = min p (length s - length sub) in
      elim (Option-cases (rfind? sub s k)) [
        | inl e ↦ rw (short, e) (inl refl)
        | inr (i, e) ↦
            let (found, le) = rfind?-starts_with sub s k i e in
            let one_less : i + 1 - 1 ≡ i = omega arith in
            rw (short, e, one_less)
              (inr (starts_with-OccursAt sub (drop i s) found, omega arith, omega arith))
      ]
]

back-last :
    (sub s : Bytes) (p j : ℕ) → j ≤ length s → j ≤ p → OccursAt sub s j → j < answer (back sub s p)
unfolding back
back-last sub s p j le le' h =
    let inside = OccursAt-inside sub s j le h in
    let short : leb (length sub) (length s) ≡ true = ground arith in
    rw short (
      rfind?-last sub s (min p (length s - length sub)) j (omega arith)
        (OccursAt-starts_with sub (drop j s) h))

one_based-rfind :
    (sub s : Bytes) (p : ℕ)
    → Fits s
    → one_based (to_long (rfind s sub p)) ≡ pos (answer (back sub s p))
one_based-rfind sub s p f =
    let bound : answer (back sub s p) ≤ length s + 1 = elim (back-OccursAt sub s p) [
      | inl none_found ↦ omega arith
      | inr (found, le, small) ↦ small
    ] in
    rw (rfind-back sub s p) (one_based-position (back sub s p) (omega arith))

-- Where `rfind` is told to begin.
abbrev from : ℤ → ℕ
from start = if ltb_ℤ start (pos 1) then npos else to_size (start -ℤ pos 1)

in_str_rev-back :
    (sub s : Bytes) (start : ℤ)
    → Fits s
    → in_str_rev sub s start ≡ pos (answer (back sub s (from start)))
unfolding in_str_rev
in_str_rev-back sub s start f = elim (Bool-cases (ltb_ℤ start (pos 1))) [
  | inl default ↦ rw default (one_based-rfind sub s npos f)
  | inr given ↦ rw given (one_based-rfind sub s (to_size (start -ℤ pos 1)) f)
]

reach-from :
    (s : Bytes) (start : ℤ)
    → Fits s
    → pos_part start < 2 ^ 63
    → (reach s start ≡ from start) ⊎ ((reach s start ≡ length s) × (length s ≤ from start))
unfolding ◌-ℤ◌
reach-from s start f b = elim (Bool-cases (ltb_ℤ start (pos 1))) [
  | inl default ↦ rw default (inr (refl, omega arith))
  | inr given ↦ rw given (inl (ground arith))
]

-- `InStrRev` answers 0, or the position of an occurrence inside the text, at `start` or before it;
-- if `start` is below 1, anywhere. Every other occurrence there, at an offset `j`, is at the answer
-- or before it; in particular there is none if the answer is 0.
pub in_str_rev-last :
    (sub s : Bytes) (start : ℤ) (j : ℕ)
    → Fits s
    → pos_part start < 2 ^ 63
    → j ≤ length s
    → j ≤ reach s start
    → (r : ℕ) × (in_str_rev sub s start ≡ pos r)
      × ((r ≡ 0) ⊎ (OccursAt sub s (r - 1) × (r - 1 ≤ reach s start)))
      × ((¬ OccursAt sub s j) ⊎ (j < r))
in_str_rev-last sub s start j f b le le' =
    let p = from start in
    let r = answer (back sub s p) in
    (
      r,
      in_str_rev-back sub s start f,
      elim (back-OccursAt sub s p) [
        | inl e ↦ inl e
        | inr (found, below, small) ↦ inr (
          found,
          elim (reach-from s start f b) [
            | inl e ↦ omega (arith, e)
            | inr (e, far) ↦ omega (arith, e)
          ],
        )
      ],
      elim (dec_lt j r) [
        | yes lt ↦ inr lt
        | no ge ↦ inl (λ occurs. ge (
            back-last sub s p j le
              (elim (reach-from s start f b) [
                | inl e ↦ omega (arith, e)
                | inr (e, far) ↦ omega (arith, e)
              ])
              occurs))
      ],
    )
