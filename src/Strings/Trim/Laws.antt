-- ===== src/Strings/Trim/Laws.antt =====
-- What the trimming functions keep and what they drop.
use kaya_basic.Base.{
  ℕ, ◌≢◌, ◌≡◌, refl, sym, ap, subst, ◌∙◌, arith, [], ◌∷◌, ◌++◌, true, false, Bool-cases,
  if◌then◌else◌, inl, inr, All, append_assoc, Bytes,
}
use kaya_basic.Cpp.Text.{c_str}
use kaya_basic.Strings.Trim.{is_blank, last_not_blank, skip_blanks, l_trim, r_trim, trim}

abbrev pub AllBlank : Bytes → Type 0
AllBlank = All (λ c. is_blank c ≡ true)

-- No byte is NUL, so that a C string holds the whole text.
abbrev pub NoNul : Bytes → Type 0
NoNul = All (λ c. c ≢ 0)

abbrev pub StartsClean : Bytes → Type 0
StartsClean [] = Unit
StartsClean (c ∷ s) = is_blank c ≡ false

abbrev pub EndsClean : Bytes → Type 0
EndsClean [] = Unit
EndsClean (c ∷ []) = is_blank c ≡ false
EndsClean (c ∷ d ∷ s) = EndsClean (d ∷ s)

pub c_str_lem : (s : Bytes) → NoNul s → c_str s ≡ s
unfolding c_str
c_str_lem [] h = refl
c_str_lem (c ∷ s) (hc, hs) = ground (arith, c_str_lem s hs)

-- The blanks that `skip_blanks` passes over.
lead : Bytes → Bytes
lead [] = []
lead (c ∷ s) = let rest = lead s in if is_blank c then c ∷ rest else []

lead-append : (s : Bytes) → s ≡ lead s ++ skip_blanks s
unfolding lead skip_blanks
lead-append [] = refl
lead-append (c ∷ s) = ground (arith, lead-append s)

lead-AllBlank : (s : Bytes) → AllBlank (lead s)
unfolding lead
lead-AllBlank [] = tt
lead-AllBlank (c ∷ s) = ground (arith, lead-AllBlank s)

skip_blanks-StartsClean : (s : Bytes) → StartsClean (skip_blanks s)
unfolding skip_blanks
skip_blanks-StartsClean [] = tt
skip_blanks-StartsClean (c ∷ s) = ground (arith, skip_blanks-StartsClean s)

-- One byte more at the front of what is trimmed at the end.
r_cons : ℕ → Bytes → Bytes
r_cons c [] = if last_not_blank c then c ∷ [] else []
r_cons c (d ∷ r) = c ∷ d ∷ r

r_trim-cons : (c : ℕ) (s : Bytes) → r_trim (c ∷ s) ≡ r_cons c (r_trim s)
unfolding r_trim r_cons
r_trim-cons c [] = ground arith
r_trim-cons c (d ∷ s) = ground arith

r_cons_step :
    (c : ℕ) (r b : Bytes)
    → AllBlank b
    → EndsClean r
    → (b' : Bytes) × (c ∷ (r ++ b) ≡ r_cons c r ++ b') × AllBlank b' × EndsClean (r_cons c r)
unfolding r_cons
r_cons_step c (d ∷ r) b hb hr = (b, refl, hb, hr)
r_cons_step c [] b hb hr = elim (Bool-cases (is_blank c)) [
  | inl e ↦ (c ∷ b, ground arith, (e, hb), ground arith)
  | inr e ↦ (b, ground arith, hb, ground arith)
]

r_trim_lem : (s : Bytes) → (b : Bytes) × (s ≡ r_trim s ++ b) × AllBlank b × EndsClean (r_trim s)
r_trim_lem [] = unfold r_trim in ([], refl, tt, tt)
r_trim_lem (c ∷ s) =
    let (b, e, hb, hr) = r_trim_lem s in
    let (b', e', hb', hr') = r_cons_step c (r_trim s) b hb hr in
    rw (r_trim-cons c s) (b', ap (λ t. c ∷ t) e ∙ e', hb', hr')

NoNul-append : (a b : Bytes) → NoNul (a ++ b) → NoNul a × NoNul b
NoNul-append [] b h = (tt, h)
NoNul-append (c ∷ a) b (hc, h) = let (ha, hb) = NoNul-append a b h in ((hc, ha), hb)

StartsClean-append : (r b : Bytes) → StartsClean (r ++ b) → StartsClean r
StartsClean-append [] b k = tt
StartsClean-append (c ∷ r) b k = k

trim-r_trim : (s : Bytes) → NoNul s → trim s ≡ r_trim (skip_blanks s)
unfolding trim l_trim
trim-r_trim s h =
    let (b, e, _, _) = r_trim_lem (skip_blanks s) in
    let (_, ht) = NoNul-append (lead s) (skip_blanks s) (rw (lead-append s) at h) in
    let (hr, _) = NoNul-append (r_trim (skip_blanks s)) b (rw e at ht) in
    rw (c_str_lem s h) (c_str_lem (r_trim (skip_blanks s)) hr)

-- `Trim` of a text with no NUL drops blanks at both ends and nothing else: what is left neither
-- begins nor ends with a blank.
pub trim-decomposes :
    (s : Bytes)
    → NoNul s
    → (a b : Bytes) × (s ≡ a ++ trim s ++ b)
      × AllBlank a
      × AllBlank b
      × StartsClean (trim s)
      × EndsClean (trim s)
trim-decomposes s h =
    let (b, e, hb, hr) = r_trim_lem (skip_blanks s) in
    rw (trim-r_trim s h) (
      lead s,
      b,
      (lead-append s ∙ ap (λ t. lead s ++ t) e) ∙ sym (append_assoc (lead s) _ b),
      lead-AllBlank s,
      hb,
      StartsClean-append _ b (subst StartsClean e (skip_blanks-StartsClean s)),
      hr,
    )
