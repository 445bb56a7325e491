-- ===== src/Dictionary/Laws.antt =====
-- A dictionary is a finite map, whatever the order of its iteration is.
use kaya_basic.Base.{
  ◌≡◌, refl, sym, ap₂, subst, ◌∙◌, arith, ◌==◌, Bool, true, false, Bool-cases, Option-cases, ==_iff,
  inl, inr, ◌&&◌, Option, none, some, [], ◌∷◌, if◌then◌else◌, Bytes,
}
use mathlib.Core.Bool.{true≢false}
use mathlib.Core.List.{Permᴰ}
use kaya_basic.Cpp.Text.{equal}
use kaya_basic.Dictionary.{Entry, Dictionary, find_key, write, remove, call, put}

pub equal_self : (s : Bytes) → equal s s ≡ true
unfolding equal
equal_self [] = refl
equal_self (c ∷ s) = ground (arith, equal_self s)

both_true : (a b : Bool) → (a && b) ≡ true → (a ≡ true) × (b ≡ true)
both_true true b h = (refl, h)
both_true false b h = ground arith

pub equal_sound : (s t : Bytes) → equal s t ≡ true → s ≡ t
unfolding equal
equal_sound [] [] h = refl
equal_sound [] (d ∷ t) h = ground arith
equal_sound (c ∷ s) [] h = ground arith
equal_sound (c ∷ s) (d ∷ t) h =
    let (first, rest) = both_true (c == d) (equal s t) h in
    ap₂ (λ x y. x ∷ y) ((==_iff c d).0 first) (equal_sound s t rest)

-- Two keys that differ are not both equal to a third.
pub equal_apart : (k l key : Bytes) → equal l k ≡ false → equal k key ≡ true → equal l key ≡ false
equal_apart k l key h e = rw (equal_sound k key e) at h

pub equal_apart_sym : (l k : Bytes) → equal l k ≡ false → equal k l ≡ false
equal_apart_sym l k h = elim (Bool-cases (equal k l)) [
  | inl e ↦ absurd (true≢false (sym (equal_self l) ∙ equal_apart k l l h e))
  | inr e ↦ e
]

module _ {T : Type 0} where
  -- No key has two entries.
  abbrev pub Distinct : Dictionary T → Type 0
  Distinct [] = Unit
  Distinct ((k, v) ∷ d) = (find_key k d ≡ none) × Distinct d

  no_match :
      (b : Bool) (v : T) (rest : Option T)
      → (if b then some v else rest) ≡ none
      → (b ≡ false) × (rest ≡ none)
  no_match true v rest h = ground arith
  no_match false v rest h = (refl, h)

  -- What the entries are, without their order.
  abbrev Same : Dictionary T → Dictionary T → Type 0
  Same d d' = Distinct d' × ((key : Bytes) → find_key key d' ≡ find_key key d)

  Same-behind :
      (e : Entry T) (d d' : Dictionary T) → Same d d' → Distinct (e ∷ d) → Same (e ∷ d) (e ∷ d')
  unfolding find_key
  Same-behind (k, v) d d' (distinct, same) (new, _) =
      ((same k ∙ new, distinct), λ key. rw (same key) refl)

  Same-swapped :
      (e f : Entry T) (d : Dictionary T) → Distinct (e ∷ f ∷ d) → Same (e ∷ f ∷ d) (f ∷ e ∷ d)
  unfolding find_key
  Same-swapped (k, v) (l, w) d (new, (new', distinct)) =
      let (apart, absent) = no_match (equal l k) w (find_key k d) new in
      ((rw (equal_apart_sym l k apart) new', (absent, distinct)), same_key)
    where
      same_key :
          (key : Bytes) → find_key key ((l, w) ∷ (k, v) ∷ d) ≡ find_key key ((k, v) ∷ (l, w) ∷ d)
      same_key key = elim (Bool-cases (equal k key)) [
        | inl e ↦ rw (e, equal_apart k l key (no_match (equal l k) w (find_key k d) new).0 e) refl
        | inr e ↦ rw e refl
      ]

  perm-Distinct : (d d' : Dictionary T) → Permᴰ d d' → Distinct d → Same d d'
  perm-Distinct d d' Permᴰ.nil h = (tt, λ key. refl)
  perm-Distinct d d' (Permᴰ.cons {a = a} {b = b} {l₁ = l₁} {l₂ = l₂} e p) h =
      subst (λ b. Same (a ∷ l₁) (b ∷ l₂)) e (Same-behind a l₁ l₂ (perm-Distinct l₁ l₂ p h.1) h)
  perm-Distinct d d' (Permᴰ.swap {a = a} {b = b} {a' = a'} {b' = b'} {l = l} e f) h =
      subst (λ x. Same (a ∷ b ∷ l) (x ∷ b' ∷ l)) f
        (subst (λ x. Same (a ∷ b ∷ l) (b ∷ x ∷ l)) e (Same-swapped a b l h))
  perm-Distinct d d' (Permᴰ.trans {l₁ = l₁} {l₂ = l₂} {l₃ = l₃} p q) h =
      let (h', same) = perm-Distinct l₁ l₂ p h in
      let (h'', same') = perm-Distinct l₂ l₃ q h' in (h'', λ key. same' key ∙ same key)

  write-view :
      (key : Bytes) (v u : T) (d : Dictionary T)
      → Distinct d
      → find_key key d ≡ some u
      → Distinct (write key v d)
        × ((k : Bytes)
            → find_key k (write key v d) ≡ (if equal key k then some v else find_key k d))
  unfolding write find_key
  write-view key v u [] h e = ground arith
  write-view key v u ((l, w) ∷ d) (new, h) e = elim (Bool-cases (equal l key)) [
    | inl e' ↦ rw e' (
      (new, h),
      λ k. elim (Bool-cases (equal l k)) [
        | inl m ↦ rw (m, rw (equal_sound l key e') at m) refl
        | inr m ↦ rw (m, rw (equal_sound l key e') at m) refl
      ],
    )
    | inr e' ↦
        let (h', view) = write-view key v u d h (rw e' at e) in
        rw e' (
          (rw (view l, equal_apart_sym l key e') new, h'),
          λ k. elim (Bool-cases (equal l k)) [
            | inl m ↦ rw (m, equal_apart l key k (equal_apart_sym l key e') m) refl
            | inr m ↦ rw (m, view k) refl
          ],
        )
  ]

  pub remove-view :
      (key : Bytes) (d : Dictionary T)
      → Distinct d
      → Distinct (remove key d)
        × ((k : Bytes) → find_key k (remove key d) ≡ (if equal key k then none else find_key k d))
  unfolding remove find_key
  remove-view key [] h = (tt, λ k. ground arith)
  remove-view key ((l, w) ∷ d) (new, h) = elim (Bool-cases (equal l key)) [
    | inl e ↦ rw e (
      h,
      λ k. elim (Bool-cases (equal l k)) [
        | inl m ↦ rw (rw (equal_sound l key e) at m) (rw (equal_sound l k m) at new)
        | inr m ↦ rw (m, rw (equal_sound l key e) at m) refl
      ],
    )
    | inr e ↦
        let (h', view) = remove-view key d h in
        rw e (
          (rw (view l, equal_apart_sym l key e) new, h'),
          λ k. elim (Bool-cases (equal l k)) [
            | inl m ↦ rw (m, equal_apart l key k (equal_apart_sym l key e) m) refl
            | inr m ↦ rw (m, view k) refl
          ],
        )
  ]

-- The finite map that a dictionary stands for.
abbrev pub View : Type 0 → Type 0
View T = Bytes → Option T

abbrev pub view : {T : Type 0} → Dictionary T → View T
view d key = find_key key d

unfoldable pub put_view : {T : Type 0} → Bytes → T → View T → View T
put_view key v m k = if equal key k then some v else m k

unfoldable pub remove_view : {T : Type 0} → Bytes → View T → View T
remove_view key m k = if equal key k then none else m k

module _ {T : Type 0} where
  module _ (place : Entry T → Dictionary T → Dictionary T) (initial : T)
      (placed : (e : Entry T) (d : Dictionary T) → Permᴰ (e ∷ d) (place e d)) where
    call-absent :
        (key : Bytes) (d : Dictionary T)
        → find_key key d ≡ none
        → call place initial key d ≡ place (key, initial) d
    unfolding call
    call-absent key d e = ground arith

    call-present :
        (key : Bytes) (d : Dictionary T) (u : T)
        → find_key key d ≡ some u
        → call place initial key d ≡ d
    unfolding call
    call-present key d u e = ground arith

    call-view :
        (key : Bytes) (d : Dictionary T)
        → Distinct d
        → Distinct (call place initial key d)
          × ((u : T) × (find_key key (call place initial key d) ≡ some u))
          × ((k : Bytes)
              → equal key k ≡ false
              → find_key k (call place initial key d) ≡ find_key k d)
    call-view key d h = elim (Option-cases (find_key key d)) [
      | inl e ↦
          let (h', same) =
            perm-Distinct ((key, initial) ∷ d) (place (key, initial) d) (placed (key, initial) d)
              (e, h) in
          rw (call-absent key d e) (
            h',
            (initial, same key ∙ unfold find_key in rw (equal_self key) refl),
            λ k m. same k ∙ unfold find_key in rw m refl,
          )
      | inr (u, e) ↦ rw (call-present key d u e) (h, (u, e), λ k m. refl)
    ]

    pub put-view :
        (key : Bytes) (v : T) (d : Dictionary T)
        → Distinct d
        → Distinct (put place initial key v d)
          × ((k : Bytes) → view (put place initial key v d) k ≡ put_view key v (view d) k)
    unfolding put put_view
    put-view key v d h =
        let (h1, (u, e), same) = call-view key d h in
        let (h2, written) = write-view key v u (call place initial key d) h1 e in
        (
          h2,
          λ k. written k ∙ elim (Bool-cases (equal key k)) [
            | inl m ↦ rw m refl
            | inr m ↦ rw (m, same k m) refl
          ],
        )
