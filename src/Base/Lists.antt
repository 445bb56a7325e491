-- ===== src/Base/Lists.antt =====
-- Lists measured and indexed by native numbers, under the library's names.
use Prim.Native.Nat.{ℕ, zero, suc, ◌+◌, ◌-◌, ◌*◌, ◌<◌, ◌≤◌, min}
use mathlib.Core.Path.{◌≡◌, refl, sym, ap, ◌∙◌}
use mathlib.Core.Logic.{◌≢◌}
use mathlib.Core.List.{List, [], ◌∷◌, ◌++◌, map, append-nil, append_assoc}
use mathlib.Core.Option.{Option, none, some}
use native.Mathlib.Omega.{arith}

module _ {ℓ} {A : Type ℓ} where
  abbrev pub length : List A → ℕ
  length [] = 0
  length (x ∷ xs) = suc (length xs)

  abbrev pub get_elem? : List A → ℕ → Option A
  get_elem? [] i = none
  get_elem? (x ∷ xs) zero = some x
  get_elem? (x ∷ xs) (suc i) = get_elem? xs i

  -- A write out of bounds changes nothing.
  abbrev pub set : List A → ℕ → A → List A
  set [] i v = []
  set (x ∷ xs) zero v = v ∷ xs
  set (x ∷ xs) (suc i) v = x ∷ set xs i v

  pub length-append : (xs ys : List A) → length (xs ++ ys) ≡ length xs + length ys
  length-append [] ys = omega arith
  length-append (x ∷ xs) ys = omega (arith, length-append xs ys)

module _ {ℓ} {A : Type ℓ} where
  pub length-set : (xs : List A) (i : ℕ) (v : A) → length (set xs i v) ≡ length xs
  length-set [] i v = refl
  length-set (x ∷ xs) zero v = refl
  length-set (x ∷ xs) (suc i) v = ap suc (length-set xs i v)

  pub get_elem?-set_self :
      (xs : List A) (i : ℕ) (v : A) → i < length xs → get_elem? (set xs i v) i ≡ some v
  get_elem?-set_self [] i v h = elim h [ ]
  get_elem?-set_self (x ∷ xs) zero v h = refl
  get_elem?-set_self (x ∷ xs) (suc i) v h = get_elem?-set_self xs i v (omega arith)

  pub get_elem?-set_ne :
      (xs : List A) {i j : ℕ} (v : A) → i ≢ j → get_elem? (set xs i v) j ≡ get_elem? xs j
  get_elem?-set_ne [] v h = refl
  get_elem?-set_ne (x ∷ xs) {i = zero} {j = zero} v h = absurd (h refl)
  get_elem?-set_ne (x ∷ xs) {i = zero} {j = suc j} v h = refl
  get_elem?-set_ne (x ∷ xs) {i = suc i} {j = zero} v h = refl
  get_elem?-set_ne (x ∷ xs) {i = suc i} {j = suc j} v h = get_elem?-set_ne xs v (λ e. h (ap suc e))

module _ {ℓ} {A : Type ℓ} where
  abbrev pub get_or : List A → ℕ → A → A
  get_or [] i d = d
  get_or (x ∷ xs) zero d = x
  get_or (x ∷ xs) (suc i) d = get_or xs i d

  abbrev pub take : ℕ → List A → List A
  take zero xs = []
  take (suc n) [] = []
  take (suc n) (x ∷ xs) = x ∷ take n xs

  abbrev pub drop : ℕ → List A → List A
  drop zero xs = xs
  drop (suc n) [] = []
  drop (suc n) (x ∷ xs) = drop n xs

  abbrev pub replicate : ℕ → A → List A
  replicate zero a = []
  replicate (suc n) a = a ∷ replicate n a

  pub take-append-drop : (n : ℕ) (xs : List A) → take n xs ++ drop n xs ≡ xs
  take-append-drop zero xs = refl
  take-append-drop (suc n) [] = refl
  take-append-drop (suc n) (x ∷ xs) = rw (take-append-drop n xs)

  pub length-take : (n : ℕ) (xs : List A) → length (take n xs) ≡ min n (length xs)
  length-take zero xs = omega arith
  length-take (suc n) [] = omega arith
  length-take (suc n) (x ∷ xs) = omega (arith, length-take n xs)

  pub length-drop : (n : ℕ) (xs : List A) → length (drop n xs) ≡ length xs - n
  length-drop zero xs = omega arith
  length-drop (suc n) [] = omega arith
  length-drop (suc n) (x ∷ xs) = omega (arith, length-drop n xs)

  pub length-replicate : (n : ℕ) (a : A) → length (replicate n a) ≡ n
  length-replicate zero a = refl
  length-replicate (suc n) a = ap suc (length-replicate n a)

  pub length-map {κ} : {B : Type κ} (xs : List A) (f : A → B) → length (map f xs) ≡ length xs
  length-map [] f = refl
  length-map (x ∷ xs) f = ap suc (length-map xs f)

  pub take-nil : (n : ℕ) → take n [] ≡ []
  take-nil zero = refl
  take-nil (suc n) = refl

  pub drop-nil : (n : ℕ) → drop n [] ≡ []
  drop-nil zero = refl
  drop-nil (suc n) = refl

  pub drop-drop : (n m : ℕ) (xs : List A) → drop n (drop m xs) ≡ drop (m + n) xs
  drop-drop n zero xs = ap (λ k. drop k xs) (omega arith)
  drop-drop n (suc m) [] = drop-nil n ∙ sym (drop-nil (suc m + n))
  drop-drop n (suc m) (x ∷ xs) =
      let e : suc (m + n) ≡ suc m + n = omega arith in
      drop-drop n m xs ∙ ap (λ k. drop k (x ∷ xs)) e

  pub take_all : (n : ℕ) (xs : List A) → length xs ≤ n → take n xs ≡ xs
  take_all zero [] h = refl
  take_all zero (x ∷ xs) h = absurd (omega arith)
  take_all (suc n) [] h = refl
  take_all (suc n) (x ∷ xs) h = ap (λ r. x ∷ r) (take_all n xs (omega arith))

  pub drop_all : (n : ℕ) (xs : List A) → length xs ≤ n → drop n xs ≡ []
  drop_all zero [] h = refl
  drop_all zero (x ∷ xs) h = absurd (omega arith)
  drop_all (suc n) [] h = refl
  drop_all (suc n) (x ∷ xs) h = drop_all n xs (omega arith)

  pub take-append : (xs ys : List A) → take (length xs) (xs ++ ys) ≡ xs
  take-append [] ys = refl
  take-append (x ∷ xs) ys = ap (λ r. x ∷ r) (take-append xs ys)

  pub drop-append : (xs ys : List A) → drop (length xs) (xs ++ ys) ≡ ys
  drop-append [] ys = refl
  drop-append (x ∷ xs) ys = drop-append xs ys

  pub take-add-append : (n : ℕ) (xs ys : List A) → take (n + length xs) (xs ++ ys) ≡ xs ++ take n ys
  take-add-append n [] ys = let e : n + 0 ≡ n = omega arith in ap (λ k. take k ys) e
  take-add-append n (x ∷ xs) ys =
      let e : n + suc (length xs) ≡ suc (n + length xs) = omega arith in
      rw e (ap (λ r. x ∷ r) (take-add-append n xs ys))

  pub drop-add-append : (n : ℕ) (xs ys : List A) → drop (n + length xs) (xs ++ ys) ≡ drop n ys
  drop-add-append n [] ys = let e : n + 0 ≡ n = omega arith in ap (λ k. drop k ys) e
  drop-add-append n (x ∷ xs) ys =
      let e : n + suc (length xs) ≡ suc (n + length xs) = omega arith in
      rw e (drop-add-append n xs ys)

  pub take-take-append :
      (p : ℕ) (xs ys : List A) → p ≤ length xs → take p (take p xs ++ ys) ≡ take p xs
  take-take-append zero xs ys h = refl
  take-take-append (suc p) [] ys h = absurd (omega arith)
  take-take-append (suc p) (c ∷ xs) ys h = ap (λ t. c ∷ t) (take-take-append p xs ys (omega arith))

  pub drop-take-append : (p : ℕ) (xs ys : List A) → p ≤ length xs → drop p (take p xs ++ ys) ≡ ys
  drop-take-append zero xs ys h = refl
  drop-take-append (suc p) [] ys h = absurd (omega arith)
  drop-take-append (suc p) (c ∷ xs) ys h = drop-take-append p xs ys (omega arith)

  pub drop-pred : (n : ℕ) (x : A) (xs : List A) → n ≢ 0 → drop n (x ∷ xs) ≡ drop (n - 1) xs
  drop-pred zero x xs h = absurd (h refl)
  drop-pred (suc n) x xs h = let e : n ≡ suc n - 1 = omega arith in ap (λ k. drop k xs) e

  pub take-suc :
      (xs : List A) (k : ℕ) (x : A)
      → get_elem? xs k ≡ some x
      → take (suc k) xs ≡ take k xs ++ x ∷ []
  take-suc [] k x h = ground arith
  take-suc (y ∷ xs) zero x h = ground arith
  take-suc (y ∷ xs) (suc k) x h = ap (λ r. y ∷ r) (take-suc xs k x h)

  pub drop-cons :
      (xs : List A) (k : ℕ) (x : A) → get_elem? xs k ≡ some x → drop k xs ≡ x ∷ drop (suc k) xs
  drop-cons [] k x h = ground arith
  drop-cons (y ∷ xs) zero x h = ground arith
  drop-cons (y ∷ xs) (suc k) x h = drop-cons xs k x h

  pub get_elem?-none : (xs : List A) (k : ℕ) → k < length xs → get_elem? xs k ≢ none
  get_elem?-none [] k h = absurd (omega arith)
  get_elem?-none (x ∷ xs) zero h = λ e. cc
  get_elem?-none (x ∷ xs) (suc k) h = get_elem?-none xs k (omega arith)

  pub length-ne-zero : (xs : List A) → xs ≢ [] → length xs ≢ 0
  length-ne-zero [] h = absurd (h refl)
  length-ne-zero (x ∷ xs) h = omega arith

  -- `n` copies of a list, one behind the other.
  abbrev pub copies : ℕ → List A → List A
  copies zero s = []
  copies (suc n) s = s ++ copies n s

  pub length-copies : (n : ℕ) (s : List A) → length (copies n s) ≡ n * length s
  length-copies zero s = omega arith
  length-copies (suc n) s = grind (arith, length-copies n s, length-append s (copies n s))

  pub copies-append : (n : ℕ) (s : List A) → copies n s ++ s ≡ s ++ copies n s
  copies-append zero s = sym (append-nil s)
  copies-append (suc n) s = append_assoc s (copies n s) s ∙ ap (λ r. s ++ r) (copies-append n s)

module _ {ℓ κ} {A : Type ℓ} (P : A → Type κ) where
  abbrev pub All : List A → Type κ
  All [] = Unit
  All (x ∷ xs) = P x × All xs

  pub All-append : (xs ys : List A) → All xs → All ys → All (xs ++ ys)
  All-append [] ys _ hy = hy
  All-append (x ∷ xs) ys (px, hx) hy = (px, All-append xs ys hx hy)
