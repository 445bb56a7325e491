-- ===== src/Cpp/Text/Find.antt =====
-- What the searches of `std::string` find.
use kaya_basic.Base.{
  ℕ, zero, suc, ◌+◌, ◌≤◌, ◌<◌, true, false, none, some, [], ◌∷◌, ◌≡◌, ◌≢◌, refl, arith, length,
  take, drop, take_all, Bytes,
}
use kaya_basic.Cpp.Text.{starts_with, find?}

-- `pat` stands in `s` at position `i`.
abbrev pub OccursAt : Bytes → Bytes → ℕ → Type 0
OccursAt pat s i = take (length pat) (drop i s) ≡ pat

pub starts_with-OccursAt : (pat s : Bytes) → starts_with pat s ≡ true → take (length pat) s ≡ pat
unfolding starts_with
starts_with-OccursAt [] s h = refl
starts_with-OccursAt (c ∷ pat) [] h = ground arith
starts_with-OccursAt (c ∷ pat) (d ∷ s) h = ground (arith, starts_with-OccursAt pat s)

pub OccursAt-starts_with : (pat s : Bytes) → take (length pat) s ≡ pat → starts_with pat s ≡ true
unfolding starts_with
OccursAt-starts_with [] s h = refl
OccursAt-starts_with (c ∷ pat) [] h = ground arith
OccursAt-starts_with (c ∷ pat) (d ∷ s) h = ground (arith, OccursAt-starts_with pat s)

pub find?-starts_with :
    (pat s : Bytes) (i : ℕ) → find? pat s ≡ some i → starts_with pat (drop i s) ≡ true
unfolding find?
find?-starts_with pat [] i h = ground arith
find?-starts_with pat (c ∷ s) zero h = ground arith
find?-starts_with pat (c ∷ s) (suc i) h = ground (arith, find?-starts_with pat s i)

-- No match stands before the one that is found.
pub find?-first :
    (pat s : Bytes) (i j : ℕ) → find? pat s ≡ some i → j < i → starts_with pat (drop j s) ≡ false
unfolding find?
find?-first pat [] i j h lt = ground arith
find?-first pat (c ∷ s) zero j h lt = absurd (omega arith)
find?-first pat (c ∷ s) (suc i) zero h lt = ground arith
find?-first pat (c ∷ s) (suc i) (suc j) h lt = ground (arith, find?-first pat s i j)

pub find?-none :
    (pat s : Bytes) (j : ℕ) → find? pat s ≡ none → j ≤ length s → starts_with pat (drop j s) ≡ false
unfolding find?
find?-none pat [] zero h le = ground arith
find?-none pat [] (suc j) h le = absurd (omega arith)
find?-none pat (c ∷ s) zero h le = ground arith
find?-none pat (c ∷ s) (suc j) h le = ground (arith, find?-none pat s j)

starts_with-length : (pat s : Bytes) → starts_with pat s ≡ true → length pat ≤ length s
unfolding starts_with
starts_with-length [] s h = omega arith
starts_with-length (c ∷ pat) [] h = ground arith
starts_with-length (c ∷ pat) (d ∷ s) h = ground (arith, starts_with-length pat s)

-- A match lies inside the text.
pub find?-le : (pat s : Bytes) (i : ℕ) → find? pat s ≡ some i → i + length pat ≤ length s
unfolding find?
find?-le pat [] i h = ground (arith, starts_with-length pat [])
find?-le pat (c ∷ s) zero h = ground (arith, starts_with-length pat (c ∷ s))
find?-le pat (c ∷ s) (suc i) h = ground (arith, find?-le pat s i)

pub starts_with-nil : (pat : Bytes) → pat ≢ [] → starts_with pat [] ≡ false
unfolding starts_with
starts_with-nil [] h = absurd (h refl)
starts_with-nil (c ∷ pat) h = refl

pub find?-nil : (pat : Bytes) → pat ≢ [] → find? pat [] ≡ none
unfolding find?
find?-nil pat h = rw (starts_with-nil pat h)

pub find?-self : (s : Bytes) → find? s s ≡ some 0
unfolding find?
find?-self [] = rw (OccursAt-starts_with [] [] refl)
find?-self (c ∷ s) =
    rw (OccursAt-starts_with (c ∷ s) (c ∷ s) (take_all (length (c ∷ s)) (c ∷ s) (omega arith)))
