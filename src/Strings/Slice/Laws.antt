-- ===== src/Strings/Slice/Laws.antt =====
-- Exact results of `Left`, `Mid`, `Right`, `Delete` and `Insert`, and how they fit together.
use kaya_basic.Base.{
  ℕ, ◌+◌, ◌-◌, ◌≤◌, ◌<◌, ◌^◌, ◌⊎◌, [], ◌++◌, ◌≡◌, ap, ◌∙◌, arith, dec_lt, length, take, drop,
  take_all, take-nil, drop_all, take-append-drop, take-take-append, drop-take-append, length-take,
  length-drop, length-append, drop-append, append_assoc, Bytes, ok, throws, out_of_range, ◌>>=◌,
}
use kaya_basic.Cpp.Int.{ℤ, pos, negsuc}
use kaya_basic.Cpp.Word.{Fits, to_size}
use kaya_basic.Strings.Slice.{len, len-pos, left, mid, right, delete, insert}

pub left-take : (s : Bytes) (n : ℕ) → Fits s → n < 2 ^ 63 → left s (pos n) ≡ ok (take n s)
unfolding left
left-take s n f h = ground (arith, take_all n s, take_all (length s) s)

pub left-negative : (s : Bytes) (n : ℕ) → Fits s → n < 2 ^ 63 → left s (negsuc n) ≡ ok s
unfolding left
left-negative s n f h = ground (arith, take_all (length s) s)

pub mid-take-drop :
    (s : Bytes) (p n : ℕ)
    → Fits s
    → p < length s
    → n < 2 ^ 63
    → mid s (pos (p + 1)) (pos n) ≡ ok (take n (drop p s))
unfolding mid
mid-take-drop s p n f h k = ground arith

pub mid_inside :
    (s : Bytes) (p : ℕ) (count : ℤ)
    → Fits s
    → p < length s
    → mid s (pos (p + 1)) count ≡ ok (take (to_size count) (drop p s))
unfolding mid
mid_inside s p count f h = ground arith

pub mid-nil :
    (s : Bytes) (p : ℕ) (count : ℤ) → Fits s → length s ≤ p → mid s (pos (p + 1)) count ≡ ok []
unfolding mid
mid-nil s p count f h = ground arith

pub mid-drop : (s : Bytes) (p : ℕ) → Fits s → mid s (pos (p + 1)) (negsuc 0) ≡ ok (drop p s)
unfolding mid
mid-drop s p f = elim (dec_lt p (length s)) [
  | yes inside ↦
      mid_inside s p (negsuc 0) f inside
      ∙ ap ok (take_all (to_size (negsuc 0)) (drop p s) (omega (arith, length-drop p s)))
  | no past ↦ rw (drop_all p s (omega arith)) (mid-nil s p (negsuc 0) f (omega arith))
]

pub right-drop :
    (s : Bytes) (n : ℕ) → Fits s → n < 2 ^ 63 → right s (pos n) ≡ ok (drop (length s - n) s)
unfolding right
right-drop s n f h = ground (
  arith,
  length-drop (length s - n) s,
  take_all n (drop (length s - n) s),
  take_all (length s) (drop 0 s),
)

right-negative :
    (s : Bytes) (n : ℕ) → Fits s → n < 2 ^ 63 → right s (negsuc n) ≡ throws out_of_range
unfolding right
right-negative s n f h = ground arith

-- For every count that is not negative, `Left(s, n)` followed by `Mid(s, n + 1)` is `s` again.
pub left-append-mid :
    (s : Bytes) (n : ℕ)
    → Fits s
    → n + 1 < 2 ^ 63
    → (left s (pos n) >>= λ a. mid s (pos (n + 1)) (negsuc 0) >>= λ b. ok (a ++ b)) ≡ ok s
left-append-mid s n f h = rw (left-take s n f (omega arith), mid-drop s n f, take-append-drop)

-- `Insert` puts the text before position `p`; what does not fit in the string is thrown.
pub insert_inside :
    (s t : Bytes) (p : ℕ)
    → p ≤ length s
    → Fits s
    → insert s t (pos (p + 1)) ≡ ok (take p s ++ t ++ drop p s)
unfolding insert
insert_inside s t p h f = ground arith

pub delete_inside :
    (s : Bytes) (p n : ℕ)
    → p ≤ length s
    → Fits s
    → n < 2 ^ 63
    → delete s (pos (p + 1)) (pos n) ≡ ok (take p s ++ drop n (drop p s))
unfolding delete
delete_inside s p n h f k = ground arith

-- Inserting a text at a position inside the string or behind its end, and deleting as many bytes
-- there, gives the string back.
pub delete-insert :
    (s t : Bytes) (p : ℕ)
    → p ≤ length s
    → length s + length t < 2 ^ 63 - 1
    → (insert s t (pos (p + 1)) >>= λ r. delete r (pos (p + 1)) (pos (length t))) ≡ ok s
delete-insert s t p h f = rw (
  insert_inside s t p h (omega arith),
  append_assoc,
  delete_inside (take p s ++ (t ++ drop p s)) p (length t) (omega (arith, bound))
      (omega (arith, bound)) (omega arith),
  take-take-append p s (t ++ drop p s) h,
  drop-take-append p s (t ++ drop p s) h,
  drop-append,
  take-append-drop,
)
  where
    bound : length (take p s ++ (t ++ drop p s)) ≡ length s + length t
    bound = omega (
      arith,
      length-append (take p s) (t ++ drop p s),
      length-append t (drop p s),
      length-take p s,
      length-drop p s,
    )

-- `Insert` throws at a position that is 0 or behind `Len(s) + 1`.
pub insert-throws :
    (s t : Bytes) (p : ℕ)
    → Fits s
    → p < 2 ^ 63
    → (p ≡ 0) ⊎ (length s + 1 < p)
    → insert s t (pos p) ≡ throws out_of_range
unfolding insert
insert-throws s t p f h k = ground arith

pub left-nil : (n : ℕ) → left [] (pos n) ≡ ok []
unfolding left
left-nil n = ap ok (take-nil _)

pub mid-rest : (s : Bytes) (p : ℕ) → Fits s → mid s (pos (p + 1)) (len s) ≡ ok (drop p s)
mid-rest s p f = elim (dec_lt p (length s)) [
  | yes inside ↦
      mid_inside s p (len s) f inside
      ∙ ap ok (
          take_all (to_size (len s)) (drop p s) (rw (len-pos s f) (omega (arith, length-drop p s))))
  | no past ↦ rw (drop_all p s (omega arith)) (mid-nil s p (len s) f (omega arith))
]
