-- ===== src/Strings/Split/Steps.antt =====
-- One round of the loop of `Split` and `SplitAny`, by what the search answers.
use kaya_basic.Base.{
  ℕ, zero, suc, ◌+◌, ◌-◌, ◌≤◌, ◌<◌, ◌^◌, ◌≡◌, arith, some, List, [], ◌∷◌, ◌++◌, if◌then◌else◌,
  length, take, length-append, Bytes, Exception, throws, ok,
}
use kaya_basic.Array.{Array}
use kaya_basic.Array.Parts.{filled, parts_array, put-filled, redim1-preserve}
use kaya_basic.Cpp.Int.{ℤ, pos, ◌+ℤ◌, ◌-ℤ◌, pos-sub-pos, eqb_ℤ}
use kaya_basic.Cpp.Word.{to_size, to_int}
use kaya_basic.Strings.Slice.{left}
use kaya_basic.Strings.Slice.Laws.{left-take}
use kaya_basic.Strings.Split.{cut, finish, split_from}

pub finish-filled :
    (done : List Bytes) (y item : Bytes) (room : List Bytes)
    → length done < 2 ^ 31
    → finish (filled done (y ∷ room)) item (pos (length done))
      ≡ ok (parts_array (done ++ item ∷ []))
unfolding finish
finish-filled done y item room h = rw (
  put-filled done y item room (omega arith),
  (redim1-preserve (done ++ item ∷ []) room (length done)
      (omega (arith, length-append done (item ∷ []))) (omega arith)).0,
)

pub int_of_pos : (n : ℕ) → n < 2 ^ 31 → to_int (to_size (pos n)) ≡ pos n
int_of_pos n h = ground arith

-- The part before the match, also where the code writes the empty string.
pub part :
    (item : Bytes) (i : ℕ)
    → i ≤ length item
    → length item < 2 ^ 31
    → (if eqb_ℤ (pos (i + 1)) (pos 1) then ok [] else left item (pos (i + 1) -ℤ pos 1))
      ≡ ok (take i item)
part item zero le h = ground arith
part item (suc i) le h =
    let e : suc i + 1 - 1 ≡ suc i = omega arith in
    rw
      (
        pos-sub-pos (suc i + 1) 1 (omega arith),
        e,
        left-take item (suc i) (omega arith) (omega arith),
      )
      (ground arith)

module _ (search : Bytes → ℤ) (skip : ℤ) (fuel : ℕ) (item : Bytes) (idx : ℤ)
    (dest : Array Bytes) where
  pub split_from_stop :
      search item ≡ pos 0
      → split_from search skip (suc fuel) item idx dest ≡ some (finish dest item (idx +ℤ pos 1))
  unfolding split_from
  split_from_stop e = ground arith

  pub split_from_go :
      (i : ℕ) (dest' : Array Bytes) (item' : Bytes)
      → search item ≡ pos (i + 1)
      → cut dest item (pos (i + 1)) (idx +ℤ pos 1) skip ≡ ok (dest', item')
      → split_from search skip (suc fuel) item idx dest
        ≡ split_from search skip fuel item' (idx +ℤ pos 1) dest'
  unfolding split_from
  split_from_go i dest' item' e c = ground arith

  pub split_from_throw :
      (i : ℕ) (e : Exception)
      → search item ≡ pos (i + 1)
      → cut dest item (pos (i + 1)) (idx +ℤ pos 1) skip ≡ throws e
      → split_from search skip (suc fuel) item idx dest ≡ some (throws e)
  unfolding split_from
  split_from_throw i e found thrown = ground arith
